-- ===== src/Gateway/Amounts.antt =====
-- mock.go: the amount that Stripe is asked for, against the amount that the service records.
use shopping_cart_payment.Prelude.{
  ℕ, ◌+◌, ◌*◌, ◌/◌, ◌%◌, ◌^◌, ◌≤◌, ◌<◌, ◌≡◌, ap, ◌∙◌, ◌↔◌, pos, arith,
}
use shopping_cart_payment.Decimal.{FitsScale, units}
use shopping_cart_payment.Decimal.Laws.{ShiftLaws}
use shopping_cart_payment.World.{Env}
use shopping_cart_payment.Gateway.Dto.{PaymentRequest}
use shopping_cart_payment.Gateway.Providers.{stripe_params, int64}

cents :
    (n : ℕ)
    → (n * 10 ^ 2 / 10 ^ 4 * 100 ≤ n)
      × (n < n * 10 ^ 2 / 10 ^ 4 * 100 + 100)
      × ((n * 10 ^ 2 / 10 ^ 4 * 100 ≡ n) ↔ (n % 100 ≡ 0))
cents n = (omega arith, omega arith, (λ h. omega arith, λ h. omega arith))

int64_fits : (c : ℕ) → c < 2 ^ 63 → int64 (pos c) ≡ pos c
unfolding int64
int64_fits c h = ground arith

-- Stripe is asked for whole cents, never for more than the amount and for less than a cent too
-- little: exactly for the amount when it has at most two decimals, and else for less. This holds for
-- an amount that is not negative and has at most four decimals, n ten-thousandths, when its whole
-- cents are below 2^63, as an int64 counts them, and Shift and the cut of IntPart compute exactly
-- (`ShiftLaws`).
pub stripe_params-amount :
    (env : Env)
    → ShiftLaws env.decimals
    → (request : PaymentRequest) (n : ℕ) → FitsScale request.amount
    → units request.amount ≡ pos n
    → n / 100 < 2 ^ 63
    → (c : ℕ) × ((stripe_params env request).amount ≡ pos c)
      × (c * 100 ≤ n)
      × (n < c * 100 + 100)
      × ((c * 100 ≡ n) ↔ (n % 100 ≡ 0))
unfolding stripe_params
stripe_params-amount env laws request n fits value small =
    let bounds = cents n in
    (
      n * 10 ^ 2 / 10 ^ 4,
      ap int64 (laws.shift_int_part_units request.amount n 2 fits value)
          ∙ int64_fits (n * 10 ^ 2 / 10 ^ 4) (omega arith),
      bounds.0,
      bounds.1,
      bounds.2,
    )
