-- ===== src/Gateway/Providers/Stripe.antt =====
-- mock.go, the Stripe gateway.
use shopping_cart_payment.Prelude.{
  ℕ, suc, ◌-◌, ◌%◌, ◌^◌, ltb, ℤ, pos, negsuc, Bool, true, not, Option, none, some, [], ◌∷◌, ◌++◌,
  if◌then◌else◌,
}
use shopping_cart_payment.Text.{Text, bytes, text_eq, is_blank, to_lower}
use shopping_cart_payment.Gateway.Dto.{PaymentRequest, PaymentResult, payment_result_failure}
use shopping_cart_payment.World.{
  Env, Action, StripeAnswer, stripe_error, other_error, intent, PaymentIntentParams,
}
use shopping_cart_payment.Errors.{ok}

pub record StripeGateway : Type 0 where
  pub enabled : Bool
  pub api_key : Text

-- `NewStripeGateway`
abbrev pub new_stripe_gateway : (enabled : Bool) → (api_key : Text) → StripeGateway
new_stripe_gateway enabled api_key = record { enabled = enabled; api_key = api_key }

-- The 64 low bits of an integer.
abbrev pub low_bits : ℤ → ℕ
low_bits (pos n) = n % 2 ^ 64
low_bits (negsuc n) = 2 ^ 64 - 1 - n % 2 ^ 64

-- The int64 with these bits: an integer that does not fit wraps.
unfoldable pub int64 : ℤ → ℤ
int64 z =
    let bits = low_bits z in if ltb bits (2 ^ 63) then pos bits else negsuc (2 ^ 64 - 1 - bits)

module _ (env : Env) where
  -- The parameters that `StripeGateway.ProcessPayment` builds.
  unfoldable pub stripe_params : PaymentRequest → PaymentIntentParams
  unfolding is_blank to_lower
  stripe_params request = record {
    amount = int64 (env.decimals.shift_int_part request.amount 2);
    currency = to_lower env.lower_tables request.currency;
    payment_method = request.payment_method_token;
    confirm = true;
    automatic_payment_methods = true;
    allow_redirects = bytes "never";
    description = if is_blank request.description then none else some request.description;
    idempotency_key =
        if is_blank request.idempotency_key then none else some request.idempotency_key;
    expand = bytes "latest_charge" ∷ [];
  }

  abbrev card_part : (Text × Text → Text) → Option (Text × Text) → Text
  card_part part none = []
  card_part part (some card) = part card

  unfoldable pub stripe_result : StripeAnswer → PaymentResult
  unfolding payment_result_failure text_eq
  stripe_result (stripe_error code text) = payment_result_failure code text
  stripe_result other_error =
      payment_result_failure (bytes "stripe_error") (bytes "payment processing failed")
  stripe_result (intent id status card) =
      if not (text_eq status (bytes "succeeded"))
      then payment_result_failure (bytes "payment_" ++ status)
          (bytes "Stripe payment not completed: " ++ status)
      else (record {
        success = true;
        transaction_id = id;
        payment_intent_id = id;
        status = bytes "completed";
        card_last4 = card_part (λ c. c.0) card;
        card_brand = card_part (λ c. c.1) card;
        error_code = [];
        error_message = [];
        raw_response = [];
      })

  -- `StripeGateway.ProcessPayment`
  unfoldable pub stripe_process_payment : StripeGateway → PaymentRequest → Action PaymentResult
  stripe_process_payment g request w =
      if not g.enabled
      then (
        ok (
            payment_result_failure (bytes "gateway_disabled")
              (bytes "Stripe gateway is not enabled")),
        w,
      )
      else if is_blank request.payment_method_token
      then (
        ok (
            payment_result_failure (bytes "missing_payment_method")
              (bytes "PaymentMethod ID is required")),
        w,
      )
      else (
        ok (stripe_result (env.stripe w.stripe_calls g.api_key (stripe_params request))),
        record w { stripe_calls = suc w.stripe_calls },
      )
