-- ===== src/Decimal.antt =====
-- github.com/shopspring/decimal as the program uses it. A decimal is a coefficient and a power of
-- ten; the package's functions are a parameter, with what the program relies on as `Laws`.
pub mod Laws
pub mod Units
use Prim.Native.Nat.{Ordering}
use shopping_cart_payment.Prelude.{
  ℕ, ◌+◌, ◌-◌, ◌^◌, ℤ, pos, negsuc, ◌*ℤ◌, ◌≤ℤ◌, pos_part, neg_part, Bool, true, false, ltb_ℤ,
}
use shopping_cart_payment.Text.{Text}
use shopping_cart_payment.Errors.{Result}

-- coefficient * 10 ^ exponent
pub record Decimal : Type 0 where
  pub coefficient : ℤ
  pub exponent : ℤ

-- The package's methods that the program calls.
pub record DecimalOps : Type 0 where
  pub zero : Decimal
  pub add : Decimal → Decimal → Decimal
  pub sub : Decimal → Decimal → Decimal
  -- Cmp answers -1, 0 or 1
  pub cmp : Decimal → Decimal → Ordering
  -- String
  pub to_string : Decimal → Text
  -- StringFixed
  pub string_fixed : Decimal → ℕ → Text
  -- NewFromString
  pub of_string : Text → Result Decimal
  -- d.Shift(k).IntPart(), before its integer is an int64
  pub shift_int_part : Decimal → ℕ → ℤ

-- `a.Cmp(b) > 0` and `a.Cmp(b) >= 0`
abbrev pub cmp_gt : DecimalOps → Decimal → Decimal → Bool
cmp_gt ops a b = elim (ops.cmp a b) [ Ordering.gt ↦ true | _ ↦ false ]

abbrev pub cmp_ge : DecimalOps → Decimal → Decimal → Bool
cmp_ge ops a b = elim (ops.cmp a b) [ Ordering.lt ↦ false | _ ↦ true ]

-- At most four places behind the point, as a column NUMERIC(19, 4) holds.
abbrev pub FitsScale : Decimal → Type 0
FitsScale d = negsuc 3 ≤ℤ d.exponent

-- The value in ten-thousandths, for a decimal that fits the scale.
unfoldable pub units : Decimal → ℤ
units d = d.coefficient *ℤ pos (10 ^ (pos_part d.exponent + 4 - neg_part d.exponent))
