-- ===== src/Money.antt =====
-- go/internal/payment/money.go: the amounts of the JSON bodies.
use shopping_cart_payment.Text.{Text, trim_space}
use shopping_cart_payment.Errors.{Result, ok, err}
use shopping_cart_payment.Decimal.{Decimal, DecimalOps}

pub record Amount : Type 0 where
  pub decimal : Decimal

-- `MarshalJSON`, which never fails, and `String`
unfoldable pub marshal_json : DecimalOps → Amount → Text
marshal_json ops a = ops.string_fixed a.decimal 4

unfoldable pub string : DecimalOps → Amount → Text
string ops a = ops.string_fixed a.decimal 4

-- `UnmarshalJSON`; `decode` is UnmarshalJSON of the decimal package.
unfoldable pub unmarshal_json : (decode : Text → Result Decimal) → (json : Text) → Result Amount
unfolding trim_space
unmarshal_json decode json = elim (decode (trim_space json)) [
  | ok value ↦ ok (record { decimal = value })
  | err e ↦ err e
]
