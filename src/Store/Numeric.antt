-- ===== src/Store/Numeric.antt =====
-- What the program relies on of the amount columns: an amount of at most four places is stored
-- exactly, so what PostgreSQL gives back for it reads as the same value.
use shopping_cart_payment.Prelude.{◌≡◌, some}
use shopping_cart_payment.Text.{Text}
use shopping_cart_payment.Errors.{ok}
use shopping_cart_payment.Decimal.{Decimal, FitsScale, units}
use shopping_cart_payment.Decimal.Laws.{DecimalLaws}
use shopping_cart_payment.World.{Env}

module _ (env : Env) where
  -- A stored amount reads back as a decimal of at most four places.
  pub record IsReadable (t : Text) : Type 0 where
    pub decimal : Decimal
    pub reads : env.decimals.of_string t ≡ ok decimal
    pub fits : FitsScale decimal

  pub record AmountLaws : Type 0 where
    pub decimals : DecimalLaws env.decimals
    pub stored :
        (d : Decimal) (a : Text)
        → FitsScale d
        → env.dialect.numeric (env.decimals.to_string d) ≡ some a
        → IsReadable a
    pub stored_units :
        (d e : Decimal) (a : Text)
        → FitsScale d
        → env.dialect.numeric (env.decimals.to_string d) ≡ some a
        → env.decimals.of_string a ≡ ok e
        → units e ≡ units d
