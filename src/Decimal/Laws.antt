-- ===== src/Decimal/Laws.antt =====
-- What the program relies on of the decimal package: on decimals of at most four places its sums,
-- differences and comparisons are those of the exact values.
use shopping_cart_payment.Prelude.{ℕ, ◌*◌, ◌/◌, ◌^◌, ◌≡◌, pos, ◌+ℤ◌, ◌-ℤ◌, ◌≤ℤ◌, ◌<ℤ◌, ◌↔◌, true}
use shopping_cart_payment.Decimal.{Decimal, DecimalOps, FitsScale, units, cmp_gt, cmp_ge}

pub record DecimalLaws (ops : DecimalOps) : Type 0 where
  pub zero_fits : FitsScale ops.zero
  pub units_zero : units ops.zero ≡ pos 0
  pub add_fits : (a b : Decimal) → FitsScale a → FitsScale b → FitsScale (ops.add a b)
  pub units_add :
      (a b : Decimal) → FitsScale a → FitsScale b → units (ops.add a b) ≡ units a +ℤ units b
  pub sub_fits : (a b : Decimal) → FitsScale a → FitsScale b → FitsScale (ops.sub a b)
  pub units_sub :
      (a b : Decimal) → FitsScale a → FitsScale b → units (ops.sub a b) ≡ units a -ℤ units b
  pub gt_iff :
      (a b : Decimal) → FitsScale a → FitsScale b → (cmp_gt ops a b ≡ true) ↔ (units b <ℤ units a)
  pub ge_iff :
      (a b : Decimal) → FitsScale a → FitsScale b → (cmp_ge ops a b ≡ true) ↔ (units b ≤ℤ units a)

-- Shift moves the point and IntPart cuts towards zero, on values that are not negative, before the
-- result is an int64.
pub record ShiftLaws (ops : DecimalOps) : Type 0 where
  pub shift_int_part_units :
      (d : Decimal) (n k : ℕ)
      → FitsScale d
      → units d ≡ pos n
      → ops.shift_int_part d k ≡ pos (n * 10 ^ k / 10 ^ 4)
