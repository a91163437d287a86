-- ===== src/Decimal/Units.antt =====
-- Exact decimals with four places: a value of the parameter that meets its laws.
use Prim.Native.Nat.{compare}
use shopping_cart_payment.Prelude.{
  ℕ, ◌*◌, ◌/◌, ◌^◌, sub_ℕ, zero, suc, [], ◌∷◌, ◌+◌, ◌≡◌, refl, ℤ, pos, negsuc, ◌+ℤ◌, ◌-ℤ◌, ◌*ℤ◌,
  pos_part, neg_part, arith,
}
use shopping_cart_payment.Text.{Text, bytes}
use shopping_cart_payment.Errors.{Result, ok, err, plain}
use shopping_cart_payment.Decimal.{Decimal, DecimalOps, units}
use shopping_cart_payment.Decimal.Laws.{DecimalLaws}

abbrev pub of_units : ℤ → Decimal
of_units u = record { coefficient = u; exponent = negsuc 3 }

-- A text with one byte for the sign and one for the number: enough for a round trip.
abbrev pub write : Decimal → Text
write d = pos_part (units d) ∷ neg_part (units d) ∷ []

abbrev pub read : Text → Result Decimal
read (p ∷ zero ∷ []) = ok (of_units (pos p))
read (zero ∷ suc n ∷ []) = ok (of_units (negsuc n))
read _ = err (plain (bytes "can't convert to decimal"))

-- The value with the point moved by k places, cut towards zero.
abbrev pub shifted : ℤ → ℕ → ℤ
shifted (pos n) k = pos (n * 10 ^ k / 10 ^ 4)
shifted (negsuc n) k = sub_ℕ 0 (suc n * 10 ^ k / 10 ^ 4)

abbrev pub exact : DecimalOps
exact = record {
  zero = of_units (pos 0);
  add = λ a b. of_units (units a +ℤ units b);
  sub = λ a b. of_units (units a -ℤ units b);
  cmp = λ a b.
      compare (pos_part (units a) + neg_part (units b)) (pos_part (units b) + neg_part (units a));
  to_string = write;
  string_fixed = λ d _. write d;
  of_string = read;
  shift_int_part = λ d k. shifted (units d) k;
}

pub units-of_units : (u : ℤ) → units (of_units u) ≡ u
unfolding units ◌*ℤ◌
units-of_units u = ground arith

pub exact_laws : DecimalLaws exact
exact_laws = record {
  zero_fits = omega arith;
  units_zero = units-of_units (pos 0);
  add_fits = λ a b p q. omega arith;
  units_add = λ a b p q. units-of_units (units a +ℤ units b);
  sub_fits = λ a b p q. omega arith;
  units_sub = λ a b p q. units-of_units (units a -ℤ units b);
  gt_iff = λ a b p q. ground arith;
  ge_iff = λ a b p q. ground arith;
}

pub read-write : (u : ℤ) → read (pos_part u ∷ neg_part u ∷ []) ≡ ok (of_units u)
read-write (pos n) = refl
read-write (negsuc n) = refl
