-- ===== src/Store/Scans.antt =====
-- Reading rows: what a successful scan has read.
use shopping_cart_payment.Prelude.{◌≡◌, refl, ◌⊎◌, inl, inr, Option, List, ◌∷◌, arith}
use shopping_cart_payment.Errors.{GoError, Result, ok, err}
use shopping_cart_payment.Decimal.{Decimal}
use shopping_cart_payment.Model.{Payment, Uuid}
use shopping_cart_payment.Schema.{PaymentRow, RefundRow}
use shopping_cart_payment.World.{Env}
use shopping_cart_payment.Store.Rows.{
  scan_rows, scan_refund_row, scan_payment_row, refund_of, payment_of, method_id_of,
}

pub Result-cases {ℓ} :
    {A : Type ℓ} (r : Result A) → ((a : A) × (r ≡ ok a)) ⊎ ((e : GoError) × (r ≡ err e))
Result-cases (ok a) = inl (a, refl)
Result-cases (err e) = inr (e, refl)

module _ {R A : Type 0} (scan : R → Result A) where
  pub scan_rows-cons :
      (r : R) (rs : List R) {l : List A}
      → scan_rows scan (r ∷ rs) ≡ ok l
      → (a : A) × (m : List A) × (scan r ≡ ok a) × (scan_rows scan rs ≡ ok m) × (l ≡ a ∷ m)
  unfolding scan_rows
  scan_rows-cons r rs e = elim (Result-cases (scan r)) [
    | inl (a, read) ↦ elim (Result-cases (scan_rows scan rs)) [
      | inl (m, all_read) ↦ (a, m, read, all_read, ground arith)
      | inr (e', failed) ↦ ground arith
    ]
    | inr (e', failed) ↦ ground arith
  ]

module _ (env : Env) where
  pub scan_refund_row_of :
      (r : RefundRow) {d : Decimal}
      → env.decimals.of_string r.amount ≡ ok d
      → scan_refund_row env r ≡ ok (refund_of env r d)
  unfolding scan_refund_row
  scan_refund_row_of r e = rw (scan_refund_row, e)

  -- A payment that was read has the row's columns and the row's amount.
  pub scan_payment_row-eq-ok :
      (r : PaymentRow) {p : Payment}
      → scan_payment_row env r ≡ ok p
      → (d : Decimal) × (method_id : Option Uuid) × (env.decimals.of_string r.amount ≡ ok d)
        × (p ≡ payment_of env r d method_id)
  unfolding scan_payment_row
  scan_payment_row-eq-ok r e = elim (Result-cases (env.decimals.of_string r.amount)) [
    | inl (d, read) ↦ elim (Result-cases (method_id_of env r.payment_method_id)) [
      | inl (m, parsed) ↦ (d, m, read, ground arith)
      | inr (e', failed) ↦ ground arith
    ]
    | inr (e', failed) ↦ ground arith
  ]
