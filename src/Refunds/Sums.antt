-- ===== src/Refunds/Sums.antt =====
-- The total that the refund service adds up is the total of the abstract view.
use shopping_cart_payment.Prelude.{
  ◌≡◌, refl, ◌∙◌, true, false, List, [], ◌∷◌, ℤ, pos, ◌+ℤ◌, int_laws, arith, ◌==◌, All, Bool-cases,
  inl, inr, if◌then◌else◌, ltb,
}
use shopping_cart_payment.Errors.{ok}
use shopping_cart_payment.Decimal.{Decimal, FitsScale, units}
use shopping_cart_payment.Decimal.Laws.{DecimalLaws}
use shopping_cart_payment.Model.{Uuid, Refund, Time}
use shopping_cart_payment.Model.Status.{refund_status_of, is_refunded}
use shopping_cart_payment.Schema.{RefundRow}
use shopping_cart_payment.Schema.Statements.{matching, insert_newest, newest_first}
use shopping_cart_payment.Schema.Laws.{All-matching, All-newest_first}
use shopping_cart_payment.World.{Env}
use shopping_cart_payment.Store.Rows.{scan_refund_row, scan_rows, refund_of}
use shopping_cart_payment.Store.Scans.{scan_rows-cons, scan_refund_row_of}
use shopping_cart_payment.Refunds.{total_refunded}
use shopping_cart_payment.Refunds.Ledger.{total, settled, amount_units, amount_units_of}
use shopping_cart_payment.Store.Numeric.{IsReadable}

module _ (env : Env) where
  -- The completed refunds among rows, in ten-thousandths.
  sum_rows : List RefundRow → ℤ
  sum_rows [] = pos 0
  sum_rows (r ∷ rs) =
      if is_refunded (refund_status_of r.status)
      then amount_units env r.amount +ℤ sum_rows rs
      else sum_rows rs

  sum_rows-nil : sum_rows [] ≡ pos 0
  unfolding sum_rows
  sum_rows-nil = refl

  sum_rows-cons_settled :
      (r : RefundRow) (rs : List RefundRow)
      → is_refunded (refund_status_of r.status) ≡ true
      → sum_rows (r ∷ rs) ≡ amount_units env r.amount +ℤ sum_rows rs
  unfolding sum_rows
  sum_rows-cons_settled r rs e = rw e

  sum_rows-cons_waiting :
      (r : RefundRow) (rs : List RefundRow)
      → is_refunded (refund_status_of r.status) ≡ false
      → sum_rows (r ∷ rs) ≡ sum_rows rs
  unfolding sum_rows
  sum_rows-cons_waiting r rs e = rw e

  sum_rows-insert_newest :
      (created : RefundRow → Time) (r : RefundRow) (rs : List RefundRow)
      → sum_rows (insert_newest created r rs) ≡ sum_rows (r ∷ rs)
  unfolding sum_rows insert_newest
  sum_rows-insert_newest created r [] = refl
  sum_rows-insert_newest created r (q ∷ qs) = elim (Bool-cases (ltb (created r) (created q))) [
    | inl later ↦ rw later (grind (int_laws, sum_rows-insert_newest created r qs))
    | inr newest ↦ rw newest
  ]

  sum_rows-newest_first :
      (created : RefundRow → Time) (rs : List RefundRow)
      → sum_rows (newest_first created rs) ≡ sum_rows rs
  unfolding sum_rows newest_first
  sum_rows-newest_first created [] = refl
  sum_rows-newest_first created (r ∷ rs) =
      sum_rows-insert_newest created r (newest_first created rs)
      ∙ ground (arith, sum_rows-newest_first created rs)

  sum_rows-matching :
      (id : Uuid) (rs : List RefundRow)
      → sum_rows (matching (λ r. r.payment_id == id) rs) ≡ total id (settled env rs)
  unfolding sum_rows matching settled total
  sum_rows-matching id [] = refl
  sum_rows-matching id (r ∷ rs) = ground (arith, sum_rows-matching id rs)

  module _ (laws : DecimalLaws env.decimals) where
    -- What `total_refunded` has added to a sum that fits the scale.
    record HasAdded (total_before : Decimal) (rs : List RefundRow) (d : Decimal) : Type 0 where
      fits : FitsScale d
      value : units d ≡ units total_before +ℤ sum_rows rs

    total_refunded_lem :
        (acc : Decimal) (rs : List RefundRow) (scanned : List Refund)
        → FitsScale acc
        → All (λ r. IsReadable env r.amount) rs
        → scan_rows (scan_refund_row env) rs ≡ ok scanned
        → HasAdded acc rs (total_refunded env.decimals acc scanned)
    unfolding total_refunded scan_rows
    total_refunded_lem acc [] [] fits h e = record {
      fits = fits;
      value = rw sum_rows-nil (omega int_laws);
    }
    total_refunded_lem acc [] (r ∷ scanned) fits h e = cc
    total_refunded_lem acc (r ∷ rs) scanned fits h e =
        let (a, m, read, rest, split) = scan_rows-cons (scan_refund_row env) r rs e in
        let d : Decimal = h.0.decimal in
        let same : a ≡ refund_of env r d = cc (scan_refund_row_of env r h.0.reads) in
        rw split (
          rw same (elim (Bool-cases (is_refunded (refund_status_of r.status))) [
            | inl done ↦
                let next =
                  total_refunded_lem (env.decimals.add acc d) rs m
                    (laws.add_fits acc d fits h.0.fits) h.1 rest in
                rw (total_refunded, done)
                  (record {
                    fits = next.fits;
                    value =
                        rw
                          (
                            next.value,
                            sum_rows-cons_settled r rs done,
                            amount_units_of env r.amount h.0.reads,
                            laws.units_add acc d fits h.0.fits,
                          )
                          (omega int_laws);
                  })
            | inr waiting ↦
                let next = total_refunded_lem acc rs m fits h.1 rest in
                rw (total_refunded, waiting)
                  (record {
                    fits = next.fits;
                    value = rw (sum_rows-cons_waiting r rs waiting) next.value;
                  })
          ]))

    -- The sum over the refunds of a payment, as the service reads them, is the view's total.
    pub total_refunded-eq-total :
        (id : Uuid) (rs : List RefundRow) {scanned : List Refund}
        → All (λ r. IsReadable env r.amount) rs
        → scan_rows
            (scan_refund_row env)
            (newest_first RefundRow.created_at (matching (λ r. r.payment_id == id) rs))
          ≡ ok scanned
        → let sum = total_refunded env.decimals env.decimals.zero scanned in
          FitsScale sum × (units sum ≡ total id (settled env rs))
    total_refunded-eq-total id rs {scanned} h e =
        let rows : List RefundRow = matching (λ r. r.payment_id == id) rs in
        let P = λ (r : RefundRow). IsReadable env r.amount in
        let added =
          total_refunded_lem env.decimals.zero (newest_first RefundRow.created_at rows) scanned
            laws.zero_fits (All-newest_first P RefundRow.created_at rows (All-matching P _ rs h))
            e in
        (
          added.fits,
          rw (added.value, laws.units_zero, sum_rows-newest_first, sum_rows-matching id rs)
              (omega int_laws),
        )
