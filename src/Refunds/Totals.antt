-- ===== src/Refunds/Totals.antt =====
-- `GetTotalRefunded` computes what the abstract view says was given back.
use shopping_cart_payment.Prelude.{◌≡◌, refl, ◌∙◌, none, List, [], ◌∷◌, ◌==◌, All}
use shopping_cart_payment.Errors.{ok}
use shopping_cart_payment.Decimal.{Decimal, units}
use shopping_cart_payment.Model.{Refund, Uuid}
use shopping_cart_payment.Schema.{RefundRow}
use shopping_cart_payment.Schema.Statements.{matching, newest_first}
use shopping_cart_payment.Schema.Laws.{All-matching, All-newest_first}
use shopping_cart_payment.World.{Env, World, pure, lift}
use shopping_cart_payment.World.Hoare.{bind-ok, bind-try}
use shopping_cart_payment.Gateway.Router.{Router}
use shopping_cart_payment.Store.{Store}
use shopping_cart_payment.Store.Backend.{runner}
use shopping_cart_payment.Store.Numeric.{IsReadable, AmountLaws}
use shopping_cart_payment.Store.Rows.{scan_rows, scan_refund_row, refund_of}
use shopping_cart_payment.Store.Scans.{scan_refund_row_of}
use shopping_cart_payment.Store.Postgres.{travel, exec, query, get_refunds_by_payment}
use shopping_cart_payment.Refunds.{total_refunded, total_or_zero, get_total_refunded}
use shopping_cart_payment.Refunds.Ledger.{IsSound, ledger, total}
use shopping_cart_payment.Refunds.Sums.{total_refunded-eq-total}

module _ (env : Env) where
  -- Rows that can be read are read, all of them.
  scan_rows-ok :
      (rs : List RefundRow)
      → All (λ r. IsReadable env r.amount) rs
      → (l : List Refund) × (scan_rows (scan_refund_row env) rs ≡ ok l)
  unfolding scan_rows
  scan_rows-ok [] h = ([], refl)
  scan_rows-ok (r ∷ rs) h =
      let (l, e) = scan_rows-ok rs h.1 in
      (refund_of env r h.0.decimal ∷ l, rw (scan_rows, scan_refund_row_of env r h.0.reads, e) refl)

  module _ (st : Store) (id : Uuid) (w : World) where
    get_refunds_by_payment-eq-ok :
        (l : List Refund)
        → env.fault w.round_trips ≡ none
        → scan_rows (scan_refund_row env) (
            newest_first RefundRow.created_at
              (matching (λ r. r.payment_id == id) (travel env st.in_tx w).tables.refunds))
          ≡ ok l
        → get_refunds_by_payment env st id w ≡ (ok l, travel env st.in_tx w)
    unfolding get_refunds_by_payment query exec lift
    get_refunds_by_payment-eq-ok l fine read =
        let v = travel env st.in_tx w in
        bind-ok _ _ w
          (newest_first RefundRow.created_at (matching (λ r. r.payment_id == id) v.tables.refunds))
          v (rw (query, exec, fine) refl)
        ∙ rw read refl

    -- When amounts of at most four decimals are stored and computed exactly (`AmountLaws`), the
    -- round trip to the database works and the tables that it finds are sound, `GetTotalRefunded`
    -- returns a total, whose value is the sum of what the payment gave back according to the
    -- ledger of those tables.
    pub get_total_refunded-eq-total :
        (laws : AmountLaws env) (router : Router)
        → env.fault w.round_trips ≡ none
        → IsSound env (travel env st.in_tx w).tables
        → (sum : Decimal) × (get_total_refunded env
              (record { store = runner st; router = router })
              id
              w
            ≡ (ok sum, travel env st.in_tx w))
          × (units sum ≡ total id (ledger env (travel env st.in_tx w).tables).given_back)
    unfolding get_total_refunded total_or_zero pure ledger
    get_total_refunded-eq-total laws router fine sound =
        let v = travel env st.in_tx w in
        let P = λ (r : RefundRow). IsReadable env r.amount in
        let rows : List RefundRow = matching (λ r. r.payment_id == id) v.tables.refunds in
        let (l, read) = scan_rows-ok (newest_first RefundRow.created_at rows) (
          All-newest_first P RefundRow.created_at rows
            (All-matching P _ v.tables.refunds sound.refunds)) in
        let value =
          total_refunded-eq-total env laws.decimals id v.tables.refunds sound.refunds read in
        (
          total_refunded env.decimals env.decimals.zero l,
          bind-try _ _ w l v (get_refunds_by_payment-eq-ok l fine read),
          value.1,
        )
