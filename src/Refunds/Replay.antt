-- ===== src/Refunds/Replay.antt =====
-- A refund is asked for again under its correlation id.
use shopping_cart_payment.Prelude.{◌≡◌, refl, ◌∙◌, Bool, false, none, some}
use shopping_cart_payment.Text.{is_blank}
use shopping_cart_payment.Errors.{ok}
use shopping_cart_payment.Model.{Refund}
use shopping_cart_payment.Schema.{RefundRow, same_key}
use shopping_cart_payment.Schema.Statements.{matching, newest_first, first}
use shopping_cart_payment.Gateway.Router.{Router}
use shopping_cart_payment.World.{Env, World, pure, lift}
use shopping_cart_payment.World.Hoare.{bind-ok, bind-try}
use shopping_cart_payment.Store.{Store}
use shopping_cart_payment.Store.Rows.{scan_refund_row, scan_first}
use shopping_cart_payment.Store.Postgres.{
  travel, exec, query, select_refund, get_refund_by_correlation_id,
}
use shopping_cart_payment.Refunds.{
  RefundOrder, found_or_none, existing_refund, process_refund_service,
}
use shopping_cart_payment.Refunds.Soundness.{refunds_of}

module _ (env : Env) (st : Store) where
  -- A SELECT that works and finds a row that can be read.
  select_refund-eq-ok :
      (where_clause : RefundRow → Bool) (w : World) (row : RefundRow) (r : Refund)
      → env.fault w.round_trips ≡ none
      → first (
          newest_first RefundRow.created_at
            (matching where_clause (travel env st.in_tx w).tables.refunds))
        ≡ some row
      → scan_refund_row env row ≡ ok r
      → select_refund env st where_clause w ≡ (ok r, travel env st.in_tx w)
  unfolding select_refund query exec lift scan_first
  select_refund-eq-ok where_clause w row r fine found read =
      let v = travel env st.in_tx w in
      bind-ok _ _ w
        (first (newest_first RefundRow.created_at (matching where_clause v.tables.refunds))) v
        (rw (query, exec, fine) refl)
      ∙ rw (found, read) refl

  -- When the correlation id is not blank, the newest of the refunds with it can be read and the round
  -- trip to the database works, `ProcessRefund` returns that refund, whichever payment and amount are
  -- asked for, and changes nothing: no gateway is called and no row is written.
  pub process_refund_service-replay :
      (router : Router) (order : RefundOrder) (w : World) (row : RefundRow) (r : Refund)
      → is_blank order.correlation_id ≡ false
      → env.fault w.round_trips ≡ none
      → first (
          newest_first RefundRow.created_at (
            matching
              (λ q. same_key q.correlation_id (some order.correlation_id))
              (travel env st.in_tx w).tables.refunds))
        ≡ some row
      → scan_refund_row env row ≡ ok r
      → process_refund_service env (refunds_of st router) order w ≡ (ok r, travel env st.in_tx w)
  unfolding process_refund_service existing_refund get_refund_by_correlation_id found_or_none pure
  process_refund_service-replay router order w row r given fine found read =
      bind-ok _ _ w (some r) (travel env st.in_tx w) (
        rw given (
          bind-try _ _ w r (travel env st.in_tx w) (select_refund-eq-ok _ w row r fine found read)))
