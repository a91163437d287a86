-- ===== src/Refunds/Service.antt =====
-- `ProcessRefund` as a whole, run against the PostgreSQL store.
use shopping_cart_payment.Prelude.{ℕ, ◌≡◌, refl, Bool, true, Option, some, none, inl, inr, ◌⊎◌}
use shopping_cart_payment.Text.{Text, is_blank}
use shopping_cart_payment.Errors.{Result, ok, err, is_no_rows}
use shopping_cart_payment.Decimal.{FitsScale}
use shopping_cart_payment.Model.{Payment, Refund}
use shopping_cart_payment.Model.Status.{is_refundable}
use shopping_cart_payment.Schema.{Tables, RefundRow, same_key}
use shopping_cart_payment.Gateway.Router.{Router, get_gateway}
use shopping_cart_payment.World.{Env, World, Action, pure, now, new_uuid}
use shopping_cart_payment.World.Hoare.{
  Ends, Caught, Ends-bind, Ends-pure, Ends-raise, Ends-lift, Ends-if, Ends-try, Ends-weaken,
}
use shopping_cart_payment.Store.{Store}
use shopping_cart_payment.Store.Backend.{runner, with_tx}
use shopping_cart_payment.Store.Numeric.{AmountLaws}
use shopping_cart_payment.Store.Postgres.{postgres, get_payment, get_refund_by_correlation_id}
use shopping_cart_payment.Store.Transactions.{
  Stable, Keeps, IsStored, select_payment-Keeps, select_refund-IsStored, run_in_tx_lem,
}
use shopping_cart_payment.Refunds.{
  RefundService, RefundOrder, found_or_none, existing_refund, require_refundable,
  or_payment_not_found, start_refund, process_refund_service,
}
use shopping_cart_payment.Refunds.Ledger.{IsSound}
use shopping_cart_payment.Refunds.Refinement.{Persisted, persist_refund_lem}

-- The condition of the query by correlation id.
abbrev pub has_correlation : Text → RefundRow → Bool
has_correlation id q = same_key q.correlation_id (some id)

module _ (env : Env) (st : Store) {P : Tables → Type 0} (stable : Stable env P) where
  now-Keeps : (w : World) → P w.tables → Ends (Keeps P) (Keeps P) (now env) w
  unfolding now
  now-Keeps w h = record { post = h }

  new_uuid-Keeps : (w : World) → P w.tables → Ends (Keeps P) (Keeps P) (new_uuid env) w
  unfolding new_uuid
  new_uuid-Keeps w h = record { post = h }

  caught : {A : Type 0} (r : Result A) (w : World) → Caught (Keeps P) (Keeps P) r w → P w.tables
  caught (ok a) w h = h
  caught (err e) w h = h

  or_payment_not_found-Keeps :
      (r : Result Payment) (w : World)
      → P w.tables
      → Ends (Keeps P) (Keeps P) (or_payment_not_found env r) w
  unfolding or_payment_not_found
  or_payment_not_found-Keeps (ok p) w h = Ends-pure p w h
  or_payment_not_found-Keeps (err e) w h =
      Ends-if (is_no_rows e) _ _ w (λ _. Ends-raise _ w h) (λ _. Ends-raise e w h)

  require_refundable-Keeps :
      (p : Payment) (w : World)
      → P w.tables
      → Ends (Keeps P) (Keeps P) (require_refundable p.status) w
  unfolding require_refundable
  require_refundable-Keeps p w h =
      Ends-if (is_refundable p.status) _ _ w (λ _. Ends-pure tt w h) (λ _. Ends-raise _ w h)

  -- A refund that the lookup finds is the newest with this correlation id.
  abbrev Looked : Text → Option Refund → World → Type 0
  Looked id none w = P w.tables
  Looked id (some r) w = P w.tables × IsStored env (has_correlation id) r w.tables

  found_or_none-Looked :
      (id : Text) (r : Result Refund) (w : World)
      → Caught (λ a v. P v.tables × IsStored env (has_correlation id) a v.tables) (Keeps P) r w
      → Ends (Looked id) (Keeps P) (found_or_none r) w
  unfolding found_or_none
  found_or_none-Looked id (ok r) w h = Ends-pure _ w h
  found_or_none-Looked id (err e) w h =
      Ends-if (is_no_rows e) _ _ w (λ _. Ends-pure none w h) (λ _. Ends-raise e w h)

  existing_refund-Looked :
      (id : Text) (w : World)
      → P w.tables
      → Ends (Looked id) (Keeps P) (existing_refund (postgres env st) id) w
  unfolding existing_refund get_refund_by_correlation_id
  existing_refund-Looked id w h =
      Ends-if (is_blank id) _ _ w (λ _. Ends-pure none w h)
        λ _.
          Ends-bind
            (Caught (λ a v. P v.tables × IsStored env (has_correlation id) a v.tables) (Keeps P)) _
            _ w (Ends-try _ w (select_refund-IsStored env stable st _ w h))
            λ found v k. found_or_none-Looked id found v k

-- The outcome of a refund that was not refused: nothing was written, and it is the one that is
-- stored under the correlation id, or the closure ran on tables with P.
module _ (env : Env) (laws : AmountLaws env) (order : RefundOrder) (fits : FitsScale order.amount)
    (st : Store) (P : Tables → Type 0) where
  pub record Booked (r : Refund) (t' : Tables) : Type 0 where
    pub start : Tables
    pub began : P start
    pub persisted : Persisted env laws order fits (record st { in_tx = true }) refl start r t'

  abbrev pub Outcome : Refund → World → Type 0
  Outcome r w =
      (P w.tables × IsStored env (has_correlation order.correlation_id) r w.tables)
      ⊎ Booked r w.tables

  -- E holds of the tables after an error: of those that the refund found, and of those that a Commit
  -- has left whose acknowledgement was lost.
  module _ (router : Router) (stable : Stable env P) (sound : (t : Tables) → P t → IsSound env t)
      {E : Tables → Type 0} (keep : (t : Tables) → P t → E t)
      (lost : (n : ℕ) (r : Refund) (t : Tables)
        → env.commit_lands n ≡ true
        → Booked r t
        → E t) where
    abbrev service : RefundService
    service = record { store = runner st; router = router }

    kept :
        {A : Type 0} {Q : A → World → Type 0} (m : Action A) (w : World)
        → Ends Q (Keeps P) m w
        → Ends Q (Keeps E) m w
    kept m w h = Ends-weaken m w h (λ _ _ q. q) (λ _ v k. keep v.tables k)

    start_refund_lem :
        (w : World) → P w.tables → Ends Outcome (Keeps E) (start_refund env service order) w
    unfolding start_refund get_payment with_tx
    start_refund_lem w h =
        Ends-bind (Caught (Keeps P) (Keeps P)) _ _ w
          (Ends-try _ w (select_payment-Keeps env stable st _ w h))
          λ found v1 k1.
            Ends-bind (Keeps P) _ _ v1
              (kept _ v1 (
                or_payment_not_found-Keeps env st stable found v1
                  (caught env st stable found v1 k1)))
              λ payment v2 k2.
                Ends-bind (Keeps P) _ _ v2
                  (kept _ v2 (require_refundable-Keeps env st stable payment v2 k2))
                  λ u v3 k3.
                    Ends-bind (Keeps P) _ _ v3
                      (Ends-lift (get_gateway env router payment.gateway) v3 (λ _ _. k3)
                        (λ _ _. keep v3.tables k3))
                      λ g v4 k4.
                        Ends-bind (Keeps P) _ _ v4 (kept _ v4 (now-Keeps env st stable v4 k4))
                          λ time v5 k5.
                            Ends-bind (Keeps P) _ _ v5
                              (kept _ v5 (new_uuid-Keeps env st stable v5 k5))
                              λ id v6 k6.
                                Ends-weaken _ v6
                                  (run_in_tx_lem env stable st Booked keep lost _ v6 k6 λ v7 k7.
                                    Ends-weaken _ v7
                                      (persist_refund_lem env laws order fits
                                        (record st { in_tx = true }) refl g payment.currency id time
                                        v7 (sound v7.tables k7))
                                      (λ r x p. record {
                                        start = v7.tables;
                                        began = k7;
                                        persisted = p;
                                      })
                                      (λ _ _ _. tt))
                                  (λ r x b. inr b) (λ _ _ k. k)

    from_lookup :
        (existing : Option Refund) (v : World)
        → Looked env st stable order.correlation_id existing v
        → Ends Outcome
            (Keeps E)
            (elim existing as (λ _. Action Refund) [
              | some r ↦ pure r
              | none ↦ start_refund env service order
            ])
            v
    from_lookup none v k = start_refund_lem v k
    from_lookup (some r) v k = Ends-pure r v (inl k)

    pub process_refund_service_lem :
        (w : World)
        → P w.tables
        → Ends Outcome (Keeps E) (process_refund_service env service order) w
    unfolding process_refund_service
    process_refund_service_lem w h =
        Ends-bind (Looked env st stable order.correlation_id) _ _ w
          (kept _ w (existing_refund-Looked env st stable order.correlation_id w h)) from_lookup
