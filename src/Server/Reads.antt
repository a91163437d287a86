-- ===== src/Server/Reads.antt =====
-- The requests that only read: whatever other clients keep true of the tables, they keep too.
use shopping_cart_payment.Prelude.{true, false, Option-cases, inl, inr}
use shopping_cart_payment.Text.{Text}
use shopping_cart_payment.Errors.{Result, ok, err, is_no_rows}
use shopping_cart_payment.Model.{Uuid, Payment}
use shopping_cart_payment.Schema.{Tables}
use shopping_cart_payment.World.{Env, World}
use shopping_cart_payment.World.Hoare.{
  Ends, Post, Caught, Ends-bind, Ends-pure, Ends-raise, Ends-lift, Ends-if, Ends-try,
}
use shopping_cart_payment.Store.{Store}
use shopping_cart_payment.Store.Postgres.{
  get_payment, get_payment_by_order_id, get_payments_by_customer, get_refunds_by_payment, ping_pool,
  exec,
}
use shopping_cart_payment.Store.Transactions.{
  Stable, Keeps, select_payment-Keeps, query-Keeps, travel_lem,
}
use shopping_cart_payment.Gateway.Router.{Router}
use shopping_cart_payment.Payments
use shopping_cart_payment.Payments.{PaymentService, or_payment_not_found}
use shopping_cart_payment.Payments.Soundness.{payments_of}
use shopping_cart_payment.Refunds
use shopping_cart_payment.Refunds.{RefundService}
use shopping_cart_payment.Refunds.Soundness.{refunds_of}
use shopping_cart_payment.Health.{Check, health, liveness, ready, app_info, run_check, readiness}

module _ (env : Env) {P : Tables → Type 0} (stable : Stable env P) (st : Store)
    (router : Router) where
  kept : {A : Type 0} (r : Result A × World) → Post (Keeps P) (Keeps P) r → P r.1.tables
  kept (ok a, w) h = h
  kept (err e, w) h = h

  caught : {A : Type 0} (r : Result A) (w : World) → Caught (Keeps P) (Keeps P) r w → P w.tables
  caught (ok a) w h = h
  caught (err e) w h = h

  or_payment_not_found-Keeps :
      (r : Result Payment) (w : World)
      → P w.tables
      → Ends (Keeps P) (Keeps P) (or_payment_not_found env (payments_of st router) r) w
  unfolding or_payment_not_found
  or_payment_not_found-Keeps (ok p) w h = Ends-pure p w h
  or_payment_not_found-Keeps (err e) w h =
      Ends-if (is_no_rows e) _ _ w (λ _. Ends-raise _ w h) (λ _. Ends-raise e w h)

  pub get_payment-Keeps :
      (id : Uuid) (w : World)
      → P w.tables
      → P (Payments.get_payment env (payments_of st router) id w).1.tables
  unfolding Payments.get_payment get_payment
  get_payment-Keeps id w h =
      kept _
        (Ends-bind (Caught (Keeps P) (Keeps P)) _ _ w
          (Ends-try _ w (select_payment-Keeps env stable st _ w h))
          λ found v k. or_payment_not_found-Keeps found v (caught found v k)).post

  pub get_payment_by_order_id-Keeps :
      (order_id : Text) (w : World)
      → P w.tables
      → P (Payments.get_payment_by_order_id env (payments_of st router) order_id w).1.tables
  unfolding Payments.get_payment_by_order_id get_payment_by_order_id
  get_payment_by_order_id-Keeps order_id w h =
      kept _
        (Ends-bind (Caught (Keeps P) (Keeps P)) _ _ w
          (Ends-try _ w (select_payment-Keeps env stable st _ w h))
          λ found v k. or_payment_not_found-Keeps found v (caught found v k)).post

  pub get_payments_by_customer-Keeps :
      (customer_id : Text) (w : World)
      → P w.tables
      → P (Payments.get_payments_by_customer env (payments_of st router) customer_id w).1.tables
  unfolding Payments.get_payments_by_customer get_payments_by_customer
  get_payments_by_customer-Keeps customer_id w h =
      kept _
        (Ends-bind (Keeps P) _ _ w (query-Keeps env stable st _ w h)
          λ rows v k. Ends-lift _ v (λ _ _. k) (λ _ _. k)).post

  pub get_refunds_by_payment-Keeps :
      (id : Uuid) (w : World)
      → P w.tables
      → P (Refunds.get_refunds_by_payment env (refunds_of st router) id w).1.tables
  unfolding Refunds.get_refunds_by_payment get_refunds_by_payment
  get_refunds_by_payment-Keeps id w h =
      kept _
        (Ends-bind (Keeps P) _ _ w (query-Keeps env stable st _ w h)
          λ rows v k. Ends-lift _ v (λ _ _. k) (λ _ _. k)).post

  pub run_check-Keeps : (c : Check) (w : World) → P w.tables → P (run_check env true c w).1.tables
  unfolding run_check readiness ping_pool exec
  run_check-Keeps health w h = h
  run_check-Keeps liveness w h = h
  run_check-Keeps app_info w h = h
  run_check-Keeps ready w h = elim (Option-cases (env.fault w.round_trips)) [
    | inl e ↦ rw (run_check, readiness, ping_pool, exec, e) (travel_lem env stable false w h)
    | inr (failure, e) ↦
        rw (run_check, readiness, ping_pool, exec, e) (travel_lem env stable false w h)
  ]
