-- ===== src/Payments/Unavailable.antt =====
-- `ProcessPayment` when the router refuses the gateway.
use shopping_cart_payment.Prelude.{◌≡◌, Option, none, some}
use shopping_cart_payment.Text.{Text}
use shopping_cart_payment.Errors.{GoError, Result, ok, err}
use shopping_cart_payment.Model.{Payment}
use shopping_cart_payment.Schema.{Tables}
use shopping_cart_payment.Gateway.Router.{Router, get_gateway_or_default}
use shopping_cart_payment.Gateway.Providers.{PaymentGateway}
use shopping_cart_payment.World.{Env, World, Action, pure, ◌>>=◌}
use shopping_cart_payment.World.Hoare.{Ends, Post, Ends-bind, Ends-pure, Ends-lift, Ends-both}
use shopping_cart_payment.Store.{Store}
use shopping_cart_payment.Store.Postgres.{postgres}
use shopping_cart_payment.Store.Transactions.{Stable}
use shopping_cart_payment.Payments.{existing_by_order, charge_and_persist, process_payment_service}
use shopping_cart_payment.Payments.Requests.{ProcessPaymentRequest}
use shopping_cart_payment.Payments.Charges.{
  Charges, existing_by_key-Charged, existing_by_order-Charged,
}
use shopping_cart_payment.Payments.Service.{existing_by_key-Keeps, existing_by_order-Keeps}
use shopping_cart_payment.Payments.Soundness.{payments_of}

module _ (env : Env) (st : Store) (router : Router) (req : ProcessPaymentRequest)
    (correlation_id key : Text) (P : Tables → Type 0) (stable : Stable env P) (c : Charges)
    (reason : GoError) (refused : get_gateway_or_default env router req.gateway ≡ err reason) where
  -- No charge more, and tables with P.
  abbrev Idle : {A : Type 0} → A → World → Type 0
  Idle a v = (v.charges ≡ c) × P v.tables

  refused-Idle :
      (w : World)
      → w.charges ≡ c
      → P w.tables
      → Ends Idle Idle (charge_and_persist env (payments_of st router) req correlation_id key) w
  unfolding charge_and_persist
  refused-Idle w h k =
      Ends-bind (λ _ _. ⊥) _ _ w (Ends-lift _ w (λ g found. absurd (never found)) (λ e _. (h, k)))
        λ g v no. absurd no
    where
      never : {a : PaymentGateway} → get_gateway_or_default env router req.gateway ≡ ok a → ⊥
      never found = cc

  or_charge-Idle :
      (by_order : Option Payment) (w : World)
      → Idle by_order w
      → Ends Idle Idle
          (elim by_order as (λ _. Action Payment) [
            | some p ↦ pure p
            | none ↦ charge_and_persist env (payments_of st router) req correlation_id key
          ])
          w
  or_charge-Idle none w idle = refused-Idle w idle.0 idle.1
  or_charge-Idle (some p) w idle = Ends-pure p w idle

  after_key-Idle :
      (by_key : Option Payment) (w : World)
      → Idle by_key w
      → Ends Idle Idle
          (elim by_key as (λ _. Action Payment) [
            | some p ↦ pure p
            | none ↦ (do
              by_order ← existing_by_order (postgres env st) req.order_id
              elim by_order as (λ _. Action Payment) [
                | some p ↦ pure p
                | none ↦ charge_and_persist env (payments_of st router) req correlation_id key
              ])
          ])
          w
  after_key-Idle (some p) w idle = Ends-pure p w idle
  after_key-Idle none w idle =
      Ends-bind Idle _ _ w
        (Ends-both _ _ _ _ _ w (existing_by_order-Charged env c st req.order_id w idle.0)
          (existing_by_order-Keeps env st stable req.order_id w idle.1))
        λ by_order v idle'. or_charge-Idle by_order v idle'

  ended : (r : Result Payment × World) → Post Idle Idle r → (r.1.charges ≡ c) × P r.1.tables
  ended (ok p, v) h = h
  ended (err e, v) h = h

  pub process_payment_service_refused :
      (w : World)
      → w.charges ≡ c
      → P w.tables
      → let v = (process_payment_service env (payments_of st router) req correlation_id key w).1 in
        (v.charges ≡ c) × P v.tables
  unfolding process_payment_service
  process_payment_service_refused w h k =
      ended _
        (Ends-bind Idle _ _ w
          (Ends-both _ _ _ _ _ w (existing_by_key-Charged env c st key w h)
            (existing_by_key-Keeps env st stable key w k))
          λ by_key v idle. after_key-Idle by_key v idle).post
