-- ===== src/Payments/Service.antt =====
-- `ProcessPayment` as a whole, run against the PostgreSQL store.
use shopping_cart_payment.Prelude.{
  ℕ, ◌≡◌, refl, ◌∙◌, ap, true, not, ◌&&◌, Option, some, none, ◌∷◌, inl, inr, ◌⊎◌,
}
use shopping_cart_payment.Text.{Text, is_blank}
use shopping_cart_payment.Errors.{GoError, Result, ok, err, is_no_rows}
use shopping_cart_payment.Model.{Payment, Uuid, Time}
use shopping_cart_payment.Schema.{Tables}
use shopping_cart_payment.Gateway.Dto.{PaymentResult}
use shopping_cart_payment.Gateway.Providers.{PaymentGateway, get_name}
use shopping_cart_payment.Gateway.Frame.{Framed, Never, process_payment-Framed}
use shopping_cart_payment.Gateway.Router.{Router, get_gateway_or_default}
use shopping_cart_payment.World.{Env, World, Action, pure, raise, ◌>>=◌, now, new_uuid}
use shopping_cart_payment.World.Hoare.{
  Ends, Caught, Ends-bind, Ends-pure, Ends-raise, Ends-lift, Ends-if, Ends-try, Ends-weaken,
  Ends-both,
}
use shopping_cart_payment.Store.{Store}
use shopping_cart_payment.Store.Backend.{runner, with_tx}
use shopping_cart_payment.Store.Postgres.{
  postgres, get_payment_by_idempotency_key, get_payment_by_order_id,
}
use shopping_cart_payment.Store.Transactions.{Stable, Keeps, select_payment-Keeps, run_in_tx_lem}
use shopping_cart_payment.Payments.Requests.{ProcessPaymentRequest, gateway_request, new_payment}
use shopping_cart_payment.Payments.Charges.{
  Charges, Charged, existing_by_key-Charged, existing_by_order-Charged, recover_duplicate-Charged,
  persist_processed_payment-Charged, run_in_tx-Charged,
}
use shopping_cart_payment.Payments.Recording.{Recorded, persist_processed_payment_lem}
use shopping_cart_payment.Payments.{
  PaymentService, is_unique_violation, found_or_none, existing_by_key, existing_by_order,
  charge_gateway, recover_duplicate, charge_and_persist, process_payment_service,
}

module _ (env : Env) (st : Store) {P : Tables → Type 0} (stable : Stable env P) where
  caught : {A : Type 0} (r : Result A) (w : World) → Caught (Keeps P) (Keeps P) r w → P w.tables
  caught (ok a) w h = h
  caught (err e) w h = h

  found_or_none-Keeps :
      (r : Result Payment) (w : World) → P w.tables → Ends (Keeps P) (Keeps P) (found_or_none r) w
  unfolding found_or_none
  found_or_none-Keeps (ok p) w h = Ends-pure _ w h
  found_or_none-Keeps (err e) w h =
      Ends-if (is_no_rows e) _ _ w (λ _. Ends-pure none w h) (λ _. Ends-raise e w h)

  pub existing_by_key-Keeps :
      (key : Text) (w : World)
      → P w.tables
      → Ends (Keeps P) (Keeps P) (existing_by_key (postgres env st) key) w
  unfolding existing_by_key get_payment_by_idempotency_key
  existing_by_key-Keeps key w h =
      Ends-if (is_blank key) _ _ w (λ _. Ends-pure none w h)
        λ _.
          Ends-bind (Caught (Keeps P) (Keeps P)) _ _ w
            (Ends-try _ w (select_payment-Keeps env stable st _ w h))
            λ found v k. found_or_none-Keeps found v (caught found v k)

  pub existing_by_order-Keeps :
      (order_id : Text) (w : World)
      → P w.tables
      → Ends (Keeps P) (Keeps P) (existing_by_order (postgres env st) order_id) w
  unfolding existing_by_order get_payment_by_order_id
  existing_by_order-Keeps order_id w h =
      Ends-bind (Caught (Keeps P) (Keeps P)) _ _ w
        (Ends-try _ w (select_payment-Keeps env stable st _ w h))
        λ found v k.
          Ends-bind (Keeps P) _ _ v (found_or_none-Keeps found v (caught found v k))
            λ existing x l. Ends-pure _ x l

  winner-Keeps :
      (existing : Result Payment) (e : GoError) (w : World)
      → P w.tables
      → Ends
          (Keeps P)
          (Keeps P)
          (elim existing as (λ _. Action Payment) [ ok p ↦ pure p | err _ ↦ raise e ])
          w
  winner-Keeps (ok p) e w h = Ends-pure p w h
  winner-Keeps (err f) e w h = Ends-raise e w h

  recover_error-Keeps :
      (key : Text) (e : GoError) (w : World)
      → P w.tables
      → Ends (Keeps P) (Keeps P) (recover_duplicate (postgres env st) key (err e)) w
  unfolding recover_duplicate get_payment_by_idempotency_key
  recover_error-Keeps key e w h =
      Ends-if (is_unique_violation e && not (is_blank key)) _ _ w
        (λ _.
          Ends-bind (Caught (Keeps P) (Keeps P)) _ _ w
            (Ends-try _ w (select_payment-Keeps env stable st _ w h))
            λ existing v k. winner-Keeps existing e v (caught existing v k))
        (λ _. Ends-raise e w h)

module _ (env : Env) (req : ProcessPaymentRequest) (correlation_id key : Text)
    (P : Tables → Type 0) where
  -- The payment is the one that the closure recorded for this result, on tables with P.
  pub record Booked (result : PaymentResult) (p : Payment) (t' : Tables) : Type 0 where
    pub start : Tables
    pub began : P start
    pub gateway : Text
    pub id : Uuid
    pub time : Time
    pub recorded :
        Recorded env (new_payment env req gateway correlation_id key id time) result p start t'

  -- One charge of this request more than c.
  pub record ChargedOnce (c : Charges) (result : PaymentResult) (v : World) : Type 0 where
    pub charges : v.charges ≡ (gateway_request env req correlation_id key, result) ∷ c

  abbrev pub Settled : Charges → Payment → World → Type 0
  Settled c p v =
      ((v.charges ≡ c) × P v.tables)
      ⊎ ((result : PaymentResult) × ChargedOnce c result v
          × (P v.tables ⊎ Booked result p v.tables))

  abbrev pub Refused : Charges → GoError → World → Type 0
  Refused c e v =
      ((v.charges ≡ c) ⊎ ((result : PaymentResult) × ChargedOnce c result v)) × P v.tables

  -- A Commit that takes effect although it reports an error leaves tables with P.
  abbrev pub Landed : Type 0
  Landed =
      (n : ℕ) (result : PaymentResult) (p : Payment) (t : Tables)
      → env.commit_lands n ≡ true
      → Booked result p t
      → P t

  module _ (st : Store) (router : Router) (stable : Stable env P) (landed : Landed)
      (c : Charges) where
    abbrev service : PaymentService
    service = record { store = runner st; router = router }

    abbrev Idle : {A : Type 0} → A → World → Type 0
    Idle a v = (v.charges ≡ c) × P v.tables

    Idle-error :
        {A : Type 0} (m : Action A) (w : World) → Ends Idle Idle m w → Ends Idle (Refused c) m w
    Idle-error m w h = Ends-weaken m w h (λ _ _ k. k) (λ _ _ k. (inl k.0, k.1))

    charge_lem :
        (g : PaymentGateway) (w : World)
        → w.charges ≡ c
        → P w.tables
        → Ends
            (λ result v. ChargedOnce c result v × P v.tables)
            (Refused c)
            (charge_gateway env g (gateway_request env req correlation_id key))
            w
    unfolding charge_gateway
    charge_lem g w h k =
        Ends-bind (Framed w) _ _ w
          (Ends-weaken _ w (process_payment-Framed env g _ w) (λ _ _ f. f) (λ _ _ f. absurd f))
          λ result v f. record {
            post = (
              record {
                charges =
                    ap (λ l. (gateway_request env req correlation_id key, result) ∷ l)
                      (f.charges ∙ h);
              },
              rw f.tables k,
            );
          }

    recover_lem :
        (result : PaymentResult) (r : Result Payment) (w : World)
        → ChargedOnce c result w
        → Caught (λ p v. P v.tables ⊎ Booked result p v.tables) (Keeps P) r w
        → Ends (Settled c) (Refused c) (recover_duplicate (postgres env st) key r) w
    unfolding recover_duplicate
    recover_lem result (ok p) w once h = Ends-pure p w (inr (result, once, h))
    recover_lem result (err e) w once h =
        Ends-weaken _ w
          (Ends-both _ _ _ _ _ w (recover_duplicate-Charged env _ st key (err e) w once.charges)
            (recover_error-Keeps env st stable key e w h))
          (λ p v k. inr (result, record { charges = k.0 }, inl k.1))
          (λ e v k. (inr (result, record { charges = k.0 }), k.1))

    charge_and_persist_lem :
        (w : World)
        → w.charges ≡ c
        → P w.tables
        → Ends (Settled c) (Refused c) (charge_and_persist env service req correlation_id key) w
    unfolding charge_and_persist with_tx now new_uuid
    charge_and_persist_lem w h k =
        Ends-bind Idle _ _ w
          (Ends-lift (get_gateway_or_default env router req.gateway) w (λ _ _. (h, k))
            (λ _ _. (inl h, k)))
          λ g v1 (h1, k1).
            Ends-bind Idle _ _ v1 (record { post = (h1, k1) })
              λ time v2 (h2, k2).
                Ends-bind Idle _ _ v2 (record { post = (h2, k2) })
                  λ id v3 (h3, k3).
                    Ends-bind _ _ _ v3 (charge_lem g v3 h3 k3) λ result v4 (once, k4).
                      let c' : Charges = (gateway_request env req correlation_id key, result) ∷ c in
                      Ends-bind
                        (λ r v.
                          ChargedOnce c result v
                          × Caught (λ p x. P x.tables ⊎ Booked result p x.tables) (Keeps P) r v)
                        _ _ v4
                        (Ends-weaken _ v4
                          (Ends-both _ _ Never Never _ v4
                            (Ends-try _ v4 (
                              run_in_tx-Charged env c' st _ v4 once.charges λ v5 h5.
                                persist_processed_payment-Charged env c'
                                  (record st { in_tx = true }) _ correlation_id result time v5 h5))
                            (Ends-try _ v4 (
                              run_in_tx_lem env stable st (λ p t. P t ⊎ Booked result p t)
                                (λ _ k. k) (settled result) _ v4 k4
                                λ v5 k5.
                                  Ends-weaken _ v5
                                    (persist_processed_payment_lem env (record st { in_tx = true })
                                      refl _ correlation_id result time v5)
                                    (λ p v6 r. inr (record {
                                      start = v5.tables;
                                      began = k5;
                                      gateway = get_name g;
                                      id = id;
                                      time = time;
                                      recorded = r;
                                    }))
                                    (λ _ _ _. tt))))
                          (λ r v both. (record { charges = charged_of c' r v both.0 }, both.1))
                          (λ e v both. absurd both.0))
                        λ r v (once', h'). recover_lem result r v once' h'
      where
        charged_of :
            (d : Charges) (r : Result Payment) (v : World)
            → Caught (Charged d) (Charged d) r v
            → v.charges ≡ d
        charged_of d (ok p) v e = e
        charged_of d (err f) v e = e

        settled :
            (result : PaymentResult) (n : ℕ) (p : Payment) (t : Tables)
            → env.commit_lands n ≡ true
            → P t ⊎ Booked result p t
            → P t
        settled result n p t lands (inl k) = k
        settled result n p t lands (inr b) = landed n result p t lands b

    -- From the lookups on.
    or_charge_lem :
        (by_order : Option Payment) (w : World)
        → Idle by_order w
        → Ends
            (Settled c)
            (Refused c)
            (elim by_order as (λ _. Action Payment) [
              | some p ↦ pure p
              | none ↦ charge_and_persist env service req correlation_id key
            ])
            w
    or_charge_lem none w (h, k) = charge_and_persist_lem w h k
    or_charge_lem (some p) w idle = Ends-pure p w (inl idle)

    after_key_lem :
        (by_key : Option Payment) (w : World)
        → Idle by_key w
        → Ends
            (Settled c)
            (Refused c)
            (elim by_key as (λ _. Action Payment) [
              | some p ↦ pure p
              | none ↦ (do
                by_order ← existing_by_order (postgres env st) req.order_id
                elim by_order as (λ _. Action Payment) [
                  | some p ↦ pure p
                  | none ↦ charge_and_persist env service req correlation_id key
                ])
            ])
            w
    after_key_lem (some p) w idle = Ends-pure p w (inl idle)
    after_key_lem none w (h, k) =
        Ends-bind Idle _ _ w
          (Idle-error _ w (
            Ends-both _ _ _ _ _ w (existing_by_order-Charged env c st req.order_id w h)
              (existing_by_order-Keeps env st stable req.order_id w k)))
          λ by_order v idle. or_charge_lem by_order v idle

    pub process_payment_service_lem :
        (w : World)
        → w.charges ≡ c
        → P w.tables
        → Ends
            (Settled c)
            (Refused c)
            (process_payment_service env service req correlation_id key)
            w
    unfolding process_payment_service
    process_payment_service_lem w h k =
        Ends-bind Idle _ _ w
          (Idle-error _ w (
            Ends-both _ _ _ _ _ w (existing_by_key-Charged env c st key w h)
              (existing_by_key-Keeps env st stable key w k)))
          λ by_key v idle. after_key_lem by_key v idle
