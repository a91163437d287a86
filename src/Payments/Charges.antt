-- ===== src/Payments/Charges.antt =====
-- What `ProcessPayment` asks of payment gateways: the store never charges, and the service charges
-- once at most.
use shopping_cart_payment.Prelude.{
  ◌≡◌, Bool, true, false, not, ◌&&◌, none, List, Bool-cases, Option-cases, inl, inr, ◌==◌,
}
use shopping_cart_payment.Text.{Text, is_blank}
use shopping_cart_payment.Errors.{GoError, Result, ok, err, is_no_rows}
use shopping_cart_payment.Model.{Payment, Transaction, Uuid, Time}
use shopping_cart_payment.Schema.{PaymentRow, Tables}
use shopping_cart_payment.Gateway.Dto.{PaymentRequest, PaymentResult}
use shopping_cart_payment.World.{Env, World, Action, pure, raise, now, new_uuid}
use shopping_cart_payment.World.Hoare.{
  Ends, Post, Caught, Ends-bind, Ends-pure, Ends-raise, Ends-lift, Ends-if, Ends-try,
}
use shopping_cart_payment.Store.{Store, PaymentStore}
use shopping_cart_payment.Store.Postgres.{
  travel, settle, exec, query, require_affected, or_new_uuid, create_payment, update_payment_store,
  create_transaction, select_payment, get_payment_by_idempotency_key, get_payment_by_order_id,
  postgres, finish_tx, run_in_tx,
}
use shopping_cart_payment.Payments.{
  is_unique_violation, found_or_none, existing_by_key, existing_by_order, completion_time,
  persist_processed_payment, recover_duplicate,
}

abbrev pub Charges : Type 0
Charges = List (PaymentRequest × PaymentResult)

-- The charges so far are these.
abbrev pub Charged : {A : Type 0} → Charges → A → World → Type 0
Charged c a w = w.charges ≡ c

module _ (env : Env) (c : Charges) where
  now-Charged : (w : World) → w.charges ≡ c → Ends (Charged c) (Charged c) (now env) w
  unfolding now
  now-Charged w h = record { post = h }

  new_uuid-Charged : (w : World) → w.charges ≡ c → Ends (Charged c) (Charged c) (new_uuid env) w
  unfolding new_uuid
  new_uuid-Charged w h = record { post = h }

  settle-Charged :
      {A : Type 0} (r : Result (A × Tables)) (w : World)
      → w.charges ≡ c
      → Post (Charged c) (Charged c) (settle r w)
  settle-Charged (ok (a, t)) w h = h
  settle-Charged (err e) w h = h

  caught :
      {A : Type 0} (r : Result A) (w : World) → Caught (Charged c) (Charged c) r w → w.charges ≡ c
  caught (ok a) w h = h
  caught (err e) w h = h

  -- The methods of the store that `ProcessPayment` uses.
  module _ (st : Store) where
    exec-Charged :
        {A : Type 0} (statement : Tables → Result (A × Tables)) (w : World)
        → w.charges ≡ c
        → Ends (Charged c) (Charged c) (exec env st statement) w
    unfolding exec
    exec-Charged statement w h = elim (Option-cases (env.fault w.round_trips)) [
      | inl fine ↦ record { post = rw (exec, fine) (settle-Charged _ (travel env st.in_tx w) h) }
      | inr (e, failed) ↦ record { post = rw (exec, failed) h }
    ]

    require_affected-Charged :
        (affected : Bool) (w : World)
        → w.charges ≡ c
        → Ends (Charged c) (Charged c) (require_affected env affected) w
    unfolding require_affected
    require_affected-Charged affected w h =
        Ends-if affected _ _ w (λ _. Ends-pure tt w h) (λ _. Ends-lift _ w (λ _ _. h) (λ _ _. h))

    or_new_uuid-Charged :
        (id : Uuid) (w : World)
        → w.charges ≡ c
        → Ends (Charged c) (Charged c) (or_new_uuid env st id) w
    unfolding or_new_uuid
    or_new_uuid-Charged id w h =
        Ends-if (id == 0) _ _ w (λ _. new_uuid-Charged w h) (λ _. Ends-pure id w h)

    create_payment-Charged :
        (p : Payment) (w : World)
        → w.charges ≡ c
        → Ends (Charged c) (Charged c) (create_payment env st p) w
    unfolding create_payment
    create_payment-Charged p w h =
        Ends-bind (Charged c) _ _ w (or_new_uuid-Charged p.id w h) λ id v k.
          Ends-bind (Charged c) _ _ v (now-Charged v k)
            λ time x l. Ends-bind (Charged c) _ _ x (exec-Charged _ x l) λ u y m. Ends-pure _ y m

    update_payment_store-Charged :
        (p : Payment) (w : World)
        → w.charges ≡ c
        → Ends (Charged c) (Charged c) (update_payment_store env st p) w
    unfolding update_payment_store
    update_payment_store-Charged p w h = Ends-bind (Charged c) _ _ w (now-Charged w h) λ time v k.
        Ends-bind (Charged c) _ _ v (exec-Charged _ v k) λ affected x l.
          Ends-bind (Charged c) _ _ x (require_affected-Charged affected x l)
            λ u y m. Ends-pure _ y m

    create_transaction-Charged :
        (t : Transaction) (w : World)
        → w.charges ≡ c
        → Ends (Charged c) (Charged c) (create_transaction env st t) w
    unfolding create_transaction
    create_transaction-Charged t w h =
        Ends-bind (Charged c) _ _ w (or_new_uuid-Charged t.id w h) λ id v k.
          Ends-bind (Charged c) _ _ v
            (Ends-if (t.created_at == 0) _ _ v (λ _. now-Charged v k) (λ _. Ends-pure _ v k))
            λ time x l. Ends-bind (Charged c) _ _ x (exec-Charged _ x l) λ u y m. Ends-pure _ y m

    select_payment-Charged :
        (where_clause : PaymentRow → Bool) (w : World)
        → w.charges ≡ c
        → Ends (Charged c) (Charged c) (select_payment env st where_clause) w
    unfolding select_payment query
    select_payment-Charged where_clause w h =
        Ends-bind (Charged c) _ _ w (exec-Charged _ w h)
          λ row v k. Ends-lift _ v (λ _ _. k) (λ _ _. k)

    completion_time-Charged :
        (result : PaymentResult) (time : Time) (w : World)
        → w.charges ≡ c
        → Ends (Charged c) (Charged c) (completion_time env result time) w
    unfolding completion_time
    completion_time-Charged result time w h =
        Ends-if result.success _ _ w (λ _. now-Charged w h) (λ _. Ends-pure time w h)

    pub persist_processed_payment-Charged :
        (payment : Payment) (correlation_id : Text) (result : PaymentResult) (time : Time)
        (w : World)
        → w.charges ≡ c
        → Ends
            (Charged c)
            (Charged c)
            (persist_processed_payment env (postgres env st) payment correlation_id result time)
            w
    unfolding persist_processed_payment
    persist_processed_payment-Charged payment correlation_id result time w h =
        Ends-bind (Charged c) _ _ w (create_payment-Charged payment w h) λ created v1 h1.
          Ends-bind (Charged c) _ _ v1 (update_payment_store-Charged _ v1 h1) λ processing v2 h2.
            Ends-bind (Charged c) _ _ v2 (new_uuid-Charged v2 h2) λ id v3 h3.
              Ends-bind (Charged c) _ _ v3 (create_transaction-Charged _ v3 h3) λ row v4 h4.
                Ends-bind (Charged c) _ _ v4 (completion_time-Charged result _ v4 h4)
                  λ at v5 h5. update_payment_store-Charged _ v5 h5

    finish-Charged :
        {A : Type 0} (before : Tables) (r : Result A × World)
        → Post (Charged c) (Charged c) r
        → Post (Charged c) (Charged c) (finish_tx env before r)
    unfolding finish_tx
    finish-Charged before (ok a, w) h = elim (Option-cases (env.fault w.round_trips)) [
      | inl fine ↦ rw (finish_tx, fine) h
      | inr (e, failed) ↦ rw (finish_tx, failed) h
    ]
    finish-Charged before (err e, w) h = elim (Option-cases (env.fault w.round_trips)) [
      | inl fine ↦ rw (finish_tx, fine) h
      | inr (f, failed) ↦ rw (finish_tx, failed) h
    ]

    pub run_in_tx-Charged :
        {A : Type 0} (fn : PaymentStore → Action A) (w : World)
        → w.charges ≡ c
        → ((v : World)
            → v.charges ≡ c
            → Ends (Charged c) (Charged c) (fn (postgres env (record st { in_tx = true }))) v)
        → Ends (Charged c) (Charged c) (run_in_tx env st fn) w
    unfolding run_in_tx
    run_in_tx-Charged fn w h body = elim (Bool-cases st.pool) [
      | inl there ↦ elim (Option-cases (env.fault w.round_trips)) [
        | inl fine ↦ record {
          post =
              rw (run_in_tx, there, fine) (finish-Charged _ _ (body (travel env false w) h).post);
        }
        | inr (e, failed) ↦ record { post = rw (run_in_tx, there, failed) h }
      ]
      | inr missing_pool ↦ record { post = rw (run_in_tx, missing_pool) h }
    ]

    -- The lookups before and after.
    found_or_none-Charged :
        (r : Result Payment) (w : World)
        → w.charges ≡ c
        → Ends (Charged c) (Charged c) (found_or_none r) w
    unfolding found_or_none
    found_or_none-Charged (ok p) w h = Ends-pure _ w h
    found_or_none-Charged (err e) w h =
        Ends-if (is_no_rows e) _ _ w (λ _. Ends-pure none w h) (λ _. Ends-raise e w h)

    pub existing_by_key-Charged :
        (key : Text) (w : World)
        → w.charges ≡ c
        → Ends (Charged c) (Charged c) (existing_by_key (postgres env st) key) w
    unfolding existing_by_key get_payment_by_idempotency_key
    existing_by_key-Charged key w h =
        Ends-if (is_blank key) _ _ w (λ _. Ends-pure none w h)
          λ _.
            Ends-bind (Caught (Charged c) (Charged c)) _ _ w
              (Ends-try _ w (select_payment-Charged _ w h))
              λ found v k. found_or_none-Charged found v (caught found v k)

    pub existing_by_order-Charged :
        (order_id : Text) (w : World)
        → w.charges ≡ c
        → Ends (Charged c) (Charged c) (existing_by_order (postgres env st) order_id) w
    unfolding existing_by_order get_payment_by_order_id
    existing_by_order-Charged order_id w h =
        Ends-bind (Caught (Charged c) (Charged c)) _ _ w
          (Ends-try _ w (select_payment-Charged _ w h))
          λ found v k.
            Ends-bind (Charged c) _ _ v (found_or_none-Charged found v (caught found v k))
              λ existing x l. Ends-pure _ x l

    winner-Charged :
        (existing : Result Payment) (e : GoError) (w : World)
        → w.charges ≡ c
        → Ends
            (Charged c)
            (Charged c)
            (elim existing as (λ _. Action Payment) [ ok p ↦ pure p | err _ ↦ raise e ])
            w
    winner-Charged (ok p) e w h = Ends-pure p w h
    winner-Charged (err f) e w h = Ends-raise e w h

    pub recover_duplicate-Charged :
        (key : Text) (r : Result Payment) (w : World)
        → w.charges ≡ c
        → Ends (Charged c) (Charged c) (recover_duplicate (postgres env st) key r) w
    unfolding recover_duplicate get_payment_by_idempotency_key
    recover_duplicate-Charged key (ok p) w h = Ends-pure p w h
    recover_duplicate-Charged key (err e) w h =
        Ends-if (is_unique_violation e && not (is_blank key)) _ _ w
          (λ _.
            Ends-bind (Caught (Charged c) (Charged c)) _ _ w
              (Ends-try _ w (select_payment-Charged _ w h))
              λ existing v k. winner-Charged existing e v (caught existing v k))
          (λ _. Ends-raise e w h)
