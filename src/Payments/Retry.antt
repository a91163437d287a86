-- ===== src/Payments/Retry.antt =====
-- The idempotency of `ProcessPayment`: what one run recorded, a later run with the same key replays.
use shopping_cart_payment.Prelude.{
  ◌≡◌, ◌≢◌, refl, ◌∙◌, subst, Bool, true, false, ◌||◌, some, none, List, [], ◌∷◌, ◌++◌, arith, ◌==◌,
  Bool-cases, inl, inr, if◌then◌else◌,
}
use shopping_cart_payment.Text.{Text, is_blank, is_empty, trim_space}
use shopping_cart_payment.Text.Laws.{text_eq_refl}
use shopping_cart_payment.Errors.{ok}
use shopping_cart_payment.Decimal.{FitsScale, units}
use shopping_cart_payment.Model.{Payment, Uuid}
use shopping_cart_payment.Model.Status.{
  PaymentStatus, payment_status_of, IsConstant, payment_status_of-payment_status_text,
}
use shopping_cart_payment.Schema.{Tables, PaymentRow, TransactionRow, any_row, same_key}
use shopping_cart_payment.Schema.Statements.{
  matching, newest_first, insert_newest, first, keep_payment,
}
use shopping_cart_payment.Gateway.Dto.{PaymentResult}
use shopping_cart_payment.Gateway.Router.{Router}
use shopping_cart_payment.World.{Env, World}
use shopping_cart_payment.Store.{Store}
use shopping_cart_payment.Store.Numeric.{AmountLaws}
use shopping_cart_payment.Store.Rows.{payment_args, payment_of, scan_payment_row}
use shopping_cart_payment.Store.RoundTrips.{method_id_of-ok}
use shopping_cart_payment.Store.Postgres.{travel}
use shopping_cart_payment.Store.Transactions.{Quiet, NeverLands}
use shopping_cart_payment.Payments.{process_payment_service}
use shopping_cart_payment.Payments.Requests.{ProcessPaymentRequest, null_string, new_payment}
use shopping_cart_payment.Payments.Recording.{Standing}
use shopping_cart_payment.Payments.Soundness.{
  payments_of, PaymentOutcome, RecordedOnce, process_payment_service-PaymentOutcome,
  process_payment_service-replay,
}

-- A row behind others that do not match is the only one that matches.
matching-fresh :
    (p : PaymentRow → Bool) (rs : List PaymentRow) (r : PaymentRow)
    → any_row p rs ≡ false
    → p r ≡ true
    → matching p (rs ++ r ∷ []) ≡ r ∷ []
unfolding matching any_row
matching-fresh p [] r none_matches hit = rw hit refl
matching-fresh p (s ∷ rs) r none_matches hit = elim (Bool-cases (p s)) [
  | inl other ↦ ground arith
  | inr miss ↦ rw miss (matching-fresh p rs r (ground arith) hit)
]

any_row-or :
    (p q : PaymentRow → Bool) (rs : List PaymentRow)
    → any_row (λ r. p r || q r) rs ≡ false
    → any_row q rs ≡ false
unfolding any_row
any_row-or p q [] h = refl
any_row-or p q (r ∷ rs) h = ground (arith, any_row-or p q rs)

-- A key that is stored as it is has no space around it and is not blank.
unpadded_is_given : (key : Text) → null_string key ≡ some key → is_blank key ≡ false
unfolding null_string is_blank
unpadded_is_given key h = elim (Bool-cases (is_empty (trim_space key))) [
  | inl blank ↦ absurd (cc (rw blank at h))
  | inr given ↦ given
]

settled_IsConstant :
    (success : Bool)
    → IsConstant (if success then PaymentStatus.completed else PaymentStatus.failed)
unfolding payment_status_of
settled_IsConstant true = tt
settled_IsConstant false = tt

module _ (env : Env) (laws : AmountLaws env)
    (reparse : (id : Uuid) → env.parse_uuid (env.uuid_text id) ≡ ok id) where
  -- The replayed payment agrees with the recorded one.
  pub record Replays (p q : Payment) : Type 0 where
    pub id : q.id ≡ p.id
    pub order_id : q.order_id ≡ p.order_id
    pub customer_id : q.customer_id ≡ p.customer_id
    pub value : units q.amount ≡ units p.amount
    pub currency : q.currency ≡ p.currency
    pub status : q.status ≡ p.status
    pub gateway : q.gateway ≡ p.gateway
    pub transaction : q.gateway_transaction_id ≡ p.gateway_transaction_id
    pub key : q.idempotency_key ≡ p.idempotency_key

  -- The row of a payment that stands is found by its key, and reads as that payment.
  found_by_key :
      (p : Payment) (audit : List TransactionRow) (t t' : Tables) (key : Text)
      → (h : Standing env p audit t t') → p.idempotency_key ≡ some key
      → first (
          newest_first PaymentRow.created_at
            (matching (λ r. same_key r.idempotency_key (some key)) t'.payments))
        ≡ some (record (keep_payment env.dialect h.amount (payment_args env p)) {
          created_at = h.created_at;
        })
  unfolding payment_args newest_first insert_newest
  found_by_key p audit t t' key h has =
      let row : PaymentRow = record (keep_payment env.dialect h.amount (payment_args env p)) {
        created_at = h.created_at;
      } in
      let fresh : any_row (λ q. same_key q.idempotency_key (some key)) t.payments ≡ false =
        subst (λ k. any_row (λ q. same_key q.idempotency_key k) t.payments ≡ false) has
          (any_row-or (λ q. q.id == p.id) (λ q. same_key q.idempotency_key p.idempotency_key)
            t.payments h.fresh) in
      let hit : same_key row.idempotency_key (some key) ≡ true = rw has (text_eq_refl key) in
      rw (h.payments, matching-fresh _ t.payments row fresh hit) refl

  Standing-reads :
      (p : Payment) (audit : List TransactionRow) (t t' : Tables)
      → (h : Standing env p audit t t') → FitsScale p.amount
      → IsConstant p.status
      → (q : Payment) × (scan_payment_row env
            (record (keep_payment env.dialect h.amount (payment_args env p)) {
              created_at = h.created_at;
            })
          ≡ ok q)
        × Replays p q
  unfolding payment_args scan_payment_row
  Standing-reads p audit t t' h fits constant =
      let back = laws.stored p.amount h.amount fits h.cast_to in
      let row : PaymentRow = record (keep_payment env.dialect h.amount (payment_args env p)) {
        created_at = h.created_at;
      } in
      (
        payment_of env row back.decimal p.payment_method_id,
        rw (scan_payment_row, back.reads, method_id_of-ok env reparse p.payment_method_id) refl,
        record {
          id = refl;
          order_id = refl;
          customer_id = refl;
          value = laws.stored_units p.amount back.decimal h.amount fits h.cast_to back.reads;
          currency = refl;
          status = payment_status_of-payment_status_text p.status constant;
          gateway = refl;
          transaction = refl;
          key = refl;
        },
      )

  module _ (quiet : Quiet env) (never : NeverLands env) (st : Store) (router : Router)
      (req : ProcessPaymentRequest) (fits : FitsScale req.amount) (correlation_id key : Text)
      (unpadded : null_string key ≡ some key) where
    replay_recorded :
        (result : PaymentResult) (p : Payment) (t t' : Tables)
        → RecordedOnce env req correlation_id key result p t t'
        → (later : ProcessPaymentRequest) (later_correlation : Text) (x : World) → x.tables ≡ t'
        → env.fault x.round_trips ≡ none
        → (q : Payment) × (process_payment_service env
              (payments_of st router)
              later
              later_correlation
              key
              x
            ≡ (ok q, travel env st.in_tx x))
          × Replays p q
    unfolding new_payment
    replay_recorded result p t t' once later later_correlation x same fine =
        let r = once.recorded in
        let has : p.idempotency_key ≡ some key = r.key ∙ unpadded in
        let constant : IsConstant p.status = rw r.status (settled_IsConstant result.success) in
        let fine_amount : FitsScale p.amount = rw r.amount fits in
        let (q, read, agrees) = Standing-reads p _ t t' r.standing fine_amount constant in
        let found = found_by_key p _ t t' key r.standing has in
        (
          q,
          process_payment_service-replay env later later_correlation key st router x _ q
              (unpadded_is_given key unpadded) fine (rw (travelled st.in_tx x, same) found) read,
          agrees,
        )
      where
        travelled : (in_tx : Bool) (w : World) → (travel env in_tx w).tables ≡ w.tables
        travelled true w = refl
        travelled false w = quiet w.round_trips w.tables

    -- When amounts of at most four decimals are stored and computed exactly (`AmountLaws`), nobody
    -- else writes, no Commit that reports an error has taken effect and uuid.Parse reads what String wrote, take a run of `ProcessPayment` for an
    -- amount of at most four decimals, under a key without space around it, that returned a
    -- payment and wrote to the tables. Whatever is then asked for under the same key, as long as
    -- the tables stay as they were left and the lookup's round trip works, `ProcessPayment`
    -- returns that payment: the same id, order, customer, value, currency, status, gateway,
    -- gateway transaction and key. No gateway is called and no row written.
    pub process_payment_service-Replays :
        (w : World) (p : Payment) (v : World)
        → process_payment_service env (payments_of st router) req correlation_id key w ≡ (ok p, v)
        → v.tables ≢ w.tables
        → (later : ProcessPaymentRequest) (later_correlation : Text) (x : World)
        → x.tables ≡ v.tables
        → env.fault x.round_trips ≡ none
        → (q : Payment) × (process_payment_service env
              (payments_of st router)
              later
              later_correlation
              key
              x
            ≡ (ok q, travel env st.in_tx x))
          × Replays p q
    unfolding PaymentOutcome
    process_payment_service-Replays w p v ran wrote later later_correlation x same fine =
        let outcome : PaymentOutcome env req correlation_id key (ok p) w v =
          subst (λ r. PaymentOutcome env req correlation_id key r.0 w r.1) ran
            (process_payment_service-PaymentOutcome env req correlation_id key st router quiet never
              w) in
        elim outcome [
          | inl (kept, charged) ↦ absurd (wrote kept)
          | inr (result, charged, once) ↦
              replay_recorded result p w.tables v.tables once later later_correlation x same fine
        ]
