-- ===== src/Payments/Soundness.antt =====
-- What a run of `ProcessPayment` promises, whatever it returns, and when it replays a payment.
use shopping_cart_payment.Prelude.{
  ◌≡◌, refl, ◌∙◌, subst, Bool, false, some, none, ◌∷◌, inl, inr, ◌⊎◌,
}
use shopping_cart_payment.Text.{Text, is_blank}
use shopping_cart_payment.Errors.{Result, ok, err}
use shopping_cart_payment.Model.{Payment, Uuid, Time}
use shopping_cart_payment.Schema.{Tables, PaymentRow, same_key}
use shopping_cart_payment.Schema.Statements.{matching, newest_first, first}
use shopping_cart_payment.Gateway.Dto.{PaymentResult}
use shopping_cart_payment.Gateway.Router.{Router}
use shopping_cart_payment.World.{Env, World, pure, lift}
use shopping_cart_payment.World.Hoare.{Post, bind-ok, bind-try}
use shopping_cart_payment.Store.{Store}
use shopping_cart_payment.Store.Backend.{runner}
use shopping_cart_payment.Store.Rows.{scan_payment_row, scan_first}
use shopping_cart_payment.Store.Postgres.{
  travel, exec, query, select_payment, get_payment_by_idempotency_key,
}
use shopping_cart_payment.Store.Transactions.{Quiet, Quiet-Stable, NeverLands, never_both}
use shopping_cart_payment.Payments.Requests.{ProcessPaymentRequest, gateway_request, new_payment}
use shopping_cart_payment.Payments.Recording.{Recorded}
use shopping_cart_payment.Payments.Service.{Booked, Settled, Refused, process_payment_service_lem}
use shopping_cart_payment.Payments.{
  PaymentService, found_or_none, existing_by_key, process_payment_service,
}

abbrev pub payments_of : Store → Router → PaymentService
payments_of st router = record { store = runner st; router = router }

-- A SELECT that works and finds a row that can be read.
pub select_payment-eq-ok :
    (env : Env) (st : Store) (where_clause : PaymentRow → Bool) (w : World) (row : PaymentRow)
    (p : Payment)
    → env.fault w.round_trips ≡ none
    → first (
        newest_first PaymentRow.created_at
          (matching where_clause (travel env st.in_tx w).tables.payments))
      ≡ some row
    → scan_payment_row env row ≡ ok p
    → select_payment env st where_clause w ≡ (ok p, travel env st.in_tx w)
unfolding select_payment query exec lift scan_first
select_payment-eq-ok env st where_clause w row p fine found read =
    let v = travel env st.in_tx w in
    bind-ok _ _ w
      (first (newest_first PaymentRow.created_at (matching where_clause v.tables.payments))) v
      (rw (query, exec, fine) refl)
    ∙ rw (found, read) refl

module _ (env : Env) (req : ProcessPaymentRequest) (correlation_id key : Text) where
  -- The gateways were charged at most once between the two states, and then for this request.
  abbrev pub ChargedAtMostOnce : (w v : World) → Type 0
  ChargedAtMostOnce w v =
      (v.charges ≡ w.charges)
      ⊎ ((result : PaymentResult) × (v.charges
            ≡ (gateway_request env req correlation_id key, result) ∷ w.charges))

  -- The tables after are those before, and one payment and one row of the audit log more that record
  -- the gateway's result.
  pub record RecordedOnce (result : PaymentResult) (p : Payment) (t t' : Tables) : Type 0 where
    pub gateway : Text
    pub id : Uuid
    pub time : Time
    pub recorded :
        Recorded env (new_payment env req gateway correlation_id key id time) result p t t'

  -- What a caller that got this result can rely on.
  unfoldable pub PaymentOutcome : Result Payment → (before after : World) → Type 0
  PaymentOutcome (err e) w v = (v.tables ≡ w.tables) × ChargedAtMostOnce w v
  PaymentOutcome (ok p) w v =
      ((v.tables ≡ w.tables) × ChargedAtMostOnce w v)
      ⊎ ((result : PaymentResult) × (v.charges
            ≡ (gateway_request env req correlation_id key, result) ∷ w.charges)
          × RecordedOnce result p w.tables v.tables)

  charges_outcome :
      (w : World) (P : Tables → Type 0) (r : Result Payment × World)
      → Post
          (Settled env req correlation_id key P w.charges)
          (Refused env req correlation_id key P w.charges)
          r
      → ChargedAtMostOnce w r.1
  charges_outcome w P (ok p, v) (inl (same, h)) = inl same
  charges_outcome w P (ok p, v) (inr (result, once, h)) = inr (result, once.charges)
  charges_outcome w P (err e, v) (inl same, h) = inl same
  charges_outcome w P (err e, v) (inr (result, once), h) = inr (result, once.charges)

  recorded_once :
      (t : Tables) (result : PaymentResult) (p : Payment) (t' : Tables)
      → Booked env req correlation_id key (λ u. u ≡ t) result p t'
      → RecordedOnce result p t t'
  recorded_once t result p t' b = record {
    gateway = b.gateway;
    id = b.id;
    time = b.time;
    recorded =
        subst
          (λ u.
            Recorded env (new_payment env req b.gateway correlation_id key b.id b.time) result p u
              t')
          b.began b.recorded;
  }

  payment_outcome :
      (w : World) (r : Result Payment × World)
      → Post
          (Settled env req correlation_id key (λ t. t ≡ w.tables) w.charges)
          (Refused env req correlation_id key (λ t. t ≡ w.tables) w.charges)
          r
      → PaymentOutcome r.0 w r.1
  unfolding PaymentOutcome
  payment_outcome w (ok p, v) (inl (same, kept)) = inl (kept, inl same)
  payment_outcome w (ok p, v) (inr (result, once, inl kept)) =
      inl (kept, inr (result, once.charges))
  payment_outcome w (ok p, v) (inr (result, once, inr b)) =
      inr (result, once.charges, recorded_once w.tables result p v.tables b)
  payment_outcome w (err e, v) (inl same, kept) = (kept, inl same)
  payment_outcome w (err e, v) (inr (result, once), kept) = (kept, inr (result, once.charges))

  module _ (st : Store) (router : Router) where
    -- A run of `ProcessPayment` calls a gateway's ProcessPayment at most once, with the request made
    -- of its arguments, whatever it returns, whatever other clients write and whichever round trips
    -- to the database fail.
    pub process_payment_service-ChargedAtMostOnce :
        (w : World)
        → ChargedAtMostOnce w
            (process_payment_service env (payments_of st router) req correlation_id key w).1
    process_payment_service-ChargedAtMostOnce w =
        charges_outcome w (λ _. Unit) _
          (process_payment_service_lem env req correlation_id key (λ _. Unit) st router
            (λ _ _ _. tt) (λ _ _ _ _ _ _. tt) w.charges w refl tt).post

    -- When nobody else writes and no Commit that reports an error has taken effect, a run of
    -- `ProcessPayment` that returns an error leaves the tables as they were; one that returns a payment leaves them as they were, or has charged once and added
    -- exactly that payment, with an id and an idempotency key that no payment had, completed if the
    -- charge succeeded and failed if not, and one row of the audit log that says so.
    pub process_payment_service-PaymentOutcome :
        Quiet env
        → NeverLands env
        → (w : World)
        → let (r, v) =
            process_payment_service env (payments_of st router) req correlation_id key w in
          PaymentOutcome r w v
    process_payment_service-PaymentOutcome quiet never w =
        payment_outcome w _
          (process_payment_service_lem env req correlation_id key (λ t. t ≡ w.tables) st router
            (Quiet-Stable env w.tables quiet)
            (λ n result p t lands b. absurd (never_both (env.commit_lands n) lands (never n)))
            w.charges w refl refl).post

    -- When the key is not blank, the newest of the payments with this key can be read and the round
    -- trip to the database works, `ProcessPayment` returns that payment, whatever else the request
    -- says, and changes nothing: no gateway is called and no row is written.
    pub process_payment_service-replay :
        (w : World) (row : PaymentRow) (p : Payment)
        → is_blank key ≡ false
        → env.fault w.round_trips ≡ none
        → first (
            newest_first PaymentRow.created_at (
              matching
                (λ r. same_key r.idempotency_key (some key))
                (travel env st.in_tx w).tables.payments))
          ≡ some row
        → scan_payment_row env row ≡ ok p
        → process_payment_service env (payments_of st router) req correlation_id key w
          ≡ (ok p, travel env st.in_tx w)
    unfolding process_payment_service existing_by_key get_payment_by_idempotency_key found_or_none
        pure
    process_payment_service-replay w row p given fine found read =
        bind-ok _ _ w (some p) (travel env st.in_tx w) (
          rw given (
            bind-try _ _ w p (travel env st.in_tx w)
              (select_payment-eq-ok env st _ w row p fine found read)))
