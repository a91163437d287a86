-- ===== src/Refunds/Soundness.antt =====
-- What a run of `ProcessRefund` promises, whatever it returns.
use shopping_cart_payment.Prelude.{
  ℕ, ◌≡◌, refl, sym, subst, Bool, true, false, [], ◌∷◌, ◌++◌, ℤ, ◌+ℤ◌, ◌≤ℤ◌, inl, inr, ◌⊎◌,
  if◌then◌else◌,
}
use shopping_cart_payment.Errors.{Result, ok, err}
use shopping_cart_payment.Decimal.{FitsScale, units}
use shopping_cart_payment.Model.{Refund, Uuid}
use shopping_cart_payment.Model.Status.{is_refunded}
use shopping_cart_payment.Schema.{Tables, RefundRow}
use shopping_cart_payment.Gateway.Router.{Router}
use shopping_cart_payment.World.{Env, World}
use shopping_cart_payment.World.Hoare.{Post}
use shopping_cart_payment.Store.{Store}
use shopping_cart_payment.Store.Backend.{runner}
use shopping_cart_payment.Store.Numeric.{AmountLaws}
use shopping_cart_payment.Store.Transactions.{Stable, Keeps, IsStored, Quiet, Quiet-Stable}
use shopping_cart_payment.Refunds.{RefundService, RefundOrder, process_refund_service}
use shopping_cart_payment.Refunds.Ledger.{
  IsSound, IsCovered, RefundStep, RefundStep-IsCovered, stay, give_back, ledger, Ledger, HasAmount,
  total,
}
use shopping_cart_payment.Refunds.Service.{
  Booked, Outcome, has_correlation, process_refund_service_lem,
}

step_of :
    (l m : Ledger) (id : Uuid) (taken amount : ℤ) (done : Bool)
    → m.taken ≡ l.taken
    → m.given_back ≡ (if done then l.given_back ++ (id, amount) ∷ [] else l.given_back)
    → HasAmount id taken l.taken
    → total id l.given_back +ℤ amount ≤ℤ taken
    → RefundStep l m
step_of l m id taken amount true same more has room =
    subst (RefundStep l) (λ i. record { taken = sym same i; given_back = sym more i })
      (give_back id taken amount has room)
step_of l m id taken amount false same more has room =
    subst (RefundStep l) (λ i. record { taken = sym same i; given_back = sym more i }) stay

module _ (env : Env) (laws : AmountLaws env) (order : RefundOrder) (fits : FitsScale order.amount)
    (st : Store) {P : Tables → Type 0} (r : Refund) (t : Tables) where
  pub Booked-RefundStep :
      (b : Booked env laws order fits st P r t) → RefundStep (ledger env b.start) (ledger env t)
  unfolding ledger
  Booked-RefundStep b =
      let c = b.persisted.checked in
      let done = b.persisted.refunded in
      step_of (ledger env b.start) (ledger env t) order.payment_id (units b.persisted.locked.amount)
        (units order.amount) (is_refunded r.status) done.taken done.given_back
        (subst (λ id. HasAmount id (units b.persisted.locked.amount) (ledger env b.start).taken)
          c.is_locked.same_id c.is_locked.has)
        c.room

-- One row was added, of this refund, the amount was added to what the payment gave back exactly when
-- the refund is completed, and no payment's amount changed.
abbrev pub Counted : Env → RefundOrder → Refund → (before after : Tables) → Type 0
Counted env order r before after =
    ((row : RefundRow) × (row.id ≡ r.id)
      × (row.payment_id ≡ order.payment_id)
      × (after.refunds ≡ before.refunds ++ row ∷ []))
    × ((ledger env after).taken ≡ (ledger env before).taken)
    × ((ledger env after).given_back ≡ (
        if is_refunded r.status
        then (ledger env before).given_back ++ (order.payment_id, units order.amount) ∷ []
        else (ledger env before).given_back))

-- After an error the tables are as they were, or a Commit that reported it has taken effect.
abbrev pub Unsettled : Env → RefundOrder → (before after : Tables) → Type 0
Unsettled env order before after =
    (after ≡ before)
    ⊎ ((n : ℕ) × (env.commit_lands n ≡ true) × (r : Refund) × Counted env order r before after)

-- What a caller that got this result can rely on.
unfoldable pub RefundOutcome : Env → RefundOrder → Result Refund → (before after : Tables) → Type 0
RefundOutcome env order (err e) before after = Unsettled env order before after
RefundOutcome env order (ok r) before after =
    ((after ≡ before) × IsStored env (has_correlation order.correlation_id) r after)
    ⊎ Counted env order r before after

abbrev pub refunds_of : Store → Router → RefundService
refunds_of st router = record { store = runner st; router = router }

-- One abstract step from the ledger of the first tables, to sound ones.
abbrev Stepped : Env → (before after : Tables) → Type 0
Stepped env before after = RefundStep (ledger env before) (ledger env after) × IsSound env after

abbrev SoundAndCovered : Env → Tables → Type 0
SoundAndCovered env t = IsSound env t × IsCovered (ledger env t)

module _ (env : Env) (laws : AmountLaws env) (order : RefundOrder) (fits : FitsScale order.amount)
    (st : Store) where
  Booked-Stepped :
      (t : Tables) (r : Refund) (t' : Tables)
      → Booked env laws order fits st (λ u. u ≡ t) r t'
      → Stepped env t t'
  Booked-Stepped t r t' b = (
    subst (λ u. RefundStep (ledger env u) (ledger env t')) b.began
        (Booked-RefundStep env laws order fits st r t' b),
    b.persisted.refunded.sound,
  )

  step-Outcome :
      (t : Tables) (r : Result Refund × World)
      → IsSound env t
      → Post (Outcome env laws order fits st (λ u. u ≡ t)) (Keeps (Stepped env t)) r
      → Stepped env t r.1.tables
  step-Outcome t (ok r, v) sound (inl (same, stored)) = rw same (stay, sound)
  step-Outcome t (ok r, v) sound (inr b) = Booked-Stepped t r v.tables b
  step-Outcome t (err e, v) sound stepped = stepped

  Booked-IsCovered :
      (r : Refund) (t : Tables)
      → Booked env laws order fits st (SoundAndCovered env) r t
      → SoundAndCovered env t
  Booked-IsCovered r t b = (
    b.persisted.refunded.sound,
    RefundStep-IsCovered (Booked-RefundStep env laws order fits st r t b) b.began.1,
  )

  IsCovered-Outcome :
      (r : Result Refund × World)
      → Post (Outcome env laws order fits st (SoundAndCovered env)) (Keeps (SoundAndCovered env)) r
      → SoundAndCovered env r.1.tables
  IsCovered-Outcome (ok r, v) (inl (h, stored)) = h
  IsCovered-Outcome (ok r, v) (inr b) = Booked-IsCovered r v.tables b
  IsCovered-Outcome (err e, v) h = h

  Booked-Counted :
      (t : Tables) (r : Refund) (t' : Tables)
      → Booked env laws order fits st (λ u. u ≡ t) r t'
      → Counted env order r t t'
  Booked-Counted t r t' b =
      let done = b.persisted.refunded in
      (
        (done.row, done.row_of.row_id, done.row_of.row_payment, rw (← b.began) done.refunds),
        rw (← b.began) done.taken,
        rw (← b.began) done.given_back,
      )

  Booked-Outcome :
      (t : Tables) (r : Result Refund × World)
      → Post (Outcome env laws order fits st (λ u. u ≡ t)) (Keeps (Unsettled env order t)) r
      → RefundOutcome env order r.0 t r.1.tables
  unfolding RefundOutcome
  Booked-Outcome t (ok r, v) (inl stored) = inl stored
  Booked-Outcome t (ok r, v) (inr b) = inr (Booked-Counted t r v.tables b)
  Booked-Outcome t (err e, v) kept = kept

module _ (env : Env) (laws : AmountLaws env) (st : Store) (router : Router) where
  -- When amounts of at most four decimals are stored and computed exactly (`AmountLaws`), nobody
  -- else writes and the tables are sound, a run of `ProcessRefund` for an amount of at most four
  -- decimals, whatever it returns and whichever round trips to the database fail, is one abstract
  -- refund step from the ledger of the tables before it to that of the tables after it, and the
  -- tables after it are sound.
  pub process_refund_service-RefundStep :
      Quiet env
      → (order : RefundOrder) → FitsScale order.amount
      → (w : World) → IsSound env w.tables
      → let v = (process_refund_service env (refunds_of st router) order w).1 in
        RefundStep (ledger env w.tables) (ledger env v.tables) × IsSound env v.tables
  process_refund_service-RefundStep quiet order fits w sound =
      step-Outcome env laws order fits st w.tables _ sound
        (process_refund_service_lem env laws order fits st (λ t. t ≡ w.tables) router
          (Quiet-Stable env w.tables quiet) (λ t e. rw e sound) (λ t e. rw e (stay, sound))
          (λ n r t lands b. Booked-Stepped env laws order fits st w.tables r t b) w refl).post

  -- When amounts of at most four decimals are stored and computed exactly (`AmountLaws`), the
  -- tables are sound, every payment is covered by what it took, and other clients keep both so, a
  -- run of `ProcessRefund` for an amount of at most four decimals keeps both too, whatever it
  -- returns: the completed refunds of a payment never add up to more than its amount.
  pub process_refund_service-IsCovered :
      Stable env (λ t. IsSound env t × IsCovered (ledger env t))
      → (order : RefundOrder) → FitsScale order.amount
      → (w : World) → IsSound env w.tables
      → IsCovered (ledger env w.tables)
      → let v = (process_refund_service env (refunds_of st router) order w).1 in
        IsSound env v.tables × IsCovered (ledger env v.tables)
  process_refund_service-IsCovered stable order fits w sound covered =
      IsCovered-Outcome env laws order fits st _
        (process_refund_service_lem env laws order fits st
          (λ t. IsSound env t × IsCovered (ledger env t)) router stable (λ t h. h.0) (λ t h. h)
          (λ n r t lands b. Booked-IsCovered env laws order fits st r t b) w (sound, covered)).post

  -- When amounts of at most four decimals are stored and computed exactly (`AmountLaws`), nobody
  -- else writes and the tables are sound, take a run of `ProcessRefund` for an amount of at most
  -- four decimals. If it returns a refund, then either the tables are as they were and the refund
  -- is read from the newest row with the correlation id of the order, or one row was added, with
  -- its id and for the payment of the order, no payment's amount has changed, and the amount was
  -- added to what the payment gave back exactly when the refund is completed. If it returns an
  -- error, the tables are as they were, unless a Commit that reported an error has taken effect:
  -- then that holds of the refund that was recorded.
  pub process_refund_service-RefundOutcome :
      Quiet env
      → (order : RefundOrder) → FitsScale order.amount
      → (w : World) → IsSound env w.tables
      → let (r, v) = process_refund_service env (refunds_of st router) order w in
        RefundOutcome env order r w.tables v.tables
  unfolding RefundOutcome
  process_refund_service-RefundOutcome quiet order fits w sound =
      Booked-Outcome env laws order fits st w.tables _
        (process_refund_service_lem env laws order fits st (λ t. t ≡ w.tables) router
          (Quiet-Stable env w.tables quiet) (λ t e. rw e sound) {E = Unsettled env order w.tables}
          (λ t e. inl e)
          (λ n r t lands b. inr (n, lands, r, Booked-Counted env laws order fits st w.tables r t b))
          w refl).post
