-- ===== src/Payments/Safety.antt =====
-- `ProcessPayment` keeps the tables as safe as they were.
use shopping_cart_payment.Prelude.{
  ◌≡◌, ◌≢◌, refl, ap, false, ◌||◌, List, [], ◌∷◌, ◌++◌, map, pos, ◌≤ℤ◌, arith, ◌==◌, ==_refl, All,
  All-append, inl, inr,
}
use shopping_cart_payment.Text.{Text}
use shopping_cart_payment.Errors.{Result, ok, err}
use shopping_cart_payment.Decimal.{FitsScale, units}
use shopping_cart_payment.Model.{Payment}
use shopping_cart_payment.Schema.{Tables, PaymentRow, any_row, same_key}
use shopping_cart_payment.Schema.Statements.{keep_payment}
use shopping_cart_payment.Store.Rows.{payment_args}
use shopping_cart_payment.Gateway.Router.{Router}
use shopping_cart_payment.Gateway.Dto.{PaymentResult}
use shopping_cart_payment.World.{Env, World}
use shopping_cart_payment.World.Hoare.{Post}
use shopping_cart_payment.Store.{Store}
use shopping_cart_payment.Store.Numeric.{AmountLaws}
use shopping_cart_payment.Store.Transactions.{Stable}
use shopping_cart_payment.Payments.{process_payment_service}
use shopping_cart_payment.Payments.Requests.{ProcessPaymentRequest, new_payment}
use shopping_cart_payment.Payments.Recording.{Standing}
use shopping_cart_payment.Payments.Service.{Booked, Settled, Refused, process_payment_service_lem}
use shopping_cart_payment.Payments.Soundness.{payments_of}
use shopping_cart_payment.Refunds.Ledger.{taken_by, ledger, amount_units, amount_units-stored}
use shopping_cart_payment.Refunds.Owners.{take_payment_lem}
use shopping_cart_payment.Refunds.Safety.{IsSafe}

map-append :
    {A B : Type 0} (f : A → B) (xs : List A) (y : A) → map f (xs ++ y ∷ []) ≡ map f xs ++ f y ∷ []
map-append f [] y = refl
map-append f (x ∷ xs) y = ap (λ l. f x ∷ l) (map-append f xs y)

module _ (env : Env) where
  -- An id that no row has is in no entry.
  fresh_entries :
      (p : Payment) (ps : List PaymentRow)
      → any_row (λ q. q.id == p.id || same_key q.idempotency_key p.idempotency_key) ps ≡ false
      → All (λ e. e.0 ≢ p.id) (map (taken_by env) ps)
  unfolding any_row
  fresh_entries p [] h = tt
  fresh_entries p (q ∷ ps) h =
      (λ same. ground (arith, ==_refl p.id), fresh_entries p ps (ground arith))

  module _ (laws : AmountLaws env) where
    Standing-IsSafe :
        (p : Payment) (audit : List _) (t t' : Tables)
        → FitsScale p.amount
        → pos 0 ≤ℤ units p.amount
        → Standing env p audit t t'
        → IsSafe env t
        → IsSafe env t'
    unfolding ledger payment_args
    Standing-IsSafe p audit t t' fits enough s safe =
        let row : PaymentRow = record (keep_payment env.dialect s.amount (payment_args env p)) {
          created_at = s.created_at;
        } in
        let taken : map (taken_by env) t'.payments
            ≡ map (taken_by env) t.payments ++ (p.id, amount_units env s.amount) ∷ [] =
          rw s.payments (map-append (taken_by env) t.payments row) in
        let value : amount_units env s.amount ≡ units p.amount =
          amount_units-stored env laws p.amount s.amount fits s.cast_to in
        let (keyed, covered, owned) =
          take_payment_lem (ledger env t) p.id (amount_units env s.amount)
            (fresh_entries p t.payments s.fresh) (rw value enough) safe.sound.keyed safe.covered
            safe.owned in
        record {
          sound = record {
            keyed = rw taken keyed;
            payments = rw s.payments (
                All-append _ t.payments (row ∷ []) safe.sound.payments
                  (laws.stored p.amount s.amount fits s.cast_to, tt));
            refunds = rw s.refunds safe.sound.refunds;
          };
          covered = rw (taken, s.refunds) covered;
          owned = rw (taken, s.refunds) owned;
        }

    module _ (req : ProcessPaymentRequest) (correlation_id key : Text) (fits : FitsScale req.amount)
        (enough : pos 0 ≤ℤ units req.amount) where
      Booked-IsSafe :
          (result : PaymentResult) (p : Payment) (t : Tables)
          → Booked env req correlation_id key (IsSafe env) result p t
          → IsSafe env t
      unfolding new_payment
      Booked-IsSafe result p t b =
          let same : p.amount ≡ req.amount = b.recorded.amount in
          Standing-IsSafe p _ b.start t (rw same fits) (rw same enough) b.recorded.standing b.began

      Settled-IsSafe :
          (w : World) (r : Result Payment × World)
          → Post
              (Settled env req correlation_id key (IsSafe env) w.charges)
              (Refused env req correlation_id key (IsSafe env) w.charges)
              r
          → IsSafe env r.1.tables
      Settled-IsSafe w (ok p, v) (inl (same, safe)) = safe
      Settled-IsSafe w (ok p, v) (inr (result, once, inl safe)) = safe
      Settled-IsSafe w (ok p, v) (inr (result, once, inr b)) = Booked-IsSafe result p v.tables b
      Settled-IsSafe w (err e, v) (charged, safe) = safe

      pub process_payment_service-IsSafe :
          (st : Store) (router : Router)
          → Stable env (IsSafe env)
          → (w : World) → IsSafe env w.tables
          → IsSafe env
              (process_payment_service env
                (payments_of st router)
                req
                correlation_id
                key
                w).1.tables
      process_payment_service-IsSafe st router stable w safe =
          Settled-IsSafe w _
            (process_payment_service_lem env req correlation_id key (IsSafe env) st router stable
              (λ n result p t lands b. Booked-IsSafe result p t b) w.charges w refl safe).post
