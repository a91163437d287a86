-- ===== src/Refunds/Safety.antt =====
-- What holds of the tables between any two requests, and that a refund keeps it.
use shopping_cart_payment.Prelude.{
  ◌≡◌, Bool, true, false, [], ◌∷◌, ◌++◌, ℤ, inl, inr, if◌then◌else◌,
}
use shopping_cart_payment.Errors.{Result, ok, err}
use shopping_cart_payment.Decimal.{FitsScale, units}
use shopping_cart_payment.Model.{Uuid, Refund}
use shopping_cart_payment.Model.Status.{is_refunded}
use shopping_cart_payment.Schema.{Tables}
use shopping_cart_payment.Gateway.Router.{Router}
use shopping_cart_payment.World.{Env, World}
use shopping_cart_payment.World.Hoare.{Post}
use shopping_cart_payment.Store.{Store}
use shopping_cart_payment.Store.Numeric.{AmountLaws}
use shopping_cart_payment.Store.Transactions.{Stable, Keeps}
use shopping_cart_payment.Refunds.{RefundOrder, process_refund_service}
use shopping_cart_payment.Refunds.Ledger.{IsSound, IsCovered, RefundStep-IsCovered, ledger, Ledger}
use shopping_cart_payment.Refunds.Owners.{IsOwned, has_entry, give_back-IsOwned}
use shopping_cart_payment.Refunds.Service.{Booked, Outcome, process_refund_service_lem}
use shopping_cart_payment.Refunds.Soundness.{Booked-RefundStep, refunds_of}

-- Payments have ids of their own and amounts that can be read, no payment has given back more than it
-- took, and every completed refund is of a payment that is there.
pub record IsSafe (env : Env) (t : Tables) : Type 0 where
  pub sound : IsSound env t
  pub covered : IsCovered (ledger env t)
  pub owned : IsOwned (ledger env t)

step-IsOwned :
    (l m : Ledger) (id : Uuid) (amount : ℤ) (done : Bool)
    → m.taken ≡ l.taken
    → m.given_back ≡ (if done then l.given_back ++ (id, amount) ∷ [] else l.given_back)
    → has_entry id l.taken ≡ true
    → IsOwned l
    → IsOwned m
step-IsOwned l m id amount true same more known owned =
    rw (same, more) (give_back-IsOwned l id amount known owned)
step-IsOwned l m id amount false same more known owned = rw (same, more) owned

module _ (env : Env) (laws : AmountLaws env) (st : Store) (router : Router) (order : RefundOrder)
    (fits : FitsScale order.amount) where
  Booked-IsSafe :
      (r : Refund) (t : Tables) → Booked env laws order fits st (IsSafe env) r t → IsSafe env t
  unfolding ledger
  Booked-IsSafe r t b =
      let done = b.persisted.refunded in
      record {
        sound = done.sound;
        covered =
            RefundStep-IsCovered (Booked-RefundStep env laws order fits st r t b) b.began.covered;
        owned =
            step-IsOwned (ledger env b.start) (ledger env t) order.payment_id (units order.amount)
              (is_refunded r.status) done.taken done.given_back b.persisted.checked.is_locked.known
              b.began.owned;
      }

  Outcome-IsSafe :
      (r : Result Refund × World)
      → Post (Outcome env laws order fits st (IsSafe env)) (Keeps (IsSafe env)) r
      → IsSafe env r.1.tables
  Outcome-IsSafe (ok r, v) (inl (h, stored)) = h
  Outcome-IsSafe (ok r, v) (inr b) = Booked-IsSafe r v.tables b
  Outcome-IsSafe (err e, v) h = h

  pub process_refund_service-IsSafe :
      Stable env (IsSafe env)
      → (w : World) → IsSafe env w.tables
      → IsSafe env (process_refund_service env (refunds_of st router) order w).1.tables
  process_refund_service-IsSafe stable w safe =
      Outcome-IsSafe _
        (process_refund_service_lem env laws order fits st (IsSafe env) router stable
          (λ t h. h.sound) (λ t h. h) (λ n r t lands b. Booked-IsSafe r t b) w safe).post
