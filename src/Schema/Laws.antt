-- ===== src/Schema/Laws.antt =====
-- What a statement has done when it succeeds, and how its rows are found again.
use shopping_cart_payment.Prelude.{
  ◌≡◌, ap, Bool, true, false, ◌||◌, some, List, [], ◌∷◌, ◌++◌, map, arith, ◌==◌, ==_refl, All,
  Option-cases, Bool-cases, inl, inr, ltb,
}
use shopping_cart_payment.Text.{Text}
use shopping_cart_payment.Errors.{ok}
use shopping_cart_payment.Model.{Time}
use shopping_cart_payment.Schema.{
  Dialect, PaymentRow, RefundRow, TransactionRow, Tables, payment_widths, any_row, same_key,
}
use shopping_cart_payment.Schema.Statements.{
  keep_payment, keep_refund, keep_transaction, has_payment, has_refund, insert_payment,
  update_payment, insert_refund, update_refund, insert_transaction, set_payment, set_refund,
  matching, insert_newest, newest_first,
}

-- A successful INSERT INTO payments adds one row, with an id and a key that no row had.
pub record PaymentInserted (d : Dialect) (r : PaymentRow) (t t' : Tables) : Type 0 where
  pub amount : Text
  pub cast_to : d.numeric r.amount ≡ some amount
  pub widths : payment_widths r ≡ true
  pub fresh :
      any_row (λ q. q.id == r.id || same_key q.idempotency_key r.idempotency_key) t.payments ≡ false
  pub tables : t' ≡ record t { payments = t.payments ++ keep_payment d amount r ∷ [] }

pub record RefundInserted (d : Dialect) (r : RefundRow) (t t' : Tables) : Type 0 where
  pub amount : Text
  pub cast_to : d.numeric r.amount ≡ some amount
  pub fresh : has_refund r.id t ≡ false
  pub known : has_payment r.payment_id t ≡ true
  pub tables : t' ≡ record t { refunds = t.refunds ++ keep_refund d amount r ∷ [] }

pub record TransactionInserted (d : Dialect) (r : TransactionRow) (t t' : Tables) : Type 0 where
  pub amount : Text
  pub cast_to : d.numeric r.amount ≡ some amount
  pub tables : t' ≡ record t { transactions = t.transactions ++ keep_transaction d amount r ∷ [] }

pub record PaymentUpdated (d : Dialect) (r : PaymentRow) (t t' : Tables) : Type 0 where
  pub amount : Text
  pub cast_to : d.numeric r.amount ≡ some amount
  pub tables : t' ≡ record t { payments = map (set_payment (keep_payment d amount r)) t.payments }

pub record RefundUpdated (d : Dialect) (r : RefundRow) (t t' : Tables) : Type 0 where
  pub amount : Text
  pub cast_to : d.numeric r.amount ≡ some amount
  pub tables : t' ≡ record t { refunds = map (set_refund (keep_refund d amount r)) t.refunds }

module _ (d : Dialect) {u : Unit {0}} where
  pub insert_payment_lem :
      (r : PaymentRow) (t : Tables) {t' : Tables}
      → insert_payment d r t ≡ ok (u, t')
      → PaymentInserted d r t t'
  unfolding insert_payment
  insert_payment_lem r t e = elim (Option-cases (d.numeric r.amount)) [
    | inl bad ↦ ground arith
    | inr (a, good) ↦ record {
      amount = a;
      cast_to = good;
      widths = ground arith;
      fresh = ground arith;
      tables = ground arith;
    }
  ]

  pub insert_refund_lem :
      (r : RefundRow) (t : Tables) {t' : Tables}
      → insert_refund d r t ≡ ok (u, t')
      → RefundInserted d r t t'
  unfolding insert_refund
  insert_refund_lem r t e = elim (Option-cases (d.numeric r.amount)) [
    | inl bad ↦ ground arith
    | inr (a, good) ↦ record {
      amount = a;
      cast_to = good;
      fresh = ground arith;
      known = ground arith;
      tables = ground arith;
    }
  ]

  pub insert_transaction_lem :
      (r : TransactionRow) (t : Tables) {t' : Tables}
      → insert_transaction d r t ≡ ok (u, t')
      → TransactionInserted d r t t'
  unfolding insert_transaction
  insert_transaction_lem r t e = elim (Option-cases (d.numeric r.amount)) [
    | inl bad ↦ ground arith
    | inr (a, good) ↦ record { amount = a; cast_to = good; tables = ground arith }
  ]

module _ (d : Dialect) where
  pub update_payment_lem :
      (r : PaymentRow) (t : Tables) {t' : Tables}
      → update_payment d r t ≡ ok (true, t')
      → PaymentUpdated d r t t'
  unfolding update_payment
  update_payment_lem r t e = elim (Option-cases (d.numeric r.amount)) [
    | inl bad ↦ ground arith
    | inr (a, good) ↦ record { amount = a; cast_to = good; tables = ground arith }
  ]

  pub update_refund_lem :
      (r : RefundRow) (t : Tables) {t' : Tables}
      → update_refund d r t ≡ ok (true, t')
      → RefundUpdated d r t t'
  unfolding update_refund
  update_refund_lem r t e = elim (Option-cases (d.numeric r.amount)) [
    | inl bad ↦ ground arith
    | inr (a, good) ↦ record { amount = a; cast_to = good; tables = ground arith }
  ]

-- An update of the row just added changes that row alone, if no other has its id.
pub map-set_refund_fresh :
    (r : RefundRow) (rs : List RefundRow) (q : RefundRow)
    → any_row (λ s. s.id == r.id) rs ≡ false
    → q.id ≡ r.id
    → map (set_refund r) (rs ++ q ∷ []) ≡ rs ++ (record r { created_at = q.created_at }) ∷ []
unfolding any_row
map-set_refund_fresh r [] q fresh same = ground (arith, ==_refl r.id)
map-set_refund_fresh r (s ∷ rs) q fresh same = elim (Bool-cases (s.id == r.id)) [
  | inl hit ↦ ground arith
  | inr miss ↦ rw miss (ap (λ l. s ∷ l) (map-set_refund_fresh r rs q (ground arith) same))
]

pub map-set_payment_fresh :
    (r : PaymentRow) (rs : List PaymentRow) (q : PaymentRow)
    → any_row (λ s. s.id == r.id || same_key s.idempotency_key r.idempotency_key) rs ≡ false
    → q.id ≡ r.id
    → map (set_payment r) (rs ++ q ∷ []) ≡ rs ++ (record r { created_at = q.created_at }) ∷ []
unfolding any_row
map-set_payment_fresh r [] q fresh same = ground (arith, ==_refl r.id)
map-set_payment_fresh r (s ∷ rs) q fresh same = elim (Bool-cases (s.id == r.id)) [
  | inl hit ↦ ground arith
  | inr miss ↦ rw miss (ap (λ l. s ∷ l) (map-set_payment_fresh r rs q (ground arith) same))
]

-- Selecting and sorting keep what holds of every row.
module _ {ℓ κ} {A : Type ℓ} (P : A → Type κ) where
  pub All-matching : (p : A → Bool) (rs : List A) → All P rs → All P (matching p rs)
  unfolding matching
  All-matching p [] h = tt
  All-matching p (r ∷ rs) h = elim (Bool-cases (p r)) [
    | inl hit ↦ rw hit (h.0, All-matching p rs h.1)
    | inr miss ↦ rw miss (All-matching p rs h.1)
  ]

  pub All-insert_newest :
      (created : A → Time) (r : A) (rs : List A)
      → P r
      → All P rs
      → All P (insert_newest created r rs)
  unfolding insert_newest
  All-insert_newest created r [] p h = (p, tt)
  All-insert_newest created r (q ∷ qs) p h = elim (Bool-cases (ltb (created r) (created q))) [
    | inl later ↦ rw later (h.0, All-insert_newest created r qs p h.1)
    | inr first ↦ rw first (p, h)
  ]

  pub All-newest_first :
      (created : A → Time) (rs : List A) → All P rs → All P (newest_first created rs)
  unfolding newest_first
  All-newest_first created [] h = tt
  All-newest_first created (r ∷ rs) h =
      All-insert_newest created r (newest_first created rs) h.0 (All-newest_first created rs h.1)

-- What is selected meets the condition.
pub matching_holds {ℓ} :
    {A : Type ℓ} (p : A → Bool) (rs : List A) → All (λ r. p r ≡ true) (matching p rs)
unfolding matching
matching_holds p [] = tt
matching_holds p (r ∷ rs) = elim (Bool-cases (p r)) [
  | inl hit ↦ rw hit (hit, matching_holds p rs)
  | inr miss ↦ rw miss (matching_holds p rs)
]
