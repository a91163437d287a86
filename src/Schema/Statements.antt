-- ===== src/Schema/Statements.antt =====
-- The INSERT, UPDATE and SELECT statements of go/internal/payment/store.go on the tables.
use mathlib.Core.Option
use shopping_cart_payment.Prelude.{
  Bool, true, false, not, Option, none, some, List, [], ◌∷◌, ◌++◌, ◌&&◌, ◌||◌, ltb, ◌==◌, map,
  if◌then◌else◌,
}
use shopping_cart_payment.Text.{Text, bytes}
use shopping_cart_payment.Errors.{Result, ok}
use shopping_cart_payment.Model.{Uuid, Time}
use shopping_cart_payment.Schema.{
  Dialect, PaymentRow, RefundRow, TransactionRow, Tables, payment_widths, refund_widths,
  transaction_widths, any_row, same_key, violation,
}

-- The columns as they are kept, with the amount that the cast gave.
abbrev pub keep_payment : Dialect → Text → PaymentRow → PaymentRow
keep_payment d amount r = record r {
  amount = amount;
  created_at = d.timestamp r.created_at;
  processed_at = Option.map d.timestamp r.processed_at;
  completed_at = Option.map d.timestamp r.completed_at;
  updated_at = Option.map d.timestamp r.updated_at;
}

abbrev pub keep_refund : Dialect → Text → RefundRow → RefundRow
keep_refund d amount r = record r {
  amount = amount;
  created_at = d.timestamp r.created_at;
  processed_at = Option.map d.timestamp r.processed_at;
  completed_at = Option.map d.timestamp r.completed_at;
}

abbrev pub keep_transaction : Dialect → Text → TransactionRow → TransactionRow
keep_transaction d amount r = record r { amount = amount; created_at = d.timestamp r.created_at }

abbrev pub has_payment : Uuid → Tables → Bool
has_payment id t = any_row (λ q. q.id == id) t.payments

abbrev pub has_refund : Uuid → Tables → Bool
has_refund id t = any_row (λ q. q.id == id) t.refunds

abbrev has_transaction : Uuid → Tables → Bool
has_transaction id t = any_row (λ q. q.id == id) t.transactions

abbrev has_refund? : Option Uuid → Tables → Bool
has_refund? none t = true
has_refund? (some id) t = has_refund id t

abbrev cast : {A : Type 0} → Dialect → Text → (Text → Result A) → Result A
cast d amount k = elim (d.numeric amount) [ none ↦ violation d (bytes "22003") | some a ↦ k a ]

-- INSERT INTO payments: primary key, and the unique index on idempotency keys that are not null.
unfoldable pub insert_payment : Dialect → PaymentRow → Tables → Result (Unit {0} × Tables)
insert_payment d r t = cast d r.amount λ a.
    if not (payment_widths r)
    then violation d (bytes "22001")
    else if any_row (λ q. q.id == r.id || same_key q.idempotency_key r.idempotency_key) t.payments
    then violation d (bytes "23505")
    else ok (tt, record t { payments = t.payments ++ keep_payment d a r ∷ [] })

abbrev pub set_payment : PaymentRow → PaymentRow → PaymentRow
set_payment r q = if q.id == r.id then record r { created_at = q.created_at } else q

-- UPDATE payments: every column but created_at; whether a row was affected.
unfoldable pub update_payment : Dialect → PaymentRow → Tables → Result (Bool × Tables)
update_payment d r t =
    if not (has_payment r.id t)
    then ok (false, t)
    else (cast d r.amount λ a.
        if not (payment_widths r)
        then violation d (bytes "22001")
        else if any_row (λ q. not (q.id == r.id) && same_key q.idempotency_key r.idempotency_key)
            t.payments
        then violation d (bytes "23505")
        else ok (true, record t { payments = map (set_payment (keep_payment d a r)) t.payments }))

-- INSERT INTO refunds: primary key, and the reference to the payment.
unfoldable pub insert_refund : Dialect → RefundRow → Tables → Result (Unit {0} × Tables)
insert_refund d r t = cast d r.amount λ a.
    if not (refund_widths r)
    then violation d (bytes "22001")
    else if has_refund r.id t
    then violation d (bytes "23505")
    else if not (has_payment r.payment_id t)
    then violation d (bytes "23503")
    else ok (tt, record t { refunds = t.refunds ++ keep_refund d a r ∷ [] })

abbrev pub set_refund : RefundRow → RefundRow → RefundRow
set_refund r q = if q.id == r.id then record r { created_at = q.created_at } else q

unfoldable pub update_refund : Dialect → RefundRow → Tables → Result (Bool × Tables)
update_refund d r t =
    if not (has_refund r.id t)
    then ok (false, t)
    else (cast d r.amount λ a.
        if not (refund_widths r)
        then violation d (bytes "22001")
        else if not (has_payment r.payment_id t)
        then violation d (bytes "23503")
        else ok (true, record t { refunds = map (set_refund (keep_refund d a r)) t.refunds }))

-- INSERT INTO transactions: primary key, and the references to the payment and the refund.
unfoldable pub insert_transaction : Dialect → TransactionRow → Tables → Result (Unit {0} × Tables)
insert_transaction d r t = cast d r.amount λ a.
    if not (transaction_widths r)
    then violation d (bytes "22001")
    else if has_transaction r.id t
    then violation d (bytes "23505")
    else if not (has_payment r.payment_id t && has_refund? r.refund_id t)
    then violation d (bytes "23503")
    else ok (tt, record t { transactions = t.transactions ++ keep_transaction d a r ∷ [] })

-- WHERE
unfoldable pub matching {ℓ} : {A : Type ℓ} → (A → Bool) → List A → List A
matching p [] = []
matching p (r ∷ rs) = if p r then r ∷ matching p rs else matching p rs

-- ORDER BY created_at DESC; SQL leaves the order of equal times open, here they keep the table's.
module _ {ℓ} {A : Type ℓ} (created : A → Time) where
  unfoldable pub insert_newest : A → List A → List A
  insert_newest r [] = r ∷ []
  insert_newest r (q ∷ qs) =
      if ltb (created r) (created q) then q ∷ insert_newest r qs else r ∷ q ∷ qs

  unfoldable pub newest_first : List A → List A
  unfolding insert_newest
  newest_first [] = []
  newest_first (r ∷ rs) = insert_newest r (newest_first rs)

-- LIMIT 1, or the row that a primary key selects
abbrev pub first {ℓ} : {A : Type ℓ} → List A → Option A
first [] = none
first (r ∷ _) = some r
