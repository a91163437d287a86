-- ===== src/Store/Postgres.antt =====
-- store.go: the methods of `Store`.
use shopping_cart_payment.Prelude.{
  suc, Bool, true, false, not, none, some, List, [], ◌++◌, ◌==◌, if◌then◌else◌,
}
use shopping_cart_payment.Text.{Text, bytes, text_eq}
use shopping_cart_payment.Errors.{GoError, Result, ok, err, no_rows, plain, wrapped, error_text}
use shopping_cart_payment.Model.{Payment, Refund, Transaction, Uuid}
use shopping_cart_payment.Schema.{Tables, PaymentRow, RefundRow, same_key}
use shopping_cart_payment.Schema.Statements.{
  insert_payment, update_payment, insert_refund, update_refund, insert_transaction, matching,
  newest_first, first,
}
use shopping_cart_payment.World.{Env, World, Action, pure, lift, ◌>>=◌, ◌>>◌, now, new_uuid}
use shopping_cart_payment.Store.{Store, PaymentStore}
use shopping_cart_payment.Store.Rows.{
  payment_args, payment_update_args, refund_args, transaction_args, scan_payment_row,
  scan_refund_row, scan_rows, scan_first,
}

-- One round trip: outside a transaction other clients may have changed the tables since the last.
abbrev pub travel : Env → Bool → World → World
travel env in_tx w = record w {
  round_trips = suc w.round_trips;
  tables = if in_tx then w.tables else env.others w.round_trips w.tables;
}

abbrev pub settle : {A : Type 0} → Result (A × Tables) → World → Result A × World
settle (ok (a, t)) w = (ok a, record w { tables = t })
settle (err e) w = (err e, w)

-- `db.Exec`, `db.Query` and `db.QueryRow`
unfoldable pub exec : {A : Type 0} → Env → Store → (Tables → Result (A × Tables)) → Action A
exec env st statement w = elim (env.fault w.round_trips) [
  | some e ↦ (err e, travel env st.in_tx w)
  | none ↦ settle (statement (travel env st.in_tx w).tables) (travel env st.in_tx w)
]

-- A statement that only reads.
unfoldable pub query : {A : Type 0} → Env → Store → (Tables → A) → Action A
query env st read = exec env st (λ t. ok (read t, t))

unfoldable pub missing : {A : Type 0} → Env → Result A
missing env = err (no_rows env.no_rows_text)

-- `if tag.RowsAffected() == 0 { return pgx.ErrNoRows }`
unfoldable pub require_affected : Env → Bool → Action (Unit {0})
require_affected env affected = if affected then pure tt else lift (missing env)

module _ (env : Env) (st : Store) where
  -- `if p.ID == uuid.Nil { p.ID = uuid.New() }`
  unfoldable pub or_new_uuid : Uuid → Action Uuid
  or_new_uuid id = if id == 0 then new_uuid env else pure id

  unfoldable pub create_payment : Payment → Action Payment
  create_payment p = do
    id ← or_new_uuid p.id
    time ← now env
    let p' = record p {
      id = id;
      created_at = if p.created_at == 0 then time else p.created_at;
      updated_at = some time;
    }
    exec env st (insert_payment env.dialect (payment_args env p'))
    pure p'

  unfoldable pub update_payment_store : Payment → Action Payment
  update_payment_store p = do
    time ← now env
    let p' = record p { updated_at = some time }
    affected ← exec env st (update_payment env.dialect (payment_update_args env p'))
    require_affected env affected
    pure p'

  -- The SELECT of one payment: the first of the rows that match, newest first.
  unfoldable pub select_payment : (PaymentRow → Bool) → Action Payment
  select_payment where_clause = do
    row ←
        query env st
          (λ t. first (newest_first PaymentRow.created_at (matching where_clause t.payments)))
    lift (scan_first (scan_payment_row env) (missing env) row)

  -- `GetPayment` and `GetPaymentForUpdate`: the lock changes no row.
  unfoldable pub get_payment : Uuid → Action Payment
  get_payment id = select_payment (λ r. r.id == id)

  unfoldable pub get_payment_by_order_id : Text → Action Payment
  get_payment_by_order_id order_id = select_payment (λ r. text_eq r.order_id order_id)

  unfoldable pub get_payment_by_idempotency_key : Text → Action Payment
  get_payment_by_idempotency_key key = select_payment (λ r. same_key r.idempotency_key (some key))

  unfoldable pub get_payments_by_customer : Text → Action (List Payment)
  get_payments_by_customer customer_id = do
    rows ← query env st (λ t.
        newest_first PaymentRow.created_at
          (matching (λ r. text_eq r.customer_id customer_id) t.payments))
    lift (scan_rows (scan_payment_row env) rows)

  unfoldable pub create_refund : Refund → Action Refund
  create_refund r = do
    id ← or_new_uuid r.id
    time ← now env
    let r' = record r { id = id; created_at = if r.created_at == 0 then time else r.created_at }
    exec env st (insert_refund env.dialect (refund_args env r'))
    pure r'

  unfoldable pub update_refund_store : Refund → Action Refund
  update_refund_store r = do
    affected ← exec env st (update_refund env.dialect (refund_args env r))
    require_affected env affected
    pure r

  -- The SELECT of one refund.
  unfoldable pub select_refund : (RefundRow → Bool) → Action Refund
  select_refund where_clause = do
    row ←
        query env st
          (λ t. first (newest_first RefundRow.created_at (matching where_clause t.refunds)))
    lift (scan_first (scan_refund_row env) (missing env) row)

  unfoldable pub get_refund : Uuid → Action Refund
  get_refund id = select_refund (λ r. r.id == id)

  unfoldable pub get_refund_by_correlation_id : Text → Action Refund
  get_refund_by_correlation_id id = select_refund (λ r. same_key r.correlation_id (some id))

  unfoldable pub get_refunds_by_payment : Uuid → Action (List Refund)
  get_refunds_by_payment payment_id = do
    rows ← query env st (λ t.
        newest_first RefundRow.created_at (matching (λ r. r.payment_id == payment_id) t.refunds))
    lift (scan_rows (scan_refund_row env) rows)

  unfoldable pub create_transaction : Transaction → Action Transaction
  create_transaction t = do
    id ← or_new_uuid t.id
    created_at ← if t.created_at == 0 then now env else pure t.created_at
    let t' = record t { id = id; created_at = created_at }
    exec env st (insert_transaction env.dialect (transaction_args env t'))
    pure t'

  -- `Store` as a `paymentStore`.
  abbrev pub postgres : PaymentStore
  postgres = record {
    create_payment = create_payment;
    update_payment = update_payment_store;
    get_payment = get_payment;
    get_payment_for_update = get_payment;
    get_payment_by_order_id = get_payment_by_order_id;
    get_payment_by_idempotency_key = get_payment_by_idempotency_key;
    get_payments_by_customer = get_payments_by_customer;
    create_refund = create_refund;
    update_refund = update_refund_store;
    get_refund = get_refund;
    get_refund_by_correlation_id = get_refund_by_correlation_id;
    get_refunds_by_payment = get_refunds_by_payment;
    create_transaction = create_transaction;
  }

-- A round trip of the pool that runs no statement of the program, `pool.Ping`
unfoldable pub ping_pool : Env → Action (Unit {0})
unfolding exec
ping_pool env = exec env (record { pool = true; in_tx = false }) (λ t. ok (tt, t))

-- `Ping`
unfoldable pub ping : Env → Store → Action (Unit {0})
unfolding ping_pool
ping env st w =
    if not st.pool then (err (plain (bytes "database is not configured")), w) else ping_pool env w

-- `fmt.Errorf("%w (additionally, rollback failed: %v)", err, rbErr)`
abbrev rollback_failed : GoError → GoError → GoError
rollback_failed e failure =
    wrapped [] e (bytes " (additionally, rollback failed: " ++ (error_text failure ++ bytes ")"))

-- The end of `RunInTx`, in the state that `fn` left, when the transaction began with `before`: Commit,
-- whose error does not say whether it took effect, or Rollback.
unfoldable pub finish_tx : {A : Type 0} → Env → Tables → Result A × World → Result A × World
finish_tx env before (ok a, w) = elim (env.fault w.round_trips) [
  | none ↦ (ok a, travel env true w)
  | some e ↦ (
    err e,
    record (travel env true w) {
      tables = if env.commit_lands w.round_trips then w.tables else before;
    },
  )
]
finish_tx env before (err e, w) = elim (env.fault w.round_trips) [
  | none ↦ (err e, record (travel env true w) { tables = before })
  | some failure ↦ (err (rollback_failed e failure), record (travel env true w) { tables = before })
]

-- `RunInTx`. Between Begin and Commit nobody else changes the tables.
unfoldable pub run_in_tx : {A : Type 0} → Env → Store → (PaymentStore → Action A) → Action A
run_in_tx env st fn w =
    if not st.pool
    then (err (plain (bytes "database is not configured")), w)
    else (elim (env.fault w.round_trips) [
      | some e ↦ (err e, travel env false w)
      | none ↦
          finish_tx env (travel env false w).tables
            (fn (postgres env (record st { in_tx = true })) (travel env false w))
    ])
