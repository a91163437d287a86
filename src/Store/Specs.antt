-- ===== src/Store/Specs.antt =====
-- What each method of `Store` does to the tables inside a transaction.
use shopping_cart_payment.Prelude.{
  ◌≡◌, refl, ap, sym, Bool, true, Option, none, some, Option-cases, inl, inr, ◌==◌,
}
use shopping_cart_payment.Errors.{GoError, Result, ok, err}
use shopping_cart_payment.Model.{Payment, Refund, Transaction, Uuid}
use shopping_cart_payment.Schema.{Tables, PaymentRow, RefundRow}
use shopping_cart_payment.Schema.Statements.{matching, newest_first, first}
use shopping_cart_payment.Schema.Laws.{
  PaymentInserted, insert_payment_lem, PaymentUpdated, update_payment_lem, RefundInserted,
  insert_refund_lem, RefundUpdated, update_refund_lem, TransactionInserted, insert_transaction_lem,
}
use shopping_cart_payment.World.{Env, World, now, new_uuid}
use shopping_cart_payment.World.Hoare.{
  Ends, Post, Ends-bind, Ends-pure, Ends-lift, Ends-if, Ends-weaken,
}
use shopping_cart_payment.Store.{Store}
use shopping_cart_payment.Store.Rows.{
  payment_args, payment_update_args, refund_args, transaction_args, scan_payment_row,
  scan_refund_row, scan_rows, scan_first,
}
use shopping_cart_payment.Store.Postgres.{
  travel, settle, exec, query, missing, or_new_uuid, require_affected, create_payment,
  update_payment_store, create_refund, update_refund_store, create_transaction, select_payment,
  get_refunds_by_payment,
}

-- No promise for an error: inside a transaction it is followed by Rollback.
abbrev pub Anything : GoError → World → Type 0
Anything e w = Unit

-- An action that leaves the tables alone.
abbrev pub Untouched : {A : Type 0} → Tables → A → World → Type 0
Untouched t a w = w.tables ≡ t

module _ (env : Env) where
  pub now-Untouched : (w : World) → Ends (Untouched w.tables) Anything (now env) w
  unfolding now
  now-Untouched w = record { post = refl }

  pub new_uuid-Untouched : (w : World) → Ends (Untouched w.tables) Anything (new_uuid env) w
  unfolding new_uuid
  new_uuid-Untouched w = record { post = refl }

  pub record PaymentCreated (p p' : Payment) (t t' : Tables) : Type 0 where
    pub same : p' ≡ record p { id = p'.id; created_at = p'.created_at; updated_at = p'.updated_at }
    pub inserted : PaymentInserted env.dialect (payment_args env p') t t'

  pub record PaymentStored (p p' : Payment) (t t' : Tables) : Type 0 where
    pub same : p' ≡ record p { updated_at = p'.updated_at }
    pub updated : PaymentUpdated env.dialect (payment_update_args env p') t t'

  pub record RefundCreated (r r' : Refund) (t t' : Tables) : Type 0 where
    pub same : r' ≡ record r { id = r'.id; created_at = r'.created_at }
    pub inserted : RefundInserted env.dialect (refund_args env r') t t'

  pub record RefundStored (r : Refund) (t t' : Tables) : Type 0 where
    pub updated : RefundUpdated env.dialect (refund_args env r) t t'

  pub record TransactionCreated (r r' : Transaction) (t t' : Tables) : Type 0 where
    pub same : r' ≡ record r { id = r'.id; created_at = r'.created_at }
    pub inserted : TransactionInserted env.dialect (transaction_args env r') t t'

  -- A payment read from the first of the rows that a SELECT gave.
  pub record PaymentLoaded (where_clause : PaymentRow → Bool) (t : Tables) (p : Payment)
      : Type 0 where
    pub row : PaymentRow
    pub found :
        first (newest_first PaymentRow.created_at (matching where_clause t.payments)) ≡ some row
    pub read : scan_payment_row env row ≡ ok p

  loaded_row :
      (where_clause : PaymentRow → Bool) (t : Tables) (row : Option PaymentRow) (p : Payment)
      → row ≡ first (newest_first PaymentRow.created_at (matching where_clause t.payments))
      → scan_first (scan_payment_row env) (missing env) row ≡ ok p
      → PaymentLoaded where_clause t p
  unfolding scan_first missing
  loaded_row where_clause t none p e read = absurd (cc)
  loaded_row where_clause t (some r) p e read = record { row = r; found = sym e; read = read }

  found_true :
      {r : Result (Bool × Tables)} {affected : Bool} {x y : World}
      → r ≡ ok (affected, x.tables)
      → affected ≡ true
      → y ≡ x
      → r ≡ ok (true, y.tables)
  found_true f a e = cc

  settle_lem :
      {A : Type 0} (r : Result (A × Tables)) (w : World)
      → Post (λ a v. r ≡ ok (a, v.tables)) Anything (settle r w)
  settle_lem (ok (a, t)) w = refl
  settle_lem (err e) w = tt

  -- A row of the audit log changes no other table.
  pub transaction_alone :
      {r r' : Transaction} {t t' : Tables}
      → TransactionCreated r r' t t'
      → (t'.payments ≡ t.payments) × (t'.refunds ≡ t.refunds)
  transaction_alone c = (ap Tables.payments c.inserted.tables, ap Tables.refunds c.inserted.tables)

  module _ (st : Store) (tx : st.in_tx ≡ true) where
    pub or_new_uuid-Untouched :
        (id : Uuid) (w : World) → Ends (Untouched w.tables) Anything (or_new_uuid env st id) w
    unfolding or_new_uuid
    or_new_uuid-Untouched id w =
        Ends-if (id == 0) _ _ w (λ _. new_uuid-Untouched w) (λ _. Ends-pure id w refl)

    -- A statement that succeeds has turned the tables as it found them into those it left.
    pub exec_lem :
        {A : Type 0} (statement : Tables → Result (A × Tables)) {t : Tables} (w : World)
        → w.tables ≡ t
        → Ends (λ a v. statement t ≡ ok (a, v.tables)) Anything (exec env st statement) w
    unfolding exec
    exec_lem statement w same = rw (← same) (record {
      post = elim (Option-cases (env.fault w.round_trips)) [
        | inl fine ↦ rw (exec, fine, tx) (settle_lem (statement w.tables) (travel env true w))
        | inr (e, failed) ↦ rw (exec, failed) tt
      ];
    })

    pub require_affected_lem :
        (affected : Bool) (w : World)
        → Ends (λ _ v. (affected ≡ true) × (v ≡ w)) Anything (require_affected env affected) w
    unfolding require_affected missing
    require_affected_lem affected w =
        Ends-if affected _ _ w (λ e. Ends-pure tt w (e, refl))
          λ _. Ends-lift _ w (λ a e. cc e) (λ _ _. tt)

    pub create_payment_lem :
        (p : Payment) (w : World)
        → Ends (λ p' v. PaymentCreated p p' w.tables v.tables) Anything (create_payment env st p) w
    unfolding create_payment
    create_payment_lem p w =
        Ends-bind (Untouched w.tables) _ _ w (or_new_uuid-Untouched p.id w) λ id v e.
          Ends-bind (Untouched w.tables) _ _ v (rw (← e) (now-Untouched v)) λ time x f.
            Ends-bind _ _ _ x (exec_lem _ x f) λ u y g.
              Ends-pure _ y
                (record { same = refl; inserted = insert_payment_lem env.dialect _ _ g })

    pub update_payment_store_lem :
        (p : Payment) (w : World)
        → Ends
            (λ p' v. PaymentStored p p' w.tables v.tables)
            Anything
            (update_payment_store env st p)
            w
    unfolding update_payment_store
    update_payment_store_lem p w =
        Ends-bind (Untouched w.tables) _ _ w (now-Untouched w) λ time v e.
          Ends-bind _ _ _ v (exec_lem _ v e) λ affected x f.
            Ends-bind _ _ _ x (require_affected_lem affected x) λ u y (yes_affected, same).
              Ends-pure _ y (record {
                same = refl;
                updated = update_payment_lem env.dialect _ _ (found_true f yes_affected same);
              })

    pub create_refund_lem :
        (r : Refund) (w : World)
        → Ends (λ r' v. RefundCreated r r' w.tables v.tables) Anything (create_refund env st r) w
    unfolding create_refund
    create_refund_lem r w =
        Ends-bind (Untouched w.tables) _ _ w (or_new_uuid-Untouched r.id w) λ id v e.
          Ends-bind (Untouched w.tables) _ _ v (rw (← e) (now-Untouched v)) λ time x f.
            Ends-bind _ _ _ x (exec_lem _ x f) λ u y g.
              Ends-pure _ y (record { same = refl; inserted = insert_refund_lem env.dialect _ _ g })

    pub update_refund_store_lem :
        (r : Refund) (w : World)
        → Ends
            (λ r' v. (r' ≡ r) × RefundStored r w.tables v.tables)
            Anything
            (update_refund_store env st r)
            w
    unfolding update_refund_store
    update_refund_store_lem r w = Ends-bind _ _ _ w (exec_lem _ w refl) λ affected x f.
        Ends-bind _ _ _ x (require_affected_lem affected x) λ u y (yes_affected, same).
          Ends-pure _ y (
            refl,
            record { updated = update_refund_lem env.dialect _ _ (found_true f yes_affected same) },
          )

    pub create_transaction_lem :
        (r : Transaction) (w : World)
        → Ends
            (λ r' v. TransactionCreated r r' w.tables v.tables)
            Anything
            (create_transaction env st r)
            w
    unfolding create_transaction
    create_transaction_lem r w =
        Ends-bind (Untouched w.tables) _ _ w (or_new_uuid-Untouched r.id w) λ id v e.
          Ends-bind (Untouched w.tables) _ _ v
            (Ends-if (r.created_at == 0) _ _ v (λ _. rw (← e) (now-Untouched v))
              (λ _. Ends-pure _ v e))
            λ time x f. Ends-bind _ _ _ x (exec_lem _ x f) λ u y g.
              Ends-pure _ y
                (record { same = refl; inserted = insert_transaction_lem env.dialect _ _ g })

    -- A SELECT reads the tables and leaves them alone.
    pub query_lem :
        {A : Type 0} (read : Tables → A) (w : World)
        → Ends (λ a v. (a ≡ read w.tables) × (v.tables ≡ w.tables)) Anything (query env st read) w
    unfolding query
    query_lem read w =
        Ends-weaken _ w (exec_lem (λ t. ok (read t, t)) w refl) (λ a v e. (cc, cc)) (λ _ _ _. tt)

    -- The row that a SELECT of one payment has read.
    pub select_payment_lem :
        (where_clause : PaymentRow → Bool) (w : World)
        → Ends
            (λ p v. PaymentLoaded where_clause w.tables p × (v.tables ≡ w.tables))
            Anything
            (select_payment env st where_clause)
            w
    unfolding select_payment
    select_payment_lem where_clause w = Ends-bind _ _ _ w (query_lem _ w) λ row v (read, same).
        Ends-lift _ v (λ p e. (loaded_row where_clause w.tables row p read e, same)) (λ _ _. tt)

    pub get_refunds_by_payment_lem :
        (id : Uuid) (w : World)
        → Ends
            (λ rs v.
              (scan_rows (scan_refund_row env) (
                  newest_first RefundRow.created_at
                    (matching (λ r. r.payment_id == id) w.tables.refunds))
                ≡ ok rs)
              × (v.tables ≡ w.tables))
            Anything
            (get_refunds_by_payment env st id)
            w
    unfolding get_refunds_by_payment
    get_refunds_by_payment_lem id w =
        Ends-bind _ _ _ w (query_lem _ w)
          λ rows v (read, same). Ends-lift _ v (λ rs e. (rw read at e, same)) (λ _ _. tt)
