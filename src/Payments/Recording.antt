-- ===== src/Payments/Recording.antt =====
-- The tables while `persistProcessedPayment` runs in its transaction, and what it leaves: one payment
-- and one row of the audit log more.
use shopping_cart_payment.Prelude.{
  ◌≡◌, refl, ◌∙◌, ap, sym, subst, true, false, some, List, [], ◌∷◌, ◌++◌, map, append-nil, arith,
  ◌==◌, ◌||◌, if◌then◌else◌,
}
use shopping_cart_payment.Text.{Text}
use shopping_cart_payment.Model.{Payment, Transaction, Time}
use shopping_cart_payment.Model.Status.{PaymentStatus}
use shopping_cart_payment.Gateway.Dto.{PaymentResult}
use shopping_cart_payment.Schema.{PaymentRow, TransactionRow, Tables, any_row, same_key}
use shopping_cart_payment.Schema.Statements.{keep_payment, keep_transaction}
use shopping_cart_payment.Schema.Laws.{map-set_payment_fresh}
use shopping_cart_payment.World.{Env, World}
use shopping_cart_payment.World.Hoare.{Ends, Ends-bind, Ends-pure, Ends-if, Ends-weaken}
use shopping_cart_payment.Store.{Store}
use shopping_cart_payment.Store.Rows.{payment_args, payment_update_args, transaction_args}
use shopping_cart_payment.Store.Postgres.{postgres}
use shopping_cart_payment.Store.Specs.{
  Anything, Untouched, now-Untouched, new_uuid-Untouched, create_payment_lem,
  update_payment_store_lem, create_transaction_lem, PaymentCreated, PaymentStored,
  TransactionCreated,
}
use shopping_cart_payment.Payments.{
  completion_time, persist_processed_payment, settle_payment, charge_transaction,
}

module _ (env : Env) where
  -- The payment is stored behind those that there were, and the audit log has these rows more.
  pub record Standing (p : Payment) (audit : List TransactionRow) (t t' : Tables) : Type 0 where
    pub amount : Text
    pub cast_to : env.dialect.numeric (env.decimals.to_string p.amount) ≡ some amount
    pub created_at : Time
    pub fresh :
        any_row (λ q. q.id == p.id || same_key q.idempotency_key p.idempotency_key) t.payments
        ≡ false
    pub payments :
        t'.payments
        ≡ t.payments
          ++ (record (keep_payment env.dialect amount (payment_args env p)) {
            created_at = created_at;
          })
            ∷ []
    pub refunds : t'.refunds ≡ t.refunds
    pub transactions : t'.transactions ≡ t.transactions ++ audit

  created-Standing :
      (p p' : Payment) (t t' : Tables) → PaymentCreated env p p' t t' → Standing p' [] t t'
  unfolding payment_args
  created-Standing p p' t t' c = record {
    amount = c.inserted.amount;
    cast_to = c.inserted.cast_to;
    created_at = env.dialect.timestamp p'.created_at;
    fresh = c.inserted.fresh;
    payments = ap Tables.payments c.inserted.tables;
    refunds = ap Tables.refunds c.inserted.tables;
    transactions = ap Tables.transactions c.inserted.tables ∙ sym (append-nil t.transactions);
  }

  stored-Standing :
      (q p p' : Payment) (audit : List TransactionRow) (t t' t'' : Tables)
      → p.id ≡ q.id
      → p.idempotency_key ≡ q.idempotency_key
      → Standing q audit t t'
      → PaymentStored env p p' t' t''
      → Standing p' audit t t''
  unfolding payment_args payment_update_args
  stored-Standing q p p' audit t t' t'' same_id same_key_of h s =
      let row : PaymentRow =
        keep_payment env.dialect s.updated.amount (payment_update_args env p') in
      let id : p'.id ≡ q.id = ap Payment.id s.same ∙ same_id in
      let key : p'.idempotency_key ≡ q.idempotency_key =
        ap Payment.idempotency_key s.same ∙ same_key_of in
      let fresh : any_row (λ r. r.id == p'.id || same_key r.idempotency_key p'.idempotency_key)
            t.payments
          ≡ false =
        rw (id, key) h.fresh in
      record {
        amount = s.updated.amount;
        cast_to = s.updated.cast_to;
        created_at = h.created_at;
        fresh = fresh;
        payments =
            ap Tables.payments s.updated.tables
            ∙ ap (map _) h.payments
            ∙ map-set_payment_fresh row t.payments _ fresh (sym id);
        refunds = ap Tables.refunds s.updated.tables ∙ h.refunds;
        transactions = ap Tables.transactions s.updated.tables ∙ h.transactions;
      }

  audited-Standing :
      (p : Payment) (r r' : Transaction) (t t' t'' : Tables)
      → Standing p [] t t'
      → (c : TransactionCreated env r r' t' t'')
      → Standing p
          (keep_transaction env.dialect c.inserted.amount (transaction_args env r') ∷ [])
          t
          t''
  audited-Standing p r r' t t' t'' h c =
      let log : List TransactionRow =
        keep_transaction env.dialect c.inserted.amount (transaction_args env r') ∷ [] in
      record {
        amount = h.amount;
        cast_to = h.cast_to;
        created_at = h.created_at;
        fresh = h.fresh;
        payments = ap Tables.payments c.inserted.tables ∙ h.payments;
        refunds = ap Tables.refunds c.inserted.tables ∙ h.refunds;
        transactions =
            ap Tables.transactions c.inserted.tables
            ∙ ap (λ l. l ++ log) (h.transactions ∙ append-nil t.transactions);
      }

  -- What the closure leaves when it succeeds.
  pub record Recorded (payment : Payment) (result : PaymentResult) (p : Payment) (t t' : Tables)
      : Type 0 where
    pub audit : TransactionRow
    pub standing : Standing p (audit ∷ []) t t'
    pub status :
        p.status ≡ (if result.success then PaymentStatus.completed else PaymentStatus.failed)
    pub key : p.idempotency_key ≡ payment.idempotency_key
    pub amount : p.amount ≡ payment.amount
    pub audited : (audit.payment_id ≡ p.id) × (audit.success ≡ result.success)

module _ (result : PaymentResult) (time : Time) (p : Payment) where
  settle_payment-id : (settle_payment result time p).id ≡ p.id
  unfolding settle_payment
  settle_payment-id = ground arith

  settle_payment-key : (settle_payment result time p).idempotency_key ≡ p.idempotency_key
  unfolding settle_payment
  settle_payment-key = ground arith

  settle_payment-amount : (settle_payment result time p).amount ≡ p.amount
  unfolding settle_payment
  settle_payment-amount = ground arith

  settle_payment-status :
      (settle_payment result time p).status
      ≡ (if result.success then PaymentStatus.completed else PaymentStatus.failed)
  unfolding settle_payment
  settle_payment-status = ground arith

module _ (env : Env) (st : Store) (tx : st.in_tx ≡ true) where
  completion_time-Untouched :
      (result : PaymentResult) (time : Time) (w : World)
      → Ends (Untouched w.tables) Anything (completion_time env result time) w
  unfolding completion_time
  completion_time-Untouched result time w =
      Ends-if result.success _ _ w (λ _. now-Untouched env w) (λ _. Ends-pure time w refl)

  pub persist_processed_payment_lem :
      (payment : Payment) (correlation_id : Text) (result : PaymentResult) (time : Time) (w : World)
      → Ends
          (λ p v. Recorded env payment result p w.tables v.tables)
          Anything
          (persist_processed_payment env (postgres env st) payment correlation_id result time)
          w
  unfolding persist_processed_payment charge_transaction transaction_args
  persist_processed_payment_lem payment correlation_id result time w =
      Ends-bind _ _ _ w (create_payment_lem env st tx payment w) λ created v1 c.
        Ends-bind _ _ _ v1 (update_payment_store_lem env st tx _ v1) λ processing v2 s2.
          let h2 =
            stored-Standing env created _ processing [] w.tables v1.tables v2.tables refl refl
              (created-Standing env payment created w.tables v1.tables c) s2 in
          Ends-bind (Untouched v2.tables) _ _ v2 (new_uuid-Untouched env v2) λ id v3 e3.
            Ends-bind _ _ _ v3 (create_transaction_lem env st tx _ v3) λ row v4 c4.
              let audit : TransactionRow =
                keep_transaction env.dialect c4.inserted.amount (transaction_args env row) in
              let h4 =
                audited-Standing env processing _ row w.tables v3.tables v4.tables (rw e3 h2) c4 in
              Ends-bind (Untouched v4.tables) _ _ v4 (completion_time-Untouched result _ v4)
                λ at v5 e5.
                  Ends-weaken _ v5 (update_payment_store_lem env st tx _ v5)
                    (λ p v6 s6. record {
                      audit = audit;
                      standing =
                          stored-Standing env processing _ p _ w.tables v5.tables v6.tables
                            (settle_payment-id result at processing)
                            (settle_payment-key result at processing)
                            (subst (λ t. Standing env processing (audit ∷ []) w.tables t) (sym e5)
                              h4)
                            s6;
                      status =
                          ap Payment.status s6.same ∙ settle_payment-status result at processing;
                      key =
                          ap Payment.idempotency_key s6.same
                          ∙ settle_payment-key result at processing
                          ∙ ap Payment.idempotency_key s2.same
                          ∙ ap Payment.idempotency_key c.same;
                      amount =
                          ap Payment.amount s6.same
                          ∙ settle_payment-amount result at processing
                          ∙ ap Payment.amount s2.same
                          ∙ ap Payment.amount c.same;
                      audited = (
                        ap Transaction.payment_id c4.same
                            ∙ sym (ap Payment.id s6.same ∙ settle_payment-id result at processing),
                        ap Transaction.success c4.same,
                      );
                    })
                    (λ _ _ _. tt)
