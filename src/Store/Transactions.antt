-- ===== src/Store/Transactions.antt =====
-- `RunInTx`, and the reading of rows outside a transaction, seen from the service that calls them.
use shopping_cart_payment.Prelude.{
  ℕ, ◌≡◌, refl, Option, some, none, sym, ◌∙◌, Bool, true, false, Bool-cases, Option-cases, inl, inr,
}
use shopping_cart_payment.Errors.{Result, ok, err}
use shopping_cart_payment.Model.{Refund}
use shopping_cart_payment.Schema.{PaymentRow, RefundRow, Tables}
use shopping_cart_payment.Schema.Statements.{matching, newest_first, first}
use shopping_cart_payment.Store.Rows.{scan_refund_row, scan_first}
use shopping_cart_payment.World.{Env, World, Action}
use shopping_cart_payment.World.Hoare.{Ends, Post, Ends-bind, Ends-lift}
use shopping_cart_payment.Store.{Store, PaymentStore}
use shopping_cart_payment.Store.Postgres.{
  travel, exec, query, missing, select_payment, select_refund, postgres, finish_tx, run_in_tx,
}
use shopping_cart_payment.Store.Specs.{Anything}

-- What other clients of the database do keeps P.
abbrev pub Stable : Env → (Tables → Type 0) → Type 0
Stable env P = (n : ℕ) (t : Tables) → P t → P (env.others n t)

-- Nobody else changes the tables.
abbrev pub Quiet : Env → Type 0
Quiet env = (n : ℕ) (t : Tables) → env.others n t ≡ t

-- A Commit that reports an error has not taken effect.
abbrev pub NeverLands : Env → Type 0
NeverLands env = (n : ℕ) → env.commit_lands n ≡ false

pub never_both : (b : Bool) → b ≡ true → b ≡ false → ⊥
never_both b h k = cc (h, k)

-- The tables have P.
abbrev pub Keeps : {A : Type 0} → (Tables → Type 0) → A → World → Type 0
Keeps P a w = P w.tables

pub Quiet-Stable : (env : Env) (start : Tables) → Quiet env → Stable env (λ t. t ≡ start)
Quiet-Stable env start quiet n t h = quiet n t ∙ h

abbrev pub newest_refund : (RefundRow → Bool) → Tables → Option RefundRow
newest_refund where_clause t =
    first (newest_first RefundRow.created_at (matching where_clause t.refunds))

-- The refund is read from the newest row that satisfies the condition.
pub record IsStored (env : Env) (where_clause : RefundRow → Bool) (r : Refund) (t : Tables)
    : Type 0 where
  pub row : RefundRow
  pub found : newest_refund where_clause t ≡ some row
  pub reads : scan_refund_row env row ≡ ok r

scan_first-IsStored :
    (env : Env) (where_clause : RefundRow → Bool) (t : Tables) (row : Option RefundRow) (r : Refund)
    → row ≡ newest_refund where_clause t
    → scan_first (scan_refund_row env) (missing env) row ≡ ok r
    → IsStored env where_clause r t
unfolding scan_first missing
scan_first-IsStored env where_clause t none r same read = absurd (cc read)
scan_first-IsStored env where_clause t (some row) r same read = record {
  row = row;
  found = sym same;
  reads = read;
}

module _ (env : Env) {P : Tables → Type 0} (stable : Stable env P) where
  pub travel_lem : (in_tx : Bool) (w : World) → P w.tables → P (travel env in_tx w).tables
  travel_lem true w h = h
  travel_lem false w h = stable w.round_trips w.tables h

  module _ (st : Store) where
    pub query-Keeps :
        {A : Type 0} (read : Tables → A) (w : World)
        → P w.tables
        → Ends (Keeps P) (Keeps P) (query env st read) w
    unfolding query exec
    query-Keeps read w h = elim (Option-cases (env.fault w.round_trips)) [
      | inl fine ↦ record { post = rw (query, exec, fine) (travel_lem st.in_tx w h) }
      | inr (e, failed) ↦ record { post = rw (query, exec, failed) (travel_lem st.in_tx w h) }
    ]

    -- What was read is what the tables say then.
    query-reads :
        {A : Type 0} (read : Tables → A) (w : World)
        → P w.tables
        → Ends (λ a v. (a ≡ read v.tables) × P v.tables) (Keeps P) (query env st read) w
    unfolding query exec
    query-reads read w h = elim (Option-cases (env.fault w.round_trips)) [
      | inl fine ↦ record { post = rw (query, exec, fine) (refl, travel_lem st.in_tx w h) }
      | inr (e, failed) ↦ record { post = rw (query, exec, failed) (travel_lem st.in_tx w h) }
    ]

    pub select_payment-Keeps :
        (where_clause : PaymentRow → Bool) (w : World)
        → P w.tables
        → Ends (Keeps P) (Keeps P) (select_payment env st where_clause) w
    unfolding select_payment
    select_payment-Keeps where_clause w h =
        Ends-bind (Keeps P) _ _ w (query-Keeps _ w h) λ row v k. Ends-lift _ v (λ _ _. k) (λ _ _. k)

    pub select_refund-IsStored :
        (where_clause : RefundRow → Bool) (w : World)
        → P w.tables
        → Ends
            (λ r v. P v.tables × IsStored env where_clause r v.tables)
            (Keeps P)
            (select_refund env st where_clause)
            w
    unfolding select_refund
    select_refund-IsStored where_clause w h =
        Ends-bind (λ o v. (o ≡ newest_refund where_clause v.tables) × P v.tables) _ _ w
          (query-reads _ w h)
          λ row v (same, k).
            Ends-lift _ v
              (λ r read. (k, scan_first-IsStored env where_clause v.tables row r same read))
              (λ _ _. k)

    -- E holds of the tables after an error: of those the transaction began with, and of those that a
    -- Commit has left whose acknowledgement was lost.
    module _ {A : Type 0} (Q : A → Tables → Type 0) {E : Tables → Type 0}
        (keep : (t : Tables) → P t → E t)
        (lost : (n : ℕ) (a : A) (t : Tables) → env.commit_lands n ≡ true → Q a t → E t) where
      finish_lem :
          (before : Tables) (r : Result A × World)
          → P before
          → Post (λ a v. Q a v.tables) Anything r
          → Post (λ a v. Q a v.tables) (Keeps E) (finish_tx env before r)
      unfolding finish_tx
      finish_lem before (ok a, w) h q = elim (Option-cases (env.fault w.round_trips)) [
        | inl fine ↦ rw (finish_tx, fine) q
        | inr (e, failed) ↦ elim (Bool-cases (env.commit_lands w.round_trips)) [
          | inl lands ↦ rw (finish_tx, failed, lands) (lost w.round_trips a w.tables lands q)
          | inr gone ↦ rw (finish_tx, failed, gone) (keep before h)
        ]
      ]
      finish_lem before (err e, w) h q = elim (Option-cases (env.fault w.round_trips)) [
        | inl fine ↦ rw (finish_tx, fine) (keep before h)
        | inr (f, failed) ↦ rw (finish_tx, failed) (keep before h)
      ]

      -- The rule for a transaction: `fn` owes nothing on an error.
      pub run_in_tx_lem :
          (fn : PaymentStore → Action A) (w : World)
          → P w.tables
          → ((v : World)
              → P v.tables
              → Ends
                  (λ a x. Q a x.tables)
                  Anything
                  (fn (postgres env (record st { in_tx = true })))
                  v)
          → Ends (λ a v. Q a v.tables) (Keeps E) (run_in_tx env st fn) w
      unfolding run_in_tx
      run_in_tx_lem fn w h body = elim (Bool-cases st.pool) [
        | inl there ↦ elim (Option-cases (env.fault w.round_trips)) [
          | inl fine ↦ record {
            post =
                rw (run_in_tx, there, fine)
                  (finish_lem _ _ (stable w.round_trips w.tables h)
                    (body (travel env false w) (stable w.round_trips w.tables h)).post);
          }
          | inr (e, failed) ↦ record {
            post = rw (run_in_tx, there, failed) (keep _ (stable w.round_trips w.tables h));
          }
        ]
        | inr missing_pool ↦ record { post = rw (run_in_tx, missing_pool) (keep w.tables h) }
      ]
