-- ===== src/Refunds/Pending.antt =====
-- The tables while a refund is under way in its transaction: those at the start, and one refund
-- more at the end.
use shopping_cart_payment.Prelude.{
  ◌≡◌, refl, sym, ◌∙◌, ap, Bool, true, false, some, List, [], ◌∷◌, ◌++◌, map, ℤ, ◌==◌, ==_iff, All,
  All-append, append-nil, Bool-cases, inl, inr, if◌then◌else◌,
}
use shopping_cart_payment.Text.{Text}
use shopping_cart_payment.Decimal.{FitsScale, units}
use shopping_cart_payment.Model.{Uuid, Payment, Refund, Time}
use shopping_cart_payment.Model.Status.{refund_status_of, refund_status_text, is_refunded}
use shopping_cart_payment.Schema.{PaymentRow, RefundRow, Tables, any_row}
use shopping_cart_payment.Schema.Statements.{set_payment, set_refund, keep_payment, keep_refund}
use shopping_cart_payment.Schema.Laws.{map-set_refund_fresh}
use shopping_cart_payment.World.{Env}
use shopping_cart_payment.Store.Numeric.{IsReadable, AmountLaws}
use shopping_cart_payment.Store.Rows.{payment_args, payment_update_args, refund_args}
use shopping_cart_payment.Store.Specs.{RefundCreated, PaymentStored, RefundStored}
use shopping_cart_payment.Refunds.{RefundOrder}
use shopping_cart_payment.Refunds.Ledger.{
  Entries, HasAmount, amount_units, amount_units-stored, taken_by, IsSound, ledger, settled,
  settled-append,
}

same_entries :
    {i j : Uuid} {u v : ℤ} {es fs : Entries}
    → i ≡ j
    → u ≡ v
    → es ≡ fs
    → ◌≡◌ {A = Entries} ((i, u) ∷ es) ((j, v) ∷ fs)
same_entries p q r = λ k. (p k, q k) ∷ r k

-- An UPDATE of a payment that keeps its amount changes no entry of the view.
module _ (env : Env) (r : PaymentRow) where
  map-set_payment :
      (ps : List PaymentRow)
      → HasAmount r.id (amount_units env r.amount) (map (taken_by env) ps)
      → map (taken_by env) (map (set_payment r) ps) ≡ map (taken_by env) ps
  map-set_payment [] has = refl
  map-set_payment (p ∷ ps) has = elim (Bool-cases (p.id == r.id)) [
    | inl hit ↦ rw hit (
        same_entries (sym ((==_iff p.id r.id).0 hit)) (sym (has.0 ((==_iff p.id r.id).0 hit)))
          (map-set_payment ps has.1))
    | inr miss ↦ rw miss (ap (λ l. taken_by env p ∷ l) (map-set_payment ps has.1))
  ]

  All-set_payment :
      (ps : List PaymentRow)
      → IsReadable env r.amount
      → All (λ p. IsReadable env p.amount) ps
      → All (λ p. IsReadable env p.amount) (map (set_payment r) ps)
  All-set_payment [] read h = tt
  All-set_payment (p ∷ ps) read h = elim (Bool-cases (p.id == r.id)) [
    | inl hit ↦ rw hit (read, All-set_payment ps read h.1)
    | inr miss ↦ rw miss (h.0, All-set_payment ps read h.1)
  ]

module _ (env : Env) (laws : AmountLaws env) (order : RefundOrder) (fits : FitsScale order.amount)
    (start : Tables) where
  -- A row that holds a refund of the order.
  pub record RowOf (row : RefundRow) (id : Uuid) (done : Bool) : Type 0 where
    pub row_id : row.id ≡ id
    pub row_payment : row.payment_id ≡ order.payment_id
    pub row_status : is_refunded (refund_status_of row.status) ≡ done
    pub row_readable : IsReadable env row.amount
    pub row_units : amount_units env row.amount ≡ units order.amount

  pub record Pending (id : Uuid) (done : Bool) (t : Tables) : Type 0 where
    pub row : RefundRow
    pub row_of : RowOf row id done
    pub fresh : any_row (λ q. q.id == id) start.refunds ≡ false
    pub taken : map (taken_by env) t.payments ≡ map (taken_by env) start.payments
    pub payments : All (λ p. IsReadable env p.amount) t.payments
    pub refunds : t.refunds ≡ start.refunds ++ row ∷ []

  -- A refund of the order, whose status is one of the constants.
  pub record IsOf (r : Refund) : Type 0 where
    pub to_payment : r.payment_id ≡ order.payment_id
    pub of_amount : r.amount ≡ order.amount
    pub constant : refund_status_of (refund_status_text r.status) ≡ r.status

  -- The row that a statement with the arguments of such a refund leaves.
  RowOf-args :
      (r : Refund) (a : Text) (created : Time)
      → IsOf r
      → env.dialect.numeric (env.decimals.to_string r.amount) ≡ some a
      → RowOf
          (record (keep_refund env.dialect a (refund_args env r)) { created_at = created })
          r.id
          (is_refunded r.status)
  unfolding refund_args
  RowOf-args r a created o cast =
      let exact : env.dialect.numeric (env.decimals.to_string order.amount) ≡ some a =
        cc o.of_amount in
      record {
        row_id = refl;
        row_payment = o.to_payment;
        row_status = ap is_refunded o.constant;
        row_readable = laws.stored order.amount a fits exact;
        row_units = amount_units-stored env laws order.amount a fits exact;
      }

  pub create-Pending :
      (r r' : Refund) (t : Tables)
      → IsSound env start
      → IsOf r'
      → RefundCreated env r r' start t
      → Pending r'.id (is_refunded r'.status) t
  unfolding refund_args
  create-Pending r r' t sound o c = record {
    row = keep_refund env.dialect c.inserted.amount (refund_args env r');
    row_of = RowOf-args r' c.inserted.amount _ o c.inserted.cast_to;
    fresh = c.inserted.fresh;
    taken = ap (λ (x : Tables). map (taken_by env) x.payments) c.inserted.tables;
    payments = rw c.inserted.tables sound.payments;
    refunds = ap Tables.refunds c.inserted.tables;
  }

  pub update_payment-Pending :
      (p p' : Payment) (id : Uuid) (done : Bool) (t t' : Tables)
      → FitsScale p.amount
      → HasAmount p.id (units p.amount) (map (taken_by env) start.payments)
      → PaymentStored env p p' t t'
      → Pending id done t
      → Pending id done t'
  unfolding payment_args payment_update_args
  update_payment-Pending p p' id done t t' fine has s h =
      let row : PaymentRow =
        keep_payment env.dialect s.updated.amount (payment_update_args env p') in
      let cast : env.dialect.numeric (env.decimals.to_string p.amount) ≡ some s.updated.amount =
        cc (ap Payment.amount s.same, s.updated.cast_to) in
      let same_units : amount_units env s.updated.amount ≡ units p.amount =
        amount_units-stored env laws p.amount s.updated.amount fine cast in
      let kept : HasAmount row.id (amount_units env row.amount) (map (taken_by env) t.payments) =
        rw (h.taken, same_units, ap Payment.id s.same) has in
      record {
        row = h.row;
        row_of = h.row_of;
        fresh = h.fresh;
        taken =
            ap (λ (x : Tables). map (taken_by env) x.payments) s.updated.tables
            ∙ map-set_payment env row t.payments kept
            ∙ h.taken;
        payments = rw s.updated.tables (
            All-set_payment env row t.payments (laws.stored p.amount s.updated.amount fine cast)
              h.payments);
        refunds = ap Tables.refunds s.updated.tables ∙ h.refunds;
      }

  pub update_refund-Pending :
      (r : Refund) (done : Bool) (t t' : Tables)
      → IsOf r
      → RefundStored env r t t'
      → Pending r.id done t
      → Pending r.id (is_refunded r.status) t'
  unfolding refund_args
  update_refund-Pending r done t t' o s h =
      let row : RefundRow = keep_refund env.dialect s.updated.amount (refund_args env r) in
      record {
        row = record row { created_at = h.row.created_at };
        row_of = RowOf-args r s.updated.amount h.row.created_at o s.updated.cast_to;
        fresh = h.fresh;
        taken = ap (λ (x : Tables). map (taken_by env) x.payments) s.updated.tables ∙ h.taken;
        payments = rw s.updated.tables h.payments;
        refunds =
            ap Tables.refunds s.updated.tables
            ∙ ap (map (set_refund row)) h.refunds
            ∙ map-set_refund_fresh row start.refunds h.row h.fresh h.row_of.row_id;
      }

  pub same_tables-Pending :
      {id : Uuid} {done : Bool} (t t' : Tables)
      → t'.payments ≡ t.payments
      → t'.refunds ≡ t.refunds
      → Pending id done t
      → Pending id done t'
  same_tables-Pending t t' p r h = record {
    row = h.row;
    row_of = h.row_of;
    fresh = h.fresh;
    taken = ap (map (taken_by env)) p ∙ h.taken;
    payments = rw p h.payments;
    refunds = r ∙ h.refunds;
  }

  -- What the transaction has done when it commits.
  pub record Refunded (r : Refund) (t : Tables) : Type 0 where
    pub row : RefundRow
    pub row_of : RowOf row r.id (is_refunded r.status)
    pub refunds : t.refunds ≡ start.refunds ++ row ∷ []
    pub sound : IsSound env t
    pub taken : (ledger env t).taken ≡ (ledger env start).taken
    pub given_back : (ledger env t).given_back ≡ (
        if is_refunded r.status
        then (ledger env start).given_back ++ (order.payment_id, units order.amount) ∷ []
        else (ledger env start).given_back)

  settled_row :
      (row : RefundRow) {id : Uuid} (done : Bool)
      → RowOf row id done
      → settled env (row ∷ []) ≡ (if done then (order.payment_id, units order.amount) ∷ [] else [])
  unfolding settled
  settled_row row true h = rw h.row_status (same_entries h.row_payment h.row_units refl)
  settled_row row false h = rw h.row_status

  append_if :
      (done : Bool) (es : Entries) (e : Uuid × ℤ)
      → es ++ (if done then e ∷ [] else []) ≡ (if done then es ++ e ∷ [] else es)
  append_if true es e = refl
  append_if false es e = append-nil es

  pub Pending-Refunded :
      (r : Refund) (t : Tables)
      → IsSound env start
      → Pending r.id (is_refunded r.status) t
      → Refunded r t
  unfolding ledger
  Pending-Refunded r t sound h = record {
    row = h.row;
    row_of = h.row_of;
    refunds = h.refunds;
    sound = record {
      keyed = rw h.taken sound.keyed;
      payments = h.payments;
      refunds = rw h.refunds (
          All-append (λ q. IsReadable env q.amount) start.refunds (h.row ∷ []) sound.refunds
            (h.row_of.row_readable, tt));
    };
    taken = h.taken;
    given_back =
        ap (settled env) h.refunds
        ∙ settled-append env start.refunds (h.row ∷ [])
        ∙ ap (λ es. settled env start.refunds ++ es)
            (settled_row h.row (is_refunded r.status) h.row_of)
        ∙ append_if (is_refunded r.status) (settled env start.refunds)
            (order.payment_id, units order.amount);
  }
