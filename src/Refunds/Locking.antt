-- ===== src/Refunds/Locking.antt =====
-- The part of the refund's transaction that reads: the payment is the only one with its id, and the
-- amount asked for is covered by what has not been given back yet.
use shopping_cart_payment.Prelude.{
  ℕ, ◌≡◌, ◌≢◌, refl, sym, ◌∙◌, ap, Bool, true, false, some, List, [], ◌∷◌, map, ℤ, ◌+ℤ◌, ◌-ℤ◌, ◌≤ℤ◌,
  ◌<ℤ◌, subst, int_laws, arith, ◌==◌, ==_iff, All, All-map, Bool-cases, inl, inr,
}
use shopping_cart_payment.Errors.{ok}
use shopping_cart_payment.Decimal.{Decimal, FitsScale, units, cmp_gt}
use shopping_cart_payment.Model.{Uuid, Payment}
use shopping_cart_payment.Model.Status.{is_refundable}
use shopping_cart_payment.Schema.{PaymentRow, Tables}
use shopping_cart_payment.Schema.Statements.{matching, insert_newest, newest_first, first}
use shopping_cart_payment.Schema.Laws.{All-matching, All-newest_first, matching_holds}
use shopping_cart_payment.World.{Env, World}
use shopping_cart_payment.World.Hoare.{Ends, Ends-bind, Ends-pure, Ends-if, Ends-raise}
use shopping_cart_payment.Store.{Store}
use shopping_cart_payment.Store.Numeric.{IsReadable, AmountLaws}
use shopping_cart_payment.Store.Postgres.{postgres, get_payment}
use shopping_cart_payment.Store.Scans.{scan_payment_row-eq-ok}
use shopping_cart_payment.Store.Specs.{
  Anything, PaymentLoaded, select_payment_lem, get_refunds_by_payment_lem,
}
use shopping_cart_payment.Refunds.{RefundOrder, lock_and_check, require_refundable, total_refunded}
use shopping_cart_payment.Refunds.Ledger.{
  HasAmount, IsKeyed, IsSound, taken_by, amount_units, amount_units_of, total, ledger,
}
use shopping_cart_payment.Refunds.Owners.{has_entry}
use shopping_cart_payment.Refunds.Sums.{total_refunded-eq-total}

absurd_gt : {b : Bool} → b ≡ true → b ≡ false → ⊥
absurd_gt e f = cc

unwrap_ok : {A : Type 0} {a b : A} → ok a ≡ ok b → a ≡ b
unwrap_ok e = cc

ne_of_miss : {a b : ℕ} → a ≡ b → (a == b) ≡ false → ⊥
ne_of_miss e miss = ground arith

unwrap : {A : Type 0} {a b : A} → some a ≡ some b → a ≡ b
unwrap e = cc

All-first {κ} :
    {A : Type 0} (P : A → Type κ) (rs : List A) {r : A} → All P rs → first rs ≡ some r → P r
All-first P [] h e = absurd (cc)
All-first P (q ∷ rs) h e = subst P (unwrap e) h.0

module _ (env : Env) where
  matching_hit :
      (id : Uuid) (p : PaymentRow) (ps : List PaymentRow)
      → (p.id == id) ≡ true
      → matching (λ r. r.id == id) (p ∷ ps) ≡ p ∷ matching (λ r. r.id == id) ps
  unfolding matching
  matching_hit id p ps e = rw e

  matching_miss :
      (id : Uuid) (p : PaymentRow) (ps : List PaymentRow)
      → (p.id == id) ≡ false
      → matching (λ r. r.id == id) (p ∷ ps) ≡ matching (λ r. r.id == id) ps
  unfolding matching
  matching_miss id p ps e = rw e

  matching_none :
      (id : Uuid) (ps : List PaymentRow)
      → All (λ e. e.0 ≢ id) (map (taken_by env) ps)
      → matching (λ r. r.id == id) ps ≡ []
  unfolding matching
  matching_none id [] h = refl
  matching_none id (p ∷ ps) h = elim (Bool-cases (p.id == id)) [
    | inl hit ↦ absurd (h.0 ((==_iff p.id id).0 hit))
    | inr miss ↦ rw miss (matching_none id ps h.1)
  ]

  -- The row that a SELECT by primary key finds has the amount of the only entry with its id.
  found-HasAmount :
      (id : Uuid) (ps : List PaymentRow) {row : PaymentRow}
      → IsKeyed (map (taken_by env) ps)
      → first (newest_first PaymentRow.created_at (matching (λ r. r.id == id) ps)) ≡ some row
      → HasAmount id (amount_units env row.amount) (map (taken_by env) ps)
  unfolding newest_first insert_newest
  found-HasAmount id [] h e = tt
  found-HasAmount id (p ∷ ps) {row} h e = elim (Bool-cases (p.id == id)) [
    | inl hit ↦
        let others : All (λ f. f.0 ≢ id) (map (taken_by env) ps) =
          rw ((==_iff p.id id).0 hit) at h.0 in
        let only : p ≡ row =
          unwrap (rw (matching_hit id p ps hit, matching_none id ps others) at e) in
        (
          λ _. ap (λ (r : PaymentRow). amount_units env r.amount) only,
          All-map _ _ (λ f ne eq. absurd (ne eq)) _ others,
        )
    | inr miss ↦ (
      λ eq. absurd (ne_of_miss eq miss),
      found-HasAmount id ps h.1 (rw (matching_miss id p ps miss) at e),
    )
  ]

  found-has_entry :
      (id : Uuid) (ps : List PaymentRow) {row : PaymentRow}
      → first (newest_first PaymentRow.created_at (matching (λ r. r.id == id) ps)) ≡ some row
      → has_entry id (map (taken_by env) ps) ≡ true
  unfolding newest_first insert_newest has_entry matching
  found-has_entry id [] e = absurd (cc)
  found-has_entry id (p ∷ ps) e = elim (Bool-cases (p.id == id)) [
    | inl hit ↦ rw hit refl
    | inr miss ↦ rw miss (found-has_entry id ps (rw (matching_miss id p ps miss) at e))
  ]

  -- The payment that was locked: exact, and the only one with its id.
  pub record IsLocked (id : Uuid) (t : Tables) (p : Payment) : Type 0 where
    pub same_id : p.id ≡ id
    pub fits : FitsScale p.amount
    pub has : HasAmount p.id (units p.amount) (map (taken_by env) t.payments)
    pub known : has_entry id (map (taken_by env) t.payments) ≡ true

  loaded-IsLocked :
      (id : Uuid) (t : Tables) (p : Payment)
      → IsSound env t
      → PaymentLoaded env (λ r. r.id == id) t p
      → IsLocked id t p
  loaded-IsLocked id t p sound l =
      let (d, method_id, reads, same) = scan_payment_row-eq-ok env l.row l.read in
      let readable =
        All-first (λ r. IsReadable env r.amount) _
          (All-newest_first _ _ _ (All-matching _ _ t.payments sound.payments)) l.found in
      let same_id : l.row.id ≡ id = (==_iff l.row.id id).0 (
        All-first (λ (r : PaymentRow). (r.id == id) ≡ true) _
          (All-newest_first _ _ _ (matching_holds _ t.payments)) l.found) in
      let value : amount_units env l.row.amount ≡ units p.amount =
        amount_units_of env l.row.amount reads ∙ ap units (sym (ap Payment.amount same)) in
      record {
        same_id = ap Payment.id same ∙ same_id;
        fits = rw (ap Payment.amount same, unwrap_ok (sym reads ∙ readable.reads)) readable.fits;
        has =
            rw (ap Payment.id same, same_id, ← value)
              (found-HasAmount id t.payments sound.keyed l.found);
        known = found-has_entry id t.payments l.found;
      }

  module _ (laws : AmountLaws env) (order : RefundOrder) (fits : FitsScale order.amount)
      (st : Store) (tx : st.in_tx ≡ true) where
    -- What the reading part has made sure of when it does not refuse.
    pub record IsChecked (t : Tables) (locked : Payment) : Type 0 where
      pub is_locked : IsLocked order.payment_id t locked
      pub refundable : is_refundable locked.status ≡ true
      pub room :
          total order.payment_id (ledger env t).given_back +ℤ units order.amount
          ≤ℤ units locked.amount

    room_lem :
        (locked sum : Decimal) (given : ℤ)
        → FitsScale locked
        → FitsScale sum
        → units sum ≡ given
        → cmp_gt env.decimals order.amount (env.decimals.sub locked sum) ≡ false
        → given +ℤ units order.amount ≤ℤ units locked
    room_lem locked sum given fine fine_sum e le =
        let rest : Decimal = env.decimals.sub locked sum in
        let gt =
          laws.decimals.gt_iff order.amount rest fits
            (laws.decimals.sub_fits locked sum fine fine_sum) in
        let not_more : ¬ (units rest <ℤ units order.amount) = λ more. absurd_gt (gt.1 more) le in
        let exact : ¬ (units locked -ℤ units sum <ℤ units order.amount) =
          rw (laws.decimals.units_sub locked sum fine fine_sum) at not_more in
        rw (← e) (omega int_laws)

    pub lock_and_check_lem :
        (w : World)
        → IsSound env w.tables
        → Ends
            (λ a v. IsChecked w.tables a.0 × (v.tables ≡ w.tables))
            Anything
            (lock_and_check env (postgres env st) order)
            w
    unfolding lock_and_check get_payment require_refundable ledger
    lock_and_check_lem w sound =
        Ends-bind _ _ _ w (select_payment_lem env st tx _ w) λ locked v (loaded, same).
          let is_locked = loaded-IsLocked order.payment_id w.tables locked sound loaded in
          Ends-bind (λ _ x. (is_refundable locked.status ≡ true) × (x.tables ≡ w.tables)) _ _ v
            (Ends-if (is_refundable locked.status) _ _ v (λ e. Ends-pure tt v (e, same))
              (λ _. Ends-raise _ v tt))
            λ u x (refundable, same').
              Ends-bind _ _ _ x (get_refunds_by_payment_lem env st tx order.payment_id x)
                λ existing y (read, same'').
                  let sum =
                    total_refunded-eq-total env laws.decimals order.payment_id w.tables.refunds
                      sound.refunds (rw same' at read) in
                  Ends-if
                    (cmp_gt env.decimals order.amount (
                      env.decimals.sub locked.amount
                        (total_refunded env.decimals env.decimals.zero existing)))
                    _ _ y (λ _. Ends-raise _ y tt)
                    (λ le. Ends-pure _ y (
                      record {
                        is_locked = is_locked;
                        refundable = refundable;
                        room = room_lem locked.amount _ _ is_locked.fits sum.0 sum.1 le;
                      },
                      same'' ∙ same',
                    ))
