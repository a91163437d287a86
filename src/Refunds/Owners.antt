-- ===== src/Refunds/Owners.antt =====
-- Every completed refund belongs to a payment that is there; a payment that is added is covered then.
use shopping_cart_payment.Prelude.{
  ◌≡◌, ◌≢◌, refl, sym, ap, ◌∙◌, Bool, true, false, ◌||◌, [], ◌∷◌, ◌++◌, ℤ, pos, ◌≤ℤ◌, ◌==◌, ==_iff,
  All, All-append, All-map, Bool-cases, inl, inr,
}
use shopping_cart_payment.Model.{Uuid}
use shopping_cart_payment.Refunds.Ledger.{Entries, Ledger, IsKeyed, IsCovered, total}

unfoldable pub has_entry : Uuid → Entries → Bool
has_entry id [] = false
has_entry id ((i, u) ∷ es) = (i == id) || has_entry id es

-- What was given back belongs to payments that were taken.
abbrev pub IsOwned : Ledger → Type 0
IsOwned l = All (λ e. has_entry e.0 l.taken ≡ true) l.given_back

pub has_entry-append :
    (id : Uuid) (es fs : Entries) → has_entry id es ≡ true → has_entry id (es ++ fs) ≡ true
unfolding has_entry
has_entry-append id [] fs h = absurd (cc h)
has_entry-append id ((i, u) ∷ es) fs h = elim (Bool-cases (i == id)) [
  | inl hit ↦ rw hit refl
  | inr miss ↦ rw miss (has_entry-append id es fs (rw miss at h))
]

has_entry_fresh : (id : Uuid) (es : Entries) → All (λ f. f.0 ≢ id) es → has_entry id es ≡ false
unfolding has_entry
has_entry_fresh id [] h = refl
has_entry_fresh id ((i, u) ∷ es) h = elim (Bool-cases (i == id)) [
  | inl hit ↦ absurd (h.0 ((==_iff i id).0 hit))
  | inr miss ↦ rw miss (has_entry_fresh id es h.1)
]

-- Nothing was given back for a payment that is not there.
total_fresh :
    (id : Uuid) (es gs : Entries)
    → All (λ f. f.0 ≢ id) es
    → All (λ e. has_entry e.0 es ≡ true) gs
    → total id gs ≡ pos 0
unfolding total
total_fresh id es [] fresh owned = refl
total_fresh id es ((i, u) ∷ gs) fresh owned = elim (Bool-cases (i == id)) [
  | inl hit ↦ absurd (
      both (ap (λ j. has_entry j es) (sym ((==_iff i id).0 hit)) ∙ owned.0)
        (has_entry_fresh id es fresh))
  | inr miss ↦ rw miss (total_fresh id es gs fresh owned.1)
]
  where
    both : {b : Bool} → b ≡ true → b ≡ false → ⊥
    both e f = cc

IsKeyed-append :
    (es : Entries) (e : Uuid × ℤ) → IsKeyed es → All (λ f. f.0 ≢ e.0) es → IsKeyed (es ++ e ∷ [])
IsKeyed-append [] e h fresh = (tt, tt)
IsKeyed-append (f ∷ es) e h fresh =
    (All-append _ es (e ∷ []) h.0 (λ same. fresh.0 (sym same), tt), IsKeyed-append es e h.1 fresh.1)

-- One more payment, with an id that none had and an amount that is not negative.
pub take_payment_lem :
    (l : Ledger) (id : Uuid) (u : ℤ)
    → All (λ f. f.0 ≢ id) l.taken
    → pos 0 ≤ℤ u
    → IsKeyed l.taken
    → IsCovered l
    → IsOwned l
    → let m = record l { taken = l.taken ++ (id, u) ∷ [] } in
      IsKeyed m.taken × IsCovered m × IsOwned m
take_payment_lem l id u fresh enough keyed covered owned = (
  IsKeyed-append l.taken (id, u) keyed fresh,
  All-append _ l.taken ((id, u) ∷ []) covered
      (rw (total_fresh id l.taken l.given_back fresh owned) enough, tt),
  All-map _ _ (λ e h. has_entry-append e.0 l.taken ((id, u) ∷ []) h) l.given_back owned,
)

-- One more refund of a payment that is there.
pub give_back-IsOwned :
    (l : Ledger) (id : Uuid) (u : ℤ)
    → has_entry id l.taken ≡ true
    → IsOwned l
    → IsOwned (record l { given_back = l.given_back ++ (id, u) ∷ [] })
give_back-IsOwned l id u known owned = All-append _ l.given_back ((id, u) ∷ []) owned (known, tt)
