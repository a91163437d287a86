-- ===== src/Httpx/Table.antt =====
-- A Go map with strings for keys, as an association list.
use shopping_cart_payment.Prelude.{
  ◌≡◌, refl, ap, subst, Bool, Option, none, some, List, [], ◌∷◌, arith, Bool-cases, inl, inr,
  if◌then◌else◌,
}
use shopping_cart_payment.Text.{Text, text_eq}
use shopping_cart_payment.Text.Laws.{text_eq_iff, text_eq→eq}

module _ {ℓ} {V : Type ℓ} where
  unfoldable pub find : Text → List (Text × V) → Option V
  find k [] = none
  find k ((j, v) ∷ m) = if text_eq j k then some v else find k m

  unfoldable pub put : Text → V → List (Text × V) → List (Text × V)
  put k v [] = (k, v) ∷ []
  put k v ((j, w) ∷ m) = if text_eq j k then (j, v) ∷ m else (j, w) ∷ put k v m

  -- `delete` for every entry that fails the test
  unfoldable pub keep : (V → Bool) → List (Text × V) → List (Text × V)
  keep p [] = []
  keep p ((k, v) ∷ m) = if p v then (k, v) ∷ keep p m else keep p m

  -- A key stands in one entry at most, as in a map.
  abbrev pub IsMap : List (Text × V) → Type ℓ
  IsMap [] = Unit
  IsMap ((k, v) ∷ m) = (find k m ≡ none) × IsMap m

  pub find-put :
      (k j : Text) (v : V) (m : List (Text × V))
      → find j (put k v m) ≡ (if text_eq k j then some v else find j m)
  unfolding find put
  find-put k j v [] = refl
  find-put k j v ((i, w) ∷ m) =
      ground (arith, text_eq_iff k j, text_eq_iff i k, text_eq_iff i j, find-put k j v m)

  pub put-IsMap : (k : Text) (v : V) (m : List (Text × V)) → IsMap m → IsMap (put k v m)
  unfolding find put
  put-IsMap k v [] h = (refl, tt)
  put-IsMap k v ((i, w) ∷ m) h = elim (Bool-cases (text_eq i k)) [
    | inl hit ↦ rw hit h
    | inr miss ↦
        rw miss
          (ground (arith, find-put k i v m, text_eq_iff k i, text_eq_iff i k), put-IsMap k v m h.1)
  ]

  -- An entry that passes, if there is one with the key.
  abbrev pub if_kept : (V → Bool) → Option V → Option V
  if_kept p none = none
  if_kept p (some v) = if p v then some v else none

  pub find-keep :
      (p : V → Bool) (k : Text) (m : List (Text × V))
      → IsMap m
      → find k (keep p m) ≡ if_kept p (find k m)
  unfolding find keep
  find-keep p k [] h = refl
  find-keep p k ((i, w) ∷ m) h = elim (Bool-cases (text_eq i k)) [
    | inl hit ↦ elim (Bool-cases (p w)) [
      | inl passes ↦ rw passes (rw (hit, passes) refl)
      | inr fails ↦ rw fails (
          rw (hit, fails)
            (rw (find-keep p k m h.1)
              (ap (if_kept p) (subst (λ j. find j m ≡ none) (text_eq→eq i k hit) h.0))))
    ]
    | inr miss ↦ elim (Bool-cases (p w)) [
      | inl passes ↦ rw passes (rw (miss) (find-keep p k m h.1))
      | inr fails ↦ rw fails (rw miss (find-keep p k m h.1))
    ]
  ]

  pub keep-IsMap : (p : V → Bool) (m : List (Text × V)) → IsMap m → IsMap (keep p m)
  unfolding find keep
  keep-IsMap p [] h = tt
  keep-IsMap p ((k, v) ∷ m) h = elim (Bool-cases (p v)) [
    | inl passes ↦ rw passes (rw (find-keep p k m h.1, h.0) refl, keep-IsMap p m h.1)
    | inr fails ↦ rw fails (keep-IsMap p m h.1)
  ]
