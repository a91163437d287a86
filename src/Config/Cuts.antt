-- ===== src/Config/Cuts.antt =====
-- Texts cut at a separator: strings.Cut and strings.Split at one byte, on texts that lack it.
use shopping_cart_payment.Prelude.{
  ◌≡◌, refl, Bool, true, false, not, ◌&&◌, Bool-cases, inl, inr, List, [], ◌∷◌, ◌++◌, ◌==◌, ==_refl,
  All, All-append, ℕ, if◌then◌else◌,
}
use shopping_cart_payment.Text.{Text}

-- strings.Cut at one byte, without whether it was found.
abbrev pub cut : ℕ → Text → Text × Text
cut c [] = ([], [])
cut c (a ∷ t) = if a == c then ([], t) else (let (before, after) = cut c t in (a ∷ before, after))

abbrev pub Lacks : ℕ → Text → Type 0
Lacks c t = All (λ a. (a == c) ≡ false) t

-- A test for it.
abbrev pub lacks : ℕ → Text → Bool
lacks c [] = true
lacks c (a ∷ t) = not (a == c) && lacks c t

pub lacks-Lacks : (c : ℕ) (t : Text) → lacks c t ≡ true → Lacks c t
lacks-Lacks c [] h = tt
lacks-Lacks c (a ∷ t) h = elim (Bool-cases (a == c)) [
  | inl same ↦ absurd (none_lacked (rw same at h))
  | inr other ↦ (other, lacks-Lacks c t (rw other at h))
]
  where
    none_lacked : false ≡ true → ⊥
    none_lacked e = cc e

-- The bytes that end a part of the authority.
abbrev pub LacksSeparators : Text → Type 0
LacksSeparators t = Lacks b':' t × Lacks b'@' t × Lacks b'/' t × Lacks b'?' t × Lacks b'#' t

pub cut-append : (c : ℕ) (a b : Text) → Lacks c a → cut c (a ++ c ∷ b) ≡ (a, b)
cut-append c [] b h = rw (==_refl c) refl
cut-append c (x ∷ a) b h = rw (h.0, cut-append c a b h.1) refl

pub cut-skip : (c : ℕ) (a t : Text) → Lacks c a → cut c (a ++ t) ≡ (a ++ (cut c t).0, (cut c t).1)
cut-skip c [] t h = refl
cut-skip c (x ∷ a) t h = rw (h.0, cut-skip c a t h.1) refl

pub cut-whole : (c : ℕ) (t : Text) → Lacks c t → cut c t ≡ (t, [])
cut-whole c [] h = refl
cut-whole c (x ∷ t) h = rw (h.0, cut-whole c t h.1) refl

-- strings.Split at one byte.
abbrev pub onto_first : ℕ → List Text → List Text
onto_first a [] = (a ∷ []) ∷ []
onto_first a (t ∷ ts) = (a ∷ t) ∷ ts

abbrev pub split : ℕ → Text → List Text
split c [] = [] ∷ []
split c (a ∷ t) = let rest = split c t in if a == c then [] ∷ rest else onto_first a rest

pub split-whole : (c : ℕ) (t : Text) → Lacks c t → split c t ≡ t ∷ []
split-whole c [] h = refl
split-whole c (x ∷ t) h = rw (h.0, split-whole c t h.1) refl

-- The separators of a URI whose parts lack them.
module _ (u p h port : Text) where
  abbrev pub authority : Text
  authority = u ++ (b':' ∷ (p ++ (b'@' ∷ (h ++ (b':' ∷ port)))))

  abbrev pub with_path : Text → Text
  with_path rest = u ++ (b':' ∷ (p ++ (b'@' ∷ (h ++ (b':' ∷ (port ++ (b'/' ∷ rest)))))))

  pub with_path-Lacks :
      (c : ℕ) (rest : Text)
      → (b':' == c) ≡ false
      → (b'@' == c) ≡ false
      → (b'/' == c) ≡ false
      → Lacks c u
      → Lacks c p
      → Lacks c h
      → Lacks c port
      → Lacks c rest
      → Lacks c (with_path rest)
  with_path-Lacks c rest colon sign slash hu hp hh hport hrest = All-append _ u _ hu (
    colon,
    All-append _ p _ hp
        (sign, All-append _ h _ hh (colon, All-append _ port _ hport (slash, hrest))),
  )

  pub cut_at_slash :
      (rest : Text)
      → Lacks b'/' u
      → Lacks b'/' p
      → Lacks b'/' h
      → Lacks b'/' port
      → cut b'/' (with_path rest) ≡ (authority, rest)
  cut_at_slash rest hu hp hh hport =
      rw
        (
          cut-skip b'/' u _ hu,
          cut-skip b'/' p _ hp,
          cut-skip b'/' h _ hh,
          cut-append b'/' port rest hport,
        )
        refl

  pub cut_at_query :
      (name query : Text)
      → Lacks b'?' u
      → Lacks b'?' p
      → Lacks b'?' h
      → Lacks b'?' port
      → Lacks b'?' name
      → cut b'?' (with_path (name ++ (b'?' ∷ query))) ≡ (with_path name, query)
  cut_at_query name query hu hp hh hport hname =
      rw
        (
          cut-skip b'?' u _ hu,
          cut-skip b'?' p _ hp,
          cut-skip b'?' h _ hh,
          cut-skip b'?' port _ hport,
          cut-append b'?' name query hname,
        )
        refl

  pub cut_at_sign :
      Lacks b'@' u → Lacks b'@' p → cut b'@' authority ≡ (u ++ (b':' ∷ p), h ++ (b':' ∷ port))
  cut_at_sign hu hp = rw (cut-skip b'@' u _ hu, cut-append b'@' p _ hp) refl
