-- ===== src/World/Hoare.antt =====
-- Pre- and postconditions of actions. The postcondition speaks of the result and the final state,
-- on a return and on an error.
use shopping_cart_payment.Prelude.{Bool, true, false, ◌≡◌, refl, ap, if◌then◌else◌}
use shopping_cart_payment.Errors.{GoError, Result, ok, err}
use shopping_cart_payment.World.{World, Action, pure, raise, lift, try, ◌>>=◌}

abbrev pub Post :
    {A : Type 0} → (A → World → Type 0) → (GoError → World → Type 0) → Result A × World → Type 0
Post Q E (ok a, w) = Q a w
Post Q E (err e, w) = E e w

-- The triple of an action at one initial state; a record, so that its action is not computed.
pub record Ends {A : Type 0} (Q : A → World → Type 0) (E : GoError → World → Type 0) (m : Action A)
    (w : World) : Type 0 where
  pub post : Post Q E (m w)

module _ {A B : Type 0} (Q : A → World → Type 0) {R : B → World → Type 0}
    {E : GoError → World → Type 0} where
  from_result :
      (f : A → Action B) (r : Result A × World)
      → Post Q E r
      → ((a : A) (v : World) → Q a v → Ends R E (f a) v)
      → Post R E (let (r', v) = r in elim r' [ ok a ↦ f a v | err e ↦ (err e, v) ])
  from_result f (ok a, v) p k = (k a v p).post
  from_result f (err e, v) p k = p

  -- The rule for a sequence.
  pub Ends-bind :
      (m : Action A) (f : A → Action B) (w : World)
      → Ends Q E m w
      → ((a : A) (v : World) → Q a v → Ends R E (f a) v)
      → Ends R E (m >>= f) w
  unfolding ◌>>=◌
  Ends-bind m f w h k = record { post = from_result f (m w) h.post k }

module _ {A : Type 0} {Q : A → World → Type 0} {E : GoError → World → Type 0} where
  pub Ends-pure : (a : A) (w : World) → Q a w → Ends Q E (pure a) w
  unfolding pure
  Ends-pure a w h = record { post = h }

  pub Ends-raise : (e : GoError) (w : World) → E e w → Ends Q E (raise {A = A} e) w
  unfolding raise
  Ends-raise e w h = record { post = h }

  pub Ends-lift :
      (r : Result A) (w : World)
      → ((a : A) → r ≡ ok a → Q a w)
      → ((e : GoError) → r ≡ err e → E e w)
      → Ends Q E (lift r) w
  unfolding lift
  Ends-lift (ok a) w h k = record { post = h a refl }
  Ends-lift (err e) w h k = record { post = k e refl }

  pub Ends-if :
      (b : Bool) (m n : Action A) (w : World)
      → (b ≡ true → Ends Q E m w)
      → (b ≡ false → Ends Q E n w)
      → Ends Q E (if b then m else n) w
  Ends-if true m n w h k = h refl
  Ends-if false m n w h k = k refl

-- What `try` hands on: the result or the error of the action.
abbrev pub Caught :
    {A : Type 0} → (A → World → Type 0) → (GoError → World → Type 0) → Result A → World → Type 0
Caught Q E (ok a) w = Q a w
Caught Q E (err e) w = E e w

from_tried :
    {A : Type 0} (Q : A → World → Type 0) (E : GoError → World → Type 0) (r : Result A × World)
    → Post Q E r
    → Caught Q E r.0 r.1
from_tried Q E (ok a, v) p = p
from_tried Q E (err e, v) p = p

module _ {A : Type 0} {Q : A → World → Type 0} {E F : GoError → World → Type 0} where
  pub Ends-try : (m : Action A) (w : World) → Ends Q E m w → Ends (Caught Q E) F (try m) w
  unfolding try
  Ends-try m w h = record { post = from_tried Q E (m w) h.post }

module _ {A : Type 0} {Q R : A → World → Type 0} {E F : GoError → World → Type 0} where
  weaker :
      (r : Result A × World)
      → Post Q E r
      → ((a : A) (v : World) → Q a v → R a v)
      → ((e : GoError) (v : World) → E e v → F e v)
      → Post R F r
  weaker (ok a, v) p h k = h a v p
  weaker (err e, v) p h k = k e v p

  pub Ends-weaken :
      (m : Action A) (w : World)
      → Ends Q E m w
      → ((a : A) (v : World) → Q a v → R a v)
      → ((e : GoError) (v : World) → E e v → F e v)
      → Ends R F m w
  Ends-weaken m w p h k = record { post = weaker (m w) p.post h k }

module _ {A : Type 0} (Q R : A → World → Type 0) (E F : GoError → World → Type 0) where
  both :
      (r : Result A × World)
      → Post Q E r
      → Post R F r
      → Post (λ a v. Q a v × R a v) (λ e v. E e v × F e v) r
  both (ok a, v) p q = (p, q)
  both (err e, v) p q = (p, q)

  -- Two triples of one action at one state.
  pub Ends-both :
      (m : Action A) (w : World)
      → Ends Q E m w
      → Ends R F m w
      → Ends (λ a v. Q a v × R a v) (λ e v. E e v × F e v) m w
  Ends-both m w p q = record { post = both (m w) p.post q.post }

-- A run whose first action returns.
module _ {A B : Type 0} where
  pub bind-ok :
      (m : Action A) (f : A → Action B) (w : World) (a : A) (v : World)
      → m w ≡ (ok a, v)
      → (m >>= f) w ≡ f a v
  unfolding ◌>>=◌
  bind-ok m f w a v e = ap (λ x. elim x.0 [ ok b ↦ f b x.1 | err g ↦ (err g, x.1) ]) e

  pub bind-try :
      (m : Action A) (f : Result A → Action B) (w : World) (a : A) (v : World)
      → m w ≡ (ok a, v)
      → (try m >>= f) w ≡ f (ok a) v
  unfolding ◌>>=◌ try
  bind-try m f w a v e = ap (λ x. f x.0 x.1) e
