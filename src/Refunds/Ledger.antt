-- ===== src/Refunds/Ledger.antt =====
-- The abstract view of the tables: what each payment took and what its completed refunds gave back,
-- in ten-thousandths. Statuses, texts, times and refunds that did not complete are forgotten.
use shopping_cart_payment.Prelude.{
  ◌≡◌, refl, sym, ◌∙◌, ◌≢◌, some, List, [], ◌∷◌, ◌++◌, map, ℤ, pos, ◌+ℤ◌, ◌≤ℤ◌, int_laws, arith,
  ◌==◌, ==_iff, All, Bool-cases, inl, inr, if◌then◌else◌,
}
use shopping_cart_payment.Text.{Text}
use shopping_cart_payment.Errors.{ok, err}
use shopping_cart_payment.Decimal.{Decimal, FitsScale, units}
use shopping_cart_payment.Model.{Uuid}
use shopping_cart_payment.Model.Status.{refund_status_of, is_refunded}
use shopping_cart_payment.Schema.{PaymentRow, RefundRow, Tables}
use shopping_cart_payment.World.{Env}
use shopping_cart_payment.Store.Numeric.{IsReadable, AmountLaws}

-- An entry is a payment's id and an amount.
abbrev pub Entries : Type 0
Entries = List (Uuid × ℤ)

pub record Ledger : Type 0 where
  pub taken : Entries
  pub given_back : Entries

-- The sum of the entries of one payment.
unfoldable pub total : Uuid → Entries → ℤ
total id [] = pos 0
total id ((i, u) ∷ es) = if i == id then u +ℤ total id es else total id es

-- No payment has given back more than it took.
abbrev pub IsCovered : Ledger → Type 0
IsCovered l = All (λ e. total e.0 l.given_back ≤ℤ e.1) l.taken

-- An id stands in one entry at most.
abbrev pub IsKeyed : Entries → Type 0
IsKeyed [] = Unit
IsKeyed (e ∷ es) = All (λ f. f.0 ≢ e.0) es × IsKeyed es

abbrev pub HasAmount : Uuid → ℤ → Entries → Type 0
HasAmount id u es = All (λ e. e.0 ≡ id → e.1 ≡ u) es

-- The abstract specification of a refund: nothing, or one more entry that the payment covers.
pub data RefundStep (l : Ledger) : Ledger → Type 0 where
  stay : RefundStep l l
  give_back :
      (id : Uuid) (taken amount : ℤ)
      → HasAmount id taken l.taken
      → total id l.given_back +ℤ amount ≤ℤ taken
      → RefundStep l (record l { given_back = l.given_back ++ (id, amount) ∷ [] })

module _ (env : Env) where
  unfoldable pub amount_units : Text → ℤ
  amount_units t = elim (env.decimals.of_string t) [ ok d ↦ units d | err _ ↦ pos 0 ]

  pub amount_units_of :
      (t : Text) {d : Decimal} → env.decimals.of_string t ≡ ok d → amount_units t ≡ units d
  unfolding amount_units
  amount_units_of t e = rw (amount_units, e)

  -- An amount that was stored counts for its value.
  pub amount_units-stored :
      AmountLaws env
      → (d : Decimal) (a : Text) → FitsScale d
      → env.dialect.numeric (env.decimals.to_string d) ≡ some a
      → amount_units a ≡ units d
  amount_units-stored laws d a fits e =
      let back = laws.stored d a fits e in
      amount_units_of a back.reads ∙ laws.stored_units d back.decimal a fits e back.reads

  abbrev pub taken_by : PaymentRow → Uuid × ℤ
  taken_by p = (p.id, amount_units p.amount)

  unfoldable pub settled : List RefundRow → Entries
  settled [] = []
  settled (r ∷ rs) =
      if is_refunded (refund_status_of r.status)
      then (r.payment_id, amount_units r.amount) ∷ settled rs
      else settled rs

  unfoldable pub ledger : Tables → Ledger
  ledger t = record { taken = map taken_by t.payments; given_back = settled t.refunds }

  pub settled-append : (rs qs : List RefundRow) → settled (rs ++ qs) ≡ settled rs ++ settled qs
  unfolding settled
  settled-append [] qs = refl
  settled-append (r ∷ rs) qs = ground (arith, settled-append rs qs)

pub total-append : (id : Uuid) (es fs : Entries) → total id (es ++ fs) ≡ total id es +ℤ total id fs
unfolding total
total-append id [] fs = omega int_laws
total-append id ((i, u) ∷ es) fs = elim (Bool-cases (i == id)) [
  | inl hit ↦ rw hit (rw (total-append id es fs) (omega int_laws))
  | inr miss ↦ rw miss (total-append id es fs)
]

pub total-concat :
    (id j : Uuid) (u : ℤ) (es : Entries)
    → total j (es ++ (id, u) ∷ []) ≡ (if id == j then total j es +ℤ u else total j es)
unfolding total
total-concat id j u es = rw total-append (elim (Bool-cases (id == j)) [
  | inl hit ↦ rw (total, hit) (omega int_laws)
  | inr miss ↦ rw (total, miss) (omega int_laws)
])

-- A covered ledger stays covered.
covered_entry :
    (id i : Uuid) (taken amount u : ℤ) (gs : Entries)
    → (i ≡ id → u ≡ taken)
    → total id gs +ℤ amount ≤ℤ taken
    → i ≡ id
    → total i gs +ℤ amount ≤ℤ u
covered_entry id i taken amount u gs same room e = rw (e, same e) room

give_back-IsCovered :
    (id : Uuid) (taken amount : ℤ) (es gs : Entries)
    → HasAmount id taken es
    → total id gs +ℤ amount ≤ℤ taken
    → All (λ e. total e.0 gs ≤ℤ e.1) es
    → All (λ e. total e.0 (gs ++ (id, amount) ∷ []) ≤ℤ e.1) es
unfolding total
give_back-IsCovered id taken amount [] gs has room h = tt
give_back-IsCovered id taken amount ((i, u) ∷ es) gs has room h = (
  rw total-concat (elim (Bool-cases (id == i)) [
    | inl hit ↦ rw hit (covered_entry id i taken amount u gs has.0 room (sym ((==_iff id i).0 hit)))
    | inr miss ↦ rw miss h.0
  ]),
  give_back-IsCovered id taken amount es gs has.1 room h.1,
)

pub RefundStep-IsCovered : {l m : Ledger} → RefundStep l m → IsCovered l → IsCovered m
RefundStep-IsCovered stay h = h
RefundStep-IsCovered {l} (give_back id taken amount has room) h =
    give_back-IsCovered id taken amount l.taken l.given_back has room h

-- The tables of a service in order: payments have ids of their own, and amounts can be read.
pub record IsSound (env : Env) (t : Tables) : Type 0 where
  pub keyed : IsKeyed (map (taken_by env) t.payments)
  pub payments : All (λ p. IsReadable env p.amount) t.payments
  pub refunds : All (λ r. IsReadable env r.amount) t.refunds
