-- ===== src/World.antt =====
-- What a request reads and changes outside its own variables: the database, the clock, random
-- numbers, the calls of payment gateways. An action of the program is a function on this state that
-- may fail; what it changed before it failed stays changed.
pub mod Hoare
use shopping_cart_payment.Prelude.{ℕ, suc, Bool, Option, none, some, List, [], ◌∷◌, ◌++◌, ℤ, String}
use shopping_cart_payment.Text.{Text}
use shopping_cart_payment.Errors.{GoError, Result, ok, err}
use shopping_cart_payment.Decimal.{DecimalOps}
use shopping_cart_payment.Model.{Uuid, Time}
use shopping_cart_payment.Gateway.Dto.{PaymentRequest, PaymentResult, RefundRequest, RefundResult}
use shopping_cart_payment.Schema.{Dialect, Tables}

-- The parameters of a PaymentIntent that mock.go fills in (stripe-go).
pub record PaymentIntentParams : Type 0 where
  pub amount : ℤ
  pub currency : Text
  pub payment_method : Text
  pub confirm : Bool
  pub automatic_payment_methods : Bool
  pub allow_redirects : Text
  pub description : Option Text
  pub idempotency_key : Option Text
  pub expand : List Text

-- What the Stripe client answers: a *stripe.Error, another error, or an intent with the details of
-- the card of its latest charge, if there are any.
pub data StripeAnswer : Type 0 where
  stripe_error : (code text : Text) → StripeAnswer
  other_error : StripeAnswer
  intent : (id status : Text) → (card : Option (Text × Text)) → StripeAnswer

-- A float64, by its bits; only the tests below look at one.
abbrev pub Float64 : Type 0
Float64 = ℕ

-- Everything that is decided outside the repository's code, as a value for each occasion.
pub record Env : Type 0 where
  pub dialect : Dialect
  pub decimals : DecimalOps
  -- the tables of the package unicode
  pub lower_tables : Text → Text
  pub upper_tables : Text → Text
  -- google/uuid: Parse, String, and the n-th New
  pub parse_uuid : Text → Result Uuid
  pub uuid_text : Uuid → Text
  pub uuids : ℕ → Uuid
  -- the n-th time.Now
  pub times : ℕ → Time
  -- f > 0, and whether the n-th rand.Float64() is below f
  pub is_positive : Float64 → Bool
  pub draw_below : ℕ → Float64 → Bool
  -- the error of the n-th round trip to the database, if it fails: a statement has had no effect then,
  -- but a Commit may have taken effect before its acknowledgement was lost
  pub fault : ℕ → Option GoError
  pub commit_lands : ℕ → Bool
  -- what other clients did to the tables before the n-th round trip
  pub others : ℕ → Tables → Tables
  pub no_rows_text : Text
  -- the n-th call of the Stripe client with this API key
  pub stripe : ℕ → Text → PaymentIntentParams → StripeAnswer

pub record World : Type 0 where
  pub tables : Tables
  pub round_trips : ℕ
  pub clock : ℕ
  pub ids : ℕ
  pub draws : ℕ
  pub stripe_calls : ℕ
  -- the calls of a gateway's ProcessPayment and ProcessRefund, with their results, latest first
  pub charges : List (PaymentRequest × PaymentResult)
  pub refunds_sent : List (RefundRequest × RefundResult)

abbrev pub Action : Type 0 → Type 0
Action A = World → Result A × World

module _ {A : Type 0} where
  unfoldable pub pure : A → Action A
  pure a w = (ok a, w)

  unfoldable pub raise : GoError → Action A
  raise e w = (err e, w)

  unfoldable pub lift : Result A → Action A
  lift r w = (r, w)

  -- The code looks at the error itself.
  unfoldable pub try : Action A → Action (Result A)
  try m w = let (r, w') = m w in (ok r, w')

infixl 5 ◌>>=◌ ◌>>◌
-- opening this opens `pure`, `raise`, `lift` and `try` too
unfoldable pub ◌>>=◌ : {A B : Type 0} → Action A → (A → Action B) → Action B
unfolding pure raise lift try
◌>>=◌ m f w = let (r, w') = m w in elim r [ ok a ↦ f a w' | err e ↦ (err e, w') ]

abbrev pub ◌>>◌ : {A B : Type 0} → Action A → Action B → Action B
m >> k = m >>= λ _. k

-- `time.Now().UTC()` and `uuid.New()`
unfoldable pub now : Env → Action Time
now env w = (ok (env.times w.clock), record w { clock = suc w.clock })

unfoldable pub new_uuid : Env → Action Uuid
new_uuid env w = (ok (env.uuids w.ids), record w { ids = suc w.ids })
