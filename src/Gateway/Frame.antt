-- ===== src/Gateway/Frame.antt =====
-- A gateway knows nothing of the database, and its call is noted once.
use shopping_cart_payment.Prelude.{suc, ◌≡◌, refl, ◌∙◌, not, Bool-cases, inl, inr}
use shopping_cart_payment.Text.{is_blank, text_eq, bytes}
use shopping_cart_payment.Errors.{GoError}
use shopping_cart_payment.Gateway.Dto.{PaymentRequest, RefundRequest}
use shopping_cart_payment.Gateway.Providers.{
  PaymentGateway, MockGateway, StripeGateway, mock, stripe, paypal, short_id, should_fail,
  mock_succeeds, mock_process_payment, mock_refunds, mock_process_refund, stripe_process_payment,
  process_payment, process_refund,
}
use shopping_cart_payment.World.{Env, World, Action, Float64, new_uuid}
use shopping_cart_payment.World.Hoare.{Ends, Ends-bind, Ends-pure, Ends-if, Ends-weaken}

-- The parts of the world that a gateway leaves alone.
pub record Frame (w v : World) : Type 0 where
  pub tables : v.tables ≡ w.tables
  pub charges : v.charges ≡ w.charges
  pub refunds_sent : v.refunds_sent ≡ w.refunds_sent
  pub round_trips : v.round_trips ≡ w.round_trips

-- Never an error.
abbrev pub Never : GoError → World → Type 0
Never e w = ⊥

abbrev pub Framed : {A : Type 0} → World → A → World → Type 0
Framed w a v = Frame w v

pub Frame-refl : (w : World) → Frame w w
Frame-refl w = record { tables = refl; charges = refl; refunds_sent = refl; round_trips = refl }

pub Frame-trans : {u v w : World} → Frame u v → Frame v w → Frame u w
Frame-trans f g = record {
  tables = g.tables ∙ f.tables;
  charges = g.charges ∙ f.charges;
  refunds_sent = g.refunds_sent ∙ f.refunds_sent;
  round_trips = g.round_trips ∙ f.round_trips;
}

calls-Frame : (w : World) → Frame w (record w { stripe_calls = suc w.stripe_calls })
calls-Frame w = record { tables = refl; charges = refl; refunds_sent = refl; round_trips = refl }

module _ (env : Env) where
  new_uuid-Framed : (w : World) → Ends (Framed w) Never (new_uuid env) w
  unfolding new_uuid
  new_uuid-Framed w = record {
    post = record { tables = refl; charges = refl; refunds_sent = refl; round_trips = refl };
  }

  short_id-Framed : (w : World) → Ends (Framed w) Never (short_id env) w
  unfolding short_id
  short_id-Framed w = Ends-bind _ _ _ w (new_uuid-Framed w) λ id v f. Ends-pure _ v f

  should_fail-Framed : (rate : Float64) (w : World) → Ends (Framed w) Never (should_fail env rate) w
  unfolding should_fail
  should_fail-Framed rate w = elim (Bool-cases (env.is_positive rate)) [
    | inl yes_positive ↦ record {
      post =
          rw (should_fail, yes_positive)
            (record { tables = refl; charges = refl; refunds_sent = refl; round_trips = refl });
    }
    | inr zero_rate ↦ record { post = rw (should_fail, zero_rate) (Frame-refl w) }
  ]

  mock_succeeds-Framed :
      (request : PaymentRequest) (w : World) → Ends (Framed w) Never (mock_succeeds env request) w
  unfolding mock_succeeds
  mock_succeeds-Framed request w =
      Ends-bind _ _ _ w (short_id-Framed w)
        λ t v f. Ends-bind _ _ _ v (short_id-Framed v) λ i x g. Ends-pure _ x (Frame-trans f g)

  -- A step more after a part that left those alone.
  further :
      {A : Type 0} {w : World} (m : Action A) (v : World)
      → Frame w v
      → Ends (Framed v) Never m v
      → Ends (Framed w) Never m v
  further m v f h = Ends-weaken m v h (λ _ _ g. Frame-trans f g) (λ _ _ e. e)

  mock_process_payment-Framed :
      (g : MockGateway) (request : PaymentRequest) (w : World)
      → Ends (Framed w) Never (mock_process_payment env g request) w
  unfolding mock_process_payment
  mock_process_payment-Framed g request w =
      Ends-if (text_eq request.card_number (bytes "tok_mock_decline")) _ _ w
        (λ _. Ends-pure _ w (Frame-refl w))
        λ _.
          Ends-if (text_eq request.card_number (bytes "tok_mock_insufficient_funds")) _ _ w
            (λ _. Ends-pure _ w (Frame-refl w))
            λ _. Ends-bind _ _ _ w (should_fail-Framed g.failure_rate w) λ fails v f.
              Ends-if fails _ _ v (λ _. Ends-pure _ v f)
                (λ _. further _ v f (mock_succeeds-Framed request v))

  stripe_process_payment-Framed :
      (g : StripeGateway) (request : PaymentRequest) (w : World)
      → Ends (Framed w) Never (stripe_process_payment env g request) w
  unfolding stripe_process_payment
  stripe_process_payment-Framed g request w = elim (Bool-cases g.enabled) [
    | inl on ↦ elim (Bool-cases (is_blank request.payment_method_token)) [
      | inl empty ↦ record { post = rw (stripe_process_payment, on, empty) (Frame-refl w) }
      | inr given ↦ record { post = rw (stripe_process_payment, on, given) (calls-Frame w) }
    ]
    | inr off ↦ record { post = rw (stripe_process_payment, off) (Frame-refl w) }
  ]

  pub process_payment-Framed :
      (g : PaymentGateway) (request : PaymentRequest) (w : World)
      → Ends (Framed w) Never (process_payment env g request) w
  unfolding process_payment
  process_payment-Framed (mock g) request w = mock_process_payment-Framed g request w
  process_payment-Framed (stripe g) request w = stripe_process_payment-Framed g request w
  process_payment-Framed (paypal g) request w =
      Ends-if (not g.enabled) _ _ w (λ _. Ends-pure _ w (Frame-refl w))
        (λ _. Ends-pure _ w (Frame-refl w))

  mock_process_refund-Framed :
      (g : MockGateway) (request : RefundRequest) (w : World)
      → Ends (Framed w) Never (mock_process_refund env g request) w
  unfolding mock_process_refund mock_refunds
  mock_process_refund-Framed g request w =
      Ends-bind _ _ _ w (should_fail-Framed g.failure_rate w) λ fails v f.
        Ends-if fails _ _ v (λ _. Ends-pure _ v f)
          λ _. Ends-bind _ _ _ v (further _ v f (short_id-Framed v)) λ id x h. Ends-pure _ x h

  pub process_refund-Framed :
      (g : PaymentGateway) (request : RefundRequest) (w : World)
      → Ends (Framed w) Never (process_refund env g request) w
  unfolding process_refund
  process_refund-Framed (mock g) request w = mock_process_refund-Framed g request w
  process_refund-Framed (stripe g) request w =
      Ends-if (not g.enabled) _ _ w (λ _. Ends-pure _ w (Frame-refl w))
        (λ _. Ends-pure _ w (Frame-refl w))
  process_refund-Framed (paypal g) request w =
      Ends-if (not g.enabled) _ _ w (λ _. Ends-pure _ w (Frame-refl w))
        (λ _. Ends-pure _ w (Frame-refl w))
