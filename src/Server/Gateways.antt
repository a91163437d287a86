-- ===== src/Server/Gateways.antt =====
-- Which gateways a configuration makes available.
use shopping_cart_payment.Prelude.{
  ◌≡◌, ap, sym, ◌∙◌, Option-cases, refl, Bool, false, not, ◌&&◌, Option, none, some, List, [], ◌∷◌,
  Bool-cases, inl, inr, if◌then◌else◌,
}
use shopping_cart_payment.Text.{Text, bytes, text_eq, to_lower, is_empty, is_blank}
use shopping_cart_payment.World.{Env, World}
use shopping_cart_payment.Config.{Config}
use shopping_cart_payment.Gateway.Providers.{
  PaymentGateway, mock, stripe, paypal, new_mock_gateway, new_stripe_gateway, new_paypal_gateway,
  is_enabled,
}
use shopping_cart_payment.Gateway.Router.{
  register, insert, lookup, new_router, is_gateway_available,
}
use shopping_cart_payment.Errors.{GoError, err}
use shopping_cart_payment.Gateway.Router.{get_gateway_or_default, new_router}
use shopping_cart_payment.Gateway.Routing.{get_gateway_unavailable}
use shopping_cart_payment.Store.{Store}
use shopping_cart_payment.Store.Transactions.{Quiet, Quiet-Stable}
use shopping_cart_payment.Payments.{process_payment_service}
use shopping_cart_payment.Payments.Requests.{ProcessPaymentRequest}
use shopping_cart_payment.Payments.Soundness.{payments_of}
use shopping_cart_payment.Payments.Unavailable.{process_payment_service_refused}
use shopping_cart_payment.Server.Startup.{gateways_of, router_of}

-- What the configuration says of a gateway with a name in lower case.
abbrev pub configured : Config → Text → Bool
configured c name =
    if text_eq (bytes "mock") name
    then c.mock_gateway_enabled
    else if text_eq (bytes "stripe") name
    then c.stripe_enabled && not (is_empty c.stripe_api_key)
    else if text_eq (bytes "paypal") name
    then c.paypal_enabled
      && not (is_empty c.paypal_client_id)
      && not (is_empty c.paypal_client_secret)
    else false

abbrev table : Config → List (Text × PaymentGateway)
table c =
    (
      bytes "mock",
      mock (
          new_mock_gateway c.mock_gateway_enabled c.mock_gateway_delay_ms
            c.mock_gateway_failure_rate),
    )
    ∷ (
      bytes "stripe",
      stripe (
          new_stripe_gateway (c.stripe_enabled && not (is_empty c.stripe_api_key))
            c.stripe_api_key),
    )
    ∷ (
      bytes "paypal",
      paypal (
          new_paypal_gateway (
            c.paypal_enabled
            && not (is_empty c.paypal_client_id)
            && not (is_empty c.paypal_client_secret))),
    )
    ∷ []

register_lem : (env : Env) (c : Config) → (router_of env c).gateways ≡ table c
unfolding router_of new_router gateways_of register insert to_lower text_eq
register_lem env c = refl

abbrev is_on : Option PaymentGateway → Bool
is_on none = false
is_on (some g) = is_enabled g

lookup-table : (c : Config) (key : Text) → is_on (lookup key (table c)) ≡ configured c key
unfolding lookup
lookup-table c key = elim (Bool-cases (text_eq (bytes "mock") key)) [
  | inl e ↦ rw e refl
  | inr e ↦ elim (Bool-cases (text_eq (bytes "stripe") key)) [
    | inl e' ↦ rw (e, e') refl
    | inr e' ↦ elim (Bool-cases (text_eq (bytes "paypal") key)) [
      | inl e'' ↦ rw (e, e', e'') refl
      | inr e'' ↦ rw (e, e', e'') refl
    ]
  ]
]

-- In the running service a gateway is available exactly when the configuration enables it and gives
-- its credentials: Stripe needs its API key, PayPal the client's id and secret, the mock nothing. Any
-- other name is unavailable, and the case of letters does not matter.
pub is_gateway_available-router_of :
    (env : Env) (c : Config) (name : Text)
    → is_gateway_available env (router_of env c) name
      ≡ configured c (to_lower env.lower_tables name)
unfolding is_gateway_available
is_gateway_available-router_of env c name =
    let key = to_lower env.lower_tables name in
    (elim (Option-cases (lookup key (table c))) [
      | inl e ↦
          rw (is_gateway_available, register_lem env c, e) (ap is_on (sym e) ∙ lookup-table c key)
      | inr (g, e) ↦
          rw (is_gateway_available, register_lem env c, e) (ap is_on (sym e) ∙ lookup-table c key)
    ])

-- The name that ProcessPayment asks the router for.
abbrev pub gateway_asked_for : Config → ProcessPaymentRequest → Text
gateway_asked_for c req = if is_blank req.gateway then c.payment_gateway_default else req.gateway

refuses :
    (env : Env) (c : Config) (req : ProcessPaymentRequest)
    → configured c (to_lower env.lower_tables (gateway_asked_for c req)) ≡ false
    → (e : GoError) × (get_gateway_or_default env (router_of env c) req.gateway ≡ err e)
unfolding get_gateway_or_default router_of new_router
refuses env c req off = elim (Bool-cases (is_blank req.gateway)) [
  | inl blank ↦
      let closed : is_gateway_available env (router_of env c) c.payment_gateway_default ≡ false =
        is_gateway_available-router_of env c c.payment_gateway_default ∙ rw blank at off in
      let (e, refused) =
        get_gateway_unavailable env (router_of env c) c.payment_gateway_default closed in
      (e, rw (get_gateway_or_default, blank) refused)
  | inr named ↦
      let closed : is_gateway_available env (router_of env c) req.gateway ≡ false =
        is_gateway_available-router_of env c req.gateway ∙ rw named at off in
      let (e, refused) = get_gateway_unavailable env (router_of env c) req.gateway closed in
      (e, rw (get_gateway_or_default, named) refused)
]

-- A payment through a gateway that the configuration does not enable, or gives no credentials, is never
-- charged: when the gateway that the request names, or the default one if it names none, is not
-- configured, ProcessPayment with the router of the running service calls no gateway and, when
-- nobody else writes, leaves the tables as they were, whatever it returns.
pub process_payment_service-configured :
    (env : Env) (c : Config) (st : Store) (req : ProcessPaymentRequest) (correlation_id key : Text)
    → configured c (to_lower env.lower_tables (gateway_asked_for c req)) ≡ false
    → Quiet env
    → (w : World)
    → let v =
        (process_payment_service env
          (payments_of st (router_of env c))
          req
          correlation_id
          key
          w).1 in
      (v.charges ≡ w.charges) × (v.tables ≡ w.tables)
process_payment_service-configured env c st req correlation_id key off quiet w =
    let (e, refused) = refuses env c req off in
    process_payment_service_refused env st (router_of env c) req correlation_id key
      (λ t. t ≡ w.tables) (Quiet-Stable env w.tables quiet) w.charges e refused w refl refl
