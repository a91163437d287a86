-- ===== src/Tests/Requests.antt =====
-- The theorems about handlers, router and statements, applied to concrete requests.
use shopping_cart_payment.Prelude.{◌≡◌, ◌↔◌, refl, true, some, none, [], ◌∷◌, pos, ◌<ℤ◌}
use shopping_cart_payment.Text.{bytes, to_lower}
use shopping_cart_payment.Errors.{ok}
use shopping_cart_payment.Decimal.{FitsScale, units}
use shopping_cart_payment.Decimal.Units.{of_units, exact_laws}
use shopping_cart_payment.Gateway.Providers.{PaymentGateway, stripe, is_enabled, get_name}
use shopping_cart_payment.Gateway.Router.{new_router, get_gateway, is_gateway_available}
use shopping_cart_payment.Gateway.Routing.{
  is_gateway_available-get_gateway, new_router-get_gateway, IsOther,
}
use shopping_cart_payment.Payments.Soundness.{payments_of}
use shopping_cart_payment.Refunds.Ledger.{IsSound, IsCovered, ledger}
use shopping_cart_payment.Refunds.Soundness.{refunds_of}
use shopping_cart_payment.Handler.{Headers, refund_payment, process_payment}
use shopping_cart_payment.Handler.Charging.{ChargedIfValid, process_payment-ChargedIfValid}
use shopping_cart_payment.Handler.Validation.{RefundRequest, validate_refund_request}
use shopping_cart_payment.Handler.Soundness.{
  validate_refund_request-eq-none, refund_payment-IsCovered,
}
use shopping_cart_payment.Tests.World.{env, laws, store, router, gateway, world, request}
use shopping_cart_payment.Tests.Runs.{tables-IsSound, tables-IsCovered}

abbrev pub refund_request : RefundRequest
refund_request = record { amount = of_units (pos 40000); reason = bytes "damaged" }

abbrev pub headers : Headers
headers = record {
  correlation_id = bytes "correlation-1";
  x_idempotency_key = [];
  idempotency_key = [];
  user_id = bytes "clerk";
}

refund_payment-IsCovered_example :
    let v =
      (refund_payment env
        (payments_of store router)
        (refunds_of store router)
        headers
        (7 ∷ [])
        (ok refund_request)
        world).1 in
    IsSound env v.tables × IsCovered (ledger env v.tables)
refund_payment-IsCovered_example =
    refund_payment-IsCovered env laws store router (payments_of store router) (λ n t h. h) headers
      (7 ∷ []) (ok refund_request) world tables-IsSound tables-IsCovered

validate_refund_request-eq-none_example :
    (validate_refund_request env.decimals refund_request ≡ none)
    ↔ (pos 0 <ℤ units refund_request.amount) × FitsScale refund_request.amount
validate_refund_request-eq-none_example =
    validate_refund_request-eq-none env.decimals exact_laws refund_request

is_gateway_available-get_gateway_example :
    (is_gateway_available env router (bytes "MOCK") ≡ true)
    ↔ (g : PaymentGateway) × (get_gateway env router (bytes "MOCK") ≡ ok g) × (is_enabled g ≡ true)
is_gateway_available-get_gateway_example =
    is_gateway_available-get_gateway env router (bytes "MOCK")

same_name : to_lower env.lower_tables (bytes "Mock") ≡ to_lower env.lower_tables (get_name gateway)
unfolding to_lower
same_name = refl

abbrev other_gateway : PaymentGateway
other_gateway = stripe (record { enabled = true; api_key = bytes "key" })

name-IsOther : IsOther env (bytes "Mock") (some other_gateway)
unfolding to_lower
name-IsOther h = cc h

new_router-get_gateway_example :
    get_gateway env
      (new_router env (bytes "stripe") (none ∷ some gateway ∷ some other_gateway ∷ none ∷ []))
      (bytes "Mock")
    ≡ ok gateway
new_router-get_gateway_example =
    new_router-get_gateway env (bytes "stripe") (none ∷ []) gateway (some other_gateway ∷ none ∷ [])
      (bytes "Mock") refl same_name (name-IsOther, (tt, tt))

process_payment-ChargedIfValid_example :
    ChargedIfValid env store router
      (refunds_of store router)
      headers
      (ok request)
      world
      (process_payment env
        (payments_of store router)
        (refunds_of store router)
        headers
        (ok request)
        world).1
process_payment-ChargedIfValid_example =
    process_payment-ChargedIfValid env store router (refunds_of store router) headers (ok request)
      world
