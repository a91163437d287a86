-- ===== src/Server.antt =====
-- go/cmd/server/main.go: the routes, and one request through the middleware to its handler.
pub mod Startup
pub mod Gateways
pub mod Statuses
pub mod Pipeline
pub mod Reads
pub mod Safety
use shopping_cart_payment.Prelude.{
  ℕ, Bool, true, false, not, ◌&&◌, Option, none, some, List, [], ◌∷◌, ◌++◌, ℤ, map, if◌then◌else◌,
}
use shopping_cart_payment.Text.{Text, bytes, is_empty, text_eq}
use shopping_cart_payment.Errors.{GoError, Result}
use shopping_cart_payment.Model.{Time}
use shopping_cart_payment.World.{Env, World, Action, pure, lift, ◌>>=◌, ◌>>◌}
use shopping_cart_payment.Config.{Config, ConfigOps, database_uri}
use shopping_cart_payment.Gateway.Providers.{
  PaymentGateway, mock, stripe, paypal, new_mock_gateway, new_stripe_gateway, new_paypal_gateway,
}
use shopping_cart_payment.Gateway.Router.{Router, new_router}
use shopping_cart_payment.Payments.{PaymentService}
use shopping_cart_payment.Payments.Requests.{ProcessPaymentRequest}
use shopping_cart_payment.Refunds.{RefundService}
use shopping_cart_payment.Store.{Store}
use shopping_cart_payment.Store.Backend.{Backend, runner}
use shopping_cart_payment.Store.Postgres.{ping_pool}
use shopping_cart_payment.Health.{Probe, Check, run_check, health_routes}
use shopping_cart_payment.Handler
use shopping_cart_payment.Handler.{Answer, Headers}
use shopping_cart_payment.Handler.Validation.{RefundRequest}
use shopping_cart_payment.Httpx.{
  RateOps, Limiter, RequestLog, new_rate_limiter, rate_limit, request_log, security_headers,
}

-- The handlers of handler.go.
pub data Operation : Type 0 where
  process_payment get_payment get_payments get_payment_by_order get_payments_by_customer
        get_refunds_for_payment refund_payment :
      Operation

-- `Handler.Register`: the methods and the paths.
abbrev pub payment_routes : List (Text × Text × Operation)
payment_routes =
    (bytes "POST", bytes "/api/v1/payments", process_payment)
    ∷ (bytes "GET", bytes "/api/v1/payments/:paymentId", get_payment)
    ∷ (bytes "GET", bytes "/api/v1/payments", get_payments)
    ∷ (bytes "GET", bytes "/api/v1/payments/order/:orderId", get_payment_by_order)
    ∷ (bytes "GET", bytes "/api/v1/payments/customer/:customerId", get_payments_by_customer)
    ∷ (bytes "GET", bytes "/api/v1/payments/:paymentId/refunds", get_refunds_for_payment)
    ∷ (bytes "POST", bytes "/api/v1/payments/:paymentId/refund", refund_payment)
    ∷ []

pub data Endpoint : Type 0 where
  check : Check → Endpoint
  prometheus : Endpoint
  operation : Operation → Endpoint

pub record Route : Type 0 where
  pub request_method : Text
  pub pattern : Text
  pub endpoint : Endpoint

-- All routes, in the order in which `main` registers them.
abbrev pub routes : List Route
routes =
    map
      (λ (path, probe). record {
        request_method = bytes "GET";
        pattern = path;
        endpoint = check probe;
      })
      health_routes
    ++ record {
      request_method = bytes "GET";
      pattern = bytes "/actuator/prometheus";
      endpoint = prometheus;
    }
      ∷ map
          (λ (request_method, path, op). record {
            request_method = request_method;
            pattern = path;
            endpoint = operation op;
          })
          payment_routes

-- A request, as gin hands it to the middleware: the route that it matches, if one does, and the parts
-- that the handlers read. `param` is the one parameter of the path.
pub record Request : Type 0 where
  pub request_method : Text
  pub path : Text
  pub route : Option Route
  pub client_ip : Text
  pub headers : Headers
  pub order_query : Text
  pub customer_query : Text
  pub param : Text
  pub payment_body : Result ProcessPaymentRequest
  pub refund_body : Result RefundRequest

pub data Content : Type 0 where
  answered : Answer → Content
  probed : Probe → Content
  metrics : Content
  too_many : (code message : Text) → Content
  no_route : Content

pub record Reply : Type 0 where
  pub status : ℕ
  pub headers : List (Text × Text)
  pub content : Content

-- `c.FullPath()`
abbrev pub full_path : Option Route → Text
full_path none = []
full_path (some route) = route.pattern

abbrev pub logged_of : Content → Option GoError
logged_of (answered a) = a.logged
logged_of (probed _) = none
logged_of metrics = none
logged_of (too_many _ _) = none
logged_of no_route = none

-- The text of the recorded errors, empty if there are none.
abbrev pub logged_text : (GoError → Text) → Option GoError → Text
logged_text errors_text none = []
logged_text errors_text (some e) = errors_text e

abbrev pub status_of : Content → ℕ
status_of (answered a) = a.status
status_of (probed p) = p.status
status_of metrics = 200
status_of (too_many _ _) = 429
status_of no_route = 404

-- The answer of the rate limiter's handler to a request that may not go on.
abbrev pub rate_limit_exceeded : (ip : Text) → Content
rate_limit_exceeded ip =
    too_many (bytes "RATE_LIMIT_EXCEEDED") (bytes "rate limit exceeded for " ++ ip)

-- What the requests share: the limiter's table, and the world behind the services.
pub record State (Bucket : Type 0) : Type 0 where
  pub limiter : Limiter Bucket
  pub world : World

module _ (env : Env) (payments : PaymentService) (refunds : RefundService) where
  unfoldable pub run_operation : Operation → Request → World → Answer × World
  run_operation process_payment r =
      Handler.process_payment env payments refunds r.headers r.payment_body
  run_operation get_payment r = Handler.get_payment env payments refunds r.param
  run_operation get_payments r =
      Handler.get_payments env payments refunds r.order_query r.customer_query
  run_operation get_payment_by_order r = Handler.get_payment_by_order env payments refunds r.param
  run_operation get_payments_by_customer r =
      Handler.get_payments_by_customer env payments refunds r.param
  run_operation get_refunds_for_payment r =
      Handler.get_refunds_for_payment env payments refunds r.param
  run_operation refund_payment r =
      Handler.refund_payment env payments refunds r.headers r.param r.refund_body

  abbrev pub as_content : {A : Type 0} → (A → Content) → A × World → Content × World
  as_content f (a, w) = (f a, w)

  -- The handler of the route that was matched. `main` hands the health handler its pool.
  unfoldable pub dispatch : Option Route → Request → World → Content × World
  unfolding run_operation run_check
  dispatch none r w = (no_route, w)
  dispatch (some route) r w = elim route.endpoint [
    | check probe ↦ as_content probed (run_check env true probe w)
    | prometheus ↦ (metrics, w)
    | operation op ↦ as_content answered (run_operation op r w)
  ]

  module _ {Bucket : Type 0} (ops : RateOps Bucket) where
    -- The rate limiter around the handler: the clock gives `seen` and `asked` to it.
    unfoldable pub serve_limited :
        Request → (seen asked : Time) → State Bucket → Content × State Bucket
    serve_limited r seen asked s =
        let (goes_on, limiter) =
          rate_limit ops s.limiter (full_path r.route) r.client_ip seen asked in
        if goes_on
        then (let (content, world) = dispatch r.route r s.world in
            (content, record { limiter = limiter; world = world }))
        else (rate_limit_exceeded r.client_ip, record { limiter = limiter; world = s.world })

    -- The middleware in the order of `engine.Use`: the headers, the log around the rest, the limiter.
    -- `errors_text` is what gin makes of the error that a handler recorded; `start` and `finish` are
    -- the times of the log.
    unfoldable pub handle :
        (errors_text : GoError → Text) (r : Request) (start seen asked finish : Time)
        → State Bucket
        → Reply × RequestLog × State Bucket
    unfolding serve_limited
    handle errors_text r start seen asked finish s =
        let (content, s') = serve_limited r seen asked s in
        (
          record { status = status_of content; headers = security_headers; content = content },
          request_log r.request_method r.path (status_of content) start finish r.client_ip
              (logged_text errors_text (logged_of content)),
          s',
        )
