-- ===== src/Tests/Server.antt =====
-- Server: requests to a small server, before and after its rate limiter has refused one.
use mathlib.Core.List.{Mem, mem-cons_of_mem, mem-cons_self}
use shopping_cart_payment.Prelude.{◌∷◌, ℕ, ◌≡◌, ◌≢◌, ◌↔◌, ◌⊎◌, refl, true, false, some, [], pos}
use shopping_cart_payment.Text.{bytes, text_eq, to_lower, is_blank}
use shopping_cart_payment.Errors.{ok, err, plain}
use shopping_cart_payment.Httpx.{sweep, RateOps, rate_limit}
use shopping_cart_payment.Gateway.Router.{is_gateway_available}
use shopping_cart_payment.Payments.Soundness.{payments_of}
use shopping_cart_payment.Refunds.Soundness.{refunds_of}
use shopping_cart_payment.Health.{ready}
use shopping_cart_payment.Server.{
  Request, Route, routes, check, operation, process_payment, refund_payment, State, dispatch,
  serve_limited, handle, full_path, status_of,
}
use shopping_cart_payment.Server.Startup.{router_of}
use shopping_cart_payment.Server.Gateways.{
  configured, is_gateway_available-router_of, process_payment_service-configured,
}
use shopping_cart_payment.Payments.{process_payment_service}
use shopping_cart_payment.Server.Pipeline.{
  serve_limited-too_many, serve_limited-actuator, handle-readiness,
}
use shopping_cart_payment.Tests.World.{quiet, env, laws, store, router, world, request}
use shopping_cart_payment.Tests.Requests.{headers, refund_request}
use shopping_cart_payment.Tests.Runs.{tables-IsSound, tables-IsCovered}
use shopping_cart_payment.Server.Safety.{serves, sweeps, Reach, begin, after, Reach-IsSafe}
use shopping_cart_payment.Refunds.Safety.{IsSafe}
use shopping_cart_payment.Refunds.Ledger.{ledger, settled}
use shopping_cart_payment.Tests.Config.{config}

-- A bucket that is never refilled: the tokens that are left.
abbrev ops : RateOps ℕ
ops = record { new_bucket = λ limit burst. 0; allow = λ now tokens. (false, tokens) }

abbrev state : State ℕ
state = record {
  limiter = record { enabled = true; limiters = []; limit = pos 1; burst = pos 0 };
  world = world;
}

abbrev pay_route : Route
pay_route = record {
  request_method = bytes "POST";
  pattern = bytes "/api/v1/payments";
  endpoint = operation process_payment;
}

abbrev pay : Request
pay = record {
  request_method = bytes "POST";
  path = bytes "/api/v1/payments";
  route = some pay_route;
  client_ip = bytes "10.0.0.1";
  headers = headers;
  order_query = [];
  customer_query = [];
  param = [];
  payment_body = ok request;
  refund_body = err (plain (bytes "EOF"));
}

abbrev ready_route : Route
ready_route = record {
  request_method = bytes "GET";
  pattern = bytes "/actuator/health/readiness";
  endpoint = check ready;
}

abbrev probe : Request
probe = record pay {
  request_method = bytes "GET";
  path = bytes "/actuator/health/readiness";
  route = some ready_route;
}

registered : Mem ready_route routes
registered = mem-cons_of_mem _ (mem-cons_of_mem _ mem-cons_self)

serve_limited-too_many_example :
    ((status_of
          (serve_limited env
            (payments_of store router)
            (refunds_of store router)
            ops
            pay
            1
            2
            state).0
        ≡ 429)
      ↔ ((rate_limit ops state.limiter (full_path pay.route) pay.client_ip 1 2).0 ≡ false))
    × ((status_of
            (serve_limited env
              (payments_of store router)
              (refunds_of store router)
              ops
              pay
              1
              2
              state).0
          ≢ 429)
        ⊎ ((serve_limited env
              (payments_of store router)
              (refunds_of store router)
              ops
              pay
              1
              2
              state).1.world
            ≡ world))
serve_limited-too_many_example =
    serve_limited-too_many env (payments_of store router) (refunds_of store router) ops pay 1 2
      state

serve_limited-actuator_example :
    serve_limited env (payments_of store router) (refunds_of store router) ops probe 1 2 state ≡ (
      (dispatch env
          (payments_of store router)
          (refunds_of store router)
          (some ready_route)
          probe
          world).0,
      record {
        limiter = state.limiter;
        world =
            (dispatch env
              (payments_of store router)
              (refunds_of store router)
              (some ready_route)
              probe
              world).1;
      },
    )
serve_limited-actuator_example =
    serve_limited-actuator env (payments_of store router) (refunds_of store router) ops probe
      ready_route 1 2 state registered refl refl

handle-readiness_example :
    (handle env
      (payments_of store router)
      (refunds_of store router)
      ops
      (λ _. [])
      probe
      1
      1
      2
      3
      state).0.status
    ≡ 200
handle-readiness_example =
    handle-readiness env (payments_of store router) (refunds_of store router) ops (λ _. []) probe
      ready_route 1 1 2 3 state registered refl refl

is_gateway_available-router_of_example :
    is_gateway_available env (router_of env config) (bytes "Mock")
    ≡ configured config (to_lower env.lower_tables (bytes "Mock"))
is_gateway_available-router_of_example = is_gateway_available-router_of env config (bytes "Mock")

-- A payment, a refund, a sweep and the two reads.
abbrev open_state : State ℕ
open_state = record {
  limiter = record { enabled = false; limiters = []; limit = pos 1; burst = pos 1 };
  world = world;
}

abbrev back : Request
back = record pay {
  path = bytes "/api/v1/payments/7/refund";
  route = some (record {
    request_method = bytes "POST";
    pattern = bytes "/api/v1/payments/:paymentId/refund";
    endpoint = operation refund_payment;
  });
  param = 7 ∷ [];
  refund_body = ok refund_request;
}

abbrev after_pay : State ℕ
after_pay =
    (serve_limited env (payments_of store router) (refunds_of store router) ops pay 1 2
      open_state).1

abbrev after_back : State ℕ
after_back =
    (serve_limited env (payments_of store router) (refunds_of store router) ops back 3 4
      after_pay).1

run :
    Reach env store router ops open_state
      (record after_back { limiter = sweep ops after_back.limiter 5 })
run =
    after after_back _
      (after after_pay _ (after open_state _ begin (serves pay 1 2 open_state))
        (serves back 3 4 after_pay))
      (sweeps 5 after_back)

tables-IsSafe : IsSafe env world.tables
unfolding ledger settled
tables-IsSafe = record { sound = tables-IsSound; covered = tables-IsCovered; owned = tt }

Reach-IsSafe_example : IsSafe env after_back.world.tables
Reach-IsSafe_example =
    Reach-IsSafe env laws store router (λ n t h. h) ops open_state
      (record after_back { limiter = sweep ops after_back.limiter 5 }) run tables-IsSafe

-- The default gateway of the configuration has a name that no gateway has.
process_payment_service-configured_example :
    let v =
      (process_payment_service env
        (payments_of store (router_of env config))
        request
        (bytes "c")
        []
        world).1 in
    (v.charges ≡ world.charges) × (v.tables ≡ world.tables)
unfolding to_lower text_eq is_blank
process_payment_service-configured_example =
    process_payment_service-configured env config store request (bytes "c") [] refl quiet world
