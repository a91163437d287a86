-- ===== src/Server/Pipeline.antt =====
-- One request through the middleware: what the rate limiter may refuse, and what a refusal changes.
use mathlib.Core.List.{Mem, mem-cons, not-mem-nil}
use mathlib.Core.Logic.Or
use mathlib.Core.Bool.{Bool-set}
use shopping_cart_payment.Prelude.{
  ◌≡◌, ◌≢◌, ◌↔◌, ◌⊎◌, refl, ap, Bool, true, false, not, ◌||◌, Option, none, some, List, [], ◌∷◌,
  All, Bool-cases, Option-cases, inl, inr, arith,
}
use shopping_cart_payment.Text.{Text, bytes, is_prefix}
use shopping_cart_payment.Model.{Time}
use shopping_cart_payment.Errors.{GoError}
use shopping_cart_payment.World.{Env, World}
use shopping_cart_payment.Payments.{PaymentService}
use shopping_cart_payment.Refunds.{RefundService}
use shopping_cart_payment.Health.{Check, health, liveness, ready, app_info, run_check, readiness}
use shopping_cart_payment.Httpx.{RateOps, Limiter, rate_limit}
use shopping_cart_payment.Httpx.Requests.{is_exempt, rate_limit_exempt}
use shopping_cart_payment.Store.Postgres.{ping_pool, exec}
use shopping_cart_payment.Server.{
  Request, Route, routes, Endpoint, check, prometheus, operation, State, dispatch, serve_limited,
  handle, status_of, full_path,
}
use shopping_cart_payment.Server.Statuses.{run_operation-IsServed}

-- The endpoints of operations, not of the service's business.
abbrev pub is_actuator : Endpoint → Bool
is_actuator (check _) = true
is_actuator prometheus = true
is_actuator (operation _) = false

-- The paths under /actuator/ are those of the probes and of the metrics.
routes_lem :
    All
      (λ (route : Route). is_prefix (bytes "/actuator/") route.pattern ≡ is_actuator route.endpoint)
      routes
routes_lem = (
  refl,
  (refl, (refl, (refl, (refl, (refl, (refl, (refl, (refl, (refl, (refl, (refl, tt))))))))))),
)

-- A predicate of every route, at a route of the list.
at_route :
    (routes : List Route) (route : Route)
    → All
        (λ (route : Route).
          is_prefix (bytes "/actuator/") route.pattern ≡ is_actuator route.endpoint)
        routes
    → Mem route routes
    → is_prefix (bytes "/actuator/") route.pattern ≡ is_actuator route.endpoint
at_route [] route h m = absurd (not-mem-nil m)
at_route (first ∷ rest) route h m =
    Or.elim (Bool-set _ _) (mem-cons.0 m) (λ e. rw e h.0) (at_route rest route h.1)

exempt_actuator :
    {Bucket : Type 0} (ops : RateOps Bucket) (l : Limiter Bucket) (route : Route)
    → Mem route routes
    → is_actuator route.endpoint ≡ true
    → is_exempt ops l (full_path (some route)) ≡ true
exempt_actuator ops l route registered actuator =
    rw (at_route routes route routes_lem registered, actuator) (or_true (not l.enabled))
  where
    or_true : (b : Bool) → (b || true) ≡ true
    or_true true = refl
    or_true false = refl

module _ (env : Env) (payments : PaymentService) (refunds : RefundService) where
  run_check-status : (c : Check) (w : World) → (run_check env true c w).0.status ≢ 429
  unfolding run_check readiness ping_pool exec
  run_check-status health w = λ h. omega arith
  run_check-status liveness w = λ h. omega arith
  run_check-status app_info w = λ h. omega arith
  run_check-status ready w = elim (Option-cases (env.fault w.round_trips)) [
    | inl e ↦ rw (run_check, readiness, ping_pool, exec, e) (λ h. omega arith)
    | inr (failure, e) ↦ rw (run_check, readiness, ping_pool, exec, e) (λ h. omega arith)
  ]

  endpoint-status :
      (route : Route) (endpoint : Endpoint) (r : Request) (w : World)
      → status_of
          (dispatch env payments refunds (some (record route { endpoint = endpoint })) r w).0
        ≢ 429
  unfolding dispatch
  endpoint-status route (check c) r w = run_check-status c w
  endpoint-status route prometheus r w = λ h. omega arith
  endpoint-status route (operation op) r w = run_operation-IsServed env payments refunds op r w

  dispatch-status :
      (route : Option Route) (r : Request) (w : World)
      → status_of (dispatch env payments refunds route r w).0 ≢ 429
  unfolding dispatch
  dispatch-status none r w = λ h. omega arith
  dispatch-status (some route) r w = endpoint-status route route.endpoint r w

  -- A request is answered with the status 429 if and only if the rate limiter refuses it, and a request
  -- that is answered with 429 has changed nothing in the database and reached no gateway.
  pub serve_limited-too_many :
      {Bucket : Type 0} (ops : RateOps Bucket) (r : Request) (seen asked : Time) (s : State Bucket)
      → ((status_of (serve_limited env payments refunds ops r seen asked s).0 ≡ 429)
          ↔ ((rate_limit ops s.limiter (full_path r.route) r.client_ip seen asked).0 ≡ false))
        × ((status_of (serve_limited env payments refunds ops r seen asked s).0 ≢ 429)
            ⊎ ((serve_limited env payments refunds ops r seen asked s).1.world ≡ s.world))
  unfolding serve_limited
  serve_limited-too_many ops r seen asked s =
      elim (Bool-cases (rate_limit ops s.limiter (full_path r.route) r.client_ip seen asked).0) [
        | inl goes_on ↦
            let other_status : status_of (serve_limited env payments refunds ops r seen asked s).0
                ≢ 429 =
              rw (serve_limited, goes_on) (dispatch-status r.route r s.world) in
            ((λ h. absurd (other_status h), λ refused. cc (goes_on, refused)), inl other_status)
        | inr refused ↦ (
          (λ _. refused, λ _. rw (serve_limited, refused) refl),
          inr (rw (serve_limited, refused) refl),
        )
      ]

  probe_status :
      (w : World)
      → (run_check env true ready w).0.status
        ≡ (elim (env.fault w.round_trips) [ none ↦ 200 | some _ ↦ 503 ])
  unfolding run_check readiness ping_pool exec
  probe_status w = elim (Option-cases (env.fault w.round_trips)) [
    | inl e ↦ rw (run_check, readiness, ping_pool, exec, e) refl
    | inr (failure, e) ↦ rw (run_check, readiness, ping_pool, exec, e) refl
  ]

  ready_status :
      (route : Route)
      → route.endpoint ≡ check ready
      → (r : Request) (w : World)
      → status_of (dispatch env payments refunds (some route) r w).0
        ≡ (elim (env.fault w.round_trips) [ none ↦ 200 | some _ ↦ 503 ])
  unfolding dispatch run_check readiness ping_pool exec
  ready_status route h r w = rw h (probe_status w)

  -- Probes and metrics are never limited: whatever the limiter's table says, a request for a route
  -- under /actuator/ is answered by its handler, and the limiter's table stays as it was.
  pub serve_limited-actuator :
      {Bucket : Type 0} (ops : RateOps Bucket) (r : Request) (route : Route) (seen asked : Time)
      (s : State Bucket)
      → Mem route routes
      → is_actuator route.endpoint ≡ true
      → r.route ≡ some route
      → serve_limited env payments refunds ops r seen asked s ≡ (
        (dispatch env payments refunds (some route) r s.world).0,
        record {
          limiter = s.limiter;
          world = (dispatch env payments refunds (some route) r s.world).1;
        },
      )
  unfolding serve_limited
  serve_limited-actuator ops r route seen asked s registered actuator matched =
      rw
        (
          matched,
          rate_limit_exempt ops s.limiter (full_path (some route)) r.client_ip seen asked
              (exempt_actuator ops s.limiter route registered actuator),
        )
        refl

  -- The readiness probe tells the state of the database, however many requests came before: it is
  -- answered with 200 when the round trip of its Ping succeeds and with 503 when it fails.
  pub handle-readiness :
      {Bucket : Type 0} (ops : RateOps Bucket) (errors_text : GoError → Text) (r : Request)
      (route : Route) (start seen asked finish : Time) (s : State Bucket)
      → Mem route routes
      → route.endpoint ≡ check ready
      → r.route ≡ some route
      → (handle env payments refunds ops errors_text r start seen asked finish s).0.status
        ≡ (elim (env.fault s.world.round_trips) [ none ↦ 200 | some _ ↦ 503 ])
  unfolding handle
  handle-readiness ops errors_text r route start seen asked finish s registered is_ready matched =
      rw
        (serve_limited-actuator ops r route seen asked s registered (ap is_actuator is_ready)
          matched)
        (ready_status route is_ready r s.world)
