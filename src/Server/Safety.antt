-- ===== src/Server/Safety.antt =====
-- The tables stay safe whatever requests the server gets, in any order, between other clients and
-- sweeps of the rate limiter.
use shopping_cart_payment.Prelude.{
  ℕ, ◌≡◌, true, Option, none, some, pos, ◌≤ℤ◌, ◌<ℤ◌, int_laws, Bool-cases, Option-cases, inl, inr,
}
use shopping_cart_payment.Text.{Text, is_empty, trim_space}
use shopping_cart_payment.Errors.{Result, ok, err}
use shopping_cart_payment.Decimal.{FitsScale, Decimal, units}
use shopping_cart_payment.Model.{Uuid, Time}
use shopping_cart_payment.World.{Env, World}
use shopping_cart_payment.Store.{Store}
use shopping_cart_payment.Store.Numeric.{AmountLaws}
use shopping_cart_payment.Store.Scans.{Result-cases}
use shopping_cart_payment.Store.Transactions.{Stable}
use shopping_cart_payment.Gateway.Router.{Router}
use shopping_cart_payment.Payments.Soundness.{payments_of}
use shopping_cart_payment.Payments.Requests.{ProcessPaymentRequest}
use shopping_cart_payment.Payments.Safety.{process_payment_service-IsSafe}
use shopping_cart_payment.Refunds.Soundness.{refunds_of}
use shopping_cart_payment.Refunds.Safety.{IsSafe, process_refund_service-IsSafe}
use shopping_cart_payment.Handler
use shopping_cart_payment.Handler.{Headers, choose_key, refund_order}
use shopping_cart_payment.Handler.Validation.{
  RefundRequest, validate_process_payment_request, validate_refund_request, decimal_cmp_positive,
}
use shopping_cart_payment.Handler.Soundness.{passes_payment, passes_refund}
use shopping_cart_payment.Httpx.{RateOps, rate_limit, sweep}
use shopping_cart_payment.Server.{
  Request, Route, Endpoint, check, prometheus, operation, Operation, process_payment, get_payment,
  get_payments, get_payment_by_order, get_payments_by_customer, get_refunds_for_payment,
  refund_payment, run_operation, dispatch, serve_limited, State, full_path,
}
use shopping_cart_payment.Server.Reads.{
  get_payment-Keeps, get_payment_by_order_id-Keeps, get_payments_by_customer-Keeps,
  get_refunds_by_payment-Keeps, run_check-Keeps,
}

module _ (env : Env) (st : Store) (router : Router) {Bucket : Type 0} (ops : RateOps Bucket) where
  -- What the running server does, one step after the other: a request, a sweep of the limiter's
  -- table, a write of another client.
  pub data Step : State Bucket → State Bucket → Type 0 where
    serves :
        (r : Request) (seen asked : Time) (s : State Bucket)
        → Step s
            (serve_limited env (payments_of st router) (refunds_of st router) ops r seen asked s).1
    sweeps :
        (now : Time) (s : State Bucket) → Step s (record s { limiter = sweep ops s.limiter now })
    writes :
        (n : ℕ) (s : State Bucket)
        → Step s (record s { world = record s.world { tables = env.others n s.world.tables } })

  pub data Reach (start : State Bucket) : State Bucket → Type 0 where
    begin : Reach start start
    after : (s t : State Bucket) → Reach start s → Step s t → Reach start t

module _ (env : Env) (laws : AmountLaws env) (st : Store) (router : Router)
    (stable : Stable env (IsSafe env)) where
  not_negative :
      (amount : Decimal)
      → FitsScale amount
      → decimal_cmp_positive env.decimals amount ≡ true
      → pos 0 ≤ℤ units amount
  not_negative amount fits positive =
      let more =
        (laws.decimals.gt_iff amount env.decimals.zero fits laws.decimals.zero_fits).0 positive in
      let above : pos 0 <ℤ units amount = rw laws.decimals.units_zero at more in omega int_laws

  process_payment-IsSafe :
      (headers : Headers) (body : Result ProcessPaymentRequest) (w : World)
      → IsSafe env w.tables
      → IsSafe env
          (Handler.process_payment env
            (payments_of st router)
            (refunds_of st router)
            headers
            body
            w).1.tables
  unfolding Handler.process_payment Handler.process_valid
  process_payment-IsSafe headers (err e) w safe = safe
  process_payment-IsSafe headers (ok req) w safe =
      elim (Option-cases (validate_process_payment_request env.decimals req)) [
        | inl valid ↦
            let good = (passes_payment env.decimals req).0 valid in
            rw (Handler.process_payment, valid)
              (process_payment_service-IsSafe env laws req headers.correlation_id
                (choose_key headers req) good.3 (not_negative req.amount good.3 good.2) st router
                stable w safe)
        | inr (e, invalid) ↦ rw (Handler.process_payment, invalid) safe
      ]

  refund_bound-IsSafe :
      (headers : Headers) (id : Uuid) (body : Result RefundRequest) (w : World)
      → IsSafe env w.tables
      → IsSafe env
          (Handler.refund_bound env
            (payments_of st router)
            (refunds_of st router)
            headers
            id
            body
            w).1.tables
  unfolding Handler.refund_bound Handler.refund_valid refund_order
  refund_bound-IsSafe headers id (err e) w safe = safe
  refund_bound-IsSafe headers id (ok req) w safe =
      elim (Option-cases (validate_refund_request env.decimals req)) [
        | inl valid ↦
            rw (Handler.refund_bound, valid)
              (process_refund_service-IsSafe env laws st router
                (refund_order env (payments_of st router) (refunds_of st router) headers id req)
                ((passes_refund env.decimals req).0 valid).1 stable w safe)
        | inr (e, invalid) ↦ rw (Handler.refund_bound, invalid) safe
      ]

  get_payments-IsSafe :
      (order_query customer_query : Text) (w : World)
      → IsSafe env w.tables
      → IsSafe env
          (Handler.get_payments env
            (payments_of st router)
            (refunds_of st router)
            order_query
            customer_query
            w).1.tables
  unfolding Handler.get_payments
  get_payments-IsSafe order_query customer_query w safe =
      elim (Bool-cases (is_empty (trim_space order_query))) [
        | inr given ↦
            rw (Handler.get_payments, given)
              (get_payment_by_order_id-Keeps env stable st router _ w safe)
        | inl missing ↦ elim (Bool-cases (is_empty (trim_space customer_query))) [
          | inr given ↦
              rw (Handler.get_payments, missing, given)
                (get_payments_by_customer-Keeps env stable st router _ w safe)
          | inl missing' ↦ rw (Handler.get_payments, missing, missing') safe
        ]
      ]

  run_operation-IsSafe :
      (op : Operation) (r : Request) (w : World)
      → IsSafe env w.tables
      → IsSafe env
          (run_operation env (payments_of st router) (refunds_of st router) op r w).1.tables
  unfolding run_operation Handler.get_payment_by_order Handler.get_payments_by_customer
      Handler.get_payment Handler.get_refunds_for_payment Handler.refund_payment
  run_operation-IsSafe process_payment r w safe =
      process_payment-IsSafe r.headers r.payment_body w safe
  run_operation-IsSafe get_payment r w safe = elim (Result-cases (env.parse_uuid r.param)) [
    | inl (id, parsed) ↦
        rw (run_operation, Handler.get_payment, parsed)
          (get_payment-Keeps env stable st router id w safe)
    | inr (e, refused) ↦ rw (run_operation, Handler.get_payment, refused) safe
  ]
  run_operation-IsSafe get_payments r w safe =
      get_payments-IsSafe r.order_query r.customer_query w safe
  run_operation-IsSafe get_payment_by_order r w safe =
      get_payment_by_order_id-Keeps env stable st router _ w safe
  run_operation-IsSafe get_payments_by_customer r w safe =
      get_payments_by_customer-Keeps env stable st router _ w safe
  run_operation-IsSafe get_refunds_for_payment r w safe =
      elim (Result-cases (env.parse_uuid r.param)) [
        | inl (id, parsed) ↦
            rw (run_operation, Handler.get_refunds_for_payment, parsed)
              (get_refunds_by_payment-Keeps env stable st router id w safe)
        | inr (e, refused) ↦ rw (run_operation, Handler.get_refunds_for_payment, refused) safe
      ]
  run_operation-IsSafe refund_payment r w safe = elim (Result-cases (env.parse_uuid r.param)) [
    | inl (id, parsed) ↦
        rw (run_operation, Handler.refund_payment, parsed)
          (refund_bound-IsSafe r.headers id r.refund_body w safe)
    | inr (e, refused) ↦ rw (run_operation, Handler.refund_payment, refused) safe
  ]

  endpoint-IsSafe :
      (route : Route) (endpoint : Endpoint) (r : Request) (w : World)
      → IsSafe env w.tables
      → IsSafe env
          (dispatch env
            (payments_of st router)
            (refunds_of st router)
            (some (record route { endpoint = endpoint }))
            r
            w).1.tables
  unfolding dispatch
  endpoint-IsSafe route (check c) r w safe = run_check-Keeps env stable st router c w safe
  endpoint-IsSafe route prometheus r w safe = safe
  endpoint-IsSafe route (operation op) r w safe = run_operation-IsSafe op r w safe

  dispatch-IsSafe :
      (route : Option Route) (r : Request) (w : World)
      → IsSafe env w.tables
      → IsSafe env (dispatch env (payments_of st router) (refunds_of st router) route r w).1.tables
  unfolding dispatch
  dispatch-IsSafe none r w safe = safe
  dispatch-IsSafe (some route) r w safe = endpoint-IsSafe route route.endpoint r w safe

  module _ {Bucket : Type 0} (ops : RateOps Bucket) where
    serve_limited-IsSafe :
        (r : Request) (seen asked : Time) (s : State Bucket)
        → IsSafe env s.world.tables
        → IsSafe env
            (serve_limited env
              (payments_of st router)
              (refunds_of st router)
              ops
              r
              seen
              asked
              s).1.world.tables
    unfolding serve_limited
    serve_limited-IsSafe r seen asked s safe =
        elim (Bool-cases (rate_limit ops s.limiter (full_path r.route) r.client_ip seen asked).0) [
          | inl goes_on ↦ rw (serve_limited, goes_on) (dispatch-IsSafe r.route r s.world safe)
          | inr refused ↦ rw (serve_limited, refused) safe
        ]

    Step-IsSafe :
        (s t : State Bucket)
        → Step env st router ops s t
        → IsSafe env s.world.tables
        → IsSafe env t.world.tables
    Step-IsSafe s t (serves r seen asked _) safe = serve_limited-IsSafe r seen asked s safe
    Step-IsSafe s t (sweeps now _) safe = safe
    Step-IsSafe s t (writes n _) safe = stable n s.world.tables safe

    -- From safe tables the server reaches safe tables only, by any number of requests of any kind in
    -- any order, of sweeps, and of writes of other clients that keep the tables safe, whichever round
    -- trips to the database fail: payments have ids of their own and readable amounts, every completed
    -- refund is of a payment that is there, and the completed refunds of a payment never add up to
    -- more than its amount. Amounts of at most four decimals are stored and computed exactly
    -- (`AmountLaws`).
    pub Reach-IsSafe :
        (start s : State Bucket)
        → Reach env st router ops start s
        → IsSafe env start.world.tables
        → IsSafe env s.world.tables
    Reach-IsSafe start s begin safe = safe
    Reach-IsSafe start s (after before _ reached step) safe =
        Step-IsSafe before s step (Reach-IsSafe start before reached safe)
