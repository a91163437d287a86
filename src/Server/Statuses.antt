-- ===== src/Server/Statuses.antt =====
-- The statuses that the handlers answer with: never that of the rate limiter.
use shopping_cart_payment.Prelude.{◌≡◌, ◌≢◌, refl, some, Bool-cases, Option-cases, inl, inr, arith}
use shopping_cart_payment.Text.{Text, bytes, is_empty, trim_space}
use shopping_cart_payment.Errors.{
  GoError, Result, ok, err, ApiError, api_error, error_text, bad_request, sentinel,
  payment_not_found, wrapped, no_rows, pg, plain, refund_not_found, refund_not_allowed,
  refund_exceeds_remaining,
}
use shopping_cart_payment.Model.{Uuid, Payment}
use shopping_cart_payment.World.{Env, World}
use shopping_cart_payment.Store.Scans.{Result-cases}
use shopping_cart_payment.Payments.{PaymentService}
use shopping_cart_payment.Payments.Requests.{ProcessPaymentRequest}
use shopping_cart_payment.Refunds.{RefundService}
use shopping_cart_payment.Handler
use shopping_cart_payment.Handler.{
  Answer, Headers, serve, answer_of, abort_with_error, order_answer, customer_answer,
  payment_answer,
}
use shopping_cart_payment.Handler.Validation.{
  RefundRequest, validate_process_payment_request, validate_refund_request,
}
use shopping_cart_payment.Server.{
  Operation, Request, run_operation, process_payment, get_payment, get_payments,
  get_payment_by_order, get_payments_by_customer, get_refunds_for_payment, refund_payment,
}

abbrev pub IsServed : Answer → Type 0
IsServed a = a.status ≢ 429

api_error-status : (e : GoError) → (api_error e).status ≢ 429
unfolding api_error
api_error-status e = ground arith

answer_of-IsServed :
    {A : Type 0} (f : A → Answer)
    → ((a : A) → IsServed (f a))
    → (r : Result A) → IsServed (answer_of f r)
unfolding answer_of abort_with_error
answer_of-IsServed f h (ok a) = h a
answer_of-IsServed f h (err e) = api_error-status e

module _ (env : Env) (payments : PaymentService) (refunds : RefundService) where
  order_answer-IsServed : (r : Result Payment) → IsServed (order_answer env payments refunds r)
  unfolding order_answer answer_of abort_with_error
  order_answer-IsServed (ok p) = ground arith
  order_answer-IsServed (err (sentinel payment_not_found)) = ground arith
  order_answer-IsServed (err (sentinel refund_not_found)) =
      api_error-status (sentinel refund_not_found)
  order_answer-IsServed (err (sentinel refund_not_allowed)) =
      api_error-status (sentinel refund_not_allowed)
  order_answer-IsServed (err (sentinel refund_exceeds_remaining)) =
      api_error-status (sentinel refund_exceeds_remaining)
  order_answer-IsServed (err (no_rows t)) = api_error-status (no_rows t)
  order_answer-IsServed (err (pg c t)) = api_error-status (pg c t)
  order_answer-IsServed (err (plain t)) = api_error-status (plain t)
  order_answer-IsServed (err (wrapped a e b)) = api_error-status (wrapped a e b)

  abort-IsServed : (e : ApiError) → e.status ≡ 400 → IsServed (abort_with_error (some e))
  unfolding abort_with_error
  abort-IsServed e h = omega arith

  validated_payment :
      (req : ProcessPaymentRequest) (e : ApiError)
      → validate_process_payment_request env.decimals req ≡ some e
      → e.status ≡ 400
  unfolding validate_process_payment_request
  validated_payment req e h = grind arith

  validated_refund :
      (req : RefundRequest) (e : ApiError)
      → validate_refund_request env.decimals req ≡ some e
      → e.status ≡ 400
  unfolding validate_refund_request
  validated_refund req e h = grind arith

  payment_answer-IsServed : (id : Text) (p : Payment) → IsServed (payment_answer id p)
  unfolding payment_answer
  payment_answer-IsServed id p = ground arith

  process_payment-IsServed :
      (headers : Headers) (body : Result ProcessPaymentRequest) (w : World)
      → IsServed (Handler.process_payment env payments refunds headers body w).0
  unfolding Handler.process_payment Handler.process_valid
  process_payment-IsServed headers (err e) w =
      abort-IsServed (bad_request (bytes "INVALID_REQUEST") (error_text e)) refl
  process_payment-IsServed headers (ok req) w =
      elim (Option-cases (validate_process_payment_request env.decimals req)) [
        | inl valid ↦
            rw (Handler.process_payment, valid)
              (answer_of-IsServed (payment_answer headers.correlation_id)
                (payment_answer-IsServed headers.correlation_id) _)
        | inr (e, invalid) ↦
            rw (Handler.process_payment, invalid)
              (abort-IsServed e (validated_payment req e invalid))
      ]

  refund_bound-IsServed :
      (headers : Headers) (id : Uuid) (body : Result RefundRequest) (w : World)
      → IsServed (Handler.refund_bound env payments refunds headers id body w).0
  unfolding Handler.refund_bound Handler.refund_valid
  refund_bound-IsServed headers id (err e) w =
      abort-IsServed (bad_request (bytes "INVALID_REQUEST") (error_text e)) refl
  refund_bound-IsServed headers id (ok req) w =
      elim (Option-cases (validate_refund_request env.decimals req)) [
        | inl valid ↦
            rw (Handler.refund_bound, valid) (answer_of-IsServed _ (λ r. λ h. omega arith) _)
        | inr (e, invalid) ↦
            rw (Handler.refund_bound, invalid) (abort-IsServed e (validated_refund req e invalid))
      ]

  get_payments-IsServed :
      (order_query customer_query : Text) (w : World)
      → IsServed (Handler.get_payments env payments refunds order_query customer_query w).0
  unfolding Handler.get_payments customer_answer
  get_payments-IsServed order_query customer_query w =
      elim (Bool-cases (is_empty (trim_space order_query))) [
        | inr given ↦ rw (Handler.get_payments, given) (order_answer-IsServed _)
        | inl missing ↦ elim (Bool-cases (is_empty (trim_space customer_query))) [
          | inr given ↦
              rw (Handler.get_payments, missing, given)
                (answer_of-IsServed _ (λ ps h. omega arith) _)
          | inl missing' ↦ rw (Handler.get_payments, missing, missing') (abort-IsServed _ refl)
        ]
      ]

  refund_payment-IsServed :
      (headers : Headers) (param : Text) (body : Result RefundRequest) (w : World)
      → IsServed (Handler.refund_payment env payments refunds headers param body w).0
  unfolding Handler.refund_payment
  refund_payment-IsServed headers param body w = elim (Result-cases (env.parse_uuid param)) [
    | inr (e, refused) ↦ rw (Handler.refund_payment, refused) (abort-IsServed _ refl)
    | inl (id, parsed) ↦
        rw (Handler.refund_payment, parsed) (refund_bound-IsServed headers id body w)
  ]

  pub run_operation-IsServed :
      (op : Operation) (r : Request) (w : World)
      → IsServed (run_operation env payments refunds op r w).0
  unfolding run_operation Handler.get_payment Handler.get_payment_by_order
      Handler.get_payments_by_customer Handler.get_refunds_for_payment customer_answer
  run_operation-IsServed process_payment r w = process_payment-IsServed r.headers r.payment_body w
  run_operation-IsServed get_payment r w = elim (Result-cases (env.parse_uuid r.param)) [
    | inr (e, refused) ↦ rw (run_operation, Handler.get_payment, refused) (abort-IsServed _ refl)
    | inl (id, parsed) ↦
        rw (run_operation, Handler.get_payment, parsed)
          (answer_of-IsServed _ (λ p h. omega arith) _)
  ]
  run_operation-IsServed get_payments r w = get_payments-IsServed r.order_query r.customer_query w
  run_operation-IsServed get_payment_by_order r w = answer_of-IsServed _ (λ p h. omega arith) _
  run_operation-IsServed get_payments_by_customer r w = answer_of-IsServed _ (λ ps h. omega arith) _
  run_operation-IsServed get_refunds_for_payment r w =
      elim (Result-cases (env.parse_uuid r.param)) [
        | inr (e, refused) ↦
            rw (run_operation, Handler.get_refunds_for_payment, refused) (abort-IsServed _ refl)
        | inl (id, parsed) ↦
            rw (run_operation, Handler.get_refunds_for_payment, parsed)
              (answer_of-IsServed _ (λ rs h. omega arith) _)
      ]
  run_operation-IsServed refund_payment r w =
      refund_payment-IsServed r.headers r.param r.refund_body w
