-- ===== src/Handler.antt =====
-- go/internal/payment/handler.go: the HTTP handlers. gin is not modelled: a handler takes the parsed
-- body, the headers and the parameters, and gives the status and the body of the answer.
pub mod Responses
pub mod Validation
pub mod Soundness
pub mod Charging
use shopping_cart_payment.Prelude.{
  ℕ, Bool, true, false, not, Option, none, some, List, [], ◌∷◌, map, if◌then◌else◌,
}
use shopping_cart_payment.Text.{Text, bytes, is_blank, is_empty, trim_space}
use shopping_cart_payment.Errors.{
  GoError, Result, ok, err, ApiError, bad_request, api_error, payment_not_found, sentinel,
  error_text,
}
use shopping_cart_payment.Decimal.{Decimal}
use shopping_cart_payment.Model.{Payment, Refund, Uuid}
use shopping_cart_payment.Model.Status.{is_completed}
use shopping_cart_payment.World.{Env, World, Action, pure, raise, lift, try, ◌>>=◌, ◌>>◌}
use shopping_cart_payment.Payments
use shopping_cart_payment.Payments.{PaymentService, process_payment_service}
use shopping_cart_payment.Payments.Requests.{ProcessPaymentRequest}
use shopping_cart_payment.Refunds
use shopping_cart_payment.Refunds.{RefundService, RefundOrder, process_refund_service}
use Responses.{PaymentResponse, RefundResponse, payment_response_from, refund_response_from}
use Validation.{RefundRequest, validate_process_payment_request, validate_refund_request}

pub data Body : Type 0 where
  error_body : (code message : Text) → Body
  payment_body : PaymentResponse → Body
  payments_body : List PaymentResponse → Body
  refund_body : RefundResponse → Body
  refunds_body : List RefundResponse → Body

-- The answer, with the X-Correlation-ID header and the error handed to the logger, if any.
pub record Answer : Type 0 where
  pub status : ℕ
  pub body : Body
  pub correlation_id : Option Text
  pub logged : Option GoError

-- The headers that the handlers read, empty where missing.
pub record Headers : Type 0 where
  pub correlation_id : Text
  pub x_idempotency_key : Text
  pub idempotency_key : Text
  pub user_id : Text

abbrev pub reply : ℕ → Body → Answer
reply status body = record { status = status; body = body; correlation_id = none; logged = none }

-- `abortWithError`
unfoldable pub abort_with_error : Option ApiError → Answer
abort_with_error none =
    reply 500 (error_body (bytes "INTERNAL_SERVER_ERROR") (bytes "unknown error"))
abort_with_error (some e) = record {
  status = e.status;
  body = error_body e.code e.message;
  correlation_id = none;
  logged = e.cause;
}

-- The result of a service: its error through `APIErrorFromErr`.
unfoldable pub answer_of : {A : Type 0} → (A → Answer) → Result A → Answer
unfolding abort_with_error api_error
answer_of f (ok a) = f a
answer_of f (err e) = abort_with_error (some (api_error e))

abbrev pub serve : {A : Type 0} → Action A → (Result A → Answer) → World → Answer × World
serve m f w = let (r, w') = m w in (f r, w')

-- The idempotency key: the first of the two headers that is not blank, else the body's.
unfoldable pub choose_key : Headers → ProcessPaymentRequest → Text
unfolding is_blank
choose_key headers req =
    if not (is_blank headers.x_idempotency_key)
    then headers.x_idempotency_key
    else if not (is_blank headers.idempotency_key)
    then headers.idempotency_key
    else req.idempotency_key

unfoldable pub payment_answer : (correlation_id : Text) → Payment → Answer
unfolding payment_response_from is_blank
payment_answer correlation_id p = record {
  status = if is_completed p.status then 201 else 202;
  body = payment_body (payment_response_from p);
  correlation_id = if is_blank correlation_id then none else some correlation_id;
  logged = none;
}

abbrev invalid_payment_id : ApiError
invalid_payment_id = bad_request (bytes "INVALID_PAYMENT_ID") (bytes "paymentId must be a UUID")

module _ (env : Env) (payments : PaymentService) (refunds : RefundService) where
  unfoldable pub process_valid : Headers → ProcessPaymentRequest → World → Answer × World
  process_valid headers req =
      serve
        (process_payment_service env payments req headers.correlation_id (choose_key headers req))
        (answer_of (payment_answer headers.correlation_id))

  -- `processPayment`; the argument is what ShouldBindJSON gave.
  unfoldable pub process_payment : Headers → Result ProcessPaymentRequest → World → Answer × World
  process_payment headers (err e) w =
      (abort_with_error (some (bad_request (bytes "INVALID_REQUEST") (error_text e))), w)
  process_payment headers (ok req) w = elim (validate_process_payment_request env.decimals req) [
    | some e ↦ (abort_with_error (some e), w)
    | none ↦ process_valid headers req w
  ]

  -- `getPayment`
  unfoldable pub get_payment : (param : Text) → World → Answer × World
  get_payment param w = elim (env.parse_uuid param) [
    | err _ ↦ (abort_with_error (some invalid_payment_id), w)
    | ok id ↦
        serve (Payments.get_payment env payments id)
          (answer_of (λ p. reply 200 (payment_body (payment_response_from p)))) w
  ]

  -- The answer to a search by order: no payment is an empty list.
  unfoldable pub order_answer : Result Payment → Answer
  order_answer (err (sentinel payment_not_found)) = reply 200 (payments_body [])
  order_answer r = answer_of (λ p. reply 200 (payments_body (payment_response_from p ∷ []))) r

  unfoldable pub customer_answer : Result (List Payment) → Answer
  customer_answer = answer_of (λ ps. reply 200 (payments_body (map payment_response_from ps)))

  -- `getPayments`
  unfoldable pub get_payments : (order_query customer_query : Text) → World → Answer × World
  get_payments order_query customer_query w =
      let order_id = trim_space order_query in
      let customer_id = trim_space customer_query in
      if not (is_empty order_id)
      then serve (Payments.get_payment_by_order_id env payments order_id) order_answer w
      else if not (is_empty customer_id)
      then serve (Payments.get_payments_by_customer env payments customer_id) customer_answer w
      else (
        abort_with_error (
            some (
              bad_request (bytes "MISSING_QUERY_PARAMS")
                (bytes "orderId or customerId is required"))),
        w,
      )

  -- `getPaymentByOrder`
  unfoldable pub get_payment_by_order : (param : Text) → World → Answer × World
  get_payment_by_order param =
      serve (Payments.get_payment_by_order_id env payments (trim_space param))
        (answer_of (λ p. reply 200 (payment_body (payment_response_from p))))

  -- `getPaymentsByCustomer`
  unfoldable pub get_payments_by_customer : (param : Text) → World → Answer × World
  get_payments_by_customer param =
      serve (Payments.get_payments_by_customer env payments (trim_space param)) customer_answer

  -- `getRefundsForPayment`
  unfoldable pub get_refunds_for_payment : (param : Text) → World → Answer × World
  get_refunds_for_payment param w = elim (env.parse_uuid param) [
    | err _ ↦ (abort_with_error (some invalid_payment_id), w)
    | ok id ↦
        serve (Refunds.get_refunds_by_payment env refunds id)
          (answer_of (λ rs. reply 200 (refunds_body (map refund_response_from rs)))) w
  ]

  unfoldable pub refund_order : Headers → Uuid → RefundRequest → RefundOrder
  refund_order headers id req = record {
    payment_id = id;
    amount = req.amount;
    reason = req.reason;
    initiated_by = headers.user_id;
    correlation_id = headers.correlation_id;
  }

  unfoldable pub refund_valid : Headers → Uuid → RefundRequest → World → Answer × World
  refund_valid headers id req =
      serve (process_refund_service env refunds (refund_order headers id req))
        (answer_of (λ r. reply 200 (refund_body (refund_response_from r))))

  unfoldable pub refund_bound : Headers → Uuid → Result RefundRequest → World → Answer × World
  refund_bound headers id (err e) w =
      (abort_with_error (some (bad_request (bytes "INVALID_REQUEST") (error_text e))), w)
  refund_bound headers id (ok req) w = elim (validate_refund_request env.decimals req) [
    | some e ↦ (abort_with_error (some e), w)
    | none ↦ refund_valid headers id req w
  ]

  -- `refundPayment`
  unfoldable pub refund_payment :
      Headers → (param : Text) → Result RefundRequest → World → Answer × World
  refund_payment headers param body w = elim (env.parse_uuid param) [
    | err _ ↦ (abort_with_error (some invalid_payment_id), w)
    | ok id ↦ refund_bound headers id body w
  ]
