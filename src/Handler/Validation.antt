-- ===== src/Handler/Validation.antt =====
-- handler.go: the checks of a request before a service sees it.
use shopping_cart_payment.Prelude.{
  Bool, not, Option, none, some, negsuc, ltb_ℤ, ◌==◌, length, if◌then◌else◌,
}
use shopping_cart_payment.Text.{Text, bytes, is_blank, trim_space}
use shopping_cart_payment.Errors.{ApiError, bad_request}
use shopping_cart_payment.Decimal.{Decimal, DecimalOps, cmp_gt}
use shopping_cart_payment.Payments.Requests.{ProcessPaymentRequest}

-- dto.go, `RefundRequest`
pub record RefundRequest : Type 0 where
  pub amount : Decimal
  pub reason : Text

-- service.go, `decimalCmpPositive`
abbrev pub decimal_cmp_positive : DecimalOps → Decimal → Bool
decimal_cmp_positive ops amount = cmp_gt ops amount ops.zero

-- `amount.Exponent() < -4`
abbrev pub too_fine : Decimal → Bool
too_fine amount = ltb_ℤ amount.exponent (negsuc 3)

abbrev pub amount_invalid : ApiError
amount_invalid = bad_request (bytes "AMOUNT_INVALID") (bytes "Amount must be greater than 0")

abbrev pub amount_scale_invalid : ApiError
amount_scale_invalid =
    bad_request (bytes "AMOUNT_SCALE_INVALID") (bytes "Amount supports at most 4 decimal places")

-- `validateProcessPaymentRequest`; nil is none
unfoldable pub validate_process_payment_request :
    DecimalOps → ProcessPaymentRequest → Option ApiError
unfolding is_blank trim_space
validate_process_payment_request ops req =
    if is_blank req.order_id
    then some (bad_request (bytes "ORDER_ID_REQUIRED") (bytes "Order ID is required"))
    else if is_blank req.customer_id
    then some (bad_request (bytes "CUSTOMER_ID_REQUIRED") (bytes "Customer ID is required"))
    else if not (decimal_cmp_positive ops req.amount)
    then some amount_invalid
    else if too_fine req.amount
    then some amount_scale_invalid
    else if not (length (trim_space req.currency) == 3)
    then some (bad_request (bytes "CURRENCY_INVALID") (bytes "Currency must be 3 characters"))
    else none

-- `validateRefundRequest`
unfoldable pub validate_refund_request : DecimalOps → RefundRequest → Option ApiError
validate_refund_request ops req =
    if not (decimal_cmp_positive ops req.amount)
    then some amount_invalid
    else if too_fine req.amount
    then some amount_scale_invalid
    else none
