-- ===== src/Errors.antt =====
-- go/internal/payment/errors.go: errors as values, and the API errors that they become.
use shopping_cart_payment.Prelude.{ℕ, Bool, true, false, Option, none, some, ◌++◌, if◌then◌else◌}
use shopping_cart_payment.Text.{Text, bytes, contains}

-- The package's error variables, `ErrPaymentNotFound` and so on.
pub data Sentinel : Type 0 where
  payment_not_found refund_not_found refund_not_allowed refund_exceeds_remaining : Sentinel

-- A Go `error`. `no_rows` is pgx.ErrNoRows and `pg` a *pgconn.PgError, both with their text;
-- `wrapped` is what fmt.Errorf makes of a format with one %w; `plain` is any other error.
pub data GoError : Type 0 where
  sentinel : Sentinel → GoError
  no_rows : (text : Text) → GoError
  pg : (code text : Text) → GoError
  plain : (text : Text) → GoError
  wrapped : (before : Text) → GoError → (after : Text) → GoError

pub data Result {ℓ} (A : Type ℓ) : Type ℓ where
  ok : A → Result A
  err : GoError → Result A

abbrev pub sentinel_text : Sentinel → Text
sentinel_text payment_not_found = bytes "payment not found"
sentinel_text refund_not_found = bytes "refund not found"
sentinel_text refund_not_allowed = bytes "refund not allowed"
sentinel_text refund_exceeds_remaining = bytes "refund amount exceeds remaining refundable amount"

-- `err.Error()`
unfoldable pub error_text : GoError → Text
error_text (sentinel s) = sentinel_text s
error_text (no_rows t) = t
error_text (pg _ t) = t
error_text (plain t) = t
error_text (wrapped before e after) = before ++ (error_text e ++ after)

abbrev same_sentinel : Sentinel → Sentinel → Bool
same_sentinel payment_not_found payment_not_found = true
same_sentinel refund_not_found refund_not_found = true
same_sentinel refund_not_allowed refund_not_allowed = true
same_sentinel refund_exceeds_remaining refund_exceeds_remaining = true
same_sentinel _ _ = false

-- `errors.Is(err, s)` for the package's own variables
unfoldable pub errors_is : GoError → Sentinel → Bool
errors_is (sentinel t) s = same_sentinel t s
errors_is (no_rows _) s = false
errors_is (pg _ _) s = false
errors_is (plain _) s = false
errors_is (wrapped _ e _) s = errors_is e s

-- `errors.Is(err, pgx.ErrNoRows)`
unfoldable pub is_no_rows : GoError → Bool
is_no_rows (sentinel _) = false
is_no_rows (no_rows _) = true
is_no_rows (pg _ _) = false
is_no_rows (plain _) = false
is_no_rows (wrapped _ e _) = is_no_rows e

pub record ApiError : Type 0 where
  pub status : ℕ
  pub code : Text
  pub message : Text
  pub cause : Option GoError

-- The three constructors of errors.go.
abbrev pub bad_request : Text → Text → ApiError
bad_request code message = record { status = 400; code = code; message = message; cause = none }

abbrev pub not_found : Text → Text → ApiError
not_found code message = record { status = 404; code = code; message = message; cause = none }

abbrev pub conflict : Text → Text → ApiError
conflict code message = record { status = 409; code = code; message = message; cause = none }

abbrev pub internal_error : GoError → ApiError
internal_error e = record {
  status = 500;
  code = bytes "INTERNAL_SERVER_ERROR";
  message = bytes "An internal error occurred";
  cause = some e;
}

-- `APIErrorFromErr` of an error that is not nil
unfoldable pub api_error : GoError → ApiError
api_error e =
    if errors_is e payment_not_found
    then not_found (bytes "PAYMENT_NOT_FOUND") (error_text e)
    else if errors_is e refund_not_found
    then not_found (bytes "REFUND_NOT_FOUND") (error_text e)
    else if errors_is e refund_not_allowed
    then bad_request (bytes "REFUND_NOT_ALLOWED") (error_text e)
    else if errors_is e refund_exceeds_remaining
    then bad_request (bytes "REFUND_AMOUNT_TOO_LARGE") (error_text e)
    else if contains (error_text e) (bytes "unknown gateway")
    then bad_request (bytes "GATEWAY_UNKNOWN") (error_text e)
    else if contains (error_text e) (bytes "gateway is not enabled")
    then bad_request (bytes "GATEWAY_NOT_ENABLED") (error_text e)
    else internal_error e

-- `APIErrorFromErr`: nil stays nil.
unfoldable pub api_error_from_err : Option GoError → Option ApiError
unfolding api_error
api_error_from_err none = none
api_error_from_err (some e) = some (api_error e)
