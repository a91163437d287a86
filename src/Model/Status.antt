-- ===== src/Model/Status.antt =====
-- The string types of model.go: their constants as constructors, any other string as `other`.
use shopping_cart_payment.Prelude.{◌≡◌, refl, Bool, true, false, if◌then◌else◌}
use shopping_cart_payment.Text.{Text, bytes, text_eq}

pub data PaymentStatus : Type 0 where
  pending processing completed failed refund_pending refunded refund_failed : PaymentStatus
  other : Text → PaymentStatus

pub data RefundStatus : Type 0 where
  pending processing completed failed : RefundStatus
  other : Text → RefundStatus

pub data TransactionType : Type 0 where
  authorization capture charge refund void chargeback : TransactionType

pub data PaymentMethodType : Type 0 where
  card bank_account paypal apple_pay google_pay : PaymentMethodType

-- `string(status)`
abbrev pub payment_status_text : PaymentStatus → Text
payment_status_text PaymentStatus.pending = bytes "PENDING"
payment_status_text PaymentStatus.processing = bytes "PROCESSING"
payment_status_text PaymentStatus.completed = bytes "COMPLETED"
payment_status_text PaymentStatus.failed = bytes "FAILED"
payment_status_text PaymentStatus.refund_pending = bytes "REFUND_PENDING"
payment_status_text PaymentStatus.refunded = bytes "REFUNDED"
payment_status_text PaymentStatus.refund_failed = bytes "REFUND_FAILED"
payment_status_text (PaymentStatus.other t) = t

-- `PaymentStatus(text)`
unfoldable pub payment_status_of : Text → PaymentStatus
unfolding text_eq
payment_status_of t =
    if text_eq t (bytes "PENDING")
    then PaymentStatus.pending
    else if text_eq t (bytes "PROCESSING")
    then PaymentStatus.processing
    else if text_eq t (bytes "COMPLETED")
    then PaymentStatus.completed
    else if text_eq t (bytes "FAILED")
    then PaymentStatus.failed
    else if text_eq t (bytes "REFUND_PENDING")
    then PaymentStatus.refund_pending
    else if text_eq t (bytes "REFUNDED")
    then PaymentStatus.refunded
    else if text_eq t (bytes "REFUND_FAILED")
    then PaymentStatus.refund_failed
    else PaymentStatus.other t

abbrev pub refund_status_text : RefundStatus → Text
refund_status_text RefundStatus.pending = bytes "PENDING"
refund_status_text RefundStatus.processing = bytes "PROCESSING"
refund_status_text RefundStatus.completed = bytes "COMPLETED"
refund_status_text RefundStatus.failed = bytes "FAILED"
refund_status_text (RefundStatus.other t) = t

unfoldable pub refund_status_of : Text → RefundStatus
unfolding text_eq
refund_status_of t =
    if text_eq t (bytes "PENDING")
    then RefundStatus.pending
    else if text_eq t (bytes "PROCESSING")
    then RefundStatus.processing
    else if text_eq t (bytes "COMPLETED")
    then RefundStatus.completed
    else if text_eq t (bytes "FAILED")
    then RefundStatus.failed
    else RefundStatus.other t

abbrev pub transaction_type_text : TransactionType → Text
transaction_type_text authorization = bytes "AUTHORIZATION"
transaction_type_text capture = bytes "CAPTURE"
transaction_type_text charge = bytes "CHARGE"
transaction_type_text refund = bytes "REFUND"
transaction_type_text void = bytes "VOID"
transaction_type_text chargeback = bytes "CHARGEBACK"

-- A status that is one of the constants.
abbrev pub IsConstant : PaymentStatus → Type 0
IsConstant (PaymentStatus.other _) = ⊥
IsConstant _ = Unit

pub payment_status_of-payment_status_text :
    (s : PaymentStatus) → IsConstant s → payment_status_of (payment_status_text s) ≡ s
unfolding payment_status_of
payment_status_of-payment_status_text PaymentStatus.pending h = refl
payment_status_of-payment_status_text PaymentStatus.processing h = refl
payment_status_of-payment_status_text PaymentStatus.completed h = refl
payment_status_of-payment_status_text PaymentStatus.failed h = refl
payment_status_of-payment_status_text PaymentStatus.refund_pending h = refl
payment_status_of-payment_status_text PaymentStatus.refunded h = refl
payment_status_of-payment_status_text PaymentStatus.refund_failed h = refl
payment_status_of-payment_status_text (PaymentStatus.other t) h = absurd h

abbrev pub IsConstantRefund : RefundStatus → Type 0
IsConstantRefund (RefundStatus.other _) = ⊥
IsConstantRefund _ = Unit

pub refund_status_of-refund_status_text :
    (s : RefundStatus) → IsConstantRefund s → refund_status_of (refund_status_text s) ≡ s
unfolding refund_status_of
refund_status_of-refund_status_text RefundStatus.pending h = refl
refund_status_of-refund_status_text RefundStatus.processing h = refl
refund_status_of-refund_status_text RefundStatus.completed h = refl
refund_status_of-refund_status_text RefundStatus.failed h = refl
refund_status_of-refund_status_text (RefundStatus.other t) h = absurd h

-- `status == PaymentStatusCompleted`
abbrev pub is_completed : PaymentStatus → Bool
is_completed PaymentStatus.completed = true
is_completed _ = false

-- `status != PaymentStatusCompleted && status != PaymentStatusRefundPending`, negated
abbrev pub is_refundable : PaymentStatus → Bool
is_refundable PaymentStatus.completed = true
is_refundable PaymentStatus.refund_pending = true
is_refundable _ = false

-- `r.Status == RefundStatusCompleted`
abbrev pub is_refunded : RefundStatus → Bool
is_refunded RefundStatus.completed = true
is_refunded _ = false
