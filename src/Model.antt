-- ===== src/Model.antt =====
-- go/internal/payment/model.go: the entities. A sql.NullString, NullTime or NullUUID is an Option;
-- a uuid.UUID is the number of its 128 bits, a time.Time its nanoseconds, with 0 for the zero time.
pub mod Status
use shopping_cart_payment.Prelude.{ℕ, Bool, Option}
use shopping_cart_payment.Text.{Text}
use shopping_cart_payment.Decimal.{Decimal}
use Status.{PaymentStatus, RefundStatus, TransactionType, PaymentMethodType}

abbrev pub Uuid : Type 0
Uuid = ℕ

abbrev pub Time : Type 0
Time = ℕ

pub record Payment : Type 0 where
  pub id : Uuid
  pub order_id : Text
  pub customer_id : Text
  pub amount : Decimal
  pub currency : Text
  pub status : PaymentStatus
  pub gateway : Text
  pub gateway_transaction_id : Option Text
  pub gateway_payment_intent_id : Option Text
  pub payment_method_id : Option Uuid
  pub card_last4 : Option Text
  pub card_brand : Option Text
  pub metadata : Option Text
  pub failure_reason : Option Text
  pub failure_code : Option Text
  pub created_at : Time
  pub processed_at : Option Time
  pub completed_at : Option Time
  pub updated_at : Option Time
  pub correlation_id : Option Text
  pub idempotency_key : Option Text

pub record Refund : Type 0 where
  pub id : Uuid
  pub payment_id : Uuid
  pub amount : Decimal
  pub currency : Text
  pub status : RefundStatus
  pub reason : Option Text
  pub gateway_refund_id : Option Text
  pub failure_reason : Option Text
  pub failure_code : Option Text
  pub created_at : Time
  pub processed_at : Option Time
  pub completed_at : Option Time
  pub correlation_id : Option Text
  pub initiated_by : Option Text

pub record Transaction : Type 0 where
  pub id : Uuid
  pub payment_id : Uuid
  pub refund_id : Option Uuid
  pub type : TransactionType
  pub amount : Decimal
  pub currency : Text
  pub success : Bool
  pub gateway_transaction_id : Option Text
  pub gateway_response : Option Text
  pub gateway_error_code : Option Text
  pub gateway_error_message : Option Text
  pub created_at : Time
  pub correlation_id : Option Text
  pub ip_address : Option Text
  pub user_agent : Option Text

-- Declared in model.go; no other code reads or writes it.
pub record PaymentMethod : Type 0 where
  pub id : Uuid
  pub customer_id : Text
  pub method_type : PaymentMethodType
  pub gateway : Text
  pub gateway_token : Text
  pub card_last4 : Option Text
  pub card_brand : Option Text
  pub card_exp_month : Option Text
  pub card_exp_year : Option Text
  pub cardholder_name_encrypted : Option Text
  pub billing_email : Option Text
  pub billing_address_encrypted : Option Text
  pub expiry_encrypted : Option Text
  pub is_default : Bool
  pub is_active : Bool
  pub metadata : Option Text
  pub created_at : Time
  pub updated_at : Option Time
  pub last_used_at : Option Time
