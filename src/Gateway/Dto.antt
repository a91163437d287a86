-- ===== src/Gateway/Dto.antt =====
-- go/internal/gateway/dto.go: requests to a gateway and its results.
use shopping_cart_payment.Prelude.{Bool, false, []}
use shopping_cart_payment.Text.{Text, bytes}
use shopping_cart_payment.Decimal.{Decimal}

pub record PaymentRequest : Type 0 where
  pub order_id : Text
  pub customer_id : Text
  pub amount : Decimal
  pub currency : Text
  pub payment_method_token : Text
  pub card_number : Text
  pub card_exp_month : Text
  pub card_exp_year : Text
  pub card_cvc : Text
  pub cardholder_name : Text
  pub billing_email : Text
  pub billing_address_line1 : Text
  pub billing_address_line2 : Text
  pub billing_city : Text
  pub billing_state : Text
  pub billing_postal_code : Text
  pub billing_country : Text
  pub description : Text
  pub idempotency_key : Text
  pub correlation_id : Text

pub record PaymentResult : Type 0 where
  pub success : Bool
  pub transaction_id : Text
  pub payment_intent_id : Text
  pub status : Text
  pub card_last4 : Text
  pub card_brand : Text
  pub error_code : Text
  pub error_message : Text
  pub raw_response : Text

pub record RefundRequest : Type 0 where
  pub payment_transaction_id : Text
  pub payment_intent_id : Text
  pub amount : Decimal
  pub currency : Text
  pub reason : Text
  pub idempotency_key : Text
  pub correlation_id : Text

pub record RefundResult : Type 0 where
  pub success : Bool
  pub refund_id : Text
  pub status : Text
  pub error_code : Text
  pub error_message : Text
  pub raw_response : Text

pub record TokenizeRequest : Type 0 where
  pub customer_id : Text
  pub card_number : Text
  pub card_exp_month : Text
  pub card_exp_year : Text
  pub card_cvc : Text
  pub cardholder_name : Text
  pub billing_email : Text
  pub billing_address_line1 : Text
  pub billing_city : Text
  pub billing_state : Text
  pub billing_postal_code : Text
  pub billing_country : Text

pub record TokenizeResult : Type 0 where
  pub success : Bool
  pub token : Text
  pub last4 : Text
  pub brand : Text
  pub exp_month : Text
  pub exp_year : Text
  pub error_code : Text
  pub error_message : Text

-- mock.go, `PaymentResultFailure`
unfoldable pub payment_result_failure : (code text : Text) → PaymentResult
payment_result_failure code text = record {
  success = false;
  transaction_id = [];
  payment_intent_id = [];
  status = bytes "failed";
  card_last4 = [];
  card_brand = [];
  error_code = code;
  error_message = text;
  raw_response = [];
}

-- mock.go, `RefundResultFailure`
unfoldable pub refund_result_failure : (code text : Text) → RefundResult
refund_result_failure code text = record {
  success = false;
  refund_id = [];
  status = bytes "failed";
  error_code = code;
  error_message = text;
  raw_response = [];
}

-- mock.go, `TokenizeResultFailure`
unfoldable pub tokenize_result_failure : (code text : Text) → TokenizeResult
tokenize_result_failure code text = record {
  success = false;
  token = [];
  last4 = [];
  brand = [];
  exp_month = [];
  exp_year = [];
  error_code = code;
  error_message = text;
}
