-- ===== src/Handler/Responses.antt =====
-- dto.go: the bodies of the answers, before encoding/json.
use shopping_cart_payment.Prelude.{Option}
use shopping_cart_payment.Text.{Text}
use shopping_cart_payment.Decimal.{Decimal}
use shopping_cart_payment.Model.{Payment, Refund, Uuid, Time}
use shopping_cart_payment.Model.Status.{PaymentStatus, RefundStatus}

-- A time is answered as the text of its instant in RFC 3339; here it is the instant.
pub record PaymentResponse : Type 0 where
  pub id : Uuid
  pub order_id : Text
  pub customer_id : Text
  pub amount : Decimal
  pub currency : Text
  pub status : PaymentStatus
  pub gateway : Text
  pub gateway_transaction_id : Option Text
  pub card_last4 : Option Text
  pub card_brand : Option Text
  pub failure_reason : Option Text
  pub created_at : Time
  pub completed_at : Option Time

pub record RefundResponse : Type 0 where
  pub id : Uuid
  pub payment_id : Uuid
  pub amount : Decimal
  pub currency : Text
  pub status : RefundStatus
  pub reason : Option Text

-- `PaymentResponseFrom`
unfoldable pub payment_response_from : Payment → PaymentResponse
payment_response_from p = record {
  id = p.id;
  order_id = p.order_id;
  customer_id = p.customer_id;
  amount = p.amount;
  currency = p.currency;
  status = p.status;
  gateway = p.gateway;
  gateway_transaction_id = p.gateway_transaction_id;
  card_last4 = p.card_last4;
  card_brand = p.card_brand;
  failure_reason = p.failure_reason;
  created_at = p.created_at;
  completed_at = p.completed_at;
}

-- `RefundResponseFrom`
unfoldable pub refund_response_from : Refund → RefundResponse
refund_response_from r = record {
  id = r.id;
  payment_id = r.payment_id;
  amount = r.amount;
  currency = r.currency;
  status = r.status;
  reason = r.reason;
}
