-- ===== src/Payments/Requests.antt =====
-- dto.go and service.go: the request of a payment, and the entity and the gateway's request that
-- `ProcessPayment` makes of it.
use shopping_cart_payment.Prelude.{Option, none, some, [], if◌then◌else◌}
use shopping_cart_payment.Text.{Text, trim_space, is_empty, to_upper}
use shopping_cart_payment.Errors.{ok, err}
use shopping_cart_payment.Decimal.{Decimal}
use shopping_cart_payment.Model.{Payment, Uuid, Time}
use shopping_cart_payment.Model.Status.{PaymentStatus}
use shopping_cart_payment.Gateway.Dto.{PaymentRequest}
use shopping_cart_payment.World.{Env}

pub record ProcessPaymentRequest : Type 0 where
  pub order_id : Text
  pub customer_id : Text
  pub amount : Decimal
  pub currency : Text
  pub gateway : Text
  pub payment_method_id : Text
  pub card_number : Text
  pub card_exp_month : Text
  pub card_exp_year : Text
  pub card_cvc : Text
  pub cardholder_name : Text
  pub billing_email : Text
  pub billing_address_line1 : Text
  pub billing_address_line2 : Text
  pub billing_city : Text
  pub billing_state : Text
  pub billing_postal_code : Text
  pub billing_country : Text
  pub idempotency_key : Text

abbrev null_if_empty : Text → Option Text
null_if_empty t = if is_empty t then none else some t

-- `nullString`
unfoldable pub null_string : Text → Option Text
unfolding trim_space
null_string value = null_if_empty (trim_space value)

module _ (env : Env) where
  -- `strings.ToUpper(strings.TrimSpace(req.Currency))`
  unfoldable pub currency_of : ProcessPaymentRequest → Text
  unfolding to_upper trim_space
  currency_of req = to_upper env.upper_tables (trim_space req.currency)

  -- `uuid.Parse(strings.TrimSpace(req.PaymentMethodID))`; what is no UUID is dropped.
  unfoldable pub method_id_of : ProcessPaymentRequest → Option Uuid
  unfolding trim_space
  method_id_of req = elim (env.parse_uuid (trim_space req.payment_method_id)) [
    | ok id ↦ some id
    | err _ ↦ none
  ]

  unfoldable pub new_payment :
      ProcessPaymentRequest → (gateway correlation_id key : Text) → Uuid → Time → Payment
  unfolding currency_of method_id_of null_string
  new_payment req gateway correlation_id key id time = record {
    id = id;
    order_id = req.order_id;
    customer_id = req.customer_id;
    amount = req.amount;
    currency = currency_of req;
    status = PaymentStatus.pending;
    gateway = gateway;
    gateway_transaction_id = none;
    gateway_payment_intent_id = none;
    payment_method_id = method_id_of req;
    card_last4 = none;
    card_brand = none;
    metadata = none;
    failure_reason = none;
    failure_code = none;
    created_at = time;
    processed_at = none;
    completed_at = none;
    updated_at = some time;
    correlation_id = null_string correlation_id;
    idempotency_key = null_string key;
  }

  unfoldable pub gateway_request :
      ProcessPaymentRequest → (correlation_id key : Text) → PaymentRequest
  unfolding currency_of
  gateway_request req correlation_id key = record {
    order_id = req.order_id;
    customer_id = req.customer_id;
    amount = req.amount;
    currency = currency_of req;
    payment_method_token = req.payment_method_id;
    card_number = req.card_number;
    card_exp_month = req.card_exp_month;
    card_exp_year = req.card_exp_year;
    card_cvc = req.card_cvc;
    cardholder_name = req.cardholder_name;
    billing_email = req.billing_email;
    billing_address_line1 = req.billing_address_line1;
    billing_address_line2 = req.billing_address_line2;
    billing_city = req.billing_city;
    billing_state = req.billing_state;
    billing_postal_code = req.billing_postal_code;
    billing_country = req.billing_country;
    description = [];
    idempotency_key = key;
    correlation_id = correlation_id;
  }
