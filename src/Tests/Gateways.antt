-- ===== src/Tests/Gateways.antt =====
-- Gateway: what Stripe is asked for at 10.0050, and a refund of the mock.
use shopping_cart_payment.Prelude.{
  ℕ, ◌*◌, ◌+◌, ◌%◌, ◌≤◌, ◌<◌, ◌≡◌, ◌↔◌, refl, true, [], ◌∷◌, ◌++◌, pos, arith,
}
use shopping_cart_payment.Text.{bytes}
use shopping_cart_payment.Decimal.Laws.{ShiftLaws}
use shopping_cart_payment.Decimal.Units.{of_units, units-of_units}
use shopping_cart_payment.World.{pure, ◌>>=◌, new_uuid}
use shopping_cart_payment.Gateway.Dto.{PaymentRequest, RefundRequest, RefundResult}
use shopping_cart_payment.Gateway.Providers.{
  MockGateway, mock, stripe_params, process_refund, mock_process_refund, mock_refunds, should_fail,
  short_id,
}
use shopping_cart_payment.Gateway.Amounts.{stripe_params-amount}
use shopping_cart_payment.Gateway.Refunding.{process_refund-success}
use shopping_cart_payment.Tests.World.{env, gateway, world}

shift_laws : ShiftLaws env.decimals
shift_laws = record { shift_int_part_units = λ d n k fits value. rw value refl }

abbrev request : PaymentRequest
request = record {
  order_id = bytes "order-2";
  customer_id = bytes "customer-1";
  amount = of_units (pos 100050);
  currency = bytes "usd";
  payment_method_token = bytes "pm_card_visa";
  card_number = [];
  card_exp_month = [];
  card_exp_year = [];
  card_cvc = [];
  cardholder_name = [];
  billing_email = [];
  billing_address_line1 = [];
  billing_address_line2 = [];
  billing_city = [];
  billing_state = [];
  billing_postal_code = [];
  billing_country = [];
  description = [];
  idempotency_key = [];
  correlation_id = [];
}

stripe_params-amount_example :
    (c : ℕ) × ((stripe_params env request).amount ≡ pos c)
    × (c * 100 ≤ 100050)
    × (100050 < c * 100 + 100)
    × ((c * 100 ≡ 100050) ↔ (100050 % 100 ≡ 0))
stripe_params-amount_example =
    stripe_params-amount env shift_laws request 100050 (omega arith) (units-of_units (pos 100050))
      (omega arith)

abbrev refund : RefundRequest
refund = record {
  payment_transaction_id = bytes "mock_txn_1";
  payment_intent_id = [];
  amount = of_units (pos 40000);
  currency = bytes "USD";
  reason = [];
  idempotency_key = [];
  correlation_id = [];
}

abbrev result : RefundResult
result = record {
  success = true;
  refund_id = bytes "mock_re_" ++ 100 ∷ [];
  status = bytes "completed";
  error_code = [];
  error_message = [];
  raw_response = [];
}

process_refund-success_example : (m : MockGateway) × (gateway ≡ mock m)
unfolding process_refund mock_process_refund should_fail mock_refunds short_id pure new_uuid ◌>>=◌
process_refund-success_example = process_refund-success env gateway refund world result refl refl
