-- ===== src/Tests/World.antt =====
-- A small world: exact decimals, a column that keeps what it is given, one payment that was charged,
-- the mock gateway, and nobody else at work.
use shopping_cart_payment.Prelude.{
  ℕ, ◌+◌, ◌≡◌, refl, sym, ◌∙◌, ap, subst, some-injective, true, false, some, none, [], ◌∷◌, ℤ, pos,
  pos_part, neg_part, arith,
}
use shopping_cart_payment.Text.{Text, bytes}
use shopping_cart_payment.Errors.{Result, ok, err, plain}
use shopping_cart_payment.Decimal.{Decimal, units}
use shopping_cart_payment.Decimal.Units.{
  of_units, exact, exact_laws, units-of_units, read, read-write,
}
use shopping_cart_payment.Model.{Uuid}
use shopping_cart_payment.Schema.{PaymentRow, Tables}
use shopping_cart_payment.Gateway.Providers.{PaymentGateway, mock}
use shopping_cart_payment.Gateway.Router.{Router}
use shopping_cart_payment.World.{Env, World, other_error}
use shopping_cart_payment.Store.{Store}
use shopping_cart_payment.Store.Numeric.{AmountLaws}
use shopping_cart_payment.Payments.Requests.{ProcessPaymentRequest}
use shopping_cart_payment.Refunds.{RefundOrder}

abbrev parse_one : Text → Result Uuid
parse_one (n ∷ []) = ok n
parse_one _ = err (plain (bytes "invalid UUID length"))

abbrev pub env : Env
env = record {
  dialect = record { numeric = λ t. some t; timestamp = λ t. t; pg_text = λ code. code };
  decimals = exact;
  lower_tables = λ t. t;
  upper_tables = λ t. t;
  parse_uuid = parse_one;
  uuid_text = λ id. id ∷ [];
  uuids = λ n. n + 100;
  times = λ n. n + 1000;
  is_positive = λ _. false;
  draw_below = λ _ _. false;
  fault = λ _. none;
  commit_lands = λ _. false;
  others = λ _ t. t;
  no_rows_text = bytes "no rows in result set";
  stripe = λ _ _ _. other_error;
}

pub quiet : (n : ℕ) (t : Tables) → env.others n t ≡ t
quiet n t = refl

pub never : (n : ℕ) → env.commit_lands n ≡ false
never n = refl

pub reparse : (id : Uuid) → env.parse_uuid (env.uuid_text id) ≡ ok id
reparse id = refl

pub laws : AmountLaws env
laws = record {
  decimals = exact_laws;
  stored = λ d a fits e. record {
    decimal = of_units (units d);
    reads =
        subst (λ t. read t ≡ ok (of_units (units d))) (some-injective _ _ e) (read-write (units d));
    fits = omega arith;
  };
  stored_units = λ d f a fits e reads.
      same_units (units d) f (subst (λ t. read t ≡ ok f) (sym (some-injective _ _ e)) reads);
}
  where
    unwrap : {a b : Decimal} → ok a ≡ ok b → a ≡ b
    unwrap e = cc

    same_units : (u : ℤ) (f : Decimal) → read (pos_part u ∷ neg_part u ∷ []) ≡ ok f → units f ≡ u
    same_units u f reads = ap units (unwrap (sym reads ∙ read-write u)) ∙ units-of_units u

abbrev pub store : Store
store = record { pool = true; in_tx = false }

abbrev pub gateway : PaymentGateway
gateway = mock (record { enabled = true; delay_ms = pos 0; failure_rate = 0; tokens = [] })

abbrev pub router : Router
router = record { gateways = (bytes "mock", gateway) ∷ []; default_gateway_name = bytes "mock" }

-- 10.0000, charged and completed
abbrev pub charged : PaymentRow
charged = record {
  id = 7;
  order_id = bytes "order-1";
  customer_id = bytes "customer-1";
  amount = 100000 ∷ 0 ∷ [];
  currency = bytes "USD";
  status = bytes "COMPLETED";
  gateway = bytes "mock";
  gateway_transaction_id = some (bytes "mock_txn_1");
  gateway_payment_intent_id = none;
  payment_method_id = none;
  card_last4 = none;
  card_brand = none;
  metadata = none;
  failure_reason = none;
  failure_code = none;
  created_at = 5;
  processed_at = none;
  completed_at = some 6;
  updated_at = some 6;
  correlation_id = none;
  idempotency_key = some (bytes "key-0");
}

abbrev pub tables : Tables
tables = record { payments = charged ∷ []; refunds = []; transactions = [] }

abbrev pub world : World
world = record {
  tables = tables;
  round_trips = 0;
  clock = 0;
  ids = 0;
  draws = 0;
  stripe_calls = 0;
  charges = [];
  refunds_sent = [];
}

abbrev pub empty_world : World
empty_world = record world { tables = record { payments = []; refunds = []; transactions = [] } }

-- 4.0000 back
abbrev pub order : RefundOrder
order = record {
  payment_id = 7;
  amount = of_units (pos 40000);
  reason = bytes "damaged";
  initiated_by = bytes "clerk";
  correlation_id = bytes "correlation-1";
}

abbrev pub request : ProcessPaymentRequest
request = record {
  order_id = bytes "order-2";
  customer_id = bytes "customer-1";
  amount = of_units (pos 250000);
  currency = bytes "usd";
  gateway = [];
  payment_method_id = [];
  card_number = bytes "4242424242424242";
  card_exp_month = [];
  card_exp_year = [];
  card_cvc = [];
  cardholder_name = [];
  billing_email = [];
  billing_address_line1 = [];
  billing_address_line2 = [];
  billing_city = [];
  billing_state = [];
  billing_postal_code = [];
  billing_country = [];
  idempotency_key = [];
}

abbrev pub key : Text
key = bytes "key-1"
