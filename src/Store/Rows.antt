-- ===== src/Store/Rows.antt =====
-- store.go: the arguments of a statement from an entity, and an entity from a row.
use shopping_cart_payment.Prelude.{Option, none, some, List, [], ◌∷◌}
use shopping_cart_payment.Text.{bytes}
use shopping_cart_payment.Errors.{Result, ok, err, wrapped}
use shopping_cart_payment.Decimal.{Decimal}
use shopping_cart_payment.Model.{Payment, Refund, Transaction, Uuid, Time}
use shopping_cart_payment.Model.Status.{
  payment_status_text, payment_status_of, refund_status_text, refund_status_of,
  transaction_type_text,
}
use shopping_cart_payment.Schema.{PaymentRow, RefundRow, TransactionRow}
use shopping_cart_payment.World.{Env}

-- The field Time of a sql.NullTime
abbrev pub time_or_zero : Option Time → Time
time_or_zero none = 0
time_or_zero (some t) = t

module _ (env : Env) where
  -- The arguments of `CreatePayment`; `p.UpdatedAt.Time` is the zero time when it is not valid.
  unfoldable pub payment_args : Payment → PaymentRow
  payment_args p = record {
    id = p.id;
    order_id = p.order_id;
    customer_id = p.customer_id;
    amount = env.decimals.to_string p.amount;
    currency = p.currency;
    status = payment_status_text p.status;
    gateway = p.gateway;
    gateway_transaction_id = p.gateway_transaction_id;
    gateway_payment_intent_id = p.gateway_payment_intent_id;
    payment_method_id = p.payment_method_id;
    card_last4 = p.card_last4;
    card_brand = p.card_brand;
    metadata = p.metadata;
    failure_reason = p.failure_reason;
    failure_code = p.failure_code;
    created_at = p.created_at;
    processed_at = p.processed_at;
    completed_at = p.completed_at;
    updated_at = some (time_or_zero p.updated_at);
    correlation_id = p.correlation_id;
    idempotency_key = p.idempotency_key;
  }

  -- The arguments of `UpdatePayment`: every column but created_at, which the UPDATE leaves alone; a 0
  -- that nothing reads stands for it.
  unfoldable pub payment_update_args : Payment → PaymentRow
  unfolding payment_args
  payment_update_args p = record (payment_args p) { created_at = 0 }

  unfoldable pub refund_args : Refund → RefundRow
  refund_args r = record {
    id = r.id;
    payment_id = r.payment_id;
    amount = env.decimals.to_string r.amount;
    currency = r.currency;
    status = refund_status_text r.status;
    reason = r.reason;
    gateway_refund_id = r.gateway_refund_id;
    failure_reason = r.failure_reason;
    failure_code = r.failure_code;
    created_at = r.created_at;
    processed_at = r.processed_at;
    completed_at = r.completed_at;
    correlation_id = r.correlation_id;
    initiated_by = r.initiated_by;
  }

  unfoldable pub transaction_args : Transaction → TransactionRow
  transaction_args t = record {
    id = t.id;
    payment_id = t.payment_id;
    refund_id = t.refund_id;
    type = transaction_type_text t.type;
    amount = env.decimals.to_string t.amount;
    currency = t.currency;
    success = t.success;
    gateway_transaction_id = t.gateway_transaction_id;
    gateway_response = t.gateway_response;
    gateway_error_code = t.gateway_error_code;
    gateway_error_message = t.gateway_error_message;
    created_at = t.created_at;
    correlation_id = t.correlation_id;
    ip_address = t.ip_address;
    user_agent = t.user_agent;
  }

  abbrev pub payment_of : PaymentRow → Decimal → Option Uuid → Payment
  payment_of r amount method_id = record {
    id = r.id;
    order_id = r.order_id;
    customer_id = r.customer_id;
    amount = amount;
    currency = r.currency;
    status = payment_status_of r.status;
    gateway = r.gateway;
    gateway_transaction_id = r.gateway_transaction_id;
    gateway_payment_intent_id = r.gateway_payment_intent_id;
    payment_method_id = method_id;
    card_last4 = r.card_last4;
    card_brand = r.card_brand;
    metadata = r.metadata;
    failure_reason = r.failure_reason;
    failure_code = r.failure_code;
    created_at = r.created_at;
    processed_at = r.processed_at;
    completed_at = r.completed_at;
    updated_at = r.updated_at;
    correlation_id = r.correlation_id;
    idempotency_key = r.idempotency_key;
  }

  -- `payment_method_id::text`, parsed again
  abbrev pub method_id_of : Option Uuid → Result (Option Uuid)
  method_id_of none = ok none
  method_id_of (some id) = elim (env.parse_uuid (env.uuid_text id)) [
    | ok parsed ↦ ok (some parsed)
    | err e ↦ err (wrapped (bytes "parse payment_method_id: ") e [])
  ]

  -- `scanPaymentRow`
  unfoldable pub scan_payment_row : PaymentRow → Result Payment
  scan_payment_row r = elim (env.decimals.of_string r.amount) [
    | err e ↦ err (wrapped (bytes "parse payment amount: ") e [])
    | ok amount ↦ elim (method_id_of r.payment_method_id) [
      | err e ↦ err e
      | ok method_id ↦ ok (payment_of r amount method_id)
    ]
  ]

  abbrev pub refund_of : RefundRow → Decimal → Refund
  refund_of r amount = record {
    id = r.id;
    payment_id = r.payment_id;
    amount = amount;
    currency = r.currency;
    status = refund_status_of r.status;
    reason = r.reason;
    gateway_refund_id = r.gateway_refund_id;
    failure_reason = r.failure_reason;
    failure_code = r.failure_code;
    created_at = r.created_at;
    processed_at = r.processed_at;
    completed_at = r.completed_at;
    correlation_id = r.correlation_id;
    initiated_by = r.initiated_by;
  }

  -- `scanRefundRow`
  unfoldable pub scan_refund_row : RefundRow → Result Refund
  scan_refund_row r = elim (env.decimals.of_string r.amount) [
    | err e ↦ err (wrapped (bytes "parse refund amount: ") e [])
    | ok amount ↦ ok (refund_of r amount)
  ]

-- The loop over `rows.Next()`: the first row that does not scan ends it.
module _ {R A : Type 0} (scan : R → Result A) where
  unfoldable pub scan_rows : List R → Result (List A)
  scan_rows [] = ok []
  scan_rows (r ∷ rs) = elim (scan r) [
    | err e ↦ err e
    | ok a ↦ elim (scan_rows rs) [ err e ↦ err e | ok as_read ↦ ok (a ∷ as_read) ]
  ]

  -- `QueryRow`: the first row, or pgx.ErrNoRows
  unfoldable pub scan_first : Result A → Option R → Result A
  scan_first missing none = missing
  scan_first missing (some r) = scan r
