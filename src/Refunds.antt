-- ===== src/Refunds.antt =====
-- go/internal/payment/refund.go: the refund service.
pub mod Ledger
pub mod Owners
pub mod Sums
pub mod Pending
pub mod Locking
pub mod Refinement
pub mod Service
pub mod Soundness
pub mod Safety
pub mod Totals
pub mod Replay
use shopping_cart_payment.Prelude.{
  ℕ, Bool, true, false, not, Option, none, some, List, [], ◌∷◌, if◌then◌else◌,
}
use shopping_cart_payment.Text.{Text, is_blank}
use shopping_cart_payment.Errors.{
  GoError, Result, ok, err, sentinel, payment_not_found, refund_not_found, refund_not_allowed,
  refund_exceeds_remaining, is_no_rows,
}
use shopping_cart_payment.Decimal.{Decimal, DecimalOps, cmp_gt, cmp_ge}
use shopping_cart_payment.Model.{Payment, Refund, Transaction, Uuid, Time}
use shopping_cart_payment.Model.Status.{
  PaymentStatus, RefundStatus, TransactionType, is_refundable, is_refunded,
}
use shopping_cart_payment.Gateway.Dto.{RefundRequest, RefundResult}
use shopping_cart_payment.Gateway.Providers.{PaymentGateway, process_refund}
use shopping_cart_payment.Gateway.Router.{Router, get_gateway}
use shopping_cart_payment.World.{
  Env, World, Action, pure, raise, lift, try, ◌>>=◌, ◌>>◌, now, new_uuid,
}
use shopping_cart_payment.Store.{PaymentStore}
use shopping_cart_payment.Store.Backend.{Backend, methods, with_tx}
use shopping_cart_payment.Payments.Requests.{null_string}

pub record RefundService : Type 0 where
  pub store : Backend
  pub router : Router

-- What the caller asks for.
pub record RefundOrder : Type 0 where
  pub payment_id : Uuid
  pub amount : Decimal
  pub reason : Text
  pub initiated_by : Text
  pub correlation_id : Text

unfoldable pub found_or_none : Result Refund → Action (Option Refund)
found_or_none (ok r) = pure (some r)
found_or_none (err e) = if is_no_rows e then pure none else raise e

-- The lookup that opens `ProcessRefund`.
unfoldable pub existing_refund : PaymentStore → Text → Action (Option Refund)
existing_refund store correlation_id =
    if is_blank correlation_id
    then pure none
    else (do found ← try (store.get_refund_by_correlation_id correlation_id); found_or_none found)

unfoldable pub require_refundable : PaymentStatus → Action (Unit {0})
require_refundable status =
    if is_refundable status then pure tt else raise (sentinel refund_not_allowed)

-- The loop that adds up the refunds that are completed.
unfoldable pub total_refunded : DecimalOps → Decimal → List Refund → Decimal
total_refunded ops total [] = total
total_refunded ops total (r ∷ rs) =
    total_refunded ops (if is_refunded r.status then ops.add total r.amount else total) rs

unfoldable pub new_refund : RefundOrder → (currency : Text) → Uuid → Time → Refund
new_refund order currency id time = record {
  id = id;
  payment_id = order.payment_id;
  amount = order.amount;
  currency = currency;
  status = RefundStatus.pending;
  reason = null_string order.reason;
  gateway_refund_id = none;
  failure_reason = none;
  failure_code = none;
  created_at = time;
  processed_at = none;
  completed_at = none;
  correlation_id = null_string order.correlation_id;
  initiated_by = null_string order.initiated_by;
}

-- `ns.String`, empty for NULL
abbrev pub string_of : Option Text → Text
string_of none = []
string_of (some t) = t

unfoldable pub gateway_refund_request : RefundOrder → Payment → RefundRequest
gateway_refund_request order locked = record {
  payment_transaction_id = string_of locked.gateway_transaction_id;
  payment_intent_id = string_of locked.gateway_payment_intent_id;
  amount = order.amount;
  currency = locked.currency;
  reason = order.reason;
  idempotency_key = [];
  correlation_id = order.correlation_id;
}

-- `gatewayImpl.ProcessRefund(gatewayRequest)`, noted in the world.
unfoldable pub send_refund : Env → PaymentGateway → RefundRequest → Action RefundResult
send_refund env g request = do
  result ← process_refund env g request
  λ w. (ok result, record w { refunds_sent = (request, result) ∷ w.refunds_sent })

unfoldable pub refund_transaction :
    (id refund_id : Uuid) → RefundOrder → (currency : Text) → RefundResult → Time → Transaction
refund_transaction id refund_id order currency result time = record {
  id = id;
  payment_id = order.payment_id;
  refund_id = some refund_id;
  type = TransactionType.refund;
  amount = order.amount;
  currency = currency;
  success = result.success;
  gateway_transaction_id = null_string result.refund_id;
  gateway_response = null_string result.raw_response;
  gateway_error_code = null_string result.error_code;
  gateway_error_message = null_string result.error_message;
  created_at = time;
  correlation_id = null_string order.correlation_id;
  ip_address = none;
  user_agent = none;
}

-- What the gateway's result makes of the refund and of the payment's status.
unfoldable pub settle_refund : RefundResult → Time → Refund → Refund
settle_refund result time r =
    if result.success
    then record r {
      status = RefundStatus.completed;
      gateway_refund_id = null_string result.refund_id;
      completed_at = some time;
      failure_reason = none;
      failure_code = none;
    }
    else record r {
      status = RefundStatus.failed;
      failure_code = null_string result.error_code;
      failure_reason = null_string result.error_message;
    }

unfoldable pub settled_status :
    DecimalOps → RefundResult → (amount remaining : Decimal) → PaymentStatus
settled_status ops result amount remaining =
    if result.success
    then (if cmp_ge ops amount remaining then PaymentStatus.refunded else PaymentStatus.completed)
    else PaymentStatus.refund_failed

-- `time.Now()` is read only on success.
unfoldable pub completion_time : Env → RefundResult → Time → Action Time
completion_time env result time = if result.success then now env else pure time

module _ (env : Env) where
  -- The part of `persist` that only reads: the locked payment, and what of it can be refunded.
  unfoldable pub lock_and_check : PaymentStore → RefundOrder → Action (Payment × Decimal)
  lock_and_check store order = do
    locked ← store.get_payment_for_update order.payment_id
    require_refundable locked.status
    existing ← store.get_refunds_by_payment order.payment_id
    let remaining =
        env.decimals.sub locked.amount (total_refunded env.decimals env.decimals.zero existing)
    if cmp_gt env.decimals order.amount remaining
        then raise (sentinel refund_exceeds_remaining)
        else pure (locked, remaining)

  -- The part of `persist` that writes; `currency` is that of the payment read before.
  unfoldable pub refund_locked :
      PaymentStore
      → PaymentGateway
      → RefundOrder
      → (currency : Text) → Refund
      → Payment
      → Decimal
      → Action Refund
  refund_locked store g order currency refund locked remaining = do
    created ← store.create_refund refund
    waiting ← store.update_payment (record locked { status = PaymentStatus.refund_pending })
    started ← now env
    processing ←
        store.update_refund
          (record created { status = RefundStatus.processing; processed_at = some started })
    result ← send_refund env g (gateway_refund_request order waiting)
    id ← new_uuid env
    time ← now env
    store.create_transaction (refund_transaction id processing.id order currency result time)
    completed_at ← completion_time env result time
    store.update_payment
        (record waiting { status = settled_status env.decimals result order.amount remaining })
    store.update_refund (settle_refund result completed_at processing)

  -- The closure `persist`.
  unfoldable pub persist_refund :
      PaymentStore → PaymentGateway → RefundOrder → (currency : Text) → Refund → Action Refund
  persist_refund store g order currency refund = do
    (locked, remaining) ← lock_and_check store order
    refund_locked store g order currency refund locked remaining

  -- An error pgx.ErrNoRows becomes ErrPaymentNotFound.
  unfoldable pub or_payment_not_found : Result Payment → Action Payment
  or_payment_not_found (ok p) = pure p
  or_payment_not_found (err e) =
      if is_no_rows e then raise (sentinel payment_not_found) else raise e

  module _ (s : RefundService) where
    -- `ProcessRefund` from the reading of the payment on.
    unfoldable pub start_refund : RefundOrder → Action Refund
    start_refund order = do
      found ← try ((methods env s.store).get_payment order.payment_id)
      payment ← or_payment_not_found found
      require_refundable payment.status
      g ← lift (get_gateway env s.router payment.gateway)
      time ← now env
      id ← new_uuid env
      with_tx env s.store λ store.
          persist_refund store g order payment.currency (new_refund order payment.currency id time)

    -- `ProcessRefund`
    unfoldable pub process_refund_service : RefundOrder → Action Refund
    process_refund_service order = do
      existing ← existing_refund (methods env s.store) order.correlation_id
      elim existing [ some r ↦ pure r | none ↦ start_refund order ]

    -- An error pgx.ErrNoRows becomes ErrRefundNotFound.
    unfoldable pub or_refund_not_found : Result Refund → Action Refund
    or_refund_not_found (ok r) = pure r
    or_refund_not_found (err e) =
        if is_no_rows e then raise (sentinel refund_not_found) else raise e

    unfoldable pub get_refund : Uuid → Action Refund
    get_refund id = do found ← try ((methods env s.store).get_refund id); or_refund_not_found found

    unfoldable pub get_refunds_by_payment : Uuid → Action (List Refund)
    get_refunds_by_payment payment_id = (methods env s.store).get_refunds_by_payment payment_id

    -- The end of `GetTotalRefunded`.
    unfoldable pub total_or_zero : Result (List Refund) → Action Decimal
    total_or_zero (ok rs) = pure (total_refunded env.decimals env.decimals.zero rs)
    total_or_zero (err e) = if is_no_rows e then pure env.decimals.zero else raise e

    unfoldable pub get_total_refunded : Uuid → Action Decimal
    get_total_refunded payment_id = do
      found ← try ((methods env s.store).get_refunds_by_payment payment_id)
      total_or_zero found
