-- ===== src/Payments.antt =====
-- go/internal/payment/service.go: the payment service.
pub mod Requests
pub mod Charges
pub mod Recording
pub mod Service
pub mod Soundness
pub mod Safety
pub mod Unavailable
pub mod Retry
use mathlib.Core.Option
use shopping_cart_payment.Prelude.{
  ℕ, suc, Bool, true, false, not, ◌&&◌, Option, none, some, List, [], ◌∷◌, if◌then◌else◌,
}
use shopping_cart_payment.Text.{Text, bytes, text_eq, is_blank, is_empty, trim_space, to_upper}
use shopping_cart_payment.Errors.{
  GoError, Result, ok, err, sentinel, no_rows, pg, plain, wrapped, payment_not_found, is_no_rows,
}
use shopping_cart_payment.Model.{Payment, Transaction, Uuid, Time}
use shopping_cart_payment.Model.Status.{PaymentStatus, charge, is_completed}
use shopping_cart_payment.Gateway.Dto.{PaymentRequest, PaymentResult}
use shopping_cart_payment.Gateway.Providers.{PaymentGateway, get_name, process_payment}
use shopping_cart_payment.Gateway.Router.{Router, get_gateway_or_default}
use shopping_cart_payment.World.{
  Env, World, Action, pure, raise, lift, try, ◌>>=◌, ◌>>◌, now, new_uuid,
}
use shopping_cart_payment.Store.{PaymentStore}
use shopping_cart_payment.Store.Backend.{Backend, methods, with_tx}
use Requests.{ProcessPaymentRequest, null_string, gateway_request, new_payment}

pub record PaymentService : Type 0 where
  pub store : Backend
  pub router : Router

-- `errors.As(err, &pgErr)` and `pgErr.Code == "23505"`
unfoldable pub is_unique_violation : GoError → Bool
is_unique_violation (sentinel _) = false
is_unique_violation (no_rows _) = false
is_unique_violation (pg code _) = text_eq code (bytes "23505")
is_unique_violation (plain _) = false
is_unique_violation (wrapped _ e _) = is_unique_violation e

-- A lookup whose pgx.ErrNoRows means that there is nothing.
unfoldable pub found_or_none : Result Payment → Action (Option Payment)
found_or_none (ok p) = pure (some p)
found_or_none (err e) = if is_no_rows e then pure none else raise e

-- The first lookup of `ProcessPayment`.
unfoldable pub existing_by_key : PaymentStore → Text → Action (Option Payment)
existing_by_key store key =
    if is_blank key
    then pure none
    else (do found ← try (store.get_payment_by_idempotency_key key); found_or_none found)

abbrev only_completed : Option Payment → Option Payment
only_completed none = none
only_completed (some p) = if is_completed p.status then some p else none

-- The second lookup: a payment of the order that is completed.
unfoldable pub existing_by_order : PaymentStore → Text → Action (Option Payment)
existing_by_order store order_id = do
  found ← try (store.get_payment_by_order_id order_id)
  existing ← found_or_none found
  pure (only_completed existing)

-- `gatewayImpl.ProcessPayment(request)`, noted in the world.
unfoldable pub charge_gateway : Env → PaymentGateway → PaymentRequest → Action PaymentResult
charge_gateway env g request = do
  result ← process_payment env g request
  λ w. (ok result, record w { charges = (request, result) ∷ w.charges })

-- The fields that `persistProcessedPayment` sets from the gateway's result.
unfoldable pub settle_payment : PaymentResult → Time → Payment → Payment
settle_payment result time p =
    if result.success
    then record p {
      status = PaymentStatus.completed;
      gateway_transaction_id = null_string result.transaction_id;
      gateway_payment_intent_id = null_string result.payment_intent_id;
      card_last4 = null_string result.card_last4;
      card_brand = null_string result.card_brand;
      completed_at = some time;
      failure_reason = none;
      failure_code = none;
    }
    else record p {
      status = PaymentStatus.failed;
      failure_code = null_string result.error_code;
      failure_reason = null_string result.error_message;
    }

-- The row of the audit log for a charge.
unfoldable pub charge_transaction : Uuid → Payment → Text → PaymentResult → Time → Transaction
charge_transaction id p correlation_id result time = record {
  id = id;
  payment_id = p.id;
  refund_id = none;
  type = charge;
  amount = p.amount;
  currency = p.currency;
  success = result.success;
  gateway_transaction_id = null_string result.transaction_id;
  gateway_response = null_string result.raw_response;
  gateway_error_code = null_string result.error_code;
  gateway_error_message = null_string result.error_message;
  created_at = time;
  correlation_id = null_string correlation_id;
  ip_address = none;
  user_agent = none;
}

-- `time.Now()` is read only on success.
unfoldable pub completion_time : Env → PaymentResult → Time → Action Time
completion_time env result time = if result.success then now env else pure time

-- `persistProcessedPayment`
unfoldable pub persist_processed_payment :
    Env → PaymentStore → Payment → Text → PaymentResult → Time → Action Payment
persist_processed_payment env store payment correlation_id result time = do
  created ← store.create_payment payment
  processing ←
      store.update_payment
        (record created { status = PaymentStatus.processing; processed_at = some time })
  id ← new_uuid env
  store.create_transaction (charge_transaction id processing correlation_id result time)
  completed_at ← completion_time env result time
  store.update_payment (settle_payment result completed_at processing)

-- The end of `ProcessPayment`: a lost race for the idempotency key gives the winner's payment.
unfoldable pub recover_duplicate : PaymentStore → Text → Result Payment → Action Payment
recover_duplicate store key (ok p) = pure p
recover_duplicate store key (err e) =
    if is_unique_violation e && not (is_blank key)
    then (do
      existing ← try (store.get_payment_by_idempotency_key key)
      elim existing [ ok p ↦ pure p | err _ ↦ raise e ])
    else raise e

module _ (env : Env) (s : PaymentService) where
  -- `ProcessPayment` from the choice of the gateway on.
  unfoldable pub charge_and_persist :
      ProcessPaymentRequest → (correlation_id key : Text) → Action Payment
  charge_and_persist req correlation_id key = do
    g ← lift (get_gateway_or_default env s.router req.gateway)
    time ← now env
    id ← new_uuid env
    result ← charge_gateway env g (gateway_request env req correlation_id key)
    let payment = new_payment env req (get_name g) correlation_id key id time
    persisted ← try (
        with_tx env s.store
          λ store. persist_processed_payment env store payment correlation_id result time)
    recover_duplicate (methods env s.store) key persisted

  -- `ProcessPayment`
  unfoldable pub process_payment_service :
      ProcessPaymentRequest → (correlation_id key : Text) → Action Payment
  process_payment_service req correlation_id key = do
    by_key ← existing_by_key (methods env s.store) key
    elim by_key [
      | some p ↦ pure p
      | none ↦ do
        by_order ← existing_by_order (methods env s.store) req.order_id
        elim by_order [ some p ↦ pure p | none ↦ charge_and_persist req correlation_id key ]
    ]

  -- An error pgx.ErrNoRows becomes ErrPaymentNotFound.
  unfoldable pub or_payment_not_found : Result Payment → Action Payment
  or_payment_not_found (ok p) = pure p
  or_payment_not_found (err e) =
      if is_no_rows e then raise (sentinel payment_not_found) else raise e

  unfoldable pub get_payment : Uuid → Action Payment
  get_payment id = do found ← try ((methods env s.store).get_payment id); or_payment_not_found found

  unfoldable pub get_payment_by_order_id : Text → Action Payment
  get_payment_by_order_id order_id = do
    found ← try ((methods env s.store).get_payment_by_order_id order_id)
    or_payment_not_found found

  unfoldable pub get_payments_by_customer : Text → Action (List Payment)
  get_payments_by_customer customer_id = (methods env s.store).get_payments_by_customer customer_id

  -- The switch of `UpdatePaymentStatus`.
  unfoldable pub stamp_status : PaymentStatus → Payment → Action Payment
  stamp_status PaymentStatus.processing p = do
    time ← now env
    pure (record p { status = PaymentStatus.processing; processed_at = some time })
  stamp_status PaymentStatus.completed p = do
    time ← now env
    pure (record p { status = PaymentStatus.completed; completed_at = some time })
  stamp_status status p = pure (record p { status = status })

  unfoldable pub update_payment_status : Uuid → PaymentStatus → Action Payment
  update_payment_status id status = do
    payment ← get_payment id
    stamped ← stamp_status status payment
    (methods env s.store).update_payment stamped
