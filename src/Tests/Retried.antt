-- ===== src/Tests/Retried.antt =====
-- A charge that is asked for again under its key, and a refund, computed step by step.
use shopping_cart_payment.Prelude.{
  ℕ, ◌≡◌, ◌≢◌, refl, ap, Bool, true, false, some, List, [], ◌∷◌, length, arith, ◌*ℤ◌, map,
}
use shopping_cart_payment.Text.{Text, bytes, is_blank, text_eq, to_lower, to_upper, trim_space}
use shopping_cart_payment.Errors.{Result, ok, err, is_no_rows}
use shopping_cart_payment.Decimal.{units}
use shopping_cart_payment.Model.{Payment}
use shopping_cart_payment.Schema.{
  Tables, PaymentRow, RefundRow, TransactionRow, any_row, payment_widths, transaction_widths,
}
use shopping_cart_payment.Schema.Statements.{
  insert_payment, update_payment, insert_transaction, matching, insert_newest, newest_first,
}
use shopping_cart_payment.Gateway.Providers.{
  last4_of, short_id, should_fail, mock_succeeds, mock_process_payment, process_payment,
}
use shopping_cart_payment.Gateway.Router.{lookup, get_gateway, get_gateway_or_default}
use shopping_cart_payment.World.{World, ◌>>=◌, pure, lift, try, now, new_uuid}
use shopping_cart_payment.Store.Rows.{
  payment_args, payment_update_args, transaction_args, scan_payment_row, scan_first,
}
use shopping_cart_payment.Store.Postgres
use shopping_cart_payment.Store.Postgres.{travel}
use shopping_cart_payment.Store.Backend.{with_tx}
use shopping_cart_payment.Payments
use shopping_cart_payment.Payments.{process_payment_service}
use shopping_cart_payment.Payments.Requests.{
  null_string, currency_of, method_id_of, new_payment, gateway_request,
}
use shopping_cart_payment.Payments.Soundness.{payments_of}
use shopping_cart_payment.Payments.Retry.{Replays, process_payment_service-Replays}
use shopping_cart_payment.Tests.World.{
  env, quiet, never, reparse, laws, store, router, empty_world, request, key,
}

abbrev charge_run : Result Payment × World
charge_run =
    process_payment_service env (payments_of store router) request (bytes "c") key empty_world

-- The statuses in the tables, whether the log has a success, and the number of charges.
abbrev summary : World → List Text × List Text × List Bool × ℕ
summary v = (
  map PaymentRow.status v.tables.payments,
  map RefundRow.status v.tables.refunds,
  map TransactionRow.success v.tables.transactions,
  length v.charges,
)

abbrev paid_of : Result Payment → Payment
paid_of (ok p) = p
paid_of (err _) = new_payment env request [] [] key 0 0

charge_ran : charge_run ≡ (ok (paid_of charge_run.0), charge_run.1)
unfolding process_payment_service Payments.existing_by_key Payments.existing_by_order
    Payments.found_or_none Postgres.get_payment_by_idempotency_key Postgres.get_payment_by_order_id
    Postgres.select_payment Postgres.query Postgres.exec newest_first insert_newest matching
    Postgres.missing scan_first scan_payment_row is_no_rows Payments.charge_and_persist
    get_gateway_or_default get_gateway lookup to_lower now new_uuid Payments.charge_gateway
    process_payment mock_process_payment should_fail mock_succeeds short_id pure lift try ◌>>=◌
    gateway_request currency_of to_upper trim_space method_id_of null_string new_payment with_tx
    Postgres.run_in_tx Postgres.finish_tx Payments.persist_processed_payment Postgres.create_payment
    Postgres.or_new_uuid payment_args payment_update_args insert_payment payment_widths any_row
    text_eq Postgres.update_payment_store update_payment Postgres.require_affected
    Postgres.create_transaction transaction_args insert_transaction transaction_widths
    Payments.charge_transaction Payments.completion_time Payments.settle_payment
    Payments.recover_duplicate units ◌*ℤ◌ is_blank last4_of
charge_ran = refl

charge_left : summary charge_run.1 ≡ (bytes "COMPLETED" ∷ [], [], true ∷ [], 1)
unfolding process_payment_service Payments.existing_by_key Payments.existing_by_order
    Payments.found_or_none Postgres.get_payment_by_idempotency_key Postgres.get_payment_by_order_id
    Postgres.select_payment Postgres.query Postgres.exec newest_first insert_newest matching
    Postgres.missing scan_first scan_payment_row is_no_rows Payments.charge_and_persist
    get_gateway_or_default get_gateway lookup to_lower now new_uuid Payments.charge_gateway
    process_payment mock_process_payment should_fail mock_succeeds short_id pure lift try ◌>>=◌
    gateway_request currency_of to_upper trim_space method_id_of null_string new_payment with_tx
    Postgres.run_in_tx Postgres.finish_tx Payments.persist_processed_payment Postgres.create_payment
    Postgres.or_new_uuid payment_args payment_update_args insert_payment payment_widths any_row
    text_eq Postgres.update_payment_store update_payment Postgres.require_affected
    Postgres.create_transaction transaction_args insert_transaction transaction_widths
    Payments.charge_transaction Payments.completion_time Payments.settle_payment
    Payments.recover_duplicate units ◌*ℤ◌ is_blank last4_of
charge_left = refl

charge_wrote : charge_run.1.tables ≢ empty_world.tables
charge_wrote same =
    grows (ap (λ s. length s.0) charge_left)
      (ap (λ (t : Tables). length (map PaymentRow.status t.payments)) same)
  where
    grows : {n : ℕ} → n ≡ 1 → n ≡ 0 → ⊥
    grows one none_left = omega arith

key_unpadded : null_string key ≡ some key
unfolding null_string
key_unpadded = refl

process_payment_service-Replays_example :
    (q : Payment) × (process_payment_service env
        (payments_of store router)
        (record request { order_id = bytes "order-3" })
        (bytes "d")
        key
        charge_run.1
      ≡ (ok q, travel env false charge_run.1))
    × Replays env laws reparse (paid_of charge_run.0) q
process_payment_service-Replays_example =
    process_payment_service-Replays env laws reparse quiet never store router request (omega arith)
      (bytes "c") key key_unpadded empty_world (paid_of charge_run.0) charge_run.1 charge_ran
      charge_wrote (record request { order_id = bytes "order-3" }) (bytes "d") charge_run.1 refl
      refl
