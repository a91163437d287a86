-- ===== src/Tests/Runs.antt =====
-- The theorems about the services, applied to runs in the small world.
use shopping_cart_payment.Prelude.{◌≡◌, refl, false, some, none, pos, arith, ◌*ℤ◌}
use shopping_cart_payment.Text.{bytes, is_blank, text_eq}
use shopping_cart_payment.Errors.{Result, ok}
use shopping_cart_payment.Decimal.{Decimal, units}
use shopping_cart_payment.Decimal.Units.{of_units}
use shopping_cart_payment.Model.{Payment, Refund}
use shopping_cart_payment.Schema.{PaymentRow, same_key}
use shopping_cart_payment.World.{World}
use shopping_cart_payment.Store.Rows.{payment_of, scan_payment_row}
use shopping_cart_payment.Schema.Statements.{newest_first, matching, first}
use shopping_cart_payment.Store.Postgres.{travel}
use shopping_cart_payment.Payments.{process_payment_service}
use shopping_cart_payment.Payments.Soundness.{
  payments_of, ChargedAtMostOnce, PaymentOutcome, process_payment_service-ChargedAtMostOnce,
  process_payment_service-PaymentOutcome, process_payment_service-replay,
}
use shopping_cart_payment.Refunds.{process_refund_service, get_total_refunded}
use shopping_cart_payment.Refunds.Totals.{get_total_refunded-eq-total}
use shopping_cart_payment.Refunds.Ledger.{
  IsSound, IsCovered, RefundStep, ledger, total, settled, amount_units,
}
use shopping_cart_payment.Refunds.Soundness.{
  refunds_of, RefundOutcome, process_refund_service-RefundStep, process_refund_service-IsCovered,
  process_refund_service-RefundOutcome,
}
use shopping_cart_payment.Tests.World.{
  env, quiet, never, laws, store, router, charged, tables, world, empty_world, order, request, key,
}

pub tables-IsSound : IsSound env tables
tables-IsSound = record {
  keyed = (tt, tt);
  payments = (record { decimal = of_units (pos 100000); reads = refl; fits = omega arith }, tt);
  refunds = tt;
}

pub tables-IsCovered : IsCovered (ledger env tables)
unfolding ledger total settled amount_units units ◌*ℤ◌
tables-IsCovered = (omega arith, tt)

abbrev refund_run : Result Refund × World
refund_run = process_refund_service env (refunds_of store router) order world

abbrev charge_run : Result Payment × World
charge_run =
    process_payment_service env (payments_of store router) request (bytes "c") key empty_world

process_refund_service-RefundStep_example :
    RefundStep (ledger env tables) (ledger env refund_run.1.tables)
    × IsSound env refund_run.1.tables
process_refund_service-RefundStep_example =
    process_refund_service-RefundStep env laws store router quiet order (omega arith) world
      tables-IsSound

process_refund_service-IsCovered_example :
    IsSound env refund_run.1.tables × IsCovered (ledger env refund_run.1.tables)
process_refund_service-IsCovered_example =
    process_refund_service-IsCovered env laws store router (λ n t h. h) order (omega arith) world
      tables-IsSound tables-IsCovered

process_refund_service-RefundOutcome_example :
    RefundOutcome env order refund_run.0 tables refund_run.1.tables
process_refund_service-RefundOutcome_example =
    process_refund_service-RefundOutcome env laws store router quiet order (omega arith) world
      tables-IsSound

get_total_refunded-eq-total_example :
    (sum : Decimal) × (get_total_refunded env (refunds_of store router) 7 world
      ≡ (ok sum, travel env false world))
    × (units sum ≡ total 7 (ledger env tables).given_back)
get_total_refunded-eq-total_example =
    get_total_refunded-eq-total env store 7 world laws router refl tables-IsSound

process_payment_service-ChargedAtMostOnce_example :
    ChargedAtMostOnce env request (bytes "c") key empty_world charge_run.1
process_payment_service-ChargedAtMostOnce_example =
    process_payment_service-ChargedAtMostOnce env request (bytes "c") key store router empty_world

process_payment_service-PaymentOutcome_example :
    PaymentOutcome env request (bytes "c") key charge_run.0 empty_world charge_run.1
process_payment_service-PaymentOutcome_example =
    process_payment_service-PaymentOutcome env request (bytes "c") key store router quiet never
      empty_world

charged_payment : Payment
charged_payment = payment_of env charged (of_units (pos 100000)) none

charged_reads : scan_payment_row env charged ≡ ok charged_payment
unfolding scan_payment_row charged_payment
charged_reads = refl

key-0-is_blank : is_blank (bytes "key-0") ≡ false
unfolding is_blank
key-0-is_blank = refl

charged_found :
    first (
      newest_first PaymentRow.created_at
        (matching (λ r. same_key r.idempotency_key (some (bytes "key-0"))) tables.payments))
    ≡ some charged
unfolding newest_first matching text_eq
charged_found = refl

process_payment_service-replay_example :
    process_payment_service env (payments_of store router) request (bytes "c") (bytes "key-0") world
    ≡ (ok charged_payment, travel env false world)
process_payment_service-replay_example =
    process_payment_service-replay env request (bytes "c") (bytes "key-0") store router world
      charged charged_payment key-0-is_blank refl charged_found charged_reads
