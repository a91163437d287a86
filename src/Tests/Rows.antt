-- ===== src/Tests/Rows.antt =====
-- The theorems about rows and replayed refunds, applied in the small world.
use shopping_cart_payment.Prelude.{◌≡◌, refl, arith, false, some, none, [], ◌∷◌, pos, ◌*ℤ◌}
use shopping_cart_payment.Text.{bytes, is_blank, text_eq}
use shopping_cart_payment.Errors.{ok}
use shopping_cart_payment.Decimal.{Decimal, units}
use shopping_cart_payment.Decimal.Units.{of_units}
use shopping_cart_payment.Model.{Payment, Refund}
use shopping_cart_payment.Model.Status.{PaymentStatus, RefundStatus}
use shopping_cart_payment.Schema.{RefundRow, same_key}
use shopping_cart_payment.Schema.Statements.{
  keep_payment, keep_refund, newest_first, matching, first,
}
use shopping_cart_payment.World.{World}
use shopping_cart_payment.Store.Rows.{
  payment_args, payment_of, scan_payment_row, refund_args, refund_of, scan_refund_row,
}
use shopping_cart_payment.Store.RoundTrips.{
  kept_payment, kept_refund, scan_payment_row-payment_args, scan_refund_row-refund_args,
}
use shopping_cart_payment.Store.Postgres.{travel}
use shopping_cart_payment.Refunds.{process_refund_service, new_refund}
use shopping_cart_payment.Refunds.Replay.{process_refund_service-replay}
use shopping_cart_payment.Refunds.Soundness.{refunds_of}
use shopping_cart_payment.Tests.World.{
  env, laws, reparse, store, router, charged, tables, world, order,
}

abbrev paid : Payment
paid =
    payment_of env (record charged { payment_method_id = some 3 }) (of_units (pos 100000)) (some 3)

abbrev completed : Payment
completed = record paid { status = PaymentStatus.completed }

scan_payment_row-payment_args_example :
    (d : Decimal) × (units d ≡ units completed.amount)
    × (scan_payment_row env
          (keep_payment env.dialect (100000 ∷ 0 ∷ []) (payment_args env completed))
        ≡ ok (kept_payment env completed d))
unfolding units ◌*ℤ◌
scan_payment_row-payment_args_example =
    scan_payment_row-payment_args env laws reparse completed (100000 ∷ 0 ∷ []) (omega arith) tt refl

abbrev asked : Refund
asked = record (new_refund order (bytes "USD") 30 2000) {
  amount = of_units (pos 100000);
  status = RefundStatus.pending;
}

scan_refund_row-refund_args_example :
    (d : Decimal) × (units d ≡ units asked.amount)
    × (scan_refund_row env (keep_refund env.dialect (100000 ∷ 0 ∷ []) (refund_args env asked))
        ≡ ok (kept_refund env asked d))
unfolding units ◌*ℤ◌
scan_refund_row-refund_args_example =
    scan_refund_row-refund_args env laws asked (100000 ∷ 0 ∷ []) (omega arith) tt refl

abbrev given : RefundRow
given = record {
  id = 30;
  payment_id = 7;
  amount = 40000 ∷ 0 ∷ [];
  currency = bytes "USD";
  status = bytes "COMPLETED";
  reason = none;
  gateway_refund_id = none;
  failure_reason = none;
  failure_code = none;
  created_at = 8;
  processed_at = none;
  completed_at = none;
  correlation_id = some (bytes "correlation-1");
  initiated_by = none;
}

abbrev refunded_world : World
refunded_world = record world { tables = record tables { refunds = given ∷ [] } }

given_reads : scan_refund_row env given ≡ ok (refund_of env given (of_units (pos 40000)))
unfolding scan_refund_row
given_reads = refl

correlation_is_given : is_blank order.correlation_id ≡ false
unfolding is_blank
correlation_is_given = refl

given_found :
    first (
      newest_first RefundRow.created_at
        (matching (λ q. same_key q.correlation_id (some order.correlation_id)) (given ∷ [])))
    ≡ some given
unfolding newest_first matching text_eq
given_found = refl

process_refund_service-replay_example :
    process_refund_service env (refunds_of store router) order refunded_world
    ≡ (ok (refund_of env given (of_units (pos 40000))), travel env false refunded_world)
process_refund_service-replay_example =
    process_refund_service-replay env store router order refunded_world given
      (refund_of env given (of_units (pos 40000))) correlation_is_given refl given_found given_reads
