-- ===== src/Store/RoundTrips.antt =====
-- The row that PostgreSQL keeps of the arguments of an INSERT, scanned again.
use mathlib.Core.Option
use shopping_cart_payment.Prelude.{◌≡◌, refl, ap, Option, none, some}
use shopping_cart_payment.Text.{Text}
use shopping_cart_payment.Errors.{ok}
use shopping_cart_payment.Decimal.{Decimal, FitsScale, units}
use shopping_cart_payment.Model.{Payment, Refund, Uuid}
use shopping_cart_payment.Model.Status.{
  IsConstant, IsConstantRefund, payment_status_of-payment_status_text,
  refund_status_of-refund_status_text,
}
use shopping_cart_payment.Schema.Statements.{keep_payment, keep_refund}
use shopping_cart_payment.World.{Env}
use shopping_cart_payment.Store.Numeric.{AmountLaws}
use shopping_cart_payment.Store.Rows.{
  payment_args, method_id_of, scan_payment_row, refund_args, scan_refund_row, time_or_zero,
}

module _ (env : Env) where
  pub method_id_of-ok :
      (reparse : (id : Uuid) → env.parse_uuid (env.uuid_text id) ≡ ok id)
      → (id : Option Uuid) → method_id_of env id ≡ ok id
  method_id_of-ok reparse none = refl
  method_id_of-ok reparse (some id) = rw (method_id_of, reparse id) refl

  -- A payment as PostgreSQL keeps it: the amount is another decimal, and a timestamp has the precision
  -- of its column. UpdatedAt is never NULL.
  abbrev pub kept_payment : Payment → Decimal → Payment
  kept_payment p amount = record p {
    amount = amount;
    created_at = env.dialect.timestamp p.created_at;
    processed_at = Option.map env.dialect.timestamp p.processed_at;
    completed_at = Option.map env.dialect.timestamp p.completed_at;
    updated_at = some (env.dialect.timestamp (time_or_zero p.updated_at));
  }

  abbrev pub kept_refund : Refund → Decimal → Refund
  kept_refund r amount = record r {
    amount = amount;
    created_at = env.dialect.timestamp r.created_at;
    processed_at = Option.map env.dialect.timestamp r.processed_at;
    completed_at = Option.map env.dialect.timestamp r.completed_at;
  }

  module _ (laws : AmountLaws env) where
    -- When amounts of at most four decimals are stored and computed exactly (`AmountLaws`) and
    -- uuid.Parse reads what String wrote, the row that PostgreSQL keeps of the arguments of
    -- CreatePayment is read back as the payment, for one whose status is one of the constants and
    -- whose amount has at most four decimals and a text that the column takes: the amount has the
    -- same value, the times have the precision of their columns, an UpdatedAt that is not valid has
    -- become the zero time, and all else is the same.
    pub scan_payment_row-payment_args :
        (reparse : (id : Uuid) → env.parse_uuid (env.uuid_text id) ≡ ok id)
        → (p : Payment) (a : Text) → FitsScale p.amount
        → IsConstant p.status
        → env.dialect.numeric (env.decimals.to_string p.amount) ≡ some a
        → (d : Decimal) × (units d ≡ units p.amount)
          × (scan_payment_row env (keep_payment env.dialect a (payment_args env p))
              ≡ ok (kept_payment p d))
    unfolding scan_payment_row payment_args
    scan_payment_row-payment_args reparse p a fits constant cast =
        let back = laws.stored p.amount a fits cast in
        (
          back.decimal,
          laws.stored_units p.amount back.decimal a fits cast back.reads,
          rw (scan_payment_row, back.reads, method_id_of-ok reparse p.payment_method_id)
              (ap (λ s. ok (record (kept_payment p back.decimal) { status = s }))
                (payment_status_of-payment_status_text p.status constant)),
        )

    -- When amounts of at most four decimals are stored and computed exactly (`AmountLaws`), the row
    -- that PostgreSQL keeps of the arguments of CreateRefund is read back as the refund, for one
    -- whose status is one of the constants and whose amount has at most four decimals and a text
    -- that the column takes: the amount has the same value, the times have the precision of their
    -- columns, and all else is the same.
    pub scan_refund_row-refund_args :
        (r : Refund) (a : Text)
        → FitsScale r.amount
        → IsConstantRefund r.status
        → env.dialect.numeric (env.decimals.to_string r.amount) ≡ some a
        → (d : Decimal) × (units d ≡ units r.amount)
          × (scan_refund_row env (keep_refund env.dialect a (refund_args env r))
              ≡ ok (kept_refund r d))
    unfolding scan_refund_row refund_args
    scan_refund_row-refund_args r a fits constant cast =
        let back = laws.stored r.amount a fits cast in
        (
          back.decimal,
          laws.stored_units r.amount back.decimal a fits cast back.reads,
          rw (scan_refund_row, back.reads)
              (ap (λ s. ok (record (kept_refund r back.decimal) { status = s }))
                (refund_status_of-refund_status_text r.status constant)),
        )
