-- ===== src/Handler/Soundness.antt =====
-- What the handlers promise: the checks of handler.go let through just what they should, and
-- whatever a client sends, refunds stay covered.
use shopping_cart_payment.Prelude.{
  ℕ, ◌≡◌, refl, ◌↔◌, true, false, some, none, arith, length, ◌==◌, ==_iff, Bool-cases, Option-cases,
  inl, inr, pos, ◌<ℤ◌, subst,
}
use shopping_cart_payment.Text.{Text, is_blank, trim_space}
use shopping_cart_payment.Errors.{Result, ok, err, ApiError}
use shopping_cart_payment.Decimal.{Decimal, DecimalOps, FitsScale, units, cmp_gt}
use shopping_cart_payment.Decimal.Laws.{DecimalLaws}
use shopping_cart_payment.Gateway.Router.{Router}
use shopping_cart_payment.World.{Env, World}
use shopping_cart_payment.Store.{Store}
use shopping_cart_payment.Store.Backend.{runner}
use shopping_cart_payment.Store.Numeric.{AmountLaws}
use shopping_cart_payment.Store.Scans.{Result-cases}
use shopping_cart_payment.Store.Transactions.{Stable}
use shopping_cart_payment.Model.{Uuid}
use shopping_cart_payment.Payments.{PaymentService}
use shopping_cart_payment.Payments.Requests.{ProcessPaymentRequest}
use shopping_cart_payment.Refunds.{RefundService}
use shopping_cart_payment.Refunds.Ledger.{IsSound, IsCovered, ledger}
use shopping_cart_payment.Refunds.Soundness.{process_refund_service-IsCovered}
use shopping_cart_payment.Handler.{
  Headers, refund_payment, refund_bound, refund_valid, refund_order,
}
use shopping_cart_payment.Handler.Validation.{
  RefundRequest, decimal_cmp_positive, too_fine, validate_process_payment_request,
  validate_refund_request,
}

some_is_not_none : {e : ApiError} → some e ≡ none → ⊥
some_is_not_none h = cc h

is_not_three : (n : ℕ) → n ≡ 3 → (n == 3) ≡ false → ⊥
is_not_three n e h = ground arith

module _ (ops : DecimalOps) where
  too_fine-FitsScale : (d : Decimal) → too_fine d ≡ false → FitsScale d
  too_fine-FitsScale d h = ground arith

  pub passes_refund :
      (req : RefundRequest)
      → (validate_refund_request ops req ≡ none)
        ↔ (decimal_cmp_positive ops req.amount ≡ true) × FitsScale req.amount
  unfolding validate_refund_request
  passes_refund req = elim (Bool-cases (decimal_cmp_positive ops req.amount)) [
    | inl positive ↦ elim (Bool-cases (too_fine req.amount)) [
      | inl fine ↦ ground arith
      | inr scaled ↦ (
        λ _. (positive, too_fine-FitsScale req.amount scaled),
        λ _. rw (validate_refund_request, positive, scaled) refl,
      )
    ]
    | inr other ↦ ground arith
  ]

  pub passes_payment :
      (req : ProcessPaymentRequest)
      → (validate_process_payment_request ops req ≡ none)
        ↔ (is_blank req.order_id ≡ false)
          × (is_blank req.customer_id ≡ false)
          × (decimal_cmp_positive ops req.amount ≡ true)
          × FitsScale req.amount
          × (length (trim_space req.currency) ≡ 3)
  unfolding validate_process_payment_request
  passes_payment req = elim (Bool-cases (is_blank req.order_id)) [
    | inl blank ↦ ground arith
    | inr order ↦ elim (Bool-cases (is_blank req.customer_id)) [
      | inl blank ↦ ground arith
      | inr customer ↦ elim (Bool-cases (decimal_cmp_positive ops req.amount)) [
        | inl positive ↦ elim (Bool-cases (too_fine req.amount)) [
          | inl fine ↦ ground arith
          | inr scaled ↦ elim (Bool-cases (length (trim_space req.currency) == 3)) [
            | inl three ↦ (
              λ _. (
                order,
                customer,
                positive,
                too_fine-FitsScale req.amount scaled,
                (==_iff (length (trim_space req.currency)) 3).0 three,
              ),
              λ _.
                  rw (validate_process_payment_request, order, customer, positive, scaled, three)
                    refl,
            )
            | inr wrong ↦ (
              λ h. absurd (
                  some_is_not_none (
                    rw (validate_process_payment_request, order, customer, positive, scaled, wrong)
                      at h)),
              λ h. absurd (is_not_three (length (trim_space req.currency)) h.4 wrong),
            )
          ]
        ]
        | inr other ↦ ground arith
      ]
    ]
  ]

-- With a decimal package that compares amounts of at most four places exactly.
module _ (ops : DecimalOps) (laws : DecimalLaws ops) where
  positive_iff :
      (d : Decimal) → FitsScale d → (decimal_cmp_positive ops d ≡ true) ↔ (pos 0 <ℤ units d)
  positive_iff d fits =
      subst (λ z. (cmp_gt ops d ops.zero ≡ true) ↔ (z <ℤ units d)) laws.units_zero
        (laws.gt_iff d ops.zero fits laws.zero_fits)

  -- When the decimal package computes exactly on amounts of at most four decimals,
  -- `validateRefundRequest` lets a request through exactly when its amount is more than zero and has
  -- at most four decimals.
  pub validate_refund_request-eq-none :
      (req : RefundRequest)
      → (validate_refund_request ops req ≡ none)
        ↔ (pos 0 <ℤ units req.amount) × FitsScale req.amount
  validate_refund_request-eq-none req = (
    λ h. let p = (passes_refund ops req).0 h in ((positive_iff req.amount p.1).0 p.0, p.1),
    λ (more, fits). (passes_refund ops req).1 ((positive_iff req.amount fits).1 more, fits),
  )

module _ (env : Env) (laws : AmountLaws env) (st : Store) (router : Router)
    (payments : PaymentService) where
  abbrev Safe : World → Type 0
  Safe w = IsSound env w.tables × IsCovered (ledger env w.tables)

  abbrev refunds : RefundService
  refunds = record { store = runner st; router = router }

  bound_lem :
      Stable env (λ t. IsSound env t × IsCovered (ledger env t))
      → (headers : Headers) (id : Uuid) (body : Result RefundRequest) (w : World) → Safe w
      → Safe (refund_bound env payments refunds headers id body w).1
  unfolding refund_bound refund_valid refund_order
  bound_lem stable headers id (err e) w safe = safe
  bound_lem stable headers id (ok req) w safe =
      elim (Option-cases (validate_refund_request env.decimals req)) [
        | inl valid ↦
            let fits : FitsScale req.amount = ((passes_refund env.decimals req).0 valid).1 in
            rw (refund_bound, valid)
              (process_refund_service-IsCovered env laws st router stable
                (refund_order env payments refunds headers id req) fits w safe.0 safe.1)
        | inr (e, invalid) ↦ rw (refund_bound, invalid) safe
      ]

  -- When amounts of at most four decimals are stored and computed exactly (`AmountLaws`), the tables
  -- are sound, every payment is covered by what it took, and other clients keep both so, then
  -- `refundPayment` keeps both too, whatever id, headers and body a client sends: no request makes
  -- the completed refunds of a payment add up to more than its amount.
  pub refund_payment-IsCovered :
      Stable env (λ t. IsSound env t × IsCovered (ledger env t))
      → (headers : Headers) (param : Text) (body : Result RefundRequest) (w : World)
      → IsSound env w.tables
      → IsCovered (ledger env w.tables)
      → let v = (refund_payment env payments refunds headers param body w).1 in
        IsSound env v.tables × IsCovered (ledger env v.tables)
  unfolding refund_payment
  refund_payment-IsCovered stable headers param body w sound covered =
      elim (Result-cases (env.parse_uuid param)) [
        | inl (id, parsed) ↦
            rw (refund_payment, parsed) (bound_lem stable headers id body w (sound, covered))
        | inr (e, failed) ↦ rw (refund_payment, failed) (sound, covered)
      ]
