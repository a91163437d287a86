-- ===== src/Gateway/Refunding.antt =====
-- mock.go: which gateways give money back.
use shopping_cart_payment.Prelude.{◌≡◌, refl, ap, ◌∙◌, true, false, Bool-cases, inl, inr}
use shopping_cart_payment.Text.{Text}
use shopping_cart_payment.Errors.{ok}
use shopping_cart_payment.World.{Env, World, pure}
use shopping_cart_payment.Gateway.Dto.{RefundRequest, RefundResult, refund_result_failure}
use shopping_cart_payment.Gateway.Providers.{
  PaymentGateway, MockGateway, mock, stripe, paypal, process_refund,
}

no_success :
    (code text : Text) (r : RefundResult)
    → ok (refund_result_failure code text) ≡ ok r
    → r.success ≡ true
    → ⊥
unfolding refund_result_failure
no_success code text r answer success =
    let same : refund_result_failure code text ≡ r = cc in
    let on : false ≡ true = ap RefundResult.success same ∙ success in cc on

-- A refund that a gateway reports as a success was made by the mock: Stripe and PayPal refuse every
-- refund, enabled or not.
pub process_refund-success :
    (env : Env) (g : PaymentGateway) (request : RefundRequest) (w : World) (r : RefundResult)
    → (process_refund env g request w).0 ≡ ok r
    → r.success ≡ true
    → (m : MockGateway) × (g ≡ mock m)
unfolding process_refund pure
process_refund-success env (mock m) request w r answer success = (m, refl)
process_refund-success env (stripe g) request w r answer success = elim (Bool-cases g.enabled) [
  | inl on ↦ absurd (no_success _ _ r (rw (process_refund, on) at answer) success)
  | inr off ↦ absurd (no_success _ _ r (rw (process_refund, off) at answer) success)
]
process_refund-success env (paypal g) request w r answer success = elim (Bool-cases g.enabled) [
  | inl on ↦ absurd (no_success _ _ r (rw (process_refund, on) at answer) success)
  | inr off ↦ absurd (no_success _ _ r (rw (process_refund, off) at answer) success)
]
