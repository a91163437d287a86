-- ===== src/Gateway/Providers.antt =====
-- go/internal/gateway/mock.go: the interface of the gateways over the mock, Stripe and PayPal, whose
-- names it passes on.
mod Mock
mod Stripe
unfoldable pub use Mock.*
unfoldable pub use Stripe.*
use shopping_cart_payment.Prelude.{
  ℤ, pos_part, ℕ, suc, ◌-◌, Bool, true, false, not, Option, none, some, List, [], ◌∷◌, ◌++◌, leb,
  ◌==◌, length, take, drop, if◌then◌else◌,
}
use shopping_cart_payment.Text.{Text, bytes, text_eq, is_blank, to_lower}
use shopping_cart_payment.Gateway.Dto.{
  PaymentRequest, PaymentResult, RefundRequest, RefundResult, TokenizeRequest, TokenizeResult,
  payment_result_failure, refund_result_failure, tokenize_result_failure,
}
use shopping_cart_payment.World.{
  Env, Action, pure, ◌>>=◌, new_uuid, Float64, StripeAnswer, stripe_error, other_error, intent,
  PaymentIntentParams,
}
use shopping_cart_payment.Errors.{ok}

pub record PaypalGateway : Type 0 where
  pub enabled : Bool

-- `NewPayPalGateway`
abbrev pub new_paypal_gateway : (enabled : Bool) → PaypalGateway
new_paypal_gateway enabled = record { enabled = enabled }

-- The interface `PaymentGateway`, by the types that implement it.
pub data PaymentGateway : Type 0 where
  mock : MockGateway → PaymentGateway
  stripe : StripeGateway → PaymentGateway
  paypal : PaypalGateway → PaymentGateway

abbrev pub get_name : PaymentGateway → Text
get_name (mock _) = bytes "mock"
get_name (stripe _) = bytes "stripe"
get_name (paypal _) = bytes "paypal"

abbrev pub is_enabled : PaymentGateway → Bool
is_enabled (mock g) = g.enabled
is_enabled (stripe g) = g.enabled
is_enabled (paypal g) = g.enabled

abbrev pub supports_recurring : PaymentGateway → Bool
supports_recurring (mock _) = true
supports_recurring (stripe _) = false
supports_recurring (paypal _) = true

abbrev pub supports_partial_refund : PaymentGateway → Bool
supports_partial_refund (mock _) = true
supports_partial_refund (stripe _) = true
supports_partial_refund (paypal _) = true

module _ (env : Env) where
  -- `Tokenize` of the interface, with the gateway that remembers the token
  unfoldable pub tokenize :
      PaymentGateway → TokenizeRequest → Action (TokenizeResult × PaymentGateway)
  tokenize (mock g) request = do (result, g') ← mock_tokenize env g request; pure (result, mock g')
  tokenize (stripe g) request =
      if not g.enabled
      then pure (
        tokenize_result_failure (bytes "gateway_disabled") (bytes "Stripe gateway is not enabled"),
        stripe g,
      )
      else pure (
        tokenize_result_failure (bytes "not_supported")
            (bytes "Use Stripe Elements to create a PaymentMethod client-side"),
        stripe g,
      )
  tokenize (paypal g) request =
      if not g.enabled
      then pure (
        tokenize_result_failure (bytes "gateway_disabled") (bytes "PayPal gateway is not enabled"),
        paypal g,
      )
      else do
        id ← new_uuid env
        pure (
          record {
            success = true;
            token = bytes "paypal_vault_" ++ take 16 (env.uuid_text id);
            last4 = [];
            brand = bytes "paypal";
            exp_month = [];
            exp_year = [];
            error_code = [];
            error_message = [];
          },
          paypal g,
        )

  -- `ProcessPayment` of the interface
  unfoldable pub process_payment : PaymentGateway → PaymentRequest → Action PaymentResult
  process_payment (mock g) request = mock_process_payment env g request
  process_payment (stripe g) request = stripe_process_payment env g request
  process_payment (paypal g) request =
      if not g.enabled
      then pure (
          payment_result_failure (bytes "gateway_disabled") (bytes "PayPal gateway is not enabled"))
      else pure (
          payment_result_failure (bytes "not_implemented")
            (bytes "PayPal gateway is not implemented yet (deferred to PR2)"))

  -- `ProcessRefund` of the interface
  unfoldable pub process_refund : PaymentGateway → RefundRequest → Action RefundResult
  process_refund (mock g) request = mock_process_refund env g request
  process_refund (stripe g) request =
      if not g.enabled
      then pure
          (refund_result_failure (bytes "gateway_disabled") (bytes "Stripe gateway is not enabled"))
      else pure (
          refund_result_failure (bytes "not_implemented")
            (bytes "Stripe gateway is not implemented yet (deferred to PR2)"))
  process_refund (paypal g) request =
      if not g.enabled
      then pure
          (refund_result_failure (bytes "gateway_disabled") (bytes "PayPal gateway is not enabled"))
      else pure (
          refund_result_failure (bytes "not_implemented")
            (bytes "PayPal gateway is not implemented yet (deferred to PR2)"))

-- `DeleteToken` of the interface; only the mock has tokens of its own.
unfoldable pub delete_token : PaymentGateway → Text → Bool × PaymentGateway
unfolding text_eq
delete_token (mock g) token =
    (has_token token g.tokens, mock (record g { tokens = erase_token token g.tokens }))
delete_token (stripe g) token = (g.enabled, stripe g)
delete_token (paypal g) token = (g.enabled, paypal g)
