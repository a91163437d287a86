-- ===== src/Gateway/Providers/Mock.antt =====
-- mock.go, the mock gateway. Its delay is a time that its caller spends; it changes nothing.
use shopping_cart_payment.Prelude.{
  ℤ, pos_part, ℕ, suc, ◌-◌, Bool, true, false, List, [], ◌∷◌, ◌++◌, leb, ◌==◌, length, take, drop,
  if◌then◌else◌,
}
use shopping_cart_payment.Text.{Text, bytes, text_eq}
use shopping_cart_payment.Gateway.Dto.{
  PaymentRequest, PaymentResult, RefundRequest, RefundResult, TokenizeRequest, TokenizeResult,
  payment_result_failure, refund_result_failure,
}
use shopping_cart_payment.World.{Env, Action, pure, ◌>>=◌, new_uuid, Float64}
use shopping_cart_payment.Errors.{ok}

pub record MockGateway : Type 0 where
  pub enabled : Bool
  pub delay_ms : ℤ
  pub failure_rate : Float64
  pub tokens : List (Text × Text)

-- `NewMockGateway`
abbrev pub new_mock_gateway :
    (enabled : Bool) → (delay_ms : ℤ) → (failure_rate : Float64) → MockGateway
new_mock_gateway enabled delay_ms failure_rate = record {
  enabled = enabled;
  delay_ms = delay_ms;
  failure_rate = failure_rate;
  tokens = [];
}

-- `simulateDelay`: the milliseconds that it sleeps.
abbrev pub simulated_delay : MockGateway → ℕ
simulated_delay g = pos_part g.delay_ms

abbrev without_dashes : Text → Text
without_dashes [] = []
without_dashes (a ∷ s) = if a == b'-' then without_dashes s else a ∷ without_dashes s

-- The last four bytes of a card number, if it has as many.
unfoldable pub last4_of : Text → Text
last4_of number = if leb 4 (length number) then drop (length number - 4) number else bytes "4242"

abbrev pub set_token : Text → Text → List (Text × Text) → List (Text × Text)
set_token token customer [] = (token, customer) ∷ []
set_token token customer ((t, c) ∷ rest) =
    if text_eq t token then (token, customer) ∷ rest else (t, c) ∷ set_token token customer rest

abbrev pub has_token : Text → List (Text × Text) → Bool
has_token token [] = false
has_token token ((t, c) ∷ rest) = if text_eq t token then true else has_token token rest

abbrev pub erase_token : Text → List (Text × Text) → List (Text × Text)
erase_token token [] = []
erase_token token ((t, c) ∷ rest) =
    if text_eq t token then erase_token token rest else (t, c) ∷ erase_token token rest

module _ (env : Env) where
  -- `shortID`
  unfoldable pub short_id : Action Text
  short_id = do id ← new_uuid env; pure (take 16 (without_dashes (env.uuid_text id)))

  -- `shouldFail`: a random number is drawn only for a positive rate.
  unfoldable pub should_fail : Float64 → Action Bool
  should_fail rate w =
      if env.is_positive rate
      then (ok (env.draw_below w.draws rate), record w { draws = suc w.draws })
      else (ok false, w)

  unfoldable pub mock_succeeds : PaymentRequest → Action PaymentResult
  mock_succeeds request = do
    transaction ← short_id
    payment_intent ← short_id
    pure (record {
      success = true;
      transaction_id = bytes "mock_txn_" ++ transaction;
      payment_intent_id = bytes "mock_pi_" ++ payment_intent;
      status = bytes "completed";
      card_last4 = last4_of request.card_number;
      card_brand = bytes "visa";
      error_code = [];
      error_message = [];
      raw_response = [];
    })

  -- `MockGateway.ProcessPayment`
  unfoldable pub mock_process_payment : MockGateway → PaymentRequest → Action PaymentResult
  mock_process_payment g request =
      if text_eq request.card_number (bytes "tok_mock_decline")
      then pure (payment_result_failure (bytes "card_declined") (bytes "Your card was declined"))
      else if text_eq request.card_number (bytes "tok_mock_insufficient_funds")
      then pure (payment_result_failure (bytes "insufficient_funds") (bytes "Insufficient funds"))
      else do
        fails ← should_fail g.failure_rate
        if fails
            then pure (
                payment_result_failure (bytes "processing_error")
                  (bytes "Random mock failure for testing"))
            else mock_succeeds request

  unfoldable pub mock_refunds : Action RefundResult
  mock_refunds = do
    refund ← short_id
    pure (record {
      success = true;
      refund_id = bytes "mock_re_" ++ refund;
      status = bytes "completed";
      error_code = [];
      error_message = [];
      raw_response = [];
    })

  -- `MockGateway.ProcessRefund`
  unfoldable pub mock_process_refund : MockGateway → RefundRequest → Action RefundResult
  mock_process_refund g request = do
    fails ← should_fail g.failure_rate
    if fails
        then pure (
            refund_result_failure (bytes "refund_failed") (bytes "Random mock failure for testing"))
        else mock_refunds

  -- `MockGateway.Tokenize`: the gateway remembers the token.
  unfoldable pub mock_tokenize :
      MockGateway → TokenizeRequest → Action (TokenizeResult × MockGateway)
  mock_tokenize g request = do
    id ← short_id
    let token = bytes "mock_tok_" ++ id
    pure (
      record {
        success = true;
        token = token;
        last4 = last4_of request.card_number;
        brand = bytes "visa";
        exp_month = request.card_exp_month;
        exp_year = request.card_exp_year;
        error_code = [];
        error_message = [];
      },
      record g { tokens = set_token token request.customer_id g.tokens },
    )
