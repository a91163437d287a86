-- ===== src/Handler/Charging.antt =====
-- What a client can make a gateway charge.
use shopping_cart_payment.Prelude.{◌≡◌, refl, none, ◌∷◌, Option-cases, inl, inr, ◌⊎◌}
use shopping_cart_payment.Errors.{Result, ok, err}
use shopping_cart_payment.Gateway.Dto.{PaymentResult}
use shopping_cart_payment.Gateway.Router.{Router}
use shopping_cart_payment.World.{Env, World}
use shopping_cart_payment.Store.{Store}
use shopping_cart_payment.Payments.Requests.{ProcessPaymentRequest, gateway_request}
use shopping_cart_payment.Payments.{process_payment_service}
use shopping_cart_payment.Payments.Soundness.{
  payments_of, ChargedAtMostOnce, process_payment_service-ChargedAtMostOnce,
}
use shopping_cart_payment.Refunds.{RefundService}
use shopping_cart_payment.Handler.{Headers, choose_key, process_valid, process_payment}
use shopping_cart_payment.Handler.Validation.{validate_process_payment_request}

module _ (env : Env) (st : Store) (router : Router) (refunds : RefundService)
    (headers : Headers) where
  -- No charge more, or one, for a request that passes the checks.
  abbrev pub ChargedIfValid : Result ProcessPaymentRequest → (w v : World) → Type 0
  ChargedIfValid body w v =
      (v.charges ≡ w.charges)
      ⊎ ((req : ProcessPaymentRequest) × (body ≡ ok req)
          × (validate_process_payment_request env.decimals req ≡ none)
          × (result : PaymentResult) × (v.charges
              ≡ (gateway_request env req headers.correlation_id (choose_key headers req), result)
                ∷ w.charges))

  valid_charge :
      (req : ProcessPaymentRequest) (w v : World)
      → validate_process_payment_request env.decimals req ≡ none
      → ChargedAtMostOnce env req headers.correlation_id (choose_key headers req) w v
      → ChargedIfValid (ok req) w v
  valid_charge req w v valid (inl same) = inl same
  valid_charge req w v valid (inr (result, once)) = inr (req, refl, valid, result, once)

  -- `processPayment` calls a gateway's ProcessPayment at most once, whatever a client sends and
  -- whatever goes wrong; if it does, the body was a request that passes the checks, and the gateway
  -- got this request with the correlation id of the header and the key that the headers and the body
  -- choose.
  pub process_payment-ChargedIfValid :
      (body : Result ProcessPaymentRequest) (w : World)
      → ChargedIfValid body w (process_payment env (payments_of st router) refunds headers body w).1
  unfolding process_payment process_valid
  process_payment-ChargedIfValid (err e) w = inl refl
  process_payment-ChargedIfValid (ok req) w =
      elim (Option-cases (validate_process_payment_request env.decimals req)) [
        | inl valid ↦
            rw (process_payment, valid)
              (valid_charge req w
                (process_payment_service env (payments_of st router) req headers.correlation_id
                  (choose_key headers req) w).1
                valid
                (process_payment_service-ChargedAtMostOnce env req headers.correlation_id
                  (choose_key headers req) st router w))
        | inr (e, invalid) ↦ rw (process_payment, invalid) (inl refl)
      ]
