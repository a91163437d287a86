-- ===== src/Server/Startup.antt =====
-- main.go up to ListenAndServe: the gateways, the services and the rate limiter of a configuration.
use shopping_cart_payment.Prelude.{true, false, not, ◌&&◌, Option, some, List, [], ◌∷◌, ◌++◌}
use shopping_cart_payment.Text.{Text, bytes, is_empty}
use shopping_cart_payment.Errors.{Result}
use shopping_cart_payment.World.{Env, Action, pure, lift, ◌>>◌}
use shopping_cart_payment.Text.{to_lower}
use shopping_cart_payment.Config.{or_default, Config, ConfigOps, database_uri}
use shopping_cart_payment.Gateway.Providers.{
  PaymentGateway, mock, stripe, paypal, new_mock_gateway, new_stripe_gateway, new_paypal_gateway,
}
use shopping_cart_payment.Gateway.Router.{Router, new_router}
use shopping_cart_payment.Payments.{PaymentService}
use shopping_cart_payment.Refunds.{RefundService}
use shopping_cart_payment.Store.Backend.{Backend, runner}
use shopping_cart_payment.Store.Postgres.{ping_pool}
use shopping_cart_payment.Httpx.{RateOps, Limiter, new_rate_limiter}

-- The three gateways that `main` makes, in the order in which the router gets them.
unfoldable pub gateways_of : Config → List (Option PaymentGateway)
gateways_of c =
    some (
      mock (
        new_mock_gateway c.mock_gateway_enabled c.mock_gateway_delay_ms
          c.mock_gateway_failure_rate))
    ∷ some (
        stripe (
          new_stripe_gateway (c.stripe_enabled && not (is_empty c.stripe_api_key))
            c.stripe_api_key))
    ∷ some (
        paypal (
          new_paypal_gateway (
            c.paypal_enabled
            && not (is_empty c.paypal_client_id)
            && not (is_empty c.paypal_client_secret))))
    ∷ []

unfoldable pub router_of : Env → Config → Router
unfolding gateways_of
router_of env c = new_router env c.payment_gateway_default (gateways_of c)

-- The value of `NewStore(db)`.
abbrev pub pool_store : Backend
pool_store = runner (record { pool = true; in_tx = false })

-- What `main` has made when it begins to listen.
pub record App (Bucket : Type 0) : Type 0 where
  pub payments : PaymentService
  pub refunds : RefundService
  pub limiter : Limiter Bucket
  pub address : Text

-- `main` up to ListenAndServe; `connect` is pgxpool.New on the URI. An error ends the program.
unfoldable pub start_up :
    {Bucket : Type 0}
    → Env
    → ConfigOps
    → RateOps Bucket
    → (connect : Text → Result (Unit {0})) → Config
    → Action (App Bucket)
unfolding router_of
start_up env config_ops ops connect c = do
  lift (connect (database_uri config_ops c))
  ping_pool env
  pure (record {
    payments = record { store = pool_store; router = router_of env c };
    refunds = record { store = pool_store; router = router_of env c };
    limiter = new_rate_limiter ops c.rate_limit_enabled c.rate_limit_per_second c.rate_limit_burst;
    address = bytes ":" ++ config_ops.decimal_text c.server_port;
  })

-- The level of `newLogger`; `parse_level` is zapcore.ParseLevel and `info` its InfoLevel.
unfoldable pub logger_level :
    {Level : Type 0} → Env → (parse_level : Text → Option Level) → (info : Level) → Text → Level
unfolding to_lower
logger_level env parse_level info level =
    or_default (parse_level (to_lower env.lower_tables level)) info
