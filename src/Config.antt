-- ===== src/Config.antt =====
-- go/internal/config/config.go: the configuration that the environment gives, and the URI of the
-- database.
pub mod Cuts
pub mod Uri
pub mod Settings
use shopping_cart_payment.Prelude.{
  Bool, true, false, Option, none, some, [], ◌++◌, ℤ, pos, if◌then◌else◌,
}
use shopping_cart_payment.Text.{Text, bytes, is_empty}
use shopping_cart_payment.World.{Float64}

pub record Config : Type 0 where
  pub server_port : ℤ
  pub db_host : Text
  pub db_port : ℤ
  pub db_name : Text
  pub db_username : Text
  pub db_password : Text
  pub db_sslmode : Text
  pub rabbitmq_host : Text
  pub rabbitmq_port : ℤ
  pub rabbitmq_vhost : Text
  pub rabbitmq_username : Text
  pub rabbitmq_password : Text
  pub rabbitmq_vault_enabled : Bool
  pub payment_gateway_default : Text
  pub mock_gateway_enabled : Bool
  pub stripe_enabled : Bool
  pub stripe_api_key : Text
  pub stripe_webhook_secret : Text
  pub paypal_enabled : Bool
  pub paypal_client_id : Text
  pub paypal_client_secret : Text
  pub paypal_mode : Text
  pub mock_gateway_delay_ms : ℤ
  pub mock_gateway_failure_rate : Float64
  pub encryption_enabled : Bool
  pub encryption_key : Text
  pub rate_limit_enabled : Bool
  pub rate_limit_per_second : ℤ
  pub rate_limit_burst : ℤ
  pub oauth2_enabled : Bool
  pub oauth2_issuer_uri : Text
  pub oauth2_jwk_set_uri : Text
  pub log_level : Text

-- os.Getenv; strconv's Atoi, ParseFloat with 64 bits and ParseBool, none on an error; url.QueryEscape;
-- the verb %d.
pub record ConfigOps : Type 0 where
  pub getenv : Text → Text
  pub atoi : Text → Option ℤ
  pub parse_float : Text → Option Float64
  pub parse_bool : Text → Option Bool
  pub query_escape : Text → Text
  pub decimal_text : ℤ → Text

abbrev pub or_default : {A : Type 0} → Option A → A → A
or_default none default = default
or_default (some a) default = a

-- 0.0
abbrev pub zero_float : Float64
zero_float = 0

module _ (ops : ConfigOps) where
  -- `stringEnv`
  unfoldable pub string_env : Text → Text → Text
  string_env name default = let v = ops.getenv name in if is_empty v then default else v

  -- `intEnv`
  unfoldable pub int_env : Text → ℤ → ℤ
  int_env name default =
      let v = ops.getenv name in if is_empty v then default else or_default (ops.atoi v) default

  -- `floatEnv`
  unfoldable pub float_env : Text → Float64 → Float64
  float_env name default =
      let v = ops.getenv name in
      if is_empty v then default else or_default (ops.parse_float v) default

  -- `boolEnv`
  unfoldable pub bool_env : Text → Bool → Bool
  bool_env name default =
      let v = ops.getenv name in
      if is_empty v then default else or_default (ops.parse_bool v) default

  -- `Load`
  unfoldable pub load : Config
  load = record {
    server_port = int_env (bytes "SERVER_PORT") (pos 8084);
    db_host = string_env (bytes "DB_HOST") (bytes "localhost");
    db_port = int_env (bytes "DB_PORT") (pos 5432);
    db_name = string_env (bytes "DB_NAME") (bytes "payments");
    db_username = string_env (bytes "DB_USERNAME") (bytes "postgres");
    db_password = string_env (bytes "DB_PASSWORD") [];
    db_sslmode = string_env (bytes "DB_SSLMODE") (bytes "disable");
    rabbitmq_host =
        string_env (bytes "RABBITMQ_HOST") (bytes "rabbitmq.shopping-cart-data.svc.cluster.local");
    rabbitmq_port = int_env (bytes "RABBITMQ_PORT") (pos 5672);
    rabbitmq_vhost = string_env (bytes "RABBITMQ_VHOST") (bytes "/");
    rabbitmq_username = string_env (bytes "RABBITMQ_USERNAME") [];
    rabbitmq_password = string_env (bytes "RABBITMQ_PASSWORD") [];
    rabbitmq_vault_enabled = bool_env (bytes "RABBITMQ_VAULT_ENABLED") false;
    payment_gateway_default = string_env (bytes "PAYMENT_GATEWAY_DEFAULT") (bytes "mock");
    mock_gateway_enabled = bool_env (bytes "MOCK_GATEWAY_ENABLED") false;
    stripe_enabled = bool_env (bytes "STRIPE_ENABLED") false;
    stripe_api_key = string_env (bytes "STRIPE_API_KEY") [];
    stripe_webhook_secret = string_env (bytes "STRIPE_WEBHOOK_SECRET") [];
    paypal_enabled = bool_env (bytes "PAYPAL_ENABLED") false;
    paypal_client_id = string_env (bytes "PAYPAL_CLIENT_ID") [];
    paypal_client_secret = string_env (bytes "PAYPAL_CLIENT_SECRET") [];
    paypal_mode = string_env (bytes "PAYPAL_MODE") (bytes "sandbox");
    mock_gateway_delay_ms = int_env (bytes "MOCK_GATEWAY_DELAY_MS") (pos 500);
    mock_gateway_failure_rate = float_env (bytes "MOCK_GATEWAY_FAILURE_RATE") zero_float;
    encryption_enabled = bool_env (bytes "ENCRYPTION_ENABLED") true;
    encryption_key = string_env (bytes "ENCRYPTION_KEY") [];
    rate_limit_enabled = bool_env (bytes "RATE_LIMIT_ENABLED") true;
    rate_limit_per_second = int_env (bytes "RATE_LIMIT_PER_SECOND") (pos 10);
    rate_limit_burst = int_env (bytes "RATE_LIMIT_BURST") (pos 20);
    oauth2_enabled = bool_env (bytes "OAUTH2_ENABLED") false;
    oauth2_issuer_uri =
        string_env (bytes "OAUTH2_ISSUER_URI")
          (bytes "http://keycloak.identity.svc.cluster.local/realms/shopping-cart");
    oauth2_jwk_set_uri = string_env (bytes "OAUTH2_JWK_SET_URI") (
        bytes
          "http://keycloak.identity.svc.cluster.local/realms/shopping-cart/protocol/openid-connect/certs");
    log_level = string_env (bytes "LOG_LEVEL") (bytes "INFO");
  }

  abbrev pub ssl_mode_of : Config → Text
  ssl_mode_of c = if is_empty c.db_sslmode then bytes "disable" else c.db_sslmode

  -- `DatabaseURI`
  unfoldable pub database_uri : Config → Text
  database_uri c =
      bytes "postgres://"
      ++ (ops.query_escape c.db_username
          ++ (bytes ":"
              ++ (ops.query_escape c.db_password
                  ++ (bytes "@"
                      ++ (c.db_host
                          ++ (bytes ":"
                              ++ (ops.decimal_text c.db_port
                                  ++ (bytes "/"
                                      ++ (c.db_name
                                          ++ (bytes "?sslmode="
                                              ++ ops.query_escape (ssl_mode_of c)))))))))))
