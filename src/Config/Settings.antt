-- ===== src/Config/Settings.antt =====
-- The variables of the environment, one for each field of the configuration, and that Load reads back
-- a configuration that was written into them.
use shopping_cart_payment.Prelude.{
  ◌≡◌, refl, Bool, true, false, some, List, [], ◌∷◌, ℤ, pos, All, if◌then◌else◌,
}
use shopping_cart_payment.Text.{Text, bytes, is_empty, text_eq}
use shopping_cart_payment.World.{Float64}
use shopping_cart_payment.Config.{
  Config, ConfigOps, zero_float, string_env, int_env, float_env, bool_env, load,
}

-- A text for each boolean and each float64.
pub record Texts : Type 0 where
  pub bool_text : Bool → Text
  pub float_text : Float64 → Text

-- What strconv promises of such texts: it reads them back, and none is empty.
pub record TextLaws (ops : ConfigOps) (texts : Texts) : Type 0 where
  pub atoi-decimal_text : (n : ℤ) → ops.atoi (ops.decimal_text n) ≡ some n
  pub parse_bool-bool_text : (b : Bool) → ops.parse_bool (texts.bool_text b) ≡ some b
  pub parse_float-float_text : (f : Float64) → ops.parse_float (texts.float_text f) ≡ some f
  pub decimal_text_full : (n : ℤ) → is_empty (ops.decimal_text n) ≡ false
  pub bool_text_full : (b : Bool) → is_empty (texts.bool_text b) ≡ false
  pub float_text_full : (f : Float64) → is_empty (texts.float_text f) ≡ false

-- The environment that says what a configuration says.
abbrev pub settings : ConfigOps → Texts → Config → List (Text × Text)
settings ops texts c =
    (bytes "SERVER_PORT", ops.decimal_text c.server_port)
    ∷ (bytes "DB_HOST", c.db_host)
    ∷ (bytes "DB_PORT", ops.decimal_text c.db_port)
    ∷ (bytes "DB_NAME", c.db_name)
    ∷ (bytes "DB_USERNAME", c.db_username)
    ∷ (bytes "DB_PASSWORD", c.db_password)
    ∷ (bytes "DB_SSLMODE", c.db_sslmode)
    ∷ (bytes "RABBITMQ_HOST", c.rabbitmq_host)
    ∷ (bytes "RABBITMQ_PORT", ops.decimal_text c.rabbitmq_port)
    ∷ (bytes "RABBITMQ_VHOST", c.rabbitmq_vhost)
    ∷ (bytes "RABBITMQ_USERNAME", c.rabbitmq_username)
    ∷ (bytes "RABBITMQ_PASSWORD", c.rabbitmq_password)
    ∷ (bytes "RABBITMQ_VAULT_ENABLED", texts.bool_text c.rabbitmq_vault_enabled)
    ∷ (bytes "PAYMENT_GATEWAY_DEFAULT", c.payment_gateway_default)
    ∷ (bytes "MOCK_GATEWAY_ENABLED", texts.bool_text c.mock_gateway_enabled)
    ∷ (bytes "STRIPE_ENABLED", texts.bool_text c.stripe_enabled)
    ∷ (bytes "STRIPE_API_KEY", c.stripe_api_key)
    ∷ (bytes "STRIPE_WEBHOOK_SECRET", c.stripe_webhook_secret)
    ∷ (bytes "PAYPAL_ENABLED", texts.bool_text c.paypal_enabled)
    ∷ (bytes "PAYPAL_CLIENT_ID", c.paypal_client_id)
    ∷ (bytes "PAYPAL_CLIENT_SECRET", c.paypal_client_secret)
    ∷ (bytes "PAYPAL_MODE", c.paypal_mode)
    ∷ (bytes "MOCK_GATEWAY_DELAY_MS", ops.decimal_text c.mock_gateway_delay_ms)
    ∷ (bytes "MOCK_GATEWAY_FAILURE_RATE", texts.float_text c.mock_gateway_failure_rate)
    ∷ (bytes "ENCRYPTION_ENABLED", texts.bool_text c.encryption_enabled)
    ∷ (bytes "ENCRYPTION_KEY", c.encryption_key)
    ∷ (bytes "RATE_LIMIT_ENABLED", texts.bool_text c.rate_limit_enabled)
    ∷ (bytes "RATE_LIMIT_PER_SECOND", ops.decimal_text c.rate_limit_per_second)
    ∷ (bytes "RATE_LIMIT_BURST", ops.decimal_text c.rate_limit_burst)
    ∷ (bytes "OAUTH2_ENABLED", texts.bool_text c.oauth2_enabled)
    ∷ (bytes "OAUTH2_ISSUER_URI", c.oauth2_issuer_uri)
    ∷ (bytes "OAUTH2_JWK_SET_URI", c.oauth2_jwk_set_uri)
    ∷ (bytes "LOG_LEVEL", c.log_level)
    ∷ []

-- The value of a variable, empty if it is not set.
unfoldable pub value_of : List (Text × Text) → Text → Text
value_of [] name = []
value_of ((n, v) ∷ rest) name = if text_eq n name then v else value_of rest name

-- The fields whose default is not the empty text.
abbrev pub required : Config → List Text
required c =
    c.db_host ∷ c.db_name ∷ c.db_username ∷ c.db_sslmode ∷ c.rabbitmq_host ∷ c.rabbitmq_vhost
    ∷ c.payment_gateway_default ∷ c.paypal_mode ∷ c.oauth2_issuer_uri ∷ c.oauth2_jwk_set_uri
    ∷ c.log_level ∷ []

module _ (ops : ConfigOps) where
  string_env_set :
      (name default v : Text)
      → ops.getenv name ≡ v
      → is_empty v ≡ false
      → string_env ops name default ≡ v
  unfolding string_env
  string_env_set name default v h full = rw (h, full) refl

  string_env_optional : (name v : Text) → ops.getenv name ≡ v → string_env ops name [] ≡ v
  unfolding string_env
  string_env_optional name [] h = rw h refl
  string_env_optional name (a ∷ v) h = rw h refl

  module _ (texts : Texts) (laws : TextLaws ops texts) where
    int_env_set :
        (name : Text) (default n : ℤ)
        → ops.getenv name ≡ ops.decimal_text n
        → int_env ops name default ≡ n
    unfolding int_env
    int_env_set name default n h = rw (h, laws.decimal_text_full n, laws.atoi-decimal_text n) refl

    bool_env_set :
        (name : Text) (default b : Bool)
        → ops.getenv name ≡ texts.bool_text b
        → bool_env ops name default ≡ b
    unfolding bool_env
    bool_env_set name default b h = rw (h, laws.bool_text_full b, laws.parse_bool-bool_text b) refl

    float_env_set :
        (name : Text) (default f : Float64)
        → ops.getenv name ≡ texts.float_text f
        → float_env ops name default ≡ f
    unfolding float_env
    float_env_set name default f h =
        rw (h, laws.float_text_full f, laws.parse_float-float_text f) refl

-- Load gives back a configuration that the environment says: every field is read from a variable of
-- its own, the one that the table names, in the type of the field, and no two fields share one.
-- The fields with a default that is not empty must not be empty, since an empty variable counts as
-- missing.
pub load-settings :
    (ops : ConfigOps) (texts : Texts)
    → TextLaws ops texts
    → (c : Config) → ((name : Text) → ops.getenv name ≡ value_of (settings ops texts c) name)
    → All (λ v. is_empty v ≡ false) (required c)
    → load ops ≡ c
unfolding load value_of text_eq
load-settings ops texts laws c set h =
    rw
      (
        int_env_set ops texts laws (bytes "SERVER_PORT") (pos 8084) c.server_port
            (set (bytes "SERVER_PORT")),
        string_env_set ops (bytes "DB_HOST") (bytes "localhost") c.db_host (set (bytes "DB_HOST"))
            h.0,
        int_env_set ops texts laws (bytes "DB_PORT") (pos 5432) c.db_port (set (bytes "DB_PORT")),
        string_env_set ops (bytes "DB_NAME") (bytes "payments") c.db_name (set (bytes "DB_NAME"))
            h.1.0,
        string_env_set ops (bytes "DB_USERNAME") (bytes "postgres") c.db_username
            (set (bytes "DB_USERNAME")) h.1.1.0,
        string_env_optional ops (bytes "DB_PASSWORD") c.db_password (set (bytes "DB_PASSWORD")),
        string_env_set ops (bytes "DB_SSLMODE") (bytes "disable") c.db_sslmode
            (set (bytes "DB_SSLMODE")) h.1.1.1.0,
        string_env_set ops (bytes "RABBITMQ_HOST")
            (bytes "rabbitmq.shopping-cart-data.svc.cluster.local") c.rabbitmq_host
            (set (bytes "RABBITMQ_HOST")) h.1.1.1.1.0,
        int_env_set ops texts laws (bytes "RABBITMQ_PORT") (pos 5672) c.rabbitmq_port
            (set (bytes "RABBITMQ_PORT")),
        string_env_set ops (bytes "RABBITMQ_VHOST") (bytes "/") c.rabbitmq_vhost
            (set (bytes "RABBITMQ_VHOST")) h.1.1.1.1.1.0,
        string_env_optional ops (bytes "RABBITMQ_USERNAME") c.rabbitmq_username
            (set (bytes "RABBITMQ_USERNAME")),
        string_env_optional ops (bytes "RABBITMQ_PASSWORD") c.rabbitmq_password
            (set (bytes "RABBITMQ_PASSWORD")),
        bool_env_set ops texts laws (bytes "RABBITMQ_VAULT_ENABLED") false c.rabbitmq_vault_enabled
            (set (bytes "RABBITMQ_VAULT_ENABLED")),
        string_env_set ops (bytes "PAYMENT_GATEWAY_DEFAULT") (bytes "mock")
            c.payment_gateway_default (set (bytes "PAYMENT_GATEWAY_DEFAULT")) h.1.1.1.1.1.1.0,
        bool_env_set ops texts laws (bytes "MOCK_GATEWAY_ENABLED") false c.mock_gateway_enabled
            (set (bytes "MOCK_GATEWAY_ENABLED")),
        bool_env_set ops texts laws (bytes "STRIPE_ENABLED") false c.stripe_enabled
            (set (bytes "STRIPE_ENABLED")),
        string_env_optional ops (bytes "STRIPE_API_KEY") c.stripe_api_key
            (set (bytes "STRIPE_API_KEY")),
        string_env_optional ops (bytes "STRIPE_WEBHOOK_SECRET") c.stripe_webhook_secret
            (set (bytes "STRIPE_WEBHOOK_SECRET")),
        bool_env_set ops texts laws (bytes "PAYPAL_ENABLED") false c.paypal_enabled
            (set (bytes "PAYPAL_ENABLED")),
        string_env_optional ops (bytes "PAYPAL_CLIENT_ID") c.paypal_client_id
            (set (bytes "PAYPAL_CLIENT_ID")),
        string_env_optional ops (bytes "PAYPAL_CLIENT_SECRET") c.paypal_client_secret
            (set (bytes "PAYPAL_CLIENT_SECRET")),
        string_env_set ops (bytes "PAYPAL_MODE") (bytes "sandbox") c.paypal_mode
            (set (bytes "PAYPAL_MODE")) h.1.1.1.1.1.1.1.0,
        int_env_set ops texts laws (bytes "MOCK_GATEWAY_DELAY_MS") (pos 500) c.mock_gateway_delay_ms
            (set (bytes "MOCK_GATEWAY_DELAY_MS")),
        float_env_set ops texts laws (bytes "MOCK_GATEWAY_FAILURE_RATE") zero_float
            c.mock_gateway_failure_rate (set (bytes "MOCK_GATEWAY_FAILURE_RATE")),
        bool_env_set ops texts laws (bytes "ENCRYPTION_ENABLED") true c.encryption_enabled
            (set (bytes "ENCRYPTION_ENABLED")),
        string_env_optional ops (bytes "ENCRYPTION_KEY") c.encryption_key
            (set (bytes "ENCRYPTION_KEY")),
        bool_env_set ops texts laws (bytes "RATE_LIMIT_ENABLED") true c.rate_limit_enabled
            (set (bytes "RATE_LIMIT_ENABLED")),
        int_env_set ops texts laws (bytes "RATE_LIMIT_PER_SECOND") (pos 10) c.rate_limit_per_second
            (set (bytes "RATE_LIMIT_PER_SECOND")),
        int_env_set ops texts laws (bytes "RATE_LIMIT_BURST") (pos 20) c.rate_limit_burst
            (set (bytes "RATE_LIMIT_BURST")),
        bool_env_set ops texts laws (bytes "OAUTH2_ENABLED") false c.oauth2_enabled
            (set (bytes "OAUTH2_ENABLED")),
        string_env_set ops (bytes "OAUTH2_ISSUER_URI")
            (bytes "http://keycloak.identity.svc.cluster.local/realms/shopping-cart")
            c.oauth2_issuer_uri (set (bytes "OAUTH2_ISSUER_URI")) h.1.1.1.1.1.1.1.1.0,
        string_env_set ops (bytes "OAUTH2_JWK_SET_URI")
            (bytes
              "http://keycloak.identity.svc.cluster.local/realms/shopping-cart/protocol/openid-connect/certs")
            c.oauth2_jwk_set_uri (set (bytes "OAUTH2_JWK_SET_URI")) h.1.1.1.1.1.1.1.1.1.0,
        string_env_set ops (bytes "LOG_LEVEL") (bytes "INFO") c.log_level (set (bytes "LOG_LEVEL"))
            h.1.1.1.1.1.1.1.1.1.1.0,
      )
      refl
