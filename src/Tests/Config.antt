-- ===== src/Tests/Config.antt =====
-- Config: an environment that says a configuration, and the URI that the configuration makes.
use shopping_cart_payment.Prelude.{
  ℕ, ◌+◌, ◌-◌, ◌≡◌, refl, ap, Bool, true, false, Option, some, none, [], ◌∷◌, ℤ, pos, negsuc, arith,
  ◌==◌, if◌then◌else◌,
}
use shopping_cart_payment.Text.{Text, bytes, is_empty}
use shopping_cart_payment.Config.{Config, ConfigOps, load, database_uri, ssl_mode_of}
use shopping_cart_payment.Config.Settings.{Texts, TextLaws, settings, value_of, load-settings}
use shopping_cart_payment.Config.Cuts.{Lacks, LacksSeparators, lacks, lacks-Lacks}
use shopping_cart_payment.Config.Uri.{UriOps, UriLaws, read_uri, read-database_uri}

abbrev pub config : Config
config = record {
  server_port = pos 3;
  db_host = bytes "value";
  db_port = pos 3;
  db_name = bytes "value";
  db_username = bytes "value";
  db_password = bytes "value";
  db_sslmode = bytes "value";
  rabbitmq_host = bytes "value";
  rabbitmq_port = pos 3;
  rabbitmq_vhost = bytes "value";
  rabbitmq_username = bytes "value";
  rabbitmq_password = bytes "value";
  rabbitmq_vault_enabled = true;
  payment_gateway_default = bytes "value";
  mock_gateway_enabled = true;
  stripe_enabled = true;
  stripe_api_key = bytes "value";
  stripe_webhook_secret = bytes "value";
  paypal_enabled = true;
  paypal_client_id = bytes "value";
  paypal_client_secret = bytes "value";
  paypal_mode = bytes "value";
  mock_gateway_delay_ms = pos 3;
  mock_gateway_failure_rate = 7;
  encryption_enabled = true;
  encryption_key = bytes "value";
  rate_limit_enabled = true;
  rate_limit_per_second = pos 3;
  rate_limit_burst = pos 3;
  oauth2_enabled = true;
  oauth2_issuer_uri = bytes "value";
  oauth2_jwk_set_uri = bytes "value";
  log_level = bytes "value";
}

-- QueryEscape writes every byte as a percent sign and the byte, 128 more.
abbrev escaped : Text → Text
escaped [] = []
escaped (a ∷ t) = b'%' ∷ (a + 128) ∷ escaped t

-- What percent-decoding does after a percent sign, and elsewhere.
abbrev decoded : (after_percent : Bool) → Text → Text
decoded _ [] = []
decoded true (a ∷ t) = (a - 128) ∷ decoded false t
decoded false (a ∷ t) =
    let after = decoded true t in
    let rest = decoded false t in if a == b'%' then after else a ∷ rest

-- A number is written as two bytes, a boolean as one.
abbrev number_text : ℤ → Text
number_text (pos n) = b'+' ∷ (n + 128) ∷ []
number_text (negsuc n) = b'-' ∷ (n + 128) ∷ []

abbrev read_number : Text → Option ℤ
read_number (s ∷ n ∷ []) = if s == b'+' then some (pos (n - 128)) else some (negsuc (n - 128))
read_number _ = none

abbrev read_float : Text → Option ℕ
read_float (f ∷ []) = some f
read_float _ = none

abbrev read_bool : Text → Option Bool
read_bool (b ∷ []) = some (b == 1)
read_bool _ = none

abbrev texts : Texts
texts = record { bool_text = λ b. (if b then 1 else 0) ∷ []; float_text = λ f. f ∷ [] }

abbrev reader : ConfigOps
reader = record {
  getenv = λ name. [];
  atoi = read_number;
  parse_float = read_float;
  parse_bool = read_bool;
  query_escape = escaped;
  decimal_text = number_text;
}

abbrev pub ops : ConfigOps
ops = record reader { getenv = value_of (settings reader texts config) }

read_number_text : (n : ℤ) → read_number (number_text n) ≡ some n
read_number_text (pos n) = ap (λ k. some (pos k)) (omega arith)
read_number_text (negsuc n) = ap (λ k. some (negsuc k)) (omega arith)

full_number : (n : ℤ) → is_empty (number_text n) ≡ false
full_number (pos n) = refl
full_number (negsuc n) = refl

bool_again : (b : Bool) → read_bool (texts.bool_text b) ≡ some b
bool_again true = refl
bool_again false = refl

text_laws : TextLaws ops texts
text_laws = record {
  atoi-decimal_text = read_number_text;
  parse_bool-bool_text = bool_again;
  parse_float-float_text = λ f. refl;
  decimal_text_full = full_number;
  bool_text_full = λ b. refl;
  float_text_full = λ f. refl;
}

load-settings_example : load ops ≡ config
load-settings_example =
    load-settings ops texts text_laws config (λ name. refl)
      (refl, (refl, (refl, (refl, (refl, (refl, (refl, (refl, (refl, (refl, (refl, tt)))))))))))

escaped-Lacks :
    (c : ℕ) (t : Text)
    → (b'%' == c) ≡ false
    → ((a : ℕ) → (a + 128 == c) ≡ false)
    → Lacks c (escaped t)
escaped-Lacks c [] percent h = tt
escaped-Lacks c (a ∷ t) percent h = (percent, (h a, escaped-Lacks c t percent h))

escaped-separators : (t : Text) → LacksSeparators (escaped t)
escaped-separators t = (
  escaped-Lacks b':' t refl (λ a. ground arith),
  escaped-Lacks b'@' t refl (λ a. ground arith),
  escaped-Lacks b'/' t refl (λ a. ground arith),
  escaped-Lacks b'?' t refl (λ a. ground arith),
  escaped-Lacks b'#' t refl (λ a. ground arith),
)

decoded-escaped : (t : Text) → decoded false (escaped t) ≡ t
decoded-escaped [] = refl
decoded-escaped (a ∷ t) = rw (decoded-escaped t) (ap (λ b. b ∷ t) (omega arith))

decoded_plain : (t : Text) → Lacks b'%' t → decoded false t ≡ t
decoded_plain [] h = refl
decoded_plain (a ∷ t) h = rw (h.0, decoded_plain t h.1) refl

number_separators : (n : ℤ) → LacksSeparators (number_text n)
number_separators (pos n) = (
  (refl, (ground arith, tt)),
  (refl, (ground arith, tt)),
  (refl, (ground arith, tt)),
  (refl, (ground arith, tt)),
  (refl, (ground arith, tt)),
)
number_separators (negsuc n) = (
  (refl, (ground arith, tt)),
  (refl, (ground arith, tt)),
  (refl, (ground arith, tt)),
  (refl, (ground arith, tt)),
  (refl, (ground arith, tt)),
)

abbrev uri_ops : UriOps
uri_ops = record { percent_decode = decoded false; query_unescape = decoded false }

uri_laws : UriLaws ops uri_ops
uri_laws = record {
  escape_separators = escaped-separators;
  escape_ampersand = λ t. escaped-Lacks b'&' t refl (λ a. ground arith);
  port_separators = number_separators;
  percent_decode_plain = decoded_plain;
  percent_decode-query_escape = λ t h. decoded-escaped t;
  query_unescape_plain = λ t h plus. decoded_plain t h;
  query_unescape-query_escape = decoded-escaped;
}

value_lacks : (c : ℕ) → lacks c (bytes "value") ≡ true → Lacks c (bytes "value")
value_lacks c h = lacks-Lacks c (bytes "value") h

read-database_uri_example : read_uri uri_ops (database_uri ops config) ≡ record {
  scheme = bytes "postgres";
  username = bytes "value";
  password = bytes "value";
  host = bytes "value";
  port = ops.decimal_text (pos 3);
  name = bytes "value";
  sslmode = ssl_mode_of ops config;
}
read-database_uri_example =
    read-database_uri uri_ops ops uri_laws config (value_lacks b' ' refl) (value_lacks b' ' refl)
      (
        value_lacks b':' refl,
        value_lacks b'@' refl,
        value_lacks b'/' refl,
        value_lacks b'?' refl,
        value_lacks b'#' refl,
      )
      (value_lacks b'%' refl) (value_lacks b'?' refl) (value_lacks b'#' refl)
      (value_lacks b'%' refl)
