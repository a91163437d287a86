-- ===== src/Config/Uri.antt =====
-- The URI of the database, read back by the grammar of RFC 3986.
use shopping_cart_payment.Prelude.{
  ◌≡◌, refl, ap, ◌∙◌, List, [], ◌∷◌, ◌++◌, All-append, drop, ℤ, if◌then◌else◌,
}
use shopping_cart_payment.Text.{Text, bytes, text_eq}
use shopping_cart_payment.Config.{Config, ConfigOps, database_uri, ssl_mode_of}
use shopping_cart_payment.Config.Cuts.{
  cut, Lacks, lacks-Lacks, LacksSeparators, cut-append, cut-skip, cut-whole, split, split-whole,
  authority, with_path, with_path-Lacks, cut_at_slash, cut_at_query, cut_at_sign,
}

-- The parts of a URI of the form that libpq documents.
pub record DatabaseTarget : Type 0 where
  pub scheme : Text
  pub username : Text
  pub password : Text
  pub host : Text
  pub port : Text
  pub name : Text
  pub sslmode : Text

-- Percent-decoding, where a plus sign stays one, and the decoding of a query, where it is a space.
pub record UriOps : Type 0 where
  pub percent_decode : Text → Text
  pub query_unescape : Text → Text

-- What QueryEscape, its two inverses and %d promise.
pub record UriLaws (ops : ConfigOps) (reader : UriOps) : Type 0 where
  pub escape_separators : (t : Text) → LacksSeparators (ops.query_escape t)
  pub escape_ampersand : (t : Text) → Lacks b'&' (ops.query_escape t)
  pub port_separators : (n : ℤ) → LacksSeparators (ops.decimal_text n)
  pub percent_decode_plain : (t : Text) → Lacks b'%' t → reader.percent_decode t ≡ t
  pub percent_decode-query_escape :
      (t : Text) → Lacks b' ' t → reader.percent_decode (ops.query_escape t) ≡ t
  pub query_unescape_plain : (t : Text) → Lacks b'%' t → Lacks b'+' t → reader.query_unescape t ≡ t
  pub query_unescape-query_escape : (t : Text) → reader.query_unescape (ops.query_escape t) ≡ t

-- The value of a parameter of a query, of the first pair that has its name.
abbrev pub parameter : UriOps → (name : Text) → List Text → Text
parameter reader name [] = []
parameter reader name (pair ∷ pairs) =
    let rest = parameter reader name pairs in
    if text_eq (reader.query_unescape (cut b'=' pair).0) name
    then reader.query_unescape (cut b'=' pair).1
    else rest

-- The fragment ends the URI, the query what is left of it, the scheme stands before the first colon,
-- two slashes begin the authority and a third one the path; user information ends at an `@`.
unfoldable pub read_uri : UriOps → Text → DatabaseTarget
read_uri reader uri =
    let (target, query) = cut b'?' (cut b'#' uri).0 in
    let (scheme, hierarchy) = cut b':' target in
    let (authority, path) = cut b'/' (drop 2 hierarchy) in
    let (credentials, address) = cut b'@' authority in
    let (username, password) = cut b':' credentials in
    let (host, port) = cut b':' address in
    record {
      scheme = scheme;
      username = reader.percent_decode username;
      password = reader.percent_decode password;
      host = reader.percent_decode host;
      port = port;
      name = reader.percent_decode path;
      sslmode = parameter reader (bytes "sslmode") (split b'&' query);
    }

module _ (reader : UriOps) where
  -- What is read when each cut is known.
  read_uri_lem :
      (uri target query scheme hierarchy authority path credentials address u p h port : Text)
      → cut b'#' uri ≡ (uri, [])
      → cut b'?' uri ≡ (target, query)
      → cut b':' target ≡ (scheme, hierarchy)
      → cut b'/' (drop 2 hierarchy) ≡ (authority, path)
      → cut b'@' authority ≡ (credentials, address)
      → cut b':' credentials ≡ (u, p)
      → cut b':' address ≡ (h, port)
      → read_uri reader uri ≡ record {
        scheme = scheme;
        username = reader.percent_decode u;
        password = reader.percent_decode p;
        host = reader.percent_decode h;
        port = port;
        name = reader.percent_decode path;
        sslmode = parameter reader (bytes "sslmode") (split b'&' query);
      }
  unfolding read_uri
  read_uri_lem uri target query scheme hierarchy authority path credentials address u p h port
        fragment queried schemed pathed signed user addressed =
      rw (fragment, queried, schemed, pathed, signed, user, addressed) refl

  parameter_named :
      (pair value : Text)
      → cut b'=' pair ≡ (bytes "sslmode", value)
      → reader.query_unescape (bytes "sslmode") ≡ bytes "sslmode"
      → parameter reader (bytes "sslmode") (pair ∷ []) ≡ reader.query_unescape value
  unfolding text_eq
  parameter_named pair value e key = rw (e, key) refl

  module _ (ops : ConfigOps) (laws : UriLaws ops reader) where
    sslmode_lem :
        (mode : Text)
        → parameter reader
            (bytes "sslmode")
            (split b'&' (bytes "sslmode=" ++ ops.query_escape mode))
          ≡ mode
    sslmode_lem mode =
        let value = ops.query_escape mode in
        let whole : split b'&' (bytes "sslmode=" ++ value) ≡ (bytes "sslmode=" ++ value) ∷ [] =
          split-whole b'&' _ (
            All-append _ (bytes "sslmode=") value (lacks-Lacks b'&' (bytes "sslmode=") refl)
              (laws.escape_ampersand mode)) in
        let pair : cut b'=' (bytes "sslmode=" ++ value) ≡ (bytes "sslmode", value) =
          cut-append b'=' (bytes "sslmode") value (lacks-Lacks b'=' (bytes "sslmode") refl) in
        let key : reader.query_unescape (bytes "sslmode") ≡ bytes "sslmode" =
          laws.query_unescape_plain (bytes "sslmode") (lacks-Lacks b'%' (bytes "sslmode") refl)
            (lacks-Lacks b'+' (bytes "sslmode") refl) in
        ap (parameter reader (bytes "sslmode")) whole
        ∙ parameter_named (bytes "sslmode=" ++ value) value pair key
        ∙ laws.query_unescape-query_escape mode

  -- The database URI says what the configuration says: read back, it gives the scheme `postgres`, the
  -- user name, the password, the host, the port, the database and the SSL mode (`disable` if there is
  -- none) of the configuration, for credentials without a space, a host without any of `:@/?#%` and
  -- a database name without any of `?#%`, when `QueryEscape` and its inverses keep to `UriLaws`.
  pub read-database_uri :
      (ops : ConfigOps)
      → UriLaws ops reader
      → (c : Config) → Lacks b' ' c.db_username
      → Lacks b' ' c.db_password
      → LacksSeparators c.db_host
      → Lacks b'%' c.db_host
      → Lacks b'?' c.db_name
      → Lacks b'#' c.db_name
      → Lacks b'%' c.db_name
      → read_uri reader (database_uri ops c) ≡ record {
        scheme = bytes "postgres";
        username = c.db_username;
        password = c.db_password;
        host = c.db_host;
        port = ops.decimal_text c.db_port;
        name = c.db_name;
        sslmode = ssl_mode_of ops c;
      }
  unfolding database_uri
  read-database_uri ops laws c hu hp hh plain_host hq hf plain_name =
      let u = ops.query_escape c.db_username in
      let p = ops.query_escape c.db_password in
      let h = c.db_host in
      let port = ops.decimal_text c.db_port in
      let query = bytes "sslmode=" ++ ops.query_escape (ssl_mode_of ops c) in
      let su = laws.escape_separators c.db_username in
      let sp = laws.escape_separators c.db_password in
      let sport = laws.port_separators c.db_port in
      let read =
        read_uri_lem (database_uri ops c) (bytes "postgres://" ++ with_path u p h port c.db_name)
          query (bytes "postgres") (bytes "//" ++ with_path u p h port c.db_name)
          (authority u p h port) c.db_name (u ++ (b':' ∷ p)) (h ++ (b':' ∷ port)) u p h port
          (cut-whole b'#' (database_uri ops c) (
            All-append _ (bytes "postgres://") _ (lacks-Lacks b'#' (bytes "postgres://") refl) (
              with_path-Lacks u p h port b'#' (c.db_name ++ (b'?' ∷ query)) refl refl refl su.4 sp.4
                hh.4 sport.4
                (All-append _ c.db_name _ hf (
                  All-append _ (bytes "?sslmode=") _ (lacks-Lacks b'#' (bytes "?sslmode=") refl)
                    (laws.escape_separators (ssl_mode_of ops c)).4)))))
          (cut-skip b'?' (bytes "postgres://") (with_path u p h port (c.db_name ++ (b'?' ∷ query)))
              (lacks-Lacks b'?' (bytes "postgres://") refl)
            ∙ ap (λ x. (bytes "postgres://" ++ x.0, x.1))
                (cut_at_query u p h port c.db_name query su.3 sp.3 hh.3 sport.3 hq))
          (cut-append b':' (bytes "postgres") (bytes "//" ++ with_path u p h port c.db_name)
            (lacks-Lacks b':' (bytes "postgres") refl))
          (cut_at_slash u p h port c.db_name su.2 sp.2 hh.2 sport.2)
          (cut_at_sign u p h port su.1 sp.1) (cut-append b':' u p su.0)
          (cut-append b':' h port hh.0) in
      read
      ∙ rw
          (
            laws.percent_decode-query_escape c.db_username hu,
            laws.percent_decode-query_escape c.db_password hp,
            laws.percent_decode_plain c.db_host plain_host,
            laws.percent_decode_plain c.db_name plain_name,
            sslmode_lem ops laws (ssl_mode_of ops c),
          )
          refl
