-- ===== src/Httpx.antt =====
-- go/internal/httpx/middleware.go: the security headers, the rate limiter and the request log. A
-- token bucket is golang.org/x/time/rate's and comes as a parameter.
pub mod Table
pub mod Buckets
pub mod Requests
pub mod Agreement
pub mod Sweeping
use mathlib.Core.List.{filter}
use shopping_cart_payment.Prelude.{
  ℕ, ◌+◌, ◌*◌, ◌-◌, ◌^◌, Bool, true, false, not, ◌||◌, Option, none, some, List, [], ◌∷◌, ◌++◌, ℤ,
  ltb, if◌then◌else◌,
}
use shopping_cart_payment.Text.{Text, bytes, is_prefix, is_empty}
use shopping_cart_payment.Model.{Time}
use Table.{find, put, keep}

-- `SecurityHeaders`: what it sets on every answer.
unfoldable pub security_headers : List (Text × Text)
security_headers =
    (bytes "X-XSS-Protection", bytes "1; mode=block")
    ∷ (bytes "X-Frame-Options", bytes "DENY")
    ∷ (bytes "X-Content-Type-Options", bytes "nosniff")
    ∷ (
      bytes "Content-Security-Policy",
      bytes
          "default-src 'self'; script-src 'self'; style-src 'self'; img-src 'self' data:; font-src 'self'; frame-ancestors 'none'; form-action 'self'",
    )
    ∷ (bytes "Referrer-Policy", bytes "strict-origin-when-cross-origin")
    ∷ (bytes "Strict-Transport-Security", bytes "max-age=31536000; includeSubDomains")
    ∷ (bytes "Permissions-Policy", bytes "geolocation=(), microphone=(), camera=()")
    ∷ []

-- rate.NewLimiter, and AllowN(t, 1) of a limiter, which is Allow at the time t.
pub record RateOps (Bucket : Type 0) : Type 0 where
  pub new_bucket : (limit burst : ℤ) → Bucket
  pub allow : Time → Bucket → Bool × Bucket

-- rateLimiterEntryTTL, in nanoseconds
abbrev pub entry_ttl : ℕ
entry_ttl = 600 * 10 ^ 9

pub record LimiterEntry (Bucket : Type 0) : Type 0 where
  pub limiter : Bucket
  pub last_seen : Time

pub record Limiter (Bucket : Type 0) : Type 0 where
  pub enabled : Bool
  pub limiters : List (Text × LimiterEntry Bucket)
  pub limit : ℤ
  pub burst : ℤ

module _ {Bucket : Type 0} (ops : RateOps Bucket) where
  -- The limiter that `NewRateLimiter` makes.
  unfoldable pub new_rate_limiter : Bool → (per_second burst : ℤ) → Limiter Bucket
  new_rate_limiter enabled per_second burst = record {
    enabled = enabled;
    limiters = [];
    limit = per_second;
    burst = burst;
  }

  abbrev pub bucket_or_new : Limiter Bucket → Option (LimiterEntry Bucket) → Bucket
  bucket_or_new l none = ops.new_bucket l.limit l.burst
  bucket_or_new l (some entry) = entry.limiter

  -- `getLimiter` when time.Now gives `now`: the bucket, which the table holds too.
  unfoldable pub get_limiter : Limiter Bucket → (ip : Text) → (now : Time) → Bucket × Limiter Bucket
  get_limiter l ip now =
      let bucket = bucket_or_new l (find ip l.limiters) in
      (
        bucket,
        record l { limiters = put ip (record { limiter = bucket; last_seen = now }) l.limiters },
      )

  -- The pointer that `getLimiter` returned is the table's own: the table holds the bucket that Allow
  -- left.
  unfoldable pub set_bucket : Limiter Bucket → (ip : Text) → (seen : Time) → Bucket → Limiter Bucket
  set_bucket l ip seen bucket = record l {
    limiters = put ip (record { limiter = bucket; last_seen = seen }) l.limiters;
  }

  -- The handler of `NewRateLimiter`: whether the request goes on. `getLimiter` reads the clock at
  -- `seen`, Allow at `asked`.
  unfoldable pub rate_limit :
      Limiter Bucket → (full_path ip : Text) → (seen asked : Time) → Bool × Limiter Bucket
  unfolding get_limiter set_bucket
  rate_limit l full_path ip seen asked =
      if not l.enabled || is_prefix (bytes "/actuator/") full_path
      then (true, l)
      else (let (bucket, l') = get_limiter l ip seen in
          let (goes_on, bucket') = ops.allow asked bucket in
          (goes_on, set_bucket l' ip seen bucket'))

  -- `entry.lastSeen.Before(cutoff)` with `cutoff` ten minutes before `now`
  abbrev pub is_stale : (now : Time) → LimiterEntry Bucket → Bool
  is_stale now entry = ltb (entry.last_seen + entry_ttl) now

  -- One round of the loop in `sweep`.
  unfoldable pub sweep : Limiter Bucket → (now : Time) → Limiter Bucket
  sweep l now = record l { limiters = keep (λ entry. not (is_stale now entry)) l.limiters }

-- The fields that `RequestLogger` logs.
pub record RequestLog : Type 0 where
  pub request_method : Text
  pub path : Text
  pub status : ℕ
  pub duration : ℕ
  pub client_ip : Text
  pub error : Option Text

-- `RequestLogger`: `errors` is the text of the errors that the handlers left, empty if there are none.
unfoldable pub request_log :
    (request_method path : Text)
    → (status : ℕ) → (start finish : Time) → (client_ip errors : Text) → RequestLog
request_log request_method path status start finish client_ip errors = record {
  request_method = request_method;
  path = path;
  status = status;
  duration = finish - start;
  client_ip = client_ip;
  error = if is_empty errors then none else some errors;
}
