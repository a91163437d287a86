-- ===== src/Tests/Httpx.antt =====
-- Httpx: a token bucket that counts in the billionth part of a token, and its limiter at work.
use mathlib.Core.Logic.{inl, inr}
use native.Mathlib.Nat.{mul-le-mul_left}
use shopping_cart_payment.Prelude.{
  ℕ, ◌+◌, ◌-◌, ◌*◌, ◌^◌, ◌≤◌, ◌≡◌, refl, Bool, true, false, List, [], ◌∷◌, some, leb, if◌then◌else◌,
  pos, pos_part, arith, Bool-cases, ◌∙◌, sym, ◌↔◌,
}
use shopping_cart_payment.Text.{bytes, text_eq}
use shopping_cart_payment.Model.{Time}
use shopping_cart_payment.Httpx.{
  RateOps, Limiter, new_rate_limiter, rate_limit, sweep, entry_ttl, get_limiter, set_bucket,
}
use shopping_cart_payment.Httpx.Table.{find, put, keep}
use shopping_cart_payment.Httpx.Buckets.{Used, fresh, again, RateLaws}
use shopping_cart_payment.Httpx.Requests.{rate_limit_other}
use shopping_cart_payment.Httpx.Sweeping.{
  Event, request, tick, answers, without_ticks, answers-without_ticks, sweep-keeps,
}

record TokenBucket : Type 0 where
  pub limit : ℕ
  pub burst : ℕ
  pub tokens : ℕ
  pub last : Time

abbrev least : ℕ → ℕ → ℕ
least a b = if leb a b then a else b

abbrev tokens_at : Time → TokenBucket → ℕ
tokens_at now b = least (b.burst * 10 ^ 9) (b.tokens + b.limit * (now - b.last))

abbrev spend : Time → TokenBucket → (tokens : ℕ) → Bool × TokenBucket
spend now b tokens =
    if leb (10 ^ 9) tokens
    then (true, record b { tokens = tokens - 10 ^ 9; last = now })
    else (false, record b { tokens = tokens; last = now })

abbrev full : (limit burst : ℕ) → TokenBucket
full limit burst = record { limit = limit; burst = burst; tokens = burst * 10 ^ 9; last = 0 }

abbrev ops : RateOps TokenBucket
ops = record {
  new_bucket = λ limit burst. full (pos_part limit) (pos_part burst);
  allow = λ now b. spend now b (tokens_at now b);
}

spend-keeps :
    (now : Time) (b : TokenBucket) (tokens : ℕ)
    → ((spend now b tokens).1.limit ≡ b.limit)
      × ((spend now b tokens).1.burst ≡ b.burst)
      × ((spend now b tokens).1.last ≡ now)
spend-keeps now b tokens = elim (Bool-cases (leb (10 ^ 9) tokens)) [
  | inl e ↦ rw e (refl, refl, refl)
  | inr e ↦ rw e (refl, refl, refl)
]

used_lem :
    (limit burst : ℕ) (b : TokenBucket) (t : Time)
    → Used ops limit burst b t
    → (b.limit ≡ limit) × (b.burst ≡ burst) × (b.last ≤ t)
used_lem limit burst b t (fresh _) = (refl, refl, omega arith)
used_lem limit burst b t (again bucket last _ used h) =
    let kept = spend-keeps t bucket (tokens_at t bucket) in
    let before = used_lem limit burst bucket last used in
    (kept.0 ∙ before.0, kept.1 ∙ before.1, omega arith)

tokens_refilled :
    (limit burst tokens since idle : ℕ)
    → idle ≤ since
    → burst * 10 ^ 9 ≤ limit * idle
    → least (burst * 10 ^ 9) (tokens + limit * since) ≡ burst * 10 ^ 9
tokens_refilled limit burst tokens since idle h enough = ground (arith, mul-le-mul_left limit h)

tokens_full :
    (limit burst : ℕ) (b : TokenBucket) (idle now : ℕ)
    → b.limit ≡ limit
    → b.burst ≡ burst
    → idle ≤ now - b.last
    → burst * 10 ^ 9 ≤ limit * idle
    → tokens_at now b ≡ burst * 10 ^ 9
tokens_full limit burst b idle now hl hb h enough =
    rw (hl, hb) (tokens_refilled limit burst b.tokens (now - b.last) idle h enough)

laws : (limit burst : ℕ) → RateLaws ops limit burst
laws limit burst = record {
  refilled = λ b last idle now some_burst used h enough.
      (let kept = used_lem limit burst b last used in
        rw
          (
            tokens_full limit burst b idle now kept.0 kept.1 (omega arith) enough,
            tokens_full limit burst (full limit burst) idle now refl refl (omega arith) enough,
          )
          (rw (sym kept.0, sym kept.1) refl));
}

-- One token a second, one at most: two requests at once, a sweep ten minutes later, a third request.
abbrev events : List Event
events =
    request (bytes "/api/payments") (bytes "10.0.0.1") 5 6
    ∷ request (bytes "/api/payments") (bytes "10.0.0.1") 7 8
    ∷ tick (700 * 10 ^ 9)
    ∷ request (bytes "/api/payments") (bytes "10.0.0.1") (701 * 10 ^ 9) (701 * 10 ^ 9 + 1)
    ∷ []

abbrev start : Limiter TokenBucket
start = record { enabled = true; limiters = []; limit = pos 1; burst = pos 1 }

refuses_second : answers ops start events ≡ true ∷ false ∷ true ∷ []
unfolding answers rate_limit get_limiter set_bucket find put sweep keep text_eq
refuses_second = refl

answers-without_ticks_example :
    answers ops (new_rate_limiter ops true (pos 1) (pos 1)) events
    ≡ answers ops (new_rate_limiter ops true (pos 1) (pos 1)) (without_ticks events)
answers-without_ticks_example =
    answers-without_ticks ops 1 1 (10 ^ 9) (laws 1 1) (10 ^ 9) (omega arith) (omega arith)
      (omega arith) true events
      (
        omega arith,
        omega arith,
        omega arith,
        (
          omega arith,
          omega arith,
          omega arith,
          (omega arith, (omega arith, omega arith, omega arith, tt)),
        ),
      )

abbrev seen_once : Limiter TokenBucket
seen_once = record start {
  limiters = (bytes "10.0.0.1", record { limiter = full 1 1; last_seen = 5 }) ∷ [];
}

sweep-keeps_example :
    (find (bytes "10.0.0.1") (sweep ops seen_once (700 * 10 ^ 9)).limiters
      ≡ some (record { limiter = full 1 1; last_seen = 5 }))
    ↔ ((find (bytes "10.0.0.1") seen_once.limiters
          ≡ some (record { limiter = full 1 1; last_seen = 5 }))
        × (700 * 10 ^ 9 ≤ 5 + entry_ttl))
unfolding find
sweep-keeps_example =
    sweep-keeps ops seen_once (700 * 10 ^ 9) (bytes "10.0.0.1")
      (record { limiter = full 1 1; last_seen = 5 }) (refl, tt)

rate_limit_other_example :
    (find
        (bytes "10.0.0.2")
        (rate_limit ops start (bytes "/api/payments") (bytes "10.0.0.1") 5 6).1.limiters
      ≡ find (bytes "10.0.0.2") start.limiters)
    × ((rate_limit ops
          (rate_limit ops start (bytes "/api/payments") (bytes "10.0.0.1") 5 6).1
          (bytes "/api/payments")
          (bytes "10.0.0.2")
          7
          8).0
        ≡ (rate_limit ops start (bytes "/api/payments") (bytes "10.0.0.2") 7 8).0)
rate_limit_other_example =
    rate_limit_other ops start (bytes "/api/payments") (bytes "/api/payments") (bytes "10.0.0.1")
      (bytes "10.0.0.2") 5 6 7 8 (λ h. ground arith)
