-- ===== src/Httpx/Buckets.antt =====
-- What golang.org/x/time/rate documents of a token bucket that NewLimiter made and that Allow was
-- called on at times that never go back.
use shopping_cart_payment.Prelude.{ℕ, ◌≤◌, ◌<◌, ◌*◌, ◌+◌, ◌^◌, ◌≡◌, pos}
use shopping_cart_payment.Model.{Time}
use shopping_cart_payment.Httpx.{RateOps}

module _ {Bucket : Type 0} (ops : RateOps Bucket) (limit burst : ℕ) where
  -- A bucket that the calls of Allow so far, the last of them by the given time, left.
  pub data Used : Bucket → Time → Type 0 where
    fresh : (t : Time) → Used (ops.new_bucket (pos limit) (pos burst)) t
    again :
        (bucket : Bucket) (last now : Time)
        → Used bucket last
        → last ≤ now
        → Used (ops.allow now bucket).1 now

  -- A limit of so many tokens a second refills the bucket, which burst tokens fill: one that was left
  -- alone for long enough is as a new one.
  pub record RateLaws : Type 0 where
    pub refilled :
        (bucket : Bucket) (last idle now : Time)
        → 0 < burst
        → Used bucket last
        → last + idle ≤ now
        → burst * 10 ^ 9 ≤ limit * idle
        → ops.allow now bucket ≡ ops.allow now (ops.new_bucket (pos limit) (pos burst))
