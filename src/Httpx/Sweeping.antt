-- ===== src/Httpx/Sweeping.antt =====
-- The sweep of the rate limiter's table: which entries it deletes, and that no answer depends on it.
use shopping_cart_payment.Prelude.{
  ℕ, ◌≤◌, ◌<◌, ◌*◌, ◌+◌, ◌^◌, ◌≡◌, refl, inl, inr, Bool, not, Bool-cases, ap, subst, ◌↔◌, ltb→lt,
  some-injective, Option, none, some, List, [], ◌∷◌, pos, arith,
}
use shopping_cart_payment.Text.{Text}
use shopping_cart_payment.Model.{Time}
use shopping_cart_payment.Httpx.{
  RateOps, Limiter, LimiterEntry, entry_ttl, rate_limit, sweep, new_rate_limiter, is_stale,
}
use shopping_cart_payment.Httpx.Table.{find, IsMap, if_kept}
use shopping_cart_payment.Httpx.Requests.{find-sweep}
use shopping_cart_payment.Httpx.Buckets.{RateLaws}
use shopping_cart_payment.Httpx.Agreement.{Alike, absent, request-Alike, answer_lem, sweep-Alike}

-- What reaches the limiter, in the order of its clock.
pub data Event : Type 0 where
  request : (full_path ip : Text) (seen asked : Time) → Event
  tick : (now : Time) → Event

-- No clock goes back, and Allow reads it at most `slack` after `getLimiter` does.
abbrev pub InOrder : (slack : ℕ) → Time → List Event → Type 0
InOrder slack t [] = Unit
InOrder slack t (request full_path ip seen asked ∷ events) =
    (t ≤ seen) × (seen ≤ asked) × (asked ≤ seen + slack) × InOrder slack asked events
InOrder slack t (tick now ∷ events) = (t ≤ now) × InOrder slack now events

abbrev pub without_ticks : List Event → List Event
without_ticks [] = []
without_ticks (request full_path ip seen asked ∷ events) =
    request full_path ip seen asked ∷ without_ticks events
without_ticks (tick now ∷ events) = without_ticks events

module _ {Bucket : Type 0} (ops : RateOps Bucket) where
  -- Which requests go on.
  unfoldable pub answers : Limiter Bucket → List Event → List Bool
  unfolding rate_limit
  answers l [] = []
  answers l (request full_path ip seen asked ∷ events) =
      let (goes_on, l') = rate_limit ops l full_path ip seen asked in goes_on ∷ answers l' events
  answers l (tick now ∷ events) = answers (sweep ops l now) events

  module _ (limit burst slack : ℕ) (laws : RateLaws ops limit burst) (idle : ℕ)
      (some_burst : 0 < burst) (in_time : idle + slack ≤ entry_ttl)
      (enough : burst * 10 ^ 9 ≤ limit * idle) where
    answers_lem :
        (t : Time) (events : List Event) (l m : Limiter Bucket)
        → InOrder slack t events
        → Alike ops limit burst slack t l m
        → answers l events ≡ answers m (without_ticks events)
    unfolding answers
    answers_lem t [] l m h alike = refl
    answers_lem t (request full_path ip seen asked ∷ events) l m h alike =
        rw
          (answer_lem ops limit burst slack laws idle some_burst in_time enough t l m full_path ip
            seen asked (omega arith) alike)
          (ap (λ rest. (rate_limit ops m full_path ip seen asked).0 ∷ rest)
            (answers_lem asked events (rate_limit ops l full_path ip seen asked).1
              (rate_limit ops m full_path ip seen asked).1 h.3
              (request-Alike ops limit burst slack laws idle some_burst in_time enough t l m
                full_path ip seen asked h.0 h.1 h.2 alike)))
    answers_lem t (tick now ∷ events) l m h alike =
        answers_lem now events (sweep ops l now) m h.1 (
          sweep-Alike ops limit burst slack laws idle some_burst in_time enough t now l m h.0 alike)

kept :
    {Bucket : Type 0} (ops : RateOps Bucket) (now : Time) (entry : LimiterEntry Bucket)
    (found : Option (LimiterEntry Bucket))
    → (if_kept (λ e. not (is_stale ops now e)) found ≡ some entry)
      ↔ ((found ≡ some entry) × (now ≤ entry.last_seen + entry_ttl))
kept ops now entry none = ground arith
kept ops now entry (some e) = elim (Bool-cases (is_stale ops now e)) [
  | inl stale ↦ rw stale (ground (arith, ltb→lt (e.last_seen + entry_ttl) now stale))
  | inr live ↦ rw live (
    λ h. (h, subst (λ x. now ≤ x.last_seen + entry_ttl) (some-injective e entry h) (ground arith)),
    λ h. h.0,
  )
]

-- The sweep is not seen from outside: a limiter that starts empty lets through the same requests
-- with its sweeps as without them, in any order of requests and sweeps, when the clock does not go
-- back, when Allow reads it at most `slack` after `getLimiter`, when a bucket refills within `idle`,
-- and when `idle` and `slack` together are at most the ten minutes that an entry is kept.
pub answers-without_ticks :
    {Bucket : Type 0} (ops : RateOps Bucket) (limit burst slack : ℕ)
    → RateLaws ops limit burst
    → (idle : ℕ) → 0 < burst
    → idle + slack ≤ 600 * 10 ^ 9
    → burst * 10 ^ 9 ≤ limit * idle
    → (enabled : Bool) (events : List Event) → InOrder slack 0 events
    → answers ops (new_rate_limiter ops enabled (pos limit) (pos burst)) events
      ≡ answers ops (new_rate_limiter ops enabled (pos limit) (pos burst)) (without_ticks events)
unfolding new_rate_limiter find
answers-without_ticks ops limit burst slack laws idle some_burst in_time enough enabled events
      ordered =
    let l = new_rate_limiter ops enabled (pos limit) (pos burst) in
    answers_lem ops limit burst slack laws idle some_burst in_time enough 0 events l l ordered
      (record {
        same_enabled = refl;
        l_limit = refl;
        l_burst = refl;
        m_limit = refl;
        m_burst = refl;
        is_map = tt;
        agree = λ ip. absent;
      })

-- A sweep of a table in which every IP stands once keeps exactly the entries whose IP was seen in
-- the last ten minutes, as they are.
pub sweep-keeps :
    {Bucket : Type 0} (ops : RateOps Bucket) (l : Limiter Bucket) (now : Time) (ip : Text)
    (entry : LimiterEntry Bucket)
    → IsMap l.limiters
    → (find ip (sweep ops l now).limiters ≡ some entry)
      ↔ ((find ip l.limiters ≡ some entry) × (now ≤ entry.last_seen + 600 * 10 ^ 9))
sweep-keeps ops l now ip entry h =
    rw (find-sweep ops l now ip h) (kept ops now entry (find ip l.limiters))
