-- ===== src/Httpx/Agreement.antt =====
-- Two tables of the rate limiter, one that is swept and one that is not: they give the same answers.
use shopping_cart_payment.Prelude.{
  ℕ, ◌≤◌, ◌<◌, ◌*◌, ◌+◌, ◌^◌, ◌≡◌, refl, inl, inr, Bool, not, ◌||◌, Bool-cases, if◌then◌else◌, sym,
  subst, Option, none, some, pos, arith,
}
use shopping_cart_payment.Text.{Text, text_eq, bytes, is_prefix}
use shopping_cart_payment.Model.{Time}
use shopping_cart_payment.Httpx.{
  RateOps, Limiter, LimiterEntry, entry_ttl, rate_limit, sweep, bucket_or_new, is_stale,
}
use shopping_cart_payment.Httpx.Table.{find, IsMap, find-keep, keep-IsMap, if_kept}
use shopping_cart_payment.Httpx.Requests.{
  is_exempt, entry_after, rate_limit_exempt, find-rate_limit, rate_limit-IsMap, rate_limit_answer,
  rate_limit-keeps,
}
use shopping_cart_payment.Httpx.Buckets.{Used, fresh, again, RateLaws}

module _ {Bucket : Type 0} (ops : RateOps Bucket) where
  module _ (limit burst slack : ℕ) where
    -- The entries for one IP in a table that is swept and in one that is not, at the time t.
    pub data Agree (t : Time)
        : Option (LimiterEntry Bucket) → Option (LimiterEntry Bucket) → Type 0 where
      absent : Agree t none none
      same :
          (entry : LimiterEntry Bucket) (last : Time)
          → Used ops limit burst entry.limiter last
          → last ≤ t
          → last ≤ entry.last_seen + slack
          → Agree t (some entry) (some entry)
      swept :
          (entry : LimiterEntry Bucket) (last : Time)
          → Used ops limit burst entry.limiter last
          → last ≤ entry.last_seen + slack
          → entry.last_seen + entry_ttl < t
          → Agree t none (some entry)

    pub record Alike (t : Time) (l m : Limiter Bucket) : Type 0 where
      pub same_enabled : l.enabled ≡ m.enabled
      pub l_limit : l.limit ≡ pos limit
      pub l_burst : l.burst ≡ pos burst
      pub m_limit : m.limit ≡ pos limit
      pub m_burst : m.burst ≡ pos burst
      pub is_map : IsMap l.limiters
      pub agree : (ip : Text) → Agree t (find ip l.limiters) (find ip m.limiters)

    Agree-later :
        (t u : Time) (a b : Option (LimiterEntry Bucket)) → t ≤ u → Agree t a b → Agree u a b
    Agree-later t u a b h absent = absent
    Agree-later t u a b h (same entry last used by near) = same entry last used (omega arith) near
    Agree-later t u a b h (swept entry last used near old) =
        swept entry last used near (omega arith)

    Alike-later : (t u : Time) (l m : Limiter Bucket) → t ≤ u → Alike t l m → Alike u l m
    Alike-later t u l m h alike = record {
      same_enabled = alike.same_enabled;
      l_limit = alike.l_limit;
      l_burst = alike.l_burst;
      m_limit = alike.m_limit;
      m_burst = alike.m_burst;
      is_map = alike.is_map;
      agree = λ j. Agree-later t u (find j l.limiters) (find j m.limiters) h (alike.agree j);
    }

    exempt_too :
        {answer : Bool} (l m : Limiter Bucket) (full_path : Text)
        → l.enabled ≡ m.enabled
        → is_exempt ops l full_path ≡ answer
        → is_exempt ops m full_path ≡ answer
    exempt_too {answer = answer} l m full_path h e =
        subst (λ b. (not b || is_prefix (bytes "/actuator/") full_path) ≡ answer) h e

    if_kept-Agree :
        (t now : Time) (a b : Option (LimiterEntry Bucket))
        → t ≤ now
        → Agree t a b
        → Agree now (if_kept (λ entry. not (is_stale ops now entry)) a) b
    if_kept-Agree t now a b h absent = absent
    if_kept-Agree t now a b h (same entry last used by near) =
        elim (Bool-cases (is_stale ops now entry)) [
          | inl e ↦ rw e (swept entry last used near (grind arith))
          | inr e ↦ rw e (same entry last used (omega arith) near)
        ]
    if_kept-Agree t now a b h (swept entry last used near old) =
        swept entry last used near (omega arith)

    module _ (laws : RateLaws ops limit burst) (idle : ℕ) (some_burst : 0 < burst)
        (in_time : idle + slack ≤ entry_ttl) (enough : burst * 10 ^ 9 ≤ limit * idle) where
      -- Allow finds a bucket that behaves as the one of the table that is not swept.
      allow_lem :
          (t asked : Time) (l m : Limiter Bucket) (a b : Option (LimiterEntry Bucket))
          → t ≤ asked
          → Alike t l m
          → Agree t a b
          → ops.allow asked (bucket_or_new ops l a) ≡ ops.allow asked (bucket_or_new ops m b)
      allow_lem t asked l m a b h alike absent =
          rw (alike.l_limit, alike.l_burst, alike.m_limit, alike.m_burst) refl
      allow_lem t asked l m a b h alike (same entry last used by near) = refl
      allow_lem t asked l m a b h alike (swept entry last used near old) =
          rw (alike.l_limit, alike.l_burst)
            (sym (laws.refilled entry.limiter last idle asked some_burst used (omega arith) enough))

      bucket-Used :
          (t asked : Time) (m : Limiter Bucket) (a b : Option (LimiterEntry Bucket))
          → t ≤ asked
          → m.limit ≡ pos limit
          → m.burst ≡ pos burst
          → Agree t a b
          → Used ops limit burst (ops.allow asked (bucket_or_new ops m b)).1 asked
      bucket-Used t asked m a b h hl hb absent =
          rw (hl, hb) (again (ops.new_bucket (pos limit) (pos burst)) t asked (fresh t) h)
      bucket-Used t asked m a b h hl hb (same entry last used by near) =
          again entry.limiter last asked used (omega arith)
      bucket-Used t asked m a b h hl hb (swept entry last used near old) =
          again entry.limiter last asked used (omega arith)

      request-Agree :
          (t : Time) (l m : Limiter Bucket) (ip j : Text) (seen asked : Time)
          → t ≤ seen
          → seen ≤ asked
          → asked ≤ seen + slack
          → Alike t l m
          → Agree asked
              (if text_eq ip j then some (entry_after ops l ip seen asked) else find j l.limiters)
              (if text_eq ip j then some (entry_after ops m ip seen asked) else find j m.limiters)
      request-Agree t l m ip j seen asked h₁ h₂ h₃ alike = elim (Bool-cases (text_eq ip j)) [
        | inl e ↦
            rw
              (
                e,
                allow_lem t asked l m (find ip l.limiters) (find ip m.limiters) (omega arith) alike
                    (alike.agree ip),
              )
              (same (entry_after ops m ip seen asked) asked
                (bucket-Used t asked m (find ip l.limiters) (find ip m.limiters) (omega arith)
                  alike.m_limit alike.m_burst (alike.agree ip))
                (omega arith) h₃)
        | inr e ↦ rw e (
            Agree-later t asked (find j l.limiters) (find j m.limiters) (omega arith)
              (alike.agree j))
      ]

      pub request-Alike :
          (t : Time) (l m : Limiter Bucket) (full_path ip : Text) (seen asked : Time)
          → t ≤ seen
          → seen ≤ asked
          → asked ≤ seen + slack
          → Alike t l m
          → Alike asked
              (rate_limit ops l full_path ip seen asked).1
              (rate_limit ops m full_path ip seen asked).1
      request-Alike t l m full_path ip seen asked h₁ h₂ h₃ alike =
          elim (Bool-cases (is_exempt ops l full_path)) [
            | inl e ↦
                rw
                  (
                    rate_limit_exempt ops l full_path ip seen asked e,
                    rate_limit_exempt ops m full_path ip seen asked
                        (exempt_too l m full_path alike.same_enabled e),
                  )
                  (Alike-later t asked l m (omega arith) alike)
            | inr e ↦ record {
              same_enabled =
                  rw
                    (
                      (rate_limit-keeps ops l full_path ip seen asked).0,
                      (rate_limit-keeps ops m full_path ip seen asked).0,
                    )
                    alike.same_enabled;
              l_limit = rw ((rate_limit-keeps ops l full_path ip seen asked).1) alike.l_limit;
              l_burst = rw ((rate_limit-keeps ops l full_path ip seen asked).2) alike.l_burst;
              m_limit = rw ((rate_limit-keeps ops m full_path ip seen asked).1) alike.m_limit;
              m_burst = rw ((rate_limit-keeps ops m full_path ip seen asked).2) alike.m_burst;
              is_map = rate_limit-IsMap ops l full_path ip seen asked alike.is_map;
              agree = λ j.
                  rw
                    (
                      find-rate_limit ops l full_path ip j seen asked e,
                      find-rate_limit ops m full_path ip j seen asked
                          (exempt_too l m full_path alike.same_enabled e),
                    )
                    (request-Agree t l m ip j seen asked h₁ h₂ h₃ alike);
            }
          ]

      pub answer_lem :
          (t : Time) (l m : Limiter Bucket) (full_path ip : Text) (seen asked : Time)
          → t ≤ asked
          → Alike t l m
          → (rate_limit ops l full_path ip seen asked).0
            ≡ (rate_limit ops m full_path ip seen asked).0
      answer_lem t l m full_path ip seen asked h alike =
          rw
            (
              rate_limit_answer,
              rate_limit_answer,
              alike.same_enabled,
              allow_lem t asked l m (find ip l.limiters) (find ip m.limiters) h alike
                  (alike.agree ip),
            )
            refl

      pub sweep-Alike :
          (t now : Time) (l m : Limiter Bucket)
          → t ≤ now
          → Alike t l m
          → Alike now (sweep ops l now) m
      unfolding sweep
      sweep-Alike t now l m h alike = record {
        same_enabled = alike.same_enabled;
        l_limit = alike.l_limit;
        l_burst = alike.l_burst;
        m_limit = alike.m_limit;
        m_burst = alike.m_burst;
        is_map = keep-IsMap (λ entry. not (is_stale ops now entry)) l.limiters alike.is_map;
        agree = λ j.
            rw (find-keep (λ entry. not (is_stale ops now entry)) j l.limiters alike.is_map)
              (if_kept-Agree t now (find j l.limiters) (find j m.limiters) h (alike.agree j));
      }
