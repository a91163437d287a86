-- ===== src/Httpx/Requests.antt =====
-- One request at the rate limiter: when it passes untouched, and what it changes else.
use shopping_cart_payment.Prelude.{
  ◌≡◌, ◌≢◌, refl, inl, inr, Bool, true, false, not, ◌||◌, Bool-cases, some, if◌then◌else◌, sym,
}
use shopping_cart_payment.Text.{Text, text_eq, bytes, is_prefix}
use shopping_cart_payment.Text.Laws.{text_eq→eq}
use shopping_cart_payment.Model.{Time}
use shopping_cart_payment.Httpx.{
  RateOps, Limiter, LimiterEntry, rate_limit, sweep, is_stale, get_limiter, set_bucket,
  bucket_or_new,
}
use shopping_cart_payment.Httpx.Table.{find, put, IsMap, find-put, put-IsMap, find-keep, if_kept}

module _ {Bucket : Type 0} (ops : RateOps Bucket) where
  abbrev pub is_exempt : Limiter Bucket → Text → Bool
  is_exempt l full_path = not l.enabled || is_prefix (bytes "/actuator/") full_path

  -- What a limited request leaves for its IP.
  abbrev pub entry_after : Limiter Bucket → (ip : Text) → (seen asked : Time) → LimiterEntry Bucket
  entry_after l ip seen asked = record {
    limiter = (ops.allow asked (bucket_or_new ops l (find ip l.limiters))).1;
    last_seen = seen;
  }

  pub rate_limit_exempt :
      (l : Limiter Bucket) (full_path ip : Text) (seen asked : Time)
      → is_exempt l full_path ≡ true
      → rate_limit ops l full_path ip seen asked ≡ (true, l)
  unfolding rate_limit
  rate_limit_exempt l full_path ip seen asked h = rw h refl

  pub rate_limit_limited :
      (l : Limiter Bucket) (full_path ip : Text) (seen asked : Time)
      → is_exempt l full_path ≡ false
      → rate_limit ops l full_path ip seen asked ≡ (
        (ops.allow asked (bucket_or_new ops l (find ip l.limiters))).0,
        record l {
          limiters = put ip (entry_after l ip seen asked) (
              put ip
                (record { limiter = bucket_or_new ops l (find ip l.limiters); last_seen = seen })
                l.limiters);
        },
      )
  unfolding rate_limit get_limiter set_bucket
  rate_limit_limited l full_path ip seen asked h = rw h refl

  pub find-rate_limit :
      (l : Limiter Bucket) (full_path ip j : Text) (seen asked : Time)
      → is_exempt l full_path ≡ false
      → find j (rate_limit ops l full_path ip seen asked).1.limiters
        ≡ (if text_eq ip j then some (entry_after l ip seen asked) else find j l.limiters)
  find-rate_limit l full_path ip j seen asked h =
      rw (rate_limit_limited l full_path ip seen asked h, find-put, find-put)
        (elim (Bool-cases (text_eq ip j)) [ inl e ↦ rw e refl | inr e ↦ rw e refl ])

  pub rate_limit-keeps :
      (l : Limiter Bucket) (full_path ip : Text) (seen asked : Time)
      → ((rate_limit ops l full_path ip seen asked).1.enabled ≡ l.enabled)
        × ((rate_limit ops l full_path ip seen asked).1.limit ≡ l.limit)
        × ((rate_limit ops l full_path ip seen asked).1.burst ≡ l.burst)
  rate_limit-keeps l full_path ip seen asked = elim (Bool-cases (is_exempt l full_path)) [
    | inl e ↦ rw (rate_limit_exempt l full_path ip seen asked e) (refl, refl, refl)
    | inr e ↦ rw (rate_limit_limited l full_path ip seen asked e) (refl, refl, refl)
  ]

  pub rate_limit-IsMap :
      (l : Limiter Bucket) (full_path ip : Text) (seen asked : Time)
      → IsMap l.limiters
      → IsMap (rate_limit ops l full_path ip seen asked).1.limiters
  rate_limit-IsMap l full_path ip seen asked h = elim (Bool-cases (is_exempt l full_path)) [
    | inl e ↦ rw (rate_limit_exempt l full_path ip seen asked e) h
    | inr e ↦ rw (rate_limit_limited l full_path ip seen asked e) (
        put-IsMap ip (entry_after l ip seen asked)
          (put ip (record { limiter = bucket_or_new ops l (find ip l.limiters); last_seen = seen })
            l.limiters)
          (put-IsMap ip
            (record { limiter = bucket_or_new ops l (find ip l.limiters); last_seen = seen })
            l.limiters h))
  ]

  pub find-sweep :
      (l : Limiter Bucket) (now : Time) (ip : Text)
      → IsMap l.limiters
      → find ip (sweep ops l now).limiters
        ≡ if_kept (λ entry. not (is_stale ops now entry)) (find ip l.limiters)
  unfolding sweep
  find-sweep l now ip h = find-keep (λ entry. not (is_stale ops now entry)) ip l.limiters h

  -- Whether a request goes on depends on the entry of its own IP alone.
  pub rate_limit_answer :
      (l : Limiter Bucket) (full_path ip : Text) (seen asked : Time)
      → (rate_limit ops l full_path ip seen asked).0 ≡ (
          if is_exempt l full_path
          then true
          else (ops.allow asked (bucket_or_new ops l (find ip l.limiters))).0)
  unfolding rate_limit get_limiter
  rate_limit_answer l full_path ip seen asked = elim (Bool-cases (is_exempt l full_path)) [
    | inl e ↦ rw e refl
    | inr e ↦ rw e refl
  ]

  find-other :
      (l : Limiter Bucket) (ip_1 ip_2 : Text) (e_1 e_2 : LimiterEntry Bucket)
      → ip_1 ≢ ip_2
      → find ip_2 (put ip_1 e_1 (put ip_1 e_2 l.limiters)) ≡ find ip_2 l.limiters
  find-other l ip_1 ip_2 e_1 e_2 other = elim (Bool-cases (text_eq ip_1 ip_2)) [
    | inl e ↦ absurd (other (text_eq→eq ip_1 ip_2 e))
    | inr e ↦ rw (find-put, find-put, e) refl
  ]

  -- A request of one IP leaves the entry of another IP as it was, and at any later time the other's
  -- request goes on exactly as if the first had not been made.
  pub rate_limit_other :
      (l : Limiter Bucket) (path_1 path_2 ip_1 ip_2 : Text) (seen_1 asked_1 seen_2 asked_2 : Time)
      → ip_1 ≢ ip_2
      → (find ip_2 (rate_limit ops l path_1 ip_1 seen_1 asked_1).1.limiters ≡ find ip_2 l.limiters)
        × ((rate_limit ops
              (rate_limit ops l path_1 ip_1 seen_1 asked_1).1
              path_2
              ip_2
              seen_2
              asked_2).0
            ≡ (rate_limit ops l path_2 ip_2 seen_2 asked_2).0)
  rate_limit_other l path_1 path_2 ip_1 ip_2 seen_1 asked_1 seen_2 asked_2 other =
      elim (Bool-cases (is_exempt l path_1)) [
        | inl e ↦ rw (rate_limit_exempt l path_1 ip_1 seen_1 asked_1 e) (refl, refl)
        | inr e ↦ rw (rate_limit_limited l path_1 ip_1 seen_1 asked_1 e) (
          find-other l ip_1 ip_2 _ _ other,
          rw (rate_limit_answer, find-other) (sym (rate_limit_answer l path_2 ip_2 seen_2 asked_2)),
        )
      ]
