-- ===== src/Fx/Fallback.antt =====
-- What the proxy answers: a rate that is known stays available, and a rate from the provider is served
-- again from the cache.
use vaultline.Prelude.{
  ℕ, ◌+◌, ◌<◌, ◌≡◌, refl, arith, Bool, true, Option, some, List, [], ◌∷◌, str_eq_iff, leb, length,
  Bool-cases, inl, inr,
}
use vaultline.Common.{Result, ok, err}
use vaultline.Fx.{
  Rate, CachedRate, CachingExchangeRateProxy, Key, same_key, ProviderAnswer, answered, refused,
  failed, Source, from_cache, from_provider, from_stale_cache, is_fresh, keep_recent,
  enforce_rate_limit, try_provider, start_with, start, complete, finish, after_limit, fall_back,
  find_rate, set_rate, get_rate, hit,
}

-- The answer to a call that found `c` in the cache: its rate, fresh or stale, or the provider's rate, or the
-- provider's own refusal.
abbrev pub IsServed : CachedRate → ProviderAnswer → Result (Rate × Source) → Type 0
IsServed c answer (ok (r, from_cache)) = r ≡ c.rate
IsServed c answer (ok (r, from_stale_cache)) = r ≡ c.rate
IsServed c answer (ok (r, from_provider)) = answer ≡ answered r
IsServed c answer (err e) = answer ≡ refused e

finish-IsServed :
    (later : ℕ) (key : Key) (c : CachedRate) (answer : ProviderAnswer)
    (p : CachingExchangeRateProxy)
    → IsServed c answer (finish later key (some c) answer p).0
unfolding finish fall_back
finish-IsServed later key c (answered r) p = refl
finish-IsServed later key c (refused e) p = refl
finish-IsServed later key c failed p = refl

abbrev has_room : ℕ → CachingExchangeRateProxy → Bool
has_room now p = leb p.max_calls_per_minute (length (keep_recent now p.recent_calls))

-- Once a pair of currencies is in the cache, a call for it answers with that rate or with the provider's,
-- or with the provider's own refusal: neither an outage nor the rate limit is an error.
pub get_rate-IsServed :
    (now later : ℕ) (key : Key) (answer : ProviderAnswer) (p : CachingExchangeRateProxy)
    (c : CachedRate)
    → find_rate key p.cache ≡ some c
    → IsServed c answer (get_rate now later key answer p).0
unfolding get_rate start start_with complete try_provider enforce_rate_limit after_limit fall_back
get_rate-IsServed now later key answer p c found = elim (Bool-cases (is_fresh p.ttl_ms now c)) [
  | inl fresh ↦ rw (found, fresh) refl
  | inr old ↦ elim (Bool-cases (has_room now p)) [
    | inl full ↦ rw (found, old, full) refl
    | inr room ↦ rw (found, old, room) (finish-IsServed later key c answer _)
  ]
]

same_key_refl : (key : Key) → same_key key key ≡ true
same_key_refl (a, b) = rw ((str_eq_iff a a).1 refl, (str_eq_iff b b).1 refl)

find_rate-set :
    (key : Key) (c : CachedRate) (cache : List (Key × CachedRate))
    → find_rate key (set_rate key c cache) ≡ some c
unfolding find_rate set_rate
find_rate-set key c [] = rw same_key_refl
find_rate-set key c ((k, old) ∷ cache) = elim (Bool-cases (same_key k key)) [
  | inl here ↦ rw here (rw here refl)
  | inr there ↦ rw there (rw there (find_rate-set key c cache))
]

-- What the provider answered at `later` is served from the cache to a call for the same pair that begins
-- within the time to live, without asking the provider again.
pub served_again :
    (later now' later' : ℕ) (key : Key) (cached : Option CachedRate) (r : Rate)
    (answer : ProviderAnswer) (p : CachingExchangeRateProxy)
    → now' < later + p.ttl_ms
    → let p' = (finish later key cached (answered r) p).1 in
      get_rate now' later' key answer p' ≡ (ok (r, from_cache), hit p')
unfolding get_rate start start_with complete finish
served_again later now' later' key cached r answer p young =
    let fresh : is_fresh p.ttl_ms now' (record { rate = r; stored_at = later }) ≡ true =
      ground arith in
    rw (find_rate-set key (record { rate = r; stored_at = later }) p.cache, fresh)
