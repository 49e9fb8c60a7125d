-- ===== src/Fx/RateLimit.antt =====
-- However calls interleave, the provider is called at most so often in a minute.
use vaultline.Prelude.{
  ℕ, ◌≤◌, ◌<◌, ◌≡◌, refl, ap, ◌⊎◌, arith, Option, none, some, List, [], ◌∷◌, leb, length,
  Bool-cases, inl, inr,
}
use vaultline.Fx.{
  CachedRate, CachingExchangeRateProxy, Key, ProviderAnswer, answered, refused, failed, Started,
  done, waiting, is_fresh, keep_recent, enforce_rate_limit, try_provider, start_with, start, finish,
  after_limit, fall_back, find_rate, miss,
}

-- A call of the proxy begins, or one that waited goes on.
pub data Event : Type 0 where
  begins : (now : ℕ) → Key → Event
  goes_on : (now : ℕ) → Key → Option CachedRate → ProviderAnswer → Event

-- The times of the provider's calls, newest first, with the proxy.
abbrev pub Trace : Type 0
Trace = List ℕ × CachingExchangeRateProxy

abbrev pub called : ℕ → List ℕ → Started × CachingExchangeRateProxy → Trace
called now calls (waiting cached, p) = (now ∷ calls, p)
called now calls (done result, p) = (calls, p)

unfoldable pub step : Event → Trace → Trace
step (begins now key) (calls, p) = called now calls (start now key p)
step (goes_on now key cached answer) (calls, p) = (calls, (finish now key cached answer p).1)

unfoldable pub run : List Event → Trace → Trace
unfolding step
run [] t = t
run (e ∷ events) t = run events (step e t)

-- The clock never goes back between two calls that begin.
abbrev pub InOrder : ℕ → List Event → Type 0
InOrder last [] = Unit
InOrder last (begins now key ∷ events) = (last ≤ now) × InOrder now events
InOrder last (goes_on now key cached answer ∷ events) = InOrder last events

-- How many calls lie in the minute that ends now.
abbrev pub in_last_minute : ℕ → List ℕ → ℕ
in_last_minute now calls = length (keep_recent now calls)

-- Each call made at most `max` calls in the minute that ended with it, itself included.
abbrev pub IsLimited : ℕ → List ℕ → Type 0
IsLimited max [] = Unit
IsLimited max (t ∷ calls) = (in_last_minute t (t ∷ calls) ≤ max) × IsLimited max calls

-- From `last` on, the proxy remembers every call that still counts.
record Remembers (last : ℕ) (t : Trace) : Type 0 where
  remembered : (now : ℕ) → last ≤ now → keep_recent now t.1.recent_calls ≡ keep_recent now t.0
  limited : IsLimited t.1.max_calls_per_minute t.0

-- What is dropped at one time does not count later.
keep-keep :
    (now later : ℕ) (calls : List ℕ)
    → now ≤ later
    → keep_recent later (keep_recent now calls) ≡ keep_recent later calls
unfolding keep_recent
keep-keep now later [] h = refl
keep-keep now later (t ∷ calls) h = ground (arith, keep-keep now later calls h)

-- What a call that begins does to the calls remembered and to those made: nothing, or it forgets the
-- old ones, or it also calls the provider, where there is room.
abbrev Outcome : ℕ → List ℕ → CachingExchangeRateProxy → Trace → Type 0
Outcome now calls p t =
    (t.1.max_calls_per_minute ≡ p.max_calls_per_minute)
    × ((t.0 ≡ calls) × (t.1.recent_calls ≡ p.recent_calls)
        ⊎ (t.0 ≡ calls) × (t.1.recent_calls ≡ keep_recent now p.recent_calls)
        ⊎ (t.0 ≡ now ∷ calls)
          × (t.1.recent_calls ≡ now ∷ keep_recent now p.recent_calls)
          × (length (keep_recent now p.recent_calls) < p.max_calls_per_minute))

fall_back-keeps :
    (cached : Option CachedRate) (p : CachingExchangeRateProxy)
    → ((fall_back cached p).1.recent_calls ≡ p.recent_calls)
      × ((fall_back cached p).1.max_calls_per_minute ≡ p.max_calls_per_minute)
unfolding fall_back
fall_back-keeps none p = (refl, refl)
fall_back-keeps (some c) p = (refl, refl)

try_provider-Outcome :
    (now : ℕ) (calls : List ℕ) (cached : Option CachedRate) (p : CachingExchangeRateProxy)
    → Outcome now calls p (called now calls (try_provider now cached p))
unfolding try_provider enforce_rate_limit after_limit
try_provider-Outcome now calls cached p =
    elim (Bool-cases (leb p.max_calls_per_minute (length (keep_recent now p.recent_calls)))) [
      | inl full ↦
          let p' = record (miss p) { recent_calls = keep_recent now p.recent_calls } in
          rw full ((fall_back-keeps cached p').1, inr (inl (refl, (fall_back-keeps cached p').0)))
      | inr room ↦ rw room (refl, inr (inr (refl, refl, ground arith)))
    ]

start_with-Outcome :
    (now : ℕ) (calls : List ℕ) (cached : Option CachedRate) (p : CachingExchangeRateProxy)
    → Outcome now calls p (called now calls (start_with now cached p))
unfolding start_with
start_with-Outcome now calls none p = try_provider-Outcome now calls none p
start_with-Outcome now calls (some c) p = elim (Bool-cases (is_fresh p.ttl_ms now c)) [
  | inl fresh ↦ rw fresh (refl, inl (refl, refl))
  | inr old ↦ rw old (try_provider-Outcome now calls (some c) p)
]

remember :
    (now last : ℕ) (calls : List ℕ) (p : CachingExchangeRateProxy) (t : Trace)
    → last ≤ now
    → Remembers last (calls, p)
    → Outcome now calls p t
    → Remembers now t
unfolding keep_recent
remember now last calls p (calls', p') h r (same, inl (e, e')) = record {
  remembered = λ later k. cc (r.remembered later (omega arith));
  limited = ground arith;
}
remember now last calls p (calls', p') h r (same, inr (inl (e, e'))) = record {
  remembered =
      λ later k. cc (r.remembered later (omega arith), keep-keep now later p.recent_calls k);
  limited = rw (same, e) r.limited;
}
remember now last calls p (calls', p') h r (same, inr (inr (e, e', room))) = record {
  remembered = λ later k.
      rw (e', e, keep-keep now later p.recent_calls k, r.remembered later (omega arith)) refl;
  limited = rw (same, e) (ground (arith, r.remembered now h), r.limited);
}

begins-Remembers :
    (now last : ℕ) (key : Key) (t : Trace)
    → last ≤ now
    → Remembers last t
    → Remembers now (step (begins now key) t)
unfolding step start
begins-Remembers now last key t h r =
    remember now last t.0 t.1 _ h r (start_with-Outcome now t.0 (find_rate key t.1.cache) t.1)

goes_on-Remembers :
    (now last : ℕ) (key : Key) (cached : Option CachedRate) (answer : ProviderAnswer) (t : Trace)
    → Remembers last t
    → Remembers last (step (goes_on now key cached answer) t)
unfolding step finish fall_back
goes_on-Remembers now last key cached (answered found) t r = record {
  remembered = r.remembered;
  limited = r.limited;
}
goes_on-Remembers now last key cached (refused e) t r = r
goes_on-Remembers now last key none failed t r = r
goes_on-Remembers now last key (some c) failed t r = record {
  remembered = r.remembered;
  limited = r.limited;
}

run-Remembers :
    (last : ℕ) (events : List Event) (t : Trace)
    → InOrder last events
    → Remembers last t
    → IsLimited (run events t).1.max_calls_per_minute (run events t).0
unfolding run
run-Remembers last [] t order r = r.limited
run-Remembers last (begins now key ∷ events) t order r =
    run-Remembers now events _ order.1 (begins-Remembers now last key t order.0 r)
run-Remembers last (goes_on now key cached answer ∷ events) t order r =
    run-Remembers last events _ order (goes_on-Remembers now last key cached answer t r)

-- From a proxy that has made no calls, through any calls of it, however they interleave, with a clock
-- that does not go back: each call of the provider is at most the `max_calls_per_minute`-th in the
-- minute that ends with it.
pub rate-IsLimited :
    (p : CachingExchangeRateProxy) (events : List Event)
    → p.recent_calls ≡ []
    → InOrder 0 events
    → IsLimited (run events ([], p)).1.max_calls_per_minute (run events ([], p)).0
unfolding keep_recent
rate-IsLimited p events new order =
    run-Remembers 0 events ([], p) order
      (record { remembered = λ now h. ap (keep_recent now) new; limited = tt })
