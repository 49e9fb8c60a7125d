-- ===== src/Fx.antt =====
-- modules/fx/exchange-rate.proxy.ts: the simulated provider, and the proxy that caches its rates, limits
-- the calls and falls back on old rates. A rate is in millionths: the provider keeps six decimals.
-- Times are milliseconds. A call of the proxy has two parts, `start` up to the `await` of the provider
-- and `finish` after it, since other calls may run in between.
mod Tests
pub mod RateLimit
pub mod Fallback
use vaultline.Prelude.{
  ℕ, ◌+◌, ◌*◌, ◌/◌, Bool, true, false, Option, none, some, List, [], ◌∷◌, ◌++◌, String, str_eq,
  ◌&&◌, ltb, leb, if◌then◌else◌, length, ◌==◌,
}
use vaultline.Common.{
  Result, ok, err, DomainError, business_rule, no_rate, dependency_unavailable,
  provider_unavailable,
}

pub record Rate : Type 0 where
  pub from : String
  pub to : String
  pub rate : ℕ
  pub as_of : ℕ

-- `PKR_PER_UNIT`, in tenths.
abbrev pub pkr_per_unit : List (String × ℕ)
pkr_per_unit =
    ("PKR", 10) ∷ ("USD", 2815) ∷ ("EUR", 3052) ∷ ("GBP", 3568) ∷ ("AED", 766) ∷ ("SAR", 750) ∷ []

unfoldable pub value_in : String → List (String × ℕ) → Option ℕ
value_in code [] = none
value_in code ((key, value) ∷ table) = if str_eq key code then some value else value_in code table

-- `Number((f / t).toFixed(6))`: the quotient to the nearest millionth. (No two values of the table
-- have a quotient half way between two.)
unfoldable pub quotient : ℕ → ℕ → ℕ
quotient f t = (2_000_000 * f + t) / (2 * t)

-- `ExternalExchangeRateService.getRate`
unfoldable pub external_rate : ℕ → String → String → Result Rate
unfolding value_in quotient
external_rate now from to = elim (value_in from pkr_per_unit) [
  | none ↦ err (business_rule no_rate)
  | some f ↦ elim (value_in to pkr_per_unit) [
    | none ↦ err (business_rule no_rate)
    | some t ↦ ok (record { from = from; to = to; rate = quotient f t; as_of = now })
  ]
]

-- How a call of the provider ends: a rate, a `BusinessRuleError`, or any other error.
pub data ProviderAnswer : Type 0 where
  answered : Rate → ProviderAnswer
  refused : DomainError → ProviderAnswer
  failed : ProviderAnswer

pub record CachedRate : Type 0 where
  pub rate : Rate
  pub stored_at : ℕ

pub record Stats : Type 0 where
  pub hits : ℕ
  pub misses : ℕ
  pub stale_served : ℕ

-- A key is the pair of currencies.
abbrev pub Key : Type 0
Key = String × String

abbrev pub same_key : Key → Key → Bool
same_key (a, b) (c, d) = str_eq a c && str_eq b d

pub record CachingExchangeRateProxy : Type 0 where
  pub ttl_ms : ℕ
  pub max_calls_per_minute : ℕ
  pub cache : List (Key × CachedRate)
  pub recent_calls : List ℕ
  pub stats : Stats

unfoldable pub find_rate : Key → List (Key × CachedRate) → Option CachedRate
find_rate key [] = none
find_rate key ((k, c) ∷ cache) = if same_key k key then some c else find_rate key cache

unfoldable pub set_rate : Key → CachedRate → List (Key × CachedRate) → List (Key × CachedRate)
set_rate key c [] = (key, c) ∷ []
set_rate key c ((k, old) ∷ cache) =
    if same_key k key then (k, c) ∷ cache else (k, old) ∷ set_rate key c cache

pub data Source : Type 0 where
  from_cache from_provider from_stale_cache : Source

-- `Date.now() - cached.storedAt < this.ttlMs`
abbrev pub is_fresh : ℕ → ℕ → CachedRate → Bool
is_fresh ttl_ms now c = ltb now (c.stored_at + ttl_ms)

-- `t > oneMinuteAgo`
abbrev pub is_recent : ℕ → ℕ → Bool
is_recent now t = ltb now (t + 60_000)

unfoldable pub keep_recent : ℕ → List ℕ → List ℕ
keep_recent now [] = []
keep_recent now (t ∷ calls) =
    let rest = keep_recent now calls in if is_recent now t then t ∷ rest else rest

-- `enforceRateLimit`: whether the provider may be called. The newest call stands first.
unfoldable pub enforce_rate_limit : ℕ → CachingExchangeRateProxy → Bool × CachingExchangeRateProxy
unfolding keep_recent
enforce_rate_limit now p =
    let kept = keep_recent now p.recent_calls in
    if leb p.max_calls_per_minute (length kept)
    then (false, record p { recent_calls = kept })
    else (true, record p { recent_calls = now ∷ kept })

abbrev pub hit : CachingExchangeRateProxy → CachingExchangeRateProxy
hit p = record p { stats = record (p.stats) { hits = p.stats.hits + 1 } }

abbrev pub miss : CachingExchangeRateProxy → CachingExchangeRateProxy
miss p = record p { stats = record (p.stats) { misses = p.stats.misses + 1 } }

abbrev pub stale : CachingExchangeRateProxy → CachingExchangeRateProxy
stale p = record p { stats = record (p.stats) { stale_served = p.stats.stale_served + 1 } }

-- The `catch` for an error that is not a `BusinessRuleError`.
unfoldable pub fall_back :
    Option CachedRate → CachingExchangeRateProxy → Result (Rate × Source) × CachingExchangeRateProxy
fall_back (some c) p = (ok (c.rate, from_stale_cache), stale p)
fall_back none p = (err (dependency_unavailable provider_unavailable), p)

-- Where a call stands at the `await`: done, or waiting for the provider.
pub data Started : Type 0 where
  done : Result (Rate × Source) → Started
  waiting : Option CachedRate → Started

unfoldable pub after_limit :
    Option CachedRate → Bool × CachingExchangeRateProxy → Started × CachingExchangeRateProxy
unfolding fall_back
after_limit cached (true, p) = (waiting cached, p)
after_limit cached (false, p) = let (result, p') = fall_back cached p in (done result, p')

unfoldable pub try_provider :
    ℕ → Option CachedRate → CachingExchangeRateProxy → Started × CachingExchangeRateProxy
unfolding after_limit enforce_rate_limit
try_provider now cached p = after_limit cached (enforce_rate_limit now (miss p))

unfoldable pub start_with :
    ℕ → Option CachedRate → CachingExchangeRateProxy → Started × CachingExchangeRateProxy
unfolding try_provider
start_with now none p = try_provider now none p
start_with now (some c) p =
    if is_fresh p.ttl_ms now c
    then (done (ok (c.rate, from_cache)), hit p)
    else try_provider now (some c) p

unfoldable pub start : ℕ → Key → CachingExchangeRateProxy → Started × CachingExchangeRateProxy
unfolding start_with find_rate
start now key p = start_with now (find_rate key p.cache) p

-- What follows the `await`; `cached` is what `start` found.
unfoldable pub finish :
    ℕ
    → Key
    → Option CachedRate
    → ProviderAnswer
    → CachingExchangeRateProxy
    → Result (Rate × Source) × CachingExchangeRateProxy
unfolding fall_back set_rate
finish now key cached (answered rate) p = (
  ok (rate, from_provider),
  record p { cache = set_rate key (record { rate = rate; stored_at = now }) p.cache },
)
finish now key cached (refused e) p = (err e, p)
finish now key cached failed p = fall_back cached p

unfoldable pub complete :
    ℕ
    → Key
    → ProviderAnswer
    → Started × CachingExchangeRateProxy
    → Result (Rate × Source) × CachingExchangeRateProxy
unfolding finish
complete now key answer (done result, p) = (result, p)
complete now key answer (waiting cached, p) = finish now key cached answer p

-- `getRate` with nothing in between: begun at one time, with the provider's answer at another.
unfoldable pub get_rate :
    ℕ
    → ℕ
    → Key
    → ProviderAnswer
    → CachingExchangeRateProxy
    → Result (Rate × Source) × CachingExchangeRateProxy
unfolding start complete
get_rate now later key answer p = complete later key answer (start now key p)
