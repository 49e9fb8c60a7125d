-- ===== src/Fx/Tests.antt =====
-- The exchange rates on examples.
use vaultline.Prelude.{◌≡◌, refl, arith, none, some, List, [], ◌∷◌}
use vaultline.Common.{ok, err, business_rule, no_rate}
use vaultline.Fx.{
  Rate, CachedRate, CachingExchangeRateProxy, Key, answered, failed, external_rate, find_rate,
  get_rate,
}
use vaultline.Fx.RateLimit.{Event, begins, goes_on, IsLimited, run, rate-IsLimited}
use vaultline.Fx.Fallback.{IsServed, get_rate-IsServed}

dollars :
    external_rate 5 "USD" "PKR"
    ≡ ok (record { from = "USD"; to = "PKR"; rate = 281_500_000; as_of = 5 })
unfolding external_rate
dollars = refl

no_yen : external_rate 5 "JPY" "PKR" ≡ err (business_rule no_rate)
unfolding external_rate
no_yen = refl

abbrev pair : Key
pair = ("USD", "PKR")

abbrev rate : Rate
rate = record { from = "USD"; to = "PKR"; rate = 281_500_000; as_of = 5 }

abbrev new_proxy : CachingExchangeRateProxy
new_proxy = record {
  ttl_ms = 60_000;
  max_calls_per_minute = 1;
  cache = [];
  recent_calls = [];
  stats = record { hits = 0; misses = 0; stale_served = 0 };
}

abbrev old_rate : CachedRate
old_rate = record { rate = rate; stored_at = 0 }

abbrev known : CachingExchangeRateProxy
known = record new_proxy { cache = (pair, old_rate) ∷ [] }

-- Two calls that both begin before the first goes on.
abbrev events : List Event
events =
    begins 10 pair ∷ begins 20 pair ∷ goes_on 30 pair none (answered rate) ∷ begins 90_000 pair ∷ []

rate-IsLimited_example :
    IsLimited (run events ([], new_proxy)).1.max_calls_per_minute (run events ([], new_proxy)).0
rate-IsLimited_example = rate-IsLimited new_proxy events refl (omega arith)

known_pair : find_rate pair known.cache ≡ some old_rate
unfolding find_rate
known_pair = refl

get_rate-IsServed_example : IsServed old_rate failed (get_rate 70_000 70_300 pair failed known).0
get_rate-IsServed_example = get_rate-IsServed 70_000 70_300 pair failed known old_rate known_pair
