-- ===== src/Core/Currency.antt =====
-- modules/core/currency.flyweight.ts. `toUpperCase` is a parameter. An object of the pool stands for itself:
-- two equal currencies are one object if the pool has one entry for the code. `format` prints by
-- the language's locale and is left out.
use vaultline.Prelude.{
  length, ℕ, Bool, true, false, Option, none, some, List, [], ◌∷◌, ◌++◌, ◌≡◌, refl, ap, String,
  str_eq, if◌then◌else◌, Bool-cases, Option-cases, inl, inr, arith,
}

pub record Currency : Type 0 where
  pub code : String
  pub name : String
  pub symbol : String
  pub decimals : ℕ

abbrev pub currency : String → String → String → Currency
currency code name symbol = record { code = code; name = name; symbol = symbol; decimals = 2 }

-- `KNOWN_CURRENCIES`
abbrev pub known_currencies : List Currency
known_currencies =
    currency "PKR" "Pakistani Rupee" "Rs"
    ∷ currency "USD" "US Dollar" "$"
    ∷ currency "EUR" "Euro" "€"
    ∷ currency "GBP" "British Pound" "£"
    ∷ currency "AED" "UAE Dirham" "AED"
    ∷ currency "SAR" "Saudi Riyal" "SAR"
    ∷ []

unfoldable pub find_currency : String → List Currency → Option Currency
find_currency key [] = none
find_currency key (c ∷ currencies) =
    if str_eq c.code key then some c else find_currency key currencies

-- The pool, the oldest object first.
abbrev pub CurrencyRegistry : Type 0
CurrencyRegistry = List Currency

unfoldable pub add_known : Option Currency → CurrencyRegistry → Option Currency × CurrencyRegistry
add_known none pool = (none, pool)
add_known (some c) pool = (some c, pool ++ c ∷ [])

unfoldable pub pooled :
    String → Option Currency → CurrencyRegistry → Option Currency × CurrencyRegistry
unfolding add_known find_currency
pooled key (some c) pool = (some c, pool)
pooled key none pool = add_known (find_currency key known_currencies) pool

abbrev pub is_some {ℓ} : {A : Type ℓ} → Option A → Bool
is_some none = false
is_some (some a) = true

module _ (to_upper_case : String → String) where
  -- `get`: `none` is the error for a code that is not supported.
  unfoldable pub get : String → CurrencyRegistry → Option Currency × CurrencyRegistry
  unfolding pooled find_currency
  get code pool = let key = to_upper_case code in pooled key (find_currency key pool) pool

  -- `isSupported`
  unfoldable pub is_supported : String → Bool
  unfolding find_currency
  is_supported code = is_some (find_currency (to_upper_case code) known_currencies)

-- `supportedCodes`
abbrev codes_of : List Currency → List String
codes_of [] = []
codes_of (c ∷ currencies) = c.code ∷ codes_of currencies

unfoldable pub supported_codes : List String
supported_codes = codes_of known_currencies

-- `sharedInstanceCount`
unfoldable pub shared_instance_count : CurrencyRegistry → ℕ
shared_instance_count pool = length pool

find-append :
    (key : String) (c : Currency) (pool : List Currency)
    → find_currency key pool ≡ none
    → str_eq c.code key ≡ true
    → find_currency key (pool ++ c ∷ []) ≡ some c
unfolding find_currency
find-append key c [] h e = rw e refl
find-append key c (d ∷ pool) h e = elim (Bool-cases (str_eq d.code key)) [
  | inl here ↦ absurd (ground arith)
  | inr there ↦ rw there (find-append key c pool (rw there at h) e)
]

code-find :
    (key : String) (c : Currency) (currencies : List Currency)
    → find_currency key currencies ≡ some c
    → str_eq c.code key ≡ true
unfolding find_currency
code-find key c [] h = cc
code-find key c (d ∷ currencies) h = ground (arith, code-find key c currencies)

-- A code that was found is found again as the same object, and the pool does not grow.
pub get_again :
    (to_upper_case : String → String) (code : String) (pool : CurrencyRegistry) (c : Currency)
    → (get to_upper_case code pool).0 ≡ some c
    → get to_upper_case code (get to_upper_case code pool).1
      ≡ (some c, (get to_upper_case code pool).1)
unfolding get pooled add_known
get_again to_upper_case code pool c h =
    elim (Option-cases (find_currency (to_upper_case code) pool)) [
      | inr (d, old) ↦ rw old (rw old (ap (λ (o : Option Currency). (o, pool)) (rw old at h)))
      | inl new ↦ elim (Option-cases (find_currency (to_upper_case code) known_currencies)) [
        | inl unknown ↦ absurd (ground arith)
        | inr (d, known) ↦
            let found =
              find-append (to_upper_case code) d pool new
                (code-find (to_upper_case code) d known_currencies known) in
            rw (new, known, found)
              (ap (λ (o : Option Currency). (o, pool ++ d ∷ [])) (rw (new, known) at h))
      ]
    ]
