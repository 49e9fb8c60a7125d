-- ===== src/Loans/Bureau.antt =====
-- modules/loans/domain/credit-bureau.adapter.ts: the report that the legacy client prints, and the adapter that
-- reads it. `toUpperCase` and the test `/default/i` are parameters; a character is its code, below 65536.
-- The score has three digits and the enquiries one, so `padStart` puts a zero before either.
pub mod Read
use vaultline.Prelude.{
  ℕ, zero, suc, ◌+◌, ◌*◌, ◌/◌, ◌%◌, ◌-◌, Bool, true, false, Option, none, some, List, [], ◌∷◌, ◌++◌,
  map, if◌then◌else◌, ◌==◌, leb, ◌&&◌,
}
use vaultline.Common.Texts.{Text, text, same_text}

pub record NameFunctions : Type 0 where
  pub to_upper_case : Text → Text
  pub mentions_default : Text → Bool

-- `reduce((sum, ch) => (sum * 31 + ch.charCodeAt(0)) % 100_000, 7)`
unfoldable pub hash_from : ℕ → Text → ℕ
hash_from sum [] = sum
hash_from sum (c ∷ s) = hash_from ((sum * 31 + c) % 100_000) s

abbrev pub hash_of : Text → ℕ
hash_of name = hash_from 7 name

abbrev pub score_of : ℕ → ℕ
score_of hash = 550 + hash % 300

abbrev pub enquiries_of : ℕ → ℕ
enquiries_of hash = hash % 6

abbrev pub digit : ℕ → ℕ
digit n = 48 + n % 10

abbrev pub four_digits : ℕ → Text
four_digits n = digit (n / 1000) ∷ digit (n / 100) ∷ digit (n / 10) ∷ digit n ∷ []

abbrev pub two_digits : ℕ → Text
two_digits n = digit (n / 10) ∷ digit n ∷ []

abbrev pub yes_no : Bool → Text
yes_no true = text "Y"
yes_no false = text "N"

abbrev pub bar : ℕ
bar = 124

abbrev pub equals : ℕ
equals = 61

-- The fields behind the name.
abbrev pub fields_behind : ℕ → Bool → Text
fields_behind hash defaulted =
    (text "SCR=" ++ four_digits (score_of hash))
    ++ (bar
        ∷ ((text "DFLT=" ++ yes_no defaulted)
            ++ (bar ∷ (text "ENQ=" ++ two_digits (enquiries_of hash)))))

-- `LegacyCreditBureauClient.FETCH_RPT`
unfoldable pub fetch_rpt : NameFunctions → Text → Text
unfolding hash_from
fetch_rpt names name =
    let upper = names.to_upper_case name in
    (text "CUST=" ++ upper) ++ (bar ∷ fields_behind (hash_of upper) (names.mentions_default name))

-- `split`
abbrev pub put_first : ℕ → List Text → List Text
put_first c [] = (c ∷ []) ∷ []
put_first c (s ∷ parts) = (c ∷ s) ∷ parts

unfoldable pub split : ℕ → Text → List Text
split separator [] = [] ∷ []
split separator (c ∷ s) =
    let rest = split separator s in if c == separator then [] ∷ rest else put_first c rest

-- What a pair gives to `Object.fromEntries`: its key, and its value if it has one.
abbrev pub entry_of : List Text → Text × Option Text
entry_of [] = ([], none)
entry_of (key ∷ []) = (key, none)
entry_of (key ∷ value ∷ more) = (key, some value)

unfoldable pub entries_in : Text → List (Text × Option Text)
unfolding split
entries_in raw = map (λ pair. entry_of (split equals pair)) (split bar raw)

-- A later entry replaces an earlier one with its key.
abbrev pub or_first : Option (Option Text) → Option (Option Text) → Option (Option Text)
or_first (some v) earlier = some v
or_first none earlier = earlier

unfoldable pub last_value : Text → List (Text × Option Text) → Option (Option Text)
unfolding same_text
last_value key [] = none
last_value key ((k, v) ∷ entries) =
    or_first (last_value key entries) (if same_text k key then some v else none)

abbrev pub defined_value : Option (Option Text) → Option Text
defined_value none = none
defined_value (some v) = v

-- `Number.parseInt(value, 10)` of a value that begins with a digit: the number its digits spell.
abbrev pub is_decimal : ℕ → Bool
is_decimal c = leb 48 c && leb c 57

unfoldable pub parse_from : ℕ → Text → ℕ
parse_from n [] = n
parse_from n (c ∷ s) =
    let rest = parse_from (n * 10 + (c - 48)) s in if is_decimal c then rest else n

abbrev pub parse_int : Option Text → Option ℕ
parse_int none = none
parse_int (some []) = none
parse_int (some (c ∷ s)) = if is_decimal c then some (parse_from 0 (c ∷ s)) else none

abbrev pub is_yes : Option Text → Bool
is_yes none = false
is_yes (some s) = same_text s (text "Y")

pub record BureauReport : Type 0 where
  pub score : Option ℕ
  pub has_defaults : Bool
  pub recent_enquiries : Option ℕ

-- `LegacyCreditBureauAdapter.getReport`, of what the client printed.
unfoldable pub read_report : Text → BureauReport
unfolding entries_in last_value parse_from same_text
read_report raw =
    let fields = entries_in raw in
    record {
      score = parse_int (defined_value (last_value (text "SCR") fields));
      has_defaults = is_yes (defined_value (last_value (text "DFLT") fields));
      recent_enquiries = parse_int (defined_value (last_value (text "ENQ") fields));
    }
