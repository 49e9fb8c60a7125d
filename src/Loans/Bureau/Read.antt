-- ===== src/Loans/Bureau/Read.antt =====
-- The adapter reads what the client wrote, whatever the name of the applicant is.
use vaultline.Prelude.{
  ℕ, ◌/◌, ◌≤◌, ◌≡◌, ◌≢◌, refl, ap, ◌∙◌, arith, Bool, true, false, Option, some, List, [], ◌∷◌, ◌++◌,
  map, ◌==◌, Bool-cases, inl, inr,
}
use vaultline.Common.Texts.{Text, text, same_text}
use vaultline.Loans.Bureau.{
  NameFunctions, hash_of, score_of, enquiries_of, digit, four_digits, two_digits, yes_no, bar,
  equals, fields_behind, fetch_rpt, put_first, split, entry_of, entries_in, last_value,
  defined_value, parse_from, parse_int, is_yes, is_decimal, BureauReport, read_report,
}

-- A list with a first part.
put_first-append :
    (c : ℕ) (parts more : List Text)
    → parts ≢ []
    → put_first c (parts ++ more) ≡ put_first c parts ++ more
put_first-append c [] more h = absurd (h refl)
put_first-append c (s ∷ parts) more h = refl

no_parts : (s : Text) (parts : List Text) → s ∷ parts ≡ [] → ⊥
no_parts s parts e = ground arith

put_first-nonempty : (c : ℕ) (parts : List Text) → put_first c parts ≢ []
put_first-nonempty c [] = no_parts (c ∷ []) []
put_first-nonempty c (s ∷ parts) = no_parts (c ∷ s) parts

split-nonempty : (separator : ℕ) (s : Text) → split separator s ≢ []
unfolding split
split-nonempty separator [] = λ e. ground arith
split-nonempty separator (c ∷ s) = elim (Bool-cases (c == separator)) [
  | inl e ↦ rw e (λ h. no_parts _ _ h)
  | inr e ↦ rw e (put_first-nonempty c (split separator s))
]

-- At a separator, the parts before and the parts behind.
split-append :
    (separator : ℕ) (s t : Text)
    → split separator (s ++ separator ∷ t) ≡ split separator s ++ split separator t
unfolding split
split-append separator [] t =
    let same : (separator == separator) ≡ true = ground arith in rw same refl
split-append separator (c ∷ s) t = elim (Bool-cases (c == separator)) [
  | inl e ↦ rw (e, split-append separator s t) refl
  | inr e ↦
      rw (e, split-append separator s t)
        (put_first-append c (split separator s) (split separator t) (split-nonempty separator s))
]

last_value-append :
    (key : Text) (v : Option Text) (before behind : List (Text × Option Text))
    → last_value key behind ≡ some v
    → last_value key (before ++ behind) ≡ some v
unfolding last_value
last_value-append key v [] behind h = h
last_value-append key v ((k, w) ∷ before) behind h =
    rw (last_value-append key v before behind h) refl

map-append : (f : Text → Text × Option Text) (s t : List Text) → map f (s ++ t) ≡ map f s ++ map f t
map-append f [] t = refl
map-append f (x ∷ s) t = ap (λ rest. f x ∷ rest) (map-append f s t)

-- A digit is neither separator.
digit-plain :
    (n : ℕ)
    → ((digit n == bar) ≡ false) × ((digit n == equals) ≡ false) × (is_decimal (digit n) ≡ true)
digit-plain n = (ground arith, ground arith, ground arith)

-- A field of four digits, and one of two.
entries-score :
    (n : ℕ) → entries_in (text "SCR=" ++ four_digits n) ≡ (text "SCR", some (four_digits n)) ∷ []
unfolding entries_in split
entries-score n =
    let (b₁, e₁, d₁) = digit-plain (n / 1000) in
    let (b₂, e₂, d₂) = digit-plain (n / 100) in
    let (b₃, e₃, d₃) = digit-plain (n / 10) in
    let (b₄, e₄, d₄) = digit-plain n in rw (b₁, b₂, b₃, b₄, e₁, e₂, e₃, e₄) refl

entries-enquiries :
    (n : ℕ) → entries_in (text "ENQ=" ++ two_digits n) ≡ (text "ENQ", some (two_digits n)) ∷ []
unfolding entries_in split
entries-enquiries n =
    let (b₁, e₁, d₁) = digit-plain (n / 10) in
    let (b₂, e₂, d₂) = digit-plain n in rw (b₁, b₂, e₁, e₂) refl

entries-defaulted :
    (defaulted : Bool)
    → entries_in (text "DFLT=" ++ yes_no defaulted) ≡ (text "DFLT", some (yes_no defaulted)) ∷ []
unfolding entries_in split
entries-defaulted true = refl
entries-defaulted false = refl

entries_in-append : (s t : Text) → entries_in (s ++ bar ∷ t) ≡ entries_in s ++ entries_in t
unfolding entries_in
entries_in-append s t =
    ap (map (λ pair. entry_of (split equals pair))) (split-append bar s t)
    ∙ map-append (λ pair. entry_of (split equals pair)) (split bar s) (split bar t)

abbrev written : ℕ → Bool → List (Text × Option Text)
written hash defaulted =
    (text "SCR", some (four_digits (score_of hash)))
    ∷ (text "DFLT", some (yes_no defaulted))
    ∷ (text "ENQ", some (two_digits (enquiries_of hash)))
    ∷ []

entries-behind :
    (hash : ℕ) (defaulted : Bool)
    → entries_in (fields_behind hash defaulted) ≡ written hash defaulted
entries-behind hash defaulted =
    let enquiries = text "ENQ=" ++ two_digits (enquiries_of hash) in
    let default = text "DFLT=" ++ yes_no defaulted in
    entries_in-append (text "SCR=" ++ four_digits (score_of hash)) (default ++ bar ∷ enquiries)
    ∙ ap (λ rest. rest ++ entries_in (default ++ bar ∷ enquiries)) (entries-score (score_of hash))
    ∙ ap (λ rest. (text "SCR", some (four_digits (score_of hash))) ∷ rest)
        (entries_in-append default enquiries
          ∙ ap (λ rest. rest ++ entries_in enquiries) (entries-defaulted defaulted)
          ∙ ap (λ rest. (text "DFLT", some (yes_no defaulted)) ∷ rest)
              (entries-enquiries (enquiries_of hash)))

parse_four : (n : ℕ) → n ≤ 9999 → parse_int (some (four_digits n)) ≡ some n
unfolding parse_from
parse_four n h =
    let (b₁, e₁, d₁) = digit-plain (n / 1000) in
    let (b₂, e₂, d₂) = digit-plain (n / 100) in
    let (b₃, e₃, d₃) = digit-plain (n / 10) in
    let (b₄, e₄, d₄) = digit-plain n in rw (d₁, d₂, d₃, d₄) (ap some (omega arith))

parse_two : (n : ℕ) → n ≤ 99 → parse_int (some (two_digits n)) ≡ some n
unfolding parse_from
parse_two n h =
    let (b₁, e₁, d₁) = digit-plain (n / 10) in
    let (b₂, e₂, d₂) = digit-plain n in rw (d₁, d₂) (ap some (omega arith))

yes_no-is_yes : (b : Bool) → is_yes (some (yes_no b)) ≡ b
unfolding same_text
yes_no-is_yes true = refl
yes_no-is_yes false = refl

abbrev report : Option ℕ → Bool → Option ℕ → BureauReport
report s d e = record { score = s; has_defaults = d; recent_enquiries = e }

same_report :
    (s s' : Option ℕ) (d d' : Bool) (e e' : Option ℕ)
    → s ≡ s'
    → d ≡ d'
    → e ≡ e'
    → report s d e ≡ report s' d' e'
same_report s s' d d' e e' first second third = rw (first, second, third) refl

module _ (names : NameFunctions) (name : Text) where
  abbrev hash : ℕ
  hash = hash_of (names.to_upper_case name)

  entries-fetched :
      entries_in (fetch_rpt names name)
      ≡ entries_in (text "CUST=" ++ names.to_upper_case name)
        ++ written hash (names.mentions_default name)
  unfolding fetch_rpt
  entries-fetched =
      entries_in-append (text "CUST=" ++ names.to_upper_case name)
        (fields_behind hash (names.mentions_default name))
      ∙ ap (λ rest. entries_in (text "CUST=" ++ names.to_upper_case name) ++ rest)
          (entries-behind hash (names.mentions_default name))

  value-fetched :
      (key : Text) (v : Option Text)
      → last_value key (written hash (names.mentions_default name)) ≡ some v
      → defined_value (last_value key (entries_in (fetch_rpt names name))) ≡ v
  value-fetched key v h =
      ap (λ entries. defined_value (last_value key entries)) entries-fetched
      ∙ ap defined_value (last_value-append key v _ _ h)

  -- Whatever the name is, with separators in it or the names of fields, the adapter reads the score, the
  -- defaults and the enquiries that the client computed, and the score is from 550 to 849.
  pub read_report-fetch_rpt :
      (read_report (fetch_rpt names name) ≡ record {
        score = some (score_of hash);
        has_defaults = names.mentions_default name;
        recent_enquiries = some (enquiries_of hash);
      })
      × (550 ≤ score_of hash)
      × (score_of hash ≤ 849)
  unfolding read_report last_value same_text
  read_report-fetch_rpt =
      let low : 550 ≤ score_of hash = omega arith in
      let high : score_of hash ≤ 849 = omega arith in
      let few : enquiries_of hash ≤ 99 = omega arith in
      let score = value-fetched (text "SCR") (some (four_digits (score_of hash))) refl in
      let default =
        value-fetched (text "DFLT") (some (yes_no (names.mentions_default name))) refl in
      let enquiries = value-fetched (text "ENQ") (some (two_digits (enquiries_of hash))) refl in
      (
        same_report _ _ _ _ _ _ (ap parse_int score ∙ parse_four (score_of hash) (omega arith))
            (ap is_yes default ∙ yes_no-is_yes (names.mentions_default name))
            (ap parse_int enquiries ∙ parse_two (enquiries_of hash) few),
        low,
        high,
      )
