-- ===== src/Payments/Quoted.antt =====
-- Which payments a rail takes.
use vaultline.Prelude.{
  ℕ, zero, suc, ◌≤◌, leb, ◌&&◌, ◌||◌, ◌==◌, ◌⊎◌, ◌↔◌, String, ◌≡◌, refl, sym, ap, ◌∙◌, arith, Bool,
  true, false, Option, none, some, List, [], ◌∷◌, ◌++◌, length, Bool-cases, inl, inr,
}
use vaultline.Prelude.Int.{ℤ, pos, ◌+ℤ◌, ltb_ℤ, ◌≤ℤ◌}
use vaultline.Common.Texts.{Text, text, same_text, same_text_eq, same_text_refl}
use vaultline.Payments.{
  rest_is, is_account_part, is_branch_part, is_bic, OutboundPayment, Rail, raast, swift,
  PaymentError, is_digit, is_upper, is_upper_or_digit, eat, then_eat, all_of, ends_there, behind_pk,
  is_pakistani_iban, is_iban, has_bic, is_given, error_unless, payment_errors, PaymentFormats,
  fee_minor, Quote, rejected, quoted, quote_checked, quote_payment, raast_limit_minor,
}

-- One character after the other is of the class at its place, and no more follow.
unfoldable pub is_spelled : List (ℕ → Bool) → Text → Bool
is_spelled [] [] = true
is_spelled (class ∷ classes) (c ∷ s) = class c && is_spelled classes s
is_spelled _ _ = false

-- The letters `A` to `Z`, the digits, and a letter of either kind; and one character alone.
abbrev letter : ℕ → Bool
letter c = leb 65 c && leb c 90

abbrev numeral : ℕ → Bool
numeral c = leb 48 c && leb c 57

abbrev either : ℕ → Bool
either c = letter c || numeral c

abbrev just : ℕ → ℕ → Bool
just d c = c == d

-- A class, so many times.
abbrev times : ℕ → (ℕ → Bool) → List (ℕ → Bool)
times zero class = []
times (suc n) class = class ∷ times n class

-- `PK`, two digits, four letters, sixteen digits.
abbrev pub pakistani_iban : List (ℕ → Bool)
pakistani_iban = just 80 ∷ just 75 ∷ times 2 numeral ++ times 4 letter ++ times 16 numeral

-- Two letters, two digits, and `n` of either.
abbrev pub iban_of : ℕ → List (ℕ → Bool)
iban_of n = times 2 letter ++ times 2 numeral ++ times n either

-- Six letters, and `n` of either.
abbrev pub bic_of : ℕ → List (ℕ → Bool)
bic_of n = times 6 letter ++ times n either

abbrev pub IsIban : Text → Type 0
IsIban s = (n : ℕ) × (10 ≤ n) × (n ≤ 30) × (is_spelled (iban_of n) s ≡ true)

-- A bank code is there, of eight characters or eleven.
abbrev pub HasBic : Option Text → Type 0
HasBic none = ⊥
HasBic (some s) = (is_spelled (bic_of 2) s ≡ true) ⊎ (is_spelled (bic_of 5) s ≡ true)

abbrev pub HasText : Option Text → Type 0
HasText none = ⊥
HasText (some s) = 1 ≤ length s

-- A payment that a rail takes.
abbrev pub Payable : Rail → OutboundPayment → Type 0
Payable raast p =
    (p.currency ≡ text "PKR")
    × (is_spelled pakistani_iban p.beneficiary_iban ≡ true)
    × (p.amount_minor ≤ℤ pos 100_000_000)
Payable swift p = HasBic p.beneficiary_bic × IsIban p.beneficiary_iban × HasText p.purpose

abbrev pub Charges : (per_mille : ℤ → ℤ) → Rail → ℤ → ℤ → String → Type 0
Charges per_mille raast amount fee settlement = (fee ≡ pos 0) × (settlement ≡ "Instant (seconds)")
Charges per_mille swift amount fee settlement =
    (fee ≡ pos 250_000 +ℤ per_mille amount) × (settlement ≡ "1-3 business days")

-- The answer to a request for a quote.
abbrev pub Quotes : (formats : PaymentFormats) → Rail → OutboundPayment → Quote formats → Type 0
Quotes formats rail p (rejected r errors) =
    (r ≡ rail) × ¬ (Payable rail p) × (1 ≤ length errors) × (payment_errors rail p ≡ errors)
Quotes formats rail p (quoted r fee settlement message) =
    (r ≡ rail) × Payable rail p × Charges formats.per_mille rail p.amount_minor fee settlement

eat-is_spelled :
    (class : ℕ → Bool) (n : ℕ) (classes : List (ℕ → Bool)) (s : Text)
    → rest_is (is_spelled classes) (eat class n s) ≡ is_spelled (times n class ++ classes) s
unfolding eat is_spelled
eat-is_spelled class zero classes s = refl
eat-is_spelled class (suc n) classes [] = refl
eat-is_spelled class (suc n) classes (c ∷ s) = elim (Bool-cases (class c)) [
  | inl e ↦ rw e (eat-is_spelled class n classes s)
  | inr e ↦ rw e refl
]

then_eat-is_spelled :
    (class : ℕ → Bool) (n : ℕ) (classes : List (ℕ → Bool)) (before : Option Text)
    → rest_is (is_spelled classes) (then_eat class n before)
      ≡ rest_is (is_spelled (times n class ++ classes)) before
then_eat-is_spelled class n classes none = refl
then_eat-is_spelled class n classes (some s) = eat-is_spelled class n classes s

ends_there-is_spelled : (o : Option Text) → ends_there o ≡ rest_is (is_spelled []) o
unfolding is_spelled
ends_there-is_spelled none = refl
ends_there-is_spelled (some []) = refl
ends_there-is_spelled (some (c ∷ s)) = refl

behind_pk-is_spelled :
    (classes : List (ℕ → Bool)) (s : Text)
    → rest_is (is_spelled classes) (behind_pk s) ≡ is_spelled (just 80 ∷ just 75 ∷ classes) s
unfolding is_spelled same_text
behind_pk-is_spelled classes [] = refl
behind_pk-is_spelled classes (p ∷ []) = ground arith
behind_pk-is_spelled classes (p ∷ k ∷ s) = elim (Bool-cases (p == 80)) [
  | inr e ↦ rw e refl
  | inl e ↦ elim (Bool-cases (k == 75)) [ inl f ↦ rw (e, f) refl | inr f ↦ rw (e, f) refl ]
]

is_pakistani_iban-is_spelled : (s : Text) → is_pakistani_iban s ≡ is_spelled pakistani_iban s
unfolding is_pakistani_iban
is_pakistani_iban-is_spelled s =
    ends_there-is_spelled _
    ∙ then_eat-is_spelled is_digit 16 [] _
    ∙ then_eat-is_spelled is_upper 4 _ _
    ∙ then_eat-is_spelled is_digit 2 _ _
    ∙ behind_pk-is_spelled _ s

-- The account part has `n` characters of its class.
all_of-is_spelled : (s : Text) → all_of is_upper_or_digit s ≡ is_spelled (times (length s) either) s
unfolding all_of is_spelled
all_of-is_spelled [] = refl
all_of-is_spelled (c ∷ s) = ap (λ b. either c && b) (all_of-is_spelled s)

length-is_spelled :
    (class : ℕ → Bool) (n : ℕ) (s : Text) → is_spelled (times n class) s ≡ true → length s ≡ n
unfolding is_spelled
length-is_spelled class zero [] h = refl
length-is_spelled class zero (c ∷ s) h = absurd (ground arith)
length-is_spelled class (suc n) [] h = absurd (ground arith)
length-is_spelled class (suc n) (c ∷ s) h =
    let rest : is_spelled (times n class) s ≡ true = ground arith in
    ap suc (length-is_spelled class n s rest)

Parted : Option Text → Type 0
Parted o = (n : ℕ) × (10 ≤ n) × (n ≤ 30) × (rest_is (is_spelled (times n either)) o ≡ true)

account_part-Parted : (o : Option Text) → rest_is is_account_part o ≡ true → Parted o
unfolding Parted
account_part-Parted none h = absurd (ground arith)
account_part-Parted (some s) h =
    let all : all_of is_upper_or_digit s ≡ true = ground arith in
    let least : 10 ≤ length s = ground arith in
    let most : length s ≤ 30 = ground arith in
    (length s, least, most, sym (all_of-is_spelled s) ∙ all)

Parted-account_part : (o : Option Text) → Parted o → rest_is is_account_part o ≡ true
unfolding Parted
Parted-account_part none (n, least, most, h) = absurd (ground arith)
Parted-account_part (some s) (n, least, most, h) =
    let size = length-is_spelled either n s h in
    let all : all_of is_upper_or_digit s ≡ true =
      all_of-is_spelled s ∙ ap (λ m. is_spelled (times m either) s) size ∙ h in
    ground arith

country-is_spelled :
    (classes : List (ℕ → Bool)) (s : Text)
    → rest_is (is_spelled classes) (then_eat is_digit 2 (eat is_upper 2 s))
      ≡ is_spelled (times 2 letter ++ times 2 numeral ++ classes) s
country-is_spelled classes s =
    then_eat-is_spelled is_digit 2 classes (eat is_upper 2 s) ∙ eat-is_spelled is_upper 2 _ s

is_iban_iff : (s : Text) → is_iban s ≡ true ↔ IsIban s
unfolding is_iban Parted
is_iban_iff s = (
  λ h.
      let (n, least, most, spelled) = account_part-Parted _ h in
      (n, least, most, sym (country-is_spelled (times n either) s) ∙ spelled),
  λ (n, least, most, spelled).
      Parted-account_part (then_eat is_digit 2 (eat is_upper 2 s))
        (n, least, most, country-is_spelled (times n either) s ∙ spelled),
)

-- The branch part is empty, or three characters.
branch_part-cases :
    (o : Option Text)
    → rest_is is_branch_part o ≡ true
      ↔ (rest_is (is_spelled []) o ≡ true) ⊎ (rest_is (is_spelled (times 3 either)) o ≡ true)
unfolding is_spelled
branch_part-cases none = (λ h. inl h, λ h. ground arith)
branch_part-cases (some []) = (λ h. inl refl, λ h. refl)
branch_part-cases (some (c ∷ s)) =
    let same =
      ends_there-is_spelled (eat is_upper_or_digit 3 (c ∷ s))
      ∙ eat-is_spelled is_upper_or_digit 3 [] (c ∷ s) in
    (λ h. inr (sym same ∙ h), λ h. elim h [ inl k ↦ absurd (ground arith) | inr k ↦ same ∙ k ])

bank-is_spelled :
    (classes : List (ℕ → Bool)) (s : Text)
    → rest_is (is_spelled classes) (then_eat is_upper_or_digit 2 (eat is_upper 6 s))
      ≡ is_spelled (times 6 letter ++ times 2 either ++ classes) s
bank-is_spelled classes s =
    then_eat-is_spelled is_upper_or_digit 2 classes (eat is_upper 6 s)
    ∙ eat-is_spelled is_upper 6 _ s

has_bic_iff : (o : Option Text) → has_bic o ≡ true ↔ HasBic o
unfolding is_bic
has_bic_iff none = (λ h. ground arith, λ h. absurd h)
has_bic_iff (some s) =
    let part = branch_part-cases (then_eat is_upper_or_digit 2 (eat is_upper 6 s)) in
    let short = bank-is_spelled [] s in
    let long = bank-is_spelled (times 3 either) s in
    (
      λ h. elim (part.0 h) [ inl k ↦ inl (sym short ∙ k) | inr k ↦ inr (sym long ∙ k) ],
      λ h. part.1 (elim h [ inl k ↦ inl (short ∙ k) | inr k ↦ inr (long ∙ k) ]),
    )

is_given_iff : (o : Option Text) → is_given o ≡ true ↔ HasText o
is_given_iff none = (λ h. ground arith, λ h. absurd h)
is_given_iff (some []) = (λ h. ground arith, λ h. ground arith)
is_given_iff (some (c ∷ s)) = (λ h. omega arith, λ h. refl)

some_error : (e : PaymentError) (errors : List PaymentError) → [] ≡ e ∷ errors → ⊥
some_error e errors h = ground arith

no_errors :
    (a b c : Bool) (e f g : PaymentError)
    → error_unless a e ++ (error_unless b f ++ error_unless c g) ≡ []
    → (a ≡ true) × (b ≡ true) × (c ≡ true)
no_errors a b c e f g h = ground arith

errors-Payable : (rail : Rail) (p : OutboundPayment) → payment_errors rail p ≡ [] → Payable rail p
unfolding payment_errors
errors-Payable raast p h =
    let (currency, iban, amount) = no_errors _ _ _ _ _ _ h in
    (
      same_text_eq p.currency (text "PKR") currency,
      sym (is_pakistani_iban-is_spelled p.beneficiary_iban) ∙ iban,
      ground arith,
    )
errors-Payable swift p h =
    let (bic, iban, purpose) = no_errors _ _ _ _ _ _ h in
    (
      (has_bic_iff p.beneficiary_bic).0 bic,
      (is_iban_iff p.beneficiary_iban).0 iban,
      (is_given_iff p.purpose).0 purpose,
    )

Payable-errors : (rail : Rail) (p : OutboundPayment) → Payable rail p → payment_errors rail p ≡ []
unfolding payment_errors
Payable-errors raast p (currency, iban, amount) =
    let within : ltb_ℤ raast_limit_minor p.amount_minor ≡ false = ground arith in
    let rupees = ap (λ t. same_text t (text "PKR")) currency ∙ same_text_refl (text "PKR") in
    rw (rupees, is_pakistani_iban-is_spelled p.beneficiary_iban ∙ iban, within) refl
Payable-errors swift p (bic, iban, purpose) =
    rw
      (
        (has_bic_iff p.beneficiary_bic).1 bic,
        (is_iban_iff p.beneficiary_iban).1 iban,
        (is_given_iff p.purpose).1 purpose,
      )
      refl

checked-Quotes :
    (formats : PaymentFormats) (rail : Rail) (p : OutboundPayment) (reference : Text)
    (errors : List PaymentError)
    → payment_errors rail p ≡ errors
    → Quotes formats rail p (quote_checked formats rail p reference errors)
unfolding quote_checked fee_minor
checked-Quotes formats raast p reference [] h = (refl, errors-Payable raast p h, (refl, refl))
checked-Quotes formats swift p reference [] h = (refl, errors-Payable swift p h, (refl, refl))
checked-Quotes formats rail p reference (e ∷ errors) h =
    (refl, λ can. some_error e errors (sym (Payable-errors rail p can) ∙ h), omega arith, h)

-- A payment is quoted exactly if the rail takes it: RAAST takes rupees, up to 1,000,000, for an IBAN of `PK`,
-- two digits, four letters and sixteen digits; SWIFT asks for a bank code of six letters and two or five
-- letters or digits, for an IBAN of two letters, two digits and ten to thirty letters or digits, and for
-- a purpose. RAAST is free and instant; SWIFT costs 2,500 rupees and the rounded thousandth of the amount,
-- and takes one to three business days. A payment that is not taken gets an error at least, all those that
-- the rail's validator finds.
pub quote_payment-Quotes :
    (formats : PaymentFormats) (rail : Rail) (p : OutboundPayment) (reference : Text)
    → Quotes formats rail p (quote_payment formats rail p reference)
unfolding quote_payment
quote_payment-Quotes formats rail p reference =
    checked-Quotes formats rail p reference (payment_errors rail p) refl
