-- ===== src/Fraud/ValueTexts.antt =====
-- The numbers and the values of printed rules as tokens (modules/fraud/fraud-rule.interpreter.ts).
use mathlib.Core.Path.{subst}
use vaultline.Prelude.{
  ℕ, zero, suc, ◌+◌, ◌/◌, ◌%◌, ◌<◌, ◌≡◌, refl, ◌∙◌, Bool, true, false, not, [], ◌∷◌, ◌++◌,
  Bool-cases, inl, inr, arith, ◌==◌, ltb,
}
use vaultline.Prelude.Int.{ℤ, pos, negsuc}
use vaultline.Common.Texts.{Text, text}
use vaultline.Core.References.Digits.{digit, number_text, to_string, digits_of}
use vaultline.Fraud.Syntax.{Value, str, num, bool, ident, number, value_token}
use vaultline.Fraud.Printed.{value_text}
use vaultline.Fraud.Tokenizer.{is_digit, is_letter, is_word, word_token, read_token}
use vaultline.Fraud.TextRoundTrip.{
  Reads, read_number-digits, read_token-digit, tokenize_from-token, word-Reads, string-Reads,
}
use vaultline.Common.Texts.{AllAre}

append-AllAre :
    (test : ℕ → Bool) (s t : Text) → AllAre test s → AllAre test t → AllAre test (s ++ t)
unfolding AllAre
append-AllAre test [] t h k = k
append-AllAre test (c ∷ s) t (own, h) k = (own, append-AllAre test s t h k)

digits_of-AllAre : (fuel n : ℕ) → AllAre is_digit (digits_of fuel 10 n)
unfolding AllAre digits_of
digits_of-AllAre zero n = tt
digits_of-AllAre (suc fuel) n = elim (Bool-cases (ltb n 10)) [
  | inl small ↦ rw small (ground arith, tt)
  | inr large ↦
      let small : n % 10 < 10 = omega arith in
      rw large (
        append-AllAre is_digit (digits_of fuel 10 (n / 10)) (digit (n % 10) ∷ [])
          (digits_of-AllAre fuel (n / 10)) (ground arith, tt))
]

-- A text has a first character.
abbrev HasFirst : Text → Type 0
HasFirst s = (c : ℕ) × (t : Text) × (s ≡ c ∷ t)

snoc-HasFirst : (s : Text) (c : ℕ) → HasFirst (s ++ c ∷ [])
snoc-HasFirst [] c = (c, [], refl)
snoc-HasFirst (d ∷ s) c = (d, s ++ c ∷ [], refl)

pub to_string-HasFirst : (n : ℕ) → HasFirst (to_string 10 n)
unfolding to_string digits_of
to_string-HasFirst n = elim (Bool-cases (ltb n 10)) [
  | inl small ↦ rw small (48 + n, [], refl)
  | inr large ↦ rw large (snoc-HasFirst (digits_of n 10 (n / 10)) (digit (n % 10)))
]

pub to_string-AllAre : (n : ℕ) → AllAre is_digit (to_string 10 n)
unfolding to_string
to_string-AllAre n = digits_of-AllAre (suc n) n

-- A name that the pattern reads as a variable, and a text that can stand between quotes.
unfoldable pub IsVariable : Text → Type 0
IsVariable [] = ⊥
IsVariable (c ∷ s) = (is_letter c ≡ true) × AllAre is_word s × (word_token (c ∷ s) ≡ ident (c ∷ s))

unfoldable pub IsPrintableValue : Value → Type 0
IsPrintableValue (str s) = AllAre (λ c. not (c == 39)) s
IsPrintableValue _ = Unit {0}

module _ (number_of : Text → ℤ) (reads_numbers : (n : ℤ) → number_of (number_text n) ≡ n) where
  digits-Reads :
      (s : Text) → HasFirst s → AllAre is_digit s → Reads number_of s (number (number_of s))
  unfolding Reads AllAre
  digits-Reads s (d, digits, shape) all fuel rest b =
      let first = subst (AllAre is_digit) shape all in
      rw shape (
        tokenize_from-token number_of fuel d (digits ++ rest) rest (number (number_of (d ∷ digits)))
          (ground arith)
          (read_token-digit number_of d (digits ++ rest) first.0
            ∙ read_number-digits number_of [] d digits rest first b))

  negative-Reads :
      (s : Text)
      → HasFirst s
      → AllAre is_digit s
      → Reads number_of (45 ∷ s) (number (number_of (45 ∷ s)))
  unfolding Reads read_token
  negative-Reads s (d, digits, shape) all fuel rest b =
      let first = subst (AllAre is_digit) shape all in
      rw shape (
        tokenize_from-token number_of fuel 45 (d ∷ digits ++ rest) rest
          (number (number_of (45 ∷ d ∷ digits))) refl
          (read_number-digits number_of (45 ∷ []) d digits rest first b))

  number-Reads : (n : ℤ) → Reads number_of (number_text n) (number n)
  unfolding number_text
  number-Reads (pos n) =
      subst (λ m. Reads number_of (to_string 10 n) (number m)) (reads_numbers (pos n))
        (digits-Reads (to_string 10 n) (to_string-HasFirst n) (to_string-AllAre n))
  number-Reads (negsuc n) =
      subst (λ m. Reads number_of (45 ∷ to_string 10 (suc n)) (number m)) (reads_numbers (negsuc n))
        (negative-Reads (to_string 10 (suc n)) (to_string-HasFirst (suc n))
          (to_string-AllAre (suc n)))

  pub value-Reads :
      (v : Value) → IsPrintableValue v → Reads number_of (value_text v) (value_token v)
  unfolding value_text value_token IsPrintableValue AllAre word_token
  value-Reads (str s) h = string-Reads number_of s h
  value-Reads (num n) h = number-Reads n
  value-Reads (bool true) h = word-Reads number_of 116 (text "rue") refl (refl, (refl, (refl, tt)))
  value-Reads (bool false) h =
      word-Reads number_of 102 (text "alse") refl (refl, (refl, (refl, (refl, tt))))
