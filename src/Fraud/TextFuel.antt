-- ===== src/Fraud/TextFuel.antt =====
-- The tokenizer of modules/fraud/fraud-rule.interpreter.ts comes to the end of every text.
use vaultline.Prelude.{
  ℕ, zero, suc, ◌+◌, ◌≤◌, ◌<◌, ◌≡◌, ◌≢◌, refl, Bool, true, false, not, Option, none, some, [], ◌∷◌,
  ◌++◌, Bool-cases, inl, inr, arith, length, if◌then◌else◌, ◌==◌,
}
use vaultline.Prelude.Int.{ℤ}
use vaultline.Common.Texts.{Text}
use vaultline.Fraud.Syntax.{Operator, gt, ge, lt, le, eq, ne, Token}
use vaultline.Fraud.Parser.{no_fuel}
use vaultline.Fraud.Fuel.{parse-ne-no_fuel}
use vaultline.Fraud.Tokenizer.{
  is_space, is_digit, is_letter, is_word, span, closed, quoted, word_of, alone, with_equals,
  with_fraction, fraction, number_behind, read_number, read_token, Lexed, lexed, unexpected,
  out_of_fuel, behind, and_then, lex_word, tokenize_from, tokenize, parsed_tokens, parse_source,
}

length-span :
    (test : ℕ → Bool) (s : Text) → length (span test s).0 + length (span test s).1 ≡ length s
unfolding span
length-span test [] = refl
length-span test (c ∷ s) = elim (Bool-cases (test c)) [
  | inl e ↦ rw e (omega (arith, length-span test s))
  | inr e ↦ rw e (omega arith)
]

-- What is left of a text is not longer than so much.
abbrev Left : ℕ → Option (Token × Text) → Type 0
Left n none = Unit {0}
Left n (some (t, rest)) = length rest ≤ n

if-Left :
    (n : ℕ) (b : Bool) (x y : Option (Token × Text))
    → (b ≡ true → Left n x)
    → Left n y
    → Left n (if b then x else y)
if-Left n true x y h k = h refl
if-Left n false x y h k = k

closed-Left : (n : ℕ) (p : Text × Text) → length p.1 ≤ n → Left n (closed p)
closed-Left n (front, []) h = tt
closed-Left n (front, q ∷ rest) h = omega arith

alone-Left : (o : Option Operator) (s : Text) → Left (length s) (alone o s)
alone-Left none s = tt
alone-Left (some o) s = omega arith

with_equals-Left :
    (double : Operator) (single : Option Operator) (s : Text)
    → Left (length s) (with_equals double single s)
with_equals-Left double single [] = alone-Left single []
with_equals-Left double single (c ∷ s) =
    if-Left (suc (length s)) (c == 61) _ _ (λ e. omega arith) (alone-Left single (c ∷ s))

module _ (number_of : Text → ℤ) where
  with_fraction-short :
      (front behind_it : Text) (p : Text × Text)
      → length p.1 ≤ length behind_it
      → length (with_fraction number_of front behind_it p).1 ≤ length behind_it
  with_fraction-short front behind_it ([], rest) h = omega arith
  with_fraction-short front behind_it (d ∷ digits, rest) h = h

  fraction-short : (front s : Text) → length (fraction number_of front s).1 ≤ length s
  fraction-short front [] = omega arith
  fraction-short front (c ∷ s) = elim (Bool-cases (c == 46)) [
    | inl e ↦ rw e (
        with_fraction-short front (c ∷ s) (span is_digit s) (omega (arith, length-span is_digit s)))
    | inr e ↦ rw e (omega arith)
  ]

  number_behind-Left :
      (sign : Text) (n : ℕ) (p : Text × Text)
      → length p.0 + length p.1 ≤ suc n
      → Left n (number_behind number_of sign p)
  number_behind-Left sign n ([], rest) h = tt
  number_behind-Left sign n (d ∷ digits, rest) h =
      omega (arith, fraction-short (sign ++ d ∷ digits) rest)

  read_number-Left :
      (sign : Text) (n : ℕ) (s : Text) → length s ≤ suc n → Left n (read_number number_of sign s)
  unfolding read_number
  read_number-Left sign n s h =
      number_behind-Left sign n (span is_digit s) (omega (arith, length-span is_digit s))

  word-Left :
      (c : ℕ) (s : Text)
      → is_letter c ≡ true
      → Left (length s) (some (word_of (span is_word (c ∷ s))))
  unfolding span
  word-Left c s h =
      let is_first : is_word c ≡ true = ground arith in
      rw is_first (omega (arith, length-span is_word s))

  -- A token takes a character at least.
  read_token-Left : (c : ℕ) (s : Text) → Left (length s) (read_token number_of c s)
  unfolding read_token quoted
  read_token-Left c s =
      let n = length s in
      if-Left n (c == 62) _ _ (λ e. with_equals-Left ge (some gt) s)
        (if-Left n (c == 60) _ _ (λ e. with_equals-Left le (some lt) s)
          (if-Left n (c == 61) _ _ (λ e. with_equals-Left eq none s)
            (if-Left n (c == 33) _ _ (λ e. with_equals-Left ne none s)
              (if-Left n (c == 40) _ _ (λ e. omega arith)
                (if-Left n (c == 41) _ _ (λ e. omega arith)
                  (if-Left n (c == 39) _ _
                    (λ e.
                      closed-Left n (span (λ d. not (d == 39)) s)
                        (omega (arith, length-span (λ d. not (d == 39)) s)))
                    (if-Left n (c == 45) _ _ (λ e. read_number-Left (45 ∷ []) n s (omega arith))
                      (if-Left n (is_digit c) _ _ (λ e. read_number-Left [] n (c ∷ s) (omega arith))
                        (if-Left n (is_letter c) _ none (λ e. word-Left c s e) tt)))))))))

  behind-ne-out_of_fuel : (t : Token) (l : Lexed) → l ≢ out_of_fuel → behind t l ≢ out_of_fuel
  behind-ne-out_of_fuel t (lexed ts) h = λ e. cc
  behind-ne-out_of_fuel t unexpected h = λ e. cc
  behind-ne-out_of_fuel t out_of_fuel h = h

  and_then-ne-out_of_fuel :
      (go : Text → Lexed) (n : ℕ) (o : Option (Token × Text))
      → Left n o
      → ((rest : Text) → length rest ≤ n → go rest ≢ out_of_fuel)
      → and_then number_of go o ≢ out_of_fuel
  and_then-ne-out_of_fuel go n none h k = λ e. cc
  and_then-ne-out_of_fuel go n (some (t, rest)) h k = behind-ne-out_of_fuel t (go rest) (k rest h)

  lex_word-ne-out_of_fuel :
      (go : Text → Lexed) (s : Text)
      → ((rest : Text) → length rest < length s → go rest ≢ out_of_fuel)
      → lex_word number_of go s ≢ out_of_fuel
  unfolding lex_word
  lex_word-ne-out_of_fuel go [] k = λ e. cc
  lex_word-ne-out_of_fuel go (c ∷ s) k =
      and_then-ne-out_of_fuel go (length s) (read_token number_of c s) (read_token-Left c s)
        (λ rest short. k rest (omega arith))

  tokenize_from-ne-out_of_fuel :
      (fuel : ℕ) (s : Text) → length s < fuel → tokenize_from number_of fuel s ≢ out_of_fuel
  unfolding tokenize_from
  tokenize_from-ne-out_of_fuel zero s h = absurd (omega arith)
  tokenize_from-ne-out_of_fuel (suc fuel) s h =
      lex_word-ne-out_of_fuel (tokenize_from number_of fuel) (span is_space s).1 (λ rest short.
        tokenize_from-ne-out_of_fuel fuel rest (omega (arith, length-span is_space s)))

  parsed_tokens-ne-no_fuel : (l : Lexed) → l ≢ out_of_fuel → parsed_tokens number_of l ≢ no_fuel
  parsed_tokens-ne-no_fuel (lexed ts) h = parse-ne-no_fuel ts
  parsed_tokens-ne-no_fuel unexpected h = λ e. cc
  parsed_tokens-ne-no_fuel out_of_fuel h = absurd (h refl)

  -- Reading a rule comes to an end on every text: neither the tokenizer nor the parser runs out of the
  -- fuel that it is given, so the outcome is a rule or an error of syntax.
  pub parse_source-ne-no_fuel : (s : Text) → parse_source number_of s ≢ no_fuel
  unfolding parse_source tokenize
  parse_source-ne-no_fuel s =
      parsed_tokens-ne-no_fuel (tokenize number_of s)
        (tokenize_from-ne-out_of_fuel (suc (length s)) s (omega arith))
