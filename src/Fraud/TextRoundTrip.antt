-- ===== src/Fraud/TextRoundTrip.antt =====
-- How the tokenizer of modules/fraud/fraud-rule.interpreter.ts reads each kind of token off a text.
use vaultline.Prelude.{
  ℕ, suc, ◌≡◌, refl, ap, ◌∙◌, Bool, true, false, not, some, [], ◌∷◌, ◌++◌, ◌⊎◌, arith, append_assoc,
  ◌==◌,
}
use vaultline.Prelude.Int.{ℤ}
use vaultline.Common.Texts.{AllAre, Text}
use vaultline.Fraud.Syntax.{
  Operator, gt, ge, lt, le, eq, ne, Token, string, number, op, lparen, rparen,
}
use vaultline.Fraud.Printed.{operator_text}
use vaultline.Fraud.Tokenizer.{
  is_space, is_digit, is_letter, is_word, span, word_token, quoted, read_number, read_token,
  word_of, behind, lex_word, tokenize_from,
}

-- A text does not go on in a class.
abbrev pub StopsAt : (ℕ → Bool) → Text → Type 0
StopsAt test [] = Unit {0}
StopsAt test (c ∷ s) = test c ≡ false

span-append :
    (test : ℕ → Bool) (s rest : Text)
    → AllAre test s
    → StopsAt test rest
    → span test (s ++ rest) ≡ (s, rest)
unfolding span AllAre
span-append test [] [] h k = refl
span-append test [] (c ∷ rest) h k = rw k refl
span-append test (c ∷ s) rest (own, h) k = rw (own, span-append test s rest h k) refl

-- A space, the end of a group, or the end of the text.
abbrev pub IsBoundary : Text → Type 0
IsBoundary [] = Unit {0}
IsBoundary (c ∷ s) = (c ≡ 32) ⊎ (c ≡ 41)

boundary-word : (rest : Text) → IsBoundary rest → StopsAt is_word rest
boundary-word [] h = tt
boundary-word (c ∷ rest) h = ground arith

boundary-digit : (rest : Text) → IsBoundary rest → StopsAt is_digit rest
boundary-digit [] h = tt
boundary-digit (c ∷ rest) h = ground arith

module _ (number_of : Text → ℤ) where
  letter-read_token :
      (c : ℕ) (s : Text)
      → is_letter c ≡ true
      → read_token number_of c s ≡ some (word_of (span is_word (c ∷ s)))
  unfolding read_token
  letter-read_token c s h = ground arith

  pub read_token-digit :
      (c : ℕ) (s : Text)
      → is_digit c ≡ true
      → read_token number_of c s ≡ read_number number_of [] (c ∷ s)
  unfolding read_token
  read_token-digit c s h = ground arith

  read_token-word :
      (c : ℕ) (s rest : Text)
      → is_letter c ≡ true
      → AllAre is_word s
      → IsBoundary rest
      → read_token number_of c (s ++ rest) ≡ some (word_token (c ∷ s), rest)
  unfolding AllAre
  read_token-word c s rest h k b =
      letter-read_token c (s ++ rest) h
      ∙ ap (λ p. some (word_of p))
          (span-append is_word (c ∷ s) rest (ground arith, k) (boundary-word rest b))

  -- The digits of a number, and what stands behind them.
  pub read_number-digits :
      (sign : Text) (d : ℕ) (digits rest : Text)
      → AllAre is_digit (d ∷ digits)
      → IsBoundary rest
      → read_number number_of sign (d ∷ digits ++ rest)
        ≡ some (number (number_of (sign ++ d ∷ digits)), rest)
  unfolding read_number AllAre
  read_number-digits sign d digits [] h b = rw (span-append is_digit (d ∷ digits) [] h tt) refl
  read_number-digits sign d digits (c ∷ rest) h b =
      let no_point : (c == 46) ≡ false = ground arith in
      rw (span-append is_digit (d ∷ digits) (c ∷ rest) h (boundary-digit (c ∷ rest) b), no_point)
        refl

  -- A space in front costs nothing; a token costs a unit of fuel.
  pub tokenize_from-space :
      (fuel : ℕ) (s : Text)
      → tokenize_from number_of (suc fuel) (32 ∷ s) ≡ tokenize_from number_of (suc fuel) s
  unfolding tokenize_from span
  tokenize_from-space fuel s = refl

  pub tokenize_from-token :
      (fuel c : ℕ) (s rest : Text) (t : Token)
      → is_space c ≡ false
      → read_token number_of c s ≡ some (t, rest)
      → tokenize_from number_of (suc fuel) (c ∷ s) ≡ behind t (tokenize_from number_of fuel rest)
  unfolding tokenize_from lex_word span
  tokenize_from-token fuel c s rest t h k = rw (h, k) refl

  -- A text that is read as one token.
  unfoldable pub Reads : Text → Token → Type 0
  Reads w t =
      (fuel : ℕ) (rest : Text)
      → IsBoundary rest
      → tokenize_from number_of (suc fuel) (w ++ rest)
        ≡ behind t (tokenize_from number_of fuel rest)

  pub word-Reads :
      (c : ℕ) (s : Text)
      → is_letter c ≡ true
      → AllAre is_word s
      → Reads (c ∷ s) (word_token (c ∷ s))
  unfolding Reads
  word-Reads c s h k fuel rest b =
      tokenize_from-token fuel c (s ++ rest) rest (word_token (c ∷ s)) (ground arith)
        (read_token-word c s rest h k b)

  pub operator-Reads :
      (o : Operator) (fuel : ℕ) (rest : Text)
      → tokenize_from number_of (suc fuel) (operator_text o ++ 32 ∷ rest)
        ≡ behind (op o) (tokenize_from number_of fuel (32 ∷ rest))
  unfolding tokenize_from lex_word span read_token
  operator-Reads gt fuel rest = refl
  operator-Reads ge fuel rest = refl
  operator-Reads lt fuel rest = refl
  operator-Reads le fuel rest = refl
  operator-Reads eq fuel rest = refl
  operator-Reads ne fuel rest = refl

  pub paren-Reads :
      (fuel : ℕ) (rest : Text)
      → (tokenize_from number_of (suc fuel) (40 ∷ rest)
          ≡ behind lparen (tokenize_from number_of fuel rest))
        × (tokenize_from number_of (suc fuel) (41 ∷ rest)
            ≡ behind rparen (tokenize_from number_of fuel rest))
  unfolding tokenize_from lex_word span read_token
  paren-Reads fuel rest = (refl, refl)

  pub string-Reads :
      (s : Text) → AllAre (λ c. not (c == 39)) s → Reads (39 ∷ s ++ 39 ∷ []) (string s)
  unfolding Reads tokenize_from lex_word span read_token quoted
  string-Reads s h fuel rest b =
      rw (append_assoc s (39 ∷ []) rest, span-append (λ c. not (c == 39)) s (39 ∷ rest) h refl) refl
