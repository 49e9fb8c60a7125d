-- ===== src/Fraud/SourceRoundTrip.antt =====
-- What `toString` prints is read back, from the text on (modules/fraud/fraud-rule.interpreter.ts).
use vaultline.Prelude.{
  ℕ, zero, suc, ◌+◌, ◌-◌, ◌≤◌, ◌≡◌, refl, ap, ◌∙◌, [], ◌∷◌, ◌++◌, inl, inr, arith, append_assoc,
  append-nil, length, length-append,
}
use vaultline.Prelude.Int.{ℤ}
use vaultline.Common.Texts.{Text, text}
use vaultline.Core.References.Digits.{number_text}
use vaultline.Fraud.Syntax.{
  Value, Operator, Expression, comparison, conjunction, disjunction, negation, Token, Tokens, ident,
  op, and_, or_, not_, lparen, rparen, print,
}
use vaultline.Fraud.Parser.{rule}
use vaultline.Fraud.RoundTrip.{parse-print}
use vaultline.Fraud.Printed.{operator_text, value_text, expression_text}
use vaultline.Fraud.Tokenizer.{
  word_token, Lexed, lexed, behind, tokenize_from, tokenize, parse_source,
}
use vaultline.Fraud.ValueTexts.{IsVariable, IsPrintableValue, value-Reads}
use vaultline.Fraud.TextRoundTrip.{
  IsBoundary, Reads, tokenize_from-space, word-Reads, operator-Reads, paren-Reads,
}
use vaultline.Common.Texts.{AllAre}

-- The names and the texts of a rule can be written down.
unfoldable pub IsPrintable : Expression → Type 0
IsPrintable (comparison variable operator value) = IsVariable variable × IsPrintableValue value
IsPrintable (conjunction left right) = IsPrintable left × IsPrintable right
IsPrintable (disjunction left right) = IsPrintable left × IsPrintable right
IsPrintable (negation inner) = IsPrintable inner

grouped_length :
    (left right word : Text) (ts us : Tokens) (t : Token)
    → length ts ≤ length left
    → length us ≤ length right
    → length (lparen ∷ (ts ++ (t ∷ (us ++ (rparen ∷ [])))))
      ≤ length (40 ∷ (left ++ 32 ∷ (word ++ 32 ∷ (right ++ 41 ∷ []))))
grouped_length left right word ts us t h k = omega (
  arith,
  length-append ts (t ∷ (us ++ (rparen ∷ []))),
  length-append us (rparen ∷ []),
  length-append left (32 ∷ (word ++ 32 ∷ (right ++ 41 ∷ []))),
  length-append word (32 ∷ (right ++ 41 ∷ [])),
  length-append right (41 ∷ []),
)

-- The number of the tokens is not above that of the characters.
length-print-le : (e : Expression) → IsPrintable e → length (print e) ≤ length (expression_text e)
unfolding print expression_text IsPrintable IsVariable
length-print-le (comparison [] o v) (h, k) = absurd h
length-print-le (comparison (c ∷ s) o v) (h, k) = omega (
  arith,
  length-append s (32 ∷ (operator_text o ++ 32 ∷ value_text v)),
  length-append (operator_text o) (32 ∷ value_text v),
)
length-print-le (conjunction left right) (h, k) =
    grouped_length (expression_text left) (expression_text right) (text "AND") (print left)
      (print right) and_ (length-print-le left h) (length-print-le right k)
length-print-le (disjunction left right) (h, k) =
    grouped_length (expression_text left) (expression_text right) (text "OR") (print left)
      (print right) or_ (length-print-le left h) (length-print-le right k)
length-print-le (negation inner) h = omega (arith, length-print-le inner h)

module _ (number_of : Text → ℤ) (reads_numbers : (n : ℤ) → number_of (number_text n) ≡ n) where
  -- The tokens in front of what is read then, and the fuel that they cost.
  abbrev in_front : Tokens → Lexed → Lexed
  in_front [] l = l
  in_front (t ∷ ts) l = behind t (in_front ts l)

  abbrev with_fuel : Tokens → ℕ → ℕ
  with_fuel [] fuel = fuel
  with_fuel (t ∷ ts) fuel = suc (with_fuel ts fuel)

  in_front-append :
      (ts us : Tokens) (l : Lexed) → in_front (ts ++ us) l ≡ in_front ts (in_front us l)
  in_front-append [] us l = refl
  in_front-append (t ∷ ts) us l = ap (behind t) (in_front-append ts us l)

  with_fuel-append :
      (ts us : Tokens) (fuel : ℕ) → with_fuel (ts ++ us) fuel ≡ with_fuel ts (with_fuel us fuel)
  with_fuel-append [] us fuel = refl
  with_fuel-append (t ∷ ts) us fuel = ap suc (with_fuel-append ts us fuel)

  -- A text that is read as some tokens.
  abbrev ReadsAll : Text → Tokens → Type 0
  ReadsAll w ts =
      (fuel : ℕ) (rest : Text)
      → IsBoundary rest
      → tokenize_from number_of (with_fuel ts fuel) (w ++ rest)
        ≡ in_front ts (tokenize_from number_of fuel rest)

  comparison-ReadsAll :
      (variable : Text) (o : Operator) (v : Value)
      → IsVariable variable
      → IsPrintableValue v
      → ReadsAll (expression_text (comparison variable o v)) (print (comparison variable o v))
  unfolding expression_text print IsVariable Reads
  comparison-ReadsAll [] o v h k fuel rest b = absurd h
  comparison-ReadsAll (c ∷ s) o v (first, others, name) k fuel rest b =
      let value = value_text v in
      let behind_op = 32 ∷ (value ++ rest) in
      let behind_variable = 32 ∷ (operator_text o ++ behind_op) in
      let word =
        word-Reads number_of c s first others (suc (suc fuel)) behind_variable (inl refl)
        ∙ ap (λ t. behind t (tokenize_from number_of (suc (suc fuel)) behind_variable)) name in
      let operator =
        tokenize_from-space number_of (suc fuel) (operator_text o ++ behind_op)
        ∙ operator-Reads number_of o (suc fuel) (value ++ rest) in
      let last =
        tokenize_from-space number_of fuel (value ++ rest)
        ∙ value-Reads number_of reads_numbers v k fuel rest b in
      simp append_assoc (word ∙ ap (behind (ident (c ∷ s))) (operator ∙ ap (behind (op o)) last))

  drop_space :
      (fuel : ℕ) (s : Text) → tokenize_from number_of fuel (32 ∷ s) ≡ tokenize_from number_of fuel s
  unfolding tokenize_from
  drop_space zero s = refl
  drop_space (suc fuel) s = tokenize_from-space number_of fuel s

  -- Two rules with a word between them, in parentheses.
  group-ReadsAll :
      (left right word : Text) (ts us : Tokens) (t : Token)
      → ReadsAll left ts
      → Reads number_of word t
      → ReadsAll right us
      → ReadsAll
          (40 ∷ (left ++ 32 ∷ (word ++ 32 ∷ (right ++ 41 ∷ []))))
          (lparen ∷ (ts ++ (t ∷ (us ++ (rparen ∷ [])))))
  unfolding Reads
  group-ReadsAll left right word ts us t reads_left reads_word reads_right fuel rest b =
      let fuel_right = with_fuel us (suc fuel) in
      let fuel_left = with_fuel ts (suc fuel_right) in
      let text_right = right ++ 41 ∷ rest in
      let text_word = 32 ∷ (word ++ 32 ∷ text_right) in
      let end = (paren-Reads number_of fuel rest).1 in
      let second =
        drop_space fuel_right text_right
        ∙ reads_right (suc fuel) (41 ∷ rest) (inr refl)
        ∙ ap (in_front us) end in
      let middle =
        drop_space (suc fuel_right) (word ++ 32 ∷ text_right)
        ∙ reads_word fuel_right (32 ∷ text_right) (inl refl)
        ∙ ap (behind t) second in
      let first = reads_left (suc fuel_right) text_word (inl refl) ∙ ap (in_front ts) middle in
      simp (append_assoc, with_fuel-append, in_front-append)
        ((paren-Reads number_of fuel_left (left ++ text_word)).0 ∙ ap (behind lparen) first)

  expression-ReadsAll : (e : Expression) → IsPrintable e → ReadsAll (expression_text e) (print e)
  unfolding expression_text print IsPrintable word_token AllAre Reads
  expression-ReadsAll (comparison variable o v) (h, k) = comparison-ReadsAll variable o v h k
  expression-ReadsAll (conjunction left right) (h, k) =
      group-ReadsAll (expression_text left) (expression_text right) (text "AND") (print left)
        (print right) and_ (expression-ReadsAll left h)
        (word-Reads number_of 65 (text "ND") refl (refl, (refl, tt))) (expression-ReadsAll right k)
  expression-ReadsAll (disjunction left right) (h, k) =
      group-ReadsAll (expression_text left) (expression_text right) (text "OR") (print left)
        (print right) or_ (expression-ReadsAll left h)
        (word-Reads number_of 79 (text "R") refl (refl, tt)) (expression-ReadsAll right k)
  expression-ReadsAll (negation inner) h = λ fuel rest b.
      let behind_word = expression_text inner ++ rest in
      word-Reads number_of 78 (text "OT") refl (refl, (refl, tt)) (with_fuel (print inner) fuel)
        (32 ∷ behind_word) (inl refl)
      ∙ ap (behind not_) (
          drop_space (with_fuel (print inner) fuel) behind_word
          ∙ expression-ReadsAll inner h fuel rest b)

  with_fuel-length : (ts : Tokens) (fuel : ℕ) → with_fuel ts fuel ≡ length ts + fuel
  with_fuel-length [] fuel = omega arith
  with_fuel-length (t ∷ ts) fuel = omega (arith, with_fuel-length ts fuel)

  in_front-lexed : (ts : Tokens) → in_front ts (lexed []) ≡ lexed ts
  in_front-lexed [] = refl
  in_front-lexed (t ∷ ts) = ap (behind t) (in_front-lexed ts)

  tokenize-expression_text :
      (e : Expression) → IsPrintable e → tokenize number_of (expression_text e) ≡ lexed (print e)
  unfolding tokenize tokenize_from
  tokenize-expression_text e h =
      let left = length (expression_text e) - length (print e) in
      let fuel : with_fuel (print e) (suc left) ≡ suc (length (expression_text e)) =
        omega (arith, with_fuel-length (print e) (suc left), length-print-le e h) in
      let read = expression-ReadsAll e h (suc left) [] tt in
      rw (fuel, append-nil) at read ∙ in_front-lexed (print e)

  -- The text of a rule that `toString` prints is read as the same rule: it is cut into its tokens, and
  -- those are parsed. Its variables are names that the language reads as names, the texts in it have
  -- no quote, and `Number` reads the digits of a whole number as that number.
  pub parse_source-expression_text :
      (e : Expression) → IsPrintable e → parse_source number_of (expression_text e) ≡ rule e
  unfolding parse_source
  parse_source-expression_text e h = rw (tokenize-expression_text e h) (parse-print e)
