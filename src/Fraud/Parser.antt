-- ===== src/Fraud/Parser.antt =====
-- `FraudRuleParser` of modules/fraud/fraud-rule.interpreter.ts on a list of tokens. What is left of
-- the tokens stands for the position; each call costs a unit of fuel.
use vaultline.Prelude.{ℕ, zero, suc, ◌+◌, ◌*◌, [], ◌∷◌, length}
use vaultline.Common.Texts.{Text}
use vaultline.Fraud.Syntax.{
  Value, Operator, Expression, comparison, conjunction, disjunction, negation, Token, Tokens, ident,
  string, number, op, and_, or_, not_, lparen, rparen,
}

-- The texts of `RuleSyntaxError`.
pub data SyntaxError : Type 0 where
  unexpected_character empty_rule unexpected_token expected_token missing_value expected_value :
      SyntaxError

-- A value and what is left, a `RuleSyntaxError`, or no more fuel (which the program has no word
-- for).
pub data Parsed (A : Type 0) : Type 0 where
  parsed : A → Tokens → Parsed A
  failed : SyntaxError → Parsed A
  out_of_fuel : Parsed A

abbrev pub then_parse : {A B : Type 0} → Parsed A → (A → Tokens → Parsed B) → Parsed B
then_parse (parsed a rest) f = f a rest
then_parse (failed e) f = failed e
then_parse out_of_fuel f = out_of_fuel

-- `expect('rparen')`, `expect('ident')`, `expect('op')`
unfoldable pub expect_rparen : Expression → Tokens → Parsed Expression
expect_rparen e (rparen ∷ rest) = parsed e rest
expect_rparen e _ = failed expected_token

unfoldable pub expect_ident : Tokens → Parsed Text
expect_ident (ident s ∷ rest) = parsed s rest
expect_ident _ = failed expected_token

unfoldable pub expect_op : Tokens → Parsed Operator
expect_op (op o ∷ rest) = parsed o rest
expect_op _ = failed expected_token

-- The value of a comparison: `advance`, then the `switch` over the token's kind.
unfoldable pub parse_value : Tokens → Parsed Value
parse_value [] = failed missing_value
parse_value (number n ∷ rest) = parsed (Value.num n) rest
parse_value (string s ∷ rest) = parsed (Value.str s) rest
parse_value (Token.bool b ∷ rest) = parsed (Value.bool b) rest
parse_value (_ ∷ rest) = failed expected_value

unfoldable pub parse_comparison : Tokens → Parsed Expression
unfolding expect_ident expect_op parse_value
parse_comparison ts = then_parse (expect_ident ts) λ variable rest.
    then_parse (expect_op rest) λ operator rest'.
      then_parse (parse_value rest')
        λ value rest''. parsed (comparison variable operator value) rest''

unfoldable mutual
  pub parse_or : ℕ → Tokens → Parsed Expression
  parse_or zero ts = out_of_fuel
  parse_or (suc f) ts = then_parse (parse_and f ts) (or_loop f)

  -- `while (this.peek()?.kind === 'or')`
  pub or_loop : ℕ → Expression → Tokens → Parsed Expression
  or_loop zero left ts = out_of_fuel
  or_loop (suc f) left (or_ ∷ rest) =
      then_parse (parse_and f rest) λ right rest'. or_loop f (disjunction left right) rest'
  or_loop (suc f) left ts = parsed left ts

  pub parse_and : ℕ → Tokens → Parsed Expression
  parse_and zero ts = out_of_fuel
  parse_and (suc f) ts = then_parse (parse_not f ts) (and_loop f)

  pub and_loop : ℕ → Expression → Tokens → Parsed Expression
  and_loop zero left ts = out_of_fuel
  and_loop (suc f) left (and_ ∷ rest) =
      then_parse (parse_not f rest) λ right rest'. and_loop f (conjunction left right) rest'
  and_loop (suc f) left ts = parsed left ts

  pub parse_not : ℕ → Tokens → Parsed Expression
  parse_not zero ts = out_of_fuel
  parse_not (suc f) (not_ ∷ rest) =
      then_parse (parse_not f rest) λ inner rest'. parsed (negation inner) rest'
  parse_not (suc f) ts = parse_primary f ts

  pub parse_primary : ℕ → Tokens → Parsed Expression
  parse_primary zero ts = out_of_fuel
  parse_primary (suc f) (lparen ∷ rest) = then_parse (parse_or f rest) expect_rparen
  parse_primary (suc f) ts = parse_comparison ts

-- The outcome of `parse`.
pub data Rule : Type 0 where
  rule : Expression → Rule
  syntax_error : SyntaxError → Rule
  no_fuel : Rule

unfoldable pub finish : Parsed Expression → Rule
finish (parsed e []) = rule e
finish (parsed e (t ∷ rest)) = syntax_error unexpected_token
finish (failed e) = syntax_error e
finish out_of_fuel = no_fuel

-- `parse`, from the tokens on.
unfoldable pub parse : Tokens → Rule
unfolding finish
parse [] = syntax_error empty_rule
parse (t ∷ ts) = finish (parse_or (4 * length (t ∷ ts) + 4) (t ∷ ts))
