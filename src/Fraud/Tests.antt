-- ===== src/Fraud/Tests.antt =====
-- The rule language on examples.
use vaultline.Prelude.{arith, ◌≡◌, ◌≢◌, Option, none, List, [], ◌∷◌}
use vaultline.Common.Texts.{Text, text}
use vaultline.Prelude.Int.{ℤ, pos}
use vaultline.Fraud.Syntax.{
  Value, gt, eq, Expression, comparison, conjunction, disjunction, negation,
}
use vaultline.Fraud.Interpreter.{RuleContext}
use vaultline.Fraud.Parser.{rule, no_fuel}
use vaultline.Common.Texts.{same_text}
use vaultline.Fraud.Literals.{literal, literal-number_text}
use vaultline.Fraud.Printed.{expression_text}
use vaultline.Fraud.Tokenizer.{word_token, parse_source}
use vaultline.Common.Texts.{AllAre}
use vaultline.Fraud.ValueTexts.{IsVariable, IsPrintableValue}
use vaultline.Fraud.SourceRoundTrip.{IsPrintable, parse_source-expression_text}
use vaultline.Fraud.TextFuel.{parse_source-ne-no_fuel}
use vaultline.Fraud.Engine.{FraudRule}

-- `amount > 10000`, `channel = 'branch'` and `hour > 21`
abbrev large : Expression
large = comparison (text "amount") gt (Value.num (pos 10_000))

abbrev at_branch : Expression
at_branch = comparison (text "channel") eq (Value.str (text "branch"))

abbrev late : Expression
late = comparison (text "hour") gt (Value.num (pos 21))

abbrev compound : Expression
compound = conjunction large (negation (disjunction at_branch late))

abbrev unknown : RuleContext
unknown variable = none

abbrev no_number : Text → Option ℤ
no_number s = none

abbrev rules : List FraudRule
rules = record { source = expression_text large; expression = large } ∷ []

compound-IsPrintable : IsPrintable compound
unfolding IsPrintable IsVariable IsPrintableValue AllAre word_token same_text
compound-IsPrintable = ground arith

parse_source-expression_text_example :
    parse_source literal (expression_text compound) ≡ rule compound
parse_source-expression_text_example =
    parse_source-expression_text literal literal-number_text compound compound-IsPrintable

parse_source-ne-no_fuel_example : parse_source literal (text "amount >") ≢ no_fuel
parse_source-ne-no_fuel_example = parse_source-ne-no_fuel literal (text "amount >")
