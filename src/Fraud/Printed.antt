-- ===== src/Fraud/Printed.antt =====
-- `toString` of modules/fraud/fraud-rule.interpreter.ts as a text.
use vaultline.Prelude.{true, false, [], ◌∷◌, ◌++◌}
use vaultline.Common.Texts.{Text, text}
use vaultline.Core.References.Digits.{number_text}
use vaultline.Fraud.Syntax.{
  Value, str, num, bool, Operator, gt, ge, lt, le, eq, ne, Expression, comparison, conjunction,
  disjunction, negation,
}

abbrev pub operator_text : Operator → Text
operator_text gt = text ">"
operator_text ge = text ">="
operator_text lt = text "<"
operator_text le = text "<="
operator_text eq = text "=="
operator_text ne = text "!="

unfoldable pub value_text : Value → Text
unfolding number_text
value_text (str s) = 39 ∷ s ++ 39 ∷ []
value_text (num n) = number_text n
value_text (bool true) = text "true"
value_text (bool false) = text "false"

unfoldable pub expression_text : Expression → Text
unfolding value_text
expression_text (comparison variable operator value) =
    variable ++ 32 ∷ (operator_text operator ++ 32 ∷ value_text value)
expression_text (conjunction left right) =
    40 ∷ (expression_text left ++ (text " AND " ++ (expression_text right ++ text ")")))
expression_text (disjunction left right) =
    40 ∷ (expression_text left ++ (text " OR " ++ (expression_text right ++ text ")")))
expression_text (negation inner) = text "NOT " ++ expression_text inner
