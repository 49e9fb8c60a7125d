-- ===== src/Fraud/Interpreter.antt =====
-- `interpret` of modules/fraud/fraud-rule.interpreter.ts. What JavaScript's `Number` reads from a
-- text is a parameter; `none` is NaN, of which every order is false.
use vaultline.Prelude.{◌≡◌, Bool, true, false, not, ◌&&◌, ◌||◌, Option, none, some}
use vaultline.Common.Texts.{Text, same_text}
use vaultline.Prelude.Int.{ℤ, pos, ltb_ℤ, leb_ℤ}
use vaultline.Prelude.{if◌then◌else◌}
use vaultline.Fraud.Syntax.{
  Value, str, num, bool, Operator, gt, ge, lt, le, eq, ne, Expression, comparison, conjunction,
  disjunction, negation,
}

abbrev pub RuleContext : Type 0
RuleContext = Text → Option Value

abbrev eq_ℤ : ℤ → ℤ → Bool
eq_ℤ a b = leb_ℤ a b && leb_ℤ b a

abbrev eq_bool : Bool → Bool → Bool
eq_bool true b = b
eq_bool false b = not b

-- `===`
abbrev pub strictly_equal : Value → Value → Bool
strictly_equal (str s) (str t) = same_text s t
strictly_equal (num m) (num n) = eq_ℤ m n
strictly_equal (bool a) (bool b) = eq_bool a b
strictly_equal _ _ = false

abbrev compare_numbers : (ℤ → ℤ → Bool) → Option ℤ → Option ℤ → Bool
compare_numbers test (some m) (some n) = test m n
compare_numbers test _ _ = false

module _ (number_of_text : Text → Option ℤ) where
  -- `Number(value)`
  pub to_number : Value → Option ℤ
  to_number (str s) = number_of_text s
  to_number (num n) = some n
  to_number (bool b) = some (pos (if b then 1 else 0))

  -- The `switch` of `ComparisonExpression.interpret`.
  pub holds : Operator → Value → Value → Bool
  unfolding to_number
  holds eq actual value = strictly_equal actual value
  holds ne actual value = not (strictly_equal actual value)
  holds gt actual value = compare_numbers (λ m n. ltb_ℤ n m) (to_number actual) (to_number value)
  holds ge actual value = compare_numbers (λ m n. leb_ℤ n m) (to_number actual) (to_number value)
  holds lt actual value = compare_numbers ltb_ℤ (to_number actual) (to_number value)
  holds le actual value = compare_numbers leb_ℤ (to_number actual) (to_number value)

  unfoldable pub interpret : Expression → RuleContext → Bool
  unfolding holds
  interpret (comparison variable operator value) context = elim (context variable) [
    | none ↦ false
    | some actual ↦ holds operator actual value
  ]
  interpret (conjunction left right) context = interpret left context && interpret right context
  interpret (disjunction left right) context = interpret left context || interpret right context
  interpret (negation inner) context = not (interpret inner context)

-- A rule without NOT.
abbrev pub IsPositive : Expression → Type 0
IsPositive (comparison variable operator value) = Unit
IsPositive (conjunction left right) = IsPositive left × IsPositive right
IsPositive (disjunction left right) = IsPositive left × IsPositive right
IsPositive (negation inner) = ⊥

module _ (number_of_text : Text → Option ℤ) where
  -- A rule without NOT is not triggered where no variable is known.
  pub unknown_never_triggers :
      (e : Expression) (context : RuleContext)
      → IsPositive e
      → ((v : Text) → context v ≡ none)
      → interpret number_of_text e context ≡ false
  unfolding interpret
  unknown_never_triggers (comparison v o x) context p unknown = rw (unknown v, interpret)
  unknown_never_triggers (conjunction l r) context p unknown =
      rw (unknown_never_triggers l context p.0 unknown)
  unknown_never_triggers (disjunction l r) context p unknown =
      rw
        (unknown_never_triggers l context p.0 unknown, unknown_never_triggers r context p.1 unknown)
  unknown_never_triggers (negation e) context p unknown = absurd p

  -- A NOT over a comparison is triggered where the variable of the comparison is not known.
  pub not_unknown_triggers :
      (v : Text) (o : Operator) (x : Value) (context : RuleContext)
      → context v ≡ none
      → interpret number_of_text (negation (comparison v o x)) context ≡ true
  unfolding interpret
  not_unknown_triggers v o x context unknown = rw (unknown, interpret)
