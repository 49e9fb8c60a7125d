-- ===== src/Fraud/Engine.antt =====
-- modules/fraud/fraud-rule.engine.ts. `Number` is a parameter: `number_of` of a literal in a rule, `number_of_text` of
-- a text that is compared.
use vaultline.Prelude.{
  ◌≡◌, ◌↔◌, ◌⊎◌, inl, inr, refl, Bool, true, false, Option, none, some, List, [], ◌∷◌, map,
  if◌then◌else◌, Bool-cases,
}
use vaultline.Common.Texts.{Text}
use vaultline.Prelude.Int.{ℤ}
use vaultline.Core.References.Digits.{number_text}
use vaultline.Fraud.Syntax.{Expression}
use vaultline.Fraud.Printed.{expression_text}
use vaultline.Fraud.Tokenizer.{parse_source}
use vaultline.Fraud.Interpreter.{RuleContext, interpret}
use vaultline.Fraud.Parser.{Rule, rule}
use vaultline.Fraud.SourceRoundTrip.{IsPrintable, parse_source-expression_text}

pub record FraudRule : Type 0 where
  pub source : Text
  pub expression : Expression

pub record FraudVerdict : Type 0 where
  pub suspicious : Bool
  pub matched_rules : List Text

-- The constructor: every configured source is parsed; one that is not a rule stops the start.
load_one : Text → Rule → Option (List FraudRule) → Option (List FraudRule)
load_one source (rule e) (some rules) = some (record { source = source; expression = e } ∷ rules)
load_one source _ _ = none

unfoldable pub load_rules : (number_of : Text → ℤ) → List Text → Option (List FraudRule)
unfolding load_one parse_source
load_rules number_of [] = some []
load_rules number_of (source ∷ sources) =
    load_one source (parse_source number_of source) (load_rules number_of sources)

-- `activeRules`
unfoldable pub active_rules : List FraudRule → List Text
active_rules [] = []
active_rules (r ∷ rules) = r.source ∷ active_rules rules

abbrev is_empty : List Text → Bool
is_empty [] = true
is_empty (s ∷ sources) = false

module _ (number_of_text : Text → Option ℤ) where
  matched : List FraudRule → RuleContext → List Text
  matched [] context = []
  matched (r ∷ rules) context =
      let rest = matched rules context in
      if interpret number_of_text r.expression context then r.source ∷ rest else rest

  unfoldable pub evaluate : List FraudRule → RuleContext → FraudVerdict
  unfolding matched
  evaluate rules context =
      let sources = matched rules context in
      record { suspicious = if is_empty sources then false else true; matched_rules = sources }

  -- Some rule of the list is triggered.
  abbrev pub Triggered : List FraudRule → RuleContext → Type 0
  Triggered [] context = ⊥
  Triggered (r ∷ rules) context =
      (interpret number_of_text r.expression context ≡ true) ⊎ Triggered rules context

  -- A transaction is suspicious exactly when some rule of the list is triggered.
  pub suspicious_iff :
      (rules : List FraudRule) (context : RuleContext)
      → ((evaluate rules context).suspicious ≡ true) ↔ Triggered rules context
  unfolding evaluate
  suspicious_iff [] context = (λ h. cc, λ h. absurd h)
  suspicious_iff (r ∷ rules) context =
      let rest = suspicious_iff rules context in
      elim (Bool-cases (interpret number_of_text r.expression context)) [
        | inl yes_it_is ↦ (λ h. inl yes_it_is, λ h. rw yes_it_is)
        | inr not_it ↦ (
          λ h. inr (rest.0 (rw not_it at h)),
          λ h. elim h [ inl e ↦ cc | inr t ↦ rw not_it (rest.1 t) ],
        )
      ]

-- What `tryRule` returns of a text that is a rule.
pub record Trial : Type 0 where
  pub rule_source : Text
  pub parsed_as : Text
  pub is_match : Bool

abbrev tried : (Text → Option ℤ) → RuleContext → Text → Rule → Option Trial
tried number_of_text context source (rule e) = some (record {
  rule_source = source;
  parsed_as = expression_text e;
  is_match = interpret number_of_text e context;
})
tried number_of_text context source _ = none

-- `tryRule`; `none` where it throws.
unfoldable pub try_rule :
    (number_of : Text → ℤ) (number_of_text : Text → Option ℤ) → Text → RuleContext → Option Trial
unfolding parse_source expression_text interpret
try_rule number_of number_of_text source context =
    tried number_of_text context source (parse_source number_of source)

module _ (number_of : Text → ℤ) (reads_numbers : (n : ℤ) → number_of (number_text n) ≡ n) where
  unfoldable pub AllPrintable : List Expression → Type 0
  AllPrintable [] = Unit {0}
  AllPrintable (e ∷ es) = IsPrintable e × AllPrintable es

  -- The texts that `toString` prints of rules load as those rules, in their order. The names and texts in
  -- them can be written down, and `Number` reads the digits of a whole number as that number.
  pub load-print :
      (es : List Expression)
      → AllPrintable es
      → load_rules number_of (map expression_text es)
        ≡ some (map (λ e. record { source = expression_text e; expression = e }) es)
  unfolding load_rules AllPrintable
  load-print [] h = refl
  load-print (e ∷ es) (own, h) =
      rw (parse_source-expression_text number_of reads_numbers e own, load-print es h) refl
