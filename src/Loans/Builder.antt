-- ===== src/Loans/Builder.antt =====
-- modules/loans/domain/loan-application.builder.ts. `trim` of a text is a parameter. Half of an amount
-- is compared by doubling the other side.
pub mod Complete
use vaultline.Prelude.{
  ℕ, Bool, true, false, Option, none, some, List, [], ◌∷◌, ◌++◌, String, str_eq, not, ◌&&◌, ◌||◌,
  ltb, if◌then◌else◌,
}
use vaultline.Prelude.Int.{ℤ, pos, ◌+ℤ◌, ltb_ℤ, leb_ℤ}

pub record Collateral : Type 0 where
  pub description : String
  pub value_minor : ℤ

pub record LoanApplication : Type 0 where
  pub applicant_name : String
  pub account_id : String
  pub amount_minor : ℤ
  pub term_months : ℕ
  pub purpose : String
  pub monthly_income_minor : ℤ
  pub collateral : Option Collateral
  pub co_applicant_name : Option String

-- The parts collected so far.
pub record LoanApplicationBuilder : Type 0 where
  pub applicant_name : Option String
  pub account_id : Option String
  pub amount_minor : Option ℤ
  pub term_months : ℕ
  pub purpose : String
  pub monthly_income_minor : Option ℤ
  pub collateral : Option Collateral
  pub co_applicant_name : Option String

abbrev pub new_builder : LoanApplicationBuilder
new_builder = record {
  applicant_name = none;
  account_id = none;
  amount_minor = none;
  term_months = 12;
  purpose = "personal";
  monthly_income_minor = none;
  collateral = none;
  co_applicant_name = none;
}

module _ (b : LoanApplicationBuilder) where
  abbrev pub for_applicant : (trim : String → String) → String → LoanApplicationBuilder
  for_applicant trim name = record b { applicant_name = some (trim name) }

  abbrev pub disbursed_to : String → LoanApplicationBuilder
  disbursed_to account_id = record b { account_id = some account_id }

  abbrev pub borrowing : ℤ → LoanApplicationBuilder
  borrowing amount_minor = record b { amount_minor = some amount_minor }

  abbrev pub over_months : ℕ → LoanApplicationBuilder
  over_months term_months = record b { term_months = term_months }

  abbrev pub for_purpose : String → LoanApplicationBuilder
  for_purpose purpose = record b { purpose = purpose }

  abbrev pub earning_monthly : ℤ → LoanApplicationBuilder
  earning_monthly income_minor = record b { monthly_income_minor = some income_minor }

  abbrev pub secured_by : String → ℤ → LoanApplicationBuilder
  secured_by description value_minor = record b {
    collateral = some (record { description = description; value_minor = value_minor });
  }

  abbrev pub with_co_applicant : String → LoanApplicationBuilder
  with_co_applicant name = record b { co_applicant_name = some name }

-- The lines of the error.
pub data ApplicationError : Type 0 where
  applicant_name_required account_required amount_not_positive income_required : ApplicationError
  term_out_of_range needs_collateral : ApplicationError

pub data Built : Type 0 where
  built : LoanApplication → Built
  invalid : List ApplicationError → Built

-- A text that is missing or empty; a number that is missing, zero or negative.
abbrev pub is_blank : Option String → Bool
is_blank none = true
is_blank (some s) = str_eq s ""

abbrev pub is_not_positive : Option ℤ → Bool
is_not_positive none = true
is_not_positive (some n) = leb_ℤ n (pos 0)

abbrev pub or_zero : Option ℤ → ℤ
or_zero none = pos 0
or_zero (some n) = n

abbrev pub or_empty : Option String → String
or_empty none = ""
or_empty (some s) = s

abbrev pub large_loan_minor : ℤ
large_loan_minor = pos 200_000_000

-- `!collateral || collateral.valueMinor < amount / 2`
abbrev pub lacks_collateral : ℤ → Option Collateral → Bool
lacks_collateral amount none = true
lacks_collateral amount (some c) = ltb_ℤ (c.value_minor +ℤ c.value_minor) amount

abbrev pub note : Bool → ApplicationError → List ApplicationError
note true e = e ∷ []
note false e = []

unfoldable pub application_errors : LoanApplicationBuilder → List ApplicationError
application_errors b =
    note (is_blank b.applicant_name) applicant_name_required
    ++ (note (is_blank b.account_id) account_required
        ++ (note (is_not_positive b.amount_minor) amount_not_positive
            ++ (note (is_not_positive b.monthly_income_minor) income_required
                ++ (note (ltb b.term_months 3 || ltb 84 b.term_months) term_out_of_range
                    ++ note
                        (ltb_ℤ large_loan_minor (or_zero b.amount_minor)
                          && lacks_collateral (or_zero b.amount_minor) b.collateral)
                        needs_collateral))))

abbrev pub application_of : LoanApplicationBuilder → LoanApplication
application_of b = record {
  applicant_name = or_empty b.applicant_name;
  account_id = or_empty b.account_id;
  amount_minor = or_zero b.amount_minor;
  term_months = b.term_months;
  purpose = b.purpose;
  monthly_income_minor = or_zero b.monthly_income_minor;
  collateral = b.collateral;
  co_applicant_name = b.co_applicant_name;
}

unfoldable pub conclude : LoanApplicationBuilder → List ApplicationError → Built
conclude b [] = built (application_of b)
conclude b (e ∷ errors) = invalid (e ∷ errors)

unfoldable pub build : LoanApplicationBuilder → Built
unfolding application_errors conclude
build b = conclude b (application_errors b)
