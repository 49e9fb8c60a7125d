-- ===== src/Loans/Tests.antt =====
-- Loan applications on examples.
use vaultline.Prelude.{true, ℕ, String, ◌≤◌, ◌≡◌, refl, false, none, some, [], ◌∷◌, str_eq}
use vaultline.Prelude.Int.{pos}
use vaultline.Loans.Builder.{LoanApplicationBuilder, application_of}
use vaultline.Loans.Approval.{Office}
use vaultline.Loans.Approval.Decided.{Decided, decide-Decided}
use vaultline.Loans.Drafts.{LoanDraftFields, DraftEntry, LoanDraftCaretaker, find_draft}
use vaultline.Samples.{bank}
use vaultline.Common.Texts.{Text, text}
use vaultline.Loans.Bureau.{NameFunctions, read_report, fetch_rpt, score_of, hash_of, enquiries_of}
use vaultline.Loans.Bureau.Read.{read_report-fetch_rpt}
use vaultline.Loans.Service.{LoansService, submit}
use vaultline.Loans.Service.Submitted.{Submits, submit-Submits}

abbrev parts : LoanApplicationBuilder
parts = record {
  applicant_name = some "Alice";
  account_id = some "1";
  amount_minor = some (pos 1_000_000);
  term_months = 24;
  purpose = "home";
  monthly_income_minor = some (pos 300_000);
  collateral = none;
  co_applicant_name = none;
}

-- A bureau that knows a score of 700 for everybody, and interest-free instalments of 50,000.
abbrev office : Office
office = record {
  get_report = λ name. record { score = pos 700; has_defaults = false; recent_enquiries = pos 0 };
  monthly_instalment_minor = λ amount term. pos 50_000;
  to_lower_case = λ s. s;
  includes = str_eq;
}

decide-Decided_example : Decided office (application_of parts)
decide-Decided_example = decide-Decided office (application_of parts)

abbrev no_fields : LoanDraftFields
no_fields = record {
  applicant_name = none;
  account_id = none;
  amount_minor = none;
  term_months = none;
  purpose = none;
  monthly_income_minor = none;
  collateral_description = none;
  collateral_value_minor = none;
}

abbrev named : LoanDraftFields
named = record no_fields { applicant_name = some "Alice" }

abbrev entry : DraftEntry
entry = record { draft = no_fields; history = [] }

abbrev drafts : LoanDraftCaretaker
drafts = ("d", entry) ∷ []

entry_is_there : find_draft "d" drafts ≡ some entry
unfolding find_draft
entry_is_there = refl

-- A draft of Alice's, whose account is that of the sample bank.
abbrev alices : DraftEntry
alices = record {
  draft = record {
    applicant_name = some "Alice";
    account_id = some "1";
    amount_minor = some (pos 1_000_000);
    term_months = some 24;
    purpose = none;
    monthly_income_minor = some (pos 300_000);
    collateral_description = none;
    collateral_value_minor = none;
  };
  history = [];
}

abbrev service : LoansService
service = record { drafts = ("d1", alices) ∷ []; loans = []; bank = bank }

abbrev first_account : String → ℕ
first_account s = 1

abbrev untrimmed : String → String
untrimmed s = s

submit-Submits_example :
    Submits office untrimmed first_account 9 true "d1" service
      (find_draft "d1" service.drafts)
      (submit office untrimmed first_account 9 true "d1" service)
submit-Submits_example = submit-Submits office untrimmed first_account 9 true "d1" service

-- An applicant whose name spells a field of the report.
abbrev name_functions : NameFunctions
name_functions = record { to_upper_case = λ s. s; mentions_default = λ s. false }

abbrev trickster : Text
trickster = text "ALI|SCR=0999"

read_report-fetch_rpt_example :
    (read_report (fetch_rpt name_functions trickster) ≡ record {
      score = some (score_of (hash_of trickster));
      has_defaults = false;
      recent_enquiries = some (enquiries_of (hash_of trickster));
    })
    × (550 ≤ score_of (hash_of trickster))
    × (score_of (hash_of trickster) ≤ 849)
read_report-fetch_rpt_example = read_report-fetch_rpt name_functions trickster
