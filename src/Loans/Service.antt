-- ===== src/Loans/Service.antt =====
-- modules/loans/loans.service.ts: `submit` takes a draft through the builder, the look-up of the account and
-- the mediator, and saves the decision. A text names an account by the number that `id_of` gives. The new
-- row's id, and whether the database takes the row, are given by the caller.
pub mod Submitted
use vaultline.Prelude.{
  ℕ, Bool, true, false, Option, none, some, List, [], ◌∷◌, ◌++◌, String, str_eq, if◌then◌else◌,
  ◌==◌, not, ◌||◌, ◌&&◌, leb, length,
}
use vaultline.Prelude.Int.{ℤ, pos, ltb_ℤ}
use vaultline.Common.{
  Result, ok, err, DomainError, not_found, business_rule, unknown_draft, invalid_application,
  or_throw, unknown_loan, Reason, unexpected,
}
use vaultline.Common.Texts.{text}
use vaultline.Entities.{Account, LoanStatus}
use vaultline.Messaging.Events.{loan_decided}
use vaultline.Transactions.Ledger.Postings.{Bank, publish}
use vaultline.Accounts.Service.{find_by_id}
use vaultline.Loans.Builder.{
  LoanApplicationBuilder, LoanApplication, new_builder, for_applicant, disbursed_to, borrowing,
  over_months, for_purpose, earning_monthly, secured_by, Built, built, invalid, build, Collateral,
}
use vaultline.Loans.Approval.{Office, Desk, DeskEvent, LoanDecision, decide}
use vaultline.Loans.Drafts.{
  create, change, undo, get, DraftResult, refused, answered, DraftError, draft_not_found,
  nothing_to_undo, LoanDraftFields, DraftEntry, LoanDraftCaretaker, find_draft, remove,
}

-- A row of `loan_applications`.
pub record Loan : Type 0 where
  pub id : ℕ
  pub applicant_name : String
  pub account_id : ℕ
  pub amount_minor : ℤ
  pub term_months : ℕ
  pub purpose : String
  pub monthly_income_minor : ℤ
  pub status : LoanStatus
  pub decision_log : List (Desk × DeskEvent)

-- The service's drafts, the table of loans, and the bank that has the accounts and the events.
pub record LoansService : Type 0 where
  pub drafts : LoanDraftCaretaker
  pub loans : List Loan
  pub bank : Bank

-- `a ?? b`
abbrev pub or_default {ℓ} : {A : Type ℓ} → Option A → A → A
or_default none b = b
or_default (some a) b = a

abbrev pub is_zero : ℤ → Bool
is_zero n = not (ltb_ℤ n (pos 0) || ltb_ℤ (pos 0) n)

-- `if (f.collateralDescription && f.collateralValueMinor)`
unfoldable pub with_collateral :
    Option String → Option ℤ → LoanApplicationBuilder → LoanApplicationBuilder
with_collateral (some description) (some value) b =
    if str_eq description "" || is_zero value then b else secured_by b description value
with_collateral _ _ b = b

unfoldable pub builder_of : (trim : String → String) → LoanDraftFields → LoanApplicationBuilder
unfolding with_collateral
builder_of trim f =
    let b₁ = for_applicant new_builder trim (or_default f.applicant_name "") in
    let b₂ = disbursed_to b₁ (or_default f.account_id "") in
    let b₃ = borrowing b₂ (or_default f.amount_minor (pos 0)) in
    let b₄ = over_months b₃ (or_default f.term_months 12) in
    let b₅ = for_purpose b₄ (or_default f.purpose "personal") in
    let b₆ = earning_monthly b₅ (or_default f.monthly_income_minor (pos 0)) in
    with_collateral f.collateral_description f.collateral_value_minor b₆

-- The saved row and the monthly instalment.
abbrev pub Submission : Type 0
Submission = Loan × ℤ

unfoldable pub loan_of : ℕ → ℕ → LoanApplication → LoanDecision → Loan
loan_of id account_id a decision = record {
  id = id;
  applicant_name = a.applicant_name;
  account_id = account_id;
  amount_minor = a.amount_minor;
  term_months = a.term_months;
  purpose = a.purpose;
  monthly_income_minor = a.monthly_income_minor;
  status = decision.status;
  decision_log = decision.log;
}

module _ (office : Office) (trim : String → String) (id_of : String → ℕ) (new_id : ℕ)
    (stored : Bool) (draft_id : String) where
  abbrev pub saved_as : Loan → LoansService → LoansService
  saved_as loan service = record {
    drafts = remove draft_id service.drafts;
    loans = service.loans ++ loan ∷ [];
    bank =
        publish (loan_decided loan.id loan.account_id loan.status loan.amount_minor) service.bank;
  }

  -- Whether `loans.save` returns: `applicant_name` has 120 characters and `purpose` 80. `stored` tells
  -- whether the database takes the row otherwise.
  abbrev pub is_saved : LoanApplication → Bool
  is_saved a =
      leb (length (text a.applicant_name)) 120 && (leb (length (text a.purpose)) 80 && stored)

  -- After the decision. The mediator always comes to one.
  unfoldable pub after_decision :
      LoanApplication → LoansService → Option LoanDecision → Result Submission × LoansService
  unfolding remove publish loan_of
  after_decision a service none = (err (business_rule invalid_application), service)
  after_decision a service (some decision) =
      let loan = loan_of new_id (id_of a.account_id) a decision in
      if is_saved a
      then (
        ok (loan, office.monthly_instalment_minor loan.amount_minor loan.term_months),
        saved_as loan service,
      )
      else (err unexpected, service)

  -- `accounts.findById`: it must exist.
  unfoldable pub after_account :
      LoanApplication → LoansService → Result Account → Result Submission × LoansService
  unfolding after_decision decide
  after_account a service (err e) = (err e, service)
  after_account a service (ok account) = after_decision a service (decide office a)

  unfoldable pub after_build : LoansService → Built → Result Submission × LoansService
  unfolding after_account find_by_id
  after_build service (invalid errors) = (err (business_rule invalid_application), service)
  after_build service (built a) =
      after_account a service (find_by_id (id_of a.account_id) service.bank)

  unfoldable pub submit_draft : LoansService → Option DraftEntry → Result Submission × LoansService
  unfolding after_build builder_of build
  submit_draft service none = (err (not_found unknown_draft), service)
  submit_draft service (some entry) = after_build service (build (builder_of trim entry.draft))

  -- `submit`
  unfoldable pub submit : LoansService → Result Submission × LoansService
  unfolding submit_draft find_draft
  submit service = submit_draft service (find_draft draft_id service.drafts)

-- `findById`
unfoldable pub find_row : ℕ → List Loan → Option Loan
find_row id [] = none
find_row id (loan ∷ loans) = if loan.id == id then some loan else find_row id loans

unfoldable pub find_loan : ℕ → LoansService → Result Loan
unfolding find_row
find_loan id service = or_throw (find_row id service.loans) (not_found unknown_loan)

-- A draft as it is shown: its id, its fields and the steps that can be undone.
abbrev pub Presented : Type 0
Presented = String × LoanDraftFields × ℕ

abbrev pub presented : String → Option (LoanDraftFields × ℕ) → Result Presented
presented id none = err (not_found unknown_draft)
presented id (some (fields, steps)) = ok (id, fields, steps)

-- `present`
unfoldable pub present : String → LoanDraftCaretaker → Result Presented
unfolding get
present id drafts = presented id (get id drafts)

abbrev pub draft_error : DraftError → DomainError
draft_error draft_not_found = not_found unknown_draft
draft_error nothing_to_undo = business_rule Reason.nothing_to_undo

abbrev pub with_drafts : LoanDraftCaretaker → LoansService → LoansService
with_drafts drafts service = record service { drafts = drafts }

unfoldable pub present_result :
    String → LoansService → DraftResult → Result Presented × LoansService
unfolding present
present_result id service (refused e) = (err (draft_error e), service)
present_result id service (answered fields drafts) = (present id drafts, with_drafts drafts service)

-- `createDraft`, with the id that the caretaker draws.
unfoldable pub create_draft :
    String → LoanDraftFields → LoansService → Result Presented × LoansService
unfolding create present
create_draft id fields service = (
  present id (create id fields service.drafts),
  with_drafts (create id fields service.drafts) service,
)

-- `updateDraft`, `undoDraft`, `getDraft`
unfoldable pub update_draft :
    String → LoanDraftFields → LoansService → Result Presented × LoansService
unfolding change present_result
update_draft id changes service = present_result id service (change id changes service.drafts)

unfoldable pub undo_draft : String → LoansService → Result Presented × LoansService
unfolding undo present_result
undo_draft id service = present_result id service (undo id service.drafts)

unfoldable pub get_draft : String → LoansService → Result Presented
unfolding present
get_draft id service = present id service.drafts
