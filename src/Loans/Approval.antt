-- ===== src/Loans/Approval.antt =====
-- modules/loans/domain/loan-approval.mediator.ts: the three desks and the mediator that calls them.
-- The bureau's report, the instalment formula (floating point) and the two text functions of the
-- language are parameters. `instalment / income > 0.4` is `5 * instalment > 2 * income`, for a positive
-- income. The log keeps the desk and the event of a line, without the detail.
pub mod Decided
use vaultline.Prelude.{
  ℕ, zero, suc, Bool, true, false, Option, none, some, List, [], ◌∷◌, ◌++◌, String, ◌||◌,
  if◌then◌else◌,
}
use vaultline.Prelude.Int.{ℤ, pos, ◌+ℤ◌, ltb_ℤ}
use vaultline.Entities.{LoanStatus, approved, rejected, manual_review}
use vaultline.Loans.Builder.{LoanApplication}

pub data Desk : Type 0 where
  credit_desk affordability_desk compliance_desk : Desk

pub data DeskEvent : Type 0 where
  credit_passed credit_borderline credit_rejected : DeskEvent
  affordability_passed affordability_failed : DeskEvent
  compliance_passed compliance_manual_review : DeskEvent

pub record CreditReport : Type 0 where
  pub score : ℤ
  pub has_defaults : Bool
  pub recent_enquiries : ℤ

-- What the desks use of other code.
pub record Office : Type 0 where
  pub get_report : String → CreditReport
  pub monthly_instalment_minor : ℤ → ℕ → ℤ
  pub to_lower_case : String → String
  pub includes : String → String → Bool

unfoldable pub credit_review : CreditReport → DeskEvent
credit_review report =
    if report.has_defaults || ltb_ℤ report.score (pos 600)
    then credit_rejected
    else if ltb_ℤ report.score (pos 680)
    then credit_borderline
    else credit_passed

abbrev pub twice : ℤ → ℤ
twice n = n +ℤ n

-- `ratio > 0.4`
abbrev pub exceeds_ratio : ℤ → ℤ → Bool
exceeds_ratio instalment income = ltb_ℤ (twice income) (twice (twice instalment) +ℤ instalment)

unfoldable pub affordability_review : Office → LoanApplication → DeskEvent
affordability_review office a =
    if exceeds_ratio (office.monthly_instalment_minor a.amount_minor a.term_months)
      a.monthly_income_minor
    then affordability_failed
    else affordability_passed

abbrev pub restricted_purposes : List String
restricted_purposes = "crypto" ∷ "gambling" ∷ "speculation" ∷ []

abbrev pub some_included : (String → String → Bool) → String → List String → Bool
some_included includes purpose [] = false
some_included includes purpose (p ∷ ps) = includes purpose p || some_included includes purpose ps

abbrev pub is_restricted : Office → String → Bool
is_restricted office purpose =
    some_included office.includes (office.to_lower_case purpose) restricted_purposes

unfoldable pub compliance_review : Office → LoanApplication → DeskEvent
compliance_review office a =
    if is_restricted office a.purpose
    then compliance_manual_review
    else if ltb_ℤ (pos 500_000_000) a.amount_minor
    then compliance_manual_review
    else compliance_passed

unfoldable pub review : Office → Desk → LoanApplication → DeskEvent
review office credit_desk a = credit_review (office.get_report a.applicant_name)
review office affordability_desk a = affordability_review office a
review office compliance_desk a = compliance_review office a

-- The mediator's workflow state.
pub record LoanApprovalMediator : Type 0 where
  pub status : LoanStatus
  pub borderline : Bool
  pub log : List (Desk × DeskEvent)

abbrev pub new_mediator : LoanApprovalMediator
new_mediator = record { status = manual_review; borderline = false; log = [] }

-- The switch: the state after the event, and the desk that acts next.
unfoldable pub on_event : DeskEvent → LoanApprovalMediator → LoanApprovalMediator × Option Desk
on_event credit_borderline m = (record m { borderline = true }, some affordability_desk)
on_event credit_passed m = (m, some affordability_desk)
on_event affordability_passed m = (m, some compliance_desk)
on_event credit_rejected m = (record m { status = rejected }, none)
on_event affordability_failed m = (record m { status = rejected }, none)
on_event compliance_manual_review m = (record m { status = manual_review }, none)
on_event compliance_passed m =
    (record m { status = if m.borderline then manual_review else approved }, none)

abbrev pub logged : Desk → DeskEvent → LoanApprovalMediator → LoanApprovalMediator
logged sender event m = record m { log = m.log ++ ((sender, event) ∷ []) }

-- The event of a desk's review reaches the mediator, which calls the next desk if there is one. Fuel
-- bounds the number of calls.
unfoldable pub call_next :
    (Desk → LoanApprovalMediator → Option LoanApprovalMediator)
    → LoanApprovalMediator × Option Desk
    → Option LoanApprovalMediator
call_next call (m, none) = some m
call_next call (m, some desk) = call desk m

unfoldable pub notify :
    ℕ
    → Office
    → LoanApplication
    → Desk
    → DeskEvent
    → LoanApprovalMediator
    → Option LoanApprovalMediator
unfolding call_next
notify zero office a sender event m = none
notify (suc fuel) office a sender event m =
    call_next (λ desk. notify fuel office a desk (review office desk a))
      (on_event event (logged sender event m))

pub record LoanDecision : Type 0 where
  pub status : LoanStatus
  pub log : List (Desk × DeskEvent)

abbrev pub decision : Option LoanApprovalMediator → Option LoanDecision
decision none = none
decision (some m) = some (record { status = m.status; log = m.log })

-- There are three desks.
unfoldable pub decide : Office → LoanApplication → Option LoanDecision
unfolding notify
decide office a =
    decision (notify 3 office a credit_desk (review office credit_desk a) new_mediator)
