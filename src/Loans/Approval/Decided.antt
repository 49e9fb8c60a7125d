-- ===== src/Loans/Approval/Decided.antt =====
-- Which applications the mediator approves and which it rejects.
use vaultline.Prelude.{◌≡◌, ◌↔◌, ◌⊎◌, inl, inr, refl, arith, false, some, Bool-cases}
use vaultline.Prelude.Int.{ℤ, pos, ltb_ℤ, ◌≤ℤ◌, ◌+ℤ◌}
use vaultline.Entities.{approved, rejected}
use vaultline.Loans.Builder.{LoanApplication}
use vaultline.Loans.Approval.{
  Office, decide, notify, call_next, on_event, review, credit_review, affordability_review,
  compliance_review, LoanDecision, twice, is_restricted, credit_passed, credit_borderline,
  credit_rejected, affordability_failed, affordability_passed, compliance_manual_review,
  compliance_passed, CreditReport,
}

-- The instalment takes two fifths of the income at most.
abbrev pub Affordable : Office → LoanApplication → Type 0
Affordable office a =
    twice (twice (office.monthly_instalment_minor a.amount_minor a.term_months))
      +ℤ office.monthly_instalment_minor a.amount_minor a.term_months
    ≤ℤ twice a.monthly_income_minor

-- No defaults, and a score of `least` at least.
abbrev pub Creditworthy : ℤ → CreditReport → Type 0
Creditworthy least report = (report.has_defaults ≡ false) × (least ≤ℤ report.score)

-- Compliance has nothing to look at.
abbrev pub Unremarkable : Office → LoanApplication → Type 0
Unremarkable office a =
    (is_restricted office a.purpose ≡ false) × (a.amount_minor ≤ℤ pos 500_000_000)

abbrev CreditOutcome : CreditReport → Type 0
CreditOutcome report =
    (credit_review report ≡ credit_passed) × Creditworthy (pos 680) report
    ⊎ (credit_review report ≡ credit_borderline)
      × Creditworthy (pos 600) report
      × (report.score ≤ℤ pos 679)
    ⊎ (credit_review report ≡ credit_rejected) × (Creditworthy (pos 600) report → ⊥)

credit-cases : (report : CreditReport) → CreditOutcome report
unfolding credit_review
credit-cases report = elim (Bool-cases report.has_defaults) [
  | inl bad ↦ rw bad (ground arith)
  | inr good ↦ elim (Bool-cases (ltb_ℤ report.score (pos 600))) [
    | inl low ↦ rw (good, low) (ground arith)
    | inr fair ↦ elim (Bool-cases (ltb_ℤ report.score (pos 680))) [
      | inl middling ↦ rw (good, fair, middling) (ground arith)
      | inr high ↦ rw (good, fair, high) (ground arith)
    ]
  ]
]

abbrev AffordabilityOutcome : Office → LoanApplication → Type 0
AffordabilityOutcome office a =
    (affordability_review office a ≡ affordability_passed) × Affordable office a
    ⊎ (affordability_review office a ≡ affordability_failed) × (Affordable office a → ⊥)

abbrev ComplianceOutcome : Office → LoanApplication → Type 0
ComplianceOutcome office a =
    (compliance_review office a ≡ compliance_passed) × Unremarkable office a
    ⊎ (compliance_review office a ≡ compliance_manual_review) × (Unremarkable office a → ⊥)

affordability-cases : (office : Office) (a : LoanApplication) → AffordabilityOutcome office a
unfolding affordability_review
affordability-cases office a = ground arith

compliance-cases : (office : Office) (a : LoanApplication) → ComplianceOutcome office a
unfolding compliance_review
compliance-cases office a = ground arith

abbrev pub IsAccepted : Office → LoanApplication → Type 0
IsAccepted office a =
    Creditworthy (pos 680) (office.get_report a.applicant_name)
    × Affordable office a
    × Unremarkable office a

abbrev pub IsDeclined : Office → LoanApplication → Type 0
IsDeclined office a =
    (Creditworthy (pos 600) (office.get_report a.applicant_name) → ⊥) ⊎ (Affordable office a → ⊥)

-- The mediator answers, and the answer is the one that the two conditions say.
abbrev pub Decided : Office → LoanApplication → Type 0
Decided office a =
    (d : LoanDecision) × (decide office a ≡ some d)
    × (d.status ≡ approved ↔ IsAccepted office a)
    × (d.status ≡ rejected ↔ IsDeclined office a)

by_outcomes :
    (office : Office) (a : LoanApplication)
    → CreditOutcome (office.get_report a.applicant_name)
    → AffordabilityOutcome office a
    → ComplianceOutcome office a
    → Decided office a
unfolding decide notify call_next on_event review
by_outcomes office a (inl (e1, worthy)) (inl (e2, cheap)) (inl (e3, plain)) =
    rw (e1, e2, e3) (_, refl, ground arith, ground arith)
by_outcomes office a (inl (e1, worthy)) (inl (e2, cheap)) (inr (e3, odd)) =
    rw (e1, e2, e3) (_, refl, ground arith, ground arith)
by_outcomes office a (inl (e1, worthy)) (inr (e2, dear)) c =
    rw (e1, e2) (_, refl, ground arith, ground arith)
by_outcomes office a (inr (inl (e1, worthy, low))) (inl (e2, cheap)) (inl (e3, plain)) =
    rw (e1, e2, e3) (_, refl, ground arith, ground arith)
by_outcomes office a (inr (inl (e1, worthy, low))) (inl (e2, cheap)) (inr (e3, odd)) =
    rw (e1, e2, e3) (_, refl, ground arith, ground arith)
by_outcomes office a (inr (inl (e1, worthy, low))) (inr (e2, dear)) c =
    rw (e1, e2) (_, refl, ground arith, ground arith)
by_outcomes office a (inr (inr (e1, unworthy))) b c = rw e1 (_, refl, ground arith, ground arith)

-- The mediator comes to a decision on every application. It approves exactly those with no defaults
-- and a score of 680 or more, an instalment of at most two fifths of the income, a purpose that is not
-- restricted and an amount of at most 500,000,000; it rejects exactly those with a default, a score
-- below 600, or an instalment of more than two fifths of the income.
pub decide-Decided : (office : Office) (a : LoanApplication) → Decided office a
decide-Decided office a =
    by_outcomes office a (credit-cases (office.get_report a.applicant_name))
      (affordability-cases office a) (compliance-cases office a)
