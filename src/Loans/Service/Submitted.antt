-- ===== src/Loans/Service/Submitted.antt =====
-- What a submission leaves.
use mathlib.Core.Path.{subst}
use vaultline.Prelude.{
  ℕ, ◌≤◌, length, Bool, true, false, ◌≡◌, ◌≢◌, ◌↔◌, refl, sym, ap, ◌∙◌, arith, Option, none, some,
  List, [], ◌∷◌, ◌++◌, String, str_eq, str_eq_iff, Bool-cases, Option-cases, inl, inr,
}
use vaultline.Common.{Result, ok, err}
use vaultline.Entities.{Account, approved, rejected}
use vaultline.Messaging.Events.{loan_decided}
use vaultline.Transactions.Ledger.Tables.{find_account}
use vaultline.Transactions.Ledger.Postings.{publish}
use vaultline.Accounts.Service.{find_by_id}
use vaultline.Loans.Builder.{
  ApplicationError, LoanApplication, LoanApplicationBuilder, Built, built, invalid, build,
  application_of, application_errors,
}
use vaultline.Loans.Builder.Complete.{IsComplete, build_iff, built-clean}
use vaultline.Loans.Approval.{Office, decide}
use vaultline.Loans.Approval.Decided.{IsAccepted, IsDeclined, decide-Decided}
use vaultline.Loans.Drafts.{DraftEntry, LoanDraftCaretaker, find_draft, remove}
use vaultline.Loans.Service.{
  Loan, LoansService, Submission, builder_of, loan_of, after_decision, after_account, after_build,
  submit_draft, submit, is_saved,
}
use vaultline.Common.Texts.{text}

find_draft-remove :
    (id : String) (drafts : LoanDraftCaretaker) → find_draft id (remove id drafts) ≡ none
unfolding find_draft remove
find_draft-remove id [] = refl
find_draft-remove id ((key, e) ∷ drafts) = elim (Bool-cases (str_eq key id)) [
  | inl here ↦ rw here (find_draft-remove id drafts)
  | inr there ↦ rw (there, there) (find_draft-remove id drafts)
]

find_draft-other :
    (id other : String) (drafts : LoanDraftCaretaker)
    → other ≢ id
    → find_draft other (remove id drafts) ≡ find_draft other drafts
unfolding find_draft remove
find_draft-other id other [] h = refl
find_draft-other id other ((key, e) ∷ drafts) h =
    let rest = find_draft-other id other drafts h in
    elim (Bool-cases (str_eq key id)) [
      | inl here ↦ elim (Bool-cases (str_eq key other)) [
        | inl same ↦ absurd (h (sym ((str_eq_iff key other).0 same) ∙ (str_eq_iff key id).0 here))
        | inr differs ↦ rw (here, differs) rest
      ]
      | inr there ↦ elim (Bool-cases (str_eq key other)) [
        | inl same ↦ rw (there, same) refl
        | inr differs ↦ rw (there, differs) rest
      ]
    ]

no_account : (a : Account) → none ≡ some a → ⊥
no_account a e = ground arith

built-application :
    (b : LoanApplicationBuilder) (a : LoanApplication) → build b ≡ built a → application_of b ≡ a
unfolding build
built-application b a e = (built-clean b a (application_errors b) e).1

not_invalid : (a : LoanApplication) (errors : List ApplicationError) → built a ≡ invalid errors → ⊥
not_invalid a errors e = ground arith

module _ (office : Office) (trim : String → String) (id_of : String → ℕ) (new_id : ℕ)
    (stored : Bool) (draft_id : String) (service : LoansService) where
  abbrev pub application : DraftEntry → LoanApplication
  application entry = application_of (builder_of trim entry.draft)

  -- The application that a draft becomes is complete, its account exists, and the database takes the row:
  -- the name has 120 characters at most and the purpose 80, and nothing else is in the way.
  abbrev pub CanSubmit : Option DraftEntry → Type 0
  CanSubmit none = ⊥
  CanSubmit (some entry) =
      IsComplete (application entry)
      × (account : Account) × (find_account (id_of (application entry).account_id)
            service.bank.database.accounts
          ≡ some account)
      × (length (text (application entry).applicant_name) ≤ 120)
      × (length (text (application entry).purpose) ≤ 80)
      × (stored ≡ true)

  -- The loan that is saved is the application with the mediator's decision; the draft is gone, the others
  -- are as they were; and the decision is announced.
  abbrev pub Saves : LoanApplication → Loan → LoansService → Type 0
  Saves a loan service' =
      ((loan.status ≡ approved ↔ IsAccepted office a)
        × (loan.status ≡ rejected ↔ IsDeclined office a))
      × ((loan.amount_minor ≡ a.amount_minor) × (loan.account_id ≡ id_of a.account_id))
      × (service'.loans ≡ service.loans ++ loan ∷ [])
      × (find_draft draft_id service'.drafts ≡ none)
      × ((other : String)
          → other ≢ draft_id
          → find_draft other service'.drafts ≡ find_draft other service.drafts)
      × (service'.bank
          ≡ publish (loan_decided loan.id loan.account_id loan.status loan.amount_minor)
              service.bank)

  abbrev pub Submits : Option DraftEntry → Result Submission × LoansService → Type 0
  Submits entry (err e, service') = (service' ≡ service) × ¬ (CanSubmit entry)
  Submits none (ok s, service') = ⊥
  Submits (some entry) (ok (loan, instalment), service') =
      CanSubmit (some entry) × Saves (application entry) loan service'

  decision-Saves :
      (entry : DraftEntry)
      → CanSubmit (some entry)
      → Submits (some entry) (
          after_decision office trim id_of new_id stored draft_id
            (application entry)
            service
            (decide office (application entry)))
  unfolding after_decision loan_of
  decision-Saves entry can =
      let (d, decided, accepted, declined) = decide-Decided office (application entry) in
      let (whole, account, found, name, purpose, up) = can in
      let taken : is_saved office trim id_of new_id stored draft_id (application entry) ≡ true =
        ground arith in
      rw (decided, taken)
        (
          can,
          (
            (accepted, declined),
            (refl, refl),
            refl,
            find_draft-remove draft_id service.drafts,
            λ other h. find_draft-other draft_id other service.drafts h,
            refl,
          ),
        )

  not_saved :
      (entry : DraftEntry)
      → is_saved office trim id_of new_id stored draft_id (application entry) ≡ false
      → Submits (some entry) (
          after_decision office trim id_of new_id stored draft_id
            (application entry)
            service
            (decide office (application entry)))
  unfolding after_decision
  not_saved entry refused =
      let (d, decided, accepted, declined) = decide-Decided office (application entry) in
      let cannot : length (text (application entry).applicant_name) ≤ 120
          → length (text (application entry).purpose) ≤ 80
          → stored ≡ true
          → ⊥ =
        ground arith in
      rw (decided, refused) (refl, λ can. cannot can.3 can.4 can.5)

  account-Submits :
      (entry : DraftEntry)
      → IsComplete (application entry)
      → Submits (some entry) (
          after_account office trim id_of new_id stored draft_id
            (application entry)
            service
            (find_by_id (id_of (application entry).account_id) service.bank))
  unfolding after_account find_by_id
  account-Submits entry whole =
      let id = id_of (application entry).account_id in
      elim (Option-cases (find_account id service.bank.database.accounts)) [
        | inl missing ↦ rw missing (refl, λ can. no_account can.1 (sym missing ∙ can.2))
        | inr (account, found) ↦
            elim (Bool-cases
              (is_saved office trim id_of new_id stored draft_id (application entry))) [
                | inl taken ↦
                    let name : length (text (application entry).applicant_name) ≤ 120 =
                      ground arith in
                    let purpose : length (text (application entry).purpose) ≤ 80 = ground arith in
                    let up : stored ≡ true = ground arith in
                    rw found (decision-Saves entry (whole, account, found, name, purpose, up))
                | inr refused ↦ rw found (not_saved entry refused)
              ]
      ]

  build-Submits :
      (entry : DraftEntry) (result : Built)
      → build (builder_of trim entry.draft) ≡ result
      → Submits (some entry) (after_build office trim id_of new_id stored draft_id service result)
  unfolding after_build after_account find_by_id
  build-Submits entry (invalid errors) e = (
    refl,
    λ can.
        not_invalid (application entry) errors
          (sym ((build_iff (builder_of trim entry.draft)).1 can.0) ∙ e),
  )
  build-Submits entry (built a) e =
      let same = built-application (builder_of trim entry.draft) a e in
      subst
        (λ x. Submits (some entry) (
          after_account office trim id_of new_id stored draft_id x service
            (find_by_id (id_of x.account_id) service.bank)))
        same
        (account-Submits entry
          ((build_iff (builder_of trim entry.draft)).0 (e ∙ ap built (sym same))))

  -- A submission saves a loan exactly if the draft exists, the application that it becomes is complete, the
  -- account exists, the name and the purpose fit their columns of 120 and 80 characters, and
  -- nothing else keeps the database from taking the row. Then the loan is approved or rejected as the mediator's rules say, the draft
  -- is gone and no other has changed, and one event tells of the decision. Otherwise nothing has
  -- changed.
  pub submit-Submits :
      Submits
        (find_draft draft_id service.drafts)
        (submit office trim id_of new_id stored draft_id service)
  unfolding submit submit_draft
  submit-Submits = elim (Option-cases (find_draft draft_id service.drafts)) [
    | inl missing ↦ rw missing (refl, λ can. can)
    | inr (entry, found) ↦ rw found (build-Submits entry _ refl)
  ]
