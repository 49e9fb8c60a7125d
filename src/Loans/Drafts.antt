-- ===== src/Loans/Drafts.antt =====
-- modules/loans/domain/loan-draft.memento.ts: a draft, its snapshots, and the caretaker's map of drafts
-- with their undo stacks, the newest snapshot first. A draft's id is drawn by the caller; the time of a
-- snapshot is left out. A field that a change does not have is `none`.
pub mod Restored
use vaultline.Prelude.{
  ℕ, Bool, true, false, Option, none, some, List, [], ◌∷◌, String, str_eq, if◌then◌else◌, not,
  length,
}
use vaultline.Prelude.Int.{ℤ}

pub record LoanDraftFields : Type 0 where
  pub applicant_name : Option String
  pub account_id : Option String
  pub amount_minor : Option ℤ
  pub term_months : Option ℕ
  pub purpose : Option String
  pub monthly_income_minor : Option ℤ
  pub collateral_description : Option String
  pub collateral_value_minor : Option ℤ

unfoldable pub or_old {ℓ} : {A : Type ℓ} → Option A → Option A → Option A
or_old none old = old
or_old (some new) old = some new

-- `{ ...this.fields, ...changes }`
unfoldable pub update : LoanDraftFields → LoanDraftFields → LoanDraftFields
update changes f = record {
  applicant_name = or_old changes.applicant_name f.applicant_name;
  account_id = or_old changes.account_id f.account_id;
  amount_minor = or_old changes.amount_minor f.amount_minor;
  term_months = or_old changes.term_months f.term_months;
  purpose = or_old changes.purpose f.purpose;
  monthly_income_minor = or_old changes.monthly_income_minor f.monthly_income_minor;
  collateral_description = or_old changes.collateral_description f.collateral_description;
  collateral_value_minor = or_old changes.collateral_value_minor f.collateral_value_minor;
}

-- The draft and its snapshots.
pub record DraftEntry : Type 0 where
  pub draft : LoanDraftFields
  pub history : List LoanDraftFields

abbrev pub LoanDraftCaretaker : Type 0
LoanDraftCaretaker = List (String × DraftEntry)

pub data DraftError : Type 0 where
  draft_not_found nothing_to_undo : DraftError

-- `Map.get`, `Map.set` and `Map.delete`.
unfoldable pub find_draft : String → LoanDraftCaretaker → Option DraftEntry
find_draft id [] = none
find_draft id ((key, e) ∷ drafts) = if str_eq key id then some e else find_draft id drafts

unfoldable pub set_draft : String → DraftEntry → LoanDraftCaretaker → LoanDraftCaretaker
set_draft id e [] = (id, e) ∷ []
set_draft id e ((key, old) ∷ drafts) =
    if str_eq key id then (key, e) ∷ drafts else (key, old) ∷ set_draft id e drafts

unfoldable pub remove : String → LoanDraftCaretaker → LoanDraftCaretaker
remove id [] = []
remove id ((key, e) ∷ drafts) =
    if str_eq key id then remove id drafts else (key, e) ∷ remove id drafts

unfoldable pub create : String → LoanDraftFields → LoanDraftCaretaker → LoanDraftCaretaker
unfolding set_draft
create id initial drafts = set_draft id (record { draft = initial; history = [] }) drafts

-- What an operation on a draft gives: the error, or the draft and the caretaker after it.
pub data DraftResult : Type 0 where
  refused : DraftError → DraftResult
  answered : LoanDraftFields → LoanDraftCaretaker → DraftResult

-- The snapshot is taken before the change.
abbrev pub changed : LoanDraftFields → DraftEntry → DraftEntry
changed changes e = record { draft = update changes e.draft; history = e.draft ∷ e.history }

unfoldable pub change_entry :
    String → LoanDraftFields → LoanDraftCaretaker → Option DraftEntry → DraftResult
unfolding set_draft update or_old
change_entry id changes drafts none = refused draft_not_found
change_entry id changes drafts (some e) =
    answered (changed changes e).draft (set_draft id (changed changes e) drafts)

unfoldable pub change : String → LoanDraftFields → LoanDraftCaretaker → DraftResult
unfolding find_draft change_entry
change id changes drafts = change_entry id changes drafts (find_draft id drafts)

unfoldable pub restore_last : String → LoanDraftCaretaker → List LoanDraftFields → DraftResult
unfolding set_draft
restore_last id drafts [] = refused nothing_to_undo
restore_last id drafts (previous ∷ rest) =
    answered previous (set_draft id (record { draft = previous; history = rest }) drafts)

unfoldable pub undo_entry : String → LoanDraftCaretaker → Option DraftEntry → DraftResult
unfolding restore_last
undo_entry id drafts none = refused draft_not_found
undo_entry id drafts (some e) = restore_last id drafts e.history

unfoldable pub undo : String → LoanDraftCaretaker → DraftResult
unfolding find_draft undo_entry
undo id drafts = undo_entry id drafts (find_draft id drafts)

-- The draft and the number of steps that can be undone.
unfoldable pub get : String → LoanDraftCaretaker → Option (LoanDraftFields × ℕ)
unfolding find_draft
get id drafts = elim (find_draft id drafts) [
  | none ↦ none
  | some e ↦ some (e.draft, length e.history)
]
