-- ===== src/Loans/Drafts/Restored.antt =====
-- Undoing a change of a draft.
use vaultline.Prelude.{◌≡◌, refl, ap, arith, some, [], ◌∷◌, String, str_eq, inl, inr, Bool-cases}
use vaultline.Loans.Drafts.{
  LoanDraftFields, LoanDraftCaretaker, DraftEntry, find_draft, set_draft, change, change_entry,
  undo, undo_entry, restore_last, changed, answered, update,
}

find-set :
    (id : String) (e old : DraftEntry) (drafts : LoanDraftCaretaker)
    → find_draft id drafts ≡ some old
    → find_draft id (set_draft id e drafts) ≡ some e
unfolding find_draft set_draft
find-set id e old [] h = absurd (ground arith)
find-set id e old ((key, e') ∷ drafts) h = elim (Bool-cases (str_eq key id)) [
  | inl here ↦ ground arith
  | inr there ↦ rw there (rw there (find-set id e old drafts (rw there at h)))
]

set-set :
    (id : String) (e e' old : DraftEntry) (drafts : LoanDraftCaretaker)
    → find_draft id drafts ≡ some old
    → set_draft id e (set_draft id e' drafts) ≡ set_draft id e drafts
unfolding find_draft set_draft
set-set id e e' old [] h = absurd (ground arith)
set-set id e e' old ((key, e'') ∷ drafts) h = elim (Bool-cases (str_eq key id)) [
  | inl here ↦ rw here (rw here refl)
  | inr there ↦
      rw there (rw there (ap (λ d. (key, e'') ∷ d) (set-set id e e' old drafts (rw there at h))))
]

set-found :
    (id : String) (old : DraftEntry) (drafts : LoanDraftCaretaker)
    → find_draft id drafts ≡ some old
    → set_draft id old drafts ≡ drafts
unfolding find_draft set_draft
set-found id old [] h = absurd (ground arith)
set-found id old ((key, e) ∷ drafts) h = elim (Bool-cases (str_eq key id)) [
  | inl here ↦ rw here (ground arith)
  | inr there ↦ rw there (ap (λ d. (key, e) ∷ d) (set-found id old drafts (rw there at h)))
]

-- A change of a draft that exists answers with the changes merged into it; an undo right after
-- answers with the draft as it was, and leaves the caretaker as it was, the older snapshots
-- included.
pub undo-change :
    (id : String) (changes : LoanDraftFields) (e : DraftEntry) (drafts : LoanDraftCaretaker)
    → find_draft id drafts ≡ some e
    → (change id changes drafts
        ≡ answered (update changes e.draft) (set_draft id (changed changes e) drafts))
      × (undo id (set_draft id (changed changes e) drafts) ≡ answered e.draft drafts)
unfolding change change_entry undo undo_entry restore_last
undo-change id changes e drafts h =
    rw
      (
        h,
        change_entry,
        update,
        find-set id (changed changes e) e drafts h,
        set-set id e (changed changes e) e drafts h,
        set-found id e drafts h,
      )
      (refl, refl)
