-- ===== src/Transactions/Commands/Undone.antt =====
-- A command is undone once at most, and a command that failed is not undone at all.
use vaultline.Prelude.{ℕ, ◌≡◌, arith, true, [], ◌∷◌, inl, inr, Option-cases, none, some}
use vaultline.Common.{err, Result-cases, is_ok, business_rule, command_not_undoable}
use vaultline.Transactions.Ledger.Postings.{Clock}
use vaultline.Transactions.Ledger.Reversal.{reverse}
use vaultline.Transactions.Commands.{
  CommandRecord, CommandHistory, Invoker, undone, find_command, update_command, undo, undoable,
}

id-find_command :
    (id : ℕ) {r : CommandRecord} (h : CommandHistory)
    → find_command id h ≡ some r
    → r.command_id ≡ id
unfolding find_command
id-find_command id [] e = cc
id-find_command id {r} (s ∷ h) e = ground (arith, id-find_command id {r = r} h)

-- An update keeps which ids are there, and writes the record under its id.
find_command-update :
    (id : ℕ) (r s : CommandRecord) (h : CommandHistory)
    → find_command id h ≡ some s
    → r.command_id ≡ id
    → find_command id (update_command r h) ≡ some r
unfolding find_command update_command
find_command-update id r s [] e same = cc
find_command-update id r s (t ∷ h) e same = ground (arith, find_command-update id r s h)

-- Where the record under an id cannot be undone, `undo` refuses and changes nothing.
refused :
    (clock : Clock) (id : ℕ) (r : CommandRecord) (invoker : Invoker)
    → find_command id invoker.0 ≡ some r
    → undoable r ≡ none
    → undo clock id invoker ≡ (err (business_rule command_not_undoable), invoker)
unfolding undo
refused clock id r (h, bank) found no_reference = rw (found, no_reference)

-- After an `undo` that went through, a second one of the same command is refused as not undoable.
pub undo_twice :
    (clock clock' : Clock) (id : ℕ) (invoker : Invoker)
    → is_ok (undo clock id invoker).0 ≡ true
    → (undo clock' id (undo clock id invoker).1).0 ≡ err (business_rule command_not_undoable)
unfolding undo
undo_twice clock clock' id (h, bank) done = elim (Option-cases (find_command id h)) [
  | inl missing ↦ absurd (ground arith)
  | inr (r, found) ↦ elim (Option-cases (undoable r)) [
    | inl no_reference ↦ absurd (ground arith)
    | inr (q, undoable_by) ↦ elim (Result-cases (reverse clock q bank).0) [
      | inl (e, failed) ↦ absurd (ground arith)
      | inr (x, reversed) ↦
          let marked = record r { status = undone } in
          rw (
            found,
            undoable_by,
            reversed,
            find_command-update id marked r h found (id-find_command id h found),
          )
    ]
  ]
]
