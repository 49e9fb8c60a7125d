-- ===== src/Transactions/Commands/Bounded.antt =====
-- The history of commands is bounded.
use vaultline.Prelude.{ℕ, ◌+◌, ◌≤◌, ◌≡◌, refl, arith, [], ◌∷◌, length, inl, inr, Option-cases}
use vaultline.Common.{Result-cases}
use vaultline.Transactions.Ledger.Postings.{Clock}
use vaultline.Transactions.Ledger.Reversal.{reverse}
use vaultline.Transactions.Transfer.{MoneyTransferService}
use vaultline.Transactions.Commands.{
  BankCommand, CommandRecord, CommandHistory, Invoker, max_history, find_command, set_command,
  update_command, remember, run, new_record, settled, execute, undo, undoable,
}

length-update : (r : CommandRecord) (h : CommandHistory) → length (update_command r h) ≡ length h
unfolding update_command
length-update r [] = refl
length-update r (s ∷ h) = ground (arith, length-update r h)

length-set : (r : CommandRecord) (h : CommandHistory) → length (set_command r h) ≤ length h + 1
unfolding set_command
length-set r [] = omega arith
length-set r (s ∷ h) = ground (arith, length-set r h)

length-remember :
    (r : CommandRecord) (h : CommandHistory)
    → length h ≤ max_history
    → length (remember r h) ≤ max_history
unfolding remember
length-remember r h small = ground (arith, length-set r h)

-- Where at most 500 commands are remembered, at most 500 are after one more was run.
pub run_bounded :
    (clock : Clock) (transfers : MoneyTransferService) (id : ℕ) (command : BankCommand)
    (invoker : Invoker)
    → length invoker.0 ≤ max_history
    → length (run clock transfers id command invoker).1.0 ≤ max_history
unfolding run
run_bounded clock transfers id command (history, bank) small =
    let r = new_record id command in
    let result = (execute clock transfers command bank).0 in
    omega (
      arith,
      length-update (settled r result) (remember r history),
      length-remember r history small,
    )

-- An `undo` keeps the number of records.
pub length-undo :
    (clock : Clock) (id : ℕ) (invoker : Invoker)
    → length (undo clock id invoker).1.0 ≡ length invoker.0
unfolding undo
length-undo clock id (history, bank) = elim (Option-cases (find_command id history)) [
  | inl missing ↦ rw missing
  | inr (r, found) ↦ elim (Option-cases (undoable r)) [
    | inl no_reference ↦ rw (found, no_reference)
    | inr (q, undoable_by) ↦ elim (Result-cases (reverse clock q bank).0) [
      | inl (e, failed) ↦ rw (found, undoable_by, failed)
      | inr (x, reversed) ↦ rw (found, undoable_by, reversed) (length-update _ history)
    ]
  ]
]
