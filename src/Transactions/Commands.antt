-- ===== src/Transactions/Commands.antt =====
-- modules/transactions/commands/bank.commands.ts: commands that are run, remembered and undone. A
-- command's name and summary are read off the command; the times are left out.
pub mod Bounded
pub mod Undone
use vaultline.Prelude.{
  ◌++◌, ℕ, zero, suc, Bool, true, false, Option, none, some, List, [], ◌∷◌, ◌==◌, ltb,
  if◌then◌else◌, length,
}
use vaultline.Prelude.Int.{ℤ}
use vaultline.Common.{
  Result, ok, err, DomainError, not_found, business_rule, unknown_command, command_not_undoable,
}
use vaultline.Entities.{Reference, Description}
use vaultline.Transactions.Ledger.Postings.{Clock, Bank, PostingResult}
use vaultline.Transactions.Ledger.Operations.{PostingOptions, deposit, withdraw}
use vaultline.Transactions.Ledger.Reversal.{ReversalResult, reverse}
use vaultline.Transactions.Transfer.{MoneyTransferService, TransferRequest, TransferResult}

pub data BankCommand : Type 0 where
  deposit_command withdraw_command :
      (account_id : ℕ) (amount_minor : ℤ) → Option Description → BankCommand
  transfer_command : TransferRequest → BankCommand

abbrev described : Option Description → PostingOptions
described description = record { description = description; type = none }

posting_reference : Result PostingResult → Result Reference
posting_reference (ok r) = ok r.reference
posting_reference (err e) = err e

transfer_reference : Result TransferResult → Result Reference
transfer_reference (ok r) = ok r.reference
transfer_reference (err e) = err e

-- `execute` of each command: the reference of what it did.
unfoldable pub execute : Clock → MoneyTransferService → BankCommand → Bank → Result Reference × Bank
unfolding posting_reference transfer_reference
execute clock transfers (deposit_command id amount description) bank =
    let (result, bank') = deposit clock id amount (described description) bank in
    (posting_reference result, bank')
execute clock transfers (withdraw_command id amount description) bank =
    let (result, bank') = withdraw clock id amount (described description) bank in
    (posting_reference result, bank')
execute clock transfers (transfer_command request) bank =
    let (result, bank') = transfers request bank in (transfer_reference result, bank')

pub data CommandStatus : Type 0 where
  executed failed undone : CommandStatus

pub record CommandRecord : Type 0 where
  pub command_id : ℕ
  pub command : BankCommand
  pub status : CommandStatus
  pub reference : Option Reference
  pub error : Option DomainError

-- The `Map` of the invoker, the oldest record first.
abbrev pub CommandHistory : Type 0
CommandHistory = List CommandRecord

abbrev pub max_history : ℕ
max_history = 500

unfoldable pub find_command : ℕ → CommandHistory → Option CommandRecord
find_command id [] = none
find_command id (r ∷ history) = if r.command_id == id then some r else find_command id history

-- A record under a known id is replaced where it stands, another one is added at the end.
unfoldable pub set_command : CommandRecord → CommandHistory → CommandHistory
set_command r [] = r ∷ []
set_command r (s ∷ history) =
    if s.command_id == r.command_id then r ∷ history else s ∷ set_command r history

-- The record that is kept is the object that `run` and `undo` write to: what was evicted is not
-- brought back.
unfoldable pub update_command : CommandRecord → CommandHistory → CommandHistory
update_command r [] = []
update_command r (s ∷ history) =
    if s.command_id == r.command_id then r ∷ history else s ∷ update_command r history

drop_oldest : CommandHistory → CommandHistory
drop_oldest [] = []
drop_oldest (r ∷ history) = history

-- `remember`
unfoldable pub remember : CommandRecord → CommandHistory → CommandHistory
unfolding drop_oldest
remember r history =
    let kept = set_command r history in
    if ltb max_history (length kept) then drop_oldest kept else kept

abbrev pub new_record : ℕ → BankCommand → CommandRecord
new_record id command = record {
  command_id = id;
  command = command;
  status = executed;
  reference = none;
  error = none;
}

abbrev pub settled : CommandRecord → Result Reference → CommandRecord
settled r (ok reference) = record r { reference = some reference }
settled r (err e) = record r { status = failed; error = some e }

abbrev pub Invoker : Type 0
Invoker = CommandHistory × Bank

-- `run`, under the id that `randomUUID` made.
unfoldable pub run :
    Clock → MoneyTransferService → ℕ → BankCommand → Invoker → Result Reference × Invoker
run clock transfers id command (history, bank) =
    let r = new_record id command in
    let history' = remember r history in
    let (result, bank') = execute clock transfers command bank in
    (result, (update_command (settled r result) history', bank'))

-- The reference that a record can be undone by: it was executed, and has one.
abbrev pub undoable : CommandRecord → Option Reference
undoable r = elim (r.status) [ executed ↦ r.reference | _ ↦ none ]

undo_result :
    CommandRecord → CommandHistory → Result ReversalResult × Bank → Result ReversalResult × Invoker
undo_result r history (ok done, bank) =
    (ok done, (update_command (record r { status = undone }) history, bank))
undo_result r history (err e, bank) = (err e, (history, bank))

undo_record : Clock → CommandRecord → Option Reference → Invoker → Result ReversalResult × Invoker
unfolding undo_result
undo_record clock r none (history, bank) =
    (err (business_rule command_not_undoable), (history, bank))
undo_record clock r (some reference) (history, bank) =
    undo_result r history (reverse clock reference bank)

undo_found : Clock → Option CommandRecord → Invoker → Result ReversalResult × Invoker
unfolding undo_record
undo_found clock none invoker = (err (not_found unknown_command), invoker)
undo_found clock (some r) invoker = undo_record clock r (undoable r) invoker

-- `undo`
unfoldable pub undo : Clock → ℕ → Invoker → Result ReversalResult × Invoker
unfolding undo_found
undo clock id (history, bank) = undo_found clock (find_command id history) (history, bank)

-- `list`: the records, the newest first.
unfoldable pub list_commands : CommandHistory → CommandHistory
list_commands [] = []
list_commands (r ∷ history) = list_commands history ++ r ∷ []
