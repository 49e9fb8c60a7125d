-- ===== src/Transactions/Ledger/Tests.antt =====
-- The ledger's theorems on two accounts.
use vaultline.Prelude.{◌≡◌, refl, arith, true, none, some}
use vaultline.Prelude.Int.{pos, neg, ◌-ℤ◌, ◌≤ℤ◌, ◌+ℤ◌}
use vaultline.Common.{is_ok, err, business_rule, already_reversed}
use vaultline.Entities.{plain, Prefix}
use vaultline.Samples.{alice, bank, bank-IsSound, clock, described, first_deposit, transfer_input}
use vaultline.Transactions.Validation.{Operation, validate}
use vaultline.Transactions.Validation.Accepts.{IsAllowed}
use vaultline.Transactions.Ledger.Tables.{
  find_account, withdrawn_today, entries_of, reversal_exists, lock_account,
}
use vaultline.Transactions.Ledger.Postings.{next_reference}
use vaultline.Transactions.Ledger.Soundness.{IsSound}
use vaultline.Transactions.Ledger.Operations.{
  deposit, deposit_body, withdraw, withdraw_body, transfer,
}
use vaultline.Transactions.Ledger.Reversal.{
  reverse, reverse_body, account_ids, lock_accounts, reverse_entries,
}
use vaultline.Transactions.Ledger.Movements.{
  Moves, deposit-Moves, withdraw-Moves, movement-IsSound, deposit_context, withdrawal_context,
  deposited, withdrawn,
}
use vaultline.Transactions.Ledger.Transfers.{Transfers, transfer-Transfers, transfer-IsSound}
use vaultline.Transactions.Ledger.Reversals.{Reverses, reverse-Reverses, reverse-IsSound}
use vaultline.Transactions.Ledger.Undo.{
  IsUndone, IsFresh, deposit_undo, withdraw_undo, forged, forged_mark,
}
use vaultline.Transactions.Ledger.Limits.{with_text, withdraw_within_limit}

transfer-Transfers_example :
    Transfers clock transfer_input bank (transfer clock transfer_input bank)
transfer-Transfers_example = transfer-Transfers clock transfer_input bank (ground arith)

transfer-IsSound_example : IsSound (transfer clock transfer_input bank).1.database
transfer-IsSound_example = transfer-IsSound clock transfer_input bank (ground arith) bank-IsSound

reverse-Reverses_example : Reverses clock first_deposit bank (reverse clock first_deposit bank)
reverse-Reverses_example = reverse-Reverses clock first_deposit bank

reverse-IsSound_example : IsSound (reverse clock first_deposit bank).1.database
reverse-IsSound_example = reverse-IsSound clock first_deposit bank bank-IsSound

deposit-Moves_example :
    Moves 1
      (pos 700)
      (λ a. IsAllowed (deposit_context clock 1 (pos 700) (described none) bank a) Operation.deposit)
      (deposited clock 1 (pos 700) (described none) bank)
      bank
      (deposit clock 1 (pos 700) (described none) bank)
deposit-Moves_example = deposit-Moves clock 1 (pos 700) (described none) bank

withdraw-Moves_example :
    Moves 1
      (neg (pos 700))
      (λ a.
        IsAllowed
          (withdrawal_context clock 1 (pos 700) (described none) bank a)
          Operation.withdrawal)
      (withdrawn clock 1 (pos 700) (described none) bank)
      bank
      (withdraw clock 1 (pos 700) (described none) bank)
withdraw-Moves_example = withdraw-Moves clock 1 (pos 700) (described none) bank

movement-IsSound_example :
    IsSound (deposit clock 1 (pos 700) (described none) bank).1.database
    × IsSound (withdraw clock 1 (pos 700) (described none) bank).1.database
movement-IsSound_example = movement-IsSound clock 1 (pos 700) (described none) bank bank-IsSound

-- What the operations come to, by running them.
reverse_succeeds : is_ok (reverse clock first_deposit bank).0 ≡ true
unfolding reverse reverse_body next_reference account_ids lock_accounts lock_account reverse_entries
    find_account entries_of reversal_exists ◌-ℤ◌
reverse_succeeds = refl

deposit_succeeds : is_ok (deposit clock 1 (pos 700) (described none) bank).0 ≡ true
unfolding deposit deposit_body lock_account find_account validate
deposit_succeeds = refl

withdraw_succeeds : is_ok (withdraw clock 1 (pos 700) (with_text none) bank).0 ≡ true
unfolding withdraw withdraw_body lock_account find_account validate withdrawn_today ◌+ℤ◌
withdraw_succeeds = refl

forged_succeeds : is_ok (deposit clock 2 (pos 700) (forged first_deposit none) bank).0 ≡ true
unfolding deposit deposit_body lock_account find_account validate
forged_succeeds = refl

deposit-IsFresh : IsFresh (next_reference clock Prefix.dep bank).0 (plain "") bank
unfolding next_reference entries_of reversal_exists
deposit-IsFresh = (refl, refl, refl)

withdraw-IsFresh : IsFresh (next_reference clock Prefix.wdl bank).0 (plain "") bank
unfolding next_reference entries_of reversal_exists
withdraw-IsFresh = (refl, refl, refl)

deposit_undo_example : IsUndone bank (
    reverse clock
      (next_reference clock Prefix.dep bank).0
      (deposit clock 1 (pos 700) (described none) bank).1)
deposit_undo_example =
    deposit_undo clock clock 1 (pos 700) (described none) bank bank-IsSound deposit_succeeds
      deposit-IsFresh

withdraw_undo_example : IsUndone bank (
    reverse clock
      (next_reference clock Prefix.wdl bank).0
      (withdraw clock 1 (pos 700) (described none) bank).1)
withdraw_undo_example =
    withdraw_undo clock clock 1 (pos 700) (described none) bank bank-IsSound withdraw_succeeds
      withdraw-IsFresh

forged_mark_example :
    (reverse clock first_deposit (deposit clock 2 (pos 700) (forged first_deposit none) bank).1).0
    ≡ err (business_rule already_reversed)
forged_mark_example = forged_mark clock clock 2 (pos 700) none first_deposit bank forged_succeeds

alice_is_there : find_account 1 bank.database.accounts ≡ some alice
unfolding find_account
alice_is_there = refl

withdraw_within_limit_example :
    (withdrawn_today 1 1_000 (withdraw clock 1 (pos 700) (with_text none) bank).1.database.entries
      ≡ withdrawn_today 1 1_000 bank.database.entries +ℤ pos 700)
    × (withdrawn_today 1 1_000 (withdraw clock 1 (pos 700) (with_text none) bank).1.database.entries
        ≤ℤ pos 5_000_000)
withdraw_within_limit_example =
    withdraw_within_limit clock 1 (pos 700) none bank alice (omega arith) alice_is_there
      withdraw_succeeds
