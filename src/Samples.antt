-- ===== src/Samples.antt =====
-- The data of the examples: two accounts, of which the first holds 500.00, and the clock of a day.
use vaultline.Prelude.{
  ℕ, ◌≡◌, refl, sym, Option, none, [], ◌∷◌, String, arith, ◌==◌, Bool-cases, inl, inr,
}
use vaultline.Prelude.Int.{ℤ, pos, ◌+ℤ◌, +ℤ-zero}
use vaultline.Entities.{
  Account, LedgerEntry, Reference, Prefix, Description, plain, savings, active, LedgerEntryType,
}
use vaultline.Transactions.Ledger.Tables.{find_account, entry_sum, Runs}
use vaultline.Transactions.Ledger.Postings.{Clock, Bank}
use vaultline.Transactions.Ledger.Soundness.{IsSound}
use vaultline.Transactions.Ledger.Operations.{PostingOptions, LedgerTransferInput}

abbrev account_of : ℕ → String → ℤ → Account
account_of id owner balance = record {
  id = id;
  account_number = owner;
  owner_name = owner;
  type = savings;
  currency = "PKR";
  product_code = none;
  balance_minor = balance;
  daily_withdrawal_limit_minor = pos 5_000_000;
  annual_interest_rate = 0;
  status = active;
  created_at = 0;
}

abbrev pub alice : Account
alice = account_of 1 "Alice" (pos 50_000)

abbrev pub bob : Account
bob = account_of 2 "Bob" (pos 0)

abbrev pub first_deposit : Reference
first_deposit = record { prefix = Prefix.dep; date = 20260101; sequence = 1; random = 7 }

abbrev pub opening : LedgerEntry
opening = record {
  account_id = 1;
  type = LedgerEntryType.deposit;
  amount_minor = pos 50_000;
  balance_after_minor = pos 50_000;
  reference = first_deposit;
  description = plain "";
  created_at = 0;
}

abbrev pub bank : Bank
bank = record {
  database = record { accounts = alice ∷ bob ∷ []; entries = opening ∷ [] };
  sequence = 1;
  published = [];
}

abbrev pub clock : Clock
clock = record { now = 1_010; start_of_day = 1_000; date = 20260102; random = 11 }

abbrev pub described : Option Description → PostingOptions
described text = record { description = text; type = none }

abbrev pub transfer_input : LedgerTransferInput
transfer_input = record {
  from_account_id = 1;
  to_account_id = 2;
  amount_minor = pos 20_000;
  fee_minor = pos 100;
  description = none;
}

pub bank-IsSound : IsSound bank.database
unfolding find_account entry_sum Runs ◌+ℤ◌
bank-IsSound = record {
  funded = λ id a h. ground arith;
  balanced = λ id a h. elim (Bool-cases (1 == id)) [
    | inl one ↦ rw one (ground (arith, +ℤ-zero (pos 50_000)))
    | inr other ↦ rw other (ground arith)
  ];
  running = λ id a h. elim (Bool-cases (1 == id)) [
    | inl one ↦
        let balance : a.balance_minor ≡ pos 50_000 = ground arith in
        rw one (λ own. refl, sym balance)
    | inr other ↦
        let balance : a.balance_minor ≡ pos 0 = ground arith in rw other (λ own. cc, sym balance)
  ];
}
