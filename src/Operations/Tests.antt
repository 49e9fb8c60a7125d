-- ===== src/Operations/Tests.antt =====
-- The posting of profits on the sample bank, with whole numbers for doubles.
use vaultline.Prelude.{◌≡◌}
use vaultline.Prelude.Int.{ℤ, pos, ◌+ℤ◌, ◌-ℤ◌}
use vaultline.Samples.{bank, clock, bank-IsSound}
use vaultline.Accounts.Interest.{Doubles}
use vaultline.Transactions.Ledger.Tables.{total_balance}
use vaultline.Transactions.Ledger.Soundness.{IsSound}
use vaultline.Operations.{run, interest_posting_job}
use vaultline.Operations.EndOfDay.{reported, interest_run}

-- One percent is a whole number here, and a division leaves what it divides.
abbrev whole_numbers : Doubles
whole_numbers = record {
  Double = ℤ;
  of_integer = λ n. n;
  percent = pos;
  add = ◌+ℤ◌;
  subtract = ◌-ℤ◌;
  multiply = λ a b. b;
  divide = λ a b. a;
  power = λ a b. a;
  minimum = λ a b. a;
  maximum = λ a b. b;
  floor = λ n. n +ℤ pos 250;
}

interest_run_example :
    let (report, bank') = run (interest_posting_job whole_numbers clock) bank in
    (total_balance bank'.database.accounts
      ≡ total_balance bank.database.accounts +ℤ reported report.details)
    × IsSound bank'.database
interest_run_example = interest_run whole_numbers clock bank bank-IsSound
