-- ===== src/Operations.antt =====
-- modules/operations: end-of-day.template-method.ts and the two jobs of jobs.ts. The texts of a report's lines are
-- left out: a detail has the account and what was done, an error has the account and the error.
mod Tests
pub mod EndOfDay
use vaultline.Prelude.{
  ℕ, suc, ◌+◌, ◌*◌, Bool, true, false, Option, none, some, List, [], ◌∷◌, ◌++◌, String,
  if◌then◌else◌, length, ◌==◌, ◌&&◌, leb, not,
}
use vaultline.Prelude.Int.{ℤ, pos, leb_ℤ}
use vaultline.Common.{Result, ok, err, DomainError}
use vaultline.Entities.{
  Account, AccountType, AccountStatus, active, LedgerEntry, LedgerEntryType, Reference, plain,
}
use vaultline.Accounts.Interest.{
  Doubles, monthly_interest, strategy_for, InterestStrategy, no_interest, flat_rate, tiered_rate,
  compound_monthly,
}
use vaultline.Transactions.Ledger.Postings.{Clock, Bank, PostingResult}
use vaultline.Transactions.Ledger.Operations.{PostingOptions, deposit}

-- What a job did with an account: what it reports, or nothing.
pub data Outcome : Type 0 where
  profit_posted : ℤ → Reference → Outcome
  inactive_since : ℕ → Outcome

pub record JobReport : Type 0 where
  pub scanned : ℕ
  pub affected : ℕ
  pub failed : ℕ
  pub details : List (String × Outcome)
  pub errors : List (String × DomainError)

-- A subclass: the accounts it loads, and what it does with one.
pub record EndOfDayJob : Type 0 where
  pub load_accounts : Bank → List Account
  pub process_account : Account → Bank → Result (Option Outcome) × Bank

abbrev pub new_report : ℕ → JobReport
new_report scanned = record {
  scanned = scanned;
  affected = 0;
  failed = 0;
  details = [];
  errors = [];
}

-- The body of the loop: the outcome is counted, an error does not stop the batch.
unfoldable pub count_outcome : Account → Result (Option Outcome) → JobReport → JobReport
count_outcome a (ok none) report = report
count_outcome a (ok (some outcome)) report = record report {
  affected = report.affected + 1;
  details = report.details ++ (a.account_number, outcome) ∷ [];
}
count_outcome a (err e) report = record report {
  failed = report.failed + 1;
  errors = report.errors ++ (a.account_number, e) ∷ [];
}

unfoldable pub process_all : EndOfDayJob → List Account → JobReport → Bank → JobReport × Bank
unfolding count_outcome
process_all job [] report bank = (report, bank)
process_all job (a ∷ accounts) report bank =
    let (outcome, bank') = job.process_account a bank in
    process_all job accounts (count_outcome a outcome report) bank'

-- `run`
unfoldable pub run : EndOfDayJob → Bank → JobReport × Bank
unfolding process_all
run job bank =
    let accounts = job.load_accounts bank in
    process_all job accounts (new_report (length accounts)) bank

abbrev pub is_active : AccountStatus → Bool
is_active active = true
is_active _ = false

-- `type: In([SAVINGS, FIXED_DEPOSIT])`
abbrev pub earns_profit : AccountType → Bool
earns_profit AccountType.current = false
earns_profit _ = true

unfoldable pub filter_accounts : (Account → Bool) → List Account → List Account
filter_accounts test [] = []
filter_accounts test (a ∷ accounts) =
    let rest = filter_accounts test accounts in if test a then a ∷ rest else rest

-- `Monthly profit (${strategy})`
abbrev pub profit_text : InterestStrategy → String
profit_text no_interest = "Monthly profit (none)"
profit_text flat_rate = "Monthly profit (flat)"
profit_text tiered_rate = "Monthly profit (tiered)"
profit_text compound_monthly = "Monthly profit (compound-monthly)"

abbrev pub profit_options : AccountType → PostingOptions
profit_options type = record {
  description = some (plain (profit_text (strategy_for type)));
  type = some LedgerEntryType.interest;
}

unfoldable pub posted : ℤ → Result PostingResult × Bank → Result (Option Outcome) × Bank
posted amount (ok r, bank) = (ok (some (profit_posted amount r.reference)), bank)
posted amount (err e, bank) = (err e, bank)

-- `InterestPostingJob.processAccount`, with the profit of the account.
unfoldable pub post_profit : Clock → ℤ → Account → Bank → Result (Option Outcome) × Bank
unfolding posted
post_profit clock profit a bank =
    if leb_ℤ profit (pos 0)
    then (ok none, bank)
    else posted profit (deposit clock a.id profit (profit_options a.type) bank)

-- `InterestPostingJob`
unfoldable pub interest_posting_job : Doubles → Clock → EndOfDayJob
unfolding filter_accounts post_profit monthly_interest
interest_posting_job doubles clock = record {
  load_accounts = λ bank.
      filter_accounts (λ a. is_active a.status && earns_profit a.type) bank.database.accounts;
  process_account = λ a bank.
      post_profit clock (monthly_interest doubles a.type a.balance_minor a.annual_interest_rate) a
        bank;
}

abbrev pub later_of : ℕ → Option ℕ → Option ℕ
later_of t none = some t
later_of t (some u) = some (if leb t u then u else t)

-- `findOne({ where: { accountId }, order: { createdAt: 'DESC' } })`: the time of the newest entry.
unfoldable pub last_activity : ℕ → List LedgerEntry → Option ℕ
last_activity id [] = none
last_activity id (e ∷ entries) =
    let rest = last_activity id entries in
    if e.account_id == id then later_of e.created_at rest else rest

-- `lastActivity?.createdAt ?? account.createdAt`
abbrev pub last_seen : Account → Option ℕ → ℕ
last_seen a none = a.created_at
last_seen a (some t) = t

abbrev pub day_ms : ℕ
day_ms = 86_400_000

-- `lastSeen >= cutoff`, with `cutoff = now - inactiveDays` days.
unfoldable pub review_dormancy : ℕ → ℕ → Account → Bank → Result (Option Outcome) × Bank
unfolding last_activity
review_dormancy now inactive_days a bank =
    let seen = last_seen a (last_activity a.id bank.database.entries) in
    if leb now (seen + inactive_days * day_ms)
    then (ok none, bank)
    else (ok (some (inactive_since seen)), bank)

-- `DormancyReviewJob`
unfoldable pub dormancy_review_job : ℕ → ℕ → EndOfDayJob
unfolding filter_accounts review_dormancy
dormancy_review_job now inactive_days = record {
  load_accounts = λ bank. filter_accounts (λ a. is_active a.status) bank.database.accounts;
  process_account = review_dormancy now inactive_days;
}
