-- ===== src/Operations/EndOfDay.antt =====
-- What a batch reports, and what the posting of profits does to the bank.
use vaultline.Prelude.{
  ℕ, ◌+◌, ◌≤◌, ◌≡◌, refl, sym, ◌∙◌, arith, Option, none, some, List, [], ◌∷◌, ◌++◌, String, length,
  length-append, Bool-cases, inl, inr,
}
use vaultline.Prelude.Int.{ℤ, pos, ◌+ℤ◌, int_laws, leb_ℤ, +ℤ-zero, +ℤ_cancel_right}
use vaultline.Common.{Result, ok, err}
use vaultline.Entities.{Account}
use vaultline.Accounts.Interest.{Doubles, monthly_interest}
use vaultline.Messaging.Events.{DomainEvent}
use vaultline.Transactions.Ledger.Tables.{total_balance}
use vaultline.Transactions.Ledger.Postings.{Clock, Bank, PostingResult}
use vaultline.Transactions.Ledger.Soundness.{IsSound}
use vaultline.Transactions.Ledger.Operations.{deposit}
use vaultline.Transactions.Ledger.Movements.{Moves, deposit-Moves, movement-IsSound}
use vaultline.Operations.{
  Outcome, profit_posted, inactive_since, JobReport, EndOfDayJob, new_report, count_outcome,
  process_all, run, post_profit, posted, profit_options, interest_posting_job,
}

-- The counters agree with the lists.
pub record IsConsistent (report : JobReport) : Type 0 where
  pub details_counted : report.affected ≡ length report.details
  pub errors_counted : report.failed ≡ length report.errors

count_outcome-IsConsistent :
    (a : Account) (outcome : Result (Option Outcome)) (report : JobReport)
    → IsConsistent report
    → IsConsistent (count_outcome a outcome report)
      × ((count_outcome a outcome report).affected + (count_outcome a outcome report).failed
          ≤ report.affected + report.failed + 1)
      × ((count_outcome a outcome report).scanned ≡ report.scanned)
unfolding count_outcome
count_outcome-IsConsistent a (ok none) report h = (h, omega arith, refl)
count_outcome-IsConsistent a (ok (some x)) report h = (
  record {
    details_counted = omega (arith, length-append {0} report.details ((a.account_number, x) ∷ []));
    errors_counted = h.errors_counted;
  },
  omega arith,
  refl,
)
count_outcome-IsConsistent a (err e) report h = (
  record {
    details_counted = h.details_counted;
    errors_counted = omega (arith, length-append {0} report.errors ((a.account_number, e) ∷ []));
  },
  omega arith,
  refl,
)

-- Every account of a batch is processed, in order, whatever happened to those before.
unfoldable pub each : EndOfDayJob → List Account → Bank → Bank
each job [] bank = bank
each job (a ∷ accounts) bank = each job accounts (job.process_account a bank).1

process_all-each :
    (job : EndOfDayJob) (accounts : List Account) (report : JobReport) (bank : Bank)
    → IsConsistent report
    → let (report', bank') = process_all job accounts report bank in
      (bank' ≡ each job accounts bank)
      × IsConsistent report'
      × (report'.affected + report'.failed ≤ report.affected + report.failed + length accounts)
      × (report'.scanned ≡ report.scanned)
unfolding process_all each
process_all-each job [] report bank h = (refl, h, omega arith, refl)
process_all-each job (a ∷ accounts) report bank h =
    let (outcome, bank₁) : Result (Option Outcome) × Bank = job.process_account a bank in
    let (h₁, one, same) = count_outcome-IsConsistent a outcome report h in
    let (bank', h', more, same') =
      process_all-each job accounts (count_outcome a outcome report) bank₁ h₁ in
    (bank', h', omega arith, same' ∙ same)

-- A run of any job processes every account it loads, whether those before succeeded or threw. The report
-- scans as many as were loaded, has a detail for each account that was affected and an error for each
-- that failed, and no more of both than accounts.
pub run-each :
    (job : EndOfDayJob) (bank : Bank)
    → let (report, bank') = run job bank in
      (bank' ≡ each job (job.load_accounts bank) bank)
      × (report.scanned ≡ length (job.load_accounts bank))
      × IsConsistent report
      × (report.affected + report.failed ≤ report.scanned)
unfolding run
run-each job bank =
    let accounts = job.load_accounts bank in
    let (bank', consistent, few, same) =
      process_all-each job accounts (new_report (length accounts)) bank
        (record { details_counted = refl; errors_counted = refl }) in
    (bank', same, consistent, rw same (omega arith))

-- The profits that a report lists.
abbrev pub reported : List (String × Outcome) → ℤ
reported [] = pos 0
reported ((number, profit_posted amount reference) ∷ details) = amount +ℤ reported details
reported ((number, inactive_since t) ∷ details) = reported details

reported-append :
    (details more : List (String × Outcome))
    → reported (details ++ more) ≡ reported details +ℤ reported more
reported-append [] more = omega int_laws
reported-append ((number, profit_posted amount reference) ∷ details) more =
    rw (reported-append details more) (omega int_laws)
reported-append ((number, inactive_since t) ∷ details) more = reported-append details more

-- What one account adds to the bank and to the report.
abbrev Adds : Account → Bank → Result (Option Outcome) × Bank → Type 0
Adds a bank (outcome, bank') =
    (report : JobReport)
    → total_balance bank'.database.accounts +ℤ reported report.details
      ≡ total_balance bank.database.accounts +ℤ reported (count_outcome a outcome report).details

posted-Adds :
    (a : Account) (profit : ℤ) (id : ℕ) (allowed : Account → Type 0)
    (announced : PostingResult → DomainEvent) (bank : Bank) (outcome : Result PostingResult × Bank)
    → Moves id profit allowed announced bank outcome
    → Adds a bank (posted profit outcome)
unfolding posted count_outcome
posted-Adds a profit id allowed announced bank (ok r, bank') (_, total, _) report =
    rw
      (
        total,
        reported-append report.details ((a.account_number, profit_posted profit r.reference) ∷ []),
      )
      (omega int_laws)
posted-Adds a profit id allowed announced bank (err e, bank') (same, _) report = rw same refl

-- From before to between, and from between to after.
balance_through :
    (before between after told₀ told₁ told₂ : ℤ)
    → between +ℤ told₀ ≡ before +ℤ told₁
    → after +ℤ told₁ ≡ between +ℤ told₂
    → after +ℤ told₀ ≡ before +ℤ told₂
balance_through before between after told₀ told₁ told₂ first second =
    let apart : after +ℤ told₀ +ℤ (between +ℤ told₁) ≡ after +ℤ told₁ +ℤ (between +ℤ told₀) =
      omega int_laws in
    let around : between +ℤ told₂ +ℤ (before +ℤ told₁) ≡ before +ℤ told₂ +ℤ (between +ℤ told₁) =
      omega int_laws in
    +ℤ_cancel_right _ _ (between +ℤ told₁) (apart ∙ rw (first, second) around)

posted-IsSound :
    (profit : ℤ) (outcome : Result PostingResult × Bank)
    → IsSound outcome.1.database
    → IsSound (posted profit outcome).1.database
unfolding posted
posted-IsSound profit (ok r, bank) sound = sound
posted-IsSound profit (err e, bank) sound = sound

module _ (doubles : Doubles) (clock : Clock) where
  abbrev interest_job : EndOfDayJob
  interest_job = interest_posting_job doubles clock

  -- One account of the posting of profits.
  profit_of_account :
      (a : Account) (bank : Bank)
      → Adds a bank (interest_job.process_account a bank)
        × (IsSound bank.database → IsSound (interest_job.process_account a bank).1.database)
  unfolding interest_posting_job post_profit count_outcome
  profit_of_account a bank =
      let profit = monthly_interest doubles a.type a.balance_minor a.annual_interest_rate in
      let options = profit_options a.type in
      let outcome = deposit clock a.id profit options bank in
      elim (Bool-cases (leb_ℤ profit (pos 0))) [
        | inl small ↦ rw small (λ report. refl, λ sound. sound)
        | inr large ↦ rw large (
          posted-Adds a profit a.id _ _ bank outcome (deposit-Moves clock a.id profit options bank),
          λ sound.
              posted-IsSound profit outcome
                ((movement-IsSound clock a.id profit options bank sound).0),
        )
      ]

  -- Any list of accounts.
  profits :
      (accounts : List Account) (report : JobReport) (bank : Bank)
      → let (report', bank') = process_all interest_job accounts report bank in
        (total_balance bank'.database.accounts +ℤ reported report.details
          ≡ total_balance bank.database.accounts +ℤ reported report'.details)
        × (IsSound bank.database → IsSound bank'.database)
  unfolding process_all
  profits [] report bank = (refl, λ sound. sound)
  profits (a ∷ accounts) report bank =
      let (outcome, bank₁) : Result (Option Outcome) × Bank = interest_job.process_account a bank in
      let (added, kept) = profit_of_account a bank in
      let (rest, keeps) = profits accounts (count_outcome a outcome report) bank₁ in
      (balance_through _ _ _ _ _ _ (added report) rest, λ sound. keeps (kept sound))

  -- Where no balance is negative and every balance is the running sum of its account's entries, this is so after
  -- the posting of monthly profits, and the bank has the sum of the profits that the report lists more,
  -- and nothing else.
  pub interest_run :
      (bank : Bank)
      → IsSound bank.database
      → let (report, bank') = run interest_job bank in
        (total_balance bank'.database.accounts
          ≡ total_balance bank.database.accounts +ℤ reported report.details)
        × IsSound bank'.database
  unfolding run
  interest_run bank sound =
      let accounts = interest_job.load_accounts bank in
      let (money, kept) = profits accounts (new_report (length accounts)) bank in
      (sym (+ℤ-zero _) ∙ money, kept sound)
