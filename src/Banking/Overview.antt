-- ===== src/Banking/Overview.antt =====
-- `customerOverview` of modules/banking/banking.facade.ts.
use vaultline.Prelude.{some, List, map, String}
use vaultline.Common.{Result, ok, ◌>>=◌}
use vaultline.Entities.{Account}
use vaultline.Accounts.Portfolio.Shown.{Shown, owner_portfolio}
use vaultline.Accounts.Reads.{list_accounts}
use vaultline.Transactions.History.{EntryRow, recent}
use vaultline.Transactions.Ledger.Postings.{Bank}

pub record AccountActivity : Type 0 where
  pub account_number : String
  pub newest : List EntryRow

pub record CustomerOverview : Type 0 where
  pub shown : Shown
  pub recent_activity : List AccountActivity

unfoldable pub activity_of : List EntryRow → Account → AccountActivity
unfolding recent
activity_of table a = record { account_number = a.account_number; newest = recent table a.id 5 }

unfoldable pub customer_overview :
    (title : String → String) → String → Bank → List EntryRow → Result CustomerOverview
unfolding owner_portfolio list_accounts activity_of
customer_overview title owner bank table = do
  shown ← owner_portfolio title owner bank.database.accounts
  ok (record {
    shown = shown;
    recent_activity = map (activity_of table) (list_accounts (some owner) bank.database.accounts);
  })
