-- ===== src/Accounts/Reads.antt =====
-- `list` and `interestPreview` of modules/accounts/accounts.service.ts. Formatted amounts are left out.
use vaultline.Prelude.{
  ℕ, Bool, true, Option, none, some, List, [], ◌∷◌, String, str_eq, ltb, if◌then◌else◌, take,
}
use vaultline.Prelude.Int.{ℤ}
use vaultline.Common.{Result, ok, ◌>>=◌}
use vaultline.Entities.{Account, AccountType}
use vaultline.Accounts.Interest.{Doubles, InterestStrategy, strategy_for, monthly_interest}
use vaultline.Accounts.Service.{find_by_id}
use vaultline.Transactions.Ledger.Postings.{Bank}

-- `ownerName ? { ownerName } : {}`: an empty name is none.
abbrev has_owner : Option String → Account → Bool
has_owner none a = true
has_owner (some name) a = if str_eq name "" then true else str_eq a.owner_name name

unfoldable pub accounts_of : Option String → List Account → List Account
accounts_of owner [] = []
accounts_of owner (a ∷ accounts) =
    let rest = accounts_of owner accounts in if has_owner owner a then a ∷ rest else rest

-- `order: { createdAt: 'DESC' }`
unfoldable pub insert_newest : Account → List Account → List Account
insert_newest a [] = a ∷ []
insert_newest a (b ∷ accounts) =
    if ltb a.created_at b.created_at then b ∷ insert_newest a accounts else a ∷ b ∷ accounts

unfoldable pub newest_accounts : List Account → List Account
unfolding insert_newest
newest_accounts [] = []
newest_accounts (a ∷ accounts) = insert_newest a (newest_accounts accounts)

-- `list`
unfoldable pub list_accounts : Option String → List Account → List Account
unfolding newest_accounts accounts_of
list_accounts owner table = take 100 (newest_accounts (accounts_of owner table))

pub record InterestPreview : Type 0 where
  pub account_id : ℕ
  pub type : AccountType
  pub strategy : InterestStrategy
  pub annual_rate : ℕ
  pub monthly_interest_minor : ℤ

-- `interestPreview`
unfoldable pub interest_preview : Doubles → ℕ → Bank → Result InterestPreview
unfolding find_by_id monthly_interest
interest_preview doubles id bank = do
  account ← find_by_id id bank
  ok (record {
    account_id = id;
    type = account.type;
    strategy = strategy_for account.type;
    annual_rate = account.annual_interest_rate;
    monthly_interest_minor =
        monthly_interest doubles account.type account.balance_minor account.annual_interest_rate;
  })
