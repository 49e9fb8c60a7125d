-- ===== src/Accounts/Portfolio/Shown.antt =====
-- `toJSON` of modules/accounts/domain/portfolio.composite.ts, and the answer of `portfolio` of
-- modules/accounts/accounts.service.ts. Formatted totals are left out.
use vaultline.Prelude.{
  ℕ, Bool, true, false, List, [], ◌∷◌, ◌++◌, String, str_eq, ◌&&◌, if◌then◌else◌,
}
use vaultline.Common.{Result, ok, err, not_found, unknown_account}
use vaultline.Common.Texts.{Text, text}
use vaultline.Entities.{
  Account, AccountType, AccountStatus, savings, current, fixed_deposit, closed,
}
use vaultline.Accounts.Portfolio.{
  PortfolioComponent, Children, account_leaf, portfolio_group, empty, with_child, CurrencyTotals,
  totals, account_count, portfolio,
}

mutual
  pub data Shown : Type 0 where
    shown_account : (name : Text) → AccountStatus → CurrencyTotals → Shown
    shown_group : (name : Text) (accounts : ℕ) → CurrencyTotals → ShownChildren → Shown

  pub data ShownChildren : Type 0 where
    none_shown : ShownChildren
    and_shown : Shown → ShownChildren → ShownChildren

abbrev account_type_text : AccountType → Text
account_type_text savings = text "SAVINGS"
account_type_text current = text "CURRENT"
account_type_text fixed_deposit = text "FIXED_DEPOSIT"

-- `name` of a leaf.
abbrev leaf_name : Account → Text
leaf_name a = account_type_text a.type ++ 32 ∷ text a.account_number

unfoldable mutual
  unfolding totals account_count

  -- `toJSON` of both classes.
  pub to_json : PortfolioComponent → Shown
  to_json (account_leaf a) = shown_account (leaf_name a) a.status (totals (account_leaf a))
  to_json (portfolio_group name children) =
      shown_group (text name) (account_count (portfolio_group name children))
        (totals (portfolio_group name children)) (children_to_json children)

  pub children_to_json : Children → ShownChildren
  children_to_json empty = none_shown
  children_to_json (with_child child children) =
      and_shown (to_json child) (children_to_json children)

abbrev is_shown : AccountStatus → Bool
is_shown closed = false
is_shown _ = true

-- `{ where: { ownerName, status: In([…]) } }`
unfoldable pub owned_accounts : String → List Account → List Account
owned_accounts owner [] = []
owned_accounts owner (a ∷ accounts) =
    let rest = owned_accounts owner accounts in
    if str_eq a.owner_name owner && is_shown a.status then a ∷ rest else rest

unfoldable pub shown_if_any : String → List Account → Result Shown
unfolding to_json portfolio
shown_if_any title [] = err (not_found unknown_account)
shown_if_any title (a ∷ accounts) = ok (to_json (portfolio title (a ∷ accounts)))

-- `portfolio`, where `title` is the root's name for an owner.
unfoldable pub owner_portfolio : (title : String → String) → String → List Account → Result Shown
unfolding shown_if_any owned_accounts
owner_portfolio title owner table = shown_if_any (title owner) (owned_accounts owner table)
