-- ===== src/Accounts/Portfolio.antt =====
-- modules/accounts/domain/portfolio.composite.ts, and the tree that `portfolio` of
-- modules/accounts/accounts.service.ts builds. An object from currencies to totals is a list of pairs, read
-- at the first key that matches.
pub mod Totals
pub mod Whole
pub mod Shown
use vaultline.Prelude.{
  ℕ, ◌+◌, Bool, true, false, List, [], ◌∷◌, ◌++◌, String, str_eq, if◌then◌else◌,
}
use vaultline.Prelude.Int.{ℤ, pos, ◌+ℤ◌}
use vaultline.Entities.{Account, AccountType}

mutual
  -- The two classes, and the children of a group.
  pub data PortfolioComponent : Type 0 where
    account_leaf : Account → PortfolioComponent
    portfolio_group : (name : String) → Children → PortfolioComponent

  pub data Children : Type 0 where
    empty : Children
    with_child : PortfolioComponent → Children → Children

abbrev pub CurrencyTotals : Type 0
CurrencyTotals = List (String × ℤ)

-- `sum[currency] ?? 0`
unfoldable pub amount_in : String → CurrencyTotals → ℤ
amount_in currency [] = pos 0
amount_in currency ((key, amount) ∷ totals) =
    let rest = amount_in currency totals in if str_eq key currency then amount else rest

-- `sum[currency] = (sum[currency] ?? 0) + amount`
unfoldable pub add_amount : String → ℤ → CurrencyTotals → CurrencyTotals
add_amount currency amount [] = (currency, pos 0 +ℤ amount) ∷ []
add_amount currency amount ((key, old) ∷ totals) =
    let rest = add_amount currency amount totals in
    if str_eq key currency then (key, old +ℤ amount) ∷ totals else (key, old) ∷ rest

-- The loop over the entries of a child's totals.
unfoldable pub add_all : CurrencyTotals → CurrencyTotals → CurrencyTotals
unfolding add_amount
add_all [] sum = sum
add_all ((currency, amount) ∷ entries) sum = add_all entries (add_amount currency amount sum)

unfoldable mutual
  unfolding add_all

  -- `totals` of both classes.
  pub totals : PortfolioComponent → CurrencyTotals
  totals (account_leaf a) = (a.currency, a.balance_minor) ∷ []
  totals (portfolio_group name children) = totals_of children []

  -- The `reduce` over the children.
  pub totals_of : Children → CurrencyTotals → CurrencyTotals
  totals_of empty sum = sum
  totals_of (with_child child children) sum = totals_of children (add_all (totals child) sum)

unfoldable mutual
  -- `accountCount` of both classes.
  pub account_count : PortfolioComponent → ℕ
  account_count (account_leaf a) = 1
  account_count (portfolio_group name children) = count_of children 0

  pub count_of : Children → ℕ → ℕ
  count_of empty count = count
  count_of (with_child child children) count = count_of children (count + account_count child)

-- `children.push(component)`
unfoldable pub add_child : PortfolioComponent → Children → Children
add_child child empty = with_child child empty
add_child child (with_child first children) = with_child first (add_child child children)

-- The three groups that `AccountsService.portfolio` fills.
pub record Groups : Type 0 where
  pub everyday : Children
  pub savings : Children
  pub investments : Children

unfoldable pub place : Account → AccountType → Groups → Groups
unfolding add_child
place a AccountType.current groups = record groups {
  everyday = add_child (account_leaf a) groups.everyday;
}
place a AccountType.savings groups = record groups {
  savings = add_child (account_leaf a) groups.savings;
}
place a AccountType.fixed_deposit groups = record groups {
  investments = add_child (account_leaf a) groups.investments;
}

unfoldable pub place_all : List Account → Groups → Groups
unfolding place
place_all [] groups = groups
place_all (a ∷ accounts) groups = place_all accounts (place a a.type groups)

abbrev pub no_groups : Groups
no_groups = record { everyday = empty; savings = empty; investments = empty }

-- The root: a group inside a group holds savings and investments.
unfoldable pub portfolio : String → List Account → PortfolioComponent
unfolding place_all
portfolio title accounts =
    let groups = place_all accounts no_groups in
    let wealth = portfolio_group "Wealth" (
      with_child (portfolio_group "Savings" groups.savings)
        (with_child (portfolio_group "Investments" groups.investments) empty)) in
    portfolio_group title
      (with_child (portfolio_group "Everyday banking" groups.everyday) (with_child wealth empty))
