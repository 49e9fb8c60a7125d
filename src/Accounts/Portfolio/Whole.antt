-- ===== src/Accounts/Portfolio/Whole.antt =====
-- The portfolio of an owner says what the owner's accounts hold.
use vaultline.Prelude.{◌≡◌, refl, ◌∙◌, List, [], ◌∷◌, ◌++◌, String, append-nil}
use vaultline.Prelude.Int.{ℤ, pos, ◌+ℤ◌, int_laws}
use vaultline.Entities.{Account, AccountType}
use vaultline.Accounts.Portfolio.{
  account_leaf, Children, empty, with_child, amount_in, totals, add_child, Groups, place, place_all,
  no_groups, portfolio,
}
use vaultline.Accounts.Portfolio.Totals.{
  balance_in, leaves, leaves_of, balance_in-append, amount_in-totals,
}

module _ (c : String) where
  -- The balances of a group's accounts.
  abbrev held : Children → ℤ
  held children = balance_in c (leaves_of children)

  abbrev held_in : Groups → ℤ
  held_in groups = held groups.everyday +ℤ (held groups.savings +ℤ held groups.investments)

  abbrev own : Account → ℤ
  own a = balance_in c (a ∷ [])

  none_held : balance_in c [] ≡ pos 0
  unfolding balance_in
  none_held = refl

  held-add :
      (a : Account) (children : Children)
      → held (add_child (account_leaf a) children) ≡ held children +ℤ own a
  unfolding add_child leaves leaves_of
  held-add a empty = rw none_held (omega int_laws)
  held-add a (with_child child children) =
      rw
        (
          balance_in-append c (leaves child) (leaves_of (add_child (account_leaf a) children)),
          held-add a children,
          balance_in-append c (leaves child) (leaves_of children),
        )
        (omega int_laws)

  held-place :
      (a : Account) (t : AccountType) (groups : Groups)
      → held_in (place a t groups) ≡ held_in groups +ℤ own a
  unfolding place
  held-place a AccountType.current groups = rw (held-add a groups.everyday) (omega int_laws)
  held-place a AccountType.savings groups = rw (held-add a groups.savings) (omega int_laws)
  held-place a AccountType.fixed_deposit groups =
      rw (held-add a groups.investments) (omega int_laws)

  held-place_all :
      (accounts : List Account) (groups : Groups)
      → held_in (place_all accounts groups) ≡ held_in groups +ℤ balance_in c accounts
  unfolding place_all
  held-place_all [] groups = rw none_held (omega int_laws)
  held-place_all (a ∷ accounts) groups =
      rw
        (
          held-place_all accounts (place a a.type groups),
          held-place a a.type groups,
          balance_in-append c (a ∷ []) accounts,
        )
        (omega int_laws)

  nested :
      (xs ys zs : List Account)
      → balance_in c (xs ++ ((ys ++ (zs ++ [])) ++ []))
        ≡ balance_in c xs +ℤ (balance_in c ys +ℤ balance_in c zs)
  nested xs ys zs =
      rw
        (
          append-nil (ys ++ (zs ++ [])),
          append-nil zs,
          balance_in-append c xs (ys ++ zs),
          balance_in-append c ys zs,
        )
        refl

  -- What the portfolio of an owner says of a currency is the sum of the balances of the owner's
  -- accounts in it: no account is left out and none counts twice, whatever the types are.
  pub amount_in-portfolio :
      (title : String) (accounts : List Account)
      → amount_in c (totals (portfolio title accounts)) ≡ balance_in c accounts
  unfolding portfolio leaves leaves_of
  amount_in-portfolio title accounts =
      let groups = place_all accounts no_groups in
      amount_in-totals c (portfolio title accounts)
      ∙ nested (leaves_of groups.everyday) (leaves_of groups.savings) (leaves_of groups.investments)
      ∙ held-place_all accounts no_groups
      ∙ rw none_held (omega int_laws)
