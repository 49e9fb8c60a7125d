-- ===== src/Accounts/Portfolio/Totals.antt =====
-- The totals of a portfolio are those of its accounts.
use vaultline.Prelude.{
  ◌≡◌, refl, ap, ◌∙◌, arith, Bool, true, false, List, [], ◌∷◌, ◌++◌, String, str_eq, str_eq_iff,
  if◌then◌else◌, inl, inr, Bool-cases,
}
use vaultline.Prelude.Int.{ℤ, pos, ◌+ℤ◌, int_laws, +ℤ-zero}
use vaultline.Entities.{Account}
use vaultline.Accounts.Portfolio.{
  PortfolioComponent, account_leaf, portfolio_group, Children, empty, with_child, CurrencyTotals,
  amount_in, add_amount, add_all, totals, totals_of,
}

-- The sum of the balances in a currency over a list of accounts.
unfoldable pub balance_in : String → List Account → ℤ
balance_in c [] = pos 0
balance_in c (a ∷ accounts) =
    let rest = balance_in c accounts in
    if str_eq a.currency c then a.balance_minor +ℤ rest else rest

unfoldable mutual
  -- The accounts of a tree, from left to right.
  pub leaves : PortfolioComponent → List Account
  leaves (account_leaf a) = a ∷ []
  leaves (portfolio_group name children) = leaves_of children

  pub leaves_of : Children → List Account
  leaves_of empty = []
  leaves_of (with_child child children) = leaves child ++ leaves_of children

-- The sum over all the entries under a key.
unfoldable pub sum_in : String → CurrencyTotals → ℤ
sum_in c [] = pos 0
sum_in c ((key, amount) ∷ sum) =
    let rest = sum_in c sum in if str_eq key c then amount +ℤ rest else rest

module _ (c : String) where
  amount_in-add :
      (key : String) (n : ℤ) (sum : CurrencyTotals)
      → amount_in c (add_amount key n sum)
        ≡ (if str_eq key c then amount_in c sum +ℤ n else amount_in c sum)
  unfolding amount_in add_amount
  amount_in-add key n [] = refl
  amount_in-add key n ((k, old) ∷ sum) = ground (
    arith,
    amount_in-add key n sum,
    (str_eq_iff k key).0,
    (str_eq_iff k c).0,
    (str_eq_iff key c).0,
    (str_eq_iff k c).1,
    (str_eq_iff k key).1,
    (str_eq_iff key c).1,
  )

  sum_in-add :
      (key : String) (n : ℤ) (sum : CurrencyTotals)
      → sum_in c (add_amount key n sum) ≡ (if str_eq key c then sum_in c sum +ℤ n else sum_in c sum)
  unfolding sum_in add_amount
  sum_in-add key n [] = elim (Bool-cases (str_eq key c)) [
    | inl yes_c ↦ rw yes_c (+ℤ-zero _)
    | inr no_c ↦ rw no_c refl
  ]
  sum_in-add key n ((k, old) ∷ sum) = elim (Bool-cases (str_eq k key)) [
    | inl same ↦
        let e : str_eq k c ≡ str_eq key c = ap (λ s. str_eq s c) ((str_eq_iff k key).0 same) in
        elim (Bool-cases (str_eq key c)) [
          | inl here ↦ rw same (rw e (rw here (swap old n (sum_in c sum))))
          | inr elsewhere ↦ rw same (rw e (rw elsewhere refl))
        ]
    | inr differ ↦ elim (Bool-cases (str_eq key c)) [
      | inl here ↦
          rw (differ, sum_in-add key n sum) (rw here (carry (str_eq k c) old (sum_in c sum) n))
      | inr elsewhere ↦ rw (differ, sum_in-add key n sum) (rw elsewhere refl)
    ]
  ]
    where
      swap : (o n s : ℤ) → o +ℤ n +ℤ s ≡ o +ℤ s +ℤ n
      swap o n s = omega int_laws

      carry :
          (b : Bool) (o s n : ℤ)
          → (if b then o +ℤ (s +ℤ n) else s +ℤ n) ≡ (if b then o +ℤ s else s) +ℤ n
      carry true o s n = omega int_laws
      carry false o s n = refl

  gather : (b : Bool) (a s n : ℤ) → (if b then a +ℤ n else a) +ℤ s ≡ a +ℤ (if b then n +ℤ s else s)
  gather true a s n = omega int_laws
  gather false a s n = refl

  amount_in-add_all :
      (entries sum : CurrencyTotals)
      → amount_in c (add_all entries sum) ≡ amount_in c sum +ℤ sum_in c entries
  unfolding add_all sum_in
  amount_in-add_all [] sum = omega int_laws
  amount_in-add_all ((key, n) ∷ entries) sum =
      rw (amount_in-add_all entries (add_amount key n sum), amount_in-add key n sum)
        (gather (str_eq key c) (amount_in c sum) (sum_in c entries) n)

  sum_in-add_all :
      (entries sum : CurrencyTotals)
      → sum_in c (add_all entries sum) ≡ sum_in c sum +ℤ sum_in c entries
  unfolding add_all sum_in
  sum_in-add_all [] sum = omega int_laws
  sum_in-add_all ((key, n) ∷ entries) sum =
      rw (sum_in-add_all entries (add_amount key n sum), sum_in-add key n sum)
        (gather (str_eq key c) (sum_in c sum) (sum_in c entries) n)

  pub balance_in-append :
      (xs ys : List Account) → balance_in c (xs ++ ys) ≡ balance_in c xs +ℤ balance_in c ys
  unfolding balance_in
  balance_in-append [] ys = omega int_laws
  balance_in-append (a ∷ xs) ys =
      rw (balance_in-append xs ys)
        (spread (str_eq a.currency c) a.balance_minor (balance_in c xs) (balance_in c ys))
    where
      spread :
          (b : Bool) (a x y : ℤ)
          → (if b then a +ℤ (x +ℤ y) else x +ℤ y) ≡ (if b then a +ℤ x else x) +ℤ y
      spread true a x y = omega int_laws
      spread false a x y = refl

  regroup : (s x y : ℤ) → s +ℤ x +ℤ y ≡ s +ℤ (x +ℤ y)
  regroup s x y = omega int_laws

  mutual
    unfolding totals totals_of leaves leaves_of sum_in balance_in

    sum_in-totals : (t : PortfolioComponent) → sum_in c (totals t) ≡ balance_in c (leaves t)
    sum_in-totals (account_leaf a) = refl
    sum_in-totals (portfolio_group name children) = sum_in-totals_of children [] ∙ omega int_laws

    sum_in-totals_of :
        (children : Children) (sum : CurrencyTotals)
        → sum_in c (totals_of children sum) ≡ sum_in c sum +ℤ balance_in c (leaves_of children)
    sum_in-totals_of empty sum = omega int_laws
    sum_in-totals_of (with_child child children) sum =
        rw
          (
            sum_in-totals_of children (add_all (totals child) sum),
            sum_in-add_all (totals child) sum,
            sum_in-totals child,
            balance_in-append (leaves child) (leaves_of children),
          )
          (regroup (sum_in c sum) (balance_in c (leaves child)) (balance_in c (leaves_of children)))

  amount_in-totals_of :
      (children : Children) (sum : CurrencyTotals)
      → amount_in c (totals_of children sum) ≡ amount_in c sum +ℤ balance_in c (leaves_of children)
  unfolding totals_of leaves_of balance_in
  amount_in-totals_of empty sum = omega int_laws
  amount_in-totals_of (with_child child children) sum =
      rw
        (
          amount_in-totals_of children (add_all (totals child) sum),
          amount_in-add_all (totals child) sum,
          sum_in-totals child,
          balance_in-append (leaves child) (leaves_of children),
        )
        (regroup (amount_in c sum) (balance_in c (leaves child))
          (balance_in c (leaves_of children)))

  -- What the totals of a portfolio say of a currency is the sum of the balances in it over all
  -- accounts of the tree, however the groups are nested.
  pub amount_in-totals : (t : PortfolioComponent) → amount_in c (totals t) ≡ balance_in c (leaves t)
  unfolding totals leaves amount_in balance_in
  amount_in-totals (account_leaf a) = single (str_eq a.currency c) a.balance_minor
    where
      single : (b : Bool) (n : ℤ) → (if b then n else pos 0) ≡ (if b then n +ℤ pos 0 else pos 0)
      single true n = omega int_laws
      single false n = refl
  amount_in-totals (portfolio_group name children) =
      amount_in-totals_of children [] ∙ omega int_laws
