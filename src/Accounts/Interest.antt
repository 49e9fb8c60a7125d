-- ===== src/Accounts/Interest.antt =====
-- modules/accounts/domain/interest.strategy.ts. The arithmetic of the language's doubles is a parameter, and
-- so is the rate, a double too; amounts are integers. Every formula is the source's.
use vaultline.Prelude.{ℕ}
use vaultline.Prelude.Int.{ℤ, pos}
use vaultline.Entities.{AccountType}

-- Doubles, with the operations that the formulas call. `percent` reads the column of hundredths.
pub record Doubles : Type 1 where
  pub Double : Type 0
  pub of_integer : ℤ → Double
  pub percent : ℕ → Double
  pub add : Double → Double → Double
  pub subtract : Double → Double → Double
  pub multiply : Double → Double → Double
  pub divide : Double → Double → Double
  pub power : Double → Double → Double
  pub minimum : Double → Double → Double
  pub maximum : Double → Double → Double
  pub floor : Double → ℤ

pub data InterestStrategy : Type 0 where
  no_interest flat_rate tiered_rate compound_monthly : InterestStrategy

-- `InterestCalculator.strategyFor`
abbrev pub strategy_for : AccountType → InterestStrategy
strategy_for AccountType.current = no_interest
strategy_for AccountType.savings = tiered_rate
strategy_for AccountType.fixed_deposit = compound_monthly

module _ (doubles : Doubles) where
  open doubles use {
    Double, of_integer, percent, add, subtract, multiply, divide, power, minimum, maximum, floor,
  }

  abbrev number : ℕ → Double
  number n = of_integer (pos n)

  -- `yearly / 100 / 12`
  abbrev monthly : Double → Double
  monthly yearly = divide (divide yearly (number 100)) (number 12)

  -- `monthlyInterestMinor` of each strategy.
  unfoldable pub monthly_interest_by : InterestStrategy → ℤ → ℕ → ℤ
  monthly_interest_by no_interest balance_minor rate = pos 0
  monthly_interest_by flat_rate balance_minor rate =
      floor (monthly (multiply (of_integer balance_minor) (percent rate)))
  monthly_interest_by tiered_rate balance_minor rate =
      let slab = number 100_000_000 in
      let base = minimum (of_integer balance_minor) slab in
      let above = maximum (number 0) (subtract (of_integer balance_minor) slab) in
      let bonus = percent 150 in
      floor
        (monthly (add (multiply base (percent rate)) (multiply above (add (percent rate) bonus))))
  monthly_interest_by compound_monthly balance_minor rate =
      let monthly_rate = monthly (percent rate) in
      floor (
        multiply (of_integer balance_minor)
          (subtract (power (add (number 1) monthly_rate) (number 1)) (number 1)))

  -- `InterestCalculator.calculate`
  unfoldable pub monthly_interest : AccountType → ℤ → ℕ → ℤ
  unfolding monthly_interest_by
  monthly_interest type balance_minor rate =
      monthly_interest_by (strategy_for type) balance_minor rate
