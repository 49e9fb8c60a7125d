-- ===== src/Accounts/MonthEnd.antt =====
-- modules/accounts/domain/account.visitor.ts, and `monthEndReport` of modules/accounts/accounts.service.ts. The month's
-- profit comes from the interest strategies, over their doubles; a tax of it is a whole-number percentage.
use vaultline.Prelude.{
  ℕ, suc, ◌+◌, ◌*◌, ◌/◌, ◌≤◌, arith, Bool, true, false, List, [], ◌∷◌, String, if◌then◌else◌,
  length, map, take, length-take, length-map,
}
use vaultline.Prelude.Int.{ℤ, pos, negsuc, neg, ltb_ℤ, ◌+ℤ◌}
use vaultline.Entities.{Account, AccountType, AccountStatus, active, frozen}
use vaultline.Accounts.Interest.{Doubles, monthly_interest}

-- `MaintenanceFeeVisitor`, by the type that `toElement` reads.
unfoldable pub maintenance_fee : AccountType → Account → ℕ
maintenance_fee AccountType.savings a = if ltb_ℤ a.balance_minor (pos 1_000_000) then 15_000 else 0
maintenance_fee AccountType.current a = 50_000
maintenance_fee AccountType.fixed_deposit a = 0

pub data Risk : Type 0 where
  low medium high : Risk

-- `RiskExposureVisitor`
unfoldable pub risk_exposure : AccountType → Account → Risk
risk_exposure AccountType.savings a =
    if ltb_ℤ (pos 500_000_000) a.balance_minor then medium else low
risk_exposure AccountType.current a =
    if ltb_ℤ (pos 50_000_000) a.daily_withdrawal_limit_minor then high else medium
risk_exposure AccountType.fixed_deposit a = low

-- `Math.floor((interest * percent) / 100)`
unfoldable pub percent_of : ℤ → ℕ → ℤ
percent_of (pos n) percent = pos (n * percent / 100)
percent_of (negsuc n) percent = neg (pos ((suc n * percent + 99) / 100))

-- At most so many accounts are read.
abbrev pub max_rows : ℕ
max_rows = 1000

-- `find({ where: { status: In([ACTIVE, FROZEN]) } })`
abbrev pub is_open : AccountStatus → Bool
is_open active = true
is_open frozen = true
is_open _ = false

unfoldable pub open_accounts : List Account → List Account
open_accounts [] = []
open_accounts (a ∷ accounts) =
    let rest = open_accounts accounts in if is_open a.status then a ∷ rest else rest

pub record MonthEndRow : Type 0 where
  pub account_number : String
  pub type : AccountType
  pub maintenance_fee_minor : ℕ
  pub withholding_tax_minor : ℤ
  pub risk : Risk

pub record MonthEndReport : Type 0 where
  pub accounts : ℕ
  pub total_fees_minor : ℕ
  pub total_tax_minor : ℤ
  pub high_risk : ℕ
  pub rows : List MonthEndRow

unfoldable pub total_fees : List MonthEndRow → ℕ
total_fees [] = 0
total_fees (r ∷ rows) = r.maintenance_fee_minor + total_fees rows

unfoldable pub total_tax : List MonthEndRow → ℤ
total_tax [] = pos 0
total_tax (r ∷ rows) = r.withholding_tax_minor +ℤ total_tax rows

abbrev pub is_high : Risk → Bool
is_high high = true
is_high _ = false

unfoldable pub count_high : List MonthEndRow → ℕ
count_high [] = 0
count_high (r ∷ rows) = let rest = count_high rows in if is_high r.risk then suc rest else rest

module _ (doubles : Doubles) where
  -- `WithholdingTaxVisitor`
  unfoldable pub withholding_tax : AccountType → Account → ℤ
  unfolding percent_of monthly_interest
  withholding_tax AccountType.savings a =
      percent_of (monthly_interest doubles a.type a.balance_minor a.annual_interest_rate) 15
  withholding_tax AccountType.current a = pos 0
  withholding_tax AccountType.fixed_deposit a =
      percent_of (monthly_interest doubles a.type a.balance_minor a.annual_interest_rate) 20

  -- One account through the three visitors.
  unfoldable pub month_end_row : Account → MonthEndRow
  unfolding maintenance_fee risk_exposure withholding_tax
  month_end_row a = record {
    account_number = a.account_number;
    type = a.type;
    maintenance_fee_minor = maintenance_fee a.type a;
    withholding_tax_minor = withholding_tax a.type a;
    risk = risk_exposure a.type a;
  }

  -- `monthEndReport`, over the accounts of the table.
  unfoldable pub month_end_report : List Account → MonthEndReport
  unfolding month_end_row open_accounts total_fees total_tax count_high
  month_end_report accounts =
      let rows = map month_end_row (take max_rows (open_accounts accounts)) in
      record {
        accounts = length rows;
        total_fees_minor = total_fees rows;
        total_tax_minor = total_tax rows;
        high_risk = count_high rows;
        rows = rows;
      }

  maintenance_fee-le : (type : AccountType) (a : Account) → maintenance_fee type a ≤ 50_000
  unfolding maintenance_fee
  maintenance_fee-le AccountType.savings a = ground arith
  maintenance_fee-le AccountType.current a = omega arith
  maintenance_fee-le AccountType.fixed_deposit a = omega arith

  total_fees-le :
      (accounts : List Account)
      → total_fees (map month_end_row accounts) ≤ 50_000 * length (map month_end_row accounts)
  unfolding total_fees month_end_row
  total_fees-le [] = omega arith
  total_fees-le (a ∷ accounts) = omega (arith, total_fees-le accounts, maintenance_fee-le a.type a)

  -- The report covers 1000 accounts at most, and asks 500.00 of each at most.
  pub month_end_report_bounds :
      (accounts : List Account)
      → let report = month_end_report accounts in
        (report.accounts ≤ 1000) × (report.total_fees_minor ≤ 50_000 * report.accounts)
  unfolding month_end_report
  month_end_report_bounds accounts = (
    rw
        (
          length-map (month_end_row) (take max_rows (open_accounts accounts)),
          length-take max_rows (open_accounts accounts),
        )
        (omega arith),
    total_fees-le (take max_rows (open_accounts accounts)),
  )
