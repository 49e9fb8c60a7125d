-- ===== src/Accounts/Factory.antt =====
-- modules/accounts/domain/account.factory.ts. `trim` and `toUpperCase` of a text are parameters.
use vaultline.Prelude.{ℕ, Option, none, some, String, not}
use vaultline.Prelude.Int.{ℤ, pos, ltb_ℤ}
use vaultline.Common.{
  Result, ok, ◌>>=◌, ◌>>◌, throw_if, business_rule, wrong_product_type, below_minimum_opening,
}
use vaultline.Entities.{AccountType, same_type, AccountStatus, pending}
use vaultline.Accounts.Products.{AccountProduct}

-- The text functions of the language.
pub record TextFunctions : Type 0 where
  pub trim : String → String
  pub to_upper_case : String → String

pub record OpenAccountInput : Type 0 where
  pub owner_name : String
  pub currency : String
  pub initial_deposit_minor : ℤ
  pub product : Option AccountProduct

pub record AccountBlueprint : Type 0 where
  pub owner_name : String
  pub type : AccountType
  pub currency : String
  pub product_code : Option String
  pub daily_withdrawal_limit_minor : ℤ
  pub annual_interest_rate : ℕ
  pub minimum_opening_balance_minor : ℤ
  pub status : AccountStatus

-- The defaults of the three creators.
abbrev pub default_limit : AccountType → ℤ
default_limit AccountType.savings = pos 5_000_000
default_limit AccountType.current = pos 50_000_000
default_limit AccountType.fixed_deposit = pos 0

abbrev pub default_rate : AccountType → ℕ
default_rate AccountType.savings = 850
default_rate AccountType.current = 0
default_rate AccountType.fixed_deposit = 1200

abbrev pub default_minimum : AccountType → ℤ
default_minimum AccountType.savings = pos 100_000
default_minimum AccountType.current = pos 0
default_minimum AccountType.fixed_deposit = pos 5_000_000

-- `createBlueprint` of the creator for a type.
abbrev pub create_blueprint : TextFunctions → AccountType → OpenAccountInput → AccountBlueprint
create_blueprint texts type input = record {
  owner_name = texts.trim input.owner_name;
  type = type;
  currency = texts.to_upper_case input.currency;
  product_code = none;
  daily_withdrawal_limit_minor = default_limit type;
  annual_interest_rate = default_rate type;
  minimum_opening_balance_minor = default_minimum type;
  status = pending;
}

abbrev pub with_product : AccountProduct → AccountBlueprint → AccountBlueprint
with_product p blueprint = record blueprint {
  product_code = some p.code;
  daily_withdrawal_limit_minor = p.daily_withdrawal_limit_minor;
  annual_interest_rate = p.annual_interest_rate;
  minimum_opening_balance_minor = p.minimum_opening_balance_minor;
}

-- The settings of a product override the defaults of the type.
unfoldable pub apply_product : Option AccountProduct → AccountBlueprint → Result AccountBlueprint
apply_product none blueprint = ok blueprint
apply_product (some p) blueprint = do
  throw_if (not (same_type p.account_type blueprint.type)) (business_rule wrong_product_type)
  ok (with_product p blueprint)

-- `accountCreatorFor(type).open(input)`
unfoldable pub open_blueprint :
    TextFunctions → AccountType → OpenAccountInput → Result AccountBlueprint
unfolding apply_product
open_blueprint texts type input = do
  blueprint ← apply_product input.product (create_blueprint texts type input)
  throw_if (ltb_ℤ input.initial_deposit_minor blueprint.minimum_opening_balance_minor)
      (business_rule below_minimum_opening)
  ok blueprint
