-- ===== src/Accounts/Products.antt =====
-- modules/accounts/domain/account-product.prototype.ts. A clone shares nothing with its prototype, so it
-- is a value; `null` overrides of `Partial` are `none`. A rate is in hundredths of a percent.
use vaultline.Prelude.{
  ℕ, Bool, true, false, Option, none, some, List, [], ◌∷◌, ◌++◌, map, String, str_eq, if◌then◌else◌,
}
use vaultline.Prelude.Int.{ℤ, pos}
use vaultline.Entities.{AccountType}

pub record ProductFeatures : Type 0 where
  pub cheque_book : Bool
  pub debit_card : Bool
  pub international_transfers : Bool
  pub perks : List String

pub record AccountProduct : Type 0 where
  pub code : String
  pub display_name : String
  pub account_type : AccountType
  pub daily_withdrawal_limit_minor : ℤ
  pub annual_interest_rate : ℕ
  pub minimum_opening_balance_minor : ℤ
  pub features : ProductFeatures

-- `Partial<ProductFeatures>` and the overrides of `clone`.
pub record FeatureOverrides : Type 0 where
  pub cheque_book : Option Bool
  pub debit_card : Option Bool
  pub international_transfers : Option Bool
  pub perks : Option (List String)

pub record Overrides : Type 0 where
  pub code : Option String
  pub display_name : Option String
  pub account_type : Option AccountType
  pub daily_withdrawal_limit_minor : Option ℤ
  pub annual_interest_rate : Option ℕ
  pub minimum_opening_balance_minor : Option ℤ
  pub features : Option FeatureOverrides

abbrev pub or_own {ℓ} : {A : Type ℓ} → Option A → A → A
or_own none own = own
or_own (some a) own = a

abbrev pub clone_features : Option FeatureOverrides → ProductFeatures → ProductFeatures
clone_features none f = f
clone_features (some o) f = record {
  cheque_book = or_own o.cheque_book f.cheque_book;
  debit_card = or_own o.debit_card f.debit_card;
  international_transfers = or_own o.international_transfers f.international_transfers;
  perks = or_own o.perks f.perks;
}

-- `clone`
abbrev pub clone : Overrides → AccountProduct → AccountProduct
clone o p = record {
  code = or_own o.code p.code;
  display_name = or_own o.display_name p.display_name;
  account_type = or_own o.account_type p.account_type;
  daily_withdrawal_limit_minor =
      or_own o.daily_withdrawal_limit_minor p.daily_withdrawal_limit_minor;
  annual_interest_rate = or_own o.annual_interest_rate p.annual_interest_rate;
  minimum_opening_balance_minor =
      or_own o.minimum_opening_balance_minor p.minimum_opening_balance_minor;
  features = clone_features o.features p.features;
}

abbrev pub no_overrides : Overrides
no_overrides = record {
  code = none;
  display_name = none;
  account_type = none;
  daily_withdrawal_limit_minor = none;
  annual_interest_rate = none;
  minimum_opening_balance_minor = none;
  features = none;
}

-- `features.perks.push(perk)`
abbrev pub with_perk : String → AccountProduct → AccountProduct
with_perk perk p = record p {
  features = record (p.features) { perks = p.features.perks ++ perk ∷ [] };
}

abbrev pub basic_saver : AccountProduct
basic_saver = record {
  code = "BASIC_SAVER";
  display_name = "Basic Saver";
  account_type = AccountType.savings;
  daily_withdrawal_limit_minor = pos 5_000_000;
  annual_interest_rate = 850;
  minimum_opening_balance_minor = pos 100_000;
  features = record {
    cheque_book = false;
    debit_card = true;
    international_transfers = false;
    perks = "Free SMS alerts" ∷ [];
  };
}

abbrev pub student_saver : AccountProduct
student_saver = with_perk "No minimum balance" (
    clone
      (record no_overrides {
        code = some "STUDENT_SAVER";
        display_name = some "Student Saver";
        daily_withdrawal_limit_minor = some (pos 2_000_000);
        minimum_opening_balance_minor = some (pos 0);
      })
      basic_saver)

abbrev pub freelancer_saver : AccountProduct
freelancer_saver = with_perk "Foreign remittance tracking" (
    clone
      (record no_overrides {
        code = some "FREELANCER_SAVER";
        display_name = some "Freelancer Saver";
        daily_withdrawal_limit_minor = some (pos 20_000_000);
        annual_interest_rate = some 925;
        features = some (record {
          cheque_book = none;
          debit_card = none;
          international_transfers = some true;
          perks = none;
        });
      })
      basic_saver)

abbrev pub business_current : AccountProduct
business_current = record {
  code = "BUSINESS_CURRENT";
  display_name = "Business Current";
  account_type = AccountType.current;
  daily_withdrawal_limit_minor = pos 100_000_000;
  annual_interest_rate = 0;
  minimum_opening_balance_minor = pos 2_500_000;
  features = record {
    cheque_book = true;
    debit_card = true;
    international_transfers = true;
    perks = "Unlimited transactions" ∷ [];
  };
}

abbrev pub term_deposit : AccountProduct
term_deposit = record {
  code = "TERM_DEPOSIT_1Y";
  display_name = "1-Year Term Deposit";
  account_type = AccountType.fixed_deposit;
  daily_withdrawal_limit_minor = pos 0;
  annual_interest_rate = 1200;
  minimum_opening_balance_minor = pos 5_000_000;
  features = record {
    cheque_book = false;
    debit_card = false;
    international_transfers = false;
    perks = "Fixed profit for 12 months" ∷ [];
  };
}

-- The catalog, in the order of insertion.
abbrev pub account_products : List AccountProduct
account_products =
    basic_saver ∷ student_saver ∷ freelancer_saver ∷ business_current ∷ term_deposit ∷ []

unfoldable pub find_product : String → List AccountProduct → Option AccountProduct
find_product code [] = none
find_product code (p ∷ products) = if str_eq p.code code then some p else find_product code products

-- `get` and `list` of the catalog hand out clones.
abbrev pub cloned : Option AccountProduct → Option AccountProduct
cloned none = none
cloned (some p) = some (clone no_overrides p)

unfoldable pub get : String → Option AccountProduct
unfolding find_product
get code = cloned (find_product code account_products)

unfoldable pub list : List AccountProduct
list = map (clone no_overrides) account_products
