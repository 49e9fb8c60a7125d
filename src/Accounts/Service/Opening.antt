-- ===== src/Accounts/Service/Opening.antt =====
-- What opening an account and a change of status do to the bank.
use vaultline.Prelude.{
  ℕ, ◌≡◌, ◌≢◌, sym, false, String, str_eq, str_eq_iff, refl, ◌⊎◌, ◌∙◌, arith, true, Option, none,
  some, List, [], ◌∷◌, inl, inr, Bool-cases, ◌==◌, if◌then◌else◌,
}
use vaultline.Prelude.Int.{ℤ, pos, ◌+ℤ◌, ◌≤ℤ◌, int_laws, ltb_ℤ}
use vaultline.Common.{Result, ok, err, DomainError, Result-cases}
use vaultline.Entities.{Account, AccountType, pending, same_type}
use vaultline.Core.Currency.{is_supported}
use vaultline.Accounts.Products.{AccountProduct}
use vaultline.Accounts.Factory.{
  TextFunctions, AccountBlueprint, OpenAccountInput, open_blueprint, apply_product, default_minimum,
}
use vaultline.Accounts.Service.{
  NewRow, OpenAccountDto, open_account, write_account, check_opening, chosen_product, account_from,
  deposit_or_zero, is_taken,
}
use vaultline.Transactions.Ledger.Tables.{
  find_account, save_account, total_balance, find_account-save,
}
use vaultline.Transactions.Ledger.Postings.{Bank}

total_balance-save_new :
    (a : Account) (accounts : List Account)
    → find_account a.id accounts ≡ none
    → total_balance (save_account a accounts) ≡ total_balance accounts +ℤ a.balance_minor
unfolding total_balance save_account find_account
total_balance-save_new a [] h = omega int_laws
total_balance-save_new a (b ∷ accounts) h = elim (Bool-cases (b.id == a.id)) [
  | inl same ↦ absurd (ground arith)
  | inr other ↦ rw (other, total_balance-save_new a accounts (rw other at h)) (omega int_laws)
]

-- The product, if one was asked for, is of the type asked for.
abbrev pub Fits : Option AccountProduct → AccountType → Type 0
Fits none type = Unit
Fits (some p) type = p.account_type ≡ type

-- The least first deposit: the product's, or the type's.
abbrev pub minimum_for : Option AccountProduct → AccountType → ℤ
minimum_for none type = default_minimum type
minimum_for (some p) type = p.minimum_opening_balance_minor

true_not_false : true ≡ false → ⊥
true_not_false h = ground arith

same_type_eq : (s t : AccountType) → same_type s t ≡ true → s ≡ t
same_type_eq s t h = ground arith

same_type_refl : (t : AccountType) → same_type t t ≡ true
same_type_refl t = ground arith

abbrev with_blueprint : OpenAccountDto → Option AccountProduct → OpenAccountInput
with_blueprint dto product = record {
  owner_name = dto.owner_name;
  currency = dto.currency;
  initial_deposit_minor = deposit_or_zero dto.initial_deposit_minor;
  product = product;
}

open_blueprint-cases :
    (texts : TextFunctions) (dto : OpenAccountDto) (product : Option AccountProduct)
    → let opened = open_blueprint texts dto.type (with_blueprint dto product) in
      ((e : DomainError) × (opened ≡ err e)
        × ¬ (
            Fits product dto.type
            × (minimum_for product dto.type ≤ℤ deposit_or_zero dto.initial_deposit_minor)))
      ⊎ ((b : AccountBlueprint) × (opened ≡ ok b)
          × (b.status ≡ pending)
          × Fits product dto.type
          × (minimum_for product dto.type ≤ℤ deposit_or_zero dto.initial_deposit_minor))
unfolding open_blueprint apply_product
open_blueprint-cases texts dto none =
    elim (Bool-cases
      (ltb_ℤ (deposit_or_zero dto.initial_deposit_minor) (default_minimum dto.type))) [
        | inl low ↦ rw low (inl (_, refl, λ h. ground arith))
        | inr enough ↦ rw enough (inr (_, refl, refl, tt, ground arith))
      ]
open_blueprint-cases texts dto (some p) = elim (Bool-cases (same_type p.account_type dto.type)) [
  | inr other ↦ rw other (inl (_, refl, λ h. cc (same_type_refl dto.type, h.0)))
  | inl same ↦
      elim (Bool-cases
        (ltb_ℤ (deposit_or_zero dto.initial_deposit_minor) p.minimum_opening_balance_minor)) [
          | inl low ↦ rw (same, low) (inl (_, refl, λ h. ground arith))
          | inr enough ↦
              rw (same, enough)
                (inr (_, refl, refl, same_type_eq p.account_type dto.type same, ground arith))
        ]
]

-- What a request for an account needs: a known currency, a known product or none, of the type asked
-- for, and the least first deposit.
abbrev pub IsOpenable : TextFunctions → OpenAccountDto → Type 0
IsOpenable texts dto =
    (is_supported texts.to_upper_case dto.currency ≡ true)
    × ((product : Option AccountProduct) × (chosen_product dto.product_code ≡ ok product)
        × Fits product dto.type
        × (minimum_for product dto.type ≤ℤ deposit_or_zero dto.initial_deposit_minor))

check_opening-cases :
    (texts : TextFunctions) (dto : OpenAccountDto)
    → ((e : DomainError) × (check_opening texts dto ≡ err e) × ¬ (IsOpenable texts dto))
      ⊎ ((b : AccountBlueprint) × (check_opening texts dto ≡ ok b)
          × (b.status ≡ pending)
          × IsOpenable texts dto)
unfolding check_opening
check_opening-cases texts dto = elim (Bool-cases (is_supported texts.to_upper_case dto.currency)) [
  | inr strange ↦ rw strange (inl (_, refl, λ h. cc h.0))
  | inl known ↦ elim (Result-cases (chosen_product dto.product_code)) [
    | inl (e, no_product) ↦ rw (known, no_product) (inl (_, refl, λ h. cc (h.1.1)))
    | inr (product, chosen) ↦ elim (open_blueprint-cases texts dto product) [
      | inl (e, refused, no_fit) ↦
          rw (known, chosen)
            (inl (
              e,
              refused,
              λ h. let same : product ≡ h.1.0 = cc (h.1.1) in no_fit (rw same (h.1.2, h.1.3)),
            ))
      | inr (b, opened, new, fits, enough) ↦
          rw (known, chosen) (inr (b, opened, new, (refl, (product, refl, fits, enough))))
    ]
  ]
]

-- No account has the number.
unfoldable pub HasNone : String → List Account → Type 0
HasNone number [] = Unit {0}
HasNone number (a ∷ accounts) = (a.account_number ≢ number) × HasNone number accounts

not_taken-HasNone :
    (number : String) (accounts : List Account)
    → is_taken number accounts ≡ false
    → HasNone number accounts
unfolding is_taken HasNone
not_taken-HasNone number [] h = tt
not_taken-HasNone number (a ∷ accounts) h = elim (Bool-cases (str_eq a.account_number number)) [
  | inl same ↦ absurd (ground arith)
  | inr differs ↦ (
    λ e. true_not_false (sym ((str_eq_iff a.account_number number).1 e) ∙ differs),
    not_taken-HasNone number accounts (rw differs at h),
  )
]

HasNone-not_taken :
    (number : String) (accounts : List Account)
    → HasNone number accounts
    → is_taken number accounts ≡ true
    → ⊥
unfolding is_taken HasNone
HasNone-not_taken number [] h k = absurd (true_not_false (sym k))
HasNone-not_taken number (a ∷ accounts) (differs, h) k =
    elim (Bool-cases (str_eq a.account_number number)) [
      | inl same ↦ differs ((str_eq_iff a.account_number number).0 same)
      | inr other ↦ HasNone-not_taken number accounts h (rw other at k)
    ]

module _ (texts : TextFunctions) (row : NewRow) (dto : OpenAccountDto) (bank : Bank) where
  -- What an opening leaves.
  abbrev pub Opens : Result Account × Bank → Type 0
  Opens (ok a, bank') =
      IsOpenable texts dto
      × HasNone row.account_number bank.database.accounts
      × (a.account_number ≡ row.account_number)
      × (a.id ≡ row.id)
      × (a.status ≡ pending)
      × (a.balance_minor ≡ pos 0)
      × ((j : ℕ)
          → find_account j bank'.database.accounts
            ≡ (if row.id == j then some a else find_account j bank.database.accounts))
      × (total_balance bank'.database.accounts ≡ total_balance bank.database.accounts)
      × (bank'.database.entries ≡ bank.database.entries)
      × (bank'.sequence ≡ bank.sequence)
  Opens (err e, bank') =
      (bank' ≡ bank) × ¬ (IsOpenable texts dto × HasNone row.account_number bank.database.accounts)

  -- Where no account has the new id, an account is opened exactly if the currency is known, the
  -- product is known and of the type asked for, the first deposit reaches the minimum, and no account has
  -- the number that was drawn. The account has that number, is pending and empty, no other account, no entry and no money has changed. An error changes nothing.
  pub open_account-Opens :
      find_account row.id bank.database.accounts ≡ none → Opens (open_account texts row dto bank)
  unfolding open_account write_account
  open_account-Opens no_account = elim (check_opening-cases texts dto) [
    | inl (e, refused, not_openable) ↦ rw refused (refl, λ h. not_openable h.0)
    | inr (b, accepted, new, openable) ↦
        elim (Bool-cases (is_taken row.account_number bank.database.accounts)) [
          | inl taken ↦
              rw (accepted, taken)
                (refl, λ h. HasNone-not_taken row.account_number bank.database.accounts h.1 taken)
          | inr free ↦
              rw (accepted, free)
                (
                  openable,
                  not_taken-HasNone row.account_number bank.database.accounts free,
                  refl,
                  refl,
                  new,
                  refl,
                  λ j. find_account-save j (account_from row b) bank.database.accounts,
                  total_balance-save_new (account_from row b) bank.database.accounts no_account
                      ∙ omega int_laws,
                  refl,
                  refl,
                )
        ]
  ]
