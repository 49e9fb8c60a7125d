-- ===== src/Entities.antt =====
-- The rows of database/entities/. Identifiers (UUIDs) are numbers: the code compares and sorts
-- them only. A rate is in hundredths of a percent, the column being numeric(5,2). Times are
-- numbers. The columns `version` and `updated_at` are the database's and are left out.
use vaultline.Prelude.{ℕ, ◌≡◌, ◌↔◌, arith, Bool, true, false, ◌&&◌, Option, String, List, ◌==◌}
use vaultline.Prelude.Int.{ℤ}

pub data AccountType : Type 0 where
  savings current fixed_deposit : AccountType

abbrev pub same_type : AccountType → AccountType → Bool
same_type savings savings = true
same_type current current = true
same_type fixed_deposit fixed_deposit = true
same_type _ _ = false

pub data AccountStatus : Type 0 where
  pending active frozen closed : AccountStatus

-- What a caller may ask of an account's status (modules/accounts/dto/account.dto.ts).
pub data StatusAction : Type 0 where
  activate freeze unfreeze close : StatusAction

pub record Account : Type 0 where
  pub id : ℕ
  pub account_number : String
  pub owner_name : String
  pub type : AccountType
  pub currency : String
  pub product_code : Option String
  pub balance_minor : ℤ
  pub daily_withdrawal_limit_minor : ℤ
  pub annual_interest_rate : ℕ
  pub status : AccountStatus
  pub created_at : ℕ

pub data LedgerEntryType : Type 0 where
  deposit withdrawal transfer_in transfer_out fee interest reversal : LedgerEntryType

-- A reference number, by the parts that core/reference-number.singleton.ts prints: the prefix,
-- the date, the sequence number and the random suffix. (The node's tag is fixed in a process.)
pub data Prefix : Type 0 where
  txn dep wdl trf rev pay : Prefix

abbrev pub prefix_index : Prefix → ℕ
prefix_index txn = 0
prefix_index dep = 1
prefix_index wdl = 2
prefix_index trf = 3
prefix_index rev = 4
prefix_index pay = 5

pub record Reference : Type 0 where
  pub prefix : Prefix
  pub date : ℕ
  pub sequence : ℕ
  pub random : ℕ

abbrev pub same_reference : Reference → Reference → Bool
same_reference r s =
    (prefix_index r.prefix == prefix_index s.prefix)
    && ((r.date == s.date) && ((r.sequence == s.sequence) && (r.random == s.random)))

-- A description: a text of the caller's, or the mark that a reversal leaves, `REVERSAL_OF:` and a
-- reference. A caller's text that spells the mark is that mark. A transfer without a text names the
-- two accounts.
pub data Description : Type 0 where
  plain : String → Description
  transfer_between : (from to : String) → Description
  reversal_of : Reference → Description

pub record LedgerEntry : Type 0 where
  pub account_id : ℕ
  pub type : LedgerEntryType
  pub amount_minor : ℤ
  pub balance_after_minor : ℤ
  pub reference : Reference
  pub description : Description
  pub created_at : ℕ

pub data LoanStatus : Type 0 where
  approved rejected manual_review : LoanStatus

-- The two tables that the ledger writes, the entries from the oldest to the newest.
pub record Database : Type 0 where
  pub accounts : List Account
  pub entries : List LedgerEntry

prefix_index-injective : (p q : Prefix) → prefix_index p ≡ prefix_index q → p ≡ q
prefix_index-injective p q h = ground arith

pub same_reference_iff : (r s : Reference) → (same_reference r s ≡ true) ↔ (r ≡ s)
same_reference_iff r s = ground (arith, prefix_index-injective r.prefix s.prefix)
