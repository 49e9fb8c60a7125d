-- ===== src/Statements.antt =====
-- modules/statements/statement.bridge.ts: what a statement says; `Renderers` has how it is written out. The conversions of the language (a time, an upper-case text, a formatted amount, a
-- number's digits, JSON) are parameters.
mod Tests
pub mod Totals
pub mod Renderers
pub mod Reader
pub mod Csv
pub mod Controller
pub mod Explained
use vaultline.Prelude.{
  ℕ, zero, suc, ◌-◌, Bool, true, false, Option, none, some, List, [], ◌∷◌, ◌++◌, map, String,
  if◌then◌else◌, ◌==◌, ◌||◌, length, take, drop, max,
}
use vaultline.Common.Texts.{Text, text}
use vaultline.Prelude.Int.{ℤ, pos, ◌+ℤ◌, ◌-ℤ◌, ltb_ℤ}

pub record StatementLine : Type 0 where
  pub date : Text
  pub reference : Text
  pub type : Text
  pub description : Text
  pub amount_minor : ℤ
  pub balance_after_minor : ℤ

-- The lines stand from the oldest to the newest. `format` is the currency's.
pub record StatementData : Type 0 where
  pub account_number : Text
  pub owner_name : Text
  pub currency_code : Text
  pub format : ℤ → Text
  pub current_balance_minor : ℤ
  pub lines : List StatementLine

pub record StatementDocument : Type 0 where
  pub title : Text
  pub header : List (Text × Text)
  pub columns : List Text
  pub rows : List (List Text)
  pub summary : List (Text × Text)

-- What the language does with texts and numbers.
pub record Conversions : Type 0 where
  pub now_iso : Text
  pub to_upper_case : Text → Text
  pub digits : ℕ → Text

abbrev pub header : Conversions → StatementData → List (Text × Text)
header conversions source =
    (text "Account", source.account_number)
    ∷ (text "Owner", source.owner_name)
    ∷ (text "Currency", source.currency_code)
    ∷ (text "Generated", conversions.now_iso)
    ∷ []

-- `data.lines.slice(-10)`
abbrev pub last_ten : List StatementLine → List StatementLine
last_ten lines = drop (length lines - 10) lines

abbrev pub mini_row : (ℤ → Text) → StatementLine → List Text
mini_row format l = take 10 l.date ∷ l.reference ∷ format l.amount_minor ∷ []

-- `MiniStatement.compose`
unfoldable pub compose_mini : Conversions → StatementData → StatementDocument
compose_mini conversions source = record {
  title = text "Mini statement";
  header = header conversions source;
  columns = text "date" ∷ text "reference" ∷ text "amount" ∷ [];
  rows = map (mini_row source.format) (last_ten source.lines);
  summary = (text "Available balance", source.format source.current_balance_minor) ∷ [];
}

-- The sums of the lines with a positive amount, and of those with a negative amount.
unfoldable pub credits : List StatementLine → ℤ
credits [] = pos 0
credits (l ∷ lines) =
    let rest = credits lines in
    if ltb_ℤ (pos 0) l.amount_minor then l.amount_minor +ℤ rest else rest

unfoldable pub debits : List StatementLine → ℤ
debits [] = pos 0
debits (l ∷ lines) =
    let rest = debits lines in if ltb_ℤ l.amount_minor (pos 0) then l.amount_minor +ℤ rest else rest

-- `first ? first.balanceAfterMinor - first.amountMinor : data.currentBalanceMinor`
unfoldable pub opening : ℤ → List StatementLine → ℤ
opening current [] = current
opening current (first ∷ lines) = first.balance_after_minor -ℤ first.amount_minor

abbrev pub detailed_row : (ℤ → Text) → StatementLine → List Text
detailed_row format l =
    l.date
    ∷ l.reference
    ∷ l.type
    ∷ l.description
    ∷ format l.amount_minor
    ∷ format l.balance_after_minor
    ∷ []

-- `DetailedStatement.compose`
unfoldable pub compose_detailed : Conversions → StatementData → StatementDocument
unfolding credits debits opening
compose_detailed conversions source =
    let format = source.format in
    record {
      title = text "Detailed statement";
      header = header conversions source;
      columns =
          text "date"
          ∷ text "reference"
          ∷ text "type"
          ∷ text "description"
          ∷ text "amount"
          ∷ text "balance"
          ∷ [];
      rows = map (detailed_row format) source.lines;
      summary =
          (text "Opening balance", format (opening source.current_balance_minor source.lines))
          ∷ (text "Total credits", format (credits source.lines))
          ∷ (text "Total debits", format (debits source.lines))
          ∷ (text "Closing balance", format source.current_balance_minor)
          ∷ (text "Transactions", conversions.digits (length source.lines))
          ∷ [];
    }

pub data StatementKind : Type 0 where
  mini detailed : StatementKind

-- `STATEMENTS`
unfoldable pub compose : StatementKind → Conversions → StatementData → StatementDocument
unfolding compose_mini compose_detailed
compose mini = compose_mini
compose detailed = compose_detailed
