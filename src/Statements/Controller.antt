-- ===== src/Statements/Controller.antt =====
-- modules/statements/statements.controller.ts. A parameter of the request that is not given has its
-- default, `mini` and `text`. What every object inherits under a name is left out of the two tables.
use vaultline.Prelude.{ℕ, Option, none, some, List, map, String, if◌then◌else◌}
use vaultline.Prelude.Int.{ℤ}
use vaultline.Common.{DomainError, business_rule, Result, ok, err, wrong_statement}
use vaultline.Common.Texts.{Text, text, same_text}
use vaultline.Entities.{Account}
use vaultline.Core.Currency
use vaultline.Core.Currency.{Currency, CurrencyRegistry}
use vaultline.Core.References.{reference_text}
use vaultline.Accounts.Service.{find_by_id}
use vaultline.Statements.{
  StatementLine, StatementData, Conversions, StatementKind, mini, detailed, compose,
}
use vaultline.Statements.Renderers.{StatementFormat, csv, json, plain, render}
use vaultline.Transactions.History.{EntryRow}
use vaultline.Transactions.History.Export.{type_text, description_text, iterate_all}
use vaultline.Transactions.Ledger.Postings.{Bank}

-- `STATEMENTS[type]`, `RENDERERS[format]`
unfoldable pub kind_named : Text → Option StatementKind
unfolding same_text
kind_named s =
    if same_text s (text "mini")
    then some mini
    else if same_text s (text "detailed")
    then some detailed
    else none

unfoldable pub format_named : Text → Option StatementFormat
unfolding same_text
format_named s =
    if same_text s (text "csv")
    then some csv
    else if same_text s (text "json")
    then some json
    else if same_text s (text "text")
    then some plain
    else none

-- `contentType` of the renderers.
abbrev pub content_type : StatementFormat → Text
content_type csv = text "text/csv"
content_type json = text "application/json"
content_type plain = text "text/plain"

-- How the handler ends: it sends a text, it throws a domain error, or another error; or the
-- history did not come to an end.
pub data Reply : Type 0 where
  sent : (content_type body : Text) → Reply
  refused : DomainError → Reply
  unsupported_currency no_end : Reply

-- What the handler is given by the language and the process.
pub record Rendering : Type 0 where
  pub conversions : Conversions
  pub stringify : Text → List (Text × Text) → List (Text × Text) → List (List (Text × Text)) → Text
  pub format : Currency → ℤ → Text
  pub iso : ℕ → Text
  pub node_tag : Text
  pub to_upper_case : String → String

module _ (rendering : Rendering) where
  unfoldable pub line_of : EntryRow → StatementLine
  unfolding reference_text description_text
  line_of r =
      let e = r.entry in
      record {
        date = rendering.iso e.created_at;
        reference = reference_text rendering.node_tag e.reference;
        type = type_text e.type;
        description = description_text rendering.node_tag e.description;
        amount_minor = e.amount_minor;
        balance_after_minor = e.balance_after_minor;
      }

  unfoldable pub data_of : Account → Currency → List StatementLine → StatementData
  data_of account currency lines = record {
    account_number = text account.account_number;
    owner_name = text account.owner_name;
    currency_code = text currency.code;
    format = rendering.format currency;
    current_balance_minor = account.balance_minor;
    lines = lines;
  }

  -- `generate`
  unfoldable pub generate : StatementKind → StatementFormat → StatementData → Reply
  unfolding compose render
  generate kind format source = sent (content_type format) (
      render rendering.conversions rendering.stringify format
        (compose kind rendering.conversions source))

  unfoldable pub generate_for :
      StatementKind → StatementFormat → Account → List EntryRow → Option Currency → Reply
  unfolding generate data_of line_of
  generate_for kind format account rows none = unsupported_currency
  generate_for kind format account rows (some currency) =
      generate kind format (data_of account currency (map line_of rows))

  unfoldable pub with_history :
      StatementKind
      → StatementFormat
      → CurrencyRegistry
      → Account
      → Option (List EntryRow)
      → Reply × CurrencyRegistry
  unfolding generate_for Currency.get
  with_history kind format pool account none = (no_end, pool)
  with_history kind format pool account (some rows) =
      let (currency, pool') = Currency.get rendering.to_upper_case account.currency pool in
      (generate_for kind format account rows currency, pool')

  unfoldable pub with_account :
      ℕ
      → StatementKind
      → StatementFormat
      → CurrencyRegistry
      → List EntryRow
      → Result Account
      → Reply × CurrencyRegistry
  unfolding with_history iterate_all
  with_account account_id kind format pool table (err e) = (refused e, pool)
  with_account account_id kind format pool table (ok account) =
      with_history kind format pool account (iterate_all table account_id)

  unfoldable pub with_names :
      ℕ
      → Option StatementKind
      → Option StatementFormat
      → Bank
      → List EntryRow
      → CurrencyRegistry
      → Reply × CurrencyRegistry
  unfolding with_account find_by_id
  with_names account_id (some kind) (some format) bank table pool =
      with_account account_id kind format pool table (find_by_id account_id bank)
  with_names account_id _ _ bank table pool = (refused (business_rule wrong_statement), pool)

  -- `statement`, on the bank and on the rows of its table of entries.
  unfoldable pub statement :
      ℕ → Text → Text → Bank → List EntryRow → CurrencyRegistry → Reply × CurrencyRegistry
  unfolding with_names kind_named format_named
  statement account_id type format = with_names account_id (kind_named type) (format_named format)
