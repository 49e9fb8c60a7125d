-- ===== src/Statements/Tests.antt =====
-- A statement of two lines.
use vaultline.Samples.{opening}
use vaultline.Core.Currency
use vaultline.Core.Currency.{Currency, currency}
use vaultline.Statements
use vaultline.Statements.Controller.{Rendering, line_of}
use vaultline.Statements.Explained.{own_rows}
use vaultline.Transactions.History.{EntryRow}
use vaultline.Core.References.Digits.{number_text}
use vaultline.Prelude.{arith, List, map, ◌≡◌, [], ◌∷◌}
use vaultline.Prelude.Int.{pos, negsuc}
use vaultline.Common.Texts.{text}
use vaultline.Statements.{
  StatementLine, StatementData, StatementDocument, Conversions, compose, detailed,
}
use vaultline.Statements.Renderers.{render_csv}
use vaultline.Statements.Reader.{read_csv}
use vaultline.Statements.Csv.{HaveCells, has_return, AreReadable, read_csv-render_csv}

abbrev deposit_line : StatementLine
deposit_line = record {
  date = text "2026-01-01";
  reference = text "DEP-1";
  type = text "DEPOSIT";
  description = text "rent, \"May\"";
  amount_minor = pos 500;
  balance_after_minor = pos 700;
}

abbrev withdrawal_line : StatementLine
withdrawal_line = record {
  date = text "2026-01-02";
  reference = text "WDL-2";
  type = text "WITHDRAWAL";
  description = text "cash";
  amount_minor = negsuc 99;
  balance_after_minor = pos 600;
}

abbrev source : StatementData
source = record {
  account_number = text "PK1";
  owner_name = text "Alice";
  currency_code = text "PKR";
  format = λ n. text "Rs";
  current_balance_minor = pos 600;
  lines = deposit_line ∷ withdrawal_line ∷ [];
}

abbrev pub conversions : Conversions
conversions = record { now_iso = text "2026-01-03"; to_upper_case = λ s. s; digits = λ n. text "2" }

abbrev document : StatementDocument
document = compose detailed conversions source

document-HaveCells : HaveCells (document.columns ∷ document.rows)
unfolding HaveCells AreReadable compose has_return
document-HaveCells = ground arith

read_csv-render_csv_example : read_csv (render_csv document) ≡ document.columns ∷ document.rows
read_csv-render_csv_example = read_csv-render_csv document document-HaveCells

abbrev table : List EntryRow
table = record { id = 4; micros = 0; entry = opening } ∷ []

abbrev rendering : Rendering
rendering = record {
  conversions = conversions;
  stringify = λ title header summary rows. title;
  format = λ currency n. number_text n;
  iso = λ t. text "2026-01-01T00:00:00.000Z";
  node_tag = text "OCAL";
  to_upper_case = λ s. s;
}

abbrev rupees : Currency
rupees = currency "PKR" "Pakistani Rupee" "Rs"

abbrev lines : List StatementLine
lines = map (line_of rendering) (own_rows 1 table)
