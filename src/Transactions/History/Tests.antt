-- ===== src/Transactions/History/Tests.antt =====
-- The history of an account on a small table.
use mathlib.Core.Option
use vaultline.Common.Texts.{Text, text}
use vaultline.Core.References.{node_tag}
use vaultline.Statements.Reader.{read_csv, breaks}
use vaultline.Transactions.History.PlainTexts.{IsPlain}
use vaultline.Transactions.History.Export.{five_hundred, export_csv}
use vaultline.Transactions.History.ReadBack.{columns, cells, read_csv-export_csv}
use vaultline.Prelude.{
  refl, inl, inr, map, ◌++◌, ℕ, suc, ◌≡◌, arith, none, some, List, [], ◌∷◌, length,
}
use vaultline.Prelude.Int.{pos}
use vaultline.Samples.{first_deposit}
use vaultline.Entities.{LedgerEntryType, plain}
use vaultline.Transactions.History.{
  EntryRow, insert_row, order_rows, select, HistoryOptions, new_iterator, drain,
}
use vaultline.Transactions.History.Order.{IsKeyed, IsUnused}
use vaultline.Transactions.History.Paging.{history, CanBePaged, drain-history, drain-never_ends}
use vaultline.Transactions.History.Selection.{AreSelected}

-- Three rows of account 1 and one of account 2, not in the order of time, and pages of two rows.
abbrev row_of : ℕ → ℕ → ℕ → EntryRow
row_of id account_id created_at = record {
  id = id;
  micros = 0;
  entry = record {
    account_id = account_id;
    type = LedgerEntryType.deposit;
    amount_minor = pos 100;
    balance_after_minor = pos 100;
    reference = first_deposit;
    description = plain "";
    created_at = created_at;
  };
}

abbrev table : List EntryRow
table = row_of 7 1 30 ∷ row_of 3 2 10 ∷ row_of 5 1 20 ∷ row_of 9 1 20 ∷ []

abbrev in_twos : HistoryOptions
in_twos = record { page_size = some 2; from = none; to = none }

table-IsKeyed : IsKeyed table
unfolding IsKeyed IsUnused
table-IsKeyed = ground arith

table-CanBePaged : CanBePaged table 1 in_twos
unfolding CanBePaged history order_rows insert_row select AreSelected
table-CanBePaged = inl (refl, (refl, (refl, tt)))

drain-history_example :
    drain table 1 in_twos (suc (length (history table 1 in_twos))) new_iterator
    ≡ some (history table 1 in_twos)
drain-history_example = drain-history table 1 in_twos table-IsKeyed table-CanBePaged (omega arith)

abbrev noon : ℕ → Text
noon t = text "2026-01-01T12:00:00.000Z"

abbrev same : Text → Text
same s = s

noon-IsPlain : (t : ℕ) → IsPlain (noon t)
unfolding breaks
noon-IsPlain t = refl

short : CanBePaged table 1 five_hundred
unfolding CanBePaged history order_rows insert_row select AreSelected
short = inr (omega arith)

read_csv-export_csv_example :
    Option.map read_csv (export_csv noon (node_tag same none) table 1)
    ≡ some (columns ∷ map (cells noon same none) (history table 1 five_hundred) ++ ([] ∷ []) ∷ [])
read_csv-export_csv_example =
    read_csv-export_csv noon same none noon-IsPlain table 1 table-IsKeyed short

-- A row that was posted some microseconds past its millisecond.
abbrev late : EntryRow
late = record (row_of 5 1 20) { micros = 123 }

abbrev one_by_one : HistoryOptions
one_by_one = record { page_size = some 1; from = none; to = none }

late-IsKeyed : IsKeyed (late ∷ [])
unfolding IsKeyed IsUnused
late-IsKeyed = ground arith

late_history : history (late ∷ []) 1 one_by_one ≡ late ∷ []
unfolding history order_rows insert_row select
late_history = refl

drain-never_ends_example : drain (late ∷ []) 1 one_by_one 1000 new_iterator ≡ none
drain-never_ends_example =
    drain-never_ends (late ∷ []) 1 one_by_one late-IsKeyed late [] 1000 late_history refl refl
