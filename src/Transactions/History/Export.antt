-- ===== src/Transactions/History/Export.antt =====
-- `exportCsv` of modules/transactions/transactions.controller.ts, and the texts that it and a statement
-- show of an entry. `toISOString` is a parameter, and the tag of the node that made the references.
use mathlib.Core.Option
use vaultline.Prelude.{ℕ, suc, Option, none, some, List, [], ◌∷◌, ◌++◌, length}
use vaultline.Common.Texts.{Text, text}
use vaultline.Entities.{
  LedgerEntry, LedgerEntryType, deposit, withdrawal, transfer_in, transfer_out, fee, interest,
  reversal, Description, plain, transfer_between, reversal_of,
}
use vaultline.Core.References.{reference_text}
use vaultline.Core.References.Digits.{number_text}
use vaultline.Statements.Renderers.{comma, quote, newline, double_quotes}
use vaultline.Transactions.History.{EntryRow, HistoryOptions, new_iterator, drain}

-- The values of the enumeration.
abbrev pub type_text : LedgerEntryType → Text
type_text deposit = text "DEPOSIT"
type_text withdrawal = text "WITHDRAWAL"
type_text transfer_in = text "TRANSFER_IN"
type_text transfer_out = text "TRANSFER_OUT"
type_text fee = text "FEE"
type_text interest = text "INTEREST"
type_text reversal = text "REVERSAL"

unfoldable pub description_text : (node_tag : Text) → Description → Text
unfolding reference_text
description_text node_tag (plain s) = text s
description_text node_tag (transfer_between from to) =
    text "Transfer " ++ (text from ++ (text " -> " ++ text to))
description_text node_tag (reversal_of r) = text "REVERSAL_OF:" ++ reference_text node_tag r

-- `pageSize: 500`, from the first entry to the last.
abbrev pub five_hundred : HistoryOptions
five_hundred = record { page_size = some 500; from = none; to = none }

-- All that an iterator hands out. It is called at most once more than the table has rows.
unfoldable pub iterate_all : List EntryRow → ℕ → Option (List EntryRow)
unfolding drain new_iterator
iterate_all table account_id = drain table account_id five_hundred (suc (length table)) new_iterator

abbrev pub column_line : Text
column_line =
    text "created_at,reference,type,amount_minor,balance_after_minor,description" ++ newline ∷ []

module _ (iso : ℕ → Text) (node_tag : Text) where
  unfoldable pub entry_line : LedgerEntry → Text
  unfolding reference_text number_text double_quotes description_text
  entry_line e =
      iso e.created_at
      ++ comma
        ∷ (reference_text node_tag e.reference
            ++ comma
              ∷ (type_text e.type
                  ++ comma
                    ∷ (number_text e.amount_minor
                        ++ comma
                          ∷ (number_text e.balance_after_minor
                              ++ comma
                                ∷ quote
                                ∷ (double_quotes (description_text node_tag e.description)
                                    ++ quote ∷ newline ∷ [])))))

  unfoldable pub entry_lines : List EntryRow → Text
  unfolding entry_line
  entry_lines [] = []
  entry_lines (r ∷ rows) = entry_line r.entry ++ entry_lines rows

  -- `exportCsv`: the text that is sent.
  unfoldable pub export_csv : List EntryRow → ℕ → Option Text
  unfolding iterate_all
  export_csv table account_id =
      Option.map (λ rows. column_line ++ entry_lines rows) (iterate_all table account_id)
