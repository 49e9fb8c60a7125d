-- ===== src/Transactions/History/ReadBack.antt =====
-- What a reader of comma-separated values finds in the export of transactions.controller.ts.
use vaultline.Transactions.History.PlainTexts.{
  IsPlain, number_text-IsPlain, type_text-IsPlain, tag-IsPlain, reference_text-IsPlain,
}
use mathlib.Core.Option
use vaultline.Prelude.{
  ℕ, ◌≡◌, refl, sym, ap, ◌∙◌, Option, some, List, [], ◌∷◌, ◌++◌, map, append_assoc, append-nil,
}
use vaultline.Common.Texts.{Text, text}
use vaultline.Core.References.{node_tag, reference_text}
use vaultline.Core.References.Digits.{number_text}
use vaultline.Statements.Renderers.{comma, newline, quote, double_quotes}
use vaultline.Statements.Reader.{outside, inside, end_row, on_kind, reader, read_from, read_csv}
use vaultline.Statements.Csv.{read_from-append, read_plain, read_quoted}
use vaultline.Transactions.History.{EntryRow}
use vaultline.Transactions.History.Order.{IsKeyed}
use vaultline.Transactions.History.Paging.{history, CanBePaged}
use vaultline.Transactions.History.Export.{
  type_text, description_text, five_hundred, column_line, entry_line, entry_lines, export_csv,
}
use vaultline.Transactions.History.Exported.{iterate_all-history}

-- A plain cell and the comma behind it.
read_cell :
    (v s : Text) (row : List Text) (rows : List (List Text))
    → IsPlain v
    → read_from (reader outside [] row rows) (v ++ comma ∷ s)
      ≡ read_from (reader outside [] (row ++ v ∷ []) rows) s
unfolding read_from on_kind
read_cell v s row rows h =
    read_from-append (reader outside [] row rows) v (comma ∷ s)
    ∙ ap (λ r. read_from r (comma ∷ s)) (read_plain v [] row rows h)

-- A quoted cell and the end of the line behind it.
read_last :
    (v s : Text) (row : List Text) (rows : List (List Text))
    → read_from (reader outside [] row rows) (quote ∷ (double_quotes v ++ quote ∷ newline ∷ s))
      ≡ read_from (reader outside [] [] (rows ++ (row ++ v ∷ []) ∷ [])) s
unfolding read_from on_kind
read_last v s row rows =
    read_from-append (reader inside [] row rows) (double_quotes v) (quote ∷ newline ∷ s)
    ∙ ap (λ r. read_from r (quote ∷ newline ∷ s)) (read_quoted v [] row rows)

-- Five plain cells and a quoted one.
read_line :
    (a b c d e v s : Text) (rows : List (List Text))
    → IsPlain a
    → IsPlain b
    → IsPlain c
    → IsPlain d
    → IsPlain e
    → read_from (reader outside [] [] rows) (
        (a
          ++ comma
            ∷ (b
                ++ comma
                  ∷ (c
                      ++ comma
                        ∷ (d
                            ++ comma
                              ∷ (e ++ comma ∷ quote ∷ (double_quotes v ++ quote ∷ newline ∷ []))))))
        ++ s)
      ≡ read_from (reader outside [] [] (rows ++ (a ∷ b ∷ c ∷ d ∷ e ∷ v ∷ []) ∷ [])) s
read_line a b c d e v s rows ha hb hc hd he = simp append_assoc (
    read_cell a _ [] rows ha
    ∙ read_cell b _ (a ∷ []) rows hb
    ∙ read_cell c _ (a ∷ b ∷ []) rows hc
    ∙ read_cell d _ (a ∷ b ∷ c ∷ []) rows hd
    ∙ read_cell e _ (a ∷ b ∷ c ∷ d ∷ []) rows he
    ∙ read_last v s (a ∷ b ∷ c ∷ d ∷ e ∷ []) rows)

-- The names of the columns.
pub columns : List Text
columns =
    text "created_at"
    ∷ text "reference"
    ∷ text "type"
    ∷ text "amount_minor"
    ∷ text "balance_after_minor"
    ∷ text "description"
    ∷ []

read_columns :
    (s : Text)
    → read_from (reader outside [] [] []) (column_line ++ s)
      ≡ read_from (reader outside [] [] (columns ∷ [])) s
unfolding read_from on_kind columns
read_columns s = refl

module _ (iso : ℕ → Text) (to_upper_case : Text → Text) (hostname : Option Text) where
  abbrev tag : Text
  tag = node_tag to_upper_case hostname

  -- What the export says of an entry, cell by cell.
  unfoldable pub cells : EntryRow → List Text
  cells r =
      iso r.entry.created_at
      ∷ reference_text tag r.entry.reference
      ∷ type_text r.entry.type
      ∷ number_text r.entry.amount_minor
      ∷ number_text r.entry.balance_after_minor
      ∷ description_text tag r.entry.description
      ∷ []

  module _ (times : (t : ℕ) → IsPlain (iso t)) where
    node_tag-IsPlain : IsPlain tag
    unfolding node_tag
    node_tag-IsPlain = tag-IsPlain _

    read_entry :
        (r : EntryRow) (s : Text) (rows : List (List Text))
        → read_from (reader outside [] [] rows) (entry_line iso tag r.entry ++ s)
          ≡ read_from (reader outside [] [] (rows ++ cells r ∷ [])) s
    unfolding entry_line cells
    read_entry r s rows =
        let e = r.entry in
        read_line (iso e.created_at) (reference_text tag e.reference) (type_text e.type)
          (number_text e.amount_minor) (number_text e.balance_after_minor)
          (description_text tag e.description) s rows (times e.created_at)
          (reference_text-IsPlain tag e.reference node_tag-IsPlain) (type_text-IsPlain e.type)
          (number_text-IsPlain e.amount_minor) (number_text-IsPlain e.balance_after_minor)

    read_entries :
        (entries : List EntryRow) (rows : List (List Text))
        → read_from (reader outside [] [] rows) (entry_lines iso tag entries)
          ≡ reader outside [] [] (rows ++ map cells entries)
    unfolding entry_lines read_from
    read_entries [] rows = ap (λ done. reader outside [] [] done) (sym (append-nil rows))
    read_entries (r ∷ entries) rows =
        read_entry r (entry_lines iso tag entries) rows
        ∙ read_entries entries (rows ++ cells r ∷ [])
        ∙ ap (λ done. reader outside [] [] done)
            (append_assoc rows (cells r ∷ []) (map cells entries))

    -- Where no two rows have the same key and the account has fewer than 500 rows, or the times of its
    -- rows are whole milliseconds, the export of an account is a text in which a reader of
    -- comma-separated values finds the names of the columns, then every entry of the account, once and in
    -- the order of time and key, cell by cell, whatever its description says, and an empty last line.
    -- The texts of times have no quote, comma or line end.
    pub read_csv-export_csv :
        (table : List EntryRow) (account_id : ℕ)
        → IsKeyed table
        → CanBePaged table account_id five_hundred
        → Option.map read_csv (export_csv iso tag table account_id)
          ≡ some (columns ∷ map cells (history table account_id five_hundred) ++ ([] ∷ []) ∷ [])
    unfolding export_csv read_csv
    read_csv-export_csv table account_id keyed paged =
        let rows = history table account_id five_hundred in
        rw (iterate_all-history table account_id keyed paged) (
          ap (λ r. some (end_row r).rows)
            (read_columns (entry_lines iso tag rows) ∙ read_entries rows (columns ∷ [])))
