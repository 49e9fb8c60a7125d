-- ===== src/Statements/Csv.antt =====
-- What a reader of comma-separated values (RFC 4180) finds in a statement.
use vaultline.Prelude.{
  ℕ, ◌≡◌, ◌≢◌, refl, sym, ap, ◌∙◌, arith, Bool, true, false, List, [], ◌∷◌, ◌++◌, map, ◌==◌, ◌||◌,
  Bool-cases, inl, inr, append_assoc, append-nil,
}
use vaultline.Common.Texts.{Text}
use vaultline.Statements.Reader.{
  Kind, is_comma, is_newline, is_quote, is_other, kind, Mode, outside, inside, behind, Reader,
  end_row, keep, on_kind, reader, read_from, read_csv, breaks,
}
use vaultline.Statements.{StatementDocument}
use vaultline.Statements.Renderers.{
  join, comma, newline, quote, needs_quotes, double_quotes, escape, csv_row, render_csv,
}

pub read_from-append :
    (r : Reader) (s t : Text) → read_from r (s ++ t) ≡ read_from (read_from r s) t
unfolding read_from
read_from-append r [] t = refl
read_from-append r (c ∷ s) t = read_from-append (on_kind r.mode (kind c) c r) s t

or-left : (a b : Bool) → (a || b) ≡ false → a ≡ false
or-left a b h = ground arith

or-right : (a b : Bool) → (a || b) ≡ false → b ≡ false
or-right a b h = ground arith

plain_kind :
    (c : ℕ) → (c == quote || (c == comma || (c == newline || c == 13))) ≡ false → kind c ≡ is_other
plain_kind c h = ground arith

-- A text without special characters is read as it stands.
pub read_plain :
    (v cell : Text) (row : List Text) (rows : List (List Text))
    → breaks v ≡ false
    → read_from (reader outside cell row rows) v ≡ reader outside (cell ++ v) row rows
unfolding read_from breaks on_kind
read_plain [] cell row rows h = ap (λ s. reader outside s row rows) (sym (append-nil cell))
read_plain (c ∷ v) cell row rows h =
    let other = plain_kind c (or-left _ (breaks v) h) in
    rw other (
      read_plain v (cell ++ c ∷ []) row rows (or-right _ (breaks v) h)
      ∙ ap (λ s. reader outside s row rows) (append_assoc cell (c ∷ []) v))

on_kind-inside :
    (k : Kind) (c : ℕ) (r : Reader) → k ≢ is_quote → on_kind inside k c r ≡ keep c inside r
unfolding on_kind
on_kind-inside is_comma c r h = refl
on_kind-inside is_newline c r h = refl
on_kind-inside is_quote c r h = absurd (h refl)
on_kind-inside is_other c r h = refl

not_quote : (c : ℕ) → (c == quote) ≡ false → kind c ≢ is_quote
not_quote c h = ground arith

-- Inside quotes, every character is kept, and a doubled quote is one.
pub read_quoted :
    (v cell : Text) (row : List Text) (rows : List (List Text))
    → read_from (reader inside cell row rows) (double_quotes v) ≡ reader inside (cell ++ v) row rows
unfolding read_from double_quotes on_kind
read_quoted [] cell row rows = ap (λ s. reader inside s row rows) (sym (append-nil cell))
read_quoted (c ∷ v) cell row rows =
    let rest =
      read_quoted v (cell ++ c ∷ []) row rows
      ∙ ap (λ s. reader inside s row rows) (append_assoc cell (c ∷ []) v) in
    elim (Bool-cases (c == quote)) [
      | inl e ↦
          let same : c ≡ quote = ground arith in
          rw e (
            ap (λ q. read_from (reader inside (cell ++ q ∷ []) row rows) (double_quotes v))
              (sym same)
            ∙ rest)
      | inr e ↦ rw e (
          ap (λ r. read_from r (double_quotes v))
            (on_kind-inside (kind c) c (reader inside cell row rows) (not_quote c e))
          ∙ rest)
    ]

-- Outside or behind: where a cell may end.
unfoldable may_end : Bool → Mode
may_end true = behind
may_end false = outside

-- A carriage return in a text.
unfoldable pub has_return : Text → Bool
has_return [] = false
has_return (c ∷ s) = (c == 13) || has_return s

abbrev pub IsReadable : Text → Type 0
IsReadable v = has_return v ≡ false

plain_cell : (v : Text) → needs_quotes v ≡ false → has_return v ≡ false → breaks v ≡ false
unfolding needs_quotes has_return breaks
plain_cell [] h k = refl
plain_cell (c ∷ v) h k = ground (arith, plain_cell v)

unfoldable pub AreReadable : List Text → Type 0
AreReadable [] = Unit {0}
AreReadable (v ∷ cells) = IsReadable v × AreReadable cells

-- A cell is read as the text that was written.
read_escape :
    (v : Text) (row : List Text) (rows : List (List Text))
    → IsReadable v
    → read_from (reader outside [] row rows) (escape v)
      ≡ reader (may_end (needs_quotes v)) v row rows
unfolding read_from escape on_kind may_end
read_escape v row rows readable = elim (Bool-cases (needs_quotes v)) [
  | inl e ↦ rw e (
      read_from-append (reader inside [] row rows) (double_quotes v) (quote ∷ [])
      ∙ ap (λ r. read_from r (quote ∷ [])) (read_quoted v [] row rows))
  | inr e ↦ rw e (read_plain v [] row rows (plain_cell v e readable))
]

-- Where a cell may end, a comma ends it, and a line's end ends the row.
at_comma :
    (b : Bool) (v s : Text) (row : List Text) (rows : List (List Text))
    → read_from (reader (may_end b) v row rows) (comma ∷ s)
      ≡ read_from (reader outside [] (row ++ v ∷ []) rows) s
unfolding read_from on_kind may_end
at_comma true v s row rows = refl
at_comma false v s row rows = refl

at_newline :
    (b : Bool) (v s : Text) (row : List Text) (rows : List (List Text))
    → read_from (reader (may_end b) v row rows) (newline ∷ s)
      ≡ read_from (reader outside [] [] (rows ++ (row ++ v ∷ []) ∷ [])) s
unfolding read_from on_kind may_end
at_newline true v s row rows = refl
at_newline false v s row rows = refl

-- A row that is written is read up to its last cell.
abbrev ReadsRow : Text → List Text → List (List Text) → Text → List Text → Type 0
ReadsRow written row rows v cells =
    (b : Bool) × (last : Text) × (front : List Text) × (read_from (reader outside [] row rows)
        written
      ≡ reader (may_end b) last front rows)
    × (front ++ last ∷ [] ≡ row ++ v ∷ cells)

read_row :
    (v : Text) (cells row : List Text) (rows : List (List Text))
    → AreReadable (v ∷ cells)
    → ReadsRow (csv_row (v ∷ cells)) row rows v cells
unfolding csv_row join AreReadable
read_row v [] row rows (own, h) = (needs_quotes v, v, row, read_escape v row rows own, refl)
read_row v (w ∷ cells) row rows (own, h) =
    let written = join (comma ∷ []) (map escape (w ∷ cells)) in
    let (b, last, front, read, whole) = read_row w cells (row ++ v ∷ []) rows h in
    (
      b,
      last,
      front,
      read_from-append (reader outside [] row rows) (escape v) (comma ∷ written)
          ∙ ap (λ r. read_from r (comma ∷ written)) (read_escape v row rows own)
          ∙ at_comma (needs_quotes v) v written row rows
          ∙ read,
      whole ∙ append_assoc row (v ∷ []) (w ∷ cells),
    )

-- Every row has a cell, and no cell has a carriage return.
unfoldable pub HaveCells : List (List Text) → Type 0
HaveCells [] = Unit {0}
HaveCells ([] ∷ rows) = ⊥
HaveCells ((v ∷ cells) ∷ rows) = AreReadable (v ∷ cells) × HaveCells rows

end_row-may_end :
    (b : Bool) (last : Text) (front : List Text) (rows : List (List Text))
    → (end_row (reader (may_end b) last front rows)).rows ≡ rows ++ (front ++ last ∷ []) ∷ []
end_row-may_end b last front rows = refl

read_rows :
    (v : Text) (cells : List Text) (more rows : List (List Text))
    → AreReadable (v ∷ cells)
    → HaveCells more
    → (end_row (
        read_from
          (reader outside [] [] rows)
          (join (newline ∷ []) (map csv_row ((v ∷ cells) ∷ more))))).rows
      ≡ rows ++ (v ∷ cells) ∷ more
unfolding join HaveCells
read_rows v cells [] rows own h =
    let (b, last, front, read, whole) = read_row v cells [] rows own in
    ap (λ r. (end_row r).rows) read ∙ ap (λ row. rows ++ row ∷ []) whole
read_rows v cells ([] ∷ more) rows own h = absurd h
read_rows v cells ((w ∷ others) ∷ more) rows own (next, h) =
    let (b, last, front, read, whole) = read_row v cells [] rows own in
    let written = join (newline ∷ []) (map csv_row ((w ∷ others) ∷ more)) in
    ap (λ r. (end_row r).rows)
      (read_from-append (reader outside [] [] rows) (csv_row (v ∷ cells)) (newline ∷ written)
        ∙ ap (λ r. read_from r (newline ∷ written)) read
        ∙ at_newline b last written front rows
        ∙ ap (λ row. read_from (reader outside [] [] (rows ++ row ∷ [])) written) whole)
    ∙ read_rows w others more (rows ++ (v ∷ cells) ∷ []) next h
    ∙ append_assoc rows ((v ∷ cells) ∷ []) ((w ∷ others) ∷ more)

read_written :
    (columns : List Text) (rows : List (List Text))
    → HaveCells (columns ∷ rows)
    → (end_row (
        read_from
          (reader outside [] [] [])
          (join (newline ∷ []) (map csv_row (columns ∷ rows))))).rows
      ≡ columns ∷ rows
unfolding HaveCells
read_written [] rows h = absurd h
read_written (v ∷ cells) rows (own, h) = read_rows v cells rows [] own h

-- A reader of comma-separated values for which a line feed and a carriage return end a row finds the columns
-- and the rows of the document in the text that is written, cell by cell, whatever quotes, commas
-- and line feeds the cells have. The columns and each row have one cell at least, and no cell has a carriage
-- return: the writer does not put one in quotes.
pub read_csv-render_csv :
    (d : StatementDocument)
    → HaveCells (d.columns ∷ d.rows)
    → read_csv (render_csv d) ≡ d.columns ∷ d.rows
unfolding read_csv render_csv
read_csv-render_csv d h = read_written d.columns d.rows h
