-- ===== src/Statements/Renderers.antt =====
-- The renderers of modules/statements/statement.bridge.ts: CSV, plain text and JSON.
use vaultline.Prelude.{
  ℕ, zero, suc, ◌-◌, Bool, false, List, [], ◌∷◌, ◌++◌, map, if◌then◌else◌, ◌==◌, ◌||◌, length, max,
}
use vaultline.Common.Texts.{Text, text}
use vaultline.Statements.{StatementDocument, Conversions}

-- `Array.join`
unfoldable pub join : Text → List Text → Text
join separator [] = []
join separator (s ∷ []) = s
join separator (s ∷ t ∷ texts) = s ++ (separator ++ join separator (t ∷ texts))

abbrev pub comma : ℕ
comma = 44

abbrev pub newline : ℕ
newline = 10

abbrev pub quote : ℕ
quote = 34

-- `/[",\n]/.test(v)`
unfoldable pub needs_quotes : Text → Bool
needs_quotes [] = false
needs_quotes (c ∷ s) = (c == quote || (c == comma || c == newline)) || needs_quotes s

-- `v.replace(/"/g, '""')`
unfoldable pub double_quotes : Text → Text
double_quotes [] = []
double_quotes (c ∷ s) =
    let rest = double_quotes s in if c == quote then quote ∷ quote ∷ rest else c ∷ rest

unfoldable pub escape : Text → Text
unfolding needs_quotes double_quotes
escape v = if needs_quotes v then quote ∷ double_quotes v ++ quote ∷ [] else v

-- `CsvStatementRenderer.render`
unfoldable pub csv_row : List Text → Text
unfolding join escape
csv_row cells = join (comma ∷ []) (map escape cells)

unfoldable pub render_csv : StatementDocument → Text
unfolding join csv_row
render_csv d = join (newline ∷ []) (map csv_row (d.columns ∷ d.rows))

abbrev pub repeat : ℕ → ℕ → Text
repeat c zero = []
repeat c (suc n) = c ∷ repeat c n

unfoldable pub pad_end : ℕ → Text → Text
pad_end width s = s ++ repeat 32 (width - length s)

-- `row[i]`, of a column that the row has.
abbrev pub cell_at : ℕ → List Text → Text
cell_at i [] = []
cell_at zero (s ∷ cells) = s
cell_at (suc i) (s ∷ cells) = cell_at i cells

unfoldable pub widest : ℕ → ℕ → List (List Text) → ℕ
widest i width [] = width
widest i width (row ∷ rows) = max (length (cell_at i row)) (widest i width rows)

unfoldable pub widths_from : ℕ → List Text → List (List Text) → List ℕ
unfolding widest
widths_from i [] rows = []
widths_from i (column ∷ columns) rows =
    widest i (length column) rows ∷ widths_from (suc i) columns rows

unfoldable pub pad_cells : List ℕ → List Text → List Text
unfolding pad_end
pad_cells [] cells = cells
pad_cells (w ∷ widths) [] = []
pad_cells (w ∷ widths) (s ∷ cells) = pad_end w s ∷ pad_cells widths cells

abbrev pub labelled : Text × Text → Text
labelled (key, value) = key ++ text ": " ++ value

-- `PlainTextStatementRenderer.render`
unfoldable pub text_line : List ℕ → List Text → Text
unfolding join pad_cells
text_line widths cells = join (text "  ") (pad_cells widths cells)

unfoldable pub render_text : Conversions → StatementDocument → Text
unfolding join text_line widths_from
render_text conversions d =
    let widths = widths_from 0 d.columns d.rows in
    join (newline ∷ []) (
      conversions.to_upper_case d.title
      ∷ (map labelled d.header
          ++ ([] ∷ text_line widths d.columns ∷ join (text "  ") (map (repeat 45) widths) ∷ [])
          ++ map (text_line widths) d.rows
          ++ ([] ∷ [])
          ++ map labelled d.summary))

-- `Object.fromEntries(d.columns.map((c, i) => [c, row[i]]))`, for `JsonStatementRenderer`.
unfoldable pub named_cells : ℕ → List Text → List Text → List (Text × Text)
named_cells i [] row = []
named_cells i (column ∷ columns) row = (column, cell_at i row) ∷ named_cells (suc i) columns row

pub data StatementFormat : Type 0 where
  csv json plain : StatementFormat

-- `RENDERERS`. `stringify` writes the title, the header, the summary and the rows with their names.
unfoldable pub render :
    Conversions
    → (stringify : Text
        → List (Text × Text)
        → List (Text × Text)
        → List (List (Text × Text))
        → Text)
    → StatementFormat
    → StatementDocument
    → Text
unfolding render_csv render_text named_cells
render conversions stringify csv d = render_csv d
render conversions stringify json d =
    stringify d.title d.header d.summary (map (named_cells 0 d.columns) d.rows)
render conversions stringify plain d = render_text conversions d
