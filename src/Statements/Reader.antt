-- ===== src/Statements/Reader.antt =====
-- A reader of comma-separated values (RFC 4180), as a machine that takes one character at a time. A line
-- feed or a carriage return outside quotes ends a row.

use vaultline.Prelude.{ℕ, List, [], ◌∷◌, ◌++◌, if◌then◌else◌, ◌==◌, ◌||◌, Bool, false}
use vaultline.Common.Texts.{Text}
use vaultline.Statements.Renderers.{comma, newline, quote}

pub data Kind : Type 0 where
  is_comma is_newline is_quote is_other : Kind

abbrev pub kind : ℕ → Kind
kind c =
    if c == quote
    then is_quote
    else if c == comma
    then is_comma
    else if c == newline || c == 13
    then is_newline
    else is_other

-- Outside quotes, inside them, or behind a quote that may end them.
pub data Mode : Type 0 where
  outside inside behind : Mode

-- The rows read, the cells of the row that is read, and the text of its last cell.
pub record Reader : Type 0 where
  pub mode : Mode
  pub cell : Text
  pub row : List Text
  pub rows : List (List Text)

abbrev pub end_cell : Reader → Reader
end_cell r = record r { mode = outside; cell = []; row = r.row ++ r.cell ∷ [] }

abbrev pub end_row : Reader → Reader
end_row r = record {
  mode = outside;
  cell = [];
  row = [];
  rows = r.rows ++ (r.row ++ r.cell ∷ []) ∷ [];
}

abbrev pub keep : ℕ → Mode → Reader → Reader
keep c mode r = record r { mode = mode; cell = r.cell ++ c ∷ [] }

abbrev pub turn : Mode → Reader → Reader
turn mode r = record r { mode = mode }

unfoldable pub on_kind : Mode → Kind → ℕ → Reader → Reader
on_kind inside is_quote c r = turn behind r
on_kind inside k c r = keep c inside r
on_kind behind is_quote c r = keep c inside r
on_kind outside is_quote c r = turn inside r
on_kind m is_comma c r = end_cell r
on_kind m is_newline c r = end_row r
on_kind m is_other c r = keep c outside r

abbrev pub reader : Mode → Text → List Text → List (List Text) → Reader
reader mode cell row rows = record { mode = mode; cell = cell; row = row; rows = rows }

unfoldable pub read_from : Reader → Text → Reader
unfolding on_kind
read_from r [] = r
read_from r (c ∷ s) = read_from (on_kind r.mode (kind c) c r) s

-- The rows of a text.
unfoldable pub read_csv : Text → List (List Text)
unfolding read_from
read_csv s = (end_row (read_from (reader outside [] [] []) s)).rows

-- A character that is not read as it stands outside quotes.
unfoldable pub breaks : Text → Bool
breaks [] = false
breaks (c ∷ s) = (c == quote || (c == comma || (c == newline || c == 13))) || breaks s
