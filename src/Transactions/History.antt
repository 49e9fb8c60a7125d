-- ===== src/Transactions/History.antt =====
-- modules/transactions/ledger-history.iterator.ts and transaction-history.service.ts: an account's
-- entries, page by page. A query is the rows of the table that it selects, in its order, as many as it
-- takes; the table does not change while an iterator is used.
mod Tests
pub mod Order
pub mod Selection
pub mod Paging
pub mod Export
pub mod Exported
pub mod PlainTexts
pub mod ReadBack
use vaultline.Prelude.{
  ℕ, zero, suc, ◌+◌, Bool, true, false, Option, none, some, List, [], ◌∷◌, if◌then◌else◌, ◌==◌, ltb,
  ◌*◌, leb, ◌&&◌, ◌||◌, not, length, take, min,
}
use vaultline.Entities.{LedgerEntry}

-- A row of `ledger_entries`: its primary key, the microseconds of `created_at` past its millisecond,
-- which the `Date` of the entity does not have, and the entry.
pub record EntryRow : Type 0 where
  pub id : ℕ
  pub micros : ℕ
  pub entry : LedgerEntry

pub record Cursor : Type 0 where
  pub created_at : ℕ
  pub id : ℕ

pub record HistoryOptions : Type 0 where
  pub page_size : Option ℕ
  pub from : Option ℕ
  pub to : Option ℕ

abbrev pub cursor_of : EntryRow → Cursor
cursor_of r = record { created_at = r.entry.created_at; id = r.id }

-- The column `created_at`, in microseconds.
abbrev pub column_time : EntryRow → ℕ
column_time r = r.entry.created_at * 1000 + r.micros

abbrev pub is_later : ℕ → ℕ → EntryRow → Bool
is_later time id r = ltb time (column_time r) || ((time == column_time r) && ltb id r.id)

-- `(e.created_at, e.id) > (:createdAt, :id)`: the cursor has the milliseconds of a `Date`.
abbrev pub is_past : Cursor → EntryRow → Bool
is_past c r = is_later (c.created_at * 1000) c.id r

-- The order of the query: the column and then the key.
abbrev pub later : EntryRow → EntryRow → Bool
later r s = is_later (column_time r) r.id s

abbrev pub is_after : Option Cursor → EntryRow → Bool
is_after none r = true
is_after (some c) r = is_past c r

abbrev pub at_least : Option ℕ → ℕ → Bool
at_least none t = true
at_least (some from) t = leb (from * 1000) t

abbrev pub is_before : Option ℕ → ℕ → Bool
is_before none t = true
is_before (some to) t = ltb t (to * 1000)

-- The conditions of the query but the cursor's.
abbrev pub matches : ℕ → HistoryOptions → EntryRow → Bool
matches account_id options r =
    (r.entry.account_id == account_id)
    && (at_least options.from (column_time r) && is_before options.to (column_time r))

-- `where`
unfoldable pub select : (EntryRow → Bool) → List EntryRow → List EntryRow
select test [] = []
select test (r ∷ rows) = let rest = select test rows in if test r then r ∷ rest else rest

-- `orderBy('e.created_at', 'ASC').addOrderBy('e.id', 'ASC')`
unfoldable pub insert_row : EntryRow → List EntryRow → List EntryRow
insert_row r [] = r ∷ []
insert_row r (s ∷ rows) = if later s r then s ∷ insert_row r rows else r ∷ s ∷ rows

unfoldable pub order_rows : List EntryRow → List EntryRow
unfolding insert_row
order_rows [] = []
order_rows (r ∷ rows) = insert_row r (order_rows rows)

-- `TypeOrmEntryFetcher.fetchPage`
unfoldable pub fetch_page : List EntryRow → ℕ → Option Cursor → ℕ → HistoryOptions → List EntryRow
unfolding select order_rows
fetch_page table account_id after limit options =
    take limit (order_rows (select (λ r. matches account_id options r && is_after after r) table))

pub record LedgerHistoryIterator : Type 0 where
  pub buffer : List EntryRow
  pub cursor : Option Cursor
  pub exhausted : Bool
  pub pages_fetched : ℕ

pub new_iterator : LedgerHistoryIterator
new_iterator = record { buffer = []; cursor = none; exhausted = false; pages_fetched = 0 }

abbrev pub page_size_of : HistoryOptions → ℕ
page_size_of options = elim options.page_size [ none ↦ 200 | some n ↦ n ]

-- The cursor at the last row of a page, if it has one.
unfoldable pub last_cursor : Option Cursor → List EntryRow → Option Cursor
last_cursor old [] = old
last_cursor old (r ∷ rows) = last_cursor (some (cursor_of r)) rows

-- `loadNextPage`, with the page that was fetched.
unfoldable pub take_page : ℕ → List EntryRow → LedgerHistoryIterator → LedgerHistoryIterator
unfolding last_cursor
take_page size page it = record {
  buffer = page;
  cursor = last_cursor it.cursor page;
  exhausted = it.exhausted || ltb (length page) size;
  pages_fetched = it.pages_fetched + 1;
}

-- `this.buffer.shift()`, and the answer of `next`.
unfoldable pub shift :
    List EntryRow → LedgerHistoryIterator → Option EntryRow × LedgerHistoryIterator
shift [] it = (none, it)
shift (r ∷ rows) it = (some r, record it { buffer = rows })

abbrev pub in_front : EntryRow → Option (List EntryRow) → Option (List EntryRow)
in_front r none = none
in_front r (some rows) = some (r ∷ rows)

module _ (table : List EntryRow) (account_id : ℕ) (options : HistoryOptions) where
  unfoldable pub load_next_page : LedgerHistoryIterator → LedgerHistoryIterator
  unfolding take_page fetch_page
  load_next_page it =
      take_page (page_size_of options)
        (fetch_page table account_id it.cursor (page_size_of options) options) it

  -- `if (this.buffer.length === 0 && !this.exhausted) await this.loadNextPage()`
  unfoldable pub refill : List EntryRow → Bool → LedgerHistoryIterator → LedgerHistoryIterator
  unfolding load_next_page
  refill [] false it = load_next_page it
  refill buffer exhausted it = it

  unfoldable pub next : LedgerHistoryIterator → Option EntryRow × LedgerHistoryIterator
  unfolding refill shift
  next it = let it' = refill it.buffer it.exhausted it in shift it'.buffer it'

  -- `for await (const entry of iterator)`: what the loop has seen when it is done, if the fuel is enough.
  unfoldable pub seen :
      (LedgerHistoryIterator → Option (List EntryRow))
      → Option EntryRow × LedgerHistoryIterator
      → Option (List EntryRow)
  seen loop (none, it) = some []
  seen loop (some r, it) = in_front r (loop it)

  unfoldable pub drain : ℕ → LedgerHistoryIterator → Option (List EntryRow)
  unfolding next seen
  drain zero it = none
  drain (suc fuel) it = seen (drain fuel) (next it)

-- `recent`: the newest entries first, a hundred at most. A limit that is not given is 20.
unfoldable pub newest_first : List EntryRow → List EntryRow → List EntryRow
newest_first rows [] = rows
newest_first rows (r ∷ more) = newest_first (r ∷ rows) more

unfoldable pub recent : List EntryRow → ℕ → ℕ → List EntryRow
unfolding newest_first order_rows select
recent table account_id limit =
    take (min limit 100)
      (newest_first [] (order_rows (select (λ r. r.entry.account_id == account_id) table)))
