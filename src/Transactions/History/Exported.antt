-- ===== src/Transactions/History/Exported.antt =====
-- The whole history as `TransactionHistoryService.iterate` hands it out.
use vaultline.Prelude.{
  ℕ, zero, suc, ◌+◌, ◌-◌, ◌≤◌, ◌≡◌, refl, ap, ◌∙◌, arith, Option, none, some, List, [], ◌∷◌,
  Bool-cases, inl, inr, length,
}
use vaultline.Transactions.History.{
  EntryRow, HistoryOptions, in_front, LedgerHistoryIterator, new_iterator, next, seen, drain,
  select, insert_row, order_rows, later, matches,
}
use vaultline.Transactions.History.Order.{IsKeyed}
use vaultline.Transactions.History.Selection.{length-select}
use vaultline.Transactions.History.Paging.{history, CanBePaged, drain-history}
use vaultline.Transactions.History.Export.{iterate_all, five_hundred}

length-insert_row :
    (r : EntryRow) (rows : List EntryRow) → length (insert_row r rows) ≡ suc (length rows)
unfolding insert_row
length-insert_row r [] = refl
length-insert_row r (s ∷ rows) = elim (Bool-cases (later s r)) [
  | inl e ↦ rw (e, length-insert_row r rows) refl
  | inr e ↦ rw e refl
]

length-order_rows : (rows : List EntryRow) → length (order_rows rows) ≡ length rows
unfolding order_rows
length-order_rows [] = refl
length-order_rows (r ∷ rows) =
    length-insert_row r (order_rows rows) ∙ ap suc (length-order_rows rows)

in_front_more :
    (r : EntryRow) (o o' : Option (List EntryRow)) (rows : List EntryRow)
    → ((rest : List EntryRow) → o ≡ some rest → o' ≡ some rest)
    → in_front r o ≡ some rows
    → in_front r o' ≡ some rows
in_front_more r none o' rows more h = cc
in_front_more r (some rest) o' rows more h = rw (more rest refl) h

module _ (table : List EntryRow) (account_id : ℕ) (options : HistoryOptions) where
  seen_more :
      (loop loop' : LedgerHistoryIterator → Option (List EntryRow))
      (outcome : Option EntryRow × LedgerHistoryIterator) (rows : List EntryRow)
      → ((it : LedgerHistoryIterator) (rest : List EntryRow)
          → loop it ≡ some rest
          → loop' it ≡ some rest)
      → seen table account_id options loop outcome ≡ some rows
      → seen table account_id options loop' outcome ≡ some rows
  unfolding seen
  seen_more loop loop' (none, it) rows more h = h
  seen_more loop loop' (some r, it) rows more h =
      in_front_more r (loop it) (loop' it) rows (more it) h

  -- A loop that is done is done with more fuel.
  drain_more :
      (more fuel : ℕ) (it : LedgerHistoryIterator) (rows : List EntryRow)
      → drain table account_id options fuel it ≡ some rows
      → drain table account_id options (fuel + more) it ≡ some rows
  unfolding drain
  drain_more more zero it rows h = cc
  drain_more more (suc fuel) it rows h =
      let shape : suc fuel + more ≡ suc (fuel + more) = omega arith in
      rw shape (
        seen_more (drain table account_id options fuel)
          (drain table account_id options (fuel + more)) (next table account_id options it) rows
          (drain_more more fuel) h)

-- An iterator with pages of five hundred hands out the whole history, in the calls that it is given, if it
-- fits in a page or its times are whole milliseconds.
pub iterate_all-history :
    (table : List EntryRow) (account_id : ℕ)
    → IsKeyed table
    → CanBePaged table account_id five_hundred
    → iterate_all table account_id ≡ some (history table account_id five_hundred)
unfolding iterate_all history
iterate_all-history table account_id keyed paged =
    let test = matches account_id five_hundred in
    let rows = history table account_id five_hundred in
    let fits : length rows ≤ length table =
      omega (arith, length-order_rows (select test table), length-select test table) in
    let fuel : suc (length rows) + (length table - length rows) ≡ suc (length table) =
      omega arith in
    rw fuel at (
      drain_more table account_id five_hundred (length table - length rows) (suc (length rows))
        new_iterator rows (drain-history table account_id five_hundred keyed paged (omega arith)))
