-- ===== src/Transactions/History/Paging.antt =====
-- When an iterator hands out the rows that one query for all of them would give, and when it does not end.
use mathlib.Core.Path.{subst}
use vaultline.Prelude.{
  ℕ, zero, suc, ◌≤◌, ◌≡◌, refl, sym, ap, ◌∙◌, arith, Bool, true, false, Option, none, some, List,
  [], ◌∷◌, ◌++◌, ◌==◌, ◌⊎◌, Bool-cases, inl, inr, ltb, if◌then◌else◌, length, take, drop,
  take-append-drop, length-take, append-nil, append_assoc, take-all,
}
use vaultline.Transactions.History.{
  EntryRow, later, Cursor, HistoryOptions, cursor_of, is_after, matches, select, order_rows,
  fetch_page, LedgerHistoryIterator, new_iterator, page_size_of, last_cursor, take_page, shift,
  load_next_page, refill, next, seen, drain,
}
use vaultline.Transactions.History.Selection.{
  select-all, select-select, select-narrower, select-past, last_cursor-split, select-AreSelected,
  middle-AreSelected, is_after_trans, AreSelected, select-kept, select-cursor_of, length-select,
}
use vaultline.Transactions.History.Order.{
  IsOrdered, IsKeyed, order_rows-IsOrdered, select-IsKeyed, select-IsOrdered, order_rows-select,
}

-- A list as an iterator: its first row, and the others.
abbrev pub uncons : List EntryRow → Option EntryRow × List EntryRow
uncons [] = (none, [])
uncons (r ∷ rows) = (some r, rows)

nonempty : (r : EntryRow) (rows : List EntryRow) → r ∷ rows ≡ [] → ⊥
nonempty r rows e = ground arith

no_row : (r : EntryRow) → none ≡ some r → ⊥
no_row r e = ground arith

same_row : (r s : EntryRow) → some r ≡ some s → r ≡ s
same_row r s e = ground arith

module _ (table : List EntryRow) (account_id : ℕ) (options : HistoryOptions) where
  -- All rows that the iterator is for, as one query.
  unfoldable pub history : List EntryRow
  unfolding order_rows select
  history = order_rows (select (matches account_id options) table)

  abbrev rows_after : Option Cursor → List EntryRow
  rows_after c = select (is_after c) history

  -- What an iterator has still to hand out.
  unfoldable pub remaining : LedgerHistoryIterator → List EntryRow
  unfolding select history
  remaining it = it.buffer ++ (if it.exhausted then [] else rows_after it.cursor)

  -- The times of the history's rows are whole milliseconds, or it is shorter than a page.
  unfoldable pub CanBePaged : Type 0
  CanBePaged =
      AreSelected (λ r. r.micros == 0) history ⊎ suc (length history) ≤ page_size_of options

  module _ (keyed : IsKeyed table) where
    history-IsOrdered : IsOrdered history
    unfolding history
    history-IsOrdered =
        order_rows-IsOrdered (select (matches account_id options) table)
          (select-IsKeyed (matches account_id options) table keyed)

    fetch_page-take :
        (after : Option Cursor) (limit : ℕ)
        → fetch_page table account_id after limit options ≡ take limit (rows_after after)
    unfolding fetch_page history
    fetch_page-take after limit = ap (take limit) (
        ap order_rows (select-select (matches account_id options) (is_after after) table)
        ∙ order_rows-select (is_after after) (select (matches account_id options) table)
            (select-IsKeyed (matches account_id options) table keyed))

    -- The rows after the last row of a piece of the history.
    rows_after-last :
        (c : Option Cursor) (first rest : List EntryRow) (last : EntryRow)
        → rows_after c ≡ first ++ last ∷ rest
        → AreSelected (λ r. r.micros == 0) history
        → rows_after (some (cursor_of last)) ≡ rest
    rows_after-last c first rest last split whole =
        let is_past_c : is_after c last ≡ true =
          middle-AreSelected (is_after c) first rest last
            (subst (AreSelected (is_after c)) split (select-AreSelected (is_after c) history)) in
        let last_whole : (last.micros == 0) ≡ true =
          middle-AreSelected (λ r. r.micros == 0) first rest last
            (subst (AreSelected (λ r. r.micros == 0)) split
              (select-kept (λ r. r.micros == 0) (is_after c) history whole)) in
        select-cursor_of last history last_whole
        ∙ sym (
            select-narrower (is_after c) (later last) history
              (λ s. is_after_trans c last s is_past_c))
        ∙ ap (select (later last)) split
        ∙ select-past last first rest
            (subst IsOrdered split (select-IsOrdered (is_after c) history history-IsOrdered))

    module _ (paged : CanBePaged) (some_rows : 1 ≤ page_size_of options) where
      -- A page, and the rows after it.
      page-rest :
          (c : Option Cursor) (page rest : List EntryRow)
          → rows_after c ≡ page ++ rest
          → 1 ≤ length page
          → AreSelected (λ r. r.micros == 0) history
          → page ++ rows_after (last_cursor c page) ≡ rows_after c
      unfolding last_cursor
      page-rest c [] rest split h whole = absurd (omega arith)
      page-rest c (r ∷ page) rest split h whole =
          let (first, last, cut, at_last) = last_cursor-split c r page in
          let behind =
            rows_after-last c first rest last
              (split ∙ ap (λ rows. rows ++ rest) cut ∙ append_assoc first (last ∷ []) rest) whole in
          ap (λ after. (r ∷ page) ++ rows_after after) at_last
          ∙ ap (λ rows. (r ∷ page) ++ rows) behind
          ∙ sym split

      remaining-take_page :
          (it : LedgerHistoryIterator)
          → it.exhausted ≡ false
          → remaining (
              take_page
                (page_size_of options)
                (take (page_size_of options) (rows_after it.cursor))
                it)
            ≡ rows_after it.cursor
      unfolding remaining take_page CanBePaged
      remaining-take_page it more =
          let size = page_size_of options in
          let rows = rows_after it.cursor in
          let counted = length-take size rows in
          elim (Bool-cases (ltb (length (take size rows)) size)) [
            | inl e ↦
                let few : length rows ≤ size = ground arith in
                rw (more, e) (append-nil _ ∙ take-all size rows few)
            | inr e ↦
                let full : 1 ≤ length (take size rows) = ground arith in
                elim paged [
                  | inl whole ↦
                      rw (more, e)
                        (page-rest it.cursor (take size rows) (drop size rows)
                          (sym (take-append-drop size rows)) full whole)
                  | inr short ↦
                      let fewer = length-select (is_after it.cursor) history in
                      absurd (ground arith)
                ]
          ]

      -- A page is fetched only where the iterator has nothing at hand; what remains is the same.
      remaining-refill :
          (buffer : List EntryRow) (exhausted : Bool) (it : LedgerHistoryIterator)
          → it.buffer ≡ buffer
          → it.exhausted ≡ exhausted
          → remaining (refill table account_id options buffer exhausted it) ≡ remaining it
      unfolding refill load_next_page remaining
      remaining-refill [] false it empty more =
          ap (λ page. remaining (take_page (page_size_of options) page it))
            (fetch_page-take it.cursor (page_size_of options))
          ∙ remaining-take_page it more
          ∙ rw (empty, more) refl
      remaining-refill [] true it empty more = refl
      remaining-refill (r ∷ rows) exhausted it full more = refl

      -- An iterator that has nothing at hand after that has come to the end.
      refill-exhausted :
          (buffer : List EntryRow) (exhausted : Bool) (it : LedgerHistoryIterator)
          → it.buffer ≡ buffer
          → it.exhausted ≡ exhausted
          → (refill table account_id options buffer exhausted it).buffer ≡ []
          → (refill table account_id options buffer exhausted it).exhausted ≡ true
      unfolding refill load_next_page take_page
      refill-exhausted [] false it empty more none_left = rw (more, none_left) (ground arith)
      refill-exhausted [] true it empty more none_left = more
      refill-exhausted (r ∷ rows) exhausted it full more none_left =
          absurd (nonempty r rows (sym full ∙ none_left))

      remaining-shift :
          (buffer : List EntryRow) (it : LedgerHistoryIterator)
          → it.buffer ≡ buffer
          → (buffer ≡ [] → it.exhausted ≡ true)
          → ((shift buffer it).0, remaining (shift buffer it).1) ≡ uncons (remaining it)
      unfolding shift remaining
      remaining-shift [] it empty end = rw (empty, end refl) refl
      remaining-shift (r ∷ rows) it full end = rw full refl

      -- Where no two rows of the table have the same key, a page has one row at least, and the history can
      -- be paged, `next` hands
      -- out the first of the rows that remain and leaves the others, whether it has to fetch a page or
      -- not; where none remain, it says so.
      pub next-uncons :
          (it : LedgerHistoryIterator)
          → ((next table account_id options it).0, remaining (next table account_id options it).1)
            ≡ uncons (remaining it)
      unfolding next
      next-uncons it =
          let it' = refill table account_id options it.buffer it.exhausted it in
          remaining-shift it'.buffer it' refl (refill-exhausted it.buffer it.exhausted it refl refl)
          ∙ ap uncons (remaining-refill it.buffer it.exhausted it refl refl)

      -- The loop sees the rows after the first.
      unfoldable GoesOn : (LedgerHistoryIterator → Option (List EntryRow)) → List EntryRow → Type 0
      GoesOn loop [] = Unit {0}
      GoesOn loop (r ∷ rows) =
          (it : LedgerHistoryIterator) → remaining it ≡ rows → loop it ≡ some rows

      seen-uncons :
          (loop : LedgerHistoryIterator → Option (List EntryRow))
          (outcome : Option EntryRow × LedgerHistoryIterator) (rows : List EntryRow)
          → (outcome.0, remaining outcome.1) ≡ uncons rows
          → GoesOn loop rows
          → seen table account_id options loop outcome ≡ some rows
      unfolding seen GoesOn
      seen-uncons loop (none, it) [] e goes = refl
      seen-uncons loop (none, it) (r ∷ rows) e goes = absurd (no_row r (ap (λ p. p.0) e))
      seen-uncons loop (some s, it) [] e goes = absurd (no_row s (sym (ap (λ p. p.0) e)))
      seen-uncons loop (some s, it) (r ∷ rows) e goes =
          rw (goes it (ap (λ p. p.1) e), same_row s r (ap (λ p. p.0) e)) refl

      -- With one call of `next` more than there are rows, the loop is done and has seen them all.
      drain-remaining :
          (rows : List EntryRow) (it : LedgerHistoryIterator)
          → remaining it ≡ rows
          → drain table account_id options (suc (length rows)) it ≡ some rows
      unfolding drain GoesOn
      drain-remaining [] it left =
          seen-uncons (drain table account_id options 0) (next table account_id options it) []
            (next-uncons it ∙ ap uncons left) tt
      drain-remaining (r ∷ rows) it left =
          seen-uncons (drain table account_id options (suc (length rows)))
            (next table account_id options it) (r ∷ rows) (next-uncons it ∙ ap uncons left)
            (drain-remaining rows)

      -- A new iterator over a table in which no two rows have the same key hands out every row of the
      -- account that the options let through, once and in the order of time and key, and then ends,
      -- where the times of these rows are whole milliseconds or they are fewer than a page has. The
      -- pages have one row at least; a loop of one call more than there are rows is enough.
      pub drain-history :
          drain table account_id options (suc (length history)) new_iterator ≡ some history
      unfolding remaining new_iterator
      drain-history =
          drain-remaining history new_iterator (select-all (is_after none) history (λ r. refl))

    -- `next` fetches the first row again.
    stuck :
        (r : EntryRow) (rest : List EntryRow) (it : LedgerHistoryIterator)
        → history ≡ r ∷ rest
        → page_size_of options ≡ 1
        → is_after it.cursor r ≡ true
        → it.buffer ≡ []
        → it.exhausted ≡ false
        → (next table account_id options it).0 ≡ some r
          × (next table account_id options it).1.cursor ≡ some (cursor_of r)
          × (next table account_id options it).1.buffer ≡ []
          × (next table account_id options it).1.exhausted ≡ false
    unfolding next refill load_next_page take_page shift last_cursor select
    stuck r rest it split one before empty more =
        rw (empty, more, fetch_page-take it.cursor (page_size_of options), one, split, before)
          (refl, refl, refl, refl)

    in_front_none :
        (loop : LedgerHistoryIterator → Option (List EntryRow))
        (outcome : Option EntryRow × LedgerHistoryIterator) (r : EntryRow)
        → outcome.0 ≡ some r
        → loop outcome.1 ≡ none
        → seen table account_id options loop outcome ≡ none
    unfolding seen
    in_front_none loop (none, it) r h k = absurd (no_row r h)
    in_front_none loop (some s, it) r h k = rw k refl

    stuck-drain :
        (r : EntryRow) (rest : List EntryRow) (fuel : ℕ) (it : LedgerHistoryIterator)
        → history ≡ r ∷ rest
        → page_size_of options ≡ 1
        → (r.micros == 0) ≡ false
        → is_after it.cursor r ≡ true
        → it.buffer ≡ []
        → it.exhausted ≡ false
        → drain table account_id options fuel it ≡ none
    unfolding drain
    stuck-drain r rest zero it split one cut before empty more = refl
    stuck-drain r rest (suc fuel) it split one cut before empty more =
        let (first, cursor, none_left, goes_on) = stuck r rest it split one before empty more in
        let it' = (next table account_id options it).1 in
        in_front_none (drain table account_id options fuel) (next table account_id options it) r
          first
          (stuck-drain r rest fuel it' split one cut (rw cursor (ground arith)) none_left goes_on)

    -- With pages of one row, a new iterator over a table in which no two rows have the same key never
    -- comes to an end if the first row of the history has microseconds past its millisecond: the loop
    -- is not done with any fuel.
    pub drain-never_ends :
        (r : EntryRow) (rest : List EntryRow) (fuel : ℕ)
        → history ≡ r ∷ rest
        → page_size_of options ≡ 1
        → (r.micros == 0) ≡ false
        → drain table account_id options fuel new_iterator ≡ none
    unfolding new_iterator
    drain-never_ends r rest fuel split one cut =
        stuck-drain r rest fuel new_iterator split one cut refl refl refl
