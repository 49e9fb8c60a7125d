-- ===== src/Transactions/History/Selection.antt =====
-- Selections of rows: one after the other, by two cursors, and past a row of an ordered list.
use vaultline.Prelude.{
  ◌*◌, ◌==◌, ◌+◌, ◌≤◌, length, ap, ◌≡◌, refl, arith, Bool, true, false, Option, none, some, List,
  [], ◌∷◌, ◌++◌, Bool-cases, inl, inr, ◌&&◌,
}
use vaultline.Transactions.History.{
  EntryRow, is_later, later, Cursor, cursor_of, is_after, select, last_cursor,
}
use vaultline.Transactions.History.Order.{AreLater, IsOrdered}

pub select-all :
    (test : EntryRow → Bool) (rows : List EntryRow)
    → ((r : EntryRow) → test r ≡ true)
    → select test rows ≡ rows
unfolding select
select-all test [] h = refl
select-all test (r ∷ rows) h = rw (h r, select-all test rows h) refl

-- To select twice.
pub select-select :
    (p q : EntryRow → Bool) (rows : List EntryRow)
    → select (λ r. p r && q r) rows ≡ select q (select p rows)
unfolding select
select-select p q [] = refl
select-select p q (r ∷ rows) = elim (Bool-cases (p r)) [
  | inl e ↦ rw (e, select-select p q rows) refl
  | inr e ↦ rw (e, select-select p q rows) refl
]

-- The narrower of two cursors.
pub select-narrower :
    (p q : EntryRow → Bool) (rows : List EntryRow)
    → ((r : EntryRow) → q r ≡ true → p r ≡ true)
    → select q (select p rows) ≡ select q rows
unfolding select
select-narrower p q [] h = refl
select-narrower p q (r ∷ rows) h = elim (Bool-cases (q r)) [
  | inl e ↦ rw (h r e, e, select-narrower p q rows h) refl
  | inr e ↦ elim (Bool-cases (p r)) [
    | inl k ↦ rw (k, e, select-narrower p q rows h) refl
    | inr k ↦ rw (k, e, select-narrower p q rows h) refl
  ]
]

pub all_later :
    (r : EntryRow) (rows : List EntryRow) → AreLater r rows → select (later r) rows ≡ rows
unfolding AreLater select
all_later r [] h = refl
all_later r (s ∷ rows) (h, hs) = rw (h, all_later r rows hs) refl

pub later_than_middle :
    (s r : EntryRow) (first rest : List EntryRow)
    → AreLater s (first ++ r ∷ rest)
    → later s r ≡ true
unfolding AreLater
later_than_middle s r [] rest (h, hs) = h
later_than_middle s r (t ∷ first) rest (h, hs) = later_than_middle s r first rest hs

-- Past a row of an ordered list stand the rows behind it.
pub select-past :
    (r : EntryRow) (first rest : List EntryRow)
    → IsOrdered (first ++ r ∷ rest)
    → select (later r) (first ++ r ∷ rest) ≡ rest
unfolding IsOrdered select
select-past r [] rest (below, h) =
    let own : later r r ≡ false = ground arith in rw (own, all_later r rest below) refl
select-past r (s ∷ first) rest (below, h) =
    let front = later_than_middle s r first rest below in
    let behind : later r s ≡ false = ground arith in rw (behind, select-past r first rest h) refl

-- The last row of a list that has one.
pub last_cursor-split :
    (old : Option Cursor) (r : EntryRow) (rows : List EntryRow)
    → (first : List EntryRow) × (last : EntryRow) × (r ∷ rows ≡ first ++ last ∷ [])
      × (last_cursor old (r ∷ rows) ≡ some (cursor_of last))
unfolding last_cursor
last_cursor-split old r [] = ([], r, refl, refl)
last_cursor-split old r (s ∷ rows) =
    let (first, last, split, at_last) = last_cursor-split (some (cursor_of r)) s rows in
    (r ∷ first, last, rw split refl, at_last)

unfoldable pub AreSelected : (EntryRow → Bool) → List EntryRow → Type 0
AreSelected test [] = Unit {0}
AreSelected test (r ∷ rows) = (test r ≡ true) × AreSelected test rows

pub select-AreSelected :
    (test : EntryRow → Bool) (rows : List EntryRow) → AreSelected test (select test rows)
unfolding select AreSelected
select-AreSelected test [] = tt
select-AreSelected test (r ∷ rows) = elim (Bool-cases (test r)) [
  | inl e ↦ rw e (e, select-AreSelected test rows)
  | inr e ↦ rw e (select-AreSelected test rows)
]

pub middle-AreSelected :
    (test : EntryRow → Bool) (first rest : List EntryRow) (r : EntryRow)
    → AreSelected test (first ++ r ∷ rest)
    → test r ≡ true
unfolding AreSelected
middle-AreSelected test [] rest r (h, hs) = h
middle-AreSelected test (s ∷ first) rest r (h, hs) = middle-AreSelected test first rest r hs

pub is_after_trans :
    (c : Option Cursor) (r s : EntryRow)
    → is_after c r ≡ true
    → later r s ≡ true
    → is_after c s ≡ true
is_after_trans none r s h k = refl
is_after_trans (some c) r s h k = ground arith

pub length-select :
    (test : EntryRow → Bool) (rows : List EntryRow) → length (select test rows) ≤ length rows
unfolding select
length-select test [] = omega arith
length-select test (r ∷ rows) = elim (Bool-cases (test r)) [
  | inl e ↦ rw e (omega (arith, length-select test rows))
  | inr e ↦ rw e (omega (arith, length-select test rows))
]

pub select-kept :
    (p q : EntryRow → Bool) (rows : List EntryRow)
    → AreSelected p rows
    → AreSelected p (select q rows)
unfolding select AreSelected
select-kept p q [] h = tt
select-kept p q (r ∷ rows) (h, hs) = elim (Bool-cases (q r)) [
  | inl e ↦ rw e (h, select-kept p q rows hs)
  | inr e ↦ rw e (select-kept p q rows hs)
]

-- The cursor at a row whose time is a whole millisecond lets the rows after it through.
pub select-cursor_of :
    (r : EntryRow) (rows : List EntryRow)
    → (r.micros == 0) ≡ true
    → select (is_after (some (cursor_of r))) rows ≡ select (later r) rows
select-cursor_of r rows whole =
    let exact : r.entry.created_at * 1000 ≡ r.entry.created_at * 1000 + r.micros = ground arith in
    ap (λ time. select (is_later time r.id) rows) exact
