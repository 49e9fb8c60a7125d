-- ===== src/Transactions/History/Order.antt =====
-- The order of the rows of a query, and the rows after a cursor.
use vaultline.Prelude.{
  ℕ, ◌≡◌, ◌≢◌, refl, sym, arith, Bool, true, false, List, [], ◌∷◌, Bool-cases, inl, inr,
}
use vaultline.Transactions.History.{EntryRow, later, select, insert_row, order_rows}

-- Every row is later than `r`.
unfoldable pub AreLater : EntryRow → List EntryRow → Type 0
AreLater r [] = Unit {0}
AreLater r (s ∷ rows) = (later r s ≡ true) × AreLater r rows

unfoldable pub IsOrdered : List EntryRow → Type 0
IsOrdered [] = Unit {0}
IsOrdered (r ∷ rows) = AreLater r rows × IsOrdered rows

-- No row has the key `id`; no two rows have the same key.
unfoldable pub IsUnused : ℕ → List EntryRow → Type 0
IsUnused id [] = Unit {0}
IsUnused id (r ∷ rows) = (r.id ≢ id) × IsUnused id rows

unfoldable pub IsKeyed : List EntryRow → Type 0
IsKeyed [] = Unit {0}
IsKeyed (r ∷ rows) = IsUnused r.id rows × IsKeyed rows

later_trans : (r s t : EntryRow) → later r s ≡ true → later s t ≡ true → later r t ≡ true
later_trans r s t h k = ground arith

AreLater-trans :
    (r s : EntryRow) (rows : List EntryRow) → later r s ≡ true → AreLater s rows → AreLater r rows
unfolding AreLater
AreLater-trans r s [] h k = tt
AreLater-trans r s (t ∷ rows) h (k, ks) = (later_trans r s t h k, AreLater-trans r s rows h ks)

insert_row-AreLater :
    (r s : EntryRow) (rows : List EntryRow)
    → later r s ≡ true
    → AreLater r rows
    → AreLater r (insert_row s rows)
unfolding AreLater insert_row
insert_row-AreLater r s [] h k = (h, tt)
insert_row-AreLater r s (t ∷ rows) h (k, ks) = elim (Bool-cases (later t s)) [
  | inl e ↦ rw e (k, insert_row-AreLater r s rows h ks)
  | inr e ↦ rw e (h, (k, ks))
]

-- Rows with different keys are in one order or the other.
later-total : (r s : EntryRow) → s.id ≢ r.id → later s r ≡ false → later r s ≡ true
later-total r s h k = ground arith

insert_row-IsOrdered :
    (r : EntryRow) (rows : List EntryRow)
    → IsUnused r.id rows
    → IsOrdered rows
    → IsOrdered (insert_row r rows)
unfolding AreLater IsOrdered IsUnused insert_row
insert_row-IsOrdered r [] u h = (tt, tt)
insert_row-IsOrdered r (s ∷ rows) (differs, u) (below, h) = elim (Bool-cases (later s r)) [
  | inl e ↦ rw e (insert_row-AreLater s r rows e below, insert_row-IsOrdered r rows u h)
  | inr e ↦
      let first = later-total r s differs e in
      rw e ((first, AreLater-trans r s rows first below), (below, h))
]

insert_row-IsUnused :
    (id : ℕ) (r : EntryRow) (rows : List EntryRow)
    → r.id ≢ id
    → IsUnused id rows
    → IsUnused id (insert_row r rows)
unfolding IsUnused insert_row
insert_row-IsUnused id r [] h u = (h, tt)
insert_row-IsUnused id r (s ∷ rows) h (k, u) = elim (Bool-cases (later s r)) [
  | inl e ↦ rw e (k, insert_row-IsUnused id r rows h u)
  | inr e ↦ rw e (h, (k, u))
]

order_rows-IsUnused :
    (id : ℕ) (rows : List EntryRow) → IsUnused id rows → IsUnused id (order_rows rows)
unfolding IsUnused order_rows
order_rows-IsUnused id [] u = tt
order_rows-IsUnused id (r ∷ rows) (h, u) =
    insert_row-IsUnused id r (order_rows rows) h (order_rows-IsUnused id rows u)

-- Where no two rows have the same key, each row of the ordered list is later than those before it.
pub order_rows-IsOrdered : (rows : List EntryRow) → IsKeyed rows → IsOrdered (order_rows rows)
unfolding IsKeyed IsOrdered order_rows
order_rows-IsOrdered [] h = tt
order_rows-IsOrdered (r ∷ rows) (u, h) =
    insert_row-IsOrdered r (order_rows rows) (order_rows-IsUnused r.id rows u)
      (order_rows-IsOrdered rows h)

-- A row before all others is put in front.
pub insert_row-first :
    (r : EntryRow) (rows : List EntryRow) → AreLater r rows → insert_row r rows ≡ r ∷ rows
unfolding AreLater insert_row
insert_row-first r [] h = refl
insert_row-first r (s ∷ rows) (h, hs) = let e : later s r ≡ false = ground arith in rw e refl

module _ (test : EntryRow → Bool) where
  select-IsUnused :
      (id : ℕ) (rows : List EntryRow) → IsUnused id rows → IsUnused id (select test rows)
  unfolding IsUnused select
  select-IsUnused id [] u = tt
  select-IsUnused id (r ∷ rows) (h, u) = elim (Bool-cases (test r)) [
    | inl e ↦ rw e (h, select-IsUnused id rows u)
    | inr e ↦ rw e (select-IsUnused id rows u)
  ]

  pub select-IsKeyed : (rows : List EntryRow) → IsKeyed rows → IsKeyed (select test rows)
  unfolding IsKeyed select
  select-IsKeyed [] h = tt
  select-IsKeyed (r ∷ rows) (u, h) = elim (Bool-cases (test r)) [
    | inl e ↦ rw e (select-IsUnused r.id rows u, select-IsKeyed rows h)
    | inr e ↦ rw e (select-IsKeyed rows h)
  ]

  select-AreLater :
      (r : EntryRow) (rows : List EntryRow) → AreLater r rows → AreLater r (select test rows)
  unfolding AreLater select
  select-AreLater r [] h = tt
  select-AreLater r (s ∷ rows) (h, hs) = elim (Bool-cases (test s)) [
    | inl e ↦ rw e (h, select-AreLater r rows hs)
    | inr e ↦ rw e (select-AreLater r rows hs)
  ]

  pub select-IsOrdered : (rows : List EntryRow) → IsOrdered rows → IsOrdered (select test rows)
  unfolding IsOrdered select
  select-IsOrdered [] h = tt
  select-IsOrdered (r ∷ rows) (below, h) = elim (Bool-cases (test r)) [
    | inl e ↦ rw e (select-AreLater r rows below, select-IsOrdered rows h)
    | inr e ↦ rw e (select-IsOrdered rows h)
  ]

  select-insert_row-kept :
      (r : EntryRow) (rows : List EntryRow)
      → test r ≡ true
      → IsUnused r.id rows
      → IsOrdered rows
      → select test (insert_row r rows) ≡ insert_row r (select test rows)
  unfolding AreLater IsOrdered IsUnused select insert_row
  select-insert_row-kept r [] kept u h = rw kept refl
  select-insert_row-kept r (s ∷ rows) kept (differs, u) (below, h) =
      let rest = select-insert_row-kept r rows kept u h in
      elim (Bool-cases (later s r)) [
        | inl e ↦ elim (Bool-cases (test s)) [
          | inl k ↦ rw (e, k, e, rest) refl
          | inr k ↦ rw (e, k, rest) refl
        ]
        | inr e ↦
            let first = later-total r s differs e in
            elim (Bool-cases (test s)) [
              | inl k ↦ rw (e, kept, k, e) refl
              | inr k ↦
                  rw (e, kept, k)
                    (sym (
                      insert_row-first r (select test rows)
                        (select-AreLater r rows (AreLater-trans r s rows first below))))
            ]
      ]

  select-insert_row-dropped :
      (r : EntryRow) (rows : List EntryRow)
      → test r ≡ false
      → select test (insert_row r rows) ≡ select test rows
  unfolding select insert_row
  select-insert_row-dropped r [] dropped = rw dropped refl
  select-insert_row-dropped r (s ∷ rows) dropped = elim (Bool-cases (later s r)) [
    | inl e ↦ rw (e, select-insert_row-dropped r rows dropped) refl
    | inr e ↦ rw (e, dropped) refl
  ]

  -- To order the rows that were selected, or to select from the ordered rows.
  pub order_rows-select :
      (rows : List EntryRow)
      → IsKeyed rows
      → order_rows (select test rows) ≡ select test (order_rows rows)
  unfolding IsKeyed select order_rows
  order_rows-select [] h = refl
  order_rows-select (r ∷ rows) (u, h) =
      let rest = order_rows-select rows h in
      elim (Bool-cases (test r)) [
        | inl e ↦
            rw (e, rest)
              (sym (
                select-insert_row-kept r (order_rows rows) e (order_rows-IsUnused r.id rows u)
                  (order_rows-IsOrdered rows h)))
        | inr e ↦ rw (e, rest) (sym (select-insert_row-dropped r (order_rows rows) e))
      ]
