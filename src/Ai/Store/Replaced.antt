-- ===== src/Ai/Store/Replaced.antt =====
-- What the table of pgvector.store.ts has of a source after `replaceSource`.
use mathlib.Core.Option
use mathlib.Core.Path.{subst}
use vaultline.Prelude.{
  ℕ, ◌+◌, length, ◌≡◌, refl, sym, ap, ◌∙◌, Bool, false, Option, none, some, List, [], ◌∷◌, ◌++◌,
  Bool-cases, Option-cases, inl, inr, append_assoc, append-nil, ◌⊎◌, arith,
}
use vaultline.Common.Texts.{Text, same_text, same_text_refl, same_text_eq}
use vaultline.Ai.Store.{
  Chunk, rows_of, delete_source, row_of, with_embedding, insert_all, committed, replace_source,
  count_row, grouped, sum_counts, stats, crashed, returned,
}

no_rows : {A : Type 0} (rows : List A) → none ≡ some rows → ⊥
no_rows rows h = ground arith

pub same_rows : {A : Type 0} (rows more : List A) → some rows ≡ some more → rows ≡ more
same_rows rows more h = ground arith

-- All chunks, or rows, are of one source.
unfoldable pub AreOf : {W : Type 0} → Text → List (Chunk W) → Type 0
AreOf source [] = Unit {0}
AreOf source (c ∷ chunks) = (c.source ≡ source) × AreOf source chunks

module _ {V : Type 0} where
  rows_of-append :
      (source : Text) (xs ys : List (Chunk V))
      → rows_of source (xs ++ ys) ≡ rows_of source xs ++ rows_of source ys
  unfolding rows_of
  rows_of-append source [] ys = refl
  rows_of-append source (c ∷ xs) ys = elim (Bool-cases (same_text c.source source)) [
    | inl e ↦ rw (e, rows_of-append source xs ys) refl
    | inr e ↦ rw (e, rows_of-append source xs ys) refl
  ]

  rows_of-delete_source :
      (source : Text) (table : List (Chunk V)) → rows_of source (delete_source source table) ≡ []
  unfolding rows_of delete_source
  rows_of-delete_source source [] = refl
  rows_of-delete_source source (c ∷ table) = elim (Bool-cases (same_text c.source source)) [
    | inl e ↦ rw (e, rows_of-delete_source source table) refl
    | inr e ↦ rw (e, e, rows_of-delete_source source table) refl
  ]

  rows_of-delete_other :
      (source other : Text) (table : List (Chunk V))
      → same_text other source ≡ false
      → rows_of source (delete_source other table) ≡ rows_of source table
  unfolding rows_of delete_source
  rows_of-delete_other source other [] h = refl
  rows_of-delete_other source other (c ∷ table) h = elim (Bool-cases (same_text c.source other)) [
    | inl e ↦
        let same = same_text_eq c.source other e in
        let differs = subst (λ s. same_text s source ≡ false) (sym same) h in
        rw (e, differs, rows_of-delete_other source other table h) refl
    | inr e ↦ elim (Bool-cases (same_text c.source source)) [
      | inl k ↦ rw (e, k, rows_of-delete_other source other table h) refl
      | inr k ↦ rw (e, k, rows_of-delete_other source other table h) refl
    ]
  ]

  source-with_embedding :
      (c : Chunk (Option V)) (o : Option V) (r : Chunk V)
      → Option.map (with_embedding c) o ≡ some r
      → r.source ≡ c.source
  source-with_embedding c none r h = cc
  source-with_embedding c (some v) r h = ground arith

  rows_of-own :
      (source : Text) (rows : List (Chunk V)) → AreOf source rows → rows_of source rows ≡ rows
  unfolding rows_of AreOf
  rows_of-own source [] h = refl
  rows_of-own source (r ∷ rows) (own, h) =
      let same = ap (λ s. same_text s source) own ∙ same_text_refl source in
      rw (same, rows_of-own source rows h) refl

  rows_of-none :
      (source other : Text) (rows : List (Chunk V))
      → same_text other source ≡ false
      → AreOf other rows
      → rows_of source rows ≡ []
  unfolding rows_of AreOf
  rows_of-none source other [] differs h = refl
  rows_of-none source other (r ∷ rows) differs (own, h) =
      let differs' = ap (λ s. same_text s source) own ∙ differs in
      rw (differs', rows_of-none source other rows differs h) refl

  module _ (accepts : V → Bool) where
    abbrev in_front : Option (Chunk V) → Option (List (Chunk V)) → Option (List (Chunk V))
    in_front (some r) (some rows) = some (r ∷ rows)
    in_front _ _ = none

    -- The chunks as rows of the table, if each has a vector that the database takes.
    unfoldable pub rows_for : List (Chunk (Option V)) → Option (List (Chunk V))
    unfolding row_of
    rows_for [] = some []
    rows_for (c ∷ chunks) = in_front (row_of accepts c) (rows_for chunks)

    insert_all-rows_for :
        (chunks : List (Chunk (Option V))) (table : List (Chunk V))
        → insert_all accepts chunks table ≡ Option.map (λ rows. table ++ rows) (rows_for chunks)
    unfolding insert_all rows_for
    insert_all-rows_for [] table = ap some (sym (append-nil table))
    insert_all-rows_for (c ∷ chunks) table = elim (Option-cases (row_of accepts c)) [
      | inl e ↦ rw (e) refl
      | inr (r, e) ↦ elim (Option-cases (rows_for chunks)) [
        | inl k ↦ rw (e, k) (rw k at (insert_all-rows_for chunks (table ++ r ∷ [])))
        | inr (rows, k) ↦
            rw (e, k)
              (rw k at (insert_all-rows_for chunks (table ++ r ∷ []))
                ∙ ap some (append_assoc table (r ∷ []) rows))
      ]
    ]

    rows_for-AreOf :
        (source : Text) (chunks : List (Chunk (Option V))) (rows : List (Chunk V))
        → AreOf source chunks
        → rows_for chunks ≡ some rows
        → AreOf source rows
    unfolding rows_for row_of AreOf
    rows_for-AreOf source [] rows own h =
        let none_left : [] ≡ rows = ground arith in subst (AreOf source) none_left tt
    rows_for-AreOf source (c ∷ chunks) rows (own, owns) h = elim (Option-cases (row_of accepts c)) [
      | inl e ↦ absurd (no_rows rows (rw e at h))
      | inr (r, e) ↦ elim (Option-cases (rows_for chunks)) [
        | inl k ↦ absurd (no_rows rows (rw (e, k) at h))
        | inr (rest, k) ↦
            subst (AreOf source) (same_rows (r ∷ rest) rows (rw (e, k) at h))
              (source-with_embedding c _ r e ∙ own, rows_for-AreOf source chunks rest owns k)
      ]
    ]

    -- A replacement is done as a whole or not at all: the source has the rows of its chunks in the
    -- place of all that it had, or the table is as it was; the other sources keep their rows.
    pub replace_source-rows :
        (source : Text) (chunks : List (Chunk (Option V))) (table : List (Chunk V))
        → AreOf source chunks
        → (replace_source accepts source chunks table ≡ (crashed, table))
          ⊎ ((table' : List (Chunk V)) × (replace_source accepts source chunks table
                ≡ (returned tt, table'))
              × (rows_for chunks ≡ some (rows_of source table'))
              × ((other : Text)
                  → same_text source other ≡ false
                  → rows_of other table' ≡ rows_of other table))
    unfolding replace_source committed
    replace_source-rows source chunks table own =
        let kept = delete_source source table in
        elim (Option-cases (rows_for chunks)) [
          | inl e ↦ inl (rw (insert_all-rows_for chunks kept, e) refl)
          | inr (rows, e) ↦
              let owned = rows_for-AreOf source chunks rows own e in
              inr (
                kept ++ rows,
                rw (insert_all-rows_for chunks kept, e) refl,
                rw e (
                    ap some (
                      sym (
                        rows_of-append source kept rows
                        ∙ rw (rows_of-delete_source source table)
                            (rows_of-own source rows owned)))),
                λ other differs.
                    rows_of-append other kept rows
                    ∙ rw
                        (
                          rows_of-delete_other other source table differs,
                          rows_of-none other source rows differs owned,
                        )
                        (append-nil (rows_of other table)),
              )
        ]

sum_counts-count_row :
    (before : Text → Text → Bool) (source : Text) (groups : List (Text × ℕ))
    → sum_counts (count_row before source groups) ≡ sum_counts groups + 1
unfolding sum_counts count_row
sum_counts-count_row before source [] = refl
sum_counts-count_row before source ((name, n) ∷ groups) =
    elim (Bool-cases (same_text name source)) [
      | inl e ↦ rw e (omega arith)
      | inr e ↦ elim (Bool-cases (before source name)) [
        | inl k ↦ rw (e, k) (omega arith)
        | inr k ↦ rw (e, k) (omega (arith, sum_counts-count_row before source groups))
      ]
    ]

-- The number of chunks that `stats` tells is the number of the rows of the table.
pub chunks-stats :
    {V : Type 0} (before : Text → Text → Bool) (table : List (Chunk V))
    → (stats before table).chunks ≡ length table
unfolding stats grouped
chunks-stats before [] = refl
chunks-stats before (c ∷ table) =
    sum_counts-count_row before c.source (grouped before table)
    ∙ omega (arith, chunks-stats before table)
