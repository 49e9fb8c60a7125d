-- ===== src/Ai/Ingestion/Atomic.antt =====
-- What the table has of each file after the loop of `ingestDirectory`
-- (knowledge-ingestion.service.ts), however it ends.
use mathlib.Core.Path.{subst}
use vaultline.Prelude.{
  ℕ, suc, ◌≡◌, refl, sym, ap, ◌∙◌, true, false, Option-cases, Option, none, some, List, [], ◌∷◌,
  Bool-cases, inl, inr, ◌⊎◌, arith, length, drop,
}
use vaultline.Common.{DomainError}
use vaultline.Common.Texts.{Text, same_text, same_text_eq}
use vaultline.Ai.Store.{Attempt, threw, crashed, returned, Chunk, rows_of, row_of}
use vaultline.Ai.Store.Replaced.{same_rows, AreOf, rows_for, replace_source-rows}
use vaultline.Ai.Ingestion.{
  World, chunks_from, embedded, prepared, store_chunks, ingest_file, go_on, ingest_files, pushed,
  Summary,
}

-- To split on how a call ends.
pub Attempt-cases :
    {A : Type 0} (a : Attempt A)
    → ((e : DomainError) × (a ≡ threw e)) ⊎ (a ≡ crashed) ⊎ ((r : A) × (a ≡ returned r))
Attempt-cases (threw e) = inl (e, refl)
Attempt-cases crashed = inr (inl refl)
Attempt-cases (returned r) = inr (inr (r, refl))

module _ {V : Type 0} (world : World V) where
  chunks_from-AreOf :
      (file : Text) (i : ℕ) (documents : List Text) (vectors : List V)
      → AreOf file (chunks_from file i documents vectors)
  unfolding chunks_from AreOf
  chunks_from-AreOf file i [] vectors = tt
  chunks_from-AreOf file i (d ∷ documents) vectors =
      (refl, chunks_from-AreOf file (suc i) documents (drop 1 vectors))

  threw_no_chunks : {e : DomainError} {c : List (Chunk (Option V))} → threw e ≡ returned c → ⊥
  threw_no_chunks h = cc

  same_chunks : {A : Type 0} (x y : A) → returned x ≡ returned y → x ≡ y
  same_chunks x y h = ground arith

  embedded-AreOf :
      (file : Text) (documents : List Text) (vectors : Option (List V))
      (chunks : List (Chunk (Option V)))
      → embedded world file documents vectors ≡ returned chunks
      → AreOf file chunks
  unfolding embedded
  embedded-AreOf file documents none chunks h = cc
  embedded-AreOf file documents (some vectors) chunks h =
      subst (AreOf file) (same_chunks _ chunks h) (chunks_from-AreOf file 0 documents vectors)

  prepared-AreOf :
      (file : Text) (content : Option Text) (chunks : List (Chunk (Option V)))
      → prepared world file content ≡ returned chunks
      → AreOf file chunks
  unfolding prepared
  prepared-AreOf file none chunks h = cc
  prepared-AreOf file (some content) chunks h =
      embedded-AreOf file (world.split content) (world.embed_documents (world.split content)) chunks
        h

  -- A row for each piece of a text: numbered from `i` on, with the piece and with the vector at its place,
  -- which is there and which the database takes.
  unfoldable pub ArePieces : Text → ℕ → List Text → List V → List (Chunk V) → Type 0
  ArePieces file i [] vectors [] = Unit {0}
  ArePieces file i (piece ∷ pieces) (v ∷ vectors) (row ∷ rows) =
      (row ≡ record { source = file; chunk_index = i; content = piece; embedding = v })
      × (world.accepts v ≡ true)
      × ArePieces file (suc i) pieces vectors rows
  ArePieces file i _ _ _ = ⊥

  -- The rows are those of the file as it is: its pieces in their order, each with its vector.
  pub record AreStored (file : Text) (rows : List (Chunk V)) : Type 0 where
    pub content : Text
    pub read : world.read_file file ≡ some content
    pub vectors : List V
    pub embed : world.embed_documents (world.split content) ≡ some vectors
    pub pieces : ArePieces file 0 (world.split content) vectors rows

  no_rows_left : (rows : List (Chunk V)) → none ≡ some rows → ⊥
  no_rows_left rows h = ground arith

  rows_for-ArePieces :
      (file : Text) (i : ℕ) (documents : List Text) (vectors : List V) (rows : List (Chunk V))
      → rows_for world.accepts (chunks_from file i documents vectors) ≡ some rows
      → ArePieces file i documents vectors rows
  unfolding rows_for row_of chunks_from ArePieces
  rows_for-ArePieces file i [] vectors rows h =
      subst (ArePieces file i [] vectors) (same_rows [] rows h) tt
  rows_for-ArePieces file i (d ∷ documents) [] rows h = absurd (no_rows_left rows h)
  rows_for-ArePieces file i (d ∷ documents) (v ∷ vectors) rows h =
      let rest = rows_for world.accepts (chunks_from file (suc i) documents vectors) in
      elim (Bool-cases (world.accepts v)) [
        | inr refused ↦ absurd (no_rows_left rows (rw refused at h))
        | inl taken ↦ elim (Option-cases rest) [
          | inl none_left ↦ absurd (no_rows_left rows (rw (taken, none_left) at h))
          | inr (more, left) ↦
              subst (ArePieces file i (d ∷ documents) (v ∷ vectors))
                (same_rows (_ ∷ more) rows (rw (taken, left) at h))
                (refl, taken, rows_for-ArePieces file (suc i) documents vectors more left)
        ]
      ]

  prepared-AreStored :
      (file : Text) (content : Option Text) (chunks : List (Chunk (Option V)))
      (rows : List (Chunk V))
      → world.read_file file ≡ content
      → prepared world file content ≡ returned chunks
      → rows_for world.accepts chunks ≡ some rows
      → AreStored file rows
  unfolding prepared embedded
  prepared-AreStored file none chunks rows read h stored = cc
  prepared-AreStored file (some content) chunks rows read h stored =
      elim (Option-cases (world.embed_documents (world.split content))) [
        | inl e ↦ absurd (threw_no_chunks (rw e at h))
        | inr (vectors, e) ↦ record {
          content = content;
          read = read;
          vectors = vectors;
          embed = e;
          pieces =
              rows_for-ArePieces file 0 (world.split content) vectors rows
                (ap (rows_for world.accepts) (same_chunks _ chunks (rw e at h)) ∙ stored);
        }
      ]

  -- How a round of the loop ends.
  abbrev pub Failed : Text → List (Chunk V) → Type 0
  Failed file table =
      ((e : DomainError) × (ingest_file world file table ≡ (threw e, table)))
      ⊎ (ingest_file world file table ≡ (crashed, table))

  abbrev pub Went : Text → List (Chunk V) → Type 0
  Went file table =
      (n : ℕ) × (table' : List (Chunk V)) × (ingest_file world file table ≡ (returned n, table'))
      × AreStored file (rows_of file table')
      × ((other : Text) → same_text file other ≡ false → rows_of other table' ≡ rows_of other table)

  pub ingest_file-cases :
      (file : Text) (table : List (Chunk V)) → Failed file table ⊎ Went file table
  unfolding ingest_file store_chunks
  ingest_file-cases file table = elim (Attempt-cases (prepared world file (world.read_file file))) [
    | inl (e, h) ↦ inl (inl (e, rw h refl))
    | inr (inl h) ↦ inl (inr (rw h refl))
    | inr (inr (chunks, h)) ↦
        elim (replace_source-rows world.accepts file chunks table
          (prepared-AreOf file (world.read_file file) chunks h)) [
            | inl k ↦ inl (inr (rw (h, k) refl))
            | inr (table', k, rows, others) ↦ inr (
              length chunks,
              table',
              rw (h, k) refl,
              prepared-AreStored file (world.read_file file) chunks _ refl h rows,
              others,
            )
          ]
  ]

  -- The file's rows are the old ones, or those of the file as it is.
  abbrev pub IsWhole : Text → List (Chunk V) → List (Chunk V) → Type 0
  IsWhole file table table' =
      (rows_of file table' ≡ rows_of file table) ⊎ AreStored file (rows_of file table')

  table-pushed :
      (line : Text × ℕ) (outcome : Attempt Summary × List (Chunk V))
      → (pushed world line outcome).1 ≡ outcome.1
  table-pushed line (threw e, table) = refl
  table-pushed line (crashed, table) = refl
  table-pushed line (returned summary, table) = refl

  then-IsWhole :
      (file f : Text) (table middle table' : List (Chunk V))
      → AreStored file (rows_of file middle)
      → ((other : Text) → same_text file other ≡ false → rows_of other middle ≡ rows_of other table)
      → IsWhole f middle table'
      → IsWhole f table table'
  then-IsWhole file f table middle table' stored others (inr done) = inr done
  then-IsWhole file f table middle table' stored others (inl same) =
      elim (Bool-cases (same_text file f)) [
        | inl e ↦
            let own = subst (λ g. AreStored g (rows_of g middle)) (same_text_eq file f e) stored in
            inr (subst (AreStored f) (sym same) own)
        | inr e ↦ inl (same ∙ others f e)
      ]

  pub ingest_files-IsWhole :
      (files : List Text) (table : List (Chunk V)) (f : Text)
      → IsWhole f table (ingest_files world files table).1
  unfolding ingest_files go_on
  ingest_files-IsWhole [] table f = inl refl
  ingest_files-IsWhole (file ∷ files) table f = elim (ingest_file-cases file table) [
    | inl (inl (e, h)) ↦ inl (rw h refl)
    | inl (inr h) ↦ inl (rw h refl)
    | inr (n, middle, h, stored, others) ↦
        let rest = ingest_files world files middle in
        let whole =
          then-IsWhole file f table middle rest.1 stored others
            (ingest_files-IsWhole files middle f) in
        let after =
          ap (λ outcome. (go_on world file (ingest_files world files) outcome).1) h
          ∙ table-pushed (file, n) rest in
        subst (IsWhole f table) (sym after) whole
  ]
