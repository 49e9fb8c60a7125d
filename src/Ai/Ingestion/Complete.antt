-- ===== src/Ai/Ingestion/Complete.antt =====
-- What the knowledge has after `ingestDirectory` (knowledge-ingestion.service.ts, pgvector.store.ts).
use mathlib.Core.Path.{subst}
use vaultline.Prelude.{
  ℕ, ◌≡◌, refl, sym, ap, ◌∙◌, Bool, true, false, Option, none, some, List, [], ◌∷◌, Bool-cases, inl,
  inr, ◌⊎◌, arith,
}
use vaultline.Common.{DomainError}
use vaultline.Common.Texts.{Text}
use vaultline.Ai.Store.{
  Attempt, threw, crashed, returned, Chunk, rows_of, Knowledge, with_ingestion_lock, try_lock,
  unlocked,
}
use vaultline.Ai.Ingestion.{
  World, is_markdown, markdown_files, text_before, insert_file, sort_files, files_of, Summary,
  ingested, go_on, ingest_files, pushed, as_ingestion, ingest_listed, ingest_directory,
}
use vaultline.Ai.Ingestion.Atomic.{AreStored, IsWhole, ingest_file-cases, ingest_files-IsWhole}

unfoldable pub Among : Text → List Text → Type 0
Among f [] = ⊥
Among f (g ∷ files) = (f ≡ g) ⊎ Among f files

insert_file-Among :
    (f g : Text) (files : List Text) → (f ≡ g) ⊎ Among f files → Among f (insert_file g files)
unfolding Among insert_file
insert_file-Among f g [] h = h
insert_file-Among f g (k ∷ files) h = elim (Bool-cases (text_before g k)) [
  | inl e ↦ rw e h
  | inr e ↦ rw e (elim h [
    | inl own ↦ inr (insert_file-Among f g files (inl own))
    | inr (inl first) ↦ inl first
    | inr (inr rest) ↦ inr (insert_file-Among f g files (inr rest))
  ])
]

sort_files-Among : (f : Text) (files : List Text) → Among f files → Among f (sort_files files)
unfolding Among sort_files
sort_files-Among f [] h = h
sort_files-Among f (g ∷ files) (inl own) = insert_file-Among f g (sort_files files) (inl own)
sort_files-Among f (g ∷ files) (inr rest) =
    insert_file-Among f g (sort_files files) (inr (sort_files-Among f files rest))

markdown_files-Among :
    (f : Text) (names : List Text)
    → is_markdown f ≡ true
    → Among f names
    → Among f (markdown_files names)
unfolding Among markdown_files
markdown_files-Among f [] ends h = h
markdown_files-Among f (g ∷ names) ends (inl own) =
    let also = ap is_markdown (sym own) ∙ ends in rw also (inl own)
markdown_files-Among f (g ∷ names) ends (inr rest) = elim (Bool-cases (is_markdown g)) [
  | inl e ↦ rw e (inr (markdown_files-Among f names ends rest))
  | inr e ↦ rw e (markdown_files-Among f names ends rest)
]

module _ {V : Type 0} (world : World V) where
  pushed_returned :
      (line : Text × ℕ) (outcome : Attempt Summary × List (Chunk V)) (summary : Summary)
      (table : List (Chunk V))
      → pushed world line outcome ≡ (returned summary, table)
      → (rest : Summary) × (outcome ≡ (returned rest, table))
  pushed_returned line (threw e, old) summary table h = cc
  pushed_returned line (crashed, old) summary table h = cc
  pushed_returned line (returned rest, old) summary table h =
      (rest, ap (λ t. (returned rest, t)) (ap (λ p. p.1) h))

  threw_not_returned :
      {A : Type 0} {e : DomainError} {a : A} {s t : List (Chunk V)}
      → ◌≡◌ {A = Attempt A × List (Chunk V)} (threw e, s) (returned a, t)
      → ⊥
  threw_not_returned h = cc

  crashed_not_returned :
      {A : Type 0} {a : A} {s t : List (Chunk V)}
      → ◌≡◌ {A = Attempt A × List (Chunk V)} (crashed, s) (returned a, t)
      → ⊥
  crashed_not_returned h = cc

  still_stored :
      (f : Text) (middle table : List (Chunk V))
      → AreStored world f (rows_of f middle)
      → IsWhole world f middle table
      → AreStored world f (rows_of f table)
  still_stored f middle table stored (inl same) = subst (AreStored world f) (sym same) stored
  still_stored f middle table stored (inr done) = done

  -- Where the loop comes to its end, every file is stored.
  ingest_files-AreStored :
      (files : List Text) (table : List (Chunk V)) (summary : Summary) (table' : List (Chunk V))
      → ingest_files world files table ≡ (returned summary, table')
      → (f : Text) → Among f files
      → AreStored world f (rows_of f table')
  unfolding ingest_files go_on Among
  ingest_files-AreStored [] table summary table' h f among = absurd among
  ingest_files-AreStored (file ∷ files) table summary table' h f among =
      elim (ingest_file-cases world file table) [
        | inl (inl (e, k)) ↦ absurd (threw_not_returned (rw k at h))
        | inl (inr k) ↦ absurd (crashed_not_returned (rw k at h))
        | inr (n, middle, k, stored, others) ↦
            let (rest, done) =
              pushed_returned (file, n) (ingest_files world files middle) summary table'
                (rw k at h) in
            elim among [
              | inl own ↦
                  subst (λ g. AreStored world g (rows_of g table')) (sym own)
                    (still_stored file middle table' stored (
                      subst (IsWhole world file middle) (ap (λ p. p.1) done)
                        (ingest_files-IsWhole world files middle file)))
              | inr later ↦ ingest_files-AreStored files middle rest table' done f later
            ]
      ]

  table-unlocked :
      (outcome : Attempt Summary × List (Chunk V))
      → ((as_ingestion world (unlocked outcome)).1.table ≡ outcome.1)
        × ((as_ingestion world (unlocked outcome)).1.locked ≡ false)
  unfolding unlocked
  table-unlocked (threw e, table) = (refl, refl)
  table-unlocked (crashed, table) = (refl, refl)
  table-unlocked (returned summary, table) = (refl, refl)

  listed-IsWhole :
      (names : Option (List Text)) (locked : Bool) (table : List (Chunk V)) (f : Text)
      → (let after = (ingest_listed world names (record { locked = locked; table = table })).1 in
          IsWhole world f table after.table × (after.locked ≡ locked))
  unfolding ingest_listed with_ingestion_lock try_lock
  listed-IsWhole none locked table f = (inl refl, refl)
  listed-IsWhole (some names) true table f = (inl refl, refl)
  listed-IsWhole (some names) false table f =
      let (same, free) = table-unlocked (ingest_files world (files_of names) table) in
      (
        subst (IsWhole world f table) (sym same)
            (ingest_files-IsWhole world (files_of names) table f),
        free,
      )

  -- However a call of `ingestDirectory` ends, the lock is as it was, and the table has of every source
  -- the rows that it had, or the pieces of the file as it is, all of them, in order and each with
  -- its vector.
  pub ingest_directory-IsWhole :
      (knowledge : Knowledge V) (f : Text)
      → (let after = (ingest_directory world knowledge).1 in
          IsWhole world f knowledge.table after.table × (after.locked ≡ knowledge.locked))
  unfolding ingest_directory
  ingest_directory-IsWhole knowledge f =
      listed-IsWhole world.read_dir knowledge.locked knowledge.table f

  unlocked_ingested :
      (outcome : Attempt Summary × List (Chunk V)) (summary : Summary) (after : Knowledge V)
      → as_ingestion world (unlocked outcome) ≡ (returned (ingested summary), after)
      → outcome ≡ (returned summary, after.table)
  unfolding unlocked
  unlocked_ingested (threw e, table) summary after h = cc
  unlocked_ingested (crashed, table) summary after h = cc
  unlocked_ingested (returned rest, table) summary after h =
      let first : returned (ingested rest) ≡ returned (ingested summary) = ap (λ p. p.0) h in
      let same : rest ≡ summary = ground arith in
      let left : table ≡ after.table = ap (λ p. p.1.table) h in rw (same, left) refl

  listed-AreStored :
      (names : Option (List Text)) (locked : Bool) (table : List (Chunk V)) (summary : Summary)
      (after : Knowledge V) (f : Text)
      → ingest_listed world names (record { locked = locked; table = table })
        ≡ (returned (ingested summary), after)
      → (listing : List Text) × (names ≡ some listing)
        × (Among f listing → is_markdown f ≡ true → AreStored world f (rows_of f after.table))
  unfolding ingest_listed with_ingestion_lock try_lock files_of
  listed-AreStored none locked table summary after f h = cc
  listed-AreStored (some names) true table summary after f h = cc
  listed-AreStored (some names) false table summary after f h = (
    names,
    refl,
    λ among ends.
        ingest_files-AreStored (files_of names) table summary after.table
          (unlocked_ingested (ingest_files world (files_of names) table) summary after h) f
          (sort_files-Among f (markdown_files names) (markdown_files-Among f names ends among)),
  )

  -- A call that says what it ingested has read the directory, and of each name in it that ends in `.md` the
  -- table has one row for each piece of the file, numbered from 0 in the order of the splitter's
  -- pieces, with the piece and with the embedding model's vector at its place.
  pub ingest_directory-AreStored :
      (knowledge after : Knowledge V) (summary : Summary) (f : Text)
      → ingest_directory world knowledge ≡ (returned (ingested summary), after)
      → (listing : List Text) × (world.read_dir ≡ some listing)
        × (Among f listing → is_markdown f ≡ true → AreStored world f (rows_of f after.table))
  unfolding ingest_directory
  ingest_directory-AreStored knowledge after summary f h =
      listed-AreStored world.read_dir knowledge.locked knowledge.table summary after f h
