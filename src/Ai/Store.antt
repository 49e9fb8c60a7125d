-- ===== src/Ai/Store.antt =====
-- modules/ai/rag/pgvector.store.ts. A vector, the check that the database makes of one, and the order of
-- its distances are parameters; what an entry's metadata says is written and never read, and is
-- left out.
pub mod Replaced
use mathlib.Core.Option
use vaultline.Prelude.{
  ℕ, suc, ◌+◌, Bool, true, false, not, Option, none, some, List, [], ◌∷◌, ◌++◌, if◌then◌else◌, map,
}
use vaultline.Prelude.Int.{ℤ, leb_ℤ}
use vaultline.Common.{DomainError}
use vaultline.Common.Texts.{Text, same_text}

-- How a call ends: with a domain error, with another error, or with its result.
pub data Attempt {ℓ} (A : Type ℓ) : Type ℓ where
  threw : DomainError → Attempt A
  crashed : Attempt A
  returned : A → Attempt A

-- `KnowledgeChunk`, and a row of `knowledge_chunks`.
pub record Chunk (V : Type 0) : Type 0 where
  pub source : Text
  pub chunk_index : ℕ
  pub content : Text
  pub embedding : V

pub record ScoredChunk : Type 0 where
  pub source : Text
  pub chunk_index : ℕ
  pub content : Text
  -- in ten-thousandths
  pub score : ℤ

module _ {V : Type 0} where
  -- `WHERE source = $1`
  unfoldable pub rows_of : Text → List (Chunk V) → List (Chunk V)
  unfolding same_text
  rows_of source [] = []
  rows_of source (c ∷ table) =
      let rest = rows_of source table in if same_text c.source source then c ∷ rest else rest

  -- `DELETE FROM knowledge_chunks WHERE source = $1`
  unfoldable pub delete_source : Text → List (Chunk V) → List (Chunk V)
  unfolding same_text
  delete_source source [] = []
  delete_source source (c ∷ table) =
      let rest = delete_source source table in if same_text c.source source then rest else c ∷ rest

  -- `toVectorLiteral` of no vector throws; the database takes a vector or throws.
  abbrev accepted : (V → Bool) → Option V → Option V
  accepted accepts none = none
  accepted accepts (some v) = if accepts v then some v else none

  abbrev pub with_embedding : Chunk (Option V) → V → Chunk V
  with_embedding c v = record {
    source = c.source;
    chunk_index = c.chunk_index;
    content = c.content;
    embedding = v;
  }

  unfoldable pub row_of : (V → Bool) → Chunk (Option V) → Option (Chunk V)
  row_of accepts c = Option.map (with_embedding c) (accepted accepts c.embedding)

  abbrev insert_row : List (Chunk V) → Option (Chunk V) → Option (List (Chunk V))
  insert_row table none = none
  insert_row table (some r) = some (table ++ r ∷ [])

  abbrev after_row :
      (List (Chunk V) → Option (List (Chunk V))) → Option (List (Chunk V)) → Option (List (Chunk V))
  after_row go none = none
  after_row go (some table) = go table

  -- The `INSERT`s; `none` where one of them throws.
  unfoldable pub insert_all :
      (V → Bool) → List (Chunk (Option V)) → List (Chunk V) → Option (List (Chunk V))
  unfolding row_of
  insert_all accepts [] table = some table
  insert_all accepts (c ∷ chunks) table =
      after_row (insert_all accepts chunks) (insert_row table (row_of accepts c))

  -- The transaction is rolled back where a statement throws.
  unfoldable pub committed :
      List (Chunk V) → Option (List (Chunk V)) → Attempt (Unit {0}) × List (Chunk V)
  committed table none = (crashed, table)
  committed table (some table') = (returned tt, table')

  unfoldable pub replace_source :
      (V → Bool)
      → Text
      → List (Chunk (Option V))
      → List (Chunk V)
      → Attempt (Unit {0}) × List (Chunk V)
  unfolding committed insert_all delete_source
  replace_source accepts source chunks table =
      committed table (insert_all accepts chunks (delete_source source table))

  -- `rows.map(…)`, where `score` is the similarity rounded to four places.
  abbrev pub scored : (score : V → ℤ) → Chunk V → ScoredChunk
  scored score c = record {
    source = c.source;
    chunk_index = c.chunk_index;
    content = c.content;
    score = score c.embedding;
  }

  -- `.map(…).filter((r) => r.score >= minScore)`
  unfoldable pub scored_from : (score : V → ℤ) → ℤ → List (Chunk V) → List ScoredChunk
  scored_from score min_score [] = []
  scored_from score min_score (c ∷ rows) =
      let rest = scored_from score min_score rows in
      if leb_ℤ min_score (score c.embedding) then scored score c ∷ rest else rest

  -- `similaritySearch`. `nearest` is the database's answer to the query: rows of the table, the nearest
  -- first, `k` at most; or none where it fails.
  unfoldable pub similarity_search :
      (nearest : V → ℕ → List (Chunk V) → Option (List (Chunk V)))
      → (score : V → V → ℤ) → List (Chunk V)
      → V
      → ℕ
      → ℤ
      → Option (List ScoredChunk)
  unfolding scored_from
  similarity_search nearest score table query k min_score =
      Option.map (scored_from (score query) min_score) (nearest query k table)

-- `stats`, where `before` is the database's order of names.
pub record Stats : Type 0 where
  pub chunks : ℕ
  pub sources : List Text

-- The groups with one row more.
unfoldable pub count_row : (before : Text → Text → Bool) → Text → List (Text × ℕ) → List (Text × ℕ)
unfolding same_text
count_row before source [] = (source, 1) ∷ []
count_row before source ((name, n) ∷ groups) =
    let rest = count_row before source groups in
    if same_text name source
    then (name, n + 1) ∷ groups
    else if before source name
    then (source, 1) ∷ (name, n) ∷ groups
    else (name, n) ∷ rest

-- `SELECT source, COUNT(*) … GROUP BY source ORDER BY source`
unfoldable pub grouped :
    {V : Type 0} → (before : Text → Text → Bool) → List (Chunk V) → List (Text × ℕ)
unfolding count_row
grouped before [] = []
grouped before (c ∷ table) = count_row before c.source (grouped before table)

unfoldable pub sum_counts : List (Text × ℕ) → ℕ
sum_counts [] = 0
sum_counts ((name, n) ∷ groups) = n + sum_counts groups

abbrev name_of : Text × ℕ → Text
name_of (name, n) = name

unfoldable pub stats : {V : Type 0} → (before : Text → Text → Bool) → List (Chunk V) → Stats
unfolding sum_counts grouped
stats before table =
    let groups = grouped before table in
    record { chunks = sum_counts groups; sources = map name_of groups }

-- The advisory lock, and the table.
pub record Knowledge (V : Type 0) : Type 0 where
  pub locked : Bool
  pub table : List (Chunk V)

-- `withIngestionLock`: `finally` unlocks, however the work ends.
unfoldable pub unlocked {ℓ} :
    {V : Type 0} {A : Type ℓ} → Attempt A × List (Chunk V) → Attempt (Option A) × Knowledge V
unlocked (threw e, table) = (threw e, record { locked = false; table = table })
unlocked (crashed, table) = (crashed, record { locked = false; table = table })
unlocked (returned a, table) = (returned (some a), record { locked = false; table = table })

unfoldable pub try_lock {ℓ} :
    {V : Type 0} {A : Type ℓ}
    → Bool
    → (List (Chunk V) → Attempt A × List (Chunk V))
    → Knowledge V
    → Attempt (Option A) × Knowledge V
unfolding unlocked
try_lock true work knowledge = (returned none, knowledge)
try_lock false work knowledge = unlocked (work knowledge.table)

unfoldable pub with_ingestion_lock {ℓ} :
    {V : Type 0} {A : Type ℓ}
    → (List (Chunk V) → Attempt A × List (Chunk V))
    → Knowledge V
    → Attempt (Option A) × Knowledge V
unfolding try_lock
with_ingestion_lock work knowledge = try_lock knowledge.locked work knowledge
