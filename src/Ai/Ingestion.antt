-- ===== src/Ai/Ingestion.antt =====
-- modules/ai/rag/knowledge-ingestion.service.ts. The directory, the text splitter, the embedding model
-- and the database's check of a vector are parameters, as they are while a call runs.
pub mod Atomic
pub mod Complete
use vaultline.Prelude.{
  ℕ, zero, suc, ◌+◌, ◌-◌, Bool, true, false, Option, none, some, List, [], ◌∷◌, ◌++◌, if◌then◌else◌,
  length, drop, ltb, ◌==◌, ◌||◌, ◌&&◌,
}
use vaultline.Common.{dependency_unavailable, embedding_model_unavailable}
use vaultline.Common.Texts.{Text, text, same_text}
use vaultline.Ai.Store.{
  Attempt, threw, crashed, returned, Chunk, replace_source, Knowledge, with_ingestion_lock,
}

-- What the service finds around it.
pub record World (V : Type 0) : Type 0 where
  pub read_dir : Option (List Text)
  pub read_file : Text → Option Text
  pub split : Text → List Text
  pub embed_documents : List Text → Option (List V)
  pub accepts : V → Bool

-- `f.endsWith('.md')`
abbrev pub is_markdown : Text → Bool
is_markdown name = same_text (drop (length name - 3) name) (text ".md")

unfoldable pub markdown_files : List Text → List Text
unfolding same_text
markdown_files [] = []
markdown_files (f ∷ files) =
    let rest = markdown_files files in if is_markdown f then f ∷ rest else rest

-- `.sort()`: by the codes.
unfoldable pub text_before : Text → Text → Bool
text_before [] t = true
text_before (a ∷ s) [] = false
text_before (a ∷ s) (b ∷ t) = ltb a b || ((a == b) && text_before s t)

unfoldable pub insert_file : Text → List Text → List Text
unfolding text_before
insert_file f [] = f ∷ []
insert_file f (g ∷ files) = if text_before f g then f ∷ g ∷ files else g ∷ insert_file f files

unfoldable pub sort_files : List Text → List Text
unfolding insert_file
sort_files [] = []
sort_files (f ∷ files) = insert_file f (sort_files files)

unfoldable pub files_of : List Text → List Text
unfolding sort_files markdown_files
files_of names = sort_files (markdown_files names)

abbrev pub Summary : Type 0
Summary = List (Text × ℕ)

abbrev first_of : {V : Type 0} → List V → Option V
first_of [] = none
first_of (v ∷ vectors) = some v

-- `documents.map((doc, i) => …)`, from the number `i` on, where `vectors[i]` may not be there.
unfoldable pub chunks_from : {V : Type 0} → Text → ℕ → List Text → List V → List (Chunk (Option V))
chunks_from file i [] vectors = []
chunks_from file i (document ∷ documents) vectors =
    record { source = file; chunk_index = i; content = document; embedding = first_of vectors }
    ∷ chunks_from file (suc i) documents (drop 1 vectors)

-- `{ skipped: true, … }` or `{ skipped: false, files }`
pub data Ingestion : Type 0 where
  skipped : Ingestion
  ingested : Summary → Ingestion

module _ {V : Type 0} (world : World V) where
  -- The pieces of a file as chunks, or how reading and embedding them fails.
  unfoldable pub embedded : Text → List Text → Option (List V) → Attempt (List (Chunk (Option V)))
  unfolding chunks_from
  embedded file documents none = threw (dependency_unavailable embedding_model_unavailable)
  embedded file documents (some vectors) = returned (chunks_from file 0 documents vectors)

  unfoldable pub prepared : Text → Option Text → Attempt (List (Chunk (Option V)))
  unfolding embedded
  prepared file none = crashed
  prepared file (some content) =
      let documents = world.split content in
      embedded file documents (world.embed_documents documents)

  abbrev counted : ℕ → Attempt (Unit {0}) × List (Chunk V) → Attempt ℕ × List (Chunk V)
  counted n (threw e, table) = (threw e, table)
  counted n (crashed, table) = (crashed, table)
  counted n (returned done, table) = (returned n, table)

  unfoldable pub store_chunks :
      Text → Attempt (List (Chunk (Option V))) → List (Chunk V) → Attempt ℕ × List (Chunk V)
  unfolding replace_source
  store_chunks file (threw e) table = (threw e, table)
  store_chunks file crashed table = (crashed, table)
  store_chunks file (returned chunks) table =
      counted (length chunks) (replace_source world.accepts file chunks table)

  -- One round of the loop.
  unfoldable pub ingest_file : Text → List (Chunk V) → Attempt ℕ × List (Chunk V)
  unfolding store_chunks prepared
  ingest_file file table = store_chunks file (prepared file (world.read_file file)) table

  abbrev pushed : Text × ℕ → Attempt Summary × List (Chunk V) → Attempt Summary × List (Chunk V)
  pushed line (threw e, table) = (threw e, table)
  pushed line (crashed, table) = (crashed, table)
  pushed line (returned summary, table) = (returned (line ∷ summary), table)

  unfoldable pub go_on :
      Text
      → (List (Chunk V) → Attempt Summary × List (Chunk V))
      → Attempt ℕ × List (Chunk V)
      → Attempt Summary × List (Chunk V)
  go_on file rest (threw e, table) = (threw e, table)
  go_on file rest (crashed, table) = (crashed, table)
  go_on file rest (returned n, table) = pushed (file, n) (rest table)

  unfoldable pub ingest_files : List Text → List (Chunk V) → Attempt Summary × List (Chunk V)
  unfolding go_on ingest_file
  ingest_files [] table = (returned [], table)
  ingest_files (file ∷ files) table = go_on file (ingest_files files) (ingest_file file table)

  abbrev as_ingestion : Attempt (Option Summary) × Knowledge V → Attempt Ingestion × Knowledge V
  as_ingestion (threw e, knowledge) = (threw e, knowledge)
  as_ingestion (crashed, knowledge) = (crashed, knowledge)
  as_ingestion (returned none, knowledge) = (returned skipped, knowledge)
  as_ingestion (returned (some summary), knowledge) = (returned (ingested summary), knowledge)

  unfoldable pub ingest_listed : Option (List Text) → Knowledge V → Attempt Ingestion × Knowledge V
  unfolding with_ingestion_lock ingest_files files_of
  ingest_listed none knowledge = (crashed, knowledge)
  ingest_listed (some names) knowledge =
      as_ingestion (with_ingestion_lock (ingest_files (files_of names)) knowledge)

  -- `ingestDirectory`
  unfoldable pub ingest_directory : Knowledge V → Attempt Ingestion × Knowledge V
  unfolding ingest_listed
  ingest_directory knowledge = ingest_listed world.read_dir knowledge

-- `(await this.store.stats()).chunks > 0`
abbrev pub has_chunks : {V : Type 0} → List (Chunk V) → Bool
has_chunks [] = false
has_chunks (c ∷ table) = true

-- The surroundings of an attempt, and whether the database answers.
pub record Moment (V : Type 0) : Type 0 where
  pub answers : Bool
  pub world : World V

unfoldable pub after_attempt :
    {V : Type 0} → (Knowledge V → Knowledge V) → Attempt Ingestion × Knowledge V → Knowledge V
after_attempt again (threw e, knowledge) = again knowledge
after_attempt again (crashed, knowledge) = again knowledge
after_attempt again (returned outcome, knowledge) = knowledge

-- An attempt of `autoIngestWithRetry`, where `again` is the loop from the next one on.
unfoldable pub attempt :
    {V : Type 0} → (Knowledge V → Knowledge V) → Moment V → Knowledge V → Knowledge V
unfolding after_attempt ingest_directory
attempt again moment knowledge =
    if moment.answers
    then if has_chunks knowledge.table
      then knowledge
      else after_attempt again (ingest_directory moment.world knowledge)
    else again knowledge

-- The loop, of so many attempts, at the moments from `n` on. (`autoIngestWithRetry` makes sixty from 1 on.)
unfoldable pub auto_ingest : {V : Type 0} → (ℕ → Moment V) → ℕ → ℕ → Knowledge V → Knowledge V
unfolding attempt
auto_ingest moments n zero knowledge = knowledge
auto_ingest moments n (suc attempts) knowledge =
    attempt (auto_ingest moments (n + 1) attempts) (moments n) knowledge

unfoldable pub auto_ingest_with_retry : {V : Type 0} → (ℕ → Moment V) → Knowledge V → Knowledge V
unfolding auto_ingest
auto_ingest_with_retry moments = auto_ingest moments 1 60
