-- ===== src/Ai/Tests.antt =====
-- A directory with one file of two pieces, and vectors that are numbers.
use vaultline.Prelude.{
  ℕ, zero, suc, ◌≤◌, ◌≡◌, refl, arith, true, false, Option, some, List, [], ◌∷◌, length, inl,
}
use vaultline.Prelude.Int.{pos}
use vaultline.Common.Texts.{Text, text, same_text}
use vaultline.Ai.Store.{
  returned, Chunk, Knowledge, rows_of, delete_source, with_ingestion_lock, try_lock, unlocked,
  replace_source, insert_all, committed, row_of,
}
use vaultline.Ai.Ingestion.{
  World, ingested, ingest_directory, ingest_listed, files_of, ingest_files, ingest_file,
  store_chunks, prepared, embedded, chunks_from, go_on, sort_files, markdown_files, insert_file,
  is_markdown,
}
use mathlib.Core.Path.{subst}
use vaultline.Ai.Store.Replaced.{same_rows}
use vaultline.Ai.Ingestion.Atomic.{AreStored, IsWhole}
use vaultline.Ai.Ingestion.Complete.{Among, ingest_directory-IsWhole, ingest_directory-AreStored}
use vaultline.Ai.Rag.{Models, ask}
use vaultline.Ai.Rag.Grounded.{IsIn, AreIn, IsSearch, IsServed, ask-IsServed}

abbrev one_each : List Text → List ℕ
one_each [] = []
one_each (t ∷ texts) = length t ∷ one_each texts

abbrev world : World ℕ
world = record {
  read_dir = some (text "fees.md" ∷ text "logo.png" ∷ []);
  read_file = λ f. some (text "Fees are low.");
  split = λ t. text "Fees" ∷ text "are low." ∷ [];
  embed_documents = λ texts. some (one_each texts);
  accepts = λ v. true;
}

abbrev piece : ℕ → Text → Chunk ℕ
piece i content = record {
  source = text "fees.md";
  chunk_index = i;
  content = content;
  embedding = length content;
}

abbrev old : Knowledge ℕ
old = record { locked = false; table = piece 0 (text "Old fees") ∷ [] }

abbrev new : Knowledge ℕ
new = record { locked = false; table = piece 0 (text "Fees") ∷ piece 1 (text "are low.") ∷ [] }

ingested_once : ingest_directory world old ≡ (returned (ingested ((text "fees.md", 2) ∷ [])), new)
unfolding ingest_directory ingest_listed with_ingestion_lock try_lock unlocked files_of sort_files
    markdown_files insert_file ingest_files ingest_file store_chunks prepared embedded chunks_from
    go_on replace_source insert_all committed delete_source row_of same_text
ingested_once = refl

ingest_directory-IsWhole_example :
    IsWhole world (text "fees.md") old.table (ingest_directory world old).1.table
    × ((ingest_directory world old).1.locked ≡ false)
ingest_directory-IsWhole_example = ingest_directory-IsWhole world old (text "fees.md")

ingest_directory-AreStored_example :
    (listing : List Text) × (world.read_dir ≡ some listing)
    × (Among (text "fees.md") listing
        → is_markdown (text "fees.md") ≡ true
        → AreStored world (text "fees.md") (rows_of (text "fees.md") new.table))
ingest_directory-AreStored_example =
    ingest_directory-AreStored world old new ((text "fees.md", 2) ∷ []) (text "fees.md")
      ingested_once

-- The table has one row at least for each answer.
abbrev first_row : ℕ → ℕ → List (Chunk ℕ) → Option (List (Chunk ℕ))
first_row v zero table = some []
first_row v (suc k) [] = some []
first_row v (suc k) (c ∷ table) = some (c ∷ [])

abbrev models : Models ℕ
models = record {
  embed_query = λ question. some (length question);
  nearest = first_row;
  similarity = λ v w. pos 9_000;
  chat = λ context question. some context;
  chat_stream = λ context question. (context ∷ [], returned tt);
  trim = λ t. t;
}

first_row-bounded :
    (v k : ℕ) (table rows : List (Chunk ℕ)) → first_row v k table ≡ some rows → length rows ≤ k
first_row-bounded v zero table rows h = ground arith
first_row-bounded v (suc k) [] rows h = ground arith
first_row-bounded v (suc k) (c ∷ table) rows h = ground arith

first_row-found :
    (v k : ℕ) (table rows : List (Chunk ℕ)) → first_row v k table ≡ some rows → AreIn rows table
unfolding AreIn IsIn
first_row-found v zero table rows h = subst (λ r. AreIn r table) (same_rows [] rows h) tt
first_row-found v (suc k) [] rows h = subst (λ r. AreIn r []) (same_rows [] rows h) tt
first_row-found v (suc k) (c ∷ table) rows h =
    subst (λ r. AreIn r (c ∷ table)) (same_rows (c ∷ []) rows h) (inl refl, tt)

models-IsSearch : IsSearch models new.table
models-IsSearch = record {
  bounded = λ v k rows h. first_row-bounded v k new.table rows h;
  found = λ v k rows h. first_row-found v k new.table rows h;
}

ask-IsServed_example :
    IsServed models new.table (text "Any fees?") 4 (ask models new.table (text "Any fees?") 4)
ask-IsServed_example = ask-IsServed models new.table models-IsSearch (text "Any fees?") 4
