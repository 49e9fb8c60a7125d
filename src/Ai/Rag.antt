-- ===== src/Ai/Rag.antt =====
-- modules/ai/rag/rag.service.ts, and the event stream of modules/ai/ai.controller.ts. The models, the
-- database's search, `trim` and JSON are parameters; the prompt is a chat model's of a context and a
-- question. The time that an answer takes is left out.
pub mod Grounded
use vaultline.Prelude.{ℕ, Option, none, some, List, [], ◌∷◌, ◌++◌, map, take}
use vaultline.Prelude.Int.{ℤ, pos}
use vaultline.Common.{dependency_unavailable, retrieval_failed, chat_model_failed}
use vaultline.Common.Texts.{Text, text}
use vaultline.Core.References.Digits.{to_string}
use vaultline.Statements.Renderers.{join, newline}
use vaultline.Ai.Store.{Attempt, threw, crashed, returned, Chunk, ScoredChunk, similarity_search}

pub record Models (V : Type 0) : Type 0 where
  pub embed_query : Text → Option V
  pub nearest : V → ℕ → List (Chunk V) → Option (List (Chunk V))
  pub similarity : V → V → ℤ
  pub chat : (context question : Text) → Option Text
  -- the tokens, and whether the stream then fails
  pub chat_stream : (context question : Text) → List Text × Attempt (Unit {0})
  pub trim : Text → Text

-- 0.05
abbrev pub min_score : ℤ
min_score = pos 500

abbrev pub context_line : ScoredChunk → Text
context_line c =
    text "["
    ++ (c.source
        ++ (text " #" ++ (to_string 10 c.chunk_index ++ (text "]" ++ newline ∷ c.content))))

unfoldable pub format_context : List ScoredChunk → Text
unfolding join to_string
format_context chunks = join (newline ∷ newline ∷ []) (map context_line chunks)

pub record Source : Type 0 where
  pub source : Text
  pub chunk : ℕ
  pub score : ℤ
  pub excerpt : Text

abbrev pub source_of : ScoredChunk → Source
source_of c = record {
  source = c.source;
  chunk = c.chunk_index;
  score = c.score;
  excerpt = take 160 c.content ++ text "...";
}

pub record Answer : Type 0 where
  pub answer : Text
  pub sources : List Source

abbrev pub no_information : Answer
no_information = record {
  answer = text "I don't have that information yet. Try POST /api/ai/ingest first.";
  sources = [];
}

module _ {V : Type 0} (models : Models V) (table : List (Chunk V)) where
  unfoldable pub searched : Option (List ScoredChunk) → Attempt (List ScoredChunk)
  searched none = threw (dependency_unavailable retrieval_failed)
  searched (some chunks) = returned chunks

  unfoldable pub search_for : Option V → ℕ → Attempt (List ScoredChunk)
  unfolding searched similarity_search
  search_for none k = threw (dependency_unavailable retrieval_failed)
  search_for (some vector) k =
      searched (similarity_search models.nearest models.similarity table vector k min_score)

  -- `retrieve`: whatever fails is a dependency that is not there.
  unfoldable pub retrieve : Text → ℕ → Attempt (List ScoredChunk)
  unfolding search_for
  retrieve question k = search_for (models.embed_query question) k

  unfoldable pub answered : List ScoredChunk → Option Text → Attempt Answer
  answered chunks none = threw (dependency_unavailable chat_model_failed)
  answered chunks (some answer) =
      returned (record { answer = models.trim answer; sources = map source_of chunks })

  unfoldable pub ask_about : Text → Attempt (List ScoredChunk) → Attempt Answer
  unfolding answered format_context
  ask_about question (threw e) = threw e
  ask_about question crashed = crashed
  ask_about question (returned []) = returned no_information
  ask_about question (returned (c ∷ chunks)) =
      answered (c ∷ chunks) (models.chat (format_context (c ∷ chunks)) question)

  -- `ask`; a `k` that is not given is 4.
  unfoldable pub ask : Text → ℕ → Attempt Answer
  unfolding ask_about retrieve
  ask question k = ask_about question (retrieve question k)

  unfoldable pub stream_about : Text → Attempt (List ScoredChunk) → List Text × Attempt (Unit {0})
  unfolding format_context
  stream_about question (threw e) = ([], threw e)
  stream_about question crashed = ([], crashed)
  stream_about question (returned chunks) = models.chat_stream (format_context chunks) question

  -- `stream`: the tokens that come, and how it ends.
  unfoldable pub stream : Text → ℕ → List Text × Attempt (Unit {0})
  unfolding stream_about retrieve
  stream question k = stream_about question (retrieve question k)

  -- What `AiController.stream` writes: an event for each token, and one for the end.
  module _ (stringify : Text → Text) (message : Attempt (Unit {0}) → Text) where
    abbrev end_of_event : Text
    end_of_event = newline ∷ newline ∷ []

    unfoldable pub token_events : List Text → Text
    token_events [] = []
    token_events (t ∷ tokens) =
        text "data: " ++ (stringify t ++ (end_of_event ++ token_events tokens))

    unfoldable pub last_event : Attempt (Unit {0}) → Text
    last_event (returned done) = text "event: done" ++ newline ∷ (text "data: {}" ++ end_of_event)
    last_event failed =
        text "event: error"
        ++ newline ∷ (text "data: " ++ (stringify (message failed) ++ end_of_event))

    unfoldable pub event_stream : Text → Text
    unfolding token_events last_event stream
    event_stream question =
        let (tokens, end) = stream question 4 in token_events tokens ++ last_event end
