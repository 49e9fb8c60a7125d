-- ===== src/Ai/Rag/Grounded.antt =====
-- What an answer of rag.service.ts rests on.
use vaultline.Prelude.{
  ℕ, ◌≤◌, ◌++◌, take, sym, ap, ◌∙◌, append_assoc, ◌≡◌, refl, Option, none, some, List, [], ◌∷◌, map,
  length, Bool-cases, Option-cases, inl, inr, ◌⊎◌, arith,
}
use vaultline.Prelude.Int.{pos, ◌≤ℤ◌, leb_ℤ}
use vaultline.Common.{Reason, dependency_unavailable, retrieval_failed, chat_model_failed}
use vaultline.Common.Texts.{Text, text}
use vaultline.Core.References.Digits.{to_string}
use vaultline.Statements.Renderers.{join}
use vaultline.Ai.Store.{
  Attempt, threw, returned, Chunk, ScoredChunk, scored_from, similarity_search,
}
use vaultline.Ai.Rag.{
  Models, min_score, format_context, source_of, Answer, no_information, searched, search_for,
  retrieve, answered, ask_about, ask,
}

unfoldable pub IsIn : {V : Type 0} → Chunk V → List (Chunk V) → Type 0
IsIn c [] = ⊥
IsIn c (d ∷ table) = (c ≡ d) ⊎ IsIn c table

unfoldable pub AreIn : {V : Type 0} → List (Chunk V) → List (Chunk V) → Type 0
AreIn [] table = Unit {0}
AreIn (c ∷ rows) table = IsIn c table × AreIn rows table

-- What the database promises of its answer: rows of the table, and not too many.
pub record IsSearch {V : Type 0} (models : Models V) (table : List (Chunk V)) : Type 0 where
  pub bounded :
      (v : V) (k : ℕ) (rows : List (Chunk V))
      → models.nearest v k table ≡ some rows
      → length rows ≤ k
  pub found :
      (v : V) (k : ℕ) (rows : List (Chunk V))
      → models.nearest v k table ≡ some rows
      → AreIn rows table

-- What the chat model is told of a source.
abbrev told_of : ScoredChunk → Text
told_of c =
    text "[" ++ c.source ++ text " #" ++ to_string 10 c.chunk_index ++ text "]" ++ (10 ∷ c.content)

-- What it is told of the sources, with an empty line between two.
unfoldable pub told : List ScoredChunk → Text
unfolding to_string
told [] = []
told (c ∷ []) = told_of c
told (c ∷ d ∷ chunks) = told_of c ++ (10 ∷ 10 ∷ told (d ∷ chunks))

format_context-told : (chunks : List ScoredChunk) → format_context chunks ≡ told chunks
unfolding format_context join told
format_context-told [] = refl
format_context-told (c ∷ []) = simp append_assoc refl
format_context-told (c ∷ d ∷ chunks) = simp (append_assoc, format_context-told (d ∷ chunks)) refl

module _ {V : Type 0} (models : Models V) (table : List (Chunk V)) where
  -- A stored chunk, with its similarity to a vector, which is 0.05 at least.
  abbrev pub IsFrom : V → ScoredChunk → Type 0
  IsFrom v s =
      (c : Chunk V) × IsIn c table
      × (s ≡ record {
        source = c.source;
        chunk_index = c.chunk_index;
        content = c.content;
        score = models.similarity v c.embedding;
      })
      × (pos 500 ≤ℤ s.score)

  unfoldable pub AreFrom : V → List ScoredChunk → Type 0
  AreFrom v [] = Unit {0}
  AreFrom v (s ∷ chunks) = IsFrom v s × AreFrom v chunks

  length-scored_from :
      (v : V) (rows : List (Chunk V))
      → length (scored_from (models.similarity v) min_score rows) ≤ length rows
  unfolding scored_from
  length-scored_from v [] = omega arith
  length-scored_from v (c ∷ rows) =
      elim (Bool-cases (leb_ℤ min_score (models.similarity v c.embedding))) [
        | inl e ↦ rw e (omega (arith, length-scored_from v rows))
        | inr e ↦ rw e (omega (arith, length-scored_from v rows))
      ]

  scored_from-AreFrom :
      (v : V) (rows : List (Chunk V))
      → AreIn rows table
      → AreFrom v (scored_from (models.similarity v) min_score rows)
  unfolding scored_from AreFrom AreIn
  scored_from-AreFrom v [] h = tt
  scored_from-AreFrom v (c ∷ rows) (own, h) =
      elim (Bool-cases (leb_ℤ min_score (models.similarity v c.embedding))) [
        | inl e ↦ rw e ((c, own, refl, ground arith), scored_from-AreFrom v rows h)
        | inr e ↦ rw e (scored_from-AreFrom v rows h)
      ]

  -- The text of an answer that rests on some chunks.
  abbrev pub IsTold : Text → List ScoredChunk → Text → Type 0
  IsTold question [] answer =
      answer ≡ text "I don't have that information yet. Try POST /api/ai/ingest first."
  IsTold question (c ∷ chunks) answer =
      (reply : Text) × (models.chat (told (c ∷ chunks)) question ≡ some reply)
      × (answer ≡ models.trim reply)

  -- An answer to a question with the vector `v` rests on `k` chunks at most, each from the table.
  abbrev pub IsGrounded : Text → V → ℕ → Answer → Type 0
  IsGrounded question v k a =
      (used : List ScoredChunk) × (length used ≤ k)
      × AreFrom v used
      × (a.sources
          ≡ map
              (λ s. record {
                source = s.source;
                chunk = s.chunk_index;
                score = s.score;
                excerpt = take 160 s.content ++ text "...";
              })
              used)
      × IsTold question used a.answer

  -- A call throws only that a dependency is not there; else it returns such an answer.
  abbrev pub IsServed : Text → ℕ → Attempt Answer → Type 0
  IsServed question k outcome =
      ((r : Reason) × (outcome ≡ threw (dependency_unavailable r)))
      ⊎ ((v : V) × (a : Answer) × (models.embed_query question ≡ some v)
          × (outcome ≡ returned a)
          × IsGrounded question v k a)

  answered-IsServed :
      (question : Text) (v : V) (k : ℕ) (chunks : List ScoredChunk)
      → models.embed_query question ≡ some v
      → length chunks ≤ k
      → AreFrom v chunks
      → IsServed question k (ask_about models table question (returned chunks))
  unfolding ask_about answered
  answered-IsServed question v k [] own short from =
      inr (v, no_information, own, refl, ([], short, from, refl, refl))
  answered-IsServed question v k (c ∷ chunks) own short from =
      elim (Option-cases (models.chat (format_context (c ∷ chunks)) question)) [
        | inl e ↦ inl (chat_model_failed, rw e refl)
        | inr (t, e) ↦
            let a : Answer = record {
              answer = models.trim t;
              sources = map source_of (c ∷ chunks);
            } in
            let asked =
              ap (λ context. models.chat context question) (sym (format_context-told (c ∷ chunks)))
              ∙ e in
            inr (v, a, own, rw e refl, (c ∷ chunks, short, from, refl, (t, asked, refl)))
      ]

  search-IsServed :
      IsSearch models table
      → (question : Text) (k : ℕ) (vector : Option V) → models.embed_query question ≡ vector
      → IsServed question k (ask_about models table question (search_for models table vector k))
  unfolding ask_about search_for searched similarity_search
  search-IsServed search question k none own = inl (retrieval_failed, refl)
  search-IsServed search question k (some v) own = elim (Option-cases (models.nearest v k table)) [
    | inl e ↦ inl (retrieval_failed, rw e refl)
    | inr (rows, e) ↦
        let chunks = scored_from (models.similarity v) min_score rows in
        let short : length chunks ≤ k =
          omega (arith, length-scored_from v rows, search.bounded v k rows e) in
        let from = scored_from-AreFrom v rows (search.found v k rows e) in
        rw e (answered-IsServed question v k chunks own short from)
  ]

  -- Where the database answers with rows of the table, `k` at most: `ask` throws nothing but that a
  -- dependency is unavailable. What it returns rests on `k` stored chunks at most, whose similarity to
  -- the question is 0.05 at least: its sources are these, each with its place, its similarity and the
  -- start of its text, and its text is the chat model's reply to the question and the whole texts of
  -- these chunks, trimmed. If there are none, the text says that there is no information yet.
  pub ask-IsServed :
      IsSearch models table
      → (question : Text) (k : ℕ) → IsServed question k (ask models table question k)
  unfolding ask retrieve
  ask-IsServed search question k =
      search-IsServed search question k (models.embed_query question) refl
