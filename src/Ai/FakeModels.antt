-- ===== src/Ai/FakeModels.antt =====
-- `HashingEmbeddings` of modules/ai/llm/fake-models.ts: the counts of the words in their buckets. What is
-- made of the counts by doubles (each is divided by the length of the vector) is left out.
use Prim.Native.Nat.{bit_xor}
use vaultline.Prelude.{
  ℕ, zero, suc, ◌+◌, ◌*◌, ◌%◌, ◌<◌, ◌≡◌, refl, ap, ◌∙◌, Bool, List, [], ◌∷◌, ◌++◌, if◌then◌else◌,
  leb, ltb, ◌&&◌, ◌||◌, length, arith, Bool-cases, inl, inr,
}
use vaultline.Common.Texts.{Text}

abbrev dimensions : ℕ
dimensions = 768

-- `[a-z0-9]`
abbrev in_word : ℕ → Bool
in_word c = (leb 97 c && leb c 122) || (leb 48 c && leb c 57)

abbrev with_word : Text → List Text → List Text
with_word [] words = words
with_word (c ∷ s) words = (c ∷ s) ∷ words

-- `.match(/[a-z0-9]+/g)`, behind the beginning of a word.
unfoldable pub words_from : Text → Text → List Text
words_from word [] = with_word word []
words_from word (c ∷ s) =
    let longer = words_from (word ++ c ∷ []) s in
    let ended = words_from [] s in if in_word c then longer else with_word word ended

-- `hash = Math.imul(hash ^ ch.charCodeAt(0), 16777619) >>> 0`, for each character.
unfoldable pub hash_from : ℕ → Text → ℕ
hash_from hash [] = hash
hash_from hash (c ∷ word) = hash_from ((bit_xor hash c * 16_777_619) % 4_294_967_296) word

-- `vector[i] += 1`
unfoldable pub bump : ℕ → List ℕ → List ℕ
bump i [] = []
bump zero (n ∷ vector) = suc n ∷ vector
bump (suc i) (n ∷ vector) = n ∷ bump i vector

unfoldable pub count_word : Text → List ℕ → List ℕ
unfolding hash_from bump
count_word word vector =
    if ltb (length word) 3 then vector else bump (hash_from 2_166_136_261 word % dimensions) vector

unfoldable pub count_words : List Text → List ℕ → List ℕ
unfolding count_word
count_words [] vector = vector
count_words (word ∷ words) vector = count_words words (count_word word vector)

abbrev zeros : ℕ → List ℕ
zeros zero = []
zeros (suc n) = 0 ∷ zeros n

-- `vectorize`, up to the counts.
unfoldable pub vectorize : (to_lower_case : Text → Text) → Text → List ℕ
unfolding count_words words_from
vectorize to_lower_case s = count_words (words_from [] (to_lower_case s)) (zeros dimensions)

unfoldable pub sum : List ℕ → ℕ
sum [] = 0
sum (n ∷ vector) = n + sum vector

-- The words of three characters or more.
unfoldable pub long_words : List Text → ℕ
long_words [] = 0
long_words (word ∷ words) =
    let rest = long_words words in if ltb (length word) 3 then rest else suc rest

length-bump : (i : ℕ) (vector : List ℕ) → length (bump i vector) ≡ length vector
unfolding bump
length-bump i [] = refl
length-bump zero (n ∷ vector) = refl
length-bump (suc i) (n ∷ vector) = ap suc (length-bump i vector)

sum-bump : (i : ℕ) (vector : List ℕ) → i < length vector → sum (bump i vector) ≡ suc (sum vector)
unfolding bump sum
sum-bump i [] h = absurd (omega arith)
sum-bump zero (n ∷ vector) h = omega arith
sum-bump (suc i) (n ∷ vector) h = omega (arith, sum-bump i vector (omega arith))

count_words-counts :
    (words : List Text) (vector : List ℕ)
    → length vector ≡ 768
    → (length (count_words words vector) ≡ 768)
      × (sum (count_words words vector) ≡ long_words words + sum vector)
unfolding count_words count_word long_words
count_words-counts [] vector h = (h, omega arith)
count_words-counts (word ∷ words) vector h = elim (Bool-cases (ltb (length word) 3)) [
  | inl short ↦ rw short (count_words-counts words vector h)
  | inr long ↦
      let bucket = hash_from 2_166_136_261 word % 768 in
      let (size, total) =
        count_words-counts words (bump bucket vector) (length-bump bucket vector ∙ h) in
      rw long (size, omega (arith, total, sum-bump bucket vector (omega arith)))
]

length-zeros : (n : ℕ) → length (zeros n) ≡ n
length-zeros zero = refl
length-zeros (suc n) = ap suc (length-zeros n)

sum-zeros : (n : ℕ) → sum (zeros n) ≡ 0
unfolding sum
sum-zeros zero = refl
sum-zeros (suc n) = omega (arith, sum-zeros n)

-- The vector of any text has 768 places, and the counts in it add up to the words of three
-- characters or more: every such word is counted once, in a bucket that is there.
pub vectorize-counts :
    (to_lower_case : Text → Text) (s : Text)
    → (length (vectorize to_lower_case s) ≡ 768)
      × (sum (vectorize to_lower_case s) ≡ long_words (words_from [] (to_lower_case s)))
unfolding vectorize
vectorize-counts to_lower_case s =
    let words = words_from [] (to_lower_case s) in
    let (size, total) = count_words-counts words (zeros 768) (length-zeros 768) in
    (size, omega (arith, total, sum-zeros 768))
