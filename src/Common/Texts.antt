-- ===== src/Common/Texts.antt =====
-- Texts as the program walks them: the list of their character codes.
use Prim.Native.Char.{code}
use vaultline.Prelude.{ℕ, ◌≡◌, refl, arith, Bool, true, false, List, [], ◌∷◌, String, ◌==◌, ◌&&◌}

abbrev pub Text : Type 0
Text = List ℕ

-- A literal, which is ASCII.
abbrev pub text : String → Text
text String.[] = []
text (String.◌∷◌ c s) = code c ∷ text s

unfoldable pub same_text : Text → Text → Bool
same_text [] [] = true
same_text (a ∷ s) (b ∷ t) = (a == b) && same_text s t
same_text _ _ = false

pub same_text_refl : (s : Text) → same_text s s ≡ true
unfolding same_text
same_text_refl [] = ground arith
same_text_refl (a ∷ s) = ground (arith, same_text_refl s)

pub same_text_comm : (s t : Text) → same_text s t ≡ same_text t s
unfolding same_text
same_text_comm [] [] = refl
same_text_comm [] (b ∷ t) = refl
same_text_comm (a ∷ s) [] = refl
same_text_comm (a ∷ s) (b ∷ t) = ground (arith, same_text_comm s t)

pub same_text_eq : (s t : Text) → same_text s t ≡ true → s ≡ t
unfolding same_text
same_text_eq [] [] h = refl
same_text_eq [] (b ∷ t) h = cc
same_text_eq (a ∷ s) [] h = cc
same_text_eq (a ∷ s) (b ∷ t) h =
    let first : a ≡ b = ground arith in
    let rest = same_text_eq s t (ground arith) in rw (first, rest)

-- All characters are in a class.
unfoldable pub AllAre : (ℕ → Bool) → Text → Type 0
AllAre test [] = Unit {0}
AllAre test (c ∷ s) = (test c ≡ true) × AllAre test s
