-- ===== src/Fraud/Literals.antt =====
-- A reader of whole numbers, which does what `Number` of the language does on them.
use mathlib.Core.Path.{subst}
use vaultline.Prelude.{
  ℕ, zero, suc, ◌+◌, ◌-◌, ◌*◌, ◌/◌, ◌%◌, ◌<◌, ◌≡◌, refl, ap, ◌∙◌, false, [], ◌∷◌, ◌++◌, Bool-cases,
  inl, inr, arith, if◌then◌else◌, ◌==◌, ltb,
}
use vaultline.Prelude.Int.{ℤ, pos, negsuc}
use vaultline.Common.Texts.{Text}
use vaultline.Core.References.Digits.{digit, digits_of, to_string, number_text}
use vaultline.Fraud.Tokenizer.{is_digit}
use vaultline.Common.Texts.{AllAre}
use vaultline.Fraud.ValueTexts.{to_string-HasFirst, to_string-AllAre}

-- The number that digits spell behind those of `n`.
unfoldable pub value : ℕ → Text → ℕ
value n [] = n
value n (c ∷ s) = value (n * 10 + (c - 48)) s

abbrev negative : ℕ → ℤ
negative zero = pos 0
negative (suc n) = negsuc n

unfoldable pub literal : Text → ℤ
unfolding value
literal [] = pos 0
literal (c ∷ s) = if c == 45 then negative (value 0 s) else pos (value 0 (c ∷ s))

value-snoc : (n : ℕ) (s : Text) (c : ℕ) → value n (s ++ c ∷ []) ≡ value n s * 10 + (c - 48)
unfolding value
value-snoc n [] c = refl
value-snoc n (d ∷ s) c = value-snoc (n * 10 + (d - 48)) s c

value-digits_of : (fuel n : ℕ) → n < fuel → value 0 (digits_of fuel 10 n) ≡ n
unfolding value digits_of
value-digits_of zero n h = absurd (omega arith)
value-digits_of (suc fuel) n h = elim (Bool-cases (ltb n 10)) [
  | inl small ↦ rw small (omega arith)
  | inr large ↦
      let above : (n / 10 < fuel) × (digit (n % 10) - 48 ≡ n % 10) = ground arith in
      let rest = value-digits_of fuel (n / 10) above.0 in
      rw large
        (value-snoc 0 (digits_of fuel 10 (n / 10)) (digit (n % 10)) ∙ omega (arith, rest, above.1))
]

value-to_string : (n : ℕ) → value 0 (to_string 10 n) ≡ n
unfolding to_string
value-to_string n = value-digits_of (suc n) n (omega arith)

pub literal-number_text : (n : ℤ) → literal (number_text n) ≡ n
unfolding literal number_text AllAre
literal-number_text (pos n) =
    let (d, s, shape) = to_string-HasFirst n in
    let first = subst (AllAre is_digit) shape (to_string-AllAre n) in
    let no_sign : (d == 45) ≡ false = ground arith in
    rw (shape, no_sign) (ap pos (rw shape at (value-to_string n)))
literal-number_text (negsuc n) = rw (value-to_string (suc n)) refl
