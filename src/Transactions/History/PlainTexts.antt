-- ===== src/Transactions/History/PlainTexts.antt =====
-- The texts of the export of transactions.controller.ts that are read as they stand.
use vaultline.Prelude.{
  ℕ, zero, suc, ◌-◌, ◌/◌, ◌%◌, ltb, length, Bool-cases, inl, inr, ◌≡◌, refl, arith, false, [], ◌∷◌,
  ◌++◌, map,
}
use vaultline.Prelude.Int.{ℤ, pos, negsuc}
use vaultline.Common.Texts.{Text, text}
use vaultline.Entities.{LedgerEntryType, Prefix, Reference}
use vaultline.Core.References.{plain_character, prefix_text, reference_text}
use vaultline.Core.References.Digits.{digit, number_text, zeros, digits_of, to_string, pad_start}
use vaultline.Statements.Reader.{breaks}
use vaultline.Transactions.History.Export.{type_text}

-- A text that a reader reads as it stands: no quote, no comma and no line end.
abbrev pub IsPlain : Text → Type 0
IsPlain s = breaks s ≡ false

append-IsPlain : (s t : Text) → IsPlain s → IsPlain t → IsPlain (s ++ t)
unfolding breaks
append-IsPlain [] t h k = k
append-IsPlain (c ∷ s) t h k = ground (arith, append-IsPlain s t)

digit-IsPlain : (d : ℕ) → IsPlain (digit d ∷ [])
unfolding breaks
digit-IsPlain d = ground arith

dash : IsPlain (text "-")
unfolding breaks
dash = refl

zeros-IsPlain : (n : ℕ) → IsPlain (zeros n)
unfolding breaks
zeros-IsPlain zero = refl
zeros-IsPlain (suc n) = zeros-IsPlain n

digits_of-IsPlain : (fuel base n : ℕ) → IsPlain (digits_of fuel base n)
unfolding digits_of breaks
digits_of-IsPlain zero base n = refl
digits_of-IsPlain (suc fuel) base n = elim (Bool-cases (ltb n base)) [
  | inl small ↦ rw small (digit-IsPlain n)
  | inr large ↦ rw large (
      append-IsPlain (digits_of fuel base (n / base)) (digit (n % base) ∷ [])
        (digits_of-IsPlain fuel base (n / base)) (digit-IsPlain (n % base)))
]

pad_start-IsPlain : (width base n : ℕ) → IsPlain (pad_start width (to_string base n))
unfolding pad_start to_string
pad_start-IsPlain width base n =
    append-IsPlain (zeros (width - length (digits_of (suc n) base n))) (digits_of (suc n) base n)
      (zeros-IsPlain (width - length (digits_of (suc n) base n))) (digits_of-IsPlain (suc n) base n)

pub number_text-IsPlain : (n : ℤ) → IsPlain (number_text n)
unfolding number_text to_string breaks
number_text-IsPlain (pos n) = digits_of-IsPlain (suc n) 10 n
number_text-IsPlain (negsuc n) = digits_of-IsPlain (suc (suc n)) 10 (suc n)

pub type_text-IsPlain : (t : LedgerEntryType) → IsPlain (type_text t)
unfolding breaks
type_text-IsPlain t = ground arith

prefix_text-IsPlain : (p : Prefix) → IsPlain (prefix_text p)
unfolding breaks
prefix_text-IsPlain p = ground arith

pub tag-IsPlain : (s : Text) → IsPlain (map plain_character s)
unfolding breaks
tag-IsPlain [] = refl
tag-IsPlain (c ∷ s) = ground (arith, tag-IsPlain s)

pub reference_text-IsPlain :
    (tag : Text) (r : Reference) → IsPlain tag → IsPlain (reference_text tag r)
unfolding reference_text
reference_text-IsPlain tag r plain_tag =
    let numbers =
      append-IsPlain (pad_start 6 (to_string 10 r.sequence)) (pad_start 2 (to_string 36 r.random))
        (pad_start-IsPlain 6 10 r.sequence) (pad_start-IsPlain 2 36 r.random) in
    append-IsPlain (prefix_text r.prefix) _ (prefix_text-IsPlain r.prefix) (
      append-IsPlain (text "-") _ dash (
        append-IsPlain (pad_start 8 (to_string 10 r.date)) _ (pad_start-IsPlain 8 10 r.date) (
          append-IsPlain (text "-") _ dash
            (append-IsPlain tag _ plain_tag (append-IsPlain (text "-") _ dash numbers)))))
