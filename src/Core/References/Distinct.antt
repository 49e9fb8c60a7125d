-- ===== src/Core/References/Distinct.antt =====
-- Which references a printed one can be, and the references that one generator prints
-- (core/reference-number.singleton.ts).
use vaultline.Prelude.{
  ℕ, ◌+◌, ◌%◌, ◌<◌, ◌≤◌, ◌≡◌, ◌≢◌, ◌∙◌, refl, sym, ap, arith, List, [], ◌∷◌, ◌++◌, map, length,
}
use vaultline.Common.Texts.{Text, text}
use vaultline.Entities.{Prefix, txn, dep, wdl, trf, rev, pay, Reference}
use vaultline.Core.References.{prefix_text, reference_text}
use vaultline.Core.References.Digits.{
  to_string, pad_start, append-injective, length-pad_start, power, pad_start-injective,
}
use vaultline.Transactions.Ledger.Postings.{Clock, Bank, next_sequence, next_reference}

-- The parts have the room that they are printed in.
pub record IsPrintable (r : Reference) : Type 0 where
  pub date_fits : r.date < 100_000_000
  pub sequence_fits : r.sequence < 1_000_000
  pub random_fits : r.random < 1296

length-prefix_text : (p : Prefix) → length (prefix_text p) ≡ 3
length-prefix_text txn = refl
length-prefix_text dep = refl
length-prefix_text wdl = refl
length-prefix_text trf = refl
length-prefix_text rev = refl
length-prefix_text pay = refl

prefix_text-injective : (p q : Prefix) → prefix_text p ≡ prefix_text q → p ≡ q
prefix_text-injective p q h = ground arith

-- Padded digits of the same width, in front of other texts.
digits-injective :
    (base width m n : ℕ) (u v : Text)
    → 2 ≤ base
    → 1 ≤ width
    → m < power base width
    → n < power base width
    → pad_start width (to_string base m) ++ u ≡ pad_start width (to_string base n) ++ v
    → (m ≡ n) × (u ≡ v)
digits-injective base width m n u v radix some_room h k e =
    let (front, back) =
      append-injective (pad_start width (to_string base m)) (pad_start width (to_string base n)) u v
        (length-pad_start base radix width m some_room h
          ∙ sym (length-pad_start base radix width n some_room k))
        e in
    (pad_start-injective base radix width m n some_room h k front, back)

module _ (node_tag : Text) (r s : Reference) (fits : IsPrintable r) (fits' : IsPrintable s) where
  -- Two references of a node whose parts fit are printed alike only if they are the same.
  pub reference_text-injective : reference_text node_tag r ≡ reference_text node_tag s → r ≡ s
  unfolding reference_text
  reference_text-injective e =
      let (prefixes, behind_prefix) =
        append-injective (prefix_text r.prefix) (prefix_text s.prefix) _ _
          (length-prefix_text r.prefix ∙ sym (length-prefix_text s.prefix)) e in
      let (dash, dates) = append-injective (text "-") (text "-") _ _ refl behind_prefix in
      let (date, behind_date) =
        digits-injective 10 8 r.date s.date _ _ (omega arith) (omega arith) fits.date_fits
          fits'.date_fits dates in
      let (dash', tags) = append-injective (text "-") (text "-") _ _ refl behind_date in
      let (tag, behind_tag) = append-injective node_tag node_tag _ _ refl tags in
      let (dash'', numbers) = append-injective (text "-") (text "-") _ _ refl behind_tag in
      let (sequence, randoms) =
        digits-injective 10 6 r.sequence s.sequence _ _ (omega arith) (omega arith)
          fits.sequence_fits fits'.sequence_fits numbers in
      let random =
        pad_start-injective 36 (omega arith) 2 r.random s.random (omega arith) fits.random_fits
          fits'.random_fits randoms in
      let prefix = prefix_text-injective r.prefix s.prefix prefixes in cc

-- The references of so many calls of `next`, each at its time and with its prefix. What else happens
-- between two calls leaves the counter as it is.
unfoldable pub issued : List (Clock × Prefix) → Bank → List Reference
unfolding next_reference
issued [] bank = []
issued ((clock, prefix) ∷ calls) bank =
    let (r, bank') = next_reference clock prefix bank in r ∷ issued calls bank'

unfoldable pub AreClocks : List (Clock × Prefix) → Type 0
AreClocks [] = Unit {0}
AreClocks ((clock, prefix) ∷ calls) =
    (clock.date < 100_000_000) × (clock.random < 1296) × AreClocks calls

-- No text is the given one; no two texts are the same.
unfoldable pub AreOthers : Text → List Text → Type 0
AreOthers t [] = Unit {0}
AreOthers t (u ∷ texts) = (t ≢ u) × AreOthers t texts

unfoldable pub AreDistinct : List Text → Type 0
AreDistinct [] = Unit {0}
AreDistinct (t ∷ texts) = AreOthers t texts × AreDistinct texts

next_reference-IsPrintable :
    (clock : Clock) (prefix : Prefix) (bank : Bank)
    → clock.date < 100_000_000
    → clock.random < 1296
    → IsPrintable (next_reference clock prefix bank).0
unfolding next_reference next_sequence
next_reference-IsPrintable clock prefix bank date random = record {
  date_fits = date;
  sequence_fits = omega arith;
  random_fits = random;
}

-- A step of a counter that is `gone` steps past `first`.
one_step :
    (first gone now : ℕ)
    → (first + gone) % 1_000_000 ≡ now
    → (first + (gone + 1)) % 1_000_000 ≡ (now + 1) % 1_000_000
one_step first gone now h = omega arith

not_round :
    (first gone : ℕ)
    → gone + 1 < 1_000_000
    → first < 1_000_000
    → (first + (gone + 1)) % 1_000_000 ≢ first
not_round first gone h k e = omega arith

module _ (node_tag : Text) where
  -- The counter is `gone` steps past that of `r`, and does not come round to it.
  issued-AreOthers :
      (r : Reference) (calls : List (Clock × Prefix)) (bank : Bank) (gone : ℕ)
      → IsPrintable r
      → AreClocks calls
      → (r.sequence + gone) % 1_000_000 ≡ bank.sequence
      → gone + length calls < 1_000_000
      → AreOthers (reference_text node_tag r) (map (reference_text node_tag) (issued calls bank))
  unfolding issued next_sequence AreOthers AreClocks
  issued-AreOthers r [] bank gone fits clocks at_gone short = tt
  issued-AreOthers r ((clock, prefix) ∷ calls) bank gone fits (date, random, clocks) at_gone short =
      let (s, bank') = next_reference clock prefix bank in
      let fits' = next_reference-IsPrintable clock prefix bank date random in
      let step = one_step r.sequence gone bank.sequence at_gone in
      (
        λ same. not_round r.sequence gone (omega arith) fits.sequence_fits (
            step
            ∙ ap (λ q. q.sequence) (sym (reference_text-injective node_tag r s fits fits' same))),
        issued-AreOthers r calls bank' (gone + 1) fits clocks step (omega arith),
      )

  -- Of a million references at most that a generator hands out one after the other, at any times and
  -- with any prefixes and random numbers, no two are printed alike.
  pub issued-AreDistinct :
      (calls : List (Clock × Prefix)) (bank : Bank)
      → AreClocks calls
      → length calls ≤ 1_000_000
      → AreDistinct (map (reference_text node_tag) (issued calls bank))
  unfolding issued next_sequence AreDistinct AreClocks
  issued-AreDistinct [] bank clocks short = tt
  issued-AreDistinct ((clock, prefix) ∷ calls) bank (date, random, clocks) short =
      let (r, bank') = next_reference clock prefix bank in
      let fits = next_reference-IsPrintable clock prefix bank date random in
      (
        issued-AreOthers r calls bank' 0 fits clocks (omega arith) (omega arith),
        issued-AreDistinct calls bank' clocks (omega arith),
      )
