-- ===== src/Core/References/Digits.antt =====
-- Numbers in texts, `n.toString(base).toUpperCase()`, and `padStart(width, '0')`, as
-- modules/core/reference-number.singleton.ts uses them.
use vaultline.Prelude.{
  ℕ, zero, suc, ◌+◌, ◌-◌, ◌*◌, ◌/◌, ◌%◌, ◌<◌, ◌≤◌, ◌≡◌, refl, arith, ◌∙◌, [], ◌∷◌, ◌++◌, ltb,
  if◌then◌else◌, length, length-append, append_assoc, ap, sym, Bool-cases, inl, inr,
}
use vaultline.Prelude.Int.{ℤ, pos, negsuc}
use vaultline.Common.Texts.{Text}

-- The digits after 9 are the letters from A on.
abbrev pub digit : ℕ → ℕ
digit d = if ltb d 10 then 48 + d else 55 + d

-- The digits of a number, on fuel: a number is not larger than itself.
unfoldable pub digits_of : ℕ → ℕ → ℕ → Text
digits_of zero base n = []
digits_of (suc fuel) base n =
    let rest = digits_of fuel base (n / base) in
    if ltb n base then digit n ∷ [] else rest ++ digit (n % base) ∷ []

unfoldable pub to_string : ℕ → ℕ → Text
unfolding digits_of
to_string base n = digits_of (suc n) base n

-- `${n}` of a whole number.
unfoldable pub number_text : ℤ → Text
unfolding to_string
number_text (pos n) = to_string 10 n
number_text (negsuc n) = 45 ∷ to_string 10 (suc n)

abbrev pub zeros : ℕ → Text
zeros zero = []
zeros (suc n) = 48 ∷ zeros n

unfoldable pub pad_start : ℕ → Text → Text
pad_start width s = zeros (width - length s) ++ s

-- A number in a fixed number of digits.
unfoldable pub fixed : ℕ → ℕ → ℕ → Text
fixed base zero n = []
fixed base (suc width) n = fixed base width (n / base) ++ digit (n % base) ∷ []

abbrev pub power : ℕ → ℕ → ℕ
power base zero = 1
power base (suc width) = base * power base width

-- What is true of quotients by any base.
div-lt : (b m n : ℕ) → m < b * n → m / b < n
div-lt b m n h = grind arith

div_mod-injective : (b m n : ℕ) → m / b ≡ n / b → m % b ≡ n % b → m ≡ n
div_mod-injective b m n h k = omega (arith, ap (λ q. b * q) h)

div-smaller : (b n : ℕ) → 2 ≤ b → b ≤ n → n / b < n
div-smaller b n h k = grind arith

digit-injective : (a b : ℕ) → digit a ≡ digit b → a ≡ b
digit-injective a b h = ground arith

zeros-snoc : (n : ℕ) → zeros n ++ 48 ∷ [] ≡ 48 ∷ zeros n
zeros-snoc zero = refl
zeros-snoc (suc n) = ap (λ s. 48 ∷ s) (zeros-snoc n)

-- Where the first parts are of one length, equal texts have equal parts.
pub append-injective : (s t u v : Text) → length s ≡ length t → s ++ u ≡ t ++ v → (s ≡ t) × (u ≡ v)
append-injective [] [] u v h e = (refl, e)
append-injective [] (b ∷ t) u v h e = absurd (omega arith)
append-injective (a ∷ s) [] u v h e = absurd (omega arith)
append-injective (a ∷ s) (b ∷ t) u v h e =
    let (front, back) = append-injective s t u v (omega arith) (ground arith) in
    let first : a ≡ b = ground arith in (rw (first, front), back)

head-injective : {a b : ℕ} → a ∷ [] ≡ b ∷ [] → a ≡ b
head-injective e = ground arith

-- The first of some digits.
one_digit : (width c : ℕ) → pad_start (suc width) (c ∷ []) ≡ zeros width ++ c ∷ []
unfolding pad_start
one_digit width c = let size : suc width - 1 ≡ width = omega arith in rw size

module _ (base : ℕ) (radix : 2 ≤ base) where
  fixed-zero : (width : ℕ) → fixed base width 0 ≡ zeros width
  unfolding fixed
  fixed-zero zero = refl
  fixed-zero (suc width) =
      let quotient : 0 / base ≡ 0 = omega arith in
      let rest : 0 % base ≡ 0 = omega arith in
      rw (quotient, rest, fixed-zero width) (zeros-snoc width)

  pad_start-snoc :
      (width : ℕ) (s : Text) (c : ℕ)
      → pad_start (suc width) (s ++ c ∷ []) ≡ pad_start width s ++ c ∷ []
  unfolding pad_start
  pad_start-snoc width s c =
      let size : suc width - length (s ++ c ∷ []) ≡ width - length s =
        omega (arith, length-append s (c ∷ [])) in
      rw size (sym (append_assoc (zeros (width - length s)) s (c ∷ [])))

  -- A number of two digits has room for two.
  more_room : (width n : ℕ) → n < power base (suc width) → base ≤ n → 1 ≤ width
  more_room zero n h k = absurd (omega arith)
  more_room (suc width) n h k = omega arith

  length-fixed : (width n : ℕ) → length (fixed base width n) ≡ width
  unfolding fixed
  length-fixed zero n = refl
  length-fixed (suc width) n = omega (
    arith,
    length-append (fixed base width (n / base)) (digit (n % base) ∷ []),
    length-fixed width (n / base),
  )

  -- A number that has room is padded to its fixed digits.
  pad_start-digits_of :
      (width fuel n : ℕ)
      → 1 ≤ width
      → n < power base width
      → n < fuel
      → pad_start width (digits_of fuel base n) ≡ fixed base width n
  unfolding digits_of fixed
  pad_start-digits_of zero fuel n some_room h k = absurd (omega arith)
  pad_start-digits_of (suc width) zero n some_room h k = absurd (omega arith)
  pad_start-digits_of (suc width) (suc fuel) n some_room h k = elim (Bool-cases (ltb n base)) [
    | inl small ↦
        let below : n < base = ground arith in
        let quotient : n / base ≡ 0 = grind arith in
        let rest : n % base ≡ n = grind arith in
        rw (small, quotient, rest, fixed-zero width) (one_digit width (digit n))
    | inr large ↦
        let above : base ≤ n = ground arith in
        let room = div-lt base n (power base width) h in
        let shorter = div-smaller base n radix above in
        rw large (
          pad_start-snoc width (digits_of fuel base (n / base)) (digit (n % base))
          ∙ ap (λ s. s ++ digit (n % base) ∷ [])
              (pad_start-digits_of width fuel (n / base) (more_room width n h above) room
                (omega arith)))
  ]

  fixed-injective :
      (width m n : ℕ)
      → m < power base width
      → n < power base width
      → fixed base width m ≡ fixed base width n
      → m ≡ n
  unfolding fixed
  fixed-injective zero m n h k e = omega arith
  fixed-injective (suc width) m n h k e =
      let (front, last) =
        append-injective (fixed base width (m / base)) (fixed base width (n / base))
          (digit (m % base) ∷ []) (digit (n % base) ∷ [])
          (length-fixed width (m / base) ∙ sym (length-fixed width (n / base))) e in
      let quotient =
        fixed-injective width (m / base) (n / base) (div-lt base m (power base width) h)
          (div-lt base n (power base width) k) front in
      div_mod-injective base m n quotient
        (digit-injective (m % base) (n % base) (head-injective last))

  module _ (width n : ℕ) (some_room : 1 ≤ width) (room : n < power base width) where
    pad_start-fixed : pad_start width (to_string base n) ≡ fixed base width n
    unfolding to_string
    pad_start-fixed = pad_start-digits_of width (suc n) n some_room room (omega arith)

    pub length-pad_start : length (pad_start width (to_string base n)) ≡ width
    length-pad_start = rw pad_start-fixed (length-fixed width n)

  -- Padded digits tell the number.
  pub pad_start-injective :
      (width m n : ℕ)
      → 1 ≤ width
      → m < power base width
      → n < power base width
      → pad_start width (to_string base m) ≡ pad_start width (to_string base n)
      → m ≡ n
  pad_start-injective width m n some_room h k e =
      fixed-injective width m n h k
        (sym (pad_start-fixed width m some_room h) ∙ e ∙ pad_start-fixed width n some_room k)
