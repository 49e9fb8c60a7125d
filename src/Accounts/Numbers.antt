-- ===== src/Accounts/Numbers.antt =====
-- `newAccountNumber` of modules/accounts/accounts.service.ts, and the check that
-- modules/payments/payment-rail.abstract-factory.ts makes of such a number. The random digits are arguments.
use vaultline.Prelude.{
  ℕ, zero, suc, ◌+◌, false, sym, ◌≤◌, ◌<◌, ◌≡◌, refl, ap, ◌∙◌, arith, Bool, true, List, [], ◌∷◌,
  ◌++◌, some, length, ltb, ◌/◌, ◌%◌, append-nil,
}
use vaultline.Common.Texts.{Text, text, same_text, AllAre}
use vaultline.Core.References.Digits.{to_string, digits_of}
use vaultline.Payments.{is_digit, eat, is_pakistani_iban}

-- `digits.join('')`
unfoldable pub join_digits : List ℕ → Text
unfolding to_string
join_digits [] = []
join_digits (d ∷ digits) = to_string 10 d ++ join_digits digits

unfoldable pub new_account_number : (check : ℕ) (digits : List ℕ) → Text
unfolding to_string join_digits
new_account_number check digits =
    text "PK" ++ (to_string 10 check ++ (text "NBPT" ++ join_digits digits))

-- What `randomInt(0, 10)` can be.
unfoldable pub AreDigits : List ℕ → Type 0
AreDigits [] = Unit {0}
AreDigits (d ∷ digits) = (d < 10) × AreDigits digits

short_digits : (fuel d : ℕ) → 1 ≤ fuel → d < 10 → digits_of fuel 10 d ≡ (48 + d) ∷ []
unfolding digits_of
short_digits zero d some_fuel h = absurd (omega arith)
short_digits (suc fuel) d some_fuel h = let small : ltb d 10 ≡ true = ground arith in rw small refl

one_digit : (d : ℕ) → d < 10 → to_string 10 d ≡ (48 + d) ∷ []
unfolding to_string
one_digit d h = short_digits (suc d) d (omega arith) h

two_digit_text : (n : ℕ) → 10 ≤ n → n < 100 → to_string 10 n ≡ (48 + n / 10) ∷ (48 + n % 10) ∷ []
unfolding to_string digits_of
two_digit_text n h k =
    let large : ltb n 10 ≡ false = ground arith in
    let small : ltb (n % 10) 10 ≡ true = ground arith in
    rw (large, short_digits n (n / 10) (omega arith) (omega arith), small) refl

eat-append :
    (test : ℕ → Bool) (s rest : Text) → AllAre test s → eat test (length s) (s ++ rest) ≡ some rest
unfolding eat AllAre
eat-append test [] rest h = refl
eat-append test (c ∷ s) rest (own, h) = rw (own, eat-append test s rest h) refl

join_digits-AllAre : (digits : List ℕ) → AreDigits digits → AllAre is_digit (join_digits digits)
unfolding join_digits AreDigits AllAre
join_digits-AllAre [] h = tt
join_digits-AllAre (d ∷ digits) (own, h) =
    rw (one_digit d own) (ground arith, join_digits-AllAre digits h)

length-join_digits :
    (digits : List ℕ) → AreDigits digits → length (join_digits digits) ≡ length digits
unfolding join_digits AreDigits
length-join_digits [] h = refl
length-join_digits (d ∷ digits) (own, h) =
    rw (one_digit d own) (ap suc (length-join_digits digits h))

-- Every number that a new account can get passes the check that a RAAST payment makes of the
-- beneficiary's: the check digits are from 10 to 98, and sixteen digits follow the bank's code.
pub new_account_number-IsIban :
    (check : ℕ) (digits : List ℕ)
    → 10 ≤ check
    → check < 99
    → length digits ≡ 16
    → AreDigits digits
    → is_pakistani_iban (new_account_number check digits) ≡ true
unfolding is_pakistani_iban new_account_number eat same_text AllAre
new_account_number-IsIban check digits h k size all =
    let first = 48 + check / 10 in
    let second = 48 + check % 10 in
    let behind_bank : eat is_digit 16 (join_digits digits) ≡ some [] =
      ap (λ n. eat is_digit n (join_digits digits)) (sym (length-join_digits digits all ∙ size))
      ∙ rw append-nil at
          (eat-append is_digit (join_digits digits) [] (join_digits-AllAre digits all)) in
    let behind_check : eat is_digit 2 (first ∷ second ∷ text "NBPT" ++ join_digits digits)
        ≡ some (text "NBPT" ++ join_digits digits) =
      eat-append is_digit (first ∷ second ∷ []) (text "NBPT" ++ join_digits digits)
        (ground arith, (ground arith, tt)) in
    rw (two_digit_text check h (omega arith), behind_check, behind_bank) refl
