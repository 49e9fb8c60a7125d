-- ===== src/Loans/Builder/Complete.antt =====
-- Which applications are built.
use vaultline.Prelude.{
  ℕ, ◌≡◌, ◌≢◌, ◌≤◌, ◌↔◌, ◌⊎◌, inl, inr, refl, sym, ◌∙◌, arith, Bool, true, false, Option, none,
  some, List, [], ◌∷◌, ◌++◌, Bool-cases, ◌||◌, ◌&&◌, ltb, String, str_eq_iff, str_eq,
}
use vaultline.Prelude.Int.{ℤ, pos, ◌+ℤ◌, ◌≤ℤ◌, ltb_ℤ}
use vaultline.Loans.Builder.{
  Collateral, LoanApplication, LoanApplicationBuilder, built, build, application_errors, conclude,
  application_of, or_empty, large_loan_minor, note, ApplicationError, applicant_name_required,
  account_required, amount_not_positive, income_required, term_out_of_range, needs_collateral,
  is_blank, is_not_positive, lacks_collateral, or_zero,
}

-- The collateral is worth half of the amount at least.
abbrev pub Covers : Option Collateral → ℤ → Type 0
Covers none amount = ⊥
Covers (some c) amount = amount ≤ℤ c.value_minor +ℤ c.value_minor

-- A name and an account, a positive amount and income, a term of 3 to 84 months, and collateral for
-- half of a large loan.
pub record IsComplete (a : LoanApplication) : Type 0 where
  pub named : a.applicant_name ≢ ""
  pub with_account : a.account_id ≢ ""
  pub amount_positive : pos 1 ≤ℤ a.amount_minor
  pub income_positive : pos 1 ≤ℤ a.monthly_income_minor
  pub long_enough : 3 ≤ a.term_months
  pub short_enough : a.term_months ≤ 84
  pub secured : (a.amount_minor ≤ℤ large_loan_minor) ⊎ Covers a.collateral a.amount_minor

all-clean :
    (t1 t2 t3 t4 t5 t6 : Bool)
    → note t1 applicant_name_required
        ++ (note t2 account_required
            ++ (note t3 amount_not_positive
                ++ (note t4 income_required
                    ++ (note t5 term_out_of_range ++ note t6 needs_collateral))))
      ≡ []
    → (t1 ≡ false) × (t2 ≡ false) × (t3 ≡ false) × (t4 ≡ false) × (t5 ≡ false) × (t6 ≡ false)
all-clean true t2 t3 t4 t5 t6 h = absurd (ground arith)
all-clean false true t3 t4 t5 t6 h = absurd (ground arith)
all-clean false false true t4 t5 t6 h = absurd (ground arith)
all-clean false false false true t5 t6 h = absurd (ground arith)
all-clean false false false false true t6 h = absurd (ground arith)
all-clean false false false false false true h = absurd (ground arith)
all-clean false false false false false false h = (refl, refl, refl, refl, refl, refl)

pub built-clean :
    (b : LoanApplicationBuilder) (a : LoanApplication) (errors : List ApplicationError)
    → conclude b errors ≡ built a
    → (errors ≡ []) × (application_of b ≡ a)
unfolding conclude
built-clean b a [] h = (refl, ground arith)
built-clean b a (e ∷ errors) h = ground arith

covered :
    (amount : ℤ) (collateral : Option Collateral)
    → (ltb_ℤ large_loan_minor amount && lacks_collateral amount collateral) ≡ false
    → (amount ≤ℤ large_loan_minor) ⊎ Covers collateral amount
covered amount none h = inl (ground arith)
covered amount (some c) h = ground arith

differs : true ≢ false
differs = λ e. ground arith

-- A text that is not blank, a number that is positive.
or_empty-ne : (name : Option String) → is_blank name ≡ false → or_empty name ≢ ""
or_empty-ne none h = λ _. absurd (ground arith)
or_empty-ne (some s) h = λ e. differs (sym ((str_eq_iff s "").1 e) ∙ h)

or_zero-pos : (n : Option ℤ) → is_not_positive n ≡ false → pos 1 ≤ℤ or_zero n
or_zero-pos none h = absurd (ground arith)
or_zero-pos (some n) h = ground arith

clean-IsComplete :
    (b : LoanApplicationBuilder) → application_errors b ≡ [] → IsComplete (application_of b)
unfolding application_errors
clean-IsComplete b h =
    let (name, account, amount, income, term, collateral) =
      all-clean (is_blank b.applicant_name) (is_blank b.account_id) (is_not_positive b.amount_minor)
        (is_not_positive b.monthly_income_minor) (ltb b.term_months 3 || ltb 84 b.term_months)
        (ltb_ℤ large_loan_minor (or_zero b.amount_minor)
          && lacks_collateral (or_zero b.amount_minor) b.collateral)
        h in
    record {
      named = or_empty-ne b.applicant_name name;
      with_account = or_empty-ne b.account_id account;
      amount_positive = or_zero-pos b.amount_minor amount;
      income_positive = or_zero-pos b.monthly_income_minor income;
      long_enough = ground arith;
      short_enough = ground arith;
      secured = covered (or_zero b.amount_minor) b.collateral collateral;
    }

not_blank : (name : Option String) → or_empty name ≢ "" → is_blank name ≡ false
not_blank none h = absurd (h refl)
not_blank (some s) h = elim (Bool-cases (str_eq s "")) [
  | inl e ↦ absurd (h ((str_eq_iff s "").0 e))
  | inr e ↦ e
]

positive : (n : Option ℤ) → pos 1 ≤ℤ or_zero n → is_not_positive n ≡ false
positive none h = absurd (ground arith)
positive (some n) h = ground arith

in_range : (n : ℕ) → 3 ≤ n → n ≤ 84 → (ltb n 3 || ltb 84 n) ≡ false
in_range n h h' = ground arith

not_short :
    (amount : ℤ) (collateral : Option Collateral)
    → (amount ≤ℤ large_loan_minor) ⊎ Covers collateral amount
    → (ltb_ℤ large_loan_minor amount && lacks_collateral amount collateral) ≡ false
not_short amount none h = ground arith
not_short amount (some c) h = ground arith

-- The builder builds an application from its parts exactly where the application is complete: a name
-- and an account, a positive amount and income, a term of 3 to 84 months, and collateral worth half
-- of the amount at least where the amount is above 200,000,000.
pub build_iff :
    (b : LoanApplicationBuilder)
    → build b ≡ built (application_of b) ↔ IsComplete (application_of b)
unfolding build application_errors conclude
build_iff b = (
  λ h. clean-IsComplete b (built-clean b _ (application_errors b) h).0,
  λ whole.
      rw
        (
          not_blank b.applicant_name whole.named,
          not_blank b.account_id whole.with_account,
          positive b.amount_minor whole.amount_positive,
          positive b.monthly_income_minor whole.income_positive,
          in_range b.term_months whole.long_enough whole.short_enough,
          not_short (or_zero b.amount_minor) b.collateral whole.secured,
        )
        refl,
)
