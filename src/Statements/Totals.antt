-- ===== src/Statements/Totals.antt =====
-- The figures of a detailed statement.
use vaultline.Prelude.{◌≡◌, refl, sym, ap, ◌∙◌, List, [], ◌∷◌, Bool-cases, inl, inr, if◌then◌else◌}
use vaultline.Prelude.Int.{ℤ, pos, ◌+ℤ◌, ltb_ℤ, int_laws, +ℤ-zero}
use vaultline.Statements.{StatementLine, credits, debits, opening}

-- The lines lead from one balance to another: each says the balance that it leaves.
unfoldable pub IsRunning : ℤ → List StatementLine → ℤ → Type 0
IsRunning start [] end = start ≡ end
IsRunning start (l ∷ lines) end =
    (l.balance_after_minor ≡ start +ℤ l.amount_minor) × IsRunning l.balance_after_minor lines end

abbrev gain : ℤ → ℤ
gain a = if ltb_ℤ (pos 0) a then a else pos 0

abbrev loss : ℤ → ℤ
loss a = if ltb_ℤ a (pos 0) then a else pos 0

-- An amount is a credit, a debit, or nothing.
gain-loss : (a : ℤ) → gain a +ℤ loss a ≡ a
gain-loss a = grind int_laws

credits-gain :
    (l : StatementLine) (lines : List StatementLine)
    → credits (l ∷ lines) ≡ gain l.amount_minor +ℤ credits lines
unfolding credits
credits-gain l lines = elim (Bool-cases (ltb_ℤ (pos 0) l.amount_minor)) [
  | inl e ↦ rw e refl
  | inr e ↦ rw e (omega int_laws)
]

debits-loss :
    (l : StatementLine) (lines : List StatementLine)
    → debits (l ∷ lines) ≡ loss l.amount_minor +ℤ debits lines
unfolding debits
debits-loss l lines = elim (Bool-cases (ltb_ℤ l.amount_minor (pos 0))) [
  | inl e ↦ rw e refl
  | inr e ↦ rw e (omega int_laws)
]

running-sum :
    (start end : ℤ) (lines : List StatementLine)
    → IsRunning start lines end
    → start +ℤ credits lines +ℤ debits lines ≡ end
unfolding IsRunning credits debits
running-sum start end [] h = +ℤ-zero (start +ℤ pos 0) ∙ +ℤ-zero start ∙ h
running-sum start end (l ∷ lines) (step, h) =
    let apart : start
          +ℤ (gain l.amount_minor +ℤ credits lines)
          +ℤ (loss l.amount_minor +ℤ debits lines)
        ≡ start +ℤ (gain l.amount_minor +ℤ loss l.amount_minor) +ℤ credits lines +ℤ debits lines =
      omega int_laws in
    rw (credits-gain l lines, debits-loss l lines)
      (apart
        ∙ ap (λ n. start +ℤ n +ℤ credits lines +ℤ debits lines) (gain-loss l.amount_minor)
        ∙ ap (λ n. n +ℤ credits lines +ℤ debits lines) (sym step)
        ∙ running-sum l.balance_after_minor end lines h)

opening-start :
    (start current : ℤ) (lines : List StatementLine)
    → IsRunning start lines current
    → opening current lines ≡ start
unfolding IsRunning opening
opening-start start current [] h = sym h
opening-start start current (l ∷ lines) (step, h) = rw step (omega int_laws)

-- Where the lines lead from a balance to the current one, the opening balance of a detailed statement is
-- the first of the two, and the credits and the debits lead from it to the closing balance.
pub opening-closing :
    (start current : ℤ) (lines : List StatementLine)
    → IsRunning start lines current
    → (opening current lines ≡ start)
      × (opening current lines +ℤ credits lines +ℤ debits lines ≡ current)
opening-closing start current lines h =
    let first = opening-start start current lines h in
    (first, ap (λ n. n +ℤ credits lines +ℤ debits lines) first ∙ running-sum start current lines h)
