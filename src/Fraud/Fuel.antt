-- ===== src/Fraud/Fuel.antt =====
-- The fuel that `parse` hands out suffices for every rule: the model never gives up where the program
-- would go on.
use vaultline.Prelude.{ℕ, zero, suc, ◌+◌, ◌*◌, ◌≤◌, ◌<◌, ◌≢◌, arith, [], ◌∷◌, length}
use vaultline.Fraud.Syntax.{
  Expression, conjunction, disjunction, Token, Tokens, ident, string, number, op, and_, or_, not_,
  lparen, rparen,
}
use vaultline.Fraud.Parser.{
  Parsed, parsed, failed, out_of_fuel, then_parse, parse_comparison, parse_or, or_loop, parse_and,
  and_loop, parse_not, parse_primary, expect_rparen, expect_ident, expect_op, parse_value, parse,
  finish, no_fuel,
}

-- The fuel lasted, and fewer than `n` tokens are left.
abbrev Within : {A : Type 0} → ℕ → Parsed A → Type 0
Within n (parsed a rest) = length rest < n
Within n (failed e) = Unit
Within n out_of_fuel = ⊥

Within-then :
    {A B : Type 0} (n m : ℕ) (p : Parsed A) (k : A → Tokens → Parsed B)
    → Within n p
    → ((a : A) (rest : Tokens) → length rest < n → Within m (k a rest))
    → Within m (then_parse p k)
Within-then n m (parsed a rest) k h next = next a rest h
Within-then n m (failed e) k h next = tt
Within-then n m out_of_fuel k h next = absurd h

expect_ident-Within : (ts : Tokens) → Within (length ts) (expect_ident ts)
unfolding expect_ident
expect_ident-Within (ident s ∷ rest) = omega arith
expect_ident-Within _ = tt

expect_op-Within : (ts : Tokens) → Within (length ts) (expect_op ts)
unfolding expect_op
expect_op-Within (op o ∷ rest) = omega arith
expect_op-Within _ = tt

parse_value-Within : (ts : Tokens) → Within (length ts) (parse_value ts)
unfolding parse_value
parse_value-Within [] = tt
parse_value-Within (number n ∷ rest) = omega arith
parse_value-Within (string s ∷ rest) = omega arith
parse_value-Within (Token.bool b ∷ rest) = omega arith
parse_value-Within (_ ∷ rest) = tt

expect_rparen-Within : (e : Expression) (ts : Tokens) → Within (length ts) (expect_rparen e ts)
unfolding expect_rparen
expect_rparen-Within e (rparen ∷ rest) = omega arith
expect_rparen-Within e _ = tt

Within-le : {A : Type 0} (n m : ℕ) (p : Parsed A) → n ≤ m → Within n p → Within m p
Within-le n m (parsed a rest) le h = omega arith
Within-le n m (failed e) le h = tt
Within-le n m out_of_fuel le h = absurd h

parse_comparison-Within : (ts : Tokens) → Within (length ts) (parse_comparison ts)
unfolding parse_comparison
parse_comparison-Within ts =
    Within-then (length ts) (length ts) (expect_ident ts) _ (expect_ident-Within ts) λ v rest h.
      Within-then (length rest) (length ts) (expect_op rest) _ (expect_op-Within rest) λ o rest' h'.
        Within-then (length rest') (length ts) (parse_value rest') _ (parse_value-Within rest')
          λ x rest'' h''. omega arith

mutual
  unfolding parse_or

  parse_or-Within :
      (f : ℕ) (ts : Tokens) → 4 * length ts + 4 ≤ f → Within (length ts) (parse_or f ts)
  parse_or-Within zero ts h = absurd (omega arith)
  parse_or-Within (suc f) ts h =
      Within-then (length ts) (length ts) (parse_and f ts) (or_loop f)
        (parse_and-Within f ts (omega arith))
        λ e rest less.
          Within-le (suc (length rest)) (length ts) _ less (or_loop-Within f e rest (omega arith))

  or_loop-Within :
      (f : ℕ) (left : Expression) (ts : Tokens)
      → 4 * length ts + 1 ≤ f
      → Within (suc (length ts)) (or_loop f left ts)
  or_loop-Within zero left ts h = absurd (omega arith)
  or_loop-Within (suc f) left (or_ ∷ rest) h =
      Within-then (length rest) (suc (suc (length rest))) (parse_and f rest) _
        (parse_and-Within f rest (omega arith))
        λ right rest' less.
          Within-le (suc (length rest')) _ _ (omega arith)
            (or_loop-Within f (disjunction left right) rest' (omega arith))
  or_loop-Within (suc f) left _ h = omega arith

  parse_and-Within :
      (f : ℕ) (ts : Tokens) → 4 * length ts + 3 ≤ f → Within (length ts) (parse_and f ts)
  parse_and-Within zero ts h = absurd (omega arith)
  parse_and-Within (suc f) ts h =
      Within-then (length ts) (length ts) (parse_not f ts) (and_loop f)
        (parse_not-Within f ts (omega arith))
        λ e rest less.
          Within-le (suc (length rest)) (length ts) _ less (and_loop-Within f e rest (omega arith))

  and_loop-Within :
      (f : ℕ) (left : Expression) (ts : Tokens)
      → 4 * length ts + 1 ≤ f
      → Within (suc (length ts)) (and_loop f left ts)
  and_loop-Within zero left ts h = absurd (omega arith)
  and_loop-Within (suc f) left (and_ ∷ rest) h =
      Within-then (length rest) (suc (suc (length rest))) (parse_not f rest) _
        (parse_not-Within f rest (omega arith))
        λ right rest' less.
          Within-le (suc (length rest')) _ _ (omega arith)
            (and_loop-Within f (conjunction left right) rest' (omega arith))
  and_loop-Within (suc f) left _ h = omega arith

  parse_not-Within :
      (f : ℕ) (ts : Tokens) → 4 * length ts + 2 ≤ f → Within (length ts) (parse_not f ts)
  parse_not-Within zero ts h = absurd (omega arith)
  parse_not-Within (suc f) (not_ ∷ rest) h =
      Within-then (length rest) (suc (length rest)) (parse_not f rest) _
        (parse_not-Within f rest (omega arith)) λ e rest' less. omega arith
  parse_not-Within (suc f) ts h = parse_primary-Within f _ (omega arith)

  parse_primary-Within :
      (f : ℕ) (ts : Tokens) → 4 * length ts + 1 ≤ f → Within (length ts) (parse_primary f ts)
  parse_primary-Within zero ts h = absurd (omega arith)
  parse_primary-Within (suc f) (lparen ∷ rest) h =
      Within-then (length rest) (suc (length rest)) (parse_or f rest) expect_rparen
        (parse_or-Within f rest (omega arith))
        λ e rest' less. Within-le (length rest') _ _ (omega arith) (expect_rparen-Within e rest')
  parse_primary-Within (suc f) _ h = parse_comparison-Within _

finish-Within : (n : ℕ) (p : Parsed Expression) → Within n p → finish p ≢ no_fuel
unfolding finish
finish-Within n (parsed e []) h = cc
finish-Within n (parsed e (t ∷ rest)) h = cc
finish-Within n (failed e) h = cc
finish-Within n out_of_fuel h = absurd h

-- The parser never runs out of fuel: every list of tokens is read as a rule or has a syntax
-- error.
pub parse-ne-no_fuel : (ts : Tokens) → parse ts ≢ no_fuel
unfolding parse
parse-ne-no_fuel [] = cc
parse-ne-no_fuel (t ∷ ts) =
    finish-Within (length (t ∷ ts)) _
      (parse_or-Within (4 * length (t ∷ ts) + 4) (t ∷ ts) (omega arith))
