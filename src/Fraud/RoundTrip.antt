-- ===== src/Fraud/RoundTrip.antt =====
-- What `toString` prints parses back to the same expression, and AND binds tighter than OR.
use vaultline.Prelude.{
  ℕ, suc, ◌+◌, ◌*◌, ◌-◌, ◌≤◌, ◌<◌, ◌≡◌, ◌∙◌, refl, arith, [], ◌∷◌, ◌++◌, append_assoc, append-nil,
  length, length-append,
}
use vaultline.Fraud.Syntax.{
  Value, Expression, comparison, conjunction, disjunction, negation, Tokens, and_, or_, rparen,
  print, value_token,
}
use vaultline.Fraud.Parser.{
  parsed, parse_value, parse_comparison, parse_or, parse_not, expect_rparen, parse, finish, rule,
}

-- The fuel that reading a printed expression takes.
pub need : Expression → ℕ
need (comparison variable operator value) = 2
need (conjunction left right) = 5 + need left + need right
need (disjunction left right) = 5 + need left + need right
need (negation inner) = 1 + need inner

need_pos : (e : Expression) → 2 ≤ need e
unfolding need
need_pos (comparison variable operator value) = omega arith
need_pos (conjunction left right) = omega arith
need_pos (disjunction left right) = omega arith
need_pos (negation inner) = omega (arith, need_pos inner)

need-le-length : (e : Expression) → need e ≤ 4 * length (print e)
unfolding need print
need-le-length (comparison variable operator value) = omega arith
need-le-length (conjunction left right) = omega (
  arith,
  need-le-length left,
  need-le-length right,
  length-append (print left) (and_ ∷ (print right ++ (rparen ∷ []))),
  length-append (print right) (rparen ∷ []),
)
need-le-length (disjunction left right) = omega (
  arith,
  need-le-length left,
  need-le-length right,
  length-append (print left) (or_ ∷ (print right ++ (rparen ∷ []))),
  length-append (print right) (rparen ∷ []),
)
need-le-length (negation inner) = omega (arith, need-le-length inner)

parse_value-value_token :
    (v : Value) (rest : Tokens) → parse_value (value_token v ∷ rest) ≡ parsed v rest
unfolding parse_value value_token
parse_value-value_token (Value.str s) rest = refl
parse_value-value_token (Value.num n) rest = refl
parse_value-value_token (Value.bool b) rest = refl

six : (f : ℕ) → 6 ≤ f → f ≡ suc (suc (suc (suc (suc (suc (f - 6))))))
six f h = omega arith

two : (f : ℕ) → 2 ≤ f → f ≡ suc (suc (f - 2))
two f h = omega arith

-- With enough fuel `parseNot` reads a printed expression off the front of any tokens.
pub parse_not-print :
    (e : Expression) (f : ℕ) (rest : Tokens)
    → need e ≤ f
    → parse_not f (print e ++ rest) ≡ parsed e rest
unfolding need print parse_not parse_comparison expect_rparen
parse_not-print (comparison variable operator value) f rest h =
    rw (two f h) (rw (parse_value-value_token value rest))
parse_not-print (negation inner) f rest h =
    rw (two f (omega (arith, need_pos inner)))
      (rw (parse_not-print inner (suc (f - 2)) rest (omega (arith, need_pos inner))))
parse_not-print (conjunction left right) f rest h =
    rw (six f (omega (arith, need_pos left, need_pos right))) (
      simp (
        append_assoc,
        parse_not-print left (suc (suc (f - 6))) (and_ ∷ (print right ++ (rparen ∷ rest)))
            (omega (arith, need_pos left, need_pos right)),
        parse_not-print right (suc (f - 6)) (rparen ∷ rest)
            (omega (arith, need_pos left, need_pos right)),
      ))
parse_not-print (disjunction left right) f rest h =
    rw (six f (omega (arith, need_pos left, need_pos right))) (
      simp (
        append_assoc,
        parse_not-print left (suc (suc (f - 6))) (or_ ∷ (print right ++ (rparen ∷ rest)))
            (omega (arith, need_pos left, need_pos right)),
        parse_not-print right (suc (f - 6)) (rparen ∷ rest)
            (omega (arith, need_pos left, need_pos right)),
      ))

-- `parse` on tokens that are there.
parse_some :
    (ts : Tokens) (f : ℕ)
    → 0 < length ts
    → f + 1 ≡ 4 * length ts
    → parse ts ≡ finish (parse_or (suc (suc (suc (suc (suc f))))) ts)
unfolding parse
parse_some [] f h e = absurd (omega arith)
parse_some (t ∷ ts) f h e =
    let fuel : 4 * length (t ∷ ts) + 4 ≡ suc (suc (suc (suc (suc f)))) = omega arith in rw fuel

-- A rule that `toString` printed is read back as the same rule, whatever its shape.
pub parse-print : (e : Expression) → parse (print e) ≡ rule e
unfolding parse parse_or
parse-print e =
    let size = need-le-length e in
    let f = 4 * length (print e) - 1 in
    let read : parse_not (suc (suc (suc f))) (print e) ≡ parsed e [] =
      rw append-nil at (parse_not-print e (suc (suc (suc f))) [] (omega arith)) in
    parse_some (print e) f (omega (arith, need_pos e)) (omega (arith, need_pos e)) ∙ rw read

-- For all rules: what is printed of the first, OR, the second, AND and the third is read as the
-- first, or the conjunction of the other two.
pub and_before_or :
    (a b c : Expression)
    → parse (print a ++ (or_ ∷ (print b ++ (and_ ∷ print c))))
      ≡ rule (disjunction a (conjunction b c))
unfolding parse parse_or
and_before_or a b c =
    let tail_c = and_ ∷ print c in
    let tail_b = or_ ∷ (print b ++ tail_c) in
    let whole = print a ++ tail_b in
    let f = 4 * length whole - 1 in
    let size : need a + need b + need c + 2 ≤ 4 * length whole = omega (
      arith,
      need-le-length a,
      need-le-length b,
      need-le-length c,
      length-append (print a) tail_b,
      length-append (print b) tail_c,
    ) in
    let read_a = parse_not-print a (suc (suc (suc f))) tail_b (omega arith) in
    let read_b = parse_not-print b (suc (suc f)) tail_c (omega arith) in
    let read_c : parse_not (suc f) (print c) ≡ parsed c [] =
      rw append-nil at (parse_not-print c (suc f) [] (omega arith)) in
    parse_some whole f (omega arith) (omega arith) ∙ rw (read_a, read_b, read_c)
