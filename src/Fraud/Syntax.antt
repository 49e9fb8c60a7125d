-- ===== src/Fraud/Syntax.antt =====
-- The expressions, tokens and printer of modules/fraud/fraud-rule.interpreter.ts. A number is a
-- whole one; literals with a fraction are left out.
use vaultline.Prelude.{Bool, List, [], ◌∷◌, ◌++◌}
use vaultline.Prelude.Int.{ℤ}
use vaultline.Common.Texts.{Text}

pub data Value : Type 0 where
  str : Text → Value
  num : ℤ → Value
  bool : Bool → Value

pub data Operator : Type 0 where
  gt ge lt le eq ne : Operator

-- The classes that implement `Expression`.
pub data Expression : Type 0 where
  comparison : (variable : Text) → Operator → Value → Expression
  conjunction disjunction : (left right : Expression) → Expression
  negation : (inner : Expression) → Expression

-- `Token`: a constructor for each kind, with the text where a kind has more than one.
pub data Token : Type 0 where
  ident string : Text → Token
  number : ℤ → Token
  bool : Bool → Token
  op : Operator → Token
  and_ or_ not_ lparen rparen : Token

abbrev pub Tokens : Type 0
Tokens = List Token

unfoldable pub value_token : Value → Token
value_token (Value.str s) = string s
value_token (Value.num n) = number n
value_token (Value.bool b) = Token.bool b

-- `toString`, as the tokens of the text.
unfoldable pub print : Expression → Tokens
unfolding value_token
print (comparison variable operator value) = ident variable ∷ op operator ∷ value_token value ∷ []
print (conjunction left right) = lparen ∷ (print left ++ (and_ ∷ (print right ++ (rparen ∷ []))))
print (disjunction left right) = lparen ∷ (print left ++ (or_ ∷ (print right ++ (rparen ∷ []))))
print (negation inner) = not_ ∷ print inner
