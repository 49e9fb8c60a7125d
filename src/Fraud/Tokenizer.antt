-- ===== src/Fraud/Tokenizer.antt =====
-- `tokenize` of modules/fraud/fraud-rule.interpreter.ts: its sticky pattern, alternative by alternative,
-- on the codes of a text. What `Number` reads from a literal is a parameter.
use vaultline.Prelude.{
  ℕ, zero, suc, Bool, true, false, not, Option, none, some, [], ◌∷◌, ◌++◌, if◌then◌else◌, ◌==◌, leb,
  ◌||◌, ◌&&◌, ◌+◌, length, map,
}
use vaultline.Prelude.Int.{ℤ}
use vaultline.Common.Texts.{Text, text, same_text}
use vaultline.Fraud.Syntax.{
  Operator, gt, ge, lt, le, eq, ne, Token, Tokens, ident, string, number, op, and_, or_, not_,
  lparen, rparen,
}
use vaultline.Fraud.Parser.{Rule, syntax_error, no_fuel, unexpected_character, parse}

-- `\s`, `\d`, `[A-Za-z_]` and `[A-Za-z0-9_]`
abbrev pub is_space : ℕ → Bool
is_space c =
    (leb 9 c && leb c 13)
    || (c == 32
        || (c == 160
            || (c == 5760
                || ((leb 8192 c && leb c 8202)
                    || (c == 8232
                        || (c == 8233
                            || (c == 8239 || (c == 8287 || (c == 12288 || c == 65279)))))))))

abbrev pub is_digit : ℕ → Bool
is_digit c = leb 48 c && leb c 57

abbrev pub is_letter : ℕ → Bool
is_letter c = (leb 65 c && leb c 90) || ((leb 97 c && leb c 122) || c == 95)

abbrev pub is_word : ℕ → Bool
is_word c = is_letter c || is_digit c

-- The longest beginning of a text in a class, and the text behind it.
unfoldable pub span : (ℕ → Bool) → Text → Text × Text
span test [] = ([], [])
span test (c ∷ s) =
    let (front, rest) = span test s in if test c then (c ∷ front, rest) else ([], c ∷ s)

-- `'[^']*'` behind its first quote: the text up to the next one, if there is one.
abbrev pub closed : Text × Text → Option (Token × Text)
closed (front, []) = none
closed (front, q ∷ rest) = some (string front, rest)

unfoldable pub quoted : Text → Option (Token × Text)
unfolding span
quoted s = closed (span (λ c. not (c == 39)) s)

-- Lower-case letters of the alphabet, for `/…/i` and `toLowerCase` on words.
abbrev pub lower : ℕ → ℕ
lower c = if leb 65 c && leb c 90 then c + 32 else c

unfoldable pub word_token : Text → Token
unfolding same_text
word_token s =
    let key = map lower s in
    if same_text key (text "and")
    then and_
    else if same_text key (text "or")
    then or_
    else if same_text key (text "not")
    then not_
    else if same_text key (text "true")
    then Token.bool true
    else if same_text key (text "false")
    then Token.bool false
    else ident s

abbrev pub word_of : Text × Text → Token × Text
word_of (front, rest) = (word_token front, rest)

-- An operator of two characters where the second is `=`, else one.
abbrev pub alone : Option Operator → Text → Option (Token × Text)
alone none rest = none
alone (some o) rest = some (op o, rest)

abbrev pub with_equals : Operator → Option Operator → Text → Option (Token × Text)
with_equals double single [] = alone single []
with_equals double single (c ∷ rest) =
    if c == 61 then some (op double, rest) else alone single (c ∷ rest)

-- The tokens, an unexpected character, or no more fuel (which the program has no word for).
pub data Lexed : Type 0 where
  lexed : Tokens → Lexed
  unexpected out_of_fuel : Lexed

abbrev pub behind : Token → Lexed → Lexed
behind t (lexed ts) = lexed (t ∷ ts)
behind t unexpected = unexpected
behind t out_of_fuel = out_of_fuel

module _ (number_of : Text → ℤ) where
  -- `(?:\.\d+)?` behind the digits `front`.
  abbrev pub with_fraction : Text → Text → Text × Text → Token × Text
  with_fraction front behind ([], rest) = (number (number_of front), behind)
  with_fraction front behind (d ∷ digits, rest) =
      (number (number_of (front ++ 46 ∷ d ∷ digits)), rest)

  abbrev pub fraction : Text → Text → Token × Text
  fraction front [] = (number (number_of front), [])
  fraction front (c ∷ rest) =
      if c == 46
      then with_fraction front (c ∷ rest) (span is_digit rest)
      else (number (number_of front), c ∷ rest)

  -- `-?\d+(?:\.\d+)?` behind the sign.
  abbrev pub number_behind : Text → Text × Text → Option (Token × Text)
  number_behind sign ([], rest) = none
  number_behind sign (d ∷ digits, rest) = some (fraction (sign ++ d ∷ digits) rest)

  unfoldable pub read_number : Text → Text → Option (Token × Text)
  unfolding span
  read_number sign s = number_behind sign (span is_digit s)

  -- The token that a text begins with, and the text behind it.
  unfoldable pub read_token : ℕ → Text → Option (Token × Text)
  unfolding word_token quoted read_number span
  read_token c s =
      if c == 62
      then with_equals ge (some gt) s
      else if c == 60
      then with_equals le (some lt) s
      else if c == 61
      then with_equals eq none s
      else if c == 33
      then with_equals ne none s
      else if c == 40
      then some (lparen, s)
      else if c == 41
      then some (rparen, s)
      else if c == 39
      then quoted s
      else if c == 45
      then read_number (45 ∷ []) s
      else if is_digit c
      then read_number [] (c ∷ s)
      else if is_letter c
      then some (word_of (span is_word (c ∷ s)))
      else none

  abbrev pub and_then : (Text → Lexed) → Option (Token × Text) → Lexed
  and_then go none = unexpected
  and_then go (some (t, rest)) = behind t (go rest)

  -- A round of the loop, with the spaces dropped.
  unfoldable pub lex_word : (Text → Lexed) → Text → Lexed
  unfolding read_token
  lex_word go [] = lexed []
  lex_word go (c ∷ s) = and_then go (read_token c s)

  unfoldable pub tokenize_from : ℕ → Text → Lexed
  unfolding lex_word span
  tokenize_from zero s = out_of_fuel
  tokenize_from (suc fuel) s = lex_word (tokenize_from fuel) (span is_space s).1

  unfoldable pub tokenize : Text → Lexed
  unfolding tokenize_from
  tokenize s = tokenize_from (suc (length s)) s

  abbrev pub parsed_tokens : Lexed → Rule
  parsed_tokens (lexed ts) = parse ts
  parsed_tokens unexpected = syntax_error unexpected_character
  parsed_tokens out_of_fuel = no_fuel

  -- `FraudRuleParser.parse`
  unfoldable pub parse_source : Text → Rule
  unfolding tokenize parse
  parse_source s = parsed_tokens (tokenize s)
