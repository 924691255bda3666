-- ===== src/Sql/Lexer.antt =====
-- The lexer of src/sql/parser.cpp. Its state is the text that is left; `strtoll` and `strtod` are
-- parameters. A token at which the parser stops for an error ends the list of the tokens.
pub mod Words
pub mod Progress
pub mod Literals
use rtdb_common.Common.{
  ℕ, zero, suc, ◌-◌, List, [], ◌∷◌, ◌++◌, Bool, true, false, not, ◌&&◌, ◌||◌, leb, ◌==◌, length,
  take, if◌then◌else◌, Option, none, some,
}
use rtdb_common.Types.{Bytes}
use rtdb_common.Sql.Token.{
  Token, k_error, k_integer, k_float, k_string, k_comma, k_lparen, k_rparen, k_star, k_semicolon,
  k_dot, k_minus, k_equal, k_unequal, k_below, k_at_most, k_above, k_at_least, Tokens,
}
use rtdb_common.Sql.Values.{Runtime}
use rtdb_common.Sql.Lexer.Words.{word_token}

unfoldable pub is_ident_start : ℕ → Bool
is_ident_start c = (leb 97 c && leb c 122) || (leb 65 c && leb c 90) || (c == 95)

unfoldable pub is_digit : ℕ → Bool
is_digit c = leb 48 c && leb c 57

unfoldable pub is_ident_cont : ℕ → Bool
is_ident_cont c = is_ident_start c || is_digit c

unfoldable pub is_blank : ℕ → Bool
is_blank c = (c == 32) || (c == 9) || (c == 13) || (c == 10)

-- `i_ < s_.size() && test(s_[i_])`
abbrev pub starts : (ℕ → Bool) → Bytes → Bool
starts test [] = false
starts test (c ∷ cs) = test c

abbrev pub tail : Bytes → Bytes
tail [] = []
tail (c ∷ cs) = cs

-- `while (i_ < s_.size() && test(s_[i_])) ++i_;`
abbrev pub drop_while : (ℕ → Bool) → Bytes → Bytes
drop_while test [] = []
drop_while test (c ∷ cs) = if test c then drop_while test cs else c ∷ cs

-- The text in front of what is left.
abbrev pub passed : Bytes → Bytes → Bytes
passed s rest = take (length s - length rest) s

-- `SkipBlankAndComments`; within a comment the flag is set, and the end of the line, itself blank, ends
-- it.
unfoldable pub skip_blank_and_comments : Bool → Bytes → Bytes
skip_blank_and_comments comment [] = []
skip_blank_and_comments true (c ∷ cs) = skip_blank_and_comments (not (c == 10)) cs
skip_blank_and_comments false (c ∷ cs) =
    let opens = (c == 45) && starts (λ d. d == 45) cs in
    let rest = skip_blank_and_comments opens cs in if is_blank c || opens then rest else c ∷ cs

-- The parts of `LexNumber` behind the digits: whether one is there, and what is left, or nothing where its
-- digits are missing.
unfoldable pub fraction : Bytes → Option (Bool × Bytes)
fraction s =
    if not (starts (λ c. c == 46) s)
    then some (false, s)
    else if starts is_digit (tail s)
    then some (true, drop_while is_digit (tail s))
    else none

unfoldable pub exponent : Bytes → Option (Bool × Bytes)
exponent s =
    let sign = starts (λ c. (c == 43) || (c == 45)) (tail s) in
    let digits = if sign then tail (tail s) else tail s in
    if not (starts (λ c. (c == 101) || (c == 69)) s)
    then some (false, s)
    else if starts is_digit digits
    then some (true, drop_while is_digit digits)
    else none

abbrev pub real_token : Option ℕ → Token
real_token none = k_error
real_token (some v) = k_float v

abbrev pub integer_token : Runtime → Bytes → Token
integer_token rt text = elim (rt.strtoll text) [ none ↦ k_error | some v ↦ k_integer v ]

unfoldable pub with_exponent : Runtime → Bytes → Bool → Option (Bool × Bytes) → Token × Bytes
with_exponent rt s real none = (k_error, s)
with_exponent rt s real (some (more, rest)) = (
  if real || more then real_token (rt.strtod (passed s rest)) else integer_token rt (passed s rest),
  rest,
)

unfoldable pub with_fraction : Runtime → Bytes → Option (Bool × Bytes) → Token × Bytes
with_fraction rt s none = (k_error, s)
with_fraction rt s (some (real, rest)) = with_exponent rt s real (exponent rest)

unfoldable pub lex_number : Runtime → Bytes → Token × Bytes
lex_number rt s =
    let digits = if starts (λ c. c == 45) s then tail s else s in
    with_fraction rt s (fraction (drop_while is_digit digits))

-- `LexString`; the flag is set behind a quote, which ends the text unless another one follows.
unfoldable pub lex_string : Bool → Bytes → Bytes → Token × Bytes
lex_string false out [] = (k_error, [])
lex_string true out [] = (k_string out, [])
lex_string false out (c ∷ cs) =
    let quote = c == 39 in lex_string quote (if quote then out else out ++ (c ∷ [])) cs
lex_string true out (c ∷ cs) =
    let rest = lex_string false (out ++ (39 ∷ [])) cs in
    if c == 39 then rest else (k_string out, c ∷ cs)

-- The tokens of one or two characters.
unfoldable pub lex_symbol : ℕ → Bytes → Token × Bytes
lex_symbol c cs =
    let equal = starts (λ d. d == 61) cs in
    let above = starts (λ d. d == 62) cs in
    if c == 44
    then (k_comma, cs)
    else if c == 40
    then (k_lparen, cs)
    else if c == 41
    then (k_rparen, cs)
    else if c == 42
    then (k_star, cs)
    else if c == 59
    then (k_semicolon, cs)
    else if c == 46
    then (k_dot, cs)
    else if c == 45
    then (k_minus, cs)
    else if c == 61
    then (k_equal, cs)
    else if c == 60
    then if equal
      then (k_at_most, tail cs)
      else if above
      then (k_unequal, tail cs)
      else (k_below, cs)
    else if c == 62
    then if equal then (k_at_least, tail cs) else (k_above, cs)
    else if c == 33
    then if equal then (k_unequal, tail cs) else (k_error, c ∷ cs)
    else (k_error, c ∷ cs)

-- A token from its first character on.
unfoldable pub lex_token : Runtime → Bytes → Option (Token × Bytes)
lex_token rt [] = none
lex_token rt (c ∷ cs) =
    let word = drop_while is_ident_cont (c ∷ cs) in
    some (
      if is_ident_start c
      then (word_token (passed (c ∷ cs) word), word)
      else if is_digit c || ((c == 45) && starts (λ d. is_digit d || (d == 46)) cs)
      then lex_number rt (c ∷ cs)
      else if c == 39
      then lex_string false [] cs
      else lex_symbol c cs)

-- `Next`; nothing at the end of the text.
unfoldable pub next : Runtime → Bytes → Option (Token × Bytes)
next rt s = lex_token rt (skip_blank_and_comments false s)

abbrev pub is_error : Token → Bool
is_error k_error = true
is_error _ = false

abbrev pub add : Token → Option Tokens → Option Tokens
add t none = none
add t (some ts) = some (t ∷ ts)

abbrev pub met : (Bytes → Option Tokens) → Option (Token × Bytes) → Option Tokens
met go_on none = some []
met go_on (some (t, rest)) = if is_error t then some (t ∷ []) else add t (go_on rest)

-- The tokens that the parser meets; without a value where the fuel is spent.
unfoldable pub tokens : ℕ → Runtime → Bytes → Option Tokens
tokens zero rt s = none
tokens (suc n) rt s = met (λ rest. tokens n rt rest) (next rt s)
