-- ===== src/Sql/Token.antt =====
-- The tokens of src/sql/parser.cpp, and the outcome of a step of its parser.
use rtdb_common.Common.{ℕ, List, [], ◌∷◌, ℤ}
use rtdb_common.Types.{Bytes, Err}

-- `Tok` with what `Token` holds for it. The end of the input is the end of the token list, and the
-- offset, which only messages show, is left out.
pub data Token : Type 0 where
  k_error : Token
  k_identifier : Bytes → Token
  k_integer : ℤ → Token
  k_float : ℕ → Token
  k_string : Bytes → Token
  k_comma k_lparen k_rparen k_star k_semicolon k_dot k_minus : Token
  k_equal k_unequal k_below k_at_most k_above k_at_least : Token
  k_select k_insert k_into k_values k_update k_set k_delete k_from k_where : Token
  k_order k_by k_limit k_offset : Token
  k_and k_or k_not k_is k_null k_true k_false k_as k_asc k_desc : Token
  k_unsupported_keyword : Bytes → Token

-- `cur_` is the first token of the list. The parser does not move past an error token, so what the
-- lexer does behind one does not matter.
abbrev pub Tokens : Type 0
Tokens = List Token

-- A parse that succeeds with a value and the tokens behind it, one that fails, and one whose fuel
-- is spent, an outcome of the model alone.
pub data Parse {ℓ} (A : Type ℓ) : Type ℓ where
  parsed : A → Tokens → Parse A
  failed : Err → Parse A
  out_of_fuel : Parse A

infixl 5 ◌>>=◌
abbrev pub ◌>>=◌ {ℓ κ} : {A : Type ℓ} {B : Type κ} → Parse A → (A × Tokens → Parse B) → Parse B
parsed a ts >>= f = f (a, ts)
failed e >>= f = failed e
out_of_fuel >>= f = out_of_fuel

abbrev pub advance : Tokens → Tokens
advance [] = []
advance (t ∷ ts) = ts
