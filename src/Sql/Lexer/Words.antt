-- ===== src/Sql/Lexer/Words.antt =====
-- The words of the lexer of src/sql/parser.cpp: `KeywordType`. Words are lists of bytes.
use rtdb_common.Common.{
  ℕ, ◌+◌, List, [], ◌∷◌, Bool, false, ◌&&◌, ◌||◌, leb, if◌then◌else◌, bytes_eq, Option, none, some,
}
use rtdb_common.Types.{Bytes}
use rtdb_common.Sql.Token.{
  Token, k_identifier, k_unsupported_keyword, k_select, k_insert, k_into, k_values, k_update, k_set,
  k_delete, k_from, k_where, k_order, k_by, k_limit, k_offset, k_and, k_or, k_not, k_is, k_null,
  k_true, k_false, k_as, k_asc, k_desc,
}

unfoldable pub lower_ascii : ℕ → ℕ
lower_ascii c = if leb 65 c && leb c 90 then c + 32 else c

unfoldable pub lower : Bytes → Bytes
lower [] = []
lower (c ∷ cs) = lower_ascii c ∷ lower cs

abbrev pub keywords : List (Bytes × Token)
keywords =
    (115 ∷ 101 ∷ 108 ∷ 101 ∷ 99 ∷ 116 ∷ [], k_select)
    ∷ (105 ∷ 110 ∷ 115 ∷ 101 ∷ 114 ∷ 116 ∷ [], k_insert)
    ∷ (105 ∷ 110 ∷ 116 ∷ 111 ∷ [], k_into)
    ∷ (118 ∷ 97 ∷ 108 ∷ 117 ∷ 101 ∷ 115 ∷ [], k_values)
    ∷ (117 ∷ 112 ∷ 100 ∷ 97 ∷ 116 ∷ 101 ∷ [], k_update)
    ∷ (115 ∷ 101 ∷ 116 ∷ [], k_set)
    ∷ (100 ∷ 101 ∷ 108 ∷ 101 ∷ 116 ∷ 101 ∷ [], k_delete)
    ∷ (102 ∷ 114 ∷ 111 ∷ 109 ∷ [], k_from)
    ∷ (119 ∷ 104 ∷ 101 ∷ 114 ∷ 101 ∷ [], k_where)
    ∷ (111 ∷ 114 ∷ 100 ∷ 101 ∷ 114 ∷ [], k_order)
    ∷ (98 ∷ 121 ∷ [], k_by)
    ∷ (108 ∷ 105 ∷ 109 ∷ 105 ∷ 116 ∷ [], k_limit)
    ∷ (111 ∷ 102 ∷ 102 ∷ 115 ∷ 101 ∷ 116 ∷ [], k_offset)
    ∷ (97 ∷ 110 ∷ 100 ∷ [], k_and)
    ∷ (111 ∷ 114 ∷ [], k_or)
    ∷ (110 ∷ 111 ∷ 116 ∷ [], k_not)
    ∷ (105 ∷ 115 ∷ [], k_is)
    ∷ (110 ∷ 117 ∷ 108 ∷ 108 ∷ [], k_null)
    ∷ (116 ∷ 114 ∷ 117 ∷ 101 ∷ [], k_true)
    ∷ (102 ∷ 97 ∷ 108 ∷ 115 ∷ 101 ∷ [], k_false)
    ∷ (97 ∷ 115 ∷ [], k_as)
    ∷ (97 ∷ 115 ∷ 99 ∷ [], k_asc)
    ∷ (100 ∷ 101 ∷ 115 ∷ 99 ∷ [], k_desc)
    ∷ []

-- The words that are known and not supported.
abbrev pub unsupported : List Bytes
unsupported =
    (106 ∷ 111 ∷ 105 ∷ 110 ∷ [])
    ∷ (105 ∷ 110 ∷ 110 ∷ 101 ∷ 114 ∷ [])
    ∷ (108 ∷ 101 ∷ 102 ∷ 116 ∷ [])
    ∷ (114 ∷ 105 ∷ 103 ∷ 104 ∷ 116 ∷ [])
    ∷ (111 ∷ 117 ∷ 116 ∷ 101 ∷ 114 ∷ [])
    ∷ (102 ∷ 117 ∷ 108 ∷ 108 ∷ [])
    ∷ (99 ∷ 114 ∷ 111 ∷ 115 ∷ 115 ∷ [])
    ∷ (111 ∷ 110 ∷ [])
    ∷ (103 ∷ 114 ∷ 111 ∷ 117 ∷ 112 ∷ [])
    ∷ (104 ∷ 97 ∷ 118 ∷ 105 ∷ 110 ∷ 103 ∷ [])
    ∷ (117 ∷ 110 ∷ 105 ∷ 111 ∷ 110 ∷ [])
    ∷ (100 ∷ 105 ∷ 115 ∷ 116 ∷ 105 ∷ 110 ∷ 99 ∷ 116 ∷ [])
    ∷ (105 ∷ 110 ∷ [])
    ∷ (108 ∷ 105 ∷ 107 ∷ 101 ∷ [])
    ∷ (98 ∷ 101 ∷ 116 ∷ 119 ∷ 101 ∷ 101 ∷ 110 ∷ [])
    ∷ (101 ∷ 120 ∷ 105 ∷ 115 ∷ 116 ∷ 115 ∷ [])
    ∷ (99 ∷ 114 ∷ 101 ∷ 97 ∷ 116 ∷ 101 ∷ [])
    ∷ (100 ∷ 114 ∷ 111 ∷ 112 ∷ [])
    ∷ (97 ∷ 108 ∷ 116 ∷ 101 ∷ 114 ∷ [])
    ∷ (116 ∷ 114 ∷ 117 ∷ 110 ∷ 99 ∷ 97 ∷ 116 ∷ 101 ∷ [])
    ∷ (98 ∷ 101 ∷ 103 ∷ 105 ∷ 110 ∷ [])
    ∷ (99 ∷ 111 ∷ 109 ∷ 109 ∷ 105 ∷ 116 ∷ [])
    ∷ (114 ∷ 111 ∷ 108 ∷ 108 ∷ 98 ∷ 97 ∷ 99 ∷ 107 ∷ [])
    ∷ (99 ∷ 111 ∷ 117 ∷ 110 ∷ 116 ∷ [])
    ∷ (115 ∷ 117 ∷ 109 ∷ [])
    ∷ (97 ∷ 118 ∷ 103 ∷ [])
    ∷ (109 ∷ 105 ∷ 110 ∷ [])
    ∷ (109 ∷ 97 ∷ 120 ∷ [])
    ∷ []

unfoldable pub keyword_of : List (Bytes × Token) → Bytes → Option Token
keyword_of [] word = none
keyword_of ((k, t) ∷ ks) word = if bytes_eq word k then some t else keyword_of ks word

unfoldable pub listed : List Bytes → Bytes → Bool
listed [] word = false
listed (k ∷ ks) word = bytes_eq word k || listed ks word

-- `KeywordType`, with the token of the word.
unfoldable pub word_token : Bytes → Token
word_token text = elim (keyword_of keywords (lower text)) [
  | some t ↦ t
  | none ↦ if listed unsupported (lower text) then k_unsupported_keyword text else k_identifier text
]
