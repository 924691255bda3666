-- ===== src/Sql/Lexer/Literals.antt =====
-- The texts between quotes of src/sql/parser.cpp: a text written with its quotes doubled is read back.
use rtdb_common.Common.{
  arith, append-nil, append_assoc, ℕ, ◌≡◌, refl, sym, ap, ◌∙◌, [], ◌∷◌, ◌++◌, true, false, ◌==◌,
  if◌then◌else◌, some, Bool-cases, inl, inr,
}
use rtdb_common.Types.{Bytes}
use rtdb_common.Sql.Token.{k_string}
use rtdb_common.Sql.Values.{Runtime}
use rtdb_common.Sql.Lexer.{
  starts, skip_blank_and_comments, lex_string, lex_token, next, is_ident_start, is_digit, is_blank,
}

-- A text as it stands between quotes.
abbrev pub escape : Bytes → Bytes
escape [] = []
escape (c ∷ cs) = if c == 39 then 39 ∷ 39 ∷ escape cs else c ∷ escape cs

lex_string-closed :
    (out rest : Bytes)
    → starts (λ c. c == 39) rest ≡ false
    → lex_string true out rest ≡ (k_string out, rest)
unfolding lex_string
lex_string-closed out [] h = refl
lex_string-closed out (c ∷ cs) h = rw h refl

lex_string-escape :
    (out s rest : Bytes)
    → starts (λ c. c == 39) rest ≡ false
    → lex_string false out (escape s ++ (39 ∷ rest)) ≡ (k_string (out ++ s), rest)
unfolding lex_string
lex_string-escape out [] rest h =
    lex_string-closed out rest h ∙ ap (λ o. (k_string o, rest)) (sym (append-nil out))
lex_string-escape out (c ∷ cs) rest h =
    let front : (d : ℕ) → (out ++ (d ∷ [])) ++ cs ≡ out ++ (d ∷ cs) =
      (λ d. append_assoc out (d ∷ []) cs) in
    elim (Bool-cases (c == 39)) [
      | inl quote ↦
          let is_quote : c ≡ 39 = ground (arith, quote) in
          rw quote (
            lex_string-escape (out ++ (39 ∷ [])) cs rest h
            ∙ ap (λ o. (k_string o, rest)) (front 39 ∙ ap (λ d. out ++ (d ∷ cs)) (sym is_quote)))
      | inr plain ↦ rw plain (
          ap (λ b. lex_string b (if b then out else out ++ (c ∷ [])) (escape cs ++ (39 ∷ rest)))
            plain
          ∙ lex_string-escape (out ++ (c ∷ [])) cs rest h
          ∙ ap (λ o. (k_string o, rest)) (front c))
    ]

-- A text between quotes, each of its own quotes doubled, is read back with what stands behind it, where
-- that does not start with another quote.
pub next-escape :
    (rt : Runtime) (s rest : Bytes)
    → starts (λ c. c == 39) rest ≡ false
    → next rt (39 ∷ (escape s ++ (39 ∷ rest))) ≡ some (k_string s, rest)
unfolding next lex_token skip_blank_and_comments is_ident_start is_digit is_blank
next-escape rt s rest h = ap some (lex_string-escape [] s rest h)
