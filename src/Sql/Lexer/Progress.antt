-- ===== src/Sql/Lexer/Progress.antt =====
-- The lexer of src/sql/parser.cpp takes a character at least for each token, so it ends.
use rtdb_common.Common.{
  ℕ, zero, suc, ◌≤◌, ◌<◌, ◌≡◌, refl, ap, arith, [], ◌∷◌, ◌++◌, Bool, true, false, not, ◌&&◌, ◌||◌,
  ◌==◌, length, if◌then◌else◌, Option, none, some, Bool-cases, ◌⊎◌, inl, inr,
}
use rtdb_common.Types.{Bytes}
use rtdb_common.Sql.Token.{Token, Tokens}
use rtdb_common.Sql.Values.{Runtime}
use rtdb_common.Sql.Lexer.{
  is_ident_start, is_ident_cont, is_digit, is_blank, starts, tail, drop_while,
  skip_blank_and_comments, fraction, exponent, with_fraction, with_exponent, lex_number, lex_string,
  lex_symbol, lex_token, next, is_error, met, tokens,
}

length-drop_while : (test : ℕ → Bool) (s : Bytes) → length (drop_while test s) ≤ length s
length-drop_while test [] = omega arith
length-drop_while test (c ∷ cs) = elim (Bool-cases (test c)) [
  | inl passes ↦ rw passes (omega (arith, length-drop_while test cs))
  | inr fails ↦ rw fails (omega arith)
]

length-tail : (s : Bytes) → length (tail s) ≤ length s
length-tail [] = omega arith
length-tail (c ∷ cs) = omega arith

length-skip : (comment : Bool) (s : Bytes) → length (skip_blank_and_comments comment s) ≤ length s
unfolding skip_blank_and_comments
length-skip comment [] = omega arith
length-skip true (c ∷ cs) = omega (arith, length-skip (not (c == 10)) cs)
length-skip false (c ∷ cs) =
    let opens = (c == 45) && starts (λ d. d == 45) cs in
    let rest = length-skip opens cs in
    elim (Bool-cases (is_blank c || opens)) [
      | inl skips ↦ rw skips (omega (arith, rest))
      | inr stays ↦ rw stays (omega arith)
    ]

-- What is left of a text, where there is no error.
data Within (n : ℕ) (r : Token × Bytes) : Type 0 where
  broken : is_error r.0 ≡ true → Within n r
  shorter : length r.1 ≤ n → Within n r

abbrev Left : ℕ → Option (Bool × Bytes) → Type 0
Left n none = Unit
Left n (some (real, rest)) = length rest ≤ n

Left-le : (m n : ℕ) → m ≤ n → (e : Option (Bool × Bytes)) → Left m e → Left n e
Left-le m n h none l = tt
Left-le m n h (some (more, r)) l = omega (arith, h, l)

fraction-Left : (s : Bytes) → Left (length s) (fraction s)
unfolding fraction
fraction-Left s = elim (Bool-cases (not (starts (λ c. c == 46) s))) [
  | inl whole ↦ rw whole (omega arith)
  | inr dot ↦ elim (Bool-cases (starts is_digit (tail s))) [
    | inl digits ↦
        rw (dot, digits) (omega (arith, length-drop_while is_digit (tail s), length-tail s))
    | inr bare ↦ rw (dot, bare) tt
  ]
]

exponent-Left : (s : Bytes) → Left (length s) (exponent s)
unfolding exponent
exponent-Left s =
    let sign = starts (λ c. (c == 43) || (c == 45)) (tail s) in
    let digits = if sign then tail (tail s) else tail s in
    let short : length digits ≤ length s = signed sign in
    elim (Bool-cases (not (starts (λ c. (c == 101) || (c == 69)) s))) [
      | inl whole ↦ rw whole (omega arith)
      | inr e ↦ elim (Bool-cases (starts is_digit digits)) [
        | inl some_digits ↦
            rw (e, some_digits) (omega (arith, length-drop_while is_digit digits, short))
        | inr bare ↦ rw (e, bare) tt
      ]
    ]
  where
    signed : (sign : Bool) → length (if sign then tail (tail s) else tail s) ≤ length s
    signed true = omega (arith, length-tail (tail s), length-tail s)
    signed false = length-tail s

with_exponent-Within :
    (rt : Runtime) (s : Bytes) (real : Bool) (n : ℕ) (e : Option (Bool × Bytes))
    → Left n e
    → Within n (with_exponent rt s real e)
unfolding with_exponent
with_exponent-Within rt s real n none l = broken refl
with_exponent-Within rt s real n (some (more, rest)) l = shorter l

with_fraction-Within :
    (rt : Runtime) (s : Bytes) (n : ℕ) (f : Option (Bool × Bytes))
    → Left n f
    → Within n (with_fraction rt s f)
unfolding with_fraction
with_fraction-Within rt s n none l = broken refl
with_fraction-Within rt s n (some (real, rest)) l =
    with_exponent-Within rt s real n (exponent rest)
      (Left-le (length rest) n l (exponent rest) (exponent-Left rest))

Within-suc : (n : ℕ) (r : Token × Bytes) → Within n r → Within (suc n) r
Within-suc n r (broken e) = broken e
Within-suc n r (shorter h) = shorter (omega (arith, h))

lex_string-Within : (quote : Bool) (out s : Bytes) → Within (length s) (lex_string quote out s)
unfolding lex_string
lex_string-Within false out [] = broken refl
lex_string-Within true out [] = shorter (omega arith)
lex_string-Within false out (c ∷ cs) =
    let out' = if c == 39 then out else out ++ (c ∷ []) in
    Within-suc (length cs) (lex_string (c == 39) out' cs) (lex_string-Within (c == 39) out' cs)
lex_string-Within true out (c ∷ cs) = elim (Bool-cases (c == 39)) [
  | inl again ↦
      let out' = out ++ (39 ∷ []) in
      rw again (Within-suc (length cs) (lex_string false out' cs) (lex_string-Within false out' cs))
  | inr done ↦ rw done (shorter (omega arith))
]

Within-if :
    (b : Bool) (n : ℕ) {x y : Token × Bytes}
    → Within n x
    → Within n y
    → Within n (if b then x else y)
Within-if true n p q = p
Within-if false n p q = q

lex_symbol-Within : (c : ℕ) (cs : Bytes) → Within (length cs) (lex_symbol c cs)
unfolding lex_symbol
lex_symbol-Within c cs =
    let one : length cs ≤ length cs = omega arith in
    let two : length (tail cs) ≤ length cs = length-tail cs in
    let n = length cs in
    let equal = starts (λ d. d == 61) cs in
    let above = starts (λ d. d == 62) cs in
    Within-if (c == 44) n (shorter one) (
      Within-if (c == 40) n (shorter one) (
        Within-if (c == 41) n (shorter one) (
          Within-if (c == 42) n (shorter one) (
            Within-if (c == 59) n (shorter one) (
              Within-if (c == 46) n (shorter one) (
                Within-if (c == 45) n (shorter one) (
                  Within-if (c == 61) n (shorter one) (
                    Within-if (c == 60) n
                      (Within-if equal n (shorter two)
                        (Within-if above n (shorter two) (shorter one)))
                      (Within-if (c == 62) n (Within-if equal n (shorter two) (shorter one)) (
                        Within-if (c == 33) n (Within-if equal n (shorter two) (broken refl))
                          (broken refl)))))))))))

-- A number has a digit or a sign in front.
lex_number-Within :
    (rt : Runtime) (c : ℕ) (cs : Bytes)
    → (is_digit c || ((c == 45) && starts (λ d. is_digit d || (d == 46)) cs)) ≡ true
    → Within (length cs) (lex_number rt (c ∷ cs))
unfolding lex_number
lex_number-Within rt c cs h = elim (Bool-cases (c == 45)) [
  | inl minus ↦ rw minus (behind cs (length-drop_while is_digit cs))
  | inr plain ↦
      let digit : is_digit c ≡ true = ground (arith, h, plain) in
      let skips : drop_while is_digit (c ∷ cs) ≡ drop_while is_digit cs = rw digit refl in
      rw plain (behind (c ∷ cs) (omega (arith, ap length skips, length-drop_while is_digit cs)))
]
  where
    behind :
        (digits : Bytes)
        → length (drop_while is_digit digits) ≤ length cs
        → Within (length cs) (with_fraction rt (c ∷ cs) (fraction (drop_while is_digit digits)))
    behind digits short =
        let rest = drop_while is_digit digits in
        with_fraction-Within rt (c ∷ cs) (length cs) (fraction rest)
          (Left-le (length rest) (length cs) short (fraction rest) (fraction-Left rest))

-- A token that is no error takes a character at least.
abbrev Shorter : ℕ → Option (Token × Bytes) → Type 0
Shorter n none = Unit
Shorter n (some r) = (is_error r.0 ≡ true) ⊎ (length r.1 < n)

ident_start_cont : (c : ℕ) → is_ident_start c ≡ true → is_ident_cont c ≡ true
unfolding is_ident_cont
ident_start_cont c h = rw h refl

lex_token-Shorter : (rt : Runtime) (s : Bytes) → Shorter (length s) (lex_token rt s)
unfolding lex_token
lex_token-Shorter rt [] = tt
lex_token-Shorter rt (c ∷ cs) = by_kind (Bool-cases (is_ident_start c))
  where
    below :
        {r : Token × Bytes}
        → Within (length cs) r
        → (is_error r.0 ≡ true) ⊎ (length r.1 < suc (length cs))
    below (broken e) = inl e
    below (shorter h) = inr (omega (arith, h))

    word : Bytes
    word = drop_while is_ident_cont (c ∷ cs)

    number : Bool
    number = is_digit c || ((c == 45) && starts (λ d. is_digit d || (d == 46)) cs)

    by_kind :
        (is_ident_start c ≡ true) ⊎ (is_ident_start c ≡ false)
        → Shorter (suc (length cs)) (lex_token rt (c ∷ cs))
    by_kind (inl starts_word) =
        let goes_on : is_ident_cont c ≡ true = ident_start_cont c starts_word in
        rw (starts_word, goes_on) (inr (omega (arith, length-drop_while is_ident_cont cs)))
    by_kind (inr no_word) = elim (Bool-cases number) [
      | inl is_number ↦ rw (no_word, is_number) (below (lex_number-Within rt c cs is_number))
      | inr no_number ↦
          rw (no_word, no_number)
            (below (
              Within-if (c == 39) (length cs) (lex_string-Within false [] cs)
                (lex_symbol-Within c cs)))
    ]

skipped-Shorter : (m n : ℕ) (o : Option (Token × Bytes)) → m ≤ n → Shorter m o → Shorter n o
skipped-Shorter m n none h s = tt
skipped-Shorter m n (some r) h (inl e) = inl e
skipped-Shorter m n (some r) h (inr l) = inr (omega (arith, h, l))

next-Shorter : (rt : Runtime) (s : Bytes) → Shorter (length s) (next rt s)
unfolding next
next-Shorter rt s =
    let rest = skip_blank_and_comments false s in
    skipped-Shorter (length rest) (length s) (lex_token rt rest) (length-skip false s)
      (lex_token-Shorter rt rest)

-- With fuel for each character and one more, the lexer ends on every text.
pub tokens_enough :
    (rt : Runtime) (n : ℕ) (s : Bytes) → length s < n → (ts : Tokens) × (tokens n rt s ≡ some ts)
unfolding tokens
tokens_enough rt zero s h = absurd (omega (arith, h))
tokens_enough rt (suc n) s h =
    by_next (λ rest l. tokens_enough rt n rest l) (next rt s) (next-Shorter rt s)
  where
    by_next :
        ((rest : Bytes) → length rest < n → (ts : Tokens) × (tokens n rt rest ≡ some ts))
        → (o : Option (Token × Bytes)) → Shorter (length s) o
        → (ts : Tokens) × (met (λ rest. tokens n rt rest) o ≡ some ts)
    by_next go none short = ([], refl)
    by_next go (some (t, rest)) (inl bad) = (t ∷ [], rw bad refl)
    by_next go (some (t, rest)) (inr short) = elim (Bool-cases (is_error t)) [
      | inl bad ↦ (t ∷ [], rw bad refl)
      | inr fine ↦
          let more = go rest (omega (arith, h, short)) in (t ∷ more.0, rw (fine, more.1) refl)
    ]
