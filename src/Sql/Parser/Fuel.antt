-- ===== src/Sql/Parser/Fuel.antt =====
-- The fuel of the parser of expressions: four rounds for each token are enough.
use rtdb_common.Common.{
  ℕ, zero, suc, ◌+◌, ◌*◌, ◌≤◌, [], ◌∷◌, arith, Bool-cases, inl, inr, ltb, length,
}
use rtdb_common.Types.{Bytes}
use rtdb_common.Sql.Ast.{Condition}
use rtdb_common.Sql.Token.{
  Tokens, Parse, parsed, failed, out_of_fuel, ◌>>=◌, k_identifier, k_integer, k_float, k_string,
  k_lparen, k_rparen, k_dot, k_equal, k_unequal, k_below, k_at_most, k_above, k_at_least, k_and,
  k_or, k_not, k_is, k_null, k_true, k_false,
}
use rtdb_common.Sql.Parser.{
  unqualified, take_identifier, take_literal, take_operator, parse_null_test, parse_comparison,
  parse_test, parse_operand, close_paren, parse_or, or_tail, parse_and, and_tail, parse_not,
  parse_primary,
}

-- The parse ends, and if it succeeds it has taken `k` of the tokens at least.
abbrev pub Ends {ℓ} : {A : Type ℓ} → ℕ → Tokens → Parse A → Type 0
Ends k ts (parsed a rest) = length rest + k ≤ length ts
Ends k ts (failed e) = Unit
Ends k ts out_of_fuel = ⊥

pub Ends-bind {ℓ κ} :
    {A : Type ℓ} {B : Type κ} (j k : ℕ) (ts : Tokens) (m : Parse A) (f : A × Tokens → Parse B)
    → Ends j ts m
    → ((a : A) (rest : Tokens) → length rest + j ≤ length ts → Ends k ts (f (a, rest)))
    → Ends k ts (m >>= f)
Ends-bind j k ts (parsed a rest) f h g = g a rest h
Ends-bind j k ts (failed e) f h g = tt
Ends-bind j k ts out_of_fuel f h g = h

-- What ends on fewer tokens ends on more.
pub Ends-more {ℓ} :
    {A : Type ℓ} (j k : ℕ) (us ts : Tokens) (m : Parse A)
    → length us + k ≤ length ts + j
    → Ends j us m
    → Ends k ts m
Ends-more j k us ts (parsed a rest) h e = omega (arith, h, e)
Ends-more j k us ts (failed x) h e = tt
Ends-more j k us ts out_of_fuel h e = e

unqualified-Ends : (name : Bytes) (ts : Tokens) → Ends 0 ts (unqualified name ts)
unfolding unqualified
unqualified-Ends name [] = omega arith
unqualified-Ends name (k_dot ∷ ts) = tt
unqualified-Ends name (t ∷ ts) = omega arith

pub take_identifier-Ends : (ts : Tokens) → Ends 1 ts (take_identifier ts)
unfolding take_identifier
take_identifier-Ends [] = tt
take_identifier-Ends (k_identifier name ∷ ts) = elim (Bool-cases (ltb 64 (length name))) [
  | inl e ↦ rw e tt
  | inr e ↦
      rw e (Ends-more 0 1 ts (k_identifier name ∷ ts) _ (omega arith) (unqualified-Ends name ts))
]
take_identifier-Ends (t ∷ ts) = tt

pub take_literal-Ends : (ts : Tokens) → Ends 1 ts (take_literal ts)
unfolding take_literal
take_literal-Ends [] = tt
take_literal-Ends (k_integer v ∷ ts) = omega arith
take_literal-Ends (k_float v ∷ ts) = omega arith
take_literal-Ends (k_string s ∷ ts) = omega arith
take_literal-Ends (k_true ∷ ts) = omega arith
take_literal-Ends (k_false ∷ ts) = omega arith
take_literal-Ends (k_null ∷ ts) = omega arith
take_literal-Ends (t ∷ ts) = tt

take_operator-Ends : (ts : Tokens) → Ends 1 ts (take_operator ts)
unfolding take_operator
take_operator-Ends [] = tt
take_operator-Ends (k_equal ∷ ts) = omega arith
take_operator-Ends (k_unequal ∷ ts) = omega arith
take_operator-Ends (k_below ∷ ts) = omega arith
take_operator-Ends (k_at_most ∷ ts) = omega arith
take_operator-Ends (k_above ∷ ts) = omega arith
take_operator-Ends (k_at_least ∷ ts) = omega arith
take_operator-Ends (t ∷ ts) = tt

parse_null_test-Ends : (column : Bytes) (ts : Tokens) → Ends 0 ts (parse_null_test column ts)
unfolding parse_null_test
parse_null_test-Ends column [] = tt
parse_null_test-Ends column (k_null ∷ ts) = omega arith
parse_null_test-Ends column (k_not ∷ []) = tt
parse_null_test-Ends column (k_not ∷ (k_null ∷ ts)) = omega arith
parse_null_test-Ends column (k_not ∷ (t ∷ ts)) = tt
parse_null_test-Ends column (t ∷ ts) = tt

parse_comparison-Ends : (column : Bytes) (ts : Tokens) → Ends 0 ts (parse_comparison column ts)
unfolding parse_comparison
parse_comparison-Ends column ts =
    Ends-bind 1 0 ts (take_operator ts) _ (take_operator-Ends ts) (λ op us h.
      Ends-more 1 0 us ts _ (omega (arith, h))
        (Ends-bind 1 1 us (take_literal us) _ (take_literal-Ends us) (λ v rest k. k)))

parse_test-Ends : (column : Bytes) (ts : Tokens) → Ends 0 ts (parse_test column ts)
unfolding parse_test
parse_test-Ends column [] = parse_comparison-Ends column []
parse_test-Ends column (k_is ∷ ts) =
    Ends-more 0 0 ts (k_is ∷ ts) _ (omega arith) (parse_null_test-Ends column ts)
parse_test-Ends column (t ∷ ts) = parse_comparison-Ends column (t ∷ ts)

parse_operand-Ends : (ts : Tokens) → Ends 1 ts (parse_operand ts)
unfolding parse_operand
parse_operand-Ends ts =
    Ends-bind 1 1 ts (take_identifier ts) _ (take_identifier-Ends ts)
      (λ column us h. Ends-more 0 1 us ts _ (omega (arith, h)) (parse_test-Ends column us))

close_paren-Ends : (c : Condition) (ts : Tokens) → Ends 1 ts (close_paren c ts)
unfolding close_paren
close_paren-Ends c [] = tt
close_paren-Ends c (k_rparen ∷ ts) = omega arith
close_paren-Ends c (t ∷ ts) = tt

mutual
  unfolding parse_or

  parse_or-Ends : (n : ℕ) (ts : Tokens) → 4 * length ts + 4 ≤ n → Ends 1 ts (parse_or n ts)
  parse_or-Ends zero ts l = omega (arith, l)
  parse_or-Ends (suc n) ts l =
      Ends-bind 1 1 ts (parse_and n ts) _ (parse_and-Ends n ts (omega (arith, l))) (λ left us h.
        Ends-more 0 1 us ts _ (omega (arith, h)) (
          Ends-bind 0 0 us (or_tail n us) _ (or_tail-Ends n us (omega (arith, l, h)))
            (λ more rest k. k)))

  or_tail-Ends : (n : ℕ) (ts : Tokens) → 4 * length ts + 1 ≤ n → Ends 0 ts (or_tail n ts)
  or_tail-Ends zero ts l = omega (arith, l)
  or_tail-Ends (suc n) [] l = omega arith
  or_tail-Ends (suc n) (k_or ∷ ts) l = Ends-more 1 0 ts (k_or ∷ ts) _ (omega arith) (
      Ends-bind 1 1 ts (parse_and n ts) _ (parse_and-Ends n ts (omega (arith, l))) (λ right us h.
        Ends-more 0 1 us ts _ (omega (arith, h)) (
          Ends-bind 0 0 us (or_tail n us) _ (or_tail-Ends n us (omega (arith, l, h)))
            (λ more rest k. k))))
  or_tail-Ends (suc n) (t ∷ ts) l = omega arith

  parse_and-Ends : (n : ℕ) (ts : Tokens) → 4 * length ts + 3 ≤ n → Ends 1 ts (parse_and n ts)
  parse_and-Ends zero ts l = omega (arith, l)
  parse_and-Ends (suc n) ts l =
      Ends-bind 1 1 ts (parse_not n ts) _ (parse_not-Ends n ts (omega (arith, l))) (λ left us h.
        Ends-more 0 1 us ts _ (omega (arith, h)) (
          Ends-bind 0 0 us (and_tail n us) _ (and_tail-Ends n us (omega (arith, l, h)))
            (λ more rest k. k)))

  and_tail-Ends : (n : ℕ) (ts : Tokens) → 4 * length ts + 1 ≤ n → Ends 0 ts (and_tail n ts)
  and_tail-Ends zero ts l = omega (arith, l)
  and_tail-Ends (suc n) [] l = omega arith
  and_tail-Ends (suc n) (k_and ∷ ts) l = Ends-more 1 0 ts (k_and ∷ ts) _ (omega arith) (
      Ends-bind 1 1 ts (parse_not n ts) _ (parse_not-Ends n ts (omega (arith, l))) (λ right us h.
        Ends-more 0 1 us ts _ (omega (arith, h)) (
          Ends-bind 0 0 us (and_tail n us) _ (and_tail-Ends n us (omega (arith, l, h)))
            (λ more rest k. k))))
  and_tail-Ends (suc n) (t ∷ ts) l = omega arith

  parse_not-Ends : (n : ℕ) (ts : Tokens) → 4 * length ts + 2 ≤ n → Ends 1 ts (parse_not n ts)
  parse_not-Ends zero ts l = omega (arith, l)
  parse_not-Ends (suc n) (k_not ∷ ts) l = Ends-more 1 1 ts (k_not ∷ ts) _ (omega arith) (
      Ends-bind 1 1 ts (parse_not n ts) _ (parse_not-Ends n ts (omega (arith, l)))
        (λ child rest h. h))
  parse_not-Ends (suc n) [] l = parse_primary-Ends n [] (omega (arith, l))
  parse_not-Ends (suc n) (t ∷ ts) l = parse_primary-Ends n (t ∷ ts) (omega (arith, l))

  parse_primary-Ends :
      (n : ℕ) (ts : Tokens) → 4 * length ts + 1 ≤ n → Ends 1 ts (parse_primary n ts)
  parse_primary-Ends zero ts l = omega (arith, l)
  parse_primary-Ends (suc n) (k_lparen ∷ ts) l = Ends-more 1 1 ts (k_lparen ∷ ts) _ (omega arith) (
      Ends-bind 1 1 ts (parse_or n ts) _ (parse_or-Ends n ts (omega (arith, l)))
        (λ inner us h. Ends-more 1 1 us ts _ (omega (arith, h)) (close_paren-Ends inner us)))
  parse_primary-Ends (suc n) [] l = parse_operand-Ends []
  parse_primary-Ends (suc n) (t ∷ ts) l = parse_operand-Ends (t ∷ ts)

-- With fuel for four rounds on each token and four more, the parser of a WHERE clause ends: it fails,
-- or it succeeds and has taken a token at least.
pub parse_or_terminates : (n : ℕ) (ts : Tokens) → 4 * length ts + 4 ≤ n → Ends 1 ts (parse_or n ts)
parse_or_terminates n ts l = parse_or-Ends n ts l
