-- ===== src/Sql/Parser/WellFormed.antt =====
-- The conditions that the parser builds: every node has the children that the evaluation counts on.
use mathlib.Core.Path.{subst}
use rtdb_common.Common.{ℕ, zero, suc, [], ◌∷◌, ◌≡◌}
use rtdb_common.Types.{Bytes}
use rtdb_common.Sql.Ast.{
  Condition, Conditions, compare, is_null, is_not_null, all_of, any_of, not_of, nil, cons,
}
use rtdb_common.Sql.Token.{
  Tokens, Parse, parsed, failed, out_of_fuel, ◌>>=◌, k_lparen, k_rparen, k_and, k_or, k_not, k_is,
  k_null,
}
use rtdb_common.Sql.Parser.{
  take_identifier, take_literal, take_operator, parse_null_test, parse_comparison, parse_test,
  parse_operand, node_or, node_and, close_paren, parse_or, or_tail, parse_and, and_tail, parse_not,
  parse_primary,
}

-- A negation has one child, a conjunction and a disjunction have two at least.
unfoldable mutual
  pub IsWellFormed : Condition → Type 0
  IsWellFormed (compare column op value) = Unit
  IsWellFormed (is_null column) = Unit
  IsWellFormed (is_not_null column) = Unit
  IsWellFormed (all_of nil) = ⊥
  IsWellFormed (all_of (cons c nil)) = ⊥
  IsWellFormed (all_of (cons c (cons d cs))) = IsWellFormed c × IsWellFormed d × AreWellFormed cs
  IsWellFormed (any_of nil) = ⊥
  IsWellFormed (any_of (cons c nil)) = ⊥
  IsWellFormed (any_of (cons c (cons d cs))) = IsWellFormed c × IsWellFormed d × AreWellFormed cs
  IsWellFormed (not_of nil) = ⊥
  IsWellFormed (not_of (cons c nil)) = IsWellFormed c
  IsWellFormed (not_of (cons c (cons d cs))) = ⊥

  pub AreWellFormed : Conditions → Type 0
  AreWellFormed nil = Unit
  AreWellFormed (cons c cs) = IsWellFormed c × AreWellFormed cs

-- What a parse yields, if it yields something, has the property.
abbrev Yields {ℓ} : {A : Type ℓ} → (A → Type 0) → Parse A → Type 0
Yields P (parsed a ts) = P a
Yields P (failed e) = Unit
Yields P out_of_fuel = Unit

Yields-bind {ℓ κ} :
    {A : Type ℓ} {B : Type κ} (Q : A → Type 0) (P : B → Type 0) (m : Parse A)
    (f : A × Tokens → Parse B)
    → Yields Q m
    → ((a : A) (ts : Tokens) → Q a → Yields P (f (a, ts)))
    → Yields P (m >>= f)
Yields-bind Q P (parsed a ts) f h k = k a ts h
Yields-bind Q P (failed e) f h k = tt
Yields-bind Q P out_of_fuel f h k = tt

node_or-IsWellFormed :
    (left : Condition) (more : Conditions)
    → IsWellFormed left
    → AreWellFormed more
    → IsWellFormed (node_or left more)
unfolding node_or IsWellFormed
node_or-IsWellFormed left nil h k = h
node_or-IsWellFormed left (cons c cs) h k = (h, k.0, k.1)

node_and-IsWellFormed :
    (left : Condition) (more : Conditions)
    → IsWellFormed left
    → AreWellFormed more
    → IsWellFormed (node_and left more)
unfolding node_and IsWellFormed
node_and-IsWellFormed left nil h k = h
node_and-IsWellFormed left (cons c cs) h k = (h, k.0, k.1)

close_paren-Yields :
    (c : Condition) (ts : Tokens) → IsWellFormed c → Yields IsWellFormed (close_paren c ts)
unfolding close_paren
close_paren-Yields c [] h = tt
close_paren-Yields c (k_rparen ∷ ts) h = h
close_paren-Yields c (t ∷ ts) h = tt

Yields-any {ℓ} : {A : Type ℓ} (m : Parse A) → Yields (λ a. Unit {0}) m
Yields-any (parsed a ts) = tt
Yields-any (failed e) = tt
Yields-any out_of_fuel = tt

parse_null_test-Yields :
    (column : Bytes) (ts : Tokens) → Yields IsWellFormed (parse_null_test column ts)
unfolding parse_null_test IsWellFormed
parse_null_test-Yields column [] = tt
parse_null_test-Yields column (k_null ∷ ts) = tt
parse_null_test-Yields column (k_not ∷ []) = tt
parse_null_test-Yields column (k_not ∷ (k_null ∷ ts)) = tt
parse_null_test-Yields column (k_not ∷ (t ∷ ts)) = tt
parse_null_test-Yields column (t ∷ ts) = tt

parse_comparison-Yields :
    (column : Bytes) (ts : Tokens) → Yields IsWellFormed (parse_comparison column ts)
unfolding parse_comparison IsWellFormed
parse_comparison-Yields column ts =
    Yields-bind (λ a. Unit {0}) IsWellFormed (take_operator ts) _ (Yields-any (take_operator ts))
      (λ op ts1 h.
        Yields-bind (λ a. Unit {0}) IsWellFormed (take_literal ts1) _
          (Yields-any (take_literal ts1)) (λ v ts2 h. tt))

parse_test-Yields : (column : Bytes) (ts : Tokens) → Yields IsWellFormed (parse_test column ts)
unfolding parse_test
parse_test-Yields column [] = parse_comparison-Yields column []
parse_test-Yields column (k_is ∷ ts) = parse_null_test-Yields column ts
parse_test-Yields column (t ∷ ts) = parse_comparison-Yields column (t ∷ ts)

parse_operand-Yields : (ts : Tokens) → Yields IsWellFormed (parse_operand ts)
unfolding parse_operand
parse_operand-Yields ts =
    Yields-bind (λ a. Unit {0}) IsWellFormed (take_identifier ts) _
      (Yields-any (take_identifier ts)) (λ column ts1 h. parse_test-Yields column ts1)

mutual
  unfolding parse_or IsWellFormed

  parse_or-Yields : (n : ℕ) (ts : Tokens) → Yields IsWellFormed (parse_or n ts)
  parse_or-Yields zero ts = tt
  parse_or-Yields (suc n) ts =
      Yields-bind IsWellFormed IsWellFormed (parse_and n ts) _ (parse_and-Yields n ts)
        (λ left ts1 h.
          Yields-bind AreWellFormed IsWellFormed (or_tail n ts1) _ (or_tail-Yields n ts1)
            (λ more ts2 k. node_or-IsWellFormed left more h k))

  or_tail-Yields : (n : ℕ) (ts : Tokens) → Yields AreWellFormed (or_tail n ts)
  or_tail-Yields zero ts = tt
  or_tail-Yields (suc n) (k_or ∷ ts) =
      Yields-bind IsWellFormed AreWellFormed (parse_and n ts) _ (parse_and-Yields n ts)
        (λ right ts1 h.
          Yields-bind AreWellFormed AreWellFormed (or_tail n ts1) _ (or_tail-Yields n ts1)
            (λ more ts2 k. (h, k)))
  or_tail-Yields (suc n) [] = tt
  or_tail-Yields (suc n) (t ∷ ts) = tt

  parse_and-Yields : (n : ℕ) (ts : Tokens) → Yields IsWellFormed (parse_and n ts)
  parse_and-Yields zero ts = tt
  parse_and-Yields (suc n) ts =
      Yields-bind IsWellFormed IsWellFormed (parse_not n ts) _ (parse_not-Yields n ts)
        (λ left ts1 h.
          Yields-bind AreWellFormed IsWellFormed (and_tail n ts1) _ (and_tail-Yields n ts1)
            (λ more ts2 k. node_and-IsWellFormed left more h k))

  and_tail-Yields : (n : ℕ) (ts : Tokens) → Yields AreWellFormed (and_tail n ts)
  and_tail-Yields zero ts = tt
  and_tail-Yields (suc n) (k_and ∷ ts) =
      Yields-bind IsWellFormed AreWellFormed (parse_not n ts) _ (parse_not-Yields n ts)
        (λ right ts1 h.
          Yields-bind AreWellFormed AreWellFormed (and_tail n ts1) _ (and_tail-Yields n ts1)
            (λ more ts2 k. (h, k)))
  and_tail-Yields (suc n) [] = tt
  and_tail-Yields (suc n) (t ∷ ts) = tt

  parse_not-Yields : (n : ℕ) (ts : Tokens) → Yields IsWellFormed (parse_not n ts)
  parse_not-Yields zero ts = tt
  parse_not-Yields (suc n) (k_not ∷ ts) =
      Yields-bind IsWellFormed IsWellFormed (parse_not n ts) _ (parse_not-Yields n ts)
        (λ child ts1 h. h)
  parse_not-Yields (suc n) [] = parse_primary-Yields n []
  parse_not-Yields (suc n) (t ∷ ts) = parse_primary-Yields n (t ∷ ts)

  parse_primary-Yields : (n : ℕ) (ts : Tokens) → Yields IsWellFormed (parse_primary n ts)
  parse_primary-Yields zero ts = tt
  parse_primary-Yields (suc n) (k_lparen ∷ ts) =
      Yields-bind IsWellFormed IsWellFormed (parse_or n ts) _ (parse_or-Yields n ts)
        (λ inner ts1 h. close_paren-Yields inner ts1 h)
  parse_primary-Yields (suc n) [] = parse_operand-Yields []
  parse_primary-Yields (suc n) (t ∷ ts) = parse_operand-Yields (t ∷ ts)

-- Every condition that the parser of a WHERE clause yields is well formed.
pub parse_or-IsWellFormed :
    (n : ℕ) (ts rest : Tokens) (c : Condition) → parse_or n ts ≡ parsed c rest → IsWellFormed c
parse_or-IsWellFormed n ts rest c e = subst (Yields IsWellFormed) e (parse_or-Yields n ts)
