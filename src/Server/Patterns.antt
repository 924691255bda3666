-- ===== src/Server/Patterns.antt =====
-- Which tables the patterns of a permission cover.
use rtdb_common.Common.{
  ℕ, zero, suc, ◌-◌, ◌==◌, if◌then◌else◌, ◌&&◌, [], ◌∷◌, ◌++◌, Bool, true, false, length, take,
  get_or, bytes_eq, leb, ◌≡◌, ◌≢◌, ◌↔◌, ◌⊎◌, inl, inr, refl, sym, ap, ◌∙◌, arith, Bool-cases,
  bytes_eq_refl, eq_of_bytes_eq, ==_iff, ◌<◌, length-append, take-length-append,
}
use rtdb_common.Types.{Bytes}
use rtdb_common.Server.{star, back, table_pattern_matches}

-- The table is one of those that the pattern stands for: a star at the end stands for any rest.
pub data Covers (pattern table : Bytes) : Type 0 where
  exactly : pattern ≡ table → pattern ≢ [] → Covers pattern table
  by_prefix :
      (p rest : Bytes) → pattern ≡ p ++ (star ∷ []) → table ≡ p ++ rest → Covers pattern table

snoc-cases : (s : Bytes) → (s ≡ []) ⊎ ((p : Bytes) × (x : ℕ) × (s ≡ p ++ (x ∷ [])))
snoc-cases [] = inl refl
snoc-cases (b ∷ s) = inr (elim (snoc-cases s) [
  | inl e ↦ ([], b, ap (λ l. b ∷ l) e)
  | inr (p, x, e) ↦ (b ∷ p, x, ap (λ l. b ∷ l) e)
])

last_index : (p : Bytes) (x : ℕ) → length (p ++ (x ∷ [])) - 1 ≡ length p
last_index p x = omega (arith, length-append p (x ∷ []))

get_or-length : (p : Bytes) (x : ℕ) → get_or (p ++ (x ∷ [])) (length p) 0 ≡ x
get_or-length [] x = refl
get_or-length (b ∷ p) x = get_or-length p x

-- The result of the match by the last character of the pattern.
abbrev by_last : Bytes → ℕ → Bytes → Bool
by_last p x t =
    if x == star
    then leb (length p) (length t) && bytes_eq (take (length p) t) p
    else bytes_eq (p ++ (x ∷ [])) t

only_star : (x : ℕ) (t : Bytes) → table_pattern_matches (x ∷ []) t ≡ by_last [] x t
unfolding table_pattern_matches bytes_eq
only_star x t = ground arith

longer : (a : ℕ) (p : Bytes) (x : ℕ) → bytes_eq (a ∷ (p ++ (x ∷ []))) (star ∷ []) ≡ false
unfolding bytes_eq
longer a [] x = ground arith
longer a (b ∷ p) x = ground arith

-- The match of a pattern longer than one character, by its front and its last character.
match_front :
    (pattern t q : Bytes) (y : ℕ)
    → take (length pattern - 1) pattern ≡ q
    → back pattern ≡ y
    → bytes_eq pattern (star ∷ []) ≡ false
    → 0 < length pattern
    → 0 < length q
    → table_pattern_matches pattern t ≡ (
        if y == star
        then leb (length q) (length t) && bytes_eq (take (length q) t) q
        else bytes_eq pattern t)
unfolding table_pattern_matches
match_front pattern t q y e f g h k = simp (e, f, g) (ground arith)

matches_by_last :
    (p : Bytes) (x : ℕ) (t : Bytes) → table_pattern_matches (p ++ (x ∷ [])) t ≡ by_last p x t
matches_by_last [] x t = only_star x t
matches_by_last (a ∷ p) x t =
    match_front (a ∷ (p ++ (x ∷ []))) t (a ∷ p) x
      (ap (λ n. take n (a ∷ (p ++ (x ∷ [])))) (last_index (a ∷ p) x)
        ∙ take-length-append (a ∷ p) (x ∷ []))
      (ap (λ n. get_or (a ∷ (p ++ (x ∷ []))) n 0) (last_index (a ∷ p) x) ∙ get_or-length (a ∷ p) x)
      (longer a p x) (omega arith) (omega arith)

take_split : (n : ℕ) (t p : Bytes) → take n t ≡ p → (rest : Bytes) × (t ≡ p ++ rest)
take_split zero t p e = (t, ap (λ l. l ++ t) e)
take_split (suc n) [] p e = ([], ap (λ l. l ++ []) e)
take_split (suc n) (b ∷ t) p e =
    let (rest, q) = take_split n t (take n t) refl in
    (rest, ap (λ l. b ∷ l) q ∙ ap (λ l. l ++ rest) e)

snoc-nonempty : (p : Bytes) (x : ℕ) → p ++ (x ∷ []) ≢ []
snoc-nonempty [] x e = cc
snoc-nonempty (a ∷ p) x e = cc

nothing : (t : Bytes) → table_pattern_matches [] t ≢ true
unfolding table_pattern_matches
nothing t e = cc

any_rest : (p rest : Bytes) → by_last p star (p ++ rest) ≡ true
any_rest p rest =
    rw (take-length-append p rest, bytes_eq_refl p) (ground (arith, length-append p rest))

itself : (p : Bytes) (x : ℕ) → by_last p x (p ++ (x ∷ [])) ≡ true
itself p x =
    rw (take-length-append p (x ∷ []), bytes_eq_refl p, bytes_eq_refl (p ++ (x ∷ [])))
      (ground (arith, length-append p (x ∷ [])))

-- A pattern matches exactly the tables that it covers.
pub table_pattern_matches_iff :
    (pattern table : Bytes) → (table_pattern_matches pattern table ≡ true) ↔ Covers pattern table
table_pattern_matches_iff pattern table = (covered, matched)
  where
    of_last :
        (p : Bytes) (x : ℕ)
        → pattern ≡ p ++ (x ∷ [])
        → by_last p x table ≡ true
        → Covers pattern table
    of_last p x e h = elim (Bool-cases (x == star)) [
      | inl s ↦
          let (rest, q) =
            take_split (length p) table p (eq_of_bytes_eq _ _ (ground (arith, s, h))) in
          by_prefix p rest (e ∙ ap (λ y. p ++ (y ∷ [])) ((==_iff x star).0 s)) q
      | inr s ↦ exactly (e ∙ eq_of_bytes_eq _ _ (rw s at h)) (λ n. snoc-nonempty p x (sym e ∙ n))
    ]

    covered : table_pattern_matches pattern table ≡ true → Covers pattern table
    covered h = elim (snoc-cases pattern) [
      | inl e ↦ absurd (nothing table (sym (ap (λ l. table_pattern_matches l table) e) ∙ h))
      | inr (p, x, e) ↦
          of_last p x e
            (sym (matches_by_last p x table) ∙ ap (λ l. table_pattern_matches l table) (sym e) ∙ h)
    ]

    matched : Covers pattern table → table_pattern_matches pattern table ≡ true
    matched (exactly e n) = elim (snoc-cases pattern) [
      | inl z ↦ absurd (n z)
      | inr (p, x, z) ↦ rw (sym e) (rw z (matches_by_last p x _ ∙ itself p x))
    ]
    matched (by_prefix p rest e q) = rw (e, q) (matches_by_last p star _ ∙ any_rest p rest)
