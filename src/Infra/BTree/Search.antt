-- ===== src/Infra/BTree/Search.antt =====
-- The binary searches in a node: `LowerBound` and `StrictUpper` of src/infra/shared_btree.hpp.
use rtdb_common.Common.{
  ℕ, zero, suc, ◌+◌, ◌-◌, ◌/◌, ◌≤◌, ◌<◌, ◌≡◌, arith, List, [], ◌∷◌, Bool, true, false, length,
  get_or, leb, ltb, not, if◌then◌else◌, Bool-cases, inl, inr,
}

-- The loop over `lo` and `hi`, with the rounds that are left.
unfoldable pub search : ℕ → (ℕ → Bool) → List ℕ → ℕ → ℕ → ℕ
search zero before ks lo hi = lo
search (suc n) before ks lo hi =
    let mid = lo + (hi - lo) / 2 in
    let right = search n before ks (mid + 1) hi in
    let left = search n before ks lo mid in
    if not (ltb lo hi) then lo else if before (get_or ks mid 0) then right else left

-- The range has as many keys as the node, and each round leaves fewer.
unfoldable pub lower_bound : List ℕ → ℕ → ℕ
lower_bound ks target = search (length ks) (λ k. ltb k target) ks 0 (length ks)

unfoldable pub strict_upper : List ℕ → ℕ → ℕ
strict_upper ks target = search (length ks) (λ k. leb k target) ks 0 (length ks)

-- The keys in front that pass the test.
abbrev pub rank : (ℕ → Bool) → List ℕ → ℕ
rank before [] = 0
rank before (k ∷ ks) = if before k then suc (rank before ks) else 0

-- Behind a key that fails the test, every key fails it.
abbrev pub Fails : (ℕ → Bool) → List ℕ → Type 0
Fails before ks = (i : ℕ) → i < length ks → before (get_or ks i 0) ≡ false

abbrev pub Parts : (ℕ → Bool) → List ℕ → Type 0
Parts before [] = Unit
Parts before (k ∷ ks) = (before k ≡ false → Fails before ks) × Parts before ks

-- The test gives the same answer from the first key that fails it on.
below_rank :
    (before : ℕ → Bool) (ks : List ℕ) (i : ℕ) → i < rank before ks → before (get_or ks i 0) ≡ true
below_rank before [] i h = absurd (omega (arith, h))
below_rank before (k ∷ ks) zero h = elim (Bool-cases (before k)) [
  | inl passes ↦ passes
  | inr fails ↦ ground (arith, h, fails)
]
below_rank before (k ∷ ks) (suc i) h = below_rank before ks i (elim (Bool-cases (before k)) [
  | inl passes ↦ ground (arith, h, passes)
  | inr fails ↦ ground (arith, h, fails)
])

above_rank :
    (before : ℕ → Bool) (ks : List ℕ) (i : ℕ)
    → Parts before ks
    → rank before ks ≤ i
    → i < length ks
    → before (get_or ks i 0) ≡ false
above_rank before [] i p h l = absurd (omega (arith, l))
above_rank before (k ∷ ks) zero p h l = elim (Bool-cases (before k)) [
  | inl passes ↦ absurd (ground (arith, h, passes))
  | inr fails ↦ fails
]
above_rank before (k ∷ ks) (suc i) p h l = elim (Bool-cases (before k)) [
  | inl passes ↦ above_rank before ks i p.1 (ground (arith, h, passes)) (omega (arith, l))
  | inr fails ↦ p.0 fails i (omega (arith, l))
]

search-rank :
    (n : ℕ) (before : ℕ → Bool) (ks : List ℕ) (lo hi : ℕ)
    → Parts before ks
    → lo ≤ rank before ks
    → rank before ks ≤ hi
    → hi ≤ length ks
    → hi - lo ≤ n
    → search n before ks lo hi ≡ rank before ks
unfolding search
search-rank zero before ks lo hi p a b c d = omega (arith, a, b, d)
search-rank (suc n) before ks lo hi p a b c d =
    let mid = lo + (hi - lo) / 2 in
    elim (Bool-cases (ltb lo hi)) [
      | inr shut ↦ ground (arith, a, b, shut)
      | inl room ↦
          let inside : (lo ≤ mid) × (mid < hi) = ground (arith, room) in
          elim (Bool-cases (before (get_or ks mid 0))) [
            | inl passes ↦
                let passed : mid < rank before ks =
                  right_of mid passes (omega (arith, inside.1, c)) in
                let rest : search n before ks (mid + 1) hi ≡ rank before ks =
                  search-rank n before ks (mid + 1) hi p (omega (arith, passed)) b c
                    (omega (arith, inside, d)) in
                rw (room, passes) rest
            | inr fails ↦
                let kept : rank before ks ≤ mid = left_of mid fails in
                let rest : search n before ks lo mid ≡ rank before ks =
                  search-rank n before ks lo mid p a kept (omega (arith, inside, c))
                    (omega (arith, inside, d)) in
                rw (room, fails) rest
          ]
    ]
  where
    right_of : (mid : ℕ) → before (get_or ks mid 0) ≡ true → mid < length ks → mid < rank before ks
    right_of mid passes small = elim (Bool-cases (ltb mid (rank before ks))) [
      | inl lt ↦ ground (arith, lt)
      | inr ge ↦ absurd (cc (passes, above_rank before ks mid p (ground (arith, ge)) small))
    ]

    left_of : (mid : ℕ) → before (get_or ks mid 0) ≡ false → rank before ks ≤ mid
    left_of mid fails = elim (Bool-cases (ltb mid (rank before ks))) [
      | inr ge ↦ ground (arith, ge)
      | inl lt ↦ absurd (cc (fails, below_rank before ks mid (ground (arith, lt))))
    ]

rank-length : (before : ℕ → Bool) (ks : List ℕ) → rank before ks ≤ length ks
rank-length before [] = omega arith
rank-length before (k ∷ ks) = elim (Bool-cases (before k)) [
  | inl passes ↦ ground (arith, passes, rank-length before ks)
  | inr fails ↦ ground (arith, fails)
]

-- On keys in order, both searches count the keys that pass their test.
pub lower_bound-rank :
    (ks : List ℕ) (target : ℕ)
    → Parts (λ k. ltb k target) ks
    → lower_bound ks target ≡ rank (λ k. ltb k target) ks
unfolding lower_bound
lower_bound-rank ks target p =
    search-rank (length ks) (λ k. ltb k target) ks 0 (length ks) p (omega arith)
      (rank-length (λ k. ltb k target) ks) (omega arith) (omega arith)

pub strict_upper-rank :
    (ks : List ℕ) (target : ℕ)
    → Parts (λ k. leb k target) ks
    → strict_upper ks target ≡ rank (λ k. leb k target) ks
unfolding strict_upper
strict_upper-rank ks target p =
    search-rank (length ks) (λ k. leb k target) ks 0 (length ks) p (omega arith)
      (rank-length (λ k. leb k target) ks) (omega arith) (omega arith)

search_le :
    (n : ℕ) (before : ℕ → Bool) (ks : List ℕ) (lo hi : ℕ) → lo ≤ hi → search n before ks lo hi ≤ hi
unfolding search
search_le zero before ks lo hi h = h
search_le (suc n) before ks lo hi h =
    let mid = lo + (hi - lo) / 2 in
    elim (Bool-cases (ltb lo hi)) [
      | inr shut ↦ rw shut h
      | inl room ↦
          let inside : mid < hi = ground (arith, room) in
          elim (Bool-cases (before (get_or ks mid 0))) [
            | inl passes ↦
                rw (room, passes) (search_le n before ks (mid + 1) hi (omega (arith, inside)))
            | inr fails ↦
                let left = search_le n before ks lo mid (omega arith) in
                rw (room, fails) (omega (arith, left, inside))
          ]
    ]

-- On any keys, the search ends within the node.
pub strict_upper_le : (ks : List ℕ) (target : ℕ) → strict_upper ks target ≤ length ks
unfolding strict_upper
strict_upper_le ks target = search_le (length ks) (λ k. leb k target) ks 0 (length ks) (omega arith)
