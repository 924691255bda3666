-- ===== src/Infra/BTree/Invariant.antt =====
-- The invariant of the tree of src/infra/shared_btree.hpp, which `Validate` tests in part, and what an
-- operation on a node may do to the entries below it.
use rtdb_common.Common.{
  ℕ, zero, suc, ◌≤◌, ◌<◌, ◌≡◌, sym, ap, ◌∙◌, List, [], ◌++◌, length, none, some,
}
use rtdb_common.Types.{Err, k_ok, k_already_exists, k_out_of_memory, k_not_found, Result, ok, err}
use rtdb_common.Infra.BTree.{Entry, Node, leaf, inner, Children, nil, cons, Capacity, separators}
use rtdb_common.Infra.BTree.Update.{Outcome}
use rtdb_common.Infra.BTree.Contents.{
  Sorted, Below, Above, lookup, put_sorted, without, lookup_between, put_between, without_between,
}

-- The entries below a node, from left to right.
unfoldable mutual
  pub contents : Node → List Entry
  contents (leaf lk es) = es
  contents (inner level c0 cs) = contents c0 ++ contents_behind cs

  pub contents_behind : Children → List Entry
  contents_behind nil = []
  contents_behind (cons k c cs) = contents c ++ contents_behind cs

abbrev pub all_contents : Node → Children → List Entry
all_contents c0 cs = contents c0 ++ contents_behind cs

-- Each child between the key in front of it and the key behind it, and these keys in order.
abbrev pub Kids : (ℕ → ℕ → Node → Type 0) → ℕ → ℕ → Node → Children → Type 0
Kids P lo hi c0 nil = P lo hi c0
Kids P lo hi c0 (cons k c cs) = P lo k c0 × (lo < k) × (k < hi) × Kids P k hi c cs

-- A node of height `h` with keys from `lo` on and below `hi`: leaves all at the same height, levels
-- that count the height, no node over its capacity, and entries and separators in order.
abbrev pub Valid : Capacity → ℕ → ℕ → ℕ → Node → Type 0
Valid cap zero lo hi (leaf lk es) = Sorted lo hi es × (length es ≤ cap.leaf)
Valid cap (suc h) lo hi (inner level c0 cs) =
    (level ≡ suc h) × (length (separators cs) ≤ cap.inner) × Kids (Valid cap h) lo hi c0 cs
Valid cap _ lo hi _ = ⊥

-- What `Insert` may do with the entries, for each error code.
pub data Inserts (key value : ℕ) (before : List Entry) (e : Err) (after : List Entry) : Type 0 where
  inserted :
      e ≡ k_ok
      → lookup before key ≡ none
      → after ≡ put_sorted (record { key = key; value = value }) before
      → Inserts key value before e after
  present :
      (old : ℕ)
      → e ≡ k_already_exists
      → lookup before key ≡ some old
      → after ≡ before
      → Inserts key value before e after
  no_room : e ≡ k_out_of_memory → after ≡ before → Inserts key value before e after

-- What `Remove` may do with them.
abbrev pub Removes : ℕ → List Entry → Result (List Entry) → Type 0
Removes key before (ok after) =
    ((old : ℕ) × (lookup before key ≡ some old)) × (after ≡ without before key)
Removes key before (err e) = (e ≡ k_not_found) × (lookup before key ≡ none)

-- An operation left a valid node, with the right entries.
abbrev pub Leaves : Capacity → ℕ → ℕ → ℕ → ℕ → ℕ → List Entry → Outcome → Type 0
Leaves cap h lo hi key value before out =
    Valid cap h lo hi out.node × Inserts key value before out.error (contents out.node)

abbrev pub Shrinks : Capacity → ℕ → ℕ → ℕ → ℕ → List Entry → Result Node → Type 0
Shrinks cap h lo hi key before (ok node) =
    Valid cap h lo hi node × Removes key before (ok (contents node))
Shrinks cap h lo hi key before (err e) = Removes key before (err e)

-- Entries in front and behind, without the key, change nothing.
module _ (key : ℕ) (pre post : List Entry) (below : Below key pre) (above : Above key post) where
  pub Inserts-between :
      (value : ℕ) (e : Err) (before after : List Entry)
      → Inserts key value before e after
      → Inserts key value (pre ++ (before ++ post)) e (pre ++ (after ++ post))
  Inserts-between value e before after (inserted is gone put) =
      inserted is (lookup_between key pre before post below above ∙ gone) (
        ap (λ l. pre ++ (l ++ post)) put
        ∙ sym (put_between (record { key = key; value = value }) pre before post below above))
  Inserts-between value e before after (present old is there same) =
      present old is (lookup_between key pre before post below above ∙ there)
        (ap (λ l. pre ++ (l ++ post)) same)
  Inserts-between value e before after (no_room is same) =
      no_room is (ap (λ l. pre ++ (l ++ post)) same)

  pub Removes-between :
      (before after : List Entry)
      → Removes key before (ok after)
      → Removes key (pre ++ (before ++ post)) (ok (pre ++ (after ++ post)))
  Removes-between before after r = (
    (r.0.0, lookup_between key pre before post below above ∙ r.0.1),
    ap (λ l. pre ++ (l ++ post)) r.1 ∙ sym (without_between key pre before post below above),
  )
