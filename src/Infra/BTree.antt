-- ===== src/Infra/BTree.antt =====
-- The B+ tree of the shared image (src/infra/shared_btree.hpp). Its keys have a fixed length, and
-- `memcmp` compares them as the numbers that their bytes write, the first byte first: a key is that
-- number. A payload is the number of its bits. A node is a value that holds its children, where the
-- image has their offsets: a node hangs at one place of the tree. A leaf has the name by which the link of
-- its left neighbour leads to it: the number of nodes that the allocator had left before it gave it out,
-- which is not 0.
pub mod Search
pub mod Update
pub mod Contents
pub mod Leaf
pub mod Invariant
pub mod Descent
pub mod Split
pub mod Laws
pub mod Insertion
pub mod Refinement
pub mod Room
pub mod Range
pub mod Scan
pub mod Ends
pub mod RangeLaws
pub mod Links
pub mod Listed
pub mod ListedLaws
pub mod Simulation
pub mod OrderedInt
use rtdb_common.Common.{
  ℕ, zero, suc, ◌+◌, ◌-◌, ◌*◌, ◌/◌, List, [], ◌∷◌, ◌++◌, Bool, true, false, not, ◌&&◌, length,
  get_or, take, drop, leb, ltb, ◌==◌, if◌then◌else◌, Option, none, some,
}
use rtdb_common.Types.{
  Err, k_ok, k_already_exists, k_not_found, k_out_of_memory, k_internal, Result, ok, err, ◌>>=◌,
}
use rtdb_common.Infra.BTree.Search.{lower_bound, strict_upper}

pub record Entry : Type 0 where
  pub key : ℕ
  pub value : ℕ

-- The name of a leaf, where the image has its offset, and `next_leaf` of its header; 0 is no leaf.
pub record Link : Type 0 where
  pub off : ℕ
  pub next_leaf : ℕ

-- A leaf with its link and its entries, or an inner node with its level, its first child, and its further children,
-- each behind the key that is the lower bound of the keys below it.
mutual
  pub data Node : Type 0 where
    leaf : Link → List Entry → Node
    inner : ℕ → Node → Children → Node

  pub data Children : Type 0 where
    nil : Children
    cons : ℕ → Node → Children → Children

-- `Slot` with the tree that hangs at it; `none` is the offset 0.
pub record Tree : Type 0 where
  pub root : Option Node
  pub count : ℕ

-- `kCapLeaf` and `kCapInt`, which depend on the lengths of the key and the payload.
pub record Capacity : Type 0 where
  pub leaf : ℕ
  pub inner : ℕ

abbrev pub no_entry : Entry
no_entry = record { key = 0; value = 0 }

abbrev pub keys : List Entry → List ℕ
keys [] = []
keys (e ∷ es) = e.key ∷ keys es

abbrev pub separators : Children → List ℕ
separators nil = []
separators (cons k c cs) = k ∷ separators cs

-- `Node(off)->count`
unfoldable pub count_of : Node → ℕ
count_of (leaf lk es) = length es
count_of (inner level c0 cs) = length (separators cs)

unfoldable pub cap_of : Capacity → Node → ℕ
cap_of cap (leaf lk es) = cap.leaf
cap_of cap (inner level c0 cs) = cap.inner

unfoldable pub level_of : Node → ℕ
level_of (leaf lk es) = 0
level_of (inner level c0 cs) = level

-- `ChildAt`
unfoldable pub child_at : Node → Children → ℕ → Node
child_at c0 cs zero = c0
child_at c0 nil (suc i) = c0
child_at c0 (cons k c cs) (suc i) = child_at c cs i

-- The inner node with another child in the place of one of its children.
unfoldable pub set_child : Node → Children → ℕ → Node → Node × Children
set_child c0 cs zero new = (new, cs)
set_child c0 nil (suc i) new = (c0, nil)
set_child c0 (cons k c cs) (suc i) new =
    let rest = set_child c cs i new in (c0, cons k rest.0 rest.1)

-- `ShiftEntriesRight` and `SetChildEntry`: a further child, behind a key, in a slot.
unfoldable pub insert_child : Children → ℕ → ℕ → Node → Children
insert_child cs zero sep right = cons sep right cs
insert_child nil (suc i) sep right = cons sep right nil
insert_child (cons k c cs) (suc i) sep right = cons k c (insert_child cs i sep right)

unfoldable pub take_children : ℕ → Children → Children
take_children zero cs = nil
take_children (suc i) nil = nil
take_children (suc i) (cons k c cs) = cons k c (take_children i cs)

unfoldable pub drop_children : ℕ → Children → Children
drop_children zero cs = cs
drop_children (suc i) nil = nil
drop_children (suc i) (cons k c cs) = drop_children i cs

-- `pos < n->count && KeyCmpAt(off, pos, key) == 0`
abbrev pub hit : List Entry → ℕ → ℕ → Bool
hit es pos key = ltb pos (length es) && (get_or es pos no_entry).key == key

-- The point query; `n` bounds the descent, which has no bound in the source.
pub data Found : Type 0 where
  found : ℕ → Found
  absent : Found
  too_deep : Found

unfoldable pub find_leaf : List Entry → ℕ → Found
find_leaf es key =
    let pos = lower_bound (keys es) key in
    if hit es pos key then found (get_or es pos no_entry).value else absent

unfoldable pub find_node : ℕ → Node → ℕ → Found
find_node zero node key = too_deep
find_node (suc n) (leaf lk es) key = find_leaf es key
find_node (suc n) (inner level c0 cs) key =
    find_node n (child_at c0 cs (strict_upper (separators cs) key)) key

unfoldable pub find : ℕ → Tree → ℕ → Found
find n t key = elim t.root [ none ↦ absent | some node ↦ find_node n node key ]

-- The two halves of a full child, with the key between them; `right` is the name of the new node.
unfoldable pub split_node : ℕ → Node → Node × ℕ × Node
split_node right (leaf lk es) =
    let half = length es / 2 in
    (
      leaf (record { off = lk.off; next_leaf = right }) (take half es),
      (get_or (drop half es) 0 no_entry).key,
      leaf (record { off = right; next_leaf = lk.next_leaf }) (drop half es),
    )
split_node right (inner level c0 cs) =
    let mid = length (separators cs) / 2 in
    (
      inner level c0 (take_children mid cs),
      get_or (separators cs) mid 0,
      inner level (child_at c0 cs (mid + 1)) (drop_children (mid + 1) cs),
    )

-- `SplitChild`, once a node has been allocated, with its name.
unfoldable pub split_child : ℕ → Node → Children → ℕ → Node × Children
split_child new c0 cs idx =
    let (left, sep, right) = split_node new (child_at c0 cs idx) in
    let shrunk = set_child c0 cs idx left in (shrunk.0, insert_child shrunk.1 idx sep right)
