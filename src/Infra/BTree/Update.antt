-- ===== src/Infra/BTree/Update.antt =====
-- The operations of src/infra/shared_btree.hpp that change the tree: `Insert`, `Remove`, `Reset` and
-- `Destroy`. `free` counts the nodes that the allocator still has, and names the one it gives out next.
use rtdb_common.Common.{
  ℕ, zero, suc, ◌+◌, ◌-◌, List, [], ◌∷◌, ◌++◌, Bool, not, take, drop, leb, ◌==◌, if◌then◌else◌,
  Option, none, some,
}
use rtdb_common.Types.{
  Err, k_ok, k_already_exists, k_not_found, k_out_of_memory, k_internal, k_read_only_handle, Result,
  ok, err,
}
use rtdb_common.Infra.BTree.Search.{lower_bound, strict_upper}
use rtdb_common.Infra.BTree.{
  Entry, Link, Node, leaf, inner, Children, nil, cons, Tree, Capacity, keys, separators, count_of,
  cap_of, level_of, child_at, set_child, split_child, hit,
}

unfoldable pub is_full : Capacity → Node → Bool
is_full cap node = leb (cap_of cap node) (count_of node)

-- What an operation leaves: its error code, the node, and the nodes that the allocator still has.
pub record Outcome : Type 0 where
  pub error : Err
  pub node : Node
  pub free : ℕ

unfoldable pub insert_leaf : Link → List Entry → ℕ → ℕ → ℕ → Outcome
insert_leaf lk es key value free =
    let pos = lower_bound (keys es) key in
    if hit es pos key
    then record { error = k_already_exists; node = leaf lk es; free = free }
    else record {
      error = k_ok;
      node = leaf lk (take pos es ++ (record { key = key; value = value } ∷ drop pos es));
      free = free;
    }

-- What the descent below one child leaves of its parent.
abbrev pub put_child : ℕ → Node × Children → ℕ → Outcome → Outcome
put_child level kids hop below =
    let kids' = set_child kids.0 kids.1 hop below.node in
    record { error = below.error; node = inner level kids'.0 kids'.1; free = below.free }

-- The loop of `Insert` from a node that is not full down; its guard allows 64 rounds.
unfoldable pub insert_node : ℕ → Capacity → ℕ → Node → ℕ → ℕ → Outcome
insert_node zero cap free node key value = record { error = k_internal; node = node; free = free }
insert_node (suc n) cap free (leaf lk es) key value = insert_leaf lk es key value free
insert_node (suc n) cap free (inner level c0 cs) key value =
    let hop = strict_upper (separators cs) key in
    let kids = split_child free c0 cs hop in
    let hop' = strict_upper (separators kids.1) key in
    let whole =
      put_child level (c0, cs) hop (insert_node n cap free (child_at c0 cs hop) key value) in
    let halved =
      put_child level kids hop'
        (insert_node n cap (free - 1) (child_at kids.0 kids.1 hop') key value) in
    if not (is_full cap (child_at c0 cs hop))
    then whole
    else if free == 0
    then record { error = k_out_of_memory; node = inner level c0 cs; free = free }
    else halved

-- `Insert` on the slot: an empty tree gets a leaf first, a full root a parent.
unfoldable pub insert_root : Capacity → ℕ → Node → ℕ → ℕ → Outcome
insert_root cap free root key value =
    if not (is_full cap root)
    then insert_node 64 cap free root key value
    else if free == 0
    then record { error = k_out_of_memory; node = root; free = free }
    else insert_node 64 cap (free - 1) (inner (level_of root + 1) root nil) key value

abbrev pub counted : Tree → Outcome → Err × Tree × ℕ
counted t out = (
  out.error,
  record { root = some out.node; count = elim out.error [ k_ok ↦ t.count + 1 | _ ↦ t.count ] },
  out.free,
)

unfoldable pub insert : Capacity → ℕ → Tree → ℕ → ℕ → Err × Tree × ℕ
insert cap free t key value = elim t.root [
  | some root ↦ counted t (insert_root cap free root key value)
  | none ↦
      if free == 0
      then (k_out_of_memory, t, free)
      else counted t
          (insert_root cap (free - 1) (leaf (record { off = free; next_leaf = 0 }) []) key value)
]

-- `Remove`, which takes an entry out of its leaf and leaves the nodes as they are.
unfoldable pub remove_leaf : Link → List Entry → ℕ → Result Node
remove_leaf lk es key =
    let pos = lower_bound (keys es) key in
    if hit es pos key then ok (leaf lk (take pos es ++ drop (pos + 1) es)) else err k_not_found

abbrev pub put_removed : ℕ → Node → Children → ℕ → Result Node → Result Node
put_removed level c0 cs hop (err e) = err e
put_removed level c0 cs hop (ok node) =
    let kids = set_child c0 cs hop node in ok (inner level kids.0 kids.1)

unfoldable pub remove_node : ℕ → Node → ℕ → Result Node
remove_node zero node key = err k_internal
remove_node (suc n) (leaf lk es) key = remove_leaf lk es key
remove_node (suc n) (inner level c0 cs) key =
    let hop = strict_upper (separators cs) key in
    put_removed level c0 cs hop (remove_node n (child_at c0 cs hop) key)

-- `Remove` on the slot.
abbrev pub uncounted : Tree → Result Node → Err × Tree
uncounted t (err e) = (e, t)
uncounted t (ok node) = (k_ok, record { root = some node; count = t.count - 1 })

unfoldable pub remove : ℕ → Tree → ℕ → Err × Tree
remove n t key = elim t.root [
  | none ↦ (k_not_found, t)
  | some node ↦ uncounted t (remove_node n node key)
]

unfoldable pub reset : Tree
reset = record { root = none; count = 0 }

-- The nodes that `FreeSubtree` gives back, no deeper than 64 levels below the root; `n` counts the
-- levels that are left.
unfoldable mutual
  pub free_subtree : ℕ → Node → ℕ
  free_subtree zero node = 0
  free_subtree (suc n) (leaf lk es) = 1
  free_subtree (suc n) (inner level c0 cs) = free_subtree n c0 + free_children n cs + 1

  pub free_children : ℕ → Children → ℕ
  free_children n nil = 0
  free_children n (cons k c cs) = free_subtree n c + free_children n cs

-- `Destroy`; a handle for reading has no allocator.
unfoldable pub destroy : Option ℕ → Tree → Err × Tree × Option ℕ
destroy none t = (k_read_only_handle, t, none)
destroy (some free) t =
    (k_ok, reset, some (free + elim t.root [ none ↦ 0 | some root ↦ free_subtree 65 root ]))
