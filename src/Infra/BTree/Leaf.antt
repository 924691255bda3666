-- ===== src/Infra/BTree/Leaf.antt =====
-- The operations of src/infra/shared_btree.hpp on one leaf, whose entries are in order.
use rtdb_common.Common.{
  ℕ, zero, suc, ◌+◌, ◌≤◌, ◌<◌, ◌≡◌, refl, sym, ap, ◌∙◌, arith, List, [], ◌∷◌, ◌++◌, true, false,
  length, get_or, take, drop, ltb, ◌==◌, Bool-cases, inl, inr, ◌⊎◌, Option, none, some,
}
use mathlib.Core.Path.{subst}
use rtdb_common.Infra.BTree.Search.{rank, Parts, Fails, lower_bound, lower_bound-rank}
use rtdb_common.Infra.BTree.{
  Entry, Link, Found, Capacity, no_entry, keys, hit, found, absent, find_leaf,
}
use rtdb_common.Infra.BTree.Update.{insert_leaf, remove_leaf}
use rtdb_common.Infra.BTree.Contents.{
  lookup, put_sorted, without, Sorted, Below, Above, Sorted-Above, lookup_behind, lookup-Above,
  put_behind, put-Above, without_behind, Sorted-put, Sorted-without, length-put_sorted,
  length-without_le,
}
use rtdb_common.Infra.BTree.Invariant.{contents, inserted, present, Leaves, Shrinks}

-- The leaf has the key, in this slot.
record Held (key : ℕ) (es : List Entry) (pos : ℕ) : Type 0 where
  entry : Entry
  back : List Entry
  hits : hit es pos key ≡ true
  entry_is : get_or es pos no_entry ≡ entry
  same : entry.key ≡ key
  parts : es ≡ take pos es ++ (entry ∷ back)
  back_is : drop (suc pos) es ≡ back
  below : Below key (take pos es)
  above : Above key back

-- The leaf does not have it, and this is its slot.
record Free (key : ℕ) (es : List Entry) (pos : ℕ) : Type 0 where
  misses : hit es pos key ≡ false
  parts : es ≡ take pos es ++ drop pos es
  below : Below key (take pos es)
  above : Above key (drop pos es)

locate :
    (lo hi key : ℕ) (es : List Entry)
    → Sorted lo hi es
    → Held key es (rank (λ k. ltb k key) (keys es)) ⊎ Free key es (rank (λ k. ltb k key) (keys es))
locate lo hi key [] s = inr (record { misses = refl; parts = refl; below = tt; above = tt })
locate lo hi key (e ∷ es) s = elim (Bool-cases (ltb e.key key)) [
  | inl lt ↦
      let small : e.key < key = ground (arith, lt) in
      elim (locate (suc e.key) hi key es s.1) [
        | inl held ↦ rw lt (
            inl (record {
              entry = held.entry;
              back = held.back;
              hits = ground (arith, held.hits);
              entry_is = held.entry_is;
              same = held.same;
              parts = ap (λ l. e ∷ l) held.parts;
              back_is = held.back_is;
              below = (small, held.below);
              above = held.above;
            }))
        | inr free ↦ rw lt (
            inr (record {
              misses = ground (arith, free.misses);
              parts = ap (λ l. e ∷ l) free.parts;
              below = (small, free.below);
              above = free.above;
            }))
      ]
  | inr ge ↦ elim (Bool-cases (e.key == key)) [
    | inl eq ↦ rw ge (
        inl (record {
          entry = e;
          back = es;
          hits = ground (arith, eq);
          entry_is = refl;
          same = ground (arith, eq);
          parts = refl;
          back_is = refl;
          below = tt;
          above = Sorted-Above (suc e.key) hi key es s.1 (ground (arith, eq));
        }))
    | inr ne ↦ rw ge (
        inr (record {
          misses = ground (arith, ne);
          parts = refl;
          below = tt;
          above = Sorted-Above e.key hi key (e ∷ es) (omega arith, s.1) (ground (arith, ge, ne));
        }))
  ]
]

keys-length : (es : List Entry) → length (keys es) ≡ length es
keys-length [] = refl
keys-length (e ∷ es) = ap suc (keys-length es)

Sorted-Fails :
    (lo hi key : ℕ) (es : List Entry)
    → Sorted lo hi es
    → key ≤ lo
    → Fails (λ k. ltb k key) (keys es)
Sorted-Fails lo hi key [] s h i l = absurd (omega (arith, l))
Sorted-Fails lo hi key (e ∷ es) s h zero l = ground (arith, s.0, h)
Sorted-Fails lo hi key (e ∷ es) s h (suc i) l =
    Sorted-Fails (suc e.key) hi key es s.1 (omega (arith, s.0, h)) i (omega (arith, l))

pub Sorted-Parts :
    (lo hi key : ℕ) (es : List Entry) → Sorted lo hi es → Parts (λ k. ltb k key) (keys es)
Sorted-Parts lo hi key [] s = tt
Sorted-Parts lo hi key (e ∷ es) s = (
  λ ge. Sorted-Fails (suc e.key) hi key es s.1 (ground (arith, ge)),
  Sorted-Parts (suc e.key) hi key es s.1,
)

-- The binary search of a leaf ends at the key's slot.
slot_of :
    (lo hi key : ℕ) (es : List Entry)
    → Sorted lo hi es
    → Held key es (lower_bound (keys es) key) ⊎ Free key es (lower_bound (keys es) key)
slot_of lo hi key es s =
    rw (lower_bound-rank (keys es) key (Sorted-Parts lo hi key es s)) (locate lo hi key es s)

module _ (key : ℕ) (es : List Entry) (pos : ℕ) where
  Held-lookup : (h : Held key es pos) → lookup es key ≡ some h.entry.value
  Held-lookup h =
      ap (λ l. lookup l key) h.parts
      ∙ (lookup_behind key (take pos es) (h.entry ∷ h.back) h.below ∙ here)
    where
      here : lookup (h.entry ∷ h.back) key ≡ some h.entry.value
      here = ground (arith, h.same)

  Held-without : (h : Held key es pos) → without es key ≡ take pos es ++ drop (pos + 1) es
  Held-without h =
      ap (λ l. without l key) h.parts
      ∙ (without_behind key (take pos es) (h.entry ∷ h.back) h.below ∙ here)
    where
      next : drop (pos + 1) es ≡ h.back
      next = ap (λ i. drop i es) {y = suc pos} (omega arith) ∙ h.back_is

      here : take pos es ++ without (h.entry ∷ h.back) key ≡ take pos es ++ drop (pos + 1) es
      here = ap (λ l. take pos es ++ l) (ground (arith, h.same) ∙ sym next)

  Free-lookup : Free key es pos → lookup es key ≡ none
  Free-lookup f =
      ap (λ l. lookup l key) f.parts
      ∙ (lookup_behind key (take pos es) (drop pos es) f.below
          ∙ lookup-Above key (drop pos es) f.above)

  Free-put :
      (value : ℕ)
      → Free key es pos
      → put_sorted (record { key = key; value = value }) es
        ≡ take pos es ++ (record { key = key; value = value } ∷ drop pos es)
  Free-put value f =
      ap (λ l. put_sorted new l) f.parts
      ∙ (put_behind new (take pos es) (drop pos es) f.below
          ∙ ap (λ l. take pos es ++ l) (put-Above new (drop pos es) f.above))
    where
      new : Entry
      new = record { key = key; value = value }

-- What a point query says of an entry's value.
abbrev pub seen : Option ℕ → Found
seen none = absent
seen (some value) = found value

module _ (lo hi key : ℕ) (es : List Entry) (s : Sorted lo hi es) where
  pub find_leaf-lookup : find_leaf es key ≡ seen (lookup es key)
  unfolding find_leaf
  find_leaf-lookup = elim (slot_of lo hi key es s) [
    | inl held ↦
        rw (held.hits, Held-lookup key es (lower_bound (keys es) key) held)
          (ap (λ e. found e.value) held.entry_is)
    | inr free ↦ rw (free.misses, Free-lookup key es (lower_bound (keys es) key) free) refl
  ]

  pub insert_leaf-Leaves :
      (lk : Link) (cap : Capacity) (value free : ℕ)
      → lo ≤ key
      → key < hi
      → length es < cap.leaf
      → Leaves cap 0 lo hi key value es (insert_leaf lk es key value free)
  unfolding insert_leaf contents
  insert_leaf-Leaves lk cap value free from to small = elim (slot_of lo hi key es s) [
    | inl held ↦ rw held.hits (
      (s, omega (arith, small)),
      present held.entry.value refl (Held-lookup key es pos held) refl,
    )
    | inr free ↦
        let gone : lookup es key ≡ none = Free-lookup key es pos free in
        let put : put_sorted new es ≡ take pos es ++ (new ∷ drop pos es) =
          Free-put key es pos value free in
        let valid : Sorted lo hi (take pos es ++ (new ∷ drop pos es)) =
          subst (λ l. Sorted lo hi l) put (Sorted-put lo hi new es s from to gone) in
        let fits : length (take pos es ++ (new ∷ drop pos es)) ≤ cap.leaf =
          omega (arith, small, length-put_sorted new es, ap length put) in
        rw free.misses ((valid, fits), inserted refl gone (sym put))
  ]
    where
      pos : ℕ
      pos = lower_bound (keys es) key

      new : Entry
      new = record { key = key; value = value }

  pub remove_leaf-Shrinks :
      (lk : Link) (cap : Capacity)
      → length es ≤ cap.leaf
      → Shrinks cap 0 lo hi key es (remove_leaf lk es key)
  unfolding remove_leaf contents
  remove_leaf-Shrinks lk cap fits = elim (slot_of lo hi key es s) [
    | inl held ↦
        let cut : without es key ≡ take pos es ++ drop (pos + 1) es =
          Held-without key es pos held in
        let valid : Sorted lo hi (take pos es ++ drop (pos + 1) es) =
          subst (λ l. Sorted lo hi l) cut (Sorted-without lo hi key es s) in
        let small : length (take pos es ++ drop (pos + 1) es) ≤ cap.leaf =
          omega (arith, fits, length-without_le key es, ap length cut) in
        rw held.hits ((valid, small), ((held.entry.value, Held-lookup key es pos held), sym cut))
    | inr free ↦ rw free.misses (refl, Free-lookup key es pos free)
  ]
    where
      pos : ℕ
      pos = lower_bound (keys es) key
