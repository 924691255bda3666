-- ===== src/Infra/BTree/ListedLaws.antt =====
-- A range read over the list of the leaves sees the entries of the range, in order.
use rtdb_common.Common.{
  ℕ, zero, suc, ◌≤◌, ◌<◌, ◌≡◌, refl, sym, ap, ◌∙◌, arith, [], ◌++◌, append-nil, append_assoc, Bool,
  not, ◌&&◌, ◌||◌, length, drop, ltb, ◌==◌, Bool-cases, inl, inr, none, some, Option,
}
use rtdb_common.Infra.BTree.{
  Node, leaf, inner, Tree, Capacity, keys, separators, child_at, drop_children,
}
use rtdb_common.Infra.BTree.Search.{strict_upper}
use rtdb_common.Infra.BTree.Contents.{Sorted}
use rtdb_common.Infra.BTree.Invariant.{contents, Valid}
use rtdb_common.Infra.BTree.Laws.{Valid-Sorted, Valid-Place}
use rtdb_common.Infra.BTree.Listed.{
  leaves_behind, ended_list, load_list, seek_list, range_list, read_list,
}
use rtdb_common.Infra.BTree.Refinement.{entries, tree, Stands}
use rtdb_common.Infra.BTree.Ends.{
  from, early, first_slot, in_range, drop-first_slot, until-from, in_range-empty, length-from,
  from-append, from-between,
}
use rtdb_common.Infra.BTree.Scan.{
  flat, flat-append, flat-leaves_children, until, load_list-Loaded, read_list-until,
}

-- Where the descent for the lower end arrives.
seek_list-from :
    (cap : Capacity) (lo : ℕ) (incl : Bool) (h n l u : ℕ) (node : Node)
    → Valid cap h l u node
    → h < n
    → l ≤ lo
    → lo < u
    → let at = seek_list n node lo in
      ((l' : ℕ) × (u' : ℕ) × Sorted l' u' at.0)
      × (from (early lo incl) at.0 ++ flat at.1 ≡ from (early lo incl) (contents node))
unfolding seek_list contents
seek_list-from cap lo incl h zero l u node v deep a b = absurd (omega (arith, deep))
seek_list-from cap lo incl zero (suc n) l u (leaf lk es) v deep a b =
    ((l, u, v.0), append-nil (from (early lo incl) es))
seek_list-from cap lo incl zero (suc n) l u (inner level c0 cs) v deep a b = absurd v
seek_list-from cap lo incl (suc h) (suc n) l u (leaf lk es) v deep a b = absurd v
seek_list-from cap lo incl (suc h) (suc n) l u (inner level c0 cs) v deep a b =
    let hop = strict_upper (separators cs) lo in
    let p = Valid-Place cap lo h l u c0 cs v.2 a b in
    let child = child_at c0 cs hop in
    let below =
      seek_list-from cap lo incl h n p.from p.to child p.inside (omega (arith, deep)) p.from_le
        p.to_gt in
    let behind = leaves_behind (drop_children hop cs) in
    let at = seek_list n child lo in
    (
      below.0,
      ap (λ l. from (early lo incl) at.0 ++ l) (flat-append at.1 behind)
          ∙ (sym (append_assoc (from (early lo incl) at.0) (flat at.1) (flat behind))
              ∙ (ap (λ l. l ++ flat behind) below.1
                  ∙ (ap (λ l. from (early lo incl) (contents child) ++ l)
                        (flat-leaves_children (drop_children hop cs) ∙ sym p.post_is)
                      ∙ (sym (from-between lo incl (contents child) p.post p.above)
                          ∙ (sym (from-append lo incl p.pre (contents child ++ p.post) p.below)
                              ∙ ap (from (early lo incl)) (sym p.whole)))))),
    )

module _ (cap : Capacity) (limit lo : ℕ) (lo_incl : Bool) (hi : ℕ) (hi_incl : Bool) where
  nothing_read : (m : ℕ) → read_list m (ended_list [] 0 hi hi_incl) ≡ []
  nothing_read m =
      read_list-until hi hi_incl m [] (ended_list [] 0 hi hi_incl) (inl (refl, refl)) (omega arith)

  read_root :
      (h n m count : ℕ) (root : Option Node)
      → Stands cap limit h (tree root count)
      → h < n
      → lo < limit
      → length (entries (tree root count)) ≤ m
      → read_list m (range_list n (tree root count) lo lo_incl hi hi_incl)
        ≡ in_range lo lo_incl hi hi_incl (entries (tree root count))
  unfolding range_list
  read_root h n m count none s deep small enough = nothing_read m
  read_root h n m count (some root) s deep small enough =
      let at = seek_list n root lo in
      let sought = seek_list-from cap lo lo_incl h n 0 limit root s.1 deep (omega arith) small in
      let idx = first_slot (keys at.0) lo lo_incl in
      let front : drop idx at.0 ++ flat at.1 ≡ from (early lo lo_incl) (contents root) =
        ap (λ l. l ++ flat at.1) (drop-first_slot lo_incl lo sought.0.0 sought.0.1 at.0 sought.0.2)
        ∙ sought.1 in
      let short : length (drop idx at.0 ++ flat at.1) ≤ m =
        omega (arith, enough, ap length front, length-from (early lo lo_incl) (contents root)) in
      elim (Bool-cases (ltb hi lo || ((lo == hi) && not (lo_incl && hi_incl)))) [
        | inl empty ↦
            rw empty
              (nothing_read m ∙ sym (in_range-empty lo lo_incl hi hi_incl (contents root) empty))
        | inr range ↦ rw range (
            read_list-until hi hi_incl m (drop idx at.0 ++ flat at.1)
              (load_list at.1 at.0 idx hi hi_incl) (load_list-Loaded hi hi_incl at.1 at.0 idx) short
            ∙ (ap (until hi hi_incl) front
                ∙ until-from lo lo_incl hi hi_incl 0 limit (contents root)
                    (Valid-Sorted cap h 0 limit root s.1)))
      ]

  -- On a tree of fewer levels than the bound of its descent, a reader who takes as many entries as the
  -- tree has sees the entries of the range, in order and none twice, with the ends open or closed as
  -- asked, where the lower end is below the limit of the keys.
  pub list_read :
      (h n m : ℕ) (t : Tree)
      → Stands cap limit h t
      → h < n
      → lo < limit
      → length (entries t) ≤ m
      → read_list m (range_list n t lo lo_incl hi hi_incl)
        ≡ in_range lo lo_incl hi hi_incl (entries t)
  list_read h n m t s deep small enough = read_root h n m t.count t.root s deep small enough
