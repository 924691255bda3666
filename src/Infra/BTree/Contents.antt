-- ===== src/Infra/BTree/Contents.antt =====
-- Sorted lists of entries: what the tree of src/infra/shared_btree.hpp holds, seen from outside.
use rtdb_common.Common.{
  ℕ, zero, suc, ◌+◌, ◌-◌, ◌≤◌, ◌<◌, ◌≡◌, refl, ap, ◌∙◌, arith, List, [], ◌∷◌, ◌++◌, length, take,
  drop, get_or, All, ltb, ◌==◌, if◌then◌else◌, Bool-cases, inl, inr, Option, none, some,
}
use rtdb_common.Infra.BTree.{Entry, no_entry}

-- The value under a key, an entry put in its place, a key taken out.
abbrev pub lookup : List Entry → ℕ → Option ℕ
lookup [] key = none
lookup (e ∷ es) key = if e.key == key then some e.value else lookup es key

abbrev pub put_sorted : Entry → List Entry → List Entry
put_sorted new [] = new ∷ []
put_sorted new (e ∷ es) = if ltb e.key new.key then e ∷ put_sorted new es else new ∷ e ∷ es

abbrev pub without : List Entry → ℕ → List Entry
without [] key = []
without (e ∷ es) key = if e.key == key then es else e ∷ without es key

-- Keys that increase from `lo` on and stay below `hi`.
abbrev pub Sorted : ℕ → ℕ → List Entry → Type 0
Sorted lo hi [] = lo ≤ hi
Sorted lo hi (e ∷ es) = (lo ≤ e.key) × Sorted (suc e.key) hi es

abbrev pub Below : ℕ → List Entry → Type 0
Below key es = All (λ e. e.key < key) es

abbrev pub Above : ℕ → List Entry → Type 0
Above key es = All (λ e. key < e.key) es

pub Below-append :
    (key : ℕ) (xs ys : List Entry) → Below key xs → Below key ys → Below key (xs ++ ys)
Below-append key [] ys a b = b
Below-append key (x ∷ xs) ys a b = (a.0, Below-append key xs ys a.1 b)

module _ (key : ℕ) where
  pub lookup-Above : (es : List Entry) → Above key es → lookup es key ≡ none
  lookup-Above [] a = refl
  lookup-Above (e ∷ es) a = ground (arith, a.0, lookup-Above es a.1)

  pub lookup_behind : (pre es : List Entry) → Below key pre → lookup (pre ++ es) key ≡ lookup es key
  lookup_behind [] es b = refl
  lookup_behind (e ∷ pre) es b = ground (arith, b.0, lookup_behind pre es b.1)

  pub lookup_before :
      (es post : List Entry) → Above key post → lookup (es ++ post) key ≡ lookup es key
  lookup_before [] post a = lookup-Above post a
  lookup_before (e ∷ es) post a = ground (arith, lookup_before es post a)

  pub without_behind :
      (pre es : List Entry) → Below key pre → without (pre ++ es) key ≡ pre ++ without es key
  without_behind [] es b = refl
  without_behind (e ∷ pre) es b = ground (arith, b.0, without_behind pre es b.1)

  without-Above : (es : List Entry) → Above key es → without es key ≡ es
  without-Above [] a = refl
  without-Above (e ∷ es) a = ground (arith, a.0, without-Above es a.1)

  pub without_before :
      (es post : List Entry) → Above key post → without (es ++ post) key ≡ without es key ++ post
  without_before [] post a = without-Above post a
  without_before (e ∷ es) post a = ground (arith, without_before es post a)

module _ (new : Entry) where
  pub put_behind :
      (pre es : List Entry)
      → Below new.key pre
      → put_sorted new (pre ++ es) ≡ pre ++ put_sorted new es
  put_behind [] es b = refl
  put_behind (e ∷ pre) es b = ground (arith, b.0, put_behind pre es b.1)

  pub put-Above : (es : List Entry) → Above new.key es → put_sorted new es ≡ new ∷ es
  put-Above [] a = refl
  put-Above (e ∷ es) a = ground (arith, a.0)

  pub put_before :
      (es post : List Entry)
      → Above new.key post
      → put_sorted new (es ++ post) ≡ put_sorted new es ++ post
  put_before [] post a = put-Above post a
  put_before (e ∷ es) post a = ground (arith, put_before es post a)

-- Between other entries, only the middle matters.
pub lookup_between :
    (key : ℕ) (pre es post : List Entry)
    → Below key pre
    → Above key post
    → lookup (pre ++ (es ++ post)) key ≡ lookup es key
lookup_between key pre es post b a =
    lookup_behind key pre (es ++ post) b ∙ lookup_before key es post a

pub without_between :
    (key : ℕ) (pre es post : List Entry)
    → Below key pre
    → Above key post
    → without (pre ++ (es ++ post)) key ≡ pre ++ (without es key ++ post)
without_between key pre es post b a =
    without_behind key pre (es ++ post) b ∙ ap (λ l. pre ++ l) (without_before key es post a)

pub put_between :
    (new : Entry) (pre es post : List Entry)
    → Below new.key pre
    → Above new.key post
    → put_sorted new (pre ++ (es ++ post)) ≡ pre ++ (put_sorted new es ++ post)
put_between new pre es post b a =
    put_behind new pre (es ++ post) b ∙ ap (λ l. pre ++ l) (put_before new es post a)

-- Lists of entries with the keys in a range.
pub Sorted-Above : (lo hi key : ℕ) (es : List Entry) → Sorted lo hi es → key < lo → Above key es
Sorted-Above lo hi key [] s h = tt
Sorted-Above lo hi key (e ∷ es) s h =
    (omega (arith, s.0, h), Sorted-Above (suc e.key) hi key es s.1 (omega (arith, s.0, h)))

pub Sorted-bounds : (lo hi : ℕ) (es : List Entry) → Sorted lo hi es → lo ≤ hi
Sorted-bounds lo hi [] s = s
Sorted-bounds lo hi (e ∷ es) s = omega (arith, s.0, Sorted-bounds (suc e.key) hi es s.1)

Sorted-from : (lo mid hi : ℕ) (es : List Entry) → lo ≤ mid → Sorted mid hi es → Sorted lo hi es
Sorted-from lo mid hi [] h s = omega (arith, h, s)
Sorted-from lo mid hi (e ∷ es) h s = (omega (arith, h, s.0), s.1)

pub Sorted-Below : (lo hi key : ℕ) (es : List Entry) → Sorted lo hi es → hi ≤ key → Below key es
Sorted-Below lo hi key [] s h = tt
Sorted-Below lo hi key (e ∷ es) s h = (
  omega (arith, h, Sorted-bounds (suc e.key) hi es s.1),
  Sorted-Below (suc e.key) hi key es s.1 h,
)

pub Sorted-append :
    (lo mid hi : ℕ) (xs ys : List Entry)
    → Sorted lo mid xs
    → Sorted mid hi ys
    → Sorted lo hi (xs ++ ys)
Sorted-append lo mid hi [] ys s t = Sorted-from lo mid hi ys s t
Sorted-append lo mid hi (e ∷ xs) ys s t = (s.0, Sorted-append (suc e.key) mid hi xs ys s.1 t)

pub Sorted-put :
    (lo hi : ℕ) (new : Entry) (es : List Entry)
    → Sorted lo hi es
    → lo ≤ new.key
    → new.key < hi
    → lookup es new.key ≡ none
    → Sorted lo hi (put_sorted new es)
Sorted-put lo hi new [] s a b n = (a, omega (arith, b))
Sorted-put lo hi new (e ∷ es) s a b n = elim (Bool-cases (ltb e.key new.key)) [
  | inl lt ↦
      let small : e.key < new.key = ground (arith, lt) in
      let rest : lookup es new.key ≡ none = ground (arith, small, n) in
      rw lt (s.0, Sorted-put (suc e.key) hi new es s.1 (omega (arith, small)) b rest)
  | inr ge ↦ elim (Bool-cases (e.key == new.key)) [
    | inl eq ↦ absurd (ground (arith, eq, n))
    | inr ne ↦ rw ge (a, (ground (arith, ge, ne), s.1))
  ]
]

pub Sorted-without :
    (lo hi key : ℕ) (es : List Entry) → Sorted lo hi es → Sorted lo hi (without es key)
Sorted-without lo hi key [] s = s
Sorted-without lo hi key (e ∷ es) s = elim (Bool-cases (e.key == key)) [
  | inl eq ↦ rw eq (Sorted-from lo (suc e.key) hi es (omega (arith, s.0)) s.1)
  | inr ne ↦ rw ne (s.0, Sorted-without (suc e.key) hi key es s.1)
]

pub length-put_sorted :
    (new : Entry) (es : List Entry) → length (put_sorted new es) ≡ suc (length es)
length-put_sorted new [] = refl
length-put_sorted new (e ∷ es) = elim (Bool-cases (ltb e.key new.key)) [
  | inl lt ↦ rw lt (ap suc (length-put_sorted new es))
  | inr ge ↦ rw ge refl
]

pub length-without_le : (key : ℕ) (es : List Entry) → length (without es key) ≤ length es
length-without_le key [] = omega arith
length-without_le key (e ∷ es) = elim (Bool-cases (e.key == key)) [
  | inl eq ↦ rw eq (omega arith)
  | inr ne ↦ rw ne (omega (arith, length-without_le key es))
]

pub length-without :
    (key value : ℕ) (es : List Entry)
    → lookup es key ≡ some value
    → length (without es key) ≡ length es - 1
length-without key value [] h = cc
length-without key value (e ∷ es) h = elim (Bool-cases (e.key == key)) [
  | inl eq ↦ rw eq (omega arith)
  | inr ne ↦
      let rest : lookup es key ≡ some value = ground (arith, ne, h) in
      rw ne (omega (arith, length-without key value es rest, lookup-length es rest))
]
  where
    lookup-length : (es : List Entry) → lookup es key ≡ some value → 1 ≤ length es
    lookup-length [] h = cc
    lookup-length (e ∷ es) h = omega arith

-- Entries in order are cut in order: in front of an entry's key, and from it on.
pub Sorted-cut :
    (i lo hi : ℕ) (es : List Entry)
    → i < length es
    → Sorted lo hi es
    → Sorted lo (get_or (drop i es) 0 no_entry).key (take i es)
      × Sorted (get_or (drop i es) 0 no_entry).key hi (drop i es)
      × (lo + i ≤ (get_or (drop i es) 0 no_entry).key)
      × ((get_or (drop i es) 0 no_entry).key < hi)
Sorted-cut i lo hi [] h s = absurd (omega (arith, h))
Sorted-cut zero lo hi (e ∷ es) h s = (
  s.0,
  (omega arith, s.1),
  omega (arith, s.0),
  omega (arith, Sorted-bounds (suc e.key) hi es s.1),
)
Sorted-cut (suc i) lo hi (e ∷ es) h s =
    let rest = Sorted-cut i (suc e.key) hi es (omega (arith, h)) s.1 in
    ((s.0, rest.0), rest.1, omega (arith, s.0, rest.2), rest.3)

-- What a lookup finds after the changes.
pub lookup-put_sorted :
    (new : Entry) (es : List Entry) (k : ℕ)
    → lookup es new.key ≡ none
    → lookup (put_sorted new es) k ≡ (if new.key == k then some new.value else lookup es k)
lookup-put_sorted new [] k gone = refl
lookup-put_sorted new (e ∷ es) k gone = elim (Bool-cases (ltb e.key new.key)) [
  | inl lt ↦
      let small : e.key < new.key = ground (arith, lt) in
      let rest = lookup-put_sorted new es k (ground (arith, small, gone)) in
      rw lt (rw rest (skip e.value small))
  | inr ge ↦ rw ge refl
]
  where
    skip :
        (v : ℕ)
        → e.key < new.key
        → (if e.key == k then some v else if new.key == k then some new.value else lookup es k)
          ≡ (if new.key == k then some new.value else if e.key == k then some v else lookup es k)
    skip v small = ground (arith, small)

pub lookup-without :
    (lo hi key : ℕ) (es : List Entry) (k : ℕ)
    → Sorted lo hi es
    → lookup (without es key) k ≡ (if key == k then none else lookup es k)
lookup-without lo hi key [] k s = ground arith
lookup-without lo hi key (e ∷ es) k s = elim (Bool-cases (e.key == key)) [
  | inl eq ↦
      let above = lookup-Above e.key es (Sorted-Above (suc e.key) hi e.key es s.1 (omega arith)) in
      rw eq (ground (arith, eq, above))
  | inr ne ↦
      let rest = lookup-without (suc e.key) hi key es k s.1 in rw ne (rw rest (ground (arith, ne)))
]
