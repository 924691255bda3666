-- ===== src/Storage/Catalog/Keys.antt =====
-- The keys of the two trees of src/storage/catalog.cpp: different names and different numbers have
-- different keys, below the limits of the trees.
use rtdb_common.Common.{
  ℕ, zero, suc, ◌+◌, ◌-◌, ◌*◌, ◌^◌, ◌≤◌, ◌<◌, ◌≡◌, refl, sym, ap, ◌∙◌, arith, [], ◌∷◌, ◌++◌, true,
  length, replicate, length-append, length-replicate, pos,
}
use rtdb_common.Types.{Bytes}
use rtdb_common.Infra.BTree.OrderedInt.{number, AllBytes, number_lt, number-encode, flipped-pos}
use rtdb_common.Storage.Catalog.{name_key, id_key, no_nul, is_valid_table_name}

-- Above the keys of 64 bytes.
abbrev pub name_limit : ℕ
name_limit = number 1 (replicate 64 0)

number_injective :
    (u v : ℕ) (xs ys : Bytes)
    → AllBytes xs
    → AllBytes ys
    → length xs ≡ length ys
    → number u xs ≡ number v ys
    → (u ≡ v) × (xs ≡ ys)
number_injective u v [] [] p q same e = (e, refl)
number_injective u v [] (y ∷ ys) p q same e = absurd (omega (arith, same))
number_injective u v (x ∷ xs) [] p q same e = absurd (omega (arith, same))
number_injective u v (x ∷ xs) (y ∷ ys) p q same e =
    let rest = number_injective (u * 256 + x) (v * 256 + y) xs ys p.1 q.1 (omega (arith, same)) e in
    let high : u ≡ v = omega (arith, rest.0, p.0, q.0) in
    let low : x ≡ y = omega (arith, rest.0, p.0, q.0) in (high, cc (low, rest.1))

abbrev pad : ℕ → Bytes → Bytes
pad k xs = xs ++ replicate (k - length xs) 0

length-pad : (k : ℕ) (xs : Bytes) → length xs ≤ k → length (pad k xs) ≡ k
length-pad k xs h = omega (
  arith,
  h,
  length-append xs (replicate (k - length xs) 0),
  length-replicate {A = ℕ} (k - length xs) 0,
)

pad_injective :
    (k : ℕ) (xs ys : Bytes)
    → length xs ≤ k
    → length ys ≤ k
    → no_nul xs ≡ true
    → no_nul ys ≡ true
    → pad k xs ≡ pad k ys
    → xs ≡ ys
unfolding no_nul
pad_injective k [] [] h l p q e = refl
pad_injective zero [] (y ∷ ys) h l p q e = absurd (omega (arith, l))
pad_injective zero (x ∷ xs) ys h l p q e = absurd (omega (arith, h))
pad_injective (suc k) [] (y ∷ ys) h l p q e =
    let whole : replicate (suc k) 0 ≡ pad (suc k) (y ∷ ys) =
      ap (λ n. replicate n 0) {x = suc k} {y = suc k - 0} (omega arith) ∙ e in
    let zero_first : 0 ≡ y = cc whole in absurd (ground (arith, zero_first, q))
pad_injective (suc k) (x ∷ xs) [] h l p q e =
    let whole : pad (suc k) (x ∷ xs) ≡ replicate (suc k) 0 =
      e ∙ ap (λ n. replicate n 0) {x = suc k - 0} {y = suc k} (omega arith) in
    let zero_first : x ≡ 0 = cc whole in absurd (ground (arith, zero_first, p))
pad_injective (suc k) (x ∷ xs) (y ∷ ys) h l p q e =
    let shorter : x ∷ pad k xs ≡ y ∷ pad k ys =
      ap (λ n. x ∷ (xs ++ replicate n 0)) {x = k - length xs} {y = suc k - suc (length xs)}
        (omega arith)
      ∙ (e
          ∙ ap (λ n. y ∷ (ys ++ replicate n 0)) {x = suc k - suc (length ys)} {y = k - length ys}
              (omega arith)) in
    let first : x ≡ y = cc shorter in
    let tails : pad k xs ≡ pad k ys = cc shorter in
    let rest =
      pad_injective k xs ys (omega (arith, h)) (omega (arith, l)) (ground (arith, p))
        (ground (arith, q)) tails in
    cc (first, rest)

AllBytes-pad : (n : ℕ) (xs : Bytes) → AllBytes xs → AllBytes (xs ++ replicate n 0)
AllBytes-pad zero [] p = tt
AllBytes-pad (suc n) [] p = (omega arith, AllBytes-pad n [] tt)
AllBytes-pad n (x ∷ xs) p = (p.0, AllBytes-pad n xs p.1)

-- What a valid name is: bytes, not too many, none of them zero.
pub valid_name :
    (name : Bytes) → is_valid_table_name name ≡ true → (length name ≤ 63) × (no_nul name ≡ true)
unfolding is_valid_table_name
valid_name name v = ground (arith, v)

pub name_key_lt :
    (name : Bytes) → is_valid_table_name name ≡ true → AllBytes name → name_key name < name_limit
unfolding name_key
name_key_lt name v p =
    let valid = valid_name name v in
    number_lt 0 1 (pad 64 name) (replicate 64 0) (AllBytes-pad (64 - length name) name p)
      (length-pad 64 name (omega (arith, valid.0)) ∙ sym (length-replicate {A = ℕ} 64 0))
      (omega arith)

pub name_key_injective :
    (name other : Bytes)
    → is_valid_table_name name ≡ true
    → is_valid_table_name other ≡ true
    → AllBytes name
    → AllBytes other
    → name_key name ≡ name_key other
    → name ≡ other
unfolding name_key
name_key_injective name other v w p q e =
    let valid = valid_name name v in
    let valid' = valid_name other w in
    pad_injective 64 name other (omega (arith, valid.0)) (omega (arith, valid'.0)) valid.1 valid'.1
      (number_injective 0 0 (pad 64 name) (pad 64 other) (AllBytes-pad (64 - length name) name p)
        (AllBytes-pad (64 - length other) other q)
        (length-pad 64 name (omega (arith, valid.0))
          ∙ sym (length-pad 64 other (omega (arith, valid'.0))))
        e).1

pub id_key-number : (id : ℕ) → id < 2 ^ 63 → id_key id ≡ id + 2 ^ 63
unfolding id_key
id_key-number id h = number-encode (pos id) ∙ flipped-pos id h
