-- ===== src/Infra/BTree/OrderedInt.antt =====
-- Integer keys of the tree: `EncodeOrderedInt64` and `DecodeOrderedInt64` of
-- src/infra/shared_btree.hpp, and the comparison of keys by their bytes.
use Prim.Native.Nat.{bit_xor}
use rtdb_common.Common.{
  ℕ, zero, suc, ◌+◌, ◌*◌, ◌/◌, ◌%◌, ◌^◌, ◌≤◌, ◌<◌, ◌≡◌, refl, sym, ap, ◌∙◌, arith, [], ◌∷◌, Bool,
  false, ltb, ◌==◌, if◌then◌else◌, Bool-cases, inl, inr, length, All, ℤ, pos, negsuc, ltz,
  to_unsigned, to_signed, InSigned, to_signed-to_unsigned_64, to_unsigned-lt_64,
}
use native.Mathlib.Nat.{pow-suc}
use rtdb_common.Types.{Bytes}
use rtdb_common.Infra.Bits.{bit_xor_top, bit_xor_twice, bit_xor-lt}

-- The loop of `EncodeOrderedInt64`, which writes from the last byte to the first.
unfoldable pub store_bytes : ℕ → ℕ → Bytes → Bytes
store_bytes zero u out = out
store_bytes (suc i) u out = store_bytes i (u / 2 ^ 8) (u % 256 ∷ out)

unfoldable pub encode_ordered_int64 : ℤ → Bytes
encode_ordered_int64 v = store_bytes 8 (bit_xor (to_unsigned (2 ^ 64) v) (2 ^ 63)) []

-- The loop of `DecodeOrderedInt64`: the shifted number and a byte have no bit in common.
unfoldable pub load_bytes : ℕ → Bytes → ℕ
load_bytes u [] = u
load_bytes u (b ∷ bs) = load_bytes (u * 2 ^ 8 % 2 ^ 64 + b) bs

unfoldable pub decode_ordered_int64 : Bytes → ℤ
decode_ordered_int64 bs = to_signed (2 ^ 63) (bit_xor (load_bytes 0 bs) (2 ^ 63))

-- `KeyCmp(a, b) < 0`, which is `memcmp` on keys of one length.
unfoldable pub key_lt : Bytes → Bytes → Bool
key_lt [] [] = false
key_lt [] (b ∷ ys) = false
key_lt (a ∷ xs) [] = false
key_lt (a ∷ xs) (b ∷ ys) = if a == b then key_lt xs ys else ltb a b

-- The number that bytes write behind the digits `u`, the first byte first.
abbrev pub number : ℕ → Bytes → ℕ
number u [] = u
number u (b ∷ ys) = number (u * 256 + b) ys

abbrev pub AllBytes : Bytes → Type 0
AllBytes ys = All (λ b. b < 256) ys

pub number_lt :
    (u v : ℕ) (xs ys : Bytes)
    → AllBytes xs
    → length xs ≡ length ys
    → u < v
    → number u xs < number v ys
number_lt u v [] [] ok same h = h
number_lt u v [] (b ∷ ys) ok same h = absurd (omega (arith, same))
number_lt u v (a ∷ xs) [] ok same h = absurd (omega (arith, same))
number_lt u v (a ∷ xs) (b ∷ ys) ok same h =
    number_lt (u * 256 + a) (v * 256 + b) xs ys ok.1 (omega (arith, same)) (omega (arith, ok.0, h))

-- Keys of one length are in the order of the numbers that they write.
pub key_lt-number :
    (u : ℕ) (xs ys : Bytes)
    → AllBytes xs
    → AllBytes ys
    → length xs ≡ length ys
    → key_lt xs ys ≡ ltb (number u xs) (number u ys)
unfolding key_lt
key_lt-number u [] [] p q same = ground arith
key_lt-number u [] (b ∷ ys) p q same = absurd (omega (arith, same))
key_lt-number u (a ∷ xs) [] p q same = absurd (omega (arith, same))
key_lt-number u (a ∷ xs) (b ∷ ys) p q same = elim (Bool-cases (a == b)) [
  | inl eq ↦
      let here : a ≡ b = ground (arith, eq) in
      rw eq (
        key_lt-number (u * 256 + a) xs ys p.1 q.1 (omega (arith, same))
        ∙ ap (λ w. ltb (number (u * 256 + a) xs) (number (u * 256 + w) ys)) here)
  | inr ne ↦ elim (Bool-cases (ltb a b)) [
    | inl less ↦
        let small =
          number_lt (u * 256 + a) (u * 256 + b) xs ys p.1 (omega (arith, same))
            (ground (arith, less)) in
        rw (ne, less) (ground (arith, small))
    | inr more ↦
        let large =
          number_lt (u * 256 + b) (u * 256 + a) ys xs q.1 (omega (arith, same))
            (ground (arith, more, ne)) in
        rw (ne, more) (ground (arith, large))
  ]
]

number-store_bytes :
    (n u : ℕ) (out : Bytes) → u < 256 ^ n → number 0 (store_bytes n u out) ≡ number u out
unfolding store_bytes
number-store_bytes zero u out h = ap (λ v. number v out) (omega (arith, h))
number-store_bytes (suc n) u out h =
    number-store_bytes n (u / 2 ^ 8) (u % 256 ∷ out) (omega (arith, h, pow-suc 256 n))
    ∙ ap (λ v. number v out) (omega arith)

AllBytes-store_bytes : (n u : ℕ) (out : Bytes) → AllBytes out → AllBytes (store_bytes n u out)
unfolding store_bytes
AllBytes-store_bytes zero u out h = h
AllBytes-store_bytes (suc n) u out h =
    AllBytes-store_bytes n (u / 2 ^ 8) (u % 256 ∷ out) (omega arith, h)

length-store_bytes : (n u : ℕ) (out : Bytes) → length (store_bytes n u out) ≡ n + length out
unfolding store_bytes
length-store_bytes zero u out = omega arith
length-store_bytes (suc n) u out = omega (arith, length-store_bytes n (u / 2 ^ 8) (u % 256 ∷ out))

number_le : (u : ℕ) (bs : Bytes) → u ≤ number u bs
number_le u [] = omega arith
number_le u (b ∷ bs) = omega (arith, number_le (u * 256 + b) bs)

load_bytes-number : (u : ℕ) (bs : Bytes) → number u bs < 2 ^ 64 → load_bytes u bs ≡ number u bs
unfolding load_bytes
load_bytes-number u [] h = refl
load_bytes-number u (b ∷ bs) h =
    let small : u * 2 ^ 8 % 2 ^ 64 + b ≡ u * 256 + b =
      omega (arith, h, number_le (u * 256 + b) bs) in
    rw small (load_bytes-number (u * 256 + b) bs h)

-- The number with the sign's bit turned over.
unfoldable pub flipped : ℤ → ℕ
flipped v = bit_xor (to_unsigned (2 ^ 64) v) (2 ^ 63)

unflipped : (v : ℤ) → bit_xor (flipped v) (2 ^ 63) ≡ to_unsigned (2 ^ 64) v
unfolding flipped
unflipped v = bit_xor_twice 64 (to_unsigned (2 ^ 64) v) (2 ^ 63) (to_unsigned-lt_64 v) (omega arith)

pub flipped-pos : (n : ℕ) → n < 2 ^ 63 → flipped (pos n) ≡ n + 2 ^ 63
unfolding flipped
flipped-pos n h =
    let same : n % 2 ^ 64 ≡ n = omega (arith, h) in
    rw same ((bit_xor_top 63 n (omega (arith, h))).0 h)

flipped-negsuc : (n : ℕ) → n < 2 ^ 63 → flipped (negsuc n) + n + 1 ≡ 2 ^ 63
unfolding flipped
flipped-negsuc n h =
    let u = to_unsigned (2 ^ 64) (negsuc n) in
    let high : u + n + 1 ≡ 2 ^ 64 = omega (arith, h) in
    let top = (bit_xor_top 63 u (omega (arith, high))).1 (omega (arith, high, h)) in
    omega (arith, high, top)

ltb-flipped :
    (v w : ℤ) → InSigned (2 ^ 63) v → InSigned (2 ^ 63) w → ltb (flipped v) (flipped w) ≡ ltz v w
ltb-flipped (pos m) (pos n) p q = ground (arith, flipped-pos m p, flipped-pos n q)
ltb-flipped (pos m) (negsuc n) p q = ground (arith, flipped-pos m p, flipped-negsuc n q)
ltb-flipped (negsuc m) (pos n) p q = ground (arith, flipped-negsuc m p, flipped-pos n q)
ltb-flipped (negsuc m) (negsuc n) p q = ground (arith, flipped-negsuc m p, flipped-negsuc n q)

flipped-lt : (v : ℤ) → flipped v < 2 ^ 64
unfolding flipped
flipped-lt v = bit_xor-lt 64 (to_unsigned (2 ^ 64) v) (2 ^ 63) (to_unsigned-lt_64 v) (omega arith)

pub number-encode : (v : ℤ) → number 0 (encode_ordered_int64 v) ≡ flipped v
unfolding encode_ordered_int64 flipped
number-encode v = number-store_bytes 8 (flipped v) [] (flipped-lt v)

decode-encode_ordered :
    (v : ℤ) → InSigned (2 ^ 63) v → decode_ordered_int64 (encode_ordered_int64 v) ≡ v
unfolding decode_ordered_int64
decode-encode_ordered v h =
    let bound : number 0 (encode_ordered_int64 v) < 2 ^ 64 =
      omega (arith, number-encode v, flipped-lt v) in
    let loaded : load_bytes 0 (encode_ordered_int64 v) ≡ flipped v =
      load_bytes-number 0 (encode_ordered_int64 v) bound ∙ number-encode v in
    rw (loaded, unflipped v) (to_signed-to_unsigned_64 v h)

AllBytes-encode : (v : ℤ) → AllBytes (encode_ordered_int64 v)
unfolding encode_ordered_int64
AllBytes-encode v = AllBytes-store_bytes 8 _ [] tt

length-encode : (v : ℤ) → length (encode_ordered_int64 v) ≡ 8
unfolding encode_ordered_int64
length-encode v = length-store_bytes 8 _ []

key_lt-encode :
    (v w : ℤ)
    → InSigned (2 ^ 63) v
    → InSigned (2 ^ 63) w
    → key_lt (encode_ordered_int64 v) (encode_ordered_int64 w) ≡ ltz v w
key_lt-encode v w p q =
    key_lt-number 0 (encode_ordered_int64 v) (encode_ordered_int64 w) (AllBytes-encode v)
      (AllBytes-encode w) (length-encode v ∙ sym (length-encode w))
    ∙ rw (number-encode v, number-encode w) (ltb-flipped v w p q)

-- An integer of 64 bits is decoded from its key, and the keys of two such integers are in the order of
-- the integers.
pub ordered_int64_keys :
    (v w : ℤ)
    → InSigned (2 ^ 63) v
    → InSigned (2 ^ 63) w
    → (decode_ordered_int64 (encode_ordered_int64 v) ≡ v)
      × (key_lt (encode_ordered_int64 v) (encode_ordered_int64 w) ≡ ltz v w)
ordered_int64_keys v w p q = (decode-encode_ordered v p, key_lt-encode v w p q)
