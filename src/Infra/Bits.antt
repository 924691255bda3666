-- ===== src/Infra/Bits.antt =====
-- Laws of the bit operations at variables, for numbers of at most `k` binary digits.
use Prim.Native.Nat.{
  ℕ, zero, suc, ◌+◌, ◌*◌, ◌/◌, ◌%◌, ◌^◌, ◌≤◌, ◌<◌, min, differ, digits, bitwise, bit_and, bit_xor,
  bit_and-bitwise, bit_xor-bitwise,
}
use mathlib.Core.Path.{◌≡◌, refl, ◌∙◌}
use native.Mathlib.Nat.{pow-suc}
use native.Mathlib.Omega.{arith}

-- How the operations take a number apart: fuel that covers the first number is as good as any other,
-- so the lowest digits and the halves determine the result.
module _ (end : ℕ → ℕ) (op : ℕ → ℕ → ℕ) where
  digits_enough : (x y i j : ℕ) → x ≤ i → x ≤ j → digits end op i x y ≡ digits end op j x y
  digits_enough (suc x) y (suc i) (suc j) hi hj =
      rw (digits_enough (suc x / 2) (y / 2) i j (omega arith) (omega arith))
  digits_enough zero y (suc i) (suc j) hi hj = refl
  digits_enough zero y zero (suc j) hi hj = refl
  digits_enough zero y (suc i) zero hi hj = refl
  digits_enough zero y zero zero hi hj = refl
  digits_enough (suc x) y zero j hi hj = absurd (omega (arith, hi))
  digits_enough (suc x) y (suc i) zero hi hj = absurd (omega (arith, hj))

  lowest_digit :
      (x y : ℕ)
      → op (suc x % 2) (y % 2) + 2 * bitwise end op (suc x / 2) (y / 2) ≡ bitwise end op (suc x) y
  lowest_digit x y =
      omega (arith, digits_enough (suc x / 2) (y / 2) x (suc x / 2) (omega arith) (omega arith))

differ_bits : (x y : ℕ) → x < 2 → y < 2 → (differ x y < 2) × (differ (differ x y) y ≡ x)
differ_bits zero zero p q = (omega arith, refl)
differ_bits zero (suc zero) p q = (omega arith, refl)
differ_bits (suc zero) zero p q = (omega arith, refl)
differ_bits (suc zero) (suc zero) p q = (omega arith, refl)
differ_bits (suc (suc x)) y p q = absurd (omega arith)
differ_bits zero (suc (suc y)) p q = absurd (omega arith)
differ_bits (suc zero) (suc (suc y)) p q = absurd (omega arith)

differ_zero : (y : ℕ) → y < 2 → differ 0 y ≡ y
differ_zero zero h = refl
differ_zero (suc zero) h = refl
differ_zero (suc (suc y)) h = absurd (omega arith)

bit_xor_step : (x y : ℕ) → bit_xor x y ≡ differ (x % 2) (y % 2) + 2 * bit_xor (x / 2) (y / 2)
bit_xor_step (suc x) y = simp bit_xor-bitwise (omega (arith, lowest_digit (λ k. k) differ x y))
bit_xor_step zero y = simp bit_xor-bitwise (omega (arith, differ_zero (y % 2) (omega arith)))

bit_and_step : (x y : ℕ) → bit_and x y ≡ min (x % 2) (y % 2) + 2 * bit_and (x / 2) (y / 2)
bit_and_step (suc x) y = simp bit_and-bitwise (omega (arith, lowest_digit (λ k. 0) min x y))
bit_and_step zero y = simp bit_and-bitwise (omega arith)

-- Half of a number has a digit less.
half-lt : (w x : ℕ) → x < 2 ^ suc w → x / 2 < 2 ^ w
half-lt w x h = omega (arith, h, pow-suc 2 w)

-- The operations stay within the width of their arguments.
pub bit_xor-lt : (w x y : ℕ) → x < 2 ^ w → y < 2 ^ w → bit_xor x y < 2 ^ w
bit_xor-lt (suc w) x y hx hy =
    let tail = bit_xor-lt w (x / 2) (y / 2) (half-lt w x hx) (half-lt w y hy) in
    let digit = differ_bits (x % 2) (y % 2) (omega arith) (omega arith) in
    omega (arith, tail, digit, bit_xor_step x y, pow-suc 2 w)
bit_xor-lt zero zero zero hx hy = omega arith
bit_xor-lt zero zero (suc y) hx hy = absurd (omega (arith, hy))
bit_xor-lt zero (suc x) y hx hy = absurd (omega (arith, hx))

pub bit_and-lt : (w x y : ℕ) → x < 2 ^ w → y < 2 ^ w → bit_and x y < 2 ^ w
bit_and-lt (suc w) x y hx hy =
    let tail = bit_and-lt w (x / 2) (y / 2) (half-lt w x hx) (half-lt w y hy) in
    omega (arith, tail, bit_and_step x y, pow-suc 2 w)
bit_and-lt zero zero zero hx hy = omega arith
bit_and-lt zero zero (suc y) hx hy = absurd (omega (arith, hy))
bit_and-lt zero (suc x) y hx hy = absurd (omega (arith, hx))

-- A mask that is applied twice is taken off again.
pub bit_xor_twice : (k a m : ℕ) → a < 2 ^ k → m < 2 ^ k → bit_xor (bit_xor a m) m ≡ a
bit_xor_twice zero zero zero p q = refl
bit_xor_twice zero (suc a) m p q = absurd (omega arith)
bit_xor_twice zero zero (suc m) p q = absurd (omega arith)
bit_xor_twice (suc k) a m p q =
    step (bit_xor_twice k (a / 2) (m / 2) (half-lt k a p) (half-lt k m q))
  where
    digit : (differ (a % 2) (m % 2) < 2) × (differ (differ (a % 2) (m % 2)) (m % 2) ≡ a % 2)
    digit = differ_bits (a % 2) (m % 2) (omega arith) (omega arith)

    half : bit_xor a m / 2 ≡ bit_xor (a / 2) (m / 2)
    half = omega (arith, bit_xor_step a m, digit.0)

    low : bit_xor a m % 2 ≡ differ (a % 2) (m % 2)
    low = omega (arith, bit_xor_step a m, digit.0)

    step : bit_xor (bit_xor (a / 2) (m / 2)) (m / 2) ≡ a / 2 → bit_xor (bit_xor a m) m ≡ a
    step ih = rw (bit_xor_step (bit_xor a m) m) (rw (half, low, ih, digit.1) (omega arith))

-- The mask of the highest digit adds it or takes it away.
pub bit_xor_top :
    (k x : ℕ)
    → x < 2 ^ suc k
    → (x < 2 ^ k → bit_xor x (2 ^ k) ≡ x + 2 ^ k) × (2 ^ k ≤ x → bit_xor x (2 ^ k) + 2 ^ k ≡ x)
bit_xor_top zero zero h = (λ l. refl, λ l. absurd (omega (arith, l)))
bit_xor_top zero (suc zero) h = (λ l. absurd (omega (arith, l)), λ l. refl)
bit_xor_top zero (suc (suc x)) h = absurd (omega (arith, h))
bit_xor_top (suc k) x h =
    let rest = bit_xor_top k (x / 2) (half-lt (suc k) x h) in
    let top : 2 ^ suc k ≡ 2 * 2 ^ k = omega (arith, pow-suc 2 k) in
    let half : 2 ^ suc k / 2 ≡ 2 ^ k = omega (arith, top) in
    let even : 2 ^ suc k % 2 ≡ 0 = omega (arith, top) in
    let digit : differ (x % 2) 0 ≡ x % 2 = differ_none (x % 2) (omega arith) in
    let step : bit_xor x (2 ^ suc k) ≡ x % 2 + 2 * bit_xor (x / 2) (2 ^ k) =
      bit_xor_step x (2 ^ suc k) ∙ rw (half, even, digit) refl in
    (
      λ low. omega (arith, step, top, rest.0 (omega (arith, low, top))),
      λ high. omega (arith, step, top, rest.1 (omega (arith, high, top))),
    )
  where
    differ_none : (b : ℕ) → b < 2 → differ b 0 ≡ b
    differ_none zero l = refl
    differ_none (suc zero) l = refl
    differ_none (suc (suc b)) l = absurd (omega (arith, l))
