-- ===== src/Base/Bits.antt =====
-- Single bits of a machine word: `w & (1 << k)`, `w | (1 << k)` and `w & ~(1 << k)`.
use Prim.Native.Nat.{
  ℕ, zero, suc, ◌+◌, ◌-◌, ◌*◌, ◌/◌, ◌%◌, ◌^◌, ◌≤◌, ◌<◌, min, max, bit_and, bit_or, digits,
  bit_and-bitwise, bit_or-bitwise,
}
use mathlib.Core.Path.{◌≡◌, refl, ap, sym, ◌∙◌}
use mathlib.Core.Bool.{Bool, true, false, not, ◌&&◌}
use native.Mathlib.Omega.{arith}
use native.Mathlib.Nat.{pow-suc, pow-le-pow_right}
use dc2021f_ooows_public.Base.Tests.{◌==◌, if◌then◌else◌, ==_iff}

module _ (rest : ℕ → ℕ) (op : ℕ → ℕ → ℕ) where
  -- Of the digit recursion by which the native operations are defined: where the first word is
  -- used up the rest of the second is kept or dropped, and fuel beyond that does not matter.
  digits-zero : (fuel b : ℕ) → digits rest op fuel 0 b ≡ rest b
  digits-zero zero b = refl
  digits-zero (suc fuel) b = refl

  pub digits-fuel :
      (fuel more a b : ℕ) → a ≤ fuel → a ≤ more → digits rest op more a b ≡ digits rest op fuel a b
  digits-fuel (suc fuel) (suc more) (suc a) b p q =
      ap (λ high. high * 2 + op (suc a % 2) (b % 2))
        (digits-fuel fuel more (suc a / 2) (b / 2) (omega arith) (omega arith))
  digits-fuel fuel more zero b p q = digits-zero more b ∙ sym (digits-zero fuel b)
  digits-fuel zero more (suc a) b p q = absurd (omega arith)
  digits-fuel (suc fuel) zero (suc a) b p q = absurd (omega arith)

and_split : (a b : ℕ) → bit_and a b ≡ bit_and (a / 2) (b / 2) * 2 + min (a % 2) (b % 2)
and_split zero b = omega (arith, bit_and-bitwise 0 b, bit_and-bitwise 0 (b / 2))
and_split (suc a) b = omega (
  arith,
  bit_and-bitwise (suc a) b,
  bit_and-bitwise (suc a / 2) (b / 2),
  digits-fuel (λ c. 0) min (suc a / 2) a (suc a / 2) (b / 2) (omega arith) (omega arith),
)

or_split : (a b : ℕ) → bit_or a b ≡ bit_or (a / 2) (b / 2) * 2 + max (a % 2) (b % 2)
or_split zero b = omega (arith, bit_or-bitwise 0 b, bit_or-bitwise 0 (b / 2))
or_split (suc a) b = omega (
  arith,
  bit_or-bitwise (suc a) b,
  bit_or-bitwise (suc a / 2) (b / 2),
  digits-fuel (λ c. c) max (suc a / 2) a (suc a / 2) (b / 2) (omega arith) (omega arith),
)

-- The digit of weight `2 ^ k`.
unfoldable pub bit : ℕ → ℕ → ℕ
bit w zero = w % 2
bit w (suc k) = bit (w / 2) k

pub bit-lt : (w k : ℕ) → bit w k < 2
unfolding bit
bit-lt w zero = omega arith
bit-lt w (suc k) = bit-lt (w / 2) k

pub bit-and : (a b k : ℕ) → bit (bit_and a b) k ≡ min (bit a k) (bit b k)
unfolding bit
bit-and a b zero = omega (arith, and_split a b)
bit-and a b (suc k) =
    let e : bit_and a b / 2 ≡ bit_and (a / 2) (b / 2) = omega (arith, and_split a b) in
    rw e (bit-and (a / 2) (b / 2) k)

bit-or : (a b k : ℕ) → bit (bit_or a b) k ≡ max (bit a k) (bit b k)
unfolding bit
bit-or a b zero = omega (arith, or_split a b)
bit-or a b (suc k) =
    let e : bit_or a b / 2 ≡ bit_or (a / 2) (b / 2) = omega (arith, or_split a b) in
    rw e (bit-or (a / 2) (b / 2) k)

-- `w & (1 << k)`, `w |= 1 << k` and `w &= ~(1 << k)` on a `uint32_t`.
unfoldable pub test_bit : ℕ → ℕ → Bool
test_bit w k = not (bit_and w (2 ^ k) == 0)

unfoldable pub set_bit : ℕ → ℕ → ℕ
set_bit w k = bit_or w (2 ^ k)

unfoldable pub clear_bit : ℕ → ℕ → ℕ
clear_bit w k = bit_and w (2 ^ 32 - 1 - 2 ^ k)

pow-pos : (k : ℕ) → 0 < 2 ^ k
pow-pos zero = omega arith
pow-pos (suc k) = omega (arith, pow-suc 2 k, pow-pos k)

bit-zero : (k : ℕ) → bit 0 k ≡ 0
unfolding bit
bit-zero zero = refl
bit-zero (suc k) = bit-zero k

bit-pow : (k j : ℕ) → bit (2 ^ k) j ≡ (if j == k then 1 else 0)
unfolding bit
bit-pow zero zero = refl
bit-pow zero (suc j) = ground (arith, bit-zero j)
bit-pow (suc k) zero = ground (arith, pow-suc 2 k)
bit-pow (suc k) (suc j) =
    let e : 2 ^ suc k / 2 ≡ 2 ^ k = omega (arith, pow-suc 2 k) in rw e (ground (arith, bit-pow k j))

-- The digits of `~(1 << k)`, by all of the 32 × 32 cases.
abbrev complement_ok : ℕ → ℕ → Bool
complement_ok k j = bit (2 ^ 32 - 1 - 2 ^ k) j == (if j == k then 0 else 1)

-- The test holds from 0 up to a bound, that bound excluded.
unfoldable pub up_to : (ℕ → Bool) → ℕ → Bool
up_to test zero = true
up_to test (suc bound) = up_to test bound && test bound

pub up_to-at :
    (test : ℕ → Bool) (bound : ℕ) → up_to test bound ≡ true → (i : ℕ) → i < bound → test i ≡ true
unfolding up_to
up_to-at test (suc bound) all i small =
    ground
      (arith, λ (h : up_to test bound ≡ true) (lower : i < bound). up_to-at test bound h i lower)
up_to-at test zero all i small = elim small [ ]

complement_table : up_to (λ k. up_to (complement_ok k) 32) 32 ≡ true
unfolding up_to bit
complement_table = refl

bit-complement :
    (k j : ℕ) → k < 32 → j < 32 → bit (2 ^ 32 - 1 - 2 ^ k) j ≡ (if j == k then 0 else 1)
bit-complement k j hk hj = (==_iff _ _).0 (
    up_to-at (complement_ok k) 32
      (up_to-at (λ i. up_to (complement_ok i) 32) 32 complement_table k hk) j hj)

and-le_fuel : (n a b : ℕ) → a ≤ n → bit_and a b ≤ b
and-le_fuel n zero b h = omega (arith, bit_and-bitwise 0 b)
and-le_fuel zero (suc a) b h = absurd (omega arith)
and-le_fuel (suc n) (suc a) b h =
    omega (arith, and_split (suc a) b, and-le_fuel n (suc a / 2) (b / 2) (omega arith))

and-le : (a b : ℕ) → bit_and a b ≤ b
and-le a b = and-le_fuel a a b (omega arith)

or-lt : (n a b : ℕ) → a < 2 ^ n → b < 2 ^ n → bit_or a b < 2 ^ n
or-lt zero zero zero ha hb = omega arith
or-lt zero zero (suc b) ha hb = absurd (omega arith)
or-lt zero (suc a) b ha hb = absurd (omega arith)
or-lt (suc n) a b ha hb =
    let h : (2 ^ suc n ≡ 2 ^ n * 2) = pow-suc 2 n in
    omega (arith, or_split a b, or-lt n (a / 2) (b / 2) (omega arith) (omega arith))

and-pow : (w k : ℕ) → bit_and w (2 ^ k) ≡ bit w k * 2 ^ k
unfolding bit
and-pow w zero = omega (arith, and_split w 1, and-le (w / 2) 0)
and-pow w (suc k) =
    let h : (2 ^ suc k ≡ 2 ^ k * 2) = pow-suc 2 k in
    let e : 2 ^ suc k / 2 ≡ 2 ^ k = omega arith in
    let half : bit_and (w / 2) (2 ^ suc k / 2) ≡ bit (w / 2) k * 2 ^ k = rw e (and-pow (w / 2) k) in
    omega (arith, and_split w (2 ^ suc k), ap (λ (t : ℕ). bit (w / 2) k * t) h)

test_bit-bit : (w k : ℕ) → test_bit w k ≡ (bit w k == 1)
unfolding test_bit
test_bit-bit w k = rw and-pow (go (bit w k) (bit-lt w k))
  where
    go : (d : ℕ) → d < 2 → not (d * 2 ^ k == 0) ≡ (d == 1)
    go zero h = ground arith
    go (suc zero) h = ground (arith, pow-pos k)
    go (suc (suc d)) h = absurd (omega arith)

-- Setting a bit sets that bit, and no other.
pub test_bit-set_bit :
    (w k j : ℕ) → test_bit (set_bit w k) j ≡ (if j == k then true else test_bit w j)
unfolding set_bit
test_bit-set_bit w k j =
    rw (test_bit-bit (bit_or w (2 ^ k)) j, test_bit-bit w j, bit-or)
      (ground (arith, bit-pow k j, bit-lt w j))

-- Clearing a bit of a 32-bit word clears that bit, and no other.
pub test_bit-clear_bit :
    (w k j : ℕ)
    → k < 32
    → j < 32
    → test_bit (clear_bit w k) j ≡ (if j == k then false else test_bit w j)
unfolding clear_bit
test_bit-clear_bit w k j hk hj =
    rw (test_bit-bit (bit_and w (2 ^ 32 - 1 - 2 ^ k)) j, test_bit-bit w j, bit-and)
      (ground (arith, bit-complement k j hk hj, bit-lt w j))

pub set_bit-lt : (w k : ℕ) → w < 2 ^ 32 → k < 32 → set_bit w k < 2 ^ 32
unfolding set_bit
set_bit-lt w k h hk = or-lt 32 w (2 ^ k) h (omega (arith, below))
  where
    below : 2 ^ k ≤ 2 ^ 31
    below = pow-le-pow_right (omega arith) {i = k} {j = 31} (omega arith)

pub clear_bit-lt : (w k : ℕ) → clear_bit w k < 2 ^ 32
unfolding clear_bit
clear_bit-lt w k = omega (arith, and-le w (2 ^ 32 - 1 - 2 ^ k))

pub test_bit-set_self : (w k : ℕ) → test_bit (set_bit w k) k ≡ true
test_bit-set_self w k = ground (arith, test_bit-set_bit w k k)

pub test_bit-clear_self : (w k : ℕ) → k < 32 → test_bit (clear_bit w k) k ≡ false
test_bit-clear_self w k h = ground (arith, test_bit-clear_bit w k k)

-- A mask of `n` bits keeps a word that fits in them.
pub and-mask : (n a : ℕ) → a < 2 ^ n → bit_and a (2 ^ n - 1) ≡ a
and-mask zero a small = omega (arith, and-le a 0)
and-mask (suc n) a small =
    let h : (2 ^ suc n ≡ 2 ^ n * 2) = pow-suc 2 n in
    let p = pow-pos n in
    let e : (2 ^ suc n - 1) / 2 ≡ 2 ^ n - 1 = omega arith in
    let rest : bit_and (a / 2) ((2 ^ suc n - 1) / 2) ≡ a / 2 =
      rw e (and-mask n (a / 2) (omega arith)) in
    omega (arith, and_split a (2 ^ suc n - 1))

-- Setting the bit behind a word of `n` bits adds it.
pub set_bit-add : (n a : ℕ) → a < 2 ^ n → set_bit a n ≡ a + 2 ^ n
unfolding set_bit
set_bit-add zero a small = let none_ : a ≡ 0 = omega arith in rw none_ refl
set_bit-add (suc n) a small =
    let h : (2 ^ suc n ≡ 2 ^ n * 2) = pow-suc 2 n in
    let e : 2 ^ suc n / 2 ≡ 2 ^ n = omega arith in
    let rest : bit_or (a / 2) (2 ^ suc n / 2) ≡ a / 2 + 2 ^ n =
      rw e (set_bit-add n (a / 2) (omega arith)) in
    omega (arith, or_split a (2 ^ suc n))
