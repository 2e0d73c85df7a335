-- ===== src/Virtio/Numbers.antt =====
-- Bytes of the guest's memory, and the numbers that they stand for.
use native.Mathlib.Nat.{pow-suc}
use dc2021f_ooows_public.Base.{
  ℕ, zero, suc, ◌+◌, ◌-◌, ◌/◌, ◌^◌, ◌≤◌, ◌<◌, ◌≡◌, refl, ap, List, [], ◌∷◌, ◌++◌, get_or, length,
  take, drop, arith,
}
use dc2021f_ooows_public.Net.Guest.{bytes_at, with_bytes}
use dc2021f_ooows_public.Virtio.Registers.{number, bytes_of}

abbrev pub AreBytes : List ℕ → Type 0
AreBytes [] = Unit
AreBytes (b ∷ bs) = (b < 256) × AreBytes bs

pub get_or-lt : (bs : List ℕ) (i : ℕ) → AreBytes bs → get_or bs i 0 < 256
get_or-lt [] i all = omega arith
get_or-lt (b ∷ bs) zero (small, all) = small
get_or-lt (b ∷ bs) (suc i) (small, all) = get_or-lt bs i all

pub append-AreBytes : (low bs : List ℕ) → AreBytes low → AreBytes bs → AreBytes (low ++ bs)
append-AreBytes [] bs p q = q
append-AreBytes (a ∷ low) bs (small, p) q = (small, append-AreBytes low bs p q)

pub take-AreBytes : (n : ℕ) (bs : List ℕ) → AreBytes bs → AreBytes (take n bs)
take-AreBytes zero bs p = tt
take-AreBytes (suc n) [] p = tt
take-AreBytes (suc n) (b ∷ bs) (small, p) = (small, take-AreBytes n bs p)

pub drop-AreBytes : (n : ℕ) (bs : List ℕ) → AreBytes bs → AreBytes (drop n bs)
drop-AreBytes zero bs p = p
drop-AreBytes (suc n) [] p = tt
drop-AreBytes (suc n) (b ∷ bs) (small, p) = drop-AreBytes n bs p

pub bytes_of-AreBytes : (size value : ℕ) → AreBytes (bytes_of size value)
bytes_of-AreBytes zero value = tt
bytes_of-AreBytes (suc size) value = (omega arith, bytes_of-AreBytes size (value / 256))

pub length-bytes_of : (size value : ℕ) → length (bytes_of size value) ≡ size
length-bytes_of zero value = refl
length-bytes_of (suc size) value = ap suc (length-bytes_of size (value / 256))

pub length-bytes_at : (f : ℕ → ℕ) (at size : ℕ) → length (bytes_at f at size) ≡ size
length-bytes_at f at zero = refl
length-bytes_at f at (suc size) = ap suc (length-bytes_at f (at + 1) size)

pub bytes_at-AreBytes :
    (f : ℕ → ℕ) (at size : ℕ) → ((i : ℕ) → f i < 256) → AreBytes (bytes_at f at size)
bytes_at-AreBytes f at zero small = tt
bytes_at-AreBytes f at (suc size) small = (small at, bytes_at-AreBytes f (at + 1) size small)

pub with_bytes-lt :
    (f : ℕ → ℕ) (at : ℕ) (bs : List ℕ) (i : ℕ)
    → f i < 256
    → AreBytes bs
    → with_bytes f at bs i < 256
with_bytes-lt f at bs i small all = ground (arith, get_or-lt bs (i - at) all)

-- A number of `n` bytes is below 256 ^ n, and below it a number is that of its `n` bytes.
pub number-lt : (n : ℕ) (bs : List ℕ) → AreBytes bs → length bs ≤ n → number bs < 256 ^ n
number-lt n [] all short = pos n
  where
    pos : (n : ℕ) → 0 < 256 ^ n
    pos zero = omega arith
    pos (suc n) = omega (arith, pow-suc 256 n, pos n)
number-lt zero (b ∷ bs) all short = absurd (omega arith)
number-lt (suc n) (b ∷ bs) (small, all) short =
    omega (arith, pow-suc 256 n, number-lt n bs all (omega arith))

pub number-bytes_of : (n v : ℕ) → v < 256 ^ n → number (bytes_of n v) ≡ v
number-bytes_of zero v small = omega arith
number-bytes_of (suc n) v small =
    omega (arith, pow-suc 256 n, number-bytes_of n (v / 256) (omega (arith, pow-suc 256 n)))
