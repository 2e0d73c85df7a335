-- ===== src/Virtio/Copied.antt =====
-- Parts of what is copied out of the memory, and copies that do not meet.
use dc2021f_ooows_public.Base.{
  ℕ, zero, suc, ◌+◌, ◌-◌, ◌≤◌, ◌≡◌, ◌⊎◌, refl, ap, ◌∙◌, false, List, ◌∷◌, ltb, leb, ◌&&◌, length,
  take, drop, arith,
}
use dc2021f_ooows_public.Net.Guest.{bytes_at, with_bytes}
use dc2021f_ooows_public.Net.Access.{bytes_at_ext, with_bytes_at}

-- The bytes of a part of what is read.
pub bytes_at-take : (f : ℕ → ℕ) (at k n : ℕ) → k ≤ n → take k (bytes_at f at n) ≡ bytes_at f at k
bytes_at-take f at zero n h = refl
bytes_at-take f at (suc k) zero h = absurd (omega arith)
bytes_at-take f at (suc k) (suc n) h =
    ap (λ r. f at ∷ r) (bytes_at-take f (at + 1) k n (omega arith))

pub bytes_at-drop :
    (f : ℕ → ℕ) (at k n : ℕ) → k ≤ n → drop k (bytes_at f at n) ≡ bytes_at f (at + k) (n - k)
bytes_at-drop f at zero n h = ap (λ (p : ℕ × ℕ). bytes_at f p.0 p.1) (λ i. (at0 i, n0 i))
  where
    at0 : at ≡ at + 0
    at0 = omega arith

    n0 : n ≡ n - 0
    n0 = omega arith
bytes_at-drop f at (suc k) zero h = absurd (omega arith)
bytes_at-drop f at (suc k) (suc n) h =
    bytes_at-drop f (at + 1) k n (omega arith)
    ∙ ap (λ (p : ℕ × ℕ). bytes_at f p.0 p.1) (λ i. (at0 i, n0 i))
  where
    at0 : at + 1 + k ≡ at + suc k
    at0 = omega arith

    n0 : n - k ≡ suc n - suc k
    n0 = omega arith

pub bytes_at-part :
    (f : ℕ → ℕ) (at part k n total : ℕ)
    → at + k ≡ part
    → k + n ≤ total
    → take n (drop k (bytes_at f at total)) ≡ bytes_at f part n
bytes_at-part f at part k n total e h =
    ap (take n) (bytes_at-drop f at k total (omega arith))
    ∙ bytes_at-take f (at + k) n (total - k) (omega arith)
    ∙ ap (λ (p : ℕ). bytes_at f p n) e

-- What was written is read back, by bytes that begin there; others are not touched.
pub bytes_at-with :
    (f : ℕ → ℕ) (at : ℕ) (bs : List ℕ) → bytes_at (with_bytes f at bs) at (length bs) ≡ bs
bytes_at-with f at bs = bytes_at_ext (with_bytes f at bs) at bs (with_bytes_at f at bs)

pub bytes_at-apart :
    (f : ℕ → ℕ) (at n other : ℕ) (bs : List ℕ)
    → (at + n ≤ other) ⊎ (other + length bs ≤ at)
    → bytes_at (with_bytes f other bs) at n ≡ bytes_at f at n
bytes_at-apart f at zero other bs h = refl
bytes_at-apart f at (suc n) other bs h =
    let off : (leb other at && ltb at (other + length bs)) ≡ false = ground arith in
    rw (off, bytes_at-apart f (at + 1) n other bs (ground arith)) refl
