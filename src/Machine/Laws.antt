-- ===== src/Machine/Laws.antt =====
-- Reading a CPU after another one, or the same, has been written; and what a machine keeps to.
use dc2021f_ooows_public.Base.{
  ℕ, zero, suc, ◌<◌, ◌≡◌, ◌≢◌, refl, ap, ◌∙◌, inl, inr, Bool-cases, ==_iff, ◌==◌, if◌then◌else◌,
  Option, none, some, List, [], ◌∷◌, arith, length, get_or, set,
}
use dc2021f_ooows_public.Machine.{Hv, Vcpu, vcpu_at, put_vcpu, update_vcpu}

module _ {ℓ} {A : Type ℓ} where
  pub get_or-set_self :
      (xs : List A) (i : ℕ) (v d : A) → i < length xs → get_or (set xs i v) i d ≡ v
  get_or-set_self [] i v d h = elim h [ ]
  get_or-set_self (x ∷ xs) zero v d h = refl
  get_or-set_self (x ∷ xs) (suc i) v d h = get_or-set_self xs i v d (omega arith)

  pub get_or-set_ne :
      (xs : List A) (i j : ℕ) (v d : A) → i ≢ j → get_or (set xs i v) j d ≡ get_or xs j d
  get_or-set_ne [] i j v d h = refl
  get_or-set_ne (x ∷ xs) zero zero v d h = absurd (h refl)
  get_or-set_ne (x ∷ xs) zero (suc j) v d h = refl
  get_or-set_ne (x ∷ xs) (suc i) zero v d h = refl
  get_or-set_ne (x ∷ xs) (suc i) (suc j) v d h = get_or-set_ne xs i j v d (λ e. h (ap suc e))

  -- An entry that is there lies within the list.
  pub lt-length_of_some :
      (xs : List (Option A)) (i : ℕ) {v : A} → get_or xs i none ≡ some v → i < length xs
  lt-length_of_some [] i e = cc
  lt-length_of_some (x ∷ xs) zero e = omega arith
  lt-length_of_some (x ∷ xs) (suc i) e = omega (arith, lt-length_of_some xs i e)

-- The CPU that is written is read back, if it is there; the others stay.
pub vcpu_at-put_self :
    (hv : Hv) (i : ℕ) (v : Vcpu) {u : Vcpu}
    → vcpu_at hv i ≡ some u
    → vcpu_at (put_vcpu hv i v) i ≡ some v
vcpu_at-put_self hv i v e =
    get_or-set_self hv.vcpus i (some v) none (lt-length_of_some hv.vcpus i e)

pub vcpu_at-put_ne :
    (hv : Hv) (i j : ℕ) (v : Vcpu) → i ≢ j → vcpu_at (put_vcpu hv i v) j ≡ vcpu_at hv j
vcpu_at-put_ne hv i j v h = get_or-set_ne hv.vcpus i j (some v) none h

pub update-put :
    (hv : Hv) (i : ℕ) (f : Vcpu → Vcpu) {v : Vcpu}
    → vcpu_at hv i ≡ some v
    → update_vcpu hv i f ≡ put_vcpu hv i (f v)
unfolding update_vcpu
update-put hv i f h = rw (h, update_vcpu)

pub vcpu_at-put :
    (hv : Hv) (i c : ℕ) (v : Vcpu) {u : Vcpu}
    → vcpu_at hv i ≡ some u
    → vcpu_at (put_vcpu hv i v) c ≡ (if c == i then some v else vcpu_at hv c)
vcpu_at-put hv i c v h = elim (Bool-cases (c == i)) [
  | inl same ↦
      rw same (ap (vcpu_at (put_vcpu hv i v)) ((==_iff c i).0 same) ∙ vcpu_at-put_self hv i v h)
  | inr other ↦ rw other (vcpu_at-put_ne hv i c v (λ e. ground arith))
]

-- A write that does not change anything is none.
pub vcpu_at-same :
    (hv : Hv) (i c : ℕ) {u : Vcpu}
    → vcpu_at hv i ≡ some u
    → vcpu_at hv c ≡ (if c == i then some u else vcpu_at hv c)
vcpu_at-same hv i c h = elim (Bool-cases (c == i)) [
  | inl same ↦ rw same (ap (vcpu_at hv) ((==_iff c i).0 same) ∙ h)
  | inr other ↦ rw other
]
