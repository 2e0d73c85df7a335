-- ===== src/Run/Exit.antt =====
-- Every exit of the guest is served.
use dc2021f_ooows_public.Base.{ℕ, zero, suc, Option, none, some, List, [], ◌∷◌}
use dc2021f_ooows_public.Machine.{Vcpu}

-- The first `n` CPUs are there.
abbrev pub AllThere : ℕ → List (Option Vcpu) → Type 0
AllThere zero vcpus = Unit {0}
AllThere (suc n) [] = ⊥
AllThere (suc n) (none ∷ vcpus) = ⊥
AllThere (suc n) (some v ∷ vcpus) = AllThere n vcpus
