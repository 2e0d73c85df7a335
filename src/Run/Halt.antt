-- ===== src/Run/Halt.antt =====
-- What becomes of a CPU that executes HLT.
use dc2021f_ooows_public.Base.{
  ℕ, zero, suc, ◌<◌, ◌≡◌, refl, Bool, true, false, ◌⊎◌, inl, inr, Option, none, some, List, [], ◌∷◌,
  arith, get_or,
}
use dc2021f_ooows_public.Machine.{CpuState, not_started, running, halted, Vcpu, Hv, update_vcpu}
use dc2021f_ooows_public.Dispatch.{Spawn, IoRequest, Answer, Bus}
use dc2021f_ooows_public.Run.{
  is_running, or_else, any_running, vm_shutdown, Outcome, waits, ends, wait_for_sipi, hlt, Round,
  handle_exit, halt,
}

-- Some CPU below `n` runs.
abbrev pub SomeRuns : ℕ → List (Option Vcpu) → Type 0
SomeRuns n vcpus =
    (i : ℕ) × (v : Vcpu) × (i < n) × (get_or vcpus i none ≡ some v) × (v.state ≡ running)

-- All CPUs below `n` are there, and none of them runs.
abbrev pub NoneRuns : ℕ → List (Option Vcpu) → Type 0
NoneRuns zero vcpus = Unit {0}
NoneRuns (suc n) [] = ⊥
NoneRuns (suc n) (none ∷ vcpus) = ⊥
NoneRuns (suc n) (some v ∷ vcpus) = (is_running v.state ≡ false) × NoneRuns n vcpus

abbrev Found : ℕ → List (Option Vcpu) → Option Bool → Type 0
Found n vcpus none = Unit {0}
Found n vcpus (some true) = SomeRuns n vcpus
Found n vcpus (some false) = NoneRuns n vcpus

is_running_lem : (s : CpuState) → is_running s ≡ true → s ≡ running
is_running_lem running e = refl
is_running_lem not_started e = cc
is_running_lem halted e = cc

any_running-Found : (n : ℕ) (vcpus : List (Option Vcpu)) → Found n vcpus (any_running n vcpus)
unfolding any_running
any_running-Found zero vcpus = tt
any_running-Found (suc n) [] = tt
any_running-Found (suc n) (none ∷ vcpus) = tt
any_running-Found (suc n) (some v ∷ vcpus) =
    by_rest (is_running v.state) refl (any_running n vcpus) (any_running-Found n vcpus)
  where
    by_rest :
        (b : Bool)
        → is_running v.state ≡ b
        → (o : Option Bool) → Found n vcpus o
        → Found (suc n) (some v ∷ vcpus) (or_else b o)
    by_rest b e none f = tt
    by_rest true e (some c) f = (0, v, omega arith, refl, is_running_lem v.state e)
    by_rest false e (some true) f =
        let (i, u, small, at, runs) = f in (suc i, u, omega arith, at, runs)
    by_rest false e (some false) f = (e, f)

-- A CPU that has halted waits to be started exactly if some CPU still runs; else its loop ends
-- with VM_SHUTDOWN.
pub wait_for_sipi_lem :
    (hv : Hv) {o : Outcome}
    → wait_for_sipi hv ≡ some o
    → ((o ≡ waits) × SomeRuns hv.nvcpus hv.vcpus)
      ⊎ ((o ≡ ends vm_shutdown) × NoneRuns hv.nvcpus hv.vcpus)
unfolding wait_for_sipi
wait_for_sipi_lem hv {o} e =
    by_found (any_running hv.nvcpus hv.vcpus) refl (any_running-Found hv.nvcpus hv.vcpus)
  where
    same : {p : Outcome} → wait_for_sipi hv ≡ some p → o ≡ p
    same c = cc

    by_found :
        (f : Option Bool)
        → any_running hv.nvcpus hv.vcpus ≡ f
        → Found hv.nvcpus hv.vcpus f
        → ((o ≡ waits) × SomeRuns hv.nvcpus hv.vcpus)
          ⊎ ((o ≡ ends vm_shutdown) × NoneRuns hv.nvcpus hv.vcpus)
    by_found none g found = let c : wait_for_sipi hv ≡ none = rw (g, wait_for_sipi) in cc
    by_found (some true) g found =
        let c : wait_for_sipi hv ≡ some waits = rw (g, wait_for_sipi) in inl (same c, found)
    by_found (some false) g found =
        let c : wait_for_sipi hv ≡ some (ends vm_shutdown) = rw (g, wait_for_sipi) in
        inr (same c, found)

module _ (kvm_interrupt : ℕ → ℕ → Bool) (device : ℕ → IoRequest → Answer) where
  -- On a machine with one CPU, HLT shuts the machine down at once, whatever interrupts wait in the
  -- queue that could end the halt.
  pub single_halt :
      (bus : Bus) (v u : Vcpu) (s : Spawn) (rest : List (Option Vcpu))
      → bus.hv.nvcpus ≡ 1
      → bus.hv.vcpus ≡ some u ∷ rest
      → (r : Round) × (handle_exit kvm_interrupt device bus 0 v s hlt ≡ some r)
        × (r.outcome ≡ ends vm_shutdown)
        × (r.bus.hv.ioapic ≡ bus.hv.ioapic)
  unfolding handle_exit wait_for_sipi any_running update_vcpu
  single_halt bus v u s rest one here =
      rw (here, one)
        (
          record {
            bus = record bus { hv = record bus.hv { vcpus = some (halt u) ∷ rest; nvcpus = 1 } };
            buffer = 0;
            outcome = ends vm_shutdown;
          },
          refl,
          refl,
          refl,
        )
