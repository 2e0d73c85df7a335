-- ===== src/Run.antt =====
-- The life of a virtual CPU: its reset state and its halts in vmm.c, and the loop of
-- kvm/kvmstubs.c that enters the guest and serves its exits. `hvSetVcpuRegisters` and
-- `hvGetVcpuRegisters` copy to and from the host: what the guest does between the two is given
-- for each round as a function of the CPU at the entry.
pub mod Exit
pub mod Halt
pub mod Reset
mod Tests
use dc2021f_ooows_public.Base.{
  ℕ, zero, suc, ◌+◌, ◌-◌, ◌*◌, ◌^◌, Bool, true, false, not, ◌||◌, Option, none, some, List, [], ◌∷◌,
  ◌==◌, if◌then◌else◌, replicate, set,
}
use dc2021f_ooows_public.Machine.{
  CpuState, not_started, running, halted, Ret, ok, failed, Segment, Regs, KvmRun, Vcpu, Hv, vcpu_at,
  put_vcpu, update_vcpu,
}
use dc2021f_ooows_public.Irq.{check_and_send}
use dc2021f_ooows_public.Dispatch.{Spawn, IoRequest, Answer, Bus, handle_pio, handle_mmio}

abbrev pub desc_p_mask : ℕ
desc_p_mask = 2 ^ 15

abbrev pub desc_s_mask : ℕ
desc_s_mask = 2 ^ 12

abbrev pub no_segment : Segment
no_segment = record { selector = 0; base = 0; limit = 0; flags = 0 }

abbrev pub table : ℕ → Segment
table flags = record no_segment { limit = 0xffff; flags = flags }

-- The flags that are or'ed are different bits. A data segment is present, writable (bit 9) and
-- accessed (bit 8); the code segment has bit 11 too.
abbrev pub data_segment : Segment
data_segment = table (desc_p_mask + desc_s_mask + 2 ^ 9 + 2 ^ 8)

abbrev pub code_segment : Segment
code_segment = record {
  selector = 0xf000;
  base = 0xf0000;
  limit = 0xffff;
  flags = desc_p_mask + desc_s_mask + 2 ^ 11 + 2 ^ 9 + 2 ^ 8;
}

-- `APIC_DEFAULT_ADDRESS | MSR_IA32_APICBASE_ENABLE`, and the bit of the boot processor.
abbrev pub reset_apicbase : Bool → ℕ
reset_apicbase bsp = if bsp then 0xfee00000 + 2 ^ 11 + 2 ^ 8 else 0xfee00000 + 2 ^ 11

-- `x86CpuReset`. The order of the segments is ES, CS, SS, DS, FS, GS; 2 is `G_EDX`.
unfoldable pub x86_cpu_reset : Bool → Regs
x86_cpu_reset bsp = record {
  gpr = set (replicate 8 0) 2 0x663;
  eip = 0xfff0;
  eflags = 2;
  control = set (replicate 5 0) 0 0x60000010;
  a20_mask = 2 ^ 32 - 1;
  segment =
      data_segment ∷ code_segment ∷ data_segment ∷ data_segment ∷ data_segment ∷ data_segment ∷ [];
  ldt = table (desc_p_mask + 2 * 2 ^ 8);
  tr = table (desc_p_mask + 11 * 2 ^ 8);
  gdt = table 0;
  idt = table 0;
  tpr = 0;
  apicbase = reset_apicbase bsp;
  efer = 0;
}

abbrev pub is_running : CpuState → Bool
is_running running = true
is_running not_started = false
is_running halted = false

abbrev pub or_else : Bool → Option Bool → Option Bool
or_else b none = none
or_else b (some c) = some (b || c)

-- The loop of `waitForSipi` over the CPUs below `g_nvcpus`; `none` is a read through the null
-- pointer of a CPU that is not there.
unfoldable pub any_running : ℕ → List (Option Vcpu) → Option Bool
any_running zero vcpus = some false
any_running (suc n) [] = none
any_running (suc n) (none ∷ vcpus) = none
any_running (suc n) (some v ∷ vcpus) = or_else (is_running v.state) (any_running n vcpus)

-- `VM_SHUTDOWN` and `VM_UNHANDLED_EXIT`, the -1 of a device, and the end of the whole process by
-- `err(1, ...)`
pub data VmExit : Type 0 where
  vm_shutdown vm_unhandled_exit device_failed process_exit : VmExit

-- How a round ends: the loop goes on, or first waits for the CPU to be started, or ends.
pub data Outcome : Type 0 where
  again waits : Outcome
  ends : VmExit → Outcome

-- `waitForSipi` up to its wait
unfoldable pub wait_for_sipi : Hv → Option Outcome
wait_for_sipi hv = elim (any_running hv.nvcpus hv.vcpus) [
  | none ↦ none
  | some b ↦ some (if b then waits else ends vm_shutdown)
]

-- `run->exit_reason` with the fields that are read for it; `dat` is the buffer in the shared page.
-- With a shutdown comes whether the host gives the registers that are printed then.
pub data KvmExit : Type 0 where
  hlt irq_window_open other : KvmExit
  shutdown : (sregs_ok : Bool) → KvmExit
  io : (direction port dat size count : ℕ) → KvmExit
  mmio_access : (phys_addr dat len : ℕ) (is_write : Bool) → KvmExit

abbrev pub by_ret : Ret → Outcome
by_ret ok = again
by_ret failed = ends device_failed

-- What a round leaves: the bus with the machine, the buffer in the shared page, and how it ends.
pub record Round : Type 0 where
  pub bus : Bus
  pub buffer : ℕ
  pub outcome : Outcome

abbrev pub served : Bus × ℕ × Ret → Round
served (bus, dat, r) = record { bus = bus; buffer = dat; outcome = by_ret r }

abbrev pub with_outcome : Bus → Option Outcome → Option Round
with_outcome bus none = none
with_outcome bus (some o) = some (record { bus = bus; buffer = 0; outcome = o })

abbrev pub mmio_served : Option (Bus × ℕ × Ret) → Option Round
mmio_served none = none
mmio_served (some r) = some (served r)

-- The machine with the CPU `cpu` changed.
abbrev pub change : (Vcpu → Vcpu) → ℕ → Bus → Bus
change f cpu bus = record bus { hv = update_vcpu bus.hv cpu f }

abbrev pub halt : Vcpu → Vcpu
halt v = record v { state = halted }

abbrev pub clean : Vcpu → Vcpu
clean v = record v { dirty = false }

module _ (kvm_interrupt : ℕ → ℕ → Bool) (device : ℕ → IoRequest → Answer) where
  -- The `switch` of `hvRunVcpu`. A direction of 0 is in, of 1 is out.
  unfoldable pub handle_exit : Bus → ℕ → Vcpu → Spawn → KvmExit → Option Round
  unfolding wait_for_sipi
  handle_exit bus cpu v s hlt =
      with_outcome (change halt cpu bus) (wait_for_sipi (change halt cpu bus).hv)
  handle_exit bus cpu v s (shutdown sregs_ok) =
      with_outcome bus (some (ends (if sregs_ok then vm_shutdown else process_exit)))
  handle_exit bus cpu v s irq_window_open = with_outcome bus (some again)
  handle_exit bus cpu v s other = with_outcome bus (some (ends vm_unhandled_exit))
  handle_exit bus cpu v s (io direction port dat size count) =
      if (direction == 0) || (direction == 1)
      then some (served (handle_pio device bus cpu s port dat direction size count))
      else with_outcome bus (some (ends vm_unhandled_exit))
  handle_exit bus cpu v s (mmio_access phys_addr dat len is_write) =
      mmio_served (handle_mmio device bus cpu v s phys_addr dat len is_write)

  -- The guest runs, and `hvGetVcpuRegisters` copies its registers.
  unfoldable pub after_entry :
      Bus → ℕ → Spawn → (Vcpu → Regs × KvmExit) → Option Vcpu → Option Round
  unfolding handle_exit
  after_entry bus cpu s guest none = none
  after_entry bus cpu s guest (some v) =
      let (regs, exit) = guest v in
      handle_exit (change (λ u. record u { regs = regs }) cpu bus) cpu (record v { regs = regs }) s
        exit

  -- What a round does before it enters the guest: the registers are handed over if they are new,
  -- and a waiting interrupt is injected.
  unfoldable pub before_entry : Bus → ℕ → Vcpu → Bus
  before_entry bus cpu v = record bus {
    hv = (check_and_send kvm_interrupt (update_vcpu bus.hv cpu clean) cpu (clean v)).0;
  }

  -- One round of the loop of `hvRunVcpu`, by the CPU `cpu`.
  unfoldable pub run_round : Bus → ℕ → Spawn → (Vcpu → Regs × KvmExit) → Option Round
  unfolding before_entry after_entry
  run_round bus cpu s guest = elim (vcpu_at bus.hv cpu) [
    | none ↦ none
    | some v ↦
        after_entry (before_entry bus cpu v) cpu s guest (vcpu_at (before_entry bus cpu v).hv cpu)
  ]
