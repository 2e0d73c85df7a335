-- ===== src/Machine.antt =====
-- The structures of inc/vmm.h: virtual CPUs, the I/O APIC and the hypervisor record that holds
-- them. There is one machine in a process, so `g_hv`, `vcpu->hv` and the global `g_nvcpus` are
-- one value, and a `vcpu_t *` is the index of the CPU in `hv->vcpus`. A mutex is held for the
-- whole of each operation that takes it, so an operation is one step.
pub mod Laws
use dc2021f_ooows_public.Base.{ℕ, Bool, Option, none, some, List, ◌∷◌, get_or, set}

-- `NR_MAX_VCPUS` and `NR_MAX_IOAPIC_IRQS`
abbrev pub nr_max_vcpus : ℕ
nr_max_vcpus = 4

abbrev pub nr_max_ioapic_irqs : ℕ
nr_max_ioapic_irqs = 32

-- `STATE_NOT_STARTED`, `STATE_RUNNING` and `STATE_HALTED`
pub data CpuState : Type 0 where
  not_started running halted : CpuState

-- The results 0 and -1 of a C function.
pub data Ret : Type 0 where
  ok failed : Ret

-- `segment_t`
pub record Segment : Type 0 where
  pub selector : ℕ
  pub base : ℕ
  pub limit : ℕ
  pub flags : ℕ

-- `x86_cpu_regs_t`; `gpr`, `control` and `segment` have 8, 5 and 6 entries.
pub record Regs : Type 0 where
  pub gpr : List ℕ
  pub eip : ℕ
  pub eflags : ℕ
  pub control : List ℕ
  pub a20_mask : ℕ
  pub segment : List Segment
  pub ldt : Segment
  pub tr : Segment
  pub gdt : Segment
  pub idt : Segment
  pub tpr : ℕ
  pub apicbase : ℕ
  pub efer : ℕ

-- The two fields of the shared `struct kvm_run` that interrupt delivery uses.
pub record KvmRun : Type 0 where
  pub ready_for_interrupt_injection : Bool
  pub request_interrupt_window : Bool

-- `vcpu_t`; `isr` is `lapic.isr`.
pub record Vcpu : Type 0 where
  pub id : ℕ
  pub driver_fd : ℕ
  pub dirty : Bool
  pub state : CpuState
  pub comm : KvmRun
  pub regs : Regs
  pub isr : ℕ

-- `ioapic_t`; the linked list `interrupt_queue` is the list of its `irq` fields.
pub record IoApic : Type 0 where
  pub max_irqs : ℕ
  pub irq_redir_table : List ℕ
  pub nr_pending : ℕ
  pub interrupt_queue : List ℕ

-- What a step asks of the host: `pthread_cond_signal` on a CPU's `startcpu`, and a
-- `KVM_INTERRUPT` with a vector on a CPU that the host accepted.
pub data Event : Type 0 where
  wake_cpu : ℕ → Event
  inject : ℕ → ℕ → Event

-- `hv_t` with `g_nvcpus`, and the events so far, newest first.
pub record Hv : Type 0 where
  pub vcpus : List (Option Vcpu)
  pub nvcpus : ℕ
  pub ioapic : IoApic
  pub events : List Event

-- `hv->vcpus[i]`
abbrev pub vcpu_at : Hv → ℕ → Option Vcpu
vcpu_at hv i = get_or hv.vcpus i none

abbrev pub put_vcpu : Hv → ℕ → Vcpu → Hv
put_vcpu hv i v = record hv { vcpus = set hv.vcpus i (some v) }

abbrev pub emit : Event → Hv → Hv
emit e hv = record hv { events = e ∷ hv.events }

-- An assignment through a `vcpu_t *`.
unfoldable pub update_vcpu : Hv → ℕ → (Vcpu → Vcpu) → Hv
update_vcpu hv i f = elim (vcpu_at hv i) [ none ↦ hv | some v ↦ put_vcpu hv i (f v) ]
