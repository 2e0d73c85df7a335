-- ===== src/Irq.antt =====
-- The interrupt side of apic.c: the queue of device interrupts that the I/O APIC thread fills,
-- and how a CPU's loop takes one from it and delivers it.
pub mod Poll
pub mod Queue
pub mod Send
pub mod Service
mod Tests
use dc2021f_ooows_public.Base.{
  ℕ, ◌+◌, ◌-◌, ◌/◌, ◌%◌, ◌^◌, Bool, true, false, not, Option, none, some, List, [], ◌∷◌, leb, ◌==◌,
  if◌then◌else◌, get_or, replicate,
}
use dc2021f_ooows_public.Base.Bits.{test_bit, set_bit}
use dc2021f_ooows_public.Machine.{
  CpuState, running, not_started, halted, Ret, ok, failed, Vcpu, IoApic, Hv, wake_cpu, inject,
  vcpu_at, put_vcpu, emit, update_vcpu, nr_max_ioapic_irqs,
}

abbrev pub queue_max_interrupts : ℕ
queue_max_interrupts = 256

-- `initIoApic`: whether `calloc` and `socketpair` succeed is given.
unfoldable pub init_ioapic : (calloc_ok socketpair_ok : Bool) → Option IoApic
init_ioapic false _ = none
init_ioapic true false = none
init_ioapic true true = some (record {
  max_irqs = nr_max_ioapic_irqs;
  irq_redir_table = replicate nr_max_ioapic_irqs 0;
  nr_pending = 0;
  interrupt_queue = [];
})

-- The walk `while (cur->next) cur = cur->next; cur->next = entry`, from a node and what follows.
unfoldable pub link_last : ℕ → List ℕ → ℕ → List ℕ
link_last cur [] entry = cur ∷ entry ∷ []
link_last cur (next ∷ rest) entry = cur ∷ link_last next rest entry

abbrev pub enqueue : List ℕ → ℕ → List ℕ
enqueue [] entry = entry ∷ []
enqueue (cur ∷ rest) entry = link_last cur rest entry

-- `queueInterrupt`; `calloc_ok` says whether the entry could be allocated.
unfoldable pub queue_interrupt : IoApic → Bool → ℕ → IoApic × Ret
queue_interrupt ioapic calloc_ok irq =
    if leb queue_max_interrupts ioapic.nr_pending
    then (ioapic, failed)
    else if not calloc_ok
    then (ioapic, failed)
    else (
      record ioapic {
        nr_pending = (ioapic.nr_pending + 1) % 2 ^ 32;
        interrupt_queue = enqueue ioapic.interrupt_queue irq;
      },
      ok,
    )

-- The unlinking of the first entry; `nr_pending` goes down with it, and is not 0 there.
abbrev pub take_first : IoApic → List ℕ → IoApic × Option ℕ
take_first ioapic [] = (ioapic, none)
take_first ioapic (irq ∷ rest) =
    (record ioapic { nr_pending = ioapic.nr_pending - 1; interrupt_queue = rest }, some irq)

-- `dequeueInterrupt`; `none` is the null pointer.
unfoldable pub dequeue_interrupt : IoApic → IoApic × Option ℕ
dequeue_interrupt ioapic =
    if ioapic.nr_pending == 0 then (ioapic, none) else take_first ioapic ioapic.interrupt_queue

unfoldable pub have_interrupts : IoApic → Bool
have_interrupts ioapic = not (ioapic.nr_pending == 0)

-- `ioApicThread`: each byte that the devices' socket yields is queued, until the socket ends.
-- Each comes with whether `calloc` succeeds for it.
unfoldable pub ioapic_thread : IoApic → List (Bool × ℕ) → IoApic
ioapic_thread ioapic [] = ioapic
ioapic_thread ioapic ((calloc_ok, irq) ∷ more) =
    ioapic_thread (queue_interrupt ioapic calloc_ok irq).0 more

-- A redirection entry's fields: `vector` is the low half, `dest_cpu` the high one.
abbrev pub entry_vector : ℕ → ℕ
entry_vector entry = entry % 2 ^ 16

abbrev pub entry_dest : ℕ → ℕ
entry_dest entry = entry / 2 ^ 16

abbrev pub redir_entry : Hv → ℕ → ℕ
redir_entry hv irq = get_or hv.ioapic.irq_redir_table irq 0

-- A halted CPU is woken before its in-service register is looked at.
unfoldable pub wake : CpuState → Hv → ℕ → Vcpu → Hv × Vcpu
wake halted hv dest v =
    let v' = record v { state = running } in (emit (wake_cpu dest) (put_vcpu hv dest v'), v')
wake _ hv dest v = (hv, v)

-- The flag in the CPU's shared page by which an exit is asked for once the guest can take an
-- interrupt.
abbrev pub window_request : Bool → Vcpu → Vcpu
window_request b v = record v { comm = record v.comm { request_interrupt_window = b } }

-- What the `KVM_INTERRUPT` ioctl of the host answers, given a CPU's descriptor and a vector: whether
-- it succeeds. It depends on the host's state, so that another call has another function.
module _ (kvm_interrupt : ℕ → ℕ → Bool) where
  -- From the lock of the local APIC on: refuse an interrupt in service, inject, mark it.
  unfoldable pub deliver : ℕ → ℕ → ℕ → Hv × Vcpu → Hv × Ret
  deliver irq vector dest (hv, v) =
      if test_bit v.isr irq
      then (hv, failed)
      else if not (kvm_interrupt v.driver_fd vector)
      then (hv, failed)
      else (emit (inject dest vector) (put_vcpu hv dest (record v { isr = set_bit v.isr irq })), ok)

  -- By the CPU's state: one that was never started is not woken by a device.
  unfoldable pub send_to : CpuState → ℕ → ℕ → ℕ → Hv → Vcpu → Hv × Ret
  send_to not_started irq vector dest hv v = (hv, failed)
  send_to state irq vector dest hv v = deliver irq vector dest (wake state hv dest v)

  -- `ioApicSendInterrupt`; the interrupt's number is taken modulo 32.
  unfoldable pub send_interrupt : Hv → ℕ → Hv × Ret
  send_interrupt hv irq =
      let entry = redir_entry hv (irq % 32) in
      let dest = entry_dest entry in
      if leb hv.nvcpus dest then (hv, failed) else elim (vcpu_at hv dest) [
        | none ↦ (hv, failed)
        | some v ↦ send_to v.state (irq % 32) (entry_vector entry) dest hv v
      ]

  -- What is taken from the queue is sent, and freed whatever the result of sending.
  unfoldable pub send_dequeued : Hv → IoApic × Option ℕ → Hv × Ret
  send_dequeued hv (ioapic, none) = (record hv { ioapic = ioapic }, failed)
  send_dequeued hv (ioapic, some irq) = ((send_interrupt (record hv { ioapic = ioapic }) irq).0, ok)

  -- `checkAndSendInterrupt`, called by the CPU `cpu`, which is `v`.
  unfoldable pub check_and_send : Hv → ℕ → Vcpu → Hv × Ret
  unfolding send_dequeued
  check_and_send hv cpu v =
      let ready = v.comm.ready_for_interrupt_injection in
      if have_interrupts hv.ioapic
      then (if ready
          then send_dequeued hv (dequeue_interrupt hv.ioapic)
          else (update_vcpu hv cpu (window_request true), ok))
      else ((if ready then update_vcpu hv cpu (window_request false) else hv), ok)
