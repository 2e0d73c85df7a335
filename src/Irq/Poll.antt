-- ===== src/Irq/Poll.antt =====
-- `checkAndSendInterrupt`, which a CPU's loop calls before each entry into the guest.
use dc2021f_ooows_public.Base.{
  ℕ, ◌-◌, ◌≡◌, refl, sym, ap, ◌∙◌, Bool, true, false, Option, none, some, List, [], ◌∷◌, arith, inl,
  inr, Bool-cases, ◌==◌, if◌then◌else◌,
}
use dc2021f_ooows_public.Machine.{Ret, ok, failed, Vcpu, IoApic, Hv, update_vcpu}
use dc2021f_ooows_public.Irq.{
  take_first, dequeue_interrupt, have_interrupts, send_interrupt, window_request, send_dequeued,
  check_and_send,
}
use dc2021f_ooows_public.Irq.Queue.{IsCounted, dequeue-IsCounted}
use dc2021f_ooows_public.Irq.Send.{injections, send-Delivered, send-Refused}

abbrev pub rest_of : List ℕ → List ℕ
rest_of [] = []
rest_of (irq ∷ rest) = rest

update-ioapic : (hv : Hv) (i : ℕ) (f : Vcpu → Vcpu) → (update_vcpu hv i f).ioapic ≡ hv.ioapic
unfolding update_vcpu
update-ioapic hv i f = ground arith

dequeue-rest :
    {a : IoApic} → IsCounted a → (dequeue_interrupt a).0.interrupt_queue ≡ rest_of a.interrupt_queue
unfolding dequeue_interrupt
dequeue-rest {a} q = ground arith

-- A queue with a first entry gives that entry.
dequeue-first :
    {a : IoApic} {irq : ℕ} {rest : List ℕ}
    → IsCounted a
    → a.interrupt_queue ≡ irq ∷ rest
    → dequeue_interrupt a
      ≡ (record a { nr_pending = a.nr_pending - 1; interrupt_queue = rest }, some irq)
unfolding dequeue_interrupt
dequeue-first {a} q e = ground arith

module _ (kvm_interrupt : ℕ → ℕ → Bool) where
  send-ioapic : (hv : Hv) (irq : ℕ) → (send_interrupt kvm_interrupt hv irq).0.ioapic ≡ hv.ioapic
  send-ioapic hv irq = by_result (send_interrupt kvm_interrupt hv irq).1 refl
    where
      by_result :
          (r : Ret)
          → (send_interrupt kvm_interrupt hv irq).1 ≡ r
          → (send_interrupt kvm_interrupt hv irq).0.ioapic ≡ hv.ioapic
      by_result ok e =
          (send-Delivered kvm_interrupt hv irq
            (λ i. ((send_interrupt kvm_interrupt hv irq).0, e i))).1.2.ioapic
      by_result failed e =
          (send-Refused kvm_interrupt hv irq
            (λ i. ((send_interrupt kvm_interrupt hv irq).0, e i))).ioapic

  sent-queue : (hv : Hv) (r : IoApic × Option ℕ) → (send_dequeued kvm_interrupt hv r).0.ioapic ≡ r.0
  unfolding send_dequeued
  sent-queue hv (a, none) = refl
  sent-queue hv (a, some irq) = send-ioapic (record hv { ioapic = a }) irq

  poll-ioapic :
      (hv : Hv) (cpu : ℕ) (v : Vcpu)
      → (check_and_send kvm_interrupt hv cpu v).0.ioapic ≡ (
          if v.comm.ready_for_interrupt_injection
          then (dequeue_interrupt hv.ioapic).0
          else hv.ioapic)
  unfolding check_and_send have_interrupts dequeue_interrupt
  poll-ioapic hv cpu v = ground (
    arith,
    sent-queue hv (take_first hv.ioapic hv.ioapic.interrupt_queue),
    update-ioapic hv cpu (window_request true),
    update-ioapic hv cpu (window_request false),
  )

  -- A poll takes the oldest interrupt from the queue when the guest can take one, and leaves the
  -- queue alone when it cannot; either way the count stays the length.
  pub poll-IsCounted :
      (hv : Hv) (cpu : ℕ) (v : Vcpu)
      → IsCounted hv.ioapic
      → let hv' = (check_and_send kvm_interrupt hv cpu v).0 in
        IsCounted hv'.ioapic
        × (hv'.ioapic.interrupt_queue ≡ (
            if v.comm.ready_for_interrupt_injection
            then rest_of hv.ioapic.interrupt_queue
            else hv.ioapic.interrupt_queue))
  poll-IsCounted hv cpu v q = elim (Bool-cases v.comm.ready_for_interrupt_injection) [
    | inl ready ↦ rw (poll-ioapic hv cpu v, ready) (dequeue-IsCounted q, dequeue-rest q)
    | inr waits ↦ rw (poll-ioapic hv cpu v, waits) (q, refl)
  ]

  -- An interrupt that a poll takes from the queue and cannot deliver is lost: the poll reports
  -- success, nothing is injected, and the interrupt no longer waits.
  pub poll_loses :
      (hv : Hv) (cpu : ℕ) (v : Vcpu) {irq : ℕ} {rest : List ℕ}
      → IsCounted hv.ioapic
      → hv.ioapic.interrupt_queue ≡ irq ∷ rest
      → v.comm.ready_for_interrupt_injection ≡ true
      → (send_interrupt kvm_interrupt
          (record hv { ioapic = (dequeue_interrupt hv.ioapic).0 })
          irq).1
        ≡ failed
      → let (hv', r) = check_and_send kvm_interrupt hv cpu v in
        (r ≡ ok)
        × (injections hv'.events ≡ injections hv.events)
        × (hv'.ioapic.interrupt_queue ≡ rest)
  unfolding check_and_send have_interrupts send_dequeued
  poll_loses hv cpu v {irq} {rest} q e ready refused =
      let first = dequeue-first q e in
      let waiting : (hv.ioapic.nr_pending == 0) ≡ false = ground arith in
      let a : IoApic = record hv.ioapic {
        nr_pending = hv.ioapic.nr_pending - 1;
        interrupt_queue = rest;
      } in
      let sent : (send_interrupt kvm_interrupt (record hv { ioapic = a }) irq).1 ≡ failed =
        ap
          (λ (r : IoApic × Option ℕ).
            (send_interrupt kvm_interrupt (record hv { ioapic = r.0 }) irq).1)
          (sym first)
        ∙ refused in
      let r =
        send-Refused kvm_interrupt (record hv { ioapic = a }) irq
          (λ i. ((send_interrupt kvm_interrupt (record hv { ioapic = a }) irq).0, sent i)) in
      rw (waiting, ready, first) (refl, r.injected, ap (λ (b : IoApic). b.interrupt_queue) r.ioapic)
