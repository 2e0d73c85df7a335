-- ===== src/Irq/Service.antt =====
-- An interrupt's life: delivered, in service, ended by the guest's write of the EOI register.
use dc2021f_ooows_public.Base.{
  ℕ, ◌%◌, ◌^◌, ◌<◌, ◌≡◌, ◌≢◌, refl, sym, ap, ◌∙◌, Bool, true, false, some, arith, inl, inr, ◌⊎◌,
  get_or, List, [], ◌∷◌, ◌==◌, ==_iff, Bool-cases,
}
use dc2021f_ooows_public.Base.Bits.{
  test_bit, set_bit, clear_bit, test_bit-set_bit, test_bit-set_self, test_bit-clear_self,
}
use dc2021f_ooows_public.Machine.{
  running, not_started, Ret, ok, failed, Vcpu, IoApic, Hv, vcpu_at, put_vcpu,
}
use dc2021f_ooows_public.Machine.Laws.{vcpu_at-put_self, update-put}
use dc2021f_ooows_public.Apic.{lapic_mmio_write, end_of_interrupt}
use dc2021f_ooows_public.Irq.{entry_vector, entry_dest, redir_entry, send_interrupt}
use dc2021f_ooows_public.Irq.Send.{
  isr_of, CpusKept, Delivered, send-Delivered, send-Refused, send-accepts,
}

Ret-cases : (r : Ret) → (r ≡ ok) ⊎ (r ≡ failed)
Ret-cases ok = inl refl
Ret-cases failed = inr refl

-- The machine after the CPU `cpu` has written `dat` to its EOI register.
eoi_write :
    (hv : Hv) (cpu phys_addr dat : ℕ) {v : Vcpu}
    → phys_addr % 0x1000 ≡ 8
    → vcpu_at hv cpu ≡ some v
    → lapic_mmio_write hv cpu phys_addr dat
      ≡ put_vcpu hv cpu (record v { isr = clear_bit v.isr (dat % 2 ^ 32 % 32) })
unfolding lapic_mmio_write
eoi_write hv cpu phys_addr dat at h = rw at (update-put hv cpu (end_of_interrupt (dat % 2 ^ 32)) h)

same_entry : (hv hv' : Hv) (i : ℕ) → hv'.ioapic ≡ hv.ioapic → redir_entry hv' i ≡ redir_entry hv i
same_entry hv hv' i e = ap (λ (a : IoApic). get_or a.irq_redir_table i 0) e

-- Interrupts that are sent one after the other, each with what the host answers to it.
unfoldable pub sends : Hv → List ((ℕ → ℕ → Bool) × ℕ) → Hv
sends hv [] = hv
sends hv ((kvm_interrupt, irq) ∷ more) = sends (send_interrupt kvm_interrupt hv irq).0 more

-- What a sequence of them leaves as it was.
record SendsKept (hv hv' : Hv) : Type 0 where
  cpus : CpusKept hv hv'
  ioapic : hv'.ioapic ≡ hv.ioapic
  nvcpus : hv'.nvcpus ≡ hv.nvcpus

set_bit-keeps : (w j k : ℕ) → test_bit w k ≡ true → test_bit (set_bit w j) k ≡ true
set_bit-keeps w j k h = ground (arith, test_bit-set_bit w j k)

Delivered-CpusKept :
    {kvm_interrupt : ℕ → ℕ → Bool} {hv hv' : Hv} {irq vector dest : ℕ} {v : Vcpu}
    → vcpu_at hv dest ≡ some v
    → Delivered kvm_interrupt hv irq vector dest v hv'
    → CpusKept hv hv'
Delivered-CpusKept {hv = hv} {hv' = hv'} {irq = irq} {dest = dest} {v = v} there d c u at n =
    elim (Bool-cases (c == dest)) [
      | inl same ↦
          let e : c ≡ dest = (==_iff c dest).0 same in
          let eq : some u ≡ some v = sym at ∙ ap (vcpu_at hv) e ∙ there in
          let u' : Vcpu = record v { state = running; isr = set_bit v.isr irq } in
          (
            u',
            ap (vcpu_at hv') e ∙ d.after,
            λ m. cc m,
            λ k busy.
                set_bit-keeps v.isr irq k (ap (λ r. test_bit r k) (sym (ap isr_of eq)) ∙ busy),
          )
      | inr other ↦ (u, d.others c (λ e. ground arith) ∙ at, n, λ k busy. busy)
    ]

send-SendsKept :
    (kvm_interrupt : ℕ → ℕ → Bool) (hv : Hv) (irq : ℕ)
    → SendsKept hv (send_interrupt kvm_interrupt hv irq).0
send-SendsKept kvm_interrupt hv irq = elim (Ret-cases (send_interrupt kvm_interrupt hv irq).1) [
  | inl sent ↦
      let (_, (v, there, d)) =
        send-Delivered kvm_interrupt hv irq
          (λ i. ((send_interrupt kvm_interrupt hv irq).0, sent i)) in
      record { cpus = Delivered-CpusKept there d; ioapic = d.ioapic; nvcpus = d.nvcpus }
  | inr refused ↦
      let r =
        send-Refused kvm_interrupt hv irq
          (λ i. ((send_interrupt kvm_interrupt hv irq).0, refused i)) in
      record { cpus = r.cpus; ioapic = r.ioapic; nvcpus = r.nvcpus }
]

-- The interrupt's redirection entry names a CPU that is there and started and has it in service.
record InService (hv : Hv) (irq dest : ℕ) : Type 0 where
  within : dest < hv.nvcpus
  cpu : Vcpu
  there : vcpu_at hv dest ≡ some cpu
  started : cpu.state ≢ not_started
  busy : test_bit cpu.isr (irq % 32) ≡ true

SendsKept-InService :
    {hv hv' : Hv} {irq dest : ℕ} → SendsKept hv hv' → InService hv irq dest → InService hv' irq dest
SendsKept-InService {irq = irq} {dest = dest} k s =
    let (v, there, started, busy) = k.cpus dest s.cpu s.there s.started in
    record {
      within = omega (arith, k.nvcpus, s.within);
      cpu = v;
      there = there;
      started = started;
      busy = busy (irq % 32) s.busy;
    }

sends-InService :
    (more : List ((ℕ → ℕ → Bool) × ℕ)) (hv : Hv) (irq dest : ℕ)
    → InService hv irq dest
    → InService (sends hv more) irq dest × ((sends hv more).ioapic ≡ hv.ioapic)
unfolding sends
sends-InService [] hv irq dest s = (s, refl)
sends-InService ((kvm_interrupt, other) ∷ more) hv irq dest s =
    let k = send-SendsKept kvm_interrupt hv other in
    let (s', e) =
      sends-InService more (send_interrupt kvm_interrupt hv other).0 irq dest
        (SendsKept-InService k s) in
    (s', e ∙ k.ioapic)

module _ (kvm_interrupt : ℕ → ℕ → Bool) (hv : Hv) (irq : ℕ) {hv' : Hv} where
  -- A delivered interrupt is in service at its destination after any others have been sent.
  sent-InService :
      (more : List ((ℕ → ℕ → Bool) × ℕ))
      → send_interrupt kvm_interrupt hv irq ≡ (hv', ok)
      → let dest = entry_dest (redir_entry hv (irq % 32)) in
        InService (sends hv' more) irq dest × ((sends hv' more).ioapic ≡ hv.ioapic)
  sent-InService more sent =
      let (within, (v, there, d)) = send-Delivered kvm_interrupt hv irq sent in
      let v' : Vcpu = record v { state = running; isr = set_bit v.isr (irq % 32) } in
      let (s, e) = sends-InService more hv' irq (entry_dest (redir_entry hv (irq % 32))) (record {
        within = omega (arith, d.nvcpus, within);
        cpu = v';
        there = d.after;
        started = λ m. cc m;
        busy = test_bit-set_self v.isr (irq % 32);
      }) in
      (s, e ∙ d.ioapic)

  -- After an interrupt has been delivered it is refused, whatever the host would answer, as long as
  -- its redirection entry stays and no CPU writes its EOI register: also when any other interrupts
  -- have been sent in between, delivered or not.
  pub send_again :
      (more : List ((ℕ → ℕ → Bool) × ℕ)) (again : ℕ → ℕ → Bool)
      → send_interrupt kvm_interrupt hv irq ≡ (hv', ok)
      → (send_interrupt again (sends hv' more) irq).1 ≡ failed
  send_again more again sent =
      let hv2 : Hv = sends hv' more in
      let (s, e) = sent-InService more sent in
      elim (Ret-cases (send_interrupt again hv2 irq).1) [
        | inr refused ↦ refused
        | inl twice ↦
            let (_, (u, there, d)) =
              send-Delivered again hv2 irq (λ i. ((send_interrupt again hv2 irq).0, twice i)) in
            let entry = same_entry hv hv2 (irq % 32) e in
            let one : some u ≡ some s.cpu =
              sym there ∙ ap (λ k. vcpu_at hv2 (entry_dest k)) entry ∙ s.there in
            let busy : test_bit u.isr (irq % 32) ≡ true =
              ap (λ w. test_bit w (irq % 32)) (ap isr_of one) ∙ s.busy in
            absurd (cc (busy, d.idle))
      ]

  -- Once the CPU that has the interrupt in service writes its number to the EOI register, the
  -- interrupt is delivered again by the unchanged redirection entry, if the host accepts its vector
  -- then; this also holds when any other interrupts have been sent in between.
  pub send_after_eoi :
      (more : List ((ℕ → ℕ → Bool) × ℕ)) (again : ℕ → ℕ → Bool) (phys_addr dat : ℕ)
      → phys_addr % 0x1000 ≡ 8
      → dat % 2 ^ 32 % 32 ≡ irq % 32
      → ((fd : ℕ) → again fd (entry_vector (redir_entry hv (irq % 32))) ≡ true)
      → send_interrupt kvm_interrupt hv irq ≡ (hv', ok)
      → let dest = entry_dest (redir_entry hv (irq % 32)) in
        (send_interrupt again (lapic_mmio_write (sends hv' more) dest phys_addr dat) irq).1 ≡ ok
  send_after_eoi more again phys_addr dat at same accepts sent =
      let hv2 : Hv = sends hv' more in
      let (s, e) = sent-InService more sent in
      let dest = entry_dest (redir_entry hv (irq % 32)) in
      let v2 : Vcpu = record s.cpu { isr = clear_bit s.cpu.isr (dat % 2 ^ 32 % 32) } in
      let idle : test_bit v2.isr (irq % 32) ≡ false =
        ap (λ k. test_bit (clear_bit s.cpu.isr k) (irq % 32)) same
        ∙ test_bit-clear_self s.cpu.isr (irq % 32) (omega arith) in
      let entry = same_entry hv hv2 (irq % 32) e in
      rw (eoi_write hv2 dest phys_addr dat at s.there) (
        send-accepts again (put_vcpu hv2 dest v2) irq {v = v2}
          (omega (arith, ap entry_dest entry, s.within))
          (ap (λ k. vcpu_at (put_vcpu hv2 dest v2) (entry_dest k)) entry
            ∙ vcpu_at-put_self hv2 dest v2 s.there)
          s.started idle
          (ap (λ k. again s.cpu.driver_fd (entry_vector k)) entry ∙ accepts s.cpu.driver_fd))
