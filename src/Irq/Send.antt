-- ===== src/Irq/Send.antt =====
-- `ioApicSendInterrupt`: what a delivered and what a refused interrupt do to the machine.
use mathlib.Core.Path.{subst}
use dc2021f_ooows_public.Base.{
  ℕ, ◌%◌, ◌<◌, ◌≡◌, ◌≢◌, refl, sym, ap, ◌⊎◌, ◌∙◌, Bool, true, false, Option, none, some, List, [],
  ◌∷◌, arith, inl, inr, ==_iff, leb, ◌==◌, Bool-cases, Option-cases,
}
use dc2021f_ooows_public.Base.Bits.{test_bit, set_bit}
use dc2021f_ooows_public.Machine.{
  CpuState, running, not_started, halted, Ret, ok, failed, Vcpu, Hv, Event, wake_cpu, inject,
  vcpu_at, put_vcpu, emit,
}
use dc2021f_ooows_public.Machine.Laws.{vcpu_at-put_self, vcpu_at-put_ne}
use dc2021f_ooows_public.Irq.{
  entry_vector, entry_dest, redir_entry, wake, deliver, send_to, send_interrupt,
}

-- The injections among the events.
unfoldable pub injections : List Event → List Event
injections [] = []
injections (wake_cpu c ∷ es) = injections es
injections (inject c vector ∷ es) = inject c vector ∷ injections es

-- The events when a CPU in the given state has been woken, if it was halted.
unfoldable pub woken : CpuState → ℕ → List Event → List Event
woken halted dest es = wake_cpu dest ∷ es
woken _ dest es = es

-- The in-service register of a CPU, 0 where there is none.
abbrev pub isr_of : Option Vcpu → ℕ
isr_of none = 0
isr_of (some v) = v.isr

-- The state of a CPU, and of none.
abbrev pub state_of : Option Vcpu → CpuState
state_of none = not_started
state_of (some v) = v.state

-- Every started CPU is still there and started, and has in service what it had.
abbrev pub CpusKept : Hv → Hv → Type 0
CpusKept hv hv' =
    (c : ℕ) (v : Vcpu)
    → vcpu_at hv c ≡ some v
    → v.state ≢ not_started
    → (v' : Vcpu) × (vcpu_at hv' c ≡ some v')
      × (v'.state ≢ not_started)
      × ((k : ℕ) → test_bit v.isr k ≡ true → test_bit v'.isr k ≡ true)

pub isr_at : Hv → ℕ → ℕ
isr_at hv c = isr_of (vcpu_at hv c)

-- The machine and the CPU after `wake`.
record Woken (hv : Hv) (dest : ℕ) (v : Vcpu) (w : Hv × Vcpu) : Type 0 where
  present : vcpu_at w.0 dest ≡ some w.1
  isr : w.1.isr ≡ v.isr
  fd : w.1.driver_fd ≡ v.driver_fd
  runs : v.state ≢ not_started → w.1.state ≡ running
  whole : v.state ≢ not_started → w.1 ≡ record v { state = running }
  others : (c : ℕ) → c ≢ dest → vcpu_at w.0 c ≡ vcpu_at hv c
  ioapic : w.0.ioapic ≡ hv.ioapic
  nvcpus : w.0.nvcpus ≡ hv.nvcpus
  events : w.0.events ≡ woken v.state dest hv.events
  injected : injections w.0.events ≡ injections hv.events

wake-Woken :
    (hv : Hv) (dest : ℕ) (v : Vcpu) (s : CpuState)
    → v.state ≡ s
    → vcpu_at hv dest ≡ some v
    → Woken hv dest v (wake s hv dest v)
unfolding wake injections woken
wake-Woken hv dest v not_started e h = record {
  present = h;
  isr = refl;
  fd = refl;
  runs = λ n. absurd (n e);
  whole = λ n. absurd (n e);
  others = λ c n. refl;
  ioapic = refl;
  nvcpus = refl;
  events = ap (λ (t : CpuState). woken t dest hv.events) (sym e);
  injected = refl;
}
wake-Woken hv dest v running e h = record {
  present = h;
  isr = refl;
  fd = refl;
  runs = λ n. e;
  whole = λ n i. record v { state = e i };
  others = λ c n. refl;
  ioapic = refl;
  nvcpus = refl;
  events = ap (λ (t : CpuState). woken t dest hv.events) (sym e);
  injected = refl;
}
wake-Woken hv dest v halted e h = record {
  present = vcpu_at-put_self hv dest (record v { state = running }) h;
  isr = refl;
  fd = refl;
  runs = λ n. refl;
  whole = λ n. refl;
  others = λ c n. vcpu_at-put_ne hv dest c (record v { state = running }) (λ i. n (sym i));
  ioapic = refl;
  nvcpus = refl;
  events = ap (λ (t : CpuState). woken t dest hv.events) (sym e);
  injected = refl;
}

module _ (kvm_interrupt : ℕ → ℕ → Bool) where
  -- What a delivery of `irq` with `vector` to the CPU `dest`, which was `v`, leaves behind.
  pub record Delivered (hv : Hv) (irq vector dest : ℕ) (v : Vcpu) (hv' : Hv) : Type 0 where
    pub started : v.state ≢ not_started
    pub accepted : kvm_interrupt v.driver_fd vector ≡ true
    pub idle : test_bit v.isr irq ≡ false
    pub after : vcpu_at hv' dest ≡ some (record v { state = running; isr = set_bit v.isr irq })
    pub others : (c : ℕ) → c ≢ dest → vcpu_at hv' c ≡ vcpu_at hv c
    pub ioapic : hv'.ioapic ≡ hv.ioapic
    pub nvcpus : hv'.nvcpus ≡ hv.nvcpus
    pub events : hv'.events ≡ inject dest vector ∷ woken v.state dest hv.events

  -- The two branches of `deliver` by its result.
  deliver-ok :
      (irq vector dest : ℕ) (w : Hv × Vcpu) {hv' : Hv}
      → deliver kvm_interrupt irq vector dest w ≡ (hv', ok)
      → (test_bit w.1.isr irq ≡ false)
        × (kvm_interrupt w.1.driver_fd vector ≡ true)
        × (emit (inject dest vector) (put_vcpu w.0 dest (record w.1 { isr = set_bit w.1.isr irq }))
            ≡ hv')
  unfolding deliver
  deliver-ok irq vector dest (hv1, v1) e = ground arith

  deliver-failed :
      (irq vector dest : ℕ) (w : Hv × Vcpu) {hv' : Hv}
      → deliver kvm_interrupt irq vector dest w ≡ (hv', failed)
      → w.0 ≡ hv'
  unfolding deliver
  deliver-failed irq vector dest (hv1, v1) e = ground arith

  deliver-Delivered :
      (irq vector dest : ℕ) {hv : Hv} {v : Vcpu} (w : Hv × Vcpu) {hv' : Hv}
      → Woken hv dest v w
      → v.state ≢ not_started
      → deliver kvm_interrupt irq vector dest w ≡ (hv', ok)
      → Delivered hv irq vector dest v hv'
  deliver-Delivered irq vector dest {hv} {v} (hv1, v1) after_wake n e =
      let (idle, accepted, after) = deliver-ok irq vector dest (hv1, v1) e in
      let v2 : Vcpu = record v1 { isr = set_bit v1.isr irq } in
      subst (Delivered hv irq vector dest v) after (record {
        started = n;
        accepted = ap (λ fd. kvm_interrupt fd vector) (sym after_wake.fd) ∙ accepted;
        idle = ap (λ i. test_bit i irq) (sym after_wake.isr) ∙ idle;
        after =
            vcpu_at-put_self hv1 dest v2 after_wake.present
            ∙ ap (λ (u : Vcpu). some (record u { isr = set_bit u.isr irq })) (after_wake.whole n);
        others = λ c ne. vcpu_at-put_ne hv1 dest c v2 (λ i. ne (sym i)) ∙ after_wake.others c ne;
        ioapic = after_wake.ioapic;
        nvcpus = after_wake.nvcpus;
        events = ap (λ es. inject dest vector ∷ es) after_wake.events;
      })

  send_to-Delivered :
      (s : CpuState) (irq vector dest : ℕ) {hv : Hv} (v : Vcpu) {hv' : Hv}
      → v.state ≡ s
      → vcpu_at hv dest ≡ some v
      → send_to kvm_interrupt s irq vector dest hv v ≡ (hv', ok)
      → Delivered hv irq vector dest v hv'
  unfolding send_to
  send_to-Delivered not_started irq vector dest v es h e = cc
  send_to-Delivered running irq vector dest {hv} v es h e =
      deliver-Delivered irq vector dest _ (wake-Woken hv dest v running es h) (cc) e
  send_to-Delivered halted irq vector dest {hv} v es h e =
      deliver-Delivered irq vector dest _ (wake-Woken hv dest v halted es h) (cc) e

  send-inversion :
      (hv : Hv) (irq : ℕ) {hv' : Hv} {r : Ret}
      → send_interrupt kvm_interrupt hv irq ≡ (hv', r)
      → let entry = redir_entry hv (irq % 32) in
        ((r ≡ failed) × (hv ≡ hv'))
        ⊎ ((v : Vcpu) × (entry_dest entry < hv.nvcpus)
            × (vcpu_at hv (entry_dest entry) ≡ some v)
            × (send_to kvm_interrupt v.state (irq % 32) (entry_vector entry) (entry_dest entry) hv v
                ≡ (hv', r)))
  unfolding send_interrupt
  send-inversion hv irq e =
      elim (Option-cases (vcpu_at hv (entry_dest (redir_entry hv (irq % 32))))) [
        | inl missing ↦ inl (ground arith)
        | inr (v, there) ↦
            elim (Bool-cases (leb hv.nvcpus (entry_dest (redir_entry hv (irq % 32))))) [
              | inl beyond ↦ inl (ground arith)
              | inr within ↦ inr (v, ground arith, there, ground arith)
            ]
      ]

  -- What an interrupt that the I/O APIC could send has done: the redirection entry names an
  -- existing CPU that was started and did not have the interrupt in service, and the host accepted
  -- the entry's vector for it. Of that CPU only two fields have changed: it runs, and it has the
  -- interrupt in service beside those that it had. It has been signalled if it was halted, then the
  -- vector has been injected once, and nothing else was asked of the host. The I/O APIC, the number
  -- of CPUs and all other CPUs are as before.
  pub send-Delivered :
      (hv : Hv) (irq : ℕ) {hv' : Hv}
      → send_interrupt kvm_interrupt hv irq ≡ (hv', ok)
      → let entry = redir_entry hv (irq % 32) in
        (entry_dest entry < hv.nvcpus)
        × ((v : Vcpu) × (vcpu_at hv (entry_dest entry) ≡ some v)
            × Delivered hv (irq % 32) (entry_vector entry) (entry_dest entry) v hv')
  send-Delivered hv irq e = elim (send-inversion hv irq e) [
    | inl refused ↦ absurd (cc)
    | inr (v, within, there, sent) ↦
        (within, (v, there, send_to-Delivered v.state _ _ _ v refl there sent))
  ]

  -- What a refusal leaves: at most a halted destination has been woken.
  pub record Refused (hv hv' : Hv) : Type 0 where
    pub cpus : CpusKept hv hv'
    pub nvcpus : hv'.nvcpus ≡ hv.nvcpus
    pub isr : (c : ℕ) → isr_at hv' c ≡ isr_at hv c
    pub ioapic : hv'.ioapic ≡ hv.ioapic
    pub injected : injections hv'.events ≡ injections hv.events

  unchanged : (hv : Hv) → Refused hv hv
  unchanged hv = record {
    cpus = λ c v at n. (v, at, n, λ k busy. busy);
    nvcpus = refl;
    isr = λ c. refl;
    ioapic = refl;
    injected = refl;
  }

  Woken-CpusKept :
      {hv : Hv} {dest : ℕ} {v : Vcpu} {w : Hv × Vcpu}
      → vcpu_at hv dest ≡ some v
      → Woken hv dest v w
      → CpusKept hv w.0
  Woken-CpusKept {hv = hv} {dest = dest} {v = v} {w = w} h after_wake c u at n =
      elim (Bool-cases (c == dest)) [
        | inl same ↦
            let e : c ≡ dest = (==_iff c dest).0 same in
            let eq : some u ≡ some v = sym at ∙ ap (vcpu_at hv) e ∙ h in
            let one : u.state ≡ v.state = ap state_of eq in
            let runs : w.1.state ≡ running = after_wake.runs (λ m. n (one ∙ m)) in
            (
              w.1,
              ap (vcpu_at w.0) e ∙ after_wake.present,
              λ m. cc (runs, m),
              λ k busy. ap (λ r. test_bit r k) (after_wake.isr ∙ sym (ap isr_of eq)) ∙ busy,
            )
        | inr other ↦ (u, after_wake.others c (λ e. ground arith) ∙ at, n, λ k busy. busy)
      ]

  Woken-Refused :
      {hv : Hv} {dest : ℕ} {v : Vcpu} {w : Hv × Vcpu}
      → vcpu_at hv dest ≡ some v
      → Woken hv dest v w
      → Refused hv w.0
  unfolding isr_at
  Woken-Refused {hv} {dest} {v} {w} h woken = record {
    cpus = Woken-CpusKept h woken;
    nvcpus = woken.nvcpus;
    isr = λ c. elim (Bool-cases (c == dest)) [
      | inl same ↦
          let e : c ≡ dest = (==_iff c dest).0 same in
          rw e (ap isr_of woken.present ∙ woken.isr ∙ sym (ap isr_of h))
      | inr other ↦ ap isr_of (woken.others c (λ e. ground arith))
    ];
    ioapic = woken.ioapic;
    injected = woken.injected;
  }

  send_to-Refused :
      (s : CpuState) (irq vector dest : ℕ) {hv : Hv} (v : Vcpu) {hv' : Hv}
      → v.state ≡ s
      → vcpu_at hv dest ≡ some v
      → send_to kvm_interrupt s irq vector dest hv v ≡ (hv', failed)
      → Refused hv hv'
  unfolding send_to
  send_to-Refused not_started irq vector dest {hv} v {hv'} es h e =
      let same : hv ≡ hv' = ap (λ (r : Hv × Ret). r.0) e in subst (Refused hv) same (unchanged hv)
  send_to-Refused running irq vector dest {hv} v es h e =
      subst (Refused hv) (deliver-failed irq vector dest _ e)
        (Woken-Refused h (wake-Woken hv dest v running es h))
  send_to-Refused halted irq vector dest {hv} v es h e =
      subst (Refused hv) (deliver-failed irq vector dest _ e)
        (Woken-Refused h (wake-Woken hv dest v halted es h))

  pub send-Refused :
      (hv : Hv) (irq : ℕ) {hv' : Hv}
      → send_interrupt kvm_interrupt hv irq ≡ (hv', failed)
      → Refused hv hv'
  send-Refused hv irq {hv'} e = elim (send-inversion hv irq e) [
    | inl (_, same) ↦ subst (Refused hv) same (unchanged hv)
    | inr (v, within, there, sent) ↦ send_to-Refused v.state _ _ _ v refl there sent
  ]

  deliver-accepts :
      (irq vector dest : ℕ) {hv : Hv} {v : Vcpu} (w : Hv × Vcpu)
      → Woken hv dest v w
      → test_bit v.isr irq ≡ false
      → kvm_interrupt v.driver_fd vector ≡ true
      → (deliver kvm_interrupt irq vector dest w).1 ≡ ok
  unfolding deliver
  deliver-accepts irq vector dest {v = v} (hv1, v1) woken idle accepted =
      rw (woken.isr, woken.fd, idle, accepted)

  send_to-accepts :
      (s : CpuState) (irq vector dest : ℕ) (hv : Hv) (v : Vcpu)
      → v.state ≡ s
      → v.state ≢ not_started
      → vcpu_at hv dest ≡ some v
      → test_bit v.isr irq ≡ false
      → kvm_interrupt v.driver_fd vector ≡ true
      → (send_to kvm_interrupt s irq vector dest hv v).1 ≡ ok
  unfolding send_to
  send_to-accepts not_started irq vector dest hv v es n h idle accepted = absurd (n es)
  send_to-accepts running irq vector dest hv v es n h idle accepted =
      deliver-accepts irq vector dest _ (wake-Woken hv dest v running es h) idle accepted
  send_to-accepts halted irq vector dest hv v es n h idle accepted =
      deliver-accepts irq vector dest _ (wake-Woken hv dest v halted es h) idle accepted

  -- An interrupt is delivered whenever its redirection entry names an existing CPU that was
  -- started and does not have it in service, and the host accepts the vector.
  pub send-accepts :
      (hv : Hv) (irq : ℕ) {v : Vcpu}
      → let entry = redir_entry hv (irq % 32) in
        entry_dest entry < hv.nvcpus
        → vcpu_at hv (entry_dest entry) ≡ some v
        → v.state ≢ not_started
        → test_bit v.isr (irq % 32) ≡ false
        → kvm_interrupt v.driver_fd (entry_vector entry) ≡ true
        → (send_interrupt kvm_interrupt hv irq).1 ≡ ok
  unfolding send_interrupt
  send-accepts hv irq {v} within there n idle accepted =
      let here : leb hv.nvcpus (entry_dest (redir_entry hv (irq % 32))) ≡ false = ground arith in
      rw (here, there) (send_to-accepts v.state _ _ _ hv v refl n there idle accepted)
