-- ===== src/Apic/Local.antt =====
-- The local APIC's two registers that a guest can write: start-up requests and ends of interrupt.
use mathlib.Core.Option
use dc2021f_ooows_public.Base.{
  ℕ, ◌/◌, ◌%◌, ◌^◌, ◌<◌, ◌≡◌, ◌≢◌, sym, ap, ◌∙◌, false, ◌&&◌, some, arith, inl, inr, ◌==◌, ==_iff,
  if◌then◌else◌, Bool-cases, Option-cases,
}
use dc2021f_ooows_public.Base.Bits.{test_bit, test_bit-clear_bit}
use dc2021f_ooows_public.Machine.{CpuState, not_started, running, halted, Vcpu, Hv, vcpu_at}
use dc2021f_ooows_public.Machine.Laws.{
  vcpu_at-put_self, vcpu_at-put_ne, vcpu_at-put, vcpu_at-same, update-put,
}
use dc2021f_ooows_public.Apic.{
  lapic_access, ioapic_access, started, sipi_to, lapic_do_sipi, lapic_mmio_write, end_of_interrupt,
}

-- What a start-up request makes of the CPU that it names.
abbrev pub boot : ℕ → CpuState → Vcpu → Vcpu
boot vector running v = v
boot vector _ v = started v vector

sipi_to-boot :
    (hv : Hv) (i vector : ℕ) (t : Vcpu) (s : CpuState)
    → vcpu_at hv i ≡ some t
    → (c : ℕ)
    → vcpu_at (sipi_to s hv i t vector) c
      ≡ (if c == i then some (boot vector s t) else vcpu_at hv c)
unfolding sipi_to
sipi_to-boot hv i vector t not_started h c = vcpu_at-put hv i c (started t vector) h
sipi_to-boot hv i vector t running h c = vcpu_at-same hv i c h
sipi_to-boot hv i vector t halted h c = vcpu_at-put hv i c (started t vector) h

-- A start-up request with `vector` changes one CPU at most, that of the low two bits: if it is
-- there and does not run, it runs from `vector` less those bits, with its registers to be
-- loaded; a CPU that runs is left alone.
pub sipi_lem :
    (hv : Hv) (vector c : ℕ)
    → vcpu_at (lapic_do_sipi hv vector) c ≡ (
        if c == vector % 4
        then Option.map (λ t. boot vector t.state t) (vcpu_at hv (vector % 4))
        else vcpu_at hv c)
unfolding lapic_do_sipi
sipi_lem hv vector c = elim (Option-cases (vcpu_at hv (vector % 4))) [
  | inl absent ↦
      rw (absent, lapic_do_sipi)
        (elim (Bool-cases (c == vector % 4)) [
          | inl same ↦ rw same (ap (vcpu_at hv) ((==_iff _ _).0 same) ∙ absent)
          | inr other ↦ rw other
        ])
  | inr (t, there) ↦
      rw (there, lapic_do_sipi) (sipi_to-boot hv (vector % 4) vector t t.state there c)
]

-- A write to the EOI register clears one bit of the writing CPU's in-service register, that of
-- the written number modulo 32, keeps the other bits and keeps all other CPUs.
pub eoi_lem :
    (hv : Hv) (cpu phys_addr dat : ℕ) {v : Vcpu}
    → phys_addr % 0x1000 ≡ 8
    → vcpu_at hv cpu ≡ some v
    → let hv' = lapic_mmio_write hv cpu phys_addr dat in
      let line = dat % 2 ^ 32 % 32 in
      ((v' : Vcpu) × (vcpu_at hv' cpu ≡ some v')
        × ((j : ℕ) → j < 32 → test_bit v'.isr j ≡ (if j == line then false else test_bit v.isr j)))
      × ((c : ℕ) → c ≢ cpu → vcpu_at hv' c ≡ vcpu_at hv c)
unfolding lapic_mmio_write
eoi_lem hv cpu phys_addr dat {v} at h =
    let v' = end_of_interrupt (dat % 2 ^ 32) v in
    rw at (
      rw (update-put hv cpu (end_of_interrupt (dat % 2 ^ 32)) h) (
        (
          v',
          vcpu_at-put_self hv cpu v' h,
          λ j small. test_bit-clear_bit v.isr (dat % 2 ^ 32 % 32) j (omega arith) small,
        ),
        λ c ne. vcpu_at-put_ne hv cpu c v' (λ e. ne (sym e)),
      ))

-- With its base register as the reset leaves it, the page of a local APIC and the addresses of
-- the I/O APIC do not meet: no access is for both.
pub apics-disjoint :
    (v : Vcpu) (phys_addr : ℕ)
    → v.regs.apicbase / 0x1000 ≡ 0xfee00
    → (lapic_access v phys_addr && ioapic_access phys_addr) ≡ false
unfolding lapic_access ioapic_access
apics-disjoint v phys_addr h = ground arith
