-- ===== src/Apic.antt =====
-- The register side of apic.c: which addresses the local APIC and the I/O APIC answer, and what
-- a guest's reads and writes of them do. An address is a `uint64_t`, a register a `uint32_t`.
pub mod Local
pub mod Registers
mod Tests
use dc2021f_ooows_public.Base.{
  ℕ, ◌+◌, ◌-◌, ◌*◌, ◌/◌, ◌%◌, ◌^◌, Bool, true, not, ◌&&◌, ◌||◌, Option, none, some, ltb, leb, ◌==◌,
  if◌then◌else◌, get_or, set,
}
use dc2021f_ooows_public.Base.Bits.{clear_bit}
use dc2021f_ooows_public.Machine.{
  CpuState, running, Vcpu, Hv, wake_cpu, vcpu_at, put_vcpu, emit, update_vcpu, nr_max_ioapic_irqs,
}

-- `PAGE_SIZE`, `PADDR_IOAPIC` and `IOAPIC_OFF_REDTBL` of inc/apic.h
abbrev pub page_size : ℕ
page_size = 0x1000

abbrev pub paddr_ioapic : ℕ
paddr_ioapic = 0xfec00000

abbrev pub ioapic_off_redtbl : ℕ
ioapic_off_redtbl = 8

-- The mask `MSR_IA32_APICBASE_BASE` drops the low 12 bits of the 32-bit register.
abbrev pub lapic_base : Vcpu → ℕ
lapic_base v = v.regs.apicbase - v.regs.apicbase % page_size

unfoldable pub lapic_access : Vcpu → ℕ → Bool
lapic_access v phys_addr = leb (lapic_base v) phys_addr && ltb phys_addr (lapic_base v + page_size)

unfoldable pub ioapic_access : ℕ → Bool
ioapic_access phys_addr =
    leb paddr_ioapic phys_addr && leb phys_addr (paddr_ioapic + 4 * (nr_max_ioapic_irqs - 1))

unfoldable pub apic_access : Vcpu → ℕ → Bool
apic_access v phys_addr = lapic_access v phys_addr || ioapic_access phys_addr

-- The CPU as `lapicDoSipi` leaves it: it runs from `vector & ~0x3`.
abbrev pub started : Vcpu → ℕ → Vcpu
started v vector = record v {
  state = running;
  regs = record v.regs { eip = vector - vector % 4 };
  dirty = true;
}

-- By the state of the CPU that is named: one that runs is left alone.
unfoldable pub sipi_to : CpuState → Hv → ℕ → Vcpu → ℕ → Hv
sipi_to running hv cpuid target vector = hv
sipi_to _ hv cpuid target vector = emit (wake_cpu cpuid) (put_vcpu hv cpuid (started target vector))

-- `vector & 0x3` names the CPU; one that is absent is passed over.
unfoldable pub lapic_do_sipi : Hv → ℕ → Hv
unfolding sipi_to
lapic_do_sipi hv vector =
    let cpuid = vector % 4 in
    elim (vcpu_at hv cpuid) [
      | none ↦ hv
      | some target ↦ sipi_to target.state hv cpuid target vector
    ]

-- `isr &= ~(1<<(vector&0x1f))`
abbrev pub end_of_interrupt : ℕ → Vcpu → Vcpu
end_of_interrupt vector v = record v { isr = clear_bit v.isr (vector % 32) }

-- The offset within the page is `phys_addr & 0xfff`; 4 is `LAPIC_OFF_IPI` and 8 `LAPIC_OFF_EOI`.
unfoldable pub lapic_mmio_write : Hv → ℕ → ℕ → ℕ → Hv
lapic_mmio_write hv cpu phys_addr dat =
    let offset = phys_addr % 0x1000 in
    let vector = dat % 2 ^ 32 in
    if offset == 4
    then lapic_do_sipi hv vector
    else if offset == 8
    then update_vcpu hv cpu (end_of_interrupt vector)
    else hv

-- 0 is `LAPIC_OFF_ID`; any other register reads 0.
unfoldable pub lapic_mmio_read : Vcpu → ℕ → ℕ
lapic_mmio_read v phys_addr = if phys_addr % 0x1000 == 0 then v.id else 0

-- A write answers 0. What is not a dword changes nothing and answers 0.
unfoldable pub lapic_mmio : Hv → ℕ → Vcpu → ℕ → ℕ → ℕ → Bool → Hv × ℕ
lapic_mmio hv cpu v phys_addr dat len is_write =
    if not (len == 4)
    then (hv, 0)
    else if is_write
    then (lapic_mmio_write hv cpu phys_addr dat, 0)
    else (hv, lapic_mmio_read v phys_addr)

unfoldable pub redtbl_access : ℕ → Bool
redtbl_access phys_addr =
    leb (paddr_ioapic + ioapic_off_redtbl) phys_addr
    && leb phys_addr (paddr_ioapic + ioapic_off_redtbl + 4 * (nr_max_ioapic_irqs - 1))

-- `none` is the failed `assert`, which ends the process. The callers have tested
-- `redtbl_access`, so the subtraction does not go below 0.
unfoldable pub redtbl_idx : ℕ → Option ℕ
redtbl_idx phys_addr =
    let idx = (phys_addr - paddr_ioapic - ioapic_off_redtbl) / 4 in
    if ltb idx nr_max_ioapic_irqs then some idx else none

infixl 5 ◌>>=◌
abbrev pub ◌>>=◌ {ℓ κ} : {A : Type ℓ} {B : Type κ} → Option A → (A → Option B) → Option B
none >>= f = none
some a >>= f = f a

-- `irq_redir_table[idx] = entry`
abbrev pub set_redir : Hv → ℕ → ℕ → Hv
set_redir hv idx entry = record hv {
  ioapic = record hv.ioapic { irq_redir_table = set hv.ioapic.irq_redir_table idx entry };
}

unfoldable pub ioapic_mmio_write : Hv → ℕ → ℕ → Option Hv
ioapic_mmio_write hv phys_addr dat =
    if redtbl_access phys_addr
    then (do idx ← redtbl_idx phys_addr; some (set_redir hv idx (dat % 2 ^ 32)))
    else some hv

-- 0 is `IOAPIC_OFF_ID` and 4 `IOAPIC_OFF_MAX_IRQS`.
unfoldable pub ioapic_mmio_read : Hv → ℕ → Option ℕ
ioapic_mmio_read hv phys_addr =
    let offset = phys_addr - paddr_ioapic in
    if redtbl_access phys_addr
    then (do idx ← redtbl_idx phys_addr; some (get_or hv.ioapic.irq_redir_table idx 0))
    else if offset == 0
    then some 0x4f4f4f
    else if offset == 4
    then some nr_max_ioapic_irqs
    else some 0

unfoldable pub ioapic_mmio : Hv → ℕ → ℕ → ℕ → Bool → Option (Hv × ℕ)
ioapic_mmio hv phys_addr dat len is_write =
    if not (len == 4)
    then some (hv, 0)
    else if is_write
    then (do hv' ← ioapic_mmio_write hv phys_addr dat; some (hv', 0))
    else (do value ← ioapic_mmio_read hv phys_addr; some (hv, value))

-- `*((uint32_t *)data) = value` on a little-endian 64-bit buffer
abbrev pub store_low32 : ℕ → ℕ → ℕ
store_low32 dat value = dat - dat % 2 ^ 32 + value

-- A read gets its value into the low half of the buffer, which is returned with the machine.
unfoldable pub answer : Bool → ℕ → Hv × ℕ → Hv × ℕ
answer is_write dat (hv, value) = (hv, if is_write then dat else store_low32 dat value)

-- `apicMmio`, called by the CPU `cpu`, which is `v`. Its result is always 0. `none` is an abort.
unfoldable pub apic_mmio : Hv → ℕ → Vcpu → ℕ → ℕ → ℕ → Bool → Option (Hv × ℕ)
unfolding answer
apic_mmio hv cpu v phys_addr dat len is_write =
    if not (len == 4)
    then some (hv, dat)
    else if lapic_access v phys_addr
    then some (answer is_write dat (lapic_mmio hv cpu v phys_addr dat len is_write))
    else if ioapic_access phys_addr
    then (do r ← ioapic_mmio hv phys_addr dat len is_write; some (answer is_write dat r))
    else some (answer is_write dat (hv, 0))
