-- ===== src/Run/Reset.antt =====
-- The first instruction of a CPU, and its APIC.
use dc2021f_ooows_public.Base.{
  ℕ, ◌+◌, ◌/◌, ◌≤◌, ◌<◌, ◌≡◌, refl, ap, ◌∙◌, Bool, true, false, ◌&&◌, arith, get_or,
}
use dc2021f_ooows_public.Machine.{Regs, Vcpu}
use dc2021f_ooows_public.Apic.{lapic_access, ioapic_access}
use dc2021f_ooows_public.Apic.Local.{apics-disjoint}
use dc2021f_ooows_public.Run.{x86_cpu_reset, code_segment, reset_apicbase}

-- `GUEST_BIOS_PADDR`, and where in the mapping the file is read to.
abbrev pub bios_start : ℕ
bios_start = 0xc0000 + 0x3c000

-- A CPU after its reset fetches its first instruction inside the 16 KiB of the BIOS that are read
-- from the file, and has an APIC whose registers overlap none of the I/O APIC's.
pub reset_lem :
    (bsp : Bool) (v : Vcpu) (phys_addr : ℕ)
    → v.regs ≡ x86_cpu_reset bsp
    → (bios_start ≤ (get_or v.regs.segment 1 code_segment).base + v.regs.eip)
      × ((get_or v.regs.segment 1 code_segment).base + v.regs.eip < bios_start + 0x4000)
      × ((lapic_access v phys_addr && ioapic_access phys_addr) ≡ false)
unfolding x86_cpu_reset
reset_lem bsp v phys_addr e =
    let start : (get_or v.regs.segment 1 code_segment).base + v.regs.eip ≡ 0xffff0 =
      ap (λ (r : Regs). (get_or r.segment 1 code_segment).base + r.eip) e in
    let apic : v.regs.apicbase / 0x1000 ≡ 0xfee00 =
      ap (λ (r : Regs). r.apicbase / 0x1000) e ∙ reset_base bsp in
    (omega arith, omega arith, apics-disjoint v phys_addr apic)
  where
    reset_base : (b : Bool) → reset_apicbase b / 0x1000 ≡ 0xfee00
    reset_base true = refl
    reset_base false = refl
