-- ===== src/Apic/Tests.antt =====
-- The theorems on the APIC registers at a concrete machine.
use dc2021f_ooows_public.Base.{ℕ, ◌≡◌, refl, true, some}
use dc2021f_ooows_public.Machine.{running, Vcpu, Hv}
use dc2021f_ooows_public.Samples.{cpu, machine}
use dc2021f_ooows_public.Apic.{
  redtbl_access, redtbl_idx, set_redir, ioapic_mmio_write, ioapic_mmio_read, apic_mmio,
}
use dc2021f_ooows_public.Apic.Registers.{apic_mmio-total, read-write}

abbrev boot_cpu : Vcpu
boot_cpu = cpu 0 running true

apic_mmio-total_example :
    (r : Hv × ℕ) × (apic_mmio machine 0 boot_cpu 0xfec00040 0x10024 4 true ≡ some r)
apic_mmio-total_example = apic_mmio-total machine 0 boot_cpu 0xfec00040 0x10024 4 true

-- Entry 3 is at offset 8 + 12.
read-write_example : ioapic_mmio_read (set_redir machine 3 0x20025) 0xfec00014 ≡ some 0x20025
unfolding ioapic_mmio_write redtbl_access redtbl_idx
read-write_example =
    read-write machine 0xfec00014 0xfec00014 0x20025 {hv' = set_redir machine 3 0x20025} refl refl
      refl
