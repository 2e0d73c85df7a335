-- ===== src/Apic/Registers.antt =====
-- The registers of the I/O APIC as a guest sees them.
use dc2021f_ooows_public.Base.{
  ℕ, ◌-◌, ◌/◌, ◌%◌, ◌^◌, ◌≤◌, ◌<◌, ◌≡◌, sym, ap, ◌∙◌, Bool, true, false, ◌&&◌, some, arith, inl,
  inr, ◌==◌, if◌then◌else◌, get_or, set, length, Bool-cases, ==_iff,
}
use mathlib.Core.Path.{subst}
use dc2021f_ooows_public.Machine.{Hv, IoApic, Vcpu, update_vcpu}
use dc2021f_ooows_public.Machine.Laws.{get_or-set_self, get_or-set_ne}
use dc2021f_ooows_public.Apic.{
  paddr_ioapic, ioapic_access, redtbl_access, redtbl_idx, set_redir, ioapic_mmio_write,
  ioapic_mmio_read, ioapic_mmio, lapic_access, lapic_mmio, answer, apic_mmio, lapic_do_sipi,
  lapic_mmio_write,
}

-- The `assert` of `redtblIdx` holds wherever it is called, and the index is within the table.
redtbl_idx-some :
    (phys_addr : ℕ)
    → redtbl_access phys_addr ≡ true
    → (redtbl_idx phys_addr ≡ some ((phys_addr - 0xfec00008) / 4))
      × ((phys_addr - 0xfec00008) / 4 < 32)
unfolding redtbl_access redtbl_idx
redtbl_idx-some phys_addr h = ground arith

write-total :
    (hv : Hv) (phys_addr dat : ℕ) → (hv' : Hv) × (ioapic_mmio_write hv phys_addr dat ≡ some hv')
unfolding ioapic_mmio_write
write-total hv phys_addr dat = elim (Bool-cases (redtbl_access phys_addr)) [
  | inl within ↦ (
    set_redir hv ((phys_addr - 0xfec00008) / 4) (dat % 2 ^ 32),
    rw (within, (redtbl_idx-some phys_addr within).0),
  )
  | inr without ↦ (hv, rw without)
]

read-total : (hv : Hv) (phys_addr : ℕ) → (n : ℕ) × (ioapic_mmio_read hv phys_addr ≡ some n)
unfolding ioapic_mmio_read
read-total hv phys_addr = elim (Bool-cases (redtbl_access phys_addr)) [
  | inl within ↦ (
    get_or hv.ioapic.irq_redir_table ((phys_addr - 0xfec00008) / 4) 0,
    rw (within, (redtbl_idx-some phys_addr within).0),
  )
  | inr without ↦ (
    if phys_addr - paddr_ioapic == 0
        then 0x4f4f4f
        else if phys_addr - paddr_ioapic == 4
        then 32
        else 0,
    ground arith,
  )
]

mmio-total :
    (hv : Hv) (phys_addr dat len : ℕ) (is_write : Bool)
    → (r : Hv × ℕ) × (ioapic_mmio hv phys_addr dat len is_write ≡ some r)
unfolding ioapic_mmio
mmio-total hv phys_addr dat len true = elim (Bool-cases (len == 4)) [
  | inr odd ↦ ((hv, 0), rw odd)
  | inl dword ↦ let (hv', e) = write-total hv phys_addr dat in ((hv', 0), rw (dword, e))
]
mmio-total hv phys_addr dat len false = elim (Bool-cases (len == 4)) [
  | inr odd ↦ ((hv, 0), rw odd)
  | inl dword ↦ let (n, e) = read-total hv phys_addr in ((hv, n), rw (dword, e))
]

-- The I/O APIC answers every access: no read or write of any address and size runs into the
-- `assert`.
pub apic_mmio-total :
    (hv : Hv) (cpu : ℕ) (v : Vcpu) (phys_addr dat len : ℕ) (is_write : Bool)
    → (r : Hv × ℕ) × (apic_mmio hv cpu v phys_addr dat len is_write ≡ some r)
unfolding apic_mmio
apic_mmio-total hv cpu v phys_addr dat len is_write = elim (Bool-cases (len == 4)) [
  | inr odd ↦ ((hv, dat), rw odd)
  | inl dword ↦ elim (Bool-cases (lapic_access v phys_addr)) [
    | inl local ↦
        (answer is_write dat (lapic_mmio hv cpu v phys_addr dat len is_write), rw (dword, local))
    | inr other ↦ elim (Bool-cases (ioapic_access phys_addr)) [
      | inr neither ↦ (answer is_write dat (hv, 0), rw (dword, other, neither))
      | inl io ↦
          let (r, e) = mmio-total hv phys_addr dat len is_write in
          (answer is_write dat r, rw (dword, other, io, e))
    ]
  ]
]

abbrev redir_idx : ℕ → ℕ
redir_idx phys_addr = (phys_addr - 0xfec00008) / 4

write-redir :
    (hv : Hv) (phys_addr dat : ℕ)
    → redtbl_access phys_addr ≡ true
    → ioapic_mmio_write hv phys_addr dat ≡ some (set_redir hv (redir_idx phys_addr) (dat % 2 ^ 32))
unfolding ioapic_mmio_write
write-redir hv phys_addr dat within = rw (within, (redtbl_idx-some phys_addr within).0)

read-redir :
    (hv : Hv) (phys_addr : ℕ)
    → redtbl_access phys_addr ≡ true
    → ioapic_mmio_read hv phys_addr
      ≡ some (get_or hv.ioapic.irq_redir_table (redir_idx phys_addr) 0)
unfolding ioapic_mmio_read
read-redir hv phys_addr within = rw (within, (redtbl_idx-some phys_addr within).0)

read-other :
    (hv hv' : Hv) (phys_addr : ℕ)
    → redtbl_access phys_addr ≡ false
    → ioapic_mmio_read hv' phys_addr ≡ ioapic_mmio_read hv phys_addr
unfolding ioapic_mmio_read
read-other hv hv' phys_addr without = rw without

-- The redirection table is a register file: after a write at an address of the table a read at
-- any address gives the written 32 bits if it falls on the same entry, and what it gave before
-- if it does not.
pub read-write :
    (hv : Hv) (a b dat : ℕ) {hv' : Hv}
    → length hv.ioapic.irq_redir_table ≡ 32
    → redtbl_access a ≡ true
    → ioapic_mmio_write hv a dat ≡ some hv'
    → ioapic_mmio_read hv' b ≡ (
        if redtbl_access b && (redir_idx b == redir_idx a)
        then some (dat % 2 ^ 32)
        else ioapic_mmio_read hv b)
read-write hv a b dat {hv'} full within e =
    subst
      (λ h. ioapic_mmio_read h b ≡ (
        if redtbl_access b && (redir_idx b == redir_idx a)
        then some (dat % 2 ^ 32)
        else ioapic_mmio_read hv b))
      stored
      (elim (Bool-cases (redtbl_access b)) [
        | inr without ↦ rw without (read-other hv _ b without)
        | inl there ↦
            rw
              (
                read-redir (set_redir hv (redir_idx a) (dat % 2 ^ 32)) b there,
                read-redir hv b there,
                there,
              )
              (elim (Bool-cases (redir_idx b == redir_idx a)) [
                | inl same ↦ rw same (
                    ap some (
                      ap
                        (λ k.
                          get_or (set hv.ioapic.irq_redir_table (redir_idx a) (dat % 2 ^ 32)) k 0)
                        ((==_iff _ _).0 same)
                      ∙ get_or-set_self hv.ioapic.irq_redir_table (redir_idx a) (dat % 2 ^ 32) 0
                          (omega (arith, (redtbl_idx-some a within).1))))
                | inr other ↦ rw other (
                    ap some (
                      get_or-set_ne hv.ioapic.irq_redir_table (redir_idx a) (redir_idx b)
                        (dat % 2 ^ 32) 0 (ground arith)))
              ])
      ])
  where
    stored : set_redir hv (redir_idx a) (dat % 2 ^ 32) ≡ hv'
    stored = cc (write-redir hv a dat within)

lapic-ioapic :
    (hv : Hv) (cpu : ℕ) (v : Vcpu) (phys_addr dat len : ℕ) (is_write : Bool)
    → (lapic_mmio hv cpu v phys_addr dat len is_write).0.ioapic ≡ hv.ioapic
unfolding lapic_mmio lapic_mmio_write lapic_do_sipi update_vcpu
lapic-ioapic hv cpu v phys_addr dat len is_write = ground arith

-- The addresses that the I/O APIC answers end at entry 29.
redir_idx-lt :
    (phys_addr : ℕ)
    → ioapic_access phys_addr ≡ true
    → redtbl_access phys_addr ≡ true
    → redir_idx phys_addr < 30
unfolding ioapic_access redtbl_access
redir_idx-lt phys_addr h k = ground arith

write-unreachable :
    (hv : Hv) (phys_addr dat i : ℕ) {hv' : Hv}
    → ioapic_access phys_addr ≡ true
    → 30 ≤ i
    → ioapic_mmio_write hv phys_addr dat ≡ some hv'
    → get_or hv'.ioapic.irq_redir_table i 0 ≡ get_or hv.ioapic.irq_redir_table i 0
unfolding ioapic_mmio_write
write-unreachable hv phys_addr dat i {hv'} io h e = elim (Bool-cases (redtbl_access phys_addr)) [
  | inl within ↦
      let low = redir_idx-lt phys_addr io within in
      let stored : set_redir hv (redir_idx phys_addr) (dat % 2 ^ 32) ≡ hv' =
        cc (write-redir hv phys_addr dat within) in
      ap (λ (k : Hv). get_or k.ioapic.irq_redir_table i 0) (sym stored)
      ∙ get_or-set_ne hv.ioapic.irq_redir_table (redir_idx phys_addr) i (dat % 2 ^ 32) 0
          (omega arith)
  | inr without ↦
      let same : hv' ≡ hv = ground arith in
      ap (λ (k : Hv). get_or k.ioapic.irq_redir_table i 0) same
]

mmio-unreachable :
    (hv : Hv) (phys_addr dat len : ℕ) (is_write : Bool) (i : ℕ) {r : Hv × ℕ}
    → ioapic_access phys_addr ≡ true
    → 30 ≤ i
    → ioapic_mmio hv phys_addr dat len is_write ≡ some r
    → get_or r.0.ioapic.irq_redir_table i 0 ≡ get_or hv.ioapic.irq_redir_table i 0
unfolding ioapic_mmio
mmio-unreachable hv phys_addr dat len is_write i io h e =
    let (hv1, w) = write-total hv phys_addr dat in
    let (n, r) = read-total hv phys_addr in
    ground (arith, write-unreachable hv phys_addr dat i {hv' = hv1} io h w)

-- The I/O APIC answers addresses up to the 32nd dword of its page only, though its table ends
-- two dwords later: no access whatever changes the entries 30 and 31.
pub redir-unreachable :
    (hv : Hv) (cpu : ℕ) (v : Vcpu) (phys_addr dat len : ℕ) (is_write : Bool) (i : ℕ) {hv' : Hv}
    {d : ℕ}
    → 30 ≤ i
    → apic_mmio hv cpu v phys_addr dat len is_write ≡ some (hv', d)
    → get_or hv'.ioapic.irq_redir_table i 0 ≡ get_or hv.ioapic.irq_redir_table i 0
unfolding apic_mmio answer
redir-unreachable hv cpu v phys_addr dat len is_write i {hv'} h e =
    let (r, m) = mmio-total hv phys_addr dat len is_write in
    ground (
      arith,
      λ (io : ioapic_access phys_addr ≡ true).
          mmio-unreachable hv phys_addr dat len is_write i {r = r} io h m,
      ap (λ (a : IoApic). get_or a.irq_redir_table i 0)
          (lapic-ioapic hv cpu v phys_addr dat len is_write),
    )
