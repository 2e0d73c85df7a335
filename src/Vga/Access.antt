-- ===== src/Vga/Access.antt =====
-- Accesses to the VGA device's memory: none leaves a buffer, and a write is read back.
use dc2021f_ooows_public.Base.{
  ℕ, ◌+◌, ◌-◌, ◌%◌, ◌^◌, ◌≤◌, ◌<◌, ◌≡◌, ap, sym, ◌∙◌, true, false, ◌⊎◌, inl, inr, some, arith,
}
use dc2021f_ooows_public.Machine.{Ret, ok}
use dc2021f_ooows_public.Vga.{
  Vga, store, load, low_bytes, sub_u32, vga_mem_start, after_mirror, mirror_write, mirror_read,
  vga_handle_mmio,
}
use dc2021f_ooows_public.Vga.Memory.{
  IsVga, Mirrored, plane_write-Written, Kept-IsVga, mirror-accepts, load-store, store-outside,
}

-- The device after a write has been mirrored, and what the plane of its mode makes of it.
after_mirror_lem :
    (g : Vga) (phys_addr dat len : ℕ)
    → IsVga g
    → len ≤ 8
    → (g' : Vga) × (r : Ret) × (after_mirror phys_addr dat len (some g) ≡ some (g', 0, r))
      × (g'.mem ≡ g.mem)
      × IsVga g'
after_mirror_lem g phys_addr dat len v small =
    let (g', r, e, kept) = plane_write-Written g phys_addr dat len v small in
    (g', r, rw e, kept.mem, Kept-IsVga g g' kept v)

-- A write to the mirrored memory stores its bytes there and is acknowledged.
write_lem :
    (g : Vga) (phys_addr dat len : ℕ)
    → IsVga g
    → Mirrored phys_addr len
    → (g' : Vga) × (r : Ret) × (vga_handle_mmio g phys_addr dat len true ≡ some (g', 0, r))
      × (g'.mem ≡ store len (phys_addr - vga_mem_start) dat g.mem)
      × IsVga g'
unfolding vga_handle_mmio mirror_write
write_lem g phys_addr dat len v m =
    let (offset, room, fits) = mirror-accepts phys_addr len m in
    let g0 : Vga = record g { mem = store len (sub_u32 phys_addr vga_mem_start) dat g.mem } in
    let (g', r, e, mem, v') = after_mirror_lem g0 phys_addr dat len v m.small in
    (g', r, rw (room, fits, mirror_write) e, mem ∙ ap (λ o. store len o dat g.mem) offset, v')

read_lem :
    (g : Vga) (phys_addr dat len : ℕ)
    → Mirrored phys_addr len
    → vga_handle_mmio g phys_addr dat len false
      ≡ some
          (g, (dat - low_bytes len dat + load len (phys_addr - vga_mem_start) g.mem) % 2 ^ 32, ok)
unfolding vga_handle_mmio mirror_read
read_lem g phys_addr dat len m =
    let (offset, room, fits) = mirror-accepts phys_addr len m in
    rw (room, fits, mirror_read)
      (ap (λ o. some (g, (dat - low_bytes len dat + load len o g.mem) % 2 ^ 32, ok)) offset)

low1 : (dat : ℕ) → low_bytes 1 dat ≡ dat % 2 ^ 8
unfolding low_bytes
low1 dat = omega arith

low2 : (dat : ℕ) → low_bytes 2 dat ≡ dat % 2 ^ 16
unfolding low_bytes
low2 dat = omega arith

low4 : (dat : ℕ) → low_bytes 4 dat ≡ dat % 2 ^ 32
unfolding low_bytes
low4 dat = omega arith

-- The sizes that the VMM asks for.
abbrev pub IsSize : ℕ → Type 0
IsSize len = (len ≡ 1) ⊎ ((len ≡ 2) ⊎ (len ≡ 4))

merge_low :
    (len rd dat : ℕ)
    → IsSize len
    → low_bytes len ((rd - low_bytes len rd + low_bytes len dat) % 2 ^ 32) ≡ low_bytes len dat
merge_low len rd dat (inl e) =
    rw (e, low1 rd, low1 dat, low1 ((rd - rd % 2 ^ 8 + dat % 2 ^ 8) % 2 ^ 32)) (omega arith)
merge_low len rd dat (inr (inl e)) =
    rw (e, low2 rd, low2 dat, low2 ((rd - rd % 2 ^ 16 + dat % 2 ^ 16) % 2 ^ 32)) (omega arith)
merge_low len rd dat (inr (inr e)) =
    rw (e, low4 rd, low4 dat, low4 ((rd - rd % 2 ^ 32 + dat % 2 ^ 32) % 2 ^ 32)) (omega arith)

-- Whatever its plane makes of it, a write of 1, 2 or 4 bytes to the device's memory that ends before
-- the memory's last byte is acknowledged, and a read of the same place then answers with those bytes.
pub write_read :
    (g : Vga) (phys_addr dat rd len : ℕ)
    → IsVga g
    → IsSize len
    → Mirrored phys_addr len
    → (g' : Vga) × (r : Ret) × (ack : ℕ) × (vga_handle_mmio g phys_addr dat len true
        ≡ some (g', 0, r))
      × (vga_handle_mmio g' phys_addr rd len false ≡ some (g', ack, ok))
      × (low_bytes len ack ≡ low_bytes len dat)
write_read g phys_addr dat rd len v size m =
    let (g', r, e, mem, v') = write_lem g phys_addr dat len v m in
    let offset : ℕ = phys_addr - vga_mem_start in
    let loaded : load len offset g'.mem ≡ low_bytes len dat =
      ap (load len offset) mem ∙ load-store len offset dat g.mem in
    (
      g',
      r,
      (rd - low_bytes len rd + load len offset g'.mem) % 2 ^ 32,
      e,
      read_lem g' phys_addr rd len m,
      ap (λ l. low_bytes len ((rd - low_bytes len rd + l) % 2 ^ 32)) loaded
          ∙ merge_low len rd dat size,
    )

-- A write changes what a read of another place answers only if the two overlap: every byte of the
-- memory outside the write is as before.
pub write_elsewhere :
    (g : Vga) (phys_addr dat len i : ℕ) {g' : Vga} {ack : ℕ} {r : Ret}
    → IsVga g
    → Mirrored phys_addr len
    → vga_handle_mmio g phys_addr dat len true ≡ some (g', ack, r)
    → (i < phys_addr - vga_mem_start) ⊎ (phys_addr - vga_mem_start + len ≤ i)
    → g'.mem i ≡ g.mem i
write_elsewhere g phys_addr dat len i {g'} {ack} {r} v m run apart =
    let (g2, r2, e, mem, v') = write_lem g phys_addr dat len v m in
    let same : g2 ≡ g' = cc in
    ap (λ (x : Vga). x.mem i) (sym same)
    ∙ ap (λ f. f i) mem
    ∙ store-outside len (phys_addr - vga_mem_start) dat g.mem i apart
