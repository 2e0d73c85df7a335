-- ===== src/Vga/Modes.antt =====
-- The modes of the VGA device: no sequence of requests makes it leave a buffer, and what a change
-- of mode shows.
use mathlib.Core.Path.{subst}
use dc2021f_ooows_public.Base.{
  ℕ, ◌+◌, ◌-◌, ◌*◌, ◌%◌, ◌^◌, ◌≤◌, ◌<◌, ◌≡◌, refl, ap, true, false, inl, inr, some, ltb, ◌==◌,
  arith, Bool-cases,
}
use dc2021f_ooows_public.Machine.{failed}
use dc2021f_ooows_public.Dispatch.{IoRequest, pio, mmio}
use dc2021f_ooows_public.Vga.{
  Vga, store, load, low_bytes, inside, sub_u32, host_vga_size, vga_mem_start, text_mem_start,
  vga_mode_text, vga_mode_video, vga_port_change_mode, mirror_write, mirror_read, vga_handle_mmio,
  vga_handle_pio, change_mode, text_write, handle_io, init_vga,
}
use dc2021f_ooows_public.Vga.Memory.{
  IsVga, Mirrored, plane_write-Written, Kept-IsVga, mirror-accepts, room-inside,
}

-- The request's size is one that the VMM sends.
abbrev pub IsSmall : IoRequest → Type 0
IsSmall (pio port direction size dat count) = Unit
IsSmall (mmio phys_addr dat len is_write) = len ≤ 8

change_mode-IsVga : (g : Vga) (direction dat : ℕ) → IsVga g → IsVga (change_mode g direction dat).0
unfolding change_mode
change_mode-IsVga g direction dat v = elim (Bool-cases (direction == 0)) [
  | inl back ↦ rw back v
  | inr out ↦ elim (Bool-cases (dat % 2 ^ 8 == vga_mode_video)) [
    | inl video ↦ rw (out, video) (inr (refl, refl))
    | inr not_video ↦ elim (Bool-cases (dat % 2 ^ 8 == vga_mode_text)) [
      | inl text ↦ rw (out, not_video, text) (inl (refl, refl))
      | inr bad ↦ rw (out, not_video, bad) v
    ]
  ]
]

mirror_write-IsVga :
    (g : Vga) (phys_addr dat len : ℕ)
    → IsVga g
    → len ≤ 8
    → (g' : Vga) × (mirror_write g phys_addr dat len ≡ some g') × IsVga g'
unfolding mirror_write
mirror_write-IsVga g phys_addr dat len v small =
    let offset : ℕ = sub_u32 phys_addr vga_mem_start in
    elim (Bool-cases (ltb offset (sub_u32 host_vga_size len))) [
      | inr outside ↦ (g, rw (outside, mirror_write), v)
      | inl room ↦
          let fits : inside host_vga_size offset len ≡ true =
            room-inside host_vga_size host_vga_size offset len (omega arith) (omega arith)
              (omega arith) small (ground arith) in
          (record g { mem = store len offset dat g.mem }, rw (room, fits, mirror_write), v)
    ]

mirror_read-total :
    (g : Vga) (phys_addr dat len : ℕ)
    → len ≤ 8
    → (n : ℕ) × (mirror_read g phys_addr dat len ≡ some n)
unfolding mirror_read
mirror_read-total g phys_addr dat len small =
    let offset : ℕ = sub_u32 phys_addr vga_mem_start in
    elim (Bool-cases (ltb offset (sub_u32 host_vga_size len))) [
      | inr outside ↦ (dat, rw (outside, mirror_read))
      | inl room ↦
          let fits : inside host_vga_size offset len ≡ true =
            room-inside host_vga_size host_vga_size offset len (omega arith) (omega arith)
              (omega arith) small (ground arith) in
          (dat - low_bytes len dat + load len offset g.mem, rw (room, fits, mirror_read))
    ]

-- One request of a size that the VMM sends, at any address and with any contents, is answered and
-- leaves the device in a mode with that mode's screen.
handle_io-IsVga :
    (g : Vga) (io : IoRequest)
    → IsVga g
    → IsSmall io
    → (g' : Vga) × (ack : ℕ) × (handle_io g io ≡ some (g', ack)) × IsVga g'
unfolding handle_io vga_handle_mmio vga_handle_pio
handle_io-IsVga g (pio port direction size dat count) v small =
    elim (Bool-cases (port == vga_port_change_mode)) [
      | inl mode ↦ (
        (change_mode g direction dat).0,
        (change_mode g direction dat).1,
        rw mode,
        change_mode-IsVga g direction dat v,
      )
      | inr unknown ↦ (g, 0, rw unknown, v)
    ]
handle_io-IsVga g (mmio phys_addr dat len false) v small =
    let (n, e) = mirror_read-total g phys_addr dat len small in (g, n % 2 ^ 32, rw e, v)
handle_io-IsVga g (mmio phys_addr dat len true) v small =
    let (g0, e, v0) = mirror_write-IsVga g phys_addr dat len v small in
    let (g', r, f, kept) = plane_write-Written g0 phys_addr dat len v0 small in
    (g', 0, rw (e, f), Kept-IsVga g0 g' kept v0)

-- The devices that requests make from a fresh one, with the sizes that the VMM sends.
pub data Reach : Vga → Type 0 where
  start : Reach init_vga
  request :
      {g g' : Vga} {ack : ℕ} (io : IoRequest)
      → IsSmall io
      → handle_io g io ≡ some (g', ack)
      → Reach g
      → Reach g'

Reach-IsVga : {g : Vga} → Reach g → IsVga g
Reach-IsVga start = inr (refl, refl)
Reach-IsVga (request {g} {g'} {ack} io small e r) =
    let (g2, ack2, f, v) = handle_io-IsVga g io (Reach-IsVga r) small in
    let same : g2 ≡ g' = cc in subst IsVga same v

-- However long the guest has used the device, any further request of at most 8 bytes, at any
-- address, is answered without leaving a buffer.
pub requests-answered :
    {g : Vga} (io : IoRequest)
    → Reach g
    → IsSmall io
    → (g' : Vga) × (ack : ℕ) × (handle_io g io ≡ some (g', ack)) × Reach g'
requests-answered {g} io r small =
    let (g', ack, e, v) = handle_io-IsVga g io (Reach-IsVga r) small in
    (g', ack, e, request io small e r)

-- The text plane has two bytes for each of its 2000 cells, but in text mode a write that ends
-- beyond the first 2000 bytes is only mirrored: the plane stays as it is, and the guest is told
-- nothing.
pub text_hidden :
    (g : Vga) (phys_addr dat len : ℕ)
    → g.mode ≡ vga_mode_text
    → g.width * g.height ≡ 2000
    → Mirrored phys_addr len
    → text_mem_start + 2000 ≤ phys_addr + len
    → vga_handle_mmio g phys_addr dat len true
      ≡ some (record g { mem = store len (phys_addr - vga_mem_start) dat g.mem }, 0, failed)
unfolding vga_handle_mmio mirror_write text_write
text_hidden g phys_addr dat len mode cells m behind =
    let (offset, room, fits) = mirror-accepts phys_addr len m in
    let below : phys_addr + len < vga_mem_start + host_vga_size = m.below in
    let small : len ≤ 8 = m.small in
    let text : (g.mode == vga_mode_text) ≡ true = ground arith in
    let out : ltb (sub_u32 phys_addr text_mem_start) (sub_u32 (g.width * g.height) len) ≡ false =
      not-shown (g.width * g.height) cells small behind below in
    rw (room, fits, mirror_write, text, out, text_write)
      (ap (λ o. some (record g { mem = store len o dat g.mem }, 0, failed)) offset)
  where
    not-shown :
        (c : ℕ)
        → c ≡ 2000
        → len ≤ 8
        → text_mem_start + 2000 ≤ phys_addr + len
        → phys_addr + len < vga_mem_start + host_vga_size
        → ltb (sub_u32 phys_addr text_mem_start) (sub_u32 c len) ≡ false
    not-shown c e small behind below =
        let far : sub_u32 c len ≤ sub_u32 phys_addr text_mem_start = omega arith in ground arith
