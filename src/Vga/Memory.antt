-- ===== src/Vga/Memory.antt =====
-- The VGA device's memory: what is written is read back, and nothing around it changes.
use dc2021f_ooows_public.Base.{
  ℕ, zero, suc, ◌+◌, ◌-◌, ◌*◌, ◌/◌, ◌%◌, ◌^◌, ◌≤◌, ◌<◌, ◌≡◌, refl, ◌∙◌, true, false, ◌⊎◌, inl, inr,
  Option, some, ltb, ◌==◌, arith, Bool-cases,
}
use dc2021f_ooows_public.Machine.{Ret, ok, failed}
use dc2021f_ooows_public.Vga.{
  Vga, store, load, low_bytes, inside, sub_u32, host_vga_size, vga_mem_start, plane_write,
  plane_room, send_update, video_plane_size_bytes, text_plane_size_bytes, text_mem_start,
  vga_mode_text, vga_mode_video, text_write, video_write,
}

-- A copy changes no byte before its first or behind its last.
pub store-outside :
    (len offset dat : ℕ) (mem : ℕ → ℕ) (i : ℕ)
    → (i < offset) ⊎ (offset + len ≤ i)
    → store len offset dat mem i ≡ mem i
unfolding store
store-outside zero offset dat mem i h = refl
store-outside (suc len) offset dat mem i h =
    let e : (i == offset) ≡ false = ground arith in
    rw e (store-outside len (suc offset) (dat / 256) mem i (ground arith))

store-first : (len offset dat : ℕ) (mem : ℕ → ℕ) → store (suc len) offset dat mem offset ≡ dat % 256
unfolding store
store-first len offset dat mem = let e : (offset == offset) ≡ true = ground arith in rw e

-- A load only sees the bytes that it covers.
load-agree :
    (len offset : ℕ) (m n : ℕ → ℕ)
    → ((i : ℕ) → offset ≤ i → m i ≡ n i)
    → load len offset m ≡ load len offset n
unfolding load
load-agree zero offset m n h = refl
load-agree (suc len) offset m n h =
    rw (h offset (omega arith), load-agree len (suc offset) m n (λ i k. h i (omega arith)))

store-next :
    (len offset dat : ℕ) (mem : ℕ → ℕ) (i : ℕ)
    → suc offset ≤ i
    → store (suc len) offset dat mem i ≡ store len (suc offset) (dat / 256) mem i
unfolding store
store-next len offset dat mem i h = let e : (i == offset) ≡ false = ground arith in rw e

-- The bytes that a copy wrote are the low bytes of the number.
pub load-store :
    (len offset dat : ℕ) (mem : ℕ → ℕ)
    → load len offset (store len offset dat mem) ≡ low_bytes len dat
unfolding load low_bytes
load-store zero offset dat mem = refl
load-store (suc len) offset dat mem =
    rw
      (
        store-first len offset dat mem,
        load-agree len (suc offset) (store (suc len) offset dat mem)
            (store len (suc offset) (dat / 256) mem) (λ i h. store-next len offset dat mem i h),
        load-store len (suc offset) (dat / 256) mem,
      )
      (omega arith)

-- The mode is one of the two, and the size of the screen is the mode's.
abbrev pub IsVga : Vga → Type 0
IsVga g =
    ((g.mode ≡ vga_mode_text) × (g.width * g.height ≡ 2000))
    ⊎ ((g.mode ≡ vga_mode_video) × (g.width * g.height ≡ 64000))

-- What a handler of a write leaves as it was.
pub record Kept (g g' : Vga) : Type 0 where
  pub mem : g'.mem ≡ g.mem
  pub mode : g'.mode ≡ g.mode
  pub cells : g'.width * g'.height ≡ g.width * g.height

abbrev pub Written : Vga → Option (Vga × Ret) → Type 0
Written g o = (g' : Vga) × (r : Ret) × (o ≡ some (g', r)) × Kept g g'

send_update-Kept : (m : ℕ) (g : Vga) → Kept g (send_update m g)
send_update-Kept m g = elim (Bool-cases (ltb 0 g.num_clients)) [
  | inl some_client ↦ rw some_client (record { mem = refl; mode = refl; cells = refl })
  | inr alone ↦ rw alone (record { mem = refl; mode = refl; cells = refl })
]

-- A copy that the code lets through stays inside.
pub room-inside :
    (size cells index len : ℕ)
    → cells ≤ size
    → cells < 2 ^ 32
    → 8 ≤ cells
    → len ≤ 8
    → index < sub_u32 cells len
    → inside size index len ≡ true
room-inside size cells index len h k l m n =
    let e : index + len ≤ size = omega arith in ground arith

text_write-Written :
    (g : Vga) (phys_addr dat len : ℕ)
    → g.width * g.height ≡ 2000
    → len ≤ 8
    → Written g (text_write g phys_addr dat len)
unfolding text_write
text_write-Written g phys_addr dat len cells small =
    let index : ℕ = sub_u32 phys_addr text_mem_start in
    elim (Bool-cases (ltb index (plane_room g len))) [
      | inr outside ↦
          (g, failed, rw (outside, text_write), record { mem = refl; mode = refl; cells = refl })
      | inl room ↦
          let fits : inside text_plane_size_bytes index len ≡ true =
            room-inside text_plane_size_bytes (g.width * g.height) index len (omega arith)
              (omega arith) (omega arith) small (ground arith) in
          let g' : Vga = record g { text_plane = store len index dat g.text_plane } in
          let kept = send_update-Kept 116 g' in
          (
            send_update 116 g',
            ok,
            rw (room, fits, text_write),
            record { mem = kept.mem; mode = kept.mode; cells = kept.cells },
          )
    ]

video_write-Written :
    (g : Vga) (phys_addr dat len : ℕ)
    → g.width * g.height ≡ 64000
    → len ≤ 8
    → Written g (video_write g phys_addr dat len)
unfolding video_write
video_write-Written g phys_addr dat len cells small =
    let index : ℕ = sub_u32 phys_addr vga_mem_start in
    elim (Bool-cases (ltb index (plane_room g len))) [
      | inr outside ↦
          (g, failed, rw (outside, video_write), record { mem = refl; mode = refl; cells = refl })
      | inl room ↦
          let fits : inside video_plane_size_bytes index len ≡ true =
            room-inside video_plane_size_bytes (g.width * g.height) index len (omega arith)
              (omega arith) (omega arith) small (ground arith) in
          let g' : Vga = record g { vplane = store len index dat g.vplane } in
          let kept = send_update-Kept 118 g' in
          (
            send_update 118 g',
            ok,
            rw (room, fits, video_write),
            record { mem = kept.mem; mode = kept.mode; cells = kept.cells },
          )
    ]

pub plane_write-Written :
    (g : Vga) (phys_addr dat len : ℕ)
    → IsVga g
    → len ≤ 8
    → Written g (plane_write g phys_addr dat len)
plane_write-Written g phys_addr dat len (inl (mode, cells)) small =
    let e : (g.mode == vga_mode_text) ≡ true = ground arith in
    rw e (text_write-Written g phys_addr dat len cells small)
plane_write-Written g phys_addr dat len (inr (mode, cells)) small =
    let e : (g.mode == vga_mode_text) ≡ false = ground arith in
    let f : (g.mode == vga_mode_video) ≡ true = ground arith in
    rw (e, f) (video_write-Written g phys_addr dat len cells small)

pub Kept-IsVga : (g g' : Vga) → Kept g g' → IsVga g → IsVga g'
Kept-IsVga g g' k (inl (mode, cells)) = inl (k.mode ∙ mode, k.cells ∙ cells)
Kept-IsVga g g' k (inr (mode, cells)) = inr (k.mode ∙ mode, k.cells ∙ cells)

mirrored : (g : Vga) (phys_addr dat len : ℕ) → Vga
mirrored g phys_addr dat len = record g { mem = store len (phys_addr - vga_mem_start) dat g.mem }

-- An access of at most 8 bytes to the mirrored memory, which `MirrorWrite` and `MirrorRead` accept: they
-- compare with < and so accept none that reaches the last byte.
pub record Mirrored (phys_addr len : ℕ) : Type 0 where
  pub above : vga_mem_start ≤ phys_addr
  pub below : phys_addr + len < vga_mem_start + host_vga_size
  pub small : len ≤ 8

pub mirror-accepts :
    (phys_addr len : ℕ)
    → Mirrored phys_addr len
    → (sub_u32 phys_addr vga_mem_start ≡ phys_addr - vga_mem_start)
      × (ltb (sub_u32 phys_addr vga_mem_start) (sub_u32 host_vga_size len) ≡ true)
      × (inside host_vga_size (sub_u32 phys_addr vga_mem_start) len ≡ true)
mirror-accepts phys_addr len m =
    let above : vga_mem_start ≤ phys_addr = m.above in
    let below : phys_addr + len < vga_mem_start + host_vga_size = m.below in
    let small : len ≤ 8 = m.small in
    let e : sub_u32 phys_addr vga_mem_start ≡ phys_addr - vga_mem_start = omega arith in
    let less : sub_u32 phys_addr vga_mem_start < sub_u32 host_vga_size len = omega arith in
    (
      e,
      ground arith,
      room-inside host_vga_size host_vga_size (sub_u32 phys_addr vga_mem_start) len (omega arith)
          (omega arith) (omega arith) small less,
    )
