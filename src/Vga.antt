-- ===== src/Vga.antt =====
-- The VGA device, devices/ooows-vga.c: the mirror of the guest's video memory, and the two planes
-- that the web front end shows. A buffer is the byte at each offset; `none` is a `memcpy` that
-- leaves a buffer, or leaves the 8 data bytes of the request.
pub mod Access
pub mod Memory
pub mod Modes
mod Tests
use dc2021f_ooows_public.Base.{
  ℕ, zero, suc, ◌+◌, ◌-◌, ◌*◌, ◌/◌, ◌%◌, ◌^◌, Bool, true, false, not, ◌&&◌, Option, none, some,
  List, [], ◌∷◌, ◌++◌, ltb, leb, ◌==◌, if◌then◌else◌,
}
use dc2021f_ooows_public.Machine.{Ret, ok, failed}
use dc2021f_ooows_public.Dispatch.{IoRequest, pio, mmio}

abbrev pub host_vga_size : ℕ
host_vga_size = 0x20000

abbrev pub vga_mem_start : ℕ
vga_mem_start = 0xa0000

abbrev pub text_mem_start : ℕ
text_mem_start = 0xb8000

abbrev pub text_mem_start_off : ℕ
text_mem_start_off = 0x18000

abbrev pub text_plane_size_bytes : ℕ
text_plane_size_bytes = 4000

abbrev pub video_plane_size_bytes : ℕ
video_plane_size_bytes = 64000

abbrev pub vga_mode_text : ℕ
vga_mode_text = 3

abbrev pub vga_mode_video : ℕ
vga_mode_video = 0x13

abbrev pub vga_port_change_mode : ℕ
vga_port_change_mode = 0x3b0

-- `ooows_vga_dev`; `updates` are the characters sent to the front end, the last one first.
pub record Vga : Type 0 where
  pub width : ℕ
  pub height : ℕ
  pub mode : ℕ
  pub mem : ℕ → ℕ
  pub text_plane : ℕ → ℕ
  pub vplane : ℕ → ℕ
  pub num_clients : ℕ
  pub updates : List ℕ

-- `memcpy` of `len` bytes of a little-endian number to a buffer.
unfoldable pub store : ℕ → ℕ → ℕ → (ℕ → ℕ) → ℕ → ℕ
store zero offset dat mem i = mem i
store (suc len) offset dat mem i =
    if i == offset then dat % 256 else store len (suc offset) (dat / 256) mem i

-- And from a buffer to a number.
unfoldable pub load : ℕ → ℕ → (ℕ → ℕ) → ℕ
load zero offset mem = 0
load (suc len) offset mem = mem offset % 256 + 256 * load len (suc offset) mem

-- What `len` bytes can hold.
unfoldable pub low_bytes : ℕ → ℕ → ℕ
low_bytes zero dat = 0
low_bytes (suc len) dat = dat % 256 + 256 * low_bytes len (dat / 256)

-- Whether a copy of `len` bytes of the data stays inside a buffer of `size` bytes.
abbrev pub inside : (size offset len : ℕ) → Bool
inside size offset len = leb (offset + len) size && leb len 8

abbrev pub sub_u32 : ℕ → ℕ → ℕ
sub_u32 a b = (a % 2 ^ 32 + 2 ^ 32 - b % 2 ^ 32) % 2 ^ 32

abbrev pub send_update : ℕ → Vga → Vga
send_update m g = if ltb 0 g.num_clients then record g { updates = m ∷ g.updates } else g

-- The device after `InitDevice`: it starts in video mode, with all buffers zeroed.
abbrev pub init_vga : Vga
init_vga = record {
  width = 320;
  height = 200;
  mode = vga_mode_video;
  mem = λ _. 0;
  text_plane = λ _. 0;
  vplane = λ _. 0;
  num_clients = 0;
  updates = [];
}

-- `VgaChangeMode`: the answer to the port access with the device.
unfoldable pub change_mode : Vga → (direction dat : ℕ) → Vga × ℕ
change_mode g direction dat =
    if direction == 0
    then (g, g.mode)
    else if dat % 2 ^ 8 == vga_mode_video
    then (
      record g {
        mode = vga_mode_video;
        width = 320;
        height = 200;
        vplane = λ i. if ltb i video_plane_size_bytes then g.mem i else g.vplane i;
      },
      0,
    )
    else if dat % 2 ^ 8 == vga_mode_text
    then (
      record g {
        mode = vga_mode_text;
        width = 80;
        height = 25;
        text_plane = λ i.
            if ltb i text_plane_size_bytes then g.mem (text_mem_start_off + i) else g.text_plane i;
      },
      0,
    )
    else (g, 0)

-- `VgaHandlePio`
unfoldable pub vga_handle_pio : Vga → (port direction dat : ℕ) → Vga × ℕ
unfolding change_mode
vga_handle_pio g port direction dat =
    if port == vga_port_change_mode then change_mode g direction dat else (g, 0)

-- The number of bytes of the plane that a write of `len` may start at.
abbrev pub plane_room : Vga → ℕ → ℕ
plane_room g len = sub_u32 (g.width * g.height) len

-- `VgaTextWrite` and `VgaVideoWrite`
unfoldable pub text_write : Vga → (phys_addr dat len : ℕ) → Option (Vga × Ret)
text_write g phys_addr dat len =
    let index = sub_u32 phys_addr text_mem_start in
    if not (ltb index (plane_room g len))
    then some (g, failed)
    else if inside text_plane_size_bytes index len
    then some (send_update 116 (record g { text_plane = store len index dat g.text_plane }), ok)
    else none

unfoldable pub video_write : Vga → (phys_addr dat len : ℕ) → Option (Vga × Ret)
video_write g phys_addr dat len =
    let index = sub_u32 phys_addr vga_mem_start in
    if not (ltb index (plane_room g len))
    then some (g, failed)
    else if inside video_plane_size_bytes index len
    then some (send_update 118 (record g { vplane = store len index dat g.vplane }), ok)
    else none

-- `MirrorWrite`
unfoldable pub mirror_write : Vga → (phys_addr dat len : ℕ) → Option Vga
mirror_write g phys_addr dat len =
    let offset = sub_u32 phys_addr vga_mem_start in
    if not (ltb offset (sub_u32 host_vga_size len))
    then some g
    else if inside host_vga_size offset len
    then some (record g { mem = store len offset dat g.mem })
    else none

-- `MirrorRead`: the request's data with its low bytes replaced.
unfoldable pub mirror_read : Vga → (phys_addr dat len : ℕ) → Option ℕ
mirror_read g phys_addr dat len =
    let offset = sub_u32 phys_addr vga_mem_start in
    if not (ltb offset (sub_u32 host_vga_size len))
    then some dat
    else if inside host_vga_size offset len
    then some (dat - low_bytes len dat + load len offset g.mem)
    else none

abbrev pub plane_write : Vga → (phys_addr dat len : ℕ) → Option (Vga × Ret)
plane_write g phys_addr dat len =
    if g.mode == vga_mode_text
    then text_write g phys_addr dat len
    else if g.mode == vga_mode_video
    then video_write g phys_addr dat len
    else some (g, failed)

abbrev pub written : Option (Vga × Ret) → Option (Vga × ℕ × Ret)
written none = none
written (some (g, r)) = some (g, 0, r)

-- The acknowledgement of a read has 4 bytes.
abbrev pub read_back : Vga → Option ℕ → Option (Vga × ℕ × Ret)
read_back g none = none
read_back g (some dat) = some (g, dat % 2 ^ 32, ok)

abbrev pub after_mirror : (phys_addr dat len : ℕ) → Option Vga → Option (Vga × ℕ × Ret)
after_mirror phys_addr dat len none = none
after_mirror phys_addr dat len (some g) = written (plane_write g phys_addr dat len)

-- `VgaHandleMmio`: the device, the acknowledgement and the result.
unfoldable pub vga_handle_mmio : Vga → (phys_addr dat len : ℕ) → Bool → Option (Vga × ℕ × Ret)
vga_handle_mmio g phys_addr dat len is_write =
    if not is_write
    then read_back g (mirror_read g phys_addr dat len)
    else after_mirror phys_addr dat len (mirror_write g phys_addr dat len)

abbrev pub acknowledged : Option (Vga × ℕ × Ret) → Option (Vga × ℕ)
acknowledged none = none
acknowledged (some (g, ack, r)) = some (g, ack)

-- One round of `VgaHandleIO`, with the lock held: the result of a handler is never -2, which
-- would end the loop.
unfoldable pub handle_io : Vga → IoRequest → Option (Vga × ℕ)
unfolding vga_handle_pio vga_handle_mmio
handle_io g (pio port direction size dat count) = some (vga_handle_pio g port direction dat)
handle_io g (mmio phys_addr dat len is_write) =
    acknowledged (vga_handle_mmio g phys_addr dat len is_write)
