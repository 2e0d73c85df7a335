-- ===== src/Vga/Tests.antt =====
-- The theorems on the VGA device at the device as it starts, and at one in text mode.
use dc2021f_ooows_public.Base.{ℕ, ◌≡◌, refl, true, false, inl, inr, some, [], ◌∷◌, arith}
use dc2021f_ooows_public.Machine.{Ret, ok}
use dc2021f_ooows_public.Dispatch.{pio, mmio}
use dc2021f_ooows_public.Vga.{
  Vga, store, load, low_bytes, mirror_write, mirror_read, text_write, change_mode, vga_handle_pio,
  vga_handle_mmio, handle_io, init_vga,
}
use dc2021f_ooows_public.Vga.Memory.{IsVga, Mirrored}
use dc2021f_ooows_public.Vga.Access.{write_read}
use dc2021f_ooows_public.Vga.Modes.{Reach, start, request, requests-answered}

abbrev text_vga : Vga
text_vga = record init_vga { mode = 3; width = 80; height = 25; num_clients = 1 }

-- Two bytes on the screen.
abbrev written_vga : Vga
written_vga = record text_vga {
  mem = store 2 0x18004 0x1f41 (λ _. 0);
  text_plane = store 2 4 0x1f41 (λ _. 0);
  updates = 116 ∷ [];
}

fits : Mirrored 0xb8004 2
fits = record { above = omega arith; below = omega arith; small = omega arith }

text_vga-IsVga : IsVga text_vga
text_vga-IsVga = inl (refl, refl)

write_run : vga_handle_mmio text_vga 0xb8004 0x1f41 2 true ≡ some (written_vga, 0, ok)
unfolding vga_handle_mmio mirror_write text_write
write_run = refl

read_run : vga_handle_mmio written_vga 0xb8004 0xffff 2 false ≡ some (written_vga, 0x1f41, ok)
unfolding vga_handle_mmio mirror_read load store low_bytes
read_run = refl

write_read_example :
    (g' : Vga) × (r : Ret) × (ack : ℕ) × (vga_handle_mmio text_vga 0xb8004 0x1f41 2 true
      ≡ some (g', 0, r))
    × (vga_handle_mmio g' 0xb8004 0xffff 2 false ≡ some (g', ack, ok))
    × (low_bytes 2 ack ≡ low_bytes 2 0x1f41)
write_read_example =
    write_read text_vga 0xb8004 0x1f41 0xffff 2 text_vga-IsVga (inr (inl refl)) fits

to_text : handle_io init_vga (pio 0x3b0 1 1 3 1) ≡ some ((change_mode init_vga 1 3).0, 0)
unfolding handle_io vga_handle_pio change_mode
to_text = refl

requests-answered_example :
    (g' : Vga) × (ack : ℕ) × (handle_io (change_mode init_vga 1 3).0 (mmio 0xb87ff 7 8 true)
      ≡ some (g', ack))
    × Reach g'
requests-answered_example =
    requests-answered (mmio 0xb87ff 7 8 true) (request (pio 0x3b0 1 1 3 1) tt to_text start)
      (omega arith)
