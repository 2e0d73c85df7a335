-- ===== src/Virtio/Features.antt =====
-- Negotiating features over the registers.
use dc2021f_ooows_public.Base.{
  ℕ, ◌+◌, ◌*◌, ◌/◌, ◌%◌, ◌^◌, ◌<◌, ◌≡◌, refl, ap, ◌∙◌, true, Bool, some, Option, List, [], ◌∷◌,
  ◌==◌, if◌then◌else◌, arith,
}
use dc2021f_ooows_public.Virtio.{VirtioDev}
use dc2021f_ooows_public.Virtio.Registers.{
  set_device_features, in_config_space, get_device_feature_bits, read_register, mmio_read,
}
use dc2021f_ooows_public.Virtio.Mmio.{Overrides, answered, write_register, io_loop}
use dc2021f_ooows_public.Virtio.Driver.{write_reg}
use dc2021f_ooows_public.Virtio.Handshake.{io_loop-write_reg}

module _ {S : Type 0} (dev : Overrides S) (d : VirtioDev S) where
  abbrev low_half : ℕ → VirtioDev S
  low_half low = record d {
    driver_features_sel = 0;
    driver_features = d.driver_features / 2 ^ 32 * 2 ^ 32 + low % 2 ^ 32;
  }

  -- A driver that selects the lower half and writes it, then the upper half, has set all 64 bits of
  -- its features, whatever they were before; nothing else of the device changes but the selection,
  -- and each of the four writes is answered with 0.
  pub driver_features-set :
      (low high : ℕ)
      → low < 2 ^ 32
      → high < 2 ^ 32
      → d.mmio_start + 0x100 < 2 ^ 64
      → io_loop dev d (
          write_reg d.mmio_start 0x24 0
          ∷ (write_reg d.mmio_start 0x20 low
              ∷ (write_reg d.mmio_start 0x24 1 ∷ (write_reg d.mmio_start 0x20 high ∷ []))))
        ≡ some (
          record d { driver_features_sel = 1; driver_features = high * 2 ^ 32 + low },
          0 ∷ (0 ∷ (0 ∷ (0 ∷ []))),
          true,
        )
  unfolding io_loop write_register
  driver_features-set low high low_word high_word room =
      let start = d.mmio_start in
      let next : Option (VirtioDev S × List ℕ × Bool) → Option (VirtioDev S × List ℕ × Bool) =
        answered dev 0 in
      let r2 = write_reg start 0x20 high ∷ [] in
      let r1 = write_reg start 0x24 1 ∷ r2 in
      let r0 = write_reg start 0x20 low ∷ r1 in
      let d1 = record d { driver_features_sel = 0 } in
      let d2 = low_half low in
      let d3 = record d2 { driver_features_sel = 1 } in
      let d4 = record d3 {
        driver_features = high % 2 ^ 32 * 2 ^ 32 + d2.driver_features % 2 ^ 32;
      } in
      let all : d4.driver_features ≡ high * 2 ^ 32 + low = omega arith in
      io_loop-write_reg dev d d1 0x24 0 r0 (omega arith) room refl
      ∙ ap next (
          io_loop-write_reg dev d1 d2 0x20 low r1 (omega arith) room refl
          ∙ ap next (
              io_loop-write_reg dev d2 d3 0x24 1 r2 (omega arith) room refl
              ∙ ap next (io_loop-write_reg dev d3 d4 0x20 high [] (omega arith) room refl)))
      ∙ ap
          (λ (f : ℕ). some (
            record d { driver_features_sel = 1; driver_features = f },
            0 ∷ (0 ∷ (0 ∷ (0 ∷ []))),
            true,
          ))
          all

  -- The halves of the device's features stand under the wrong selections: selecting 0 shows the
  -- upper half, selecting another number the lower one, on whatever features of 64 bits the device
  -- offers.
  pub features-swapped :
      (features sel : ℕ)
      → features < 2 ^ 64
      → (d' : VirtioDev S) × (write_register dev (set_device_features d features) 0x14 sel
          ≡ some d')
        × (mmio_read d' 0x10 4 ≡ some (if sel == 0 then features / 2 ^ 32 else features % 2 ^ 32))
  unfolding write_register mmio_read in_config_space read_register get_device_feature_bits
  features-swapped features sel small = (
    record d { device_features = features; device_features_sel = if sel == 0 then 0 else 1 },
    refl,
    ap (λ (w : ℕ). some w) (ground arith),
  )
