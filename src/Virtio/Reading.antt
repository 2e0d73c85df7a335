-- ===== src/Virtio/Reading.antt =====
-- What is asked of the accesses and of a device, and that every register can be read.
use dc2021f_ooows_public.Base.{
  ℕ, ◌+◌, ◌^◌, ◌≤◌, ◌<◌, ◌≡◌, ◌≢◌, ◌⊎◌, refl, true, false, Bool, none, some, Option, List, [], ◌∷◌,
  ◌==◌, arith, both_ways,
}
use dc2021f_ooows_public.Dispatch.{IoRequest, pio, mmio}
use dc2021f_ooows_public.Virtio.{VirtQueue, VirtioDev}
use dc2021f_ooows_public.Virtio.Registers.{
  in_config_space, leaves_config, config_space_read, selected, read_register, mmio_read,
}
use dc2021f_ooows_public.Virtio.Mmio.{Overrides, at_selected}
use dc2021f_ooows_public.Virtio.Valid.{IsQueue, IsValid, with_vq-IsValid}

-- The access is one to the device: it begins at or above the device's first address, and has at most 8
-- bytes, which do not run over the end of the addresses.
abbrev pub IsRouted : (mmio_start : ℕ) → IoRequest → Type 0
IsRouted mmio_start (pio port direction size dat count) = Unit
IsRouted mmio_start (mmio phys_addr dat len is_write) =
    (mmio_start ≤ phys_addr) × (phys_addr + 8 < 2 ^ 64) × (len ≤ 8)

abbrev pub AreRouted : (mmio_start : ℕ) → List IoRequest → Type 0
AreRouted mmio_start [] = Unit
AreRouted mmio_start (io ∷ rest) = IsRouted mmio_start io × AreRouted mmio_start rest

-- There is a device, it is valid and where it was.
abbrev pub DeviceKept : {S : Type 0} → ℕ → Option (VirtioDev S) → Type 0
DeviceKept mmio_start none = ⊥
DeviceKept mmio_start (some d) = IsValid d × (d.mmio_start ≡ mmio_start)

-- A write is answered with 0.
abbrev pub AnswerKept : {S : Type 0} → ℕ → (is_write : Bool) → Option (VirtioDev S × ℕ) → Type 0
AnswerKept mmio_start is_write none = ⊥
AnswerKept mmio_start is_write (some (d, answer)) =
    IsValid d × (d.mmio_start ≡ mmio_start) × (is_write ≡ true → answer ≡ 0)

-- Every access is answered, and the loop reads on to the end of the requests, but for two things that
-- end it before: a port access, which is not answered, and a read that is answered with something
-- other than 0.
abbrev pub Answered : List IoRequest → List ℕ → (reads_on : Bool) → Type 0
Answered [] [] reads_on = reads_on ≡ true
Answered [] (answer ∷ answers) reads_on = ⊥
Answered (pio port direction size dat count ∷ rest) [] reads_on = reads_on ≡ false
Answered (pio port direction size dat count ∷ rest) (answer ∷ answers) reads_on = ⊥
Answered (mmio phys_addr dat len is_write ∷ rest) [] reads_on = ⊥
Answered (mmio phys_addr dat len is_write ∷ rest) (answer ∷ answers) reads_on =
    ((answer ≡ 0) × Answered rest answers reads_on)
    ⊎ ((answer ≢ 0) × (is_write ≡ false) × (answers ≡ []) × (reads_on ≡ false))

abbrev pub LoopKept :
    {S : Type 0} → ℕ → List IoRequest → Option (VirtioDev S × List ℕ × Bool) → Type 0
LoopKept mmio_start requests none = ⊥
LoopKept mmio_start requests (some (d, answers, reads_on)) =
    IsValid d × (d.mmio_start ≡ mmio_start) × Answered requests answers reads_on

abbrev pub IsSome {ℓ} : {A : Type ℓ} → Option A → Type 0
IsSome none = ⊥
IsSome (some a) = Unit

-- What overriding functions must do: return, and leave a valid device; of a write to the configuration
-- space, where the access is inside the array.
pub record KeepsValid {S : Type 0} (dev : Overrides S) : Type 0 where
  pub keeps_data :
      (d : VirtioDev S) (vq_idx : ℕ) → IsValid d → DeviceKept d.mmio_start (dev.got_data d vq_idx)
  pub keeps_config :
      (d : VirtioDev S) (offset size value : ℕ)
      → IsValid d
      → leaves_config offset size ≡ false
      → DeviceKept d.mmio_start (dev.config_write d offset size value)

module _ {S : Type 0} (d : VirtioDev S) (v : IsValid d) where
  -- An access of at most 8 bytes that the device takes for one to its configuration space is inside
  -- the array, if its end does not run over 64 bits.
  pub stays :
      (offset size : ℕ)
      → offset + 8 < 2 ^ 64
      → size ≤ 8
      → in_config_space d offset size ≡ true
      → leaves_config offset size ≡ false
  unfolding in_config_space
  stays offset size low small h = ground (arith, v.size)

  pub selected-some : selected d ≡ some (d.vqs d.queue_sel)
  selected-some = ground (arith, v.sel)

  pub at_selected-Kept :
      (f : VirtQueue → VirtQueue)
      → IsQueue d.mem (f (d.vqs d.queue_sel))
      → DeviceKept d.mmio_start (at_selected d f (selected d))
  at_selected-Kept f w =
      rw selected-some (with_vq-IsValid d d.queue_sel (f (d.vqs d.queue_sel)) v w, refl)

  pub read_register-IsSome : (offset : ℕ) → IsSome (read_register d offset)
  unfolding read_register
  read_register-IsSome offset =
      both_ways IsSome (offset == 0x0) _ _ (λ h. tt)
        λ h.
          both_ways IsSome (offset == 0x4) _ _ (λ h. tt)
            λ h.
              both_ways IsSome (offset == 0x8) _ _ (λ h. tt)
                λ h.
                  both_ways IsSome (offset == 0xc) _ _ (λ h. tt)
                    λ h.
                      both_ways IsSome (offset == 0x10) _ _ (λ h. tt)
                        λ h.
                          both_ways IsSome (offset == 0x34) _ _ (λ h. rw selected-some tt)
                            λ h.
                              both_ways IsSome (offset == 0x44) _ _ (λ h. rw selected-some tt)
                                λ h.
                                  both_ways IsSome (offset == 0x60) _ _ (λ h. tt)
                                    λ h. both_ways IsSome (offset == 0x70) _ _ (λ h. tt) λ h. tt

  pub mmio_read-IsSome :
      (offset size : ℕ) → offset + 8 < 2 ^ 64 → size ≤ 8 → IsSome (mmio_read d offset size)
  unfolding mmio_read config_space_read
  mmio_read-IsSome offset size low small =
      both_ways IsSome (in_config_space d offset size) _ _
        (λ h. rw (stays offset size low small h) tt) λ h. read_register-IsSome offset
