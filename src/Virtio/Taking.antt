-- ===== src/Virtio/Taking.antt =====
-- Taking a buffer and giving it back, as steps of a device.
use dc2021f_ooows_public.Base.{ℕ, ◌≡◌, refl, sym, none, some, Option, leb, arith, both_ways}
use dc2021f_ooows_public.Virtio.{VirtQueue, VirtioDev}
use dc2021f_ooows_public.Virtio.Queue.{
  Buf, Got, thrown, null, got, get_buf, device_got, device_get_buf, tail_moved, Put, failed, done,
  put_buf, device_put, device_put_buf,
}
use dc2021f_ooows_public.Virtio.Valid.{
  IsQueue, parts-IsQueue, IsValid, with_vq-IsValid, with_mem-IsValid,
}
use dc2021f_ooows_public.Virtio.Buffers.{GotKept, get_buf-Kept}
use dc2021f_ooows_public.Virtio.Returned.{PutMissed, put_buf-Missed}
use dc2021f_ooows_public.Virtio.Reading.{DeviceKept}

abbrev pub TakenKept : {S : Type 0} → ℕ → Option (VirtioDev S × Option Buf) → Type 0
TakenKept mmio_start none = ⊥
TakenKept mmio_start (some (d, b)) = IsValid d × (d.mmio_start ≡ mmio_start)

module _ {S : Type 0} (d : VirtioDev S) (vq_idx : ℕ) (v : IsValid d) where
  tail_moved-IsQueue : (q : VirtQueue) → IsQueue d.mem q → IsQueue d.mem (tail_moved q)
  tail_moved-IsQueue q w =
      parts-IsQueue d.mem (tail_moved q) w.num (omega arith) w.desc_low w.desc_high w.driver_low
        w.driver_high w.device_low w.device_high w.areas

  device_got-Kept :
      (g : Got) → GotKept d.mem (d.vqs vq_idx) g → TakenKept d.mmio_start (device_got d vq_idx g)
  device_got-Kept thrown w = w
  device_got-Kept null w = (v, refl)
  device_got-Kept (got q b) (next, inside, id) =
      let w = tail_moved-IsQueue (d.vqs vq_idx) (v.queues vq_idx) in
      (with_vq-IsValid d vq_idx q v (coe 0 1 (i. IsQueue d.mem (sym next i)) w), refl)

  device_put-Kept :
      (b : Buf) (p : Put)
      → PutMissed d.mem (d.vqs vq_idx) b p
      → DeviceKept d.mmio_start (device_put d p)
  device_put-Kept b thrown w = w
  device_put-Kept b (failed m) (w, place, ring) = (with_mem-IsValid d m v w place, refl)
  device_put-Kept b (done m) (w, place, ring, behind) = (with_mem-IsValid d m v w place, refl)

-- On a valid device, taking a buffer from any queue and giving one back to any queue end without an
-- exception and leave the device valid.
pub device_get_buf-Kept :
    {S : Type 0} (d : VirtioDev S) (vq_idx stale : ℕ)
    → IsValid d
    → TakenKept d.mmio_start (device_get_buf d vq_idx stale)
unfolding device_get_buf
device_get_buf-Kept d vq_idx stale v =
    both_ways (TakenKept d.mmio_start) (leb d.num_queues vq_idx) (some (d, none))
      (device_got d vq_idx (get_buf d.mem (d.vqs vq_idx) stale)) (λ h. (v, refl))
      λ h.
        device_got-Kept d vq_idx v (get_buf d.mem (d.vqs vq_idx) stale)
          (get_buf-Kept d.mem (d.vqs vq_idx) stale v.memory (v.queues vq_idx).areas)

pub device_put_buf-Kept :
    {S : Type 0} (d : VirtioDev S) (vq_idx : ℕ) (b : Buf)
    → IsValid d
    → DeviceKept d.mmio_start (device_put_buf d vq_idx b)
unfolding device_put_buf
device_put_buf-Kept d vq_idx b v =
    both_ways (DeviceKept d.mmio_start) (leb d.num_queues vq_idx) (some d)
      (device_put d (put_buf d.mem (d.vqs vq_idx) b)) (λ h. (v, refl))
      λ h.
        device_put-Kept d vq_idx v b (put_buf d.mem (d.vqs vq_idx) b)
          (put_buf-Missed d.mem (d.vqs vq_idx) b v.memory (v.queues vq_idx).areas)
