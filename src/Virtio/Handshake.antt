-- ===== src/Virtio/Handshake.antt =====
-- The guest kernel's driver starts a queue: the accesses of `setup_virtq` and `commit_and_ready_vq`
-- as the device serves them.
use dc2021f_ooows_public.Base.{
  ℕ, ◌+◌, ◌-◌, ◌%◌, ◌^◌, ◌<◌, ◌≡◌, refl, ap, sym, ◌∙◌, true, false, Bool, some, Option, List, [],
  ◌∷◌, ◌++◌, ◌==◌, ltb, arith,
}
use dc2021f_ooows_public.Dispatch.{IoRequest}
use dc2021f_ooows_public.Net.Guest.{oob}
use dc2021f_ooows_public.Virtio.{VirtQueue, VirtioDev, with_vq, max_vq_size}
use dc2021f_ooows_public.Virtio.Registers.{in_config_space, selected}
use dc2021f_ooows_public.Virtio.Queue.{
  desc_table_sz, avail_sz, used_sz, desc_table_addr, avail_addr, used_addr, made_ready, ready_queue,
}
use dc2021f_ooows_public.Virtio.Mmio.{
  Overrides, readied, make_ready, write_register, mmio_write, handle_mmio, answered, io_loop,
}
use dc2021f_ooows_public.Virtio.Driver.{Virtq, write_reg, queue_writes, commit_and_ready_vq}
use dc2021f_ooows_public.Virtio.Published.{shared}

module _ {S : Type 0} (dev : Overrides S) where
  -- A write to a register below the configuration space, with the loop that goes on.
  pub io_loop-write_reg :
      (d d' : VirtioDev S) (reg value : ℕ) (rest : List _)
      → reg < 0x100
      → d.mmio_start + 0x100 < 2 ^ 64
      → write_register dev d reg value ≡ some d'
      → io_loop dev d (write_reg d.mmio_start reg value ∷ rest)
        ≡ answered dev 0 (io_loop dev d' rest)
  unfolding io_loop handle_mmio mmio_write in_config_space
  io_loop-write_reg d d' reg value rest low room e =
      let same : (d.mmio_start + reg + 2 ^ 64 - d.mmio_start) % 2 ^ 64 ≡ reg = omega arith in
      let below : in_config_space d reg 4 ≡ false = ground arith in rw (same, below, e) refl

module _ {S : Type 0} (d : VirtioDev S) (idx : ℕ) (vq : Virtq) where
  abbrev start_queue : VirtQueue
  start_queue = record (d.vqs idx) {
    num_bufs = vq.num;
    queue_desc_low = vq.desc % 2 ^ 32;
    queue_driver_low = vq.avail % 2 ^ 32;
    queue_device_low = vq.used % 2 ^ 32;
  }

  abbrev pub d1 : VirtioDev S
  d1 = record d { queue_sel = idx }

  abbrev pub d2 : VirtioDev S
  d2 = with_vq d1 idx (record (d.vqs idx) { num_bufs = vq.num })

  abbrev pub d3 : VirtioDev S
  d3 = with_vq d2 idx (record (d2.vqs idx) { queue_desc_low = vq.desc % 2 ^ 32 })

  abbrev pub d4 : VirtioDev S
  d4 = with_vq d3 idx (record (d3.vqs idx) { queue_driver_low = vq.avail % 2 ^ 32 })

  abbrev pub d5 : VirtioDev S
  d5 = with_vq d4 idx (record (d4.vqs idx) { queue_device_low = vq.used % 2 ^ 32 })

  abbrev pub started : VirtioDev S
  started = with_vq d5 idx (made_ready start_queue)

  module _ (dev : Overrides S) (there : idx < d.num_queues) (word : idx < 2 ^ 16)
      (not_ready : (d.vqs idx).ready ≡ false) (num : vq.num < max_vq_size) (some_bufs : 0 < vq.num)
      (desc : vq.desc < 2 ^ 32) (avail : vq.avail < 2 ^ 32) (used : vq.used < 2 ^ 32)
      (desc_high : (d.vqs idx).queue_desc_high ≡ 0)
      (driver_high : (d.vqs idx).queue_driver_high ≡ 0)
      (device_high : (d.vqs idx).queue_device_high ≡ 0)
      (desc_fits : oob d.mem vq.desc (desc_table_sz vq.num) ≡ false)
      (avail_fits : oob d.mem vq.avail (avail_sz vq.num) ≡ false)
      (used_fits : oob d.mem vq.used (used_sz vq.num) ≡ false) where
    sel : ltb idx d.num_queues ≡ true
    sel = ground arith

    self : (idx == idx) ≡ true
    self = ground arith

    queue_there : d5.vqs idx ≡ start_queue
    queue_there = rw self refl

    low_desc : desc_table_addr start_queue ≡ vq.desc
    low_desc = omega arith

    low_avail : avail_addr start_queue ≡ vq.avail
    low_avail = omega arith

    low_used : used_addr start_queue ≡ vq.used
    low_used = omega arith

    is_ready : ready_queue d.mem start_queue ≡ some (made_ready start_queue)
    unfolding ready_queue
    is_ready =
        let num_some : (vq.num == 0) ≡ false = ground arith in
        let desc_ok : oob d.mem (desc_table_addr start_queue) (desc_table_sz vq.num) ≡ false =
          ap (λ at. oob d.mem at (desc_table_sz vq.num)) low_desc ∙ desc_fits in
        let avail_ok : oob d.mem (avail_addr start_queue) (avail_sz vq.num) ≡ false =
          ap (λ at. oob d.mem at (avail_sz vq.num)) low_avail ∙ avail_fits in
        let used_ok : oob d.mem (used_addr start_queue) (used_sz vq.num) ≡ false =
          ap (λ at. oob d.mem at (used_sz vq.num)) low_used ∙ used_fits in
        rw (num_some, desc_ok, avail_ok, used_ok) refl

    select_write :
        (e : VirtioDev S)
        → e.num_queues ≡ d.num_queues
        → write_register dev e 0x30 idx ≡ some (record e { queue_sel = idx })
    unfolding write_register
    select_write e same = let sel' : ltb idx e.num_queues ≡ true = ground arith in rw sel' refl

    num_write : write_register dev d1 0x38 vq.num ≡ some d2
    unfolding write_register
    num_write =
        let small : ltb vq.num max_vq_size ≡ true = ground arith in rw (small, sel, not_ready) refl

    desc_write : write_register dev d2 0x80 vq.desc ≡ some d3
    unfolding write_register
    desc_write = rw sel refl

    avail_write : write_register dev d3 0x90 vq.avail ≡ some d4
    unfolding write_register
    avail_write = rw sel refl

    used_write : write_register dev d4 0xa0 vq.used ≡ some d5
    unfolding write_register
    used_write = rw sel refl

    ready_write :
        (after : VirtioDev S)
        → dev.got_data started idx ≡ some after
        → write_register dev d5 0x44 1 ≡ some after
    unfolding write_register
    ready_write after e =
        let same : idx % 2 ^ 16 ≡ idx = omega arith in
        let there' : selected d5 ≡ some (d5.vqs idx) = rw sel refl in
        ap (make_ready dev d5) there'
        ∙ ap (λ q. readied dev d5 (ready_queue d.mem q)) queue_there
        ∙ ap (readied dev d5) is_ready
        ∙ ap (dev.got_data started) same
        ∙ e

    serve :
        (e e' : VirtioDev S) (reg value : ℕ) (rest : List IoRequest)
        → e.mmio_start ≡ d.mmio_start
        → reg < 0x100
        → d.mmio_start + 0x100 < 2 ^ 64
        → write_register dev e reg value ≡ some e'
        → io_loop dev e (write_reg d.mmio_start reg value ∷ rest)
          ≡ answered dev 0 (io_loop dev e' rest)
    serve e e' reg value rest same low room h =
        ap (λ start. io_loop dev e (write_reg start reg value ∷ rest)) (sym same)
        ∙ io_loop-write_reg dev e e' reg value rest low (omega (arith, same)) h

    all_served :
        (after : VirtioDev S)
        → d.mmio_start + 0x100 < 2 ^ 64
        → dev.got_data started idx ≡ some after
        → io_loop dev d
            (queue_writes d.mmio_start idx vq ++ commit_and_ready_vq d.mmio_start idx vq)
          ≡ some (after, 0 ∷ (0 ∷ (0 ∷ (0 ∷ (0 ∷ (0 ∷ (0 ∷ [])))))), true)
    unfolding commit_and_ready_vq io_loop
    all_served after room e =
        let start = d.mmio_start in
        let next : Option (VirtioDev S × List ℕ × Bool) → Option (VirtioDev S × List ℕ × Bool) =
          answered dev 0 in
        let r5 = write_reg start 0x44 1 ∷ [] in
        let r4 = write_reg start 0xa0 vq.used ∷ r5 in
        let r3 = write_reg start 0x90 vq.avail ∷ r4 in
        let r2 = write_reg start 0x80 vq.desc ∷ r3 in
        let r1 = write_reg start 0x30 idx ∷ r2 in
        let r0 = write_reg start 0x38 vq.num ∷ r1 in
        serve d d1 0x30 idx r0 refl (omega arith) room (select_write d refl)
        ∙ ap next (
            serve d1 d2 0x38 vq.num r1 refl (omega arith) room num_write
            ∙ ap next (
                serve d2 d2 0x30 idx r2 refl (omega arith) room (select_write d2 refl)
                ∙ ap next (
                    serve d2 d3 0x80 vq.desc r3 refl (omega arith) room desc_write
                    ∙ ap next (
                        serve d3 d4 0x90 vq.avail r4 refl (omega arith) room avail_write
                        ∙ ap next (
                            serve d4 d5 0xa0 vq.used r5 refl (omega arith) room used_write
                            ∙ ap next (
                                serve d5 after 0x44 1 [] refl (omega arith) room
                                  (ready_write after e)))))))

    shares : shared (made_ready start_queue) ≡ vq
    shares =
        ap (λ (p : ℕ × ℕ × ℕ). record { num = vq.num; desc = p.0; avail = p.1; used = p.2 })
          (λ k. (low_desc k, low_avail k, low_used k))

-- What the driver and the device must bring along: a queue that exists, is not ready yet and has
-- never had upper halves of addresses, and areas inside the guest's memory for at least one buffer
-- and at most 32767.
pub record CanStart {S : Type 0} (d : VirtioDev S) (idx : ℕ) (vq : Virtq) : Type 0 where
  pub there : idx < d.num_queues
  pub word : idx < 2 ^ 16
  pub room : d.mmio_start + 0x100 < 2 ^ 64
  pub not_ready : (d.vqs idx).ready ≡ false
  pub desc_high : (d.vqs idx).queue_desc_high ≡ 0
  pub driver_high : (d.vqs idx).queue_driver_high ≡ 0
  pub device_high : (d.vqs idx).queue_device_high ≡ 0
  pub num : vq.num < max_vq_size
  pub some_bufs : 0 < vq.num
  pub desc : vq.desc < 2 ^ 32
  pub avail : vq.avail < 2 ^ 32
  pub used : vq.used < 2 ^ 32
  pub desc_fits : oob d.mem vq.desc (desc_table_sz vq.num) ≡ false
  pub avail_fits : oob d.mem vq.avail (avail_sz vq.num) ≡ false
  pub used_fits : oob d.mem vq.used (used_sz vq.num) ≡ false

-- The register writes of `setup_virtq` and `commit_and_ready_vq`, served one after the other, make
-- the chosen queue ready with just the areas and the number of buffers of the driver's queue, if
-- those lie inside the guest's memory; then the device's `got_data` is called for the queue, and
-- all seven writes are answered with 0.
pub queue-started :
    {S : Type 0} (dev : Overrides S) (d after : VirtioDev S) (idx : ℕ) (vq : Virtq)
    → CanStart d idx vq
    → dev.got_data (started d idx vq) idx ≡ some after
    → (io_loop dev d (queue_writes d.mmio_start idx vq ++ commit_and_ready_vq d.mmio_start idx vq)
        ≡ some (after, 0 ∷ (0 ∷ (0 ∷ (0 ∷ (0 ∷ (0 ∷ (0 ∷ [])))))), true))
      × (shared ((started d idx vq).vqs idx) ≡ vq)
      × (((started d idx vq).vqs idx).ready ≡ true)
queue-started dev d after idx vq c e =
    let self : (idx == idx) ≡ true = ground arith in
    (
      all_served d idx vq dev c.there c.word c.not_ready c.num c.some_bufs c.desc c.avail c.used
          c.desc_high c.driver_high c.device_high c.desc_fits c.avail_fits c.used_fits after c.room
          e,
      rw self (
          shares d idx vq dev c.there c.word c.not_ready c.num c.some_bufs c.desc c.avail c.used
            c.desc_high c.driver_high c.device_high c.desc_fits c.avail_fits c.used_fits),
      rw self refl,
    )
