-- ===== src/Virtio/Tests.antt =====
-- The theorems on the transport at a concrete device with one queue.
use dc2021f_ooows_public.Base.{
  ℕ, ◌+◌, ◌^◌, ◌≤◌, ◌<◌, ◌≡◌, refl, inl, true, false, some, List, [], ◌∷◌, ◌++◌, arith,
}
use dc2021f_ooows_public.Dispatch.{IoRequest, mmio}
use dc2021f_ooows_public.Net.Guest.{MemoryManager, oob}
use dc2021f_ooows_public.Virtio.{VirtQueue, VirtioDev}
use dc2021f_ooows_public.Virtio.Registers.{config_space_write}
use dc2021f_ooows_public.Virtio.Queue.{Buf, get_buf, put_buf, got, tail_moved}
use dc2021f_ooows_public.Virtio.Mmio.{Overrides, io_loop}
use dc2021f_ooows_public.Virtio.Valid.{IsMemory, AreasInside, IsQueue, IsValid}
use dc2021f_ooows_public.Virtio.Buffers.{GotKept, get_buf-Kept}
use dc2021f_ooows_public.Virtio.Returned.{PutMissed, put_buf-Missed}
use dc2021f_ooows_public.Virtio.Reading.{KeepsValid, AreRouted, LoopKept}
use dc2021f_ooows_public.Virtio.Serving.{io_loop-Kept, config_space_write-Kept}
use dc2021f_ooows_public.Virtio.Driver.{Virtq, load_u16, add_buf, queue_writes, commit_and_ready_vq}
use dc2021f_ooows_public.Virtio.Published.{shared, add_buf-get_buf}
use dc2021f_ooows_public.Virtio.Handshake.{started, CanStart, queue-started}

abbrev page : MemoryManager
page = record { guest_start_paddr = 0x1000; guest_end_paddr = 0x10000; memory = λ i. 0 }

page-IsMemory : IsMemory page
page-IsMemory = record { order = omega arith; half = omega arith; bytes = λ i. omega arith }

abbrev fresh : VirtQueue
fresh = record {
  num_bufs = 0;
  ready = false;
  avail_tail_idx = 0;
  queue_desc_low = 0;
  queue_desc_high = 0;
  queue_driver_low = 0;
  queue_driver_high = 0;
  queue_device_low = 0;
  queue_device_high = 0;
  desc_table_gaddr = 0;
  avail_gaddr = 0;
  used_gaddr = 0;
}

abbrev kernel_queue : Virtq
kernel_queue = record { num = 4; desc = 0x1000; avail = 0x1100; used = 0x1200 }

abbrev ready_one : VirtQueue
ready_one = record fresh {
  num_bufs = 4;
  ready = true;
  desc_table_gaddr = 0x1000;
  avail_gaddr = 0x1100;
  used_gaddr = 0x1200;
}

abbrev device : VirtioDev Unit
device = record {
  mmio_start = 0x4000000;
  device_id = 1;
  vendor_id = 2;
  device_features = 0;
  device_features_sel = 0;
  driver_features = 0;
  driver_features_sel = 0;
  queue_sel = 0;
  isr = 0;
  isr_ack = 0;
  status = 1;
  config_space = λ i. 0;
  config_space_size = 0x400;
  num_queues = 1;
  vqs = λ i. fresh;
  mem = page;
  own = tt;
}

abbrev plain : Overrides Unit
plain = record { got_data = λ d vq_idx. some d; config_write = config_space_write }

plain-KeepsValid : KeepsValid plain
plain-KeepsValid = record {
  keeps_data = λ d vq_idx v. (v, refl);
  keeps_config =
      λ d offset size value v inside. config_space_write-Kept d offset size value v inside;
}

fresh-IsQueue : IsQueue page fresh
fresh-IsQueue = record {
  num = omega arith;
  tail = omega arith;
  desc_low = omega arith;
  desc_high = omega arith;
  driver_low = omega arith;
  driver_high = omega arith;
  device_low = omega arith;
  device_high = omega arith;
  areas = λ is. absurd (ground arith);
}

device-IsValid : IsValid device
device-IsValid = record {
  memory = page-IsMemory;
  sel = omega arith;
  size = omega arith;
  queues = λ i. fresh-IsQueue;
}

areas : AreasInside page ready_one
areas = record {
  some_bufs = omega arith;
  desc_table_inside = record { from = omega arith; to = omega arith };
  avail_inside = record { from = omega arith; to = omega arith };
  used_inside = record { from = omega arith; to = omega arith };
}

-- A read of the magic number, a write to the configuration space and the start of a queue.
abbrev requests : List IoRequest
requests =
    mmio 0x4000100 7 8 true
    ∷ (queue_writes 0x4000000 0 kernel_queue ++ commit_and_ready_vq 0x4000000 0 kernel_queue)

requests-AreRouted : AreRouted 0x4000000 requests
unfolding commit_and_ready_vq
requests-AreRouted =
    let here : (reg : ℕ)
        → reg < 0x200
        → (0x4000000 ≤ 0x4000000 + reg) × (0x4000000 + reg + 8 < 2 ^ 64) × (4 ≤ 8) =
      λ reg small. (omega arith, omega arith, omega arith) in
    (
      (omega arith, omega arith, omega arith),
      (
        here 0x30 (omega arith),
        (
          here 0x38 (omega arith),
          (
            here 0x30 (omega arith),
            (
              here 0x80 (omega arith),
              (here 0x90 (omega arith), (here 0xa0 (omega arith), (here 0x44 (omega arith), tt))),
            ),
          ),
        ),
      ),
    )

io_loop-Kept_example : LoopKept 0x4000000 requests (io_loop plain device requests)
io_loop-Kept_example =
    io_loop-Kept plain device requests plain-KeepsValid device-IsValid requests-AreRouted

get_buf-Kept_example : GotKept page ready_one (get_buf page ready_one 5)
get_buf-Kept_example = get_buf-Kept page ready_one 5 page-IsMemory (λ is. areas)

abbrev buffer : Buf
buffer = record { guest_addr = 0x2000; len = 64; flags = 0; id = 3; nbytes_written = 5 }

put_buf-Missed_example :
    PutMissed page (tail_moved ready_one) buffer (put_buf page (tail_moved ready_one) buffer)
put_buf-Missed_example =
    put_buf-Missed page (tail_moved ready_one) buffer page-IsMemory (λ is. areas)

buffer_fits : oob page 0x2000 64 ≡ false
unfolding oob
buffer_fits = refl

add_buf-get_buf_example :
    get_buf (add_buf 0x4000000 0 (shared ready_one) 0x2000 64 page).0 ready_one 5
    ≡ got (tail_moved ready_one) (record {
      guest_addr = 0x2000;
      len = 64;
      flags = load_u16 page 0x100c;
      id = 0;
      nbytes_written = 5;
    })
add_buf-get_buf_example =
    add_buf-get_buf page ready_one 0x4000000 0 0x2000 64 5 page-IsMemory areas refl (omega arith)
      refl (inl (omega arith)) (omega arith) (omega arith) buffer_fits

kernel-CanStart : CanStart device 0 kernel_queue
unfolding oob
kernel-CanStart = record {
  there = omega arith;
  word = omega arith;
  room = omega arith;
  not_ready = refl;
  desc_high = refl;
  driver_high = refl;
  device_high = refl;
  num = omega arith;
  some_bufs = omega arith;
  desc = omega arith;
  avail = omega arith;
  used = omega arith;
  desc_fits = refl;
  avail_fits = refl;
  used_fits = refl;
}

queue-started_example :
    (io_loop plain device
        (queue_writes 0x4000000 0 kernel_queue ++ commit_and_ready_vq 0x4000000 0 kernel_queue)
      ≡ some (started device 0 kernel_queue, 0 ∷ (0 ∷ (0 ∷ (0 ∷ (0 ∷ (0 ∷ (0 ∷ [])))))), true))
    × (shared ((started device 0 kernel_queue).vqs 0) ≡ kernel_queue)
    × (((started device 0 kernel_queue).vqs 0).ready ≡ true)
queue-started_example =
    queue-started plain device (started device 0 kernel_queue) 0 kernel_queue kernel-CanStart refl
