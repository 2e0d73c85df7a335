-- ===== src/Dispatch/Tests.antt =====
-- The theorems on the dispatch of an access, at a bus with one device.
use dc2021f_ooows_public.Base.{ℕ, ◌+◌, ◌≡◌, refl, none, some, List, [], ◌∷◌}
use dc2021f_ooows_public.Machine.{ok}
use dc2021f_ooows_public.Samples.{machine}
use dc2021f_ooows_public.DeviceBus.{DeviceNode, new_node, device_for_port, covers_port, update_node}
use dc2021f_ooows_public.Dispatch.{
  whole, part, got, short, broken, recv_value, sent_enough, request_sent, Answer, Spawn, init_magic,
  connect, shake_hands, instantiate, channel_for, IoRequest, pio, mmio, Bus, pio_answer, exchange,
  serve, handle_pio,
}
use dc2021f_ooows_public.Dispatch.Laws.{Routed, handle_pio_lem}

-- A process that starts, and one that cannot be started.
abbrev started_well : Spawn
started_well = record {
  sockets = some (20 ∷ 21 ∷ 22 ∷ []);
  child = 77;
  hello = got init_magic;
  reply = whole;
}

abbrev no_process : Spawn
no_process = record { sockets = none; child = 0; hello = short; reply = part }

abbrev vga : DeviceNode
vga = record (new_node (118 ∷ [])) { ioports = record { start_port = 0x3c0; nports = 16 } ∷ [] }

abbrev channels : List ℕ
channels = 20 ∷ 21 ∷ 22 ∷ []

abbrev channel : ℕ
channel = 21

abbrev vga_running : DeviceNode
vga_running = connect 3 channels (record vga { instance_pid = 77 })

abbrev bus : Bus
bus = record { hv = machine; devices = vga ∷ [] }

abbrev running_bus : Bus
running_bus = record { hv = machine; devices = vga_running ∷ [] }

-- Every request is answered with its data and one more.
abbrev counter : ℕ → IoRequest → Answer
counter fd (pio port direction size dat count) = record { sent = whole; received = got (dat + 1) }
counter fd (mmio phys_addr dat len is_write) = record { sent = whole; received = got (dat + 1) }

-- A device whose process has gone.
abbrev gone : ℕ → IoRequest → Answer
gone fd io = record { sent = whole; received = broken }

starts : channel_for 3 started_well 1 vga ≡ (vga_running, some 21)
unfolding channel_for instantiate shake_hands recv_value sent_enough
starts = refl

access_run :
    handle_pio counter bus 1 started_well 0x3c8 0x1234 0 1 1
    ≡ (record bus { devices = vga_running ∷ [] }, 0x1235, ok)
unfolding handle_pio serve exchange channel_for instantiate shake_hands recv_value request_sent
    sent_enough device_for_port covers_port update_node pio_answer
access_run = refl

handle_pio_lem_example :
    Routed 0x3c8 0 bus 0x1234 (handle_pio counter bus 1 started_well 0x3c8 0x1234 0 1 1)
handle_pio_lem_example = handle_pio_lem counter bus 1 started_well 0x3c8 0x1234 0 1 1
