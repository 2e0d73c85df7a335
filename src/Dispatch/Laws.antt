-- ===== src/Dispatch/Laws.antt =====
-- What a guest's access does: which part of the machine serves it and what comes back.
use dc2021f_ooows_public.Base.{
  ℕ, zero, suc, ◌+◌, ◌-◌, ◌/◌, ◌%◌, ◌^◌, ◌≤◌, ◌<◌, ◌≡◌, ◌≢◌, refl, ap, sym, ◌∙◌, Bool, true, false,
  ◌⊎◌, Option, none, some, List, [], ◌∷◌, ◌++◌, arith, ◌==◌, get_elem?, get_or, take, drop, inl,
  inr, Bool-cases, length,
}
use dc2021f_ooows_public.Machine.{Ret, ok, failed, Vcpu}
use dc2021f_ooows_public.Apic.{apic_access, store_low32}
use dc2021f_ooows_public.Apic.Registers.{apic_mmio-total}
use dc2021f_ooows_public.DeviceBus.{DeviceNode, update_node, device_for_port, device_for_addr}
use dc2021f_ooows_public.DeviceBus.Claims.{FirstClaim, NoClaim, Answers, port_lem}
use dc2021f_ooows_public.Dispatch.{
  whole, broken, recv_value, request_sent, Answer, shake_hands, Spawn, instantiate, channel_for,
  IoRequest, pio, mmio, Bus, pio_answer, mmio_answer, exchange, serve, handle_pio, handle_mmio,
  connect,
}

-- Below the modulus the result is the device's value, above it is the guest's buffer.
pub record Merged (modulus dat value dat' : ℕ) : Type 0 where
  pub low : dat' % modulus ≡ value % modulus
  pub high : dat' / modulus ≡ dat / modulus

-- A read of 1, 2 or 4 bytes by its size.
abbrev pub ReadBack : (size dat value dat' : ℕ) → Type 0
ReadBack size dat value dat' =
    ((size ≡ 1) × Merged (2 ^ 8) dat value dat')
    ⊎ (((size ≡ 2) × Merged (2 ^ 16) dat value dat')
        ⊎ ((size ≡ 4) × Merged (2 ^ 32) dat value dat'))

merged8 : (dat value : ℕ) → Merged (2 ^ 8) dat value (dat - dat % 2 ^ 8 + value % 2 ^ 8)
merged8 dat value = record { low = omega arith; high = omega arith }

merged16 : (dat value : ℕ) → Merged (2 ^ 16) dat value (dat - dat % 2 ^ 16 + value % 2 ^ 16)
merged16 dat value = record { low = omega arith; high = omega arith }

merged32 : (dat value : ℕ) → Merged (2 ^ 32) dat value (store_low32 dat (value % 2 ^ 32))
merged32 dat value = record { low = omega arith; high = omega arith }

-- What a port access makes of the buffer and returns, by its direction and size.
abbrev pub Answered : (direction size dat value : ℕ) → ℕ × Ret → Type 0
Answered direction size dat value (dat', r) =
    ((direction ≢ 0) × (dat' ≡ dat) × (r ≡ ok))
    ⊎ (((direction ≡ 0) × ReadBack size dat value dat' × (r ≡ ok))
        ⊎ ((direction ≡ 0) × (size ≢ 1) × (size ≢ 2) × (size ≢ 4) × (dat' ≡ dat) × (r ≡ failed)))

-- The answer to a port access by its direction and size: a write leaves the buffer alone; a read
-- of 1, 2 or 4 bytes replaces exactly that many low bytes; a read of any other size fails and
-- leaves the buffer alone.
pub pio_answer_lem :
    (direction size dat value : ℕ)
    → Answered direction size dat value (pio_answer direction size dat value)
unfolding pio_answer
pio_answer_lem direction size dat value = elim (Bool-cases (direction == 0)) [
  | inr out ↦ inl (ground arith)
  | inl back ↦ elim (Bool-cases (size == 1)) [
    | inl one ↦
        rw (back, one) (inr (inl (ground arith, inl (ground arith, merged8 dat value), refl)))
    | inr not_one ↦ elim (Bool-cases (size == 2)) [
      | inl two ↦
          rw (back, not_one, two)
            (inr (inl (ground arith, inr (inl (ground arith, merged16 dat value)), refl)))
      | inr not_two ↦ elim (Bool-cases (size == 4)) [
        | inl four ↦
            rw (back, not_one, not_two, four)
              (inr (inl (ground arith, inr (inr (ground arith, merged32 dat value)), refl)))
        | inr other ↦ rw (back, not_one, not_two, other) (inr (inr (ground arith)))
      ]
    ]
  ]
]

-- A channel that is open is used again, without a new process.
channel-open :
    (nvcpus : ℕ) (s : Spawn) (cpu : ℕ) (d : DeviceNode)
    → get_or d.channel_fd cpu 0 ≢ 0
    → channel_for nvcpus s cpu d ≡ (d, some (get_or d.channel_fd cpu 0))
unfolding channel_for
channel-open nvcpus s cpu d h = ground arith

get_or-take_append :
    (n i : ℕ) (xs ys : List ℕ) (x : ℕ)
    → i < n
    → n ≤ length xs
    → get_or (take n xs ++ ys) i x ≡ get_or xs i x
get_or-take_append zero i xs ys x h k = elim h [ ]
get_or-take_append (suc n) i [] ys x h k = absurd (omega arith)
get_or-take_append (suc n) zero (y ∷ xs) ys x h k = refl
get_or-take_append (suc n) (suc i) (y ∷ xs) ys x h k =
    get_or-take_append n i xs ys x (omega arith) (omega arith)

started :
    (nvcpus : ℕ) (s : Spawn) (cpu : ℕ) (d : DeviceNode) {fds : List ℕ} {d' : DeviceNode} {fd : ℕ}
    → s.sockets ≡ some fds
    → get_or d.channel_fd cpu 0 ≡ 0
    → channel_for nvcpus s cpu d ≡ (d', some fd)
    → (connect nvcpus fds (record d { instance_pid = s.child }) ≡ d')
      × (get_or d'.channel_fd cpu 0 ≡ fd)
unfolding channel_for instantiate shake_hands
started nvcpus s cpu d sockets closed e = ground arith

-- Once a device has been started for the CPUs that there are, every one of them has its own end of
-- a socket to it, and all later accesses use these: no second process is made.
pub channel_lasts :
    (nvcpus : ℕ) (s s' : Spawn) (cpu : ℕ) (d : DeviceNode) {fds : List ℕ} {d' : DeviceNode} {fd : ℕ}
    → s.sockets ≡ some fds
    → length fds ≡ nvcpus
    → cpu < nvcpus
    → get_or d.channel_fd cpu 0 ≡ 0
    → get_or fds cpu 0 ≢ 0
    → channel_for nvcpus s cpu d ≡ (d', some fd)
    → (fd ≡ get_or fds cpu 0)
      × (d'.instance_pid ≡ s.child)
      × (channel_for nvcpus s' cpu d' ≡ (d', some fd))
channel_lasts nvcpus s s' cpu d {fds} {d'} {fd} sockets count small closed live e =
    let (made, got) = started nvcpus s cpu d sockets closed e in
    let own : get_or d'.channel_fd cpu 0 ≡ get_or fds cpu 0 =
      ap (λ (k : DeviceNode). get_or k.channel_fd cpu 0) (sym made)
      ∙ get_or-take_append nvcpus cpu fds (drop nvcpus d.channel_fd) 0 small (omega arith) in
    (
      sym got ∙ own,
      ap (λ (k : DeviceNode). k.instance_pid) (sym made),
      channel-open nvcpus s' cpu d' (λ z. live (sym own ∙ z)) ∙ ap (λ f. (d', some f)) got,
    )

update-absent :
    (ds : List DeviceNode) (i : ℕ) (f : DeviceNode → DeviceNode)
    → get_elem? ds i ≡ none
    → update_node ds i f ≡ ds
unfolding update_node
update-absent [] i f e = refl
update-absent (d ∷ ds) zero f e = cc
update-absent (d ∷ ds) (suc i) f e = ap (λ rest. d ∷ rest) (update-absent ds i f e)

pio_answer-write :
    (direction size dat value : ℕ) → direction ≢ 0 → (pio_answer direction size dat value).0 ≡ dat
unfolding pio_answer
pio_answer-write direction size dat value out = ground arith

update-same :
    (ds : List DeviceNode) (i : ℕ) {d : DeviceNode}
    → get_elem? ds i ≡ some d
    → update_node ds i (λ _. d) ≡ ds
unfolding update_node
update-same [] i e = refl
update-same (c ∷ ds) zero {d} e = let same : d ≡ c = cc in ap (λ x. x ∷ ds) same
update-same (c ∷ ds) (suc i) e = ap (λ rest. c ∷ rest) (update-same ds i e)

-- The machine is as before, and so is every device but the one at place `i`.
abbrev pub Only : ℕ → Bus → Bus → Type 0
Only i bus bus' =
    (bus'.hv ≡ bus.hv)
    × ((f : DeviceNode → DeviceNode) × (bus'.devices ≡ update_node bus.devices i f))

-- What a port access does: nothing if no device claims the port; else only the first one that
-- does may change, and the buffer only for a read.
abbrev pub Routed : (port direction : ℕ) → Bus → ℕ → Bus × ℕ × Ret → Type 0
Routed port direction bus dat (bus', dat', r) =
    (NoClaim port bus.devices × (bus' ≡ bus) × (dat' ≡ dat) × (r ≡ failed))
    ⊎ ((i : ℕ) × FirstClaim port bus.devices i × Only i bus bus' × ((direction ≡ 0) ⊎ (dat' ≡ dat)))

module _ (device : ℕ → IoRequest → Answer) where
  serve-Only :
      (bus : Bus) (cpu : ℕ) (s : Spawn) (i : ℕ) (io : IoRequest) (f : ℕ → ℕ × Ret) (dat : ℕ)
      → Only i bus (serve device bus cpu s i io f dat).0
  unfolding serve
  serve-Only bus cpu s i io f dat = by_node (get_elem? bus.devices i) refl
    where
      by_node :
          (o : Option DeviceNode)
          → get_elem? bus.devices i ≡ o
          → Only i bus (serve device bus cpu s i io f dat).0
      by_node none e = rw (e, serve) (refl, (λ d. d, sym (update-absent bus.devices i (λ d. d) e)))
      by_node (some d) e = rw (e, serve) (refl, (λ _. (channel_for bus.hv.nvcpus s cpu d).0, refl))

  exchange-keeps :
      (fd : Option ℕ) (io : IoRequest) (f : ℕ → ℕ × Ret) (dat : ℕ)
      → ((value : ℕ) → (f value).0 ≡ dat)
      → (exchange device fd io f dat).0 ≡ dat
  unfolding exchange
  exchange-keeps none io f dat h = refl
  exchange-keeps (some fd) io f dat h = elim (Bool-cases (request_sent io (device fd io).sent)) [
    | inl sent ↦ by_value (recv_value (device fd io).received) refl sent
    | inr unsent ↦ rw (unsent, exchange)
  ]
    where
      by_value :
          (o : Option ℕ)
          → recv_value (device fd io).received ≡ o
          → request_sent io (device fd io).sent ≡ true
          → (exchange device (some fd) io f dat).0 ≡ dat
      by_value none e sent = rw (sent, e, exchange)
      by_value (some value) e sent = rw (sent, e, exchange) (h value)

  serve-keeps :
      (bus : Bus) (cpu : ℕ) (s : Spawn) (i : ℕ) (io : IoRequest) (f : ℕ → ℕ × Ret) (dat : ℕ)
      → ((value : ℕ) → (f value).0 ≡ dat)
      → (serve device bus cpu s i io f dat).1 ≡ dat
  unfolding serve
  serve-keeps bus cpu s i io f dat h = by_node (get_elem? bus.devices i) refl
    where
      by_node :
          (o : Option DeviceNode)
          → get_elem? bus.devices i ≡ o
          → (serve device bus cpu s i io f dat).1 ≡ dat
      by_node none e = rw (e, serve)
      by_node (some d) e =
          rw (e, serve) (exchange-keeps (channel_for bus.hv.nvcpus s cpu d).1 io f dat h)

  -- A port access reaches the first device that claims the port: no other device and nothing of
  -- the machine changes, and only a read may change the guest's buffer. If no device claims the
  -- port, the access fails and changes nothing.
  pub handle_pio_lem :
      (bus : Bus) (cpu : ℕ) (s : Spawn) (port dat direction size count : ℕ)
      → Routed port direction bus dat (handle_pio device bus cpu s port dat direction size count)
  unfolding handle_pio
  handle_pio_lem bus cpu s port dat direction size count =
      by_answer (device_for_port port bus.devices) refl (port_lem port bus.devices)
    where
      io : IoRequest
      io = pio port direction size (dat % 2 ^ 32) count

      kept :
          (i : ℕ)
          → (direction ≡ 0)
            ⊎ ((serve device bus cpu s i io (pio_answer direction size dat) dat).1 ≡ dat)
      kept i = elim (Bool-cases (direction == 0)) [
        | inl back ↦ inl (ground arith)
        | inr out ↦ inr (
            serve-keeps bus cpu s i io (pio_answer direction size dat) dat
              (λ value. pio_answer-write direction size dat value (ground arith)))
      ]

      by_answer :
          (o : Option ℕ)
          → device_for_port port bus.devices ≡ o
          → Answers port bus.devices o
          → Routed port direction bus dat
              (handle_pio device bus cpu s port dat direction size count)
      by_answer none e a = rw (e, handle_pio) (inl (a, refl, refl, refl))
      by_answer (some i) e a =
          rw (e, handle_pio)
            (inr (i, a, serve-Only bus cpu s i io (pio_answer direction size dat) dat, kept i))

  -- An access to memory always returns. At an address of an APIC it succeeds and no device is
  -- involved, whatever addresses the devices claim; at any other it changes nothing of the machine.
  pub handle_mmio_lem :
      (bus : Bus) (cpu : ℕ) (v : Vcpu) (s : Spawn) (phys_addr dat len : ℕ) (is_write : Bool)
      → (bus' : Bus) × (dat' : ℕ) × (r : Ret) × (handle_mmio device bus cpu v s phys_addr dat len
            is_write
          ≡ some (bus', dat', r))
        × (((apic_access v phys_addr ≡ true) × (bus'.devices ≡ bus.devices) × (r ≡ ok))
            ⊎ ((apic_access v phys_addr ≡ false) × (bus'.hv ≡ bus.hv)))
  unfolding handle_mmio
  handle_mmio_lem bus cpu v s phys_addr dat len is_write =
      elim (Bool-cases (apic_access v phys_addr)) [
        | inl here ↦
            let ((hv', dat'), e) = apic_mmio-total bus.hv cpu v phys_addr dat len is_write in
            (record bus { hv = hv' }, dat', ok, rw (here, e), inl (here, refl, refl))
        | inr other ↦ by_device other (device_for_addr phys_addr bus.devices) refl
      ]
    where
      by_device :
          apic_access v phys_addr ≡ false
          → (o : Option ℕ) → device_for_addr phys_addr bus.devices ≡ o
          → (bus' : Bus) × (dat' : ℕ) × (r : Ret) × (handle_mmio device bus cpu v s phys_addr dat
                len is_write
              ≡ some (bus', dat', r))
            × (((apic_access v phys_addr ≡ true) × (bus'.devices ≡ bus.devices) × (r ≡ ok))
                ⊎ ((apic_access v phys_addr ≡ false) × (bus'.hv ≡ bus.hv)))
      by_device other none e = (bus, dat, failed, rw (other, e, handle_mmio), inr (other, refl))
      by_device other (some i) e =
          let (bus', dat', r) =
            serve device bus cpu s i (mmio phys_addr (dat % 2 ^ 32) len is_write)
              (mmio_answer is_write len dat) dat in
          (
            bus',
            dat',
            r,
            rw (other, e, handle_mmio),
            inr (
              other,
              (serve-Only bus cpu s i (mmio phys_addr (dat % 2 ^ 32) len is_write)
                  (mmio_answer is_write len dat) dat).0,
            ),
          )

  -- A device whose process is gone seems to answer: when nothing can be received on its channel,
  -- the access succeeds all the same, as if the device had answered 0.
  pub broken_reads_zero :
      (bus : Bus) (cpu : ℕ) (s : Spawn) (port dat direction size count : ℕ) {i : ℕ} {d : DeviceNode}
      → device_for_port port bus.devices ≡ some i
      → get_elem? bus.devices i ≡ some d
      → get_or d.channel_fd cpu 0 ≢ 0
      → (device (get_or d.channel_fd cpu 0) (pio port direction size (dat % 2 ^ 32) count)).sent
        ≡ whole
      → (device (get_or d.channel_fd cpu 0) (pio port direction size (dat % 2 ^ 32) count)).received
        ≡ broken
      → handle_pio device bus cpu s port dat direction size count
        ≡ (bus, (pio_answer direction size dat 0).0, (pio_answer direction size dat 0).1)
  unfolding handle_pio serve exchange request_sent recv_value
  broken_reads_zero bus cpu s port dat direction size count {i} {d} claims at live sent lost =
      rw
        (
          claims,
          handle_pio,
          at,
          serve,
          channel-open bus.hv.nvcpus s cpu d live,
          exchange,
          sent,
          lost,
        )
        (ap
          (λ ds. (
            record bus { devices = ds },
            (pio_answer direction size dat 0).0,
            (pio_answer direction size dat 0).1,
          ))
          (update-same bus.devices i at))
