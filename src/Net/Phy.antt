-- ===== src/Net/Phy.antt =====
-- The physical side of the network device: devices/broadcooom/phy.cpp. What is published is recorded.
use dc2021f_ooows_public.Base.{
  ℕ, ◌+◌, ◌%◌, ◌^◌, ◌/◌, List, [], ◌∷◌, ◌++◌, ltb, leb, ◌==◌, if◌then◌else◌, length, take, drop,
}
use dc2021f_ooows_public.Broadcooom.Types.{FifoJob}
use dc2021f_ooows_public.Broadcooom.Engine.{Engine, registers_word, write_word}
use dc2021f_ooows_public.Broadcooom.Fields.{from_bytes}
use dc2021f_ooows_public.Broadcooom.Jobs.{call}
use dc2021f_ooows_public.Net.Device.{with_pkt, packet_bytes}

-- `MAX_ETHERNET_SIZE`
abbrev pub max_ethernet_size : ℕ
max_ethernet_size = 1518

-- The job of `incoming_packet` is done with the packet's bytes behind the sender's number.
abbrev pub received : Engine → FifoJob → List FifoJob → List ℕ → Engine
received e job rest bytes = call job.callback (record e {
  rx_queue = rest;
  object = write_word e.object (registers_word + job.size) (length bytes);
  ram = with_pkt e.ram job.start bytes;
})

abbrev pub rx_get : Engine → List FifoJob → List ℕ → Engine
rx_get e [] payload = e
rx_get e (job ∷ rest) payload = received e job rest (drop 4 payload)

-- `incoming_packet`: a packet that nobody waits for, that is too small or too large, or that begins
-- with the number `nic` of this device itself, is ignored.
unfoldable pub incoming_packet : (nic : ℕ) → Engine → List ℕ → Engine
incoming_packet nic e payload =
    if leb (length payload) 4
    then e
    else if ltb max_ethernet_size (length payload)
    then e
    else if from_bytes (take 4 payload) == nic
    then e
    else rx_get e e.rx_queue payload

-- A round of `Phy::handle_tx`, with what it publishes; with an empty queue it waits. The size is the
-- whole word of the job's register.
abbrev pub bytes_of : ℕ → List ℕ
bytes_of word =
    word % 256 ∷ (word / 256 % 256 ∷ (word / 256 ^ 2 % 256 ∷ (word / 256 ^ 3 % 256 ∷ [])))

abbrev pub tx_get : (nic : ℕ) → Engine → List FifoJob → Engine × List (List ℕ)
tx_get nic e [] = (e, [])
tx_get nic e (job ∷ rest) = (
  call job.callback (record e { tx_queue = rest }),
  (bytes_of nic ++ packet_bytes e.ram job.start 0 (e.object (registers_word + job.size))) ∷ [],
)

unfoldable pub phy_handle_tx : (nic : ℕ) → Engine → Engine × List (List ℕ)
phy_handle_tx nic e = tx_get nic e e.tx_queue
