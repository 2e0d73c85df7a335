-- ===== src/Broadcooom/Threads.antt =====
-- The threads of the microengine and those of its environment, as steps; and that no thread of the
-- microengine is lost: each one is either ready or waited for by exactly one job.
pub mod Balance
pub mod Instructions
pub mod Rounds
pub mod Service
pub mod Waits
use dc2021f_ooows_public.Base.{
  ℕ, ◌+◌, ◌<◌, ◌≡◌, Bool, true, false, Option, none, some, List, [], ◌∷◌, ◌++◌, ◌==◌, if◌then◌else◌,
  length, get_or,
}
use dc2021f_ooows_public.Broadcooom.Types.{num_threads, MemoryJob, FifoJob}
use dc2021f_ooows_public.Broadcooom.Engine.{Engine, Held, write_word, registers_word, microengine}
use dc2021f_ooows_public.Broadcooom.Jobs.{call, handle_scratch, handle_ram}
use dc2021f_ooows_public.Broadcooom.Interp.{interpreter_round}

-- The threads of phy.cpp and ooows-net.cpp take a job from a queue, may write its size register and
-- the RAM, and call its callback. An error of `handleRx`, which drops its job, is no step here.
pub data Step : Engine → Engine → Type 0 where
  interpret : {e e' : Engine} → interpreter_round e ≡ some e' → Step e e'
  scratch : {e e' : Engine} → handle_scratch e ≡ some e' → Step e e'
  ram : {e e' : Engine} → handle_ram e ≡ some e' → Step e e'
  take_tx :
      {e : Engine} (job : FifoJob) {rest : List FifoJob}
      → e.tx_queue ≡ job ∷ rest
      → Step e (record e { tx_queue = rest; taken = job ∷ e.taken })
  take_rx :
      {e : Engine} (job : FifoJob) {rest : List FifoJob}
      → e.rx_queue ≡ job ∷ rest
      → Step e (record e { rx_queue = rest; taken = job ∷ e.taken })
  take_pkt_in :
      {e : Engine} (job : FifoJob) {rest : List FifoJob}
      → e.pkt_in_queue ≡ job ∷ rest
      → Step e (record e { pkt_in_queue = rest; taken = job ∷ e.taken })
  finish :
      {e : Engine} (job : FifoJob) (front back : List FifoJob) (size : ℕ) (memory : ℕ → ℕ)
      → e.taken ≡ front ++ (job ∷ back)
      → Step e (
          call job.callback (record e {
            taken = front ++ back;
            object = write_word e.object (registers_word + job.size) size;
            ram = memory;
          }))
  -- `handleTx` writes a packet to the RAM and an entry to the ring, `handleControl` switches bits of
  -- the CSR and sets the address; they take no job. Whatever they write is allowed here.
  write_words :
      {e : Engine} (object ram : ℕ → ℕ) (mac : List ℕ)
      → Step e (record e { object = object; ram = ram; mac = mac })

pub data Reach (start : Engine) : Engine → Type 0 where
  here : Reach start start
  next : {e e' : Engine} → Reach start e → Step e e' → Reach start e'

-- How many jobs make the thread `c` ready when they are finished.
abbrev pub for_thread : ℕ → Option ℕ → ℕ
for_thread c none = 0
for_thread c (some ctx) = if c == ctx then 1 else 0

abbrev pub memory_jobs : ℕ → List MemoryJob → ℕ
memory_jobs c [] = 0
memory_jobs c (job ∷ jobs) = for_thread c job.callback + memory_jobs c jobs

abbrev pub fifo_jobs : ℕ → List FifoJob → ℕ
fifo_jobs c [] = 0
fifo_jobs c (job ∷ jobs) = for_thread c job.callback + fifo_jobs c jobs

abbrev pub held_jobs : ℕ → Option Held → ℕ
held_jobs c none = 0
held_jobs c (some h) = for_thread c h.job.callback

abbrev pub pending : ℕ → Engine → ℕ
pending c e =
    memory_jobs c e.scratch_queue
    + memory_jobs c e.ram_queue
    + held_jobs c e.scratch_held
    + held_jobs c e.ram_held
    + fifo_jobs c e.tx_queue
    + fifo_jobs c e.rx_queue
    + fifo_jobs c e.pkt_in_queue
    + fifo_jobs c e.taken

abbrev pub ready : ℕ → Engine → ℕ
ready c e = if get_or e.ctx_ready c false then 1 else 0

pub record IsBalanced (e : Engine) : Type 0 where
  pub current : e.current_ctx < num_threads
  pub threads : length e.ctx_ready ≡ num_threads
  pub balance : (c : ℕ) → c < num_threads → ready c e + pending c e ≡ 1
