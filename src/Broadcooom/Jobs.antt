-- ===== src/Broadcooom/Jobs.antt =====
-- Requests of the microengine to memory and to the packet queues, and the threads that serve them.
use dc2021f_ooows_public.Base.{
  ℕ, ◌+◌, ◌%◌, ◌^◌, Bool, true, false, not, ◌&&◌, ◌||◌, Option, none, some, List, [], ◌∷◌, ◌++◌,
  ltb, ◌==◌, if◌then◌else◌, set,
}
use dc2021f_ooows_public.Broadcooom.Opcode
use dc2021f_ooows_public.Broadcooom.Types.{read, write, ctx_swap, Memory, Fifo, MemoryJob, FifoJob}
use dc2021f_ooows_public.Broadcooom.Engine.{
  Engine, Held, register, reg_value, write_word, registers_word, object_words, ram_words,
  is_memory_read_register, is_memory_write_register, next_context,
}

-- The count of 0 stands for the low byte of the last result of the arithmetic unit.
abbrev pub job_count : Engine → Memory → ℕ
job_count e m = if m.count == 0 then e.last_alu % 2 ^ 8 else m.count

abbrev pub bad_register : Engine → Memory → Bool
bad_register e m =
    let xfer_reg = register e m.xfer_reg in
    let count = job_count e m in
    m.direction == read && not (is_memory_read_register xfer_reg count)
    || m.direction == write && not (is_memory_write_register xfer_reg count)

-- With `CTX_SWAP` the callback makes the thread ready again.
abbrev pub callback_of : Engine → ℕ → Option ℕ
callback_of e token = if token == ctx_swap then some e.current_ctx else none

abbrev pub memory_job : Engine → Memory → MemoryJob
memory_job e m = record {
  direction = m.direction;
  mem_offset = (reg_value e (register e m.addr_1) + reg_value e (register e m.addr_2)) % 2 ^ 32;
  start_reg = register e m.xfer_reg;
  count = job_count e m;
  callback = callback_of e m.token;
}

-- With `CTX_SWAP` the thread is disabled before the request is queued, and swapped out after it.
abbrev pub disabled : Engine → ℕ → Engine
disabled e token =
    if token == ctx_swap then record e { ctx_ready = set e.ctx_ready e.current_ctx false } else e

abbrev pub swapped : ℕ → Engine → Engine
swapped token e = if token == ctx_swap then next_context e else e

-- `ThreadedQueue::put`
abbrev pub put {ℓ} : {T : Type ℓ} → List T → T → List T
put queue item = queue ++ (item ∷ [])

abbrev pub queued : Engine → Memory → MemoryJob → Engine
queued e m job =
    if m.opcode == Opcode.scratch
    then record e { scratch_queue = put e.scratch_queue job }
    else if m.opcode == Opcode.ram
    then record e { ram_queue = put e.ram_queue job }
    else e

-- `interpret_memory_instruction`
unfoldable pub interpret_memory : Engine → Memory → Engine
unfolding is_memory_read_register is_memory_write_register
interpret_memory e m =
    if bad_register e m then e else swapped m.token (queued (disabled e m.token) m (memory_job e m))

abbrev pub fifo_job : Engine → Fifo → FifoJob
fifo_job e f = record {
  size = register e f.size;
  start = (reg_value e (register e f.addr_1) + reg_value e (register e f.addr_2)) % 2 ^ 32;
  callback = callback_of e f.token;
}

abbrev pub fifo_queued : Engine → Fifo → FifoJob → Engine
fifo_queued e f job =
    if f.opcode == Opcode.t_fifo_wr
    then record e { tx_queue = put e.tx_queue job }
    else if f.opcode == Opcode.r_fifo_rd
    then record e { rx_queue = put e.rx_queue job }
    else if f.opcode == Opcode.rx_pkt
    then record e { pkt_in_queue = put e.pkt_in_queue job }
    else e

-- `interpret_fifo_instruction`
unfoldable pub interpret_fifo : Engine → Fifo → Engine
interpret_fifo e f = swapped f.token (fifo_queued (disabled e f.token) f (fifo_job e f))

-- What a job calls when it is finished.
abbrev pub call : Option ℕ → Engine → Engine
call none e = e
call (some ctx) e = record e { ctx_ready = set e.ctx_ready ctx true }

-- The word of the registers' side and the word of the memory's side of round `i`.
abbrev pub reg_side : Held → ℕ
reg_side h = registers_word + h.job.start_reg + h.i

abbrev pub mem_side : Held → ℕ
mem_side h = (h.job.mem_offset + h.i) % 2 ^ 32

-- One round of the loop of `handle_scratch`, on the words of the object itself.
abbrev pub scratch_word : Held → (ℕ → ℕ) → Option (ℕ → ℕ)
scratch_word h object =
    if not (ltb (mem_side h) object_words && ltb (reg_side h) object_words)
    then none
    else if h.job.direction == write
    then some (write_word object (mem_side h) (object (reg_side h)))
    else some (write_word object (reg_side h) (object (mem_side h)))

abbrev pub next_round : Held → Held
next_round h = record h { i = h.i + 1 }

abbrev pub scratch_copied : Engine → Held → Option (ℕ → ℕ) → Option Engine
scratch_copied e h none = none
scratch_copied e h (some object) =
    some (record e { object = object; scratch_held = some (next_round h) })

abbrev pub scratch_get : Engine → List MemoryJob → Engine
scratch_get e [] = e
scratch_get e (job ∷ rest) = record e {
  scratch_queue = rest;
  scratch_held = some (record { job = job; i = 0 });
}

abbrev pub scratch_step : Engine → Option Held → Option Engine
scratch_step e none = some (scratch_get e e.scratch_queue)
scratch_step e (some h) =
    if ltb h.i h.job.count
    then scratch_copied e h (scratch_word h e.object)
    else some (call h.job.callback (record e { scratch_held = none }))

-- A step of `handle_scratch`: it takes a job, copies one word, or calls back. With an empty queue
-- it waits.
unfoldable pub handle_scratch : Engine → Option Engine
handle_scratch e = scratch_step e e.scratch_held

-- The same for `handle_ram`, between the object's registers and the RAM.
abbrev pub ram_copied : Engine → Held → Option Engine
ram_copied e h =
    if not (ltb (mem_side h) ram_words && ltb (reg_side h) object_words)
    then none
    else if h.job.direction == write
    then some (record e {
      ram = write_word e.ram (mem_side h) (e.object (reg_side h));
      ram_held = some (next_round h);
    })
    else some (record e {
      object = write_word e.object (reg_side h) (e.ram (mem_side h));
      ram_held = some (next_round h);
    })

abbrev pub ram_get : Engine → List MemoryJob → Engine
ram_get e [] = e
ram_get e (job ∷ rest) = record e {
  ram_queue = rest;
  ram_held = some (record { job = job; i = 0 });
}

abbrev pub ram_step : Engine → Option Held → Option Engine
ram_step e none = some (ram_get e e.ram_queue)
ram_step e (some h) =
    if ltb h.i h.job.count
    then ram_copied e h
    else some (call h.job.callback (record e { ram_held = none }))

unfoldable pub handle_ram : Engine → Option Engine
handle_ram e = ram_step e e.ram_held
