-- ===== src/Broadcooom/Engine.antt =====
-- The state of a `Microengine`, and its registers as a thread names them.
use dc2021f_ooows_public.Base.{
  ℕ, zero, suc, ◌+◌, ◌-◌, ◌*◌, ◌%◌, Bool, true, false, ◌&&◌, Option, none, some, List, [], ltb, leb,
  ◌==◌, if◌then◌else◌, get_or, replicate,
}
use dc2021f_ooows_public.Broadcooom.Crc.{crc32_tab}
use dc2021f_ooows_public.Broadcooom.Types.{num_threads, RegRef, MemoryJob, FifoJob}

-- `m_scratch`, `m_csr`, `m_registers` and `m_code` lie behind one another: they are one array of
-- words, the code (1024 instructions of 5 bytes) in its last part. What an access beyond that would
-- hit, and any other behaviour that C++ leaves undefined, is `none`.
abbrev pub csr_word : ℕ
csr_word = 1024

abbrev pub registers_word : ℕ
registers_word = 1025

abbrev pub code_word : ℕ
code_word = 1281

abbrev pub object_words : ℕ
object_words = 2561

-- The 8 MB that `m_ram` points at, in words.
abbrev pub ram_words : ℕ
ram_words = 0x200000

-- A job that a memory thread has taken from its queue, with the rounds of its loop that are done.
pub record Held : Type 0 where
  pub job : MemoryJob
  pub i : ℕ

-- The members of `Microengine`. `taken` are the jobs that the threads of phy.cpp and ooows-net.cpp
-- have taken from the three queues and not finished.
pub record Engine : Type 0 where
  pub current_ctx : ℕ
  pub pc_ctx : List ℕ
  pub object : ℕ → ℕ
  pub ram : ℕ → ℕ
  pub ctx_ready : List Bool
  pub code_len : ℕ
  pub done : Bool
  pub mac : List ℕ
  pub carry : ℕ
  pub sign : ℕ
  pub last_alu : ℕ
  pub scratch_queue : List MemoryJob
  pub ram_queue : List MemoryJob
  pub scratch_held : Option Held
  pub ram_held : Option Held
  pub tx_queue : List FifoJob
  pub rx_queue : List FifoJob
  pub pkt_in_queue : List FifoJob
  pub taken : List FifoJob

-- `absolute_register`; `register_ref` has 8 bits, and `sizeof(m_registers)` is 1024.
unfoldable pub absolute_register : ℕ → RegRef → ℕ
absolute_register ctx r =
    if r.ref_type == 1
    then r.reg
    else if ltb r.reg 32
    then (r.reg + ctx * 32) % 1024 % 256
    else if leb 32 r.reg && ltb r.reg 48
    then ((r.reg - 32 + 128) % 256 + ctx * 16) % 1024 % 256
    else ((r.reg - 48 + 192) % 256 + ctx * 16) % 1024 % 256

abbrev pub register : Engine → RegRef → ℕ
register e r = absolute_register e.current_ctx r

-- `m_registers[r]`
abbrev pub reg_value : Engine → ℕ → ℕ
reg_value e r = e.object (registers_word + r)

abbrev pub write_word : (ℕ → ℕ) → ℕ → ℕ → ℕ → ℕ
write_word words at v i = if i == at then v else words i

abbrev pub set_reg : Engine → ℕ → ℕ → Engine
set_reg e r v = record e { object = write_word e.object (registers_word + r) v }

-- `is_memory_read_register` and `is_memory_write_register`; the count is not looked at.
unfoldable pub is_memory_read_register : ℕ → ℕ → Bool
is_memory_read_register reg count = leb 192 reg && ltb reg 256

unfoldable pub is_memory_write_register : ℕ → ℕ → Bool
is_memory_write_register reg count = leb 128 reg && ltb reg 192

-- `next_context`
abbrev pub next_context : Engine → Engine
next_context e = record e { current_ctx = (e.current_ctx + 1) % num_threads }

-- One pass of `thread_ready_to_run` over the threads, from the current one on; where it finds
-- none, the code sleeps and is back where it began.
unfoldable pub first_ready : ℕ → List Bool → ℕ → Option ℕ
first_ready zero ready ctx = none
first_ready (suc rounds) ready ctx =
    let rest = first_ready rounds ready ((ctx + 1) % num_threads) in
    if get_or ready ctx false then some ctx else rest

abbrev pub thread_ready_to_run : Engine → Option ℕ
thread_ready_to_run e = first_ready num_threads e.ctx_ready e.current_ctx

-- The constructor, for the code's bytes as words, their number, and what `m_last_alu`, which it
-- leaves unset, happens to hold. A code that is too long is an exception.
abbrev pub constructed : (ℕ → ℕ) → (code_len last_alu : ℕ) → (ℕ → ℕ) → Engine
constructed code code_len last_alu ram = record {
  current_ctx = 0;
  pc_ctx = replicate num_threads 0;
  object = λ i. if ltb i code_word then 0 else code (i - code_word);
  ram = λ i. if leb 0x400 i && ltb i 0x500 then get_or crc32_tab (i - 0x400) 0 else ram i;
  ctx_ready = replicate num_threads true;
  code_len = code_len;
  done = false;
  mac = replicate 6 0;
  carry = 0;
  sign = 0;
  last_alu = last_alu;
  scratch_queue = [];
  ram_queue = [];
  scratch_held = none;
  ram_held = none;
  tx_queue = [];
  rx_queue = [];
  pkt_in_queue = [];
  taken = [];
}

unfoldable pub microengine : (ℕ → ℕ) → (code_len last_alu : ℕ) → (ℕ → ℕ) → Option Engine
microengine code code_len last_alu ram =
    if ltb 5120 code_len then none else some (constructed code code_len last_alu ram)
