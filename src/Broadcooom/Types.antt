-- ===== src/Broadcooom/Types.antt =====
-- devices/broadcooom/types.hpp: an instruction is a packed union of 5 bytes, so it is a number of
-- 40 bits, and each structure of the union reads its bit fields from the lowest bit on.
use dc2021f_ooows_public.Base.{ℕ, ◌+◌, ◌/◌, ◌%◌, ◌^◌, Option}

-- `NUM_THREADS`
abbrev pub num_threads : ℕ
num_threads = 4

-- A bit field of `width` bits from the bit `low` on.
abbrev pub field : (low width inst : ℕ) → ℕ
field low width inst = inst / 2 ^ low % 2 ^ width

abbrev pub opcode : ℕ → ℕ
opcode inst = field 0 6 inst

-- A register as an instruction names it: `reg_ref_type` and `register_ref`.
pub record RegRef : Type 0 where
  pub ref_type : ℕ
  pub reg : ℕ

abbrev pub reg_at : (low inst : ℕ) → RegRef
reg_at low inst = record { ref_type = field low 1 inst; reg = field (low + 1) 8 inst }

-- `READ` and `WRITE`; `CTX_SWAP`
abbrev pub read : ℕ
read = 0

abbrev pub write : ℕ
write = 1

abbrev pub ctx_swap : ℕ
ctx_swap = 1

-- The structures of the union
pub record Immediate : Type 0 where
  pub opcode : ℕ
  pub dst : RegRef
  pub ival : ℕ
  pub rot : ℕ

pub record Csr : Type 0 where
  pub dst : RegRef
  pub csr_num : ℕ

pub record Alu : Type 0 where
  pub opcode : ℕ
  pub dst : RegRef
  pub src_1 : RegRef
  pub kind : ℕ
  pub src_2 : RegRef
  pub shift : ℕ
  pub num_shift : ℕ

pub record Memory : Type 0 where
  pub opcode : ℕ
  pub direction : ℕ
  pub xfer_reg : RegRef
  pub addr_1 : RegRef
  pub addr_2 : RegRef
  pub count : ℕ
  pub token : ℕ

pub record Branch : Type 0 where
  pub opcode : ℕ
  pub src_1 : RegRef
  pub src_2 : RegRef
  pub target : ℕ

pub record Load : Type 0 where
  pub opcode : ℕ
  pub dst : RegRef
  pub mask : ℕ
  pub src : RegRef
  pub rot : ℕ

pub record Fifo : Type 0 where
  pub opcode : ℕ
  pub size : RegRef
  pub addr_1 : RegRef
  pub addr_2 : RegRef
  pub token : ℕ

abbrev pub immediate_inst : ℕ → Immediate
immediate_inst inst = record {
  opcode = opcode inst;
  dst = reg_at 6 inst;
  ival = field 15 16 inst;
  rot = field 31 2 inst;
}

abbrev pub csr_inst : ℕ → Csr
csr_inst inst = record { dst = reg_at 6 inst; csr_num = field 15 16 inst }

abbrev pub alu_inst : ℕ → Alu
alu_inst inst = record {
  opcode = opcode inst;
  dst = reg_at 6 inst;
  src_1 = reg_at 15 inst;
  kind = field 24 4 inst;
  src_2 = reg_at 28 inst;
  shift = field 37 1 inst;
  num_shift = field 38 2 inst;
}

abbrev pub memory_inst : ℕ → Memory
memory_inst inst = record {
  opcode = opcode inst;
  direction = field 6 1 inst;
  xfer_reg = reg_at 7 inst;
  addr_1 = reg_at 16 inst;
  addr_2 = reg_at 25 inst;
  count = field 34 4 inst;
  token = field 38 2 inst;
}

abbrev pub branch_inst : ℕ → Branch
branch_inst inst = record {
  opcode = opcode inst;
  src_1 = reg_at 6 inst;
  src_2 = reg_at 15 inst;
  target = field 24 12 inst;
}

abbrev pub load_inst : ℕ → Load
load_inst inst = record {
  opcode = opcode inst;
  dst = reg_at 6 inst;
  mask = field 15 4 inst;
  src = reg_at 19 inst;
  rot = field 28 2 inst;
}

abbrev pub fifo_inst : ℕ → Fifo
fifo_inst inst = record {
  opcode = opcode inst;
  size = reg_at 6 inst;
  addr_1 = reg_at 15 inst;
  addr_2 = reg_at 24 inst;
  token = field 33 2 inst;
}

-- `memory_job`: `start_reg` is a register's number, and the callback the thread that it makes
-- ready, if there is one. The same for `fifo_job`, whose `start` is an offset in words.
pub record MemoryJob : Type 0 where
  pub direction : ℕ
  pub mem_offset : ℕ
  pub start_reg : ℕ
  pub count : ℕ
  pub callback : Option ℕ

pub record FifoJob : Type 0 where
  pub size : ℕ
  pub start : ℕ
  pub callback : Option ℕ
