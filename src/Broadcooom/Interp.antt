-- ===== src/Broadcooom/Interp.antt =====
-- The interpreter of the microengine: branches, dispatch, and the loop over the threads.
use dc2021f_ooows_public.Base.{
  ℕ, ◌+◌, ◌*◌, ◌/◌, ◌%◌, ◌^◌, Bool, true, false, not, ◌&&◌, ◌||◌, Option, none, some, ltb, leb,
  ◌==◌, if◌then◌else◌, get_or, set,
}
use dc2021f_ooows_public.Broadcooom.Opcode
use dc2021f_ooows_public.Broadcooom.Types.{
  opcode, Branch, alu_inst, immediate_inst, memory_inst, branch_inst, load_inst, fifo_inst,
  csr_inst,
}
use dc2021f_ooows_public.Broadcooom.Engine.{
  Engine, register, reg_value, code_word, next_context, thread_ready_to_run,
}
use dc2021f_ooows_public.Broadcooom.Alu.{interpret_alu}
use dc2021f_ooows_public.Broadcooom.Fields.{interpret_immediate, interpret_load, interpret_csr}
use dc2021f_ooows_public.Broadcooom.Jobs.{interpret_memory, interpret_fifo}

-- The order of `int32_t`: the words from 2 ^ 31 on are negative.
abbrev pub signed_key : ℕ → ℕ
signed_key w = (w + 2 ^ 31) % 2 ^ 32

abbrev pub less : ℕ → ℕ → Bool
less a b = ltb (signed_key a) (signed_key b)

-- Whether a branch is taken; the kinds that are not implemented never are.
unfoldable pub goes_to_target : (opcode ctx a b : ℕ) → Bool
goes_to_target opcode ctx a b =
    if opcode == Opcode.br
    then true
    else if opcode == Opcode.br_eq
    then a == b
    else if opcode == Opcode.br_neq
    then not (a == b)
    else if opcode == Opcode.br_less
    then less a b
    else if opcode == Opcode.br_less_eq
    then not (less b a)
    else if opcode == Opcode.br_greater
    then less b a
    else if opcode == Opcode.br_greater_eq
    then not (less a b)
    else if opcode == Opcode.br_eq_ctx
    then a == ctx
    else if opcode == Opcode.br_neq_ctx
    then not (a == ctx)
    else false

abbrev pub set_pc : Engine → ℕ → Engine
set_pc e pc = record e { pc_ctx = set e.pc_ctx e.current_ctx pc }

-- `interpret_branch_instruction`
unfoldable pub interpret_branch : Engine → Branch → Engine
unfolding goes_to_target
interpret_branch e b =
    if goes_to_target b.opcode e.current_ctx (reg_value e (register e b.src_1))
      (reg_value e (register e b.src_2))
    then set_pc e b.target
    else e

-- `interpret_instruction`
unfoldable pub interpret_instruction : Engine → ℕ → Option Engine
interpret_instruction e inst =
    let op = opcode inst in
    if leb op Opcode.dbl_shf
    then interpret_alu e (alu_inst inst)
    else if leb Opcode.immed op && leb op Opcode.immed_w1
    then some (interpret_immediate e (immediate_inst inst))
    else if op == Opcode.scratch || op == Opcode.ram
    then some (interpret_memory e (memory_inst inst))
    else if leb Opcode.br op && leb op Opcode.br_not_signal
    then some (interpret_branch e (branch_inst inst))
    else if op == Opcode.ld_field || op == Opcode.ld_field_w_clr
    then some (interpret_load e (load_inst inst))
    else if op == Opcode.t_fifo_wr || (op == Opcode.r_fifo_rd || op == Opcode.rx_pkt)
    then some (interpret_fifo e (fifo_inst inst))
    else if op == Opcode.ctx_arb
    then some (next_context e)
    else if op == Opcode.csr
    then some (interpret_csr e (csr_inst inst))
    else some e

-- The byte `k` of `m_code`, and the instruction at `pc`, if that lies in the array.
abbrev pub code_byte : Engine → ℕ → ℕ
code_byte e k = e.object (code_word + k / 4) / 256 ^ (k % 4) % 256

unfoldable pub fetch : Engine → ℕ → Option ℕ
fetch e pc =
    let at = 5 * pc in
    if ltb pc 1024
    then some (
        code_byte e at
        + 2 ^ 8 * code_byte e (at + 1)
        + 2 ^ 16 * code_byte e (at + 2)
        + 2 ^ 24 * code_byte e (at + 3)
        + 2 ^ 32 * code_byte e (at + 4))
    else none

abbrev pub interpret_fetched : Engine → Option ℕ → Option Engine
interpret_fetched e none = none
interpret_fetched e (some inst) = interpret_instruction e inst

-- One round of `interpreter_loop` for the thread that is found: its counter goes up first.
unfoldable pub run_thread : Engine → Option ℕ → Option Engine
unfolding fetch
run_thread e none = some e
run_thread e (some ctx) =
    let pc = get_or e.pc_ctx ctx 0 in
    let e' = set_pc (record e { current_ctx = ctx }) ((pc + 1) % 2 ^ 32) in
    if leb e.code_len pc
    then some (record e' { done = true })
    else interpret_fetched e' (fetch e' pc)

unfoldable pub interpreter_round : Engine → Option Engine
unfolding run_thread
interpreter_round e = if e.done then some e else run_thread e (thread_ready_to_run e)
