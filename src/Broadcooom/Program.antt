-- ===== src/Broadcooom/Program.antt =====
-- The program that the microengine runs: what changes it, and where it ends.
use dc2021f_ooows_public.Base.{
  ℕ, ◌+◌, ◌%◌, ◌^◌, ◌≤◌, ◌<◌, ◌≡◌, refl, ◌∙◌, Bool, true, false, ◌&&◌, ◌||◌, Option, none, some,
  leb, ◌==◌, if◌then◌else◌, arith, get_or, ◌⊎◌,
}
use dc2021f_ooows_public.Broadcooom.Opcode
use dc2021f_ooows_public.Broadcooom.Types.{
  reg_at, ctx_swap, num_threads, RegRef, Alu, Load, Memory, Fifo, opcode, alu_inst, memory_inst,
  load_inst, fifo_inst,
}
use dc2021f_ooows_public.Broadcooom.Engine.{
  Engine, absolute_register, register, registers_word, code_word, write_word, set_reg, reg_value,
  thread_ready_to_run,
}
use dc2021f_ooows_public.Broadcooom.Alu.{interpret_alu, alu_result, alu_value, with_result}
use dc2021f_ooows_public.Broadcooom.Fields.{
  interpret_immediate, interpret_load, cleared, interpret_csr,
}
use dc2021f_ooows_public.Broadcooom.Jobs.{
  interpret_memory, interpret_fifo, bad_register, disabled, swapped,
}
use dc2021f_ooows_public.Broadcooom.Interp.{
  interpret_branch, set_pc, interpret_instruction, interpret_fetched, fetch, run_thread,
  interpreter_round,
}
use dc2021f_ooows_public.Broadcooom.Threads.Rounds.{FoundReady, first_ready-FoundReady}

-- Only the 256 registers may differ.
abbrev SameMemory : Engine → Engine → Type 0
SameMemory e e' =
    (e'.ram ≡ e.ram) × ((i : ℕ) → (i < registers_word) ⊎ (code_word ≤ i) → e'.object i ≡ e.object i)

abbrev KeepsMemory : Engine → Option Engine → Type 0
KeepsMemory e none = Unit {0}
KeepsMemory e (some e') = SameMemory e e'

same_test : (P : Engine → Type 0) (t : Bool) (x y : Engine) → P x → P y → P (if t then x else y)
same_test P true x y p q = p
same_test P false x y p q = q

keeps_test :
    (e : Engine) (t : Bool) (x y : Option Engine)
    → KeepsMemory e x
    → KeepsMemory e y
    → KeepsMemory e (if t then x else y)
keeps_test e true x y p q = p
keeps_test e false x y p q = q

SameMemory-refl : (e : Engine) → SameMemory e e
SameMemory-refl e = (refl, λ i outside. refl)

register-lt :
    (e : Engine) (r : RegRef) → e.current_ctx < num_threads → r.reg < 256 → register e r < 256
unfolding absolute_register
register-lt e r current small = ground arith

write_word_outside :
    (words : ℕ → ℕ) (at v i : ℕ)
    → at < 256
    → (i < registers_word) ⊎ (code_word ≤ i)
    → write_word words (registers_word + at) v i ≡ words i
write_word_outside words at v i small outside = ground arith

SameMemory-set_reg :
    (e e' : Engine) (r v : ℕ) → r < 256 → SameMemory e e' → SameMemory e (set_reg e' r v)
SameMemory-set_reg e e' r v small (ram, object) =
    (ram, λ i outside. write_word_outside e'.object r v i small outside ∙ object i outside)

keeps-alu :
    (e : Engine) (a : Alu)
    → e.current_ctx < num_threads
    → a.dst.reg < 256
    → KeepsMemory e (interpret_alu e a)
unfolding interpret_alu
keeps-alu e a current small = by_kind ((a.opcode == Opcode.alu) || (a.opcode == Opcode.alu_shf)) (
    alu_result e.carry e.sign a.kind (reg_value e (register e a.src_1))
      (reg_value e (register e a.src_2)))
  where
    by_kind :
        (known : Bool) (result : Option ℕ)
        → KeepsMemory e (
            if known
            then elim result [ none ↦ none | some r ↦ some (with_result e a r) ]
            else some e)
    by_kind false result = SameMemory-refl e
    by_kind true none = tt
    by_kind true (some r) =
        let same =
          SameMemory-set_reg e e (register e a.dst) (alu_value a r)
            (register-lt e a.dst current small) (SameMemory-refl e) in
        (same.0, same.1)

same-cleared :
    (e : Engine) (l : Load)
    → e.current_ctx < num_threads
    → l.dst.reg < 256
    → SameMemory e (cleared e l)
same-cleared e l current small =
    same_test (SameMemory e) (l.opcode == Opcode.ld_field_w_clr) _ _
      (SameMemory-set_reg e e (register e l.dst) 0 (register-lt e l.dst current small)
        (SameMemory-refl e))
      (SameMemory-refl e)

same-swapped : (e e' : Engine) (token : ℕ) → SameMemory e e' → SameMemory e (swapped token e')
same-swapped e e' token same =
    same_test (SameMemory e) (token == ctx_swap) _ _ (same.0, same.1) same

same-disabled : (e : Engine) (token : ℕ) → SameMemory e (disabled e token)
same-disabled e token =
    same_test (SameMemory e) (token == ctx_swap) _ _ (refl, λ i outside. refl) (SameMemory-refl e)

same-memory : (e : Engine) (m : Memory) → SameMemory e (interpret_memory e m)
unfolding interpret_memory
same-memory e m =
    let same = same-disabled e m.token in
    same_test (SameMemory e) (bad_register e m) _ _ (SameMemory-refl e) (
      same-swapped e _ m.token (
        same_test (SameMemory e) (m.opcode == Opcode.scratch) _ _ (same.0, same.1)
          (same_test (SameMemory e) (m.opcode == Opcode.ram) _ _ (same.0, same.1) same)))

same-fifo : (e : Engine) (f : Fifo) → SameMemory e (interpret_fifo e f)
unfolding interpret_fifo
same-fifo e f =
    let same = same-disabled e f.token in
    same-swapped e _ f.token (
      same_test (SameMemory e) (f.opcode == Opcode.t_fifo_wr) _ _ (same.0, same.1)
        (same_test (SameMemory e) (f.opcode == Opcode.r_fifo_rd) _ _ (same.0, same.1)
          (same_test (SameMemory e) (f.opcode == Opcode.rx_pkt) _ _ (same.0, same.1) same)))

same-load :
    (e : Engine) (l : Load)
    → e.current_ctx < num_threads
    → l.dst.reg < 256
    → SameMemory e (interpret_load e l)
unfolding interpret_load
same-load e l current small =
    same_test (SameMemory e) ((l.opcode == Opcode.ld_field) || (l.opcode == Opcode.ld_field_w_clr))
      _ _
      (SameMemory-set_reg e (cleared e l) (register e l.dst) _ (register-lt e l.dst current small)
        (same-cleared e l current small))
      (SameMemory-refl e)

keeps-instruction :
    (e : Engine) (inst : ℕ)
    → e.current_ctx < num_threads
    → KeepsMemory e (interpret_instruction e inst)
unfolding interpret_instruction interpret_immediate interpret_csr interpret_load interpret_branch
keeps-instruction e inst current =
    keeps_test e (leb (opcode inst) Opcode.dbl_shf) _ _
      (keeps-alu e (alu_inst inst) current (omega arith))
      (keeps_test e (leb Opcode.immed (opcode inst) && leb (opcode inst) Opcode.immed_w1) _ _
        (SameMemory-set_reg e e (register e (reg_at 6 inst)) _
          (register-lt e (reg_at 6 inst) current (omega arith)) (SameMemory-refl e))
        (keeps_test e ((opcode inst == Opcode.scratch) || (opcode inst == Opcode.ram)) _ _
          (same-memory e (memory_inst inst))
          (keeps_test e (leb Opcode.br (opcode inst) && leb (opcode inst) Opcode.br_not_signal) _ _
            (same_test (SameMemory e) _ _ _ (refl, λ i outside. refl) (SameMemory-refl e))
            (keeps_test e
              ((opcode inst == Opcode.ld_field) || (opcode inst == Opcode.ld_field_w_clr)) _ _
              (same-load e (load_inst inst) current (omega arith))
              (keeps_test e
                ((opcode inst == Opcode.t_fifo_wr)
                  || ((opcode inst == Opcode.r_fifo_rd) || (opcode inst == Opcode.rx_pkt)))
                _ _ (same-fifo e (fifo_inst inst))
                (keeps_test e (opcode inst == Opcode.ctx_arb) _ _ (refl, λ i outside. refl)
                  (keeps_test e (opcode inst == Opcode.csr) _ _
                    (SameMemory-set_reg e e (register e (reg_at 6 inst)) _
                      (register-lt e (reg_at 6 inst) current (omega arith)) (SameMemory-refl e))
                    (SameMemory-refl e))))))))

keeps-fetched :
    (e : Engine) (inst : Option ℕ)
    → e.current_ctx < num_threads
    → KeepsMemory e (interpret_fetched e inst)
keeps-fetched e none current = tt
keeps-fetched e (some inst) current = keeps-instruction e inst current

keeps-run_thread :
    (e : Engine) (found : Option ℕ)
    → FoundReady e.ctx_ready found
    → KeepsMemory e (run_thread e found)
unfolding run_thread
keeps-run_thread e none h = SameMemory-refl e
keeps-run_thread e (some ctx) (small, flag) =
    let pc = get_or e.pc_ctx ctx 0 in
    let e' = set_pc (record e { current_ctx = ctx }) ((pc + 1) % 2 ^ 32) in
    keeps_test e (leb e.code_len pc) _ _ (refl, λ i outside. refl)
      (as_before (interpret_fetched e' (fetch e' pc)) (keeps-fetched e' (fetch e' pc) small))
  where
    as_before :
        (o : Option Engine)
        → KeepsMemory
            (set_pc (record e { current_ctx = ctx }) ((get_or e.pc_ctx ctx 0 + 1) % 2 ^ 32))
            o
        → KeepsMemory e o
    as_before none k = tt
    as_before (some x) k = (k.0, k.1)

round-KeepsMemory : (e : Engine) → e.current_ctx < num_threads → KeepsMemory e (interpreter_round e)
unfolding interpreter_round
round-KeepsMemory e current = keeps_test e e.done _ _ (SameMemory-refl e) (
    keeps-run_thread e (thread_ready_to_run e)
      (first_ready-FoundReady num_threads e.ctx_ready e.current_ctx current))

abbrev pub KeepsWord : Engine → ℕ → Option Engine → Type 0
KeepsWord e i none = Unit {0}
KeepsWord e i (some e') = (e'.ram ≡ e.ram) × (e'.object i ≡ e.object i)

-- A round of the interpreter, whatever the instruction, changes nothing in the RAM, in the scratch
-- memory, in the control register and in the code, unless what it does is undefined: of the object's
-- words only the 256 registers may differ.
pub interpreter_round-KeepsWord :
    (e : Engine) (i : ℕ)
    → e.current_ctx < num_threads
    → (i < registers_word) ⊎ (code_word ≤ i)
    → KeepsWord e i (interpreter_round e)
interpreter_round-KeepsWord e i current outside =
    of_memory (interpreter_round e) (round-KeepsMemory e current)
  where
    of_memory : (o : Option Engine) → KeepsMemory e o → KeepsWord e i o
    of_memory none k = tt
    of_memory (some e') k = (k.0, k.1 i outside)
