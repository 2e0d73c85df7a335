-- ===== src/Broadcooom/Tests.antt =====
-- Runs of the microengine, and the theorems at concrete states.
use dc2021f_ooows_public.Base.{
  ℕ, suc, ◌+◌, ◌-◌, ◌*◌, ◌/◌, ◌%◌, ◌^◌, ◌≡◌, refl, inr, true, false, none, some, List, [], ◌∷◌,
  ◌++◌, ltb, leb, ◌==◌, ◌&&◌, if◌then◌else◌, arith, replicate,
}
use dc2021f_ooows_public.Base.Bits.{bit}
use dc2021f_ooows_public.Broadcooom.Opcode
use dc2021f_ooows_public.Broadcooom.Types.{RegRef, MemoryJob, Load, read, write}
use dc2021f_ooows_public.Broadcooom.Engine.{
  Engine, constructed, microengine, absolute_register, register, registers_word, code_word,
  reg_value, first_ready, thread_ready_to_run, is_memory_read_register, is_memory_write_register,
}
use dc2021f_ooows_public.Broadcooom.Alu.{interpret_alu}
use dc2021f_ooows_public.Broadcooom.Fields.{perform_rot, interpret_load}
use dc2021f_ooows_public.Broadcooom.Jobs.{call, interpret_memory}
use dc2021f_ooows_public.Broadcooom.Interp.{
  interpret_instruction, fetch, run_thread, interpreter_round,
}
use dc2021f_ooows_public.Broadcooom.Threads.{Step, Reach, pending, IsBalanced}
use dc2021f_ooows_public.Broadcooom.Threads.Service.{Reach-IsBalanced}
use dc2021f_ooows_public.Broadcooom.Threads.Waits.{thread_ready_to_run-waits}
use dc2021f_ooows_public.Broadcooom.Wide.{wide, alu_of, plus, plus_carry, plus_carry-sum}
use dc2021f_ooows_public.Broadcooom.Table.{crc_rounds, microengine-crc32}
use dc2021f_ooows_public.Broadcooom.Merge.{interpret_load-bit}
use dc2021f_ooows_public.Broadcooom.Copies.Scratch.{scratch_rounds, scratch_words, scratch_job_lem}
use dc2021f_ooows_public.Broadcooom.Copies.Exchange.{scratch_read-overwrites}
use dc2021f_ooows_public.Broadcooom.Program.{KeepsWord, interpreter_round-KeepsWord}

-- The one instruction of this program reads two words of the scratch memory into the first of the
-- thread's own read registers and swaps the thread out.
abbrev words : ℕ → ℕ
words i = if i == 0 then 12314 else 72

abbrev no_ram : ℕ → ℕ
no_ram i = 0

abbrev start : Engine
start = constructed words 5 0 no_ram

abbrev job : ℕ → MemoryJob
job c = record {
  direction = read;
  mem_offset = 0;
  start_reg = 192 + 16 * c;
  count = 2;
  callback = some c;
}

-- The engine when as many threads have run their instruction.
abbrev asleep : ℕ → List MemoryJob → Engine
asleep n jobs = record start {
  current_ctx = n % 4;
  pc_ctx = replicate n 1 ++ replicate (4 - n) 0;
  ctx_ready = replicate n false ++ replicate (4 - n) true;
  scratch_queue = jobs;
}

abbrev all_jobs : List MemoryJob
all_jobs = job 0 ∷ (job 1 ∷ (job 2 ∷ (job 3 ∷ [])))

made : microengine words 5 0 no_ram ≡ some start
unfolding microengine
made = refl

first_round : interpreter_round start ≡ some (asleep 1 (job 0 ∷ []))
unfolding interpreter_round run_thread fetch first_ready interpret_instruction interpret_memory
    absolute_register is_memory_read_register is_memory_write_register
first_round = refl

second_round : interpreter_round (asleep 1 (job 0 ∷ [])) ≡ some (asleep 2 (job 0 ∷ (job 1 ∷ [])))
unfolding interpreter_round run_thread fetch first_ready interpret_instruction interpret_memory
    absolute_register is_memory_read_register is_memory_write_register
second_round = refl

third_round :
    interpreter_round (asleep 2 (job 0 ∷ (job 1 ∷ [])))
    ≡ some (asleep 3 (job 0 ∷ (job 1 ∷ (job 2 ∷ []))))
unfolding interpreter_round run_thread fetch first_ready interpret_instruction interpret_memory
    absolute_register is_memory_read_register is_memory_write_register
third_round = refl

fourth_round :
    interpreter_round (asleep 3 (job 0 ∷ (job 1 ∷ (job 2 ∷ [])))) ≡ some (asleep 4 all_jobs)
unfolding interpreter_round run_thread fetch first_ready interpret_instruction interpret_memory
    absolute_register is_memory_read_register is_memory_write_register
fourth_round = refl

all_asleep : Reach start (asleep 4 all_jobs)
all_asleep =
    Reach.next
      (Reach.next
        (Reach.next (Reach.next Reach.here (Step.interpret first_round))
          (Step.interpret second_round))
        (Step.interpret third_round))
      (Step.interpret fourth_round)

Reach-IsBalanced_example : IsBalanced (asleep 4 all_jobs)
Reach-IsBalanced_example =
    Reach-IsBalanced words 5 0 no_ram start (asleep 4 all_jobs) made all_asleep

none_found : thread_ready_to_run (asleep 4 all_jobs) ≡ none
unfolding first_ready
none_found = refl

thread_ready_to_run-waits_example : pending 2 (asleep 4 all_jobs) ≡ 1
thread_ready_to_run-waits_example =
    thread_ready_to_run-waits words 5 0 no_ram start (asleep 4 all_jobs) made all_asleep none_found
      2 (omega arith)

abbrev relative : ℕ → RegRef
relative reg = record { ref_type = 0; reg = reg }

abbrev absolute : ℕ → RegRef
absolute reg = record { ref_type = 1; reg = reg }

same_register : absolute_register 2 (relative 40) ≡ absolute_register 2 (relative 40)
same_register = refl

abbrev third : ℕ
third = 2

-- The registers 0 to 3 hold the double words 2 ^ 32 - 1 and 1, the high words behind the low ones.
abbrev summands : Engine
summands = record start {
  object =
      λ i. if i == registers_word then 2 ^ 32 - 1 else if i == registers_word + 1 then 1 else 0;
}

plus_carry-sum_example :
    (e' : Engine) × (e'' : Engine) × (interpret_alu summands
        (alu_of plus (absolute 4) (absolute 0) (absolute 1))
      ≡ some e')
    × (interpret_alu e' (alu_of plus_carry (absolute 5) (absolute 2) (absolute 3)) ≡ some e'')
    × (wide e'' (absolute 4) (absolute 5)
        ≡ (wide summands (absolute 0) (absolute 2) + wide summands (absolute 1) (absolute 3))
          % 2 ^ 64)
unfolding absolute_register
plus_carry-sum_example =
    plus_carry-sum summands (absolute 4) (absolute 5) (absolute 0) (absolute 2) (absolute 1)
      (absolute 3) (omega arith) (omega arith) (λ h. absurd (omega arith))
      (λ h. absurd (omega arith)) (λ h. absurd (omega arith))

microengine-crc32_example :
    (e : Engine) × (microengine words 5 0 no_ram ≡ some e)
    × ((i : ℕ)
        → e.ram i ≡ (if leb 0x400 i && ltb i 0x500 then crc_rounds 8 (i - 0x400) else no_ram i))
microengine-crc32_example = microengine-crc32 words 5 0 no_ram (omega arith)

abbrev load : Load
load = record { opcode = Opcode.ld_field; dst = absolute 1; mask = 5; src = absolute 0; rot = 2 }

interpret_load-bit_example :
    bit (reg_value (interpret_load summands load) (register summands load.dst)) 17 ≡ (
      if bit load.mask (17 / 8) == 1
      then bit (perform_rot (reg_value summands (register summands load.src)) load.rot) 17
      else bit (reg_value summands (register summands load.dst)) 17)
interpret_load-bit_example = interpret_load-bit summands load 17 refl (omega arith) (omega arith)

scratch_job_lem_example :
    scratch_rounds (suc (suc (job 0).count)) (asleep 1 (job 0 ∷ []))
    ≡ some (
        call (job 0).callback (record (asleep 1 (job 0 ∷ [])) {
          object = scratch_words (job 0) (job 0).count (asleep 1 (job 0 ∷ [])).object;
          scratch_queue = [];
          scratch_held = none;
        }))
scratch_job_lem_example =
    scratch_job_lem (asleep 1 (job 0 ∷ [])) (job 0) [] refl refl (omega arith, omega arith)

abbrev to_ram : MemoryJob
to_ram = record {
  direction = write;
  mem_offset = 0x2000;
  start_reg = 128;
  count = 3;
  callback = none;
}

abbrev from_ram : MemoryJob
from_ram = record {
  direction = read;
  mem_offset = 0x2000;
  start_reg = 200;
  count = 3;
  callback = some 1;
}

abbrev exchanging : Engine
exchanging = record summands { ram_queue = to_ram ∷ (from_ram ∷ []) }

abbrev long_job : MemoryJob
long_job = record {
  direction = read;
  mem_offset = 16;
  start_reg = 255;
  count = 200;
  callback = none;
}

abbrev overrun : Engine
overrun = record start { scratch_queue = long_job ∷ [] }

long_job_accepted : is_memory_read_register long_job.start_reg long_job.count ≡ true
unfolding is_memory_read_register
long_job_accepted = refl

scratch_read-overwrites_example :
    (e' : Engine) × (scratch_rounds (suc (suc long_job.count)) overrun ≡ some e')
    × (e'.object (code_word + 100)
        ≡ overrun.object (long_job.mem_offset + (256 - long_job.start_reg + 100)))
scratch_read-overwrites_example =
    scratch_read-overwrites overrun long_job [] refl refl refl long_job_accepted (omega arith)
      (omega arith) 100 (omega arith)

interpreter_round-KeepsWord_example : KeepsWord start code_word (interpreter_round start)
interpreter_round-KeepsWord_example =
    interpreter_round-KeepsWord start code_word (omega arith) (inr (omega arith))
