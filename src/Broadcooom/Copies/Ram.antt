-- ===== src/Broadcooom/Copies/Ram.antt =====
-- What `handle_ram` does with a whole job, until it calls back.
use dc2021f_ooows_public.Base.{
  ℕ, zero, suc, ◌+◌, ◌≤◌, ◌<◌, ◌≡◌, refl, sym, ap, ◌∙◌, Bool, true, false, ◌&&◌, Option, none, some,
  List, ◌∷◌, ◌==◌, ltb, if◌then◌else◌, arith, lt→ltb,
}
use dc2021f_ooows_public.Broadcooom.Types.{MemoryJob, write}
use dc2021f_ooows_public.Broadcooom.Engine.{Engine, object_words, ram_words}
use dc2021f_ooows_public.Broadcooom.Jobs.{call, handle_ram, ram_step, mem_side, reg_side}
use dc2021f_ooows_public.Broadcooom.Copies.{
  block_copy, block_copy_suc, block_copy_zero, onward, onward_step, register_words, held_at,
}

abbrev pub ram_rounds : ℕ → Engine → Option Engine
ram_rounds zero e = some e
ram_rounds (suc n) e = onward (ram_rounds n) (handle_ram e)

-- What a job on the RAM makes of the engine.
abbrev pub ram_words_copied : Engine → MemoryJob → ℕ → Engine
ram_words_copied e job n =
    if job.direction == write
    then record e { ram = block_copy job.mem_offset (register_words job) n e.object e.ram }
    else record e { object = block_copy (register_words job) job.mem_offset n e.ram e.object }

abbrev pub FitsRam : MemoryJob → Type 0
FitsRam job =
    (job.mem_offset + job.count ≤ ram_words) × (register_words job + job.count ≤ object_words)

abbrev in_ram : Engine → MemoryJob → ℕ → Engine
in_ram e job i = record (ram_words_copied e job i) { ram_held = some (held_at job i) }

ram_word_step :
    (e : Engine) (job : MemoryJob) (i : ℕ)
    → FitsRam job
    → i < job.count
    → handle_ram (in_ram e job i) ≡ some (in_ram e job (i + 1))
unfolding handle_ram
ram_word_step e job i (mem, regs) more = by_direction (job.direction == write) refl
  where
    at : mem_side (held_at job i) ≡ job.mem_offset + i
    at = omega arith

    inside :
        (ltb (mem_side (held_at job i)) ram_words && ltb (reg_side (held_at job i)) object_words)
        ≡ true
    inside =
        rw
          (
            lt→ltb (mem_side (held_at job i)) ram_words (omega arith),
            lt→ltb (reg_side (held_at job i)) object_words (omega arith),
          )
          refl

    by_direction :
        (w : Bool)
        → (job.direction == write) ≡ w
        → ram_step (in_ram e job i) (some (held_at job i)) ≡ some (in_ram e job (i + 1))
    by_direction true d =
        rw (lt→ltb i job.count more, d, inside, at)
          (ap (λ ram. some (record e { ram = ram; ram_held = some (held_at job (i + 1)) }))
            (block_copy_suc job.mem_offset (register_words job) i _ e.object e.ram refl))
    by_direction false d =
        rw (lt→ltb i job.count more, d, inside, at)
          (ap (λ object. some (record e { object = object; ram_held = some (held_at job (i + 1)) }))
            (block_copy_suc (register_words job) job.mem_offset i _ e.ram e.object refl))

ram_last_step :
    (e : Engine) (job : MemoryJob)
    → handle_ram (in_ram e job job.count)
      ≡ some (call job.callback (record (ram_words_copied e job job.count) { ram_held = none }))
unfolding handle_ram
ram_last_step e job = let over : ltb job.count job.count ≡ false = ground arith in rw over refl

ram_loop :
    (left : ℕ) (e : Engine) (job : MemoryJob) (i : ℕ)
    → FitsRam job
    → i + left ≡ job.count
    → ram_rounds (suc left) (in_ram e job i)
      ≡ some (call job.callback (record (ram_words_copied e job job.count) { ram_held = none }))
ram_loop zero e job i fits h =
    let at : i ≡ job.count = omega arith in
    rw at (onward_step (ram_rounds 0) _ _ (ram_last_step e job))
ram_loop (suc left) e job i fits h =
    onward_step (ram_rounds (suc left)) _ _ (ram_word_step e job i fits (omega arith))
    ∙ ram_loop left e job (i + 1) fits (omega arith)

take_job :
    (e : Engine) (job : MemoryJob) (rest : List MemoryJob)
    → e.ram_held ≡ none
    → e.ram_queue ≡ job ∷ rest
    → handle_ram e ≡ some (record e { ram_queue = rest; ram_held = some (held_at job 0) })
unfolding handle_ram
take_job e job rest idle queue = rw (idle, queue) refl

ram_zero : (e : Engine) (job : MemoryJob) → ram_words_copied e job 0 ≡ e
ram_zero e job =
    rw
      (
        block_copy_zero job.mem_offset (register_words job) e.object e.ram,
        block_copy_zero (register_words job) job.mem_offset e.ram e.object,
      )
      (go (job.direction == write))
  where
    go : (w : Bool) → (if w then e else e) ≡ e
    go true = refl
    go false = refl

-- The same for a job on the RAM: it is served to its end in as many steps as it has words and two
-- more, and copies its block of words in its direction.
pub ram_job_lem :
    (e : Engine) (job : MemoryJob) (rest : List MemoryJob)
    → e.ram_held ≡ none
    → e.ram_queue ≡ job ∷ rest
    → FitsRam job
    → ram_rounds (suc (suc job.count)) e
      ≡ some (
          call job.callback
            (record (ram_words_copied (record e { ram_queue = rest }) job job.count) {
              ram_held = none;
            }))
ram_job_lem e job rest idle queue fits =
    onward_step (ram_rounds (suc job.count)) _ _ got
    ∙ ram_loop job.count (record e { ram_queue = rest }) job 0 fits (omega arith)
  where
    got : handle_ram e ≡ some (in_ram (record e { ram_queue = rest }) job 0)
    got =
        take_job e job rest idle queue
        ∙ ap (λ (o : Engine). some (record o { ram_held = some (held_at job 0) }))
            (sym (ram_zero (record e { ram_queue = rest }) job))
