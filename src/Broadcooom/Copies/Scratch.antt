-- ===== src/Broadcooom/Copies/Scratch.antt =====
-- What `handle_scratch` does with a whole job, until it calls back.
use dc2021f_ooows_public.Base.{
  ℕ, zero, suc, ◌+◌, ◌≤◌, ◌<◌, ◌≡◌, refl, sym, ap, ◌∙◌, Bool, true, false, ◌&&◌, Option, none, some,
  List, ◌∷◌, ◌==◌, ltb, if◌then◌else◌, arith, lt→ltb,
}
use dc2021f_ooows_public.Broadcooom.Types.{MemoryJob, write}
use dc2021f_ooows_public.Broadcooom.Engine.{Engine, object_words}
use dc2021f_ooows_public.Broadcooom.Jobs.{call, handle_scratch, scratch_word, mem_side, reg_side}
use dc2021f_ooows_public.Broadcooom.Copies.{
  block_copy, block_copy_suc, block_copy_after, block_copy_before, block_copy_zero, onward,
  onward_step, register_words, held_at,
}

-- `n` steps of the scratch thread.
abbrev pub scratch_rounds : ℕ → Engine → Option Engine
scratch_rounds zero e = some e
scratch_rounds (suc n) e = onward (scratch_rounds n) (handle_scratch e)

-- What a job on the scratch memory makes of the object's words.
abbrev pub scratch_words : MemoryJob → ℕ → (ℕ → ℕ) → ℕ → ℕ
scratch_words job n object =
    if job.direction == write
    then block_copy job.mem_offset (register_words job) n object object
    else block_copy (register_words job) job.mem_offset n object object

abbrev pub Fits : MemoryJob → Type 0
Fits job = (job.mem_offset + job.count ≤ 1024) × (register_words job + job.count ≤ object_words)

scratch_word_lem :
    (job : MemoryJob) (i : ℕ) (object : ℕ → ℕ)
    → Fits job
    → i < job.count
    → scratch_word (held_at job i) (scratch_words job i object)
      ≡ some (scratch_words job (i + 1) object)
scratch_word_lem job i object (mem, regs) more = by_direction (job.direction == write) refl
  where
    at : mem_side (held_at job i) ≡ job.mem_offset + i
    at = omega arith

    inside :
        (ltb (mem_side (held_at job i)) object_words && ltb (reg_side (held_at job i)) object_words)
        ≡ true
    inside =
        rw
          (
            lt→ltb (mem_side (held_at job i)) object_words (omega arith),
            lt→ltb (reg_side (held_at job i)) object_words (omega arith),
          )
          refl

    by_direction :
        (w : Bool)
        → (job.direction == write) ≡ w
        → scratch_word (held_at job i) (scratch_words job i object)
          ≡ some (scratch_words job (i + 1) object)
    by_direction true d =
        rw (d, inside, at)
          (ap some (
            block_copy_suc job.mem_offset (register_words job) i _ object object (
              block_copy_after job.mem_offset (register_words job) i i object object
                (omega arith))))
    by_direction false d =
        rw (d, inside, at)
          (ap some (
            block_copy_suc (register_words job) job.mem_offset i _ object object (
              block_copy_before (register_words job) job.mem_offset i i object object
                (omega arith))))

abbrev in_scratch : Engine → MemoryJob → ℕ → (ℕ → ℕ) → Engine
in_scratch e job i object = record e {
  object = scratch_words job i object;
  scratch_held = some (held_at job i);
}

scratch_word_step :
    (e : Engine) (job : MemoryJob) (i : ℕ) (object : ℕ → ℕ)
    → Fits job
    → i < job.count
    → handle_scratch (in_scratch e job i object) ≡ some (in_scratch e job (i + 1) object)
unfolding handle_scratch
scratch_word_step e job i object fits more =
    rw (lt→ltb i job.count more, scratch_word_lem job i object fits more) refl

scratch_last_step :
    (e : Engine) (job : MemoryJob) (object : ℕ → ℕ)
    → handle_scratch (in_scratch e job job.count object)
      ≡ some (
          call job.callback
            (record e { object = scratch_words job job.count object; scratch_held = none }))
unfolding handle_scratch
scratch_last_step e job object =
    let over : ltb job.count job.count ≡ false = ground arith in rw over refl

scratch_loop :
    (left : ℕ) (e : Engine) (job : MemoryJob) (i : ℕ) (object : ℕ → ℕ)
    → Fits job
    → i + left ≡ job.count
    → scratch_rounds (suc left) (in_scratch e job i object)
      ≡ some (
          call job.callback
            (record e { object = scratch_words job job.count object; scratch_held = none }))
scratch_loop zero e job i object fits h =
    let at : i ≡ job.count = omega arith in
    rw at (onward_step (scratch_rounds 0) _ _ (scratch_last_step e job object))
scratch_loop (suc left) e job i object fits h =
    onward_step (scratch_rounds (suc left)) _ _
      (scratch_word_step e job i object fits (omega arith))
    ∙ scratch_loop left e job (i + 1) object fits (omega arith)

scratch_words_zero : (job : MemoryJob) (object : ℕ → ℕ) → scratch_words job 0 object ≡ object
scratch_words_zero job object =
    rw
      (
        block_copy_zero job.mem_offset (register_words job) object object,
        block_copy_zero (register_words job) job.mem_offset object object,
      )
      (go (job.direction == write))
  where
    go : (w : Bool) → (if w then object else object) ≡ object
    go true = refl
    go false = refl

take_job :
    (e : Engine) (job : MemoryJob) (rest : List MemoryJob)
    → e.scratch_held ≡ none
    → e.scratch_queue ≡ job ∷ rest
    → handle_scratch e
      ≡ some (record e { scratch_queue = rest; scratch_held = some (held_at job 0) })
unfolding handle_scratch
take_job e job rest idle queue = rw (idle, queue) refl

-- A job that the scratch thread finds first in its queue, with its words inside the scratch memory
-- and its registers inside the object, is served to its end in as many steps as it has words and
-- two more: a READ copies the scratch words to the registers, a WRITE the registers to the scratch
-- words, no other word changes, and the job's thread is called back.
pub scratch_job_lem :
    (e : Engine) (job : MemoryJob) (rest : List MemoryJob)
    → e.scratch_held ≡ none
    → e.scratch_queue ≡ job ∷ rest
    → Fits job
    → scratch_rounds (suc (suc job.count)) e
      ≡ some (
          call job.callback (record e {
            object = scratch_words job job.count e.object;
            scratch_queue = rest;
            scratch_held = none;
          }))
scratch_job_lem e job rest idle queue fits =
    onward_step (scratch_rounds (suc job.count)) _
      (in_scratch (record e { scratch_queue = rest }) job 0 e.object) got
    ∙ scratch_loop job.count (record e { scratch_queue = rest }) job 0 e.object fits (omega arith)
  where
    got : handle_scratch e ≡ some (in_scratch (record e { scratch_queue = rest }) job 0 e.object)
    got =
        take_job e job rest idle queue
        ∙ ap
            (λ object. some (record e {
              scratch_queue = rest;
              object = object;
              scratch_held = some (held_at job 0);
            }))
            (sym (scratch_words_zero job e.object))
