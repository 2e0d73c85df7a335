-- ===== src/Broadcooom/Copies/Exchange.antt =====
-- Words that a program writes to the RAM and reads again, and what a READ job does to the code.
use dc2021f_ooows_public.Base.{
  ℕ, suc, ◌+◌, ◌-◌, ◌≤◌, ◌<◌, ◌≡◌, refl, ap, ◌∙◌, true, Option, none, some, List, ◌∷◌, arith,
}
use dc2021f_ooows_public.Broadcooom.Types.{MemoryJob, read, write}
use dc2021f_ooows_public.Broadcooom.Engine.{Engine, is_memory_read_register, code_word}
use dc2021f_ooows_public.Broadcooom.Jobs.{call}
use dc2021f_ooows_public.Broadcooom.Copies.{
  block_copy, onward, onward_step, register_words, call-object,
}
use dc2021f_ooows_public.Broadcooom.Copies.Scratch.{scratch_rounds, scratch_job_lem}
use dc2021f_ooows_public.Broadcooom.Copies.Ram.{ram_rounds, ram_words_copied, FitsRam, ram_job_lem}

-- The part of the state that the RAM thread reads after a callback.
call-ram : (callback : Option ℕ) (e : Engine) → (call callback e).ram ≡ e.ram
call-ram none e = refl
call-ram (some ctx) e = refl

call-ram_queue : (callback : Option ℕ) (e : Engine) → (call callback e).ram_queue ≡ e.ram_queue
call-ram_queue none e = refl
call-ram_queue (some ctx) e = refl

call-ram_held : (callback : Option ℕ) (e : Engine) → (call callback e).ram_held ≡ e.ram_held
call-ram_held none e = refl
call-ram_held (some ctx) e = refl

block_copy_at :
    (dst src count k : ℕ) (from to : ℕ → ℕ)
    → k < count
    → block_copy dst src count from to (dst + k) ≡ from (src + k)
block_copy_at dst src count k from to h =
    let at : from (src + (dst + k - dst)) ≡ from (src + k) = ap from (omega arith) in ground arith

-- The state between the two jobs.
abbrev after : Engine → MemoryJob → List MemoryJob → Engine
after e job rest =
    call job.callback
      (record (ram_words_copied (record e { ram_queue = rest }) job job.count) { ram_held = none })

after_write :
    (e : Engine) (job : MemoryJob) (rest : List MemoryJob)
    → job.direction ≡ write
    → (after e job rest).ram
      ≡ block_copy job.mem_offset (register_words job) job.count e.object e.ram
after_write e job rest w = call-ram job.callback _ ∙ rw w refl

after_read :
    (e : Engine) (job : MemoryJob) (rest : List MemoryJob)
    → job.direction ≡ read
    → (after e job rest).object
      ≡ block_copy (register_words job) job.mem_offset job.count e.ram e.object
after_read e job rest r = call-object job.callback _ ∙ rw r refl

-- When a WRITE to the RAM and a READ of as many words from the same address are queued behind one
-- another, serving both leaves in the READ's registers the words that the WRITE's registers held.
pub ram_write-read :
    (e : Engine) (w r : MemoryJob) (rest : List MemoryJob)
    → e.ram_held ≡ none
    → e.ram_queue ≡ w ∷ (r ∷ rest)
    → FitsRam w
    → FitsRam r
    → w.direction ≡ write
    → r.direction ≡ read
    → r.mem_offset ≡ w.mem_offset
    → r.count ≡ w.count
    → (k : ℕ) → k < w.count
    → (e' : Engine) × (onward (ram_rounds (suc (suc r.count))) (ram_rounds (suc (suc w.count)) e)
        ≡ some e')
      × (e'.object (register_words r + k) ≡ e.object (register_words w + k))
ram_write-read e w r rest idle queue fits_w fits_r is_write is_read offset count k small = (
  after (after e w (r ∷ rest)) r rest,
  onward_step (ram_rounds (suc (suc r.count))) _ _ (ram_job_lem e w (r ∷ rest) idle queue fits_w)
      ∙ ram_job_lem (after e w (r ∷ rest)) r rest (call-ram_held w.callback _ ∙ refl)
          (call-ram_queue w.callback _ ∙ rw is_write refl) fits_r,
  ap (λ (words : ℕ → ℕ). words (register_words r + k))
        (after_read (after e w (r ∷ rest)) r rest is_read)
      ∙ block_copy_at (register_words r) r.mem_offset r.count k (after e w (r ∷ rest)).ram
          (after e w (r ∷ rest)).object (omega arith)
      ∙ ap (λ (m : ℕ). (after e w (r ∷ rest)).ram (m + k)) offset
      ∙ ap (λ (words : ℕ → ℕ). words (w.mem_offset + k)) (after_write e w (r ∷ rest) is_write)
      ∙ block_copy_at w.mem_offset (register_words w) w.count k e.object e.ram small,
)

-- A READ of the scratch memory whose first register is a read register, which is all that the
-- interpreter looks at, goes on behind the last register into the code: when it asks for more words
-- than there are registers left, the first words of the program become words of the scratch memory.
pub scratch_read-overwrites :
    (e : Engine) (job : MemoryJob) (rest : List MemoryJob)
    → e.scratch_held ≡ none
    → e.scratch_queue ≡ job ∷ rest
    → job.direction ≡ read
    → is_memory_read_register job.start_reg job.count ≡ true
    → job.count < 256
    → job.mem_offset + job.count ≤ 1024
    → (k : ℕ) → 256 + k < job.start_reg + job.count
    → (e' : Engine) × (scratch_rounds (suc (suc job.count)) e ≡ some e')
      × (e'.object (code_word + k) ≡ e.object (job.mem_offset + (256 - job.start_reg + k)))
unfolding is_memory_read_register
scratch_read-overwrites e job rest idle queue is_read guard count scratch k over =
    let start : job.start_reg < 256 = ground arith in
    (
      _,
      scratch_job_lem e job rest idle queue (scratch, omega arith),
      ap (λ (words : ℕ → ℕ). words (code_word + k)) (call-object job.callback _)
          ∙ rw is_read (copied start),
    )
  where
    copied :
        job.start_reg < 256
        → block_copy (register_words job) job.mem_offset job.count e.object e.object (code_word + k)
          ≡ e.object (job.mem_offset + (256 - job.start_reg + k))
    copied start =
        let at : code_word + k ≡ register_words job + (256 - job.start_reg + k) = omega arith in
        rw at (
          block_copy_at (register_words job) job.mem_offset job.count (256 - job.start_reg + k)
            e.object e.object (omega arith))
