-- ===== src/Broadcooom/Copies.antt =====
-- Copies of blocks of words, as the memory threads of the microengine make them.
pub mod Scratch
pub mod Ram
pub mod Exchange
use mathlib.Core.Path.{fun_ext}
use dc2021f_ooows_public.Base.{
  ℕ, zero, suc, ◌+◌, ◌-◌, ◌%◌, ◌^◌, ◌≤◌, ◌<◌, ◌≡◌, refl, sym, ap, ◌∙◌, Bool, true, false, not, ◌&&◌,
  Option, none, some, List, [], ◌∷◌, ◌==◌, ltb, leb, if◌then◌else◌, arith, inl, inr, Bool-cases,
  ==_iff, lt→ltb,
}
use dc2021f_ooows_public.Broadcooom.Types.{MemoryJob, write}
use dc2021f_ooows_public.Broadcooom.Engine.{
  Engine, Held, object_words, registers_word, ram_words, write_word,
}
use dc2021f_ooows_public.Broadcooom.Jobs.{
  call, handle_scratch, scratch_step, scratch_word, scratch_copied, scratch_get, handle_ram,
  ram_step, ram_copied, ram_get, mem_side, reg_side, next_round,
}

-- `count` words from `src` on, copied to `dst` on.
abbrev pub block_copy : (dst src count : ℕ) (from to : ℕ → ℕ) → ℕ → ℕ
block_copy dst src count from to i =
    if leb dst i && ltb i (dst + count) then from (src + (i - dst)) else to i

-- The next word of a copy.
pub block_copy_suc :
    (dst src count v : ℕ) (from to : ℕ → ℕ)
    → v ≡ from (src + count)
    → write_word (block_copy dst src count from to) (dst + count) v
      ≡ block_copy dst src (count + 1) from to
block_copy_suc dst src count v from to h = fun_ext (λ i. word i)
  where
    word :
        (i : ℕ)
        → write_word (block_copy dst src count from to) (dst + count) v i
          ≡ block_copy dst src (count + 1) from to i
    word i = elim (Bool-cases (i == dst + count)) [
      | inl same ↦
          let at : i ≡ dst + count = (==_iff i (dst + count)).0 same in
          let value : from (src + (i - dst)) ≡ v = ap from (omega arith) ∙ sym h in ground arith
      | inr other ↦ ground arith
    ]

-- Words that lie before or behind the target are as they were.
pub block_copy_after :
    (dst src count i : ℕ) (from to : ℕ → ℕ)
    → dst + count ≤ src
    → block_copy dst src count from to (src + i) ≡ to (src + i)
block_copy_after dst src count i from to h = ground arith

pub block_copy_before :
    (dst src count i : ℕ) (from to : ℕ → ℕ)
    → src + i < dst
    → block_copy dst src count from to (src + i) ≡ to (src + i)
block_copy_before dst src count i from to h = ground arith

abbrev pub onward : (Engine → Option Engine) → Option Engine → Option Engine
onward k none = none
onward k (some e) = k e

-- A copy of no words.
pub block_copy_zero : (dst src : ℕ) (from to : ℕ → ℕ) → block_copy dst src 0 from to ≡ to
block_copy_zero dst src from to = fun_ext (λ i. ground arith)

-- A step that is taken.
pub onward_step :
    (k : Engine → Option Engine) (o : Option Engine) (e : Engine) → o ≡ some e → onward k o ≡ k e
onward_step k o e h = ap (λ (o : Option Engine). onward k o) h

abbrev pub register_words : MemoryJob → ℕ
register_words job = registers_word + job.start_reg

abbrev pub held_at : MemoryJob → ℕ → Held
held_at job i = record { job = job; i = i }

-- A callback changes no memory.
pub call-object : (callback : Option ℕ) (e : Engine) → (call callback e).object ≡ e.object
call-object none e = refl
call-object (some ctx) e = refl
