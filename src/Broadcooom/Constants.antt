-- ===== src/Broadcooom/Constants.antt =====
-- Loading a constant of 32 bits into a register in two or in four instructions.
use dc2021f_ooows_public.Base.{ℕ, ◌+◌, ◌*◌, ◌%◌, ◌^◌, ◌<◌, ◌≡◌, refl, ap, ◌∙◌, arith}
use dc2021f_ooows_public.Broadcooom.Opcode
use dc2021f_ooows_public.Broadcooom.Types.{RegRef, Immediate}
use dc2021f_ooows_public.Broadcooom.Engine.{Engine, register, registers_word, write_word, reg_value}
use dc2021f_ooows_public.Broadcooom.Fields.{interpret_immediate, immediate_value, replace}

abbrev pub load_part : (opcode : ℕ) (dst : RegRef) (ival : ℕ) → Immediate
load_part opcode dst ival = record { opcode = opcode; dst = dst; ival = ival; rot = 0 }

abbrev pub immed : (opcode : ℕ) (dst : RegRef) (ival : ℕ) → Engine → Engine
immed opcode dst ival e = interpret_immediate e (load_part opcode dst ival)

-- IMMED_W0 and IMMED_W1 put the two halves of a number into a word, whatever it held.
halves_lem :
    (orig low high : ℕ)
    → orig < 2 ^ 32
    → low < 2 ^ 16
    → high < 2 ^ 16
    → replace 16 16 (replace 0 16 orig low) high ≡ low + 2 ^ 16 * high
halves_lem orig low high o l h = omega arith

bytes_lem :
    (orig a b c d : ℕ)
    → orig < 2 ^ 32
    → a < 2 ^ 16
    → b < 2 ^ 16
    → c < 2 ^ 16
    → d < 2 ^ 16
    → replace 24 8 (replace 16 8 (replace 8 8 (replace 0 8 orig a) b) c) d
      ≡ a % 2 ^ 8 + 2 ^ 8 * (b % 2 ^ 8) + 2 ^ 16 * (c % 2 ^ 8) + 2 ^ 24 * (d % 2 ^ 8)
bytes_lem orig a b c d o ha hb hc hd = omega arith

write_word_self : (words : ℕ → ℕ) (at v : ℕ) → write_word words at v at ≡ v
write_word_self words at v = ground arith

-- The register of one immediate instruction, from what it held.
load_part_lem :
    (e : Engine) (opcode ival orig : ℕ) (dst : RegRef)
    → reg_value e (register e dst) ≡ orig
    → reg_value (interpret_immediate e (load_part opcode dst ival)) (register e dst)
      ≡ immediate_value opcode ival 0 orig
unfolding interpret_immediate
load_part_lem e opcode ival orig dst h =
    write_word_self e.object (registers_word + register e dst) _
    ∙ ap (immediate_value opcode ival 0) h

-- IMMED_W0 and then IMMED_W1 leave in the register that both name the number that their constants
-- make, whatever the register held, and so do IMMED_B0 to IMMED_B3 with the low bytes of theirs.
pub immediates_load :
    (e : Engine) (dst : RegRef) (low high a b c d : ℕ)
    → reg_value e (register e dst) < 2 ^ 32
    → low < 2 ^ 16
    → high < 2 ^ 16
    → a < 2 ^ 16
    → b < 2 ^ 16
    → c < 2 ^ 16
    → d < 2 ^ 16
    → (reg_value (immed Opcode.immed_w1 dst high (immed Opcode.immed_w0 dst low e)) (register e dst)
        ≡ low + 2 ^ 16 * high)
      × (reg_value
            (immed Opcode.immed_b3 dst d (
              immed Opcode.immed_b2 dst c
                (immed Opcode.immed_b1 dst b (immed Opcode.immed_b0 dst a e))))
            (register e dst)
          ≡ a % 2 ^ 8 + 2 ^ 8 * (b % 2 ^ 8) + 2 ^ 16 * (c % 2 ^ 8) + 2 ^ 24 * (d % 2 ^ 8))
unfolding interpret_immediate immediate_value
immediates_load e dst low high a b c d o l h ha hb hc hd = (
  load_part_lem (immed Opcode.immed_w0 dst low e) Opcode.immed_w1 high _ dst
        (load_part_lem e Opcode.immed_w0 low _ dst refl)
      ∙ halves_lem (reg_value e (register e dst)) low high o l h,
  load_part_lem
        (immed Opcode.immed_b2 dst c (immed Opcode.immed_b1 dst b (immed Opcode.immed_b0 dst a e)))
        Opcode.immed_b3 d _ dst
        (load_part_lem (immed Opcode.immed_b1 dst b (immed Opcode.immed_b0 dst a e)) Opcode.immed_b2
          c _ dst
          (load_part_lem (immed Opcode.immed_b0 dst a e) Opcode.immed_b1 b _ dst
            (load_part_lem e Opcode.immed_b0 a _ dst refl)))
      ∙ bytes_lem (reg_value e (register e dst)) a b c d o ha hb hc hd,
)
