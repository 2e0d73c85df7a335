-- ===== src/Broadcooom/Wide.antt =====
-- Numbers of two registers: what PLUS and PLUS_CARRY make together.
use dc2021f_ooows_public.Base.{ℕ, ◌+◌, ◌*◌, ◌/◌, ◌%◌, ◌^◌, ◌<◌, ◌≡◌, ◌≢◌, refl, ◌∙◌, some, arith}
use dc2021f_ooows_public.Broadcooom.Opcode
use dc2021f_ooows_public.Broadcooom.Types.{RegRef, Alu}
use dc2021f_ooows_public.Broadcooom.Engine.{Engine, register, registers_word, write_word, reg_value}
use dc2021f_ooows_public.Broadcooom.Alu.{interpret_alu, with_result}

-- The number that two registers hold, the low word first.
abbrev pub wide : Engine → RegRef → RegRef → ℕ
wide e low high = reg_value e (register e low) + 2 ^ 32 * reg_value e (register e high)

abbrev pub alu_of : (kind : ℕ) (dst src_1 src_2 : RegRef) → Alu
alu_of kind dst src_1 src_2 = record {
  opcode = Opcode.alu;
  dst = dst;
  src_1 = src_1;
  kind = kind;
  src_2 = src_2;
  shift = 0;
  num_shift = 0;
}

abbrev pub plus : ℕ
plus = 0

abbrev pub plus_carry : ℕ
plus_carry = 8

write_word_self : (words : ℕ → ℕ) (at v i : ℕ) → i ≡ at → write_word words at v i ≡ v
write_word_self words at v i h = ground arith

write_word_ne : (words : ℕ → ℕ) (at v i : ℕ) → i ≢ at → write_word words at v i ≡ words i
write_word_ne words at v i h = ground arith

-- The sum of two words and what is carried, against the sum of two double words.
sum_lem :
    (x y u v : ℕ)
    → x < 2 ^ 32
    → y < 2 ^ 32
    → (x + y) % 2 ^ 32 + 2 ^ 32 * ((u + v + (x + y) / 2 ^ 32 % 2) % 2 ^ 32)
      ≡ (x + 2 ^ 32 * u + (y + 2 ^ 32 * v)) % 2 ^ 64
sum_lem x y u v hx hy = omega arith

-- PLUS of the low words and then PLUS_CARRY of the high words is the sum of two 64-bit numbers:
-- with the low result in a register that is none of the high ones, both instructions are carried
-- out, and the two results hold the sum up to its 64 bits.
pub plus_carry-sum :
    (e : Engine) (low high a_low a_high b_low b_high : RegRef)
    → reg_value e (register e a_low) < 2 ^ 32
    → reg_value e (register e b_low) < 2 ^ 32
    → register e low ≢ register e high
    → register e a_high ≢ register e low
    → register e b_high ≢ register e low
    → (e' : Engine) × (e'' : Engine) × (interpret_alu e (alu_of plus low a_low b_low) ≡ some e')
      × (interpret_alu e' (alu_of plus_carry high a_high b_high) ≡ some e'')
      × (wide e'' low high ≡ (wide e a_low a_high + wide e b_low b_high) % 2 ^ 64)
unfolding interpret_alu
plus_carry-sum e low high a_low a_high b_low b_high la lb ne_high ne_a ne_b = (
  first,
  second,
  refl,
  refl,
  rw (low_word, high_word)
      (sum_lem (reg_value e (register e a_low)) (reg_value e (register e b_low))
        (reg_value e (register e a_high)) (reg_value e (register e b_high)) la lb),
)
  where
    first : Engine
    first =
        with_result e (alu_of plus low a_low b_low)
          (reg_value e (register e a_low) + reg_value e (register e b_low))

    second : Engine
    second =
        with_result first (alu_of plus_carry high a_high b_high)
          (reg_value first (register e a_high) + reg_value first (register e b_high) + first.carry)

    a_word : reg_value first (register e a_high) ≡ reg_value e (register e a_high)
    a_word = write_word_ne e.object (registers_word + register e low) _ _ (λ h. ne_a (omega arith))

    b_word : reg_value first (register e b_high) ≡ reg_value e (register e b_high)
    b_word = write_word_ne e.object (registers_word + register e low) _ _ (λ h. ne_b (omega arith))

    low_word :
        reg_value second (register e low)
        ≡ (reg_value e (register e a_low) + reg_value e (register e b_low)) % 2 ^ 32
    low_word =
        write_word_ne first.object (registers_word + register e high) _ _
          (λ h. ne_high (omega arith))
        ∙ write_word_self e.object (registers_word + register e low) _ _ refl

    high_word :
        reg_value second (register e high)
        ≡ (reg_value e (register e a_high)
            + reg_value e (register e b_high)
            + (reg_value e (register e a_low) + reg_value e (register e b_low)) / 2 ^ 32 % 2)
          % 2 ^ 32
    high_word =
        write_word_self first.object (registers_word + register e high) _ _ refl
        ∙ rw (a_word, b_word) refl
