-- ===== src/Broadcooom/Alu.antt =====
-- Arithmetic of the microengine: `interpret_alu_instruction`.
use Prim.Native.Nat.{bit_and, bit_or, bit_xor}
use dc2021f_ooows_public.Base.{
  ℕ, ◌+◌, ◌-◌, ◌*◌, ◌/◌, ◌%◌, ◌^◌, ◌||◌, Option, none, some, ltb, ◌==◌, if◌then◌else◌,
}
use dc2021f_ooows_public.Broadcooom.Opcode
use dc2021f_ooows_public.Broadcooom.Types.{Alu}
use dc2021f_ooows_public.Broadcooom.Engine.{Engine, register, reg_value, set_reg}

-- The 64 bits of `result` for the operation `kind` (`alu_ops_type`) on two registers. A shift by 32
-- or more, and the operation 15, for which `result` is never set, are undefined.
unfoldable pub alu_result : (carry sign kind a b : ℕ) → Option ℕ
alu_result carry sign kind a b =
    if kind == 0
    then some (a + b)
    else if kind == 1
    then some ((a + 2 ^ 32 - b) % 2 ^ 32)
    else if kind == 2
    then some ((b + 2 ^ 32 - a) % 2 ^ 32)
    else if kind == 3
    then some b
    else if kind == 4
    then some (2 ^ 32 - 1 - b)
    else if kind == 5
    then some (bit_and a b)
    else if kind == 6
    then some (bit_or a b)
    else if kind == 7
    then some (bit_xor a b)
    else if kind == 8
    then some (a + b + carry)
    else if kind == 9
    then (if ltb b 32 then some (a * 2 ^ b % 2 ^ 32) else none)
    else if kind == 10
    then (if ltb b 32 then some (a / 2 ^ b) else none)
    else if kind == 11
    then some (if sign == 1 then a + b else b)
    else if kind == 12
    then some ((a + b) % 2 ^ 4)
    else if kind == 13
    then some ((a + b) % 2 ^ 8)
    else if kind == 14
    then some ((a + b) % 2 ^ 16)
    else none

-- `ALU_SHF` shifts the low word of the result, by 0 to 3 bits.
abbrev pub shifted : (shift num_shift result : ℕ) → ℕ
shifted shift num_shift result =
    if shift == 0 then result % 2 ^ 32 * 2 ^ num_shift % 2 ^ 32 else result % 2 ^ 32 / 2 ^ num_shift

abbrev pub alu_value : Alu → ℕ → ℕ
alu_value a result =
    if a.opcode == Opcode.alu_shf then shifted a.shift a.num_shift result else result % 2 ^ 32

-- The flags are those of the result before the shift.
abbrev pub with_result : Engine → Alu → ℕ → Engine
with_result e a result = record (set_reg e (register e a.dst) (alu_value a result)) {
  carry = result / 2 ^ 32 % 2;
  sign = result / 2 ^ 31 % 2;
  last_alu = alu_value a result;
}

-- `DBL_SHF` does nothing.
unfoldable pub interpret_alu : Engine → Alu → Option Engine
unfolding alu_result
interpret_alu e a =
    if (a.opcode == Opcode.alu) || (a.opcode == Opcode.alu_shf)
    then elim (alu_result e.carry e.sign a.kind (reg_value e (register e a.src_1))
        (reg_value e (register e a.src_2))) [
          | none ↦ none
          | some result ↦ some (with_result e a result)
        ]
    else some e
