-- ===== src/Broadcooom/Fields.antt =====
-- Constants and parts of registers: the immediate, load and CSR instructions of the microengine.
use Prim.Native.Nat.{bit_and, bit_or, bit_xor}
use dc2021f_ooows_public.Base.{
  ℕ, zero, suc, ◌+◌, ◌-◌, ◌*◌, ◌/◌, ◌%◌, ◌^◌, Bool, List, [], ◌∷◌, ◌||◌, ◌==◌, if◌then◌else◌,
  get_or,
}
use dc2021f_ooows_public.Broadcooom.Opcode
use dc2021f_ooows_public.Broadcooom.Types.{Immediate, Load, Csr}
use dc2021f_ooows_public.Broadcooom.Engine.{Engine, register, reg_value, set_reg, csr_word}

-- `perform_rot`: 2 is `LEFT_EIGHT`, 3 `LEFT_SIXTEEN`.
unfoldable pub perform_rot : (val rot : ℕ) → ℕ
perform_rot val rot =
    if rot == 2 then val * 2 ^ 8 % 2 ^ 32 else if rot == 3 then val * 2 ^ 16 % 2 ^ 32 else val

-- The bits of `orig` from `low` on, `width` of them, replaced by those of `value`.
abbrev pub replace : (low width orig value : ℕ) → ℕ
replace low width orig value =
    (orig - orig / 2 ^ low % 2 ^ width * 2 ^ low + value % 2 ^ width * 2 ^ low) % 2 ^ 32

-- What an immediate instruction makes of its register.
unfoldable pub immediate_value : (opcode ival rot orig : ℕ) → ℕ
unfolding perform_rot
immediate_value opcode ival rot orig =
    if opcode == Opcode.immed
    then perform_rot ival rot
    else if opcode == Opcode.immed_b0
    then replace 0 8 orig ival
    else if opcode == Opcode.immed_b1
    then replace 8 8 orig ival
    else if opcode == Opcode.immed_b2
    then replace 16 8 orig ival
    else if opcode == Opcode.immed_b3
    then replace 24 8 orig ival
    else if opcode == Opcode.immed_w0
    then replace 0 16 orig ival
    else if opcode == Opcode.immed_w1
    then replace 16 16 orig ival
    else orig

-- `interpret_immediate_instruction`
unfoldable pub interpret_immediate : Engine → Immediate → Engine
unfolding immediate_value
interpret_immediate e i =
    let dst = register e i.dst in
    set_reg e dst (immediate_value i.opcode i.ival i.rot (reg_value e dst))

-- `bytemask_to_bitmask`, with the rounds of its loop that are left.
unfoldable pub bitmask_rounds : (rounds bytemask bitmask : ℕ) → ℕ
bitmask_rounds zero bytemask bitmask = bitmask
bitmask_rounds (suc rounds) bytemask bitmask =
    bitmask_rounds rounds (bytemask / 2)
      (if bytemask % 2 == 1 then bit_xor (bitmask / 2 ^ 8) 0xff000000 else bitmask / 2 ^ 8)

abbrev pub bytemask_to_bitmask : ℕ → ℕ
bytemask_to_bitmask bytemask = bitmask_rounds 4 bytemask 0

-- `(orig & ~bitmask) ^ (val & bitmask)`
unfoldable pub masked : (bitmask orig val : ℕ) → ℕ
masked bitmask orig val = bit_xor (bit_and orig (2 ^ 32 - 1 - bitmask)) (bit_and val bitmask)

abbrev pub cleared : Engine → Load → Engine
cleared e l = if l.opcode == Opcode.ld_field_w_clr then set_reg e (register e l.dst) 0 else e

-- `interpret_load_instruction`: the source is read after the destination has been cleared.
abbrev pub loaded : Engine → Load → Engine
loaded e l =
    let e' = cleared e l in
    let dst = register e l.dst in
    set_reg e' dst (
      masked (bytemask_to_bitmask l.mask) (reg_value e' dst)
        (perform_rot (reg_value e' (register e l.src)) l.rot))

unfoldable pub interpret_load : Engine → Load → Engine
interpret_load e l =
    if (l.opcode == Opcode.ld_field) || (l.opcode == Opcode.ld_field_w_clr) then loaded e l else e

-- The number that bytes make, the lowest first.
abbrev pub from_bytes : List ℕ → ℕ
from_bytes [] = 0
from_bytes (b ∷ bs) = b + 256 * from_bytes bs

abbrev pub csr_value : Engine → Csr → ℕ
csr_value e c =
    if c.csr_num == 0
    then e.object csr_word
    else if c.csr_num == 1
    then from_bytes (get_or e.mac 0 0 ∷ get_or e.mac 1 0 ∷ get_or e.mac 2 0 ∷ get_or e.mac 3 0 ∷ [])
    else if c.csr_num == 2
    then from_bytes (get_or e.mac 4 0 ∷ get_or e.mac 5 0 ∷ [])
    else reg_value e (register e c.dst)

-- `interpret_csr_instruction`
unfoldable pub interpret_csr : Engine → Csr → Engine
interpret_csr e c = set_reg e (register e c.dst) (csr_value e c)

-- `change_csr`
unfoldable pub change_csr : Engine → Bool → ℕ → Engine
change_csr e new_val mask = record e {
  object = λ i.
      if i == csr_word
      then (if new_val
          then bit_or (e.object csr_word) mask
          else bit_and (e.object csr_word) (2 ^ 32 - 1 - mask))
      else e.object i;
}

-- `set_mac_address`
abbrev pub set_mac_address : Engine → List ℕ → Engine
set_mac_address e new_mac = record e { mac = new_mac }
