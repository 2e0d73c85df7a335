-- ===== src/Broadcooom/Table.antt =====
-- The table of checksums that the constructor of the microengine puts into the RAM.
use Prim.Native.Nat.{bit_xor}
use dc2021f_ooows_public.Base.{
  ℕ, zero, suc, ◌-◌, ◌/◌, ◌%◌, ◌≤◌, ◌<◌, ◌≡◌, refl, Bool, true, false, ◌&&◌, some, ◌==◌, ==_iff,
  ltb, leb, if◌then◌else◌, get_or, arith, inl, inr, Bool-cases,
}
use dc2021f_ooows_public.Base.Bits.{up_to, up_to-at}
use dc2021f_ooows_public.Broadcooom.Crc.{crc32_tab}
use dc2021f_ooows_public.Broadcooom.Engine.{Engine, constructed, microengine}

-- The reference: division of the bits of a byte, the lowest first, by the polynomial of CRC-32.
abbrev pub crc_rounds : (rounds crc : ℕ) → ℕ
crc_rounds zero crc = crc
crc_rounds (suc rounds) crc =
    crc_rounds rounds (if crc % 2 == 1 then bit_xor (crc / 2) 0xEDB88320 else crc / 2)

abbrev entry_ok : ℕ → Bool
entry_ok i = get_or crc32_tab i 0 == crc_rounds 8 i

all_entries : up_to entry_ok 256 ≡ true
unfolding up_to crc32_tab
all_entries = refl

crc32_tab_lem : (i : ℕ) → i < 256 → get_or crc32_tab i 0 ≡ crc_rounds 8 i
crc32_tab_lem i small =
    (==_iff (get_or crc32_tab i 0) (crc_rounds 8 i)).0 (up_to-at entry_ok 256 all_entries i small)

-- An engine that the constructor makes finds at the words 0x400 to 0x4ff of its RAM, for each byte,
-- the remainder of the CRC-32 polynomial that eight rounds of the bitwise division compute, and all
-- other words of the RAM as they were.
pub microengine-crc32 :
    (code : ℕ → ℕ) (code_len last_alu : ℕ) (ram : ℕ → ℕ)
    → code_len ≤ 5120
    → (e : Engine) × (microengine code code_len last_alu ram ≡ some e)
      × ((i : ℕ)
          → e.ram i ≡ (if leb 0x400 i && ltb i 0x500 then crc_rounds 8 (i - 0x400) else ram i))
unfolding microengine
microengine-crc32 code code_len last_alu ram h = (
  constructed code code_len last_alu ram,
  rw fits refl,
  λ i. elim (Bool-cases (leb 0x400 i && ltb i 0x500)) [
    | inl inside ↦ rw inside (crc32_tab_lem (i - 0x400) (ground arith))
    | inr outside ↦ rw outside refl
  ],
)
  where
    fits : ltb 5120 code_len ≡ false
    fits = ground arith
