-- ===== src/Broadcooom/Merge.antt =====
-- LD_FIELD puts the bytes that its mask names from one word into another.
use Prim.Native.Nat.{bit_and, bit_xor, differ, bit_xor-bitwise}
use dc2021f_ooows_public.Base.{
  ℕ, zero, suc, ◌+◌, ◌-◌, ◌*◌, ◌/◌, ◌%◌, ◌^◌, ◌<◌, ◌≡◌, refl, ap, ◌∙◌, Bool, true, ◌||◌, ◌&&◌,
  if◌then◌else◌, arith, ◌==◌, min,
}
use dc2021f_ooows_public.Base.Bits.{bit, bit-and, bit-lt, digits-fuel, up_to, up_to-at}
use dc2021f_ooows_public.Broadcooom.Opcode
use dc2021f_ooows_public.Broadcooom.Types.{Load}
use dc2021f_ooows_public.Broadcooom.Engine.{Engine, register, registers_word, write_word, reg_value}
use dc2021f_ooows_public.Broadcooom.Fields.{
  masked, perform_rot, bitmask_rounds, bytemask_to_bitmask, interpret_load, loaded, cleared,
}

xor_split : (a b : ℕ) → bit_xor a b ≡ bit_xor (a / 2) (b / 2) * 2 + differ (a % 2) (b % 2)
xor_split zero b = omega (arith, bit_xor-bitwise 0 b, bit_xor-bitwise 0 (b / 2))
xor_split (suc a) b = omega (
  arith,
  bit_xor-bitwise (suc a) b,
  bit_xor-bitwise (suc a / 2) (b / 2),
  digits-fuel (λ c. c) differ (suc a / 2) a (suc a / 2) (b / 2) (omega arith) (omega arith),
)

differ-lt : (a b : ℕ) → a < 2 → b < 2 → differ a b < 2
differ-lt zero b ha hb = hb
differ-lt (suc a) zero ha hb = ha
differ-lt (suc a) (suc b) ha hb = differ-lt a b (omega arith) (omega arith)

digit_of : (w h d : ℕ) → d < 2 → w ≡ h * 2 + d → w % 2 ≡ d
digit_of w h d small e = omega arith

half_of : (w h d : ℕ) → d < 2 → w ≡ h * 2 + d → w / 2 ≡ h
half_of w h d small e = omega arith

bit-xor : (a b k : ℕ) → bit (bit_xor a b) k ≡ differ (bit a k) (bit b k)
unfolding bit
bit-xor a b zero =
    let small : differ (a % 2) (b % 2) < 2 =
      differ-lt (a % 2) (b % 2) (omega arith) (omega arith) in
    let split : bit_xor a b ≡ bit_xor (a / 2) (b / 2) * 2 + differ (a % 2) (b % 2) =
      xor_split a b in
    digit_of (bit_xor a b) (bit_xor (a / 2) (b / 2)) (differ (a % 2) (b % 2)) small split
bit-xor a b (suc k) =
    let small : differ (a % 2) (b % 2) < 2 =
      differ-lt (a % 2) (b % 2) (omega arith) (omega arith) in
    let e : bit_xor a b / 2 ≡ bit_xor (a / 2) (b / 2) =
      half_of (bit_xor a b) (bit_xor (a / 2) (b / 2)) (differ (a % 2) (b % 2)) small
        (xor_split a b) in
    rw e (bit-xor (a / 2) (b / 2) k)

-- The digits of a mask of bytes and of its complement, by all of the 16 × 32 cases.
abbrev mask_ok : ℕ → ℕ → Bool
mask_ok mask j =
    (bit (bytemask_to_bitmask mask) j == bit mask (j / 8))
    && (bit (2 ^ 32 - 1 - bytemask_to_bitmask mask) j == 1 - bit mask (j / 8))

mask_table : up_to (λ mask. up_to (mask_ok mask) 32) 16 ≡ true
unfolding up_to bit bitmask_rounds
mask_table = refl

mask_bits :
    (mask j : ℕ)
    → mask < 16
    → j < 32
    → (bit (bytemask_to_bitmask mask) j ≡ bit mask (j / 8))
      × (bit (2 ^ 32 - 1 - bytemask_to_bitmask mask) j ≡ 1 - bit mask (j / 8))
mask_bits mask j hm hj =
    let all : mask_ok mask j ≡ true =
      up_to-at (mask_ok mask) 32 (up_to-at (λ m. up_to (mask_ok m) 32) 16 mask_table mask hm) j
        hj in
    ground arith

write_word_self : (words : ℕ → ℕ) (at v : ℕ) → write_word words at v at ≡ v
write_word_self words at v = ground arith

differ_zero : (a : ℕ) → differ a 0 ≡ a
differ_zero zero = refl
differ_zero (suc a) = refl

-- A digit of the one word or of the other, as the digit of the mask says.
chosen :
    (m o v : ℕ)
    → m < 2
    → o < 2
    → v < 2
    → differ (min o (1 - m)) (min v m) ≡ (if m == 1 then v else o)
chosen zero o v hm ho hv =
    let none : min v 0 ≡ 0 = omega arith in
    let kept : min o 1 ≡ o = omega arith in rw (none, kept) (differ_zero o)
chosen (suc zero) o v hm ho hv =
    let none : min o 0 ≡ 0 = omega arith in
    let kept : min v 1 ≡ v = omega arith in rw (none, kept) refl
chosen (suc (suc m)) o v hm ho hv = absurd (omega arith)

masked-bit :
    (mask orig val j : ℕ)
    → mask < 16
    → j < 32
    → bit (masked (bytemask_to_bitmask mask) orig val) j
      ≡ (if bit mask (j / 8) == 1 then bit val j else bit orig j)
unfolding masked
masked-bit mask orig val j hm hj =
    let bits = mask_bits mask j hm hj in
    bit-xor (bit_and orig (2 ^ 32 - 1 - bytemask_to_bitmask mask))
      (bit_and val (bytemask_to_bitmask mask)) j
    ∙ digits (bit-and orig (2 ^ 32 - 1 - bytemask_to_bitmask mask) j ∙ ap (min (bit orig j)) bits.1)
        (bit-and val (bytemask_to_bitmask mask) j ∙ ap (min (bit val j)) bits.0)
    ∙ chosen (bit mask (j / 8)) (bit orig j) (bit val j) (bit-lt mask (j / 8)) (bit-lt orig j)
        (bit-lt val j)
  where
    digits : {a a' b b' : ℕ} → a ≡ a' → b ≡ b' → differ a b ≡ differ a' b'
    digits p q = λ i. differ (p i) (q i)

-- After LD_FIELD with the mask `mask`, the bits of each byte that the mask names are those of the
-- source, rotated as the instruction says, and all others are what they were.
pub interpret_load-bit :
    (e : Engine) (l : Load) (j : ℕ)
    → l.opcode ≡ Opcode.ld_field
    → l.mask < 16
    → j < 32
    → bit (reg_value (interpret_load e l) (register e l.dst)) j ≡ (
        if bit l.mask (j / 8) == 1
        then bit (perform_rot (reg_value e (register e l.src)) l.rot) j
        else bit (reg_value e (register e l.dst)) j)
unfolding interpret_load
interpret_load-bit e l j op hm hj =
    ap (λ (x : Engine). bit (reg_value x (register e l.dst)) j) taken
    ∙ ap (λ (w : ℕ). bit w j)
        (write_word_self (cleared e l).object (registers_word + register e l.dst) _)
    ∙ ap
        (λ (x : Engine).
          bit
            (masked (bytemask_to_bitmask l.mask) (reg_value x (register e l.dst))
              (perform_rot (reg_value x (register e l.src)) l.rot))
            j)
        same
    ∙ masked-bit l.mask (reg_value e (register e l.dst))
        (perform_rot (reg_value e (register e l.src)) l.rot) j hm hj
  where
    known : ((l.opcode == Opcode.ld_field) || (l.opcode == Opcode.ld_field_w_clr)) ≡ true
    known = rw op refl

    taken : interpret_load e l ≡ loaded e l
    taken = rw known refl

    same : cleared e l ≡ e
    same = rw op refl
