-- ===== src/Strings.antt =====
-- The guest kernel's string and memory functions, in boot/kernel/malloc.c. A string is its bytes
-- before the terminating 0; an `int` result is its 32 bits. Memory is the byte at each address.
pub mod Laws
mod Tests
use dc2021f_ooows_public.Base.{
  ℕ, zero, suc, ◌+◌, ◌-◌, ◌%◌, ◌^◌, Bool, true, false, List, [], ◌∷◌, ltb, ◌==◌, if◌then◌else◌,
}

-- A `char` is signed: its value as an `int`.
abbrev pub char_int : ℕ → ℕ
char_int c = if ltb c 128 then c else c + 2 ^ 32 - 256

abbrev pub sub_int : ℕ → ℕ → ℕ
sub_int a b = (a + 2 ^ 32 - b) % 2 ^ 32

-- `char t = *s1++ - *s2++`
abbrev pub char_diff : ℕ → ℕ → ℕ
char_diff a b = (a + 256 - b) % 256

unfoldable pub strcmp : List ℕ → List ℕ → ℕ
strcmp [] [] = sub_int 0 0
strcmp [] (b ∷ bs) = sub_int 0 (char_int b)
strcmp (a ∷ as_) [] = sub_int (char_int a) 0
strcmp (a ∷ as_) (b ∷ bs) =
    let rest = strcmp as_ bs in if char_diff a b == 0 then rest else char_int (char_diff a b)

-- `n--` makes 0 the greatest number, which is -1 as an `int`.
unfoldable pub strncmp : List ℕ → List ℕ → ℕ → ℕ
strncmp [] s2 n = n
strncmp (a ∷ as_) [] n = n
strncmp (a ∷ as_) (b ∷ bs) zero = 2 ^ 32 - 1
strncmp (a ∷ as_) (b ∷ bs) (suc n) =
    let rest = strncmp as_ bs n in if char_diff a b == 0 then rest else char_int (char_diff a b)

abbrev pub write_byte : (ℕ → ℕ) → ℕ → ℕ → ℕ → ℕ
write_byte mem addr b i = if i == addr then b else mem i

-- The loop of `memcpy`, with the bytes that are left: it goes up.
unfoldable pub memcpy : ℕ → ℕ → ℕ → (ℕ → ℕ) → ℕ → ℕ
memcpy zero ptr dat mem = mem
memcpy (suc size) ptr dat mem = memcpy size (suc ptr) (suc dat) (write_byte mem ptr (mem dat))

unfoldable pub memset : ℕ → ℕ → ℕ → (ℕ → ℕ) → ℕ → ℕ
memset zero ptr val mem = mem
memset (suc size) ptr val mem = memset size (suc ptr) val (write_byte mem ptr val)
