-- ===== src/P9/Layout.antt =====
-- How the kernel's messages are laid out when no name has 65536 bytes or more.
use dc2021f_ooows_public.Base.{
  ℕ, zero, suc, ◌+◌, ◌^◌, ◌≤◌, ◌<◌, ◌≡◌, refl, ap, sym, ◌∙◌, List, [], ◌∷◌, ◌++◌, length, take,
  drop, length-append, arith,
}
use mathlib.Core.List.{append_assoc, append-nil}
use dc2021f_ooows_public.Virtio.Registers.{bytes_of}
use dc2021f_ooows_public.Virtio.Numbers.{length-bytes_of}
use dc2021f_ooows_public.P9.Kernel.{
  stored, Writing, with_string, with_strings, with_val, begun, total_names,
}

take_all : (xs : List ℕ) → take (length xs) xs ≡ xs
take_all [] = refl
take_all (x ∷ xs) = ap (λ r. x ∷ r) (take_all xs)

drop_all : (n : ℕ) (xs : List ℕ) → length xs ≤ n → drop n xs ≡ []
drop_all zero [] h = refl
drop_all zero (x ∷ xs) h = absurd (omega arith)
drop_all (suc n) [] h = refl
drop_all (suc n) (x ∷ xs) h = drop_all n xs (omega arith)

stored-end : (bytes msg : List ℕ) → stored (length msg) bytes msg ≡ msg ++ bytes
stored-end bytes msg =
    rw (take_all msg, drop_all (length msg + length bytes) msg (omega arith), append-nil) refl

writing_eq :
    (m m' : List ℕ) (n n' : ℕ)
    → m ≡ m'
    → n ≡ n'
    → ◌≡◌ {A = Writing} (record { msg = m; at = n }) (record { msg = m'; at = n' })
writing_eq m m' n n' e e' i = record { msg = e i; at = e' i }

pub with_val-end :
    (msg : List ℕ) (n value : ℕ) → with_val (begun msg) n value ≡ begun (msg ++ bytes_of n value)
with_val-end msg n value =
    writing_eq _ _ _ _ (stored-end (bytes_of n value) msg)
      (omega (arith, length-append msg (bytes_of n value), length-bytes_of n value))

-- A string as it stands in a message.
abbrev pub string : List ℕ → List ℕ
string s = bytes_of 2 (length s) ++ s

abbrev pub strings : List (List ℕ) → List ℕ
strings [] = []
strings (s ∷ names) = string s ++ strings names

abbrev pub AreShort : List (List ℕ) → Type 0
AreShort [] = Unit
AreShort (s ∷ names) = (length s < 2 ^ 16) × AreShort names

pub with_string-end :
    (msg s : List ℕ) → length s < 2 ^ 16 → with_string (begun msg) s ≡ begun (msg ++ string s)
with_string-end msg s short =
    writing_eq _ _ _ _ (stored-end (string s) msg) (omega (arith, length-append msg (string s)))

pub with_strings-end :
    (names : List (List ℕ)) (msg : List ℕ)
    → AreShort names
    → with_strings (begun msg) names ≡ begun (msg ++ strings names)
with_strings-end [] msg short = ap begun (sym (append-nil msg))
with_strings-end (s ∷ names) msg (short, rest) =
    ap (λ w. with_strings w names) (with_string-end msg s short)
    ∙ with_strings-end names (msg ++ string s) rest
    ∙ ap begun (append_assoc msg (string s) (strings names))

pub length-strings : (names : List (List ℕ)) → length (strings names) ≡ total_names names
length-strings [] = refl
length-strings (s ∷ names) = omega (arith, length-append s (strings names), length-strings names)
