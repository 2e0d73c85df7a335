-- ===== src/P9/Reading.antt =====
-- The request's constructor reads back what stands in the message.
use dc2021f_ooows_public.Base.{
  ℕ, suc, ◌+◌, ◌-◌, ◌^◌, ◌≤◌, ◌<◌, ◌≡◌, ◌≢◌, refl, ap, false, some, List, [], ◌∷◌, ◌++◌, ltb, ◌==◌,
  length, length-append, arith,
}
use dc2021f_ooows_public.Net.Guest.{bytes_at}
use dc2021f_ooows_public.Virtio.Registers.{bytes_of}
use dc2021f_ooows_public.Virtio.Numbers.{length-bytes_of, number-bytes_of}
use dc2021f_ooows_public.P9.Layout.{string, strings}
use dc2021f_ooows_public.P9.Parser.{Cursor, read_bytes, read_val, until_nul, read_str, read_strs}

-- The bytes stand at `at`.
abbrev pub Holds : (ℕ → ℕ) → (at : ℕ) → List ℕ → Type 0
Holds f at [] = Unit
Holds f at (b ∷ bytes) = (f at ≡ b) × Holds f (at + 1) bytes

pub moved-Holds :
    (f : ℕ → ℕ) (at to : ℕ) (bytes : List ℕ) → at ≡ to → Holds f at bytes → Holds f to bytes
moved-Holds f at to bytes e h = coe 0 1 (i. Holds f (e i) bytes) h

pub front-Holds : (f : ℕ → ℕ) (at : ℕ) (xs ys : List ℕ) → Holds f at (xs ++ ys) → Holds f at xs
front-Holds f at [] ys h = tt
front-Holds f at (x ∷ xs) ys (e, h) = (e, front-Holds f (at + 1) xs ys h)

pub back-Holds :
    (f : ℕ → ℕ) (at : ℕ) (xs ys : List ℕ) → Holds f at (xs ++ ys) → Holds f (at + length xs) ys
back-Holds f at [] ys h = moved-Holds f at (at + 0) ys (omega arith) h
back-Holds f at (x ∷ xs) ys (e, h) =
    moved-Holds f (at + 1 + length xs) (at + suc (length xs)) ys (omega arith)
      (back-Holds f (at + 1) xs ys h)

-- No byte of a name is 0.
abbrev pub IsName : List ℕ → Type 0
IsName [] = Unit
IsName (b ∷ bytes) = (b ≢ 0) × IsName bytes

-- Names as the reader needs them: short, without a 0, and with a 0 behind their arrays.
abbrev pub AreNames : (ℕ → List ℕ) → List (List ℕ) → Type 0
AreNames behind [] = Unit
AreNames behind (s ∷ names) =
    (length s < 2 ^ 16) × IsName s × ((at : ℕ) → behind at ≡ []) × AreNames behind names

until_nul-name : (s : List ℕ) → IsName s → until_nul s [] ≡ s
until_nul-name [] n = refl
until_nul-name (b ∷ s) (nz, n) =
    let no : (b == 0) ≡ false = ground arith in rw no (ap (λ r. b ∷ r) (until_nul-name s n))

pub bytes_at-held :
    (f : ℕ → ℕ) (at : ℕ) (bytes : List ℕ) → Holds f at bytes → bytes_at f at (length bytes) ≡ bytes
bytes_at-held f at [] h = refl
bytes_at-held f at (b ∷ bytes) (e, h) = rw (e, bytes_at-held f (at + 1) bytes h) refl

module _ (f : ℕ → ℕ) where
  abbrev pub after : Cursor → ℕ → Cursor
  after c l = record { offset = c.offset + l; size = c.size - l }

  pub read_bytes-held :
      (c : Cursor) (bytes : List ℕ)
      → Holds f c.offset bytes
      → length bytes ≤ c.size
      → read_bytes f (length bytes) c ≡ some (bytes, after c (length bytes))
  unfolding read_bytes
  read_bytes-held c bytes h fits =
      let room : ltb c.size (length bytes) ≡ false = ground arith in
      rw (room, bytes_at-held f c.offset bytes h) refl

  pub read_val-held :
      (c : Cursor) (n v : ℕ)
      → Holds f c.offset (bytes_of n v)
      → v < 256 ^ n
      → n ≤ c.size
      → read_val f n c ≡ some (v, after c n)
  read_val-held c n v h small fits =
      let len : length (bytes_of n v) ≡ n = length-bytes_of n v in
      let read : read_bytes f n c ≡ some (bytes_of n v, after c n) =
        coe 0 1 (i. read_bytes f (len i) c ≡ some (bytes_of n v, after c (len i)))
          (read_bytes-held c (bytes_of n v) h (omega (arith, len))) in
      rw (read, number-bytes_of n v small) refl

  module _ (behind : ℕ → List ℕ) where
    pub read_str-held :
        (c : Cursor) (s : List ℕ)
        → Holds f c.offset (bytes_of 2 (length s) ++ s)
        → length s < 2 ^ 16
        → 2 + length s ≤ c.size
        → IsName s
        → ((at : ℕ) → behind at ≡ [])
        → read_str behind f c ≡ some (s, after (after c 2) (length s))
    read_str-held c s h short fits name last =
        rw
          (
            read_val-held c 2 (length s) (front-Holds f c.offset (bytes_of 2 (length s)) s h)
                (omega arith) (omega arith),
            read_bytes-held (after c 2) s (back-Holds f c.offset (bytes_of 2 (length s)) s h)
                (omega arith),
            last (c.offset + 2 + length s),
            until_nul-name s name,
          )
          refl

    pub read_strs-held :
        (names : List (List ℕ)) (c : Cursor)
        → Holds f c.offset (strings names)
        → AreNames behind names
        → length (strings names) ≤ c.size
        → (c' : Cursor) × (read_strs behind f (length names) c ≡ some (names, c'))
    read_strs-held [] c h n fits = (c, refl)
    read_strs-held (s ∷ names) c h (short, name, last, rest) fits =
        let len = length-append s (strings names) in
        let here = front-Holds f c.offset (string s) (strings names) h in
        let c1 = after (after c 2) (length s) in
        let there =
          moved-Holds f (c.offset + length (string s)) c1.offset (strings names) (omega arith)
            (back-Holds f c.offset (string s) (strings names) h) in
        let (c', e) = read_strs-held names c1 there rest (omega (arith, len)) in
        (c', rw (read_str-held c s here short (omega (arith, len)) name last, e) refl)
