-- ===== src/P9/Sent.antt =====
-- What the guest kernel sends is what the device takes up.
use dc2021f_ooows_public.Base.{
  ℕ, ◌+◌, ◌-◌, ◌^◌, ◌≤◌, ◌<◌, ◌≡◌, refl, ap, some, List, [], ◌∷◌, ◌++◌, length, length-append,
  arith,
}
use dc2021f_ooows_public.Virtio.Registers.{bytes_of}
use dc2021f_ooows_public.Virtio.Numbers.{length-bytes_of}
use dc2021f_ooows_public.P9.{
  TRequest, t_version, t_auth, t_attach, t_walk, t_open, t_create, t_read, t_write, t_clunk,
  t_remove, p9_tversion, p9_tauth, p9_tattach, p9_twalk, p9_topen, p9_tcreate, p9_tread, p9_twrite,
  p9_tclunk, p9_tremove,
}
use dc2021f_ooows_public.P9.Parser.{Cursor, read_val, read_str, to_t_request}
use dc2021f_ooows_public.P9.Kernel.{
  Counters, version_name, pizza, who, p9_version, p9_auth, p9_attach, p9_walk, p9_create, p9_write,
  p9_read, p9_open, p9_clunk, p9_remove,
}
use dc2021f_ooows_public.P9.Layout.{string, strings}
use dc2021f_ooows_public.P9.Reading.{
  Holds, front-Holds, back-Holds, moved-Holds, IsName, AreNames, after, read_bytes-held,
  read_val-held, read_str-held, read_strs-held,
}

-- A call of one of the kernel's functions, and the message that it writes.
pub data Call : Type 0 where
  version : Call
  auth : (u a : List ℕ) → Call
  attach : (u a : List ℕ) → Call
  walk : (fid newfid : ℕ) (wnames : List (List ℕ)) → Call
  create : (fid : ℕ) (newf : List ℕ) (perms mode : ℕ) → Call
  writes : (fid offset : ℕ) (dat : List ℕ) → Call
  reads : (fid offset count : ℕ) → Call
  opens : (fid mode : ℕ) → Call
  clunk : (fid : ℕ) → Call
  remove : (fid : ℕ) → Call

unfoldable pub sent : Counters → Call → List ℕ
sent k version = (p9_version k).0
sent k (auth u a) = (p9_auth k u a).0
sent k (attach u a) = (p9_attach k u a).0
sent k (walk fid newfid wnames) = (p9_walk k fid newfid wnames).0
sent k (create fid newf perms mode) = (p9_create k fid newf perms mode).0
sent k (writes fid offset dat) = (p9_write k fid offset dat (length dat)).0
sent k (reads fid offset count) = (p9_read k fid offset count).0
sent k (opens fid mode) = (p9_open k fid mode).0
sent k (clunk fid) = (p9_clunk k fid).0
sent k (remove fid) = (p9_remove k fid).0

-- The request that the device must make of it.
unfoldable pub meant : Counters → Call → TRequest
meant k version = t_version 0x10000 version_name
meant k (auth u a) = t_auth k.fid pizza who
meant k (attach u a) = t_attach k.fid (2 ^ 32 - 1) u a
meant k (walk fid newfid wnames) = t_walk fid newfid wnames
meant k (create fid newf perms mode) = t_create fid newf perms mode
meant k (writes fid offset dat) = t_write fid offset (length dat) dat
meant k (reads fid offset count) = t_read fid offset count
meant k (opens fid mode) = t_open fid mode
meant k (clunk fid) = t_clunk fid
meant k (remove fid) = t_remove fid

-- The arguments are numbers of their types, and the names of a message.
unfoldable pub InRange : Counters → Call → Type 0
InRange k version = Unit
InRange k (auth u a) = k.fid < 2 ^ 32
InRange k (attach u a) = k.fid < 2 ^ 32
InRange k (walk fid newfid wnames) = (fid < 2 ^ 32) × (newfid < 2 ^ 32) × (length wnames < 2 ^ 16)
InRange k (create fid newf perms mode) = (fid < 2 ^ 32) × (perms < 2 ^ 32) × (mode < 256)
InRange k (writes fid offset dat) = (fid < 2 ^ 32) × (offset < 2 ^ 32) × (length dat < 2 ^ 32)
InRange k (reads fid offset count) = (fid < 2 ^ 32) × (offset < 2 ^ 32) × (count < 2 ^ 32)
InRange k (opens fid mode) = (fid < 2 ^ 32) × (mode < 256)
InRange k (clunk fid) = fid < 2 ^ 32
InRange k (remove fid) = fid < 2 ^ 32

unfoldable pub names_of : Call → List (List ℕ)
names_of version = version_name ∷ []
names_of (auth u a) = pizza ∷ (who ∷ [])
names_of (attach u a) = u ∷ (a ∷ [])
names_of (walk fid newfid wnames) = wnames
names_of (create fid newf perms mode) = newf ∷ []
names_of (writes fid offset dat) = []
names_of (reads fid offset count) = []
names_of (opens fid mode) = []
names_of (clunk fid) = []
names_of (remove fid) = []

abbrev pub kind_of : Call → ℕ
kind_of version = p9_tversion
kind_of (auth u a) = p9_tauth
kind_of (attach u a) = p9_tattach
kind_of (walk fid newfid wnames) = p9_twalk
kind_of (create fid newf perms mode) = p9_tcreate
kind_of (writes fid offset dat) = p9_twrite
kind_of (reads fid offset count) = p9_tread
kind_of (opens fid mode) = p9_topen
kind_of (clunk fid) = p9_tclunk
kind_of (remove fid) = p9_tremove

abbrev pub body_of : Counters → Call → List ℕ
body_of k version = bytes_of 4 0x10000 ++ string version_name
body_of k (auth u a) = bytes_of 4 k.fid ++ (string pizza ++ string who)
body_of k (attach u a) = bytes_of 4 k.fid ++ (bytes_of 4 (2 ^ 32 - 1) ++ (string u ++ string a))
body_of k (walk fid newfid wnames) =
    bytes_of 4 fid ++ (bytes_of 4 newfid ++ (bytes_of 2 (length wnames) ++ strings wnames))
body_of k (create fid newf perms mode) =
    bytes_of 4 fid ++ (string newf ++ (bytes_of 4 perms ++ bytes_of 1 mode))
body_of k (writes fid offset dat) =
    bytes_of 4 fid ++ (bytes_of 8 offset ++ (bytes_of 4 (length dat) ++ dat))
body_of k (reads fid offset count) = bytes_of 4 fid ++ (bytes_of 8 offset ++ bytes_of 4 count)
body_of k (opens fid mode) = bytes_of 4 fid ++ bytes_of 1 mode
body_of k (clunk fid) = bytes_of 4 fid
body_of k (remove fid) = bytes_of 4 fid

module _ (behind : ℕ → List ℕ) (f : ℕ → ℕ) where
  -- A field in front of the rest.
  field_held :
      (c : Cursor) (n v : ℕ) (rest : List ℕ)
      → Holds f c.offset (bytes_of n v ++ rest)
      → v < 256 ^ n
      → n ≤ c.size
      → (read_val f n c ≡ some (v, after f c n)) × Holds f (c.offset + n) rest
  field_held c n v rest h small fits = (
    read_val-held f c n v (front-Holds f c.offset (bytes_of n v) rest h) small fits,
    moved-Holds f (c.offset + length (bytes_of n v)) (c.offset + n) rest
        (ap (λ l. c.offset + l) (length-bytes_of n v))
        (back-Holds f c.offset (bytes_of n v) rest h),
  )

  string_held :
      (c : Cursor) (s rest : List ℕ)
      → Holds f c.offset (string s ++ rest)
      → length s < 2 ^ 16
      → 2 + length s ≤ c.size
      → IsName s
      → ((at : ℕ) → behind at ≡ [])
      → (read_str behind f c ≡ some (s, after f (after f c 2) (length s)))
        × Holds f (c.offset + 2 + length s) rest
  string_held c s rest h short fits name last = (
    read_str-held f behind c s (front-Holds f c.offset (string s) rest h) short fits name last,
    moved-Holds f (c.offset + length (string s)) (c.offset + 2 + length s) rest (omega arith)
        (back-Holds f c.offset (string s) rest h),
  )

  abbrev pub Makes : Counters → Call → Cursor → Type 0
  Makes k call c =
      (c' : Cursor) × (to_t_request behind f (kind_of call) c ≡ some (some (meant k call), c'))

  pub made :
      (k : Counters) (call : Call) (c : Cursor)
      → InRange k call
      → AreNames behind (names_of call)
      → Holds f c.offset (body_of k call)
      → length (body_of k call) ≤ c.size
      → Makes k call c
  unfolding InRange names_of meant to_t_request
  made k (clunk fid) c small names h fits =
      (after f c 4, rw (read_val-held f c 4 fid h small (omega arith)) refl)
  made k (remove fid) c small names h fits =
      (after f c 4, rw (read_val-held f c 4 fid h small (omega arith)) refl)
  made k (opens fid mode) c (small, small') names h fits =
      let (e1, h1) = field_held c 4 fid (bytes_of 1 mode) h small (omega arith) in
      let e2 = read_val-held f (after f c 4) 1 mode h1 small' (omega arith) in
      (after f (after f c 4) 1, rw (e1, e2) refl)
  made k (reads fid offset count) c (small, small', small'') names h fits =
      let (e1, h1) =
        field_held c 4 fid (bytes_of 8 offset ++ bytes_of 4 count) h small (omega arith) in
      let (e2, h2) =
        field_held (after f c 4) 8 offset (bytes_of 4 count) h1 (omega arith) (omega arith) in
      let e3 = read_val-held f (after f (after f c 4) 8) 4 count h2 small'' (omega arith) in
      (after f (after f (after f c 4) 8) 4, rw (e1, e2, e3) refl)
  made k (writes fid offset dat) c (small, small', small'') names h fits =
      let (e1, h1) =
        field_held c 4 fid (bytes_of 8 offset ++ (bytes_of 4 (length dat) ++ dat)) h small
          (omega arith) in
      let (e2, h2) =
        field_held (after f c 4) 8 offset (bytes_of 4 (length dat) ++ dat) h1 (omega arith)
          (omega arith) in
      let c2 = after f (after f c 4) 8 in
      let (e3, h3) = field_held c2 4 (length dat) dat h2 small'' (omega arith) in
      let e4 = read_bytes-held f (after f c2 4) dat h3 (omega arith) in
      (after f (after f c2 4) (length dat), rw (e1, e2, e3, e4) refl)
  made k version c small (short, name, last, rest) h fits =
      let (e1, h1) = field_held c 4 0x10000 (string version_name) h (omega arith) (omega arith) in
      let e2 = read_str-held f behind (after f c 4) version_name h1 short (omega arith) name last in
      (after f (after f (after f c 4) 2) (length version_name), rw (e1, e2) refl)
  made k (auth u a) c small (short, name, last, (short', name', last', rest)) h fits =
      let (e1, h1) = field_held c 4 k.fid (string pizza ++ string who) h small (omega arith) in
      let c1 = after f c 4 in
      let (e2, h2) = string_held c1 pizza (string who) h1 short (omega arith) name last in
      let c2 = after f (after f c1 2) (length pizza) in
      let e3 = read_str-held f behind c2 who h2 short' (omega arith) name' last' in
      (after f (after f c2 2) (length who), rw (e1, e2, e3) refl)
  made k (attach u a) c small (short, name, last, (short', name', last', rest)) h fits =
      let len = length-append u (string a) in
      let (e1, h1) =
        field_held c 4 k.fid (bytes_of 4 (2 ^ 32 - 1) ++ (string u ++ string a)) h small
          (omega arith) in
      let (e2, h2) =
        field_held (after f c 4) 4 (2 ^ 32 - 1) (string u ++ string a) h1 (omega arith)
          (omega arith) in
      let c2 = after f (after f c 4) 4 in
      let (e3, h3) = string_held c2 u (string a) h2 short (omega (arith, len)) name last in
      let c3 = after f (after f c2 2) (length u) in
      let e4 = read_str-held f behind c3 a h3 short' (omega (arith, len)) name' last' in
      (after f (after f c3 2) (length a), rw (e1, e2, e3, e4) refl)
  made k (walk fid newfid wnames) c (small, small', few) names h fits =
      let (e1, h1) =
        field_held c 4 fid (bytes_of 4 newfid ++ (bytes_of 2 (length wnames) ++ strings wnames)) h
          small (omega arith) in
      let (e2, h2) =
        field_held (after f c 4) 4 newfid (bytes_of 2 (length wnames) ++ strings wnames) h1 small'
          (omega arith) in
      let c2 = after f (after f c 4) 4 in
      let (e3, h3) = field_held c2 2 (length wnames) (strings wnames) h2 few (omega arith) in
      let (c', e4) = read_strs-held f behind wnames (after f c2 2) h3 names (omega arith) in
      (c', rw (e1, e2, e3, e4) refl)
  made k (create fid newf perms mode) c (small, small', small'') (short, name, last, rest) h fits =
      let len = length-append newf (bytes_of 4 perms ++ bytes_of 1 mode) in
      let (e1, h1) =
        field_held c 4 fid (string newf ++ (bytes_of 4 perms ++ bytes_of 1 mode)) h small
          (omega arith) in
      let c1 = after f c 4 in
      let (e2, h2) =
        string_held c1 newf (bytes_of 4 perms ++ bytes_of 1 mode) h1 short (omega (arith, len)) name
          last in
      let c2 = after f (after f c1 2) (length newf) in
      let (e3, h3) = field_held c2 4 perms (bytes_of 1 mode) h2 small' (omega (arith, len)) in
      let e4 = read_val-held f (after f c2 4) 1 mode h3 small'' (omega (arith, len)) in
      (after f (after f c2 4) 1, rw (e1, e2, e3, e4) refl)
