-- ===== src/P9/Kernel.antt =====
-- The guest kernel's messages: boot/kernel/p9.c, as the bytes from `addr` on.
use dc2021f_ooows_public.Base.{ℕ, ◌+◌, ◌-◌, ◌%◌, ◌^◌, List, [], ◌∷◌, ◌++◌, length, take, drop}
use dc2021f_ooows_public.Virtio.Registers.{bytes_of}
use dc2021f_ooows_public.P9.{
  p9_tversion, p9_tauth, p9_tattach, p9_twalk, p9_topen, p9_tcreate, p9_tread, p9_twrite, p9_tclunk,
  p9_tremove,
}

-- The globals `fid` and `tag`.
pub record Counters : Type 0 where
  pub fid : ℕ
  pub tag : ℕ

abbrev pub next_tag : Counters → Counters
next_tag k = record k { tag = (k.tag + 1) % 2 ^ 32 }

abbrev pub next_fid : Counters → Counters
next_fid k = record k { fid = (k.fid + 1) % 2 ^ 32 }

-- `p9_msg_t` before its body: `size_t` has 4 bytes, and the tag's lower 16 bits are kept.
abbrev pub header : (total kind tag : ℕ) → List ℕ
header total kind tag = bytes_of 4 total ++ (kind ∷ bytes_of 2 tag)

-- Bytes stored at an offset of the message.
abbrev pub stored : (at : ℕ) → List ℕ → List ℕ → List ℕ
stored at bytes msg = take at msg ++ (bytes ++ drop (at + length bytes) msg)

-- A `p9_string_t`: the length's lower 16 bits, all of the bytes, and the offset behind by the length
-- that was stored.
pub record Writing : Type 0 where
  pub msg : List ℕ
  pub at : ℕ

abbrev pub with_string : Writing → List ℕ → Writing
with_string w s = record {
  msg = stored w.at (bytes_of 2 (length s) ++ s) w.msg;
  at = w.at + 2 + length s % 2 ^ 16;
}

-- In `p9_create` only as many bytes are copied as the length that was stored says.
abbrev pub with_cut_string : Writing → List ℕ → Writing
with_cut_string w s = record {
  msg = stored w.at (bytes_of 2 (length s) ++ take (length s % 2 ^ 16) s) w.msg;
  at = w.at + 2 + length s % 2 ^ 16;
}

abbrev pub with_strings : Writing → List (List ℕ) → Writing
with_strings w [] = w
with_strings w (s ∷ names) = with_strings (with_string w s) names

abbrev pub with_val : Writing → (bytes value : ℕ) → Writing
with_val w bytes value = record {
  msg = stored w.at (bytes_of bytes value) w.msg;
  at = w.at + bytes;
}

abbrev pub begun : List ℕ → Writing
begun msg = record { msg = msg; at = length msg }

abbrev pub total_names : List (List ℕ) → ℕ
total_names [] = 0
total_names (s ∷ names) = 2 + length s + total_names names

-- "P92021", "pizza" and "who"
abbrev pub version_name : List ℕ
version_name = 80 ∷ (57 ∷ (50 ∷ (48 ∷ (50 ∷ (49 ∷ [])))))

abbrev pub pizza : List ℕ
pizza = 112 ∷ (105 ∷ (122 ∷ (122 ∷ (97 ∷ []))))

abbrev pub who : List ℕ
who = 119 ∷ (104 ∷ (111 ∷ []))

abbrev pub p9_version : Counters → List ℕ × Counters
p9_version k = (
  (with_string (begun (header 19 p9_tversion k.tag ++ bytes_of 4 0x10000)) version_name).msg,
  next_tag k,
)

-- The arguments are not used.
abbrev pub p9_auth : Counters → (u a : List ℕ) → List ℕ × Counters
p9_auth k u a = (
  (with_strings (begun (header 23 p9_tauth k.tag ++ bytes_of 4 k.fid)) (pizza ∷ (who ∷ []))).msg,
  next_fid (next_tag k),
)

abbrev pub p9_attach : Counters → (u a : List ℕ) → List ℕ × Counters
p9_attach k u a = (
  (with_strings
      (begun (
        header (7 + 8 + 2 + 2 + length u + length a) p9_tattach k.tag
        ++ (bytes_of 4 k.fid ++ bytes_of 4 (2 ^ 32 - 1))))
      (u ∷ (a ∷ []))).msg,
  next_fid (next_tag k),
)

abbrev pub p9_walk : Counters → (fid newfid : ℕ) → (wnames : List (List ℕ)) → List ℕ × Counters
p9_walk k fid newfid wnames = (
  (with_strings
      (begun (
        header (7 + 10 + total_names wnames) p9_twalk k.tag
        ++ (bytes_of 4 fid ++ (bytes_of 4 newfid ++ bytes_of 2 (length wnames)))))
      wnames).msg,
  next_tag k,
)

abbrev pub p9_create : Counters → (fid : ℕ) → (newf : List ℕ) → (perms mode : ℕ) → List ℕ × Counters
p9_create k fid newf perms mode = (
  (with_val
      (with_val
        (with_cut_string
          (begun (header (7 + 4 + 2 + length newf + 4 + 1) p9_tcreate k.tag ++ bytes_of 4 fid))
          newf)
        4 perms)
      1 mode).msg,
  next_tag k,
)

abbrev pub p9_write : Counters → (fid offset : ℕ) → (dat : List ℕ) → (count : ℕ) → List ℕ × Counters
p9_write k fid offset dat count = (
  header (7 + 16 + count) p9_twrite k.tag
      ++ (bytes_of 4 fid ++ (bytes_of 8 (offset % 2 ^ 32) ++ (bytes_of 4 count ++ take count dat))),
  next_tag k,
)

abbrev pub p9_read : Counters → (fid offset count : ℕ) → List ℕ × Counters
p9_read k fid offset count = (
  header 23 p9_tread k.tag
      ++ (bytes_of 4 fid ++ (bytes_of 8 (offset % 2 ^ 32) ++ bytes_of 4 count)),
  next_tag k,
)

abbrev pub p9_open : Counters → (fid mode : ℕ) → List ℕ × Counters
p9_open k fid mode = (header 12 p9_topen k.tag ++ (bytes_of 4 fid ++ bytes_of 1 mode), next_tag k)

abbrev pub p9_clunk : Counters → (fid : ℕ) → List ℕ × Counters
p9_clunk k fid = (header 11 p9_tclunk k.tag ++ bytes_of 4 fid, next_tag k)

abbrev pub p9_remove : Counters → (fid : ℕ) → List ℕ × Counters
p9_remove k fid = (header 11 p9_tremove k.tag ++ bytes_of 4 fid, next_tag k)
