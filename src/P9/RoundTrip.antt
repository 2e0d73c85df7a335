-- ===== src/P9/RoundTrip.antt =====
-- A message of the guest kernel in the guest's memory becomes the request that it means.
use dc2021f_ooows_public.Base.{
  ℕ, suc, ◌+◌, ◌-◌, ◌%◌, ◌^◌, ◌≤◌, ◌<◌, ◌≡◌, refl, ap, ◌∙◌, true, false, some, List, [], ◌∷◌, ◌++◌,
  ltb, length, take, length-append, arith,
}
use mathlib.Core.List.{append_assoc, append-nil}
use dc2021f_ooows_public.Net.Guest.{bytes_at}
use dc2021f_ooows_public.Virtio.Registers.{number, bytes_of}
use dc2021f_ooows_public.Virtio.Numbers.{number-bytes_of}
use dc2021f_ooows_public.P9.Parser.{to_t_request, Sizes, handled, raw_byte, queued, handle_t_mesg}
use dc2021f_ooows_public.P9.Kernel.{
  Counters, Writing, begun, stored, header, with_string, with_cut_string, with_val, total_names,
}
use dc2021f_ooows_public.P9.Layout.{
  string, AreShort, with_string-end, with_strings-end, with_val-end, length-strings,
}
use dc2021f_ooows_public.P9.Reading.{Holds, front-Holds, back-Holds, AreNames, bytes_at-held}
use dc2021f_ooows_public.P9.Sent.{
  Call, version, auth, attach, walk, create, writes, reads, opens, clunk, remove, sent, meant,
  InRange, names_of, kind_of, body_of, made,
}

take_all : (xs : List ℕ) → take (length xs) xs ≡ xs
take_all [] = refl
take_all (x ∷ xs) = ap (λ r. x ∷ r) (take_all xs)

-- A short name is copied whole.
with_cut_string-same :
    (w : Writing) (s : List ℕ) → length s < 2 ^ 16 → with_cut_string w s ≡ with_string w s
with_cut_string-same w s short =
    let whole : length s % 2 ^ 16 ≡ length s = omega arith in
    ap
      (λ bytes. record {
        msg = stored w.at (bytes_of 2 (length s) ++ bytes) w.msg;
        at = w.at + 2 + length s % 2 ^ 16;
      })
      (ap (λ n. take n s) whole ∙ take_all s)

-- The message is a header with the message's own length and the body.
abbrev laid_out : Counters → Call → List ℕ
laid_out k call = header (7 + length (body_of k call)) (kind_of call) k.tag ++ body_of k call

sent-laid_out :
    (k : Counters) (call : Call)
    → InRange k call
    → AreShort (names_of call)
    → sent k call ≡ laid_out k call
unfolding sent InRange names_of
sent-laid_out k version small short = refl
sent-laid_out k (auth u a) small short = refl
sent-laid_out k (opens fid mode) small short = refl
sent-laid_out k (clunk fid) small short = refl
sent-laid_out k (remove fid) small short = refl
sent-laid_out k (reads fid offset count) (small, small', small'') short =
    let same : offset % 2 ^ 32 ≡ offset = omega arith in
    ap (λ o. header 23 116 k.tag ++ (bytes_of 4 fid ++ (bytes_of 8 o ++ bytes_of 4 count))) same
sent-laid_out k (writes fid offset dat) (small, small', small'') short =
    let same : offset % 2 ^ 32 ≡ offset = omega arith in
    let total : 7 + 16 + length dat ≡ 7 + length (body_of k (writes fid offset dat)) =
      omega arith in
    ap
      (λ o.
        header (7 + 16 + length dat) 118 k.tag
        ++ (bytes_of 4 fid ++ (bytes_of 8 o ++ (bytes_of 4 (length dat) ++ take (length dat) dat))))
      same
    ∙ ap
        (λ r.
          header (7 + 16 + length dat) 118 k.tag
          ++ (bytes_of 4 fid ++ (bytes_of 8 offset ++ (bytes_of 4 (length dat) ++ r))))
        (take_all dat)
    ∙ ap (λ t. header t 118 k.tag ++ body_of k (writes fid offset dat)) total
sent-laid_out k (attach u a) small short =
    let len = length-append u (string a) in
    let total : 7 + 8 + 2 + 2 + length u + length a ≡ 7 + length (body_of k (attach u a)) =
      omega (arith, len) in
    let msg =
      header (7 + 8 + 2 + 2 + length u + length a) 104 k.tag
      ++ (bytes_of 4 k.fid ++ bytes_of 4 (2 ^ 32 - 1)) in
    ap (λ w. w.msg) (with_strings-end (u ∷ (a ∷ [])) msg short)
    ∙ ap (λ r. msg ++ (string u ++ r)) (append-nil (string a))
    ∙ ap (λ t. header t 104 k.tag ++ body_of k (attach u a)) total
sent-laid_out k (walk fid newfid wnames) small short =
    let total : 7 + 10 + total_names wnames ≡ 7 + length (body_of k (walk fid newfid wnames)) =
      omega (arith, length-strings wnames) in
    let msg =
      header (7 + 10 + total_names wnames) 110 k.tag
      ++ (bytes_of 4 fid ++ (bytes_of 4 newfid ++ bytes_of 2 (length wnames))) in
    ap (λ w. w.msg) (with_strings-end wnames msg short)
    ∙ ap (λ t. header t 110 k.tag ++ body_of k (walk fid newfid wnames)) total
sent-laid_out k (create fid newf perms mode) small (short, rest) =
    let len = length-append newf (bytes_of 4 perms ++ bytes_of 1 mode) in
    let total : 7 + 4 + 2 + length newf + 4 + 1
        ≡ 7 + length (body_of k (create fid newf perms mode)) =
      omega (arith, len) in
    let msg = header (7 + 4 + 2 + length newf + 4 + 1) 114 k.tag ++ bytes_of 4 fid in
    ap (λ w. (with_val (with_val w 4 perms) 1 mode).msg)
      (with_cut_string-same (begun msg) newf short ∙ with_string-end msg newf short)
    ∙ ap (λ w. (with_val w 1 mode).msg) (with_val-end (msg ++ string newf) 4 perms)
    ∙ ap (λ w. w.msg) (with_val-end ((msg ++ string newf) ++ bytes_of 4 perms) 1 mode)
    ∙ append_assoc (msg ++ string newf) (bytes_of 4 perms) (bytes_of 1 mode)
    ∙ append_assoc msg (string newf) (bytes_of 4 perms ++ bytes_of 1 mode)
    ∙ ap (λ t. header t 114 k.tag ++ body_of k (create fid newf perms mode)) total

names-AreShort :
    (behind : ℕ → List ℕ) (names : List (List ℕ)) → AreNames behind names → AreShort names
names-AreShort behind [] n = tt
names-AreShort behind (s ∷ names) (short, name, last, rest) =
    (short, names-AreShort behind names rest)

same-Holds :
    (f g : ℕ → ℕ) (at to : ℕ) (bytes : List ℕ)
    → ((i : ℕ) → i < length bytes → g (to + i) ≡ f (at + i))
    → Holds f at bytes
    → Holds g to bytes
same-Holds f g at to [] same h = tt
same-Holds f g at to (b ∷ bytes) same (e, h) = (
  ap g (omega arith) ∙ same 0 (omega arith) ∙ ap f (omega arith) ∙ e,
  same-Holds f g (at + 1) (to + 1) bytes
      (λ i small. ap g (omega arith) ∙ same (suc i) (omega arith) ∙ ap f (omega arith)) h,
)

-- `pkt->size` where nobody changes it.
abbrev pub pkt_size : (ℕ → ℕ) → ℕ
pkt_size guest = number (bytes_at guest 0 4)

abbrev same_sizes : ℕ → Sizes
same_sizes n = record { tested = n; allocated = n; copied = n; passed = n }

abbrev pub unraced : (ℕ → ℕ) → Sizes
unraced guest = same_sizes (pkt_size guest)

module _ (k : Counters) (call : Call) (behind : ℕ → List ℕ) (guest garbage : ℕ → ℕ) (len : ℕ)
    (small : InRange k call) (names : AreNames behind (names_of call))
    (there : Holds guest 0 (laid_out k call)) (fits : 7 + length (body_of k call) < 2 ^ 32)
    (room : 7 ≤ len) where
  abbrev n : ℕ
  n = 7 + length (body_of k call)

  size_there : pkt_size guest ≡ n
  size_there =
      ap number (
        bytes_at-held guest 0 (bytes_of 4 n) (
          front-Holds guest 0 (bytes_of 4 n) ((kind_of call ∷ bytes_of 2 k.tag) ++ body_of k call)
            there))
      ∙ number-bytes_of 4 n (omega arith)

  kind_there : guest 4 ≡ kind_of call
  kind_there =
      (back-Holds guest 0 (bytes_of 4 n) ((kind_of call ∷ bytes_of 2 k.tag) ++ body_of k call)
        there).0

  body_there : Holds guest 7 (body_of k call)
  body_there = back-Holds guest 0 (header n (kind_of call) k.tag) (body_of k call) there

  abbrev raw : ℕ → ℕ
  raw = raw_byte guest garbage n

  raw_kind : raw 0 ≡ kind_of call
  raw_kind = let in_front : ltb 0 (n - 4) ≡ true = ground arith in rw in_front kind_there

  raw_body : Holds (λ i. raw (3 + i)) 0 (body_of k call)
  raw_body =
      same-Holds guest (λ i. raw (3 + i)) 7 0 (body_of k call)
        (λ i inside.
          let front : ltb (3 + (0 + i)) (n - 4) ≡ true = ground arith in
          rw front (ap guest (omega arith)))
        body_there

  taken_up :
      handle_t_mesg behind guest garbage (same_sizes n) len ≡ some (handled (some (meant k call)))
  unfolding handle_t_mesg
  taken_up =
      let roomy : ltb len 7 ≡ false = ground arith in
      let big : ltb n 7 ≡ false = ground arith in
      let copied : ltb n ((n + 2 ^ 32 - 4) % 2 ^ 32) ≡ false = ground arith in
      let (c', e) =
        made behind (λ i. raw (3 + i)) k call (record { offset = 0; size = n }) small names raw_body
          (omega arith) in
      rw (roomy, big, copied)
        (ap
            (λ kind.
              queued
                (to_t_request behind (λ i. raw (3 + i)) kind (record { offset = 0; size = n })))
            raw_kind
          ∙ ap queued e)

-- The round trip of a message: each of the ten messages that the guest kernel can write, if it
-- stands in the guest's memory and nobody changes its size meanwhile, becomes in the device the
-- request with the arguments of the kernel's call; but for the two names of `p9_auth`, which
-- overwrites them, so that the request has "pizza" and "who" whatever was passed. The arguments are
-- numbers of their types, a name has less than 65536 bytes, none of them 0, and a 0 happens to stand
-- behind the arrays that names are copied to; the buffer has at least 7 bytes and the message less
-- than 2 ^ 32.
pub handle_t_mesg-sent :
    (k : Counters) (call : Call) (behind : ℕ → List ℕ) (guest garbage : ℕ → ℕ) (len : ℕ)
    → InRange k call
    → AreNames behind (names_of call)
    → Holds guest 0 (sent k call)
    → length (sent k call) < 2 ^ 32
    → 7 ≤ len
    → handle_t_mesg behind guest garbage (unraced guest) len ≡ some (handled (some (meant k call)))
handle_t_mesg-sent k call behind guest garbage len small names there fits room =
    let same = sent-laid_out k call small (names-AreShort behind (names_of call) names) in
    let there' = coe 0 1 (i. Holds guest 0 (same i)) there in
    let fits' : 7 + length (body_of k call) < 2 ^ 32 = omega (arith, ap length same) in
    ap (λ s. handle_t_mesg behind guest garbage (same_sizes s) len)
      (size_there k call behind guest garbage len small names there' fits' room)
    ∙ taken_up k call behind guest garbage len small names there' fits' room
