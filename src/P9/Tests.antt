-- ===== src/P9/Tests.antt =====
-- The theorems on the file share at concrete messages and a concrete share.
use dc2021f_ooows_public.Base.{
  ℕ, zero, suc, ◌+◌, ◌^◌, ◌≤◌, ◌<◌, ◌≡◌, refl, ap, ◌∙◌, true, false, none, some, Option, List, [],
  ◌∷◌, ltb, ◌==◌, if◌then◌else◌, get_or, length, inr, arith,
}
use dc2021f_ooows_public.P9.{t_walk, t_attach, t_clunk}
use dc2021f_ooows_public.P9.Parser.{to_t_request, handle_t_mesg, handled}
use dc2021f_ooows_public.P9.Kernel.{Counters}
use dc2021f_ooows_public.P9.Reading.{Holds, AreNames}
use dc2021f_ooows_public.P9.Sent.{Call, walk, sent, meant, InRange, names_of}
use dc2021f_ooows_public.P9.RoundTrip.{unraced, handle_t_mesg-sent}
use dc2021f_ooows_public.P9.Bounds.{to_t_request-bounds}
use dc2021f_ooows_public.P9.Core.{
  QidObject, P9Core, Host, Reply, r_ok, r_error, r_walk, fid_found, bind_fid, remove_fid, traverse,
}
use dc2021f_ooows_public.P9.Execute.{process, execute}
use dc2021f_ooows_public.P9.Counted.{Counts, IsCounted}
use dc2021f_ooows_public.P9.Share.{IsSafe, DoneKept}
use dc2021f_ooows_public.P9.Requests.{
  started, Reach, start, step, process-Kept, Reach-IsCounted, walk_self, walk_stale,
}

list-Holds :
    (f : ℕ → ℕ) (at : ℕ) (bytes : List ℕ)
    → ((i : ℕ) → i < length bytes → f (at + i) ≡ get_or bytes i 0)
    → Holds f at bytes
list-Holds f at [] same = tt
list-Holds f at (b ∷ bytes) same = (
  ap f (omega arith) ∙ same 0 (omega arith),
  list-Holds f (at + 1) bytes (λ i small. ap f (omega arith) ∙ same (suc i) (omega arith)),
)

-- The kernel walks from fid 1 to fid 2 along "ab" and "c".
abbrev counters : Counters
counters = record { fid = 3; tag = 0x100 }

abbrev to_child : Call
to_child = walk 1 2 ((97 ∷ (98 ∷ [])) ∷ ((99 ∷ []) ∷ []))

abbrev no_tail : ℕ → List ℕ
no_tail at = []

abbrev guest : ℕ → ℕ
guest i = get_or (sent counters to_child) i 0

to_child-InRange : InRange counters to_child
unfolding InRange
to_child-InRange = (omega arith, omega arith, omega arith)

to_child-AreNames : AreNames no_tail (names_of to_child)
unfolding names_of
to_child-AreNames = (
  omega arith,
  ((λ e. absurd (omega arith)), ((λ e. absurd (omega arith)), tt)),
  (λ at. refl),
  (omega arith, ((λ e. absurd (omega arith)), tt), (λ at. refl), tt),
)

guest-Holds : Holds guest 0 (sent counters to_child)
guest-Holds =
    list-Holds guest 0 (sent counters to_child)
      (λ i small. ap (λ (j : ℕ). get_or (sent counters to_child) j 0) (omega arith))

sent_fits : length (sent counters to_child) < 2 ^ 32
unfolding sent
sent_fits = omega arith

handle_t_mesg-sent_example :
    handle_t_mesg no_tail guest (λ i. 0) (unraced guest) 100
    ≡ some (handled (some (meant counters to_child)))
handle_t_mesg-sent_example =
    handle_t_mesg-sent counters to_child no_tail guest (λ i. 0) 100 to_child-InRange
      to_child-AreNames guest-Holds sent_fits (omega arith)

to_t_request-bounds_example :
    to_t_request no_tail (λ i. i) 120 (record { offset = 0; size = 4 })
    ≡ to_t_request no_tail (λ i. if ltb i 4 then i else 0) 120 (record { offset = 0; size = 4 })
to_t_request-bounds_example =
    to_t_request-bounds no_tail (λ i. i) (λ i. if ltb i 4 then i else 0) 120 4
      (λ i small. ground arith)

-- A share whose root stands under fid 1, on a host that knows every file as a directory.
abbrev host : Host
host = record {
  stat = λ path. some 0x80;
  realpath = λ path. some path;
  open_file = λ path mode. true;
  make_child = λ path perm. true;
  unlink = λ path. true;
  read_file = λ path offset n. some [];
  write_file = λ path offset dat. length dat;
}

abbrev root : QidObject
root = record { kind = 0x80; fspath = 47 ∷ []; opened = false; refcnt = 1 }

abbrev share : P9Core
share = record {
  authed = false;
  auth_required = false;
  sharename = [];
  mountpoint = 47 ∷ [];
  fid_map = (1, 0) ∷ [];
  objects = λ p. if p == 0 then some root else none;
  next = 1;
}

share-IsCounted : IsCounted share
share-IsCounted = record { counts = counts; fresh = λ p le. ground arith }
  where
    counts : (p : ℕ) → Counts (if p == 0 then some root else none) ((if 0 == p then 1 else 0) + 0)
    counts zero = refl
    counts (suc p) =
        let far : (suc p == 0) ≡ false = ground arith in
        let far' : (0 == suc p) ≡ false = ground arith in rw (far, far') refl

apart : IsSafe host share (t_walk 1 2 ((97 ∷ []) ∷ []))
unfolding IsSafe
apart = inr (omega arith)

process-Kept_example : DoneKept share (process host share (t_walk 1 2 ((97 ∷ []) ∷ [])))
process-Kept_example =
    process-Kept host share (t_walk 1 2 ((97 ∷ []) ∷ [])) share-IsCounted (omega arith) apart

abbrev state_of : P9Core → Option (P9Core × Reply) → P9Core
state_of s none = s
state_of s (some (s', a)) = s'

-- On a new share a client attaches and walks on to a child, and clunks the root.
abbrev new_share : P9Core
new_share = started [] (47 ∷ [])

abbrev with_root : P9Core
unfolding process execute bind_fid
with_root = state_of new_share (process host new_share (t_attach 1 0xFFFFFFFF [] []))

abbrev with_child : P9Core
unfolding process execute bind_fid traverse
with_child = state_of new_share (process host with_root (t_walk 1 2 ((97 ∷ []) ∷ [])))

abbrev without_root : P9Core
unfolding process execute remove_fid
without_root = state_of new_share (process host with_child (t_clunk 1))

attached : process host new_share (t_attach 1 0xFFFFFFFF [] []) ≡ some (with_root, r_ok)
unfolding process execute bind_fid
attached = refl

walked :
    process host with_root (t_walk 1 2 ((97 ∷ []) ∷ [])) ≡ some (with_child, r_walk (0 ∷ (1 ∷ [])))
unfolding process execute bind_fid traverse
walked = refl

clunked : process host with_child (t_clunk 1) ≡ some (without_root, r_error)
unfolding process execute remove_fid with_child
clunked = refl

after_clunk : Reach new_share 3 without_root
unfolding IsSafe
after_clunk =
    step host (t_clunk 1)
      (step host (t_walk 1 2 ((97 ∷ []) ∷ []))
        (step host (t_attach 1 0xFFFFFFFF [] []) start (λ e. cc) attached) (inr (omega arith))
        walked)
      tt clunked

Reach-IsCounted_example : IsCounted without_root × (length without_root.fid_map ≤ 3)
Reach-IsCounted_example = Reach-IsCounted [] (47 ∷ []) 3 without_root after_clunk (omega arith)

walk_self_example : process host share (t_walk 1 1 []) ≡ none
walk_self_example = walk_self host share 1 0 root refl refl refl refl refl

walk_stale_example :
    (s' : P9Core) × (process host share (t_walk 1 1 ((97 ∷ []) ∷ []))
      ≡ some (s', r_walk (0 ∷ (1 ∷ []))))
    × (s'.objects 0 ≡ none)
    × (fid_found s'.fid_map 1 ≡ some 1)
walk_stale_example =
    walk_stale host share 1 0 0x80 root (97 ∷ []) (47 ∷ (47 ∷ (97 ∷ []))) refl refl refl refl
      (omega arith) refl refl refl refl
