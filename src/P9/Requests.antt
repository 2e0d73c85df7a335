-- ===== src/P9/Requests.antt =====
-- The file share under any sequence of requests, and the requests that break it.
use dc2021f_ooows_public.Base.{
  ℕ, suc, ◌+◌, ◌-◌, ◌%◌, ◌^◌, ◌≤◌, ◌<◌, ◌≡◌, ◌≢◌, ◌⊎◌, inl, inr, refl, true, false, not, ◌&&◌, ◌||◌,
  Option, none, some, List, [], ◌∷◌, ◌++◌, ◌==◌, ltb, if◌then◌else◌, length, arith, both_ways,
  Option-cases,
}
use dc2021f_ooows_public.P9.{
  TRequest, t_version, t_auth, t_flush, t_attach, t_walk, t_open, t_create, t_read, t_write,
  t_clunk, t_remove, t_stat, t_wstat,
}
use dc2021f_ooows_public.P9.Kernel.{version_name}
use dc2021f_ooows_public.P9.Core.{
  erased, walk_qids, allocated, put_object, child_path, r_walk, QidObject, p9_qtdir, p9_qtfile,
  P9Core, Host, Reply, r_error, r_none, r_ok, r_read, r_write, equal, fid_found, bind_fid,
  remove_fid, traverse, walk_from,
}
use dc2021f_ooows_public.P9.Execute.{
  legal_name, valid, Done, attach, walk, can_open, open_fid, create, read_done, read_fid, write_fid,
  remove, stat_found, execute, process,
}
use dc2021f_ooows_public.P9.Counted.{IsCounted, found-live}
use dc2021f_ooows_public.P9.Walks.{traverse-Traversed, walk_from-Walked}
use dc2021f_ooows_public.P9.Share.{
  DoneKept, IsSafe, same-Kept, at_fid-Kept, with_opened, removed-Kept, attached-Kept, walked-Kept,
  created-Kept,
}

module _ (host : Host) (s : P9Core) (v : IsCounted s) (few : length s.fid_map < 2 ^ 32 - 1) where
  attach-Kept :
      (fid afid : ℕ) (aname : List ℕ)
      → host.stat s.mountpoint ≢ none
      → DoneKept s (attach host s fid afid aname)
  attach-Kept fid afid aname there =
      both_ways (DoneKept s) (not s.authed && s.auth_required) _ _
        (λ h. same-Kept host s v few r_ok)
        λ h.
          both_ways (DoneKept s) (not (afid == 2 ^ 32 - 1)) _ _
            (λ h. same-Kept host s v few r_error)
            λ h.
              both_ways (DoneKept s) (not (equal s.sharename aname)) _ _
                (λ h. same-Kept host s v few r_error)
                λ h. attached-Kept host s v few fid (host.stat s.mountpoint) there

  walk-Kept :
      (fid newfid : ℕ) (names : List (List ℕ))
      → (fid ≢ newfid) ⊎ (0 < length names)
      → DoneKept s (walk host s fid newfid names)
  walk-Kept fid newfid names safe = at_fid-Kept host s v few fid _ λ p o found live.
      both_ways (DoneKept s) (not (o.kind == p9_qtdir)) _ _ (λ h. same-Kept host s v few r_error)
        λ h.
          walked-Kept host s v few fid newfid names (walk_qids host names s p) p o
            (walk_from host names s p) safe found live (walk_from-Walked host names s p o v live)

  open-Kept : (fid mode : ℕ) → DoneKept s (open_fid host s fid mode)
  open-Kept fid mode = at_fid-Kept host s v few fid _ λ p o found live.
      both_ways (DoneKept s) (not (o.kind == p9_qtfile)) _ _ (λ h. same-Kept host s v few r_error)
        λ h.
          both_ways (DoneKept s) (can_open host o mode) _ _
            (λ h'. (with_opened host s v few s p o true v live, omega arith))
            λ h'. same-Kept host s v few r_error

  create-Kept :
      (fid : ℕ) (name : List ℕ) (perm mode : ℕ) → DoneKept s (create host s fid name perm mode)
  create-Kept fid name perm mode = at_fid-Kept host s v few fid _ λ p o found live.
      both_ways (DoneKept s) (not (o.kind == p9_qtdir)) _ _ (λ h. same-Kept host s v few r_error)
        λ h.
          both_ways (DoneKept s) (host.make_child (o.fspath ++ (47 ∷ name)) perm) _ _
            (λ h'.
              created-Kept host s v few fid mode p o (traverse host s o name) found live
                (traverse-Traversed host s o name v))
            λ h'. same-Kept host s v few r_error

  read_done-Kept : (dat : Option (List ℕ)) → DoneKept s (read_done s dat)
  read_done-Kept none = same-Kept host s v few r_error
  read_done-Kept (some dat) = same-Kept host s v few (r_read dat)

  read-Kept : (fid offset n : ℕ) → DoneKept s (read_fid host s fid offset n)
  read-Kept fid offset n = at_fid-Kept host s v few fid _ λ p o found live.
      both_ways (DoneKept s) (not (o.kind == p9_qtfile) || not o.opened) _ _
        (λ h. same-Kept host s v few r_error)
        λ h.
          both_ways (DoneKept s) (ltb 0x1000 n) _ _ (λ h'. same-Kept host s v few r_error)
            λ h'. read_done-Kept (host.read_file o.fspath offset n)

  write-Kept : (fid offset : ℕ) (dat : List ℕ) → DoneKept s (write_fid host s fid offset dat)
  write-Kept fid offset dat = at_fid-Kept host s v few fid _ λ p o found live.
      both_ways (DoneKept s) (not (o.kind == p9_qtfile) || not o.opened) _ _
        (λ h. same-Kept host s v few r_error)
        λ h.
          both_ways (DoneKept s) (host.write_file o.fspath offset dat == 0) _ _
            (λ h'. same-Kept host s v few r_error)
            λ h'. same-Kept host s v few (r_write (host.write_file o.fspath offset dat))

  remove-Kept : (fid : ℕ) → DoneKept s (remove host s fid)
  remove-Kept fid = at_fid-Kept host s v few fid _ λ p o found live.
      both_ways (DoneKept s) (host.unlink o.fspath) _ _
        (λ h. removed-Kept host s v few fid p o r_ok found live)
        λ h. (with_opened host s v few s p o false v live, omega arith)

  stat-Kept :
      (fid : ℕ)
      → fid_found s.fid_map fid ≢ none
      → DoneKept s (stat_found host s (fid_found s.fid_map fid))
  stat-Kept fid there = elim (Option-cases (fid_found s.fid_map fid)) [
    | inl gone ↦ absurd (there gone)
    | inr (p, found) ↦
        let (o, live) = found-live s fid p v found in
        rw (found, live) (answered (host.stat o.fspath))
  ]
    where
      answered :
          (kind : Option ℕ)
          → DoneKept s (elim kind [ none ↦ some (s, r_error) | some k ↦ some (s, r_ok) ])
      answered none = same-Kept host s v few r_error
      answered (some k) = same-Kept host s v few r_ok

  execute-Kept : (r : TRequest) → IsSafe host s r → DoneKept s (execute host s r)
  unfolding execute IsSafe
  execute-Kept (t_version msize version) safe =
      same-Kept host s v few (if equal version version_name then r_ok else r_error)
  execute-Kept (t_auth afid uname aname) safe =
      same-Kept host s v few (if not s.authed && s.auth_required then r_ok else r_error)
  execute-Kept (t_flush oldtag) safe = same-Kept host s v few r_ok
  execute-Kept (t_attach fid afid uname aname) safe = attach-Kept fid afid aname safe
  execute-Kept (t_walk fid newfid wnames) safe = walk-Kept fid newfid wnames safe
  execute-Kept (t_open fid mode) safe = open-Kept fid mode
  execute-Kept (t_create fid name perm mode) safe = create-Kept fid name perm mode
  execute-Kept (t_read fid offset n) safe = read-Kept fid offset n
  execute-Kept (t_write fid offset n dat) safe = write-Kept fid offset dat
  execute-Kept (t_clunk fid) safe = at_fid-Kept host s v few fid _ λ p o found live.
      removed-Kept host s v few fid p o (if o.opened then r_ok else r_error) found live
  execute-Kept (t_remove fid) safe = remove-Kept fid
  execute-Kept (t_stat fid) safe = stat-Kept fid safe
  execute-Kept (t_wstat fid dat) safe = same-Kept host s v few r_none

-- A safe request, whatever the host answers, comes to its end on a share whose counts are right and
-- which has fewer than 2 ^ 32 - 1 fids: it reads no object that is gone and throws nothing, the
-- counts are right afterwards, and there is one fid more at most.
pub process-Kept :
    (host : Host) (s : P9Core) (r : TRequest)
    → IsCounted s
    → length s.fid_map < 2 ^ 32 - 1
    → IsSafe host s r
    → DoneKept s (process host s r)
unfolding process
process-Kept host s r v few safe =
    both_ways (DoneKept s) (valid r) (execute host s r) (some (s, r_error))
      (λ h. execute-Kept host s v few r safe) λ h. same-Kept host s v few r_error

-- The share when it is made, and after safe requests, each of which was answered.
abbrev pub started : (sharename mountpoint : List ℕ) → P9Core
started sharename mountpoint = record {
  authed = false;
  auth_required = false;
  sharename = sharename;
  mountpoint = mountpoint;
  fid_map = [];
  objects = λ p. none;
  next = 0;
}

pub data Reach (s0 : P9Core) : ℕ → P9Core → Type 0 where
  start : Reach s0 0 s0
  step :
      {n : ℕ} {s s' : P9Core} {a : Reply} (host : Host) (r : TRequest)
      → Reach s0 n s
      → IsSafe host s r
      → process host s r ≡ some (s', a)
      → Reach s0 (suc n) s'

done_step :
    (s s' : P9Core) (a : Reply) (d : Done)
    → d ≡ some (s', a)
    → DoneKept s d
    → DoneKept s (some (s', a))
done_step s s' a d e w = coe 0 1 (i. DoneKept s (e i)) w

-- In every state that the new share reaches by fewer than 2 ^ 32 - 1 safe requests, every object's
-- reference count is the number of fids that stand for it, every fid's object is there, and no more
-- fids are bound than requests were made.
pub Reach-IsCounted :
    (sharename mountpoint : List ℕ) (n : ℕ) (s : P9Core)
    → Reach (started sharename mountpoint) n s
    → n < 2 ^ 32 - 1
    → IsCounted s × (length s.fid_map ≤ n)
Reach-IsCounted sharename mountpoint n s start h =
    (record { counts = λ p. refl; fresh = λ p le. refl }, omega arith)
Reach-IsCounted sharename mountpoint n s (step {n = n'} {s = s1} {a = a} host r before safe e) h =
    let (v, le) = Reach-IsCounted sharename mountpoint n' s1 before (omega arith) in
    let (w, le') =
      done_step s1 s a (process host s1 r) e (process-Kept host s1 r v (omega (arith, le)) safe) in
    (w, omega (arith, le, le'))

-- A walk along no names from a directory's only fid to that fid deletes the directory's object and
-- then binds the fid to it: the device reads an object that is gone.
pub walk_self :
    (host : Host) (s : P9Core) (fid p : ℕ) (o : QidObject)
    → fid_found s.fid_map fid ≡ some p
    → s.objects p ≡ some o
    → o.kind ≡ p9_qtdir
    → o.refcnt ≡ 1
    → fid_found (erased s.fid_map fid) fid ≡ none
    → process host s (t_walk fid fid []) ≡ none
unfolding process execute remove_fid bind_fid
walk_self host s fid p o found live dir one alone =
    let is_dir : (o.kind == 0x80) ≡ true = ground arith in
    let same : (fid == fid) ≡ true = ground arith in
    let self : (p == p) ≡ true = ground arith in
    let last : ((o.refcnt + 2 ^ 32 - 1) % 2 ^ 32 == 0) ≡ true = ground arith in
    rw (found, live, is_dir, same, last, alone, self) refl

-- A walk along one name from a directory's only fid to that fid itself deletes the directory's object,
-- and yet answers with its address: the response, which reads the objects at its addresses when it is
-- sent, finds the first of them gone.
pub walk_stale :
    (host : Host) (s : P9Core) (fid p kind : ℕ) (o : QidObject) (name path : List ℕ)
    → fid_found s.fid_map fid ≡ some p
    → s.objects p ≡ some o
    → o.kind ≡ p9_qtdir
    → o.refcnt ≡ 1
    → p < s.next
    → fid_found (erased s.fid_map fid) fid ≡ none
    → legal_name name ≡ true
    → host.realpath (child_path s o name) ≡ some path
    → host.stat path ≡ some kind
    → (s' : P9Core) × (process host s (t_walk fid fid (name ∷ []))
        ≡ some (s', r_walk (p ∷ (s.next ∷ []))))
      × (s'.objects p ≡ none)
      × (fid_found s'.fid_map fid ≡ some s.next)
unfolding process execute remove_fid bind_fid traverse
walk_stale host s fid p kind o name path found live dir one low alone ok real there =
    let is_dir : (o.kind == 0x80) ≡ true = ground arith in
    let same : (fid == fid) ≡ true = ground arith in
    let self : (p == p) ≡ true = ground arith in
    let new : (s.next == s.next) ≡ true = ground arith in
    let other : (p == s.next) ≡ false = ground arith in
    let other' : (s.next == p) ≡ false = ground arith in
    let last : ((o.refcnt + 2 ^ 32 - 1) % 2 ^ 32 == 0) ≡ true = ground arith in
    let child = allocated s path kind in
    let gone = put_object (record child { fid_map = erased s.fid_map fid }) p none in
    let o' : QidObject = record { kind = kind; fspath = path; opened = false; refcnt = 1 } in
    (
      put_object (record gone { fid_map = (fid, s.next) ∷ erased s.fid_map fid }) s.next (some o'),
      rw
          (
            ok, found, live, is_dir, real, there, same, remove_fid, found, other, live, last,
            bind_fid, alone, other', new,
          )
          refl,
      rw (other, self) refl,
      rw same refl,
    )
