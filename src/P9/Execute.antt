-- ===== src/P9/Execute.antt =====
-- What the requests do to the file share: `LegalName`, the functions `Valid` and `Execute` and the
-- choice in `Process`, of devices/p9fs/trequests.cpp.
use dc2021f_ooows_public.Base.{
  ℕ, ◌-◌, ◌^◌, Bool, true, false, not, ◌&&◌, ◌||◌, Option, none, some, List, [], ◌∷◌, ◌++◌, ltb,
  leb, ◌==◌, if◌then◌else◌,
}
use dc2021f_ooows_public.P9.{
  TRequest, t_version, t_auth, t_flush, t_attach, t_walk, t_open, t_create, t_read, t_write,
  t_clunk, t_remove, t_stat, t_wstat,
}
use dc2021f_ooows_public.P9.Kernel.{version_name}
use dc2021f_ooows_public.P9.Core.{
  QidObject, p9_qtdir, p9_qtfile, P9Core, Host, Reply, r_error, r_none, r_ok, r_read, r_write,
  r_walk, walk_qids, equal, fid_found, put_object, bind_fid, remove_fid, allocated, traverse,
  walk_from,
}

-- `LegalName`: letters, digits, '_', '-' and '.'
abbrev pub legal : ℕ → Bool
legal b =
    (leb 65 b && leb b 90)
    || ((leb 97 b && leb b 122)
        || ((leb 48 b && leb b 57) || ((b == 95) || ((b == 45) || (b == 46)))))

abbrev pub legal_name : List ℕ → Bool
legal_name [] = true
legal_name (b ∷ bytes) = if legal b then legal_name bytes else false

abbrev pub legal_names : List (List ℕ) → Bool
legal_names [] = true
legal_names (s ∷ names) = if legal_name s then legal_names names else false

abbrev pub valid : TRequest → Bool
valid (t_walk fid newfid wnames) = legal_names wnames
valid (t_create fid name perm mode) = legal_name name
valid r = true

abbrev pub Done : Type 0
Done = Option (P9Core × Reply)

-- The object of a fid: an error if there is none.
abbrev pub at_object : (QidObject → Done) → Option QidObject → Done
at_object k none = none
at_object k (some o) = k o

abbrev pub at_fid : P9Core → Option ℕ → (ℕ → QidObject → Done) → Done
at_fid s none k = some (s, r_error)
at_fid s (some p) k = at_object (k p) (s.objects p)

abbrev pub replied : Reply → (if_not : P9Core) → Option (P9Core × Bool) → Done
replied answer if_not none = none
replied answer if_not (some (s, ok)) = if ok then some (s, answer) else some (if_not, r_error)

-- `TAttach`: when the fid is taken the new object is deleted again.
abbrev pub attached : P9Core → (fid : ℕ) → Option ℕ → Done
attached s fid none = none
attached s fid (some kind) =
    replied r_ok (put_object (allocated s s.mountpoint kind) s.next none)
      (bind_fid (allocated s s.mountpoint kind) fid s.next)

abbrev pub attach : Host → P9Core → (fid afid : ℕ) → (aname : List ℕ) → Done
attach host s fid afid aname =
    if not s.authed && s.auth_required
    then some (s, r_ok)
    else if not (afid == 2 ^ 32 - 1)
    then some (s, r_error)
    else if not (equal s.sharename aname)
    then some (s, r_error)
    else attached s fid (host.stat s.mountpoint)

-- `TWalk`, when the names have been followed.
abbrev pub rebound : (newfid p : ℕ) → (qids : List ℕ) → Option P9Core → Done
rebound newfid p qids none = none
rebound newfid p qids (some s) = replied (r_walk qids) s (bind_fid s newfid p)

abbrev pub walked : (fid newfid : ℕ) → (qids : List ℕ) → Option (P9Core × Option ℕ) → Done
walked fid newfid qids none = none
walked fid newfid qids (some (s, none)) = some (s, r_error)
walked fid newfid qids (some (s, some p)) =
    rebound newfid p qids (if fid == newfid then remove_fid s fid else some s)

abbrev pub walk : Host → P9Core → (fid newfid : ℕ) → List (List ℕ) → Done
walk host s fid newfid wnames = at_fid s (fid_found s.fid_map fid) λ p o.
    if not (o.kind == p9_qtdir)
    then some (s, r_error)
    else walked fid newfid (walk_qids host wnames s p) (walk_from host wnames s p)

-- `QidObject::Open`: a directory opens with any mode, a file with the modes 0, 1 and 2.
abbrev pub can_open : Host → QidObject → (mode : ℕ) → Bool
can_open host o mode =
    if o.opened
    then false
    else if o.kind == p9_qtdir
    then true
    else ltb mode 3 && host.open_file o.fspath mode

abbrev pub opened_at : P9Core → ℕ → QidObject → P9Core
opened_at s p o = put_object s p (some (record o { opened = true }))

abbrev pub open_fid : Host → P9Core → (fid mode : ℕ) → Done
open_fid host s fid mode = at_fid s (fid_found s.fid_map fid) λ p o.
    if not (o.kind == p9_qtfile)
    then some (s, r_error)
    else if can_open host o mode
    then some (opened_at s p o, r_ok)
    else some (s, r_error)

-- `TCreate`: the child is opened and takes the place of its directory.
abbrev pub create_bound : (fid child : ℕ) → Option P9Core → Done
create_bound fid child none = none
create_bound fid child (some s) = replied r_ok s (bind_fid s fid child)

abbrev pub create_opened : Host → P9Core → (fid mode child : ℕ) → Option QidObject → Done
create_opened host s fid mode child none = none
create_opened host s fid mode child (some o) =
    if can_open host o mode
    then create_bound fid child (remove_fid (opened_at s child o) fid)
    else some (s, r_error)

abbrev pub created : Host → (fid mode : ℕ) → P9Core × Option ℕ → Done
created host fid mode (s, none) = some (s, r_error)
created host fid mode (s, some child) = create_opened host s fid mode child (s.objects child)

abbrev pub create : Host → P9Core → (fid : ℕ) → (name : List ℕ) → (perm mode : ℕ) → Done
create host s fid name perm mode = at_fid s (fid_found s.fid_map fid) λ p o.
    if not (o.kind == p9_qtdir)
    then some (s, r_error)
    else if host.make_child (o.fspath ++ (47 ∷ name)) perm
    then created host fid mode (traverse host s o name)
    else some (s, r_error)

abbrev pub read_done : P9Core → Option (List ℕ) → Done
read_done s none = some (s, r_error)
read_done s (some dat) = some (s, r_read dat)

abbrev pub read_fid : Host → P9Core → (fid offset count : ℕ) → Done
read_fid host s fid offset count = at_fid s (fid_found s.fid_map fid) λ p o.
    if not (o.kind == p9_qtfile) || not o.opened
    then some (s, r_error)
    else if ltb 0x1000 count
    then some (s, r_error)
    else read_done s (host.read_file o.fspath offset count)

abbrev pub write_fid : Host → P9Core → (fid offset : ℕ) → List ℕ → Done
write_fid host s fid offset dat = at_fid s (fid_found s.fid_map fid) λ p o.
    if not (o.kind == p9_qtfile) || not o.opened
    then some (s, r_error)
    else let count = host.write_file o.fspath offset dat in
      if count == 0 then some (s, r_error) else some (s, r_write count)

-- `TClunk`: the fid goes even when its object was not open.
abbrev pub removed : Reply → Option P9Core → Done
removed r none = none
removed r (some s) = some (s, r)

abbrev pub closed_at : P9Core → ℕ → QidObject → P9Core
closed_at s p o = put_object s p (some (record o { opened = false }))

abbrev pub clunk : P9Core → (fid : ℕ) → Done
clunk s fid =
    at_fid s (fid_found s.fid_map fid)
      λ p o. removed (if o.opened then r_ok else r_error) (remove_fid (closed_at s p o) fid)

abbrev pub remove : Host → P9Core → (fid : ℕ) → Done
remove host s fid = at_fid s (fid_found s.fid_map fid) λ p o.
    if host.unlink o.fspath
    then removed r_ok (remove_fid (closed_at s p o) fid)
    else some (closed_at s p o, r_error)

-- `TStat` goes on after the error for a fid that there is not.
abbrev pub stat_at : Host → P9Core → Option QidObject → Done
stat_at host s none = none
stat_at host s (some o) = elim (host.stat o.fspath) [
  | none ↦ some (s, r_error)
  | some kind ↦ some (s, r_ok)
]

abbrev pub stat_found : Host → P9Core → Option ℕ → Done
stat_found host s none = none
stat_found host s (some p) = stat_at host s (s.objects p)

-- `Execute` by the request; `TWstat` has none of its own, and the default one does nothing,
-- also not answer.
unfoldable pub execute : Host → P9Core → TRequest → Done
execute host s (t_version msize version) =
    some (s, if equal version version_name then r_ok else r_error)
execute host s (t_auth afid uname aname) =
    some (s, if not s.authed && s.auth_required then r_ok else r_error)
execute host s (t_flush oldtag) = some (s, r_ok)
execute host s (t_attach fid afid uname aname) = attach host s fid afid aname
execute host s (t_walk fid newfid wnames) = walk host s fid newfid wnames
execute host s (t_open fid mode) = open_fid host s fid mode
execute host s (t_create fid name perm mode) = create host s fid name perm mode
execute host s (t_read fid offset count) = read_fid host s fid offset count
execute host s (t_write fid offset count dat) = write_fid host s fid offset dat
execute host s (t_clunk fid) = clunk s fid
execute host s (t_remove fid) = remove host s fid
execute host s (t_stat fid) = stat_found host s (fid_found s.fid_map fid)
execute host s (t_wstat fid dat) = some (s, r_none)

-- `Process`, up to its answer. The register of the requests under way is left
-- out: one thread serves them, so that it holds the request being served alone.
unfoldable pub process : Host → P9Core → TRequest → Done
process host s r = if valid r then execute host s r else some (s, r_error)
