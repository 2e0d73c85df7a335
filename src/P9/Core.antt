-- ===== src/P9/Core.antt =====
-- The file share's state and what its requests do: devices/p9fs/p9core.cpp, devices/p9fs/qidobject.cpp
-- and the functions `Valid` and `Execute` of devices/p9fs/trequests.cpp. Objects live at addresses,
-- of which `next` is the first that was never used; `none` is a run that reads an object that is
-- not there, or ends in an exception.
use dc2021f_ooows_public.Base.{
  ℕ, ◌+◌, ◌-◌, ◌%◌, ◌^◌, Bool, true, false, ◌&&◌, Option, none, some, List, [], ◌∷◌, ◌++◌, ◌==◌,
  if◌then◌else◌,
}

pub record QidObject : Type 0 where
  pub kind : ℕ
  pub fspath : List ℕ
  pub opened : Bool
  pub refcnt : ℕ

abbrev pub p9_qtdir : ℕ
p9_qtdir = 0x80

abbrev pub p9_qtfile : ℕ
p9_qtfile = 0

pub record P9Core : Type 0 where
  pub authed : Bool
  pub auth_required : Bool
  pub sharename : List ℕ
  pub mountpoint : List ℕ
  pub fid_map : List (ℕ × ℕ)
  pub objects : ℕ → Option QidObject
  pub next : ℕ

-- What the host's system calls answer during a request: `stat` with the kind of a file, `realpath`,
-- whether `open`, the creation of a child and `unlink` succeed, and what `lseek` with `read` or
-- `write` come to.
pub record Host : Type 0 where
  pub stat : List ℕ → Option ℕ
  pub realpath : List ℕ → Option (List ℕ)
  pub open_file : List ℕ → (mode : ℕ) → Bool
  pub make_child : List ℕ → (perm : ℕ) → Bool
  pub unlink : List ℕ → Bool
  pub read_file : List ℕ → (offset count : ℕ) → Option (List ℕ)
  pub write_file : List ℕ → (offset : ℕ) → List ℕ → ℕ

-- What a request comes to: an error, its result, or no answer. A walk's response is given the
-- addresses of all objects on the way, and reads the objects there only when it is sent.
pub data Reply : Type 0 where
  r_error : Reply
  r_none : Reply
  r_ok : Reply
  r_read : List ℕ → Reply
  r_write : ℕ → Reply
  r_walk : List ℕ → Reply

abbrev pub equal : List ℕ → List ℕ → Bool
equal [] [] = true
equal [] (b ∷ bs) = false
equal (a ∷ as_) [] = false
equal (a ∷ as_) (b ∷ bs) = (a == b) && equal as_ bs

-- `m_fid_map`
abbrev pub fid_found : List (ℕ × ℕ) → ℕ → Option ℕ
fid_found [] fid = none
fid_found ((f, p) ∷ map) fid = if f == fid then some p else fid_found map fid

abbrev pub erased : List (ℕ × ℕ) → ℕ → List (ℕ × ℕ)
erased [] fid = []
erased ((f, p) ∷ map) fid = if f == fid then map else (f, p) ∷ erased map fid

abbrev pub put_object : P9Core → ℕ → Option QidObject → P9Core
put_object s p o = record s { objects = λ i. if i == p then o else s.objects i }

-- `QidObject::IncRef` in `BindFid`, and `QidObject::DecRef` in `RemoveFid`.
abbrev pub bound : P9Core → (fid p : ℕ) → Option QidObject → Option (P9Core × Bool)
bound s fid p none = none
bound s fid p (some o) = some (
  put_object (record s { fid_map = (fid, p) ∷ s.fid_map }) p
      (some (record o { refcnt = (o.refcnt + 1) % 2 ^ 32 })),
  true,
)

abbrev pub unless_bound : P9Core → (fid p : ℕ) → Option ℕ → Option (P9Core × Bool)
unless_bound s fid p none = bound s fid p (s.objects p)
unless_bound s fid p (some q) = some (s, false)

unfoldable pub bind_fid : P9Core → (fid p : ℕ) → Option (P9Core × Bool)
bind_fid s fid p = unless_bound s fid p (fid_found s.fid_map fid)

abbrev pub dec_ref : P9Core → ℕ → Option QidObject → Option P9Core
dec_ref s p none = none
dec_ref s p (some o) =
    let cnt = (o.refcnt + 2 ^ 32 - 1) % 2 ^ 32 in
    some (put_object s p (if cnt == 0 then none else some (record o { refcnt = cnt })))

abbrev pub remove_found : P9Core → (fid : ℕ) → Option ℕ → Option P9Core
remove_found s fid none = none
remove_found s fid (some p) = dec_ref (record s { fid_map = erased s.fid_map fid }) p (s.objects p)

unfoldable pub remove_fid : P9Core → (fid : ℕ) → Option P9Core
remove_fid s fid = remove_found s fid (fid_found s.fid_map fid)

-- `new QidObject`: an exception when the host has no such file.
abbrev pub allocated : P9Core → (path : List ℕ) → (kind : ℕ) → P9Core
allocated s path kind =
    put_object (record s { next = s.next + 1 }) s.next
      (some (record { kind = kind; fspath = path; opened = false; refcnt = 0 }))

-- `Traverse`: the new object's address, and `none` inside for `NULL`.
abbrev pub dots : List ℕ
dots = 46 ∷ (46 ∷ [])

abbrev pub child_path : P9Core → QidObject → List ℕ → List ℕ
child_path s o name =
    if equal o.fspath s.mountpoint && equal name dots then o.fspath else o.fspath ++ (47 ∷ name)

abbrev pub traverse_stat : P9Core → (path : List ℕ) → Option ℕ → P9Core × Option ℕ
traverse_stat s path none = (s, none)
traverse_stat s path (some kind) = (allocated s path kind, some s.next)

abbrev pub traverse_real : Host → P9Core → Option (List ℕ) → P9Core × Option ℕ
traverse_real host s none = (s, none)
traverse_real host s (some path) = traverse_stat s path (host.stat path)

unfoldable pub traverse : Host → P9Core → QidObject → (name : List ℕ) → P9Core × Option ℕ
traverse host s o name = traverse_real host s (host.realpath (child_path s o name))

-- The loop of `TWalk::Execute`: from the object at `p` along the names.
abbrev pub walk_next :
    (P9Core → ℕ → Option (P9Core × Option ℕ)) → P9Core × Option ℕ → Option (P9Core × Option ℕ)
walk_next more (s, none) = some (s, none)
walk_next more (s, some p) = more s p

abbrev pub walk_at :
    (QidObject → Option (P9Core × Option ℕ)) → Option QidObject → Option (P9Core × Option ℕ)
walk_at more none = none
walk_at more (some o) = more o

abbrev pub walk_from : Host → List (List ℕ) → P9Core → (p : ℕ) → Option (P9Core × Option ℕ)
walk_from host [] s p = some (s, some p)
walk_from host (name ∷ names) s p =
    walk_at (λ o. walk_next (λ s' p'. walk_from host names s' p') (traverse host s o name))
      (s.objects p)

-- `m_qids`, the addresses of the objects on the way, the first and the last included.
abbrev pub qids_next : (P9Core → ℕ → List ℕ) → P9Core × Option ℕ → List ℕ
qids_next more (s, none) = []
qids_next more (s, some p) = more s p

abbrev pub qids_at : (QidObject → List ℕ) → Option QidObject → List ℕ
qids_at more none = []
qids_at more (some o) = more o

abbrev pub walk_qids : Host → List (List ℕ) → P9Core → (p : ℕ) → List ℕ
walk_qids host [] s p = p ∷ []
walk_qids host (name ∷ names) s p =
    p
    ∷ qids_at (λ o. qids_next (λ s' p'. walk_qids host names s' p') (traverse host s o name))
        (s.objects p)
