-- ===== src/P9/Share.antt =====
-- No request leaves a fid without its object, or an object with a wrong reference count.
use dc2021f_ooows_public.Base.{
  ℕ, suc, ◌-◌, ◌^◌, ◌≤◌, ◌<◌, ◌≡◌, ◌≢◌, ◌⊎◌, inl, inr, refl, ap, sym, ◌∙◌, true, false, Bool,
  Option, none, some, List, ◌==◌, length, arith, both_ways, Option-cases,
}
use dc2021f_ooows_public.P9.{
  TRequest, t_version, t_auth, t_flush, t_attach, t_walk, t_open, t_create, t_read, t_write,
  t_clunk, t_remove, t_stat, t_wstat,
}
use dc2021f_ooows_public.P9.Core.{
  QidObject, P9Core, Host, Reply, r_error, r_ok, r_walk, fid_found, put_object, bind_fid,
  remove_fid, allocated,
}
use dc2021f_ooows_public.P9.Execute.{
  Done, at_fid, replied, attached, rebound, walked, can_open, opened_at, create_bound, created,
  removed, closed_at,
}
use dc2021f_ooows_public.P9.Counted.{
  count, Counts, IsCounted, found-live, live-lt, put-IsCounted, allocated-IsCounted, Bound,
  bind_fid-Bound, remove_fid-Removed,
}
use dc2021f_ooows_public.P9.Walks.{Traversed, allocated-there, Walked}

abbrev pub DoneKept : P9Core → Done → Type 0
DoneKept s none = ⊥
DoneKept s (some (s', r)) = IsCounted s' × (length s'.fid_map ≤ suc (length s.fid_map))

-- What a request must not ask for: to attach to a mount point that the host has lost, to walk from a
-- fid to itself along no names, or the state of a fid that is not there.
unfoldable pub IsSafe : Host → P9Core → TRequest → Type 0
IsSafe host s (t_version msize version) = Unit
IsSafe host s (t_auth afid uname aname) = Unit
IsSafe host s (t_flush oldtag) = Unit
IsSafe host s (t_attach fid afid uname aname) = host.stat s.mountpoint ≢ none
IsSafe host s (t_walk fid newfid wnames) = (fid ≢ newfid) ⊎ (0 < length wnames)
IsSafe host s (t_open fid mode) = Unit
IsSafe host s (t_create fid name perm mode) = Unit
IsSafe host s (t_read fid offset count) = Unit
IsSafe host s (t_write fid offset count dat) = Unit
IsSafe host s (t_clunk fid) = Unit
IsSafe host s (t_remove fid) = Unit
IsSafe host s (t_stat fid) = fid_found s.fid_map fid ≢ none
IsSafe host s (t_wstat fid dat) = Unit

module _ (host : Host) (s : P9Core) (v : IsCounted s) (few : length s.fid_map < 2 ^ 32 - 1) where
  pub same-Kept : (r : Reply) → DoneKept s (some (s, r))
  same-Kept r = (v, omega arith)

  pub at_fid-Kept :
      (fid : ℕ) (k : ℕ → QidObject → Done)
      → ((p : ℕ) (o : QidObject)
          → fid_found s.fid_map fid ≡ some p
          → s.objects p ≡ some o
          → DoneKept s (k p o))
      → DoneKept s (at_fid s (fid_found s.fid_map fid) k)
  at_fid-Kept fid k next = elim (Option-cases (fid_found s.fid_map fid)) [
    | inl gone ↦ rw gone (same-Kept r_error)
    | inr (p, found) ↦
        let (o, live) = found-live s fid p v found in rw (found, live) (next p o found live)
  ]

  replied-Kept :
      (answer : Reply) (t : P9Core) (b : Option (P9Core × Bool)) (other : P9Core)
      → length t.fid_map ≤ length s.fid_map
      → Bound t b
      → IsCounted other
      → length other.fid_map ≤ suc (length s.fid_map)
      → DoneKept s (replied answer other b)
  replied-Kept answer t none other le w v' le' = w
  replied-Kept answer t (some (s', ok)) other le (w, le'') v' le' =
      both_ways (DoneKept s) ok (some (s', answer)) (some (other, r_error)) (λ h. (w, omega arith))
        λ h. (v', le')

  -- An object keeps its count when it is opened or closed.
  pub with_opened :
      (t : P9Core) (p : ℕ) (o : QidObject) (opened : Bool)
      → IsCounted t
      → t.objects p ≡ some o
      → IsCounted (put_object t p (some (record o { opened = opened })))
  with_opened t p o opened w live =
      put-IsCounted t t.fid_map p (some (record o { opened = opened })) w
        (coe 0 1 (k. Counts (live k) (count p t.fid_map)) (w.counts p)) (λ i ne. refl)
        (live-lt t p o w live)

  pub removed-Kept :
      (fid p : ℕ) (o : QidObject) (r : Reply)
      → fid_found s.fid_map fid ≡ some p
      → s.objects p ≡ some o
      → DoneKept s (removed r (remove_fid (closed_at s p o) fid))
  removed-Kept fid p o r found live =
      let (s', e, w, le, others) =
        remove_fid-Removed (closed_at s p o) fid p (with_opened s p o false v live) few found in
      rw e (w, omega arith)

  pub attached-Kept : (fid : ℕ) (kind : Option ℕ) → kind ≢ none → DoneKept s (attached s fid kind)
  attached-Kept fid none there = absurd (there refl)
  attached-Kept fid (some kind) there =
      let t = allocated s s.mountpoint kind in
      let w = allocated-IsCounted s s.mountpoint kind v in
      let (o, live) = allocated-there s s.mountpoint kind in
      let nobody : 0 ≡ count s.next s.fid_map =
        coe 0 1 (k. Counts (self k) (count s.next s.fid_map)) (w.counts s.next) in
      replied-Kept r_ok t (bind_fid t fid s.next) (put_object t s.next none) (omega arith)
        (bind_fid-Bound t fid s.next o w live few)
        (put-IsCounted t t.fid_map s.next none w (sym nobody) (λ i ne. refl) (omega arith))
        (omega arith)
    where
      self :
          (allocated s s.mountpoint kind).objects s.next
          ≡ some (record { kind = kind; fspath = s.mountpoint; opened = false; refcnt = 0 })
      self = let same : (s.next == s.next) ≡ true = ground arith in rw same refl

  pub walked-Kept :
      (fid newfid : ℕ) (names : List (List ℕ)) (qids : List ℕ) (p : ℕ) (o : QidObject)
      (r : Option (P9Core × Option ℕ))
      → (fid ≢ newfid) ⊎ (0 < length names)
      → fid_found s.fid_map fid ≡ some p
      → s.objects p ≡ some o
      → Walked s names p r
      → DoneKept s (walked fid newfid qids r)
  walked-Kept fid newfid names qids p o none safe found live w = w
  walked-Kept fid newfid names qids p o (some (s', none)) safe found live w =
      (w.counted, omega (arith, ap length w.same_map))
  walked-Kept fid newfid names qids p o (some (s', some p')) safe found live
        (e, (o', live'), ends) =
      let len : length s'.fid_map ≡ length s.fid_map = ap length e.same_map in
      both_ways (λ t. DoneKept s (rebound newfid p' qids t)) (fid == newfid) (remove_fid s' fid)
        (some s')
        (λ same.
          let found' : fid_found s'.fid_map fid ≡ some p =
            ap (λ map. fid_found map fid) e.same_map ∙ found in
          let lt : p < s.next = live-lt s p o v live in
          let ne : p' ≢ p = ground (arith, safe, ends, lt) in
          let (s'', gone, w, le, others) =
            remove_fid-Removed s' fid p e.counted (omega (arith, len)) found' in
          rw gone (
            replied-Kept (r_walk qids) s'' (bind_fid s'' newfid p') s'' (omega (arith, len))
              (bind_fid-Bound s'' newfid p' o' w (others p' ne ∙ live') (omega (arith, len))) w
              (omega (arith, len))))
        λ other.
          replied-Kept (r_walk qids) s' (bind_fid s' newfid p') s' (omega (arith, len))
            (bind_fid-Bound s' newfid p' o' e.counted live' (omega (arith, len))) e.counted
            (omega (arith, len))

  pub created-Kept :
      (fid mode p : ℕ) (o : QidObject) (t : P9Core × Option ℕ)
      → fid_found s.fid_map fid ≡ some p
      → s.objects p ≡ some o
      → Traversed s t
      → DoneKept s (created host fid mode t)
  created-Kept fid mode p o (s', none) found live e =
      (e.counted, omega (arith, ap length e.same_map))
  created-Kept fid mode p o (s', some child) found live (e, new, (o', live')) =
      let len : length s'.fid_map ≡ length s.fid_map = ap length e.same_map in
      let s1 = opened_at s' child o' in
      let w1 = with_opened s' child o' true e.counted live' in
      let found' : fid_found s1.fid_map fid ≡ some p =
        ap (λ map. fid_found map fid) e.same_map ∙ found in
      let lt : p < s.next = live-lt s p o v live in
      let ne : child ≢ p = ground arith in
      let self : (child == child) ≡ true = ground arith in
      let there : s1.objects child ≡ some (record o' { opened = true }) = rw self refl in
      let (s2, gone, w2, le, others) = remove_fid-Removed s1 fid p w1 (omega (arith, len)) found' in
      rw live' (
        both_ways (DoneKept s) (can_open host o' mode) (create_bound fid child (remove_fid s1 fid))
          (some (s', r_error))
          (λ h. rw gone (
            replied-Kept r_ok s2 (bind_fid s2 fid child) s2 (omega (arith, len))
              (bind_fid-Bound s2 fid child (record o' { opened = true }) w2
                (others child ne ∙ there) (omega (arith, len)))
              w2 (omega (arith, len))))
          λ h. (e.counted, omega (arith, len)))
