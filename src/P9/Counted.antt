-- ===== src/P9/Counted.antt =====
-- The reference counts of the share's objects.
use dc2021f_ooows_public.Base.{
  ℕ, suc, ◌+◌, ◌-◌, ◌%◌, ◌^◌, ◌≤◌, ◌<◌, ◌≡◌, ◌≢◌, inl, inr, refl, ap, sym, false, Bool, Option,
  none, some, List, [], ◌∷◌, ◌==◌, ltb, if◌then◌else◌, length, arith, both_ways, Bool-cases,
}
use dc2021f_ooows_public.P9.Core.{
  QidObject, P9Core, fid_found, erased, put_object, bound, unless_bound, bind_fid, remove_fid,
  allocated,
}

-- How many fids stand for an object.
abbrev pub count : ℕ → List (ℕ × ℕ) → ℕ
count p [] = 0
count p ((f, q) ∷ map) = (if q == p then 1 else 0) + count p map

abbrev pub Counts : Option QidObject → ℕ → Type 0
Counts none n = n ≡ 0
Counts (some o) n = o.refcnt ≡ n

-- Every object's count is the number of its fids, no fid stands for an object that is gone, and the
-- addresses that were never used hold none.
pub record IsCounted (s : P9Core) : Type 0 where
  pub counts : (p : ℕ) → Counts (s.objects p) (count p s.fid_map)
  pub fresh : (p : ℕ) → s.next ≤ p → s.objects p ≡ none

count-le : (p : ℕ) (map : List (ℕ × ℕ)) → count p map ≤ length map
count-le p [] = omega arith
count-le p ((f, q) ∷ map) = ground (arith, count-le p map)

found-count :
    (p fid : ℕ) (map : List (ℕ × ℕ)) (i : ℕ)
    → fid_found map fid ≡ some p
    → count i map ≡ (if p == i then 1 else 0) + count i (erased map fid)
found-count p fid [] i e = absurd (ground arith)
found-count p fid ((f, q) ∷ map) i e = elim (Bool-cases (f == fid)) [
  | inl here ↦
      let same : some q ≡ some p =
        coe 0 1 (k. (if here k then some q else fid_found map fid) ≡ some p) e in
      let qp : q ≡ p = ground arith in rw (here, qp) refl
  | inr not_here ↦
      let there : fid_found map fid ≡ some p =
        coe 0 1 (k. (if not_here k then some q else fid_found map fid) ≡ some p) e in
      let rest = found-count p fid map i there in rw not_here (omega (arith, rest))
]

pub length-erased : (map : List (ℕ × ℕ)) (fid : ℕ) → length (erased map fid) ≤ length map
length-erased [] fid = omega arith
length-erased ((f, q) ∷ map) fid = ground (arith, length-erased map fid)

-- An object that a fid stands for is there.
pub found-live :
    (s : P9Core) (fid p : ℕ)
    → IsCounted s
    → fid_found s.fid_map fid ≡ some p
    → (o : QidObject) × (s.objects p ≡ some o)
found-live s fid p v e = live (s.objects p) refl
  where
    some_ref : 0 < count p s.fid_map
    some_ref = ground (arith, found-count p fid s.fid_map p e)

    live : (o : Option QidObject) → o ≡ s.objects p → (o' : QidObject) × (s.objects p ≡ some o')
    live none h =
        absurd
          (omega (arith, some_ref, coe 0 1 (k. Counts (sym h k) (count p s.fid_map)) (v.counts p)))
    live (some o) h = (o, sym h)

pub live-lt : (s : P9Core) (p : ℕ) (o : QidObject) → IsCounted s → s.objects p ≡ some o → p < s.next
live-lt s p o v e = elim (Bool-cases (ltb p s.next)) [
  | inl lt ↦ ground arith
  | inr ge ↦ let gone : s.objects p ≡ none = v.fresh p (ground arith) in absurd (ground arith)
]

-- An object is replaced, and with it the map, which differs only in the fids of that object.
pub put-IsCounted :
    (s : P9Core) (map : List (ℕ × ℕ)) (p : ℕ) (o : Option QidObject)
    → IsCounted s
    → Counts o (count p map)
    → ((i : ℕ) → i ≢ p → count i map ≡ count i s.fid_map)
    → p < s.next
    → IsCounted (put_object (record s { fid_map = map }) p o)
put-IsCounted s map p o v here others lt = record {
  counts = λ i. elim (Bool-cases (i == p)) [
    | inl same ↦
        let e : p ≡ i = ground arith in rw same (coe 0 1 (k. Counts o (count (e k) map)) here)
    | inr other ↦
        let ne : i ≢ p = ground arith in
        rw other (coe 0 1 (k. Counts (s.objects i) (sym (others i ne) k)) (v.counts i))
  ];
  fresh = λ i le. let other : (i == p) ≡ false = ground arith in rw other (v.fresh i le);
}

-- A new object has no fid.
pub allocated-IsCounted :
    (s : P9Core) (path : List ℕ) (kind : ℕ) → IsCounted s → IsCounted (allocated s path kind)
allocated-IsCounted s path kind v = record {
  counts = λ i. elim (Bool-cases (i == s.next)) [
    | inl same ↦
        let e : s.next ≡ i = ground arith in
        let none_there : count s.next s.fid_map ≡ 0 =
          coe 0 1 (k. Counts (v.fresh s.next (omega arith) k) (count s.next s.fid_map))
            (v.counts s.next) in
        rw same (omega (arith, none_there, ap (λ (j : ℕ). count j s.fid_map) e))
    | inr other ↦ rw other (v.counts i)
  ];
  fresh = λ i le.
      let other : (i == s.next) ≡ false = ground arith in rw other (v.fresh i (omega arith));
}

abbrev pub Bound : P9Core → Option (P9Core × Bool) → Type 0
Bound s none = ⊥
Bound s (some (s', ok)) = IsCounted s' × (length s'.fid_map ≤ suc (length s.fid_map))

-- A fid is bound to an object that is there.
pub bind_fid-Bound :
    (s : P9Core) (fid p : ℕ) (o : QidObject)
    → IsCounted s
    → s.objects p ≡ some o
    → length s.fid_map < 2 ^ 32 - 1
    → Bound s (bind_fid s fid p)
unfolding bind_fid
bind_fid-Bound s fid p o v live few = unless (fid_found s.fid_map fid)
  where
    refs : o.refcnt ≡ count p s.fid_map
    refs = coe 0 1 (k. Counts (live k) (count p s.fid_map)) (v.counts p)

    bound-Bound : Bound s (bound s fid p (some o))
    bound-Bound = (
      put-IsCounted s ((fid, p) ∷ s.fid_map) p
          (some (record o { refcnt = (o.refcnt + 1) % 2 ^ 32 })) v
          (ground (arith, refs, count-le p s.fid_map)) (λ i ne. ground arith)
          (live-lt s p o v live),
      omega arith,
    )

    unless : (found : Option ℕ) → Bound s (unless_bound s fid p found)
    unless none = coe 0 1 (k. Bound s (bound s fid p (sym live k))) bound-Bound
    unless (some q) = (v, omega arith)

-- A fid is removed: its object goes with the last of its fids, and no other object changes.
pub remove_fid-Removed :
    (s : P9Core) (fid p : ℕ)
    → IsCounted s
    → length s.fid_map < 2 ^ 32 - 1
    → fid_found s.fid_map fid ≡ some p
    → (s' : P9Core) × (remove_fid s fid ≡ some s')
      × IsCounted s'
      × (length s'.fid_map ≤ length s.fid_map)
      × ((i : ℕ) → i ≢ p → s'.objects i ≡ s.objects i)
unfolding remove_fid
remove_fid-Removed s fid p v few found =
    let (o, live) = found-live s fid p v found in
    let refs : o.refcnt ≡ count p s.fid_map =
      coe 0 1 (k. Counts (live k) (count p s.fid_map)) (v.counts p) in
    let counted = found-count p fid s.fid_map in
    let cnt = (o.refcnt + 2 ^ 32 - 1) % 2 ^ 32 in
    let map = erased s.fid_map fid in
    let left : cnt ≡ count p map = ground (arith, refs, counted p found, count-le p s.fid_map) in
    let o' = if cnt == 0 then none else some (record o { refcnt = cnt }) in
    (
      put_object (record s { fid_map = map }) p o',
      rw (found, live) refl,
      put-IsCounted s map p o' v
          (both_ways (λ x. Counts x (count p map)) (cnt == 0) none
            (some (record o { refcnt = cnt })) (λ z. ground (arith, left)) λ z. left)
          (λ i ne. ground (arith, counted i found)) (live-lt s p o v live),
      length-erased s.fid_map fid,
      λ i ne. let other : (i == p) ≡ false = ground arith in rw other refl,
    )
