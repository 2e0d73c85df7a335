-- ===== src/P9/Walks.antt =====
-- Following names makes new objects and changes no other.
use dc2021f_ooows_public.Base.{
  ℕ, ◌≤◌, ◌<◌, ◌≡◌, ◌⊎◌, inl, inr, refl, ◌∙◌, true, false, Option, none, some, List, [], ◌∷◌, ◌==◌,
  length, arith,
}
use dc2021f_ooows_public.P9.Core.{
  QidObject, P9Core, Host, allocated, child_path, traverse_stat, traverse_real, traverse, walk_next,
  walk_from,
}
use dc2021f_ooows_public.P9.Counted.{IsCounted, allocated-IsCounted}

-- The state after new objects.
pub record Extends (s s' : P9Core) : Type 0 where
  pub counted : IsCounted s'
  pub same_map : s'.fid_map ≡ s.fid_map
  pub old : (i : ℕ) → i < s.next → s'.objects i ≡ s.objects i
  pub grows : s.next ≤ s'.next

abbrev pub Traversed : P9Core → P9Core × Option ℕ → Type 0
Traversed s (s', none) = Extends s s'
Traversed s (s', some p) = Extends s s' × (s.next ≤ p) × ((o : QidObject) × (s'.objects p ≡ some o))

refl-Extends : (s : P9Core) → IsCounted s → Extends s s
refl-Extends s v = record { counted = v; same_map = refl; old = λ i lt. refl; grows = omega arith }

trans-Extends : (s s' s'' : P9Core) → Extends s s' → Extends s' s'' → Extends s s''
trans-Extends s s' s'' e e' = record {
  counted = e'.counted;
  same_map = e'.same_map ∙ e.same_map;
  old = λ i lt. e'.old i (omega (arith, e.grows)) ∙ e.old i lt;
  grows = omega (arith, e.grows, e'.grows);
}

pub allocated-Extends :
    (s : P9Core) (path : List ℕ) (kind : ℕ) → IsCounted s → Extends s (allocated s path kind)
allocated-Extends s path kind v = record {
  counted = allocated-IsCounted s path kind v;
  same_map = refl;
  old = λ i lt. let other : (i == s.next) ≡ false = ground arith in rw other refl;
  grows = omega arith;
}

pub allocated-there :
    (s : P9Core) (path : List ℕ) (kind : ℕ)
    → (o : QidObject) × ((allocated s path kind).objects s.next ≡ some o)
allocated-there s path kind =
    let self : (s.next == s.next) ≡ true = ground arith in
    (record { kind = kind; fspath = path; opened = false; refcnt = 0 }, rw self refl)

traverse_stat-Traversed :
    (s : P9Core) (path : List ℕ) (kind : Option ℕ)
    → IsCounted s
    → Traversed s (traverse_stat s path kind)
traverse_stat-Traversed s path none v = refl-Extends s v
traverse_stat-Traversed s path (some kind) v =
    (allocated-Extends s path kind v, omega arith, allocated-there s path kind)

traverse_real-Traversed :
    (host : Host) (s : P9Core) (path : Option (List ℕ))
    → IsCounted s
    → Traversed s (traverse_real host s path)
traverse_real-Traversed host s none v = refl-Extends s v
traverse_real-Traversed host s (some path) v = traverse_stat-Traversed s path (host.stat path) v

pub traverse-Traversed :
    (host : Host) (s : P9Core) (o : QidObject) (name : List ℕ)
    → IsCounted s
    → Traversed s (traverse host s o name)
unfolding traverse
traverse-Traversed host s o name v =
    traverse_real-Traversed host s (host.realpath (child_path s o name)) v

-- The end of a walk is its beginning, if there were no names, or a new object.
abbrev pub Walked : P9Core → List (List ℕ) → ℕ → Option (P9Core × Option ℕ) → Type 0
Walked s names p none = ⊥
Walked s names p (some (s', none)) = Extends s s'
Walked s names p (some (s', some p')) =
    Extends s s'
    × ((o : QidObject) × (s'.objects p' ≡ some o))
    × (((p' ≡ p) × (length names ≡ 0)) ⊎ (s.next ≤ p'))

walk_next-Walked :
    (host : Host) (names : List (List ℕ)) (name : List ℕ) (s : P9Core) (p : ℕ)
    (t : P9Core × Option ℕ)
    → ((s' : P9Core) (p' : ℕ) (o : QidObject)
        → IsCounted s'
        → s'.objects p' ≡ some o
        → Walked s' names p' (walk_from host names s' p'))
    → Traversed s t
    → Walked s (name ∷ names) p (walk_next (λ s' p'. walk_from host names s' p') t)
walk_next-Walked host names name s p (s', none) more w = w
walk_next-Walked host names name s p (s', some p') more (e, new, (o, live)) =
    continued (walk_from host names s' p') (more s' p' o e.counted live)
  where
    continued :
        (r : Option (P9Core × Option ℕ)) → Walked s' names p' r → Walked s (name ∷ names) p r
    continued none w = w
    continued (some (s'', none)) w = trans-Extends s s' s'' e w
    continued (some (s'', some p'')) (e', there, inl (same, nil)) =
        (trans-Extends s s' s'' e e', there, inr (omega (arith, same, new)))
    continued (some (s'', some p'')) (e', there, inr newer) =
        (trans-Extends s s' s'' e e', there, inr (omega (arith, newer, e.grows)))

pub walk_from-Walked :
    (host : Host) (names : List (List ℕ)) (s : P9Core) (p : ℕ) (o : QidObject)
    → IsCounted s
    → s.objects p ≡ some o
    → Walked s names p (walk_from host names s p)
walk_from-Walked host [] s p o v live = (refl-Extends s v, (o, live), inl (refl, refl))
walk_from-Walked host (name ∷ names) s p o v live = rw live (
    walk_next-Walked host names name s p (traverse host s o name)
      (λ s' p' o' v' live'. walk_from-Walked host names s' p' o' v' live')
      (traverse-Traversed host s o name v))
