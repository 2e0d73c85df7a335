-- ===== src/P9/Bounds.antt =====
-- A constructor looks at no byte behind the size that it is given.
use dc2021f_ooows_public.Base.{
  ℕ, zero, suc, ◌+◌, ◌-◌, ◌≤◌, ◌<◌, ◌≡◌, refl, ap, ◌∙◌, true, false, Bool, Option, none, some, List,
  [], ◌∷◌, ltb, ◌==◌, if◌then◌else◌, arith, Bool-cases, inl, inr,
}
use dc2021f_ooows_public.Net.Guest.{bytes_at}
use dc2021f_ooows_public.Virtio.Registers.{number}
use dc2021f_ooows_public.P9.{TRequest}
use dc2021f_ooows_public.P9.Parser.{
  Cursor, Reader, pure, and_then, ◌>>=◌, read_bytes, here, read_val, until_nul, read_str, read_strs,
  new_t_version, new_t_auth, new_t_attach, new_t_walk, new_t_open, new_t_create, new_t_read,
  new_t_write, new_t_wstat, found, to_t_request,
}

-- A reader that stays below `end`.
abbrev Below : {A : Type 0} → ℕ → Option (A × Cursor) → Type 0
Below end none = Unit
Below end (some (a, c)) = c.offset + c.size ≤ end

-- Two readers that do the same wherever what is left ends below `end`, and stay below it.
abbrev Alike : {A : Type 0} → ℕ → Reader A → Reader A → Type 0
Alike end r r' = (c : Cursor) → c.offset + c.size ≤ end → (r c ≡ r' c) × Below end (r c)

module _ (end : ℕ) where
  pure-Alike : {A : Type 0} (a : A) → Alike end (pure a) (pure a)
  pure-Alike a c h = (refl, h)

  and_then-Alike :
      {A B : Type 0} (o : Option (A × Cursor)) (k k' : A → Reader B)
      → Below end o
      → ((a : A) → Alike end (k a) (k' a))
      → (and_then o k ≡ and_then o k') × Below end (and_then o k)
  and_then-Alike none k k' h next = (refl, tt)
  and_then-Alike (some (a, c)) k k' h next = next a c h

  bind-Alike :
      {A B : Type 0} (r r' : Reader A) (k k' : A → Reader B)
      → Alike end r r'
      → ((a : A) → Alike end (k a) (k' a))
      → Alike end (r >>= k) (r' >>= k')
  bind-Alike r r' k k' same next c h =
      let (e, below) = same c h in
      let (e', below') = and_then-Alike (r c) k k' below next in
      (e' ∙ ap (λ o. and_then o k') e, below')

  if-Alike :
      {A : Type 0} (t : Bool) (r r' s s' : Reader A)
      → Alike end r r'
      → Alike end s s'
      → Alike end (if t then r else s) (if t then r' else s')
  if-Alike true r r' s s' p q = p
  if-Alike false r r' s s' p q = q

  bytes_at-same :
      (f g : ℕ → ℕ) (at l : ℕ)
      → ((i : ℕ) → i < end → f i ≡ g i)
      → at + l ≤ end
      → bytes_at f at l ≡ bytes_at g at l
  bytes_at-same f g at zero same h = refl
  bytes_at-same f g at (suc l) same h =
      rw (same at (omega arith), bytes_at-same f g (at + 1) l same (omega arith)) refl

  module _ (behind : ℕ → List ℕ) (f g : ℕ → ℕ) (same : (i : ℕ) → i < end → f i ≡ g i) where
    bytes-Alike : (l : ℕ) → Alike end (read_bytes f l) (read_bytes g l)
    unfolding read_bytes
    bytes-Alike l c h =
        let next : Cursor = record { offset = c.offset + l; size = c.size - l } in
        elim (Bool-cases (ltb c.size l)) [
          | inl short ↦ rw short (refl, tt)
          | inr enough ↦
              let room : l ≤ c.size = ground (arith, enough) in
              rw enough (
                ap (λ (b : List ℕ). some (b, next))
                    (bytes_at-same f g c.offset l same (omega arith)),
                omega arith,
              )
        ]

    val-Alike : (l : ℕ) → Alike end (read_val f l) (read_val g l)
    val-Alike l =
        bind-Alike (read_bytes f l) (read_bytes g l) (λ b. pure (number b)) (λ b. pure (number b))
          (bytes-Alike l) λ b. pure-Alike (number b)

    here-Alike : Alike end here here
    here-Alike c h = (refl, h)

    str-Alike : Alike end (read_str behind f) (read_str behind g)
    str-Alike = bind-Alike _ _ _ _ (val-Alike 2) λ l.
        bind-Alike _ _ _ _ (bytes-Alike l)
          λ b. bind-Alike _ _ _ _ here-Alike λ at. pure-Alike (until_nul b (behind at))

    strs-Alike : (n : ℕ) → Alike end (read_strs behind f n) (read_strs behind g n)
    strs-Alike zero = pure-Alike []
    strs-Alike (suc n) =
        bind-Alike _ _ _ _ str-Alike
          λ s. bind-Alike _ _ _ _ (strs-Alike n) λ rest. pure-Alike (s ∷ rest)

    -- A constructor whose first member is a number of 4 bytes.
    val_then :
        {B : Type 0} (k k' : ℕ → Reader B)
        → ((v : ℕ) → Alike end (k v) (k' v))
        → Alike end (read_val f 4 >>= k) (read_val g 4 >>= k')
    val_then k k' next = bind-Alike (read_val f 4) (read_val g 4) k k' (val-Alike 4) next

    found-Alike :
        (r r' : Reader TRequest) → Alike end r r' → Alike end (found behind f r) (found behind g r')
    found-Alike r r' same' = bind-Alike _ _ _ _ same' λ t. pure-Alike (some t)

    version-Alike : Alike end (new_t_version behind f) (new_t_version behind g)
    version-Alike = val_then _ _ λ v. bind-Alike _ _ _ _ str-Alike λ s. pure-Alike _

    auth-Alike : Alike end (new_t_auth behind f) (new_t_auth behind g)
    auth-Alike =
        val_then _ _
          λ v. bind-Alike _ _ _ _ str-Alike λ s. bind-Alike _ _ _ _ str-Alike λ s'. pure-Alike _

    attach-Alike : Alike end (new_t_attach behind f) (new_t_attach behind g)
    attach-Alike = val_then _ _ λ v.
        val_then _ _
          λ v'. bind-Alike _ _ _ _ str-Alike λ s. bind-Alike _ _ _ _ str-Alike λ s'. pure-Alike _

    walk-Alike : Alike end (new_t_walk behind f) (new_t_walk behind g)
    walk-Alike = val_then _ _ λ v. val_then _ _ λ v'.
        bind-Alike _ _ _ _ (val-Alike 2) λ n. bind-Alike _ _ _ _ (strs-Alike n) λ s. pure-Alike _

    open-Alike : Alike end (new_t_open behind f) (new_t_open behind g)
    open-Alike = val_then _ _ λ v. bind-Alike _ _ _ _ (val-Alike 1) λ m. pure-Alike _

    create-Alike : Alike end (new_t_create behind f) (new_t_create behind g)
    create-Alike = val_then _ _ λ v.
        bind-Alike _ _ _ _ str-Alike
          λ s. val_then _ _ λ p. bind-Alike _ _ _ _ (val-Alike 1) λ m. pure-Alike _

    read-Alike : Alike end (new_t_read behind f) (new_t_read behind g)
    read-Alike =
        val_then _ _ λ v. bind-Alike _ _ _ _ (val-Alike 8) λ o. val_then _ _ λ n. pure-Alike _

    write-Alike : Alike end (new_t_write behind f) (new_t_write behind g)
    write-Alike = val_then _ _ λ v.
        bind-Alike _ _ _ _ (val-Alike 8)
          λ o. val_then _ _ λ n. bind-Alike _ _ _ _ (bytes-Alike n) λ b. pure-Alike _

    wstat-Alike : Alike end (new_t_wstat behind f) (new_t_wstat behind g)
    wstat-Alike = val_then _ _ λ v.
        bind-Alike _ _ _ _ (val-Alike 2) λ n. bind-Alike _ _ _ _ (bytes-Alike n) λ b. pure-Alike _

    to_t_request-Alike :
        (kind : ℕ) → Alike end (to_t_request behind f kind) (to_t_request behind g kind)
    unfolding to_t_request
    to_t_request-Alike kind = if-Alike (kind == 100) _ _ _ _ (found-Alike _ _ version-Alike) (
        if-Alike (kind == 102) _ _ _ _ (found-Alike _ _ auth-Alike) (
          if-Alike (kind == 108) _ _ _ _ (found-Alike _ _ (val_then _ _ λ v. pure-Alike _)) (
            if-Alike (kind == 104) _ _ _ _ (found-Alike _ _ attach-Alike) (
              if-Alike (kind == 110) _ _ _ _ (found-Alike _ _ walk-Alike) (
                if-Alike (kind == 112) _ _ _ _ (found-Alike _ _ open-Alike) (
                  if-Alike (kind == 114) _ _ _ _ (found-Alike _ _ create-Alike) (
                    if-Alike (kind == 116) _ _ _ _ (found-Alike _ _ read-Alike) (
                      if-Alike (kind == 118) _ _ _ _ (found-Alike _ _ write-Alike) (
                        if-Alike (kind == 120) _ _ _ _
                          (found-Alike _ _ (val_then _ _ λ v. pure-Alike _))
                          (if-Alike (kind == 122) _ _ _ _
                            (found-Alike _ _ (val_then _ _ λ v. pure-Alike _))
                            (if-Alike (kind == 124) _ _ _ _
                              (found-Alike _ _ (val_then _ _ λ v. pure-Alike _))
                              (if-Alike (kind == 126) _ _ _ _ (found-Alike _ _ wstat-Alike)
                                (pure-Alike none)))))))))))))

-- For every type of message, what a constructor makes, and whether it throws, depends on no byte of
-- the message's array at or behind the size that it is given. What it makes also depends on the heap
-- behind the arrays that strings are copied to, as these have no end; that is the same on both sides.
pub to_t_request-bounds :
    (behind : ℕ → List ℕ) (f g : ℕ → ℕ) (kind size : ℕ)
    → ((i : ℕ) → i < size → f i ≡ g i)
    → to_t_request behind f kind (record { offset = 0; size = size })
      ≡ to_t_request behind g kind (record { offset = 0; size = size })
to_t_request-bounds behind f g kind size same =
    (to_t_request-Alike size behind f g same kind (record { offset = 0; size = size })
      (omega arith)).0
