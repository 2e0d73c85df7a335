-- ===== src/Strings/Laws.antt =====
-- What the kernel's comparisons and copies compute.
use dc2021f_ooows_public.Base.{
  ℕ, ◌-◌, ◌^◌, ◌<◌, ◌≡◌, ◌≢◌, refl, ap, ◌∙◌, ◌↔◌, inl, inr, true, false, List, [], ◌∷◌, ◌++◌,
  length, ◌==◌, arith, Bool-cases,
}
use dc2021f_ooows_public.Strings.{char_int, char_diff, strcmp, strncmp}

-- The bytes of a string: none is 0.
abbrev pub IsText : List ℕ → Type 0
IsText [] = Unit {0}
IsText (c ∷ cs) = (0 < c) × (c < 256) × IsText cs

char_int-pos : (c : ℕ) → 0 < c → c < 256 → (0 < char_int c) × (char_int c < 2 ^ 32)
char_int-pos c h k = (ground arith, ground arith)

abbrev tail : List ℕ → List ℕ
tail [] = []
tail (c ∷ cs) = cs

abbrev head : ℕ → List ℕ → ℕ
head d [] = d
head d (c ∷ cs) = c

equal_heads : (a b : ℕ) → a < 256 → b < 256 → (char_diff a b == 0) ≡ true → a ≡ b
equal_heads a b h k e = let z : char_diff a b ≡ 0 = ground arith in omega arith

differ_heads : (a b : ℕ) → (char_diff a b == 0) ≡ false → a ≢ b
differ_heads a b e same = let n : char_diff a b ≢ 0 = ground arith in n (omega arith)

-- `strcmp` of two strings is 0 exactly if they are equal.
pub strcmp_zero : (s1 s2 : List ℕ) → IsText s1 → IsText s2 → (strcmp s1 s2 ≡ 0) ↔ (s1 ≡ s2)
unfolding strcmp
strcmp_zero [] [] h k = (λ e. refl, λ e. refl)
strcmp_zero [] (b ∷ bs) h k =
    let (pos, small) = char_int-pos b k.0 k.1 in (λ e. absurd (omega arith), λ e. cc)
strcmp_zero (a ∷ as_) [] h k =
    let (pos, small) = char_int-pos a h.0 h.1 in (λ e. absurd (omega arith), λ e. cc)
strcmp_zero (a ∷ as_) (b ∷ bs) h k =
    let (to, from) = strcmp_zero as_ bs h.2 k.2 in
    elim (Bool-cases (char_diff a b == 0)) [
      | inl same ↦
          let heads : a ≡ b = equal_heads a b h.1 k.1 same in
          rw same
            ((λ e. ap (λ c. c ∷ as_) heads ∙ ap (λ cs. b ∷ cs) (to e)), (λ e. from (ap tail e)))
      | inr differ ↦
          let (pos, small) = char_int-pos (char_diff a b) (ground arith) (omega arith) in
          rw differ
            ((λ e. absurd (omega arith)), (λ e. absurd (differ_heads a b differ (ap (head a) e))))
    ]

-- `strncmp` of two strings that agree on the first `n` bytes and go on is -1, not 0: the caller
-- never learns that the prefixes are equal.
pub strncmp_prefix :
    (p s1 s2 : List ℕ) (a b : ℕ) → strncmp (p ++ (a ∷ s1)) (p ++ (b ∷ s2)) (length p) ≡ 2 ^ 32 - 1
unfolding strncmp
strncmp_prefix [] s1 s2 a b = refl
strncmp_prefix (c ∷ p) s1 s2 a b =
    let same : (char_diff c c == 0) ≡ true = ground arith in rw same (strncmp_prefix p s1 s2 a b)
