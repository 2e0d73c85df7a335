-- ===== src/Strings/Tests.antt =====
-- The theorems on the kernel's strings at short ones.
use dc2021f_ooows_public.Base.{ℕ, ◌-◌, ◌^◌, ◌≡◌, refl, List, [], ◌∷◌, ◌++◌}
use dc2021f_ooows_public.Strings.{strcmp, strncmp, memset}

abbrev flag : List ℕ
flag = 102 ∷ 108 ∷ []

abbrev flip : List ℕ
flip = 102 ∷ 105 ∷ []

strcmp_run : strcmp flag flip ≡ 3
unfolding strcmp
strcmp_run = refl

-- The call returns -1 although the two bytes agree.
strncmp_run : strncmp (flag ++ (1 ∷ [])) (flag ++ (2 ∷ [])) 2 ≡ 2 ^ 32 - 1
unfolding strncmp
strncmp_run = refl

abbrev ramp : ℕ → ℕ
ramp i = i

memset_run : memset 3 10 7 ramp 12 ≡ 7
unfolding memset
memset_run = refl
