-- ===== src/Prelude/Count.antt =====
-- How often a number stands in a list, and the list operations of src/lib/kernel/list.c on lists whose
-- elements are numbers: `list_push_back` is an append, `list_remove` takes an element out.
use Prim.Native.Nat.{ℕ, ◌+◌, ◌-◌}
use mathlib.Core.Path.{◌≡◌, refl}
use mathlib.Core.Logic.{◌⊎◌, inl, inr}
use mathlib.Core.List.{List, [], ◌∷◌, ◌++◌}
use native.Mathlib.Omega.{arith}
use kernel_dev.Prelude.Tests.{◌==◌, if◌then◌else◌}

-- Both branches are numbers that are computed, so `n` is not computed twice.
abbrev pub count : ℕ → List ℕ → ℕ
count t [] = 0
count t (u ∷ l) = (if u == t then 1 else 0) + count t l

-- The first occurrence goes.
abbrev pub remove : ℕ → List ℕ → List ℕ
remove t [] = []
remove t (u ∷ l) = let rest = remove t l in if u == t then l else u ∷ rest

pub count-append : (t : ℕ) (l m : List ℕ) → count t (l ++ m) ≡ count t l + count t m
count-append t [] m = omega arith
count-append t (u ∷ l) m = ground (arith, count-append t l m)

pub count-push :
    (t u : ℕ) (l : List ℕ) → count t (l ++ (u ∷ [])) ≡ count t l + (if u == t then 1 else 0)
count-push t u l = ground (arith, count-append t l (u ∷ []))

pub count-remove :
    (t u : ℕ) (l : List ℕ) → count t (remove u l) ≡ (if u == t then count t l - 1 else count t l)
count-remove t u [] = ground arith
count-remove t u (v ∷ l) = ground (arith, count-remove t u l)

pub List-cases {ℓ} : {A : Type ℓ} (l : List A) → (l ≡ []) ⊎ ((a : A) × (m : List A) × (l ≡ a ∷ m))
List-cases [] = inl refl
List-cases (a ∷ m) = inr (a, m, refl)
