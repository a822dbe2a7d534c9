-- ===== src/Filesys/Tokens.antt =====
-- `strtok_r` of src/lib/string.c as src/filesys/filesys.c calls it: the components of a path.
use kernel_dev.Prelude.{
  ℕ, ◌<◌, ◌≤◌, ◌≡◌, refl, ◌∙◌, ap, true, false, Option, none, some, List, [], ◌∷◌, ◌==◌,
  if◌then◌else◌, length, arith, Bool-cases, inl, inr,
}
use kernel_dev.Directory.{Name}
use kernel_dev.Filesys.{
  is_delimiter, skip_delimiters, take_token, first_token, strtok_r, slashes, slash,
}

abbrev pub push : ℕ → List Name → List Name
push c [] = (c ∷ []) ∷ []
push c (t ∷ ts) = (c ∷ t) ∷ ts

-- The parts between slashes, the empty ones included.
unfoldable pub split : List ℕ → List Name
split [] = [] ∷ []
split (c ∷ s) = let rest = split s in if slash == c then [] ∷ rest else push c rest

abbrev pub keep : Name → List Name → List Name
keep [] l = l
keep (c ∷ t) l = (c ∷ t) ∷ l

abbrev pub nonempty : List Name → List Name
nonempty [] = []
nonempty (t ∷ ts) = keep t (nonempty ts)

-- The components of a path: what stands between slashes, less the empty parts.
abbrev pub components : List ℕ → List Name
components s = nonempty (split s)

-- What `strtok_r` returned on a path.
pub data Tokenised (s : List ℕ) (r : Option (Name × List ℕ)) : Type 0 where
  no_token : components s ≡ [] → r ≡ none → Tokenised s r
  token :
      (t : Name) (rest : List ℕ)
      → components s ≡ t ∷ components rest
      → length rest < length s
      → r ≡ some (t, rest)
      → Tokenised s r

slash_lem : (c : ℕ) → is_delimiter slashes c ≡ (slash == c)
unfolding is_delimiter
slash_lem c = ground arith

-- The part up to the next slash, and those behind it.
split_take :
    (s : List ℕ)
    → (ts : List Name) × (split s ≡ (take_token slashes s).0 ∷ ts)
      × (nonempty ts ≡ components (take_token slashes s).1)
      × (length (take_token slashes s).1 ≤ length s)
unfolding split take_token
split_take [] = ([], refl, refl, omega arith)
split_take (c ∷ s) = elim (Bool-cases (slash == c)) [
  | inl e ↦ rw (slash_lem c, e) (split s, refl, refl, omega arith)
  | inr e ↦
      let r = split_take s in rw (slash_lem c, e) (r.0, ap (push c) r.1, r.2, omega (arith, r.3))
]

data Skipped (s r : List ℕ) : Type 0 where
  all_skipped : components s ≡ [] → r ≡ [] → Skipped s r
  stopped :
      (c : ℕ) (s' : List ℕ)
      → (slash == c) ≡ false
      → components s ≡ components (c ∷ s')
      → length (c ∷ s') ≤ length s
      → r ≡ c ∷ s'
      → Skipped s r

after_slash : (c : ℕ) (s : List ℕ) → (slash == c) ≡ true → components (c ∷ s) ≡ components s
unfolding split
after_slash c s e = rw e refl

longer : (c : ℕ) (s : List ℕ) {r : List ℕ} → (slash == c) ≡ true → Skipped s r → Skipped (c ∷ s) r
longer c s e (all_skipped a f) = all_skipped (after_slash c s e ∙ a) f
longer c s e (stopped d s' n a h f) = stopped d s' n (after_slash c s e ∙ a) (omega arith) f

skip-Skipped : (s : List ℕ) → Skipped s (skip_delimiters slashes s)
unfolding skip_delimiters split
skip-Skipped [] = all_skipped refl refl
skip-Skipped (c ∷ s) = elim (Bool-cases (slash == c)) [
  | inl e ↦ rw (slash_lem c) (rw e (longer c s e (skip-Skipped s)))
  | inr e ↦ rw (slash_lem c) (rw e (stopped c s e refl (omega arith) refl))
]

components_nonempty :
    (c : ℕ) (t : Name) (ts : List Name) → nonempty ((c ∷ t) ∷ ts) ≡ (c ∷ t) ∷ nonempty ts
components_nonempty c t ts = refl

first_lem :
    (s : List ℕ) (c : ℕ) (s' : List ℕ)
    → (slash == c) ≡ false
    → components s ≡ components (c ∷ s')
    → length (c ∷ s') ≤ length s
    → Tokenised s (first_token slashes (c ∷ s'))
unfolding first_token split take_token
first_lem s c s' n same h =
    let x = split_take s' in
    rw (slash_lem c, n)
      (token (c ∷ (take_token slashes s').0) (take_token slashes s').1
        (same
          ∙ rw n (
              ap (λ (l : List Name). nonempty (push c l)) x.1
              ∙ ap (λ (l : List Name). (c ∷ (take_token slashes s').0) ∷ l) x.2))
        (omega (arith, x.3)) refl)

by_skip : (s : List ℕ) {r : List ℕ} → Skipped s r → Tokenised s (first_token slashes r)
unfolding first_token
by_skip s (all_skipped a e) = rw e (no_token a refl)
by_skip s (stopped c s' n a h e) = rw e (first_lem s c s' n a h)

-- On a path, `strtok_r` returns its first component, and goes on with a path of the other components;
-- it returns no token if there is no component.
pub strtok_r-Tokenised : (s : List ℕ) → Tokenised s (strtok_r s slashes)
unfolding strtok_r
strtok_r-Tokenised s = by_skip s (skip-Skipped s)
