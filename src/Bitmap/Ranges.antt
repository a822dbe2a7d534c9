-- ===== src/Bitmap/Ranges.antt =====
-- The operations of src/lib/kernel/bitmap.c on a range of bits.
use kernel_dev.Prelude.{
  ℕ, zero, suc, ◌+◌, ◌-◌, ◌*◌, ◌^◌, ◌%◌, ◌<◌, ◌≤◌, ◌≡◌, refl, ◌∙◌, Bool, true, false, not, Option,
  none, some, ap, ◌==◌, ltb, leb, bool_eq, if◌then◌else◌, arith, length, Bool-cases, inl, inr,
  ◌>>=◌, ◌≢◌, ◌&&◌, ◌||◌, ◌⊎◌,
}
use kernel_dev.Bitmap.{
  Bitmap, add_size, bitmap_set, set_loop, count_loop, contains_loop, in_range, bitmap_set_multiple,
  bitmap_count, bitmap_contains,
}
use kernel_dev.Bitmap.View.{bit, IsValid, WasSet, bitmap_set-WasSet, bitmap_test_lem}

-- `j` lies in the range of `n` bits from `start`.
abbrev pub within : ℕ → ℕ → ℕ → Bool
within start n j = leb start j && ltb j (start + n)

-- What setting a range did where it did not panic.
pub record WasSetRange (b : Bitmap) (start n : ℕ) (value : Bool) (r : Option Bitmap) : Type 0 where
  pub after : Bitmap
  pub returned : r ≡ some after
  pub valid : IsValid after
  pub same_size : after.bit_cnt ≡ b.bit_cnt
  pub same_store : length after.bits ≡ length b.bits
  pub bits : (j : ℕ) → bit after j ≡ (if within start n j then value else bit b j)

next_start :
    (start n bound : ℕ) → start + suc n ≤ bound → bound < 2 ^ 32 - 1 → add_size start 1 ≡ start + 1
next_start start n bound h k = omega arith

within-step :
    (start n j : ℕ) (value old : Bool)
    → (if within (start + 1) n j then value else if start == j then value else old)
      ≡ (if within start (suc n) j then value else old)
within-step start n j value old = ground arith

set_loop-WasSetRange :
    (n start : ℕ) {b : Bitmap} (value : Bool)
    → IsValid b
    → start + n ≤ b.bit_cnt
    → WasSetRange b start n value (set_loop b start n value)
unfolding set_loop
set_loop-WasSetRange zero start {b} value v h = record {
  after = b;
  returned = refl;
  valid = v;
  same_size = refl;
  same_store = refl;
  bits = λ j. ground arith;
}
set_loop-WasSetRange (suc n) start {b} value v h =
    let one : WasSet b start value (bitmap_set b start value) =
      bitmap_set-WasSet start value v (omega arith) in
    let e : add_size start 1 ≡ start + 1 = next_start start n b.bit_cnt h v.small in
    let rest : WasSetRange one.after (start + 1) n value (set_loop one.after (start + 1) n value) =
      set_loop-WasSetRange n (start + 1) value one.valid (omega (arith, one.same_size)) in
    record {
      after = rest.after;
      returned = rw one.returned (ap (λ t. set_loop one.after t n value) e ∙ rest.returned);
      valid = rest.valid;
      same_size = rest.same_size ∙ one.same_size;
      same_store = rest.same_store ∙ one.same_store;
      bits = λ j.
          rest.bits j
          ∙ ap (λ t. if within (start + 1) n j then value else t) (one.bits j)
          ∙ within-step start n j value (bit b j);
    }

in_range_lem :
    {b : Bitmap} (start n : ℕ) → IsValid b → start + n ≤ b.bit_cnt → in_range b start n ≡ true
unfolding in_range
in_range_lem start n v h = ground arith

-- `bitmap_set_multiple` sets the bits of the range, all of them and no other, and does not panic
-- on a range inside the bitmap.
pub bitmap_set_multiple-WasSetRange :
    (start n : ℕ) {b : Bitmap} (value : Bool)
    → IsValid b
    → start + n ≤ b.bit_cnt
    → WasSetRange b start n value (bitmap_set_multiple b start n value)
unfolding bitmap_set_multiple
bitmap_set_multiple-WasSetRange start n {b} value v h =
    let w : WasSetRange b start n value (set_loop b start n value) =
      set_loop-WasSetRange n start value v h in
    record {
      after = w.after;
      returned = rw (in_range_lem start n v h) w.returned;
      valid = w.valid;
      same_size = w.same_size;
      same_store = w.same_store;
      bits = w.bits;
    }

-- The number of bits of a range with a given value.
pub count_bits : (ℕ → Bool) → ℕ → ℕ → Bool → ℕ
count_bits f start zero value = 0
count_bits f start (suc n) value =
    (if bool_eq (f start) value then 1 else 0) + count_bits f (start + 1) n value

count_loop-eq :
    (n start : ℕ) {b : Bitmap} (value : Bool) (acc : ℕ)
    → IsValid b
    → start + n ≤ b.bit_cnt
    → count_loop b start n value acc ≡ some (acc + count_bits (bit b) start n value)
unfolding count_loop count_bits
count_loop-eq zero start value acc v h = ground arith
count_loop-eq (suc n) start {b} value acc v h =
    rw (bitmap_test_lem b start (omega arith), next_start start n b.bit_cnt h v.small)
      (count_loop-eq n (start + 1) value (if bool_eq (bit b start) value then acc + 1 else acc) v
          (omega arith)
        ∙ ap some (ground arith))

-- `bitmap_count` counts the bits of the range that have the value.
pub bitmap_count-eq :
    (start n : ℕ) {b : Bitmap} (value : Bool)
    → IsValid b
    → start + n ≤ b.bit_cnt
    → bitmap_count b start n value ≡ some (count_bits (bit b) start n value)
unfolding bitmap_count
bitmap_count-eq start n value v h =
    rw (in_range_lem start n v h) (count_loop-eq n start value 0 v h ∙ ap some (omega arith))

-- Every bit of the range has the value.
abbrev pub Uniform : (ℕ → Bool) → ℕ → ℕ → Bool → Type 0
Uniform f start n value = (i : ℕ) → start ≤ i → i < start + n → f i ≡ value

-- What a search for `value` in a range found.
pub data Contains (b : Bitmap) (start n : ℕ) (value : Bool) (r : Option Bool) : Type 0 where
  found :
      (i : ℕ)
      → start ≤ i
      → i < start + n
      → bit b i ≡ value
      → r ≡ some true
      → Contains b start n value r
  absent : Uniform (bit b) start n (not value) → r ≡ some false → Contains b start n value r

bool_eq→eq : (a b : Bool) → bool_eq a b ≡ true → a ≡ b
bool_eq→eq true true h = refl
bool_eq→eq true false h = cc
bool_eq→eq false true h = cc
bool_eq→eq false false h = refl

bool_eq→ne : (a b : Bool) → bool_eq a b ≡ false → a ≡ not b
bool_eq→ne true true h = cc
bool_eq→ne true false h = refl
bool_eq→ne false true h = refl
bool_eq→ne false false h = cc

Uniform-suc :
    (f : ℕ → Bool) (start n : ℕ) (value : Bool)
    → f start ≡ value
    → Uniform f (start + 1) n value
    → Uniform f start (suc n) value
Uniform-suc f start n value h u i p q = elim (Bool-cases (start == i)) [
  | inl e ↦ rw (← kernel_dev.Prelude.==→eq start i e) h
  | inr e ↦ u i (ground arith) (omega arith)
]

Contains-step :
    (start n : ℕ) (b : Bitmap) (value : Bool) (rest : Option Bool)
    → Contains b (start + 1) n value rest
    → Contains b start (suc n) value (if bool_eq (bit b start) value then some true else rest)
Contains-step start n b value rest c = elim (Bool-cases (bool_eq (bit b start) value)) [
  | inl e ↦ found start (omega arith) (omega arith) (bool_eq→eq _ value e) (rw e)
  | inr e ↦ rw e (widen (bool_eq→ne (bit b start) value e) c)
]
  where
    widen :
        bit b start ≡ not value
        → Contains b (start + 1) n value rest
        → Contains b start (suc n) value rest
    widen ne (found i p q s r) = found i (omega arith) (omega arith) s r
    widen ne (absent u r) = absent (Uniform-suc (bit b) start n (not value) ne u) r

contains_loop-Contains :
    (n start : ℕ) {b : Bitmap} (value : Bool)
    → IsValid b
    → start + n ≤ b.bit_cnt
    → Contains b start n value (contains_loop b start n value)
unfolding contains_loop
contains_loop-Contains zero start value v h = absent (λ i p q. absurd (omega arith)) refl
contains_loop-Contains (suc n) start {b} value v h =
    rw (bitmap_test_lem b start (omega arith), next_start start n b.bit_cnt h v.small)
      (Contains-step start n b value _ (contains_loop-Contains n (start + 1) value v (omega arith)))

-- `bitmap_contains` answers whether some bit of the range has the value.
pub bitmap_contains-Contains :
    (start n : ℕ) {b : Bitmap} (value : Bool)
    → IsValid b
    → start + n ≤ b.bit_cnt
    → Contains b start n value (bitmap_contains b start n value)
unfolding bitmap_contains
bitmap_contains-Contains start n value v h =
    rw (in_range_lem start n v h) (contains_loop-Contains n start value v h)
