-- ===== src/Palloc/Marks.antt =====
-- Which pages `palloc_get_multiple` and `palloc_free_multiple` of src/threads/palloc.c mark.
use kernel_dev.Prelude.{
  ℕ, ◌≡◌, refl, ◌∙◌, ap, Bool, true, false, bool_eq, ◌&&◌, if◌then◌else◌, arith, inl, inr, ◌⊎◌,
}
use kernel_dev.Bitmap.{Bitmap}
use kernel_dev.Bitmap.View.{bit, IsValid}
use kernel_dev.Bitmap.Ranges.{within}
use kernel_dev.Palloc.{Memory, pool_of, with_pool}
use kernel_dev.Palloc.Pools.{IsPool, IsMemory}

-- Page `j` of the kernel pool or of the user pool is in use.
abbrev pub is_used : Memory → Bool → ℕ → Bool
is_used m user j = bit (pool_of m user).used_map j

abbrev pub page_cnt_of : Memory → Bool → ℕ
page_cnt_of m user = (pool_of m user).used_map.bit_cnt

-- Pages `i` to `i + n` of a pool get another mark, and nothing else of the pools changes.
pub record Marked (m : Memory) (user : Bool) (i n : ℕ) (mark : Bool) (after : Memory) : Type 0 where
  pub is_memory : IsMemory after
  pub same_base : (u : Bool) → (pool_of after u).base ≡ (pool_of m u).base
  pub same_cnt : (u : Bool) → page_cnt_of after u ≡ page_cnt_of m u
  pub marks :
      (u : Bool) (j : ℕ)
      → is_used after u j ≡ (if bool_eq u user && within i n j then mark else is_used m u j)

pub either-IsPool : {m : Memory} → IsMemory m → (user : Bool) → IsPool (pool_of m user)
either-IsPool v true = v.user
either-IsPool v false = v.kernel

-- The memory after the used map of one pool and the contents changed.
abbrev pub remarked : Memory → Bool → Bitmap → (ℕ → ℕ) → Memory
remarked m user b bytes = record (with_pool m user (record (pool_of m user) { used_map = b })) {
  bytes = bytes;
}

bool_eq-cases : (u user : Bool) → (u ≡ user) ⊎ (bool_eq u user ≡ false)
bool_eq-cases true true = inl refl
bool_eq-cases true false = inr refl
bool_eq-cases false true = inr refl
bool_eq-cases false false = inl refl

pub bool_eq_refl : (user : Bool) → bool_eq user user ≡ true
bool_eq_refl true = refl
bool_eq_refl false = refl

module _ (m : Memory) (b : Bitmap) (bytes : ℕ → ℕ) where
  remarked-IsMemory :
      (user : Bool)
      → IsMemory m
      → IsValid b
      → b.bit_cnt ≡ page_cnt_of m user
      → IsMemory (remarked m user b bytes)
  remarked-IsMemory true v valid same = record {
    kernel = v.kernel;
    apart = v.apart;
    user = record {
      valid = valid;
      aligned = (v.user).aligned;
      positive = (v.user).positive;
      inside = omega (arith, (v.user).inside, same);
    };
  }
  remarked-IsMemory false v valid same = record {
    user = v.user;
    kernel = record {
      valid = valid;
      aligned = (v.kernel).aligned;
      positive = (v.kernel).positive;
      inside = omega (arith, (v.kernel).inside, same);
    };
    apart = omega (arith, v.apart, same);
  }

  remarked_base : (user u : Bool) → (pool_of (remarked m user b bytes) u).base ≡ (pool_of m u).base
  remarked_base true true = refl
  remarked_base true false = refl
  remarked_base false true = refl
  remarked_base false false = refl

  remarked_map :
      (user u : Bool)
      → (pool_of (remarked m user b bytes) u).used_map
        ≡ (if bool_eq u user then b else (pool_of m u).used_map)
  remarked_map true true = refl
  remarked_map true false = refl
  remarked_map false true = refl
  remarked_map false false = refl

  pub remarked-Marked :
      (user : Bool) (i n : ℕ) (mark : Bool)
      → IsMemory m
      → IsValid b
      → b.bit_cnt ≡ page_cnt_of m user
      → ((j : ℕ) → bit b j ≡ (if within i n j then mark else is_used m user j))
      → Marked m user i n mark (remarked m user b bytes)
  remarked-Marked user i n mark v valid same bits = record {
    is_memory = remarked-IsMemory user v valid same;
    same_base = remarked_base user;
    same_cnt = λ u.
        ap (λ (x : Bitmap). x.bit_cnt) (remarked_map user u) ∙ (elim (bool_eq-cases u user) [
          | inl e ↦ rw (e, bool_eq_refl user) same
          | inr e ↦ rw e refl
        ]);
    marks = λ u j.
        ap (λ (x : Bitmap). bit x j) (remarked_map user u) ∙ (elim (bool_eq-cases u user) [
          | inl e ↦ rw (e, bool_eq_refl user) (bits j)
          | inr e ↦ rw e refl
        ]);
  }
