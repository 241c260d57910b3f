-- ===== src/Memory/Bytes/Compare.antt =====
-- memory_compare as an ordering of regions.
use fg_os.Base.{ℕ, zero, suc, ◌+◌, ◌≤◌, ◌<◌, ◌≡◌, refl, ◌≢◌, arith, ◌↔◌}
use fg_os.Base.Int.{pos, neg}
use fg_os.Memory.Bytes.{Mem, compare_loop, memory_compare}

-- The regions hold the same bytes at the offsets from i up to i + n.
abbrev pub SameBytes : Mem → (n i p q : ℕ) → Type 0
SameBytes m n i p q = (k : ℕ) → i ≤ k → k < i + n → m (p + k) ≡ m (q + k)

compare_loop-zero :
    (n i p q : ℕ) (m : Mem) (k : ℕ)
    → compare_loop n i p q m ≡ pos 0
    → i ≤ k
    → k < i + n
    → m (p + k) ≡ m (q + k)
unfolding compare_loop
compare_loop-zero zero i p q m k e lo hi = absurd (omega arith)
compare_loop-zero (suc n) i p q m k e lo hi = ground (arith, compare_loop-zero n (suc i) p q m k)

compare_loop-SameBytes :
    (n i p q : ℕ) (m : Mem) → SameBytes m n i p q → compare_loop n i p q m ≡ pos 0
unfolding compare_loop
compare_loop-SameBytes zero i p q m h = refl
compare_loop-SameBytes (suc n) i p q m h = ground (
  arith,
  h i (omega arith) (omega arith),
  compare_loop-SameBytes n (suc i) p q m (λ k lo hi. h k (omega arith) (omega arith)),
)

-- memory_compare of two pointers that are not NULL returns 0 exactly when the regions are equal.
pub memory_compare-zero_iff :
    (p q n : ℕ) (m : Mem) → p ≢ 0 → q ≢ 0 → (memory_compare p q n m ≡ pos 0) ↔ SameBytes m n 0 p q
unfolding memory_compare
memory_compare-zero_iff p q n m hp hq = (
  (λ e k. compare_loop-zero n 0 p q m k (ground arith)),
  λ h. ground (arith, compare_loop-SameBytes n 0 p q m h),
)

compare_loop-swap : (n i p q : ℕ) (m : Mem) → compare_loop n i q p m ≡ neg (compare_loop n i p q m)
unfolding compare_loop
compare_loop-swap zero i p q m = refl
compare_loop-swap (suc n) i p q m = ground (arith, compare_loop-swap n (suc i) p q m)

-- Swapping the two regions negates the result of memory_compare, NULL pointers included.
pub memory_compare-swap :
    (p q n : ℕ) (m : Mem) → memory_compare q p n m ≡ neg (memory_compare p q n m)
unfolding memory_compare
memory_compare-swap p q n m = ground (arith, compare_loop-swap n 0 p q m)
