-- ===== src/Memory/Bytes/Search.antt =====
-- memory_find and memory_is_zero against what they look for.
use fg_os.Base.{
  ℕ, zero, suc, ◌+◌, ◌%◌, ◌≤◌, ◌<◌, ◌≡◌, refl, ◌≢◌, arith, true, false, ◌||◌, ◌==◌, ◌↔◌, ◌⊎◌, inl,
  inr, Bool-cases,
}
use fg_os.Memory.Bytes.{Mem, find_loop, memory_find, is_zero_loop, memory_is_zero}

-- The outcome r of looking for a byte from offset i on, with n bytes to go.
abbrev pub Finds : Mem → (n i p val r : ℕ) → Type 0
Finds m n i p val r =
    ((r ≡ 0) × ((k : ℕ) → i ≤ k → k < i + n → m (p + k) ≢ val))
    ⊎ ((j : ℕ) × (i ≤ j)
        × (j < i + n)
        × (r ≡ p + j)
        × (m (p + j) ≡ val)
        × ((k : ℕ) → i ≤ k → k < j → m (p + k) ≢ val))

find_loop-Finds : (n i p val : ℕ) (m : Mem) → Finds m n i p val (find_loop n i p val m)
unfolding find_loop
find_loop-Finds zero i p val m = inl (refl, λ k lo hi. absurd (omega arith))
find_loop-Finds (suc n) i p val m = elim (Bool-cases (m (p + i) == val)) [
  | inl hit ↦
      rw hit
        (inr (i, omega arith, omega arith, refl, ground arith, λ k lo hi. absurd (omega arith)))
  | inr miss ↦ rw miss (elim (find_loop-Finds n (suc i) p val m) [
    | inl (e, none_left) ↦ inl (e, λ k lo hi. ground (arith, none_left k))
    | inr (j, lo, hi, e, hit, before) ↦
        inr (j, omega arith, omega arith, e, hit, λ k lo' hi'. ground (arith, before k))
  ])
]

-- memory_find of a pointer that is not NULL returns the address of the first byte of the region
-- that equals the low byte of `value`, and NULL only if no byte of the region does.
pub memory_find-Finds :
    (ptr value size : ℕ) (m : Mem)
    → ptr ≢ 0
    → Finds m size 0 ptr (value % 256) (memory_find ptr value size m)
unfolding memory_find
memory_find-Finds ptr value zero m h = inl (ground arith, λ k lo hi. absurd (omega arith))
memory_find-Finds ptr value (suc n) m h =
    let live : (ptr == 0 || suc n == 0) ≡ false = ground arith in
    rw live (find_loop-Finds (suc n) 0 ptr (value % 256) m)

is_zero_loop-true :
    (n i p : ℕ) (m : Mem) (k : ℕ) → is_zero_loop n i p m ≡ true → i ≤ k → k < i + n → m (p + k) ≡ 0
unfolding is_zero_loop
is_zero_loop-true zero i p m k e lo hi = absurd (omega arith)
is_zero_loop-true (suc n) i p m k e lo hi = ground (arith, is_zero_loop-true n (suc i) p m k)

is_zero_loop-zeros :
    (n i p : ℕ) (m : Mem)
    → ((k : ℕ) → i ≤ k → k < i + n → m (p + k) ≡ 0)
    → is_zero_loop n i p m ≡ true
unfolding is_zero_loop
is_zero_loop-zeros zero i p m h = refl
is_zero_loop-zeros (suc n) i p m h = ground (
  arith,
  h i (omega arith) (omega arith),
  is_zero_loop-zeros n (suc i) p m (λ k lo hi. h k (omega arith) (omega arith)),
)

-- memory_is_zero of a pointer that is not NULL holds exactly when every byte of the region is 0.
pub memory_is_zero_iff :
    (ptr size : ℕ) (m : Mem)
    → ptr ≢ 0
    → (memory_is_zero ptr size m ≡ true) ↔ ((k : ℕ) → k < size → m (ptr + k) ≡ 0)
unfolding memory_is_zero
memory_is_zero_iff ptr size m h = (
  (λ e k hi. ground (arith, is_zero_loop-true size 0 ptr m k)),
  λ zeros. ground (arith, is_zero_loop-zeros size 0 ptr m (λ k lo hi. zeros k (omega arith))),
)
