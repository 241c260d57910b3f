-- ===== src/Memory/Align.antt =====
-- memory_align_up, memory_align_down and memory_is_aligned of kernel/mm/memory_utils.c.
use fg_os.Base.{
  ℕ, ◌+◌, ◌-◌, ◌*◌, ◌/◌, ◌%◌, ◌^◌, ◌≤◌, ◌<◌, ◌≡◌, ◌↔◌, arith, bit_and, Bool, true, ◌==◌,
  if◌then◌else◌,
}
use fg_os.Base.Bits.{bit_and-low_mask, bit_and-not_mask}
use native.Mathlib.Nat.{
  one-le-pow, mul-mod_left, div-mul-le_self, lt-div-mul-add, div-eq_of_lt, pow-le-pow_right,
}

-- ~x on uint64_t
abbrev pub not64 : ℕ → ℕ
not64 x = 2 ^ 64 - 1 - x

unfoldable pub memory_align_up : (addr alignment : ℕ) → ℕ
memory_align_up addr alignment =
    if alignment == 0
    then addr
    else bit_and ((addr + alignment - 1) % 2 ^ 64) (not64 (alignment - 1))

unfoldable pub memory_align_down : (addr alignment : ℕ) → ℕ
memory_align_down addr alignment =
    if alignment == 0 then addr else bit_and addr (not64 (alignment - 1))

unfoldable pub memory_is_aligned : (addr alignment : ℕ) → Bool
memory_is_aligned addr alignment =
    if alignment == 0 then true else bit_and addr (alignment - 1) == 0

pub memory_align_down_lem :
    (addr k : ℕ) → k ≤ 64 → addr < 2 ^ 64 → memory_align_down addr (2 ^ k) ≡ addr / 2 ^ k * 2 ^ k
unfolding memory_align_down
memory_align_down_lem addr k h lt = ground (arith, one-le-pow k 2, bit_and-not_mask 64 k addr)

pub memory_align_up_lem :
    (addr k : ℕ)
    → k ≤ 64
    → memory_align_up addr (2 ^ k) ≡ (addr + 2 ^ k - 1) % 2 ^ 64 / 2 ^ k * 2 ^ k
unfolding memory_align_up
memory_align_up_lem addr k h =
    ground (arith, one-le-pow k 2, bit_and-not_mask 64 k ((addr + 2 ^ k - 1) % 2 ^ 64))

pub round_down_bounds :
    (a p : ℕ) → 0 < p → (a / p * p % p ≡ 0) × (a / p * p ≤ a) × (a < a / p * p + p)
round_down_bounds a p h = (mul-mod_left (a / p) p, div-mul-le_self a p, lt-div-mul-add h)

-- For a power of two, memory_align_down returns the greatest multiple of it that is at most addr.
pub memory_align_down_bounds :
    (addr k : ℕ)
    → k ≤ 64
    → addr < 2 ^ 64
    → let r = memory_align_down addr (2 ^ k) in (r % 2 ^ k ≡ 0) × (r ≤ addr) × (addr < r + 2 ^ k)
memory_align_down_bounds addr k h lt =
    rw (memory_align_down_lem addr k h lt)
      (round_down_bounds addr (2 ^ k) (one-le-pow k 2 (omega arith)))

-- For a power of two, and an addr at least that far from the end of the 64-bit range,
-- memory_align_up returns the least multiple of it that is at least addr.
pub memory_align_up_bounds :
    (addr k : ℕ)
    → k ≤ 64
    → addr + 2 ^ k ≤ 2 ^ 64
    → let r = memory_align_up addr (2 ^ k) in (r % 2 ^ k ≡ 0) × (addr ≤ r) × (r < addr + 2 ^ k)
memory_align_up_bounds addr k h lt =
    let pos = one-le-pow k 2 (omega arith) in
    let fits : (addr + 2 ^ k - 1) % 2 ^ 64 ≡ addr + 2 ^ k - 1 = omega arith in
    let bounds = round_down_bounds (addr + 2 ^ k - 1) (2 ^ k) pos in
    rw (memory_align_up_lem addr k h, fits)
      (bounds.0, omega (arith, bounds.2), omega (arith, bounds.1))

-- Within that distance of the end of the 64-bit range memory_align_up wraps to address 0.
pub memory_align_up_wraps :
    (addr k : ℕ) → k ≤ 64 → addr < 2 ^ 64 → 2 ^ 64 < addr + 2 ^ k → memory_align_up addr (2 ^ k) ≡ 0
memory_align_up_wraps addr k h lt over =
    let most : 2 ^ k ≤ 2 ^ 64 = pow-le-pow_right (omega arith) h in
    let wrapped : (addr + 2 ^ k - 1) % 2 ^ 64 < 2 ^ k = omega (arith, most) in
    rw (memory_align_up_lem addr k h, div-eq_of_lt wrapped) (omega arith)

-- For a power of two, memory_is_aligned decides divisibility.
pub memory_is_aligned_iff :
    (addr k : ℕ) → (memory_is_aligned addr (2 ^ k) ≡ true) ↔ (addr % 2 ^ k ≡ 0)
unfolding memory_is_aligned
memory_is_aligned_iff addr k = ground (arith, one-le-pow k 2 (omega arith), bit_and-low_mask k addr)
