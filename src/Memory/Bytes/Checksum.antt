-- ===== src/Memory/Bytes/Checksum.antt =====
-- memory_checksum: its range, and which changes it is certain to detect.
use fg_os.Base.{
  ℕ, zero, suc, ◌+◌, ◌*◌, ◌/◌, ◌%◌, ◌^◌, ◌≤◌, ◌<◌, ◌≡◌, ◌≢◌, arith, bit_or, ◌==◌, inl, inr,
  Bool-cases, ==→eq,
}
use fg_os.Base.Bits.{bit_or_disjoint}
use fg_os.Memory.Bytes.{Mem, checksum_step, checksum_loop, memory_checksum}

-- Rotating left by one brings the top bit back at the bottom.
rotate_lem :
    (s : ℕ) → s < 2 ^ 32 → bit_or (s * 2 % 2 ^ 32) (s / 2 ^ 31) ≡ s * 2 % 2 ^ 32 + s / 2 ^ 31
rotate_lem s h =
    let e : s * 2 % 2 ^ 32 ≡ s % 2 ^ 31 * 2 ^ 1 = omega arith in
    rw e (bit_or_disjoint 1 (s % 2 ^ 31) (s / 2 ^ 31) (omega arith))

checksum_step_lem : (c b : ℕ) → checksum_step c b ≡ (c + b) * 2 % 2 ^ 32 + (c + b) % 2 ^ 32 / 2 ^ 31
unfolding checksum_step
checksum_step_lem c b = omega (arith, rotate_lem ((c + b) % 2 ^ 32) (omega arith))

checksum_step-lt : (c b : ℕ) → checksum_step c b < 2 ^ 32
checksum_step-lt c b = omega (arith, checksum_step_lem c b)

checksum_step-injective :
    (c c' b b' : ℕ)
    → checksum_step c b ≡ checksum_step c' b'
    → (c + b) % 2 ^ 32 ≡ (c' + b') % 2 ^ 32
checksum_step-injective c c' b b' e = omega (arith, checksum_step_lem c b, checksum_step_lem c' b')

checksum_loop-lt : (n i p c : ℕ) (m : Mem) → c < 2 ^ 32 → checksum_loop n i p c m < 2 ^ 32
unfolding checksum_loop
checksum_loop-lt zero i p c m h = h
checksum_loop-lt (suc n) i p c m h =
    checksum_loop-lt n (suc i) p (checksum_step c (m (p + i))) m (checksum_step-lt c (m (p + i)))

-- Two memories that hold the same bytes in the rounds to come.
abbrev pub Agree : Mem → Mem → (n i p : ℕ) → Type 0
Agree m m' n i p = (k : ℕ) → i ≤ k → k < i + n → m (p + k) ≡ m' (p + k)

-- Different checksums so far stay different over equal bytes.
checksum_loop-ne :
    (n i p c c' : ℕ) (m m' : Mem)
    → c < 2 ^ 32
    → c' < 2 ^ 32
    → Agree m m' n i p
    → c ≢ c'
    → checksum_loop n i p c m ≢ checksum_loop n i p c' m'
unfolding checksum_loop
checksum_loop-ne zero i p c c' m m' h h' same ne = ne
checksum_loop-ne (suc n) i p c c' m m' h h' same ne =
    checksum_loop-ne n (suc i) p (checksum_step c (m (p + i))) (checksum_step c' (m' (p + i))) m m'
      (checksum_step-lt c (m (p + i))) (checksum_step-lt c' (m' (p + i)))
      (λ k lo hi. same k (omega arith) (omega arith))
      (λ e. ne (
        omega (
          arith,
          checksum_step-injective c c' (m (p + i)) (m' (p + i)) e,
          same i (omega arith) (omega arith),
        )))

checksum_loop-detects :
    (n i p c j : ℕ) (m m' : Mem)
    → c < 2 ^ 32
    → i ≤ j
    → j < i + n
    → m (p + j) < 256
    → m' (p + j) < 256
    → m (p + j) ≢ m' (p + j)
    → ((k : ℕ) → i ≤ k → k < i + n → k ≢ j → m (p + k) ≡ m' (p + k))
    → checksum_loop n i p c m ≢ checksum_loop n i p c m'
unfolding checksum_loop
checksum_loop-detects zero i p c j m m' hc lo hi hb hb' ne same = absurd (omega arith)
checksum_loop-detects (suc n) i p c j m m' hc lo hi hb hb' ne same = elim (Bool-cases (i == j)) [
  | inl here ↦
      let at : i ≡ j = ==→eq i j here in
      checksum_loop-ne n (suc i) p (checksum_step c (m (p + i))) (checksum_step c (m' (p + i))) m m'
        (checksum_step-lt c (m (p + i))) (checksum_step-lt c (m' (p + i)))
        (λ k lo' hi'. same k (omega arith) (omega arith) (omega arith))
        (λ e. ground (arith, ne, at, checksum_step-injective c c (m (p + i)) (m' (p + i)) e))
  | inr later ↦ rw (same i (omega arith) (omega arith) (ground arith)) (
      checksum_loop-detects n (suc i) p (checksum_step c (m' (p + i))) j m m'
        (checksum_step-lt c (m' (p + i))) (ground arith) (omega arith) hb hb' ne
        (λ k lo' hi'. same k (omega arith) (omega arith)))
]

-- Two memories that differ in exactly one byte of the region have different checksums.
pub memory_checksum_detects :
    (ptr size j : ℕ) (m m' : Mem)
    → ptr ≢ 0
    → j < size
    → m (ptr + j) < 256
    → m' (ptr + j) < 256
    → m (ptr + j) ≢ m' (ptr + j)
    → ((k : ℕ) → k < size → k ≢ j → m (ptr + k) ≡ m' (ptr + k))
    → memory_checksum ptr size m ≢ memory_checksum ptr size m'
unfolding memory_checksum
memory_checksum_detects ptr size j m m' h lt hb hb' ne same = ground (
  arith,
  checksum_loop-detects size 0 ptr 0 j m m' (omega arith) (omega arith) (omega arith) hb hb' ne
      (λ k lo hi. same k (omega arith)),
)
