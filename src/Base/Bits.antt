-- ===== src/Base/Bits.antt =====
-- Laws of `bit_and` and `bit_or` at variables: one binary digit at a time, and masks of any width.
use Prim.Native.Nat.{
  ℕ, zero, suc, ◌+◌, ◌-◌, ◌*◌, ◌/◌, ◌%◌, ◌^◌, ◌≤◌, ◌<◌, min, max, bit_and, bit_or, digits, bitwise,
  bit_and-bitwise, bit_or-bitwise,
}
use mathlib.Core.Path.{◌≡◌, refl, ap, ◌∙◌}
use mathlib.Core.Bool.{Bool, true, ◌&&◌}
use native.Mathlib.Omega.{arith}
use native.Mathlib.Nat.{
  pow-succ', one-le-pow, div-div-eq-div-mul, mod-eq-sub-div-mul, div-mul-le_self, sub-zero, suc-mul,
  div-lt_iff_lt-mul, mod-eq_of_lt,
}

-- Whether a test holds of all numbers below a bound; a table is proved by evaluating it.
unfoldable pub all_below : ℕ → (ℕ → Bool) → Bool
all_below zero test = true
all_below (suc bound) test = all_below bound test && test bound

-- With as many rounds as the first operand says, the recursion on digits has come to its end.
pub settled :
    (last : ℕ → ℕ) (op : ℕ → ℕ → ℕ) (bound k x y : ℕ)
    → x ≤ k
    → k ≤ bound
    → digits last op k x y ≡ bitwise last op x y
settled last op bound zero zero y short fits = refl
settled last op bound (suc k) zero y short fits = refl
settled last op bound zero (suc x) y short fits = absurd (omega arith)
settled last op zero (suc k) (suc x) y short fits = absurd (omega arith)
settled last op (suc bound) (suc k) (suc x) y short fits =
    let half = settled last op bound in
    rw (
      half k (suc x / 2) (y / 2) (omega arith) (omega arith),
      half x (suc x / 2) (y / 2) (omega arith) (omega arith),
    )

and_none : (k x : ℕ) → digits (λ y. 0) min k x 0 ≡ 0
and_none zero x = refl
and_none (suc k) zero = refl
and_none (suc k) (suc x) = omega (arith, and_none k (suc x / 2))

or_none : (k x : ℕ) → x ≤ k → digits (λ y. y) max k x 0 ≡ x
or_none zero zero short = refl
or_none zero (suc x) short = absurd (omega arith)
or_none (suc k) zero short = refl
or_none (suc k) (suc x) short = omega (arith, or_none k (suc x / 2) (omega arith))

pub bit_and-zero : (x : ℕ) → bit_and x 0 ≡ 0
bit_and-zero x = bit_and-bitwise x 0 ∙ and_none x x

pub bit_or-zero : (x : ℕ) → bit_or x 0 ≡ x
bit_or-zero x = bit_or-bitwise x 0 ∙ or_none x x (omega arith)

pub bit_and_step : (x y : ℕ) → bit_and x y ≡ bit_and (x / 2) (y / 2) * 2 + min (x % 2) (y % 2)
bit_and_step zero y = simp bit_and-bitwise (omega arith)
bit_and_step (suc x) y =
    let rest = settled (λ y. 0) min x x (suc x / 2) (y / 2) (omega arith) (omega arith) in
    simp bit_and-bitwise (omega (arith, rest))

pub all_below_sound :
    (bound : ℕ) (test : ℕ → Bool) (i : ℕ) → all_below bound test ≡ true → i < bound → test i ≡ true
unfolding all_below
all_below_sound zero test i whole below = absurd (omega arith)
all_below_sound (suc bound) test i whole below = ground (arith, all_below_sound bound test i)

pub bit_or_step : (x y : ℕ) → bit_or x y ≡ bit_or (x / 2) (y / 2) * 2 + max (x % 2) (y % 2)
bit_or_step zero y = simp bit_or-bitwise (omega arith)
bit_or_step (suc x) y =
    let rest = settled (λ y. y) max x x (suc x / 2) (y / 2) (omega arith) (omega arith) in
    simp bit_or-bitwise (omega (arith, rest))

half_mod : (a p : ℕ) → 0 < p → a % (2 * p) ≡ a / 2 % p * 2 + a % 2
half_mod a p h = omega (
  arith,
  ap (λ (t : ℕ). t * p) (div-div-eq-div-mul a 2 p),
  mod-eq-sub-div-mul a (2 * p),
  mod-eq-sub-div-mul (a / 2) p,
  div-mul-le_self (a / 2) p,
  div-mul-le_self a (2 * p),
)

low_mask_step :
    (a p : ℕ) → 0 < p → bit_and (a / 2) (p - 1) ≡ a / 2 % p → bit_and a (2 * p - 1) ≡ a % (2 * p)
low_mask_step a p h e = ground (arith, bit_and_step a (2 * p - 1), half_mod a p h)

-- x & (2^k - 1) is x mod 2^k.
pub bit_and-low_mask : (k a : ℕ) → bit_and a (2 ^ k - 1) ≡ a % 2 ^ k
bit_and-low_mask zero a = rw bit_and-zero (omega arith)
bit_and-low_mask (suc k) a =
    rw pow-succ'
      (low_mask_step a (2 ^ k) (one-le-pow k 2 (omega arith)) (bit_and-low_mask k (a / 2)))

high_mask_step :
    (a m p q : ℕ)
    → bit_and (a / 2) (m * p) ≡ a / 2 / p % q * p
    → bit_and a (m * (2 * p)) ≡ a / (2 * p) % q * (2 * p)
high_mask_step a m p q e =
    rw (← div-div-eq-div-mul a 2 p) (ground (arith, bit_and_step a (m * (2 * p))))

-- A mask of j ones above k zeros keeps the digits from k to k + j.
pub bit_and-high_mask : (k j a : ℕ) → bit_and a ((2 ^ j - 1) * 2 ^ k) ≡ a / 2 ^ k % 2 ^ j * 2 ^ k
bit_and-high_mask zero j a = ground (arith, bit_and-low_mask j a)
bit_and-high_mask (suc k) j a =
    rw pow-succ' (high_mask_step a (2 ^ j - 1) (2 ^ k) (2 ^ j) (bit_and-high_mask k j (a / 2)))

disjoint_step :
    (p q r : ℕ) → bit_or (q * p) (r / 2) ≡ q * p + r / 2 → bit_or (q * (2 * p)) r ≡ q * (2 * p) + r
disjoint_step p q r e = ground (arith, bit_or_step (q * (2 * p)) r)

-- (q << k) | r is a sum where r fits the k low digits.
pub bit_or_disjoint : (k q r : ℕ) → r < 2 ^ k → bit_or (q * 2 ^ k) r ≡ q * 2 ^ k + r
bit_or_disjoint zero q r h = ground (arith, bit_or-zero q)
bit_or_disjoint (suc k) q r h =
    rw pow-succ'
      (disjoint_step (2 ^ k) q r (bit_or_disjoint k q (r / 2) (omega (arith, pow-succ' 2 k))))

pow_split : (k n : ℕ) → k ≤ n → 2 ^ (n - k) * 2 ^ k ≡ 2 ^ n
pow_split zero n h = rw sub-zero (omega arith)
pow_split (suc k) n h =
    let e : n - k ≡ suc (n - suc k) = omega arith in
    let ih = rw (e, pow-succ') at (pow_split k n (omega arith)) in
    rw (pow-succ' 2 k) (omega (arith, ih))

pred-mul : (a p : ℕ) → 0 < a → (a - 1) * p ≡ a * p - p
pred-mul zero p h = absurd (omega arith)
pred-mul (suc a) p h = let e : suc a - 1 ≡ a = omega arith in rw (e, suc-mul) (omega arith)

-- x & ~(2^k - 1) on w bits rounds x down to a multiple of 2^k.
pub bit_and-not_mask :
    (w k a : ℕ) → k ≤ w → a < 2 ^ w → bit_and a (2 ^ w - 1 - (2 ^ k - 1)) ≡ a / 2 ^ k * 2 ^ k
bit_and-not_mask w k a h lt =
    let split = pow_split k w h in
    let mask : 2 ^ w - 1 - (2 ^ k - 1) ≡ (2 ^ (w - k) - 1) * 2 ^ k = omega (
      arith,
      split,
      one-le-pow k 2 (omega arith),
      pred-mul (2 ^ (w - k)) (2 ^ k) (one-le-pow (w - k) 2 (omega arith)),
    ) in
    let small : a / 2 ^ k < 2 ^ (w - k) =
      (div-lt_iff_lt-mul (one-le-pow k 2 (omega arith))).1 (omega (arith, split)) in
    rw (mask, bit_and-high_mask k (w - k) a, mod-eq_of_lt small)

zero-bit_or : (x : ℕ) → bit_or 0 x ≡ x
zero-bit_or x = bit_or-bitwise 0 x

low_disjoint_step :
    (p q r : ℕ) → bit_or (r / 2) (q * p) ≡ q * p + r / 2 → bit_or r (q * (2 * p)) ≡ q * (2 * p) + r
low_disjoint_step p q r e = ground (arith, bit_or_step r (q * (2 * p)))

-- r | (q << k) is a sum where r fits the k low digits.
pub low-bit_or_disjoint : (k q r : ℕ) → r < 2 ^ k → bit_or r (q * 2 ^ k) ≡ q * 2 ^ k + r
low-bit_or_disjoint zero q zero h = zero-bit_or (q * 1) ∙ omega arith
low-bit_or_disjoint zero q (suc r) h = absurd (omega arith)
low-bit_or_disjoint (suc k) q r h =
    rw pow-succ' (
      low_disjoint_step (2 ^ k) q r
        (low-bit_or_disjoint k q (r / 2) (omega (arith, pow-succ' 2 k))))
