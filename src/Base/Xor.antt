-- ===== src/Base/Xor.antt =====
-- Laws of `bit_xor` at variables, one binary digit at a time.
use Prim.Native.Nat.{
  ℕ, zero, suc, ◌+◌, ◌*◌, ◌/◌, ◌%◌, ◌^◌, ◌≤◌, ◌<◌, differ, digits, bit_xor, bit_xor-bitwise,
}
use mathlib.Core.Path.{◌≡◌, refl, sym, ap, ◌∙◌}
use native.Mathlib.Omega.{arith}
use native.Mathlib.Nat.{pow-succ'}
use fg_os.Base.Bits.{settled}

xor_step : (x y : ℕ) → bit_xor x y ≡ bit_xor (x / 2) (y / 2) * 2 + differ (x % 2) (y % 2)
xor_step zero y = simp bit_xor-bitwise (omega arith)
xor_step (suc x) y =
    let rest = settled (λ y. y) differ x x (suc x / 2) (y / 2) (omega arith) (omega arith) in
    simp bit_xor-bitwise (omega (arith, rest))

pub zero-bit_xor : (x : ℕ) → bit_xor 0 x ≡ x
zero-bit_xor x = bit_xor-bitwise 0 x

differ-lt : (u v : ℕ) → u < 2 → v < 2 → differ u v < 2
differ-lt zero v hu hv = hv
differ-lt (suc u) zero hu hv = hu
differ-lt (suc u) (suc v) hu hv = differ-lt u v (omega arith) (omega arith)

differ-digits : (u v : ℕ) → u < 2 → v < 2 → differ u v ≡ (u + v) % 2
differ-digits zero v hu hv = omega arith
differ-digits (suc zero) zero hu hv = omega arith
differ-digits (suc zero) (suc zero) hu hv = omega arith
differ-digits (suc (suc u)) v hu hv = absurd (omega arith)
differ-digits (suc zero) (suc (suc v)) hu hv = absurd (omega arith)

-- The exclusive or of two digits is their sum modulo 2.
pub bit_xor_step : (x y : ℕ) → bit_xor x y ≡ bit_xor (x / 2) (y / 2) * 2 + (x + y) % 2
bit_xor_step x y = omega (arith, xor_step x y, differ-digits (x % 2) (y % 2))

pub bit_xor-lt : (k x y : ℕ) → x < 2 ^ k → y < 2 ^ k → bit_xor x y < 2 ^ k
bit_xor-lt zero x y hx hy =
    let ex : x ≡ 0 = omega arith in
    let ey : y ≡ 0 = omega arith in rw (ex, ey) (omega (arith, zero-bit_xor 0))
bit_xor-lt (suc k) x y hx hy =
    let p = pow-succ' 2 k in
    omega (
      arith,
      p,
      bit_xor_step x y,
      bit_xor-lt k (x / 2) (y / 2) (omega (arith, p)) (omega (arith, p)),
    )

-- A second exclusive or with the same number undoes the first.
pub bit_xor_involutive : (k x y : ℕ) → x < 2 ^ k → y < 2 ^ k → bit_xor x (bit_xor x y) ≡ y
bit_xor_involutive zero x y hx hy =
    let ex : x ≡ 0 = omega arith in rw ex (zero-bit_xor _ ∙ zero-bit_xor y)
bit_xor_involutive (suc k) x y hx hy =
    let p = pow-succ' 2 k in
    let ih = bit_xor_involutive k (x / 2) (y / 2) (omega (arith, p)) (omega (arith, p)) in
    let half : bit_xor x y / 2 ≡ bit_xor (x / 2) (y / 2) = omega (arith, bit_xor_step x y) in
    let outer = ap (λ (t : ℕ). bit_xor (x / 2) t) half in
    omega (arith, bit_xor_step x (bit_xor x y), bit_xor_step x y, ih, outer)

pub bit_xor_left_comm :
    (k x y z : ℕ)
    → x < 2 ^ k
    → y < 2 ^ k
    → z < 2 ^ k
    → bit_xor x (bit_xor y z) ≡ bit_xor y (bit_xor x z)
bit_xor_left_comm zero x y z hx hy hz =
    let ex : x ≡ 0 = omega arith in let ey : y ≡ 0 = omega arith in rw (ex, ey) refl
bit_xor_left_comm (suc k) x y z hx hy hz =
    let p = pow-succ' 2 k in
    let ih =
      bit_xor_left_comm k (x / 2) (y / 2) (z / 2) (omega (arith, p)) (omega (arith, p))
        (omega (arith, p)) in
    let left : bit_xor y z / 2 ≡ bit_xor (y / 2) (z / 2) = omega (arith, bit_xor_step y z) in
    let right : bit_xor x z / 2 ≡ bit_xor (x / 2) (z / 2) = omega (arith, bit_xor_step x z) in
    omega (
      arith,
      bit_xor_step x (bit_xor y z),
      bit_xor_step y (bit_xor x z),
      bit_xor_step y z,
      bit_xor_step x z,
      ap (λ (t : ℕ). bit_xor (x / 2) t) left,
      ap (λ (t : ℕ). bit_xor (y / 2) t) right,
      ih,
    )

pub bit_xor-none : (x : ℕ) → bit_xor x 0 ≡ x
bit_xor-none x = bit_xor-bitwise x 0 ∙ none_left x x (omega arith)
  where
    none_left : (k x : ℕ) → x ≤ k → digits (λ y. y) differ k x 0 ≡ x
    none_left zero zero short = refl
    none_left zero (suc x) short = absurd (omega arith)
    none_left (suc k) zero short = refl
    none_left (suc k) (suc x) short =
        omega (arith, none_left k (suc x / 2) (omega arith), digit_none (suc x % 2))
      where
        digit_none : (u : ℕ) → differ u 0 ≡ u
        digit_none zero = refl
        digit_none (suc u) = refl

pub bit_xor_comm : (k x y : ℕ) → x < 2 ^ k → y < 2 ^ k → bit_xor x y ≡ bit_xor y x
bit_xor_comm k x y hx hy =
    ap (bit_xor x) (sym (bit_xor-none y))
    ∙ bit_xor_left_comm k x y 0 hx hy (omega arith)
    ∙ ap (bit_xor y) (bit_xor-none x)

high_step :
    (p q r t : ℕ)
    → bit_xor (q * p + r / 2) (t / 2) ≡ q * p + bit_xor (r / 2) (t / 2)
    → bit_xor (q * (2 * p) + r) t ≡ q * (2 * p) + bit_xor r t
high_step p q r t e =
    let half : (q * (2 * p) + r) / 2 ≡ q * p + r / 2 = grind arith in
    omega (
      arith,
      bit_xor_step (q * (2 * p) + r) t,
      bit_xor_step r t,
      ap (λ (x : ℕ). bit_xor x (t / 2)) half,
      e,
    )

-- What lies above the k low digits is kept.
pub bit_xor-high :
    (k q r t : ℕ) → r < 2 ^ k → t < 2 ^ k → bit_xor (q * 2 ^ k + r) t ≡ q * 2 ^ k + bit_xor r t
bit_xor-high zero q r t hr ht =
    let er : r ≡ 0 = omega arith in
    let et : t ≡ 0 = omega arith in
    rw (er, et) (omega (arith, bit_xor-none (q * 1 + 0), zero-bit_xor 0))
bit_xor-high (suc k) q r t hr ht =
    let p = pow-succ' 2 k in
    let ih = bit_xor-high k q (r / 2) (t / 2) (omega (arith, p)) (omega (arith, p)) in
    rw pow-succ' (high_step (2 ^ k) q r t ih)
