-- ===== src/Interrupt/Sleep.antt =====
-- kernel/interrupt/interrupt.c: timer_sleep_ms, on the clock that the timer interrupt drives.
use fg_os.Base.{
  ℕ, zero, suc, ◌+◌, ◌-◌, ◌*◌, ◌/◌, ◌<◌, ◌≤◌, ◌^◌, Bool, ltb, equal_or_later, ◌≡◌, inl, inr, refl,
  sym, ap, ◌∙◌, subst, arith, sub64, some, Bool-cases, if_true, if_false, if◌then◌else◌,
}
use native.Mathlib.Nat.{mul-le-mul_left, div-le_self, div-mul-le_self, mul_assoc, mul_comm}
use fg_os.Interrupt.State.{Machine, Outside}
use fg_os.Interrupt.Control.{
  timer_interrupt_handler, timer_get_uptime_ms, after_ticks, sleep_from, timer_sleep_ms,
}
use fg_os.Interrupt.Timer.{Shows, after_ticks-Shows}

-- The timer interrupts before the reading i.
abbrev pub arrived : (arrivals : ℕ → ℕ) → (i : ℕ) → ℕ
arrived arrivals zero = 0
arrived arrivals (suc i) = arrivals i + arrived arrivals i

arrived_mono : (arrivals : ℕ → ℕ) (i j : ℕ) → i ≤ j → arrived arrivals i ≤ arrived arrivals j
arrived_mono arrivals i zero h = let e : i ≡ 0 = omega arith in rw e (omega arith)
arrived_mono arrivals i (suc j) h = elim (equal_or_later i (suc j) h) [
  | inl e ↦ rw e (omega arith)
  | inr below ↦ omega (arith, arrived_mono arrivals i j (omega (arith, below)))
]

-- In j times `gap` rounds, j interrupts have come.
arrived-gap :
    (arrivals : ℕ → ℕ) (gap : ℕ)
    → ((i : ℕ) → arrived arrivals i < arrived arrivals (i + gap))
    → (j : ℕ) → j ≤ arrived arrivals (j * gap)
arrived-gap arrivals gap fair zero = omega arith
arrived-gap arrivals gap fair (suc j) =
    let next : j * gap + gap ≡ suc j * gap = grind arith in
    let more =
      subst (λ (x : ℕ). arrived arrivals (j * gap) < arrived arrivals x) next (fair (j * gap)) in
    omega (arith, more, arrived-gap arrivals gap fair j)

after_ticks-after_ticks :
    (out : Outside) (a b : ℕ) (k : Machine)
    → after_ticks out a (after_ticks out b k) ≡ after_ticks out (a + b) k
unfolding after_ticks
after_ticks-after_ticks out zero b k = ap (λ (x : ℕ). after_ticks out x k) (omega arith)
after_ticks-after_ticks out (suc a) b k =
    let next : suc (a + b) ≡ suc a + b = omega arith in
    ap (timer_interrupt_handler out) (after_ticks-after_ticks out a b k)
    ∙ ap (λ (x : ℕ). after_ticks out x k) next

sub64-add : (b d : ℕ) → b + d < 2 ^ 64 → sub64 (b + d) b ≡ d
sub64-add b d small = omega (arith, small)

-- The milliseconds that the clock shows after a ticks, less those that it showed before.
elapsed :
    (out : Outside) (n f a : ℕ) (k : Machine)
    → Shows n f k.timer
    → (n + a) * 1000 < 2 ^ 64
    → sub64 (timer_get_uptime_ms (after_ticks out a k)) (timer_get_uptime_ms k) ≡ a * (1000 / f)
unfolding timer_get_uptime_ms
elapsed out n f a k shows few =
    let q = 1000 / f in
    let later = (after_ticks-Shows out n f a k few shows).2 in
    let sum : (n + a) * q ≡ n * q + a * q = grind arith in
    let small : n * q + a * q < 2 ^ 64 =
      omega (arith, sum, few, mul-le-mul_left (n + a) (div-le_self 1000 f)) in
    ap (λ (x : ℕ). sub64 x k.timer.milliseconds) (later ∙ sum)
    ∙ ap (sub64 (n * q + a * q)) shows.2
    ∙ sub64-add (n * q) (a * q) small

-- The loop ends at the reading r: the clock has advanced by ms there, and at no earlier reading.
abbrev pub Wakes : (arrivals : ℕ → ℕ) (f ms first last r : ℕ) → Type 0
Wakes arrivals f ms first last r =
    (first < r)
    × (r ≤ last)
    × (ms ≤ arrived arrivals r * (1000 / f))
    × ((i : ℕ) → first < i → i < r → arrived arrivals i * (1000 / f) < ms)

module _ (out : Outside) (arrivals : ℕ → ℕ) (n f ms : ℕ) (k : Machine)
    (shows : Shows n f k.timer) where
  -- The test of the loop at the reading 1 + i.
  abbrev test : ℕ → Bool
  test i =
      ltb
        (sub64 (timer_get_uptime_ms (after_ticks out (arrived arrivals (suc i)) k))
          (timer_get_uptime_ms k))
        ms

  sleep_from-suc :
      (fuel i : ℕ)
      → sleep_from
          (suc fuel)
          out
          arrivals
          (timer_get_uptime_ms k)
          ms
          i
          (after_ticks out (arrived arrivals i) k)
        ≡ (if test i
            then sleep_from fuel out arrivals
                (timer_get_uptime_ms k)
                ms
                (suc i)
                (after_ticks out (arrived arrivals (suc i)) k)
            else some (after_ticks out (arrived arrivals (suc i)) k))
  unfolding sleep_from
  sleep_from-suc fuel i = rw (after_ticks-after_ticks out (arrivals i) (arrived arrivals i) k) refl

  sleep_from-Wakes :
      (fuel i d : ℕ)
      → d < fuel
      → (n + arrived arrivals (suc i + d)) * 1000 < 2 ^ 64
      → ms ≤ arrived arrivals (suc i + d) * (1000 / f)
      → (r : ℕ) × (sleep_from fuel out arrivals
            (timer_get_uptime_ms k)
            ms
            i
            (after_ticks out (arrived arrivals i) k)
          ≡ some (after_ticks out (arrived arrivals r) k))
        × Wakes arrivals f ms i (suc i + d) r
  sleep_from-Wakes zero i d short few enough = absurd (omega arith)
  sleep_from-Wakes (suc fuel) i d short few enough =
      let up = arrived_mono arrivals (suc i) (suc i + d) (omega arith) in
      let shown = elapsed out n f (arrived arrivals (suc i)) k shows (omega (arith, few, up)) in
      elim (Bool-cases (test i)) [
        | inr e ↦ (
          suc i,
          sleep_from-suc fuel i ∙ if_false _ _ _ e,
          (
            omega arith,
            omega arith,
            ground (arith, e, shown),
            λ j a b. absurd (omega (arith, a, b)),
          ),
        )
        | inl e ↦
            let early : arrived arrivals (suc i) * (1000 / f) < ms = ground (arith, e, shown) in
            let positive : 0 < d = later d enough early in
            let same : suc (suc i) + (d - 1) ≡ suc i + d = omega arith in
            let (r, found, (a, b, c, waits)) =
              sleep_from-Wakes fuel (suc i) (d - 1) (omega arith)
                (subst (λ (j : ℕ). (n + arrived arrivals j) * 1000 < 2 ^ 64) (sym same) few)
                (subst (λ (j : ℕ). ms ≤ arrived arrivals j * (1000 / f)) (sym same) enough) in
            (
              r,
              sleep_from-suc fuel i ∙ if_true _ _ _ e ∙ found,
              (
                omega (arith, a),
                omega (arith, b),
                c,
                λ j x y. elim (equal_or_later (suc i) j (omega (arith, x))) [
                  | inl here ↦ subst (λ (j1 : ℕ). arrived arrivals j1 * (1000 / f) < ms) here early
                  | inr above ↦ waits j (omega (arith, above)) y
                ],
              ),
            )
      ]
    where
      later :
          (d1 : ℕ)
          → ms ≤ arrived arrivals (suc i + d1) * (1000 / f)
          → arrived arrivals (suc i) * (1000 / f) < ms
          → 0 < d1
      later zero enough1 early =
          let same : suc i + 0 ≡ suc i = omega arith in
          absurd (
            omega
              (arith, subst (λ (j : ℕ). ms ≤ arrived arrivals j * (1000 / f)) same enough1, early))
      later (suc d2) enough1 early = omega arith

-- timer_sleep_ms on a timer of at most 1000 ticks in a second, where a timer interrupt comes in every
-- `gap` rounds of the loop at least, and the ticks stay below 2 ^ 64 / 1000: the loop ends, after
-- ms * gap + 1 rounds at most. It ends at the first reading after the start at which the interrupts
-- that have come make up ms milliseconds on the clock, and thus ms milliseconds of ticks or more.
pub timer_sleep_ms-Wakes :
    (out : Outside) (arrivals : ℕ → ℕ) (gap n f ms fuel : ℕ) (k : Machine)
    → Shows n f k.timer
    → 0 < f
    → f ≤ 1000
    → ((i : ℕ) → arrived arrivals i < arrived arrivals (i + gap))
    → (n + arrived arrivals (1 + ms * gap)) * 1000 < 2 ^ 64
    → ms * gap < fuel
    → (r : ℕ) × (timer_sleep_ms fuel out arrivals ms k
        ≡ some (after_ticks out (arrived arrivals r) k))
      × Wakes arrivals f ms 0 (1 + ms * gap) r
      × (f * ms ≤ arrived arrivals r * 1000)
unfolding timer_sleep_ms after_ticks
timer_sleep_ms-Wakes out arrivals gap n f ms fuel k shows some_rate slow fair few long =
    let q = 1000 / f in
    let one : 1 ≤ q = grind arith in
    let come = arrived-gap arrivals gap fair ms in
    let up = arrived_mono arrivals (ms * gap) (1 + ms * gap) (omega arith) in
    let enough : ms ≤ arrived arrivals (1 + ms * gap) * q =
      omega (arith, come, up, mul-le-mul_left (arrived arrivals (1 + ms * gap)) one) in
    let (r, found, (a, b, c, waits)) =
      sleep_from-Wakes out arrivals n f ms k shows fuel 0 (ms * gap) long few enough in
    (r, found, (a, b, c, waits), real (arrived arrivals r) c)
  where
    real : (x : ℕ) → ms ≤ x * (1000 / f) → f * ms ≤ x * 1000
    real x h =
        let swap : f * (x * (1000 / f)) ≡ x * (1000 / f * f) =
          mul_comm f (x * (1000 / f)) ∙ mul_assoc x (1000 / f) f in
        omega (arith, swap, mul-le-mul_left f h, mul-le-mul_left x (div-mul-le_self 1000 f))
