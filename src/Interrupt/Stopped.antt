-- ===== src/Interrupt/Stopped.antt =====
-- kernel/interrupt/interrupt.c: timer_sleep_ms, where the timer is faster than 1000 ticks in a second.
use fg_os.Base.{
  ℕ, zero, suc, ◌/◌, ◌<◌, ltb, lt→ltb, ◌≡◌, refl, sym, ap, ◌∙◌, subst, arith, sub64, none, if_true,
}
use native.Mathlib.Nat.{div-eq_of_lt}
use fg_os.Interrupt.State.{Machine, Outside, TimerManager}
use fg_os.Interrupt.Control.{
  tick, timer_init, timer_get_uptime_ms, after_ticks, sleep_from, timer_sleep_ms,
}
use fg_os.Interrupt.Timer.{handler-timer, init-Shows}

-- A clock whose tick is worth no millisecond.
abbrev IsStopped : TimerManager → Type 0
IsStopped t = (1000 / t.frequency ≡ 0) × (t.milliseconds ≡ 0)

tick-IsStopped : (t : TimerManager) → IsStopped t → IsStopped (tick t)
tick-IsStopped t (none_worth, zero_shown) = (none_worth, rw none_worth (omega arith))

after_ticks-IsStopped :
    (out : Outside) (a : ℕ) (k : Machine)
    → IsStopped k.timer
    → IsStopped (after_ticks out a k).timer
unfolding after_ticks
after_ticks-IsStopped out zero k h = h
after_ticks-IsStopped out (suc a) k h =
    subst IsStopped (sym (handler-timer out (after_ticks out a k)))
      (tick-IsStopped (after_ticks out a k).timer (after_ticks-IsStopped out a k h))

sleep_from-IsStopped :
    (fuel : ℕ) (out : Outside) (arrivals : ℕ → ℕ) (ms i : ℕ) (k : Machine)
    → IsStopped k.timer
    → 0 < ms
    → sleep_from fuel out arrivals 0 ms i k ≡ none
unfolding sleep_from timer_get_uptime_ms
sleep_from-IsStopped zero out arrivals ms i k h some_wait = refl
sleep_from-IsStopped (suc fuel) out arrivals ms i k h some_wait =
    let h1 = after_ticks-IsStopped out (arrivals i) k h in
    if_true _ _ _ (ap (λ (x : ℕ). ltb (sub64 x 0) ms) h1.1 ∙ lt→ltb 0 ms some_wait)
    ∙ sleep_from-IsStopped fuel out arrivals ms (suc i) (after_ticks out (arrivals i) k) h1
        some_wait

-- With the timer initialised at a frequency above 1000, timer_sleep_ms of at least one millisecond
-- never ends: whatever number of interrupts has come before it, and comes between its readings, no
-- number of rounds is enough.
pub timer_sleep_ms-timer_init :
    (out : Outside) (arrivals : ℕ → ℕ) (n f ms fuel : ℕ) (k : Machine)
    → 1000 < f
    → 0 < ms
    → timer_sleep_ms fuel out arrivals ms (after_ticks out n (timer_init f k).1) ≡ none
unfolding timer_sleep_ms timer_get_uptime_ms
timer_sleep_ms-timer_init out arrivals n f ms fuel k fast some_wait =
    let (a, b, c, d) = init-Shows f k in
    let stopped : IsStopped (timer_init f k).1.timer =
      (ap (λ (x : ℕ). 1000 / x) b ∙ div-eq_of_lt fast, c ∙ omega arith) in
    let later = after_ticks-IsStopped out n (timer_init f k).1 stopped in
    let k1 = after_ticks out n (timer_init f k).1 in
    ap (λ (start : ℕ). sleep_from fuel out arrivals start ms 0 k1) later.1
    ∙ sleep_from-IsStopped fuel out arrivals ms 0 k1 later some_wait
