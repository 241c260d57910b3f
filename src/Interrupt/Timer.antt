-- ===== src/Interrupt/Timer.antt =====
-- kernel/interrupt/interrupt.c: the clock that the timer interrupt drives.
use fg_os.Base.{
  ℕ, zero, suc, ◌+◌, ◌*◌, ◌/◌, ◌<◌, ◌≤◌, ◌^◌, ◌≡◌, sym, ap, ◌∙◌, subst, arith, add64, mul64,
}
use native.Mathlib.Nat.{
  mod-eq_of_lt, mul-le-mul_left, div-le_self, div-mul-le_self, mul_comm, mul_assoc,
}
use fg_os.Interrupt.State.{Machine, Outside, TimerManager}
use fg_os.Interrupt.Control.{
  timer_interrupt_handler, tick, after_ticks, pic_send_eoi, outb, timer_init, pic_enable_irq, inb,
}
use fg_os.Interrupt.Idt.{
  idt_register_handler, install_handler, interrupts_disable, interrupts_restore, interrupts_enable,
}

pub handler-timer :
    (out : Outside) (k : Machine) → (timer_interrupt_handler out k).timer ≡ tick k.timer
unfolding timer_interrupt_handler pic_send_eoi outb
handler-timer out k = ground arith

-- The clock after n ticks.
abbrev pub Shows : (n frequency : ℕ) → TimerManager → Type 0
Shows n frequency t =
    (t.ticks ≡ n)
    × (t.frequency ≡ frequency)
    × (t.milliseconds ≡ n * (1000 / frequency))
    × (t.seconds ≡ n * (1000 / frequency) / 1000)

tick-Shows :
    (n f : ℕ) (t : TimerManager) → suc n * 1000 < 2 ^ 64 → Shows n f t → Shows (suc n) f (tick t)
tick-Shows n f t few (a, b, c, d) =
    let small : suc n * (1000 / f) < 2 ^ 64 =
      omega (arith, mul-le-mul_left (suc n) (div-le_self 1000 f)) in
    let one : add64 t.ticks 1 ≡ suc n = ground arith in
    let ms : mul64 (add64 t.ticks 1) (1000 / t.frequency) ≡ suc n * (1000 / f) =
      rw (one, b) (mod-eq_of_lt small) in
    (one, b, ms, ap (λ (x : ℕ). x / 1000) ms)

pub init-Shows : (f : ℕ) (k : Machine) → Shows 0 f (timer_init f k).1.timer
unfolding timer_init idt_register_handler install_handler interrupts_disable interrupts_restore
    interrupts_enable pic_enable_irq outb inb
init-Shows f k = (ground arith, ground arith, ground arith, ground arith)

pub after_ticks-Shows :
    (out : Outside) (n f a : ℕ) (k : Machine)
    → (n + a) * 1000 < 2 ^ 64
    → Shows n f k.timer
    → Shows (n + a) f (after_ticks out a k).timer
unfolding after_ticks
after_ticks-Shows out n f zero k few h = subst (λ (x : ℕ). Shows x f k.timer) (omega arith) h
after_ticks-Shows out n f (suc a) k few h =
    let next : suc (n + a) ≡ n + suc a = omega arith in
    subst (λ (x : ℕ). Shows x f (after_ticks out (suc a) k).timer) next
      (subst (Shows (suc (n + a)) f) (sym (handler-timer out (after_ticks out a k))) (
        tick-Shows (n + a) f (after_ticks out a k).timer (omega (arith, few))
          (after_ticks-Shows out n f a k (omega (arith, few)) h)))

-- n interrupts of a timer that has been initialised at a frequency f of at least 1, where 1000 n is
-- below 2 ^ 64: n ticks are counted, the milliseconds are n times the whole part of 1000 / f, and the
-- seconds are the thousands of that; so the clock is never fast, and it is right where f divides 1000.
pub after_ticks-timer_init :
    (out : Outside) (n f : ℕ) (k : Machine)
    → 0 < f
    → n * 1000 < 2 ^ 64
    → let t = (after_ticks out n (timer_init f k).1).timer in
      (t.ticks ≡ n)
      × (t.milliseconds ≡ n * (1000 / f))
      × (t.seconds ≡ t.milliseconds / 1000)
      × (f * t.milliseconds ≤ n * 1000)
      × (1000 / f * f ≡ 1000 → f * t.milliseconds ≡ n * 1000)
after_ticks-timer_init out n f k some_rate few =
    let (a, b, c, d) =
      subst (λ (x : ℕ). Shows x f (after_ticks out n (timer_init f k).1).timer) (omega arith)
        (after_ticks-Shows out 0 f n (timer_init f k).1 (omega (arith, few)) (init-Shows f k)) in
    let swap : f * (n * (1000 / f)) ≡ n * (1000 / f * f) =
      mul_comm f (n * (1000 / f)) ∙ mul_assoc n (1000 / f) f in
    (
      a,
      c,
      d ∙ ap (λ (x : ℕ). x / 1000) (sym c),
      rw (c, swap) (mul-le-mul_left n (div-mul-le_self 1000 f)),
      λ exact. ap (λ (x : ℕ). f * x) c ∙ swap ∙ ap (λ (x : ℕ). n * x) exact,
    )
