-- ===== src/Examples/Interrupt.antt =====
-- kernel/interrupt: a machine with the timer's handler at its vector, and the default handlers at the
-- other vectors.
use fg_os.Base.{
  ℕ, ◌+◌, ◌*◌, ◌/◌, ◌≤◌, ltb, ◌==◌, true, false, ◌<◌, suc, none, subst, ◌≡◌, refl, arith,
  if◌then◌else◌, some,
}
use fg_os.Base.Int.{pos}
use fg_os.Sched.{running}
use fg_os.Examples.Sched.{sched}
use fg_os.Interrupt.State.{
  Machine, timer_handler, default_exception, default_interrupt, Outside, returned, no_entry,
  no_interrupts, interrupt_system_enabled,
}
use fg_os.Interrupt.Idt.{idt_init, entry_address}
use fg_os.Interrupt.Control.{
  interrupt_common_handler, critical_section_enter, critical_section_exit, timer_init, after_ticks,
  timer_sleep_ms, in_interrupt, interrupt_get_nesting_level,
}
use fg_os.Interrupt.Dispatch.{Leaves, IsCounted, machine_of, interrupt_common_handler-Leaves}
use fg_os.Interrupt.Critical.{critical_section_exit-nested}
use fg_os.Interrupt.Startup.{idt_init_lem}
use fg_os.Interrupt.Nesting.{starts, in_interrupt-Reached}
use fg_os.Interrupt.Timer.{init-Shows, after_ticks-timer_init}
use fg_os.Interrupt.Sleep.{arrived, Wakes, timer_sleep_ms-Wakes}
use fg_os.Interrupt.Stopped.{timer_sleep_ms-timer_init}

abbrev outside : Outside
outside = record {
  address = λ h. 1048576;
  table = 4096;
  call = λ n v e k. returned k;
  scheduler_is_enabled = λ s. s.scheduler_enabled;
  fuel = 10;
}

abbrev machine : Machine
machine = record {
  idt = λ v. no_entry;
  limit = 4095;
  base = 4096;
  handlers = λ v.
      if v == 32 then timer_handler else if ltb v 32 then default_exception else default_interrupt;
  stats = no_interrupts;
  state = interrupt_system_enabled;
  nested_level = 0;
  disabled_count = 0;
  timer = record {
    ticks = 0;
    milliseconds = 0;
    seconds = 0;
    frequency = 1000;
    initialized = true;
    last_tick_time = 0;
    tick_overruns = 0;
  };
  exceptions = λ v. record { has_error_code = false; vector = v; count = 0 };
  hardware = λ i. record {
    irq = i;
    vector = 32 + i;
    count = 0;
    enabled = false;
    last_time = 0;
    total_time = 0;
  };
  sched = sched running;
  interrupt_flag = true;
}

interrupt_common_handler-Leaves_example :
    let o = interrupt_common_handler outside 8 0 machine in
    Leaves true 0 o × IsCounted (machine_of o)
interrupt_common_handler-Leaves_example =
    interrupt_common_handler-Leaves outside 8 0 machine tt (omega arith) refl

critical_section_exit-nested_example :
    let (outer, k1) = critical_section_enter machine in
    let (inner, k2) = critical_section_enter k1 in
    let k3 = critical_section_exit outer (critical_section_exit inner k2) in
    (k3.interrupt_flag ≡ false) × (k3.disabled_count ≡ 1)
critical_section_exit-nested_example = critical_section_exit-nested machine refl refl

idt_init_lem_example :
    let (result, k1) = idt_init outside machine in
    (result ≡ pos 0)
    × (k1.state ≡ interrupt_system_enabled)
    × (k1.handlers 128 ≡ default_interrupt)
    × (entry_address (k1.idt 128) ≡ 1048576)
    × ((k1.idt 128).type_attr ≡ 238)
idt_init_lem_example = idt_init_lem outside 128 machine (omega arith) (λ h. omega arith)

in_interrupt-Reached_example :
    let k = (idt_init outside machine).1 in
    (in_interrupt k ≡ false) × (interrupt_get_nesting_level k ≡ 0)
in_interrupt-Reached_example =
    in_interrupt-Reached outside (idt_init outside machine).1 (starts machine)

after_ticks-timer_init_example :
    let t = (after_ticks outside 3 (timer_init 600 machine).1).timer in
    (t.ticks ≡ 3)
    × (t.milliseconds ≡ 3 * (1000 / 600))
    × (t.seconds ≡ t.milliseconds / 1000)
    × (600 * t.milliseconds ≤ 3 * 1000)
    × (1000 / 600 * 600 ≡ 1000 → 600 * t.milliseconds ≡ 3 * 1000)
after_ticks-timer_init_example =
    after_ticks-timer_init outside 3 600 machine (omega arith) (omega arith)

next_arrives : (i : ℕ) → arrived (λ j. 1) i < arrived (λ j. 1) (i + 1)
next_arrives i =
    let next : suc i ≡ i + 1 = omega arith in
    subst (λ (x : ℕ). arrived (λ j. 1) i < arrived (λ j. 1) x) next (omega arith)

-- An interrupt between any two readings, at 600 ticks in a second.
timer_sleep_ms-Wakes_example :
    (r : ℕ) × (timer_sleep_ms 20 outside (λ i. 1) 4 (timer_init 600 machine).1
      ≡ some (after_ticks outside (arrived (λ i. 1) r) (timer_init 600 machine).1))
    × Wakes (λ i. 1) 600 4 0 (1 + 4 * 1) r
    × (600 * 4 ≤ arrived (λ i. 1) r * 1000)
timer_sleep_ms-Wakes_example =
    timer_sleep_ms-Wakes outside (λ i. 1) 1 0 600 4 20 (timer_init 600 machine).1
      (init-Shows 600 machine) (omega arith) (omega arith) (λ i. next_arrives i) (omega arith)
      (omega arith)

timer_sleep_ms-timer_init_example :
    timer_sleep_ms 50 outside (λ i. 1) 4 (after_ticks outside 3 (timer_init 2000 machine).1) ≡ none
timer_sleep_ms-timer_init_example =
    timer_sleep_ms-timer_init outside (λ i. 1) 3 2000 4 50 machine (omega arith) (omega arith)
