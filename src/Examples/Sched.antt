-- ===== src/Examples/Sched.antt =====
-- Runs of the scheduler: thread 100 runs, or is READY after a yield, and thread 200 waits.
use fg_os.Base.{◌≡◌, refl, arith, true, false, ◌==◌, if◌then◌else◌}
use fg_os.Sched.{
  Sched, Thread, ThreadState, ready, running, yield, scheduler_init, update_sleep_queue,
  get_system_time,
}
use fg_os.Sched.Sleepers.{started, update_sleep_queue-idle}
use fg_os.Sched.Yield.{Kept, yield-Kept, yield-drops}

abbrev thread : ThreadState → Thread
thread state = record {
  tid = 1;
  pid = 1;
  state = state;
  priority = 10;
  time_slice = 20;
  remaining_time = 7;
  sleep_until = 0;
  process = 0;
  next = 0;
  sched_next = 0;
}

abbrev pub sched : ThreadState → Sched
sched state = record {
  current_policy = 1;
  time_quantum = 20;
  scheduler_enabled = true;
  preemption_enabled = false;
  ready_queue = 200;
  sleeping_queue = 0;
  stats = record {
    context_switches = 0;
    processes_created = 0;
    threads_created = 0;
    total_cpu_time = 0;
    active_processes = 0;
    active_threads = 0;
    runnable_threads = 0;
  };
  tick_counter = 0;
  last_schedule_time = 0;
  fake_time = 0;
  current_thread = 100;
  current_process = 0;
  threads = λ q. if q == 100 then thread state else thread ready;
  processes = λ q. record { is_current = false; cpu_time = 0; last_scheduled = 0 };
}

yield-Kept_example : Kept 100 (sched running) (yield (sched running))
yield-Kept_example = yield-Kept (sched running) refl (λ e. omega (arith, e)) refl

yield-drops_example :
    ((yield (sched ready)).current_thread ≡ 200) × ((yield (sched ready)).ready_queue ≡ 0)
yield-drops_example =
    yield-drops (sched ready) refl (λ e. omega (arith, e)) refl (λ e. omega (arith, e))
      (λ e. omega (arith, e))

update_sleep_queue-idle_example :
    ((scheduler_init (sched running)).1.sleeping_queue ≡ 0)
    × (update_sleep_queue 5 (scheduler_init (sched running)).1
        ≡ get_system_time (scheduler_init (sched running)).1)
update_sleep_queue-idle_example =
    update_sleep_queue-idle (scheduler_init (sched running)).1 5 (started (sched running))
