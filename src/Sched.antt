-- ===== src/Sched.antt =====
-- kernel/sched/scheduler.c, and from thread.c and process.c what it calls: sleep, wakeup,
-- set_current_thread, set_current_process, get_system_time. Threads and processes are stores by
-- address. Log output, the CPU's registers and arch_halt, which only waits, are left out.
pub mod Processes
pub mod Registered
pub mod Unlisted
pub mod Destroyed
pub mod Sleepers
pub mod Yield
use fg_os.Base.{
  ℕ, zero, suc, ◌+◌, ◌-◌, ◌%◌, ◌^◌, Bool, true, false, ◌&&◌, ◌||◌, not, ltb, leb, ◌==◌,
  if◌then◌else◌, add64, sub64, add32, sub32,
}
use fg_os.Base.Int.{ℤ, pos, negsuc}

pub data ThreadState : Type 0 where
  new : ThreadState
  ready : ThreadState
  running : ThreadState
  blocked : ThreadState
  sleeping : ThreadState
  terminated : ThreadState

abbrev pub is_running : ThreadState → Bool
is_running running = true
is_running _ = false

abbrev pub is_sleeping : ThreadState → Bool
is_sleeping sleeping = true
is_sleeping _ = false

-- The fields of a thread but its CPU context, its stack and its owned locks, which no code here
-- reads or writes.
pub record Thread : Type 0 where
  pub tid : ℕ
  pub pid : ℕ
  pub state : ThreadState
  pub priority : ℕ
  pub time_slice : ℕ
  pub remaining_time : ℕ
  pub sleep_until : ℕ
  pub process : ℕ
  pub next : ℕ
  pub sched_next : ℕ

-- The fields of a process that the scheduler writes; `is_current` says that its state is RUNNING.
pub record Process : Type 0 where
  pub is_current : Bool
  pub cpu_time : ℕ
  pub last_scheduled : ℕ

pub record SchedulerStats : Type 0 where
  pub context_switches : ℕ
  pub processes_created : ℕ
  pub threads_created : ℕ
  pub total_cpu_time : ℕ
  pub active_processes : ℕ
  pub active_threads : ℕ
  pub runnable_threads : ℕ

-- The static variables of the three files. fake_time is the one in get_system_time.
pub record Sched : Type 0 where
  pub current_policy : ℕ
  pub time_quantum : ℕ
  pub scheduler_enabled : Bool
  pub preemption_enabled : Bool
  pub ready_queue : ℕ
  pub sleeping_queue : ℕ
  pub stats : SchedulerStats
  pub tick_counter : ℕ
  pub last_schedule_time : ℕ
  pub fake_time : ℕ
  pub current_thread : ℕ
  pub current_process : ℕ
  pub threads : ℕ → Thread
  pub processes : ℕ → Process

abbrev pub time_slice_default : ℕ
time_slice_default = 20

abbrev pub set_thread : ℕ → Thread → Sched → Sched
set_thread a t s = record s { threads = λ q. if a == q then t else s.threads q }

abbrev pub set_process : ℕ → Process → Sched → Sched
set_process a p s = record s { processes = λ q. if a == q then p else s.processes q }

-- The answer is the field fake_time of the state after the call.
pub get_system_time : Sched → Sched
get_system_time s = record s { fake_time = add64 s.fake_time 1 }

pub scheduler_init : Sched → ℤ × Sched
scheduler_init s =
    let s1 = get_system_time s in
    (
      pos 0,
      record s1 {
        current_policy = 1;
        time_quantum = time_slice_default;
        scheduler_enabled = false;
        preemption_enabled = false;
        ready_queue = 0;
        sleeping_queue = 0;
        stats = record {
          context_switches = 0;
          processes_created = 0;
          threads_created = 0;
          total_cpu_time = 0;
          active_processes = 0;
          active_threads = 0;
          runnable_threads = 0;
        };
        tick_counter = 0;
        last_schedule_time = s1.fake_time;
      },
    )

pub scheduler_enable : Bool → Sched → Sched
scheduler_enable enable_preemption s = record s {
  scheduler_enabled = true;
  preemption_enabled = enable_preemption;
}

pub scheduler_disable : Sched → Sched
scheduler_disable s = record s { scheduler_enabled = false; preemption_enabled = false }

pub add_to_ready_queue : ℕ → Sched → Sched
add_to_ready_queue thread s =
    if thread == 0
    then s
    else record (set_thread thread
        (record (s.threads thread) { sched_next = s.ready_queue; state = ready }) s) {
          ready_queue = thread;
        }

pub remove_from_ready_queue : Sched → ℕ × Sched
remove_from_ready_queue s =
    let thread = s.ready_queue in
    if thread == 0 then (0, s) else (
      thread,
      record (set_thread thread (record (s.threads thread) { sched_next = 0 }) s) {
        ready_queue = (s.threads thread).sched_next;
      },
    )

-- Every policy takes the head of the ready queue.
pub select_next_thread : Sched → ℕ × Sched
select_next_thread s = remove_from_ready_queue s

pub update_thread_statistics : (thread time_used : ℕ) → Sched → Sched
update_thread_statistics thread time_used s =
    let process = (s.threads thread).process in
    if thread == 0 || process == 0
    then s
    else let p = s.processes process in
      record (set_process process (record p { cpu_time = add64 p.cpu_time time_used }) s) {
        stats = record s.stats { total_cpu_time = add64 s.stats.total_cpu_time time_used };
      }

pub set_current_thread : ℕ → Sched → Sched
set_current_thread thread s =
    let s1 = record s { current_thread = thread } in
    if thread == 0 then s1 else set_thread thread (record (s.threads thread) { state = running }) s1

pub set_current_process : ℕ → Sched → Sched
set_current_process proc s =
    let s1 = record s { current_process = proc } in
    if proc == 0
    then s1
    else let s2 = get_system_time s1 in
      set_process proc
        (record (s.processes proc) { is_current = true; last_scheduled = s2.fake_time }) s2

-- The previous thread, if there is one and it is RUNNING, becomes READY.
pub put_back : (prev : ℕ) → Sched → Sched
put_back prev s =
    if not (prev == 0) && is_running (s.threads prev).state
    then set_thread prev (record (s.threads prev) { state = ready }) s
    else s

-- The next thread becomes the current one, with a whole time slice.
pub install : (next : ℕ) → Sched → Sched
install next s =
    let s1 = set_current_thread next s in
    let t = s1.threads next in
    set_thread next (record t { state = running; remaining_time = t.time_slice }) s1

pub context_switch : (prev next : ℕ) → Sched → Sched
context_switch prev next s =
    if next == 0
    then s
    else let s1 = install next (put_back prev s) in
      if prev == 0 || not ((s1.threads prev).process == (s1.threads next).process)
      then set_current_process (s1.threads next).process s1
      else s1

-- The statistics of a switch; the clock that it reads is the field fake_time afterwards.
pub account : Sched → Sched
account s =
    let current = s.current_thread in
    let s1 = record s {
      stats = record s.stats { context_switches = add64 s.stats.context_switches 1 };
    } in
    let s2 = get_system_time s1 in
    if not (current == 0) && ltb 0 s2.last_schedule_time
    then update_thread_statistics current (sub64 s2.fake_time s2.last_schedule_time) s2
    else s2

-- What schedule does with the thread that was selected.
pub switch_to : (next : ℕ) → Sched → Sched
switch_to next s =
    let current = s.current_thread in
    if next == 0
    then s
    else if current == next
    then set_thread current
        (record (s.threads current) { remaining_time = (s.threads current).time_slice }) s
    else let s1 = account s in
      record (context_switch current next s1) { last_schedule_time = s1.fake_time }

pub schedule : Sched → Sched
schedule s =
    if not s.scheduler_enabled
    then s
    else let (next, s1) = select_next_thread s in switch_to next s1

-- What yield does to the current thread before it calls schedule.
pub requeue_current : Sched → Sched
requeue_current s =
    let current = s.current_thread in
    if current == 0
    then s
    else let t = s.threads current in
      let s1 = set_thread current (record t { remaining_time = t.time_slice }) s in
      if is_running t.state
      then add_to_ready_queue current
          (set_thread current (record (s1.threads current) { state = ready }) s1)
      else s1

pub yield : Sched → Sched
yield s = if not s.scheduler_enabled then s else schedule (requeue_current s)

pub wakeup : ℕ → Sched → Sched
wakeup thread s =
    if thread == 0
    then s
    else if is_sleeping (s.threads thread).state
    then set_thread thread (record (s.threads thread) { state = ready; sleep_until = 0 }) s
    else s

-- The loop of update_sleep_queue, for at most `fuel` threads.
pub wake_expired : (fuel thread prev current_time : ℕ) → Sched → Sched
wake_expired zero thread prev current_time s = s
wake_expired (suc fuel) thread prev current_time s = elim (thread == 0) [
  | true ↦ s
  | false ↦
      let next = (s.threads thread).sched_next in
      elim (leb (s.threads thread).sleep_until current_time) [
        | true ↦
            let s1 =
              if prev == 0
              then record s { sleeping_queue = next }
              else set_thread prev (record (s.threads prev) { sched_next = next }) s in
            wake_expired fuel next prev current_time (add_to_ready_queue thread (wakeup thread s1))
        | false ↦ wake_expired fuel next thread current_time s
      ]
]

pub update_sleep_queue : (fuel : ℕ) → Sched → Sched
update_sleep_queue fuel s =
    let s1 = get_system_time s in wake_expired fuel s1.sleeping_queue 0 s1.fake_time s1

-- The time slice has expired.
pub preempt : (current : ℕ) → Sched → Sched
preempt current s = schedule (
    add_to_ready_queue current
      (set_thread current (record (s.threads current) { state = ready }) s))

-- The part of scheduler_tick that counts down the time slice of the current thread.
pub count_down : Sched → Sched
count_down s =
    let current = s.current_thread in
    let t = s.threads current in
    if not s.preemption_enabled || current == 0 || t.remaining_time == 0
    then s
    else let s1 = set_thread current (record t { remaining_time = sub32 t.remaining_time 1 }) s in
      if (s1.threads current).remaining_time == 0 then preempt current s1 else s1

pub scheduler_tick : (fuel : ℕ) → Sched → Sched
scheduler_tick fuel s =
    if not s.scheduler_enabled
    then s
    else count_down (update_sleep_queue fuel (record s { tick_counter = add64 s.tick_counter 1 }))

pub scheduler_add_thread : ℕ → Sched → Sched
scheduler_add_thread thread s =
    if thread == 0
    then s
    else let t = s.threads thread in
      add_to_ready_queue thread
        (set_thread thread (record t { state = ready; remaining_time = t.time_slice }) s)

-- The thread before `thread` in the queue from `curr` on, or NULL; at most `fuel` threads.
pub find_before : (fuel curr thread : ℕ) → (ℕ → Thread) → ℕ
find_before zero curr thread T = 0
find_before (suc fuel) curr thread T = elim (curr == 0 || (T curr).sched_next == thread) [
  | true ↦ curr
  | false ↦ find_before fuel (T curr).sched_next thread T
]

-- Takes the thread out of the queue: the queue's new head, and the threads.
pub unlink : (fuel queue thread : ℕ) → (ℕ → Thread) → ℕ × (ℕ → Thread)
unlink fuel queue thread T =
    if queue == thread
    then ((T thread).sched_next, T)
    else let curr = find_before fuel queue thread T in
      if curr == 0 then (queue, T) else (
        queue,
        λ q. if curr == q then record (T curr) { sched_next = (T thread).sched_next } else T q,
      )

pub scheduler_remove_thread : (fuel thread : ℕ) → Sched → Sched
scheduler_remove_thread fuel thread s =
    if thread == 0
    then s
    else let (ready', T1) = unlink fuel s.ready_queue thread s.threads in
      let (sleeping', T2) = unlink fuel s.sleeping_queue thread T1 in
      set_thread thread (record (T2 thread) { sched_next = 0 })
        (record s { ready_queue = ready'; sleeping_queue = sleeping'; threads = T2 })

-- KERN_INVALID is -3.
pub scheduler_set_policy : ℕ → Sched → ℤ × Sched
scheduler_set_policy policy s =
    if policy == 1 || policy == 2 || policy == 3 || policy == 4
    then (pos 0, record s { current_policy = policy })
    else (negsuc 2, s)

pub sleep : (milliseconds : ℕ) → Sched → Sched
sleep milliseconds s =
    let current = s.current_thread in
    if current == 0
    then s
    else let s1 = get_system_time s in
      yield (
        set_thread current
          (record (s1.threads current) {
            sleep_until = add64 s1.fake_time milliseconds;
            state = sleeping;
          })
          s1)
