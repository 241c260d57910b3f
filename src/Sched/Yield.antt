-- ===== src/Sched/Yield.antt =====
-- kernel/sched/scheduler.c, yield: the ready queue is last in, first out, so that the thread that
-- yields is the one that is selected.
use fg_os.Base.{
  ℕ, Bool, false, refl, not, ◌||◌, ◌==◌, if◌then◌else◌, ◌≡◌, ◌≢◌, sym, ◌∙◌, subst, ap, arith, true,
  ne→==,
}
use fg_os.Sched.{
  Sched, account, context_switch, put_back, install, update_thread_statistics, get_system_time,
  set_current_thread, set_current_process, SchedulerStats, Thread, ready, running,
  add_to_ready_queue, select_next_thread, remove_from_ready_queue, switch_to, schedule,
  requeue_current, yield,
}

-- What a yield leaves behind: the thread `a` is still the current one, it counts as READY, its link is
-- cleared, and the ready queue is as before.
abbrev pub Kept : (a : ℕ) → (s s' : Sched) → Type 0
Kept a s s' =
    (s'.current_thread ≡ a)
    × (s'.ready_queue ≡ s.ready_queue)
    × (s'.stats.context_switches ≡ s.stats.context_switches)
    × ((s'.threads a).state ≡ ready)
    × ((s'.threads a).sched_next ≡ 0)
    × ((s'.threads a).remaining_time ≡ (s.threads a).time_slice)
    × ((b : ℕ) → a ≢ b → s'.threads b ≡ s.threads b)

module _ (s : Sched) (some : s.current_thread ≢ 0)
    (runs : (s.threads s.current_thread).state ≡ running) where
  requeued_head : (requeue_current s).ready_queue ≡ s.current_thread
  unfolding requeue_current add_to_ready_queue
  requeued_head = ground arith

  requeued_same :
      ((requeue_current s).current_thread ≡ s.current_thread)
      × ((requeue_current s).scheduler_enabled ≡ s.scheduler_enabled)
      × ((requeue_current s).stats ≡ s.stats)
  unfolding requeue_current add_to_ready_queue
  requeued_same = ground arith

  requeued_thread :
      (requeue_current s).threads s.current_thread ≡ record (s.threads s.current_thread) {
        remaining_time = (s.threads s.current_thread).time_slice;
        sched_next = s.ready_queue;
        state = ready;
      }
  unfolding requeue_current add_to_ready_queue
  requeued_thread = ground arith

  requeued_others : (b : ℕ) → s.current_thread ≢ b → (requeue_current s).threads b ≡ s.threads b
  unfolding requeue_current add_to_ready_queue
  requeued_others b other = ground arith

module _ (s : Sched) (on : s.scheduler_enabled ≡ true) (some : s.current_thread ≢ 0)
    (head : s.ready_queue ≡ s.current_thread) where
  reselected_same :
      ((schedule s).current_thread ≡ s.current_thread)
      × ((schedule s).ready_queue ≡ (s.threads s.current_thread).sched_next)
      × ((schedule s).stats ≡ s.stats)
  unfolding schedule select_next_thread remove_from_ready_queue switch_to
  reselected_same = ground arith

  reselected_thread : (schedule s).threads s.current_thread ≡ record (s.threads s.current_thread) {
    sched_next = 0;
    remaining_time = (s.threads s.current_thread).time_slice;
  }
  unfolding schedule select_next_thread remove_from_ready_queue switch_to
  reselected_thread = ground arith

  reselected_others : (b : ℕ) → s.current_thread ≢ b → (schedule s).threads b ≡ s.threads b
  unfolding schedule select_next_thread remove_from_ready_queue switch_to
  reselected_others b other = ground arith

-- yield by a RUNNING current thread, with the scheduler enabled, whatever the ready queue holds: the
-- thread stays the current one and no switch takes place; the ready queue is as before, and the
-- thread is left READY, with its link cleared and a whole time slice; no other thread changes.
pub yield-Kept :
    (s : Sched)
    → s.scheduler_enabled ≡ true
    → s.current_thread ≢ 0
    → (s.threads s.current_thread).state ≡ running
    → Kept s.current_thread s (yield s)
unfolding yield
yield-Kept s on some runs =
    let a = s.current_thread in
    let s1 = requeue_current s in
    let (current, enabled, stats) = requeued_same s some runs in
    let on1 = enabled ∙ on in
    let some1 : s1.current_thread ≢ 0 = λ z. some (sym current ∙ z) in
    let head = requeued_head s some runs ∙ sym current in
    let again = reselected_same s1 on1 some1 head in
    let thread =
      subst
        (λ (x : ℕ).
          (schedule s1).threads x
          ≡ record (s1.threads x) { sched_next = 0; remaining_time = (s1.threads x).time_slice })
        current (reselected_thread s1 on1 some1 head) in
    let mine = requeued_thread s some runs in
    simp on (
      again.0 ∙ current,
      again.1 ∙ rw current (ap (λ (t : Thread). t.sched_next) mine),
      ap (λ (x : SchedulerStats). x.context_switches) (again.2 ∙ stats),
      ap (λ (t : Thread). t.state) thread ∙ ap (λ (t : Thread). t.state) mine,
      ap (λ (t : Thread). t.sched_next) thread,
      ap (λ (t : Thread). t.remaining_time) thread ∙ ap (λ (t : Thread). t.time_slice) mine,
      λ b other.
          reselected_others s1 on1 some1 head b (λ z. other (sym current ∙ z))
          ∙ requeued_others s some runs b other,
    )

-- A thread that yields a second time is READY and not RUNNING, and so it is not put back.
module _ (s : Sched) (some : s.current_thread ≢ 0)
    (idle : (s.threads s.current_thread).state ≡ ready) where
  dropped_same :
      ((requeue_current s).current_thread ≡ s.current_thread)
      × ((requeue_current s).scheduler_enabled ≡ s.scheduler_enabled)
      × ((requeue_current s).ready_queue ≡ s.ready_queue)
  unfolding requeue_current
  dropped_same = ground arith

  dropped_threads : (b : ℕ) → s.current_thread ≢ b → (requeue_current s).threads b ≡ s.threads b
  unfolding requeue_current
  dropped_threads b other = ground arith

-- schedule where another thread heads the queue.
module _ (s : Sched) (on : s.scheduler_enabled ≡ true) (some : s.ready_queue ≢ 0)
    (other : s.current_thread ≢ s.ready_queue) where
  selected : (select_next_thread s).0 ≡ s.ready_queue
  unfolding select_next_thread remove_from_ready_queue
  selected = ground arith

  selected_rest :
      ((select_next_thread s).1.ready_queue ≡ (s.threads s.ready_queue).sched_next)
      × ((select_next_thread s).1.current_thread ≡ s.current_thread)
  unfolding select_next_thread remove_from_ready_queue
  selected_rest = ground arith

account-queue : (s : Sched) → (account s).ready_queue ≡ s.ready_queue
unfolding account update_thread_statistics get_system_time
account-queue s = ground arith

set_current_process-same :
    (b : Bool) (a : ℕ) (s : Sched)
    → ((if b then set_current_process a s else s).ready_queue ≡ s.ready_queue)
      × ((if b then set_current_process a s else s).current_thread ≡ s.current_thread)
unfolding set_current_process get_system_time
set_current_process-same true a s = ground arith
set_current_process-same false a s = (refl, refl)

install-same :
    (next : ℕ) (s : Sched)
    → ((install next s).ready_queue ≡ s.ready_queue) × ((install next s).current_thread ≡ next)
unfolding install set_current_thread
install-same next s = ground arith

put_back-queue : (prev : ℕ) (s : Sched) → (put_back prev s).ready_queue ≡ s.ready_queue
unfolding put_back
put_back-queue prev s = ground arith

context_switch-same :
    (prev next : ℕ) (s : Sched)
    → next ≢ 0
    → ((context_switch prev next s).ready_queue ≡ s.ready_queue)
      × ((context_switch prev next s).current_thread ≡ next)
unfolding context_switch
context_switch-same prev next s some =
    let live = ne→== next 0 some in
    let s1 = install next (put_back prev s) in
    let last =
      set_current_process-same
        (prev == 0 || not ((s1.threads prev).process == (s1.threads next).process))
        (s1.threads next).process s1 in
    let same = install-same next (put_back prev s) in
    simp live (last.0 ∙ same.0 ∙ put_back-queue prev s, last.1 ∙ same.1)

switch_to-other :
    (next : ℕ) (s : Sched)
    → next ≢ 0
    → s.current_thread ≢ next
    → ((switch_to next s).current_thread ≡ next) × ((switch_to next s).ready_queue ≡ s.ready_queue)
unfolding switch_to
switch_to-other next s some other =
    let live = ne→== next 0 some in
    let differs = ne→== s.current_thread next other in
    rw (live, differs)
      (
        (context_switch-same s.current_thread next (account s) some).1,
        (context_switch-same s.current_thread next (account s) some).0 ∙ account-queue s,
      )

yield-on : (s : Sched) → s.scheduler_enabled ≡ true → yield s ≡ schedule (requeue_current s)
unfolding yield
yield-on s on = ground arith

schedule-on :
    (s : Sched)
    → s.scheduler_enabled ≡ true
    → schedule s ≡ switch_to (select_next_thread s).0 (select_next_thread s).1
unfolding schedule
schedule-on s on = ground arith

-- schedule with another thread at the head of the ready queue.
schedule-other :
    (s : Sched)
    → s.scheduler_enabled ≡ true
    → s.ready_queue ≢ 0
    → s.current_thread ≢ s.ready_queue
    → ((schedule s).current_thread ≡ s.ready_queue)
      × ((schedule s).ready_queue ≡ (s.threads s.ready_queue).sched_next)
schedule-other s on some other =
    let t = (select_next_thread s).1 in
    let (rest, current) = selected_rest s on some other in
    let got = switch_to-other s.ready_queue t some (λ z. other (sym current ∙ z)) in
    rw (schedule-on s on, selected s on some other) (got.0, got.1 ∙ rest)

-- yield by a current thread that is READY, as an earlier yield leaves it, with the scheduler enabled
-- and another thread at the head of the ready queue: that one becomes the current thread, and the
-- ready queue is what followed it, so the thread that yielded has not been put back at its head.
pub yield-drops :
    (s : Sched)
    → s.scheduler_enabled ≡ true
    → s.current_thread ≢ 0
    → (s.threads s.current_thread).state ≡ ready
    → s.ready_queue ≢ 0
    → s.current_thread ≢ s.ready_queue
    → ((yield s).current_thread ≡ s.ready_queue)
      × ((yield s).ready_queue ≡ (s.threads s.ready_queue).sched_next)
yield-drops s on some idle waiting other =
    let s1 = requeue_current s in
    let (current, enabled, queue) = dropped_same s some idle in
    let got =
      schedule-other s1 (enabled ∙ on) (λ z. waiting (sym queue ∙ z))
        (λ z. other (sym current ∙ z ∙ queue)) in
    rw (yield-on s on) (
      got.0 ∙ queue,
      got.1
          ∙ ap (λ (x : ℕ). (s1.threads x).sched_next) queue
          ∙ ap (λ (t : Thread). t.sched_next) (dropped_threads s some idle s.ready_queue other),
    )
