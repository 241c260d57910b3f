-- ===== src/Sched/Sleepers.antt =====
-- kernel/sched: which threads the scheduler can ever wake. No operation puts a thread into the
-- sleeping queue.
use fg_os.Base.{
  ℕ, add64, sub32, zero, suc, ◌≡◌, ◌≢◌, refl, ◌∙◌, ap, arith, Bool, true, false, ◌||◌, not, ◌==◌,
  if◌then◌else◌, inl, inr, Bool-cases,
}
use fg_os.Sched.{
  Sched, account, put_back, install, preempt, scheduler_init, scheduler_enable, scheduler_disable,
  add_to_ready_queue, select_next_thread, remove_from_ready_queue, set_current_thread,
  set_current_process, context_switch, switch_to, update_thread_statistics, schedule,
  requeue_current, yield, wakeup, wake_expired, update_sleep_queue, count_down, scheduler_tick,
  Thread, unlink, scheduler_remove_thread, scheduler_add_thread, scheduler_set_policy, sleep,
  get_system_time,
}

-- One call of a function that other parts of the kernel call.
pub data Step : Sched → Sched → Type 0 where
  step_enable : (b : Bool) (s : Sched) → Step s (scheduler_enable b s)
  step_disable : (s : Sched) → Step s (scheduler_disable s)
  step_schedule : (s : Sched) → Step s (schedule s)
  step_yield : (s : Sched) → Step s (yield s)
  step_tick : (fuel : ℕ) (s : Sched) → Step s (scheduler_tick fuel s)
  step_add : (thread : ℕ) (s : Sched) → Step s (scheduler_add_thread thread s)
  step_remove : (fuel thread : ℕ) (s : Sched) → Step s (scheduler_remove_thread fuel thread s)
  step_policy : (policy : ℕ) (s : Sched) → Step s (scheduler_set_policy policy s).1
  step_sleep : (ms : ℕ) (s : Sched) → Step s (sleep ms s)
  step_wakeup : (thread : ℕ) (s : Sched) → Step s (wakeup thread s)
  step_current : (thread : ℕ) (s : Sched) → Step s (set_current_thread thread s)

-- The states after scheduler_init and any number of calls.
pub data Reachable : Sched → Type 0 where
  started : (s : Sched) → Reachable (scheduler_init s).1
  stepped : {s s' : Sched} → Reachable s → Step s s' → Reachable s'

add-sleepers : (a : ℕ) (s : Sched) → (add_to_ready_queue a s).sleeping_queue ≡ s.sleeping_queue
unfolding add_to_ready_queue
add-sleepers a s = ground arith

remove-sleepers : (s : Sched) → (select_next_thread s).1.sleeping_queue ≡ s.sleeping_queue
unfolding select_next_thread remove_from_ready_queue
remove-sleepers s = ground arith

set_current_thread-sleepers :
    (a : ℕ) (s : Sched) → (set_current_thread a s).sleeping_queue ≡ s.sleeping_queue
unfolding set_current_thread
set_current_thread-sleepers a s = ground arith

set_current_process-sleepers :
    (a : ℕ) (s : Sched) → (set_current_process a s).sleeping_queue ≡ s.sleeping_queue
unfolding set_current_process get_system_time
set_current_process-sleepers a s = ground arith

statistics-sleepers :
    (a n : ℕ) (s : Sched) → (update_thread_statistics a n s).sleeping_queue ≡ s.sleeping_queue
unfolding update_thread_statistics
statistics-sleepers a n s = ground arith

put_back-sleepers : (a : ℕ) (s : Sched) → (put_back a s).sleeping_queue ≡ s.sleeping_queue
unfolding put_back
put_back-sleepers a s = ground arith

install-sleepers : (a : ℕ) (s : Sched) → (install a s).sleeping_queue ≡ s.sleeping_queue
unfolding install
install-sleepers a s = set_current_thread-sleepers a s

process-sleepers :
    (b : Bool) (a : ℕ) (s : Sched)
    → (if b then set_current_process a s else s).sleeping_queue ≡ s.sleeping_queue
process-sleepers true a s = set_current_process-sleepers a s
process-sleepers false a s = refl

switch-sleepers :
    (prev next : ℕ) (s : Sched) → (context_switch prev next s).sleeping_queue ≡ s.sleeping_queue
unfolding context_switch
switch-sleepers prev next s = elim (Bool-cases (next == 0)) [
  | inl none_ ↦ simp none_ refl
  | inr some ↦ simp some (
      process-sleepers _ _ (install next (put_back prev s))
      ∙ install-sleepers next (put_back prev s)
      ∙ put_back-sleepers prev s)
]

requeue-sleepers : (s : Sched) → (requeue_current s).sleeping_queue ≡ s.sleeping_queue
unfolding requeue_current add_to_ready_queue
requeue-sleepers s = ground arith

wakeup-sleepers : (a : ℕ) (s : Sched) → (wakeup a s).sleeping_queue ≡ s.sleeping_queue
unfolding wakeup
wakeup-sleepers a s = ground arith

scheduler_add_thread-sleepers :
    (a : ℕ) (s : Sched) → (scheduler_add_thread a s).sleeping_queue ≡ s.sleeping_queue
unfolding scheduler_add_thread add_to_ready_queue
scheduler_add_thread-sleepers a s = ground arith

policy-sleepers :
    (p : ℕ) (s : Sched) → (scheduler_set_policy p s).1.sleeping_queue ≡ s.sleeping_queue
unfolding scheduler_set_policy
policy-sleepers p s = ground arith

clock-sleepers : (s : Sched) → (get_system_time s).sleeping_queue ≡ s.sleeping_queue
unfolding get_system_time
clock-sleepers s = refl

wake_expired-empty : (fuel prev t : ℕ) (s : Sched) → wake_expired fuel 0 prev t s ≡ s
unfolding wake_expired
wake_expired-empty zero prev t s = refl
wake_expired-empty (suc fuel) prev t s = refl

update-empty :
    (fuel : ℕ) (s : Sched) → s.sleeping_queue ≡ 0 → update_sleep_queue fuel s ≡ get_system_time s
unfolding update_sleep_queue get_system_time
update-empty fuel s empty =
    ap (λ (x : ℕ). wake_expired fuel x 0 (get_system_time s).fake_time (get_system_time s)) empty
    ∙ wake_expired-empty fuel 0 _ (get_system_time s)

account-sleepers : (s : Sched) → (account s).sleeping_queue ≡ s.sleeping_queue
unfolding account update_thread_statistics get_system_time
account-sleepers s = ground arith

switch_to-sleepers : (next : ℕ) (s : Sched) → (switch_to next s).sleeping_queue ≡ s.sleeping_queue
unfolding switch_to
switch_to-sleepers next s =
    ground (arith, switch-sleepers s.current_thread next (account s), account-sleepers s)

schedule-sleepers : (s : Sched) → (schedule s).sleeping_queue ≡ s.sleeping_queue
unfolding schedule
schedule-sleepers s =
    ground (
      arith,
      switch_to-sleepers (select_next_thread s).0 (select_next_thread s).1,
      remove-sleepers s,
    )

yield-sleepers : (s : Sched) → (yield s).sleeping_queue ≡ s.sleeping_queue
unfolding yield
yield-sleepers s = ground (arith, schedule-sleepers (requeue_current s), requeue-sleepers s)

sleep-sleepers : (ms : ℕ) (s : Sched) → (sleep ms s).sleeping_queue ≡ s.sleeping_queue
unfolding sleep get_system_time
sleep-sleepers ms s = elim (Bool-cases (s.current_thread == 0)) [
  | inl idle ↦ rw idle refl
  | inr live ↦ rw live (yield-sleepers _)
]

preempt-sleepers : (a : ℕ) (s : Sched) → (preempt a s).sleeping_queue ≡ s.sleeping_queue
unfolding preempt
preempt-sleepers a s = schedule-sleepers _ ∙ add-sleepers a _

count_down-sleepers : (s : Sched) → (count_down s).sleeping_queue ≡ s.sleeping_queue
unfolding count_down
count_down-sleepers s =
    let t = s.threads s.current_thread in
    elim (Bool-cases (not s.preemption_enabled || s.current_thread == 0 || t.remaining_time == 0)) [
      | inl skip ↦ rw skip refl
      | inr go ↦ rw go (split _)
    ]
  where
    split :
        (b : Bool)
        → (if b
            then preempt s.current_thread (record s {
              threads = λ q.
                  if s.current_thread == q
                  then record (s.threads s.current_thread) {
                    remaining_time = sub32 (s.threads s.current_thread).remaining_time 1;
                  }
                  else s.threads q;
            })
            else (record s {
              threads = λ q.
                  if s.current_thread == q
                  then record (s.threads s.current_thread) {
                    remaining_time = sub32 (s.threads s.current_thread).remaining_time 1;
                  }
                  else s.threads q;
            })).sleeping_queue
          ≡ s.sleeping_queue
    split true = preempt-sleepers s.current_thread _
    split false = refl

guard-sleepers :
    (on : Bool) (s t : Sched)
    → s.sleeping_queue ≡ 0
    → t.sleeping_queue ≡ 0
    → (if not on then s else t).sleeping_queue ≡ 0
guard-sleepers true s t e e' = e'
guard-sleepers false s t e e' = e

scheduler_tick-sleepers :
    (fuel : ℕ) (s : Sched) → s.sleeping_queue ≡ 0 → (scheduler_tick fuel s).sleeping_queue ≡ 0
unfolding scheduler_tick
scheduler_tick-sleepers fuel s empty =
    let s1 = record s { tick_counter = add64 s.tick_counter 1 } in
    guard-sleepers s.scheduler_enabled s (count_down (update_sleep_queue fuel s1)) empty (
      count_down-sleepers (update_sleep_queue fuel s1)
      ∙ ap (λ (x : Sched). x.sleeping_queue) (update-empty fuel s1 empty)
      ∙ clock-sleepers s1
      ∙ empty)

unlink-empty : (fuel thread : ℕ) (T : ℕ → Thread) → thread ≢ 0 → (unlink fuel 0 thread T).0 ≡ 0
unfolding unlink
unlink-empty fuel thread T some = ground arith

scheduler_remove_thread-sleepers :
    (fuel thread : ℕ) (s : Sched)
    → s.sleeping_queue ≡ 0
    → (scheduler_remove_thread fuel thread s).sleeping_queue ≡ 0
unfolding scheduler_remove_thread
scheduler_remove_thread-sleepers fuel thread s empty = elim (Bool-cases (thread == 0)) [
  | inl none_ ↦ simp none_ empty
  | inr some ↦
      let T1 = (unlink fuel s.ready_queue thread s.threads).1 in
      simp some (
        ap (λ (x : ℕ). (unlink fuel x thread T1).0) empty
        ∙ unlink-empty fuel thread T1 (λ z. ground (arith, some)))
]

Step-sleepers : (s s' : Sched) → Step s s' → s.sleeping_queue ≡ 0 → s'.sleeping_queue ≡ 0
unfolding scheduler_enable scheduler_disable
Step-sleepers _ _ (step_enable b s) e = e
Step-sleepers _ _ (step_disable s) e = e
Step-sleepers _ _ (step_schedule s) e = schedule-sleepers s ∙ e
Step-sleepers _ _ (step_yield s) e = yield-sleepers s ∙ e
Step-sleepers _ _ (step_tick fuel s) e = scheduler_tick-sleepers fuel s e
Step-sleepers _ _ (step_add thread s) e = scheduler_add_thread-sleepers thread s ∙ e
Step-sleepers _ _ (step_remove fuel thread s) e = scheduler_remove_thread-sleepers fuel thread s e
Step-sleepers _ _ (step_policy policy s) e = policy-sleepers policy s ∙ e
Step-sleepers _ _ (step_sleep ms s) e = sleep-sleepers ms s ∙ e
Step-sleepers _ _ (step_wakeup thread s) e = wakeup-sleepers thread s ∙ e
Step-sleepers _ _ (step_current thread s) e = set_current_thread-sleepers thread s ∙ e

Reachable-sleepers : (s : Sched) → Reachable s → s.sleeping_queue ≡ 0
unfolding scheduler_init
Reachable-sleepers _ (started s) = refl
Reachable-sleepers _ (stepped {s} {s'} r step) = Step-sleepers s s' step (Reachable-sleepers s r)

-- In every state that scheduler_init and the calls in Step lead to, the sleeping queue is empty, so
-- the update in scheduler_tick, which should wake the sleepers whose time has come, reads the clock
-- and does nothing else.
pub update_sleep_queue-idle :
    (s : Sched) (fuel : ℕ)
    → Reachable s
    → (s.sleeping_queue ≡ 0) × (update_sleep_queue fuel s ≡ get_system_time s)
update_sleep_queue-idle s fuel r =
    (Reachable-sleepers s r, update-empty fuel s (Reachable-sleepers s r))
