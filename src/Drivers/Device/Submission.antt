-- ===== src/Drivers/Device/Submission.antt =====
-- kernel/drivers/device.c, device_submit_request: the place of a request in the queue, and the
-- counters.
use fg_os.Base.{ℕ, Bool, true, false, ◌≡◌, ◌≢◌, if◌then◌else◌, refl, arith, ◌∷◌, add64}
use fg_os.Drivers.Device.Types.{
  Manager, Code, is_ok, error, set_request, ManagerStats, device_state_ready,
}
use fg_os.Drivers.Device.Gentle.{Gentle, gentle}
use fg_os.Drivers.Device.Stats.{update_device_stats}
use fg_os.Drivers.Device.Requests.{
  device_submit_request, dispatch, enqueue, conclude, complete_request, decrement64,
  account_request, call_back, count_completed,
}

enqueue-queue :
    (g : Gentle) (device request : ℕ) (m : Manager)
    → let m1 = enqueue (gentle g) device request m in
      ((m1.devices device).request_queue ≡ request ∷ (m.devices device).request_queue)
      × (m1.stats.pending_requests ≡ add64 m.stats.pending_requests 1)
      × (m1.stats.completed_requests ≡ m.stats.completed_requests)
      × (m1.stats.failed_requests ≡ m.stats.failed_requests)
unfolding enqueue
enqueue-queue g device request m = ground arith

dispatch-same :
    (g : Gentle) (device request : ℕ) (m : Manager)
    → let m1 = (dispatch (gentle g) device request m).1 in
      (m1.devices ≡ m.devices) × (m1.stats ≡ m.stats)
unfolding dispatch
dispatch-same g device request m = ground arith

account-queue :
    (g : Gentle) (device request : ℕ) (m : Manager)
    → let m1 = account_request (gentle g) request m in
      ((m1.devices device).request_queue ≡ (m.devices device).request_queue) × (m1.stats ≡ m.stats)
unfolding account_request update_device_stats
account-queue g device request m = ground arith

call_back-same :
    (g : Gentle) (request : ℕ) (m : Manager)
    → let m1 = call_back (gentle g) request m in (m1.devices ≡ m.devices) × (m1.stats ≡ m.stats)
unfolding call_back
call_back-same g request m = ground arith

count_completed-counts :
    (m : Manager)
    → let m1 = count_completed error m in
      (m1.devices ≡ m.devices)
      × (m1.stats.pending_requests ≡ decrement64 m.stats.pending_requests)
      × (m1.stats.completed_requests ≡ add64 m.stats.completed_requests 1)
      × (m1.stats.failed_requests ≡ add64 m.stats.failed_requests 1)
unfolding count_completed
count_completed-counts m = (refl, refl, refl, refl)

-- What completing a request as an error does to a queue and to the manager's counters.
complete-queue :
    (g : Gentle) (device request : ℕ) (m : Manager)
    → request ≢ 0
    → let m1 = complete_request (gentle g) request error m in
      ((m1.devices device).request_queue ≡ (m.devices device).request_queue)
      × (m1.stats.pending_requests ≡ decrement64 m.stats.pending_requests)
      × (m1.stats.completed_requests ≡ add64 m.stats.completed_requests 1)
      × (m1.stats.failed_requests ≡ add64 m.stats.failed_requests 1)
unfolding complete_request
complete-queue g device request m some_request =
    let m1 = set_request request (record (m.requests request) { status = error }) m in
    let m2 = account_request (gentle g) request m1 in
    let a = account-queue g device request m1 in
    let c = count_completed-counts m2 in
    let b = call_back-same g request (count_completed error m2) in ground arith

-- The counters of requests after a submission that has answered.
abbrev pub Counted : (answers_zero : Bool) → (before after : ManagerStats) → Type 0
Counted true t u =
    (u.pending_requests ≡ add64 t.pending_requests 1)
    × (u.completed_requests ≡ t.completed_requests)
    × (u.failed_requests ≡ t.failed_requests)
Counted false t u =
    (u.pending_requests ≡ decrement64 (add64 t.pending_requests 1))
    × (u.completed_requests ≡ add64 t.completed_requests 1)
    × (u.failed_requests ≡ add64 t.failed_requests 1)

module _ (g : Gentle) (device request : ℕ) (m : Manager) (some_request : request ≢ 0) where
  sent : Code × Manager
  sent = dispatch (gentle g) device request (enqueue (gentle g) device request m)

  ended :
      (b : Bool)
      → let m1 = if b then sent.1 else complete_request (gentle g) request error sent.1 in
        ((m1.devices device).request_queue ≡ request ∷ (m.devices device).request_queue)
        × Counted b m.stats m1.stats
  unfolding sent
  ended true =
      let e = enqueue-queue g device request m in
      let d = dispatch-same g device request (enqueue (gentle g) device request m) in ground arith
  ended false =
      let e = enqueue-queue g device request m in
      let d = dispatch-same g device request (enqueue (gentle g) device request m) in
      let c = complete-queue g device request sent.1 some_request in ground arith

  concluded :
      let (c, m1) = conclude (gentle g) request sent in
      ((m1.devices device).request_queue ≡ request ∷ (m.devices device).request_queue)
      × Counted (is_ok c) m.stats m1.stats
  unfolding conclude
  concluded = ended (is_ok sent.0)

submit-conclude :
    (g : Gentle) (device request : ℕ) (m : Manager)
    → device ≢ 0
    → request ≢ 0
    → (m.devices device).registered ≡ true
    → (m.devices device).state ≡ device_state_ready
    → device_submit_request (gentle g) device request m
      ≡ conclude
          (gentle g)
          request
          (dispatch (gentle g) device request (enqueue (gentle g) device request m))
unfolding device_submit_request
submit-conclude g device request m some_device some_request known ready = ground arith

-- A request that a READY device takes heads the queue of the device, whatever the driver answers. The
-- counters: where the driver answers 0, one more request is pending and none is completed; otherwise
-- one more request is completed and one more has failed, and it is no longer pending. The drivers
-- leave the framework's records alone.
pub device_submit_request-Counted :
    (g : Gentle) (device request : ℕ) (m : Manager)
    → device ≢ 0
    → request ≢ 0
    → (m.devices device).registered ≡ true
    → (m.devices device).state ≡ device_state_ready
    → let (c, m1) = device_submit_request (gentle g) device request m in
      ((m1.devices device).request_queue ≡ request ∷ (m.devices device).request_queue)
      × Counted (is_ok c) m.stats m1.stats
unfolding sent
device_submit_request-Counted g device request m some_device some_request known ready =
    rw (submit-conclude g device request m some_device some_request known ready)
      (concluded g device request m some_request)
