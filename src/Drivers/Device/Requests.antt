-- ===== src/Drivers/Device/Requests.antt =====
-- kernel/drivers/device.c: requests to a device, from their creation to their end.
use fg_os.Base.{
  ℕ, ◌-◌, ◌^◌, Bool, true, false, not, ◌||◌, ltb, ◌==◌, if◌then◌else◌, add32, add64, sub64, Option,
  none, some, List, [], ◌∷◌,
}
use fg_os.Base.Int.{ℤ, pos, negsuc}
use fg_os.Drivers.Device.Types.{
  Env, Manager, IoStatus, pending, error, timeout, is_pending, is_success, Code, value, failed,
  is_ok, einval, enosys, enodev, enomem, eio, read, write, ioctl, interrupt_handler, set_device,
  set_request, supports, device_state_ready, device_io_read, device_io_write, device_io_control,
}
use fg_os.Drivers.Device.Stats.{update_device_stats, read_clock, touch}
use fg_os.Drivers.Device.Power.{absent}

-- What an operation of a driver answers.
abbrev answer : ℤ × Manager → Code × Manager
answer (result, m) = (value result, m)

-- if (n > 0) n--, on uint64_t.
abbrev pub decrement64 : ℕ → ℕ
decrement64 n = if ltb 0 n then sub64 n 1 else n

-- `request` is the answer of kmalloc. Its memory is cleared, and its fields are set.
unfoldable pub device_create_request :
    (request kind offset buffer size callback : ℕ) → Manager → ℕ × Manager
device_create_request request kind offset buffer size callback m =
    if request == 0 then (0, m) else (
      request,
      record (set_request request
          (record {
            request_id = 0;
            kind = kind;
            status = pending;
            device = 0;
            offset = offset;
            buffer = buffer;
            size = size;
            flags = 0;
            timestamp = 0;
            private_data = 0;
            callback = callback;
          })
          m) { allocated = λ q. if request == q then true else m.allocated q },
    )

-- kfree: the queues that point to the request are not touched.
unfoldable pub device_free_request : (request : ℕ) → Manager → Manager
device_free_request request m =
    if request == 0
    then m
    else record m { allocated = λ q. if request == q then false else m.allocated q }

-- The counters of the manager for a request that ends.
unfoldable pub count_completed : IoStatus → Manager → Manager
count_completed status m = record m {
  stats = record m.stats {
    pending_requests = decrement64 m.stats.pending_requests;
    completed_requests = add64 m.stats.completed_requests 1;
    failed_requests =
        if is_success status then m.stats.failed_requests else add64 m.stats.failed_requests 1;
  };
}

-- (ssize_t)size
abbrev pub signed : ℕ → ℤ
signed size = if ltb size (2 ^ 63) then pos size else negsuc (2 ^ 64 - size - 1)

module _ (env : Env) where
  -- if (request->device) update_device_stats(request->device, request)
  unfoldable pub account_request : (request : ℕ) → Manager → Manager
  unfolding update_device_stats
  account_request request m =
      let device = (m.requests request).device in
      if device == 0 then m else update_device_stats env device request m

  -- if (request->callback) request->callback(request)
  unfoldable pub call_back : (request : ℕ) → Manager → Manager
  call_back request m =
      let callback = (m.requests request).callback in
      if callback == 0 then m else env.notify callback request m

  unfoldable pub complete_request : (request : ℕ) → IoStatus → Manager → Manager
  unfolding account_request call_back count_completed
  complete_request request status m =
      if request == 0
      then m
      else call_back request (
          count_completed status (
            account_request request
              (set_request request (record (m.requests request) { status = status }) m)))

  -- The operation for the request's kind: its answer.
  unfoldable pub dispatch : (device request : ℕ) → Manager → Code × Manager
  dispatch device request m =
      let r = m.requests request in
      let driver = (m.devices device).driver in
      if r.kind == device_io_read
      then (if supports read device m
          then answer (env.call read driver device request 0 m)
          else (failed enosys, m))
      else if r.kind == device_io_write
      then (if supports write device m
          then answer (env.call write driver device request 0 m)
          else (failed enosys, m))
      else if r.kind == device_io_control
      then (if supports ioctl device m
          then answer (env.call ioctl driver device r.buffer r.private_data m)
          else (failed enosys, m))
      else (failed einval, m)

  -- The request takes its number and time, and heads the queue of the device.
  unfoldable pub enqueue : (device request : ℕ) → Manager → Manager
  enqueue device request m =
      let m1 = read_clock (
        set_request request
          (record (m.requests request) {
            request_id = m.next_request_id;
            device = device;
            status = pending;
            timestamp = env.clock m.readings;
          })
          m) in
      record (set_device device
        (record (m1.devices device) { request_queue = request ∷ (m1.devices device).request_queue })
        m1) {
          next_request_id = add32 m.next_request_id 1;
          stats = record m1.stats {
            total_requests = add64 m1.stats.total_requests 1;
            pending_requests = add64 m1.stats.pending_requests 1;
          };
        }

  -- A request that its operation refuses is completed as an error.
  unfoldable pub conclude : (request : ℕ) → Code × Manager → Code × Manager
  unfolding complete_request
  conclude request (result, m) =
      (result, if is_ok result then m else complete_request request error m)

  unfoldable pub device_submit_request : (device request : ℕ) → Manager → Code × Manager
  unfolding dispatch enqueue conclude
  device_submit_request device request m =
      if device == 0 || request == 0 || not (m.devices device).registered
      then (failed einval, m)
      else if not ((m.devices device).state == device_state_ready)
      then (failed enodev, m)
      else conclude request (dispatch device request (enqueue device request m))

  -- device_read and device_write after the request has been submitted. The wait for a pending
  -- request has no body, and without an interrupt it does not end: then there is no answer.
  unfoldable pub await : (request size : ℕ) → Code × Manager → Option (Code × Manager)
  unfolding device_free_request
  await request size (result, m) =
      if not (is_ok result)
      then some (result, device_free_request request m)
      else if is_pending (m.requests request).status
      then none
      else some (
        if is_success (m.requests request).status then value (signed size) else failed eio,
        device_free_request request m,
      )

  -- The submission of the request that device_create_request has answered.
  unfoldable pub issue : (device size : ℕ) → ℕ × Manager → Option (Code × Manager)
  unfolding await device_submit_request
  issue device size (r, m) =
      if r == 0 then some (failed enomem, m) else await r size (device_submit_request device r m)

  -- device_read and device_write differ in the kind of the request; `request` is kmalloc's answer.
  unfoldable pub transfer :
      (kind request device offset buffer size : ℕ) → Manager → Option (Code × Manager)
  unfolding issue device_create_request
  transfer kind request device offset buffer size m =
      if device == 0 || buffer == 0 || size == 0
      then some (failed einval, m)
      else issue device size (device_create_request request kind offset buffer size 0 m)

  unfoldable pub device_read :
      (request device offset buffer size : ℕ) → Manager → Option (Code × Manager)
  unfolding transfer
  device_read = transfer device_io_read

  pub device_write : (request device offset buffer size : ℕ) → Manager → Option (Code × Manager)
  unfolding transfer
  device_write = transfer device_io_write

  pub device_ioctl : (device cmd arg : ℕ) → Manager → Code × Manager
  device_ioctl device cmd arg m =
      if absent device m
      then (failed einval, m)
      else if not ((m.devices device).state == device_state_ready)
      then (failed enodev, m)
      else if supports ioctl device m
      then answer (env.call ioctl (m.devices device).driver device cmd arg m)
      else (failed enosys, m)

  pub device_handle_interrupt : (device vector : ℕ) → Manager → Manager
  unfolding touch
  device_handle_interrupt device vector m =
      if absent device m
      then m
      else let d = m.devices device in
        let m1 = touch env device (
          set_device device
            (record d {
              stats = record d.stats { interrupts_received = add64 d.stats.interrupts_received 1 };
            })
            m) in
        if supports interrupt_handler device m1
        then (env.call interrupt_handler (m1.devices device).driver device vector 0 m1).1
        else m1

  -- Whether the request has waited for longer than the device allows, at a reading of the clock.
  abbrev pub expired : (device request : ℕ) → Manager → Bool
  expired device request m =
      ltb (m.devices device).timeout_ms
        (sub64 (env.clock m.readings) (m.requests request).timestamp)

  -- The loop over one queue: the requests that stay in it, and the manager.
  unfoldable pub expire : (device : ℕ) → List ℕ → Manager → List ℕ × Manager
  unfolding complete_request
  expire device [] m = ([], m)
  expire device (r ∷ rs) m =
      let late = expired device r m in
      let m1 = if late then complete_request r timeout (read_clock m) else read_clock m in
      let (kept, m2) = expire device rs m1 in (if late then kept else r ∷ kept, m2)

  unfoldable pub expire_all : List ℕ → Manager → Manager
  unfolding expire
  expire_all [] m = m
  expire_all (d ∷ ds) m =
      let (kept, m1) = expire d (m.devices d).request_queue m in
      expire_all ds (set_device d (record (m1.devices d) { request_queue = kept }) m1)

  unfoldable pub device_process_requests : Manager → Manager
  unfolding expire_all
  device_process_requests m = expire_all m.device_list m
