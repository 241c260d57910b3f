-- ===== src/Examples/Device.antt =====
-- kernel/drivers/device.c: a disk and a keyboard, both with the driver at 8. The disk is registered and
-- runs, the keyboard is not registered yet.
use fg_os.Base.{
  ℕ, ◌≡◌, ◌⊎◌, refl, arith, true, false, ◌==◌, if◌then◌else◌, [], ◌∷◌, All, some, none,
}
use fg_os.Base.Int.{pos}
use fg_os.Drivers.Device.Types.{
  Manager, Device, Driver, Request, pending, success, no_stats, Code, is_ok, is_pending,
  device_state_unknown, device_state_ready, device_io_read,
}
use fg_os.Drivers.Device.Gentle.{Gentle, gentle}
use fg_os.Drivers.Device.Registry.{empty_stats, device_unregister, device_register}
use fg_os.Drivers.Device.Requests.{
  device_submit_request, device_process_requests, device_read, device_create_request,
}
use fg_os.Drivers.Device.Lifecycle.{Edge, perform, perform-Edge, calls_reset}
use fg_os.Drivers.Device.Submission.{Counted, device_submit_request-Counted}
use fg_os.Drivers.Device.Reading.{Dangles, device_read-Dangles}
use fg_os.Drivers.Device.Listing.{IsRegistry, device_register-IsRegistry}
use fg_os.Drivers.Device.Removal.{Answers, device_unregister-IsRegistry}
use fg_os.Drivers.Device.Expiry.{live, device_process_requests-live}

abbrev willing : Gentle
willing = record {
  clock = λ n. 100;
  reply = λ op driver device a b m. pos 0;
  fill = λ op driver device a b m q. record (m.requests q) { status = success };
  notify = λ callback request m. m.requests;
}

abbrev disk : Device
disk = record {
  device_id = 1;
  kind = 1;
  state = device_state_ready;
  capabilities = 64;
  name = 100 ∷ 105 ∷ [];
  timeout_ms = 50;
  stats = no_stats;
  driver = 8;
  request_queue = 20 ∷ 21 ∷ [];
  created_time = 0;
  last_access_time = 0;
  registered = true;
}

abbrev keyboard : Device
keyboard = record disk {
  device_id = 0;
  kind = 3;
  state = device_state_unknown;
  registered = false;
  request_queue = [];
}

abbrev disk_driver : Driver
disk_driver = record {
  name = 100 ∷ [];
  version = 49 ∷ [];
  ops = λ op. true;
  reference_count = 0;
  loaded = true;
}

abbrev read_at : (time : ℕ) → Request
read_at time = record {
  request_id = 1;
  kind = device_io_read;
  status = pending;
  device = 4;
  offset = 0;
  buffer = 30;
  size = 512;
  flags = 0;
  timestamp = time;
  private_data = 0;
  callback = 0;
}

abbrev machine : Manager
machine = record {
  device_list = 4 ∷ [];
  driver_list = 8 ∷ [];
  stats = record empty_stats { total_devices = 1; active_devices = 1 };
  next_device_id = 2;
  next_request_id = 3;
  initialized = true;
  devices = λ p. if p == 4 then disk else keyboard;
  drivers = λ p. disk_driver;
  requests = λ p. read_at (if p == 20 then 10 else 90);
  allocated = λ p. true;
  readings = 0;
}

machine-IsRegistry : IsRegistry machine
machine-IsRegistry = (((λ e. ground arith, refl, omega arith), tt), (tt, tt), refl)

perform-Edge_example :
    let r = perform (gentle willing) calls_reset 4 machine in
    Edge calls_reset (is_ok r.0) device_state_ready (r.1.devices 4).state
perform-Edge_example = perform-Edge willing calls_reset 4 machine

device_process_requests-live_example :
    All
      (λ p.
        ((device_process_requests (gentle willing) machine).devices p).request_queue
        ≡ live 100 p machine (machine.devices p).request_queue)
      (4 ∷ [])
device_process_requests-live_example =
    device_process_requests-live willing 100 machine (λ c r m q. refl) (λ n. refl) (tt, tt)

device_read-Dangles_example :
    let m1 = (device_create_request 22 device_io_read 0 30 512 0 machine).1 in
    let (c, m2) = device_submit_request (gentle willing) 4 22 m1 in
    let returned = device_read (gentle willing) 22 4 0 30 512 machine in
    ((returned ≡ none) × (is_ok c ≡ true) × (is_pending (m2.requests 22).status ≡ true))
    ⊎ ((r : Code × Manager) × (returned ≡ some r) × Dangles 4 22 (20 ∷ 21 ∷ []) r.1)
device_read-Dangles_example =
    device_read-Dangles willing 22 4 0 30 512 machine (λ e. ground arith) (λ e. ground arith)
      (λ e. ground arith) (λ e. ground arith) refl refl

device_register-IsRegistry_example : IsRegistry (device_register (gentle willing) 5 machine).1
device_register-IsRegistry_example =
    device_register-IsRegistry willing 5 machine machine-IsRegistry (omega arith) (omega arith)

device_unregister-IsRegistry_example :
    IsRegistry (device_unregister (gentle willing) 4 machine).1
    × Answers 4 machine (device_unregister (gentle willing) 4 machine)
device_unregister-IsRegistry_example =
    device_unregister-IsRegistry willing 4 machine machine-IsRegistry (omega arith)

device_submit_request-Counted_example :
    let (c, m1) = device_submit_request (gentle willing) 4 22 machine in
    ((m1.devices 4).request_queue ≡ 22 ∷ 20 ∷ 21 ∷ []) × Counted (is_ok c) machine.stats m1.stats
device_submit_request-Counted_example =
    device_submit_request-Counted willing 4 22 machine (λ e. ground arith) (λ e. ground arith) refl
      refl
