-- ===== src/Drivers/Device/Registry.antt =====
-- kernel/drivers/device.c: the list of devices, and the framework as a whole.
use fg_os.Base.{
  ℕ, zero, suc, Bool, true, false, not, ◌||◌, leb, ◌==◌, if◌then◌else◌, add32, sub32, Option, none,
  some, List, [], ◌∷◌, length,
}
use fg_os.Base.Int.{ℤ}
use fg_os.Drivers.Device.Types.{
  Env, Manager, ManagerStats, Code, failed, ok, is_zero, enotinit, einval, eexist, enoent, init,
  remove, set_device, set_driver, supports, no_stats, device_type_max, device_state_initializing,
  device_state_ready, device_state_busy, device_state_error, device_state_removed,
}
use fg_os.Drivers.Device.DriverList.{remove_link, device_driver_unregister}
use fg_os.Drivers.Device.Stats.{read_clock}
use fg_os.Drivers.Device.Power.{one_more_active, one_more_failed, put_state, operate, device_stop}

abbrev pub empty_stats : ManagerStats
empty_stats = record {
  total_devices = 0;
  active_devices = 0;
  failed_devices = 0;
  suspended_devices = 0;
  total_drivers = 0;
  active_drivers = 0;
  total_requests = 0;
  pending_requests = 0;
  completed_requests = 0;
  failed_requests = 0;
  devices_by_type = λ t. 0;
}

pub device_init : Manager → Code × Manager
device_init m = if m.initialized then (ok, m) else (
  ok,
  record m {
    device_list = [];
    driver_list = [];
    stats = empty_stats;
    next_device_id = 1;
    next_request_id = 1;
    initialized = true;
  },
)

unfoldable pub validate_device : (device : ℕ) → Manager → Bool
validate_device device m =
    if device == 0
    then false
    else if leb device_type_max (m.devices device).kind
    then false
    else not (length (m.devices device).name == 0)

abbrev set_count : (kind n : ℕ) → (ℕ → ℕ) → ℕ → ℕ
set_count kind n f k = if kind == k then n else f k

-- The first device of the list with the id, or NULL.
unfoldable pub find_device : List ℕ → (id : ℕ) → Manager → ℕ
find_device [] id m = 0
find_device (d ∷ ds) id m = if (m.devices d).device_id == id then d else find_device ds id m

unfoldable pub device_find_by_id : (id : ℕ) → Manager → ℕ
unfolding find_device
device_find_by_id id m = if not m.initialized then 0 else find_device m.device_list id m

-- The devices of one type, at most n of them.
find_kind : List ℕ → (kind n : ℕ) → Manager → List ℕ
find_kind [] kind n m = []
find_kind (d ∷ ds) kind zero m = []
find_kind (d ∷ ds) kind (suc n) m = elim ((m.devices d).kind == kind) [
  | true ↦ d ∷ find_kind ds kind n m
  | false ↦ find_kind ds kind (suc n) m
]

-- The entries that the array gets; their number is the answer. The array is NULL or not.
pub device_find_by_type : (kind : ℕ) → (array : Bool) → (max_devices : ℕ) → Manager → List ℕ
unfolding find_kind
device_find_by_type kind array max_devices m =
    if not m.initialized || not array || max_devices == 0
    then []
    else find_kind m.device_list kind max_devices m

module _ (env : Env) where
  -- The device gets its number and heads the list.
  unfoldable pub enlist : (device : ℕ) → Manager → Manager
  enlist device m =
      let d = m.devices device in
      let now = env.clock m.readings in
      record (read_clock (
        set_device device
          (record d {
            device_id = m.next_device_id;
            created_time = now;
            last_access_time = now;
            state = device_state_initializing;
            stats = no_stats;
            registered = true;
          })
          m)) {
            next_device_id = add32 m.next_device_id 1;
            device_list = device ∷ m.device_list;
            stats = record m.stats {
              total_devices = add32 m.stats.total_devices 1;
              devices_by_type =
                  set_count d.kind (add32 (m.stats.devices_by_type d.kind) 1)
                    m.stats.devices_by_type;
            };
          }

  -- What the answer of the driver's init makes of the device.
  unfoldable pub brought_up : (device : ℕ) → ℤ × Manager → Manager
  brought_up device (result, m) =
      if is_zero result
      then one_more_active (put_state device device_state_ready m)
      else one_more_failed (put_state device device_state_error m)

  unfoldable pub device_register : (device : ℕ) → Manager → Code × Manager
  unfolding validate_device enlist brought_up
  device_register device m =
      if not m.initialized
      then (failed enotinit, m)
      else if device == 0 || not (validate_device device m)
      then (failed einval, m)
      else if (m.devices device).registered
      then (failed eexist, m)
      else let m1 = enlist device m in
        (ok, if supports init device m1 then brought_up device (operate env init device m1) else m1)

  -- device->driver->reference_count--
  abbrev drop_reference : (device : ℕ) → Manager → Manager
  drop_reference device m =
      let driver = (m.devices device).driver in
      let d = m.drivers driver in
      set_driver driver (record d { reference_count = sub32 d.reference_count 1 }) m

  -- if (device->driver && device->driver->ops.remove) { remove(device); reference_count--; }
  unfoldable pub detach : (device : ℕ) → Manager → Manager
  detach device m =
      if supports remove device m then drop_reference device (operate env remove device m).1 else m

  -- The device has been taken out of the list; the code looks at its state after it has set it.
  unfoldable pub delist : (device : ℕ) → (rest : List ℕ) → Manager → Manager
  delist device rest m =
      let d = record (m.devices device) { registered = false; state = device_state_removed } in
      let t = record m.stats {
        total_devices = sub32 m.stats.total_devices 1;
        devices_by_type =
            set_count d.kind (sub32 (m.stats.devices_by_type d.kind) 1) m.stats.devices_by_type;
      } in
      let m1 = record (set_device device d m) { device_list = rest; stats = t } in
      if d.state == device_state_ready
      then record m1 { stats = record t { active_devices = sub32 t.active_devices 1 } }
      else if d.state == device_state_error
      then record m1 { stats = record t { failed_devices = sub32 t.failed_devices 1 } }
      else m1

  -- A device that runs is stopped.
  unfoldable pub halt : (device : ℕ) → Manager → Manager
  halt device m =
      let state = (m.devices device).state in
      if state == device_state_ready || state == device_state_busy
      then (device_stop env device m).1
      else m

  -- What the search for the link to the device leads to.
  unfoldable pub unhook : (device : ℕ) → Option (List ℕ) → Manager → Code × Manager
  unfolding delist
  unhook device none m = (failed enoent, m)
  unhook device (some rest) m = (ok, delist device rest m)

  unfoldable pub device_unregister : (device : ℕ) → Manager → Code × Manager
  unfolding detach halt unhook
  device_unregister device m =
      if not m.initialized || device == 0 || not (m.devices device).registered
      then (failed einval, m)
      else (let m1 = detach device (halt device m) in
          unhook device (remove_link device m1.device_list) m1)

  -- The loops of device_shutdown save the next entry before they remove one.
  remove_devices : List ℕ → Manager → Manager
  unfolding device_unregister
  remove_devices [] m = m
  remove_devices (d ∷ ds) m = remove_devices ds (device_unregister d (device_stop env d m).1).1

  remove_drivers : List ℕ → Manager → Manager
  unfolding device_driver_unregister
  remove_drivers [] m = m
  remove_drivers (d ∷ ds) m = remove_drivers ds (device_driver_unregister d m).1

  pub device_shutdown : Manager → Manager
  unfolding remove_devices remove_drivers
  device_shutdown m =
      if not m.initialized
      then m
      else let m1 = remove_devices m.device_list m in
        let m2 = remove_drivers m1.driver_list m1 in record m2 { initialized = false }

-- The loop of device_enumerate, for a callback that leaves the links between the devices alone.
visit : (callback : ℕ → Manager → Manager) → List ℕ → Manager → Manager
visit callback [] m = m
visit callback (d ∷ ds) m = visit callback ds (callback d m)

-- A NULL callback is `none`; user_data is a part of the callback.
pub device_enumerate : Option (ℕ → Manager → Manager) → Manager → Manager
unfolding visit
device_enumerate none m = m
device_enumerate (some callback) m = if m.initialized then visit callback m.device_list m else m
