-- ===== src/Drivers/Device/Stats.antt =====
-- kernel/drivers/device.c: the statistics of a device and of the manager, and the capabilities.
use fg_os.Base.{
  ℕ, ◌+◌, ◌*◌, ◌/◌, ◌%◌, ◌^◌, Bool, true, false, not, ◌||◌, ltb, leb, ◌==◌, if◌then◌else◌, add64,
  sub64, add32, sub32, Option, none, some, bit_and,
}
use fg_os.Drivers.Device.Types.{
  Env, Manager, DeviceStats, Request, ManagerStats, no_stats, set_device, is_success, is_timeout,
  device_state_unknown, device_state_ready, device_state_error, device_state_suspended,
  device_state_max, device_io_read, device_io_write, device_io_control,
}

-- x - 1 where the code tests x > 0 first.
abbrev pub decrement : ℕ → ℕ
decrement n = if ltb 0 n then sub32 n 1 else n

-- The answer is `clock m.readings`.
abbrev pub read_clock : Manager → Manager
read_clock m = record m { readings = m.readings + 1 }

-- The counters by the kind of the request.
count_kind : Request → DeviceStats → DeviceStats
count_kind r t =
    if r.kind == device_io_read
    then record t {
      requests_read = add64 t.requests_read 1;
      bytes_read = if is_success r.status then add64 t.bytes_read r.size else t.bytes_read;
    }
    else if r.kind == device_io_write
    then record t {
      requests_write = add64 t.requests_write 1;
      bytes_written = if is_success r.status then add64 t.bytes_written r.size else t.bytes_written;
    }
    else if r.kind == device_io_control
    then record t { requests_control = add64 t.requests_control 1 }
    else t

-- The counters by the status of the request.
count_status : Request → DeviceStats → DeviceStats
count_status r t =
    let u =
      if is_success r.status
      then record t { requests_successful = add64 t.requests_successful 1 }
      else record t {
        requests_failed = add64 t.requests_failed 1;
        errors_total = add64 t.errors_total 1;
      } in
    if is_timeout r.status then record u { requests_timeout = add64 u.requests_timeout 1 } else u

-- The largest and the average request time, in microseconds. The average is computed on uint32_t.
count_time : (time : ℕ) → DeviceStats → DeviceStats
count_time time t =
    let us = time * 1000 % 2 ^ 32 in
    record t {
      max_request_time_us = if ltb t.max_request_time_us us then us else t.max_request_time_us;
      avg_request_time_us =
          if t.requests_total == 1 then us else add32 t.avg_request_time_us us / 2;
    }

module _ (env : Env) where
  unfoldable pub update_device_stats : (device request : ℕ) → Manager → Manager
  unfolding count_kind count_status count_time
  update_device_stats device request m =
      if device == 0 || request == 0
      then m
      else let r = m.requests request in
        let d = m.devices device in
        let t = record d.stats { requests_total = add64 d.stats.requests_total 1 } in
        read_clock (
          set_device device
            (record d {
              stats =
                  count_time (sub64 (env.clock m.readings) r.timestamp)
                    (count_status r (count_kind r t));
            })
            m)

  -- Answers whether there is a device, whose statistics these are.
  pub device_get_stats : (device : ℕ) → Manager → Option DeviceStats × Manager
  device_get_stats device m =
      if device == 0
      then (none, m)
      else let d = m.devices device in
        let t = record d.stats { uptime_ms = sub64 (env.clock m.readings) d.created_time } in
        (
          some t,
          read_clock (
              read_clock (
                set_device device
                  (record d { stats = t; last_access_time = env.clock (m.readings + 1) }) m)),
        )

  -- A reading of the clock is the time of the last access to the device.
  unfoldable pub touch : (device : ℕ) → Manager → Manager
  touch device m =
      read_clock (
        set_device device (record (m.devices device) { last_access_time = env.clock m.readings }) m)

  pub device_get_info : (device : ℕ) → Manager → Bool × Manager
  unfolding touch
  device_get_info device m = if device == 0 then (false, m) else (true, touch device m)

  pub device_get_state : (device : ℕ) → Manager → ℕ × Manager
  unfolding touch
  device_get_state device m =
      if device == 0 then (device_state_unknown, m) else ((m.devices device).state, touch device m)

pub device_get_manager_stats : Manager → Option ManagerStats
device_get_manager_stats m = if m.initialized then some m.stats else none

pub device_reset_stats : (device : ℕ) → Manager → Manager
device_reset_stats device m =
    if device == 0 then m else set_device device (record (m.devices device) { stats = no_stats }) m

pub device_has_capability : (device capability : ℕ) → Manager → Bool
device_has_capability device capability m =
    if device == 0 then false else not (bit_and (m.devices device).capabilities capability == 0)

-- The counters of the devices by state, for a change of state.
count_states : (old new : ℕ) → ManagerStats → ManagerStats
count_states old new t = record t {
  active_devices =
      if old == device_state_ready
      then (if new == device_state_ready then t.active_devices else decrement t.active_devices)
      else (if new == device_state_ready then add32 t.active_devices 1 else t.active_devices);
  failed_devices =
      if new == device_state_error
      then add32 t.failed_devices 1
      else if old == device_state_error
      then decrement t.failed_devices
      else t.failed_devices;
  suspended_devices =
      if new == device_state_suspended
      then add32 t.suspended_devices 1
      else if old == device_state_suspended
      then decrement t.suspended_devices
      else t.suspended_devices;
}

pub device_set_state : Env → (device state : ℕ) → Manager → Manager
unfolding count_states touch
device_set_state env device state m =
    if device == 0 || leb device_state_max state
    then m
    else let old_state = (m.devices device).state in
      let m1 =
        touch env device (set_device device (record (m.devices device) { state = state }) m) in
      record m1 { stats = count_states old_state state m1.stats }
