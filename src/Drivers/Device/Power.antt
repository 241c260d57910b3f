-- ===== src/Drivers/Device/Power.antt =====
-- kernel/drivers/device.c: starting, stopping, resetting, suspending and resuming a device.
use fg_os.Base.{ℕ, Bool, not, ◌&&◌, ◌||◌, ◌==◌, if◌then◌else◌, add32, bit_and}
use fg_os.Base.Int.{ℤ}
use fg_os.Drivers.Device.Types.{
  Env, Manager, Code, value, failed, ok, is_zero, einval, enosys, Op, start, stop, reset, suspend,
  resume, set_device, supports, device_state_ready, device_state_busy, device_state_error,
  device_state_suspended, device_cap_suspend,
}
use fg_os.Drivers.Device.Stats.{decrement}

-- if (device_manager.stats.n > 0) device_manager.stats.n--, and so on, for the counters by state.
abbrev pub one_more_active : Manager → Manager
one_more_active m = record m {
  stats = record m.stats { active_devices = add32 m.stats.active_devices 1 };
}

abbrev one_less_active : Manager → Manager
one_less_active m = record m {
  stats = record m.stats { active_devices = decrement m.stats.active_devices };
}

abbrev pub one_more_failed : Manager → Manager
one_more_failed m = record m {
  stats = record m.stats { failed_devices = add32 m.stats.failed_devices 1 };
}

abbrev one_more_suspended : Manager → Manager
one_more_suspended m = record m {
  stats = record m.stats { suspended_devices = add32 m.stats.suspended_devices 1 };
}

abbrev one_less_suspended : Manager → Manager
one_less_suspended m = record m {
  stats = record m.stats { suspended_devices = decrement m.stats.suspended_devices };
}

abbrev pub put_state : (device state : ℕ) → Manager → Manager
put_state device state m = set_device device (record (m.devices device) { state = state }) m

-- !device || !device->registered
abbrev pub absent : (device : ℕ) → Manager → Bool
absent device m = device == 0 || not (m.devices device).registered

-- What each function does once the driver's operation has answered.
unfoldable pub started : (device : ℕ) → ℤ × Manager → Code × Manager
started device (result, m) = (
  value result,
  if is_zero result
      then one_more_active (put_state device device_state_ready m)
      else one_more_failed (put_state device device_state_error m),
)

unfoldable pub stopped : (device : ℕ) → ℤ × Manager → Code × Manager
stopped device (result, m) = (
  value result,
  if is_zero result
      then one_more_suspended (one_less_active (put_state device device_state_suspended m))
      else m,
)

unfoldable pub was_reset : (device : ℕ) → ℤ × Manager → Code × Manager
was_reset device (result, m) = (
  value result,
  put_state device (if is_zero result then device_state_ready else device_state_error) m,
)

unfoldable pub resumed : (device : ℕ) → ℤ × Manager → Code × Manager
resumed device (result, m) = (
  value result,
  if is_zero result
      then one_less_suspended (one_more_active (put_state device device_state_ready m))
      else m,
)

-- device->driver->ops.op(device)
abbrev pub operate : Env → Op → (device : ℕ) → Manager → ℤ × Manager
operate env op device m = env.call op (m.devices device).driver device 0 0 m

module _ (env : Env) where
  unfoldable pub device_start : (device : ℕ) → Manager → Code × Manager
  unfolding started
  device_start device m =
      let state = (m.devices device).state in
      if absent device m
      then (failed einval, m)
      else if state == device_state_ready
      then (ok, m)
      else if not (state == device_state_ready) && not (state == device_state_suspended)
      then (failed einval, m)
      else if supports start device m
      then started device (operate env start device m)
      else (failed enosys, m)

  unfoldable pub device_stop : (device : ℕ) → Manager → Code × Manager
  unfolding stopped
  device_stop device m =
      let state = (m.devices device).state in
      if absent device m
      then (failed einval, m)
      else if not (state == device_state_ready) && not (state == device_state_busy)
      then (ok, m)
      else if supports stop device m
      then stopped device (operate env stop device m)
      else (failed enosys, m)

  unfoldable pub device_reset : (device : ℕ) → Manager → Code × Manager
  unfolding was_reset
  device_reset device m =
      if absent device m
      then (failed einval, m)
      else if supports reset device m
      then was_reset device (operate env reset device m)
      else (failed enosys, m)

  unfoldable pub device_suspend : (device : ℕ) → Manager → Code × Manager
  unfolding stopped
  device_suspend device m =
      if absent device m
      then (failed einval, m)
      else if (m.devices device).state == device_state_suspended
      then (ok, m)
      else if bit_and (m.devices device).capabilities device_cap_suspend == 0
      then (failed enosys, m)
      else if supports suspend device m
      then stopped device (operate env suspend device m)
      else (failed enosys, m)

  unfoldable pub device_resume : (device : ℕ) → Manager → Code × Manager
  unfolding resumed
  device_resume device m =
      if absent device m
      then (failed einval, m)
      else if not ((m.devices device).state == device_state_suspended)
      then (failed einval, m)
      else if supports resume device m
      then resumed device (operate env resume device m)
      else (failed enosys, m)
