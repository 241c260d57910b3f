-- ===== src/Drivers/Device/Counters.antt =====
-- kernel/drivers/device.c: the counters of the devices and of the requests.
use fg_os.Base.{
  ℕ, ◌<◌, ◌^◌, true, false, ◌≡◌, refl, Option, none, some, ◌∙◌, arith, List, add32, sub32,
}
use fg_os.Base.Int.{pos}
use fg_os.Drivers.Device.Types.{
  Manager, Op, start, stop, is_ok, supports, device_state_ready, device_state_suspended,
  device_state_removed,
}
use fg_os.Drivers.Device.Stats.{decrement}
use fg_os.Drivers.Device.Gentle.{Gentle, gentle}
use fg_os.Drivers.Device.Power.{device_start, device_stop, started, stopped, absent}
use fg_os.Drivers.Device.DriverList.{remove_link}
use fg_os.Drivers.Device.Registry.{device_unregister, detach, halt, unhook, delist}

-- The operation of the driver answers 0.
abbrev Succeeds : Gentle → Op → (device : ℕ) → Manager → Type 0
Succeeds g op device m = g.reply op (m.devices device).driver device 0 0 m ≡ pos 0

module _ (g : Gentle) (device : ℕ) (m : Manager) (here : absent device m ≡ false)
    (ready : (m.devices device).state ≡ device_state_ready) (stops : supports stop device m ≡ true)
    (stopped_well : Succeeds g stop device m) where
  m1 : Manager
  m1 = (device_stop (gentle g) device m).1

  after_stop :
      (absent device m1 ≡ false)
      × ((m1.devices device).state ≡ device_state_suspended)
      × (supports start device m1 ≡ supports start device m)
      × (m1.stats.active_devices ≡ decrement m.stats.active_devices)
      × (m1.stats.suspended_devices ≡ add32 m.stats.suspended_devices 1)
  unfolding m1 device_stop stopped
  after_stop = ground arith

module _ (g : Gentle) (device : ℕ) (m : Manager) (here : absent device m ≡ false)
    (suspended : (m.devices device).state ≡ device_state_suspended)
    (starts : supports start device m ≡ true) (started_well : Succeeds g start device m) where
  after_start :
      let m1 = (device_start (gentle g) device m).1 in
      ((m1.devices device).state ≡ device_state_ready)
      × (m1.stats.active_devices ≡ add32 m.stats.active_devices 1)
      × (m1.stats.suspended_devices ≡ m.stats.suspended_devices)
  unfolding device_start started
  after_start = ground arith

-- A READY device that is stopped and started again, where both operations of the driver succeed, is
-- READY, and the number of active devices (at least 1, since the device is one, and below 2 ^ 32) is
-- as before; the number of suspended devices has grown by one (modulo 2 ^ 32), although no device has
-- been suspended that was not before.
pub device_start-device_stop :
    (g : Gentle) (device : ℕ) (m : Manager)
    → absent device m ≡ false
    → (m.devices device).state ≡ device_state_ready
    → supports stop device m ≡ true
    → supports start device m ≡ true
    → Succeeds g stop device m
    → let m1 = (device_stop (gentle g) device m).1 in
      Succeeds g start device m1
      → 0 < m.stats.active_devices
      → m.stats.active_devices < 2 ^ 32
      → let m2 = (device_start (gentle g) device m1).1 in
        ((m2.devices device).state ≡ device_state_ready)
        × (m2.stats.active_devices ≡ m.stats.active_devices)
        × (m2.stats.suspended_devices ≡ add32 m.stats.suspended_devices 1)
unfolding m1
device_start-device_stop g device m here ready stops starts stop_well start_well any few =
    let (h, s, b, a, n) = after_stop g device m here ready stops stop_well in
    let (s2, a2, n2) =
      after_start g device (m1 g device m here ready stops stop_well) h s (b ∙ starts) start_well in
    (s2, a2 ∙ rw a (ground arith), n2 ∙ n)

detach-same :
    (g : Gentle) (device : ℕ) (m : Manager)
    → let m1 = detach (gentle g) device m in
      (m1.stats ≡ m.stats) × (m1.devices ≡ m.devices) × (m1.device_list ≡ m.device_list)
unfolding detach
detach-same g device m = ground arith

delist-counts :
    (g : Gentle) (device : ℕ) (rest : List ℕ) (m : Manager)
    → let m1 = delist (gentle g) device rest m in
      (m1.stats.failed_devices ≡ m.stats.failed_devices)
      × (m1.stats.total_devices ≡ sub32 m.stats.total_devices 1)
      × ((m1.devices device).state ≡ device_state_removed)
      × ((m1.devices device).registered ≡ false)
unfolding delist
delist-counts g device rest m = ground arith

stop-counts :
    (g : Gentle) (device : ℕ) (m : Manager)
    → let m1 = (device_stop (gentle g) device m).1 in
      (m1.stats.failed_devices ≡ m.stats.failed_devices)
      × (m1.stats.total_devices ≡ m.stats.total_devices)
      × (m1.device_list ≡ m.device_list)
unfolding device_stop stopped
stop-counts g device m = ground arith

halt-counts :
    (g : Gentle) (device : ℕ) (m : Manager)
    → let m1 = halt (gentle g) device m in
      (m1.stats.failed_devices ≡ m.stats.failed_devices)
      × (m1.stats.total_devices ≡ m.stats.total_devices)
unfolding halt device_stop stopped
halt-counts g device m = ground arith

unhook-counts :
    (g : Gentle) (device : ℕ) (l : Option (List ℕ)) (m : Manager)
    → let r = unhook (gentle g) device l m in
      (r.1.stats.failed_devices ≡ m.stats.failed_devices)
      × (is_ok r.0 ≡ true
          → ((r.1.devices device).state ≡ device_state_removed)
            × ((r.1.devices device).registered ≡ false)
            × (r.1.stats.total_devices ≡ sub32 m.stats.total_devices 1))
unfolding unhook delist
unhook-counts g device none m = (refl, λ h. ground arith)
unhook-counts g device (some rest) m =
    let (f, t, s, r) = delist-counts g device rest m in (f, λ h. (s, r, t))

-- For drivers that leave the framework's records alone, device_unregister never changes the number of
-- failed devices, whatever state the device is in, ERROR included; and where it answers 0, the device
-- is REMOVED and no longer registered, and the number of devices is one less (modulo 2 ^ 32).
device_unregister-failed :
    (g : Gentle) (device : ℕ) (m : Manager)
    → let r = device_unregister (gentle g) device m in
      (r.1.stats.failed_devices ≡ m.stats.failed_devices)
      × (is_ok r.0 ≡ true
          → ((r.1.devices device).state ≡ device_state_removed)
            × ((r.1.devices device).registered ≡ false)
            × (r.1.stats.total_devices ≡ sub32 m.stats.total_devices 1))
unfolding device_unregister
device_unregister-failed g device m =
    let h = halt-counts g device m in
    let m1 = detach (gentle g) device (halt (gentle g) device m) in
    let d = detach-same g device (halt (gentle g) device m) in
    let l = unhook-counts g device (remove_link device m1.device_list) m1 in ground arith
