-- ===== src/Drivers/Device/References.antt =====
-- kernel/drivers/device.c: the reference count of a driver, and what keeps a driver registered.
use fg_os.Base.{ℕ, ◌^◌, ◌-◌, true, ◌≡◌, ◌≢◌, refl, ◌∙◌, arith, Option, none, some, List, sub32}
use fg_os.Drivers.Device.Types.{Manager, remove, supports, failed, ebusy}
use fg_os.Drivers.Device.Gentle.{Gentle, gentle}
use fg_os.Drivers.Device.Power.{device_stop, stopped}
use fg_os.Drivers.Device.DriverList.{remove_link, device_driver_unregister}
use fg_os.Drivers.Device.Registry.{device_unregister, detach, halt, unhook, delist}

-- What halt and unhook leave alone.
halt-drivers :
    (g : Gentle) (device : ℕ) (m : Manager)
    → let m1 = halt (gentle g) device m in
      (m1.drivers ≡ m.drivers)
      × (m1.initialized ≡ m.initialized)
      × ((m1.devices device).driver ≡ (m.devices device).driver)
unfolding halt device_stop stopped
halt-drivers g device m = ground arith

unhook-drivers :
    (g : Gentle) (device : ℕ) (l : Option (List ℕ)) (m : Manager)
    → let m1 = (unhook (gentle g) device l m).1 in
      (m1.drivers ≡ m.drivers) × (m1.initialized ≡ m.initialized)
unfolding unhook delist
unhook-drivers g device none m = (refl, refl)
unhook-drivers g device (some rest) m = ground arith

detach-count :
    (g : Gentle) (device : ℕ) (m : Manager)
    → supports remove device m ≡ true
    → let m1 = detach (gentle g) device m in
      ((m1.drivers (m.devices device).driver).reference_count
        ≡ sub32 (m.drivers (m.devices device).driver).reference_count 1)
      × (m1.initialized ≡ m.initialized)
unfolding detach
detach-count g device m able = ground arith

refused_busy :
    (driver : ℕ) (m : Manager)
    → m.initialized ≡ true
    → driver ≢ 0
    → (m.drivers driver).reference_count ≡ 2 ^ 32 - 1
    → device_driver_unregister driver m ≡ (failed ebusy, m)
unfolding device_driver_unregister
refused_busy driver m on some_driver count = ground arith

-- Past its guard, device_unregister is the search for the link.
device_unregister-unhook :
    (g : Gentle) (device : ℕ) (m : Manager)
    → m.initialized ≡ true
    → device ≢ 0
    → (m.devices device).registered ≡ true
    → let m2 = detach (gentle g) device (halt (gentle g) device m) in
      device_unregister (gentle g) device m
      ≡ unhook (gentle g) device (remove_link device m2.device_list) m2
unfolding device_unregister
device_unregister-unhook g device m on some_device known = ground arith

-- A driver with a remove operation whose reference count is 0, as device_driver_register leaves it
-- (and no function increments it): once a registered device of the driver has been unregistered,
-- device_driver_unregister refuses the driver as busy and changes nothing.
pub device_driver_unregister-device_unregister :
    (g : Gentle) (device : ℕ) (m : Manager)
    → m.initialized ≡ true
    → device ≢ 0
    → (m.devices device).registered ≡ true
    → supports remove device m ≡ true
    → (m.drivers (m.devices device).driver).reference_count ≡ 0
    → let m1 = (device_unregister (gentle g) device m).1 in
      device_driver_unregister (m.devices device).driver m1 ≡ (failed ebusy, m1)
device_driver_unregister-device_unregister g device m on some_device known able count =
    let m1 = halt (gentle g) device m in
    let m2 = detach (gentle g) device m1 in
    let h = halt-drivers g device m in
    let d = detach-count g device m1 (ground arith) in
    let u = unhook-drivers g device (remove_link device m2.device_list) m2 in
    rw (device_unregister-unhook g device m on some_device known) (
      refused_busy (m.devices device).driver _ (u.1 ∙ d.1 ∙ h.1 ∙ on) (ground arith) (ground arith))
