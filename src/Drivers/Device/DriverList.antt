-- ===== src/Drivers/Device/DriverList.antt =====
-- kernel/drivers/device.c: the list of drivers.
use fg_os.Base.{
  ℕ, Bool, true, false, not, ◌&&◌, ◌||◌, ltb, ◌==◌, if◌then◌else◌, add32, sub32, Option, none, some,
  List, [], ◌∷◌, length,
}
use fg_os.Drivers.Device.Types.{
  Manager, Code, failed, ok, enotinit, einval, eexist, ebusy, enoent, probe, init, read, write,
  ioctl, set_driver,
}

-- strcmp(a, b) == 0
abbrev text_eq : List ℕ → List ℕ → Bool
text_eq [] [] = true
text_eq [] (b ∷ bs) = false
text_eq (a ∷ as_) [] = false
text_eq (a ∷ as_) (b ∷ bs) = a == b && text_eq as_ bs

-- Takes the first link to p out of a list.
abbrev pub remove_link : ℕ → List ℕ → Option (List ℕ)
remove_link p [] = none
remove_link p (q ∷ qs) =
    if q == p
    then some qs
    else elim (remove_link p qs) [ none ↦ none | some rest ↦ some (q ∷ rest) ]

validate_driver : (driver : ℕ) → Manager → Bool
validate_driver driver m =
    let d = m.drivers driver in
    if driver == 0
    then false
    else if length d.name == 0
    then false
    else if length d.version == 0
    then false
    else d.ops probe || d.ops init || d.ops read || d.ops write || d.ops ioctl

-- The first driver of the list with the name, or NULL.
find_driver : List ℕ → (name : List ℕ) → Manager → ℕ
find_driver [] name m = 0
find_driver (d ∷ ds) name m = if text_eq (m.drivers d).name name then d else find_driver ds name m

-- A NULL name is `none`.
pub device_driver_find : Option (List ℕ) → Manager → ℕ
unfolding find_driver
device_driver_find none m = 0
device_driver_find (some name) m = if not m.initialized then 0 else find_driver m.driver_list name m

pub device_driver_register : (driver : ℕ) → Manager → Code × Manager
unfolding validate_driver device_driver_find
device_driver_register driver m =
    if not m.initialized
    then (failed enotinit, m)
    else if driver == 0 || not (validate_driver driver m)
    then (failed einval, m)
    else if not (device_driver_find (some (m.drivers driver).name) m == 0)
    then (failed eexist, m)
    else (
      ok,
      record (set_driver driver (record (m.drivers driver) { loaded = true; reference_count = 0 })
          m) {
            driver_list = driver ∷ m.driver_list;
            stats = record m.stats {
              total_drivers = add32 m.stats.total_drivers 1;
              active_drivers = add32 m.stats.active_drivers 1;
            };
          },
    )

unfoldable pub device_driver_unregister : (driver : ℕ) → Manager → Code × Manager
device_driver_unregister driver m =
    if not m.initialized || driver == 0
    then (failed einval, m)
    else if ltb 0 (m.drivers driver).reference_count
    then (failed ebusy, m)
    else elim (remove_link driver m.driver_list) [
      | none ↦ (failed enoent, m)
      | some rest ↦ (
        ok,
        record (set_driver driver (record (m.drivers driver) { loaded = false }) m) {
          driver_list = rest;
          stats = record m.stats { active_drivers = sub32 m.stats.active_drivers 1 };
        },
      )
    ]
