-- ===== src/Drivers/Device/Listing.antt =====
-- kernel/drivers/device.c: the invariant of the list of devices, which device_register and
-- device_unregister keep, and what device_find_by_id finds.
use fg_os.Base.{
  ℕ, ◌==◌, ◌+◌, ◌^◌, ◌<◌, ◌≤◌, true, false, not, ◌||◌, ◌≡◌, ◌≢◌, ◌⊎◌, inl, inr, refl, sym, subst,
  ap, ◌∙◌, arith, List, [], ◌∷◌, length, All, add32, Bool-cases, if◌then◌else◌, if_false,
}
use fg_os.Drivers.Device.Types.{Manager, Device, init, supports}
use fg_os.Drivers.Device.Gentle.{Gentle, gentle}
use fg_os.Drivers.Device.Power.{operate}
use fg_os.Drivers.Device.Registry.{
  device_register, enlist, brought_up, validate_device, device_find_by_id, find_device,
}

abbrev pub Distinct : List ℕ → Type 0
Distinct [] = Unit
Distinct (p ∷ ps) = All (λ q. q ≢ p) ps × Distinct ps

module _ (P Q : ℕ → Type 0) where
  pub All-map : (l : List ℕ) → ((p : ℕ) → P p → Q p) → All P l → All Q l
  All-map [] f h = h
  All-map (p ∷ ps) f (h, hs) = (f p h, All-map ps f hs)

  pub All-both : (l : List ℕ) → All P l → All Q l → All (λ p. P p × Q p) l
  All-both [] h k = h
  All-both (p ∷ ps) (h, hs) (k, ks) = ((h, k), All-both ps hs ks)

abbrev pub IsListed : Manager → ℕ → Type 0
IsListed m p =
    (p ≢ 0) × ((m.devices p).registered ≡ true) × ((m.devices p).device_id < m.next_device_id)

-- The list holds registered devices, each once, with identifiers below the next one, and
-- total_devices is their number.
abbrev pub IsRegistry : Manager → Type 0
IsRegistry m =
    All (IsListed m) m.device_list
    × Distinct m.device_list
    × (m.stats.total_devices ≡ length m.device_list)

-- The list, the identifiers and the registrations are the same.
abbrev pub SameList : Manager → Manager → Type 0
SameList m m1 =
    (m1.device_list ≡ m.device_list)
    × (m1.next_device_id ≡ m.next_device_id)
    × (m1.initialized ≡ m.initialized)
    × (m1.stats.total_devices ≡ m.stats.total_devices)
    × ((q : ℕ)
        → ((m1.devices q).registered ≡ (m.devices q).registered)
          × ((m1.devices q).device_id ≡ (m.devices q).device_id))

pub SameList-IsRegistry : (m m1 : Manager) → SameList m m1 → IsRegistry m → IsRegistry m1
SameList-IsRegistry m m1 (l, i, o, t, same) (all, d, n) = rw l (
  All-map (IsListed m) _ m.device_list (λ p (a, b, c). (a, (same p).0 ∙ b, rw ((same p).1, i) c))
      all,
  d,
  t ∙ n,
)

module _ (g : Gentle) (device : ℕ) (m : Manager) where
  -- The driver's init, where there is one, and what its answer makes of the device.
  opened : Manager
  opened =
      if supports init device m
      then brought_up (gentle g) device (operate (gentle g) init device m)
      else m

  opened-same : SameList m opened
  unfolding opened brought_up
  opened-same = (ground arith, ground arith, ground arith, ground arith, λ q. ground arith)

  enlist-fields :
      let m1 = enlist (gentle g) device m in
      (m1.device_list ≡ device ∷ m.device_list)
      × (m1.next_device_id ≡ add32 m.next_device_id 1)
      × (m1.initialized ≡ m.initialized)
      × (m1.stats.total_devices ≡ add32 m.stats.total_devices 1)
      × ((m1.devices device).registered ≡ true)
      × ((m1.devices device).device_id ≡ m.next_device_id)
      × ((q : ℕ) → device ≢ q → m1.devices q ≡ m.devices q)
  unfolding enlist
  enlist-fields = (refl, refl, refl, refl, ground arith, ground arith, λ q other. ground arith)

-- device_register refuses the device and changes nothing, or the device has been added and opened.
register-cases :
    (g : Gentle) (device : ℕ) (m : Manager)
    → ((device_register (gentle g) device m).1 ≡ m)
      ⊎ ((device ≢ 0)
          × ((m.devices device).registered ≡ false)
          × ((device_register (gentle g) device m).1
              ≡ opened g device (enlist (gentle g) device m)))
unfolding device_register opened
register-cases g device m = elim (Bool-cases m.initialized) [
  | inr off ↦ inl (rw off refl)
  | inl on ↦ elim (Bool-cases (device == 0 || not (validate_device device m))) [
    | inl bad ↦ inl (rw (on, bad) refl)
    | inr good ↦ elim (Bool-cases (m.devices device).registered) [
      | inl known ↦ inl (rw (on, good, known) refl)
      | inr fresh ↦ inr (ground arith, fresh, rw (on, good, fresh) refl)
    ]
  ]
]

-- A device that keeps its record is listed still where the next identifier has not gone down.
IsListed-grows :
    (m m' : Manager) (p : ℕ)
    → IsListed m p
    → m'.devices p ≡ m.devices p
    → m.next_device_id ≤ m'.next_device_id
    → IsListed m' p
IsListed-grows m m' p (a, b, c) e up = (
  a,
  ap (λ (d : Device). d.registered) e ∙ b,
  rw (ap (λ (d : Device). d.device_id) e) (ground arith),
)

enlist-IsRegistry :
    (g : Gentle) (device : ℕ) (m : Manager)
    → IsRegistry m
    → m.next_device_id + 1 < 2 ^ 32
    → m.stats.total_devices + 1 < 2 ^ 32
    → device ≢ 0
    → (m.devices device).registered ≡ false
    → IsRegistry (enlist (gentle g) device m)
enlist-IsRegistry g device m (all, d, n) few_ids few some_device fresh =
    let (l, i, o, t, r, x, same) = enlist-fields g device m in
    let new : All (λ p. p ≢ device) m.device_list =
      All-map (IsListed m) _ m.device_list (λ p (a, b, c) e. ground arith) all in
    let old : All (IsListed (enlist (gentle g) device m)) m.device_list =
      All-map _ _ m.device_list
        (λ p ((a, b, c), other).
          let e = same p (λ z. other (sym z)) in
          IsListed-grows m (enlist (gentle g) device m) p (a, b, c) e (ground arith))
        (All-both (IsListed m) (λ p. p ≢ device) m.device_list all new) in
    rw l (((some_device, r, rw x (ground arith)), old), (new, d), ground arith)

-- For drivers that leave the framework's records alone, device_register keeps the invariant of the
-- list of devices, whether it answers 0 or refuses the device, as long as neither the next identifier
-- nor the number of devices reaches 2 ^ 32 by it.
pub device_register-IsRegistry :
    (g : Gentle) (device : ℕ) (m : Manager)
    → IsRegistry m
    → m.next_device_id + 1 < 2 ^ 32
    → m.stats.total_devices + 1 < 2 ^ 32
    → IsRegistry (device_register (gentle g) device m).1
device_register-IsRegistry g device m h few_ids few =
    let m1 = enlist (gentle g) device m in
    elim (register-cases g device m) [
      | inl e ↦ subst IsRegistry (sym e) h
      | inr (some_device, fresh, e) ↦ subst IsRegistry (sym e) (
          SameList-IsRegistry m1 (opened g device m1) (opened-same g device m1)
            (enlist-IsRegistry g device m h few_ids few some_device fresh))
    ]

find-same :
    (l : List ℕ) (id : ℕ) (m m' : Manager)
    → All (λ p. (m'.devices p).device_id ≡ (m.devices p).device_id) l
    → find_device l id m' ≡ find_device l id m
unfolding find_device
find-same [] id m m' h = refl
find-same (p ∷ ps) id m m' (h, hs) = rw (h, find-same ps id m m' hs) refl

register-opened :
    (g : Gentle) (device : ℕ) (m : Manager)
    → m.initialized ≡ true
    → device ≢ 0
    → validate_device device m ≡ true
    → (m.devices device).registered ≡ false
    → (device_register (gentle g) device m).1 ≡ opened g device (enlist (gentle g) device m)
unfolding device_register opened
register-opened g device m on some_device sound fresh =
    let good : (device == 0 || not (validate_device device m)) ≡ false = ground arith in
    rw (on, good, fresh) refl

found :
    (id : ℕ) (m : Manager)
    → m.initialized ≡ true
    → device_find_by_id id m ≡ find_device m.device_list id m
unfolding device_find_by_id
found id m on = if_false (not m.initialized) _ _ (ap not on)

find-opened :
    (g : Gentle) (device id : ℕ) (m : Manager)
    → IsRegistry m
    → m.initialized ≡ true
    → (m.devices device).registered ≡ false
    → device_find_by_id id (opened g device (enlist (gentle g) device m))
      ≡ (if m.next_device_id == id then device else device_find_by_id id m)
unfolding find_device
find-opened g device id m (all, d, n) on fresh =
    let m1 = enlist (gentle g) device m in
    let m2 = opened g device m1 in
    let (l, i, o, t, r, x, same) = enlist-fields g device m in
    let (l2, i2, o2, t2, same2) = opened-same g device m1 in
    let ids : All (λ p. (m2.devices p).device_id ≡ (m.devices p).device_id) m.device_list =
      All-map (IsListed m) _ m.device_list
        (λ p (a, b, c). (same2 p).1 ∙ ap (λ (y : Device). y.device_id) (same p (λ e. ground arith)))
        all in
    found id m2 (o2 ∙ o ∙ on)
    ∙ ap (λ (ps : List ℕ). find_device ps id m2) (l2 ∙ l)
    ∙ ap (λ (i1 : ℕ). if i1 == id then device else find_device m.device_list id m2)
        ((same2 device).1 ∙ x)
    ∙ ap (λ (p : ℕ). if m.next_device_id == id then device else p)
        (find-same m.device_list id m m2 ids ∙ sym (found id m on))

-- For drivers that leave the framework's records alone: after a valid device that was not registered
-- has been registered, device_find_by_id finds it under the identifier that was next, and finds
-- under every other identifier what it found before.
pub device_find_by_id-device_register :
    (g : Gentle) (device id : ℕ) (m : Manager)
    → IsRegistry m
    → m.initialized ≡ true
    → device ≢ 0
    → validate_device device m ≡ true
    → (m.devices device).registered ≡ false
    → device_find_by_id id (device_register (gentle g) device m).1
      ≡ (if m.next_device_id == id then device else device_find_by_id id m)
device_find_by_id-device_register g device id m h on some_device sound fresh =
    ap (device_find_by_id id) (register-opened g device m on some_device sound fresh)
    ∙ find-opened g device id m h on fresh
