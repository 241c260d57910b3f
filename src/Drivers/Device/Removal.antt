-- ===== src/Drivers/Device/Removal.antt =====
-- kernel/drivers/device.c: what device_unregister does to the list of devices, and the
-- invariant of the list.
use fg_os.Base.{
  ℕ, ◌==◌, ◌^◌, ◌<◌, Bool, true, false, not, ◌||◌, ◌≡◌, ◌≢◌, ◌⊎◌, inl, inr, refl, sym, subst, ap,
  ◌∙◌, arith, Option, none, some, List, ◌∷◌, ◌++◌, All, sub32, Bool-cases,
}
use fg_os.Drivers.Device.Types.{
  Manager, Device, Code, failed, ok, einval, enoent, device_state_removed,
}
use fg_os.Drivers.Device.Gentle.{Gentle, gentle}
use fg_os.Drivers.Device.Power.{device_stop, stopped}
use fg_os.Drivers.Device.DriverList.{remove_link}
use fg_os.Drivers.Device.Links.{remove_link-Removed, remove_link-split, remove_link-none}
use fg_os.Drivers.Device.Registry.{device_unregister, detach, halt, unhook, delist}
use fg_os.Drivers.Device.Listing.{All-map, IsListed, IsRegistry, SameList, SameList-IsRegistry}

halt-SameList : (g : Gentle) (device : ℕ) (m : Manager) → SameList m (halt (gentle g) device m)
unfolding halt device_stop stopped
halt-SameList g device m =
    (ground arith, ground arith, ground arith, ground arith, λ q. ground arith)

detach-SameList : (g : Gentle) (device : ℕ) (m : Manager) → SameList m (detach (gentle g) device m)
unfolding detach
detach-SameList g device m =
    (ground arith, ground arith, ground arith, ground arith, λ q. ground arith)

delist-fields :
    (g : Gentle) (device : ℕ) (rest : List ℕ) (m : Manager)
    → let m1 = delist (gentle g) device rest m in
      (m1.device_list ≡ rest)
      × (m1.next_device_id ≡ m.next_device_id)
      × (m1.stats.total_devices ≡ sub32 m.stats.total_devices 1)
      × ((q : ℕ) → device ≢ q → m1.devices q ≡ m.devices q)
unfolding delist
delist-fields g device rest m = (ground arith, ground arith, ground arith, λ q other. ground arith)

delist-IsRegistry :
    (g : Gentle) (device : ℕ) (rest : List ℕ) (m : Manager)
    → m.stats.total_devices < 2 ^ 32
    → IsRegistry m
    → remove_link device m.device_list ≡ some rest
    → IsRegistry (delist (gentle g) device rest m)
delist-IsRegistry g device rest m few (all, d, n) e =
    let m1 = delist (gentle g) device rest m in
    let (l, i, t, same) = delist-fields g device rest m in
    let (all1, d1, n1) = remove_link-Removed (IsListed m) device m.device_list rest all d e in
    let kept : All (IsListed m1) rest =
      All-map _ _ rest
        (λ p ((a, b, c), other).
          let s = same p (λ z. other (sym z)) in
          (
            a,
            ap (λ (x : Device). x.registered) s ∙ b,
            rw (ap (λ (x : Device). x.device_id) s, i) c,
          ))
        all1 in
    rw l (kept, d1, t ∙ ground arith)

unhook-IsRegistry :
    (g : Gentle) (device : ℕ) (found : Option (List ℕ)) (m : Manager)
    → m.stats.total_devices < 2 ^ 32
    → IsRegistry m
    → remove_link device m.device_list ≡ found
    → IsRegistry (unhook (gentle g) device found m).1
unfolding unhook
unhook-IsRegistry g device none m few h e = h
unhook-IsRegistry g device (some rest) m few h e = delist-IsRegistry g device rest m few h e

-- The device was taken out of the list, and the other devices keep their order.
abbrev pub IsUnlinked : (device : ℕ) (m m1 : Manager) → Type 0
IsUnlinked device m m1 =
    ((before : List ℕ) × (after : List ℕ) × (m.device_list ≡ before ++ device ∷ after)
      × (m1.device_list ≡ before ++ after))
    × All (λ q. q ≢ device) m1.device_list
    × ((m1.devices device).registered ≡ false)
    × ((m1.devices device).state ≡ device_state_removed)

-- The three answers of device_unregister, each with what it does to the list.
abbrev pub Answers : (device : ℕ) (m : Manager) → Code × Manager → Type 0
Answers device m (c, m1) =
    ((c ≡ failed einval)
      × (m1 ≡ m)
      × ((m.initialized ≡ false) ⊎ (device ≡ 0) ⊎ ((m.devices device).registered ≡ false)))
    ⊎ ((c ≡ failed enoent) × (m1.device_list ≡ m.device_list) × All (λ q. q ≢ device) m.device_list)
    ⊎ ((c ≡ ok) × IsUnlinked device m m1)

delist-gone :
    (g : Gentle) (device : ℕ) (rest : List ℕ) (m : Manager)
    → (((delist (gentle g) device rest m).devices device).registered ≡ false)
      × (((delist (gentle g) device rest m).devices device).state ≡ device_state_removed)
unfolding delist
delist-gone g device rest m = (ground arith, ground arith)

unhook-Answers :
    (g : Gentle) (device : ℕ) (found : Option (List ℕ)) (m : Manager)
    → IsRegistry m
    → remove_link device m.device_list ≡ found
    → Answers device m (unhook (gentle g) device found m)
unfolding unhook
unhook-Answers g device none m h e = inr (inl (refl, refl, remove_link-none device _ e))
unhook-Answers g device (some rest) m (all, d, n) e =
    let (before, after, whole, cut) = remove_link-split device m.device_list rest e in
    let (l, i, t, same) = delist-fields g device rest m in
    let (all1, d1, n1) = remove_link-Removed (IsListed m) device m.device_list rest all d e in
    inr (
      inr (
        refl,
        (
          (before, after, whole, l ∙ cut),
          rw l (All-map _ _ rest (λ p (listed, other). other) all1),
          (delist-gone g device rest m).0,
          (delist-gone g device rest m).1,
        ),
      ))

guard-cases :
    (on : Bool) (device : ℕ) (known : Bool)
    → (not on || device == 0 || not known) ≡ true
    → (on ≡ false) ⊎ (device ≡ 0) ⊎ (known ≡ false)
guard-cases false device known e = inl refl
guard-cases true device false e = inr (inr refl)
guard-cases true device true e = inr (inl (ground arith))

-- The guard has passed, and what precedes the search leaves the list alone.
Answers-from :
    (device : ℕ) (m m2 : Manager) (r : Code × Manager)
    → (r.0 ≢ failed einval)
    → m2.device_list ≡ m.device_list
    → Answers device m2 r
    → Answers device m r
Answers-from device m m2 (c, m1) passed same (inl (e, r, why)) = absurd (passed e)
Answers-from device m m2 (c, m1) passed same (inr (inl (e, l, all))) =
    inr (inl (e, l ∙ same, subst (All (λ q. q ≢ device)) same all))
Answers-from device m m2 (c, m1) passed same (inr (inr (e, (parts, others, mark, state)))) =
    let (before, after, whole, cut) = parts in
    inr (inr (e, ((before, after, sym same ∙ whole, cut), others, mark, state)))

-- For drivers that leave the framework's records alone, device_unregister keeps the invariant of the
-- list of devices, and gives one of three answers: EINVAL, with nothing changed, where the framework
-- is not initialised, the device is NULL or it is not registered; ENOENT, with the same list, where
-- the device is not in the list; and 0, where the list is the one before without the device, in the
-- same order, the device is no longer in it, and it is marked as unregistered and removed.
pub device_unregister-IsRegistry :
    (g : Gentle) (device : ℕ) (m : Manager)
    → IsRegistry m
    → m.stats.total_devices < 2 ^ 32
    → IsRegistry (device_unregister (gentle g) device m).1
      × Answers device m (device_unregister (gentle g) device m)
unfolding device_unregister
device_unregister-IsRegistry g device m h few =
    let m1 = halt (gentle g) device m in
    let m2 = detach (gentle g) device m1 in
    let s1 = halt-SameList g device m in
    let s2 = detach-SameList g device m1 in
    let h2 = SameList-IsRegistry m1 m2 s2 (SameList-IsRegistry m m1 s1 h) in
    let h3 =
      unhook-IsRegistry g device (remove_link device m2.device_list) m2
        (subst (λ (n : ℕ). n < 2 ^ 32) (sym (s2.3 ∙ s1.3)) few) h2 refl in
    let same : m2.device_list ≡ m.device_list = s2.0 ∙ s1.0 in
    let answers = unhook-Answers g device (remove_link device m2.device_list) m2 h2 refl in
    elim (Bool-cases (not m.initialized || device == 0 || not (m.devices device).registered)) [
      | inl bad ↦ rw bad (h, inl (refl, refl, guard-cases m.initialized device _ bad))
      | inr good ↦ rw good (h3, Answers-from device m m2 _ (ground arith) same answers)
    ]
