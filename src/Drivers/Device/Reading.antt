-- ===== src/Drivers/Device/Reading.antt =====
-- kernel/drivers/device.c, device_read and device_write: what becomes of the memory of a request.
use fg_os.Base.{
  ℕ, ◌==◌, true, false, ◌≡◌, ◌≢◌, sym, subst, ◌⊎◌, inl, inr, if◌then◌else◌, ne→==, if_false, ◌||◌,
  refl, ap, ◌∙◌, arith, none, some, List, ◌∷◌, Bool-cases,
}
use fg_os.Drivers.Device.Types.{
  Manager, Device, Code, failed, enomem, eio, value, is_success, is_ok, is_pending,
  device_state_ready, device_io_read,
}
use fg_os.Drivers.Device.Gentle.{Gentle, gentle}
use fg_os.Drivers.Device.Requests.{
  device_create_request, device_submit_request, signed, transfer, issue, await, device_read,
  device_free_request,
}
use fg_os.Drivers.Device.Submission.{device_submit_request-Counted}

-- The request is back in free memory, and it still heads the queue of the device.
abbrev pub Dangles : (device request : ℕ) (rest : List ℕ) → Manager → Type 0
Dangles device request rest m =
    (m.allocated request ≡ false) × ((m.devices device).request_queue ≡ request ∷ rest)

free-Dangles :
    (device request : ℕ) (rest : List ℕ) (m : Manager)
    → request ≢ 0
    → (m.devices device).request_queue ≡ request ∷ rest
    → Dangles device request rest (device_free_request request m)
unfolding device_free_request
free-Dangles device request rest m some_request head = (ground arith, ground arith)

await-Dangles :
    (g : Gentle) (device request size : ℕ) (rest : List ℕ) (c : Code) (m : Manager)
    → request ≢ 0
    → (m.devices device).request_queue ≡ request ∷ rest
    → ((await (gentle g) request size (c, m) ≡ none)
        × (is_ok c ≡ true)
        × (is_pending (m.requests request).status ≡ true))
      ⊎ ((r : Code × Manager) × (await (gentle g) request size (c, m) ≡ some r)
          × Dangles device request rest r.1)
unfolding await
await-Dangles g device request size rest c m some_request head =
    let freed = free-Dangles device request rest m some_request head in
    elim (Bool-cases (is_ok c)) [
      | inl o ↦ elim (Bool-cases (is_pending (m.requests request).status)) [
        | inl p ↦ inl (rw (o, p) refl, o, p)
        | inr p ↦ inr (
          (
            if is_success (m.requests request).status then value (signed size) else failed eio,
            device_free_request request m,
          ),
          rw (o, p) refl,
          freed,
        )
      ]
      | inr o ↦ inr ((c, device_free_request request m), rw o refl, freed)
    ]

create-request :
    (request kind offset buffer size : ℕ) (m : Manager)
    → (device_create_request request kind offset buffer size 0 m).0 ≡ request
unfolding device_create_request
create-request request kind offset buffer size m = ground arith

issue-await :
    (g : Gentle) (device request size : ℕ) (rm : ℕ × Manager)
    → request ≢ 0
    → rm.0 ≡ request
    → issue (gentle g) device size rm
      ≡ await (gentle g) request size (device_submit_request (gentle g) device request rm.1)
unfolding issue
issue-await g device request size (r, m) some_request e =
    subst
      (λ (x : ℕ).
        (if x == 0
          then some (failed enomem, m)
          else await (gentle g) x size (device_submit_request (gentle g) device x m))
        ≡ await (gentle g) request size (device_submit_request (gentle g) device request m))
      (sym e) (rw (ne→== request 0 some_request) refl)

transfer-await :
    (g : Gentle) (kind request device offset buffer size : ℕ) (m : Manager)
    → device ≢ 0
    → buffer ≢ 0
    → size ≢ 0
    → request ≢ 0
    → transfer (gentle g) kind request device offset buffer size m
      ≡ await (gentle g) request size (
          device_submit_request
            (gentle g)
            device
            request
            (device_create_request request kind offset buffer size 0 m).1)
unfolding transfer
transfer-await g kind request device offset buffer size m d b s r =
    if_false (device == 0 || buffer == 0 || size == 0) _ _ (ground arith)
    ∙ issue-await g device request size _ r (create-request request kind offset buffer size m)

create-same :
    (request kind offset buffer size : ℕ) (m : Manager)
    → (device_create_request request kind offset buffer size 0 m).1.devices ≡ m.devices
unfolding device_create_request
create-same request kind offset buffer size m = ground arith

-- A read of a READY device, for which kmalloc has found memory, either does not return, which is so
-- only where the driver answers 0 and leaves the request pending; or it returns, with success or an
-- error, and then the request is back in free memory while it still heads the queue of the device.
-- The drivers leave the framework's records alone.
pub device_read-Dangles :
    (g : Gentle) (request device offset buffer size : ℕ) (m : Manager)
    → device ≢ 0
    → buffer ≢ 0
    → size ≢ 0
    → request ≢ 0
    → (m.devices device).registered ≡ true
    → (m.devices device).state ≡ device_state_ready
    → let m1 = (device_create_request request device_io_read offset buffer size 0 m).1 in
      let (c, m2) = device_submit_request (gentle g) device request m1 in
      let returned = device_read (gentle g) request device offset buffer size m in
      ((returned ≡ none) × (is_ok c ≡ true) × (is_pending (m2.requests request).status ≡ true))
      ⊎ ((r : Code × Manager) × (returned ≡ some r)
          × Dangles device request (m.devices device).request_queue r.1)
unfolding device_read
device_read-Dangles g request device offset buffer size m d b s r known ready =
    let m1 = (device_create_request request device_io_read offset buffer size 0 m).1 in
    let same = create-same request device_io_read offset buffer size m in
    let (c, m2) = device_submit_request (gentle g) device request m1 in
    let q =
      device_submit_request-Counted g device request m1 d r
        (ap (λ (f : ℕ → Device). (f device).registered) same ∙ known)
        (ap (λ (f : ℕ → Device). (f device).state) same ∙ ready) in
    rw (transfer-await g device_io_read request device offset buffer size m d b s r) (
      await-Dangles g device request size (m.devices device).request_queue c m2 r
        (q.0 ∙ ap (λ (f : ℕ → Device). request ∷ (f device).request_queue) same))
