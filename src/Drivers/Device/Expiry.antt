-- ===== src/Drivers/Device/Expiry.antt =====
-- kernel/drivers/device.c, device_process_requests: which requests the loop over one queue lets expire.
use fg_os.Base.{
  ℕ, ◌==◌, ltb, if_true, if_false, subst, ◌≡◌, ◌≢◌, refl, sym, ap, ◌∙◌, arith, List, [], ◌∷◌, sub64,
  if◌then◌else◌, Bool-cases, inl, inr, All,
}
use fg_os.Drivers.Device.Types.{Manager, Device, IoStatus, timeout, set_request, set_device}
use fg_os.Drivers.Device.Stats.{update_device_stats, read_clock}
use fg_os.Drivers.Device.Gentle.{Gentle, gentle}
use fg_os.Drivers.Device.Listing.{Distinct, All-map, All-both}
use fg_os.Drivers.Device.Requests.{
  expired, expire, complete_request, account_request, call_back, count_completed,
  device_process_requests, expire_all,
}

-- The callbacks of requests do not change the time at which a request was submitted.
abbrev KeepsTimes : Gentle → Type 0
KeepsTimes g =
    (callback request : ℕ) (m : Manager) (r : ℕ)
    → (g.notify callback request m r).timestamp ≡ (m.requests r).timestamp

-- Which requests of a queue have not waited for longer than the device allows at the time `now`.
abbrev pub live : (now : ℕ) → (device : ℕ) → Manager → List ℕ → List ℕ
live now device m [] = []
live now device m (r ∷ rs) =
    let rest = live now device m rs in
    if ltb (m.devices device).timeout_ms (sub64 now (m.requests r).timestamp)
    then rest
    else r ∷ rest

-- The time limits and queues of devices and the times of requests are the same.
abbrev SameTimes : Manager → Manager → Type 0
SameTimes m m1 =
    ((p : ℕ) → (m1.devices p).timeout_ms ≡ (m.devices p).timeout_ms)
    × ((p : ℕ) → (m1.devices p).request_queue ≡ (m.devices p).request_queue)
    × ((r : ℕ) → (m1.requests r).timestamp ≡ (m.requests r).timestamp)

SameTimes-trans : (a b c : Manager) → SameTimes a b → SameTimes b c → SameTimes a c
SameTimes-trans a b c (t, q, s) (t1, q1, s1) = (λ p. t1 p ∙ t p, λ p. q1 p ∙ q p, λ r. s1 r ∙ s r)

abbrev SameLimits : Manager → Manager → Type 0
SameLimits m m1 =
    ((p : ℕ) → (m1.devices p).timeout_ms ≡ (m.devices p).timeout_ms)
    × ((r : ℕ) → (m1.requests r).timestamp ≡ (m.requests r).timestamp)

live-same :
    (now d : ℕ) (a b : Manager) (l : List ℕ) → SameLimits a b → live now d b l ≡ live now d a l
live-same now d a b [] h = refl
live-same now d a b (r ∷ rs) (t, s) = rw (t d, s r, live-same now d a b rs (t, s)) refl

account-SameTimes :
    (g : Gentle) (request : ℕ) (m : Manager) → SameTimes m (account_request (gentle g) request m)
unfolding account_request update_device_stats
account-SameTimes g request m = (λ p. ground arith, λ p. ground arith, λ r. ground arith)

call_back-SameTimes :
    (g : Gentle) (request : ℕ) (m : Manager)
    → KeepsTimes g
    → SameTimes m (call_back (gentle g) request m)
unfolding call_back
call_back-SameTimes g request m keeps = (
  λ p. ground arith,
  λ p. ground arith,
  λ r. elim (Bool-cases ((m.requests request).callback == 0)) [
    | inl e ↦ rw e refl
    | inr e ↦ rw e (keeps (m.requests request).callback request m r)
  ],
)

count_completed-SameTimes :
    (status : IoStatus) (m : Manager) → SameTimes m (count_completed status m)
unfolding count_completed
count_completed-SameTimes status m = (λ p. refl, λ p. refl, λ r. refl)

complete-SameTimes :
    (g : Gentle) (request : ℕ) (status : IoStatus) (m : Manager)
    → KeepsTimes g
    → SameTimes m (complete_request (gentle g) request status m)
unfolding complete_request
complete-SameTimes g request status m keeps =
    let m1 = set_request request (record (m.requests request) { status = status }) m in
    let m2 = account_request (gentle g) request m1 in
    let m3 = count_completed status m2 in
    let m4 = call_back (gentle g) request m3 in
    let s1 : SameTimes m m1 = (λ p. refl, λ p. refl, λ r. ground arith) in
    let s2 = SameTimes-trans m m1 m2 s1 (account-SameTimes g request m1) in
    let s3 = SameTimes-trans m m2 m3 s2 (count_completed-SameTimes status m2) in
    let s4 = SameTimes-trans m m3 m4 s3 (call_back-SameTimes g request m3 keeps) in
    elim (Bool-cases (request == 0)) [
      | inl e ↦
          subst (SameTimes m) (sym (if_true (request == 0) m m4 e))
            (λ p. refl, λ p. refl, λ r. refl)
      | inr e ↦ subst (SameTimes m) (sym (if_false (request == 0) m m4 e)) s4
    ]

set-same :
    (d : ℕ) (m : Manager) (kept : List ℕ)
    → (set_device d (record (m.devices d) { request_queue = kept }) m).devices d
      ≡ record (m.devices d) { request_queue = kept }
set-same d m kept = ground arith

set-other :
    (d q : ℕ) (m : Manager) (kept : List ℕ)
    → d ≢ q
    → (set_device d (record (m.devices d) { request_queue = kept }) m).devices q ≡ m.devices q
set-other d q m kept other = ground arith

set-limit :
    (d q : ℕ) (m : Manager) (kept : List ℕ)
    → ((set_device d (record (m.devices d) { request_queue = kept }) m).devices q).timeout_ms
      ≡ (m.devices q).timeout_ms
set-limit d q m kept = ground arith

-- A step of the loop over a queue.
module _ (g : Gentle) (now device : ℕ) (keeps : KeepsTimes g)
    (still : (n : ℕ) → g.clock n ≡ now) where
  step : (r : ℕ) (m : Manager) → Manager
  step r m =
      if expired (gentle g) device r m
      then complete_request (gentle g) r timeout (read_clock m)
      else read_clock m

  step-SameTimes : (r : ℕ) (m : Manager) → SameTimes m (step r m)
  unfolding step
  step-SameTimes r m =
      let s = complete-SameTimes g r timeout (read_clock m) keeps in
      elim (Bool-cases (expired (gentle g) device r m)) [
        | inl e ↦ subst (SameTimes m) (sym (if_true _ _ _ e)) s
        | inr e ↦ subst (SameTimes m) (sym (if_false _ _ _ e)) (λ p. refl, λ p. refl, λ r. refl)
      ]

  -- The loop over one queue.
  expire-live :
      (l : List ℕ) (m : Manager)
      → let (kept, m1) = expire (gentle g) device l m in
        (kept ≡ live now device m l) × SameTimes m m1
  unfolding expire step
  expire-live [] m = (refl, (λ p. refl, λ p. refl, λ r. refl))
  expire-live (r ∷ rs) m =
      let s = step-SameTimes r m in
      let (k, t) = expire-live rs (step r m) in
      let (kept, m1) = expire (gentle g) device rs (step r m) in
      let same = live-same now device m (step r m) rs (s.0, s.2) in
      let limit = (m.devices device).timeout_ms in
      let time = (m.requests r).timestamp in
      (
        ap (λ (n : ℕ). if ltb limit (sub64 n time) then kept else r ∷ kept) (still m.readings)
            ∙ ap (λ (rest : List ℕ). if ltb limit (sub64 now time) then rest else r ∷ rest)
                (k ∙ same),
        SameTimes-trans m (step r m) m1 s t,
      )

  -- The queue of one device is replaced by what the loop has kept.
  settle : (d : ℕ) (m : Manager) → Manager
  settle d m =
      let (kept, m1) = expire (gentle g) d (m.devices d).request_queue m in
      set_device d (record (m1.devices d) { request_queue = kept }) m1

module _ (g : Gentle) (now : ℕ) (keeps : KeepsTimes g) (still : (n : ℕ) → g.clock n ≡ now) where
  settle-queues :
      (d : ℕ) (m : Manager)
      → let m1 = settle g now d keeps still d m in
        ((m1.devices d).request_queue ≡ live now d m (m.devices d).request_queue)
        × ((q : ℕ) → d ≢ q → (m1.devices q).request_queue ≡ (m.devices q).request_queue)
        × SameLimits m m1
  unfolding settle
  settle-queues d m =
      let (k, (t, q, s)) = expire-live g now d keeps still (m.devices d).request_queue m in
      let (kept, m1) = expire (gentle g) d (m.devices d).request_queue m in
      (
        ap (λ (x : Device). x.request_queue) (set-same d m1 kept) ∙ k,
        λ p other. ap (λ (x : Device). x.request_queue) (set-other d p m1 kept other) ∙ q p,
        (λ p. set-limit d p m1 kept ∙ t p, s),
      )

  settle_each-queues :
      (l : List ℕ) (m : Manager)
      → Distinct l
      → let m1 = expire_all (gentle g) l m in
        All (λ p. (m1.devices p).request_queue ≡ live now p m (m.devices p).request_queue) l
        × ((q : ℕ)
            → All (λ p. p ≢ q) l
            → (m1.devices q).request_queue ≡ (m.devices q).request_queue)
        × SameLimits m m1
  unfolding expire_all settle
  settle_each-queues [] m d = (tt, λ q h. refl, (λ p. refl, λ r. refl))
  settle_each-queues (p ∷ ps) m (fresh, d) =
      let m1 = settle g now p keeps still p m in
      let (mine, others, limits) = settle-queues p m in
      let (all, rest, limits1) = settle_each-queues ps m1 d in
      (
        (
          rest p (All-map _ _ ps (λ x e. e) fresh) ∙ mine,
          All-map _ _ ps
              (λ x (e, other).
                e
                ∙ ap (live now x m1) (others x (λ z. other (sym z)))
                ∙ live-same now x m m1 (m.devices x).request_queue limits)
              (All-both _ _ ps all fresh),
        ),
        λ q (other, h). rest q h ∙ others q other,
        (λ x. limits1.0 x ∙ limits.0 x, λ r. limits1.1 r ∙ limits.1 r),
      )

-- For drivers that leave the framework's records alone, callbacks that do not change the time of a
-- request, and a clock that stands still during the call: after device_process_requests the queue of
-- every listed device (each is listed once) holds, in the same order, exactly those of its requests
-- that have not waited for longer than the device's time limit.
pub device_process_requests-live :
    (g : Gentle) (now : ℕ) (m : Manager)
    → KeepsTimes g
    → ((n : ℕ) → g.clock n ≡ now)
    → Distinct m.device_list
    → All
        (λ p.
          ((device_process_requests (gentle g) m).devices p).request_queue
          ≡ live now p m (m.devices p).request_queue)
        m.device_list
unfolding device_process_requests
device_process_requests-live g now m keeps still d =
    (settle_each-queues g now keeps still m.device_list m d).0
