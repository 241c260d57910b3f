-- ===== src/Drivers/Device/Lifecycle.antt =====
-- kernel/drivers/device.c: how a device goes from state to state under device_start, device_stop,
-- device_reset, device_suspend and device_resume.
use fg_os.Base.{ℕ, Bool, true, false, List, [], ◌∷◌, All, ◌≡◌, ◌≢◌, ◌⊎◌, ◌∙◌, ◌⊎◌, refl, arith}
use fg_os.Drivers.Device.Types.{
  Env, Manager, Code, is_ok, device_state_initializing, device_state_ready, device_state_busy,
  device_state_error, device_state_suspended,
}
use fg_os.Drivers.Device.Gentle.{Gentle, gentle}
use fg_os.Drivers.Device.Power.{
  device_start, device_stop, device_reset, device_suspend, device_resume, started, stopped,
  was_reset, resumed,
}

-- The calls that other code makes to change a device's state.
pub data Call : Type 0 where
  calls_start calls_stop calls_reset calls_suspend calls_resume : Call

abbrev pub perform : Env → Call → (device : ℕ) → Manager → Code × Manager
perform env calls_start = device_start env
perform env calls_stop = device_stop env
perform env calls_reset = device_reset env
perform env calls_suspend = device_suspend env
perform env calls_resume = device_resume env

-- The diagram of a device's states: what a call that answers 0, or another number, does to the state.
abbrev pub Edge : Call → (answers_zero : Bool) → (before after : ℕ) → Type 0
Edge calls_start true s s' =
    ((s ≡ device_state_ready) ⊎ (s ≡ device_state_suspended)) × (s' ≡ device_state_ready)
Edge calls_start false s s' = (s' ≡ s) ⊎ ((s ≡ device_state_suspended) × (s' ≡ device_state_error))
Edge calls_stop true s s' =
    ((s ≢ device_state_ready) × (s ≢ device_state_busy) × (s' ≡ s))
    ⊎ (((s ≡ device_state_ready) ⊎ (s ≡ device_state_busy)) × (s' ≡ device_state_suspended))
Edge calls_stop false s s' = s' ≡ s
Edge calls_reset true s s' = s' ≡ device_state_ready
Edge calls_reset false s s' = (s' ≡ s) ⊎ (s' ≡ device_state_error)
Edge calls_suspend true s s' = s' ≡ device_state_suspended
Edge calls_suspend false s s' = s' ≡ s
Edge calls_resume true s s' = (s ≡ device_state_suspended) × (s' ≡ device_state_ready)
Edge calls_resume false s s' = s' ≡ s

either : (P : Bool → Type 0) (b : Bool) → (b ≡ true → P true) → (b ≡ false → P false) → P b
either P true f g = f refl
either P false f g = g refl

module _ (g : Gentle) (device : ℕ) (m : Manager) where
  -- The call c, which answers 0 or not, moves the device along the diagram.
  abbrev Moves : Call → Bool → Type 0
  Moves c b =
      Edge c b (m.devices device).state ((perform (gentle g) c device m).1.devices device).state

  start-Edge : Moves calls_start (is_ok (device_start (gentle g) device m).0)
  unfolding device_start started
  start-Edge = either (Moves calls_start) _ (λ e. ground arith) (λ e. ground arith)

  stop-Edge : Moves calls_stop (is_ok (device_stop (gentle g) device m).0)
  unfolding device_stop stopped
  stop-Edge = either (Moves calls_stop) _ (λ e. ground arith) (λ e. ground arith)

  reset-Edge : Moves calls_reset (is_ok (device_reset (gentle g) device m).0)
  unfolding device_reset was_reset
  reset-Edge = either (Moves calls_reset) _ (λ e. ground arith) (λ e. ground arith)

  suspend-Edge : Moves calls_suspend (is_ok (device_suspend (gentle g) device m).0)
  unfolding device_suspend stopped
  suspend-Edge = either (Moves calls_suspend) _ (λ e. ground arith) (λ e. ground arith)

  resume-Edge : Moves calls_resume (is_ok (device_resume (gentle g) device m).0)
  unfolding device_resume resumed
  resume-Edge = either (Moves calls_resume) _ (λ e. ground arith) (λ e. ground arith)

-- For drivers that leave the framework's records alone, each of device_start, device_stop,
-- device_reset, device_suspend and device_resume changes the state of its device along an edge of the
-- diagram, whether it answers 0 or another number: start leads from SUSPENDED to READY, or to ERROR,
-- and accepts a READY device; stop leads from READY or BUSY to SUSPENDED and accepts any other device
-- as it is; reset leads from every state to READY or ERROR, suspend from every state to SUSPENDED,
-- and resume from SUSPENDED to READY; a call that fails otherwise leaves the state as it is.
pub perform-Edge :
    (g : Gentle) (c : Call) (device : ℕ) (m : Manager)
    → let r = perform (gentle g) c device m in
      Edge c (is_ok r.0) (m.devices device).state (r.1.devices device).state
perform-Edge g calls_start device m = start-Edge g device m
perform-Edge g calls_stop device m = stop-Edge g device m
perform-Edge g calls_reset device m = reset-Edge g device m
perform-Edge g calls_suspend device m = suspend-Edge g device m
perform-Edge g calls_resume device m = resume-Edge g device m

-- The calls that neither reset nor suspend a device.
abbrev IsMild : Call → Type 0
IsMild c = (c ≢ calls_reset) × (c ≢ calls_suspend)

perform_all : Env → List Call → (device : ℕ) → Manager → Manager
perform_all env [] device m = m
perform_all env (c ∷ cs) device m = perform_all env cs device (perform env c device m).1

mild-stays :
    (c : Call) (b : Bool) (s s' : ℕ)
    → IsMild c
    → s ≡ device_state_initializing
    → Edge c b s s'
    → s' ≡ device_state_initializing
mild-stays calls_start true s s' mild at e = ground arith
mild-stays calls_start false s s' mild at e = ground arith
mild-stays calls_stop true s s' mild at e = ground arith
mild-stays calls_stop false s s' mild at e = e ∙ at
mild-stays calls_reset b s s' (r, q) at e = elim (r refl) [ ]
mild-stays calls_suspend b s s' (r, q) at e = elim (q refl) [ ]
mild-stays calls_resume true s s' mild at e = ground arith
mild-stays calls_resume false s s' mild at e = e ∙ at

-- For drivers that leave the framework's records alone, a device in the state INITIALIZING, as
-- device_register leaves it where the driver has no init operation, is still in that state after any
-- sequence of device_start, device_stop and device_resume.
perform_all-initializing :
    (g : Gentle) (cs : List Call) (device : ℕ) (m : Manager)
    → All IsMild cs
    → (m.devices device).state ≡ device_state_initializing
    → ((perform_all (gentle g) cs device m).devices device).state ≡ device_state_initializing
unfolding perform_all
perform_all-initializing g [] device m mild at = at
perform_all-initializing g (c ∷ cs) device m (mild, milds) at =
    let e = perform-Edge g c device m in
    perform_all-initializing g cs device (perform (gentle g) c device m).1 milds
      (mild-stays c _ _ _ mild at e)
