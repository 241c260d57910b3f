-- ===== src/Interrupt/Nesting.antt =====
-- kernel/interrupt/interrupt.c, in_interrupt and interrupt_get_nesting_level, over the runs of the
-- interrupt system.
use fg_os.Base.{ℕ, zero, suc, Bool, false, ◌≡◌, refl, ap, ◌∙◌, arith}
use fg_os.Interrupt.State.{
  Machine, Handler, null, default_exception, default_interrupt, timer_handler, keyboard_handler,
  page_fault_handler, gpf_handler, other, returned, Outside, InterruptStats, default_exception,
}
use fg_os.Interrupt.Idt.{
  idt_init, default_handlers, set_entries, idt_set_entry, cleared, default_exception_handler,
  default_interrupt_handler, enter_handler, leave_handler, interrupts_disable, interrupts_enable,
  interrupts_restore, idt_register_handler, idt_unregister_handler, install_handler, put_handler,
  default_handler, idt_reset_stats,
}
use fg_os.Interrupt.Control.{
  run, keyboard_interrupt_handler, pic_send_eoi, outb, in_interrupt, interrupt_get_nesting_level,
}
use fg_os.Interrupt.Dispatch.{IsOwn, machine_of, timer-stats}

-- What happens in the kernel between its start and any later moment, also inside a handler.
pub data Step (out : Outside) : Machine → Machine → Type 0 where
  step_enter : (k : Machine) → Step out k (enter_handler k)
  step_run :
      (h : Handler) (v e : ℕ) (k : Machine) → IsOwn h → Step out k (machine_of (run out h v e k))
  step_leave : (k : Machine) → Step out k (machine_of (leave_handler (returned k)))
  step_register : (v : ℕ) (h : Handler) (k : Machine) → Step out k (idt_register_handler v h k).1
  step_unregister : (v : ℕ) (k : Machine) → Step out k (idt_unregister_handler v k).1
  step_disable : (k : Machine) → Step out k (interrupts_disable k).1
  step_restore : (flag : Bool) (k : Machine) → Step out k (interrupts_restore flag k)
  step_reset : (k : Machine) → Step out k (idt_reset_stats k)

pub data Reached (out : Outside) : Machine → Type 0 where
  starts : (k : Machine) → Reached out (idt_init out k).1
  goes_on : {k k1 : Machine} → Reached out k → Step out k k1 → Reached out k1

abbrev nested : Machine → ℕ
nested k = k.stats.nested_interrupts

handlers-nested : (n from : ℕ) (k : Machine) → nested (default_handlers n from k) ≡ nested k
unfolding default_handlers
handlers-nested zero from k = refl
handlers-nested (suc n) from k =
    handlers-nested n (suc from) (put_handler from (default_handler from) k)

entry-nested : (v h s t : ℕ) (k : Machine) → nested (idt_set_entry v h s t k).1 ≡ nested k
unfolding idt_set_entry
entry-nested v h s t k = ground arith

entries-nested : (n from h t : ℕ) (k : Machine) → nested (set_entries n from h t k) ≡ nested k
unfolding set_entries
entries-nested zero from h t k = refl
entries-nested (suc n) from h t k =
    entries-nested n (suc from) h t (idt_set_entry from h 8 t k).1 ∙ entry-nested from h 8 t k

init-nested : (out : Outside) (k : Machine) → nested (idt_init out k).1 ≡ 0
unfolding idt_init cleared
init-nested out k =
    entries-nested 208 48 (out.address default_interrupt) 238 _
    ∙ entries-nested 16 32 (out.address default_interrupt) 142 _
    ∙ entries-nested 32 0 (out.address default_exception) 142 _
    ∙ handlers-nested 256 0 (cleared out.table k)

run-nested :
    (out : Outside) (h : Handler) (v e : ℕ) (k : Machine)
    → IsOwn h
    → nested (machine_of (run out h v e k)) ≡ nested k
unfolding run default_exception_handler default_interrupt_handler keyboard_interrupt_handler
    pic_send_eoi outb
run-nested out null v e k own = refl
run-nested out default_exception v e k own = ground arith
run-nested out default_interrupt v e k own = ground arith
run-nested out timer_handler v e k own =
    ap (λ (t : InterruptStats). t.nested_interrupts) (timer-stats out k)
run-nested out keyboard_handler v e k own = refl
run-nested out page_fault_handler v e k own = refl
run-nested out gpf_handler v e k own = refl
run-nested out (other n) v e k own = elim own [ ]

Step-nested : (out : Outside) {k k1 : Machine} → Step out k k1 → nested k ≡ 0 → nested k1 ≡ 0
unfolding idt_register_handler idt_unregister_handler install_handler interrupts_disable
    interrupts_enable interrupts_restore idt_reset_stats
Step-nested out (step_enter k) h = h
Step-nested out (step_run c v e k own) h = run-nested out c v e k own ∙ h
Step-nested out (step_leave k) h = h
Step-nested out (step_register v c k) h = ground arith
Step-nested out (step_unregister v k) h = ground arith
Step-nested out (step_disable k) h = h
Step-nested out (step_restore flag k) h = ground arith
Step-nested out (step_reset k) h = refl

Reached-nested : (out : Outside) {k : Machine} → Reached out k → nested k ≡ 0
Reached-nested out (starts k) = init-nested out k
Reached-nested out (goes_on r s) = Step-nested out s (Reached-nested out r)

-- In every state that the kernel's own handlers lead to from idt_init on, also while a handler runs,
-- in_interrupt answers false and interrupt_get_nesting_level answers 0.
pub in_interrupt-Reached :
    (out : Outside) (k : Machine)
    → Reached out k
    → (in_interrupt k ≡ false) × (interrupt_get_nesting_level k ≡ 0)
unfolding in_interrupt interrupt_get_nesting_level
in_interrupt-Reached out k r = let e = Reached-nested out r in rw e (refl, refl)
