-- ===== src/Interrupt/Critical.antt =====
-- kernel/interrupt/idt.c and interrupt.c: critical sections, one inside the other.
use fg_os.Base.{true, false, ◌≡◌, arith}
use fg_os.Interrupt.State.{Machine}
use fg_os.Interrupt.Idt.{interrupts_disable, interrupts_enable, interrupts_restore}
use fg_os.Interrupt.Control.{critical_section_enter, critical_section_exit}

-- A critical section that begins with interrupts enabled and none disabled, and then ends: interrupts
-- are enabled and none is counted as disabled, as before.
critical_section_exit-critical_section_enter :
    (k : Machine)
    → k.interrupt_flag ≡ true
    → k.disabled_count ≡ 0
    → let (flags, k1) = critical_section_enter k in critical_section_exit flags k1 ≡ k
unfolding critical_section_enter critical_section_exit interrupts_disable interrupts_restore
    interrupts_enable
critical_section_exit-critical_section_enter k on none = ground arith

-- A critical section inside another one, where the outer one begins with interrupts enabled and none
-- disabled: after both have ended, interrupts are still disabled and one is still counted.
pub critical_section_exit-nested :
    (k : Machine)
    → k.interrupt_flag ≡ true
    → k.disabled_count ≡ 0
    → let (outer, k1) = critical_section_enter k in
      let (inner, k2) = critical_section_enter k1 in
      let k3 = critical_section_exit outer (critical_section_exit inner k2) in
      (k3.interrupt_flag ≡ false) × (k3.disabled_count ≡ 1)
unfolding critical_section_enter critical_section_exit interrupts_disable interrupts_restore
    interrupts_enable
critical_section_exit-nested k on none = ground arith

-- Registering a handler with interrupts disabled, as during the start of the kernel: the handler is
-- in place and the count of disabled interrupts stays one higher.
