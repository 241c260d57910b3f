-- ===== src/Interrupt/Dispatch.antt =====
-- kernel/interrupt/idt.c, interrupt_common_handler: what a dispatched interrupt does to the nesting
-- level and to the counters.
use fg_os.Base.{
  ℕ, ◌+◌, ◌<◌, ◌^◌, ◌%◌, ◌==◌, Bool, true, false, ◌||◌, ◌≡◌, refl, sym, subst, arith, add32, sub32,
  add64, if◌then◌else◌,
}
use fg_os.Interrupt.State.{
  Machine, Handler, null, default_exception, default_interrupt, timer_handler, keyboard_handler,
  page_fault_handler, gpf_handler, other, Outcome, returned, panicked, Outside, InterruptStats,
  exception_double_fault, exception_general_protect, exception_machine_check,
}
use fg_os.Interrupt.Idt.{
  count_interrupt, default_exception_handler, default_interrupt_handler, enter_handler,
  leave_handler,
}
use fg_os.Interrupt.Control.{
  interrupt_common_handler, run, timer_interrupt_handler, keyboard_interrupt_handler, pic_send_eoi,
  outb,
}

-- The handlers of idt.c and interrupt.c.
abbrev pub IsOwn : Handler → Type 0
IsOwn (other n) = ⊥
IsOwn _ = Unit

abbrev pub machine_of : Outcome → Machine
machine_of (returned k) = k
machine_of (panicked k) = k

-- Every counted interrupt is in one of the four classes.
abbrev pub IsCounted : Machine → Type 0
IsCounted k =
    k.stats.total_interrupts
    ≡ (k.stats.exceptions + k.stats.hardware_interrupts + k.stats.software_interrupts
        + k.stats.spurious_interrupts)
      % 2 ^ 64

IsCounted-exception :
    (v : ℕ) (k : Machine)
    → IsCounted k
    → let t = count_interrupt v k.stats in
      IsCounted (record k { stats = record t { exceptions = add64 t.exceptions 1 } })
IsCounted-exception v k h = ground arith

interrupt-IsCounted :
    (v : ℕ) (k : Machine) → IsCounted k → IsCounted (default_interrupt_handler v k)
unfolding default_interrupt_handler
interrupt-IsCounted v k h = ground arith

pub timer-stats : (out : Outside) (k : Machine) → (timer_interrupt_handler out k).stats ≡ k.stats
unfolding timer_interrupt_handler pic_send_eoi outb
timer-stats out k = ground arith

-- Which handlers end in a panic, at which vectors.
abbrev pub panics : Handler → (vector : ℕ) → Bool
panics gpf_handler v = true
panics default_exception v =
    v == exception_double_fault || v == exception_machine_check || v == exception_general_protect
panics _ v = false

-- The nesting level after an interrupt that came at the level n, where it panics or not.
abbrev pub Leaves : (panic : Bool) → (n : ℕ) → Outcome → Type 0
Leaves false n (returned k) = k.nested_level ≡ n
Leaves false n (panicked k) = ⊥
Leaves true n (returned k) = ⊥
Leaves true n (panicked k) = k.nested_level ≡ add32 n 1

leave-level :
    (n : ℕ) (k : Machine) → n < 2 ^ 32 → k.nested_level ≡ add32 n 1 → sub32 k.nested_level 1 ≡ n
leave-level n k few e = rw e (ground arith)

default-level :
    (v : ℕ) (k : Machine) → (default_interrupt_handler v k).nested_level ≡ k.nested_level
unfolding default_interrupt_handler
default-level v k = refl

timer-level :
    (out : Outside) (k : Machine) → (timer_interrupt_handler out k).nested_level ≡ k.nested_level
unfolding timer_interrupt_handler pic_send_eoi outb
timer-level out k = ground arith

either-Leaves :
    (b : Bool) (n : ℕ) (k : Machine)
    → n < 2 ^ 32
    → k.nested_level ≡ add32 n 1
    → IsCounted k
    → let o = leave_handler (if b then panicked k else returned k) in
      Leaves b n o × IsCounted (machine_of o)
either-Leaves true n k few e h = (e, h)
either-Leaves false n k few e h = (leave-level n k few e, h)

run-Leaves :
    (out : Outside) (c : Handler) (v e : ℕ) (k : Machine)
    → IsOwn c
    → k.nested_level < 2 ^ 32
    → IsCounted k
    → let o = leave_handler (run out c v e (enter_handler k)) in
      Leaves (panics c v) k.nested_level o × IsCounted (machine_of o)
unfolding run default_exception_handler keyboard_interrupt_handler pic_send_eoi outb
run-Leaves out null v e k own few h = (leave-level _ (enter_handler k) few refl, h)
run-Leaves out default_exception v e k own few h =
    either-Leaves (panics default_exception v) k.nested_level _ few refl
      (IsCounted-exception v (enter_handler k) h)
run-Leaves out default_interrupt v e k own few h =
    let k1 = default_interrupt_handler v (enter_handler k) in
    (
      leave-level _ k1 few (default-level v (enter_handler k)),
      interrupt-IsCounted v (enter_handler k) h,
    )
run-Leaves out timer_handler v e k own few h =
    let k1 = timer_interrupt_handler out (enter_handler k) in
    (
      leave-level _ k1 few (timer-level out (enter_handler k)),
      subst
          (λ (t : InterruptStats).
            t.total_interrupts
            ≡ (t.exceptions + t.hardware_interrupts + t.software_interrupts + t.spurious_interrupts)
              % 2 ^ 64)
          (sym (timer-stats out (enter_handler k))) h,
    )
run-Leaves out keyboard_handler v e k own few h = (leave-level _ (enter_handler k) few refl, h)
run-Leaves out page_fault_handler v e k own few h = (leave-level _ (enter_handler k) few refl, h)
run-Leaves out gpf_handler v e k own few h = (refl, h)
run-Leaves out (other n) v e k own few h = elim own [ ]

-- An interrupt with one of the handlers of the kernel: it ends in a panic exactly where the handler is
-- that of general protection faults, or the default handler of exceptions at the vectors of double
-- faults, machine checks and general protection; otherwise it returns and the nesting level is what it
-- was before. Where the counters agreed, that is, the total is the sum of the four classes modulo
-- 2 ^ 64, they agree afterwards.
pub interrupt_common_handler-Leaves :
    (out : Outside) (v e : ℕ) (k : Machine)
    → IsOwn (k.handlers v)
    → k.nested_level < 2 ^ 32
    → IsCounted k
    → let o = interrupt_common_handler out v e k in
      Leaves (panics (k.handlers v) v) k.nested_level o × IsCounted (machine_of o)
unfolding interrupt_common_handler
interrupt_common_handler-Leaves out v e k own few h = run-Leaves out (k.handlers v) v e k own few h
