-- ===== src/Interrupt/Control.antt =====
-- kernel/interrupt/interrupt.c: the handlers, the interrupt controller, the timer and critical
-- sections; and the dispatcher of idt.c. The functions inb and outb of the source are stubs, of which
-- inb answers 0 and outb does nothing.
use fg_os.Base.{
  ℕ, zero, suc, ◌+◌, ◌*◌, ◌/◌, ◌-◌, ◌^◌, ◌%◌, ◌==◌, ltb, leb, Bool, true, false, ◌&&◌, ◌||◌,
  if◌then◌else◌, add32, add64, mul64, sub64, bit_and, bit_or, Option, none, some,
}
use fg_os.Base.Int.{ℤ, pos, negsuc}
use fg_os.Sched.{scheduler_tick}
use fg_os.Interrupt.State.{
  Machine, Handler, null, default_exception, default_interrupt, timer_handler, keyboard_handler,
  page_fault_handler, gpf_handler, other, Outcome, returned, panicked, Outside, ExceptionInfo,
  HardwareInterruptInfo, TimerManager, set_info, irq_timer, irq_keyboard, exception_page_fault,
  exception_general_protect, timer_frequency,
}
use fg_os.Interrupt.Idt.{
  default_exception_handler, default_interrupt_handler, interrupts_disable, interrupts_restore,
  idt_register_handler, idt_unregister_handler, idt_init, enter_handler, leave_handler,
}

unfoldable pub inb : (port : ℕ) → ℕ
inb port = 0

unfoldable pub outb : (port value : ℕ) → Machine → Machine
outb port value k = k

-- The rows of exception_data with an error code.
abbrev gives_error_code : (vector : ℕ) → Bool
gives_error_code v = v == 8 || leb 10 v && leb v 14 || v == 17

-- The table has a row for each vector below 20; the other entries are cleared.
init_exception_table : Machine → Machine
init_exception_table k = record k {
  exceptions = λ v.
      if ltb v 20
      then record { has_error_code = gives_error_code v; vector = v; count = 0 }
      else record { has_error_code = false; vector = 0; count = 0 };
}

init_hardware_interrupt_table : Machine → Machine
init_hardware_interrupt_table k = record k {
  hardware = λ i. record {
    irq = i;
    vector = irq_timer + i;
    count = 0;
    enabled = false;
    last_time = 0;
    total_time = 0;
  };
}

unfoldable pub pic_send_eoi : (irq : ℕ) → Machine → Machine
unfolding outb
pic_send_eoi irq k = outb 32 32 (if leb 8 irq then outb 160 32 k else k)

-- g_hardware_interrupts[i].count++ and .last_time = ticks.
abbrev count_hardware : ℕ → Machine → Machine
count_hardware i k =
    let h = k.hardware i in
    set_info i (record h { count = add32 h.count 1; last_time = k.timer.ticks }) k

-- A tick of the timer; 1000 / frequency is a division of integers.
abbrev pub tick : TimerManager → TimerManager
tick t =
    let n = add64 t.ticks 1 in
    let ms = mul64 n (1000 / t.frequency) in
    record t { ticks = n; milliseconds = ms; seconds = ms / 1000 }

unfoldable pub timer_interrupt_handler : Outside → Machine → Machine
unfolding pic_send_eoi
timer_interrupt_handler out k =
    let k1 = pic_send_eoi 0 (count_hardware 0 (record k { timer = tick k.timer })) in
    if out.scheduler_is_enabled k1.sched
    then record k1 { sched = scheduler_tick out.fuel k1.sched }
    else k1

unfoldable pub keyboard_interrupt_handler : Machine → Machine
unfolding pic_send_eoi
keyboard_interrupt_handler k = pic_send_eoi 1 (count_hardware 1 k)

-- g_exceptions[v].count++
abbrev count_exception : (v : ℕ) → Machine → Machine
count_exception v k = record k {
  exceptions = λ w.
      if v == w
      then record (k.exceptions w) { count = add32 (k.exceptions w).count 1 }
      else k.exceptions w;
}

-- if (handlers[vector]) handlers[vector](vector, error_code, context)
unfoldable pub run : Outside → Handler → (vector error_code : ℕ) → Machine → Outcome
unfolding default_exception_handler default_interrupt_handler timer_interrupt_handler
    keyboard_interrupt_handler
run out null v e k = returned k
run out default_exception v e k = default_exception_handler v k
run out default_interrupt v e k = returned (default_interrupt_handler v k)
run out timer_handler v e k = returned (timer_interrupt_handler out k)
run out keyboard_handler v e k = returned (keyboard_interrupt_handler k)
run out page_fault_handler v e k = returned (count_exception exception_page_fault k)
run out gpf_handler v e k = panicked (count_exception exception_general_protect k)
run out (other n) v e k = out.call n v e k

unfoldable pub interrupt_common_handler : Outside → (vector error_code : ℕ) → Machine → Outcome
unfolding run
interrupt_common_handler out v e k = leave_handler (run out (k.handlers v) v e (enter_handler k))

pub pic_init : Machine → ℤ × Machine
unfolding outb
pic_init k = (
  pos 0,
  outb 161 255 (
      outb 33 255 (
        outb 161 1 (
          outb 161 2
            (outb 161 40 (outb 160 17 (outb 33 1 (outb 33 4 (outb 33 32 (outb 32 17 k))))))))),
)

-- The port and the number of an interrupt line at its controller.
abbrev pub pic_port : (irq : ℕ) → ℕ × ℕ
pic_port irq = if ltb irq 8 then (33, irq) else (161, irq - 8)

unfoldable pub pic_enable_irq : (irq : ℕ) → Machine → Machine
unfolding inb outb
pic_enable_irq irq k =
    if leb 16 irq
    then k
    else (let (port, n) = pic_port irq in
        let k1 = outb port (bit_and (inb port) (255 - 2 ^ n)) k in
        set_info n (record (k1.hardware n) { enabled = true }) k1)

unfoldable pub pic_disable_irq : (irq : ℕ) → Machine → Machine
unfolding inb outb
pic_disable_irq irq k =
    if leb 16 irq
    then k
    else (let (port, n) = pic_port irq in
        let k1 = outb port (bit_or (inb port) (2 ^ n)) k in
        set_info n (record (k1.hardware n) { enabled = false }) k1)

pub pic_get_irq_mask : ℕ
unfolding inb
pic_get_irq_mask = bit_or (inb 161 * 2 ^ 8) (inb 33)

pub pic_set_irq_mask : (mask : ℕ) → Machine → Machine
unfolding outb
pic_set_irq_mask mask k = outb 161 (bit_and (mask / 2 ^ 8) 255) (outb 33 (bit_and mask 255) k)

unfoldable pub timer_init : (frequency : ℕ) → Machine → ℤ × Machine
unfolding outb idt_register_handler pic_enable_irq
timer_init frequency k =
    let k1 = record k {
      timer = record {
        ticks = 0;
        milliseconds = 0;
        seconds = 0;
        frequency = frequency;
        initialized = true;
        last_tick_time = 0;
        tick_overruns = 0;
      };
    } in
    let divisor = 1193180 / frequency in
    let k2 =
      outb 64 (bit_and (divisor / 2 ^ 8) 255) (outb 64 (bit_and divisor 255) (outb 67 54 k1)) in
    (pos 0, pic_enable_irq 0 (idt_register_handler irq_timer timer_handler k2).1)

-- The tests of the answers of idt_init, pic_init and timer_init are left out: each of them is 0.
pub interrupt_init : Outside → Machine → ℤ × Machine
unfolding idt_init init_exception_table init_hardware_interrupt_table pic_init idt_register_handler
    timer_init
interrupt_init out k =
    let k1 = init_hardware_interrupt_table (init_exception_table (idt_init out k).1) in
    let k2 = (pic_init k1).1 in
    let k3 = (idt_register_handler exception_page_fault page_fault_handler k2).1 in
    let k4 = (idt_register_handler exception_general_protect gpf_handler k3).1 in
    let k5 = (idt_register_handler irq_keyboard keyboard_handler k4).1 in
    timer_init timer_frequency k5

pub interrupt_shutdown : Machine → Machine
unfolding interrupts_disable pic_set_irq_mask
interrupt_shutdown k =
    let k1 = pic_set_irq_mask 65535 (interrupts_disable k).1 in
    record k1 { timer = record k1.timer { initialized = false } }

unfoldable pub critical_section_enter : Machine → Bool × Machine
unfolding interrupts_disable
critical_section_enter = interrupts_disable

unfoldable pub critical_section_exit : Bool → Machine → Machine
unfolding interrupts_restore
critical_section_exit = interrupts_restore

-- idt_get_stats()->nested_interrupts > 0
unfoldable pub in_interrupt : Machine → Bool
in_interrupt k = ltb 0 k.stats.nested_interrupts

-- (uint32_t)idt_get_stats()->nested_interrupts
unfoldable pub interrupt_get_nesting_level : Machine → ℕ
interrupt_get_nesting_level k = k.stats.nested_interrupts % 2 ^ 32

pub exception_get_info : (exception : ℕ) → Machine → Option ExceptionInfo
exception_get_info v k = if leb 32 v then none else some (k.exceptions v)

pub irq_get_info : (irq : ℕ) → Machine → Option HardwareInterruptInfo
irq_get_info i k = if leb 16 i then none else some (k.hardware i)

pub exception_register_handler : (exception : ℕ) → Handler → Machine → ℤ × Machine
unfolding idt_register_handler
exception_register_handler v h k = if leb 32 v then (negsuc 0, k) else idt_register_handler v h k

pub irq_register_handler : (irq : ℕ) → Handler → Machine → ℤ × Machine
unfolding idt_register_handler
irq_register_handler i h k =
    if leb 16 i then (negsuc 0, k) else idt_register_handler (irq_timer + i) h k

pub irq_unregister_handler : (irq : ℕ) → Machine → ℤ × Machine
unfolding idt_unregister_handler
irq_unregister_handler i k =
    if leb 16 i then (negsuc 0, k) else idt_unregister_handler (irq_timer + i) k

unfoldable pub timer_get_uptime_ms : Machine → ℕ
timer_get_uptime_ms k = k.timer.milliseconds

-- n timer interrupts.
unfoldable pub after_ticks : Outside → (n : ℕ) → Machine → Machine
after_ticks out zero k = k
after_ticks out (suc n) k = timer_interrupt_handler out (after_ticks out n k)

-- The loop of timer_sleep_ms from its reading 1 + i of the uptime on: `arrivals i` timer interrupts
-- come between the reading i and the next one, and no other interrupt changes the timer. The answer
-- is the machine at the reading that ends the loop.
unfoldable pub sleep_from :
    (fuel : ℕ) → Outside → (arrivals : ℕ → ℕ) → (start ms i : ℕ) → Machine → Option Machine
sleep_from zero out arrivals start ms i k = none
sleep_from (suc fuel) out arrivals start ms i k =
    let k1 = after_ticks out (arrivals i) k in
    let rest = sleep_from fuel out arrivals start ms (suc i) k1 in
    if ltb (sub64 (timer_get_uptime_ms k1) start) ms then rest else some k1

unfoldable pub timer_sleep_ms :
    (fuel : ℕ) → Outside → (arrivals : ℕ → ℕ) → (ms : ℕ) → Machine → Option Machine
unfolding sleep_from
timer_sleep_ms fuel out arrivals ms k = sleep_from fuel out arrivals (timer_get_uptime_ms k) ms 0 k
