-- ===== src/Interrupt/State.antt =====
-- The state of kernel/interrupt/idt.c and interrupt.c, with idt.h and interrupt.h. The names and the
-- descriptions in the tables, and the fields that no function uses, are left out.
use fg_os.Base.{ℕ, ◌==◌, Bool, true, false, if◌then◌else◌}
use fg_os.Sched.{Sched}

abbrev pub idt_entries : ℕ
idt_entries = 256

abbrev pub idt_gate_interrupt : ℕ
idt_gate_interrupt = 142

abbrev pub idt_dpl_kernel : ℕ
idt_dpl_kernel = 0

abbrev pub idt_dpl_user : ℕ
idt_dpl_user = 96

abbrev pub irq_timer : ℕ
irq_timer = 32

abbrev pub irq_keyboard : ℕ
irq_keyboard = 33

abbrev pub irq_secondary_ata : ℕ
irq_secondary_ata = 47

abbrev pub int_syscall : ℕ
int_syscall = 128

abbrev pub interrupt_system_disabled : ℕ
interrupt_system_disabled = 0

abbrev pub interrupt_system_initializing : ℕ
interrupt_system_initializing = 1

abbrev pub interrupt_system_enabled : ℕ
interrupt_system_enabled = 2

abbrev pub exception_double_fault : ℕ
exception_double_fault = 8

-- The code names it EXCEPTION_GENERAL_PROTECTION, which arch.h spells EXCEPTION_GENERAL_PROTECT.
abbrev pub exception_general_protect : ℕ
exception_general_protect = 13

abbrev pub exception_page_fault : ℕ
exception_page_fault = 14

abbrev pub exception_machine_check : ℕ
exception_machine_check = 18

abbrev pub timer_frequency : ℕ
timer_frequency = 1000

pub record IdtEntry : Type 0 where
  pub offset_low : ℕ
  pub selector : ℕ
  pub ist : ℕ
  pub type_attr : ℕ
  pub offset_mid : ℕ
  pub offset_high : ℕ
  pub reserved : ℕ

abbrev pub no_entry : IdtEntry
no_entry = record {
  offset_low = 0;
  selector = 0;
  ist = 0;
  type_attr = 0;
  offset_mid = 0;
  offset_high = 0;
  reserved = 0;
}

pub record InterruptStats : Type 0 where
  pub total_interrupts : ℕ
  pub exceptions : ℕ
  pub hardware_interrupts : ℕ
  pub software_interrupts : ℕ
  pub spurious_interrupts : ℕ
  pub nested_interrupts : ℕ
  pub interrupt_frequency : ℕ → ℕ

abbrev pub no_interrupts : InterruptStats
no_interrupts = record {
  total_interrupts = 0;
  exceptions = 0;
  hardware_interrupts = 0;
  software_interrupts = 0;
  spurious_interrupts = 0;
  nested_interrupts = 0;
  interrupt_frequency = λ v. 0;
}

pub record ExceptionInfo : Type 0 where
  pub has_error_code : Bool
  pub vector : ℕ
  pub count : ℕ

pub record HardwareInterruptInfo : Type 0 where
  pub irq : ℕ
  pub vector : ℕ
  pub count : ℕ
  pub enabled : Bool
  pub last_time : ℕ
  pub total_time : ℕ

pub record TimerManager : Type 0 where
  pub ticks : ℕ
  pub milliseconds : ℕ
  pub seconds : ℕ
  pub frequency : ℕ
  pub initialized : Bool
  pub last_tick_time : ℕ
  pub tick_overruns : ℕ

-- A handler: NULL, a function of idt.c or interrupt.c, or a function that other code registers.
pub data Handler : Type 0 where
  null default_exception default_interrupt timer_handler keyboard_handler page_fault_handler
        gpf_handler :
      Handler
  other : ℕ → Handler

abbrev pub is_null : Handler → Bool
is_null null = true
is_null _ = false

-- g_interrupt_manager with the other static variables, the scheduler that the timer drives, and the
-- processor's interrupt flag, which is the bit 0x200 of RFLAGS.
pub record Machine : Type 0 where
  pub idt : ℕ → IdtEntry
  pub limit : ℕ
  pub base : ℕ
  pub handlers : ℕ → Handler
  pub stats : InterruptStats
  pub state : ℕ
  pub nested_level : ℕ
  pub disabled_count : ℕ
  pub timer : TimerManager
  pub exceptions : ℕ → ExceptionInfo
  pub hardware : ℕ → HardwareInterruptInfo
  pub sched : Sched
  pub interrupt_flag : Bool

-- A handler returns, or it ends in a panic.
pub data Outcome : Type 0 where
  returned panicked : Machine → Outcome

-- What the code uses and does not contain: the addresses of the handlers and of the table, the
-- handlers of other code, scheduler_is_enabled, and the fuel for the scheduler's walks along queues.
pub record Outside : Type 0 where
  pub address : Handler → ℕ
  pub table : ℕ
  pub call : ℕ → (vector error_code : ℕ) → Machine → Outcome
  pub scheduler_is_enabled : Sched → Bool
  pub fuel : ℕ

abbrev pub set_info : ℕ → HardwareInterruptInfo → Machine → Machine
set_info i h k = record k { hardware = λ j. if i == j then h else k.hardware j }
