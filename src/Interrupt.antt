-- ===== src/Interrupt.antt =====
-- kernel/interrupt/idt.c and interrupt.c: the interrupt descriptor table, the handlers of interrupts,
-- the interrupt controller and the timer.
pub mod State
pub mod Idt
pub mod Control
pub mod Critical
pub mod Dispatch
pub mod Timer
pub mod Sleep
pub mod Stopped
pub mod Pic
pub mod Entries
pub mod Startup
pub mod Nesting
