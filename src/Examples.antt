-- ===== src/Examples.antt =====
-- Concrete runs: each theorem that has hypotheses is applied at inputs that meet them.
mod Bytes
mod Pmm
mod Heap
mod Sched
mod Device
mod Interrupt
mod Vmm
mod Fs
mod Fgfs
mod Mounted
mod Processes
