-- ===== src/Lib.antt =====
-- FG-OS kernel: a model of its memory management, its scheduler, its interrupts and its framework of
-- devices.
--
-- The kernel is written in C. Each C function is a function of its arguments and of the state that
-- it reads, and returns the new state; static variables are the fields of a record. Addresses and
-- sizes are natural numbers below 2 ^ 64, and where the C code computes on unsigned integers its
-- wrap-around is written out. NULL is 0. Log messages are left out.
--
-- Parts, and the files that model them:
--   Base            numbers, lists, Boolean tests, laws of bit masks.
--   Memory.Bytes    kernel/mm/memory_utils.c: copy, fill, compare, find, checksum.
--   Memory.Align    kernel/mm/memory_utils.c: alignment of addresses.
--   Memory.Strings  kernel/src/string_stubs.c: memset, memcpy, memcmp, strncpy.
--   Memory.Heap     kernel/mm/heap.c: the block allocator. Its list of headers is related to a list
--                   of extents (sizes, free or allocated), on which the operations are specified. The
--                   headers are a store apart from the bytes that callers use.
--   Memory.Pmm      kernel/mm/pmm.c: the page allocator. Its bitmap is a part of the modelled memory,
--                   so that clearing a page can hit it.
--   Memory.Vmm      kernel/mm/vmm.c: page tables as a store of words by table and index; Walk and
--                   Growth have the levels of the tables, Translate what a mapping does to the translation.
--   Sched           kernel/sched/scheduler.c, with the functions of thread.c and process.c that it calls.
--                   The queues are chains of links in a store of threads; Sched.Sleepers has a step
--                   relation of the calls that other parts of the kernel make.
--   Sched.Processes kernel/sched/process.c: the table of processes; Registered, Unlisted and Destroyed have its
--                   invariant and what creating and destroying a process do.
--   Interrupt       kernel/interrupt/idt.c and interrupt.c: Idt and Control have the functions, State
--                   the state and what the code uses but does not contain (Outside: addresses, the
--                   handlers of other code, scheduler_is_enabled). The timer's handler drives Sched.
--                   Startup, Entries, Dispatch, Critical, Timer, Sleep, Stopped and Pic have the laws;
--                   Nesting has a
--                   step relation of what happens between the start and any later moment.
--   Drivers.Device  kernel/drivers/device.c and device.h: Types has the state and what the code calls
--                   but does not contain (Env: the clock, the operations of drivers, the callbacks of
--                   requests); Power, Requests, DriverList, Registry and Stats have the functions.
--                   Gentle is the environment in which drivers leave the framework's records alone;
--                   Lifecycle, Listing, Links, Removal, Submission, Reading, Expiry, Counters and References
--                   prove laws in it.
--   Fs              kernel/fs/fs.c and fs.h: Types has the state and what the code calls but does not
--                   contain (Env: the operations of file systems, Supply: kmalloc and the clock); Paths,
--                   Cache, Mount, Files and Startup have the functions. Lookup, Array, Table, Mounting,
--                   Removal, Unmounting, RoundTrip, Release and Shutdown prove laws.
--   Fs.Fgfs         kernel/fs/fgfs.c and fgfs.h: Types, Checksum, Operations, Files and Format have the
--                   functions; Detection, Collision, Seeking, Mounting and Format prove laws.
--   Examples        concrete inputs at which the theorems' hypotheses hold.
--
-- Loops are recursion on the number of rounds left, which each C loop fixes when it starts; a loop
-- that ends early returns from that recursion. The loops over the heap's list of blocks are recursion
-- on fuel, one more than the heap's size in bytes, which is enough since no block is empty.
-- The walks along the scheduler's queues take their fuel as an argument, since the code does not rule
-- out a cycle in them.
-- timer_sleep_ms is recursion on fuel over its readings of the clock; the number of timer interrupts
-- that come before each reading is an argument, and Sleep has the fuel that is enough where they keep
-- coming. device_read and device_write wait for a pending request in a loop without a body:
-- where the request is pending they have no answer. Neither has fs_mount where it would write past the
-- end of the array of file systems.
--
-- Not modelled: functions that only print (memory_dump, device_dump_info, print_physical_memory_layout,
-- print_memory_stats, print_heap_stats, panic) or that turn a number into a name (but
-- fs_type_to_string, which fs_mount uses), the loading of the
-- interrupt table and the TLB of the processor, threads being created and destroyed, the calls of
-- fgfs.c that only test their arguments, and the parts of the kernel that are not named above.
pub mod Base
pub mod Memory
pub mod Sched
pub mod Drivers
pub mod Fs
pub mod Interrupt
pub mod Examples
