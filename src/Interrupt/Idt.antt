-- ===== src/Interrupt/Idt.antt =====
-- kernel/interrupt/idt.c.
use fg_os.Base.{
  ℕ, zero, suc, ◌*◌, ◌/◌, ◌-◌, ◌^◌, ◌==◌, ltb, leb, Bool, true, false, ◌&&◌, ◌||◌, if◌then◌else◌,
  add32, sub32, add64, sub64, bit_and, bit_or,
}
use fg_os.Base.Int.{ℤ, pos, negsuc}
use fg_os.Interrupt.State.{
  Machine, Handler, null, default_exception, default_interrupt, is_null, IdtEntry, no_entry,
  no_interrupts, InterruptStats, Outcome, returned, panicked, Outside, idt_entries,
  idt_gate_interrupt, idt_dpl_kernel, idt_dpl_user, irq_timer, irq_secondary_ata, int_syscall,
  interrupt_system_disabled, interrupt_system_initializing, interrupt_system_enabled,
  exception_double_fault, exception_general_protect, exception_machine_check,
}

-- interrupt_frequency[vector]++ and total_interrupts++.
abbrev pub count_interrupt : (vector : ℕ) → InterruptStats → InterruptStats
count_interrupt vector t = record t {
  total_interrupts = add64 t.total_interrupts 1;
  interrupt_frequency =
      λ v. if vector == v then add32 (t.interrupt_frequency v) 1 else t.interrupt_frequency v;
}

unfoldable pub default_exception_handler : (vector : ℕ) → Machine → Outcome
default_exception_handler vector k =
    let t = count_interrupt vector k.stats in
    let k1 = record k { stats = record t { exceptions = add64 t.exceptions 1 } } in
    if vector == exception_double_fault
      || vector == exception_machine_check
      || vector == exception_general_protect
    then panicked k1
    else returned k1

-- The end of interrupt that the handler sends for a hardware interrupt changes none of this state.
unfoldable pub default_interrupt_handler : (vector : ℕ) → Machine → Machine
default_interrupt_handler vector k =
    let t = count_interrupt vector k.stats in
    record k {
      stats =
          if leb irq_timer vector && leb vector irq_secondary_ata
          then record t { hardware_interrupts = add64 t.hardware_interrupts 1 }
          else if leb int_syscall vector
          then record t { software_interrupts = add64 t.software_interrupts 1 }
          else record t { spurious_interrupts = add64 t.spurious_interrupts 1 };
    }

abbrev put_entry : (vector : ℕ) → IdtEntry → Machine → Machine
put_entry vector e k = record k { idt = λ v. if vector == v then e else k.idt v }

-- The address of the handler in three parts, without an interrupt stack.
unfoldable pub split_entry : (handler selector type_attr : ℕ) → IdtEntry
split_entry handler selector type_attr = record {
  offset_low = bit_and handler 65535;
  selector = selector;
  ist = 0;
  type_attr = type_attr;
  offset_mid = bit_and (handler / 2 ^ 16) 65535;
  offset_high = bit_and (handler / 2 ^ 32) 4294967295;
  reserved = 0;
}

unfoldable pub idt_set_entry : (vector handler selector type_attr : ℕ) → Machine → ℤ × Machine
unfolding split_entry
idt_set_entry vector handler selector type_attr k =
    if k.state == interrupt_system_disabled
    then (negsuc 0, k)
    else (pos 0, put_entry vector (split_entry handler selector type_attr) k)

-- The address that idt_dump puts together from the parts of an entry.
unfoldable pub entry_address : IdtEntry → ℕ
entry_address e = bit_or (bit_or e.offset_low (e.offset_mid * 2 ^ 16)) (e.offset_high * 2 ^ 32)

-- Whether interrupts were enabled, which is the bit of the flags that interrupts_restore tests.
unfoldable pub interrupts_disable : Machine → Bool × Machine
interrupts_disable k = (
  k.interrupt_flag,
  record k { interrupt_flag = false; disabled_count = add64 k.disabled_count 1 },
)

unfoldable pub interrupts_enable : Machine → Machine
interrupts_enable k =
    let n = if ltb 0 k.disabled_count then sub64 k.disabled_count 1 else k.disabled_count in
    record k { disabled_count = n; interrupt_flag = if n == 0 then true else k.interrupt_flag }

unfoldable pub interrupts_restore : Bool → Machine → Machine
unfolding interrupts_enable
interrupts_restore flag k = if flag then interrupts_enable k else k

abbrev pub put_handler : (vector : ℕ) → Handler → Machine → Machine
put_handler vector h k = record k { handlers = λ v. if vector == v then h else k.handlers v }

-- The handlers are changed with interrupts disabled.
unfoldable pub install_handler : (vector : ℕ) → Handler → Machine → Machine
unfolding interrupts_disable interrupts_restore
install_handler vector h k =
    let (flags, k1) = interrupts_disable k in interrupts_restore flags (put_handler vector h k1)

unfoldable pub idt_register_handler : (vector : ℕ) → Handler → Machine → ℤ × Machine
unfolding install_handler
idt_register_handler vector h k =
    if k.state == interrupt_system_disabled
    then (negsuc 0, k)
    else if is_null h
    then (negsuc 1, k)
    else (pos 0, install_handler vector h k)

abbrev pub default_handler : (vector : ℕ) → Handler
default_handler vector = if ltb vector 32 then default_exception else default_interrupt

unfoldable pub idt_unregister_handler : (vector : ℕ) → Machine → ℤ × Machine
unfolding install_handler
idt_unregister_handler vector k =
    if k.state == interrupt_system_disabled
    then (negsuc 0, k)
    else (pos 0, install_handler vector (default_handler vector) k)

-- for (i = from; i < from + rounds; i++) handlers[i] = default
unfoldable pub default_handlers : (rounds from : ℕ) → Machine → Machine
default_handlers zero from k = k
default_handlers (suc n) from k =
    default_handlers n (suc from) (put_handler from (default_handler from) k)

-- for (i = from; i < from + rounds; i++) idt_set_entry(i, handler, 8, type)
unfoldable pub set_entries : (rounds from handler type_attr : ℕ) → Machine → Machine
unfolding idt_set_entry
set_entries zero from handler type_attr k = k
set_entries (suc n) from handler type_attr k =
    set_entries n (suc from) handler type_attr (idt_set_entry from handler 8 type_attr k).1

-- memset(&g_interrupt_manager, 0, ...), and the state and the pointer of the table.
unfoldable pub cleared : (table : ℕ) → Machine → Machine
cleared table k = record k {
  idt = λ v. no_entry;
  limit = idt_entries * 16 - 1;
  base = table;
  handlers = λ v. null;
  stats = no_interrupts;
  state = interrupt_system_initializing;
  nested_level = 0;
  disabled_count = 0;
}

unfoldable pub idt_init : Outside → Machine → ℤ × Machine
idt_init out k =
    let gate = bit_or idt_gate_interrupt idt_dpl_kernel in
    let k1 = default_handlers idt_entries 0 (cleared out.table k) in
    let k2 = set_entries 32 0 (out.address default_exception) gate k1 in
    let k3 = set_entries 16 32 (out.address default_interrupt) gate k2 in
    let k4 =
      set_entries (idt_entries - 48) 48 (out.address default_interrupt)
        (bit_or idt_gate_interrupt idt_dpl_user) k3 in
    (pos 0, record k4 { state = interrupt_system_enabled })

unfoldable pub idt_reset_stats : Machine → Machine
idt_reset_stats k = record k { stats = no_interrupts }

abbrev pub enter_handler : Machine → Machine
enter_handler k = record k { nested_level = add32 k.nested_level 1 }

abbrev pub leave_handler : Outcome → Outcome
leave_handler (returned k) = returned (record k { nested_level = sub32 k.nested_level 1 })
leave_handler (panicked k) = panicked k
