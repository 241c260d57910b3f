-- ===== src/Sched/Processes.antt =====
-- kernel/sched/process.c: the table of processes. Processes are a store by address, and the doubly
-- linked list that begins at process_list is a list of addresses. A process has its links of kinship
-- and the fields that these functions set; `blocks` says which addresses kmalloc has handed out. The
-- file and signal tables, which stay NULL, the nice value, which stays 0, and the lock, which is not
-- used, are left out. The part of process.c that the scheduler calls is in Sched.
use fg_os.Base.{
  ℕ, ◌+◌, ◌==◌, ltb, Bool, true, false, not, ◌||◌, ◌&&◌, List, [], ◌∷◌, Option, none, some,
  if◌then◌else◌, add32, sub32, add64,
}
use fg_os.Fs.Paths.{strncpy_string}
use fg_os.Base.Int.{ℤ, pos, negsuc}

pub data ProcessState : Type 0 where
  new : ProcessState
  ready : ProcessState
  running : ProcessState
  waiting : ProcessState
  stopped : ProcessState
  zombie : ProcessState
  terminated : ProcessState

pub record ControlBlock : Type 0 where
  pub pid : ℕ
  pub ppid : ℕ
  pub name : List ℕ
  pub state : ProcessState
  pub page_directory : ℕ
  pub heap_start : ℕ
  pub heap_end : ℕ
  pub stack_start : ℕ
  pub stack_end : ℕ
  pub creation_time : ℕ
  pub cpu_time : ℕ
  pub last_scheduled : ℕ
  pub priority : ℕ
  pub time_slice : ℕ
  pub remaining_time : ℕ
  pub main_thread : ℕ
  pub threads : ℕ
  pub thread_count : ℕ
  pub parent : ℕ
  pub children : ℕ

-- The static variables; fake_time is the one in get_system_time.
pub record ProcessTable : Type 0 where
  pub process_list : List ℕ
  pub current_process : ℕ
  pub next_pid : ℕ
  pub process_count : ℕ
  pub processes_created : ℕ
  pub processes_destroyed : ℕ
  pub fake_time : ℕ
  pub control_blocks : ℕ → ControlBlock
  pub blocks : ℕ → Bool

abbrev pub priority_normal : ℕ
priority_normal = 10

abbrev pub priority_levels : ℕ
priority_levels = 31

abbrev pub user_base : ℕ
user_base = 0x400000

-- KERN_ERROR, KERN_INVALID, KERN_NOTFOUND and KERN_BUSY.
abbrev pub kern_error : ℤ
kern_error = negsuc 0

abbrev pub kern_invalid : ℤ
kern_invalid = negsuc 2

abbrev pub kern_notfound : ℤ
kern_notfound = negsuc 3

abbrev pub kern_busy : ℤ
kern_busy = negsuc 5

abbrev pub set_block : ℕ → ControlBlock → ProcessTable → ProcessTable
set_block a b s = record s { control_blocks = λ q. if a == q then b else s.control_blocks q }

unfoldable pub process_init : ProcessTable → ProcessTable
process_init s = record s {
  process_list = [];
  current_process = 0;
  next_pid = 1;
  process_count = 0;
  processes_created = 0;
  processes_destroyed = 0;
}

-- The loop of get_process; NULL where no process has the PID.
unfoldable pub find_process : (pid : ℕ) → List ℕ → (ℕ → ControlBlock) → ℕ
find_process pid [] B = 0
find_process pid (proc ∷ rest) B = if (B proc).pid == pid then proc else find_process pid rest B

unfoldable pub get_process : (pid : ℕ) → ProcessTable → ℕ
get_process pid s = find_process pid s.process_list s.control_blocks

-- The process that create_process fills in, but for its parent. The name is cut to 63 bytes.
unfoldable pub new_block : (pid ppid time : ℕ) (name : List ℕ) → ControlBlock
new_block pid ppid time name = record {
  pid = pid;
  ppid = ppid;
  name = strncpy_string 63 name [];
  state = new;
  page_directory = 0;
  heap_start = user_base + 0x400000;
  heap_end = user_base + 0x400000;
  stack_start = user_base + 0x40000000;
  stack_end = user_base + 0x40000000 + 0x100000;
  creation_time = time;
  cpu_time = 0;
  last_scheduled = 0;
  priority = priority_normal;
  time_slice = 20;
  remaining_time = 20;
  main_thread = 0;
  threads = 0;
  thread_count = 0;
  parent = 0;
  children = 0;
}

-- The new process gets its parent, if there is one, and becomes its child if it has none so far.
unfoldable pub set_parent : (proc parent_pid : ℕ) → ProcessTable → ProcessTable
set_parent proc parent_pid s =
    let parent = get_process parent_pid s in
    let s1 = set_block proc (record (s.control_blocks proc) { parent = parent }) s in
    let p = s1.control_blocks parent in
    if parent_pid == 0 || parent == 0
    then s
    else if p.children == 0
    then set_block parent (record p { children = proc }) s1
    else s1

-- The new process is put at the head of the list.
unfoldable pub enlist_process : (proc : ℕ) → ProcessTable → ProcessTable
enlist_process proc s = record s {
  process_list = proc ∷ s.process_list;
  process_count = add32 s.process_count 1;
  processes_created = add64 s.processes_created 1;
}

-- `proc` is the answer of kmalloc. NULL is returned where it fails, or where the name is NULL.
unfoldable pub create_process :
    (proc : ℕ) (name : Option (List ℕ)) (parent_pid : ℕ) → ProcessTable → ℕ × ProcessTable
create_process proc none parent_pid s = (0, s)
create_process proc (some name) parent_pid s =
    let time = add64 s.fake_time 1 in
    let s1 = record s {
      next_pid = add32 s.next_pid 1;
      fake_time = time;
      control_blocks =
          λ q. if proc == q then new_block s.next_pid parent_pid time name else s.control_blocks q;
      blocks = λ q. if proc == q then true else s.blocks q;
    } in
    if proc == 0 then (0, s) else (proc, enlist_process proc (set_parent proc parent_pid s1))

unfoldable pub unlist : (proc : ℕ) → List ℕ → List ℕ
unlist proc [] = []
unlist proc (first ∷ rest) = if first == proc then rest else first ∷ unlist proc rest

-- The fields that destroy_process clears, with cleanup_process_memory.
unfoldable pub cleared_block : ControlBlock → ControlBlock
cleared_block b = record b {
  state = terminated;
  thread_count = 0;
  threads = 0;
  main_thread = 0;
  page_directory = 0;
  heap_start = 0;
  heap_end = 0;
  stack_start = 0;
  stack_end = 0;
}

-- The parent's link to its child is cut where the child is this process.
unfoldable pub leave_parent : (proc : ℕ) → ProcessTable → ProcessTable
leave_parent proc s =
    let parent = (s.control_blocks proc).parent in
    let p = s.control_blocks parent in
    if not (parent == 0) && p.children == proc
    then set_block parent (record p { children = 0 }) s
    else s

-- destroy_process once the process is found.
unfoldable pub erase_process : (proc : ℕ) → ProcessTable → ProcessTable
erase_process proc s =
    let s1 = set_block proc (cleared_block (s.control_blocks proc)) s in
    let s2 = leave_parent proc (record s1 { process_list = unlist proc s1.process_list }) in
    record s2 {
      blocks = λ q. if proc == q then false else s2.blocks q;
      process_count = sub32 s2.process_count 1;
      processes_destroyed = add64 s2.processes_destroyed 1;
    }

unfoldable pub destroy_process : (pid : ℕ) → ProcessTable → ℤ × ProcessTable
destroy_process pid s =
    let proc = get_process pid s in
    if proc == 0
    then (kern_notfound, s)
    else if proc == s.current_process
    then (kern_busy, s)
    else (pos 0, erase_process proc s)

unfoldable pub set_process_priority : (pid priority : ℕ) → ProcessTable → ℤ × ProcessTable
set_process_priority pid priority s =
    let proc = get_process pid s in
    if not (ltb priority priority_levels)
    then (kern_invalid, s)
    else if proc == 0
    then (kern_notfound, s)
    else (pos 0, set_block proc (record (s.control_blocks proc) { priority = priority }) s)

unfoldable pub get_process_priority : (pid : ℕ) → ProcessTable → ℕ
get_process_priority pid s =
    let proc = get_process pid s in
    if proc == 0 then priority_levels else (s.control_blocks proc).priority

abbrev pub may_suspend : ProcessState → Bool
may_suspend running = true
may_suspend ready = true
may_suspend _ = false

abbrev pub is_stopped : ProcessState → Bool
is_stopped stopped = true
is_stopped _ = false

abbrev pub is_over : ProcessState → Bool
is_over terminated = true
is_over zombie = true
is_over _ = false

abbrev pub set_state : (proc : ℕ) → ProcessState → ProcessTable → ProcessTable
set_state proc state s = set_block proc (record (s.control_blocks proc) { state = state }) s

unfoldable pub suspend_process : (pid : ℕ) → ProcessTable → ℤ × ProcessTable
suspend_process pid s =
    let proc = get_process pid s in
    if proc == 0
    then (kern_notfound, s)
    else if may_suspend (s.control_blocks proc).state
    then (pos 0, set_state proc stopped s)
    else (kern_error, s)

unfoldable pub resume_process : (pid : ℕ) → ProcessTable → ℤ × ProcessTable
resume_process pid s =
    let proc = get_process pid s in
    if proc == 0
    then (kern_notfound, s)
    else if is_stopped (s.control_blocks proc).state
    then (pos 0, set_state proc ready s)
    else (kern_error, s)

-- SIGKILL is 9. The signal is an int.
unfoldable pub kill_process : (pid : ℕ) (signal : ℤ) → ProcessTable → ℤ × ProcessTable
kill_process pid (negsuc n) s = if get_process pid s == 0 then (kern_notfound, s) else (pos 0, s)
kill_process pid (pos signal) s =
    if get_process pid s == 0
    then (kern_notfound, s)
    else if signal == 9
    then destroy_process pid s
    else (pos 0, s)

-- The answer, and what is written to *status, if it is not NULL.
unfoldable pub wait_process : (pid : ℕ) (status_given : Bool) → ProcessTable → ℤ × Option ℕ
wait_process pid status_given s =
    let proc = get_process pid s in
    if proc == 0
    then (kern_notfound, none)
    else if is_over (s.control_blocks proc).state
    then (pos 0, (if status_given then some 0 else none))
    else (kern_busy, none)
