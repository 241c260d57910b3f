-- ===== src/Examples/Processes.antt =====
-- Runs of the process table: process 1 stands at 100, its child 2 at 200, and 300 is free.
use fg_os.Base.{ℕ, ◌≡◌, ◌≢◌, refl, ◌⊎◌, arith, false, ◌==◌, ◌||◌, [], ◌∷◌, some, if◌then◌else◌}
use fg_os.Base.Int.{pos}
use fg_os.Sched.Processes.{
  ProcessTable, ControlBlock, ProcessState, get_process, find_process, create_process,
  destroy_process, kern_notfound, kern_busy,
}
use fg_os.Sched.Registered.{IsProcesses, create_process_lem}
use fg_os.Sched.Destroyed.{destroy_process_lem, destroy_process-parent}

abbrev block : (pid parent : ℕ) → ControlBlock
block pid parent = record {
  pid = pid;
  ppid = 0;
  name = [];
  state = ProcessState.ready;
  page_directory = 0;
  heap_start = 0;
  heap_end = 0;
  stack_start = 0;
  stack_end = 0;
  creation_time = 0;
  cpu_time = 0;
  last_scheduled = 0;
  priority = 10;
  time_slice = 20;
  remaining_time = 20;
  main_thread = 0;
  threads = 0;
  thread_count = 0;
  parent = parent;
  children = 0;
}

abbrev table : ProcessTable
table = record {
  process_list = 200 ∷ 100 ∷ [];
  current_process = 200;
  next_pid = 3;
  process_count = 2;
  processes_created = 2;
  processes_destroyed = 0;
  fake_time = 9;
  control_blocks = λ q. if q == 100 then block 1 0 else block 2 100;
  blocks = λ q. q == 100 || q == 200;
}

table-IsProcesses : IsProcesses table
table-IsProcesses = record {
  null = refl;
  in_use = (refl, (refl, tt));
  separate = (((omega arith), tt), (tt, tt));
  pids = (((omega arith), tt), (tt, tt));
  below = ((omega arith), ((omega arith), tt));
  counted = refl;
  few = omega arith;
  range = omega arith;
}

create_process_lem_example :
    ((create_process 300 (some (b'a' ∷ [])) 1 table).0 ≡ 300)
    × IsProcesses (create_process 300 (some (b'a' ∷ [])) 1 table).1
    × ((pid : ℕ)
        → get_process pid (create_process 300 (some (b'a' ∷ [])) 1 table).1
          ≡ (if pid == table.next_pid then 300 else get_process pid table))
create_process_lem_example =
    create_process_lem 300 1 (b'a' ∷ []) table table-IsProcesses (omega arith) refl (omega arith)

destroy_process_lem_example :
    IsProcesses (destroy_process 1 table).1
    × (((get_process 1 table ≡ 0) × (destroy_process 1 table ≡ (kern_notfound, table)))
        ⊎ (((get_process 1 table ≢ 0)
              × (get_process 1 table ≡ table.current_process)
              × (destroy_process 1 table ≡ (kern_busy, table)))
            ⊎ ((get_process 1 table ≢ 0)
                × ((destroy_process 1 table).0 ≡ pos 0)
                × ((destroy_process 1 table).1.blocks (get_process 1 table) ≡ false)
                × ((other : ℕ)
                    → get_process other (destroy_process 1 table).1
                      ≡ (if other == 1 then 0 else get_process other table)))))
destroy_process_lem_example = destroy_process_lem table table-IsProcesses 1

destroy_process-parent_example :
    ((destroy_process 1 table).1.blocks (get_process 1 table) ≡ false)
    × (((destroy_process 1 table).1.control_blocks 200).parent ≡ get_process 1 table)
unfolding get_process find_process
destroy_process-parent_example = destroy_process-parent 1 200 table (omega arith) (omega arith) refl
