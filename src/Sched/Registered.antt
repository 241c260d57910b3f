-- ===== src/Sched/Registered.antt =====
-- kernel/sched/process.c: the invariant of the process table, and who is found after a process is
-- created or destroyed.
use fg_os.Base.{
  ℕ, ◌+◌, ◌^◌, ◌<◌, ◌==◌, ◌≡◌, ◌≢◌, refl, sym, ap, subst, ◌∙◌, arith, Bool, true, false, List, [],
  ◌∷◌, map, some, length, All, Distinct, All-map_of, if◌then◌else◌, if_true, if_false, eq→==, ne→==,
  add32, add64,
}
use fg_os.Sched.Processes.{
  ProcessTable, ControlBlock, find_process, get_process, new_block, set_parent, enlist_process,
  create_process,
}

abbrev pub pid_of : ProcessTable → ℕ → ℕ
pid_of s q = (s.control_blocks q).pid

-- The processes of the list are different blocks in use with different PIDs, all below next_pid, and
-- process_count is their number.
pub record IsProcesses (s : ProcessTable) : Type 0 where
  pub null : s.blocks 0 ≡ false
  pub in_use : All (λ q. s.blocks q ≡ true) s.process_list
  pub separate : Distinct s.process_list
  pub pids : Distinct (map (pid_of s) s.process_list)
  pub below : All (λ q. pid_of s q < s.next_pid) s.process_list
  pub counted : s.process_count ≡ length s.process_list
  pub few : length s.process_list < s.next_pid
  pub range : s.next_pid < 2 ^ 32

set_parent-pid :
    (proc parent_pid : ℕ) (s : ProcessTable) (q : ℕ)
    → pid_of (set_parent proc parent_pid s) q ≡ pid_of s q
unfolding set_parent
set_parent-pid proc parent_pid s q = ground arith

set_parent-rest :
    (proc parent_pid : ℕ) (s : ProcessTable)
    → ((set_parent proc parent_pid s).process_list ≡ s.process_list)
      × ((set_parent proc parent_pid s).blocks ≡ s.blocks)
      × ((set_parent proc parent_pid s).next_pid ≡ s.next_pid)
      × ((set_parent proc parent_pid s).process_count ≡ s.process_count)
unfolding set_parent
set_parent-rest proc parent_pid s = ground arith

pub map_same :
    (s t : ProcessTable) (ps : List ℕ)
    → All (λ q. pid_of t q ≡ pid_of s q) ps
    → map (pid_of t) ps ≡ map (pid_of s) ps
map_same s t [] h = refl
map_same s t (p ∷ ps) h = let first = h.0 in let rest = map_same s t ps h.1 in cc

All-map : (P : ℕ → Type 0) (f : ℕ → ℕ) (ps : List ℕ) → All (λ q. P (f q)) ps → All P (map f ps)
All-map P f [] h = tt
All-map P f (p ∷ ps) h = (h.0, All-map P f ps h.1)

if_pid : (b : Bool) (x y : ControlBlock) → (if b then x else y).pid ≡ (if b then x.pid else y.pid)
if_pid true x y = refl
if_pid false x y = refl

-- A table with one more process at its head.
record Grown (proc : ℕ) (s t : ProcessTable) : Type 0 where
  list : t.process_list ≡ proc ∷ s.process_list
  count : t.process_count ≡ add32 s.process_count 1
  next : t.next_pid ≡ add32 s.next_pid 1
  taken : (q : ℕ) → t.blocks q ≡ (if proc == q then true else s.blocks q)
  named : (q : ℕ) → pid_of t q ≡ (if proc == q then s.next_pid else pid_of s q)

pub find_process-same :
    (pid : ℕ) (s t : ProcessTable) (ps : List ℕ)
    → All (λ q. pid_of t q ≡ pid_of s q) ps
    → find_process pid ps t.control_blocks ≡ find_process pid ps s.control_blocks
unfolding find_process
find_process-same pid s t [] h = refl
find_process-same pid s t (p ∷ ps) h =
    let first = h.0 in let rest = find_process-same pid s t ps h.1 in ground arith

module _ (proc : ℕ) (s t : ProcessTable) (I : IsProcesses s) (G : Grown proc s t)
    (free : s.blocks proc ≡ false) (real : proc ≢ 0) (room : s.next_pid + 1 < 2 ^ 32) where
  apart : All (λ q. proc ≢ q) s.process_list
  apart =
      All-map_of (λ q. s.blocks q ≡ true) _ (λ q used same. let e = ap s.blocks same in cc) _
        I.in_use

  unnamed : All (λ q. pid_of t q ≡ pid_of s q) s.process_list
  unnamed =
      All-map_of (λ q. proc ≢ q) _ (λ q ne. G.named q ∙ if_false _ _ _ (ne→== proc q ne)) _ apart

  own_pid : pid_of t proc ≡ s.next_pid
  own_pid = G.named proc ∙ if_true _ _ _ (eq→== proc proc refl)

  next_lem : t.next_pid ≡ s.next_pid + 1
  next_lem = omega (arith, G.next)

  Grown-IsProcesses : IsProcesses t
  Grown-IsProcesses = record {
    null = G.taken 0 ∙ if_false _ _ _ (ne→== proc 0 real) ∙ I.null;
    in_use = subst (All (λ q. t.blocks q ≡ true)) (sym G.list) (
      G.taken proc ∙ if_true _ _ _ (eq→== proc proc refl),
      All-map_of (λ q. s.blocks q ≡ true) _ (λ q used. let e = G.taken q in ground arith) _
          I.in_use,
    );
    separate = subst Distinct (sym G.list) (apart, I.separate);
    pids =
        subst (λ ps. Distinct (map (pid_of t) ps)) (sym G.list)
          (subst Distinct
            (sym (
              ap (λ (x : ℕ). x ∷ map (pid_of t) s.process_list) own_pid
              ∙ ap (λ (xs : List ℕ). s.next_pid ∷ xs) (map_same s t s.process_list unnamed)))
            (
              All-map (λ y. s.next_pid ≢ y) (pid_of s) s.process_list
                  (All-map_of (λ q. pid_of s q < s.next_pid) _ (λ q less. omega arith) _ I.below),
              I.pids,
            ));
    below =
        subst (All (λ q. pid_of t q < t.next_pid)) (sym G.list)
          (omega (arith, own_pid, next_lem), both_below s.process_list unnamed I.below);
    counted = G.count ∙ omega (arith, I.counted, I.few) ∙ sym (ap (length {A = ℕ}) G.list);
    few = subst (λ ps. length ps < t.next_pid) (sym G.list) (omega (arith, I.few, next_lem));
    range = omega (arith, next_lem);
  }
    where
      both_below :
          (ps : List ℕ)
          → All (λ q. pid_of t q ≡ pid_of s q) ps
          → All (λ q. pid_of s q < s.next_pid) ps
          → All (λ q. pid_of t q < t.next_pid) ps
      both_below [] h k = tt
      both_below (p ∷ ps) h k = (omega (arith, h.0, k.0, next_lem), both_below ps h.1 k.1)

  -- The new process is found by its PID, and every other PID finds what it found before.
  Grown-get_process :
      (pid : ℕ) → get_process pid t ≡ (if pid == s.next_pid then proc else get_process pid s)
  unfolding get_process find_process
  Grown-get_process pid =
      let same = find_process-same pid s t s.process_list unnamed in
      let own = own_pid in
      ap (λ (ps : List ℕ). find_process pid ps t.control_blocks) G.list ∙ ground arith

module _ (proc parent_pid : ℕ) (name : List ℕ) (s : ProcessTable) (real : proc ≢ 0) where
  create_process-Grown : Grown proc s (create_process proc (some name) parent_pid s).1
  unfolding create_process enlist_process new_block
  create_process-Grown =
      let time = add64 s.fake_time 1 in
      let s1 : ProcessTable = record s {
        next_pid = add32 s.next_pid 1;
        fake_time = time;
        control_blocks = λ q.
            if proc == q then new_block s.next_pid parent_pid time name else s.control_blocks q;
        blocks = λ q. if proc == q then true else s.blocks q;
      } in
      let rest = set_parent-rest proc parent_pid s1 in
      let made =
        ap (λ (r : ℕ × ProcessTable). r.1)
          (if_false (proc == 0) (0, s) (proc, enlist_process proc (set_parent proc parent_pid s1))
            (ne→== proc 0 real)) in
      subst (Grown proc s) (sym made) (record {
        list = ap (λ (ps : List ℕ). proc ∷ ps) rest.0;
        count = ap (λ (n : ℕ). add32 n 1) rest.3;
        next = rest.2;
        taken = λ q. ap (λ (b : ℕ → Bool). b q) rest.1;
        named = λ q. set_parent-pid proc parent_pid s1 q ∙ if_pid (proc == q) _ _;
      })

-- create_process, where kmalloc has a free block and the PIDs have not run out, keeps the process
-- table: the PIDs stay different, and the count right. It returns the new process, which its PID then
-- finds; every other PID finds what it found before.
pub create_process_lem :
    (proc parent_pid : ℕ) (name : List ℕ) (s : ProcessTable)
    → IsProcesses s
    → proc ≢ 0
    → s.blocks proc ≡ false
    → s.next_pid + 1 < 2 ^ 32
    → ((create_process proc (some name) parent_pid s).0 ≡ proc)
      × IsProcesses (create_process proc (some name) parent_pid s).1
      × ((pid : ℕ)
          → get_process pid (create_process proc (some name) parent_pid s).1
            ≡ (if pid == s.next_pid then proc else get_process pid s))
unfolding create_process
create_process_lem proc parent_pid name s I real free room =
    let G = create_process-Grown proc parent_pid name s real in
    (
      ap (λ (r : ℕ × ProcessTable). r.0) (if_false (proc == 0) (0, s) _ (ne→== proc 0 real)),
      Grown-IsProcesses proc s _ I G free real room,
      Grown-get_process proc s _ I G free real room,
    )
