-- ===== src/Sched/Destroyed.antt =====
-- kernel/sched/process.c: what destroy_process leaves behind.
use fg_os.Base.{
  ℕ, ◌<◌, ◌==◌, ◌≡◌, ◌≢◌, refl, sym, ap, subst, ◌∙◌, ◌⊎◌, inl, inr, arith, Bool, true, false, List,
  [], ◌∷◌, map, length, All, Distinct, All-map_of, Listed, if◌then◌else◌, Bool-cases, if_true,
  if_false, eq→==, ne→==, ==→eq, sub32,
}
use fg_os.Base.Int.{ℤ, pos}
use fg_os.Sched.Processes.{
  ProcessTable, find_process, get_process, unlist, cleared_block, leave_parent, erase_process,
  destroy_process, kern_notfound, kern_busy,
}
use fg_os.Sched.Unlisted.{
  find_process_lem, unlist-All, unlist-map-Distinct, unlist-Distinct, unlist-apart, length-unlist,
  find-unlist,
}
use fg_os.Sched.Registered.{IsProcesses, pid_of, find_process-same, map_same}

found_lem :
    (pid : ℕ) (s : ProcessTable)
    → get_process pid s ≢ 0
    → Listed (get_process pid s) s.process_list × (pid_of s (get_process pid s) ≡ pid)
unfolding get_process
found_lem pid s h = find_process_lem pid s.process_list s.control_blocks h

erase_process-pid :
    (proc : ℕ) (s : ProcessTable) (q : ℕ) → pid_of (erase_process proc s) q ≡ pid_of s q
unfolding erase_process leave_parent cleared_block
erase_process-pid proc s q = ground arith

erase_process-pids :
    (proc : ℕ) (s : ProcessTable) (ps : List ℕ)
    → All (λ q. pid_of (erase_process proc s) q ≡ pid_of s q) ps
erase_process-pids proc s [] = tt
erase_process-pids proc s (p ∷ ps) = (erase_process-pid proc s p, erase_process-pids proc s ps)

erase_process-parent :
    (proc : ℕ) (s : ProcessTable) (q : ℕ)
    → ((erase_process proc s).control_blocks q).parent ≡ (s.control_blocks q).parent
unfolding erase_process leave_parent cleared_block
erase_process-parent proc s q = ground arith

erase_process-rest :
    (proc : ℕ) (s : ProcessTable)
    → ((erase_process proc s).process_list ≡ unlist proc s.process_list)
      × ((erase_process proc s).next_pid ≡ s.next_pid)
      × ((erase_process proc s).process_count ≡ sub32 s.process_count 1)
      × ((q : ℕ) → (erase_process proc s).blocks q ≡ (if proc == q then false else s.blocks q))
unfolding erase_process leave_parent
erase_process-rest proc s = (ground arith, ground arith, ground arith, λ q. ground arith)

module _ (s : ProcessTable) (I : IsProcesses s) where
  erased-IsProcesses : (proc : ℕ) → Listed proc s.process_list → IsProcesses (erase_process proc s)
  erased-IsProcesses proc listed =
      let t = erase_process proc s in
      let rest = erase_process-rest proc s in
      let unchanged = unlist proc s.process_list in
      let apart = unlist-apart proc s.process_list I.separate listed in
      let shorter = length-unlist proc s.process_list listed in
      record {
        null = rest.3 0 ∙ null_free (proc == 0) I.null;
        in_use =
            subst (All (λ q. t.blocks q ≡ true)) (sym rest.0)
              (still unchanged apart (unlist-All _ proc s.process_list I.in_use) rest.3);
        separate = subst Distinct (sym rest.0) (unlist-Distinct proc s.process_list I.separate);
        pids =
            subst (λ ps. Distinct (map (pid_of t) ps)) (sym rest.0)
              (subst Distinct (sym (map_same s t unchanged (erase_process-pids proc s unchanged)))
                (unlist-map-Distinct (pid_of s) proc s.process_list I.pids));
        below = subst (All (λ q. pid_of t q < t.next_pid)) (sym rest.0) (
            All-map_of (λ q. pid_of s q < s.next_pid) _
              (λ q less. omega (arith, rest.1, erase_process-pid proc s q)) unchanged
              (unlist-All _ proc s.process_list I.below));
        counted =
            rest.2
            ∙ omega (arith, I.counted, shorter, I.few, I.range)
            ∙ sym (ap (length {A = ℕ}) rest.0);
        few =
            subst (λ ps. length ps < t.next_pid) (sym rest.0)
              (omega (arith, I.few, shorter, rest.1));
        range = omega (arith, I.range, rest.1);
      }
    where
      null_free : (b : Bool) → s.blocks 0 ≡ false → (if b then false else s.blocks 0) ≡ false
      null_free true h = refl
      null_free false h = h

      still :
          (ps : List ℕ)
          → All (λ q. proc ≢ q) ps
          → All (λ q. s.blocks q ≡ true) ps
          → ((q : ℕ) → (erase_process proc s).blocks q ≡ (if proc == q then false else s.blocks q))
          → All (λ q. (erase_process proc s).blocks q ≡ true) ps
      still [] a b e = tt
      still (p ∷ ps) a b e = (e p ∙ if_false _ _ _ (ne→== proc p a.0) ∙ b.0, still ps a.1 b.1 e)

  erased-get_process :
      (proc : ℕ)
      → Listed proc s.process_list
      → (pid : ℕ)
      → get_process pid (erase_process proc s)
        ≡ (if pid == pid_of s proc then 0 else get_process pid s)
  unfolding get_process
  erased-get_process proc listed pid =
      let t = erase_process proc s in
      ap (λ (ps : List ℕ). find_process pid ps t.control_blocks) (erase_process-rest proc s).0
      ∙ find_process-same pid s t (unlist proc s.process_list) (erase_process-pids proc s _)
      ∙ find-unlist pid proc s.process_list s.control_blocks I.pids listed

  -- destroy_process keeps the process table. Where the PID is unknown it answers KERN_NOTFOUND, where
  -- it is that of the current process KERN_BUSY, and both times nothing changes. Otherwise it answers
  -- 0 and frees the process, which its PID no longer finds; every other PID finds what it found
  -- before.
  pub destroy_process_lem :
      (pid : ℕ)
      → IsProcesses (destroy_process pid s).1
        × (((get_process pid s ≡ 0) × (destroy_process pid s ≡ (kern_notfound, s)))
            ⊎ (((get_process pid s ≢ 0)
                  × (get_process pid s ≡ s.current_process)
                  × (destroy_process pid s ≡ (kern_busy, s)))
                ⊎ ((get_process pid s ≢ 0)
                    × ((destroy_process pid s).0 ≡ pos 0)
                    × ((destroy_process pid s).1.blocks (get_process pid s) ≡ false)
                    × ((other : ℕ)
                        → get_process other (destroy_process pid s).1
                          ≡ (if other == pid then 0 else get_process other s)))))
  unfolding destroy_process
  destroy_process_lem pid =
      let proc = get_process pid s in
      elim (Bool-cases (proc == 0)) [
        | inl e ↦
            let same = if_true _ _ _ e in
            (subst (λ r. IsProcesses r.1) (sym same) I, inl (==→eq _ _ e, same))
        | inr e ↦
            let real : proc ≢ 0 = ground arith in
            elim (Bool-cases (proc == s.current_process)) [
              | inl f ↦
                  let same = if_false _ _ _ e ∙ if_true _ _ _ f in
                  (subst (λ r. IsProcesses r.1) (sym same) I, inr (inl (real, ==→eq _ _ f, same)))
              | inr f ↦
                  let same = if_false _ _ _ e ∙ if_false _ _ _ f in
                  let found = found_lem pid s real in
                  let state = ap (λ (r : ℤ × ProcessTable). r.1) same in
                  (
                    subst IsProcesses (sym state) (erased-IsProcesses proc found.0),
                    inr (
                        inr (
                          real,
                          ap (λ (r : ℤ × ProcessTable). r.0) same,
                          ap (λ (t : ProcessTable). t.blocks proc) state
                              ∙ (erase_process-rest proc s).3 proc
                              ∙ if_true _ _ _ (eq→== proc proc refl),
                          λ other.
                              ap (get_process other) state
                              ∙ erased-get_process proc found.0 other
                              ∙ ap (λ (n : ℕ). if other == n then 0 else get_process other s)
                                  found.1,
                        )),
                  )
            ]
      ]

-- Destroying a process does not look at its children: a process whose parent is destroyed keeps the
-- pointer to the parent, whose memory is freed.
pub destroy_process-parent :
    (pid child : ℕ) (s : ProcessTable)
    → get_process pid s ≢ 0
    → get_process pid s ≢ s.current_process
    → (s.control_blocks child).parent ≡ get_process pid s
    → ((destroy_process pid s).1.blocks (get_process pid s) ≡ false)
      × (((destroy_process pid s).1.control_blocks child).parent ≡ get_process pid s)
unfolding destroy_process
destroy_process-parent pid child s real idle link =
    let proc = get_process pid s in
    let state =
      ap (λ (r : ℤ × ProcessTable). r.1)
        (if_false (proc == 0) (kern_notfound, s) _ (ne→== proc 0 real)
          ∙ if_false (proc == s.current_process) (kern_busy, s) (pos 0, erase_process proc s)
              (ne→== proc s.current_process idle)) in
    (
      ap (λ (t : ProcessTable). t.blocks proc) state
          ∙ (erase_process-rest proc s).3 proc
          ∙ if_true _ _ _ (eq→== proc proc refl),
      ap (λ (t : ProcessTable). (t.control_blocks child).parent) state
          ∙ erase_process-parent proc s child
          ∙ link,
    )
