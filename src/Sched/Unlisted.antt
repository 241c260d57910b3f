-- ===== src/Sched/Unlisted.antt =====
-- kernel/sched/process.c: the list of processes without one of them, and who is found in it.
use fg_os.Base.{
  ℕ, suc, ◌==◌, ◌≡◌, ◌≢◌, refl, sym, ap, subst, ◌∙◌, inl, inr, arith, false, List, [], ◌∷◌, map,
  length, All, Distinct, Listed, if◌then◌else◌, Bool-cases, if_true, if_false, eq→==, ne→==, ==→eq,
}
use fg_os.Sched.Processes.{ControlBlock, find_process, unlist}

pub find_process_lem :
    (pid : ℕ) (ps : List ℕ) (B : ℕ → ControlBlock)
    → find_process pid ps B ≢ 0
    → Listed (find_process pid ps B) ps × ((B (find_process pid ps B)).pid ≡ pid)
unfolding find_process
find_process_lem pid [] B h = absurd (h refl)
find_process_lem pid (p ∷ ps) B h =
    let goal : ℕ → Type 0 = λ r. Listed r (p ∷ ps) × ((B r).pid ≡ pid) in
    elim (Bool-cases ((B p).pid == pid)) [
      | inl e ↦ subst goal (sym (if_true _ _ _ e)) (inl refl, ==→eq _ _ e)
      | inr e ↦
          let skip = if_false ((B p).pid == pid) p (find_process pid ps B) e in
          let rest = find_process_lem pid ps B (λ z. h (skip ∙ z)) in
          subst goal (sym skip) (inr rest.0, rest.1)
    ]

pub Listed-All : (P : ℕ → Type 0) (x : ℕ) (ps : List ℕ) → All P ps → Listed x ps → P x
Listed-All P x [] h listed = elim listed [ ]
Listed-All P x (p ∷ ps) h (inl e) = subst P e h.0
Listed-All P x (p ∷ ps) h (inr later) = Listed-All P x ps h.1 later

pub unlist-All : (P : ℕ → Type 0) (x : ℕ) (ps : List ℕ) → All P ps → All P (unlist x ps)
unfolding unlist
unlist-All P x [] h = tt
unlist-All P x (p ∷ ps) h = elim (Bool-cases (p == x)) [
  | inl e ↦ rw e h.1
  | inr e ↦ rw e (h.0, unlist-All P x ps h.1)
]

pub unlist-map-All :
    (P : ℕ → Type 0) (f : ℕ → ℕ) (x : ℕ) (ps : List ℕ)
    → All P (map f ps)
    → All P (map f (unlist x ps))
unfolding unlist
unlist-map-All P f x [] h = tt
unlist-map-All P f x (p ∷ ps) h = elim (Bool-cases (p == x)) [
  | inl e ↦ rw e h.1
  | inr e ↦ rw e (h.0, unlist-map-All P f x ps h.1)
]

pub unlist-map-Distinct :
    (f : ℕ → ℕ) (x : ℕ) (ps : List ℕ) → Distinct (map f ps) → Distinct (map f (unlist x ps))
unfolding unlist
unlist-map-Distinct f x [] h = tt
unlist-map-Distinct f x (p ∷ ps) h = elim (Bool-cases (p == x)) [
  | inl e ↦ rw e h.1
  | inr e ↦ rw e (unlist-map-All _ f x ps h.0, unlist-map-Distinct f x ps h.1)
]

pub unlist-Distinct : (x : ℕ) (ps : List ℕ) → Distinct ps → Distinct (unlist x ps)
unfolding unlist
unlist-Distinct x [] h = tt
unlist-Distinct x (p ∷ ps) h = elim (Bool-cases (p == x)) [
  | inl e ↦ rw e h.1
  | inr e ↦ rw e (unlist-All _ x ps h.0, unlist-Distinct x ps h.1)
]

pub unlist-apart :
    (x : ℕ) (ps : List ℕ) → Distinct ps → Listed x ps → All (λ q. x ≢ q) (unlist x ps)
unfolding unlist
unlist-apart x [] h listed = elim listed [ ]
unlist-apart x (p ∷ ps) h (inl e) = rw (eq→== p x e) (subst (λ r. All (λ q. r ≢ q) ps) e h.0)
unlist-apart x (p ∷ ps) h (inr later) =
    let ne = Listed-All (λ q. p ≢ q) x ps h.0 later in
    rw (ne→== p x ne) ((λ e. ne (sym e)), unlist-apart x ps h.1 later)

pub length-unlist : (x : ℕ) (ps : List ℕ) → Listed x ps → length ps ≡ suc (length (unlist x ps))
unfolding unlist
length-unlist x [] listed = elim listed [ ]
length-unlist x (p ∷ ps) (inl e) = rw (eq→== p x e) refl
length-unlist x (p ∷ ps) (inr later) = elim (Bool-cases (p == x)) [
  | inl e ↦ rw e refl
  | inr e ↦ rw e (omega (arith, length-unlist x ps later))
]

Listed-map :
    (P : ℕ → Type 0) (f : ℕ → ℕ) (x : ℕ) (ps : List ℕ) → All P (map f ps) → Listed x ps → P (f x)
Listed-map P f x [] h listed = elim listed [ ]
Listed-map P f x (p ∷ ps) h (inl e) = subst (λ q. P (f q)) e h.0
Listed-map P f x (p ∷ ps) h (inr later) = Listed-map P f x ps h.1 later

find_process_missing :
    (pid : ℕ) (ps : List ℕ) (B : ℕ → ControlBlock)
    → All (λ y. pid ≢ y) (map (λ q. (B q).pid) ps)
    → find_process pid ps B ≡ 0
unfolding find_process
find_process_missing pid [] B h = refl
find_process_missing pid (p ∷ ps) B h =
    let ne = h.0 in let rest = find_process_missing pid ps B h.1 in ground arith

-- No other process of the list has the PID of x.
pub find-unlist :
    (pid x : ℕ) (ps : List ℕ) (B : ℕ → ControlBlock)
    → Distinct (map (λ q. (B q).pid) ps)
    → Listed x ps
    → find_process pid (unlist x ps) B ≡ (if pid == (B x).pid then 0 else find_process pid ps B)
unfolding unlist find_process
find-unlist pid x [] B h listed = elim listed [ ]
find-unlist pid x (p ∷ ps) B h (inl e) =
    let missing = find_process_missing (B p).pid ps B h.0 in
    let same = ap (λ q. (B q).pid) e in
    rw (eq→== p x e) (elim (Bool-cases (pid == (B x).pid)) [
      | inl f ↦
          let here : pid ≡ (B p).pid = ==→eq _ _ f ∙ sym same in
          rw f (ap (λ (n : ℕ). find_process n ps B) here ∙ missing)
      | inr f ↦ let other : ((B p).pid == pid) ≡ false = ground arith in rw (f, other) refl
    ])
find-unlist pid x (p ∷ ps) B h (inr later) =
    let ne = Listed-map (λ y. (B p).pid ≢ y) (λ q. (B q).pid) x ps h.0 later in
    let apart : p ≢ x = λ e. ne (ap (λ q. (B q).pid) e) in
    let rest = find-unlist pid x ps B h.1 later in rw (ne→== p x apart) (ground arith)
