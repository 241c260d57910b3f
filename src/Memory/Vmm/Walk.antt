-- ===== src/Memory/Vmm/Walk.antt =====
-- kernel/mm/vmm.c: the tables form a tree. Each has a level, 4 for the root, and an entry that is
-- present leads one level down.
use fg_os.Base.{
  ℕ, suc, ◌+◌, ◌*◌, ◌/◌, ◌%◌, ◌<◌, ◌≤◌, ◌^◌, true, ◌≡◌, ◌≢◌, refl, sym, subst, ◌∙◌, arith, Option,
  none, some, bit_or, if_true,
}
use fg_os.Base.Bits.{bit_and-not_mask, bit_or_disjoint, bit_or_step, bit_and-low_mask}
use fg_os.Memory.Vmm.{Vmm, next_table, page_of, is_present, pte_present, pte_writable}

-- What pmm_alloc_page answers: 0, or the address of a page, each page at most once.
abbrev pub IsSupply : (ℕ → ℕ) → Type 0
IsSupply pages =
    ((n : ℕ) → (pages n % 4096 ≡ 0) × (pages n < 2 ^ 64))
    × ((n m : ℕ) → n ≢ m → pages n ≢ 0 → pages n ≢ pages m)

-- The levels of the pages: an entry that is present leads from a level of 2 or more one level down,
-- and the pages that are still to be taken have the level 0.
abbrev pub IsTree : (pages level : ℕ → ℕ) → Vmm → Type 0
IsTree pages level m =
    ((t i : ℕ)
      → 2 ≤ level t
      → is_present (m.words t i) ≡ true
      → suc (level (page_of (m.words t i))) ≡ level t)
    × ((n : ℕ) → m.taken ≤ n → pages n ≢ 0 → level (pages n) ≡ 0)

-- A new entry points to its page and is present.
pub fresh_entry :
    (p : ℕ) → p % 4096 ≡ 0 → p < 2 ^ 64 → bit_or (bit_or p pte_present) pte_writable ≡ p + 3
fresh_entry p aligned small =
    let e : p / 2 ^ 12 * 2 ^ 12 ≡ p = omega (arith, aligned) in
    let h : p / 2 / 2 ^ 11 * 2 ^ 11 ≡ p / 2 = omega (arith, aligned) in
    let one : bit_or p 1 ≡ p + 1 =
      subst (λ (x : ℕ). bit_or x 1 ≡ x + 1) e (bit_or_disjoint 12 (p / 2 ^ 12) 1 (omega arith)) in
    let half : bit_or (p / 2) 1 ≡ p / 2 + 1 =
      subst (λ (x : ℕ). bit_or x 1 ≡ x + 1) h
        (bit_or_disjoint 11 (p / 2 / 2 ^ 11) 1 (omega arith)) in
    let same : (p + 1) / 2 ≡ p / 2 = omega (arith, aligned) in
    rw one (bit_or_step (p + 1) 2 ∙ rw (same, half) (omega (arith, aligned)))

pub page_of_fresh : (p : ℕ) → p % 4096 ≡ 0 → p < 2 ^ 64 → page_of (p + 3) ≡ p
page_of_fresh p aligned small =
    bit_and-not_mask 64 12 (p + 3) (omega arith) (omega (arith, aligned, small))
    ∙ omega (arith, aligned)

pub present_fresh : (p : ℕ) → p % 4096 ≡ 0 → is_present (p + 3) ≡ true
present_fresh p aligned = rw (bit_and-low_mask 1 (p + 3)) (ground arith)

-- What a step down leaves of the tables that are in use: their levels, and their entries but that one.
abbrev pub Keeps : (t i : ℕ) → (level level1 : ℕ → ℕ) → Vmm → Vmm → Type 0
Keeps t i level level1 m m1 =
    ((s : ℕ) → 1 ≤ level s → level1 s ≡ level s)
    × ((s j : ℕ) → 1 ≤ level s → t ≢ s → m1.words s j ≡ m.words s j)
    × (m1.kernel_pml4 ≡ m.kernel_pml4)
    × (m.taken ≤ m1.taken)
    × (m1.taken ≤ m.taken + 1)

-- A step down: it has found no page left, or this is where it has led and the tree that it has left.
abbrev pub Descends : (pages level : ℕ → ℕ) → (t i l : ℕ) → Vmm → Option ℕ × Vmm → Type 0
Descends pages level t i l m (none, m1) = pages m.taken ≡ 0
Descends pages level t i l m (some t1, m1) =
    (level1 : ℕ → ℕ) × IsTree pages level1 m1
    × (level1 t1 ≡ suc l)
    × (is_present (m1.words t i) ≡ true)
    × (page_of (m1.words t i) ≡ t1)
    × Keeps t i level level1 m m1

pub next_table-old :
    (pages level : ℕ → ℕ) (t i l : ℕ) (m : Vmm)
    → IsTree pages level m
    → level t ≡ suc (suc l)
    → is_present (m.words t i) ≡ true
    → Descends pages level t i l m (next_table pages t i m)
unfolding next_table
next_table-old pages level t i l m (down, free) at here =
    let e = down t i (omega (arith, at)) here in
    subst (Descends pages level t i l m) (sym (if_true _ _ _ here)) (
      level,
      (down, free),
      omega (arith, e, at),
      here,
      refl,
      (λ s h. refl, λ s j h o. refl, refl, omega arith, omega arith),
    )
