-- ===== src/Memory/Vmm/Translate.antt =====
-- kernel/mm/vmm.c: what vmm_map_page has mapped, vmm_get_physical finds.
use fg_os.Base.{
  ℕ, ◌+◌, ◌*◌, ◌/◌, ◌%◌, ◌<◌, ◌≤◌, ◌^◌, true, ◌≡◌, ◌≢◌, ◌⊎◌, inl, inr, refl, sym, ap, ◌∙◌, arith,
  Option, none, some, bit_and, bit_or, if_true,
}
use fg_os.Base.Int.{ℤ, pos, negsuc}
use fg_os.Base.Bits.{bit_and-not_mask, bit_or_disjoint, bit_and-low_mask}
use fg_os.Memory.Vmm.{
  Vmm, next_table, descend, map_entry, vmm_map_page, follow, walk, get_entry, vmm_get_physical,
  page_of, is_present, set_word, index_at,
}
use fg_os.Memory.Vmm.Walk.{IsSupply, IsTree, Descends}
use fg_os.Memory.Vmm.Growth.{next_table-Descends}

-- The entry i of the table t is present and leads to the table t1.
abbrev Leads : Vmm → (t i t1 : ℕ) → Type 0
Leads m t i t1 = (is_present (m.words t i) ≡ true) × (page_of (m.words t i) ≡ t1)

follow-Leads : (i t t1 : ℕ) (m : Vmm) → Leads m t i t1 → follow i m (some t) ≡ some t1
unfolding follow
follow-Leads i t t1 m (here, to) = if_true _ _ _ here ∙ ap some to

same-Leads :
    (m m1 : Vmm) (t i t1 : ℕ) → m1.words t i ≡ m.words t i → Leads m t i t1 → Leads m1 t i t1
same-Leads m m1 t i t1 e (here, to) = (ap is_present e ∙ here, ap page_of e ∙ to)

page_of_entry :
    (p flags : ℕ) → p < 2 ^ 64 → flags < 4096 → bit_or (page_of p) flags ≡ p / 4096 * 4096 + flags
page_of_entry p flags small few =
    ap (λ (x : ℕ). bit_or x flags) (bit_and-not_mask 64 12 p (omega arith) small)
    ∙ bit_or_disjoint 12 (p / 4096) flags (omega (arith, few))

-- The entry that vmm_map_page writes.
module _ (p flags : ℕ) (small : p < 2 ^ 64) (few : flags < 4096) (set_bit : flags % 2 ≡ 1) where
  entry_page : page_of (bit_or (page_of p) flags) ≡ p / 4096 * 4096
  entry_page =
      ap page_of (page_of_entry p flags small few)
      ∙ bit_and-not_mask 64 12 (p / 4096 * 4096 + flags) (omega arith) (omega (arith, small, few))
      ∙ omega (arith, few)

  entry_present : is_present (bit_or (page_of p) flags) ≡ true
  entry_present =
      let e : bit_and (p / 4096 * 4096 + flags) 1 ≡ 1 =
        bit_and-low_mask 1 (p / 4096 * 4096 + flags) ∙ omega (arith, set_bit) in
      ap is_present (page_of_entry p flags small few) ∙ rw e refl

-- The tables on the way to the page table of the address v, and the pages taken since the start.
module _ (v : ℕ) where
  abbrev Way : (start : ℕ) → (level : ℕ → ℕ) → (t4 t3 t2 : ℕ) → Vmm → Type 0
  Way start level t4 t3 t2 m =
      (m.kernel_pml4 ≡ t4)
      × (level t4 ≡ 4)
      × (level t3 ≡ 3)
      × (level t2 ≡ 2)
      × Leads m t4 (index_at 39 v) t3
      × Leads m t3 (index_at 30 v) t2
      × (start ≤ m.taken)
      × (m.taken ≤ start + 2)

  walk-Leads :
      (m : Vmm) (t4 t3 t2 t1 : ℕ)
      → m.kernel_pml4 ≡ t4
      → Leads m t4 (index_at 39 v) t3
      → Leads m t3 (index_at 30 v) t2
      → Leads m t2 (index_at 21 v) t1
      → walk v m ≡ some t1
  unfolding walk
  walk-Leads m t4 t3 t2 t1 root a b c =
      ap
        (λ (t : ℕ).
          follow (index_at 21 v) m (follow (index_at 30 v) m (follow (index_at 39 v) m (some t))))
        root
      ∙ ap (λ (o : Option ℕ). follow (index_at 21 v) m (follow (index_at 30 v) m o))
          (follow-Leads _ t4 t3 m a)
      ∙ ap (follow (index_at 21 v) m) (follow-Leads _ t3 t2 m b)
      ∙ follow-Leads _ t2 t1 m c

set_word-other : (t i x s j : ℕ) (m : Vmm) → t ≢ s → (set_word t i x m).words s j ≡ m.words s j
set_word-other t i x s j m o = ground arith

set_word-same : (t i x : ℕ) (m : Vmm) → (set_word t i x m).words t i ≡ x
set_word-same t i x m = ground arith

apart : (level : ℕ → ℕ) (s t a b : ℕ) → level s ≡ a → level t ≡ b → a ≢ b → s ≢ t
apart level s t a b e f o z = o (sym e ∙ ap level z ∙ f)

-- A call that has failed because no page was left, or the translation of the address afterwards.
abbrev pub Mapped : (pages : ℕ → ℕ) → (start v p : ℕ) → ℤ × Vmm → Type 0
Mapped pages start v p (result, m1) =
    ((result ≡ negsuc 0) × ((n : ℕ) × (start ≤ n) × (n < start + 3) × (pages n ≡ 0)))
    ⊎ ((result ≡ pos 0) × (vmm_get_physical v m1 ≡ p / 4096 * 4096 + v % 4096))

module _ (pages : ℕ → ℕ) (supply : IsSupply pages) (start v p flags : ℕ) (small : p < 2 ^ 64)
    (few : flags < 4096) (set_bit : flags % 2 ≡ 1) where
  -- The translation where the way to the entry is known.
  get-walk :
      (m : Vmm) (t1 : ℕ)
      → walk v m ≡ some t1
      → m.words t1 (index_at 12 v) ≡ bit_or (page_of p) flags
      → vmm_get_physical v m ≡ p / 4096 * 4096 + v % 4096
  unfolding vmm_get_physical
  get-walk m t1 way e =
      let here = ap is_present e ∙ entry_present p flags small few set_bit in
      let page = ap page_of e ∙ entry_page p flags small few set_bit in
      ap (get_entry v m) way
      ∙ if_true _ _ _ here
      ∙ ap (λ (x : ℕ). bit_or x (bit_and v 4095)) page
      ∙ ap (bit_or (p / 4096 * 4096)) (bit_and-low_mask 12 v)
      ∙ bit_or_disjoint 12 (p / 4096) (v % 4096) (omega arith)

  page_step :
      (level : ℕ → ℕ) (t4 t3 t2 : ℕ) (m : Vmm)
      → Way v start level t4 t3 t2 m
      → (r : Option ℕ × Vmm) → Descends pages level t2 (index_at 21 v) 0 m r
      → Mapped pages start v p (map_entry v p flags r)
  unfolding map_entry
  page_step level t4 t3 t2 m (root, a4, a3, a2, l4, l3, lo, hi) (none, m1) d =
      inl (refl, (m.taken, lo, omega (arith, hi), d))
  page_step level t4 t3 t2 m (root, a4, a3, a2, l4, l3, lo, hi) (some t1, m1)
        (level1, tree, a1, here, to, ((lv, wd, rt, up, down))) =
      let m2 = set_word t1 (index_at 12 v) (bit_or (page_of p) flags) m1 in
      let b4 : level1 t4 ≡ 4 = lv t4 (omega (arith, a4)) ∙ a4 in
      let b3 : level1 t3 ≡ 3 = lv t3 (omega (arith, a3)) ∙ a3 in
      let b2 : level1 t2 ≡ 2 = lv t2 (omega (arith, a2)) ∙ a2 in
      let k4 =
        same-Leads m m1 t4 (index_at 39 v) t3
          (wd t4 _ (omega (arith, a4)) (apart level t2 t4 2 4 a2 a4 (λ e. omega (arith, e)))) l4 in
      let k3 =
        same-Leads m m1 t3 (index_at 30 v) t2
          (wd t3 _ (omega (arith, a3)) (apart level t2 t3 2 3 a2 a3 (λ e. omega (arith, e)))) l3 in
      let n4 =
        same-Leads m1 m2 t4 (index_at 39 v) t3
          (set_word-other t1 _ _ t4 _ m1 (apart level1 t1 t4 1 4 a1 b4 (λ e. omega (arith, e))))
          k4 in
      let n3 =
        same-Leads m1 m2 t3 (index_at 30 v) t2
          (set_word-other t1 _ _ t3 _ m1 (apart level1 t1 t3 1 3 a1 b3 (λ e. omega (arith, e))))
          k3 in
      let n2 =
        same-Leads m1 m2 t2 (index_at 21 v) t1
          (set_word-other t1 _ _ t2 _ m1 (apart level1 t1 t2 1 2 a1 b2 (λ e. omega (arith, e))))
          (here, to) in
      let way = walk-Leads v m2 t4 t3 t2 t1 (rt ∙ root) n4 n3 n2 in
      inr
        (refl, get-walk m2 t1 way (set_word-same t1 (index_at 12 v) (bit_or (page_of p) flags) m1))

  table_step :
      (level : ℕ → ℕ) (t4 t3 : ℕ) (m : Vmm)
      → (m.kernel_pml4 ≡ t4)
      → level t4 ≡ 4
      → level t3 ≡ 3
      → Leads m t4 (index_at 39 v) t3
      → start ≤ m.taken
      → m.taken ≤ start + 1
      → (r : Option ℕ × Vmm) → Descends pages level t3 (index_at 30 v) 1 m r
      → Mapped pages start v p (map_entry v p flags (descend pages (index_at 21 v) r))
  unfolding map_entry descend
  table_step level t4 t3 m root a4 a3 l4 lo hi (none, m1) d =
      inl (refl, (m.taken, lo, omega (arith, hi), d))
  table_step level t4 t3 m root a4 a3 l4 lo hi (some t2, m1)
        (level1, tree, a2, here, to, (lv, wd, rt, up, down)) =
      let b4 : level1 t4 ≡ 4 = lv t4 (omega (arith, a4)) ∙ a4 in
      let b3 : level1 t3 ≡ 3 = lv t3 (omega (arith, a3)) ∙ a3 in
      let k4 =
        same-Leads m m1 t4 (index_at 39 v) t3
          (wd t4 _ (omega (arith, a4)) (apart level t3 t4 3 4 a3 a4 (λ e. omega (arith, e)))) l4 in
      page_step level1 t4 t3 t2 m1
        (rt ∙ root, b4, b3, a2, k4, (here, to), omega (arith, lo, up), omega (arith, hi, down))
        (next_table pages t2 (index_at 21 v) m1)
        (next_table-Descends pages level1 supply t2 (index_at 21 v) 0 m1 tree a2)

  root_step :
      (level : ℕ → ℕ) (t4 : ℕ) (m : Vmm)
      → (m.kernel_pml4 ≡ t4)
      → level t4 ≡ 4
      → m.taken ≡ start
      → (r : Option ℕ × Vmm) → Descends pages level t4 (index_at 39 v) 2 m r
      → Mapped pages start v p
          (map_entry v p flags (descend pages (index_at 21 v) (descend pages (index_at 30 v) r)))
  unfolding map_entry descend
  root_step level t4 m root a4 same (none, m1) d =
      inl (refl, (m.taken, omega (arith, same), omega (arith, same), d))
  root_step level t4 m root a4 same (some t3, m1)
        (level1, tree, a3, here, to, (lv, wd, rt, up, down)) =
      table_step level1 t4 t3 m1 (rt ∙ root) (lv t4 (omega (arith, a4)) ∙ a4) a3 (here, to)
        (omega (arith, same, up)) (omega (arith, same, down))
        (next_table pages t3 (index_at 30 v) m1)
        (next_table-Descends pages level1 supply t3 (index_at 30 v) 1 m1 tree a3)

-- The page tables form a tree of levels with a root of level 4, and pmm_alloc_page answers 0 or a page
-- that it has not answered before and that is no table yet. Then vmm_map_page of a 64-bit physical
-- address, with flags of 12 bits of which PTE_PRESENT is set, either answers -1, and then one of the
-- at most three calls of pmm_alloc_page has answered 0; or it answers 0, and then vmm_get_physical
-- translates the virtual address to its offset in the physical page.
pub vmm_get_physical-vmm_map_page :
    (pages level : ℕ → ℕ) (v p flags : ℕ) (m : Vmm)
    → IsSupply pages
    → IsTree pages level m
    → level m.kernel_pml4 ≡ 4
    → p < 2 ^ 64
    → flags < 4096
    → flags % 2 ≡ 1
    → Mapped pages m.taken v p (vmm_map_page pages v p flags m)
unfolding vmm_map_page descend
vmm_get_physical-vmm_map_page pages level v p flags m supply tree root small few set_bit =
    root_step pages supply m.taken v p flags small few set_bit level m.kernel_pml4 m refl root refl
      (next_table pages m.kernel_pml4 (index_at 39 v) m)
      (next_table-Descends pages level supply m.kernel_pml4 (index_at 39 v) 2 m tree root)
