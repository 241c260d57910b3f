-- ===== src/Memory/Vmm.antt =====
-- kernel/mm/vmm.c: the page tables. A table is a page of 512 words, named by its address. The answers
-- of pmm_alloc_page are a parameter, and the invalidation of the TLB is left out.
use fg_os.Base.{
  ℕ, zero, suc, ◌+◌, ◌-◌, ◌*◌, ◌/◌, ◌%◌, ◌^◌, ◌==◌, ltb, Bool, true, false, not, ◌&&◌, ◌||◌,
  if◌then◌else◌, Option, none, some, bit_and, bit_or, add64,
}
use fg_os.Base.Int.{ℤ, pos, negsuc}
pub mod Walk
pub mod Growth
pub mod Translate

abbrev pub pte_present : ℕ
pte_present = 1

abbrev pub pte_writable : ℕ
pte_writable = 2

-- The tables, and the number of pages that pmm_alloc_page has answered so far.
pub record Vmm : Type 0 where
  pub kernel_pml4 : ℕ
  pub kernel_cr3 : ℕ
  pub words : (table index : ℕ) → ℕ
  pub taken : ℕ

-- (virtual_addr >> shift) & 0x1FF
abbrev pub index_at : (shift virtual_addr : ℕ) → ℕ
index_at shift v = bit_and (v / 2 ^ shift) 511

-- x & ~0xFFFUL
abbrev pub page_of : ℕ → ℕ
page_of x = bit_and x (2 ^ 64 - 1 - (2 ^ 12 - 1))

abbrev pub is_present : ℕ → Bool
is_present entry = not (bit_and entry pte_present == 0)

abbrev pub set_word : (table index word : ℕ) → Vmm → Vmm
set_word t i x m = record m {
  words = λ s j. if t == s then (if i == j then x else m.words s j) else m.words s j;
}

-- memory_set(page, 0, PAGE_SIZE)
abbrev pub clear_page : ℕ → Vmm → Vmm
clear_page p m = record m { words = λ s j. if p == s then 0 else m.words s j }

-- The last step: the entry of the page itself.
pub map_entry : (virtual_addr physical_addr flags : ℕ) → Option ℕ × Vmm → ℤ × Vmm
map_entry v p flags (none, m) = (negsuc 0, m)
map_entry v p flags (some pt, m) = (pos 0, set_word pt (index_at 12 v) (bit_or (page_of p) flags) m)

module _ (pages : ℕ → ℕ) where
  -- The table that an entry points to; where the entry is not present, a new one.
  pub next_table : (table index : ℕ) → Vmm → Option ℕ × Vmm
  next_table t i m =
      let p = pages m.taken in
      if is_present (m.words t i)
      then (some (page_of (m.words t i)), m)
      else (let m1 = record m { taken = m.taken + 1 } in
          if p == 0
          then (none, m1)
          else (let m2 =
                clear_page p (set_word t i (bit_or (bit_or p pte_present) pte_writable) m1) in
              (some (page_of (m2.words t i)), m2)))

  -- The step to the next level, where there has been no failure.
  pub descend : (index : ℕ) → Option ℕ × Vmm → Option ℕ × Vmm
  unfolding next_table
  descend i (none, m) = (none, m)
  descend i (some t, m) = next_table t i m

  pub vmm_map_page : (virtual_addr physical_addr flags : ℕ) → Vmm → ℤ × Vmm
  vmm_map_page v p flags m = map_entry v p flags (
      descend (index_at 21 v)
        (descend (index_at 30 v) (descend (index_at 39 v) (some m.kernel_pml4, m))))

-- The table that an entry points to, if it is present.
pub follow : (index : ℕ) → Vmm → Option ℕ → Option ℕ
follow i m none = none
follow i m (some t) = if is_present (m.words t i) then some (page_of (m.words t i)) else none

-- The page table that holds the entry of an address.
pub walk : (virtual_addr : ℕ) → Vmm → Option ℕ
unfolding follow
walk v m =
    follow (index_at 21 v) m
      (follow (index_at 30 v) m (follow (index_at 39 v) m (some m.kernel_pml4)))

pub vmm_unmap_page : (virtual_addr : ℕ) → Vmm → Vmm
unfolding walk
vmm_unmap_page v m = elim (walk v m) [ none ↦ m | some pt ↦ set_word pt (index_at 12 v) 0 m ]

-- The last step of the translation.
abbrev pub get_entry : (virtual_addr : ℕ) → Vmm → Option ℕ → ℕ
get_entry v m none = 0
get_entry v m (some pt) =
    if is_present (m.words pt (index_at 12 v))
    then bit_or (page_of (m.words pt (index_at 12 v))) (bit_and v 4095)
    else 0

pub vmm_get_physical : (virtual_addr : ℕ) → Vmm → ℕ
unfolding walk
vmm_get_physical v m = get_entry v m (walk v m)

module _ (pages : ℕ → ℕ) where
  -- The pages from an address on get new flags, where they are mapped.
  pub protect_pages : (rounds addr flags : ℕ) → Vmm → ℤ × Vmm
  unfolding vmm_get_physical vmm_unmap_page vmm_map_page
  protect_pages zero addr flags m = (pos 0, m)
  protect_pages (suc n) addr flags m =
      let phys = vmm_get_physical addr m in
      let (result, m1) =
        if phys == 0
        then (pos 0, m)
        else vmm_map_page pages addr phys flags (vmm_unmap_page addr m) in
      let rest = protect_pages n (addr + 4096) flags m1 in
      elim result [ pos z ↦ rest | negsuc z ↦ (negsuc 0, m1) ]

  -- The loop from the page of start to the page end, which the code rounds up on 64 bits.
  pub vmm_protect : (start size flags : ℕ) → Vmm → ℤ × Vmm
  unfolding protect_pages
  vmm_protect start size flags m =
      let from = page_of start in
      let to = page_of (add64 (add64 start size) 4095) in
      protect_pages ((to - from) / 4096) from flags m

  -- for (n pages) vmm_map_page(virt + offset, phys + offset, PTE_PRESENT | PTE_WRITABLE)
  pub map_range : (rounds virt phys : ℕ) → Vmm → ℤ × Vmm
  unfolding vmm_map_page
  map_range zero virt phys m = (pos 0, m)
  map_range (suc n) virt phys m =
      let (result, m1) = vmm_map_page pages virt phys (bit_or pte_present pte_writable) m in
      let rest = map_range n (virt + 4096) (phys + 4096) m1 in
      elim result [ pos z ↦ rest | negsuc z ↦ (negsuc 0, m1) ]

  pub vmm_init : Vmm → ℤ × Vmm
  unfolding map_range
  vmm_init m =
      let p = pages m.taken in
      let m1 = record m { taken = m.taken + 1 } in
      let (low, m2) =
        map_range 1048576 0 0 (clear_page p (record m1 { kernel_pml4 = p; kernel_cr3 = p })) in
      let high = map_range 65536 18446744071562067968 0 m2 in
      if p == 0 then (negsuc 0, m1) else elim low [
        | pos z ↦ elim high.0 [ pos y ↦ (pos 0, high.1) | negsuc y ↦ (negsuc 0, high.1) ]
        | negsuc z ↦ (negsuc 0, m2)
      ]
