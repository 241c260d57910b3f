-- ===== src/Memory/Pmm.antt =====
-- kernel/mm/pmm.c: the physical page allocator. Its bitmap is a part of the memory that it manages,
-- at address 0x100000. A set bit is a used page. Log output is not modelled.
pub mod Bits
pub mod Marks
pub mod Alloc
pub mod Free
pub mod Faults
pub mod Contiguous
pub mod Init
use fg_os.Base.{
  ℕ, zero, suc, ◌+◌, ◌-◌, ◌*◌, ◌/◌, ◌%◌, ◌^◌, bit_and, bit_or, min, Bool, true, false, ◌&&◌, ◌||◌,
  not, Option, none, some, List, [], ◌∷◌, length, ltb, leb, ◌==◌, if◌then◌else◌, add64, sub64,
  mul64, add32,
}
use fg_os.Base.Int.{ℤ, pos, negsuc}
use fg_os.Memory.Bytes.{Mem, store, memory_set}

abbrev pub page_size : ℕ
page_size = 4096

-- The field `kind` is the C field `type`, a memory_type_t; `name` is a pointer.
pub record Region : Type 0 where
  pub start : ℕ
  pub end : ℕ
  pub size : ℕ
  pub kind : ℕ
  pub flags : ℕ
  pub name : ℕ

abbrev pub memory_type_available : ℕ
memory_type_available = 1

pub record MemoryStats : Type 0 where
  pub total_physical : ℕ
  pub available_physical : ℕ
  pub used_physical : ℕ
  pub total_virtual : ℕ
  pub used_virtual : ℕ
  pub page_faults : ℕ
  pub allocations : ℕ

-- The static variables of pmm.c, and the physical memory. memory_regions holds the regions that
-- are in use, so region_count is its length.
pub record Pmm : Type 0 where
  pub mem : Mem
  pub pmm_stats : MemoryStats
  pub page_bitmap : ℕ
  pub total_pages : ℕ
  pub free_pages : ℕ
  pub bitmap_size : ℕ
  pub memory_regions : List Region

-- page_bitmap[byte_index] & (1 << bit_index)
unfoldable pub bit_of : Pmm → ℕ → ℕ
bit_of p page = bit_and (p.mem (p.page_bitmap + page / 8)) (2 ^ (page % 8))

pub mark_page_used : ℕ → Pmm → Pmm
unfolding bit_of
mark_page_used page p =
    if leb p.total_pages page
    then p
    else if bit_of p page == 0
    then record p {
      mem =
          store p.mem (p.page_bitmap + page / 8)
            (bit_or (p.mem (p.page_bitmap + page / 8)) (2 ^ (page % 8)));
      free_pages = sub64 p.free_pages 1;
      pmm_stats = record p.pmm_stats {
        used_physical = add64 p.pmm_stats.used_physical page_size;
        available_physical = sub64 p.pmm_stats.available_physical page_size;
      };
    }
    else p

pub mark_page_free : ℕ → Pmm → Pmm
unfolding bit_of
mark_page_free page p =
    if leb p.total_pages page
    then p
    else if not (bit_of p page == 0)
    then record p {
      mem =
          store p.mem (p.page_bitmap + page / 8)
            (bit_and (p.mem (p.page_bitmap + page / 8)) (255 - 2 ^ (page % 8)));
      free_pages = add64 p.free_pages 1;
      pmm_stats = record p.pmm_stats {
        used_physical = sub64 p.pmm_stats.used_physical page_size;
        available_physical = add64 p.pmm_stats.available_physical page_size;
      };
    }
    else p

unfoldable pub is_page_free : ℕ → Pmm → Bool
unfolding bit_of
is_page_free page p = if leb p.total_pages page then false else bit_of p page == 0

-- The search of pmm_alloc_page, from `page` on with n pages to go.
unfoldable pub first_free : (n page : ℕ) → Pmm → Option ℕ
first_free zero page p = none
first_free (suc n) page p = if is_page_free page p then some page else first_free n (suc page) p

abbrev count_allocation : Pmm → Pmm
count_allocation p = record p {
  pmm_stats = record p.pmm_stats { allocations = add32 p.pmm_stats.allocations 1 };
}

-- memory_set((void*)address, 0, size)
abbrev clear : (address size : ℕ) → Pmm → Pmm
clear address size p = record p { mem = memory_set address 0 size p.mem }

-- Returns the address of the page, or 0.
pub pmm_alloc_page : Pmm → ℕ × Pmm
pmm_alloc_page p = if p.free_pages == 0 then (0, p) else elim (first_free p.total_pages 0 p) [
  | none ↦ (0, p)
  | some page ↦ (
    mul64 page page_size,
    clear (mul64 page page_size) page_size (count_allocation (mark_page_used page p)),
  )
]

pub pmm_free_page : ℕ → Pmm → Pmm
pmm_free_page page p =
    if page == 0 || not (page % page_size == 0)
    then p
    else if is_page_free (page / page_size) p
    then p
    else mark_page_free (page / page_size) p

-- Whether the n pages from start + i on are free.
pub block_free : (n i start : ℕ) → Pmm → Bool
block_free zero i start p = true
block_free (suc n) i start p =
    if not (is_page_free (add64 start i) p) then false else block_free n (suc i) start p

pub mark_block_used : (n i start : ℕ) → Pmm → Pmm
mark_block_used zero i start p = p
mark_block_used (suc n) i start p =
    mark_block_used n (suc i) start (mark_page_used (add64 start i) p)

-- The search of pmm_alloc_pages, from `start` on with n candidates to go.
pub first_block : (n start count : ℕ) → Pmm → Option ℕ
unfolding block_free
first_block zero start count p = none
first_block (suc n) start count p =
    if block_free count 0 start p then some start else first_block n (suc start) count p

-- What pmm_alloc_pages does with the outcome of its search.
abbrev pub block_result : ℕ → Pmm → Option ℕ → ℕ × Pmm
block_result count p none = (0, p)
block_result count p (some start) = (
  mul64 start page_size,
  clear (mul64 start page_size) (mul64 count page_size)
      (count_allocation (mark_block_used count 0 start p)),
)

pub pmm_alloc_pages : ℕ → Pmm → ℕ × Pmm
pmm_alloc_pages count p =
    if count == 0
    then (0, p)
    else if count == 1
    then pmm_alloc_page p
    else if ltb p.free_pages count
    then (0, p)
    else block_result count p (first_block (suc (sub64 p.total_pages count)) 0 count p)

pub free_loop : (n i start : ℕ) → Pmm → Pmm
free_loop zero i start p = p
free_loop (suc n) i start p =
    free_loop n (suc i) start (pmm_free_page (add64 start (mul64 i page_size)) p)

pub pmm_free_pages : (start count : ℕ) → Pmm → Pmm
unfolding free_loop
pmm_free_pages start count p =
    if start == 0 || not (start % page_size == 0) || count == 0
    then p
    else free_loop count 0 start p

pub get_memory_stats : Pmm → MemoryStats × Pmm
get_memory_stats p =
    let stats = record p.pmm_stats {
      available_physical = mul64 p.free_pages page_size;
      used_physical = mul64 (sub64 p.total_pages p.free_pages) page_size;
    } in
    (stats, record p { pmm_stats = stats })

abbrev pub is_available : Region → Bool
is_available r = r.kind == memory_type_available

unfoldable pub total_memory : List Region → ℕ
total_memory [] = 0
total_memory (r ∷ rs) = if is_available r then add64 r.size (total_memory rs) else total_memory rs

-- for (page = start; page < start + n; page++) pmm_mark_page_free(page);
pub mark_range_free : (n page : ℕ) → Pmm → Pmm
mark_range_free zero page p = p
mark_range_free (suc n) page p = mark_range_free n (suc page) (mark_page_free page p)

pub mark_regions_free : List Region → Pmm → Pmm
unfolding mark_range_free
mark_regions_free [] p = p
mark_regions_free (r ∷ rs) p =
    mark_regions_free rs
      (if is_available r then mark_range_free (r.size / page_size) (r.start / page_size) p else p)

abbrev pub take {ℓ} : {A : Type ℓ} → ℕ → List A → List A
take zero xs = []
take (suc n) [] = []
take (suc n) (x ∷ xs) = x ∷ take n xs

-- The state in which the available regions are marked: the bitmap is all ones.
pub fresh : List Region → Pmm → Pmm
fresh rs p =
    let pages = total_memory rs / page_size in
    let size = (pages + 7) / 8 in
    record p {
      mem = memory_set 0x100000 0xff size p.mem;
      page_bitmap = 0x100000;
      total_pages = pages;
      free_pages = 0;
      bitmap_size = size;
      memory_regions = rs;
    }

-- The statistics at the end of pmm_init.
pub init_stats : ℕ → Pmm → Pmm
init_stats total p = record p {
  pmm_stats = record p.pmm_stats {
    total_physical = total;
    available_physical = mul64 p.free_pages page_size;
    used_physical = mul64 (sub64 p.total_pages p.free_pages) page_size;
  };
}

-- A NULL array is `none`, and `count` is the length of the array. The test for a NULL bitmap never
-- fires, since the bitmap's address is a constant.
pub pmm_init : Option (List Region) → Pmm → ℤ × Pmm
unfolding total_memory mark_regions_free fresh init_stats
pmm_init none p = (negsuc 0, p)
pmm_init (some regions) p =
    if length regions == 0
    then (negsuc 0, p)
    else let rs = take 32 regions in
      (pos 0, init_stats (total_memory rs) (mark_regions_free rs (fresh rs p)))
