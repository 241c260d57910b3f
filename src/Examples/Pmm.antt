-- ===== src/Examples/Pmm.antt =====
-- Runs of pmm.c: sixteen pages of which only page 0 is used, and a boot with two regions.
use fg_os.Base.{
  ℕ, ◌+◌, ◌-◌, ◌*◌, ◌/◌, ◌≤◌, ◌<◌, ◌≡◌, ◌⊎◌, refl, arith, ◌&&◌, ltb, ◌==◌, if◌then◌else◌, none,
  some, List, [], ◌∷◌, length,
}
use fg_os.Base.Int.{pos, negsuc}
use fg_os.Memory.Pmm.{
  Pmm, Region, page_size, is_page_free, bit_of, take, total_memory, pmm_alloc_page, pmm_alloc_pages,
  pmm_init,
}
use fg_os.Memory.Pmm.Marks.{IsValid, free_count}
use fg_os.Memory.Pmm.Alloc.{IsReserved, Allocated, pmm_alloc_page_lem}
use fg_os.Memory.Pmm.Contiguous.{AllFree, Block, pmm_alloc_pages_lem}
use fg_os.Memory.Pmm.Init.{covered, pmm_init-IsValid, pmm_init-free}

-- The bitmap of two bytes lies in page 256, which is out of range.
abbrev state : (first_byte free : ℕ) → Pmm
state first_byte free = record {
  mem = λ a. if a == 0x100000 then first_byte else 0;
  pmm_stats = record {
    total_physical = 65536;
    available_physical = free * 4096;
    used_physical = (16 - free) * 4096;
    total_virtual = 0;
    used_virtual = 0;
    page_faults = 0;
    allocations = 0;
  };
  page_bitmap = 0x100000;
  total_pages = 16;
  free_pages = free;
  bitmap_size = 2;
  memory_regions = [];
}

state-IsValid :
    (first_byte free : ℕ)
    → first_byte < 256
    → free ≡ free_count 16 (state first_byte free)
    → free ≤ 16
    → IsValid (state first_byte free)
state-IsValid first_byte free byte count le = record {
  small = omega arith;
  bytes = λ page lt. ground (arith, byte);
  counted = count;
  available = refl;
  used = omega arith;
}

-- Page 0 is used.
abbrev running : Pmm
running = state 1 15

running-IsValid : IsValid running
unfolding free_count is_page_free bit_of
running-IsValid = state-IsValid 1 15 (omega arith) refl (omega arith)

running-IsReserved : IsReserved running
unfolding is_page_free bit_of
running-IsReserved = record { zero_page = refl; bitmap = λ page free. ground arith }

pmm_alloc_page_lem_example :
    (page : ℕ) × ((pmm_alloc_page running).0 ≡ page * page_size)
    × (0 < page)
    × Allocated running page (pmm_alloc_page running).1
pmm_alloc_page_lem_example =
    pmm_alloc_page_lem running running-IsValid running-IsReserved (omega arith)

pmm_alloc_pages_lem_example :
    ((pmm_alloc_pages 3 running ≡ (0, running)) × ((s : ℕ) → ¬ AllFree running s 3))
    ⊎ ((start : ℕ) × ((pmm_alloc_pages 3 running).0 ≡ start * page_size)
        × (0 < start)
        × Block running start 3 (pmm_alloc_pages 3 running).1)
pmm_alloc_pages_lem_example =
    pmm_alloc_pages_lem 3 running running-IsValid running-IsReserved (omega arith)

-- Pages 0 and 1 are used, and page 1 is given back.
abbrev busy : Pmm
busy = state 3 14

busy-IsValid : IsValid busy
unfolding free_count is_page_free bit_of
busy-IsValid = state-IsValid 3 14 (omega arith) refl (omega arith)

-- Page 0 is free, as after a boot with an available region at address 0.
abbrev low : Pmm
low = state 0 16

low-IsValid : IsValid low
unfolding free_count is_page_free bit_of
low-IsValid = state-IsValid 0 16 (omega arith) refl (omega arith)

-- The bitmap lies in page 1, which is free, and page 0 is used.
abbrev exposed : Pmm
exposed = record running { page_bitmap = 4096; mem = λ a. if a == 4096 then 1 else 0 }

exposed-IsValid : IsValid exposed
unfolding free_count is_page_free bit_of
exposed-IsValid = record {
  small = omega arith;
  bytes = λ page lt. ground arith;
  counted = refl;
  available = refl;
  used = refl;
}

abbrev region : (start pages : ℕ) → Region
region start pages = record {
  start = start;
  end = start + pages * 4096;
  size = pages * 4096;
  kind = 1;
  flags = 0;
  name = 0;
}

-- Eight pages from page 2 on.
abbrev boot : List Region
boot = region 8192 8 ∷ []

pmm_init-IsValid_example :
    (pmm_init none running ≡ (negsuc 0, running))
    × (pmm_init (some []) running ≡ (negsuc 0, running))
    × (0 < length boot
        → ((pmm_init (some boot) running).0 ≡ pos 0) × IsValid (pmm_init (some boot) running).1)
pmm_init-IsValid_example = pmm_init-IsValid boot running

pmm_init-free_example :
    is_page_free 3 (pmm_init (some boot) running).1
    ≡ covered 3 (take 32 boot) && ltb 3 (total_memory (take 32 boot) / page_size)
pmm_init-free_example = pmm_init-free boot running 3 (omega arith)

-- Sixteen megabytes from address 0 on.
abbrev flat : List Region
flat = region 0 4096 ∷ []
