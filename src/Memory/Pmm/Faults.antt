-- ===== src/Memory/Pmm/Faults.antt =====
-- What goes wrong where pmm_init leaves page 0, or the pages of the bitmap, free.
use fg_os.Base.{
  ℕ, ◌+◌, ◌*◌, ◌/◌, ◌%◌, ◌≤◌, ◌<◌, ◌≡◌, refl, arith, true, false, ◌==◌, some, mul64, zero, suc, ◌∙◌,
}
use fg_os.Memory.Bytes.Fill.{memory_set_lem}
use fg_os.Memory.Pmm.{
  Pmm, page_size, mark_page_used, is_page_free, first_free, clear, count_allocation, pmm_alloc_page,
}
use fg_os.Memory.Pmm.Bits.{zeros-clear}
use fg_os.Memory.Pmm.Marks.{
  IsValid, used-counters, is_page_free-mark_page_used, mark_page_used-total, mark_page_used-base,
  free-lt_total, free_pages-pos,
}
use fg_os.Memory.Pmm.Alloc.{first_free-FindsFree}

first_free-zero : (n : ℕ) (p : Pmm) → 0 < n → is_page_free 0 p ≡ true → first_free n 0 p ≡ some 0
unfolding first_free
first_free-zero zero p h free = absurd (omega arith)
first_free-zero (suc n) p h free = rw free

-- memory_set ignores a NULL destination, so page 0 is not even cleared.
is_page_free-clear_zero :
    (p : Pmm) (b : ℕ) → is_page_free b (clear 0 page_size (count_allocation p)) ≡ is_page_free b p
unfolding is_page_free
is_page_free-clear_zero p b = rw (memory_set_lem 0 0 page_size p.mem (p.page_bitmap + b / 8)) refl

-- If page 0 is free, pmm_alloc_page takes it and returns its address 0, which is also its answer
-- when memory is exhausted: the caller takes the call for a failure and the page is lost.
pub pmm_alloc_page-zero :
    (p : Pmm)
    → IsValid p
    → is_page_free 0 p ≡ true
    → ((pmm_alloc_page p).0 ≡ 0)
      × ((pmm_alloc_page p).1.free_pages + 1 ≡ p.free_pages)
      × (is_page_free 0 (pmm_alloc_page p).1 ≡ false)
unfolding pmm_alloc_page
pmm_alloc_page-zero p valid free =
    let some_free = free_pages-pos p valid 0 free in
    let live : (p.free_pages == 0) ≡ false = ground arith in
    rw (live, first_free-zero p.total_pages p (free-lt_total p valid 0 free) free)
      (
        refl,
        (used-counters p valid 0 free).0,
        is_page_free-clear_zero (mark_page_used 0 p) 0
            ∙ is_page_free-mark_page_used p valid.bytes 0 0,
      )

bitmap_cleared :
    (p : Pmm) (page b : ℕ)
    → 0 < page
    → p.page_bitmap ≡ page * page_size
    → (p.total_pages + 7) / 8 ≤ page_size
    → b < p.total_pages
    → is_page_free b (clear (page * page_size) page_size (count_allocation p)) ≡ true
unfolding is_page_free
bitmap_cleared p page b pos base fits lt = ground (
  arith,
  memory_set_lem (page * page_size) 0 page_size p.mem (p.page_bitmap + b / 8),
  zeros-clear (b % 8),
)

-- If the lowest free page is the one that holds the whole bitmap, pmm_alloc_page clears the bitmap
-- with it: afterwards every page counts as free, the page just handed out and all used ones
-- included.
pub pmm_alloc_page-clobbers :
    (p : Pmm) (page b : ℕ)
    → IsValid p
    → 0 < page
    → p.page_bitmap ≡ page * page_size
    → (p.total_pages + 7) / 8 ≤ page_size
    → first_free p.total_pages 0 p ≡ some page
    → b < p.total_pages
    → ((pmm_alloc_page p).0 ≡ page * page_size) × (is_page_free b (pmm_alloc_page p).1 ≡ true)
unfolding pmm_alloc_page
pmm_alloc_page-clobbers p page b valid pos base fits found lt =
    let hit = rw found at (first_free-FindsFree p p.total_pages 0) in
    let some_free = free_pages-pos p valid page hit.2 in
    let live : (p.free_pages == 0) ≡ false = ground arith in
    let exact : mul64 page page_size ≡ page * page_size = omega (arith, valid.small, hit.1) in
    let total = mark_page_used-total page p in
    rw (live, found, exact)
      (
        refl,
        bitmap_cleared (mark_page_used page p) page b pos (mark_page_used-base page p ∙ base)
            (rw total fits) (rw total lt),
      )
