-- ===== src/Memory/Pmm/Free.antt =====
-- pmm_free_page: its guards, its effect, and that it undoes pmm_alloc_page.
use fg_os.Base.{
  ℕ, ◌*◌, ◌/◌, ◌%◌, ◌≤◌, ◌<◌, ◌≡◌, ◌≢◌, arith, true, ltb, ◌==◌, if◌then◌else◌, ◌⊎◌, ◌∙◌, sym, ap,
}
use fg_os.Memory.Pmm.{Pmm, page_size, mark_page_free, is_page_free, pmm_alloc_page, pmm_free_page}
use fg_os.Memory.Pmm.Marks.{
  IsValid, free_count, free_count-cong, free-lt_total, is_page_free-mark_page_free,
  mark_page_free-IsValid, mark_page_free-already, mark_page_free-noop, mark_page_free-total,
}
use fg_os.Memory.Pmm.Alloc.{IsReserved, Allocated, pmm_alloc_page_lem}

-- pmm_free_page of an address that is 0, not page-aligned, of a free page or beyond the last page
-- changes nothing.
pub pmm_free_page-refuses :
    (address : ℕ) (p : Pmm)
    → (address ≡ 0)
      ⊎ (address % page_size ≢ 0)
      ⊎ (is_page_free (address / page_size) p ≡ true)
      ⊎ (p.total_pages ≤ address / page_size)
    → pmm_free_page address p ≡ p
unfolding pmm_free_page
pmm_free_page-refuses address p h = ground (arith, mark_page_free-noop (address / page_size) p)

free_page-mark :
    (page : ℕ) (p : Pmm) → 0 < page → pmm_free_page (page * page_size) p ≡ mark_page_free page p
unfolding pmm_free_page
free_page-mark page p h =
    let quotient : page * page_size / page_size ≡ page = omega arith in
    let aligned : page * page_size % page_size ≡ 0 = omega arith in
    rw quotient (ground (arith, aligned, mark_page_free-already page p))

-- pmm_free_page of the address of a page other than page 0 makes that page free, if it is in range,
-- and keeps the state of every other page.
pub pmm_free_page_lem :
    (page b : ℕ) (p : Pmm)
    → IsValid p
    → 0 < page
    → is_page_free b (pmm_free_page (page * page_size) p)
      ≡ (if page == b then ltb b p.total_pages else is_page_free b p)
pmm_free_page_lem page b p valid h =
    rw (free_page-mark page p h) (is_page_free-mark_page_free p valid.bytes page b)

-- pmm_free_page keeps the invariant, whatever the address.
pub pmm_free_page-IsValid : (address : ℕ) (p : Pmm) → IsValid p → IsValid (pmm_free_page address p)
unfolding pmm_free_page
pmm_free_page-IsValid address p valid =
    ground (arith, valid, mark_page_free-IsValid (address / page_size) p valid)

module _ (p q : Pmm) (page : ℕ) (valid : IsValid p) (got : Allocated p page q) where
  in_range : page < q.total_pages
  in_range = rw got.pages (free-lt_total p valid page got.was_free)

  same_states : (b : ℕ) → is_page_free b (mark_page_free page q) ≡ is_page_free b p
  same_states b = ground (
    arith,
    is_page_free-mark_page_free q got.valid.bytes page b,
    got.marks b,
    got.was_free,
    in_range,
  )

  restored :
      ((b : ℕ) → is_page_free b (mark_page_free page q) ≡ is_page_free b p)
      × ((mark_page_free page q).free_pages ≡ p.free_pages)
  restored =
      let count = free_count-cong p.total_pages (mark_page_free page q) p (λ b lt. same_states b) in
      let pages = mark_page_free-total page q ∙ got.pages in
      (
        same_states,
        (mark_page_free-IsValid page q got.valid).counted
            ∙ ap (λ n. free_count n (mark_page_free page q)) pages
            ∙ count
            ∙ sym valid.counted,
      )

-- Freeing the page that pmm_alloc_page returned gives every page the state that it had before, and
-- the count of free pages too.
pub pmm_free_page-pmm_alloc_page :
    (p : Pmm)
    → IsValid p
    → IsReserved p
    → 0 < p.free_pages
    → let (address, q) = pmm_alloc_page p in
      ((b : ℕ) → is_page_free b (pmm_free_page address q) ≡ is_page_free b p)
      × ((pmm_free_page address q).free_pages ≡ p.free_pages)
pmm_free_page-pmm_alloc_page p valid reserved h =
    let (page, address, pos, got) = pmm_alloc_page_lem p valid reserved h in
    rw (address, free_page-mark page (pmm_alloc_page p).1 pos)
      (restored p (pmm_alloc_page p).1 page valid got)
