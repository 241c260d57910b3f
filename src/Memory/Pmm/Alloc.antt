-- ===== src/Memory/Pmm/Alloc.antt =====
-- pmm_alloc_page and pmm_free_page: which page is handed out, and what happens to the others.
use fg_os.Base.{
  ℕ, zero, suc, ◌+◌, ◌*◌, ◌/◌, ◌≤◌, ◌<◌, ◌≡◌, refl, arith, true, false, leb, ◌==◌, if◌then◌else◌,
  inl, inr, ◌⊎◌, Bool-cases, Option, none, some, Option-cases, ◌∙◌, sym, mul64,
}
use fg_os.Memory.Bytes.Fill.{memory_set_lem}
use fg_os.Memory.Pmm.{
  Pmm, page_size, mark_page_used, is_page_free, first_free, clear, count_allocation, pmm_alloc_page,
}
use fg_os.Memory.Pmm.Marks.{
  IsValid, free_count-cong, is_page_free-mark_page_used, mark_page_used-IsValid, free_count-none,
  used-counters, mark_page_used-total,
}

-- The outcome of the search over the n pages from `page` on.
abbrev pub FindsFree : Pmm → (n page : ℕ) → Option ℕ → Type 0
FindsFree p n page none = (b : ℕ) → page ≤ b → b < page + n → is_page_free b p ≡ false
FindsFree p n page (some r) =
    (page ≤ r)
    × (r < page + n)
    × (is_page_free r p ≡ true)
    × ((b : ℕ) → page ≤ b → b < r → is_page_free b p ≡ false)

pub first_free-FindsFree : (p : Pmm) (n page : ℕ) → FindsFree p n page (first_free n page p)
unfolding first_free
first_free-FindsFree p zero page = λ b lo hi. absurd (omega arith)
first_free-FindsFree p (suc n) page = elim (Bool-cases (is_page_free page p)) [
  | inl hit ↦ rw hit (omega arith, omega arith, hit, λ b lo hi. absurd (omega arith))
  | inr miss ↦
      rw miss (widen (first_free n (suc page) p) (first_free-FindsFree p n (suc page)) miss)
]
  where
    widen :
        (r : Option ℕ)
        → FindsFree p n (suc page) r
        → is_page_free page p ≡ false
        → FindsFree p (suc n) page r
    widen none h miss = λ b lo hi. ground (arith, h b, miss)
    widen (some r) h miss =
        (omega (arith, h.0), omega (arith, h.1), h.2, λ b lo hi. ground (arith, h.3 b, miss))

-- The physical pages that hold the bitmap, and page 0, are never free.
abbrev pub Apart : Pmm → (page count : ℕ) → Type 0
Apart p page count =
    (page * page_size + count * page_size ≤ p.page_bitmap)
    ⊎ (p.page_bitmap + (p.total_pages + 7) / 8 ≤ page * page_size)

pub record IsReserved (p : Pmm) : Type 0 where
  pub zero_page : is_page_free 0 p ≡ false
  pub bitmap : (page : ℕ) → is_page_free page p ≡ true → Apart p page 1

-- Clearing pages that lie apart from the bitmap leaves the bitmap alone.
pub clear-bitmap :
    (p : Pmm) (page count b : ℕ)
    → Apart p page count
    → b < p.total_pages
    → (clear (page * page_size) (count * page_size) p).mem (p.page_bitmap + b / 8)
      ≡ p.mem (p.page_bitmap + b / 8)
clear-bitmap p page count b apart lt =
    ground
      (arith, memory_set_lem (page * page_size) 0 (count * page_size) p.mem (p.page_bitmap + b / 8))

pub is_page_free-clear :
    (p : Pmm) (page count b : ℕ)
    → Apart p page count
    → is_page_free b (clear (page * page_size) (count * page_size) (count_allocation p))
      ≡ is_page_free b p
unfolding is_page_free
is_page_free-clear p page count b apart = elim (Bool-cases (leb p.total_pages b)) [
  | inl out ↦ rw out refl
  | inr in_range ↦ rw (in_range, clear-bitmap p page count b apart (ground arith)) refl
]

pub clear-IsValid :
    (p : Pmm) (page count : ℕ)
    → Apart p page count
    → IsValid p
    → IsValid (clear (page * page_size) (count * page_size) (count_allocation p))
clear-IsValid p page count apart valid = record {
  small = valid.small;
  bytes = λ b lt. rw (clear-bitmap p page count b apart lt) (valid.bytes b lt);
  counted =
      valid.counted
      ∙ free_count-cong p.total_pages p
          (clear (page * page_size) (count * page_size) (count_allocation p))
          (λ b lt. sym (is_page_free-clear p page count b apart));
  available = valid.available;
  used = valid.used;
}

-- What handing out a page does: it was the lowest free page; it is used afterwards and its bytes
-- are 0; every other page keeps its state, and every byte outside of it and of the bitmap its value.
pub record Allocated (p : Pmm) (page : ℕ) (q : Pmm) : Type 0 where
  pub was_free : is_page_free page p ≡ true
  pub lowest : (b : ℕ) → b < page → is_page_free b p ≡ false
  pub marks : (b : ℕ) → is_page_free b q ≡ (if page == b then false else is_page_free b p)
  pub zeroed : (a : ℕ) → page * page_size ≤ a → a < page * page_size + page_size → q.mem a ≡ 0
  pub kept :
      (a : ℕ)
      → (a < page * page_size) ⊎ (page * page_size + page_size ≤ a)
      → (a < p.page_bitmap) ⊎ (p.page_bitmap + (p.total_pages + 7) / 8 ≤ a)
      → q.mem a ≡ p.mem a
  pub pages : q.total_pages ≡ p.total_pages
  pub taken : q.free_pages + 1 ≡ p.free_pages
  pub valid : IsValid q
  pub reserved : IsReserved q

module _ (p : Pmm) (valid : IsValid p) (reserved : IsReserved p) (page : ℕ)
    (free : is_page_free page p ≡ true) where
  nonzero : 0 < page
  nonzero = ground (arith, reserved.zero_page)

  in_range : page < p.total_pages
  unfolding is_page_free
  in_range = ground arith

  exact : mul64 page page_size ≡ page * page_size
  exact = omega (arith, in_range, valid.small)

  abbrev marked : Pmm
  marked = mark_page_used page p

  abbrev after : Pmm
  after = clear (page * page_size) (1 * page_size) (count_allocation marked)

  apart : Apart marked page 1
  unfolding mark_page_used
  apart = ground (arith, reserved.bitmap page free)

  after_marks : (b : ℕ) → is_page_free b after ≡ (if page == b then false else is_page_free b p)
  after_marks b =
      is_page_free-clear marked page 1 b apart ∙ is_page_free-mark_page_used p valid.bytes page b

  after_zeroed : (a : ℕ) → page * page_size ≤ a → a < page * page_size + page_size → after.mem a ≡ 0
  after_zeroed a lo hi =
      ground (arith, nonzero, memory_set_lem (page * page_size) 0 page_size marked.mem a)

  after_kept :
      (a : ℕ)
      → (a < page * page_size) ⊎ (page * page_size + page_size ≤ a)
      → (a < p.page_bitmap) ⊎ (p.page_bitmap + (p.total_pages + 7) / 8 ≤ a)
      → after.mem a ≡ p.mem a
  unfolding mark_page_used
  after_kept a out off =
      ground (arith, in_range, memory_set_lem (page * page_size) 0 page_size marked.mem a)

  after-IsReserved : IsReserved after
  unfolding mark_page_used
  after-IsReserved = record {
    zero_page = ground (arith, after_marks 0, reserved.zero_page);
    bitmap = λ b h. ground (arith, after_marks b, reserved.bitmap b);
  }

  after-Allocated : ((b : ℕ) → b < page → is_page_free b p ≡ false) → Allocated p page after
  after-Allocated lowest = record {
    was_free = free;
    lowest = lowest;
    marks = after_marks;
    zeroed = after_zeroed;
    kept = after_kept;
    pages = mark_page_used-total page p;
    taken = (used-counters p valid page free).0;
    valid = clear-IsValid marked page 1 apart (mark_page_used-IsValid page p valid);
    reserved = after-IsReserved;
  }

-- pmm_alloc_page with a free page left, in a valid state whose bitmap pages and page 0 are used,
-- returns the address of the lowest free page, which is not 0; that page is taken and cleared, all
-- else is kept, and the state stays valid.
pub pmm_alloc_page_lem :
    (p : Pmm)
    → IsValid p
    → IsReserved p
    → 0 < p.free_pages
    → (page : ℕ) × ((pmm_alloc_page p).0 ≡ page * page_size)
      × (0 < page)
      × Allocated p page (pmm_alloc_page p).1
unfolding pmm_alloc_page
pmm_alloc_page_lem p valid reserved some_free = elim (Option-cases (first_free p.total_pages 0 p)) [
  | inl e ↦
      let nothing = rw e at (first_free-FindsFree p p.total_pages 0) in
      absurd (
        omega (
          arith,
          valid.counted,
          free_count-none p.total_pages p (λ b lt. nothing b (omega arith) (omega arith)),
        ))
  | inr (page, e) ↦
      let found = rw e at (first_free-FindsFree p p.total_pages 0) in
      let live : (p.free_pages == 0) ≡ false = ground arith in
      rw (live, e, exact p valid reserved page found.2)
        (
          page,
          refl,
          nonzero p valid reserved page found.2,
          after-Allocated p valid reserved page found.2 (λ b lt. found.3 b (omega arith) lt),
        )
]

-- Without a free page pmm_alloc_page returns 0 and changes nothing.
pub pmm_alloc_page-none : (p : Pmm) → p.free_pages ≡ 0 → pmm_alloc_page p ≡ (0, p)
unfolding pmm_alloc_page
pmm_alloc_page-none p e = ground arith
