-- ===== src/Memory/Pmm/Contiguous.antt =====
-- pmm_alloc_pages: the block that is found, and what is marked.
use fg_os.Base.{
  ℕ, zero, suc, ◌+◌, ◌-◌, ◌*◌, ◌^◌, ◌≤◌, ◌<◌, ◌≡◌, refl, arith, true, false, ◌&&◌, ltb, leb, ◌==◌,
  if◌then◌else◌, inl, inr, ◌⊎◌, Bool-cases, Option, none, some, ◌∙◌, sym, add64, sub64, mul64,
  subst,
}
use mathlib.Core.Bool.{false≢true}
use fg_os.Memory.Bytes.Fill.{memory_set_lem}
use fg_os.Memory.Pmm.{
  Pmm, page_size, mark_page_used, is_page_free, clear, count_allocation, block_free,
  mark_block_used, first_block, block_result, pmm_alloc_pages,
}
use fg_os.Memory.Pmm.Marks.{
  IsValid, is_page_free-mark_page_used, mark_page_used-IsValid, mark_page_used-total,
  mark_page_used-base, free_count, free_count-le, used-counters, free-lt_total,
}
use fg_os.Memory.Pmm.Alloc.{Apart, IsReserved, is_page_free-clear, clear-IsValid}

-- The n pages from `start` on are free.
abbrev pub AllFree : Pmm → (start n : ℕ) → Type 0
AllFree p start n = (b : ℕ) → start ≤ b → b < start + n → is_page_free b p ≡ true

block_free-AllFree :
    (n i start : ℕ) (p : Pmm) (b : ℕ)
    → start + i + n < 2 ^ 64
    → block_free n i start p ≡ true
    → start + i ≤ b
    → b < start + i + n
    → is_page_free b p ≡ true
unfolding block_free
block_free-AllFree zero i start p b small h lo hi = absurd (omega arith)
block_free-AllFree (suc n) i start p b small h lo hi =
    ground (arith, block_free-AllFree n (suc i) start p b)

AllFree-block_free :
    (n i start : ℕ) (p : Pmm)
    → start + i + n < 2 ^ 64
    → AllFree p (start + i) n
    → block_free n i start p ≡ true
unfolding block_free
AllFree-block_free zero i start p small h = refl
AllFree-block_free (suc n) i start p small h = ground (
  arith,
  h (start + i),
  AllFree-block_free n (suc i) start p (omega arith) (λ b lo hi. h b (omega arith) (omega arith)),
)

-- The outcome of the search over the n candidates from `start` on.
abbrev pub FindsBlock : Pmm → (count n start : ℕ) → Option ℕ → Type 0
FindsBlock p count n start none = (s : ℕ) → start ≤ s → s < start + n → ¬ AllFree p s count
FindsBlock p count n start (some r) =
    (start ≤ r)
    × (r < start + n)
    × AllFree p r count
    × ((s : ℕ) → start ≤ s → s < r → ¬ AllFree p s count)

first_block-FindsBlock :
    (p : Pmm) (count n start : ℕ)
    → start + n + count < 2 ^ 64
    → FindsBlock p count n start (first_block n start count p)
unfolding first_block
first_block-FindsBlock p count zero start small = λ s lo hi. absurd (omega arith)
first_block-FindsBlock p count (suc n) start small =
    elim (Bool-cases (block_free count 0 start p)) [
      | inl hit ↦ rw hit (
        omega arith,
        omega arith,
        (λ b lo hi.
            block_free-AllFree count 0 start p b (omega arith) hit (omega arith) (omega arith)),
        λ s lo hi. absurd (omega arith),
      )
      | inr miss ↦ rw miss (
          widen (first_block n (suc start) count p)
            (first_block-FindsBlock p count n (suc start) (omega arith))
            λ all. false≢true (
              sym miss
              ∙ AllFree-block_free count 0 start p (omega arith)
                  (λ b lo hi. all b (omega arith) (omega arith))))
    ]
  where
    step : (s : ℕ) → start ≤ s → (start ≡ s) ⊎ (suc start ≤ s)
    step s lo = grind arith

    widen :
        (r : Option ℕ)
        → FindsBlock p count n (suc start) r
        → ¬ AllFree p start count
        → FindsBlock p count (suc n) start r
    widen none h miss = λ s lo hi. elim (step s lo) [
      | inl e ↦ subst (λ k. ¬ AllFree p k count) e miss
      | inr later ↦ h s later (omega arith)
    ]
    widen (some r) h miss = (
      omega (arith, h.0),
      omega (arith, h.1),
      h.2,
      λ s lo hi. elim (step s lo) [
        | inl e ↦ subst (λ k. ¬ AllFree p k count) e miss
        | inr later ↦ h.3 s later hi
      ],
    )

mark_block_used-marks :
    (n i start : ℕ) (p : Pmm) (b : ℕ)
    → start + i + n < 2 ^ 64
    → IsValid p
    → is_page_free b (mark_block_used n i start p)
      ≡ (if leb (start + i) b && ltb b (start + i + n) then false else is_page_free b p)
unfolding mark_block_used
mark_block_used-marks zero i start p b small valid = ground arith
mark_block_used-marks (suc n) i start p b small valid = ground (
  arith,
  mark_block_used-marks n (suc i) start (mark_page_used (add64 start i) p) b,
  mark_page_used-IsValid (add64 start i) p valid,
  is_page_free-mark_page_used p valid.bytes (add64 start i) b,
)

mark_block_used-IsValid :
    (n i start : ℕ) (p : Pmm) → IsValid p → IsValid (mark_block_used n i start p)
unfolding mark_block_used
mark_block_used-IsValid zero i start p valid = valid
mark_block_used-IsValid (suc n) i start p valid =
    mark_block_used-IsValid n (suc i) start (mark_page_used (add64 start i) p)
      (mark_page_used-IsValid (add64 start i) p valid)

mark_block_used-total :
    (n i start : ℕ) (p : Pmm) → (mark_block_used n i start p).total_pages ≡ p.total_pages
unfolding mark_block_used
mark_block_used-total zero i start p = refl
mark_block_used-total (suc n) i start p =
    mark_block_used-total n (suc i) start (mark_page_used (add64 start i) p)
    ∙ mark_page_used-total (add64 start i) p

mark_block_used-base :
    (n i start : ℕ) (p : Pmm) → (mark_block_used n i start p).page_bitmap ≡ p.page_bitmap
unfolding mark_block_used
mark_block_used-base zero i start p = refl
mark_block_used-base (suc n) i start p =
    mark_block_used-base n (suc i) start (mark_page_used (add64 start i) p)
    ∙ mark_page_used-base (add64 start i) p

mark_block_used-taken :
    (n i start : ℕ) (p : Pmm)
    → start + i + n < 2 ^ 64
    → IsValid p
    → AllFree p (start + i) n
    → (mark_block_used n i start p).free_pages + n ≡ p.free_pages
unfolding mark_block_used
mark_block_used-taken zero i start p small valid free = omega arith
mark_block_used-taken (suc n) i start p small valid free =
    let here : add64 start i ≡ start + i = omega arith in
    let q = mark_page_used (start + i) p in
    let rest =
      mark_block_used-taken n (suc i) start q (omega arith)
        (mark_page_used-IsValid (start + i) p valid)
        (λ b lo hi.
          ground (arith, is_page_free-mark_page_used p valid.bytes (start + i) b, free b)) in
    let taken = used-counters p valid (start + i) (free (start + i) (omega arith) (omega arith)) in
    rw (mark_block_used, here) (omega (arith, rest, taken.0))

-- As many free pages in a row are counted.
AllFree-count : (n s c : ℕ) (p : Pmm) → s + c ≤ n → AllFree p s c → c ≤ free_count n p
unfolding free_count
AllFree-count zero s c p h free = omega arith
AllFree-count (suc n) s zero p h free = omega arith
AllFree-count (suc n) s (suc c) p h free = elim (Bool-cases (leb (s + suc c) n)) [
  | inl within ↦ ground (arith, AllFree-count n s (suc c) p (ground arith) free)
  | inr last ↦
      ground
        (arith, free n, AllFree-count n s c p (ground arith) (λ b lo hi. free b lo (omega arith)))
]

-- What handing out a block does: it was the lowest run of that many free pages; its pages are used
-- afterwards and its bytes are 0; every other page keeps its state.
pub record Block (p : Pmm) (start count : ℕ) (q : Pmm) : Type 0 where
  pub were_free : AllFree p start count
  pub lowest : (s : ℕ) → s < start → ¬ AllFree p s count
  pub marks :
      (b : ℕ)
      → is_page_free b q
        ≡ (if leb start b && ltb b (start + count) then false else is_page_free b p)
  pub zeroed :
      (a : ℕ) → start * page_size ≤ a → a < start * page_size + count * page_size → q.mem a ≡ 0
  pub taken : q.free_pages + count ≡ p.free_pages
  pub valid : IsValid q
  pub reserved : IsReserved q

module _ (p : Pmm) (valid : IsValid p) (reserved : IsReserved p) (start count : ℕ)
    (some_pages : 0 < count) (all : AllFree p start count) where
  first_free : is_page_free start p ≡ true
  first_free = all start (omega arith) (omega arith)

  pub start-pos : 0 < start
  start-pos = ground (arith, first_free, reserved.zero_page)

  pub fits : start + count ≤ p.total_pages
  fits = omega (
    arith,
    free-lt_total p valid (start + count - 1) (all (start + count - 1) (omega arith) (omega arith)),
  )

  -- Pages in a row that are each apart from the bitmap lie on one side of it.
  Apart-below : (n : ℕ) → suc n ≤ count → Apart p start 1 → Apart p start (suc n)
  Apart-below zero h first = first
  Apart-below (suc n) h first =
      let before = Apart-below n (omega arith) first in
      let page =
        reserved.bitmap (start + suc n) (all (start + suc n) (omega arith) (omega arith)) in
      ground (arith, fits)

  abbrev marked : Pmm
  marked = mark_block_used count 0 start p

  pub apart : Apart marked start count
  apart =
      let whole = Apart-below (count - 1) (omega arith) (reserved.bitmap start first_free) in
      ground (arith, mark_block_used-base count 0 start p, mark_block_used-total count 0 start p)

  abbrev after : Pmm
  after = clear (start * page_size) (count * page_size) (count_allocation marked)

  after_marks :
      (b : ℕ)
      → is_page_free b after
        ≡ (if leb start b && ltb b (start + count) then false else is_page_free b p)
  after_marks b =
      is_page_free-clear marked start count b apart
      ∙ ground (
        arith,
        valid.small,
        fits,
        mark_block_used-marks count 0 start p b (omega (arith, valid.small, fits)) valid,
      )

  pub after-Block : ((s : ℕ) → s < start → ¬ AllFree p s count) → Block p start count after
  after-Block lowest = record {
    were_free = all;
    lowest = lowest;
    marks = after_marks;
    zeroed = λ a lo hi.
        ground
          (arith, start-pos, memory_set_lem (start * page_size) 0 (count * page_size) marked.mem a);
    taken =
        mark_block_used-taken count 0 start p (omega (arith, valid.small, fits)) valid
          (λ b lo hi. all b (omega arith) (omega arith));
    valid = clear-IsValid marked start count apart (mark_block_used-IsValid count 0 start p valid);
    reserved = record {
      zero_page = ground (arith, after_marks 0, reserved.zero_page);
      bitmap = λ b h. ground (
        arith,
        after_marks b,
        reserved.bitmap b,
        mark_block_used-base count 0 start p,
        mark_block_used-total count 0 start p,
      );
    };
  }

too_few :
    (p : Pmm) → IsValid p → (count s : ℕ) → 0 < count → p.free_pages < count → ¬ AllFree p s count
too_few p valid count s pos few all =
    let fit =
      free-lt_total p valid (s + count - 1) (all (s + count - 1) (omega arith) (omega arith)) in
    omega (arith, valid.counted, AllFree-count p.total_pages s count p (omega arith) all)

-- What pmm_alloc_pages does with the outcome of the search.
outcome :
    (p : Pmm)
    → IsValid p
    → IsReserved p
    → (count : ℕ) → 0 < count
    → count ≤ p.total_pages
    → (r : Option ℕ) → FindsBlock p count (suc (p.total_pages - count)) 0 r
    → let result = block_result count p r in
      ((result ≡ (0, p)) × ((s : ℕ) → ¬ AllFree p s count))
      ⊎ ((start : ℕ) × (result.0 ≡ start * page_size) × (0 < start) × Block p start count result.1)
outcome p valid reserved count pos room none nothing = inl (
  refl,
  λ s all.
      nothing s (omega arith)
        (omega (
          arith,
          free-lt_total p valid (s + count - 1) (all (s + count - 1) (omega arith) (omega arith)),
        ))
        all,
)
outcome p valid reserved count pos room (some start) found =
    let within = fits p valid reserved start count pos found.2 in
    let exact : mul64 start page_size ≡ start * page_size = omega (arith, valid.small) in
    let exact' : mul64 count page_size ≡ count * page_size = omega (arith, valid.small) in
    rw (exact, exact')
      (inr (
        start,
        refl,
        start-pos p valid reserved start count pos found.2,
        after-Block p valid reserved start count pos found.2 (λ s lt. found.3 s (omega arith) lt),
      ))

-- pmm_alloc_pages of two pages or more, in a valid state whose bitmap pages and page 0 are used,
-- either finds no run of that many free pages, returns 0 and changes nothing, or returns the address
-- of the lowest such run, which it takes and clears.
pub pmm_alloc_pages_lem :
    (count : ℕ) (p : Pmm)
    → IsValid p
    → IsReserved p
    → 2 ≤ count
    → ((pmm_alloc_pages count p ≡ (0, p)) × ((s : ℕ) → ¬ AllFree p s count))
      ⊎ ((start : ℕ) × ((pmm_alloc_pages count p).0 ≡ start * page_size)
          × (0 < start)
          × Block p start count (pmm_alloc_pages count p).1)
unfolding pmm_alloc_pages
pmm_alloc_pages_lem count p valid reserved many =
    let plain : (count == 0) ≡ false = ground arith in
    let plain' : (count == 1) ≡ false = ground arith in
    elim (Bool-cases (ltb p.free_pages count)) [
      | inl few ↦ inl (
        rw (plain, plain', few) refl,
        λ s all. too_few p valid count s (omega arith) (ground arith) all,
      )
      | inr enough ↦
          let room : count ≤ p.total_pages =
            ground (arith, valid.counted, free_count-le p.total_pages p) in
          let tries : suc (sub64 p.total_pages count) ≡ suc (p.total_pages - count) =
            omega (arith, valid.small) in
          rw (plain, plain', enough, tries)
            (outcome p valid reserved count (omega arith) room
              (first_block (suc (p.total_pages - count)) 0 count p)
              (first_block-FindsBlock p count (suc (p.total_pages - count)) 0
                (omega (arith, valid.small))))
    ]
