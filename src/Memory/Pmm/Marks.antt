-- ===== src/Memory/Pmm/Marks.antt =====
-- Marking one page: which pages are free afterwards, and the allocator's invariant.
use fg_os.Base.{
  ℕ, zero, suc, ◌+◌, ◌*◌, ◌/◌, ◌%◌, ◌^◌, ◌≤◌, ◌<◌, ◌≡◌, refl, arith, true, false, ◌&&◌, not, ltb,
  ◌==◌, if◌then◌else◌, inl, inr, Bool-cases,
}
use fg_os.Memory.Pmm.{Pmm, page_size, mark_page_used, mark_page_free, is_page_free}
use fg_os.Memory.Pmm.Bits.{bit_or-set, bit_and-clear, bit_or-lt, bit_and-lt}

-- The bitmap holds bytes.
abbrev pub IsBytes : Pmm → Type 0
IsBytes p = (page : ℕ) → page < p.total_pages → p.mem (p.page_bitmap + page / 8) < 256

-- The number of free pages below n.
unfoldable pub free_count : ℕ → Pmm → ℕ
free_count zero p = 0
free_count (suc n) p = free_count n p + (if is_page_free n p then 1 else 0)

-- The counters and the statistics agree with the bitmap.
pub record IsValid (p : Pmm) : Type 0 where
  pub small : p.total_pages * page_size < 2 ^ 64
  pub bytes : IsBytes p
  pub counted : p.free_pages ≡ free_count p.total_pages p
  pub available : p.pmm_stats.available_physical ≡ p.free_pages * page_size
  pub used : p.pmm_stats.used_physical + p.free_pages * page_size ≡ p.total_pages * page_size

module _ (p : Pmm) (bytes : IsBytes p) where
  pub is_page_free-mark_page_used :
      (a b : ℕ) → is_page_free b (mark_page_used a p) ≡ (if a == b then false else is_page_free b p)
  unfolding is_page_free mark_page_used
  is_page_free-mark_page_used a b =
      ground (arith, bytes a, bit_or-set (p.mem (p.page_bitmap + a / 8)) (a % 8) (b % 8))

  pub is_page_free-mark_page_free :
      (a b : ℕ)
      → is_page_free b (mark_page_free a p)
        ≡ (if a == b then ltb b p.total_pages else is_page_free b p)
  unfolding is_page_free mark_page_free
  is_page_free-mark_page_free a b =
      ground (arith, bytes a, bit_and-clear (p.mem (p.page_bitmap + a / 8)) (a % 8) (b % 8))

  pub mark_page_used-IsBytes : (a : ℕ) → IsBytes (mark_page_used a p)
  unfolding mark_page_used
  mark_page_used-IsBytes a page lt =
      ground (arith, bytes a, bytes page, bit_or-lt (p.mem (p.page_bitmap + a / 8)) (a % 8))

  pub mark_page_free-IsBytes : (a : ℕ) → IsBytes (mark_page_free a p)
  unfolding mark_page_free
  mark_page_free-IsBytes a page lt =
      ground (arith, bytes a, bytes page, bit_and-lt (p.mem (p.page_bitmap + a / 8)) (a % 8))

pub free_count-cong :
    (n : ℕ) (p q : Pmm)
    → ((page : ℕ) → page < n → is_page_free page p ≡ is_page_free page q)
    → free_count n p ≡ free_count n q
unfolding free_count
free_count-cong zero p q h = refl
free_count-cong (suc n) p q h =
    ground (arith, h n (omega arith), free_count-cong n p q (λ page lt. h page (omega arith)))

pub free_count-le : (n : ℕ) (p : Pmm) → free_count n p ≤ n
unfolding free_count
free_count-le zero p = omega arith
free_count-le (suc n) p = ground (arith, free_count-le n p)

pub free_count-zero :
    (n : ℕ) (p : Pmm) (page : ℕ) → free_count n p ≡ 0 → page < n → is_page_free page p ≡ false
unfolding free_count
free_count-zero zero p page e lt = absurd (omega arith)
free_count-zero (suc n) p page e lt = ground (arith, free_count-zero n p page)

pub free_count-none :
    (n : ℕ) (p : Pmm) → ((b : ℕ) → b < n → is_page_free b p ≡ false) → free_count n p ≡ 0
unfolding free_count
free_count-none zero p h = refl
free_count-none (suc n) p h =
    ground (arith, h n (omega arith), free_count-none n p (λ b lt. h b (omega arith)))

-- Marking page a as used takes it out of the count, and marking it free puts it in.
pub free_count-mark_page_used :
    (n a : ℕ) (p : Pmm)
    → IsBytes p
    → free_count n (mark_page_used a p) + (if ltb a n && is_page_free a p then 1 else 0)
      ≡ free_count n p
unfolding free_count
free_count-mark_page_used zero a p bytes = ground arith
free_count-mark_page_used (suc n) a p bytes =
    ground (arith, free_count-mark_page_used n a p bytes, is_page_free-mark_page_used p bytes a n)

pub free_count-mark_page_free :
    (n a : ℕ) (p : Pmm)
    → IsBytes p
    → a < p.total_pages
    → free_count n (mark_page_free a p)
      ≡ free_count n p + (if ltb a n && not (is_page_free a p) then 1 else 0)
unfolding free_count
free_count-mark_page_free zero a p bytes lt = ground arith
free_count-mark_page_free (suc n) a p bytes lt =
    ground
      (arith, free_count-mark_page_free n a p bytes lt, is_page_free-mark_page_free p bytes a n)

-- What marking does to the counters, when the page is in range and changes its state.
module _ (p : Pmm) (valid : IsValid p) (a : ℕ) where
  pub free-lt_total : is_page_free a p ≡ true → a < p.total_pages
  unfolding is_page_free
  free-lt_total h = ground arith

  pub free_pages-pos : is_page_free a p ≡ true → 0 < p.free_pages
  free_pages-pos h =
      ground (arith, valid.counted, free-lt_total h, free_count-zero p.total_pages p a)

  free_pages-le_total : p.free_pages ≤ p.total_pages
  free_pages-le_total = omega (arith, valid.counted, free_count-le p.total_pages p)

  pub used-counters :
      is_page_free a p ≡ true
      → ((mark_page_used a p).free_pages + 1 ≡ p.free_pages)
        × ((mark_page_used a p).pmm_stats.available_physical + page_size
            ≡ p.pmm_stats.available_physical)
        × ((mark_page_used a p).pmm_stats.used_physical ≡ p.pmm_stats.used_physical + page_size)
  unfolding mark_page_used is_page_free
  used-counters h =
      ground
        (arith, free_pages-pos h, free_pages-le_total, valid.small, valid.available, valid.used)

  free-counters :
      is_page_free a p ≡ false
      → a < p.total_pages
      → p.free_pages < p.total_pages
      → ((mark_page_free a p).free_pages ≡ p.free_pages + 1)
        × ((mark_page_free a p).pmm_stats.available_physical
            ≡ p.pmm_stats.available_physical + page_size)
        × ((mark_page_free a p).pmm_stats.used_physical + page_size ≡ p.pmm_stats.used_physical)
  unfolding mark_page_free is_page_free
  free-counters h lt room = ground (arith, valid.small, valid.available, valid.used)

pub mark_page_used-noop : (a : ℕ) (p : Pmm) → is_page_free a p ≡ false → mark_page_used a p ≡ p
unfolding mark_page_used is_page_free
mark_page_used-noop a p h = ground arith

pub mark_page_free-noop : (a : ℕ) (p : Pmm) → p.total_pages ≤ a → mark_page_free a p ≡ p
unfolding mark_page_free
mark_page_free-noop a p h = ground arith

pub mark_page_used-total : (a : ℕ) (p : Pmm) → (mark_page_used a p).total_pages ≡ p.total_pages
unfolding mark_page_used
mark_page_used-total a p = ground arith

pub mark_page_free-total : (a : ℕ) (p : Pmm) → (mark_page_free a p).total_pages ≡ p.total_pages
unfolding mark_page_free
mark_page_free-total a p = ground arith

-- pmm_mark_page_used keeps the invariant, for every page number.
pub mark_page_used-IsValid : (a : ℕ) (p : Pmm) → IsValid p → IsValid (mark_page_used a p)
mark_page_used-IsValid a p valid = elim (Bool-cases (is_page_free a p)) [
  | inr used ↦ rw (mark_page_used-noop a p used) valid
  | inl free ↦
      let same = mark_page_used-total a p in
      let counters = used-counters p valid a free in
      let room = free_pages-pos p valid a free in
      let lt = free-lt_total p valid a free in
      let count = free_count-mark_page_used p.total_pages a p valid.bytes in
      record {
        small = rw same valid.small;
        bytes = mark_page_used-IsBytes p valid.bytes a;
        counted = rw same (ground (arith, valid.counted));
        available = omega (arith, valid.available);
        used = rw same (omega (arith, valid.used));
      }
]

pub free_count-lt : (n a : ℕ) (p : Pmm) → a < n → is_page_free a p ≡ false → free_count n p < n
unfolding free_count
free_count-lt zero a p lt h = absurd (omega arith)
free_count-lt (suc n) a p lt h = ground (arith, free_count-lt n a p, free_count-le n p)

pub mark_page_free-already : (a : ℕ) (p : Pmm) → is_page_free a p ≡ true → mark_page_free a p ≡ p
unfolding mark_page_free is_page_free
mark_page_free-already a p h = ground arith

-- pmm_mark_page_free keeps the invariant, for every page number.
pub mark_page_free-IsValid : (a : ℕ) (p : Pmm) → IsValid p → IsValid (mark_page_free a p)
mark_page_free-IsValid a p valid = elim (Bool-cases (is_page_free a p)) [
  | inl free ↦ rw (mark_page_free-already a p free) valid
  | inr busy ↦ elim (Bool-cases (ltb a p.total_pages)) [
    | inr out ↦ rw (mark_page_free-noop a p (ground arith)) valid
    | inl in_range ↦
        let lt : a < p.total_pages = ground arith in
        let same = mark_page_free-total a p in
        let room : p.free_pages < p.total_pages =
          omega (arith, valid.counted, free_count-lt p.total_pages a p lt busy) in
        let counters = free-counters p valid a busy lt room in
        let count = free_count-mark_page_free p.total_pages a p valid.bytes lt in
        record {
          small = rw same valid.small;
          bytes = mark_page_free-IsBytes p valid.bytes a;
          counted = rw same (ground (arith, valid.counted));
          available = omega (arith, valid.available);
          used = rw same (omega (arith, valid.used));
        }
  ]
]

pub mark_page_used-base : (a : ℕ) (p : Pmm) → (mark_page_used a p).page_bitmap ≡ p.page_bitmap
unfolding mark_page_used
mark_page_used-base a p = ground arith
