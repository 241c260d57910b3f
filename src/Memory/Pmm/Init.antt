-- ===== src/Memory/Pmm/Init.antt =====
-- kernel/mm/pmm.c, pmm_init: which pages are free after it, and when the state that it sets up is safe to use.
use fg_os.Base.{
  ℕ, zero, suc, ◌+◌, ◌*◌, ◌/◌, ◌%◌, ◌^◌, ◌≤◌, ◌<◌, ◌≡◌, refl, arith, Bool, true, false, ◌&&◌, ◌||◌,
  ltb, lt→ltb, leb, ◌==◌, if◌then◌else◌, inl, inr, ◌⊎◌, Bool-cases, none, some, ◌∙◌, sym, List, [],
  ◌∷◌, length,
}
use fg_os.Base.Int.{pos, negsuc}
use fg_os.Memory.Bytes.Fill.{memory_set_lem}
use fg_os.Memory.Pmm.{
  Pmm, Region, page_size, mark_page_free, is_page_free, is_available, total_memory, mark_range_free,
  mark_regions_free, take, fresh, init_stats, pmm_init,
}
use fg_os.Memory.Pmm.Bits.{ones-set}
use fg_os.Memory.Pmm.Marks.{
  IsBytes, IsValid, free_count, free_count-cong, free_count-none, free_count-le, free_count-lt,
  free_count-mark_page_free, is_page_free-mark_page_free, mark_page_free-IsBytes,
  mark_page_free-total, mark_page_free-already, mark_page_free-noop,
}
use fg_os.Memory.Pmm.Alloc.{IsReserved}

-- The invariant while the statistics are not yet set.
record IsCounted (p : Pmm) : Type 0 where
  small : p.total_pages * page_size < 2 ^ 64
  bytes : IsBytes p
  counted : p.free_pages ≡ free_count p.total_pages p

free_pages-mark_page_free :
    (a : ℕ) (p : Pmm)
    → is_page_free a p ≡ false
    → a < p.total_pages
    → p.free_pages + 1 < 2 ^ 64
    → (mark_page_free a p).free_pages ≡ p.free_pages + 1
unfolding mark_page_free is_page_free
free_pages-mark_page_free a p busy lt small = ground arith

mark_page_free-IsCounted : (a : ℕ) (p : Pmm) → IsCounted p → IsCounted (mark_page_free a p)
mark_page_free-IsCounted a p c = elim (Bool-cases (is_page_free a p)) [
  | inl free ↦ rw (mark_page_free-already a p free) c
  | inr busy ↦ elim (Bool-cases (ltb a p.total_pages)) [
    | inr out ↦ rw (mark_page_free-noop a p (ground arith)) c
    | inl in_range ↦
        let lt : a < p.total_pages = ground arith in
        let same = mark_page_free-total a p in
        let room = free_count-lt p.total_pages a p lt busy in
        let more = free_pages-mark_page_free a p busy lt (omega (arith, c.counted, c.small)) in
        let count = free_count-mark_page_free p.total_pages a p c.bytes lt in
        record {
          small = rw same c.small;
          bytes = mark_page_free-IsBytes p c.bytes a;
          counted = rw same (ground (arith, c.counted));
        }
  ]
]

mark_range_free-IsCounted : (n s : ℕ) (p : Pmm) → IsCounted p → IsCounted (mark_range_free n s p)
unfolding mark_range_free
mark_range_free-IsCounted zero s p c = c
mark_range_free-IsCounted (suc n) s p c =
    mark_range_free-IsCounted n (suc s) (mark_page_free s p) (mark_page_free-IsCounted s p c)

mark_regions_free-IsCounted :
    (rs : List Region) (p : Pmm) → IsCounted p → IsCounted (mark_regions_free rs p)
unfolding mark_regions_free
mark_regions_free-IsCounted [] p c = c
mark_regions_free-IsCounted (r ∷ rs) p c = elim (Bool-cases (is_available r)) [
  | inl yes_ ↦ rw yes_ (
      mark_regions_free-IsCounted rs _
        (mark_range_free-IsCounted (r.size / page_size) (r.start / page_size) p c))
  | inr no_ ↦ rw no_ (mark_regions_free-IsCounted rs p c)
]

mark_range_free-marks :
    (n s : ℕ) (p : Pmm) (b : ℕ)
    → IsBytes p
    → is_page_free b (mark_range_free n s p)
      ≡ (if leb s b && ltb b (s + n) then ltb b p.total_pages else is_page_free b p)
unfolding mark_range_free
mark_range_free-marks zero s p b bytes = ground arith
mark_range_free-marks (suc n) s p b bytes = ground (
  arith,
  mark_range_free-marks n (suc s) (mark_page_free s p) b (mark_page_free-IsBytes p bytes s),
  is_page_free-mark_page_free p bytes s b,
  mark_page_free-total s p,
)

-- Whether an available region covers the page.
abbrev pub covered : ℕ → List Region → Bool
covered b [] = false
covered b (r ∷ rs) =
    (is_available r
      && leb (r.start / page_size) b
      && ltb b (r.start / page_size + r.size / page_size))
    || covered b rs

mark_range_free-total : (n s : ℕ) (p : Pmm) → (mark_range_free n s p).total_pages ≡ p.total_pages
unfolding mark_range_free
mark_range_free-total zero s p = refl
mark_range_free-total (suc n) s p =
    mark_range_free-total n (suc s) (mark_page_free s p) ∙ mark_page_free-total s p

mark_range_free-IsBytes : (n s : ℕ) (p : Pmm) → IsBytes p → IsBytes (mark_range_free n s p)
unfolding mark_range_free
mark_range_free-IsBytes zero s p bytes = bytes
mark_range_free-IsBytes (suc n) s p bytes =
    mark_range_free-IsBytes n (suc s) (mark_page_free s p) (mark_page_free-IsBytes p bytes s)

mark_regions_free-total :
    (rs : List Region) (p : Pmm) → (mark_regions_free rs p).total_pages ≡ p.total_pages
unfolding mark_regions_free
mark_regions_free-total [] p = refl
mark_regions_free-total (r ∷ rs) p = elim (Bool-cases (is_available r)) [
  | inl yes_ ↦
      rw (mark_regions_free, yes_)
        (mark_regions_free-total rs _
          ∙ mark_range_free-total (r.size / page_size) (r.start / page_size) p)
  | inr no_ ↦ rw (mark_regions_free, no_) (mark_regions_free-total rs p)
]

mark_page_free-base : (a : ℕ) (p : Pmm) → (mark_page_free a p).page_bitmap ≡ p.page_bitmap
unfolding mark_page_free
mark_page_free-base a p = ground arith

mark_range_free-base : (n s : ℕ) (p : Pmm) → (mark_range_free n s p).page_bitmap ≡ p.page_bitmap
unfolding mark_range_free
mark_range_free-base zero s p = refl
mark_range_free-base (suc n) s p =
    mark_range_free-base n (suc s) (mark_page_free s p) ∙ mark_page_free-base s p

mark_regions_free-base :
    (rs : List Region) (p : Pmm) → (mark_regions_free rs p).page_bitmap ≡ p.page_bitmap
unfolding mark_regions_free
mark_regions_free-base [] p = refl
mark_regions_free-base (r ∷ rs) p = elim (Bool-cases (is_available r)) [
  | inl yes_ ↦
      rw (mark_regions_free, yes_)
        (mark_regions_free-base rs _
          ∙ mark_range_free-base (r.size / page_size) (r.start / page_size) p)
  | inr no_ ↦ rw (mark_regions_free, no_) (mark_regions_free-base rs p)
]

mark_regions_free-marks :
    (rs : List Region) (p : Pmm) (b : ℕ)
    → IsBytes p
    → is_page_free b (mark_regions_free rs p)
      ≡ (if covered b rs then ltb b p.total_pages else is_page_free b p)
unfolding mark_regions_free
mark_regions_free-marks [] p b bytes = refl
mark_regions_free-marks (r ∷ rs) p b bytes = elim (Bool-cases (is_available r)) [
  | inr no_ ↦ rw (mark_regions_free, no_) (mark_regions_free-marks rs p b bytes)
  | inl yes_ ↦
      let n = r.size / page_size in
      let s = r.start / page_size in
      rw (mark_regions_free, yes_)
        (ground (
          arith,
          mark_regions_free-marks rs (mark_range_free n s p) b
              (mark_range_free-IsBytes n s p bytes),
          mark_range_free-marks n s p b bytes,
          mark_range_free-total n s p,
        ))
]

total_memory-lt : (rs : List Region) → total_memory rs < 2 ^ 64
unfolding total_memory
total_memory-lt [] = omega arith
total_memory-lt (r ∷ rs) = ground (arith, total_memory-lt rs)

-- Before the regions are marked every page is used.
module _ (rs : List Region) (p : Pmm) where
  fresh-byte : (b : ℕ) → b < total_memory rs / page_size → (fresh rs p).mem (0x100000 + b / 8) ≡ 255
  unfolding fresh
  fresh-byte b lt = ground (
    arith,
    memory_set_lem 0x100000 0xff ((total_memory rs / page_size + 7) / 8) p.mem (0x100000 + b / 8),
  )

  fresh-used : (b : ℕ) → is_page_free b (fresh rs p) ≡ false
  unfolding is_page_free fresh
  fresh-used b = ground (arith, fresh-byte b, ones-set (b % 8))

  fresh-total : (fresh rs p).total_pages ≡ total_memory rs / page_size
  unfolding fresh
  fresh-total = refl

  fresh-IsCounted : IsCounted (fresh rs p)
  unfolding fresh
  fresh-IsCounted = record {
    small = omega (arith, total_memory-lt rs);
    bytes = λ b lt. omega (arith, fresh-byte b lt);
    counted = sym (free_count-none _ (fresh rs p) (λ b lt. fresh-used b));
  }

-- The last step of pmm_init writes the statistics only.
is_page_free-init_stats :
    (total : ℕ) (p : Pmm) (b : ℕ) → is_page_free b (init_stats total p) ≡ is_page_free b p
unfolding is_page_free init_stats
is_page_free-init_stats total p b = refl

init_stats-IsValid : (total : ℕ) (p : Pmm) → IsCounted p → IsValid (init_stats total p)
unfolding init_stats
init_stats-IsValid total p c =
    let le = free_count-le p.total_pages p in
    record {
      small = c.small;
      bytes = c.bytes;
      counted =
          c.counted
          ∙ free_count-cong p.total_pages p (init_stats total p)
              (λ b lt. sym (is_page_free-init_stats total p b));
      available = omega (arith, c.small, c.counted, le);
      used = omega (arith, c.small, c.counted, le);
    }

-- pmm_init on at least one region answers 0 and leaves a valid state, whatever the state before it
-- was; on a NULL or an empty array it answers -1 and changes nothing.
pub pmm_init-IsValid :
    (regions : List Region) (p : Pmm)
    → (pmm_init none p ≡ (negsuc 0, p))
      × (pmm_init (some []) p ≡ (negsuc 0, p))
      × (0 < length regions
          → ((pmm_init (some regions) p).0 ≡ pos 0) × IsValid (pmm_init (some regions) p).1)
unfolding pmm_init
pmm_init-IsValid regions p = (
  refl,
  refl,
  λ h.
      let rs = take 32 regions in
      let live : (length regions == 0) ≡ false = ground arith in
      rw live (
        refl,
        init_stats-IsValid (total_memory rs) (mark_regions_free rs (fresh rs p))
            (mark_regions_free-IsCounted rs (fresh rs p) (fresh-IsCounted rs p)),
      ),
)

-- After pmm_init on at least one region, a page is free exactly if one of the first 32 regions is
-- available and covers it, and its number is below the number of pages that the available ones of
-- these regions hold together.
pub pmm_init-free :
    (regions : List Region) (p : Pmm) (b : ℕ)
    → 0 < length regions
    → is_page_free b (pmm_init (some regions) p).1
      ≡ covered b (take 32 regions) && ltb b (total_memory (take 32 regions) / page_size)
unfolding pmm_init
pmm_init-free regions p b h =
    let rs = take 32 regions in
    let live : (length regions == 0) ≡ false = ground arith in
    rw live (
      ground (
        arith,
        is_page_free-init_stats (total_memory rs) (mark_regions_free rs (fresh rs p)) b,
        mark_regions_free-marks rs (fresh rs p) b (fresh-IsCounted rs p).bytes,
        fresh-used rs p b,
        fresh-total rs p,
      ))

pmm_init-base :
    (regions : List Region) (p : Pmm)
    → 0 < length regions
    → (pmm_init (some regions) p).1.page_bitmap ≡ 0x100000
unfolding pmm_init init_stats fresh
pmm_init-base regions p h =
    let live : (length regions == 0) ≡ false = ground arith in
    rw live (mark_regions_free-base (take 32 regions) (fresh (take 32 regions) p))

pmm_init-pages :
    (regions : List Region) (p : Pmm)
    → 0 < length regions
    → (pmm_init (some regions) p).1.total_pages ≡ total_memory (take 32 regions) / page_size
unfolding pmm_init init_stats
pmm_init-pages regions p h =
    let rs = take 32 regions in
    let live : (length regions == 0) ≡ false = ground arith in
    rw live (mark_regions_free-total rs (fresh rs p) ∙ fresh-total rs p)

-- Where no available region covers page 0 or a page that the bitmap lies in, and the bitmap's
-- pages are in range, pmm_init leaves the bitmap and page 0 out of reach of pmm_alloc_page.
pub pmm_init-IsReserved :
    (regions : List Region) (p : Pmm)
    → 0 < length regions
    → covered 0 (take 32 regions) ≡ false
    → ((b : ℕ)
        → covered b (take 32 regions) ≡ true
        → (b < 256)
          ⊎ (0x100000 + (total_memory (take 32 regions) / page_size + 7) / 8 ≤ b * page_size))
    → IsReserved (pmm_init (some regions) p).1
pmm_init-IsReserved regions p h zero_page apart = record {
  zero_page = ground (arith, pmm_init-free regions p 0 h);
  bitmap = λ b free. ground (
    arith,
    pmm_init-free regions p b h,
    apart b,
    pmm_init-base regions p h,
    pmm_init-pages regions p h,
  );
}

-- pmm_init reserves nothing for the bitmap itself: where an available region covers page 256 and
-- more than 256 pages are counted, the page that the bitmap starts in is free after pmm_init.
pub pmm_init-not-IsReserved :
    (regions : List Region) (p : Pmm)
    → 0 < length regions
    → covered 256 (take 32 regions) ≡ true
    → 256 < total_memory (take 32 regions) / page_size
    → ((pmm_init (some regions) p).1.page_bitmap ≡ 256 * page_size)
      × (is_page_free 256 (pmm_init (some regions) p).1 ≡ true)
      × ¬ IsReserved (pmm_init (some regions) p).1
pmm_init-not-IsReserved regions p h covers many =
    let base = pmm_init-base regions p h in
    let free : is_page_free 256 (pmm_init (some regions) p).1 ≡ true =
      pmm_init-free regions p 256 h ∙ rw (covers, lt→ltb _ _ many) refl in
    let pages = pmm_init-pages regions p h in
    (
      base,
      free,
      λ reserved. elim (reserved.bitmap 256 free) [
        | inl before ↦ omega (arith, before, base)
        | inr after ↦ omega (arith, after, base, pages, many)
      ],
    )
