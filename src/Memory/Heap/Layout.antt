-- ===== src/Memory/Heap/Layout.antt =====
-- The abstract heap: a list of extents, and the doubly linked list of headers that represents it.
-- A position in the list is a pair: the extents before it, nearest first, and those from it on.
use fg_os.Base.{
  ℕ, ap, ◌&&◌, ◌+◌, ◌^◌, ◌≤◌, ◌<◌, ◌≡◌, ◌∙◌, arith, Bool, false, not, if◌then◌else◌, List, [], ◌∷◌,
  length,
}
use fg_os.Memory.Heap.{Heap, HeapBlock, Blocks, heap_magic}

pub record Extent : Type 0 where
  pub size : ℕ
  pub allocated : Bool

abbrev pub total : List Extent → ℕ
total [] = 0
total (e ∷ es) = e.size + total es

-- The bytes in allocated extents.
abbrev pub in_use : List Extent → ℕ
in_use [] = 0
in_use (e ∷ es) = (if e.allocated then e.size else 0) + in_use es

-- Put the extents before a position back in front.
abbrev pub unwind : (before after : List Extent) → List Extent
unwind [] after = after
unwind (r ∷ before) after = unwind before (r ∷ after)

abbrev pub header : Extent → (next prev : ℕ) → HeapBlock
header e next prev = record {
  size = e.size;
  allocated = e.allocated;
  next = next;
  prev = prev;
  magic = heap_magic;
}

-- The address a, or NULL where no extent follows.
abbrev pub link : ℕ → List Extent → ℕ
link a [] = 0
link a (e ∷ es) = a

-- The headers of the extents from address a on.
unfoldable pub IsRight : Blocks → (prev a : ℕ) → List Extent → Type 0
IsRight B prev a [] = Unit
IsRight B prev a (e ∷ es) =
    (B a ≡ header e (link (a + e.size) es) prev) × (0 < e.size) × IsRight B a (a + e.size) es

-- The address after the extents before a position.
abbrev pub position : ℕ → List Extent → ℕ
position start [] = start
position start (r ∷ before) = position start before + r.size

-- The address of the nearest extent before a position, or NULL.
abbrev pub nearest : ℕ → List Extent → ℕ
nearest start [] = 0
nearest start (r ∷ before) = position start before

-- The headers of the extents before a position that is not the end.
unfoldable pub IsLeft : Blocks → ℕ → List Extent → Type 0
IsLeft B start [] = Unit
IsLeft B start (r ∷ before) =
    (B (position start before) ≡ header r (position start before + r.size) (nearest start before))
    × (0 < r.size)
    × IsLeft B start before

pub total-unwind :
    (before after : List Extent) → total (unwind before after) ≡ total before + total after
total-unwind [] after = omega arith
total-unwind (r ∷ before) after = omega (arith, total-unwind before (r ∷ after))

pub in_use-unwind :
    (before after : List Extent) → in_use (unwind before after) ≡ in_use before + in_use after
in_use-unwind [] after = omega arith
in_use-unwind (r ∷ before) after = omega (arith, in_use-unwind before (r ∷ after))

pub in_use-le : (es : List Extent) → in_use es ≤ total es
in_use-le [] = omega arith
in_use-le (e ∷ es) = ground (arith, in_use-le es)

pub length-le :
    (B : Blocks) (prev a : ℕ) (es : List Extent) → IsRight B prev a es → length es ≤ total es
unfolding IsRight
length-le B prev a [] h = omega arith
length-le B prev a (e ∷ es) h = omega (arith, h.1, length-le B a (a + e.size) es h.2)

pub position_lem : (start : ℕ) (before : List Extent) → position start before ≡ start + total before
position_lem start [] = omega arith
position_lem start (r ∷ before) = omega (arith, position_lem start before)

-- A list can be opened at any position, and closed again.
pub IsRight-open :
    (B : Blocks) (start : ℕ) (before : List Extent) (e : Extent) (after : List Extent)
    → IsRight B 0 start (unwind before (e ∷ after))
    → IsLeft B start before × IsRight B (nearest start before) (position start before) (e ∷ after)
unfolding IsLeft IsRight
IsRight-open B start [] e after h = (tt, h)
IsRight-open B start (r ∷ before) e after h =
    let (left, right) = IsRight-open B start before r (e ∷ after) h in
    ((right.0, right.1, left), right.2)

pub IsRight-close :
    (B : Blocks) (start : ℕ) (before : List Extent) (e : Extent) (after : List Extent)
    → IsLeft B start before
    → IsRight B (nearest start before) (position start before) (e ∷ after)
    → IsRight B 0 start (unwind before (e ∷ after))
unfolding IsLeft IsRight
IsRight-close B start [] e after left right = right
IsRight-close B start (r ∷ before) e after left right =
    IsRight-close B start before r (e ∷ after) left.2 (left.0, left.1, right)

-- Either side only looks at its own headers.
pub IsRight-frame :
    (B C : Blocks) (prev a : ℕ) (es : List Extent)
    → ((q : ℕ) → a ≤ q → C q ≡ B q)
    → IsRight B prev a es
    → IsRight C prev a es
unfolding IsRight
IsRight-frame B C prev a [] same h = tt
IsRight-frame B C prev a (e ∷ es) same h = (
  same a (omega arith) ∙ h.0,
  h.1,
  IsRight-frame B C a (a + e.size) es (λ q le. same q (omega arith)) h.2,
)

pub IsLeft-frame :
    (B C : Blocks) (start : ℕ) (before : List Extent)
    → ((q : ℕ) → q < position start before → C q ≡ B q)
    → IsLeft B start before
    → IsLeft C start before
unfolding IsLeft
IsLeft-frame B C start [] same h = tt
IsLeft-frame B C start (r ∷ before) same h = (
  same (position start before) (omega (arith, h.1)) ∙ h.0,
  h.1,
  IsLeft-frame B C start before (λ q lt. same q (omega arith)) h.2,
)

-- A new predecessor for the extents from a on: the first header's link back changes, if there is
-- a first.
pub IsRight-set_prev :
    (B C : Blocks) (prev prev' a : ℕ) (es : List Extent)
    → (0 < length es → C a ≡ record (B a) { prev = prev' })
    → ((q : ℕ) → a < q → C q ≡ B q)
    → IsRight B prev a es
    → IsRight C prev' a es
unfolding IsRight
IsRight-set_prev B C prev prev' a [] head same h = tt
IsRight-set_prev B C prev prev' a (e ∷ es) head same h = (
  head (omega arith) ∙ ap (λ (b : HeapBlock). record b { prev = prev' }) h.0,
  h.1,
  IsRight-frame B C a (a + e.size) es (λ q le. same q (omega (arith, h.1))) h.2,
)

-- No two extents in a row are both free.
abbrev pub starts_free : List Extent → Bool
starts_free [] = false
starts_free (e ∷ es) = not e.allocated

abbrev pub IsCoalesced : List Extent → Type 0
IsCoalesced [] = Unit
IsCoalesced (e ∷ es) = ((not e.allocated && starts_free es) ≡ false) × IsCoalesced es

-- The heap consists of the extents es, and its counters agree with them.
pub record IsHeap (h : Heap) (es : List Extent) : Type 0 where
  pub blocks : IsRight h.blocks 0 h.start es
  pub some_block : 0 < length es
  pub coalesced : IsCoalesced es
  pub above_zero : 0 < h.start
  pub below_top : h.start + h.heap_size < 2 ^ 64
  pub whole : total es ≡ h.heap_size
  pub end : h.end ≡ h.start + h.heap_size
  pub first : h.first ≡ h.start
  pub used : h.used ≡ in_use es
  pub free : h.free + h.used ≡ h.heap_size

pub IsCoalesced-split :
    (before : List Extent) (e : Extent) (after : List Extent)
    → IsCoalesced (unwind before (e ∷ after))
    → IsCoalesced before
      × IsCoalesced (e ∷ after)
      × ((not e.allocated && starts_free before) ≡ false)
IsCoalesced-split [] e after h = (tt, h, ground arith)
IsCoalesced-split (r ∷ before) e after h =
    let (left, right, join) = IsCoalesced-split before r (e ∷ after) h in
    ((join, left), right.1, ground (arith, right.0))

pub IsCoalesced-join :
    (before : List Extent) (e : Extent) (after : List Extent)
    → IsCoalesced before
    → IsCoalesced (e ∷ after)
    → (not e.allocated && starts_free before) ≡ false
    → IsCoalesced (unwind before (e ∷ after))
IsCoalesced-join [] e after left right join = right
IsCoalesced-join (r ∷ before) e after left right join =
    IsCoalesced-join before r (e ∷ after) left.1 (ground (arith, join), right) left.0

-- The parts of either side, where its definition stays shut.
pub IsRight-parts :
    (B : Blocks) (prev a : ℕ) (e : Extent) (es : List Extent)
    → IsRight B prev a (e ∷ es)
    → (B a ≡ header e (link (a + e.size) es) prev) × (0 < e.size) × IsRight B a (a + e.size) es
unfolding IsRight
IsRight-parts B prev a e es h = h

pub IsLeft-parts :
    (B : Blocks) (start : ℕ) (r : Extent) (before : List Extent)
    → IsLeft B start (r ∷ before)
    → (B (position start before) ≡ header r (position start before + r.size) (nearest start before))
      × (0 < r.size)
      × IsLeft B start before
unfolding IsLeft
IsLeft-parts B start r before h = h

pub IsRight-cons :
    (B : Blocks) (prev a : ℕ) (e : Extent) (es : List Extent)
    → B a ≡ header e (link (a + e.size) es) prev
    → 0 < e.size
    → IsRight B a (a + e.size) es
    → IsRight B prev a (e ∷ es)
unfolding IsRight
IsRight-cons B prev a e es at pos rest = (at, pos, rest)

pub IsRight-nil : (B : Blocks) (prev a : ℕ) → IsRight B prev a []
unfolding IsRight
IsRight-nil B prev a = tt
