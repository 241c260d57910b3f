-- ===== src/Memory/Heap/Kmalloc.antt =====
-- kernel/mm/heap.c, kmalloc against the list of extents: first fit, and a split where it pays.
use fg_os.Base.{
  ℕ, ◌+◌, ◌*◌, ◌/◌, ◌%◌, ◌^◌, ◌≤◌, ◌<◌, ◌≡◌, ap, refl, sym, ◌∙◌, arith, false, ltb, if◌then◌else◌,
  All, List, [], ◌∷◌, length, ◌⊎◌, inl, inr, Bool-cases, add64, sub64, add32, ne→==,
}
use fg_os.Base.Bits.{bit_and-not_mask}
use fg_os.Memory.Heap.{Heap, Blocks, find_free_block, allocate, kmalloc, round_up}
use fg_os.Memory.Heap.Layout.{
  Extent, IsRight, IsLeft, IsHeap, IsCoalesced, nearest, position, position_lem, unwind, total,
  in_use, total-unwind, in_use-unwind, in_use-le, IsLeft-frame, IsRight-open, IsRight-close,
  IsCoalesced-split, IsCoalesced-join,
}
use fg_os.Memory.Heap.Find.{fits, FirstFit, find_free_block-Search}
use fg_os.Memory.Heap.Allocate.{
  taken, sized, sized-taken, placed, taken-IsRight, taken-below, taken-size,
}

-- A block of n bytes was handed out: it is the first extent that fits, cut to size where the rest
-- is worth a block; no byte in the blocks changes.
pub record Placement (n : ℕ) (h : Heap) (es : List Extent) (r : ℕ × Heap) : Type 0 where
  pub block : ℕ
  pub found : FirstFit n h.start es block
  pub pointer : r.0 ≡ block + 40
  pub heap : IsHeap r.1 (unwind found.before (placed n found.extent found.after))
  pub bytes : r.1.mem ≡ h.mem
  pub counted : r.1.allocations ≡ add32 h.allocations 1
  pub kept : r.1.frees ≡ h.frees
  pub base : r.1.start ≡ h.start

total-placed :
    (n : ℕ) (e : Extent) (after : List Extent) → total (placed n e after) ≡ e.size + total after
total-placed n e after = ground arith

in_use-placed :
    (n : ℕ) (e : Extent) (after : List Extent)
    → in_use (placed n e after) ≡ (if ltb (n + 64) e.size then n else e.size) + in_use after
in_use-placed n e after = ground arith

IsRight-close_placed :
    (B : Blocks) (start n : ℕ) (before : List Extent) (e : Extent) (after : List Extent)
    → IsLeft B start before
    → IsRight B (nearest start before) (position start before) (placed n e after)
    → IsRight B 0 start (unwind before (placed n e after))
IsRight-close_placed B start n before e after left right = elim (Bool-cases (ltb (n + 64) e.size)) [
  | inl rest ↦ rw rest (IsRight-close B start before _ _ left (rw rest at right))
  | inr small ↦ rw small (IsRight-close B start before _ _ left (rw small at right))
]

IsCoalesced-placed :
    (n : ℕ) (before : List Extent) (e : Extent) (after : List Extent)
    → e.allocated ≡ false
    → IsCoalesced (unwind before (e ∷ after))
    → IsCoalesced (unwind before (placed n e after))
IsCoalesced-placed n before e after free whole =
    let (left, right, join) = IsCoalesced-split before e after whole in
    elim (Bool-cases (ltb (n + 64) e.size)) [
      | inl rest ↦
          rw rest
            (IsCoalesced-join before _ _ left (refl, (ground (arith, free, right.0), right.1)) refl)
      | inr small ↦ rw small (IsCoalesced-join before _ _ left (refl, right.1) refl)
    ]

pub length-unwind :
    (before : List Extent) (e : Extent) (after : List Extent)
    → 0 < length (unwind before (e ∷ after))
length-unwind [] e after = omega arith
length-unwind (r ∷ before) e after = length-unwind before r (e ∷ after)

module _ (n : ℕ) (h : Heap) (es : List Extent) (heap : IsHeap h es) (pos : 0 < n)
    (top : n + 64 < 2 ^ 64) (block : ℕ) (f : FirstFit n h.start es block) where
  opened :
      IsLeft h.blocks h.start f.before
      × IsRight h.blocks (nearest h.start f.before) (position h.start f.before) (f.extent ∷ f.after)
  opened = IsRight-open h.blocks h.start f.before f.extent f.after (rw f.split at heap.blocks)

  whole : total f.before + (f.extent.size + total f.after) ≡ h.heap_size
  whole = sym (total-unwind f.before (f.extent ∷ f.after)) ∙ rw f.split at heap.whole

  busy : in_use f.before + in_use f.after ≡ h.used
  busy = ground (arith, f.fit, in_use-unwind f.before (f.extent ∷ f.after), rw f.split at heap.used)

  in_bounds : position h.start f.before + f.extent.size ≤ h.start + h.heap_size
  in_bounds = omega (arith, whole, position_lem h.start f.before)

  block-pos : 0 < block
  block-pos = omega (arith, f.address, position_lem h.start f.before, heap.above_zero)

  abbrev got : ℕ
  got = if ltb (n + 64) f.extent.size then n else f.extent.size

  fits-size : n ≤ f.extent.size
  fits-size = ground (arith, f.fit)

  got-le : got ≤ f.extent.size
  got-le = ground (arith, f.fit)

  abbrev B : Blocks
  B = taken n block h.blocks

  abbrev result : Heap
  result = record h {
    blocks = B;
    used = add64 h.used (sized n block h.blocks block).size;
    free = sub64 h.free (sized n block h.blocks block).size;
    allocations = add32 h.allocations 1;
  }

  size-got : (sized n block h.blocks block).size ≡ got
  size-got =
      sized-taken n block h.blocks
      ∙ rw f.address (
          taken-size n (position h.start f.before) (nearest h.start f.before) f.extent f.after
            h.blocks opened.1 (rw f.address at block-pos) pos
            (omega (arith, in_bounds, heap.below_top)) top)

  result-blocks : IsRight B 0 h.start (unwind f.before (placed n f.extent f.after))
  result-blocks =
      let p = position h.start f.before in
      let prev = nearest h.start f.before in
      let above : 0 < p = rw f.address at block-pos in
      let below : p + f.extent.size < 2 ^ 64 = omega (arith, in_bounds, heap.below_top) in
      rw f.address (
        IsRight-close_placed (taken n p h.blocks) h.start n f.before f.extent f.after
          (IsLeft-frame h.blocks (taken n p h.blocks) h.start f.before
            (taken-below n p prev f.extent f.after h.blocks opened.1 above pos below top) opened.0)
          (taken-IsRight n p prev f.extent f.after h.blocks opened.1 above pos below top))

  some_result : 0 < length (unwind f.before (placed n f.extent f.after))
  some_result = elim (Bool-cases (ltb (n + 64) f.extent.size)) [
    | inl rest ↦ rw rest (length-unwind f.before _ _)
    | inr small ↦ rw small (length-unwind f.before _ _)
  ]

  free-extent : f.extent.allocated ≡ false
  free-extent = ground (arith, f.fit)

  pub result-IsHeap : IsHeap result (unwind f.before (placed n f.extent f.after))
  result-IsHeap =
      let sizes = size-got in
      let le = got-le in
      let now = in_use-unwind f.before (placed n f.extent f.after) in
      let here = in_use-placed n f.extent f.after in
      let least = in_use-le f.before in
      let least' = in_use-le f.after in
      record {
        blocks = result-blocks;
        some_block = some_result;
        coalesced =
            IsCoalesced-placed n f.before f.extent f.after free-extent
              (rw f.split at heap.coalesced);
        above_zero = heap.above_zero;
        below_top = heap.below_top;
        whole =
            total-unwind f.before (placed n f.extent f.after)
            ∙ ap (λ (t : ℕ). total f.before + t) (total-placed n f.extent f.after)
            ∙ whole;
        end = heap.end;
        first = heap.first;
        used = omega (arith, now, here, busy, sizes, le, whole, least, least', heap.below_top);
        free = omega (arith, busy, sizes, le, whole, least, least', heap.below_top, heap.free);
      }

-- For a block of n bytes, more than a header and 64 below the end of the 64-bit range: the heap either has no free extent
-- of that size and allocate changes nothing, or it hands out the first one.
pub allocate_lem :
    (n : ℕ) (h : Heap) (es : List Extent)
    → IsHeap h es
    → 40 < n
    → n + 64 < 2 ^ 64
    → ((allocate n h ≡ (0, h)) × All (λ e. fits n e ≡ false) es) ⊎ Placement n h es (allocate n h)
unfolding allocate
allocate_lem n h es heap pos top = elim (find_free_block-Search n h es heap) [
  | inl (none_, all) ↦ inl (rw none_ refl, all)
  | inr f ↦
      let live =
        ne→== (find_free_block n h) 0
          (λ z. omega (arith, z, block-pos n h es heap (omega (arith, pos)) top _ f)) in
      inr (
        rw live (record {
          block = find_free_block n h;
          found = f;
          pointer = omega (
            arith,
            in_bounds n h es heap (omega (arith, pos)) top _ f,
            fits-size n h es heap (omega (arith, pos)) top _ f,
            f.address,
            heap.below_top,
          );
          heap = result-IsHeap n h es heap (omega (arith, pos)) top _ f;
          bytes = refl;
          counted = refl;
          kept = refl;
          base = refl;
        }))
]

-- The size of the block for a request, in exact arithmetic.
abbrev pub block_bytes : ℕ → ℕ
block_bytes size = (size + 15) / 16 * 16 + 40

round_up_16 : (size : ℕ) → round_up size 16 ≡ (size + 15) % 2 ^ 64 / 16 * 16
round_up_16 size = bit_and-not_mask 64 4 ((size + 15) % 2 ^ 64) (omega arith) (omega arith)

-- kmalloc of at least one byte and at most 2^64 - 200, in a heap that consists of the extents es:
-- either no free extent has room for the request, rounded up to 16, and a header, and kmalloc
-- answers NULL and changes nothing; or it hands out the first one that has.
pub kmalloc_lem :
    (size : ℕ) (h : Heap) (es : List Extent)
    → IsHeap h es
    → 0 < size
    → size + 200 ≤ 2 ^ 64
    → ((kmalloc size h ≡ (0, h)) × All (λ e. fits (block_bytes size) e ≡ false) es)
      ⊎ Placement (block_bytes size) h es (kmalloc size h)
unfolding kmalloc
kmalloc_lem size h es heap pos top =
    let some_bytes = ne→== size 0 (λ z. omega (arith, z, pos)) in
    let exact : add64 (round_up size 16) 40 ≡ block_bytes size =
      rw round_up_16 (omega (arith, top)) in
    rw (some_bytes, exact)
      (allocate_lem (block_bytes size) h es heap (omega (arith, pos)) (omega (arith, top)))

-- Rounding up wraps around for the last 15 sizes below 2^64: kmalloc then does what it does to
-- find a block of 40 bytes, which is the header alone.
pub kmalloc-wraps :
    (size : ℕ) (h : Heap) → 2 ^ 64 ≤ size + 15 → size < 2 ^ 64 → kmalloc size h ≡ allocate 40 h
unfolding kmalloc
kmalloc-wraps size h low high =
    let some_bytes = ne→== size 0 (λ z. omega (arith, z, low)) in
    let exact : add64 (round_up size 16) 40 ≡ 40 = rw round_up_16 (omega (arith, low, high)) in
    rw (some_bytes, exact) refl
