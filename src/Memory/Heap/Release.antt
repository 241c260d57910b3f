-- ===== src/Memory/Heap/Release.antt =====
-- kernel/mm/heap.c, kfree on a whole heap, and after kmalloc.
use fg_os.Base.{
  ℕ, suc, ◌+◌, ◌-◌, ◌^◌, ◌≤◌, ◌<◌, ◌≡◌, ◌≢◌, ap, refl, sym, ◌∙◌, arith, true, false, ◌&&◌, not,
  List, [], ◌∷◌, length, ◌⊎◌, inl, inr, Bool-cases, add64, sub64, add32, ne→==, eq→==,
}
use fg_os.Memory.Heap.{
  Heap, HeapBlock, Blocks, put, merge_next, merge_blocks, is_valid_block, kfree, heap_magic,
}
use fg_os.Memory.Heap.Layout.{
  Extent, IsRight, IsLeft, IsHeap, IsCoalesced, header, link, nearest, position, position_lem,
  unwind, starts_free, IsRight-frame, IsLeft-frame, IsRight-open, IsCoalesced-split,
  IsCoalesced-join, IsRight-parts, IsRight-cons, total, in_use, total-unwind, in_use-unwind,
  in_use-le,
}
use fg_os.Memory.Heap.Kmalloc.{length-unwind}
use fg_os.Memory.Heap.Kfree.{
  grown, remaining, settled, released, merge_next-IsRight, merge_prev-IsRight,
}

total-grown :
    (e : Extent) (after : List Extent)
    → (grown e after).size + total (remaining after) ≡ e.size + total after
total-grown e [] = refl
total-grown e (f ∷ after) = ground arith

total-settled :
    (before : List Extent) (e : Extent) (after : List Extent)
    → total (settled before e after) ≡ total before + e.size + total after
total-settled [] e after = omega arith
total-settled (r ∷ before) e after = ground (
  arith,
  total-unwind before (r ∷ e ∷ after),
  total-unwind before (record { size = r.size + e.size; allocated = false } ∷ after),
)

in_use-remaining : (after : List Extent) → in_use (remaining after) ≡ in_use after
in_use-remaining [] = refl
in_use-remaining (f ∷ after) = ground arith

in_use-settled :
    (before : List Extent) (e : Extent) (after : List Extent)
    → e.allocated ≡ false
    → in_use (settled before e after) ≡ in_use before + in_use after
in_use-settled [] e after free = ground arith
in_use-settled (r ∷ before) e after free = ground (
  arith,
  in_use-unwind before (r ∷ e ∷ after),
  in_use-unwind before (record { size = r.size + e.size; allocated = false } ∷ after),
)

IsCoalesced-remaining :
    (after : List Extent)
    → IsCoalesced after
    → (starts_free (remaining after) ≡ false) × IsCoalesced (remaining after)
IsCoalesced-remaining [] single = (refl, tt)
IsCoalesced-remaining (f ∷ after) single = elim (Bool-cases f.allocated) [
  | inl busy ↦ simp busy (refl, (refl, single.1))
  | inr free ↦ simp free (ground (arith, free, single.0), single.1)
]

IsCoalesced-settled :
    (before : List Extent) (e : Extent) (after : List Extent)
    → IsCoalesced before
    → IsCoalesced after
    → starts_free after ≡ false
    → IsCoalesced (settled before e after)
IsCoalesced-settled [] e after left right busy = (ground (arith, busy), right)
IsCoalesced-settled (r ∷ before) e after left right busy = elim (Bool-cases r.allocated) [
  | inl taken ↦ simp taken (
      IsCoalesced-join (r ∷ before) e after left (ground (arith, busy), right)
        (ground (arith, taken)))
  | inr free ↦
      simp free
        (IsCoalesced-join before _ after left.1 (busy, right) (ground (arith, free, left.0)))
]

grown-free :
    (e : Extent) (after : List Extent) → e.allocated ≡ false → (grown e after).allocated ≡ false
grown-free e [] free = free
grown-free e (f ∷ after) free = ground arith

length-settled :
    (before : List Extent) (e : Extent) (after : List Extent) → 0 < length (settled before e after)
length-settled [] e after = omega arith
length-settled (r ∷ before) e after = ground (
  arith,
  length-unwind before r (e ∷ after),
  length-unwind before (record { size = r.size + e.size; allocated = false }) after,
)

module _ (h : Heap) (before : List Extent) (e : Extent) (after : List Extent)
    (heap : IsHeap h (unwind before (e ∷ after))) (busy : e.allocated ≡ true) where
  abbrev pub block : ℕ
  block = position h.start before

  abbrev cleared : Blocks
  cleared = put block (record (h.blocks block) { allocated = false }) h.blocks

  opened :
      IsLeft h.blocks h.start before × IsRight h.blocks (nearest h.start before) block (e ∷ after)
  opened = IsRight-open h.blocks h.start before e after heap.blocks

  pub parts :
      (h.blocks block ≡ header e (link (block + e.size) after) (nearest h.start before))
      × (0 < e.size)
      × IsRight h.blocks block (block + e.size) after
  parts = IsRight-parts h.blocks (nearest h.start before) block e after opened.1

  whole : total before + (e.size + total after) ≡ h.heap_size
  whole = sym (total-unwind before (e ∷ after)) ∙ heap.whole

  block-pos : 0 < block
  block-pos = omega (arith, heap.above_zero, position_lem h.start before)

  pub in_bounds : block + e.size + total after ≡ h.start + h.heap_size
  in_bounds = omega (arith, whole, position_lem h.start before)

  used-sum : in_use before + e.size + in_use after ≡ h.used
  used-sum = ground (arith, busy, in_use-unwind before (e ∷ after), heap.used)

  cleared-IsLeft : IsLeft cleared h.start before
  cleared-IsLeft = IsLeft-frame h.blocks cleared h.start before (λ q low. ground arith) opened.0

  cleared-IsRight :
      IsRight cleared (nearest h.start before) block (record e { allocated = false } ∷ after)
  cleared-IsRight =
      IsRight-cons cleared (nearest h.start before) block (record e { allocated = false }) after
        (rw (eq→== block block refl)
          (ap (λ (b : HeapBlock). record b { allocated = false }) parts.0))
        parts.1
        (IsRight-frame h.blocks cleared block (block + e.size) after
          (λ q le. ground (arith, parts.1)) parts.2)

  coalesced :
      IsCoalesced before
      × IsCoalesced (e ∷ after)
      × ((not e.allocated && starts_free before) ≡ false)
  coalesced = IsCoalesced-split before e after heap.coalesced

  some_fuel : (k : ℕ) × (suc h.heap_size ≡ suc (suc k))
  some_fuel = (h.heap_size - 1, omega (arith, whole, parts.1))

  merged-IsRight :
      IsRight (merge_blocks (suc h.heap_size) block cleared) 0 h.start (released before e after)
  unfolding merge_blocks
  merged-IsRight =
      let e0 : Extent = record e { allocated = false } in
      let top : block + e.size + total after < 2 ^ 64 = omega (arith, in_bounds, heap.below_top) in
      let next =
        merge_next-IsRight h.heap_size block (nearest h.start before) e0 cleared block-pos after
          cleared-IsRight coalesced.1.1 top in
      let left =
        IsLeft-frame cleared (merge_next (suc h.heap_size) block cleared) h.start before next.1
          cleared-IsLeft in
      let top' : block + (grown e0 after).size < 2 ^ 64 =
        omega (arith, top, total-grown e0 after) in
      merge_prev-IsRight h.heap_size h.start (merge_next (suc h.heap_size) block cleared) before
        (grown e0 after) (remaining after) heap.above_zero left next.0 coalesced.0 top'

  abbrev result : Heap
  result = record h {
    used = sub64 h.used (cleared block).size;
    free = add64 h.free (cleared block).size;
    frees = add32 h.frees 1;
    blocks = merge_blocks (suc h.heap_size) block cleared;
  }

  size-cleared : (cleared block).size ≡ e.size
  size-cleared = rw (eq→== block block refl) (ap (λ (b : HeapBlock). b.size) parts.0)

  pub result-IsHeap : IsHeap result (released before e after)
  result-IsHeap =
      let e0 : Extent = record e { allocated = false } in
      let rest = IsCoalesced-remaining after coalesced.1.1 in
      let least = in_use-le before in
      let least' = in_use-le after in
      let now =
        in_use-settled before (grown e0 after) (remaining after) (grown-free e0 after refl) in
      let here = in_use-remaining after in
      record {
        blocks = merged-IsRight;
        some_block = length-settled before (grown e0 after) (remaining after);
        coalesced =
            IsCoalesced-settled before (grown e0 after) (remaining after) coalesced.0 rest.1 rest.0;
        above_zero = heap.above_zero;
        below_top = heap.below_top;
        whole = omega (
          arith,
          total-settled before (grown e0 after) (remaining after),
          total-grown e0 after,
          whole,
        );
        end = heap.end;
        first = heap.first;
        used =
            omega (arith, now, here, size-cleared, used-sum, whole, least, least', heap.below_top);
        free =
            omega (arith, size-cleared, used-sum, whole, least, least', heap.below_top, heap.free);
      }

  pub valid : is_valid_block block h ≡ true
  unfolding is_valid_block
  valid =
      let magic : (h.blocks block).magic ≡ heap_magic = ap (λ (b : HeapBlock). b.magic) parts.0 in
      let low = position_lem h.start before in
      ground (arith, block-pos, in_bounds, parts.1, heap.end)

  kfree-result : kfree (block + 40) h ≡ result
  unfolding kfree
  kfree-result =
      let exact : sub64 (block + 40) 40 ≡ block = omega (arith, in_bounds, heap.below_top) in
      let live = ne→== (block + 40) 0 (λ z. omega (arith, z)) in
      let taken : (h.blocks block).allocated ≡ true =
        ap (λ (b : HeapBlock). b.allocated) parts.0 ∙ busy in
      rw (exact, live, valid, taken) refl

-- kfree of the pointer to an allocated extent e, between the extents `before` and `after`: the heap
-- then consists of the extents with e free and joined to its free neighbours; no byte in the blocks
-- changes.
pub kfree_lem :
    (h : Heap) (before : List Extent) (e : Extent) (after : List Extent)
    → IsHeap h (unwind before (e ∷ after))
    → e.allocated ≡ true
    → let h' = kfree (position h.start before + 40) h in
      IsHeap h' (released before e after) × (h'.mem ≡ h.mem) × (h'.frees ≡ add32 h.frees 1)
kfree_lem h before e after heap busy =
    rw (kfree-result h before e after heap busy)
      (result-IsHeap h before e after heap busy, refl, refl)

-- kfree changes nothing for NULL, for a pointer whose header has not the magic number or lies
-- outside of the heap, and for a block that is free already.
pub kfree-refuses :
    (ptr : ℕ) (h : Heap)
    → let block = sub64 ptr 40 in
      (ptr ≡ 0)
        ⊎ ((h.blocks block).magic ≢ heap_magic)
        ⊎ (block < h.start)
        ⊎ (h.end ≤ block)
        ⊎ ((h.blocks block).allocated ≡ false)
      → kfree ptr h ≡ h
unfolding kfree is_valid_block
kfree-refuses ptr h reason = ground arith
