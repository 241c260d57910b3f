-- ===== src/Memory/Heap/Cycle.antt =====
-- kernel/mm/heap.c over time: heap_init sets the heap up, and kfree undoes kmalloc.
use fg_os.Base.{
  ℕ, ◌+◌, ◌-◌, ◌*◌, ◌/◌, ◌%◌, ◌^◌, ◌≤◌, ◌<◌, ◌≡◌, subst, ap, refl, sym, ◌∙◌, arith, Bool, true,
  false, ◌&&◌, not, ltb, if◌then◌else◌, List, [], ◌∷◌, inl, inr, Bool-cases, eq→==,
}
use fg_os.Base.Int.{pos}
use fg_os.Base.Bits.{bit_and-not_mask}
use fg_os.Memory.Heap.{Heap, heap_init, kfree, kmalloc, round_up}
use fg_os.Memory.Heap.Layout.{
  Extent, IsRight-nil, IsRight-cons, IsHeap, IsCoalesced, IsCoalesced-split, position, unwind,
  starts_free,
}
use fg_os.Memory.Heap.Allocate.{placed}
use fg_os.Memory.Heap.Kmalloc.{Placement, block_bytes, kmalloc_lem}
use fg_os.Memory.Heap.Kfree.{grown, remaining, settled, released}
use fg_os.Memory.Heap.Release.{kfree_lem, kfree-refuses}

settled-busy :
    (before : List Extent) (e : Extent) (after : List Extent)
    → starts_free before ≡ false
    → settled before e after ≡ unwind before (e ∷ after)
settled-busy [] e after busy = refl
settled-busy (r ∷ before) e after busy =
    let taken : r.allocated ≡ true = ground (arith, busy) in simp taken refl

remaining-busy : (after : List Extent) → starts_free after ≡ false → remaining after ≡ after
remaining-busy [] busy = refl
remaining-busy (f ∷ after) busy =
    let taken : f.allocated ≡ true = ground (arith, busy) in simp taken refl

grown-busy : (e : Extent) (after : List Extent) → starts_free after ≡ false → grown e after ≡ e
grown-busy e [] busy = refl
grown-busy e (f ∷ after) busy =
    let taken : f.allocated ≡ true = ground (arith, busy) in simp taken refl

-- Freeing a block that was just cut out of a free extent, or was one, gives the extents back.
module _ (n : ℕ) (before : List Extent) (e : Extent) (after : List Extent)
    (free : e.allocated ≡ false) (room : n ≤ e.size)
    (single : IsCoalesced (unwind before (e ∷ after))) where
  parts :
      IsCoalesced before
      × IsCoalesced (e ∷ after)
      × ((not e.allocated && starts_free before) ≡ false)
  parts = IsCoalesced-split before e after single

  before-busy : starts_free before ≡ false
  before-busy = ground (arith, free, parts.2)

  after-busy : starts_free after ≡ false
  after-busy = ground (arith, free, parts.1.0)

  pub released-cut :
      released before
        (record { size = n; allocated = true })
        (record { size = e.size - n; allocated = false } ∷ after)
      ≡ unwind before (e ∷ after)
  released-cut =
      let sum : record { size = n + (e.size - n); allocated = false } ≡ e = ground (arith, room) in
      settled-busy before _ after before-busy ∙ ap (λ (x : Extent). unwind before (x ∷ after)) sum

  pub released-whole :
      released before (record e { allocated = true }) after ≡ unwind before (e ∷ after)
  released-whole =
      let same : record e { allocated = false } ≡ e =
        ap (λ (b : Bool). record e { allocated = b }) (sym free) in
      ap (λ (x : List Extent). settled before (grown (record e { allocated = false }) after) x)
        (remaining-busy after after-busy)
      ∙ ap (λ (x : Extent). settled before x after)
          (grown-busy (record e { allocated = false }) after after-busy ∙ same)
      ∙ settled-busy before e after before-busy

freed :
    (n : ℕ) (h h' : Heap) (before : List Extent) (e : Extent) (after : List Extent)
    → e.allocated ≡ false
    → n ≤ e.size
    → IsCoalesced (unwind before (e ∷ after))
    → h'.start ≡ h.start
    → IsHeap h' (unwind before (placed n e after))
    → let h'' = kfree (position h.start before + 40) h' in
      IsHeap h'' (unwind before (e ∷ after)) × (h''.mem ≡ h'.mem)
freed n h h' before e after free room single start heap = elim (Bool-cases (ltb (n + 64) e.size)) [
  | inl rest ↦
      let piece : Extent = record { size = n; allocated = true } in
      let rest_piece : Extent = record { size = e.size - n; allocated = false } in
      let got = kfree_lem h' before piece (rest_piece ∷ after) (rw rest at heap) refl in
      subst
        (λ (s : ℕ).
          IsHeap (kfree (position s before + 40) h') (unwind before (e ∷ after))
          × ((kfree (position s before + 40) h').mem ≡ h'.mem))
        start
        (
          subst (IsHeap (kfree (position h'.start before + 40) h'))
              (released-cut n before e after free room single) got.0,
          got.1,
        )
  | inr small ↦
      let got = kfree_lem h' before (record e { allocated = true }) after (rw small at heap) refl in
      subst
        (λ (s : ℕ).
          IsHeap (kfree (position s before + 40) h') (unwind before (e ∷ after))
          × ((kfree (position s before + 40) h').mem ≡ h'.mem))
        start
        (
          subst (IsHeap (kfree (position h'.start before + 40) h'))
              (released-whole n before e after free room single) got.0,
          got.1,
        )
]

undone :
    (size : ℕ) (h : Heap) (es : List Extent) (r : ℕ × Heap)
    → IsHeap h es
    → Placement (block_bytes size) h es r
    → IsHeap (kfree r.0 r.1) es × ((kfree r.0 r.1).mem ≡ h.mem)
undone size h es r heap p =
    let f = p.found in
    let free : f.extent.allocated ≡ false = ground (arith, f.fit) in
    let room : block_bytes size ≤ f.extent.size = ground (arith, f.fit) in
    let got =
      freed (block_bytes size) h r.1 f.before f.extent f.after free room
        (rw f.split at heap.coalesced) p.base p.heap in
    let at : r.0 ≡ position h.start f.before + 40 = p.pointer ∙ ap (λ (x : ℕ). x + 40) f.address in
    rw (at, f.split) (got.0, got.1 ∙ p.bytes)

-- kfree undoes kmalloc: after a kmalloc of at least one byte and at most 2^64 - 200, in a heap that
-- consists of the extents es, kfree of its answer, NULL included, leaves a heap that consists of the
-- same extents es again, and the bytes in the blocks as they were.
pub kfree-kmalloc :
    (size : ℕ) (h : Heap) (es : List Extent)
    → IsHeap h es
    → 0 < size
    → size + 200 ≤ 2 ^ 64
    → let (ptr, h') = kmalloc size h in IsHeap (kfree ptr h') es × ((kfree ptr h').mem ≡ h.mem)
kfree-kmalloc size h es heap some top = elim (kmalloc_lem size h es heap some top) [
  | inl (failed, all) ↦ rw (failed, kfree-refuses 0 h (inl refl)) (heap, refl)
  | inr p ↦ undone size h es (kmalloc size h) heap p
]

-- The size that heap_init uses, in exact arithmetic.
abbrev pub heap_bytes : ℕ → ℕ
heap_bytes size = ((if ltb size 4096 then 4096 else size) + 4095) / 4096 * 4096

round_up_page : (size : ℕ) → size + 4095 < 2 ^ 64 → round_up size 4096 ≡ (size + 4095) / 4096 * 4096
round_up_page size fits64 =
    bit_and-not_mask 64 12 ((size + 4095) % 2 ^ 64) (omega arith) (omega arith)
    ∙ omega (arith, fits64)

-- heap_init at a nonzero address below 2^64 minus the size, rounded up to pages and at least one
-- page: it answers 0, and the heap is one free extent of that size, whatever it was before.
pub heap_init-IsHeap :
    (start size : ℕ) (h : Heap)
    → 0 < start
    → start + heap_bytes size < 2 ^ 64
    → let (code, h') = heap_init start size h in
      (code ≡ pos 0) × IsHeap h' (record { size = heap_bytes size; allocated = false } ∷ [])
unfolding heap_init
heap_init-IsHeap start size h above top =
    let n : ℕ = if ltb size 4096 then 4096 else size in
    let enough : 4096 ≤ n = ground arith in
    let exact = round_up_page n (omega (arith, top)) in
    rw exact (
      refl,
      record {
        blocks =
            IsRight-cons _ 0 start (record { size = heap_bytes size; allocated = false }) []
              (rw (eq→== start start refl) refl) (omega (arith, enough))
              (IsRight-nil _ start (start + heap_bytes size));
        some_block = omega arith;
        coalesced = (refl, tt);
        above_zero = above;
        below_top = top;
        whole = omega arith;
        end = omega (arith, top);
        first = refl;
        used = refl;
        free = omega arith;
      },
    )
