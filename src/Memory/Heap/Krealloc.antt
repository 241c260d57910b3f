-- ===== src/Memory/Heap/Krealloc.antt =====
-- kernel/mm/heap.c, krealloc of an allocated block, against the list of extents. Only the bytes that
-- callers use, behind the headers of allocated blocks, are spoken of: the headers are a store of
-- their own, and where split_block and merge_blocks write them is inside free extents, or at the
-- front of blocks.
use fg_os.Base.{
  ℕ, ◌+◌, ◌-◌, ◌^◌, ◌≤◌, ◌<◌, ◌≡◌, refl, sym, ap, ◌∙◌, subst, arith, true, false, leb, ltb, ◌&&◌,
  List, [], ◌∷◌, All, ◌⊎◌, inl, inr, if◌then◌else◌, ◌==◌, Bool-cases, sub64, ne→==, if_true,
  if_false,
}
use fg_os.Memory.Bytes.{Mem, memory_copy}
use fg_os.Memory.Bytes.Copy.{memory_copy_lem}
use fg_os.Memory.Heap.{Heap, HeapBlock, kmalloc, kfree, krealloc}
use fg_os.Memory.Heap.Layout.{Extent, IsHeap, position, unwind}
use fg_os.Memory.Heap.Find.{fits, FirstFit}
use fg_os.Memory.Heap.Allocate.{placed}
use fg_os.Memory.Heap.Kmalloc.{Placement, block_bytes, kmalloc_lem}
use fg_os.Memory.Heap.Kfree.{released}
use fg_os.Memory.Heap.Release.{kfree_lem, parts, in_bounds, valid}
use fg_os.Memory.Heap.Positions.{Sits, Sits-position, Sits-split, Sits-placed, Sits-apart}

-- The block e at p, of a heap that consists of es, was moved to a new block for `size` bytes.
pub record Moved (h : Heap) (es : List Extent) (p : ℕ) (e : Extent) (size : ℕ) (r : ℕ × Heap)
    : Type 0 where
  pub block : ℕ
  pub found : FirstFit (block_bytes size) h.start es block
  pub pointer : r.0 ≡ block + 40
  pub before : List Extent
  pub after : List Extent
  pub split :
      unwind found.before (placed (block_bytes size) found.extent found.after)
      ≡ unwind before (e ∷ after)
  pub address : p ≡ position h.start before
  pub heap : IsHeap r.1 (released before e after)
  pub copied : (i : ℕ) → i + 40 < e.size → r.1.mem (block + 40 + i) ≡ h.mem (p + 40 + i)
  pub kept :
      (q : ℕ) (x : Extent)
      → Sits q x h.start es
      → x.allocated ≡ true
      → (i : ℕ) → i + 40 < x.size
      → r.1.mem (q + 40 + i) ≡ h.mem (q + 40 + i)

IsHeap-mem :
    (h : Heap) (m : Mem) (es : List Extent) → IsHeap h es → IsHeap (record h { mem = m }) es
IsHeap-mem h m es heap = record {
  blocks = heap.blocks;
  some_block = heap.some_block;
  coalesced = heap.coalesced;
  above_zero = heap.above_zero;
  below_top = heap.below_top;
  whole = heap.whole;
  end = heap.end;
  first = heap.first;
  used = heap.used;
  free = heap.free;
}

module _ (size : ℕ) (h : Heap) (before : List Extent) (e : Extent) (after : List Extent)
    (heap : IsHeap h (unwind before (e ∷ after))) (busy : e.allocated ≡ true) (headed : 40 ≤ e.size)
    (some_bytes : 0 < size) where
  abbrev es : List Extent
  es = unwind before (e ∷ after)

  abbrev p : ℕ
  p = position h.start before

  -- krealloc once its tests have passed.
  abbrev grow : (r : ℕ × Heap) → ℕ × Heap
  grow (new_ptr, h') = if new_ptr == 0 then (0, h') else (
    new_ptr,
    kfree (p + 40) (record h' { mem = memory_copy new_ptr (p + 40) (e.size - 40) h'.mem }),
  )

  krealloc-grow :
      krealloc (p + 40) size h
      ≡ (if leb size (e.size - 40) then (p + 40, h) else grow (kmalloc size h))
  unfolding krealloc
  krealloc-grow =
      let inside = in_bounds h before e after heap busy in
      let exact : sub64 (p + 40) 40 ≡ p = omega (arith, inside, heap.below_top) in
      let named : (h.blocks p).size ≡ e.size =
        ap (λ (b : HeapBlock). b.size) (parts h before e after heap busy).0 in
      let old : sub64 (h.blocks p).size 40 ≡ e.size - 40 =
        ap (λ (n : ℕ). sub64 n 40) named ∙ omega (arith, inside, heap.below_top, headed) in
      let live = ne→== (p + 40) 0 (λ z. omega (arith, z)) in
      let asked = ne→== size 0 (λ z. omega (arith, z, some_bytes)) in
      let sound = valid h before e after heap busy in rw (live, asked, exact, sound, old) refl

  module _ (top : size + 200 ≤ 2 ^ 64) (larger : e.size < size + 40) (new_ptr : ℕ) (h' : Heap)
      (P : Placement (block_bytes size) h es (new_ptr, h')) where
    abbrev f : FirstFit (block_bytes size) h.start es P.block
    f = P.found

    free : f.extent.allocated ≡ false
    free = ground (arith, f.fit)

    room : block_bytes size ≤ f.extent.size
    room = ground (arith, f.fit)

    -- The bytes after the copy.
    abbrev filled : Mem
    filled = memory_copy new_ptr (p + 40) (e.size - 40) h'.mem

    -- The byte at q after a copy of m to [d, last).
    abbrev copy_at : (m : Mem) (q last d : ℕ) → ℕ
    copy_at m q last d = if leb d q && ltb q last then m (p + 40 + (q - d)) else m q

    filled_lem :
        (q : ℕ)
        → filled q ≡ (
            if leb (P.block + 40) q && ltb q (P.block + e.size)
            then h.mem (p + 40 + (q - (P.block + 40)))
            else h.mem q)
    filled_lem q =
        let new = P.pointer in
        let end : new_ptr + (e.size - 40) ≡ P.block + e.size = omega (arith, new, headed) in
        memory_copy_lem new_ptr (p + 40) (e.size - 40) h'.mem q (λ z. omega (arith, z, new))
          (λ z. omega (arith, z))
        ∙ ap
            (λ (t : ℕ).
              if leb new_ptr q && ltb q t then h'.mem (p + 40 + (q - new_ptr)) else h'.mem q)
            end
        ∙ ap (copy_at h'.mem q (P.block + e.size)) new
        ∙ ap (λ (m : Mem). copy_at m q (P.block + e.size) (P.block + 40)) P.bytes

    found-Sits : Sits P.block f.extent h.start es
    found-Sits =
        subst (λ (b : ℕ). Sits b f.extent h.start es) (sym f.address)
          (subst (Sits (position h.start f.before) f.extent h.start) (sym f.split)
            (Sits-position f.extent h.start f.before f.after))

    -- An extent that is allocated sits apart from the new block.
    untouched :
        (q : ℕ) (x : Extent)
        → Sits q x h.start es
        → x.allocated ≡ true
        → (i : ℕ) → i + 40 < x.size
        → filled (q + 40 + i) ≡ h.mem (q + 40 + i)
    untouched q x sits taken i small =
        filled_lem (q + 40 + i)
        ∙ (elim (Sits-apart q P.block x f.extent h.start es taken free sits found-Sits) [
          | inl below ↦ ground (arith, below, small)
          | inr above ↦ ground (arith, above, small, room, larger)
        ])

    copied_lem : (i : ℕ) → i + 40 < e.size → filled (P.block + 40 + i) ≡ h.mem (p + 40 + i)
    copied_lem i small =
        let inside : (leb (P.block + 40) (P.block + 40 + i)
              && ltb (P.block + 40 + i) (P.block + e.size))
            ≡ true =
          ground (arith, small) in
        filled_lem (P.block + 40 + i) ∙ if_true _ _ _ inside ∙ ap h.mem (omega arith)

    moved-Sits : Sits p e h.start (unwind f.before (placed (block_bytes size) f.extent f.after))
    moved-Sits =
        Sits-placed p e h.start (block_bytes size) f.before f.extent f.after busy free
          (subst (Sits p e h.start) f.split (Sits-position e h.start before after))

    moved : Moved h es p e size (grow (new_ptr, h'))
    moved =
        let (before', after', split, at) =
          Sits-split p e h.start [] (unwind f.before (placed (block_bytes size) f.extent f.after))
            moved-Sits in
        let h2 : Heap = record h' { mem = filled } in
        let heap2 : IsHeap h2 (unwind before' (e ∷ after')) =
          subst (IsHeap h2) split (IsHeap-mem h' filled _ P.heap) in
        let got = kfree_lem h2 before' e after' heap2 busy in
        let here : position h'.start before' + 40 ≡ p + 40 =
          ap (λ (start : ℕ). position start before' + 40) P.base
          ∙ ap (λ (x : ℕ). x + 40) (sym at) in
        let (freed, bytes) =
          subst
            (λ (ptr : ℕ).
              IsHeap (kfree ptr h2) (released before' e after') × ((kfree ptr h2).mem ≡ filled))
            here (got.0, got.1) in
        let new = P.pointer in
        let some_ptr = ne→== new_ptr 0 (λ z. omega (arith, z, new)) in
        subst (Moved h es p e size) (sym (if_false _ _ _ some_ptr)) (record {
          block = P.block;
          found = f;
          pointer = new;
          before = before';
          after = after';
          split = split;
          address = at;
          heap = freed;
          copied = λ i small. ap (λ (m : Mem). m (P.block + 40 + i)) bytes ∙ copied_lem i small;
          kept = λ q x sits taken i small.
              ap (λ (m : Mem). m (q + 40 + i)) bytes ∙ untouched q x sits taken i small;
        })

-- krealloc of at least one byte and at most 2^64 - 200, for a pointer to an allocated block of 40
-- bytes or more with its header, in a heap that consists of the extents es: it answers the pointer
-- and changes nothing, exactly where the block has room for the size; otherwise it answers NULL and
-- changes nothing, where no extent fits the size; or else it answers a new block, at the first extent
-- that fits. Then the old block is released and coalesced with its neighbours, the heap consists of
-- the extents that this leaves, the new block starts with the bytes of the old one, and the bytes
-- behind the header of every block that was allocated before are as they were.
pub krealloc_lem :
    (size : ℕ) (h : Heap) (before : List Extent) (e : Extent) (after : List Extent)
    → let es = unwind before (e ∷ after) in
      let p = position h.start before in
      IsHeap h es
      → e.allocated ≡ true
      → 40 ≤ e.size
      → 0 < size
      → size + 200 ≤ 2 ^ 64
      → ((krealloc (p + 40) size h ≡ (p + 40, h)) × (size + 40 ≤ e.size))
        ⊎ ((krealloc (p + 40) size h ≡ (0, h))
            × (e.size < size + 40)
            × All (λ x. fits (block_bytes size) x ≡ false) es)
        ⊎ ((e.size < size + 40) × Moved h es p e size (krealloc (p + 40) size h))
krealloc_lem size h before e after heap busy headed some_bytes top =
    let es = unwind before (e ∷ after) in
    let p = position h.start before in
    let steps = krealloc-grow size h before e after heap busy headed some_bytes in
    elim (Bool-cases (leb size (e.size - 40))) [
      | inl enough ↦ inl (steps ∙ if_true _ _ _ enough, ground (arith, enough, headed))
      | inr short ↦
          let larger : e.size < size + 40 = ground (arith, short) in
          let grown = steps ∙ if_false _ _ _ short in
          elim (kmalloc_lem size h es heap some_bytes top) [
            | inl (failed, all) ↦ inr (
                inl (
                  grown ∙ ap (grow size h before e after heap busy headed some_bytes) failed,
                  larger,
                  all,
                ))
            | inr placement ↦ inr (
                inr (
                  larger,
                  subst (Moved h es p e size) (sym grown) (
                      moved size h before e after heap busy headed some_bytes top larger
                        (kmalloc size h).0 (kmalloc size h).1 placement),
                ))
          ]
    ]
