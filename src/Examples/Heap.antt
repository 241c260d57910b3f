-- ===== src/Examples/Heap.antt =====
-- Runs of heap.c: a heap of one page at address 4096, and one that is a single allocated block.
use fg_os.Base.{
  ◌+◌, ◌%◌, ◌≡◌, ◌<◌, ◌≤◌, ◌==◌, ◌⊎◌, refl, arith, Bool, true, false, if◌then◌else◌, All, [], ◌∷◌,
  add32,
}
use fg_os.Memory.Heap.{Heap, heap_magic, find_from, kmalloc, krealloc, kfree, is_valid_block}
use fg_os.Memory.Heap.Layout.{Extent, header, IsHeap, IsRight-cons, IsRight-nil, position}
use fg_os.Memory.Heap.Find.{fits}
use fg_os.Memory.Heap.Kmalloc.{Placement, block_bytes, kmalloc_lem}
use fg_os.Memory.Heap.Kfree.{released}
use fg_os.Memory.Heap.Release.{kfree_lem}
use fg_os.Memory.Heap.Cycle.{kfree-kmalloc}
use fg_os.Memory.Heap.Krealloc.{Moved, krealloc_lem}

-- One block at address 4096.
abbrev single : Bool → Heap
single allocated = record {
  start = 4096;
  end = 8192;
  heap_size = 4096;
  used = if allocated then 4096 else 0;
  free = if allocated then 0 else 4096;
  first = 4096;
  allocations = 0;
  frees = 0;
  blocks =
      λ q. record { size = 4096; allocated = allocated; next = 0; prev = 0; magic = heap_magic };
  mem = λ q. q % 256;
}

single-IsHeap :
    (allocated : Bool)
    → IsHeap (single allocated) (record { size = 4096; allocated = allocated } ∷ [])
single-IsHeap allocated = record {
  blocks =
      IsRight-cons _ 0 4096 (record { size = 4096; allocated = allocated }) [] refl (omega arith)
        (IsRight-nil _ 4096 8192);
  some_block = omega arith;
  coalesced = (ground arith, tt);
  above_zero = omega arith;
  below_top = omega arith;
  whole = refl;
  end = refl;
  first = refl;
  used = ground arith;
  free = ground arith;
}

kmalloc_lem_example :
    ((kmalloc 100 (single false) ≡ (0, single false))
      × All
          (λ e. fits (block_bytes 100) e ≡ false)
          (record { size = 4096; allocated = false } ∷ []))
    ⊎ Placement
        (block_bytes 100)
        (single false)
        (record { size = 4096; allocated = false } ∷ [])
        (kmalloc 100 (single false))
kmalloc_lem_example =
    kmalloc_lem 100 (single false) (record { size = 4096; allocated = false } ∷ [])
      (single-IsHeap false) (omega arith) (omega arith)

kfree-kmalloc_example :
    let (ptr, h') = kmalloc 100 (single false) in
    IsHeap (kfree ptr h') (record { size = 4096; allocated = false } ∷ [])
    × ((kfree ptr h').mem ≡ (single false).mem)
kfree-kmalloc_example =
    kfree-kmalloc 100 (single false) (record { size = 4096; allocated = false } ∷ [])
      (single-IsHeap false) (omega arith) (omega arith)

kfree_lem_example :
    let h' = kfree (position 4096 [] + 40) (single true) in
    IsHeap h' (released [] (record { size = 4096; allocated = true }) [])
    × (h'.mem ≡ (single true).mem)
    × (h'.frees ≡ add32 0 1)
kfree_lem_example =
    kfree_lem (single true) [] (record { size = 4096; allocated = true }) [] (single-IsHeap true)
      refl

-- An allocated block of 104 bytes in front of the free rest.
abbrev front : Extent
front = record { size = 104; allocated = true }

abbrev rest : Extent
rest = record { size = 3992; allocated = false }

abbrev two_blocks : Heap
two_blocks = record (single false) {
  used = 104;
  free = 3992;
  blocks = λ q. if q == 4096 then header front 4200 0 else header rest 0 4096;
}

two_blocks-IsHeap : IsHeap two_blocks (front ∷ rest ∷ [])
two_blocks-IsHeap = record {
  blocks =
      IsRight-cons _ 0 4096 front (rest ∷ []) refl (omega arith)
        (IsRight-cons _ 4096 4200 rest [] refl (omega arith) (IsRight-nil _ 4200 8192));
  some_block = omega arith;
  coalesced = (refl, (refl, tt));
  above_zero = omega arith;
  below_top = omega arith;
  whole = refl;
  end = refl;
  first = refl;
  used = refl;
  free = refl;
}

-- 200 bytes do not fit the block, and fit the rest.
krealloc_lem_example :
    ((krealloc (4096 + 40) 200 two_blocks ≡ (4096 + 40, two_blocks)) × (200 + 40 ≤ front.size))
    ⊎ ((krealloc (4096 + 40) 200 two_blocks ≡ (0, two_blocks))
        × (front.size < 200 + 40)
        × All (λ x. fits (block_bytes 200) x ≡ false) (front ∷ rest ∷ []))
    ⊎ ((front.size < 200 + 40)
        × Moved two_blocks (front ∷ rest ∷ []) 4096 front 200 (krealloc (4096 + 40) 200 two_blocks))
krealloc_lem_example =
    krealloc_lem 200 two_blocks [] front (rest ∷ []) two_blocks-IsHeap refl (omega arith)
      (omega arith) (omega arith)

-- Of the three cases it is the last, and the answer is behind the header at 4200.
krealloc_moves : (krealloc 4136 200 two_blocks).0 ≡ 4240
unfolding krealloc kmalloc is_valid_block find_from
krealloc_moves = refl
