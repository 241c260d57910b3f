-- ===== src/Memory/Heap.antt =====
-- kernel/mm/heap.c: the kernel heap, a doubly linked list of blocks with headers in front of them.
-- The headers are a store by address, and the bytes that callers use are a memory of their own, so a
-- write of a header does not show in that memory: what it holds is the C code's only behind the
-- headers of allocated blocks. A caller that writes outside of its blocks is not modelled. Log output
-- is left out.
pub mod Layout
pub mod Find
pub mod Allocate
pub mod Kmalloc
pub mod Merge
pub mod Kfree
pub mod Release
pub mod Cycle
pub mod Contents
pub mod Positions
pub mod Krealloc
use fg_os.Base.{
  ℕ, zero, suc, ◌+◌, ◌-◌, ◌%◌, ◌^◌, bit_and, Bool, true, false, ◌&&◌, ◌||◌, not, ltb, leb, ◌==◌,
  if◌then◌else◌, add64, sub64, mul64, add32,
}
use fg_os.Base.Int.{ℤ, pos}
use fg_os.Memory.Bytes.{Mem, memory_set, memory_copy}
use fg_os.Memory.Align.{not64}

abbrev pub heap_magic : ℕ
heap_magic = 0xDEADBEEF

-- The compiler pads the header to 40 bytes: 8 for size, 8 for allocated, 8 for each pointer, and 8
-- for magic.
abbrev pub heap_block_header_size : ℕ
heap_block_header_size = 40

abbrev pub heap_min_block_size : ℕ
heap_min_block_size = 64

abbrev pub heap_alignment : ℕ
heap_alignment = 16

pub record HeapBlock : Type 0 where
  pub size : ℕ
  pub allocated : Bool
  pub next : ℕ
  pub prev : ℕ
  pub magic : ℕ

abbrev pub Blocks : Type 0
Blocks = ℕ → HeapBlock

-- heap_info, the headers, and the bytes in the blocks.
pub record Heap : Type 0 where
  pub start : ℕ
  pub end : ℕ
  pub heap_size : ℕ
  pub used : ℕ
  pub free : ℕ
  pub first : ℕ
  pub allocations : ℕ
  pub frees : ℕ
  pub blocks : Blocks
  pub mem : Mem

-- Writes to one header.
abbrev pub put : ℕ → HeapBlock → Blocks → Blocks
put a b B q = if a == q then b else B q

abbrev pub set_prev : (a p : ℕ) → Blocks → Blocks
set_prev a p B = put a (record (B a) { prev = p }) B

-- (size + alignment - 1) & ~(alignment - 1)
abbrev pub round_up : (size alignment : ℕ) → ℕ
round_up size alignment = bit_and ((size + (alignment - 1)) % 2 ^ 64) (not64 (alignment - 1))

unfoldable pub heap_init : (start initial_size : ℕ) → Heap → ℤ × Heap
heap_init start initial_size h =
    let n = round_up (if ltb initial_size 4096 then 4096 else initial_size) 4096 in
    (
      pos 0,
      record h {
        start = start;
        end = add64 start n;
        heap_size = n;
        used = 0;
        free = n;
        first = start;
        allocations = 0;
        frees = 0;
        blocks =
            put start
              (record { size = n; allocated = false; next = 0; prev = 0; magic = heap_magic })
              h.blocks;
      },
    )

-- The loop of find_free_block from `block` on; NULL is 0.
unfoldable pub find_from : (fuel block size : ℕ) → Blocks → ℕ
find_from zero block size B = 0
find_from (suc fuel) block size B = elim (block == 0) [
  | true ↦ 0
  | false ↦ elim (not (B block).allocated && leb size (B block).size) [
    | true ↦ block
    | false ↦ find_from fuel (B block).next size B
  ]
]

-- Every block has at least one byte, so that the heap's size is fuel enough.
unfoldable pub find_free_block : ℕ → Heap → ℕ
unfolding find_from
find_free_block size h = find_from (suc h.heap_size) h.first size h.blocks

unfoldable pub split_block : (block size : ℕ) → Blocks → Blocks
split_block block size B =
    if leb (B block).size (add64 size heap_min_block_size)
    then B
    else let new_block = add64 block size in
      let B1 =
        put new_block
          (record {
            size = sub64 (B block).size size;
            allocated = false;
            next = (B block).next;
            prev = block;
            magic = heap_magic;
          })
          B in
      let B2 = if (B1 block).next == 0 then B1 else set_prev (B1 block).next new_block B1 in
      put block (record (B2 block) { next = new_block; size = size }) B2

-- The body of kmalloc once the size of the block is known: the pointer, or NULL, and the heap.
unfoldable pub allocate : (total_size : ℕ) → Heap → ℕ × Heap
unfolding find_free_block split_block
allocate total_size h =
    let block = find_free_block total_size h in
    if block == 0
    then (0, h)
    else let B =
        if ltb (add64 total_size heap_min_block_size) (h.blocks block).size
        then split_block block total_size h.blocks
        else h.blocks in
      (
        add64 block heap_block_header_size,
        record h {
          blocks = put block (record (B block) { allocated = true }) B;
          used = add64 h.used (B block).size;
          free = sub64 h.free (B block).size;
          allocations = add32 h.allocations 1;
        },
      )

unfoldable pub kmalloc : ℕ → Heap → ℕ × Heap
unfolding allocate
kmalloc size h =
    if size == 0
    then (0, h)
    else allocate (add64 (round_up size heap_alignment) heap_block_header_size) h

pub kcalloc : (count size : ℕ) → Heap → ℕ × Heap
unfolding kmalloc
kcalloc count size h =
    let total_size = mul64 count size in
    let (ptr, h') = kmalloc total_size h in
    (ptr, if ptr == 0 then h' else record h' { mem = memory_set ptr 0 total_size h'.mem })

unfoldable pub is_valid_block : ℕ → Heap → Bool
is_valid_block block h =
    if block == 0
    then false
    else if not ((h.blocks block).magic == heap_magic)
    then false
    else if ltb block h.start || leb h.end block
    then false
    else true

-- The body of either loop of merge_blocks: `block` takes in the block `next` that follows it.
unfoldable pub absorb : (block next : ℕ) → Blocks → Blocks
absorb block next B =
    let B1 = put block (record (B block) { size = add64 (B block).size (B next).size }) B in
    let B2 = put block (record (B1 block) { next = (B1 next).next }) B1 in
    if (B2 next).next == 0 then B2 else set_prev (B2 next).next block B2

-- while (block->next && !block->next->allocated)
pub merge_next : (fuel block : ℕ) → Blocks → Blocks
merge_next zero block B = B
merge_next (suc fuel) block B =
    elim (not ((B block).next == 0) && not (B (B block).next).allocated) [
      | false ↦ B
      | true ↦ merge_next fuel block (absorb block (B block).next B)
    ]

-- while (block->prev && !block->prev->allocated), where block becomes its predecessor.
pub merge_prev : (fuel block : ℕ) → Blocks → Blocks
merge_prev zero block B = B
merge_prev (suc fuel) block B =
    elim (not ((B block).prev == 0) && not (B (B block).prev).allocated) [
      | false ↦ B
      | true ↦ merge_prev fuel (B block).prev (absorb (B block).prev block B)
    ]

-- Each round of either loop takes one block out of the list.
pub merge_blocks : (fuel block : ℕ) → Blocks → Blocks
unfolding merge_next merge_prev
merge_blocks fuel block B = merge_prev fuel block (merge_next fuel block B)

pub kfree : ℕ → Heap → Heap
unfolding is_valid_block merge_blocks
kfree ptr h =
    let block = sub64 ptr heap_block_header_size in
    if ptr == 0
    then h
    else if not (is_valid_block block h)
    then h
    else if not (h.blocks block).allocated
    then h
    else let B = put block (record (h.blocks block) { allocated = false }) h.blocks in
      record h {
        used = sub64 h.used (B block).size;
        free = add64 h.free (B block).size;
        frees = add32 h.frees 1;
        blocks = merge_blocks (suc h.heap_size) block B;
      }

unfoldable pub krealloc : (ptr size : ℕ) → Heap → ℕ × Heap
krealloc ptr size h =
    let block = sub64 ptr heap_block_header_size in
    let old_size = sub64 (h.blocks block).size heap_block_header_size in
    if ptr == 0
    then kmalloc size h
    else if size == 0
    then (0, kfree ptr h)
    else if not (is_valid_block block h)
    then (0, h)
    else if leb size old_size
    then (ptr, h)
    else let (new_ptr, h') = kmalloc size h in
      if new_ptr == 0
      then (0, h')
      else (new_ptr, kfree ptr (record h' { mem = memory_copy new_ptr ptr old_size h'.mem }))
