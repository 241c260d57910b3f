-- ===== src/Memory/Heap/Contents.antt =====
-- kernel/mm/heap.c, the bytes in the blocks: kmalloc, kfree and kcalloc.
use fg_os.Base.{
  ℕ, ◌+◌, ◌≡◌, refl, ◌∙◌, ap, arith, ◌&&◌, not, ltb, leb, ◌==◌, if◌then◌else◌, add64, mul64, inl,
  inr, Bool-cases,
}
use fg_os.Memory.Bytes.{Mem}
use fg_os.Memory.Bytes.Fill.{memory_set_lem}
use fg_os.Memory.Heap.{Heap, allocate, round_up, kmalloc, kcalloc, kfree}

allocate-mem : (n : ℕ) (h : Heap) → (allocate n h).1.mem ≡ h.mem
unfolding allocate
allocate-mem n h = ground arith

pub kmalloc-mem : (size : ℕ) (h : Heap) → (kmalloc size h).1.mem ≡ h.mem
unfolding kmalloc
kmalloc-mem size h = ground (arith, allocate-mem (add64 (round_up size 16) 40) h)

pub kfree-mem : (ptr : ℕ) (h : Heap) → (kfree ptr h).mem ≡ h.mem
unfolding kfree
kfree-mem ptr h = ground arith

-- kcalloc answers what kmalloc does for the product, taken modulo 2^64; where that is not NULL it
-- clears that many bytes there and no other byte.
pub kcalloc_lem :
    (count size : ℕ) (h : Heap) (q : ℕ)
    → let n = mul64 count size in
      let ptr = (kmalloc n h).0 in
      ((kcalloc count size h).0 ≡ ptr)
      × ((kcalloc count size h).1.mem q
          ≡ (if not (ptr == 0) && leb ptr q && ltb q (ptr + n) then 0 else h.mem q))
unfolding kcalloc
kcalloc_lem count size h q =
    let n = mul64 count size in
    let ptr = (kmalloc n h).0 in
    let same = ap (λ (m : Mem). m q) (kmalloc-mem n h) in
    (
      refl,
      elim (Bool-cases (ptr == 0)) [
        | inl null ↦ rw null same
        | inr live ↦ rw live (memory_set_lem ptr 0 n (kmalloc n h).1.mem q ∙ rw (live, same) refl)
      ],
    )
