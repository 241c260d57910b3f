-- ===== src/Memory/Bytes/Copy.antt =====
-- memory_copy moves a region whether or not source and destination overlap.
use fg_os.Base.{ℕ, zero, suc, ◌+◌, ◌-◌, ◌<◌, ◌≡◌, ◌≢◌, arith, ◌&&◌, ltb, leb, if◌then◌else◌}
use fg_os.Memory.Bytes.{Mem, store, copy_forward, copy_backward, memory_copy}

copy_forward_lem :
    (n i d s : ℕ) (m : Mem) (q : ℕ)
    → d < s
    → copy_forward n i d s m q
      ≡ (if leb (d + i) q && ltb q (d + i + n) then m (s + (q - d)) else m q)
unfolding copy_forward
copy_forward_lem zero i d s m q h = ground arith
copy_forward_lem (suc n) i d s m q h =
    ground (arith, copy_forward_lem n (suc i) d s (store m (d + i) (m (s + i))) q h)

copy_backward_lem :
    (n d s : ℕ) (m : Mem) (q : ℕ)
    → s < d
    → copy_backward n d s m q ≡ (if leb d q && ltb q (d + n) then m (s + (q - d)) else m q)
unfolding copy_backward
copy_backward_lem zero d s m q h = ground arith
copy_backward_lem (suc n) d s m q h =
    ground (arith, copy_backward_lem n d s (store m (d + n) (m (s + n))) q h)

-- With neither pointer NULL, after memory_copy every byte of the destination region holds the byte
-- that the source region held before, at the same offset, also where the regions overlap; every
-- other byte of memory is unchanged.
pub memory_copy_lem :
    (dest src size : ℕ) (m : Mem) (q : ℕ)
    → dest ≢ 0
    → src ≢ 0
    → memory_copy dest src size m q
      ≡ (if leb dest q && ltb q (dest + size) then m (src + (q - dest)) else m q)
unfolding memory_copy
memory_copy_lem dest src size m q hd hs =
    ground (arith, copy_forward_lem size 0 dest src m q, copy_backward_lem size dest src m q)
