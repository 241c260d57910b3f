-- ===== src/Memory/Strings.antt =====
-- kernel/src/string_stubs.c: strncpy, memset, memcpy and memcmp, which walk their pointers.
use fg_os.Base.{
  ℕ, zero, suc, ◌+◌, ◌-◌, ◌%◌, ◌≤◌, ◌<◌, ◌≡◌, ◌≢◌, refl, ◌⊎◌, arith, ◌&&◌, not, ltb, leb, ◌==◌,
  if◌then◌else◌,
}
use fg_os.Base.Int.{ℤ, pos, sub_ℕ}
use fg_os.Memory.Bytes.{Mem, store, compare_loop, memory_copy, memory_set, memory_compare}
use fg_os.Memory.Bytes.Copy.{memory_copy_lem}
use fg_os.Memory.Bytes.Fill.{memory_set_lem}

-- while (size--) *p++ = val;
pub fill_loop : (n p val : ℕ) → Mem → Mem
fill_loop zero p val m = m
fill_loop (suc n) p val m = fill_loop n (suc p) val (store m p val)

unfoldable pub memset : (ptr value size : ℕ) → Mem → Mem
unfolding fill_loop
memset ptr value size m = fill_loop size ptr (value % 256) m

-- while (n--) *d++ = *s++;
pub memcpy_loop : (n d s : ℕ) → Mem → Mem
memcpy_loop zero d s m = m
memcpy_loop (suc n) d s m = memcpy_loop n (suc d) (suc s) (store m d (m s))

unfoldable pub memcpy : (dest src n : ℕ) → Mem → Mem
unfolding memcpy_loop
memcpy dest src n m = memcpy_loop n dest src m

pub memcmp_loop : (n p q : ℕ) → Mem → ℤ
memcmp_loop zero p q m = pos 0
memcmp_loop (suc n) p q m =
    if not (m p == m q) then sub_ℕ (m p) (m q) else memcmp_loop n (suc p) (suc q) m

unfoldable pub memcmp : (ptr1 ptr2 num : ℕ) → Mem → ℤ
unfolding memcmp_loop
memcmp ptr1 ptr2 num m = memcmp_loop num ptr1 ptr2 m

-- The two loops of strncpy: copy up to the NUL, then pad with NULs.
pub strncpy_loop : (n dest src : ℕ) → Mem → Mem
unfolding fill_loop
strncpy_loop zero dest src m = m
strncpy_loop (suc n) dest src m =
    if not (m src == 0)
    then strncpy_loop n (suc dest) (suc src) (store m dest (m src))
    else fill_loop (suc n) dest 0 m

unfoldable pub strncpy : (dest src n : ℕ) → Mem → Mem
unfolding strncpy_loop
strncpy dest src n m = strncpy_loop n dest src m

fill_loop_lem :
    (n p v : ℕ) (m : Mem) (q : ℕ)
    → fill_loop n p v m q ≡ (if leb p q && ltb q (p + n) then v else m q)
unfolding fill_loop
fill_loop_lem zero p v m q = ground arith
fill_loop_lem (suc n) p v m q = ground (arith, fill_loop_lem n (suc p) v (store m p v) q)

-- memset and memory_set leave the same memory, for every destination but NULL.
pub memset-memory_set :
    (ptr value size : ℕ) (m : Mem) (q : ℕ)
    → ptr ≢ 0
    → memset ptr value size m q ≡ memory_set ptr value size m q
unfolding memset
memset-memory_set ptr value size m q h =
    ground (arith, fill_loop_lem size ptr (value % 256) m q, memory_set_lem ptr value size m q)

memcpy_loop_lem :
    (n d s : ℕ) (m : Mem) (q : ℕ)
    → (d ≤ s) ⊎ (s + n ≤ d)
    → memcpy_loop n d s m q ≡ (if leb d q && ltb q (d + n) then m (s + (q - d)) else m q)
unfolding memcpy_loop
memcpy_loop_lem zero d s m q h = ground arith
memcpy_loop_lem (suc n) d s m q h =
    ground (arith, memcpy_loop_lem n (suc d) (suc s) (store m d (m s)) q)

-- Where the destination does not start inside the source region, memcpy and memory_copy leave the
-- same memory (neither pointer being NULL).
pub memcpy-memory_copy :
    (dest src n : ℕ) (m : Mem) (q : ℕ)
    → dest ≢ 0
    → src ≢ 0
    → (dest ≤ src) ⊎ (src + n ≤ dest)
    → memcpy dest src n m q ≡ memory_copy dest src n m q
unfolding memcpy
memcpy-memory_copy dest src n m q hd hs apart =
    ground (arith, memcpy_loop_lem n dest src m q, memory_copy_lem dest src n m q)

memcmp_loop-compare_loop :
    (n i p q a b : ℕ) (m : Mem)
    → a ≡ p + i
    → b ≡ q + i
    → memcmp_loop n a b m ≡ compare_loop n i p q m
unfolding memcmp_loop compare_loop
memcmp_loop-compare_loop zero i p q a b m ea eb = refl
memcmp_loop-compare_loop (suc n) i p q a b m ea eb =
    ground (arith, memcmp_loop-compare_loop n (suc i) p q (suc a) (suc b) m)

-- memcmp and memory_compare agree on pointers that are not NULL.
pub memcmp-memory_compare :
    (p q n : ℕ) (m : Mem) → p ≢ 0 → q ≢ 0 → memcmp p q n m ≡ memory_compare p q n m
unfolding memcmp memory_compare
memcmp-memory_compare p q n m hp hq = ground (arith, memcmp_loop-compare_loop n 0 p q p q m)

-- The number of bytes of a string before its NUL, counting n at most.
unfoldable pub strnlen : (n src : ℕ) → Mem → ℕ
strnlen zero src m = 0
strnlen (suc n) src m = if m src == 0 then 0 else suc (strnlen n (suc src) m)

strnlen-store :
    (n src : ℕ) (m : Mem) (p v : ℕ)
    → (p < src) ⊎ (src + n ≤ p)
    → strnlen n src (store m p v) ≡ strnlen n src m
unfolding strnlen
strnlen-store zero src m p v h = refl
strnlen-store (suc n) src m p v h = ground (arith, strnlen-store n (suc src) m p v)

-- strncpy writes exactly n bytes: the string without its NUL, as far as it fits, then NULs. The two
-- regions do not overlap. With n bytes or more before the NUL the copy has no NUL of its own.
pub strncpy_lem :
    (n dest src : ℕ) (m : Mem) (q : ℕ)
    → (dest + n ≤ src) ⊎ (src + n ≤ dest)
    → strncpy dest src n m q ≡ (
        if leb dest q && ltb q (dest + n)
        then (if ltb (q - dest) (strnlen n src m) then m (src + (q - dest)) else 0)
        else m q)
unfolding strncpy strnlen
strncpy_lem zero dest src m q apart = ground arith
strncpy_lem (suc n) dest src m q apart = ground (
  arith,
  strncpy_lem n (suc dest) (suc src) (store m dest (m src)) q,
  strnlen-store n (suc src) m dest (m src),
  fill_loop_lem (suc n) dest 0 m q,
)
