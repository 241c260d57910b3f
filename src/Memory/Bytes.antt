-- ===== src/Memory/Bytes.antt =====
-- kernel/mm/memory_utils.c over a byte-addressed memory. A pointer is an address, NULL is 0, and a
-- region does not run past the end of the address space (in C such pointer arithmetic is undefined).
pub mod Copy
pub mod Fill
pub mod Compare
pub mod Search
pub mod Checksum
use fg_os.Base.{
  ℕ, zero, suc, ◌+◌, ◌-◌, ◌*◌, ◌/◌, ◌%◌, ◌^◌, bit_and, bit_or, Bool, true, false, ◌&&◌, ◌||◌, not,
  ltb, leb, ◌==◌, if◌then◌else◌,
}
use fg_os.Base.Int.{ℤ, pos, negsuc, sub_ℕ}

-- The byte at each address.
abbrev pub Mem : Type 0
Mem = ℕ → ℕ

abbrev pub store : Mem → ℕ → ℕ → Mem
store m p v q = if p == q then v else m q

-- for (i = 0; i < size; i++) d[i] = s[i], from round i on, with n rounds left.
pub copy_forward : (n i d s : ℕ) → Mem → Mem
copy_forward zero i d s m = m
copy_forward (suc n) i d s m = copy_forward n (suc i) d s (store m (d + i) (m (s + i)))

-- for (i = size; i > 0; i--) d[i - 1] = s[i - 1].
pub copy_backward : (n d s : ℕ) → Mem → Mem
copy_backward zero d s m = m
copy_backward (suc n) d s m = copy_backward n d s (store m (d + n) (m (s + n)))

pub memory_copy : (dest src size : ℕ) → Mem → Mem
unfolding copy_forward copy_backward
memory_copy dest src size m =
    if dest == 0 || src == 0 || size == 0
    then m
    else if ltb dest src
    then copy_forward size 0 dest src m
    else if ltb src dest
    then copy_backward size dest src m
    else m

pub set_bytes : (n i d v : ℕ) → Mem → Mem
set_bytes zero i d v m = m
set_bytes (suc n) i d v m = set_bytes n (suc i) d v (store m (d + i) v)

-- val64 |= val64 << 8; val64 |= val64 << 16; val64 |= val64 << 32;
pub spread : ℕ → ℕ
spread val =
    let v1 = bit_or val (val * 2 ^ 8 % 2 ^ 64) in
    let v2 = bit_or v1 (v1 * 2 ^ 16 % 2 ^ 64) in bit_or v2 (v2 * 2 ^ 32 % 2 ^ 64)

-- Byte k of a 64-bit word; the machine is little-endian.
abbrev pub byte_of : ℕ → ℕ → ℕ
byte_of w k = w / 2 ^ (8 * k) % 256

-- *(uint64_t*)a = w
pub store64 : Mem → ℕ → ℕ → Mem
store64 m a w q = if leb a q && ltb q (a + 8) then byte_of w (q - a) else m q

-- for (i = 0; i < count64; i++) d64[i] = val64
pub set_words : (n i d w : ℕ) → Mem → Mem
set_words zero i d w m = m
set_words (suc n) i d w m = set_words n (suc i) d w (store64 m (d + 8 * i) w)

-- `value` is the bit pattern of the int argument; its cast to uint8_t keeps the low byte.
pub memory_set : (dest value size : ℕ) → Mem → Mem
unfolding set_bytes spread store64 set_words
memory_set dest value size m =
    if dest == 0 || size == 0
    then m
    else if leb 8 size && dest % 8 == 0
    then set_bytes (size - size / 8 * 8) 0 (dest + size / 8 * 8) (value % 256)
        (set_words (size / 8) 0 dest (spread (value % 256)) m)
    else set_bytes size 0 dest (value % 256) m

unfoldable pub compare_loop : (n i p q : ℕ) → Mem → ℤ
compare_loop zero i p q m = pos 0
compare_loop (suc n) i p q m =
    if not (m (p + i) == m (q + i))
    then sub_ℕ (m (p + i)) (m (q + i))
    else compare_loop n (suc i) p q m

unfoldable pub memory_compare : (ptr1 ptr2 size : ℕ) → Mem → ℤ
unfolding compare_loop
memory_compare ptr1 ptr2 size m =
    if ptr1 == 0 || ptr2 == 0
    then (if ptr1 == ptr2 then pos 0 else if ptr1 == 0 then negsuc 0 else pos 1)
    else compare_loop size 0 ptr1 ptr2 m

pub find_loop : (n i p val : ℕ) → Mem → ℕ
find_loop zero i p val m = 0
find_loop (suc n) i p val m = if m (p + i) == val then p + i else find_loop n (suc i) p val m

-- The address of the first occurrence, or NULL.
pub memory_find : (ptr value size : ℕ) → Mem → ℕ
unfolding find_loop
memory_find ptr value size m =
    if ptr == 0 || size == 0 then 0 else find_loop size 0 ptr (value % 256) m

pub memory_zero_secure : (ptr size : ℕ) → Mem → Mem
unfolding set_bytes
memory_zero_secure ptr size m = if ptr == 0 || size == 0 then m else set_bytes size 0 ptr 0 m

pub is_zero_loop : (n i p : ℕ) → Mem → Bool
is_zero_loop zero i p m = true
is_zero_loop (suc n) i p m = if not (m (p + i) == 0) then false else is_zero_loop n (suc i) p m

pub memory_is_zero : (ptr size : ℕ) → Mem → Bool
unfolding is_zero_loop
memory_is_zero ptr size m = if ptr == 0 || size == 0 then true else is_zero_loop size 0 ptr m

-- checksum += p[i]; checksum = (checksum << 1) | (checksum >> 31); on uint32_t
pub checksum_step : ℕ → ℕ → ℕ
checksum_step c b = let s = (c + b) % 2 ^ 32 in bit_or (s * 2 % 2 ^ 32) (s / 2 ^ 31)

pub checksum_loop : (n i p c : ℕ) → Mem → ℕ
checksum_loop zero i p c m = c
checksum_loop (suc n) i p c m = checksum_loop n (suc i) p (checksum_step c (m (p + i))) m

pub memory_checksum : (ptr size : ℕ) → Mem → ℕ
unfolding checksum_loop checksum_step
memory_checksum ptr size m = if ptr == 0 || size == 0 then 0 else checksum_loop size 0 ptr 0 m
