-- ===== src/Memory/Bytes/Fill.antt =====
-- memory_set, with its 64-bit fast path, against the plain fill of a region.
use fg_os.Base.{
  ℕ, zero, suc, ◌+◌, ◌-◌, ◌*◌, ◌/◌, ◌%◌, ◌<◌, ◌≡◌, refl, arith, true, ◌&&◌, not, ltb, leb, ◌==◌,
  ==→eq, if◌then◌else◌,
}
use fg_os.Base.Bits.{all_below, all_below_sound}
use fg_os.Memory.Bytes.{
  Mem, store, set_bytes, spread, byte_of, store64, set_words, memory_set, memory_zero_secure,
}

pub set_bytes_lem :
    (n i d v : ℕ) (m : Mem) (q : ℕ)
    → set_bytes n i d v m q ≡ (if leb (d + i) q && ltb q (d + i + n) then v else m q)
unfolding set_bytes
set_bytes_lem zero i d v m q = ground arith
set_bytes_lem (suc n) i d v m q = ground (arith, set_bytes_lem n (suc i) d v (store m (d + i) v) q)

-- Every byte of the spread word is the byte that was spread.
spread_table : all_below 256 (λ v. all_below 8 (λ k. byte_of (spread v) k == v)) ≡ true
unfolding all_below spread
spread_table = refl

byte_of-spread : (v k : ℕ) → v < 256 → k < 8 → byte_of (spread v) k ≡ v
byte_of-spread v k hv hk = ==→eq _ v (
    all_below_sound 8 (λ k. byte_of (spread v) k == v) k
      (all_below_sound 256 (λ v. all_below 8 (λ k. byte_of (spread v) k == v)) v spread_table hv)
      hk)

store64-spread :
    (m : Mem) (a v q : ℕ)
    → v < 256
    → store64 m a (spread v) q ≡ (if leb a q && ltb q (a + 8) then v else m q)
unfolding store64
store64-spread m a v q hv = ground (arith, byte_of-spread v (q - a) hv)

set_words_lem :
    (n i d v : ℕ) (m : Mem) (q : ℕ)
    → v < 256
    → set_words n i d (spread v) m q
      ≡ (if leb (d + 8 * i) q && ltb q (d + 8 * i + 8 * n) then v else m q)
unfolding set_words
set_words_lem zero i d v m q hv = ground arith
set_words_lem (suc n) i d v m q hv = ground (
  arith,
  set_words_lem n (suc i) d v (store64 m (d + 8 * i) (spread v)) q hv,
  store64-spread m (d + 8 * i) v q hv,
)

-- memory_set fills exactly the region with the low byte of `value` and changes no other byte,
-- whichever of its two paths it takes; a NULL destination changes nothing.
pub memory_set_lem :
    (dest value size : ℕ) (m : Mem) (q : ℕ)
    → memory_set dest value size m q
      ≡ (if not (dest == 0) && leb dest q && ltb q (dest + size) then value % 256 else m q)
unfolding memory_set
memory_set_lem dest value size m q = ground (
  arith,
  set_bytes_lem size 0 dest (value % 256) m q,
  set_bytes_lem (size - size / 8 * 8) 0 (dest + size / 8 * 8) (value % 256)
      (set_words (size / 8) 0 dest (spread (value % 256)) m) q,
  set_words_lem (size / 8) 0 dest (value % 256) m q,
)

-- memory_zero_secure leaves the memory that memory_set with the value 0 leaves.
pub memory_zero_secure-memory_set :
    (ptr size : ℕ) (m : Mem) (q : ℕ) → memory_zero_secure ptr size m q ≡ memory_set ptr 0 size m q
unfolding memory_zero_secure
memory_zero_secure-memory_set ptr size m q =
    ground (arith, memory_set_lem ptr 0 size m q, set_bytes_lem size 0 ptr 0 m q)
