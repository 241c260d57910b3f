-- ===== src/Fs/Fgfs/Checksum.antt =====
-- kernel/fs/fgfs.c: checksums, over the memory of Memory.Bytes.
use fg_os.Base.{
  ℕ, zero, suc, ◌+◌, ◌*◌, ◌/◌, ◌%◌, ◌^◌, ◌==◌, bit_xor, Bool, ◌||◌, if◌then◌else◌, add32,
}
use fg_os.Memory.Bytes.{Mem}

abbrev pub fgfs_checksum_crc32 : ℕ
fgfs_checksum_crc32 = 1

-- checksum = ((checksum << 8) ^ byte) ^ (checksum >> 24)
unfoldable pub crc_step : (checksum byte : ℕ) → ℕ
crc_step checksum byte = bit_xor (bit_xor (checksum * 2 ^ 8 % 2 ^ 32) byte) (checksum / 2 ^ 24)

-- The loop of the case CRC32, from byte i on, with n bytes left.
unfoldable pub crc_loop : (n i bytes checksum : ℕ) → Mem → ℕ
crc_loop zero i bytes checksum m = checksum
crc_loop (suc n) i bytes checksum m = crc_loop n (suc i) bytes (crc_step checksum (m (bytes + i))) m

-- The loop of the other cases.
unfoldable pub sum_loop : (n i bytes checksum : ℕ) → Mem → ℕ
sum_loop zero i bytes checksum m = checksum
sum_loop (suc n) i bytes checksum m = sum_loop n (suc i) bytes (add32 checksum (m (bytes + i))) m

unfoldable pub fgfs_calculate_checksum : (bytes size type : ℕ) → Mem → ℕ
fgfs_calculate_checksum bytes size type m =
    if bytes == 0 || size == 0
    then 0
    else if type == fgfs_checksum_crc32
    then crc_loop size 0 bytes 0 m
    else sum_loop size 0 bytes 0 m

unfoldable pub fgfs_verify_checksum : (bytes size checksum type : ℕ) → Mem → Bool
fgfs_verify_checksum bytes size checksum type m =
    fgfs_calculate_checksum bytes size type m == checksum
