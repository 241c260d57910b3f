-- ===== src/Fs/Fgfs/Files.antt =====
-- kernel/fs/fgfs.c: opening, closing and seeking, and the calls that do nothing yet. int64_t is ℤ in
-- its range, and a conversion to it reads a 64-bit pattern as two's complement.
use fg_os.Base.{
  ℕ, ◌-◌, ◌^◌, ◌==◌, ltb, true, false, ◌||◌, List, Option, none, some, if◌then◌else◌, add64, sub32,
}
use fg_os.Base.Int.{ℤ, pos, negsuc}
use fg_os.Fs.Types.{File, write}
use fg_os.Fs.Fgfs.Operations.{State, freed, taken}

-- (int64_t)
unfoldable pub to_signed : ℕ → ℤ
to_signed n = if ltb n (2 ^ 63) then pos n else negsuc (2 ^ 64 - 1 - n)

-- (uint64_t)
unfoldable pub to_unsigned : ℤ → ℕ
to_unsigned (pos n) = n
to_unsigned (negsuc n) = 2 ^ 64 - 1 - n

abbrev pub with_file : ℕ → File → State → State
with_file address file s = record s {
  local = record s.local { files = write address file s.local.files };
}

-- The file that fgfs_open makes up.
abbrev pub root_file : (mode fs : ℕ) → File
root_file mode fs = record {
  fd = 100;
  inode = 2;
  mode = mode;
  position = 0;
  size = 0;
  flags = 0;
  fs = fs;
  mount = 0;
  private_data = 0;
  ref_count = 1;
  modified = false;
}

-- `block` is the answer of kmalloc, and `file` the address of the caller's variable.
unfoldable pub fgfs_open :
    (block fs : ℕ) (path : Option (List ℕ)) (mode file : ℕ) → State → ℤ × State
fgfs_open block fs none mode file s = (negsuc 0, s)
fgfs_open block fs (some path) mode file s =
    let s1 = with_file block (root_file mode fs) (taken block s) in
    if fs == 0 || file == 0 || (s.local.filesystem fs).private_data == 0 || block == 0
    then (negsuc 0, s)
    else (
      pos 0,
      record s1 {
        local = record s1.local {
          own = record s1.local.own { variables = write file block s1.local.own.variables };
        };
      },
    )

unfoldable pub fgfs_close : (file : ℕ) → State → ℤ × State
fgfs_close file s =
    let f = s.local.files file in
    let f1 = record f { ref_count = sub32 f.ref_count 1 } in
    let s1 = with_file file f1 s in
    if file == 0 then (negsuc 0, s) else (pos 0, (if f1.ref_count == 0 then freed file s1 else s1))

-- SEEK_SET is 0, SEEK_CUR is 1, SEEK_END is 2. The two sums are of a uint64_t and an int64_t, that
-- is, of two uint64_t.
unfoldable pub new_position : File → (offset : ℤ) (origin : ℕ) → Option ℤ
new_position f offset origin =
    if origin == 0
    then some offset
    else if origin == 1
    then some (to_signed (add64 f.position (to_unsigned offset)))
    else if origin == 2
    then some (to_signed (add64 f.size (to_unsigned offset)))
    else none

-- What fgfs_seek does with the new position.
unfoldable pub move_to : (file : ℕ) → Option ℤ → State → ℤ × State
move_to file none s = (negsuc 0, s)
move_to file (some (negsuc n)) s = (negsuc 0, s)
move_to file (some (pos n)) s =
    (pos n, with_file file (record (s.local.files file) { position = n }) s)

unfoldable pub fgfs_seek : (file : ℕ) (offset : ℤ) (origin : ℕ) → State → ℤ × State
fgfs_seek file offset origin s =
    if file == 0
    then (negsuc 0, s)
    else move_to file (new_position (s.local.files file) offset origin) s

unfoldable pub fgfs_read : (file buffer size : ℕ) → State → ℤ × State
fgfs_read file buffer size s = if file == 0 || buffer == 0 then (negsuc 0, s) else (pos 0, s)

-- The size is converted to ssize_t.
unfoldable pub fgfs_write : (file buffer size : ℕ) → State → ℤ × State
fgfs_write file buffer size s =
    if file == 0 || buffer == 0
    then (negsuc 0, s)
    else (to_signed size, with_file file (record (s.local.files file) { modified = true }) s)
