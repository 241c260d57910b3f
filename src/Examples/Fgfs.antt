-- ===== src/Examples/Fgfs.antt =====
-- Runs of the native file system: its file system record is at 200, and kmalloc has 300 to 600 left.
use fg_os.Base.{
  ℕ, ◌/◌, ◌≤◌, ◌≡◌, refl, ◌⊎◌, ◌↔◌, arith, true, false, ◌==◌, ◌||◌, [], some, if◌then◌else◌,
}
use fg_os.Base.Int.{pos, negsuc}
use fg_os.Memory.Bytes.{Mem}
use fg_os.Fs.Types.{Filesystem, File}
use fg_os.Fs.Cache.{empty_cache, empty_journal}
use fg_os.Fs.Fgfs.Types.{Private}
use fg_os.Fs.Fgfs.Operations.{State, Given, minimal, fgfs_mount}
use fg_os.Fs.Fgfs.Files.{fgfs_seek, root_file}
use fg_os.Fs.Fgfs.Checksum.{fgfs_calculate_checksum, fgfs_verify_checksum}
use fg_os.Fs.Fgfs.Detection.{fgfs_verify_checksum_detects}
use fg_os.Fs.Fgfs.Collision.{Exchanged, fgfs_verify_checksum-Exchanged}
use fg_os.Fs.Fgfs.Seeking.{sought, target, base, fgfs_seek_lem}
use fg_os.Fs.Fgfs.Mounting.{IsFresh, missing, life, fgfs_mount_lem}
use fg_os.Fs.Fgfs.Format.{IsLaidOut, format_superblock, format_superblock-IsLaidOut}

abbrev filesystem : Filesystem
filesystem = record {
  type = 1;
  status = 2;
  name = [];
  device = [];
  superblock = 0;
  ops = 9000;
  private_data = 700;
  flags = 0;
  ref_count = 1;
  mount_point = 0;
}

-- A file at position 10.
abbrev file : File
file = record (root_file 0 200) { position = 10; size = 50 }

abbrev private : Private
private = record {
  superblock = 0;
  group_descs = 0;
  group_desc_count = 0;
  block_size = 4096;
  inode_size = 172;
  inodes_per_block = 23;
  blocks_per_group = 8192;
  inodes_per_group = 2048;
  next_generation = 1;
  has_journal = false;
  journal_inode = 0;
  cache = 0;
  journal = 0;
}

abbrev pub state : State
state = record {
  filesystems = λ q. 0;
  mount_points = [];
  next_fd = 3;
  global_cache = 0;
  global_journal = 0;
  mounted_count = 0;
  initialized = true;
  registered_fs = λ type. 0;
  mounts = λ q. record { path = []; fs = 0; flags = 0; mount_time = 0 };
  caches = λ q. empty_cache;
  journals = λ q. empty_journal;
  blocks = λ q. q == 200 || q == 800;
  local = record {
    filesystem = λ q. filesystem;
    files = λ q. file;
    own = record { privates = λ q. private; superblocks = λ q. minimal; variables = λ q. 0 };
  };
}

abbrev pub given : Given
given = record {
  private_block = 300;
  superblock_block = 400;
  cache_block = 500;
  journal_block = 600;
}

given-IsFresh : IsFresh given state
given-IsFresh = record {
  private_free = refl;
  superblock_free = refl;
  cache_free = refl;
  second = λ h. omega arith;
  third = λ h. omega arith;
}

fgfs_mount_lem_example :
    ((fgfs_mount given 200 (some []) 0 state).0
      ≡ (if missing given 200 0 [] state then negsuc 0 else pos 0))
    × ((life given 200 0 [] state (λ c. c)).0
        ≡ (if missing given 200 0 [] state then negsuc 0 else pos 0))
    × ((life given 200 0 [] state (λ c. c)).1.blocks ≡ state.blocks)
    × ((missing given 200 0 [] state ≡ true)
        ⊎ ((((fgfs_mount given 200 (some []) 0 state).1.local.filesystem 200).private_data ≡ 300)
            × (((life given 200 0 [] state (λ c. c)).1.local.filesystem 200).private_data ≡ 0)))
fgfs_mount_lem_example = fgfs_mount_lem given 200 0 [] state given-IsFresh (λ c. c) (λ c h. h)

-- 20 bytes back from position 10.
fgfs_seek_lem_example :
    fgfs_seek 800 (negsuc 19) 1 state
    ≡ sought 800 (target (base 1 (state.local.files 800)) (negsuc 19)) state
fgfs_seek_lem_example =
    fgfs_seek_lem 800 1 (negsuc 19) state (omega arith) (omega arith) (omega arith) (omega arith)
      (omega arith)

-- Five bytes at 1000, and what becomes of them.
abbrev five_bytes : (first last : ℕ) → Mem
five_bytes first last q = if q == 1000 then first else if q == 1004 then last else 0

fgfs_verify_checksum_detects_example :
    fgfs_verify_checksum 1000 5
      (fgfs_calculate_checksum 1000 5 1 (five_bytes 7 9))
      1
      (five_bytes 7 8)
    ≡ false
fgfs_verify_checksum_detects_example =
    fgfs_verify_checksum_detects 1000 5 1 4 (five_bytes 7 9) (five_bytes 7 8) (λ q. ground arith)
      (λ q. ground arith) (omega arith) (omega arith) (omega arith) (λ k h. ground arith)

exchanged : Exchanged 1000 0 (five_bytes 7 9) (five_bytes 9 7)
exchanged = record { first = refl; last = refl; others = λ k h h'. ground arith }

fgfs_verify_checksum-Exchanged_example :
    fgfs_verify_checksum 1000 5
      (fgfs_calculate_checksum 1000 5 1 (five_bytes 7 9))
      1
      (five_bytes 9 7)
    ≡ true
fgfs_verify_checksum-Exchanged_example =
    fgfs_verify_checksum-Exchanged 1000 5 0 (five_bytes 7 9) (five_bytes 9 7) (λ q. ground arith)
      (λ q. ground arith) (omega arith) exchanged

format_superblock-IsLaidOut_example :
    (100 ≤ 4194304 / 4096) ↔ IsLaidOut (format_superblock 4194304 4096)
format_superblock-IsLaidOut_example = format_superblock-IsLaidOut 4194304 4096 (omega arith)
