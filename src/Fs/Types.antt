-- ===== src/Fs/Types.antt =====
-- kernel/fs/fs.h, and the state of fs.c. Mount points, file systems, files, caches and journals are
-- stores by address, and `blocks` says which addresses kmalloc has handed out to fs.c. The list of
-- mount points, which the C code threads through the field `next`, is a list of addresses, and so is
-- a cache's list of entries. An enum is the number that C gives it. open_files, which no code uses,
-- is left out, and so are the fields of a file system that only its implementation uses.
use fg_os.Base.{ℕ, ◌==◌, Bool, true, false, List, if◌then◌else◌}
use fg_os.Base.Int.{ℤ}

abbrev pub fs_type_devfs : ℕ
fs_type_devfs = 9

abbrev pub fs_status_initializing : ℕ
fs_status_initializing = 1

abbrev pub fs_status_mounted : ℕ
fs_status_mounted = 3

abbrev pub max_mounted_filesystems : ℕ
max_mounted_filesystems = 64

abbrev pub max_path_length : ℕ
max_path_length = 4096

abbrev pub default_block_size : ℕ
default_block_size = 4096

pub record MountPoint : Type 0 where
  pub path : List ℕ
  pub fs : ℕ
  pub flags : ℕ
  pub mount_time : ℕ

pub record Filesystem : Type 0 where
  pub type : ℕ
  pub status : ℕ
  pub name : List ℕ
  pub device : List ℕ
  pub superblock : ℕ
  pub ops : ℕ
  pub private_data : ℕ
  pub flags : ℕ
  pub ref_count : ℕ
  pub mount_point : ℕ

pub record File : Type 0 where
  pub fd : ℕ
  pub inode : ℕ
  pub mode : ℕ
  pub position : ℕ
  pub size : ℕ
  pub flags : ℕ
  pub fs : ℕ
  pub mount : ℕ
  pub private_data : ℕ
  pub ref_count : ℕ
  pub modified : Bool

-- An entry of a cache: its address, and its field `data`.
pub record CacheEntry : Type 0 where
  pub address : ℕ
  pub contents : ℕ

pub record FsCache : Type 0 where
  pub entries : List CacheEntry
  pub size : ℕ
  pub max_size : ℕ
  pub block_size : ℕ
  pub hits : ℕ
  pub misses : ℕ
  pub dirty_blocks : ℕ

pub record Journal : Type 0 where
  pub start_block : ℕ
  pub size : ℕ
  pub sequence : ℕ
  pub block_size : ℕ
  pub enabled : Bool
  pub cache : ℕ
  pub current_entry : ℕ

-- What the operations of a file system's implementation may change: the file systems' records, the
-- files, and a state of its own, to which the caller's buffers belong.
pub record Local (W : Type 0) : Type 0 where
  pub filesystem : ℕ → Filesystem
  pub files : ℕ → File
  pub own : W

pub record FsManager (W : Type 0) : Type 0 where
  pub filesystems : ℕ → ℕ
  pub mount_points : List ℕ
  pub next_fd : ℕ
  pub global_cache : ℕ
  pub global_journal : ℕ
  pub mounted_count : ℕ
  pub initialized : Bool
  pub registered_fs : ℕ → ℕ
  pub mounts : ℕ → MountPoint
  pub caches : ℕ → FsCache
  pub journals : ℕ → Journal
  pub blocks : ℕ → Bool
  pub local : Local W

-- The operations that fs.c calls through a table, by the table's address, and the addresses of the
-- three tables that the kernel has. Paths and buffers behind pointers are theirs to read.
pub record Env (W : Type 0) : Type 0 where
  pub fgfs_ops : ℕ
  pub fat32_ops : ℕ
  pub ext4_ops : ℕ
  pub mount_op : (ops fs : ℕ) (device : List ℕ) (flags : ℕ) → Local W → ℤ × Local W
  pub unmount_op : (ops fs : ℕ) → Local W → ℤ × Local W
  pub open_op : (ops fs : ℕ) (path : List ℕ) (mode file : ℕ) → Local W → ℤ × Local W
  pub close_op : (ops file : ℕ) → Local W → ℤ × Local W
  pub read_op : (ops file buffer size : ℕ) → Local W → ℤ × Local W
  pub write_op : (ops file buffer size : ℕ) → Local W → ℤ × Local W
  pub seek_op : (ops file : ℕ) (offset : ℤ) (origin : ℕ) → Local W → ℤ × Local W
  pub mkdir_op : (ops fs : ℕ) (path : List ℕ) (permissions : ℕ) → Local W → ℤ × Local W
  pub create_op : (ops fs : ℕ) (path : List ℕ) (permissions : ℕ) → Local W → ℤ × Local W
  pub stat_op : (ops fs : ℕ) (path : List ℕ) (metadata : ℕ) → Local W → ℤ × Local W

-- What a call of fs_mount gets from kmalloc (the second block with the string that starts at the
-- last byte of its path, which nothing writes to) and from hal_get_timestamp.
pub record Supply : Type 0 where
  pub fs_block : ℕ
  pub mount_block : ℕ
  pub stale : List ℕ
  pub timestamp : ℕ

abbrev pub take_block : ℕ → (ℕ → Bool) → ℕ → Bool
take_block block blocks = λ q. if block == q then true else blocks q

-- kfree
abbrev pub free_block : ℕ → (ℕ → Bool) → ℕ → Bool
free_block block blocks = λ q. if block == q then false else blocks q

abbrev pub write {ℓ} : {A : Type ℓ} → ℕ → A → (ℕ → A) → ℕ → A
write address value store = λ q. if address == q then value else store q
