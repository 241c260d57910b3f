-- ===== src/Fs/Fgfs/Types.antt =====
-- kernel/fs/fgfs.h: the constants and the records that fgfs.c keeps in memory. FGFS's own state is a
-- store of private data, one of superblocks, and the callers' variables that hold a file. The fields
-- uuid, volume_name, last_checked and others of the superblock that only fgfs_format sets, or nothing
-- sets, are left out.
use fg_os.Base.{ℕ, Bool}

abbrev pub fgfs_magic : ℕ
fgfs_magic = 0x46474653

-- (1 << 16) | (0 << 8) | 0
abbrev pub fgfs_version : ℕ
fgfs_version = 65536

abbrev pub fgfs_block_size_min : ℕ
fgfs_block_size_min = 512

abbrev pub fgfs_block_size_max : ℕ
fgfs_block_size_max = 65536

abbrev pub fgfs_block_size_default : ℕ
fgfs_block_size_default = 4096

abbrev pub fgfs_blocks_per_group_default : ℕ
fgfs_blocks_per_group_default = 8192

abbrev pub fgfs_inodes_per_group_default : ℕ
fgfs_inodes_per_group_default = 2048

abbrev pub fgfs_feature_journal : ℕ
fgfs_feature_journal = 8

-- sizeof(fgfs_inode_t), which is packed.
abbrev pub fgfs_inode_size : ℕ
fgfs_inode_size = 172

pub record Superblock : Type 0 where
  pub magic : ℕ
  pub version : ℕ
  pub block_count : ℕ
  pub free_blocks : ℕ
  pub inode_count : ℕ
  pub free_inodes : ℕ
  pub block_size : ℕ
  pub fragment_size : ℕ
  pub blocks_per_group : ℕ
  pub inodes_per_group : ℕ
  pub group_count : ℕ
  pub root_inode : ℕ
  pub journal_inode : ℕ
  pub feature_incompat : ℕ

pub record Private : Type 0 where
  pub superblock : ℕ
  pub group_descs : ℕ
  pub group_desc_count : ℕ
  pub block_size : ℕ
  pub inode_size : ℕ
  pub inodes_per_block : ℕ
  pub blocks_per_group : ℕ
  pub inodes_per_group : ℕ
  pub next_generation : ℕ
  pub has_journal : Bool
  pub journal_inode : ℕ
  pub cache : ℕ
  pub journal : ℕ

pub record Fgfs : Type 0 where
  pub privates : ℕ → Private
  pub superblocks : ℕ → Superblock
  pub variables : ℕ → ℕ
