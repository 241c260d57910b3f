-- ===== src/Fs/Fgfs/Operations.antt =====
-- kernel/fs/fgfs.c: mounting and unmounting, and the operations on files. fs_cache_flush is declared
-- in fs.h and defined nowhere: it is a parameter that changes the cache it is given. The answers of
-- kmalloc are arguments, NULL in place of a string is `none`.
use fg_os.Base.{ℕ, ◌/◌, ◌==◌, bit_and, not, ◌||◌, List, Option, none, some, if◌then◌else◌}
use fg_os.Base.Int.{ℤ, pos, negsuc}
use fg_os.Fs.Types.{FsManager, Filesystem, FsCache, take_block, free_block, write}
use fg_os.Fs.Cache.{fs_cache_init, fs_cache_destroy, fs_journal_init, fs_journal_destroy}
use fg_os.Fs.Mount.{is_ok}
use fg_os.Fs.Fgfs.Types.{
  Fgfs, Private, Superblock, fgfs_magic, fgfs_version, fgfs_block_size_default,
  fgfs_blocks_per_group_default, fgfs_inodes_per_group_default, fgfs_feature_journal,
  fgfs_inode_size,
}

abbrev pub State : Type 0
State = FsManager Fgfs

abbrev pub fs_status_ready : ℕ
fs_status_ready = 2

abbrev pub fs_status_unmounted : ℕ
fs_status_unmounted = 4

-- What a call of fgfs_mount gets from kmalloc, in the order in which it asks.
pub record Given : Type 0 where
  pub private_block : ℕ
  pub superblock_block : ℕ
  pub cache_block : ℕ
  pub journal_block : ℕ

-- The superblock that fgfs_mount makes up.
abbrev pub minimal : Superblock
minimal = record {
  magic = fgfs_magic;
  version = fgfs_version;
  block_count = 0;
  free_blocks = 0;
  inode_count = 0;
  free_inodes = 0;
  block_size = fgfs_block_size_default;
  fragment_size = 0;
  blocks_per_group = fgfs_blocks_per_group_default;
  inodes_per_group = fgfs_inodes_per_group_default;
  group_count = 0;
  root_inode = 2;
  journal_inode = 0;
  feature_incompat = 0;
}

-- The private data once the superblock is verified.
unfoldable pub private_of : (superblock : ℕ) → Superblock → Private
private_of superblock sb = record {
  superblock = superblock;
  group_descs = 0;
  group_desc_count = sb.group_count;
  block_size = sb.block_size;
  inode_size = fgfs_inode_size;
  inodes_per_block = sb.block_size / fgfs_inode_size;
  blocks_per_group = sb.blocks_per_group;
  inodes_per_group = sb.inodes_per_group;
  next_generation = 1;
  has_journal = not (bit_and sb.feature_incompat fgfs_feature_journal == 0);
  journal_inode = sb.journal_inode;
  cache = 0;
  journal = 0;
}

abbrev pub with_private : ℕ → Private → State → State
with_private address priv s = record s {
  local = record s.local {
    own = record s.local.own { privates = write address priv s.local.own.privates };
  };
}

abbrev pub with_filesystem : ℕ → Filesystem → State → State
with_filesystem address fs s = record s {
  local = record s.local { filesystem = write address fs s.local.filesystem };
}

-- kfree
abbrev pub freed : ℕ → State → State
freed block s = record s { blocks = free_block block s.blocks }

-- A successful kmalloc.
abbrev pub taken : ℕ → State → State
taken block s = record s { blocks = take_block block s.blocks }

-- The error exits of fgfs_mount: the private data and the superblock are freed, and before them the
-- cache.
unfoldable pub give_up : (priv superblock : ℕ) → State → ℤ × State
give_up priv superblock s = (negsuc 0, freed priv (freed superblock s))

unfoldable pub give_up_cache : (priv superblock cache : ℕ) → State → ℤ × State
give_up_cache priv superblock cache s =
    give_up priv superblock (freed cache (fs_cache_destroy cache s))

unfoldable pub finish_mount : (fs priv : ℕ) → State → ℤ × State
finish_mount fs priv s = (
  pos 0,
  with_filesystem fs
      (record (s.local.filesystem fs) { private_data = priv; status = fs_status_ready }) s,
)

-- The part of fgfs_mount that sets up the journal.
unfoldable pub mount_journal : Given → (fs : ℕ) → State → ℤ × State
mount_journal given fs s =
    let priv = given.private_block in
    let journal = given.journal_block in
    let p = s.local.own.privates priv in
    let s1 = with_private priv (record p { journal = journal }) s in
    let (result, s2) = fs_journal_init journal 1000 100 (taken journal s1) in
    if not p.has_journal
    then finish_mount fs priv s
    else if journal == 0
    then give_up_cache priv p.superblock p.cache s1
    else if not (is_ok result)
    then give_up_cache priv p.superblock p.cache (freed journal s2)
    else finish_mount fs priv s2

-- The part of fgfs_mount that sets up the cache.
unfoldable pub mount_cache : Given → (fs : ℕ) → State → ℤ × State
mount_cache given fs s =
    let priv = given.private_block in
    let cache = given.cache_block in
    let p = s.local.own.privates priv in
    let s1 = with_private priv (record p { cache = cache }) s in
    let (result, s2) = fs_cache_init cache 512 p.block_size (taken cache s1) in
    if cache == 0
    then give_up priv p.superblock s1
    else if not (is_ok result)
    then give_up priv p.superblock (freed cache s2)
    else mount_journal given fs s2

-- The part of fgfs_mount that makes up, and verifies, the superblock.
unfoldable pub mount_superblock : Given → (fs : ℕ) → State → ℤ × State
mount_superblock given fs s =
    let priv = given.private_block in
    let superblock = given.superblock_block in
    let s1 = taken superblock s in
    let s2 = record s1 {
      local = record s1.local {
        own = record s1.local.own {
          superblocks = write superblock minimal s1.local.own.superblocks;
        };
      };
    } in
    let sb = s2.local.own.superblocks superblock in
    if superblock == 0
    then (negsuc 0, freed priv s)
    else if not (sb.magic == fgfs_magic)
    then give_up priv superblock s2
    else mount_cache given fs (with_private priv (private_of superblock sb) s2)

unfoldable pub fgfs_mount :
    Given → (fs : ℕ) (device : Option (List ℕ)) (flags : ℕ) → State → ℤ × State
fgfs_mount given fs none flags s = (negsuc 0, s)
fgfs_mount given fs (some device) flags s =
    let priv = given.private_block in
    if fs == 0 || priv == 0 then (negsuc 0, s) else mount_superblock given fs (taken priv s)

-- The parts of fgfs_unmount: each of the private data's blocks, if there is one.
unfoldable pub flush_cache : (flush : FsCache → FsCache) (cache : ℕ) → State → State
flush_cache flush cache s =
    if cache == 0 then s else record s { caches = write cache (flush (s.caches cache)) s.caches }

unfoldable pub drop_journal : (journal : ℕ) → State → State
drop_journal journal s = if journal == 0 then s else freed journal (fs_journal_destroy journal s)

unfoldable pub drop_cache : (cache : ℕ) → State → State
drop_cache cache s = if cache == 0 then s else freed cache (fs_cache_destroy cache s)

unfoldable pub drop_block : (block : ℕ) → State → State
drop_block block s = if block == 0 then s else freed block s

unfoldable pub fgfs_unmount : (flush : FsCache → FsCache) (fs : ℕ) → State → ℤ × State
fgfs_unmount flush fs s =
    let priv = (s.local.filesystem fs).private_data in
    let p = s.local.own.privates priv in
    let s1 = freed priv (
      drop_block p.superblock (
        drop_block p.group_descs
          (drop_cache p.cache (drop_journal p.journal (flush_cache flush p.cache s))))) in
    if fs == 0 || priv == 0 then (negsuc 0, s) else (
      pos 0,
      with_filesystem fs
          (record (s1.local.filesystem fs) { private_data = 0; status = fs_status_unmounted }) s1,
    )
