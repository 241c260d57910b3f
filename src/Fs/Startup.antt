-- ===== src/Fs/Startup.antt =====
-- kernel/fs/fs.c: fs_init and fs_shutdown, and the functions of fgfs.c, fat32.c and ext4.c that they
-- call: each xxx_init registers its table of operations, and each xxx_shutdown is empty.
use fg_os.Base.{ℕ, ◌==◌, true, false, not, List, [], ◌∷◌, some, if◌then◌else◌}
use fg_os.Base.Int.{ℤ, pos, negsuc}
use fg_os.Fs.Types.{FsManager, Env, default_block_size, take_block, free_block}
use fg_os.Fs.Cache.{fs_cache_init, fs_cache_destroy, fs_journal_init, fs_journal_destroy}
use fg_os.Fs.Mount.{fs_register_filesystem, fs_unmount, is_ok}

module _ {W : Type 0} where
  -- memset(&fs_manager, 0, sizeof(fs_manager_t)); registered_fs and the heap are not part of it.
  unfoldable pub clear_manager : FsManager W → FsManager W
  clear_manager s = record s {
    filesystems = λ _. 0;
    mount_points = [];
    next_fd = 0;
    global_cache = 0;
    global_journal = 0;
    mounted_count = 0;
    initialized = false;
  }

  unfoldable pub fgfs_init : Env W → FsManager W → ℤ × FsManager W
  fgfs_init E s = fs_register_filesystem 1 E.fgfs_ops s

  unfoldable pub fat32_init : Env W → FsManager W → ℤ × FsManager W
  fat32_init E s = fs_register_filesystem 2 E.fat32_ops s

  unfoldable pub ext4_init : Env W → FsManager W → ℤ × FsManager W
  ext4_init E s = fs_register_filesystem 4 E.ext4_ops s

  -- fs_init once the cache and the journal are there.
  unfoldable pub register_builtin : Env W → FsManager W → FsManager W
  register_builtin E s =
      let s1 = record s { next_fd = 3; mounted_count = 0; mount_points = [] } in
      record ((ext4_init E (fat32_init E (fgfs_init E s1).1).1).1) { initialized = true }

  -- fs_init from the kmalloc of the journal on.
  unfoldable pub init_journal : Env W → (journal : ℕ) → FsManager W → ℤ × FsManager W
  init_journal E journal s =
      let s1 = record s {
        global_journal = journal;
        blocks = if journal == 0 then s.blocks else take_block journal s.blocks;
      } in
      let (result, s2) = fs_journal_init journal 1000 100 s1 in
      if journal == 0
      then (let s3 = fs_cache_destroy s1.global_cache s1 in
          (negsuc 0, record s3 { blocks = free_block s3.global_cache s3.blocks }))
      else if not (is_ok result)
      then (let s3 =
            fs_cache_destroy s2.global_cache
              (record s2 { blocks = free_block journal s2.blocks }) in
          (negsuc 0, record s3 { blocks = free_block s3.global_cache s3.blocks }))
      else (pos 0, register_builtin E s2)

  -- `cache` and `journal` are the answers of kmalloc.
  unfoldable pub fs_init : Env W → (cache journal : ℕ) → FsManager W → ℤ × FsManager W
  fs_init E cache journal s =
      let s1 = record (clear_manager s) {
        global_cache = cache;
        blocks = if cache == 0 then s.blocks else take_block cache s.blocks;
      } in
      let (result, s2) = fs_cache_init cache 1024 default_block_size s1 in
      if cache == 0
      then (negsuc 0, s1)
      else if not (is_ok result)
      then (negsuc 0, record s2 { blocks = free_block cache s2.blocks })
      else init_journal E journal s2

  -- The loop of fs_shutdown: `next` is read before the mount point is freed, so that each mount
  -- point of the list is visited once.
  unfoldable pub unmount_all : Env W → List ℕ → FsManager W → FsManager W
  unmount_all E [] s = s
  unmount_all E (mount ∷ mounts) s =
      unmount_all E mounts (fs_unmount E (some (s.mounts mount).path) s).1

  unfoldable pub destroy_journal : FsManager W → FsManager W
  destroy_journal s =
      let journal = s.global_journal in
      let s1 = fs_journal_destroy journal s in
      if journal == 0 then s else record s1 { blocks = free_block journal s1.blocks }

  unfoldable pub destroy_cache : FsManager W → FsManager W
  destroy_cache s =
      let cache = s.global_cache in
      let s1 = fs_cache_destroy cache s in
      if cache == 0 then s else record s1 { blocks = free_block cache s1.blocks }

  unfoldable pub fs_shutdown : Env W → FsManager W → FsManager W
  fs_shutdown E s =
      if not s.initialized
      then s
      else record (destroy_cache (destroy_journal (unmount_all E s.mount_points s))) {
        initialized = false;
      }
