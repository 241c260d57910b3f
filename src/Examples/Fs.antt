-- ===== src/Examples/Fs.antt =====
-- Runs of the file system layer: one file system, at 200, is mounted at "/" by the mount point 100.
use fg_os.Base.{
  ℕ, ◌≡◌, refl, ◌⊎◌, arith, true, false, ◌==◌, ◌||◌, List, [], ◌∷◌, some, if◌then◌else◌,
}
use fg_os.Base.Int.{pos, negsuc}
use fg_os.Fs.Types.{FsManager, Filesystem, File, Env, Supply}
use fg_os.Fs.Cache.{empty_cache, empty_journal}
use fg_os.Fs.Paths.{strcmp_equal}
use fg_os.Fs.Array.{newest}
use fg_os.Fs.Mount.{is_mounted, fs_get_filesystem, fs_mount, fs_unmount}
use fg_os.Fs.Startup.{fs_init}
use fg_os.Fs.Table.{IsTable, IsFresh, blocks_of}
use fg_os.Fs.Lookup.{AtMost, IsLongest, fs_get_filesystem_lem}
use fg_os.Fs.Mounting.{Outcome, fs_mount_lem}
use fg_os.Fs.Unmounting.{Unmounted, fs_unmount_lem}
use fg_os.Fs.Shutdown.{missing, life, fs_init_lem}

abbrev filesystem : Filesystem
filesystem = record {
  type = 1;
  status = 3;
  name = [];
  device = [];
  superblock = 0;
  ops = 9000;
  private_data = 0;
  flags = 0;
  ref_count = 1;
  mount_point = 100;
}

abbrev file : File
file = record {
  fd = 3;
  inode = 0;
  mode = 0;
  position = 0;
  size = 0;
  flags = 0;
  fs = 200;
  mount = 0;
  private_data = 0;
  ref_count = 1;
  modified = false;
}

-- The implementation answers 0 and changes nothing.
abbrev env : Env (Unit {0})
env = record {
  fgfs_ops = 9000;
  fat32_ops = 9100;
  ext4_ops = 9200;
  mount_op = λ ops fs device flags l. (pos 0, l);
  unmount_op = λ ops fs l. (pos 0, l);
  open_op = λ ops fs path mode file l. (pos 0, l);
  close_op = λ ops file l. (pos 0, l);
  read_op = λ ops file buffer size l. (pos size, l);
  write_op = λ ops file buffer size l. (pos size, l);
  seek_op = λ ops file offset origin l. (offset, l);
  mkdir_op = λ ops fs path permissions l. (pos 0, l);
  create_op = λ ops fs path permissions l. (pos 0, l);
  stat_op = λ ops fs path metadata l. (pos 0, l);
}

abbrev root : List ℕ
root = b'/' ∷ []

abbrev pub home : List ℕ
home = b'/' ∷ b'h' ∷ []

abbrev pub manager : FsManager (Unit {0})
manager = record {
  filesystems = λ q. if q == 0 then 200 else 0;
  mount_points = 100 ∷ [];
  next_fd = 3;
  global_cache = 0;
  global_journal = 0;
  mounted_count = 1;
  initialized = true;
  registered_fs = λ type. if type == 1 then 9000 else 0;
  mounts = λ q. record { path = root; fs = 200; flags = 0; mount_time = 0 };
  caches = λ q. empty_cache;
  journals = λ q. empty_journal;
  blocks = λ q. q == 100 || q == 200;
  local = record { filesystem = λ q. filesystem; files = λ q. file; own = tt };
}

abbrev pub given : Supply
given = record { fs_block = 300; mount_block = 400; stale = []; timestamp = 7 }

manager-IsTable : IsTable manager
unfolding newest blocks_of
manager-IsTable = record {
  agree = refl;
  room = omega arith;
  null = refl;
  in_use = (refl, (refl, tt));
  separate = (((omega arith), tt), (tt, tt));
  paths = (tt, tt);
}

given-IsFresh : IsFresh given manager
given-IsFresh = record { fs_free = refl; mount_free = refl; different = λ h. omega arith }

pub new_path : is_mounted manager.mounts manager.mount_points home ≡ false
unfolding is_mounted strcmp_equal
new_path = refl

fs_get_filesystem_lem_example :
    ((fs_get_filesystem (some home) manager ≡ 0)
      × AtMost manager.mounts home 0 manager.mount_points)
    ⊎ ((mount : ℕ) × IsLongest manager.mounts home manager.mount_points mount
        × (fs_get_filesystem (some home) manager ≡ (manager.mounts mount).fs))
fs_get_filesystem_lem_example = fs_get_filesystem_lem manager home refl ((omega arith), tt)

fs_mount_lem_example :
    Outcome manager home given (fs_mount env (some []) (some home) 1 0 given manager)
fs_mount_lem_example =
    fs_mount_lem env manager manager-IsTable given given-IsFresh [] home 1 0 (omega arith)
      (omega arith)

fs_unmount_lem_example : Unmounted manager root (fs_unmount env (some root) manager)
fs_unmount_lem_example = fs_unmount_lem env manager manager-IsTable root

fs_init_lem_example :
    ((fs_init env 500 600 manager).0 ≡ (if missing env manager 500 600 then negsuc 0 else pos 0))
    × ((life env manager 500 600).blocks ≡ manager.blocks)
    × ((missing env manager 500 600 ≡ true)
        ⊎ (IsTable (fs_init env 500 600 manager).1
            × ((fs_init env 500 600 manager).1.mount_points ≡ [])))
fs_init_lem_example = fs_init_lem env manager 500 600 refl refl refl (λ h. omega arith)
