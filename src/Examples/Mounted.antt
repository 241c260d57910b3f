-- ===== src/Examples/Mounted.antt =====
-- The file system layer over the native file system: the implementation behind the table of
-- operations at 9000 is the one of kernel/fs/fgfs.c, with the state that it keeps.
use fg_os.Base.{some}
use fg_os.Base.Int.{ℤ, pos}
use fg_os.Fs.Types.{FsManager, Env, Local}
use fg_os.Fs.Fgfs.Operations.{State, fgfs_mount, fgfs_unmount}
use fg_os.Examples.Fs.{manager, given}
use fg_os.Examples.Fgfs as Native

-- The layer's own part of the state, put into the one that fgfs.c works on, and taken out of it.
abbrev inside : Local State → State
inside l = record l.own {
  local = record l.own.local { filesystem = l.filesystem; files = l.files };
}

abbrev outside : ℤ × State → ℤ × Local State
outside (result, s) =
    (result, record { filesystem = s.local.filesystem; files = s.local.files; own = s })

abbrev env : Env State
env = record {
  fgfs_ops = 9000;
  fat32_ops = 9100;
  ext4_ops = 9200;
  mount_op =
      λ ops fs device flags l. outside (fgfs_mount Native.given fs (some device) flags (inside l));
  unmount_op = λ ops fs l. outside (fgfs_unmount (λ c. c) fs (inside l));
  open_op = λ ops fs path mode file l. (pos 0, l);
  close_op = λ ops file l. (pos 0, l);
  read_op = λ ops file buffer size l. (pos size, l);
  write_op = λ ops file buffer size l. (pos size, l);
  seek_op = λ ops file offset origin l. (offset, l);
  mkdir_op = λ ops fs path permissions l. (pos 0, l);
  create_op = λ ops fs path permissions l. (pos 0, l);
  stat_op = λ ops fs path metadata l. (pos 0, l);
}

abbrev kernel : FsManager State
kernel = record {
  filesystems = manager.filesystems;
  mount_points = manager.mount_points;
  next_fd = manager.next_fd;
  global_cache = manager.global_cache;
  global_journal = manager.global_journal;
  mounted_count = manager.mounted_count;
  initialized = manager.initialized;
  registered_fs = manager.registered_fs;
  mounts = manager.mounts;
  caches = manager.caches;
  journals = manager.journals;
  blocks = manager.blocks;
  local = record {
    filesystem = manager.local.filesystem;
    files = manager.local.files;
    own = Native.state;
  };
}
