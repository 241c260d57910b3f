-- ===== src/Fs/RoundTrip.antt =====
-- kernel/fs/fs.c: fs_mount followed by fs_unmount.
use fg_os.Base.{ℕ, ◌<◌, ◌≡◌, ◌≢◌, sym, ap, ◌∙◌, true, false, List, length}
use fg_os.Base.Int.{ℤ, pos}
use fg_os.Fs.Types.{FsManager, Filesystem, Env, Local, Supply, fs_status_mounted, take_block, write}
use fg_os.Fs.Mount.{is_mounted, new_filesystem, enter}
use fg_os.Fs.Table.{write_self}

module _ {W : Type 0} (E : Env W) (s : FsManager W) (device mount_point : List ℕ) (type flags : ℕ)
    (given : Supply) where
  -- What the implementation's mount operation is called with, and what it makes of it.
  abbrev pub mount_call : ℤ × Local W
  mount_call = E.mount_op (s.registered_fs type) given.fs_block device flags (record s.local {
    filesystem =
        write given.fs_block (new_filesystem type flags (s.registered_fs type) device)
          s.local.filesystem;
  })

  -- The mount can be done: the arguments are in range, the path is not in use, kmalloc succeeds, and
  -- so does the mount operation, which sets private_data and leaves the reference count and the
  -- table of operations alone. The unmount operation of the same implementation answers 0 for a
  -- file system that has private data.
  pub record CanMount : Type 0 where
    pub in_range : type < 10
    pub initialized : s.initialized ≡ true
    pub new : is_mounted s.mounts s.mount_points mount_point ≡ false
    pub registered : s.registered_fs type ≢ 0
    pub fs_given : given.fs_block ≢ 0
    pub mount_given : given.mount_block ≢ 0
    pub fits : length mount_point < 4095
    pub starts : mount_call.0 ≡ pos 0
    pub sets_up : (mount_call.1.filesystem given.fs_block).private_data ≢ 0
    pub counts : (mount_call.1.filesystem given.fs_block).ref_count ≡ 1
    pub same_ops : (mount_call.1.filesystem given.fs_block).ops ≡ s.registered_fs type
    pub stops :
        (l : Local W)
        → (l.filesystem given.fs_block).private_data ≢ 0
        → (E.unmount_op (s.registered_fs type) given.fs_block l).0 ≡ pos 0

module _ {W : Type 0} (E : Env W) (s : FsManager W) (device mount_point : List ℕ) (type flags : ℕ)
    (given : Supply) (C : CanMount E s device mount_point type flags given) where
  abbrev local_after : Local W
  local_after = (mount_call E s device mount_point type flags given).1

  abbrev before : FsManager W
  before = record s { blocks = take_block given.fs_block s.blocks; local = local_after }

  abbrev after : FsManager W
  after = enter mount_point flags given before

  -- The record of the file system in the end.
  record_after :
      after.local.filesystem given.fs_block ≡ record (local_after.filesystem given.fs_block) {
        status = fs_status_mounted;
        mount_point = given.mount_block;
      }
  unfolding enter
  record_after = write_self local_after.filesystem given.fs_block _

  ops_after : (after.local.filesystem given.fs_block).ops ≡ s.registered_fs type
  ops_after = ap (λ (f : Filesystem). f.ops) record_after ∙ C.same_ops

  stopped :
      (E.unmount_op (after.local.filesystem given.fs_block).ops given.fs_block after.local).0
      ≡ pos 0
  stopped =
      ap (λ (ops : ℕ). (E.unmount_op ops given.fs_block after.local).0) ops_after
      ∙ C.stops after.local
          (λ e. C.sets_up (sym (ap (λ (f : Filesystem). f.private_data) record_after) ∙ e))
