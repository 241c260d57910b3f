-- ===== src/Fs/Mount.antt =====
-- kernel/fs/fs.c: registering, mounting, unmounting, and finding the file system of a path. NULL in
-- place of a string is `none`. A write past the end of filesystems[] has no answer.
use Prim.Native.Char.{code}
use Prim.Native.String.{String}
use fg_os.Base.{
  ℕ, zero, suc, ◌+◌, ◌-◌, ◌==◌, ltb, Bool, true, false, not, ◌||◌, ◌&&◌, List, [], ◌∷◌, Option,
  none, some, length, if◌then◌else◌,
}
use fg_os.Base.Int.{ℤ, pos, negsuc}
use fg_os.Fs.Paths.{strcmp_equal, strncmp_equal, strncpy_string}
use fg_os.Fs.Types.{
  FsManager, MountPoint, Filesystem, Env, Supply, fs_type_devfs, fs_status_initializing,
  fs_status_mounted, max_mounted_filesystems, max_path_length, take_block, free_block, write,
}

abbrev codes : String → List ℕ
codes String.[] = []
codes (String.◌∷◌ c s) = code c ∷ codes s

unfoldable pub fs_type_to_string : ℕ → List ℕ
fs_type_to_string type = codes (
    if type == 1
    then "FGFS"
    else if type == 2
    then "FAT32"
    else if type == 3
    then "NTFS"
    else if type == 4
    then "ext4"
    else if type == 5
    then "ext3"
    else if type == 6
    then "ISO9660"
    else if type == 7
    then "tmpfs"
    else if type == 8
    then "procfs"
    else if type == 9
    then "devfs"
    else "unknown")

-- Whether the code's answer is 0, for no error.
unfoldable pub is_ok : ℤ → Bool
is_ok (pos n) = n == 0
is_ok (negsuc n) = false

-- The loop of fs_mount over the mount points.
unfoldable pub is_mounted : (ℕ → MountPoint) → List ℕ → (mount_point : List ℕ) → Bool
is_mounted M [] mount_point = false
is_mounted M (mount ∷ mounts) mount_point =
    if strcmp_equal (M mount).path mount_point then true else is_mounted M mounts mount_point

-- The loop of fs_unmount over the mount points; NULL where none has the path.
unfoldable pub find_mount : (ℕ → MountPoint) → List ℕ → (mount_point : List ℕ) → ℕ
find_mount M [] mount_point = 0
find_mount M (mount ∷ mounts) mount_point =
    if strcmp_equal (M mount).path mount_point then mount else find_mount M mounts mount_point

unfoldable pub remove_mount : (mount : ℕ) → List ℕ → List ℕ
remove_mount mount [] = []
remove_mount mount (first ∷ mounts) =
    if first == mount then mounts else first ∷ remove_mount mount mounts

-- The first entry from i on, of `rounds` entries, that is fs.
unfoldable pub find_entry : (rounds i fs : ℕ) → (ℕ → ℕ) → Option ℕ
find_entry zero i fs entries = none
find_entry (suc rounds) i fs entries =
    if entries i == fs then some i else find_entry rounds (suc i) fs entries

-- for (j = i; ...) filesystems[j] = filesystems[j + 1], for `rounds` entries.
unfoldable pub shift_entries : (rounds j : ℕ) → (ℕ → ℕ) → ℕ → ℕ
shift_entries zero j entries = entries
shift_entries (suc rounds) j entries =
    shift_entries rounds (suc j) (write j (entries (suc j)) entries)

-- What happens to the array where the entry is found: the new count, and the entries.
unfoldable pub drop_entry : (count : ℕ) → (ℕ → ℕ) → (found : Option ℕ) → ℕ × (ℕ → ℕ)
drop_entry count entries none = (count, entries)
drop_entry count entries (some i) =
    (count - 1, write (count - 1) 0 (shift_entries (count - 1 - i) i entries))

-- Removes fs from the first `count` entries.
unfoldable pub remove_entry : (count fs : ℕ) → (ℕ → ℕ) → ℕ × (ℕ → ℕ)
remove_entry count fs entries = drop_entry count entries (find_entry count 0 fs entries)

-- The loop of fs_get_filesystem: the mount point with the longest path that the path starts with.
unfoldable pub longest_match : (ℕ → MountPoint) → (path : List ℕ) → List ℕ → (best best_len : ℕ) → ℕ
longest_match M path [] best best_len = best
longest_match M path (mount ∷ mounts) best best_len =
    let mount_len = length (M mount).path in
    let better = strncmp_equal mount_len path (M mount).path && ltb best_len mount_len in
    longest_match M path mounts (if better then mount else best)
      (if better then mount_len else best_len)

-- The fields that fs_mount sets in a new file system; memset clears the others.
abbrev pub new_filesystem : (type flags ops : ℕ) (device : List ℕ) → Filesystem
new_filesystem type flags ops device = record {
  type = type;
  status = fs_status_initializing;
  name = strncpy_string 31 (fs_type_to_string type) [];
  device = strncpy_string 63 device [];
  superblock = 0;
  ops = ops;
  private_data = 0;
  flags = flags;
  ref_count = 1;
  mount_point = 0;
}

module _ {W : Type 0} where
  unfoldable pub fs_register_filesystem : (type ops : ℕ) → FsManager W → ℤ × FsManager W
  fs_register_filesystem type ops s =
      if not (ltb type (fs_type_devfs + 1)) || ops == 0
      then (negsuc 0, s)
      else (pos 0, record s { registered_fs = write type ops s.registered_fs })

  -- The mount point is filled and entered in the list and the array.
  unfoldable pub enter : (mount_point : List ℕ) (flags : ℕ) → Supply → FsManager W → FsManager W
  enter mount_point flags given s =
      let fs = given.fs_block in
      record s {
        mounts =
            write given.mount_block
              (record {
                path = strncpy_string (max_path_length - 1) mount_point given.stale;
                fs = fs;
                flags = flags;
                mount_time = given.timestamp;
              })
              s.mounts;
        mount_points = given.mount_block ∷ s.mount_points;
        filesystems = write s.mounted_count fs s.filesystems;
        mounted_count = s.mounted_count + 1;
        blocks = take_block given.mount_block s.blocks;
        local = record s.local {
          filesystem =
              write fs
                (record (s.local.filesystem fs) {
                  status = fs_status_mounted;
                  mount_point = given.mount_block;
                })
                s.local.filesystem;
        };
      }

  -- The end of fs_mount, from the kmalloc of the mount point on.
  unfoldable pub attach :
      (mount_point : List ℕ) (flags : ℕ) → Supply → FsManager W → Option (ℤ × FsManager W)
  attach mount_point flags given s =
      if ltb s.mounted_count max_mounted_filesystems
      then some (pos 0, enter mount_point flags given s)
      else none

  -- fs_mount from the kmalloc of the mount point on.
  unfoldable pub mount_created :
      Env W
      → (mount_point : List ℕ) (flags ops : ℕ) → Supply
      → FsManager W
      → Option (ℤ × FsManager W)
  mount_created E mount_point flags ops given s =
      let fs = given.fs_block in
      if given.mount_block == 0
      then some (
        negsuc 0,
        record s { local = (E.unmount_op ops fs s.local).1; blocks = free_block fs s.blocks },
      )
      else attach mount_point flags given s

  -- fs_mount from the first kmalloc on.
  unfoldable pub mount_device :
      Env W
      → (device mount_point : List ℕ) (type flags ops : ℕ) → Supply
      → FsManager W
      → Option (ℤ × FsManager W)
  mount_device E device mount_point type flags ops given s =
      let fs = given.fs_block in
      let blocks' = take_block fs s.blocks in
      let (result, l) = E.mount_op ops fs device flags (record s.local {
        filesystem = write fs (new_filesystem type flags ops device) s.local.filesystem;
      }) in
      if fs == 0
      then some (negsuc 0, s)
      else if not (is_ok result)
      then some (result, record s { local = l; blocks = free_block fs blocks' })
      else mount_created E mount_point flags ops given (record s { blocks = blocks'; local = l })

  unfoldable pub fs_mount :
      Env W
      → (device mount_point : Option (List ℕ)) (type flags : ℕ) → Supply
      → FsManager W
      → Option (ℤ × FsManager W)
  fs_mount E none mount_point type flags given s = some (negsuc 0, s)
  fs_mount E (some device) none type flags given s = some (negsuc 0, s)
  fs_mount E (some device) (some mount_point) type flags given s =
      let ops = s.registered_fs type in
      if not (ltb type (fs_type_devfs + 1))
        || not s.initialized
        || is_mounted s.mounts s.mount_points mount_point
        || ops == 0
      then some (negsuc 0, s)
      else mount_device E device mount_point type flags ops given s

  -- fs_unmount once the mount point and its file system are found.
  unfoldable pub take_down : Env W → (mount fs : ℕ) → FsManager W → ℤ × FsManager W
  take_down E mount fs s =
      let (result, l) = E.unmount_op (s.local.filesystem fs).ops fs s.local in
      let (count', entries) = remove_entry s.mounted_count fs s.filesystems in
      if not (is_ok result) then (result, record s { local = l }) else (
        pos 0,
        record s {
          mount_points = remove_mount mount s.mount_points;
          filesystems = entries;
          mounted_count = count';
          blocks = free_block mount (free_block fs s.blocks);
          local = l;
        },
      )

  unfoldable pub fs_unmount :
      Env W → (mount_point : Option (List ℕ)) → FsManager W → ℤ × FsManager W
  fs_unmount E none s = (negsuc 0, s)
  fs_unmount E (some mount_point) s =
      let mount = find_mount s.mounts s.mount_points mount_point in
      let fs = (s.mounts mount).fs in
      if not s.initialized || mount == 0 || ltb 1 (s.local.filesystem fs).ref_count
      then (negsuc 0, s)
      else take_down E mount fs s

  unfoldable pub fs_get_filesystem : (path : Option (List ℕ)) → FsManager W → ℕ
  fs_get_filesystem none s = 0
  fs_get_filesystem (some path) s =
      let best_match = longest_match s.mounts path s.mount_points 0 0 in
      if not s.initialized || best_match == 0 then 0 else (s.mounts best_match).fs
