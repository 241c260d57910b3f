-- ===== src/Fs/Files.antt =====
-- kernel/fs/fs.c: the calls on files and paths, which are passed to the file system's operations.
-- NULL in place of a string is `none`; the other pointers are addresses.
use fg_os.Base.{ℕ, ◌==◌, ◌||◌, List, Option, none, some, if◌then◌else◌}
use fg_os.Base.Int.{ℤ, negsuc}
use fg_os.Fs.Types.{FsManager, Env, Local}
use fg_os.Fs.Mount.{fs_get_filesystem}

module _ {W : Type 0} where
  -- The operation's answer, with what it changed.
  abbrev pub return : ℤ × Local W → FsManager W → ℤ × FsManager W
  return r s = (r.0, record s { local = r.1 })

  -- The table of operations of the file system.
  abbrev pub ops_of : ℕ → FsManager W → ℕ
  ops_of fs s = (s.local.filesystem fs).ops

  unfoldable pub fs_open :
      Env W → (path : Option (List ℕ)) (mode file : ℕ) → FsManager W → ℤ × FsManager W
  fs_open E none mode file s = (negsuc 0, s)
  fs_open E (some path) mode file s =
      let fs = fs_get_filesystem (some path) s in
      if file == 0 || fs == 0
      then (negsuc 0, s)
      else return (E.open_op (ops_of fs s) fs path mode file s.local) s

  unfoldable pub fs_close : Env W → (file : ℕ) → FsManager W → ℤ × FsManager W
  fs_close E file s =
      let fs = (s.local.files file).fs in
      if file == 0 || fs == 0
      then (negsuc 0, s)
      else return (E.close_op (ops_of fs s) file s.local) s

  unfoldable pub fs_read : Env W → (file buffer size : ℕ) → FsManager W → ℤ × FsManager W
  fs_read E file buffer size s =
      let fs = (s.local.files file).fs in
      if file == 0 || buffer == 0 || fs == 0
      then (negsuc 0, s)
      else return (E.read_op (ops_of fs s) file buffer size s.local) s

  unfoldable pub fs_write : Env W → (file buffer size : ℕ) → FsManager W → ℤ × FsManager W
  fs_write E file buffer size s =
      let fs = (s.local.files file).fs in
      if file == 0 || buffer == 0 || fs == 0
      then (negsuc 0, s)
      else return (E.write_op (ops_of fs s) file buffer size s.local) s

  unfoldable pub fs_seek :
      Env W → (file : ℕ) (offset : ℤ) (origin : ℕ) → FsManager W → ℤ × FsManager W
  fs_seek E file offset origin s =
      let fs = (s.local.files file).fs in
      if file == 0 || fs == 0
      then (negsuc 0, s)
      else return (E.seek_op (ops_of fs s) file offset origin s.local) s

  unfoldable pub fs_create :
      Env W → (path : Option (List ℕ)) (permissions : ℕ) → FsManager W → ℤ × FsManager W
  fs_create E none permissions s = (negsuc 0, s)
  fs_create E (some path) permissions s =
      let fs = fs_get_filesystem (some path) s in
      if fs == 0
      then (negsuc 0, s)
      else return (E.create_op (ops_of fs s) fs path permissions s.local) s

  unfoldable pub fs_mkdir :
      Env W → (path : Option (List ℕ)) (permissions : ℕ) → FsManager W → ℤ × FsManager W
  fs_mkdir E none permissions s = (negsuc 0, s)
  fs_mkdir E (some path) permissions s =
      let fs = fs_get_filesystem (some path) s in
      if fs == 0
      then (negsuc 0, s)
      else return (E.mkdir_op (ops_of fs s) fs path permissions s.local) s

  unfoldable pub fs_stat :
      Env W → (path : Option (List ℕ)) (metadata : ℕ) → FsManager W → ℤ × FsManager W
  fs_stat E none metadata s = (negsuc 0, s)
  fs_stat E (some path) metadata s =
      let fs = fs_get_filesystem (some path) s in
      if metadata == 0 || fs == 0
      then (negsuc 0, s)
      else return (E.stat_op (ops_of fs s) fs path metadata s.local) s
