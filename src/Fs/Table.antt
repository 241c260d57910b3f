-- ===== src/Fs/Table.antt =====
-- kernel/fs/fs.c: the invariant of the mount points, and that fs_mount keeps it.
use fg_os.Base.{
  ℕ, ◌≤◌, ◌<◌, ◌==◌, ◌≡◌, ◌≢◌, refl, sym, ap, subst, fun_ext, ◌∙◌, inl, inr, arith, Bool, true,
  false, List, [], ◌∷◌, map, length, All, Bool-cases, if_true, eq→==, Distinct, All-map_of,
}
use fg_os.Fs.Array.{newest, newest-write}
use fg_os.Fs.Paths.{strcmp_equal, strcmp_equal_self, strncpy_string, strncpy_string_short}
use fg_os.Fs.Types.{FsManager, MountPoint, Local, Supply, take_block, free_block, write}
use fg_os.Fs.Mount.{is_mounted, enter}

-- The blocks of the mount points: each mount point and its file system.
unfoldable pub blocks_of : (ℕ → MountPoint) → List ℕ → List ℕ
blocks_of M [] = []
blocks_of M (mount ∷ mounts) = mount ∷ (M mount).fs ∷ blocks_of M mounts

abbrev pub fs_of : (ℕ → MountPoint) → ℕ → ℕ
fs_of M mount = (M mount).fs

abbrev pub path_of : (ℕ → MountPoint) → ℕ → List ℕ
path_of M mount = (M mount).path

-- The array of file systems agrees with the list of mount points, and has room for it; the mount
-- points and their file systems are different blocks that are in use, and no two paths are equal.
pub record IsTable {W : Type 0} (s : FsManager W) : Type 0 where
  pub agree : newest s.mounted_count s.filesystems ≡ map (fs_of s.mounts) s.mount_points
  pub room : s.mounted_count ≤ 64
  pub null : s.blocks 0 ≡ false
  pub in_use : All (λ q. s.blocks q ≡ true) (blocks_of s.mounts s.mount_points)
  pub separate : Distinct (blocks_of s.mounts s.mount_points)
  pub paths : Distinct (map (path_of s.mounts) s.mount_points)

-- kmalloc hands out blocks that are not in use, and two different ones; NULL is never in use.
pub record IsFresh {W : Type 0} (given : Supply) (s : FsManager W) : Type 0 where
  pub fs_free : s.blocks given.fs_block ≡ false
  pub mount_free : s.blocks given.mount_block ≡ false
  pub different : given.fs_block ≢ 0 → given.fs_block ≢ given.mount_block

pub free_block-take_block :
    (block : ℕ) (blocks : ℕ → Bool)
    → blocks block ≡ false
    → free_block block (take_block block blocks) ≡ blocks
free_block-take_block block blocks h = fun_ext (λ q. elim (Bool-cases (block == q)) [
  | inl e ↦ let same : block ≡ q = ground arith in ground (arith, ap blocks same)
  | inr e ↦ ground arith
])

blocks_of-write :
    (M : ℕ → MountPoint) (a : ℕ) (m : MountPoint) (mounts : List ℕ)
    → All (λ q. a ≢ q) (blocks_of M mounts)
    → blocks_of (write a m M) mounts ≡ blocks_of M mounts
unfolding blocks_of
blocks_of-write M a m [] h = refl
blocks_of-write M a m (mount ∷ mounts) h =
    let other = h.0 in
    let rest = blocks_of-write M a m mounts h.1.1 in
    let same : write a m M mount ≡ M mount = ground arith in rw (same, rest)

map-write {ℓ} :
    {A : Type ℓ} (g : MountPoint → A) (M : ℕ → MountPoint) (a : ℕ) (m : MountPoint)
    (mounts : List ℕ)
    → All (λ q. a ≢ q) (blocks_of M mounts)
    → map (λ q. g (write a m M q)) mounts ≡ map (λ q. g (M q)) mounts
unfolding blocks_of
map-write g M a m [] h = refl
map-write g M a m (mount ∷ mounts) h =
    let other = h.0 in
    let rest = map-write g M a m mounts h.1.1 in
    let same : write a m M mount ≡ M mount = ground arith in rw (same, rest)

pub write_self {ℓ} : {A : Type ℓ} (M : ℕ → A) (a : ℕ) (m : A) → write a m M a ≡ m
write_self M a m = if_true _ _ _ (eq→== a a refl)

-- The blocks, and a field, of the mount points after a new one is put before them.
blocks_of-enter :
    (M : ℕ → MountPoint) (a : ℕ) (m : MountPoint) (mounts : List ℕ)
    → All (λ q. a ≢ q) (blocks_of M mounts)
    → blocks_of (write a m M) (a ∷ mounts) ≡ a ∷ m.fs ∷ blocks_of M mounts
unfolding blocks_of
blocks_of-enter M a m mounts h =
    let first = ap (λ (p : MountPoint). p.fs) (write_self M a m) in
    let rest = blocks_of-write M a m mounts h in cc

map-enter {ℓ} :
    {A : Type ℓ} (g : MountPoint → A) (M : ℕ → MountPoint) (a : ℕ) (m : MountPoint)
    (mounts : List ℕ)
    → All (λ q. a ≢ q) (blocks_of M mounts)
    → map (λ q. g (write a m M q)) (a ∷ mounts) ≡ g m ∷ map (λ q. g (M q)) mounts
map-enter g M a m mounts h =
    let first = ap g (write_self M a m) in let rest = map-write g M a m mounts h in cc

is_mounted-false :
    (M : ℕ → MountPoint) (mounts : List ℕ) (path : List ℕ)
    → is_mounted M mounts path ≡ false
    → All (λ p. path ≢ p) (map (path_of M) mounts)
unfolding is_mounted
is_mounted-false M [] path h = tt
is_mounted-false M (mount ∷ mounts) path h =
    let rest = is_mounted-false M mounts path in
    let self = strcmp_equal_self path in
    let other : strcmp_equal (M mount).path path ≡ false = ground arith in
    (
      (λ same. let e = subst (λ p. strcmp_equal p path ≡ false) (sym same) other in cc),
      rest (ground arith),
    )

-- A block that is not in use differs from those that are.
free-apart :
    (blocks : ℕ → Bool) (block : ℕ) (qs : List ℕ)
    → blocks block ≡ false
    → All (λ q. blocks q ≡ true) qs
    → All (λ q. block ≢ q) qs
free-apart blocks block qs free =
    All-map_of (λ q. blocks q ≡ true) (λ q. block ≢ q) (λ q used same. let e = ap blocks same in cc)
      qs

module _ {W : Type 0} (s : FsManager W) (T : IsTable s) where
  -- The table is kept where only blocks that were free, and the implementation's part, change.
  pub IsTable-local : (l : Local W) → IsTable (record s { local = l })
  IsTable-local l = record {
    agree = T.agree;
    room = T.room;
    null = T.null;
    in_use = T.in_use;
    separate = T.separate;
    paths = T.paths;
  }

  pub IsTable-released :
      (block : ℕ) (l : Local W)
      → s.blocks block ≡ false
      → IsTable (record s { local = l; blocks = free_block block (take_block block s.blocks) })
  IsTable-released block l free =
      subst (λ b. IsTable (record s { local = l; blocks = b }))
        (sym (free_block-take_block block s.blocks free)) (IsTable-local l)

  module _ (given : Supply) (F : IsFresh given s) (real : given.fs_block ≢ 0)
      (also : given.mount_block ≢ 0) where
    pub fs_apart : All (λ q. given.fs_block ≢ q) (blocks_of s.mounts s.mount_points)
    fs_apart = free-apart s.blocks given.fs_block _ F.fs_free T.in_use

    pub mount_apart : All (λ q. given.mount_block ≢ q) (blocks_of s.mounts s.mount_points)
    mount_apart = free-apart s.blocks given.mount_block _ F.mount_free T.in_use

    pub enter-IsTable :
        (mount_point : List ℕ) (flags : ℕ) (l : Local W)
        → length mount_point < 4095
        → s.mounted_count < 64
        → is_mounted s.mounts s.mount_points mount_point ≡ false
        → IsTable (
            enter mount_point flags given
              (record s { blocks = take_block given.fs_block s.blocks; local = l }))
    unfolding enter blocks_of
    enter-IsTable mount_point flags l short below new =
        let m : MountPoint = record {
          path = strncpy_string 4095 mount_point given.stale;
          fs = given.fs_block;
          flags = flags;
          mount_time = given.timestamp;
        } in
        let whole = strncpy_string_short 4095 mount_point given.stale short in
        let others = is_mounted-false s.mounts s.mount_points mount_point new in
        record {
          agree =
              newest-write s.mounted_count given.fs_block s.filesystems
              ∙ ap (λ (t : List ℕ). given.fs_block ∷ t) T.agree
              ∙ sym (map-enter (λ p. p.fs) s.mounts given.mount_block m s.mount_points mount_apart);
          room = omega arith;
          null = let a = T.null in ground arith;
          in_use =
              subst
                (All
                  (λ q. take_block given.mount_block (take_block given.fs_block s.blocks) q ≡ true))
                (sym (blocks_of-enter s.mounts given.mount_block m s.mount_points mount_apart))
                (ground arith, (ground arith, All-map_of _ _ (λ q used. ground arith) _ T.in_use));
          separate =
              subst Distinct
                (sym (blocks_of-enter s.mounts given.mount_block m s.mount_points mount_apart))
                (((λ e. F.different real (sym e)), mount_apart), (fs_apart, T.separate));
          paths =
              subst Distinct
                (sym
                  (map-enter (λ p. p.path) s.mounts given.mount_block m s.mount_points mount_apart))
                (
                  subst (λ p. All (λ y. p ≢ y) (map (path_of s.mounts) s.mount_points)) (sym whole)
                      others,
                  T.paths,
                );
        }
