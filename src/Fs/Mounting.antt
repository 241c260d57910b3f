-- ===== src/Fs/Mounting.antt =====
-- kernel/fs/fs.c: what fs_mount does, on every branch.
use fg_os.Base.{
  ℕ, ◌<◌, ◌==◌, ltb, ◌≡◌, ◌≢◌, refl, sym, ap, subst, ◌∙◌, inl, inr, ◌⊎◌, ◌||◌, arith, true, false,
  not, List, ◌∷◌, Option, some, length, Bool-cases, if_true, if_false, lt→ltb,
}
use fg_os.Base.Int.{ℤ, pos, negsuc}
use fg_os.Fs.Table.{
  IsTable, IsFresh, IsTable-released, free_block-take_block, write_self, enter-IsTable,
}
use fg_os.Fs.Paths.{strncpy_string_short}
use fg_os.Fs.Types.{FsManager, MountPoint, Env, Local, Supply, take_block, free_block, write}
use fg_os.Fs.Mount.{
  is_ok, is_mounted, enter, attach, mount_created, mount_device, fs_mount, new_filesystem,
}

-- What a call of fs_mount comes to: an answer and a table; unless the answer is 0 the blocks in use
-- and the mount points are as before, and if it is 0 the new mount point is the first of the list.
pub record Outcome {W : Type 0} (s : FsManager W) (mount_point : List ℕ) (given : Supply)
    (o : Option (ℤ × FsManager W)) : Type 0 where
  pub result : ℤ
  pub after : FsManager W
  pub answer : o ≡ some (result, after)
  pub table : IsTable after
  pub effect :
      ((is_ok result ≡ false)
        × (after.blocks ≡ s.blocks)
        × (after.mount_points ≡ s.mount_points)
        × (after.mounts ≡ s.mounts)
        × (after.mounted_count ≡ s.mounted_count)
        × (after.filesystems ≡ s.filesystems))
      ⊎ ((is_ok result ≡ true)
          × (after.mount_points ≡ given.mount_block ∷ s.mount_points)
          × ((after.mounts given.mount_block).path ≡ mount_point)
          × ((after.mounts given.mount_block).fs ≡ given.fs_block))

enter_lem :
    {W : Type 0} (given : Supply) (mount_point : List ℕ) (flags : ℕ) (s : FsManager W)
    → length mount_point < 4095
    → ((enter mount_point flags given s).mount_points ≡ given.mount_block ∷ s.mount_points)
      × (((enter mount_point flags given s).mounts given.mount_block).path ≡ mount_point)
      × (((enter mount_point flags given s).mounts given.mount_block).fs ≡ given.fs_block)
unfolding enter
enter_lem given mount_point flags s short =
    let whole = strncpy_string_short 4095 mount_point given.stale short in
    let self = write_self s.mounts given.mount_block in
    (refl, ap (λ (m : MountPoint). m.path) (self _) ∙ whole, ap (λ (m : MountPoint). m.fs) (self _))

module _ {W : Type 0} (E : Env W) (s : FsManager W) (T : IsTable s) (given : Supply)
    (F : IsFresh given s) where
  refused : (mount_point : List ℕ) → Outcome s mount_point given (some (negsuc 0, s))
  unfolding is_ok
  refused mount_point = record {
    result = negsuc 0;
    after = s;
    answer = refl;
    table = T;
    effect = inl (refl, refl, refl, refl, refl, refl);
  }

  -- The file system's block is freed again.
  backed_out :
      (mount_point : List ℕ) (result : ℤ) (l : Local W)
      → is_ok result ≡ false
      → Outcome s mount_point given (
          some (
            result,
            record s {
              local = l;
              blocks = free_block given.fs_block (take_block given.fs_block s.blocks);
            },
          ))
  backed_out mount_point result l failed = record {
    result = result;
    after = record s {
      local = l;
      blocks = free_block given.fs_block (take_block given.fs_block s.blocks);
    };
    answer = refl;
    table = IsTable-released s T given.fs_block l F.fs_free;
    effect =
        inl
          (failed, free_block-take_block given.fs_block s.blocks F.fs_free, refl, refl, refl, refl);
  }

  module _ (mount_point : List ℕ) (flags ops : ℕ) (short : length mount_point < 4095)
      (below : s.mounted_count < 64) (new : is_mounted s.mounts s.mount_points mount_point ≡ false)
      (real : given.fs_block ≢ 0) where
    mount_created_lem :
        (l : Local W)
        → Outcome s mount_point given (
            mount_created E mount_point flags ops given
              (record s { blocks = take_block given.fs_block s.blocks; local = l }))
    unfolding mount_created attach is_ok
    mount_created_lem l = elim (Bool-cases (given.mount_block == 0)) [
      | inl e ↦ rw e (backed_out mount_point (negsuc 0) _ refl)
      | inr e ↦
          let s1 : FsManager W = record s {
            blocks = take_block given.fs_block s.blocks;
            local = l;
          } in
          record {
            result = pos 0;
            after = enter mount_point flags given s1;
            answer = if_false _ _ _ e ∙ if_true _ _ _ (lt→ltb _ _ below);
            table =
                enter-IsTable s T given F real (ground arith) mount_point flags l short below new;
            effect =
                let new_one = enter_lem given mount_point flags s1 short in
                inr (refl, new_one.0, new_one.1, new_one.2);
          }
    ]

    mount_device_lem :
        (device : List ℕ) (type : ℕ)
        → Outcome s mount_point given (mount_device E device mount_point type flags ops given s)
    unfolding mount_device
    mount_device_lem device type =
        let fs = given.fs_block in
        let called = E.mount_op ops fs device flags (record s.local {
          filesystem = write fs (new_filesystem type flags ops device) s.local.filesystem;
        }) in
        let nonzero : (fs == 0) ≡ false = ground arith in
        elim (Bool-cases (is_ok called.0)) [
          | inl good ↦
              subst (Outcome s mount_point given)
                (sym (if_false _ _ _ nonzero ∙ if_false _ _ _ (ap not good)))
                (mount_created_lem called.1)
          | inr failed ↦
              subst (Outcome s mount_point given)
                (sym (if_false _ _ _ nonzero ∙ if_true _ _ _ (ap not failed)))
                (backed_out mount_point called.0 called.1 failed)
        ]

  device_lem :
      (device mount_point : List ℕ) (type flags : ℕ)
      → length mount_point < 4095
      → s.mounted_count < 64
      → is_mounted s.mounts s.mount_points mount_point ≡ false
      → Outcome s mount_point given
          (mount_device E device mount_point type flags (s.registered_fs type) given s)
  unfolding mount_device
  device_lem device mount_point type flags short below new =
      elim (Bool-cases (given.fs_block == 0)) [
        | inl e ↦ subst (Outcome s mount_point given) (sym (if_true _ _ _ e)) (refused mount_point)
        | inr e ↦
            mount_device_lem mount_point flags (s.registered_fs type) short below new (ground arith)
              device type
      ]

  -- With fewer than 64 file systems mounted, and a path that fits its buffer, fs_mount has an answer
  -- and leaves a table of mount points that agrees with the array of file systems. Unless the answer
  -- is 0, every block that the call took is freed, and the mount points are as before; if it is 0,
  -- the new mount point, with its path and its file system, is the first of the list.
  pub fs_mount_lem :
      (device mount_point : List ℕ) (type flags : ℕ)
      → length mount_point < 4095
      → s.mounted_count < 64
      → Outcome s mount_point given (fs_mount E (some device) (some mount_point) type flags given s)
  unfolding fs_mount
  fs_mount_lem device mount_point type flags short below =
      let ops = s.registered_fs type in
      let known = is_mounted s.mounts s.mount_points mount_point in
      let checks = not (ltb type 10) || not s.initialized || known || ops == 0 in
      elim (Bool-cases checks) [
        | inl e ↦
            subst (Outcome s mount_point given) (sym (if_true checks _ _ e)) (refused mount_point)
        | inr e ↦
            subst (Outcome s mount_point given) (sym (if_false checks _ _ e))
              (device_lem device mount_point type flags short below (ground arith))
      ]
