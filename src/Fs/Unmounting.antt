-- ===== src/Fs/Unmounting.antt =====
-- kernel/fs/fs.c: what fs_unmount does, on every branch.
use fg_os.Base.{
  ℕ, ◌==◌, ltb, ◌≡◌, refl, sym, ap, subst, ◌∙◌, inl, inr, ◌⊎◌, arith, true, false, not, ◌||◌, List,
  some, Bool-cases, if_true, if_false, Distinct, All-map_of, Listed,
}
use fg_os.Base.Int.{ℤ, negsuc}
use fg_os.Fs.Array.{remove_entry_lem}
use fg_os.Fs.Types.{FsManager, Env, Local, free_block}
use fg_os.Fs.Mount.{is_ok, find_mount, remove_mount, remove_entry, take_down, fs_unmount}
use fg_os.Fs.Table.{IsTable, IsTable-local}
use fg_os.Fs.Removal.{
  both, find_mount_lem, All-remove_mount, Distinct-remove_mount, others-remove_mount,
  map-remove_mount, Distinct-paths-remove_mount, Distinct-fs_of, remove_entry-le,
}

-- What a call of fs_unmount comes to: a table; unless the answer is 0 the mount points, the array and
-- the blocks are as before, and if it is 0 the mount point with the path is taken from the list and
-- its two blocks are freed.
pub record Unmounted {W : Type 0} (s : FsManager W) (mount_point : List ℕ) (o : ℤ × FsManager W)
    : Type 0 where
  pub table : IsTable o.1
  pub effect :
      ((is_ok o.0 ≡ false)
        × (o.1.mount_points ≡ s.mount_points)
        × (o.1.filesystems ≡ s.filesystems)
        × (o.1.mounted_count ≡ s.mounted_count)
        × (o.1.blocks ≡ s.blocks))
      ⊎ ((is_ok o.0 ≡ true)
          × ((mount : ℕ) × Listed mount s.mount_points
              × ((s.mounts mount).path ≡ mount_point)
              × (o.1.mount_points ≡ remove_mount mount s.mount_points)
              × (o.1.blocks ≡ free_block mount (free_block (s.mounts mount).fs s.blocks))))

module _ {W : Type 0} (E : Env W) (s : FsManager W) (T : IsTable s) where
  removed-IsTable :
      (mount : ℕ) (l : Local W)
      → Listed mount s.mount_points
      → IsTable (record s {
        mount_points = remove_mount mount s.mount_points;
        filesystems = (remove_entry s.mounted_count (s.mounts mount).fs s.filesystems).1;
        mounted_count = (remove_entry s.mounted_count (s.mounts mount).fs s.filesystems).0;
        blocks = free_block mount (free_block (s.mounts mount).fs s.blocks);
        local = l;
      })
  removed-IsTable mount l listed =
      let fs = (s.mounts mount).fs in
      let others = others-remove_mount s.mounts mount s.mount_points T.separate listed in
      let distinct =
        subst Distinct (sym T.agree) (Distinct-fs_of s.mounts s.mount_points T.separate) in
      record {
        agree =
            remove_entry_lem s.mounted_count fs s.filesystems distinct
            ∙ ap (remove_mount fs) T.agree
            ∙ sym (map-remove_mount s.mounts mount s.mount_points T.separate listed);
        room = omega (arith, T.room, remove_entry-le s.mounted_count fs s.filesystems);
        null = let a = T.null in ground arith;
        in_use =
            All-map_of _ _ (λ q w. let used = w.0 in let a = w.1.0 in let b = w.1.1 in ground arith)
              _ (both _ _ _ (All-remove_mount s.mounts _ mount s.mount_points T.in_use) others);
        separate = Distinct-remove_mount s.mounts mount s.mount_points T.separate;
        paths = Distinct-paths-remove_mount s.mounts mount s.mount_points T.paths;
      }

  unchanged :
      (mount_point : List ℕ) (r : ℤ) (l : Local W)
      → is_ok r ≡ false
      → Unmounted s mount_point (r, record s { local = l })
  unchanged mount_point r l failed = record {
    table = IsTable-local s T l;
    effect = inl (failed, refl, refl, refl, refl);
  }

  take_down_lem :
      (mount_point : List ℕ) (mount : ℕ)
      → Listed mount s.mount_points
      → (s.mounts mount).path ≡ mount_point
      → Unmounted s mount_point (take_down E mount (s.mounts mount).fs s)
  unfolding take_down is_ok
  take_down_lem mount_point mount listed named =
      let fs = (s.mounts mount).fs in
      let called = E.unmount_op (s.local.filesystem fs).ops fs s.local in
      elim (Bool-cases (is_ok called.0)) [
        | inl e ↦ subst (Unmounted s mount_point) (sym (if_false _ _ _ (ap not e))) (record {
          table = removed-IsTable mount called.1 listed;
          effect = inr (refl, (mount, listed, named, refl, refl));
        })
        | inr e ↦
            subst (Unmounted s mount_point) (sym (if_true _ _ _ (ap not e)))
              (unchanged mount_point called.0 called.1 e)
      ]

  -- fs_unmount keeps the agreement of the mount points with the array of file systems. Unless it
  -- answers 0, the mount points, the array and the blocks in use stay; if it answers 0, exactly the
  -- mount point with the given path leaves the list, and its block and its file system's are freed.
  pub fs_unmount_lem :
      (mount_point : List ℕ) → Unmounted s mount_point (fs_unmount E (some mount_point) s)
  unfolding fs_unmount is_ok
  fs_unmount_lem mount_point =
      let mount = find_mount s.mounts s.mount_points mount_point in
      let fs = (s.mounts mount).fs in
      let checks = not s.initialized || mount == 0 || ltb 1 (s.local.filesystem fs).ref_count in
      elim (Bool-cases checks) [
        | inl e ↦
            subst (Unmounted s mount_point) (sym (if_true checks _ _ e))
              (unchanged mount_point (negsuc 0) s.local refl)
        | inr e ↦
            let found = find_mount_lem s.mounts s.mount_points mount_point (ground arith) in
            subst (Unmounted s mount_point) (sym (if_false checks _ _ e))
              (take_down_lem mount_point mount found.0 found.1)
      ]
