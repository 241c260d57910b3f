-- ===== src/Fs/Removal.antt =====
-- kernel/fs/fs.c: the mount points of a table without one of them.
use fg_os.Base.{
  ℕ, ◌≤◌, ◌==◌, ◌≡◌, ◌≢◌, refl, sym, ap, subst, ◌∙◌, inl, inr, arith, List, [], ◌∷◌, map, All,
  Bool-cases, if_true, if_false, eq→==, ne→==, Distinct, Listed,
}
use fg_os.Fs.Paths.{strcmp_equal, strcmp_equal→eq}
use fg_os.Fs.Types.{MountPoint}
use fg_os.Fs.Mount.{find_mount, remove_mount, drop_entry, remove_entry}
use fg_os.Fs.Table.{blocks_of, fs_of, path_of}

-- What find_mount finds is in the list, and has the path.
pub find_mount_lem :
    (M : ℕ → MountPoint) (mounts : List ℕ) (path : List ℕ)
    → find_mount M mounts path ≢ 0
    → Listed (find_mount M mounts path) mounts × ((M (find_mount M mounts path)).path ≡ path)
unfolding find_mount
find_mount_lem M [] path h = absurd (h refl)
find_mount_lem M (mount ∷ mounts) path h =
    let goal : ℕ → Type 0 = λ r. Listed r (mount ∷ mounts) × ((M r).path ≡ path) in
    elim (Bool-cases (strcmp_equal (M mount).path path)) [
      | inl e ↦ subst goal (sym (if_true _ _ _ e)) (inl refl, strcmp_equal→eq (M mount).path path e)
      | inr e ↦
          let skip =
            if_false (strcmp_equal (M mount).path path) mount (find_mount M mounts path) e in
          let rest = find_mount_lem M mounts path (λ z. h (skip ∙ z)) in
          subst goal (sym skip) (inr rest.0, rest.1)
    ]

pub both : (P Q : ℕ → Type 0) (xs : List ℕ) → All P xs → All Q xs → All (λ r. P r × Q r) xs
both P Q [] p q = tt
both P Q (x ∷ xs) p q = ((p.0, q.0), both P Q xs p.1 q.1)

module _ (M : ℕ → MountPoint) where
  Listed-All :
      (P : ℕ → Type 0) (mount : ℕ) (mounts : List ℕ)
      → All P (blocks_of M mounts)
      → Listed mount mounts
      → P mount × P (M mount).fs
  unfolding blocks_of
  Listed-All P mount [] h listed = elim listed [ ]
  Listed-All P mount (first ∷ mounts) h (inl e) = subst (λ q. P q × P (M q).fs) e (h.0, h.1.0)
  Listed-All P mount (first ∷ mounts) h (inr later) = Listed-All P mount mounts h.1.1 later

  pub All-remove_mount :
      (P : ℕ → Type 0) (mount : ℕ) (mounts : List ℕ)
      → All P (blocks_of M mounts)
      → All P (blocks_of M (remove_mount mount mounts))
  unfolding blocks_of remove_mount
  All-remove_mount P mount [] h = tt
  All-remove_mount P mount (first ∷ mounts) h = elim (Bool-cases (first == mount)) [
    | inl e ↦ rw e h.1.1
    | inr e ↦ rw e (h.0, (h.1.0, All-remove_mount P mount mounts h.1.1))
  ]

  pub Distinct-remove_mount :
      (mount : ℕ) (mounts : List ℕ)
      → Distinct (blocks_of M mounts)
      → Distinct (blocks_of M (remove_mount mount mounts))
  unfolding blocks_of remove_mount
  Distinct-remove_mount mount [] h = tt
  Distinct-remove_mount mount (first ∷ mounts) h = elim (Bool-cases (first == mount)) [
    | inl e ↦ rw e h.1.1
    | inr e ↦ rw e (
      (h.0.0, All-remove_mount _ mount mounts h.0.1),
      (All-remove_mount _ mount mounts h.1.0, Distinct-remove_mount mount mounts h.1.1),
    )
  ]

  -- The blocks that stay are not those of the mount point that is removed.
  pub others-remove_mount :
      (mount : ℕ) (mounts : List ℕ)
      → Distinct (blocks_of M mounts)
      → Listed mount mounts
      → All (λ q. (mount ≢ q) × ((M mount).fs ≢ q)) (blocks_of M (remove_mount mount mounts))
  unfolding blocks_of remove_mount
  others-remove_mount mount [] h listed = elim listed [ ]
  others-remove_mount mount (first ∷ mounts) h (inl same) = rw (eq→== first mount same) (
      subst (λ q. All (λ r. (q ≢ r) × ((M q).fs ≢ r)) (blocks_of M mounts)) same
        (both (λ r. first ≢ r) (λ r. (M first).fs ≢ r) (blocks_of M mounts) h.0.1 h.1.0))
  others-remove_mount mount (first ∷ mounts) h (inr later) =
      let apart = Listed-All (λ q. first ≢ q) mount mounts h.0.1 later in
      let fs_apart = Listed-All (λ q. (M first).fs ≢ q) mount mounts h.1.0 later in
      rw (ne→== first mount apart.0) (
        ((λ e. apart.0 (sym e)), (λ e. apart.1 (sym e))),
        (
          ((λ e. fs_apart.0 (sym e)), (λ e. fs_apart.1 (sym e))),
          others-remove_mount mount mounts h.1.1 later,
        ),
      )

  pub map-remove_mount :
      (mount : ℕ) (mounts : List ℕ)
      → Distinct (blocks_of M mounts)
      → Listed mount mounts
      → map (fs_of M) (remove_mount mount mounts) ≡ remove_mount (M mount).fs (map (fs_of M) mounts)
  unfolding blocks_of remove_mount
  map-remove_mount mount [] h listed = elim listed [ ]
  map-remove_mount mount (first ∷ mounts) h (inl same) =
      let fs_same = ap (fs_of M) same in
      rw (eq→== first mount same, eq→== (M first).fs (M mount).fs fs_same) refl
  map-remove_mount mount (first ∷ mounts) h (inr later) =
      let apart = Listed-All (λ q. first ≢ q) mount mounts h.0.1 later in
      let fs_apart = Listed-All (λ q. (M first).fs ≢ q) mount mounts h.1.0 later in
      rw (ne→== first mount apart.0, ne→== (M first).fs (M mount).fs fs_apart.1)
        (ap (λ (t : List ℕ). (M first).fs ∷ t) (map-remove_mount mount mounts h.1.1 later))

  pub paths-remove_mount :
      (P : List ℕ → Type 0) (mount : ℕ) (mounts : List ℕ)
      → All P (map (path_of M) mounts)
      → All P (map (path_of M) (remove_mount mount mounts))
  unfolding remove_mount
  paths-remove_mount P mount [] h = tt
  paths-remove_mount P mount (first ∷ mounts) h = elim (Bool-cases (first == mount)) [
    | inl e ↦ rw e h.1
    | inr e ↦ rw e (h.0, paths-remove_mount P mount mounts h.1)
  ]

  pub Distinct-paths-remove_mount :
      (mount : ℕ) (mounts : List ℕ)
      → Distinct (map (path_of M) mounts)
      → Distinct (map (path_of M) (remove_mount mount mounts))
  unfolding remove_mount
  Distinct-paths-remove_mount mount [] h = tt
  Distinct-paths-remove_mount mount (first ∷ mounts) h = elim (Bool-cases (first == mount)) [
    | inl e ↦ rw e h.1
    | inr e ↦
        rw e (paths-remove_mount _ mount mounts h.0, Distinct-paths-remove_mount mount mounts h.1)
  ]

  All-fs_of :
      (P : ℕ → Type 0) (mounts : List ℕ) → All P (blocks_of M mounts) → All P (map (fs_of M) mounts)
  unfolding blocks_of
  All-fs_of P [] h = tt
  All-fs_of P (mount ∷ mounts) h = (h.1.0, All-fs_of P mounts h.1.1)

  pub Distinct-fs_of :
      (mounts : List ℕ) → Distinct (blocks_of M mounts) → Distinct (map (fs_of M) mounts)
  unfolding blocks_of
  Distinct-fs_of [] h = tt
  Distinct-fs_of (mount ∷ mounts) h = (All-fs_of _ mounts h.1.0, Distinct-fs_of mounts h.1.1)

pub remove_entry-le : (n fs : ℕ) (f : ℕ → ℕ) → (remove_entry n fs f).0 ≤ n
unfolding remove_entry drop_entry
remove_entry-le n fs f = ground arith
