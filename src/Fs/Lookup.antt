-- ===== src/Fs/Lookup.antt =====
-- kernel/fs/fs.c: which file system fs_get_filesystem finds.
use fg_os.Base.{
  ℕ, zero, suc, ◌≤◌, ◌<◌, ◌≡◌, ◌≢◌, refl, sym, ap, subst, ◌⊎◌, inl, inr, arith, true, false, ◌&&◌,
  ltb, List, [], ◌∷◌, some, length, get_elem?, All, Bool-cases,
}
use fg_os.Fs.Paths.{strncmp_equal, StartsWith, strncmp_equal-length-StartsWith}
use fg_os.Fs.Types.{FsManager, MountPoint}
use fg_os.Fs.Mount.{longest_match, fs_get_filesystem}

All-get_elem? {ℓ} :
    (P : ℕ → Type ℓ) (xs : List ℕ) (i x : ℕ) → All P xs → get_elem? xs i ≡ some x → P x
All-get_elem? P [] i x h e = cc
All-get_elem? P (y ∷ xs) zero x h e = let same : y ≡ x = cc in subst P same h.0
All-get_elem? P (y ∷ xs) (suc i) x h e = All-get_elem? P xs i x h.1 e

module _ (M : ℕ → MountPoint) (path : List ℕ) where
  -- No mount point that the path starts with has a path of more than `bound` bytes.
  abbrev pub AtMost : (bound : ℕ) → List ℕ → Type 0
  AtMost bound = All (λ mount. StartsWith path (M mount).path → length (M mount).path ≤ bound)

  -- The mount point is in the list, the path starts with its path, and no other that the path
  -- starts with has a longer path.
  pub record IsLongest (mounts : List ℕ) (best : ℕ) : Type 0 where
    pub position : ℕ
    pub listed : get_elem? mounts position ≡ some best
    pub prefix : StartsWith path (M best).path
    pub longest : AtMost (length (M best).path) mounts

  AtMost-mono : (a b : ℕ) (mounts : List ℕ) → a ≤ b → AtMost a mounts → AtMost b mounts
  AtMost-mono a b [] le h = h
  AtMost-mono a b (mount ∷ mounts) le h =
      ((λ w. omega (arith, h.0 w)), AtMost-mono a b mounts le h.1)

  -- The test of the loop, as a comparison of lengths.
  passed_over :
      (mount best_len : ℕ)
      → (strncmp_equal (length (M mount).path) path (M mount).path
          && ltb best_len (length (M mount).path))
        ≡ false
      → StartsWith path (M mount).path
      → length (M mount).path ≤ best_len
  passed_over mount best_len e w =
      let same = (strncmp_equal-length-StartsWith path (M mount).path).1 w in ground arith

  -- What the loop has found, from the best mount point so far.
  abbrev Found : (mounts : List ℕ) (best best_len result : ℕ) → Type 0
  Found mounts best best_len result =
      ((result ≡ best) × AtMost best_len mounts)
      ⊎ (IsLongest mounts result × (best_len < length (M result).path))

  Found-better :
      (mount : ℕ) (mounts : List ℕ) (best best_len result : ℕ)
      → StartsWith path (M mount).path
      → best_len < length (M mount).path
      → Found mounts mount (length (M mount).path) result
      → Found (mount ∷ mounts) best best_len result
  Found-better mount mounts best best_len result w lt (inl (e, rest)) = inr (
    record {
      position = 0;
      listed = ap some (sym e);
      prefix = subst (λ r. StartsWith path (M r).path) (sym e) w;
      longest =
          subst (λ r. AtMost (length (M r).path) (mount ∷ mounts)) (sym e)
            ((λ _. omega arith), rest);
    },
    subst (λ r. best_len < length (M r).path) (sym e) lt,
  )
  Found-better mount mounts best best_len result w lt (inr (found, more)) = inr (
    record {
      position = suc found.position;
      listed = found.listed;
      prefix = found.prefix;
      longest = ((λ _. omega arith), found.longest);
    },
    omega arith,
  )

  Found-passed_over :
      (mount : ℕ) (mounts : List ℕ) (best best_len result : ℕ)
      → (StartsWith path (M mount).path → length (M mount).path ≤ best_len)
      → Found mounts best best_len result
      → Found (mount ∷ mounts) best best_len result
  Found-passed_over mount mounts best best_len result below (inl (e, rest)) = inl (e, (below, rest))
  Found-passed_over mount mounts best best_len result below (inr (found, more)) = inr (
    record {
      position = suc found.position;
      listed = found.listed;
      prefix = found.prefix;
      longest = ((λ w. omega (arith, below w)), found.longest);
    },
    more,
  )

  pub longest_match_lem :
      (mounts : List ℕ) (best best_len : ℕ)
      → Found mounts best best_len (longest_match M path mounts best best_len)
  unfolding longest_match
  longest_match_lem [] best best_len = inl (refl, tt)
  longest_match_lem (mount ∷ mounts) best best_len =
      let len = length (M mount).path in
      let better = strncmp_equal len path (M mount).path && ltb best_len len in
      elim (Bool-cases better) [
        | inl e ↦
            let same : strncmp_equal len path (M mount).path ≡ true = ground arith in
            rw e (
              Found-better mount mounts best best_len _
                ((strncmp_equal-length-StartsWith path (M mount).path).0 same) (ground arith)
                (longest_match_lem mounts mount len))
        | inr e ↦ rw e (
            Found-passed_over mount mounts best best_len _ (passed_over mount best_len e)
              (longest_match_lem mounts best best_len))
      ]

module _ {W : Type 0} where
  -- After initialization, and where NULL is not in the list of mount points, fs_get_filesystem
  -- returns the file system of a listed mount point that the path starts with and whose own path is
  -- the longest of those; it returns NULL only where the path starts with none but the empty path.
  pub fs_get_filesystem_lem :
      (s : FsManager W) (path : List ℕ)
      → s.initialized ≡ true
      → All (λ mount. mount ≢ 0) s.mount_points
      → ((fs_get_filesystem (some path) s ≡ 0) × AtMost s.mounts path 0 s.mount_points)
        ⊎ ((mount : ℕ) × IsLongest s.mounts path s.mount_points mount
            × (fs_get_filesystem (some path) s ≡ (s.mounts mount).fs))
  unfolding fs_get_filesystem
  fs_get_filesystem_lem s path on nonzero =
      let best = longest_match s.mounts path s.mount_points 0 0 in
      elim (longest_match_lem s.mounts path s.mount_points 0 0) [
        | inl (e, none_longer) ↦ inl (ground arith, none_longer)
        | inr (found, more) ↦
            let real : best ≢ 0 = All-get_elem? _ s.mount_points _ _ nonzero found.listed in
            inr (best, found, ground arith)
      ]
