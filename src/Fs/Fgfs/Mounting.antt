-- ===== src/Fs/Fgfs/Mounting.antt =====
-- kernel/fs/fgfs.c: fgfs_mount on every answer of kmalloc, followed by fgfs_unmount.
use fg_os.Base.{
  ℕ, ◌==◌, ◌≡◌, ◌≢◌, refl, sym, ap, subst, ◌∙◌, inl, inr, ◌⊎◌, arith, Bool, true, false, not, ◌||◌,
  List, [], some, if◌then◌else◌, Bool-cases, if_true, if_false, ne→==,
}
use fg_os.Base.Int.{ℤ, pos, negsuc}
use fg_os.Fs.Types.{Filesystem, FsCache, take_block, free_block, write}
use fg_os.Fs.Cache.{fs_cache_init, empty_cache}
use fg_os.Fs.Mount.{is_ok}
use fg_os.Fs.Release.{fs_cache_init_lem, fs_cache_destroy_lem}
use fg_os.Fs.Table.{write_self, free_block-take_block}
use fg_os.Fs.Fgfs.Types.{Private, Superblock, fgfs_magic}
use fg_os.Fs.Fgfs.Operations.{
  State, Given, minimal, private_of, with_private, with_filesystem, freed, taken, give_up,
  finish_mount, mount_journal, mount_cache, mount_superblock, fgfs_mount, flush_cache, drop_journal,
  drop_cache, drop_block, fgfs_unmount, fs_status_unmounted,
}

-- kmalloc hands out blocks that are free, and different ones.
pub record IsFresh (given : Given) (s : State) : Type 0 where
  pub private_free : s.blocks given.private_block ≡ false
  pub superblock_free : s.blocks given.superblock_block ≡ false
  pub cache_free : s.blocks given.cache_block ≡ false
  pub second : given.superblock_block ≢ 0 → given.private_block ≢ given.superblock_block
  pub third :
      given.cache_block ≢ 0
      → (given.private_block ≢ given.cache_block) × (given.superblock_block ≢ given.cache_block)

module _ (given : Given) (fs flags : ℕ) (device : List ℕ) (s : State) where
  abbrev priv : ℕ
  priv = given.private_block

  abbrev superblock : ℕ
  superblock = given.superblock_block

  abbrev cache : ℕ
  cache = given.cache_block

  -- The states after the superblock, and after the cache.
  abbrev with_superblock : State
  with_superblock = record (taken superblock (taken priv s)) {
    local = record s.local {
      own = record s.local.own { superblocks = write superblock minimal s.local.own.superblocks };
    };
  }

  abbrev verified : State
  verified = with_private priv (private_of superblock minimal) with_superblock

  abbrev with_cache : State
  with_cache =
      record (taken cache
        (with_private priv (record (private_of superblock minimal) { cache = cache }) verified)) {
          caches = write cache (record empty_cache { max_size = 512; block_size = 4096 }) s.caches;
        }

  fgfs_mount-mount_cache :
      fs ≢ 0
      → priv ≢ 0
      → superblock ≢ 0
      → fgfs_mount given fs (some device) flags s ≡ mount_cache given fs verified
  unfolding fgfs_mount mount_superblock
  fgfs_mount-mount_cache fs_real priv_real real =
      let rest : Superblock → ℤ × State = λ sb.
        if not (sb.magic == fgfs_magic)
        then give_up priv superblock with_superblock
        else mount_cache given fs (with_private priv (private_of superblock sb) with_superblock) in
      let checks : (fs == 0 || priv == 0) ≡ false = ground arith in
      if_false _ _ _ checks
      ∙ if_false _ _ _ (ne→== superblock 0 real)
      ∙ ap rest (write_self s.local.own.superblocks superblock minimal)

  -- mount_cache with what it reads of the private data made explicit.
  abbrev answered : Private → ℤ × State → ℤ × State
  answered p r =
      if not (is_ok r.0)
      then give_up priv p.superblock (freed cache r.1)
      else mount_journal given fs r.1

  abbrev mount_cache_of : Private → ℤ × State
  mount_cache_of p =
      let s1 = with_private priv (record p { cache = cache }) verified in
      if cache == 0
      then give_up priv p.superblock s1
      else answered p (fs_cache_init cache 512 p.block_size (taken cache s1))

  mount_cache_lem : mount_cache given fs verified ≡ mount_cache_of (private_of superblock minimal)
  unfolding mount_cache
  mount_cache_lem =
      ap mount_cache_of (write_self s.local.own.privates priv (private_of superblock minimal))

  no_journal : mount_journal given fs with_cache ≡ finish_mount fs priv with_cache
  unfolding mount_journal private_of
  no_journal = if_true _ _ _ (
      ap (λ (p : Private). not p.has_journal)
        (write_self verified.local.own.privates priv
          (record (private_of superblock minimal) { cache = cache })))

  mount_cache-finish_mount :
      cache ≢ 0 → mount_cache given fs verified ≡ finish_mount fs priv with_cache
  unfolding is_ok private_of
  mount_cache-finish_mount real =
      mount_cache_lem
      ∙ if_false _ _ _ (ne→== cache 0 real)
      ∙ ap (answered (private_of superblock minimal)) (fs_cache_init_lem cache 512 4096 _ real)
      ∙ no_journal

  -- One of the blocks, or the file system itself, is missing.
  abbrev pub missing : Bool
  missing = fs == 0 || priv == 0 || superblock == 0 || cache == 0

  -- The whole life of a mount: a mount that worked is unmounted again.
  abbrev pub life : (flush : FsCache → FsCache) → ℤ × State
  life flush =
      let r = fgfs_mount given fs (some device) flags s in
      if missing then r else fgfs_unmount flush fs r.1

  module _ (F : IsFresh given s) where
    first_back : free_block priv (take_block priv s.blocks) ≡ s.blocks
    first_back = free_block-take_block priv s.blocks F.private_free

    both_back :
        superblock ≢ 0
        → free_block priv (free_block superblock (take_block superblock (take_block priv s.blocks)))
          ≡ s.blocks
    both_back real =
        ap (free_block priv) (
          free_block-take_block superblock (take_block priv s.blocks)
            (if_false _ _ _ (ne→== priv superblock (F.second real)) ∙ F.superblock_free))
        ∙ first_back

    all_back :
        superblock ≢ 0
        → cache ≢ 0
        → free_block priv (
            free_block superblock (
              free_block cache
                (take_block cache (take_block superblock (take_block priv s.blocks)))))
          ≡ s.blocks
    all_back real cache_real =
        let apart = F.third cache_real in
        let free : take_block superblock (take_block priv s.blocks) cache ≡ false =
          if_false _ _ _ (ne→== superblock cache apart.1)
          ∙ if_false _ _ _ (ne→== priv cache apart.0)
          ∙ F.cache_free in
        ap (λ (b : ℕ → Bool). free_block priv (free_block superblock b))
          (free_block-take_block cache (take_block superblock (take_block priv s.blocks)) free)
        ∙ both_back real

    abbrev Failed : ℤ × State → Type 0
    Failed r = (r.0 ≡ negsuc 0) × (r.1.blocks ≡ s.blocks)

    -- fgfs_mount without one of the blocks it asks for.
    fails :
        (fs ≡ 0) ⊎ ((priv ≡ 0) ⊎ ((superblock ≡ 0) ⊎ (cache ≡ 0)))
        → Failed (fgfs_mount given fs (some device) flags s)
    unfolding fgfs_mount mount_superblock give_up private_of
    fails missing = elim (Bool-cases (fs == 0 || priv == 0)) [
      | inl e ↦ subst Failed (sym (if_true _ _ _ e)) (refl, refl)
      | inr e ↦ elim (Bool-cases (superblock == 0)) [
        | inl f ↦ subst Failed (sym (if_false _ _ _ e ∙ if_true _ _ _ f)) (refl, first_back)
        | inr f ↦
            let real : superblock ≢ 0 = ground arith in
            let none_left : (cache == 0) ≡ true = ground arith in
            subst Failed
              (sym (
                fgfs_mount-mount_cache (ground arith) (ground arith) real
                ∙ mount_cache_lem
                ∙ if_true _ _ _ none_left))
              (refl, both_back real)
      ]
    ]

    abbrev mounted : State
    mounted = (finish_mount fs priv with_cache).1

    succeeds :
        fs ≢ 0
        → priv ≢ 0
        → superblock ≢ 0
        → cache ≢ 0
        → fgfs_mount given fs (some device) flags s ≡ (pos 0, mounted)
    unfolding finish_mount
    succeeds a b c d = fgfs_mount-mount_cache a b c ∙ mount_cache-finish_mount d

    -- The steps of fgfs_unmount with what it reads of the private data made explicit.
    abbrev dropped : (flush : FsCache → FsCache) → Private → State
    dropped flush p = drop_block p.superblock (
        drop_block p.group_descs
          (drop_cache p.cache (drop_journal p.journal (flush_cache flush p.cache mounted))))

    dropped_lem :
        (flush : FsCache → FsCache)
        → ((c : FsCache) → c.entries ≡ [] → (flush c).entries ≡ [])
        → superblock ≢ 0
        → cache ≢ 0
        → (dropped flush (record (private_of superblock minimal) { cache = cache })).blocks
          ≡ free_block superblock (free_block cache mounted.blocks)
    unfolding finish_mount private_of drop_block drop_cache drop_journal flush_cache
    dropped_lem flush empties real cache_real =
        let there = ne→== cache 0 cache_real in
        let clear : FsCache = record empty_cache { max_size = 512; block_size = 4096 } in
        let flushed : State = record mounted {
          caches = write cache (flush (mounted.caches cache)) mounted.caches;
        } in
        let bare : (flushed.caches cache).entries ≡ [] =
          ap (λ (c : FsCache). c.entries)
            (write_self mounted.caches cache (flush (mounted.caches cache)))
          ∙ empties (mounted.caches cache)
              (ap (λ (c : FsCache). c.entries) (write_self s.caches cache clear)) in
        ap (λ (t : State). (drop_block superblock (drop_cache cache t)).blocks)
          (if_false _ _ _ there)
        ∙ ap (λ (t : State). (drop_block superblock t).blocks)
            (if_false _ _ _ there
              ∙ ap (freed cache) (fs_cache_destroy_lem cache flushed cache_real bare))
        ∙ ap (λ (t : State). t.blocks) (if_false _ _ _ (ne→== superblock 0 real))

    -- fgfs_unmount with what it reads of the file system made explicit.
    abbrev unmounted_of : (flush : FsCache → FsCache) (private : ℕ) → Private → ℤ × State
    unmounted_of flush private p =
        let s1 = freed private (dropped flush p) in
        if fs == 0 || private == 0 then (negsuc 0, mounted) else (
          pos 0,
          with_filesystem fs
              (record (s1.local.filesystem fs) { private_data = 0; status = fs_status_unmounted })
              s1,
        )

    private_lem : (mounted.local.filesystem fs).private_data ≡ priv
    unfolding finish_mount
    private_lem = ap (λ (f : Filesystem). f.private_data) (write_self s.local.filesystem fs _)

    fgfs_unmount_lem :
        (flush : FsCache → FsCache)
        → fgfs_unmount flush fs mounted
          ≡ unmounted_of flush priv (record (private_of superblock minimal) { cache = cache })
    unfolding fgfs_unmount finish_mount
    fgfs_unmount_lem flush =
        ap (λ (q : ℕ). unmounted_of flush q (mounted.local.own.privates q)) private_lem
        ∙ ap (unmounted_of flush priv) (write_self verified.local.own.privates priv _)

    blocks_lem :
        mounted.blocks ≡ take_block cache (take_block superblock (take_block priv s.blocks))
    unfolding finish_mount
    blocks_lem = refl

    -- kmalloc's answers are free blocks, or NULL. Where fgfs_mount misses one of the three blocks it
    -- asks for, or the file system is NULL, it answers -1 and frees the blocks that it got. Otherwise
    -- it answers 0 and the file system has its private data; then fgfs_unmount answers 0, takes the
    -- private data away and frees every block again, where fs_cache_flush makes no entries in an
    -- empty cache.
    pub fgfs_mount_lem :
        (flush : FsCache → FsCache)
        → ((c : FsCache) → c.entries ≡ [] → (flush c).entries ≡ [])
        → ((fgfs_mount given fs (some device) flags s).0 ≡ (if missing then negsuc 0 else pos 0))
          × ((life flush).0 ≡ (if missing then negsuc 0 else pos 0))
          × ((life flush).1.blocks ≡ s.blocks)
          × ((missing ≡ true)
              ⊎ ((((fgfs_mount given fs (some device) flags s).1.local.filesystem fs).private_data
                    ≡ priv)
                  × (((life flush).1.local.filesystem fs).private_data ≡ 0)))
    fgfs_mount_lem flush empties = elim (Bool-cases missing) [
      | inl e ↦
          let failed = fails (which e) in
          let same =
            if_true missing (fgfs_mount given fs (some device) flags s)
              (fgfs_unmount flush fs (fgfs_mount given fs (some device) flags s).1) e in
          let minus = if_true missing (negsuc 0) (pos 0) e in
          (
            failed.0 ∙ sym minus,
            ap (λ (r : ℤ × State). r.0) same ∙ failed.0 ∙ sym minus,
            ap (λ (r : ℤ × State). r.1.blocks) same ∙ failed.1,
            inl e,
          )
      | inr e ↦
          let a : fs ≢ 0 = ground arith in
          let b : priv ≢ 0 = ground arith in
          let c : superblock ≢ 0 = ground arith in
          let d : cache ≢ 0 = ground arith in
          let checks : (fs == 0 || priv == 0) ≡ false = ground arith in
          let plus = if_false missing (negsuc 0) (pos 0) e in
          let whole : Private = record (private_of superblock minimal) { cache = cache } in
          let done = succeeds a b c d in
          let state = ap (λ (r : ℤ × State). r.1) done in
          let undone =
            if_false missing (fgfs_mount given fs (some device) flags s)
              (fgfs_unmount flush fs (fgfs_mount given fs (some device) flags s).1) e
            ∙ ap (fgfs_unmount flush fs) state
            ∙ fgfs_unmount_lem flush
            ∙ if_false _ _ _ checks in
          (
            ap (λ (r : ℤ × State). r.0) done ∙ sym plus,
            ap (λ (r : ℤ × State). r.0) undone ∙ sym plus,
            ap (λ (r : ℤ × State). r.1.blocks) undone
                ∙ ap (free_block priv) (dropped_lem flush empties c d)
                ∙ ap
                    (λ (q : ℕ → Bool). free_block priv (free_block superblock (free_block cache q)))
                    blocks_lem
                ∙ all_back c d,
            inr (
              ap (λ (t : State). (t.local.filesystem fs).private_data) state ∙ private_lem,
              ap (λ (r : ℤ × State). (r.1.local.filesystem fs).private_data) undone
                  ∙ ap (λ (f : Filesystem). f.private_data)
                      (write_self (freed priv (dropped flush whole)).local.filesystem fs _),
            ),
          )
    ]
      where
        which : missing ≡ true → (fs ≡ 0) ⊎ ((priv ≡ 0) ⊎ ((superblock ≡ 0) ⊎ (cache ≡ 0)))
        which e = elim (Bool-cases (fs == 0)) [
          | inl a ↦ inl (ground arith)
          | inr a ↦ elim (Bool-cases (priv == 0)) [
            | inl b ↦ inr (inl (ground arith))
            | inr b ↦ elim (Bool-cases (superblock == 0)) [
              | inl c ↦ inr (inr (inl (ground arith)))
              | inr c ↦ inr (inr (inr (ground arith)))
            ]
          ]
        ]
