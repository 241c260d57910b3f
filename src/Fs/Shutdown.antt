-- ===== src/Fs/Shutdown.antt =====
-- kernel/fs/fs.c: fs_init on every answer of kmalloc, and what fs_shutdown releases.
use fg_os.Base.{
  ℕ, ◌==◌, ◌≡◌, ◌≢◌, refl, sym, ap, subst, ◌∙◌, inl, inr, ◌⊎◌, arith, Bool, true, false, not, [],
  if◌then◌else◌, Bool-cases, if_true, if_false, eq→==, ne→==, ==→eq, ◌||◌,
}
use fg_os.Base.Int.{ℤ, pos, negsuc}
use fg_os.Fs.Array.{newest}
use fg_os.Fs.Types.{
  FsManager, FsCache, Env, take_block, free_block, write, Journal, default_block_size,
}
use fg_os.Fs.Cache.{
  fs_cache_init, fs_cache_destroy, fs_journal_init, free_entries, empty_cache, empty_journal,
}
use fg_os.Fs.Mount.{is_ok}
use fg_os.Fs.Startup.{
  clear_manager, fgfs_init, fat32_init, ext4_init, register_builtin, init_journal, fs_init,
  unmount_all, destroy_cache, destroy_journal, fs_shutdown,
}
use fg_os.Fs.Table.{IsTable, blocks_of, free_block-take_block, write_self}
use fg_os.Fs.Release.{
  fs_journal_destroy_lem, fs_cache_destroy_lem, fs_register_filesystem_lem, fs_cache_init_lem,
  fs_journal_init_lem,
}

module _ {W : Type 0} (E : Env W) (s : FsManager W) (cache journal : ℕ) where
  -- fs_init after the cache, and after the journal.
  abbrev with_cache : FsManager W
  with_cache = record (clear_manager s) {
    global_cache = cache;
    blocks = take_block cache s.blocks;
    caches =
        write cache (record empty_cache { max_size = 1024; block_size = default_block_size })
          s.caches;
  }

  abbrev with_journal : FsManager W
  with_journal = record with_cache {
    global_journal = journal;
    blocks = take_block journal (take_block cache s.blocks);
    journals =
        write journal
          (record empty_journal {
            start_block = 1000;
            size = 100;
            sequence = 1;
            block_size = default_block_size;
            enabled = true;
          })
          s.journals;
  }

  fs_init-init_journal : cache ≢ 0 → fs_init E cache journal s ≡ init_journal E journal with_cache
  unfolding fs_init clear_manager is_ok
  fs_init-init_journal real =
      let start : Bool → FsManager W = λ b. record (clear_manager s) {
        global_cache = cache;
        blocks = if b then s.blocks else take_block cache s.blocks;
      } in
      let rest : ℤ × FsManager W → ℤ × FsManager W = λ p.
        if not (is_ok p.0)
        then (negsuc 0, record p.1 { blocks = free_block cache p.1.blocks })
        else init_journal E journal p.1 in
      ap
        (λ (b : Bool).
          if b
          then (negsuc 0, start b)
          else rest (fs_cache_init cache 1024 default_block_size (start b)))
        (ne→== cache 0 real)
      ∙ ap rest (fs_cache_init_lem cache 1024 default_block_size (start false) real)

  fs_init-fails :
      cache ≡ 0
      → ((fs_init E cache journal s).0 ≡ negsuc 0)
        × ((fs_init E cache journal s).1.blocks ≡ s.blocks)
  unfolding fs_init clear_manager
  fs_init-fails missing =
      let none_given = eq→== cache 0 missing in
      let result = if_true _ _ _ none_given in
      (
        ap (λ (r : ℤ × FsManager W). r.0) result,
        ap (λ (r : ℤ × FsManager W). r.1.blocks) result ∙ if_true _ _ _ none_given,
      )

  init_journal-register_builtin :
      journal ≢ 0 → init_journal E journal with_cache ≡ (pos 0, register_builtin E with_journal)
  unfolding init_journal clear_manager is_ok
  init_journal-register_builtin real =
      let start : Bool → FsManager W = λ b. record with_cache {
        global_journal = journal;
        blocks = if b then with_cache.blocks else take_block journal with_cache.blocks;
      } in
      let failed : FsManager W → ℤ × FsManager W = λ t.
        let t1 = fs_cache_destroy t.global_cache t in
        (negsuc 0, record t1 { blocks = free_block t1.global_cache t1.blocks }) in
      let rest : ℤ × FsManager W → ℤ × FsManager W = λ p.
        if not (is_ok p.0)
        then failed (record p.1 { blocks = free_block journal p.1.blocks })
        else (pos 0, register_builtin E p.1) in
      ap
        (λ (b : Bool).
          if b then failed (start b) else rest (fs_journal_init journal 1000 100 (start b)))
        (ne→== journal 0 real)
      ∙ ap rest (fs_journal_init_lem journal 1000 100 (start false) real)

  -- Without a block for the journal, the cache's block is given back.
  init_journal-fails :
      cache ≢ 0
      → journal ≡ 0
      → s.blocks cache ≡ false
      → ((init_journal E journal with_cache).0 ≡ negsuc 0)
        × ((init_journal E journal with_cache).1.blocks ≡ s.blocks)
  unfolding init_journal clear_manager fs_cache_destroy free_entries
  init_journal-fails real missing free =
      let start : Bool → FsManager W = λ b. record with_cache {
        global_journal = journal;
        blocks = if b then with_cache.blocks else take_block journal with_cache.blocks;
      } in
      let answer : FsManager W → ℤ × FsManager W =
        λ t1. (negsuc 0, record t1 { blocks = free_block t1.global_cache t1.blocks }) in
      let none_given = eq→== journal 0 missing in
      let bare = ap (λ (c : FsCache). c.entries) (write_self s.caches cache _) in
      let result : init_journal E journal with_cache
          ≡ answer (record (start true) { caches = write cache empty_cache (start true).caches }) =
        if_true _ _ _ none_given
        ∙ ap (λ (b : Bool). answer (fs_cache_destroy cache (start b))) none_given
        ∙ ap answer (fs_cache_destroy_lem cache (start true) real bare) in
      (
        ap (λ (r : ℤ × FsManager W). r.0) result,
        ap (λ (r : ℤ × FsManager W). r.1.blocks) result ∙ free_block-take_block cache s.blocks free,
      )

  register_builtin_lem :
      (t : FsManager W)
      → (registered : ℕ → ℕ) × (register_builtin E t ≡ record t {
        next_fd = 3;
        mounted_count = 0;
        mount_points = [];
        registered_fs = registered;
        initialized = true;
      })
  unfolding register_builtin fgfs_init fat32_init ext4_init
  register_builtin_lem t =
      let s1 : FsManager W = record t { next_fd = 3; mounted_count = 0; mount_points = [] } in
      let a = fs_register_filesystem_lem 1 E.fgfs_ops s1 in
      let b = fs_register_filesystem_lem 2 E.fat32_ops (record s1 { registered_fs = a.0 }) in
      let c = fs_register_filesystem_lem 4 E.ext4_ops (record s1 { registered_fs = b.0 }) in
      (
        c.0,
        ap (λ (x : FsManager W). record (ext4_init E (fat32_init E x).1).1 { initialized = true })
              a.1
            ∙ ap (λ (x : FsManager W). record (ext4_init E x).1 { initialized = true }) b.1
            ∙ ap (λ (x : FsManager W). record x { initialized = true }) c.1,
      )

  -- The manager after fs_init, for whatever table of file systems.
  abbrev ready : (ℕ → ℕ) → FsManager W
  ready registered = record with_journal {
    next_fd = 3;
    mounted_count = 0;
    mount_points = [];
    registered_fs = registered;
    initialized = true;
  }

  fs_shutdown-ready :
      (registered : ℕ → ℕ)
      → cache ≢ 0
      → journal ≢ 0
      → (fs_shutdown E (ready registered)).blocks
        ≡ free_block cache (free_block journal (take_block journal (take_block cache s.blocks)))
  unfolding fs_shutdown unmount_all destroy_journal destroy_cache clear_manager
  fs_shutdown-ready registered real also =
      let up = ready registered in
      let bare = ap (λ (j : Journal). j.cache) (write_self s.journals journal _) in
      let j = fs_journal_destroy_lem journal up also bare in
      let s1 : FsManager W = record up {
        journals = j.0;
        blocks = free_block journal (take_block journal (take_block cache s.blocks));
      } in
      let first : destroy_journal up ≡ s1 =
        if_false _ _ _ (ne→== journal 0 also)
        ∙ ap (λ (t : FsManager W). record t { blocks = free_block journal t.blocks }) j.1 in
      let empty = ap (λ (c : FsCache). c.entries) (write_self s.caches cache _) in
      let second : (destroy_cache s1).blocks ≡ free_block cache s1.blocks =
        ap (λ (t : FsManager W). t.blocks)
          (if_false _ _ _ (ne→== cache 0 real)
            ∙ ap (λ (t : FsManager W). record t { blocks = free_block cache t.blocks })
                (fs_cache_destroy_lem cache s1 real empty)) in
      ap (λ (t : FsManager W). (destroy_cache t).blocks) first ∙ second

  ready-IsTable :
      (registered : ℕ → ℕ)
      → s.blocks 0 ≡ false
      → cache ≢ 0
      → journal ≢ 0
      → IsTable (ready registered)
  unfolding newest clear_manager blocks_of
  ready-IsTable registered null real also = record {
    agree = refl;
    room = omega arith;
    null = ground arith;
    in_use = tt;
    separate = tt;
    paths = tt;
  }

  -- One of the two blocks is missing.
  abbrev pub missing : Bool
  missing = cache == 0 || journal == 0

  -- The whole life of the layer: an initialization that worked is shut down again.
  abbrev pub life : FsManager W
  life = let r = fs_init E cache journal s in if missing then r.1 else fs_shutdown E r.1

  -- kmalloc's two answers are NULL or free blocks, and not the same block. Where one of them is
  -- NULL, fs_init answers -1 and frees what it got. Otherwise it answers 0, the mount points form an
  -- empty table, and an fs_shutdown frees both blocks again.
  pub fs_init_lem :
      s.blocks 0 ≡ false
      → s.blocks cache ≡ false
      → s.blocks journal ≡ false
      → (cache ≢ 0 → cache ≢ journal)
      → ((fs_init E cache journal s).0 ≡ (if missing then negsuc 0 else pos 0))
        × (life.blocks ≡ s.blocks)
        × ((missing ≡ true)
            ⊎ (IsTable (fs_init E cache journal s).1
                × ((fs_init E cache journal s).1.mount_points ≡ [])))
  fs_init_lem null free also_free apart = elim (Bool-cases missing) [
    | inl e ↦
        let failed = failure (which e) in
        (
          failed.0 ∙ sym (if_true missing (negsuc 0) (pos 0) e),
          ap (λ (t : FsManager W). t.blocks)
                (if_true missing (fs_init E cache journal s).1
                  (fs_shutdown E (fs_init E cache journal s).1) e)
              ∙ failed.1,
          inl e,
        )
    | inr e ↦
        let real : cache ≢ 0 = ground arith in
        let also : journal ≢ 0 = ground arith in
        let up = register_builtin_lem with_journal in
        let result : fs_init E cache journal s ≡ (pos 0, ready up.0) =
          fs_init-init_journal real
          ∙ init_journal-register_builtin also
          ∙ ap (λ (t : FsManager W). let r : ℤ × FsManager W = (pos 0, t) in r) up.1 in
        let state = ap (λ (r : ℤ × FsManager W). r.1) result in
        (
          ap (λ (r : ℤ × FsManager W). r.0) result ∙ sym (if_false missing (negsuc 0) (pos 0) e),
          ap (λ (t : FsManager W). t.blocks)
                (if_false missing (fs_init E cache journal s).1
                  (fs_shutdown E (fs_init E cache journal s).1) e)
              ∙ ap (λ (t : FsManager W). (fs_shutdown E t).blocks) state
              ∙ fs_shutdown-ready up.0 real also
              ∙ ap (free_block cache) (
                  free_block-take_block journal (take_block cache s.blocks)
                    (if_false _ _ _ (ne→== cache journal (apart real)) ∙ also_free))
              ∙ free_block-take_block cache s.blocks free,
          inr (
            subst IsTable (sym state) (ready-IsTable up.0 null real also),
            ap (λ (t : FsManager W). t.mount_points) state,
          ),
        )
  ]
    where
      which : missing ≡ true → (cache ≡ 0) ⊎ (journal ≡ 0)
      which e = elim (Bool-cases (cache == 0)) [
        | inl a ↦ inl (ground arith)
        | inr a ↦ inr (ground arith)
      ]

      failure :
          (cache ≡ 0) ⊎ (journal ≡ 0)
          → ((fs_init E cache journal s).0 ≡ negsuc 0)
            × ((fs_init E cache journal s).1.blocks ≡ s.blocks)
      failure (inl gone) = fs_init-fails gone
      failure (inr gone) = elim (Bool-cases (cache == 0)) [
        | inl e ↦ fs_init-fails (==→eq cache 0 e)
        | inr e ↦
            let real : cache ≢ 0 = ground arith in
            let result = init_journal-fails real gone free in
            let here = fs_init-init_journal real in
            (
              ap (λ (r : ℤ × FsManager W). r.0) here ∙ result.0,
              ap (λ (r : ℤ × FsManager W). r.1.blocks) here ∙ result.1,
            )
      ]
