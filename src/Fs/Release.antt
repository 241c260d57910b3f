-- ===== src/Fs/Release.antt =====
-- kernel/fs/fs.c: what the functions on one cache, one journal and one table of operations do.
use fg_os.Base.{
  ℕ, ◌==◌, ltb, ◌≡◌, ◌≢◌, ap, ◌∙◌, inl, inr, arith, true, false, not, ◌||◌, List, [], Bool-cases,
  if_true, if_false, eq→==, ne→==, add32,
}
use fg_os.Base.Int.{ℤ, pos, negsuc}
use fg_os.Fs.Types.{FsManager, CacheEntry, write, Journal, default_block_size}
use fg_os.Fs.Cache.{
  fs_cache_init, fs_cache_destroy, fs_journal_init, fs_journal_commit, fs_journal_destroy,
  free_entries, empty_cache, empty_journal, destroy_journal_cache,
}
use fg_os.Fs.Mount.{fs_register_filesystem}
use fg_os.Fs.Table.{write_self}

module _ {W : Type 0} where
  -- The end of fs_journal_destroy, for a journal without a cache of its own.
  abbrev erased : ℕ → FsManager W → FsManager W
  erased journal t = record t { journals = write journal empty_journal t.journals }

  no_cache :
      (journal : ℕ) (t : FsManager W)
      → (t.journals journal).cache ≡ 0
      → erased journal (destroy_journal_cache (t.journals journal).cache t) ≡ erased journal t
  unfolding destroy_journal_cache
  no_cache journal t bare = ap (erased journal) (if_true _ _ _ (eq→== _ 0 bare))

  pub fs_journal_destroy_lem :
      (journal : ℕ) (s : FsManager W)
      → journal ≢ 0
      → (s.journals journal).cache ≡ 0
      → (journals : ℕ → Journal) × (fs_journal_destroy journal s ≡ record s { journals = journals })
  unfolding fs_journal_destroy fs_journal_commit
  fs_journal_destroy_lem journal s real bare =
      let j = s.journals journal in
      let committed : FsManager W = record s {
        journals = write journal (record j { sequence = add32 j.sequence 1 }) s.journals;
      } in
      let finish : FsManager W → FsManager W =
        λ t. erased journal (destroy_journal_cache (t.journals journal).cache t) in
      let there = ne→== journal 0 real in
      elim (Bool-cases j.enabled) [
        | inl e ↦
            let pass : (journal == 0 || not j.enabled) ≡ false = ground arith in
            let commit =
              ap (λ (r : ℤ × FsManager W). r.1)
                (if_false _ (negsuc 0, s) (pos 0, committed) pass) in
            (
              _,
              if_false _ _ _ there
                  ∙ ap finish (if_true _ _ _ e ∙ commit)
                  ∙ no_cache journal committed
                      (ap (λ (r : Journal). r.cache) (write_self s.journals journal _) ∙ bare),
            )
        | inr e ↦ (_, if_false _ _ _ there ∙ ap finish (if_false _ _ _ e) ∙ no_cache journal s bare)
      ]

  -- A cache without entries is cleared, and nothing is freed.
  pub fs_cache_destroy_lem :
      (cache : ℕ) (s : FsManager W)
      → cache ≢ 0
      → (s.caches cache).entries ≡ []
      → fs_cache_destroy cache s ≡ record s { caches = write cache empty_cache s.caches }
  unfolding fs_cache_destroy free_entries
  fs_cache_destroy_lem cache s real bare =
      if_false _ _ _ (ne→== cache 0 real)
      ∙ ap
          (λ (entries : List CacheEntry). record s {
            caches = write cache empty_cache s.caches;
            blocks = free_entries entries s.blocks;
          })
          bare

  pub fs_register_filesystem_lem :
      (type ops : ℕ) (s : FsManager W)
      → (registered : ℕ → ℕ) × ((fs_register_filesystem type ops s).1
          ≡ record s { registered_fs = registered })
  unfolding fs_register_filesystem
  fs_register_filesystem_lem type ops s = elim (Bool-cases (not (ltb type 10) || ops == 0)) [
    | inl e ↦ (s.registered_fs, ap (λ (r : ℤ × FsManager W). r.1) (if_true _ _ _ e))
    | inr e ↦ (_, ap (λ (r : ℤ × FsManager W). r.1) (if_false _ _ _ e))
  ]

  pub fs_cache_init_lem :
      (cache max_size block_size : ℕ) (s : FsManager W)
      → cache ≢ 0
      → fs_cache_init cache max_size block_size s ≡ (
        pos 0,
        record s {
          caches =
              write cache
                (record empty_cache { max_size = max_size; block_size = block_size })
                s.caches;
        },
      )
  unfolding fs_cache_init
  fs_cache_init_lem cache max_size block_size s real = if_false _ _ _ (ne→== cache 0 real)

  pub fs_journal_init_lem :
      (journal start_block size : ℕ) (s : FsManager W)
      → journal ≢ 0
      → fs_journal_init journal start_block size s ≡ (
        pos 0,
        record s {
          journals =
              write journal
                (record empty_journal {
                  start_block = start_block;
                  size = size;
                  sequence = 1;
                  block_size = default_block_size;
                  enabled = true;
                })
                s.journals;
        },
      )
  unfolding fs_journal_init
  fs_journal_init_lem journal start_block size s real = if_false _ _ _ (ne→== journal 0 real)
