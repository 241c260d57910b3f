-- ===== src/Fs/Cache.antt =====
-- kernel/fs/fs.c: the cache and the journal.
use fg_os.Base.{ℕ, ◌==◌, Bool, true, false, not, ◌||◌, List, [], ◌∷◌, if◌then◌else◌, add32}
use fg_os.Base.Int.{ℤ, pos, negsuc}
use fg_os.Fs.Types.{FsManager, FsCache, CacheEntry, Journal, default_block_size, free_block, write}

-- memset(cache, 0, sizeof(fs_cache_t))
abbrev pub empty_cache : FsCache
empty_cache = record {
  entries = [];
  size = 0;
  max_size = 0;
  block_size = 0;
  hits = 0;
  misses = 0;
  dirty_blocks = 0;
}

-- memset(journal, 0, sizeof(journal_t))
abbrev pub empty_journal : Journal
empty_journal = record {
  start_block = 0;
  size = 0;
  sequence = 0;
  block_size = 0;
  enabled = false;
  cache = 0;
  current_entry = 0;
}

-- The loop of fs_cache_destroy.
unfoldable pub free_entries : List CacheEntry → (ℕ → Bool) → ℕ → Bool
free_entries [] blocks = blocks
free_entries (entry ∷ entries) blocks = free_entries entries (
    free_block entry.address
      (if entry.contents == 0 then blocks else free_block entry.contents blocks))

module _ {W : Type 0} where
  unfoldable pub fs_cache_init : (cache max_size block_size : ℕ) → FsManager W → ℤ × FsManager W
  fs_cache_init cache max_size block_size s = if cache == 0 then (negsuc 0, s) else (
    pos 0,
    record s {
      caches =
          write cache (record empty_cache { max_size = max_size; block_size = block_size })
            s.caches;
    },
  )

  unfoldable pub fs_cache_destroy : (cache : ℕ) → FsManager W → FsManager W
  fs_cache_destroy cache s = if cache == 0 then s else record s {
    caches = write cache empty_cache s.caches;
    blocks = free_entries (s.caches cache).entries s.blocks;
  }

  unfoldable pub fs_journal_init : (journal start_block size : ℕ) → FsManager W → ℤ × FsManager W
  fs_journal_init journal start_block size s = if journal == 0 then (negsuc 0, s) else (
    pos 0,
    record s {
      journals =
          write journal
            (record empty_journal {
              start_block = start_block;
              size = size;
              sequence = 1;
              block_size = default_block_size;
              enabled = true;
            })
            s.journals;
    },
  )

  unfoldable pub fs_journal_commit : (journal : ℕ) → FsManager W → ℤ × FsManager W
  fs_journal_commit journal s =
      let j = s.journals journal in
      if journal == 0 || not j.enabled then (negsuc 0, s) else (
        pos 0,
        record s {
          journals = write journal (record j { sequence = add32 j.sequence 1 }) s.journals;
        },
      )

  -- The journal's own cache is destroyed and freed, if it has one.
  unfoldable pub destroy_journal_cache : (cache : ℕ) → FsManager W → FsManager W
  destroy_journal_cache cache s =
      if cache == 0
      then s
      else let s1 = fs_cache_destroy cache s in record s1 { blocks = free_block cache s1.blocks }

  unfoldable pub fs_journal_destroy : (journal : ℕ) → FsManager W → FsManager W
  fs_journal_destroy journal s =
      if journal == 0
      then s
      else let s1 = if (s.journals journal).enabled then (fs_journal_commit journal s).1 else s in
        let s2 = destroy_journal_cache (s1.journals journal).cache s1 in
        record s2 { journals = write journal empty_journal s2.journals }
