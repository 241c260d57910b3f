-- ===== src/Fs/Fgfs/Format.antt =====
-- kernel/fs/fgfs.c: fgfs_format, which computes a superblock, writes it nowhere and frees it. `block`
-- is the answer of kmalloc. The time stamps, the UUID, the label and the checksum are left out.
use fg_os.Base.{
  ℕ, ◌+◌, ◌*◌, ◌/◌, ◌%◌, ◌^◌, ◌≤◌, ◌<◌, ◌==◌, ltb, ◌≡◌, ◌↔◌, refl, ap, ◌∙◌, arith, false, ◌||◌,
  List, Option, none, some, if◌then◌else◌, if_true, if_false, Bool-cases, inl, inr, sub64, add64,
}
use fg_os.Base.Int.{ℤ, pos, negsuc}
use fg_os.Fs.Types.{write}
use fg_os.Fs.Table.{free_block-take_block}
use fg_os.Fs.Fgfs.Types.{
  Superblock, fgfs_magic, fgfs_version, fgfs_block_size_min, fgfs_block_size_max,
  fgfs_blocks_per_group_default, fgfs_inodes_per_group_default,
}
use fg_os.Fs.Fgfs.Operations.{State, freed, taken}

-- (total_blocks + blocks_per_group - 1) / blocks_per_group in 64 bits, kept in 32 bits.
unfoldable pub group_count_of : (total_blocks : ℕ) → ℕ
group_count_of total_blocks =
    sub64 (add64 total_blocks fgfs_blocks_per_group_default) 1
    / fgfs_blocks_per_group_default
    % 2 ^ 32

-- The product of two uint32_t.
unfoldable pub total_inodes_of : (total_blocks : ℕ) → ℕ
total_inodes_of total_blocks = group_count_of total_blocks * fgfs_inodes_per_group_default % 2 ^ 32

-- FGFS_FEATURE_EXTENT | FGFS_FEATURE_JOURNAL is 12.
unfoldable pub format_superblock : (size block_size : ℕ) → Superblock
format_superblock size block_size = record {
  magic = fgfs_magic;
  version = fgfs_version;
  block_count = size / block_size;
  free_blocks = sub64 (size / block_size) 100;
  inode_count = total_inodes_of (size / block_size);
  free_inodes = sub64 (total_inodes_of (size / block_size)) 10;
  block_size = block_size;
  fragment_size = block_size;
  blocks_per_group = fgfs_blocks_per_group_default;
  inodes_per_group = fgfs_inodes_per_group_default;
  group_count = group_count_of (size / block_size);
  root_inode = 2;
  journal_inode = 8;
  feature_incompat = 12;
}

unfoldable pub fgfs_format :
    (block : ℕ) (device : Option (List ℕ)) (size block_size : ℕ) → State → ℤ × State
fgfs_format block none size block_size s = (negsuc 0, s)
fgfs_format block (some device) size block_size s =
    let s1 = taken block s in
    if ltb block_size fgfs_block_size_min || ltb fgfs_block_size_max block_size || block == 0
    then (negsuc 0, s)
    else (
      pos 0,
      freed block (record s1 {
        local = record s1.local {
          own = record s1.local.own {
            superblocks = write block (format_superblock size block_size) s1.local.own.superblocks;
          };
        };
      }),
    )

-- The groups cover the blocks, and no group is empty; each group has its inodes, and the reserved
-- blocks and inodes are not free.
pub record IsLaidOut (sb : Superblock) : Type 0 where
  covered : sb.block_count ≤ sb.group_count * sb.blocks_per_group
  full : sb.group_count * sb.blocks_per_group < sb.block_count + sb.blocks_per_group
  inodes : sb.inode_count ≡ sb.group_count * sb.inodes_per_group
  blocks_left : sb.free_blocks + 100 ≡ sb.block_count
  inodes_left : sb.free_inodes + 10 ≡ sb.inode_count

-- For a size below 2 ^ 33 blocks, the superblock of fgfs_format is laid out well (groups that cover
-- the blocks with no empty group, the inodes those of the groups, the free blocks and inodes all but
-- the reserved ones) exactly where there are at least 100 blocks: fewer wrap the free blocks around.
pub format_superblock-IsLaidOut :
    (size block_size : ℕ)
    → size / block_size < 2 ^ 33
    → (100 ≤ size / block_size) ↔ IsLaidOut (format_superblock size block_size)
unfolding format_superblock group_count_of total_inodes_of
format_superblock-IsLaidOut size block_size bound = (
  (λ enough. record {
    covered = omega arith;
    full = omega arith;
    inodes = omega arith;
    blocks_left = omega arith;
    inodes_left = omega arith;
  }),
  (λ L. omega (arith, L.blocks_left)),
)

-- fgfs_format leaves the blocks in use as they were, whether it succeeds or not.
pub fgfs_format-blocks :
    (block size block_size : ℕ) (device : Option (List ℕ)) (s : State)
    → s.blocks block ≡ false
    → (fgfs_format block device size block_size s).1.blocks ≡ s.blocks
unfolding fgfs_format
fgfs_format-blocks block size block_size none s free = refl
fgfs_format-blocks block size block_size (some device) s free =
    elim (Bool-cases (ltb block_size 512 || ltb 65536 block_size || block == 0)) [
      | inl e ↦ ap (λ (r : ℤ × State). r.1.blocks) (if_true _ _ _ e)
      | inr e ↦
          ap (λ (r : ℤ × State). r.1.blocks) (if_false _ _ _ e)
          ∙ free_block-take_block block s.blocks free
    ]
