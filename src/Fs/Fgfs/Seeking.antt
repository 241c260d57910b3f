-- ===== src/Fs/Fgfs/Seeking.antt =====
-- kernel/fs/fgfs.c: fgfs_seek against seeking in the integers, and files that are opened and closed.
use fg_os.Base.{
  ℕ, zero, suc, ◌+◌, ◌-◌, ◌%◌, ◌^◌, ◌≤◌, ◌<◌, ◌==◌, ltb, ◌≡◌, ◌≢◌, refl, sym, ap, ◌∙◌, inl, inr,
  arith, true, false, ◌||◌, List, Option, none, some, if◌then◌else◌, Bool-cases, if_true, if_false,
  add64, sub32, ne→==, lt→ltb,
}
use fg_os.Base.Int.{ℤ, pos, negsuc}
use fg_os.Fs.Types.{File, write}
use fg_os.Fs.Table.{write_self, free_block-take_block}
use fg_os.Fs.Fgfs.Operations.{State}
use fg_os.Fs.Fgfs.Files.{
  to_signed, to_unsigned, with_file, new_position, move_to, fgfs_seek, root_file, fgfs_open,
  fgfs_close,
}

-- Where a seek begins: at the start, at the position, or at the end.
abbrev pub base : (origin : ℕ) → File → ℕ
base origin f = if origin == 0 then 0 else if origin == 1 then f.position else f.size

-- The sum in the integers, where it is a position that int64_t can hold.
abbrev pub target : (from : ℕ) → (offset : ℤ) → Option ℕ
target from (pos k) = if ltb (from + k) (2 ^ 63) then some (from + k) else none
target from (negsuc k) = if ltb k from then some (from - (k + 1)) else none

-- The range of int64_t.
abbrev pub InRange : ℤ → Type 0
InRange (pos k) = k < 2 ^ 63
InRange (negsuc k) = k < 2 ^ 63

-- The answer and the state for a target.
abbrev pub sought : (file : ℕ) → Option ℕ → State → ℤ × State
sought file none s = (negsuc 0, s)
sought file (some n) s = (pos n, with_file file (record (s.local.files file) { position = n }) s)

move_to-add64 :
    (file from : ℕ) (offset : ℤ) (s : State)
    → from < 2 ^ 63
    → InRange offset
    → move_to file (some (to_signed (add64 from (to_unsigned offset)))) s
      ≡ sought file (target from offset) s
unfolding to_signed to_unsigned move_to
move_to-add64 file from (pos k) s hf hk = elim (Bool-cases (ltb (from + k) (2 ^ 63))) [
  | inl e ↦ let sum : (from + k) % 2 ^ 64 ≡ from + k = ground arith in rw (sum, e) refl
  | inr e ↦ let sum : (from + k) % 2 ^ 64 ≡ from + k = ground arith in rw (sum, e) refl
]
move_to-add64 file from (negsuc k) s hf hk = elim (Bool-cases (ltb k from)) [
  | inl e ↦
      let sum : (from + (2 ^ 64 - 1 - k)) % 2 ^ 64 ≡ from - (k + 1) = ground arith in
      let small : ltb (from - (k + 1)) (2 ^ 63) ≡ true = ground arith in rw (sum, small, e) refl
  | inr e ↦
      let sum : (from + (2 ^ 64 - 1 - k)) % 2 ^ 64 ≡ from + (2 ^ 64 - 1 - k) = ground arith in
      let big : ltb (from + (2 ^ 64 - 1 - k)) (2 ^ 63) ≡ false = ground arith in
      rw (sum, big, e) refl
]

-- For each of the three origins, a position and a size that int64_t can hold, and an offset of
-- int64_t, fgfs_seek goes to the sum in the integers if it is a position that int64_t can hold, and
-- answers it. Otherwise it answers -1 and changes nothing: no wrap-around is mistaken for a position.
pub fgfs_seek_lem :
    (file origin : ℕ) (offset : ℤ) (s : State)
    → file ≢ 0
    → origin ≤ 2
    → (s.local.files file).position < 2 ^ 63
    → (s.local.files file).size < 2 ^ 63
    → InRange offset
    → fgfs_seek file offset origin s
      ≡ sought file (target (base origin (s.local.files file)) offset) s
unfolding fgfs_seek new_position move_to
fgfs_seek_lem file zero (pos k) s real three hp hs range =
    let sum : 0 + k ≡ k = omega arith in
    let found : target 0 (pos k) ≡ some k =
      if_true _ _ _ (lt→ltb (0 + k) (2 ^ 63) (omega arith)) ∙ ap some sum in
    if_false _ _ _ (ne→== file 0 real) ∙ ap (λ (o : Option ℕ). sought file o s) (sym found)
fgfs_seek_lem file zero (negsuc k) s real three hp hs range =
    let below : target 0 (negsuc k) ≡ none =
      if_false (ltb k 0) (some (0 - (k + 1))) none (ground arith) in
    if_false _ _ _ (ne→== file 0 real) ∙ ap (λ (o : Option ℕ). sought file o s) (sym below)
fgfs_seek_lem file (suc zero) offset s real three hp hs range =
    if_false _ _ _ (ne→== file 0 real)
    ∙ move_to-add64 file (s.local.files file).position offset s hp range
fgfs_seek_lem file (suc (suc zero)) offset s real three hp hs range =
    if_false _ _ _ (ne→== file 0 real)
    ∙ move_to-add64 file (s.local.files file).size offset s hs range
fgfs_seek_lem file (suc (suc (suc origin))) offset s real three hp hs range = absurd (omega arith)

-- A block that kmalloc hands out for a file is free again after fgfs_close: where the file system is
-- mounted and the arguments are not NULL, fgfs_open answers 0 and stores the file in the caller's
-- variable, and closing that file answers 0 and leaves the blocks in use as they were.
pub fgfs_close-fgfs_open :
    (block fs mode file : ℕ) (path : List ℕ) (s : State)
    → block ≢ 0
    → s.blocks block ≡ false
    → fs ≢ 0
    → file ≢ 0
    → (s.local.filesystem fs).private_data ≢ 0
    → (s1 : State) × (fgfs_open block fs (some path) mode file s ≡ (pos 0, s1))
      × (s1.local.own.variables file ≡ block)
      × ((fgfs_close block s1).0 ≡ pos 0)
      × ((fgfs_close block s1).1.blocks ≡ s.blocks)
unfolding fgfs_open fgfs_close
fgfs_close-fgfs_open block fs mode file path s real free fs_real file_real mounted =
    let checks : (fs == 0 || file == 0 || (s.local.filesystem fs).private_data == 0 || block == 0)
        ≡ false =
      ground arith in
    let last : (sub32 (write block (root_file mode fs) s.local.files block).ref_count 1 == 0)
        ≡ true =
      ap (λ (f : File). sub32 f.ref_count 1 == 0)
        (write_self s.local.files block (root_file mode fs)) in
    let there = ne→== block 0 real in
    (
      _,
      if_false _ _ _ checks,
      write_self s.local.own.variables file block,
      ap (λ (r : ℤ × State). r.0) (if_false _ _ _ there),
      ap (λ (r : ℤ × State). r.1.blocks) (if_false _ _ _ there)
          ∙ ap (λ (t : State). t.blocks) (if_true _ _ _ last)
          ∙ free_block-take_block block s.blocks free,
    )
