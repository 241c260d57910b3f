-- ===== src/Fs/Array.antt =====
-- kernel/fs/fs.c: the array of file systems, read from its newest entry to its oldest.
use fg_os.Base.{
  ℕ, zero, suc, ◌+◌, ◌-◌, ◌≤◌, ◌<◌, ◌==◌, ltb, leb, ◌≡◌, ◌≢◌, refl, sym, ap, ◌∙◌, ◌⊎◌, inl, inr,
  arith, ◌&&◌, List, [], ◌∷◌, Option, none, some, length, All, if◌then◌else◌, Bool-cases, subst,
  Distinct,
}
use fg_os.Fs.Types.{write}
use fg_os.Fs.Mount.{find_entry, shift_entries, drop_entry, remove_entry, remove_mount}

-- The first n entries, the last one first.
unfoldable pub newest : (n : ℕ) → (ℕ → ℕ) → List ℕ
newest zero entries = []
newest (suc n) entries = entries n ∷ newest n entries

newest_cong : (n : ℕ) (f g : ℕ → ℕ) → ((j : ℕ) → j < n → f j ≡ g j) → newest n f ≡ newest n g
unfolding newest
newest_cong zero f g h = refl
newest_cong (suc n) f g h =
    let rest = newest_cong n f g (λ j lt. h j (omega arith)) in let first = h n (omega arith) in cc

newest-All : (P : ℕ → Type 0) (n : ℕ) (f : ℕ → ℕ) (j : ℕ) → All P (newest n f) → j < n → P (f j)
unfolding newest
newest-All P zero f j h lt = absurd (omega arith)
newest-All P (suc n) f j h lt = elim (split j n (omega arith)) [
  | inl e ↦ subst (λ i. P (f i)) (sym e) h.0
  | inr less ↦ newest-All P n f j h.1 less
]
  where
    split : (j n : ℕ) → j < n + 1 → (j ≡ n) ⊎ (j < n)
    split j n lt = ground arith

newest-Distinct : (n : ℕ) (f : ℕ → ℕ) (j k : ℕ) → Distinct (newest n f) → j < k → k < n → f k ≢ f j
unfolding newest
newest-Distinct zero f j k h lt below = absurd (omega arith)
newest-Distinct (suc n) f j k h lt below = elim (Bool-cases (k == n)) [
  | inl e ↦
      let same : k ≡ n = ground arith in
      let apart = newest-All (λ y. f n ≢ y) n f j h.0 (omega arith) in
      subst (λ i. f i ≢ f j) (sym same) apart
  | inr e ↦ newest-Distinct n f j k h.1 lt (ground arith)
]

-- The entries from i on, moved down by one.
abbrev moved : (i : ℕ) → (ℕ → ℕ) → ℕ → ℕ
moved i f q = if leb i q then f (suc q) else f q

newest-moved :
    (n i fs : ℕ) (f : ℕ → ℕ)
    → i ≤ n
    → f i ≡ fs
    → ((j : ℕ) → i < j → j < suc n → f j ≢ fs)
    → newest n (moved i f) ≡ remove_mount fs (newest (suc n) f)
unfolding newest remove_mount
newest-moved zero i fs f le here later = let e : i ≡ 0 = omega arith in ground (arith, ap f e)
newest-moved (suc n) i fs f le here later = elim (Bool-cases (i == suc n)) [
  | inl e ↦
      let same : i ≡ suc n = ground arith in
      let unchanged = newest_cong (suc n) (moved i f) f (λ j lt. ground arith) in
      unchanged ∙ ground (arith, ap f same)
  | inr e ↦
      let rest = newest-moved n i fs f (ground arith) here (λ j a b. later j a (omega arith)) in
      let kept = later (suc n) (ground arith) (omega arith) in ground (arith, rest)
]

shift_entries_lem :
    (rounds j q : ℕ) (f : ℕ → ℕ)
    → shift_entries rounds j f q ≡ (if leb j q && ltb q (j + rounds) then f (suc q) else f q)
unfolding shift_entries
shift_entries_lem zero j q f = ground arith
shift_entries_lem (suc rounds) j q f =
    ground (arith, shift_entries_lem rounds (suc j) q (write j (f (suc j)) f))

from_here :
    (rounds i : ℕ) (P : ℕ → Type 0)
    → P i
    → ((j : ℕ) → suc i ≤ j → j < suc i + rounds → P j)
    → (j : ℕ) → i ≤ j
    → j < i + suc rounds
    → P j
from_here rounds i P here later j a b = elim (Bool-cases (i == j)) [
  | inl e ↦ let same : i ≡ j = ground arith in subst P same here
  | inr e ↦ later j (ground arith) (omega arith)
]

-- What find_entry finds.
find_entry_lem :
    (rounds i fs : ℕ) (f : ℕ → ℕ)
    → ((find_entry rounds i fs f ≡ none) × ((j : ℕ) → i ≤ j → j < i + rounds → f j ≢ fs))
      ⊎ ((k : ℕ) × (find_entry rounds i fs f ≡ some k) × (k < i + rounds) × (f k ≡ fs))
unfolding find_entry
find_entry_lem zero i fs f = inl (refl, λ j a b. absurd (omega arith))
find_entry_lem (suc rounds) i fs f = elim (Bool-cases (f i == fs)) [
  | inl e ↦ inr (i, ground arith, omega arith, ground arith)
  | inr e ↦ elim (find_entry_lem rounds (suc i) fs f) [
    | inl (missing, later) ↦
        inl (ground arith, from_here rounds i (λ j. f j ≢ fs) (ground arith) later)
    | inr (k, found, below, here) ↦ inr (k, ground arith, omega arith, here)
  ]
]

All-newest : (P : ℕ → Type 0) (n : ℕ) (f : ℕ → ℕ) → ((j : ℕ) → j < n → P (f j)) → All P (newest n f)
unfolding newest
All-newest P zero f h = tt
All-newest P (suc n) f h = (h n (omega arith), All-newest P n f (λ j lt. h j (omega arith)))

pub remove_mount_missing : (x : ℕ) (xs : List ℕ) → All (λ y. y ≢ x) xs → remove_mount x xs ≡ xs
unfolding remove_mount
remove_mount_missing x [] h = refl
remove_mount_missing x (y ∷ xs) h = let rest = remove_mount_missing x xs h.1 in ground arith

-- With distinct entries, remove_entry takes fs out of the array and changes nothing else.
pub remove_entry_lem :
    (n fs : ℕ) (f : ℕ → ℕ)
    → Distinct (newest n f)
    → newest (remove_entry n fs f).0 (remove_entry n fs f).1 ≡ remove_mount fs (newest n f)
unfolding remove_entry drop_entry
remove_entry_lem n fs f distinct =
    let goal : Option ℕ → Type 0 =
      λ o. newest (drop_entry n f o).0 (drop_entry n f o).1 ≡ remove_mount fs (newest n f) in
    elim (find_entry_lem n 0 fs f) [
      | inl (missing, others) ↦ subst goal (sym missing) (
          sym (
            remove_mount_missing fs (newest n f)
              (All-newest (λ y. y ≢ fs) n f (λ j lt. others j (omega arith) (omega arith)))))
      | inr (k, found, below, here) ↦
          let last : n ≡ suc (n - 1) = omega arith in
          let shifted =
            newest_cong (n - 1) (write (n - 1) 0 (shift_entries (n - 1 - k) k f)) (moved k f)
              (λ j lt. ground (arith, shift_entries_lem (n - 1 - k) k j f)) in
          let later : (j : ℕ) → k < j → j < suc (n - 1) → f j ≢ fs =
            λ j a b same. newest-Distinct n f k j distinct a (omega arith) (same ∙ sym here) in
          subst goal (sym found) (
            shifted
            ∙ newest-moved (n - 1) k fs f (omega arith) here later
            ∙ ap (λ (m : ℕ). remove_mount fs (newest m f)) (sym last))
    ]

pub newest-write : (n x : ℕ) (f : ℕ → ℕ) → newest (n + 1) (write n x f) ≡ x ∷ newest n f
unfolding newest
newest-write n x f =
    let next : n + 1 ≡ suc n = omega arith in
    let rest = newest_cong n (write n x f) f (λ j lt. ground arith) in
    let first : write n x f n ≡ x = ground arith in ap (λ (k : ℕ). newest k (write n x f)) next ∙ cc

pub length-newest : (n : ℕ) (f : ℕ → ℕ) → length (newest n f) ≡ n
unfolding newest
length-newest zero f = refl
length-newest (suc n) f = omega (arith, length-newest n f)
