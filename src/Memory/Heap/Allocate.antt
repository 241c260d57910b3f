-- ===== src/Memory/Heap/Allocate.antt =====
-- kernel/mm/heap.c, kmalloc: what it does to the list of extents.
use fg_os.Base.{
  ℕ, ◌+◌, ◌-◌, ◌^◌, ◌≤◌, ◌<◌, ◌≡◌, ap, refl, ◌∙◌, arith, true, false, ltb, ◌==◌, if◌then◌else◌,
  List, [], ◌∷◌, length, ◌⊎◌, inl, inr, Bool-cases, add64, eq→==,
}
use fg_os.Memory.Heap.{HeapBlock, Blocks, put, split_block}
use fg_os.Memory.Heap.Layout.{Extent, IsRight, header, link, IsRight-frame, IsRight-set_prev}

-- The blocks after an extent that fits has been cut to size and marked as allocated.
abbrev pub sized : (n a : ℕ) → Blocks → Blocks
sized n a B = if ltb (add64 n 64) (B a).size then split_block a n B else B

abbrev pub taken : (n a : ℕ) → Blocks → Blocks
taken n a B = put a (record (sized n a B a) { allocated = true }) (sized n a B)

pub sized-taken : (n a : ℕ) (B : Blocks) → (sized n a B a).size ≡ (taken n a B a).size
sized-taken n a B = rw (eq→== a a refl) refl

-- Where the rest is worth a block of its own, these are the three headers that change.
abbrev cut : (n a next prev : ℕ) → Extent → Blocks → Blocks
cut n a next prev e B q =
    if a == q
    then header (record { size = n; allocated = true }) (a + n) prev
    else if a + n == q
    then header (record { size = e.size - n; allocated = false }) next a
    else if next == 0
    then B q
    else if next == q
    then record (B q) { prev = a + n }
    else B q

taken-cut :
    (n a next prev : ℕ) (e : Extent) (B : Blocks) (q : ℕ)
    → B a ≡ header e next prev
    → 0 < a
    → 0 < n
    → n + 64 < e.size
    → a + e.size < 2 ^ 64
    → (next ≡ 0) ⊎ (next ≡ a + e.size)
    → taken n a B q ≡ cut n a next prev e B q
unfolding split_block
taken-cut n a next prev e B q at_a above pos rest top at_next = ground arith

cut-next :
    (n a prev : ℕ) (e : Extent) (B : Blocks)
    → 0 < a
    → 0 < n
    → n < e.size
    → cut n a (a + e.size) prev e B (a + e.size) ≡ record (B (a + e.size)) { prev = a + n }
cut-next n a prev e B above pos rest = ground arith

cut-far :
    (n a next prev : ℕ) (e : Extent) (B : Blocks) (q : ℕ)
    → n < e.size
    → (next ≡ 0) ⊎ (next ≡ a + e.size)
    → a + e.size < q
    → cut n a next prev e B q ≡ B q
cut-far n a next prev e B q rest at_next far = ground arith

pub taken-whole :
    (n a next prev : ℕ) (e : Extent) (B : Blocks) (q : ℕ)
    → B a ≡ header e next prev
    → n + 64 < 2 ^ 64
    → e.size ≤ n + 64
    → taken n a B q ≡ (if a == q then header (record e { allocated = true }) next prev else B q)
taken-whole n a next prev e B q at_a top small = ground arith

-- The extents that take the place of the extent e at the head of the list.
abbrev pub placed : ℕ → Extent → List Extent → List Extent
placed n e after =
    if ltb (n + 64) e.size
    then record { size = n; allocated = true }
      ∷ record { size = e.size - n; allocated = false }
      ∷ after
    else record e { allocated = true } ∷ after

link-or : (a : ℕ) (es : List Extent) → (link a es ≡ 0) ⊎ (link a es ≡ a)
link-or a [] = inl refl
link-or a (e ∷ es) = inr refl

link-some : (a : ℕ) (es : List Extent) → 0 < length es → link a es ≡ a
link-some a [] h = absurd (omega arith)
link-some a (e ∷ es) h = refl

module _ (n a prev : ℕ) (e : Extent) (after : List Extent) (B : Blocks)
    (right : IsRight B prev a (e ∷ after)) (above : 0 < a) (pos : 0 < n)
    (top : a + e.size < 2 ^ 64) where
  abbrev next : ℕ
  next = link (a + e.size) after

  taken-cut_after : n + 64 < e.size → (q : ℕ) → taken n a B q ≡ cut n a next prev e B q
  unfolding IsRight
  taken-cut_after rest q =
      taken-cut n a next prev e B q right.0 above pos rest top (link-or (a + e.size) after)

  taken-IsRight_cut :
      n + 64 < e.size
      → IsRight (taken n a B) prev a (
          record { size = n; allocated = true }
          ∷ record { size = e.size - n; allocated = false }
          ∷ after)
  unfolding IsRight
  taken-IsRight_cut rest =
      let back : a + n + (e.size - n) ≡ a + e.size = omega (arith, rest) in
      let put_cut = taken-cut_after rest in
      (
        put_cut a ∙ ground arith,
        pos,
        (
          put_cut (a + n) ∙ rw back (ground arith),
          omega (arith, rest),
          rw back (
              IsRight-set_prev B (taken n a B) a (a + n) (a + e.size) after
                (λ some_after.
                  put_cut (a + e.size)
                  ∙ rw (link-some (a + e.size) after some_after)
                      (cut-next n a prev e B above pos (omega (arith, rest))))
                (λ q far.
                  put_cut q
                  ∙ cut-far n a next prev e B q (omega (arith, rest)) (link-or (a + e.size) after)
                      far)
                right.2),
        ),
      )

  taken-IsRight_whole :
      e.size ≤ n + 64
      → n + 64 < 2 ^ 64
      → IsRight (taken n a B) prev a (record e { allocated = true } ∷ after)
  unfolding IsRight
  taken-IsRight_whole small fits64 =
      let same : (q : ℕ)
          → taken n a B q
            ≡ (if a == q then header (record e { allocated = true }) next prev else B q) =
        λ q. taken-whole n a next prev e B q right.0 fits64 small in
      (
        same a ∙ ground arith,
        right.1,
        IsRight-frame B (taken n a B) a (a + e.size) after
            (λ q le. same q ∙ ground (arith, right.1)) right.2,
      )

  pub taken-IsRight : n + 64 < 2 ^ 64 → IsRight (taken n a B) prev a (placed n e after)
  taken-IsRight fits64 = elim (Bool-cases (ltb (n + 64) e.size)) [
    | inl rest ↦ rw rest (taken-IsRight_cut (ground arith))
    | inr small ↦ rw small (taken-IsRight_whole (ground arith) fits64)
  ]

  pub taken-below : n + 64 < 2 ^ 64 → (q : ℕ) → q < a → taken n a B q ≡ B q
  unfolding IsRight
  taken-below fits64 q low = elim (Bool-cases (ltb (n + 64) e.size)) [
    | inl rest ↦ taken-cut_after (ground arith) q ∙ ground (arith, link-or (a + e.size) after)
    | inr small ↦ taken-whole n a next prev e B q right.0 fits64 (ground arith) ∙ ground arith
  ]

  pub taken-size :
      n + 64 < 2 ^ 64 → (taken n a B a).size ≡ (if ltb (n + 64) e.size then n else e.size)
  unfolding IsRight
  taken-size fits64 = elim (Bool-cases (ltb (n + 64) e.size)) [
    | inl rest ↦
        rw rest (ap (λ (b : HeapBlock). b.size) (taken-cut_after (ground arith) a) ∙ ground arith)
    | inr small ↦ rw small (
        ap (λ (b : HeapBlock). b.size)
          (taken-whole n a next prev e B a right.0 fits64 (ground arith))
        ∙ ground arith)
  ]
