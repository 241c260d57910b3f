-- ===== src/Memory/Heap/Merge.antt =====
-- kernel/mm/heap.c, merge_blocks: a block that was freed takes in its free neighbours.
use fg_os.Base.{
  ℕ, zero, suc, ◌+◌, ◌^◌, ◌<◌, ◌≡◌, ◌≢◌, ap, refl, ◌∙◌, arith, true, false, ◌&&◌, not, ◌==◌,
  if◌then◌else◌, List, [], ◌∷◌, length, ◌⊎◌, inl, inr, ne→==, eq→==,
}
use fg_os.Memory.Heap.{Blocks, absorb, merge_next, merge_prev}
use fg_os.Memory.Heap.Layout.{Extent, IsRight, header, link, IsRight-set_prev}

-- The headers that one round changes.
abbrev joined : (a b next prev : ℕ) → Extent → ℕ → Blocks → Blocks
joined a b next prev e size B q =
    if a == q
    then header (record e { size = e.size + size }) next prev
    else if next == 0
    then B q
    else if next == q
    then record (B q) { prev = a }
    else B q

absorb-joined :
    (a next prev : ℕ) (e f : Extent) (B : Blocks) (q : ℕ)
    → B a ≡ header e (a + e.size) prev
    → B (a + e.size) ≡ header f next a
    → 0 < a
    → 0 < e.size
    → 0 < f.size
    → a + e.size + f.size < 2 ^ 64
    → (next ≡ 0) ⊎ (next ≡ a + e.size + f.size)
    → absorb a (a + e.size) B q ≡ joined a (a + e.size) next prev e f.size B q
unfolding absorb
absorb-joined a next prev e f B q at_a at_next above pos pos' top at_after = ground arith

joined-next :
    (a b prev : ℕ) (e : Extent) (size : ℕ) (B : Blocks) (q : ℕ)
    → 0 < q
    → a < q
    → joined a b q prev e size B q ≡ record (B q) { prev = a }
joined-next a b prev e size B q pos far = ground arith

joined-other :
    (a b next prev : ℕ) (e : Extent) (size : ℕ) (B : Blocks) (q : ℕ)
    → a ≢ q
    → (next ≡ 0) ⊎ (next ≢ q)
    → joined a b next prev e size B q ≡ B q
joined-other a b next prev e size B q ne off = ground arith

link-or : (a : ℕ) (es : List Extent) → (link a es ≡ 0) ⊎ (link a es ≡ a)
link-or a [] = inl refl
link-or a (e ∷ es) = inr refl

link-some : (a : ℕ) (es : List Extent) → 0 < length es → link a es ≡ a
link-some a [] h = absurd (omega arith)
link-some a (e ∷ es) h = refl

-- Two extents in a row become one.
module _ (a prev : ℕ) (e f : Extent) (after : List Extent) (B : Blocks)
    (right : IsRight B prev a (e ∷ f ∷ after)) (above : 0 < a)
    (top : a + e.size + f.size < 2 ^ 64) where
  absorb_after :
      (q : ℕ)
      → absorb a (a + e.size) B q
        ≡ joined a (a + e.size) (link (a + e.size + f.size) after) prev e f.size B q
  unfolding IsRight
  absorb_after q =
      absorb-joined a (link (a + e.size + f.size) after) prev e f B q right.0 right.2.0 above
        right.1 right.2.1 top (link-or (a + e.size + f.size) after)

  pub absorb-below : (q : ℕ) → q < a → absorb a (a + e.size) B q ≡ B q
  absorb-below q low = absorb_after q ∙ ground (arith, link-or (a + e.size + f.size) after)

  pub absorb-IsRight :
      IsRight (absorb a (a + e.size) B) prev a (record e { size = e.size + f.size } ∷ after)
  unfolding IsRight
  absorb-IsRight =
      let sum : a + (e.size + f.size) ≡ a + e.size + f.size = omega arith in
      let end = a + e.size + f.size in
      (
        absorb_after a ∙ rw (eq→== a a refl, sum) refl,
        omega (arith, right.1),
        rw sum (
            IsRight-set_prev B (absorb a (a + e.size) B) (a + e.size) a end after
              (λ some_after.
                absorb_after end
                ∙ rw (link-some end after some_after) (
                    joined-next a (a + e.size) prev e f.size B end (omega (arith, right.1))
                      (omega (arith, right.1))))
              (λ q far.
                absorb_after q
                ∙ joined-other a (a + e.size) (link end after) prev e f.size B q
                    (λ z. omega (arith, z, far, right.1)) (ground (arith, link-or end after)))
              right.2.2),
      )

pub merge_next-stop :
    (fuel a : ℕ) (B : Blocks)
    → ((B a).next ≡ 0) ⊎ ((B (B a).next).allocated ≡ true)
    → merge_next fuel a B ≡ B
unfolding merge_next
merge_next-stop zero a B h = refl
merge_next-stop (suc fuel) a B h = ground arith

pub merge_next-go :
    (fuel a next : ℕ) (B : Blocks)
    → (B a).next ≡ next
    → 0 < next
    → (B next).allocated ≡ false
    → merge_next (suc fuel) a B ≡ merge_next fuel a (absorb a next B)
unfolding merge_next
merge_next-go fuel a next B at pos free =
    let test : (not ((B a).next == 0) && not (B (B a).next).allocated) ≡ true =
      rw (at, ne→== next 0 (λ z. omega (arith, z, pos)), free) refl in
    rw (merge_next, test) refl ∙ ap (λ (x : ℕ). merge_next fuel a (absorb a x B)) at

pub merge_prev-stop :
    (fuel a : ℕ) (B : Blocks)
    → ((B a).prev ≡ 0) ⊎ ((B (B a).prev).allocated ≡ true)
    → merge_prev fuel a B ≡ B
unfolding merge_prev
merge_prev-stop zero a B h = refl
merge_prev-stop (suc fuel) a B h = ground arith

pub merge_prev-go :
    (fuel a prev : ℕ) (B : Blocks)
    → (B a).prev ≡ prev
    → 0 < prev
    → (B prev).allocated ≡ false
    → merge_prev (suc fuel) a B ≡ merge_prev fuel prev (absorb prev a B)
unfolding merge_prev
merge_prev-go fuel a prev B at pos free =
    let test : (not ((B a).prev == 0) && not (B (B a).prev).allocated) ≡ true =
      rw (at, ne→== prev 0 (λ z. omega (arith, z, pos)), free) refl in
    rw (merge_prev, test) refl ∙ ap (λ (x : ℕ). merge_prev fuel x (absorb x a B)) at
