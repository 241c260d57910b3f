-- ===== src/Memory/Heap/Find.antt =====
-- kernel/mm/heap.c, find_free_block: the search is first fit, and it reaches the end of the list.
use fg_os.Base.{
  ℕ, ap, zero, suc, ◌+◌, ◌<◌, ◌≡◌, refl, sym, ◌∙◌, arith, Bool, true, false, ◌&&◌, not, leb, All,
  List, [], ◌∷◌, length, ◌⊎◌, inl, inr, Bool-cases, subst, if◌then◌else◌, ne→==,
}
use fg_os.Memory.Heap.{Heap, HeapBlock, Blocks, find_from, find_free_block}
use fg_os.Memory.Heap.Layout.{
  Extent, IsRight, IsHeap, header, link, nearest, position, position_lem, unwind, length-le,
}

-- Whether a free extent has room for a block of n bytes.
abbrev pub fits : ℕ → Extent → Bool
fits n e = not e.allocated && leb n e.size

-- The block's extent is the first one that fits.
pub record FirstFit (n start : ℕ) (es : List Extent) (block : ℕ) : Type 0 where
  pub before : List Extent
  pub extent : Extent
  pub after : List Extent
  pub split : es ≡ unwind before (extent ∷ after)
  pub address : block ≡ position start before
  pub fit : fits n extent ≡ true
  pub skipped : All (λ e. fits n e ≡ false) before

-- The outcome of a search of es, which answers `block`.
abbrev pub Search : (n start : ℕ) → List Extent → (block : ℕ) → Type 0
Search n start es block = ((block ≡ 0) × All (λ e. fits n e ≡ false) es) ⊎ FirstFit n start es block

position-pos : (start : ℕ) (before : List Extent) → 0 < start → 0 < position start before
position-pos start before h = omega (arith, position_lem start before)

All-unwind :
    (n : ℕ) (before after : List Extent)
    → All (λ e. fits n e ≡ false) before
    → All (λ e. fits n e ≡ false) after
    → All (λ e. fits n e ≡ false) (unwind before after)
All-unwind n [] after left right = right
All-unwind n (r ∷ before) after left right = All-unwind n before (r ∷ after) left.1 (left.0, right)

find_from-step :
    (n fuel p next prev : ℕ) (B : Blocks) (e : Extent)
    → 0 < p
    → B p ≡ header e next prev
    → find_from (suc fuel) p n B ≡ (if fits n e then p else find_from fuel next n B)
unfolding find_from
find_from-step n fuel p next prev B e above at_p =
    let live = ne→== p 0 (λ z. omega (arith, z, above)) in
    elim (Bool-cases (fits n e)) [
      | inl fit ↦ rw (find_from, live, at_p, fit) refl
      | inr miss ↦
          rw (find_from, live, at_p, miss) (ap (λ (b : HeapBlock). find_from fuel b.next n B) at_p)
    ]

find_from-Search :
    (n start : ℕ) (B : Blocks) (fuel : ℕ) (before es : List Extent)
    → 0 < start
    → length es < fuel
    → IsRight B (nearest start before) (position start before) es
    → All (λ e. fits n e ≡ false) before
    → Search n start (unwind before es) (find_from fuel (link (position start before) es) n B)
unfolding find_from IsRight
find_from-Search n start B zero before es above few right skip = absurd (omega arith)
find_from-Search n start B (suc fuel) before [] above few right skip =
    inl (refl, All-unwind n before [] skip tt)
find_from-Search n start B (suc fuel) before (e ∷ es) above few right skip =
    let p = position start before in
    let next = link (p + e.size) es in
    let step =
      find_from-step n fuel p next (nearest start before) B e (position-pos start before above)
        right.0 in
    elim (Bool-cases (fits n e)) [
      | inl fit ↦ inr (record {
        before = before;
        extent = e;
        after = es;
        split = refl;
        address = step ∙ rw fit refl;
        fit = fit;
        skipped = skip;
      })
      | inr miss ↦
          subst (Search n start (unwind before (e ∷ es))) (sym (step ∙ rw miss refl)) (
            find_from-Search n start B fuel (e ∷ before) es above (omega arith) right.2
              (miss, skip))
    ]

pub find_free_block-Search :
    (n : ℕ) (h : Heap) (es : List Extent) → IsHeap h es → Search n h.start es (find_free_block n h)
unfolding find_free_block
find_free_block-Search n h [] heap = absurd (omega (arith, heap.some_block))
find_free_block-Search n h (e ∷ es) heap =
    let few : length (e ∷ es) < suc h.heap_size =
      omega (arith, length-le h.blocks 0 h.start (e ∷ es) heap.blocks, heap.whole) in
    rw heap.first (
      find_from-Search n h.start h.blocks (suc h.heap_size) [] (e ∷ es) heap.above_zero few
        heap.blocks tt)
