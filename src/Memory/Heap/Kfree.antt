-- ===== src/Memory/Heap/Kfree.antt =====
-- kernel/mm/heap.c, kfree against the list of extents: the extent becomes free and takes in its
-- free neighbours, at most one on each side.
use fg_os.Base.{
  ℕ, suc, ◌+◌, ◌^◌, ◌<◌, ◌≡◌, subst, ap, refl, sym, ◌∙◌, arith, Bool, false, if◌then◌else◌, List,
  [], ◌∷◌, inl, inr, Bool-cases,
}
use fg_os.Memory.Heap.{HeapBlock, Blocks, absorb, merge_next, merge_prev}
use fg_os.Memory.Heap.Layout.{
  Extent, IsRight, IsLeft, IsCoalesced, nearest, position, position_lem, unwind, starts_free,
  IsLeft-frame, IsRight-close, IsRight-parts, IsLeft-parts, IsRight-cons, total,
}
use fg_os.Memory.Heap.Merge.{
  absorb-below, absorb-IsRight, merge_next-stop, merge_next-go, merge_prev-stop, merge_prev-go,
}

-- An extent with the free extent that follows it, and what is left of the extents after it.
abbrev pub grown : Extent → List Extent → Extent
grown e [] = e
grown e (f ∷ after) = if f.allocated then e else record e { size = e.size + f.size }

abbrev pub remaining : List Extent → List Extent
remaining [] = []
remaining (f ∷ after) = if f.allocated then f ∷ after else after

-- The extents once e has also been added to a free extent before it.
abbrev pub settled : (before : List Extent) → Extent → (after : List Extent) → List Extent
settled [] e after = e ∷ after
settled (r ∷ before) e after =
    if r.allocated
    then unwind (r ∷ before) (e ∷ after)
    else unwind before (record { size = r.size + e.size; allocated = false } ∷ after)

-- The extents after the extent e between `before` and `after` has been freed.
abbrev pub released : (before : List Extent) → Extent → (after : List Extent) → List Extent
released before e after =
    settled before (grown (record e { allocated = false }) after) (remaining after)

next-busy :
    (fuel prev a : ℕ) (B : Blocks) (e : Extent) (after : List Extent)
    → IsRight B prev a (e ∷ after)
    → starts_free after ≡ false
    → merge_next fuel a B ≡ B
unfolding IsRight
next-busy fuel prev a B e [] right busy =
    merge_next-stop fuel a B (inl (ap (λ (b : HeapBlock). b.next) right.0))
next-busy fuel prev a B e (f ∷ after) right busy =
    merge_next-stop fuel a B (inr (rw right.0 (rw right.2.0 (ground (arith, busy)))))

module _ (fuel a prev : ℕ) (e : Extent) (B : Blocks) (above : 0 < a) where
  abbrev merged : Blocks
  merged = merge_next (suc fuel) a B

  abbrev Merges : Extent → List Extent → Blocks → Type 0
  Merges e' after C = IsRight C prev a (e' ∷ after) × ((q : ℕ) → q < a → C q ≡ B q)

  pub merge_next-IsRight :
      (after : List Extent)
      → IsRight B prev a (e ∷ after)
      → IsCoalesced after
      → a + e.size + total after < 2 ^ 64
      → Merges (grown e after) (remaining after) merged
  merge_next-IsRight [] right single top =
      subst (Merges e []) (sym (next-busy (suc fuel) prev a B e [] right refl))
        (right, λ q low. refl)
  merge_next-IsRight (f ∷ after) right single top = elim (Bool-cases f.allocated) [
    | inl busy ↦
        let stop = next-busy (suc fuel) prev a B e (f ∷ after) right (ground (arith, busy)) in
        simp busy (subst (Merges e (f ∷ after)) (sym stop) (right, λ q low. refl))
    | inr free ↦
        let below : a + e.size + f.size < 2 ^ 64 = omega (arith, top) in
        let C = absorb a (a + e.size) B in
        let e' : Extent = record e { size = e.size + f.size } in
        let whole : Merges e' after C = (
          absorb-IsRight a prev e f after B right above below,
          absorb-below a prev e f after B right above below,
        ) in
        let parts = IsRight-parts B prev a e (f ∷ after) right in
        let next = IsRight-parts B a (a + e.size) f after parts.2 in
        let go =
          merge_next-go fuel a (a + e.size) B (ap (λ (b : HeapBlock). b.next) parts.0)
            (omega (arith, above)) (ap (λ (b : HeapBlock). b.allocated) next.0 ∙ free) in
        let stop = next-busy fuel prev a C e' after whole.0 (ground (arith, free, single.0)) in
        simp free (subst (Merges e' after) (sym (go ∙ stop)) whole)
  ]

prev-busy :
    (fuel start : ℕ) (B : Blocks) (before : List Extent) (e : Extent) (after : List Extent)
    → IsLeft B start before
    → IsRight B (nearest start before) (position start before) (e ∷ after)
    → starts_free before ≡ false
    → merge_prev fuel (position start before) B ≡ B
unfolding IsRight IsLeft
prev-busy fuel start B [] e after left right busy =
    merge_prev-stop fuel start B (inl (ap (λ (b : HeapBlock). b.prev) right.0))
prev-busy fuel start B (r ∷ before) e after left right busy =
    merge_prev-stop fuel (position start (r ∷ before)) B
      (inr (rw right.0 (rw left.0 (ground (arith, busy)))))

pub merge_prev-IsRight :
    (fuel start : ℕ) (B : Blocks) (before : List Extent) (e : Extent) (after : List Extent)
    → 0 < start
    → IsLeft B start before
    → IsRight B (nearest start before) (position start before) (e ∷ after)
    → IsCoalesced before
    → position start before + e.size < 2 ^ 64
    → IsRight (merge_prev (suc fuel) (position start before) B) 0 start (settled before e after)
merge_prev-IsRight fuel start B [] e after above left right single top =
    subst (λ (C : Blocks). IsRight C 0 start (e ∷ after))
      (sym (prev-busy (suc fuel) start B [] e after left right refl)) right
merge_prev-IsRight fuel start B (r ∷ before) e after above left right single top =
    elim (Bool-cases r.allocated) [
      | inl busy ↦
          let stop =
            prev-busy (suc fuel) start B (r ∷ before) e after left right (ground (arith, busy)) in
          simp busy (
            subst (λ (C : Blocks). IsRight C 0 start (unwind (r ∷ before) (e ∷ after))) (sym stop)
              (IsRight-close B start (r ∷ before) e after left right))
      | inr free ↦
          let p = position start before in
          let C = absorb p (p + r.size) B in
          let r' : Extent = record { size = r.size + e.size; allocated = false } in
          let same_extent : record r { size = r.size + e.size } ≡ r' =
            ap (λ (b : Bool). record r { size = r.size + e.size; allocated = b }) free in
          let parts = IsLeft-parts B start r before left in
          let pair = IsRight-cons B (nearest start before) p r (e ∷ after) parts.0 parts.1 right in
          let over : 0 < p = omega (arith, above, position_lem start before) in
          let whole =
            subst (λ (x : Extent). IsRight C (nearest start before) p (x ∷ after)) same_extent
              (absorb-IsRight p (nearest start before) r e after B pair over top) in
          let same = absorb-below p (nearest start before) r e after B pair over top in
          let left' = IsLeft-frame B C start before same parts.2 in
          let here = IsRight-parts B p (p + r.size) e after right in
          let go =
            merge_prev-go fuel (p + r.size) p B (ap (λ (b : HeapBlock). b.prev) here.0) over
              (ap (λ (b : HeapBlock). b.allocated) parts.0 ∙ free) in
          let stop =
            prev-busy fuel start C before r' after left' whole (ground (arith, free, single.0)) in
          simp free (
            subst (λ (D : Blocks). IsRight D 0 start (unwind before (r' ∷ after))) (sym (go ∙ stop))
              (IsRight-close C start before r' after left' whole))
    ]
