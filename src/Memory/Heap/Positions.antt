-- ===== src/Memory/Heap/Positions.antt =====
-- kernel/mm/heap.c: at which addresses the extents of a heap sit.
use fg_os.Base.{
  ℕ, ◌+◌, ◌-◌, ◌≤◌, ◌≡◌, refl, sym, ap, ◌∙◌, subst, arith, true, false, ltb, List, [], ◌∷◌, ◌⊎◌,
  inl, inr, Bool-cases,
}
use fg_os.Memory.Heap.Layout.{Extent, position, unwind}
use fg_os.Memory.Heap.Allocate.{placed}

-- The extent e sits at the address p, where the first of the extents sits at `start`.
abbrev pub Sits : (p : ℕ) → Extent → (start : ℕ) → List Extent → Type 0
Sits p e start [] = ⊥
Sits p e start (x ∷ xs) = ((p ≡ start) × (e ≡ x)) ⊎ Sits p e (start + x.size) xs

Sits-unwind :
    (p : ℕ) (e : Extent) (start : ℕ) (before after : List Extent)
    → Sits p e (position start before) after
    → Sits p e start (unwind before after)
Sits-unwind p e start [] after s = s
Sits-unwind p e start (r ∷ before) after s = Sits-unwind p e start before (r ∷ after) (inr s)

pub Sits-position :
    (e : Extent) (start : ℕ) (before after : List Extent)
    → Sits (position start before) e start (unwind before (e ∷ after))
Sits-position e start before after =
    Sits-unwind (position start before) e start before (e ∷ after) (inl (refl, refl))

-- Where an extent sits, the list divides.
pub Sits-split :
    (p : ℕ) (e : Extent) (start : ℕ) (before es : List Extent)
    → Sits p e (position start before) es
    → (before' : List Extent) × (after' : List Extent) × (unwind before es
        ≡ unwind before' (e ∷ after'))
      × (p ≡ position start before')
Sits-split p e start before [] s = absurd s
Sits-split p e start before (x ∷ xs) (inl (here, same)) =
    (before, xs, ap (λ (y : Extent). unwind before (y ∷ xs)) (sym same), here)
Sits-split p e start before (x ∷ xs) (inr s) = Sits-split p e start (x ∷ before) xs s

Sits-replace :
    (p : ℕ) (e : Extent) (start : ℕ) (before after after' : List Extent)
    → (Sits p e (position start before) after → Sits p e (position start before) after')
    → Sits p e start (unwind before after)
    → Sits p e start (unwind before after')
Sits-replace p e start [] after after' f s = f s
Sits-replace p e start (r ∷ before) after after' f s =
    Sits-replace p e start before (r ∷ after) (r ∷ after') step s
  where
    step :
        Sits p e (position start before) (r ∷ after) → Sits p e (position start before) (r ∷ after')
    step (inl here) = inl here
    step (inr later) = inr (f later)

-- An allocated extent stays where it is when a block is cut out of a free one.
pub Sits-placed :
    (p : ℕ) (e : Extent) (start n : ℕ) (before : List Extent) (x : Extent) (after : List Extent)
    → e.allocated ≡ true
    → x.allocated ≡ false
    → Sits p e start (unwind before (x ∷ after))
    → Sits p e start (unwind before (placed n x after))
Sits-placed p e start n before x after busy free =
    Sits-replace p e start before (x ∷ after) (placed n x after) step
  where
    at : (q : ℕ) → Sits p e (q + x.size) after → Sits p e q (placed n x after)
    at q s = elim (Bool-cases (ltb (n + 64) x.size)) [
      | inl rest ↦
          let same : q + x.size ≡ q + n + (x.size - n) = ground (arith, rest) in
          rw rest (inr (inr (subst (λ (y : ℕ). Sits p e y after) same s)))
      | inr small ↦ rw small (inr s)
    ]

    step :
        Sits p e (position start before) (x ∷ after)
        → Sits p e (position start before) (placed n x after)
    step (inl (here, same)) =
        absurd (ground (arith, busy, free, ap (λ (y : Extent). y.allocated) same))
    step (inr s) = at (position start before) s

Sits-above : (p : ℕ) (e : Extent) (start : ℕ) (es : List Extent) → Sits p e start es → start ≤ p
Sits-above p e start [] s = absurd s
Sits-above p e start (x ∷ xs) (inl (here, same)) = omega (arith, here)
Sits-above p e start (x ∷ xs) (inr s) = omega (arith, Sits-above p e (start + x.size) xs s)

-- An allocated extent and a free one do not overlap.
pub Sits-apart :
    (p q : ℕ) (e x : Extent) (start : ℕ) (es : List Extent)
    → e.allocated ≡ true
    → x.allocated ≡ false
    → Sits p e start es
    → Sits q x start es
    → (p + e.size ≤ q) ⊎ (q + x.size ≤ p)
Sits-apart p q e x start [] busy free s t = absurd s
Sits-apart p q e x start (y ∷ ys) busy free (inl (a, b)) (inl (c, d)) =
    absurd (ground (arith, busy, free, ap (λ (z : Extent). z.allocated) (b ∙ sym d)))
Sits-apart p q e x start (y ∷ ys) busy free (inl (a, b)) (inr t) =
    inl (omega (arith, a, ap (λ (z : Extent). z.size) b, Sits-above q x (start + y.size) ys t))
Sits-apart p q e x start (y ∷ ys) busy free (inr s) (inl (c, d)) =
    inr (omega (arith, c, ap (λ (z : Extent). z.size) d, Sits-above p e (start + y.size) ys s))
Sits-apart p q e x start (y ∷ ys) busy free (inr s) (inr t) =
    Sits-apart p q e x (start + y.size) ys busy free s t
