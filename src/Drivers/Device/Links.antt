-- ===== src/Drivers/Device/Links.antt =====
-- kernel/drivers/device.c: taking a device out of the list, as device_unregister does.
use fg_os.Base.{
  ℕ, ◌==◌, ◌+◌, ◌≡◌, ◌≢◌, inl, inr, subst, ap, ◌∙◌, arith, none, some, List, [], ◌∷◌, ◌++◌, length,
  All, Bool-cases, Option-cases, ==→eq,
}
use fg_os.Drivers.Device.DriverList.{remove_link}
use fg_os.Drivers.Device.Listing.{Distinct, All-map, All-both}

-- What stays of a list of distinct addresses when p is taken out.
abbrev pub Removed : (ℕ → Type 0) → (p : ℕ) → (l rest : List ℕ) → Type 0
Removed P p l rest = All (λ q. P q × (q ≢ p)) rest × Distinct rest × (length l ≡ length rest + 1)

Removed-head :
    (P : ℕ → Type 0) (p q : ℕ) (qs : List ℕ)
    → q ≡ p
    → All P qs
    → Distinct (q ∷ qs)
    → Removed P p (q ∷ qs) qs
Removed-head P p q qs same hs (fresh, d) = (
  All-both P (λ x. x ≢ p) qs hs (subst (λ (y : ℕ). All (λ x. x ≢ y) qs) same fresh),
  d,
  omega arith,
)

Removed-later :
    (P : ℕ → Type 0) (p q : ℕ) (qs rest : List ℕ)
    → q ≢ p
    → P q
    → Removed (λ x. P x × (x ≢ q)) p qs rest
    → Removed P p (q ∷ qs) (q ∷ rest)
Removed-later P p q qs rest other h (all, d, n) = (
  ((h, other), All-map _ _ rest (λ x (a, b). (a.0, b)) all),
  (All-map _ _ rest (λ x (a, b). a.1) all, d),
  omega (arith, n),
)

pub remove_link-Removed :
    (P : ℕ → Type 0) (p : ℕ) (l rest : List ℕ)
    → All P l
    → Distinct l
    → remove_link p l ≡ some rest
    → Removed P p l rest
remove_link-Removed P p [] rest h d e = ground arith
remove_link-Removed P p (q ∷ qs) rest (h, hs) (fresh, d) e = elim (Bool-cases (q == p)) [
  | inl same ↦
      let r : qs ≡ rest = ground arith in
      subst (λ (x : List ℕ). Removed P p (q ∷ qs) x) r
        (Removed-head P p q qs (==→eq q p same) hs (fresh, d))
  | inr other ↦ elim (Option-cases (remove_link p qs)) [
    | inl no_link ↦ ground arith
    | inr (rest1, e1) ↦
        let r : (q ∷ rest1) ≡ rest = ground arith in
        subst (λ (x : List ℕ). Removed P p (q ∷ qs) x) r
          (Removed-later P p q qs rest1 (ground arith) h (
            remove_link-Removed (λ x. P x × (x ≢ q)) p qs rest1
              (All-both P (λ x. x ≢ q) qs hs fresh) d e1))
  ]
]

pub remove_link-split :
    (p : ℕ) (l rest : List ℕ)
    → remove_link p l ≡ some rest
    → (before : List ℕ) × (after : List ℕ) × (l ≡ before ++ p ∷ after) × (rest ≡ before ++ after)
remove_link-split p [] rest e = ground arith
remove_link-split p (q ∷ qs) rest e = elim (Bool-cases (q == p)) [
  | inl same ↦ ([], qs, ap (λ (x : ℕ). x ∷ qs) (==→eq q p same), ground arith)
  | inr other ↦ elim (Option-cases (remove_link p qs)) [
    | inl no_link ↦ ground arith
    | inr (rest1, e1) ↦
        let (before, after, whole, cut) = remove_link-split p qs rest1 e1 in
        let r : rest ≡ q ∷ rest1 = ground arith in
        (q ∷ before, after, ap (λ (x : List ℕ). q ∷ x) whole, r ∙ ap (λ (x : List ℕ). q ∷ x) cut)
  ]
]

pub remove_link-none : (p : ℕ) (l : List ℕ) → remove_link p l ≡ none → All (λ q. q ≢ p) l
remove_link-none p [] e = tt
remove_link-none p (q ∷ qs) e = elim (Bool-cases (q == p)) [
  | inl same ↦ ground arith
  | inr other ↦ elim (Option-cases (remove_link p qs)) [
    | inl no_link ↦ (ground arith, remove_link-none p qs no_link)
    | inr (rest1, e1) ↦ ground arith
  ]
]
