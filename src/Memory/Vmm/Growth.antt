-- ===== src/Memory/Vmm/Growth.antt =====
-- kernel/mm/vmm.c: a new table, which vmm_map_page hangs below an entry, keeps the tree of the tables.
use fg_os.Base.{
  ℕ, suc, ◌+◌, ◌≤◌, ◌==◌, true, false, ◌≡◌, ◌≢◌, inl, inr, refl, sym, ap, subst, ◌∙◌, arith,
  if◌then◌else◌, none, some, Bool-cases, ==→eq, eq→==, ne→==, if_true, if_false,
}
use fg_os.Memory.Vmm.{Vmm, next_table, page_of, is_present, set_word, clear_page}
use fg_os.Memory.Vmm.Walk.{
  IsSupply, IsTree, Descends, fresh_entry, page_of_fresh, present_fresh, next_table-old,
}

-- The tables after a new one, at p, has been hung below the entry i of t.
module _ (p t i x : ℕ) (m : Vmm) (apart : p ≢ t) where
  hung : Vmm
  hung = clear_page p (set_word t i x m)

  hung-words :
      (hung.words t i ≡ x)
      × ((j : ℕ) → hung.words p j ≡ 0)
      × ((j : ℕ) → i ≢ j → hung.words t j ≡ m.words t j)
      × ((s j : ℕ) → p ≢ s → t ≢ s → hung.words s j ≡ m.words s j)
  unfolding hung
  hung-words = (ground arith, λ j. ground arith, λ j o. ground arith, λ s j o q. ground arith)

module _ (pages level : ℕ → ℕ) (supply : IsSupply pages) (t i l : ℕ) (m : Vmm)
    (tree : IsTree pages level m) (at : level t ≡ suc (suc l)) (left : pages m.taken ≢ 0) where
  fresh_page : ℕ
  fresh_page = pages m.taken

  level_after : ℕ → ℕ
  level_after q = if fresh_page == q then suc l else level q

  level_after-at : level_after fresh_page ≡ suc l
  unfolding level_after
  level_after-at = ground arith

  level_after-old : (s : ℕ) → 1 ≤ level s → (level_after s ≡ level s) × (fresh_page ≢ s)
  unfolding level_after fresh_page
  level_after-old s h =
      let z : level (pages m.taken) ≡ 0 = tree.1 m.taken (omega arith) left in
      let o : pages m.taken ≢ s =
        λ e. let y = ap level (sym e) in absurd (omega (arith, h, z, y)) in
      (ground arith, o)

  m_new : Vmm
  unfolding fresh_page
  m_new =
      hung fresh_page t i (fresh_page + 3) (record m { taken = m.taken + 1 })
        (level_after-old t (omega (arith, at))).1

  -- An entry that was there before leads one level down still.
  old_down :
      (s j : ℕ)
      → 2 ≤ level s
      → m_new.words s j ≡ m.words s j
      → is_present (m_new.words s j) ≡ true
      → suc (level_after (page_of (m_new.words s j))) ≡ level s
  old_down s j h same here =
      let e = tree.0 s j h (ap is_present (sym same) ∙ here) in
      let up = level_after-old (page_of (m.words s j)) (omega (arith, e, h)) in
      ap (λ (x : ℕ). suc (level_after (page_of x))) same ∙ ap suc up.0 ∙ e

  new-words :
      (m_new.words t i ≡ fresh_page + 3)
      × ((j : ℕ) → m_new.words fresh_page j ≡ 0)
      × ((j : ℕ) → i ≢ j → m_new.words t j ≡ m.words t j)
      × ((s j : ℕ) → fresh_page ≢ s → t ≢ s → m_new.words s j ≡ m.words s j)
  unfolding m_new
  new-words =
      hung-words fresh_page t i (fresh_page + 3) (record m { taken = m.taken + 1 })
        (level_after-old t (omega (arith, at))).1

  level_after-other : (s : ℕ) → fresh_page ≢ s → level_after s ≡ level s
  unfolding level_after
  level_after-other s o = ground arith

  -- The three kinds of entry: the new one, the other ones of its table, and those of other tables.
  down_entry :
      (j : ℕ)
      → is_present (m_new.words t j) ≡ true
      → suc (level_after (page_of (m_new.words t j))) ≡ level t
  unfolding fresh_page
  down_entry j here = elim (Bool-cases (i == j)) [
    | inl g ↦
        let (aligned, small) = supply.0 m.taken in
        let w : m_new.words t j ≡ fresh_page + 3 =
          ap (m_new.words t) (sym (==→eq i j g)) ∙ new-words.0 in
        ap (λ (x : ℕ). suc (level_after (page_of x))) w
        ∙ ap (λ (x : ℕ). suc (level_after x)) (page_of_fresh fresh_page aligned small)
        ∙ ap suc level_after-at
        ∙ sym at
    | inr g ↦ old_down t j (omega (arith, at)) (new-words.2 j (λ z. ground arith)) here
  ]

  new_down :
      (s j : ℕ)
      → 2 ≤ level_after s
      → is_present (m_new.words s j) ≡ true
      → suc (level_after (page_of (m_new.words s j))) ≡ level_after s
  new_down s j h here = elim (Bool-cases (fresh_page == s)) [
    | inl e ↦
        let zero_word : m_new.words s j ≡ 0 =
          ap (λ (x : ℕ). m_new.words x j) (sym (==→eq fresh_page s e)) ∙ new-words.1 j in
        let contra : is_present 0 ≡ true = ap is_present (sym zero_word) ∙ here in
        absurd (ground (arith, contra))
    | inr e ↦
        let o : fresh_page ≢ s = λ z. ground arith in
        let same = level_after-other s o in
        let h1 : 2 ≤ level s = subst (λ (x : ℕ). 2 ≤ x) same h in
        elim (Bool-cases (t == s)) [
          | inl f ↦
              let q = ==→eq t s f in
              subst (λ (x : ℕ). suc (level_after (page_of (m_new.words x j))) ≡ level x) q
                (down_entry j (ap (λ (x : ℕ). is_present (m_new.words x j)) q ∙ here))
              ∙ sym same
          | inr f ↦ old_down s j h1 (new-words.3 s j o (λ z. ground arith)) here ∙ sym same
        ]
  ]

  new_free : (n : ℕ) → m_new.taken ≤ n → pages n ≢ 0 → level_after (pages n) ≡ 0
  unfolding m_new hung fresh_page
  new_free n h some_page =
      level_after-other (pages n) (supply.1 m.taken n (λ e. omega (arith, e, h)) left)
      ∙ tree.1 n (omega (arith, h)) some_page

  new_root : (m_new.kernel_pml4 ≡ m.kernel_pml4) × (m_new.taken ≡ m.taken + 1)
  unfolding m_new hung
  new_root = (refl, refl)

  new-Descends : Descends pages level t i l m (some (page_of (m_new.words t i)), m_new)
  unfolding fresh_page
  new-Descends =
      let (aligned, small) = supply.0 m.taken in
      let w = new-words.0 in
      let p = ap page_of w ∙ page_of_fresh fresh_page aligned small in
      (
        level_after,
        (new_down, new_free),
        ap level_after p ∙ level_after-at,
        ap is_present w ∙ present_fresh fresh_page aligned,
        refl,
        (
          λ s h. (level_after-old s h).0,
          λ s j h o. new-words.3 s j (level_after-old s h).1 o,
          new_root.0,
          omega (arith, new_root.1),
          omega (arith, new_root.1),
        ),
      )

  next_table-new :
      is_present (m.words t i) ≡ false → Descends pages level t i l m (next_table pages t i m)
  unfolding next_table fresh_page m_new hung
  next_table-new absent =
      let p = pages m.taken in
      let m1 = record m { taken = m.taken + 1 } in
      let (aligned, small) = supply.0 m.taken in
      subst (Descends pages level t i l m)
        (sym (
          if_false _ _ _ absent
          ∙ if_false _ _ _ (ne→== p 0 left)
          ∙ ap
              (λ (x : ℕ). (
                some (page_of ((clear_page p (set_word t i x m1)).words t i)),
                clear_page p (set_word t i x m1),
              ))
              (fresh_entry p aligned small)))
        new-Descends

next_table-none :
    (pages level : ℕ → ℕ) (t i l : ℕ) (m : Vmm)
    → is_present (m.words t i) ≡ false
    → pages m.taken ≡ 0
    → Descends pages level t i l m (next_table pages t i m)
unfolding next_table
next_table-none pages level t i l m absent none_left =
    let m1 = record m { taken = m.taken + 1 } in
    subst (Descends pages level t i l m)
      (sym (if_false _ _ _ absent ∙ if_true _ (none, m1) _ (eq→== (pages m.taken) 0 none_left)))
      none_left

-- A step down in a tree, from a table that has the level of two more than l.
pub next_table-Descends :
    (pages level : ℕ → ℕ) (supply : IsSupply pages) (t i l : ℕ) (m : Vmm)
    → IsTree pages level m
    → level t ≡ suc (suc l)
    → Descends pages level t i l m (next_table pages t i m)
next_table-Descends pages level supply t i l m tree at =
    elim (Bool-cases (is_present (m.words t i))) [
      | inl here ↦ next_table-old pages level t i l m tree at here
      | inr absent ↦ elim (Bool-cases (pages m.taken == 0)) [
        | inl e ↦ next_table-none pages level t i l m absent (==→eq _ _ e)
        | inr e ↦ next_table-new pages level supply t i l m tree at (λ z. ground arith) absent
      ]
    ]
