-- ===== src/Interrupt/Startup.antt =====
-- kernel/interrupt/idt.c, idt_init: the table after the start.
use fg_os.Base.{
  ℕ, zero, suc, ◌+◌, ◌<◌, ◌≤◌, ◌^◌, ltb, ◌≡◌, ◌≢◌, inl, inr, refl, sym, ap, ◌∙◌, arith,
  if◌then◌else◌, Bool-cases, lt→ltb, equal_or_later,
}
use fg_os.Base.Int.{pos}
use fg_os.Interrupt.State.{
  Machine, Handler, IdtEntry, Outside, default_exception, default_interrupt,
  interrupt_system_disabled, interrupt_system_initializing, interrupt_system_enabled,
}
use fg_os.Interrupt.Idt.{
  idt_init, default_handlers, set_entries, idt_set_entry, split_entry, cleared, default_handler,
  put_handler, entry_address,
}
use fg_os.Interrupt.Entries.{entry_address-split_entry, entry_kept}

default_handlers-below :
    (n from v : ℕ) (k : Machine) → v < from → (default_handlers n from k).handlers v ≡ k.handlers v
unfolding default_handlers
default_handlers-below zero from v k h = refl
default_handlers-below (suc n) from v k h =
    default_handlers-below n (suc from) v (put_handler from (default_handler from) k) (omega arith)
    ∙ ground arith

default_handlers-range :
    (n from v : ℕ) (k : Machine)
    → from ≤ v
    → v < from + n
    → (default_handlers n from k).handlers v ≡ default_handler v
unfolding default_handlers
default_handlers-range zero from v k h l = absurd (omega arith)
default_handlers-range (suc n) from v k h l =
    let k1 = put_handler from (default_handler from) k in
    elim (equal_or_later from v h) [
      | inl e ↦ default_handlers-below n (suc from) v k1 (omega (arith, e)) ∙ ground arith
      | inr later ↦ default_handlers-range n (suc from) v k1 (omega (arith, later)) (omega arith)
    ]

default_handlers-rest :
    (n from : ℕ) (k : Machine)
    → ((default_handlers n from k).state ≡ k.state) × ((default_handlers n from k).idt ≡ k.idt)
unfolding default_handlers
default_handlers-rest zero from k = (refl, refl)
default_handlers-rest (suc n) from k =
    default_handlers-rest n (suc from) (put_handler from (default_handler from) k)

put-idt :
    (from h t : ℕ) (k : Machine)
    → k.state ≢ interrupt_system_disabled
    → let k1 = (idt_set_entry from h 8 t k).1 in
      (k1.idt from ≡ split_entry h 8 t)
      × ((v : ℕ) → from ≢ v → k1.idt v ≡ k.idt v)
      × (k1.state ≡ k.state)
      × (k1.handlers ≡ k.handlers)
unfolding idt_set_entry
put-idt from h t k on = (ground arith, λ v o. ground arith, ground arith, ground arith)

-- What the loop of idt_init over the entries from `from` on does to the entry v.
Covers : (n from h t v : ℕ) (k k1 : Machine) → Type 0
Covers n from h t v k k1 =
    (from ≤ v → v < from + n → k1.idt v ≡ split_entry h 8 t)
    × (v < from → k1.idt v ≡ k.idt v)
    × (from + n ≤ v → k1.idt v ≡ k.idt v)
    × (k1.state ≡ k.state)
    × (k1.handlers ≡ k.handlers)

set_entries-Covers :
    (n from h t v : ℕ) (k : Machine)
    → k.state ≢ interrupt_system_disabled
    → Covers n from h t v k (set_entries n from h t k)
unfolding set_entries Covers
set_entries-Covers zero from h t v k on =
    (λ a b. absurd (omega (arith, a, b)), λ a. refl, λ a. refl, refl, refl)
set_entries-Covers (suc n) from h t v k on =
    let (e, o, s, hs) = put-idt from h t k on in
    let k1 = (idt_set_entry from h 8 t k).1 in
    let (a, b, c, s1, h1) = set_entries-Covers n (suc from) h t v k1 (λ z. on (sym s ∙ z)) in
    (
      λ l m. elim (equal_or_later from v l) [
        | inl z ↦ b (omega (arith, z)) ∙ ap k1.idt (sym z) ∙ e
        | inr later ↦ a (omega (arith, later)) (omega (arith, m))
      ],
      λ l. b (omega (arith, l)) ∙ o v (λ z. omega (arith, l, z)),
      λ l. c (omega (arith, l)) ∙ o v (λ z. omega (arith, l, z)),
      s1 ∙ s,
      h1 ∙ hs,
    )

cleared-state : (table : ℕ) (k : Machine) → (cleared table k).state ≡ interrupt_system_initializing
unfolding cleared
cleared-state table k = refl

-- The three loops of idt_init, over the exceptions, the hardware and the software interrupts.
module _ (a b v : ℕ) (k : Machine) (on : k.state ≢ interrupt_system_disabled) where
  filled : Machine
  filled = set_entries 208 48 b 238 (set_entries 16 32 b 142 (set_entries 32 0 a 142 k))

  filled-entries :
      (filled.handlers ≡ k.handlers)
      × (v < 32 → filled.idt v ≡ split_entry a 8 142)
      × (32 ≤ v → v < 48 → filled.idt v ≡ split_entry b 8 142)
      × (48 ≤ v → v < 256 → filled.idt v ≡ split_entry b 8 238)
  unfolding filled Covers
  filled-entries =
      let k1 = set_entries 32 0 a 142 k in
      let (in1, lo1, hi1, s1, h1) = set_entries-Covers 32 0 a 142 v k on in
      let on1 : k1.state ≢ interrupt_system_disabled = λ z. on (sym s1 ∙ z) in
      let k2 = set_entries 16 32 b 142 k1 in
      let (in2, lo2, hi2, s2, h2) = set_entries-Covers 16 32 b 142 v k1 on1 in
      let on2 : k2.state ≢ interrupt_system_disabled = λ z. on1 (sym s2 ∙ z) in
      let (in3, lo3, hi3, s3, h3) = set_entries-Covers 208 48 b 238 v k2 on2 in
      (
        h3 ∙ h2 ∙ h1,
        λ l. lo3 (omega (arith, l)) ∙ lo2 l ∙ in1 (omega arith) l,
        λ l m. lo3 m ∙ in2 l m,
        λ l m. in3 l m,
      )

-- The default handler and the type of the gate of a vector.
abbrev pub gate_type : (vector : ℕ) → ℕ
gate_type v = if ltb v 48 then 142 else 238

by_vector :
    (out : Outside) (v : ℕ)
    → v < 256
    → (e : IdtEntry)
    → (v < 32 → e ≡ split_entry (out.address default_exception) 8 142)
      × (32 ≤ v → v < 48 → e ≡ split_entry (out.address default_interrupt) 8 142)
      × (48 ≤ v → v < 256 → e ≡ split_entry (out.address default_interrupt) 8 238)
    → e ≡ split_entry (out.address (default_handler v)) 8 (gate_type v)
by_vector out v few e (low, mid, high) = elim (Bool-cases (ltb v 32)) [
  | inl l ↦ rw l (rw (lt→ltb v 48 (ground arith)) (low (ground arith)))
  | inr l ↦ elim (Bool-cases (ltb v 48)) [
    | inl m ↦ rw (l, m) (mid (ground arith) (ground arith))
    | inr m ↦ rw (l, m) (high (ground arith) few)
  ]
]

-- After idt_init, whatever the state was before: the system is enabled, every vector below 256 has
-- its default handler, that of exceptions below 32 and that of interrupts from there on, its entry
-- has the address of that handler, and user code may raise exactly the interrupts from 48 on.
pub idt_init_lem :
    (out : Outside) (v : ℕ) (k : Machine)
    → v < 256
    → ((h : Handler) → out.address h < 2 ^ 64)
    → let (result, k1) = idt_init out k in
      (result ≡ pos 0)
      × (k1.state ≡ interrupt_system_enabled)
      × (k1.handlers v ≡ default_handler v)
      × (entry_address (k1.idt v) ≡ out.address (default_handler v))
      × ((k1.idt v).type_attr ≡ gate_type v)
unfolding idt_init filled
idt_init_lem out v k few bounded =
    let k0 = cleared out.table k in
    let k1 = default_handlers 256 0 k0 in
    let a = out.address default_exception in
    let b = out.address default_interrupt in
    let (s1, i1) = default_handlers-rest 256 0 k0 in
    let on : k1.state ≢ interrupt_system_disabled =
      λ z. (let e = sym (cleared-state out.table k) ∙ sym s1 ∙ z in absurd (omega (arith, e))) in
    let (hs, low, mid, high) = filled-entries a b v k1 on in
    let e = by_vector out v few ((filled a b v k1 on).idt v) (low, mid, high) in
    let kept = entry_kept (out.address (default_handler v)) 8 (gate_type v) in
    (
      refl,
      refl,
      ap (λ (f : ℕ → Handler). f v) hs ∙ default_handlers-range 256 0 v k0 (omega arith) few,
      ap entry_address e
          ∙ entry_address-split_entry (out.address (default_handler v)) 8 (gate_type v)
              (bounded (default_handler v)),
      ap (λ (x : IdtEntry). x.type_attr) e ∙ kept.1,
    )
