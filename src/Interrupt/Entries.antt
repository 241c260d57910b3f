-- ===== src/Interrupt/Entries.antt =====
-- kernel/interrupt/idt.c: the entries of the interrupt descriptor table.
use fg_os.Base.{ℕ, ◌+◌, ◌*◌, ◌/◌, ◌<◌, ◌%◌, ◌^◌, ◌≡◌, ◌≢◌, refl, ap, ◌∙◌, arith, bit_or}
use fg_os.Base.Bits.{bit_and-low_mask, low-bit_or_disjoint}
use fg_os.Base.Int.{pos}
use fg_os.Interrupt.State.{Machine, IdtEntry, interrupt_system_disabled}
use fg_os.Interrupt.Idt.{idt_set_entry, split_entry, entry_address}

joined :
    (a b c : ℕ)
    → a < 2 ^ 16
    → b < 2 ^ 16
    → bit_or (bit_or a (b * 2 ^ 16)) (c * 2 ^ 32) ≡ c * 2 ^ 32 + (b * 2 ^ 16 + a)
joined a b c h k =
    rw (low-bit_or_disjoint 16 b a h) (low-bit_or_disjoint 32 c (b * 2 ^ 16 + a) (omega arith))

split :
    (h : ℕ)
    → h < 2 ^ 64
    → h / 2 ^ 32 % 2 ^ 32 * 2 ^ 32 + (h / 2 ^ 16 % 2 ^ 16 * 2 ^ 16 + h % 2 ^ 16) ≡ h
split h few = omega arith

pub entry_address-split_entry :
    (h selector type_attr : ℕ) → h < 2 ^ 64 → entry_address (split_entry h selector type_attr) ≡ h
unfolding entry_address split_entry
entry_address-split_entry h selector type_attr few =
    rw (bit_and-low_mask 16 h, bit_and-low_mask 16 (h / 2 ^ 16), bit_and-low_mask 32 (h / 2 ^ 32))
      (joined (h % 2 ^ 16) (h / 2 ^ 16 % 2 ^ 16) (h / 2 ^ 32 % 2 ^ 32) (omega arith) (omega arith)
        ∙ split h few)

pub entry_kept :
    (h selector type_attr : ℕ)
    → ((split_entry h selector type_attr).selector ≡ selector)
      × ((split_entry h selector type_attr).type_attr ≡ type_attr)
unfolding split_entry
entry_kept h selector type_attr = (refl, refl)

-- Where the system is not disabled, the parts that idt_set_entry writes for a 64-bit address are put
-- together to that address again; the selector and the type are those given, and the entries of the
-- other vectors are as they were.
entry_address-idt_set_entry :
    (v h selector type_attr : ℕ) (k : Machine)
    → k.state ≢ interrupt_system_disabled
    → h < 2 ^ 64
    → let (result, k1) = idt_set_entry v h selector type_attr k in
      (result ≡ pos 0)
      × (entry_address (k1.idt v) ≡ h)
      × ((k1.idt v).selector ≡ selector)
      × ((k1.idt v).type_attr ≡ type_attr)
      × ((w : ℕ) → v ≢ w → k1.idt w ≡ k.idt w)
unfolding idt_set_entry
entry_address-idt_set_entry v h selector type_attr k on few =
    let e : (idt_set_entry v h selector type_attr k).1.idt v ≡ split_entry h selector type_attr =
      ground arith in
    (
      ground arith,
      ap entry_address e ∙ entry_address-split_entry h selector type_attr few,
      ap (λ (x : IdtEntry). x.selector) e ∙ (entry_kept h selector type_attr).0,
      ap (λ (x : IdtEntry). x.type_attr) e ∙ (entry_kept h selector type_attr).1,
      λ w other. ground arith,
    )
