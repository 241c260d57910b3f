-- ===== src/Memory/Pmm/Bits.antt =====
-- One bit of a bitmap byte, checked over all bytes and all bit positions.
use fg_os.Base.{
  ℕ, ◌-◌, ◌^◌, ◌<◌, ◌≡◌, refl, arith, bit_and, bit_or, Bool, true, false, ltb, ◌==◌, eqb, eqb→eq,
  if◌then◌else◌,
}
use fg_os.Base.Bits.{all_below, all_below_sound}

all_triples : (ℕ → ℕ → ℕ → Bool) → Bool
unfolding all_below
all_triples p = all_below 256 (λ b. all_below 8 (λ j. all_below 8 (λ k. p b j k)))

all_triples_sound :
    (p : ℕ → ℕ → ℕ → Bool)
    → all_triples p ≡ true
    → (b j k : ℕ) → b < 256
    → j < 8
    → k < 8
    → p b j k ≡ true
unfolding all_triples
all_triples_sound p h b j k hb hj hk =
    all_below_sound 8 (λ k. p b j k) k
      (all_below_sound 8 (λ j. all_below 8 (λ k. p b j k)) j
        (all_below_sound 256 (λ b. all_below 8 (λ j. all_below 8 (λ k. p b j k))) b h hb) hj)
      hk

abbrev is_clear : ℕ → ℕ → Bool
is_clear b k = bit_and b (2 ^ k) == 0

set_table :
    all_triples
      (λ b j k. eqb (is_clear (bit_or b (2 ^ j)) k) (if j == k then false else is_clear b k))
    ≡ true
unfolding all_triples
set_table = refl

clear_table :
    all_triples
      (λ b j k. eqb (is_clear (bit_and b (255 - 2 ^ j)) k) (if j == k then true else is_clear b k))
    ≡ true
unfolding all_triples
clear_table = refl

byte_table :
    all_triples
      (λ b j k. if ltb (bit_or b (2 ^ j)) 256 then ltb (bit_and b (255 - 2 ^ j)) 256 else false)
    ≡ true
unfolding all_triples
byte_table = refl

-- b |= 1 << j sets bit j and no other.
pub bit_or-set :
    (b j k : ℕ)
    → b < 256
    → j < 8
    → k < 8
    → (bit_and (bit_or b (2 ^ j)) (2 ^ k) == 0) ≡ (if j == k then false else bit_and b (2 ^ k) == 0)
bit_or-set b j k hb hj hk = eqb→eq _ _ (all_triples_sound _ set_table b j k hb hj hk)

-- b &= ~(1 << j) clears bit j and no other.
pub bit_and-clear :
    (b j k : ℕ)
    → b < 256
    → j < 8
    → k < 8
    → (bit_and (bit_and b (255 - 2 ^ j)) (2 ^ k) == 0)
      ≡ (if j == k then true else bit_and b (2 ^ k) == 0)
bit_and-clear b j k hb hj hk = eqb→eq _ _ (all_triples_sound _ clear_table b j k hb hj hk)

pub bit_or-lt : (b j : ℕ) → b < 256 → j < 8 → bit_or b (2 ^ j) < 256
bit_or-lt b j hb hj = ground (
  arith,
  all_triples_sound
      (λ b j k. if ltb (bit_or b (2 ^ j)) 256 then ltb (bit_and b (255 - 2 ^ j)) 256 else false)
      byte_table b j 0 hb hj,
)

pub bit_and-lt : (b j : ℕ) → b < 256 → j < 8 → bit_and b (255 - 2 ^ j) < 256
bit_and-lt b j hb hj = ground (
  arith,
  all_triples_sound
      (λ b j k. if ltb (bit_or b (2 ^ j)) 256 then ltb (bit_and b (255 - 2 ^ j)) 256 else false)
      byte_table b j 0 hb hj,
)

-- A byte of ones.
ones_table : all_below 8 (λ k. eqb (is_clear 255 k) false) ≡ true
unfolding all_below
ones_table = refl

pub ones-set : (k : ℕ) → k < 8 → (bit_and 255 (2 ^ k) == 0) ≡ false
ones-set k h = eqb→eq _ _ (all_below_sound 8 (λ k. eqb (is_clear 255 k) false) k ones_table h)

zeros_table : all_below 8 (λ k. is_clear 0 k) ≡ true
unfolding all_below
zeros_table = refl

pub zeros-clear : (k : ℕ) → k < 8 → (bit_and 0 (2 ^ k) == 0) ≡ true
zeros-clear k h = all_below_sound 8 (λ k. is_clear 0 k) k zeros_table h
