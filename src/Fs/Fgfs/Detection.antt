-- ===== src/Fs/Fgfs/Detection.antt =====
-- kernel/fs/fgfs.c: which changes of the data fgfs_verify_checksum notices, and which it does not.
use fg_os.Base.{
  ℕ, zero, suc, ◌+◌, ◌*◌, ◌/◌, ◌%◌, ◌^◌, ◌≤◌, ◌<◌, ◌==◌, ◌≡◌, ◌≢◌, refl, sym, ap, subst, ◌∙◌, arith,
  bit_xor, false, ◌||◌, Bool-cases, inl, inr, add32, if_true, if_false, ne→==,
}
use fg_os.Base.Xor.{bit_xor-lt, zero-bit_xor, bit_xor_comm, bit_xor_involutive, bit_xor-high}
use fg_os.Memory.Bytes.{Mem}
use fg_os.Fs.Fgfs.Checksum.{
  crc_step, crc_loop, sum_loop, fgfs_calculate_checksum, fgfs_verify_checksum,
}

-- The checksum moves up by a byte, and the byte that falls out meets the new one at the bottom.
pub crc_step_lem :
    (c b : ℕ) → c < 2 ^ 32 → b < 2 ^ 8 → crc_step c b ≡ c % 2 ^ 24 * 2 ^ 8 + bit_xor b (c / 2 ^ 24)
unfolding crc_step
crc_step_lem c b hc hb =
    let e : c * 2 ^ 8 % 2 ^ 32 ≡ c % 2 ^ 24 * 2 ^ 8 + 0 = omega arith in
    let inner = ap (λ (t : ℕ). bit_xor t b) e ∙ bit_xor-high 8 (c % 2 ^ 24) 0 b (omega arith) hb in
    let plain : c % 2 ^ 24 * 2 ^ 8 + bit_xor 0 b ≡ c % 2 ^ 24 * 2 ^ 8 + b =
      ap (λ (t : ℕ). c % 2 ^ 24 * 2 ^ 8 + t) (zero-bit_xor b) in
    ap (λ (t : ℕ). bit_xor t (c / 2 ^ 24)) (inner ∙ plain)
    ∙ bit_xor-high 8 (c % 2 ^ 24) b (c / 2 ^ 24) hb (omega arith)

pub crc_step-lt : (c b : ℕ) → c < 2 ^ 32 → b < 2 ^ 8 → crc_step c b < 2 ^ 32
crc_step-lt c b hc hb =
    omega (arith, crc_step_lem c b hc hb, bit_xor-lt 8 b (c / 2 ^ 24) hb (omega arith))

-- Different checksums stay different over the same byte, and different bytes make them different.
crc_step-injective :
    (c c' b : ℕ) → c < 2 ^ 32 → c' < 2 ^ 32 → b < 2 ^ 8 → crc_step c b ≡ crc_step c' b → c ≡ c'
crc_step-injective c c' b hc hc' hb e =
    let h = c / 2 ^ 24 in
    let h' = c' / 2 ^ 24 in
    let low = bit_xor-lt 8 b h hb (omega arith) in
    let low' = bit_xor-lt 8 b h' hb (omega arith) in
    let same : bit_xor b h ≡ bit_xor b h' =
      omega (arith, crc_step_lem c b hc hb, crc_step_lem c' b hc' hb) in
    let back : h ≡ h' =
      sym (bit_xor_involutive 8 b h hb (omega arith))
      ∙ ap (bit_xor b) same
      ∙ bit_xor_involutive 8 b h' hb (omega arith) in
    omega (arith, crc_step_lem c b hc hb, crc_step_lem c' b hc' hb)

crc_step-ne :
    (c b b' : ℕ) → c < 2 ^ 32 → b < 2 ^ 8 → b' < 2 ^ 8 → crc_step c b ≡ crc_step c b' → b ≡ b'
crc_step-ne c b b' hc hb hb' e =
    let h = c / 2 ^ 24 in
    let hh : h < 2 ^ 8 = omega arith in
    let same : bit_xor b h ≡ bit_xor b' h =
      omega (arith, crc_step_lem c b hc hb, crc_step_lem c b' hc hb') in
    sym (bit_xor_involutive 8 h b hh hb)
    ∙ ap (bit_xor h) (bit_xor_comm 8 h b hh hb ∙ same ∙ bit_xor_comm 8 b' h hb' hh)
    ∙ bit_xor_involutive 8 h b' hh hb'

-- Both loops are this one, each with its step.
fold_bytes : (step : ℕ → ℕ → ℕ) (n i bytes checksum : ℕ) → Mem → ℕ
fold_bytes step zero i bytes checksum m = checksum
fold_bytes step (suc n) i bytes checksum m =
    fold_bytes step n (suc i) bytes (step checksum (m (bytes + i))) m

crc_loop-fold_bytes :
    (n i bytes c : ℕ) (m : Mem) → crc_loop n i bytes c m ≡ fold_bytes crc_step n i bytes c m
unfolding crc_loop fold_bytes
crc_loop-fold_bytes zero i bytes c m = refl
crc_loop-fold_bytes (suc n) i bytes c m = crc_loop-fold_bytes n (suc i) bytes _ m

sum_loop-fold_bytes :
    (n i bytes c : ℕ) (m : Mem) → sum_loop n i bytes c m ≡ fold_bytes add32 n i bytes c m
unfolding sum_loop fold_bytes
sum_loop-fold_bytes zero i bytes c m = refl
sum_loop-fold_bytes (suc n) i bytes c m = sum_loop-fold_bytes n (suc i) bytes _ m

-- A step that keeps to 32 bits, and that loses neither the checksum so far nor the new byte.
record IsFaithful (step : ℕ → ℕ → ℕ) : Type 0 where
  small : (c b : ℕ) → c < 2 ^ 32 → b < 2 ^ 8 → step c b < 2 ^ 32
  keeps : (c c' b : ℕ) → c < 2 ^ 32 → c' < 2 ^ 32 → b < 2 ^ 8 → step c b ≡ step c' b → c ≡ c'
  takes : (c b b' : ℕ) → c < 2 ^ 32 → b < 2 ^ 8 → b' < 2 ^ 8 → step c b ≡ step c b' → b ≡ b'

crc_step-IsFaithful : IsFaithful crc_step
crc_step-IsFaithful = record {
  small = crc_step-lt;
  keeps = crc_step-injective;
  takes = crc_step-ne;
}

add32-IsFaithful : IsFaithful add32
add32-IsFaithful = record {
  small = λ c b hc hb. omega arith;
  keeps = λ c c' b hc hc' hb e. omega arith;
  takes = λ c b b' hc hb hb' e. omega arith;
}

-- Every cell of the memory holds a byte.
abbrev pub Bytes : Mem → Type 0
Bytes m = (q : ℕ) → m q < 2 ^ 8

module _ (step : ℕ → ℕ → ℕ) (S : IsFaithful step) (bytes : ℕ) (m m' : Mem) (B : Bytes m)
    (B' : Bytes m') where
  fold_bytes-ne :
      (n i c c' : ℕ)
      → c < 2 ^ 32
      → c' < 2 ^ 32
      → ((k : ℕ) → i ≤ k → k < i + n → m (bytes + k) ≡ m' (bytes + k))
      → c ≢ c'
      → fold_bytes step n i bytes c m ≢ fold_bytes step n i bytes c' m'
  unfolding fold_bytes
  fold_bytes-ne zero i c c' hc hc' agree ne = ne
  fold_bytes-ne (suc n) i c c' hc hc' agree ne =
      fold_bytes-ne n (suc i) (step c (m (bytes + i))) (step c' (m' (bytes + i)))
        (S.small c _ hc (B (bytes + i))) (S.small c' _ hc' (B' (bytes + i)))
        (λ k lo hi. agree k (omega arith) (omega arith))
        (λ e. ne (
          S.keeps c c' (m (bytes + i)) hc hc' (B (bytes + i))
            (e ∙ ap (step c') (sym (agree i (omega arith) (omega arith))))))

  fold_bytes-detects :
      (n i j c : ℕ)
      → c < 2 ^ 32
      → i ≤ j
      → j < i + n
      → m (bytes + j) ≢ m' (bytes + j)
      → ((k : ℕ) → k ≢ j → m (bytes + k) ≡ m' (bytes + k))
      → fold_bytes step n i bytes c m ≢ fold_bytes step n i bytes c m'
  unfolding fold_bytes
  fold_bytes-detects zero i j c hc lo hi change same = absurd (omega arith)
  fold_bytes-detects (suc n) i j c hc lo hi change same = elim (Bool-cases (i == j)) [
    | inl e ↦
        let here : i ≡ j = ground arith in
        let here_change : m (bytes + i) ≢ m' (bytes + i) =
          subst (λ q. m (bytes + q) ≢ m' (bytes + q)) (sym here) change in
        fold_bytes-ne n (suc i) _ _ (S.small c _ hc (B (bytes + i)))
          (S.small c _ hc (B' (bytes + i))) (λ k below above. same k (λ z. absurd (omega arith)))
          (λ e. here_change (S.takes c _ _ hc (B (bytes + i)) (B' (bytes + i)) e))
    | inr e ↦
        let ne : i ≢ j = ground arith in
        let next =
          fold_bytes-detects n (suc i) j (step c (m (bytes + i))) (S.small c _ hc (B (bytes + i)))
            (omega arith) (omega arith) change same in
        subst
          (λ b.
            fold_bytes step n (suc i) bytes (step c (m (bytes + i))) m
            ≢ fold_bytes step n (suc i) bytes (step c b) m')
          (same i ne) next
  ]

-- Where exactly one byte of the data is changed, fgfs_verify_checksum rejects the changed data with
-- the checksum of the old data, for every type of checksum.
pub fgfs_verify_checksum_detects :
    (bytes size type j : ℕ) (m m' : Mem)
    → Bytes m
    → Bytes m'
    → bytes ≢ 0
    → j < size
    → m (bytes + j) ≢ m' (bytes + j)
    → ((k : ℕ) → k ≢ j → m (bytes + k) ≡ m' (bytes + k))
    → fgfs_verify_checksum bytes size (fgfs_calculate_checksum bytes size type m) type m' ≡ false
unfolding fgfs_verify_checksum fgfs_calculate_checksum
fgfs_verify_checksum_detects bytes size type j m m' B B' real inside change same =
    let given : (bytes == 0 || size == 0) ≡ false = ground arith in
    let crc : crc_loop size 0 bytes 0 m' ≢ crc_loop size 0 bytes 0 m = λ e.
      fold_bytes-detects crc_step crc_step-IsFaithful bytes m m' B B' size 0 j 0 (omega arith)
        (omega arith) (omega arith) change same
        (sym (crc_loop-fold_bytes size 0 bytes 0 m)
          ∙ sym e
          ∙ crc_loop-fold_bytes size 0 bytes 0 m') in
    let sum : sum_loop size 0 bytes 0 m' ≢ sum_loop size 0 bytes 0 m = λ e.
      fold_bytes-detects add32 add32-IsFaithful bytes m m' B B' size 0 j 0 (omega arith)
        (omega arith) (omega arith) change same
        (sym (sum_loop-fold_bytes size 0 bytes 0 m)
          ∙ sym e
          ∙ sum_loop-fold_bytes size 0 bytes 0 m') in
    elim (Bool-cases (type == 1)) [
      | inl e ↦ ne→== _ _ (λ z. crc (
          sym (if_false _ _ _ given ∙ if_true _ _ _ e)
          ∙ z
          ∙ if_false _ _ _ given
          ∙ if_true _ _ _ e))
      | inr e ↦ ne→== _ _ (λ z. sum (
          sym (if_false _ _ _ given ∙ if_false _ _ _ e)
          ∙ z
          ∙ if_false _ _ _ given
          ∙ if_false _ _ _ e))
    ]
