-- ===== src/Fs/Fgfs/Collision.antt =====
-- kernel/fs/fgfs.c: the checksum called CRC32 depends on the place of a byte only modulo 4.
use fg_os.Base.{
  ℕ, zero, suc, ◌+◌, ◌-◌, ◌*◌, ◌/◌, ◌%◌, ◌^◌, ◌≤◌, ◌<◌, ◌==◌, ◌≡◌, ◌≢◌, refl, sym, ap, ◌∙◌, arith,
  bit_xor, true, ◌||◌, if◌then◌else◌, eq→==,
}
use fg_os.Base.Xor.{bit_xor-lt, bit_xor_left_comm}
use fg_os.Memory.Bytes.{Mem}
use fg_os.Fs.Fgfs.Checksum.{crc_step, crc_loop, fgfs_calculate_checksum, fgfs_verify_checksum}
use fg_os.Fs.Fgfs.Detection.{Bytes, crc_step_lem, crc_step-lt}

-- The four bytes of a checksum, the highest first.
abbrev pack : (a b c d : ℕ) → ℕ
pack a b c d = a * 2 ^ 24 + b * 2 ^ 16 + c * 2 ^ 8 + d

crc_step-pack :
    (a b c d x : ℕ)
    → a < 2 ^ 8
    → b < 2 ^ 8
    → c < 2 ^ 8
    → d < 2 ^ 8
    → x < 2 ^ 8
    → crc_step (pack a b c d) x ≡ pack b c d (bit_xor x a)
crc_step-pack a b c d x ha hb hc hd hx =
    let top : pack a b c d / 2 ^ 24 ≡ a = omega arith in
    let low : pack a b c d % 2 ^ 24 * 2 ^ 8 ≡ b * 2 ^ 24 + c * 2 ^ 16 + d * 2 ^ 8 = omega arith in
    omega (arith, crc_step_lem (pack a b c d) x (omega arith) hx, ap (bit_xor x) top, low)

-- Five bytes x, y, z, w and v.
five : (c x y z w v : ℕ) → ℕ
five c x y z w v = crc_step (crc_step (crc_step (crc_step (crc_step c x) y) z) w) v

five-pack :
    (a b c d x y z w v : ℕ)
    → a < 2 ^ 8
    → b < 2 ^ 8
    → c < 2 ^ 8
    → d < 2 ^ 8
    → x < 2 ^ 8
    → y < 2 ^ 8
    → z < 2 ^ 8
    → w < 2 ^ 8
    → v < 2 ^ 8
    → five (pack a b c d) x y z w v
      ≡ pack (bit_xor y b) (bit_xor z c) (bit_xor w d) (bit_xor v (bit_xor x a))
unfolding five
five-pack a b c d x y z w v ha hb hc hd hx hy hz hw hv =
    let hp = bit_xor-lt 8 x a hx ha in
    let hq = bit_xor-lt 8 y b hy hb in
    let hr = bit_xor-lt 8 z c hz hc in
    let hs = bit_xor-lt 8 w d hw hd in
    rw
      (
        crc_step-pack a b c d x ha hb hc hd hx,
        crc_step-pack b c d (bit_xor x a) y hb hc hd hp hy,
        crc_step-pack c d (bit_xor x a) (bit_xor y b) z hc hd hp hq hz,
        crc_step-pack d (bit_xor x a) (bit_xor y b) (bit_xor z c) w hd hp hq hr hw,
        crc_step-pack (bit_xor x a) (bit_xor y b) (bit_xor z c) (bit_xor w d) v hp hq hr hs hv,
      )
      refl

five-swap :
    (c x y z w v : ℕ)
    → c < 2 ^ 32
    → x < 2 ^ 8
    → y < 2 ^ 8
    → z < 2 ^ 8
    → w < 2 ^ 8
    → v < 2 ^ 8
    → five c x y z w v ≡ five c v y z w x
five-swap e x y z w v he hx hy hz hw hv =
    let a = e / 2 ^ 24 in
    let b = e / 2 ^ 16 % 2 ^ 8 in
    let c = e / 2 ^ 8 % 2 ^ 8 in
    let d = e % 2 ^ 8 in
    let ha : a < 2 ^ 8 = omega arith in
    let hb : b < 2 ^ 8 = omega arith in
    let hc : c < 2 ^ 8 = omega arith in
    let hd : d < 2 ^ 8 = omega arith in
    let parts : e ≡ pack a b c d = omega arith in
    ap (λ (t : ℕ). five t x y z w v) parts
    ∙ five-pack a b c d x y z w v ha hb hc hd hx hy hz hw hv
    ∙ ap (pack (bit_xor y b) (bit_xor z c) (bit_xor w d)) (bit_xor_left_comm 8 v x a hv hx ha)
    ∙ sym (five-pack a b c d v y z w x ha hb hc hd hv hy hz hw hx)
    ∙ ap (λ (t : ℕ). five t v y z w x) (sym parts)

crc_loop-lt : (n i bytes c : ℕ) (m : Mem) → Bytes m → c < 2 ^ 32 → crc_loop n i bytes c m < 2 ^ 32
unfolding crc_loop
crc_loop-lt zero i bytes c m B h = h
crc_loop-lt (suc n) i bytes c m B h =
    crc_loop-lt n (suc i) bytes _ m B (crc_step-lt c (m (bytes + i)) h (B (bytes + i)))

crc_loop-agree :
    (n i bytes c : ℕ) (m m' : Mem)
    → ((k : ℕ) → i ≤ k → k < i + n → m (bytes + k) ≡ m' (bytes + k))
    → crc_loop n i bytes c m ≡ crc_loop n i bytes c m'
unfolding crc_loop
crc_loop-agree zero i bytes c m m' agree = refl
crc_loop-agree (suc n) i bytes c m m' agree =
    ap (λ (b : ℕ). crc_loop n (suc i) bytes (crc_step c b) m) (agree i (omega arith) (omega arith))
    ∙ crc_loop-agree n (suc i) bytes (crc_step c (m' (bytes + i))) m m'
        (λ k lo hi. agree k (omega arith) (omega arith))

crc_loop-add :
    (a n i bytes c : ℕ) (m : Mem)
    → crc_loop (a + n) i bytes c m ≡ crc_loop n (i + a) bytes (crc_loop a i bytes c m) m
unfolding crc_loop
crc_loop-add zero n i bytes c m =
    let e : 0 + n ≡ n = omega arith in
    let f : i ≡ i + 0 = omega arith in
    ap (λ (k : ℕ). crc_loop k i bytes c m) e ∙ ap (λ (k : ℕ). crc_loop n k bytes c m) f
crc_loop-add (suc a) n i bytes c m =
    let e : suc a + n ≡ suc (a + n) = omega arith in
    let f : suc i + a ≡ i + suc a = omega arith in
    ap (λ (k : ℕ). crc_loop k i bytes c m) e
    ∙ crc_loop-add a n (suc i) bytes (crc_step c (m (bytes + i))) m
    ∙ ap (λ (k : ℕ). crc_loop n k bytes (crc_loop a (suc i) bytes (crc_step c (m (bytes + i))) m) m)
        f

-- Two memories with the bytes i and i + 4 exchanged.
pub record Exchanged (bytes i : ℕ) (m m' : Mem) : Type 0 where
  pub first : m' (bytes + i) ≡ m (bytes + (i + 4))
  pub last : m' (bytes + (i + 4)) ≡ m (bytes + i)
  pub others : (k : ℕ) → k ≢ i → k ≢ i + 4 → m (bytes + k) ≡ m' (bytes + k)

-- One round.
crc_loop-suc :
    (n i bytes c : ℕ) (m : Mem)
    → crc_loop (suc n) i bytes c m ≡ crc_loop n (suc i) bytes (crc_step c (m (bytes + i))) m
unfolding crc_loop
crc_loop-suc n i bytes c m = refl

crc_loop-Exchanged :
    (n i bytes c : ℕ) (m m' : Mem)
    → Bytes m
    → Bytes m'
    → c < 2 ^ 32
    → Exchanged bytes i m m'
    → crc_loop (suc (suc (suc (suc (suc n))))) i bytes c m
      ≡ crc_loop (suc (suc (suc (suc (suc n))))) i bytes c m'
unfolding crc_loop five
crc_loop-Exchanged n i bytes c m m' B B' h X =
    let at : ℕ → ℕ = λ k. m (bytes + k) in
    let at' : ℕ → ℕ = λ k. m' (bytes + k) in
    let end : suc (suc (suc (suc i))) ≡ i + 4 = omega arith in
    let last_old : at (suc (suc (suc (suc i)))) ≡ at' i = ap at end ∙ sym X.first in
    let last_new : at i ≡ at' (suc (suc (suc (suc i)))) = sym X.last ∙ ap at' (sym end) in
    let y = X.others (suc i) (omega arith) (omega arith) in
    let z = X.others (suc (suc i)) (omega arith) (omega arith) in
    let w = X.others (suc (suc (suc i))) (omega arith) (omega arith) in
    let swapped =
      five-swap c (at i) (at (suc i)) (at (suc (suc i))) (at (suc (suc (suc i))))
        (at (suc (suc (suc (suc i))))) h (B _) (B _) (B _) (B _) (B _) in
    let middle : five c (at (suc (suc (suc (suc i))))) (at (suc i)) (at (suc (suc i)))
          (at (suc (suc (suc i)))) (at i)
        ≡ five c (at' i) (at' (suc i)) (at' (suc (suc i))) (at' (suc (suc (suc i))))
            (at' (suc (suc (suc (suc i))))) =
      cc in
    ap (λ (t : ℕ). crc_loop n (suc (suc (suc (suc (suc i))))) bytes t m) (swapped ∙ middle)
    ∙ crc_loop-agree n (suc (suc (suc (suc (suc i))))) bytes _ m m'
        (λ k lo hi. X.others k (omega arith) (omega arith))

-- Bytes that are four places apart can be exchanged: fgfs_verify_checksum with the type CRC32
-- accepts the changed data with the checksum of the old data.
pub fgfs_verify_checksum-Exchanged :
    (bytes size i : ℕ) (m m' : Mem)
    → Bytes m
    → Bytes m'
    → i + 4 < size
    → Exchanged bytes i m m'
    → fgfs_verify_checksum bytes size (fgfs_calculate_checksum bytes size 1 m) 1 m' ≡ true
unfolding fgfs_verify_checksum fgfs_calculate_checksum
fgfs_verify_checksum-Exchanged bytes size i m m' B B' inside X =
    let n = size - i - 5 in
    let tail = suc (suc (suc (suc (suc n)))) in
    let whole : size ≡ i + tail = omega arith in
    let prefix : crc_loop i 0 bytes 0 m ≡ crc_loop i 0 bytes 0 m' =
      crc_loop-agree i 0 bytes 0 m m' (λ k lo hi. X.others k (omega arith) (omega arith)) in
    let start : 0 + i ≡ i = omega arith in
    let same : crc_loop size 0 bytes 0 m ≡ crc_loop size 0 bytes 0 m' =
      ap (λ (k : ℕ). crc_loop k 0 bytes 0 m) whole
      ∙ crc_loop-add i tail 0 bytes 0 m
      ∙ ap (λ (k : ℕ). crc_loop tail k bytes (crc_loop i 0 bytes 0 m) m) start
      ∙ crc_loop-Exchanged n i bytes (crc_loop i 0 bytes 0 m) m m' B B'
          (crc_loop-lt i 0 bytes 0 m B (omega arith)) X
      ∙ ap (λ (t : ℕ). crc_loop tail i bytes t m') prefix
      ∙ ap (λ (k : ℕ). crc_loop tail k bytes (crc_loop i 0 bytes 0 m') m') (sym start)
      ∙ sym (crc_loop-add i tail 0 bytes 0 m')
      ∙ ap (λ (k : ℕ). crc_loop k 0 bytes 0 m') (sym whole) in
    eq→== _ _ (ap (λ (t : ℕ). if bytes == 0 || size == 0 then 0 else t) (sym same))
