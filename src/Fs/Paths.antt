-- ===== src/Fs/Paths.antt =====
-- What kernel/fs/fs.c uses of <string.h>. A string is the list of its bytes before the NUL.
use fg_os.Base.{
  ℕ, zero, suc, ◌≡◌, ◌<◌, refl, ap, ◌↔◌, arith, Bool, true, false, ◌&&◌, ◌==◌, List, [], ◌∷◌, ◌++◌,
  length,
}

-- strcmp(a, b) == 0
unfoldable pub strcmp_equal : (a b : List ℕ) → Bool
strcmp_equal [] [] = true
strcmp_equal [] (_ ∷ _) = false
strcmp_equal (_ ∷ _) [] = false
strcmp_equal (x ∷ a) (y ∷ b) = x == y && strcmp_equal a b

-- strncmp(a, b, n) == 0
unfoldable pub strncmp_equal : (n : ℕ) (a b : List ℕ) → Bool
strncmp_equal zero a b = true
strncmp_equal (suc n) [] [] = true
strncmp_equal (suc n) [] (_ ∷ _) = false
strncmp_equal (suc n) (_ ∷ _) [] = false
strncmp_equal (suc n) (x ∷ a) (y ∷ b) = x == y && strncmp_equal n a b

-- The string in a buffer after strncpy(buffer, src, n), where `rest` is the string that begins at
-- buffer + n.
unfoldable pub strncpy_string : (n : ℕ) (src rest : List ℕ) → List ℕ
strncpy_string zero src rest = rest
strncpy_string (suc n) [] rest = []
strncpy_string (suc n) (x ∷ src) rest = x ∷ strncpy_string n src rest

pub strcmp_equal→eq : (a b : List ℕ) → strcmp_equal a b ≡ true → a ≡ b
unfolding strcmp_equal
strcmp_equal→eq [] [] h = refl
strcmp_equal→eq [] (y ∷ b) h = ground arith
strcmp_equal→eq (x ∷ a) [] h = ground arith
strcmp_equal→eq (x ∷ a) (y ∷ b) h = ground (arith, strcmp_equal→eq a b)

pub strcmp_equal_self : (a : List ℕ) → strcmp_equal a a ≡ true
unfolding strcmp_equal
strcmp_equal_self [] = refl
strcmp_equal_self (x ∷ a) = ground (arith, strcmp_equal_self a)

-- The path begins with the string.
abbrev pub StartsWith : (path prefix : List ℕ) → Type 0
StartsWith path prefix = (rest : List ℕ) × (path ≡ prefix ++ rest)

pub strncmp_equal-length-StartsWith :
    (path prefix : List ℕ)
    → (strncmp_equal (length prefix) path prefix ≡ true) ↔ StartsWith path prefix
unfolding strncmp_equal
strncmp_equal-length-StartsWith path [] = ((λ _. (path, refl)), λ _. refl)
strncmp_equal-length-StartsWith [] (y ∷ prefix) = ((λ h. ground arith), λ h. let e = h.1 in cc)
strncmp_equal-length-StartsWith (x ∷ path) (y ∷ prefix) =
    let ih = strncmp_equal-length-StartsWith path prefix in
    (
      (λ h.
          let same : strncmp_equal (length prefix) path prefix ≡ true = ground arith in
          let first : x ≡ y = ground arith in
          ((ih.0 same).0, let e = (ih.0 same).1 in ground arith)),
      (λ h.
          let e = h.1 in
          let tail : path ≡ prefix ++ h.0 = ground arith in
          let first : x ≡ y = ground arith in let same = ih.1 (h.0, tail) in ground arith),
    )

-- A buffer that is long enough holds the string that is copied to it.
pub strncpy_string_short :
    (n : ℕ) (src rest : List ℕ) → length src < n → strncpy_string n src rest ≡ src
unfolding strncpy_string
strncpy_string_short zero src rest h = absurd (omega arith)
strncpy_string_short (suc n) [] rest h = refl
strncpy_string_short (suc n) (x ∷ src) rest h =
    ap (λ (t : List ℕ). x ∷ t) (strncpy_string_short n src rest (omega arith))
