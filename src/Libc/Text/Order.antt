-- ===== src/Libc/Text/Order.antt =====
-- `strcmp` and `strncmp` order texts by their first difference.
use haskell_os.Base.{
  ℕ, zero, suc, ◌+◌, ◌<◌, ◌≡◌, refl, arith, ◌==◌, List, [], ◌∷◌, length, take, some, if◌then◌else◌,
}
use haskell_os.Base.Int.{ℤ}
use haskell_os.Hal.Heap.{Memory}
use haskell_os.Libc.Memory.{byte_diff}
use haskell_os.Libc.Memory.Compare.{lexicographic, sign_of, sign_of-byte_diff}
use haskell_os.Libc.Text.{strcmp, strncmp}
use haskell_os.Libc.Text.Length.{IsText}

-- `strcmp` of two texts returns, and its sign is their lexicographic order.
pub strcmp-lexicographic :
    (xs ys : List ℕ) (fuel : ℕ) (m : Memory) (a b : ℕ)
    → IsText m a xs
    → IsText m b ys
    → length xs < fuel
    → (r : ℤ) × (strcmp fuel m a b ≡ some r) × (sign_of r ≡ lexicographic xs ys)
unfolding strcmp
strcmp-lexicographic xs ys zero m a b s t h = absurd (omega arith)
strcmp-lexicographic [] [] (suc fuel) m a b s t h =
    (byte_diff (m a) (m b), ground arith, ground (arith, sign_of-byte_diff (m a) (m b)))
strcmp-lexicographic [] (y ∷ ys) (suc fuel) m a b s t h =
    (byte_diff (m a) (m b), ground arith, ground (arith, sign_of-byte_diff (m a) (m b)))
strcmp-lexicographic (x ∷ xs) [] (suc fuel) m a b s t h =
    (byte_diff (m a) (m b), ground arith, ground (arith, sign_of-byte_diff (m a) (m b)))
strcmp-lexicographic (x ∷ xs) (y ∷ ys) (suc fuel) m a b s t h =
    let (r, e, o) = strcmp-lexicographic xs ys fuel m (a + 1) (b + 1) s.2 t.2 (omega arith) in
    (
      if x == y then r else byte_diff (m a) (m b),
      ground arith,
      ground (arith, sign_of-byte_diff (m a) (m b)),
    )

-- `strncmp` compares the first `n` bytes of two texts, and its sign is the order of those.
pub strncmp-lexicographic :
    (n : ℕ) (xs ys : List ℕ) (m : Memory) (a b : ℕ)
    → IsText m a xs
    → IsText m b ys
    → sign_of (strncmp m a b n) ≡ lexicographic (take n xs) (take n ys)
unfolding strncmp
strncmp-lexicographic zero xs ys m a b s t = refl
strncmp-lexicographic (suc n) [] [] m a b s t = ground (arith, sign_of-byte_diff (m a) (m b))
strncmp-lexicographic (suc n) [] (y ∷ ys) m a b s t = ground (arith, sign_of-byte_diff (m a) (m b))
strncmp-lexicographic (suc n) (x ∷ xs) [] m a b s t = ground (arith, sign_of-byte_diff (m a) (m b))
strncmp-lexicographic (suc n) (x ∷ xs) (y ∷ ys) m a b s t =
    ground (
      arith,
      sign_of-byte_diff (m a) (m b),
      strncmp-lexicographic n xs ys m (a + 1) (b + 1) s.2 t.2,
    )
