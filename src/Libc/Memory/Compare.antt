-- ===== src/Libc/Memory/Compare.antt =====
-- `memcmp` orders two objects by their first difference.
use haskell_os.Base.{
  ℕ, zero, suc, ◌+◌, ◌-◌, ◌<◌, ◌≡◌, refl, arith, ltb, if◌then◌else◌, List, [], ◌∷◌,
}
use haskell_os.Base.Int.{ℤ, pos, negsuc, minus}
use haskell_os.Hal.Heap.{Memory}
use haskell_os.Libc.Memory.{byte_diff, memcmp}

-- The `n` bytes from `p` on.
abbrev pub bytes_at : Memory → ℕ → ℕ → List ℕ
bytes_at m p zero = []
bytes_at m p (suc n) = m p ∷ bytes_at m (p + 1) n

-- How two texts compare: by their first difference, and a proper prefix is less.
pub data Order : Type 0 where
  less same more : Order

abbrev pub lexicographic : List ℕ → List ℕ → Order
lexicographic [] [] = same
lexicographic [] (b ∷ bs) = less
lexicographic (a ∷ as') [] = more
lexicographic (a ∷ as') (b ∷ bs) =
    if ltb a b then less else if ltb b a then more else lexicographic as' bs

abbrev pub sign_of : ℤ → Order
sign_of (negsuc n) = less
sign_of (pos zero) = same
sign_of (pos (suc n)) = more

sign_of-minus : (n : ℕ) → 0 < n → sign_of (minus n) ≡ less
sign_of-minus zero h = absurd (omega arith)
sign_of-minus (suc n) h = refl

sign_of-pos : (n : ℕ) → 0 < n → sign_of (pos n) ≡ more
sign_of-pos zero h = absurd (omega arith)
sign_of-pos (suc n) h = refl

pub sign_of-byte_diff :
    (a b : ℕ) → sign_of (byte_diff a b) ≡ (if ltb a b then less else if ltb b a then more else same)
sign_of-byte_diff a b = ground (arith, sign_of-minus (b - a), sign_of-pos (a - b))

-- The sign of `memcmp` is the lexicographic order of the two objects' bytes.
pub memcmp-lexicographic :
    (n : ℕ) (m : Memory) (a b : ℕ)
    → sign_of (memcmp m a b n) ≡ lexicographic (bytes_at m a n) (bytes_at m b n)
unfolding memcmp
memcmp-lexicographic zero m a b = refl
memcmp-lexicographic (suc n) m a b =
    ground (arith, sign_of-byte_diff (m a) (m b), memcmp-lexicographic n m (a + 1) (b + 1))
