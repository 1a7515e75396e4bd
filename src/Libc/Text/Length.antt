-- ===== src/Libc/Text/Length.antt =====
-- Texts in memory, and their length.
use haskell_os.Base.{
  ℕ, zero, suc, ◌+◌, ◌<◌, ◌≤◌, ◌≡◌, ◌≢◌, ◌∙◌, ap, ◌⊎◌, arith, List, [], ◌∷◌, length, some,
}
use haskell_os.Hal.Heap.{Memory, store8}
use haskell_os.Libc.Text.{strlen_loop, strlen, skip}

-- At `p` stand the bytes `xs`, none of them 0, and then a 0.
abbrev pub IsText : Memory → ℕ → List ℕ → Type 0
IsText m p [] = m p ≡ 0
IsText m p (x ∷ xs) = (m p ≡ x) × (x ≢ 0) × IsText m (p + 1) xs

-- A store outside a text and its zero leaves it.
pub IsText-store8 :
    (xs : List ℕ) (m : Memory) (p a v : ℕ)
    → IsText m p xs
    → (a < p) ⊎ (p + length xs < a)
    → IsText (store8 m a v) p xs
IsText-store8 [] m p a v t h = ground arith
IsText-store8 (x ∷ xs) m p a v t h =
    (ground arith, t.1, IsText-store8 xs m (p + 1) a v t.2 (ground arith))

-- A memory that agrees on a text and its zero holds it too.
pub IsText-moved :
    (xs : List ℕ) (m m' : Memory) (p p' : ℕ)
    → IsText m p xs
    → ((i : ℕ) → i ≤ length xs → m' (p' + i) ≡ m (p + i))
    → IsText m' p' xs
IsText-moved [] m m' p p' t h =
    ground (
      arith,
      h 0,
      ap m {x = p + 0} {y = p} (omega arith),
      ap m' {x = p' + 0} {y = p'} (omega arith),
    )
IsText-moved (x ∷ xs) m m' p p' t h = (
  ground (
    arith,
    h 0,
    ap m {x = p + 0} {y = p} (omega arith),
    ap m' {x = p' + 0} {y = p'} (omega arith),
  ),
  t.1,
  IsText-moved xs m m' (p + 1) (p' + 1) t.2 (λ i l.
      ap m' {x = p' + 1 + i} {y = p' + (i + 1)} (omega arith)
      ∙ h (i + 1) (omega arith)
      ∙ ap m {x = p + (i + 1)} {y = p + 1 + i} (omega arith)),
)

strlen_loop-length :
    (xs : List ℕ) (fuel : ℕ) (m : Memory) (s n : ℕ)
    → IsText m s xs
    → length xs < fuel
    → strlen_loop fuel m s n ≡ some (n + length xs)
unfolding strlen_loop
strlen_loop-length [] zero m s n t h = absurd (omega arith)
strlen_loop-length [] (suc fuel) m s n t h = ground arith
strlen_loop-length (x ∷ xs) zero m s n t h = absurd (omega arith)
strlen_loop-length (x ∷ xs) (suc fuel) m s n t h =
    ground (arith, strlen_loop-length xs fuel m (s + 1) (n + 1) t.2)

-- `strlen` of a text is its length, with more fuel than that.
pub strlen-length :
    (xs : List ℕ) (fuel : ℕ) (m : Memory) (s : ℕ)
    → IsText m s xs
    → length xs < fuel
    → strlen fuel m s ≡ some (length xs)
unfolding strlen
strlen-length xs fuel m s t h = strlen_loop-length xs fuel m s 0 t h ∙ ap some (omega arith)

pub skip-length :
    (xs : List ℕ) (fuel : ℕ) (m : Memory) (s : ℕ)
    → IsText m s xs
    → length xs < fuel
    → skip fuel m s ≡ some (s + length xs)
unfolding skip
skip-length [] zero m s t h = absurd (omega arith)
skip-length [] (suc fuel) m s t h = ground arith
skip-length (x ∷ xs) zero m s t h = absurd (omega arith)
skip-length (x ∷ xs) (suc fuel) m s t h = ground (arith, skip-length xs fuel m (s + 1) t.2)
