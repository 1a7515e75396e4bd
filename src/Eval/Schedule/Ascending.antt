-- ===== src/Eval/Schedule/Ascending.antt =====
-- The order of the wakeup times in `timeq` of c/eval.c, and where a thread is placed in it.
use haskell_os.Base.{
  ℕ, ◌≡◌, refl, arith, if◌then◌else◌, true, false, List, [], ◌∷◌, Bool-cases, inl, inr,
}
use haskell_os.Base.Int.{ℤ, pos, negsuc}
use haskell_os.Eval.Schedule.{is_due, is_before}

-- The thread `a` stands before the first that does not wake earlier.
abbrev pub place : (ℕ → ℤ) → ℕ → List ℕ → List ℕ
place at a [] = a ∷ []
place at a (y ∷ ys) = if is_before (at a) (at y) then a ∷ y ∷ ys else y ∷ place at a ys

abbrev pub Ascends : (ℕ → ℤ) → ℤ → List ℕ → Type 0
Ascends at low [] = Unit
Ascends at low (x ∷ xs) = (is_before low (at x) ≡ true) × Ascends at (at x) xs

-- Each thread wakes no earlier than the one before it.
abbrev pub IsAscending : (ℕ → ℤ) → List ℕ → Type 0
IsAscending at [] = Unit
IsAscending at (x ∷ xs) = Ascends at (at x) xs

is_before_total : (a b : ℤ) → is_before a b ≡ false → is_before b a ≡ true
unfolding is_before is_due
is_before_total (pos a) (pos b) h = ground arith
is_before_total (pos a) (negsuc b) h = refl
is_before_total (negsuc a) (pos b) h = cc
is_before_total (negsuc a) (negsuc b) h = ground arith

place-Ascends :
    (at : ℕ → ℤ) (a : ℕ) (low : ℤ) (xs : List ℕ)
    → is_before low (at a) ≡ true
    → Ascends at low xs
    → Ascends at low (place at a xs)
place-Ascends at a low [] h k = (h, tt)
place-Ascends at a low (y ∷ ys) h k = elim (Bool-cases (is_before (at a) (at y))) [
  | inl e ↦ rw e (h, (e, k.1))
  | inr e ↦ rw e (k.0, place-Ascends at a (at y) ys (is_before_total (at a) (at y) e) k.1)
]

pub place-IsAscending :
    (at : ℕ → ℤ) (a : ℕ) (xs : List ℕ) → IsAscending at xs → IsAscending at (place at a xs)
place-IsAscending at a [] h = tt
place-IsAscending at a (y ∷ ys) h = elim (Bool-cases (is_before (at a) (at y))) [
  | inl e ↦ rw e (e, h)
  | inr e ↦ rw e (place-Ascends at a (at y) ys (is_before_total (at a) (at y) e) h)
]
