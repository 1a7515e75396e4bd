-- ===== src/Libc/Text/Find.antt =====
-- Finding a byte or a text in a text.
use haskell_os.Base.{
  ℕ, zero, suc, ◌+◌, ◌<◌, ◌≡◌, ◌≢◌, inl, inr, refl, ◌∙◌, ap, arith, Bool, true, false, ◌==◌, ◌&&◌,
  List, [], ◌∷◌, length, Option, none, some, if◌then◌else◌, u8, Bool-cases,
}
use haskell_os.Hal.Heap.{Memory}
use haskell_os.Libc.Text.{strchr, strrchr_loop, strrchr, matches, strstr_loop, strstr}
use haskell_os.Libc.Text.Length.{IsText}

abbrev pub next : Option ℕ → Option ℕ
next none = none
next (some i) = some (suc i)

-- The place of the first byte `c`.
abbrev pub first_index : ℕ → List ℕ → Option ℕ
first_index c [] = none
first_index c (x ∷ xs) = if x == c then some 0 else next (first_index c xs)

-- The place of the last byte `c`.
abbrev pub last_index : ℕ → List ℕ → Option ℕ
last_index c [] = none
last_index c (x ∷ xs) = elim (last_index c xs) [
  | some i ↦ some (suc i)
  | none ↦ (if x == c then some 0 else none)
]

abbrev pub is_prefix : List ℕ → List ℕ → Bool
is_prefix [] xs = true
is_prefix (y ∷ ys) [] = false
is_prefix (y ∷ ys) (x ∷ xs) = x == y && is_prefix ys xs

-- The first place at which `ys` stands in the text.
abbrev pub text_index : List ℕ → List ℕ → Option ℕ
text_index ys [] = if is_prefix ys [] then some 0 else none
text_index ys (x ∷ xs) = if is_prefix ys (x ∷ xs) then some 0 else next (text_index ys xs)

-- The pointer for a place in the text at `s`; no place is the null pointer.
abbrev pub pointer : ℕ → Option ℕ → ℕ
pointer s none = 0
pointer s (some i) = s + i

abbrev pub or_else : ℕ → ℕ → Option ℕ → ℕ
or_else last s none = last
or_else last s (some i) = s + i

pointer-next : (s : ℕ) (o : Option ℕ) → pointer (s + 1) o ≡ pointer s (next o)
pointer-next s none = refl
pointer-next s (some i) = omega arith

-- `strchr` for a byte that is not 0 returns a pointer to its first place, or null; for 0 a pointer to
-- the text's end.
pub strchr-first_index :
    (xs : List ℕ) (fuel : ℕ) (m : Memory) (s c : ℕ)
    → IsText m s xs
    → c < 256
    → length xs < fuel
    → strchr fuel m s c ≡ some (if c == 0 then s + length xs else pointer s (first_index c xs))
unfolding strchr
strchr-first_index xs zero m s c t hc h = absurd (omega arith)
strchr-first_index [] (suc fuel) m s c t hc h = ground arith
strchr-first_index (x ∷ xs) (suc fuel) m s c t hc h =
    ground (arith, strchr-first_index xs fuel m (s + 1) c t.2 hc, pointer-next s (first_index c xs))

strrchr_loop-last_index :
    (xs : List ℕ) (fuel : ℕ) (m : Memory) (s c last : ℕ)
    → IsText m s xs
    → c < 256
    → length xs < fuel
    → strrchr_loop fuel m s c last
      ≡ some (if c == 0 then s + length xs else or_else last s (last_index c xs))
unfolding strrchr_loop
strrchr_loop-last_index xs zero m s c last t hc h = absurd (omega arith)
strrchr_loop-last_index [] (suc fuel) m s c last t hc h = ground arith
strrchr_loop-last_index (x ∷ xs) (suc fuel) m s c last t hc h =
    ground
      (arith, strrchr_loop-last_index xs fuel m (s + 1) c (if m s == u8 c then s else last) t.2 hc)

-- `strrchr` for a byte that is not 0 returns a pointer to its last place, or null; for 0 a pointer to
-- the text's end.
pub strrchr-last_index :
    (xs : List ℕ) (fuel : ℕ) (m : Memory) (s c : ℕ)
    → IsText m s xs
    → c < 256
    → length xs < fuel
    → strrchr fuel m s c ≡ some (if c == 0 then s + length xs else pointer s (last_index c xs))
unfolding strrchr
strrchr-last_index xs fuel m s c t hc h =
    ground (arith, strrchr_loop-last_index xs fuel m s c 0 t hc h)

matches-is_prefix :
    (xs ys : List ℕ) (fuel : ℕ) (m : Memory) (a b : ℕ)
    → IsText m a xs
    → IsText m b ys
    → length xs < fuel
    → matches fuel m a b ≡ some (is_prefix ys xs)
unfolding matches
matches-is_prefix xs ys zero m a b s t h = absurd (omega arith)
matches-is_prefix [] [] (suc fuel) m a b s t h = ground arith
matches-is_prefix [] (y ∷ ys) (suc fuel) m a b s t h = ground arith
matches-is_prefix (x ∷ xs) [] (suc fuel) m a b s t h = ground arith
matches-is_prefix (x ∷ xs) (y ∷ ys) (suc fuel) m a b s t h =
    ground (arith, matches-is_prefix xs ys fuel m (a + 1) (b + 1) s.2 t.2)

strstr_loop-text_index :
    (xs ys : List ℕ) (fuel : ℕ) (m : Memory) (a b : ℕ)
    → IsText m a xs
    → IsText m b ys
    → ys ≢ []
    → length xs < fuel
    → strstr_loop fuel m a b ≡ some (pointer a (text_index ys xs))
unfolding strstr_loop
strstr_loop-text_index xs ys zero m a b s t ne h = absurd (omega arith)
strstr_loop-text_index [] [] (suc fuel) m a b s t ne h = absurd (ne refl)
strstr_loop-text_index [] (y ∷ ys) (suc fuel) m a b s t ne h = ground arith
strstr_loop-text_index (x ∷ xs) ys (suc fuel) m a b s t ne h =
    let nonzero : (m a == 0) ≡ false = ground arith in
    rw (nonzero, matches-is_prefix (x ∷ xs) ys (suc fuel) m a b s t h)
      (elim (Bool-cases (is_prefix ys (x ∷ xs))) [
        | inl e ↦ rw e (ap some (omega arith))
        | inr e ↦ rw e (
            strstr_loop-text_index xs ys fuel m (a + 1) b s.2 t ne (omega arith)
            ∙ ap some (pointer-next a (text_index ys xs)))
      ])

-- `strstr` returns a pointer to the first place of the second text in the first, or null.
pub strstr-text_index :
    (xs ys : List ℕ) (fuel : ℕ) (m : Memory) (a b : ℕ)
    → IsText m a xs
    → IsText m b ys
    → length xs < fuel
    → strstr fuel m a b ≡ some (pointer a (text_index ys xs))
unfolding strstr
strstr-text_index [] [] fuel m a b s t h = ground arith
strstr-text_index (x ∷ xs) [] fuel m a b s t h = ground arith
strstr-text_index xs (y ∷ ys) fuel m a b s t h =
    let nonzero : (m b == 0) ≡ false = ground arith in
    rw nonzero (strstr_loop-text_index xs (y ∷ ys) fuel m a b s t (λ e. cc) h)
