-- ===== src/Eval/FreeMap/Lowest.antt =====
-- The lowest one of a word of the bitmap of c/eval.c.
use native.Mathlib.Nat.{pow-suc, le_refl, mod-eq_of_lt}
use haskell_os.Base.{
  ℕ, zero, suc, ◌-◌, ◌/◌, ◌%◌, ◌^◌, ◌<◌, ◌≤◌, ◌≡◌, ◌≢◌, refl, ap, ◌∙◌, arith, ◌==◌, true, false,
  bit_and, bit_and_step, bit_and_mask, two-pow-pos, Bool-cases, inl, inr,
}
use haskell_os.Eval.FreeMap.{ffs}
use haskell_os.Eval.FreeMap.Marks.{digit, digit-suc}

-- `ffs` finds the place `k`, and clearing the lowest one is masking it, among `n` digits.
pub record IsLowest (n w : ℕ) : Type 0 where
  pub place : ℕ
  pub found : ffs n w ≡ suc place
  pub inside : place < n
  pub one : digit w place ≡ 1
  pub below : (j : ℕ) → j < place → digit w j ≡ 0
  pub cleared : bit_and w (w - 1) ≡ bit_and w (2 ^ n - 1 - 2 ^ place)

self_within : (n w : ℕ) → w ≤ n → bit_and w w ≡ w
self_within n zero h = refl
self_within zero (suc w) h = absurd (omega arith)
self_within (suc n) (suc w) h =
    omega (arith, bit_and_step (suc w) (suc w), self_within n (suc w / 2) (omega arith))

odd_cleared :
    (n w : ℕ) → w % 2 ≡ 1 → w < 2 ^ suc n → bit_and w (w - 1) ≡ bit_and w (2 ^ suc n - 1 - 2 ^ 0)
odd_cleared n w odd h = omega (
  arith,
  bit_and_step w (w - 1),
  bit_and_step w (2 ^ suc n - 2),
  ap (bit_and (w / 2)) {x = (w - 1) / 2} {y = w / 2} (omega arith),
  self_within (w / 2) (w / 2) (le_refl (w / 2)),
  ap (bit_and (w / 2)) {x = (2 ^ suc n - 2) / 2} {y = 2 ^ n - 1}
      (omega (arith, pow-suc 2 n, two-pow-pos n)),
  bit_and_mask n (w / 2),
  pow-suc 2 n,
  two-pow-pos n,
  ap (bit_and w) {x = 2 ^ suc n - 1 - 2 ^ 0} {y = 2 ^ suc n - 2} (omega arith),
  small,
)
  where
    small : w / 2 % 2 ^ n ≡ w / 2
    small = mod-eq_of_lt (omega (arith, pow-suc 2 n))

even_cleared :
    (n w k : ℕ)
    → w % 2 ≡ 0
    → w ≢ 0
    → k < n
    → bit_and (w / 2) (w / 2 - 1) ≡ bit_and (w / 2) (2 ^ n - 1 - 2 ^ k)
    → bit_and w (w - 1) ≡ bit_and w (2 ^ suc n - 1 - 2 ^ suc k)
even_cleared n w k even nz h e = omega (
  arith,
  bit_and_step w (w - 1),
  bit_and_step w (2 ^ suc n - 1 - 2 ^ suc k),
  ap (bit_and (w / 2)) {x = (w - 1) / 2} {y = w / 2 - 1} (omega arith),
  ap (bit_and (w / 2)) {x = (2 ^ suc n - 1 - 2 ^ suc k) / 2} {y = 2 ^ n - 1 - 2 ^ k}
      (omega (arith, pow-suc 2 n, pow-suc 2 k, two-pow-pos n)),
  e,
)

pub ffs-IsLowest : (n w : ℕ) → w ≢ 0 → w < 2 ^ n → IsLowest n w
unfolding ffs
ffs-IsLowest zero w nz h = absurd (omega arith)
ffs-IsLowest (suc n) w nz h = elim (Bool-cases (w % 2 == 1)) [
  | inl e ↦ record {
    place = 0;
    found = rw e refl;
    inside = omega arith;
    one = omega (arith, odd e);
    below = λ j k. absurd (omega arith);
    cleared = odd_cleared n w (odd e) h;
  }
  | inr e ↦
      let half : w / 2 ≢ 0 = λ z. omega (arith, even e) in
      let l = ffs-IsLowest n (w / 2) half (omega (arith, pow-suc 2 n)) in
      record {
        place = suc l.place;
        found = rw e (ap suc l.found);
        inside = omega (arith, l.inside);
        one = digit-suc w l.place ∙ l.one;
        below = λ j k. below_suc l j k (even e);
        cleared = even_cleared n w l.place (even e) nz l.inside l.cleared;
      }
]
  where
    odd : (w % 2 == 1) ≡ true → w % 2 ≡ 1
    odd e = ground arith

    even : (w % 2 == 1) ≡ false → w % 2 ≡ 0
    even e = ground arith

    below_suc : (l : IsLowest n (w / 2)) (j : ℕ) → j < suc l.place → w % 2 ≡ 0 → digit w j ≡ 0
    below_suc l zero k z = omega arith
    below_suc l (suc j) k z = digit-suc w j ∙ l.below j (omega arith)
