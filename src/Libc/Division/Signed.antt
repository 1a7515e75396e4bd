-- ===== src/Libc/Division/Signed.antt =====
-- Signed division rounds towards zero.
use native.Mathlib.Nat.{div-le_self, div-mul-le_self, mul-le-mul_left}
use haskell_os.Base.{
  ℕ, zero, suc, ◌-◌, ◌/◌, ◌^◌, ◌<◌, ◌≤◌, ◌≡◌, ◌≢◌, ◌⊎◌, refl, ◌∙◌, sym, ap, ap₂, arith, Bool, true,
  false, ◌==◌, not, if◌then◌else◌, Bool-cases, inl, inr,
}
use haskell_os.Base.Int.{ℤ, pos, magnitude, is_negative, minus, same_sign, signed32, quotient}
use haskell_os.Libc.Division.{aeabi_idiv, neg32, is_neg}
use haskell_os.Libc.Division.Unsigned.{aeabi_uidiv-div}

-- The pattern of a magnitude with a sign, where the magnitude fits.
signed32-neg32 : (q : ℕ) → q ≤ 2 ^ 31 → signed32 (neg32 q) ≡ minus q
signed32-neg32 zero h = refl
signed32-neg32 (suc q) h = ground arith

abbrev abs32 : ℕ → ℕ
abs32 w = if is_neg w then neg32 w else w

magnitude-signed32 : (w : ℕ) → w < 2 ^ 32 → magnitude (signed32 w) ≡ abs32 w
magnitude-signed32 w h = ground arith

is_negative-signed32 : (w : ℕ) → is_negative (signed32 w) ≡ is_neg w
is_negative-signed32 w = ground arith

abbrev of_parts : Bool → Bool → ℕ → ℤ
of_parts a b q = if same_sign a b then pos q else minus q

quotient-parts :
    (num den : ℕ)
    → num < 2 ^ 32
    → den < 2 ^ 32
    → quotient (signed32 num) (signed32 den)
      ≡ of_parts (is_neg num) (is_neg den) (abs32 num / abs32 den)
quotient-parts num den hn hd =
    ap₂ (λ a b. of_parts a b (magnitude (signed32 num) / magnitude (signed32 den)))
      (is_negative-signed32 num) (is_negative-signed32 den)
    ∙ ap₂ (λ (m n : ℕ). of_parts (is_neg num) (is_neg den) (m / n)) (magnitude-signed32 num hn)
        (magnitude-signed32 den hd)

-- A quotient of two magnitudes is below 2^31, unless it is 2^31 by 1.
quotient-small : (a b : ℕ) → a ≤ 2 ^ 31 → b ≢ 0 → (a ≢ 2 ^ 31) ⊎ (b ≢ 1) → a / b < 2 ^ 31
quotient-small a b h nz fits =
    grind (arith, div-mul-le_self a b, mul-le-mul_left {m = 1} {n = b} (a / b) (omega arith))

-- The code, once its unsigned quotient is known.
aeabi_idiv-parts :
    (num den : ℕ)
    → num < 2 ^ 32
    → den < 2 ^ 32
    → den ≢ 0
    → aeabi_idiv num den ≡ (
        if same_sign (is_neg num) (is_neg den)
        then abs32 num / abs32 den
        else neg32 (abs32 num / abs32 den))
unfolding aeabi_idiv
aeabi_idiv-parts num den hn hd nz =
    let nonzero : (den == 0) ≡ false = ground arith in
    let nonzero' : (abs32 den == 0) ≡ false = ground arith in
    rw (nonzero, aeabi_uidiv-div (abs32 num) (abs32 den) (ground arith) (ground arith), nonzero')
      (signs (is_neg num) (is_neg den))
  where
    signs :
        (a b : Bool)
        → (if (if b then not (if a then not true else true) else (if a then not true else true))
            then abs32 num / abs32 den
            else neg32 (abs32 num / abs32 den))
          ≡ (if same_sign a b then abs32 num / abs32 den else neg32 (abs32 num / abs32 den))
    signs true true = refl
    signs true false = refl
    signs false true = refl
    signs false false = refl

signed-parts :
    (a b : Bool) (q : ℕ)
    → q ≤ 2 ^ 31
    → (same_sign a b ≡ true → q < 2 ^ 31)
    → signed32 (if same_sign a b then q else neg32 q) ≡ of_parts a b q
signed-parts a b q h fits = elim (Bool-cases (same_sign a b)) [
  | inl e ↦ rw e (small (fits e))
  | inr e ↦ rw e (signed32-neg32 q h)
]
  where
    small : q < 2 ^ 31 → signed32 q ≡ pos q
    small l = ground arith

-- `__aeabi_idiv` gives C's quotient of any two `int`s with a nonzero divisor, but for the one quotient
-- that is no `int`, that of -2^31 by -1.
pub aeabi_idiv-quotient :
    (num den : ℕ)
    → num < 2 ^ 32
    → den < 2 ^ 32
    → den ≢ 0
    → (num ≢ 2 ^ 31) ⊎ (den ≢ 2 ^ 32 - 1)
    → signed32 (aeabi_idiv num den) ≡ quotient (signed32 num) (signed32 den)
aeabi_idiv-quotient num den hn hd nz fits =
    ap signed32 (aeabi_idiv-parts num den hn hd nz)
    ∙ signed-parts (is_neg num) (is_neg den) (abs32 num / abs32 den)
        (omega (arith, div-le_self (abs32 num) (abs32 den), abs_le num))
        (λ same. quotient-fits same)
    ∙ sym (quotient-parts num den hn hd)
  where
    abs_le : (w : ℕ) → abs32 w ≤ 2 ^ 31
    abs_le w = ground arith

    quotient-fits : same_sign (is_neg num) (is_neg den) ≡ true → abs32 num / abs32 den < 2 ^ 31
    quotient-fits same =
        quotient-small (abs32 num) (abs32 den) (abs_le num) (ground arith) (elim fits [
          | inl h ↦ inl (ground arith)
          | inr h ↦ elim (Bool-cases (is_neg num)) [
            | inl e ↦ inr (ground arith)
            | inr e ↦ inl (ground arith)
          ]
        ])
