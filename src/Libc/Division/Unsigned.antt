-- ===== src/Libc/Division/Unsigned.antt =====
-- Shift-and-subtract division divides.
use native.Mathlib.Nat.{
  pow-le-pow_right, add-zero, zero-add, pow-suc, div-eq_of_lt, add-mul-div_left,
}
use haskell_os.Base.{
  ℕ, zero, suc, ◌+◌, ◌-◌, ◌*◌, ◌/◌, ◌%◌, ◌^◌, ◌<◌, ◌≤◌, ◌≡◌, ◌⊎◌, refl, ◌∙◌, sym, ap, ap₂, arith,
  ◌==◌, ==_iff, leb, ltb, if◌then◌else◌, Bool-cases, inl, inr, bit_and, bit_or, u32, bit_and_split,
  bit_or_split, bit_and_mask, bit_and-zero, bit_or-zero, zero-bit_or, two-pow-pos, two-pow-add,
}
use haskell_os.Libc.Division.{grow, subtract, finish, aeabi_uidiv}

-- The loop's test of bit 31.
top_bit : (d : ℕ) → d < 2 ^ 32 → bit_and d (2 ^ 31) ≡ d / 2 ^ 31 * 2 ^ 31
top_bit d h =
    ap₂ bit_and {x = d} {y = d / 2 ^ 31 * 2 ^ 31 + d % 2 ^ 31} (omega arith) refl
    ∙ (bit_and_split 31 (d / 2 ^ 31) 1 (d % 2 ^ 31) 0 (omega arith) (omega arith)).0
    ∙ omega (arith, bit_and_mask 1 (d / 2 ^ 31), bit_and-zero (d % 2 ^ 31))

-- A quotient bit that is not there yet.
add_bit : (s k : ℕ) → s < 32 → bit_or (k * 2 ^ suc s) (u32 (1 * 2 ^ s)) ≡ k * 2 ^ suc s + 2 ^ s
add_bit s k h =
    ap₂ bit_or (sym (add-zero (k * 2 ^ suc s))) small
    ∙ (bit_or_split (suc s) k 0 0 (2 ^ s) (two-pow-pos (suc s))
        (omega (arith, pow-suc 2 s, two-pow-pos s))).0
    ∙ ap₂ (λ (a b : ℕ). a * 2 ^ suc s + b) (bit_or-zero k) (zero-bit_or (2 ^ s))
  where
    small : u32 (1 * 2 ^ s) ≡ 0 * 2 ^ suc s + 2 ^ s
    small = omega (arith, pow-le-pow_right {n = 2} (omega arith) {i = s} {j = 31} (omega arith))

-- With `rounds` bits of the quotient to find, and `d` the denominator at the highest of them.
subtract-div :
    (den rounds num d q k : ℕ)
    → 0 < den
    → rounds ≤ 32
    → num < den * 2 ^ rounds
    → d ≡ den * 2 ^ rounds / 2
    → q ≡ k * 2 ^ rounds
    → subtract rounds num d q ≡ q + num / den
unfolding subtract
subtract-div den zero num d q k hd hr hn ed eq =
    omega (arith, div-eq_of_lt {n = num} {m = den} (omega arith))
subtract-div den (suc s) num d q k hd hr hn ed eq = elim (Bool-cases (leb d num)) [
  | inl e ↦
      let fits : d ≤ num = ground arith in
      rw e (
        subtract-div den s (num - d) (d / 2) (bit_or q (u32 (1 * 2 ^ s))) (2 * k + 1) hd
          (omega arith) (omega (arith, half)) (ap (λ (t : ℕ). t / 2) (ed ∙ half'))
          (ap (λ (t : ℕ). bit_or t (u32 (1 * 2 ^ s))) eq ∙ add_bit s k hr ∙ omega (arith, wider))
        ∙ omega (
          arith,
          eq,
          ap (λ (t : ℕ). bit_or t (u32 (1 * 2 ^ s))) eq,
          add_bit s k hr,
          ap (λ (t : ℕ). t / den) {x = num} {y = num - d + den * 2 ^ s} (omega (arith, half)),
          add-mul-div_left (num - d) (2 ^ s) hd,
        ))
  | inr e ↦
      let over : num < d = ground arith in
      rw e (
        subtract-div den s num (d / 2) q (2 * k) hd (omega arith) (omega (arith, half))
          (ap (λ (t : ℕ). t / 2) (ed ∙ half')) (omega (arith, wider)))
]
  where
    half : den * 2 ^ suc s ≡ 2 * (den * 2 ^ s)
    half = omega (arith, ap (λ (t : ℕ). den * t) (pow-suc 2 s))

    half' : den * 2 ^ suc s / 2 ≡ den * 2 ^ s
    half' = omega (arith, half)

    wider : k * 2 ^ suc s ≡ 2 * (k * 2 ^ s)
    wider = omega (arith, ap (λ (t : ℕ). k * t) (pow-suc 2 s))

-- The first loop's result: a shifted denominator, above the numerator or as high as it goes.
record Grown (num den shift d : ℕ) : Type 0 where
  scaled : d ≡ den * 2 ^ shift
  bounded : shift < 32
  word : d < 2 ^ 32
  last : (num < d) ⊎ (2 ^ 31 ≤ d)

-- 32 rounds are enough.
grow-Grown :
    (fuel num den d shift : ℕ)
    → 0 < den
    → d < 2 ^ 32
    → d ≡ den * 2 ^ shift
    → fuel + shift ≡ 32
    → let (d', shift') = grow fuel num d shift in Grown num den shift' d'
unfolding grow
grow-Grown zero num den d shift hd hw e f = absurd (grind (arith, big))
  where
    big : 2 ^ shift ≡ 2 ^ 32
    big = ap (λ (t : ℕ). 2 ^ t) {x = shift} {y = 32} (omega arith)
grow-Grown (suc fuel) num den d shift hd hw e f = elim (Bool-cases (leb d num)) [
  | inl below ↦ elim (Bool-cases (bit_and d (2 ^ 31) == 0)) [
    | inl room ↦
        rw (below, room)
          let low : d < 2 ^ 31 =
              omega (arith, top_bit d hw, (==_iff (bit_and d (2 ^ 31)) 0).0 room) in
            grow-Grown fuel num den (u32 (d * 2)) (shift + 1) hd (omega arith)
              (omega (arith, e, ap (λ (t : ℕ). den * t) (two-pow-add shift 1))) (omega arith)
    | inr full ↦
        rw (below, full)
          (record {
            scaled = e;
            bounded = omega arith;
            word = hw;
            last = inr (ground (arith, top_bit d hw));
          })
  ]
  | inr above ↦
      rw above (record { scaled = e; bounded = omega arith; word = hw; last = inl (ground arith) })
]

finish-div :
    (num den d shift : ℕ)
    → 0 < den
    → num < 2 ^ 32
    → Grown num den shift d
    → finish num (d, shift) ≡ num / den
unfolding finish
finish-div num den d shift hd hn g = elim (Bool-cases (ltb num d)) [
  | inl e ↦ rw e (
      subtract-div den shift num (d / 2) 0 0 hd (omega (arith, g.bounded))
        (ground (arith, g.scaled)) (ap (λ (t : ℕ). t / 2) g.scaled) (omega arith)
      ∙ zero-add (num / den))
  | inr e ↦ rw e (
      subtract-div den (shift + 1) num d 0 0 hd (omega (arith, g.bounded))
        (ground (arith, g.scaled, g.last, twice)) (omega (arith, g.scaled, twice)) (omega arith)
      ∙ zero-add (num / den))
]
  where
    twice : den * 2 ^ (shift + 1) ≡ 2 * (den * 2 ^ shift)
    twice = omega (arith, ap (λ (t : ℕ). den * t) (two-pow-add shift 1))

-- `__aeabi_uidiv` divides any two `unsigned` numbers, rounding down, and gives 0 for a zero divisor.
pub aeabi_uidiv-div :
    (num den : ℕ)
    → num < 2 ^ 32
    → den < 2 ^ 32
    → aeabi_uidiv num den ≡ (if den == 0 then 0 else num / den)
unfolding aeabi_uidiv
aeabi_uidiv-div num den hn hd = elim (Bool-cases (den == 0)) [
  | inl e ↦ rw e
  | inr e ↦
      let pos : 0 < den = ground arith in
      let (d, shift) = grow 32 num den 0 in
      rw e (
        finish-div num den d shift pos hn
          (grow-Grown 32 num den den 0 pos hd (omega arith) (omega arith)))
]
