-- ===== src/Base/Bits.antt =====
-- `&` and `|` on native numbers: the digit recursion, fields side by side, and low masks.
use Prim.Native.Nat.{
  ℕ, zero, suc, ◌+◌, ◌-◌, ◌*◌, ◌/◌, ◌%◌, ◌^◌, ◌≤◌, ◌<◌, min, max, digits, bitwise, bit_and, bit_or,
  bit_and-bitwise, bit_or-bitwise,
}
use mathlib.Core.Path.{◌≡◌, refl, ap, ap₂, ◌∙◌}
use native.Mathlib.Nat.{le_refl, pow-suc, one-le-pow, add-zero, add-suc}
use native.Mathlib.Omega.{arith}

-- One unit of fuel more than the first operand asks for changes nothing.
module _ (unary : ℕ → ℕ) (table : ℕ → ℕ → ℕ) where
  more_fuel :
      (fuel x y : ℕ) → x ≤ fuel → digits unary table (suc fuel) x y ≡ digits unary table fuel x y
  more_fuel zero zero y enough = refl
  more_fuel (suc fuel) zero y enough = refl
  more_fuel zero (suc x) y enough = absurd (omega arith)
  more_fuel (suc fuel) (suc x) y enough =
      ap (λ (high : ℕ). high * 2 + table (suc x % 2) (y % 2))
        (more_fuel fuel (suc x / 2) (y / 2) (omega arith))

  spare_fuel :
      (spare fuel x y : ℕ)
      → fuel ≡ spare + x
      → digits unary table fuel x y ≡ bitwise unary table x y
  spare_fuel zero fuel x y e = ap (λ (n : ℕ). digits unary table n x y) (omega arith)
  spare_fuel (suc spare) zero x y e = absurd (omega arith)
  spare_fuel (suc spare) (suc fuel) x y e =
      more_fuel fuel x y (omega arith) ∙ spare_fuel spare fuel x y (omega arith)

  -- The lowest digits of a nonzero operand apart from the others.
  lowest_digit :
      (x y : ℕ)
      → bitwise unary table (suc x) y
        ≡ bitwise unary table (suc x / 2) (y / 2) * 2 + table (suc x % 2) (y % 2)
  lowest_digit x y =
      ap (λ (high : ℕ). high * 2 + table (suc x % 2) (y % 2))
        (spare_fuel (x - suc x / 2) x (suc x / 2) (y / 2) (omega arith))

pub bit_or_step : (x y : ℕ) → bit_or x y ≡ bit_or (x / 2) (y / 2) * 2 + max (x % 2) (y % 2)
bit_or_step zero y = simp bit_or-bitwise (omega arith)
bit_or_step (suc x) y = simp bit_or-bitwise (lowest_digit (λ n. n) max x y)

pub bit_and_step : (x y : ℕ) → bit_and x y ≡ bit_and (x / 2) (y / 2) * 2 + min (x % 2) (y % 2)
bit_and_step zero y = simp bit_and-bitwise (omega arith)
bit_and_step (suc x) y = simp bit_and-bitwise (lowest_digit (λ n. 0) min x y)

-- An operation that goes digit by digit keeps fields apart: `k` low bits do not mix with what stands
-- above them.
module _ (op table : ℕ → ℕ → ℕ)
    (step : (x y : ℕ) → op x y ≡ op (x / 2) (y / 2) * 2 + table (x % 2) (y % 2))
    (digit : (x y : ℕ) → table (x % 2) (y % 2) < 2) (empty : op 0 0 ≡ 0) where
  -- A field of `k` bits in front of a number.
  abbrev join : ℕ → ℕ → ℕ → ℕ
  join k high low = high * 2 ^ k + low

  one_field : (high : ℕ) → join 0 high 0 ≡ high
  one_field high = omega arith

  join_half :
      (k high low : ℕ)
      → (join (suc k) high low / 2 ≡ join k high (low / 2)) × (join (suc k) high low % 2 ≡ low % 2)
  join_half k high low =
      let double : high * 2 ^ suc k ≡ 2 * (high * 2 ^ k) =
        omega (arith, ap (λ (t : ℕ). high * t) (pow-suc 2 k)) in
      (omega arith, omega arith)

  fields :
      (k : ℕ) {low low' : ℕ} (high high' : ℕ)
      → low < 2 ^ k
      → low' < 2 ^ k
      → (op (join k high low) (join k high' low') ≡ join k (op high high') (op low low'))
        × (op low low' < 2 ^ k)
  fields zero {low = zero} {low' = zero} high high' h h' =
      (ap₂ op (one_field high) (one_field high') ∙ omega (arith, empty), omega (arith, empty))
  fields zero {low = suc low} high high' h h' = absurd (omega arith)
  fields zero {low' = suc low'} high high' h h' = absurd (omega arith)
  fields (suc k) {low = low} {low' = low'} high high' h h' =
      let (eq, small) =
        fields k {low = low / 2} {low' = low' / 2} high high' (omega (arith, pow-suc 2 k))
          (omega (arith, pow-suc 2 k)) in
      let (half, bit) = join_half k high low in
      let (half', bit') = join_half k high' low' in
      (
        step (join (suc k) high low) (join (suc k) high' low')
            ∙ ap₂ (λ (s t : ℕ). s * 2 + t) (ap₂ op half half' ∙ eq) (ap₂ table bit bit')
            ∙ omega (arith, step low low', ap (λ (t : ℕ). op high high' * t) (pow-suc 2 k)),
        omega (arith, step low low', digit low low', pow-suc 2 k),
      )

-- Fields of `k` low bits do not mix with what stands above them.
pub bit_or_split :
    (k q p r t : ℕ)
    → r < 2 ^ k
    → t < 2 ^ k
    → (bit_or (q * 2 ^ k + r) (p * 2 ^ k + t) ≡ bit_or q p * 2 ^ k + bit_or r t)
      × (bit_or r t < 2 ^ k)
bit_or_split k q p r t = fields bit_or max bit_or_step (λ x y. omega arith) refl k q p

pub bit_and_split :
    (k q p r t : ℕ)
    → r < 2 ^ k
    → t < 2 ^ k
    → (bit_and (q * 2 ^ k + r) (p * 2 ^ k + t) ≡ bit_and q p * 2 ^ k + bit_and r t)
      × (bit_and r t < 2 ^ k)
bit_and_split k q p r t = fields bit_and min bit_and_step (λ x y. omega arith) refl k q p

bit_and_lows : (n a : ℕ) → a ≤ n → (bit_and a 0 ≡ 0) × (bit_or a 0 ≡ a) × (bit_or 0 a ≡ a)
bit_and_lows n zero h = (refl, refl, refl)
bit_and_lows zero (suc a) h = absurd (omega arith)
bit_and_lows (suc n) (suc a) h = omega (
  arith,
  bit_and_step (suc a) 0,
  bit_or_step (suc a) 0,
  bit_or_step 0 (suc a),
  bit_and_lows n (suc a / 2) (omega arith),
)

pub bit_and-zero : (a : ℕ) → bit_and a 0 ≡ 0
bit_and-zero a = (bit_and_lows a a (le_refl a)).0

pub bit_or-zero : (a : ℕ) → bit_or a 0 ≡ a
bit_or-zero a = (bit_and_lows a a (le_refl a)).1

pub zero-bit_or : (a : ℕ) → bit_or 0 a ≡ a
zero-bit_or a = (bit_and_lows a a (le_refl a)).2

bit_and-all_ones : (k r : ℕ) → r < 2 ^ k → bit_and r (2 ^ k - 1) ≡ r
bit_and-all_ones zero zero h = refl
bit_and-all_ones zero (suc r) h = absurd (omega arith)
bit_and-all_ones (suc k) r h = ground (
  arith,
  bit_and_step r (2 ^ suc k - 1),
  pow-suc 2 k,
  one-le-pow k 2 (omega arith),
  bit_and-all_ones k (r / 2) (omega (arith, pow-suc 2 k)),
)

-- A mask of `k` ones keeps `k` low bits.
pub bit_and_mask : (k a : ℕ) → bit_and a (2 ^ k - 1) ≡ a % 2 ^ k
bit_and_mask k a = ground (
  arith,
  one-le-pow k 2 (omega arith),
  bit_and_split k (a / 2 ^ k) 0 (a % 2 ^ k) (2 ^ k - 1),
  bit_and-all_ones k (a % 2 ^ k),
  bit_and-zero (a / 2 ^ k),
)

pub two-pow-add : (a b : ℕ) → 2 ^ (a + b) ≡ 2 ^ a * 2 ^ b
two-pow-add a zero = rw add-zero (omega arith)
two-pow-add a (suc b) = rw add-suc (
    omega (
      arith,
      pow-suc 2 (a + b),
      pow-suc 2 b,
      ap (λ (t : ℕ). 2 ^ a * t) (pow-suc 2 b),
      two-pow-add a b,
    ))

pub two-pow-pos : (k : ℕ) → 0 < 2 ^ k
two-pow-pos k = one-le-pow k 2 (omega arith)
