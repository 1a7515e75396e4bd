-- ===== src/Hal/Heap/Align.antt =====
-- Rounding up to a power of two.
use mathlib.Core.Path.{subst}
use native.Mathlib.Nat.{
  mod-eq_of_lt, mod-lt, div-add-mod', div-lt_iff_lt-mul, add-zero, mul-mod_left,
}
use haskell_os.Base.{
  ℕ, zero, suc, ◌+◌, ◌-◌, ◌*◌, ◌/◌, ◌%◌, ◌^◌, ◌<◌, ◌≤◌, ◌≡◌, ◌∙◌, sym, ap, ap₂, arith, bit_and, u32,
  not32, bit_and_split, bit_and_mask, bit_and-zero, two-pow-add, two-pow-pos,
}
use haskell_os.Hal.Heap.{align_up}

-- `r` is the least multiple of `a` from `x` on.
pub record IsRounded (x a r : ℕ) : Type 0 where
  pub multiple : r % a ≡ 0
  pub above : x ≤ r
  pub below : r < x + a

pred_mul : (m p : ℕ) → 0 < m → (m - 1) * p + p ≡ m * p
pred_mul zero p h = absurd (omega arith)
pred_mul (suc m) p h = omega (arith, ap (λ (t : ℕ). t * p) {x = suc m - 1} {y = m} (omega arith))

high_mask : (k : ℕ) → k ≤ 32 → not32 (2 ^ k - 1) ≡ (2 ^ (32 - k) - 1) * 2 ^ k
high_mask k h =
    omega (arith, two-pow-pos k, pred_mul (2 ^ (32 - k)) (2 ^ k) (two-pow-pos (32 - k)), whole)
  where
    whole : 2 ^ (32 - k) * 2 ^ k ≡ 2 ^ 32
    whole = sym (two-pow-add (32 - k) k) ∙ ap (λ (t : ℕ). 2 ^ t) {y = 32} (omega arith)

-- The mask clears the low bits.
cleared : (k y : ℕ) → k ≤ 32 → y < 2 ^ 32 → bit_and y (not32 (2 ^ k - 1)) ≡ y / 2 ^ k * 2 ^ k
cleared k y hk hy =
    ap₂ bit_and (sym (div-add-mod' y (2 ^ k))) (high_mask k hk ∙ sym (add-zero _))
    ∙ (bit_and_split k (y / 2 ^ k) (2 ^ (32 - k) - 1) (y % 2 ^ k) 0 (mod-lt y (two-pow-pos k))
        (two-pow-pos k)).0
    ∙ ap₂ (λ (a b : ℕ). a * 2 ^ k + b) (bit_and_mask (32 - k) (y / 2 ^ k) ∙ mod-eq_of_lt fits)
        (bit_and-zero (y % 2 ^ k))
    ∙ add-zero _
  where
    fits : y / 2 ^ k < 2 ^ (32 - k)
    fits = (div-lt_iff_lt-mul (two-pow-pos k)).1 (
        subst (λ (t : ℕ). y < t)
          (ap (λ (t : ℕ). 2 ^ t) {x = 32} {y = 32 - k + k} (omega arith) ∙ two-pow-add (32 - k) k)
          hy)

-- With no wrap, the allocator's rounding is rounding up.
pub align_up-IsRounded :
    (k x : ℕ) → k ≤ 32 → x + 2 ^ k ≤ 2 ^ 32 → IsRounded x (2 ^ k) (align_up x (2 ^ k))
unfolding align_up
align_up-IsRounded k x hk fits = rw eq (record {
  multiple = mul-mod_left _ _;
  above = omega (arith, div-add-mod' y (2 ^ k), mod-lt y (two-pow-pos k));
  below = omega (arith, div-add-mod' y (2 ^ k), two-pow-pos k);
})
  where
    y : ℕ
    y = x + 2 ^ k - 1

    eq :
        bit_and (u32 (x + 2 ^ k + 2 ^ 32 - 1)) (not32 (u32 (2 ^ k + 2 ^ 32 - 1)))
        ≡ y / 2 ^ k * 2 ^ k
    eq =
        ap (λ (t : ℕ). bit_and (u32 (x + 2 ^ k + 2 ^ 32 - 1)) (not32 t)) {y = 2 ^ k - 1}
          (omega (arith, two-pow-pos k))
        ∙ ap (λ (t : ℕ). bit_and t (not32 (2 ^ k - 1))) {y = y} (omega (arith, two-pow-pos k))
        ∙ cleared k y hk (omega (arith, two-pow-pos k))
