-- ===== src/Hal/Gpio/Fields.antt =====
-- Selecting a pin's function changes the pin's field of the register and no other.
use native.Mathlib.Nat.{
  mul-add-div_right, mul-add-mod_self_right, div-div-eq-div-mul, div-add-mod', mod-lt, div-eq_of_lt,
  mod-eq_of_lt, add-zero, div-lt_iff_lt-mul, mul_assoc, lt_of_lt_of_le, mul-lt-mul_of_pos_right,
  mul-le-mul_right,
}
use mathlib.Core.Path.{subst}
use native.Mathlib.Decide.{dec_lt}
use haskell_os.Base.{
  ℕ, zero, suc, ◌+◌, ◌-◌, ◌*◌, ◌/◌, ◌%◌, ◌^◌, ◌<◌, ◌≡◌, refl, ◌∙◌, sym, ap, ap₂, ◌≢◌, arith, [],
  ◌∷◌, List, bit_and, bit_or, u32, not32, bit_and_split, bit_or_split, bit_and_mask, bit_or-zero,
  zero-bit_or, bit_and-zero, two-pow-add, two-pow-pos, ==_iff, ◌&&◌, ltb, ◌==◌, if◌then◌else◌,
  Bool-cases, inl, inr,
}
use haskell_os.Base.Io.{done, rd, wr}
use haskell_os.Hal.Gpio.{gpio_fsel0, with_function, gpio_set_function}

-- Field `i` of a function-select register: three bits for each of ten pins.
abbrev pub field : ℕ → ℕ → ℕ
field v i = v / 2 ^ (i * 3) % 8

abbrev MaskAt : ℕ → Type 0
MaskAt i =
    (not32 (u32 (7 * 2 ^ (i * 3))) ≡ (2 ^ (29 - i * 3) - 1) * 8 * 2 ^ (i * 3) + (2 ^ (i * 3) - 1))
    × (2 ^ (29 - i * 3) * 8 * 2 ^ (i * 3) ≡ 2 ^ 32)

mask_at : (i : ℕ) → i < 10 → MaskAt i
mask_at zero h = (refl, refl)
mask_at (suc zero) h = (refl, refl)
mask_at (suc (suc zero)) h = (refl, refl)
mask_at (suc (suc (suc zero))) h = (refl, refl)
mask_at (suc (suc (suc (suc zero)))) h = (refl, refl)
mask_at (suc (suc (suc (suc (suc zero))))) h = (refl, refl)
mask_at (suc (suc (suc (suc (suc (suc zero)))))) h = (refl, refl)
mask_at (suc (suc (suc (suc (suc (suc (suc zero))))))) h = (refl, refl)
mask_at (suc (suc (suc (suc (suc (suc (suc (suc zero)))))))) h = (refl, refl)
mask_at (suc (suc (suc (suc (suc (suc (suc (suc (suc zero))))))))) h = (refl, refl)
mask_at (suc (suc (suc (suc (suc (suc (suc (suc (suc (suc n)))))))))) h = absurd (omega arith)

-- Clearing three bits above `k` and putting `f` there, as arithmetic.
cleared :
    (k m q d l : ℕ)
    → d < 8
    → l < 2 ^ k
    → q < 2 ^ m
    → bit_and ((q * 8 + d) * 2 ^ k + l) ((2 ^ m - 1) * 8 * 2 ^ k + (2 ^ k - 1)) ≡ q * 8 * 2 ^ k + l
cleared k m q d l hd hl hq =
    (bit_and_split k (q * 8 + d) ((2 ^ m - 1) * 8) l (2 ^ k - 1) hl
      (omega (arith, two-pow-pos k))).0
    ∙ ap₂ (λ (a b : ℕ). a * 2 ^ k + b) high low
  where
    low : bit_and l (2 ^ k - 1) ≡ l
    low = bit_and_mask k l ∙ mod-eq_of_lt hl

    top : bit_and q (2 ^ m - 1) ≡ q
    top = bit_and_mask m q ∙ mod-eq_of_lt hq

    high : bit_and (q * 8 + d) ((2 ^ m - 1) * 8) ≡ q * 8
    high =
        ap (λ (t : ℕ). bit_and (q * 8 + d) t) (sym (add-zero ((2 ^ m - 1) * 8)))
        ∙ (bit_and_split 3 q (2 ^ m - 1) d 0 hd (omega arith)).0
        ∙ omega (arith, bit_and-zero d, top)

-- Setting them to `f` after that.
placed :
    (k q f l : ℕ)
    → f < 8
    → l < 2 ^ k
    → bit_or (q * 8 * 2 ^ k + l) (f * 2 ^ k) ≡ (q * 8 + f) * 2 ^ k + l
placed k q f l hf hl =
    ap (λ (t : ℕ). bit_or (q * 8 * 2 ^ k + l) t) (sym (add-zero (f * 2 ^ k)))
    ∙ (bit_or_split k (q * 8) f l 0 hl (two-pow-pos k)).0
    ∙ ap₂ (λ (a b : ℕ). a * 2 ^ k + b) high (bit_or-zero l)
  where
    high : bit_or (q * 8) f ≡ q * 8 + f
    high =
        ap₂ bit_or (sym (add-zero (q * 8))) (omega arith)
        ∙ (bit_or_split 3 q 0 0 f (omega arith) hf).0
        ∙ omega (arith, bit_or-zero q, zero-bit_or f)

-- The register's new value, in fields.
with_function_fields :
    (i f v : ℕ)
    → i < 10
    → f < 8
    → v < 2 ^ 32
    → with_function (i * 3) f v ≡ (v / 2 ^ (i * 3) / 8 * 8 + f) * 2 ^ (i * 3) + v % 2 ^ (i * 3)
unfolding with_function
with_function_fields i f v hi hf hv =
    ap₂ bit_or (ap₂ bit_and parts (mask_at i hi).0 ∙ cleared k m q d l hd hl hq) small
    ∙ placed k q f l hf hl
  where
    k : ℕ
    k = i * 3

    m : ℕ
    m = 29 - i * 3

    q : ℕ
    q = v / 2 ^ (i * 3) / 8

    d : ℕ
    d = v / 2 ^ (i * 3) % 8

    l : ℕ
    l = v % 2 ^ (i * 3)

    hd : d < 8
    hd = omega arith

    hl : l < 2 ^ k
    hl = mod-lt v (two-pow-pos (i * 3))

    parts : v ≡ (q * 8 + d) * 2 ^ k + l
    parts =
        sym (div-add-mod' v (2 ^ (i * 3)))
        ∙ ap (λ (t : ℕ). t * 2 ^ (i * 3) + v % 2 ^ (i * 3)) (omega arith)

    hq : q < 2 ^ m
    hq = (div-lt_iff_lt-mul (omega arith)).1 (
        (div-lt_iff_lt-mul (two-pow-pos (i * 3))).1
          (subst (λ (t : ℕ). v < t) (sym (mask_at i hi).1) hv))

    small : u32 (f * 2 ^ (i * 3)) ≡ f * 2 ^ k
    small = mod-eq_of_lt (
        lt_of_lt_of_le (mul-lt-mul_of_pos_right hf (two-pow-pos (i * 3)))
          (omega (arith, (mask_at i hi).1, mul-le-mul_right (8 * 2 ^ (i * 3)) (two-pow-pos m))))

-- The power of a higher field, over that of a lower one.
apart : (j i : ℕ) → j < i → 2 ^ (i * 3) ≡ 2 ^ ((i - j - 1) * 3) * 8 * 2 ^ (j * 3)
apart j i h =
    ap (λ (t : ℕ). 2 ^ t) {x = i * 3} {y = (i - j - 1) * 3 + 3 + j * 3} (omega arith)
    ∙ two-pow-add ((i - j - 1) * 3 + 3) (j * 3)
    ∙ ap (λ (t : ℕ). t * 2 ^ (j * 3)) (two-pow-add ((i - j - 1) * 3) 3)

below : (i j a l : ℕ) → j < i → field (a * 2 ^ (i * 3) + l) j ≡ l / 2 ^ (j * 3) % 8
below i j a l h =
    ap (λ (t : ℕ). (t + l) / 2 ^ (j * 3) % 8) regroup
    ∙ ap (λ (t : ℕ). t % 8) (mul-add-div_right (two-pow-pos (j * 3)) (a * x * 8) l)
    ∙ mul-add-mod_self_right (a * x) 8 (l / 2 ^ (j * 3))
  where
    x : ℕ
    x = 2 ^ ((i - j - 1) * 3)

    regroup : a * 2 ^ (i * 3) ≡ a * x * 8 * 2 ^ (j * 3)
    regroup =
        ap (λ (t : ℕ). a * t) (apart j i h)
        ∙ sym (mul_assoc a (x * 8) (2 ^ (j * 3)))
        ∙ ap (λ (t : ℕ). t * 2 ^ (j * 3)) (sym (mul_assoc a x 8))

above :
    (i j a l : ℕ)
    → i < j
    → l < 2 ^ (i * 3)
    → field (a * 2 ^ (i * 3) + l) j ≡ a / 8 / 2 ^ ((j - i - 1) * 3) % 8
above i j a l h hl =
    ap (λ (t : ℕ). t % 8)
      (ap (λ (t : ℕ). (a * 2 ^ (i * 3) + l) / t) regroup
        ∙ sym (div-div-eq-div-mul (a * 2 ^ (i * 3) + l) (2 ^ (i * 3)) (8 * x))
        ∙ ap (λ (t : ℕ). t / (8 * x)) whole
        ∙ sym (div-div-eq-div-mul a 8 x))
  where
    x : ℕ
    x = 2 ^ ((j - i - 1) * 3)

    regroup : 2 ^ (j * 3) ≡ 2 ^ (i * 3) * (8 * x)
    regroup = apart i j h ∙ omega arith

    whole : (a * 2 ^ (i * 3) + l) / 2 ^ (i * 3) ≡ a
    whole =
        mul-add-div_right (two-pow-pos (i * 3)) a l
        ∙ ap (λ (t : ℕ). a + t) (div-eq_of_lt hl)
        ∙ add-zero a

-- The field of the pin is the function, and the nine others are as before.
field-with_function :
    (i f v j : ℕ)
    → i < 10
    → f < 8
    → v < 2 ^ 32
    → field (with_function (i * 3) f v) j ≡ (if i == j then f else field v j)
field-with_function i f v j hi hf hv =
    ap (λ (t : ℕ). field t j) (with_function_fields i f v hi hf hv) ∙ elim (Bool-cases (i == j)) [
      | inl e ↦ rw e (same ((==_iff i j).0 e))
      | inr e ↦ rw e (others (λ p. ground (arith, (==_iff i j).1 p)))
    ]
  where
    q : ℕ
    q = v / 2 ^ (i * 3)

    l : ℕ
    l = v % 2 ^ (i * 3)

    hl : l < 2 ^ (i * 3)
    hl = mod-lt v (two-pow-pos (i * 3))

    new : ℕ
    new = (q / 8 * 8 + f) * 2 ^ (i * 3) + l

    same : i ≡ j → field new j ≡ f
    same e =
        subst (λ (t : ℕ). field new t ≡ f) e
          (ap (λ (t : ℕ). t % 8)
              (mul-add-div_right (two-pow-pos (i * 3)) (q / 8 * 8 + f) l
                ∙ ap (λ (t : ℕ). q / 8 * 8 + f + t) (div-eq_of_lt hl))
            ∙ omega arith)

    old : q * 2 ^ (i * 3) + l ≡ v
    old = div-add-mod' v (2 ^ (i * 3))

    others : i ≢ j → field new j ≡ field v j
    others ne = elim (dec_lt i j) [
      | yes h ↦
          above i j (q / 8 * 8 + f) l h hl
          ∙ ap (λ (t : ℕ). t / 2 ^ ((j - i - 1) * 3) % 8) {x = (q / 8 * 8 + f) / 8} {y = q / 8}
              (omega arith)
          ∙ sym (above i j q l h hl)
          ∙ ap (λ (t : ℕ). field t j) old
      | no h ↦
          below i j (q / 8 * 8 + f) l (omega arith)
          ∙ sym (below i j q l (omega arith))
          ∙ ap (λ (t : ℕ). field t j) old
    ]

-- For a pin up to 53 and a function below 8, `c_gpio_set_function` loads the pin's register and
-- stores it back once. In the stored word the pin's field is the function, and every other field
-- is as loaded. For any other pin or function it accesses nothing.
pub gpio_set_function-field :
    {S : Type 0} (s : S) (pin func v : ℕ) (rest : List ℕ)
    → v < 2 ^ 32
    → (w : ℕ) × (gpio_set_function pin func s (v ∷ rest) ≡ (
        if ltb pin 54 && ltb func 8
        then done tt s rest
            (rd (gpio_fsel0 + pin / 10 * 4) v ∷ wr (gpio_fsel0 + pin / 10 * 4) w ∷ [])
        else done tt s (v ∷ rest) []))
      × ((j : ℕ) → func < 8 → field w j ≡ (if pin % 10 == j then func else field v j))
unfolding gpio_set_function
gpio_set_function-field s pin func v rest hv = (
  with_function (pin % 10 * 3) func v,
  ground (arith, bit_and_mask 3 func),
  λ j hf. field-with_function (pin % 10) func v j (omega arith) hf hv,
)
