-- ===== src/Eval/FreeMap/Marks.antt =====
-- Marking a cell of c/eval.c changes its bit of the map and no other.
use native.Mathlib.Nat.{pow-suc, mul_comm, div-div-eq-div-mul}
use haskell_os.Base.{
  ℕ, zero, suc, ◌*◌, ◌/◌, ◌%◌, ◌^◌, ◌<◌, ◌≤◌, ◌≡◌, refl, sym, ap, ap₂, ◌∙◌, arith, ltb, ◌==◌,
  if◌then◌else◌, Bool, true, false, not, ◌&&◌, ◌||◌, min, max, not32, bit_and, bit_or, bit_and_step,
  bit_or_step, bit_and_mask, two-pow-pos, all_below, all_below_sound, Bool-cases, inl, inr,
  bit_and_split, bit_and-zero,
}
use haskell_os.Eval.FreeMap.{Cells, mark_used, mark_unused, is_marked_used, store_word}

abbrev pub digit : ℕ → ℕ → ℕ
digit w k = w / 2 ^ k % 2

pub digit-suc : (w k : ℕ) → digit w (suc k) ≡ digit (w / 2) k
digit-suc w k =
    ap (λ (x : ℕ). x % 2)
      (ap (λ (x : ℕ). w / x) (pow-suc 2 k ∙ mul_comm (2 ^ k) 2)
        ∙ sym (div-div-eq-div-mul w 2 (2 ^ k)))

digit-bit_and : (k a b : ℕ) → digit (bit_and a b) k ≡ min (digit a k) (digit b k)
digit-bit_and zero a b = omega (arith, bit_and_step a b)
digit-bit_and (suc k) a b =
    digit-suc (bit_and a b) k
    ∙ ap (λ (x : ℕ). digit x k) {y = bit_and (a / 2) (b / 2)} (omega (arith, bit_and_step a b))
    ∙ digit-bit_and k (a / 2) (b / 2)
    ∙ ap₂ min (sym (digit-suc a k)) (sym (digit-suc b k))

digit-bit_or : (k a b : ℕ) → digit (bit_or a b) k ≡ max (digit a k) (digit b k)
digit-bit_or zero a b = omega (arith, bit_or_step a b)
digit-bit_or (suc k) a b =
    digit-suc (bit_or a b) k
    ∙ ap (λ (x : ℕ). digit x k) {y = bit_or (a / 2) (b / 2)} (omega (arith, bit_or_step a b))
    ∙ digit-bit_or k (a / 2) (b / 2)
    ∙ ap₂ max (sym (digit-suc a k)) (sym (digit-suc b k))

-- The masks of one cell, digit by digit.
abbrev mask_test : ℕ → ℕ → Bool
mask_test k j =
    (digit (not32 (2 ^ k)) j == (if j == k then 0 else 1))
    && (digit (2 ^ k) j == (if j == k then 1 else 0))

masks_checked : all_below 32 (λ k. all_below 32 (λ j. mask_test k j)) ≡ true
unfolding all_below
masks_checked = refl

mask_digits :
    (k j : ℕ)
    → k < 32
    → j < 32
    → (digit (not32 (2 ^ k)) j ≡ (if j == k then 0 else 1))
      × (digit (2 ^ k) j ≡ (if j == k then 1 else 0))
mask_digits k j h i =
    both (digit (not32 (2 ^ k)) j) (if j == k then 0 else 1) (digit (2 ^ k) j)
      (if j == k then 1 else 0)
      (all_below_sound 32 (mask_test k) j
        (all_below_sound 32 (λ k. all_below 32 (λ j. mask_test k j)) k masks_checked h) i)
  where
    both : (a b c d : ℕ) → ((a == b) && (c == d)) ≡ true → (a ≡ b) × (c ≡ d)
    both a b c d h = ground arith

-- The test of a bit.
bit_test : (w k : ℕ) → (bit_and w (2 ^ k) == 0) ≡ (digit w k == 0)
bit_test w k = zero_iff (digit w k) (2 ^ k) (two-pow-pos k) (omega arith) masked
  where
    masked : bit_and w (2 ^ k) ≡ digit w k * 2 ^ k
    masked = ground (
      arith,
      two-pow-pos k,
      bit_and_split k (w / 2 ^ k) 1 (w % 2 ^ k) 0,
      bit_and_mask 1 (w / 2 ^ k),
      bit_and-zero (w % 2 ^ k),
    )

    zero_iff :
        (d p : ℕ) → 0 < p → d < 2 → bit_and w (2 ^ k) ≡ d * p → (bit_and w (2 ^ k) == 0) ≡ (d == 0)
    zero_iff zero p h b e = ground arith
    zero_iff (suc zero) p h b e = ground arith
    zero_iff (suc (suc d)) p h b e = absurd (omega arith)

-- A cell's digit of the map, and the words of two cells.
abbrev pub free_digit : ℕ → (ℕ → ℕ) → ℕ
free_digit i m = digit (m (i / 32)) (i % 32)

cell_eq : (i j : ℕ) → (j == i) ≡ ((j / 32 == i / 32) && (j % 32 == i % 32))
cell_eq i j = ground arith

pub is_marked_used_digit :
    (i : ℕ) (s : Cells)
    → is_marked_used i s ≡ (ltb i s.heap_start || (free_digit i s.free_map == 0))
unfolding is_marked_used
is_marked_used_digit i s = elim (Bool-cases (ltb i s.heap_start)) [
  | inl e ↦ rw e refl
  | inr e ↦ rw e (bit_test (s.free_map (i / 32)) (i % 32))
]

-- The digit after a store of the word of `i`.
stored_digit :
    (i j w e : ℕ) (m : ℕ → ℕ)
    → ((k : ℕ) → k < 32 → digit w k ≡ (if k == i % 32 then e else digit (m (i / 32)) k))
    → free_digit j (store_word (i / 32) w m) ≡ (if j == i then e else free_digit j m)
stored_digit i j w e m h = elim (Bool-cases (j / 32 == i / 32)) [
  | inl f ↦
      rw (f, cell_eq i j, f)
        (h (j % 32) (omega arith)
          ∙ ap (λ (n : ℕ). if j % 32 == i % 32 then e else digit (m n) (j % 32)) {x = i / 32}
              {y = j / 32} (ground arith))
  | inr f ↦ rw (f, cell_eq i j, f) refl
]

used_digit :
    (w i k : ℕ)
    → i < 32
    → k < 32
    → digit (bit_and w (not32 (2 ^ i))) k ≡ (if k == i then 0 else digit w k)
used_digit w i k h l =
    digit-bit_and k w (not32 (2 ^ i))
    ∙ ap (min (digit w k)) (mask_digits i k h l).0
    ∙ chosen (digit w k) (k == i) (omega arith)
  where
    chosen : (d : ℕ) (b : Bool) → d < 2 → min d (if b then 0 else 1) ≡ (if b then 0 else d)
    chosen d true h = ground arith
    chosen d false h = ground arith

unused_digit :
    (w i k : ℕ) → i < 32 → k < 32 → digit (bit_or w (2 ^ i)) k ≡ (if k == i then 1 else digit w k)
unused_digit w i k h l =
    digit-bit_or k w (2 ^ i)
    ∙ ap (max (digit w k)) (mask_digits i k h l).1
    ∙ chosen (digit w k) (k == i) (omega arith)
  where
    chosen : (d : ℕ) (b : Bool) → d < 2 → max d (if b then 1 else 0) ≡ (if b then 1 else d)
    chosen d true h = ground arith
    chosen d false h = ground arith

-- After a mark, a cell counts as used if it is the marked one or did before.
pub mark_used-is_marked_used :
    (i j : ℕ) (s : Cells) → is_marked_used j (mark_used i s) ≡ ((j == i) || is_marked_used j s)
unfolding mark_used
mark_used-is_marked_used i j s = elim (Bool-cases (ltb i s.heap_start)) [
  | inl e ↦ rw e (below e)
  | inr e ↦
      rw (e, is_marked_used_digit j _, is_marked_used_digit j s, changed)
        (marked (ltb j s.heap_start) (j == i) (free_digit j s.free_map))
]
  where
    below : ltb i s.heap_start ≡ true → is_marked_used j s ≡ ((j == i) || is_marked_used j s)
    below e = rw (is_marked_used_digit j s) (ground arith)

    changed :
        free_digit j
          (store_word (i / 32) (bit_and (s.free_map (i / 32)) (not32 (2 ^ (i % 32)))) s.free_map)
        ≡ (if j == i then 0 else free_digit j s.free_map)
    changed =
        stored_digit i j (bit_and (s.free_map (i / 32)) (not32 (2 ^ (i % 32)))) 0 s.free_map
          (λ k h. used_digit (s.free_map (i / 32)) (i % 32) k (omega arith) h)

    marked :
        (low same : Bool) (d : ℕ)
        → (low || ((if same then 0 else d) == 0)) ≡ (same || (low || (d == 0)))
    marked true true d = refl
    marked true false d = refl
    marked false true d = refl
    marked false false d = refl

-- After the mark of a cell is taken back, the cell does not count as used, and each other one counts as
-- before.
pub mark_unused-is_marked_used :
    (i j : ℕ) (s : Cells)
    → s.heap_start ≤ i
    → is_marked_used j (mark_unused i s) ≡ (not (j == i) && is_marked_used j s)
unfolding mark_unused
mark_unused-is_marked_used i j s h =
    rw (is_marked_used_digit, is_marked_used_digit, changed)
      (unmarked (ltb j s.heap_start) (j == i) (free_digit j s.free_map) (λ e. ground arith))
  where
    changed :
        free_digit j (store_word (i / 32) (bit_or (s.free_map (i / 32)) (2 ^ (i % 32))) s.free_map)
        ≡ (if j == i then 1 else free_digit j s.free_map)
    changed =
        stored_digit i j (bit_or (s.free_map (i / 32)) (2 ^ (i % 32))) 1 s.free_map
          (λ k l. unused_digit (s.free_map (i / 32)) (i % 32) k (omega arith) l)

    unmarked :
        (low same : Bool) (d : ℕ)
        → (same ≡ true → low ≡ false)
        → (low || ((if same then 1 else d) == 0)) ≡ (not same && (low || (d == 0)))
    unmarked true true d k = ground (arith, k refl)
    unmarked true false d k = refl
    unmarked false true d k = refl
    unmarked false false d k = refl
