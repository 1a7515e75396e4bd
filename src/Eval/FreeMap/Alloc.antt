-- ===== src/Eval/FreeMap/Alloc.antt =====
-- `alloc_node` of c/eval.c gives out the first free cell.
use mathlib.Core.Path.{subst}
use native.Mathlib.Nat.{zero-div}
use haskell_os.Base.{
  ℕ, zero, suc, ◌+◌, ◌-◌, ◌*◌, ◌/◌, ◌%◌, ◌^◌, ◌<◌, ◌≤◌, ◌≡◌, ◌≢◌, refl, ap, ◌∙◌, arith, ltb, ◌==◌,
  true, false, ◌||◌, Option, some, bit_and, Bool-cases, inl, inr,
}
use haskell_os.Eval.FreeMap.{
  Cells, find_word, take_cell, take_found, alloc_node, is_marked_used, mark_used, store_word,
}
use haskell_os.Eval.FreeMap.Marks.{digit, free_digit, is_marked_used_digit}
use haskell_os.Eval.FreeMap.Lowest.{IsLowest, ffs-IsLowest}

-- The first word from `i` on that is not zero.
record IsFirst (m : ℕ → ℕ) (fuel i : ℕ) : Type 0 where
  word : ℕ
  found : find_word m fuel i ≡ some word
  behind : i ≤ word
  used : m word ≢ 0
  empty : (j : ℕ) → i ≤ j → j < word → m j ≡ 0

find_word-IsFirst : (m : ℕ → ℕ) (fuel i x : ℕ) → i ≤ x → x < i + fuel → m x ≢ 0 → IsFirst m fuel i
unfolding find_word
find_word-IsFirst m zero i x h k u = absurd (omega arith)
find_word-IsFirst m (suc fuel) i x h k u = elim (Bool-cases (m i == 0)) [
  | inr e ↦ record {
    word = i;
    found = rw e refl;
    behind = omega arith;
    used = nonzero e;
    empty = λ j p q. absurd (omega arith);
  }
  | inl e ↦
      let r = find_word-IsFirst m fuel (i + 1) x (next e) (omega arith) u in
      record {
        word = r.word;
        found = rw e r.found;
        behind = omega (arith, r.behind);
        used = r.used;
        empty = λ j p q. all_empty r e j p q;
      }
]
  where
    nonzero : (m i == 0) ≡ false → m i ≢ 0
    nonzero e = ground arith

    next : (m i == 0) ≡ true → i + 1 ≤ x
    next e = elim (Bool-cases (i == x)) [
      | inl f ↦
          absurd (u (subst (λ (y : ℕ). m y ≡ 0) {x = i} {y = x} (ground arith) (ground arith)))
      | inr f ↦ ground arith
    ]

    all_empty :
        (r : IsFirst m fuel (i + 1)) → (m i == 0) ≡ true → (j : ℕ) → i ≤ j → j < r.word → m j ≡ 0
    all_empty r e j p q = elim (Bool-cases (i == j)) [
      | inl f ↦ subst (λ (y : ℕ). m y ≡ 0) {x = i} {y = j} (ground arith) (ground arith)
      | inr f ↦ r.empty j (ground arith) q
    ]

-- What a run of `alloc_node` gives.
pub record Allocated (s : Cells) (r : Option (Option (ℕ × Cells))) : Type 0 where
  pub cell : ℕ
  pub after : Cells
  pub result : r ≡ some (some (cell, after))
  pub was_free : is_marked_used cell s ≡ false
  pub is_first : (j : ℕ) → s.next_scan_index / 32 ≤ j / 32 → j < cell → is_marked_used j s ≡ true
  pub marked : (j : ℕ) → after.free_map j ≡ (mark_used cell s).free_map j

empty_digit : (j : ℕ) (m : ℕ → ℕ) → m (j / 32) ≡ 0 → free_digit j m ≡ 0
empty_digit j m e =
    ap (λ (w : ℕ). digit w (j % 32)) e ∙ ap (λ (w : ℕ). w % 2) (zero-div (2 ^ (j % 32)))

module _ (s : Cells) (i : ℕ) (l : IsLowest 32 (s.free_map i)) (aligned : s.heap_start % 32 ≡ 0)
    (above : s.heap_start ≤ i * 32) where
  abbrev given : ℕ
  given = i * 32 + l.place

  given_word : given / 32 ≡ i
  given_word = omega (arith, l.inside)

  given_bit : given % 32 ≡ l.place
  given_bit = omega (arith, l.inside)

  not_low : ltb given s.heap_start ≡ false
  not_low = ground arith

  given_free : is_marked_used given s ≡ false
  given_free = is_marked_used_digit given s ∙ rw (not_low, given_word, given_bit, l.one) refl

  given_first :
      (start j : ℕ)
      → ((k : ℕ) → start / 32 ≤ k → k < i → s.free_map k ≡ 0)
      → start / 32 ≤ j / 32
      → j < given
      → is_marked_used j s ≡ true
  given_first start j empty h k =
      is_marked_used_digit j s ∙ used (free_digit j s.free_map) zero_digit
    where
      used : (d : ℕ) → d ≡ 0 → (ltb j s.heap_start || (d == 0)) ≡ true
      used d e = ground arith

      zero_digit : free_digit j s.free_map ≡ 0
      zero_digit = elim (Bool-cases (j / 32 == i)) [
        | inl e ↦
            subst (λ (w : ℕ). digit (s.free_map w) (j % 32) ≡ 0) {x = i} {y = j / 32} (ground arith)
              (l.below (j % 32) (ground arith))
        | inr e ↦ empty_digit j s.free_map (empty (j / 32) h (ground arith))
      ]

  given_marked :
      (j : ℕ)
      → store_word i (bit_and (s.free_map i) (s.free_map i - 1)) s.free_map j
        ≡ (mark_used given s).free_map j
  unfolding mark_used
  given_marked j = rw (not_low, given_word, given_bit, l.cleared) refl

-- While a cell is counted as free and a word with a free cell is within the fuel, `alloc_node` gives out
-- the first free cell from the word of `next_scan_index` on, and leaves the map as `mark_used` of that
-- cell would, if `heap_start` stands at a word's start and not behind `next_scan_index`.
pub alloc_node-Allocated :
    (fuel t x : ℕ) (s : Cells)
    → s.num_free ≢ 0
    → s.heap_start % 32 ≡ 0
    → s.heap_start ≤ s.next_scan_index
    → ((j : ℕ) → s.free_map j < 2 ^ 32)
    → s.next_scan_index / 32 ≤ x
    → x < s.next_scan_index / 32 + fuel
    → s.free_map x ≢ 0
    → Allocated s (alloc_node fuel t s)
unfolding alloc_node take_found take_cell
alloc_node-Allocated fuel t x s some_free aligned above words behind within used =
    let f = find_word-IsFirst s.free_map fuel (s.next_scan_index / 32) x behind within used in
    let i = f.word in
    let l = ffs-IsLowest 32 (s.free_map i) f.used (words i) in
    let high : s.heap_start ≤ i * 32 = omega (arith, f.behind) in
    record {
      cell = given s i l aligned high;
      after = (take_cell t i s).1;
      result =
          rw (is_free, f.found)
            (ap (λ (c : ℕ). some (some (c, (take_cell t i s).1))) {x = (take_cell t i s).0}
              (omega (arith, l.found)));
      was_free = given_free s i l aligned high;
      is_first = λ j h k. given_first s i l aligned high s.next_scan_index j f.empty h k;
      marked = given_marked s i l aligned high;
    }
  where
    is_free : (s.num_free == 0) ≡ false
    is_free = ground arith
