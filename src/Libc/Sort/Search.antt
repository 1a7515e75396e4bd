-- ===== src/Libc/Sort/Search.antt =====
-- Binary search finds what is there.
use mathlib.Core.Path.{subst}
use haskell_os.Base.{
  ℕ, zero, suc, ◌+◌, ◌-◌, ◌*◌, ◌/◌, ◌<◌, ◌≤◌, ◌≡◌, ◌⊎◌, arith, true, false, ltb, Option, some,
  Bool-cases, inl, inr,
}
use haskell_os.Base.Int.{is_positive, ℤ, is_negative}
use haskell_os.Hal.Heap.{Memory}
use haskell_os.Libc.Sort.{Comparison, search_loop, bsearch}

-- The key compares greater than, equal to, and less than the elements in this order.
pub record IsOrdered (c : ℕ → ℤ) (a sz n : ℕ) : Type 0 where
  pub greater_first :
      (i j : ℕ)
      → i < j
      → j < n
      → is_positive (c (a + j * sz)) ≡ true
      → is_positive (c (a + i * sz)) ≡ true
  pub less_last :
      (i j : ℕ)
      → i < j
      → j < n
      → is_negative (c (a + i * sz)) ≡ true
      → is_negative (c (a + j * sz)) ≡ true

abbrev pub IsEqual : ℤ → Type 0
IsEqual x = (is_negative x ≡ false) × (is_positive x ≡ false)

abbrev pub IsUnequal : ℤ → Type 0
IsUnequal x = (is_negative x ≡ true) ⊎ (is_positive x ≡ true)

-- A search gives the address of an element that compares equal, or null if none does.
pub data Searched (c : ℕ → ℤ) (a sz n : ℕ) : Option ℕ → Type 0 where
  found : (i : ℕ) → i < n → IsEqual (c (a + i * sz)) → Searched c a sz n (some (a + i * sz))
  missing : ((i : ℕ) → i < n → IsUnequal (c (a + i * sz))) → Searched c a sz n (some 0)

module _ (c : ℕ → ℤ) (a sz n : ℕ) (o : IsOrdered c a sz n) where
  less_from :
      (m i : ℕ)
      → m ≤ i
      → i < n
      → is_negative (c (a + m * sz)) ≡ true
      → is_negative (c (a + i * sz)) ≡ true
  less_from m i h k e = elim (Bool-cases (ltb m i)) [
    | inl f ↦ o.less_last m i (ground arith) k e
    | inr f ↦
        subst (λ (j : ℕ). is_negative (c (a + j * sz)) ≡ true) {x = m} {y = i} (ground arith) e
  ]

  greater_to :
      (m i : ℕ)
      → i ≤ m
      → m < n
      → is_positive (c (a + m * sz)) ≡ true
      → is_positive (c (a + i * sz)) ≡ true
  greater_to m i h k e = elim (Bool-cases (ltb i m)) [
    | inl f ↦ o.greater_first i m (ground arith) k e
    | inr f ↦
        subst (λ (j : ℕ). is_positive (c (a + j * sz)) ≡ true) {x = m} {y = i} (ground arith) e
  ]

search_loop-Searched :
    (c : ℕ → ℤ) (a sz n fuel lo hi : ℕ)
    → IsOrdered c a sz n
    → hi - lo < fuel
    → lo ≤ hi
    → hi ≤ n
    → ((i : ℕ) → i < lo → is_positive (c (a + i * sz)) ≡ true)
    → ((i : ℕ) → hi ≤ i → i < n → is_negative (c (a + i * sz)) ≡ true)
    → Searched c a sz n (search_loop c a sz fuel lo hi)
unfolding search_loop
search_loop-Searched c a sz n zero lo hi o h p q l g = absurd (omega arith)
search_loop-Searched c a sz n (suc fuel) lo hi o h p q l g = elim (Bool-cases (ltb lo hi)) [
  | inr e ↦ rw e (
      missing (λ i k. elim (Bool-cases (ltb i lo)) [
        | inl f ↦ inr (l i (ground arith))
        | inr f ↦ inl (g i (ground arith) k)
      ]))
  | inl e ↦
      let m : ℕ = lo + (hi - lo) / 2 in
      let in_range : (lo ≤ m) × (m < hi) = (omega arith, ground arith) in
      rw e (elim (Bool-cases (is_negative (c (a + m * sz)))) [
        | inl f ↦ rw f (
            search_loop-Searched c a sz n fuel lo m o (omega (arith, in_range))
              (omega (arith, in_range)) (omega (arith, in_range)) l
              (λ i w k. less_from c a sz n o m i w k f))
        | inr f ↦ rw f (elim (Bool-cases (is_positive (c (a + m * sz)))) [
          | inl k ↦ rw k (
              search_loop-Searched c a sz n fuel (m + 1) hi o (omega (arith, in_range))
                (omega (arith, in_range)) q
                (λ i w. greater_to c a sz n o m i (omega arith) (omega (arith, in_range)) k) g)
          | inr k ↦ rw k (found m (omega (arith, in_range)) (f, k))
        ])
      ])
]

-- `bsearch` in elements that the comparison with the key finds in order, first those that the key is
-- greater than, then those that it is equal to, then those that it is less than, ends: with the address
-- of an element that compares equal, or with null, and then none does.
pub bsearch-Searched :
    (cmp : Comparison) (m : Memory) (key base n sz : ℕ)
    → IsOrdered (cmp m key) base sz n
    → Searched (cmp m key) base sz n (bsearch cmp m key base n sz)
unfolding bsearch
bsearch-Searched cmp m key base n sz o =
    search_loop-Searched (cmp m key) base sz n (n + 1) 0 n o (omega arith) (omega arith)
      (omega arith) (λ i h. absurd (omega arith)) (λ i h k. absurd (omega arith))
