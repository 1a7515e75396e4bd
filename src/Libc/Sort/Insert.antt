-- ===== src/Libc/Sort/Insert.antt =====
-- The inner loop of `qsort` of c/rts-stubs.c puts an element in its place among those before it.
use native.Mathlib.Nat.{mul-le-mul_right}
use haskell_os.Base.{
  ℕ, zero, suc, ◌+◌, ◌-◌, ◌*◌, ◌<◌, ◌≤◌, ◌≡◌, ◌⊎◌, inl, inr, ◌∙◌, sym, ap, refl, arith, Bool, true,
  false, ltb, ◌==◌, Bool-cases, List, ◌∷◌,
}
use haskell_os.Base.Int.{ℤ, is_positive}
use haskell_os.Hal.Heap.{Memory}
use haskell_os.Libc.Memory.{memcpy}
use haskell_os.Libc.Memory.Copy.{memcpy-copied}
use haskell_os.Libc.Memory.Compare.{bytes_at}
use haskell_os.Libc.Sort.{Comparison, insert}
use haskell_os.Libc.Sort.Sequence.{IsInserted}

-- The bytes of the element at the index `i`.
abbrev pub element : Memory → ℕ → ℕ → ℕ → List ℕ
element m a sz i = bytes_at m (a + i * sz) sz

abbrev pub greater_by : (List ℕ → List ℕ → ℤ) → List ℕ → List ℕ → Bool
greater_by c x y = is_positive (c x y)

-- The comparison looks at the bytes of the two elements and at nothing else.
pub record Compares (cmp : Comparison) (c : List ℕ → List ℕ → ℤ) (sz : ℕ) : Type 0 where
  pub by_bytes : (m : Memory) (p q : ℕ) → cmp m p q ≡ c (bytes_at m p sz) (bytes_at m q sz)

pub bytes_at-same :
    (k : ℕ) (m m' : Memory) (p q : ℕ)
    → ((i : ℕ) → i < k → m (p + i) ≡ m' (q + i))
    → bytes_at m p k ≡ bytes_at m' q k
bytes_at-same zero m m' p q h = refl
bytes_at-same (suc k) m m' p q h =
    ap (λ (b : ℕ). b ∷ bytes_at m (p + 1) k) (head_same)
    ∙ ap (λ (bs : List ℕ). m' q ∷ bs) (bytes_at-same k m m' (p + 1) (q + 1) (λ i l. tail_same i l))
  where
    head_same : m p ≡ m' q
    head_same =
        ap m {x = p} {y = p + 0} (omega arith)
        ∙ h 0 (omega arith)
        ∙ ap m' {x = q + 0} {y = q} (omega arith)

    tail_same : (i : ℕ) → i < k → m (p + 1 + i) ≡ m' (q + 1 + i)
    tail_same i l =
        ap m {x = p + 1 + i} {y = p + (i + 1)} (omega arith)
        ∙ h (i + 1) (omega arith)
        ∙ ap m' {x = q + (i + 1)} {y = q + 1 + i} (omega arith)

pub bytes_at-memcpy :
    (m : Memory) (d s k : ℕ)
    → (d ≤ s) ⊎ (s + k ≤ d)
    → bytes_at (memcpy m d s k) d k ≡ bytes_at m s k
bytes_at-memcpy m d s k h = bytes_at-same k (memcpy m d s k) m d s (λ i l. same i l)
  where
    same : (i : ℕ) → i < k → memcpy m d s k (d + i) ≡ m (s + i)
    same i l =
        memcpy-copied m d s k (d + i) h
        ∙ ground (arith, ap m {x = s + (d + i - d)} {y = s + i} (omega arith))

pub bytes_at-memcpy_apart :
    (m : Memory) (d s k q : ℕ)
    → (d ≤ s) ⊎ (s + k ≤ d)
    → (q + k ≤ d) ⊎ (d + k ≤ q)
    → bytes_at (memcpy m d s k) q k ≡ bytes_at m q k
bytes_at-memcpy_apart m d s k q h away =
    bytes_at-same k (memcpy m d s k) m q q (λ i l. memcpy-copied m d s k (q + i) h ∙ ground arith)

pub slot_below : (a sz i j : ℕ) → i < j → a + i * sz + sz ≤ a + j * sz
slot_below a sz i j h = omega (arith, mul-le-mul_right {m = i + 1} {n = j} sz (omega arith))

slots_apart :
    (a sz i j : ℕ)
    → (i == j) ≡ false
    → (a + i * sz + sz ≤ a + j * sz) ⊎ (a + j * sz + sz ≤ a + i * sz)
slots_apart a sz i j h = elim (Bool-cases (ltb i j)) [
  | inl e ↦ inl (slot_below a sz i j (ground arith))
  | inr e ↦ inr (slot_below a sz j i (ground arith))
]

-- An array of `n` elements of `sz` bytes from `a` on, and the buffer of one element behind it.
module _ (cmp : Comparison) (c : List ℕ → List ℕ → ℤ) (a sz n tmp : ℕ)
    (by_bytes : Compares cmp c sz) (behind : a + n * sz ≤ tmp) where
  within_array : (i : ℕ) → i < n → a + i * sz + sz ≤ tmp
  within_array i h = omega (arith, slot_below a sz i n h)

  -- The buffer goes to the slot `d`.
  element-from_buffer :
      (m : Memory) (d i : ℕ)
      → d < n
      → i < n
      → (i == d) ≡ false
      → element (memcpy m (a + d * sz) tmp sz) a sz i ≡ element m a sz i
  element-from_buffer m d i h k e =
      bytes_at-memcpy_apart m (a + d * sz) tmp sz (a + i * sz)
        (inl (omega (arith, within_array d h))) (slots_apart a sz i d e)

  element-buffer :
      (m : Memory) (d : ℕ)
      → d < n
      → element (memcpy m (a + d * sz) tmp sz) a sz d ≡ bytes_at m tmp sz
  element-buffer m d h =
      bytes_at-memcpy m (a + d * sz) tmp sz (inl (omega (arith, within_array d h)))

  -- The slot `j` moves up.
  module _ (m : Memory) (j : ℕ) (fits : j + 1 < n) where
    abbrev up : Memory
    up = memcpy m (a + (j + 1) * sz) (a + j * sz) sz

    next_slot : (a + (j + 1) * sz ≤ a + j * sz) ⊎ (a + j * sz + sz ≤ a + (j + 1) * sz)
    next_slot = inr (slot_below a sz j (j + 1) (omega arith))

    up_here : element up a sz (j + 1) ≡ element m a sz j
    up_here = bytes_at-memcpy m (a + (j + 1) * sz) (a + j * sz) sz next_slot

    up_other : (i : ℕ) → i < n → (i == j + 1) ≡ false → element up a sz i ≡ element m a sz i
    up_other i h e =
        bytes_at-memcpy_apart m (a + (j + 1) * sz) (a + j * sz) sz (a + i * sz) next_slot
          (slots_apart a sz i (j + 1) e)

    up_buffer : bytes_at up tmp sz ≡ bytes_at m tmp sz
    up_buffer =
        bytes_at-memcpy_apart m (a + (j + 1) * sz) (a + j * sz) sz tmp next_slot
          (inr (omega (arith, within_array (j + 1) fits)))

    test_by_bytes :
        is_positive (cmp m (a + j * sz) tmp) ≡ greater_by c (element m a sz j) (bytes_at m tmp sz)
    test_by_bytes = ap is_positive (by_bytes.by_bytes m (a + j * sz) tmp)

    up-IsInserted :
        (f : Memory)
        → greater_by c (element m a sz j) (bytes_at m tmp sz) ≡ true
        → IsInserted (greater_by c) n j (bytes_at up tmp sz) (element up a sz) (element f a sz)
        → IsInserted (greater_by c) n (suc j) (bytes_at m tmp sz) (element m a sz) (element f a sz)
    up-IsInserted f test r = record {
      place = r.place;
      inside = omega (arith, r.inside);
      here = r.here ∙ up_buffer;
      below = λ i l. r.below i l ∙ up_other i (omega (arith, r.inside)) (ground (arith, r.inside));
      moved = λ i l k. elim (Bool-cases (i == j)) [
        | inl e ↦
            ap (element f a sz) {x = i + 1} {y = j + 1} (ground arith)
            ∙ r.above (j + 1) (omega arith) fits
            ∙ up_here
            ∙ ap (element m a sz) {x = j} {y = i} (ground arith)
        | inr e ↦ r.moved i l (ground arith) ∙ up_other i (omega arith) (ground arith)
      ];
      above = λ i l k. r.above i (omega arith) k ∙ up_other i k (ground arith);
      greater = λ i l k. elim (Bool-cases (i == j)) [
        | inl e ↦
            ap (λ (t : ℕ). greater_by c (element m a sz t) (bytes_at m tmp sz)) {x = i} {y = j}
              (ground arith)
            ∙ test
        | inr e ↦ same_test i (omega arith) (ground arith) ∙ r.greater i l (ground arith)
      ];
      behind =
          λ i e. same_test i (omega (arith, r.inside)) (ground (arith, r.inside)) ∙ r.behind i e;
    }
      where
        same_test :
            (i : ℕ)
            → i < n
            → (i == j + 1) ≡ false
            → greater_by c (element m a sz i) (bytes_at m tmp sz)
              ≡ greater_by c (element up a sz i) (bytes_at up tmp sz)
        same_test i l e =
            ap (λ (b : List ℕ). greater_by c b (bytes_at m tmp sz)) (sym (up_other i l e))
            ∙ ap (λ (b : List ℕ). greater_by c (element up a sz i) b) (sym up_buffer)

    stays-IsInserted :
        greater_by c (element m a sz j) (bytes_at m tmp sz) ≡ false
        → IsInserted
            (greater_by c)
            n
            (suc j)
            (bytes_at m tmp sz)
            (element m a sz)
            (element (memcpy m (a + (j + 1) * sz) tmp sz) a sz)
    stays-IsInserted test = record {
      place = j + 1;
      inside = omega arith;
      here = element-buffer m (j + 1) fits;
      below = λ i l. element-from_buffer m (j + 1) i fits (omega arith) (ground arith);
      moved = λ i l k. absurd (omega arith);
      above = λ i l k. element-from_buffer m (j + 1) i fits k (ground arith);
      greater = λ i l k. absurd (omega arith);
      behind = λ i e.
          ap (λ (t : ℕ). greater_by c (element m a sz t) (bytes_at m tmp sz)) {x = i} {y = j}
            (omega arith)
          ∙ test;
    }

  pub insert-IsInserted :
      (j : ℕ) (m : Memory)
      → j < n
      → IsInserted
          (greater_by c)
          n
          j
          (bytes_at m tmp sz)
          (element m a sz)
          (element (insert cmp a sz tmp j m) a sz)
  unfolding insert
  insert-IsInserted zero m h = record {
    place = 0;
    inside = omega arith;
    here = element-buffer m 0 h;
    below = λ i l. absurd (omega arith);
    moved = λ i l k. absurd (omega arith);
    above = λ i l k. element-from_buffer m 0 i h k (ground arith);
    greater = λ i l k. absurd (omega arith);
    behind = λ i e. absurd (omega arith);
  }
  insert-IsInserted (suc j) m h = elim (Bool-cases (is_positive (cmp m (a + j * sz) tmp))) [
    | inl e ↦ rw e (
        up-IsInserted m j (omega arith) (insert cmp a sz tmp j (up m j (omega arith)))
          (sym (test_by_bytes m j (omega arith)) ∙ e)
          (insert-IsInserted j (up m j (omega arith)) (omega arith)))
    | inr e ↦ rw e (stays-IsInserted m j (omega arith) (sym (test_by_bytes m j (omega arith)) ∙ e))
  ]
