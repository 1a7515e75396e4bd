-- ===== src/Libc/Sort/Sorted.antt =====
-- `qsort` of c/rts-stubs.c sorts.
use mathlib.Core.Path.{subst}
use haskell_os.Base.{
  ℕ, zero, suc, ◌+◌, ◌-◌, ◌*◌, ◌<◌, ◌≤◌, ◌≡◌, ◌⊎◌, inl, inr, ◌∙◌, sym, refl, arith, false,
  Bool-cases, ltb, List, [],
}
use haskell_os.Base.Int.{ℤ, is_positive}
use haskell_os.Base.Io.{done}
use haskell_os.Hal.Heap.{Heap, Memory}
use haskell_os.Hal.Heap.Alloc.{IsHeap}
use haskell_os.Libc.Memory.{memcpy}
use haskell_os.Libc.Memory.Copy.{within, memcpy-copied}
use haskell_os.Libc.Memory.Compare.{bytes_at}
use haskell_os.Libc.Alloc.{in_memory, free}
use haskell_os.Libc.Alloc.Blocks.{HasRoom, malloc-IsFresh}
use haskell_os.Libc.Sort.{Comparison, insert, sort_loop, qsort}
use haskell_os.Libc.Sort.Sequence.{
  IsRearranged, IsSorted, IsOrder, IsRearranged-refl, IsRearranged-trans, IsInserted-IsRearranged,
  IsInserted-IsSorted,
}
use haskell_os.Libc.Sort.Insert.{
  element, greater_by, Compares, bytes_at-same, bytes_at-memcpy, bytes_at-memcpy_apart, slot_below,
  insert-IsInserted,
}

-- The array in `f` is the one in `m`, sorted, and only the array and the buffer changed.
record SortsTo (c : List ℕ → List ℕ → ℤ) (a sz n tmp k : ℕ) (m f : Memory) : Type 0 where
  sorted : IsSorted (greater_by c) k (element f a sz)
  rearranged : IsRearranged n (element m a sz) (element f a sz)
  kept : (q : ℕ) → within a (n * sz) q ≡ false → within tmp sz q ≡ false → f q ≡ m q

module _ (cmp : Comparison) (c : List ℕ → List ℕ → ℤ) (a sz n tmp : ℕ)
    (by_bytes : Compares cmp c sz) (behind : a + n * sz ≤ tmp) where
  copy_kept :
      (m : Memory) (d s q : ℕ)
      → d < n
      → (a + d * sz ≤ s) ⊎ (s + sz ≤ a + d * sz)
      → within a (n * sz) q ≡ false
      → memcpy m (a + d * sz) s sz q ≡ m q
  copy_kept m d s q h o e =
      memcpy-copied m (a + d * sz) s sz q o ∙ ground (arith, slot_below a sz d n h)

  insert_kept :
      (j : ℕ) (m : Memory) (q : ℕ)
      → j < n
      → within a (n * sz) q ≡ false
      → insert cmp a sz tmp j m q ≡ m q
  unfolding insert
  insert_kept zero m q h e = copy_kept m 0 tmp q h (inl (omega (arith, slot_below a sz 0 n h))) e
  insert_kept (suc j) m q h e = elim (Bool-cases (is_positive (cmp m (a + j * sz) tmp))) [
    | inl p ↦ rw p (
        insert_kept j (memcpy m (a + (j + 1) * sz) (a + j * sz) sz) q (omega arith) e
        ∙ copy_kept m (j + 1) (a + j * sz) q (omega arith)
            (inr (slot_below a sz j (j + 1) (omega arith))) e)
    | inr p ↦ rw p (
        copy_kept m (j + 1) tmp q (omega arith)
          (inl (omega (arith, slot_below a sz (j + 1) n (omega arith)))) e)
  ]

  -- One round of the outer loop.
  module _ (m : Memory) (i : ℕ) (inside : i < n) where
    abbrev saved : Memory
    saved = memcpy m tmp (a + i * sz) sz

    end_of_slot : (l : ℕ) → l < n → a + l * sz + sz ≤ tmp
    end_of_slot l h = omega (arith, slot_below a sz l n h)

    saved_buffer : bytes_at saved tmp sz ≡ element m a sz i
    saved_buffer = bytes_at-memcpy m tmp (a + i * sz) sz (inr (end_of_slot i inside))

    saved-element : (l : ℕ) → l < n → element saved a sz l ≡ element m a sz l
    saved-element l h =
        bytes_at-memcpy_apart m tmp (a + i * sz) sz (a + l * sz) (inr (end_of_slot i inside))
          (inl (end_of_slot l h))

    round-SortsTo :
        IsOrder (greater_by c)
        → IsSorted (greater_by c) i (element m a sz)
        → SortsTo c a sz n tmp (i + 1) m (insert cmp a sz tmp i saved)
    round-SortsTo o s =
        let r = insert-IsInserted cmp c a sz n tmp by_bytes behind i saved inside in
        record {
          sorted =
              IsInserted-IsSorted (greater_by c) n i (bytes_at saved tmp sz) (element saved a sz)
                (element (insert cmp a sz tmp i saved) a sz) r o saved_sorted;
          rearranged =
              IsRearranged-trans n (element m a sz) (element saved a sz)
                (element (insert cmp a sz tmp i saved) a sz)
                (IsRearranged-refl n (element m a sz) (element saved a sz) saved-element)
                (IsInserted-IsRearranged (greater_by c) n i (bytes_at saved tmp sz)
                  (element saved a sz) (element (insert cmp a sz tmp i saved) a sz) r inside
                  (saved-element i inside ∙ sym saved_buffer));
          kept = λ q e f.
              insert_kept i saved q inside e
              ∙ memcpy-copied m tmp (a + i * sz) sz q (inr (end_of_slot i inside))
              ∙ ground arith;
        }
      where
        saved_sorted : IsSorted (greater_by c) i (element saved a sz)
        saved_sorted = record {
          ordered = λ l k h e.
              rw (saved-element l (omega arith), saved-element k (omega arith)) (s.ordered l k h e);
        }

  -- The rounds from `i` on sort the first `k` elements, if the first `i` were in order.
  sort_loop-SortsTo :
      (rounds i k : ℕ) (m : Memory)
      → IsOrder (greater_by c)
      → k ≤ i + rounds
      → i + rounds ≤ n
      → IsSorted (greater_by c) i (element m a sz)
      → SortsTo c a sz n tmp k m (sort_loop cmp a sz tmp rounds i m)
  unfolding sort_loop
  sort_loop-SortsTo zero i k m o e h s = record {
    sorted = record { ordered = λ l j p q. s.ordered l j p (omega arith) };
    rearranged = IsRearranged-refl n (element m a sz) (element m a sz) (λ l p. refl);
    kept = λ q p r. refl;
  }
  sort_loop-SortsTo (suc rounds) i k m o e h s =
      let one = round-SortsTo m i (omega arith) o s in
      let next = insert cmp a sz tmp i (memcpy m tmp (a + i * sz) sz) in
      let rest = sort_loop-SortsTo rounds (i + 1) k next o (omega arith) (omega arith) one.sorted in
      record {
        sorted = rest.sorted;
        rearranged =
            IsRearranged-trans n (element m a sz) (element next a sz)
              (element (sort_loop cmp a sz tmp rounds (i + 1) next) a sz) one.rearranged
              rest.rearranged;
        kept = λ q p r. rest.kept q p r ∙ one.kept q p r;
      }

  sorts-SortsTo :
      (m : Memory)
      → IsOrder (greater_by c)
      → SortsTo c a sz n tmp n m (sort_loop cmp a sz tmp (n - 1) 1 m)
  unfolding sort_loop
  sorts-SortsTo m o = elim (Bool-cases (ltb 0 n)) [
    | inl e ↦
        sort_loop-SortsTo (n - 1) 1 n m o (omega arith) (ground arith)
          (record { ordered = λ l j p q. absurd (omega arith) })
    | inr e ↦
        subst (λ (r : ℕ). SortsTo c a sz n tmp n m (sort_loop cmp a sz tmp r 1 m)) {x = 0}
          {y = n - 1} (ground arith)
          (record {
            sorted = record { ordered = λ l j p q. absurd (ground arith) };
            rearranged = IsRearranged-refl n (element m a sz) (element m a sz) (λ l p. refl);
            kept = λ q p r. refl;
          })
  ]

-- What `qsort` leaves of an array: its elements in order, and every other byte that was in use.
pub record Sorts (c : List ℕ → List ℕ → ℤ) (base n sz : ℕ) (h h' : Heap) : Type 0 where
  pub sorted : IsSorted (greater_by c) n (element h'.memory base sz)
  pub rearranged : IsRearranged n (element h.memory base sz) (element h'.memory base sz)
  pub kept : (q : ℕ) → q < h.heap_ptr → within base (n * sz) q ≡ false → h'.memory q ≡ h.memory q

-- With room for one more element, `qsort` returns and leaves an array that lies in the used part of the
-- heap with the same elements in order, and every other byte of the used part as it was, if the
-- comparison looks at the bytes of its two elements only and orders them.
pub qsort-Sorts :
    (cmp : Comparison) (c : List ℕ → List ℕ → ℤ) (base n sz : ℕ) (h : Heap) (ins : List ℕ)
    → Compares cmp c sz
    → IsOrder (greater_by c)
    → base + n * sz ≤ h.heap_ptr
    → HasRoom h sz
    → IsHeap h
    → (h' : Heap) × (qsort cmp base n sz h ins ≡ done tt h' ins []) × Sorts c base n sz h h'
unfolding qsort free
qsort-Sorts cmp c base n sz h ins by_bytes o inside room ok =
    let (p, g, e, fresh) = malloc-IsFresh h sz ins room ok in
    let s = sorts-SortsTo cmp c base sz n p by_bytes (omega (arith, fresh.above)) g.memory o in
    (
      in_memory (sort_loop cmp base sz p (n - 1) 1) g,
      rw e refl,
      record {
        sorted = s.sorted;
        rearranged =
            IsRearranged-trans n (element h.memory base sz) (element g.memory base sz)
              (element (sort_loop cmp base sz p (n - 1) 1 g.memory) base sz)
              (IsRearranged-refl n (element h.memory base sz) (element g.memory base sz) (λ i l.
                bytes_at-same sz g.memory h.memory (base + i * sz) (base + i * sz) (λ j k.
                  fresh.kept (base + i * sz + j) (omega (arith, slot_below base sz i n l)))))
              s.rearranged;
        kept = λ q l f. s.kept q f (ground (arith, fresh.above)) ∙ fresh.kept q l;
      },
    )
