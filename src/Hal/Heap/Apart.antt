-- ===== src/Hal/Heap/Apart.antt =====
-- Blocks that are handed out one after another do not overlap, as long as no size wraps.
use mathlib.Core.Path.{subst}
use haskell_os.Base.{ℕ, ◌+◌, ◌%◌, ◌≤◌, ◌≡◌, refl, ◌∙◌, ap, arith, List, [], ◌∷◌}
use haskell_os.Base.Io.{Outcome, M, done, and_then, after, pure, ◌>>=◌}
use haskell_os.Hal.Heap.{Heap, kmalloc}
use haskell_os.Hal.Heap.Align.{IsRounded}
use haskell_os.Hal.Heap.Alloc.{
  IsHeap, Allocated, allocated, out_of_memory, unprinted, kmalloc-Allocated,
}

-- A client that allocates blocks of the given sizes, and keeps their addresses and sizes.
pub allocs : List ℕ → M Heap (List (ℕ × ℕ))
allocs [] = pure []
allocs (n ∷ ns) = do p ← kmalloc n; blocks ← allocs ns; pure ((p, n) ∷ blocks)

-- Room that suffices: each block with its rounding.
abbrev pub need : List ℕ → ℕ
need [] = 0
need (n ∷ ns) = 7 + n + need ns

-- Each block starts at a multiple of 8, at or above the end of the one before, and all end by `hi`.
abbrev pub Apart : ℕ → ℕ → List (ℕ × ℕ) → Type 0
Apart lo hi [] = lo ≤ hi
Apart lo hi ((p, n) ∷ blocks) = (lo ≤ p) × (p % 8 ≡ 0) × Apart (p + n) hi blocks

abbrev pub sizes : List (ℕ × ℕ) → List ℕ
sizes [] = []
sizes ((p, n) ∷ blocks) = n ∷ sizes blocks

-- The outcome of such a client.
pub record Served (h : Heap) (ns : List ℕ) (blocks : List (ℕ × ℕ)) (h' : Heap) : Type 0 where
  pub apart : Apart h.heap_ptr h'.heap_ptr blocks
  pub all_sizes : sizes blocks ≡ ns
  pub ends : h'.heap_end ≡ h.heap_end
  pub valid : IsHeap h'

pub data Serves (h : Heap) (ns ins : List ℕ) : Outcome Heap (List (ℕ × ℕ)) → Type 0 where
  serves :
      {blocks : List (ℕ × ℕ)} {h' : Heap}
      → Served h ns blocks h'
      → Serves h ns ins (done blocks h' ins [])

Serves-cons :
    (h g : Heap) (p n : ℕ) (ns ins : List ℕ)
    → IsRounded h.heap_ptr 8 p
    → g.heap_ptr ≡ p + n
    → g.heap_end ≡ h.heap_end
    → {o : Outcome Heap (List (ℕ × ℕ))} → Serves g ns ins o
    → Serves h (n ∷ ns) ins (after [] (and_then o (λ blocks. pure ((p, n) ∷ blocks))))
Serves-cons h g p n ns ins r e f (serves {blocks = bs} {h' = h'} s) = serves (record {
  apart = (r.above, r.multiple, subst (λ (t : ℕ). Apart t h'.heap_ptr bs) e s.apart);
  all_sizes = ap (λ t. n ∷ t) s.all_sizes;
  ends = s.ends ∙ f;
  valid = s.valid;
})

serve_next :
    (h : Heap) (n : ℕ) (ns ins : List ℕ)
    → h.heap_ptr + (7 + n + need ns) ≤ h.heap_end
    → {o : Outcome Heap ℕ} → Allocated h n ins o
    → ((g : Heap)
        → IsHeap g
        → g.heap_ptr + need ns ≤ g.heap_end
        → Serves g ns ins (allocs ns g ins))
    → Serves h (n ∷ ns) ins (and_then o (λ p. allocs ns >>= λ blocks. pure ((p, n) ∷ blocks)))
serve_next h n ns ins fits (allocated {p = p} {h' = g} r e f ok m) next =
    Serves-cons h g p n ns ins r e f (next g ok (omega (arith, r.below)))
serve_next h n ns ins fits (out_of_memory full s) next = absurd (omega arith)
serve_next h n ns ins fits (unprinted full s) next = absurd (omega arith)

-- If the sizes with their rounding fit between the heap's pointer and its end, every allocation
-- returns, and the blocks are aligned to 8 bytes, disjoint and inside the heap.
pub allocs-Serves :
    (ns ins : List ℕ) (h : Heap)
    → IsHeap h
    → h.heap_ptr + need ns ≤ h.heap_end
    → Serves h ns ins (allocs ns h ins)
unfolding allocs
allocs-Serves [] ins h ok fits =
    serves (record { apart = omega arith; all_sizes = refl; ends = refl; valid = ok })
allocs-Serves (n ∷ ns) ins h ok fits =
    serve_next h n ns ins fits (kmalloc-Allocated h n ins ok (omega (arith, ok.low)))
      (λ g. allocs-Serves ns ins g)
