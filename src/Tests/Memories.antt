-- ===== src/Tests/Memories.antt =====
-- The allocators and the memory functions on concrete heaps.
use haskell_os.Base.{ℕ, ◌+◌, ◌-◌, ◌^◌, ◌<◌, ◌≡◌, refl, arith, [], ◌∷◌}
use haskell_os.Base.Io.{done}
use haskell_os.Hal.Heap.{Heap, align_up, kmalloc, store32}
use haskell_os.Hal.Heap.Alloc.{IsHeap, Allocated, kmalloc-Allocated, kmalloc-wraps}
use haskell_os.Hal.Heap.Apart.{allocs, Serves, allocs-Serves}
use haskell_os.Libc.Memory.{memmove}
use haskell_os.Libc.Memory.Copy.{memmove-copied}
use haskell_os.Libc.Alloc.{realloc}
use haskell_os.Libc.Alloc.Blocks.{IsBlock, IsFresh, realloc-copied}

-- A heap with a block of 6 bytes at 4104.
abbrev small_heap : Heap
small_heap = record { heap_ptr = 4110; heap_end = 8192; memory = store32 (λ q. 9) 4096 6 }

small_heap-IsHeap : IsHeap small_heap
small_heap-IsHeap = record { inside = omega arith; low = omega arith }

small_heap-IsBlock : IsBlock small_heap 4104 6
small_heap-IsBlock = record {
  aligned = refl;
  headed = omega arith;
  inside = omega arith;
  size = refl;
}

kmalloc-Allocated_example : Allocated small_heap 13 [] (kmalloc 13 small_heap [])
kmalloc-Allocated_example = kmalloc-Allocated small_heap 13 [] small_heap-IsHeap (omega arith)

kmalloc-wraps_example :
    (h' : Heap) × (kmalloc (2 ^ 32 - 16) small_heap [] ≡ done 4112 h' [] [])
    × (8192 < 4112 + (2 ^ 32 - 16))
    × (h'.heap_ptr < 4112)
unfolding align_up
kmalloc-wraps_example =
    kmalloc-wraps small_heap (2 ^ 32 - 16) [] small_heap-IsHeap (omega arith) (omega arith)
      (omega arith)

allocs-Serves_example :
    Serves small_heap (13 ∷ 1 ∷ 100 ∷ []) [] (allocs (13 ∷ 1 ∷ 100 ∷ []) small_heap [])
allocs-Serves_example =
    allocs-Serves (13 ∷ 1 ∷ 100 ∷ []) [] small_heap small_heap-IsHeap (omega arith)

-- The source overlaps the destination from below.
memmove-copied_example : memmove (λ q. q) 12 10 5 15 ≡ 13
memmove-copied_example = memmove-copied (λ q. q) 12 10 5 15

realloc-copied_example :
    (p : ℕ) × (h' : Heap) × (realloc 4104 20 small_heap [] ≡ done p h' [] [])
    × IsFresh small_heap p 20 h'
    × ((i : ℕ) → i < 6 → h'.memory (p + i) ≡ small_heap.memory (4104 + i))
realloc-copied_example =
    realloc-copied small_heap 4104 6 20 [] small_heap-IsBlock (ground arith) (omega arith)
      small_heap-IsHeap
