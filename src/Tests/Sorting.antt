-- ===== src/Tests/Sorting.antt =====
-- `qsort` of c/rts-stubs.c on an array of two-byte elements, compared by their first byte.
use haskell_os.Base.{ℕ, ◌-◌, ◌≡◌, refl, arith, List, [], ◌∷◌, ltb, if◌then◌else◌}
use haskell_os.Base.Int.{ℤ, pos, negsuc}
use haskell_os.Base.Io.{done}
use haskell_os.Hal.Heap.{Heap}
use haskell_os.Hal.Heap.Alloc.{IsHeap}
use haskell_os.Libc.Memory.{memcpy}
use haskell_os.Libc.Memory.Compare.{bytes_at}
use haskell_os.Libc.Sort.{Comparison, insert, sort_loop, qsort}
use haskell_os.Libc.Sort.Sequence.{IsOrder}
use haskell_os.Libc.Sort.Insert.{greater_by, Compares}
use haskell_os.Libc.Sort.Sorted.{Sorts, qsort-Sorts}

abbrev three_way : ℕ → ℕ → ℤ
three_way a b = if ltb a b then negsuc 0 else if ltb b a then pos 1 else pos 0

abbrev first_byte : List ℕ → ℕ
first_byte [] = 0
first_byte (b ∷ bs) = b

abbrev by_first : List ℕ → List ℕ → ℤ
by_first x y = three_way (first_byte x) (first_byte y)

abbrev compare_first : Comparison
compare_first m p q = three_way (m p) (m q)

compare_first-Compares : Compares compare_first by_first 2
compare_first-Compares = record { by_bytes = λ m p q. refl }

by_first-IsOrder : IsOrder (greater_by by_first)
by_first-IsOrder = record { one_way = λ x y e. ground arith; through = λ x y z e f. ground arith }

-- Three elements from 4096 on, whose first bytes are 7, 5 and 3.
abbrev unsorted : Heap
unsorted = record { heap_ptr = 4104; heap_end = 8192; memory = λ q. 4103 - q }

unsorted-IsHeap : IsHeap unsorted
unsorted-IsHeap = record { inside = omega arith; low = omega arith }

qsort-Sorts_example :
    (h' : Heap) × (qsort compare_first 4096 3 2 unsorted [] ≡ done tt h' [] [])
    × Sorts by_first 4096 3 2 unsorted h'
qsort-Sorts_example =
    qsort-Sorts compare_first by_first 4096 3 2 unsorted [] compare_first-Compares by_first-IsOrder
      (omega arith) (omega arith) unsorted-IsHeap

-- The loops on the three elements, with the buffer at 5000.
sorted_bytes :
    bytes_at (sort_loop compare_first 4096 2 5000 2 1 unsorted.memory) 4096 6
    ≡ 3 ∷ 2 ∷ 5 ∷ 4 ∷ 7 ∷ 6 ∷ []
unfolding sort_loop insert memcpy
sorted_bytes = refl
