-- ===== src/Tests/Cells.antt =====
-- The bitmap of free cells of c/eval.c on a concrete map.
use haskell_os.Base.{ℕ, ◌<◌, ◌^◌, arith, ◌==◌, if◌then◌else◌}
use haskell_os.Eval.FreeMap.{Cells, alloc_node}
use haskell_os.Eval.FreeMap.Alloc.{Allocated, alloc_node-Allocated}

-- The cells 34 and 35 are free.
abbrev two_free : Cells
two_free = record {
  free_map = λ j. if j == 1 then 12 else 0;
  free_map_nwords = 2;
  heap_start = 32;
  next_scan_index = 33;
  num_free = 2;
  num_alloc = 0;
  tags = λ c. 0;
}

two_free_words : (j : ℕ) → two_free.free_map j < 2 ^ 32
two_free_words j = ground arith

alloc_node-Allocated_example : Allocated two_free (alloc_node 1 5 two_free)
alloc_node-Allocated_example =
    alloc_node-Allocated 1 5 1 two_free (λ e. omega arith) (omega arith) (omega arith)
      two_free_words (omega arith) (omega arith) (λ e. omega arith)
