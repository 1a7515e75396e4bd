-- ===== src/Libc/Sort.antt =====
-- `qsort` and `bsearch` of c/rts-stubs.c. The comparison is the caller's; it reads the memory at two
-- addresses.
pub mod Search
pub mod Sequence
pub mod Insert
pub mod Sorted
use haskell_os.Base.{
  ℕ, zero, suc, ◌+◌, ◌-◌, ◌*◌, ◌/◌, ltb, if◌then◌else◌, Bool, true, false, Option, none, some,
}
use haskell_os.Base.Int.{ℤ, pos, negsuc, is_negative, is_positive}
use haskell_os.Base.Io.{M, ◌>>=◌, ◌>>◌, modify}
use haskell_os.Hal.Heap.{Heap, Memory}
use haskell_os.Libc.Memory.{memcpy}
use haskell_os.Libc.Alloc.{in_memory, malloc, free}

abbrev pub Comparison : Type 0
Comparison = Memory → ℕ → ℕ → ℤ

-- The inner loop of `qsort` with the copy behind it, from `j + 1` on: the elements that compare greater
-- than the one at `tmp` move up, and that one goes into the gap.
unfoldable pub insert : Comparison → ℕ → ℕ → ℕ → ℕ → Memory → Memory
insert cmp a sz tmp zero m = memcpy m (a + 0 * sz) tmp sz
insert cmp a sz tmp (suc j) m =
    let rest = insert cmp a sz tmp j (memcpy m (a + (j + 1) * sz) (a + j * sz) sz) in
    if is_positive (cmp m (a + j * sz) tmp) then rest else memcpy m (a + (j + 1) * sz) tmp sz

-- The outer loop from `i` on, with the rounds left.
unfoldable pub sort_loop : Comparison → ℕ → ℕ → ℕ → ℕ → ℕ → Memory → Memory
sort_loop cmp a sz tmp zero i m = m
sort_loop cmp a sz tmp (suc rounds) i m =
    sort_loop cmp a sz tmp rounds (i + 1) (insert cmp a sz tmp i (memcpy m tmp (a + i * sz) sz))

unfoldable pub qsort : Comparison → ℕ → ℕ → ℕ → M Heap (Unit {0})
qsort cmp base n sz = do
  tmp ← malloc sz
  modify (in_memory (sort_loop cmp base sz tmp (n - 1) 1))
  free tmp

-- The loop of `bsearch`, with fuel for its rounds; 0 is the null pointer.
unfoldable pub search_loop : (ℕ → ℤ) → ℕ → ℕ → ℕ → ℕ → ℕ → Option ℕ
search_loop c a sz zero lo hi = none
search_loop c a sz (suc fuel) lo hi =
    let m = lo + (hi - lo) / 2 in
    let below = search_loop c a sz fuel lo m in
    let above = search_loop c a sz fuel (m + 1) hi in
    if ltb lo hi
    then (if is_negative (c (a + m * sz))
        then below
        else if is_positive (c (a + m * sz))
        then above
        else some (a + m * sz))
    else some 0

-- A round halves the range, so as many rounds as elements and one more are enough.
unfoldable pub bsearch : Comparison → Memory → ℕ → ℕ → ℕ → ℕ → Option ℕ
bsearch cmp m key base n sz = search_loop (λ e. cmp m key e) base sz (n + 1) 0 n
