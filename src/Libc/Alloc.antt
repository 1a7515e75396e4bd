-- ===== src/Libc/Alloc.antt =====
-- `malloc` and its kin in c/rts-stubs.c, over `kmalloc`: a block of memory behind a header of eight
-- bytes that holds its size.
pub mod Blocks
use haskell_os.Base.{ℕ, ◌+◌, ◌-◌, ◌*◌, ◌^◌, ltb, ◌==◌, if◌then◌else◌, u32, sub32}
use haskell_os.Base.Io.{M, ◌>>=◌, ◌>>◌, pure, gets, modify}
use haskell_os.Hal.Heap.{Heap, Memory, store32, kmalloc}
use haskell_os.Libc.Memory.{memset, memcpy}

abbrev pub malloc_header_size : ℕ
malloc_header_size = 8

abbrev pub load32 : Memory → ℕ → ℕ
load32 m a = m a + m (a + 1) * 2 ^ 8 + m (a + 2) * 2 ^ 16 + m (a + 3) * 2 ^ 24

abbrev pub in_memory : (Memory → Memory) → Heap → Heap
in_memory f h = record h { memory = f h.memory }

unfoldable pub malloc : ℕ → M Heap ℕ
malloc size = do
  raw ← kmalloc (u32 (size + malloc_header_size))
  modify (in_memory (λ m. store32 m raw size))
  pure (raw + malloc_header_size)

unfoldable pub free : ℕ → M Heap (Unit {0})
free ptr = pure tt

unfoldable pub calloc : ℕ → ℕ → M Heap ℕ
calloc nmemb size = do
  p ← malloc (u32 (nmemb * size))
  modify (in_memory (λ m. memset m p 0 (u32 (nmemb * size))))
  pure p

-- The number of bytes that `realloc` carries over.
abbrev pub to_copy : ℕ → ℕ → ℕ
to_copy old_size size = if ltb old_size size then old_size else size

unfoldable pub realloc : ℕ → ℕ → M Heap ℕ
unfolding free
realloc ptr size = if size == 0 then (free ptr >> pure 0) else if ptr == 0 then malloc size else do
  old_size ← gets (λ h. load32 h.memory (ptr - malloc_header_size))
  p ← malloc size
  modify (in_memory (λ m. memcpy m p ptr (to_copy old_size size)))
  pure p
