-- ===== src/Hal/Heap.antt =====
-- The bump allocator of c/hal.c. Memory is a function from addresses to bytes.
pub mod Align
pub mod Alloc
pub mod Apart
use haskell_os.Base.{
  ℕ, zero, suc, ◌+◌, ◌-◌, ◌*◌, ◌/◌, ◌%◌, ◌^◌, bit_and, ltb, ◌==◌, if◌then◌else◌, List, [], ◌∷◌, u32,
  not32,
}
use haskell_os.Base.Io.{M, ◌>>=◌, ◌>>◌, pure, gets, modify, reboot}
use haskell_os.Hal.Uart.{uart_puts}

abbrev pub Memory : Type 0
Memory = ℕ → ℕ

abbrev pub store8 : Memory → ℕ → ℕ → Memory
store8 m a v q = if q == a then v else m q

-- A 32-bit store is little-endian.
abbrev pub store32 : Memory → ℕ → ℕ → Memory
store32 m a w =
    store8
      (store8 (store8 (store8 m a (w % 256)) (a + 1) (w / 2 ^ 8 % 256)) (a + 2) (w / 2 ^ 16 % 256))
      (a + 3) (w / 2 ^ 24 % 256)

-- The globals `heap_ptr` and `heap_end`, and the memory.
pub record Heap : Type 0 where
  pub heap_ptr : ℕ
  pub heap_end : ℕ
  pub memory : Memory

abbrev pub heap_size : ℕ
heap_size = 200 * 1024 * 1024

-- `(x + a - 1) & ~(a - 1)`, in 32 bits.
unfoldable pub align_up : ℕ → ℕ → ℕ
align_up x a = bit_and (u32 (x + a + 2 ^ 32 - 1)) (not32 (u32 (a + 2 ^ 32 - 1)))

-- `start` is the address of the linker's `__heap_start__`.
unfoldable pub heap_init : ℕ → M Heap (Unit {0})
unfolding align_up
heap_init start = do
  modify (λ h. record h { heap_ptr = start })
  modify (λ h. record h { heap_ptr = align_up h.heap_ptr 8 })
  modify (λ h. record h { heap_end = u32 (h.heap_ptr + heap_size) })

-- `for (i = 0; i < nwords; i++) wp[i] = 0;` from the word at `a` on.
unfoldable pub zero_words : ℕ → ℕ → Memory → Memory
zero_words zero a m = m
zero_words (suc n) a m = zero_words n (a + 4) (store32 m a 0)

-- "PANIC: kmalloc out of memory!\r\n"
abbrev pub panic_text : List ℕ
panic_text =
    b'P' ∷ b'A' ∷ b'N' ∷ b'I' ∷ b'C' ∷ b':' ∷ b' ' ∷ b'k' ∷ b'm' ∷ b'a' ∷ b'l' ∷ b'l' ∷ b'o' ∷ b'c'
    ∷ b' ' ∷ b'o' ∷ b'u' ∷ b't' ∷ b' ' ∷ b'o' ∷ b'f' ∷ b' ' ∷ b'm' ∷ b'e' ∷ b'm' ∷ b'o' ∷ b'r'
    ∷ b'y' ∷ b'!' ∷ b'\r' ∷ b'\n' ∷ []

panic : M Heap ℕ
panic = uart_puts panic_text >> reboot

-- What `kmalloc` does once `heap_ptr` is aligned.
bump : ℕ → ℕ → M Heap ℕ
unfolding zero_words
bump nbytes p = do
  modify (λ h. record h { heap_ptr = u32 (p + nbytes) })
  modify (λ h. record h { memory = zero_words (nbytes / 4) p h.memory })
  pure p

unfoldable pub kmalloc : ℕ → M Heap ℕ
unfolding bump panic
kmalloc nbytes = do
  modify (λ h. record h { heap_ptr = align_up h.heap_ptr 8 })
  p ← gets (λ h. h.heap_ptr)
  end ← gets (λ h. h.heap_end)
  if ltb end (u32 (p + nbytes)) then panic else bump nbytes p

unfoldable pub kmalloc_aligned : ℕ → ℕ → M Heap ℕ
unfolding kmalloc
kmalloc_aligned nbytes alignment = do
  modify (λ h. record h { heap_ptr = align_up h.heap_ptr alignment })
  kmalloc nbytes
