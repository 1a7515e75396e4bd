-- ===== src/Start.antt =====
-- The entry from the boot code, `_cstart` of c/cstart.c. The linker's symbols are arguments, and so are
-- the installation of the vector table, which is assembly, the evaluator's initialisation and the
-- Haskell program.
use haskell_os.Base.{ℕ, ◌+◌, ◌-◌, ◌/◌, List, [], ◌∷◌}
use haskell_os.Base.Io.{M, ◌>>◌, modify, reboot}
use haskell_os.Hal.Heap.{Heap, zero_words, heap_init}
use haskell_os.Hal.Uart.{uart_init, uart_puts}
use haskell_os.Libc.Alloc.{in_memory}

-- "HaskellOS initializing...\r\n"
abbrev init_text : List ℕ
init_text =
    b'H' ∷ b'a' ∷ b's' ∷ b'k' ∷ b'e' ∷ b'l' ∷ b'l' ∷ b'O' ∷ b'S' ∷ b' ' ∷ b'i' ∷ b'n' ∷ b'i' ∷ b't'
    ∷ b'i' ∷ b'a' ∷ b'l' ∷ b'i' ∷ b'z' ∷ b'i' ∷ b'n' ∷ b'g' ∷ b'.' ∷ b'.' ∷ b'.' ∷ b'\r' ∷ b'\n'
    ∷ []

-- "MicroHs runtime initializing...\r\n"
abbrev runtime_text : List ℕ
runtime_text =
    b'M' ∷ b'i' ∷ b'c' ∷ b'r' ∷ b'o' ∷ b'H' ∷ b's' ∷ b' ' ∷ b'r' ∷ b'u' ∷ b'n' ∷ b't' ∷ b'i' ∷ b'm'
    ∷ b'e' ∷ b' ' ∷ b'i' ∷ b'n' ∷ b'i' ∷ b't' ∷ b'i' ∷ b'a' ∷ b'l' ∷ b'i' ∷ b'z' ∷ b'i' ∷ b'n'
    ∷ b'g' ∷ b'.' ∷ b'.' ∷ b'.' ∷ b'\r' ∷ b'\n' ∷ []

-- "Jumping to Haskell main...\r\n"
abbrev main_text : List ℕ
main_text =
    b'J' ∷ b'u' ∷ b'm' ∷ b'p' ∷ b'i' ∷ b'n' ∷ b'g' ∷ b' ' ∷ b't' ∷ b'o' ∷ b' ' ∷ b'H' ∷ b'a' ∷ b's'
    ∷ b'k' ∷ b'e' ∷ b'l' ∷ b'l' ∷ b' ' ∷ b'm' ∷ b'a' ∷ b'i' ∷ b'n' ∷ b'.' ∷ b'.' ∷ b'.' ∷ b'\r'
    ∷ b'\n' ∷ []

-- "Haskell main returned. Halting.\r\n"
abbrev returned_text : List ℕ
returned_text =
    b'H' ∷ b'a' ∷ b's' ∷ b'k' ∷ b'e' ∷ b'l' ∷ b'l' ∷ b' ' ∷ b'm' ∷ b'a' ∷ b'i' ∷ b'n' ∷ b' ' ∷ b'r'
    ∷ b'e' ∷ b't' ∷ b'u' ∷ b'r' ∷ b'n' ∷ b'e' ∷ b'd' ∷ b'.' ∷ b' ' ∷ b'H' ∷ b'a' ∷ b'l' ∷ b't'
    ∷ b'i' ∷ b'n' ∷ b'g' ∷ b'.' ∷ b'\r' ∷ b'\n' ∷ []

-- `while (bss < bss_end) *bss++ = 0;`
unfoldable pub clear_bss : ℕ → ℕ → M Heap (Unit {0})
clear_bss bss_start bss_end =
    modify (in_memory (λ m. zero_words ((bss_end - bss_start + 3) / 4) bss_start m))

module _ (install_vector_table mhs_init hs_main : M Heap (Unit {0})) where
  unfoldable pub cstart : ℕ → ℕ → ℕ → M Heap (Unit {0})
  cstart bss_start bss_end heap_start = do
    clear_bss bss_start bss_end
    heap_init heap_start
    uart_init
    uart_puts init_text
    install_vector_table
    uart_puts runtime_text
    mhs_init
    uart_puts main_text
    hs_main
    uart_puts returned_text
    reboot
