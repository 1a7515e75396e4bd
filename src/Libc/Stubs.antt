-- ===== src/Libc/Stubs.antt =====
-- The output, time and process stubs of c/rts-stubs.c, and the hooks of c/extra.c. A stub that only
-- returns a constant is left out. A buffer is the list of its bytes.
use haskell_os.Base.{
  ℕ, ◌+◌, ◌*◌, ◌/◌, ◌%◌, ◌^◌, ltb, ◌==◌, if◌then◌else◌, u32, List, [], ◌∷◌, length, min,
}
use haskell_os.Base.Io.{M, ◌>>=◌, ◌>>◌, pure, timer_get_usec, modify, reboot}
use haskell_os.Hal.Heap.{Heap, store8}
use haskell_os.Hal.Timer.{delay_us}
use haskell_os.Hal.Uart.{
  uart_has_data, uart_get8, uart_put8, uart_puts, uart_put_uint, uart_flush_tx,
}
use haskell_os.Libc.Alloc.{in_memory, malloc}
use haskell_os.Libc.Memory.{memcpy}

-- "exit()\r\n"
abbrev exit_text : List ℕ
exit_text = b'e' ∷ b'x' ∷ b'i' ∷ b't' ∷ b'(' ∷ b')' ∷ b'\r' ∷ b'\n' ∷ []

-- "abort()\r\n"
abbrev abort_text : List ℕ
abort_text = b'a' ∷ b'b' ∷ b'o' ∷ b'r' ∷ b't' ∷ b'(' ∷ b')' ∷ b'\r' ∷ b'\n' ∷ []

-- "PANIC: LZ77 not available\r\n"
abbrev lz77_text : List ℕ
lz77_text =
    b'P' ∷ b'A' ∷ b'N' ∷ b'I' ∷ b'C' ∷ b':' ∷ b' ' ∷ b'L' ∷ b'Z' ∷ b'7' ∷ b'7' ∷ b' ' ∷ b'n' ∷ b'o'
    ∷ b't' ∷ b' ' ∷ b'a' ∷ b'v' ∷ b'a' ∷ b'i' ∷ b'l' ∷ b'a' ∷ b'b' ∷ b'l' ∷ b'e' ∷ b'\r' ∷ b'\n'
    ∷ []

-- "ERROR: hs_main not linked, no haskell code\r\n"
abbrev hs_main_text : List ℕ
hs_main_text =
    b'E' ∷ b'R' ∷ b'R' ∷ b'O' ∷ b'R' ∷ b':' ∷ b' ' ∷ b'h' ∷ b's' ∷ b'_' ∷ b'm' ∷ b'a' ∷ b'i' ∷ b'n'
    ∷ b' ' ∷ b'n' ∷ b'o' ∷ b't' ∷ b' ' ∷ b'l' ∷ b'i' ∷ b'n' ∷ b'k' ∷ b'e' ∷ b'd' ∷ b',' ∷ b' '
    ∷ b'n' ∷ b'o' ∷ b' ' ∷ b'h' ∷ b'a' ∷ b's' ∷ b'k' ∷ b'e' ∷ b'l' ∷ b'l' ∷ b' ' ∷ b'c' ∷ b'o'
    ∷ b'd' ∷ b'e' ∷ b'\r' ∷ b'\n' ∷ []

-- "EXIT with code "
abbrev code_text : List ℕ
code_text =
    b'E' ∷ b'X' ∷ b'I' ∷ b'T' ∷ b' ' ∷ b'w' ∷ b'i' ∷ b't' ∷ b'h' ∷ b' ' ∷ b'c' ∷ b'o' ∷ b'd' ∷ b'e'
    ∷ b' ' ∷ []

-- "\r\n"
abbrev crlf_text : List ℕ
crlf_text = b'\r' ∷ b'\n' ∷ []

-- "Halting.\r\n"
abbrev halting_text : List ℕ
halting_text = b'H' ∷ b'a' ∷ b'l' ∷ b't' ∷ b'i' ∷ b'n' ∷ b'g' ∷ b'.' ∷ b'\r' ∷ b'\n' ∷ []

module _ {S : Type 0} where
  unfoldable pub putchar : ℕ → M S ℕ
  putchar c = do if c == b'\n' then uart_put8 b'\r' else pure tt; uart_put8 c; pure c

  -- The loop of `_write` and of `fwrite`.
  unfoldable pub write_bytes : List ℕ → M S (Unit {0})
  write_bytes [] = pure tt
  write_bytes (c ∷ buf) = do
    if c == b'\n' then uart_put8 b'\r' else pure tt
    uart_put8 c
    write_bytes buf

  unfoldable pub write : List ℕ → M S ℕ
  write buf = do write_bytes buf; pure (length buf)

  -- `n` items whose bytes are `bytes`.
  unfoldable pub fwrite : List ℕ → ℕ → M S ℕ
  fwrite bytes n = do write_bytes bytes; pure n

  -- `fprintf` and `printf` print their format as it is.
  unfoldable pub printf : List ℕ → M S ℕ
  printf fmt = do uart_puts fmt; pure 0

  unfoldable pub fputs : List ℕ → M S ℕ
  fputs s = do uart_puts s; pure 0

  unfoldable pub fflush : M S ℕ
  fflush = do uart_flush_tx; pure 0

  -- `tv_sec` and `tv_nsec`.
  unfoldable pub clock_gettime : M S (ℕ × ℕ)
  clock_gettime = do us ← timer_get_usec; pure (us / 1000000, us % 1000000 * 1000)

  unfoldable pub sleep : ℕ → M S ℕ
  sleep s = do delay_us (u32 (s * 1000000)); pure 0

  unfoldable pub usleep : ℕ → M S ℕ
  usleep us = do delay_us us; pure 0

  -- Of a time that is not negative.
  unfoldable pub nanosleep : ℕ → ℕ → M S ℕ
  nanosleep tv_sec tv_nsec = do delay_us (u32 (tv_sec * 1000000 + tv_nsec / 1000)); pure 0

  unfoldable pub exit : M S (Unit {0})
  exit = uart_puts exit_text >> reboot

  unfoldable pub abort : M S (Unit {0})
  abort = uart_puts abort_text >> reboot

  -- Both LZ77 stubs.
  unfoldable pub no_lz77 : M S (Unit {0})
  no_lz77 = uart_puts lz77_text >> reboot

  -- The weak `hs_main`.
  unfoldable pub hs_main_missing : M S (Unit {0})
  hs_main_missing = uart_puts hs_main_text >> reboot

  unfoldable pub myexit : ℕ → M S (Unit {0})
  myexit n = do
    if n == 0 then pure tt else (do uart_puts code_text; uart_put_uint n; uart_puts crlf_text)
    uart_puts halting_text
    reboot

  -- -1 is the pattern of all ones.
  unfoldable pub getraw : M S ℕ
  getraw = do available ← uart_has_data; if available == 0 then pure 0xffff_ffff else uart_get8

  unfoldable pub putraw : ℕ → M S (Unit {0})
  putraw c = uart_put8 c

  unfoldable pub gettimemilli : M S ℕ
  gettimemilli = do us ← timer_get_usec; pure (us / 1000)

  unfoldable pub clock_get_usec : M S ℕ
  clock_get_usec = timer_get_usec

unfoldable pub sbrk : ℕ → M Heap ℕ
sbrk incr = malloc (if ltb incr (2 ^ 31) then incr else 0)

unfoldable pub mmap : ℕ → M Heap ℕ
mmap len = malloc len

-- Of the text at `s`, whose length is `len`.
unfoldable pub strdup : ℕ → ℕ → M Heap ℕ
strdup s len = do
  d ← malloc (u32 (len + 1))
  modify (in_memory (λ m. memcpy m d s (len + 1)))
  pure d

unfoldable pub strndup : ℕ → ℕ → ℕ → M Heap ℕ
strndup s len n = do
  let l = min len n
  d ← malloc (u32 (l + 1))
  modify (in_memory (λ m. memcpy m d s l))
  modify (in_memory (λ m. store8 m (d + l) 0))
  pure d
