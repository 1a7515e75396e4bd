-- ===== src/Emmc/Sd.antt =====
-- The wrappers of c/sd.c.
use haskell_os.Base.{ℕ, ◌*◌, if◌then◌else◌, u32, List, [], ◌∷◌}
use haskell_os.Base.Int.{is_positive}
use haskell_os.Base.Io.{M, ◌>>=◌, ◌>>◌, pure}
use haskell_os.Hal.Uart.{uart_puts}
use haskell_os.Emmc.Device.{EmmcDevice}
use haskell_os.Emmc.Blocks.{emmc_init, emmc_read, emmc_write}

-- "SD: Initializing via EMMC...\r\n"
abbrev start_text : List ℕ
start_text =
    b'S' ∷ b'D' ∷ b':' ∷ b' ' ∷ b'I' ∷ b'n' ∷ b'i' ∷ b't' ∷ b'i' ∷ b'a' ∷ b'l' ∷ b'i' ∷ b'z' ∷ b'i'
    ∷ b'n' ∷ b'g' ∷ b' ' ∷ b'v' ∷ b'i' ∷ b'a' ∷ b' ' ∷ b'E' ∷ b'M' ∷ b'M' ∷ b'C' ∷ b'.' ∷ b'.'
    ∷ b'.' ∷ b'\r' ∷ b'\n' ∷ []

-- "SD: Init OK\r\n"
abbrev ok_text : List ℕ
ok_text =
    b'S' ∷ b'D' ∷ b':' ∷ b' ' ∷ b'I' ∷ b'n' ∷ b'i' ∷ b't' ∷ b' ' ∷ b'O' ∷ b'K' ∷ b'\r' ∷ b'\n' ∷ []

-- "SD: Init FAILED\r\n"
abbrev failed_text : List ℕ
failed_text =
    b'S' ∷ b'D' ∷ b':' ∷ b' ' ∷ b'I' ∷ b'n' ∷ b'i' ∷ b't' ∷ b' ' ∷ b'F' ∷ b'A' ∷ b'I' ∷ b'L' ∷ b'E'
    ∷ b'D' ∷ b'\r' ∷ b'\n' ∷ []

unfoldable pub pi_sd_init : M EmmcDevice ℕ
pi_sd_init = do
  uart_puts start_text
  ok ← emmc_init
  if ok then (uart_puts ok_text >> pure 1) else (uart_puts failed_text >> pure 0)

unfoldable pub pi_sd_read : ℕ → ℕ → ℕ → M EmmcDevice ℕ
pi_sd_read ptr lba nsec = do
  r ← emmc_read lba ptr (u32 (nsec * 512))
  pure (if is_positive r then 1 else 0)

unfoldable pub pi_sd_write : ℕ → ℕ → ℕ → M EmmcDevice ℕ
pi_sd_write ptr lba nsec = do
  r ← emmc_write lba ptr (u32 (nsec * 512))
  pure (if is_positive r then 1 else 0)
