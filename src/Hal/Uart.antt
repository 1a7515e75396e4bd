-- ===== src/Hal/Uart.antt =====
-- The mini-UART functions of c/hal.c. A C string that a function prints is the list of its bytes
-- before the zero.
pub mod Sent
pub mod Print
use haskell_os.Base.{
  ℕ, zero, suc, ◌+◌, ◌-◌, ◌*◌, ◌/◌, ◌%◌, ◌^◌, bit_and, bit_or, ◌==◌, if◌then◌else◌, Bool, true,
  false, not, ◌&&◌, List, [], ◌∷◌, Option, none, some, get_or,
}
use haskell_os.Base.Io.{
  M, Outcome, done, waiting, rd, barrier, after, ◌>>=◌, ◌>>◌, pure, get32, put32, dev_barrier,
  undefined,
}
use haskell_os.Hal.Gpio.{gpio_set_function}

abbrev pub aux_enables : ℕ
aux_enables = 0x2021_5004

abbrev pub aux_mu_io_reg : ℕ
aux_mu_io_reg = 0x2021_5040

abbrev pub aux_mu_ier_reg : ℕ
aux_mu_ier_reg = 0x2021_5044

abbrev pub aux_mu_iir_reg : ℕ
aux_mu_iir_reg = 0x2021_5048

abbrev pub aux_mu_lcr_reg : ℕ
aux_mu_lcr_reg = 0x2021_504c

abbrev pub aux_mu_mcr_reg : ℕ
aux_mu_mcr_reg = 0x2021_5050

abbrev pub aux_mu_lsr_reg : ℕ
aux_mu_lsr_reg = 0x2021_5054

abbrev pub aux_mu_cntl_reg : ℕ
aux_mu_cntl_reg = 0x2021_5060

abbrev pub aux_mu_stat_reg : ℕ
aux_mu_stat_reg = 0x2021_5064

abbrev pub aux_mu_baud_reg : ℕ
aux_mu_baud_reg = 0x2021_5068

abbrev pub hex_chars : List ℕ
hex_chars =
    b'0' ∷ b'1' ∷ b'2' ∷ b'3' ∷ b'4' ∷ b'5' ∷ b'6' ∷ b'7' ∷ b'8' ∷ b'9' ∷ b'a' ∷ b'b' ∷ b'c' ∷ b'd'
    ∷ b'e' ∷ b'f' ∷ []

-- The first loop of `uart_put_uint`. What `buf[12]` holds is listed from its last element, and
-- `room` counts the elements left: `none` is a store past its end.
unfoldable pub uint_digits : ℕ → ℕ → List ℕ → Option (List ℕ)
uint_digits zero val buf = if val == 0 then some buf else none
uint_digits (suc room) val buf =
    let rest = uint_digits room (val / 10) ((b'0' + val % 10) ∷ buf) in
    if val == 0 then some buf else rest

-- The test in `uart_tx_is_empty`, of the word that it loads.
abbrev pub tx_empty : ℕ → Bool
tx_empty lsr = not (bit_and lsr (2 ^ 6) == 0) && not (bit_and lsr (2 ^ 5) == 0)

module _ {S : Type 0} where
  unfoldable pub uart_init : M S (Unit {0})
  unfolding gpio_set_function
  uart_init = do
    dev_barrier
    gpio_set_function 14 2
    gpio_set_function 15 2
    dev_barrier
    r ← get32 aux_enables
    put32 aux_enables (bit_or r 1)
    dev_barrier
    put32 aux_mu_cntl_reg 0
    put32 aux_mu_ier_reg 0
    put32 aux_mu_iir_reg 6
    put32 aux_mu_lcr_reg 3
    put32 aux_mu_mcr_reg 0
    put32 aux_mu_baud_reg 270
    put32 aux_mu_cntl_reg 3
    dev_barrier

  unfoldable pub uart_can_put8 : M S ℕ
  uart_can_put8 = do v ← get32 aux_mu_stat_reg; pure (bit_and v 2)

  unfoldable pub uart_has_data : M S ℕ
  uart_has_data = do v ← get32 aux_mu_stat_reg; pure (bit_and v 1)

  -- `while (!(GET32(AUX_MU_STAT_REG) & mask));`
  unfoldable pub poll_stat : ℕ → M S (Unit {0})
  poll_stat mask s [] = waiting []
  poll_stat mask s (v ∷ ins) =
      let rest = after (rd aux_mu_stat_reg v ∷ []) (poll_stat mask s ins) in
      if bit_and v mask == 0 then rest else done tt s ins (rd aux_mu_stat_reg v ∷ [])

  unfoldable pub uart_put8 : ℕ → M S (Unit {0})
  unfolding poll_stat
  uart_put8 c = do dev_barrier; poll_stat 2; put32 aux_mu_io_reg (bit_and c 0xff); dev_barrier

  unfoldable pub uart_get8 : M S ℕ
  unfolding poll_stat
  uart_get8 = do
    dev_barrier
    poll_stat 1
    v ← get32 aux_mu_io_reg
    dev_barrier
    pure (bit_and v 0xff)

  -- `while (!uart_tx_is_empty());`
  unfoldable pub poll_tx_empty : M S (Unit {0})
  poll_tx_empty s [] = waiting (barrier ∷ [])
  poll_tx_empty s (v ∷ ins) =
      let seen = barrier ∷ rd aux_mu_lsr_reg v ∷ barrier ∷ [] in
      let rest = after seen (poll_tx_empty s ins) in if tx_empty v then done tt s ins seen else rest

  unfoldable pub uart_flush_tx : M S (Unit {0})
  unfolding poll_tx_empty
  uart_flush_tx = do dev_barrier; poll_tx_empty; dev_barrier

  unfoldable pub uart_disable : M S (Unit {0})
  unfolding uart_flush_tx
  uart_disable = do dev_barrier; uart_flush_tx; put32 aux_mu_cntl_reg 0; dev_barrier

  unfoldable pub uart_puts : List ℕ → M S (Unit {0})
  unfolding uart_put8
  uart_puts [] = pure tt
  uart_puts (c ∷ s) = do if c == b'\n' then uart_put8 b'\r' else pure tt; uart_put8 c; uart_puts s

  -- The loop of `uart_put_hex`, with the rounds left.
  unfoldable pub hex_loop : ℕ → ℕ → M S (Unit {0})
  unfolding uart_put8
  hex_loop zero val = pure tt
  hex_loop (suc r) val = do
    uart_put8 (get_or hex_chars (bit_and (val / 2 ^ (r * 4)) 0xf) 0)
    hex_loop r val

  unfoldable pub uart_put_hex : ℕ → M S (Unit {0})
  unfolding uart_puts hex_loop
  uart_put_hex val = do uart_puts (b'0' ∷ b'x' ∷ []); hex_loop 8 val

  -- `while (--i >= 0) c_uart_put8(buf[i]);`
  unfoldable pub put_buf : List ℕ → M S (Unit {0})
  unfolding uart_put8
  put_buf [] = pure tt
  put_buf (c ∷ buf) = do uart_put8 c; put_buf buf

  put_digits : Option (List ℕ) → M S (Unit {0})
  unfolding put_buf
  put_digits none = undefined
  put_digits (some buf) = put_buf buf

  unfoldable pub uart_put_uint : ℕ → M S (Unit {0})
  unfolding uart_put8 put_digits
  uart_put_uint val = if val == 0 then uart_put8 b'0' else put_digits (uint_digits 12 val [])
