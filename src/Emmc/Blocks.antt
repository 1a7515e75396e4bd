-- ===== src/Emmc/Blocks.antt =====
-- Resetting the controller, and reading and writing blocks: `emmc_card_reset`, `do_data_command`,
-- `emmc_read`, `emmc_write` and `emmc_init` of c/emmc.c.
use haskell_os.Base.{
  ℕ, zero, suc, ◌*◌, ◌/◌, ◌%◌, bit_and, ltb, ◌==◌, not, ◌&&◌, if◌then◌else◌, Bool, true, false, u32,
  List,
}
use haskell_os.Base.Int.{ℤ, negsuc, signed32}
use haskell_os.Base.Io.{M, ◌>>=◌, ◌>>◌, pure, put32, gets, modify, reboot}
use haskell_os.Hal.Gpio.{gpio_set_function}
use haskell_os.Hal.Timer.{delay_ms}
use haskell_os.Hal.Uart.{uart_puts}
use haskell_os.Emmc.Command.{
  CmdType, go_idle, read_block, read_multiple, write_block, write_multiple, number,
}
use haskell_os.Emmc.Messages.{
  reset_text, clock_setup_text, first_idle_text, no_idle_text, block_size_text, assert_text,
  bad_size_text, retry_text, give_up_text, assert_size_text, read_text, write_text,
  reset_retry_text,
}
use haskell_os.Emmc.Device.{
  EmmcDevice, control1, int_flags, int_mask, int_enable, ctrl1_reset_host, ctrl1_reset_all,
  wait_reg_mask,
}
use haskell_os.Emmc.Issue.{emmc_command}
use haskell_os.Emmc.Card.{
  fail, emmc_setup_clock, check_v2_card, check_sdhc_support, check_rca, select_sd_card, set_scr,
}

-- `assert(ok)`, whose message is `text`.
unfoldable pub assert : Bool → List ℕ → M EmmcDevice (Unit {0})
assert ok text = if ok then pure tt else (uart_puts text >> reboot)

-- `&&` of two steps that say whether they succeed, the second only after the first.
unfoldable pub both : M EmmcDevice Bool → M EmmcDevice Bool → M EmmcDevice Bool
both first second = first >>= λ ok. if ok then second else pure false

unfoldable pub clear_transfer : M EmmcDevice (Unit {0})
clear_transfer = modify (λ d. record d {
  transfer_blocks = 0;
  last_command_value = 0;
  last_success = false;
  block_size = 0;
})

-- GO_IDLE is sent a second time if the first fails.
unfoldable pub go_idle_twice : M EmmcDevice Bool
go_idle_twice = do
  first ← emmc_command (number go_idle) 0 2000
  if first then pure true else (do
    uart_puts first_idle_text
    delay_ms 50
    second ← emmc_command (number go_idle) 0 2000
    if second then pure true else fail no_idle_text)

-- What follows GO_IDLE.
unfoldable pub identify : M EmmcDevice Bool
identify = do
  delay_ms 50
  v2_card ← check_v2_card
  delay_ms 50
  both (check_sdhc_support v2_card) (
      both (delay_ms 50 >> check_rca) (
        both (delay_ms 50 >> select_sd_card)
          (both (delay_ms 50 >> set_scr) (put32 int_flags 0xffff_ffff >> pure true))))

unfoldable pub emmc_card_reset : M EmmcDevice Bool
emmc_card_reset = do
  put32 control1 ctrl1_reset_host
  idle ← wait_reg_mask control1 ctrl1_reset_all false 2000
  if not idle then fail reset_text else (do
    clocked ← emmc_setup_clock
    if not clocked then fail clock_setup_text else (do
      put32 int_enable 0
      put32 int_flags 0xffff_ffff
      put32 int_mask 0xffff_ffff
      delay_ms 203
      clear_transfer
      both go_idle_twice identify))

-- The command for a transfer of so many blocks.
unfoldable pub block_command : Bool → ℕ → CmdType
block_command write blocks =
    if write && ltb 1 blocks
    then write_multiple
    else if write
    then write_block
    else if ltb 1 blocks
    then read_multiple
    else read_block

-- `while(retry_count < max_retries)`, with the tries left.
unfoldable pub try_command : ℕ → CmdType → ℕ → M EmmcDevice Bool
try_command zero command block_no = pure true
try_command (suc tries) command block_no =
    let again = try_command tries command block_no in
    do
      sent ← emmc_command (number command) block_no 5000
      if sent
          then pure true
          else if tries == 0
          then fail give_up_text
          else (uart_puts retry_text >> again)

unfoldable pub do_data_command : Bool → ℕ → ℕ → ℕ → M EmmcDevice Bool
do_data_command write b bsize block_no = do
  sdhc ← gets (λ d. d.sdhc)
  block_size ← gets (λ d. d.block_size)
  if ltb bsize block_size then fail block_size_text else (do
    assert (block_size == 512) assert_text
    modify (λ d. record d { transfer_blocks = bsize / 512 })
    if not (bit_and bsize 0x1ff == 0) then fail bad_size_text else (do
      modify (λ d. record d { buffer = b })
      try_command 3 (block_command write (bsize / 512))
          (if sdhc then block_no else u32 (block_no * 512))))

-- `-1` or the size, as an `int`.
unfoldable pub emmc_read : ℕ → ℕ → ℕ → M EmmcDevice ℤ
emmc_read sector buffer size = do
  assert (size % 512 == 0) assert_size_text
  success ← do_data_command false buffer size sector
  if success then pure (signed32 size) else (uart_puts read_text >> pure (negsuc 0))

unfoldable pub emmc_write : ℕ → ℕ → ℕ → M EmmcDevice ℤ
emmc_write sector buffer size = do
  assert (size % 512 == 0) assert_size_text
  r ← do_data_command true buffer size sector
  if r then pure (signed32 size) else (uart_puts write_text >> pure (negsuc 0))

-- The loop of `emmc_init`, with the rounds left.
unfoldable pub init_loop : ℕ → M EmmcDevice Bool
init_loop zero = pure false
init_loop (suc i) =
    let again = delay_ms 100 >> (uart_puts reset_retry_text >> init_loop i) in
    do success ← emmc_card_reset; if success then pure true else again

unfoldable pub emmc_init : M EmmcDevice Bool
emmc_init = do
  delay_ms 100
  gpio_set_function 34 0
  gpio_set_function 35 0
  gpio_set_function 36 0
  gpio_set_function 37 0
  gpio_set_function 38 0
  gpio_set_function 39 0
  gpio_set_function 48 7
  gpio_set_function 49 7
  gpio_set_function 50 7
  gpio_set_function 51 7
  gpio_set_function 52 7
  gpio_set_function 53 7
  clear_transfer
  modify (λ d. record d { sdhc = false; ocr = 0; rca = 0; base_clock = 0 })
  init_loop 10
