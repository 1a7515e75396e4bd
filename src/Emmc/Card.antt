-- ===== src/Emmc/Card.antt =====
-- Bringing a card up: `check_v2_card`, `check_sdhc_support`, `check_rca`, `select_card`, `set_scr`,
-- `emmc_setup_clock` and `emmc_card_reset` of c/emmc.c.
use haskell_os.Base.{
  ℕ, zero, suc, ◌*◌, ◌/◌, ◌%◌, ◌^◌, bit_and, bit_or, ◌==◌, not, ◌&&◌, if◌then◌else◌, Bool, true,
  false, u32, not32, List, length,
}
use haskell_os.Base.Io.{M, ◌>>=◌, ◌>>◌, pure, get32, put32, gets, modify}
use haskell_os.Hal.Timer.{delay_ms}
use haskell_os.Hal.Uart.{uart_puts}
use haskell_os.Libc.Alloc.{load32}
use haskell_os.Emmc.Command.{
  send_cide, send_relative_addr, io_set_op_cond, select_card, send_if_cond, set_block_len,
  ocr_check, send_scr, number,
}
use haskell_os.Emmc.Clock.{get_clock_divider}
use haskell_os.Emmc.Messages.{
  clock_text, if_cond_text, unusable_text, sdio_text, ocr_text, cid_text, relative_text, rca_text,
  select_text, card_status_text, block_len_text, scr_text,
}
use haskell_os.Emmc.Device.{
  EmmcDevice, block_size_count, control1, control2, int_flags, ctrl1_clk_stable, ctrl1_clk_int_en,
  has, stall, wait_reg_mask,
}
use haskell_os.Emmc.Issue.{emmc_command, emmc_app_command, reset_command}

-- `uart_puts(text); return false;`
unfoldable pub fail : List ℕ → M EmmcDevice Bool
fail text = uart_puts text >> pure false

-- `BSWAP32`.
unfoldable pub bswap32 : ℕ → ℕ
bswap32 x =
    bit_or
      (bit_or
        (bit_or (bit_and (u32 (x * 2 ^ 24)) 0xff00_0000) (bit_and (u32 (x * 2 ^ 8)) 0x00ff_0000))
        (bit_and (x / 2 ^ 8) 0x0000_ff00))
      (bit_and (x / 2 ^ 24) 0x0000_00ff)

unfoldable pub emmc_setup_clock : M EmmcDevice Bool
emmc_setup_clock = do
  put32 control2 0
  n ← get32 control1
  let divided = bit_or (bit_or n ctrl1_clk_int_en) (get_clock_divider 250_000_000)
  put32 control1 (bit_or (bit_and divided (not32 (0xf * 2 ^ 16))) (11 * 2 ^ 16))
  stable ← wait_reg_mask control1 ctrl1_clk_stable true 2000
  if not stable
      then fail clock_text
      else (do delay_ms 30; v ← get32 control1; put32 control1 (bit_or v 4); delay_ms 30; pure true)

-- A command that no card answers: a time-out is no error, a flagged time-out resets the line.
-- `answer` is what the function goes on with.
unfoldable pub unanswered : List ℕ → M EmmcDevice Bool → M EmmcDevice Bool
unanswered text answer = do
  e ← gets (λ d. d.last_error)
  if e == 0
      then answer
      else if has e (2 ^ 16)
      then (do
        reset ← reset_command
        if not reset then pure false else (put32 int_flags (2 ^ 16) >> answer))
      else fail text

unfoldable pub check_v2_card : M EmmcDevice Bool
check_v2_card = do
  sent ← emmc_command (number send_if_cond) 0x1aa 200
  if not sent then unanswered if_cond_text (pure false) else (do
    r ← gets (λ d. d.last_response)
    if not (bit_and r 0xfff == 0x1aa) then fail unusable_text else pure true)

unfoldable pub check_usable_card : M EmmcDevice Bool
check_usable_card = do
  sent ← emmc_command (number io_set_op_cond) 0 1000
  if not sent then unanswered sdio_text (pure true) else pure true

-- `while(card_busy)`; each round loads, so one round more than there are answers is never used up.
unfoldable pub sdhc_loop : ℕ → Bool → M EmmcDevice Bool
sdhc_loop zero v2_card = stall
sdhc_loop (suc rounds) v2_card =
    let again = delay_ms 500 >> sdhc_loop rounds v2_card in
    do
      sent ←
          emmc_app_command (number ocr_check) (bit_or 0x00ff_8000 (if v2_card then 2 ^ 30 else 0))
            2000
      if not sent then fail ocr_text else (do
        r ← gets (λ d. d.last_response)
        if r / 2 ^ 31 % 2 == 0 then again else (do
          modify (λ d. record d { ocr = bit_and (r / 2 ^ 8) 0xffff })
          modify (λ d. record d { sdhc = not (bit_and (r / 2 ^ 30) 1 == 0) })
          pure true))

unfoldable pub check_sdhc_support : Bool → M EmmcDevice Bool
check_sdhc_support v2_card d ins = sdhc_loop (suc (length ins)) v2_card d ins

-- The loop of `check_ocr`, with the rounds left.
unfoldable pub ocr_loop : ℕ → M EmmcDevice Bool
ocr_loop zero = fail ocr_text
ocr_loop (suc i) =
    let again = delay_ms 100 >> ocr_loop i in
    do
      sent ← emmc_app_command (number ocr_check) 0 2000
      if sent
          then (modify (λ d. record d { ocr = bit_and (d.last_response / 2 ^ 8) 0xffff })
              >> pure true)
          else again

unfoldable pub check_ocr : M EmmcDevice Bool
check_ocr = ocr_loop 5

unfoldable pub check_rca : M EmmcDevice Bool
check_rca = do
  cid ← emmc_command (number send_cide) 0 2000
  if not cid then fail cid_text else (do
    sent ← emmc_command (number send_relative_addr) 0 2000
    if not sent then fail relative_text else (do
      modify (λ d. record d { rca = bit_and (d.last_response / 2 ^ 16) 0xffff })
      r ← gets (λ d. d.last_response)
      if bit_and (r / 2 ^ 8) 1 == 0 then fail rca_text else pure true))

unfoldable pub select_sd_card : M EmmcDevice Bool
select_sd_card = do
  rca ← gets (λ d. d.rca)
  sent ← emmc_command (number select_card) (u32 (rca * 2 ^ 16)) 2000
  if not sent then fail select_text else (do
    r ← gets (λ d. d.last_response)
    let status = bit_and (r / 2 ^ 9) 0xf
    if not (status == 3) && not (status == 4) then fail card_status_text else pure true)

-- The version that the SCR's first word stands for.
unfoldable pub scr_version_of : ℕ → ℕ
scr_version_of scr0 =
    let spec = bit_and (scr0 / 2 ^ 24) 0xf in
    let spec3 = bit_and (scr0 / 2 ^ 15) 1 in
    let spec4 = bit_and (scr0 / 2 ^ 10) 1 in
    if spec == 0
    then 1
    else if spec == 1
    then 11
    else if spec == 2
    then (if spec3 == 0 then 2 else if spec4 == 0 then 3 else 4)
    else 0xffff_ffff

unfoldable pub set_scr : M EmmcDevice Bool
set_scr = do
  sdhc ← gets (λ d. d.sdhc)
  ready ← (if sdhc then pure true else emmc_command (number set_block_len) 512 2000)
  if not ready then fail block_len_text else (do
    bsc ← get32 block_size_count
    put32 block_size_count (bit_or (bit_and bsc (not32 0xfff)) 0x200)
    modify (λ d. record d { buffer = d.scr_at; block_size = 8; transfer_blocks = 1 })
    sent ← emmc_app_command (number send_scr) 0 30000
    if not sent then fail scr_text else (do
      modify (λ d. record d { block_size = 512 })
      modify (λ d. record d { scr_version = scr_version_of (bswap32 (load32 d.memory d.scr_at)) })
      pure true))
