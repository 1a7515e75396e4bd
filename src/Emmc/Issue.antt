-- ===== src/Emmc/Issue.antt =====
-- Issuing a command and moving its data blocks: `do_data_transfer`, `emmc_issue_command`, `emmc_command`,
-- `reset_command` and `emmc_app_command` of c/emmc.c.
pub mod Read
pub mod Lost
pub mod Write
use haskell_os.Base.{
  ℕ, zero, suc, ◌+◌, ◌*◌, ◌/◌, ◌%◌, ◌^◌, bit_and, bit_or, leb, ltb, ◌==◌, not, ◌&&◌, ◌||◌,
  if◌then◌else◌, Bool, true, false, u32, Option, none, some, List, [], ◌∷◌,
}
use haskell_os.Base.Io.{M, ◌>>=◌, ◌>>◌, pure, get32, put32, dev_barrier, gets, modify, undefined}
use haskell_os.Hal.Heap.{Memory, store32}
use haskell_os.Hal.Timer.{delay_ms}
use haskell_os.Hal.Uart.{uart_puts, uart_put_hex}
use haskell_os.Libc.Alloc.{load32}
use haskell_os.Emmc.Command.{
  EmmcCmd, to_reg, rt136, rt48, rt48_busy, res_cmd, commands, CmdType, app, number,
}
use haskell_os.Emmc.Messages.{
  blocks_text, not_app_text, invalid_text, line_text, invalid_app_text, acmd_text, end_text,
  cmd55_text, status_text,
}
use haskell_os.Emmc.Device.{
  EmmcDevice, block_size_count, arg1, cmd_xfer_mode, response, data_reg, status_reg, control1,
  int_flags, ctrl1_reset_cmd, status_cmd_inhibit, has, wait_reg_mask, poll_clear, await_command,
}

unfoldable pub set_last_error : ℕ → M EmmcDevice (Unit {0})
set_last_error intr_val =
    modify (λ d. record d { last_error = bit_and intr_val 0xffff_0000; last_interrupt = intr_val })

-- `*data` goes to the data register, or comes from it, `words` times.
unfoldable pub write_words : ℕ → ℕ → M EmmcDevice (Unit {0})
write_words zero ptr = pure tt
write_words (suc words) ptr = do
  w ← gets (λ d. load32 d.memory ptr)
  put32 data_reg w
  write_words words (ptr + 4)

unfoldable pub read_words : ℕ → ℕ → M EmmcDevice (Unit {0})
read_words zero ptr = pure tt
read_words (suc words) ptr = do
  w ← get32 data_reg
  modify (λ d. record d { memory = store32 d.memory ptr w })
  read_words words (ptr + 4)

-- One block; a length that is no multiple of 4 never comes to 0 and runs past the buffer.
unfoldable pub move_words : Bool → ℕ → ℕ → M EmmcDevice (Unit {0})
move_words write length ptr =
    if length % 4 == 0
    then (if write then write_words (length / 4) ptr else read_words (length / 4) ptr)
    else undefined

-- The loop over the blocks, with the blocks left. `emmc_issue_command` lets at most 0xffff of them
-- through, so the cast of their number to `int` keeps it.
unfoldable pub move_blocks : ℕ → Bool → ℕ → ℕ → M EmmcDevice Bool
move_blocks zero write wr_irpt ptr = pure true
move_blocks (suc blocks) write wr_irpt ptr = do
  _ ← wait_reg_mask int_flags (bit_or wr_irpt 0x8000) true 2000
  intr_val ← get32 int_flags
  put32 int_flags (bit_or wr_irpt 0x8000)
  length ← gets (λ d. d.block_size)
  let next = move_words write length ptr >> move_blocks blocks write wr_irpt (ptr + length)
  if bit_and intr_val (bit_or 0xffff_0000 wr_irpt) == wr_irpt
      then next
      else (set_last_error intr_val >> pure false)

unfoldable pub do_data_transfer : EmmcCmd → M EmmcDevice Bool
do_data_transfer cmd = do
  ptr ← gets (λ d. d.buffer)
  blocks ← gets (λ d. d.transfer_blocks)
  if cmd.direction == 0
      then move_blocks blocks true (2 ^ 4) ptr
      else move_blocks blocks false (2 ^ 5) ptr

-- The switch on the response type.
unfoldable pub take_response : ℕ → M EmmcDevice (Unit {0})
take_response response_type =
    if (response_type == rt48) || (response_type == rt48_busy)
    then (do r ← get32 (response 0); modify (λ d. record d { last_response = r }))
    else if response_type == rt136
    then (do
      r ← get32 (response 0)
      modify (λ d. record d { last_response = r })
      r1 ← get32 (response 1)
      modify (λ d. record d { last_response_1 = r1 })
      r2 ← get32 (response 2)
      modify (λ d. record d { last_response_2 = r2 })
      r3 ← get32 (response 3)
      modify (λ d. record d { last_response_3 = r3 }))
    else pure tt

-- A time-out: the command line is reset.
unfoldable pub command_timeout : M EmmcDevice Bool
command_timeout = do
  put32 int_flags 0xffff_ffff
  v ← get32 control1
  put32 control1 (bit_or v ctrl1_reset_cmd)
  poll_clear control1 ctrl1_reset_cmd
  modify (λ d. record d { last_success = false; last_error = 0 })
  pure false

unfoldable pub succeed : M EmmcDevice Bool
succeed = do modify (λ d. record d { last_success = true }); pure true

-- The wait for the end of a transfer or of a busy signal, and the end of the function.
unfoldable pub finish_transfer : M EmmcDevice Bool
finish_transfer = do
  _ ← wait_reg_mask int_flags 0x8002 true 2000
  intr_val ← get32 int_flags
  put32 int_flags 0xffff_0002
  if not (bit_and intr_val 0xffff_0002 == 2) && not (bit_and intr_val 0xffff_0002 == 0x10_0002)
      then (set_last_error intr_val >> pure false)
      else (put32 int_flags 0xffff_0002 >> succeed)

-- What follows the command's own interrupt.
unfoldable pub complete_command : EmmcCmd → M EmmcDevice Bool
complete_command cmd = do
  intr_val ← get32 int_flags
  put32 int_flags 0xffff_0001
  if not (bit_and intr_val 0xffff_0001 == 1)
      then (do set_last_error intr_val; modify (λ d. record d { last_success = false }); pure false)
      else (do
        take_response cmd.response_type
        _ ← (if cmd.is_data == 0 then pure true else do_data_transfer cmd)
        if (cmd.response_type == rt48_busy) || not (cmd.is_data == 0)
            then finish_transfer
            else succeed)

unfoldable pub issue_command : EmmcCmd → ℕ → ℕ → M EmmcDevice Bool
issue_command cmd arg timeout = do
  modify (λ d. record d { last_command_value = to_reg cmd })
  blocks ← gets (λ d. d.transfer_blocks)
  if ltb 0xffff blocks then (uart_puts blocks_text >> pure false) else (do
    dev_barrier
    poll_clear status_reg status_cmd_inhibit
    put32 int_flags 0xffff_ffff
    dev_barrier
    size ← gets (λ d. d.block_size)
    put32 block_size_count (bit_or size (u32 (blocks * 2 ^ 16)))
    put32 arg1 arg
    dev_barrier
    put32 cmd_xfer_mode (to_reg cmd)
    dev_barrier
    seen ← await_command timeout
    if seen then complete_command cmd else command_timeout)

abbrev pub get_elem? : List EmmcCmd → ℕ → Option EmmcCmd
get_elem? [] i = none
get_elem? (c ∷ cs) zero = some c
get_elem? (c ∷ cs) (suc i) = get_elem? cs i

-- `commands[command]`; a place behind the table is read out of bounds.
unfoldable pub with_command : ℕ → (EmmcCmd → M EmmcDevice Bool) → M EmmcDevice Bool
with_command command k = elim (get_elem? commands command) [ none ↦ undefined | some c ↦ k c ]

unfoldable pub emmc_command : ℕ → ℕ → ℕ → M EmmcDevice Bool
emmc_command command arg timeout =
    if has command 0x8000_0000
    then (uart_puts not_app_text >> pure false)
    else with_command command (λ c. do
      modify (λ d. record d { last_command = c })
      if to_reg c == to_reg res_cmd
          then (uart_puts invalid_text >> pure false)
          else issue_command c arg timeout)

unfoldable pub reset_loop : ℕ → M EmmcDevice Bool
reset_loop zero = uart_puts line_text >> pure false
reset_loop (suc i) =
    let again = delay_ms 1 >> reset_loop i in
    do v ← get32 control1; if has v ctrl1_reset_cmd then again else pure true

unfoldable pub reset_command : M EmmcDevice Bool
reset_command = do v ← get32 control1; put32 control1 (bit_or v ctrl1_reset_cmd); reset_loop 10000

-- The report of a failed application command.
unfoldable pub report_acmd : M EmmcDevice Bool
report_acmd = do
  uart_puts acmd_text
  e ← gets (λ d. d.last_error)
  uart_put_hex e
  uart_puts end_text
  pure false

unfoldable pub report_cmd55 : M EmmcDevice Bool
report_cmd55 = do
  uart_puts cmd55_text
  e ← gets (λ d. d.last_error)
  uart_put_hex e
  uart_puts status_text
  v ← get32 status_reg
  uart_put_hex v
  uart_puts end_text
  pure false

unfoldable pub emmc_app_command : ℕ → ℕ → ℕ → M EmmcDevice Bool
emmc_app_command command arg timeout = with_command command (λ c.
    if leb 60 c.index
    then (uart_puts invalid_app_text >> pure false)
    else with_command (number app) (λ app_cmd. do
      modify (λ d. record d { last_command = app_cmd })
      rca ← gets (λ d. if d.rca == 0 then 0 else u32 (d.rca * 2 ^ 16))
      accepted ← issue_command app_cmd rca 2000
      if accepted
          then (do
            modify (λ d. record d { last_command = c })
            r ← issue_command c arg 2000
            if r then pure true else report_acmd)
          else report_cmd55))
