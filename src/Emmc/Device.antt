-- ===== src/Emmc/Device.antt =====
-- The state of c/emmc.c, the controller's registers, and its waits.
use haskell_os.Base.{
  ℕ, zero, suc, ◌+◌, ◌*◌, ◌^◌, bit_and, ◌==◌, not, if◌then◌else◌, Bool, true, false, [], length,
}
use haskell_os.Base.Io.{M, waiting, ◌>>=◌, ◌>>◌, pure, get32}
use haskell_os.Hal.Heap.{Memory}
use haskell_os.Hal.Timer.{delay_us, delay_ms}
use haskell_os.Emmc.Command.{EmmcCmd}

-- `emmc_device`, and the memory that its `buffer` points into. The two words of `scr.scr` lie in memory
-- too, at the address `scr_at`.
pub record EmmcDevice : Type 0 where
  pub last_success : Bool
  pub transfer_blocks : ℕ
  pub last_command : EmmcCmd
  pub last_command_value : ℕ
  pub block_size : ℕ
  pub last_response : ℕ
  pub last_response_1 : ℕ
  pub last_response_2 : ℕ
  pub last_response_3 : ℕ
  pub sdhc : Bool
  pub ocr : ℕ
  pub rca : ℕ
  pub buffer : ℕ
  pub base_clock : ℕ
  pub last_error : ℕ
  pub last_interrupt : ℕ
  pub scr_at : ℕ
  pub scr_version : ℕ
  pub memory : Memory

abbrev pub block_size_count : ℕ
block_size_count = 0x2030_0004

abbrev pub arg1 : ℕ
arg1 = 0x2030_0008

abbrev pub cmd_xfer_mode : ℕ
cmd_xfer_mode = 0x2030_000c

abbrev pub response : ℕ → ℕ
response i = 0x2030_0010 + i * 4

abbrev pub data_reg : ℕ
data_reg = 0x2030_0020

abbrev pub status_reg : ℕ
status_reg = 0x2030_0024

abbrev pub control1 : ℕ
control1 = 0x2030_002c

abbrev pub int_flags : ℕ
int_flags = 0x2030_0030

abbrev pub int_mask : ℕ
int_mask = 0x2030_0034

abbrev pub int_enable : ℕ
int_enable = 0x2030_0038

abbrev pub control2 : ℕ
control2 = 0x2030_003c

abbrev pub ctrl1_reset_cmd : ℕ
ctrl1_reset_cmd = 2 ^ 25

abbrev pub ctrl1_reset_host : ℕ
ctrl1_reset_host = 2 ^ 24

abbrev pub ctrl1_reset_all : ℕ
ctrl1_reset_all = 2 ^ 26 + 2 ^ 25 + 2 ^ 24

abbrev pub ctrl1_clk_stable : ℕ
ctrl1_clk_stable = 2 ^ 1

abbrev pub ctrl1_clk_int_en : ℕ
ctrl1_clk_int_en = 2 ^ 0

abbrev pub status_cmd_inhibit : ℕ
status_cmd_inhibit = 2 ^ 0

-- Whether a word has one of the bits.
abbrev pub has : ℕ → ℕ → Bool
has v mask = not (bit_and v mask == 0)

module _ {S : Type 0} where
  -- The loop of `wait_reg_mask`, with the rounds left.
  unfoldable pub wait_loop : ℕ → ℕ → ℕ → Bool → M S Bool
  wait_loop zero reg mask set = pure false
  wait_loop (suc cycles) reg mask set =
      let again = delay_us 100 >> wait_loop cycles reg mask set in
      do v ← get32 reg; if (if has v mask then set else not set) then pure true else again

  unfoldable pub wait_reg_mask : ℕ → ℕ → Bool → ℕ → M S Bool
  wait_reg_mask reg mask set timeout = wait_loop (timeout * 10 + 1) reg mask set

  -- No answer is left.
  abbrev pub stall : {A : Type 0} → M S A
  stall s ins = waiting []

  -- `while (*reg & mask) { delay_us(100); }`. Each round loads, so one round more than there are answers
  -- is never used up.
  unfoldable pub poll_clear_loop : ℕ → ℕ → ℕ → M S (Unit {0})
  poll_clear_loop zero reg mask = stall
  poll_clear_loop (suc rounds) reg mask =
      let again = delay_us 100 >> poll_clear_loop rounds reg mask in
      do v ← get32 reg; if has v mask then again else pure tt

  unfoldable pub poll_clear : ℕ → ℕ → M S (Unit {0})
  poll_clear reg mask s ins = poll_clear_loop (suc (length ins)) reg mask s ins

  -- `while (times < timeout)` of `emmc_issue_command`: whether it is left by its `break`.
  unfoldable pub await_command : ℕ → M S Bool
  await_command zero = pure false
  await_command (suc times) =
      let again = delay_ms 1 >> await_command times in
      do reg ← get32 int_flags; if has reg 0x8001 then pure true else again
