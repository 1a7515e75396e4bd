-- ===== src/Hal/Rx.antt =====
-- The receive buffer of c/hal.c and the interrupt handler that fills it, with the counters that the
-- handler keeps for the evaluator.
pub mod Queue
pub mod Dispatch
use haskell_os.Base.{
  ℕ, ◌+◌, ◌%◌, ◌^◌, bit_and, ◌==◌, not, if◌then◌else◌, Bool, List, [], ◌∷◌, get_or, set, u8, u32,
}
use haskell_os.Base.Io.{
  M, done, waiting, rd, after, and_then, ◌>>=◌, ◌>>◌, pure, get32, put32, dev_barrier, gets, modify,
  enable_interrupts, disable_interrupts,
}
use haskell_os.Hal.Uart.{aux_mu_io_reg, aux_mu_ier_reg, aux_mu_stat_reg}

-- The globals `uart_rx_buf`, `uart_rx_head`, `uart_rx_tail`, `timer_tick_count`, `preempt_pending`.
pub record Irq : Type 0 where
  pub rx_buf : List ℕ
  pub rx_head : ℕ
  pub rx_tail : ℕ
  pub tick_count : ℕ
  pub preempt_pending : ℕ

abbrev pub uart_rx_buf_size : ℕ
uart_rx_buf_size = 256

unfoldable pub rx_buf_push : ℕ → Irq → Irq
rx_buf_push ch s =
    let next = u32 (s.rx_head + 1) % uart_rx_buf_size in
    if next == s.rx_tail
    then s
    else record s { rx_buf = set s.rx_buf s.rx_head (u8 ch); rx_head = next }

unfoldable pub rx_buf_pop : Irq → ℕ × Irq
rx_buf_pop s = if s.rx_tail == s.rx_head then (0xffff_ffff, s) else (
  get_or s.rx_buf s.rx_tail 0,
  record s { rx_tail = u32 (s.rx_tail + 1) % uart_rx_buf_size },
)

unfoldable pub rx_buf_has_data : Irq → Bool
rx_buf_has_data s = not (s.rx_tail == s.rx_head)

abbrev pub irq_basic_pending : ℕ
irq_basic_pending = 0x2000_b200

abbrev pub irq_pending_1 : ℕ
irq_pending_1 = 0x2000_b204

abbrev pub irq_enable_1 : ℕ
irq_enable_1 = 0x2000_b210

abbrev pub irq_enable_basic : ℕ
irq_enable_basic = 0x2000_b218

abbrev pub irq_disable_1 : ℕ
irq_disable_1 = 0x2000_b21c

abbrev pub irq_disable_2 : ℕ
irq_disable_2 = 0x2000_b220

abbrev pub irq_disable_basic : ℕ
irq_disable_basic = 0x2000_b224

abbrev pub arm_timer_load : ℕ
arm_timer_load = 0x2000_b400

abbrev pub arm_timer_control : ℕ
arm_timer_control = 0x2000_b408

abbrev pub arm_timer_irq_clr : ℕ
arm_timer_irq_clr = 0x2000_b40c

abbrev pub arm_timer_irq_bit : ℕ
arm_timer_irq_bit = 1

abbrev pub aux_irq_bit : ℕ
aux_irq_bit = 2 ^ 29

-- `while (c_uart_has_data()) { unsigned ch = GET32(AUX_MU_IO_REG) & 0xFF; uart_rx_buf_push(ch); }`
unfoldable pub drain : M Irq (Unit {0})
drain s [] = waiting []
drain s (v ∷ []) =
    if bit_and v 1 == 0
    then done tt s [] (rd aux_mu_stat_reg v ∷ [])
    else waiting (rd aux_mu_stat_reg v ∷ [])
drain s (v ∷ c ∷ ins) =
    let more =
      after (rd aux_mu_stat_reg v ∷ rd aux_mu_io_reg c ∷ [])
        (drain (rx_buf_push (bit_and c 0xff) s) ins) in
    if bit_and v 1 == 0 then done tt s (c ∷ ins) (rd aux_mu_stat_reg v ∷ []) else more

unfoldable pub tick : M Irq (Unit {0})
tick = do
  put32 arm_timer_irq_clr 1
  dev_barrier
  modify (λ s. record s { tick_count = u32 (s.tick_count + 1) })
  modify (λ s. record s { preempt_pending = 1 })

-- The handler's first check, of the ARM timer's interrupt.
unfoldable pub check_timer : M Irq (Unit {0})
unfolding tick
check_timer = do
  basic ← get32 irq_basic_pending
  if bit_and basic arm_timer_irq_bit == 0 then pure tt else tick

-- Its second check, of the serial port's.
unfoldable pub check_uart : M Irq (Unit {0})
unfolding drain
check_uart = do
  word ← get32 irq_pending_1
  if bit_and word aux_irq_bit == 0 then pure tt else (drain >> dev_barrier)

unfoldable pub irq_dispatch : M Irq (Unit {0})
unfolding check_timer check_uart
irq_dispatch = do check_timer; check_uart

unfoldable pub timer_interrupt_init : {S : Type 0} → ℕ → M S (Unit {0})
timer_interrupt_init interval_us = do
  disable_interrupts
  put32 irq_disable_1 0xffff_ffff
  put32 irq_disable_2 0xffff_ffff
  put32 irq_disable_basic 0xffff_ffff
  dev_barrier
  put32 arm_timer_load interval_us
  put32 arm_timer_control (2 ^ 7 + 2 ^ 5 + 2 ^ 1)
  dev_barrier
  put32 irq_enable_basic arm_timer_irq_bit
  dev_barrier
  enable_interrupts

unfoldable pub uart_interrupt_init : {S : Type 0} → M S (Unit {0})
uart_interrupt_init = do
  put32 aux_mu_ier_reg 1
  dev_barrier
  put32 irq_enable_1 aux_irq_bit
  dev_barrier

unfoldable pub timer_tick_count : M Irq ℕ
timer_tick_count = gets (λ s. s.tick_count)

unfoldable pub uart_rx_has_data : M Irq ℕ
unfolding rx_buf_has_data
uart_rx_has_data = gets (λ s. if rx_buf_has_data s then 1 else 0)

unfoldable pub uart_rx_read : M Irq ℕ
unfolding rx_buf_pop
uart_rx_read s ins = let (ch, s') = rx_buf_pop s in done ch s' ins []
