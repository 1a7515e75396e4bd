-- ===== src/Tests/Board.antt =====
-- The board support of c/hal.c on concrete answers.
use haskell_os.Base.{
  ℕ, ◌+◌, ◌^◌, ◌<◌, ◌≡◌, refl, arith, ◌==◌, if◌then◌else◌, List, [], ◌∷◌, replicate,
}
use haskell_os.Base.Io.{done, rd, wr}
use haskell_os.Hal.Gpio.{gpio_fsel0, gpio_set_function}
use haskell_os.Hal.Gpio.Fields.{field, gpio_set_function-field}
use haskell_os.Hal.Uart.{uart_puts}
use haskell_os.Hal.Uart.Sent.{Sends, uart_puts-Sends}
use haskell_os.Hal.Rx.{Irq, rx_buf_push, rx_buf_pop, irq_dispatch}
use haskell_os.Hal.Rx.Queue.{IsValid, received, rx_buf_push-enqueue, rx_buf_pop-dequeue}
use haskell_os.Hal.Rx.Dispatch.{
  accesses, answers, timer_fired, aux_fired, Handled, irq_dispatch-Handled,
}
use haskell_os.Hal.Timer.{timer_clo, delay_us}
use haskell_os.Hal.Timer.{delay_us-loads}

abbrev units : Unit {0}
units = tt

gpio_set_function-field_example :
    (w : ℕ) × (gpio_set_function 47 1 units (0x1200 ∷ [])
      ≡ done tt units [] (rd (gpio_fsel0 + 16) 0x1200 ∷ wr (gpio_fsel0 + 16) w ∷ []))
    × ((j : ℕ) → 1 < 8 → field w j ≡ (if 7 == j then 1 else field 0x1200 j))
gpio_set_function-field_example = gpio_set_function-field units 47 1 0x1200 [] (omega arith)

abbrev ok_line : List ℕ
ok_line = b'o' ∷ b'k' ∷ b'\n' ∷ []

uart_puts-Sends_example :
    Sends units
      (0 ∷ 2 ∷ 3 ∷ 2 ∷ 0 ∷ 2 ∷ [])
      (b'o' ∷ b'k' ∷ b'\r' ∷ b'\n' ∷ [])
      (uart_puts ok_line units (0 ∷ 2 ∷ 3 ∷ 2 ∷ 0 ∷ 2 ∷ []))
uart_puts-Sends_example =
    uart_puts-Sends units ok_line (0 ∷ 2 ∷ 3 ∷ 2 ∷ 0 ∷ 2 ∷ [])
      (omega arith, (omega arith, (omega arith, tt)))

-- Two bytes wait at the array's end, and the next goes to its start.
abbrev at_end : Irq
at_end = record {
  rx_buf = replicate 256 7;
  rx_head = 255;
  rx_tail = 253;
  tick_count = 41;
  preempt_pending = 0;
}

at_end-IsValid : IsValid at_end
at_end-IsValid = record { array = refl; head_in = omega arith; tail_in = omega arith }

rx_buf_push-enqueue_example :
    IsValid (rx_buf_push 0x141 at_end) × (received (rx_buf_push 0x141 at_end) ≡ 7 ∷ 7 ∷ 0x41 ∷ [])
rx_buf_push-enqueue_example = rx_buf_push-enqueue 0x141 at_end at_end-IsValid

rx_buf_pop-dequeue_example :
    IsValid (rx_buf_pop at_end).1
    × ((◌≡◌ {A = ℕ × List ℕ} ((rx_buf_pop at_end).0, received (rx_buf_pop at_end).1) (7, 7 ∷ []))
        × ((rx_buf_pop at_end).1 ≡ record at_end { rx_tail = 254 }))
rx_buf_pop-dequeue_example = rx_buf_pop-dequeue at_end at_end-IsValid

irq_dispatch-Handled_example :
    (s' : Irq) × (irq_dispatch at_end (
        1
        ∷ 2 ^ 29
        ∷ (if aux_fired (2 ^ 29) then answers ((3, 0x41) ∷ (1, 0x42) ∷ []) (2 ∷ []) else []))
      ≡ done tt s' [] (accesses 1 (2 ^ 29) 2 ((3, 0x41) ∷ (1, 0x42) ∷ [])))
    × Handled (timer_fired 1) (aux_fired (2 ^ 29)) ((3, 0x41) ∷ (1, 0x42) ∷ []) at_end s'
irq_dispatch-Handled_example =
    irq_dispatch-Handled 1 (2 ^ 29) 2 ((3, 0x41) ∷ (1, 0x42) ∷ []) [] at_end at_end-IsValid
      (refl, (refl, tt)) refl

-- The counter turns over during the wait.
delay_us-loads_example :
    delay_us 20 units (0xffff_fff6 ∷ 0 ∷ 12 ∷ [])
    ≡ done tt units [] (rd timer_clo 0xffff_fff6 ∷ rd timer_clo 0 ∷ rd timer_clo 12 ∷ [])
delay_us-loads_example =
    delay_us-loads units 20 0xffff_fff6 0x1_0000_000c (0x1_0000_0000 ∷ []) [] (omega arith)
      ((omega arith, omega arith), tt) (omega arith) (omega arith)
