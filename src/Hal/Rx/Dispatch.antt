-- ===== src/Hal/Rx/Dispatch.antt =====
-- What one run of the interrupt handler does to the queue and to the counters.
use haskell_os.Base.{
  ℕ, ◌+◌, ◌≡◌, refl, ◌∙◌, ap, arith, Bool, true, false, not, ◌==◌, if◌then◌else◌, List, [], ◌∷◌,
  ◌++◌, All, u8, u32, bit_and, bit_and_mask, Bool-cases, inl, inr,
}
use haskell_os.Base.Io.{Trace, done, rd, wr, barrier}
use haskell_os.Hal.Uart.{aux_mu_io_reg, aux_mu_stat_reg}
use haskell_os.Hal.Rx.{
  Irq, rx_buf_push, drain, tick, check_timer, check_uart, irq_dispatch, irq_pending_1,
  arm_timer_irq_clr, arm_timer_irq_bit, aux_irq_bit, irq_basic_pending,
}
use haskell_os.Hal.Rx.Queue.{IsValid, received, enqueue, enqueue_all, rx_buf_push-enqueue}

-- The answers that a drain gets: a status with its data bit set and a byte, as often as there are
-- bytes, and then a status with that bit clear.
abbrev pub Fifo : Type 0
Fifo = List (ℕ × ℕ)

abbrev pub has_byte : ℕ → Bool
has_byte v = not (bit_and v 1 == 0)

abbrev pub answers : Fifo → List ℕ → List ℕ
answers [] ins = ins
answers ((v, c) ∷ fifo) ins = v ∷ c ∷ answers fifo ins

abbrev pub bytes : Fifo → List ℕ
bytes [] = []
bytes ((v, c) ∷ fifo) = u8 c ∷ bytes fifo

abbrev pub reads : Fifo → ℕ → Trace
reads [] v = rd aux_mu_stat_reg v ∷ []
reads ((w, c) ∷ fifo) v = rd aux_mu_stat_reg w ∷ rd aux_mu_io_reg c ∷ reads fifo v

abbrev push_all : Fifo → Irq → Irq
push_all [] s = s
push_all ((v, c) ∷ fifo) s = push_all fifo (rx_buf_push (bit_and c 0xff) s)

-- The drain takes every byte and stops.
drain-push_all :
    (fifo : Fifo) (v : ℕ) (rest : List ℕ) (s : Irq)
    → All (λ (w, _). has_byte w ≡ true) fifo
    → has_byte v ≡ false
    → drain s (answers fifo (v ∷ rest)) ≡ done tt (push_all fifo s) rest (reads fifo v)
unfolding drain
drain-push_all [] v [] s all stop = ground arith
drain-push_all [] v (c ∷ rest) s all stop = ground arith
drain-push_all ((w, c) ∷ fifo) v rest s all stop =
    ground (arith, drain-push_all fifo v rest (rx_buf_push (bit_and c 0xff) s) all.1 stop)

-- What the pushes leave alone.
counters-push :
    (c : ℕ) (s : Irq)
    → ((rx_buf_push c s).tick_count ≡ s.tick_count)
      × (((rx_buf_push c s).preempt_pending ≡ s.preempt_pending)
          × ((rx_buf_push c s).rx_tail ≡ s.rx_tail))
unfolding rx_buf_push
counters-push c s = ground arith

-- The state after a run of the handler, given what is pending and what the FIFO holds.
pub record Handled (timer aux : Bool) (fifo : Fifo) (s s' : Irq) : Type 0 where
  pub valid : IsValid s'
  pub queue : received s' ≡ (if aux then enqueue_all (received s) (bytes fifo) else received s)
  pub ticks : s'.tick_count ≡ (if timer then u32 (s.tick_count + 1) else s.tick_count)
  pub preempts : s'.preempt_pending ≡ (if timer then 1 else s.preempt_pending)
  pub tail : s'.rx_tail ≡ s.rx_tail

push_all-Handled : (fifo : Fifo) (s : Irq) → IsValid s → Handled false true fifo s (push_all fifo s)
push_all-Handled [] s v = record {
  valid = v;
  queue = refl;
  ticks = refl;
  preempts = refl;
  tail = refl;
}
push_all-Handled ((w, c) ∷ fifo) s v =
    let (ok, eq) = rx_buf_push-enqueue (bit_and c 0xff) s v in
    let rest = push_all-Handled fifo (rx_buf_push (bit_and c 0xff) s) ok in
    record {
      valid = rest.valid;
      queue =
          rest.queue
          ∙ ap (λ q. enqueue_all q (bytes fifo)) eq
          ∙ ap (λ (t : ℕ). enqueue_all (enqueue (received s) t) (bytes fifo)) {y = u8 c}
              (ap u8 (bit_and_mask 8 c) ∙ omega arith);
      ticks = rest.ticks ∙ (counters-push (bit_and c 0xff) s).0;
      preempts = rest.preempts ∙ (counters-push (bit_and c 0xff) s).1.0;
      tail = rest.tail ∙ (counters-push (bit_and c 0xff) s).1.1;
    }

abbrev pub timer_fired : ℕ → Bool
timer_fired basic = not (bit_and basic arm_timer_irq_bit == 0)

abbrev pub aux_fired : ℕ → Bool
aux_fired word = not (bit_and word aux_irq_bit == 0)

-- The accesses of a run of the handler, in order. The timer's interrupt is cleared before the serial
-- port is looked at.
abbrev uart_accesses : ℕ → ℕ → Fifo → Trace
uart_accesses word v fifo =
    rd irq_pending_1 word ∷ (if aux_fired word then reads fifo v ++ (barrier ∷ []) else [])

abbrev pub accesses : ℕ → ℕ → ℕ → Fifo → Trace
accesses basic word v fifo =
    rd irq_basic_pending basic
      ∷ (if timer_fired basic then wr arm_timer_irq_clr 1 ∷ barrier ∷ [] else [])
    ++ uart_accesses word v fifo

-- The serial port's half of the handler.
check_uart-Handled :
    (word v : ℕ) (fifo : Fifo) (rest : List ℕ) (s : Irq)
    → IsValid s
    → All (λ (w, _). has_byte w ≡ true) fifo
    → has_byte v ≡ false
    → (s' : Irq) × (check_uart s (word ∷ (if aux_fired word then answers fifo (v ∷ rest) else rest))
        ≡ done tt s' rest (uart_accesses word v fifo))
      × Handled false (aux_fired word) fifo s s'
unfolding check_uart
check_uart-Handled word v fifo rest s ok all stop =
    elim (Bool-cases (bit_and word aux_irq_bit == 0)) [
      | inl e ↦
          rw e (
            s,
            refl,
            record { valid = ok; queue = refl; ticks = refl; preempts = refl; tail = refl },
          )
      | inr e ↦
          rw (e, drain-push_all fifo v rest s all stop)
            (push_all fifo s, refl, push_all-Handled fifo s ok)
    ]

-- The state after a tick.
abbrev ticked : Irq → Irq
ticked s = record s { tick_count = u32 (s.tick_count + 1); preempt_pending = 1 }

ticked-Handled :
    (aux : Bool) (fifo : Fifo) (s s' : Irq)
    → Handled false aux fifo (ticked s) s'
    → Handled true aux fifo s s'
ticked-Handled aux fifo s s' h = record {
  valid = h.valid;
  queue = h.queue;
  ticks = h.ticks;
  preempts = h.preempts;
  tail = h.tail;
}

-- With the timer's bit pending, the handler clears the timer's interrupt, counts one tick (modulo 2^32)
-- and asks the evaluator to yield; with the serial port's bit pending, it adds every byte of the FIFO
-- to the queue in order, dropping those that find it full. It returns once the FIFO shows no more data,
-- keeps the buffer's indices inside the array and the read index as it was, and makes no other access
-- to the board.
pub irq_dispatch-Handled :
    (basic word v : ℕ) (fifo : Fifo) (rest : List ℕ) (s : Irq)
    → IsValid s
    → All (λ (w, _). has_byte w ≡ true) fifo
    → has_byte v ≡ false
    → (s' : Irq) × (irq_dispatch s
          (basic ∷ word ∷ (if aux_fired word then answers fifo (v ∷ rest) else rest))
        ≡ done tt s' rest (accesses basic word v fifo))
      × Handled (timer_fired basic) (aux_fired word) fifo s s'
unfolding irq_dispatch check_timer tick
irq_dispatch-Handled basic word v fifo rest s ok all stop =
    elim (Bool-cases (bit_and basic arm_timer_irq_bit == 0)) [
      | inl e ↦
          let (s', eq, h) = check_uart-Handled word v fifo rest s ok all stop in
          rw (e, eq) (s', refl, h)
      | inr e ↦
          let (s', eq, h) =
            check_uart-Handled word v fifo rest (ticked s)
              (record { array = ok.array; head_in = ok.head_in; tail_in = ok.tail_in }) all stop in
          rw (e, eq) (s', refl, ticked-Handled (aux_fired word) fifo s s' h)
    ]
