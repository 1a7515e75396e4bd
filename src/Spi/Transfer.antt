-- ===== src/Spi/Transfer.antt =====
-- A whole transfer, and how it ends.
use haskell_os.Base.{
  ℕ, ◌+◌, ◌≤◌, ◌≡◌, refl, ◌∙◌, sym, ap, ◌⊎◌, arith, List, [], ◌∷◌, ◌++◌, length, bit_and, bit_or,
  append-nil, Bool-cases, inl, inr,
}
use haskell_os.Base.Io.{
  Trace, Outcome, done, waiting, rd, wr, barrier, irq_on, irq_off, after, and_then, ◌>>◌, put32,
  dev_barrier,
}
use haskell_os.Hal.Heap.{Memory}
use haskell_os.Libc.Memory.Compare.{bytes_at}
use haskell_os.Spi.{
  spi0_cs, spi0_fifo, spi_cs_clear_rx, spi_cs_clear_tx, spi_cs_ta, spi_cs_done, flag, filling,
  poll_done, spi_transfer,
}
use haskell_os.Spi.Exchange.{
  stores, sent, loaded, stored, Exchanged, exchanged, unfinished, exchange_lem,
}

-- The word that starts a transfer.
abbrev pub start_word : ℕ → ℕ
start_word word =
    bit_or (bit_or (bit_or (bit_and word 3) spi_cs_clear_rx) spi_cs_clear_tx) spi_cs_ta

-- How a transfer ends that found `word` in the status register: the bytes it loaded fill the receive
-- buffer, in order, and nothing else in memory has changed; it sent the first `k` bytes of the transmit
-- buffer in order; and it stored two words to the status register, the second with the chip select only.
pub data Transferred (n rx tx word : ℕ) (m : Memory) : Outcome Memory (Unit {0}) → Type 0 where
  transferred :
      {rest : List ℕ} {t : Trace} {m' : Memory} (k : ℕ)
      → k ≤ n
      → sent t ≡ bytes_at m tx k
      → length (loaded t) ≡ n
      → m' ≡ stored m rx (loaded t)
      → stores spi0_cs t ≡ start_word word ∷ bit_and word 3 ∷ []
      → Transferred n rx tx word m (done tt m' rest t)
  transferring : {t : Trace} → Transferred n rx tx word m (waiting t)

stores-append : (r : ℕ) (t u : Trace) → stores r (t ++ u) ≡ stores r t ++ stores r u
stores-append r [] u = refl
stores-append r (wr a w ∷ t) u = ground (arith, stores-append r t u)
stores-append r (rd a v ∷ t) u = stores-append r t u
stores-append r (barrier ∷ t) u = stores-append r t u
stores-append r (irq_on ∷ t) u = stores-append r t u
stores-append r (irq_off ∷ t) u = stores-append r t u

loaded-append : (t u : Trace) → loaded (t ++ u) ≡ loaded t ++ loaded u
loaded-append [] u = refl
loaded-append (rd a v ∷ t) u = ground (arith, loaded-append t u)
loaded-append (wr a w ∷ t) u = loaded-append t u
loaded-append (barrier ∷ t) u = loaded-append t u
loaded-append (irq_on ∷ t) u = loaded-append t u
loaded-append (irq_off ∷ t) u = loaded-append t u

-- The wait for the flag only loads the status.
data Polled (m : Memory) : Outcome Memory (Unit {0}) → Type 0 where
  polled :
      {rest : List ℕ} {t : Trace}
      → ((r : ℕ) → stores r t ≡ [])
      → loaded t ≡ []
      → Polled m (done tt m rest t)
  polling : {t : Trace} → Polled m (waiting t)

after-Polled :
    (v : ℕ) (m : Memory) {o : Outcome Memory (Unit {0})}
    → Polled m o
    → Polled m (after (rd spi0_cs v ∷ []) o)
after-Polled v m (polled a b) = polled a b
after-Polled v m polling = polling

poll_done-Polled : (ins : List ℕ) (m : Memory) → Polled m (poll_done m ins)
unfolding poll_done
poll_done-Polled [] m = polling
poll_done-Polled (v ∷ ins) m = elim (Bool-cases (flag v spi_cs_done)) [
  | inl e ↦ rw e (polled {t = rd spi0_cs v ∷ []} (λ r. refl) refl)
  | inr e ↦ rw e (after-Polled v m (poll_done-Polled ins m))
]

module _ (n rx tx word : ℕ) (m : Memory) where
  -- What stands before the loops, and what comes after the wait.
  abbrev start : Trace
  start = barrier ∷ rd spi0_cs word ∷ wr spi0_cs (start_word word) ∷ barrier ∷ []

  abbrev end : Trace
  end = wr spi0_cs (bit_and word 3) ∷ barrier ∷ []

  stores_through :
      (r : ℕ) (t u : Trace)
      → stores r u ≡ []
      → stores r (t ++ (u ++ end)) ≡ stores r t ++ stores r end
  stores_through r t u e =
      stores-append r t (u ++ end)
      ∙ ap (λ (ws : List ℕ). stores r t ++ ws) (stores-append r u end ∙ rw e refl)

  loaded_through : (t u : Trace) → loaded u ≡ [] → loaded (t ++ (u ++ end)) ≡ loaded t
  loaded_through t u e =
      loaded-append t (u ++ end)
      ∙ ap (λ (ws : List ℕ). loaded t ++ ws) (loaded-append u end ∙ rw e refl)
      ∙ append-nil (loaded t)

  closing :
      (t : Trace) {m' : Memory} (k : ℕ)
      → k ≤ n
      → sent t ≡ bytes_at m tx k
      → length (loaded t) ≡ n
      → m' ≡ stored m rx (loaded t)
      → stores spi0_cs t ≡ []
      → {o : Outcome Memory (Unit {0})} → Polled m' o
      → Transferred n rx tx word m (
          after (barrier ∷ []) (
            after (rd spi0_cs word ∷ []) (
              after (wr spi0_cs (start_word word) ∷ []) (
                after
                  (barrier ∷ [])
                  (after t (and_then o (λ _. put32 spi0_cs (bit_and word 3) >> dev_barrier)))))))
  closing t k a b c d e (polled {t = u} f g) =
      transferred {t = start ++ (t ++ (u ++ end))} k a
        (stores_through spi0_fifo t u (f spi0_fifo) ∙ append-nil (sent t) ∙ b)
        (ap length (loaded_through t u g) ∙ c)
        (d ∙ ap (λ (bs : List ℕ). stored m rx bs) (sym (loaded_through t u g)))
        (ap (λ (ws : List ℕ). start_word word ∷ ws)
          (stores_through spi0_cs t u (f spi0_cs)
            ∙ ap (λ (ws : List ℕ). ws ++ stores spi0_cs end) e))
  closing t k a b c d e polling = transferring

  loops :
      {o : Outcome Memory (Unit {0})}
      → Exchanged n rx tx 0 0 m o
      → Transferred n rx tx word m (
          after (barrier ∷ []) (
            after (rd spi0_cs word ∷ []) (
              after (wr spi0_cs (start_word word) ∷ []) (
                after (barrier ∷ []) (
                  and_then o
                    (λ _. poll_done >> (put32 spi0_cs (bit_and word 3) >> dev_barrier)))))))
  loops (exchanged {rest = rest} {t = t} {m' = m'} k a b c d e) =
      closing t k (omega arith)
        (b ∙ ap (λ (p : ℕ). bytes_at m p k) {x = tx + 0} {y = tx} (omega arith)) (omega arith)
        (d ∙ ap (λ (p : ℕ). stored m p (loaded t)) {x = rx + 0} {y = rx} (omega arith)) e
        (poll_done-Polled rest m')
  loops (unfinished k a b c) = transferring

-- A transfer between disjoint buffers: whenever it returns, the receive buffer holds the bytes that
-- came out of the FIFO, in order, the bytes that went into the FIFO are the first of the transmit
-- buffer, in order, and the status register is back to the chip select that was in it.
pub spi_transfer-Transferred :
    (n rx tx word : ℕ) (m : Memory) (ins : List ℕ)
    → (rx + n ≤ tx) ⊎ (tx + n ≤ rx)
    → Transferred n rx tx word m (spi_transfer rx tx n m (word ∷ ins))
unfolding spi_transfer
spi_transfer-Transferred n rx tx word m ins apart =
    loops n rx tx word m (exchange_lem n rx tx apart ins filling 0 0 m (omega arith) (omega arith))
