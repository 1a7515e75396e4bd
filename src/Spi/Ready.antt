-- ===== src/Spi/Ready.antt =====
-- A transfer with a device that keeps up returns.
use haskell_os.Base.{
  ℕ, zero, suc, ◌+◌, ◌≡◌, refl, arith, true, false, List, [], ◌∷◌, ◌++◌, length, replicate, ltb,
  bit_and,
}
use haskell_os.Base.Io.{
  Trace, Outcome, done, rd, wr, barrier, after, and_then, ◌>>◌, put32, dev_barrier,
}
use haskell_os.Hal.Heap.{Memory, store8}
use haskell_os.Spi.{
  spi0_cs, spi0_fifo, spi_cs_txd, spi_cs_rxd, spi_cs_done, flag, filling, draining, exchange,
  poll_done, spi_transfer,
}
use haskell_os.Spi.Transfer.{start_word}

-- The run returns and leaves these answers.
data Returns {S : Type 0} (rest : List ℕ) : Outcome S (Unit {0}) → Type 0 where
  returns : {s : S} {t : Trace} → Returns rest (done tt s rest t)

after-Returns :
    {S : Type 0} {rest : List ℕ} (t : Trace) {o : Outcome S (Unit {0})}
    → Returns rest o
    → Returns rest (after t o)
after-Returns t returns = returns

-- A status that shows room, a byte and an end at once, before each received word.
abbrev pub served : ℕ → List ℕ → List ℕ → List ℕ
served v [] tail = tail
served v (w ∷ ws) tail = v ∷ w ∷ served v ws tail

module _ (n rx tx v : ℕ) (room : flag v spi_cs_txd ≡ true) (byte : flag v spi_cs_rxd ≡ true)
    (rest : List ℕ) where
  draining-Returns :
      (ws : List ℕ) (i j : ℕ) (m : Memory)
      → j + length ws ≡ n
      → Returns (v ∷ rest) (exchange n rx tx draining i j m (served v ws (v ∷ rest)))
  unfolding exchange
  draining-Returns [] i j m e = let full : ltb j n ≡ false = ground arith in rw full returns
  draining-Returns (w ∷ ws) i j m e =
      let reading : ltb j n ≡ true = ground arith in
      rw (reading, byte)
        (after-Returns (rd spi0_cs v ∷ []) (
          after-Returns (rd spi0_fifo w ∷ [])
            (draining-Returns ws i (j + 1) (store8 m (rx + j) (bit_and w 0xff)) (omega arith))))

  filling-Returns :
      (d i w : ℕ) (ws : List ℕ) (m : Memory)
      → i + d ≡ n
      → 1 + length ws ≡ n
      → Returns
          (v ∷ rest)
          (exchange n rx tx filling i 0 m (replicate d v ++ served v (w ∷ ws) (v ∷ rest)))
  unfolding exchange
  filling-Returns zero i w ws m e h =
      let reading : ltb 0 n ≡ true = ground arith in
      let all_sent : ltb i n ≡ false = ground arith in
      rw (reading, all_sent, byte)
        (after-Returns (rd spi0_cs v ∷ []) (
          after-Returns (rd spi0_fifo w ∷ [])
            (draining-Returns ws i 1 (store8 m (rx + 0) (bit_and w 0xff)) (omega arith))))
  filling-Returns (suc d) i w ws m e h =
      let reading : ltb 0 n ≡ true = ground arith in
      let more : ltb i n ≡ true = ground arith in
      rw (reading, more, room)
        (after-Returns (rd spi0_cs v ∷ wr spi0_fifo (m (tx + i)) ∷ [])
          (filling-Returns d (i + 1) w ws m (omega arith) h))

all_sent :
    (ws : List ℕ) (rx tx v : ℕ) (m : Memory) (rest : List ℕ)
    → flag v spi_cs_txd ≡ true
    → flag v spi_cs_rxd ≡ true
    → Returns (v ∷ rest) (
        exchange
          (length ws)
          rx
          tx
          filling
          0
          0
          m
          (replicate (length ws) v ++ served v ws (v ∷ rest)))
unfolding exchange
all_sent [] rx tx v m rest room byte = returns
all_sent (w ∷ ws) rx tx v m rest room byte =
    filling-Returns (length (w ∷ ws)) rx tx v room byte rest (length (w ∷ ws)) 0 w ws m
      (omega arith) (omega arith)

closing :
    (v word : ℕ) (rest : List ℕ)
    → flag v spi_cs_done ≡ true
    → {o : Outcome Memory (Unit {0})} → Returns (v ∷ rest) o
    → Returns rest (and_then o (λ _. poll_done >> (put32 spi0_cs (bit_and word 3) >> dev_barrier)))
unfolding poll_done
closing v word rest last (returns {t = t}) = rw last (after-Returns t returns)

Returns-done :
    {S : Type 0} {rest : List ℕ} {o : Outcome S (Unit {0})}
    → Returns rest o
    → (s : S) × (t : Trace) × (o ≡ done tt s rest t)
Returns-done (returns {s = s} {t = t}) = (s, t, refl)

-- With a device that always shows room for a byte, a byte and the end of the transfer, a transfer of
-- any number of bytes returns, after one status for each byte that it sends, one status and one word
-- for each that it receives, and one status more.
pub spi_transfer-returns :
    (ws : List ℕ) (rx tx v word : ℕ) (m : Memory) (rest : List ℕ)
    → flag v spi_cs_txd ≡ true
    → flag v spi_cs_rxd ≡ true
    → flag v spi_cs_done ≡ true
    → (m' : Memory) × (t : Trace) × (spi_transfer rx tx
          (length ws)
          m
          (word ∷ replicate (length ws) v ++ served v ws (v ∷ rest))
        ≡ done tt m' rest t)
unfolding spi_transfer
spi_transfer-returns ws rx tx v word m rest room byte last = Returns-done (
    after-Returns (barrier ∷ []) (
      after-Returns (rd spi0_cs word ∷ []) (
        after-Returns (wr spi0_cs (start_word word) ∷ []) (
          after-Returns (barrier ∷ [])
            (closing v word rest last (all_sent ws rx tx v m rest room byte))))))
