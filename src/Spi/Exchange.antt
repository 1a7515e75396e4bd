-- ===== src/Spi/Exchange.antt =====
-- What a transfer sends and receives, whatever the FIFOs' flags show.
use haskell_os.Base.{
  ℕ, zero, suc, ◌+◌, ◌<◌, ◌≤◌, ◌≡◌, refl, ◌∙◌, ap, ◌⊎◌, inl, inr, arith, false, ltb, ◌==◌,
  if◌then◌else◌, List, [], ◌∷◌, length, bit_and, u8, bit_and_mask, Bool-cases,
}
use haskell_os.Base.Io.{Trace, Outcome, done, waiting, rd, wr, barrier, irq_on, irq_off, after}
use haskell_os.Hal.Heap.{Memory, store8}
use haskell_os.Libc.Memory.Compare.{bytes_at}
use haskell_os.Spi.{
  spi0_cs, spi0_fifo, spi_cs_txd, spi_cs_rxd, flag, Phase, filling, draining, fetching, exchange,
}

-- The words stored to the register at `r`, and the bytes loaded from the FIFO, in order.
abbrev pub stores : ℕ → Trace → List ℕ
stores r [] = []
stores r (wr a w ∷ t) = if a == r then w ∷ stores r t else stores r t
stores r (rd a v ∷ t) = stores r t
stores r (barrier ∷ t) = stores r t
stores r (irq_on ∷ t) = stores r t
stores r (irq_off ∷ t) = stores r t

abbrev pub sent : Trace → List ℕ
sent t = stores spi0_fifo t

abbrev pub loaded : Trace → List ℕ
loaded [] = []
loaded (rd a v ∷ t) = if a == spi0_fifo then u8 v ∷ loaded t else loaded t
loaded (wr a w ∷ t) = loaded t
loaded (barrier ∷ t) = loaded t
loaded (irq_on ∷ t) = loaded t
loaded (irq_off ∷ t) = loaded t

-- The memory with the bytes stored from `p` on.
abbrev pub stored : Memory → ℕ → List ℕ → Memory
stored m p [] = m
stored m p (b ∷ bs) = stored (store8 m p b) (p + 1) bs

-- What a run does from the indices `i` and `j` on. It sends the next bytes of the transmit buffer, in
-- order and at most all of them, and puts the low bytes of the words that it loads into the receive
-- buffer, in order. It returns once the receive buffer is full; else it still waits.
pub data Exchanged (n rx tx i j : ℕ) (m : Memory) : Outcome Memory (Unit {0}) → Type 0 where
  exchanged :
      {rest : List ℕ} {t : Trace} {m' : Memory} (k : ℕ)
      → i + k ≤ n
      → sent t ≡ bytes_at m (tx + i) k
      → j + length (loaded t) ≡ n
      → m' ≡ stored m (rx + j) (loaded t)
      → stores spi0_cs t ≡ []
      → Exchanged n rx tx i j m (done tt m' rest t)
  unfinished :
      {t : Trace} (k : ℕ)
      → i + k ≤ n
      → sent t ≡ bytes_at m (tx + i) k
      → j + length (loaded t) < n
      → Exchanged n rx tx i j m (waiting t)

-- Bytes that a store does not reach.
bytes_at-store8 :
    (k : ℕ) (m : Memory) (p a v : ℕ)
    → (a < p) ⊎ (p + k ≤ a)
    → bytes_at (store8 m a v) p k ≡ bytes_at m p k
bytes_at-store8 zero m p a v h = refl
bytes_at-store8 (suc k) m p a v h = ground (arith, bytes_at-store8 k m (p + 1) a v)

module _ (n rx tx : ℕ) (apart : (rx + n ≤ tx) ⊎ (tx + n ≤ rx)) where
  -- A status load changes nothing.
  after_status :
      (i j v : ℕ) (m : Memory) {o : Outcome Memory (Unit {0})}
      → Exchanged n rx tx i j m o
      → Exchanged n rx tx i j m (after (rd spi0_cs v ∷ []) o)
  after_status i j v m (exchanged k a b c d s) = exchanged k a b c d s
  after_status i j v m (unfinished k a b c) = unfinished k a b c

  next_byte :
      (m : Memory) (i k : ℕ) {bs : List ℕ}
      → bs ≡ bytes_at m (tx + (i + 1)) k
      → ◌≡◌ {A = List ℕ} (m (tx + i) ∷ bs) (bytes_at m (tx + i) (suc k))
  next_byte m i k b = rw b (
      ap (λ (p : ℕ). m (tx + i) ∷ bytes_at m p k) {x = tx + (i + 1)} {y = tx + i + 1} (omega arith))

  after_write :
      (i j v : ℕ) (m : Memory) {o : Outcome Memory (Unit {0})}
      → i < n
      → Exchanged n rx tx (i + 1) j m o
      → Exchanged n rx tx i j m (after (rd spi0_cs v ∷ wr spi0_fifo (m (tx + i)) ∷ []) o)
  after_write i j v m h (exchanged k a b c d s) =
      exchanged (suc k) (omega arith) (next_byte m i k b) c d s
  after_write i j v m h (unfinished k a b c) =
      unfinished (suc k) (omega arith) (next_byte m i k b) c

  -- A byte that is stored in the receive buffer is no byte to send.
  still_to_send :
      (i j b k : ℕ) (m : Memory)
      → i + k ≤ n
      → j < n
      → bytes_at (store8 m (rx + j) b) (tx + i) k ≡ bytes_at m (tx + i) k
  still_to_send i j b k m a h = bytes_at-store8 k m (tx + i) (rx + j) b (ground arith)

  after_fetch :
      (i j v : ℕ) (m : Memory) {o : Outcome Memory (Unit {0})}
      → j < n
      → Exchanged n rx tx i (j + 1) (store8 m (rx + j) (bit_and v 0xff)) o
      → Exchanged n rx tx i j m (after (rd spi0_fifo v ∷ []) o)
  after_fetch i j v m h (exchanged {t = t} k a b c d s) =
      exchanged k a (b ∙ still_to_send i j (bit_and v 0xff) k m a h) (omega arith)
        (d
          ∙ ap (λ (p : ℕ). stored (store8 m (rx + j) (bit_and v 0xff)) p (loaded t))
              {x = rx + (j + 1)} {y = rx + j + 1} (omega arith)
          ∙ ap (λ (w : ℕ). stored (store8 m (rx + j) w) (rx + j + 1) (loaded t)) (bit_and_mask 8 v))
        s
  after_fetch i j v m h (unfinished k a b c) =
      unfinished k a (b ∙ still_to_send i j (bit_and v 0xff) k m a h) (omega arith)

  finished :
      (ins : List ℕ) (i j : ℕ) (m : Memory)
      → i ≤ n
      → j ≤ n
      → ltb j n ≡ false
      → Exchanged n rx tx i j m (done tt m ins [])
  finished ins i j m hi hj e = exchanged {t = []} 0 (omega arith) refl (ground arith) refl refl

  drained :
      (ins : List ℕ) (i j v : ℕ) (m : Memory)
      → ((p : Phase) → Exchanged n rx tx i j m (exchange n rx tx p i j m ins))
      → Exchanged n rx tx i j m (
          if flag v spi_cs_rxd
          then after (rd spi0_cs v ∷ []) (exchange n rx tx fetching i j m ins)
          else after (rd spi0_cs v ∷ []) (exchange n rx tx filling i j m ins))
  drained ins i j v m go = elim (Bool-cases (flag v spi_cs_rxd)) [
    | inl f ↦ rw f (after_status i j v m (go fetching))
    | inr f ↦ rw f (after_status i j v m (go filling))
  ]

  -- The loops of a transfer, from any place on, with disjoint buffers.
  pub exchange_lem :
      (ins : List ℕ) (phase : Phase) (i j : ℕ) (m : Memory)
      → i ≤ n
      → j ≤ n
      → Exchanged n rx tx i j m (exchange n rx tx phase i j m ins)
  unfolding exchange
  exchange_lem [] phase i j m hi hj = elim (Bool-cases (ltb j n)) [
    | inl e ↦ rw e (unfinished {t = []} 0 (omega arith) refl (ground arith))
    | inr e ↦ rw e (finished [] i j m hi hj e)
  ]
  exchange_lem (v ∷ ins) filling i j m hi hj = elim (Bool-cases (ltb j n)) [
    | inr e ↦ rw e (finished (v ∷ ins) i j m hi hj e)
    | inl e ↦ rw e (elim (Bool-cases (ltb i n)) [
      | inr f ↦ rw f (drained ins i j v m (λ p. exchange_lem ins p i j m hi hj))
      | inl f ↦ rw f (elim (Bool-cases (flag v spi_cs_txd)) [
        | inl g ↦ rw g (
            after_write i j v m (ground arith)
              (exchange_lem ins filling (i + 1) j m (ground arith) hj))
        | inr g ↦ rw g (after_status i j v m (exchange_lem ins draining i j m hi hj))
      ])
    ])
  ]
  exchange_lem (v ∷ ins) draining i j m hi hj = elim (Bool-cases (ltb j n)) [
    | inr e ↦ rw e (finished (v ∷ ins) i j m hi hj e)
    | inl e ↦ rw e (drained ins i j v m (λ p. exchange_lem ins p i j m hi hj))
  ]
  exchange_lem (v ∷ ins) fetching i j m hi hj = elim (Bool-cases (ltb j n)) [
    | inr e ↦ rw e (finished (v ∷ ins) i j m hi hj e)
    | inl e ↦ rw e (
        after_fetch i j v m (ground arith) (
          exchange_lem ins draining i (j + 1) (store8 m (rx + j) (bit_and v 0xff)) hi
            (ground arith)))
  ]
