-- ===== src/Spi.antt =====
-- The SPI driver of c/spi.c. A transfer reads and writes byte buffers in memory, so its globals are the
-- memory.
pub mod Exchange
pub mod Transfer
pub mod Ready
pub mod Select
use haskell_os.Base.{
  ℕ, suc, ◌+◌, ◌^◌, bit_and, bit_or, ◌==◌, not, ltb, if◌then◌else◌, Bool, List, [], ◌∷◌, not32,
}
use haskell_os.Base.Io.{M, done, waiting, rd, wr, after, ◌>>=◌, ◌>>◌, get32, put32, dev_barrier}
use haskell_os.Hal.Gpio.{gpio_set_function}
use haskell_os.Hal.Heap.{Memory, store8}

abbrev pub spi0_cs : ℕ
spi0_cs = 0x2020_4000

abbrev pub spi0_fifo : ℕ
spi0_fifo = 0x2020_4004

abbrev pub spi0_clk : ℕ
spi0_clk = 0x2020_4008

abbrev pub spi_cs_txd : ℕ
spi_cs_txd = 2 ^ 18

abbrev pub spi_cs_rxd : ℕ
spi_cs_rxd = 2 ^ 17

abbrev pub spi_cs_done : ℕ
spi_cs_done = 2 ^ 16

abbrev pub spi_cs_ta : ℕ
spi_cs_ta = 2 ^ 7

abbrev pub spi_cs_clear_rx : ℕ
spi_cs_clear_rx = 2 ^ 5

abbrev pub spi_cs_clear_tx : ℕ
spi_cs_clear_tx = 2 ^ 4

abbrev pub gpio_alt0 : ℕ
gpio_alt0 = 4

-- Whether a status word has the flag.
abbrev pub flag : ℕ → ℕ → Bool
flag v bits = not (bit_and v bits == 0)

unfoldable pub spi_init : {S : Type 0} → ℕ → ℕ → M S (Unit {0})
spi_init chip_select clk_div = do
  dev_barrier
  gpio_set_function 7 gpio_alt0
  gpio_set_function 8 gpio_alt0
  gpio_set_function 9 gpio_alt0
  gpio_set_function 10 gpio_alt0
  gpio_set_function 11 gpio_alt0
  dev_barrier
  put32 spi0_cs (bit_or (bit_or spi_cs_clear_rx spi_cs_clear_tx) (bit_and chip_select 3))
  dev_barrier
  put32 spi0_clk clk_div
  dev_barrier

-- Where the transfer's loops stand before their next load: in the loop that writes, in the loop that
-- reads, or at the read of a byte that the status has announced.
pub data Phase : Type 0 where
  filling draining fetching : Phase

-- The two loops inside `while (rx_idx < nbytes)`, with the indices `i` of `tx` and `j` of `rx`. The
-- answers come from the status register, but for those in `fetching`, which come from the FIFO.
unfoldable pub exchange : ℕ → ℕ → ℕ → Phase → ℕ → ℕ → M Memory (Unit {0})
exchange n rx tx phase i j m [] = if ltb j n then waiting [] else done tt m [] []
exchange n rx tx phase i j m (v ∷ ins) =
    let written =
      after (rd spi0_cs v ∷ wr spi0_fifo (m (tx + i)) ∷ [])
        (exchange n rx tx filling (i + 1) j m ins) in
    let full = after (rd spi0_cs v ∷ []) (exchange n rx tx draining i j m ins) in
    let announced = after (rd spi0_cs v ∷ []) (exchange n rx tx fetching i j m ins) in
    let empty = after (rd spi0_cs v ∷ []) (exchange n rx tx filling i j m ins) in
    let fetched =
      after (rd spi0_fifo v ∷ [])
        (exchange n rx tx draining i (j + 1) (store8 m (rx + j) (bit_and v 0xff)) ins) in
    let drain = if flag v spi_cs_rxd then announced else empty in
    if ltb j n
    then elim phase [
      | filling ↦ (if ltb i n then (if flag v spi_cs_txd then written else full) else drain)
      | draining ↦ drain
      | fetching ↦ fetched
    ]
    else done tt m (v ∷ ins) []

-- `while (!(GET32(SPI0_CS) & SPI_CS_DONE));`
unfoldable pub poll_done : {S : Type 0} → M S (Unit {0})
poll_done s [] = waiting []
poll_done s (v ∷ ins) =
    let rest = after (rd spi0_cs v ∷ []) (poll_done s ins) in
    if flag v spi_cs_done then done tt s ins (rd spi0_cs v ∷ []) else rest

unfoldable pub spi_transfer : ℕ → ℕ → ℕ → M Memory (Unit {0})
unfolding poll_done
spi_transfer rx_buf tx_buf nbytes = do
  dev_barrier
  word ← get32 spi0_cs
  let cs = bit_and word 3
  put32 spi0_cs (bit_or (bit_or (bit_or cs spi_cs_clear_rx) spi_cs_clear_tx) spi_cs_ta)
  dev_barrier
  exchange nbytes rx_buf tx_buf filling 0 0
  poll_done
  put32 spi0_cs cs
  dev_barrier

unfoldable pub spi_set_chip_select : {S : Type 0} → ℕ → M S (Unit {0})
spi_set_chip_select chip_select = do
  dev_barrier
  cs ← get32 spi0_cs
  put32 spi0_cs (bit_or (bit_and cs (not32 3)) (bit_and chip_select 3))
  dev_barrier
