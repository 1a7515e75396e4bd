-- ===== src/Emmc/Issue/Read.antt =====
-- Reading data blocks from the card.
use mathlib.Core.Path.{subst}
use haskell_os.Base.{
  ℕ, zero, suc, ◌+◌, ◌*◌, ◌/◌, ◌%◌, ◌^◌, ◌<◌, ◌≡◌, refl, sym, ap, arith, Bool, true, false, ◌==◌,
  List, [], ◌∷◌, ◌++◌, length, All, bit_and, bit_or,
}
use haskell_os.Base.Io.{Trace, Outcome, done, rd, wr, after}
use haskell_os.Hal.Heap.{Memory, store32}
use haskell_os.Emmc.Command.{EmmcCmd}
use haskell_os.Emmc.Device.{EmmcDevice, data_reg, int_flags, has, wait_loop, wait_reg_mask}
use haskell_os.Emmc.Issue.{read_words, move_words, move_blocks, do_data_transfer}

-- The words go to memory one behind the other, from `p` on.
abbrev pub stored32 : Memory → ℕ → List ℕ → Memory
stored32 m p [] = m
stored32 m p (w ∷ ws) = stored32 (store32 m p w) (p + 4) ws

stored32-append :
    (ws vs : List ℕ) (m : Memory) (p q : ℕ)
    → q ≡ p + length ws * 4
    → stored32 m p (ws ++ vs) ≡ stored32 (stored32 m p ws) q vs
stored32-append [] vs m p q e = ap (λ (x : ℕ). stored32 m x vs) (omega arith)
stored32-append (w ∷ ws) vs m p q e = stored32-append ws vs (store32 m p w) (p + 4) q (omega arith)

abbrev pub loads : List ℕ → Trace
loads [] = []
loads (w ∷ ws) = rd data_reg w ∷ loads ws

abbrev pub with_memory : EmmcDevice → Memory → EmmcDevice
with_memory d m = record d { memory = m }

read_words-stored32 :
    (ws rest : List ℕ) (p : ℕ) (d : EmmcDevice)
    → read_words (length ws) p d (ws ++ rest)
      ≡ done tt (with_memory d (stored32 d.memory p ws)) rest (loads ws)
unfolding read_words
read_words-stored32 [] rest p d = refl
read_words-stored32 (w ∷ ws) rest p d =
    ap (after (rd data_reg w ∷ []))
      (ap (after []) (read_words-stored32 ws rest (p + 4) (with_memory d (store32 d.memory p w))))

-- What the controller answers for one block: a flag word that ends the wait, the flags that are then
-- read, and the block's words.
pub record Block : Type 0 where
  pub flags : ℕ
  pub intr_val : ℕ
  pub words : List ℕ

-- The flags show a block that is ready, and no error, and the block has the device's size.
pub record IsReady (size : ℕ) (b : Block) : Type 0 where
  pub ends_wait : has b.flags (bit_or (2 ^ 5) 0x8000) ≡ true
  pub no_error : (bit_and b.intr_val (bit_or 0xffff_0000 (2 ^ 5)) == 2 ^ 5) ≡ true
  pub full : length b.words * 4 ≡ size

abbrev pub answers : List Block → List ℕ → List ℕ
answers [] rest = rest
answers (b ∷ bs) rest = b.flags ∷ b.intr_val ∷ b.words ++ answers bs rest

abbrev pub all_words : List Block → List ℕ
all_words [] = []
all_words (b ∷ bs) = b.words ++ all_words bs

-- The run returns true and leaves these answers and this state.
data Moves (d : EmmcDevice) (rest : List ℕ) : Outcome EmmcDevice Bool → Type 0 where
  moves : {t : Trace} → Moves d rest (done true d rest t)

after-Moves :
    (t : Trace) {d : EmmcDevice} {rest : List ℕ} {o : Outcome EmmcDevice Bool}
    → Moves d rest o
    → Moves d rest (after t o)
after-Moves t moves = moves

move_words-stored32 :
    (ws rest : List ℕ) (size p : ℕ) (d : EmmcDevice)
    → length ws * 4 ≡ size
    → move_words false size p d (ws ++ rest)
      ≡ done tt (with_memory d (stored32 d.memory p ws)) rest (loads ws)
unfolding move_words
move_words-stored32 ws rest size p d e =
    let whole : size % 4 ≡ 0 = omega arith in
    let count : size / 4 ≡ length ws = omega arith in
    rw (whole, count) (read_words-stored32 ws rest p d)

wait_loop-hit :
    {S : Type 0} (n reg mask v : ℕ) (s : S) (rest : List ℕ)
    → 0 < n
    → has v mask ≡ true
    → wait_loop n reg mask true s (v ∷ rest) ≡ done true s rest (rd reg v ∷ [])
unfolding wait_loop
wait_loop-hit zero reg mask v s rest h e = absurd (omega arith)
wait_loop-hit (suc n) reg mask v s rest h e = rw e refl

pub wait_reg_mask-hit :
    {S : Type 0} (timeout reg mask v : ℕ) (s : S) (rest : List ℕ)
    → has v mask ≡ true
    → wait_reg_mask reg mask true timeout s (v ∷ rest) ≡ done true s rest (rd reg v ∷ [])
unfolding wait_reg_mask
wait_reg_mask-hit timeout reg mask v s rest =
    wait_loop-hit (timeout * 10 + 1) reg mask v s rest (omega arith)

move_blocks-Moves :
    (bs : List Block) (rest : List ℕ) (p : ℕ) (d : EmmcDevice)
    → All (IsReady d.block_size) bs
    → Moves
        (with_memory d (stored32 d.memory p (all_words bs)))
        rest
        (move_blocks (length bs) false (2 ^ 5) p d (answers bs rest))
unfolding move_blocks
move_blocks-Moves [] rest p d h = moves
move_blocks-Moves (b ∷ bs) rest p d h =
    rw
      (
        wait_reg_mask-hit 2000 int_flags (bit_or (2 ^ 5) 0x8000) b.flags d
            (b.intr_val ∷ b.words ++ answers bs rest) h.0.ends_wait,
        h.0.no_error,
        move_words-stored32 b.words (answers bs rest) d.block_size p d h.0.full,
      )
      (after-Moves (rd int_flags b.flags ∷ []) (
        after-Moves (rd int_flags b.intr_val ∷ []) (
          after-Moves (wr int_flags (bit_or (2 ^ 5) 0x8000) ∷ []) (
            after-Moves [] (
              after-Moves (loads b.words) (
                subst
                  (λ (m : Memory). Moves (with_memory d m) rest (
                    move_blocks (length bs) false (2 ^ 5) (p + d.block_size)
                      (with_memory d (stored32 d.memory p b.words)) (answers bs rest)))
                  (sym (
                    stored32-append b.words (all_words bs) d.memory p (p + d.block_size)
                      (omega (arith, h.0.full))))
                  (move_blocks-Moves bs rest (p + d.block_size)
                    (with_memory d (stored32 d.memory p b.words)) h.1)))))))

Moves-done :
    {d : EmmcDevice} {rest : List ℕ} {o : Outcome EmmcDevice Bool}
    → Moves d rest o
    → (t : Trace) × (o ≡ done true d rest t)
Moves-done (moves {t = t}) = (t, refl)

-- A transfer from the card, with the controller ready for each block and reporting no error: it
-- returns true, the blocks' words stand in memory from the buffer on, one behind the other, and nothing
-- else of the device has changed.
pub do_data_transfer-stored32 :
    (cmd : EmmcCmd) (bs : List Block) (rest : List ℕ) (d : EmmcDevice)
    → cmd.direction ≡ 1
    → d.transfer_blocks ≡ length bs
    → All (IsReady d.block_size) bs
    → (t : Trace) × (do_data_transfer cmd d (answers bs rest)
        ≡ done true (with_memory d (stored32 d.memory d.buffer (all_words bs))) rest t)
unfolding do_data_transfer
do_data_transfer-stored32 cmd bs rest d from_card count ready = rw from_card (
    Moves-done (
      after-Moves [] (
        after-Moves [] (
          subst
            (λ (n : ℕ).
              Moves (with_memory d (stored32 d.memory d.buffer (all_words bs))) rest
                (move_blocks n false (2 ^ 5) d.buffer d (answers bs rest)))
            (sym count) (move_blocks-Moves bs rest d.buffer d ready)))))
