-- ===== src/Emmc/Issue/Write.antt =====
-- Writing data blocks to the card.
use mathlib.Core.Path.{subst}
use haskell_os.Base.{
  ℕ, zero, suc, ◌+◌, ◌*◌, ◌/◌, ◌%◌, ◌^◌, ◌≡◌, inl, inr, Bool-cases, refl, sym, ap, ◌∙◌, arith, Bool,
  true, ◌==◌, if◌then◌else◌, List, [], ◌∷◌, ◌++◌, length, All, bit_and, bit_or,
}
use haskell_os.Base.Io.{Trace, Outcome, done, rd, wr, barrier, irq_on, irq_off, after}
use haskell_os.Hal.Heap.{Memory}
use haskell_os.Libc.Alloc.{load32}
use haskell_os.Emmc.Command.{EmmcCmd}
use haskell_os.Emmc.Device.{EmmcDevice, data_reg, int_flags, has}
use haskell_os.Emmc.Issue.{write_words, move_words, move_blocks, do_data_transfer}
use haskell_os.Emmc.Issue.Read.{wait_reg_mask-hit}

-- The words of the memory from `p` on.
abbrev pub words_at : Memory → ℕ → ℕ → List ℕ
words_at m p zero = []
words_at m p (suc n) = load32 m p ∷ words_at m (p + 4) n

-- What a run stores into the data register, in order.
abbrev pub sent_words : Trace → List ℕ
sent_words [] = []
sent_words (rd a v ∷ t) = sent_words t
sent_words (wr a v ∷ t) = if a == data_reg then v ∷ sent_words t else sent_words t
sent_words (barrier ∷ t) = sent_words t
sent_words (irq_on ∷ t) = sent_words t
sent_words (irq_off ∷ t) = sent_words t

-- What the controller answers for one block: the flag word that ends the wait, and the flags that are
-- then read.
pub record Turn : Type 0 where
  pub flags : ℕ
  pub intr_val : ℕ

pub record IsClear (b : Turn) : Type 0 where
  pub ends_wait : has b.flags (bit_or (2 ^ 4) 0x8000) ≡ true
  pub no_error : (bit_and b.intr_val (bit_or 0xffff_0000 (2 ^ 4)) == 2 ^ 4) ≡ true

abbrev pub turn_answers : List Turn → List ℕ → List ℕ
turn_answers [] rest = rest
turn_answers (b ∷ bs) rest = b.flags ∷ b.intr_val ∷ turn_answers bs rest

abbrev stores : List ℕ → Trace
stores [] = []
stores (w ∷ ws) = wr data_reg w ∷ stores ws

sent_words-stores : (ws : List ℕ) → sent_words (stores ws) ≡ ws
sent_words-stores [] = refl
sent_words-stores (w ∷ ws) = ap (λ (vs : List ℕ). w ∷ vs) (sent_words-stores ws)

sent_words-append : (t u : Trace) → sent_words (t ++ u) ≡ sent_words t ++ sent_words u
sent_words-append [] u = refl
sent_words-append (rd a v ∷ t) u = sent_words-append t u
sent_words-append (wr a v ∷ t) u = elim (Bool-cases (a == data_reg)) [
  | inl e ↦ rw e (ap (λ (vs : List ℕ). v ∷ vs) (sent_words-append t u))
  | inr e ↦ rw e (sent_words-append t u)
]
sent_words-append (barrier ∷ t) u = sent_words-append t u
sent_words-append (irq_on ∷ t) u = sent_words-append t u
sent_words-append (irq_off ∷ t) u = sent_words-append t u

words_at-append :
    (k n : ℕ) (m : Memory) (p q : ℕ)
    → q ≡ p + k * 4
    → words_at m p k ++ words_at m q n ≡ words_at m p (k + n)
words_at-append zero n m p q e =
    ap (λ (x : ℕ). words_at m x n) (omega arith)
    ∙ ap (words_at m p) {x = n} {y = 0 + n} (omega arith)
words_at-append (suc k) n m p q e =
    ap (λ (ws : List ℕ). load32 m p ∷ ws) (words_at-append k n m (p + 4) q (omega arith))
    ∙ ap (words_at m p) {x = suc (k + n)} {y = suc k + n} (omega arith)

write_words-stores :
    (n : ℕ) (p : ℕ) (d : EmmcDevice) (rest : List ℕ)
    → write_words n p d rest ≡ done tt d rest (stores (words_at d.memory p n))
unfolding write_words
write_words-stores zero p d rest = refl
write_words-stores (suc n) p d rest =
    ap (after [])
      (ap (after (wr data_reg (load32 d.memory p) ∷ [])) (write_words-stores n (p + 4) d rest))

-- The run returns true, has stored these words and leaves the device as it was.
data Sends (d : EmmcDevice) (rest ws : List ℕ) : Outcome EmmcDevice Bool → Type 0 where
  sends : {t : Trace} → sent_words t ≡ ws → Sends d rest ws (done true d rest t)

after-Sends :
    (t : Trace) {d : EmmcDevice} {rest ws : List ℕ} {o : Outcome EmmcDevice Bool}
    → Sends d rest ws o
    → Sends d rest (sent_words t ++ ws) (after t o)
after-Sends t (sends {t = u} e) =
    sends (sent_words-append t u ∙ ap (λ (vs : List ℕ). sent_words t ++ vs) e)

block_words :
    (n : ℕ) (d : EmmcDevice) (p : ℕ)
    → d.block_size % 4 ≡ 0
    → sent_words (stores (words_at d.memory p (d.block_size / 4)))
        ++ words_at d.memory (p + d.block_size) (n * (d.block_size / 4))
      ≡ words_at d.memory p (suc n * (d.block_size / 4))
block_words n d p whole =
    let k = d.block_size / 4 in
    ap (λ (vs : List ℕ). vs ++ words_at d.memory (p + d.block_size) (n * k))
      (sent_words-stores (words_at d.memory p k))
    ∙ words_at-append k (n * k) d.memory p (p + d.block_size) (omega arith)
    ∙ ap (words_at d.memory p) {x = k + n * k} {y = suc n * k} (omega arith)

move_blocks-Sends :
    (bs : List Turn) (rest : List ℕ) (p : ℕ) (d : EmmcDevice)
    → d.block_size % 4 ≡ 0
    → All IsClear bs
    → Sends d rest
        (words_at d.memory p (length bs * (d.block_size / 4)))
        (move_blocks (length bs) true (2 ^ 4) p d (turn_answers bs rest))
unfolding move_blocks move_words
move_blocks-Sends [] rest p d whole h =
    sends (ap (words_at d.memory p) {x = 0} {y = 0 * (d.block_size / 4)} (omega arith))
move_blocks-Sends (b ∷ bs) rest p d whole h =
    rw
      (
        wait_reg_mask-hit 2000 int_flags (bit_or (2 ^ 4) 0x8000) b.flags d
            (b.intr_val ∷ turn_answers bs rest) h.0.ends_wait,
        h.0.no_error,
        whole,
        write_words-stores (d.block_size / 4) p d (turn_answers bs rest),
      )
      (after-Sends (rd int_flags b.flags ∷ []) (
        after-Sends (rd int_flags b.intr_val ∷ []) (
          after-Sends (wr int_flags (bit_or (2 ^ 4) 0x8000) ∷ []) (
            after-Sends [] (
              subst
                (λ (ws : List ℕ). Sends d rest ws (
                  after (stores (words_at d.memory p (d.block_size / 4))) (
                    move_blocks (length bs) true (2 ^ 4) (p + d.block_size) d
                      (turn_answers bs rest))))
                (block_words (length bs) d p whole)
                (after-Sends (stores (words_at d.memory p (d.block_size / 4)))
                  (move_blocks-Sends bs rest (p + d.block_size) d whole h.1)))))))

Sends-done :
    {d : EmmcDevice} {rest ws : List ℕ} {o : Outcome EmmcDevice Bool}
    → Sends d rest ws o
    → (t : Trace) × (o ≡ done true d rest t) × (sent_words t ≡ ws)
Sends-done (sends {t = t} e) = (t, refl, e)

-- A transfer to the card, with the controller ready for each block and reporting no error, of blocks
-- of whole words: it returns true, has stored the words of the buffer into the data register, in order
-- and as many as the blocks hold, and nothing of the device has changed.
pub do_data_transfer-sent_words :
    (cmd : EmmcCmd) (bs : List Turn) (rest : List ℕ) (d : EmmcDevice)
    → cmd.direction ≡ 0
    → d.transfer_blocks ≡ length bs
    → d.block_size % 4 ≡ 0
    → All IsClear bs
    → (t : Trace) × (do_data_transfer cmd d (turn_answers bs rest) ≡ done true d rest t)
      × (sent_words t ≡ words_at d.memory d.buffer (d.transfer_blocks * (d.block_size / 4)))
unfolding do_data_transfer
do_data_transfer-sent_words cmd bs rest d to_card count whole clear = rw to_card (
    Sends-done (
      after-Sends [] (
        after-Sends [] (
          subst
            (λ (n : ℕ).
              Sends d rest (words_at d.memory d.buffer (n * (d.block_size / 4)))
                (move_blocks n true (2 ^ 4) d.buffer d (turn_answers bs rest)))
            (sym count) (move_blocks-Sends bs rest d.buffer d whole clear)))))
