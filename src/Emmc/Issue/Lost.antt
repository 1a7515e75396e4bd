-- ===== src/Emmc/Issue/Lost.antt =====
-- What becomes of a failed block transfer.
use haskell_os.Base.{
  ℕ, suc, ◌^◌, ◌≡◌, refl, ◌∙◌, ap, Bool, true, false, ◌==◌, List, [], ◌∷◌, bit_and, bit_or,
}
use haskell_os.Base.Io.{Trace, Outcome, done, rd, wr, after}
use haskell_os.Emmc.Command.{EmmcCmd, rt48}
use haskell_os.Emmc.Device.{EmmcDevice, int_flags, has}
use haskell_os.Emmc.Issue.{
  set_last_error, succeed, move_blocks, do_data_transfer, take_response, finish_transfer,
  complete_command,
}
use haskell_os.Emmc.Issue.Read.{wait_reg_mask-hit}

-- The answers of a read whose first block fails: the command's interrupt, the response, the flags that
-- end the wait for the block, the flags that show its failure, the flags that end the second wait, and
-- the flags at the end.
pub record Failure : Type 0 where
  pub command_flags : ℕ
  pub response_word : ℕ
  pub block_wait : ℕ
  pub block_flags : ℕ
  pub end_wait : ℕ
  pub end_flags : ℕ

pub record IsFailure (f : Failure) : Type 0 where
  pub accepted : (bit_and f.command_flags 0xffff_0001 == 1) ≡ true
  pub waited : has f.block_wait (bit_or (2 ^ 5) 0x8000) ≡ true
  pub failed : (bit_and f.block_flags (bit_or 0xffff_0000 (2 ^ 5)) == 2 ^ 5) ≡ false
  pub waited_end : has f.end_wait 0x8002 ≡ true
  pub ended : (bit_and f.end_flags 0xffff_0002 == 2) ≡ true

abbrev pub failure_answers : Failure → List ℕ → List ℕ
failure_answers f rest =
    f.command_flags ∷ f.response_word ∷ f.block_wait ∷ f.block_flags ∷ f.end_wait ∷ f.end_flags
    ∷ rest

finish_transfer-true :
    (wait_flags end_flags : ℕ) (rest : List ℕ) (d : EmmcDevice)
    → has wait_flags 0x8002 ≡ true
    → (bit_and end_flags 0xffff_0002 == 2) ≡ true
    → finish_transfer d (wait_flags ∷ end_flags ∷ rest)
      ≡ done true
          (record d { last_success = true })
          rest
          (rd int_flags wait_flags
            ∷ rd int_flags end_flags
            ∷ wr int_flags 0xffff_0002
            ∷ wr int_flags 0xffff_0002
            ∷ [])
unfolding finish_transfer succeed
finish_transfer-true w e rest d hw he =
    rw (wait_reg_mask-hit 2000 int_flags 0x8002 w d (e ∷ rest) hw, he) refl

move_blocks-false :
    (wait_flags flags n p : ℕ) (rest : List ℕ) (d : EmmcDevice)
    → has wait_flags (bit_or (2 ^ 5) 0x8000) ≡ true
    → (bit_and flags (bit_or 0xffff_0000 (2 ^ 5)) == 2 ^ 5) ≡ false
    → move_blocks (suc n) false (2 ^ 5) p d (wait_flags ∷ flags ∷ rest)
      ≡ done false
          (record d { last_error = bit_and flags 0xffff_0000; last_interrupt = flags })
          rest
          (rd int_flags wait_flags ∷ rd int_flags flags ∷ wr int_flags (bit_or (2 ^ 5) 0x8000) ∷ [])
unfolding move_blocks set_last_error
move_blocks-false w f n p rest d hw hf =
    rw (wait_reg_mask-hit 2000 int_flags (bit_or (2 ^ 5) 0x8000) w d (f ∷ rest) hw, hf) refl

do_data_transfer-false :
    (cmd : EmmcCmd) (wait_flags flags n : ℕ) (rest : List ℕ) (d : EmmcDevice)
    → cmd.direction ≡ 1
    → d.transfer_blocks ≡ suc n
    → has wait_flags (bit_or (2 ^ 5) 0x8000) ≡ true
    → (bit_and flags (bit_or 0xffff_0000 (2 ^ 5)) == 2 ^ 5) ≡ false
    → do_data_transfer cmd d (wait_flags ∷ flags ∷ rest)
      ≡ done false
          (record d { last_error = bit_and flags 0xffff_0000; last_interrupt = flags })
          rest
          (rd int_flags wait_flags ∷ rd int_flags flags ∷ wr int_flags (bit_or (2 ^ 5) 0x8000) ∷ [])
unfolding do_data_transfer
do_data_transfer-false cmd w f n rest d hd hn hw hf = rw hd (
    ap (λ (o : Outcome EmmcDevice Bool). after [] (after [] o))
      (ap (λ (b : ℕ). move_blocks b false (2 ^ 5) d.buffer d (w ∷ f ∷ rest)) hn
        ∙ move_blocks-false w f n d.buffer rest d hw hf))

-- A read whose first block fails is reported as a success: the result of `do_data_transfer` is not
-- used, so `emmc_issue_command` ends with true behind a command whose transfer ended with flags of
-- success, though no byte has come into the buffer.
pub complete_command-loses_block :
    (cmd : EmmcCmd) (f : Failure) (n : ℕ) (rest : List ℕ) (d : EmmcDevice)
    → IsFailure f
    → cmd.response_type ≡ rt48
    → cmd.is_data ≡ 1
    → cmd.direction ≡ 1
    → d.transfer_blocks ≡ suc n
    → (d' : EmmcDevice) × (t : Trace) × (complete_command cmd d (failure_answers f rest)
        ≡ done true d' rest t)
      × (d'.memory ≡ d.memory)
      × (d'.last_error ≡ bit_and f.block_flags 0xffff_0000)
      × (d'.last_success ≡ true)
unfolding complete_command take_response do_data_transfer
complete_command-loses_block cmd f n rest d h hr hi hd hn =
    rw
      (
        h.accepted,
        hr,
        hi,
        do_data_transfer-false cmd f.block_wait f.block_flags n (f.end_wait ∷ f.end_flags ∷ rest)
            (record d { last_response = f.response_word }) hd hn h.waited h.failed,
        finish_transfer-true f.end_wait f.end_flags rest
            (record d {
              last_response = f.response_word;
              last_error = bit_and f.block_flags 0xffff_0000;
              last_interrupt = f.block_flags;
            })
            h.waited_end h.ended,
      )
      (_, _, refl, refl, refl, refl)
