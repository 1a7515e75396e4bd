-- ===== src/Tests/Devices.antt =====
-- The SPI and SD card drivers on concrete answers.
use haskell_os.Base.{ℕ, ◌≤◌, ◌%◌, ◌≡◌, inr, refl, arith, true, false, [], ◌∷◌, ◌++◌, replicate}
use haskell_os.Base.Io.{Trace, done}
use haskell_os.Hal.Heap.{Memory}
use haskell_os.Spi.{spi_transfer}
use haskell_os.Spi.Transfer.{Transferred, spi_transfer-Transferred}
use haskell_os.Spi.Ready.{served, spi_transfer-returns}
use haskell_os.Emmc.Command.{EmmcCmd, row, rt48}
use haskell_os.Emmc.Command.Table.{IsPacked}
use haskell_os.Emmc.Clock.{get_clock_divider}
use haskell_os.Emmc.Clock.Rate.{card_clock, get_clock_divider-limit}
use haskell_os.Emmc.Device.{EmmcDevice}
use haskell_os.Emmc.Issue.{do_data_transfer, complete_command}
use haskell_os.Emmc.Issue.Read.{Block, answers, stored32, with_memory, do_data_transfer-stored32}
use haskell_os.Emmc.Issue.Write.{sent_words, do_data_transfer-sent_words}
use haskell_os.Emmc.Issue.Lost.{Failure, IsFailure, failure_answers, complete_command-loses_block}

-- The status shows room for a byte, a byte, and the end of the transfer.
abbrev all_flags : ℕ
all_flags = 0x7_0000

spi_transfer-Transferred_example :
    Transferred 2 300 200 0x81
      (λ q. q)
      (spi_transfer 300 200 2
        (λ q. q)
        (0x81 ∷ replicate 2 all_flags ++ served all_flags (7 ∷ 0x108 ∷ []) (all_flags ∷ [])))
spi_transfer-Transferred_example =
    spi_transfer-Transferred 2 300 200 0x81 (λ q. q)
      (replicate 2 all_flags ++ served all_flags (7 ∷ 0x108 ∷ []) (all_flags ∷ []))
      (inr (omega arith))

spi_transfer-returns_example :
    (m' : Memory) × (t : Trace) × (spi_transfer 300 200 2
        (λ q. q)
        (0x81 ∷ replicate 2 all_flags ++ served all_flags (7 ∷ 0x108 ∷ []) (all_flags ∷ []))
      ≡ done tt m' [] t)
spi_transfer-returns_example =
    spi_transfer-returns (7 ∷ 0x108 ∷ []) 300 200 all_flags 0x81 (λ q. q) [] refl refl refl

get_clock_divider-limit_example :
    card_clock 250_000_000 (get_clock_divider 250_000_000) ≤ 50_000_000
get_clock_divider-limit_example = get_clock_divider-limit 250_000_000 (omega arith)

abbrev read_cmd : EmmcCmd
read_cmd = row 0 0 1 0 rt48 1 1 17

read_cmd-IsPacked : IsPacked read_cmd
read_cmd-IsPacked = record {
  resp_a_fits = omega arith;
  block_count_fits = omega arith;
  auto_command_fits = omega arith;
  direction_fits = omega arith;
  multiblock_fits = omega arith;
  resp_b_fits = omega arith;
  response_type_fits = omega arith;
  res0_fits = omega arith;
  crc_enable_fits = omega arith;
  idx_enable_fits = omega arith;
  is_data_fits = omega arith;
  type_fits = omega arith;
  index_fits = omega arith;
  res1_fits = omega arith;
}

-- Two blocks of 8 bytes.
abbrev device : EmmcDevice
device = record {
  last_success = false;
  transfer_blocks = 2;
  last_command = read_cmd;
  last_command_value = 0;
  block_size = 8;
  last_response = 0;
  last_response_1 = 0;
  last_response_2 = 0;
  last_response_3 = 0;
  sdhc = true;
  ocr = 0;
  rca = 0;
  buffer = 4096;
  base_clock = 0;
  last_error = 0;
  last_interrupt = 0;
  scr_at = 512;
  scr_version = 0;
  memory = λ q. 0;
}

abbrev first_block : Block
first_block = record { flags = 0x21; intr_val = 0x20; words = 1 ∷ 2 ∷ [] }

abbrev second_block : Block
second_block = record { flags = 0x20; intr_val = 0x21; words = 3 ∷ 4 ∷ [] }

do_data_transfer-stored32_example :
    (t : Trace) × (do_data_transfer read_cmd device (answers (first_block ∷ second_block ∷ []) [])
      ≡ done true (with_memory device (stored32 (λ q. 0) 4096 (1 ∷ 2 ∷ 3 ∷ 4 ∷ []))) [] t)
do_data_transfer-stored32_example =
    do_data_transfer-stored32 read_cmd (first_block ∷ second_block ∷ []) [] device refl refl (
      record { ends_wait = refl; no_error = refl; full = refl },
      (record { ends_wait = refl; no_error = refl; full = refl }, tt),
    )

abbrev write_cmd : EmmcCmd
write_cmd = record read_cmd { direction = 0 }

abbrev filled : EmmcDevice
filled = record device { memory = λ q. q % 256 }

-- Two blocks to the card.
do_data_transfer-sent_words_example :
    (t : Trace) × (do_data_transfer write_cmd filled (0x11 ∷ 0x10 ∷ 0x10 ∷ 0x11 ∷ [])
      ≡ done true filled [] t)
    × (sent_words t ≡ 0x0302_0100 ∷ 0x0706_0504 ∷ 0x0b0a_0908 ∷ 0x0f0e_0d0c ∷ [])
do_data_transfer-sent_words_example =
    do_data_transfer-sent_words write_cmd
      (record { flags = 0x11; intr_val = 0x10 } ∷ record { flags = 0x10; intr_val = 0x11 } ∷ []) []
      filled refl refl refl
      (
        record { ends_wait = refl; no_error = refl },
        (record { ends_wait = refl; no_error = refl }, tt),
      )

-- A CRC error in the block, and the end of the transfer behind it.
abbrev crc_failure : Failure
crc_failure = record {
  command_flags = 1;
  response_word = 0x900;
  block_wait = 0x20_8000;
  block_flags = 0x20_8000;
  end_wait = 2;
  end_flags = 2;
}

crc_failure-IsFailure : IsFailure crc_failure
crc_failure-IsFailure = record {
  accepted = refl;
  waited = refl;
  failed = refl;
  waited_end = refl;
  ended = refl;
}

complete_command-loses_block_example :
    (d' : EmmcDevice) × (t : Trace) × (complete_command read_cmd device
        (failure_answers crc_failure [])
      ≡ done true d' [] t)
    × (d'.memory ≡ device.memory)
    × (d'.last_error ≡ 0x20_0000)
    × (d'.last_success ≡ true)
complete_command-loses_block_example =
    complete_command-loses_block read_cmd crc_failure 1 [] device crc_failure-IsFailure refl refl
      refl refl
