-- ===== src/Emmc/Command/Table.antt =====
-- The table's rows stand at their own index, and a command's word keeps its fields apart.
use haskell_os.Base.{
  ℕ, ◌/◌, ◌%◌, ◌^◌, ◌<◌, ◌≡◌, refl, arith, Bool, true, false, ◌==◌, ◌||◌, get_or, length,
}
use haskell_os.Emmc.Command.{
  EmmcCmd, to_reg, res_cmd, commands, CmdType, go_idle, send_cide, send_relative_addr,
  io_set_op_cond, select_card, send_if_cond, set_block_len, read_block, read_multiple, write_block,
  write_multiple, ocr_check, send_scr, app, number,
}

-- The entry for a command number; the table has 56.
abbrev pub entry : ℕ → EmmcCmd
entry i = get_or commands i res_cmd

-- Whether `emmc_command` takes the entry for no command.
abbrev pub is_invalid : EmmcCmd → Bool
is_invalid c = to_reg c == to_reg res_cmd

-- Whether data follow the command, and whether they come from the card.
abbrev pub moves_data : CmdType → Bool
moves_data read_block = true
moves_data read_multiple = true
moves_data write_block = true
moves_data write_multiple = true
moves_data send_scr = true
moves_data go_idle = false
moves_data send_cide = false
moves_data send_relative_addr = false
moves_data io_set_op_cond = false
moves_data select_card = false
moves_data send_if_cond = false
moves_data set_block_len = false
moves_data ocr_check = false
moves_data app = false

abbrev pub reads_data : CmdType → Bool
reads_data t = (number t == 17) || (number t == 18) || (number t == 51)

-- What the driver relies on for one of its commands.
pub record IsCommand (t : CmdType) : Type 0 where
  pub inside : number t < length commands
  pub valid : is_invalid (entry (number t)) ≡ false
  pub indexed : (entry (number t)).index ≡ number t
  pub data_moves : ((entry (number t)).is_data == 1) ≡ moves_data t
  pub data_comes : moves_data t ≡ true → ((entry (number t)).direction == 1) ≡ reads_data t

-- Every command that the driver names has a valid row of the table, at its own number and with that
-- number as its index; the row says that data moves exactly for the four block commands and for the
-- SCR, and that it moves from the card exactly for those that read.
pub commands-IsCommand : (t : CmdType) → IsCommand t
unfolding commands to_reg
commands-IsCommand go_idle = record {
  inside = omega arith;
  valid = refl;
  indexed = refl;
  data_moves = refl;
  data_comes = λ h. ground arith;
}
commands-IsCommand send_cide = record {
  inside = omega arith;
  valid = refl;
  indexed = refl;
  data_moves = refl;
  data_comes = λ h. ground arith;
}
commands-IsCommand send_relative_addr = record {
  inside = omega arith;
  valid = refl;
  indexed = refl;
  data_moves = refl;
  data_comes = λ h. ground arith;
}
commands-IsCommand io_set_op_cond = record {
  inside = omega arith;
  valid = refl;
  indexed = refl;
  data_moves = refl;
  data_comes = λ h. ground arith;
}
commands-IsCommand select_card = record {
  inside = omega arith;
  valid = refl;
  indexed = refl;
  data_moves = refl;
  data_comes = λ h. ground arith;
}
commands-IsCommand send_if_cond = record {
  inside = omega arith;
  valid = refl;
  indexed = refl;
  data_moves = refl;
  data_comes = λ h. ground arith;
}
commands-IsCommand set_block_len = record {
  inside = omega arith;
  valid = refl;
  indexed = refl;
  data_moves = refl;
  data_comes = λ h. ground arith;
}
commands-IsCommand read_block = record {
  inside = omega arith;
  valid = refl;
  indexed = refl;
  data_moves = refl;
  data_comes = λ h. ground arith;
}
commands-IsCommand read_multiple = record {
  inside = omega arith;
  valid = refl;
  indexed = refl;
  data_moves = refl;
  data_comes = λ h. ground arith;
}
commands-IsCommand write_block = record {
  inside = omega arith;
  valid = refl;
  indexed = refl;
  data_moves = refl;
  data_comes = λ h. ground arith;
}
commands-IsCommand write_multiple = record {
  inside = omega arith;
  valid = refl;
  indexed = refl;
  data_moves = refl;
  data_comes = λ h. ground arith;
}
commands-IsCommand ocr_check = record {
  inside = omega arith;
  valid = refl;
  indexed = refl;
  data_moves = refl;
  data_comes = λ h. ground arith;
}
commands-IsCommand send_scr = record {
  inside = omega arith;
  valid = refl;
  indexed = refl;
  data_moves = refl;
  data_comes = λ h. ground arith;
}
commands-IsCommand app = record {
  inside = omega arith;
  valid = refl;
  indexed = refl;
  data_moves = refl;
  data_comes = λ h. ground arith;
}

-- Each field is below the power of two of its width.
pub record IsPacked (c : EmmcCmd) : Type 0 where
  pub resp_a_fits : c.resp_a < 2
  pub block_count_fits : c.block_count < 2
  pub auto_command_fits : c.auto_command < 4
  pub direction_fits : c.direction < 2
  pub multiblock_fits : c.multiblock < 2
  pub resp_b_fits : c.resp_b < 2 ^ 10
  pub response_type_fits : c.response_type < 4
  pub res0_fits : c.res0 < 2
  pub crc_enable_fits : c.crc_enable < 2
  pub idx_enable_fits : c.idx_enable < 2
  pub is_data_fits : c.is_data < 2
  pub type_fits : c.type < 4
  pub index_fits : c.index < 2 ^ 6
  pub res1_fits : c.res1 < 4

-- The fields of a word at the controller's places.
abbrev pub from_reg : ℕ → EmmcCmd
from_reg w = record {
  resp_a = w % 2;
  block_count = w / 2 ^ 1 % 2;
  auto_command = w / 2 ^ 2 % 4;
  direction = w / 2 ^ 4 % 2;
  multiblock = w / 2 ^ 5 % 2;
  resp_b = w / 2 ^ 6 % 2 ^ 10;
  response_type = w / 2 ^ 16 % 4;
  res0 = w / 2 ^ 18 % 2;
  crc_enable = w / 2 ^ 19 % 2;
  idx_enable = w / 2 ^ 20 % 2;
  is_data = w / 2 ^ 21 % 2;
  type = w / 2 ^ 22 % 4;
  index = w / 2 ^ 24 % 2 ^ 6;
  res1 = w / 2 ^ 30 % 4;
}

-- `TO_REG` keeps the fields of a command apart: each is at its place in the word.
pub from_reg-to_reg : (c : EmmcCmd) → IsPacked c → from_reg (to_reg c) ≡ c
unfolding to_reg
from_reg-to_reg c p = λ i. record {
  resp_a = place_resp_a i;
  block_count = place_block_count i;
  auto_command = place_auto_command i;
  direction = place_direction i;
  multiblock = place_multiblock i;
  resp_b = place_resp_b i;
  response_type = place_response_type i;
  res0 = place_res0 i;
  crc_enable = place_crc_enable i;
  idx_enable = place_idx_enable i;
  is_data = place_is_data i;
  type = place_type i;
  index = place_index i;
  res1 = place_res1 i;
}
  where
    place_resp_a : to_reg c % 2 ≡ c.resp_a
    place_resp_a = omega arith

    place_block_count : to_reg c / 2 ^ 1 % 2 ≡ c.block_count
    place_block_count = omega arith

    place_auto_command : to_reg c / 2 ^ 2 % 4 ≡ c.auto_command
    place_auto_command = omega arith

    place_direction : to_reg c / 2 ^ 4 % 2 ≡ c.direction
    place_direction = omega arith

    place_multiblock : to_reg c / 2 ^ 5 % 2 ≡ c.multiblock
    place_multiblock = omega arith

    place_resp_b : to_reg c / 2 ^ 6 % 2 ^ 10 ≡ c.resp_b
    place_resp_b = omega arith

    place_response_type : to_reg c / 2 ^ 16 % 4 ≡ c.response_type
    place_response_type = omega arith

    place_res0 : to_reg c / 2 ^ 18 % 2 ≡ c.res0
    place_res0 = omega arith

    place_crc_enable : to_reg c / 2 ^ 19 % 2 ≡ c.crc_enable
    place_crc_enable = omega arith

    place_idx_enable : to_reg c / 2 ^ 20 % 2 ≡ c.idx_enable
    place_idx_enable = omega arith

    place_is_data : to_reg c / 2 ^ 21 % 2 ≡ c.is_data
    place_is_data = omega arith

    place_type : to_reg c / 2 ^ 22 % 4 ≡ c.type
    place_type = omega arith

    place_index : to_reg c / 2 ^ 24 % 2 ^ 6 ≡ c.index
    place_index = omega arith

    place_res1 : to_reg c / 2 ^ 30 % 4 ≡ c.res1
    place_res1 = omega arith
