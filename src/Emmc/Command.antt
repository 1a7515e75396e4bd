-- ===== src/Emmc/Command.antt =====
-- The commands of c/emmc.c and c/emmc.h: the bit-fields of one, its word, and the table.
pub mod Table
use haskell_os.Base.{ℕ, ◌+◌, ◌*◌, ◌^◌, List, [], ◌∷◌, ◌++◌, replicate, Option, none, some}

-- `emmc_cmd`; each field is a number below the power of two of its width.
pub record EmmcCmd : Type 0 where
  pub resp_a : ℕ
  pub block_count : ℕ
  pub auto_command : ℕ
  pub direction : ℕ
  pub multiblock : ℕ
  pub resp_b : ℕ
  pub response_type : ℕ
  pub res0 : ℕ
  pub crc_enable : ℕ
  pub idx_enable : ℕ
  pub is_data : ℕ
  pub type : ℕ
  pub index : ℕ
  pub res1 : ℕ

-- `TO_REG`: the bit-fields from the lowest bit up.
unfoldable pub to_reg : EmmcCmd → ℕ
to_reg c =
    c.resp_a
    + c.block_count * 2 ^ 1
    + c.auto_command * 2 ^ 2
    + c.direction * 2 ^ 4
    + c.multiblock * 2 ^ 5
    + c.resp_b * 2 ^ 6
    + c.response_type * 2 ^ 16
    + c.res0 * 2 ^ 18
    + c.crc_enable * 2 ^ 19
    + c.idx_enable * 2 ^ 20
    + c.is_data * 2 ^ 21
    + c.type * 2 ^ 22
    + c.index * 2 ^ 24
    + c.res1 * 2 ^ 30

abbrev pub rt_none : ℕ
rt_none = 0

abbrev pub rt136 : ℕ
rt136 = 1

abbrev pub rt48 : ℕ
rt48 = 2

abbrev pub rt48_busy : ℕ
rt48_busy = 3

abbrev pub res_cmd : EmmcCmd
res_cmd = record {
  resp_a = 1;
  block_count = 1;
  auto_command = 3;
  direction = 1;
  multiblock = 1;
  resp_b = 0xf;
  response_type = 3;
  res0 = 1;
  crc_enable = 1;
  idx_enable = 1;
  is_data = 1;
  type = 3;
  index = 0xf;
  res1 = 3;
}

-- The rows of the table differ in these fields only.
abbrev pub row : ℕ → ℕ → ℕ → ℕ → ℕ → ℕ → ℕ → ℕ → EmmcCmd
row block_count auto_command direction multiblock response_type crc_enable is_data index = record {
  resp_a = 0;
  block_count = block_count;
  auto_command = auto_command;
  direction = direction;
  multiblock = multiblock;
  resp_b = 0;
  response_type = response_type;
  res0 = 0;
  crc_enable = crc_enable;
  idx_enable = 0;
  is_data = is_data;
  type = 0;
  index = index;
  res1 = 0;
}

abbrev pub reserved : ℕ → List EmmcCmd
reserved n = replicate n res_cmd

unfoldable pub commands : List EmmcCmd
commands =
    row 0 0 0 0 0 0 0 0
      ∷ res_cmd
      ∷ row 0 0 0 0 rt136 1 0 2
      ∷ row 0 0 0 0 rt48 1 0 3
      ∷ row 0 0 0 0 0 0 0 4
      ∷ row 0 0 0 0 rt136 0 0 5
      ∷ row 0 0 0 0 rt48 1 0 6
      ∷ row 0 0 0 0 rt48_busy 1 0 7
      ∷ row 0 0 0 0 rt48 1 0 8
      ∷ row 0 0 0 0 rt136 1 0 9
      ∷ reserved 6
    ++ (row 0 0 0 0 rt48 1 0 16 ∷ row 0 0 1 0 rt48 1 1 17 ∷ row 1 1 1 1 rt48 1 1 18 ∷ reserved 5
        ++ (row 0 0 0 0 rt48 1 1 24 ∷ row 1 1 0 1 rt48 1 1 25 ∷ reserved 15
            ++ (row 0 0 0 0 rt48 0 0 41 ∷ reserved 9
                ++ (row 0 0 1 0 rt48 1 1 51 ∷ reserved 3 ++ (row 0 0 0 0 rt48 1 0 55 ∷ [])))))

-- `cmd_type`.
pub data CmdType : Type 0 where
  go_idle send_cide send_relative_addr io_set_op_cond select_card send_if_cond set_block_len :
      CmdType
  read_block read_multiple write_block write_multiple ocr_check send_scr app : CmdType

abbrev pub number : CmdType → ℕ
number go_idle = 0
number send_cide = 2
number send_relative_addr = 3
number io_set_op_cond = 5
number select_card = 7
number send_if_cond = 8
number set_block_len = 16
number read_block = 17
number read_multiple = 18
number write_block = 24
number write_multiple = 25
number ocr_check = 41
number send_scr = 51
number app = 55
