-- ===== src/Emmc/Messages.antt =====
-- The messages of c/emmc.c.
use haskell_os.Base.{ℕ, List, [], ◌∷◌}

-- "EMMC_ERR: SD CLOCK NOT STABLE\r\n"
abbrev pub clock_text : List ℕ
clock_text =
    b'E' ∷ b'M' ∷ b'M' ∷ b'C' ∷ b'_' ∷ b'E' ∷ b'R' ∷ b'R' ∷ b':' ∷ b' ' ∷ b'S' ∷ b'D' ∷ b' ' ∷ b'C'
    ∷ b'L' ∷ b'O' ∷ b'C' ∷ b'K' ∷ b' ' ∷ b'N' ∷ b'O' ∷ b'T' ∷ b' ' ∷ b'S' ∷ b'T' ∷ b'A' ∷ b'B'
    ∷ b'L' ∷ b'E' ∷ b'\r' ∷ b'\n' ∷ []

-- "EMMC_ERR: transferBlocks too large\r\n"
abbrev pub blocks_text : List ℕ
blocks_text =
    b'E' ∷ b'M' ∷ b'M' ∷ b'C' ∷ b'_' ∷ b'E' ∷ b'R' ∷ b'R' ∷ b':' ∷ b' ' ∷ b't' ∷ b'r' ∷ b'a' ∷ b'n'
    ∷ b's' ∷ b'f' ∷ b'e' ∷ b'r' ∷ b'B' ∷ b'l' ∷ b'o' ∷ b'c' ∷ b'k' ∷ b's' ∷ b' ' ∷ b't' ∷ b'o'
    ∷ b'o' ∷ b' ' ∷ b'l' ∷ b'a' ∷ b'r' ∷ b'g' ∷ b'e' ∷ b'\r' ∷ b'\n' ∷ []

-- "EMMC_ERR: COMMAND ERROR NOT APP\r\n"
abbrev pub not_app_text : List ℕ
not_app_text =
    b'E' ∷ b'M' ∷ b'M' ∷ b'C' ∷ b'_' ∷ b'E' ∷ b'R' ∷ b'R' ∷ b':' ∷ b' ' ∷ b'C' ∷ b'O' ∷ b'M' ∷ b'M'
    ∷ b'A' ∷ b'N' ∷ b'D' ∷ b' ' ∷ b'E' ∷ b'R' ∷ b'R' ∷ b'O' ∷ b'R' ∷ b' ' ∷ b'N' ∷ b'O' ∷ b'T'
    ∷ b' ' ∷ b'A' ∷ b'P' ∷ b'P' ∷ b'\r' ∷ b'\n' ∷ []

-- "EMMC_ERR: INVALID COMMAND\r\n"
abbrev pub invalid_text : List ℕ
invalid_text =
    b'E' ∷ b'M' ∷ b'M' ∷ b'C' ∷ b'_' ∷ b'E' ∷ b'R' ∷ b'R' ∷ b':' ∷ b' ' ∷ b'I' ∷ b'N' ∷ b'V' ∷ b'A'
    ∷ b'L' ∷ b'I' ∷ b'D' ∷ b' ' ∷ b'C' ∷ b'O' ∷ b'M' ∷ b'M' ∷ b'A' ∷ b'N' ∷ b'D' ∷ b'\r' ∷ b'\n'
    ∷ []

-- "EMMC_ERR: Command line failed to reset\r\n"
abbrev pub line_text : List ℕ
line_text =
    b'E' ∷ b'M' ∷ b'M' ∷ b'C' ∷ b'_' ∷ b'E' ∷ b'R' ∷ b'R' ∷ b':' ∷ b' ' ∷ b'C' ∷ b'o' ∷ b'm' ∷ b'm'
    ∷ b'a' ∷ b'n' ∷ b'd' ∷ b' ' ∷ b'l' ∷ b'i' ∷ b'n' ∷ b'e' ∷ b' ' ∷ b'f' ∷ b'a' ∷ b'i' ∷ b'l'
    ∷ b'e' ∷ b'd' ∷ b' ' ∷ b't' ∷ b'o' ∷ b' ' ∷ b'r' ∷ b'e' ∷ b's' ∷ b'e' ∷ b't' ∷ b'\r' ∷ b'\n'
    ∷ []

-- "EMMC_ERR: INVALID APP COMMAND\r\n"
abbrev pub invalid_app_text : List ℕ
invalid_app_text =
    b'E' ∷ b'M' ∷ b'M' ∷ b'C' ∷ b'_' ∷ b'E' ∷ b'R' ∷ b'R' ∷ b':' ∷ b' ' ∷ b'I' ∷ b'N' ∷ b'V' ∷ b'A'
    ∷ b'L' ∷ b'I' ∷ b'D' ∷ b' ' ∷ b'A' ∷ b'P' ∷ b'P' ∷ b' ' ∷ b'C' ∷ b'O' ∷ b'M' ∷ b'M' ∷ b'A'
    ∷ b'N' ∷ b'D' ∷ b'\r' ∷ b'\n' ∷ []

-- "  ACMD fail err="
abbrev pub acmd_text : List ℕ
acmd_text =
    b' ' ∷ b' ' ∷ b'A' ∷ b'C' ∷ b'M' ∷ b'D' ∷ b' ' ∷ b'f' ∷ b'a' ∷ b'i' ∷ b'l' ∷ b' ' ∷ b'e' ∷ b'r'
    ∷ b'r' ∷ b'=' ∷ []

-- "\r\n"
abbrev pub end_text : List ℕ
end_text = b'\r' ∷ b'\n' ∷ []

-- "  CMD55 fail err="
abbrev pub cmd55_text : List ℕ
cmd55_text =
    b' ' ∷ b' ' ∷ b'C' ∷ b'M' ∷ b'D' ∷ b'5' ∷ b'5' ∷ b' ' ∷ b'f' ∷ b'a' ∷ b'i' ∷ b'l' ∷ b' ' ∷ b'e'
    ∷ b'r' ∷ b'r' ∷ b'=' ∷ []

-- " status="
abbrev pub status_text : List ℕ
status_text = b' ' ∷ b's' ∷ b't' ∷ b'a' ∷ b't' ∷ b'u' ∷ b's' ∷ b'=' ∷ []

-- "EMMC_ERR: Failure sending SEND_IF_COND\r\n"
abbrev pub if_cond_text : List ℕ
if_cond_text =
    b'E' ∷ b'M' ∷ b'M' ∷ b'C' ∷ b'_' ∷ b'E' ∷ b'R' ∷ b'R' ∷ b':' ∷ b' ' ∷ b'F' ∷ b'a' ∷ b'i' ∷ b'l'
    ∷ b'u' ∷ b'r' ∷ b'e' ∷ b' ' ∷ b's' ∷ b'e' ∷ b'n' ∷ b'd' ∷ b'i' ∷ b'n' ∷ b'g' ∷ b' ' ∷ b'S'
    ∷ b'E' ∷ b'N' ∷ b'D' ∷ b'_' ∷ b'I' ∷ b'F' ∷ b'_' ∷ b'C' ∷ b'O' ∷ b'N' ∷ b'D' ∷ b'\r' ∷ b'\n'
    ∷ []

-- "EMMC_ERR: Unusable SD Card\r\n"
abbrev pub unusable_text : List ℕ
unusable_text =
    b'E' ∷ b'M' ∷ b'M' ∷ b'C' ∷ b'_' ∷ b'E' ∷ b'R' ∷ b'R' ∷ b':' ∷ b' ' ∷ b'U' ∷ b'n' ∷ b'u' ∷ b's'
    ∷ b'a' ∷ b'b' ∷ b'l' ∷ b'e' ∷ b' ' ∷ b'S' ∷ b'D' ∷ b' ' ∷ b'C' ∷ b'a' ∷ b'r' ∷ b'd' ∷ b'\r'
    ∷ b'\n' ∷ []

-- "EMMC_ERR: SDIO Card not supported\r\n"
abbrev pub sdio_text : List ℕ
sdio_text =
    b'E' ∷ b'M' ∷ b'M' ∷ b'C' ∷ b'_' ∷ b'E' ∷ b'R' ∷ b'R' ∷ b':' ∷ b' ' ∷ b'S' ∷ b'D' ∷ b'I' ∷ b'O'
    ∷ b' ' ∷ b'C' ∷ b'a' ∷ b'r' ∷ b'd' ∷ b' ' ∷ b'n' ∷ b'o' ∷ b't' ∷ b' ' ∷ b's' ∷ b'u' ∷ b'p'
    ∷ b'p' ∷ b'o' ∷ b'r' ∷ b't' ∷ b'e' ∷ b'd' ∷ b'\r' ∷ b'\n' ∷ []

-- "EMMC_ERR: APP CMD 41 FAILED\r\n"
abbrev pub ocr_text : List ℕ
ocr_text =
    b'E' ∷ b'M' ∷ b'M' ∷ b'C' ∷ b'_' ∷ b'E' ∷ b'R' ∷ b'R' ∷ b':' ∷ b' ' ∷ b'A' ∷ b'P' ∷ b'P' ∷ b' '
    ∷ b'C' ∷ b'M' ∷ b'D' ∷ b' ' ∷ b'4' ∷ b'1' ∷ b' ' ∷ b'F' ∷ b'A' ∷ b'I' ∷ b'L' ∷ b'E' ∷ b'D'
    ∷ b'\r' ∷ b'\n' ∷ []

-- "EMMC_ERR: Failed to send CID\r\n"
abbrev pub cid_text : List ℕ
cid_text =
    b'E' ∷ b'M' ∷ b'M' ∷ b'C' ∷ b'_' ∷ b'E' ∷ b'R' ∷ b'R' ∷ b':' ∷ b' ' ∷ b'F' ∷ b'a' ∷ b'i' ∷ b'l'
    ∷ b'e' ∷ b'd' ∷ b' ' ∷ b't' ∷ b'o' ∷ b' ' ∷ b's' ∷ b'e' ∷ b'n' ∷ b'd' ∷ b' ' ∷ b'C' ∷ b'I'
    ∷ b'D' ∷ b'\r' ∷ b'\n' ∷ []

-- "EMMC_ERR: Failed to send Relative Addr\r\n"
abbrev pub relative_text : List ℕ
relative_text =
    b'E' ∷ b'M' ∷ b'M' ∷ b'C' ∷ b'_' ∷ b'E' ∷ b'R' ∷ b'R' ∷ b':' ∷ b' ' ∷ b'F' ∷ b'a' ∷ b'i' ∷ b'l'
    ∷ b'e' ∷ b'd' ∷ b' ' ∷ b't' ∷ b'o' ∷ b' ' ∷ b's' ∷ b'e' ∷ b'n' ∷ b'd' ∷ b' ' ∷ b'R' ∷ b'e'
    ∷ b'l' ∷ b'a' ∷ b't' ∷ b'i' ∷ b'v' ∷ b'e' ∷ b' ' ∷ b'A' ∷ b'd' ∷ b'd' ∷ b'r' ∷ b'\r' ∷ b'\n'
    ∷ []

-- "EMMC_ERR: Failed to read RCA\r\n"
abbrev pub rca_text : List ℕ
rca_text =
    b'E' ∷ b'M' ∷ b'M' ∷ b'C' ∷ b'_' ∷ b'E' ∷ b'R' ∷ b'R' ∷ b':' ∷ b' ' ∷ b'F' ∷ b'a' ∷ b'i' ∷ b'l'
    ∷ b'e' ∷ b'd' ∷ b' ' ∷ b't' ∷ b'o' ∷ b' ' ∷ b'r' ∷ b'e' ∷ b'a' ∷ b'd' ∷ b' ' ∷ b'R' ∷ b'C'
    ∷ b'A' ∷ b'\r' ∷ b'\n' ∷ []

-- "EMMC_ERR: Failed to select card\r\n"
abbrev pub select_text : List ℕ
select_text =
    b'E' ∷ b'M' ∷ b'M' ∷ b'C' ∷ b'_' ∷ b'E' ∷ b'R' ∷ b'R' ∷ b':' ∷ b' ' ∷ b'F' ∷ b'a' ∷ b'i' ∷ b'l'
    ∷ b'e' ∷ b'd' ∷ b' ' ∷ b't' ∷ b'o' ∷ b' ' ∷ b's' ∷ b'e' ∷ b'l' ∷ b'e' ∷ b'c' ∷ b't' ∷ b' '
    ∷ b'c' ∷ b'a' ∷ b'r' ∷ b'd' ∷ b'\r' ∷ b'\n' ∷ []

-- "EMMC_ERR: Invalid Status\r\n"
abbrev pub card_status_text : List ℕ
card_status_text =
    b'E' ∷ b'M' ∷ b'M' ∷ b'C' ∷ b'_' ∷ b'E' ∷ b'R' ∷ b'R' ∷ b':' ∷ b' ' ∷ b'I' ∷ b'n' ∷ b'v' ∷ b'a'
    ∷ b'l' ∷ b'i' ∷ b'd' ∷ b' ' ∷ b'S' ∷ b't' ∷ b'a' ∷ b't' ∷ b'u' ∷ b's' ∷ b'\r' ∷ b'\n' ∷ []

-- "EMMC_ERR: Failed to set block len\r\n"
abbrev pub block_len_text : List ℕ
block_len_text =
    b'E' ∷ b'M' ∷ b'M' ∷ b'C' ∷ b'_' ∷ b'E' ∷ b'R' ∷ b'R' ∷ b':' ∷ b' ' ∷ b'F' ∷ b'a' ∷ b'i' ∷ b'l'
    ∷ b'e' ∷ b'd' ∷ b' ' ∷ b't' ∷ b'o' ∷ b' ' ∷ b's' ∷ b'e' ∷ b't' ∷ b' ' ∷ b'b' ∷ b'l' ∷ b'o'
    ∷ b'c' ∷ b'k' ∷ b' ' ∷ b'l' ∷ b'e' ∷ b'n' ∷ b'\r' ∷ b'\n' ∷ []

-- "EMMC_ERR: Failed to send SCR\r\n"
abbrev pub scr_text : List ℕ
scr_text =
    b'E' ∷ b'M' ∷ b'M' ∷ b'C' ∷ b'_' ∷ b'E' ∷ b'R' ∷ b'R' ∷ b':' ∷ b' ' ∷ b'F' ∷ b'a' ∷ b'i' ∷ b'l'
    ∷ b'e' ∷ b'd' ∷ b' ' ∷ b't' ∷ b'o' ∷ b' ' ∷ b's' ∷ b'e' ∷ b'n' ∷ b'd' ∷ b' ' ∷ b'S' ∷ b'C'
    ∷ b'R' ∷ b'\r' ∷ b'\n' ∷ []

-- "EMMC_ERR: Card reset timeout!\r\n"
abbrev pub reset_text : List ℕ
reset_text =
    b'E' ∷ b'M' ∷ b'M' ∷ b'C' ∷ b'_' ∷ b'E' ∷ b'R' ∷ b'R' ∷ b':' ∷ b' ' ∷ b'C' ∷ b'a' ∷ b'r' ∷ b'd'
    ∷ b' ' ∷ b'r' ∷ b'e' ∷ b's' ∷ b'e' ∷ b't' ∷ b' ' ∷ b't' ∷ b'i' ∷ b'm' ∷ b'e' ∷ b'o' ∷ b'u'
    ∷ b't' ∷ b'!' ∷ b'\r' ∷ b'\n' ∷ []

-- "EMMC_ERR: Clock setup failed!\r\n"
abbrev pub clock_setup_text : List ℕ
clock_setup_text =
    b'E' ∷ b'M' ∷ b'M' ∷ b'C' ∷ b'_' ∷ b'E' ∷ b'R' ∷ b'R' ∷ b':' ∷ b' ' ∷ b'C' ∷ b'l' ∷ b'o' ∷ b'c'
    ∷ b'k' ∷ b' ' ∷ b's' ∷ b'e' ∷ b't' ∷ b'u' ∷ b'p' ∷ b' ' ∷ b'f' ∷ b'a' ∷ b'i' ∷ b'l' ∷ b'e'
    ∷ b'd' ∷ b'!' ∷ b'\r' ∷ b'\n' ∷ []

-- "EMMC_WARN: First GO_IDLE failed, trying again\r\n"
abbrev pub first_idle_text : List ℕ
first_idle_text =
    b'E' ∷ b'M' ∷ b'M' ∷ b'C' ∷ b'_' ∷ b'W' ∷ b'A' ∷ b'R' ∷ b'N' ∷ b':' ∷ b' ' ∷ b'F' ∷ b'i' ∷ b'r'
    ∷ b's' ∷ b't' ∷ b' ' ∷ b'G' ∷ b'O' ∷ b'_' ∷ b'I' ∷ b'D' ∷ b'L' ∷ b'E' ∷ b' ' ∷ b'f' ∷ b'a'
    ∷ b'i' ∷ b'l' ∷ b'e' ∷ b'd' ∷ b',' ∷ b' ' ∷ b't' ∷ b'r' ∷ b'y' ∷ b'i' ∷ b'n' ∷ b'g' ∷ b' '
    ∷ b'a' ∷ b'g' ∷ b'a' ∷ b'i' ∷ b'n' ∷ b'\r' ∷ b'\n' ∷ []

-- "EMMC_ERR: NO GO_IDLE RESPONSE\r\n"
abbrev pub no_idle_text : List ℕ
no_idle_text =
    b'E' ∷ b'M' ∷ b'M' ∷ b'C' ∷ b'_' ∷ b'E' ∷ b'R' ∷ b'R' ∷ b':' ∷ b' ' ∷ b'N' ∷ b'O' ∷ b' ' ∷ b'G'
    ∷ b'O' ∷ b'_' ∷ b'I' ∷ b'D' ∷ b'L' ∷ b'E' ∷ b' ' ∷ b'R' ∷ b'E' ∷ b'S' ∷ b'P' ∷ b'O' ∷ b'N'
    ∷ b'S' ∷ b'E' ∷ b'\r' ∷ b'\n' ∷ []

-- "EMMC_ERR: INVALID BLOCK SIZE\r\n"
abbrev pub block_size_text : List ℕ
block_size_text =
    b'E' ∷ b'M' ∷ b'M' ∷ b'C' ∷ b'_' ∷ b'E' ∷ b'R' ∷ b'R' ∷ b':' ∷ b' ' ∷ b'I' ∷ b'N' ∷ b'V' ∷ b'A'
    ∷ b'L' ∷ b'I' ∷ b'D' ∷ b' ' ∷ b'B' ∷ b'L' ∷ b'O' ∷ b'C' ∷ b'K' ∷ b' ' ∷ b'S' ∷ b'I' ∷ b'Z'
    ∷ b'E' ∷ b'\r' ∷ b'\n' ∷ []

-- "ASSERT FAIL: device.block_size == 512\r\n"
abbrev pub assert_text : List ℕ
assert_text =
    b'A' ∷ b'S' ∷ b'S' ∷ b'E' ∷ b'R' ∷ b'T' ∷ b' ' ∷ b'F' ∷ b'A' ∷ b'I' ∷ b'L' ∷ b':' ∷ b' ' ∷ b'd'
    ∷ b'e' ∷ b'v' ∷ b'i' ∷ b'c' ∷ b'e' ∷ b'.' ∷ b'b' ∷ b'l' ∷ b'o' ∷ b'c' ∷ b'k' ∷ b'_' ∷ b's'
    ∷ b'i' ∷ b'z' ∷ b'e' ∷ b' ' ∷ b'=' ∷ b'=' ∷ b' ' ∷ b'5' ∷ b'1' ∷ b'2' ∷ b'\r' ∷ b'\n' ∷ []

-- "EMMC_ERR: BAD BLOCK SIZE\r\n"
abbrev pub bad_size_text : List ℕ
bad_size_text =
    b'E' ∷ b'M' ∷ b'M' ∷ b'C' ∷ b'_' ∷ b'E' ∷ b'R' ∷ b'R' ∷ b':' ∷ b' ' ∷ b'B' ∷ b'A' ∷ b'D' ∷ b' '
    ∷ b'B' ∷ b'L' ∷ b'O' ∷ b'C' ∷ b'K' ∷ b' ' ∷ b'S' ∷ b'I' ∷ b'Z' ∷ b'E' ∷ b'\r' ∷ b'\n' ∷ []

-- "EMMC_WARN: Retrying data command\r\n"
abbrev pub retry_text : List ℕ
retry_text =
    b'E' ∷ b'M' ∷ b'M' ∷ b'C' ∷ b'_' ∷ b'W' ∷ b'A' ∷ b'R' ∷ b'N' ∷ b':' ∷ b' ' ∷ b'R' ∷ b'e' ∷ b't'
    ∷ b'r' ∷ b'y' ∷ b'i' ∷ b'n' ∷ b'g' ∷ b' ' ∷ b'd' ∷ b'a' ∷ b't' ∷ b'a' ∷ b' ' ∷ b'c' ∷ b'o'
    ∷ b'm' ∷ b'm' ∷ b'a' ∷ b'n' ∷ b'd' ∷ b'\r' ∷ b'\n' ∷ []

-- "EMMC_ERR: Giving up data command\r\n"
abbrev pub give_up_text : List ℕ
give_up_text =
    b'E' ∷ b'M' ∷ b'M' ∷ b'C' ∷ b'_' ∷ b'E' ∷ b'R' ∷ b'R' ∷ b':' ∷ b' ' ∷ b'G' ∷ b'i' ∷ b'v' ∷ b'i'
    ∷ b'n' ∷ b'g' ∷ b' ' ∷ b'u' ∷ b'p' ∷ b' ' ∷ b'd' ∷ b'a' ∷ b't' ∷ b'a' ∷ b' ' ∷ b'c' ∷ b'o'
    ∷ b'm' ∷ b'm' ∷ b'a' ∷ b'n' ∷ b'd' ∷ b'\r' ∷ b'\n' ∷ []

-- "ASSERT FAIL: size % 512 == 0\r\n"
abbrev pub assert_size_text : List ℕ
assert_size_text =
    b'A' ∷ b'S' ∷ b'S' ∷ b'E' ∷ b'R' ∷ b'T' ∷ b' ' ∷ b'F' ∷ b'A' ∷ b'I' ∷ b'L' ∷ b':' ∷ b' ' ∷ b's'
    ∷ b'i' ∷ b'z' ∷ b'e' ∷ b' ' ∷ b'%' ∷ b' ' ∷ b'5' ∷ b'1' ∷ b'2' ∷ b' ' ∷ b'=' ∷ b'=' ∷ b' '
    ∷ b'0' ∷ b'\r' ∷ b'\n' ∷ []

-- "EMMC_ERR: READ FAILED\r\n"
abbrev pub read_text : List ℕ
read_text =
    b'E' ∷ b'M' ∷ b'M' ∷ b'C' ∷ b'_' ∷ b'E' ∷ b'R' ∷ b'R' ∷ b':' ∷ b' ' ∷ b'R' ∷ b'E' ∷ b'A' ∷ b'D'
    ∷ b' ' ∷ b'F' ∷ b'A' ∷ b'I' ∷ b'L' ∷ b'E' ∷ b'D' ∷ b'\r' ∷ b'\n' ∷ []

-- "EMMC_ERR: WRITE FAILED\r\n"
abbrev pub write_text : List ℕ
write_text =
    b'E' ∷ b'M' ∷ b'M' ∷ b'C' ∷ b'_' ∷ b'E' ∷ b'R' ∷ b'R' ∷ b':' ∷ b' ' ∷ b'W' ∷ b'R' ∷ b'I' ∷ b'T'
    ∷ b'E' ∷ b' ' ∷ b'F' ∷ b'A' ∷ b'I' ∷ b'L' ∷ b'E' ∷ b'D' ∷ b'\r' ∷ b'\n' ∷ []

-- "EMMC_WARN: Failed to reset card, trying again...\r\n"
abbrev pub reset_retry_text : List ℕ
reset_retry_text =
    b'E' ∷ b'M' ∷ b'M' ∷ b'C' ∷ b'_' ∷ b'W' ∷ b'A' ∷ b'R' ∷ b'N' ∷ b':' ∷ b' ' ∷ b'F' ∷ b'a' ∷ b'i'
    ∷ b'l' ∷ b'e' ∷ b'd' ∷ b' ' ∷ b't' ∷ b'o' ∷ b' ' ∷ b'r' ∷ b'e' ∷ b's' ∷ b'e' ∷ b't' ∷ b' '
    ∷ b'c' ∷ b'a' ∷ b'r' ∷ b'd' ∷ b',' ∷ b' ' ∷ b't' ∷ b'r' ∷ b'y' ∷ b'i' ∷ b'n' ∷ b'g' ∷ b' '
    ∷ b'a' ∷ b'g' ∷ b'a' ∷ b'i' ∷ b'n' ∷ b'.' ∷ b'.' ∷ b'.' ∷ b'\r' ∷ b'\n' ∷ []
