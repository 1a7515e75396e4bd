-- ===== src/Emmc/Clock.antt =====
-- The clock divider of c/emmc.c.
pub mod Rate
use haskell_os.Base.{
  ℕ, zero, suc, ◌+◌, ◌-◌, ◌*◌, ◌/◌, ◌%◌, ◌^◌, bit_and, bit_or, ltb, leb, ◌==◌, if◌then◌else◌, not32,
  u32, Option, none, some,
}

abbrev pub sd_clock_high : ℕ
sd_clock_high = 50_000_000

-- `target_div` before the search.
unfoldable pub target_divisor : ℕ → ℕ
target_divisor base_clock =
    if leb sd_clock_high base_clock
    then (if base_clock % sd_clock_high == 0 then base_clock / sd_clock_high else 0)
    else 1

-- The search for the highest bit of `target_div`, from bit `n - 1` down: `div` behind the loop, one
-- more if a lower bit is set too, or `none` for the initial -1.
unfoldable pub high_bit : ℕ → ℕ → Option ℕ
high_bit zero target_div = none
high_bit (suc fb) target_div =
    let rest = high_bit fb target_div in
    if bit_and target_div (2 ^ fb) == 0
    then rest
    else some (if bit_and target_div (not32 (2 ^ fb)) == 0 then fb else fb + 1)

-- The tests on `div` behind the loop.
abbrev pub capped : Option ℕ → ℕ
capped none = 31
capped (some d) = if leb 32 d then 31 else d

unfoldable pub divider : Option ℕ → ℕ
divider found =
    let div = capped found in
    let halved = if div == 0 then 0 else 2 ^ (div - 1) in if leb 0x400 halved then 0x3ff else halved

-- `(freqSel << 8) | (upper << 6) | (0 << 5)`.
unfoldable pub divider_fields : ℕ → ℕ
divider_fields div =
    bit_or (bit_or (bit_and div 0xff * 2 ^ 8) (bit_and (div / 2 ^ 8) 3 * 2 ^ 6)) (0 * 2 ^ 5)

unfoldable pub get_clock_divider : ℕ → ℕ
unfolding target_divisor high_bit divider divider_fields
get_clock_divider base_clock = divider_fields (divider (high_bit 32 (target_divisor base_clock)))
