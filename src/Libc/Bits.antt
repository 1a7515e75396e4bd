-- ===== src/Libc/Bits.antt =====
-- The bit-counting builtins of c/rts-stubs.c. `__builtin_ctz` and `__builtin_clz` are the compiler's:
-- the number of zero bits below the lowest one, and above the highest.
pub mod Bytes
pub mod Ones
use haskell_os.Base.{
  ℕ, zero, suc, ◌+◌, ◌-◌, ◌*◌, ◌/◌, ◌%◌, ◌^◌, bit_and, ◌==◌, if◌then◌else◌, u32, sub32,
}

unfoldable pub popcountsi2 : ℕ → ℕ
popcountsi2 x =
    let pairs = sub32 x (bit_and (x / 2) 0x5555_5555) in
    let nibbles = u32 (bit_and pairs 0x3333_3333 + bit_and (pairs / 2 ^ 2) 0x3333_3333) in
    let bytes = bit_and (u32 (nibbles + nibbles / 2 ^ 4)) 0x0f0f_0f0f in
    u32 (bytes * 0x0101_0101) / 2 ^ 24

unfoldable pub popcountdi2 : ℕ → ℕ
popcountdi2 x = popcountsi2 (u32 x) + popcountsi2 (u32 (x / 2 ^ 32))

-- Of a number that is not 0, in `rounds` bits.
unfoldable pub builtin_ctz : ℕ → ℕ → ℕ
builtin_ctz zero x = 0
builtin_ctz (suc rounds) x =
    let rest = 1 + builtin_ctz rounds (x / 2) in if x % 2 == 0 then rest else 0

unfoldable pub builtin_clz : ℕ → ℕ → ℕ
builtin_clz zero x = 0
builtin_clz (suc rounds) x =
    let rest = 1 + builtin_clz rounds x in if x / 2 ^ rounds == 0 then rest else 0

unfoldable pub ctzdi2 : ℕ → ℕ
ctzdi2 x = if u32 x == 0 then 32 + builtin_ctz 32 (u32 (x / 2 ^ 32)) else builtin_ctz 32 (u32 x)

unfoldable pub clzdi2 : ℕ → ℕ
clzdi2 x =
    if u32 (x / 2 ^ 32) == 0 then 32 + builtin_clz 32 (u32 x) else builtin_clz 32 (u32 (x / 2 ^ 32))
