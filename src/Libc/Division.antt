-- ===== src/Libc/Division.antt =====
-- The division helpers of c/rts-stubs.c. An `int` is its 32-bit pattern.
pub mod Unsigned
pub mod Signed
use haskell_os.Base.{
  ℕ, zero, suc, ◌+◌, ◌-◌, ◌*◌, ◌/◌, ◌^◌, bit_and, bit_or, ltb, leb, ◌==◌, not, ◌&&◌, if◌then◌else◌,
  Bool, true, false, u32, sub32,
}

-- `while (d <= num && !(d & (1u << 31))) { d <<= 1; shift++; }`, with what `d` and `shift` end as.
unfoldable pub grow : ℕ → ℕ → ℕ → ℕ → ℕ × ℕ
grow zero num d shift = (d, shift)
grow (suc fuel) num d shift =
    let rest = grow fuel num (u32 (d * 2)) (shift + 1) in
    if leb d num && (bit_and d (2 ^ 31) == 0) then rest else (d, shift)

-- `for (; shift >= 0; shift--)`, with `shift + 1` rounds left.
unfoldable pub subtract : ℕ → ℕ → ℕ → ℕ → ℕ
subtract zero num d q = q
subtract (suc shift) num d q =
    subtract shift (if leb d num then num - d else num) (d / 2)
      (if leb d num then bit_or q (u32 (1 * 2 ^ shift)) else q)

-- The step between the loops: `if (d > num) { d >>= 1; shift--; }`.
unfoldable pub finish : ℕ → ℕ × ℕ → ℕ
unfolding subtract
finish num (d, shift) =
    if ltb num d then subtract shift num (d / 2) 0 else subtract (shift + 1) num d 0

unfoldable pub aeabi_uidiv : ℕ → ℕ → ℕ
unfolding grow finish
aeabi_uidiv num den = if den == 0 then 0 else finish num (grow 32 num den 0)

-- `-x` of an `int`, and `x < 0`.
abbrev pub neg32 : ℕ → ℕ
neg32 x = sub32 0 x

abbrev pub is_neg : ℕ → Bool
is_neg x = leb (2 ^ 31) x

unfoldable pub aeabi_idiv : ℕ → ℕ → ℕ
unfolding aeabi_uidiv
aeabi_idiv num den =
    if den == 0
    then 0
    else let flip = λ (b : Bool) (x : ℕ). if is_neg x then not b else b in
      let positive = flip (flip true num) den in
      let q =
        aeabi_uidiv (if is_neg num then neg32 num else num)
          (if is_neg den then neg32 den else den) in
      if positive then q else neg32 q
