-- ===== src/Libc/Number/Parse.antt =====
-- Parsing reads back what the printers of the port write.
use native.Mathlib.Nat.{mod-eq_of_lt, div-add-mod', mul-add-mod_self_right}
use haskell_os.Base.{
  ℕ, ◌+◌, ◌-◌, ◌*◌, ◌/◌, ◌%◌, ◌^◌, ◌<◌, ◌≤◌, ◌≡◌, refl, ◌∙◌, sym, ap, arith, Bool, true, false,
  List, [], ◌∷◌, ◌++◌, All, some, if◌then◌else◌, u32, sub32, Option-cases, inl, inr,
}
use haskell_os.Hal.Uart.Print.{read_decimal, IsDigit, IsNumeral, read_hex, hex_value, is_hex}
use haskell_os.Libc.Number.{
  isspace, digit_value, skip_spaces, strtol_digits, strtol_sign, strtol_base, strtol,
}

-- The digits are ones of the base, and their number, after `acc`.
abbrev pub Reads : ℕ → ℕ → List ℕ → ℕ → Type 0
Reads base acc [] n = acc ≡ n
Reads base acc (c ∷ cs) n =
    (d : ℕ) × (digit_value c ≡ some d) × (d < base) × Reads base (acc * base + d) cs n

-- What follows the digits is no digit of the base.
abbrev pub Stops : ℕ → List ℕ → Type 0
Stops base [] = Unit
Stops base (c ∷ cs) = (d : ℕ) → digit_value c ≡ some d → base ≤ d

wrap_step : (r b d : ℕ) → u32 (u32 r * b + d) ≡ u32 (r * b + d)
wrap_step r b d =
    sym (mul-add-mod_self_right (r / 2 ^ 32 * b) (2 ^ 32) (r % 2 ^ 32 * b + d))
    ∙ ap (λ (t : ℕ). t % 2 ^ 32) (grind (arith, ap (λ (t : ℕ). t * b) (div-add-mod' r (2 ^ 32))))

-- The loop reads digits of any base, modulo 2^32.
strtol_digits-Reads :
    (ds : List ℕ) (base acc n : ℕ) (rest : List ℕ)
    → Reads base acc ds n
    → Stops base rest
    → strtol_digits base (u32 acc) (ds ++ rest) ≡ (u32 n, rest)
unfolding strtol_digits
strtol_digits-Reads [] base acc n [] h stop = ground arith
strtol_digits-Reads [] base acc n (c ∷ rest) h stop = elim (Option-cases (digit_value c)) [
  | inl e ↦ ground arith
  | inr (d, e) ↦ ground (arith, stop d e)
]
strtol_digits-Reads (c ∷ ds) base acc n rest (d, v, lt, h) stop =
    ground (arith, wrap_step acc base d, strtol_digits-Reads ds base (acc * base + d) n rest h stop)

-- The text starts with no space.
abbrev pub Unspaced : List ℕ → Type 0
Unspaced [] = Unit
Unspaced (c ∷ cs) = isspace c ≡ false

skip_spaces-append :
    (spaces text : List ℕ)
    → All (λ c. isspace c ≡ true) spaces
    → Unspaced text
    → skip_spaces (spaces ++ text) ≡ text
unfolding skip_spaces
skip_spaces-append [] [] h u = refl
skip_spaces-append [] (c ∷ cs) h u = rw u
skip_spaces-append (s ∷ ss) text h u = rw h.0 (skip_spaces-append ss text h.1 u)

digit_value-decimal : (c : ℕ) → IsDigit c → digit_value c ≡ some (c - b'0')
unfolding digit_value
digit_value-decimal c h = ground arith

Reads-decimal : (ds : List ℕ) (acc : ℕ) → All IsDigit ds → Reads 10 acc ds (read_decimal acc ds)
Reads-decimal [] acc h = refl
Reads-decimal (c ∷ cs) acc h =
    (c - b'0', digit_value-decimal c h.0, omega arith, Reads-decimal cs (acc * 10 + (c - b'0')) h.1)

digit_value-hex : (c : ℕ) → is_hex c ≡ true → digit_value c ≡ some (hex_value c)
unfolding digit_value
digit_value-hex c h = ground arith

Reads-hex :
    (ds : List ℕ) (acc : ℕ) → All (λ c. is_hex c ≡ true) ds → Reads 16 acc ds (read_hex acc ds)
Reads-hex [] acc h = refl
Reads-hex (c ∷ cs) acc h =
    (hex_value c, digit_value-hex c h.0, ground arith, Reads-hex cs (acc * 16 + hex_value c) h.1)

abbrev pub sign_text : Bool → List ℕ
sign_text true = b'-' ∷ []
sign_text false = []

-- Reading the sign in front of a numeral.
signed_text :
    (negative : Bool) (c : ℕ) (cs : List ℕ)
    → IsDigit c
    → Unspaced (sign_text negative ++ (c ∷ cs))
      × (strtol_sign (sign_text negative ++ (c ∷ cs)) ≡ (negative, c ∷ cs))
unfolding strtol_sign
signed_text true c cs h = (refl, refl)
signed_text false c cs h = ground arith

-- `strtol` in base 10 skips white space, and reads a minus sign and a decimal numeral of an `unsigned`,
-- up to the first byte that is no digit: it gives the number or the pattern of its negative, and
-- leaves what follows.
pub strtol-IsNumeral :
    (spaces : List ℕ) (negative : Bool) (n : ℕ) (ds rest : List ℕ)
    → All (λ c. isspace c ≡ true) spaces
    → IsNumeral n ds
    → n < 2 ^ 32
    → Stops 10 rest
    → strtol (spaces ++ (sign_text negative ++ (ds ++ rest))) 10
      ≡ (if negative then sub32 0 n else n, rest)
unfolding strtol strtol_base
strtol-IsNumeral spaces negative n [] rest hs num small stop = absurd (omega (arith, num.nonempty))
strtol-IsNumeral spaces negative n (c ∷ cs) rest hs num small stop =
    let (u, e) = signed_text negative c (cs ++ rest) num.digits.0 in
    let read : strtol_digits 10 0 (c ∷ cs ++ rest) ≡ (n, rest) =
      strtol_digits-Reads (c ∷ cs) 10 0 (read_decimal 0 (c ∷ cs)) rest
        (Reads-decimal (c ∷ cs) 0 num.digits) stop
      ∙ ap (λ (t : ℕ). (u32 t, rest)) num.reads
      ∙ ap (λ (t : ℕ). (t, rest)) (mod-eq_of_lt small) in
    rw (skip_spaces-append spaces (sign_text negative ++ (c ∷ cs ++ rest)) hs u, e, read) refl

-- `strtol` in base 0 reads `0x` and lower-case hexadecimal digits, modulo 2^32, up to the first byte
-- that is no digit of base 16.
pub strtol-hex :
    (ds rest : List ℕ)
    → All (λ c. is_hex c ≡ true) ds
    → Stops 16 rest
    → strtol (b'0' ∷ b'x' ∷ ds ++ rest) 0 ≡ (u32 (read_hex 0 ds), rest)
unfolding strtol strtol_base strtol_sign skip_spaces
strtol-hex ds rest h stop =
    rw (strtol_digits-Reads ds 16 0 (read_hex 0 ds) rest (Reads-hex ds 0 h) stop)
