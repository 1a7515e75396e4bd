-- ===== src/Tests/Numbers.antt =====
-- The division helpers, the number reader, the formatted output and the search of c/rts-stubs.c on
-- concrete inputs.
use haskell_os.Base.{some, ltb, if◌then◌else◌, ◌-◌, ◌^◌, ◌≡◌, inl, refl, arith, true, [], ◌∷◌}
use haskell_os.Base.Int.{pos, negsuc, signed32}
use haskell_os.Hal.Uart.Print.{IsNumeral}
use haskell_os.Libc.Division.{aeabi_uidiv, aeabi_idiv}
use haskell_os.Libc.Division.Unsigned.{aeabi_uidiv-div}
use haskell_os.Libc.Division.Signed.{aeabi_idiv-quotient}
use haskell_os.Libc.Number.{strtol, digit_value}
use haskell_os.Libc.Number.Parse.{strtol-IsNumeral}
use haskell_os.Libc.Sort.{Comparison, bsearch}
use haskell_os.Libc.Sort.Search.{IsOrdered, Searched, bsearch-Searched}
use haskell_os.Libc.Printf.{vsnprintf, converted, fmt_int, decimal}
use haskell_os.Libc.Printf.Bounded.{render, vsnprintf-clip}

aeabi_uidiv-div_example : aeabi_uidiv 0xffff_fff0 7 ≡ 613_566_754
aeabi_uidiv-div_example = aeabi_uidiv-div 0xffff_fff0 7 (omega arith) (omega arith)

-- -17 by 5.
aeabi_idiv-quotient_example : signed32 (aeabi_idiv (2 ^ 32 - 17) 5) ≡ negsuc 2
aeabi_idiv-quotient_example =
    aeabi_idiv-quotient (2 ^ 32 - 17) 5 (omega arith) (omega arith) (ground arith)
      (inl (ground arith))

forty_two : IsNumeral 42 (b'4' ∷ b'2' ∷ [])
forty_two = record {
  digits = ((omega arith, omega arith), ((omega arith, omega arith), tt));
  reads = refl;
  short = omega arith;
  leading = λ e. absurd (omega arith);
  nonempty = omega arith;
}

-- "  -42 x"
strtol-IsNumeral_example :
    strtol (b' ' ∷ b' ' ∷ b'-' ∷ b'4' ∷ b'2' ∷ b' ' ∷ b'x' ∷ []) 10
    ≡ (2 ^ 32 - 42, b' ' ∷ b'x' ∷ [])
unfolding digit_value
strtol-IsNumeral_example =
    strtol-IsNumeral (b' ' ∷ b' ' ∷ []) true 42 (b'4' ∷ b'2' ∷ []) (b' ' ∷ b'x' ∷ [])
      (refl, (refl, tt)) forty_two (omega arith) (λ d e. ground arith)

-- "%5d|%s" with -7 and a text of "ab", in a buffer of 5 bytes.
vsnprintf-clip_example :
    vsnprintf
      (λ p. b'a' ∷ b'b' ∷ [])
      5
      (b'%' ∷ b'5' ∷ b'd' ∷ b'|' ∷ b'%' ∷ b's' ∷ [])
      (0xffff_fff9 ∷ 4096 ∷ [])
    ≡ some (b'-' ∷ b'7' ∷ b'|' ∷ b'a' ∷ [])
unfolding render converted fmt_int decimal
vsnprintf-clip_example =
    vsnprintf-clip (λ p. b'a' ∷ b'b' ∷ []) 5 (b'%' ∷ b'5' ∷ b'd' ∷ b'|' ∷ b'%' ∷ b's' ∷ [])
      (0xffff_fff9 ∷ 4096 ∷ []) (ground arith) (omega arith)

-- Bytes compared by value.
abbrev by_value : Comparison
by_value m p q = if ltb (m p) (m q) then negsuc 0 else if ltb (m q) (m p) then pos 1 else pos 0

by_value-IsOrdered : IsOrdered (by_value (λ q. q) 103) 100 1 6
by_value-IsOrdered = record {
  greater_first = λ i j h k e. ground arith;
  less_last = λ i j h k e. ground arith;
}

bsearch-Searched_example :
    Searched (by_value (λ q. q) 103) 100 1 6 (bsearch by_value (λ q. q) 103 100 6 1)
bsearch-Searched_example = bsearch-Searched by_value (λ q. q) 103 100 6 1 by_value-IsOrdered
