-- ===== src/Libc/Printf/Line.antt =====
-- `mhs_printf` of c/extra.c: the same directives as `vsnprintf`, printed on the serial line.
use haskell_os.Base.{
  ℕ, ◌+◌, ◌^◌, ltb, ◌==◌, ◌||◌, if◌then◌else◌, Bool, true, false, u32, sub32, List, [], ◌∷◌, Option,
  none, some,
}
use haskell_os.Base.Io.{M, ◌>>=◌, ◌>>◌, pure, undefined}
use haskell_os.Hal.Uart.{uart_put8, uart_puts, uart_put_uint, uart_put_hex}
use haskell_os.Libc.Printf.{
  Stage, flags, long_2, Mode, text, inside, goes_on, converts, step, null_text,
}

-- An argument: one that is promoted to 32 bits, a `long long`, or a `double`.
pub data Arg : Type 0 where
  word : ℕ → Arg
  double_word : ℕ → Arg
  double : Arg

-- "<float>"
abbrev float_text : List ℕ
float_text = b'<' ∷ b'f' ∷ b'l' ∷ b'o' ∷ b'a' ∷ b't' ∷ b'>' ∷ []

-- What `va_arg` is asked for.
pub data Want : Type 0 where
  wants_word wants_double_word wants_double wants_nothing : Want

-- A `long long` is cut to 32 bits. An argument of another type, or none, is undefined in C.
abbrev pub fetch : Want → List Arg → Option (ℕ × List Arg)
fetch wants_word (word v ∷ args) = some (v, args)
fetch wants_word (double_word v ∷ args) = none
fetch wants_word (double ∷ args) = none
fetch wants_word [] = none
fetch wants_double_word (word v ∷ args) = none
fetch wants_double_word (double_word v ∷ args) = some (u32 v, args)
fetch wants_double_word (double ∷ args) = none
fetch wants_double_word [] = none
fetch wants_double (word v ∷ args) = none
fetch wants_double (double_word v ∷ args) = none
fetch wants_double (double ∷ args) = some (0, args)
fetch wants_double [] = none
fetch wants_nothing args = some (0, args)

-- `is_long >= 2`.
abbrev pub is_long_2 : Stage → Bool
is_long_2 long_2 = true
is_long_2 flags = false
is_long_2 Stage.width = false
is_long_2 Stage.precision = false
is_long_2 Stage.long_1 = false
is_long_2 Stage.size_z = false

abbrev pub want : Stage → ℕ → Want
want stage c =
    if (c == b'd') || (c == b'i') || (c == b'u') || (c == b'x') || (c == b'X')
    then (if is_long_2 stage then wants_double_word else wants_word)
    else if (c == b'p') || (c == b's') || (c == b'c')
    then wants_word
    else if (c == b'f') || (c == b'e') || (c == b'g')
    then wants_double
    else wants_nothing

module _ {S : Type 0} where
  -- One conversion, and what it adds to the count.
  unfoldable pub print_converted : (ℕ → List ℕ) → ℕ → ℕ → M S ℕ
  print_converted texts c v =
      if (c == b'd') || (c == b'i')
      then (if ltb v (2 ^ 31)
          then (uart_put_uint v >> pure 1)
          else (uart_put8 b'-' >> (uart_put_uint (sub32 0 v) >> pure 2)))
      else if c == b'u'
      then (uart_put_uint v >> pure 1)
      else if (c == b'x') || (c == b'X') || (c == b'p')
      then (uart_put_hex v >> pure 1)
      else if c == b's'
      then (uart_puts (if v == 0 then null_text else texts v) >> pure 1)
      else if c == b'c'
      then (uart_put8 v >> pure 1)
      else if (c == b'f') || (c == b'e') || (c == b'g')
      then (uart_puts float_text >> pure 1)
      else if c == b'%'
      then (uart_put8 b'%' >> pure 1)
      else (uart_put8 b'%' >> (uart_put8 c >> pure 1))

  -- The loop over the format, with the count so far.
  unfoldable pub print_format : (ℕ → List ℕ) → Mode → List ℕ → List Arg → ℕ → M S ℕ
  print_format texts mode [] args count = pure count
  print_format texts text (c ∷ fmt) args count =
      let directive = print_format texts (inside flags) fmt args count in
      let copied = print_format texts text fmt args (count + 1) in
      let newline = uart_put8 b'\r' >> (uart_put8 c >> copied) in
      if c == b'%' then directive else if c == b'\n' then newline else (uart_put8 c >> copied)
  print_format texts (inside stage) (c ∷ fmt) args count =
      let more = λ (next : Stage). print_format texts (inside next) fmt args count in
      let printed = λ (v : ℕ) (rest : List Arg).
        print_converted texts c v >>= λ added. print_format texts text fmt rest (count + added) in
      elim (step stage c) [
        | goes_on next ↦ more next
        | converts ↦ elim (fetch (want stage c) args) [
          | none ↦ undefined
          | some (v, rest) ↦ printed v rest
        ]
      ]

  unfoldable pub mhs_printf : (ℕ → List ℕ) → List ℕ → List Arg → M S ℕ
  mhs_printf texts fmt args = print_format texts text fmt args 0
