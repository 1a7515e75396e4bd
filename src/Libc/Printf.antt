-- ===== src/Libc/Printf.antt =====
-- `vsnprintf` of c/rts-stubs.c with `fmt_int`. The format is the list of its bytes, `args` the words of
-- the `va_list` (every argument type that the code asks for has 32 bits on this target), and `texts`
-- gives the bytes of the text at a pointer. The result is the list of the bytes in front of the zero
-- that ends the buffer, and the length that the function returns; `none` is an argument that is
-- missing, which C leaves undefined.
pub mod Bounded
pub mod Line
use haskell_os.Base.{
  ℕ, zero, suc, ◌+◌, ◌-◌, ◌*◌, ◌/◌, ◌%◌, ◌^◌, ltb, leb, ◌==◌, ◌&&◌, ◌||◌, if◌then◌else◌, Bool, true,
  false, u8, sub32, List, [], ◌∷◌, ◌++◌, length, Option, none, some, bit_and,
}

-- `pos < (int)size - 1`.
abbrev pub room : ℕ → ℕ → Bool
room size pos = ltb size (2 ^ 31) && ltb (pos + 1) size

-- `if (pos < (int)size-1) buf[pos++] = c;`
abbrev pub emit : ℕ → ℕ → List ℕ → List ℕ
emit size c out = if room size (length out) then out ++ (c ∷ []) else out

unfoldable pub emit_all : ℕ → List ℕ → List ℕ → List ℕ
emit_all size [] out = out
emit_all size (c ∷ cs) out = emit_all size cs (emit size c out)

-- The digits that `fmt_int` leaves in `tmp`, highest first; ten rounds are enough for a word.
unfoldable pub decimal : ℕ → ℕ → List ℕ → List ℕ
decimal zero val digits = digits
decimal (suc rounds) val digits =
    let rest = decimal rounds (val / 10) ((b'0' + val % 10) ∷ digits) in
    if val == 0 then digits else rest

unfoldable pub fmt_int : ℕ → List ℕ
fmt_int val = if val == 0 then b'0' ∷ [] else decimal 10 val []

abbrev pub hex_digit : ℕ → ℕ
hex_digit d = if ltb d 10 then b'0' + d else b'a' + d - 10

unfoldable pub hexadecimal : ℕ → ℕ → List ℕ → List ℕ
hexadecimal zero v digits = digits
hexadecimal (suc rounds) v digits =
    let rest = hexadecimal rounds (v / 16) (hex_digit (bit_and v 0xf) ∷ digits) in
    if v == 0 then digits else rest

-- The eight digits of `%p`, from the digit `i - 1` down.
unfoldable pub pointer_digits : ℕ → ℕ → List ℕ
pointer_digits zero v = []
pointer_digits (suc i) v = hex_digit (bit_and (v / 2 ^ (4 * i)) 0xf) ∷ pointer_digits i v

-- "(null)"
abbrev pub null_text : List ℕ
null_text = b'(' ∷ b'n' ∷ b'u' ∷ b'l' ∷ b'l' ∷ b')' ∷ []

-- What a conversion that takes the argument `v` emits, byte by byte.
unfoldable pub converted : (ℕ → List ℕ) → ℕ → ℕ → List ℕ
converted texts c v =
    if (c == b'd') || (c == b'i')
    then (if ltb v (2 ^ 31) then fmt_int v else b'-' ∷ fmt_int (sub32 0 v))
    else if c == b'u'
    then fmt_int v
    else if (c == b'x') || (c == b'X')
    then (if v == 0 then b'0' ∷ [] else hexadecimal 8 v [])
    else if c == b'p'
    then b'0' ∷ b'x' ∷ pointer_digits 8 v
    else if c == b's'
    then (if v == 0 then null_text else texts v)
    else u8 v ∷ []

abbrev pub takes_argument : ℕ → Bool
takes_argument c =
    (c == b'd')
    || (c == b'i')
    || (c == b'u')
    || (c == b'x')
    || (c == b'X')
    || (c == b'p')
    || (c == b's')
    || (c == b'c')

-- Where a directive stands: behind `%` and its flags, its width, its precision, its first or second
-- `l`, or its `z`.
pub data Stage : Type 0 where
  flags width precision long_1 long_2 size_z : Stage

-- Where the loop stands: in text, or in a directive.
pub data Mode : Type 0 where
  text : Mode
  inside : Stage → Mode

-- What a byte in a directive is read as: more of the directive, or its conversion.
pub data Step : Type 0 where
  goes_on : Stage → Step
  converts : Step

abbrev pub is_digit : ℕ → Bool
is_digit c = leb b'0' c && leb c b'9'

abbrev pub is_flag : ℕ → Bool
is_flag c = (c == b'-') || (c == b'+') || (c == b' ') || (c == b'0') || (c == b'#') || (c == b'\'')

abbrev pub after_long_2 : ℕ → Step
after_long_2 c = if c == b'z' then goes_on size_z else converts

abbrev pub after_long_1 : ℕ → Step
after_long_1 c = if c == b'l' then goes_on long_2 else after_long_2 c

abbrev pub after_precision : ℕ → Step
after_precision c = if c == b'l' then goes_on long_1 else after_long_2 c

abbrev pub step : Stage → ℕ → Step
step flags c =
    if is_flag c
    then goes_on flags
    else if is_digit c
    then goes_on width
    else if c == b'.'
    then goes_on precision
    else after_precision c
step width c =
    if is_digit c then goes_on width else if c == b'.' then goes_on precision else after_precision c
step precision c = if is_digit c then goes_on precision else after_precision c
step long_1 c = after_long_1 c
step long_2 c = after_long_2 c
step size_z c = converts

-- The loop over the format.
unfoldable pub format : (ℕ → List ℕ) → ℕ → Mode → List ℕ → List ℕ → List ℕ → Option (List ℕ)
format texts size mode [] args out = some out
format texts size text (c ∷ fmt) args out =
    let directive = format texts size (inside flags) fmt args out in
    let copied = format texts size text fmt args (emit size c out) in
    if c == b'%' then directive else copied
format texts size (inside stage) (c ∷ fmt) args out =
    let more = λ (next : Stage). format texts size (inside next) fmt args out in
    let taken = λ (v : ℕ) (rest : List ℕ).
      format texts size text fmt rest (emit_all size (converted texts c v) out) in
    let literal = format texts size text fmt args (emit size b'%' out) in
    let unknown = format texts size text fmt args (emit size c (emit size b'%' out)) in
    elim (step stage c) [
      | goes_on next ↦ more next
      | converts ↦
          (if takes_argument c
            then elim args [ [] ↦ none | v ∷ rest ↦ taken v rest ]
            else if c == b'%'
            then literal
            else unknown)
    ]

-- A size of 0 leaves the buffer alone and returns 0.
unfoldable pub vsnprintf : (ℕ → List ℕ) → ℕ → List ℕ → List ℕ → Option (List ℕ)
vsnprintf texts size fmt args = if size == 0 then some [] else format texts size text fmt args []
