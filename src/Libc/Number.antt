-- ===== src/Libc/Number.antt =====
-- Character classes and number parsing of c/rts-stubs.c. A text is a list of bytes that ends where
-- the zero stands; what is left of it is where `*end` points.
pub mod Classes
pub mod Parse
use haskell_os.Base.{
  ℕ, zero, suc, ◌+◌, ◌-◌, ◌*◌, ◌%◌, ◌^◌, ltb, leb, ◌==◌, not, ◌&&◌, ◌||◌, if◌then◌else◌, Bool, true,
  false, List, [], ◌∷◌, Option, none, some, u32, sub32,
}

abbrev pub isdigit : ℕ → Bool
isdigit c = leb b'0' c && leb c b'9'

abbrev pub isspace : ℕ → Bool
isspace c = c == b' ' || c == b'\t' || c == b'\n' || c == b'\r' || c == b'\x0c' || c == b'\x0b'

abbrev pub isalpha : ℕ → Bool
isalpha c = (leb b'a' c && leb c b'z') || (leb b'A' c && leb c b'Z')

abbrev pub isalnum : ℕ → Bool
isalnum c = isalpha c || isdigit c

abbrev pub isupper : ℕ → Bool
isupper c = leb b'A' c && leb c b'Z'

abbrev pub islower : ℕ → Bool
islower c = leb b'a' c && leb c b'z'

abbrev pub isprint : ℕ → Bool
isprint c = leb 0x20 c && leb c 0x7e

abbrev pub iscntrl : ℕ → Bool
iscntrl c = ltb c 0x20 || c == 0x7f

abbrev pub ispunct : ℕ → Bool
ispunct c = isprint c && not (isalnum c) && not (isspace c)

abbrev pub isxdigit : ℕ → Bool
isxdigit c = isdigit c || (leb b'a' c && leb c b'f') || (leb b'A' c && leb c b'F')

abbrev pub toupper : ℕ → ℕ
toupper c = if leb b'a' c && leb c b'z' then c - 32 else c

abbrev pub tolower : ℕ → ℕ
tolower c = if leb b'A' c && leb c b'Z' then c + 32 else c

-- `while (isspace(*s)) s++;`
unfoldable pub skip_spaces : List ℕ → List ℕ
skip_spaces [] = []
skip_spaces (c ∷ s) = if isspace c then skip_spaces s else c ∷ s

-- The value of a digit or letter, `none` where the loop breaks.
unfoldable pub digit_value : ℕ → Option ℕ
digit_value c =
    if leb b'0' c && leb c b'9'
    then some (c - b'0')
    else if leb b'a' c && leb c b'z'
    then some (c - b'a' + 10)
    else if leb b'A' c && leb c b'Z'
    then some (c - b'A' + 10)
    else none

-- The loop over the digits: the value so far, as a 32-bit `long`, and what is left.
unfoldable pub strtol_digits : ℕ → ℕ → List ℕ → ℕ × List ℕ
strtol_digits base r [] = (r, [])
strtol_digits base r (c ∷ s) = elim (digit_value c) [
  | none ↦ (r, c ∷ s)
  | some d ↦ (if leb base d then (r, c ∷ s) else strtol_digits base (u32 (r * base + d)) s)
]

-- `if (*s == '-') { sign = -1; s++; } else if (*s == '+') s++;`
unfoldable pub strtol_sign : List ℕ → Bool × List ℕ
strtol_sign [] = (false, [])
strtol_sign (c ∷ s) =
    if c == b'-' then (true, s) else if c == b'+' then (false, s) else (false, c ∷ s)

-- Whether the text starts with `0x` or `0X`.
abbrev pub hex_prefix : List ℕ → Bool
hex_prefix (z ∷ x ∷ s) = z == b'0' && (x == b'x' || x == b'X')
hex_prefix s = false

abbrev pub drop2 : List ℕ → List ℕ
drop2 (a ∷ b ∷ s) = s
drop2 s = []

abbrev pub starts_zero : List ℕ → Bool
starts_zero (z ∷ s) = z == b'0'
starts_zero [] = false

abbrev pub drop1 : List ℕ → List ℕ
drop1 (a ∷ s) = s
drop1 [] = []

-- The base, if the argument is 0, and what follows its prefix.
unfoldable pub strtol_base : ℕ → List ℕ → ℕ × List ℕ
strtol_base base s =
    if base == 0
    then (if hex_prefix s then (16, drop2 s) else if starts_zero s then (8, drop1 s) else (10, s))
    else (if base == 16 && hex_prefix s then (16, drop2 s) else (base, s))

-- The value's 32-bit pattern, and what is left.
unfoldable pub strtol : List ℕ → ℕ → ℕ × List ℕ
strtol text base =
    let (negative, s) = strtol_sign (skip_spaces text) in
    let (b, s') = strtol_base base s in
    let (r, left) = strtol_digits b 0 s' in (if negative then sub32 0 r else r, left)

unfoldable pub strtoul : List ℕ → ℕ → ℕ × List ℕ
unfolding strtol
strtoul text base = strtol text base

unfoldable pub atoi : List ℕ → ℕ
unfolding strtol
atoi text = (strtol text 10).0
