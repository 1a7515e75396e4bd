-- ===== src/Libc/Number/Classes.antt =====
-- How the character classes fit together.
use haskell_os.Base.{ℕ, ◌≡◌, arith, true, false, ◌==◌, ◌&&◌, ◌||◌}
use haskell_os.Libc.Number.{
  isdigit, isspace, isalpha, isalnum, isupper, islower, isprint, iscntrl, ispunct, isxdigit,
  toupper, tolower,
}

-- What the classes of one byte say: it is printable exactly when it is a letter, a digit, punctuation or a blank, and no
-- byte is two of these; no byte is both printable and a control; the two case changes undo each other
-- on letters of the other case, and leave every byte that is no letter.
pub record Classified (c : ℕ) : Type 0 where
  pub printable : isprint c ≡ (isalpha c || isdigit c || ispunct c || c == b' ')
  pub punctuation : (ispunct c && (isalnum c || c == b' ')) ≡ false
  pub controls : (isprint c && iscntrl c) ≡ false
  pub hexadecimal : (isxdigit c && (ispunct c || isspace c)) ≡ false
  pub up_down : islower c ≡ true → (tolower (toupper c) ≡ c) × (isupper (toupper c) ≡ true)
  pub down_up : isupper c ≡ true → (toupper (tolower c) ≡ c) × (islower (tolower c) ≡ true)
  pub others : isalpha c ≡ false → (toupper c ≡ c) × (tolower c ≡ c)

-- The character classes and case changes of every byte fit together, as `Classified` lists.
pub classes_lem : (c : ℕ) → Classified c
classes_lem c = record {
  printable = ground arith;
  punctuation = ground arith;
  controls = ground arith;
  hexadecimal = ground arith;
  up_down = ground arith;
  down_up = ground arith;
  others = ground arith;
}
