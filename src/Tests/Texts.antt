-- ===== src/Tests/Texts.antt =====
-- The string functions of c/rts-stubs.c on concrete texts.
use haskell_os.Base.{ℕ, ◌-◌, ◌≡◌, inr, arith, List, [], ◌∷◌, ◌++◌, get_or, ltb, if◌then◌else◌}
use haskell_os.Hal.Heap.{Memory}
use haskell_os.Libc.Text.{strncpy}
use haskell_os.Libc.Text.Length.{IsText}
use haskell_os.Libc.Text.Copy.{strncpy-padded}

abbrev banana : List ℕ
banana = b'b' ∷ b'a' ∷ b'n' ∷ b'a' ∷ b'n' ∷ b'a' ∷ []

abbrev nab : List ℕ
nab = b'n' ∷ b'a' ∷ b'b' ∷ []

abbrev nan : List ℕ
nan = b'n' ∷ b'a' ∷ b'n' ∷ []

-- "banana" at 100, "nab" at 200, "nan" at 300, and 1 elsewhere between them.
abbrev texts : Memory
texts q =
    if ltb q 107
    then get_or (banana ++ (0 ∷ [])) (q - 100) 1
    else if ltb q 210
    then get_or (nab ++ (0 ∷ [])) (q - 200) 1
    else get_or (nan ++ (0 ∷ [])) (q - 300) 1

banana-IsText : IsText texts 100 banana
banana-IsText = ground arith

nab-IsText : IsText texts 200 nab
nab-IsText = ground arith

nan-IsText : IsText texts 300 nan
nan-IsText = ground arith

-- Six bytes were asked for, and the seventh is cleared.
strncpy-padded_example : strncpy texts 400 200 6 406 ≡ 0
strncpy-padded_example = strncpy-padded 6 nab texts 400 200 406 nab-IsText (inr (omega arith))
