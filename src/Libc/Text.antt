-- ===== src/Libc/Text.antt =====
-- The string functions of c/rts-stubs.c, on a memory of bytes; `char` is unsigned on this target. A
-- loop that runs to a zero byte takes fuel, and `none` means that the fuel ran out.
pub mod Length
pub mod Order
pub mod Copy
pub mod Find
use haskell_os.Base.{
  ℕ, zero, suc, ◌+◌, ◌-◌, ltb, ◌==◌, not, ◌&&◌, ◌||◌, if◌then◌else◌, u8, Option, none, some, Bool,
}
use haskell_os.Base.Int.{ℤ, pos}
use haskell_os.Hal.Heap.{Memory, store8}
use haskell_os.Libc.Memory.{byte_diff}

infixl 5 ◌>>=◌
abbrev pub ◌>>=◌ : {A B : Type 0} → Option A → (A → Option B) → Option B
none >>= k = none
some a >>= k = k a

-- `while (*s++) n++;`
unfoldable pub strlen_loop : ℕ → Memory → ℕ → ℕ → Option ℕ
strlen_loop zero m s n = none
strlen_loop (suc fuel) m s n =
    let rest = strlen_loop fuel m (s + 1) (n + 1) in if m s == 0 then some n else rest

unfoldable pub strlen : ℕ → Memory → ℕ → Option ℕ
unfolding strlen_loop
strlen fuel m s = strlen_loop fuel m s 0

unfoldable pub strcmp : ℕ → Memory → ℕ → ℕ → Option ℤ
strcmp zero m a b = none
strcmp (suc fuel) m a b =
    let rest = strcmp fuel m (a + 1) (b + 1) in
    if not (m a == 0) && m a == m b then rest else some (byte_diff (m a) (m b))

-- The count `n` bounds the loop.
unfoldable pub strncmp : Memory → ℕ → ℕ → ℕ → ℤ
strncmp m a b zero = pos 0
strncmp m a b (suc n) =
    let rest = strncmp m (a + 1) (b + 1) n in
    if not (m a == 0) && m a == m b then rest else byte_diff (m a) (m b)

-- `while ((*d++ = *s++));`
unfoldable pub strcpy : ℕ → Memory → ℕ → ℕ → Option Memory
strcpy zero m d s = none
strcpy (suc fuel) m d s =
    let rest = strcpy fuel (store8 m d (m s)) (d + 1) (s + 1) in
    if m s == 0 then some (store8 m d (m s)) else rest

-- `while (n--) *d++ = '\0';`
unfoldable pub pad : Memory → ℕ → ℕ → Memory
pad m d zero = m
pad m d (suc n) = pad (store8 m d 0) (d + 1) n

-- The copying loop decrements `n` only behind a byte that is not zero.
unfoldable pub strncpy : Memory → ℕ → ℕ → ℕ → Memory
unfolding pad
strncpy m d s zero = m
strncpy m d s (suc n) =
    let rest = strncpy (store8 m d (m s)) (d + 1) (s + 1) n in
    if m s == 0 then pad (store8 m d (m s)) (d + 1) (suc n) else rest

-- `while (*d) d++;`
unfoldable pub skip : ℕ → Memory → ℕ → Option ℕ
skip zero m d = none
skip (suc fuel) m d = let rest = skip fuel m (d + 1) in if m d == 0 then some d else rest

unfoldable pub strcat : ℕ → Memory → ℕ → ℕ → Option Memory
unfolding skip strcpy
strcat fuel m d s = do end ← skip fuel m d; strcpy fuel m end s

-- A result of 0 is the null pointer.
unfoldable pub strchr : ℕ → Memory → ℕ → ℕ → Option ℕ
strchr zero m s c = none
strchr (suc fuel) m s c =
    let rest = strchr fuel m (s + 1) c in
    if m s == 0 then some (if c == 0 then s else 0) else if m s == u8 c then some s else rest

unfoldable pub strrchr_loop : ℕ → Memory → ℕ → ℕ → ℕ → Option ℕ
strrchr_loop zero m s c last = none
strrchr_loop (suc fuel) m s c last =
    let rest = strrchr_loop fuel m (s + 1) c (if m s == u8 c then s else last) in
    if m s == 0 then some (if c == 0 then s else last) else rest

unfoldable pub strrchr : ℕ → Memory → ℕ → ℕ → Option ℕ
unfolding strrchr_loop
strrchr fuel m s c = strrchr_loop fuel m s c 0

-- `while (*a && *b && *a == *b) { a++; b++; }`, with whether `*b` is zero at its end.
unfoldable pub matches : ℕ → Memory → ℕ → ℕ → Option Bool
matches zero m a b = none
matches (suc fuel) m a b =
    let rest = matches fuel m (a + 1) (b + 1) in
    if not (m a == 0) && not (m b == 0) && m a == m b then rest else some (m b == 0)

-- The outer loop, whose rounds and inner loops share the fuel.
unfoldable pub strstr_loop : ℕ → Memory → ℕ → ℕ → Option ℕ
strstr_loop zero m h n = none
strstr_loop (suc fuel) m h n =
    let rest = strstr_loop fuel m (h + 1) n in
    if m h == 0
    then some 0
    else (matches (suc fuel) m h n >>= λ found. if found then some h else rest)

unfoldable pub strstr : ℕ → Memory → ℕ → ℕ → Option ℕ
unfolding strstr_loop
strstr fuel m h n = if m n == 0 then some h else strstr_loop fuel m h n
