-- ===== src/Libc/Memory.antt =====
-- The memory functions of c/rts-stubs.c, on a memory of bytes. The objects do not reach round the end
-- of the address space, so a pointer that steps through one does not wrap.
pub mod Copy
pub mod Compare
use haskell_os.Base.{ℕ, zero, suc, ◌+◌, ◌-◌, ◌%◌, ltb, ◌==◌, if◌then◌else◌, u8}
use haskell_os.Base.Int.{ℤ, pos, minus}
use haskell_os.Hal.Heap.{Memory, store8}

-- `while (n--) *p++ = (unsigned char)c;`
unfoldable pub memset : Memory → ℕ → ℕ → ℕ → Memory
memset m s c zero = m
memset m s c (suc n) = memset (store8 m s (u8 c)) (s + 1) c n

-- `while (n--) *dd++ = *ss++;`
unfoldable pub memcpy : Memory → ℕ → ℕ → ℕ → Memory
memcpy m d s zero = m
memcpy m d s (suc n) = memcpy (store8 m d (m s)) (d + 1) (s + 1) n

-- `while (n--) *--dd = *--ss;`, where the pointers stand `n` bytes above `d` and `s`.
unfoldable pub copy_down : Memory → ℕ → ℕ → ℕ → Memory
copy_down m d s zero = m
copy_down m d s (suc n) = copy_down (store8 m (d + n) (m (s + n))) d s n

unfoldable pub memmove : Memory → ℕ → ℕ → ℕ → Memory
unfolding memcpy copy_down
memmove m d s n = if ltb d s then memcpy m d s n else copy_down m d s n

-- `*aa - *bb`, of two bytes.
abbrev pub byte_diff : ℕ → ℕ → ℤ
byte_diff a b = if ltb a b then minus (b - a) else pos (a - b)

unfoldable pub memcmp : Memory → ℕ → ℕ → ℕ → ℤ
memcmp m a b zero = pos 0
memcmp m a b (suc n) =
    let rest = memcmp m (a + 1) (b + 1) n in if m a == m b then rest else byte_diff (m a) (m b)
