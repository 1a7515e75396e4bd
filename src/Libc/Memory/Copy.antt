-- ===== src/Libc/Memory/Copy.antt =====
-- Filling and copying, byte by byte.
use haskell_os.Base.{
  ℕ, zero, suc, ◌+◌, ◌-◌, ◌≤◌, ◌≡◌, ◌⊎◌, arith, Bool, ◌&&◌, leb, ltb, if◌then◌else◌, u8, ap,
}
use haskell_os.Hal.Heap.{Memory, store8}
use haskell_os.Libc.Memory.{memset, memcpy, copy_down, memmove}

-- Whether the address `q` lies in the `n` bytes from `p` on.
abbrev pub within : ℕ → ℕ → ℕ → Bool
within p n q = leb p q && ltb q (p + n)

-- `memset` stores the low byte of `c` into exactly its `n` bytes.
pub memset_lem :
    (n : ℕ) (m : Memory) (s c q : ℕ) → memset m s c n q ≡ (if within s n q then u8 c else m q)
unfolding memset
memset_lem zero m s c q = ground arith
memset_lem (suc n) m s c q = ground (arith, memset_lem n (store8 m s (u8 c)) (s + 1) c q)

-- What a copy is to leave: the `n` bytes at `d` are those that were at `s`, and no other byte changes.
abbrev pub copied : Memory → ℕ → ℕ → ℕ → Memory
copied m d s n q = if within d n q then m (s + (q - d)) else m q

up_lem :
    (n : ℕ) (m : Memory) (d s q : ℕ) → (d ≤ s) ⊎ (s + n ≤ d) → memcpy m d s n q ≡ copied m d s n q
unfolding memcpy
up_lem zero m d s q h = ground arith
up_lem (suc n) m d s q h = ground (
  arith,
  up_lem n (store8 m d (m s)) (d + 1) (s + 1) q (ground arith),
  ap m {x = s} {y = s + (q - d)},
)

down_lem : (n : ℕ) (m : Memory) (d s q : ℕ) → s ≤ d → copy_down m d s n q ≡ copied m d s n q
unfolding copy_down
down_lem zero m d s q h = ground arith
down_lem (suc n) m d s q h = ground (arith, down_lem n (store8 m (d + n) (m (s + n))) d s q h)

-- `memcpy` copies when the destination starts at or below the source, or behind its end.
pub memcpy-copied :
    (m : Memory) (d s n q : ℕ) → (d ≤ s) ⊎ (s + n ≤ d) → memcpy m d s n q ≡ copied m d s n q
memcpy-copied m d s n q h = up_lem n m d s q h

-- `memmove` copies however the two objects overlap.
pub memmove-copied : (m : Memory) (d s n q : ℕ) → memmove m d s n q ≡ copied m d s n q
unfolding memmove
memmove-copied m d s n q = ground (arith, up_lem n m d s q, down_lem n m d s q)
