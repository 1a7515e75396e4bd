-- ===== src/Libc/Text/Copy.antt =====
-- Copying texts: `strcpy` and `strcat` into another object, and what `strncpy` stores.
use mathlib.Core.Path.{subst}
use native.Mathlib.Nat.{add-zero}
use haskell_os.Base.{
  ℕ, zero, suc, ◌+◌, ◌-◌, ◌<◌, ◌≤◌, ◌≡◌, ◌≢◌, ◌⊎◌, inl, inr, refl, ◌∙◌, sym, ap, arith, false, ◌==◌,
  ◌&&◌, ltb, List, [], ◌∷◌, ◌++◌, length, some, if◌then◌else◌, min, Bool-cases, ==_iff,
}
use haskell_os.Hal.Heap.{Memory, store8}
use haskell_os.Libc.Memory.{memcpy}
use haskell_os.Libc.Memory.Copy.{within, copied, memcpy-copied}
use haskell_os.Libc.Text.{strcpy, strncpy, pad, strcat}
use haskell_os.Libc.Text.Length.{IsText, IsText-store8, IsText-moved, skip-length}

-- Two objects of `a` bytes at `d` and `b` bytes at `s` share none.
abbrev pub Disjoint : ℕ → ℕ → ℕ → ℕ → Type 0
Disjoint d a s b = (d + a ≤ s) ⊎ (s + b ≤ d)

strcpy-memcpy :
    (xs : List ℕ) (fuel : ℕ) (m : Memory) (d s : ℕ)
    → IsText m s xs
    → Disjoint d (length xs + 1) s (length xs + 1)
    → length xs < fuel
    → strcpy fuel m d s ≡ some (memcpy m d s (suc (length xs)))
unfolding strcpy memcpy
strcpy-memcpy xs zero m d s t ok h = absurd (omega arith)
strcpy-memcpy [] (suc fuel) m d s t ok h = ground arith
strcpy-memcpy (x ∷ xs) (suc fuel) m d s t ok h = ground (
  arith,
  strcpy-memcpy xs fuel (store8 m d (m s)) (d + 1) (s + 1)
      (IsText-store8 xs m (s + 1) d (m s) t.2 (ground arith)) (ground arith) (omega arith),
)

-- `strcpy` into a disjoint object returns, leaves the text there, and changes only the text's bytes
-- and its zero.
pub strcpy-IsText :
    (xs : List ℕ) (fuel : ℕ) (m : Memory) (d s : ℕ)
    → IsText m s xs
    → Disjoint d (length xs + 1) s (length xs + 1)
    → length xs < fuel
    → (m' : Memory) × (strcpy fuel m d s ≡ some m')
      × IsText m' d xs
      × ((q : ℕ) → within d (length xs + 1) q ≡ false → m' q ≡ m q)
strcpy-IsText xs fuel m d s t ok h = (
  memcpy m d s (suc (length xs)),
  strcpy-memcpy xs fuel m d s t ok h,
  IsText-moved xs m _ s d t
      (λ i l. ground (arith, copy (d + i), ap m {x = s + (d + i - d)} {y = s + i} (omega arith))),
  λ q out. ground (arith, copy q),
)
  where
    copy : (q : ℕ) → memcpy m d s (suc (length xs)) q ≡ copied m d s (suc (length xs)) q
    copy q = memcpy-copied m d s (suc (length xs)) q (ground arith)

-- A text that is still there, with another right behind it.
IsText-append :
    (xs ys : List ℕ) (m m' : Memory) (p e : ℕ)
    → IsText m p xs
    → ((i : ℕ) → i < length xs → m' (p + i) ≡ m (p + i))
    → e ≡ p + length xs
    → IsText m' e ys
    → IsText m' p (xs ++ ys)
IsText-append [] ys m m' p e t kept end u = rw (sym (add-zero p)) (rw (← end) u)
IsText-append (x ∷ xs) ys m m' p e t kept end u = (
  ground (
    arith,
    kept 0,
    ap m {x = p + 0} {y = p} (omega arith),
    ap m' {x = p + 0} {y = p} (omega arith),
  ),
  t.1,
  IsText-append xs ys m m' (p + 1) e t.2
      (λ i l.
        ap m' {x = p + 1 + i} {y = p + (i + 1)} (omega arith)
        ∙ kept (i + 1) (omega arith)
        ∙ ap m {x = p + (i + 1)} {y = p + 1 + i} (omega arith))
      (omega arith) u,
)

-- `strcat` of two texts in disjoint objects, the first with room for both, returns and leaves their
-- concatenation in the first object; it changes no byte but those behind the first text.
pub strcat-append :
    (xs ys : List ℕ) (fuel : ℕ) (m : Memory) (d s : ℕ)
    → IsText m d xs
    → IsText m s ys
    → Disjoint d (length xs + length ys + 1) s (length ys + 1)
    → length xs < fuel
    → length ys < fuel
    → (m' : Memory) × (strcat fuel m d s ≡ some m')
      × IsText m' d (xs ++ ys)
      × ((q : ℕ) → within (d + length xs) (length ys + 1) q ≡ false → m' q ≡ m q)
unfolding strcat
strcat-append xs ys fuel m d s t u ok hx hy =
    let (m', e, v, same) = strcpy-IsText ys fuel m (d + length xs) s u (ground arith) hy in
    (
      m',
      rw (skip-length xs fuel m d t hx) e,
      IsText-append xs ys m m' d (d + length xs) t (λ i l. same (d + i) (ground arith)) refl v,
      same,
    )

pad_lem : (n : ℕ) (m : Memory) (d q : ℕ) → pad m d n q ≡ (if within d n q then 0 else m q)
unfolding pad
pad_lem zero m d q = ground arith
pad_lem (suc n) m d q = ground (arith, pad_lem n (store8 m d 0) (d + 1) q)

-- What `strncpy` of a text of `l` bytes leaves at `q`: the text, with its zero if it is shorter than
-- `n`, then zeros up to and including the byte `n` bytes on.
abbrev pub padded : Memory → ℕ → ℕ → ℕ → ℕ → Memory
padded m d s l n q =
    if within d (min n (l + 1)) q
    then m (s + (q - d))
    else if ltb l n && within d (n + 1) q
    then 0
    else m q

padded_self : (m : Memory) (d s l n : ℕ) → padded m d s (suc l) (suc n) d ≡ m s
padded_self m d s l n = ground (arith, ap m {x = s} {y = s + (d - d)})

padded-suc :
    (m : Memory) (d s l n q v : ℕ)
    → Disjoint d (suc n + 1) s (suc l + 1)
    → d ≢ q
    → padded (store8 m d v) (d + 1) (s + 1) l n q ≡ padded m d s (suc l) (suc n) q
padded-suc m d s l n q v ok ne = ground (arith, ap m {x = s + 1 + (q - (d + 1))} {y = s + (q - d)})

padded-below : (m : Memory) (d s l n v : ℕ) → padded (store8 m d v) (d + 1) (s + 1) l n d ≡ v
padded-below m d s l n v = ground arith

strncpy-suc :
    (m : Memory) (d s n : ℕ)
    → m s ≢ 0
    → strncpy m d s (suc n) ≡ strncpy (store8 m d (m s)) (d + 1) (s + 1) n
unfolding strncpy
strncpy-suc m d s n h = ground arith

-- `strncpy` into a disjoint object copies `n` bytes of a text that has as many. Of a shorter text it
-- copies all and its zero, and pads with zeros, one too many: it stores into `n + 1` bytes.
pub strncpy-padded :
    (n : ℕ) (xs : List ℕ) (m : Memory) (d s q : ℕ)
    → IsText m s xs
    → Disjoint d (n + 1) s (length xs + 1)
    → strncpy m d s n q ≡ padded m d s (length xs) n q
unfolding strncpy
strncpy-padded zero xs m d s q t ok = ground arith
strncpy-padded (suc n) [] m d s q t ok =
    ground (arith, pad_lem (suc n) (store8 m d (m s)) (d + 1) q, ap m {x = s} {y = s + (q - d)})
strncpy-padded (suc n) (x ∷ xs) m d s q t ok =
    ap (λ (g : Memory). g q) (strncpy-suc m d s n (ground arith))
    ∙ strncpy-padded n xs (store8 m d (m s)) (d + 1) (s + 1) q
        (IsText-store8 xs m (s + 1) d (m s) t.2 (ground arith)) (ground arith)
    ∙ elim (Bool-cases (d == q)) [
      | inl e ↦
          subst
            (λ (t : ℕ).
              padded (store8 m d (m s)) (d + 1) (s + 1) (length xs) n t
              ≡ padded m d s (suc (length xs)) (suc n) t)
            ((==_iff d q).0 e)
            (padded-below m d s (length xs) n (m s) ∙ sym (padded_self m d s (length xs) n))
      | inr e ↦ padded-suc m d s (length xs) n q (m s) ok (λ p. ground (arith, (==_iff d q).1 p))
    ]
