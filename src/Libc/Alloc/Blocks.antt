-- ===== src/Libc/Alloc/Blocks.antt =====
-- What `malloc`, `calloc` and `realloc` give, when the heap has room.
use native.Mathlib.Nat.{mod-eq_of_lt}
use haskell_os.Base.{
  ℕ, ◌+◌, ◌-◌, ◌*◌, ◌%◌, ◌^◌, ◌<◌, ◌≤◌, ◌≡◌, ◌≢◌, ◌⊎◌, inl, inr, refl, ◌∙◌, ap, arith, true, false,
  ◌==◌, List, [], u32,
}
use haskell_os.Base.Io.{Outcome, done, and_then, ◌>>◌, pure, modify}
use haskell_os.Hal.Heap.{Heap, Memory, store32}
use haskell_os.Hal.Heap.Alloc.{
  IsHeap, Allocated, allocated, out_of_memory, unprinted, kmalloc-Allocated,
}
use haskell_os.Libc.Memory.{memset, memcpy}
use haskell_os.Libc.Memory.Copy.{within, memset_lem, memcpy-copied}
use haskell_os.Libc.Alloc.{load32, in_memory, malloc, calloc, realloc, to_copy}

-- At `p` stands a block of `n` bytes that `malloc` has handed out: below the heap's pointer, with its
-- size in front.
pub record IsBlock (h : Heap) (p n : ℕ) : Type 0 where
  pub aligned : p % 8 ≡ 0
  pub headed : 8 ≤ p
  pub inside : p + n ≤ h.heap_ptr
  pub size : load32 h.memory (p - 8) ≡ n

-- The step from the heap `h` to `h'` made a block of `n` bytes at `p`, above all that was in use, and
-- kept what was there.
pub record IsFresh (h : Heap) (p n : ℕ) (h' : Heap) : Type 0 where
  pub block : IsBlock h' p n
  pub heap : IsHeap h'
  pub ends : h'.heap_end ≡ h.heap_end
  pub above : h.heap_ptr + 8 ≤ p
  pub kept : (q : ℕ) → q < h.heap_ptr → h'.memory q ≡ h.memory q

-- Room for a block, its header and the rounding.
abbrev pub HasRoom : Heap → ℕ → Type 0
HasRoom h n = h.heap_ptr + 15 + n ≤ h.heap_end

load32-store32 : (m : Memory) (a w : ℕ) → w < 2 ^ 32 → load32 (store32 m a w) a ≡ w
load32-store32 m a w h = ground arith

store32-other : (m : Memory) (a w q : ℕ) → (q < a) ⊎ (a + 3 < q) → store32 m a w q ≡ m q
store32-other m a w q h = ground arith

data Mallocs (h : Heap) (n : ℕ) (ins : List ℕ) : Outcome Heap ℕ → Type 0 where
  mallocs : {p : ℕ} {h' : Heap} → IsFresh h p n h' → Mallocs h n ins (done p h' ins [])

with_header :
    (h : Heap) (n : ℕ) (ins : List ℕ)
    → HasRoom h n
    → IsHeap h
    → {o : Outcome Heap ℕ} → Allocated h (n + 8) ins o
    → Mallocs h n ins
        (and_then o (λ raw. modify (in_memory (λ m. store32 m raw n)) >> pure (raw + 8)))
with_header h n ins room ok (allocated {p = raw} {h' = g} r e f gok m) = mallocs (record {
  block = record {
    aligned = omega (arith, r.multiple);
    headed = omega arith;
    inside = omega arith;
    size =
        ap (λ (t : ℕ). load32 (store32 g.memory raw n) t) {x = raw + 8 - 8} {y = raw} (omega arith)
        ∙ load32-store32 g.memory raw n (omega (arith, ok.low));
  };
  heap = record { inside = gok.inside; low = gok.low };
  ends = f;
  above = omega (arith, r.above);
  kept = λ q l.
      store32-other g.memory raw n q (inl (omega (arith, r.above))) ∙ m q ∙ ground (arith, r.above);
})
with_header h n ins room ok (out_of_memory full s) = absurd (omega arith)
with_header h n ins room ok (unprinted full s) = absurd (omega arith)

malloc-Mallocs :
    (h : Heap) (n : ℕ) (ins : List ℕ) → HasRoom h n → IsHeap h → Mallocs h n ins (malloc n h ins)
unfolding malloc
malloc-Mallocs h n ins room ok =
    rw (mod-eq_of_lt {n = n + 8} {m = 2 ^ 32} (omega (arith, ok.low)))
      (with_header h n ins room ok (kmalloc-Allocated h (n + 8) ins ok (omega (arith, ok.low))))

returned :
    (h : Heap) (n : ℕ) (ins : List ℕ) {o : Outcome Heap ℕ}
    → Mallocs h n ins o
    → (p : ℕ) × (h' : Heap) × (o ≡ done p h' ins []) × IsFresh h p n h'
returned h n ins (mallocs {p = p} {h' = h'} f) = (p, h', refl, f)

-- With room for the block, its header and the rounding, `malloc` returns a fresh block aligned to 8
-- bytes, with its size in its header, above all that was in use; the memory that was in use is as
-- before.
pub malloc-IsFresh :
    (h : Heap) (n : ℕ) (ins : List ℕ)
    → HasRoom h n
    → IsHeap h
    → (p : ℕ) × (h' : Heap) × (malloc n h ins ≡ done p h' ins []) × IsFresh h p n h'
malloc-IsFresh h n ins room ok = returned h n ins (malloc-Mallocs h n ins room ok)

-- A change of memory inside a fresh block keeps it one.
IsFresh-in_memory :
    (h : Heap) (p n : ℕ) (g : Heap) (f : Memory → Memory)
    → IsFresh h p n g
    → ((q : ℕ) → within p n q ≡ false → f g.memory q ≡ g.memory q)
    → IsFresh h p n (in_memory f g)
IsFresh-in_memory h p n g f fresh out = record {
  block = record {
    aligned = fresh.block.aligned;
    headed = fresh.block.headed;
    inside = fresh.block.inside;
    size = ground (
      arith,
      fresh.block.size,
      fresh.block.headed,
      out (p - 8),
      out (p - 8 + 1),
      out (p - 8 + 2),
      out (p - 8 + 3),
    );
  };
  heap = record { inside = fresh.heap.inside; low = fresh.heap.low };
  ends = fresh.ends;
  above = fresh.above;
  kept = λ q l. out q (ground (arith, fresh.above)) ∙ fresh.kept q l;
}

-- With room, and a product that does not wrap, `calloc` returns a fresh block whose bytes are all 0,
-- those behind the last whole word too.
pub calloc-zero :
    (h : Heap) (nmemb size : ℕ) (ins : List ℕ)
    → HasRoom h (nmemb * size)
    → IsHeap h
    → (p : ℕ) × (h' : Heap) × (calloc nmemb size h ins ≡ done p h' ins [])
      × IsFresh h p (nmemb * size) h'
      × ((q : ℕ) → within p (nmemb * size) q ≡ true → h'.memory q ≡ 0)
unfolding calloc
calloc-zero h nmemb size ins room ok =
    let n = nmemb * size in
    let (p, g, e, fresh) = malloc-IsFresh h n ins room ok in
    let fits : u32 n ≡ n = mod-eq_of_lt (omega (arith, ok.low)) in
    rw (fits, e)
      (
        p,
        in_memory (λ m. memset m p 0 n) g,
        refl,
        IsFresh-in_memory h p n g (λ m. memset m p 0 n) fresh
            (λ q out. ground (arith, memset_lem n g.memory p 0 q)),
        λ q inn. ground (arith, memset_lem n g.memory p 0 q),
      )

-- With room, `realloc` of a block returns a fresh block of the new size that starts with the old
-- one's bytes, as many as both have; the old block is left as it was.
pub realloc-copied :
    (h : Heap) (ptr old size : ℕ) (ins : List ℕ)
    → IsBlock h ptr old
    → size ≢ 0
    → HasRoom h size
    → IsHeap h
    → (p : ℕ) × (h' : Heap) × (realloc ptr size h ins ≡ done p h' ins [])
      × IsFresh h p size h'
      × ((i : ℕ) → i < to_copy old size → h'.memory (p + i) ≡ h.memory (ptr + i))
unfolding realloc
realloc-copied h ptr old size ins b nz room ok =
    let (p, g, e, fresh) = malloc-IsFresh h size ins room ok in
    let k = to_copy old size in
    let copy =
      λ (q : ℕ). memcpy-copied g.memory p ptr k q (inr (ground (arith, b.inside, fresh.above))) in
    let positive : (size == 0) ≡ false = ground arith in
    let pointer : (ptr == 0) ≡ false = ground (arith, b.headed) in
    rw (positive, pointer, b.size, e)
      (
        p,
        in_memory (λ m. memcpy m p ptr k) g,
        refl,
        IsFresh-in_memory h p size g (λ m. memcpy m p ptr k) fresh
            (λ q out. ground (arith, copy q)),
        λ i l. ground (
          arith,
          copy (p + i),
          ap g.memory {x = ptr + (p + i - p)} {y = ptr + i} (omega arith),
          fresh.kept (ptr + i),
          b.inside,
        ),
      )
