-- ===== src/Hal/Heap/Alloc.antt =====
-- What `kmalloc` returns and clears, when it stops, and when its check is passed by a wrap.
use haskell_os.Base.{
  ℕ, zero, suc, ◌+◌, ◌*◌, ◌/◌, ◌^◌, ◌<◌, ◌≤◌, ◌≡◌, refl, arith, false, ◌&&◌, leb, ltb,
  if◌then◌else◌, Bool-cases, inl, inr, List, [], append-nil, u32,
}
use haskell_os.Base.Io.{Outcome, Trace, done, waiting, rebooted, and_then, reboot, after-nil}
use haskell_os.Hal.Uart.Sent.{Sends, sends, stalls, sent, crlf, uart_puts-Sends, ready_count}
use haskell_os.Hal.Heap.{
  Heap, Memory, store32, align_up, zero_words, panic_text, panic, bump, kmalloc,
}
use haskell_os.Hal.Heap.Align.{IsRounded, align_up-IsRounded}

-- The heap lies below 2 GB, and its pointer inside it.
pub record IsHeap (h : Heap) : Type 0 where
  pub inside : h.heap_ptr ≤ h.heap_end
  pub low : h.heap_end ≤ 2 ^ 31

-- The loop clears whole words and touches nothing else.
pub zero_words_lem :
    (n a : ℕ) (m : Memory) (q : ℕ)
    → zero_words n a m q ≡ (if leb a q && ltb q (a + n * 4) then 0 else m q)
unfolding zero_words
zero_words_lem zero a m q = ground arith
zero_words_lem (suc n) a m q = ground (arith, zero_words_lem n (a + 4) (store32 m a 0) q)

-- What an allocation of `n` bytes from the heap `h` comes to.
pub data Allocated (h : Heap) (n : ℕ) (ins : List ℕ) : Outcome Heap ℕ → Type 0 where
  -- A block of `n` bytes inside the heap, from the next multiple of 8 on. Its whole words are 0, and
  -- no other byte of memory has changed.
  allocated :
      {p : ℕ} {h' : Heap}
      → IsRounded h.heap_ptr 8 p
      → h'.heap_ptr ≡ p + n
      → h'.heap_end ≡ h.heap_end
      → IsHeap h'
      → ((q : ℕ) → h'.memory q ≡ (if leb p q && ltb q (p + n / 4 * 4) then 0 else h.memory q))
      → Allocated h n ins (done p h' ins [])
  -- No room: the board reboots after it has printed the message, or still waits to print it.
  out_of_memory :
      {t : Trace}
      → h.heap_end < h.heap_ptr + 7 + n
      → sent t ≡ crlf panic_text
      → Allocated h n ins (rebooted t)
  unprinted :
      {t : Trace}
      → h.heap_end < h.heap_ptr + 7 + n
      → ready_count ins < 32
      → Allocated h n ins (waiting t)

panic-Allocated :
    (h g : Heap) (n : ℕ) (ins : List ℕ)
    → h.heap_end < h.heap_ptr + 7 + n
    → {o : Outcome Heap (Unit {0})} → Sends g ins (crlf panic_text) o
    → Allocated h n ins (and_then o (λ _. reboot))
panic-Allocated h g n ins full (sends {t = t} a b c) = rw append-nil (out_of_memory full a)
panic-Allocated h g n ins full (stalls c) = unprinted full c

-- From a heap that lies below 2 GB, and for a size below 2 GB: `kmalloc` returns a fresh block whose
-- whole words are cleared, or, only when there may be no room for the block, reboots with a message or
-- still waits to print it.
pub kmalloc-Allocated :
    (h : Heap) (n : ℕ) (ins : List ℕ) → IsHeap h → n < 2 ^ 31 → Allocated h n ins (kmalloc n h ins)
unfolding kmalloc bump panic
kmalloc-Allocated h n ins ok small = elim (Bool-cases (ltb h.heap_end (u32 (p + n)))) [
  | inl e ↦
      let g = record h { heap_ptr = p } in
      rw (e, after-nil, after-nil, after-nil)
        (panic-Allocated h g n ins (ground (arith, r.below, r.multiple))
          (uart_puts-Sends g panic_text ins (omega arith)))
  | inr e ↦ rw e (
      allocated r (omega (arith, r.below, r.multiple)) refl
        (record { inside = ground (arith, r.below, r.multiple); low = ok.low })
        (zero_words_lem (n / 4) p h.memory))
]
  where
    p : ℕ
    p = align_up h.heap_ptr 8

    r : IsRounded h.heap_ptr 8 p
    r = align_up-IsRounded 3 h.heap_ptr (omega arith) (omega arith)

-- A size that makes the sum wrap passes the check: `kmalloc` then returns a block that ends beyond
-- the heap and moves the heap's pointer back, below the block.
pub kmalloc-wraps :
    (h : Heap) (n : ℕ) (ins : List ℕ)
    → IsHeap h
    → n < 2 ^ 32
    → 2 ^ 32 ≤ align_up h.heap_ptr 8 + n
    → align_up h.heap_ptr 8 + n ≤ 2 ^ 32 + h.heap_end
    → (h' : Heap) × (kmalloc n h ins ≡ done (align_up h.heap_ptr 8) h' ins [])
      × (h.heap_end < align_up h.heap_ptr 8 + n)
      × (h'.heap_ptr < align_up h.heap_ptr 8)
unfolding kmalloc bump
kmalloc-wraps h n ins ok small wraps low =
    let passes : ltb h.heap_end (u32 (align_up h.heap_ptr 8 + n)) ≡ false = ground arith in
    rw passes (_, refl, omega (arith, ok.low), omega arith)
