-- ===== src/Hal/Rx/Queue.antt =====
-- The receive buffer is a first-in first-out queue of at most 255 bytes.
use haskell_os.Base.{
  ℕ, zero, suc, ◌+◌, ◌-◌, ◌%◌, ◌^◌, ◌<◌, ◌≡◌, ◌≢◌, refl, ◌∙◌, ap, ap₂, arith, false, ◌==◌,
  if◌then◌else◌, List, [], ◌∷◌, ◌++◌, length, get_or, set, length-set, get_or-set_self,
  get_or-set_ne, u8, u32, Bool-cases, inl, inr,
}
use haskell_os.Hal.Rx.{Irq, rx_buf_push, rx_buf_pop}

-- The indices stay inside the array.
pub record IsValid (s : Irq) : Type 0 where
  pub array : length s.rx_buf ≡ 256
  pub head_in : s.rx_head < 256
  pub tail_in : s.rx_tail < 256

-- How many bytes wait, and which, oldest first.
abbrev pub pending : Irq → ℕ
pending s = (s.rx_head + 256 - s.rx_tail) % 256

abbrev pub bytes_from : List ℕ → ℕ → ℕ → List ℕ
bytes_from buf i zero = []
bytes_from buf i (suc n) = get_or buf i 0 ∷ bytes_from buf ((i + 1) % 256) n

abbrev pub received : Irq → List ℕ
received s = bytes_from s.rx_buf s.rx_tail (pending s)

-- The abstract queue: a byte that does not fit is dropped.
abbrev pub enqueue : List ℕ → ℕ → List ℕ
enqueue q c = if length q == 255 then q else q ++ (c ∷ [])

abbrev pub enqueue_all : List ℕ → List ℕ → List ℕ
enqueue_all q [] = q
enqueue_all q (c ∷ cs) = enqueue_all (enqueue q c) cs

-- The value that a read gives, and what it leaves.
abbrev pub dequeue : List ℕ → ℕ × List ℕ
dequeue [] = (0xffff_ffff, [])
dequeue (c ∷ q) = (c, q)

length-bytes_from : (buf : List ℕ) (i n : ℕ) → length (bytes_from buf i n) ≡ n
length-bytes_from buf i zero = refl
length-bytes_from buf i (suc n) = ap suc (length-bytes_from buf ((i + 1) % 256) n)

-- A store right behind the waiting bytes adds one.
bytes_from-set :
    (buf : List ℕ) (c n i k : ℕ)
    → length buf ≡ 256
    → i < 256
    → n < 256
    → k ≡ (i + n) % 256
    → bytes_from (set buf k c) i (suc n) ≡ bytes_from buf i n ++ (c ∷ [])
bytes_from-set buf c zero i k len hi hn e =
    ap (λ (t : ℕ). get_or (set buf t c) i 0 ∷ []) {y = i} (omega arith)
    ∙ ap (λ (t : ℕ). t ∷ []) (get_or-set_self buf i c 0 (omega arith))
bytes_from-set buf c (suc n) i k len hi hn e =
    ap₂ ◌∷◌ (get_or-set_ne buf {i = k} {j = i} c 0 (λ p. omega arith))
      (bytes_from-set buf c n ((i + 1) % 256) k len (omega arith) (omega arith) (omega arith))

bytes_from-pos :
    (buf : List ℕ) (i n : ℕ)
    → n ≢ 0
    → bytes_from buf i n ≡ get_or buf i 0 ∷ bytes_from buf ((i + 1) % 256) (n - 1)
bytes_from-pos buf i zero h = absurd (h refl)
bytes_from-pos buf i (suc n) h = ap (λ (k : ℕ). bytes_from buf i (suc k)) (omega arith)

-- A push keeps the indices inside the array, and adds the low byte of its argument to the queue, or
-- drops it if 255 bytes wait.
pub rx_buf_push-enqueue :
    (ch : ℕ) (s : Irq)
    → IsValid s
    → IsValid (rx_buf_push ch s) × (received (rx_buf_push ch s) ≡ enqueue (received s) (u8 ch))
unfolding rx_buf_push
rx_buf_push-enqueue ch s v = elim (Bool-cases ((s.rx_head + 1) % 2 ^ 32 % 256 == s.rx_tail)) [
  | inl e ↦ rw e (v, ground (arith, length-bytes_from s.rx_buf s.rx_tail (pending s)))
  | inr e ↦ rw e (ground (arith, length-set s.rx_buf s.rx_head (u8 ch)), grown e ∙ kept e)
]
  where
    grown :
        (((s.rx_head + 1) % 2 ^ 32 % 256) == s.rx_tail) ≡ false
        → bytes_from
            (set s.rx_buf s.rx_head (u8 ch))
            s.rx_tail
            (((s.rx_head + 1) % 2 ^ 32 % 256 + 256 - s.rx_tail) % 256)
          ≡ received s ++ (u8 ch ∷ [])
    grown e =
        ap (bytes_from (set s.rx_buf s.rx_head (u8 ch)) s.rx_tail) {y = suc (pending s)}
          (ground arith)
        ∙ bytes_from-set s.rx_buf (u8 ch) (pending s) s.rx_tail s.rx_head v.array v.tail_in
            (omega arith) (omega arith)

    kept :
        (((s.rx_head + 1) % 2 ^ 32 % 256) == s.rx_tail) ≡ false
        → received s ++ (u8 ch ∷ []) ≡ enqueue (received s) (u8 ch)
    kept e = ground (arith, length-bytes_from s.rx_buf s.rx_tail (pending s))

-- A pop gives the oldest byte and takes it out, or gives 0xffffffff and changes nothing if none
-- waits; it keeps the indices inside the array, and of the globals it changes the read index alone,
-- which moves on by one if a byte waits.
pub rx_buf_pop-dequeue :
    (s : Irq)
    → IsValid s
    → IsValid (rx_buf_pop s).1
      × ((((rx_buf_pop s).0, received (rx_buf_pop s).1) ≡ dequeue (received s))
          × ((rx_buf_pop s).1
              ≡ (if pending s == 0 then s else record s { rx_tail = (s.rx_tail + 1) % 256 })))
unfolding rx_buf_pop
rx_buf_pop-dequeue s v = elim (Bool-cases (s.rx_tail == s.rx_head)) [
  | inl e ↦ rw e (v, (ground arith, ground arith))
  | inr e ↦
      rw e (ground arith, (ground (arith, bytes_from-pos s.rx_buf s.rx_tail (pending s)), moved e))
]
  where
    moved :
        (s.rx_tail == s.rx_head) ≡ false
        → record s { rx_tail = u32 (s.rx_tail + 1) % 256 }
          ≡ (if pending s == 0 then s else record s { rx_tail = (s.rx_tail + 1) % 256 })
    moved e = rw (waits e) (
        ap (λ (t : ℕ). record s { rx_tail = t }) {x = u32 (s.rx_tail + 1) % 256}
          {y = (s.rx_tail + 1) % 256} (omega (arith, v.tail_in)))
      where
        waits : (s.rx_tail == s.rx_head) ≡ false → (pending s == 0) ≡ false
        waits e = ground (arith, v.head_in, v.tail_in)
