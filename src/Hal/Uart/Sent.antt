-- ===== src/Hal/Uart/Sent.antt =====
-- What the transmitting functions put on the line, and when they wait.
use mathlib.Core.Path.{subst}
use native.Mathlib.Nat.{mod-eq_of_lt}
use haskell_os.Base.{
  ℕ, ◌+◌, ◌<◌, ◌≡◌, refl, ◌∙◌, ap, arith, Bool, true, false, not, ◌&&◌, ◌==◌, if◌then◌else◌, List,
  [], ◌∷◌, ◌++◌, All, length, length-append, bit_and, u8, bit_and_mask, Bool-cases, inl, inr,
}
use haskell_os.Base.Io.{
  Trace, Outcome, M, done, waiting, rd, wr, barrier, irq_on, irq_off, after, and_then, ◌>>◌, pure,
  put32, dev_barrier,
}
use haskell_os.Hal.Uart.{aux_mu_io_reg, aux_mu_stat_reg, poll_stat, uart_put8, uart_puts, put_buf}

-- The bytes stored to the transmit register, in order.
abbrev pub sent : Trace → List ℕ
sent [] = []
sent (wr a w ∷ t) = if a == aux_mu_io_reg then w ∷ sent t else sent t
sent (rd a v ∷ t) = sent t
sent (barrier ∷ t) = sent t
sent (irq_on ∷ t) = sent t
sent (irq_off ∷ t) = sent t

abbrev pub ready : ℕ → Bool
ready v = not (bit_and v 2 == 0)

-- How many of the answers would let a byte go out.
abbrev pub ready_count : List ℕ → ℕ
ready_count [] = 0
ready_count (v ∷ ins) = (if ready v then 1 else 0) + ready_count ins

-- Every store to the transmit register comes directly after a load that showed room for it. The
-- Boolean says whether the last access was such a load.
abbrev pub paced : Bool → Trace → Bool
paced b [] = true
paced b (wr a w ∷ t) = (if a == aux_mu_io_reg then b else true) && paced false t
paced b (rd a v ∷ t) = paced (a == aux_mu_stat_reg && ready v) t
paced b (barrier ∷ t) = paced false t
paced b (irq_on ∷ t) = paced false t
paced b (irq_off ∷ t) = paced false t

sent-append : (t u : Trace) → sent (t ++ u) ≡ sent t ++ sent u
sent-append [] u = refl
sent-append (wr a w ∷ t) u = ground (arith, sent-append t u)
sent-append (rd a v ∷ t) u = sent-append t u
sent-append (barrier ∷ t) u = sent-append t u
sent-append (irq_on ∷ t) u = sent-append t u
sent-append (irq_off ∷ t) u = sent-append t u

paced-weaken : (b : Bool) (t : Trace) → paced false t ≡ true → paced b t ≡ true
paced-weaken b [] h = refl
paced-weaken b (wr a w ∷ t) h = ground arith
paced-weaken b (rd a v ∷ t) h = h
paced-weaken b (barrier ∷ t) h = h
paced-weaken b (irq_on ∷ t) h = h
paced-weaken b (irq_off ∷ t) h = h

paced-append :
    (b : Bool) (t u : Trace) → paced b t ≡ true → paced false u ≡ true → paced b (t ++ u) ≡ true
paced-append b [] u h k = paced-weaken b u k
paced-append b (wr a w ∷ t) u h k = ground (arith, paced-append false t u)
paced-append b (rd a v ∷ t) u h k = paced-append (a == aux_mu_stat_reg && ready v) t u h k
paced-append b (barrier ∷ t) u h k = paced-append false t u h k
paced-append b (irq_on ∷ t) u h k = paced-append false t u h k
paced-append b (irq_off ∷ t) u h k = paced-append false t u h k

-- The run put exactly `bs` on the line, each byte when there was room for it, used one ready answer
-- for each, and changed no global; or it waits, and there were too few ready answers.
pub data Sends {S : Type 0} (s : S) (ins bs : List ℕ) : Outcome S (Unit {0}) → Type 0 where
  sends :
      {rest : List ℕ} {t : Trace}
      → sent t ≡ bs
      → paced false t ≡ true
      → ready_count rest + length bs ≡ ready_count ins
      → Sends s ins bs (done tt s rest t)
  stalls : {t : Trace} → ready_count ins < length bs → Sends s ins bs (waiting t)

-- The polling loop, up to the answer that lets it go on.
data Polled {S : Type 0} (s : S) (ins : List ℕ) : Outcome S (Unit {0}) → Type 0 where
  polled :
      {rest : List ℕ} {t : Trace}
      → sent t ≡ []
      → ((b : Bool) (u : Trace) → paced b (t ++ u) ≡ paced true u)
      → ready_count rest + 1 ≡ ready_count ins
      → Polled s ins (done tt s rest t)
  starved : {t : Trace} → ready_count ins ≡ 0 → Polled s ins (waiting t)

-- The bytes that stand for a text on the line: a carriage return before each newline.
abbrev pub crlf : List ℕ → List ℕ
crlf [] = []
crlf (c ∷ cs) = if c == b'\n' then b'\r' ∷ c ∷ crlf cs else c ∷ crlf cs

module _ {S : Type 0} (s : S) where
  after-Polled :
      (v : ℕ) {ins : List ℕ} {o : Outcome S (Unit {0})}
      → ready v ≡ false
      → Polled s ins o
      → Polled s (v ∷ ins) (after (rd aux_mu_stat_reg v ∷ []) o)
  after-Polled v e (polled a b c) = polled a (λ b' u. b (ready v) u) (ground arith)
  after-Polled v e (starved c) = starved (ground arith)

  poll_stat-Polled : (ins : List ℕ) → Polled s ins (poll_stat 2 s ins)
  unfolding poll_stat
  poll_stat-Polled [] = starved refl
  poll_stat-Polled (v ∷ ins) = elim (Bool-cases (bit_and v 2 == 0)) [
    | inl e ↦ rw e (after-Polled v (ground arith) (poll_stat-Polled ins))
    | inr e ↦ rw e (polled refl (λ b u. ground arith) (ground arith))
  ]

  put8_after :
      (c : ℕ) {ins : List ℕ} {o : Outcome S (Unit {0})}
      → Polled s ins o
      → Sends s ins (u8 c ∷ []) (
          after
            (barrier ∷ [])
            (and_then o (λ _. put32 aux_mu_io_reg (bit_and c 0xff) >> dev_barrier)))
  put8_after c (polled {t = t} a b e) =
      sends (sent-append t _ ∙ rw a (ap (λ (x : ℕ). x ∷ []) (bit_and_mask 8 c))) (b false _) e
  put8_after c (starved e) = stalls (omega arith)

  -- `c_uart_put8` puts the low byte of its argument on the line.
  pub uart_put8-Sends : (c : ℕ) (ins : List ℕ) → Sends s ins (u8 c ∷ []) (uart_put8 c s ins)
  unfolding uart_put8
  uart_put8-Sends c ins = put8_after c (poll_stat-Polled ins)

  pub put8_byte : (c : ℕ) (ins : List ℕ) → c < 256 → Sends s ins (c ∷ []) (uart_put8 c s ins)
  put8_byte c ins h =
      subst (λ (x : ℕ). Sends s ins (x ∷ []) (uart_put8 c s ins)) (mod-eq_of_lt h)
        (uart_put8-Sends c ins)

  pub pure-Sends : (ins : List ℕ) → Sends s ins [] (pure tt s ins)
  pure-Sends ins = sends refl refl (omega arith)

  after-Sends :
      {ins rest bs cs : List ℕ} (t : Trace) {o : Outcome S (Unit {0})}
      → sent t ≡ bs
      → paced false t ≡ true
      → ready_count rest + length bs ≡ ready_count ins
      → Sends s rest cs o
      → Sends s ins (bs ++ cs) (after t o)
  after-Sends {bs = bs} {cs = cs} t a b e (sends {t = u} a' b' e') =
      sends (sent-append t u ∙ rw (a, a')) (paced-append false t u b b')
        (omega (arith, length-append bs cs))
  after-Sends {bs = bs} {cs = cs} t a b e (stalls h) = stalls (omega (arith, length-append bs cs))

  -- One transmission after another.
  pub bind-Sends :
      {ins bs : List ℕ} (cs : List ℕ) {o : Outcome S (Unit {0})} (k : M S (Unit {0}))
      → Sends s ins bs o
      → ((rest : List ℕ) → Sends s rest cs (k s rest))
      → Sends s ins (bs ++ cs) (and_then o (λ _. k))
  bind-Sends cs k (sends {rest = rest} {t = t} a b e) next = after-Sends t a b e (next rest)
  bind-Sends {bs = bs} cs k (stalls h) next = stalls (omega (arith, length-append bs cs))

  -- `uart_puts` puts the low bytes of the text on the line, with a carriage return before each
  -- newline, each byte when the transmitter has shown room for it; it returns exactly when there
  -- are as many ready answers as bytes, and changes no global.
  pub uart_puts-Sends :
      (text ins : List ℕ) → All (λ c. c < 256) text → Sends s ins (crlf text) (uart_puts text s ins)
  unfolding uart_puts
  uart_puts-Sends [] ins h = pure-Sends ins
  uart_puts-Sends (c ∷ cs) ins h =
      let line = λ (rest : List ℕ).
        bind-Sends (crlf cs) (uart_puts cs) (put8_byte c rest h.0)
          (λ r. uart_puts-Sends cs r h.1) in
      elim (Bool-cases (c == b'\n')) [
        | inl e ↦ rw e (
            bind-Sends (c ∷ crlf cs) (uart_put8 c >> uart_puts cs)
              (put8_byte b'\r' ins (omega arith)) line)
        | inr e ↦
            rw e (bind-Sends (c ∷ crlf cs) (uart_put8 c >> uart_puts cs) (pure-Sends ins) line)
      ]

  pub put_buf-Sends :
      (buf ins : List ℕ) → All (λ c. c < 256) buf → Sends s ins buf (put_buf buf s ins)
  unfolding put_buf
  put_buf-Sends [] ins h = pure-Sends ins
  put_buf-Sends (c ∷ cs) ins h =
      bind-Sends cs (put_buf cs) (put8_byte c ins h.0) (λ r. put_buf-Sends cs r h.1)
