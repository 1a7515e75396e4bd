-- ===== src/Hal/Timer.antt =====
-- The microsecond waits of c/hal.c, on the system timer's 32-bit counter.
use haskell_os.Base.{
  ℕ, ◌+◌, ◌*◌, ◌^◌, ◌<◌, ◌≤◌, ◌≡◌, arith, ltb, if◌then◌else◌, List, [], ◌∷◌, ◌++◌, All, u32, sub32,
}
use haskell_os.Base.Io.{M, Trace, done, waiting, rd, after, ◌>>=◌, timer_get_usec}

abbrev pub timer_clo : ℕ
timer_clo = 0x2000_3004

module _ {S : Type 0} where
  -- `while ((timer_get_usec() - start) < us);`
  unfoldable pub spin : ℕ → ℕ → M S (Unit {0})
  spin start us s [] = waiting []
  spin start us s (now ∷ ins) =
      let rest = after (rd timer_clo now ∷ []) (spin start us s ins) in
      if ltb (sub32 now start) us then rest else done tt s ins (rd timer_clo now ∷ [])

  unfoldable pub delay_us : ℕ → M S (Unit {0})
  unfolding spin
  delay_us us = do start ← timer_get_usec; spin start us

  unfoldable pub delay_ms : ℕ → M S (Unit {0})
  unfolding delay_us
  delay_ms ms = delay_us (u32 (ms * 1000))

abbrev loads : List ℕ → Trace
loads [] = []
loads (t ∷ ts) = rd timer_clo (u32 t) ∷ loads ts

abbrev words : List ℕ → List ℕ → List ℕ
words [] rest = rest
words (t ∷ ts) rest = u32 t ∷ words ts rest

spin-loads :
    {S : Type 0} (s : S) (start us now : ℕ) (early rest : List ℕ)
    → us < 2 ^ 32
    → All (λ t. (start ≤ t) × (t < start + us)) early
    → start + us ≤ now
    → now < start + 2 ^ 32
    → spin (u32 start) us s (words early (u32 now ∷ rest))
      ≡ done tt s rest (loads early ++ (rd timer_clo (u32 now) ∷ []))
unfolding spin
spin-loads s start us now [] rest hus h lo hi = ground arith
spin-loads s start us now (t ∷ early) rest hus h lo hi =
    ground (arith, spin-loads s start us now early rest hus h.1 lo hi)

-- Let the true time at the first load be `start`, and the counter show the low word of the true
-- time. Through loads at which less than `us` microseconds have passed, `c_delay_us` goes on; at the
-- first load after that, if it comes within one turn of the counter, it returns. So the counter's
-- wrap does not cut a wait short.
pub delay_us-loads :
    {S : Type 0} (s : S) (us start now : ℕ) (early rest : List ℕ)
    → us < 2 ^ 32
    → All (λ t. (start ≤ t) × (t < start + us)) early
    → start + us ≤ now
    → now < start + 2 ^ 32
    → delay_us us s (u32 start ∷ words early (u32 now ∷ rest))
      ≡ done tt s rest (rd timer_clo (u32 start) ∷ loads early ++ (rd timer_clo (u32 now) ∷ []))
unfolding delay_us
delay_us-loads s us start now early rest hus h lo hi =
    rw (spin-loads s start us now early rest hus h lo hi)
