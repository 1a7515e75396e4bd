-- ===== src/Eval/Schedule/Preempt.antt =====
-- The check that `evali` of c/eval.c makes before each reduction ends every slice.
use haskell_os.Base.{
  ℕ, zero, suc, ◌-◌, ◌^◌, ◌<◌, ◌≡◌, ◌≢◌, ◌⊎◌, inl, inr, refl, ap, ◌∙◌, arith, ◌==◌, true, not, ◌||◌,
  List, [], ◌∷◌, ◌++◌, sub32, ltb,
}
use haskell_os.Base.Int.{signed32, is_positive}
use haskell_os.Eval.Threads.{Rts, mt_resched}
use haskell_os.Eval.Run.{E, ◌>>◌, pure, returned, jumped, to_scheduler}
use haskell_os.Eval.Moves.{Runs}
use haskell_os.Eval.Schedule.{yield, preempt}
use haskell_os.Eval.Schedule.Turns.{IsQuiet, yield-rotated}

-- The state in which `preempt` calls `yield`.
abbrev charged : Rts → Rts
charged s = record s { glob_slice = sub32 s.glob_slice 1; preempt_pending = 0 }

charged-IsQuiet : (s : Rts) → IsQuiet s → IsQuiet (charged s)
charged-IsQuiet s q = record {
  alive = q.alive;
  no_sleeper = q.no_sleeper;
  not_thrown = q.not_thrown;
}

charged-Runs : (s : Rts) (xs : List ℕ) → Runs s xs → Runs (charged s) xs
charged-Runs s xs v = v

-- The slice is used up by this reduction, or the timer interrupt asked for a switch.
abbrev pub IsOver : Rts → Type 0
IsOver s = (s.glob_slice ≡ 1) ⊎ (s.preempt_pending ≢ 0)

over_test :
    (s : Rts)
    → IsOver s
    → (not (is_positive (signed32 (sub32 s.glob_slice 1))) || not (s.preempt_pending == 0)) ≡ true
over_test s (inl e) = rw e refl
over_test s (inr h) = ground arith

preempt_over : (fuel now : ℕ) (s : Rts) → IsOver s → preempt fuel now s ≡ yield fuel now (charged s)
unfolding preempt
preempt_over fuel now s h = rw (over_test s h) refl

signed32_positive : (n : ℕ) → 0 < n → n < 2 ^ 31 → is_positive (signed32 n) ≡ true
signed32_positive zero h k = absurd (omega arith)
signed32_positive (suc n) h k = rw (below (suc n) k) refl
  where
    below : (m : ℕ) → m < 2 ^ 31 → ltb m (2 ^ 31) ≡ true
    below m h = ground arith

-- A reduction inside the slice only counts.
preempt_inside :
    (fuel now : ℕ) (s : Rts)
    → 1 < s.glob_slice
    → s.glob_slice < 2 ^ 31
    → s.preempt_pending ≡ 0
    → preempt fuel now s ≡ returned tt (record s { glob_slice = s.glob_slice - 1 })
unfolding preempt
preempt_inside fuel now s h k e =
    rw (counted, signed32_positive (s.glob_slice - 1) (omega arith) (omega arith), e) refl
  where
    counted : sub32 s.glob_slice 1 ≡ s.glob_slice - 1
    counted = omega arith

-- As many reductions in a row.
abbrev pub reductions : ℕ → ℕ → ℕ → E (Unit {0})
reductions fuel now zero = pure tt
reductions fuel now (suc n) = preempt fuel now >> reductions fuel now n

-- A reduction that uses up the slice, or that finds a switch asked for by the timer interrupt, does not
-- happen: the next thread runs instead, with the request cleared, if one is runnable, no thread sleeps,
-- no exception waits for the running thread and the program is not dying of one.
pub preempt-rotated :
    (fuel now : ℕ) (s : Rts) (x y : ℕ) (ys : List ℕ)
    → IsQuiet s
    → Runs s (x ∷ y ∷ ys)
    → IsOver s
    → (u : Rts) × ((preempt fuel now s ≡ jumped (to_scheduler mt_resched) u)
        × (Runs u (y ∷ ys ++ x ∷ []) × (u.preempt_pending ≡ 0)))
preempt-rotated fuel now s x y ys q v h =
    let next = yield-rotated fuel now (charged s) x y ys (charged-IsQuiet s q) v in
    (next.0, (preempt_over fuel now s h ∙ next.1.0, (next.1.1.0, next.1.1.1.1.1.1)))

abbrev pub counted_down : ℕ → Rts → Rts
counted_down n s = record s { glob_slice = n }

-- Without a request for a switch, a slice of `n + 1` is `n` reductions, and then the next thread runs.
pub reductions-slice :
    (fuel now n : ℕ) (s : Rts) (x y : ℕ) (ys : List ℕ)
    → IsQuiet s
    → Runs s (x ∷ y ∷ ys)
    → s.preempt_pending ≡ 0
    → s.glob_slice ≡ suc n
    → suc n < 2 ^ 31
    → (reductions fuel now n s ≡ returned tt (counted_down 1 s))
      × ((u : Rts) × ((reductions fuel now (suc n) s ≡ jumped (to_scheduler mt_resched) u)
            × Runs u (y ∷ ys ++ x ∷ [])))
reductions-slice fuel now zero s x y ys q v p g b =
    let next = preempt-rotated fuel now s x y ys q v (inl g) in
    (ap (λ (k : ℕ). returned tt (counted_down k s)) g, (next.0, (rw (next.1.0) refl, next.1.1.0)))
reductions-slice fuel now (suc n) s x y ys q v p g b =
    let r =
      reductions-slice fuel now n (counted_down (s.glob_slice - 1) s) x y ys
        (record { alive = q.alive; no_sleeper = q.no_sleeper; not_thrown = q.not_thrown }) v p
        (omega arith) (omega arith) in
    let first = preempt_inside fuel now s (omega arith) (omega arith) p in
    (rw (first) (r.0), (r.1.0, (rw (first) (r.1.1.0), r.1.1.1)))
