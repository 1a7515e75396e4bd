-- ===== src/Eval/Schedule/Delay.antt =====
-- Threads that sleep in `timeq` of c/eval.c: which of them `check_timeq` wakes.
use mathlib.Core.Path.{subst}
use haskell_os.Base.{
  ℕ, zero, suc, ◌<◌, ◌≡◌, ◌≢◌, refl, ap, ◌∙◌, arith, ◌==◌, if◌then◌else◌, true, false, List, [],
  ◌∷◌, ◌++◌, append_assoc, append-nil, length, Bool-cases, inl, inr,
}
use haskell_os.Base.Int.{ℤ}
use haskell_os.Eval.Queue.{add_q_tail}
use haskell_os.Eval.Threads.{Rts, Mqueue, Threads, expired, with_thread, on_thread, ts_runnable}
use haskell_os.Eval.Queue.Chain.{has, IsQueue, IsQueue-frame, SameLinks-keep, SameLinks-trans}
use haskell_os.Eval.Queue.Ends.{Apart, Apart-cons, Apart-snoc, remove_q_head-rest}
use haskell_os.Eval.Run.{returned, pop_timeq, add_runq_tail, set_state}
use haskell_os.Eval.Moves.{Runs, add_runq_tail-Runs, add_runq_tail-SameLinks}
use haskell_os.Eval.Schedule.{is_due, wake_due, check_timeq}

-- The first threads that are due, and the others.
abbrev pub due : (ℕ → ℤ) → ℕ → List ℕ → List ℕ
due at now [] = []
due at now (x ∷ xs) = if is_due (at x) now then x ∷ due at now xs else []

abbrev pub later : (ℕ → ℤ) → ℕ → List ℕ → List ℕ
later at now [] = []
later at now (x ∷ xs) = if is_due (at x) now then later at now xs else x ∷ xs

abbrev WakesAt : (ℕ → ℤ) → List ℕ → Threads → Type 0
WakesAt at [] t = Unit
WakesAt at (x ∷ xs) t = ((t x).mt_at ≡ at x) × WakesAt at xs t

WakesAt-frame :
    (at : ℕ → ℤ) (xs : List ℕ) (a : ℕ) (t u : Threads)
    → has a xs ≡ false
    → ((b : ℕ) → b ≢ a → (u b).mt_at ≡ (t b).mt_at)
    → WakesAt at xs t
    → WakesAt at xs u
WakesAt-frame at [] a t u out same h = tt
WakesAt-frame at (x ∷ xs) a t u out same h =
    (same x (ground arith) ∙ h.0, WakesAt-frame at xs a t u (ground arith) same h.1)

-- One round of `check_timeq`, for the thread `x` that was taken from `timeq`.
abbrev woken : ℕ → Rts → Rts
woken x s = with_thread x (λ m. record m { mt_at = expired }) (add_runq_tail x s)

abbrev Sleeps : Rts → List ℕ → Type 0
Sleeps s xs = IsQueue s.threads s.timeq xs

add_q_tail_at : (t : Threads) (q : Mqueue) (a b : ℕ) → ((add_q_tail t q a).0 b).mt_at ≡ (t b).mt_at
unfolding add_q_tail
add_q_tail_at t q a b = ground arith

woken_at : (x : ℕ) (s : Rts) (b : ℕ) → b ≢ x → ((woken x s).threads b).mt_at ≡ (s.threads b).mt_at
unfolding add_runq_tail
woken_at x s b h =
    ground (arith, add_q_tail_at (on_thread x (set_state ts_runnable) s.threads) s.runq x b)

woken-Runs :
    (x : ℕ) (s : Rts) (rs : List ℕ)
    → Runs s rs
    → x ≢ 0
    → has x rs ≡ false
    → Runs (woken x s) (rs ++ x ∷ [])
woken-Runs x s rs v nz out =
    IsQueue-frame (rs ++ x ∷ []) (add_runq_tail x s).threads _
      (SameLinks-keep (rs ++ x ∷ []) (add_runq_tail x s).threads x
        (λ m. record m { mt_at = expired }) (λ m. refl))
      (add_runq_tail-Runs s x rs v nz out)

woken-Sleeps :
    (x : ℕ) (s : Rts) (rs xs : List ℕ)
    → Runs s rs
    → Sleeps s xs
    → has x xs ≡ false
    → Apart rs xs
    → Sleeps (woken x s) xs
unfolding add_runq_tail
woken-Sleeps x s rs xs v w out apart =
    IsQueue-frame xs s.threads _
      (SameLinks-trans xs s.threads (add_runq_tail x s).threads _
        (add_runq_tail-SameLinks s x rs xs v out apart)
        (SameLinks-keep xs (add_runq_tail x s).threads x (λ m. record m { mt_at = expired })
          (λ m. refl)))
      w

pop_timeq-Sleeps :
    (s : Rts) (x : ℕ) (xs : List ℕ)
    → Sleeps s (x ∷ xs)
    → ((pop_timeq s).0 ≡ x) × Sleeps (pop_timeq s).1 xs
unfolding pop_timeq
pop_timeq-Sleeps s x xs v = remove_q_head-rest s.threads s.timeq (x ∷ xs) v

pop_timeq-Runs : (s : Rts) (rs : List ℕ) → Runs s rs → Runs (pop_timeq s).1 rs
unfolding pop_timeq
pop_timeq-Runs s rs v = v

woken_popped_at :
    (x : ℕ) (s : Rts) (b : ℕ)
    → b ≢ x
    → ((woken x (pop_timeq s).1).threads b).mt_at ≡ (s.threads b).mt_at
unfolding pop_timeq
woken_popped_at x s b h = woken_at x (pop_timeq s).1 b h

abbrev Wakes : (ℕ → ℤ) → ℕ → ℕ → Rts → List ℕ → List ℕ → Type 0
Wakes at fuel now s rs ts =
    (u : Rts) × ((wake_due fuel now s ≡ returned tt u)
      × (Runs u (rs ++ due at now ts) × Sleeps u (later at now ts)))

wake_due_empty : (fuel now : ℕ) (s : Rts) → Sleeps s [] → wake_due (suc fuel) now s ≡ returned tt s
unfolding wake_due
wake_due_empty fuel now s v = ground (arith, v.chain)

wake_due_keeps :
    (fuel now : ℕ) (s : Rts) (x : ℕ) (xs : List ℕ)
    → Sleeps s (x ∷ xs)
    → is_due (s.threads x).mt_at now ≡ false
    → wake_due (suc fuel) now s ≡ returned tt s
unfolding wake_due
wake_due_keeps fuel now s x xs v d = ground (arith, v.chain)

wake_due_round :
    (fuel now : ℕ) (s : Rts) (x : ℕ) (xs : List ℕ)
    → Sleeps s (x ∷ xs)
    → is_due (s.threads x).mt_at now ≡ true
    → wake_due (suc fuel) now s ≡ wake_due fuel now (woken x (pop_timeq s).1)
unfolding wake_due
wake_due_round fuel now s x xs v d =
    rw (head_used, due_now) (ap (λ (k : ℕ). wake_due fuel now (woken k (pop_timeq s).1)) popped)
  where
    head_used : (s.timeq.mq_head == 0) ≡ false
    head_used = ground (arith, v.chain)

    due_now : is_due (s.threads s.timeq.mq_head).mt_at now ≡ true
    due_now = rw (v.chain.0) d

    popped : (pop_timeq s).0 ≡ x
    popped = (pop_timeq-Sleeps s x xs v).0

wake_due-Wakes :
    (at : ℕ → ℤ) (fuel now : ℕ) (s : Rts) (rs ts : List ℕ)
    → Runs s rs
    → Sleeps s ts
    → Apart rs ts
    → WakesAt at ts s.threads
    → length ts < fuel
    → Wakes at fuel now s rs ts
wake_due-Wakes at zero now s rs ts v w apart h b = absurd (omega arith)
wake_due-Wakes at (suc fuel) now s rs [] v w apart h b =
    (s, (wake_due_empty fuel now s w, (rw (append-nil) v, w)))
wake_due-Wakes at (suc fuel) now s rs (x ∷ xs) v w apart h b =
    elim (Bool-cases (is_due (at x) now)) [
      | inr e ↦ (s, (wake_due_keeps fuel now s x xs w (rw (h.0) e), (rw (e, append-nil) v, rw e w)))
      | inl e ↦
          let p = (pop_timeq s).1 in
          let r =
            wake_due-Wakes at fuel now (woken x p) (rs ++ x ∷ []) xs
              (woken-Runs x p rs (pop_timeq-Runs s rs v) w.chain.1.0 (Apart-cons rs x xs apart).0)
              (woken-Sleeps x p rs xs (pop_timeq-Runs s rs v) (pop_timeq-Sleeps s x xs w).1
                w.distinct.0 (Apart-cons rs x xs apart).1)
              (Apart-snoc rs x xs (Apart-cons rs x xs apart).1 w.distinct.0)
              (WakesAt-frame at xs x s.threads _ w.distinct.0 (woken_popped_at x s) h.1)
              (omega arith) in
          (
            r.0,
            (
              wake_due_round fuel now s x xs w (rw (h.0) e) ∙ r.1.0,
              (
                rw e (subst (Runs r.0) (append_assoc rs (x ∷ []) (due at now xs)) r.1.1.0),
                rw e r.1.1.1,
              ),
            ),
          )
    ]

-- `check_timeq` moves the threads at the front of `timeq` whose time has come to the tail of the run
-- queue, in their order, and leaves the others, when it has more fuel than threads sleep and the two
-- queues share no thread.
pub check_timeq-due :
    (fuel now : ℕ) (s : Rts) (rs ts : List ℕ)
    → Runs s rs
    → IsQueue s.threads s.timeq ts
    → Apart rs ts
    → length ts < fuel
    → (u : Rts) × ((check_timeq fuel now s ≡ returned tt u)
        × (Runs u (rs ++ due (λ x. (s.threads x).mt_at) now ts)
            × IsQueue u.threads u.timeq (later (λ x. (s.threads x).mt_at) now ts)))
unfolding check_timeq
check_timeq-due fuel now s rs ts v w apart b =
    wake_due-Wakes (λ x. (s.threads x).mt_at) fuel now s rs ts v w apart (own_times ts) b
  where
    own_times : (xs : List ℕ) → WakesAt (λ x. (s.threads x).mt_at) xs s.threads
    own_times [] = tt
    own_times (x ∷ xs) = (refl, own_times xs)
