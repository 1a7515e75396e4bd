-- ===== src/Eval/Exec/Died.antt =====
-- An exception that no handler catches ends one thread of c/eval.c.
use haskell_os.Base.{ℕ, ◌≡◌, ◌≢◌, refl, ap, arith, ◌==◌, if◌then◌else◌, Bool, false, List, [], ◌∷◌}
use haskell_os.Eval.Threads.{Rts, Threads, ts_died, mt_raise, nil}
use haskell_os.Eval.Queue.Chain.{IsQueue-frame, SameLinks-keep}
use haskell_os.Eval.Run.{E, pop_runq, raise_exn, raise_in, jumped, to_scheduler}
use haskell_os.Eval.Moves.{Runs, pop_runq-Runs}
use haskell_os.Eval.Exec.{end_thread, caught, after_round}

popped_id : (s : Rts) (b : ℕ) → ((pop_runq s).1.threads b).mt_id ≡ (s.threads b).mt_id
unfolding pop_runq
popped_id s b = refl

dead-Runs : (x : ℕ) (s : Rts) (xs : List ℕ) → Runs s xs → Runs (end_thread ts_died x s) xs
unfolding end_thread
dead-Runs x s xs v =
    IsQueue-frame xs s.threads _
      (SameLinks-keep xs s.threads x (λ m. record m { mt_state = ts_died; mt_root = nil })
        (λ m. refl))
      v

raise_exn_unhandled :
    (exn : ℕ) (s : Rts)
    → s.cur_handler ≡ []
    → raise_exn {A = Bool} exn s ≡ jumped (to_scheduler mt_raise) (record s { the_exn = exn })
unfolding raise_exn raise_in
raise_exn_unhandled exn s e = ap (λ h. raise_in {A = Bool} exn h s) e

caught_other :
    (evali : ℕ → E ℕ) (die_exn : ℕ → E (Unit {0})) (again : E (Unit {0})) (s : Rts) (x : ℕ)
    → (pop_runq s).0 ≡ x
    → s.in_raise ≡ false
    → ((s.threads x).mt_id == 1) ≡ false
    → caught evali die_exn mt_raise again s ≡ again (end_thread ts_died x (pop_runq s).1)
unfolding caught
caught_other evali die_exn again s x popped alive other = simp (alive, popped, popped_id, other)

-- The threads with `x` dead.
abbrev pub with_dead : ℕ → Threads → Threads
with_dead x t b = if b == x then record (t b) { mt_state = ts_died; mt_root = nil } else t b

-- The state `u` is `s` with the thread `x` dead, and out of a run queue that holds `xs` then, and the
-- exception kept in `the_exn`.
pub record DiesAlone (x exn : ℕ) (xs : List ℕ) (s u : Rts) : Type 0 where
  pub runs : Runs u xs
  pub threads : (b : ℕ) → u.threads b ≡ with_dead x s.threads b
  pub others : u ≡ record s { threads = u.threads; runq = u.runq; the_exn = exn }

dead_threads :
    (x b : ℕ) (s : Rts) → (end_thread ts_died x (pop_runq s).1).threads b ≡ with_dead x s.threads b
unfolding end_thread pop_runq
dead_threads x b s = refl

dead_others :
    (x : ℕ) (s : Rts)
    → end_thread ts_died x (pop_runq s).1 ≡ record s {
      threads = (end_thread ts_died x (pop_runq s).1).threads;
      runq = (end_thread ts_died x (pop_runq s).1).runq;
    }
unfolding end_thread pop_runq
dead_others x s = refl

-- An exception that the running thread raises without a handler, when that is not the main thread and
-- the program is not dying, ends that thread alone: every other thread stays as it is, and so do the
-- other globals, and the loop goes on with the other runnable threads in their order.
pub raise_exn-caught :
    (evali : ℕ → E ℕ) (die_exn : ℕ → E (Unit {0})) (again : E (Unit {0})) (exn : ℕ) (s : Rts)
    (x : ℕ) (xs : List ℕ)
    → Runs s (x ∷ xs)
    → s.cur_handler ≡ []
    → s.in_raise ≡ false
    → (s.threads x).mt_id ≢ 1
    → (u : Rts) × ((after_round evali die_exn (raise_exn exn s) again ≡ again u)
        × DiesAlone x exn xs s u)
unfolding after_round
raise_exn-caught evali die_exn again exn s x xs v unhandled alive other =
    let r = record s { the_exn = exn } in
    let p = pop_runq-Runs r x xs v in
    (
      end_thread ts_died x (pop_runq r).1,
      (
        rw (raise_exn_unhandled exn s unhandled)
            (caught_other evali die_exn again r x p.0 alive (ground arith)),
        record {
          runs = dead-Runs x (pop_runq r).1 xs p.1;
          threads = λ b. dead_threads x b r;
          others = dead_others x r;
        },
      ),
    )
