-- ===== src/Eval/Moves.antt =====
-- The moves of c/eval.c between the run queue and other queues, on the lists that the queues stand for.
use haskell_os.Base.{ℕ, ◌≡◌, ◌≢◌, refl, false, List, [], ◌∷◌, ◌++◌}
use haskell_os.Eval.Threads.{Rts, ThState, ts_runnable, on_thread}
use haskell_os.Eval.Queue.Chain.{
  has, IsQueue, SameLinks-keep, IsQueue-frame, SameLinks, SameLinks-trans,
}
use haskell_os.Eval.Queue.Ends.{Apart, add_q_tail-append, add_q_tail-SameLinks, remove_q_head-rest}
use haskell_os.Eval.Run.{pop_runq, add_runq_tail, set_state, cleanup}

-- The run queue holds the threads `xs`.
abbrev pub Runs : Rts → List ℕ → Type 0
Runs s xs = IsQueue s.threads s.runq xs

pub pop_runq-Runs :
    (s : Rts) (x : ℕ) (xs : List ℕ)
    → Runs s (x ∷ xs)
    → ((pop_runq s).0 ≡ x) × Runs (pop_runq s).1 xs
unfolding pop_runq
pop_runq-Runs s x xs v = remove_q_head-rest s.threads s.runq (x ∷ xs) v

pub add_runq_tail-Runs :
    (s : Rts) (mt : ℕ) (xs : List ℕ)
    → Runs s xs
    → mt ≢ 0
    → has mt xs ≡ false
    → Runs (add_runq_tail mt s) (xs ++ mt ∷ [])
unfolding add_runq_tail
add_runq_tail-Runs s mt xs v nz out =
    add_q_tail-append (on_thread mt (set_state ts_runnable) s.threads) s.runq mt xs
      (IsQueue-frame xs s.threads (on_thread mt (set_state ts_runnable) s.threads)
        (SameLinks-keep xs s.threads mt (set_state ts_runnable) (λ m. refl)) v)
      nz out

pub cleanup-Runs :
    (s : Rts) (mt : ℕ) (ts : ThState) (xs : List ℕ) → Runs s xs → Runs (cleanup mt ts s) xs
unfolding cleanup
cleanup-Runs s mt ts xs v =
    IsQueue-frame xs s.threads _
      (SameLinks-keep xs s.threads mt (λ m. record m { mt_slice = s.stack_ptr; mt_state = ts })
        (λ m. refl))
      v

-- The queues apart from the run queue and from the thread keep their links.
pub add_runq_tail-SameLinks :
    (s : Rts) (mt : ℕ) (rs ys : List ℕ)
    → Runs s rs
    → has mt ys ≡ false
    → Apart rs ys
    → SameLinks ys s.threads (add_runq_tail mt s).threads
unfolding add_runq_tail
add_runq_tail-SameLinks s mt rs ys v out apart =
    let t = on_thread mt (set_state ts_runnable) s.threads in
    SameLinks-trans ys s.threads t _
      (SameLinks-keep ys s.threads mt (set_state ts_runnable) (λ m. refl))
      (add_q_tail-SameLinks t s.runq mt rs ys
        (IsQueue-frame rs s.threads t
          (SameLinks-keep rs s.threads mt (set_state ts_runnable) (λ m. refl)) v)
        out apart)
