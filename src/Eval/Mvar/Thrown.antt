-- ===== src/Eval/Mvar/Thrown.antt =====
-- `check_thrown` of c/eval.c: the running thread meets an exception that was thrown to it.
use haskell_os.Base.{ℕ, ◌<◌, ◌≡◌, ◌≢◌, refl, arith, ◌==◌, Bool, false, List, ◌++◌, length}
use haskell_os.Eval.Threads.{Rts, nil}
use haskell_os.Eval.Queue.Ends.{Apart}
use haskell_os.Eval.Run.{raise_exn, returned}
use haskell_os.Eval.Moves.{Runs}
use haskell_os.Eval.Mvar.{check_thrown, is_masked, take_mvar}
use haskell_os.Eval.Mvar.Wake.{Waits}
use haskell_os.Eval.Mvar.Take.{Unstashed, take_mvar_full}

-- The MVar for exceptions of the running thread, and what it holds.
abbrev pub exn_mvar : Rts → ℕ
exn_mvar s = (s.threads s.runq.mq_head).mt_exn

abbrev pub thrown : Rts → ℕ
thrown s = (s.mvars (exn_mvar s)).mv_data

check_thrown_takes :
    (fuel : ℕ) (interruptible : Bool) (s u : Rts) (exn : ℕ)
    → thrown s ≢ nil
    → is_masked interruptible (s.threads s.runq.mq_head).mt_mask ≡ false
    → take_mvar fuel false (exn_mvar s) s ≡ returned exn u
    → check_thrown fuel interruptible s ≡ raise_exn exn u
unfolding check_thrown
check_thrown_takes fuel interruptible s u exn pending unmasked taken =
    rw (is_pending, unmasked, taken) refl
  where
    is_pending : (thrown s == 0) ≡ false
    is_pending = ground arith

-- An exception that was thrown to the running thread and is not masked is raised, and taken, if the
-- thread has no value stashed from a wakeup: the threads that wait to throw another run again, in their
-- order.
pub check_thrown-raise_exn :
    (fuel : ℕ) (interruptible : Bool) (s : Rts) (rs ts : List ℕ)
    → thrown s ≢ nil
    → is_masked interruptible (s.threads s.runq.mq_head).mt_mask ≡ false
    → Unstashed s
    → Runs s rs
    → Waits s (exn_mvar s) ts
    → Apart rs ts
    → length ts < fuel
    → (u : Rts) × ((check_thrown fuel interruptible s ≡ raise_exn (thrown s) u)
        × (((u.mvars (exn_mvar s)).mv_data ≡ nil) × Runs u (rs ++ ts)))
check_thrown-raise_exn fuel interruptible s rs ts pending unmasked e v w apart h =
    let taken = take_mvar_full fuel (exn_mvar s) false s rs ts e pending v w apart h in
    (
      taken.0,
      (
        check_thrown_takes fuel interruptible s taken.0 (thrown s) pending unmasked taken.1.0,
        (taken.1.1.0, taken.1.1.1.0),
      ),
    )
