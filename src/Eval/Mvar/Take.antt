-- ===== src/Eval/Mvar/Take.antt =====
-- `take_mvar` and `read_mvar` of c/eval.c, on a full and on an empty MVar.
use mathlib.Core.Path.{subst}
use haskell_os.Base.{
  ℕ, ◌<◌, ◌≡◌, ◌≢◌, refl, sym, ◌∙◌, arith, ◌==◌, Bool, false, List, [], ◌∷◌, ◌++◌, length,
}
use haskell_os.Eval.Threads.{Rts, Mvar, mt_resched, ts_wait_mvar, nil, with_mvar}
use haskell_os.Eval.Queue.{add_q_tail}
use haskell_os.Eval.Queue.Chain.{has, IsQueue, IsQueue-frame, SameLinks-keep}
use haskell_os.Eval.Queue.Ends.{Apart, Apart-cons, add_q_tail-SameLinks, add_q_tail-append}
use haskell_os.Eval.Run.{
  Run, returned, jumped, to_scheduler, pop_runq, push_takeput, cleanup, resched,
}
use haskell_os.Eval.Moves.{Runs, pop_runq-Runs, cleanup-Runs}
use haskell_os.Eval.Mvar.{take_mvar, suspend}
use haskell_os.Eval.Mvar.Wake.{Waits, with_mvar_self, wake_all-Woke}

-- What the running thread brings to an operation: no value from a wakeup.
abbrev pub Unstashed : Rts → Type 0
Unstashed s = (s.threads s.runq.mq_head).mt_mval ≡ nil

-- `mv->mv_data = NIL`
abbrev emptied : ℕ → Rts → Rts
emptied mv s = with_mvar mv (λ m. record m { mv_data = nil }) s

emptied-Waits : (mv : ℕ) (s : Rts) (ts : List ℕ) → Waits s mv ts → Waits (emptied mv s) mv ts
emptied-Waits mv s ts w =
    subst (λ (m : Mvar). IsQueue s.threads m.mv_takeput ts)
      (sym (with_mvar_self mv (λ m. record m { mv_data = nil }) s)) w

emptied_data : (mv : ℕ) (s : Rts) → ((emptied mv s).mvars mv).mv_data ≡ nil
emptied_data mv s = ground arith

-- A take of a full MVar by a thread that has no value stashed from a wakeup gives the value of the MVar
-- and leaves it empty; the threads that wait to put run again, in their order.
pub take_mvar_full :
    (fuel mv : ℕ) (try : Bool) (s : Rts) (rs ts : List ℕ)
    → Unstashed s
    → (s.mvars mv).mv_data ≢ nil
    → Runs s rs
    → Waits s mv ts
    → Apart rs ts
    → length ts < fuel
    → (u : Rts) × ((take_mvar fuel try mv s ≡ returned (s.mvars mv).mv_data u)
        × (((u.mvars mv).mv_data ≡ nil) × (Runs u (rs ++ ts) × Waits u mv [])))
unfolding take_mvar
take_mvar_full fuel mv try s rs ts e full v w apart h =
    let r =
      wake_all-Woke (λ m. m) (λ m. refl) (λ n. n) (λ m. refl) fuel mv (emptied mv s) rs ts v
        (emptied-Waits mv s ts w) apart h in
    (
      r.0,
      (
        rw (e, is_full, r.1.0) refl,
        (r.1.1.data_kept ∙ emptied_data mv s, (r.1.1.runs, r.1.1.waits)),
      ),
    )
  where
    is_full : ((s.mvars mv).mv_data == 0) ≡ false
    is_full = ground arith

-- The running thread at the end of a queue.
suspended-Runs :
    (mv r : ℕ) (s : Rts) (rs ts : List ℕ)
    → Runs s rs
    → has r rs ≡ false
    → Waits s mv ts
    → Apart ts rs
    → Runs (push_takeput mv r s) rs
unfolding push_takeput
suspended-Runs mv r s rs ts v out w apart =
    IsQueue-frame rs s.threads _
      (add_q_tail-SameLinks s.threads (s.mvars mv).mv_takeput r ts rs w out apart) v

suspended-Waits :
    (mv r : ℕ) (s : Rts) (ts : List ℕ)
    → Waits s mv ts
    → r ≢ 0
    → has r ts ≡ false
    → Waits (push_takeput mv r s) mv (ts ++ r ∷ [])
unfolding push_takeput
suspended-Waits mv r s ts w nz out =
    let q = add_q_tail s.threads (s.mvars mv).mv_takeput r in
    subst (λ (m : Mvar). IsQueue q.0 m.mv_takeput (ts ++ r ∷ []))
      (sym (with_mvar_self mv (λ m. record m { mv_takeput = q.1 }) s))
      (add_q_tail-append s.threads (s.mvars mv).mv_takeput r ts w nz out)

popped-Waits : (mv : ℕ) (s : Rts) (ts : List ℕ) → Waits s mv ts → Waits (pop_runq s).1 mv ts
unfolding pop_runq
popped-Waits mv s ts w = w

-- The state in which the running thread `r` waits in the queue for takes and puts.
abbrev pub parked : ℕ → ℕ → Rts → Rts
parked mv r s = cleanup r ts_wait_mvar (push_takeput mv r (pop_runq s).1)

suspend-parked :
    {A : Type 0} (mv r : ℕ) (s : Rts) (rs : List ℕ)
    → Runs s (r ∷ rs)
    → suspend {A = A} (push_takeput mv) s ≡ jumped (to_scheduler mt_resched) (parked mv r s)
unfolding suspend resched
suspend-parked mv r s rs v = rw ((pop_runq-Runs s r rs v).0) refl

parked-Waits :
    (mv r : ℕ) (s : Rts) (ts : List ℕ)
    → Waits s mv ts
    → r ≢ 0
    → has r ts ≡ false
    → Waits (parked mv r s) mv (ts ++ r ∷ [])
unfolding cleanup
parked-Waits mv r s ts w nz out =
    let u = push_takeput mv r (pop_runq s).1 in
    IsQueue-frame (ts ++ r ∷ []) u.threads _
      (SameLinks-keep (ts ++ r ∷ []) u.threads r
        (λ m. record m { mt_slice = u.stack_ptr; mt_state = ts_wait_mvar }) (λ m. refl))
      (suspended-Waits mv r (pop_runq s).1 ts (popped-Waits mv s ts w) nz out)

-- What a suspension does: the running thread leaves the run queue and is the last that waits.
pub record Parked (mv r : ℕ) (rs ts : List ℕ) (run : Run ℕ) : Type 0 where
  pub after : Rts
  pub jumps : run ≡ jumped (to_scheduler mt_resched) after
  pub runs : Runs after rs
  pub waits : Waits after mv (ts ++ r ∷ [])

pub suspend-Parked :
    (mv r : ℕ) (s : Rts) (rs ts : List ℕ)
    → Runs s (r ∷ rs)
    → Waits s mv ts
    → Apart ts (r ∷ rs)
    → Parked mv r rs ts (suspend (push_takeput mv) s)
suspend-Parked mv r s rs ts v w apart = record {
  after = parked mv r s;
  jumps = suspend-parked mv r s rs v;
  runs = cleanup-Runs (push_takeput mv r (pop_runq s).1) r ts_wait_mvar rs (
      suspended-Runs mv r (pop_runq s).1 rs ts (pop_runq-Runs s r rs v).1 v.distinct.0
        (popped-Waits mv s ts w) (Apart-cons ts r rs apart).1);
  waits = parked-Waits mv r s ts w v.chain.1.0 (Apart-cons ts r rs apart).0;
}

-- A take of an empty MVar waits: the thread leaves the run queue, is the last in the queue of the MVar,
-- and the scheduler runs.
pub take_mvar-Parked :
    (fuel mv r : ℕ) (s : Rts) (rs ts : List ℕ)
    → Unstashed s
    → (s.mvars mv).mv_data ≡ nil
    → Runs s (r ∷ rs)
    → Waits s mv ts
    → Apart ts (r ∷ rs)
    → Parked mv r rs ts (take_mvar fuel false mv s)
unfolding take_mvar
take_mvar-Parked fuel mv r s rs ts e empty v w apart =
    rw (e, empty) (suspend-Parked mv r s rs ts v w apart)
