-- ===== src/Eval/Mvar/Throw.antt =====
-- `throwto` of c/eval.c wakes a thread that sleeps.
use haskell_os.Base.{
  ℕ, ◌<◌, ◌≡◌, ◌≢◌, refl, ap, ◌∙◌, arith, true, false, List, [], ◌∷◌, ◌++◌, length,
}
use haskell_os.Eval.Threads.{Rts, Mvar, ts_runnable, ts_wait_time, nil}
use haskell_os.Eval.Queue.{find_and_unlink, add_q_tail}
use haskell_os.Eval.Queue.Chain.{has, IsQueue, IsQueue-frame}
use haskell_os.Eval.Queue.Ends.{Apart, Apart-sym}
use haskell_os.Eval.Queue.Unlink.{remove, find_and_unlink-remove}
use haskell_os.Eval.Queue.Unlink.Others.{
  find_and_unlink-SameLinks, find_and_unlink_exn, has-remove_self, Apart-remove,
}
use haskell_os.Eval.Run.{returned, add_runq_tail}
use haskell_os.Eval.Moves.{Runs, add_runq_tail-Runs, add_runq_tail-SameLinks}
use haskell_os.Eval.Mvar.{throwto, thread_intr, intr, unlink_sleeper, is_uninterruptible, is_over}
use haskell_os.Eval.Mvar.Put.{filled, put_mvar_stores, filled_data}

-- `timeq` without the thread `x`.
abbrev unslept : ℕ → ℕ → Rts → Rts
unslept fuel x s =
    let found = find_and_unlink fuel s.threads s.timeq x in
    record s { threads = found.1; timeq = found.2 }

abbrev interrupted : ℕ → ℕ → Rts → Rts
interrupted fuel x s = add_runq_tail x (unslept fuel x s)

thread_intr_sleeping :
    (fuel x : ℕ) (s : Rts) (xs : List ℕ)
    → IsQueue s.threads s.timeq xs
    → has x xs ≡ true
    → length xs < fuel
    → (s.threads x).mt_state ≡ ts_wait_time
    → is_uninterruptible (s.threads x).mt_mask ≡ false
    → thread_intr fuel x s ≡ returned tt (interrupted fuel x s)
unfolding thread_intr intr unlink_sleeper
thread_intr_sleeping fuel x s xs v m h asleep unmasked =
    ap (λ st. intr fuel x (s.threads x).mt_mask st s) asleep ∙ woken
  where
    woken : intr fuel x (s.threads x).mt_mask ts_wait_time s ≡ returned tt (interrupted fuel x s)
    woken = rw (unmasked, (find_and_unlink-remove fuel s.threads s.timeq x xs v h).0, m) refl

-- The parts of the state after the interruption.
interrupted-Runs :
    (fuel x : ℕ) (s : Rts) (rs xs : List ℕ)
    → Runs s rs
    → IsQueue s.threads s.timeq xs
    → length xs < fuel
    → Apart xs rs
    → x ≢ 0
    → has x rs ≡ false
    → Runs (interrupted fuel x s) (rs ++ x ∷ [])
interrupted-Runs fuel x s rs xs q v h apart nz out =
    add_runq_tail-Runs (unslept fuel x s) x rs
      (IsQueue-frame rs s.threads _
        (find_and_unlink-SameLinks fuel s.threads s.timeq x xs rs v h apart) q)
      nz out

-- The other threads go on sleeping, in their order.
interrupted-remove :
    (fuel x : ℕ) (s : Rts) (rs xs : List ℕ)
    → Runs s rs
    → IsQueue s.threads s.timeq xs
    → length xs < fuel
    → Apart xs rs
    → IsQueue (interrupted fuel x s).threads (interrupted fuel x s).timeq (remove x xs)
unfolding add_runq_tail
interrupted-remove fuel x s rs xs q v h apart =
    let w = unslept fuel x s in
    IsQueue-frame (remove x xs) w.threads (interrupted fuel x s).threads
      (add_runq_tail-SameLinks w x rs (remove x xs)
        (IsQueue-frame rs s.threads w.threads
          (find_and_unlink-SameLinks fuel s.threads s.timeq x xs rs v h apart) q)
        (has-remove_self x xs v.distinct) (Apart-remove x rs xs (Apart-sym xs rs apart)))
      (find_and_unlink-remove fuel s.threads s.timeq x xs v h).1

interrupted_rest :
    (fuel x b : ℕ) (s : Rts)
    → (((interrupted fuel x s).threads x).mt_state ≡ ts_runnable)
      × ((((interrupted fuel x s).threads b).mt_exn ≡ (s.threads b).mt_exn)
          × ((interrupted fuel x s).mvars ≡ s.mvars))
unfolding add_runq_tail add_q_tail
interrupted_rest fuel x b s =
    (ground arith, (ground (arith, find_and_unlink_exn fuel s.threads s.timeq x b), refl))

throwto_woken :
    (fuel x exn e : ℕ) (s w : Rts)
    → thread_intr fuel x s ≡ returned tt w
    → (w.threads x).mt_state ≡ ts_runnable
    → (w.threads x).mt_exn ≡ e
    → (w.mvars e).mv_data ≡ nil
    → (w.mvars e).mv_takeput.mq_head ≡ 0
    → (w.mvars e).mv_read.mq_head ≡ 0
    → throwto fuel x exn s ≡ returned tt (filled e exn w)
unfolding throwto is_over
throwto_woken fuel x exn e s w woken runnable own empty no_taker no_reader =
    rw (woken, goes_on runnable, own, put_mvar_stores fuel e exn false w empty no_taker no_reader)
      refl
  where
    goes_on : (w.threads x).mt_state ≡ ts_runnable → is_over (w.threads x).mt_state ≡ false
    goes_on r = ap is_over r

-- An exception that is thrown to a sleeping thread, not masked, for which none waits already, wakes the
-- thread: it leaves the sleeping threads, of which the others stay in their order, is runnable and the
-- last of the run queue, and finds the exception in its MVar.
pub throwto-remove :
    (fuel x exn : ℕ) (s : Rts) (rs xs : List ℕ)
    → Runs s rs
    → IsQueue s.threads s.timeq xs
    → has x xs ≡ true
    → length xs < fuel
    → Apart xs rs
    → x ≢ 0
    → has x rs ≡ false
    → (s.threads x).mt_state ≡ ts_wait_time
    → is_uninterruptible (s.threads x).mt_mask ≡ false
    → (s.mvars (s.threads x).mt_exn).mv_data ≡ nil
    → (s.mvars (s.threads x).mt_exn).mv_takeput.mq_head ≡ 0
    → (s.mvars (s.threads x).mt_exn).mv_read.mq_head ≡ 0
    → (u : Rts) × ((throwto fuel x exn s ≡ returned tt u)
        × (Runs u (rs ++ x ∷ [])
            × (IsQueue u.threads u.timeq (remove x xs)
                × (((u.threads x).mt_state ≡ ts_runnable)
                    × ((u.mvars (s.threads x).mt_exn).mv_data ≡ exn)))))
throwto-remove fuel x exn s rs xs q v m h apart nz out asleep unmasked empty no_taker no_reader =
    let w = interrupted fuel x s in
    let e = (s.threads x).mt_exn in
    (
      filled e exn w,
      (
        throwto_woken fuel x exn e s w (thread_intr_sleeping fuel x s xs v m h asleep unmasked)
            (interrupted_rest fuel x x s).0 (interrupted_rest fuel x x s).1.0
            (kept e (λ m. m.mv_data) ∙ empty) (kept e (λ m. m.mv_takeput.mq_head) ∙ no_taker)
            (kept e (λ m. m.mv_read.mq_head) ∙ no_reader),
        (
          interrupted-Runs fuel x s rs xs q v h apart nz out,
          (
            interrupted-remove fuel x s rs xs q v h apart,
            ((interrupted_rest fuel x x s).0, filled_data e exn w),
          ),
        ),
      ),
    )
  where
    kept : (e : ℕ) (f : Mvar → ℕ) → f ((interrupted fuel x s).mvars e) ≡ f (s.mvars e)
    kept e f = ap (λ (m : ℕ → Mvar). f (m e)) (interrupted_rest fuel x x s).1.1
