-- ===== src/Tests/Exec.antt =====
-- The loop of `start_exec` and the exceptions of c/eval.c on concrete threads.
use haskell_os.Base.{ℕ, ◌≡◌, refl, arith, false, ◌==◌, if◌then◌else◌, [], ◌∷◌}
use haskell_os.Eval.Threads.{Rts, Threads, ts_runnable, ts_wait_time, nil}
use haskell_os.Eval.Run.{E, returned, raise_exn, pure}
use haskell_os.Eval.Queue.Chain.{IsQueue}
use haskell_os.Eval.Moves.{Runs}
use haskell_os.Eval.Mvar.{check_thrown, is_masked, throwto, is_uninterruptible}
use haskell_os.Eval.Mvar.Thrown.{check_thrown-raise_exn}
use haskell_os.Eval.Mvar.Throw.{throwto-remove}
use haskell_os.Eval.Exec.{after_round}
use haskell_os.Eval.Exec.Died.{DiesAlone, raise_exn-caught}
use haskell_os.Tests.Machine.{links, queue, mvar, machine, no_mvars, three-Runs}

-- A reducer that returns its argument, and a program that ends at once.
abbrev quick : ℕ → E ℕ
quick root = pure root

abbrev ends : ℕ → E (Unit {0})
ends exn = pure tt

-- 32 is the main thread.
abbrev three_ids : Threads
three_ids b = record (links 32 48 0 b) { mt_id = if b == 32 then 1 else 7 }

abbrev program : Rts
program = machine three_ids no_mvars (queue 16 48) (queue 0 0)

program-Runs : Runs program (16 ∷ 32 ∷ 48 ∷ [])
program-Runs = record {
  chain = three-Runs.chain;
  tail = refl;
  distinct = (refl, (refl, (refl, tt)));
}

raise_exn-caught_example :
    (u : Rts) × ((after_round quick ends (raise_exn 9 program) (pure tt) ≡ returned tt u)
      × DiesAlone 16 9 (32 ∷ 48 ∷ []) program u)
raise_exn-caught_example =
    raise_exn-caught quick ends (pure tt) 9 program 16 (32 ∷ 48 ∷ []) program-Runs refl refl
      (λ e. omega arith)

-- The exceptions of every thread go to the MVar at 100, which holds 9.
abbrev threatened : ℕ → Rts
threatened stash =
    machine (λ b. record (links 32 48 0 b) { mt_exn = 100; mt_mval = stash })
      (mvar 9 (queue 0 0) (queue 0 0)) (queue 16 48) (queue 0 0)

threatened-Runs : (stash : ℕ) → Runs (threatened stash) (16 ∷ 32 ∷ 48 ∷ [])
threatened-Runs stash = record {
  chain = three-Runs.chain;
  tail = refl;
  distinct = (refl, (refl, (refl, tt)));
}

check_thrown-raise_exn_example :
    (u : Rts) × ((check_thrown 1 false (threatened 0) ≡ raise_exn 9 u)
      × (((u.mvars 100).mv_data ≡ nil) × Runs u (16 ∷ 32 ∷ 48 ∷ [])))
unfolding is_masked
check_thrown-raise_exn_example =
    check_thrown-raise_exn 1 false (threatened 0) (16 ∷ 32 ∷ 48 ∷ []) [] (λ e. omega arith) refl
      refl (threatened-Runs 0) (record { chain = refl; tail = refl; distinct = tt })
      (refl, (refl, (refl, tt))) (omega arith)

-- 16 is runnable, and 32 and 48 sleep.
abbrev drowsy : Rts
drowsy =
    machine (λ b. record (links 0 48 0 b) { mt_state = ts_wait_time; mt_exn = 100 }) no_mvars
      (queue 16 16) (queue 32 48)

throwto-remove_example :
    (u : Rts) × ((throwto 3 48 9 drowsy ≡ returned tt u)
      × (Runs u (16 ∷ 48 ∷ [])
          × (IsQueue u.threads u.timeq (32 ∷ [])
              × (((u.threads 48).mt_state ≡ ts_runnable) × ((u.mvars 100).mv_data ≡ 9)))))
unfolding is_uninterruptible
throwto-remove_example =
    throwto-remove 3 48 9 drowsy (16 ∷ []) (32 ∷ 48 ∷ [])
      (record { chain = (refl, (λ e. omega arith, refl)); tail = refl; distinct = (refl, tt) })
      (record {
        chain = (refl, (λ e. omega arith, (refl, (λ e. omega arith, refl))));
        tail = refl;
        distinct = (refl, (refl, tt));
      })
      refl (omega arith) (refl, (refl, tt)) (λ e. omega arith) refl refl refl refl refl refl
