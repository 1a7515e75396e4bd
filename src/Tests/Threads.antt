-- ===== src/Tests/Threads.antt =====
-- The threads of c/eval.c on concrete queues.
use haskell_os.Base.{
  ℕ, ◌<◌, ◌≤◌, ◌≡◌, ◌≢◌, refl, inl, inr, arith, true, false, ◌==◌, if◌then◌else◌, [], ◌∷◌, some,
  none,
}
use haskell_os.Base.Int.{pos}
use haskell_os.Eval.Threads.{Rts, Mqueue, nil, mt_resched}
use haskell_os.Eval.Queue.{find_and_unlink}
use haskell_os.Eval.Queue.Chain.{IsQueue}
use haskell_os.Eval.Queue.Unlink.{find_and_unlink-remove}
use haskell_os.Eval.Run.{returned, jumped, to_scheduler, ◌>>=◌}
use haskell_os.Eval.Moves.{Runs}
use haskell_os.Eval.Mvar.{take_mvar, put_mvar}
use haskell_os.Eval.Mvar.Wake.{Waits, Woke}
use haskell_os.Eval.Mvar.Take.{take_mvar_full}
use haskell_os.Eval.Mvar.Put.{put_mvar-take_mvar, put_mvar-Woke, put_mvar_lost}
use haskell_os.Eval.Schedule.{preempt, is_due, is_before, check_timeq, thread_delay}
use haskell_os.Eval.Schedule.Turns.{Turns, start, turn, yield-rotated, Turns-round_robin}
use haskell_os.Eval.Schedule.Preempt.{preempt-rotated}
use haskell_os.Eval.Schedule.Delay.{check_timeq-due}
use haskell_os.Eval.Schedule.Ascending.{place}
use haskell_os.Eval.Schedule.Place.{times}
use haskell_os.Eval.Schedule.Sleep.{IsAsleep, thread_delay-IsAsleep}
use haskell_os.Eval.Stable.{Stable, new_stableptr, deref_stableptr, new_stableptr-deref_stableptr}
use haskell_os.Tests.Machine.{
  links, queue, mvar, machine, no_mvars, three, three-Runs, three-IsQuiet,
}

-- The state after one turn.
abbrev next_turn : Rts
next_turn = (yield-rotated 4 0 three 16 32 (48 ∷ []) three-IsQuiet three-Runs).0

three-Turns : Turns 1 three next_turn
three-Turns =
    turn 4 0 three next_turn refl (λ b. refl) three-IsQuiet
      (yield-rotated 4 0 three 16 32 (48 ∷ []) three-IsQuiet three-Runs).1.0 start

Turns-round_robin_example : Runs next_turn (32 ∷ 48 ∷ 16 ∷ []) × (next_turn.runq.mq_head ≡ 32)
Turns-round_robin_example =
    Turns-round_robin (16 ∷ []) 32 (48 ∷ []) three next_turn three-Runs three-Turns

-- The timer interrupt asked for a switch.
abbrev pending : Rts
pending = record three { preempt_pending = 1 }

preempt-rotated_example :
    (u : Rts) × ((preempt 4 0 pending ≡ jumped (to_scheduler mt_resched) u)
      × (Runs u (32 ∷ 48 ∷ 16 ∷ []) × (u.preempt_pending ≡ 0)))
preempt-rotated_example =
    preempt-rotated 4 0 pending 16 32 (48 ∷ [])
      (record { alive = refl; no_sleeper = refl; not_thrown = refl }) three-Runs
      (inr (λ e. omega arith))

find_and_unlink-remove_example :
    ((find_and_unlink 4 three.threads three.runq 32).0 ≡ true)
    × IsQueue
        (find_and_unlink 4 three.threads three.runq 32).1
        (find_and_unlink 4 three.threads three.runq 32).2
        (16 ∷ 48 ∷ [])
find_and_unlink-remove_example =
    find_and_unlink-remove 4 three.threads three.runq 32 (16 ∷ 32 ∷ 48 ∷ []) three-Runs
      (omega arith)

-- 16 is runnable, and 32 and 48 sleep until their times.
abbrev sleepy : Rts
sleepy = machine (links 0 48 0) no_mvars (queue 16 16) (queue 32 48)

sleepy-Runs : Runs sleepy (16 ∷ [])
sleepy-Runs = record {
  chain = (refl, (λ e. omega arith, refl));
  tail = refl;
  distinct = (refl, tt);
}

sleepy-Sleeps : IsQueue sleepy.threads sleepy.timeq (32 ∷ 48 ∷ [])
sleepy-Sleeps = record {
  chain = (refl, (λ e. omega arith, (refl, (λ e. omega arith, refl))));
  tail = refl;
  distinct = (refl, (refl, tt));
}

check_timeq-due_example :
    (u : Rts) × ((check_timeq 3 40 sleepy ≡ returned tt u)
      × (Runs u (16 ∷ 32 ∷ []) × IsQueue u.threads u.timeq (48 ∷ [])))
unfolding is_due
check_timeq-due_example =
    check_timeq-due 3 40 sleepy (16 ∷ []) (32 ∷ 48 ∷ []) sleepy-Runs sleepy-Sleeps (refl, tt)
      (omega arith)

thread_delay-IsAsleep_example :
    (u : Rts) × ((thread_delay {A = Unit {0}} 3 20 20 sleepy ≡ jumped (to_scheduler mt_resched) u)
      × (Runs u []
          × (IsAsleep u (place (times u.threads) 16 (32 ∷ 48 ∷ []))
              × (times u.threads 16 ≡ pos 40))))
unfolding is_before is_due
thread_delay-IsAsleep_example =
    thread_delay-IsAsleep 3 20 20 sleepy 16 [] (32 ∷ 48 ∷ []) sleepy-Runs
      (record { queue = sleepy-Sleeps; ascending = (refl, tt) }) (refl, (refl, tt)) (omega arith)

-- 16 is runnable, and 32 and 48 wait at the MVar at 100, which holds `v`.
abbrev blocked : ℕ → Rts
blocked v = machine (links 0 48 0) (mvar v (queue 32 48) (queue 0 0)) (queue 16 16) (queue 0 0)

take_mvar_full_example :
    (u : Rts) × ((take_mvar 3 false 100 (blocked 9) ≡ returned 9 u)
      × (((u.mvars 100).mv_data ≡ nil) × (Runs u (16 ∷ 32 ∷ 48 ∷ []) × Waits u 100 [])))
take_mvar_full_example =
    take_mvar_full 3 100 false (blocked 9) (16 ∷ []) (32 ∷ 48 ∷ []) refl (λ e. omega arith)
      (record { chain = sleepy-Runs.chain; tail = refl; distinct = (refl, tt) })
      (record { chain = sleepy-Sleeps.chain; tail = refl; distinct = (refl, (refl, tt)) })
      (refl, tt) (omega arith)

put_mvar-Woke_example :
    (u : Rts) × ((put_mvar 3 false 100 9 (blocked 0) ≡ returned 1 u)
      × Woke (λ _. 9) 100 (16 ∷ []) (32 ∷ 48 ∷ []) (blocked 0) u)
put_mvar-Woke_example =
    put_mvar-Woke 3 100 9 false (blocked 0) (16 ∷ []) (32 ∷ 48 ∷ []) refl (inl (λ e. omega arith))
      (record { chain = sleepy-Runs.chain; tail = refl; distinct = (refl, tt) })
      (record { chain = sleepy-Sleeps.chain; tail = refl; distinct = (refl, (refl, tt)) })
      (refl, tt) (omega arith)

-- 16 is runnable and nothing waits.
abbrev alone : Mqueue → Rts
alone read = machine (links 0 0 0) (mvar 0 (queue 0 0) read) (queue 16 16) (queue 0 0)

put_mvar-take_mvar_example :
    (u : Rts) × (((put_mvar 1 false 100 9 >>= λ _. take_mvar 1 false 100) (alone (queue 0 0))
        ≡ returned 9 u)
      × (((u.mvars 100).mv_data ≡ nil) × Runs u (16 ∷ [])))
put_mvar-take_mvar_example =
    put_mvar-take_mvar 0 100 9 (alone (queue 0 0)) (16 ∷ []) (λ e. omega arith) refl refl
      (record { chain = refl; tail = refl; distinct = tt }) refl
      (record { chain = sleepy-Runs.chain; tail = refl; distinct = (refl, tt) })

put_mvar_lost_example :
    (u : Rts) × ((put_mvar 1 false 100 9 (alone (queue 32 32)) ≡ returned 1 u)
      × (((u.mvars 100).mv_data ≡ nil)
          × (((u.mvars 100).mv_read ≡ queue 32 32)
              × (Runs u (16 ∷ []) × ((b : ℕ) → (u.threads b).mt_mval ≡ (links 0 0 0 b).mt_mval)))))
put_mvar_lost_example =
    put_mvar_lost 0 100 9 false (alone (queue 32 32)) (16 ∷ []) refl (λ e. omega arith)
      (record { chain = sleepy-Runs.chain; tail = refl; distinct = (refl, tt) })
      (record { chain = refl; tail = refl; distinct = tt })

-- Slots 1 to 3 are taken.
abbrev full_table : Stable
full_table = record {
  sp_capacity = 4;
  sp_table = λ i. if i == 0 then 0 else 5;
  num_stable_alloc = 0;
  num_stable_free = 0;
}

new_stableptr-deref_stableptr_example :
    (1 ≤ (new_stableptr (λ i. 1) 9 full_table).0)
    × ((deref_stableptr (new_stableptr (λ i. 1) 9 full_table).0 full_table ≡ none)
        × ((deref_stableptr
                (new_stableptr (λ i. 1) 9 full_table).0
                (new_stableptr (λ i. 1) 9 full_table).1
              ≡ some 9)
            × ((j : ℕ)
                → j < 4
                → j ≢ (new_stableptr (λ i. 1) 9 full_table).0
                → (new_stableptr (λ i. 1) 9 full_table).1.sp_table j ≡ (if j == 0 then 0 else 5))))
new_stableptr-deref_stableptr_example =
    new_stableptr-deref_stableptr (λ i. 1) 9 full_table (λ e. omega arith) (omega arith)
      (omega arith)
