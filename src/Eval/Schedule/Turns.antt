-- ===== src/Eval/Schedule/Turns.antt =====
-- `yield` of c/eval.c makes the threads of the run queue take turns.
use mathlib.Core.Path.{subst}
use haskell_os.Base.{
  ℕ, suc, ◌+◌, ◌≡◌, refl, sym, ap, ◌∙◌, arith, ◌==◌, false, List, [], ◌∷◌, ◌++◌, append_assoc,
  append-nil, length, u32,
}
use haskell_os.Eval.Threads.{Rts, mt_resched, ts_runnable}
use haskell_os.Eval.Queue.Chain.{IsQueue, IsQueue-frame, SameLinks-keep, SameLinks-all}
use haskell_os.Eval.Run.{
  Run, returned, jumped, stopped, unfinished, to_scheduler, pop_runq, add_runq_tail, resched,
  cleanup,
}
use haskell_os.Eval.Moves.{Runs, pop_runq-Runs, add_runq_tail-Runs, cleanup-Runs}
use haskell_os.Eval.Mvar.{check_thrown}
use haskell_os.Eval.Schedule.{yield, switch, count_slice}

-- No thread sleeps, no exception waits for the running thread, and the program is not dying.
pub record IsQuiet (s : Rts) : Type 0 where
  pub alive : s.in_raise ≡ false
  pub no_sleeper : s.timeq.mq_head ≡ 0
  pub not_thrown : (s.mvars (s.threads s.runq.mq_head).mt_exn).mv_data ≡ 0

-- The front thread at the tail, with the rest of its state saved.
abbrev pub rotated : ℕ → Rts → Rts
rotated x s = cleanup x ts_runnable (add_runq_tail x (pop_runq s).1)

count_slice_data :
    (s : Rts)
    → ((count_slice s).mvars ((count_slice s).threads s.runq.mq_head).mt_exn).mv_data
      ≡ (s.mvars (s.threads s.runq.mq_head).mt_exn).mv_data
unfolding count_slice
count_slice_data s = ground arith

yield_quiet : (fuel now : ℕ) (s : Rts) → IsQuiet s → yield fuel now s ≡ switch (count_slice s)
unfolding yield check_thrown count_slice
yield_quiet fuel now s q = rw (q.alive, q.no_sleeper, count_slice_data s ∙ q.not_thrown) refl

rotated-Runs : (s : Rts) (x : ℕ) (xs : List ℕ) → Runs s (x ∷ xs) → Runs (rotated x s) (xs ++ x ∷ [])
rotated-Runs s x xs v =
    cleanup-Runs _ x ts_runnable (xs ++ x ∷ [])
      (add_runq_tail-Runs (pop_runq s).1 x xs (pop_runq-Runs s x xs v).1 v.chain.1.0 v.distinct.0)

switch_rotates :
    (s : Rts) (x y : ℕ) (ys : List ℕ)
    → Runs s (x ∷ y ∷ ys)
    → switch s ≡ jumped (to_scheduler mt_resched) (rotated x s)
unfolding switch resched
switch_rotates s x y ys v = rw (next_used, (pop_runq-Runs s x (y ∷ ys) v).0) refl
  where
    next_used : ((s.threads s.runq.mq_head).mt_queue == 0) ≡ false
    next_used = rw (v.chain.0) (ground (arith, v.chain.1.1))

count_slice-Runs : (s : Rts) (xs : List ℕ) → Runs s xs → Runs (count_slice s) xs
unfolding count_slice
count_slice-Runs s xs v =
    IsQueue-frame xs s.threads _
      (SameLinks-keep xs s.threads s.runq.mq_head
        (λ m. record m { mt_num_slices = u32 (m.mt_num_slices + 1) }) (λ m. refl))
      v

rotated_saves :
    (s : Rts) (x : ℕ)
    → (((rotated x (count_slice s)).threads x).mt_state ≡ ts_runnable)
      × ((((rotated x (count_slice s)).threads x).mt_slice ≡ s.stack_ptr)
          × (((rotated x (count_slice s)).stack_ptr ≡ 0xffff_ffff)
              × ((rotated x (count_slice s)).preempt_pending ≡ s.preempt_pending)))
unfolding cleanup add_runq_tail pop_runq count_slice
rotated_saves s x = (ground arith, (ground arith, (refl, refl)))

-- While no thread sleeps and none is thrown an exception, `yield` in a thread behind which another one
-- is runnable does not return: it puts the thread, whose depth of reductions it saves as the slice, at
-- the tail of the run queue as runnable, and jumps to the scheduler.
pub yield-rotated :
    (fuel now : ℕ) (s : Rts) (x y : ℕ) (ys : List ℕ)
    → IsQuiet s
    → Runs s (x ∷ y ∷ ys)
    → (u : Rts) × ((yield fuel now s ≡ jumped (to_scheduler mt_resched) u)
        × (Runs u (y ∷ ys ++ x ∷ [])
            × (((u.threads x).mt_state ≡ ts_runnable)
                × (((u.threads x).mt_slice ≡ s.stack_ptr)
                    × ((u.stack_ptr ≡ 0xffff_ffff) × (u.preempt_pending ≡ s.preempt_pending))))))
yield-rotated fuel now s x y ys q v = (
  rotated x (count_slice s),
  (
    yield_quiet fuel now s q
        ∙ switch_rotates (count_slice s) x y ys (count_slice-Runs s (x ∷ y ∷ ys) v),
    (
      rotated-Runs (count_slice s) x (y ∷ ys) (count_slice-Runs s (x ∷ y ∷ ys) v),
      rotated_saves s x,
    ),
  ),
)

-- `k` turns, which end at calls of `yield` that do not return. Before each of them the running thread
-- reduces: it may change anything but the run queue, and at
-- the call no thread sleeps, no exception waits for it, and the program is not dying.
pub data Turns : ℕ → Rts → Rts → Type 0 where
  start : {s : Rts} → Turns 0 s s
  turn :
      {k : ℕ} {s v : Rts} (fuel now : ℕ) (w u : Rts)
      → w.runq ≡ s.runq
      → ((b : ℕ) → (w.threads b).mt_queue ≡ (s.threads b).mt_queue)
      → IsQuiet w
      → yield fuel now w ≡ jumped (to_scheduler mt_resched) u
      → Turns k u v
      → Turns (suc k) s v

reduced-Runs :
    (s w : Rts) (xs : List ℕ)
    → w.runq ≡ s.runq
    → ((b : ℕ) → (w.threads b).mt_queue ≡ (s.threads b).mt_queue)
    → Runs s xs
    → Runs w xs
reduced-Runs s w xs e same v =
    subst (λ q. IsQueue w.threads q xs) (sym e)
      (IsQueue-frame xs s.threads w.threads (SameLinks-all xs s.threads w.threads same) v)

abbrev after_jump : Rts → Run (Unit {0}) → Rts
after_jump s (returned a u) = s
after_jump s (jumped j u) = u
after_jump s (stopped text) = s
after_jump s unfinished = s

yield_turn :
    (fuel now : ℕ) (w u : Rts) (x y : ℕ) (ys : List ℕ)
    → IsQuiet w
    → Runs w (x ∷ y ∷ ys)
    → yield fuel now w ≡ jumped (to_scheduler mt_resched) u
    → Runs u (y ∷ ys ++ x ∷ [])
yield_turn fuel now w u x y ys q v e =
    let next = yield-rotated fuel now w x y ys q v in
    subst (λ z. Runs z (y ∷ ys ++ x ∷ [])) (ap (after_jump w) (sym next.1.0 ∙ e)) next.1.1.0

turned :
    (fuel now : ℕ) (w u : Rts) (b : ℕ) (bs : List ℕ) (x : ℕ) (xs : List ℕ)
    → IsQuiet w
    → Runs w (b ∷ bs ++ x ∷ xs)
    → yield fuel now w ≡ jumped (to_scheduler mt_resched) u
    → Runs u (bs ++ x ∷ (xs ++ b ∷ []))
turned fuel now w u b [] x xs q v e = yield_turn fuel now w u b x xs q v e
turned fuel now w u b (c ∷ cs) x xs q v e =
    subst (Runs u) (append_assoc (c ∷ cs) (x ∷ xs) (b ∷ []))
      (yield_turn fuel now w u b c (cs ++ x ∷ xs) q v e)

-- A thread of the run queue runs after as many turns as there are threads before it, and the others
-- keep their cyclic order. In a turn the running thread reduces in whatever way without changing the
-- run queue, up to a yield that does not return, at which no thread sleeps, no exception waits for the
-- running thread and the program is not dying of one.
pub Turns-round_robin :
    (before : List ℕ) (x : ℕ) (xs : List ℕ) (s u : Rts)
    → Runs s (before ++ x ∷ xs)
    → Turns (length before) s u
    → Runs u (x ∷ xs ++ before) × (u.runq.mq_head ≡ x)
Turns-round_robin [] x xs s u v start = (subst (Runs s) (sym (append-nil (x ∷ xs))) v, v.chain.0)
Turns-round_robin (b ∷ bs) x xs s u v (turn fuel now w z e same q y more) =
    let reached =
      Turns-round_robin bs x (xs ++ b ∷ []) z u
        (turned fuel now w z b bs x xs q (reduced-Runs s w (b ∷ bs ++ x ∷ xs) e same v) y) more in
    (subst (Runs u) (append_assoc (x ∷ xs) (b ∷ []) bs) reached.0, reached.1)
