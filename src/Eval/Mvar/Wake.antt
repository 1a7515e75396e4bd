-- ===== src/Eval/Mvar/Wake.antt =====
-- The loop of c/eval.c that wakes the threads that wait to take from an MVar, or to put into it.
use mathlib.Core.Path.{subst}
use haskell_os.Base.{
  ℕ, zero, suc, ◌<◌, ◌≡◌, ◌≢◌, refl, sym, ◌∙◌, arith, ◌==◌, if◌then◌else◌, true, false, List, [],
  ◌∷◌, ◌++◌, append_assoc, append-nil, length, Bool-cases, inl, inr,
}
use haskell_os.Eval.Threads.{
  Rts, Mthread, Mvar, Mqueue, Threads, ts_runnable, with_thread, with_mvar, on_thread,
}
use haskell_os.Eval.Queue.{add_q_tail, remove_q_head}
use haskell_os.Eval.Queue.Chain.{
  has, IsQueue, IsQueue-frame, SameLinks, SameLinks-keep, SameLinks-trans,
}
use haskell_os.Eval.Queue.Ends.{
  Apart, Apart-cons, Apart-snoc, remove_q_head-rest, head_or_null, rest,
}
use haskell_os.Eval.Run.{returned, pop_takeput, add_runq_tail, set_state}
use haskell_os.Eval.Moves.{Runs, add_runq_tail-Runs, add_runq_tail-SameLinks}
use haskell_os.Eval.Mvar.{wake_all}

-- The threads `ts` wait in the queue for takes and puts of the MVar `mv`.
abbrev pub Waits : Rts → ℕ → List ℕ → Type 0
Waits s mv ts = IsQueue s.threads (s.mvars mv).mv_takeput ts

pub with_mvar_self : (a : ℕ) (f : Mvar → Mvar) (s : Rts) → (with_mvar a f s).mvars a ≡ f (s.mvars a)
with_mvar_self a f s = rw (same) refl
  where
    same : (a == a) ≡ true
    same = ground arith

pub pop_takeput-Waits :
    (mv : ℕ) (s : Rts) (xs : List ℕ)
    → Waits s mv xs
    → ((pop_takeput mv s).0 ≡ head_or_null xs) × Waits (pop_takeput mv s).1 mv (rest xs)
unfolding pop_takeput
pop_takeput-Waits mv s xs v =
    let r = remove_q_head s.threads (s.mvars mv).mv_takeput in
    let popped = remove_q_head-rest s.threads (s.mvars mv).mv_takeput xs v in
    (
      popped.0,
      subst (λ (m : Mvar). IsQueue s.threads m.mv_takeput (rest xs))
          (sym (with_mvar_self mv (λ m. record m { mv_takeput = r.1 }) s)) popped.1,
    )

-- What a pop keeps of the MVar.
pub pop_takeput_keeps :
    (mv : ℕ) (s : Rts)
    → (((pop_takeput mv s).1.mvars mv).mv_data ≡ (s.mvars mv).mv_data)
      × (((pop_takeput mv s).1.mvars mv).mv_read ≡ (s.mvars mv).mv_read)
unfolding pop_takeput
pop_takeput_keeps mv s = (ground arith, ground arith)

pub pop_takeput-Runs : (mv : ℕ) (s : Rts) (rs : List ℕ) → Runs s rs → Runs (pop_takeput mv s).1 rs
unfolding pop_takeput
pop_takeput-Runs mv s rs v = v

-- One round of the loop, for the thread `x` that was taken from the queue.
abbrev roused : (Mthread → Mthread) → ℕ → Rts → Rts
roused stash x s = add_runq_tail x (with_thread x stash s)

module _ (stash : Mthread → Mthread) (keep : (m : Mthread) → (stash m).mt_queue ≡ m.mt_queue) where
  stashed-Runs : (x : ℕ) (s : Rts) (rs : List ℕ) → Runs s rs → Runs (with_thread x stash s) rs
  stashed-Runs x s rs v = IsQueue-frame rs s.threads _ (SameLinks-keep rs s.threads x stash keep) v

  roused-Runs :
      (x : ℕ) (s : Rts) (rs : List ℕ)
      → Runs s rs
      → x ≢ 0
      → has x rs ≡ false
      → Runs (roused stash x s) (rs ++ x ∷ [])
  roused-Runs x s rs v nz out =
      add_runq_tail-Runs (with_thread x stash s) x rs (stashed-Runs x s rs v) nz out

  roused-SameLinks :
      (x : ℕ) (s : Rts) (rs xs : List ℕ)
      → Runs s rs
      → has x xs ≡ false
      → Apart rs xs
      → SameLinks xs s.threads (roused stash x s).threads
  roused-SameLinks x s rs xs v out apart =
      let t = on_thread x stash s.threads in
      SameLinks-trans xs s.threads t _ (SameLinks-keep xs s.threads x stash keep)
        (add_runq_tail-SameLinks (with_thread x stash s) x rs xs (stashed-Runs x s rs v) out apart)

  wake_all_round :
      (fuel mv : ℕ) (s : Rts) (x : ℕ) (xs : List ℕ)
      → Waits s mv (x ∷ xs)
      → wake_all (suc fuel) mv stash s
        ≡ wake_all fuel mv stash (roused stash x (pop_takeput mv s).1)
  unfolding wake_all
  wake_all_round fuel mv s x xs v = rw ((pop_takeput-Waits mv s (x ∷ xs) v).0, used) refl
    where
      used : (x == 0) ≡ false
      used = ground (arith, v.chain.1.0)

  wake_all_end :
      (fuel mv : ℕ) (s : Rts)
      → Waits s mv []
      → wake_all (suc fuel) mv stash s ≡ returned tt (pop_takeput mv s).1
  unfolding wake_all
  wake_all_end fuel mv s v = rw ((pop_takeput-Waits mv s [] v).0) refl

-- The loop moves the waiting threads `ts` to the tail of the run queue, in their order, and changes the
-- value that is stashed for each of them by `g`.
pub record Woke (g : ℕ → ℕ) (mv : ℕ) (rs ts : List ℕ) (s u : Rts) : Type 0 where
  pub runs : Runs u (rs ++ ts)
  pub waits : Waits u mv []
  pub data_kept : (u.mvars mv).mv_data ≡ (s.mvars mv).mv_data
  pub read_kept : (u.mvars mv).mv_read ≡ (s.mvars mv).mv_read
  pub stashed :
      (b : ℕ)
      → (u.threads b).mt_mval
        ≡ (if has b ts then g (s.threads b).mt_mval else (s.threads b).mt_mval)

add_q_tail_mval :
    (t : Threads) (q : Mqueue) (a b : ℕ) → ((add_q_tail t q a).0 b).mt_mval ≡ (t b).mt_mval
unfolding add_q_tail
add_q_tail_mval t q a b = ground arith

pub add_runq_tail_mval :
    (x b : ℕ) (s : Rts) → ((add_runq_tail x s).threads b).mt_mval ≡ (s.threads b).mt_mval
unfolding add_runq_tail
add_runq_tail_mval x b s =
    add_q_tail_mval (on_thread x (set_state ts_runnable) s.threads) s.runq x b ∙ kept
  where
    kept : (on_thread x (set_state ts_runnable) s.threads b).mt_mval ≡ (s.threads b).mt_mval
    kept = ground arith

-- A change to each of `xs` after one to `x`.
pub in_turn :
    (g : ℕ → ℕ) (v b x : ℕ) (xs : List ℕ)
    → has x xs ≡ false
    → (if has b xs then g (if b == x then g v else v) else if b == x then g v else v)
      ≡ (if has b (x ∷ xs) then g v else v)
in_turn g v b x xs out = elim (Bool-cases (b == x)) [
  | inl e ↦ rw (e, others e) refl
  | inr e ↦ rw e refl
]
  where
    others : (b == x) ≡ true → has b xs ≡ false
    others e = ground arith

module _ (stash : Mthread → Mthread) (keep : (m : Mthread) → (stash m).mt_queue ≡ m.mt_queue)
    (g : ℕ → ℕ) (value : (m : Mthread) → (stash m).mt_mval ≡ g m.mt_mval) where
  roused-Waits :
      (x mv : ℕ) (s : Rts) (rs xs : List ℕ)
      → Runs s rs
      → has x xs ≡ false
      → Apart rs xs
      → Waits s mv xs
      → Waits (roused stash x s) mv xs
  unfolding add_runq_tail
  roused-Waits x mv s rs xs v out apart w =
      IsQueue-frame xs s.threads _ (roused-SameLinks stash keep x s rs xs v out apart) w

  roused_keeps :
      (x mv : ℕ) (s : Rts)
      → (((roused stash x s).mvars mv).mv_data ≡ (s.mvars mv).mv_data)
        × (((roused stash x s).mvars mv).mv_read ≡ (s.mvars mv).mv_read)
  unfolding add_runq_tail
  roused_keeps x mv s = (refl, refl)

  roused_mval :
      (x b : ℕ) (s : Rts)
      → ((roused stash x s).threads b).mt_mval
        ≡ (if b == x then g (s.threads b).mt_mval else (s.threads b).mt_mval)
  roused_mval x b s = add_runq_tail_mval x b (with_thread x stash s) ∙ stored
    where
      stored :
          (on_thread x stash s.threads b).mt_mval
          ≡ (if b == x then g (s.threads b).mt_mval else (s.threads b).mt_mval)
      stored = ground (arith, value (s.threads b))

  popped_mval :
      (mv x b : ℕ) (s : Rts)
      → ((roused stash x (pop_takeput mv s).1).threads b).mt_mval
        ≡ (if b == x then g (s.threads b).mt_mval else (s.threads b).mt_mval)
  unfolding pop_takeput
  popped_mval mv x b s = roused_mval x b (pop_takeput mv s).1

  pop_mval : (mv b : ℕ) (s : Rts) → ((pop_takeput mv s).1.threads b).mt_mval ≡ (s.threads b).mt_mval
  unfolding pop_takeput
  pop_mval mv b s = refl

  pub wake_all-Woke :
      (fuel mv : ℕ) (s : Rts) (rs ts : List ℕ)
      → Runs s rs
      → Waits s mv ts
      → Apart rs ts
      → length ts < fuel
      → (u : Rts) × ((wake_all fuel mv stash s ≡ returned tt u) × Woke g mv rs ts s u)
  wake_all-Woke zero mv s rs ts v w apart h = absurd (omega arith)
  wake_all-Woke (suc fuel) mv s rs [] v w apart h = (
    (pop_takeput mv s).1,
    (
      wake_all_end stash keep fuel mv s w,
      record {
        runs = rw (append-nil) (pop_takeput-Runs mv s rs v);
        waits = (pop_takeput-Waits mv s [] w).1;
        data_kept = (pop_takeput_keeps mv s).0;
        read_kept = (pop_takeput_keeps mv s).1;
        stashed = λ b. pop_mval mv b s;
      },
    ),
  )
  wake_all-Woke (suc fuel) mv s rs (x ∷ xs) v w apart h =
      let p = (pop_takeput mv s).1 in
      let first = roused stash x p in
      let vp = pop_takeput-Runs mv s rs v in
      let apart' = Apart-cons rs x xs apart in
      let r =
        wake_all-Woke fuel mv first (rs ++ x ∷ []) xs
          (roused-Runs stash keep x p rs vp w.chain.1.0 apart'.0)
          (roused-Waits x mv p rs xs vp w.distinct.0 apart'.1 (pop_takeput-Waits mv s (x ∷ xs) w).1)
          (Apart-snoc rs x xs apart'.1 w.distinct.0) (omega arith) in
      (
        r.0,
        (
          wake_all_round stash keep fuel mv s x xs w ∙ r.1.0,
          record {
            runs = subst (Runs r.0) (append_assoc rs (x ∷ []) xs) r.1.1.runs;
            waits = r.1.1.waits;
            data_kept = r.1.1.data_kept ∙ (roused_keeps x mv p).0 ∙ (pop_takeput_keeps mv s).0;
            read_kept = r.1.1.read_kept ∙ (roused_keeps x mv p).1 ∙ (pop_takeput_keeps mv s).1;
            stashed = λ b. all_stashed r.0 (r.1.1.stashed b);
          },
        ),
      )
    where
      all_stashed :
          (u : Rts) {b : ℕ}
          → (u.threads b).mt_mval ≡ (
              if has b xs
              then g ((roused stash x (pop_takeput mv s).1).threads b).mt_mval
              else ((roused stash x (pop_takeput mv s).1).threads b).mt_mval)
          → (u.threads b).mt_mval
            ≡ (if has b (x ∷ xs) then g (s.threads b).mt_mval else (s.threads b).mt_mval)
      all_stashed u {b} e =
          e ∙ rw (popped_mval mv x b s) (in_turn g (s.threads b).mt_mval b x xs w.distinct.0)
