-- ===== src/Eval/Mvar/Put.antt =====
-- `put_mvar` of c/eval.c, on an empty MVar without and with waiting threads, and on a full one.
use mathlib.Core.Path.{subst}
use haskell_os.Base.{
  ℕ, suc, ◌<◌, ◌≡◌, ◌≢◌, refl, sym, ap, ◌∙◌, arith, ◌==◌, if◌then◌else◌, Bool, true, false, not,
  ◌||◌, List, [], ◌∷◌, ◌++◌, length, append_assoc, append-nil, ◌⊎◌, inl, inr,
}
use haskell_os.Eval.Threads.{Rts, Mvar, nil, with_thread, with_mvar}
use haskell_os.Eval.Queue.Chain.{has, IsQueue, IsQueue-frame, SameLinks-keep, SameLinks-trans}
use haskell_os.Eval.Queue.Ends.{Apart, Apart-nil, Apart-cons, Apart-snoc}
use haskell_os.Eval.Run.{◌>>=◌, pure, returned, pop_takeput, add_runq_tail}
use haskell_os.Eval.Moves.{Runs, add_runq_tail-Runs, add_runq_tail-SameLinks}
use haskell_os.Eval.Mvar.{take_mvar, put_mvar, wake_one, wake_all, set_mval}
use haskell_os.Eval.Mvar.Wake.{
  Waits, Woke, with_mvar_self, wake_all-Woke, pop_takeput-Waits, pop_takeput-Runs,
  pop_takeput_keeps, in_turn, add_runq_tail_mval,
}
use haskell_os.Eval.Mvar.Take.{Unstashed, Parked, suspend-Parked, take_mvar_full}

-- A put into a full MVar waits behind the threads that wait already.
pub put_mvar-Parked :
    (fuel mv v r : ℕ) (s : Rts) (rs ts : List ℕ)
    → (s.mvars mv).mv_data ≢ nil
    → Runs s (r ∷ rs)
    → Waits s mv ts
    → Apart ts (r ∷ rs)
    → Parked mv r rs ts (put_mvar fuel false mv v s)
unfolding put_mvar
put_mvar-Parked fuel mv v r s rs ts full q w apart =
    rw (is_full) (suspend-Parked mv r s rs ts q w apart)
  where
    is_full : ((s.mvars mv).mv_data == 0) ≡ false
    is_full = ground arith

-- `mv->mv_data = v`
abbrev pub filled : ℕ → ℕ → Rts → Rts
filled mv v s = with_mvar mv (λ m. record m { mv_data = v }) s

pub put_mvar_stores :
    (fuel mv v : ℕ) (try : Bool) (s : Rts)
    → (s.mvars mv).mv_data ≡ nil
    → (s.mvars mv).mv_takeput.mq_head ≡ 0
    → (s.mvars mv).mv_read.mq_head ≡ 0
    → put_mvar fuel try mv v s ≡ returned 1 (filled mv v s)
unfolding put_mvar
put_mvar_stores fuel mv v try s empty no_taker no_reader = rw (empty, no_taker, no_reader) refl

pub filled_data : (mv v : ℕ) (s : Rts) → ((filled mv v s).mvars mv).mv_data ≡ v
filled_data mv v s = ground arith

-- A value other than NIL put into an empty MVar for which no thread waits is what the next take gives,
-- and the MVar is empty again, if the running thread, which does both, has no value stashed from a
-- wakeup.
pub put_mvar-take_mvar :
    (fuel mv v : ℕ) (s : Rts) (rs : List ℕ)
    → v ≢ nil
    → Unstashed s
    → (s.mvars mv).mv_data ≡ nil
    → Waits s mv []
    → (s.mvars mv).mv_read.mq_head ≡ 0
    → Runs s rs
    → (u : Rts) × (((put_mvar (suc fuel) false mv v >>= λ _. take_mvar (suc fuel) false mv) s
          ≡ returned v u)
        × (((u.mvars mv).mv_data ≡ nil) × Runs u rs))
put_mvar-take_mvar fuel mv v s rs nz e empty w no_reader q =
    let r =
      take_mvar_full (suc fuel) mv false (filled mv v s) rs [] e (rw (filled_data mv v s) nz) q
        filled_waits (Apart-nil rs) (omega arith) in
    (
      r.0,
      (
        rw (put_mvar_stores (suc fuel) mv v false s empty w.chain no_reader)
            (r.1.0 ∙ ap (λ (n : ℕ). returned n r.0) (filled_data mv v s)),
        (r.1.1.0, subst (Runs r.0) (append-nil rs) r.1.1.1.0),
      ),
    )
  where
    filled_waits : Waits (filled mv v s) mv []
    filled_waits =
        subst (λ (m : Mvar). IsQueue s.threads m.mv_takeput [])
          (sym (with_mvar_self mv (λ m. record m { mv_data = v }) s)) w

-- A thread waits to take or to read.
abbrev pub IsAwaited : ℕ → Rts → Type 0
IsAwaited mv s = ((s.mvars mv).mv_takeput.mq_head ≢ 0) ⊎ ((s.mvars mv).mv_read.mq_head ≢ 0)

put_mvar_awaited :
    (fuel mv v : ℕ) (try : Bool) (s : Rts)
    → (s.mvars mv).mv_data ≡ nil
    → IsAwaited mv s
    → put_mvar fuel try mv v s ≡ (wake_all fuel mv (set_mval v) >>= λ _. pure 1) (wake_one mv v s)
unfolding put_mvar
put_mvar_awaited fuel mv v try s empty h = rw (empty, awaited h) refl
  where
    awaited :
        IsAwaited mv s
        → (not ((s.mvars mv).mv_takeput.mq_head == 0) || not ((s.mvars mv).mv_read.mq_head == 0))
          ≡ true
    awaited (inl k) = ground arith
    awaited (inr k) = ground arith

-- What `put_mvar` does for the first thread that waits to take.
abbrev handed : ℕ → ℕ → Rts → Rts
handed x v s = with_thread x (set_mval v) (add_runq_tail x s)

wake_one_none : (mv v : ℕ) (s : Rts) → Waits s mv [] → wake_one mv v s ≡ (pop_takeput mv s).1
unfolding wake_one
wake_one_none mv v s w = rw ((pop_takeput-Waits mv s [] w).0) refl

wake_one_first :
    (mv v : ℕ) (s : Rts) (x : ℕ) (xs : List ℕ)
    → Waits s mv (x ∷ xs)
    → wake_one mv v s ≡ handed x v (pop_takeput mv s).1
unfolding wake_one
wake_one_first mv v s x xs w = rw ((pop_takeput-Waits mv s (x ∷ xs) w).0, used) refl
  where
    used : (x == 0) ≡ false
    used = ground (arith, w.chain.1.0)

-- The state after the first thread got the value.
record Handed (v mv : ℕ) (rs : List ℕ) (x : ℕ) (xs : List ℕ) (s u : Rts) : Type 0 where
  runs : Runs u (rs ++ x ∷ [])
  waits : Waits u mv xs
  data_kept : (u.mvars mv).mv_data ≡ (s.mvars mv).mv_data
  read_kept : (u.mvars mv).mv_read ≡ (s.mvars mv).mv_read
  stashed : (b : ℕ) → (u.threads b).mt_mval ≡ (if b == x then v else (s.threads b).mt_mval)

handed_mval :
    (x v b : ℕ) (s : Rts)
    → ((handed x v s).threads b).mt_mval ≡ (if b == x then v else (s.threads b).mt_mval)
handed_mval x v b s = ground (arith, add_runq_tail_mval x b s)

popped_same :
    (mv b : ℕ) (s : Rts) → ((pop_takeput mv s).1.threads b).mt_mval ≡ (s.threads b).mt_mval
unfolding pop_takeput
popped_same mv b s = refl

handed-Handed :
    (v mv : ℕ) (rs : List ℕ) (x : ℕ) (xs : List ℕ) (s : Rts)
    → Runs s rs
    → Waits s mv xs
    → has x rs ≡ false
    → has x xs ≡ false
    → Apart rs xs
    → x ≢ 0
    → Handed v mv rs x xs s (handed x v s)
unfolding add_runq_tail
handed-Handed v mv rs x xs s q w out_rs out_xs apart nz = record {
  runs =
      IsQueue-frame (rs ++ x ∷ []) (add_runq_tail x s).threads _
        (SameLinks-keep (rs ++ x ∷ []) (add_runq_tail x s).threads x (set_mval v) (λ m. refl))
        (add_runq_tail-Runs s x rs q nz out_rs);
  waits =
      IsQueue-frame xs s.threads _
        (SameLinks-trans xs s.threads (add_runq_tail x s).threads _
          (add_runq_tail-SameLinks s x rs xs q out_xs apart)
          (SameLinks-keep xs (add_runq_tail x s).threads x (set_mval v) (λ m. refl)))
        w;
  data_kept = refl;
  read_kept = refl;
  stashed = λ b. handed_mval x v b s;
}

-- A put into an empty MVar for which threads wait leaves it empty: it wakes all threads `ts` that wait to
-- take, in their order, gives each of them the value, and leaves the queue of the threads that wait to
-- read as it is.
pub put_mvar-Woke :
    (fuel mv v : ℕ) (try : Bool) (s : Rts) (rs ts : List ℕ)
    → (s.mvars mv).mv_data ≡ nil
    → IsAwaited mv s
    → Runs s rs
    → Waits s mv ts
    → Apart rs ts
    → length ts < fuel
    → (u : Rts) × ((put_mvar fuel try mv v s ≡ returned 1 u) × Woke (λ _. v) mv rs ts s u)
put_mvar-Woke fuel mv v try s rs [] empty h q w apart k =
    let p = (pop_takeput mv s).1 in
    let r =
      wake_all-Woke (set_mval v) (λ m. refl) (λ _. v) (λ m. refl) fuel mv p rs []
        (pop_takeput-Runs mv s rs q) (pop_takeput-Waits mv s [] w).1 apart k in
    (
      r.0,
      (
        put_mvar_awaited fuel mv v try s empty h ∙ rw (wake_one_none mv v s w, r.1.0) refl,
        record {
          runs = r.1.1.runs;
          waits = r.1.1.waits;
          data_kept = r.1.1.data_kept ∙ (pop_takeput_keeps mv s).0;
          read_kept = r.1.1.read_kept ∙ (pop_takeput_keeps mv s).1;
          stashed = λ b. r.1.1.stashed b ∙ popped_same mv b s;
        },
      ),
    )
put_mvar-Woke fuel mv v try s rs (x ∷ xs) empty h q w apart k =
    let p = (pop_takeput mv s).1 in
    let apart' = Apart-cons rs x xs apart in
    let first =
      handed-Handed v mv rs x xs p (pop_takeput-Runs mv s rs q)
        (pop_takeput-Waits mv s (x ∷ xs) w).1 apart'.0 w.distinct.0 apart'.1 w.chain.1.0 in
    let r =
      wake_all-Woke (set_mval v) (λ m. refl) (λ _. v) (λ m. refl) fuel mv (handed x v p)
        (rs ++ x ∷ []) xs first.runs first.waits (Apart-snoc rs x xs apart'.1 w.distinct.0)
        (omega arith) in
    (
      r.0,
      (
        put_mvar_awaited fuel mv v try s empty h ∙ rw (wake_one_first mv v s x xs w, r.1.0) refl,
        record {
          runs = subst (Runs r.0) (append_assoc rs (x ∷ []) xs) r.1.1.runs;
          waits = r.1.1.waits;
          data_kept = r.1.1.data_kept ∙ first.data_kept ∙ (pop_takeput_keeps mv s).0;
          read_kept = r.1.1.read_kept ∙ first.read_kept ∙ (pop_takeput_keeps mv s).1;
          stashed = λ b.
              r.1.1.stashed b
              ∙ rw (first.stashed b, popped_same mv b s)
                  (in_turn (λ _. v) (s.threads b).mt_mval b x xs w.distinct.0);
        },
      ),
    )

-- A value put into an empty MVar for which threads wait to read, but none to take, is lost: the MVar
-- stays empty, no thread is woken, and no thread has the value.
pub put_mvar_lost :
    (fuel mv v : ℕ) (try : Bool) (s : Rts) (rs : List ℕ)
    → (s.mvars mv).mv_data ≡ nil
    → (s.mvars mv).mv_read.mq_head ≢ 0
    → Runs s rs
    → Waits s mv []
    → (u : Rts) × ((put_mvar (suc fuel) try mv v s ≡ returned 1 u)
        × (((u.mvars mv).mv_data ≡ nil)
            × (((u.mvars mv).mv_read ≡ (s.mvars mv).mv_read)
                × (Runs u rs × ((b : ℕ) → (u.threads b).mt_mval ≡ (s.threads b).mt_mval)))))
put_mvar_lost fuel mv v try s rs empty h q w =
    let r =
      put_mvar-Woke (suc fuel) mv v try s rs [] empty (inr h) q w (Apart-nil rs) (omega arith) in
    (
      r.0,
      (
        r.1.0,
        (
          r.1.1.data_kept ∙ empty,
          (r.1.1.read_kept, (subst (Runs r.0) (append-nil rs) r.1.1.runs, r.1.1.stashed)),
        ),
      ),
    )
