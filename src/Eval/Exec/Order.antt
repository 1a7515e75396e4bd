-- ===== src/Eval/Exec/Order.antt =====
-- The loop of `start_exec` runs the threads in the order of the run queue.
use haskell_os.Base.{ℕ, ◌+◌, ◌≡◌, ◌==◌, List, [], ◌∷◌, if◌then◌else◌, u32, sub32}
use haskell_os.Eval.Threads.{Rts, ts_finished, nil}
use haskell_os.Eval.Queue.{remove_q_head}
use haskell_os.Eval.Run.{returned, E}

-- The same threads in the same queue, with the same numbers.
pub record Keeps (s u : Rts) : Type 0 where
  pub same_runq : u.runq ≡ s.runq
  pub same_links : (b : ℕ) → (u.threads b).mt_queue ≡ (s.threads b).mt_queue
  pub same_ids : (b : ℕ) → (u.threads b).mt_id ≡ (s.threads b).mt_id

-- `x` gets what is left of its last slice and a whole one, which counts as reductions, but for one.
abbrev pub sliced : ℕ → Rts → Rts
sliced x s = record s {
  glob_slice = u32 ((s.threads x).mt_slice + s.slice);
  num_reductions = u32 (s.num_reductions + sub32 (u32 ((s.threads x).mt_slice + s.slice)) 1);
}

-- What `finish` leaves, but for `main_thread`: the front thread is out of the run queue and finished,
-- and the reductions that are left of its slice do not count.
abbrev pub without : ℕ → Rts → Rts
without x s = record s {
  num_reductions = sub32 s.num_reductions s.glob_slice;
  runq = (remove_q_head s.threads s.runq).1;
  threads = λ b.
      if b == x
      then record (s.threads b) { mt_state = ts_finished; mt_root = nil }
      else s.threads b;
}

-- A reducer that returns, and keeps the queue of threads meanwhile.
abbrev pub IsCalm : (ℕ → E ℕ) → Type 0
IsCalm evali =
    (root : ℕ) (s : Rts) → (r : ℕ) × ((u : Rts) × ((evali root s ≡ returned r u) × Keeps s u))

-- From `s` to `t` the threads `xs` ran one after the other: each stood at the head of the run queue,
-- got its slice, was reduced from its own root until the reducer returned, and finished.
pub data Ran (evali : ℕ → E ℕ) : Rts → List ℕ → Rts → Type 0 where
  none_ran : {s : Rts} → Ran evali s [] s
  next_ran :
      {s t : Rts} {x : ℕ} {xs : List ℕ} (r : ℕ) (u : Rts)
      → s.runq.mq_head ≡ x
      → evali (s.threads x).mt_root (sliced x s) ≡ returned r u
      → Ran evali (without x u) xs t
      → Ran evali s (x ∷ xs) t

module _ (evali : ℕ → E ℕ) (die_exn : ℕ → E (Unit {0})) (calm : IsCalm evali) where
  -- What the reducer gives and leaves for the front thread.
  abbrev reduct : ℕ → Rts → ℕ
  reduct x s = (calm (s.threads x).mt_root (sliced x s)).0

  abbrev reduced : ℕ → Rts → Rts
  reduced x s = (calm (s.threads x).mt_root (sliced x s)).1.0
