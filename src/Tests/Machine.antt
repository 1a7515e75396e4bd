-- ===== src/Tests/Machine.antt =====
-- Concrete threads of c/eval.c, their queues and MVars.
use haskell_os.Base.{ℕ, refl, arith, false, ◌==◌, if◌then◌else◌, [], ◌∷◌}
use haskell_os.Base.Int.{pos}
use haskell_os.Eval.Threads.{Rts, Mthread, Mvar, Mqueue, Threads, ts_runnable, mask_unmasked}
use haskell_os.Eval.Moves.{Runs}
use haskell_os.Eval.Schedule.Turns.{IsQuiet}

-- Threads at 16, 32 and 48; the links between them are `next`, and each wakes at its own address.
abbrev pub thread : ℕ → ℕ → Mthread
thread next at = record {
  mt_state = ts_runnable;
  mt_mask = mask_unmasked;
  mt_next = 0;
  mt_queue = next;
  mt_slice = 0;
  mt_num_slices = 0;
  mt_root = 0;
  mt_exn = 0;
  mt_mval = 0;
  mt_mark = false;
  mt_id = 1;
  mt_at = pos at;
}

abbrev pub links : ℕ → ℕ → ℕ → Threads
links a b c i = thread (if i == 16 then a else if i == 32 then b else if i == 48 then c else 0) i

abbrev pub queue : ℕ → ℕ → Mqueue
queue head tail = record { mq_head = head; mq_tail = tail }

-- The MVar at 100 holds `v`; the others are empty.
abbrev pub mvar : ℕ → Mqueue → Mqueue → ℕ → Mvar
mvar v takeput read a = record {
  mv_next = 0;
  mv_data = if a == 100 then v else 0;
  mv_takeput = takeput;
  mv_read = read;
  mv_mark = false;
}

abbrev pub machine : Threads → (ℕ → Mvar) → Mqueue → Mqueue → Rts
machine t m runq timeq = record {
  threads = t;
  mvars = m;
  all_threads = 0;
  all_mvars = 0;
  runq = runq;
  timeq = timeq;
  slice = 100000;
  glob_slice = 3;
  num_reductions = 0;
  num_yield = 0;
  num_resched = 0;
  num_thread_create = 1;
  num_mvar_alloc = 0;
  stack_ptr = 7;
  cur_handler = [];
  the_exn = 0;
  in_raise = false;
  doing_rnf = false;
  preempt_pending = 0;
  main_thread = 0;
}

abbrev pub no_mvars : ℕ → Mvar
no_mvars = mvar 0 (queue 0 0) (queue 0 0)

-- 16, 32 and 48 are runnable.
abbrev pub three : Rts
three = machine (links 32 48 0) no_mvars (queue 16 48) (queue 0 0)

pub three-Runs : Runs three (16 ∷ 32 ∷ 48 ∷ [])
three-Runs = record {
  chain = (refl, (λ e. omega arith, (refl, (λ e. omega arith, (refl, (λ e. omega arith, refl))))));
  tail = refl;
  distinct = (refl, (refl, (refl, tt)));
}

pub three-IsQuiet : IsQuiet three
three-IsQuiet = record { alive = refl; no_sleeper = refl; not_thrown = refl }
