-- ===== src/Eval/Run.antt =====
-- Functions of c/eval.c over its globals, some of which do not return: they jump to the scheduler or to an
-- exception handler, or stop at an error. With them the moves of threads between queues, the creation of
-- threads and MVars, and `cleanup`.
use haskell_os.Base.{ℕ, ◌+◌, false, u32, List, [], ◌∷◌}
use haskell_os.Base.Int.{pos}
use haskell_os.Eval.Threads.{
  Rts, Mthread, Mqueue, Handler, ThSched, ThState, mt_raise, mt_resched, ts_runnable, mask_unmasked,
  nil, with_thread, with_mvar, on_thread,
}
use haskell_os.Eval.Queue.{add_q_tail, remove_q_head}

-- Where a `longjmp` goes: to `start_exec`, or to the handler with this `jmp_buf`.
pub data Jump : Type 0 where
  to_scheduler : ThSched → Jump
  to_handler : ℕ → Jump

-- `stopped` is `ERR`, which prints its text and halts; `unfinished` is a loop out of fuel.
pub data Run (A : Type 0) : Type 0 where
  returned : A → Rts → Run A
  jumped : Jump → Rts → Run A
  stopped : List ℕ → Run A
  unfinished : Run A

abbrev pub E : Type 0 → Type 0
E A = Rts → Run A

abbrev pub and_then : {A B : Type 0} → Run A → (A → E B) → Run B
and_then (returned a s) k = k a s
and_then (jumped j s) k = jumped j s
and_then (stopped text) k = stopped text
and_then unfinished k = unfinished

infixl 5 ◌>>=◌ ◌>>◌
abbrev pub ◌>>=◌ : {A B : Type 0} → E A → (A → E B) → E B
◌>>=◌ m k s = and_then (m s) k

abbrev pub ◌>>◌ : {B : Type 0} → E (Unit {0}) → E B → E B
m >> k = m >>= λ _. k

abbrev pub pure : {A : Type 0} → A → E A
pure a s = returned a s

abbrev pub gets : {A : Type 0} → (Rts → A) → E A
gets f s = returned (f s) s

abbrev pub modify : (Rts → Rts) → E (Unit {0})
modify f s = returned tt (f s)

abbrev pub act : {A : Type 0} → (Rts → A × Rts) → E A
act f s = let r = f s in returned r.0 r.1

abbrev pub err : {A : Type 0} → List ℕ → E A
err text s = stopped text

abbrev pub longjmp : {A : Type 0} → Jump → E A
longjmp j s = jumped j s

-- `remove_q_head(&runq)`, and the same on the queues of an MVar and on `timeq`.
unfoldable pub pop_runq : Rts → ℕ × Rts
pop_runq s = let r = remove_q_head s.threads s.runq in (r.0, record s { runq = r.1 })

unfoldable pub pop_timeq : Rts → ℕ × Rts
pop_timeq s = let r = remove_q_head s.threads s.timeq in (r.0, record s { timeq = r.1 })

unfoldable pub pop_takeput : ℕ → Rts → ℕ × Rts
pop_takeput mv s =
    let r = remove_q_head s.threads (s.mvars mv).mv_takeput in
    (r.0, with_mvar mv (λ m. record m { mv_takeput = r.1 }) s)

abbrev pub set_state : ThState → Mthread → Mthread
set_state ts m = record m { mt_state = ts }

unfoldable pub add_runq_tail : ℕ → Rts → Rts
add_runq_tail mt s =
    let r = add_q_tail (on_thread mt (set_state ts_runnable) s.threads) s.runq mt in
    record s { threads = r.0; runq = r.1 }

unfoldable pub push_takeput : ℕ → ℕ → Rts → Rts
push_takeput mv mt s =
    let r = add_q_tail s.threads (s.mvars mv).mv_takeput mt in
    with_mvar mv (λ m. record m { mv_takeput = r.1 }) (record s { threads = r.0 })

unfoldable pub push_read : ℕ → ℕ → Rts → Rts
push_read mv mt s =
    let r = add_q_tail s.threads (s.mvars mv).mv_read mt in
    with_mvar mv (λ m. record m { mv_read = r.1 }) (record s { threads = r.0 })

-- An empty stack has the pointer -1.
unfoldable pub cleanup : ℕ → ThState → Rts → Rts
cleanup mt ts s =
    record (with_thread mt (λ m. record m { mt_slice = s.stack_ptr; mt_state = ts }) s) {
      stack_ptr = 0xffff_ffff;
      doing_rnf = false;
      cur_handler = [];
    }

unfoldable pub resched : {A : Type 0} → ℕ → ThState → E A
resched mt ts = modify (cleanup mt ts) >> longjmp (to_scheduler mt_resched)

unfoldable pub raise_in : {A : Type 0} → ℕ → List Handler → E A
raise_in exn [] = modify (λ s. record s { the_exn = exn }) >> longjmp (to_scheduler mt_raise)
raise_in exn (h ∷ old) =
    modify (λ s. record s { cur_handler = record h { hdl_exn = exn } ∷ old })
    >> longjmp (to_handler h.hdl_buf)

unfoldable pub raise_exn : {A : Type 0} → ℕ → E A
raise_exn exn = do handlers ← gets (λ s. s.cur_handler); raise_in exn handlers

abbrev pub empty_queue : Mqueue
empty_queue = record { mq_head = 0; mq_tail = 0 }

-- `mv` is the address that `mmalloc` gives.
unfoldable pub new_mvar : ℕ → Rts → Rts
new_mvar mv s =
    record (with_mvar mv
      (λ _. record {
        mv_next = s.all_mvars;
        mv_data = nil;
        mv_takeput = empty_queue;
        mv_read = empty_queue;
        mv_mark = false;
      })
      s) { num_mvar_alloc = u32 (s.num_mvar_alloc + 1); all_mvars = mv }

-- `mt` and `mv` are the addresses that `mmalloc` gives for the thread and for its MVar. The fields that
-- the function leaves are those of the block.
unfoldable pub new_thread : ℕ → ℕ → ℕ → Rts → Rts
new_thread mt mv root s =
    let made = new_mvar mv s in
    add_runq_tail mt
      (record (with_thread mt
        (λ m. record m {
          mt_mask = mask_unmasked;
          mt_root = root;
          mt_exn = mv;
          mt_mval = nil;
          mt_slice = 0;
          mt_mark = false;
          mt_num_slices = 0;
          mt_id = made.num_thread_create;
          mt_at = pos 0;
          mt_next = made.all_threads;
        })
        made) { num_thread_create = u32 (made.num_thread_create + 1); all_threads = mt })
