-- ===== src/Eval/Threads.antt =====
-- The records and the globals of the thread part of c/eval.c. A pointer is its address and 0 is the null
-- pointer; the threads and the MVars are two stores, functions from addresses.
use haskell_os.Base.{ℕ, ◌==◌, if◌then◌else◌, Bool, List}
use haskell_os.Base.Int.{ℤ, negsuc}

pub data ThSched : Type 0 where
  mt_main mt_resched mt_raise : ThSched

pub data ThState : Type 0 where
  ts_runnable ts_wait_mvar ts_wait_time ts_finished ts_died : ThState

pub data MaskState : Type 0 where
  mask_unmasked mask_interruptible mask_uninterruptible : MaskState

-- `hdl_old` is the rest of the list of handlers. A `jmp_buf` is a number that stands for it.
pub record Handler : Type 0 where
  pub hdl_buf : ℕ
  pub hdl_exn : ℕ

pub record Mthread : Type 0 where
  pub mt_state : ThState
  pub mt_mask : MaskState
  pub mt_next : ℕ
  pub mt_queue : ℕ
  pub mt_slice : ℕ
  pub mt_num_slices : ℕ
  pub mt_root : ℕ
  pub mt_exn : ℕ
  pub mt_mval : ℕ
  pub mt_mark : Bool
  pub mt_id : ℕ
  pub mt_at : ℤ

pub record Mqueue : Type 0 where
  pub mq_head : ℕ
  pub mq_tail : ℕ

pub record Mvar : Type 0 where
  pub mv_next : ℕ
  pub mv_data : ℕ
  pub mv_takeput : Mqueue
  pub mv_read : Mqueue
  pub mv_mark : Bool

abbrev pub Threads : Type 0
Threads = ℕ → Mthread

-- The globals. `stack_ptr`, `glob_slice` and the counters are their 32-bit patterns.
pub record Rts : Type 0 where
  pub threads : Threads
  pub mvars : ℕ → Mvar
  pub all_threads : ℕ
  pub all_mvars : ℕ
  pub runq : Mqueue
  pub timeq : Mqueue
  pub slice : ℕ
  pub glob_slice : ℕ
  pub num_reductions : ℕ
  pub num_yield : ℕ
  pub num_resched : ℕ
  pub num_thread_create : ℕ
  pub num_mvar_alloc : ℕ
  pub stack_ptr : ℕ
  pub cur_handler : List Handler
  pub the_exn : ℕ
  pub in_raise : Bool
  pub doing_rnf : Bool
  pub preempt_pending : ℕ
  pub main_thread : ℕ

abbrev pub nil : ℕ
nil = 0

-- A delay that has expired: -1.
abbrev pub expired : ℤ
expired = negsuc 0

abbrev pub main_thread_id : ℕ
main_thread_id = 1

-- A store into one thread, and its cases on the field that links the queues.
abbrev pub on_thread : ℕ → (Mthread → Mthread) → Threads → Threads
on_thread a f t b = if b == a then f (t b) else t b

abbrev pub set_queue : ℕ → Mthread → Mthread
set_queue q m = record m { mt_queue = q }

abbrev pub with_thread : ℕ → (Mthread → Mthread) → Rts → Rts
with_thread a f s = record s { threads = on_thread a f s.threads }

abbrev pub with_mvar : ℕ → (Mvar → Mvar) → Rts → Rts
with_mvar a f s = record s { mvars = λ b. if b == a then f (s.mvars b) else s.mvars b }
