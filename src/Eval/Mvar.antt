-- ===== src/Eval/Mvar.antt =====
-- The operations on MVars of c/eval.c, and exceptions thrown to other threads. `fuel` bounds the loops
-- over a queue and over the list of all MVars.
pub mod Wake
pub mod Take
pub mod Put
pub mod Thrown
pub mod Throw
use haskell_os.Base.{ℕ, zero, suc, ◌==◌, if◌then◌else◌, Bool, true, false, not, ◌||◌, List, [], ◌∷◌}
use haskell_os.Eval.Threads.{
  Rts, Mthread, Mvar, ThState, ts_runnable, ts_wait_mvar, ts_wait_time, ts_finished, ts_died,
  MaskState, mask_unmasked, mask_interruptible, mask_uninterruptible, nil, expired, with_thread,
  with_mvar,
}
use haskell_os.Eval.Queue.{find_and_unlink}
use haskell_os.Eval.Run.{
  E, ◌>>=◌, ◌>>◌, pure, gets, modify, act, err, returned, unfinished, pop_runq, pop_takeput,
  add_runq_tail, push_takeput, push_read, resched, raise_exn,
}

abbrev pub set_mval : ℕ → Mthread → Mthread
set_mval v m = record m { mt_mval = v }

-- The stashed value of the running thread, which it gives up.
unfoldable pub unstash : ℕ → E ℕ
unstash v = do modify (λ s. with_thread s.runq.mq_head (set_mval nil) s); pure v

unfoldable pub suspend : {A : Type 0} → (ℕ → Rts → Rts) → E A
suspend push = do mt ← act pop_runq; modify (push mt); resched mt ts_wait_mvar

-- The loops that wake every thread of `mv_takeput`; `stash` is what `put_mvar` does to each before.
unfoldable pub wake_all : ℕ → ℕ → (Mthread → Mthread) → E (Unit {0})
wake_all zero mv stash s = unfinished
wake_all (suc fuel) mv stash s =
    let popped = pop_takeput mv s in
    let more =
      wake_all fuel mv stash (add_runq_tail popped.0 (with_thread popped.0 stash popped.1)) in
    if popped.0 == 0 then pure tt popped.1 else more

unfoldable pub take_mvar : ℕ → Bool → ℕ → E ℕ
take_mvar fuel try mv = do
  stashed ← gets (λ s. (s.threads s.runq.mq_head).mt_mval)
  n ← gets (λ s. (s.mvars mv).mv_data)
  if not (stashed == nil)
      then unstash stashed
      else if not (n == nil)
      then (do
        modify (with_mvar mv (λ m. record m { mv_data = nil }))
        wake_all fuel mv (λ m. m)
        pure n)
      else if try
      then pure nil
      else suspend (push_takeput mv)

unfoldable pub read_mvar : Bool → ℕ → E ℕ
read_mvar try mv = do
  stashed ← gets (λ s. (s.threads s.runq.mq_head).mt_mval)
  n ← gets (λ s. (s.mvars mv).mv_data)
  if not (stashed == nil)
      then unstash stashed
      else if not (n == nil)
      then pure n
      else if try
      then pure nil
      else suspend (push_read mv)

-- `if ((mt = remove_q_head(&mv->mv_takeput)))`
unfoldable pub wake_one : ℕ → ℕ → Rts → Rts
wake_one mv v s =
    let popped = pop_takeput mv s in
    if popped.0 == 0
    then popped.1
    else with_thread popped.0 (set_mval v) (add_runq_tail popped.0 popped.1)

unfoldable pub put_mvar : ℕ → Bool → ℕ → ℕ → E ℕ
put_mvar fuel try mv v = do
  m ← gets (λ s. s.mvars mv)
  if not (m.mv_data == nil)
      then (if try then pure 0 else suspend (push_takeput mv))
      else if not (m.mv_takeput.mq_head == 0) || not (m.mv_read.mq_head == 0)
      then (do modify (wake_one mv v); wake_all fuel mv (set_mval v); pure 1)
      else (do modify (with_mvar mv (λ m. record m { mv_data = v })); pure 1)

-- "thread_intr: mvar"
abbrev intr_mvar_text : List ℕ
intr_mvar_text =
    b't' ∷ b'h' ∷ b'r' ∷ b'e' ∷ b'a' ∷ b'd' ∷ b'_' ∷ b'i' ∷ b'n' ∷ b't' ∷ b'r' ∷ b':' ∷ b' ' ∷ b'm'
    ∷ b'v' ∷ b'a' ∷ b'r' ∷ []

-- "thread_intr: timeq"
abbrev intr_timeq_text : List ℕ
intr_timeq_text =
    b't' ∷ b'h' ∷ b'r' ∷ b'e' ∷ b'a' ∷ b'd' ∷ b'_' ∷ b'i' ∷ b'n' ∷ b't' ∷ b'r' ∷ b':' ∷ b' ' ∷ b't'
    ∷ b'i' ∷ b'm' ∷ b'e' ∷ b'q' ∷ []

-- `goto found` with the thread unlinked from a queue of some MVar.
unfoldable pub unlink_waiter : ℕ → ℕ → ℕ → ℕ → E (Unit {0})
unlink_waiter fuel zero mt mv s = unfinished
unlink_waiter fuel (suc mvars_left) mt mv s =
    let in_takeput = find_and_unlink fuel s.threads (s.mvars mv).mv_takeput mt in
    let in_read = find_and_unlink fuel s.threads (s.mvars mv).mv_read mt in
    let next = unlink_waiter fuel mvars_left mt (s.mvars mv).mv_next s in
    if mv == 0
    then err intr_mvar_text s
    else if in_takeput.0
    then returned tt (
        with_mvar mv (λ m. record m { mv_takeput = in_takeput.2 })
          (record s { threads = in_takeput.1 }))
    else if in_read.0
    then returned tt
        (with_mvar mv (λ m. record m { mv_read = in_read.2 }) (record s { threads = in_read.1 }))
    else next

unfoldable pub is_uninterruptible : MaskState → Bool
is_uninterruptible mask_unmasked = false
is_uninterruptible mask_interruptible = false
is_uninterruptible mask_uninterruptible = true

unfoldable pub unlink_sleeper : ℕ → ℕ → E (Unit {0})
unlink_sleeper fuel mt s =
    let found = find_and_unlink fuel s.threads s.timeq mt in
    if found.0
    then returned tt (record s { threads = found.1; timeq = found.2 })
    else err intr_timeq_text s

unfoldable pub intr : ℕ → ℕ → MaskState → ThState → E (Unit {0})
intr fuel mt mask ts_runnable = pure tt
intr fuel mt mask ts_wait_mvar = if is_uninterruptible mask then pure tt else (do
  all_mvars ← gets (λ s. s.all_mvars)
  unlink_waiter fuel fuel mt all_mvars
  modify (with_thread mt (λ m. record m { mt_at = expired }))
  modify (add_runq_tail mt))
intr fuel mt mask ts_wait_time =
    if is_uninterruptible mask
    then pure tt
    else (do unlink_sleeper fuel mt; modify (add_runq_tail mt))
intr fuel mt mask ts_finished = pure tt
intr fuel mt mask ts_died = pure tt

unfoldable pub thread_intr : ℕ → ℕ → E (Unit {0})
thread_intr fuel mt = do m ← gets (λ s. s.threads mt); intr fuel mt m.mt_mask m.mt_state

unfoldable pub is_over : ThState → Bool
is_over ts_runnable = false
is_over ts_wait_mvar = false
is_over ts_wait_time = false
is_over ts_finished = true
is_over ts_died = true

unfoldable pub throwto : ℕ → ℕ → ℕ → E (Unit {0})
throwto fuel mt exn = do
  thread_intr fuel mt
  m ← gets (λ s. s.threads mt)
  if is_over m.mt_state then pure tt else (do _ ← put_mvar fuel false m.mt_exn exn; pure tt)

unfoldable pub is_masked : Bool → MaskState → Bool
is_masked interruptible mask_unmasked = false
is_masked interruptible mask_interruptible = not interruptible
is_masked interruptible mask_uninterruptible = true

unfoldable pub check_thrown : ℕ → Bool → E (Unit {0})
check_thrown fuel interruptible = do
  running ← gets (λ s. s.threads s.runq.mq_head)
  exn ← gets (λ s. (s.mvars running.mt_exn).mv_data)
  if exn == nil
      then pure tt
      else if is_masked interruptible running.mt_mask
      then pure tt
      else (do exn ← take_mvar fuel false running.mt_exn; raise_exn exn)
