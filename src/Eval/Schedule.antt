-- ===== src/Eval/Schedule.antt =====
-- The scheduler of c/eval.c: delays, time slices and the preemption that the timer interrupt asks for.
-- `now` is what `CLOCK_GET` gives, the low word of the counter; `fuel` bounds the loops over a queue.
pub mod Delay
pub mod Ascending
pub mod Place
pub mod Beside
pub mod Sleep
pub mod Preempt
pub mod Turns
use haskell_os.Base.{
  ℕ, zero, suc, ◌+◌, ◌-◌, ◌/◌, ltb, leb, ◌==◌, if◌then◌else◌, Bool, true, false, not, ◌&&◌, ◌||◌,
  u32, sub32, List, [], ◌∷◌, ◌++◌,
}
use haskell_os.Base.Int.{ℤ, pos, negsuc, signed32, is_positive}
use haskell_os.Eval.Threads.{
  Rts, Mthread, Mqueue, Threads, ts_runnable, ts_wait_time, expired, with_thread, on_thread,
  set_queue,
}
use haskell_os.Eval.Queue.{Search, spent, absent, link_of}
use haskell_os.Eval.Run.{
  E, ◌>>=◌, ◌>>◌, pure, gets, modify, act, err, returned, unfinished, pop_runq, pop_timeq,
  add_runq_tail, resched,
}
use haskell_os.Eval.Mvar.{check_thrown}

-- `mt_at <= now`.
unfoldable pub is_due : ℤ → ℕ → Bool
is_due (pos at) now = leb at now
is_due (negsuc n) now = true

-- `a <= b` for two wakeup times.
unfoldable pub is_before : ℤ → ℤ → Bool
is_before at (pos b) = is_due at b
is_before (pos a) (negsuc b) = false
is_before (negsuc a) (negsuc b) = leb b a

unfoldable pub wake_due : ℕ → ℕ → E (Unit {0})
wake_due zero now s = unfinished
wake_due (suc fuel) now s =
    let popped = pop_timeq s in
    let more = wake_due fuel now (
      with_thread popped.0 (λ m. record m { mt_at = expired }) (add_runq_tail popped.0 popped.1)) in
    if s.timeq.mq_head == 0
    then pure tt s
    else if is_due (s.threads s.timeq.mq_head).mt_at now
    then more
    else pure tt s

unfoldable pub check_timeq : ℕ → ℕ → E (Unit {0})
check_timeq fuel now = wake_due fuel now

-- `runq.mq_head->mt_num_slices++`
unfoldable pub count_slice : Rts → Rts
count_slice s =
    with_thread s.runq.mq_head (λ m. record m { mt_num_slices = u32 (m.mt_num_slices + 1) })
      (record s { num_yield = u32 (s.num_yield + 1) })

unfoldable pub new_slice : Rts → Rts
new_slice s = record s {
  glob_slice = s.slice;
  num_reductions = u32 (s.num_reductions + sub32 s.slice 1);
}

-- The end of `yield`.
unfoldable pub switch : E (Unit {0})
switch = do
  next ← gets (λ s. (s.threads s.runq.mq_head).mt_queue)
  if next == 0
      then modify new_slice
      else (do mt ← act pop_runq; modify (add_runq_tail mt); resched mt ts_runnable)

-- `check_sigint` does nothing in this build.
unfoldable pub yield : ℕ → ℕ → E (Unit {0})
yield fuel now = do
  dying ← gets (λ s. s.in_raise)
  if dying then pure tt else (do
    modify count_slice
    sleepers ← gets (λ s. s.timeq.mq_head)
    if sleepers == 0 then pure tt else check_timeq fuel now
    check_thrown fuel false
    switch)

-- What `evali` does before each reduction.
unfoldable pub preempt : ℕ → ℕ → E (Unit {0})
preempt fuel now = do
  modify (λ s. record s { glob_slice = sub32 s.glob_slice 1 })
  over ← gets (λ s. not (is_positive (signed32 s.glob_slice)) || not (s.preempt_pending == 0))
  if over then (do modify (λ s. record s { preempt_pending = 0 }); yield fuel now) else pure tt

-- The link that the loop of `thread_delay` ends at; `at` is the new wakeup time.
unfoldable pub delay_link : Threads → ℤ → ℕ → ℕ → ℕ → Search
delay_link t at zero prev cur = spent
delay_link t at (suc fuel) prev cur =
    let rest = delay_link t at fuel cur (t cur).mt_queue in
    if cur == 0 then link_of prev else if is_before at (t cur).mt_at then link_of prev else rest

-- The forward link, the link to the thread, and the tail if there is no forward link.
unfoldable pub insert_at : ℕ → Search → Threads → Mqueue → Threads × Mqueue
insert_at mt spent t q = (t, q)
insert_at mt absent t q = (t, q)
insert_at mt (link_of prev) t q =
    let next = if prev == 0 then q.mq_head else (t prev).mt_queue in
    let u = on_thread mt (set_queue next) t in
    let tail = if next == 0 then mt else q.mq_tail in
    if prev == 0
    then (u, record { mq_head = mt; mq_tail = tail })
    else (on_thread prev (set_queue mt) u, record q { mq_tail = tail })

unfoldable pub enqueue_delay : ℕ → ℕ → Rts → Rts
enqueue_delay fuel mt s =
    let r =
      insert_at mt (delay_link s.threads (s.threads mt).mt_at fuel 0 s.timeq.mq_head) s.threads
        s.timeq in
    record s { threads = r.0; timeq = r.1 }

unfoldable pub thread_delay : {A : Type 0} → ℕ → ℕ → ℕ → E A
thread_delay fuel now usecs = do
  mt ← act pop_runq
  modify (with_thread mt (λ m. record m { mt_at = pos (now + usecs) }))
  modify (enqueue_delay fuel mt)
  resched mt ts_wait_time

unfoldable pub is_expired : ℤ → Bool
is_expired (pos n) = false
is_expired (negsuc n) = n == 0

-- The case of `evali` for `threadDelay`, on an argument that is evaluated.
unfoldable pub io_thread_delay : ℕ → ℕ → ℕ → E (Unit {0})
io_thread_delay fuel now usecs = do
  check_thrown fuel true
  at ← gets (λ s. (s.threads s.runq.mq_head).mt_at)
  if is_expired at
      then modify (λ s. with_thread s.runq.mq_head (λ m. record m { mt_at = pos 0 }) s)
      else thread_delay fuel now usecs

-- "deadlock"
abbrev deadlock_text : List ℕ
deadlock_text = b'd' ∷ b'e' ∷ b'a' ∷ b'd' ∷ b'l' ∷ b'o' ∷ b'c' ∷ b'k' ∷ []

-- How long `pause_exec` sleeps `now`, as the argument of `CLOCK_SLEEP`, for a thread to wake at `at`.
unfoldable pub pause_time : ℤ → ℕ → List ℕ
pause_time (negsuc n) now = []
pause_time (pos at) now =
    let quarter = (at - now) / 4 in
    if ltb now at then u32 (if ltb quarter 50 then 50 else quarter) ∷ [] else []

-- The loop of `pause_exec`: each round reads the clock twice. The result is the list of its sleeps.
unfoldable pub pause_loop : ℕ → List (ℕ × ℕ) → List ℕ → E (List ℕ)
pause_loop fuel [] slept s =
    if s.runq.mq_head == 0 && not (s.timeq.mq_head == 0) then unfinished else pure slept s
pause_loop fuel ((before, now) ∷ readings) slept s =
    let slept' = slept ++ pause_time (s.threads s.timeq.mq_head).mt_at before in
    let more = (check_timeq fuel now >> pause_loop fuel readings slept') s in
    if s.runq.mq_head == 0 && not (s.timeq.mq_head == 0) then more else pure slept s

unfoldable pub pause_exec : ℕ → List (ℕ × ℕ) → E (List ℕ)
pause_exec fuel readings = do
  sleepers ← gets (λ s. s.timeq.mq_head)
  if sleepers == 0 then err deadlock_text else pause_loop fuel readings []
