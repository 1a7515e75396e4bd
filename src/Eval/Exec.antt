-- ===== src/Eval/Exec.antt =====
-- `start_exec` of c/eval.c, the loop that runs the threads. The reducer `evali` and `die_exn`, which ends
-- the program, are arguments. Each round of the loop takes from a list what the clock gives to
-- `pause_exec`, should it wait; a run that uses up the list is unfinished.
pub mod Order
pub mod Died
use haskell_os.Base.{ℕ, ◌+◌, ◌==◌, if◌then◌else◌, Bool, true, false, u32, sub32, List, [], ◌∷◌}
use haskell_os.Eval.Threads.{
  Rts, ThSched, mt_main, mt_resched, mt_raise, ThState, ts_finished, ts_died, nil, main_thread_id,
  with_thread,
}
use haskell_os.Eval.Run.{
  Run, returned, jumped, stopped, unfinished, E, ◌>>=◌, ◌>>◌, pure, gets, modify, act, err,
  to_scheduler, to_handler, pop_runq, new_thread,
}
use haskell_os.Eval.Schedule.{pause_exec}

-- "no threads"
abbrev no_threads_text : List ℕ
no_threads_text = b'n' ∷ b'o' ∷ b' ' ∷ b't' ∷ b'h' ∷ b'r' ∷ b'e' ∷ b'a' ∷ b'd' ∷ b's' ∷ []

-- "FATAL: exception while trying to die"
abbrev fatal_text : List ℕ
fatal_text =
    b'F' ∷ b'A' ∷ b'T' ∷ b'A' ∷ b'L' ∷ b':' ∷ b' ' ∷ b'e' ∷ b'x' ∷ b'c' ∷ b'e' ∷ b'p' ∷ b't' ∷ b'i'
    ∷ b'o' ∷ b'n' ∷ b' ' ∷ b'w' ∷ b'h' ∷ b'i' ∷ b'l' ∷ b'e' ∷ b' ' ∷ b't' ∷ b'r' ∷ b'y' ∷ b'i'
    ∷ b'n' ∷ b'g' ∷ b' ' ∷ b't' ∷ b'o' ∷ b' ' ∷ b'd' ∷ b'i' ∷ b'e' ∷ []

unfoldable pub start_slice : ℕ → Rts → Rts
start_slice mt s =
    let g = u32 ((s.threads mt).mt_slice + s.slice) in
    record s { glob_slice = g; num_reductions = u32 (s.num_reductions + sub32 g 1) }

-- The loop's body before the call of `evali`, with the front thread as its result.
unfoldable pub dispatch : ℕ → List (ℕ × ℕ) → E ℕ
dispatch fuel readings = do
  front ← gets (λ s. s.runq.mq_head)
  if front == 0 then (do _ ← pause_exec fuel readings; pure tt) else pure tt
  mt ← gets (λ s. s.runq.mq_head)
  if mt == 0 then err no_threads_text else (do modify (start_slice mt); pure mt)

-- `mt->mt_state = ts; mt->mt_root = NIL;`
unfoldable pub end_thread : ThState → ℕ → Rts → Rts
end_thread ts mt s = with_thread mt (λ m. record m { mt_state = ts; mt_root = nil }) s

-- What follows the call of `evali`; the result says whether the main thread is done.
unfoldable pub finish : ℕ → E Bool
finish mt = do
  modify (λ s. record s { num_reductions = sub32 s.num_reductions s.glob_slice })
  _ ← act pop_runq
  modify (end_thread ts_finished mt)
  id ← gets (λ s. (s.threads mt).mt_id)
  if id == main_thread_id
      then (do modify (λ s. record s { main_thread = 0 }); pure true)
      else pure false

module _ (evali : ℕ → E ℕ) (die_exn : ℕ → E (Unit {0})) where
  unfoldable pub exec_round : ℕ → List (ℕ × ℕ) → E Bool
  exec_round fuel readings = do
    mt ← dispatch fuel readings
    root ← gets (λ s. (s.threads mt).mt_root)
    _ ← evali root
    finish mt

  -- The cases of `setjmp`.
  unfoldable pub caught : ThSched → E (Unit {0}) → E (Unit {0})
  caught mt_main again = again
  caught mt_resched again = do
    modify (λ s. record s { num_resched = u32 (s.num_resched + 1) })
    again
  caught mt_raise again = do
    dying ← gets (λ s. s.in_raise)
    if dying then err fatal_text else (do
      mt ← act pop_runq
      m ← gets (λ s. s.threads mt)
      exn ← gets (λ s. s.the_exn)
      if m.mt_id == main_thread_id then die_exn exn else (modify (end_thread ts_died mt) >> again))

  -- A jump to a handler is caught inside `evali`.
  unfoldable pub after_round : Run Bool → E (Unit {0}) → Run (Unit {0})
  after_round (returned true s) again = returned tt s
  after_round (returned false s) again = again s
  after_round (jumped (to_scheduler j) s) again = caught j again s
  after_round (jumped (to_handler b) s) again = jumped (to_handler b) s
  after_round (stopped text) again = stopped text
  after_round unfinished again = unfinished

  unfoldable pub exec_loop : ℕ → List (List (ℕ × ℕ)) → E (Unit {0})
  exec_loop fuel [] s = unfinished
  exec_loop fuel (readings ∷ more) s =
      after_round (exec_round fuel readings s) (exec_loop fuel more)

  -- `node` is what `new_ap` gives, and `mt` and `mv` are the addresses for the thread and its MVar.
  unfoldable pub start_exec : ℕ → List (List (ℕ × ℕ)) → ℕ → ℕ → ℕ → E (Unit {0})
  start_exec fuel rounds mt mv node = do
    modify (new_thread mt mv node)
    modify (with_thread mt (λ m. record m { mt_id = main_thread_id }))
    modify (λ s. record s { main_thread = mt })
    exec_loop fuel rounds
