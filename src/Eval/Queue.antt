-- ===== src/Eval/Queue.antt =====
-- The queues of threads of c/eval.c, linked by `mt_queue`. A function that changes a queue through its
-- pointer gives the new queue.
pub mod Chain
pub mod Ends
pub mod Unlink
use haskell_os.Base.{ℕ, zero, suc, ◌==◌, if◌then◌else◌, Bool, true, false}
use haskell_os.Eval.Threads.{Threads, Mqueue, on_thread, set_queue}

unfoldable pub add_q_tail : Threads → Mqueue → ℕ → Threads × Mqueue
add_q_tail t q mt =
    if q.mq_head == 0
    then (on_thread mt (set_queue 0) t, record { mq_head = mt; mq_tail = mt })
    else (
      on_thread mt (set_queue 0) (on_thread q.mq_tail (set_queue mt) t),
      record q { mq_tail = mt },
    )

-- The thread, 0 if there is none, and the queue left.
unfoldable pub remove_q_head : Threads → Mqueue → ℕ × Mqueue
remove_q_head t q =
    if q.mq_head == 0
    then (0, q)
    else (let next = (t q.mq_head).mt_queue in
        (q.mq_head, record { mq_head = next; mq_tail = if next == 0 then 0 else q.mq_tail }))

-- How the first loop of `find_and_unlink` ends: out of fuel, at the end of the queue, or with `mtp` at
-- the link that leads to the thread, which stands in the thread `prev`, or in `mq_head` if that is 0.
pub data Search : Type 0 where
  spent : Search
  absent : Search
  link_of : ℕ → Search

unfoldable pub find_link : Threads → ℕ → ℕ → ℕ → ℕ → Search
find_link t mt zero prev cur = spent
find_link t mt (suc fuel) prev cur =
    let rest = find_link t mt fuel cur (t cur).mt_queue in
    if cur == 0 then absent else if cur == mt then link_of prev else rest

-- The second loop, which looks for the last element from `cur` on.
unfoldable pub last_link : Threads → ℕ → ℕ → ℕ
last_link t zero cur = cur
last_link t (suc fuel) cur =
    let rest = last_link t fuel (t cur).mt_queue in if (t cur).mt_queue == 0 then cur else rest

-- What follows `*mtp = mt->mt_queue`.
unfoldable pub mend_tail : ℕ → ℕ → Threads → Mqueue → Mqueue
mend_tail fuel next t q =
    if next == 0
    then record q { mq_tail = if q.mq_head == 0 then 0 else last_link t fuel q.mq_head }
    else q

unfoldable pub unlink_at : ℕ → ℕ → Search → Threads → Mqueue → Bool × Threads × Mqueue
unlink_at fuel mt spent t q = (false, t, q)
unlink_at fuel mt absent t q = (false, t, q)
unlink_at fuel mt (link_of prev) t q =
    let next = (t mt).mt_queue in
    if prev == 0
    then (true, t, mend_tail fuel next t (record q { mq_head = next }))
    else (let u = on_thread prev (set_queue next) t in (true, u, mend_tail fuel next u q))

-- With fuel for both loops: as much as there are threads in the queue, and one more.
unfoldable pub find_and_unlink : ℕ → Threads → Mqueue → ℕ → Bool × Threads × Mqueue
unfolding unlink_at
find_and_unlink fuel t q mt = unlink_at fuel mt (find_link t mt fuel 0 q.mq_head) t q
