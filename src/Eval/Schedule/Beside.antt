-- ===== src/Eval/Schedule/Beside.antt =====
-- What placing a thread in `timeq` of c/eval.c leaves as it was: the other queues, and the times.
use haskell_os.Base.{
  ℕ, ◌<◌, ◌≡◌, ◌≢◌, refl, arith, ◌==◌, false, List, [], ◌∷◌, length, Bool-cases, inl, inr,
}
use haskell_os.Base.Int.{ℤ}
use haskell_os.Eval.Threads.{Rts, Threads, Mqueue}
use haskell_os.Eval.Queue.{Search, spent, absent, link_of}
use haskell_os.Eval.Queue.Chain.{has, IsQueue, SameLinks, SameLinks-outside, SameLinks-trans}
use haskell_os.Eval.Queue.Ends.{Apart}
use haskell_os.Eval.Schedule.{is_before, delay_link, insert_at, enqueue_delay}
use haskell_os.Eval.Schedule.Place.{prev_of, times, delay_link-prev_of}

-- The queues apart from `timeq` and from the thread keep their links.
insert_at-SameLinks :
    (t : Threads) (at : ℕ → ℤ) (q : Mqueue) (a : ℕ) (xs ys : List ℕ)
    → IsQueue t q xs
    → has a ys ≡ false
    → Apart xs ys
    → SameLinks ys t (insert_at a (link_of (prev_of at a 0 xs)) t q).0
unfolding insert_at
insert_at-SameLinks t at q a xs ys v out apart = elim (Bool-cases (prev_of at a 0 xs == 0)) [
  | inl e ↦ rw e (SameLinks-outside ys t a q.mq_head out)
  | inr e ↦ rw e (
      SameLinks-trans ys t _ _ (SameLinks-outside ys t a _ out)
        (SameLinks-outside ys _ (prev_of at a 0 xs) a (prev_outside xs 0 apart (ground arith))))
]
  where
    prev_outside :
        (zs : List ℕ) (p : ℕ)
        → Apart zs ys
        → prev_of at a p zs ≢ p
        → has (prev_of at a p zs) ys ≡ false
    prev_outside [] p h k = absurd (k refl)
    prev_outside (z ∷ zs) p h k = elim (Bool-cases (is_before (at a) (at z))) [
      | inl e ↦ absurd (ground arith)
      | inr e ↦ elim (Bool-cases (prev_of at a z zs == z)) [
        | inl f ↦ ground arith
        | inr f ↦ ground (arith, prev_outside zs z h.1)
      ]
    ]

-- The same on the globals.
pub enqueue_delay-SameLinks :
    (fuel a : ℕ) (s : Rts) (xs ys : List ℕ)
    → IsQueue s.threads s.timeq xs
    → length xs < fuel
    → has a ys ≡ false
    → Apart xs ys
    → SameLinks ys s.threads (enqueue_delay fuel a s).threads
unfolding enqueue_delay
enqueue_delay-SameLinks fuel a s xs ys v h out apart =
    rw (delay_link-prev_of s.threads a fuel 0 s.timeq.mq_head xs v.chain h)
      (insert_at-SameLinks s.threads (times s.threads) s.timeq a xs ys v out apart)

insert_at_at :
    (a b : ℕ) (r : Search) (t : Threads) (q : Mqueue)
    → ((insert_at a r t q).0 b).mt_at ≡ (t b).mt_at
unfolding insert_at
insert_at_at a b spent t q = refl
insert_at_at a b absent t q = refl
insert_at_at a b (link_of prev) t q = ground arith

pub enqueue_delay_at :
    (fuel a b : ℕ) (s : Rts) → times (enqueue_delay fuel a s).threads b ≡ times s.threads b
unfolding enqueue_delay
enqueue_delay_at fuel a b s =
    insert_at_at a b (delay_link s.threads (s.threads a).mt_at fuel 0 s.timeq.mq_head) s.threads
      s.timeq
