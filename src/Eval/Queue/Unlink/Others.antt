-- ===== src/Eval/Queue/Unlink/Others.antt =====
-- What `find_and_unlink` of c/eval.c leaves as it is: the other queues, and all of a thread but its link.
use haskell_os.Base.{
  ℕ, ◌<◌, ◌≡◌, ◌≢◌, refl, ap, arith, ◌==◌, false, List, [], ◌∷◌, length, Bool-cases, inl, inr,
}
use haskell_os.Eval.Threads.{Threads, Mqueue}
use haskell_os.Eval.Queue.{unlink_at, find_link, find_and_unlink, Search, spent, absent, link_of}
use haskell_os.Eval.Queue.Chain.{
  has, Distinct, IsQueue, SameLinks, SameLinks-all, SameLinks-outside,
}
use haskell_os.Eval.Queue.Ends.{Apart}
use haskell_os.Eval.Queue.Unlink.{remove, has-remove, pred, find_link-absent, find_link-pred}

pred_outside :
    (a p : ℕ) (xs ys : List ℕ) → Apart xs ys → pred a p xs ≢ p → has (pred a p xs) ys ≡ false
pred_outside a p [] ys h k = absurd (k refl)
pred_outside a p (x ∷ xs) ys h k = elim (Bool-cases (a == x)) [
  | inl e ↦ absurd (ground arith)
  | inr e ↦ elim (Bool-cases (pred a x xs == x)) [
    | inl f ↦ ground arith
    | inr f ↦ ground (arith, pred_outside a x xs ys h.1)
  ]
]

-- The other queues keep their links.
pub find_and_unlink-SameLinks :
    (fuel : ℕ) (t : Threads) (q : Mqueue) (a : ℕ) (xs ys : List ℕ)
    → IsQueue t q xs
    → length xs < fuel
    → Apart xs ys
    → SameLinks ys t (find_and_unlink fuel t q a).1
unfolding find_and_unlink unlink_at
find_and_unlink-SameLinks fuel t q a xs ys v h apart = elim (Bool-cases (has a xs)) [
  | inr m ↦
      rw (find_link-absent t a fuel 0 q.mq_head xs v.chain h m) (SameLinks-all ys t t (λ b. refl))
  | inl m ↦
      rw (find_link-pred t a fuel 0 q.mq_head xs v.chain h m)
        (elim (Bool-cases (pred a 0 xs == 0)) [
          | inl e ↦ rw e (SameLinks-all ys t t (λ b. refl))
          | inr e ↦ rw e (
              SameLinks-outside ys t (pred a 0 xs) (t a).mt_queue
                (pred_outside a 0 xs ys apart (ground arith)))
        ])
]

-- Nothing but links changes.
pub find_and_unlink_exn :
    (fuel : ℕ) (t : Threads) (q : Mqueue) (a b : ℕ)
    → ((find_and_unlink fuel t q a).1 b).mt_exn ≡ (t b).mt_exn
unfolding find_and_unlink unlink_at
find_and_unlink_exn fuel t q a b = unlink_at_exn (find_link t a fuel 0 q.mq_head)
  where
    unlink_at_exn : (r : Search) → ((unlink_at fuel a r t q).1 b).mt_exn ≡ (t b).mt_exn
    unlink_at_exn spent = refl
    unlink_at_exn absent = refl
    unlink_at_exn (link_of prev) = ground arith

-- The thread is not among those that are left, and these are apart from what all were apart from.
pub has-remove_self : (a : ℕ) (xs : List ℕ) → Distinct xs → has a (remove a xs) ≡ false
has-remove_self a [] d = refl
has-remove_self a (x ∷ xs) d = elim (Bool-cases (a == x)) [
  | inl e ↦ rw e (ground (arith, d.0, ap (λ (t : ℕ). has t xs) {x = x} {y = a}))
  | inr e ↦ rw e (ground (arith, has-remove_self a xs d.1))
]

pub Apart-remove : (a : ℕ) (rs xs : List ℕ) → Apart rs xs → Apart rs (remove a xs)
Apart-remove a [] xs h = tt
Apart-remove a (r ∷ rs) xs h = (has-remove a r xs h.0, Apart-remove a rs xs h.1)
