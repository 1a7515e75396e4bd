-- ===== src/Eval/Queue/Unlink.antt =====
-- `find_and_unlink` of c/eval.c takes one thread out of a queue, wherever it stands.
pub mod Others
use mathlib.Core.Path.{subst}
use haskell_os.Base.{
  ℕ, zero, suc, ◌<◌, ◌≤◌, ◌≡◌, ◌≢◌, refl, ◌∙◌, sym, arith, ◌==◌, if◌then◌else◌, true, false, List,
  [], ◌∷◌, length, Bool-cases, inl, inr,
}
use haskell_os.Eval.Threads.{Threads, Mqueue, on_thread, set_queue}
use haskell_os.Eval.Queue.{
  find_link, last_link, mend_tail, unlink_at, find_and_unlink, absent, link_of,
}
use haskell_os.Eval.Queue.Chain.{has, Distinct, last_or, Chain, IsQueue, Chain-skip, has-null}

abbrev pub remove : ℕ → List ℕ → List ℕ
remove a [] = []
remove a (x ∷ xs) = if a == x then xs else x ∷ remove a xs

-- The thread before `a`.
abbrev pred : ℕ → ℕ → List ℕ → ℕ
pred a prev [] = prev
pred a prev (x ∷ xs) = if a == x then prev else pred a x xs

find_link-pred :
    (t : Threads) (a fuel prev cur : ℕ) (xs : List ℕ)
    → Chain t cur xs
    → length xs < fuel
    → has a xs ≡ true
    → find_link t a fuel prev cur ≡ link_of (pred a prev xs)
unfolding find_link
find_link-pred t a zero prev cur xs c h m = absurd (omega arith)
find_link-pred t a (suc fuel) prev cur [] c h m = cc
find_link-pred t a (suc fuel) prev cur (x ∷ xs) c h m = elim (Bool-cases (a == x)) [
  | inl e ↦ ground arith
  | inr e ↦ ground (arith, find_link-pred t a fuel cur (t cur).mt_queue xs)
]

find_link-absent :
    (t : Threads) (a fuel prev cur : ℕ) (xs : List ℕ)
    → Chain t cur xs
    → length xs < fuel
    → has a xs ≡ false
    → find_link t a fuel prev cur ≡ absent
unfolding find_link
find_link-absent t a zero prev cur xs c h m = absurd (omega arith)
find_link-absent t a (suc fuel) prev cur [] c h m = ground arith
find_link-absent t a (suc fuel) prev cur (x ∷ xs) c h m =
    ground (arith, find_link-absent t a fuel cur (t cur).mt_queue xs)

last_link-last :
    (t : Threads) (fuel p x : ℕ) (xs : List ℕ)
    → Chain t p (x ∷ xs)
    → length xs < fuel
    → last_link t fuel p ≡ last_or x xs
unfolding last_link
last_link-last t zero p x xs c h = absurd (omega arith)
last_link-last t (suc fuel) p x [] c h = ground arith
last_link-last t (suc fuel) p x (y ∷ ys) c h =
    ground (arith, last_link-last t fuel (t p).mt_queue y ys)

pub has-remove : (a b : ℕ) (xs : List ℕ) → has b xs ≡ false → has b (remove a xs) ≡ false
has-remove a b [] h = refl
has-remove a b (x ∷ xs) h = ground (arith, has-remove a b xs)

Distinct-remove : (a : ℕ) (xs : List ℕ) → Distinct xs → Distinct (remove a xs)
Distinct-remove a [] d = tt
Distinct-remove a (x ∷ xs) d = elim (Bool-cases (a == x)) [
  | inl e ↦ rw e d.1
  | inr e ↦ rw e (has-remove a x xs d.0, Distinct-remove a xs d.1)
]

length-remove-le : (a : ℕ) (xs : List ℕ) → length (remove a xs) ≤ length xs
length-remove-le a [] = omega arith
length-remove-le a (x ∷ xs) = ground (arith, length-remove-le a xs)

remove_absent : (a : ℕ) (xs : List ℕ) → has a xs ≡ false → remove a xs ≡ xs
remove_absent a [] h = refl
remove_absent a (x ∷ xs) h = ground (arith, remove_absent a xs)

has-pred : (a p : ℕ) (xs : List ℕ) → has a xs ≡ true → has (pred a p xs) (p ∷ xs) ≡ true
has-pred a p [] h = cc
has-pred a p (x ∷ xs) h = ground (arith, has-pred a x xs)

Chain-unlink :
    (t : Threads) (a p b x : ℕ) (xs : List ℕ)
    → Distinct (x ∷ xs)
    → has a xs ≡ true
    → Chain t p (x ∷ xs)
    → pred a x xs ≡ b
    → Chain (on_thread b (set_queue (t a).mt_queue) t) p (x ∷ remove a xs)
Chain-unlink t a p b x [] d m c e = cc
Chain-unlink t a p b x (y ∷ ys) d m c e = elim (Bool-cases (a == y)) [
  | inl f ↦
      subst (λ (z : ℕ). Chain (on_thread z (set_queue (t a).mt_queue) t) p (x ∷ remove a (y ∷ ys)))
        {x = x} {y = b} (ground arith)
        (rw f (
          c.0,
          (
            c.1.0,
            Chain-skip t x (t a).mt_queue ys (ground arith) (
                subst (λ (z : ℕ). Chain t (t z).mt_queue ys) {x = y} {y = a} (ground arith)
                  c.1.1.1.1),
          ),
        ))
  | inr f ↦ rw f (
    c.0,
    (
      c.1.0,
      subst (λ (q : ℕ). Chain (on_thread b (set_queue (t a).mt_queue) t) q (y ∷ remove a ys))
          {x = (t x).mt_queue} {y = (on_thread b (set_queue (t a).mt_queue) t x).mt_queue}
          (ground (arith, has-pred a y ys))
          (Chain-unlink t a (t x).mt_queue b y ys d.1 (ground arith) c.1.1 (ground arith)),
    ),
  )
]

last_or-remove :
    (t : Threads) (a d p : ℕ) (xs : List ℕ)
    → Chain t p xs
    → (t a).mt_queue ≢ 0
    → last_or d (remove a xs) ≡ last_or d xs
last_or-remove t a d p [] c h = refl
last_or-remove t a d p (x ∷ []) c h = elim (Bool-cases (a == x)) [
  | inl e ↦ ground arith
  | inr e ↦ ground arith
]
last_or-remove t a d p (x ∷ y ∷ ys) c h =
    ground (arith, last_or-remove t a x (t x).mt_queue (y ∷ ys))

-- The chain left, and its tail as the end of `find_and_unlink` leaves it.
mend_tail-IsQueue :
    (t u : Threads) (q : Mqueue) (fuel a next p : ℕ) (xs : List ℕ)
    → Distinct xs
    → Chain u q.mq_head (remove a xs)
    → length xs < fuel
    → Chain t p xs
    → next ≡ (t a).mt_queue
    → q.mq_tail ≡ last_or 0 xs
    → IsQueue u (mend_tail fuel next u q) (remove a xs)
unfolding mend_tail
mend_tail-IsQueue t u q fuel a next p xs dis c h k e l = elim (Bool-cases (next == 0)) [
  | inl z ↦ rw z (record {
    chain = c;
    tail = tail_found (remove a xs) c (omega (arith, length-remove-le a xs));
    distinct = Distinct-remove a xs dis;
  })
  | inr z ↦ rw z (record {
    chain = c;
    tail = l ∙ sym (last_or-remove t a 0 p xs k (ground arith));
    distinct = Distinct-remove a xs dis;
  })
]
  where
    tail_found :
        (ys : List ℕ)
        → Chain u q.mq_head ys
        → length ys < fuel
        → (if q.mq_head == 0 then 0 else last_link u fuel q.mq_head) ≡ last_or 0 ys
    tail_found [] c h = ground arith
    tail_found (y ∷ ys) c h = ground (arith, last_link-last u fuel q.mq_head y ys)

-- With more fuel than the queue has threads, the result says whether the thread was in the queue, and
-- the queue left holds the other threads in their order.
pub find_and_unlink-remove :
    (fuel : ℕ) (t : Threads) (q : Mqueue) (a : ℕ) (xs : List ℕ)
    → IsQueue t q xs
    → length xs < fuel
    → ((find_and_unlink fuel t q a).0 ≡ has a xs)
      × IsQueue (find_and_unlink fuel t q a).1 (find_and_unlink fuel t q a).2 (remove a xs)
unfolding find_and_unlink unlink_at
find_and_unlink-remove fuel t q a xs v h = elim (Bool-cases (has a xs)) [
  | inr m ↦
      rw (find_link-absent t a fuel 0 q.mq_head xs v.chain h m, m, remove_absent a xs m) (refl, v)
  | inl m ↦ rw (find_link-pred t a fuel 0 q.mq_head xs v.chain h m, m) (found xs v h m)
]
  where
    found :
        (ys : List ℕ)
        → IsQueue t q ys
        → length ys < fuel
        → has a ys ≡ true
        → ((unlink_at fuel a (link_of (pred a 0 ys)) t q).0 ≡ true)
          × IsQueue
              (unlink_at fuel a (link_of (pred a 0 ys)) t q).1
              (unlink_at fuel a (link_of (pred a 0 ys)) t q).2
              (remove a ys)
    found [] w k m = cc
    found (x ∷ ys) w k m = elim (Bool-cases (a == x)) [
      | inl e ↦ rw e (
        refl,
        subst (IsQueue t (mend_tail fuel (t a).mt_queue t (record q { mq_head = (t a).mt_queue })))
            {x = remove a (x ∷ ys)} {y = ys} (ground arith)
            (mend_tail-IsQueue t t (record q { mq_head = (t a).mt_queue }) fuel a (t a).mt_queue
              q.mq_head (x ∷ ys) w.distinct (rw e (head_gone e w.chain.1.1)) k w.chain refl w.tail),
      )
      | inr e ↦ rw (inner_pred e) (refl, inner e)
    ]
      where
        head_gone : (a == x) ≡ true → Chain t (t x).mt_queue ys → Chain t (t a).mt_queue ys
        head_gone e c =
            subst (λ (z : ℕ). Chain t (t z).mt_queue ys) {x = x} {y = a} (ground arith) c

        inner_pred : (a == x) ≡ false → (pred a 0 (x ∷ ys) == 0) ≡ false
        inner_pred e = ground (arith, has-pred a x ys, has-null t q.mq_head (x ∷ ys) w.chain)

        inner :
            (a == x) ≡ false
            → IsQueue
                (on_thread (pred a 0 (x ∷ ys)) (set_queue (t a).mt_queue) t)
                (mend_tail fuel
                  (t a).mt_queue
                  (on_thread (pred a 0 (x ∷ ys)) (set_queue (t a).mt_queue) t)
                  q)
                (remove a (x ∷ ys))
        inner e =
            mend_tail-IsQueue t _ q fuel a (t a).mt_queue q.mq_head (x ∷ ys) w.distinct
              (subst (Chain (on_thread (pred a 0 (x ∷ ys)) (set_queue (t a).mt_queue) t) q.mq_head)
                {x = x ∷ remove a ys} {y = remove a (x ∷ ys)} (ground arith)
                (Chain-unlink t a q.mq_head (pred a 0 (x ∷ ys)) x ys w.distinct (ground arith)
                  w.chain (ground arith)))
              k w.chain refl w.tail
