-- ===== src/Eval/Queue/Ends.antt =====
-- The two ends of the thread queues of c/eval.c: what is added at the tail comes out at the head.
use mathlib.Core.Path.{subst}
use haskell_os.Base.{
  ℕ, ◌≡◌, ◌≢◌, refl, sym, arith, ◌==◌, if◌then◌else◌, true, false, List, [], ◌∷◌, ◌++◌,
}
use haskell_os.Eval.Threads.{Threads, Mqueue, on_thread, set_queue}
use haskell_os.Eval.Queue.{add_q_tail, remove_q_head}
use haskell_os.Eval.Queue.Chain.{
  has, Distinct, last_or, Chain, IsQueue, SameLinks, SameLinks-outside, SameLinks-trans,
  has-last_or, last_or-append, Distinct-append,
}

-- Link `mt` behind the last thread of a chain.
Chain-snoc :
    (t : Threads) (mt x : ℕ) (xs : List ℕ) (p : ℕ)
    → Distinct (x ∷ xs)
    → has mt (x ∷ xs) ≡ false
    → mt ≢ 0
    → Chain t p (x ∷ xs)
    → Chain
        (on_thread mt (set_queue 0) (on_thread (last_or x xs) (set_queue mt) t))
        p
        (x ∷ xs ++ mt ∷ [])
Chain-snoc t mt x [] p d out nz c = ground arith
Chain-snoc t mt x (y ∷ ys) p d out nz c = (
  c.0,
  (
    c.1.0,
    subst
        (λ (q : ℕ).
          Chain (on_thread mt (set_queue 0) (on_thread (last_or y ys) (set_queue mt) t)) q
            (y ∷ ys ++ mt ∷ []))
        (sym (ground (arith, has-last_or y ys)))
        (Chain-snoc t mt y ys _ d.1 (ground arith) nz c.1.1),
  ),
)

-- A thread added at the tail becomes the last one of the queue.
pub add_q_tail-append :
    (t : Threads) (q : Mqueue) (mt : ℕ) (xs : List ℕ)
    → IsQueue t q xs
    → mt ≢ 0
    → has mt xs ≡ false
    → IsQueue (add_q_tail t q mt).0 (add_q_tail t q mt).1 (xs ++ mt ∷ [])
unfolding add_q_tail
add_q_tail-append t q mt [] v nz out =
    rw (v.chain) (record { chain = ground arith; tail = refl; distinct = (refl, tt) })
add_q_tail-append t q mt (x ∷ xs) v nz out = rw (head_used) (record {
  chain =
      subst
        (λ (l : ℕ).
          Chain (on_thread mt (set_queue 0) (on_thread l (set_queue mt) t)) q.mq_head
            (x ∷ xs ++ mt ∷ []))
        (sym v.tail) (Chain-snoc t mt x xs q.mq_head v.distinct out nz v.chain);
  tail = sym (last_or-append x xs mt);
  distinct = Distinct-append (x ∷ xs) mt v.distinct out;
})
  where
    head_used : (q.mq_head == 0) ≡ false
    head_used = ground (arith, v.chain)

abbrev pub Apart : List ℕ → List ℕ → Type 0
Apart [] ys = Unit
Apart (x ∷ xs) ys = (has x ys ≡ false) × Apart xs ys

pub Apart-nil : (xs : List ℕ) → Apart xs []
Apart-nil [] = tt
Apart-nil (x ∷ xs) = (refl, Apart-nil xs)

pub Apart-cons :
    (xs : List ℕ) (y : ℕ) (ys : List ℕ) → Apart xs (y ∷ ys) → (has y xs ≡ false) × Apart xs ys
Apart-cons [] y ys a = (refl, tt)
Apart-cons (x ∷ xs) y ys a =
    let more = Apart-cons xs y ys a.1 in (ground (arith, more.0), (ground arith, more.1))

pub Apart-snoc :
    (xs : List ℕ) (y : ℕ) (ys : List ℕ) → Apart xs ys → has y ys ≡ false → Apart (xs ++ y ∷ []) ys
Apart-snoc [] y ys a h = (h, tt)
Apart-snoc (x ∷ xs) y ys a h = (a.0, Apart-snoc xs y ys a.1 h)

pub Apart-sym : (xs ys : List ℕ) → Apart xs ys → Apart ys xs
Apart-sym xs [] a = tt
Apart-sym xs (y ∷ ys) a = let more = Apart-cons xs y ys a in (more.0, Apart-sym xs ys more.1)

last_or-Apart :
    (d : ℕ) (xs ys : List ℕ) → has d ys ≡ false → Apart xs ys → has (last_or d xs) ys ≡ false
last_or-Apart d [] ys h a = h
last_or-Apart d (x ∷ xs) ys h a = last_or-Apart x xs ys a.0 a.1

-- The queues apart from this one and from the thread stay as they are.
pub add_q_tail-SameLinks :
    (t : Threads) (q : Mqueue) (mt : ℕ) (xs ys : List ℕ)
    → IsQueue t q xs
    → has mt ys ≡ false
    → Apart xs ys
    → SameLinks ys t (add_q_tail t q mt).0
unfolding add_q_tail
add_q_tail-SameLinks t q mt [] ys v out a = rw (v.chain) (SameLinks-outside ys t mt 0 out)
add_q_tail-SameLinks t q mt (x ∷ xs) ys v out a = rw (head_used) (
    SameLinks-trans ys t _ _
      (SameLinks-outside ys t q.mq_tail mt (rw v.tail (last_or-Apart x xs ys a.0 a.1)))
      (SameLinks-outside ys _ mt 0 out))
  where
    head_used : (q.mq_head == 0) ≡ false
    head_used = ground (arith, v.chain)

abbrev pub head_or_null : List ℕ → ℕ
head_or_null [] = 0
head_or_null (x ∷ xs) = x

abbrev pub rest : List ℕ → List ℕ
rest [] = []
rest (x ∷ xs) = xs

-- The head of a queue, null if it is empty, is the first thread, and the others are left.
pub remove_q_head-rest :
    (t : Threads) (q : Mqueue) (xs : List ℕ)
    → IsQueue t q xs
    → ((remove_q_head t q).0 ≡ head_or_null xs) × IsQueue t (remove_q_head t q).1 (rest xs)
unfolding remove_q_head
remove_q_head-rest t q [] v = rw (head_null) (refl, v)
  where
    head_null : (q.mq_head == 0) ≡ true
    head_null = ground (arith, v.chain)
remove_q_head-rest t q (x ∷ xs) v = rw (head_used) (
  v.chain.0,
  record {
    chain = rw (v.chain.0) v.chain.1.1;
    tail = next_tail xs v.chain.1.1 v.tail;
    distinct = v.distinct.1;
  },
)
  where
    head_used : (q.mq_head == 0) ≡ false
    head_used = ground (arith, v.chain)

    next_tail :
        (ys : List ℕ)
        → Chain t (t x).mt_queue ys
        → q.mq_tail ≡ last_or x ys
        → (if (t q.mq_head).mt_queue == 0 then 0 else q.mq_tail) ≡ last_or 0 ys
    next_tail [] c e = rw (v.chain.0, c) refl
    next_tail (y ∷ ys) c e = rw (v.chain.0, c.0) (ground arith)
