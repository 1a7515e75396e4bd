-- ===== src/Eval/Schedule/Place.antt =====
-- `thread_delay` of c/eval.c puts a thread among those that sleep, in its place.
use mathlib.Core.Path.{subst}
use haskell_os.Base.{
  ℕ, zero, suc, ◌<◌, ◌≡◌, ◌≢◌, refl, sym, ◌∙◌, arith, ◌==◌, if◌then◌else◌, true, false, List, [],
  ◌∷◌, length, Bool-cases, inl, inr,
}
use haskell_os.Base.Int.{ℤ}
use haskell_os.Eval.Threads.{Rts, Threads, Mqueue, on_thread, set_queue}
use haskell_os.Eval.Queue.{link_of}
use haskell_os.Eval.Queue.Chain.{
  has, Distinct, Chain, Chain-frame, IsQueue, last_or, SameLinks-outside, SameLinks-trans,
  Chain-skip, has-null,
}
use haskell_os.Eval.Schedule.{is_before, delay_link, insert_at, enqueue_delay}
use haskell_os.Eval.Schedule.Ascending.{place}

-- The threads between which `a` is placed, 0 where there is none.
abbrev pub prev_of : (ℕ → ℤ) → ℕ → ℕ → List ℕ → ℕ
prev_of at a prev [] = prev
prev_of at a prev (y ∷ ys) = if is_before (at a) (at y) then prev else prev_of at a y ys

abbrev next_of : (ℕ → ℤ) → ℕ → List ℕ → ℕ
next_of at a [] = 0
next_of at a (y ∷ ys) = if is_before (at a) (at y) then y else next_of at a ys

abbrev pub times : Threads → ℕ → ℤ
times t x = (t x).mt_at

pub delay_link-prev_of :
    (t : Threads) (a fuel prev cur : ℕ) (xs : List ℕ)
    → Chain t cur xs
    → length xs < fuel
    → delay_link t (t a).mt_at fuel prev cur ≡ link_of (prev_of (times t) a prev xs)
unfolding delay_link
delay_link-prev_of t a zero prev cur xs c h = absurd (omega arith)
delay_link-prev_of t a (suc fuel) prev cur [] c h = ground arith
delay_link-prev_of t a (suc fuel) prev cur (x ∷ xs) c h =
    ground (arith, delay_link-prev_of t a fuel cur (t cur).mt_queue xs)

has-prev_of : (at : ℕ → ℤ) (a p : ℕ) (xs : List ℕ) → has (prev_of at a p xs) (p ∷ xs) ≡ true
has-prev_of at a p [] = ground arith
has-prev_of at a p (x ∷ xs) = ground (arith, has-prev_of at a x xs)

link-next_of :
    (t : Threads) (at : ℕ → ℤ) (a p x : ℕ) (xs : List ℕ)
    → Chain t p (x ∷ xs)
    → (t (prev_of at a x xs)).mt_queue ≡ next_of at a xs
link-next_of t at a p x [] c = c.1.1
link-next_of t at a p x (y ∷ ys) c = ground (arith, link-next_of t at a (t x).mt_queue y ys c.1.1)

Chain-place :
    (t : Threads) (at : ℕ → ℤ) (a p x : ℕ) (xs : List ℕ) (b n : ℕ)
    → Distinct (x ∷ xs)
    → has a (x ∷ xs) ≡ false
    → a ≢ 0
    → Chain t p (x ∷ xs)
    → prev_of at a x xs ≡ b
    → next_of at a xs ≡ n
    → Chain (on_thread b (set_queue a) (on_thread a (set_queue n) t)) p (x ∷ place at a xs)
Chain-place t at a p x [] b n d out nz c e f = ground arith
Chain-place t at a p x (y ∷ ys) b n d out nz c e f = elim (Bool-cases (is_before (at a) (at y))) [
  | inl g ↦ rw g (c.0, (c.1.0, (ground arith, (nz, linked g))))
  | inr g ↦ rw g (
    c.0,
    (
      c.1.0,
      subst
          (λ (q : ℕ).
            Chain (on_thread b (set_queue a) (on_thread a (set_queue n) t)) q (y ∷ place at a ys))
          {x = (t x).mt_queue}
          {y = (on_thread b (set_queue a) (on_thread a (set_queue n) t) x).mt_queue}
          (ground (arith, has-prev_of at a y ys))
          (Chain-place t at a (t x).mt_queue y ys b n d.1 (ground arith) nz c.1.1 (ground arith)
            (ground arith)),
    ),
  )
]
  where
    linked :
        is_before (at a) (at y) ≡ true
        → Chain
            (on_thread b (set_queue a) (on_thread a (set_queue n) t))
            (on_thread b (set_queue a) (on_thread a (set_queue n) t) a).mt_queue
            (y ∷ ys)
    linked g =
        subst
          (λ (q : ℕ). Chain (on_thread b (set_queue a) (on_thread a (set_queue n) t)) q (y ∷ ys))
          {x = y} {y = (on_thread b (set_queue a) (on_thread a (set_queue n) t) a).mt_queue}
          (ground arith)
          (Chain-frame (y ∷ ys) t _ y
            (SameLinks-trans (y ∷ ys) t (on_thread a (set_queue n) t) _
              (SameLinks-outside (y ∷ ys) t a n (ground arith))
              (SameLinks-outside (y ∷ ys) _ b a (ground arith)))
            (refl, c.1.1.1))

last_or-place_end :
    (at : ℕ → ℤ) (a d : ℕ) (xs : List ℕ)
    → has 0 xs ≡ false
    → next_of at a xs ≡ 0
    → last_or d (place at a xs) ≡ a
last_or-place_end at a d [] h e = refl
last_or-place_end at a d (y ∷ ys) h e = ground (arith, last_or-place_end at a y ys)

last_or-place_middle :
    (at : ℕ → ℤ) (a d : ℕ) (xs : List ℕ)
    → next_of at a xs ≢ 0
    → last_or d (place at a xs) ≡ last_or d xs
last_or-place_middle at a d [] h = absurd (h refl)
last_or-place_middle at a d (y ∷ ys) h = ground (arith, last_or-place_middle at a y ys)

has-place :
    (at : ℕ → ℤ) (a b : ℕ) (xs : List ℕ) → b ≢ a → has b xs ≡ false → has b (place at a xs) ≡ false
has-place at a b [] h k = ground arith
has-place at a b (x ∷ xs) h k = ground (arith, has-place at a b xs)

Distinct-place :
    (at : ℕ → ℤ) (a : ℕ) (xs : List ℕ) → Distinct xs → has a xs ≡ false → Distinct (place at a xs)
Distinct-place at a [] d out = (refl, tt)
Distinct-place at a (x ∷ xs) d out = elim (Bool-cases (is_before (at a) (at x))) [
  | inl e ↦ rw e (out, d)
  | inr e ↦ rw e (has-place at a x xs (ground arith) d.0, Distinct-place at a xs d.1 (ground arith))
]

placed_tail :
    (at : ℕ → ℤ) (a d tail next : ℕ) (xs : List ℕ)
    → has 0 xs ≡ false
    → tail ≡ last_or d xs
    → next ≡ next_of at a xs
    → (if next == 0 then a else tail) ≡ last_or d (place at a xs)
placed_tail at a d tail next xs h t e = elim (Bool-cases (next == 0)) [
  | inl z ↦ rw z (sym (last_or-place_end at a d xs h (ground arith)))
  | inr z ↦ rw z (t ∙ sym (last_or-place_middle at a d xs (ground arith)))
]

-- `insert_at` at the link that `delay_link` finds.
insert_at-place :
    (t : Threads) (at : ℕ → ℤ) (q : Mqueue) (a : ℕ) (xs : List ℕ)
    → IsQueue t q xs
    → a ≢ 0
    → has a xs ≡ false
    → IsQueue
        (insert_at a (link_of (prev_of at a 0 xs)) t q).0
        (insert_at a (link_of (prev_of at a 0 xs)) t q).1
        (place at a xs)
unfolding insert_at
insert_at-place t at q a [] v nz out =
    rw (v.chain) (record { chain = ground arith; tail = refl; distinct = (refl, tt) })
insert_at-place t at q a (x ∷ xs) v nz out = elim (Bool-cases (is_before (at a) (at x))) [
  | inl e ↦ rw e (record {
    chain = (refl, (nz, Chain-skip t a q.mq_head (x ∷ xs) out v.chain));
    tail = rw (head_used) v.tail;
    distinct = (out, v.distinct);
  })
  | inr e ↦
      rw (e, prev_used)
        (record {
          chain =
              Chain-place t at a q.mq_head x xs (prev_of at a x xs) _ v.distinct out nz v.chain refl
                (sym (link-next_of t at a q.mq_head x xs v.chain));
          tail =
              placed_tail at a x q.mq_tail (t (prev_of at a x xs)).mt_queue xs
                (has-null t (t x).mt_queue xs v.chain.1.1) v.tail
                (link-next_of t at a q.mq_head x xs v.chain);
          distinct = placed_distinct e;
        })
]
  where
    head_used : (q.mq_head == 0) ≡ false
    head_used = ground (arith, v.chain)

    prev_used : (prev_of at a x xs == 0) ≡ false
    prev_used = ground (arith, has-prev_of at a x xs, has-null t q.mq_head (x ∷ xs) v.chain)

    placed_distinct : is_before (at a) (at x) ≡ false → Distinct (x ∷ place at a xs)
    placed_distinct e = (
      has-place at a x xs (ground arith) v.distinct.0,
      Distinct-place at a xs v.distinct.1 (ground arith),
    )

-- A thread that goes to sleep takes the place in `timeq` that its wakeup time gives it, before those
-- that wake no earlier, when there is more fuel than threads sleep.
pub enqueue_delay-place :
    (fuel a : ℕ) (s : Rts) (xs : List ℕ)
    → IsQueue s.threads s.timeq xs
    → a ≢ 0
    → has a xs ≡ false
    → length xs < fuel
    → IsQueue
        (enqueue_delay fuel a s).threads
        (enqueue_delay fuel a s).timeq
        (place (times s.threads) a xs)
unfolding enqueue_delay
enqueue_delay-place fuel a s xs v nz out h =
    rw (delay_link-prev_of s.threads a fuel 0 s.timeq.mq_head xs v.chain h)
      (insert_at-place s.threads (times s.threads) s.timeq a xs v nz out)
