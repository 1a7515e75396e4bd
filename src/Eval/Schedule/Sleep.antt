-- ===== src/Eval/Schedule/Sleep.antt =====
-- `thread_delay` of c/eval.c puts the running thread to sleep until its time.
use mathlib.Core.Path.{subst}
use haskell_os.Base.{ℕ, ◌+◌, ◌<◌, ◌≡◌, ◌≢◌, refl, sym, ◌∙◌, arith, false, List, [], ◌∷◌, length}
use haskell_os.Base.Int.{ℤ, pos}
use haskell_os.Eval.Threads.{Rts, mt_resched, ts_wait_time, with_thread}
use haskell_os.Eval.Queue.Chain.{has, IsQueue, IsQueue-frame, SameLinks-keep}
use haskell_os.Eval.Queue.Ends.{Apart, Apart-cons}
use haskell_os.Eval.Run.{jumped, to_scheduler, pop_runq, cleanup, resched}
use haskell_os.Eval.Moves.{Runs, pop_runq-Runs, cleanup-Runs}
use haskell_os.Eval.Schedule.{enqueue_delay, thread_delay}
use haskell_os.Eval.Schedule.Ascending.{Ascends, IsAscending, place, place-IsAscending}
use haskell_os.Eval.Schedule.Place.{times, enqueue_delay-place}
use haskell_os.Eval.Schedule.Beside.{enqueue_delay-SameLinks, enqueue_delay_at}

-- The threads `xs` sleep, the first to wake at the head.
pub record IsAsleep (s : Rts) (xs : List ℕ) : Type 0 where
  pub queue : IsQueue s.threads s.timeq xs
  pub ascending : IsAscending (times s.threads) xs

abbrev SameAt : List ℕ → (ℕ → ℤ) → (ℕ → ℤ) → Type 0
SameAt [] f g = Unit
SameAt (x ∷ xs) f g = (f x ≡ g x) × SameAt xs f g

Ascends-cong :
    (f g : ℕ → ℤ) (low : ℤ) (xs : List ℕ) → SameAt xs f g → Ascends f low xs → Ascends g low xs
Ascends-cong f g low [] e h = tt
Ascends-cong f g low (x ∷ xs) e h = (rw⁻¹ (e.0) h.0, rw⁻¹ (e.0) (Ascends-cong f g (f x) xs e.1 h.1))

IsAscending-cong : (f g : ℕ → ℤ) (xs : List ℕ) → SameAt xs f g → IsAscending f xs → IsAscending g xs
IsAscending-cong f g [] e h = tt
IsAscending-cong f g (x ∷ xs) e h = rw⁻¹ (e.0) (Ascends-cong f g (f x) xs e.1 h)

SameAt-outside :
    (xs : List ℕ) (a : ℕ) (f g : ℕ → ℤ)
    → has a xs ≡ false
    → ((b : ℕ) → b ≢ a → f b ≡ g b)
    → SameAt xs f g
SameAt-outside [] a f g out h = tt
SameAt-outside (x ∷ xs) a f g out h = (h x (ground arith), SameAt-outside xs a f g (ground arith) h)

SameAt-all : (xs : List ℕ) (f g : ℕ → ℤ) → ((b : ℕ) → f b ≡ g b) → SameAt xs f g
SameAt-all [] f g h = tt
SameAt-all (x ∷ xs) f g h = (h x, SameAt-all xs f g h)

-- The running thread out of the run queue, with its wakeup time.
abbrev timed : ℕ → ℤ → Rts → Rts
timed x at s = with_thread x (λ m. record m { mt_at = at }) (pop_runq s).1

timed-Runs : (x : ℕ) (at : ℤ) (s : Rts) (xs : List ℕ) → Runs s (x ∷ xs) → Runs (timed x at s) xs
timed-Runs x at s xs v =
    IsQueue-frame xs (pop_runq s).1.threads _
      (SameLinks-keep xs (pop_runq s).1.threads x (λ m. record m { mt_at = at }) (λ m. refl))
      (pop_runq-Runs s x xs v).1

timed-IsAsleep :
    (x : ℕ) (at : ℤ) (s : Rts) (ts : List ℕ)
    → IsAsleep s ts
    → has x ts ≡ false
    → IsAsleep (timed x at s) ts
unfolding pop_runq
timed-IsAsleep x at s ts v out = record {
  queue =
      IsQueue-frame ts s.threads _
        (SameLinks-keep ts s.threads x (λ m. record m { mt_at = at }) (λ m. refl)) v.queue;
  ascending =
      IsAscending-cong (times s.threads) _ ts
        (SameAt-outside ts x (times s.threads) _ out (λ b h. ground arith)) v.ascending;
}

place_cong :
    (f g : ℕ → ℤ) (a : ℕ) (xs : List ℕ) → ((b : ℕ) → f b ≡ g b) → place f a xs ≡ place g a xs
place_cong f g a [] h = refl
place_cong f g a (y ∷ ys) h = rw (h a, h y, place_cong f g a ys h) refl

-- All of `thread_delay` but the jump.
abbrev put_to_sleep : ℕ → ℕ → ℤ → Rts → Rts
put_to_sleep fuel x at s = cleanup x ts_wait_time (enqueue_delay fuel x (timed x at s))

put_to_sleep_at :
    (fuel x b : ℕ) (at : ℤ) (s : Rts)
    → times (put_to_sleep fuel x at s).threads b ≡ times (timed x at s).threads b
unfolding cleanup
put_to_sleep_at fuel x b at s = ground (arith, enqueue_delay_at fuel x b (timed x at s))

put_to_sleep-Runs :
    (fuel x : ℕ) (at : ℤ) (s : Rts) (xs ts : List ℕ)
    → Runs s (x ∷ xs)
    → IsQueue (timed x at s).threads (timed x at s).timeq ts
    → length ts < fuel
    → Apart ts xs
    → Runs (put_to_sleep fuel x at s) xs
unfolding enqueue_delay
put_to_sleep-Runs fuel x at s xs ts v w h apart =
    cleanup-Runs (enqueue_delay fuel x (timed x at s)) x ts_wait_time xs (
      IsQueue-frame xs (timed x at s).threads (enqueue_delay fuel x (timed x at s)).threads
        (enqueue_delay-SameLinks fuel x (timed x at s) ts xs w h v.distinct.0 apart)
        (timed-Runs x at s xs v))

put_to_sleep-IsAsleep :
    (fuel x : ℕ) (at : ℤ) (s : Rts) (ts : List ℕ)
    → IsAsleep (timed x at s) ts
    → x ≢ 0
    → has x ts ≡ false
    → length ts < fuel
    → IsAsleep (put_to_sleep fuel x at s) (place (times (timed x at s).threads) x ts)
unfolding cleanup
put_to_sleep-IsAsleep fuel x at s ts v nz out h =
    let w = timed x at s in
    let e = enqueue_delay fuel x w in
    let ys = place (times w.threads) x ts in
    record {
      queue =
          IsQueue-frame ys e.threads _
            (SameLinks-keep ys e.threads x
              (λ m. record m { mt_slice = e.stack_ptr; mt_state = ts_wait_time }) (λ m. refl))
            (enqueue_delay-place fuel x w ts v.queue nz out h);
      ascending =
          IsAscending-cong (times w.threads) _ ys
            (SameAt-all ys (times w.threads) _ (λ b. sym (put_to_sleep_at fuel x b at s)))
            (place-IsAscending (times w.threads) x ts v.ascending);
    }

thread_delay_sleeps :
    {A : Type 0} (fuel now usecs : ℕ) (s : Rts) (x : ℕ) (xs : List ℕ)
    → Runs s (x ∷ xs)
    → thread_delay {A = A} fuel now usecs s
      ≡ jumped (to_scheduler mt_resched) (put_to_sleep fuel x (pos (now + usecs)) s)
unfolding thread_delay resched
thread_delay_sleeps fuel now usecs s x xs v = rw ((pop_runq-Runs s x xs v).0) refl

-- `thread_delay` takes the running thread from the run queue, puts it among the sleeping threads, which
-- stay in the order of their wakeup times, as the one that wakes at the time of the call and the delay,
-- and jumps to the scheduler, when there is more fuel than threads sleep and no thread is in both
-- queues.
pub thread_delay-IsAsleep :
    (fuel now usecs : ℕ) (s : Rts) (x : ℕ) (xs ts : List ℕ)
    → Runs s (x ∷ xs)
    → IsAsleep s ts
    → Apart ts (x ∷ xs)
    → length ts < fuel
    → (u : Rts) × ((thread_delay {A = Unit {0}} fuel now usecs s
          ≡ jumped (to_scheduler mt_resched) u)
        × (Runs u xs
            × (IsAsleep u (place (times u.threads) x ts)
                × (times u.threads x ≡ pos (now + usecs)))))
thread_delay-IsAsleep fuel now usecs s x xs ts v w apart h = (
  put_to_sleep fuel x at s,
  (
    thread_delay_sleeps fuel now usecs s x xs v,
    (
      put_to_sleep-Runs fuel x at s xs ts v asleep.queue h (Apart-cons ts x xs apart).1,
      (
        subst (IsAsleep (put_to_sleep fuel x at s))
            (place_cong (times (timed x at s).threads) _ x ts
              (λ b. sym (put_to_sleep_at fuel x b at s)))
            (put_to_sleep-IsAsleep fuel x at s ts asleep v.chain.1.0 (Apart-cons ts x xs apart).0
              h),
        put_to_sleep_at fuel x x at s ∙ own_time,
      ),
    ),
  ),
)
  where
    at : ℤ
    at = pos (now + usecs)

    asleep : IsAsleep (timed x (pos (now + usecs)) s) ts
    asleep = timed-IsAsleep x (pos (now + usecs)) s ts w (Apart-cons ts x xs apart).0

    own_time : times (timed x (pos (now + usecs)) s).threads x ≡ pos (now + usecs)
    own_time = ground arith
