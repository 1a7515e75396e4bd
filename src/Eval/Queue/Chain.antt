-- ===== src/Eval/Queue/Chain.antt =====
-- Chains of threads: which list of threads a queue of c/eval.c stands for.
use mathlib.Core.Path.{subst}
use haskell_os.Base.{
  ℕ, ◌≡◌, ◌≢◌, refl, ◌∙◌, arith, ◌==◌, Bool, true, false, ◌||◌, List, [], ◌∷◌, ◌++◌,
}
use haskell_os.Eval.Threads.{Mthread, Threads, Mqueue, on_thread, set_queue}

abbrev pub has : ℕ → List ℕ → Bool
has a [] = false
has a (x ∷ xs) = (a == x) || has a xs

abbrev pub Distinct : List ℕ → Type 0
Distinct [] = Unit
Distinct (x ∷ xs) = (has x xs ≡ false) × Distinct xs

abbrev pub last_or : ℕ → List ℕ → ℕ
last_or d [] = d
last_or d (x ∷ xs) = last_or x xs

-- From `p` the links lead through `xs` to null.
abbrev pub Chain : Threads → ℕ → List ℕ → Type 0
Chain t p [] = p ≡ 0
Chain t p (x ∷ xs) = (p ≡ x) × ((x ≢ 0) × Chain t (t x).mt_queue xs)

-- The queue holds the distinct threads `xs`, from head to tail.
pub record IsQueue (t : Threads) (q : Mqueue) (xs : List ℕ) : Type 0 where
  pub chain : Chain t q.mq_head xs
  pub tail : q.mq_tail ≡ last_or 0 xs
  pub distinct : Distinct xs

-- The two stores link the threads of `xs` in the same way.
abbrev pub SameLinks : List ℕ → Threads → Threads → Type 0
SameLinks [] t u = Unit
SameLinks (x ∷ xs) t u = ((u x).mt_queue ≡ (t x).mt_queue) × SameLinks xs t u

pub Chain-frame :
    (xs : List ℕ) (t u : Threads) (p : ℕ) → SameLinks xs t u → Chain t p xs → Chain u p xs
Chain-frame [] t u p same c = c
Chain-frame (x ∷ xs) t u p same c = (c.0, (c.1.0, Chain-frame xs t u _ same.1 (rw same.0 c.1.1)))

pub IsQueue-frame :
    (xs : List ℕ) (t u : Threads) {q : Mqueue} → SameLinks xs t u → IsQueue t q xs → IsQueue u q xs
IsQueue-frame xs t u same v = record {
  chain = Chain-frame xs t u _ same v.chain;
  tail = v.tail;
  distinct = v.distinct;
}

-- A store into a thread that is not in `xs`.
pub SameLinks-outside :
    (xs : List ℕ) (t : Threads) (a v : ℕ)
    → has a xs ≡ false
    → SameLinks xs t (on_thread a (set_queue v) t)
SameLinks-outside [] t a v out = tt
SameLinks-outside (x ∷ xs) t a v out = (ground arith, SameLinks-outside xs t a v (ground arith))

-- A store that keeps the link.
pub SameLinks-keep :
    (xs : List ℕ) (t : Threads) (a : ℕ) (f : Mthread → Mthread)
    → ((m : Mthread) → (f m).mt_queue ≡ m.mt_queue)
    → SameLinks xs t (on_thread a f t)
SameLinks-keep [] t a f keep = tt
SameLinks-keep (x ∷ xs) t a f keep = (ground (arith, keep (t x)), SameLinks-keep xs t a f keep)

pub SameLinks-all :
    (xs : List ℕ) (t u : Threads) → ((b : ℕ) → (u b).mt_queue ≡ (t b).mt_queue) → SameLinks xs t u
SameLinks-all [] t u same = tt
SameLinks-all (x ∷ xs) t u same = (same x, SameLinks-all xs t u same)

pub SameLinks-trans :
    (xs : List ℕ) (t u w : Threads) → SameLinks xs t u → SameLinks xs u w → SameLinks xs t w
SameLinks-trans [] t u w h k = tt
SameLinks-trans (x ∷ xs) t u w h k = (k.0 ∙ h.0, SameLinks-trans xs t u w h.1 k.1)

pub has-append : (a : ℕ) (xs ys : List ℕ) → has a (xs ++ ys) ≡ (has a xs || has a ys)
has-append a [] ys = refl
has-append a (x ∷ xs) ys = ground (arith, has-append a xs ys)

pub has-last_or : (x : ℕ) (xs : List ℕ) → has (last_or x xs) (x ∷ xs) ≡ true
has-last_or x [] = ground arith
has-last_or x (y ∷ xs) = ground (arith, has-last_or y xs)

pub last_or-append : (d : ℕ) (xs : List ℕ) (y : ℕ) → last_or d (xs ++ y ∷ []) ≡ y
last_or-append d [] y = refl
last_or-append d (x ∷ xs) y = last_or-append x xs y

pub Distinct-append :
    (xs : List ℕ) (y : ℕ) → Distinct xs → has y xs ≡ false → Distinct (xs ++ y ∷ [])
Distinct-append [] y d out = (refl, tt)
Distinct-append (x ∷ xs) y d out =
    (ground (arith, has-append x xs (y ∷ [])), Distinct-append xs y d.1 (ground arith))

-- A thread linked to a chain that it is not in.
pub Chain-skip :
    (t : Threads) (x v : ℕ) (ys : List ℕ)
    → has x ys ≡ false
    → Chain t v ys
    → Chain (on_thread x (set_queue v) t) (on_thread x (set_queue v) t x).mt_queue ys
Chain-skip t x v ys out c =
    subst (λ (q : ℕ). Chain (on_thread x (set_queue v) t) q ys) {x = v}
      {y = (on_thread x (set_queue v) t x).mt_queue} (ground arith)
      (Chain-frame ys t _ v (SameLinks-outside ys t x v out) c)

pub has-null : (t : Threads) (p : ℕ) (xs : List ℕ) → Chain t p xs → has 0 xs ≡ false
has-null t p [] c = refl
has-null t p (x ∷ xs) c = ground (arith, has-null t (t x).mt_queue xs c.1.1)
