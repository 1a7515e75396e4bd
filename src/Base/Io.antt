-- ===== src/Base/Io.antt =====
-- Programs that talk to the board. The answers that the volatile loads of one run get are a list,
-- so that every behaviour of the devices is some list, and a polling loop recurs on it: a run that
-- uses up its list is still waiting. A run lists its accesses in order.
use Prim.Native.Nat.{ℕ}
use mathlib.Core.Path.{◌≡◌, refl}
use mathlib.Core.List.{List, [], ◌∷◌, ◌++◌, append_assoc}

-- One access: `GET32`, `PUT32`, `dev_barrier`, and the two CPSR switches of hal-asm.S.
pub data Access : Type 0 where
  rd wr : ℕ → ℕ → Access
  barrier irq_on irq_off : Access

abbrev pub Trace : Type 0
Trace = List Access

-- How a run ends: with a value, the new globals and the answers left; waiting for an answer; or in
-- `reboot`, which does not return; or at an access that C leaves undefined.
pub data Outcome (S A : Type 0) : Type 0 where
  done : A → S → List ℕ → Trace → Outcome S A
  waiting : Trace → Outcome S A
  rebooted : Trace → Outcome S A
  fault : Trace → Outcome S A

-- A C function over the globals `S`.
abbrev pub M : Type 0 → Type 0 → Type 0
M S A = S → List ℕ → Outcome S A

abbrev pub after : {S A : Type 0} → Trace → Outcome S A → Outcome S A
after t (done a s ins u) = done a s ins (t ++ u)
after t (waiting u) = waiting (t ++ u)
after t (rebooted u) = rebooted (t ++ u)
after t (fault u) = fault (t ++ u)

abbrev pub and_then : {S A B : Type 0} → Outcome S A → (A → M S B) → Outcome S B
and_then (done a s ins t) k = after t (k a s ins)
and_then (waiting t) k = waiting t
and_then (rebooted t) k = rebooted t
and_then (fault t) k = fault t

infixl 5 ◌>>=◌ ◌>>◌
abbrev pub ◌>>=◌ : {S A B : Type 0} → M S A → (A → M S B) → M S B
◌>>=◌ m k s ins = and_then (m s ins) k

abbrev pub ◌>>◌ : {S B : Type 0} → M S (Unit {0}) → M S B → M S B
m >> k = m >>= λ _. k

module _ {S : Type 0} where
  abbrev pub pure : {A : Type 0} → A → M S A
  pure a s ins = done a s ins []

  abbrev pub get32 : ℕ → M S ℕ
  get32 a s [] = waiting []
  get32 a s (v ∷ ins) = done v s ins (rd a v ∷ [])

  abbrev pub put32 : ℕ → ℕ → M S (Unit {0})
  put32 a v s ins = done tt s ins (wr a v ∷ [])

  abbrev pub dev_barrier : M S (Unit {0})
  dev_barrier s ins = done tt s ins (barrier ∷ [])

  abbrev pub enable_interrupts : M S (Unit {0})
  enable_interrupts s ins = done tt s ins (irq_on ∷ [])

  abbrev pub disable_interrupts : M S (Unit {0})
  disable_interrupts s ins = done tt s ins (irq_off ∷ [])

  -- `timer_get_usec` of hal-asm.S loads the counter's low word.
  abbrev pub timer_get_usec : M S ℕ
  timer_get_usec = get32 0x2000_3004

  abbrev pub gets : {A : Type 0} → (S → A) → M S A
  gets f s ins = done (f s) s ins []

  abbrev pub modify : (S → S) → M S (Unit {0})
  modify f s ins = done tt (f s) ins []

  abbrev pub reboot : {A : Type 0} → M S A
  reboot s ins = rebooted []

  abbrev pub undefined : {A : Type 0} → M S A
  undefined s ins = fault []

pub after-nil : {S A : Type 0} (o : Outcome S A) → after [] o ≡ o
after-nil (done a s ins t) = refl
after-nil (waiting t) = refl
after-nil (rebooted t) = refl
after-nil (fault t) = refl

pub after-after :
    {S A : Type 0} (t u : Trace) (o : Outcome S A) → after t (after u o) ≡ after (t ++ u) o
after-after t u (done a s ins v) = rw (append_assoc t u v)
after-after t u (waiting v) = rw (append_assoc t u v)
after-after t u (rebooted v) = rw (append_assoc t u v)
after-after t u (fault v) = rw (append_assoc t u v)
