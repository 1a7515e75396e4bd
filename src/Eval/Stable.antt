-- ===== src/Eval/Stable.antt =====
-- The stable pointers of c/eval.c: a table of nodes that grows, in which an index stays with its node.
-- A table is a function from indices; what lies behind its end is whatever the memory holds there.
use haskell_os.Base.{
  ℕ, zero, suc, ◌+◌, ◌-◌, ◌*◌, ◌<◌, ◌≤◌, ◌≡◌, ◌≢◌, ◌⊎◌, inl, inr, refl, ◌∙◌, arith, ltb, leb, ◌==◌,
  if◌then◌else◌, true, false, ◌||◌, u32, Option, none, some, Bool-cases, ◌^◌,
}
use haskell_os.Eval.Threads.{nil}

pub record Stable : Type 0 where
  pub sp_capacity : ℕ
  pub sp_table : ℕ → ℕ
  pub num_stable_alloc : ℕ
  pub num_stable_free : ℕ

abbrev pub entry : (ℕ → ℕ) → ℕ → ℕ → ℕ → ℕ
entry t i n j = if j == i then n else t j

-- `for (size_t j = i; j < sp_capacity; j++) sp_table[j] = NIL;`, with the rounds left.
unfoldable pub clear_from : ℕ → ℕ → (ℕ → ℕ) → ℕ → ℕ
clear_from zero j t = t
clear_from (suc rounds) j t = clear_from rounds (j + 1) (entry t j nil)

-- `block` is what `mmalloc` gives.
unfoldable pub init_stableptr : (ℕ → ℕ) → Stable → Stable
init_stableptr block s = record s { sp_table = clear_from s.sp_capacity 0 block }

-- The linear search, from `i` on.
unfoldable pub free_slot : (ℕ → ℕ) → ℕ → ℕ → ℕ
free_slot t zero i = i
free_slot t (suc rounds) i = let rest = free_slot t rounds (i + 1) in if t i == nil then i else rest

-- `block` is what `mrealloc` gives behind the entries that it copies. Its size in bytes is taken not to
-- wrap: a table of 2^29 entries, the first whose double would, is larger than the heap.
unfoldable pub grow_table : (ℕ → ℕ) → Stable → Stable
grow_table block s = record s {
  sp_capacity = u32 (s.sp_capacity * 2);
  sp_table =
      clear_from (u32 (s.sp_capacity * 2) - s.sp_capacity) s.sp_capacity
        (λ j. if ltb j s.sp_capacity then s.sp_table j else block j);
}

unfoldable pub new_stableptr : (ℕ → ℕ) → ℕ → Stable → ℕ × Stable
new_stableptr block n s =
    let i = free_slot s.sp_table (s.sp_capacity - 1) 1 in
    let roomy = if i == s.sp_capacity then grow_table block s else s in
    (
      i,
      record roomy {
        sp_table = entry roomy.sp_table i n;
        num_stable_alloc = u32 (s.num_stable_alloc + 1);
      },
    )

-- `none` is `ERR`, which does not return.
unfoldable pub deref_stableptr : ℕ → Stable → Option ℕ
deref_stableptr sp s =
    if (s.sp_table sp == nil) || leb s.sp_capacity sp then none else some (s.sp_table sp)

unfoldable pub free_stableptr : ℕ → Stable → Option Stable
free_stableptr sp s =
    if (s.sp_table sp == nil) || leb s.sp_capacity sp
    then none
    else some (record s {
      num_stable_free = u32 (s.num_stable_free + 1);
      sp_table = entry s.sp_table sp nil;
    })

clear_from_kept : (rounds j : ℕ) (t : ℕ → ℕ) (k : ℕ) → k < j → clear_from rounds j t k ≡ t k
unfolding clear_from
clear_from_kept zero j t k h = refl
clear_from_kept (suc rounds) j t k h =
    clear_from_kept rounds (j + 1) (entry t j nil) k (omega arith) ∙ ground arith

clear_from_cleared :
    (rounds j : ℕ) (t : ℕ → ℕ) (k : ℕ) → j ≤ k → k < j + rounds → clear_from rounds j t k ≡ nil
unfolding clear_from
clear_from_cleared zero j t k h b = absurd (omega arith)
clear_from_cleared (suc rounds) j t k h b = elim (Bool-cases (k == j)) [
  | inl e ↦ clear_from_kept rounds (j + 1) (entry t j nil) k (ground arith) ∙ ground arith
  | inr e ↦ clear_from_cleared rounds (j + 1) (entry t j nil) k (ground arith) (omega arith)
]

free_slot_found :
    (t : ℕ → ℕ) (rounds i : ℕ)
    → (i ≤ free_slot t rounds i)
      × ((free_slot t rounds i ≤ i + rounds)
          × ((free_slot t rounds i ≡ i + rounds) ⊎ (t (free_slot t rounds i) ≡ nil)))
unfolding free_slot
free_slot_found t zero i = (omega arith, (omega arith, inl (omega arith)))
free_slot_found t (suc rounds) i = ground (arith, free_slot_found t rounds (i + 1))

-- The slot of a new pointer and the table that it is stored in.
record IsFresh (i cap cap' : ℕ) (t t' : ℕ → ℕ) : Type 0 where
  positive : 1 ≤ i
  inside : i < cap'
  unused : (leb cap i ≡ true) ⊎ (t i ≡ nil)
  kept : (j : ℕ) → j < cap → t' j ≡ t j

grow_table_kept :
    (block : ℕ → ℕ) (s : Stable) (j : ℕ)
    → j < s.sp_capacity
    → (grow_table block s).sp_table j ≡ s.sp_table j
unfolding grow_table
grow_table_kept block s j h =
    clear_from_kept (u32 (s.sp_capacity * 2) - s.sp_capacity) s.sp_capacity
      (λ k. if ltb k s.sp_capacity then s.sp_table k else block k) j h
    ∙ ground arith

roomy_fresh :
    (block : ℕ → ℕ) (s : Stable) (i : ℕ)
    → 1 ≤ i
    → i ≤ s.sp_capacity
    → s.sp_capacity * 2 < 2 ^ 32
    → (i ≡ s.sp_capacity) ⊎ (s.sp_table i ≡ nil)
    → IsFresh i s.sp_capacity
        (if i == s.sp_capacity then grow_table block s else s).sp_capacity
        s.sp_table
        (if i == s.sp_capacity then grow_table block s else s).sp_table
unfolding grow_table
roomy_fresh block s i p h b f = elim (Bool-cases (i == s.sp_capacity)) [
  | inl e ↦ rw e (record {
    positive = p;
    inside = ground arith;
    unused = inl (ground arith);
    kept = λ j k. grow_table_kept block s j k;
  })
  | inr e ↦ rw e (record {
    positive = p;
    inside = ground arith;
    unused = inr (ground arith);
    kept = λ j k. refl;
  })
]

unused_deref :
    (i : ℕ) (s : Stable)
    → (leb s.sp_capacity i ≡ true) ⊎ (s.sp_table i ≡ nil)
    → deref_stableptr i s ≡ none
unfolding deref_stableptr
unused_deref i s (inl h) = elim (Bool-cases (s.sp_table i == nil)) [
  | inl e ↦ rw e refl
  | inr e ↦ rw (e, h) refl
]
unused_deref i s (inr h) = rw h refl

stored_deref :
    (r : Stable) (i n a : ℕ)
    → n ≢ nil
    → i < r.sp_capacity
    → deref_stableptr i (record r { sp_table = entry r.sp_table i n; num_stable_alloc = a })
      ≡ some n
unfolding deref_stableptr
stored_deref r i n a nz h = rw (entry_self, used, roomy) refl
  where
    entry_self : entry r.sp_table i n i ≡ n
    entry_self = ground arith

    used : (n == nil) ≡ false
    used = ground arith

    roomy : leb r.sp_capacity i ≡ false
    roomy = ground arith

-- A new stable pointer to a node is not 0, was not a pointer to a node before, leads to the node, and
-- leaves what every other pointer into the table leads to, if the table is not empty and twice its size
-- fits the machine word.
pub new_stableptr-deref_stableptr :
    (block : ℕ → ℕ) (n : ℕ) (s : Stable)
    → n ≢ nil
    → 1 ≤ s.sp_capacity
    → s.sp_capacity * 2 < 2 ^ 32
    → (1 ≤ (new_stableptr block n s).0)
      × ((deref_stableptr (new_stableptr block n s).0 s ≡ none)
          × ((deref_stableptr (new_stableptr block n s).0 (new_stableptr block n s).1 ≡ some n)
              × ((j : ℕ)
                  → j < s.sp_capacity
                  → j ≢ (new_stableptr block n s).0
                  → (new_stableptr block n s).1.sp_table j ≡ s.sp_table j)))
unfolding new_stableptr
new_stableptr-deref_stableptr block n s nz p b =
    let i = free_slot s.sp_table (s.sp_capacity - 1) 1 in
    let slot = free_slot_found s.sp_table (s.sp_capacity - 1) 1 in
    let roomy = if i == s.sp_capacity then grow_table block s else s in
    let fresh = roomy_fresh block s i slot.0 (omega (arith, slot.1.0)) b (free_or_full slot.1.1) in
    (
      fresh.positive,
      (
        unused_deref i s fresh.unused,
        (
          stored_deref roomy i n (u32 (s.num_stable_alloc + 1)) nz fresh.inside,
          λ j h k. entry_other roomy.sp_table i n j k ∙ fresh.kept j h,
        ),
      ),
    )
  where
    entry_other : (t : ℕ → ℕ) (i n j : ℕ) → j ≢ i → entry t i n j ≡ t j
    entry_other t i n j k = ground arith

    free_or_full :
        {k : ℕ}
        → (k ≡ 1 + (s.sp_capacity - 1)) ⊎ (s.sp_table k ≡ nil)
        → (k ≡ s.sp_capacity) ⊎ (s.sp_table k ≡ nil)
    free_or_full (inl e) = inl (omega arith)
    free_or_full (inr e) = inr e

-- A pointer that leads to a node can be freed: then it leads to none, and the others lead where they did.
pub free_stableptr-deref_stableptr :
    (sp n : ℕ) (s : Stable)
    → deref_stableptr sp s ≡ some n
    → (u : Stable) × ((free_stableptr sp s ≡ some u)
        × ((deref_stableptr sp u ≡ none)
            × ((j : ℕ) → j ≢ sp → deref_stableptr j u ≡ deref_stableptr j s)))
unfolding free_stableptr deref_stableptr
free_stableptr-deref_stableptr sp n s h =
    elim (Bool-cases ((s.sp_table sp == nil) || leb s.sp_capacity sp)) [
      | inl e ↦ absurd (ground arith)
      | inr e ↦ rw e (freed, (refl, (ground arith, λ j k. ground arith)))
    ]
  where
    freed : Stable
    freed = record s {
      num_stable_free = u32 (s.num_stable_free + 1);
      sp_table = entry s.sp_table sp nil;
    }
