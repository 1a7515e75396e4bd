-- ===== src/Libc/Sort/Sequence.antt =====
-- Sequences that one element is inserted into, as the inner loop of `qsort` of c/rts-stubs.c does.
use haskell_os.Base.{
  ℕ, ◌+◌, ◌-◌, ◌<◌, ◌≤◌, ◌≡◌, ◌∙◌, ap, refl, arith, Bool, true, false, ltb, ◌==◌, if◌then◌else◌,
  Bool-cases, inl, inr,
}

-- `f` holds the first `n` elements of `e` in another order.
pub record IsRearranged {A : Type 0} (n : ℕ) (e f : ℕ → A) : Type 0 where
  pub to : ℕ → ℕ
  pub from : ℕ → ℕ
  pub to_inside : (i : ℕ) → i < n → to i < n
  pub from_inside : (i : ℕ) → i < n → from i < n
  pub from_to : (i : ℕ) → i < n → from (to i) ≡ i
  pub to_from : (i : ℕ) → i < n → to (from i) ≡ i
  pub value : (i : ℕ) → i < n → f i ≡ e (to i)

-- `gt` says whether an element is greater than another.
pub record IsSorted {A : Type 0} (gt : A → A → Bool) (n : ℕ) (e : ℕ → A) : Type 0 where
  pub ordered : (i j : ℕ) → i < j → j < n → gt (e i) (e j) ≡ false

pub record IsOrder {A : Type 0} (gt : A → A → Bool) : Type 0 where
  pub one_way : (x y : A) → gt x y ≡ true → gt y x ≡ false
  pub through : (x y z : A) → gt x y ≡ false → gt y z ≡ false → gt x z ≡ false

-- `f` is `e` with `x` put at `place`, and the elements from there up to the gap at `j` moved by one.
pub record IsInserted {A : Type 0} (gt : A → A → Bool) (n j : ℕ) (x : A) (e f : ℕ → A)
    : Type 0 where
  pub place : ℕ
  pub inside : place ≤ j
  pub here : f place ≡ x
  pub below : (i : ℕ) → i < place → f i ≡ e i
  pub moved : (i : ℕ) → place ≤ i → i < j → f (i + 1) ≡ e i
  pub above : (i : ℕ) → j < i → i < n → f i ≡ e i
  pub greater : (i : ℕ) → place ≤ i → i < j → gt (e i) x ≡ true
  pub behind : (i : ℕ) → i + 1 ≡ place → gt (e i) x ≡ false

pub IsRearranged-refl :
    {A : Type 0} → (n : ℕ) (e f : ℕ → A) → ((i : ℕ) → i < n → f i ≡ e i) → IsRearranged n e f
IsRearranged-refl n e f same = record {
  to = λ i. i;
  from = λ i. i;
  to_inside = λ i h. h;
  from_inside = λ i h. h;
  from_to = λ i h. refl;
  to_from = λ i h. refl;
  value = same;
}

pub IsRearranged-trans :
    {A : Type 0}
    → (n : ℕ) (e f g : ℕ → A) → IsRearranged n e f
    → IsRearranged n f g
    → IsRearranged n e g
IsRearranged-trans n e f g r s = record {
  to = λ i. r.to (s.to i);
  from = λ i. s.from (r.from i);
  to_inside = λ i h. r.to_inside (s.to i) (s.to_inside i h);
  from_inside = λ i h. s.from_inside (r.from i) (r.from_inside i h);
  from_to = λ i h. ap s.from (r.from_to (s.to i) (s.to_inside i h)) ∙ s.from_to i h;
  to_from = λ i h. ap r.to (s.to_from (r.from i) (r.from_inside i h)) ∙ r.to_from i h;
  value = λ i h. s.value i h ∙ r.value (s.to i) (s.to_inside i h);
}

module _ {A : Type 0} (gt : A → A → Bool) (n j : ℕ) (x : A) (e f : ℕ → A)
    (s : IsInserted gt n j x e f) where
  abbrev source_of : ℕ → ℕ
  source_of i =
      if ltb i s.place then i else if i == s.place then j else if ltb j i then i else i - 1

  abbrev target_of : ℕ → ℕ
  target_of i =
      if ltb i s.place then i else if ltb i j then i + 1 else if i == j then s.place else i

  pub IsInserted-IsRearranged : j < n → e j ≡ x → IsRearranged n e f
  IsInserted-IsRearranged k held = record {
    to = source_of;
    from = target_of;
    to_inside = λ i h. ground (arith, s.inside);
    from_inside = λ i h. ground (arith, s.inside);
    from_to = λ i h. ground (arith, s.inside);
    to_from = λ i h. ground (arith, s.inside);
    value = λ i h. value i h;
  }
    where
      value : (i : ℕ) → i < n → f i ≡ e (source_of i)
      value i h = ground (
        arith,
        s.inside,
        s.here,
        s.below i,
        s.moved (i - 1),
        s.above i,
        held,
        ap f {x = i} {y = s.place},
        ap f {x = i} {y = i - 1 + 1},
      )

  pub IsInserted-IsSorted : IsOrder gt → IsSorted gt j e → IsSorted gt (j + 1) f
  IsInserted-IsSorted o t = record { ordered = ordered }
    where
      not_greater : (i : ℕ) → i < s.place → gt (e i) x ≡ false
      not_greater i h = elim (Bool-cases (i + 1 == s.place)) [
        | inl q ↦ s.behind i (ground arith)
        | inr q ↦
            o.through (e i) (e (s.place - 1)) x
              (t.ordered i (s.place - 1) (ground arith) (omega (arith, s.inside)))
              (s.behind (s.place - 1) (omega arith))
      ]

      low : (i l : ℕ) → i < l → l < j + 1 → s.place < l → gt (f i) (e (l - 1)) ≡ false
      low i l h k p = elim (Bool-cases (ltb i s.place)) [
        | inl q ↦ rw (s.below i (ground arith)) (t.ordered i (l - 1) (ground arith) (omega arith))
        | inr q ↦ elim (Bool-cases (i == s.place)) [
          | inl r ↦
              rw (ap f {x = i} {y = s.place} (ground arith), s.here)
                (o.one_way (e (l - 1)) x (s.greater (l - 1) (omega arith) (omega arith)))
          | inr r ↦
              rw
                (
                  ap f {x = i} {y = i - 1 + 1} (ground arith),
                  s.moved (i - 1) (ground arith) (ground arith),
                )
                (t.ordered (i - 1) (l - 1) (ground arith) (omega arith))
        ]
      ]

      ordered : (i l : ℕ) → i < l → l < j + 1 → gt (f i) (f l) ≡ false
      ordered i l h k = elim (Bool-cases (ltb l s.place)) [
        | inl p ↦
            rw (s.below i (ground arith), s.below l (ground arith))
              (t.ordered i l h (ground (arith, s.inside)))
        | inr p ↦ elim (Bool-cases (l == s.place)) [
          | inl q ↦
              rw (s.below i (ground arith), ap f {x = l} {y = s.place} (ground arith), s.here)
                (not_greater i (ground arith))
          | inr q ↦
              rw
                (
                  ap f {x = l} {y = l - 1 + 1} (ground arith),
                  s.moved (l - 1) (ground arith) (ground arith),
                )
                (low i l h k (ground arith))
        ]
      ]
