-- ===== src/Libc/Printf/Bounded.antt =====
-- The buffer's size cuts the output, and does nothing else.
use haskell_os.Base.{
  take, ℕ, zero, suc, ◌+◌, ◌-◌, ◌^◌, ◌<◌, ◌≤◌, ◌≡◌, ◌≢◌, refl, ◌∙◌, sym, ap, arith, false, ◌==◌,
  if◌then◌else◌, List, [], ◌∷◌, ◌++◌, length, length-append, append_assoc, append-nil, Option, none,
  some, Bool-cases, inl, inr, ◌⊎◌,
}
use haskell_os.Libc.Printf.{
  room, emit, emit_all, converted, takes_argument, Stage, flags, Mode, text, inside, Step, goes_on,
  converts, step, format, vsnprintf,
}

abbrev pub prepend : List ℕ → Option (List ℕ) → Option (List ℕ)
prepend bs none = none
prepend bs (some r) = some (bs ++ r)

-- The output for a buffer of any size: text as it is, and for each directive what its conversion gives.
unfoldable pub render : (ℕ → List ℕ) → Mode → List ℕ → List ℕ → Option (List ℕ)
render texts mode [] args = some []
render texts text (c ∷ fmt) args =
    let directive = render texts (inside flags) fmt args in
    let copied = prepend (c ∷ []) (render texts text fmt args) in
    if c == b'%' then directive else copied
render texts (inside stage) (c ∷ fmt) args =
    let more = λ (next : Stage). render texts (inside next) fmt args in
    let taken =
      λ (v : ℕ) (rest : List ℕ). prepend (converted texts c v) (render texts text fmt rest) in
    let literal = prepend (b'%' ∷ []) (render texts text fmt args) in
    let unknown = prepend (b'%' ∷ c ∷ []) (render texts text fmt args) in
    elim (step stage c) [
      | goes_on next ↦ more next
      | converts ↦
          (if takes_argument c
            then elim args [ [] ↦ none | v ∷ rest ↦ taken v rest ]
            else if c == b'%'
            then literal
            else unknown)
    ]

-- The first `n` bytes of the output so far and what follows.
abbrev pub clip : ℕ → List ℕ → Option (List ℕ) → Option (List ℕ)
clip n out none = none
clip n out (some r) = some (take n (out ++ r))

take-all : (n : ℕ) (xs : List ℕ) → length xs ≤ n → take n xs ≡ xs
take-all zero [] h = refl
take-all zero (x ∷ xs) h = absurd (omega arith)
take-all (suc n) [] h = refl
take-all (suc n) (x ∷ xs) h = ap (λ (l : List ℕ). x ∷ l) (take-all n xs (omega arith))

length-take : (n : ℕ) (xs : List ℕ) → length (take n xs) ≤ n
length-take zero xs = omega arith
length-take (suc n) [] = omega arith
length-take (suc n) (x ∷ xs) = omega (arith, length-take n xs)

take-take : (n : ℕ) (xs ys : List ℕ) → take n (take n xs ++ ys) ≡ take n (xs ++ ys)
take-take zero xs ys = refl
take-take (suc n) [] ys = refl
take-take (suc n) (x ∷ xs) ys = ap (λ (l : List ℕ). x ∷ l) (take-take n xs ys)

take-full : (n : ℕ) (xs ys : List ℕ) → n ≤ length xs → take n (xs ++ ys) ≡ take n xs
take-full zero xs ys h = refl
take-full (suc n) [] ys h = absurd (omega arith)
take-full (suc n) (x ∷ xs) ys h = ap (λ (l : List ℕ). x ∷ l) (take-full n xs ys (omega arith))

clip-prepend :
    (n : ℕ) (out bs : List ℕ) (o : Option (List ℕ))
    → clip n (take n (out ++ bs)) o ≡ clip n out (prepend bs o)
clip-prepend n out bs none = refl
clip-prepend n out bs (some r) =
    ap (λ (l : List ℕ). some l) (take-take n (out ++ bs) r ∙ ap (take n) (append_assoc out bs r))

Step-cases : (s : Step) → ((next : Stage) × (s ≡ goes_on next)) ⊎ (s ≡ converts)
Step-cases (goes_on next) = inl (next, refl)
Step-cases converts = inr refl

module _ (texts : ℕ → List ℕ) (n : ℕ) (low : n + 1 < 2 ^ 31) where
  emit-take :
      (c : ℕ) (out : List ℕ) → length out ≤ n → emit (n + 1) c out ≡ take n (out ++ (c ∷ []))
  emit-take c out h = elim (Bool-cases (room (n + 1) (length out))) [
    | inl e ↦ rw e (sym (take-all n (out ++ (c ∷ [])) (ground (arith, length-append out (c ∷ [])))))
    | inr e ↦ rw e (sym (take-full n out (c ∷ []) (ground arith) ∙ take-all n out h))
  ]

  emit_all-take : (bs out : List ℕ) → length out ≤ n → emit_all (n + 1) bs out ≡ take n (out ++ bs)
  unfolding emit_all
  emit_all-take [] out h = sym (ap (take n) (append-nil out) ∙ take-all n out h)
  emit_all-take (c ∷ cs) out h =
      ap (emit_all (n + 1) cs) (emit-take c out h)
      ∙ emit_all-take cs (take n (out ++ (c ∷ []))) (length-take n (out ++ (c ∷ [])))
      ∙ take-take n (out ++ (c ∷ [])) cs
      ∙ ap (take n) (append_assoc out (c ∷ []) cs)

  -- The rest of the format behind some bytes, if the rest is right.
  emitted :
      (fmt args out bs : List ℕ)
      → ((out' : List ℕ)
          → length out' ≤ n
          → format texts (n + 1) text fmt args out' ≡ clip n out' (render texts text fmt args))
      → length out ≤ n
      → format texts (n + 1) text fmt args (emit_all (n + 1) bs out)
        ≡ clip n out (prepend bs (render texts text fmt args))
  emitted fmt args out bs rest h =
      ap (λ (out' : List ℕ). format texts (n + 1) text fmt args out') (emit_all-take bs out h)
      ∙ rest (take n (out ++ bs)) (length-take n (out ++ bs))
      ∙ clip-prepend n out bs (render texts text fmt args)

  format-clip :
      (fmt : List ℕ) (mode : Mode) (args out : List ℕ)
      → length out ≤ n
      → format texts (n + 1) mode fmt args out ≡ clip n out (render texts mode fmt args)
  unfolding format render emit_all
  format-clip [] mode args out h =
      ap (λ (l : List ℕ). some l) (sym (ap (take n) (append-nil out) ∙ take-all n out h))
  format-clip (c ∷ fmt) text args out h = elim (Bool-cases (c == b'%')) [
    | inl e ↦ rw e (format-clip fmt (inside flags) args out h)
    | inr e ↦ rw e (emitted fmt args out (c ∷ []) (format-clip fmt text args) h)
  ]
  format-clip (c ∷ fmt) (inside stage) [] out h = elim (Step-cases (step stage c)) [
    | inl (next, e) ↦ rw (format, render, e) (format-clip fmt (inside next) [] out h)
    | inr e ↦
        rw (format, render, e)
          (elim (Bool-cases (takes_argument c)) [
            | inl f ↦ rw f refl
            | inr f ↦ rw f (elim (Bool-cases (c == b'%')) [
              | inl g ↦ rw g (emitted fmt [] out (b'%' ∷ []) (format-clip fmt text []) h)
              | inr g ↦ rw g (emitted fmt [] out (b'%' ∷ c ∷ []) (format-clip fmt text []) h)
            ])
          ])
  ]
  format-clip (c ∷ fmt) (inside stage) (v ∷ args) out h = elim (Step-cases (step stage c)) [
    | inl (next, e) ↦ rw (format, render, e) (format-clip fmt (inside next) (v ∷ args) out h)
    | inr e ↦
        rw (format, render, e)
          (elim (Bool-cases (takes_argument c)) [
            | inl f ↦
                rw f (emitted fmt args out (converted texts c v) (format-clip fmt text args) h)
            | inr f ↦ rw f (elim (Bool-cases (c == b'%')) [
              | inl g ↦
                  rw g (emitted fmt (v ∷ args) out (b'%' ∷ []) (format-clip fmt text (v ∷ args)) h)
              | inr g ↦
                  rw g
                    (emitted fmt (v ∷ args) out (b'%' ∷ c ∷ []) (format-clip fmt text (v ∷ args)) h)
            ])
          ])
  ]

-- With a buffer of `size` bytes, of 1 to 2^31 - 1, `vsnprintf` leaves in front of the zero the first
-- `size - 1` bytes of the output for a buffer of any size, and returns their number.
pub vsnprintf-clip :
    (texts : ℕ → List ℕ) (size : ℕ) (fmt args : List ℕ)
    → size ≢ 0
    → size < 2 ^ 31
    → vsnprintf texts size fmt args ≡ clip (size - 1) [] (render texts text fmt args)
unfolding vsnprintf
vsnprintf-clip texts zero fmt args h low = absurd (h refl)
vsnprintf-clip texts (suc n) fmt args h low =
    let nonzero : (suc n == 0) ≡ false = ground arith in
    rw nonzero (
      ap (λ (k : ℕ). format texts k text fmt args []) {x = suc n} {y = n + 1} (omega arith)
      ∙ format-clip texts n (omega arith) fmt text args [] (omega arith)
      ∙ ap (λ (k : ℕ). clip k [] (render texts text fmt args)) {x = n} {y = suc n - 1}
          (omega arith))
