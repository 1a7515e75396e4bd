-- ===== src/Hal/Uart/Print.antt =====
-- The two number printers: what they print reads back as the number.
use native.Mathlib.Nat.{
  mod-eq_of_lt, pow-suc, div-add-mod', mul-add-mod_self_right, mod-lt, mul-le-mul_right,
}
use haskell_os.Base.{
  ℕ, zero, suc, ◌+◌, ◌-◌, ◌*◌, ◌/◌, ◌%◌, ◌^◌, ◌<◌, ◌≤◌, ◌≡◌, ◌≢◌, refl, ◌∙◌, sym, ap, arith, true,
  Bool, leb, ◌||◌, ◌==◌, ==_iff, if◌then◌else◌, ltb, List, [], ◌∷◌, some, get_or, length, All,
  bit_and_mask, all_below, all_below_sound, ◌&&◌, two-pow-add, two-pow-pos, Bool-cases, inl, inr,
}
use haskell_os.Hal.Uart.{hex_chars, hex_loop, uart_put_hex, uint_digits, put_digits, uart_put_uint}
use haskell_os.Hal.Uart.Sent.{
  Sends, uart_puts-Sends, put_buf-Sends, bind-Sends, pure-Sends, put8_byte,
}

-- The number that decimal digits read as, after `acc`.
abbrev pub read_decimal : ℕ → List ℕ → ℕ
read_decimal acc [] = acc
read_decimal acc (c ∷ cs) = read_decimal (acc * 10 + (c - b'0')) cs

abbrev pub IsDigit : ℕ → Type 0
IsDigit c = (b'0' ≤ c) × (c ≤ b'9')

-- A decimal numeral of `n` as it is written: digits, at most ten, no leading zero but for 0 alone.
pub record IsNumeral (n : ℕ) (ds : List ℕ) : Type 0 where
  pub digits : All IsDigit ds
  pub reads : read_decimal 0 ds ≡ n
  pub short : length ds ≤ 10
  pub leading : get_or ds 0 0 ≡ b'0' → n ≡ 0
  pub nonempty : 0 < length ds

-- What the digit loop returns, with the digits `buf` of the lower places there already.
record Digits (k val : ℕ) (buf out : List ℕ) : Type 0 where
  digits : All IsDigit buf → All IsDigit out
  reads : read_decimal 0 out ≡ read_decimal val buf
  size : length out ≤ k + length buf
  stops : val ≡ 0 → out ≡ buf
  first : val ≢ 0 → b'1' ≤ get_or out 0 0

Digits-next :
    (k val : ℕ) (buf out : List ℕ)
    → val ≢ 0
    → Digits k (val / 10) ((b'0' + val % 10) ∷ buf) out
    → Digits (suc k) val buf out
Digits-next k val buf out ne d = record {
  digits = λ h. d.digits (omega arith, h);
  reads = d.reads ∙ ap (λ (t : ℕ). read_decimal t buf) (omega arith);
  size = omega (arith, d.size);
  stops = λ e. absurd (ne e);
  first = λ _. elim (Bool-cases (val / 10 == 0)) [
    | inl e ↦ rw (d.stops ((==_iff _ _).0 e)) (ground arith)
    | inr e ↦ d.first (ground arith)
  ];
}

uint_digits-suc :
    (room val : ℕ) (buf : List ℕ)
    → val ≢ 0
    → uint_digits (suc room) val buf ≡ uint_digits room (val / 10) ((b'0' + val % 10) ∷ buf)
unfolding uint_digits
uint_digits-suc room val buf ne = ground arith

-- The loop writes at most `k` digits of a number below `10 ^ k`, so `k` elements are room enough.
uint_digits-Digits :
    (room k val : ℕ) (buf : List ℕ)
    → k ≤ room
    → val < 10 ^ k
    → (out : List ℕ) × (uint_digits room val buf ≡ some out) × Digits k val buf out
uint_digits-Digits room k zero buf h lt = (
  buf,
  stop room,
  record {
    digits = λ d. d;
    reads = refl;
    size = omega arith;
    stops = λ _. refl;
    first = λ n. absurd (n refl);
  },
)
  where
    stop : (r : ℕ) → uint_digits r 0 buf ≡ some buf
    stop zero = unfold uint_digits in refl
    stop (suc r) = unfold uint_digits in refl
uint_digits-Digits room zero (suc n) buf h lt = absurd (omega arith)
uint_digits-Digits zero (suc k) (suc n) buf h lt = absurd (omega arith)
uint_digits-Digits (suc room) (suc k) (suc n) buf h lt =
    let (out, e, d) =
      uint_digits-Digits room k (suc n / 10) ((b'0' + suc n % 10) ∷ buf) (omega arith)
        (omega (arith, pow-suc 10 k)) in
    (
      out,
      uint_digits-suc room (suc n) buf (omega arith) ∙ e,
      Digits-next k (suc n) buf out (omega arith) d,
    )

All-IsDigit-byte : (ds : List ℕ) → All IsDigit ds → All (λ c. c < 256) ds
All-IsDigit-byte [] h = tt
All-IsDigit-byte (d ∷ ds) h = (omega arith, All-IsDigit-byte ds h.1)

-- The digits of a number that is not 0 are its numeral.
Digits-IsNumeral : (val : ℕ) (out : List ℕ) → val ≢ 0 → Digits 10 val [] out → IsNumeral val out
Digits-IsNumeral val [] ne d = absurd (omega (arith, d.first ne))
Digits-IsNumeral val (c ∷ cs) ne d = record {
  digits = d.digits tt;
  reads = d.reads;
  short = omega (arith, d.size);
  leading = λ e. absurd (omega (arith, d.first ne));
  nonempty = omega arith;
}

module _ {S : Type 0} (s : S) where
  -- `uart_put_uint` puts a decimal numeral of its argument on the line, for every `unsigned`: it
  -- never stores past the end of `buf[12]`.
  pub uart_put_uint-IsNumeral :
      (val : ℕ) (ins : List ℕ)
      → val < 2 ^ 32
      → (ds : List ℕ) × IsNumeral val ds × Sends s ins ds (uart_put_uint val s ins)
  unfolding uart_put_uint put_digits
  uart_put_uint-IsNumeral val ins h = elim (Bool-cases (val == 0)) [
    | inl e ↦ (b'0' ∷ [], ground arith, rw e (put8_byte s b'0' ins (omega arith)))
    | inr e ↦
        let (ds, eq, d) = uint_digits-Digits 12 10 val [] (omega arith) (omega arith) in
        (
          ds,
          Digits-IsNumeral val ds (ground arith) d,
          rw (e, eq) (put_buf-Sends s ds ins (All-IsDigit-byte ds (d.digits tt))),
        )
  ]

-- The number that lower-case hexadecimal digits read as, after `acc`.
abbrev pub hex_value : ℕ → ℕ
hex_value c = if ltb c b'a' then c - b'0' else c - b'a' + 10

abbrev pub is_hex : ℕ → Bool
is_hex c = (leb b'0' c && leb c b'9') || (leb b'a' c && leb c b'f')

abbrev pub read_hex : ℕ → List ℕ → ℕ
read_hex acc [] = acc
read_hex acc (c ∷ cs) = read_hex (acc * 16 + hex_value c) cs

abbrev hex_digits : ℕ → ℕ → List ℕ
hex_digits zero val = []
hex_digits (suc r) val = get_or hex_chars (val / 2 ^ (r * 4) % 16) 0 ∷ hex_digits r val

length-hex_digits : (r val : ℕ) → length (hex_digits r val) ≡ r
length-hex_digits zero val = refl
length-hex_digits (suc r) val = ap suc (length-hex_digits r val)

-- What each digit is: it has its value, and is a hexadecimal digit and a byte.
abbrev hex_char_test : ℕ → Bool
hex_char_test d = let c = get_or hex_chars d 0 in (hex_value c == d) && is_hex c && ltb c 256

hex_table : all_below 16 hex_char_test ≡ true
unfolding all_below
hex_table = refl

hex_char :
    (d : ℕ)
    → d < 16
    → (hex_value (get_or hex_chars d 0) ≡ d)
      × (get_or hex_chars d 0 < 256)
      × (is_hex (get_or hex_chars d 0) ≡ true)
hex_char d h = ground (arith, all_below_sound 16 hex_char_test d hex_table h)

hex_digits-is_hex : (r val : ℕ) → All (λ c. is_hex c ≡ true) (hex_digits r val)
hex_digits-is_hex zero val = tt
hex_digits-is_hex (suc r) val =
    ((hex_char (val / 2 ^ (r * 4) % 16) (omega arith)).2, hex_digits-is_hex r val)

-- The low bits, split at a place.
mod-split : (x p : ℕ) → 0 < p → x % (16 * p) ≡ x / p % 16 * p + x % p
mod-split x p h =
    ap (λ (t : ℕ). t % (16 * p)) whole
    ∙ mul-add-mod_self_right (x / p / 16) (16 * p) (x / p % 16 * p + x % p)
    ∙ mod-eq_of_lt
        (grind (arith, mod-lt x h, mul-le-mul_right {m = x / p % 16} {n = 15} p (omega arith)))
  where
    whole : x ≡ x / p / 16 * (16 * p) + (x / p % 16 * p + x % p)
    whole =
        sym (div-add-mod' x p)
        ∙ ap (λ (t : ℕ). t * p + x % p) {y = x / p / 16 * 16 + x / p % 16} (omega arith)
        ∙ omega arith

read_hex-hex_digits :
    (r acc val : ℕ) → read_hex acc (hex_digits r val) ≡ acc * 2 ^ (r * 4) + val % 2 ^ (r * 4)
read_hex-hex_digits zero acc val = omega arith
read_hex-hex_digits (suc r) acc val =
    read_hex-hex_digits r (acc * 16 + hex_value (get_or hex_chars d 0)) val
    ∙ ap (λ (t : ℕ). (acc * 16 + t) * p + val % p) (hex_char d (omega arith)).0
    ∙ omega (arith, mod-split val p (two-pow-pos (r * 4)), ap (λ (t : ℕ). acc * t) wider)
    ∙ ap (λ (t : ℕ). acc * t + val % t) (sym wider)
  where
    p : ℕ
    p = 2 ^ (r * 4)

    d : ℕ
    d = val / p % 16

    wider : 2 ^ (suc r * 4) ≡ 16 * p
    wider = ap (λ (t : ℕ). 2 ^ t) {y = 4 + r * 4} (omega arith) ∙ two-pow-add 4 (r * 4)

hex_loop-Sends :
    {S : Type 0} (s : S) (r val : ℕ) (ins : List ℕ)
    → Sends s ins (hex_digits r val) (hex_loop r val s ins)
unfolding hex_loop
hex_loop-Sends s zero val ins = pure-Sends s ins
hex_loop-Sends s (suc r) val ins = rw (bit_and_mask 4 (val / 2 ^ (r * 4))) (
    bind-Sends s (hex_digits r val) (hex_loop r val)
      (put8_byte s (get_or hex_chars (val / 2 ^ (r * 4) % 16) 0) ins (hex_char _ (omega arith)).1)
      (hex_loop-Sends s r val))

-- `uart_put_hex` puts `0x` and eight hexadecimal digits on the line, which read as its argument.
pub uart_put_hex-Sends :
    {S : Type 0} (s : S) (val : ℕ) (ins : List ℕ)
    → val < 2 ^ 32
    → (ds : List ℕ) × (length ds ≡ 8)
      × All (λ c. is_hex c ≡ true) ds
      × (read_hex 0 ds ≡ val)
      × Sends s ins (b'0' ∷ b'x' ∷ ds) (uart_put_hex val s ins)
unfolding uart_put_hex
uart_put_hex-Sends s val ins h = (
  hex_digits 8 val,
  length-hex_digits 8 val,
  hex_digits-is_hex 8 val,
  read_hex-hex_digits 8 0 val ∙ omega arith,
  bind-Sends s (hex_digits 8 val) (hex_loop 8 val)
      (uart_puts-Sends s (b'0' ∷ b'x' ∷ []) ins (omega arith)) (hex_loop-Sends s 8 val),
)
