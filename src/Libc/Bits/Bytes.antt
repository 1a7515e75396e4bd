-- ===== src/Libc/Bits/Bytes.antt =====
-- The population count's steps, byte by byte.
use haskell_os.Base.{
  ℕ, zero, suc, ◌+◌, ◌-◌, ◌*◌, ◌/◌, ◌%◌, ◌^◌, ◌<◌, ◌≤◌, ◌≡◌, refl, ◌∙◌, ap, arith, true, ◌==◌,
  ==_iff, ◌&&◌, leb, bit_and, bit_and_split, bit_and_mask, all_below, all_below_sound, u32, sub32,
}

-- The ones among the lowest `n` bits.
abbrev pub ones : ℕ → ℕ → ℕ
ones zero x = 0
ones (suc n) x = x % 2 + ones n (x / 2)

-- One byte of each step.
unfoldable pub pairs_of : ℕ → ℕ
pairs_of b = b - bit_and (b / 2) 0x55

unfoldable pub nibbles_of : ℕ → ℕ
nibbles_of b = bit_and b 0x33 + bit_and (b / 4) 0x33

table :
    all_below 256 (λ b.
      leb (bit_and (b / 2) 0x55) b
      && leb (nibbles_of (pairs_of b) % 16) 4
      && leb (nibbles_of (pairs_of b) / 16) 4
      && (nibbles_of (pairs_of b) % 16 + nibbles_of (pairs_of b) / 16 == ones 8 b))
    ≡ true
unfolding all_below pairs_of nibbles_of
table = refl

-- A bit that comes down from the next byte is masked out.
low_55 : all_below 512 (λ h. bit_and h 0x55 == bit_and (h % 128) 0x55) ≡ true
unfolding all_below
low_55 = refl

low_33 : all_below 256 (λ h. bit_and h 0x33 == bit_and (h % 64) 0x33) ≡ true
unfolding all_below
low_33 = refl

-- The steps go byte by byte: `q` stands above the byte `r`, and `mask` above the mask's byte.
and_byte :
    (q r mask b : ℕ)
    → r < 256
    → b < 256
    → bit_and (q * 256 + r) (mask * 256 + b) ≡ bit_and q mask * 256 + bit_and r b
and_byte q r mask b hr hb = (bit_and_split 8 q mask r b hr hb).0

half_byte :
    (q r mask : ℕ)
    → r < 256
    → bit_and ((q * 256 + r) / 2) (mask * 256 + 0x55)
      ≡ bit_and (q / 2) mask * 256 + bit_and (r / 2) 0x55
half_byte q r mask h =
    ap (λ (x : ℕ). bit_and x (mask * 256 + 0x55)) {x = (q * 256 + r) / 2}
      {y = q / 2 * 256 + (q % 2 * 128 + r / 2)} (omega arith)
    ∙ and_byte (q / 2) (q % 2 * 128 + r / 2) mask 0x55 (omega arith) (omega arith)
    ∙ ap (λ (x : ℕ). bit_and (q / 2) mask * 256 + x)
        ((==_iff _ _).0 (
            all_below_sound 512 (λ h. bit_and h 0x55 == bit_and (h % 128) 0x55)
              (q % 2 * 128 + r / 2) low_55 (omega arith))
          ∙ ap (λ (x : ℕ). bit_and x 0x55) {x = (q % 2 * 128 + r / 2) % 128} {y = r / 2}
              (omega arith))

quarter_byte :
    (q r mask : ℕ)
    → r < 256
    → bit_and ((q * 256 + r) / 4) (mask * 256 + 0x33)
      ≡ bit_and (q / 4) mask * 256 + bit_and (r / 4) 0x33
quarter_byte q r mask h =
    ap (λ (x : ℕ). bit_and x (mask * 256 + 0x33)) {x = (q * 256 + r) / 4}
      {y = q / 4 * 256 + (q % 4 * 64 + r / 4)} (omega arith)
    ∙ and_byte (q / 4) (q % 4 * 64 + r / 4) mask 0x33 (omega arith) (omega arith)
    ∙ ap (λ (x : ℕ). bit_and (q / 4) mask * 256 + x)
        ((==_iff _ _).0 (
            all_below_sound 256 (λ h. bit_and h 0x33 == bit_and (h % 64) 0x33) (q % 4 * 64 + r / 4)
              low_33 (omega arith))
          ∙ ap (λ (x : ℕ). bit_and x 0x33) {x = (q % 4 * 64 + r / 4) % 64} {y = r / 4}
              (omega arith))

-- A word of four bytes.
abbrev pub word : ℕ → ℕ → ℕ → ℕ → ℕ
word a b c d = ((a * 256 + b) * 256 + c) * 256 + d

-- A mask on a word of four bytes.
and_word :
    (a b c d m : ℕ)
    → b < 256
    → c < 256
    → d < 256
    → m < 256
    → bit_and (word a b c d) (word m m m m)
      ≡ word (bit_and a m) (bit_and b m) (bit_and c m) (bit_and d m)
and_word a b c d m hb hc hd hm =
    and_byte ((a * 256 + b) * 256 + c) d ((m * 256 + m) * 256 + m) m hd hm
    ∙ ap (λ (x : ℕ). x * 256 + bit_and d m)
        (and_byte (a * 256 + b) c (m * 256 + m) m hc hm
          ∙ ap (λ (x : ℕ). x * 256 + bit_and c m) (and_byte a b m m hb hm))

half_word :
    (a b c d : ℕ)
    → b < 256
    → c < 256
    → d < 256
    → bit_and (word a b c d / 2) 0x5555_5555
      ≡ word
          (bit_and (a / 2) 0x55)
          (bit_and (b / 2) 0x55)
          (bit_and (c / 2) 0x55)
          (bit_and (d / 2) 0x55)
half_word a b c d hb hc hd =
    half_byte ((a * 256 + b) * 256 + c) d 0x55_5555 hd
    ∙ ap (λ (x : ℕ). x * 256 + bit_and (d / 2) 0x55)
        (half_byte (a * 256 + b) c 0x5555 hc
          ∙ ap (λ (x : ℕ). x * 256 + bit_and (c / 2) 0x55) (half_byte a b 0x55 hb))

quarter_word :
    (a b c d : ℕ)
    → b < 256
    → c < 256
    → d < 256
    → bit_and (word a b c d / 4) 0x3333_3333
      ≡ word
          (bit_and (a / 4) 0x33)
          (bit_and (b / 4) 0x33)
          (bit_and (c / 4) 0x33)
          (bit_and (d / 4) 0x33)
quarter_word a b c d hb hc hd =
    quarter_byte ((a * 256 + b) * 256 + c) d 0x33_3333 hd
    ∙ ap (λ (x : ℕ). x * 256 + bit_and (d / 4) 0x33)
        (quarter_byte (a * 256 + b) c 0x3333 hc
          ∙ ap (λ (x : ℕ). x * 256 + bit_and (c / 4) 0x33) (quarter_byte a b 0x33 hb))

-- What the table says of one byte.
pub record IsCounted (b : ℕ) : Type 0 where
  pub no_borrow : bit_and (b / 2) 0x55 ≤ b
  pub low_small : nibbles_of (pairs_of b) % 16 ≤ 4
  pub high_small : nibbles_of (pairs_of b) / 16 ≤ 4
  pub counted : nibbles_of (pairs_of b) % 16 + nibbles_of (pairs_of b) / 16 ≡ ones 8 b

pub byte-IsCounted : (b : ℕ) → b < 256 → IsCounted b
byte-IsCounted b h = record {
  no_borrow = ground (arith, row);
  low_small = ground (arith, row);
  high_small = ground (arith, row);
  counted = ground (arith, row);
}
  where
    row :
        (leb (bit_and (b / 2) 0x55) b
          && leb (nibbles_of (pairs_of b) % 16) 4
          && leb (nibbles_of (pairs_of b) / 16) 4
          && (nibbles_of (pairs_of b) % 16 + nibbles_of (pairs_of b) / 16 == ones 8 b))
        ≡ true
    row = all_below_sound 256 _ b table h

pub pairs_word :
    (a b c d : ℕ)
    → a < 256
    → b < 256
    → c < 256
    → d < 256
    → sub32 (word a b c d) (bit_and (word a b c d / 2) 0x5555_5555)
      ≡ word (pairs_of a) (pairs_of b) (pairs_of c) (pairs_of d)
unfolding pairs_of
pairs_word a b c d ha hb hc hd = omega (
  arith,
  half_word a b c d hb hc hd,
  (byte-IsCounted a ha).no_borrow,
  (byte-IsCounted b hb).no_borrow,
  (byte-IsCounted c hc).no_borrow,
  (byte-IsCounted d hd).no_borrow,
)

-- A byte of the second step's result, with room in each of its halves.
pub record IsSmall (n : ℕ) : Type 0 where
  pub low_half : n % 16 ≤ 4
  pub high_half : n / 16 ≤ 4

pub byte-IsSmall : (b : ℕ) → b < 256 → IsSmall (nibbles_of (pairs_of b))
byte-IsSmall b h = record {
  low_half = (byte-IsCounted b h).low_small;
  high_half = (byte-IsCounted b h).high_small;
}

pub nibbles_word :
    (p q r s : ℕ)
    → q < 256
    → r < 256
    → s < 256
    → IsSmall (nibbles_of p)
    → IsSmall (nibbles_of q)
    → IsSmall (nibbles_of r)
    → IsSmall (nibbles_of s)
    → u32 (bit_and (word p q r s) 0x3333_3333 + bit_and (word p q r s / 2 ^ 2) 0x3333_3333)
      ≡ word (nibbles_of p) (nibbles_of q) (nibbles_of r) (nibbles_of s)
unfolding nibbles_of
nibbles_word p q r s hq hr hs sp sq sr ss = omega (
  arith,
  and_word p q r s 0x33 hq hr hs (omega arith),
  quarter_word p q r s hq hr hs,
  sp.low_half,
  sp.high_half,
  sq.low_half,
  sq.high_half,
  sr.low_half,
  sr.high_half,
  ss.low_half,
  ss.high_half,
)

pub bytes_word :
    (i j k l : ℕ)
    → IsSmall i
    → IsSmall j
    → IsSmall k
    → IsSmall l
    → bit_and (u32 (word i j k l + word i j k l / 2 ^ 4)) 0x0f0f_0f0f
      ≡ word (i % 16 + i / 16) (j % 16 + j / 16) (k % 16 + k / 16) (l % 16 + l / 16)
bytes_word i j k l si sj sk sl =
    ap (λ (x : ℕ). bit_and x 0x0f0f_0f0f)
      {y = word (i + i / 16) (j + j / 16 + i % 16 * 16) (k + k / 16 + j % 16 * 16)
        (l + l / 16 + k % 16 * 16)}
      (omega (
        arith, si.low_half, si.high_half, sj.low_half, sj.high_half, sk.low_half, sk.high_half,
        sl.low_half, sl.high_half,
      ))
    ∙ and_word (i + i / 16) (j + j / 16 + i % 16 * 16) (k + k / 16 + j % 16 * 16)
        (l + l / 16 + k % 16 * 16) 0x0f
        (omega (
          arith, si.low_half, si.high_half, sj.low_half, sj.high_half, sk.low_half, sk.high_half,
          sl.low_half, sl.high_half,
        ))
        (omega (
          arith, si.low_half, si.high_half, sj.low_half, sj.high_half, sk.low_half, sk.high_half,
          sl.low_half, sl.high_half,
        ))
        (omega (
          arith, si.low_half, si.high_half, sj.low_half, sj.high_half, sk.low_half, sk.high_half,
          sl.low_half, sl.high_half,
        ))
        (omega arith)
    ∙ omega (
      arith,
      bit_and_mask 4 (i + i / 16),
      bit_and_mask 4 (j + j / 16 + i % 16 * 16),
      bit_and_mask 4 (k + k / 16 + j % 16 * 16),
      bit_and_mask 4 (l + l / 16 + k % 16 * 16),
      si.low_half,
      si.high_half,
      sj.low_half,
      sj.high_half,
      sk.low_half,
      sk.high_half,
      sl.low_half,
      sl.high_half,
    )

pub below : (b : ℕ) → b < 256 → pairs_of b < 256
unfolding pairs_of
below b h = omega arith
