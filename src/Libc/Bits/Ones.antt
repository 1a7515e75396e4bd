-- ===== src/Libc/Bits/Ones.antt =====
-- The population count counts the ones.
use haskell_os.Base.{
  ℕ, suc, ◌+◌, ◌*◌, ◌/◌, ◌%◌, ◌^◌, ◌<◌, ◌≡◌, ◌∙◌, sym, ap, ap₂, arith, bit_and, u32,
}
use haskell_os.Libc.Bits.{popcountsi2}
use haskell_os.Libc.Bits.Bytes.{
  ones, pairs_of, nibbles_of, byte-IsCounted, word, pairs_word, byte-IsSmall, nibbles_word,
  bytes_word, below,
}

popcount_word :
    (a b c d : ℕ)
    → a < 256
    → b < 256
    → c < 256
    → d < 256
    → popcountsi2 (word a b c d) ≡ ones 8 a + ones 8 b + ones 8 c + ones 8 d
unfolding popcountsi2
popcount_word a b c d ha hb hc hd =
    let byte = λ (b : ℕ) (h : b < 256). byte-IsSmall b h in
    ap count (pairs_word a b c d ha hb hc hd)
    ∙ ap fold (
        nibbles_word (pairs_of a) (pairs_of b) (pairs_of c) (pairs_of d) (below b hb) (below c hc)
          (below d hd) (byte a ha) (byte b hb) (byte c hc) (byte d hd))
    ∙ ap (λ (x : ℕ). u32 (x * 0x0101_0101) / 2 ^ 24)
        (bytes_word (nibbles_of (pairs_of a)) (nibbles_of (pairs_of b)) (nibbles_of (pairs_of c))
          (nibbles_of (pairs_of d)) (byte a ha) (byte b hb) (byte c hc) (byte d hd))
    ∙ omega (
      arith,
      (byte-IsCounted a ha).low_small,
      (byte-IsCounted a ha).high_small,
      (byte-IsCounted a ha).counted,
      (byte-IsCounted b hb).low_small,
      (byte-IsCounted b hb).high_small,
      (byte-IsCounted b hb).counted,
      (byte-IsCounted c hc).low_small,
      (byte-IsCounted c hc).high_small,
      (byte-IsCounted c hc).counted,
      (byte-IsCounted d hd).low_small,
      (byte-IsCounted d hd).high_small,
      (byte-IsCounted d hd).counted,
    )
  where
    -- What the later steps make of the first's result, and of the second's.
    fold : ℕ → ℕ
    fold n = u32 (bit_and (u32 (n + n / 2 ^ 4)) 0x0f0f_0f0f * 0x0101_0101) / 2 ^ 24

    count : ℕ → ℕ
    count p = fold (u32 (bit_and p 0x3333_3333 + bit_and (p / 2 ^ 2) 0x3333_3333))

ones_low : (y : ℕ) → ones 8 (y % 256) ≡ ones 8 y
ones_low y = omega arith

ones_byte :
    (n x : ℕ)
    → ones (suc (suc (suc (suc (suc (suc (suc (suc n)))))))) x ≡ ones 8 x + ones n (x / 2 ^ 8)
ones_byte n x =
    omega (arith, ap (ones n) {x = x / 2 / 2 / 2 / 2 / 2 / 2 / 2 / 2} {y = x / 2 ^ 8} (omega arith))

ones_word :
    (x : ℕ)
    → ones 32 x
      ≡ ones 8 (x / 2 ^ 24)
        + ones 8 (x / 2 ^ 16 % 256)
        + ones 8 (x / 2 ^ 8 % 256)
        + ones 8 (x % 256)
ones_word x =
    ones_byte 24 x
    ∙ ap (λ (t : ℕ). ones 8 x + t)
        (ones_byte 16 (x / 2 ^ 8)
          ∙ ap (λ (t : ℕ). ones 8 (x / 2 ^ 8) + t)
              (ones_byte 8 (x / 2 ^ 8 / 2 ^ 8)
                ∙ ap₂ (λ (s t : ℕ). s + t)
                    (ap (ones 8) {x = x / 2 ^ 8 / 2 ^ 8} {y = x / 2 ^ 16} (omega arith))
                    (ap (ones 8) {x = x / 2 ^ 8 / 2 ^ 8 / 2 ^ 8} {y = x / 2 ^ 24} (omega arith))))
    ∙ regroup (ones 8 x) (ones 8 (x / 2 ^ 8)) (ones 8 (x / 2 ^ 16)) (ones 8 (x / 2 ^ 24))
        (ones_low x) (ones_low (x / 2 ^ 8)) (ones_low (x / 2 ^ 16))
  where
    regroup :
        (d c b a : ℕ) {d' c' b' : ℕ}
        → d' ≡ d
        → c' ≡ c
        → b' ≡ b
        → d + (c + (b + a)) ≡ a + b' + c' + d'
    regroup d c b a e f g = omega arith

-- `__popcountsi2` counts the ones of every 32-bit number.
pub popcountsi2-ones : (x : ℕ) → x < 2 ^ 32 → popcountsi2 x ≡ ones 32 x
popcountsi2-ones x h =
    ap popcountsi2 {y = word (x / 2 ^ 24) (x / 2 ^ 16 % 256) (x / 2 ^ 8 % 256) (x % 256)}
      (omega arith)
    ∙ popcount_word (x / 2 ^ 24) (x / 2 ^ 16 % 256) (x / 2 ^ 8 % 256) (x % 256) (omega arith)
        (omega arith) (omega arith) (omega arith)
    ∙ sym (ones_word x)
