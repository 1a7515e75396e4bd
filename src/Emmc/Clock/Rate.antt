-- ===== src/Emmc/Clock/Rate.antt =====
-- The divider keeps the card's clock within its limit.
use mathlib.Core.Path.{subst}
use haskell_os.Base.{
  ℕ, ◌+◌, ◌*◌, ◌/◌, ◌%◌, ◌^◌, ◌<◌, ◌≤◌, ◌≡◌, refl, arith, true, leb, ◌==◌, if◌then◌else◌, all_below,
  all_below_sound, Bool-cases, inl, inr,
}
use haskell_os.Emmc.Clock.{
  sd_clock_high, target_divisor, high_bit, divider, divider_fields, get_clock_divider,
}

-- The clock that the controller makes of its base clock under a control word: the ten bits of the
-- divider, high ones in bits 6 and 7 and low ones in bits 8 to 15, halve and divide it, and zero leaves
-- it.
abbrev pub card_clock : ℕ → ℕ → ℕ
card_clock base_clock word =
    let div = word / 2 ^ 6 % 4 * 256 + word / 2 ^ 8 % 256 in
    if div == 0 then base_clock else base_clock / (2 * div)

-- The word for a value of `target_div`.
divider_word : ℕ → ℕ
unfolding high_bit divider divider_fields
divider_word target_div = divider_fields (divider (high_bit 32 target_div))

multiples :
    all_below 86 (λ q. leb (card_clock (q * sd_clock_high) (divider_word q)) sd_clock_high) ≡ true
unfolding all_below divider_word
multiples = refl

slowest : divider_word 0 ≡ 0xffc0
unfolding divider_word
slowest = refl

undivided : divider_word 1 ≡ 0
unfolding divider_word
undivided = refl

leb_sound : (a b : ℕ) → leb a b ≡ true → a ≤ b
leb_sound a b h = ground arith

target_limit :
    (base_clock : ℕ)
    → base_clock < 2 ^ 32
    → card_clock base_clock (divider_word (target_divisor base_clock)) ≤ sd_clock_high
unfolding target_divisor
target_limit b h = elim (Bool-cases (leb sd_clock_high b)) [
  | inr e ↦ rw (e, undivided) (ground arith)
  | inl e ↦ elim (Bool-cases (b % sd_clock_high == 0)) [
    | inr f ↦ rw (e, f, slowest) (omega arith)
    | inl f ↦
        let whole : b / sd_clock_high * sd_clock_high ≡ b = ground arith in
        rw (e, f)
          (subst (λ (x : ℕ). card_clock x (divider_word (b / sd_clock_high)) ≤ sd_clock_high) whole
            (leb_sound _ sd_clock_high (
              all_below_sound 86
                (λ q. leb (card_clock (q * sd_clock_high) (divider_word q)) sd_clock_high)
                (b / sd_clock_high) multiples (omega arith))))
  ]
]

-- Of every 32-bit base clock, `get_clock_divider` makes a card clock of at most 50 MHz.
pub get_clock_divider-limit :
    (base_clock : ℕ)
    → base_clock < 2 ^ 32
    → card_clock base_clock (get_clock_divider base_clock) ≤ sd_clock_high
unfolding get_clock_divider divider_word
get_clock_divider-limit = target_limit
