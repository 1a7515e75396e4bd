-- ===== src/Hal/Gpio/Levels.antt =====
-- Driving and reading pins, against what the set, clear and level registers do to the pins.
use haskell_os.Base.{
  ℕ, ◌+◌, ◌*◌, ◌/◌, ◌%◌, ◌^◌, ◌<◌, ◌≡◌, refl, sym, arith, List, [], ◌∷◌, Bool, true, false, ◌&&◌,
  not, u32, ltb, ◌==◌, all_below, all_below_sound, if◌then◌else◌, bit_and_mask,
}
use haskell_os.Base.Io.{Access, Trace, done, rd, wr, barrier, irq_on, irq_off}
use haskell_os.Hal.Gpio.{
  gpio_set0, gpio_clr0, gpio_lev0, gpio_set_on, gpio_set_off, gpio_write, gpio_read,
}

-- Bit `pin % 32` of a word.
abbrev pub bit : ℕ → ℕ → Bool
bit w i = w / 2 ^ i % 2 == 1

-- What the BCM2835 does with the levels of its pins on an access: a word stored to a set register
-- raises the pins of its ones, one stored to a clear register lowers them.
abbrev pub drive : Access → (ℕ → Bool) → ℕ → Bool
drive (wr a w) levels p =
    if a == gpio_set0 + p / 32 * 4 && bit w (p % 32)
    then true
    else if a == gpio_clr0 + p / 32 * 4 && bit w (p % 32)
    then false
    else levels p
drive (rd a w) levels p = levels p
drive barrier levels p = levels p
drive irq_on levels p = levels p
drive irq_off levels p = levels p

abbrev pub drive_all : Trace → (ℕ → Bool) → ℕ → Bool
drive_all [] levels = levels
drive_all (a ∷ t) levels = drive_all t (drive a levels)

same_bool : Bool → Bool → Bool
same_bool true b = b
same_bool false b = not b

same_bool-eq : (a b : Bool) → same_bool a b ≡ true → a ≡ b
unfolding same_bool
same_bool-eq true b h = sym h
same_bool-eq false b h = ground arith

one_table :
    all_below 32 (λ i. all_below 32 (λ j. same_bool (bit (u32 (1 * 2 ^ i)) j) (i == j))) ≡ true
unfolding all_below same_bool
one_table = refl

bit-one : (i j : ℕ) → i < 32 → j < 32 → bit (u32 (1 * 2 ^ i)) j ≡ (i == j)
bit-one i j hi hj =
    same_bool-eq _ _ (all_below_sound 32 _ j (all_below_sound 32 _ i one_table hi) hj)

module _ {S : Type 0} where
  -- `c_gpio_write` makes the level of a pin up to 53 be whether the value is nonzero, and changes
  -- the level of no other pin up to 53; for another pin it changes nothing.
  pub gpio_write-drive :
      (s : S) (pin val p : ℕ) (ins : List ℕ) (levels : ℕ → Bool)
      → p < 54
      → (t : Trace) × (gpio_write pin val s ins ≡ done tt s ins t)
        × (drive_all t levels p ≡ (if pin == p then not (val == 0) else levels p))
  unfolding gpio_write gpio_set_on gpio_set_off
  gpio_write-drive s pin val p ins levels hp = (
    if ltb 53 pin
        then []
        else wr ((if val == 0 then gpio_clr0 else gpio_set0) + pin / 32 * 4)
            (u32 (1 * 2 ^ (pin % 32)))
          ∷ [],
    ground arith,
    ground (arith, bit-one (pin % 32) (p % 32)),
  )

  -- `c_gpio_read` gives the bit of a pin up to 53 in the level register's word, as 0 or 1, and 0
  -- for another pin, which it does not look at.
  pub gpio_read-bit :
      (s : S) (pin v : ℕ) (rest : List ℕ)
      → gpio_read pin s (v ∷ rest) ≡ (
          if ltb pin 54
          then done
              (if bit v (pin % 32) then 1 else 0)
              s
              rest
              (rd (gpio_lev0 + pin / 32 * 4) v ∷ [])
          else done 0 s (v ∷ rest) [])
  unfolding gpio_read
  gpio_read-bit s pin v rest = ground (arith, bit_and_mask 1 (v / 2 ^ (pin % 32)))
