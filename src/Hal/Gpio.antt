-- ===== src/Hal/Gpio.antt =====
-- The GPIO functions of c/hal.c, over the register addresses of c/hal.h.
pub mod Fields
pub mod Levels
use haskell_os.Base.{
  ℕ, ◌+◌, ◌*◌, ◌/◌, ◌%◌, ◌^◌, bit_and, bit_or, ltb, ◌==◌, not, if◌then◌else◌, u32, not32,
}
use haskell_os.Base.Io.{M, ◌>>=◌, pure, get32, put32}

abbrev pub gpio_max_pin : ℕ
gpio_max_pin = 53

abbrev pub gpio_fsel0 : ℕ
gpio_fsel0 = 0x2020_0000

abbrev pub gpio_set0 : ℕ
gpio_set0 = 0x2020_001c

abbrev pub gpio_clr0 : ℕ
gpio_clr0 = 0x2020_0028

abbrev pub gpio_lev0 : ℕ
gpio_lev0 = 0x2020_0034

-- `val &= ~(0x7 << shift); val |= (func << shift);`
pub with_function : ℕ → ℕ → ℕ → ℕ
with_function shift func val =
    bit_or (bit_and val (not32 (u32 (7 * 2 ^ shift)))) (u32 (func * 2 ^ shift))

module _ {S : Type 0} where
  unfoldable pub gpio_set_function : ℕ → ℕ → M S (Unit {0})
  gpio_set_function pin func =
      if ltb gpio_max_pin pin then pure tt else if not (bit_and func 7 == func) then pure tt else do
        let reg = gpio_fsel0 + pin / 10 * 4
        val ← get32 reg
        put32 reg (with_function (pin % 10 * 3) func val)

  unfoldable pub gpio_set_output : ℕ → M S (Unit {0})
  unfolding gpio_set_function
  gpio_set_output pin = gpio_set_function pin 1

  unfoldable pub gpio_set_input : ℕ → M S (Unit {0})
  unfolding gpio_set_function
  gpio_set_input pin = gpio_set_function pin 0

  unfoldable pub gpio_set_on : ℕ → M S (Unit {0})
  gpio_set_on pin =
      if ltb gpio_max_pin pin
      then pure tt
      else put32 (gpio_set0 + pin / 32 * 4) (u32 (1 * 2 ^ (pin % 32)))

  unfoldable pub gpio_set_off : ℕ → M S (Unit {0})
  gpio_set_off pin =
      if ltb gpio_max_pin pin
      then pure tt
      else put32 (gpio_clr0 + pin / 32 * 4) (u32 (1 * 2 ^ (pin % 32)))

  unfoldable pub gpio_write : ℕ → ℕ → M S (Unit {0})
  unfolding gpio_set_on gpio_set_off
  gpio_write pin val = if val == 0 then gpio_set_off pin else gpio_set_on pin

  unfoldable pub gpio_read : ℕ → M S ℕ
  gpio_read pin =
      if ltb gpio_max_pin pin
      then pure 0
      else do val ← get32 (gpio_lev0 + pin / 32 * 4); pure (bit_and (val / 2 ^ (pin % 32)) 1)
