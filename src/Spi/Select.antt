-- ===== src/Spi/Select.antt =====
-- Switching the chip select.
use native.Mathlib.Nat.{div-add-mod'}
use haskell_os.Base.{
  ℕ, ◌+◌, ◌-◌, ◌*◌, ◌/◌, ◌%◌, ◌^◌, ◌<◌, ◌≡◌, refl, ◌∙◌, sym, ap, ap₂, arith, List, ◌∷◌, [], bit_and,
  bit_or, not32, bit_and_split, bit_or_split, bit_and_mask, bit_and-zero, bit_or-zero, zero-bit_or,
}
use haskell_os.Base.Io.{done, rd, wr, barrier}
use haskell_os.Spi.{spi0_cs, spi_set_chip_select}

select_word :
    (v c : ℕ) → v < 2 ^ 32 → bit_or (bit_and v (not32 3)) (bit_and c 3) ≡ v / 4 * 4 + c % 4
select_word v c h =
    ap₂ bit_or cleared (bit_and_mask 2 c)
    ∙ ground (arith, bit_or_split 2 (v / 4) 0 0 (c % 4), bit_or-zero (v / 4), zero-bit_or (c % 4))
  where
    cleared : bit_and v (not32 3) ≡ v / 4 * 4
    cleared =
        ap (λ (x : ℕ). bit_and x (not32 3)) (sym (div-add-mod' v 4))
        ∙ ground (
          arith,
          bit_and_split 2 (v / 4) (2 ^ 30 - 1) (v % 4) 0,
          bit_and_mask 30 (v / 4),
          bit_and-zero (v % 4),
        )

-- `c_spi_set_chip_select` loads the status register once and stores it once, with the two chip select
-- bits of its argument and the others as they were.
pub spi_set_chip_select-bits :
    {S : Type 0} (s : S) (chip_select v : ℕ) (rest : List ℕ)
    → v < 2 ^ 32
    → (w : ℕ) × (spi_set_chip_select chip_select s (v ∷ rest)
        ≡ done tt s rest (barrier ∷ rd spi0_cs v ∷ wr spi0_cs w ∷ barrier ∷ []))
      × (w % 4 ≡ chip_select % 4)
      × (w / 4 ≡ v / 4)
unfolding spi_set_chip_select
spi_set_chip_select-bits s chip_select v rest h = (
  _,
  refl,
  omega (arith, select_word v chip_select h),
  omega (arith, select_word v chip_select h),
)
