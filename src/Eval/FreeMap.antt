-- ===== src/Eval/FreeMap.antt =====
-- The bitmap of free cells of c/eval.c: one bit for each cell, set while the cell is free. A cell is its
-- label, the offset from `cells`; those below `heap_start` are never freed.
pub mod Marks
pub mod Lowest
pub mod Alloc
use haskell_os.Base.{
  ℕ, zero, suc, ◌+◌, ◌-◌, ◌*◌, ◌/◌, ◌%◌, ◌^◌, ltb, ◌==◌, if◌then◌else◌, Bool, true, Option, none,
  some, u32, sub32, not32, bit_and, bit_or,
}

-- `free_map` gives the words, and `tags` the tag of each cell.
pub record Cells : Type 0 where
  pub free_map : ℕ → ℕ
  pub free_map_nwords : ℕ
  pub heap_start : ℕ
  pub next_scan_index : ℕ
  pub num_free : ℕ
  pub num_alloc : ℕ
  pub tags : ℕ → ℕ

abbrev pub bits_per_word : ℕ
bits_per_word = 32

abbrev pub store_word : ℕ → ℕ → (ℕ → ℕ) → ℕ → ℕ
store_word i w m j = if j == i then w else m j

unfoldable pub mark_used : ℕ → Cells → Cells
mark_used i s =
    let word = s.free_map (i / bits_per_word) in
    if ltb i s.heap_start then s else record s {
      free_map =
          store_word (i / bits_per_word) (bit_and word (not32 (2 ^ (i % bits_per_word))))
            s.free_map;
    }

unfoldable pub mark_unused : ℕ → Cells → Cells
mark_unused i s =
    let word = s.free_map (i / bits_per_word) in
    record s {
      free_map = store_word (i / bits_per_word) (bit_or word (2 ^ (i % bits_per_word))) s.free_map;
    }

unfoldable pub is_marked_used : ℕ → Cells → Bool
is_marked_used i s =
    let word = s.free_map (i / bits_per_word) in
    if ltb i s.heap_start then true else bit_and word (2 ^ (i % bits_per_word)) == 0

-- `memset` with `~0` sets every word of the map.
unfoldable pub mark_all_free : Cells → Cells
mark_all_free s = record s {
  free_map = λ j. if ltb j s.free_map_nwords then 0xffff_ffff else s.free_map j;
  next_scan_index = s.heap_start;
}

-- `__builtin_ffs`: one more than the place of the lowest one, which is among `n` digits.
unfoldable pub ffs : ℕ → ℕ → ℕ
ffs zero w = 0
ffs (suc n) w = if w % 2 == 1 then 1 else suc (ffs n (w / 2))

-- The first word from `i` on that is not zero. The map ends only by the count of free cells, so the
-- search takes fuel.
unfoldable pub find_word : (ℕ → ℕ) → ℕ → ℕ → Option ℕ
find_word m zero i = none
find_word m (suc fuel) i = let rest = find_word m fuel (i + 1) in if m i == 0 then rest else some i

-- The cell is given out.
unfoldable pub take_cell : ℕ → ℕ → Cells → ℕ × Cells
unfolding ffs
take_cell t i s =
    let word = s.free_map i in
    let pos = i * bits_per_word + ffs bits_per_word word - 1 in
    (
      pos,
      record s {
        free_map = store_word i (bit_and word (word - 1)) s.free_map;
        next_scan_index = pos;
        tags = store_word pos t s.tags;
        num_alloc = u32 (s.num_alloc + 1);
        num_free = sub32 s.num_free 1;
      },
    )

-- `none` inside is `ERR`, which is taken if no cell is free; `none` outside is a search out of fuel.
unfoldable pub take_found : ℕ → Option ℕ → Cells → Option (Option (ℕ × Cells))
take_found t none s = none
take_found t (some i) s = some (some (take_cell t i s))

unfoldable pub alloc_node : ℕ → ℕ → Cells → Option (Option (ℕ × Cells))
alloc_node fuel t s =
    if s.num_free == 0
    then some none
    else take_found t (find_word s.free_map fuel (s.next_scan_index / bits_per_word)) s
