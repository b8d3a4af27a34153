-- ===== src/ReadingOrder/Samples.antt =====
-- A page of two columns under a title, and the theorem applied to it. Its coordinates are integers.
use mathlib.Core.List.{Perm}
use yarrow.Prelude.{ℕ, ◌≡◌, refl, none, some, List, [], ◌∷◌, map}
use yarrow.Prelude.Int.{ℤ, pos, negsuc, ltb_ℤ, ◌-ℤ◌}
use yarrow.ReadingOrder.Blocks.{
  Floats, Block, bbox, enumerate, sort_items, column_bands, between, gutters, merge_intervals,
  is_full_width, overlapping_bands,
}
use yarrow.ReadingOrder.Order.{
  order_blocks, order_items, order_in_bands, multi_column, weave, column_order, dominant_band,
  best_band, band_below_spans,
}
use yarrow.ReadingOrder.Permutes.{order_blocks-Perm}

abbrev tenth : ℤ → ℤ
tenth (pos n) = pos 10
tenth (negsuc n) = pos 0

-- The fractions of a page of width 100.
abbrev integers : Floats
integers = record {
  Float = ℤ;
  lt = ltb_ℤ;
  sub = ◌-ℤ◌;
  zero = pos 0;
  minus_one = negsuc 0;
  full_width = λ _. pos 50;
  narrow = tenth;
  gutter = λ _. pos 2;
}

abbrev at : ℕ → ℕ → ℕ → ℕ → ℕ → Block integers
at order x0 y0 x1 y1 = record {
  block_order = some (pos order);
  block_id = none;
  block_bbox = some (record { x0 = pos x0; y0 = pos y0; x1 = pos x1; y1 = pos y1 });
}

abbrev page : List (Block integers)
page = at 0 10 0 90 5 ∷ at 1 55 10 90 30 ∷ at 2 10 12 45 20 ∷ at 3 10 25 45 30 ∷ []

-- The left column comes first.
ordered_page :
    map (λ (b : Block integers). b.block_order) (order_blocks integers page (some (pos 100)))
    ≡ some (pos 0) ∷ some (pos 2) ∷ some (pos 3) ∷ some (pos 1) ∷ []
unfolding order_blocks order_items order_in_bands multi_column weave column_order dominant_band
    best_band band_below_spans bbox enumerate sort_items column_bands between gutters
    merge_intervals is_full_width overlapping_bands ◌-ℤ◌
ordered_page = refl

order_blocks-Perm_example : Perm (order_blocks integers page (some (pos 100))) page
order_blocks-Perm_example = order_blocks-Perm integers page (some (pos 100))
