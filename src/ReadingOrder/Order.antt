-- ===== src/ReadingOrder/Order.antt =====
-- `order_blocks` (worker/app/pipeline/reading_order.py).
use yarrow.Prelude.{
  ℕ, ◌+◌, Bool, not, Option, none, some, List, [], ◌∷◌, ◌++◌, map, leb, ◌==◌, if◌then◌else◌, length,
  keep, all, count_of, range_from,
}
use yarrow.ReadingOrder.Blocks.{
  Floats, Float, Block, Item, Interval, le, enumerate, has_full_order, sort_items, legacy_order,
  is_full_width, column_bands, overlap, overlapping_bands,
}

abbrev pub concat {ℓ} : {A : Type ℓ} → List (List A) → List A
concat [] = []
concat (xs ∷ xss) = xs ++ concat xss

module _ (floats : Floats) where
  -- The band that a block overlaps most; `position` counts the bands.
  unfoldable pub best_band : Item floats → ℕ → ℕ → Float floats → List (Interval floats) → ℕ
  best_band item position best best_overlap [] = best
  best_band item position best best_overlap (band ∷ bands) =
      let better = best_band item (position + 1) position (overlap floats item band) bands in
      let same = best_band item (position + 1) best best_overlap bands in
      if floats.lt best_overlap (overlap floats item band) then better else same

  unfoldable pub dominant_band : List (Interval floats) → Item floats → ℕ
  dominant_band bands item = best_band item 0 0 floats.minus_one bands

  -- A band's blocks: each column left to right, top to bottom within it.
  unfoldable pub column_order : List (Interval floats) → List (Item floats) → List (Item floats)
  column_order bands items = concat (
      map (λ band. sort_items floats (keep (λ i. dominant_band bands i == band) items))
        (range_from 0 (length bands)))

  -- The number of spanning blocks whose top is at or above the block's.
  unfoldable pub band_below_spans : List (Item floats) → Item floats → ℕ
  band_below_spans spanning item = count_of (λ s. le floats s.box.y0 item.box.y0) spanning

  abbrev pub is_spanning : List (Interval floats) → Item floats → Bool
  is_spanning bands item = leb 2 (length (overlapping_bands floats item bands))

  -- The blocks between one spanning block and the next, and that next one.
  unfoldable pub weave :
      List (Interval floats)
      → (Item floats → ℕ)
      → List (Item floats)
      → ℕ
      → List (Item floats)
      → List (Item floats)
  weave bands below within position [] = column_order bands (keep (λ i. below i == position) within)
  weave bands below within position (separator ∷ rest) =
      column_order bands (keep (λ i. below i == position) within)
      ++ separator ∷ weave bands below within (position + 1) rest

  unfoldable pub multi_column : List (Interval floats) → List (Item floats) → List (Item floats)
  multi_column bands items =
      let spanning = sort_items floats (keep (is_spanning bands) items) in
      let within = keep (λ i. not (is_spanning bands i)) items in
      weave bands (band_below_spans spanning) within 0 spanning

  abbrev pub blocks_of : List (Item floats) → List (Block floats)
  blocks_of = map (λ i. i.block)

  unfoldable pub order_in_bands :
      List (Block floats) → List (Item floats) → List (Interval floats) → List (Block floats)
  order_in_bands blocks items bands =
      if leb (length bands) 1
      then (if has_full_order floats blocks
          then blocks_of (sort_items floats items)
          else legacy_order floats blocks)
      else blocks_of (multi_column bands items)

  unfoldable pub order_items :
      Float floats → List (Block floats) → Option (List (Item floats)) → List (Block floats)
  order_items page_width blocks none = legacy_order floats blocks
  order_items page_width blocks (some items) =
      if all (is_full_width floats page_width) items
      then legacy_order floats blocks
      else order_in_bands blocks items (column_bands floats page_width items)

  -- `page_width` is `none` when it is no number.
  unfoldable pub order_blocks : List (Block floats) → Option (Float floats) → List (Block floats)
  order_blocks [] page_width = []
  order_blocks (block ∷ blocks) none = legacy_order floats (block ∷ blocks)
  order_blocks (block ∷ blocks) (some page_width) =
      if le floats page_width floats.zero
      then legacy_order floats (block ∷ blocks)
      else order_items page_width (block ∷ blocks) (enumerate floats 0 (block ∷ blocks))
