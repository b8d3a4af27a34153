-- ===== src/ReadingOrder/Blocks.antt =====
-- Blocks, their boxes and the columns of a page (worker/app/pipeline/reading_order.py).
use yarrow.Prelude.{
  ℕ, ◌+◌, Bool, true, false, not, ◌&&◌, Option, none, some, List, [], ◌∷◌, map, ltb, if◌then◌else◌,
  keep, all,
}
use yarrow.Prelude.Int.{ℤ, ltb_ℤ}
use yarrow.Prelude.Sorting.{sort_by}

-- Python's floats: the operations that the order uses, which are not of this repository.
-- `full_width`, `narrow` and `gutter` are a page width times the fraction of that name.
pub record Floats : Type 1 where
  pub Float : Type 0
  pub lt : Float → Float → Bool
  pub sub : Float → Float → Float
  pub zero : Float
  pub minus_one : Float
  pub full_width : Float → Float
  pub narrow : Float → Float
  pub gutter : Float → Float

module _ (floats : Floats) where
  abbrev pub Float : Type 0
  Float = floats.Float

  -- A list or tuple of four numbers.
  pub record Box : Type 0 where
    pub x0 : Float
    pub y0 : Float
    pub x1 : Float
    pub y1 : Float

  -- What the order reads of a block: `none` is a value of another type or a missing one.
  pub record Block : Type 0 where
    pub block_order : Option ℤ
    pub block_id : Option ℤ
    pub block_bbox : Option Box

  -- A block's position in the list, with its block and its box.
  pub record Item : Type 0 where
    pub index : ℕ
    pub block : Block
    pub box : Box

  abbrev pub le : Float → Float → Bool
  le a b = not (floats.lt b a)

  abbrev pub max_float : Float → Float → Float
  max_float a b = if floats.lt a b then b else a

  abbrev pub min_float : Float → Float → Float
  min_float a b = if floats.lt b a then b else a

  -- A box with no extent does not count.
  abbrev pub proper : Box → Option Box
  proper box = if le box.x1 box.x0 then none else if le box.y1 box.y0 then none else some box

  unfoldable pub bbox : Block → Option Box
  bbox block = elim block.block_bbox [ none ↦ none | some box ↦ proper box ]

  abbrev pub with_item : ℕ → Block → Option Box → Option (List Item) → Option (List Item)
  with_item index block (some box) (some items) =
      some (record { index = index; block = block; box = box } ∷ items)
  with_item index block _ _ = none

  -- The blocks with their boxes, if each has one.
  unfoldable pub enumerate : ℕ → List Block → Option (List Item)
  enumerate index [] = some []
  enumerate index (block ∷ blocks) =
      with_item index block (bbox block) (enumerate (index + 1) blocks)

  unfoldable pub has_full_order : List Block → Bool
  has_full_order = all (λ b. elim b.block_order [ none ↦ false | some _ ↦ true ])

  -- A missing order is infinite.
  abbrev pub order_lt : Option ℤ → Option ℤ → Bool
  order_lt (some a) (some b) = ltb_ℤ a b
  order_lt (some a) none = true
  order_lt none _ = false

  -- `(bboxes[i][1], _model_order(blocks[i]), i)` as a sort key: the tuples' `<`.
  abbrev pub key_lt : Item → Item → Bool
  key_lt a b =
      if floats.lt a.box.y0 b.box.y0
      then true
      else if floats.lt b.box.y0 a.box.y0
      then false
      else if order_lt a.block.block_order b.block.block_order
      then true
      else if order_lt b.block.block_order a.block.block_order
      then false
      else ltb a.index b.index

  unfoldable pub sort_items : List Item → List Item
  sort_items = sort_by (λ a b. not (key_lt b a))

  abbrev pub ints : List (Option ℤ) → Bool
  ints = all (λ key. elim key [ none ↦ false | some _ ↦ true ])

  unfoldable pub legacy_order : List Block → List Block
  legacy_order blocks =
      if ints (map (λ b. b.block_order) blocks)
      then sort_by (λ a b. not (order_lt b.block_order a.block_order)) blocks
      else if ints (map (λ b. b.block_id) blocks)
      then sort_by (λ a b. not (order_lt b.block_id a.block_id)) blocks
      else blocks

  pub record Interval : Type 0 where
    pub left : Float
    pub right : Float

  unfoldable pub is_full_width : Float → Item → Bool
  is_full_width page_width item =
      floats.lt (floats.full_width page_width) (floats.sub item.box.x1 item.box.x0)

  abbrev pub interval_le : Interval → Interval → Bool
  interval_le a b =
      if floats.lt b.left a.left
      then false
      else if floats.lt a.left b.left
      then true
      else le a.right b.right

  -- The intervals, the last one last, with those that touch merged.
  abbrev pub merge_onto : Interval → List Interval → List Interval
  merge_onto last [] = last ∷ []
  merge_onto last (next ∷ rest) =
      let joined = merge_onto (record last { right = max_float last.right next.right }) rest in
      let apart = merge_onto next rest in if le next.left last.right then joined else last ∷ apart

  unfoldable pub merge_intervals : List Interval → List Interval
  merge_intervals [] = []
  merge_intervals (first ∷ rest) = merge_onto first rest

  -- The gaps inside the page that are wide enough to separate columns.
  unfoldable pub gutters : Float → Float → List Interval → List Interval
  gutters page_width x [] = []
  gutters page_width x (next ∷ rest) =
      let further = gutters page_width (max_float x next.right) rest in
      if floats.lt floats.zero x
        && floats.lt next.left page_width
        && floats.lt (floats.gutter page_width) (floats.sub next.left x)
      then record { left = x; right = next.left } ∷ further
      else further

  unfoldable pub between : Float → Float → List Interval → List Interval
  between page_width start [] = record { left = start; right = page_width } ∷ []
  between page_width start (gutter ∷ rest) =
      record { left = start; right = gutter.left } ∷ between page_width gutter.right rest

  unfoldable pub column_bands : Float → List Item → List Interval
  column_bands page_width items = between page_width floats.zero (
      gutters page_width floats.zero (
        merge_intervals (
          sort_by interval_le (
            map (λ i. record { left = i.box.x0; right = i.box.x1 })
              (keep
                (λ i.
                  not (is_full_width page_width i)
                  && le (floats.narrow page_width) (floats.sub i.box.x1 i.box.x0))
                items)))))

  abbrev pub overlap : Item → Interval → Float
  overlap item band =
      floats.sub (min_float item.box.x1 band.right) (max_float item.box.x0 band.left)

  unfoldable pub overlapping_bands : Item → List Interval → List Interval
  overlapping_bands item = keep (λ band. floats.lt floats.zero (overlap item band))
