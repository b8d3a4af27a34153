-- ===== src/ReadingOrder/Permutes.antt =====
-- The reading order has every block of the page, each once (worker/app/pipeline/reading_order.py).
use mathlib.Core.List.{Perm}
use mathlib.Core.List.Perm
use mathlib.Core.List.{perm_middle, append-nil}
use yarrow.Prelude.{
  ℕ, suc, ◌+◌, ◌≤◌, ◌<◌, ◌≡◌, refl, ap, sym, subst, not, Option, none, some, List, [], ◌∷◌, ◌++◌,
  map, keep, arith, Bool-cases, Option-cases, inl, inr, All, length, count_of, count_of-le, leb,
  all,
}
use yarrow.Prelude.Sorting.{sort_by-Perm}
use yarrow.ReadingOrder.Blocks.{
  Floats, Float, Box, Block, Item, Interval, bbox, enumerate, with_item, has_full_order, sort_items,
  legacy_order, ints, is_full_width, column_bands, overlap, le,
}
use yarrow.ReadingOrder.Order.{
  best_band, dominant_band, column_order, band_below_spans, is_spanning, weave, multi_column,
  blocks_of, order_in_bands, order_items, order_blocks,
}
use yarrow.ReadingOrder.Buckets.{keep-Perm, bucket, buckets, buckets-Perm, concat-Perm}

everywhere : {A : Type 0} {P : A → Type 0} (h : (x : A) → P x) (xs : List A) → All P xs
everywhere h [] = tt
everywhere h (x ∷ xs) = (h x, everywhere h xs)

past : {A : Type 0} (bs rs ts : List A) → Perm (bs ++ (rs ++ ts)) (rs ++ (bs ++ ts))
past bs [] ts = Perm.refl (bs ++ ts)
past bs (r ∷ rs) ts = Perm.trans (perm_middle {a = r} bs (rs ++ ts)) (Perm.cons r (past bs rs ts))

module _ (floats : Floats) where
  sort_items-Perm : (items : List (Item floats)) → Perm (sort_items floats items) items
  unfolding sort_items
  sort_items-Perm items = sort_by-Perm _ items

  legacy_order-Perm : (blocks : List (Block floats)) → Perm (legacy_order floats blocks) blocks
  unfolding legacy_order
  legacy_order-Perm blocks = elim (Bool-cases (ints floats (map (λ b. b.block_order) blocks))) [
    | inl ordered ↦ rw ordered (sort_by-Perm _ blocks)
    | inr unordered ↦ rw unordered (elim (Bool-cases (ints floats (map (λ b. b.block_id) blocks))) [
      | inl numbered ↦ rw numbered (sort_by-Perm _ blocks)
      | inr plain ↦ rw plain (Perm.refl blocks)
    ])
  ]

  best_band-bound :
      (item : Item floats) (position best : ℕ) (best_overlap : Float floats)
      (bands : List (Interval floats)) (count : ℕ)
      → best < count
      → position + length bands ≤ count
      → best_band floats item position best best_overlap bands < count
  unfolding best_band
  best_band-bound item position best best_overlap [] count h k = h
  best_band-bound item position best best_overlap (band ∷ bands) count h k =
      let moved =
        best_band-bound item (position + 1) position (overlap floats item band) bands count
          (omega arith) (omega arith) in
      let stayed =
        best_band-bound item (position + 1) best best_overlap bands count h (omega arith) in
      elim (Bool-cases (floats.lt best_overlap (overlap floats item band))) [
        | inl better ↦ rw better moved
        | inr worse ↦ rw worse stayed
      ]

  column_order-Perm :
      (bands : List (Interval floats))
      → 0 < length bands
      → (items : List (Item floats)) → Perm (column_order floats bands items) items
  unfolding column_order dominant_band
  column_order-Perm bands some_band items =
      Perm.trans
        (concat-Perm (λ i. best_band floats i 0 0 floats.minus_one bands) (sort_items floats)
          sort_items-Perm 0 (length bands) items)
        (buckets-Perm (λ i. best_band floats i 0 0 floats.minus_one bands) (length bands) items
          (everywhere
            (λ i.
              best_band-bound i 0 0 floats.minus_one bands (length bands) some_band (omega arith))
            items))

  suc_lem : (n : ℕ) → n + 1 ≡ suc n
  suc_lem n = omega arith

  weave-Perm :
      (bands : List (Interval floats))
      → 0 < length bands
      → (below : Item floats → ℕ) (within : List (Item floats)) (position : ℕ)
        (spanning : List (Item floats))
      → Perm
          (weave floats bands below within position spanning)
          (spanning ++ buckets below position (suc (length spanning)) within)
  unfolding weave
  weave-Perm bands some_band below within position [] =
      subst (λ ys. Perm (column_order floats bands (bucket below within position)) ys)
        (sym (append-nil (bucket below within position)))
        (column_order-Perm bands some_band (bucket below within position))
  weave-Perm bands some_band below within position (separator ∷ rest) =
      let column = column_order-Perm bands some_band (bucket below within position) in
      let next =
        subst
          (λ n.
            Perm (weave floats bands below within (position + 1) rest)
              (rest ++ buckets below n (suc (length rest)) within))
          (suc_lem position) (weave-Perm bands some_band below within (position + 1) rest) in
      Perm.trans (Perm.append column (Perm.cons separator next)) (
        Perm.trans
          (perm_middle {a = separator} (bucket below within position)
            (rest ++ buckets below (suc position) (suc (length rest)) within))
          (Perm.cons separator (
            past (bucket below within position) rest
              (buckets below (suc position) (suc (length rest)) within))))

  multi_column-Perm :
      (bands : List (Interval floats))
      → 0 < length bands
      → (items : List (Item floats)) → Perm (multi_column floats bands items) items
  unfolding multi_column band_below_spans
  multi_column-Perm bands some_band items =
      let spans = sort_items floats (keep (is_spanning floats bands) items) in
      let within = keep (λ i. not (is_spanning floats bands i)) items in
      let below =
        λ (i : Item floats). count_of (λ (s : Item floats). le floats s.box.y0 i.box.y0) spans in
      Perm.trans (weave-Perm bands some_band below within 0 spans) (
        Perm.trans
          (Perm.append (sort_items-Perm (keep (is_spanning floats bands) items)) (
            buckets-Perm below (suc (length spans)) within (
              everywhere
                (λ i.
                  omega
                    (arith, count_of-le (λ (s : Item floats). le floats s.box.y0 i.box.y0) spans))
                within)))
          (keep-Perm (is_spanning floats bands) items))

  with_item-blocks :
      (index : ℕ) (block : Block floats) (box : Option (Box floats))
      (rest : Option (List (Item floats))) (items : List (Item floats))
      (blocks : List (Block floats))
      → ((later : List (Item floats)) → rest ≡ some later → blocks_of floats later ≡ blocks)
      → with_item floats index block box rest ≡ some items
      → blocks_of floats items ≡ block ∷ blocks
  with_item-blocks index block none rest items blocks smaller h = cc h
  with_item-blocks index block (some box) none items blocks smaller h = cc h
  with_item-blocks index block (some box) (some later) items blocks smaller h =
      let whole : record { index = index; block = block; box = box } ∷ later ≡ items = cc h in
      subst (λ is. blocks_of floats is ≡ block ∷ blocks) whole
        (ap (λ bs. block ∷ bs) (smaller later refl))

  blocks_of-enumerate :
      (index : ℕ) (blocks : List (Block floats)) (items : List (Item floats))
      → enumerate floats index blocks ≡ some items
      → blocks_of floats items ≡ blocks
  unfolding enumerate
  blocks_of-enumerate index [] items h = cc h
  blocks_of-enumerate index (block ∷ blocks) items h =
      let smaller = blocks_of-enumerate (index + 1) blocks in
      with_item-blocks index block (bbox floats block) (enumerate floats (index + 1) blocks) items
        blocks smaller h

  order_in_bands-Perm :
      (items : List (Item floats)) (bands : List (Interval floats))
      → Perm (order_in_bands floats (blocks_of floats items) items bands) (blocks_of floats items)
  unfolding order_in_bands
  order_in_bands-Perm items bands = elim (Bool-cases (leb (length bands) 1)) [
    | inl one ↦ rw one (elim (Bool-cases (has_full_order floats (blocks_of floats items))) [
      | inl ordered ↦ rw ordered (Perm.map (λ (i : Item floats). i.block) (sort_items-Perm items))
      | inr unordered ↦ rw unordered (legacy_order-Perm (blocks_of floats items))
    ])
    | inr several ↦
        rw several
          (Perm.map (λ (i : Item floats). i.block) (multi_column-Perm bands (ground arith) items))
  ]

  -- Ordering the blocks of a page loses no block and doubles none, whatever their boxes and numbers
  -- are and whatever the page's width is.
  pub order_blocks-Perm :
      (blocks : List (Block floats)) (page_width : Option (Float floats))
      → Perm (order_blocks floats blocks page_width) blocks
  unfolding order_blocks order_items
  order_blocks-Perm [] page_width = Perm.refl []
  order_blocks-Perm (block ∷ blocks) none = legacy_order-Perm (block ∷ blocks)
  order_blocks-Perm (block ∷ blocks) (some page_width) =
      elim (Bool-cases (le floats page_width floats.zero)) [
        | inl no_width ↦ rw no_width (legacy_order-Perm (block ∷ blocks))
        | inr wide ↦ rw wide (elim (Option-cases (enumerate floats 0 (block ∷ blocks))) [
          | inl no_box ↦ rw no_box (legacy_order-Perm (block ∷ blocks))
          | inr (items, boxed) ↦
              rw boxed (elim (Bool-cases (all (is_full_width floats page_width) items)) [
                | inl full ↦ rw full (legacy_order-Perm (block ∷ blocks))
                | inr mixed ↦ rw mixed (
                    subst
                      (λ bs.
                        Perm (order_in_bands floats bs items (column_bands floats page_width items))
                          bs)
                      (blocks_of-enumerate 0 (block ∷ blocks) items boxed)
                      (order_in_bands-Perm items (column_bands floats page_width items)))
              ])
        ])
      ]
