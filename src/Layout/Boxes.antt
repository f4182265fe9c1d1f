-- ===== src/Layout/Boxes.antt =====
-- Where a vertical box puts its items.
use win32_experiments.Common.{
  suc, ◌-◌, ◌≡◌, refl, ◌∙◌, inl, inr, true, false, List, [], ◌∷◌, ◌++◌, arith, Bool-cases,
  if◌then◌else◌, length,
}
use win32_experiments.Common.Int.{ℤ, pos, ◌+ℤ◌, ◌-ℤ◌, ◌≤ℤ◌, int_laws}
use win32_experiments.Layout.{
  max_ℤ, Move, Float, LayoutItem, VBox, times, totals, item_height, stack, apply_box,
}

module _ {W : Type 0} (float : Float W) where
  -- The heights of the items that are not weighted, and of those that are, out of `flexible`.
  abbrev pub fixed_sum : List (LayoutItem W) → ℤ
  fixed_sum [] = pos 0
  fixed_sum (item ∷ items) =
      if float.is_zero item.weight then item.fixed_size +ℤ fixed_sum items else fixed_sum items

  abbrev pub weight_sum : W → List (LayoutItem W) → W
  weight_sum total [] = total
  weight_sum total (item ∷ items) =
      if float.is_zero item.weight
      then weight_sum total items
      else weight_sum (float.plus total item.weight) items

  abbrev pub height_sum : ℤ → W → List (LayoutItem W) → ℤ
  height_sum flexible total [] = pos 0
  height_sum flexible total (item ∷ items) =
      item_height float flexible total item +ℤ height_sum flexible total items

  totals_lem :
      (items : List (LayoutItem W)) (fixed : ℤ) (weight : W)
      → totals float items fixed weight ≡ (fixed +ℤ fixed_sum items, weight_sum weight items)
  unfolding totals
  totals_lem [] fixed weight = let e : fixed +ℤ pos 0 ≡ fixed = grind (int_laws) in rw e
  totals_lem (item ∷ items) fixed weight = elim (Bool-cases (float.is_zero item.weight)) [
    | inl z ↦
        let e : (fixed +ℤ item.fixed_size) +ℤ fixed_sum items
            ≡ fixed +ℤ (item.fixed_size +ℤ fixed_sum items) =
          grind (int_laws) in
        rw z (totals_lem items (fixed +ℤ item.fixed_size) weight ∙ rw e)
    | inr z ↦ rw z (totals_lem items fixed (float.plus weight item.weight))
  ]

  -- The calls of MoveWindow stand one under the other from `cy` on, with `spacing` between them.
  abbrev pub Stacked : VBox W → ℤ → ℤ → ℤ → W → List (LayoutItem W) → ℤ → List Move → Type 0
  Stacked box x w flexible total [] cy moves = moves ≡ []
  Stacked box x w flexible total (item ∷ items) cy [] = ⊥
  Stacked box x w flexible total (item ∷ items) cy (m ∷ moves) =
      (m.window ≡ item.hwnd)
      × ((m.x ≡ x +ℤ box.margin)
          × ((m.y ≡ cy)
              × ((pos 0 ≤ℤ m.width)
                  × ((pos 0 ≤ℤ m.height)
                      × Stacked box x w flexible total items
                          (cy +ℤ (item_height float flexible total item +ℤ box.spacing)) moves))))

  max_zero-le : (a : ℤ) → pos 0 ≤ℤ max_ℤ (pos 0) a
  unfolding max_ℤ
  max_zero-le a = grind (int_laws)

  stack-Stacked :
      (box : VBox W) (x w flexible : ℤ) (total : W) (items : List (LayoutItem W)) (cy : ℤ)
      → Stacked box x w flexible total items cy (stack float box x w flexible total items cy).0
  unfolding stack
  stack-Stacked box x w flexible total [] cy = refl
  stack-Stacked box x w flexible total (item ∷ items) cy = (
    refl,
    (
      refl,
      (
        refl,
        (
          max_zero-le (w -ℤ (box.margin +ℤ box.margin)),
          (
            max_zero-le (item_height float flexible total item),
            stack-Stacked box x w flexible total items
                (cy +ℤ (item_height float flexible total item +ℤ box.spacing)),
          ),
        ),
      ),
    ),
  )

  stack_last :
      (box : VBox W) (x w flexible : ℤ) (total : W) (items : List (LayoutItem W)) (cy : ℤ)
      → (stack float box x w flexible total items cy).1
        ≡ cy +ℤ (height_sum flexible total items +ℤ times (length items) box.spacing)
  unfolding stack times
  stack_last box x w flexible total [] cy = grind (int_laws)
  stack_last box x w flexible total (item ∷ items) cy =
      let h = item_height float flexible total item in
      let ih = stack_last box x w flexible total items (cy +ℤ (h +ℤ box.spacing)) in
      ih ∙ grind (int_laws)

  -- fixedTotal and `flexible` of VBox::Apply.
  abbrev pub fixed_total : VBox W → ℤ
  fixed_total box =
      ((box.margin +ℤ box.margin) +ℤ times (length box.items - 1) box.spacing)
      +ℤ fixed_sum box.items

  abbrev pub flexible_height : VBox W → ℤ → ℤ
  flexible_height box h = max_ℤ (pos 0) (h -ℤ fixed_total box)

  apply_box-stack :
      (box : VBox W) (x y w h : ℤ)
      → apply_box float box x y w h
        ≡ stack float box x w
            (flexible_height box h)
            (weight_sum float.none_yet box.items)
            box.items
            (y +ℤ box.margin)
  unfolding apply_box
  apply_box-stack box x y w h = rw (
      totals_lem box.items ((box.margin +ℤ box.margin) +ℤ times (length box.items - 1) box.spacing)
        float.none_yet)

  -- VBox::Apply moves each item once, in order: at x and the margin, the first at y and the margin, each
  -- further one behind the height of the one before and the spacing, and no size is negative. The
  -- heights are taken out of what the fixed sizes, the spacing and the margins leave of h, with the sum
  -- of the weights as the whole.
  pub apply_box-Stacked :
      (box : VBox W) (x y w h : ℤ)
      → Stacked box x w
          (flexible_height box h)
          (weight_sum float.none_yet box.items)
          box.items
          (y +ℤ box.margin)
          (apply_box float box x y w h).0
  apply_box-Stacked box x y w h = rw (apply_box-stack box x y w h) (
      stack-Stacked box x w (flexible_height box h) (weight_sum float.none_yet box.items) box.items
        (y +ℤ box.margin))

  -- No item of the list is weighted.
  abbrev pub AllFixed : List (LayoutItem W) → Type 0
  AllFixed [] = Unit {0}
  AllFixed (item ∷ items) =
      ((float.is_zero item.weight ≡ true) × (float.is_positive item.weight ≡ false))
      × AllFixed items

  module _ (flexible : ℤ) (total : W) where
    AllFixed-height :
        (items : List (LayoutItem W))
        → AllFixed items
        → height_sum flexible total items ≡ fixed_sum items
    unfolding item_height
    AllFixed-height [] f = refl
    AllFixed-height (item ∷ items) ((z, p), f) = rw (z, p, AllFixed-height items f)

    -- One item is weighted, with all of the weight.
    height_one :
        (before : List (LayoutItem W)) (item : LayoutItem W) (after : List (LayoutItem W))
        → AllFixed before
        → AllFixed after
        → float.is_zero item.weight ≡ false
        → item_height float flexible total item ≡ flexible
        → height_sum flexible total (before ++ item ∷ after)
          ≡ fixed_sum (before ++ item ∷ after) +ℤ flexible
    unfolding item_height
    height_one [] item after f g z e =
        let a = AllFixed-height after g in rw (z, e, a) (grind (int_laws))
    height_one (b ∷ before) item after ((t, p), f) g z e =
        let ih = height_one before item after f g z e in
        let u : item_height float flexible total b ≡ b.fixed_size = rw (p, item_height) in
        rw (t, u, ih) (grind (int_laws))

  weight_fixed : (items : List (LayoutItem W)) (w : W) → AllFixed items → weight_sum w items ≡ w
  weight_fixed [] w f = refl
  weight_fixed (item ∷ items) w ((t, p), f) = rw t (weight_fixed items w f)

  weight_one :
      (before : List (LayoutItem W)) (item : LayoutItem W) (after : List (LayoutItem W)) (w : W)
      → AllFixed before
      → AllFixed after
      → float.is_zero item.weight ≡ false
      → weight_sum w (before ++ item ∷ after) ≡ float.plus w item.weight
  weight_one [] item after w f g z = rw z (weight_fixed after (float.plus w item.weight) g)
  weight_one (b ∷ before) item after w ((t, p), f) g z = rw t (weight_one before item after w f g z)

  heights_split :
      (flexible : ℤ) (total : W) (items before : List (LayoutItem W)) (item : LayoutItem W)
      (after : List (LayoutItem W))
      → items ≡ before ++ item ∷ after
      → AllFixed before
      → AllFixed after
      → float.is_zero item.weight ≡ false
      → item_height float flexible total item ≡ flexible
      → height_sum flexible total items ≡ fixed_sum items +ℤ flexible
  heights_split flexible total items before item after e f g z own =
      rw e (height_one flexible total before item after f g z own)

  times-length :
      (before : List (LayoutItem W)) (item : LayoutItem W) (after : List (LayoutItem W)) (a : ℤ)
      → let n = length (before ++ item ∷ after) in times n a ≡ a +ℤ times (n - 1) a
  unfolding times
  times-length [] item after a = let e : suc (length after) - 1 ≡ length after = omega arith in rw e
  times-length (b ∷ before) item after a =
      let n = length (before ++ item ∷ after) in let e : suc n - 1 ≡ n = omega arith in rw e

  max_zero_of : (a : ℤ) → pos 0 ≤ℤ a → max_ℤ (pos 0) a ≡ a
  unfolding max_ℤ
  max_zero_of a h = grind (int_laws)

  -- The sum behind the fill, for any numbers in the places of the box's.
  fill_sum :
      (y h margin spacing inner fixed : ℤ)
      → let flexible = h -ℤ (((margin +ℤ margin) +ℤ inner) +ℤ fixed) in
        ((y +ℤ margin) +ℤ ((fixed +ℤ flexible) +ℤ (spacing +ℤ inner))) +ℤ margin
        ≡ (y +ℤ h) +ℤ spacing
  fill_sum y h margin spacing inner fixed = grind (int_laws)

  -- A box with one weighted item fills its area: if the fixed sizes, the spacing and the margins fit
  -- into h, and `float` gives the whole to the whole weight, then where a next item would start is the
  -- lower edge of the area, less the margin, plus the spacing.
  pub apply_box_fills :
      (box : VBox W) (x y w h : ℤ) (before : List (LayoutItem W)) (item : LayoutItem W)
      (after : List (LayoutItem W))
      → box.items ≡ before ++ item ∷ after
      → AllFixed before
      → AllFixed after
      → float.is_zero item.weight ≡ false
      → float.is_positive item.weight ≡ true
      → float.plus float.none_yet item.weight ≡ item.weight
      → ((f : ℤ) → float.share f item.weight item.weight ≡ f)
      → pos 0 ≤ℤ (h -ℤ fixed_total box)
      → (apply_box float box x y w h).1 +ℤ box.margin ≡ (y +ℤ h) +ℤ box.spacing
  unfolding item_height
  apply_box_fills box x y w h before item after e f g z p whole gives fits =
      let m = max_zero_of (h -ℤ fixed_total box) fits in
      let total : weight_sum float.none_yet box.items ≡ item.weight =
        rw e (weight_one before item after float.none_yet f g z ∙ whole) in
      let flexible = h -ℤ fixed_total box in
      let own : item_height float flexible item.weight item ≡ flexible = rw p (gives flexible) in
      let heights : height_sum flexible item.weight box.items ≡ fixed_sum box.items +ℤ flexible =
        heights_split flexible item.weight box.items before item after e f g z own in
      let gaps : times (length box.items) box.spacing
          ≡ box.spacing +ℤ times (length box.items - 1) box.spacing =
        rw e (times-length before item after box.spacing) in
      rw
        (
          apply_box-stack box x y w h,
          m,
          total,
          stack_last box x w flexible item.weight box.items (y +ℤ box.margin),
          heights,
          gaps,
        )
        (fill_sum y h box.margin box.spacing (times (length box.items - 1) box.spacing)
          (fixed_sum box.items))
