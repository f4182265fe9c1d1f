-- ===== src/Layout.antt =====
-- src/layout-demo/main.cpp: the anchor layout and the box layout. A call of MoveWindow is a value, and a
-- layout is the list of its calls. `int` is an integer: the program leaves an overflow undefined. The
-- arithmetic of `float` is a parameter.
pub mod Anchors
pub mod Boxes
mod Examples
use win32_experiments.Common.{
  ℕ, zero, suc, ◌+◌, ◌-◌, ◌/◌, ◌%◌, Bool, true, false, not, ◌&&◌, List, [], ◌∷◌, ◌++◌, ◌==◌,
  if◌then◌else◌, length,
}
use win32_experiments.Common.Int.{ℤ, pos, ◌+ℤ◌, ◌-ℤ◌, ltb_ℤ}

-- std::max.
pub max_ℤ : ℤ → ℤ → ℤ
max_ℤ a b = if ltb_ℤ a b then b else a

-- RECT.
pub record Rect : Type 0 where
  pub left : ℤ
  pub top : ℤ
  pub right : ℤ
  pub bottom : ℤ

-- One call of MoveWindow.
pub record Move : Type 0 where
  pub window : ℕ
  pub x : ℤ
  pub y : ℤ
  pub width : ℤ
  pub height : ℤ

abbrev pub anchor_left : ℕ
anchor_left = 1

abbrev pub anchor_top : ℕ
anchor_top = 2

abbrev pub anchor_right : ℕ
anchor_right = 4

abbrev pub anchor_bottom : ℕ
anchor_bottom = 8

-- `(value & flag) != 0`, for a flag of one bit.
pub has_flag : ℕ → ℕ → Bool
has_flag value flag = (value / flag) % 2 == 1

pub record AnchorItem : Type 0 where
  pub hwnd : ℕ
  pub initial_rect : Rect
  pub anchors : ℕ

pub record AnchorLayout : Type 0 where
  pub initial_width : ℤ
  pub initial_height : ℤ
  pub items : List AnchorItem

-- AnchorLayout::Add.
pub add : AnchorLayout → ℕ → ℤ → ℤ → ℤ → ℤ → ℕ → AnchorLayout
add layout hwnd x y w h anchors =
    let item : AnchorItem = record {
      hwnd = hwnd;
      initial_rect = record { left = x; top = y; right = x +ℤ w; bottom = y +ℤ h };
      anchors = anchors;
    } in
    record layout { items = layout.items ++ item ∷ [] }

-- `if (left && right) w += dw; else if (right && !left) x += dw;`, and the same for the height.
pub shift : Bool → Bool → ℤ → ℤ → ℤ → ℤ × ℤ
shift near far start size delta =
    if near && far
    then (start, size +ℤ delta)
    else if far && not near
    then (start +ℤ delta, size)
    else (start, size)

-- The body of the loop of AnchorLayout::Apply.
pub place : ℤ → ℤ → AnchorItem → Move
unfolding shift max_ℤ has_flag
place dw dh item =
    let r = item.initial_rect in
    let left = has_flag item.anchors anchor_left in
    let top = has_flag item.anchors anchor_top in
    let right = has_flag item.anchors anchor_right in
    let bottom = has_flag item.anchors anchor_bottom in
    let (x, w) = shift left right r.left (r.right -ℤ r.left) dw in
    let (y, h) = shift top bottom r.top (r.bottom -ℤ r.top) dh in
    record { window = item.hwnd; x = x; y = y; width = max_ℤ w (pos 0); height = max_ℤ h (pos 0) }

pub place_all : ℤ → ℤ → List AnchorItem → List Move
unfolding place
place_all dw dh [] = []
place_all dw dh (item ∷ items) = place dw dh item ∷ place_all dw dh items

-- AnchorLayout::Apply.
pub apply : AnchorLayout → ℤ → ℤ → List Move
unfolding place_all
apply layout new_width new_height =
    place_all (new_width -ℤ layout.initial_width) (new_height -ℤ layout.initial_height) layout.items

-- What the program uses of `float`: the tests against 0, `+=`, and `share flexible weight total`, which is
-- `static_cast<int>(flexible * weight / total)`.
pub record Float (W : Type 0) : Type 0 where
  pub is_zero : W → Bool
  pub is_positive : W → Bool
  pub none_yet : W
  pub plus : W → W → W
  pub share : ℤ → W → W → ℤ

pub record LayoutItem (W : Type 0) : Type 0 where
  pub hwnd : ℕ
  pub weight : W
  pub fixed_size : ℤ

pub record VBox (W : Type 0) : Type 0 where
  pub spacing : ℤ
  pub margin : ℤ
  pub items : List (LayoutItem W)

-- n * a.
pub times : ℕ → ℤ → ℤ
times zero a = pos 0
times (suc n) a = a +ℤ times n a

module _ {W : Type 0} (float : Float W) where
  open float use {is_zero, is_positive, none_yet, plus, share}

  -- The first loop of VBox::Apply, on fixedTotal and totalWeight.
  pub totals : List (LayoutItem W) → ℤ → W → ℤ × W
  totals [] fixed weight = (fixed, weight)
  totals (item ∷ items) fixed weight =
      if is_zero item.weight
      then totals items (fixed +ℤ item.fixed_size) weight
      else totals items fixed (plus weight item.weight)

  pub item_height : ℤ → W → LayoutItem W → ℤ
  item_height flexible total item =
      if is_positive item.weight && is_positive total
      then share flexible item.weight total
      else item.fixed_size

  -- The second loop, on cy: the calls, and the last cy.
  pub stack : VBox W → ℤ → ℤ → ℤ → W → List (LayoutItem W) → ℤ → List Move × ℤ
  unfolding item_height max_ℤ
  stack box x w flexible total [] cy = ([], cy)
  stack box x w flexible total (item ∷ items) cy =
      let h = item_height flexible total item in
      let move : Move = record {
        window = item.hwnd;
        x = x +ℤ box.margin;
        y = cy;
        width = max_ℤ (pos 0) (w -ℤ (box.margin +ℤ box.margin));
        height = max_ℤ (pos 0) h;
      } in
      let (moves, last) = stack box x w flexible total items (cy +ℤ (h +ℤ box.spacing)) in
      (move ∷ moves, last)

  -- VBox::Apply. On a box without items the loops do nothing, as its early return does.
  pub apply_box : VBox W → ℤ → ℤ → ℤ → ℤ → List Move × ℤ
  unfolding stack totals times max_ℤ
  apply_box box x y w h =
      let around = (box.margin +ℤ box.margin) +ℤ times (length box.items - 1) box.spacing in
      let (fixed, total) = totals box.items around none_yet in
      stack box x w (max_ℤ (pos 0) (h -ℤ fixed)) total box.items (y +ℤ box.margin)
