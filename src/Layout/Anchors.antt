-- ===== src/Layout/Anchors.antt =====
-- What the anchors of a control keep.
use win32_experiments.Common.{◌≡◌, refl, Bool, true, false, ◌&&◌, List, [], ◌∷◌, map}
use win32_experiments.Common.Int.{ℤ, pos, ◌+ℤ◌, ◌-ℤ◌, ◌≤ℤ◌, int_laws}
use win32_experiments.Layout.{
  max_ℤ, Move, has_flag, AnchorItem, AnchorLayout, shift, place, place_all, apply, anchor_left,
  anchor_top, anchor_right, anchor_bottom,
}

-- On one axis: what is anchored near stays; what is anchored far keeps its distance from the far edge;
-- what is not anchored on both keeps its size.
abbrev AxisKeeps : Bool → Bool → ℤ → ℤ → ℤ → ℤ × ℤ → Type 0
AxisKeeps near far start size delta (start', size') =
    (near ≡ true → start' ≡ start)
    × ((far ≡ true → start' +ℤ size' ≡ (start +ℤ size) +ℤ delta)
        × ((near && far ≡ false → size' ≡ size) × (far ≡ false → start' ≡ start)))

shift-AxisKeeps :
    (near far : Bool) (start size delta : ℤ)
    → AxisKeeps near far start size delta (shift near far start size delta)
unfolding shift
shift-AxisKeeps true true start size delta =
    (λ e. refl, (λ e. grind (int_laws), (λ e. cc, λ e. cc)))
shift-AxisKeeps true false start size delta = (λ e. refl, (λ e. cc, (λ e. refl, λ e. refl)))
shift-AxisKeeps false true start size delta =
    (λ e. cc, (λ e. grind (int_laws), (λ e. refl, λ e. cc)))
shift-AxisKeeps false false start size delta = (λ e. refl, (λ e. cc, (λ e. refl, λ e. refl)))

max_zero : (a : ℤ) → pos 0 ≤ℤ a → max_ℤ a (pos 0) ≡ a
unfolding max_ℤ
max_zero a h = grind (int_laws)

max_zero-le : (a : ℤ) → pos 0 ≤ℤ max_ℤ a (pos 0)
unfolding max_ℤ
max_zero-le a = grind (int_laws)

add_zero : (a : ℤ) → a +ℤ pos 0 ≡ a
add_zero a = grind (int_laws)

shift_zero : (near far : Bool) (start size : ℤ) → shift near far start size (pos 0) ≡ (start, size)
unfolding shift
shift_zero true true start size = rw (add_zero size)
shift_zero true false start size = refl
shift_zero false true start size = rw (add_zero start)
shift_zero false false start size = refl

-- The position that a control was added with.
abbrev pub home : AnchorItem → Move
home item =
    let r = item.initial_rect in
    record {
      window = item.hwnd;
      x = r.left;
      y = r.top;
      width = r.right -ℤ r.left;
      height = r.bottom -ℤ r.top;
    }

-- A size on an axis behind Apply: it grows only where the control is anchored to both edges.
abbrev pub grown : Bool → Bool → ℤ → ℤ → ℤ
grown true true size delta = size +ℤ delta
grown true false size delta = size
grown false far size delta = size

-- The sizes on both axes are not negative, as they are and behind Apply.
abbrev pub IsRoomy : ℤ → ℤ → AnchorItem → Type 0
IsRoomy dw dh item =
    let r = item.initial_rect in
    let width = r.right -ℤ r.left in
    let height = r.bottom -ℤ r.top in
    let l = has_flag item.anchors anchor_left in
    let t = has_flag item.anchors anchor_top in
    let g = has_flag item.anchors anchor_right in
    let b = has_flag item.anchors anchor_bottom in
    ((pos 0 ≤ℤ width) × (pos 0 ≤ℤ grown l g width dw))
    × ((pos 0 ≤ℤ height) × (pos 0 ≤ℤ grown t b height dh))

abbrev pub AllRoomy : ℤ → ℤ → List AnchorItem → Type 0
AllRoomy dw dh [] = Unit {0}
AllRoomy dw dh (item ∷ items) = IsRoomy dw dh item × AllRoomy dw dh items

-- The move keeps what the anchors of the control ask for, on both axes.
abbrev pub Keeps : ℤ → ℤ → AnchorItem → Move → Type 0
Keeps dw dh item m =
    let r = item.initial_rect in
    (m.window ≡ item.hwnd)
    × (AxisKeeps (has_flag item.anchors anchor_left) (has_flag item.anchors anchor_right) r.left
          (r.right -ℤ r.left) dw (m.x, m.width)
        × AxisKeeps (has_flag item.anchors anchor_top) (has_flag item.anchors anchor_bottom) r.top
            (r.bottom -ℤ r.top) dh (m.y, m.height))

abbrev pub AllKeep : ℤ → ℤ → List AnchorItem → List Move → Type 0
AllKeep dw dh [] [] = Unit {0}
AllKeep dw dh [] (m ∷ moves) = ⊥
AllKeep dw dh (item ∷ items) [] = ⊥
AllKeep dw dh (item ∷ items) (m ∷ moves) = Keeps dw dh item m × AllKeep dw dh items moves

shift-size :
    (near far : Bool) (start size delta : ℤ)
    → pos 0 ≤ℤ size
    → pos 0 ≤ℤ grown near far size delta
    → max_ℤ (shift near far start size delta).1 (pos 0) ≡ (shift near far start size delta).1
unfolding shift
shift-size true true start size delta h k = max_zero (size +ℤ delta) k
shift-size true false start size delta h k = max_zero size h
shift-size false true start size delta h k = max_zero size h
shift-size false false start size delta h k = max_zero size h

place-Keeps :
    (dw dh : ℤ) (item : AnchorItem) → IsRoomy dw dh item → Keeps dw dh item (place dw dh item)
unfolding place
place-Keeps dw dh item ((w, w'), (h, h')) =
    let r = item.initial_rect in
    let l = has_flag item.anchors anchor_left in
    let t = has_flag item.anchors anchor_top in
    let g = has_flag item.anchors anchor_right in
    let b = has_flag item.anchors anchor_bottom in
    (
      refl,
      (
        rw (shift-size l g r.left (r.right -ℤ r.left) dw w w')
            (shift-AxisKeeps l g r.left (r.right -ℤ r.left) dw),
        rw (shift-size t b r.top (r.bottom -ℤ r.top) dh h h')
            (shift-AxisKeeps t b r.top (r.bottom -ℤ r.top) dh),
      ),
    )

place_all-AllKeep :
    (dw dh : ℤ) (items : List AnchorItem)
    → AllRoomy dw dh items
    → AllKeep dw dh items (place_all dw dh items)
unfolding place_all
place_all-AllKeep dw dh [] r = tt
place_all-AllKeep dw dh (item ∷ items) (r, s) =
    (place-Keeps dw dh item r, place_all-AllKeep dw dh items s)

-- AnchorLayout::Apply moves each control once, in order. If no size is negative before or after, a
-- control anchored to an edge keeps its distance to it: left and top stay, and the far end moves by the
-- change of the window when it is anchored right or bottom; a control keeps its size on an axis where
-- it is not anchored to both edges, and its place where it is not anchored to the far one.
pub apply-AllKeep :
    (layout : AnchorLayout) (w h : ℤ)
    → AllRoomy (w -ℤ layout.initial_width) (h -ℤ layout.initial_height) layout.items
    → AllKeep
        (w -ℤ layout.initial_width)
        (h -ℤ layout.initial_height)
        layout.items
        (apply layout w h)
unfolding apply
apply-AllKeep layout w h r =
    place_all-AllKeep (w -ℤ layout.initial_width) (h -ℤ layout.initial_height) layout.items r

sub_self : (a : ℤ) → a -ℤ a ≡ pos 0
sub_self a = grind (int_laws)

place-home :
    (item : AnchorItem) → IsRoomy (pos 0) (pos 0) item → place (pos 0) (pos 0) item ≡ home item
unfolding place
place-home item ((w, w'), (h, h')) = simp (
  shift_zero,
  max_zero (item.initial_rect.right -ℤ item.initial_rect.left) w,
  max_zero (item.initial_rect.bottom -ℤ item.initial_rect.top) h,
)

place_all-home :
    (items : List AnchorItem)
    → AllRoomy (pos 0) (pos 0) items
    → place_all (pos 0) (pos 0) items ≡ map home items
unfolding place_all
place_all-home [] r = refl
place_all-home (item ∷ items) (r, s) = rw (place-home item r, place_all-home items s)

-- Apply at the initial size of the window puts each control back where it was added, if no size is
-- negative.
pub apply-home :
    (layout : AnchorLayout)
    → AllRoomy (pos 0) (pos 0) layout.items
    → apply layout layout.initial_width layout.initial_height ≡ map home layout.items
unfolding apply
apply-home layout r =
    rw (sub_self layout.initial_width, sub_self layout.initial_height)
      (place_all-home layout.items r)
