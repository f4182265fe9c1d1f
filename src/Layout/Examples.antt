-- ===== src/Layout/Examples.antt =====
-- The two windows of the demonstration, and the witnesses.
use win32_experiments.Common.{◌≡◌, refl, [], ◌∷◌, arith}
use win32_experiments.Common.Int.{pos, ◌+ℤ◌, ◌-ℤ◌}
use win32_experiments.Layout.{AnchorLayout, apply, place_all, place, shift, max_ℤ, has_flag}
use win32_experiments.Layout.Anchors.{AllRoomy, AllKeep, apply-AllKeep}

-- The listbox, on all four edges, and the button in the corner.
abbrev anchored : AnchorLayout
anchored = record {
  initial_width = pos 500;
  initial_height = pos 380;
  items =
      record {
        hwnd = 1;
        initial_rect = record { left = pos 10; top = pos 35; right = pos 490; bottom = pos 330 };
        anchors = 15;
      }
      ∷ record {
        hwnd = 2;
        initial_rect = record { left = pos 380; top = pos 340; right = pos 490; bottom = pos 370 };
        anchors = 12;
      }
      ∷ [];
}

anchored_run :
    apply anchored (pos 600) (pos 400)
    ≡ record { window = 1; x = pos 10; y = pos 35; width = pos 580; height = pos 315 }
      ∷ record { window = 2; x = pos 480; y = pos 360; width = pos 110; height = pos 30 }
      ∷ []
unfolding apply place_all place shift max_ℤ has_flag ◌+ℤ◌ ◌-ℤ◌
anchored_run = refl

anchored-AllRoomy : AllRoomy (pos 600 -ℤ pos 500) (pos 400 -ℤ pos 380) anchored.items
unfolding ◌+ℤ◌ ◌-ℤ◌ has_flag
anchored-AllRoomy = (
  ((omega arith, omega arith), (omega arith, omega arith)),
  (((omega arith, omega arith), (omega arith, omega arith)), tt),
)

apply-AllKeep_example :
    AllKeep
      (pos 600 -ℤ pos 500)
      (pos 400 -ℤ pos 380)
      anchored.items
      (apply anchored (pos 600) (pos 400))
apply-AllKeep_example = apply-AllKeep anchored (pos 600) (pos 400) anchored-AllRoomy
