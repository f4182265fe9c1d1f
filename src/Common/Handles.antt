-- ===== src/Common/Handles.antt =====
-- A list of open handles, from which a call takes one.
use win32_experiments.Common.Tests.{◌==◌, if◌then◌else◌}
use Prim.Native.Nat.{ℕ}
use mathlib.Core.Path.{◌≡◌}
use mathlib.Core.Bool.{true}
use mathlib.Core.List.{List, [], ◌∷◌}
use native.Mathlib.Omega.{arith}

abbrev pub erase : ℕ → List ℕ → List ℕ
erase a [] = []
erase a (x ∷ xs) = if a == x then xs else x ∷ erase a xs

pub erase_first : (a : ℕ) (xs : List ℕ) → erase a (a ∷ xs) ≡ xs
erase_first a xs = let t : (a == a) ≡ true = ground arith in rw t
