-- ===== src/SharedMemory/Examples.antt =====
-- The theorems on the shared array at concrete inputs.
use win32_experiments.SharedMemory.Mapping.{Calls, IsMapping, construct, cleanup}
use win32_experiments.SharedMemory.Mapping.Failing.{Constructed, construct-Constructed}
use win32_experiments.Common.{erase, List, [], ◌∷◌, ℕ, false, ◌≡◌, refl, replicate, get_or, arith}
use win32_experiments.SharedMemory.{Shared, returned, set_at}
use win32_experiments.SharedMemory.Locking.{Free, set_at-Free}

-- Ten elements, of which nine are in use, and nobody owns the mutex.
abbrev nine_in_use : Shared
nine_in_use = record { owner = 0; depth = 0; count = 9; elements = replicate 10 7 }

set_at-Free_example :
    (t : Shared) × (set_at 1 3 5 nine_in_use ≡ returned tt t)
    × (Free t × (get_or t.elements 3 0 ≡ 5))
set_at-Free_example = set_at-Free 1 3 5 nine_in_use (refl, refl) (omega arith)

-- A system that has the mutex and no mapping.
record System : Type 0 where
  handles : List ℕ
  views : List ℕ
  owned : List ℕ

abbrev no_mapping : Calls System
no_mapping = record {
  mutex = λ b s. (5, record s { handles = 5 ∷ s.handles });
  wait = λ m s. record s { owned = m ∷ s.owned };
  mapping = λ b s. (0, s);
  map_view = λ h s. (0, s);
  zero_memory = λ v s. s;
  release_mutex = λ m s. record s { owned = erase m s.owned };
  unmap = λ v s. record s { views = erase v s.views };
  close_handle = λ h s. record s { handles = erase h s.handles };
}

no_mapping-IsMapping : IsMapping no_mapping (λ s. s.handles) (λ s. s.views) (λ s. s.owned)
no_mapping-IsMapping = record {
  mutex_none = λ b s e. absurd (cc);
  mutex_some = λ b s e. refl;
  mutex_keeps = λ b s. (refl, refl);
  waits = λ m s. (refl, refl, refl);
  mapping_none = λ b s e. refl;
  mapping_some = λ b s e. absurd (cc);
  mapping_keeps = λ b s. (refl, refl);
  view_none = λ h s e. refl;
  view_some = λ h s e. absurd (cc);
  view_keeps = λ h s. (refl, refl);
  zeroes = λ v s. (refl, refl, refl);
  releases = λ m s. (refl, refl, refl);
  unmaps = λ v s. (refl, refl, refl);
  closes = λ h s. (refl, refl, refl);
}

abbrev idle : System
idle = record { handles = 9 ∷ []; views = []; owned = [] }

construct-Constructed_example :
    Constructed no_mapping
      (λ s. s.handles)
      (λ s. s.views)
      (λ s. s.owned)
      no_mapping-IsMapping
      idle.handles
      idle.views
      idle.owned
      (construct no_mapping false 0 idle).0
      (construct no_mapping false 0 idle).1
construct-Constructed_example =
    construct-Constructed no_mapping (λ s. s.handles) (λ s. s.views) (λ s. s.owned)
      no_mapping-IsMapping false idle

-- The thread owns the mutex from then on.
construct_owned : (construct no_mapping false 0 idle).1.owned ≡ 5 ∷ []
unfolding construct cleanup
construct_owned = refl
