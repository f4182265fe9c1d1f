-- ===== src/FileLock/Examples.antt =====
-- A file system with one file, and the witnesses.
use win32_experiments.Common.{ℕ, ◌≡◌, refl, true, false, List, [], ◌∷◌, ◌==◌, arith, if◌then◌else◌}
use win32_experiments.FileLock.{
  Files, World, Action, locks, tries, unlocks, run, act, lock, unlock, try_lock, is_locked,
  invalid_handle_value,
}
use win32_experiments.FileLock.Exclusion.{Documented, run-exclusive}

-- The handle that is open on the file, or zero; a new handle is always 7.
abbrev one_file : Files ℕ
one_file = record {
  create_new = λ e. if e == 0 then (7, 7) else (invalid_handle_value, e);
  close_handle = λ h e. if h == e then 0 else e;
}

one_file-Documented : Documented one_file (λ e. e)
one_file-Documented = record {
  exists_fails = λ e n. ground arith;
  creates = λ e. ground arith;
  deletes = λ e. ground arith;
}

abbrev nobody : World ℕ
nobody = record { env = 0; file_handle = λ i. 0 }

abbrev race : List Action
race = locks 1 ∷ tries 2 ∷ unlocks 1 ∷ tries 2 ∷ locks 1 ∷ []

second_locked : is_locked one_file 2 (run one_file race nobody) ≡ true
unfolding run act lock unlock try_lock is_locked
second_locked = refl

run-exclusive_example :
    (is_locked one_file 1 (run one_file race nobody) ≡ false)
    × (((try_lock one_file 1 (run one_file race nobody)).0 ≡ false)
        × (((try_lock one_file 1 (run one_file race nobody)).1.file_handle
              ≡ (run one_file race nobody).file_handle)
            × (try_lock one_file 2 (run one_file race nobody) ≡ (true, run one_file race nobody))))
run-exclusive_example =
    run-exclusive one_file (λ e. e) one_file-Documented race nobody 2 1 (λ k. refl) second_locked
      (λ e. omega arith)
