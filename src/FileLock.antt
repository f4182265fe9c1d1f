-- ===== src/FileLock.antt =====
-- src/FileLockMutex/filelockmutex-filesystemlock.ixx: FileSystemLock, a lock between processes by a file
-- that CreateFileW makes anew and that is deleted as its handle is closed. The two calls are a parameter.
-- A handle is a number; zero is the null handle, and INVALID_HANDLE_VALUE, which is not null, is what CreateFileW
-- answers where it fails. Each process or object is a number too.
pub mod Exclusion
mod Examples
use win32_experiments.Common.{
  ℕ, zero, suc, ◌-◌, ◌^◌, ◌||◌, Bool, true, false, not, List, [], ◌∷◌, ◌==◌, if◌then◌else◌,
}

abbrev pub invalid_handle_value : ℕ
invalid_handle_value = 2 ^ 64 - 1

-- CreateFileW with CREATE_NEW, no sharing and FILE_FLAG_DELETE_ON_CLOSE, and CloseHandle.
pub record Files (E : Type 0) : Type 0 where
  pub create_new : E → ℕ × E
  pub close_handle : ℕ → E → E

-- The file system, and the handle of each lock.
pub record World (E : Type 0) : Type 0 where
  pub env : E
  pub file_handle : ℕ → ℕ

abbrev pub update : (ℕ → ℕ) → ℕ → ℕ → ℕ → ℕ
update f i a j = if i == j then a else f j

-- What the processes do, in the order in which it happens.
pub data Action : Type 0 where
  locks : ℕ → Action
  tries : ℕ → Action
  unlocks : ℕ → Action

module _ {E : Type 0} (files : Files E) where
  open files use {create_new, close_handle}

  -- lock: whether it returns, for `false` means that it throws.
  pub lock : ℕ → World E → Bool × World E
  lock i w =
      let (h, e) = create_new w.env in
      let failed : Bool × World E = (false, record w { env = e }) in
      let owned : Bool × World E =
        (true, record { env = e; file_handle = update w.file_handle i h }) in
      let tried = if (h == 0) || (h == invalid_handle_value) then failed else owned in
      if w.file_handle i == 0 then tried else (true, w)

  -- unlock, and the destructor of the handle.
  pub unlock : ℕ → World E → World E
  unlock i w =
      let closed : World E = record {
        env = close_handle (w.file_handle i) w.env;
        file_handle = update w.file_handle i 0;
      } in
      if w.file_handle i == 0 then w else closed

  -- try_lock catches what lock throws.
  pub try_lock : ℕ → World E → Bool × World E
  unfolding lock
  try_lock i w = lock i w

  pub is_locked : ℕ → World E → Bool
  is_locked i w = not (w.file_handle i == 0)

  pub act : Action → World E → World E
  unfolding lock unlock try_lock
  act (locks i) w = (lock i w).1
  act (tries i) w = (try_lock i w).1
  act (unlocks i) w = unlock i w

  pub run : List Action → World E → World E
  unfolding act
  run [] w = w
  run (a ∷ rest_actions) w = run rest_actions (act a w)
