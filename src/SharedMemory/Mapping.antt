-- ===== src/SharedMemory/Mapping.antt =====
-- The constructor of MemoryMappedFile, Cleanup and the destructor: src/ClientServerLib/src/MemoryMappedFile.cpp. A handle
-- and the address of a view are numbers, and zero is null.
pub mod Failing
use win32_experiments.Common.{
  ℕ, ◌≡◌, ◌⊎◌, ◌∙◌, ap, Bool, true, false, Option, none, some, inl, inr, List, ◌∷◌, ◌==◌,
  if◌then◌else◌, Bool-cases, erase, erase_first,
}

-- CreateMutex and OpenMutex, the wait for the mutex, CreateFileMapping and OpenFileMapping, MapViewOfFile, ZeroMemory,
-- ReleaseMutex, UnmapViewOfFile and CloseHandle. The first argument says which of the two functions is called.
pub record Calls (S : Type 0) : Type 0 where
  pub mutex : Bool → S → ℕ × S
  pub wait : ℕ → S → S
  pub mapping : Bool → S → ℕ × S
  pub map_view : ℕ → S → ℕ × S
  pub zero_memory : ℕ → S → S
  pub release_mutex : ℕ → S → S
  pub unmap : ℕ → S → S
  pub close_handle : ℕ → S → S

-- m_View, m_MapFile and m_Mutex.
pub record MemoryMappedFile : Type 0 where
  pub view : ℕ
  pub map_file : ℕ
  pub mutex : ℕ

module _ {S : Type 0} (calls : Calls S) where
  -- Cleanup, which the destructor calls as well.
  unfoldable pub cleanup : MemoryMappedFile → S → S
  cleanup m s =
      let s2 = if m.view == 0 then s else calls.unmap m.view s in
      let s3 = if m.map_file == 0 then s2 else calls.close_handle m.map_file s2 in
      if m.mutex == 0 then s3 else calls.close_handle m.mutex s3

  -- The constructor; `left_over` is what stands in m_View, which no initialiser sets.
  unfoldable pub construct : Bool → ℕ → S → Option MemoryMappedFile × S
  construct new left_over s =
      let (mutex, s2) = calls.mutex new s in
      if mutex == 0
      then (none, cleanup (record { view = left_over; map_file = 0; mutex = 0 }) s2)
      else (let (map_file, s4) = calls.mapping new (calls.wait mutex s2) in
          if map_file == 0
          then (none, cleanup (record { view = left_over; map_file = 0; mutex = mutex }) s4)
          else (let (view, s5) = calls.map_view map_file s4 in
              if view == 0
              then (none, cleanup (record { view = 0; map_file = map_file; mutex = mutex }) s5)
              else (let s6 = if new then calls.zero_memory view s5 else s5 in
                  (
                    some (record { view = view; map_file = map_file; mutex = mutex }),
                    calls.release_mutex mutex s6,
                  ))))

-- What is documented of the calls, about the open handles, the mapped views, and the mutexes that the thread owns: the
-- closing of a handle does not release a mutex.
pub record IsMapping {S : Type 0} (calls : Calls S) (opened views owned : S → List ℕ) : Type 0 where
  pub mutex_none :
      (b : Bool) (s : S) → ((calls.mutex b s).0 == 0) ≡ true → opened (calls.mutex b s).1 ≡ opened s
  pub mutex_some :
      (b : Bool) (s : S)
      → ((calls.mutex b s).0 == 0) ≡ false
      → opened (calls.mutex b s).1 ≡ (calls.mutex b s).0 ∷ opened s
  pub mutex_keeps :
      (b : Bool) (s : S)
      → (views (calls.mutex b s).1 ≡ views s) × (owned (calls.mutex b s).1 ≡ owned s)
  pub waits :
      (m : ℕ) (s : S)
      → (opened (calls.wait m s) ≡ opened s)
        × (views (calls.wait m s) ≡ views s)
        × (owned (calls.wait m s) ≡ m ∷ owned s)
  pub mapping_none :
      (b : Bool) (s : S)
      → ((calls.mapping b s).0 == 0) ≡ true
      → opened (calls.mapping b s).1 ≡ opened s
  pub mapping_some :
      (b : Bool) (s : S)
      → ((calls.mapping b s).0 == 0) ≡ false
      → opened (calls.mapping b s).1 ≡ (calls.mapping b s).0 ∷ opened s
  pub mapping_keeps :
      (b : Bool) (s : S)
      → (views (calls.mapping b s).1 ≡ views s) × (owned (calls.mapping b s).1 ≡ owned s)
  pub view_none :
      (h : ℕ) (s : S)
      → ((calls.map_view h s).0 == 0) ≡ true
      → views (calls.map_view h s).1 ≡ views s
  pub view_some :
      (h : ℕ) (s : S)
      → ((calls.map_view h s).0 == 0) ≡ false
      → views (calls.map_view h s).1 ≡ (calls.map_view h s).0 ∷ views s
  pub view_keeps :
      (h : ℕ) (s : S)
      → (opened (calls.map_view h s).1 ≡ opened s) × (owned (calls.map_view h s).1 ≡ owned s)
  pub zeroes :
      (v : ℕ) (s : S)
      → (opened (calls.zero_memory v s) ≡ opened s)
        × (views (calls.zero_memory v s) ≡ views s)
        × (owned (calls.zero_memory v s) ≡ owned s)
  pub releases :
      (m : ℕ) (s : S)
      → (opened (calls.release_mutex m s) ≡ opened s)
        × (views (calls.release_mutex m s) ≡ views s)
        × (owned (calls.release_mutex m s) ≡ erase m (owned s))
  pub unmaps :
      (v : ℕ) (s : S)
      → (opened (calls.unmap v s) ≡ opened s)
        × (views (calls.unmap v s) ≡ erase v (views s))
        × (owned (calls.unmap v s) ≡ owned s)
  pub closes :
      (h : ℕ) (s : S)
      → (opened (calls.close_handle h s) ≡ erase h (opened s))
        × (views (calls.close_handle h s) ≡ views s)
        × (owned (calls.close_handle h s) ≡ owned s)
