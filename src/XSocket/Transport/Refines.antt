-- ===== src/XSocket/Transport/Refines.antt =====
-- What ReadData returns of the stream that a list stores.
use win32_experiments.Common.{ℕ, suc, ◌+◌, ◌<◌, ◌≡◌, true, List, ◌∷◌, some, min, arith}
use win32_experiments.XSocket.LinkedList.{Buffer, Heap}
use win32_experiments.XSocket.LinkedList.Bytes.{Wf, copy_to-none}
use win32_experiments.XSocket.LinkedList.Ring.{IsRing}
use win32_experiments.XSocket.Transport.{faulted, read_data}
use win32_experiments.XSocket.Transport.Stream.{read_loop-faulted}
use win32_experiments.XSocket.Transport.Reads.{Reads}

-- ReadData of a stored list whose first entry has been read in part: where its rest is shorter than both the
-- request and the entry's size, CopyTo reads behind the end of the entry's data.
pub read_data-faulted :
    (fuel head n : ℕ) (h : Heap) (x : ℕ) (xs : List ℕ) (b : Buffer)
    → IsRing head h (x ∷ xs)
    → h.buffer x ≡ some b
    → Wf b
    → b.size < b.index + min n b.size
    → read_data (suc fuel) head n true h ≡ faulted
unfolding read_data
read_data-faulted fuel head n h x xs b r e w l =
    read_loop-faulted fuel head n h x xs b r e (omega arith) (copy_to-none n b w l)
