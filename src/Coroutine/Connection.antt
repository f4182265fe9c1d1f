-- ===== src/Coroutine/Connection.antt =====
-- What is documented of a connected socket whose calls succeed, for both ends.
use win32_experiments.Common.{ℕ, ◌≡◌, true, List, [], ◌∷◌, ◌++◌, length}
use win32_experiments.Coroutine.{Bytes, Winsock, Packet, dequeued, buffer_size}

-- What a receive brings, or a send takes.
abbrev pub transferred : Bytes → Packet
transferred bytes = record { ok = true; bytes = length bytes; last_error = 0; written = bytes }

-- What is documented of a connection whose calls succeed: `asked` is what the next packet is about, `left` what the
-- peer has still to say, in the parts in which it comes, and `wire` what has been sent.
pub data Asked : Type 0 where
  a_receive a_send : Asked

pub record IsConnection {S : Type 0} (w : Winsock S) (client : ℕ) (asked : S → Asked)
    (left : S → List Bytes) (wire : S → Bytes) : Type 0 where
  pub associates :
      (s : S)
      → ((w.associate client s).0 ≡ true)
        × (left (w.associate client s).1 ≡ left s)
        × (wire (w.associate client s).1 ≡ wire s)
  pub receive_starts :
      (s : S)
      → ((w.wsa_recv client buffer_size s).0 ≡ true)
        × (asked (w.wsa_recv client buffer_size s).1 ≡ a_receive)
        × (left (w.wsa_recv client buffer_size s).1 ≡ left s)
        × (wire (w.wsa_recv client buffer_size s).1 ≡ wire s)
  pub send_starts :
      (bytes : Bytes) (s : S)
      → ((w.wsa_send client bytes s).0 ≡ true)
        × (asked (w.wsa_send client bytes s).1 ≡ a_send)
        × (left (w.wsa_send client bytes s).1 ≡ left s)
        × (wire (w.wsa_send client bytes s).1 ≡ wire s ++ bytes)
  pub brings :
      (b : ℕ) (bs : Bytes) (rest : List Bytes) (s : S)
      → asked s ≡ a_receive
      → left s ≡ (b ∷ bs) ∷ rest
      → ((w.dequeue s).0 ≡ dequeued (transferred (b ∷ bs)))
        × (left (w.dequeue s).1 ≡ rest)
        × (wire (w.dequeue s).1 ≡ wire s)
  pub ends :
      (s : S)
      → asked s ≡ a_receive
      → left s ≡ []
      → ((w.dequeue s).0 ≡ dequeued (transferred [])) × (wire (w.dequeue s).1 ≡ wire s)
  pub sent :
      (s : S)
      → asked s ≡ a_send
      → (p : Packet) × ((w.dequeue s).0 ≡ dequeued p)
        × (left (w.dequeue s).1 ≡ left s)
        × (wire (w.dequeue s).1 ≡ wire s)
  pub closing_keeps : (s : S) → wire (w.closesocket client s) ≡ wire s

-- No part is empty.
abbrev pub Parts : List Bytes → Type 0
Parts [] = Unit {0}
Parts ([] ∷ rest) = ⊥
Parts ((b ∷ bs) ∷ rest) = Parts rest

abbrev pub concat : List Bytes → Bytes
concat [] = []
concat (x ∷ xs) = x ++ concat xs
