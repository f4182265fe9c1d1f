-- ===== src/Framing/Examples.antt =====
-- A line that takes at most three bytes a call and gives at most two, and the theorems on it.
use win32_experiments.Common.{
  ℕ, zero, suc, ◌<◌, ◌≤◌, ◌≡◌, ◌≢◌, refl, sym, ap, true, [], ◌∷◌, ◌++◌, none, some, arith, length,
  take, drop, min, length-take, take-append-drop,
}
use win32_experiments.Common.Int.{pos, pos_part, ◌-ℤ◌}
use win32_experiments.Framing.{
  Bytes, Socket, IsStream, msg_ok, le32, from_le32, send_bytes, send_msg, send_loop, receive_bytes,
  receive_msg, recv_loop,
}
use win32_experiments.Framing.Send.{Sends, send_bytes-Sends}
use win32_experiments.Framing.Message.{
  receive_msg_sound, receive_msg-send_msg, receive_msg_overruns,
}

record Line : Type 0 where
  taken : Bytes
  waiting : Bytes

abbrev wire : Line → Bytes
wire s = s.taken

abbrev inbox : Line → Bytes
inbox s = s.waiting

abbrev trickle : Socket Line
trickle = record {
  send = λ s p n.
      (some (min 3 (pos_part n)), record s { taken = s.taken ++ take (min 3 (pos_part n)) p });
  recv = λ s n. (
    some (take (min 2 (pos_part n)) s.waiting),
    record s { waiting = drop (min 2 (pos_part n)) s.waiting },
  );
}

some_inj : {A : Type 0} (a b : A) → some a ≡ some b → a ≡ b
some_inj a b e = cc

take_eq_nil : (k : ℕ) (xs : Bytes) → 0 < k → take k xs ≡ [] → xs ≡ []
take_eq_nil zero xs h e = elim h [ ]
take_eq_nil (suc k) [] h e = refl
take_eq_nil (suc k) (x ∷ xs) h e = cc

took :
    (s : Line) (p : Bytes) (n k : ℕ)
    → 0 < n
    → min 3 n ≡ k
    → (0 < k) × (k ≤ n) × (s.taken ++ take (min 3 n) p ≡ s.taken ++ take k p)
took s p n k h e = (omega arith, omega arith, rw e)

gave :
    (s : Line) (n : ℕ) (bs : Bytes)
    → take (min 2 n) s.waiting ≡ bs
    → (length bs ≤ n) × (s.waiting ≡ bs ++ drop (min 2 n) s.waiting)
gave s n bs e = (
  omega (arith, ap length e, length-take (min 2 n) s.waiting),
  rw (← e) (sym (take-append-drop (min 2 n) s.waiting)),
)

trickle-IsStream : IsStream trickle wire inbox
trickle-IsStream = record {
  send_takes = λ s p n k h fits e. took s p n k h (some_inj _ _ e);
  send_error = λ s p n e. cc;
  recv_gives = λ s n bs h e. gave s n bs (some_inj _ _ e);
  recv_closed = λ s n h e. take_eq_nil (min 2 n) s.waiting (omega arith) (some_inj _ _ e);
}

trickle_healthy : (s : Line) (k : ℕ) → (trickle.recv s (pos k)).0 ≢ none
trickle_healthy s k e = cc

abbrev idle : Line
idle = record { taken = []; waiting = [] }

abbrev word : Bytes
word = 10 ∷ 20 ∷ 30 ∷ 40 ∷ 50 ∷ []

abbrev sent : Line
sent = record { taken = 5 ∷ 0 ∷ 0 ∷ 0 ∷ word; waiting = [] }

abbrev ready : Line
ready = record { taken = []; waiting = 5 ∷ 0 ∷ 0 ∷ 0 ∷ 10 ∷ 20 ∷ 30 ∷ 40 ∷ 50 ∷ 7 ∷ [] }

abbrev left : Line
left = record { taken = []; waiting = 7 ∷ [] }

send_msg-word : send_msg trickle 9 idle word 5 ≡ some (true, sent)
unfolding send_msg send_bytes send_loop le32 ◌-ℤ◌
send_msg-word = refl

receive_msg-word : receive_msg trickle 9 ready 12000 ≡ some (msg_ok word 5 left)
unfolding receive_msg receive_bytes recv_loop from_le32 ◌-ℤ◌
receive_msg-word = refl

send_bytes-Sends_example : Sends wire idle word 4 (send_bytes trickle 9 idle word 4)
send_bytes-Sends_example =
    send_bytes-Sends trickle-IsStream 9 4 idle word (omega arith) (omega arith) (omega arith)

receive_msg_sound_example :
    (header : Bytes) × (length header ≡ 4)
    × (from_le32 header ≡ 5)
    × (length word ≡ 5)
    × (inbox ready ≡ header ++ word ++ inbox left)
receive_msg_sound_example =
    receive_msg_sound trickle-IsStream 9 12000 5 ready left word (omega arith) (omega arith)
      (omega arith) receive_msg-word

receive_msg-send_msg_example :
    (t : Line) × (receive_msg trickle 9
        (record { taken = []; waiting = sent.taken ++ 7 ∷ [] })
        12000
      ≡ some (msg_ok word 5 t))
    × (inbox t ≡ 7 ∷ [])
receive_msg-send_msg_example =
    receive_msg-send_msg trickle-IsStream trickle-IsStream 9 12000 5 idle sent
      (record { taken = []; waiting = sent.taken ++ 7 ∷ [] }) word (7 ∷ []) trickle_healthy
      (omega arith) (omega arith) (omega arith) (omega arith) (omega arith) send_msg-word refl refl

-- A buffer of three bytes, and a message of five.
receive_msg_overruns_example :
    (written : Bytes) × (t : Line) × (receive_msg trickle 9 ready 3 ≡ some (msg_ok written 5 t))
    × (3 < length written)
unfolding from_le32
receive_msg_overruns_example =
    receive_msg_overruns trickle-IsStream 9 3 ready (5 ∷ 0 ∷ 0 ∷ 0 ∷ []) word (7 ∷ [])
      trickle_healthy refl refl (omega arith) (omega arith) (omega arith) refl (omega arith)
