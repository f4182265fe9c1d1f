-- ===== src/Coroutine/Examples.antt =====
-- The theorems on the echo programs at concrete inputs.
use win32_experiments.Common.{
  ℕ, suc, length, ◌≡◌, refl, ap, true, none, some, List, [], ◌∷◌, ◌++◌, erase, arith,
}
use win32_experiments.Coroutine.{
  Bytes, Winsock, Packet, Dequeued, dequeued, Loop, run, finish_operation, accept_suspend,
  connect_suspend, recv_suspend, send_suspend,
}
use win32_experiments.Coroutine.Connection.{
  transferred, Asked, a_receive, a_send, IsConnection, concat,
}
use win32_experiments.Coroutine.Server
use win32_experiments.Coroutine.Server.Closing.{IsSockets}
use win32_experiments.Coroutine.Server.Serving.{Accepts, server_run-Serves}
use win32_experiments.Coroutine.Server.Program.{Left, server_run-Left}
use win32_experiments.Coroutine.Client

-- A peer that says some parts; every call succeeds, and the next packet is about the operation that was started last.
record Peer : Type 0 where
  asked : Asked
  parts : List Bytes
  wire : Bytes
  opened : List ℕ

abbrev answer : Asked → List Bytes → Bytes → List ℕ → Dequeued × Peer
answer a_send parts wire opened = (
  dequeued (transferred []),
  record { asked = a_send; parts = parts; wire = wire; opened = opened },
)
answer a_receive [] wire opened = (
  dequeued (transferred []),
  record { asked = a_receive; parts = []; wire = wire; opened = opened },
)
answer a_receive (p ∷ parts) wire opened = (
  dequeued (transferred p),
  record { asked = a_receive; parts = parts; wire = wire; opened = opened },
)

abbrev peer : Winsock Peer
peer = record {
  wsa_startup = λ s. (true, s);
  create_port = λ s. (true, s);
  wsa_socket =
      λ s. (some (suc (length s.opened)), record s { opened = suc (length s.opened) ∷ s.opened });
  bind = λ x s. (true, s);
  listen = λ x s. (true, s);
  associate = λ x s. (true, s);
  getaddrinfo = λ s. (true, s);
  accept_ex = λ l x s. (true, record s { asked = a_send });
  load_connect_ex = λ x s. (true, s);
  connect_ex = λ x s. (true, record s { asked = a_send });
  wsa_recv = λ x n s. (true, record s { asked = a_receive });
  wsa_send = λ x bytes s. (true, record s { asked = a_send; wire = s.wire ++ bytes });
  update_context = λ x s. s;
  freeaddrinfo = λ s. s;
  shutdown = λ x s. s;
  closesocket = λ x s. record s { opened = erase x s.opened };
  close_port = λ s. s;
  wsa_cleanup = λ s. s;
  dequeue = λ s. answer s.asked s.parts s.wire s.opened;
}

brings_lem :
    (a : Asked) (l : List Bytes) (wire : Bytes) (opened : List ℕ) (p : Bytes) (rest : List Bytes)
    → a ≡ a_receive
    → l ≡ p ∷ rest
    → ((answer a l wire opened).0 ≡ dequeued (transferred p))
      × ((answer a l wire opened).1.parts ≡ rest)
      × ((answer a l wire opened).1.wire ≡ wire)
brings_lem a l wire opened p rest e f = rw (e, f) (refl, refl, refl)

ends_lem :
    (a : Asked) (l : List Bytes) (wire : Bytes) (opened : List ℕ)
    → a ≡ a_receive
    → l ≡ []
    → ((answer a l wire opened).0 ≡ dequeued (transferred []))
      × ((answer a l wire opened).1.wire ≡ wire)
ends_lem a l wire opened e f = rw (e, f) (refl, refl)

sent_lem :
    (a : Asked) (l : List Bytes) (wire : Bytes) (opened : List ℕ)
    → a ≡ a_send
    → (p : Packet) × ((answer a l wire opened).0 ≡ dequeued p)
      × ((answer a l wire opened).1.parts ≡ l)
      × ((answer a l wire opened).1.wire ≡ wire)
sent_lem a l wire opened e = rw e (transferred [], refl, refl, refl)

answer-opened :
    (a : Asked) (l : List Bytes) (wire : Bytes) (opened : List ℕ)
    → (answer a l wire opened).1.opened ≡ opened
answer-opened a_send l wire opened = refl
answer-opened a_receive [] wire opened = refl
answer-opened a_receive (p ∷ parts) wire opened = refl

peer-IsConnection :
    (client : ℕ) → IsConnection peer client (λ s. s.asked) (λ s. s.parts) (λ s. s.wire)
peer-IsConnection client = record {
  associates = λ s. (refl, refl, refl);
  receive_starts = λ s. (refl, refl, refl, refl);
  send_starts = λ bytes s. (refl, refl, refl, refl);
  brings = λ b bs rest s e f. brings_lem s.asked s.parts s.wire s.opened (b ∷ bs) rest e f;
  ends = λ s e f. ends_lem s.asked s.parts s.wire s.opened e f;
  sent = λ s e. sent_lem s.asked s.parts s.wire s.opened e;
  closing_keeps = λ s. refl;
}

peer-IsSockets : IsSockets peer (λ s. s.opened)
peer-IsSockets = record {
  makes = λ s x e. (let same : suc (length s.opened) ≡ x = cc in ap (λ y. y ∷ s.opened) same);
  makes_none = λ s e. absurd (cc);
  starts = λ s. refl;
  creates = λ s. refl;
  finds = λ s. refl;
  frees = λ s. refl;
  binds = λ x s. refl;
  listens = λ x s. refl;
  closes_port = λ s. refl;
  cleans = λ s. refl;
  associates = λ x s. refl;
  accepts = λ l x s. refl;
  receives = λ x n s. refl;
  sends = λ x bytes s. refl;
  updates = λ x s. refl;
  dequeues = λ s. answer-opened s.asked s.parts s.wire s.opened;
  closes = λ x s. refl;
}

abbrev talks : Peer
talks = record {
  asked = a_receive;
  parts = (1 ∷ 2 ∷ []) ∷ (3 ∷ []) ∷ (4 ∷ []) ∷ [];
  wire = [];
  opened = 7 ∷ [];
}

peer-Accepts : Accepts peer 2 3 talks
peer-Accepts = record {
  starts = refl;
  creates = refl;
  finds = refl;
  makes = refl;
  binds = refl;
  listens = refl;
  associates = refl;
  makes_client = refl;
  accepts = refl;
  packet = transferred [];
  comes = refl;
  succeeds = refl;
}

server_run-Serves_example :
    (u : Peer) × (Server.server_run peer 9 talks
      ≡ some (0, peer.wsa_cleanup (peer.close_port (peer.closesocket 2 (peer.closesocket 3 u)))))
    × ((peer.closesocket 3 u).wire ≡ [] ++ concat talks.parts)
server_run-Serves_example =
    server_run-Serves peer (λ s. s.asked) (λ s. s.parts) (λ s. s.wire) 9 2 3 talks peer-Accepts
      (peer-IsConnection 3) tt (omega arith)

-- The states where the loops of the two programs end with this peer.
abbrev served : Loop Server.Point × Peer
served = (
  record { outstanding_ops = 0; point = Server.finished none },
  record { asked = a_receive; parts = []; wire = 1 ∷ 2 ∷ 3 ∷ 4 ∷ []; opened = 7 ∷ [] },
)

serves :
    (let start = Server.accept_and_serve peer 3 talks in
      run peer (Server.resume peer) 10 start.0 start.1)
    ≡ some served
unfolding run finish_operation accept_suspend recv_suspend send_suspend Server.accept_and_serve
    Server.resume Server.accepted Server.received Server.handle_client Server.next_message
serves = refl

abbrev chatted : Loop Client.Point × Peer
chatted = (
  record {
    outstanding_ops = 0;
    point = Client.finished none ((4 ∷ []) ∷ (3 ∷ []) ∷ (1 ∷ 2 ∷ []) ∷ []);
  },
  record { asked = a_receive; parts = []; wire = concat Client.messages; opened = 7 ∷ [] },
)

chats :
    (let start = Client.connect_and_chat peer talks in
      run peer (Client.resume peer) 10 start.0 start.1)
    ≡ some chatted
unfolding run finish_operation connect_suspend recv_suspend send_suspend Client.connect_and_chat
    Client.create_connect_socket Client.resume Client.connected Client.next_message
chats = refl

abbrev left_over : ℕ × Peer
left_over = (0, record served.1 { opened = 7 ∷ [] })

runs : Server.server_run peer 10 talks ≡ some left_over
unfolding run finish_operation accept_suspend recv_suspend send_suspend Server.accept_and_serve
    Server.resume Server.accepted Server.received Server.handle_client Server.next_message
    Server.server_run Server.create_listen_socket Server.bind_and_listen
runs = refl

server_run-Left_example : Left peer (λ s. s.opened) peer-IsSockets talks left_over
server_run-Left_example =
    server_run-Left peer (λ s. s.opened) peer-IsSockets 10 talks left_over runs

chatted_run : Client.client_run peer 10 talks ≡ some (0, chatted.1)
unfolding run finish_operation connect_suspend recv_suspend send_suspend Client.connect_and_chat
    Client.create_connect_socket Client.resume Client.connected Client.next_message
    Client.client_run
chatted_run = refl
