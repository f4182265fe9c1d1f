-- ===== src/Coroutine/Server/Serving.antt =====
-- The whole server, where every call up to the first client succeeds.
use win32_experiments.Common.{
  ℕ, zero, suc, ◌+◌, ◌*◌, ◌≤◌, ◌≡◌, ◌∙◌, refl, ap, true, Option, some, List, ◌++◌, length, arith,
}
use win32_experiments.Coroutine.{
  Bytes, Winsock, Packet, dequeued, Loop, run, round, finish_operation, accept_suspend,
}
use win32_experiments.Coroutine.Connection.{Asked, IsConnection, Parts, concat}
use win32_experiments.Coroutine.Rounds.{run_next, round_dequeued}
use win32_experiments.Coroutine.Server.{
  Point, accepting, resume, accepted, handle_client, accept_and_serve, bind_and_listen,
  create_listen_socket, server_run,
}
use win32_experiments.Coroutine.Server.Echo.{ended, handle_client-Echoes}

module _ {S : Type 0} (w : Winsock S) where
  -- The states behind the calls of Run up to the listening socket `l`, up to the call of AcceptEx on `x`, and behind the
  -- packet that says that a client has come.
  abbrev listening : ℕ → S → S
  listening l s =
      let s3 = (w.getaddrinfo (w.create_port (w.wsa_startup s).1).1).1 in
      let s4 = (w.wsa_socket s3).1 in (w.associate l (w.listen l (w.bind l s4).1).1).1

  abbrev inviting : ℕ → ℕ → S → S
  inviting l x s = (w.accept_ex l x (w.wsa_socket (w.freeaddrinfo (listening l s))).1).1

  abbrev pub joined : ℕ → ℕ → S → S
  joined l x s = w.update_context x (w.dequeue (inviting l x s)).1

  -- Every call of these succeeds.
  pub record Accepts (l x : ℕ) (s : S) : Type 0 where
    pub starts : (w.wsa_startup s).0 ≡ true
    pub creates : (w.create_port (w.wsa_startup s).1).0 ≡ true
    pub finds : (w.getaddrinfo (w.create_port (w.wsa_startup s).1).1).0 ≡ true
    pub makes : (w.wsa_socket (w.getaddrinfo (w.create_port (w.wsa_startup s).1).1).1).0 ≡ some l
    pub binds :
        (w.bind l (w.wsa_socket (w.getaddrinfo (w.create_port (w.wsa_startup s).1).1).1).1).0 ≡ true
    pub listens :
        (w.listen l
          (w.bind l (w.wsa_socket (w.getaddrinfo (w.create_port (w.wsa_startup s).1).1).1).1).1).0
        ≡ true
    pub associates :
        (w.associate l
          (w.listen l
            (w.bind l
              (w.wsa_socket (w.getaddrinfo (w.create_port (w.wsa_startup s).1).1).1).1).1).1).0
        ≡ true
    pub makes_client : (w.wsa_socket (w.freeaddrinfo (listening l s))).0 ≡ some x
    pub accepts : (w.accept_ex l x (w.wsa_socket (w.freeaddrinfo (listening l s))).1).0 ≡ true
    pub packet : Packet
    pub comes : (w.dequeue (inviting l x s)).0 ≡ dequeued packet
    pub succeeds : packet.ok ≡ true

  abbrev accepting_one : ℕ → Loop Point
  accepting_one x = record { outstanding_ops = 1; point = accepting x }

  creates_socket :
      (l x : ℕ) (s : S)
      → Accepts l x s
      → create_listen_socket w (w.create_port (w.wsa_startup s).1).1
        ≡ (some l, w.freeaddrinfo (listening l s))
  unfolding create_listen_socket bind_and_listen
  creates_socket l x s a =
      rw (create_listen_socket, a.finds, a.makes, bind_and_listen, a.binds, a.listens, a.associates)
        refl

  invites :
      (l x : ℕ) (s : S)
      → Accepts l x s
      → accept_and_serve w l (w.freeaddrinfo (listening l s)) ≡ (accepting_one x, inviting l x s)
  unfolding accept_and_serve accept_suspend
  invites l x s a = rw (accept_and_serve, accept_suspend, a.makes_client, a.accepts) refl

  joins :
      (l x : ℕ) (s : S)
      → Accepts l x s
      → round w (resume w) (accepting_one x) (w.dequeue (inviting l x s))
        ≡ handle_client w x (record { outstanding_ops = 0; point = accepting x }) (joined l x s)
  unfolding resume accepted finish_operation
  joins l x s a =
      round_dequeued w (resume w) (accepting_one x) (w.dequeue (inviting l x s)) a.packet a.comes
      ∙ rw (resume, accepted, a.succeeds) refl

  ends_run :
      (fuel l : ℕ) (s u : S)
      → (w.wsa_startup s).0 ≡ true
      → (w.create_port (w.wsa_startup s).1).0 ≡ true
      → (let made = create_listen_socket w (w.create_port (w.wsa_startup s).1).1 in
          (made.0 ≡ some l)
          → (let start = accept_and_serve w l made.1 in run w (resume w) fuel start.0 start.1)
            ≡ some (ended, u)
          → server_run w fuel s ≡ some (0, w.wsa_cleanup (w.close_port (w.closesocket l u))))
  unfolding server_run
  ends_run fuel l s u a b c e = rw (server_run, a, b, c, e) refl

  -- Run of the server, where every call up to the first client succeeds, the client's connection is as documented and
  -- does not fail, and the client sends some parts, none of them empty, and goes: with fuel for one round for the client,
  -- two for every part and one for the end, Run returns 0. All parts have been sent back, in order, and the last calls are
  -- closesocket of the client, closesocket of the listening socket, the closing of the port, and WSACleanup.
  pub server_run-Serves :
      (asked : S → Asked) (left : S → List Bytes) (wire : S → Bytes) (fuel l x : ℕ) (s : S)
      → Accepts l x s
      → IsConnection w x asked left wire
      → Parts (left (joined l x s))
      → 2 * length (left (joined l x s)) + 3 ≤ fuel
      → (u : S) × (server_run w fuel s
          ≡ some (0, w.wsa_cleanup (w.close_port (w.closesocket l (w.closesocket x u)))))
        × (wire (w.closesocket x u) ≡ wire (joined l x s) ++ concat (left (joined l x s)))
  server_run-Serves asked left wire zero l x s a d p f = absurd (omega arith)
  server_run-Serves asked left wire (suc fuel) l x s a d p f =
      let (u, e, k) =
        handle_client-Echoes w x asked left wire d fuel (accepting x) (joined l x s) p
          (omega arith) in
      (
        u,
        ends_run (suc fuel) l s (w.closesocket x u) a.starts a.creates
            (ap (λ (y : Option ℕ × S). y.0) (creates_socket l x s a))
            (ap
                (λ (y : Option ℕ × S).
                  (let start = accept_and_serve w l y.1 in
                    run w (resume w) (suc fuel) start.0 start.1))
                (creates_socket l x s a)
              ∙ ap (λ (y : Loop Point × S). run w (resume w) (suc fuel) y.0 y.1) (invites l x s a)
              ∙ run_next w (resume w) fuel 0 (accepting_one x) (inviting l x s) refl
              ∙ ap (λ (y : Loop Point × S). run w (resume w) fuel y.0 y.1) (joins l x s a)
              ∙ e),
        k,
      )
