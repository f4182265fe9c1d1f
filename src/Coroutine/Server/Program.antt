-- ===== src/Coroutine/Server/Program.antt =====
-- The server as a whole.
use win32_experiments.Common.{
  ℕ, ◌≡◌, ◌∙◌, ◌⊎◌, refl, sym, ap, Bool, true, false, Option, none, some, inl, inr, List, ◌∷◌, ◌==◌,
  Bool-cases, Option-cases, arith, erase, erase_first, ==_iff,
}
use mathlib.Core.Path.{subst}
use win32_experiments.Coroutine.{Winsock, Loop, run}
use win32_experiments.Coroutine.Server.{
  Point, accepting, receiving, sending, finished, accept_and_serve, resume, create_listen_socket,
  exit_code, bind_and_listen, server_run,
}
use win32_experiments.Coroutine.Server.Counter.{pending, run-Ends}
use win32_experiments.Coroutine.Server.Closing.{
  IsSockets, Leaking, Holding, leaks, closed, run-Holding,
}

module _ {S : Type 0} (w : Winsock S) (opened : S → List ℕ) (d : IsSockets w opened) where
  -- The listening socket, or none and nothing open that was not before.
  abbrev Listening : List ℕ → Option ℕ × S → Type 0
  Listening before (none, s) = opened s ≡ before
  Listening before (some x, s) = opened s ≡ x ∷ before

  bind_and_listen-Listening :
      (before : List ℕ) (socket : ℕ) (s : S)
      → opened s ≡ socket ∷ before
      → Listening before (bind_and_listen w socket s)
  unfolding bind_and_listen
  bind_and_listen-Listening before socket s h =
      let (bound, s2) = w.bind socket s in
      let (listens, s3) = w.listen socket s2 in
      let (associated, s4) = w.associate socket s3 in
      let h2 = d.binds socket s ∙ h in
      let h3 = d.listens socket s2 ∙ h2 in
      let h4 = d.associates socket s3 ∙ h3 in
      elim (Bool-cases bound) [
        | inr b ↦ rw (bind_and_listen, b) (closed w opened d before socket s2 h2)
        | inl b ↦ elim (Bool-cases listens) [
          | inr l ↦ rw (bind_and_listen, b, l) (closed w opened d before socket s3 h3)
          | inl l ↦ elim (Bool-cases associated) [
            | inr a ↦ rw (bind_and_listen, b, l, a) (closed w opened d before socket s4 h4)
            | inl a ↦ rw (bind_and_listen, b, l, a) h4
          ]
        ]
      ]

  Listening-freeaddrinfo :
      (before : List ℕ) (made : Option ℕ) (s : S)
      → Listening before (made, s)
      → Listening before (made, w.freeaddrinfo s)
  Listening-freeaddrinfo before none s h = d.frees s ∙ h
  Listening-freeaddrinfo before (some x) s h = d.frees s ∙ h

  create_listen_socket-Listening : (s : S) → Listening (opened s) (create_listen_socket w s)
  unfolding create_listen_socket
  create_listen_socket-Listening s =
      let (found, s2) = w.getaddrinfo s in
      let s3 = (w.wsa_socket s2).1 in
      elim (Bool-cases found) [
        | inr f ↦ rw (create_listen_socket, f) (d.finds s)
        | inl f ↦ elim (Option-cases (w.wsa_socket s2).0) [
          | inl e ↦ rw (create_listen_socket, f, e) (d.frees s3 ∙ d.makes_none s2 e ∙ d.finds s)
          | inr (socket, e) ↦
              (let h = d.makes s2 socket e ∙ ap (λ y. socket ∷ y) (d.finds s) in
                let (listening, s4) = bind_and_listen w socket s3 in
                rw (create_listen_socket, f, e)
                  (Listening-freeaddrinfo (opened s) listening s4
                    (bind_and_listen-Listening (opened s) socket s3 h)))
        ]
      ]

  -- The sockets that the program holds when Run has returned, with the listening socket and the client's, if they were
  -- made.
  abbrev pub Leaves : Option ℕ → Option ℕ → List ℕ → ℕ × S → Type 0
  Leaves listening given before r =
      (opened r.1 ≡ before)
      ⊎ ((r.0 ≡ 1)
          × ((l : ℕ) × (x : ℕ) × (listening ≡ some l)
              × (given ≡ some x)
              × (opened r.1 ≡ x ∷ before)))

  -- What Run leaves: the listening socket is the one that CreateListenSocket gives, and the client's is the one that
  -- WSASocketW gives behind it.
  abbrev pub Left : S → ℕ × S → Type 0
  Left s r =
      let created = create_listen_socket w (w.create_port (w.wsa_startup s).1).1 in
      Leaves created.0 (w.wsa_socket created.1).0 (opened s) r

  erase_second : (x a : ℕ) (xs : List ℕ) → erase a (x ∷ a ∷ xs) ≡ x ∷ xs
  erase_second x a xs = elim (Bool-cases (a == x)) [
    | inl e ↦ (let same = (==_iff a x).0 e in rw e (ap (λ y. y ∷ xs) same))
    | inr e ↦ rw e (ap (λ y. x ∷ y) (erase_first a xs))
  ]

  released :
      (socket : ℕ) (s : S)
      → opened (w.wsa_cleanup (w.close_port (w.closesocket socket s))) ≡ erase socket (opened s)
  released socket s =
      d.cleans (w.close_port (w.closesocket socket s))
      ∙ d.closes_port (w.closesocket socket s)
      ∙ d.closes socket s

  leaks-Leaves :
      (leaking : Bool) (given : Option ℕ) (before : List ℕ) (socket : ℕ) (s : S)
      → Leaking leaking given (socket ∷ before) (opened s)
      → Leaves (some socket) given before (1, w.wsa_cleanup (w.close_port (w.closesocket socket s)))
  leaks-Leaves true given before socket s (x, g, h) = inr (
    refl,
    (socket, x, refl, g, released socket s ∙ ap (erase socket) h ∙ erase_second x socket before),
  )
  leaks-Leaves false given before socket s h =
      inl (released socket s ∙ ap (erase socket) h ∙ erase_first socket before)

  Holding-Leaves :
      (given : Option ℕ) (before : List ℕ) (socket : ℕ) (p : Point) (s : S)
      → pending p ≡ 0
      → Holding given (socket ∷ before) p (opened s)
      → Leaves
          (some socket)
          given
          before
          (exit_code w p, w.wsa_cleanup (w.close_port (w.closesocket socket s)))
  Holding-Leaves given before socket (accepting x) s z h = absurd (omega arith)
  Holding-Leaves given before socket (receiving x buffer) s z h = absurd (omega arith)
  Holding-Leaves given before socket (sending x buffer) s z h = absurd (omega arith)
  Holding-Leaves given before socket (finished none) s z h =
      inl (released socket s ∙ ap (erase socket) h ∙ erase_first socket before)
  Holding-Leaves given before socket (finished (some f)) s z h =
      leaks-Leaves (leaks f) given before socket s h

  -- What follows the loop.
  abbrev ended_run : ℕ → Option (Loop Point × S) → Option (ℕ × S)
  ended_run socket none = none
  ended_run socket (some (t, s)) =
      some (exit_code w t.point, w.wsa_cleanup (w.close_port (w.closesocket socket s)))

  serving-Leaves :
      (before : List ℕ) (fuel socket : ℕ) (s : S) (ran : Option (Loop Point × S)) (r : ℕ × S)
      → (let start = accept_and_serve w socket s in run w (resume w) fuel start.0 start.1) ≡ ran
      → opened s ≡ socket ∷ before
      → ended_run socket ran ≡ some r
      → Leaves (some socket) (w.wsa_socket s).0 before r
  serving-Leaves before fuel socket s none r e h f = absurd (cc)
  serving-Leaves before fuel socket s (some (t, s5)) r e h f =
      let given = (w.wsa_socket s).0 in
      let (z, (ended, q)) = run-Ends w fuel socket s (t, s5) e in
      let holding =
        subst (λ (b : List ℕ). Holding given b t.point (opened s5)) h
          (run-Holding w opened d fuel socket s (t, s5) e) in
      let same : ◌≡◌ {A = ℕ × S}
          (exit_code w t.point, w.wsa_cleanup (w.close_port (w.closesocket socket s5))) r =
        cc in
      subst (Leaves (some socket) given before) same
        (Holding-Leaves given before socket t.point s5 (ap pending q) holding)

  got : (s : S) (x r : ℕ × S) → some x ≡ some r → opened x.1 ≡ opened s → Left s r
  got s x r e h = let same : x ≡ r = cc in subst (Left s) same (inl h)

  Listening-none :
      (before : List ℕ) (r : Option ℕ × S) → Listening before r → r.0 ≡ none → opened r.1 ≡ before
  Listening-none before (none, s) h e = h
  Listening-none before (some x, s) h e = absurd (cc)

  Listening-some :
      (before : List ℕ) (r : Option ℕ × S) (socket : ℕ)
      → Listening before r
      → r.0 ≡ some socket
      → opened r.1 ≡ socket ∷ before
  Listening-some before (none, s) socket h e = absurd (cc)
  Listening-some before (some x, s) socket h e =
      let same : x ≡ socket = cc in h ∙ ap (λ y. y ∷ before) same

  -- When Run of the server returns, it has closed every socket that it has got, or it returns 1 and has left exactly one
  -- open: there was a listening socket, and the one that is left is the client's, which WSASocketW made behind it.
  pub server_run-Left : (fuel : ℕ) (s : S) (r : ℕ × S) → server_run w fuel s ≡ some r → Left s r
  unfolding server_run
  server_run-Left fuel s r e =
      let (up, s2) = w.wsa_startup s in
      let (port, s3) = w.create_port s2 in
      let (made, s4) = create_listen_socket w s3 in
      let h3 = d.creates s2 ∙ d.starts s in
      elim (Bool-cases up) [
        | inr u ↦
            (let done : some (1, s2) ≡ some r = rw (server_run, u) at e in
              got s (1, s2) r done (d.starts s))
        | inl u ↦ elim (Bool-cases port) [
          | inr p ↦
              (let done : some (1, w.wsa_cleanup s3) ≡ some r = rw (server_run, u, p) at e in
                got s (1, w.wsa_cleanup s3) r done (d.cleans s3 ∙ h3))
          | inl p ↦ elim (Option-cases made) [
            | inl m ↦
                (let done : some (1, w.wsa_cleanup (w.close_port s4)) ≡ some r =
                    rw (server_run, u, p, m) at e in
                  got s (1, w.wsa_cleanup (w.close_port s4)) r done
                    ((d.cleans (w.close_port s4)
                      ∙ d.closes_port s4
                      ∙ Listening-none (opened s3) (create_listen_socket w s3)
                          (create_listen_socket-Listening s3) m
                      ∙ h3)))
            | inr (socket, m) ↦
                (let h =
                    Listening-some (opened s3) (create_listen_socket w s3) socket
                      (create_listen_socket-Listening s3) m
                    ∙ ap (λ b. socket ∷ b) h3 in
                  let start = accept_and_serve w socket s4 in
                  subst (λ l. Leaves l (w.wsa_socket s4).0 (opened s) r) (sym m)
                    (serving-Leaves (opened s) fuel socket s4
                      (run w (resume w) fuel start.0 start.1) r refl h
                      (rw (server_run, u, p, m) at e)))
          ]
        ]
      ]
