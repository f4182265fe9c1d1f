-- ===== src/WebSocket/Reuse.antt =====
-- A client after its connection: what its methods do to its status from then on.
use win32_experiments.Common.{
  ℕ, zero, suc, ◌≡◌, ◌≢◌, ◌⊎◌, inl, inr, Bool, some, arith, Bool-cases, ◌==◌,
}
use win32_experiments.WebSocket.{
  Text, Api, Client, Status, not_initialised, connected, error, Outcome, returned, threw,
  BufferType, require, ◌>>=◌, internal_connect, send, close, receive, receive_loop, set_server,
}
use win32_experiments.WebSocket.Lifecycle.{require_lem, require_other}

Status-discrete : Discrete Status
Status-discrete = hlevel

abbrev pub after : {E A : Type 0} → Outcome E A → Client E
after (returned a d) = d
after (threw d) = d

abbrev pub IsUsed : {E : Type 0} → Client E → Type 0
IsUsed c = c.status ≢ not_initialised

module _ {E : Type 0} (api : Api E) where
  internal_connect_refused :
      (path : Text) (c : Client E) → IsUsed c → internal_connect api path c ≡ threw c
  unfolding internal_connect
  internal_connect_refused path c u = rw (require_other api not_initialised c u, ◌>>=◌)

  send-IsUsed :
      (kind : BufferType) (message : Text) (c : Client E)
      → IsUsed c
      → IsUsed (after (send api kind message c))
  unfolding send require
  send-IsUsed kind message c u = ground arith

  receive_loop-IsUsed :
      (fuel at left : ℕ) (buffer : Text) (c : Client E) (r : Outcome E (Bool × Text))
      → IsUsed c
      → receive_loop api fuel buffer at left c ≡ some r
      → IsUsed (after r)
  unfolding receive_loop close
  receive_loop-IsUsed zero at left buffer c r u e = cc
  receive_loop-IsUsed (suc fuel) at left buffer c r u e = grind (arith, receive_loop-IsUsed fuel)

  -- What a program can do with a client, whatever the answers of WinHTTP are.
  pub data Step (c : Client E) : Client E → Type 0 where
    connects : (path : Text) → Step c (after (internal_connect api path c))
    sends : (kind : BufferType) (message : Text) → Step c (after (send api kind message c))
    receives :
        (fuel : ℕ) (r : Outcome E (Bool × Text)) → receive api fuel c ≡ some r → Step c (after r)
    sets_server :
        (fuel port : ℕ) (server : Text) (ignore : Bool) (d : Client E)
        → set_server fuel server port ignore c ≡ some d
        → Step c d
    closes : Step c (after (close api c))

  pub data Reach (c : Client E) : Client E → Type 0 where
    here : Reach c c
    next : {d e : Client E} → Reach c d → Step d e → Reach c e

  receive-IsUsed :
      (fuel : ℕ) (c : Client E) (r : Outcome E (Bool × Text))
      → IsUsed c
      → receive api fuel c ≡ some r
      → IsUsed (after r)
  unfolding receive require
  receive-IsUsed fuel c r u e = grind (arith, receive_loop-IsUsed)

  set_server-IsUsed :
      (fuel port : ℕ) (server : Text) (ignore : Bool) (c d : Client E)
      → IsUsed c
      → set_server fuel server port ignore c ≡ some d
      → IsUsed d
  unfolding set_server
  set_server-IsUsed fuel port server ignore c d u e = ground arith

  Step-IsUsed : {c d : Client E} → Step c d → IsUsed c → IsUsed d
  Step-IsUsed {c = c} (connects path) u = rw (internal_connect_refused path c u) u
  Step-IsUsed {c = c} (sends kind message) u = send-IsUsed kind message c u
  Step-IsUsed {c = c} (receives fuel r e) u = receive-IsUsed fuel c r u e
  Step-IsUsed {c = c} (sets_server fuel port server ignore d e) u =
      set_server-IsUsed fuel port server ignore c d u e
  Step-IsUsed (closes) u = unfold close in λ e. cc

  Reach-IsUsed : {c d : Client E} → Reach c d → IsUsed c → IsUsed d
  Reach-IsUsed here u = u
  Reach-IsUsed (next r s) u = Step-IsUsed s (Reach-IsUsed r u)

  -- A client is good for one connection: once its status is no longer NotInitialised, as after a
  -- Connect that got a session or after Close, then whatever methods run and whatever WinHTTP answers,
  -- every later Connect throws and changes nothing.
  pub no_reconnect :
      (c d : Client E) (path : Text)
      → c.status ≢ not_initialised
      → Reach c d
      → internal_connect api path d ≡ threw d
  no_reconnect c d path u r = internal_connect_refused path d (Reach-IsUsed r u)

  -- SendString and SendBuffer: on a client that is not connected they throw and change nothing; on a
  -- connected one they make one call, return if it answers zero, and else throw with the client in
  -- error. So a client whose last send failed refuses the next.
  pub send_lem :
      (kind : BufferType) (message : Text) (c : Client E)
      → let answer = api.web_socket_send c.env c.web_socket kind message in
        ((c.status ≢ connected) × (send api kind message c ≡ threw c))
        ⊎ (((c.status ≡ connected)
              × (answer.0 ≡ 0)
              × (send api kind message c ≡ returned tt (record c { env = answer.1 })))
            ⊎ ((c.status ≡ connected)
                × (answer.0 ≢ 0)
                × (send api kind message c ≡ threw (record c { env = answer.1; status = error }))))
  unfolding send
  send_lem kind message c = elim (Status-discrete c.status connected) [
    | no other ↦ inl (other, rw (require_other api connected c other, ◌>>=◌))
    | yes e ↦ elim (Bool-cases ((api.web_socket_send c.env c.web_socket kind message).0 == 0)) [
      | inl z ↦ inr (inl (e, ground arith, rw (require_lem api connected c e, ◌>>=◌) (rw z)))
      | inr z ↦ inr (inr (e, ground arith, rw (require_lem api connected c e, ◌>>=◌) (rw z)))
    ]
  ]
