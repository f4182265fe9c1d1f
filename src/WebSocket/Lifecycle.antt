-- ===== src/WebSocket/Lifecycle.antt =====
-- Connect, and the status in which it leaves the client.
use win32_experiments.Common.{
  ℕ, ◌≡◌, ◌≢◌, refl, ◌⊎◌, inl, inr, Bool, true, false, arith, Bool-cases, ◌==◌,
}
use win32_experiments.WebSocket.{
  Text, Api, Client, Status, not_initialised, connected, error, Outcome, returned, threw, M,
  abandon, require, set_status, demand, open_session_step, open_request_step, ◌>>=◌, ◌>>◌,
  security_step, upgrade_step, internal_connect,
}

-- `P` of a return, `Q` of a throw.
abbrev pub Ensures :
    {E A : Type 0} → (A → Client E → Type 0) → (Client E → Type 0) → Outcome E A → Type 0
Ensures P Q (returned a d) = P a d
Ensures P Q (threw d) = Q d

Ensures-then :
    {E : Type 0} (P P' : Unit {0} → Client E → Type 0) (Q : Client E → Type 0)
    (m k : M E (Unit {0})) (c : Client E)
    → Ensures P Q (m c)
    → ((d : Client E) → P tt d → Ensures P' Q (k d))
    → Ensures P' Q ((m >> k) c)
Ensures-then {E = E} P P' Q m k c = go (m c)
  where
    go :
        (r : Outcome E (Unit {0}))
        → Ensures P Q r
        → ((d : Client E) → P tt d → Ensures P' Q (k d))
        → Ensures P' Q (elim r [ returned a d ↦ k d | threw d ↦ threw d ])
    go (returned a d) h f = f d h
    go (threw d) h f = h

-- Between the steps of Connect nothing has changed that its caller could see.
abbrev Going : {E A : Type 0} → Client E → A → Client E → Type 0
Going c a d = (d.status ≡ not_initialised) × (d.closed_handles ≡ c.closed_handles)

-- A throw leaves the client in error, unless the session could not be opened.
abbrev pub Failed : {E : Type 0} → Client E → Type 0
Failed d = (d.status ≡ error) ⊎ ((d.status ≡ not_initialised) × (d.session ≡ 0))

abbrev pub Done : {E : Type 0} → Client E → Unit {0} → Client E → Type 0
Done c a d = (d.status ≡ connected) × (d.web_socket ≢ 0) × (d.closed_handles ≡ c.closed_handles)

module _ {E : Type 0} (api : Api E) where
  demand-Going :
      (c : Client E) (call : E → ℕ → Bool × E) (request : ℕ) (d : Client E)
      → Going c tt d
      → Ensures (Going c) Failed (demand api call request d)
  unfolding demand abandon
  demand-Going c call request d g = elim (Bool-cases (call d.env request).0) [
    | inl e ↦ rw e g
    | inr e ↦ rw e (inl refl)
  ]

  security_on :
      (request : ℕ) (d : Client E)
      → d.ignore_ssl_errors ≡ true
      → security_step api request d ≡ demand api api.set_security_flags request d
  unfolding security_step
  security_on request d e = simp e

  security_off :
      (request : ℕ) (d : Client E)
      → d.ignore_ssl_errors ≡ false
      → security_step api request d ≡ returned tt d
  unfolding security_step
  security_off request d e = simp e

  security-Going :
      (c : Client E) (request : ℕ) (d : Client E)
      → Going c tt d
      → Ensures (Going c) Failed (security_step api request d)
  security-Going c request d g = elim (Bool-cases d.ignore_ssl_errors) [
    | inl e ↦ rw (security_on request d e) (demand-Going c api.set_security_flags request d g)
    | inr e ↦ rw (security_off request d e) g
  ]

  session-Going :
      (c d : Client E) → Going c tt d → Ensures (Going c) Failed (open_session_step api d)
  unfolding open_session_step
  session-Going c d g = elim (Bool-cases ((api.open_session d.env).0 == 0)) [
    | inl z ↦ rw z (inr (g.0, ground arith))
    | inr z ↦ rw z g
  ]

  upgrade-Done :
      (c : Client E) (request : ℕ) (d : Client E)
      → Going c tt d
      → Ensures
          (λ _ f. (f.web_socket ≢ 0) × (f.closed_handles ≡ c.closed_handles))
          Failed
          (upgrade_step api request d)
  unfolding upgrade_step abandon
  upgrade-Done c request d g = elim (Bool-cases ((api.complete_upgrade d.env request).0 == 0)) [
    | inl z ↦ rw z (inl refl)
    | inr z ↦ rw z (ground arith, g.1)
  ]

  pub require_lem : (s : Status) (c : Client E) → c.status ≡ s → require s c ≡ returned tt c
  unfolding require
  require_lem s c e = ground arith

  pub require_other : (s : Status) (c : Client E) → c.status ≢ s → require s c ≡ threw c
  unfolding require
  require_other s c e = ground arith

  -- The ends of Connect, from each of its calls on.
  abbrev upgraded : ℕ → M E (Unit {0})
  upgraded request = upgrade_step api request >> set_status connected

  abbrev answered : ℕ → M E (Unit {0})
  answered request = demand api api.receive_response request >> upgraded request

  abbrev asked : ℕ → M E (Unit {0})
  asked request = demand api api.send_request request >> answered request

  abbrev secured : ℕ → M E (Unit {0})
  secured request = demand api api.set_upgrade request >> asked request

  module _ (c : Client E) (request : ℕ) where
    upgraded-Done : (d : Client E) → Going c tt d → Ensures (Done c) Failed (upgraded request d)
    upgraded-Done d g =
        Ensures-then (λ _ f. (f.web_socket ≢ 0) × (f.closed_handles ≡ c.closed_handles)) (Done c)
          Failed (upgrade_step api request) (set_status connected) d (upgrade-Done c request d g)
          (λ e h. (refl, h.0, h.1))

    answered-Done : (d : Client E) → Going c tt d → Ensures (Done c) Failed (answered request d)
    answered-Done d g =
        Ensures-then (Going c) (Done c) Failed (demand api api.receive_response request)
          (upgraded request) d (demand-Going c api.receive_response request d g) upgraded-Done

    asked-Done : (d : Client E) → Going c tt d → Ensures (Done c) Failed (asked request d)
    asked-Done d g =
        Ensures-then (Going c) (Done c) Failed (demand api api.send_request request)
          (answered request) d (demand-Going c api.send_request request d g) answered-Done

    secured-Done : (d : Client E) → Going c tt d → Ensures (Done c) Failed (secured request d)
    secured-Done d g =
        Ensures-then (Going c) (Done c) Failed (demand api api.set_upgrade request) (asked request)
          d (demand-Going c api.set_upgrade request d g) asked-Done

    request-Done :
        (d : Client E)
        → Going c tt d
        → Ensures (Done c) Failed ((security_step api request >> secured request) d)
    request-Done d g =
        Ensures-then (Going c) (Done c) Failed (security_step api request) (secured request) d
          (security-Going c request d g) secured-Done

  abbrev opened : Text → M E (Unit {0})
  opened path =
      open_request_step api path >>= λ request. security_step api request >> secured request

  opened-Done :
      (c d : Client E) (path : Text) → Going c tt d → Ensures (Done c) Failed (opened path d)
  unfolding open_request_step
  opened-Done c d path g = request-Done c _ _ g

  -- Connect on a client that is not initialised: if it returns, the client is connected, holds a
  -- WebSocket handle that is not null, and closed no handle on the way; if it throws, the client
  -- is in error, or it is still not initialised and its session handle is null.
  pub internal_connect-Done :
      (path : Text) (c : Client E)
      → c.status ≡ not_initialised
      → Ensures (Done c) Failed (internal_connect api path c)
  unfolding internal_connect
  internal_connect-Done path c e =
      Ensures-then (Going c) (Done c) Failed (require not_initialised)
        (open_session_step api >> opened path) c (rw (require_lem not_initialised c e) (e, refl))
        λ d g.
          Ensures-then (Going c) (Done c) Failed (open_session_step api) (opened path) d
            (session-Going c d g) (λ f h. opened-Done c f path h)
