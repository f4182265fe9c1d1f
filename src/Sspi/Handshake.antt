-- ===== src/Sspi/Handshake.antt =====
-- How DoAuthentication of the server ends.
use win32_experiments.Common.{ℕ, ◌<◌, ◌≡◌, ◌⊎◌, not, Bool, true, false, Option, none, some}
use win32_experiments.Sspi.{
  Bytes, sec_success, continue_needed, complete_needed, complete_and_continue, Outcome, returned,
  exited, unfinished, Provider, Link, finish_token,
}

-- What is documented of a security package and of a connection on which `legs` messages are still to come. A call for a
-- new conversation makes a context, any other one needs the context that there is; `begun` says whether there is one.
-- The package does not ask for CompleteAuthToken and another message at once.
pub record IsProvider {S : Type 0} (provider : Provider S) (link : Link S) (legs : S → ℕ)
    (begun established : S → Bool) : Type 0 where
  pub accepts :
      (new : Bool) (input : Bytes) (room : ℕ) (s : S)
      → new ≡ not (begun s)
      → sec_success (provider.accept_context new input room s).0 ≡ true
      → (begun (provider.accept_context new input room s).2 ≡ true)
        × ((((provider.accept_context new input room s).0 ≡ 0)
              × (established (provider.accept_context new input room s).2 ≡ true))
            ⊎ (((provider.accept_context new input room s).0 ≡ continue_needed)
                ⊎ ((provider.accept_context new input room s).0 ≡ complete_needed)))
  pub accept_keeps :
      (new : Bool) (input : Bytes) (room : ℕ) (s : S)
      → legs (provider.accept_context new input room s).2 ≡ legs s
  pub completes :
      (token : Bytes) (s : S)
      → sec_success (provider.complete_token token s).0 ≡ true
      → ((provider.complete_token token s).0 ≡ 0)
        × (established (provider.complete_token token s).2 ≡ true)
  pub acquire_keeps :
      (s : S)
      → (legs (provider.acquire_inbound s).1 ≡ legs s)
        × (begun (provider.acquire_inbound s).1 ≡ begun s)
  pub send_keeps :
      (socket : ℕ) (token : Bytes) (s : S)
      → (legs (link.send_msg socket token s).1 ≡ legs s)
        × ((established (link.send_msg socket token s).1 ≡ established s)
            × (begun (link.send_msg socket token s).1 ≡ begun s))
  pub receives :
      (socket room : ℕ) (s : S) (input : Bytes)
      → (link.receive_msg socket room s).0 ≡ some input
      → (legs (link.receive_msg socket room s).1 < legs s)
        × (begun (link.receive_msg socket room s).1 ≡ begun s)

module _ {S : Type 0} (provider : Provider S) (link : Link S) (legs : S → ℕ)
    (begun established : S → Bool) (d : IsProvider provider link legs begun established) where
  -- A token: the context is established where it is the last one, and otherwise there is a context.
  abbrev Tokens : ℕ → Option (Bytes × Bool) → S → Type 0
  Tokens before none s = Unit {0}
  Tokens before (some (token, done)) s =
      (done ≡ true → established s ≡ true) × (done ≡ false → (begun s ≡ true) × (legs s ≡ before))

  -- The handshake ends, and it is TRUE only of an established context.
  abbrev pub Authenticates : Outcome S Bool → Type 0
  Authenticates (returned true s) = established s ≡ true
  Authenticates (returned false s) = Unit {0}
  Authenticates (exited code s) = ⊥
  Authenticates unfinished = ⊥

module _ {S : Type 0} (provider : Provider S) where
  -- After SEC_I_COMPLETE_AND_CONTINUE, where CompleteAuthToken answers SEC_E_OK, the handshake counts as done.
  pub finish_token-complete_and_continue :
      (token : Bytes) (s : S)
      → (provider.complete_token token s).0 ≡ 0
      → finish_token provider complete_and_continue token s
        ≡ (some ((provider.complete_token token s).1, true), (provider.complete_token token s).2)
  unfolding finish_token
  finish_token-complete_and_continue token s e = rw (finish_token, e)
