-- ===== src/XSocket/Exchange.antt =====
-- src/XSocket/main.cpp: a client and a server of one process that talk through the transport. The calls of
-- websocket.dll and the transport are parameters; the printing is left out.
use win32_experiments.Common.{
  ℕ, zero, suc, ◌+◌, ◌%◌, ◌^◌, Bool, List, [], ◌∷◌, ◌++◌, Option, none, some, codes, true, false,
  ◌==◌, if◌then◌else◌, length, ltb, leb,
}
use win32_experiments.XSocket.Transport.{Hresult, e_fail}

abbrev pub failed : Hresult → Bool
failed hr = leb (2 ^ 31) hr

-- An action of WebSocketGetAction with its buffers: their lengths, or what they hold.
pub data Action : Type 0 where
  no_action : Action
  receive_from_network : List ℕ → Action
  indicate_receive_complete : ℕ → Action
  send_to_network : List (List ℕ) → Action
  indicate_send_complete : Action
  invalid : Action

-- WEB_SOCKET_HTTP_HEADER, its name and its value.
abbrev pub Header : Type 0
Header = List ℕ × List ℕ

abbrev pub host : Header
host = (codes "Host", codes "localhost")

-- websocket.dll. A handle is a number, 0 stands for NULL; `deliver` writes to the numbered buffer of an action.
pub record WebSockets (S : Type 0) : Type 0 where
  pub create_client : S → Hresult × ℕ × S
  pub create_server : S → Hresult × ℕ × S
  pub delete : ℕ → S → S
  pub begin_client : ℕ → S → Hresult × List Header × S
  pub begin_server : ℕ → List Header → S → Hresult × List Header × S
  pub end_client : ℕ → List Header → S → Hresult × S
  pub end_server : ℕ → S → Hresult × S
  pub send : ℕ → List ℕ → S → Hresult × S
  pub receive : ℕ → S → Hresult × S
  pub get_action : ℕ → S → Hresult × Action × ℕ × S
  pub deliver : ℕ → ℕ → List ℕ → S → S
  pub abort : ℕ → S → S
  pub complete : ℕ → ℕ → ℕ → S → S

-- The transport, as RunLoop uses it.
pub record Channel (T : Type 0) : Type 0 where
  pub read : ℕ → T → Hresult × List ℕ × T
  pub write : List ℕ → T → Hresult × T

abbrev pub is_no_action : Action → Bool
is_no_action no_action = true
is_no_action _ = false

abbrev pub data_to_send : List ℕ
data_to_send = codes "Hello World"

module _ {S : Type 0} (api : WebSockets S) where
  abbrev pub delete_unless_null : ℕ → S → S
  delete_unless_null handle s = if handle == 0 then s else api.delete handle s

  -- Initialize: the result, the two handles that it gives to its caller (0 where it leaves them), and the state.
  pub initialize : S → Hresult × ℕ × ℕ × S
  initialize s =
      let (hr, client, s1) = api.create_client s in
      if failed hr
      then (hr, 0, 0, delete_unless_null client s1)
      else let (hr2, server, s2) = api.create_server s1 in
        if failed hr2
        then (hr2, 0, 0, delete_unless_null server (delete_unless_null client s2))
        else (hr2, client, server, s2)

  -- PerformHandshake.
  pub perform_handshake : ℕ → ℕ → S → Hresult × S
  perform_handshake client server s =
      let (hr, additional, s1) = api.begin_client client s in
      if failed hr
      then (hr, s1)
      else let (hr2, answer, s2) = api.begin_server server (additional ++ host ∷ []) s1 in
        if failed hr2
        then (hr2, s2)
        else let (hr3, s3) = api.end_client client answer s2 in
          if failed hr3 then (hr3, s3) else api.end_server server s3

  abbrev pub abort_if : Bool → ℕ → S → S
  abort_if b handle s = if b then api.abort handle s else s

  -- What wmain does after `quit`.
  abbrev pub finish : Hresult → ℕ → ℕ → S → ℕ × S
  finish hr client server s =
      (if failed hr then 0 else 1, delete_unless_null server (delete_unless_null client s))

module _ {T : Type 0} (channel : Channel T) where
  -- The loop over the buffers of a send.
  pub send_all : List (List ℕ) → Hresult → ℕ → T → Hresult × ℕ × T
  send_all [] hr transferred t = (hr, transferred, t)
  send_all (bytes ∷ buffers) hr transferred t =
      let (hr2, t2) = channel.write bytes t in
      let rest = send_all buffers hr2 ((transferred + length bytes) % 2 ^ 32) t2 in
      if failed hr2 then (hr2, transferred, t2) else rest

module _ {S T : Type 0} (api : WebSockets S) (channel : Channel T) where
  -- The loop over the buffers of a receive, from the numbered one on: the last result and bytesTransferred.
  pub receive_all : ℕ → List ℕ → ℕ → Hresult → ℕ → S → T → Hresult × ℕ × S × T
  receive_all handle [] i hr transferred s t = (hr, transferred, s, t)
  receive_all handle (room ∷ rooms) i hr transferred s t =
      let (hr2, bytes, t2) = channel.read room t in
      let s2 = api.deliver handle i bytes s in
      let rest = receive_all handle rooms (suc i) hr2 (length bytes) s2 t2 in
      if failed hr2
      then (hr2, length bytes, s2, t2)
      else if ltb (length bytes) room
      then (hr2, length bytes, s2, t2)
      else rest

  -- The switch of RunLoop; `none` is its `goto quit`, with E_FAIL.
  pub perform : ℕ → Action → Hresult → S → T → Option (Hresult × ℕ × S × T)
  perform handle no_action hr s t = some (hr, 0, s, t)
  perform handle (receive_from_network rooms) hr s t = some (receive_all handle rooms 0 hr 0 s t)
  perform handle (indicate_receive_complete count) hr s t =
      if count == 1 then some (hr, 0, s, t) else none
  perform handle (send_to_network buffers) hr s t =
      let (hr2, transferred, t2) = send_all channel buffers hr 0 t in some (hr2, transferred, s, t2)
  perform handle indicate_send_complete hr s t = some (hr, 0, s, t)
  perform handle invalid hr s t = none

  -- RunLoop, on fuel.
  pub run_loop : ℕ → ℕ → S → T → Option (Hresult × S × T)
  run_loop zero handle s t = none
  run_loop (suc fuel) handle s t =
      let (hr, action, context, s1) = api.get_action handle s in
      let s2 = abort_if api (failed hr) handle s1 in
      elim (perform handle action hr s2 t) [
        | none ↦ some (e_fail, s2, t)
        | some (hr2, transferred, s3, t2) ↦
            let s4 =
              api.complete handle context transferred (abort_if api (failed hr2) handle s3) in
            let rest = run_loop fuel handle s4 t2 in
            if is_no_action action then some (hr2, s4, t2) else rest
      ]

  -- PerformDataExchange.
  pub perform_data_exchange : ℕ → ℕ → ℕ → S → T → Option (Hresult × S × T)
  perform_data_exchange fuel client server s t =
      let (hr, s1) = api.send client data_to_send s in
      if failed hr then some (hr, s1, t) else elim (run_loop fuel client s1 t) [
        | none ↦ none
        | some (hr2, s2, t2) ↦
            if failed hr2
            then some (hr2, s2, t2)
            else let (hr3, s3) = api.receive server s2 in
              if failed hr3 then some (hr3, s3, t2) else run_loop fuel server s3 t2
      ]

  -- wmain, with what it returns.
  pub wmain : ℕ → S → T → Option (ℕ × S)
  wmain fuel s t =
      let (hr, client, server, s1) = initialize api s in
      if failed hr
      then some (finish api hr client server s1)
      else let (hr2, s2) = perform_handshake api client server s1 in
        if failed hr2
        then some (finish api hr2 client server s2)
        else elim (perform_data_exchange fuel client server s2 t) [
          | none ↦ none
          | some (hr3, s3, t2) ↦ some (finish api hr3 client server s3)
        ]
