-- ===== src/WebSocket.antt =====
-- src/WebSocketProto/WinHttpWebSocket.cpp, WinHttp.hpp and WinHttpHandle.cpp: a client of the
-- WebSocket calls of WinHTTP. Those calls are a parameter. A method is a function of the object and of
-- the state of WinHTTP; what it throws keeps both as they were at the throw.
pub mod Replace
pub mod Lifecycle
pub mod Reuse
pub mod Receive
mod Examples
use win32_experiments.Common.{
  ℕ, zero, suc, ◌+◌, ◌-◌, Bool, true, false, List, [], ◌∷◌, ◌++◌, Option, none, some, ◌==◌,
  if◌then◌else◌, length, take, drop, replicate, codes,
}
use win32_experiments.Common.Buffers.{write_at}

abbrev pub Text : Type 0
Text = List ℕ

-- WINHTTP_WEB_SOCKET_BUFFER_TYPE.
pub data BufferType : Type 0 where
  binary_message binary_fragment utf8_message utf8_fragment close_buffer : BufferType

-- What one call of WinHttpWebSocketReceive does: an error, or bytes and their type.
pub data Answer : Type 0 where
  failure : Answer
  frame : Text → BufferType → Answer

-- The calls of WinHTTP over a state `E`. A handle is a number, and zero is the null handle.
pub record Api (E : Type 0) : Type 0 where
  pub open_session : E → ℕ × E
  pub connect : E → ℕ → Text → ℕ → ℕ × E
  pub open_request : E → ℕ → Text → ℕ × E
  pub set_security_flags : E → ℕ → Bool × E
  pub set_upgrade : E → ℕ → Bool × E
  pub send_request : E → ℕ → Bool × E
  pub receive_response : E → ℕ → Bool × E
  pub complete_upgrade : E → ℕ → ℕ × E
  pub web_socket_send : E → ℕ → BufferType → Text → ℕ × E
  pub web_socket_receive : E → ℕ → ℕ → Answer × E
  pub web_socket_close : E → ℕ → E

pub data Status : Type 0 where
  not_initialised connected closed error : Status

-- The object, the state of WinHTTP, and a ledger: the handles that were closed.
pub record Client (E : Type 0) : Type 0 where
  pub session : ℕ
  pub connection : ℕ
  pub web_socket : ℕ
  pub server : Text
  pub port : ℕ
  pub ignore_ssl_errors : Bool
  pub status : Status
  pub env : E
  pub closed_handles : List ℕ

-- Whether the text begins with `from`.
pub starts_with : Text → Text → Bool
starts_with [] text = true
starts_with (c ∷ from) [] = false
starts_with (c ∷ from) (d ∷ text) = if c == d then starts_with from text else false

-- std::wstring::find from the start of what is left: the first place where `from` stands.
pub find : Text → Text → Option ℕ
unfolding starts_with
find from [] = if starts_with from [] then some 0 else none
find from (c ∷ text) =
    let later : Option ℕ = elim (find from text) [ none ↦ none | some k ↦ some (suc k) ] in
    if starts_with from (c ∷ text) then some 0 else later

-- `while (npos != (findPos = source.find(from, lastPos)))`; `rest` is the source from `lastPos` on.
pub replace_loop : ℕ → Text → Text → Text → Text → Option Text
replace_loop zero from to rest new_string = none
replace_loop (suc fuel) from to rest new_string = elim (find from rest) [
  | none ↦ some (new_string ++ rest)
  | some k ↦
      replace_loop fuel from to (drop (k + length from) rest) ((new_string ++ take k rest) ++ to)
]

pub replace : ℕ → Text → Text → Text → Option Text
replace fuel source from to = replace_loop fuel from to source []

-- CleanServerString.
pub clean_server_string : ℕ → Text → Option Text
clean_server_string fuel server = elim (replace fuel server (codes "http://") []) [
  | none ↦ none
  | some text ↦ replace fuel text (codes "https://") []
]

-- A method returns or throws, and either way leaves an object.
pub data Outcome (E A : Type 0) : Type 0 where
  returned : A → Client E → Outcome E A
  threw : Client E → Outcome E A

abbrev pub M : Type 0 → Type 0 → Type 0
M E A = Client E → Outcome E A

infixl 5 ◌>>=◌ ◌>>◌
abbrev pub ◌>>=◌ : {E A B : Type 0} → M E A → (A → M E B) → M E B
◌>>=◌ m f c = elim (m c) [ returned a d ↦ f a d | threw d ↦ threw d ]

abbrev pub ◌>>◌ : {E B : Type 0} → M E (Unit {0}) → M E B → M E B
m >> k = m >>= λ _. k

abbrev pub pure : {E A : Type 0} → A → M E A
pure a c = returned a c

abbrev pub throw : {E A : Type 0} → M E A
throw c = threw c

-- `if (m_status != wanted) throw`.
pub require : {E : Type 0} → Status → M E (Unit {0})
require not_initialised c = elim (c.status) [ not_initialised ↦ returned tt c | _ ↦ threw c ]
require connected c = elim (c.status) [ connected ↦ returned tt c | _ ↦ threw c ]
require closed c = elim (c.status) [ closed ↦ returned tt c | _ ↦ threw c ]
require error c = elim (c.status) [ error ↦ returned tt c | _ ↦ threw c ]

abbrev pub set_status : {E : Type 0} → Status → M E (Unit {0})
set_status s c = returned tt (record c { status = s })

-- The destructor of the local WinHttpHandle closes the request when an exception leaves the method.
pub abandon : {E A : Type 0} → ℕ → M E A
abandon request c = threw (record c {
  status = error;
  closed_handles = if request == 0 then c.closed_handles else request ∷ c.closed_handles;
})

pub is_fragment : BufferType → Bool
is_fragment utf8_fragment = true
is_fragment binary_fragment = true
is_fragment _ = false

-- SetServer, with the text that CleanServerString makes of the new server.
pub set_server : {E : Type 0} → ℕ → Text → ℕ → Bool → Client E → Option (Client E)
set_server fuel server port ignore c = elim (clean_server_string fuel server) [
  | none ↦ none
  | some text ↦ some (record c { server = text; port = port; ignore_ssl_errors = ignore })
]

module _ {E : Type 0} (api : Api E) where
  open api use {
    open_session, connect, open_request, set_security_flags, set_upgrade, send_request,
    receive_response, complete_upgrade, web_socket_send, web_socket_receive, web_socket_close,
  }

  -- A call that answers TRUE or FALSE on the request, and the throw behind it.
  pub demand : (E → ℕ → Bool × E) → ℕ → M E (Unit {0})
  unfolding abandon
  demand call request c =
      let (fine, e) = call c.env request in
      let d = record c { env = e } in if fine then returned tt d else abandon request d

  pub open_session_step : M E (Unit {0})
  open_session_step c =
      let (h, e) = open_session c.env in
      let d = record c { session = h; env = e } in if h == 0 then threw d else returned tt d

  -- WinHttpConnect and WinHttpOpenRequest, whose answers are not tested.
  pub open_request_step : Text → M E ℕ
  open_request_step path c =
      let (h, e) = connect c.env c.session c.server c.port in
      let (r, e') = open_request e h path in returned r (record c { connection = h; env = e' })

  pub security_step : ℕ → M E (Unit {0})
  unfolding demand
  security_step request c =
      if c.ignore_ssl_errors then demand set_security_flags request c else returned tt c

  pub upgrade_step : ℕ → M E (Unit {0})
  unfolding abandon
  upgrade_step request c =
      let (h, e) = complete_upgrade c.env request in
      let d = record c { web_socket = h; env = e } in
      if h == 0 then abandon request d else returned tt d

  -- The request's handle is set to null before its destructor runs, which so closes nothing.
  pub internal_connect : Text → M E (Unit {0})
  unfolding require open_session_step open_request_step security_step demand upgrade_step
  internal_connect path = do
    require not_initialised
    open_session_step
    request ← open_request_step path
    security_step request
    demand set_upgrade request
    demand send_request request
    demand receive_response request
    upgrade_step request
    set_status connected

  -- SendString and SendBuffer, by the type of the buffer.
  pub send : BufferType → Text → M E (Unit {0})
  unfolding require
  send kind message = do
    require connected
    λ c.
        let (code, e) = web_socket_send c.env c.web_socket kind message in
        let d = record c { env = e } in
        if code == 0 then returned tt d else threw (record d { status = error })

  pub close : M E (Unit {0})
  close c = returned tt (record c { env = web_socket_close c.env c.web_socket; status = closed })

  -- `do … while` of Receive: the buffer, the place of `pbCurrentBufferPointer` in it, and
  -- `dwBufferLength`. `none` means that the fuel ran out.
  pub receive_loop : ℕ → Text → ℕ → ℕ → Client E → Option (Outcome E (Bool × Text))
  unfolding is_fragment close
  receive_loop zero buffer at left c = none
  receive_loop (suc fuel) buffer at left c =
      let (answer, e) = web_socket_receive c.env c.web_socket left in
      let d = record c { env = e } in
      elim answer [
        | failure ↦ some (threw d)
        | frame bytes kind ↦
            let after = write_at at bytes buffer in
            let next = receive_loop fuel after (at + length bytes) (left - length bytes) d in
            elim kind [
              | close_buffer ↦ some ((close >> pure (false, after)) d)
              | other ↦ if is_fragment other then next else some (returned (true, after) d)
            ]
      ]

  pub receive : ℕ → Client E → Option (Outcome E (Bool × Text))
  unfolding require
  receive fuel c = elim (require connected c) [
    | returned _ d ↦ receive_loop fuel (replicate 2048 0) 0 2048 d
    | threw d ↦ some (threw d)
  ]
