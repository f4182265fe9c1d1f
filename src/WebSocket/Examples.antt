-- ===== src/WebSocket/Examples.antt =====
-- A scripted WinHTTP, runs of the client against it, and the witnesses.
use win32_experiments.Common.{
  ℕ, ◌≤◌, ◌≡◌, refl, true, List, [], ◌∷◌, some, arith, length, codes, if◌then◌else◌, leb, leb→le,
}
use win32_experiments.Common.Buffers.{filled}
use win32_experiments.WebSocket.{
  Text, BufferType, utf8_fragment, utf8_message, Answer, failure, frame, Api, Client,
  not_initialised, connected, returned, replace, clean_server_string, internal_connect, receive,
  require, demand, open_session_step, open_request_step, security_step, upgrade_step, starts_with,
  find, replace_loop, is_fragment,
}
use win32_experiments.WebSocket.Replace.{Replaces, replace-Replaces}
use win32_experiments.WebSocket.Receive.{Bounded, Frames, last, more, receive-Frames}

replace_run : replace 10 (codes "http://a") (codes "http://") [] ≡ some (codes "a")
unfolding replace replace_loop find starts_with
replace_run = refl

clean_run : clean_server_string 20 (codes "https://example.org") ≡ some (codes "example.org")
unfolding clean_server_string replace replace_loop find starts_with
clean_run = refl

replace-Replaces_example :
    (out : Text) × (replace 4 (codes "aba") (codes "a") (codes "c") ≡ some out)
    × Replaces (codes "a") (codes "c") (codes "aba") out
replace-Replaces_example =
    replace-Replaces 4 (codes "aba") (codes "a") (codes "c") (λ e. cc) (omega arith)

-- A call that gets more bytes than it has room for fails.
answer_within : ℕ → Answer → Answer
answer_within room failure = failure
answer_within room (frame bytes kind) =
    if leb (length bytes) room then frame bytes kind else failure

-- The state is the list of what the socket will receive.
next_answer : List Answer → ℕ → Answer × List Answer
unfolding answer_within
next_answer [] room = (failure, [])
next_answer (a ∷ rest) room = (answer_within room a, rest)

abbrev scripted : Api (List Answer)
scripted = record {
  open_session = λ e. (1, e);
  connect = λ e h s p. (2, e);
  open_request = λ e h p. (3, e);
  set_security_flags = λ e r. (true, e);
  set_upgrade = λ e r. (true, e);
  send_request = λ e r. (true, e);
  receive_response = λ e r. (true, e);
  complete_upgrade = λ e r. (4, e);
  web_socket_send = λ e h k t. (0, e);
  web_socket_receive = λ e h room. next_answer e room;
  web_socket_close = λ e h. e;
}

abbrev fresh : Client (List Answer)
fresh = record {
  session = 0;
  connection = 0;
  web_socket = 0;
  server = codes "example.org";
  port = 443;
  ignore_ssl_errors = true;
  status = not_initialised;
  env = [];
  closed_handles = [];
}

abbrev script : List Answer
script = frame (codes "ab") utf8_fragment ∷ frame (codes "c") utf8_message ∷ []

abbrev talking : Client (List Answer)
talking = record fresh { status = connected; web_socket = 4; env = script }

connect_run :
    internal_connect scripted (codes "/") fresh
    ≡ returned tt (record fresh { session = 1; connection = 2; web_socket = 4; status = connected })
unfolding internal_connect require open_session_step open_request_step security_step demand
    upgrade_step
connect_run = refl

within-length :
    (room : ℕ) (a : Answer) (bytes : Text) (kind : BufferType)
    → answer_within room a ≡ frame bytes kind
    → length bytes ≤ room
unfolding answer_within
within-length room failure bytes kind e = cc
within-length room (frame b k) bytes kind e = grind (arith, leb→le)

scripted-Bounded : Bounded scripted
unfolding next_answer
scripted-Bounded [] f socket room bytes kind e = cc
scripted-Bounded (a ∷ rest) f socket room bytes kind e = within-length room a bytes kind (cc)

talking-Frames : Frames scripted 4 2 script 2048 (codes "abc") utf8_message []
unfolding next_answer answer_within is_fragment
talking-Frames = more refl refl (last refl refl)

receive-Frames_example :
    (receive scripted 2 talking
      ≡ some (returned (true, filled (codes "abc") 2045) (record talking { env = [] })))
    × (length (filled (codes "abc") 2045) ≡ 2048)
receive-Frames_example =
    receive-Frames scripted 2 talking scripted-Bounded refl talking-Frames (omega arith)
