-- ===== src/WebSocket/Receive.antt =====
-- What Receive leaves in the caller's string.
use win32_experiments.Common.{
  ℕ, zero, suc, ◌+◌, ◌-◌, ◌≤◌, ◌≡◌, refl, sym, ◌∙◌, Bool, true, false, [], ◌++◌, append_assoc, some,
  arith, length, replicate, length-append, length-replicate,
}
use win32_experiments.Common.Buffers.{write_at, filled, write_at-filled}
use win32_experiments.WebSocket.{
  Text, BufferType, binary_message, binary_fragment, utf8_message, utf8_fragment, close_buffer,
  frame, Api, Client, connected, closed, Outcome, returned, is_fragment, receive_loop, receive,
  require, close,
}

module _ {E : Type 0} (api : Api E) where
  -- No call reports more bytes than it had room for.
  abbrev pub Bounded : Type 0
  Bounded =
      (e f : E) (socket room : ℕ) (bytes : Text) (kind : BufferType)
      → api.web_socket_receive e socket room ≡ (frame bytes kind, f)
      → length bytes ≤ room

  -- From the state `e` and with room for so many bytes, the calls bring this many frames: fragments,
  -- and at the end a frame that is none.
  pub data Frames (socket : ℕ) : ℕ → E → ℕ → Text → BufferType → E → Type 0 where
    last :
        {e f : E} {room : ℕ} {bytes : Text} {kind : BufferType}
        → api.web_socket_receive e socket room ≡ (frame bytes kind, f)
        → is_fragment kind ≡ false
        → Frames socket 1 e room bytes kind f
    more :
        {e f g : E} {room n : ℕ} {bytes rest : Text} {kind end : BufferType}
        → api.web_socket_receive e socket room ≡ (frame bytes kind, f)
        → is_fragment kind ≡ true
        → Frames socket n f (room - length bytes) rest end g
        → Frames socket (suc n) e room (bytes ++ rest) end g

  pub Frames-length :
      {socket n room : ℕ} {e g : E} {bytes : Text} {end : BufferType}
      → Bounded
      → Frames socket n e room bytes end g
      → length bytes ≤ room
  Frames-length b (last c k) = b _ _ _ _ _ _ c
  Frames-length b (more {bytes = bytes} {rest = rest} c k r) =
      let first = b _ _ _ _ _ _ c in
      let others = Frames-length b r in omega (arith, length-append bytes rest)

  -- What the loop returns at the last frame.
  abbrev pub result : BufferType → Text → Client E → E → Outcome E (Bool × Text)
  result close_buffer text c g =
      returned (false, text)
        (record c { env = api.web_socket_close g c.web_socket; status = closed })
  result other text c g = returned (true, text) (record c { env = g })

  result_env :
      (kind : BufferType) (text : Text) (c : Client E) (f g : E)
      → result kind text (record c { env = f }) g ≡ result kind text c g
  result_env binary_message text c f g = refl
  result_env binary_fragment text c f g = refl
  result_env utf8_message text c f g = refl
  result_env utf8_fragment text c f g = refl
  result_env close_buffer text c f g = refl

  loop_last :
      (fuel at left : ℕ) (buffer bytes : Text) (kind : BufferType) (f : E) (c : Client E)
      → api.web_socket_receive c.env c.web_socket left ≡ (frame bytes kind, f)
      → is_fragment kind ≡ false
      → receive_loop api (suc fuel) buffer at left c
        ≡ some (result kind (write_at at bytes buffer) c f)
  unfolding receive_loop is_fragment close
  loop_last fuel at left buffer bytes binary_message f c e k = ground arith
  loop_last fuel at left buffer bytes binary_fragment f c e k = ground arith
  loop_last fuel at left buffer bytes utf8_message f c e k = ground arith
  loop_last fuel at left buffer bytes utf8_fragment f c e k = ground arith
  loop_last fuel at left buffer bytes close_buffer f c e k = ground arith

  loop_more :
      (fuel at left : ℕ) (buffer bytes : Text) (kind : BufferType) (f : E) (c : Client E)
      → api.web_socket_receive c.env c.web_socket left ≡ (frame bytes kind, f)
      → is_fragment kind ≡ true
      → receive_loop api (suc fuel) buffer at left c
        ≡ receive_loop api fuel
            (write_at at bytes buffer)
            (at + length bytes)
            (left - length bytes)
            (record c { env = f })
  unfolding receive_loop is_fragment
  loop_more fuel at left buffer bytes kind f c e k = ground arith

  -- From a buffer that is filled so far, enough fuel for the frames takes the loop to its end.
  loop-Frames :
      (fuel : ℕ) (got : Text) (c : Client E) {n room : ℕ} {g : E} {bytes : Text} {end : BufferType}
      → Bounded
      → Frames c.web_socket n c.env room bytes end g
      → n ≤ fuel
      → receive_loop api fuel (filled got room) (length got) room c
        ≡ some (result end (filled (got ++ bytes) (room - length bytes)) c g)
  loop-Frames zero got c b (last e k) h = absurd (omega arith)
  loop-Frames (suc fuel) got c {room = room} {bytes = bytes} b (last e k) h =
      loop_last fuel (length got) room (filled got room) bytes _ _ c e k
      ∙ rw (write_at-filled got bytes room)
  loop-Frames zero got c b (more e k r) h = absurd (omega arith)
  loop-Frames (suc fuel) got c {room = room} b (more {f = f} {bytes = bytes} {rest = rest} e k r)
        h =
      let first = b _ _ _ _ _ _ e in
      let others = Frames-length b r in
      let step = loop_more fuel (length got) room (filled got room) bytes _ _ c e k in
      let ih = loop-Frames fuel (got ++ bytes) (record c { env = f }) b r (omega arith) in
      let len : room - length bytes - length rest ≡ room - length (bytes ++ rest) =
        omega (arith, length-append bytes rest) in
      let now = rw (write_at-filled got bytes room, sym (length-append got bytes)) at step in
      now ∙ (ih ∙ rw (result_env, len, append_assoc got bytes rest))

  receive_connected :
      (fuel : ℕ) (c : Client E)
      → c.status ≡ connected
      → receive api fuel c ≡ receive_loop api fuel (replicate 2048 0) 0 2048 c
  unfolding receive require
  receive_connected fuel c s = ground arith

  -- Receive on a connected client, when no call reports more bytes than it had room for, and frames of
  -- up to 2048 bytes arrive, fragments and then a frame that is none: with fuel for them it returns, and
  -- the caller's string always has 2048 bytes, those of the frames and zeros behind them. It returns
  -- true for a message and the client stays connected; it returns false for a close frame and the
  -- client is closed.
  pub receive-Frames :
      (fuel : ℕ) (c : Client E) {n : ℕ} {g : E} {bytes : Text} {end : BufferType}
      → Bounded
      → c.status ≡ connected
      → Frames c.web_socket n c.env 2048 bytes end g
      → n ≤ fuel
      → (receive api fuel c ≡ some (result end (filled bytes (2048 - length bytes)) c g))
        × (length (filled bytes (2048 - length bytes)) ≡ 2048)
  receive-Frames fuel c {bytes = bytes} b s r h =
      let fits = Frames-length b r in
      let zeros = length-replicate {A = ℕ} (2048 - length bytes) 0 in
      (
        receive_connected fuel c s ∙ loop-Frames fuel [] c b r h,
        omega (arith, length-append bytes (replicate (2048 - length bytes) 0), zeros),
      )
