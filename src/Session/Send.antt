-- ===== src/Session/Send.antt =====
-- `transport_send` of src/transport/session.cpp, and `tls_send` of src/crypto/tls.cpp, whose loops are
-- alike. Each call of `socket_send` or `SSL_write` is an item of a list: the number of bytes that it
-- has taken, `none` where that is negative.
use madoka.Common.{
  ℕ, List, [], ◌∷◌, ◌++◌, Option, none, some, length, take, drop, ◌==◌, if◌then◌else◌, not,
}
use madoka.Codec.{Message, message_encode}
use madoka.Session.{TransportSessionState, transport_close}

-- The end of a loop that writes: all is written, a call has failed, or the list of calls is at its end
-- while the loop still waits for one.
pub data Written : Type 0 where
  all_written write_failed write_blocked : Written

abbrev pub Calls : Type 0
Calls = List (Option ℕ)

-- `while (total_sent < encoded.size())`, on the bytes that are left: how it ends, and the bytes that
-- were taken.
unfoldable pub write_loop : List ℕ → Calls → Written × List ℕ
write_loop [] calls = (all_written, [])
write_loop (b ∷ bs) [] = (write_blocked, [])
write_loop (b ∷ bs) (none ∷ calls) = (write_failed, [])
write_loop (b ∷ bs) (some n ∷ calls) =
    let rest = write_loop (drop n (b ∷ bs)) calls in
    if n == 0 then (write_failed, []) else (rest.0, take n (b ∷ bs) ++ rest.1)

-- `tls_send`: a session that is alive is established. A failed call closes it.
unfoldable pub tls_send : TransportSessionState → List ℕ → Calls → Written × List ℕ
unfolding write_loop
tls_send session bytes calls = elim session.tls [
  | none ↦ (write_failed, [])
  | some peer ↦ write_loop bytes calls
]

-- The loop on `socket_send`, which refuses a socket that is not valid.
unfoldable pub socket_send_all : TransportSessionState → List ℕ → Calls → Written × List ℕ
unfolding write_loop
socket_send_all session bytes calls = elim session.socket [
  | none ↦ (write_failed, [])
  | some fd ↦ write_loop bytes calls
]

-- What `transport_send` returns: true for `sent`; false for a session that was closed before, a
-- message that is not encoded, and a write that failed; nothing yet for `still_sending`.
pub data Sent : Type 0 where
  sent send_on_closed not_encoded send_failed still_sending : Sent

-- The session after a write, and what is returned.
abbrev pub written :
    TransportSessionState → Written × List ℕ → Sent × TransportSessionState × List ℕ
written session (all_written, bytes) = (sent, session, bytes)
written session (write_failed, bytes) = (send_failed, transport_close session, bytes)
written session (write_blocked, bytes) = (still_sending, session, bytes)

-- The last component is the bytes that went out.
unfoldable pub transport_send :
    TransportSessionState → Message → Calls → Sent × TransportSessionState × List ℕ
unfolding transport_close tls_send socket_send_all
transport_send session m calls =
    let encoded = message_encode m in
    if not session.is_open
    then (send_on_closed, session, [])
    else if length encoded == 0
    then (not_encoded, session, [])
    else if session.is_tls
    then written session (tls_send session encoded calls)
    else written session (socket_send_all session encoded calls)
