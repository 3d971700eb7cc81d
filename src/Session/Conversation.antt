-- ===== src/Session/Conversation.antt =====
-- What is sent over a session arrives: `transport_send` and `transport_receive` together.
use madoka.Common.{
  ℕ, suc, ◌≤◌, ◌≡◌, refl, ap, sym, ◌∙◌, subst, Bool, true, false, List, [], ◌∷◌, ◌++◌, Option, none,
  some, arith, length, length-drop, drop, take-append-drop, ◌==◌, if◌then◌else◌, All, map,
}
use madoka.Packet.RoundTrip.{append-nil}
use madoka.Codec.{Message, message_validate, message_encode}
use madoka.Codec.RoundTrip.{encode-valid}
use madoka.Session.Send.{
  Written, all_written, write_failed, write_blocked, Calls, write_loop, tls_send, socket_send_all,
  Sent, sent, written, transport_send,
}
use madoka.Session.{TransportSessionState, received, message}
use madoka.Session.Delivery.{
  IsChunk, flatten, frames, IsValidMessage, receive_times, stream_delivered,
}

write_loop-bytes :
    (calls : Calls) (bytes : List ℕ)
    → (write_loop bytes calls).0 ≡ all_written
    → (write_loop bytes calls).1 ≡ bytes
unfolding write_loop
write_loop-bytes calls [] h = refl
write_loop-bytes [] (b ∷ bs) h = absurd cc
write_loop-bytes (none ∷ calls) (b ∷ bs) h = absurd cc
write_loop-bytes (some n ∷ calls) (b ∷ bs) h =
    ground (arith, h, write_loop-bytes calls (drop n (b ∷ bs)), take-append-drop n (b ∷ bs))

-- A call that takes a byte at least.
abbrev pub TakesSome : Option ℕ → Type 0
TakesSome none = 1 ≤ 0
TakesSome (some n) = 1 ≤ n

write_loop-ends :
    (calls : Calls) (bytes : List ℕ)
    → All TakesSome calls
    → length bytes ≤ length calls
    → (write_loop bytes calls).0 ≡ all_written
unfolding write_loop
write_loop-ends calls [] h k = refl
write_loop-ends [] (b ∷ bs) h k = absurd (omega arith)
write_loop-ends (none ∷ calls) (b ∷ bs) h k = absurd (omega (arith, h.0))
write_loop-ends (some n ∷ calls) (b ∷ bs) h k =
    let rest =
      write_loop-ends calls (drop n (b ∷ bs)) h.1 (omega (arith, length-drop n (b ∷ bs), h.0, k)) in
    let some_taken : (n == 0) ≡ false = ground (arith, h.0) in rw some_taken rest

-- A session that has what it writes to: a live TLS session, or a valid socket.
abbrev pub is_connected : TransportSessionState → Bool
is_connected session =
    if session.is_tls
    then elim session.tls [ none ↦ false | some peer ↦ true ]
    else elim session.socket [ none ↦ false | some fd ↦ true ]

encoded-valid : (m : Message) → (length (message_encode m) == 0) ≡ false → message_validate m ≡ none
unfolding message_encode
encoded-valid m h = ground (arith, h)

encoded-long : (m : Message) → message_validate m ≡ none → (length (message_encode m) == 0) ≡ false
encoded-long m h = let (e, _, _, _) = encode-valid m h in rw e (ground arith)

module _ (s : TransportSessionState) (encoded : List ℕ) (calls : Calls) where
  tls_send-bytes :
      (tls_send s encoded calls).0 ≡ all_written → (tls_send s encoded calls).1 ≡ encoded
  unfolding tls_send
  tls_send-bytes h = ground (arith, h, write_loop-bytes calls encoded)

  socket_send-bytes :
      (socket_send_all s encoded calls).0 ≡ all_written
      → (socket_send_all s encoded calls).1 ≡ encoded
  unfolding socket_send_all
  socket_send-bytes h = ground (arith, h, write_loop-bytes calls encoded)

written-sent :
    (s : TransportSessionState) (w : Written × List ℕ)
    → (written s w).0 ≡ sent
    → (w.0 ≡ all_written) × ((written s w).1 ≡ s) × ((written s w).2 ≡ w.1)
written-sent s (all_written, bytes) h = (refl, refl, refl)
written-sent s (write_failed, bytes) h = absurd cc
written-sent s (write_blocked, bytes) h = absurd cc

-- How the encoded message is written.
abbrev write_encoded : TransportSessionState → Message → Calls → Written × List ℕ
write_encoded s m calls =
    if s.is_tls
    then tls_send s (message_encode m) calls
    else socket_send_all s (message_encode m) calls

write_encoded-bytes :
    (s : TransportSessionState) (m : Message) (calls : Calls)
    → (write_encoded s m calls).0 ≡ all_written
    → (write_encoded s m calls).1 ≡ message_encode m
write_encoded-bytes s m calls h = ground (
  arith,
  h,
  tls_send-bytes s (message_encode m) calls,
  socket_send-bytes s (message_encode m) calls,
)

send-open :
    (s : TransportSessionState) (m : Message) (calls : Calls)
    → s.is_open ≡ true
    → (length (message_encode m) == 0) ≡ false
    → transport_send s m calls ≡ written s (write_encoded s m calls)
unfolding transport_send
send-open s m calls o e = ground (arith, o, e)

sent-open :
    (s : TransportSessionState) (m : Message) (calls : Calls)
    → (transport_send s m calls).0 ≡ sent
    → (s.is_open ≡ true) × ((length (message_encode m) == 0) ≡ false)
unfolding transport_send
sent-open s m calls h = ground (arith, h)

-- When `transport_send` returns true, the message was valid, the bytes that went out are its frame,
-- however many bytes each call has taken, and the session is as it was.
pub transport_send-sent :
    (s : TransportSessionState) (m : Message) (calls : Calls)
    → (transport_send s m calls).0 ≡ sent
    → (message_validate m ≡ none)
      × ((transport_send s m calls).1 ≡ s)
      × ((transport_send s m calls).2 ≡ message_encode m)
transport_send-sent s m calls h =
    let (o, e) = sent-open s m calls h in
    let same = send-open s m calls o e in
    let w = write_encoded s m calls in
    let (finished, kept, out) =
      written-sent s w (subst (λ (r : Sent × TransportSessionState × List ℕ). r.0 ≡ sent) same h) in
    (
      encoded-valid m e,
      ap (λ (r : Sent × TransportSessionState × List ℕ). r.1) same ∙ kept,
      ap (λ (r : Sent × TransportSessionState × List ℕ). r.2) same
          ∙ out
          ∙ write_encoded-bytes s m calls finished,
    )

write_encoded-ends :
    (s : TransportSessionState) (m : Message) (calls : Calls)
    → is_connected s ≡ true
    → All TakesSome calls
    → length (message_encode m) ≤ length calls
    → (write_encoded s m calls).0 ≡ all_written
unfolding tls_send socket_send_all
write_encoded-ends s m calls c h k =
    let ends = write_loop-ends calls (message_encode m) h k in ground (arith, c, ends)

written-all :
    (s : TransportSessionState) (w : Written × List ℕ) → w.0 ≡ all_written → (written s w).0 ≡ sent
written-all s (all_written, bytes) h = refl
written-all s (write_failed, bytes) h = absurd cc
written-all s (write_blocked, bytes) h = absurd cc

-- On an open session that has a socket, or a live TLS session if it is one of TLS, a valid message is
-- sent, when each call takes at least a byte and there are as many calls as its frame has bytes.
pub transport_send_ends :
    (s : TransportSessionState) (m : Message) (calls : Calls)
    → s.is_open ≡ true
    → is_connected s ≡ true
    → message_validate m ≡ none
    → All TakesSome calls
    → length (message_encode m) ≤ length calls
    → (transport_send s m calls).0 ≡ sent
transport_send_ends s m calls o c v h k =
    ap (λ (r : Sent × TransportSessionState × List ℕ). r.0)
      (send-open s m calls o (encoded-long m v))
    ∙ written-all s (write_encoded s m calls) (write_encoded-ends s m calls c h k)

-- Messages that are sent one after the other, each with the calls that write it: what is returned for
-- each, the session, and the bytes that went out.
unfoldable pub send_each :
    TransportSessionState → List (Message × Calls) → List Sent × TransportSessionState × List ℕ
unfolding transport_send
send_each s [] = ([], s, [])
send_each s ((m, calls) ∷ ms) =
    let r = transport_send s m calls in
    let rest = send_each r.1 ms in (r.0 ∷ rest.0, rest.1, r.2 ++ rest.2)

abbrev pub message_of : Message × Calls → Message
message_of (m, calls) = m

send_each-frames :
    (s : TransportSessionState) (ms : List (Message × Calls))
    → All (λ x. x ≡ sent) (send_each s ms).0
    → ((send_each s ms).2 ≡ frames (map message_of ms)) × All IsValidMessage (map message_of ms)
unfolding send_each
send_each-frames s [] h = (refl, tt)
send_each-frames s ((m, calls) ∷ ms) h =
    let (valid, kept, out) = transport_send-sent s m calls h.0 in
    let (bytes, all_valid) = send_each-frames (transport_send s m calls).1 ms h.1 in
    (
      ap (λ b. b ++ (send_each (transport_send s m calls).1 ms).2) out
          ∙ ap (◌++◌ (message_encode m)) bytes,
      (valid, all_valid),
    )

length-map : (ms : List (Message × Calls)) → length (map message_of ms) ≡ length ms
length-map [] = refl
length-map (m ∷ ms) = ap suc (length-map ms)

-- Messages are sent one after the other, by calls that take any number of bytes each, and
-- `transport_send` returns true for all. The bytes that went out come to an open session with an
-- empty buffer, in reads of 1 to 1024 bytes. Then as many calls of `transport_receive` as there are
-- messages return the messages, unchanged and in order, and no byte is left in the buffer and the reads.
pub sent_is_received :
    (with_error : Bool) (sender receiver : TransportSessionState) (ms : List (Message × Calls))
    (chunks : List (List ℕ))
    → All (λ x. x ≡ sent) (send_each sender ms).0
    → receiver.is_open ≡ true
    → receiver.recv_buffer ≡ []
    → All IsChunk chunks
    → flatten chunks ≡ (send_each sender ms).2
    → (b : List ℕ) × (left : List (List ℕ)) × (receive_times with_error
          (length ms)
          receiver
          (map received chunks)
        ≡ (map message (map message_of ms), record receiver { recv_buffer = b }, map received left))
      × (b ++ flatten left ≡ [])
sent_is_received w sender receiver ms chunks all_sent o empty h bytes =
    let (out, valid) = send_each-frames sender ms all_sent in
    let stream : receiver.recv_buffer ++ flatten chunks ≡ frames (map message_of ms) ++ [] =
      ap (λ b. b ++ flatten chunks) empty
      ∙ bytes
      ∙ out
      ∙ sym (append-nil (frames (map message_of ms))) in
    let (b, left, same, rest) =
      stream_delivered w (map message_of ms) [] chunks receiver o valid h stream in
    (
      b,
      left,
      subst
          (λ n. receive_times w n receiver (map received chunks) ≡ (
            map message (map message_of ms),
            record receiver { recv_buffer = b },
            map received left,
          ))
          (length-map ms) same,
      rest,
    )
