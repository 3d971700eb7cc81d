-- ===== src/Session/Sound.antt =====
-- A session makes up no message: what it returns was on the stream.
use madoka.Common.{
  ℕ, ◌+◌, ◌-◌, ◌≤◌, ◌≡◌, ap, sym, ◌∙◌, subst, Bool, true, false, ◌&&◌, List, [], ◌∷◌, ◌++◌, none,
  arith, length, length-append, length-take, take, drop, take-append-drop, length-eq-zero, ltb,
  ◌==◌, not, min, Bool-cases, inl, inr, All, All-take, All-append,
}
use madoka.Bytes.{IsByte}
use madoka.Bytes.Slice.{ok, ok-injective}
use madoka.Packet.RoundTrip.{append-nil}
use madoka.Wire.Contact.RoundTrip.{append_assoc}
use madoka.Codec.{
  Message, CodecError, message_validate, message_encode, message_decode, message_peek_size,
}
use madoka.Codec.RoundTrip.{encode-valid, decode-inv, peek-decoded}
use madoka.Session.{
  TransportSessionState, Read, received, peer_closed, read_timed_out, read_failed, Received,
  message, deliver, read_more, take_message, attempt, append_chunk, peer_has_closed,
  transport_close, receive_loop, transport_receive, recv_chunk_size, max_recv_buffer_size,
}
use madoka.Session.Limits.{keeps_open, Attempt-cases, loop_rejects, IsSettled, attempt-IsSettled}
use madoka.Session.Delivery.{peek-append, loop_delivers, receive_open}

deliver-reads :
    (with_error : Bool) (b : List ℕ) (m : Message) (n : ℕ)
    → attempt with_error b ≡ deliver m n
    → (4 ≤ length b)
      × (message_peek_size b ≡ ok n)
      × (n ≤ length b)
      × (message_decode (take n b) ≡ ok m)
unfolding attempt take_message
deliver-reads w b m n e = ground arith

-- A message that is delivered is valid, and its frame is the front of the buffer.
deliver-inv :
    (with_error : Bool) (b : List ℕ) (m : Message) (n : ℕ)
    → All IsByte b
    → attempt with_error b ≡ deliver m n
    → (message_validate m ≡ none) × (b ≡ message_encode m ++ drop n b)
deliver-inv w b m n bytes e =
    let (header, peeked, covered, decoded) = deliver-reads w b m n e in
    let (valid, (rest, front)) = decode-inv (take n b) m (All-take IsByte n b bytes) decoded in
    let (size, whole) = peek-decoded (take n b) m decoded in
    let (frame, _, _, _) = encode-valid m valid in
    let taken : length (take n b) ≡ n = omega (arith, length-take n b, covered) in
    let again : message_peek_size b ≡ message_peek_size (take n b) =
      ap message_peek_size (sym (take-append-drop n b))
      ∙ peek-append (take n b) (drop n b) (omega (arith, whole)) in
    let exact : n ≡ 4 + length m.payload =
      ok-injective {E = CodecError} n (4 + length m.payload) (sym peeked ∙ again ∙ size) in
    let long : length (message_encode m) ≡ n = rw frame (omega (arith, exact)) in
    let none_left : rest ≡ [] =
      length-eq-zero rest
        (omega (arith, ap length front, taken, long, length-append (message_encode m) rest)) in
    (
      valid,
      sym (take-append-drop n b)
          ∙ ap (λ x. x ++ drop n b)
              (front ∙ ap (◌++◌ (message_encode m)) none_left ∙ append-nil (message_encode m)),
    )

All-front : (xs ys : List ℕ) → All IsByte (xs ++ ys) → All IsByte xs
All-front [] ys h = tt
All-front (x ∷ xs) ys h = (h.0, All-front xs ys h.1)

All-back : (xs ys : List ℕ) → All IsByte (xs ++ ys) → All IsByte ys
All-back [] ys h = h
All-back (x ∷ xs) ys h = All-back xs ys h.1

-- The bytes that reads bring.
abbrev pub bytes_of : List Read → List ℕ
bytes_of [] = []
bytes_of (received c ∷ reads) = c ++ bytes_of reads
bytes_of (_ ∷ reads) = bytes_of reads

-- A call that returns a message has taken its frame, and nothing else, from the stream.
abbrev Taken : List ℕ → Received → TransportSessionState → List Read → Type 0
Taken stream (message m) s left =
    (message_validate m ≡ none) × (stream ≡ message_encode m ++ (s.recv_buffer ++ bytes_of left))
Taken stream _ s left = Unit

abbrev TakenBy : List ℕ → Received × TransportSessionState × List Read → Type 0
TakenBy stream r = Taken stream r.0 r.1 r.2

refused-Taken :
    (stream : List ℕ) (x : Received) (s : TransportSessionState) (left : List Read)
    → keeps_open x ≡ false
    → Taken stream x s left
refused-Taken stream (message m) s left h = absurd cc
refused-Taken stream _ s left h = tt

settled-TakenBy :
    (with_error : Bool) (s : TransportSessionState) (reads : List Read)
    → All IsByte s.recv_buffer
    → (attempt with_error s.recv_buffer ≡ read_more
        → TakenBy (s.recv_buffer ++ bytes_of reads) (receive_loop with_error s reads))
    → TakenBy (s.recv_buffer ++ bytes_of reads) (receive_loop with_error s reads)
settled-TakenBy w s reads bytes more = elim (Attempt-cases (attempt w s.recv_buffer)) [
  | inl (m, n, e) ↦
      let (valid, front) = deliver-inv w s.recv_buffer m n bytes e in
      subst (TakenBy (s.recv_buffer ++ bytes_of reads)) (sym (loop_delivers w s reads m n e)) (
        valid,
        ap (λ b. b ++ bytes_of reads) front
            ∙ append_assoc (message_encode m) (drop n s.recv_buffer) (bytes_of reads),
      )
  | inr (inl e) ↦ more e
  | inr (inr (x, e)) ↦
      let refused = subst (IsSettled s.recv_buffer) e (attempt-IsSettled w s.recv_buffer) in
      subst (TakenBy (s.recv_buffer ++ bytes_of reads)) (sym (loop_rejects w s reads x e))
        (refused-Taken (s.recv_buffer ++ bytes_of reads) x (transport_close s) reads refused.0)
]

received-TakenBy :
    (with_error : Bool) (s : TransportSessionState) (c : List ℕ) (reads : List Read)
    → attempt with_error s.recv_buffer ≡ read_more
    → TakenBy
        ((s.recv_buffer ++ c) ++ bytes_of reads)
        (receive_loop with_error (append_chunk s c) reads)
    → TakenBy
        (s.recv_buffer ++ (c ++ bytes_of reads))
        (receive_loop with_error s (received c ∷ reads))
unfolding receive_loop peer_has_closed
received-TakenBy w s c reads e next =
    let to_read = min (max_recv_buffer_size - length s.recv_buffer) recv_chunk_size in
    elim (Bool-cases (ltb to_read (length c))) [
      | inl k ↦ rw (receive_loop, e, k) tt
      | inr k ↦ elim (Bool-cases (length c == 0 && not s.is_tls)) [
        | inl z ↦ rw (receive_loop, e, k, z) tt
        | inr z ↦
            rw (receive_loop, e, k, z)
              (subst (λ b. TakenBy b (receive_loop w (append_chunk s c) reads))
                (append_assoc s.recv_buffer c (bytes_of reads)) next)
      ]
    ]

receive_loop-TakenBy :
    (with_error : Bool) (reads : List Read) (s : TransportSessionState)
    → All IsByte s.recv_buffer
    → All IsByte (bytes_of reads)
    → TakenBy (s.recv_buffer ++ bytes_of reads) (receive_loop with_error s reads)
unfolding receive_loop peer_has_closed
receive_loop-TakenBy w [] s b k = settled-TakenBy w s [] b (λ e. rw (receive_loop, e) tt)
receive_loop-TakenBy w (received c ∷ reads) s b k = settled-TakenBy w s (received c ∷ reads) b (λ e.
    received-TakenBy w s c reads e (
      receive_loop-TakenBy w reads (append_chunk s c)
        (All-append IsByte s.recv_buffer c b (All-front c (bytes_of reads) k))
        (All-back c (bytes_of reads) k)))
receive_loop-TakenBy w (peer_closed ∷ reads) s b k =
    settled-TakenBy w s (peer_closed ∷ reads) b (λ e. rw (receive_loop, e) tt)
receive_loop-TakenBy w (read_timed_out ∷ reads) s b k =
    settled-TakenBy w s (read_timed_out ∷ reads) b (λ e. rw (receive_loop, e) tt)
receive_loop-TakenBy w (read_failed ∷ reads) s b k =
    settled-TakenBy w s (read_failed ∷ reads) b (λ e. rw (receive_loop, e) tt)

-- When a call on an open session returns a message, then the message is valid, and the bytes that
-- were in the buffer and still to be read are its frame and the bytes that are so afterwards: no
-- message is made up, no byte is lost and none is read twice, whatever the reads bring.
pub receive-message :
    (with_error : Bool) (s s' : TransportSessionState) (reads left : List Read) (m : Message)
    → s.is_open ≡ true
    → All IsByte s.recv_buffer
    → All IsByte (bytes_of reads)
    → transport_receive with_error s reads ≡ (message m, s', left)
    → (message_validate m ≡ none)
      × (s.recv_buffer ++ bytes_of reads ≡ message_encode m ++ (s'.recv_buffer ++ bytes_of left))
receive-message w s s' reads left m o b k e =
    subst (TakenBy (s.recv_buffer ++ bytes_of reads)) (sym (receive_open w s reads o) ∙ e)
      (receive_loop-TakenBy w reads s b k)
