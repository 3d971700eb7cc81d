-- ===== src/Session/Limits.antt =====
-- What a receiving session does on bytes of any kind: its buffer, its errors, its messages.
use madoka.Common.{
  ℕ, ◌-◌, ◌≤◌, ◌<◌, ◌≡◌, ◌≢◌, ◌⊎◌, refl, sym, ◌∙◌, subst, Bool, true, false, ◌&&◌, List, [], ◌∷◌,
  ◌++◌, arith, length, length-append, length-drop, take, drop, ltb, leb, ◌==◌, not, min, Bool-cases,
  inl, inr,
}
use madoka.Bytes.Slice.{Result, ok, err, fault}
use madoka.Codec.{
  Message, CodecError, message_decode, message_peek_size, header_size, max_message_size,
}
use madoka.Codec.RoundTrip.{decode-ne-fault}
use madoka.Session.{
  TransportSessionState, Read, received, peer_closed, read_timed_out, read_failed, Received,
  message, closed_by_peer, timed_out, failed, blocked, overrun, misread, Attempt, deliver, reject,
  read_more, room_for, take_message, attempt, append_chunk, peer_has_closed, transport_close,
  receive_loop, transport_receive, recv_chunk_size, max_recv_buffer_size,
}
use madoka.Session.Delivery.{loop_delivers, receive_open, with_buffer}

-- The outcomes after which a session stays open.
abbrev pub keeps_open : Received → Bool
keeps_open (message m) = true
keeps_open timed_out = true
keeps_open blocked = true
keeps_open overrun = true
keeps_open _ = false

-- The refusals of a buffer.
abbrev pub IsRefusal : Received → Type 0
IsRefusal e = (keeps_open e ≡ false) × (e ≢ misread) × (e ≢ closed_by_peer true)

Result-cases :
    {A : Type 0} (r : Result CodecError A)
    → ((a : A) × (r ≡ ok a)) ⊎ ((e : CodecError) × (r ≡ err e)) ⊎ (r ≡ fault)
Result-cases (ok a) = inl (a, refl)
Result-cases (err e) = inr (inl (e, refl))
Result-cases fault = inr (inr refl)

-- What is known of an attempt on a buffer.
abbrev pub IsSettled : List ℕ → Attempt → Type 0
IsSettled b (deliver m n) = Unit
IsSettled b read_more = length b < max_recv_buffer_size
IsSettled b (reject e) = IsRefusal e

room_for-IsSettled : (b : List ℕ) → IsSettled b (room_for b)
room_for-IsSettled b = elim (Bool-cases (leb max_recv_buffer_size (length b))) [
  | inl e ↦ rw e (refl, λ h. cc, λ h. cc)
  | inr e ↦ rw e (ground (arith, e))
]

take_message-IsSettled : (b : List ℕ) (n : ℕ) → IsSettled b (take_message b n)
unfolding take_message
take_message-IsSettled b n = elim (Bool-cases (ltb max_message_size n)) [
  | inl e ↦ rw (take_message, e) (refl, λ h. cc, λ h. cc)
  | inr e ↦ elim (Bool-cases (leb n (length b))) [
    | inr k ↦ rw (take_message, e, k) (room_for-IsSettled b)
    | inl k ↦ elim (Result-cases (message_decode (take n b))) [
      | inl (m, h) ↦ rw (take_message, e, k, h) tt
      | inr (inl (x, h)) ↦ rw (take_message, e, k, h) (refl, λ h. cc, λ h. cc)
      | inr (inr h) ↦ absurd ((decode-ne-fault (take n b)).0 h)
    ]
  ]
]

pub attempt-IsSettled : (with_error : Bool) (b : List ℕ) → IsSettled b (attempt with_error b)
unfolding attempt
attempt-IsSettled w b = elim (Bool-cases (leb header_size (length b))) [
  | inr e ↦ rw (attempt, e) (room_for-IsSettled b)
  | inl e ↦ elim (Result-cases (message_peek_size b)) [
    | inl (n, h) ↦ rw (attempt, e, h) (take_message-IsSettled b n)
    | inr (inl (x, h)) ↦ elim (Bool-cases w) [
      | inl k ↦ rw (attempt, e, h, k) (refl, λ h. cc, λ h. cc)
      | inr k ↦ rw (attempt, e, h, k) (room_for-IsSettled b)
    ]
    | inr (inr h) ↦ absurd ((decode-ne-fault b).1 h)
  ]
]

pub Attempt-cases :
    (a : Attempt)
    → ((m : Message) × (n : ℕ) × (a ≡ deliver m n))
      ⊎ (a ≡ read_more)
      ⊎ ((e : Received) × (a ≡ reject e))
Attempt-cases (deliver m n) = inl (m, n, refl)
Attempt-cases read_more = inr (inl refl)
Attempt-cases (reject e) = inr (inr (e, refl))

-- The end of a call on an open session.
record IsEnd (r : Received × TransportSessionState × List Read) : Type 0 where
  pub open_ : r.1.is_open ≡ keeps_open r.0
  pub emptied : (r.1.is_open ≡ true) ⊎ (r.1.recv_buffer ≡ [])
  pub bounded : length r.1.recv_buffer ≤ max_recv_buffer_size
  pub read : r.0 ≢ misread
  pub silent : r.0 ≢ closed_by_peer true

close-IsEnd :
    (e : Received) (s : TransportSessionState) (reads : List Read)
    → IsRefusal e
    → IsEnd (e, transport_close s, reads)
unfolding transport_close
close-IsEnd e s reads h = record {
  open_ = sym h.0;
  emptied = inr refl;
  bounded = omega arith;
  read = h.1;
  silent = h.2;
}

stay-IsEnd :
    (e : Received) (s : TransportSessionState) (reads : List Read)
    → s.is_open ≡ true
    → length s.recv_buffer ≤ max_recv_buffer_size
    → keeps_open e ≡ true
    → e ≢ misread
    → e ≢ closed_by_peer true
    → IsEnd (e, s, reads)
stay-IsEnd e s reads o h k n c = record {
  open_ = o ∙ sym k;
  emptied = inl o;
  bounded = h;
  read = n;
  silent = c;
}

pub loop_rejects :
    (with_error : Bool) (s : TransportSessionState) (reads : List Read) (x : Received)
    → attempt with_error s.recv_buffer ≡ reject x
    → receive_loop with_error s reads ≡ (x, transport_close s, reads)
unfolding receive_loop
loop_rejects w s [] x e = rw (receive_loop, e) refl
loop_rejects w s (r ∷ rs) x e = rw (receive_loop, e) refl

-- What is left to show is what happens when the loop reads.
settled-IsEnd :
    (with_error : Bool) (s : TransportSessionState) (reads : List Read)
    → s.is_open ≡ true
    → length s.recv_buffer ≤ max_recv_buffer_size
    → (attempt with_error s.recv_buffer ≡ read_more → IsEnd (receive_loop with_error s reads))
    → IsEnd (receive_loop with_error s reads)
settled-IsEnd w s reads o h more = elim (Attempt-cases (attempt w s.recv_buffer)) [
  | inl (m, n, e) ↦ subst IsEnd (sym (loop_delivers w s reads m n e)) (
      stay-IsEnd (message m) (with_buffer s (drop n s.recv_buffer)) reads o
        (omega (arith, length-drop n s.recv_buffer, h)) refl (λ k. cc) (λ k. cc))
  | inr (inl e) ↦ more e
  | inr (inr (x, e)) ↦ subst IsEnd (sym (loop_rejects w s reads x e)) (
      close-IsEnd x s reads (subst (IsSettled s.recv_buffer) e (attempt-IsSettled w s.recv_buffer)))
]

closed-IsEnd :
    (with_error : Bool) (s : TransportSessionState) (reads : List Read)
    → let closed = peer_has_closed with_error s in IsEnd (closed.0, closed.1, reads)
unfolding peer_has_closed transport_close
closed-IsEnd true s reads = record {
  open_ = refl;
  emptied = inr refl;
  bounded = omega arith;
  read = λ k. cc;
  silent = λ k. cc;
}
closed-IsEnd false s reads = record {
  open_ = refl;
  emptied = inr refl;
  bounded = omega arith;
  read = λ k. cc;
  silent = λ k. cc;
}

received-IsEnd :
    (with_error : Bool) (s : TransportSessionState) (c : List ℕ) (reads : List Read)
    → s.is_open ≡ true
    → length s.recv_buffer ≤ max_recv_buffer_size
    → attempt with_error s.recv_buffer ≡ read_more
    → (length (s.recv_buffer ++ c) ≤ max_recv_buffer_size
        → IsEnd (receive_loop with_error (append_chunk s c) reads))
    → IsEnd (receive_loop with_error s (received c ∷ reads))
unfolding receive_loop
received-IsEnd w s c reads o h e next =
    let to_read = min (max_recv_buffer_size - length s.recv_buffer) recv_chunk_size in
    elim (Bool-cases (ltb to_read (length c))) [
      | inl k ↦ rw (receive_loop, e, k) (stay-IsEnd overrun s reads o h refl (λ x. cc) (λ x. cc))
      | inr k ↦ elim (Bool-cases (length c == 0 && not s.is_tls)) [
        | inl z ↦ rw (receive_loop, e, k, z) (closed-IsEnd w s reads)
        | inr z ↦
            let fits : length c ≤ to_read = ground (arith, k) in
            rw (receive_loop, e, k, z)
              (next (omega (arith, length-append s.recv_buffer c, fits, h)))
      ]
    ]

receive_loop-IsEnd :
    (with_error : Bool) (reads : List Read) (s : TransportSessionState)
    → s.is_open ≡ true
    → length s.recv_buffer ≤ max_recv_buffer_size
    → IsEnd (receive_loop with_error s reads)
unfolding receive_loop
receive_loop-IsEnd w [] s o h =
    settled-IsEnd w s [] o h
      (λ e. rw (receive_loop, e) (stay-IsEnd blocked s [] o h refl (λ x. cc) (λ x. cc)))
receive_loop-IsEnd w (received c ∷ reads) s o h =
    settled-IsEnd w s (received c ∷ reads) o h
      (λ e. received-IsEnd w s c reads o h e (receive_loop-IsEnd w reads (append_chunk s c) o))
receive_loop-IsEnd w (peer_closed ∷ reads) s o h =
    settled-IsEnd w s (peer_closed ∷ reads) o h (λ e. rw (receive_loop, e) (closed-IsEnd w s reads))
receive_loop-IsEnd w (read_timed_out ∷ reads) s o h =
    settled-IsEnd w s (read_timed_out ∷ reads) o h
      (λ e. rw (receive_loop, e) (stay-IsEnd timed_out s reads o h refl (λ x. cc) (λ x. cc)))
receive_loop-IsEnd w (read_failed ∷ reads) s o h =
    settled-IsEnd w s (read_failed ∷ reads) o h
      (λ e. rw (receive_loop, e) (close-IsEnd failed s reads (refl, λ x. cc, λ x. cc)))

-- A call on an open session with at most 8192 bytes in its buffer, whatever the reads bring: the session
-- stays open exactly when the call returns a message, has timed out, still waits, or was given more
-- bytes than it asked for. Afterwards the buffer has at most 8192 bytes again, and none if the session
-- is closed. The call does not end in a read of a decoder outside its bytes, and does not say that the
-- peer has closed on an incomplete message.
pub receive_lem :
    (with_error : Bool) (s : TransportSessionState) (reads : List Read)
    → s.is_open ≡ true
    → length s.recv_buffer ≤ max_recv_buffer_size
    → let r = transport_receive with_error s reads in
      (r.1.is_open ≡ keeps_open r.0)
      × ((r.1.is_open ≡ true) ⊎ (r.1.recv_buffer ≡ []))
      × (length r.1.recv_buffer ≤ max_recv_buffer_size)
      × (r.0 ≢ misread)
      × (r.0 ≢ closed_by_peer true)
receive_lem w s reads o h =
    let end = receive_loop-IsEnd w reads s o h in
    rw (receive_open w s reads o) (end.open_, end.emptied, end.bounded, end.read, end.silent)
