-- ===== src/Session/Delivery.antt =====
-- A session hands out the messages of its stream, however the stream is cut into reads.
use madoka.Common.{
  ℕ, zero, suc, ◌-◌, ◌≤◌, ◌<◌, ◌≡◌, refl, ap, sym, ◌∙◌, Bool, true, false, List, [], ◌∷◌, ◌++◌,
  none, arith, length, length-append, take, drop, ltb, leb, ◌==◌, min, ltb_of_le, leb_of_le,
  leb_of_lt, Bool-cases, inl, inr, All, map,
}
use madoka.Bytes.Slice.{ok}
use madoka.Packet.RoundTrip.{append-nil}
use madoka.Wire.Contact.RoundTrip.{append_assoc}
use madoka.Codec.{
  Message, message_validate, message_encode, message_decode, message_peek_size, header_size,
  max_message_size,
}
use madoka.Codec.RoundTrip.{encode-valid, decode-encode}
use madoka.Session.{
  TransportSessionState, Read, received, Received, message, deliver, read_more, take_message,
  attempt, append_chunk, receive_loop, transport_receive, recv_chunk_size, max_recv_buffer_size,
}

-- The peeked size is in the header.
pub peek-append : (b c : List ℕ) → 4 ≤ length b → message_peek_size (b ++ c) ≡ message_peek_size b
unfolding message_peek_size
peek-append [] c h = absurd (omega arith)
peek-append (v ∷ []) c h = absurd (omega arith)
peek-append (v ∷ t ∷ []) c h = absurd (omega arith)
peek-append (v ∷ t ∷ hi ∷ []) c h = absurd (omega arith)
peek-append (v ∷ t ∷ hi ∷ lo ∷ body) c h = ground arith

-- Of two ways to cut one list, the longer front begins with the shorter one.
split_front :
    (e b c r : List ℕ)
    → b ++ c ≡ e ++ r
    → length e ≤ length b
    → (take (length e) b ≡ e) × (drop (length e) b ++ c ≡ r)
split_front [] b c r h k = (refl, h)
split_front (x ∷ e) [] c r h k = absurd (omega arith)
split_front (x ∷ e) (y ∷ b) c r h k =
    let (front, back) = split_front e b c r (ap (drop 1) h) (omega (arith, k)) in
    (cc (h, front), back)

frame_size :
    (m : Message)
    → message_validate m ≡ none
    → (4 ≤ length (message_encode m)) × (length (message_encode m) ≤ max_message_size)
frame_size m h = let (e, small, _, _) = encode-valid m h in rw e (omega arith, omega (arith, small))

module _ (with_error : Bool) (m : Message) (valid : message_validate m ≡ none) where
  -- The whole frame is in the buffer: its message is delivered.
  attempt-whole :
      (b c rest : List ℕ)
      → b ++ c ≡ message_encode m ++ rest
      → length (message_encode m) ≤ length b
      → attempt with_error b ≡ deliver m (length (message_encode m))
  unfolding attempt take_message
  attempt-whole b c rest h k =
      let n = length (message_encode m) in
      let (low, high) = frame_size m valid in
      let peeked : message_peek_size b ≡ ok n =
        sym (peek-append b c (omega (arith, low, k)))
        ∙ ap message_peek_size h
        ∙ (decode-encode m rest valid).1 in
      let front = (split_front (message_encode m) b c rest h k).0 in
      let decoded : message_decode (take n b) ≡ ok m =
        ap message_decode (front ∙ sym (append-nil (message_encode m)))
        ∙ (decode-encode m [] valid).0 in
      let header : leb 4 (length b) ≡ true = leb_of_le (omega (arith, low, k)) in
      let fits : ltb max_message_size n ≡ false = ltb_of_le high in
      let whole : leb n (length b) ≡ true = leb_of_le k in
      rw (header, peeked, fits, whole, decoded) refl

  -- A part of it is: the loop reads on.
  attempt-part :
      (b c rest : List ℕ)
      → b ++ c ≡ message_encode m ++ rest
      → length b < length (message_encode m)
      → attempt with_error b ≡ read_more
  unfolding attempt take_message
  attempt-part b c rest h k =
      let n = length (message_encode m) in
      let (low, high) = frame_size m valid in
      let room : leb max_recv_buffer_size (length b) ≡ false = leb_of_lt (omega (arith, high, k)) in
      elim (Bool-cases (leb header_size (length b))) [
        | inr e ↦ rw (e, room) refl
        | inl e ↦
            let peeked : message_peek_size b ≡ ok n =
              sym (peek-append b c (ground (arith, e)))
              ∙ ap message_peek_size h
              ∙ (decode-encode m rest valid).1 in
            let fits : ltb max_message_size n ≡ false = ltb_of_le high in
            let part : leb n (length b) ≡ false = leb_of_lt k in
            rw (e, peeked, fits, part, room) refl
      ]

-- What a read returns that has bytes: at least one, and no more than it was asked for.
abbrev pub IsChunk : List ℕ → Type 0
IsChunk c = (1 ≤ length c) × (length c ≤ recv_chunk_size)

abbrev pub flatten : List (List ℕ) → List ℕ
flatten [] = []
flatten (c ∷ cs) = c ++ flatten cs

-- The session with another buffer, before reads that bring these chunks.
abbrev pub with_buffer : TransportSessionState → List ℕ → TransportSessionState
with_buffer s b = record s { recv_buffer = b }

pub loop_delivers :
    (with_error : Bool) (s : TransportSessionState) (reads : List Read) (m : Message) (n : ℕ)
    → attempt with_error s.recv_buffer ≡ deliver m n
    → receive_loop with_error s reads ≡ (message m, with_buffer s (drop n s.recv_buffer), reads)
unfolding receive_loop
loop_delivers w s [] m n e = rw (receive_loop, e) refl
loop_delivers w s (r ∷ rs) m n e = rw (receive_loop, e) refl

loop_reads :
    (with_error : Bool) (s : TransportSessionState) (c : List ℕ) (reads : List Read)
    → attempt with_error s.recv_buffer ≡ read_more
    → length s.recv_buffer < max_message_size
    → IsChunk c
    → receive_loop with_error s (received c ∷ reads)
      ≡ receive_loop with_error (append_chunk s c) reads
unfolding receive_loop
loop_reads w s c reads e short h =
    let fits : ltb (min (max_recv_buffer_size - length s.recv_buffer) 1024) (length c) ≡ false =
      ltb_of_le (omega (arith, short, h.1)) in
    let some_bytes : (length c == 0) ≡ false = ground (arith, h.0) in
    rw (receive_loop, e, fits, some_bytes) refl

-- What is left after a message: a buffer and chunks, which together hold what follows its frame.
record Delivered (with_error : Bool) (m : Message) (rest : List ℕ) (chunks : List (List ℕ))
    (s : TransportSessionState) : Type 0 where
  pub buffer : List ℕ
  pub left : List (List ℕ)
  pub outcome :
      receive_loop with_error s (map received chunks)
      ≡ (message m, with_buffer s buffer, map received left)
  pub follows : buffer ++ flatten left ≡ rest
  pub chunked : All IsChunk left

receive_loop-next :
    (with_error : Bool) (m : Message) (rest : List ℕ) (chunks : List (List ℕ))
    (s : TransportSessionState)
    → message_validate m ≡ none
    → All IsChunk chunks
    → s.recv_buffer ++ flatten chunks ≡ message_encode m ++ rest
    → Delivered with_error m rest chunks s
receive_loop-next w m rest [] s valid h e =
    let n = length (message_encode m) in
    let size = ap length e in
    let long : n ≤ length s.recv_buffer =
      omega (arith, size, length-append s.recv_buffer [], length-append (message_encode m) rest) in
    record {
      buffer = drop n s.recv_buffer;
      left = [];
      outcome = loop_delivers w s [] m n (attempt-whole w m valid s.recv_buffer [] rest e long);
      follows = (split_front (message_encode m) s.recv_buffer [] rest e long).1;
      chunked = tt;
    }
receive_loop-next w m rest (c ∷ cs) s valid h e =
    let n = length (message_encode m) in
    elim (Bool-cases (leb n (length s.recv_buffer))) [
      | inl k ↦
          let long : n ≤ length s.recv_buffer = ground (arith, k) in
          record {
            buffer = drop n s.recv_buffer;
            left = c ∷ cs;
            outcome =
                loop_delivers w s (map received (c ∷ cs)) m n
                  (attempt-whole w m valid s.recv_buffer (c ++ flatten cs) rest e long);
            follows =
                (split_front (message_encode m) s.recv_buffer (c ++ flatten cs) rest e long).1;
            chunked = h;
          }
      | inr k ↦
          let short : length s.recv_buffer < n = ground (arith, k) in
          let small = (frame_size m valid).1 in
          let next =
            receive_loop-next w m rest cs (append_chunk s c) valid h.1
              (append_assoc s.recv_buffer c (flatten cs) ∙ e) in
          record {
            buffer = next.buffer;
            left = next.left;
            outcome =
                loop_reads w s c (map received cs)
                  (attempt-part w m valid s.recv_buffer (c ++ flatten cs) rest e short)
                  (omega (arith, small, short)) h.0
                ∙ next.outcome;
            follows = next.follows;
            chunked = next.chunked;
          }
    ]

-- A caller that receives so many times: what the calls return, the session, the reads that are left.
unfoldable pub receive_times :
    (with_error : Bool)
    → ℕ
    → TransportSessionState
    → List Read
    → List Received × TransportSessionState × List Read
unfolding transport_receive
receive_times with_error zero s reads = ([], s, reads)
receive_times with_error (suc n) s reads =
    let r = transport_receive with_error s reads in
    let rest = receive_times with_error n r.1 r.2 in (r.0 ∷ rest.0, rest.1, rest.2)

-- The frames of messages, one behind the other.
abbrev pub frames : List Message → List ℕ
frames [] = []
frames (m ∷ ms) = message_encode m ++ frames ms

abbrev pub IsValidMessage : Message → Type 0
IsValidMessage m = message_validate m ≡ none

pub receive_open :
    (with_error : Bool) (s : TransportSessionState) (reads : List Read)
    → s.is_open ≡ true
    → transport_receive with_error s reads ≡ receive_loop with_error s reads
unfolding transport_receive
receive_open w s reads open_ = ground (arith, open_)

receive_once :
    (with_error : Bool) (n : ℕ) (s : TransportSessionState) (reads : List Read) (m : Message)
    (b : List ℕ) (left : List Read)
    → s.is_open ≡ true
    → receive_loop with_error s reads ≡ (message m, with_buffer s b, left)
    → let rest = receive_times with_error n (with_buffer s b) left in
      receive_times with_error (suc n) s reads ≡ (message m ∷ rest.0, rest.1, rest.2)
unfolding receive_times
receive_once w n s reads m b left open_ e =
    ap
      (λ (r : Received × TransportSessionState × List Read). (
        r.0 ∷ (receive_times w n r.1 r.2).0,
        (receive_times w n r.1 r.2).1,
        (receive_times w n r.1 r.2).2,
      ))
      (receive_open w s reads open_ ∙ e)

-- The buffer of an open session and the reads that come, each of 1 to 1024 bytes, are together the
-- frames of valid messages and then any bytes. Then as many calls as there are messages return the
-- messages, in order, however the bytes are cut into reads; the session stays open, and what it has
-- in its buffer and the reads that are left are together the bytes behind the frames.
pub stream_delivered :
    (with_error : Bool) (ms : List Message) (tail : List ℕ) (chunks : List (List ℕ))
    (s : TransportSessionState)
    → s.is_open ≡ true
    → All IsValidMessage ms
    → All IsChunk chunks
    → s.recv_buffer ++ flatten chunks ≡ frames ms ++ tail
    → (b : List ℕ) × (left : List (List ℕ)) × (receive_times with_error
          (length ms)
          s
          (map received chunks)
        ≡ (map message ms, record s { recv_buffer = b }, map received left))
      × (b ++ flatten left ≡ tail)
unfolding receive_times
stream_delivered w [] tail chunks s open_ valid h e = (s.recv_buffer, chunks, refl, e)
stream_delivered w (m ∷ ms) tail chunks s open_ valid h e =
    let first =
      receive_loop-next w m (frames ms ++ tail) chunks s valid.0 h
        (e ∙ append_assoc (message_encode m) (frames ms) tail) in
    let (b, left, same, rest) =
      stream_delivered w ms tail first.left (with_buffer s first.buffer) open_ valid.1 first.chunked
        first.follows in
    (
      b,
      left,
      receive_once w (length ms) s (map received chunks) m first.buffer (map received first.left)
            open_ first.outcome
          ∙ ap
              (λ (r : List Received × TransportSessionState × List Read).
                (message m ∷ r.0, r.1, r.2))
              same,
      rest,
    )
