-- ===== src/Codec/RoundTrip.antt =====
-- The decoder against the encoder, on whole streams of bytes.
use madoka.Common.{
  ℕ, ◌+◌, ◌*◌, ◌/◌, ◌%◌, ◌≤◌, ◌≡◌, ◌≢◌, refl, true, List, [], ◌∷◌, ◌++◌, none, length, ap, arith,
  All, leb, ◌==◌, if◌then◌else◌, take, drop, length-append, take-append-drop, length-take,
}
use madoka.Bytes.{IsByte}
use madoka.Bytes.Slice.{ok, err, fault}
use madoka.Codec.{
  Message, message_validate, message_encode, message_decode, message_peek_size, max_payload_size,
  is_known_type, header_size, protocol_version, unsupported_version, unrecognized_type,
  payload_too_large, incomplete_buffer,
}

-- A valid message is encoded as its frame, of four bytes and the payload.
pub encode-valid :
    (m : Message)
    → message_validate m ≡ none
    → (message_encode m
        ≡ protocol_version
          ∷ m.type
          ∷ (length m.payload / 256)
          ∷ (length m.payload % 256)
          ∷ m.payload)
      × (length m.payload ≤ max_payload_size)
      × (is_known_type m.type ≡ true)
      × (m.version ≡ protocol_version)
unfolding message_encode message_validate
encode-valid m h = (ground arith, ground arith, ground arith, ground arith)

-- What the decoder makes of a buffer with a whole header.
decode-cons :
    (v t hi lo : ℕ) (body : List ℕ)
    → message_decode (v ∷ t ∷ hi ∷ lo ∷ body) ≡ (
        if v == protocol_version
        then if is_known_type t
          then if leb (hi * 256 + lo) max_payload_size
            then if leb (hi * 256 + lo) (length body)
              then ok (record { version = v; type = t; payload = take (hi * 256 + lo) body })
              else err (incomplete_buffer (4 + (hi * 256 + lo)) (length body + 4))
            else err (payload_too_large (hi * 256 + lo))
          else err (unrecognized_type t)
        else err (unsupported_version v))
unfolding message_decode
decode-cons v t hi lo body = ground arith

pub take-append_self : (xs ys : List ℕ) → take (length xs) (xs ++ ys) ≡ xs
take-append_self [] ys = refl
take-append_self (x ∷ xs) ys = ap (◌∷◌ x) (take-append_self xs ys)

-- A message that passes validation is read back from its frame, whatever follows on the stream,
-- and the peeked size is that of the frame.
pub decode-encode :
    (m : Message) (rest : List ℕ)
    → message_validate m ≡ none
    → (message_decode (message_encode m ++ rest) ≡ ok m)
      × (message_peek_size (message_encode m ++ rest) ≡ ok (length (message_encode m)))
unfolding message_peek_size
decode-encode m rest h =
    let (e, small, known, version) = encode-valid m h in
    (
      rw e (
          ground (
            arith,
            decode-cons protocol_version m.type (length m.payload / 256) (length m.payload % 256)
                (m.payload ++ rest),
            length-append m.payload rest,
            take-append_self m.payload rest,
          )),
      rw e (ground arith),
    )

-- The decoder accepts nothing but frames: what it returns for a buffer of bytes is a valid
-- message, and the buffer begins with the frame of that message.
pub decode-inv :
    (d : List ℕ) (m : Message)
    → All IsByte d
    → message_decode d ≡ ok m
    → (message_validate m ≡ none) × ((rest : List ℕ) × (d ≡ message_encode m ++ rest))
unfolding message_encode message_validate
decode-inv [] m b h = absurd (unfold message_decode in ground arith)
decode-inv (v ∷ []) m b h = absurd (unfold message_decode in ground arith)
decode-inv (v ∷ t ∷ []) m b h = absurd (unfold message_decode in ground arith)
decode-inv (v ∷ t ∷ hi ∷ []) m b h = absurd (unfold message_decode in ground arith)
decode-inv (v ∷ t ∷ hi ∷ lo ∷ body) m b h =
    let n = hi * 256 + lo in
    let split = take-append-drop n body in
    let size = length-take n body in
    (
      ground (arith, decode-cons v t hi lo body, size),
      (drop n body, ground (arith, decode-cons v t hi lo body, size, split)),
    )

-- Neither decoder reads outside the buffer, whatever the bytes.
pub decode-ne-fault : (d : List ℕ) → (message_decode d ≢ fault) × (message_peek_size d ≢ fault)
unfolding message_peek_size
decode-ne-fault [] = unfold message_decode in (λ h. ground arith, λ h. ground arith)
decode-ne-fault (v ∷ []) = unfold message_decode in (λ h. ground arith, λ h. ground arith)
decode-ne-fault (v ∷ t ∷ []) = unfold message_decode in (λ h. ground arith, λ h. ground arith)
decode-ne-fault (v ∷ t ∷ hi ∷ []) = unfold message_decode in (λ h. ground arith, λ h. ground arith)
decode-ne-fault (v ∷ t ∷ hi ∷ lo ∷ body) =
    (λ h. ground (arith, decode-cons v t hi lo body), λ h. ground arith)

-- A reader that waits for the peeked size gets a message: when the size is known and that many bytes
-- are there, decoding succeeds, and the size is that of the header and the message's payload.
decode-peeked :
    (d : List ℕ) (n : ℕ)
    → message_peek_size d ≡ ok n
    → n ≤ length d
    → (m : Message) × (message_decode d ≡ ok m) × (n ≡ header_size + length m.payload)
unfolding message_peek_size
decode-peeked [] n h k = absurd (ground arith)
decode-peeked (v ∷ []) n h k = absurd (ground arith)
decode-peeked (v ∷ t ∷ []) n h k = absurd (ground arith)
decode-peeked (v ∷ t ∷ hi ∷ []) n h k = absurd (ground arith)
decode-peeked (v ∷ t ∷ hi ∷ lo ∷ body) n h k =
    let size = hi * 256 + lo in
    (
      record { version = v; type = t; payload = take size body },
      ground (arith, decode-cons v t hi lo body),
      ground (arith, length-take size body),
    )

-- Whatever decodes has a peeked size, that of the header and the message's payload, and the buffer
-- covers it.
pub peek-decoded :
    (d : List ℕ) (m : Message)
    → message_decode d ≡ ok m
    → (message_peek_size d ≡ ok (header_size + length m.payload))
      × (header_size + length m.payload ≤ length d)
unfolding message_peek_size
peek-decoded [] m h = absurd (unfold message_decode in ground arith)
peek-decoded (v ∷ []) m h = absurd (unfold message_decode in ground arith)
peek-decoded (v ∷ t ∷ []) m h = absurd (unfold message_decode in ground arith)
peek-decoded (v ∷ t ∷ hi ∷ []) m h = absurd (unfold message_decode in ground arith)
peek-decoded (v ∷ t ∷ hi ∷ lo ∷ body) m h =
    let size = hi * 256 + lo in
    let facts = decode-cons v t hi lo body in
    let taken = length-take size body in
    (ground (arith, facts, taken), ground (arith, facts, taken))
