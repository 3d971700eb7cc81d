-- ===== src/Packet/Reading.antt =====
-- The fields that the reader of data packets reads, and the packet that it makes of them.
use madoka.Common.{
  All-take, All-drop, ℕ, ◌+◌, ◌≤◌, ◌≡◌, ◌≢◌, refl, true, List, [], ◌∷◌, ◌++◌, length, ltb, sym, ap,
  ◌∙◌, arith, All, leb, ◌==◌, ◌||◌, not, if◌then◌else◌, take, drop, ◌⊎◌, ==_iff, length-drop,
  Bool-cases, ltb_of_le, inl, inr,
}
use madoka.Bytes.{IsByte, IsU32, IsU64}
use madoka.Bytes.Slice.{
  ok-injective, ok, err, slice, drop-split, byte_at, slice-eq, length-take-drop,
}
use madoka.Bytes.Words.{write_u32_be, write_u64_be, read_u32_be, read_u64_be}
use madoka.Bytes.Unwrite.{read_u32_be-inv, expose}
use madoka.Bytes.Unwrite64.{read_u64_be-inv}
use madoka.Packet.{DataPacket, invalid, type_byte}
use madoka.Packet.Serial.{
  serialize_packet, deserialize_packet, packet_type_of, max_data_payload_limit, bool_byte,
  PacketError, buffer_too_small, data_packet_header_size, truncated_payload, trailing_bytes,
  payload_too_large, unrecognized_type,
}
use madoka.Packet.RoundTrip.{IsPacket, serialize-layout}

byte_at-split :
    (d : List ℕ) (off b : ℕ) (r : List ℕ)
    → drop off d ≡ b ∷ r
    → byte_at {E = PacketError} d off ≡ ok b
unfolding byte_at
byte_at-split d off b r h = rw h refl

abbrev packet_of : List ℕ → ℕ → ℕ → ℕ → ℕ → ℕ → ℕ → DataPacket
packet_of d t len id ttl a seq = record {
  type = packet_type_of t;
  source = take 32 (drop 1 d);
  destination = take 32 (drop 33 d);
  packet_id = id;
  ttl = ttl;
  requires_ack = not (a == 0);
  sequence_number = seq;
  payload = take len (drop 83 d);
}

le_of_leb : (a b : ℕ) → leb a b ≡ true → a ≤ b
le_of_leb a b h = ground arith

le_of_== : (a b : ℕ) → (a == b) ≡ true → b ≤ a
le_of_== a b h = ground arith

known_type_le : (t : ℕ) → (t == 0 || t == 1) ≡ true → t ≤ 1
known_type_le t h = ground arith

type_byte-type_of : (b : ℕ) → b ≤ 1 → type_byte (packet_type_of b) ≡ b
unfolding type_byte packet_type_of
type_byte-type_of b h = ground arith

type_of-ne-invalid : (b : ℕ) → packet_type_of b ≢ invalid
unfolding packet_type_of
type_of-ne-invalid b e = ground arith

bool_byte-of : (b : ℕ) → b ≤ 1 → bool_byte (not (b == 0)) ≡ b
bool_byte-of b h = ground arith

eq_of_nil : (xs : List ℕ) → length xs ≡ 0 → xs ≡ []
eq_of_nil [] h = refl
eq_of_nil (x ∷ xs) h = absurd (omega arith)

-- What is read from a buffer of at least a header, whose fields are given.
module _ (d : List ℕ) (t len id ttl a seq : ℕ) (et : byte_at {E = PacketError} d 0 ≡ ok t)
    (elen : read_u32_be {E = PacketError} d 79 ≡ ok len)
    (eid : read_u64_be {E = PacketError} d 65 ≡ ok id)
    (ettl : byte_at {E = PacketError} d 73 ≡ ok ttl) (ea : byte_at {E = PacketError} d 74 ≡ ok a)
    (eseq : read_u32_be {E = PacketError} d 75 ≡ ok seq)
    (esource : slice {E = PacketError} d 1 32 ≡ ok (take 32 (drop 1 d)))
    (edest : slice {E = PacketError} d 33 32 ≡ ok (take 32 (drop 33 d)))
    (epayload : 83 + len ≤ length d
      → slice {E = PacketError} d 83 len ≡ ok (take len (drop 83 d))) where
  -- The reader answers an error, or every check has passed.
  read_cases :
      83 ≤ length d
      → ((e : PacketError) × (deserialize_packet d ≡ err e))
        ⊎ ((t ≤ 1)
            × (len ≤ max_data_payload_limit)
            × (length d ≡ 83 + len)
            × (deserialize_packet d ≡ ok (packet_of d t len id ttl a seq)))
  unfolding deserialize_packet
  read_cases h =
      let whole : not (ltb (length d) 83) ≡ true = ap not (ltb_of_le h) in
      elim (Bool-cases (t == 0 || t == 1)) [
        | inl known ↦ elim (Bool-cases (leb len max_data_payload_limit)) [
          | inl small ↦ elim (Bool-cases (length d == 83 + len)) [
            | inl exact ↦ inr (
              known_type_le t known,
              le_of_leb len _ small,
              (==_iff _ _).0 exact,
              rw
                  (
                    whole,
                    et,
                    known,
                    elen,
                    small,
                    exact,
                    esource,
                    edest,
                    eid,
                    ettl,
                    ea,
                    eseq,
                    epayload (le_of_== _ _ exact),
                  )
                  refl,
            )
            | inr exact ↦ inl (
              if ltb (length d) (data_packet_header_size + len)
                  then truncated_payload
                  else trailing_bytes,
              rw (whole, et, known, elen, small, exact) refl,
            )
          ]
          | inr small ↦ inl (payload_too_large, rw (whole, et, known, elen, small) refl)
        ]
        | inr known ↦ inl (unrecognized_type, rw (whole, et, known) refl)
      ]

  rewritten :
      t ≤ 1
      → len ≤ max_data_payload_limit
      → length d ≡ 83 + len
      → (drop 0 d ≡ t ∷ drop 1 d)
      → (drop 65 d ≡ write_u64_be id ++ drop 73 d)
      → (drop 73 d ≡ ttl ∷ drop 74 d)
      → (drop 74 d ≡ a ∷ drop 75 d)
      → (drop 75 d ≡ write_u32_be seq ++ drop 79 d)
      → (drop 79 d ≡ write_u32_be len ++ drop 83 d)
      → a ≡ bool_byte (not (a == 0))
      → serialize_packet (packet_of d t len id ttl a seq) ≡ d
  rewritten known small exact s0 s65 s73 s74 s75 s79 low =
      let size : length (take len (drop 83 d)) ≡ len =
        length-take-drop d 83 len (omega (arith, exact)) in
      let end : drop (83 + len) d ≡ [] =
        eq_of_nil _ (omega (arith, length-drop (83 + len) d, exact)) in
      let body : drop 83 d ≡ take len (drop 83 d) ++ [] =
        drop-split d 83 len ∙ ap (λ (r : List ℕ). take len (drop 83 d) ++ r) end in
      let tail : drop 73 d
          ≡ ttl ∷ a ∷ (write_u32_be seq ++ (write_u32_be len ++ (take len (drop 83 d) ++ []))) =
        s73
        ∙ ap (λ (r : List ℕ). ttl ∷ r)
            (s74
              ∙ ap (λ (r : List ℕ). a ∷ r)
                  (s75
                    ∙ ap (λ (r : List ℕ). write_u32_be seq ++ r)
                        (s79 ∙ ap (λ (r : List ℕ). write_u32_be len ++ r) body))) in
      rw
        (
          serialize-layout (packet_of d t len id ttl a seq) (omega (arith, size, small)),
          type_byte-type_of t known,
          ← low,
          size,
        )
        (sym (
          s0
          ∙ ap (λ (r : List ℕ). t ∷ r)
              (drop-split d 1 32
                ∙ ap (λ (r : List ℕ). take 32 (drop 1 d) ++ r)
                    (drop-split d 33 32
                      ∙ ap (λ (r : List ℕ). take 32 (drop 33 d) ++ r)
                          (s65 ∙ ap (λ (r : List ℕ). write_u64_be id ++ r) tail)))))

  -- The packet that is built has fields in range.
  rebuilt-IsPacket :
      All IsByte d
      → len ≤ max_data_payload_limit
      → length d ≡ 83 + len
      → IsU64 id × IsByte ttl × IsU32 seq
      → IsPacket (packet_of d t len id ttl a seq)
  rebuilt-IsPacket bytes small exact fits =
      let size : length (take len (drop 83 d)) ≡ len =
        length-take-drop d 83 len (omega (arith, exact)) in
      record {
        sound_type = type_of-ne-invalid t;
        source = (
          length-take-drop d 1 32 (omega (arith, exact)),
          All-take IsByte 32 _ (All-drop IsByte 1 d bytes),
        );
        destination = (
          length-take-drop d 33 32 (omega (arith, exact)),
          All-take IsByte 32 _ (All-drop IsByte 33 d bytes),
        );
        packet_id = fits.0;
        ttl = fits.1;
        sequence_number = fits.2;
        payload = (rw size small, All-take IsByte len _ (All-drop IsByte 83 d bytes));
      }

-- What a buffer of bytes is read as.
abbrev pub Reading : List ℕ → Type 0
Reading d =
    ((e : PacketError) × (deserialize_packet d ≡ err e))
    ⊎ ((p : DataPacket) × (deserialize_packet d ≡ ok p)
        × IsPacket p
        × (length d ≡ 83 + length p.payload)
        × (byte_at {E = PacketError} d 74 ≡ ok (bool_byte p.requires_ack) → serialize_packet p ≡ d))

Reading-whole : (d : List ℕ) → All IsByte d → 83 ≤ length d → Reading d
Reading-whole d bytes h =
    let (t, t8, s0) = expose d 0 (omega arith) bytes in
    let (len, len32, elen, s79) = read_u32_be-inv {E = PacketError} d 79 (omega arith) bytes in
    let (id, id64, eid, s65) = read_u64_be-inv {E = PacketError} d 65 (omega arith) bytes in
    let (ttl, ttl8, s73) = expose d 73 (omega arith) bytes in
    let (a, a8, s74) = expose d 74 (omega arith) bytes in
    let (seq, seq32, eseq, s75) = read_u32_be-inv {E = PacketError} d 75 (omega arith) bytes in
    let et = byte_at-split d 0 t _ s0 in
    let ettl = byte_at-split d 73 ttl _ s73 in
    let ea = byte_at-split d 74 a _ s74 in
    let esource = slice-eq {E = PacketError} d 1 32 (omega arith) in
    let edest = slice-eq {E = PacketError} d 33 32 (omega arith) in
    let epayload : 83 + len ≤ length d
        → slice {E = PacketError} d 83 len ≡ ok (take len (drop 83 d)) =
      λ r. slice-eq {E = PacketError} d 83 len r in
    elim (read_cases d t len id ttl a seq et elen eid ettl ea eseq esource edest epayload h) [
      | inl e ↦ inl e
      | inr (known, small, exact, read) ↦ inr (
        packet_of d t len id ttl a seq,
        read,
        rebuilt-IsPacket d t len id ttl a seq et elen eid ettl ea eseq esource edest epayload bytes
            small exact (id64, ttl8, seq32),
        exact ∙ ap (◌+◌ 83) (sym (length-take-drop d 83 len (omega (arith, exact)))),
        λ low.
            rewritten d t len id ttl a seq et elen eid ettl ea eseq esource edest epayload known
              small exact s0 s65 s73 s74 s75 s79
              (ok-injective {E = PacketError} _ _ (sym ea ∙ low)),
      )
    ]

pub reading : (d : List ℕ) → All IsByte d → Reading d
unfolding deserialize_packet
reading d bytes = elim (Bool-cases (ltb (length d) 83)) [
  | inl short ↦ inl (buffer_too_small, rw short refl)
  | inr whole ↦ Reading-whole d bytes (ground arith)
]
