-- ===== src/Wire/Contact/RoundTrip.antt =====
-- Contacts are read back from their bytes, whatever follows them.
use madoka.Common.{
  ℕ, ◌+◌, ◌%◌, ◌^◌, ◌≤◌, ◌≡◌, refl, ap, sym, ◌∙◌, subst, false, List, [], ◌∷◌, ◌++◌, arith, length,
  length-append, ltb, leb, ltb_of_le, leb_of_lt, All,
}
use madoka.Bytes.{IsU32, IsU64}
use madoka.Bytes.Slice.{ok, Rest, Rest-start, Rest-next, slice-Rest, subspan-Rest}
use madoka.Bytes.Words.{
  write_u16_be, write_u32_be, write_u64_be, read_u16_be-Rest, read_u32_be-Rest, read_u64_be-Rest,
  byte_at-Rest,
}
use madoka.Packet.RoundTrip.{append-nil}
use madoka.Kademlia.{NodeContact}
use madoka.Wire.Contact.{
  max_contact_endpoint_size, JoinWireError, serialize_node_contact, deserialize_node_contact,
  append_contacts, read_contacts,
}

-- The sizes of the fields of a contact that fits its format.
pub record FitsWire (c : NodeContact) : Type 0 where
  pub id : length c.id ≡ 32
  pub public_key : length c.public_key ≡ 32
  pub virtual_address : length c.virtual_address ≡ 16
  pub endpoint : length c.endpoint ≤ max_contact_endpoint_size
  pub last_seen_ms : IsU64 c.last_seen_ms
  pub rtt_ms : IsU32 c.rtt_ms

pub append_assoc : (xs ys zs : List ℕ) → (xs ++ ys) ++ zs ≡ xs ++ (ys ++ zs)
append_assoc [] ys zs = refl
append_assoc (x ∷ xs) ys zs = ap (◌∷◌ x) (append_assoc xs ys zs)

-- The bytes of a contact that fits, with a rest behind them.
abbrev fields : NodeContact → List ℕ → List ℕ
fields c rest =
    c.id
    ++ (c.public_key
        ++ (c.virtual_address
            ++ (write_u16_be (length c.endpoint)
                ++ (c.endpoint
                    ++ (write_u64_be c.last_seen_ms
                        ++ (write_u32_be c.rtt_ms ++ (c.failed_pings ∷ rest)))))))

serialize-fields :
    (c : NodeContact) (rest : List ℕ)
    → FitsWire c
    → serialize_node_contact c ++ rest ≡ fields c rest
unfolding serialize_node_contact
serialize-fields c rest f =
    let small : ltb 255 (length c.endpoint) ≡ false = ltb_of_le f.endpoint in
    let word : length c.endpoint % 2 ^ 16 ≡ length c.endpoint = omega (arith, f.endpoint) in
    rw
      (
        small,
        word,
        append_assoc c.id,
        append_assoc c.public_key,
        append_assoc c.virtual_address,
        append_assoc (write_u16_be (length c.endpoint)),
        append_assoc c.endpoint,
        append_assoc (write_u64_be c.last_seen_ms),
        append_assoc (write_u32_be c.rtt_ms),
      )
      refl

contact-layout :
    (c : NodeContact) (d rest : List ℕ)
    → FitsWire c
    → Rest d 0 (fields c rest)
    → deserialize_node_contact d ≡ ok (c, 95 + length c.endpoint)
unfolding deserialize_node_contact
contact-layout c d rest f r0 =
    let n = length c.endpoint in
    let r32 = Rest-next d 0 32 c.id _ r0 f.id in
    let r64 = Rest-next d 32 32 c.public_key _ r32 f.public_key in
    let r80 = Rest-next d 64 16 c.virtual_address _ r64 f.virtual_address in
    let r82 = Rest-next d 80 2 (write_u16_be n) _ r80 (unfold write_u16_be in refl) in
    let re = Rest-next d 82 n c.endpoint _ r82 refl in
    let r8 =
      Rest-next d (82 + n) 8 (write_u64_be c.last_seen_ms) _ re (unfold write_u64_be in refl) in
    let r12 =
      Rest-next d (82 + n + 8) 4 (write_u32_be c.rtt_ms) _ r8 (unfold write_u32_be in refl) in
    let small : ltb 255 n ≡ false = ltb_of_le f.endpoint in
    let whole : ltb (length d) 95 ≡ false = ltb_of_le (omega (arith, r12.1)) in
    let fits : ltb (length d) (95 + n) ≡ false = ltb_of_le (omega (arith, r12.1)) in
    rw
      (
        whole,
        read_u16_be-Rest d 80 n _ (omega (arith, f.endpoint)) r80,
        small,
        fits,
        slice-Rest d 0 32 c.id _ r0 f.id,
        slice-Rest d 32 32 c.public_key _ r32 f.public_key,
        slice-Rest d 64 16 c.virtual_address _ r64 f.virtual_address,
        slice-Rest d 82 n c.endpoint _ r82 refl,
        read_u64_be-Rest d (82 + n) c.last_seen_ms _ f.last_seen_ms re,
        read_u32_be-Rest d (82 + n + 8) c.rtt_ms _ f.rtt_ms r8,
        byte_at-Rest d (82 + n + 8 + 4) c.failed_pings _ r12,
      )
      refl

pub length-serialize_contact :
    (c : NodeContact) → FitsWire c → length (serialize_node_contact c) ≡ 95 + length c.endpoint
unfolding serialize_node_contact
length-serialize_contact c f =
    let small : ltb 255 (length c.endpoint) ≡ false = ltb_of_le f.endpoint in
    rw
      (
        small,
        length-append c.id,
        length-append c.public_key,
        length-append c.virtual_address,
        length-append c.endpoint,
        f.id,
        f.public_key,
        f.virtual_address,
      )
      (omega arith)

-- A contact whose fields fit the format is read back from the front of a buffer, with the number of
-- bytes that were written for it, whatever follows them.
pub deserialize_contact-serialize :
    (c : NodeContact) (rest : List ℕ)
    → FitsWire c
    → deserialize_node_contact (serialize_node_contact c ++ rest)
      ≡ ok (c, length (serialize_node_contact c))
deserialize_contact-serialize c rest f =
    rw (length-serialize_contact c f, serialize-fields c rest f)
      (contact-layout c (fields c rest) rest f (Rest-start _))

-- The bytes of the contacts of a list, one behind the other.
abbrev pub contacts_bytes : List NodeContact → List ℕ
contacts_bytes [] = []
contacts_bytes (c ∷ cs) = serialize_node_contact c ++ contacts_bytes cs

-- A step of the loop, on a contact that has bytes.
append_contact :
    (buf bytes : List ℕ) (cs : List NodeContact)
    → 1 ≤ length bytes
    → (elim bytes [ [] ↦ [] | b ∷ bs ↦ append_contacts (buf ++ b ∷ bs) cs ])
      ≡ append_contacts (buf ++ bytes) cs
append_contact buf [] cs h = absurd (omega arith)
append_contact buf (b ∷ bs) cs h = refl

pub append_contacts-bytes :
    (buf : List ℕ) (cs : List NodeContact)
    → All FitsWire cs
    → append_contacts buf cs ≡ buf ++ contacts_bytes cs
unfolding append_contacts
append_contacts-bytes buf [] h = sym (append-nil buf)
append_contacts-bytes buf (c ∷ cs) h =
    append_contact buf (serialize_node_contact c) cs (omega (arith, length-serialize_contact c h.0))
    ∙ append_contacts-bytes (buf ++ serialize_node_contact c) cs h.1
    ∙ append_assoc buf (serialize_node_contact c) (contacts_bytes cs)

pub read_contacts-Rest :
    (e : JoinWireError) (cs : List NodeContact) (d rest : List ℕ) (off : ℕ)
    → All FitsWire cs
    → Rest d off (contacts_bytes cs ++ rest)
    → read_contacts e (length cs) d off ≡ ok (cs, off + length (contacts_bytes cs))
unfolding read_contacts
read_contacts-Rest e [] d rest off h r0 = ap (λ n. ok ([], n)) (omega arith)
read_contacts-Rest e (c ∷ cs) d rest off h r0 =
    let bytes = serialize_node_contact c in
    let size = length-serialize_contact c h.0 in
    let r1 : Rest d off (bytes ++ (contacts_bytes cs ++ rest)) =
      subst (Rest d off) (append_assoc bytes (contacts_bytes cs) rest) r0 in
    let r2 = Rest-next d off (length bytes) bytes _ r1 refl in
    let more : leb (length d) off ≡ false = leb_of_lt (omega (arith, r2.1, size)) in
    rw
      (
        more,
        subspan-Rest d off _ r1,
        deserialize_contact-serialize c (contacts_bytes cs ++ rest) h.0,
        read_contacts-Rest e cs d rest (off + length bytes) h.1 r2,
      )
      (ap (λ n. ok (c ∷ cs, n)) (omega (arith, length-append bytes (contacts_bytes cs))))
