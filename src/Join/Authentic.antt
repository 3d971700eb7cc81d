-- ===== src/Join/Authentic.antt =====
-- No impostor gets into the table by a message that asks to be taken in.
use madoka.Common.{◌≡◌, sym, true, Bool, Option, none, subst}
use madoka.Control.{ControlMessage}
use madoka.Kademlia.{NodeContact, KademliaTable, kademlia_insert}
use madoka.Kademlia.Contents.{Everywhere, insert-Everywhere}
use madoka.Join.{Digest, is_derived, dispatch_join_protocol_message}
use madoka.Join.Invariant.{dispatch-Keeps}

-- A contact whose id is the digest of its public key.
abbrev pub IsAuthentic : Digest → NodeContact → Type 0
IsAuthentic digest c = is_derived digest c.public_key c.id ≡ true

pub insert-IsAuthentic :
    (digest : Digest) (t : KademliaTable) (c : NodeContact)
    → IsAuthentic digest c
    → Everywhere (IsAuthentic digest) t
    → Everywhere (IsAuthentic digest) (kademlia_insert t c none).0
insert-IsAuthentic digest t c a h =
    insert-Everywhere (IsAuthentic digest) t c none a
      (λ old same k. subst (λ id. is_derived digest c.public_key id ≡ true) (sym same) a) h

-- In a table where every id is the digest of the public key of its contact, this stays so whatever
-- message of the join protocol is dispatched: neither a join request nor an announcement gets a
-- contact in, or changes the key of a known one, under an id that is not the digest of its key.
pub dispatch-IsAuthentic :
    (digest : Digest) (t : KademliaTable) (m : ControlMessage) (out_reply : Bool)
    (l : Option NodeContact) (admitted : Bool)
    → Everywhere (IsAuthentic digest) t
    → Everywhere
        (IsAuthentic digest)
        (dispatch_join_protocol_message digest t m out_reply l admitted).0
dispatch-IsAuthentic digest t m out_reply l admitted h =
    dispatch-Keeps digest (Everywhere (IsAuthentic digest)) (insert-IsAuthentic digest) t m
      out_reply l admitted h
