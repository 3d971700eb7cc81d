-- ===== src/Trust/Tests.antt =====
-- Concrete trusted peers, and the theorems on them.
use madoka.Common.{
  ℕ, ◌+◌, ◌<◌, ◌≤◌, ◌≡◌, ◌≢◌, refl, true, false, List, [], ◌∷◌, ◌++◌, none, some, arith, length,
  replicate, if◌then◌else◌, any_of,
}
use madoka.Bytes.{NodeId, bytes_eq, node_id_less, zero_address, virtual_address, IsU64, IPv6}
use madoka.Config.Text.{parse_port, from_chars, read_digits}
use madoka.Config.Endpoint.{InetPton, parse_endpoint, parse_plain, rfind_char, with_port, c_str}
use madoka.Keyed.{find_key}
use madoka.Join.{Digest, is_derived}
use madoka.Trust.{
  TrustedPeer, TrustState, peer_id, trust_find, trust_add, trust_address_available, valid_endpoint,
  valid_identity_binding, lower_bound,
}
use madoka.Trust.Table.{Ascending, trust_find-find_key, trust_add-find}
use madoka.Trust.Limit.{trust_add_past_limit}
use madoka.Trust.Base64.{
  base64url_encode, base64url_decode, encode_loop, decode_loop, push_chars, alphabet_at, value_of,
}
use madoka.Trust.Base64.RoundTrip.{base64url_decode-encode}
use madoka.Trust.Invite.{
  InviteTicket, ticket, is_not_local, invite_generate, invite_encode, invite_generate-encode,
}

abbrev same_digest : Digest
same_digest key = some key

abbrev accepts_all : InetPton
accepts_all text = true

abbrev id_of : ℕ → NodeId
id_of n = n ∷ replicate 31 0

-- "1:2" is its endpoint.
abbrev peer_of : ℕ → TrustedPeer
peer_of n = record { id = id_of n; public_key = id_of n; endpoint = 49 ∷ 58 ∷ 50 ∷ [] }

abbrev two_peers : TrustState
two_peers = record { directory = 47 ∷ []; peers = peer_of 3 ∷ peer_of 7 ∷ [] }

two_peers-Ascending : Ascending two_peers.peers
unfolding node_id_less
two_peers-Ascending = ((refl, tt), (tt, tt))

peer_endpoint : valid_endpoint accepts_all accepts_all (peer_of 5).endpoint ≡ true
unfolding valid_endpoint any_of parse_endpoint parse_plain rfind_char with_port c_str parse_port
    from_chars read_digits
peer_endpoint = refl

peer_bound : valid_identity_binding same_digest (peer_of 5) ≡ true
unfolding valid_identity_binding is_derived bytes_eq
peer_bound = refl

trust_find-find_key_example :
    trust_find two_peers (id_of 7) ≡ find_key peer_id (id_of 7) (peer_of 3 ∷ peer_of 7 ∷ [])
trust_find-find_key_example = trust_find-find_key two_peers (id_of 7) two_peers-Ascending

added : (trust_add same_digest accepts_all accepts_all two_peers (peer_of 5) true true).1 ≡ true
unfolding trust_add valid_endpoint any_of parse_endpoint parse_plain rfind_char with_port c_str
    parse_port from_chars read_digits valid_identity_binding is_derived bytes_eq lower_bound
    node_id_less
added = refl

trust_add-find_example :
    let s' = (trust_add same_digest accepts_all accepts_all two_peers (peer_of 5) true true).0 in
    (valid_endpoint accepts_all accepts_all (peer_of 5).endpoint ≡ true)
    × (valid_identity_binding same_digest (peer_of 5) ≡ true)
    × Ascending s'.peers
    × ((k : NodeId)
        → trust_find s' k
          ≡ (if bytes_eq (id_of 5) k then some (peer_of 5) else trust_find two_peers k))
trust_add-find_example =
    trust_add-find same_digest accepts_all accepts_all two_peers (peer_of 5) true true
      two_peers-Ascending added

-- A full table.
abbrev fourteen : List TrustedPeer
fourteen =
    peer_of 2
    ∷ peer_of 3
    ∷ peer_of 4
    ∷ peer_of 6
    ∷ peer_of 7
    ∷ peer_of 8
    ∷ peer_of 9
    ∷ peer_of 10
    ∷ peer_of 11
    ∷ peer_of 12
    ∷ peer_of 13
    ∷ peer_of 14
    ∷ peer_of 15
    ∷ peer_of 16
    ∷ []

abbrev full : TrustState
full = record { directory = 47 ∷ []; peers = fourteen ++ peer_of 17 ∷ [] }

full-Ascending : Ascending full.peers
unfolding node_id_less
full-Ascending = ground arith

new_in_full : trust_find full (id_of 5) ≡ none
unfolding trust_find lower_bound node_id_less bytes_eq
new_in_full = refl

below_last : node_id_less (peer_of 17).id (id_of 5) ≡ false
unfolding node_id_less
below_last = refl

-- A sixteenth peer.
trust_add_past_limit_example :
    let r = trust_add same_digest accepts_all accepts_all full (peer_of 5) true true in
    (r.1 ≡ true) × (length r.0.peers ≡ 15 + 1)
trust_add_past_limit_example =
    trust_add_past_limit same_digest accepts_all accepts_all full (peer_of 5) fourteen (peer_of 17)
      refl full-Ascending refl peer_endpoint peer_bound new_in_full below_last

available : trust_address_available two_peers zero_address (id_of 1) (id_of 5) ≡ true
unfolding trust_address_available any_of bytes_eq virtual_address
available = refl

base64url_decode-encode_example :
    base64url_decode (base64url_encode (255 ∷ 0 ∷ 171 ∷ 7 ∷ [])) ≡ some (255 ∷ 0 ∷ 171 ∷ 7 ∷ [])
base64url_decode-encode_example = base64url_decode-encode 255 (0 ∷ 171 ∷ 7 ∷ []) (ground arith)

-- "_w" is the byte 255; "_x" has a bit that is not zero behind it.
byte_written : base64url_encode (255 ∷ []) ≡ 95 ∷ 119 ∷ []
unfolding base64url_encode encode_loop push_chars alphabet_at
byte_written = refl

not_canonical : base64url_decode (95 ∷ 120 ∷ []) ≡ none
unfolding base64url_decode decode_loop value_of
not_canonical = refl

-- fd00::/64
abbrev local_network : IPv6
local_network = 253 ∷ replicate 15 0

abbrev invited : InviteTicket
invited = record {
  network = local_network;
  secret = replicate 16 1;
  inviter_id = id_of 5;
  inviter_endpoint = (peer_of 5).endpoint;
  created_at = 1000;
  expires_at = 4600;
  consumed = false;
}

invited_generated :
    invite_generate accepts_all accepts_all
      (id_of 5)
      (peer_of 5).endpoint
      local_network
      1000
      3600
      (some (replicate 16 1))
    ≡ ticket invited
unfolding invite_generate is_not_local valid_endpoint any_of parse_endpoint parse_plain rfind_char
    with_port c_str parse_port from_chars read_digits bytes_eq
invited_generated = refl

drawn_secret : invited.secret ≢ replicate 16 0
drawn_secret e = cc

invite_generate-encode_example :
    (invite_encode accepts_all accepts_all invited ≢ [])
    × (1000 < 4600)
    × (4600 ≤ 1000 + 86400)
    × IsU64 4600
invite_generate-encode_example =
    invite_generate-encode accepts_all accepts_all (id_of 5) (peer_of 5).endpoint local_network 1000
      3600 (some (replicate 16 1)) invited invited_generated drawn_secret
