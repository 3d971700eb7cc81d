-- ===== src/Trust/Invite.antt =====
-- Invitations: `invite_generate` and `invite_encode` of src/security/invite.cpp. What `random_bytes`
-- writes is given, `none` where it fails. Times are seconds in 64 bits.
use madoka.Common.{
  ℕ, ◌+◌, ◌-◌, ◌^◌, ◌<◌, ◌≤◌, ◌≡◌, ◌≢◌, Bool, false, ◌||◌, List, [], ◌∷◌, ◌++◌, Option, none, some,
  arith, length, drop, replicate, ltb, leb, ◌==◌, if◌then◌else◌, any_of, not,
}
use madoka.Bytes.{NodeId, IPv6, IsU64, bytes_eq, bytes_eq_iff, zero_id}
use madoka.Bytes.Words.{write_u16_be, write_u64_be}
use madoka.Config.Endpoint.{InetPton}
use madoka.Trust.{valid_endpoint}
use madoka.Trust.Base64.{base64url_encode}

abbrev max_invite_lifetime_seconds : ℕ
max_invite_lifetime_seconds = 86400

pub record InviteTicket : Type 0 where
  pub network : IPv6
  pub secret : List ℕ
  pub inviter_id : NodeId
  pub inviter_endpoint : List ℕ
  pub created_at : ℕ
  pub expires_at : ℕ
  pub consumed : Bool

pub data InviteError : Type 0 where
  invalid_parameters : InviteError
  not_local_network : InviteError
  no_random_bytes : InviteError

-- `network[0]`
abbrev first_byte : IPv6 → ℕ
first_byte [] = 0
first_byte (b ∷ bs) = b

-- The test `network[0] != 0xfd || !all_of(network.begin() + 8, network.end(), b == 0)`.
unfoldable pub is_not_local : IPv6 → Bool
is_not_local network =
    not (first_byte network == 253) || any_of (λ b. not (b == 0)) (drop 8 network)

pub data Generated : Type 0 where
  ticket : InviteTicket → Generated
  failed : InviteError → Generated

unfoldable pub invite_generate :
    (pton6 pton4 : InetPton)
    → (inviter_id : NodeId) → (inviter_endpoint : List ℕ) → (network : IPv6)
    → (now_seconds lifetime_seconds : ℕ) → (random : Option (List ℕ)) → Generated
invite_generate pton6 pton4 inviter_id inviter_endpoint network now_seconds lifetime_seconds
      random =
    if bytes_eq inviter_id zero_id
      || (not (valid_endpoint pton6 pton4 inviter_endpoint)
          || (now_seconds == 0
              || (lifetime_seconds == 0
                  || (ltb max_invite_lifetime_seconds lifetime_seconds
                      || ltb (2 ^ 64 - 1 - lifetime_seconds) now_seconds))))
    then failed invalid_parameters
    else if is_not_local network
    then failed not_local_network
    else elim random [
      | none ↦ failed no_random_bytes
      | some secret ↦ ticket (record {
        network = network;
        secret = secret;
        inviter_id = inviter_id;
        inviter_endpoint = inviter_endpoint;
        created_at = now_seconds;
        expires_at = now_seconds + lifetime_seconds;
        consumed = false;
      })
    ]

-- "madoka://invite/"
abbrev invite_prefix : List ℕ
invite_prefix =
    109 ∷ 97 ∷ 100 ∷ 111 ∷ 107 ∷ 97 ∷ 58 ∷ 47 ∷ 47 ∷ 105 ∷ 110 ∷ 118 ∷ 105 ∷ 116 ∷ 101 ∷ 47 ∷ []

-- The test at the start of `invite_encode`. The difference is taken only where it is above 0.
unfoldable pub cannot_encode : (pton6 pton4 : InetPton) → InviteTicket → Bool
cannot_encode pton6 pton4 t =
    not (valid_endpoint pton6 pton4 t.inviter_endpoint)
    || (bytes_eq t.inviter_id zero_id
        || (bytes_eq t.secret (replicate 16 0)
            || (t.created_at == 0
                || (leb t.expires_at t.created_at
                    || (ltb max_invite_lifetime_seconds (t.expires_at - t.created_at)
                        || is_not_local t.network)))))

unfoldable pub invite_encode : (pton6 pton4 : InetPton) → InviteTicket → List ℕ
invite_encode pton6 pton4 t =
    if cannot_encode pton6 pton4 t
    then []
    else invite_prefix
      ++ base64url_encode (
          t.network
          ++ write_u16_be (length t.inviter_endpoint)
          ++ t.inviter_endpoint
          ++ t.inviter_id
          ++ t.secret
          ++ write_u64_be t.created_at
          ++ write_u64_be t.expires_at)

generated-can_encode :
    (pton6 pton4 : InetPton) (id : NodeId) (endpoint : List ℕ) (network : IPv6) (now lifetime : ℕ)
    (random : Option (List ℕ)) (t : InviteTicket)
    → invite_generate pton6 pton4 id endpoint network now lifetime random ≡ ticket t
    → bytes_eq t.secret (replicate 16 0) ≡ false
    → cannot_encode pton6 pton4 t ≡ false
unfolding invite_generate cannot_encode
generated-can_encode pton6 pton4 id endpoint network now lifetime none t h s = ground (arith, h)
generated-can_encode pton6 pton4 id endpoint network now lifetime (some secret) t h s =
    ground (arith, h, s)

generated-lifetime :
    (pton6 pton4 : InetPton) (id : NodeId) (endpoint : List ℕ) (network : IPv6) (now lifetime : ℕ)
    (random : Option (List ℕ)) (t : InviteTicket)
    → invite_generate pton6 pton4 id endpoint network now lifetime random ≡ ticket t
    → (t.created_at < t.expires_at) × (t.expires_at ≤ t.created_at + 86400) × IsU64 t.expires_at
unfolding invite_generate
generated-lifetime pton6 pton4 id endpoint network now lifetime none t h =
    absurd (ground (arith, h))
generated-lifetime pton6 pton4 id endpoint network now lifetime (some secret) t h =
    ground (arith, h)

encoded-ne-empty :
    (pton6 pton4 : InetPton) (t : InviteTicket)
    → cannot_encode pton6 pton4 t ≡ false
    → invite_encode pton6 pton4 t ≢ []
unfolding invite_encode
encoded-ne-empty pton6 pton4 t h e = absurd (ground (arith, h, e))

-- An invitation that `invite_generate` makes, with a secret that is not all zero, is one that
-- `invite_encode` writes: the text is not empty. It expires after its creation, at most a day later, at
-- a time that has not wrapped around.
pub invite_generate-encode :
    (pton6 pton4 : InetPton) (id : NodeId) (endpoint : List ℕ) (network : IPv6) (now lifetime : ℕ)
    (random : Option (List ℕ)) (t : InviteTicket)
    → invite_generate pton6 pton4 id endpoint network now lifetime random ≡ ticket t
    → t.secret ≢ replicate 16 0
    → (invite_encode pton6 pton4 t ≢ [])
      × (t.created_at < t.expires_at)
      × (t.expires_at ≤ t.created_at + 86400)
      × IsU64 t.expires_at
invite_generate-encode pton6 pton4 id endpoint network now lifetime random t h secret =
    let drawn : bytes_eq t.secret (replicate 16 0) ≡ false =
      ground (arith, secret, bytes_eq_iff t.secret (replicate 16 0)) in
    let can = generated-can_encode pton6 pton4 id endpoint network now lifetime random t h drawn in
    let (after, day, width) =
      generated-lifetime pton6 pton4 id endpoint network now lifetime random t h in
    (encoded-ne-empty pton6 pton4 t can, after, day, width)
