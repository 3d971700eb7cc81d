-- ===== src/Forward/Outcome.antt =====
-- What one call does with the packet, and with the counter of packets that are sent on.

use madoka.Common.{
  leb, ◌<◌, ◌≤◌, List, ◌⊎◌, inl, inr, Bool-cases, ◌-◌, ◌≡◌, refl, ap, Bool, true, false, ◌&&◌, [],
  ◌∷◌, Option, none, some, arith, length, if◌then◌else◌, ◌≢◌, ◌↔◌,
}
use madoka.Bytes.{NodeId, bytes_eq, bytes_eq_iff}
use madoka.Packet.{DataPacket}
use madoka.Routes.Route.{route_metric_infinity}
use madoka.Routes.Table.{RouteTable, RouteEntry, routing_lookup}
use madoka.Forward.{
  ForwardingState, transmit, deliver, drop, ttl_expired, increment, forward_at, forwarding_forward,
  forwarding_forward_origin, route_packet, Forwarded, Event,
}

-- The packet is for this node.
abbrev pub IsLocal : ForwardingState → DataPacket → Type 0
IsLocal s p = (s.has_local_id ≡ true) × (p.destination ≡ s.local_id)

-- The table has a finite route for the destination.
abbrev pub HasRoute : RouteTable → NodeId → NodeId → Type 0
HasRoute t destination next =
    (r : RouteEntry) × (routing_lookup t destination ≡ some r)
    × (r.valid ≡ true)
    × (r.metric < route_metric_infinity)
    × (r.next_hop ≡ next)

-- `forwarding_forward`, and `forwarding_forward_origin`, which leaves the ttl as it is.
abbrev pub forward_with : (decrement : Bool) → ForwardingState → DataPacket → Forwarded
forward_with true = forwarding_forward
forward_with false = forwarding_forward_origin

-- The packet that is sent on.
abbrev pub sent_packet : (decrement : Bool) → DataPacket → DataPacket
sent_packet decrement p = if decrement then record p { ttl = p.ttl - 1 } else p

abbrev pub transmits : List Event → Bool
transmits (transmit next q ∷ es) = true
transmits _ = false

route_packet_transmit :
    (s : ForwardingState) (p q : DataPacket) (next : NodeId) (r : Option RouteEntry)
    → s.transmit_handler ≡ true
    → ((route_packet s p r).events ≡ transmit next q ∷ []) ↔ (
        (q ≡ p)
        × ((e : RouteEntry) × (r ≡ some e)
            × (e.valid ≡ true)
            × (e.metric < route_metric_infinity)
            × (e.next_hop ≡ next)))
unfolding route_packet
route_packet_transmit s p q next none h = (λ k. absurd (ground arith), λ k. absurd (ground arith))
route_packet_transmit s p q next (some r) h =
    (λ k. (ground arith, (r, refl, ground arith, ground arith, ground arith)), λ k. ground arith)

-- The counter goes up with each call of the transmit handler.
route_packet_count :
    (s : ForwardingState) (p : DataPacket) (r : Option RouteEntry)
    → s.transmit_handler ≡ true
    → let f = route_packet s p r in
      f.state.metrics.forwarded_packets ≡ (
        if transmits f.events
        then increment s.metrics.forwarded_packets
        else s.metrics.forwarded_packets)
unfolding route_packet
route_packet_count s p none h = ground arith
route_packet_count s p (some r) h = ground arith

forward_with-at :
    (decrement : Bool) (s : ForwardingState) (t : RouteTable) (p : DataPacket)
    → s.table ≡ some t
    → forward_with decrement s p ≡ forward_at s p decrement (some t)
unfolding forwarding_forward forwarding_forward_origin
forward_with-at true s t p e = ap (forward_at s p true) e
forward_with-at false s t p e = ap (forward_at s p false) e

true_or_false : (b : Bool) → b ≡ true → b ≡ false → ⊥
true_or_false b h k = ground arith

not_true : (b : Bool) → ¬ (b ≡ true) → b ≡ false
not_true b h = ground arith

no_transmit :
    {next : NodeId} {q : DataPacket} (es : List Event)
    → transmits es ≡ false
    → es ≢ transmit next q ∷ []
no_transmit es h k = ground (arith, h, k)

here-IsLocal :
    (s : ForwardingState) (p : DataPacket)
    → ((s.has_local_id && bytes_eq p.destination s.local_id) ≡ true) ↔ IsLocal s p
here-IsLocal s p = (
  λ e. ground (arith, bytes_eq_iff p.destination s.local_id),
  λ l. ground (arith, bytes_eq_iff p.destination s.local_id),
)

-- The calls that get as far as the lookup.
abbrev pub IsRouted : (decrement : Bool) → ForwardingState → DataPacket → Type 0
IsRouted decrement s p = ¬ IsLocal s p × ((decrement ≡ false) ⊎ (1 < p.ttl))

IsRouted-reads :
    (decrement : Bool) (s : ForwardingState) (p : DataPacket)
    → IsRouted decrement s p ↔ (
        ((s.has_local_id && bytes_eq p.destination s.local_id) ≡ false)
        × ((decrement && leb p.ttl 1) ≡ false))
IsRouted-reads decrement s p = (
  λ (other, alive). (
    not_true (s.has_local_id && bytes_eq p.destination s.local_id)
        (λ k. other ((here-IsLocal s p).0 k)),
    ground (arith, alive),
  ),
  λ (other, alive). (
    λ k.
        true_or_false (s.has_local_id && bytes_eq p.destination s.local_id) ((here-IsLocal s p).1 k)
          other,
    elim (Bool-cases decrement) [ inl e ↦ inr (ground (arith, alive, e)) | inr e ↦ inl e ],
  ),
)

forward_at_routed :
    (decrement : Bool) (s : ForwardingState) (t : RouteTable) (p : DataPacket)
    → IsRouted decrement s p
    → forward_at s p decrement (some t)
      ≡ route_packet s (sent_packet decrement p) (routing_lookup t p.destination)
unfolding forward_at
forward_at_routed decrement s t p h =
    let (other, alive) = (IsRouted-reads decrement s p).0 h in rw (other, alive) refl

-- The others make no call of the transmit handler.
abbrev IsKept : Forwarded → ForwardingState → Type 0
IsKept f s =
    (transmits f.events ≡ false) × (f.state.metrics.forwarded_packets ≡ s.metrics.forwarded_packets)

forward_at-IsKept :
    (decrement : Bool) (s : ForwardingState) (t : RouteTable) (p : DataPacket)
    → ((s.has_local_id && bytes_eq p.destination s.local_id) ≡ true)
      ⊎ ((decrement && leb p.ttl 1) ≡ true)
    → IsKept (forward_at s p decrement (some t)) s
unfolding forward_at
forward_at-IsKept decrement s t p h = ground (arith, h)

forward_at-cases :
    (decrement : Bool) (s : ForwardingState) (t : RouteTable) (p : DataPacket)
    → IsRouted decrement s p
      ⊎ (¬ IsRouted decrement s p × IsKept (forward_at s p decrement (some t)) s)
forward_at-cases decrement s t p =
    let here = s.has_local_id && bytes_eq p.destination s.local_id in
    let expired = decrement && leb p.ttl 1 in
    let reads = IsRouted-reads decrement s p in
    elim (Bool-cases here) [
      | inl e ↦
          inr (λ r. true_or_false here e (reads.0 r).0, forward_at-IsKept decrement s t p (inl e))
      | inr e ↦ elim (Bool-cases expired) [
        | inl k ↦
            inr (
              λ r. true_or_false expired k (reads.0 r).1,
              forward_at-IsKept decrement s t p (inr k),
            )
        | inr k ↦ inl (reads.1 (e, k))
      ]
    ]

-- On a state with a table and a transmit handler, a packet is transmitted exactly when it is for another
-- node, has a ttl above 1 where the ttl is decremented, and the table has a finite route for its
-- destination: the handler gets the next hop of that route, and the packet with the ttl one less, or as
-- it was, and every other field as it was. The counter of forwarded packets goes up then, and only then.
-- That is so with `forwarding_forward`, which decrements the ttl, and `forwarding_forward_origin`, which
-- does not.
pub forward_transmit :
    (decrement : Bool) (s : ForwardingState) (t : RouteTable) (p q : DataPacket) (next : NodeId)
    → s.table ≡ some t
    → s.transmit_handler ≡ true
    → let f = forward_with decrement s p in
      ((f.events ≡ transmit next q ∷ [])
        ↔ (IsRouted decrement s p × (q ≡ sent_packet decrement p) × HasRoute t p.destination next))
      × (f.state.metrics.forwarded_packets ≡ (
          if transmits f.events
          then increment s.metrics.forwarded_packets
          else s.metrics.forwarded_packets))
forward_transmit decrement s t p q next e h = elim (forward_at-cases decrement s t p) [
  | inl routed ↦
      let sent = sent_packet decrement p in
      let lookup = routing_lookup t p.destination in
      let (to, from) = route_packet_transmit s sent q next lookup h in
      rw (forward_with-at decrement s t p e, forward_at_routed decrement s t p routed)
        (
          (
            λ k. let (same, route) = to k in (routed, same, route),
            λ (r, same, route). from (same, route),
          ),
          route_packet_count s sent lookup h,
        )
  | inr (stays, (none_sent, count)) ↦ rw (forward_with-at decrement s t p e) (
    (λ k. absurd (no_transmit _ none_sent k), λ (r, same, route). absurd (stays r)),
    rw none_sent count,
  )
]

route_packet_one :
    (s : ForwardingState) (p : DataPacket) (r : Option RouteEntry)
    → s.transmit_handler ≡ true
    → s.drop_handler ≡ true
    → (length (route_packet s p r).events ≡ 1)
      × ((q : DataPacket) → (route_packet s p r).events ≢ deliver q ∷ [])
      × ((q : DataPacket) → (route_packet s p r).events ≢ drop q ttl_expired ∷ [])
unfolding route_packet
route_packet_one s p none h k = (ground arith, λ q e. ground arith, λ q e. ground arith)
route_packet_one s p (some r) h k = (ground arith, λ q e. ground arith, λ q e. ground arith)

forward_at_one :
    (decrement : Bool) (s : ForwardingState) (t : RouteTable) (p : DataPacket)
    → s.transmit_handler ≡ true
    → s.local_delivery_handler ≡ true
    → s.drop_handler ≡ true
    → let here = s.has_local_id && bytes_eq p.destination s.local_id in
      let es = (forward_at s p decrement (some t)).events in
      (length es ≡ 1)
      × ((es ≡ deliver p ∷ []) ↔ (here ≡ true))
      × ((es ≡ drop (record p { ttl = 0 }) ttl_expired ∷ [])
          ↔ ((here ≡ false) × ((decrement ≡ true) × (p.ttl ≤ 1))))
unfolding forward_at
forward_at_one decrement s t p h1 h2 h3 =
    let sent = sent_packet decrement p in
    let r = route_packet_one s sent (routing_lookup t p.destination) h1 h3 in
    let no_delivery = r.1 p in
    let no_expiry = r.2 (record p { ttl = 0 }) in
    (
      ground (arith, r.0),
      (λ e. ground (arith, no_delivery), λ e. ground arith),
      (λ e. ground (arith, no_expiry), λ e. ground arith),
    )

-- With all three callbacks set, a call of `forwarding_forward` or `forwarding_forward_origin` on a state
-- with a table makes exactly one of them. Both deliver exactly the packets for this node. The first drops
-- as expired, with the ttl set to 0, exactly those of the others whose ttl is at most 1; the second drops
-- none as expired.
pub forward_one_event :
    (decrement : Bool) (s : ForwardingState) (t : RouteTable) (p : DataPacket)
    → s.table ≡ some t
    → s.transmit_handler ≡ true
    → s.local_delivery_handler ≡ true
    → s.drop_handler ≡ true
    → let es = (forward_with decrement s p).events in
      (length es ≡ 1)
      × ((es ≡ deliver p ∷ []) ↔ IsLocal s p)
      × ((es ≡ drop (record p { ttl = 0 }) ttl_expired ∷ [])
          ↔ (¬ IsLocal s p × ((decrement ≡ true) × (p.ttl ≤ 1))))
forward_one_event decrement s t p e h1 h2 h3 =
    let r = forward_at_one decrement s t p h1 h2 h3 in
    let l = here-IsLocal s p in
    let here = s.has_local_id && bytes_eq p.destination s.local_id in
    rw (forward_with-at decrement s t p e) (
      r.0,
      (λ k. l.0 (r.1.0 k), λ k. r.1.1 (l.1 k)),
      (
        λ k. (λ m. true_or_false here (l.1 m) (r.2.0 k).0, (r.2.0 k).1),
        λ k. r.2.1 (not_true here (λ m. k.0 (l.0 m)), k.1),
      ),
    )
