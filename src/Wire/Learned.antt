-- ===== src/Wire/Learned.antt =====
-- What a receiver learns from an advertisement on the wire.
use madoka.Common.{
  ℕ, ◌+◌, ◌*◌, ◌%◌, ◌^◌, ◌≤◌, ◌≡◌, refl, ap, subst, true, false, List, [], ◌∷◌, ◌++◌, arith, length,
  length-append, ltb, leb, ◌==◌, not, ltb_of_le, leb_of_le, ==_of_eq, All, map,
}
use madoka.Bytes.{IsU32, IsU64, zero_id}
use madoka.Bytes.Slice.{ok, Rest, Rest-start, Rest-next, slice-Rest}
use madoka.Bytes.Words.{write_u32_be, write_u64_be, read_u32_be-Rest, read_u64_be-Rest}
use madoka.Routes.Route.{Route, route_create}
use madoka.Routes.Table.{max_route_table_entries}
use madoka.Routes.Advertisement.{RouteAdvertisement}
use madoka.Wire.Advertisement.{
  serialize_routes, serialize_route_advertisement, read_routes, deserialize_route_advertisement,
}

-- The sizes of the parts of a route that are sent.
abbrev pub IsSent : Route → Type 0
IsSent r = (length r.destination_node ≡ 32) × (length r.destination ≡ 16) × IsU32 r.metric

-- A route as it is received: without next hop and time.
abbrev pub learned : Route → Route
learned r = record r { next_hop = zero_id; last_update = 0 }

length-serialize_routes :
    (rs : List Route) → All IsSent rs → length (serialize_routes rs) ≡ length rs * 52
unfolding serialize_routes
length-serialize_routes [] h = refl
length-serialize_routes (r ∷ rs) h =
    let word : length (write_u32_be r.metric) ≡ 4 = unfold write_u32_be in refl in
    omega (
      arith,
      h.0,
      word,
      length-append r.destination_node
          (r.destination ++ (write_u32_be r.metric ++ serialize_routes rs)),
      length-append r.destination (write_u32_be r.metric ++ serialize_routes rs),
      length-append (write_u32_be r.metric) (serialize_routes rs),
      length-serialize_routes rs h.1,
    )

read_routes-Rest :
    (rs : List Route) (d : List ℕ) (off : ℕ)
    → All IsSent rs
    → Rest d off (serialize_routes rs)
    → read_routes (length rs) d off ≡ ok (map learned rs)
unfolding read_routes serialize_routes route_create
read_routes-Rest [] d off h r0 = refl
read_routes-Rest (r ∷ rs) d off h r0 =
    let r32 = Rest-next d off 32 r.destination_node _ r0 h.0.0 in
    let r48 : Rest d (off + 48) (write_u32_be r.metric ++ serialize_routes rs) =
      subst (λ n. Rest d n (write_u32_be r.metric ++ serialize_routes rs)) (omega arith)
        (Rest-next d (off + 32) 16 r.destination _ r32 h.0.1) in
    let r52 : Rest d (off + 52) (serialize_routes rs) =
      subst (λ n. Rest d n (serialize_routes rs)) (omega arith)
        (Rest-next d (off + 48) 4 (write_u32_be r.metric) _ r48 (unfold write_u32_be in refl)) in
    rw
      (
        slice-Rest d off 32 r.destination_node _ r0 h.0.0,
        slice-Rest d (off + 32) 16 r.destination _ r32 h.0.1,
        read_u32_be-Rest d (off + 48) r.metric _ h.0.2 r48,
        read_routes-Rest rs d (off + 52) h.1 r52,
      )
      refl

-- An advertisement of at most 16 routes whose fields fit their types.
pub record IsAdvertisement (adv : RouteAdvertisement) : Type 0 where
  pub sender : length adv.sender ≡ 32
  pub generation : IsU64 adv.generation
  pub sequence_number : IsU64 adv.sequence_number
  pub count : length adv.routes ≤ max_route_table_entries
  pub routes : All IsSent adv.routes

advertisement-layout :
    (adv : RouteAdvertisement) (d : List ℕ)
    → IsAdvertisement adv
    → Rest d 0 (
        adv.sender
        ++ (write_u64_be adv.generation
            ++ (write_u64_be adv.sequence_number
                ++ (write_u32_be (length adv.routes) ++ serialize_routes adv.routes))))
    → deserialize_route_advertisement d ≡ ok (record adv { routes = map learned adv.routes })
unfolding deserialize_route_advertisement
advertisement-layout adv d v r0 =
    let r32 = Rest-next d 0 32 adv.sender _ r0 v.sender in
    let r40 = Rest-next d 32 8 (write_u64_be adv.generation) _ r32 (unfold write_u64_be in refl) in
    let r48 =
      Rest-next d 40 8 (write_u64_be adv.sequence_number) _ r40 (unfold write_u64_be in refl) in
    let r52 =
      Rest-next d 48 4 (write_u32_be (length adv.routes)) _ r48 (unfold write_u32_be in refl) in
    let size : length d ≡ 52 + length adv.routes * 52 =
      omega (arith, r52.1, length-serialize_routes adv.routes v.routes) in
    let whole : not (ltb (length d) 52) ≡ true = ap not (ltb_of_le (omega (arith, size))) in
    let small : leb (length adv.routes) max_route_table_entries ≡ true = leb_of_le v.count in
    let exact : (length d == 52 + length adv.routes * 52) ≡ true = ==_of_eq size in
    rw
      (
        whole,
        slice-Rest d 0 32 adv.sender _ r0 v.sender,
        read_u64_be-Rest d 32 adv.generation _ v.generation r32,
        read_u64_be-Rest d 40 adv.sequence_number _ v.sequence_number r40,
        read_u32_be-Rest d 48 (length adv.routes) _ (omega (arith, v.count)) r48,
        small,
        exact,
        read_routes-Rest adv.routes d 52 v.routes r52,
      )
      refl

-- A route advertisement of at most 16 routes whose fields fit their types is read back from its
-- bytes, with the routes in order, each with its node, address and metric, but with a zero next hop
-- and time.
pub deserialize_advertisement-serialize :
    (adv : RouteAdvertisement)
    → IsAdvertisement adv
    → deserialize_route_advertisement (serialize_route_advertisement adv)
      ≡ ok (record adv { routes = map learned adv.routes })
unfolding serialize_route_advertisement
deserialize_advertisement-serialize adv v =
    let fits : length adv.routes % 2 ^ 32 ≡ length adv.routes = omega (arith, v.count) in
    let few : ltb max_route_table_entries (length adv.routes) ≡ false = ltb_of_le v.count in
    rw (few, fits) (advertisement-layout adv _ v (Rest-start _))
