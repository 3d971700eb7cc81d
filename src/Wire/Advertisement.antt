-- ===== src/Wire/Advertisement.antt =====
-- src/network/serialization.cpp: the wire format of route advertisements. Of a route its node, its
-- address and its metric are sent.
use madoka.Common.{
  ℕ, zero, suc, ◌+◌, ◌*◌, ◌%◌, ◌^◌, List, [], ◌∷◌, ◌++◌, length, ltb, leb, ◌==◌, not, if◌then◌else◌,
}
use madoka.Bytes.{zero_id}
use madoka.Bytes.Slice.{Result, ok, ◌>>=◌, ◌>>◌, check, slice}
use madoka.Bytes.Words.{write_u32_be, write_u64_be, read_u32_be, read_u64_be}
use madoka.Routes.Route.{Route, route_create}
use madoka.Routes.Table.{max_route_table_entries}
use madoka.Routes.Advertisement.{RouteAdvertisement}

abbrev pub route_entry_wire_size : ℕ
route_entry_wire_size = 52

abbrev pub route_advertisement_header_size : ℕ
route_advertisement_header_size = 52

-- The messages written to `*error`.
pub data RouteWireError : Type 0 where
  short_advertisement too_many_routes route_size_mismatch : RouteWireError

unfoldable pub serialize_routes : List Route → List ℕ
unfolding write_u32_be
serialize_routes [] = []
serialize_routes (r ∷ rs) =
    r.destination_node ++ (r.destination ++ (write_u32_be r.metric ++ serialize_routes rs))

unfoldable pub serialize_route_advertisement : RouteAdvertisement → List ℕ
unfolding write_u64_be write_u32_be serialize_routes
serialize_route_advertisement adv =
    if ltb max_route_table_entries (length adv.routes)
    then []
    else adv.sender
      ++ (write_u64_be adv.generation
          ++ (write_u64_be adv.sequence_number
              ++ (write_u32_be (length adv.routes % 2 ^ 32) ++ serialize_routes adv.routes)))

-- The loop of the reader.
unfoldable pub read_routes : ℕ → List ℕ → ℕ → Result RouteWireError (List Route)
unfolding route_create
read_routes zero d offset = ok []
read_routes (suc count) d offset = do
  destination_node ← slice d offset 32
  destination ← slice d (offset + 32) 16
  metric ← read_u32_be d (offset + 48)
  rest ← read_routes count d (offset + 52)
  ok (route_create destination zero_id metric 0 destination_node ∷ rest)

unfoldable pub deserialize_route_advertisement : List ℕ → Result RouteWireError RouteAdvertisement
unfolding read_routes
deserialize_route_advertisement d = do
  check (not (ltb (length d) route_advertisement_header_size)) short_advertisement
  sender ← slice d 0 32
  generation ← read_u64_be d 32
  sequence_number ← read_u64_be d 40
  count ← read_u32_be d 48
  check (leb count max_route_table_entries) too_many_routes
  check (length d == route_advertisement_header_size + count * route_entry_wire_size)
      route_size_mismatch
  routes ← read_routes count d 52
  ok (record {
    sender = sender;
    generation = generation;
    sequence_number = sequence_number;
    routes = routes;
  })
