-- ===== src/Routes/Advertisement.antt =====
-- src/network/route_advertisement.cpp: what a node tells a neighbour of its table.
use madoka.Common.{ℕ, List, [], ◌∷◌, ◌++◌, Option, none, some, length, ltb, if◌then◌else◌, not}
use madoka.Bytes.{NodeId, IPv6, zero_id, bytes_eq, virtual_address}
use madoka.Routes.Route.{Route, route_metric_infinity}
use madoka.Routes.Table.{RouteTable, max_route_table_entries}

pub data SplitHorizonMode : Type 0 where
  disabled split_horizon poison_reverse : SplitHorizonMode

pub record RouteAdvertisement : Type 0 where
  pub sender : NodeId
  pub generation : ℕ
  pub sequence_number : ℕ
  pub routes : List Route

-- What the body of the loop appends for a route whose next hop is the target.
unfoldable pub toward_target : SplitHorizonMode → Route → List Route
toward_target disabled r = r ∷ []
toward_target split_horizon r = []
toward_target poison_reverse r = record r { metric = route_metric_infinity } ∷ []

unfoldable pub filter_routes : Option NodeId → SplitHorizonMode → List Route → List Route
unfolding toward_target
filter_routes target mode [] = []
filter_routes none mode (r ∷ rest) = r ∷ filter_routes none mode rest
filter_routes (some target) mode (r ∷ rest) =
    (if bytes_eq r.next_hop target then toward_target mode r else r ∷ [])
    ++ filter_routes (some target) mode rest

unfoldable pub route_create_advertisement :
    NodeId → RouteTable → ℕ → Option NodeId → SplitHorizonMode → ℕ → RouteAdvertisement
unfolding filter_routes
route_create_advertisement sender table sequence_number target mode generation = record {
  sender = sender;
  generation = generation;
  sequence_number = sequence_number;
  routes = filter_routes target mode table.routes;
}

-- The messages of `validate_route_advertisement`.
pub data AdvertisementError : Type 0 where
  bad_sender_or_count empty_destination address_mismatch metric_too_large : AdvertisementError

-- The loop; `none` when every route passes.
unfoldable pub check_routes : IPv6 → List Route → Option AdvertisementError
unfolding bytes_eq virtual_address
check_routes network [] = none
check_routes network (r ∷ rest) =
    let more = check_routes network rest in
    if bytes_eq r.destination_node zero_id
    then some empty_destination
    else if not (bytes_eq r.destination (virtual_address network r.destination_node))
    then some address_mismatch
    else if ltb route_metric_infinity r.metric
    then some metric_too_large
    else more

-- `none` where the source returns true.
unfoldable pub validate_route_advertisement : RouteAdvertisement → IPv6 → Option AdvertisementError
unfolding check_routes
validate_route_advertisement advertisement network =
    if bytes_eq advertisement.sender zero_id
    then some bad_sender_or_count
    else if ltb max_route_table_entries (length advertisement.routes)
    then some bad_sender_or_count
    else check_routes network advertisement.routes
