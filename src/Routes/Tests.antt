-- ===== src/Routes/Tests.antt =====
-- Runs of the routing table and of the distance-vector update on concrete routes, and the theorems
-- on them.
use madoka.Common.{
  ℕ, ◌≡◌, ◌≢◌, refl, true, false, [], ◌∷◌, none, some, arith, inl, inr, replicate, find_if, All,
}
use madoka.Bytes.{NodeId, IPv6, zero_address, bytes_eq, virtual_address}
use madoka.Keyed.{Unique, find_key}
use madoka.Routes.Route.{Route, is_non_empty_node, route_create, route_create_to_node, route_equal}
use madoka.Routes.Table.{
  RouteTable, node_of, routing_init, routing_find_route, routing_find_route_address,
  routing_remove_route_address, routing_clear, routing_count,
}
use madoka.Routes.Advertisement.{
  RouteAdvertisement, disabled, poison_reverse, route_create_advertisement,
}
use madoka.Routes.DistanceVector.{
  Progress, RouteOriginStates, distance_vector_update, distance_vector_update_seq, assign, stamp,
  merged, is_blocked,
}
use madoka.Routes.Lookup.{Named, IsTable}
use madoka.Routes.Relax.{hop}
use madoka.Routes.Invariant.{IsGood, distance_vector_update-IsGood}
use madoka.Routes.Merge.{updated, distance_vector_update-find}
use madoka.Routes.Horizon.{no_route_back}
use madoka.Routes.Freshness.{Newer}

abbrev node_a : NodeId
node_a = 1 ∷ replicate 31 0

abbrev node_b : NodeId
node_b = 2 ∷ replicate 31 0

abbrev node_c : NodeId
node_c = 3 ∷ replicate 31 0

abbrev node_d : NodeId
node_d = 4 ∷ replicate 31 0

abbrev network : IPv6
network = 253 ∷ replicate 15 0

abbrev route_to : NodeId → NodeId → ℕ → ℕ → Route
route_to node next_hop metric time = record {
  destination = virtual_address network node;
  destination_node = node;
  next_hop = next_hop;
  metric = metric;
  last_update = time;
}

-- Node `a` knows its neighbour `b` and reaches `c` through it.
abbrev table_a : RouteTable
table_a = record { routes = route_to node_b node_b 1 10 ∷ route_to node_c node_b 2 20 ∷ [] }

-- Node `b` knows both of its neighbours.
abbrev table_b : RouteTable
table_b = record { routes = route_to node_a node_a 1 10 ∷ route_to node_c node_c 1 20 ∷ [] }

-- `b` says that `c` is near, and knows of `d`.
abbrev adv_b : RouteAdvertisement
adv_b = record {
  sender = node_b;
  generation = 2;
  sequence_number = 5;
  routes = route_to node_c node_c 1 20 ∷ route_to node_d node_c 3 20 ∷ [];
}

abbrev no_origins : RouteOriginStates
no_origins k = none

table_a-IsTable : IsTable table_a
unfolding find_key find_if bytes_eq is_non_empty_node
table_a-IsTable = record {
  fits = omega arith;
  named = (refl, (refl, tt));
  unique = (refl, (refl, tt));
}

table_b-IsTable : IsTable table_b
unfolding find_key find_if bytes_eq is_non_empty_node
table_b-IsTable = record {
  fits = omega arith;
  named = (refl, (refl, tt));
  unique = (refl, (refl, tt));
}

table_a-IsGood : IsGood table_a.routes
table_a-IsGood = (table_a-IsTable, (omega arith, (omega arith, tt)))

table_b-IsGood : IsGood table_b.routes
table_b-IsGood = (table_b-IsTable, (omega arith, (omega arith, tt)))

route_to_d-Named : Named (route_to node_d node_b 4 30)
unfolding bytes_eq is_non_empty_node
route_to_d-Named = refl

adv_b-Named : All Named adv_b.routes
unfolding bytes_eq is_non_empty_node
adv_b-Named = (refl, (refl, tt))

adv_b-Unique : Unique node_of adv_b.routes
unfolding find_key find_if bytes_eq
adv_b-Unique = (refl, (refl, tt))

abbrev start_a : Progress
start_a = record { routes = table_a.routes; changed = false }

d_ne_b : node_d ≢ node_b
d_ne_b e = cc

distance_vector_update-IsGood_example :
    IsGood (distance_vector_update table_a node_b adv_b 30 1 (some no_origins)).table.routes
distance_vector_update-IsGood_example =
    distance_vector_update-IsGood table_a node_b adv_b 30 1 (some no_origins) adv_b-Named
      table_a-IsGood

adv_b_accepted :
    (distance_vector_update table_a node_b adv_b 30 1 (some no_origins)).accepted ≡ true
unfolding distance_vector_update bytes_eq is_blocked merged
adv_b_accepted = refl

distance_vector_update-find_example :
    hop (
      routing_find_route
        (distance_vector_update table_a node_b adv_b 30 1 (some no_origins)).table
        node_d)
    ≡ updated node_b 1 adv_b.routes node_d (hop (routing_find_route table_a node_d))
distance_vector_update-find_example =
    distance_vector_update-find table_a node_b adv_b 30 1 (some no_origins) node_d adv_b-Named
      adv_b-Unique table_a-IsGood (omega arith) adv_b_accepted

abbrev adv_a : RouteAdvertisement
adv_a = route_create_advertisement node_a table_a 1 (some node_b) poison_reverse 1

poison_ne_disabled : poison_reverse ≢ disabled
poison_ne_disabled e = cc

c_ne_a : node_c ≢ node_a
c_ne_a e = cc

c_through_b : routing_find_route table_a node_c ≡ some (route_to node_c node_b 2 20)
unfolding routing_find_route find_key find_if bytes_eq
c_through_b = refl

adv_a_accepted :
    (distance_vector_update table_b node_a adv_a 40 1 (some no_origins)).accepted ≡ true
unfolding distance_vector_update bytes_eq is_blocked merged route_create_advertisement
adv_a_accepted = refl

no_route_back_example :
    hop (
      routing_find_route
        (distance_vector_update table_b node_a adv_a 40 1 (some no_origins)).table
        node_c)
    ≢ some (node_a, 3)
no_route_back_example =
    no_route_back node_a node_b table_a table_b 1 1 40 1 poison_reverse (some no_origins) node_c
      (route_to node_c node_b 2 20) poison_ne_disabled table_a-IsGood table_b-IsGood (omega arith)
      c_ne_a c_through_b refl adv_a_accepted 3 (omega arith)

abbrev adv_older : RouteAdvertisement
adv_older = record { sender = node_b; generation = 1; sequence_number = 9; routes = [] }

older_not-Newer : ¬ Newer (stamp adv_b) adv_older
older_not-Newer (inl h) = omega arith
older_not-Newer (inr h) = omega (arith, h.0)

abbrev known_b : RouteOriginStates
known_b = assign no_origins node_b (stamp adv_b)

known_after_b :
    (distance_vector_update table_a node_b adv_b 30 1 (some no_origins)).known ≡ some known_b
unfolding distance_vector_update bytes_eq is_blocked merged
known_after_b = refl

-- Small runs.
create_example :
    route_create zero_address node_b 3 7 node_c
    ≡ record (route_create_to_node node_c node_b 3 7) { metric = 3 }
unfolding route_create route_create_to_node
create_example = refl

route_equal_example :
    route_equal (route_to node_b node_b 1 10) (route_to node_b node_b 2 10) ≡ false
unfolding route_equal bytes_eq virtual_address
route_equal_example = refl

init_example : routing_count (routing_clear table_a) ≡ routing_count routing_init
unfolding routing_count routing_clear routing_init
init_example = refl

find_address_example :
    routing_find_route_address table_a (virtual_address network node_c)
    ≡ some (route_to node_c node_b 2 20)
unfolding routing_find_route_address find_key find_if bytes_eq virtual_address
find_address_example = refl

remove_address_example :
    (routing_remove_route_address table_a (virtual_address network node_c)).1 ≡ true
unfolding routing_remove_route_address find_key find_if bytes_eq virtual_address
remove_address_example = refl

update_seq_example :
    (distance_vector_update_seq table_a node_b adv_b 30 1 (some 5)).accepted ≡ false
unfolding distance_vector_update_seq bytes_eq
update_seq_example = refl
