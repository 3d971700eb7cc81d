-- ===== src/Lib.antt =====
-- Verification of the routing core of madoka, a peer-to-peer overlay network.
--
-- A node keeps a table of neighbours (Peers), learns routes from their advertisements (Routes),
-- and forwards data packets by them (Forward, Packet). Contacts further away are kept in a
-- Kademlia table (Kademlia), which a node fills by joining the network (Join). Messages go over
-- streams in frames (Codec), which sessions cut and put together again (Session); control messages
-- pass a gate to the hooks that send and handle them (Control), and have wire formats of their own
-- (Wire). The state of the node itself is a small state machine (Lifecycle), and the texts of its
-- configuration name endpoints and ids (Config). The peers that an invitation has let in are kept in a
-- table of their own (Trust). The parts meet in few places: HELLO and neighbour
-- advertisements write the peer table, a route advertisement is made from one routing table and
-- merged into another, forwarding looks its next hop up in the routing table, and the messages of
-- joining are read from their wire format and write the Kademlia table.
--
-- Files and code, by paths from the root of the repository (a .cpp with its .hpp of the same name
-- under include/):
--   Common, Keyed      no code of their own: tests on numbers, lists, and vectors searched by an id
--   Bytes              byte arrays of include/core/config.hpp, `virtual_address` of
--                      src/core/config.cpp, and the big-endian words of
--                      src/network/data_serialization.cpp, serialization.cpp beside it,
--                      and src/protocol/codec.cpp
--   Peers/Peer         src/network/peer.cpp
--   Peers/Topology     src/network/topology.cpp
--   Peers/Heartbeat    src/network/heartbeat.cpp
--   Peers/Discovery    src/network/discovery.cpp
--   Routes/Route       src/network/route.cpp
--   Routes/Table       src/network/routing.cpp
--   Routes/Advertisement  src/network/route_advertisement.cpp
--   Routes/DistanceVector src/network/distance_vector.cpp
--   Forward            src/network/forwarding.cpp, include/metrics.hpp
--   Packet             src/network/data_packet.cpp; Packet/Serial src/network/data_serialization.cpp
--   Codec              src/protocol/codec.cpp, include/protocol/message.hpp
--   Lifecycle          src/network/node_state.cpp
--   Control            src/network/control_message.cpp
--   Wire, Wire/Advertisement, Wire/Contact, Wire/Join  src/network/serialization.cpp
--   Kademlia, Kademlia/Closest  src/network/kademlia.cpp
--   Join, Join/SelfLookup  src/network/join.cpp; Join/Message include/network/join.hpp
--   Session            src/transport/session.cpp: closing and receiving; Session/Send sending, with
--                      `tls_send` of src/crypto/tls.cpp; Session/Connect the server and both sides'
--                      connections
--   Config/Text, Config/Endpoint, Config/Hex, Config/Ports  src/core/config.cpp
--   Trust              src/security/invite.cpp, include/security/invite.hpp: the trusted peers;
--                      Trust/Base64 the encoding of their records and of invitations;
--                      Trust/Invite how an invitation is made and written
-- The other files of these folders hold proofs, and are named for what they prove; Tests holds runs
-- on concrete data.
--
-- How the code is modelled. A definition has the name of the function, method, struct or
-- constant. A function that writes through a pointer or reference returns the new value beside
-- its result; a pointer that may be null is an option. Integers are natural numbers, with the
-- wrap-around written out where the code can wrap; the widths are hypotheses (IsByte, IsU32,
-- IsU64) where they matter. An array has a fixed length by the hypothesis IsArray. A callback or
-- hook is a flag that says whether it is set, and a call of it an event; the ping of Kademlia is
-- any function. A digest, `inet_pton` and the answers of other nodes are functions too; what the
-- calls of a socket or of TLS return is a list, one item for each call, and what the writes of a
-- trusted peer's file return is given with the operation. Error messages are constructors. Reads of
-- a buffer are checked: one that is out of bounds is `fault`, a result of its own.
--
-- Loops are recursion on the list they run over; those of a session run over the list of the calls
-- of its socket. Fuel is used three times: for the journey of a packet through a network of nodes,
-- which is no code of the repository, where fuel above the ttl is enough; for the digits of a number,
-- where one more than the number is enough; and for the characters that base64 pushes, with a round
-- for each bit where a round takes six.
--
-- Not modelled: the records of src/security/invite.cpp, its files, and how an invitation is read
-- and consumed; the configuration file (src/core/config.cpp); and what consists of calls of the operating system or of the cryptographic
-- library: src/core/app.cpp, src/core/daemon.cpp, src/core/lifecycle.cpp, src/crypto apart from
-- `tls_send`, src/platform. Locks, atomic flags and timeouts are left out as well.
pub mod Common
pub mod Bytes
pub mod Keyed
pub mod Peers
pub mod Routes
pub mod Packet
pub mod Forward
pub mod Codec
pub mod Lifecycle
pub mod Control
pub mod Kademlia
pub mod Wire
pub mod Join
pub mod Config
pub mod Session
pub mod Trust
