-- ===== src/Lib.antt =====
-- CoreLink is an overlay network: a controller computes topology and configuration, nodes and relays
-- carry IP packets for each other in frames over tunnels. This library models the parts that decide
-- what happens to a packet, a link, a flow and an address, and proves what they promise.
--
-- The parts and their files:
--   Prelude      shared names, Boolean tests, lists over native numbers, byte strings, Go maps as
--                association lists, sorting, and `Outcome`: a value, an error, or a run-time panic.
--   Wire         internal/transport/frame.go. Header: the frame header, stream frames, datagrams,
--                keepalives and DNS frames (WriteStreamFrame is `write_stream_frame`, and so on);
--                Probe: path probe payloads; Bandwidth: bandwidth frames. A connection is the list
--                of its bytes; Addr is the used part of net/netip.Addr.
--   Framer       internal/transport/framer.go on top of Wire: `write_packet`, `write_keepalive`, and
--                `read_packet` with its filters, which turns bytes into effects and a result.
--   Fib          internal/transport/fib/fib.go: Prefix (net/netip.Prefix), Table (Insert, Remove,
--                Lookup over a map in any order), Ttl (DecrementTTL, ExtractDstIP on raw packets).
--   LinkState    internal/nodecore/probe/linkstate_machine.go: `observe` is LinkFSM.Observe with the
--                clock's reading as an argument.
--   FlowTrack    internal/nodecore/flowtrack: Packet (ParsePacket, FlowKey.Hash), Tracker (NewTracker,
--                Track, Expire over sharded maps).
--   Ipam         internal/controller/ipam/ipam.go: New, Allocate and Release over the lease table of
--                internal/controller/store, which is a parameter.
--   Selector     internal/nodecore/multirelay/selector.go: New, the health reports and Tick, with what
--                the probe yields as an argument and the switch that the callbacks report as a result.
--   Topology     internal/controller/topology. Dag: dag.go, the searches for cycles (validateDAG,
--                findOneCycle); Prune: dag.go, the forwarding graph of the tables and the removal of
--                its cycles; Tables: fib.go, the tables from the baseline routes (computeFIB);
--                Published: fib.go, the published prefixes (InjectPublishedPrefixes). Roles:
--                eligibility.go (ClassifyNodes); Peers: prune.go (Prune); Vertex: graph.go (coreV, ingV,
--                parseV); Shortest: kpaths.go (dijkstra); Baseline: kpaths.go (BuildSplitGraph, KShortest,
--                BaselineRoutes); Assign: assign.go (neighbours, uplinks, probe targets); Optimizer:
--                optimizer.go (Optimize), which calls all of these.
--   Reachability internal/nodecore/connpool/reachability.go: which addresses may be dialled (ShouldDial,
--                CheckAndDial, MarkReachable, MarkUnreachable), with the clock and the ping as arguments.
--   Ecmp         internal/ecmp/ecmp.go: RendezvousSelect, mixHash and FlowHash.
--   MeshRoute    internal/relay/mesh/fib_route.go: FIBRoute over Fib and Ecmp. Session: session_route.go,
--                SessionRouter with SetBaseline, Pick, Degrade, MarkUnavailable and SweepStale.
-- Each component's file holds the definitions, its child modules the theorems, and its Examples
-- module the concrete runs.
--
-- Bounds and fuel: the reading loop of Framer has as many rounds as the stream has bytes and one
-- more; each frame takes twelve bytes, so the rounds suffice. The carry loop of DecrementTTL has two
-- rounds, which fold every 32-bit sum. The depth-first searches of Topology have fuel for every vertex
-- and one more, the walk back over the parents for every vertex of the path, and the removal of cycles
-- for every edge and one more: each round removes an edge. The loop of `dijkstra` has a round for every
-- edge and two more, since a vertex queues its edges once, and the walk back over its predecessors one for
-- every visited vertex. Words keep their width by `% 2 ^ w` where the
-- code wraps; where it does not, a hypothesis bounds them.
--
-- Parameters: the float64 operations of the link state machine and of Ecmp, the float64 round-trip time
-- of a route entry, the bytes of a string, the hash of hash/fnv, the database of leases and the text form of addresses.
--
-- A walk over a Go map meets its keys in the order of the association list, once: a theorem for all
-- lists is one for all orders of a map that is given, and a map that the code makes on its way is met in
-- the order of its insertions. `slices.SortFunc` is an insertion sort.
--
-- Not modelled: sockets, goroutines and locks (each locked call is one step), buffer pools, logging,
-- datagram reading of the framer, callbacks, and the packages that are not named above.
pub mod Prelude
pub mod Wire
pub mod Framer
pub mod Fib
pub mod LinkState
pub mod Ipam
pub mod FlowTrack
pub mod Selector
pub mod Topology
pub mod Ecmp
pub mod MeshRoute
pub mod Reachability
