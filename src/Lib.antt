-- ===== src/Lib.antt =====
-- A model of rust-ospfd, an OSPFv2 router, and what is proved of it.
--
-- The parts of the program and the files here:
--   * ospf-packet/src/lsa.rs (structures, checksum, order of headers): Packet/Lsa, Packet/Checksum,
--     Packet/Order, Packet/Convert. ospf-packet/src/bits.rs: Packet/Bits. The code that the macros of
--     ospf-macros/src/decorator.rs derive: Packet/Macros, and with each struct's fields Packet/Codec.
--     ospf-packet/src/packet.rs: Packet/Types and Packet/Codec/Packets.
--   * ospfd/area/mod.rs and lsa.rs, the link state database: Area/Lsdb. ospfd/database/mod.rs:
--     Database. ospfd/area/tree.rs: Area/Nodes, Area/Edges, Area/Tree (the search, with its proof in
--     the modules below it) and Area/Routes. ospfd/database/routing.rs: Routing and Routing/Mask (items
--     and masks), Routing/Table (`RoutingTable`).
--   * ospfd/neighbor: Neighbor/State (the struct), Neighbor/Event (the handlers of `NeighborEvent`
--     and the request sender of pair.rs).
--   * ospfd/interface: Interface/State, Interface/Elect (`select_dr`), Interface/Event;
--     a round of the hello timer and of the retransmission timer: Timers.
--   * ospfd/sender.rs: Sender. ospfd/flooding.rs: Flooding. ospfd/handler: Handler/Hello, Handler/Dd,
--     Handler/Lsr, Handler/Lsu and Handler/Ack, one file for each, and Handler/Dispatch (mod.rs).
--   * ospfd/gen_lsa.rs: Origin, with the bodies in Origin/Bodies and their equality in Origin/Same.
--     ospfd/interface/listen.rs:
--     Listen. ospf-packet/src/lib.rs: Packet/Ospf.
--   * ospf-routing/src/lib.rs: Routing/Socket. The wrapped calls of ospfd/database/routing.rs and what
--     is assumed of the kernel's table: Routing/Kernel.
--   * ospfd/command.rs: Command/Text (what it uses of `String`), Command/Editor (`LineEditor`),
--     Command/Menu (the tree of commands), Command/Parse (`parse_cmd`), Command/History
--     (`main_loop`), Command/Numbers and Command/Effects (what the commands change).
--   * ospfd/capture.rs and daemon.rs: Capture. ospfd/main.rs, `Interface::from` and the start of
--     ospfd/database/mod.rs: Startup.
-- A frame passes the capture and becomes a packet for `Handler.Dispatch.receive`. A packet goes from
-- there to a handler, from a handler to the events of a neighbor, from there to those of the interface, of
-- which the election calls `adj_ok` of every neighbor; flooding and the handlers read the database
-- and send through `send_packet`, which marks the LSAs that it sends in the database.
--
-- How the code is rendered. State is passed and returned: a `Neighbor`, an `Interface` with its
-- neighbors as an association list, and a `World` of the database and the packets sent. An address
-- is the number of its four octets. A field of w bits is a number; where a theorem needs its range it
-- says so. `none` is a panic: an `unwrap` of `None`, a failed `assert!`, a read past the end of a
-- buffer, or an overflow of unsigned arithmetic as in a build that checks it. A spawned task is
-- `running` until it is aborted or ends. The clocks and the router's identifier come in an `Env`.
-- The locks are held for a whole event, so that an event is one step.
-- What the network device answers to the packets is a part of the `World`; an error or a short count
-- is a panic. The requests to the kernel's routing table are a list there; Routing/Kernel carries
-- them out on an interface to the kernel, of which nothing is assumed where a network has several
-- gateways. Whether the thread of the command line runs asynchronous code, in which `block_on` and
-- `blocking_lock` panic, is an argument. A text is a list of code points, and an index into it counts
-- the bytes of UTF-8.
--
-- Fuel: the loop of `select_dr` has fuel for two rounds, and the loop of a decoder that reads to the
-- end of the buffer has the number of bytes left, of which each item takes one at least. The search
-- for the shortest paths has fuel for one round more than there are edges, each of which is offered
-- once at most. `main_loop` of the command line has fuel for its rounds, each of which uses a key.
--
-- Not modelled: the devices, sockets and terminals of the host and logging, which are input and
-- output, with what the commands print and the editor draws; the locks, of which every step holds
-- what it needs; the text forms of the structures; and the reading of the headers of Ethernet, IPv4
-- and OSPF from bytes, which pnet does. The search in a trie, the change to lower case and the
-- kernel's routing table are interfaces.
pub mod Area
pub mod Capture
pub mod Command
pub mod Database
pub mod Examples
pub mod Flooding
pub mod Handler
pub mod Interface
pub mod Listen
pub mod Neighbor
pub mod Origin
pub mod Packet
pub mod Prelude
pub mod Routing
pub mod Sender
pub mod Startup
pub mod Timers
