-- ===== src/Lib.antt =====
-- The s-net gateway: a server that connects gateway clients (TCP) with devices behind HDLC daemons,
-- and that routes packets between them.
--
-- The program's parts, and where they are modelled (paths from the repository's root; GAS stands
-- for src/GatewayAccessServer):
-- - GAS/GatewayAccessProtocol/GatewayAccessFrames: the frames on the wire, escaping-based and
--   length-based. Frames/Escaped.antt and Frames/LengthBased.antt: Create, GetPayload, Serialize
--   and Deserialize of both classes. A buffer is a list of bytes whose last element is the back of
--   the vector; an assert is a fault.
-- - GAS/GatewayAccessProtocol/CommandResponseFrames: the two-byte request identifiers in front of
--   an escaped packet. CommandResponse.antt.
-- - GAS/GatewayAccessProtocol/GatewayAccessProtocol.cpp: the framing mode of one connection, Send
--   and OnFrame. Protocol.antt, over any frame endpoint. Protocol/Factories.antt has the frame
--   factories that its constructor registers.
-- - GAS/AddressService: AddressPool.antt (AddressPool.cpp, AddressLease.cpp) has the short
--   addresses of the clients, AddressService.antt (AddressService.cpp) answers requests for an
--   address.
-- - GAS/PublishSubscribeService: PublishSubscribe.antt has the subscriptions of one client and
--   their requests.
-- - src/Routing: Routing.antt decides where a packet goes.
-- - GAS/GatewayAccessServerHandler.cpp: one connected client. Handler.antt puts the protocol, the
--   two services and the lease of an address together: Send filters what goes to the client,
--   OnPayload serves or routes what comes from it.
-- - GAS/GatewayAccessServerHandlerCollection.cpp: all clients. Collection.antt accepts, registers,
--   closes, sends to all and shuts down.
-- - src/HdlcdClient: Hdlcd.antt (HdlcdClientHandler.cpp) resolves, connects and retries one HDLC
--   daemon; HdlcdCollection.antt (HdlcdClientHandlerCollection.cpp) has one handler for each
--   daemon.
-- - src/main-snet-gateway.cpp: Main.antt has the decisions on the options, the destinations, the
--   start, the shutdown and what `main` returns.
-- - Gateway.antt puts all of it together: one function for each completion that the event loop
--   delivers (handle), and the event loop as a function of the list of its events (run). In
--   Gateway/, Relay, Delivery, Exchange, Wire, Peers and Uplink follow a packet through the
--   program, Requests has the frames of a client, Assigning and Subscribing follow its requests,
--   and Subscribed what comes of it; Invariant, Runs, Steady and Daemons are about what any events
--   keep, Totality and Termination about what it takes for them not to fault, Crashes and Overload
--   about what makes them fault, and Isolation about what a client's events cannot change. Links
--   adds a link to each HDLC daemon, so that completions come only for what is under way, and
--   Recovery brings a link up; Main/Daemons.antt starts from the options of the program.
-- - Spec.antt is an abstract view of the gateway: connected clients with an address, a framing mode
--   and the services they want, and what a client may do to itself. It knows no frames, packets,
--   pools or endpoints. Gateway/Acts.antt and Gateway/Refinement.antt relate the events to it.
-- How they interact: a connection is accepted by the collection, which takes an address from the
-- pool and makes a handler that owns the lease; a frame from the client goes through the protocol
-- to OnPayload of its handler, and from there to a service or to the routing entity, which hands it
-- to the collection or to the HDLCd side; the collection's Send goes to Send of each handler and
-- through its protocol to the frame endpoint. A callback, and a call of one object on the object
-- that owns it, is a value that the caller carries out next: each is the last thing that its
-- operation does. Gateway.antt carries them out.
--
-- State is passed explicitly. What can fail is a Result (Prelude/Result.antt): an assert that does
-- not hold, an access out of range and a dereferenced null pointer are faults, which end the run.
-- Bytes are natural numbers; a statement that needs them below 256 says so (IsBytes). The 16-bit
-- counter of addresses keeps its wrap-around. Shifts and masks are division and remainder. The only
-- fuel is that of the loop of SystemShutdown: each round closes a client, which takes it off the
-- list, so that as many rounds as there are clients, and hence as many as there are addresses, are
-- enough. The event loop and the loop over the destinations are recursion on their lists.
--
-- What is taken from other repositories (git submodules) is a parameter, in External: the frame
-- reader, the frame stream and the frame endpoint of libs/framing, SnetServiceMessage of
-- libs/snet-devel, and HdlcdClient of libs/hdlcd-devel, with the laws that the code relies on. Each
-- has an instance, in External or in Tests.
--
-- Not modelled: the parsing of the command line and the texts that src/main-snet-gateway.cpp
-- prints, src/Config.h (version macros), and the libraries of boost: the completions of boost::asio
-- are the events that the operations stand for, a signal is the end of their list, and an exception
-- that boost throws (a port in use, options that cannot be parsed) does not occur.
pub mod Prelude
pub mod External
pub mod Frames
pub mod CommandResponse
pub mod Protocol
pub mod AddressPool
pub mod AddressService
pub mod PublishSubscribe
pub mod Routing
pub mod Spec
pub mod Handler
pub mod Collection
pub mod Hdlcd
pub mod HdlcdCollection
pub mod Gateway
pub mod Main
mod Tests
