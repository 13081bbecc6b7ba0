-- ===== src/Lib.antt =====
-- gdiroh: peer-to-peer networking for Godot over iroh. This library models the parts of the extension
-- that are its own: Godot's multiplayer session over QUIC connections, the dispatcher that routes
-- inbound connections by ALPN, raw streams, the runtime that carries the tasks, and the endpoint with
-- the gossip topics, blob transfers and documents that the game starts through it.
--
-- The parts, by file:
--   Prelude      Boolean tests, maps as association lists, lists and 32-bit words, shared by all.
--   Wire         gdiroh/src/session.rs, `Control::encode` and `decode`; `Buf` stands for the words that
--                the bytes crate puts and gets. Wire/BigEndian is one such `Buf`.
--   Frames       gdiroh/src/session.rs, `spawn_stream_writer` and `read_stream`: one reliable channel.
--   Session      gdiroh/src/session.rs, the task's `State`: Session/Send is `send` to `write_datagram`,
--                Session/Members `welcome`, `apply` and `lost`, Session/Run the loop of `run`,
--                Session/Reader the datagram reader, Session/Handle the main thread's `Session`.
--   Dispatch     gdiroh/src/dispatch.rs, `Dispatcher`, `Registration`, `Claim` and the accept loop.
--   Raw          gdiroh/src/raw.rs, `Stream`, `carry` and `path_info`; Raw/Connection is `dial`, `adopt` and
--                `pump`.
--   Stream       gdiroh/src/stream.rs, `IrohStream` over a raw stream.
--   Connection   gdiroh/src/connection.rs, `IrohConnection` over a raw connection's events.
--   Runtime      gdiroh/src/runtime.rs, `Lease` and the shared slot.
--   Peer         gdiroh/src/peer.rs, `IrohPeer` over a session's handle; Peer/Calls is what Godot calls,
--                Peer/Puts what its calls for sending come to, Peer/Expected where its session leaves it.
--   Blobs        gdiroh/src/blobs.rs, what the operations of `Depot` report and answer.
--   Transfer     gdiroh/src/transfer.rs, `IrohTransfer` over the queue that an operation fills.
--   Gossip       gdiroh/src/gossip.rs, the task of a topic.
--   Topic        gdiroh/src/topic.rs, `IrohTopic` over a topic's two queues.
--   Docs         gdiroh/src/docs.rs, the task of an open document; Docs/Queries is the replies
--                of `Library`.
--   Document     gdiroh/src/document.rs, `IrohDocument` over a document's two queues.
--   Endpoint     gdiroh/src/endpoint.rs, `IrohEndpoint`: binding and listening; Endpoint/Services is `swarm`,
--                `depot` and `library` with what the game starts through them, Endpoint/Requests the
--                questions to the stores, Endpoint/Receiving `drain_listeners`, Endpoint/Life settings, the
--                frame and closing. Endpoint/Operations is all that can happen to one.
--   Stores       gdiroh/src/blobs.rs and gdiroh/src/docs.rs, `StoreHandle` and `DocsHandle`.
--   Stats        gdiroh/src/stats.rs, `metrics` and `connection`. The diagnostics of a peer, a connection
--                and an endpoint are in the Diagnostics module of each.
--   Journey      gdiroh/src/peer.rs and gdiroh/src/session.rs together: a reliable packet from the game that
--                puts it to the game that gets it; Journey/Members is membership from a host to a client.
--
-- A handler is a function of the state it changes. Channels between tasks are lists, oldest first. What
-- `select!` picks, what the network does and when a call is made are inputs, in a list whose order
-- stands for the scheduler. An `i32` or `u32` is its 32-bit
-- pattern, with the wrap written out, and the width of a `usize` is a parameter where it matters. A
-- panic is a value of its own. Loops run over the lists they consume; the one that runs on fuel,
-- `cut_frames`, has as much as there are bytes, each round takes at least four of them, and
-- Frames/Complete has that it leaves no whole frame.
--
-- Not modelled: iroh, tokio and Godot, which appear as outcomes and parameters; the text of tickets,
-- and logging. That the runtime stops and drops the tasks of topics, documents and transfers is an
-- input of theirs; for a session's task it is that no more inputs come. What the
-- stores of iroh-blobs and iroh-docs answer is an outcome.
pub mod Prelude
pub mod Wire
pub mod Frames
pub mod Session
pub mod Dispatch
pub mod Raw
pub mod Stream
pub mod Connection
pub mod Runtime
pub mod Peer
pub mod Blobs
pub mod Transfer
pub mod Gossip
pub mod Topic
pub mod Docs
pub mod Document
pub mod Endpoint
pub mod Stores
pub mod Stats
pub mod Journey
