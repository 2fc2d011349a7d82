-- ===== src/Lib.antt =====
-- A verification library of NAT Data Collector: a server that brings two mobile clients together
-- for a NAT traversal, the collection of addresses on the client, and what server and clients share.
--
-- How the parts interact. A client sends packages (Shared/SharedProtocol.h) over TCP. A session
-- (ServerSource/src/Server/Session.cpp) cuts the stream into messages and hands each, unpacked, to
-- the dispatch (ServerSource/src/RequestHandler/ServerTransactionHandler.cpp), which runs the handler
-- of its transaction. Handlers change the lobbies of the server (ServerSource/src/Server/Server.cpp)
-- or the database (ServerSource/src/Utils/DBUtils.h), and answers go out as tasks posted to the
-- server's executor, which hand bytes to the queues of the sessions. On its side the client collects
-- the addresses that its NAT shows, classifies the NAT by them, and publishes what arrives to the
-- callbacks of its states, which
-- share the model of the app.
--
-- The files.
-- - Prelude: Boolean tests, lists, options, decimals, and the ordered map that stands for std::map.
-- - Types: the enumerations and constant maps of Shared/SharedTypes.h.
-- - Json: JSON documents, conversions and codecs, parameters with the laws that they keep.
-- - Errors, Protocol: Error, MetaVariant and DataPackage of Shared/SharedProtocol.h.
-- - Framing: the header of a message, the reading of a stream, and (Framing.Package) compression,
--   of Shared/Compression.h, Shared/SharedProtocol.h and ServerSource/src/Server/Session.cpp.
-- - Session: the queue of messages to write, of ServerSource/src/Server/Session.cpp, as steps.
-- - Data: the structs of Shared/Data that client and server exchange.
-- - Database: ServerSource/src/Utils/DBUtils.h over a driver that is a parameter.
-- - Server: ServerSource/src/Server/Server.cpp; a session is known by its number, the hash of the
--   peer's address, and `posts` are the tasks that wait for the executor.
-- - LobbyRequests, TraversalUpload: the handlers of
--   ServerSource/src/RequestHandler/SessionRequestHandler.h.
-- - DatabaseRequests: the handlers of ServerSource/src/RequestHandler/MongoRequestHandler.h.
-- - System, Transactions: the state of the process, the dispatch, and the process as a step
--   relation: connections, requests, expiries and tasks in any order.
-- - Classifier: the classification of NATs, of AndroidSource/src/Components/NatClassifier.cpp.
-- - Predictor: the predictions of AndroidSource/src/Predictors/Predictor.h; `rand()` is a sequence of
--   numbers, and RAND_MAX a parameter.
-- - Collect: the collection of addresses by UDP of AndroidSource/src/Components/UDPCollectTask.cpp.
--   Collect.Stages has the task and the preparation of a stage, Collect.Ports the binding of a socket,
--   Collect.Steps and Collect.Run the handlers and the run of a task over events.
-- - CollectPlan: the stages of a collection, of Shared/Data/Address.h and CalculateCollectStages of
--   AndroidSource/src/Components/NatTraverserClient.cpp.
-- - Client: the rest of AndroidSource/src/Components/NatTraverserClient.cpp, with the queue of
--   AndroidSource/src/CustomCollections/ConcurrentQueue.h: its requests, the tasks that run beside it,
--   the publishing of packages, and (Client.Connection) reading and writing; a callback is a number, and
--   what it does is a parameter.
-- - Echo: the UDP echo service of ServerSource/src/Server/AddressRequest.cpp.
-- - ClientLog, Timer: AndroidSource/src/CustomCollections/Log.h and SimpleTimer.h.
-- - Holepunch: AndroidSource/src/Components/UDPHolepunching.cpp: a task over the completions of its
--   sends, arrivals and timers, in any order.
-- - Model: the states, the queue of pop-ups and the events of AndroidSource/src/Model/NatCollectorModel.cpp
--   and AndroidSource/src/CustomCollections/Event.h; what a callback does is a parameter.
-- - UserGuidance, CollectSamples, Traverse: the states of the app in which it starts, collects and
--   traverses, of GlobUserGuidance.cpp, GlobCollectSamples.cpp and GlobTraverse.cpp in
--   AndroidSource/src/Components. Each has its handlers, what they keep (Quiet), and any sequence of
--   calls (Acts); the packages that the client publishes are their input.
-- - AppConfig, UserData, Scoreboard: Config.h, UserData.cpp and Scoreboard.cpp in
--   AndroidSource/src/Components.
-- - Examples: the theorems at concrete inputs.
--
-- How code corresponds to definitions. A function of the source keeps its name in snake case, and
-- its further stages are definitions above it. An exception or an undefined access is `none`. An
-- asynchronous operation of asio is an event or a task of its own. JSON, MessagePack, zstd, the
-- serialization of structs and the database driver are records of functions. Locks are not modelled:
-- each handler and each task is one step.
--
-- Bounds and fuel. Numbers that the source keeps in a machine word wrap where the code can reach
-- the bound. The decimals of a number have the number plus one as fuel, and the reader of a
-- stream has fuel above the number of messages. The loop that closes pop-ups has the number of
-- pop-ups. The loop of the random prediction need not end; its theorems say which fuel is enough,
-- and when none is. The search for a free port has one round over all ports as fuel.
--
-- Not modelled: drawing and input, operating system services, HTTP, the idle state, which only
-- calls the model, start and configuration of the server's process, and asio itself. Lines that
-- the client writes to its log are left out of the other operations. A completion that asio has
-- queued before a stage is cleared is left out, and the collection's theorems say nothing of it.
-- Strings are taken to be UTF-8, for which the library's dump of a document gives a text; for
-- others it throws. The products of two uint16_t that set the timers of requests, which are of
-- type int, are numbers without a bound, while those that GlobTraverse.cpp plans a traversal by
-- are nothing where an int overflows. RAND_MAX + 1 is at least the number of collected addresses.
pub mod Prelude
pub mod Types
pub mod Json
pub mod Errors
pub mod Protocol
pub mod Framing
pub mod Holepunch
pub mod Session
pub mod Data
pub mod Database
pub mod Server
pub mod System
pub mod LobbyRequests
pub mod DatabaseRequests
pub mod TraversalUpload
pub mod Transactions
pub mod Classifier
pub mod Examples
pub mod Predictor
pub mod ClientLog
pub mod Timer
pub mod Collect
pub mod Client
pub mod Echo
pub mod CollectPlan
pub mod AppConfig
pub mod Model
pub mod UserData
pub mod Scoreboard
pub mod UserGuidance
pub mod CollectSamples
pub mod Traverse
