-- ===== src/Lib.antt =====
-- The backend of the FuelCommunication messenger: a verification library for the services of this
-- repository.
--
-- service-calls (Calls). The signalling server of video calls keeps a map of rooms; a room keeps
-- its peers, each with a session number and the sender of its message queue. Calls/Signal.antt has
-- the messages of service-calls/src/signal.rs, Calls/Room.antt the rooms of room.rs,
-- Calls/State.antt the shared state and the idle cleanup of state.rs, Calls/Ws.antt joining,
-- relaying and leaving from ws.rs, Calls/Routes.antt the HTTP handlers of routes.rs.
-- Calls/Server.antt puts these together: an event is one critical section of the source under the
-- locks of the map, and a history is a list of events; a text frame, a cleanup and a deletion are
-- two events each, with any others in between. Calls/Ws.antt and Calls/Routes.antt also have each
-- of them whole, with no other call in between. The queue of a peer is a parameter: a type Tx with
-- try_send. The parser of client messages is a parameter, the clock and drawn room ids are
-- arguments. The DashMap and the HashMap are association lists (Base/Maps.antt).
--
-- service-channels (Channels). Channels, their subscribers and owners in two PostgreSQL tables,
-- and a cache in front. Channels/Schemas.antt has the rows, requests, pages and errors of service-
-- channels/src/models.rs, schemas.rs, error.rs and events.rs, Channels/Tables.antt the tables with
-- the constraints of migrations/001_init.sql and the statements, Channels/Store.antt the
-- operations of store.rs, Channels/Routes.antt the handlers of routes.rs. Any statement of the
-- database may fail, an error leaves the tables as they were, and any call of the cache may fail;
-- both are arguments. Channels/Search.antt has the search index of search.rs and the handler of a
-- search, over a search of the engine as a parameter; Channels/Index.antt, Channels/Indexed.antt
-- and Channels/Found.antt compare the index with the table. Channels/Listing.antt has the handlers
-- that list. Channels/Server.antt runs requests one after another; Channels/Promises.antt also has
-- two requests that interleave. A Uuid is a natural number, ids that a handler draws are
-- arguments. An i64 offset wraps (Channels/Schemas.antt). The rows of a page come in the order of
-- a parameter, since the collation is the database's. Of the event producer the model keeps that
-- it was called, and with what.
--
-- service-auth (Auth). Users, refresh tokens and linked OAuth accounts in three tables.
-- Auth/Error.antt has the errors of service-auth/src/error.rs with their gRPC status,
-- Auth/Token.antt the tokens of token.rs, Auth/Store.antt the tables of the migrations and the
-- operations of store.rs, Auth/Service.antt the handlers of service.rs, Auth/Profile.antt the
-- reading of a profile, Auth/Server.antt a history of requests, over which Auth/Spent.antt follows
-- a refresh token that was used. Auth/OAuth.antt has the providers of oauth.rs and the handler
-- that gives the address of a login, Auth/Origins.antt what they accept; the other handlers see
-- the exchange of a code as a parameter. Parameters: the requests to Google and GitHub, percent
-- encoding, signing and decoding tokens, argon2, trimming and splitting of texts. A handler gives
-- the database it leaves together with its answer, since an error after a first write does not
-- undo it. The refresh tokens stand with the newest first, which is the order of created_at. Not
-- modelled: timing.
--
-- service-gateway (Gateway). The filters between a client and the services. Gateway/Url.antt has
-- the percent encoding of service-gateway/src/auth_handler.rs, Gateway/Proxy.antt the filters of
-- lib.rs, Gateway/Body.antt the chunks of one body. Parameters: the check of UTF-8, parsing of
-- numbers, the call of service-auth, the check of a header's value; the count of the rate limiter
-- is an argument. The identity headers that Gateway/Proxy.antt sets are those that the handlers of
-- Calls/Routes.antt and Channels/Routes.antt read. Gateway/Answers.antt has the CORS headers, the
-- choice of the upstream and the answers, Gateway/Access.antt and Gateway/Callback.antt the
-- handlers under /access/ of auth_handler.rs; Gateway/Login.antt puts the login of
-- Auth/Service.antt behind the gateway's. The parsing of JSON, the answers of service-auth and the
-- text of a number are parameters there. A header value that the gateway writes itself is taken to
-- be valid. Gateway/Limit.antt has the key of the rate limiter, the requests of one of its
-- windows, the answers that end a request and the peer of one that goes on, Gateway/Window.antt
-- what a window lets through; the counting of pingora-limits is a parameter. Not modelled: log
-- lines.
--
-- service-chats and scylladb-client (Chats). Chats/Messages.antt has the tables that scylladb-
-- client/src/lib.rs makes and the statements it runs on them, with a null for a column that was
-- never written, Chats/Rooms.antt the events, the rooms, the send loop of a socket and the events
-- of service-channels (service-chats/src/api/schemas.rs, state.rs, api/router.rs, lib.rs),
-- Chats/Receive.antt the receive loop, the history and the admission of a socket (api/router.rs).
-- Chats/Views.antt and Chats/Refine.antt compare the store with a map from identifiers to
-- messages; Chats/Admission.antt joins the admission with the check of Channels/Routes.antt.
-- Parameters: the JSON of a frame, trimming, the texts of a Uuid; identifiers, times and whether a
-- statement runs are arguments. A statement that fails is one that was not carried out. A time is
-- in nanoseconds and is stored in milliseconds, as the client of the database does. What a
-- receiver of a broadcast gets is a list of events, gaps and the end of the channel, in any order
-- with the events of the socket's own channel. Not modelled: user_messages, which nothing reads,
-- pages with a paging state, connecting and migrating.
--
-- service-images (Images). Images/Client.antt has the single calls of s3-client/src/lib.rs over an
-- interface of the bucket, with what S3 says of it as laws on the objects that are stored, where
-- any request may fail, Images/Router.antt the handlers and checks of service-
-- images/src/api/router.rs and the answers of error.rs, Images/Lifecycle.antt what becomes of an
-- image. Parameters: the bucket, the parsing of a Uuid, the form as axum gives it; the new key is
-- an argument.
--
-- s3-client (S3). Objects in parts, from s3-client/src/lib.rs: S3/Download.antt and S3/Upload.antt
-- have the two loops, S3/Pieces.antt and S3/Parts.antt compare them with the object and the file
-- cut into pieces. Parameters: the answers to the requests and to the calls for the file. A usize
-- has 64 bits and wraps; a part number is written as its 32 bits. The loops run on fuel: a turn of
-- the download covers at least one byte, a turn of the upload sends at least one, and a read of a
-- buffer brings at least one, so as much fuel as there are bytes is enough (for a buffer, one more
-- than its size), which the theorems on the two loops show. S3/Whole.antt has the calls for a
-- whole bucket and those that start and continue an upload in parts, over the requests as
-- parameters, S3/Cleared.antt what a cleared bucket holds.
--
-- Routes (Routing). Routing/Tables.antt has the routes that service-calls/src/lib.rs, service-
-- channels/src/lib.rs, service-chats/src/lib.rs and service-images/src/lib.rs set up,
-- Routing/Reach.antt joins them with the filters of the gateway. The choice of a route is axum's,
-- and so a parameter with what axum says of it. Not modelled: the layers for CORS, timeouts,
-- traces and metrics.
--
-- valkey-client (Valkey). Valkey/Query.antt has the commands of the redis crate as an interface
-- and the errors of valkey-client/src/error.rs, Valkey/Client.antt and Valkey/Structures.antt the
-- calls of valkey-client/src/lib.rs. Valkey/Keys.antt has the keys of the caches of service-
-- channels/src/routes.rs, Valkey/Caches.antt what Redis documents of three commands and the cache
-- calls of the handlers, Valkey/Refine.antt compares these, made through the client, with the two
-- maps of Channels/Routes.antt. Parameters: the server, serde_json, the texts of a Uuid. Not
-- modelled: connecting, the Lua script of del_pattern, the commands on ranges and increments of
-- sorted sets, flush_db and dbsize.
--
-- Lengths are those of String::len, in bytes. Elsewhere no model uses fuel: every recursion is on
-- a list. Not modelled at all: the client of Kafka, the seed script, configuration and start of
-- the services.
pub mod Auth
pub mod Base
pub mod Calls
pub mod Channels
pub mod Chats
pub mod Gateway
pub mod Images
pub mod Routing
pub mod S3
pub mod Valkey
