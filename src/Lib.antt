-- ===== src/Lib.antt =====
-- goshire, a Go framework for servers and clients of the strest protocol, which carries requests with
-- a uri, a method and parameters over HTTP, JSON streams, websockets and a binary protocol.
--
-- The parts and the files that model them:
--
-- * dynmap (dynmap/dynmap.go, dynmap/typecast.go): a map from strings to values of any type, with
--   dotted keys that walk through maps inside maps. DynMap/Fields has the values and Go's map
--   operations, DynMap/Path the operations that honour the dot (Get, PutWithDot, PutIfAbsent, PutAll,
--   AddToSlice), DynMap/Copy has Clone and ToMap, DynMap/Cast and DynMap/Number the conversions, and
--   DynMap/Getters the typed getters, DynMap/Url the maps as url.Values and DynMap/Toml the reader of
--   dynmap/toml.go. A Go map is a list of fields with each key once.
-- * cheshire, the binary protocol (cheshire/protocol_bin.go): Wire/Bytes has the big-endian integers,
--   Wire/Reader and Wire/Writer have ReadString, WriteString and the other length-prefixed calls,
--   Wire/Copy has CopyByteArray and CopyN, Bin has the constant tables, Bin/Decode the decoders and
--   Bin/Encode the writers. Outcome has the errors and the panics that they end in. encoding/json is the
--   interface Bin.JsonCodec.
-- * cheshire, the packets (cheshire/strestpackets.go): Strest has Request, ShardRequest and Response,
--   Strest/Convert what makes them of maps and maps of them, Strest/Quote has JSONEncodeString,
--   Strest/TxnId has NewTxnId.
-- * cheshire, the router (cheshire/router.go): Router has Register, reg, match and Match.
-- * cheshire, the JSON of packets (cheshire/strestpackets.go): Strest/Json has MarshalJSON of both.
-- * cheshire, the binary listener (cheshire/binarylistener.go): Bin/Stream has handleConnection.
-- * cheshire, the controllers (cheshire/controllers.go, cheshire/filters.go): Handler has HandleRequest,
--   Txn.Write and the controllers that NewController makes, Handler/Session the session filter.
-- * cheshire, helpers (cheshire/helpers.go): Helpers has the responses to a transaction.
-- * cheshire, HTTP (cheshire/httplistener.go): Http has ToStrestRequest, ServeHTTP and the HttpWriter.
-- * cheshire, pages (cheshire/html.go): Html has pages, redirects, flashes and the HtmlController.
-- * cheshire, JSON and websockets (cheshire/protocols.go, cheshire/jsonlistener.go,
--   cheshire/websocketlistener.go): JsonStream has the decoder, the writers and the loops of both.
-- * cheshire, configuration (cheshire/config.go): Config makes a ServerConfig of a YAML tree.
-- * cheshire, bootstrap (cheshire/bootstrap.go): Bootstrap has the queue of controllers and the Init
--   methods, Bootstrap/Start the listeners that Start starts, Bootstrap/Serving the way from
--   RegisterApi to the binary listener.
-- * cheshire, the cache (cheshire/impl/gocache/cache.go): GoCache over the third-party cache.
-- * closer (closer/closer.go): Closer.
-- * client, the pool (client/pool.go): Client/Pool, a step relation whose steps are what one goroutine
--   does between two points at which another may run. Client/Pool/Build has NewPool, and
--   Client/Pool/Ledger the abstract view of a pool, which forgets order and sends under way.
-- * client, a connection (client/connection.go): Client/Conn, a step relation for sendRequest, the
--   event loop, Close and cleanup.
-- * client, the client (client/client.go): Client/Api has the retries of connection, the shares of
--   Connect and doApiCall, Client/Calls has Connect, Close, the synchronous calls and the HttpClient.
-- * timeamount (timeamount/timeamount.go): TimeAmount has Parse and String, TimeAmount/Epoch the epochs
--   and the durations.
-- * log (log/logger.go): Logger has the listeners of log events.
-- * stats (stats/stats.go): Stats has the counters of each time amount, with add and get, Stats/Loop the
--   channels and the event loop as a step relation, Stats/Tally a count of the events.
--
-- A request that a client sends is written by Bin/Encode, after the pool lent a connection and the
-- connection gave it a place in flight; on the server Bin/Decode reads it and the router chooses a
-- controller. Base has the shared notation, lists, conditionals and signed integers, and Text has byte
-- strings.
--
-- Widths: an integer on the wire has 1, 2, 4 or 8 bytes and is converted with its wrap-around
-- (Base/Int to_word, of_word); the counters of Stats, the products of TimeAmount/Epoch and NewTxnId
-- wrap around as int64. Other `int` and `int64` values are unbounded integers. The loop of
-- handleConnection runs on fuel, one round for each byte that the peer sends and one more, and each
-- round takes two bytes or more; the digits of a number run on fuel above the number, which each
-- round divides by ten. Every other loop is over a list, a map or a count. A writer has room for a
-- number of bytes, and a write past it fails; a reader has the bytes to come and then the end of
-- the file.
--
-- Not modelled: sockets, accepting connections, deadlines and timers, templates and static files, the
-- parsing of YAML, reflection, and time zones. A map's `range` order is the order of its list. Floats
-- are kept as their integer part and their printed form; a clock and the floats of a Duration are
-- parameters, and so are the YAML package and go-cache.
pub mod Base
pub mod Text
pub mod Outcome
pub mod Wire
pub mod DynMap
pub mod Strest
pub mod Bin
pub mod Router
pub mod Client
pub mod Handler
pub mod TimeAmount
pub mod Stats
pub mod Logger
pub mod Bootstrap
pub mod Config
pub mod Http
pub mod Html
pub mod Helpers
pub mod GoCache
pub mod Closer
pub mod JsonStream
