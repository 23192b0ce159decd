-- ===== src/Lib.antt =====
-- Jequi, a web server: a model of its crates and what is proved of it. Paths are from the
-- repository's root.
--
-- A connection (jequi/src/http1 or jequi/src/http2) reads a request, asks the configuration for
-- the plugins of its host and path (jequi/src/config.rs), lets their handlers answer it
-- (jequi/src/request.rs), and writes the response. A body is read while the handlers run
-- (jequi/src/body.rs). The plugin of plugins/jequi_serve_static answers with files, that of
-- plugins/jequi_proxy sends a request on to another server, and that of plugins/jequi_go calls
-- functions of a shared object, for requests and for the proxy. The macros of plugins/src/lib.rs
-- write the program's list of plugins from plugins.txt.
--
-- Which file models what:
-- - Prelude: native numbers, lists, and `Result`, whose `panic` stands for a panic of the program.
-- - Text: bytes and the functions of `str` and of byte slices that the program calls; Text/Numbers
--   prints and parses numbers. Text is a list of bytes everywhere.
-- - Headers: the operations of the `http` crate as a record `HeaderOps` with the laws that the
--   crate documents. All code that touches headers takes one. Headers/Assoc fills it with lists of
--   pairs.
-- - Message: `Uri`, `Request`, `Response` (jequi/src/request.rs, response.rs, lib.rs), the request
--   body (jequi/src/body.rs), and what a handler asks for next (jequi/src/hijack.rs). In
--   Message/Body a poll of the body is one step; Message/Body/Race takes it, and a write, apart into
--   their accesses.
-- - FilePath and Maps: `PathBuf` as a list of components, and hash maps as lists of pairs without
--   an order that anything depends on.
-- - Config: Config/Select is `ConfigMap::get_config_for_request`, Config/Load is
--   `ConfigMap::load` and `ConfigMapParser::load_config`, and Config/Load/Requests is about both
--   together. Config/Deserialize is how the visitors of types that are one text are called.
-- - Http1: Http1/Read is jequi/src/http1/read.rs (`parse_first_line`, `parse_headers`),
--   Http1/ReadBody its body future, Http1/Write is jequi/src/http1/write.rs (`write_response`),
--   Http1/Chunks the chunked coding, Http1/Connection is `handle_connection` of
--   jequi/src/http1/mod.rs. A connection is its unread input and its output. Http1/Connection reads
--   a body before the handlers run, from parts that arrive as its parameter `arrivals` says.
--   Http1/Scope has both as the tasks that they are, which a relation interleaves with what comes in,
--   with a poll and a write of the body taken apart as in Message/Body/Race; a handler there is what
--   is left of it between two waits for the body.
-- - Http2: Http2/Frame is the codec and Http2/Streams the effect of frames on the streams
--   (jequi/src/http2/frame.rs); Http2/Response is `write_response` of jequi/src/http2/conn.rs, and
--   Http2/Connection what its `handle_connection` does up to its loop.
--   Http2/Loop is that loop with the tasks of the streams: a relation between states of the
--   connection, in which a step is one frame, one response or one advance of a task. Http2/Loop/Spec
--   is what such a connection is to its client.
-- - StaticFiles: plugins/jequi_serve_static/src; StaticFiles/Handle is `Config::handle_request`.
-- - Server: plugins, the chain of their handlers (`Request::handle_request`), and in
--   Server/Negotiate and Server/Tls the choice of a connection's protocol and certificates
--   (jequi/src/ssl.rs, `HttpConn::new`); Server/Process is server/src/bin/jequi.rs, with the
--   connections and the signals to reload as events, and Server/Serve its `handle_connection`.
--   Server/RawStream is jequi/src/tcp_stream.rs.
-- - Proxy: plugins/jequi_proxy/src/lib.rs; Proxy/Handle is `Config::handle_request`.
-- - Go: plugins/jequi_go/src/lib.rs.
-- - Plugins: Plugins/Macros is `get_plugin!` and `load_plugins!` of plugins/src/lib.rs for any
--   input (Plugins/Macros/Input), any plugins and any text of plugins.txt, Plugins/Loaded what they
--   give for those of the repository.
-- - Api: api/src/lib.rs, the functions that shared objects call.
-- - WholeExchange: the parts together, for a file that is asked for over HTTP/1, for many of them on
--   one connection (WholeExchange/Asked and Pipeline), and for one over HTTP/2 (WholeExchange/Streams)
--   and for many, each behind the one before (WholeExchange/Streams/Rounds).
-- - Tests: the theorems at concrete inputs.
--
-- Parameters: the header map (`HeaderOps`), the decoder and encoder of HTTP/2 header blocks, the
-- file system (from a path to its bytes or an error), the text of the date, the loading of plugins
-- from a section of the configuration and the insertion of a key into a section, and the handlers;
-- for the proxy, the random choice of an address, the builder of a request's head and the exchange
-- with the upstream server; for TLS, the reading of keys and certificates and whether `openssl`
-- takes them; for HTTP/1, the parts in which input arrives; for the macros, which names are
-- identifiers; for the Go plugin, the loading of a shared object and its two functions; for
-- Server/RawStream, the operations of the streams behind it.
--
-- Fuel: `climb` runs at most once for each component of a path and once more; the loop in
-- `parse_first_line` reads at least one byte in a round and ends at the third at the latest;
-- `parse_headers` takes at least one byte of the input in a round, so one more than its length is
-- enough; the keep-alive loop is cut off after a number of rounds; a reader of the chunked coding
-- needs one round for each chunk and one for the end. The theorems on these functions say that
-- they return with the fuel that the definitions give.
--
-- Not modelled: the handshake (jequi/src/ssl.rs), and the sockets, the file with the number of the
-- process and the runtime (server/src/bin/jequi.rs). They are calls of openssl, of the system and of
-- tokio. `Debug` and the casts of `as_any` are left out: they have no effect on a request.
-- A future is a function that is called once for each poll; reads of several bytes are given what
-- has arrived between two polls (Http1/ReadBody). A panic of a task in the scope of an HTTP/1 exchange
-- is taken as one of its connection; what tokio_scoped makes of one is not in the repository. In
-- Http2/Loop the handlers of a stream run in one step. The memory of Message/Body/Race
-- and Http1/Scope is one that all threads see alike. Memory limits and timing are left out.
pub mod Prelude
pub mod Text
pub mod Headers
pub mod Message
pub mod FilePath
pub mod Maps
pub mod Config
pub mod Http1
pub mod Http2
pub mod StaticFiles
pub mod Server
pub mod Proxy
pub mod Go
pub mod Plugins
pub mod Api
pub mod WholeExchange
pub mod Tests
