-- ===== src/Http1/Connection.antt =====
-- `handle_connection` of jequi/src/http1/mod.rs, with the body read before the handlers run: one of
-- the orders in which the source's two tasks can run (see Http1/Scope for all of them). `arrivals` is
-- the way in which a body arrives: the parts of the input behind the headers that come between two
-- polls of the body's future. A panic of a task in the scope is taken as one of the connection, and
-- writing to the connection does not fail.
pub mod Exchange
use jequi.Prelude.{
  ℕ, zero, suc, Bool, false, none, some, List, [], if◌then◌else◌, Bytes, codes, not_found, Result,
  ok, err, panic, ◌>>=◌, unwrap, unwrap_option,
}
use jequi.Text.{bytes_eq}
use jequi.Text.Trim.{to_lowercase}
use jequi.Headers.{HeaderOps}
use jequi.Config.Select.{ConfigMap}
use jequi.Message.Body.{Poll, pending, ready}
use jequi.Message.Hijack.{PostRequestHandler, continue, hijack_connection}
use jequi.Message.Request
use jequi.Message.Request.{Request}
use jequi.Message.Response
use jequi.Http1.Read.{Http1Conn, parse_first_line, parse_headers}
use jequi.Http1.ReadBody.{read_body}
use jequi.Http1.Write.{write_response}
use jequi.Server.Plugin.{Plugin, get_jequi}
use jequi.Server.Handle

-- No `content-length` is no error; every other is a panic.
abbrev pub expect_body : Poll (Result (Unit {0})) → Result (Unit {0})
expect_body (ready (ok done)) = ok done
expect_body (ready (err not_found)) = ok tt
expect_body (ready (err _)) = panic
expect_body (ready panic) = panic
expect_body pending = panic

-- `Http1Conn::new`, of a stream from which `input` will come.
unfoldable pub new : {M : Type 0} ⦃ops : HeaderOps M⦄ → Bytes → Http1Conn M
new input = record {
  input = input;
  output = [];
  version = [];
  request = Request.new;
  response = Response.new;
}

module _ {M H : Type 0} ⦃ops : HeaderOps M⦄ (now : Bytes)
    (config_map : ConfigMap (List (Plugin M H))) (chunk_size : ℕ) where
  -- The handlers and the response, for a request that is read.
  unfoldable pub handle_parsed : Http1Conn M → Result (Http1Conn M × PostRequestHandler H)
  unfolding write_response
  handle_parsed c = do
    (request, response, post) ← Handle.handle_request now config_map c.request c.response
    written ←
        unwrap (write_response (record c { request = request; response = response }) chunk_size)
    ok (written, post)

module _ {M H : Type 0} ⦃ops : HeaderOps M⦄ (now : Bytes)
    (config_map : ConfigMap (List (Plugin M H))) (chunk_size : ℕ)
    (arrivals : Bytes → List Bytes) where
  -- The body, the handlers and the response, for a request whose headers are read.
  unfoldable pub handle_scope : Http1Conn M → Result (Http1Conn M × PostRequestHandler H)
  unfolding handle_parsed read_body
  handle_scope c = do
    let polled = read_body c.request (arrivals c.input) []
    _ ← expect_body polled.answer
    handle_parsed now config_map chunk_size
        (record c { input = polled.unread; request = record c.request { body = polled.body } })

  unfoldable pub handle_request : Http1Conn M → Result (Http1Conn M × PostRequestHandler H)
  unfolding handle_scope parse_first_line parse_headers
  handle_request c = do
    c₁ ← unwrap (parse_first_line c)
    c₂ ← unwrap (parse_headers c₁)
    handle_scope c₂

  -- The loop, cut off after `rounds` rounds: the source has no end for it but a panic.
  unfoldable pub keep_alive : ℕ → Http1Conn M → Result (Http1Conn M × PostRequestHandler H)
  unfolding handle_request
  keep_alive zero c = ok (c, continue)
  keep_alive (suc rounds) c =
      elim (handle_request (record c { request = Request.new; response = Response.new })) [
        | err e ↦ err e
        | panic ↦ panic
        | ok (next, post) ↦ keep_alive rounds next
      ]

-- `headers.get("connection")` is `keep-alive`, in any case.
unfoldable pub wants_keep_alive : {M : Type 0} ⦃ops : HeaderOps M⦄ → M → Result Bool
unfolding to_lowercase bytes_eq
wants_keep_alive ⦃ops⦄ headers = elim (ops.get headers (codes "connection")) [
  | none ↦ ok false
  | some connection ↦ do
    text ← unwrap_option (ops.to_str connection)
    ok (bytes_eq (to_lowercase text) (codes "keep-alive"))
]

-- `Http1Conn::as_dyn`, which hides the type of the stream.
abbrev pub as_dyn : {M : Type 0} → Http1Conn M → Http1Conn M
as_dyn c = record {
  input = c.input;
  output = c.output;
  version = c.version;
  request = c.request;
  response = c.response;
}

-- What follows the first exchange of a connection; a connection that a plugin takes over is left to
-- it.
unfoldable pub after_first :
    {M H : Type 0} ⦃ops : HeaderOps M⦄
    → Bytes
    → ConfigMap (List (Plugin M H))
    → ℕ
    → (Bytes → List Bytes)
    → ℕ
    → Http1Conn M
    → PostRequestHandler H
    → Result (Http1Conn M × PostRequestHandler H)
unfolding keep_alive wants_keep_alive
after_first now config_map chunk_size arrivals rounds c (hijack_connection h) =
    ok (as_dyn c, hijack_connection h)
after_first now config_map chunk_size arrivals rounds c post = do
  again ← wants_keep_alive c.request.headers
  if again then keep_alive now config_map chunk_size arrivals rounds c else ok (c, post)

unfoldable pub handle_connection :
    {M H : Type 0} ⦃ops : HeaderOps M⦄
    → Bytes
    → ConfigMap (List (Plugin M H))
    → (Bytes → List Bytes)
    → ℕ
    → Http1Conn M
    → Result (Http1Conn M × PostRequestHandler H)
unfolding handle_request after_first get_jequi
handle_connection now config_map arrivals rounds c = do
  conf ← unwrap_option (get_jequi config_map.config)
  (first, post) ← handle_request now config_map conf.chunk_size arrivals c
  after_first now config_map conf.chunk_size arrivals rounds first post
