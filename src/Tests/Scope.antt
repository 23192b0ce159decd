-- ===== src/Tests/Scope.antt =====
-- The tasks of an HTTP/1 exchange at concrete inputs: the handlers wait first, the body is read, more
-- comes in, and the handlers go on.
use jequi.Prelude.{
  ◌≢◌, ℕ, ◌≡◌, refl, true, false, Option, none, some, List, [], ◌∷◌, Bytes, codes, Result, ok,
}
use jequi.Headers.{Header, first_value, get_str}
use jequi.Headers.Assoc.{assoc_ops}
use jequi.Text.Numbers.{parse}
use jequi.Text.Trim.{trim, to_lowercase}
use jequi.Config.Select.{ConfigMap}
use jequi.Message.Body
use jequi.Message.Body.{write_body}
use jequi.Message.Request
use jequi.Message.Request.{Request, get_content_length}
use jequi.Message.Response
use jequi.Http1.Read.{Http1Conn}
use jequi.Http1.ReadBody
use jequi.Http1.Connection.{handle_scope}
use jequi.Http1.ReadBody.{at_once}
use jequi.Http1.Scope.{
  Handlers, finished, get_body, Scope, enter, poll_reader, poll_handlers, arrives, reads, handles,
  registers, wakes, register, wake_handlers, Run, start, next, leave,
}
use jequi.Http1.Scope.Wakes.{Run-never_finished}
use jequi.Http1.Scope.Sequential.{leave-handle_scope, with_body}
use jequi.Server.Plugin.{Plugin}
use jequi.Server.Handle.{Handled}
use jequi.Server.Handle as Handle

abbrev M : Type 0
M = List Header

abbrev no_plugins : ConfigMap (List (Plugin M ℕ))
no_plugins = record { host = none; path = none; config = [] }

module _ {A : Type 0} (answer : Option Bytes → A) where
  abbrev waits_once : Handlers A
  waits_once = get_body λ body. finished (answer body)

  abbrev waiting : Scope A
  waiting = record {
    arrived = codes "hi";
    closed = false;
    body = record Body.default { waker = some 0 };
    reading = Body.pending;
    reader_waits = false;
    handlers = waits_once;
    handlers_wait = true;
    registering = false;
    waking = false;
  }

  abbrev after_read : Scope A
  after_read = record waiting {
    arrived = codes "x";
    body = (write_body (some (codes "hi")) waiting.body).0;
    reading = Body.ready (ok tt);
    handlers_wait = false;
  }

  wait_and_read : Run (ok 2) (enter (codes "hi") Body.default waits_once) (codes "x") after_read
  unfolding enter poll_handlers register wake_handlers poll_reader ReadBody.poll write_body
  wait_and_read =
      next
        (next
          (next (next (next start (handles _ refl refl refl)) (registers refl)) (reads refl refl))
          (wakes refl))
        (arrives (codes "x") refl)

  abbrev after_handlers : Scope A
  after_handlers = record after_read { handlers = finished (answer (some (codes "hi"))) }

  wait_and_end : Run (ok 2) (enter (codes "hi") Body.default waits_once) (codes "x") after_handlers
  unfolding poll_handlers write_body
  wait_and_end = next wait_and_read (handles _ refl refl refl)

abbrev echo : Option Bytes → Bytes
echo none = codes "none"
echo (some bytes) = bytes

Run-never_finished_example :
    (s : Scope Bytes) × Run (ok 2) (enter (codes "hi") Body.default (waits_once echo)) [] s
    × ((more : Bytes) (t : Scope Bytes) (a : Bytes) → Run (ok 2) s more t → t.handlers ≢ finished a)
unfolding ReadBody.poll
Run-never_finished_example =
    Run-never_finished (λ body. finished (echo body)) (ok 2) (codes "hi") Body.default (ok tt) refl
      refl refl

abbrev conn : Bytes → Http1Conn M
conn input = record {
  input = input;
  output = [];
  version = codes "H";
  request = record Request.new { headers = (codes "content-length", codes "2") ∷ [] };
  response = Response.new;
}

abbrev answer : Option Bytes → Result (Handled M ℕ)
answer bytes =
    Handle.handle_request (codes "now") no_plugins (with_body (conn (codes "hi")).request bytes)
      Response.new

leave-handle_scope_example :
    leave 10 (conn (codes "hi")) (codes "x") (answer (some (codes "hi")))
    ≡ handle_scope (codes "now") no_plugins 10 at_once (conn (codes "hix"))
unfolding get_content_length first_value get_str trim to_lowercase ReadBody.poll write_body parse
leave-handle_scope_example =
    leave-handle_scope (codes "now") no_plugins 10 (conn (codes "hi")) (waits_once answer)
      (codes "x") (after_handlers answer) (ok tt) (ok tt) (answer (some (codes "hi"))) refl refl
      refl (λ bytes. refl) (wait_and_end answer) refl refl
