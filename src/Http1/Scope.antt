-- ===== src/Http1/Scope.antt =====
-- The scope of `handle_request` of jequi/src/http1/mod.rs: the task that reads the body of a request
-- and the task that runs its handlers, on two threads, with the body between them. A poll of the body
-- and a write of it are taken apart into their accesses, as in Message/Body/Race; handlers are what is
-- left to do of them between two waits for the body.
pub mod Wakes
pub mod Reading
pub mod Sequential
use jequi.Prelude.{
  ℕ, ◌≡◌, Bool, true, false, not, if◌then◌else◌, Option, none, some, [], ◌++◌, Bytes, Result, ok,
  ◌>>=◌, unwrap,
}
use jequi.Message.Body
use jequi.Message.Body.{RequestBody, Poll, pending, ready, write_body}
use jequi.Http1.ReadBody
use jequi.Headers.{HeaderOps}
use jequi.Http1.Read.{Http1Conn}
use jequi.Http1.Write.{write_response}
use jequi.Message.Hijack.{PostRequestHandler}
use jequi.Server.Handle.{Handled}

-- The rest of the handlers: they have a result, or wait for the body and go on with it.
pub data Handlers (A : Type 0) : Type 0 where
  finished : A → Handlers A
  get_body : (Option Bytes → Handlers A) → Handlers A

-- `arrived` is what has come in and is not read. A task that waits runs again when it is woken.
-- `registering` says that the handlers have found the body unwritten and not stored their waker yet,
-- and `waking` that the reader has written the body and not looked for a waker yet.
pub record Scope (A : Type 0) : Type 0 where
  pub arrived : Bytes
  pub closed : Bool
  pub body : RequestBody
  pub reading : Poll (Result (Unit {0}))
  pub reader_waits : Bool
  pub handlers : Handlers A
  pub handlers_wait : Bool
  pub registering : Bool
  pub waking : Bool

abbrev is_pending : {A : Type 0} → Poll A → Bool
is_pending pending = true
is_pending (ready a) = false

-- The waker of the task of the handlers.
abbrev pub handlers_waker : ℕ
handlers_waker = 0

-- `write_body` wakes who left a waker; here only the handlers can have.
abbrev pub waits_after : Option ℕ → Bool → Bool
waits_after none waits = waits
waits_after (some w) waits = false

module _ {A : Type 0} where
  -- Both tasks, when the scope is entered.
  unfoldable pub enter : Bytes → RequestBody → Handlers A → Scope A
  enter arrived body handlers = record {
    arrived = arrived;
    closed = false;
    body = body;
    reading = pending;
    reader_waits = false;
    handlers = handlers;
    handlers_wait = false;
    registering = false;
    waking = false;
  }

  -- A poll of the task that reads the body, up to the look for a waker.
  unfoldable pub poll_reader : Result ℕ → Scope A → Scope A
  unfolding ReadBody.poll
  poll_reader content_length s =
      let polled = ReadBody.poll content_length s.arrived s.closed s.body in
      record s {
        arrived = polled.unread;
        body = polled.body;
        reading = polled.answer;
        reader_waits = is_pending polled.answer;
        waking = not (is_pending polled.answer);
      }

  -- The end of a write: who has left a waker is woken.
  unfoldable pub wake_handlers : Scope A → Scope A
  wake_handlers s = record s {
    handlers_wait = waits_after s.body.waker s.handlers_wait;
    waking = false;
  }

  -- The handlers' next wait for the body: they go on with it if it is written ...
  unfoldable pub poll_handlers : (Option Bytes → Handlers A) → Scope A → Scope A
  poll_handlers go_on s =
      if s.body.is_written
      then record s { handlers = go_on s.body.bytes }
      else record s { registering = true }

  -- ... and else store their waker, and wait.
  unfoldable pub register : Scope A → Scope A
  register s = record s {
    body = record s.body { waker = some handlers_waker };
    handlers_wait = true;
    registering = false;
  }

  -- What comes in while the tasks run, and which task runs next.
  pub data Step (content_length : Result ℕ) (s : Scope A) : Bytes → Scope A → Type 0 where
    arrives :
        (part : Bytes)
        → s.closed ≡ false
        → Step content_length s part
            (record s { arrived = s.arrived ++ part; reader_waits = false })
    closes : Step content_length s [] (record s { closed = true; reader_waits = false })
    reads :
        s.reading ≡ pending
        → s.reader_waits ≡ false
        → Step content_length s [] (poll_reader content_length s)
    handles :
        (go_on : Option Bytes → Handlers A)
        → s.handlers ≡ get_body go_on
        → s.handlers_wait ≡ false
        → s.registering ≡ false
        → Step content_length s [] (poll_handlers go_on s)
    registers : s.registering ≡ true → Step content_length s [] (register s)
    wakes : s.waking ≡ true → Step content_length s [] (wake_handlers s)

  -- Any number of steps, with all that comes in during them.
  pub data Run (content_length : Result ℕ) (s : Scope A) : Bytes → Scope A → Type 0 where
    start : Run content_length s [] s
    next :
        {more part : Bytes} {t u : Scope A}
        → Run content_length s more t
        → Step content_length t part u
        → Run content_length s (more ++ part) u

  -- What the handlers come to, given the body.
  abbrev pub outcome : Option Bytes → Handlers A → A
  outcome body (finished a) = a
  outcome body (get_body go_on) = outcome body (go_on body)

module _ {M H : Type 0} ⦃ops : HeaderOps M⦄ where
  -- What follows the scope, once both tasks have ended: `read_body` has left `arrived`, and the
  -- handlers have come to `result`.
  unfoldable pub leave :
      ℕ → Http1Conn M → Bytes → Result (Handled M H) → Result (Http1Conn M × PostRequestHandler H)
  unfolding write_response
  leave chunk_size c arrived result = do
    (request, response, post) ← result
    written ← unwrap (
        write_response (record c { input = arrived; request = request; response = response })
          chunk_size)
    ok (written, post)
