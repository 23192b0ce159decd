-- ===== src/Http2/Loop.antt =====
-- The loop of `Http2Conn::handle_connection` (jequi/src/http2/conn.rs) and the tasks of the streams
-- (jequi/src/http2/frame.rs), which run beside it: a step is taken by the loop or by one task, and
-- any that can be taken may be next. The map of streams and a task share a stream, so streams are
-- kept in a store, and map and tasks name their places. A task counts as long as it holds its
-- stream's response. `now`, the codecs of header blocks and the handlers are parameters.
pub mod Count
pub mod View
pub mod Once
pub mod Answer
pub mod Store
pub mod Spec
use jequi.Prelude.{
  ℕ, suc, ◌<◌, ◌≡◌, ◌≢◌, Bool, true, not, ◌||◌, none, some, List, [], ◌∷◌, ◌++◌, ◌==◌,
  if◌then◌else◌, Bytes, length, All, Result, ok, ◌>>=◌, unwrap_option,
}
use jequi.Headers.{Header, HeaderOps}
use jequi.Maps
use jequi.Maps.{nat_Eq}
use jequi.Config.Select.{ConfigMap, get_config_for_request}
use jequi.Message.Body
use jequi.Message.Hijack.{PostRequestHandler}
use jequi.Message.Uri.{path}
use jequi.Message.Request.{Request}
use jequi.Message.Response.{Response}
use jequi.Http2.Frame.{headers_frame, data_frame, Http2Frame}
use jequi.Http2.Response.{response_bytes}
use jequi.Http2.Streams.{Stream, Streams, process_headers, run_stream}
use jequi.Server.Plugin.{Plugin, get_jequi}

-- Where a task stands: its handlers are still to run; they have run; the body, if it waits for one,
-- is there; its number is sent, and the response not yet let go.
pub data Phase : Type 0 where
  started handled finished sent : Phase

pub record Task : Type 0 where
  pub place : ℕ
  pub id : ℕ
  pub read_body : Bool
  pub phase : Phase

abbrev pub with_phase : Task → Phase → Task
with_phase t p = record t { phase = p }

-- `streams` has the places of the open streams; `next` is the next free place. `queue` is the
-- channel of finished streams, and `written` has the bytes of the responses with their streams.
pub record Conn (M D E : Type 0) : Type 0 where
  pub streams : List (ℕ × ℕ)
  pub store : ℕ → Stream M
  pub next : ℕ
  pub tasks : List Task
  pub queue : List ℕ
  pub decoder : D
  pub encoder : E
  pub written : List (ℕ × Bytes)

abbrev pub capacity : ℕ
capacity = 100

abbrev pub put {ℓ} : {A : Type ℓ} → ℕ → A → (ℕ → A) → ℕ → A
put n a f k = if n == k then a else f k

module _ {M D E : Type 0} where
  -- `process_headers`, behind the decoding: the stream is entered and its task is spawned.
  unfoldable pub open_stream : Conn M D E → ℕ → Stream M → Bool → D → Conn M D E
  open_stream c id stream read_body d = record c {
    streams = Maps.insert id c.next c.streams;
    store = put c.next stream c.store;
    next = suc c.next;
    tasks =
        c.tasks
        ++ (record { place = c.next; id = id; read_body = read_body; phase = started } ∷ []);
    decoder = d;
  }

  -- `process_data`, for the place of the stream.
  unfoldable pub deliver : Conn M D E → ℕ → Bytes → Conn M D E
  deliver c n payload =
      let s = c.store n in
      record c {
        store =
            put n
              (record s {
                request = record s.request {
                  body = (Body.write_body (some payload) s.request.body).0;
                };
              })
              c.store;
      }

  -- The handlers of a task are done.
  unfoldable pub run_handlers :
      Conn M D E → List Task → Task → List Task → Request M → Response M → Conn M D E
  run_handlers c before t after request response = record c {
    tasks = before ++ (with_phase t handled ∷ after);
    store =
        put t.place (record (c.store t.place) { request = request; response = response }) c.store;
  }

  -- `streams.remove`, and the response that is written.
  unfoldable pub finish_stream : Conn M D E → ℕ → List ℕ → Bytes → E → Conn M D E
  finish_stream c id rest bytes e = record c {
    streams = Maps.remove id c.streams;
    queue = rest;
    encoder = e;
    written = c.written ++ ((id, bytes) ∷ []);
  }

module _ {M D E H : Type 0} ⦃ops : HeaderOps M⦄ (now : Bytes)
    (config_map : ConfigMap (List (Plugin M H)))
    (hpack_decode : D → Bytes → Result (List Header × D))
    (hpack_encode : E → List Header → Bytes × E) where
  -- The bytes of a stream's response, in chunks of the size that its configuration has.
  unfoldable pub stream_response : E → Stream M → Result (Bytes × E)
  unfolding get_config_for_request get_jequi response_bytes path
  stream_response e s = do
    plugins ←
        unwrap_option (get_config_for_request config_map s.request.host (some (path s.request.uri)))
    conf ← unwrap_option (get_jequi plugins)
    response_bytes hpack_encode e s.id conf.chunk_size s.response

  -- The loop takes a headers frame that opens the stream `id`.
  pub data Opens (c : Conn M D E) (id : ℕ) (c' : Conn M D E) : Type 0 where
    headers :
        (f : Http2Frame) (m : Streams M) (stream : Stream M) (read_body : Bool) (d : D)
        → f.typ ≡ headers_frame
        → f.stream_id ≡ id
        → process_headers hpack_decode c.decoder f [] ≡ ok (m, stream, read_body, d)
        → c' ≡ open_stream c id stream read_body d
        → Opens c id c'

  -- The other steps of the loop and of the tasks.
  pub data Step (c c' : Conn M D E) : Type 0 where
    receive :
        (f : Http2Frame) (n : ℕ)
        → f.typ ≡ data_frame
        → Maps.get f.stream_id c.streams ≡ some n
        → c' ≡ deliver c n f.payload
        → Step c c'
    pass : (f : Http2Frame) → f.typ ≢ data_frame → f.typ ≢ headers_frame → c' ≡ c → Step c c'
    handle :
        (before : List Task) (t : Task) (after : List Task) (request : Request M)
        (response : Response M) (post : PostRequestHandler H)
        → c.tasks ≡ before ++ (t ∷ after)
        → t.phase ≡ started
        → run_stream now config_map t.read_body (c.store t.place) ≡ ok (request, response, post)
        → c' ≡ run_handlers c before t after request response
        → Step c c'
    read_whole :
        (before : List Task) (t : Task) (after : List Task)
        → c.tasks ≡ before ++ (t ∷ after)
        → t.phase ≡ handled
        → not t.read_body || (c.store t.place).request.body.is_written ≡ true
        → c' ≡ record c { tasks = before ++ (with_phase t finished ∷ after) }
        → Step c c'
    send :
        (before : List Task) (t : Task) (after : List Task)
        → c.tasks ≡ before ++ (t ∷ after)
        → t.phase ≡ finished
        → length c.queue < capacity
        → c' ≡ record c {
          tasks = before ++ (with_phase t sent ∷ after);
          queue = c.queue ++ (t.id ∷ []);
        }
        → Step c c'
    let_go :
        (before : List Task) (t : Task) (after : List Task)
        → c.tasks ≡ before ++ (t ∷ after)
        → t.phase ≡ sent
        → c' ≡ record c { tasks = before ++ after }
        → Step c c'
    write :
        (id n : ℕ) (rest : List ℕ) (bytes : Bytes) (e : E)
        → c.queue ≡ id ∷ rest
        → Maps.get id c.streams ≡ some n
        → All (λ t. t.place ≢ n) c.tasks
        → stream_response c.encoder (c.store n) ≡ ok (bytes, e)
        → c' ≡ finish_stream c id rest bytes e
        → Step c c'

  -- An `unwrap` of the loop that panics: a data frame of a stream that is not open, the response of
  -- such a stream, or one that its task still holds.
  pub data Panics (c : Conn M D E) : Type 0 where
    data_of_none :
        (f : Http2Frame) → f.typ ≡ data_frame → Maps.get f.stream_id c.streams ≡ none → Panics c
    response_of_none :
        (id : ℕ) (rest : List ℕ) → c.queue ≡ id ∷ rest → Maps.get id c.streams ≡ none → Panics c
    response_held :
        (id n : ℕ) (rest : List ℕ) (before : List Task) (t : Task) (after : List Task)
        → c.queue ≡ id ∷ rest
        → Maps.get id c.streams ≡ some n
        → c.tasks ≡ before ++ (t ∷ after)
        → t.place ≡ n
        → Panics c

  -- `c` is reached from a connection without streams, and `ids` are the streams that were opened.
  pub data Run (c₀ : Conn M D E) : List ℕ → Conn M D E → Type 0 where
    start : Run c₀ [] c₀
    opens :
        {ids : List ℕ} {id : ℕ} {c c' : Conn M D E}
        → Run c₀ ids c
        → Opens c id c'
        → Run c₀ (id ∷ ids) c'
    steps : {ids : List ℕ} {c c' : Conn M D E} → Run c₀ ids c → Step c c' → Run c₀ ids c'
