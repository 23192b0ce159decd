-- ===== src/Http2/Loop/Answer.antt =====
-- How a stream comes to its response, and what can go wrong on the way.
use jequi.Prelude.{
  append-nil, none, some, ◌≢◌, arith, All, ◌∙◌, ℕ, ◌<◌, ◌≡◌, refl, false, List, [], ◌∷◌, ◌++◌,
  ==_refl, Bytes, length, Result, ok,
}
use jequi.Headers.{Header, HeaderOps}
use jequi.Maps
use jequi.Maps.{get-insert, get-remove, nat_Eq}
use jequi.Config.Select.{ConfigMap}
use jequi.Message.Hijack.{PostRequestHandler}
use jequi.Message.Request.{Request}
use jequi.Message.Response.{Response}
use jequi.Http2.Streams.{Stream, run_stream}
use jequi.Http2.Loop.{
  write, let_go, data_of_none, stream_response, data_frame, Http2Frame, Panics, finish_stream,
  Phase, started, handled, finished, sent, Task, Conn, open_stream, run_handlers, put, Opens,
  handle, read_whole, send, Run, opens, steps, capacity,
}
use jequi.Server.Plugin.{Plugin}

put_same {ℓ} : {A : Type ℓ} (n : ℕ) (a : A) (f : ℕ → A) → put n a f n ≡ a
put_same n a f = rw ==_refl refl

module _ {M D E : Type 0} (c : Conn M D E) (id : ℕ) (stream : Stream M) (d : D)
    (request : Request M) (response : Response M) where
  abbrev task : Phase → Task
  task p = record { place = c.next; id = id; read_body = false; phase = p }

  abbrev opened : Conn M D E
  opened = open_stream c id stream false d

  -- The stream's task has run its handlers ...
  abbrev after_handlers : Conn M D E
  after_handlers = run_handlers opened c.tasks (task started) [] request response

  abbrev after_body : Conn M D E
  after_body = record after_handlers { tasks = c.tasks ++ (task finished ∷ []) }

  -- ... and sent the stream's number, but still holds its response ...
  abbrev pub holding : Conn M D E
  holding = record after_body { tasks = c.tasks ++ (task sent ∷ []); queue = c.queue ++ (id ∷ []) }

  -- ... or has let it go.
  abbrev pub released : Conn M D E
  released = record holding { tasks = c.tasks ++ [] }

module _ {M D E : Type 0} where
  place_lem :
      (c : Conn M D E) (id : ℕ) (stream : Stream M) (d : D) (request : Request M)
      (response : Response M)
      → Maps.get id (holding c id stream d request response).streams ≡ some c.next
  unfolding open_stream run_handlers
  place_lem c id stream d request response = get-insert id id c.next c.streams ∙ rw ==_refl refl

  store_lem :
      (c : Conn M D E) (id : ℕ) (stream : Stream M) (d : D) (request : Request M)
      (response : Response M)
      → (holding c id stream d request response).store c.next
        ≡ record stream { request = request; response = response }
  unfolding open_stream run_handlers
  store_lem c id stream d request response =
      put_same c.next
        (record ((open_stream c id stream false d).store c.next) {
          request = request;
          response = response;
        })
        (open_stream c id stream false d).store
      ∙ rw (put_same c.next stream c.store) refl

module _ {M D E H : Type 0} ⦃ops : HeaderOps M⦄ (now : Bytes)
    (config_map : ConfigMap (List (Plugin M H)))
    (hpack_decode : D → Bytes → Result (List Header × D))
    (hpack_encode : E → List Header → Bytes × E) where
  pub holding_Run :
      {c₀ c : Conn M D E} {ids : List ℕ} (id : ℕ) (stream : Stream M) (d : D) (request : Request M)
      (response : Response M) (post : PostRequestHandler H)
      → Run now config_map hpack_decode hpack_encode c₀ ids c
      → Opens now config_map hpack_decode hpack_encode c id (open_stream c id stream false d)
      → run_stream now config_map false stream ≡ ok (request, response, post)
      → length c.queue < capacity
      → Run now config_map hpack_decode hpack_encode c₀
          (id ∷ ids)
          (holding c id stream d request response)
  unfolding open_stream run_handlers
  holding_Run {c = c} id stream d request response post r o e room =
      steps
        (steps
          (steps (opens r o) (
            handle c.tasks (task c id stream d request response started) [] request response post
              refl refl (rw (put_same c.next stream c.store) e) refl))
          (read_whole c.tasks (task c id stream d request response handled) [] refl refl refl refl))
        (send c.tasks (task c id stream d request response finished) [] refl refl room refl)

  -- From every state in which no finished stream waits and no task has the next place, a headers
  -- frame that ends its stream, and whose handlers and response succeed, can be followed by steps
  -- after which the response is written, the stream is out of the map and the tasks are as before.
  pub Opens-written :
      {c₀ c : Conn M D E} {ids : List ℕ} (id : ℕ) (stream : Stream M) (d : D) (request : Request M)
      (response : Response M) (post : PostRequestHandler H) (bytes : Bytes) (e : E)
      → Run now config_map hpack_decode hpack_encode c₀ ids c
      → c.queue ≡ []
      → All (λ t. t.place ≢ c.next) c.tasks
      → Opens now config_map hpack_decode hpack_encode c id (open_stream c id stream false d)
      → run_stream now config_map false stream ≡ ok (request, response, post)
      → stream_response now config_map hpack_decode hpack_encode c.encoder
          (record stream { request = request; response = response })
        ≡ ok (bytes, e)
      → (c' : Conn M D E) × Run now config_map hpack_decode hpack_encode c₀ (id ∷ ids) c'
        × (c'.written ≡ c.written ++ ((id, bytes) ∷ []))
        × (Maps.get id c'.streams ≡ none)
        × (c'.streams ≡ Maps.remove id (Maps.insert id c.next c.streams))
        × (c'.queue ≡ [])
        × (c'.tasks ≡ c.tasks)
        × (c'.decoder ≡ d)
        × (c'.encoder ≡ e)
  unfolding open_stream run_handlers finish_stream
  Opens-written {c₀ = c₀} {c = c} {ids = ids} id stream d request response post bytes e r q places o
        h w =
      let held : Run now config_map hpack_decode hpack_encode c₀ (id ∷ ids)
          (holding c id stream d request response) =
        holding_Run id stream d request response post r o h (rw q (omega arith)) in
      let free : Run now config_map hpack_decode hpack_encode c₀ (id ∷ ids)
          (released c id stream d request response) =
        steps held (
          let_go c.tasks (record { place = c.next; id = id; read_body = false; phase = sent }) []
            refl refl refl) in
      (
        finish_stream (released c id stream d request response) id [] bytes e,
        steps free (
            write id c.next [] bytes e (rw q refl) (place_lem c id stream d request response)
              (rw append-nil places) (rw (store_lem c id stream d request response) w) refl),
        refl,
        get-remove id id _ ∙ rw ==_refl refl,
        refl,
        refl,
        append-nil c.tasks,
        refl,
        refl,
      )

  -- A data frame of a stream whose response has been written makes the loop panic.
  pub finish_stream-Panics :
      (c : Conn M D E) (id : ℕ) (rest : List ℕ) (bytes : Bytes) (e : E) (f : Http2Frame)
      → f.typ ≡ data_frame
      → f.stream_id ≡ id
      → Panics now config_map hpack_decode hpack_encode (finish_stream c id rest bytes e)
  unfolding finish_stream
  finish_stream-Panics c id rest bytes e f t s =
      data_of_none f t (rw s (get-remove id id c.streams ∙ rw ==_refl refl))
