-- ===== src/Http2/Loop/Spec.antt =====
-- A connection as its client sees it: open streams, each with its own request and response, and the
-- responses that were written; and that the loop, with its store and its tasks, is one.
use jequi.Prelude.{
  ℕ, ◌≡◌, refl, sym, subst, inl, inr, Bool, Option, none, some, List, [], ◌∷◌, ◌++◌, arith, ◌==◌,
  ==_refl, Bool-cases, Bytes, All, Result, ok,
}
use jequi.Headers.{Header, HeaderOps}
use jequi.Maps
use jequi.Maps.{nat_Eq, get-insert, get-remove}
use jequi.Config.Select.{ConfigMap}
use jequi.Message.Body
use jequi.Message.Hijack.{PostRequestHandler}
use jequi.Message.Request.{Request}
use jequi.Message.Response.{Response}
use jequi.Server.Plugin.{Plugin}
use jequi.Http2.Frame.{Http2Frame, headers_frame, data_frame}
use jequi.Http2.Streams.{Stream, Streams, process_headers, run_stream}
use jequi.Http2.Loop.{
  stream_response, Conn, open_stream, deliver, run_handlers, finish_stream, headers, Step, receive,
  pass, handle, read_whole, send, let_go, write, Run, start, opens, steps, Opens,
}
use jequi.Http2.Loop.Once.{fresh}
use jequi.Http2.Loop.View.{set_at, place_dec, view_free, view_put, view}
use jequi.Http2.Loop.Store.{SharedIn, SharedIn-Run, Own, All-middle}

abbrev pub with_body : {M : Type 0} → Bytes → Stream M → Stream M
with_body payload s = record s {
  request = record s.request { body = (Body.write_body (some payload) s.request.body).0 };
}

module _ {M D E H : Type 0} ⦃ops : HeaderOps M⦄ (now : Bytes)
    (config_map : ConfigMap (List (Plugin M H)))
    (hpack_decode : D → Bytes → Result (List Header × D))
    (hpack_encode : E → List Header → Bytes × E) where
  -- The open streams, by their numbers, and the responses, after the streams `ids` were opened: a
  -- stream is opened with the request of its headers frame, may be given a body, has its request and
  -- response changed by the handlers of its own request, and is answered with its own response.
  pub data Serves : List ℕ → (ℕ → Option (Stream M)) → List (ℕ × Bytes) → Type 0 where
    begins : (v : ℕ → Option (Stream M)) → ((i : ℕ) → v i ≡ none) → Serves [] v []
    opened :
        {ids : List ℕ} {v : ℕ → Option (Stream M)} {written : List (ℕ × Bytes)}
        (v' : ℕ → Option (Stream M)) (id : ℕ) (f : Http2Frame) (m : Streams M) (stream : Stream M)
        (read_body : Bool) (d d' : D)
        → Serves ids v written
        → f.typ ≡ headers_frame
        → f.stream_id ≡ id
        → process_headers hpack_decode d f [] ≡ ok (m, stream, read_body, d')
        → ((i : ℕ) → v' i ≡ set_at id (some stream) v i)
        → Serves (id ∷ ids) v' written
    given_body :
        {ids : List ℕ} {v : ℕ → Option (Stream M)} {written : List (ℕ × Bytes)}
        (v' : ℕ → Option (Stream M)) (f : Http2Frame) (s : Stream M)
        → Serves ids v written
        → f.typ ≡ data_frame
        → v f.stream_id ≡ some s
        → ((i : ℕ) → v' i ≡ set_at f.stream_id (some (with_body f.payload s)) v i)
        → Serves ids v' written
    processed :
        {ids : List ℕ} {v : ℕ → Option (Stream M)} {written : List (ℕ × Bytes)}
        (v' : ℕ → Option (Stream M)) (id : ℕ) (s : Stream M) (read_body : Bool)
        (request : Request M) (response : Response M) (post : PostRequestHandler H)
        → Serves ids v written
        → v id ≡ some s
        → run_stream now config_map read_body s ≡ ok (request, response, post)
        → ((i : ℕ)
            → v' i ≡ set_at id (some (record s { request = request; response = response })) v i)
        → Serves ids v' written
    answered :
        {ids : List ℕ} {v : ℕ → Option (Stream M)} {written : List (ℕ × Bytes)}
        (v' : ℕ → Option (Stream M)) (id : ℕ) (s : Stream M) (bytes : Bytes) (e e' : E)
        → Serves ids v written
        → v id ≡ some s
        → stream_response now config_map hpack_decode hpack_encode e s ≡ ok (bytes, e')
        → ((i : ℕ) → v' i ≡ set_at id none v i)
        → Serves ids v' (written ++ ((id, bytes) ∷ []))
    -- Nothing that a client sees.
    unchanged :
        {ids : List ℕ} {v : ℕ → Option (Stream M)} {written : List (ℕ × Bytes)}
        (v' : ℕ → Option (Stream M))
        → Serves ids v written
        → ((i : ℕ) → v' i ≡ v i)
        → Serves ids v' written

  Serves-Conn : List ℕ → Conn M D E → Type 0
  Serves-Conn ids c = Serves ids (view c) c.written

  Step-Serves :
      (ids : List ℕ) (c c' : Conn M D E)
      → SharedIn c
      → Step now config_map hpack_decode hpack_encode c c'
      → Serves-Conn ids c
      → Serves-Conn ids c'
  unfolding Serves-Conn deliver run_handlers finish_stream
  Step-Serves ids c c' shared (receive f n t at e) s = subst (Serves-Conn ids) (sym e) (
      given_body _ f (c.store n) s t (rw at refl) (λ i.
        view_put c.streams c.store f.stream_id n (with_body f.payload (c.store n)) i at
          (λ h. shared.apart i f.stream_id n h at)))
  Step-Serves ids c c' shared (pass f _ _ e) s = subst (Serves-Conn ids) (sym e) s
  Step-Serves ids c c' shared (handle before t after request response post ts _ h e) s =
      let (front, (below, own), back) =
        All-middle (Own c.streams c.next) before t after
          (subst (All (Own c.streams c.next)) ts shared.own) in
      let next_stream : Stream M = record (c.store t.place) {
        request = request;
        response = response;
      } in
      subst (Serves-Conn ids) (sym e) (elim (place_dec (Maps.get t.id c.streams) t.place) [
        | inl at ↦
            processed _ t.id (c.store t.place) t.read_body request response post s (rw at refl) h
              (λ i. view_put c.streams c.store t.id t.place next_stream i at (own i))
        | inr gone ↦ unchanged _ s (λ i.
            view_free c.streams c.store t.place next_stream i
              (λ k. gone (subst (λ j. Maps.get j c.streams ≡ some t.place) (own i k) k)))
      ])
  Step-Serves ids c c' shared (read_whole before t after ts _ _ e) s =
      subst (Serves-Conn ids) (sym e) (unchanged _ s (λ i. refl))
  Step-Serves ids c c' shared (send before t after ts _ _ e) s =
      subst (Serves-Conn ids) (sym e) (unchanged _ s (λ i. refl))
  Step-Serves ids c c' shared (let_go before t after ts _ e) s =
      subst (Serves-Conn ids) (sym e) (unchanged _ s (λ i. refl))
  Step-Serves ids c c' shared (write id n rest bytes e q at _ h w) s =
      subst (Serves-Conn ids) (sym w) (
        answered _ id (c.store n) bytes c.encoder e s (rw at refl) h (λ i.
          elim (Bool-cases (id == i)) [
            | inl same ↦ rw (get-remove id i c.streams) (rw same refl)
            | inr ne ↦ rw (get-remove id i c.streams) (rw ne refl)
          ]))

  Opens-Serves :
      (ids : List ℕ) (id : ℕ) (c c' : Conn M D E)
      → SharedIn c
      → Opens now config_map hpack_decode hpack_encode c id c'
      → Serves-Conn ids c
      → Serves-Conn (id ∷ ids) c'
  unfolding Serves-Conn open_stream
  Opens-Serves ids id c c' shared (headers f m stream read_body d t same h e) s =
      subst (Serves-Conn (id ∷ ids)) (sym e) (
        opened _ id f m stream read_body c.decoder d s t same h (λ i. elim (Bool-cases (id == i)) [
          | inl here ↦ rw (get-insert id i c.next c.streams) (rw here (rw ==_refl refl))
          | inr ne ↦ rw (get-insert id i c.next c.streams) (
              rw ne (
                view_free c.streams c.store c.next stream i
                  (λ k. absurd (omega (arith, shared.used i c.next k)))))
        ]))

module _ {M D E H : Type 0} ⦃ops : HeaderOps M⦄ (now : Bytes)
    (config_map : ConfigMap (List (Plugin M H)))
    (hpack_decode : D → Bytes → Result (List Header × D))
    (hpack_encode : E → List Header → Bytes × E) (store : ℕ → Stream M) (d : D) (e : E) where
  fresh-SharedIn : SharedIn (fresh store d e)
  unfolding Maps.get
  fresh-SharedIn = record { used = λ i n h. cc; apart = λ i j n h k. cc; own = tt }

  -- However frames arrive and tasks run, and with map and tasks sharing their streams, a connection
  -- does what one does whose streams are values: each stream has the request of its own headers
  -- frame and body, its handlers change it alone, and what is written for its number is its own
  -- response.
  pub Run-Serves :
      {ids : List ℕ} {c : Conn M D E}
      → Run now config_map hpack_decode hpack_encode (fresh store d e) ids c
      → Serves now config_map hpack_decode hpack_encode ids (view c) c.written
  unfolding Serves-Conn Maps.get
  Run-Serves start = begins _ (λ i. refl)
  Run-Serves (opens {ids = ids} {id = id} {c = c} {c' = c'} r o) =
      Opens-Serves now config_map hpack_decode hpack_encode ids id c c'
        (SharedIn-Run now config_map hpack_decode hpack_encode fresh-SharedIn r) o (Run-Serves r)
  Run-Serves (steps {ids = ids} {c = c} {c' = c'} r st) =
      Step-Serves now config_map hpack_decode hpack_encode ids c c'
        (SharedIn-Run now config_map hpack_decode hpack_encode fresh-SharedIn r) st (Run-Serves r)
