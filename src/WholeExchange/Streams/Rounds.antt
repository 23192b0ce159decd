-- ===== src/WholeExchange/Streams/Rounds.antt =====
-- A connection over HTTP/2 on which a client asks for many files, each when it has the one before.
use jequi.Prelude.{
  ==_refl, ℕ, suc, ◌^◌, ◌<◌, ◌≡◌, refl, sym, ap, subst, ◌∙◌, ◌≢◌, false, some, List, [], ◌∷◌, ◌++◌,
  append-nil, append_assoc, Bytes, codes, length, All, Result, ok, panic,
}
use jequi.FilePath.{PathBuf}
use jequi.Maps
use jequi.Maps.{nat_Eq}
use jequi.Headers.{IsSent, IsValue, Header, HeaderOps}
use jequi.Config.Select.{ConfigMap, get_config_for_request}
use jequi.Message.Uri.{path}
use jequi.Server.Plugin
use jequi.Server.Plugin.{Plugin, get_jequi}
use jequi.Server.Handle.{handlers}
use jequi.StaticFiles.Config.{Config}
use jequi.StaticFiles.Handle.{final_path}
use jequi.StaticFiles.Plugin.{request_handler}
use jequi.StaticFiles.Outcome.{expected_status, expected_body}
use jequi.Text.Numbers.{show}
use jequi.Http2.Frame.{Http2Frame, new, headers_frame}
use jequi.Http2.Response.{end_headers_flag}
use jequi.Http2.Response.Frames.{payloads, EndsOnce, IsDataFrame}
use jequi.Http2.Response.Wire.{read_frames}
use jequi.Http2.Streams.{Stream, Streams, process_headers}
use jequi.Http2.Loop.{Conn, headers, Run}
use jequi.WholeExchange.Streams.{Opens-file}

-- The numbers of the streams that were opened, the last first.
abbrev pub opened : {M : Type 0} → List (Stream M) → List ℕ → List ℕ
opened [] ids = ids
opened (s ∷ ss) ids = opened ss (s.id ∷ ids)

module _ {M D : Type 0} ⦃ops : HeaderOps M⦄
    (hpack_decode : D → Bytes → Result (List Header × D)) where
  -- Headers frames, each of which ends its stream, with the streams that they open and the states of
  -- the decoder in front and behind.
  pub data Asks : D → List (Stream M) → D → Type 0 where
    nothing : {d : D} → Asks d [] d
    asks :
        {d d' d'' : D} {s : Stream M} {ss : List (Stream M)} (f : Http2Frame) (m : Streams M)
        → f.typ ≡ headers_frame
        → f.stream_id ≡ s.id
        → process_headers hpack_decode d f [] ≡ ok (m, s, false, d')
        → Asks d' ss d''
        → Asks d (s ∷ ss) d''

module _ {M H : Type 0} ⦃ops : HeaderOps M⦄ (config_map : ConfigMap (List (Plugin M H)))
    (fs_read : PathBuf → Result Bytes) where
  -- A new stream whose request the plugin for static files, alone, can answer.
  pub record IsForFile (s : Stream M) : Type 0 where
    pub plugins : List (Plugin M H)
    pub main : Plugin.Config
    pub conf : Config
    pub file : PathBuf
    pub low : s.id < 2 ^ 31
    pub sent : All IsSent (ops.iter s.response.headers)
    pub empty : s.response.body_buffer ≡ []
    pub chosen :
        get_config_for_request config_map s.request.host (some (path s.request.uri)) ≡ some plugins
    pub one : handlers plugins ≡ request_handler fs_read conf ∷ []
    pub own : get_jequi plugins ≡ some main
    pub pos : 0 < main.chunk_size
    pub small : main.chunk_size < 2 ^ 24
    pub target : final_path conf s.request.uri ≡ ok file
    pub readable : fs_read file ≢ panic

  -- The headers of the response, of which `others` stand behind the status.
  abbrev pub response_headers : {s : Stream M} → IsForFile s → List Header → List Header
  response_headers q others = (codes ":status", show 10 (expected_status (fs_read q.file))) ∷ others

  module _ {E : Type 0} (hpack_encode : E → List Header → Bytes × E) where
    -- What a peer reads frames from as the answer to a stream: its headers frame, encoded in the
    -- state `e`, and the frames of its body.
    abbrev pub IsResponse : E → (s : Stream M) → IsForFile s → List Header → Bytes → Type 0
    IsResponse e s q others bytes =
        (fs : List Http2Frame) × ((rest : Bytes)
          → read_frames (suc (length fs)) (bytes ++ rest)
            ≡ ok (
              new headers_frame end_headers_flag s.id (hpack_encode e (response_headers q others)).0
                  ∷ fs,
              rest,
            ))
        × (payloads fs ≡ expected_body fs_read q.conf (fs_read q.file))
        × EndsOnce fs
        × All (IsDataFrame s.id q.main.chunk_size) fs

    -- Responses to streams, in their order, with the states of the encoder.
    pub data Responses
        : E → (ss : List (Stream M)) → All IsForFile ss → List (ℕ × Bytes) → Type 0 where
      none_left : {e : E} → Responses e [] tt []
      next :
          {e : E} {s : Stream M} {ss : List (Stream M)} {q : IsForFile s} {qs : All IsForFile ss}
          {bytes : Bytes} {written : List (ℕ × Bytes)} (others : List Header)
          → IsResponse e s q others bytes
          → Responses (hpack_encode e (response_headers q others)).1 ss qs written
          → Responses e (s ∷ ss) (q, qs) ((s.id, bytes) ∷ written)

-- A map with one key, without it.
remove-only : {A : Type 0} (id : ℕ) (a : A) → Maps.remove id (Maps.insert id a []) ≡ []
unfolding Maps.remove Maps.insert
remove-only id a = rw ==_refl refl

-- A client opens streams one behind the other, each by a headers frame that ends it, on a connection
-- on which no stream is open, no finished one waits and no task is left. If the date is visible text,
-- header blocks are below 2^24 bytes, and each request is for the plugin for static files alone, on a
-- stream below 2^31, with a chunk size that is not 0 and below 2^24 and a path that is read without a
-- panic, then steps can be taken after which again no stream is open, none waits and no task is left,
-- the decoder is in the state behind the last frame, and the responses have been written in the order
-- of the requests, and nothing else: a peer reads each of them, whatever stands behind, as a headers
-- frame with the status of what was read, 200, 403 or 404, encoded in the state that the response
-- before has left, and as data frames of the stream that hold at most the chunk size each and together
-- the contents of the file, nothing, or the page for what is not found, of which the last, alone, ends
-- the stream.
pub Run-Responses :
    {M D E H : Type 0} ⦃ops : HeaderOps M⦄ (now : Bytes)
    (config_map : ConfigMap (List (Plugin M H)))
    (hpack_decode : D → Bytes → Result (List Header × D))
    (hpack_encode : E → List Header → Bytes × E) (fs_read : PathBuf → Result Bytes)
    {c₀ c : Conn M D E} {ids : List ℕ} {d : D} (ss : List (Stream M))
    (qs : All (IsForFile config_map fs_read) ss)
    → Run now config_map hpack_decode hpack_encode c₀ ids c
    → c.streams ≡ []
    → c.queue ≡ []
    → c.tasks ≡ []
    → Asks hpack_decode c.decoder ss d
    → IsValue now
    → ((state : E) (hs : List Header) → length (hpack_encode state hs).0 < 2 ^ 24)
    → (c' : Conn M D E) × (written : List (ℕ × Bytes)) × Run now config_map hpack_decode
        hpack_encode c₀
        (opened ss ids)
        c'
      × (c'.streams ≡ [])
      × (c'.queue ≡ [])
      × (c'.tasks ≡ [])
      × (c'.decoder ≡ d)
      × (c'.written ≡ c.written ++ written)
      × Responses config_map fs_read hpack_encode c.encoder ss qs written
Run-Responses now config_map hpack_decode hpack_encode fs_read {c = c} [] qs r none_open idle tasks
      nothing date short =
    (c, [], r, none_open, idle, tasks, refl, sym (append-nil c.written), none_left)
Run-Responses now config_map hpack_decode hpack_encode fs_read {c = c} {d = d} (s ∷ ss) (q, qs) r
      none_open idle tasks (asks {d' = d'} f m typ same read more) date short =
    let (
      first, bytes, others, fs, run, wrote, _, open', idle', tasks', decoded, encoded, reads, body,
      ends, kinds,
    ) =
      Opens-file now config_map hpack_decode hpack_encode fs_read s.id s d' q.plugins q.main q.conf
        q.file r idle (subst (All _) (sym tasks) tt) (headers f m s false d' typ same read refl)
        q.low date q.sent q.empty q.chosen q.one q.own q.pos q.small short q.target q.readable in
    let (done, written, runs, closed, idles, ended, left, writes, responses) =
      Run-Responses now config_map hpack_decode hpack_encode fs_read {c = first} ss qs run
        (open' ∙ rw none_open (remove-only s.id c.next)) idle' (tasks' ∙ tasks)
        (subst (λ k. Asks hpack_decode k ss d) (sym decoded) more) date short in
    (
      done,
      (s.id, bytes) ∷ written,
      runs,
      closed,
      idles,
      ended,
      left,
      writes ∙ ap (λ t. t ++ written) wrote ∙ append_assoc c.written ((s.id, bytes) ∷ []) written,
      next others (fs, reads, body, ends, kinds)
          (subst (λ k. Responses config_map fs_read hpack_encode k ss qs written) encoded
            responses),
    )
