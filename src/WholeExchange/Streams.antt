-- ===== src/WholeExchange/Streams.antt =====
-- A request for a file over HTTP/2: the loop and the task of the stream, the chain of handlers, the
-- plugin for static files and the frames of the response together.
pub mod Rounds
use jequi.Prelude.{
  ℕ, suc, ◌^◌, ◌<◌, ◌≡◌, refl, ◌∙◌, ◌≢◌, false, none, some, List, [], ◌∷◌, ◌++◌, Bytes, length, All,
  Result, ok, ap, subst, codes, panic,
}
use jequi.FilePath.{PathBuf}
use jequi.Headers.{IsSent, IsValue, Header, HeaderOps}
use jequi.Maps
use jequi.Maps.{nat_Eq}
use jequi.Config.Select.{ConfigMap, get_config_for_request}
use jequi.Message.Body.{write_body}
use jequi.Message.Uri.{path}
use jequi.Message.Request.{Request}
use jequi.Server.Plugin
use jequi.Server.Plugin.{Plugin, get_jequi}
use jequi.Server.Handle.{handlers}
use jequi.StaticFiles.Config.{Config}
use jequi.StaticFiles.Handle.{final_path}
use jequi.StaticFiles.Plugin.{request_handler}
use jequi.Http2.Frame.{Http2Frame, new, headers_frame}
use jequi.Http2.Response.{kept, header_list, end_headers_flag}
use jequi.Http2.Streams.{Stream, run_stream}
use jequi.Http2.Response.Frames.{payloads, EndsOnce, IsDataFrame}
use jequi.Http2.Response.Wire.{read_frames, response_bytes-read_frames}
use jequi.Http2.Loop.{Conn, Opens, Run, open_stream, stream_response}
use jequi.Http2.Loop.Answer.{Opens-written}
use jequi.WholeExchange.Answering.{handle_request-expected}
use jequi.StaticFiles.Outcome.{expected_status, expected_next, expected_body}
use jequi.Text.Numbers.{show}

module _ {M D E H : Type 0} ⦃ops : HeaderOps M⦄ (now : Bytes)
    (config_map : ConfigMap (List (Plugin M H)))
    (hpack_decode : D → Bytes → Result (List Header × D))
    (hpack_encode : E → List Header → Bytes × E) (fs_read : PathBuf → Result Bytes) where
  stream_response_lem :
      (e : E) (s : Stream M) (plugins : List (Plugin M H)) (main : Plugin.Config)
      → get_config_for_request config_map s.request.host (some (path s.request.uri)) ≡ some plugins
      → get_jequi plugins ≡ some main
      → 0 < main.chunk_size
      → main.chunk_size < 2 ^ 24
      → s.id < 2 ^ 31
      → ((state : E) (hs : List Header) → length (hpack_encode state hs).0 < 2 ^ 24)
      → (bytes : Bytes) × (e' : E) × (head : Http2Frame) × (fs : List Http2Frame) × (stream_response
            now config_map hpack_decode hpack_encode e s
          ≡ ok (bytes, e'))
        × (head
            ≡ new headers_frame end_headers_flag s.id (hpack_encode e (header_list s.response)).0)
        × (e' ≡ (hpack_encode e (header_list s.response)).1)
        × ((rest : Bytes) → read_frames (suc (length fs)) (bytes ++ rest) ≡ ok (head ∷ fs, rest))
        × (payloads fs ≡ s.response.body_buffer)
        × EndsOnce fs
        × All (IsDataFrame s.id main.chunk_size) fs
  unfolding stream_response
  stream_response_lem e s plugins main chosen own pos small low short =
      let (bytes, fs, written, reads, whole, ends, kinds) =
        response_bytes-read_frames hpack_encode e s.id main.chunk_size s.response low pos small
          (short e _) in
      (
        bytes,
        (hpack_encode e (header_list s.response)).1,
        new headers_frame end_headers_flag s.id (hpack_encode e (header_list s.response)).0,
        fs,
        rw chosen (rw own written),
        refl,
        refl,
        reads,
        whole,
        ends,
        kinds,
      )

  -- From every state in which no finished stream waits and no task has the next place, a headers
  -- frame that ends its stream (below 2^31) can be answered: if the plugins for its host and path have
  -- one handler, that for static files, whose path for the target is read without a panic, and the
  -- server's own configuration with a chunk size that is not 0 and below 2^24, if header blocks are
  -- below 2^24 bytes, the date is visible text, and the new response is empty but for headers that can
  -- be sent, then steps can follow after which the stream, and no other, is out of the map, no
  -- finished stream waits, the tasks are as before, and the codecs have the states behind the frame
  -- and the response; and a peer that reads frames from what was written for it, whatever stands
  -- behind, reads a headers frame with the status 200, or 403 where reading is not allowed, or 404
  -- where it fails otherwise, in front of other headers, and data frames of the stream that hold at
  -- most the chunk size each and together the contents of the file, nothing, or the page for what is
  -- not found, of which the last, alone, ends the stream.
  pub Opens-file :
      {c₀ c : Conn M D E} {ids : List ℕ} (id : ℕ) (stream : Stream M) (d : D)
      (plugins : List (Plugin M H)) (main : Plugin.Config) (conf : Config) (p : PathBuf)
      → Run now config_map hpack_decode hpack_encode c₀ ids c
      → c.queue ≡ []
      → All (λ t. t.place ≢ c.next) c.tasks
      → Opens now config_map hpack_decode hpack_encode c id (open_stream c id stream false d)
      → stream.id < 2 ^ 31
      → IsValue now
      → All IsSent (ops.iter stream.response.headers)
      → stream.response.body_buffer ≡ []
      → get_config_for_request config_map stream.request.host (some (path stream.request.uri))
        ≡ some plugins
      → handlers plugins ≡ request_handler fs_read conf ∷ []
      → get_jequi plugins ≡ some main
      → 0 < main.chunk_size
      → main.chunk_size < 2 ^ 24
      → ((state : E) (hs : List Header) → length (hpack_encode state hs).0 < 2 ^ 24)
      → final_path conf stream.request.uri ≡ ok p
      → fs_read p ≢ panic
      → (c' : Conn M D E) × (bytes : Bytes) × (others : List Header) × (fs : List Http2Frame) × Run
          now config_map hpack_decode hpack_encode c₀
          (id ∷ ids)
          c'
        × (c'.written ≡ c.written ++ ((id, bytes) ∷ []))
        × (Maps.get id c'.streams ≡ none)
        × (c'.streams ≡ Maps.remove id (Maps.insert id c.next c.streams))
        × (c'.queue ≡ [])
        × (c'.tasks ≡ c.tasks)
        × (c'.decoder ≡ d)
        × (c'.encoder
            ≡ (hpack_encode c.encoder
                ((codes ":status", show 10 (expected_status (fs_read p))) ∷ others)).1)
        × ((rest : Bytes)
            → read_frames (suc (length fs)) (bytes ++ rest)
              ≡ ok (
                new headers_frame end_headers_flag stream.id
                      (hpack_encode c.encoder
                        ((codes ":status", show 10 (expected_status (fs_read p))) ∷ others)).0
                    ∷ fs,
                rest,
              ))
        × (payloads fs ≡ expected_body fs_read conf (fs_read p))
        × EndsOnce fs
        × All (IsDataFrame stream.id main.chunk_size) fs
  unfolding run_stream header_list
  Opens-file {c = c} id stream d plugins main conf p r q places o low date sent empty chosen one own
        pos small short target file =
      let req : Request M = record stream.request {
        body = (write_body none stream.request.body).0;
      } in
      let (resp, run, status, whole, _) =
        handle_request-expected now config_map fs_read conf plugins req stream.response p date sent
          chosen one target file in
      let (bytes, e, head, fs, response, first, coded, reads, carried, ends, kinds) =
        stream_response_lem c.encoder (record stream { request = req; response = resp }) plugins
          main chosen own pos small low short in
      let (c', run', written, gone, left, idle, tasks, decoded, encoded) =
        Opens-written now config_map hpack_decode hpack_encode id stream d req resp
          (expected_next H (fs_read p)) bytes e r q places o run response in
      let with_status : ℕ → Http2Frame = λ n.
        new headers_frame end_headers_flag stream.id
          (hpack_encode c.encoder
            ((codes ":status", show 10 n) ∷ kept (ops.iter resp.headers))).0 in
      (
        c',
        bytes,
        kept (ops.iter resp.headers),
        fs,
        run',
        written,
        gone,
        left,
        idle,
        tasks,
        decoded,
        encoded
            ∙ coded
            ∙ ap
                (λ n.
                  (hpack_encode c.encoder
                    ((codes ":status", show 10 n) ∷ kept (ops.iter resp.headers))).1)
                status,
        λ rest.
            subst (λ frame. read_frames (suc (length fs)) (bytes ++ rest) ≡ ok (frame ∷ fs, rest))
              (first ∙ ap with_status status) (reads rest),
        carried ∙ whole ∙ rw empty refl,
        ends,
        kinds,
      )
