-- ===== src/Tests/Streams.antt =====
-- Tests and witnesses for files that are asked for over HTTP/2.
use jequi.Prelude.{
  panic, ◌≢◌, ◌^◌, ◌<◌, ℕ, suc, ◌≡◌, refl, false, none, some, List, [], ◌∷◌, ◌++◌, arith, Bytes,
  codes, length, All, not_found, Result, ok, err,
}
use jequi.Http1.ReadBody.{nothing}
use jequi.Text.Numbers.{show}
use jequi.Headers.{Header, known-IsValue}
use jequi.Headers.Assoc.{assoc_ops}
use jequi.Text.Split.{before}
use jequi.FilePath.{PathBuf, root_dir, normal}
use jequi.Config.Select.{ConfigMap, get_config_for_request, host_scope, select_path}
use jequi.Message.Request
use jequi.Message.Response
use jequi.Server.Plugin
use jequi.Server.Plugin.{Plugin, own, foreign, get_jequi}
use jequi.Server.Handle.{handlers}
use jequi.StaticFiles.Config
use jequi.StaticFiles.Config.{dir}
use jequi.StaticFiles.Handle.{final_path}
use jequi.StaticFiles.Plugin.{request_handler}
use jequi.Text.{bytes_eq}
use jequi.Text.Lossy.{from_utf8_lossy}
use jequi.Maps
use jequi.Maps.{nat_Eq}
use jequi.Http2.Frame.{Http2Frame, new, headers_frame}
use jequi.Http2.Streams.{
  Stream, process_headers, header_block, add_fields, add_field, pseudo_header,
}
use jequi.Http2.Response.{response_bytes, end_headers_flag}
use jequi.Http2.Response.Frames.{payloads, EndsOnce, IsDataFrame}
use jequi.Http2.Response.Wire.{read_frames, response_bytes-read_frames}
use jequi.Http2.Loop.{Conn, Opens, headers, Run, start, open_stream}
use jequi.Http2.Loop.Once.{fresh}
use jequi.WholeExchange.Streams.{Opens-file}
use jequi.WholeExchange.Streams.Rounds.{Asks, nothing, asks, IsForFile, Responses, Run-Responses}

abbrev M : Type 0
M = List Header

abbrev www : Config.Config
www = record Config.default { static_files_path = some (dir (root_dir ∷ [])) }

abbrev no_file : PathBuf → Result Bytes
no_file p = err not_found

abbrev plugins_of : (PathBuf → Result Bytes) → List (Plugin M ℕ)
plugins_of fs_read =
    record { config = own Plugin.default; request_handler = none }
    ∷ (record { config = foreign 1; request_handler = some (request_handler fs_read www) } ∷ [])

abbrev map_of : (PathBuf → Result Bytes) → ConfigMap (List (Plugin M ℕ))
map_of fs_read = record { host = none; path = none; config = plugins_of fs_read }

-- Every header block is that of a request for `/a`, and is encoded as two bytes.
abbrev decode : ℕ → Bytes → Result (List Header × ℕ)
decode d bytes = ok ((codes ":method", codes "GET") ∷ ((codes ":path", codes "/a") ∷ []), suc d)

abbrev to_bytes : ℕ → List Header → Bytes × ℕ
to_bytes e hs = (codes "hs", suc e)

abbrev stream : Stream M
stream = record {
  id = 1;
  request = record Request.new { method = codes "GET"; uri = record { text = codes "/a" } };
  response = Response.new;
}

abbrev before_all : Conn M ℕ ℕ
before_all = fresh (λ n. stream) 0 0

opening :
    Opens
      (codes "now")
      (map_of no_file)
      decode
      to_bytes
      before_all
      1
      (open_stream before_all 1 stream false 1)
unfolding process_headers header_block add_fields add_field pseudo_header bytes_eq from_utf8_lossy
    Maps.insert new
opening = headers (new headers_frame 5 1 []) ((1, stream) ∷ []) stream false 1 refl refl refl refl

Opens-file_example :
    (c' : Conn M ℕ ℕ) × (bytes : Bytes) × (others : List Header) × (fs : List Http2Frame) × Run
      (codes "now")
      (map_of no_file)
      decode
      to_bytes
      before_all
      (1 ∷ [])
      c'
    × (c'.written ≡ [] ++ ((1, bytes) ∷ []))
    × (Maps.get 1 c'.streams ≡ none)
    × (c'.streams ≡ Maps.remove 1 (Maps.insert 1 0 []))
    × (c'.queue ≡ [])
    × (c'.tasks ≡ [])
    × (c'.decoder ≡ 1)
    × (c'.encoder ≡ 1)
    × ((rest : Bytes)
        → read_frames (suc (length fs)) (bytes ++ rest)
          ≡ ok (
            new headers_frame end_headers_flag 1
                  (to_bytes 0 ((codes ":status", show 10 404) ∷ others)).0
                ∷ fs,
            rest,
          ))
    × (payloads fs ≡ [])
    × EndsOnce fs
    × All (IsDataFrame 1 Plugin.default.chunk_size) fs
unfolding get_config_for_request host_scope select_path handlers final_path before get_jequi
Opens-file_example =
    Opens-file (codes "now") (map_of no_file) decode to_bytes no_file 1 stream 1
      (plugins_of no_file) Plugin.default www (root_dir ∷ (normal (codes "a") ∷ [])) start refl tt
      opening (omega arith) (known-IsValue (codes "now") refl) tt refl refl refl refl (omega arith)
      (omega arith) (λ state hs. omega arith) refl (λ e. cc)

response_bytes-read_frames_example :
    (bytes : Bytes) × (fs : List Http2Frame) × (response_bytes to_bytes 0 1 3
        (record stream.response { body_buffer = codes "hello" })
      ≡ ok (bytes, 1))
    × ((rest : Bytes)
        → read_frames (suc (length fs)) (bytes ++ rest)
          ≡ ok (new headers_frame end_headers_flag 1 (codes "hs") ∷ fs, rest))
    × (payloads fs ≡ codes "hello")
    × EndsOnce fs
    × All (IsDataFrame 1 3) fs
response_bytes-read_frames_example =
    response_bytes-read_frames to_bytes 0 1 3
      (record stream.response { body_buffer = codes "hello" }) (omega arith) (omega arith)
      (omega arith) (omega arith)

-- Another stream for the same, and the two headers frames.
abbrev stream_again : Stream M
stream_again = record stream { id = 3 }

asked_twice : Asks decode 0 (stream ∷ (stream_again ∷ [])) 2
unfolding process_headers header_block add_fields add_field pseudo_header bytes_eq from_utf8_lossy
    Maps.insert new
asked_twice =
    asks (new headers_frame 5 1 []) ((1, stream) ∷ []) refl refl refl
      (asks (new headers_frame 5 3 []) ((3, stream_again) ∷ []) refl refl refl nothing)

not_found-ne_panic : no_file (root_dir ∷ (normal (codes "a") ∷ [])) ≢ panic
not_found-ne_panic e = cc

abbrev for_file :
    (id : ℕ) → id < 2 ^ 31 → IsForFile (map_of no_file) no_file (record stream { id = id })
unfolding get_config_for_request host_scope select_path handlers final_path before get_jequi
for_file id low = record {
  plugins = plugins_of no_file;
  main = Plugin.default;
  conf = www;
  file = root_dir ∷ (normal (codes "a") ∷ []);
  low = low;
  sent = tt;
  empty = refl;
  chosen = refl;
  one = refl;
  own = refl;
  pos = omega arith;
  small = omega arith;
  target = refl;
  readable = not_found-ne_panic;
}

Run-Responses_example :
    (c' : Conn M ℕ ℕ) × (written : List (ℕ × Bytes)) × Run
      (codes "now")
      (map_of no_file)
      decode
      to_bytes
      before_all
      (3 ∷ (1 ∷ []))
      c'
    × (c'.streams ≡ [])
    × (c'.queue ≡ [])
    × (c'.tasks ≡ [])
    × (c'.decoder ≡ 2)
    × (c'.written ≡ [] ++ written)
    × Responses
        (map_of no_file)
        no_file
        to_bytes
        0
        (stream ∷ (stream_again ∷ []))
        (for_file 1 (omega arith), (for_file 3 (omega arith), tt))
        written
Run-Responses_example =
    Run-Responses (codes "now") (map_of no_file) decode to_bytes no_file
      (stream ∷ (stream_again ∷ [])) (for_file 1 (omega arith), (for_file 3 (omega arith), tt))
      start refl refl refl asked_twice (known-IsValue (codes "now") refl) (λ state hs. omega arith)
