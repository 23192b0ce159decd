-- ===== src/Http2/Response.antt =====
-- `Http2Conn::write_response` of jequi/src/http2/conn.rs: the frames of a response. Header
-- compression (`hpack`) is a parameter.
pub mod Frames
pub mod Wire
use jequi.Prelude.{
  ℕ, suc, ◌+◌, ◌-◌, ◌||◌, List, [], ◌∷◌, ◌++◌, ◌==◌, if◌then◌else◌, Bytes, codes, length, Result,
  ok, panic, ◌>>=◌,
}
use jequi.Text.{bytes_eq}
use jequi.Text.Numbers.{show}
use jequi.Headers.{Header, HeaderOps}
use jequi.Message.Response.{Response}
use jequi.Http1.Chunks.{div_ceil, chunks}
use jequi.Http2.Frame.{headers_frame, data_frame, Http2Frame, new, encode}

abbrev pub end_stream_flag : ℕ
end_stream_flag = 1

abbrev pub end_headers_flag : ℕ
end_headers_flag = 4

-- The headers that go into the header block.
unfoldable pub kept : List Header → List Header
unfolding bytes_eq
kept [] = []
kept ((h, v) ∷ hs) =
    if bytes_eq h (codes "transfer-encoding")
      || bytes_eq h (codes "connection")
      || bytes_eq h (codes "keep-alive")
    then kept hs
    else (h, v) ∷ kept hs

unfoldable pub header_list : {M : Type 0} ⦃ops : HeaderOps M⦄ → Response M → List Header
unfolding kept
header_list ⦃ops⦄ r = (codes ":status", show 10 r.status) ∷ kept (ops.iter r.headers)

-- The loop over the chunks, from the one of number `i`.
unfoldable pub chunk_frames : ℕ → ℕ → ℕ → List Bytes → List Http2Frame
chunk_frames stream_id last i [] = []
chunk_frames stream_id last i (c ∷ cs) =
    new data_frame (if i == last then end_stream_flag else 0) stream_id c
    ∷ chunk_frames stream_id last (suc i) cs

-- `div_ceil` and `chunks` panic at 0.
unfoldable pub body_frames : ℕ → ℕ → Bytes → Result (List Http2Frame)
body_frames stream_id chunk_size [] = ok (new data_frame end_stream_flag stream_id [] ∷ [])
body_frames stream_id chunk_size (x ∷ xs) =
    if chunk_size == 0
    then panic
    else ok (
        chunk_frames stream_id (div_ceil (length (x ∷ xs)) chunk_size - 1) 0
          (chunks chunk_size (x ∷ xs)))

-- The bytes that are written for frames.
unfoldable pub encode_all : List Http2Frame → Result Bytes
unfolding encode
encode_all [] = ok []
encode_all (f ∷ fs) = do bytes ← encode f; more ← encode_all fs; ok (bytes ++ more)

-- The response of a stream on the wire, and the state of the encoder behind it.
unfoldable pub response_bytes :
    {M E : Type 0} ⦃ops : HeaderOps M⦄
    → (E → List Header → Bytes × E)
    → E
    → ℕ
    → ℕ
    → Response M
    → Result (Bytes × E)
unfolding header_list body_frames encode_all
response_bytes hpack e stream_id chunk_size r = do
  let (compressed, e') = hpack e (header_list r)
  frames ← body_frames stream_id chunk_size r.body_buffer
  bytes ← encode_all (new headers_frame end_headers_flag stream_id compressed ∷ frames)
  ok (bytes, e')
