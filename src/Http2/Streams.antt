-- ===== src/Http2/Streams.antt =====
-- `process_frame` of jequi/src/http2/frame.rs: what a frame does to the streams. The map of streams
-- shares a stream's request with the task that handles it; a change of the request is a change of
-- the map here. The decoder of header blocks (`hpack`) is a parameter.
pub mod Requests
use jequi.Prelude.{
  Option, ℕ, bit_and, Bool, not, none, some, List, [], ◌∷◌, ◌==◌, if◌then◌else◌, Bytes, codes,
  Result, ok, panic, ◌>>=◌, unwrap, unwrap_option,
}
use jequi.Text.{bytes_eq}
use jequi.Text.Lossy.{from_utf8_lossy}
use jequi.Headers.{Header, HeaderOps}
use jequi.Maps
use jequi.Maps.{nat_Eq}
use jequi.Config.Select.{ConfigMap}
use jequi.Message.Body
use jequi.Message.Request.{Request, new}
use jequi.Message.Response
use jequi.Message.Response.{Response}
use jequi.Http1.Read.{read_u8, read_exact}
use jequi.Http2.Frame.{headers_frame, data_frame, Http2Frame}
use jequi.Http2.Response.{end_stream_flag}
use jequi.Server.Plugin.{Plugin}
use jequi.Server.Handle
use jequi.Server.Handle.{Handled}

abbrev pub padded_flag : ℕ
padded_flag = 8

abbrev pub priority_flag : ℕ
priority_flag = 32

-- `flags & mask != 0`
abbrev pub has_flag : ℕ → ℕ → Bool
has_flag mask flags = not (bit_and flags mask == 0)

pub record Stream (M : Type 0) : Type 0 where
  pub id : ℕ
  pub request : Request M
  pub response : Response M

abbrev pub Streams : Type 0 → Type 0
Streams M = List (ℕ × Stream M)

-- The part of a payload that goes to the decoder: behind the length of the padding, if the frame is
-- padded, and behind the five bytes of a priority. The padding itself stays at the end.
unfoldable pub header_block : ℕ → Bytes → Result Bytes
unfolding read_u8 read_exact
header_block flags payload = do
  (_, after_padding) ←
      if has_flag padded_flag flags then unwrap (read_u8 payload) else ok (0, payload)
  (_, block) ←
      if has_flag priority_flag flags
      then unwrap (read_exact 5 after_padding)
      else ok ([], after_padding)
  ok block

module _ {M : Type 0} where
  -- A data frame of an unknown stream is a panic.
  unfoldable pub process_data : Http2Frame → Streams M → Result (Streams M)
  process_data f streams = do
    s ← unwrap_option (Maps.get f.stream_id streams)
    ok (
        Maps.insert f.stream_id
          (record s {
            request = record s.request {
              body = (Body.write_body (some f.payload) s.request.body).0;
            };
          })
          streams)

module _ {M : Type 0} ⦃ops : HeaderOps M⦄ where
  -- A field whose name starts with a colon.
  unfoldable pub pseudo_header : Request M → Bytes → Bytes → Request M
  unfolding bytes_eq from_utf8_lossy
  pseudo_header r h v =
      if bytes_eq h (codes ":method")
      then record r { method = from_utf8_lossy v }
      else if bytes_eq h (codes ":path")
      then record r { uri = record { text = from_utf8_lossy v } }
      else if bytes_eq h (codes ":authority")
      then record r { host = some (from_utf8_lossy v) }
      else r

  -- The closure that takes the decoded fields: an empty name is an index out of bounds.
  unfoldable pub add_field : Request M → Bytes → Bytes → Result (Request M)
  unfolding pseudo_header
  add_field r [] v = panic
  add_field r (c ∷ cs) v = if c == b':' then ok (pseudo_header r (c ∷ cs) v) else (do
    name ← unwrap_option (ops.parse_name (c ∷ cs))
    value ← unwrap_option (ops.parse_value v)
    ok (record r { headers = ops.append r.headers name value }))

  unfoldable pub add_fields : Request M → List Header → Result (Request M)
  unfolding add_field
  add_fields r [] = ok r
  add_fields r ((h, v) ∷ hs) = do next ← add_field r h v; add_fields next hs

  -- The stream that is opened, whether its task waits for a body, and the decoder's new state.
  unfoldable pub process_headers :
      {D : Type 0}
      → (D → Bytes → Result (List Header × D))
      → D
      → Http2Frame
      → Streams M
      → Result (Streams M × Stream M × Bool × D)
  unfolding header_block add_fields
  process_headers hpack d f streams = do
    block ← header_block f.flags f.payload
    (fields, d') ← unwrap (hpack d block)
    request ← add_fields new fields
    let stream : Stream M = record { id = f.stream_id; request = request; response = Response.new }
    ok (Maps.insert f.stream_id stream streams, stream, not (has_flag end_stream_flag f.flags), d')

  -- The streams and the decoder's state behind a frame, and the stream that it opens, with whether
  -- the stream's task waits for a body. Other frames than these two are passed over.
  unfoldable pub process_frame :
      {D : Type 0}
      → (D → Bytes → Result (List Header × D))
      → D
      → Http2Frame
      → Streams M
      → Result (Streams M × Option (Stream M × Bool) × D)
  unfolding process_headers process_data
  process_frame hpack d f streams = elim f.typ [
    | data_frame ↦ do next ← process_data f streams; ok (next, none, d)
    | headers_frame ↦ do
      (next, stream, read_body, d') ← process_headers hpack d f streams
      ok (next, some (stream, read_body), d')
    | _ ↦ ok (streams, none, d)
  ]

  -- The task of a stream up to its wait for the body.
  unfoldable pub run_stream :
      {H : Type 0} → Bytes → ConfigMap (List (Plugin M H)) → Bool → Stream M → Result (Handled M H)
  run_stream now config_map read_body s =
      Handle.handle_request now config_map
        (if read_body
          then s.request
          else record s.request { body = (Body.write_body none s.request.body).0 })
        s.response
