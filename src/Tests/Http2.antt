-- ===== src/Tests/Http2.antt =====
-- Frames and streams at concrete inputs.
use jequi.Text.{bytes_eq}
use jequi.Prelude.{
  ◌+◌, ◌^◌, ◌≡◌, refl, ◌↔◌, some, List, [], ◌∷◌, ◌++◌, arith, Bytes, codes, replicate, All, ok,
}
use jequi.Http2.Connection.{preface, open_connection, open_connection-preface}
use jequi.Headers.{Header, known-IsName, known-IsValue}
use jequi.Headers.Assoc.{assoc_ops}
use jequi.Maps.{nat_Eq}
use jequi.Message.Request
use jequi.Message.Response
use jequi.Http2.Frame.{
  settings, to_u8, try_from, headers_frame, continuation, Http2Frame, new, encode, read_frame,
}
use jequi.Http2.Frame.RoundTrip.{try_from_iff, read_frame-encode}
use jequi.Http2.Response.{body_frames}
use jequi.Http2.Response.Frames.{payloads, EndsOnce, IsDataFrame, body_frames-EndsOnce}
use jequi.Http2.Streams.{Stream, Streams, add_fields}
use jequi.Http2.Streams.Requests.{add_fields-request}

try_from_iff_example : (try_from 9 ≡ ok continuation) ↔ (to_u8 continuation ≡ 9)
try_from_iff_example = try_from_iff 9 continuation

read_frame-encode_example :
    (bytes : Bytes) × (encode (new headers_frame 5 (2 ^ 31 + 7) (codes "ab")) ≡ ok bytes)
    × ((rest : Bytes) → read_frame (bytes ++ rest) ≡ ok (new headers_frame 5 7 (codes "ab"), rest))
read_frame-encode_example =
    read_frame-encode headers_frame 5 (2 ^ 31 + 7) (codes "ab") (omega arith)

-- A payload of 2^24 bytes.
unfoldable big : Bytes
big = replicate (2 ^ 24) 0

body_frames-EndsOnce_example :
    (fs : List Http2Frame) × (body_frames 3 2 (codes "hello") ≡ ok fs)
    × (payloads fs ≡ codes "hello")
    × EndsOnce fs
    × All (IsDataFrame 3 2) fs
body_frames-EndsOnce_example = body_frames-EndsOnce 3 2 (codes "hello") (omega arith)

abbrev some_headers : List Header
some_headers = (codes "accept", codes "text/html") ∷ ((codes "x-id", codes "7") ∷ [])

-- The fields of a request, with `:path` in front and `:scheme` among them.
abbrev some_fields : List Header
some_fields =
    (codes ":path", codes "/a")
    ∷ ((codes ":scheme", codes "h")
        ∷ ((codes ":authority", codes "j.c") ∷ ((codes ":method", codes "GET") ∷ [])))

add_fields-request_example :
    add_fields {M = List Header} Request.new (some_fields ++ some_headers)
    ≡ ok (record Request.new {
      method = codes "GET";
      uri = record { text = codes "/a" };
      host = some (codes "j.c");
      headers = some_headers;
    })
unfolding bytes_eq
add_fields-request_example =
    add_fields-request some_fields some_headers
      (
        (refl, (omega arith, (omega arith, tt))),
        (
          (refl, (omega arith, tt)),
          (
            (refl, (omega arith, (omega arith, (omega arith, tt)))),
            ((refl, (omega arith, (omega arith, (omega arith, tt)))), tt),
          ),
        ),
      )
      (
        (known-IsName (codes "accept") refl, known-IsValue (codes "text/html") refl),
        ((known-IsName (codes "x-id") refl, known-IsValue (codes "7") refl), tt),
      )

abbrev open_stream : Stream (List Header)
open_stream = record { id = 1; request = Request.new; response = Response.new }

abbrev open_streams : Streams (List Header)
open_streams = (1, open_stream) ∷ []

open_connection-preface_example :
    (out second : Bytes) × (open_connection (preface ++ codes "next") ≡ ok (out, codes "next"))
    × (read_frame out ≡ ok (new settings 0 0 [], second))
    × (read_frame second ≡ ok (new settings 1 0 [], []))
open_connection-preface_example = open_connection-preface (codes "next")
