-- ===== src/Http2/Frame.antt =====
-- jequi/src/http2/frame.rs: the frame types, and frames as bytes.
pub mod RoundTrip
use jequi.Prelude.{
  ℕ, ◌+◌, ◌*◌, ◌/◌, ◌%◌, ◌^◌, [], ◌∷◌, ◌++◌, leb, ◌==◌, if◌then◌else◌, Bytes, length, take, drop,
  invalid_data, Result, ok, err, panic, ◌>>=◌, unwrap,
}

pub data FrameType : Type 0 where
  headers_frame priority rst_stream settings : FrameType
  data_frame push_promise ping go_away window_update continuation : FrameType

-- `From<&FrameType> for u8`
unfoldable pub to_u8 : FrameType → ℕ
to_u8 data_frame = 0
to_u8 headers_frame = 1
to_u8 priority = 2
to_u8 rst_stream = 3
to_u8 settings = 4
to_u8 push_promise = 5
to_u8 ping = 6
to_u8 go_away = 7
to_u8 window_update = 8
to_u8 continuation = 9

-- `TryFrom<u8> for FrameType`
unfoldable pub try_from : ℕ → Result FrameType
try_from value =
    if value == 0
    then ok data_frame
    else if value == 1
    then ok headers_frame
    else if value == 2
    then ok priority
    else if value == 3
    then ok rst_stream
    else if value == 4
    then ok settings
    else if value == 5
    then ok push_promise
    else if value == 6
    then ok ping
    else if value == 7
    then ok go_away
    else if value == 8
    then ok window_update
    else if value == 9
    then ok continuation
    else err invalid_data

pub record Http2Frame : Type 0 where
  pub length_field : ℕ
  pub typ : FrameType
  pub flags : ℕ
  pub stream_id : ℕ
  pub payload : Bytes

-- `payload.len() as u32`
unfoldable pub new : FrameType → ℕ → ℕ → Bytes → Http2Frame
new typ flags stream_id payload = record {
  length_field = length payload % 2 ^ 32;
  typ = typ;
  flags = flags;
  stream_id = stream_id;
  payload = payload;
}

-- `BigEndian::write_u32`
unfoldable pub be_bytes : ℕ → Bytes
be_bytes n = n / 2 ^ 24 % 256 ∷ n / 2 ^ 16 % 256 ∷ n / 2 ^ 8 % 256 ∷ n % 256 ∷ []

-- The first nine bytes. `x & 0xff` is `x % 256`, and `x & ((1 << 31) - 1)` is `x % 2 ^ 31`.
unfoldable pub encode_header : Http2Frame → Bytes
unfolding be_bytes to_u8
encode_header f =
    f.length_field / 2 ^ 16 % 256
    ∷ f.length_field / 2 ^ 8 % 256
    ∷ f.length_field % 256
    ∷ to_u8 f.typ
    ∷ f.flags
    ∷ be_bytes (f.stream_id % 2 ^ 31)

-- `copy_from_slice` panics where the payload is not as long as the buffer behind the header.
unfoldable pub encode : Http2Frame → Result Bytes
unfolding encode_header
encode f = if length f.payload == f.length_field then ok (encode_header f ++ f.payload) else panic

-- `BigEndian::read_u32`
abbrev be_u32 : ℕ → ℕ → ℕ → ℕ → ℕ
be_u32 a b c d = a * 2 ^ 24 + b * 2 ^ 16 + c * 2 ^ 8 + d

-- The frame of the nine bytes and of what follows them; a short read and an unknown type are panics.
unfoldable pub read_payload : ℕ → ℕ → ℕ → ℕ → Bytes → Result (Http2Frame × Bytes)
unfolding try_from
read_payload len typ flags stream_id rest =
    if leb len (length rest)
    then (do
      t ← unwrap (try_from typ)
      ok (
        record {
          length_field = len;
          typ = t;
          flags = flags;
          stream_id = stream_id;
          payload = take len rest;
        },
        drop len rest,
      ))
    else panic

-- `read_frame`: the next frame, and the bytes behind it.
unfoldable pub read_frame : Bytes → Result (Http2Frame × Bytes)
unfolding read_payload
read_frame (l2 ∷ (l1 ∷ (l0 ∷ (typ ∷ (flags ∷ (s3 ∷ (s2 ∷ (s1 ∷ (s0 ∷ rest))))))))) =
    read_payload (l2 * 2 ^ 16 + l1 * 2 ^ 8 + l0) typ flags (be_u32 s3 s2 s1 s0 % 2 ^ 31) rest
read_frame _ = panic
