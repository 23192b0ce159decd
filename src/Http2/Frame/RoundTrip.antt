-- ===== src/Http2/Frame/RoundTrip.antt =====
-- A frame that is encoded is read back.
use jequi.Prelude.{
  ℕ, ◌+◌, ◌*◌, ◌/◌, ◌%◌, ◌^◌, ◌≤◌, ◌<◌, ◌≡◌, refl, ap, subst, ◌∙◌, ◌↔◌, ◌++◌, append_assoc, arith,
  le→leb, Bytes, length, take, drop, length-append, take-length_append, drop-length_append, ok,
}
use jequi.Http2.Frame.{
  FrameType, to_u8, try_from, Http2Frame, new, be_bytes, encode_header, encode, read_payload,
  read_frame,
}

try_from-to_u8 : (t : FrameType) → try_from (to_u8 t) ≡ ok t
unfolding try_from to_u8
try_from-to_u8 FrameType.headers_frame = refl
try_from-to_u8 t = refl

-- The code of a frame type stands for that type, and no other code does.
pub try_from_iff : (n : ℕ) (t : FrameType) → (try_from n ≡ ok t) ↔ (to_u8 t ≡ n)
try_from_iff n t = (code n t, λ e. subst (λ m. try_from m ≡ ok t) e (try_from-to_u8 t))
  where
    code : (m : ℕ) (u : FrameType) → try_from m ≡ ok u → to_u8 u ≡ m
    code m u h = unfold try_from to_u8 in ground arith

be_bytes_lem :
    (n : ℕ)
    → n < 2 ^ 32
    → n / 2 ^ 24 % 256 * 2 ^ 24 + n / 2 ^ 16 % 256 * 2 ^ 16 + n / 2 ^ 8 % 256 * 2 ^ 8 + n % 256 ≡ n
be_bytes_lem n h = omega arith

length_bytes_lem :
    (n : ℕ) → n / 2 ^ 16 % 256 * 2 ^ 16 + n / 2 ^ 8 % 256 * 2 ^ 8 + n % 256 ≡ n % 2 ^ 24
length_bytes_lem n = omega arith

read_payload_lem :
    (n : ℕ) (t : FrameType) (flags stream_id : ℕ) (rest : Bytes)
    → n ≤ length rest
    → read_payload n (to_u8 t) flags stream_id rest
      ≡ ok (
        record {
          length_field = n;
          typ = t;
          flags = flags;
          stream_id = stream_id;
          payload = take n rest;
        },
        drop n rest,
      )
unfolding read_payload
read_payload_lem n t flags stream_id rest h =
    rw (le→leb n (length rest) h) (rw (try_from-to_u8 t) refl)

read_header_lem :
    (f : Http2Frame) (rest : Bytes)
    → f.length_field % 2 ^ 24 ≤ length rest
    → read_frame (encode_header f ++ rest)
      ≡ ok (
        record {
          length_field = f.length_field % 2 ^ 24;
          typ = f.typ;
          flags = f.flags;
          stream_id = f.stream_id % 2 ^ 31;
          payload = take (f.length_field % 2 ^ 24) rest;
        },
        drop (f.length_field % 2 ^ 24) rest,
      )
unfolding read_frame encode_header be_bytes
read_header_lem f rest h = rw (length_bytes_lem f.length_field) (
    rw (be_bytes_lem (f.stream_id % 2 ^ 31) (omega arith)) (
      read_payload_lem (f.length_field % 2 ^ 24) f.typ f.flags (f.stream_id % 2 ^ 31 % 2 ^ 31) rest
        h
      ∙ ap
          (λ (s : ℕ). ok (
            record f {
              length_field = f.length_field % 2 ^ 24;
              stream_id = s;
              payload = take (f.length_field % 2 ^ 24) rest;
            },
            drop (f.length_field % 2 ^ 24) rest,
          ))
          (omega arith)))

module _ (typ : FrameType) (flags stream_id : ℕ) (payload : Bytes) where
  encode-new :
      length payload < 2 ^ 32
      → encode (new typ flags stream_id payload)
        ≡ ok (encode_header (new typ flags stream_id payload) ++ payload)
  unfolding encode new
  encode-new h = ground arith

  read_frame-encode_any :
      (rest : Bytes)
      → length payload < 2 ^ 32
      → read_frame ((encode_header (new typ flags stream_id payload) ++ payload) ++ rest)
        ≡ ok (
          record {
            length_field = length payload % 2 ^ 24;
            typ = typ;
            flags = flags;
            stream_id = stream_id % 2 ^ 31;
            payload = take (length payload % 2 ^ 24) (payload ++ rest);
          },
          drop (length payload % 2 ^ 24) (payload ++ rest),
        )
  unfolding new
  read_frame-encode_any rest h = rw append_assoc (
      read_header_lem (new typ flags stream_id payload) (payload ++ rest)
        (omega (arith, length-append payload rest))
      ∙ ap
          (λ (k : ℕ). ok (
            record {
              length_field = k;
              typ = typ;
              flags = flags;
              stream_id = stream_id % 2 ^ 31;
              payload = take k (payload ++ rest);
            },
            drop k (payload ++ rest),
          ))
          (omega arith))

  -- A frame made with a payload below 2^24 bytes is encoded, and read back from the bytes, with
  -- anything behind them, as it was made, but for the reserved bit of its stream identifier; what
  -- stands behind it is left.
  pub read_frame-encode :
      length payload < 2 ^ 24
      → (bytes : Bytes) × (encode (new typ flags stream_id payload) ≡ ok bytes)
        × ((rest : Bytes)
            → read_frame (bytes ++ rest) ≡ ok (new typ flags (stream_id % 2 ^ 31) payload, rest))
  unfolding new
  read_frame-encode h = (
    encode_header (new typ flags stream_id payload) ++ payload,
    encode-new (omega arith),
    λ rest.
        read_frame-encode_any rest (omega arith)
        ∙ ap
            (λ (k : ℕ). ok (
              record {
                length_field = k;
                typ = typ;
                flags = flags;
                stream_id = stream_id % 2 ^ 31;
                payload = take k (payload ++ rest);
              },
              drop k (payload ++ rest),
            ))
            {x = length payload % 2 ^ 24} {y = length payload} (omega arith)
        ∙ rw (take-length_append payload rest)
            (rw (drop-length_append payload rest) (rw (small) refl)),
  )
    where
      small : length payload % 2 ^ 32 ≡ length payload
      small = omega arith
