-- ===== src/Http2/Response/Wire.antt =====
-- A response as a peer reads it: frame by frame from the bytes that are written for it.
use jequi.Prelude.{
  ℕ, zero, suc, ◌%◌, ◌^◌, ◌<◌, ◌≡◌, refl, sym, ap, subst, ◌∙◌, false, List, [], ◌∷◌, ◌++◌,
  append_assoc, arith, ◌==◌, Bytes, length, All, Result, ok, ◌>>=◌, ok_injective,
}
use jequi.Headers.{Header, HeaderOps}
use jequi.Message.Response.{Response}
use jequi.Http1.Chunks.{chunks, IsChunk, concat-chunks}
use jequi.Http2.Frame.{headers_frame, Http2Frame, new, encode, read_frame}
use jequi.Http2.Frame.RoundTrip.{read_frame-encode}
use jequi.Http2.Response.{
  end_headers_flag, header_list, chunk_frames, body_frames, encode_all, response_bytes,
}
use jequi.Http2.Response.Frames.{payloads, EndsOnce, IsDataFrame, body_frames-EndsOnce}

-- The next frames, and the bytes behind them.
abbrev pub read_frames : ℕ → Bytes → Result (List Http2Frame × Bytes)
read_frames zero bytes = ok ([], bytes)
read_frames (suc count) bytes = do
  (f, more) ← read_frame bytes
  (fs, rest) ← read_frames count more
  ok (f ∷ fs, rest)

-- A frame that was made by `new`, and fits on the wire.
abbrev pub Fits : Http2Frame → Type 0
Fits f =
    (f ≡ new f.typ f.flags f.stream_id f.payload)
    × (f.stream_id < 2 ^ 31)
    × (length f.payload < 2 ^ 24)

read_frames-encode_all :
    (fs : List Http2Frame)
    → All Fits fs
    → (bytes : Bytes) × (encode_all fs ≡ ok bytes)
      × ((rest : Bytes) → read_frames (length fs) (bytes ++ rest) ≡ ok (fs, rest))
unfolding encode_all
read_frames-encode_all [] h = ([], refl, λ rest. refl)
read_frames-encode_all (f ∷ fs) ((made, low, short), h) =
    let (more, e, r) = read_frames-encode_all fs h in
    let (bytes, e', r') = read_frame-encode f.typ f.flags f.stream_id f.payload short in
    let same : new f.typ f.flags (f.stream_id % 2 ^ 31) f.payload ≡ f =
      ap (λ k. new f.typ f.flags k f.payload) (omega arith) ∙ sym made in
    let encoded : encode f ≡ ok bytes = ap encode made ∙ e' in
    let first : (rest : Bytes) → read_frame ((bytes ++ more) ++ rest) ≡ ok (f, more ++ rest) =
      λ rest.
        ap read_frame (append_assoc bytes more rest)
        ∙ r' (more ++ rest)
        ∙ ap (λ g. ok (g, more ++ rest)) same in
    (bytes ++ more, rw encoded (rw e refl), λ rest. rw (first rest) (rw (r rest) refl))

Fits-chunk_frames :
    (stream_id last i n : ℕ) (cs : List Bytes)
    → stream_id < 2 ^ 31
    → n < 2 ^ 24
    → All (IsChunk n) cs
    → All Fits (chunk_frames stream_id last i cs)
unfolding chunk_frames new
Fits-chunk_frames stream_id last i n [] low small h = tt
Fits-chunk_frames stream_id last i n (c ∷ cs) low small ((_, p), h) =
    ((refl, low, omega arith), Fits-chunk_frames stream_id last (suc i) n cs low small h)

body_frames-Fits :
    (stream_id n : ℕ) (body : Bytes) (fs : List Http2Frame)
    → stream_id < 2 ^ 31
    → 0 < n
    → n < 2 ^ 24
    → body_frames stream_id n body ≡ ok fs
    → All Fits fs
unfolding body_frames
body_frames-Fits stream_id n [] fs low pos small e =
    subst (All Fits) (ok_injective e) (unfold new in ((refl, low, omega arith), tt))
body_frames-Fits stream_id n (x ∷ xs) fs low pos small e =
    let zero_not : (n == 0) ≡ false = ground arith in
    subst (All Fits) (ok_injective (rw zero_not at e)) (
      Fits-chunk_frames stream_id _ 0 n (chunks n (x ∷ xs)) low small
        (concat-chunks n (x ∷ xs) pos).1)

-- For a chunk size that is not 0 and below 2^24, a stream identifier below 2^31 and a header block
-- below 2^24 bytes, the response is written, and a peer that reads frames from the bytes, whatever
-- stands behind them, reads a headers frame with the header block and the flag that ends headers,
-- and data frames of the stream that hold at most the chunk size each and together the body, of
-- which the last, alone, ends the stream.
pub response_bytes-read_frames :
    {M E : Type 0} ⦃ops : HeaderOps M⦄ (hpack : E → List Header → Bytes × E) (e : E)
    (stream_id n : ℕ) (r : Response M)
    → stream_id < 2 ^ 31
    → 0 < n
    → n < 2 ^ 24
    → length (hpack e (header_list r)).0 < 2 ^ 24
    → (bytes : Bytes) × (fs : List Http2Frame) × (response_bytes hpack e stream_id n r
        ≡ ok (bytes, (hpack e (header_list r)).1))
      × ((rest : Bytes)
          → read_frames (suc (length fs)) (bytes ++ rest)
            ≡ ok (
              new headers_frame end_headers_flag stream_id (hpack e (header_list r)).0 ∷ fs,
              rest,
            ))
      × (payloads fs ≡ r.body_buffer)
      × EndsOnce fs
      × All (IsDataFrame stream_id n) fs
unfolding response_bytes
response_bytes-read_frames hpack e stream_id n r low pos small block =
    let (fs, made, whole, ends, kinds) = body_frames-EndsOnce stream_id n r.body_buffer pos in
    let head = new headers_frame end_headers_flag stream_id (hpack e (header_list r)).0 in
    let (bytes, encoded, reads) = read_frames-encode_all (head ∷ fs) (
      unfold new in (refl, low, block),
      body_frames-Fits stream_id n r.body_buffer fs low pos small made,
    ) in
    (bytes, fs, rw made (rw encoded refl), reads, whole, ends, kinds)
